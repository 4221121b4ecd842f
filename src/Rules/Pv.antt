-- ===== src/Rules/Pv.antt =====
-- mcp_server/rules/pv.py: principal variations that end with the game, and results that the
-- material does not bear out.
pub mod Playable
use chessy_mcp.Prelude.{
  String, Bool, true, false, not, ◌&&◌, ◌||◌, Option, none, some, List, [], ◌∷◌, str_eq, lower,
  strip, is_empty, contains_text, if◌then◌else◌, Regex, both, either, many, optional, literal,
  some_of, sequence, any_of, blank, search_word,
}
use chessy_mcp.Chess.{Chess}
use chessy_mcp.Rules.DeadPosition.{is_locked_dead_position}
use chessy_mcp.Rules.Terminal.{can_checkmate, is_terminal_position}

-- `_TIME_FORFEIT_REGEX`
unfoldable pub time_forfeit : Regex
unfolding sequence any_of some_of literal optional
time_forfeit =
    either
      (sequence (
        literal "time"
        ∷ many blank
        ∷ any_of ("forfeit" ∷ "expired" ∷ "exhausted" ∷ "loss" ∷ [])
        ∷ []))
      (either
        (sequence
          (literal "out" ∷ some_of blank ∷ literal "of" ∷ some_of blank ∷ literal "time" ∷ []))
        (either
          (sequence (literal "flag" ∷ many blank ∷ any_of ("fell" ∷ "fall" ∷ "dropped" ∷ []) ∷ []))
          (either
            (sequence
              (literal "lost" ∷ some_of blank ∷ literal "on" ∷ some_of blank ∷ literal "time" ∷ []))
            (either
              (sequence (
                any_of ("white" ∷ "black" ∷ [])
                ∷ some_of blank
                ∷ any_of ("win" ∷ "wins" ∷ "won" ∷ [])
                ∷ some_of blank
                ∷ literal "on"
                ∷ some_of blank
                ∷ literal "time"
                ∷ []))
              (sequence
                (literal "clock" ∷ some_of blank ∷ any_of ("flagged" ∷ "expired" ∷ []) ∷ []))))))

-- `_RULES_INFRACTION_REGEX`
unfoldable pub rules_infraction : Regex
unfolding sequence any_of some_of literal optional
rules_infraction =
    either (sequence (any_of ("rule" ∷ "rules" ∷ []) ∷ some_of blank ∷ literal "infraction" ∷ [])) (
      either
        (sequence (
          optional (both (literal "second") (some_of blank))
          ∷ literal "illegal"
          ∷ some_of blank
          ∷ literal "move"
          ∷ []))
        (any_of ("infraction" ∷ "illegal" ∷ [])))

-- the Law that a decisive result without the means to mate falls under
pub data Law : Type 0 where
  resignation time_forfeited infraction : Law

unfoldable pub law_of : String → Option Law
unfolding lower strip contains_text time_forfeit rules_infraction search_word
law_of termination =
    let text = lower (strip termination) in
    if contains_text "resign" text
    then some resignation
    else if search_word time_forfeit false text
    then some time_forfeited
    else if search_word rules_infraction false text
    then some infraction
    else none

module _ (c : Chess) where
  open c use {
    Board, Move, push, legal_moves, uci, is_checkmate, is_stalemate, is_insufficient_material,
    is_seventyfive_moves, is_fivefold_repetition,
  }

  -- the legal move with a UCI text
  unfoldable pub find_move : String → List Move → Option Move
  find_move text [] = none
  find_move text (m ∷ moves) =
      let rest = find_move text moves in if str_eq (uci m) text then some m else rest

  -- `truncate_pv_at_terminal`
  unfoldable pub truncate_pv_at_terminal : Board → List String → List String
  unfolding find_move lower is_terminal_position
  truncate_pv_at_terminal b [] = []
  truncate_pv_at_terminal b (text ∷ pv) = elim (find_move (lower text) (legal_moves b)) [
    | none ↦ []
    | some m ↦
        let rest = truncate_pv_at_terminal (push b m) pv in
        uci m ∷ (if is_terminal_position c (push b m) then [] else rest)
  ]

  -- the result that stands, and the Law that made a win a draw
  unfoldable pub downgraded : Board → Law → String → String × Option Law
  downgraded b law result =
      if str_eq result "1-0"
      then (if can_checkmate c b true then (result, none) else ("1/2-1/2", some law))
      else if str_eq result "0-1"
      then (if can_checkmate c b false then (result, none) else ("1/2-1/2", some law))
      else (result, none)

  -- `validate_mating_possibility`, of a result that is there
  unfoldable pub validate_mating_possibility : Board → String → Option String → String × Option Law
  unfolding downgraded
  validate_mating_possibility b result none = (result, none)
  validate_mating_possibility b result (some termination) =
      if is_empty termination || is_empty result
      then (result, none)
      else elim (law_of termination) [ none ↦ (result, none) | some law ↦ downgraded b law result ]
