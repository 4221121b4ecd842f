-- ===== src/Analysis/Reconcile.antt =====
-- mcp_server/analysis/termination_resolution.py, result_reconciliation.py and
-- reconciliation_warnings.py: the result and the termination of a game, from its final board, its
-- headers and its movetext. `normalize` is `normalize_termination` of mcp_server/tools/_common.py.
-- A warning is named by what it is about; its wording is left out.
pub mod Result
pub mod Truth
use chessy_mcp.Prelude.{
  ℕ, ltb, leb, String, Bool, true, false, not, ◌&&◌, ◌||◌, Option, none, some, List, [], ◌∷◌, ◌++◌,
  str_eq, is_empty, is_some, lower, strip, contains_text, if◌then◌else◌,
}
use chessy_mcp.Chess.{Chess}
use chessy_mcp.Rules.DeadPosition.{is_locked_dead_position}
use chessy_mcp.Rules.Status.{RuleStatus, contains, word}
use chessy_mcp.Rules.Evaluate.{evaluate_rule_status}
use chessy_mcp.Rules.Pv.{Law, validate_mating_possibility}

pub data Warning : Type 0 where
  from_metadata : String → Warning
  header_against_board movetext_against_board header_against_movetext : Warning
  cannot_mate : Law → Warning
  termination_against_board termination_against_position : String → Warning
  unrecognised_termination contradictory_metadata premature_agreement : Warning

-- what is read of `GameMetadata`
pub record GameMetadata : Type 0 where
  pub result_header : Option String
  pub result_header_raw : Option String
  pub termination_header : Option String
  pub metadata_warnings : List Warning

-- a text that is there and not empty
abbrev pub full : Option String → Option String
full none = none
full (some s) = if is_empty s then none else some s

-- a result that says how the game ended
abbrev pub decided : Option String → Option String
decided none = none
decided (some s) = if is_empty s || str_eq s "*" || str_eq s "?" then none else some s

abbrev pub differs : Option String → String → Bool
differs none t = false
differs (some s) t = not (str_eq s t)

abbrev pub warn_if : Bool → Warning → List Warning
warn_if b w = if b then w ∷ [] else []

abbrev pub both_differ : Option String → Option String → Bool
both_differ none o = false
both_differ (some s) o = differs o s

-- `x or y or "*"`
abbrev pub first_full : Option String → Option String → String
first_full x y = elim (full x) [ some s ↦ s | none ↦ elim (full y) [ some t ↦ t | none ↦ "*" ] ]

-- `_pick_result_value`, with its warnings
unfoldable pub pick_result_value :
    Option String → GameMetadata → Option String → String × List Warning
pick_result_value (some board) m movetext = (
  board,
  warn_if (differs (decided m.result_header) board) header_against_board
      ++ warn_if (differs (decided movetext) board) movetext_against_board,
)
pick_result_value none m movetext = (
  elim (decided m.result_header) [
    | some s ↦ s
    | none ↦ elim (decided movetext) [ some t ↦ t | none ↦ first_full m.result_header movetext ]
  ],
  warn_if (both_differ (full m.result_header_raw) (full movetext)) header_against_movetext,
)

-- `infer_from_termination`
unfoldable pub infer_from_termination : Option String → Option String
unfolding lower contains_text
infer_from_termination none = none
infer_from_termination (some header) =
    let t = lower header in
    let won = contains_text "won" t || contains_text "wins" t in
    if contains_text "white" t && won
    then some "1-0"
    else if contains_text "black" t && won
    then some "0-1"
    else none

abbrev pub is_one_of : Option String → List String → Bool
is_one_of none l = false
is_one_of (some s) l = contains s l

-- the position's own drawing conditions, and a header that names one of them
module _ (c : Chess) where
  open c use {
    Board, turn, halfmove_clock, is_stalemate, is_insufficient_material, is_seventyfive_moves,
    is_fivefold_repetition, is_fifty_moves, is_repetition,
  }

  -- `is_concurrent_board_match`
  unfoldable pub is_concurrent_board_match : Option String → Board → Bool
  unfolding is_locked_dead_position
  is_concurrent_board_match none b = false
  is_concurrent_board_match (some t) b =
      if str_eq t "stalemate"
      then is_stalemate b
      else if str_eq t "seventyfive_moves"
      then is_seventyfive_moves b
      else if str_eq t "fivefold_repetition"
      then is_fivefold_repetition b
      else if str_eq t "insufficient_material"
      then is_insufficient_material b
      else if str_eq t "fifty_moves"
      then is_fifty_moves b || leb 100 (halfmove_clock b)
      else if str_eq t "threefold_repetition"
      then is_repetition b
      else if str_eq t "dead_position"
      then is_locked_dead_position c b
      else false

  -- the header of a game whose board says nothing
  unfoldable pub resolve_header : Board → String → Option String → Option String × List Warning
  resolve_header b header none = (none, [])
  resolve_header b header (some norm) =
      let refused : Option String × List Warning =
        (none, termination_against_position header ∷ []) in
      if str_eq norm "normal"
      then (some "normal", [])
      else if contains norm ("checkmate" ∷ "stalemate" ∷ [])
      then refused
      else if str_eq norm "threefold_repetition"
      then (if is_repetition b then (some norm, []) else refused)
      else if str_eq norm "fifty_moves"
      then (if not (is_fifty_moves b) && ltb (halfmove_clock b) 100
          then refused
          else (some norm, []))
      else if contains norm (
          "insufficient_material" ∷ "seventyfive_moves" ∷ "fivefold_repetition" ∷ "dead_position"
          ∷ [])
      then refused
      else (some norm, [])

  module _ (normalize : String → Option String) where
    -- `resolve_termination`
    unfoldable pub resolve_termination :
        Board → Option String → Option String → Option String × List Warning
    unfolding is_concurrent_board_match resolve_header
    resolve_termination b header (some auto) = (
      some auto,
      elim (full header) [
        | none ↦ []
        | some text ↦
            warn_if
              (not (is_one_of (normalize text) ("normal" ∷ auto ∷ []))
                && not (is_concurrent_board_match (normalize text) b))
              (termination_against_board text)
      ],
    )
    resolve_termination b header none = elim (full header) [
      | none ↦ (none, [])
      | some text ↦ resolve_header b text (normalize text)
    ]
