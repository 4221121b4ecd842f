-- ===== src/Domain/Action.antt =====
-- mcp_server/domain/action.py: the payloads of actions, built from a rule status and engine
-- evaluations.
pub mod Legal
use chessy_mcp.Prelude.{
  ℕ, suc, ℤ, String, Bool, true, false, not, ◌&&◌, ◌||◌, Option, none, some, List, [], ◌∷◌, ◌++◌,
  map, Assoc, lookup, is_some, is_empty, str_eq, lower, if◌then◌else◌,
}
use chessy_mcp.Chess.{Chess}
use chessy_mcp.Rules.ActionChoice.{
  Action, play_move, claim_draw, claim_draw_with_intended_move, game_over,
}
use chessy_mcp.Rules.Status.{RuleStatus, contains, first}

-- The payload of `type` `play_move` has a `value` just if `cp` or `mate` is there.
pub data GameAction : Type 0 where
  play : (uci : String) (san : Option String) (cp mate : Option ℤ) → GameAction
  claim : (reason : String) → GameAction
  claim_intended : (reason uci : String) (san : Option String) → GameAction
  over : (outcome reason : String) (perspective : Option String) → GameAction

-- what the functions read of an evaluation
pub record EngineEval : Type 0 where
  pub best_move : Option String
  pub cp : Option ℤ
  pub mate : Option ℤ

abbrev pub type_of : GameAction → Action
type_of (play uci san cp mate) = play_move
type_of (claim reason) = claim_draw
type_of (claim_intended reason uci san) = claim_draw_with_intended_move
type_of (over outcome reason perspective) = game_over

-- `x or y` of texts that may be missing
abbrev pub or_text : Option String → Option String → Option String
or_text none y = y
or_text (some s) y = if is_empty s then y else some s

-- `reasons[0] if reasons else "threefold_repetition"`
abbrev pub first_reason : List String → String
first_reason [] = "threefold_repetition"
first_reason (reason ∷ reasons) = reason

abbrev pub or_list : List String → List String → List String
or_list [] ys = ys
or_list (x ∷ xs) ys = x ∷ xs

abbrev pub found_list : Option (List String) → List String
found_list none = []
found_list (some l) = l

-- `reason_map.get(uci) or rule_status.claim_reasons or ["threefold_repetition"]`
unfoldable pub reasons_for : RuleStatus → String → List String
unfolding lookup
reasons_for s uci =
    or_list (found_list (lookup uci s.intended_claim_reasons_by_uci))
      (or_list s.claim_reasons ("threefold_repetition" ∷ []))

-- the action of a game that is over
unfoldable pub over_action : RuleStatus → String → GameAction
over_action s terminal =
    if str_eq terminal "checkmate"
    then over
        (elim s.winner [ none ↦ "loss" | some w ↦ if str_eq w "white" then "win" else "loss" ])
        terminal (some "white")
    else over "draw" terminal (some "draw")

-- `none` is the `ValueError` of an illegal action
unfoldable pub build_played_action :
    Action → String → Option String → RuleStatus → Option ℤ → Option ℤ → Option GameAction
unfolding reasons_for
build_played_action play_move uci san s cp mate = some (play uci san cp mate)
build_played_action claim_draw uci san s cp mate =
    if s.can_claim_now then some (claim (first_reason s.claim_reasons_now)) else none
build_played_action claim_draw_with_intended_move uci san s cp mate =
    if contains uci s.intended_claim_ucis
    then some (claim_intended (first_reason (reasons_for s uci)) uci san)
    else none
build_played_action game_over uci san s cp mate = none

-- the intended moves with their SANs, by index; a missing SAN is `None`
unfoldable pub paired : List String → List (Option String) → List (String × Option String)
paired [] sans = []
paired (uci ∷ ucis) [] = (uci, none) ∷ paired ucis []
paired (uci ∷ ucis) (san ∷ sans) = (uci, san) ∷ paired ucis sans

-- a UCI text that is there and not empty
abbrev pub named : Option String → Option String
named none = none
named (some s) = if is_empty s then none else some s

unfoldable pub intended_pairs : RuleStatus → List (String × Option String)
unfolding paired
intended_pairs s = elim s.intended_claim_ucis [
  | uci ∷ ucis ↦ paired (uci ∷ ucis) (map some s.intended_claim_sans)
  | [] ↦ elim (named s.claim_move_uci) [
    | none ↦ []
    | some uci ↦ (uci, or_text s.claim_move_san s.claim_move) ∷ []
  ]
]

-- `DRAW_REASONS_VALID`
abbrev pub is_draw_reason : String → Bool
is_draw_reason reason = str_eq reason "fifty_moves" || str_eq reason "threefold_repetition"

unfoldable pub claims_of : String → Option String → List String → List GameAction
claims_of uci san [] = []
claims_of uci san (reason ∷ reasons) =
    let rest = claims_of uci san reasons in
    if is_draw_reason reason then claim_intended reason uci san ∷ rest else rest

unfoldable pub all_claims_of : RuleStatus → List (String × Option String) → List GameAction
unfolding claims_of reasons_for
all_claims_of s [] = []
all_claims_of s ((uci, san) ∷ pairs) =
    claims_of uci san (reasons_for s uci) ++ all_claims_of s pairs

-- the parts of `build_legal_actions`
unfoldable pub now_claims : RuleStatus → List GameAction
now_claims s = if s.can_claim_now then map claim s.claim_reasons_now else []

unfoldable pub intended_claims : RuleStatus → List GameAction
unfolding intended_pairs all_claims_of
intended_claims s =
    if s.can_claim_with_intended_move then all_claims_of s (intended_pairs s) else []

unfoldable pub over_actions : RuleStatus → List GameAction
unfolding over_action
over_actions s = elim s.terminal [ none ↦ [] | some terminal ↦ over_action s terminal ∷ [] ]

module _ (c : Chess) where
  open c use {Board, Move, legal_moves, uci, san}

  unfoldable pub san_among : Board → String → List Move → Option String
  san_among b text [] = none
  san_among b text (m ∷ moves) =
      let rest = san_among b text moves in if str_eq (uci m) text then san b m else rest

  -- the SAN of a legal move on the board, if there is a board
  unfoldable pub san_of : Option Board → String → Option String
  unfolding san_among lower
  san_of none text = none
  san_of (some b) text = san_among b (lower text) (legal_moves b)

  unfoldable pub build_best_action :
      Action → RuleStatus → Option EngineEval → Option Board → GameAction
  unfolding over_action reasons_for san_of
  build_best_action recommended s engine board =
      let played : GameAction = elim engine [
        | none ↦ play "" none none none
        | some e ↦ elim (named e.best_move) [
          | none ↦ play "" none none none
          | some text ↦ play text (san_of board text) e.cp e.mate
        ]
      ] in
      elim s.terminal [
        | some terminal ↦ over_action s terminal
        | none ↦ elim recommended [
          | play_move ↦ played
          | claim_draw ↦
              if s.can_claim_now then claim (first_reason s.claim_reasons_now) else played
          | claim_draw_with_intended_move ↦
              if s.can_claim_with_intended_move
              then elim (named s.claim_move_uci) [
                | none ↦ played
                | some text ↦
                    claim_intended (first_reason (reasons_for s text)) text
                      (or_text s.claim_move_san s.claim_move)
              ]
              else played
          | game_over ↦ played
        ]
      ]

  -- the moves of the engine
  unfoldable pub engine_actions : Option Board → List EngineEval → List GameAction
  unfolding san_of
  engine_actions board [] = []
  engine_actions board (e ∷ evals) =
      let rest = engine_actions board evals in
      elim (named e.best_move) [
        | none ↦ rest
        | some text ↦ play text (san_of board text) e.cp e.mate ∷ rest
      ]

  unfoldable pub build_legal_actions : RuleStatus → Option Board → List EngineEval → List GameAction
  build_legal_actions s board moves =
      now_claims s ++ (intended_claims s ++ (engine_actions board moves ++ over_actions s))
