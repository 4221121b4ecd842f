-- ===== src/Domain/ActionEvaluation.antt =====
-- mcp_server/domain/action_evaluation.py: the value of an action, and the choice among actions. A
-- rule status that a caller gives is never of the board behind the move, which is a fresh copy, so
-- the code always takes its own.
pub mod Choice
use chessy_mcp.Prelude.{
  ℕ, suc, zero, ℤ, pos, negsuc, negate, ltbℤ, String, Bool, true, false, not, ◌&&◌, ◌||◌, Option,
  none, some, List, [], ◌∷◌, lower, str_eq, if◌then◌else◌,
}
use chessy_mcp.Chess.{Chess}
use chessy_mcp.Rules.Pv.{find_move}
use chessy_mcp.Domain.Action.{GameAction, play, claim, claim_intended, over, EngineEval}

pub data Outcome : Type 0 where
  active : Outcome
  win : Outcome
  loss : Outcome
  draw : Outcome

pub data ActionSource : Type 0 where
  post_position : ActionSource
  rule_default : ActionSource

pub record ActionEvaluation : Type 0 where
  pub action : GameAction
  pub outcome : Outcome
  pub canonical_value : Option ℤ
  pub mate_distance : Option ℤ
  pub source : ActionSource
  pub rule_value : Option Outcome

abbrev pub mate_cp : ℕ
mate_cp = 100000

-- `-MATE_CP`
abbrev pub minus_mate_cp : ℤ
minus_mate_cp = negsuc 99999

-- `_outcome_from_game_over`
abbrev pub outcome_from_game_over : String → Outcome
outcome_from_game_over raw =
    if str_eq raw "win" then win else if str_eq raw "loss" then loss else draw

-- an action whose outcome the rules decide
abbrev pub by_rules : GameAction → Outcome → Option ℤ → ActionEvaluation
by_rules action outcome value = record {
  action = action;
  outcome = outcome;
  canonical_value = value;
  mate_distance = none;
  source = rule_default;
  rule_value = some outcome;
}

-- the value of an outcome at the end of a game
abbrev pub final_value : Outcome → ℤ
final_value win = pos mate_cp
final_value loss = minus_mate_cp
final_value o = pos 0

-- what `_post_state_engine_eval` makes of an evaluation
unfoldable pub engine_value : Bool → EngineEval → Option ℤ × Option ℤ
unfolding negate
engine_value mover ev = elim ev.mate [
  | some mate ↦
      let m = if mover then mate else negate mate in
      if ltbℤ (pos 0) m
      then (some (pos mate_cp), some m)
      else if ltbℤ m (pos 0)
      then (some minus_mate_cp, some m)
      else (some (pos 0), some (pos 0))
  | none ↦ elim ev.cp [
    | none ↦ (none, none)
    | some cp ↦ (some (if mover then cp else negate cp), none)
  ]
]

-- `pool` is `pool.evaluate` where there is a pool; it gives `none` when it raises
module _ (c : Chess) (pool : Option (c.Board → ℕ → Option EngineEval)) where
  open c use {
    Board, Move, turn, push, legal_moves, is_checkmate, is_stalemate, is_insufficient_material,
    is_seventyfive_moves, is_fivefold_repetition,
  }

  -- `_quick_post_rule_status`: the terminal word, and the winner of a checkmate
  unfoldable pub quick_post_rule_status : Board → Option (String × Option Bool)
  quick_post_rule_status post =
      if is_checkmate post
      then some ("checkmate", some (not (turn post)))
      else if is_stalemate post
      then some ("stalemate", none)
      else if is_insufficient_material post
      then some ("insufficient_material", none)
      else if is_seventyfive_moves post
      then some ("seventyfive_moves", none)
      else if is_fivefold_repetition post
      then some ("fivefold_repetition", none)
      else none

  -- `_post_outcome`
  unfoldable pub post_outcome : Option (String × Option Bool) → Bool → Outcome
  post_outcome none mover = active
  post_outcome (some (term, winner)) mover =
      if str_eq term "checkmate"
      then elim winner [
        | none ↦ active
        | some white ↦
            if white then (if mover then win else loss) else (if mover then loss else win)
      ]
      else draw

  -- `_post_state_engine_eval`
  unfoldable pub post_state_engine_eval : Board → Bool → ℕ → Option ℤ × Option ℤ
  unfolding engine_value
  post_state_engine_eval post mover depth = elim pool [
    | none ↦ (none, none)
    | some evaluate ↦ elim (evaluate post depth) [
      | none ↦ (none, none)
      | some ev ↦ engine_value mover ev
    ]
  ]

  -- the value of a legal move by the position behind it
  unfoldable pub evaluate_after : Board → GameAction → ℕ → Move → ActionEvaluation
  unfolding quick_post_rule_status post_outcome post_state_engine_eval
  evaluate_after b action depth m =
      let post = push b m in
      let (value, distance) = post_state_engine_eval post (turn b) depth in
      let searched : ActionEvaluation = record {
        action = action;
        outcome = active;
        canonical_value = value;
        mate_distance = distance;
        source = post_position;
        rule_value = none;
      } in
      let ended : Outcome → ActionEvaluation = λ o. record {
        action = action;
        outcome = o;
        canonical_value = some (final_value o);
        mate_distance = if is_checkmate post then some (pos 1) else none;
        source = post_position;
        rule_value = some o;
      } in
      elim (post_outcome (quick_post_rule_status post) (turn b)) [
        | active ↦ searched
        | win ↦ ended win
        | loss ↦ ended loss
        | draw ↦ ended draw
      ]

  -- `evaluate_action`
  unfoldable pub evaluate_action : Board → GameAction → ℕ → ActionEvaluation
  unfolding lower find_move evaluate_after
  evaluate_action b (over outcome reason perspective) depth =
      by_rules (over outcome reason perspective) (outcome_from_game_over outcome) none
  evaluate_action b (claim reason) depth = by_rules (claim reason) draw (some (pos 0))
  evaluate_action b (claim_intended reason uci san) depth =
      by_rules (claim_intended reason uci san) draw (some (pos 0))
  evaluate_action b (play uci san cp mate) depth = elim (find_move c (lower uci) (legal_moves b)) [
    | none ↦ record {
      action = play uci san cp mate;
      outcome = active;
      canonical_value = none;
      mate_distance = none;
      source = rule_default;
      rule_value = none;
    }
    | some m ↦ evaluate_after b (play uci san cp mate) depth m
  ]

abbrev pub is_play : GameAction → Bool
is_play (play uci san cp mate) = true
is_play a = false

abbrev pub winning : ActionEvaluation → Bool
winning e = elim e.outcome [ win ↦ is_play e.action | _ ↦ false ]

abbrev pub claiming : ActionEvaluation → Bool
claiming e = elim e.outcome [ draw ↦ not (is_play e.action) | _ ↦ false ]

abbrev pub open_ended : ActionEvaluation → Bool
open_ended e = elim e.outcome [ active ↦ is_play e.action | _ ↦ false ]

abbrev pub losing : ActionEvaluation → Bool
losing e = elim e.outcome [ loss ↦ is_play e.action | _ ↦ false ]

-- `x or d` of a number that may be missing
abbrev pub or_number : Option ℤ → ℤ → ℤ
or_number none d = d
or_number (some (pos zero)) d = d
or_number (some x) d = x

abbrev pub or_value : Option ℤ → ℤ → ℤ
or_value none d = d
or_value (some x) d = x

-- the orders by which the candidates are sorted: `a` stands strictly before `b`
abbrev pub wins_sooner : ActionEvaluation → ActionEvaluation → Bool
wins_sooner a b =
    let x = or_number a.mate_distance (pos mate_cp) in
    let y = or_number b.mate_distance (pos mate_cp) in
    ltbℤ x y
    || (not (ltbℤ y x)
        && ltbℤ (or_number b.canonical_value (pos 0)) (or_number a.canonical_value (pos 0)))

abbrev pub is_worth_more : ActionEvaluation → ActionEvaluation → Bool
is_worth_more a b =
    ltbℤ (or_value b.canonical_value minus_mate_cp) (or_value a.canonical_value minus_mate_cp)

abbrev pub loses_less : ActionEvaluation → ActionEvaluation → Bool
loses_less a b = ltbℤ (or_number b.canonical_value (pos 0)) (or_number a.canonical_value (pos 0))

-- the first of the candidates when they are sorted, which keeps the order of equal ones
unfoldable pub first_of :
    (ActionEvaluation → Bool)
    → (ActionEvaluation → ActionEvaluation → Bool)
    → List ActionEvaluation
    → Option ActionEvaluation
first_of wanted before [] = none
first_of wanted before (e ∷ evaluations) =
    let rest = first_of wanted before evaluations in
    if wanted e
    then elim rest [ none ↦ some e | some f ↦ if before f e then some f else some e ]
    else rest

abbrev pub head : List ActionEvaluation → Option ActionEvaluation
head [] = none
head (e ∷ evaluations) = some e

abbrev pub or_else : Option ActionEvaluation → Option ActionEvaluation → Option ActionEvaluation
or_else none o = o
or_else (some e) o = some e

-- `choose_recommended_action`; `none` where it raises on an empty list
unfoldable pub choose_recommended_action :
    List ActionEvaluation → Bool → Bool → Option ActionEvaluation
unfolding first_of
choose_recommended_action evaluations can_claim_now can_claim_with_intended_move =
    or_else (first_of winning wins_sooner evaluations) (
      or_else
        (if can_claim_now || can_claim_with_intended_move
          then first_of claiming (λ a b. false) evaluations
          else none)
        (or_else (first_of open_ended is_worth_more evaluations)
          (or_else (first_of losing loses_less evaluations) (head evaluations))))
