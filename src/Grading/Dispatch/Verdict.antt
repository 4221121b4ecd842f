-- ===== src/Grading/Dispatch/Verdict.antt =====
-- What mcp_server/analysis/move_grading/dispatcher.py says of a move that the recommendation asks
-- for, and when it refuses to grade.
use chessy_mcp.Prelude.{
  ℕ, ℤ, ◌≡◌, refl, Bool, true, false, not, ◌||◌, ◌⊎◌, ◌↔◌, Option, none, some, arith, String, List,
  lower, map,
}
use chessy_mcp.Chess.{Chess}
use chessy_mcp.Rules.ActionChoice.{
  Action, play_move, claim_draw, claim_draw_with_intended_move, game_over,
}
use chessy_mcp.Rules.Status.{RuleStatus}
use chessy_mcp.Grading.Score.{PlayedMoveScore, same_action, is_play, is_claim}
use chessy_mcp.Grading.Terminal.{score_delivered_checkmate, score_received_checkmate}
use chessy_mcp.Grading.Draw.{Eval, score_claim_draw_action, is_claim_legal}
use chessy_mcp.Grading.Dispatch.All.{if-All, map_score-any, All-some}
use chessy_mcp.Grading.Enforce.{
  with_claim, credited, cleared, enforce_invariants, is_bad, is_mate_transition,
}
use chessy_mcp.Grading.Dispatch.{
  grade, strategy_score, first_strategy, canonical_best_action, is_best_engine_move, map_score,
  or_score, is_only_legal_move,
}

module _ (best : Action) (rb : RuleStatus) (action : Action) (e o : Bool)
    (s : PlayedMoveScore) where
  with_claim_keeps :
      ((with_claim best rb action e o s).move_class ≡ s.move_class)
      × ((with_claim best rb action e o s).effective_loss ≡ s.effective_loss)
  unfolding with_claim
  with_claim_keeps = ground arith

  credited_keeps :
      ((credited best rb action e o s).move_class ≡ s.move_class)
      × ((credited best rb action e o s).effective_loss ≡ s.effective_loss)
  unfolding credited
  credited_keeps = ground arith

  cleared_lem :
      (is_bad (cleared best rb action e o s).move_class ≡ false)
      × ((cleared best rb action e o s).effective_loss ≡ 0)
  unfolding cleared
  cleared_lem = ground arith

module _ (c : Chess) (win_pct : ℤ → ℕ) (b a : c.Board) (m : c.Move) (eb ea em : Eval)
    (rb ra : RuleStatus) (action : Action) where
  abbrev best : Action
  best = canonical_best_action c win_pct b a m eb ea em rb ra action

  abbrev is_engine : Bool
  is_engine = is_best_engine_move c win_pct b a m eb ea em rb ra action

  abbrev is_only : Bool
  is_only = is_only_legal_move c win_pct b a m eb ea em rb ra action

  -- a mate transition where there was a choice, or a move that is not graded down
  abbrev pub IsForgiven : PlayedMoveScore → Type 0
  IsForgiven s =
      ((is_mate_transition s.loss_kind ≡ true) × (is_only ≡ false))
      ⊎ ((is_bad s.move_class ≡ false) × (s.effective_loss ≡ 0))

  forgiven :
      (s : PlayedMoveScore)
      → same_action best action ≡ true
      → (is_engine || is_only) ≡ true
      → IsForgiven (enforce_invariants best rb action is_engine is_only s)
  unfolding enforce_invariants
  forgiven s h k = ground (
    arith,
    h,
    k,
    cleared_lem best rb action is_engine is_only s,
    credited_keeps best rb action is_engine is_only s,
    with_claim_keeps best rb action is_engine is_only (credited best rb action is_engine is_only s),
  )

  -- A move that the recommendation asks for, which is the engine's best or the only legal one, is
  -- graded best or good, with no effective loss, unless there was a choice and the loss is of the
  -- kind `mate_transition`.
  pub grade-IsForgiven :
      (s : PlayedMoveScore)
      → same_action best action ≡ true
      → (is_engine || is_only) ≡ true
      → grade c win_pct b a m eb ea em rb ra action ≡ some s
      → ((is_mate_transition s.loss_kind ≡ true) × (is_only ≡ false))
        ⊎ ((is_bad s.move_class ≡ false) × (s.effective_loss ≡ 0))
  unfolding grade
  grade-IsForgiven s h k = All-some IsForgiven _ s (
      if-All IsForgiven (not (is_play action || is_claim action)) _ _ tt
        (map_score-any IsForgiven _ _ (λ t. forgiven t h k)))

module _ (best : Action) (rb : RuleStatus) (action : Action) where
  claim_refused :
      (uci played : String) (ucis : List String) (v : ℤ) (mate : Option ℤ) (e : Bool)
      → (score_claim_draw_action best rb action uci played ucis v mate e ≡ none)
        ↔ (is_claim_legal best rb action played ucis ≡ false)
  unfolding score_claim_draw_action
  claim_refused uci played ucis v mate e = ground arith

map_score-none :
    (f : PlayedMoveScore → PlayedMoveScore) (o : Option PlayedMoveScore)
    → (map_score f o ≡ none) ↔ (o ≡ none)
map_score-none f none = ground arith
map_score-none f (some s) = ground arith

-- a move is always graded
graded :
    (f : PlayedMoveScore → PlayedMoveScore) (o : Option PlayedMoveScore) (s : PlayedMoveScore)
    (l : Bool)
    → (map_score f (or_score o (some s)) ≡ none)
      ↔ ((play_move ≡ game_over) ⊎ ((is_claim play_move ≡ true) × (l ≡ false)))
graded f none s l = ground arith
graded f (some t) s l = ground arith

-- a claim is graded if it is legal
refused :
    (action : Action) (f : PlayedMoveScore → PlayedMoveScore) (o : Option PlayedMoveScore)
    (l : Bool)
    → is_claim action ≡ true
    → (o ≡ none) ↔ (l ≡ false)
    → (map_score f o ≡ none) ↔ ((action ≡ game_over) ⊎ ((is_claim action ≡ true) × (l ≡ false)))
refused play_move f o l h k = ground arith
refused game_over f o l h k = ground arith
refused claim_draw f o l h k = ground (arith, map_score-none f o, k)
refused claim_draw_with_intended_move f o l h k = ground (arith, map_score-none f o, k)

module _ (c : Chess) (win_pct : ℤ → ℕ) (b a : c.Board) (m : c.Move) (eb ea em : Eval)
    (rb ra : RuleStatus) where
  abbrev pub is_legal : Action → Bool
  is_legal action =
      is_claim_legal (canonical_best_action c win_pct b a m eb ea em rb ra action) rb action
        (lower (c.uci m)) (map lower rb.intended_claim_ucis)

  -- Grading raises an error for `game_over` and for a draw claim that the rules do not allow.
  -- Every other action is graded.
  pub grade-refuses :
      (action : Action)
      → (grade c win_pct b a m eb ea em rb ra action ≡ none)
        ↔ ((action ≡ game_over) ⊎ ((is_claim action ≡ true) × (is_legal action ≡ false)))
  unfolding grade strategy_score first_strategy score_delivered_checkmate score_received_checkmate
  grade-refuses game_over = ground arith
  grade-refuses play_move = graded _ _ _ _
  grade-refuses claim_draw =
      refused claim_draw _ _ _ refl (claim_refused _ rb claim_draw _ _ _ _ _ _)
  grade-refuses claim_draw_with_intended_move =
      refused claim_draw_with_intended_move _ _ _ refl
        (claim_refused _ rb claim_draw_with_intended_move _ _ _ _ _ _)
