-- ===== src/Grading/Played.antt =====
-- `dispatch_score` of mcp_server/analysis/move_grading/dispatcher.py, with its calls of
-- `evaluate_rule_status`.
use chessy_mcp.Prelude.{
  ℕ, ◌*◌, ℤ, pos_part, neg_part, sub_ℕ, String, ◌≡◌, not, ◌||◌, Option, none, some, List, arith,
  if◌then◌else◌,
}
use chessy_mcp.Chess.{Chess}
use chessy_mcp.Rules.ActionChoice.{Action, play_move}
use chessy_mcp.Rules.Status.{RuleStatus, word, normalize_history_state}
use chessy_mcp.Rules.Evaluate.{evaluate_rule_status}
use chessy_mcp.Grading.Score.{PlayedMoveScore, is_play, is_claim}
use chessy_mcp.Grading.Draw.{Eval}
use chessy_mcp.Grading.Dispatch.{grade, mover_value, mover_mate}
use chessy_mcp.Grading.Dispatch.Verdict.{grade-refuses}

-- `mover_mate_before * 1000`
abbrev pub thousandfold : ℤ → ℤ
thousandfold x = sub_ℕ (pos_part x * 1000) (neg_part x * 1000)

abbrev pub default {ℓ} : {A : Type ℓ} → A → Option A → A
default a none = a
default a (some b) = b

abbrev pub both {ℓ} : {A B C : Type ℓ} → (A → B → Option C) → Option A → Option B → Option C
both f none b = none
both f (some a) none = none
both f (some a) (some b) = f a b

module _ (c : Chess) (win_pct : ℤ → ℕ) (list_of_set : List String → List String) where
  open c use {Board, Move, turn, push}

  module _ (board_before : Board) (eval_before : Eval) where
    -- `before_mover_score`
    unfoldable pub mover_score : ℤ
    unfolding mover_value
    mover_score = elim eval_before.mate [
      | none ↦ mover_value (turn board_before) eval_before
      | some m ↦ thousandfold (default m (mover_mate (turn board_before) eval_before))
    ]

    unfoldable pub rule_before : Option RuleStatus
    unfolding mover_score
    rule_before =
        evaluate_rule_status c list_of_set board_before (some mover_score)
          (mover_mate (turn board_before) eval_before) (word eval_before.history_completeness) none
          none

    unfoldable pub rule_after : Board → Option RuleStatus
    rule_after board_after =
        evaluate_rule_status c list_of_set board_after none none
          (word eval_before.history_completeness) none none

  -- `none` is a `ValueError`.
  unfoldable pub dispatch_score :
      Board → Move → Eval → Eval → Option Board → Option Eval → Action → Option PlayedMoveScore
  unfolding rule_before rule_after
  dispatch_score board_before move eval_before eval_after board_after eval_played action_type =
      let after = default (push board_before move) board_after in
      if not (is_play action_type || is_claim action_type)
      then none
      else both
          (λ before next.
            grade c win_pct board_before after move eval_before eval_after
              (default eval_after eval_played) before next action_type)
          (rule_before board_before eval_before) (rule_after board_before eval_before after)

  status_total :
      (b : Board) (score mate : Option ℤ) (s : String)
      → normalize_history_state (word s) ≡ some s
      → ¬ (evaluate_rule_status c list_of_set b score mate (word s) none none ≡ none)
  unfolding evaluate_rule_status
  status_total b score mate s h = ground (arith, h)

  both_total :
      (f : RuleStatus → RuleStatus → Option PlayedMoveScore) (x y : Option RuleStatus)
      → ¬ (x ≡ none)
      → ¬ (y ≡ none)
      → ((a b : RuleStatus) → ¬ (f a b ≡ none))
      → ¬ (both f x y ≡ none)
  both_total f none y h k t = ground (arith, h)
  both_total f (some a) none h k t = ground (arith, k)
  both_total f (some a) (some b) h k t = t a b

  -- Of the `ValueError`s that are modelled, grading a played move raises none, if the evaluation
  -- before it names one of the four kinds of history.
  pub dispatch_score-ne-none :
      (b : Board) (m : Move) (eb ea : Eval) (after : Option Board) (played : Option Eval)
      → normalize_history_state (word eb.history_completeness) ≡ some eb.history_completeness
      → ¬ (dispatch_score b m eb ea after played play_move ≡ none)
  unfolding dispatch_score rule_before rule_after
  dispatch_score-ne-none b m eb ea after played h =
      both_total _ _ _ (status_total b _ _ eb.history_completeness h)
        (status_total (default (push b m) after) none none eb.history_completeness h)
        (λ rb ra e. ground (
          arith,
          (grade-refuses c win_pct b (default (push b m) after) m eb ea (default ea played) rb ra
                play_move).0
              e,
        ))
