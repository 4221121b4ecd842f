-- ===== src/Grading/Standard.antt =====
-- mcp_server/analysis/move_grading/strategies/standard.py and core/engines/grading.py: the class of a
-- move by its centipawns. `win_pct` is `win_prob_fn`, in thousandths of a per cent.
use chessy_mcp.Prelude.{
  ℕ, ◌-◌, ℤ, pos, pos_part, ◌-ℤ◌, lebℤ, ltb, leb, Bool, true, false, not, ◌&&◌, ◌||◌, none, some,
  if◌then◌else◌, min,
}
use chessy_mcp.Rules.ActionChoice.{Action}
use chessy_mcp.Rules.Status.{RuleStatus}
use chessy_mcp.Grading.Score.{
  PlayedMoveScore, MoveClass, default_score, best, good, inaccuracy, mistake, blunder, no_loss,
  engine_cp, is_claim, same_action, finalize_score,
}
use chessy_mcp.Grading.Draw.{Eval, any_claim_reason}

unfoldable pub classify_centipawn_loss : ℕ → MoveClass
classify_centipawn_loss loss =
    if ltb loss 20
    then best
    else if ltb loss 50
    then good
    else if ltb loss 100
    then inaccuracy
    else if ltb loss 300
    then mistake
    else blunder

-- a move that is not the engine's is at most good
abbrev pub at_most_good : MoveClass → MoveClass
at_most_good best = good
at_most_good good = good
at_most_good inaccuracy = inaccuracy
at_most_good mistake = mistake
at_most_good blunder = blunder

module _ (win_pct : ℤ → ℕ) where
  -- how much of a won position's loss is shown, where both sides of the move win by `pct` or `cp`
  abbrev both_reach : ℕ → ℤ → ℤ → ℤ → Bool
  both_reach pct cp baseline_mover after_mover =
      (leb pct (win_pct baseline_mover) && leb pct (win_pct after_mover))
      || (lebℤ cp baseline_mover && lebℤ cp after_mover)

  abbrev saturated : ℕ → ℕ → ℕ → ℕ → MoveClass × ℕ
  saturated small large win_loss eff_loss =
      if ltb win_loss 4000
      then (good, min eff_loss small)
      else if ltb win_loss 8000
      then (good, min eff_loss large)
      else (at_most_good (classify_centipawn_loss eff_loss), min eff_loss 1000)

  -- The class and the effective loss of a move that is not the engine's best.
  unfoldable pub grade_cp : ℤ → ℤ → MoveClass × ℕ
  unfolding classify_centipawn_loss
  grade_cp baseline_mover after_mover =
      let eff_loss = pos_part (baseline_mover -ℤ after_mover) in
      let win_loss = win_pct baseline_mover - win_pct after_mover in
      if both_reach 95000 (pos 400) baseline_mover after_mover
      then saturated 15 45 win_loss eff_loss
      else if both_reach 90000 (pos 300) baseline_mover after_mover
      then saturated 20 50 win_loss eff_loss
      else (at_most_good (classify_centipawn_loss eff_loss), min eff_loss 1000)

  module _ (canonical_best_action : Action) (rule_before : RuleStatus) (action_type : Action) where
    -- The last test of the source, whether an engine-best move is a mistake, never holds behind the
    -- first branch.
    unfoldable pub score_standard_cp : Bool → Eval → ℕ → ℤ → ℤ → ℤ → PlayedMoveScore
    unfolding grade_cp
    score_standard_cp is_best_engine_move eval_before raw_cpl raw_board_delta baseline_mover
          after_mover =
        let grade = grade_cp baseline_mover after_mover in
        finalize_score canonical_best_action rule_before action_type (
          if is_best_engine_move
          then record (default_score best) {
            centipawn_loss = some 0;
            raw_centipawn_loss = some 0;
            raw_centipawn_delta = some raw_board_delta;
            is_best_engine_move = true;
            best_action = canonical_best_action;
            is_best_action = not (is_claim canonical_best_action);
            action_equivalent = same_action canonical_best_action action_type;
            claim_reason =
                any_claim_reason canonical_best_action rule_before action_type eval_before;
            claim_move = rule_before.claim_move;
          }
          else record (default_score grade.0) {
            centipawn_loss = some raw_cpl;
            raw_centipawn_loss = some raw_cpl;
            raw_centipawn_delta = some raw_board_delta;
            effective_loss = grade.1;
            loss_kind = if ltb 0 grade.1 then engine_cp else no_loss;
            engine_cp_loss = if ltb 0 grade.1 then some grade.1 else none;
            is_best_engine_move = false;
            win_loss = win_pct baseline_mover - win_pct after_mover;
            best_action = canonical_best_action;
            is_best_action = false;
            action_equivalent = false;
            claim_reason =
                any_claim_reason canonical_best_action rule_before action_type eval_before;
            claim_move = rule_before.claim_move;
          })
