-- ===== src/Grading/Enforce.antt =====
-- `_enforce_invariants` of mcp_server/analysis/move_grading/dispatcher.py.
use chessy_mcp.Prelude.{
  pos, ltb, Bool, true, false, not, ◌&&◌, ◌||◌, none, some, if◌then◌else◌, is_some,
}
use chessy_mcp.Rules.ActionChoice.{Action}
use chessy_mcp.Rules.Status.{RuleStatus}
use chessy_mcp.Grading.Score.{
  PlayedMoveScore, MoveClass, best, good, inaccuracy, mistake, blunder, LossKind, no_loss,
  engine_cp, mate_distance, mate_transition, outcome_lost, technical_win_forfeited, blundered_draw,
  conceded_draw, draw_claim_forfeit, not_missed, is_claim, same_action, is_intended_claim,
  missed_kind,
}

abbrev pub is_mate_transition : LossKind → Bool
is_mate_transition mate_transition = true
is_mate_transition no_loss = false
is_mate_transition engine_cp = false
is_mate_transition mate_distance = false
is_mate_transition outcome_lost = false
is_mate_transition technical_win_forfeited = false
is_mate_transition blundered_draw = false
is_mate_transition conceded_draw = false
is_mate_transition draw_claim_forfeit = false

-- inaccuracy, mistake or blunder
abbrev pub is_bad : MoveClass → Bool
is_bad best = false
is_bad good = false
is_bad inaccuracy = true
is_bad mistake = true
is_bad blunder = true

module _ (canonical_best_action : Action) (rule_before : RuleStatus) (action_type : Action) where
  module _ (is_best_engine_move is_only_legal_move : Bool) where
    unfoldable pub cleared : PlayedMoveScore → PlayedMoveScore
    cleared score = record score {
      move_class = best;
      effective_loss = 0;
      centipawn_loss = some 0;
      raw_centipawn_loss = some 0;
      raw_centipawn_delta = some (pos 0);
      mate_distance_loss = if is_some score.mate_distance_loss then some 0 else none;
      outcome_penalty = none;
      mate_distance_penalty = none;
      is_best_engine_move = is_best_engine_move || score.is_best_engine_move;
      is_best_action = true;
      action_equivalent = true;
      win_loss = 0;
    }

    unfoldable pub credited : PlayedMoveScore → PlayedMoveScore
    credited score =
        if is_best_engine_move
        then record score {
          is_best_engine_move = true;
          is_best_action = true;
          action_equivalent = true;
        }
        else score

    -- the part of `_enforce_invariants` about draw claims
    unfoldable pub with_claim : PlayedMoveScore → PlayedMoveScore
    with_claim score =
        if is_claim canonical_best_action
        then (if is_claim action_type
            then record score { missed_draw_claim = false; missed_draw_claim_kind = not_missed }
            else if is_intended_claim canonical_best_action rule_before action_type score
            then record score {
              missed_draw_claim = false;
              action_equivalent = true;
              missed_draw_claim_kind = not_missed;
            }
            else record score {
              missed_draw_claim = true;
              is_best_action = false;
              action_equivalent = false;
              missed_draw_claim_kind = missed_kind canonical_best_action rule_before action_type;
            })
        else score

    -- `_enforce_invariants`
    unfoldable pub enforce_invariants : PlayedMoveScore → PlayedMoveScore
    enforce_invariants score =
        if is_mate_transition score.loss_kind && not is_only_legal_move
        then score
        else if (is_best_engine_move || is_only_legal_move)
            && same_action canonical_best_action action_type
        then (if is_bad score.move_class || ltb 0 score.effective_loss
            then cleared score
            else with_claim (credited score))
        else with_claim score
