-- ===== src/Grading/Terminal.antt =====
-- mcp_server/analysis/move_grading/strategies/terminal.py: checkmate on the board, and automatic draws.
use chessy_mcp.Prelude.{
  ℕ, ℤ, pos, pos_part, ltbℤ, Bool, true, false, not, ◌&&◌, Option, none, some, if◌then◌else◌, min,
  max, is_some,
}
use chessy_mcp.Chess.{Chess}
use chessy_mcp.Rules.ActionChoice.{Action}
use chessy_mcp.Rules.Status.{RuleStatus}
use chessy_mcp.Grading.Score.{
  PlayedMoveScore, default_score, best, good, blunder, mate_transition, blundered_draw, is_play,
  is_claim, finalize_score,
}

-- `before_mover if before_mover > 0 else 1000`
abbrev pub positive_or_1000 : ℤ → ℕ
positive_or_1000 before_mover = if ltbℤ (pos 0) before_mover then pos_part before_mover else 1000

abbrev pub same_color : Bool → Bool → Bool
same_color true b = b
same_color false b = not b

module _ (canonical_best_action : Action) (rule_before : RuleStatus) (action_type : Action) where
  abbrev final : PlayedMoveScore → Option PlayedMoveScore
  final score = some (finalize_score canonical_best_action rule_before action_type score)

  module _ (c : Chess) where
    open c use {Board, turn, is_checkmate}

    unfoldable pub score_delivered_checkmate : Board → Board → Bool → Option PlayedMoveScore
    score_delivered_checkmate board_before board_after is_best_engine_move =
        if is_play action_type
          && is_checkmate board_after
          && not (same_color (turn board_after) (turn board_before))
        then final (record (default_score best) {
          centipawn_loss = some 0;
          raw_centipawn_loss = some 0;
          raw_centipawn_delta = some (pos 0);
          mate_distance_loss = some 0;
          is_best_engine_move = is_best_engine_move;
          best_action = canonical_best_action;
          is_best_action = true;
          action_equivalent = is_best_engine_move && is_play canonical_best_action;
        })
        else none

    unfoldable pub score_received_checkmate : Board → Board → Option PlayedMoveScore
    score_received_checkmate board_before board_after =
        if is_play action_type
          && is_checkmate board_after
          && same_color (turn board_after) (turn board_before)
        then final (record (default_score blunder) {
          centipawn_loss = some 1000;
          raw_centipawn_loss = some 1000;
          raw_centipawn_delta = some (pos 1000);
          effective_loss = 1000;
          loss_kind = mate_transition;
          outcome_penalty = some 1000;
          is_best_engine_move = false;
          win_loss = 100000;
          best_action = canonical_best_action;
          is_best_action = false;
        })
        else none

  -- a loss of half the win probability, where a won position becomes a draw
  abbrev pub drawn_score : Option ℤ → ℕ → ℤ → ℤ → PlayedMoveScore
  drawn_score mover_mate_before raw_cpl raw_board_delta before_mover =
      let eff_loss = max 300 (min 1000 (positive_or_1000 before_mover)) in
      let cpl = if is_some mover_mate_before then none else some raw_cpl in
      record (default_score blunder) {
        centipawn_loss = cpl;
        raw_centipawn_loss = cpl;
        raw_centipawn_delta = some raw_board_delta;
        effective_loss = eff_loss;
        loss_kind = blundered_draw;
        outcome_penalty = some eff_loss;
        is_best_engine_move = false;
        win_loss = 50000;
        best_action = canonical_best_action;
        is_best_action = false;
        action_equivalent = false;
      }

  unfoldable pub score_blundered_terminal_draw :
      Bool → Bool → Bool → ℕ → ℤ → ℤ → Option ℤ → Option PlayedMoveScore
  score_blundered_terminal_draw is_auto_terminal_draw is_before_winning is_best_engine_move raw_cpl
        raw_board_delta before_mover mover_mate_before =
      if not is_auto_terminal_draw
      then none
      else if is_before_winning
      then final (drawn_score mover_mate_before raw_cpl raw_board_delta before_mover)
      else final (record (default_score (if is_best_engine_move then best else good)) {
        centipawn_loss = some 0;
        raw_centipawn_loss = some raw_cpl;
        raw_centipawn_delta = some raw_board_delta;
        is_best_engine_move = is_best_engine_move;
        best_action = canonical_best_action;
        is_best_action = true;
        action_equivalent = is_claim canonical_best_action;
      })
