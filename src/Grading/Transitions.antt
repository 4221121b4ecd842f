-- ===== src/Grading/Transitions.antt =====
-- mcp_server/analysis/move_grading/strategies/transitions.py: mate to mate, mate to centipawns, and
-- centipawns to mate. `win_pct` is `win_prob_fn`, in thousandths of a per cent.
use chessy_mcp.Prelude.{
  ℕ, ◌+◌, ◌-◌, ◌*◌, ℤ, pos, ltbℤ, lebℤ, ltb, leb, ◌==◌, Bool, true, false, not, ◌&&◌, ◌||◌, Option,
  none, some, if◌then◌else◌, min, is_some,
}
use chessy_mcp.Rules.ActionChoice.{Action}
use chessy_mcp.Rules.Status.{RuleStatus}
use chessy_mcp.Grading.Score.{
  PlayedMoveScore, MoveClass, default_score, best, good, inaccuracy, mistake, blunder, no_loss,
  mate_distance, mate_transition, outcome_lost, is_play, same_action, finalize_score,
}
use chessy_mcp.Grading.Draw.{head, abs_ℕ}

abbrev pub is_zero : ℤ → Bool
is_zero x = lebℤ x (pos 0) && lebℤ (pos 0) x

module _ (canonical_best_action : Action) (rule_before : RuleStatus) (action_type : Action) where
  abbrev final : PlayedMoveScore → Option PlayedMoveScore
  final score = some (finalize_score canonical_best_action rule_before action_type score)

  -- no loss, and no centipawns
  abbrev unharmed : MoveClass → Bool → PlayedMoveScore
  unharmed move_class is_best_engine_move = record (default_score move_class) {
    centipawn_loss = some 0;
    raw_centipawn_loss = some 0;
    raw_centipawn_delta = some (pos 0);
    is_best_engine_move = is_best_engine_move;
    best_action = canonical_best_action;
  }

  -- a loss counted in moves to mate
  abbrev slower : MoveClass → ℕ → ℕ → ℕ → Bool → PlayedMoveScore
  slower move_class moves eff_loss w_loss is_best_engine_move =
      record (unharmed move_class is_best_engine_move) {
        mate_distance_loss = some moves;
        effective_loss = eff_loss;
        loss_kind = if ltb 0 moves then mate_distance else no_loss;
        mate_distance_penalty = if ltb 0 moves then some eff_loss else none;
        win_loss = w_loss;
      }

  -- the class, the effective loss and the loss of win probability of a slower mate
  abbrev winner_grade : Bool → ℕ → MoveClass × ℕ × ℕ
  winner_grade is_best_engine_move moves =
      if is_best_engine_move || (moves == 0)
      then (best, 0, 0)
      else if leb moves 1
      then (good, 50, 500)
      else if leb moves 2
      then (inaccuracy, 150, 2000)
      else (mistake, 300, min 20000 (moves * 2000))

  abbrev defender_grade : Bool → ℕ → MoveClass × ℕ × ℕ
  defender_grade is_best_engine_move moves =
      if is_best_engine_move || (moves == 0)
      then (best, 0, 0)
      else if moves == 1
      then (inaccuracy, 150, 2000)
      else (
        if leb 3 moves then blunder else mistake,
        if leb 3 moves then 500 else 300,
        min 20000 (moves * 5000),
      )

  -- a forced mate lost, and one against the mover gained
  abbrev reversed : ℕ → PlayedMoveScore
  reversed w_loss = record (default_score blunder) {
    effective_loss = 1000;
    loss_kind = mate_transition;
    outcome_penalty = some 1000;
    is_best_engine_move = false;
    win_loss = w_loss;
    best_action = canonical_best_action;
    is_best_action = false;
  }

  -- the mover mates before and after the move
  abbrev winner_score : Bool → ℤ → ℤ → Bool → PlayedMoveScore
  winner_score is_checkmate before after is_best_engine_move =
      let moves = if is_checkmate then 0 else (abs_ℕ after + 1 - abs_ℕ before) in
      let grade = winner_grade is_best_engine_move moves in
      record (slower grade.0 moves grade.1 grade.2 is_best_engine_move) {
        is_best_action = is_best_engine_move || (is_play canonical_best_action && (moves == 0));
      }

  abbrev defender_score : ℤ → ℤ → Bool → PlayedMoveScore
  defender_score before after is_best_engine_move =
      let moves = abs_ℕ before - abs_ℕ after in
      let grade = defender_grade is_best_engine_move moves in
      record (slower grade.0 moves grade.1 grade.2 is_best_engine_move) {
        is_best_action = is_best_engine_move && is_play canonical_best_action;
        claim_move = rule_before.claim_move;
      }

  -- `is_checkmate` is that of the board after the move.
  unfoldable pub score_mate_to_mate : Option ℤ → Option ℤ → Bool → Bool → Option PlayedMoveScore
  score_mate_to_mate none after is_checkmate is_best_engine_move = none
  score_mate_to_mate (some before) none is_checkmate is_best_engine_move = none
  score_mate_to_mate (some before) (some after) is_checkmate is_best_engine_move =
      if ltbℤ (pos 0) before
      then (if ltbℤ (pos 0) after
          then final (winner_score is_checkmate before after is_best_engine_move)
          else if is_zero after
          then final (record (unharmed best is_best_engine_move) { mate_distance_loss = some 0 })
          else if is_best_engine_move
          then final (record (unharmed best true) {
            action_equivalent = same_action canonical_best_action action_type;
          })
          else final (reversed 100000))
      else if ltbℤ before (pos 0) && ltbℤ after (pos 0)
      then final (defender_score before after is_best_engine_move)
      else none

  module _ (win_pct : ℤ → ℕ) where
    -- a mate that became centipawns below 400
    abbrev mate_lost : ℤ → Bool → ℕ → ℤ → PlayedMoveScore
    mate_lost after_mover is_best_engine_move raw_cpl raw_board_delta =
        let win_loss = 100000 - win_pct after_mover in
        let eff_loss =
          if is_best_engine_move then 0 else if leb 20000 win_loss then 1000 else 300 in
        record (default_score
          (if is_best_engine_move then best else if leb 20000 win_loss then blunder else mistake)) {
            centipawn_loss = some raw_cpl;
            raw_centipawn_loss = some raw_cpl;
            raw_centipawn_delta = some raw_board_delta;
            effective_loss = eff_loss;
            loss_kind = if is_best_engine_move then no_loss else outcome_lost;
            outcome_penalty = if is_best_engine_move then none else some eff_loss;
            is_best_engine_move = is_best_engine_move;
            win_loss = if is_best_engine_move then 0 else win_loss;
            best_action = canonical_best_action;
            is_best_action = is_best_engine_move;
            action_equivalent =
                is_best_engine_move && same_action canonical_best_action action_type;
          }

    -- The second argument is `eval_move_eval.mate`.
    unfoldable pub score_mate_to_cp :
        Option ℤ → Option ℤ → ℤ → Bool → ℕ → ℤ → Option PlayedMoveScore
    score_mate_to_cp none after after_mover is_best_engine_move raw_cpl raw_board_delta = none
    score_mate_to_cp (some before) after after_mover is_best_engine_move raw_cpl raw_board_delta =
        if not (ltbℤ (pos 0) before && not (is_some after))
        then none
        else if lebℤ (pos 400) after_mover
        then (let eff_loss = if is_best_engine_move then 0 else 150 in
            final
              (record (unharmed (if is_best_engine_move then best else inaccuracy)
                is_best_engine_move) {
                  effective_loss = eff_loss;
                  loss_kind = if is_best_engine_move then no_loss else mate_distance;
                  mate_distance_penalty = if is_best_engine_move then none else some eff_loss;
                  win_loss = if is_best_engine_move then 0 else 2000;
                  is_best_action = is_best_engine_move;
                }))
        else final (mate_lost after_mover is_best_engine_move raw_cpl raw_board_delta)

    -- The first argument is `eval_before.mate`.
    unfoldable pub score_cp_to_mate : Option ℤ → Option ℤ → ℤ → Bool → Bool → Option PlayedMoveScore
    score_cp_to_mate before none baseline_mover optimal_claim_recommended is_best_engine_move = none
    score_cp_to_mate (some before) (some after) baseline_mover optimal_claim_recommended
          is_best_engine_move =
        none
    score_cp_to_mate none (some after) baseline_mover optimal_claim_recommended
          is_best_engine_move =
        let effective_best_move = is_best_engine_move || ltbℤ (pos 0) after in
        if ltbℤ after (pos 0)
        then final (record (reversed (win_pct baseline_mover)) {
          missed_draw_claim = optimal_claim_recommended;
          claim_reason = if optimal_claim_recommended then head rule_before.claim_reasons else none;
        })
        else final
            (record (unharmed (if effective_best_move then best else good) effective_best_move) {
              mate_distance_loss = some 0;
              is_best_action = effective_best_move;
              action_equivalent =
                  effective_best_move && same_action canonical_best_action action_type;
            })
