-- ===== src/Grading/Draw.antt =====
-- mcp_server/analysis/move_grading/strategies/draw.py: draw claims made, conceded and missed.
use chessy_mcp.Prelude.{
  ℕ, ◌-◌, ℤ, pos, pos_part, neg_part, ltbℤ, lebℤ, ltb, leb, ◌==◌, String, Bool, true, false, not,
  ◌&&◌, ◌||◌, Option, none, some, List, [], ◌∷◌, Assoc, lookup, if◌then◌else◌, min, max, str_eq,
}
use chessy_mcp.Rules.ActionChoice.{Action, claim_draw}
use chessy_mcp.Rules.Status.{RuleStatus}
use chessy_mcp.Grading.Score.{
  PlayedMoveScore, default_score, best, mistake, blunder, outcome_lost, technical_win_forfeited,
  conceded_draw, draw_claim_forfeit, is_play, is_claim, is_intended, same_action, finalize_score,
}
use chessy_mcp.Grading.Terminal.{positive_or_1000}

-- the fields of an `MCPEval` that grading reads; `best_action` is `none` for an empty string
pub record Eval : Type 0 where
  pub cp : Option ℤ
  pub mate : Option ℤ
  pub best_move : Option String
  pub best_action : Option Action
  pub can_claim_now : Bool
  pub can_claim_draw : Bool
  pub claim_reasons : List String
  pub decision_value : Option (Assoc String)
  pub history_completeness : String

-- `l[0] if l else None`: every index in the strategies stands behind this test
abbrev pub head {ℓ} : {A : Type ℓ} → List A → Option A
head [] = none
head (a ∷ l) = some a

abbrev pub or_else {ℓ} : {A : Type ℓ} → Option A → Option A → Option A
or_else none b = b
or_else (some a) b = some a

abbrev is_in : String → List String → Bool
is_in s [] = false
is_in s (t ∷ l) = let rest = is_in s l in str_eq s t || rest

abbrev is_draw : Option String → Bool
is_draw none = false
is_draw (some s) = str_eq s "draw"

-- `decision_value.get("outcome") == "draw"`
abbrev decides_draw : Option (Assoc String) → Bool
decides_draw none = false
decides_draw (some d) = is_draw (lookup "outcome" d)

abbrev pub abs_ℕ : ℤ → ℕ
abs_ℕ x = max (pos_part x) (neg_part x)

abbrev pub is_over : ℤ → Option ℤ → Bool
is_over bound none = false
is_over bound (some m) = ltbℤ bound m

module _ (canonical_best_action : Action) (rule_before : RuleStatus) (action_type : Action) where
  abbrev final : PlayedMoveScore → PlayedMoveScore
  final = finalize_score canonical_best_action rule_before action_type

  -- A move is given by `uci` and `uci().lower()`, and the intended moves by their lower-case names.
  unfoldable pub is_claim_legal : String → List String → Bool
  is_claim_legal played_uci intended_ucis =
      (same_action action_type claim_draw && rule_before.can_claim_now)
      || (not (same_action action_type claim_draw)
          && rule_before.can_claim_with_intended_move
          && is_in played_uci intended_ucis)

  abbrev reasons_of : Option (List String) → List String
  reasons_of none = []
  reasons_of (some l) = l

  -- the first reason of the claim that was made
  unfoldable pub claim_reason_of : String → Option String
  claim_reason_of uci =
      if same_action action_type claim_draw
      then head rule_before.claim_reasons_now
      else head (reasons_of (lookup uci rule_before.intended_claim_reasons_by_uci))

  -- `none` is the `ValueError` of an illegal claim.
  unfoldable pub score_claim_draw_action :
      String → String → List String → ℤ → Option ℤ → Bool → Option PlayedMoveScore
  unfolding is_claim_legal claim_reason_of
  score_claim_draw_action uci played_uci intended_ucis before_mover mover_mate_before
        is_best_engine_move =
      let forced = is_over (pos 0) mover_mate_before || lebℤ (pos 200) before_mover in
      if not (is_claim_legal played_uci intended_ucis)
      then none
      else if forced || is_play canonical_best_action
      then some (
          final (record (default_score blunder) {
            raw_centipawn_delta = some (pos 0);
            effective_loss = if forced then 1000 else 500;
            loss_kind = if forced then outcome_lost else technical_win_forfeited;
            outcome_penalty = if forced then some 1000 else none;
            is_best_engine_move = is_best_engine_move;
            win_loss = 50000;
            best_action = canonical_best_action;
            is_best_action = false;
            action_equivalent = false;
            claim_reason = claim_reason_of uci;
            claim_move = rule_before.claim_move;
          }))
      else some (
          final (record (default_score best) {
            centipawn_loss = some 0;
            raw_centipawn_loss = some 0;
            raw_centipawn_delta = some (pos 0);
            mate_distance_loss = some 0;
            is_best_engine_move = is_best_engine_move;
            best_action = canonical_best_action;
            is_best_action = same_action canonical_best_action action_type;
            action_equivalent = same_action canonical_best_action action_type;
            claim_reason = claim_reason_of uci;
            claim_move = rule_before.claim_move;
          }))

  unfoldable pub score_conceded_draw : Bool → RuleStatus → Eval → ℕ → ℤ → ℤ → Option PlayedMoveScore
  score_conceded_draw opponent_will_claim rule_after eval_after raw_cpl raw_board_delta
        before_mover =
      let eff_loss = max 500 (min 1000 (positive_or_1000 before_mover)) in
      if not opponent_will_claim
      then none
      else some (
          final (record (default_score blunder) {
            centipawn_loss = some raw_cpl;
            raw_centipawn_loss = some raw_cpl;
            raw_centipawn_delta = some raw_board_delta;
            effective_loss = eff_loss;
            loss_kind = conceded_draw;
            rule_action_penalty = some eff_loss;
            is_best_engine_move = false;
            win_loss = 50000;
            best_action = canonical_best_action;
            is_best_action = false;
            action_equivalent = false;
            conceded_draw_claim = true;
            claim_reason =
                or_else (head rule_after.claim_reasons_now)
                  (or_else (head eval_after.claim_reasons) (some "threefold_repetition"));
          }))

  -- the first reason to claim that the rules or the engine's reply give
  abbrev pub any_claim_reason : Eval → Option String
  any_claim_reason eval_before =
      or_else (head rule_before.claim_reasons) (head eval_before.claim_reasons)

  unfoldable pub draw_preserved : Eval → Eval → ℤ → ℕ → Bool → Bool
  draw_preserved eval_before eval_after before_mover raw_cpl is_best_engine_move =
      (decides_draw eval_before.decision_value
        || (rule_before.can_claim_draw && lebℤ before_mover (pos 100)))
      && decides_draw eval_after.decision_value
      && is_best_engine_move
      && (raw_cpl == 0)

  abbrev pub forfeit_loss : Bool → ℤ → ℤ → ℕ → ℕ → ℕ
  forfeit_loss is_down_material before_mover after_mover opp_mat mover_mat =
      let loss_val = max (abs_ℕ before_mover) (abs_ℕ after_mover) in
      let shortfall = if is_down_material then opp_mat - mover_mat else 500 in
      max 300 (min 1000 (if ltb 0 loss_val then loss_val else shortfall))

  unfoldable pub score_optimal_claim_recommended :
      Bool
      → Bool
      → Eval
      → Eval
      → ℕ
      → ℤ
      → Bool
      → Bool
      → Bool
      → Bool
      → ℤ
      → ℤ
      → ℕ
      → ℕ
      → Option PlayedMoveScore
  unfolding draw_preserved
  score_optimal_claim_recommended optimal_claim_recommended is_auto_terminal_draw eval_before
        eval_after raw_cpl raw_board_delta is_best_engine_move is_after_losing is_after_winning
        is_down_material before_mover after_mover opp_mat mover_mat =
      let eff_loss = forfeit_loss is_down_material before_mover after_mover opp_mat mover_mat in
      if not (optimal_claim_recommended && not is_auto_terminal_draw)
      then none
      else if draw_preserved eval_before eval_after before_mover raw_cpl is_best_engine_move
      then some (
          final (record (default_score best) {
            centipawn_loss = some 0;
            raw_centipawn_loss = some 0;
            raw_centipawn_delta = some raw_board_delta;
            is_best_engine_move = true;
            best_action = canonical_best_action;
            is_best_action = is_play canonical_best_action;
            action_equivalent = true;
            missed_draw_claim =
                is_claim canonical_best_action
                && is_play action_type
                && not (is_intended canonical_best_action && is_best_engine_move && (raw_cpl == 0));
            claim_reason = any_claim_reason eval_before;
            claim_move = rule_before.claim_move;
          }))
      else if is_after_losing && not is_after_winning
      then some (
          final (record (default_score (if leb 300 eff_loss then blunder else mistake)) {
            centipawn_loss = some raw_cpl;
            raw_centipawn_loss = some raw_cpl;
            raw_centipawn_delta = some raw_board_delta;
            effective_loss = eff_loss;
            loss_kind = draw_claim_forfeit;
            rule_action_penalty = some eff_loss;
            is_best_engine_move = is_best_engine_move;
            win_loss = 50000;
            best_action = canonical_best_action;
            is_best_action = false;
            action_equivalent = false;
            missed_draw_claim = true;
            claim_reason = any_claim_reason eval_before;
            claim_move = rule_before.claim_move;
          }))
      else none
