-- ===== src/Tests/Grading.antt =====
-- mcp_server/analysis/move_grading on small inputs.
use chessy_mcp.Prelude.{
  List, ℕ, ℤ, pos, negsuc, ◌≤◌, ◌≡◌, refl, Bool, true, false, Option, none, some, String, [], ◌⊎◌,
  ◌↔◌, lower, ◌-ℤ◌, sub_ℕ, pos_part,
}
use chessy_mcp.Rules.ActionChoice.{Action, play_move, claim_draw, game_over}
use chessy_mcp.Rules.Status.{RuleStatus, normalize_history_state}
use chessy_mcp.Grading.Score.{PlayedMoveScore, default_score, best, is_claim, finalize_score}
use chessy_mcp.Grading.Helpers.{is_before_winning, is_after_winning, is_mover_forced_win}
use chessy_mcp.Grading.Terminal.{
  score_delivered_checkmate, score_received_checkmate, score_blundered_terminal_draw,
}
use chessy_mcp.Grading.Transitions.{score_mate_to_mate, score_mate_to_cp, score_cp_to_mate}
use chessy_mcp.Grading.Standard.{score_standard_cp, grade_cp}
use chessy_mcp.Grading.Draw.{Eval, score_conceded_draw, score_optimal_claim_recommended}
use chessy_mcp.Grading.Enforce.{
  with_claim, credited, cleared, enforce_invariants, is_mate_transition, is_bad,
}
use chessy_mcp.Grading.Dispatch.{
  grade, is_only_legal_move, is_best_engine_move, canonical_best_action, strategy_score,
  first_strategy, later_strategy, opponent_will_claim, optimal_claim_recommended, mover_value,
  mover_mate, is_auto_terminal_draw,
}
use chessy_mcp.Grading.Dispatch.Bounds.{grade_cp_lem}
use chessy_mcp.Grading.Dispatch.Claims.{IsEarned, grade-IsFair}
use chessy_mcp.Grading.Dispatch.Verdict.{grade-IsForgiven, grade-refuses, is_legal}
use chessy_mcp.Grading.Played.{dispatch_score, dispatch_score-ne-none}
use chessy_mcp.Tests.Toy.{toy}

-- a coarse win probability
abbrev half : ℤ → ℕ
half x = 50000

abbrev eval_at : ℤ → Eval
eval_at cp = record {
  cp = some cp;
  mate = none;
  best_move = some "A1A2";
  best_action = none;
  can_claim_now = false;
  can_claim_draw = false;
  claim_reasons = [];
  decision_value = none;
  history_completeness = "complete";
}

abbrev status : Bool → Action → RuleStatus
status claimable action = record {
  terminal = none;
  winner = none;
  can_claim_now = claimable;
  claim_reasons_now = [];
  can_claim_with_intended_move = false;
  intended_claim_sans = [];
  intended_claim_ucis = [];
  intended_claim_reasons_by_uci = [];
  claim_reasons = [];
  can_claim_draw = claimable;
  claim_moves = [];
  claim_move = none;
  claim_move_uci = none;
  claim_move_san = none;
  recommended_action = action;
  history_dependent_status = false;
  requires_move_stack = false;
  fen_sufficient_for_status = true;
  history_completeness = "incomplete";
  repetition_status = "unknown";
  repetition_sufficient_without_history = true;
}

abbrev result : Bool → Action → String → Action → Option PlayedMoveScore
result claimable recommended move action =
    grade toy half true false move (eval_at (pos 30)) (eval_at (negsuc 99)) (eval_at (negsuc 99))
      (status claimable recommended) (status false play_move) action

abbrev or_default : Option PlayedMoveScore → PlayedMoveScore
or_default none = default_score best
or_default (some s) = s

abbrev taken : PlayedMoveScore
taken = or_default (result false play_move "a1a2" play_move)

computed : result false play_move "a1a2" play_move ≡ some taken
unfolding grade strategy_score first_strategy score_delivered_checkmate score_received_checkmate
computed = refl

-- the engine's best move, though its own evaluation is 130 lower
best_taken : taken.move_class ≡ best
unfolding grade strategy_score first_strategy score_delivered_checkmate score_received_checkmate
    later_strategy score_blundered_terminal_draw score_conceded_draw opponent_will_claim
    is_before_winning score_optimal_claim_recommended optimal_claim_recommended is_after_winning
    is_mover_forced_win score_mate_to_mate score_mate_to_cp score_cp_to_mate score_standard_cp
    finalize_score enforce_invariants with_claim credited cleared is_best_engine_move
    is_only_legal_move lower mover_value mover_mate is_auto_terminal_draw canonical_best_action
best_taken = refl

abbrev only : Bool
only =
    is_only_legal_move toy half true false "a1a2" (eval_at (pos 30)) (eval_at (negsuc 99))
      (eval_at (negsuc 99)) (status false play_move) (status false play_move) play_move

forgiven_run :
    ((is_mate_transition taken.loss_kind ≡ true) × (only ≡ false))
    ⊎ ((is_bad taken.move_class ≡ false) × (taken.effective_loss ≡ 0))
unfolding canonical_best_action is_best_engine_move is_only_legal_move lower
forgiven_run =
    grade-IsForgiven toy half true false "a1a2" (eval_at (pos 30)) (eval_at (negsuc 99))
      (eval_at (negsuc 99)) (status false play_move) (status false play_move) play_move taken refl
      refl computed

-- a draw could be claimed, and another move was played
abbrev missed : PlayedMoveScore
missed = or_default (result true claim_draw "h7h8q" play_move)

missing : result true claim_draw "h7h8q" play_move ≡ some missed
unfolding grade strategy_score first_strategy score_delivered_checkmate score_received_checkmate
missing = refl

grade-IsFair_example :
    IsEarned claim_draw play_move
      (is_best_engine_move toy half true false "h7h8q"
        (eval_at (pos 30))
        (eval_at (negsuc 99))
        (eval_at (negsuc 99))
        (status true claim_draw)
        (status false play_move)
        play_move)
      (mover_mate (toy.turn true) (eval_at (negsuc 99)))
      missed
unfolding canonical_best_action
grade-IsFair_example =
    grade-IsFair toy half true false "h7h8q" (eval_at (pos 30)) (eval_at (negsuc 99))
      (eval_at (negsuc 99)) (status true claim_draw) (status false play_move) play_move refl missed
      missing

grade-refuses_run : (result false play_move "a1a2" claim_draw ≡ none) ↔ (
    (claim_draw ≡ game_over)
    ⊎ ((is_claim claim_draw ≡ true)
        × (is_legal toy half true false "a1a2"
              (eval_at (pos 30))
              (eval_at (negsuc 99))
              (eval_at (negsuc 99))
              (status false play_move)
              (status false play_move)
              claim_draw
            ≡ false)))
grade-refuses_run =
    grade-refuses toy half true false "a1a2" (eval_at (pos 30)) (eval_at (negsuc 99))
      (eval_at (negsuc 99)) (status false play_move) (status false play_move) claim_draw

grade_cp_lem_run :
    (¬ ((grade_cp half (pos 500) (pos 430)).0 ≡ best))
    × ((grade_cp half (pos 500) (pos 430)).1 ≤ pos_part (pos 500 -ℤ pos 430))
grade_cp_lem_run = grade_cp_lem half (pos 500) (pos 430)

-- both sides of 400: a loss of 70 is shown as one of 15
saturated : (grade_cp half (pos 500) (pos 430)).1 ≡ 15
unfolding grade_cp ◌-ℤ◌ sub_ℕ
saturated = refl

abbrev as_is : List String → List String
as_is l = l

graded_run : ¬ (
    dispatch_score toy half as_is true "a1a2"
      (eval_at (pos 30))
      (eval_at (negsuc 99))
      none
      none
      play_move
    ≡ none)
unfolding normalize_history_state
graded_run =
    dispatch_score-ne-none toy half as_is true "a1a2" (eval_at (pos 30)) (eval_at (negsuc 99)) none
      none refl
