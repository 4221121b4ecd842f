-- ===== src/Grading/Dispatch.antt =====
-- mcp_server/analysis/move_grading/dispatcher.py.
pub mod All
pub mod Bounds
pub mod Claims
pub mod Verdict
use chessy_mcp.Prelude.{
  ℕ, ℤ, pos, negsuc, pos_part, ltbℤ, lebℤ, negate, ◌-ℤ◌, maxℤ, ltb, ◌==◌, String, Bool, true, false,
  not, ◌&&◌, ◌||◌, Option, none, some, List, length, lower, map, if◌then◌else◌, is_some, str_eq,
}
use chessy_mcp.Chess.{Chess}
use chessy_mcp.Rules.ActionChoice.{Action}
use chessy_mcp.Rules.Status.{RuleStatus}
use chessy_mcp.Grading.Score.{
  PlayedMoveScore, MoveClass, best, good, inaccuracy, mistake, blunder, LossKind, no_loss,
  engine_cp, mate_distance, mate_transition, outcome_lost, technical_win_forfeited, blundered_draw,
  conceded_draw, draw_claim_forfeit, not_missed, is_play, is_claim, same_action, is_intended_claim,
  missed_kind,
}
use chessy_mcp.Grading.Enforce.{enforce_invariants}
use chessy_mcp.Grading.Helpers.{
  is_under, is_before_winning, is_mover_forced_win, is_after_winning, material_balance,
  is_down_material, is_after_losing,
}
use chessy_mcp.Grading.Terminal.{
  score_delivered_checkmate, score_received_checkmate, score_blundered_terminal_draw,
}
use chessy_mcp.Grading.Draw.{
  Eval, score_claim_draw_action, score_conceded_draw, score_optimal_claim_recommended,
}
use chessy_mcp.Grading.Transitions.{score_mate_to_mate, score_mate_to_cp, score_cp_to_mate}
use chessy_mcp.Grading.Standard.{score_standard_cp}

abbrev pub or_score : Option PlayedMoveScore → Option PlayedMoveScore → Option PlayedMoveScore
or_score none b = b
or_score (some a) b = some a

abbrev pub map_score :
    (PlayedMoveScore → PlayedMoveScore) → Option PlayedMoveScore → Option PlayedMoveScore
map_score f none = none
map_score f (some s) = some (f s)

-- the value of a position for the mover: its centipawns, or 10000 for a mate
unfoldable pub mover_value : Bool → Eval → ℤ
mover_value is_white e = elim e.cp [
  | some cp ↦ if is_white then cp else negate cp
  | none ↦ elim e.mate [
    | none ↦ pos 0
    | some m ↦ if ltbℤ (pos 0) (if is_white then m else negate m) then pos 10000 else negsuc 9999
  ]
]

unfoldable pub mover_mate : Bool → Eval → Option ℤ
mover_mate is_white e = elim e.mate [
  | none ↦ none
  | some m ↦ some (if is_white then m else negate m)
]

unfoldable pub is_auto_terminal_draw : RuleStatus → Bool
is_auto_terminal_draw rule_after = elim rule_after.terminal [
  | none ↦ false
  | some t ↦
      str_eq t "stalemate"
      || str_eq t "insufficient_material"
      || str_eq t "seventyfive_moves"
      || str_eq t "fivefold_repetition"
      || str_eq t "dead_position"
]

module _ (c : Chess) (win_pct : ℤ → ℕ) where
  open c use {Board, Move, turn, legal_moves, uci, is_checkmate}

  -- `eval_after` stands for `eval_played` where there is one.
  module _ (board_before board_after : Board) (move : Move)
      (eval_before eval_after eval_move_eval : Eval) (rule_before rule_after : RuleStatus)
      (action_type : Action) where
    abbrev is_white : Bool
    is_white = turn board_before

    abbrev before_mover : ℤ
    before_mover = mover_value is_white eval_before

    abbrev after_mover : ℤ
    after_mover = mover_value is_white eval_move_eval

    abbrev mate_before : Option ℤ
    mate_before = mover_mate is_white eval_before

    abbrev mate_after : Option ℤ
    mate_after = mover_mate is_white eval_move_eval

    unfoldable pub canonical_best_action : Action
    canonical_best_action = elim eval_before.best_action [
      | none ↦ rule_before.recommended_action
      | some a ↦ a
    ]

    unfoldable pub is_best_engine_move : Bool
    is_best_engine_move = is_play action_type && elim eval_before.best_move [
      | none ↦ false
      | some best_move ↦ not (str_eq best_move "") && str_eq (lower (uci move)) (lower best_move)
    ]

    unfoldable pub is_only_legal_move : Bool
    is_only_legal_move = is_play action_type && (length (legal_moves board_before) == 1)

    abbrev can_claim_before : Bool
    can_claim_before = rule_before.can_claim_draw || eval_before.can_claim_draw

    abbrev baseline_mover : ℤ
    baseline_mover = if can_claim_before then maxℤ before_mover (pos 0) else before_mover

    abbrev raw_board_delta : ℤ
    raw_board_delta = before_mover -ℤ after_mover

    abbrev raw_cpl : ℕ
    raw_cpl = if is_best_engine_move then 0 else pos_part raw_board_delta

    abbrev auto_draw : Bool
    auto_draw = is_auto_terminal_draw rule_after

    unfoldable pub optimal_claim_recommended : Bool
    optimal_claim_recommended =
        not (is_mover_forced_win before_mover mate_before)
        && not (is_after_winning mate_after after_mover)
        && not auto_draw
        && (is_claim canonical_best_action
            || (can_claim_before
                && (lebℤ before_mover (negsuc 99)
                    || is_down_material c board_before
                    || is_under (pos 0) mate_before)))

    unfoldable pub opponent_will_claim : Bool
    opponent_will_claim =
        (rule_after.can_claim_now || eval_after.can_claim_now || eval_after.can_claim_draw)
        && (is_before_winning before_mover mate_before || lebℤ (pos 200) before_mover)

    -- the strategies in their order, the two of checkmate first
    unfoldable pub first_strategy : Option PlayedMoveScore
    unfolding score_delivered_checkmate score_received_checkmate
    first_strategy =
        or_score
          (score_delivered_checkmate canonical_best_action rule_before action_type c board_before
            board_after is_best_engine_move)
          (score_received_checkmate canonical_best_action rule_before action_type c board_before
            board_after)

    unfoldable pub later_strategy : PlayedMoveScore
    later_strategy =
        let best = canonical_best_action in
        let is_best = is_best_engine_move in
        let mat = material_balance c board_before in
        let chosen =
          or_score
            (score_blundered_terminal_draw best rule_before action_type auto_draw
              (is_before_winning before_mover mate_before) is_best raw_cpl raw_board_delta
              before_mover mate_before)
            (or_score
              (score_conceded_draw best rule_before action_type opponent_will_claim rule_after
                eval_after raw_cpl raw_board_delta before_mover)
              (or_score
                (score_optimal_claim_recommended best rule_before action_type
                  optimal_claim_recommended auto_draw eval_before eval_after raw_cpl raw_board_delta
                  is_best (is_after_losing c mate_after after_mover board_before)
                  (is_after_winning mate_after after_mover) (is_down_material c board_before)
                  before_mover after_mover mat.1 mat.0)
                (or_score
                  (score_mate_to_mate best rule_before action_type mate_before mate_after
                    (is_checkmate board_after) is_best)
                  (or_score
                    (score_mate_to_cp best rule_before action_type win_pct mate_before
                      eval_move_eval.mate after_mover is_best raw_cpl raw_board_delta)
                    (score_cp_to_mate best rule_before action_type win_pct eval_before.mate
                      mate_after baseline_mover optimal_claim_recommended is_best))))) in
        elim chosen [
          | some score ↦ score
          | none ↦
              score_standard_cp win_pct best rule_before action_type is_best eval_before raw_cpl
                raw_board_delta baseline_mover after_mover
        ]

    -- The strategy's score before `_enforce_invariants`; `none` is the `ValueError` of an illegal
    -- claim.
    unfoldable pub strategy_score : Option PlayedMoveScore
    unfolding first_strategy later_strategy
    strategy_score = or_score first_strategy (
        if is_claim action_type
        then score_claim_draw_action canonical_best_action rule_before action_type (uci move)
            (lower (uci move)) (map lower rule_before.intended_claim_ucis) before_mover mate_before
            is_best_engine_move
        else some later_strategy)

    -- `dispatch_score` behind its calls of `evaluate_rule_status`; `none` is a `ValueError`.
    unfoldable pub grade : Option PlayedMoveScore
    unfolding strategy_score enforce_invariants
    grade =
        if not (is_play action_type || is_claim action_type)
        then none
        else map_score
            (enforce_invariants canonical_best_action rule_before action_type is_best_engine_move
              is_only_legal_move)
            strategy_score
