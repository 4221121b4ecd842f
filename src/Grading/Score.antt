-- ===== src/Grading/Score.antt =====
-- The score of a played move (mcp_server/models/legacy.py), and mcp_server/analysis/move_grading/types.py.
use chessy_mcp.Prelude.{
  ℕ, ℤ, String, Bool, true, false, not, ◌&&◌, ◌||◌, Option, none, some, List, [], if◌then◌else◌,
  ltb,
}
use chessy_mcp.Rules.ActionChoice.{
  Action, play_move, claim_draw, claim_draw_with_intended_move, game_over,
}
use chessy_mcp.Rules.Status.{RuleStatus}

pub data MoveClass : Type 0 where
  best good inaccuracy mistake blunder : MoveClass

pub data LossKind : Type 0 where
  no_loss engine_cp mate_distance mate_transition outcome_lost technical_win_forfeited : LossKind
  blundered_draw conceded_draw draw_claim_forfeit : LossKind

pub data MissedKind : Type 0 where
  not_missed immediate intended_move : MissedKind

-- `win_loss` is in thousandths of a per cent. Every strategy sets `effective_loss` and `loss_kind`.
-- `played_outcome` and `best_outcome` are left out: no strategy sets them.
pub record PlayedMoveScore : Type 0 where
  pub move_class : MoveClass
  pub centipawn_loss : Option ℕ
  pub raw_centipawn_loss : Option ℕ
  pub raw_centipawn_delta : Option ℤ
  pub mate_distance_loss : Option ℕ
  pub effective_loss : ℕ
  pub loss_kind : LossKind
  pub engine_cp_loss : Option ℕ
  pub mate_distance_penalty : Option ℕ
  pub outcome_penalty : Option ℕ
  pub rule_action_penalty : Option ℕ
  pub is_best_engine_move : Bool
  pub win_loss : ℕ
  pub best_action : Action
  pub is_best_action : Bool
  pub action_equivalent : Bool
  pub action_type : Action
  pub missed_draw_claim : Bool
  pub missed_draw_claim_kind : MissedKind
  pub conceded_draw_claim : Bool
  pub claim_reason : Option String
  pub claim_move : Option String
  pub can_claim_now : Bool
  pub can_claim_with_intended_move : Bool
  pub claim_moves : List String

-- the defaults, for a class of move
abbrev pub default_score : MoveClass → PlayedMoveScore
default_score move_class = record {
  move_class = move_class;
  centipawn_loss = none;
  raw_centipawn_loss = none;
  raw_centipawn_delta = none;
  mate_distance_loss = none;
  effective_loss = 0;
  loss_kind = no_loss;
  engine_cp_loss = none;
  mate_distance_penalty = none;
  outcome_penalty = none;
  rule_action_penalty = none;
  is_best_engine_move = false;
  win_loss = 0;
  best_action = play_move;
  is_best_action = true;
  action_equivalent = false;
  action_type = play_move;
  missed_draw_claim = false;
  missed_draw_claim_kind = not_missed;
  conceded_draw_claim = false;
  claim_reason = none;
  claim_move = none;
  can_claim_now = false;
  can_claim_with_intended_move = false;
  claim_moves = [];
}

abbrev pub is_play : Action → Bool
is_play play_move = true
is_play claim_draw = false
is_play claim_draw_with_intended_move = false
is_play game_over = false

-- `in ("claim_draw", "claim_draw_with_intended_move")`
abbrev pub is_claim : Action → Bool
is_claim play_move = false
is_claim claim_draw = true
is_claim claim_draw_with_intended_move = true
is_claim game_over = false

abbrev pub is_intended : Action → Bool
is_intended play_move = false
is_intended claim_draw = false
is_intended claim_draw_with_intended_move = true
is_intended game_over = false

abbrev pub same_action : Action → Action → Bool
same_action play_move b = is_play b
same_action claim_draw b = is_claim b && not (is_intended b)
same_action claim_draw_with_intended_move b = is_intended b
same_action game_over b = not (is_play b || is_claim b)

-- `is None or == 0`
abbrev pub is_none_or_zero : Option ℕ → Bool
is_none_or_zero none = true
is_none_or_zero (some n) = not (ltb 0 n)

module _ (canonical_best_action : Action) (rule_before : RuleStatus) (action_type : Action) where
  abbrev pub is_intended_claim : PlayedMoveScore → Bool
  is_intended_claim score =
      is_intended canonical_best_action
      && score.is_best_engine_move
      && is_none_or_zero score.raw_centipawn_loss

  abbrev pub missed_kind : MissedKind
  missed_kind = if rule_before.can_claim_now then immediate else intended_move

  abbrev pub with_rule_action : PlayedMoveScore → PlayedMoveScore
  with_rule_action score =
      let equal = score.is_best_engine_move && same_action canonical_best_action action_type in
      record score {
        best_action = canonical_best_action;
        can_claim_now = rule_before.can_claim_now;
        can_claim_with_intended_move = rule_before.can_claim_with_intended_move;
        claim_moves = rule_before.claim_moves;
        action_type = action_type;
        action_equivalent = equal || score.action_equivalent;
        is_best_action = equal || score.is_best_action;
      }

  unfoldable pub finalize_score : PlayedMoveScore → PlayedMoveScore
  finalize_score given =
      let score = with_rule_action given in
      if is_claim canonical_best_action
      then (if is_claim action_type
          then record score { missed_draw_claim = false; missed_draw_claim_kind = not_missed }
          else if is_intended_claim score
          then record score {
            missed_draw_claim = false;
            action_equivalent = true;
            missed_draw_claim_kind = not_missed;
          }
          else record score {
            missed_draw_claim = true;
            is_best_action = false;
            action_equivalent = false;
            missed_draw_claim_kind = missed_kind;
          })
      else score
