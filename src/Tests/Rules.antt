-- ===== src/Tests/Rules.antt =====
-- mcp_server/rules on small inputs.
use chessy_mcp.Prelude.{
  length, ◌+◌, ℕ, ◌<◌, ◌/◌, ◌↔◌, ◌||◌, Option, List, [], ◌∷◌, String, arith, ◌≡◌, refl, true, false,
  none, some, pos, negsuc, ◌⊎◌,
}
use chessy_mcp.Chess.{pawn, knight, bishop, rook, queen}
use chessy_mcp.Rules.ActionChoice.{
  choose_recommended_action, piece_value, material, is_down_material, is_mover_in_trouble,
  claim_draw, play_move, claim_draw_with_intended_move,
}
use chessy_mcp.Rules.ActionChoice.Policy.{KnowsWin, IsInTrouble, choose_recommended_action_lem}
use chessy_mcp.Rules.DeadPosition.{
  is_in, reachable, flood, visit, king_region, blocked_by, attacks_pawn, are_kings_apart,
  has_mating_piece, can_move, is_locked_dead_position,
}
use chessy_mcp.Rules.DeadPosition.Flood.{Walk, reachable_lem}
use chessy_mcp.Rules.DeadPosition.Locked.{KingWalk, is_locked_dead_position_lem}
use chessy_mcp.Rules.Terminal.{can_checkmate, nonking, is_terminal_position}
use chessy_mcp.Rules.Terminal.Mating.{have_both_colors, can_checkmate_lem}
use chessy_mcp.Rules.Status.{RuleStatus, flag, make_rule_status, normalize_history_state}
use chessy_mcp.Rules.Evaluate.{evaluate_rule_status}
use chessy_mcp.Rules.Evaluate.Claims.{IsCoherent, evaluate_rule_status-IsCoherent}
use chessy_mcp.Rules.Evaluate.Terminality.{is_over, evaluate_rule_status-is_terminal_position}
use chessy_mcp.Tests.Toy.{toy, locked, neighbors, neighbors_inside}

-- black is a queen behind
claims : choose_recommended_action toy false true false (some (pos 80)) none none none ≡ claim_draw
unfolding choose_recommended_action is_mover_in_trouble is_down_material material piece_value
claims = refl

plays : choose_recommended_action toy true true false (some (pos 80)) none none none ≡ play_move
unfolding choose_recommended_action is_mover_in_trouble is_down_material material piece_value
plays = refl

choose_recommended_action_lem_example :
    (choose_recommended_action toy false true false (some (negsuc 9)) none none none ≡ play_move)
    ⊎ ((((choose_recommended_action toy false true false (some (negsuc 9)) none none none
              ≡ claim_draw)
            × (true ≡ true))
          ⊎ ((choose_recommended_action toy false true false (some (negsuc 9)) none none none
                ≡ claim_draw_with_intended_move)
              × (true ≡ false)
              × (false ≡ true)))
        × ¬ KnowsWin none none none
        × IsInTrouble toy false (some (negsuc 9)))
choose_recommended_action_lem_example =
    choose_recommended_action_lem toy false true false (some (negsuc 9)) none none none

reachable_lem_example :
    (is_in 19 (reachable neighbors (4 ∷ 20 ∷ []) 4) ≡ true) ↔ Walk neighbors (4 ∷ 20 ∷ []) 4 19
reachable_lem_example = reachable_lem neighbors (4 ∷ 20 ∷ []) 4 neighbors_inside (omega arith) 19

reached : is_in 19 (reachable neighbors (4 ∷ 20 ∷ []) 4) ≡ true
unfolding reachable flood visit
reached = refl

dead : is_locked_dead_position locked true ≡ true
unfolding is_locked_dead_position has_mating_piece can_move are_kings_apart king_region attacks_pawn
    blocked_by reachable flood visit
dead = refl

is_locked_dead_position_lem_example :
    (has_mating_piece locked true true ≡ false)
    × (has_mating_piece locked true false ≡ false)
    × (can_move locked pawn true true ≡ false)
    × (can_move locked pawn true false ≡ false)
    × ((m n : ℕ)
        → KingWalk locked neighbors_inside true true 4 m
        → KingWalk locked neighbors_inside true false 60 n
        → m / 8 < n / 8)
    × ((m p : ℕ)
        → KingWalk locked neighbors_inside true true 4 m
        → is_in p (28 ∷ []) ≡ true
        → is_in m (neighbors p) ≡ false)
    × ((n p : ℕ)
        → KingWalk locked neighbors_inside true false 60 n
        → is_in p (20 ∷ []) ≡ true
        → is_in n (neighbors p) ≡ false)
is_locked_dead_position_lem_example =
    is_locked_dead_position_lem locked neighbors_inside true 4 60 refl refl (omega arith)
      (omega arith) refl dead

-- the order in which a set is listed
abbrev as_is : List String → List String
as_is l = l

abbrev or_made : Option RuleStatus → RuleStatus
or_made none = make_rule_status "" none false "" ""
or_made (some s) = s

evaluated :
    evaluate_rule_status toy as_is true (some (negsuc 99)) none (flag true) none none
    ≡ some (
        or_made (evaluate_rule_status toy as_is true (some (negsuc 99)) none (flag true) none none))
unfolding evaluate_rule_status normalize_history_state
evaluated = refl

evaluate_rule_status-IsCoherent_example :
    IsCoherent
      (or_made (evaluate_rule_status toy as_is true (some (negsuc 99)) none (flag true) none none))
evaluate_rule_status-IsCoherent_example =
    evaluate_rule_status-IsCoherent toy as_is true (some (negsuc 99)) none (flag true) none none
      (or_made (evaluate_rule_status toy as_is true (some (negsuc 99)) none (flag true) none none))
      evaluated

evaluate_rule_status-is_terminal_position_example :
    is_over (evaluate_rule_status toy as_is true none none (flag true) none none)
    ≡ (is_terminal_position toy true || false)
evaluate_rule_status-is_terminal_position_example =
    evaluate_rule_status-is_terminal_position toy as_is true none none none none

mating_material_run : (can_checkmate toy true false ≡ false) ↔ (
    (nonking toy true false ≡ 0)
    ⊎ ((length (toy.pieces true pawn false)
            + length (toy.pieces true rook false)
            + length (toy.pieces true queen false)
          ≡ 0)
        × (nonking toy true true ≡ 0)
        × (((length (toy.pieces true knight false) ≡ 1)
              × (length (toy.pieces true bishop false) ≡ 0))
            ⊎ ((length (toy.pieces true knight false) ≡ 0)
                × (have_both_colors toy (toy.pieces true bishop false) ≡ false)))))
mating_material_run = can_checkmate_lem toy true false
