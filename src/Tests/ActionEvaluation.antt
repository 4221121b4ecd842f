-- ===== src/Tests/ActionEvaluation.antt =====
-- mcp_server/domain/action_evaluation.py on small inputs.
use chessy_mcp.Prelude.{
  ℕ, ℤ, pos, negsuc, String, ◌≡◌, refl, Bool, true, false, Option, none, some, List, [], ◌∷◌,
}
use chessy_mcp.Domain.Action.{GameAction, play, claim, EngineEval}
use chessy_mcp.Domain.ActionEvaluation.{
  ActionEvaluation, active, win, draw, rule_default, post_position, by_rules, evaluate_action,
  choose_recommended_action,
}
use chessy_mcp.Domain.ActionEvaluation.Choice.{IsBest, choose_recommended_action_tiers}
use chessy_mcp.Tests.Toy.{toy}

abbrev engine : Bool → ℕ → Option EngineEval
engine b depth = some (record { best_move = none; cp = some (pos 70); mate = none })

abbrev move : String → GameAction
move uci = play uci none none none

valued :
    (evaluate_action toy (some engine) false (move "A1A2") 8).canonical_value ≡ some (negsuc 69)
unfolding evaluate_action
valued = refl

illegal : (evaluate_action toy (some engine) false (move "a1a3") 8).source ≡ rule_default
unfolding evaluate_action
illegal = refl

mates :
    (evaluate_action (record toy { is_checkmate = λ b. b }) none false (move "a1a2") 8).outcome
    ≡ win
unfolding evaluate_action
mates = refl

abbrev open_move : ℤ → ActionEvaluation
open_move cp = record {
  action = move "a1a2";
  outcome = active;
  canonical_value = some cp;
  mate_distance = none;
  source = post_position;
  rule_value = none;
}

abbrev claimed : ActionEvaluation
claimed = by_rules (claim "fifty_moves") draw (some (pos 0))

abbrev actions : List ActionEvaluation
actions = open_move (negsuc 4) ∷ open_move (pos 30) ∷ claimed ∷ []

-- an open move that is ahead gives way to a claim
claims : choose_recommended_action actions true false ≡ some claimed
unfolding choose_recommended_action
claims = refl

plays : choose_recommended_action actions false false ≡ some (open_move (pos 30))
unfolding choose_recommended_action
plays = refl

choose_recommended_action_tiers_example :
    IsBest true actions (choose_recommended_action actions true false)
choose_recommended_action_tiers_example = choose_recommended_action_tiers actions true false
