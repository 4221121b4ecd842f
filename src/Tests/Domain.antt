-- ===== src/Tests/Domain.antt =====
-- Runs of mcp_server/domain at concrete statuses, and instances of its theorems.
use Prim.Native.String as Str
use chessy_mcp.Rules.DeadPosition.{is_locked_dead_position}
use chessy_mcp.Prelude.{
  negsuc, String, ◌≡◌, refl, true, false, Option, none, some, List, [], ◌∷◌, is_empty,
  if◌then◌else◌,
}
use chessy_mcp.Chess.{Chess}
use chessy_mcp.Rules.ActionChoice.{choose_recommended_action}
use chessy_mcp.Rules.Status.{RuleStatus, flag, normalize_history_state, make_rule_status}
use chessy_mcp.Rules.Evaluate.{evaluate_rule_status}
use chessy_mcp.Domain.Action.{claim, EngineEval, build_best_action}
use chessy_mcp.Domain.Action.Legal.Best.{IsFit, best_action_lem}
use chessy_mcp.Tests.Toy.{toy}

-- a null move is written `0000`
abbrev named_toy : Chess
named_toy = record toy { uci = λ m. if is_empty m then "0000" else m }

abbrev as_is : List String → List String
as_is l = l

has_name : (m : named_toy.Move) → is_empty (named_toy.uci m) ≡ false
unfolding is_empty
has_name Str.[] = refl
has_name (Str.◌∷◌ c m) = refl

or_made : Option RuleStatus → RuleStatus
or_made none = make_rule_status "" none false "" ""
or_made (some s) = s

-- white can claim the fifty moves and is behind
abbrev status : RuleStatus
status =
    or_made
      (evaluate_rule_status named_toy as_is true (some (negsuc 99)) none (flag true) none none)

abbrev engine : EngineEval
engine = record { best_move = some "a1a2"; cp = some (negsuc 99); mate = none }

is_evaluated :
    evaluate_rule_status named_toy as_is true (some (negsuc 99)) none (flag true) none none
    ≡ some status
unfolding evaluate_rule_status normalize_history_state or_made
is_evaluated = refl

claims_now :
    build_best_action named_toy status.recommended_action status (some engine) (some true)
    ≡ claim "fifty_moves"
unfolding build_best_action evaluate_rule_status or_made is_locked_dead_position
    choose_recommended_action
claims_now = refl

best_action_lem_example :
    IsFit named_toy status
      (some engine)
      (some true)
      (engine ∷ [])
      (build_best_action named_toy status.recommended_action status (some engine) (some true))
best_action_lem_example =
    best_action_lem named_toy as_is true (some (negsuc 99)) none (flag true) none none status
      (some engine) (some true) (engine ∷ []) has_name is_evaluated
