-- ===== src/Tests/Results.antt =====
-- Runs of mcp_server/rules/pv.py and of mcp_server/analysis/result_reconciliation.py on a game of
-- two moves, and instances of the theorems on them.
use chessy_mcp.Prelude.{
  String, ◌≡◌, refl, true, false, not, Option, none, some, List, [], ◌∷◌, lower,
}
use chessy_mcp.Chess.{Chess}
use chessy_mcp.Rules.Evaluate.{evaluate_rule_status}
use chessy_mcp.Rules.Terminal.{can_checkmate}
use chessy_mcp.Rules.Pv.{
  time_forfeited, infraction, law_of, truncate_pv_at_terminal, validate_mating_possibility,
}
use chessy_mcp.Analysis.Reconcile.{
  GameMetadata, header_against_board, movetext_against_board, termination_against_board,
  pick_result_value, resolve_termination,
}
use chessy_mcp.Analysis.Reconcile.Result.{reconcile_result, claimed_result, header_warnings}
use chessy_mcp.Analysis.Reconcile.Truth.{ending, shown_result, reconcile_result_lem}
use chessy_mcp.Tests.Toy.{toy}

time_law : law_of " White wins  on time" ≡ some time_forfeited
unfolding law_of
time_law = refl

no_law : law_of "Timeless" ≡ none
unfolding law_of
no_law = refl

illegal_law : law_of "Second illegal move" ≡ some infraction
unfolding law_of
illegal_law = refl

-- the game ends when black is to move
abbrev ends_for_black : Chess
ends_for_black = record toy { is_stalemate = λ b. not b }

cut_off : truncate_pv_at_terminal ends_for_black true ("A1A2" ∷ "h7h8q" ∷ []) ≡ "a1a2" ∷ []
unfolding truncate_pv_at_terminal
cut_off = refl

-- every position is a checkmate
abbrev mated : Chess
mated = record toy { is_checkmate = λ b. true }

abbrev as_is : List String → List String
as_is l = l

abbrev same_word : String → Option String
same_word s = some (lower s)

-- the header says that black has won on time
abbrev headers : GameMetadata
headers = record {
  result_header = some "0-1";
  result_header_raw = some "0-1";
  termination_header = some "time_forfeit";
  metadata_warnings = [];
}

is_ended : ending mated as_is same_word false ≡ some "checkmate"
unfolding evaluate_rule_status
is_ended = refl

has_material : can_checkmate mated false (not (mated.turn false)) ≡ true
unfolding can_checkmate
has_material = refl

disputes :
    (reconcile_result mated as_is same_word false headers (some "1/2-1/2") 7 false).warnings
    ≡ header_against_board ∷ movetext_against_board ∷ termination_against_board "time_forfeit" ∷ []
unfolding reconcile_result claimed_result header_warnings resolve_termination pick_result_value
    validate_mating_possibility evaluate_rule_status law_of can_checkmate
disputes = refl

reconcile_result_lem_example :
    let r = reconcile_result mated as_is same_word false headers (some "1/2-1/2") 7 false in
    (r.result ≡ shown_result mated as_is same_word false "checkmate")
    × (r.termination ≡ some "checkmate")
    × (r.auto_termination ≡ some "checkmate")
    × (r.result_inferred ≡ some (shown_result mated as_is same_word false "checkmate"))
reconcile_result_lem_example =
    reconcile_result_lem mated as_is same_word false "checkmate" headers (some "1/2-1/2") 7 false
      is_ended (λ e. has_material)
