-- ===== src/Rules/Evaluate.antt =====
-- `evaluate_rule_status` of mcp_server/rules/status.py. Python iterates over a set in an order of
-- its own: `list_of_set` is `list(…)` of the set of the reasons in a list.
pub mod Claims
pub mod Terminality
use chessy_mcp.Prelude.{
  ℕ, ◌+◌, ℤ, leb, String, Bool, true, false, not, ◌&&◌, ◌||◌, Option, none, some, List, [], ◌∷◌,
  ◌++◌, map, Assoc, assign, if◌then◌else◌, str_eq,
}
use chessy_mcp.Chess.{Chess, pawn}
use chessy_mcp.Rules.ActionChoice.{choose_recommended_action}
use chessy_mcp.Rules.DeadPosition.{is_piece, is_nonempty, is_locked_dead_position}
use chessy_mcp.Rules.Status.{
  RuleStatus, ClaimProofs, HistoryValue, contains, first, without_repeats, all_reasons,
  make_rule_status, normalize_history_state,
}

abbrev pub only_if : Bool → String → List String
only_if b reason = if b then reason ∷ [] else []

module _ (c : Chess) (list_of_set : List String → List String) where
  open c use {
    Board, Move, turn, push, legal_moves, uci, san, moved_piece, is_capture, halfmove_clock,
    is_checkmate, is_stalemate, is_insufficient_material, is_seventyfive_moves,
    is_fivefold_repetition, is_fifty_moves, is_repetition, is_game_over,
  }

  unfoldable pub reasons_now : Board → Bool → List String
  reasons_now b has_history =
      only_if (is_fifty_moves b) "fifty_moves"
      ++ only_if (has_history && is_repetition b) "threefold_repetition"

  unfoldable pub reasons_for_move : Board → Bool → Move → List String
  unfolding reasons_now
  reasons_for_move b has_history m =
      let now = reasons_now b has_history in
      only_if
        (not (contains "fifty_moves" now)
          && not (is_piece pawn (moved_piece b m))
          && not (is_capture b m)
          && leb 100 (halfmove_clock b + 1))
        "fifty_moves"
      ++ only_if
          (not (contains "threefold_repetition" now) && has_history && is_repetition (push b m))
          "threefold_repetition"

  -- the legal moves with a reason to claim, in their order
  unfoldable pub intended_moves : Board → Bool → List Move → List Move
  unfolding reasons_for_move
  intended_moves b has_history [] = []
  intended_moves b has_history (m ∷ l) =
      let rest = intended_moves b has_history l in
      if is_nonempty (reasons_for_move b has_history m) then m ∷ rest else rest

  unfoldable pub reasons_of : Board → Bool → List Move → Assoc (List String) → Assoc (List String)
  unfolding reasons_for_move
  reasons_of b has_history [] d = d
  reasons_of b has_history (m ∷ l) d =
      reasons_of b has_history l (assign (uci m) (reasons_for_move b has_history m) d)

  unfoldable pub collect_claim_proofs : Board → Bool → ClaimProofs Move
  unfolding intended_moves reasons_of
  collect_claim_proofs b has_history =
      let intended = intended_moves b has_history (legal_moves b) in
      record {
        can_claim_now = is_fifty_moves b || (has_history && is_repetition b);
        reasons_now = reasons_now b has_history;
        intended = intended;
        reasons_by_uci = reasons_of b has_history intended [];
      }

  abbrev pub san_or_uci : Board → Move → String
  san_or_uci b m = elim (san b m) [ none ↦ uci m | some s ↦ s ]

  -- the automatic ends of the game, the first one that holds
  unfoldable pub terminal_status : Board → Bool → String → Option RuleStatus
  unfolding make_rule_status
  terminal_status b has_history history_state =
      if is_checkmate b
      then some (
          make_rule_status "checkmate" (some (if turn b then "black" else "white")) false "none"
            history_state)
      else if is_stalemate b
      then some (make_rule_status "stalemate" none false "none" history_state)
      else if is_insufficient_material b
      then some (make_rule_status "insufficient_material" none false "none" history_state)
      else if is_seventyfive_moves b
      then some (make_rule_status "seventyfive_moves" none false "none" history_state)
      else if has_history && is_fivefold_repetition b
      then some (make_rule_status "fivefold_repetition" none true "fivefold" history_state)
      else if is_locked_dead_position c b
      then some (make_rule_status "dead_position" none false "none" history_state)
      else if is_game_over b
      then some (make_rule_status "game_over" none false "none" history_state)
      else none

  -- the rest, for a position that is not over
  unfoldable pub open_status :
      Board → Option ℤ → Option ℤ → Option ℤ → Option ℤ → Bool → Bool → String → RuleStatus
  unfolding collect_claim_proofs
  open_status b mover_score mate_for_mover zeroing_score zeroing_mate has_history full_history
        history_state =
      let proofs = collect_claim_proofs b has_history in
      let sans = map (san_or_uci b) proofs.intended in
      let ucis = map uci proofs.intended in
      let bag = list_of_set (all_reasons proofs.reasons_by_uci ++ proofs.reasons_now) in
      let with_intended = is_nonempty proofs.intended in
      let proven =
        contains "threefold_repetition" proofs.reasons_now || contains "threefold_repetition" bag in
      let repetition =
        if proven then "threefold_claimable" else if full_history then "none" else "unknown" in
      record {
        terminal = none;
        winner = none;
        can_claim_now = proofs.can_claim_now;
        claim_reasons_now = proofs.reasons_now;
        can_claim_with_intended_move = with_intended;
        intended_claim_sans = sans;
        intended_claim_ucis = ucis;
        intended_claim_reasons_by_uci = proofs.reasons_by_uci;
        claim_reasons = without_repeats (proofs.reasons_now ++ bag);
        can_claim_draw = proofs.can_claim_now || with_intended;
        claim_moves = sans;
        claim_move = first sans;
        claim_move_uci = first ucis;
        claim_move_san = first sans;
        recommended_action =
            choose_recommended_action c b proofs.can_claim_now with_intended mover_score
              mate_for_mover zeroing_score zeroing_mate;
        history_dependent_status = proven;
        requires_move_stack = proven;
        fen_sufficient_for_status = not proven;
        history_completeness = history_state;
        repetition_status = repetition;
        repetition_sufficient_without_history =
            not (proven || (full_history && str_eq repetition "unknown"));
      }

  -- for a normalized history state
  unfoldable pub status_in : Board → Option ℤ → Option ℤ → Option ℤ → Option ℤ → String → RuleStatus
  unfolding terminal_status open_status
  status_in b mover_score mate_for_mover zeroing_score zeroing_mate state =
      let full_history = str_eq state "complete" in
      let has_history = full_history || str_eq state "partial" in
      elim (terminal_status b has_history state) [
        | some s ↦ s
        | none ↦
            open_status b mover_score mate_for_mover zeroing_score zeroing_mate has_history
              full_history state
      ]

  -- The arguments in their order; `none` is the `ValueError`.
  unfoldable pub evaluate_rule_status :
      Board → Option ℤ → Option ℤ → HistoryValue → Option ℤ → Option ℤ → Option RuleStatus
  unfolding normalize_history_state status_in
  evaluate_rule_status b mover_score mate_for_mover history_complete zeroing_score zeroing_mate =
      elim (normalize_history_state history_complete) [
        | none ↦ none
        | some state ↦
            some (status_in b mover_score mate_for_mover zeroing_score zeroing_mate state)
      ]
