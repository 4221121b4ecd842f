-- ===== src/Engine/Override.antt =====
-- mcp_server/engine/cached_evaluator.py: what `_compute_pos` makes of an engine's evaluation near
-- a draw by the clock, the score of the zeroing moves and the move put in the place of the best.
pub mod Score
pub mod Replaced
use chessy_mcp.Prelude.{
  leb, ◌==◌, ℕ, zero, ℤ, pos, lebℤ, ltbℤ, String, Bool, true, false, not, ◌&&◌, ◌||◌, Option, none,
  some, List, [], ◌∷◌, str_eq, lower, is_empty, if◌then◌else◌,
}
use chessy_mcp.Chess.{Chess}
use chessy_mcp.Rules.Pv.{find_move}
use chessy_mcp.Engine.Zeroing.{
  Evaluation, PostState, ZeroingOverrideResult, is_zeroing_move, evaluate_all_zeroing_post_states,
  maybe_zeroing_best_override,
}

-- Python's truth of a number that may be missing
abbrev pub is_number : Option ℤ → Bool
is_number none = false
is_number (some (pos zero)) = false
is_number (some x) = true

abbrev pub or_zero : Option ℤ → ℤ
or_zero none = pos 0
or_zero (some x) = x

abbrev pub is_above : ℤ → Option ℤ → Bool
is_above bound none = false
is_above bound (some x) = ltbℤ bound x

abbrev pub is_at_least : ℤ → Option ℤ → Bool
is_at_least bound none = false
is_at_least bound (some x) = lebℤ bound x

-- the result of the whole scan, where it is better than the score of the engine's move
unfoldable pub better : PostState → ZeroingOverrideResult → PostState
better (cp, mate) all =
    if is_above (pos 0) all.mate || (is_number all.cp && is_above (or_zero cp) all.cp)
    then (all.cp, all.mate)
    else (cp, mate)

-- `not mate and not (cp and cp >= 2000)`
abbrev pub is_unconvincing : PostState → Bool
is_unconvincing (cp, mate) = not (is_number mate) && not (is_number cp && is_at_least (pos 2000) cp)

module _ (c : Chess) (evaluate : c.Board → ℕ → Option c.Move → Option Evaluation) where
  open c use {
    Board, Move, push, legal_moves, uci, halfmove_clock, is_game_over, is_checkmate,
    is_seventyfive_moves, is_fifty_moves,
  }

  -- `zeroing_best` of `_compute_pos`
  unfoldable pub zeroing_best : Board → Option String → ℕ → PostState
  unfolding better maybe_zeroing_best_override evaluate_all_zeroing_post_states
  zeroing_best b best_move depth =
      let one = maybe_zeroing_best_override c evaluate b best_move depth in
      if leb 100 (halfmove_clock b) && not (is_game_over b) && is_unconvincing one
      then better one (evaluate_all_zeroing_post_states c evaluate b depth)
      else one

  -- `_pick_override_move`, of the moves that are left: a move and whether it mates
  unfoldable pub pick_override_move : Board → List Move → Option (Move × Bool)
  unfolding is_zeroing_move
  pick_override_move b [] = none
  pick_override_move b (m ∷ moves) =
      let rest = pick_override_move b moves in
      if is_checkmate (push b m)
      then some (m, true)
      else if not (is_seventyfive_moves (push b m)) && is_zeroing_move c evaluate b m
      then some (m, false)
      else rest

  -- the moves that a draw by the clock answers, `is_bm_75 or is_bm_conceded`
  unfoldable pub is_drawing : Board → Move → Bool
  is_drawing b m =
      is_seventyfive_moves (push b m) || (leb 100 (halfmove_clock b) && is_fifty_moves (push b m))

  -- the engine's evaluation of the one move, if it is one
  unfoldable pub override_result : Evaluation → Move → Option Evaluation → Evaluation
  unfolding lower
  override_result ev m none = ev
  override_result ev m (some o) = elim o.best_move [
    | none ↦ ev
    | some text ↦
        if not (is_empty text) && str_eq (lower text) (lower (uci m))
        then record { best_move = some text; cp = o.cp; mate = o.mate; pv = o.pv; depth = o.depth }
        else ev
  ]

  -- the evaluation with the move of `_pick_override_move`
  unfoldable pub overridden : Board → Evaluation → ℕ → Option (Move × Bool) → Evaluation
  unfolding override_result
  overridden b ev depth none = ev
  overridden b ev depth (some (m, true)) = record {
    best_move = some (uci m);
    cp = none;
    mate = some (pos 1);
    pv = uci m ∷ [];
    depth = depth;
  }
  overridden b ev depth (some (m, false)) = override_result ev m (evaluate b depth (some m))

  -- `_apply_rule_aware_best_move_override`
  unfoldable pub apply_override : Board → Evaluation → ℕ → Evaluation
  unfolding find_move is_drawing overridden pick_override_move
  apply_override b ev depth = elim ev.best_move [
    | none ↦ ev
    | some text ↦
        if not (is_empty text) && (halfmove_clock b == 149 || leb 100 (halfmove_clock b))
        then elim (find_move c text (legal_moves b)) [
          | none ↦ ev
          | some m ↦
              if is_drawing b m
              then overridden b ev depth (pick_override_move b (legal_moves b))
              else ev
        ]
        else ev
  ]
