-- ===== src/Engine/Override/Replaced.antt =====
-- What replaces the engine's best move when a draw by the clock would answer it.
use chessy_mcp.Prelude.{
  leb, ℕ, String, ◌≡◌, refl, Bool, true, false, not, ◌&&◌, ◌||◌, Option, none, some, List, [], ◌∷◌,
  arith, eq_refl, lower, is_empty, if◌then◌else◌,
}
use chessy_mcp.Chess.{Chess}
use chessy_mcp.Rules.Pv.{find_move}
use chessy_mcp.Engine.Zeroing.{Evaluation, is_zeroing_move}
use chessy_mcp.Engine.Override.{
  is_drawing, pick_override_move, overridden, override_result, apply_override,
}

module _ (c : Chess) (evaluate : c.Board → ℕ → Option c.Move → Option Evaluation) where
  open c use {
    Board, Move, push, legal_moves, uci, halfmove_clock, is_checkmate, is_seventyfive_moves,
  }

  -- the move mates, or it resets the clock and does not end in a draw by 75 moves
  abbrev pub is_fit : Board → Move → Bool
  is_fit b m =
      is_checkmate (push b m)
      || (not (is_seventyfive_moves (push b m)) && is_zeroing_move c evaluate b m)

  abbrev pub first_fit : Board → List Move → Option Move
  first_fit b [] = none
  first_fit b (m ∷ moves) = let rest = first_fit b moves in if is_fit b m then some m else rest

  -- the text of a move, if there is one
  abbrev pub or_text : Option Move → Option String → Option String
  or_text none text = text
  or_text (some m) text = some (uci m)

  -- an engine that is to search one move only answers with that move
  abbrev pub IsObedient : Board → ℕ → Type 0
  IsObedient b depth =
      (m : Move)
      → (is_empty (uci m) ≡ false)
        × ((o : Evaluation) × (evaluate b depth (some m) ≡ some o) × (o.best_move ≡ some (uci m)))

  abbrev move_of : Option (Move × Bool) → Option Move
  move_of none = none
  move_of (some (m, mates)) = some m

  pick-first_fit :
      (b : Board) (moves : List Move)
      → move_of (pick_override_move c evaluate b moves) ≡ first_fit b moves
  unfolding pick_override_move
  pick-first_fit b [] = refl
  pick-first_fit b (m ∷ moves) = ground (arith, pick-first_fit b moves)

  override_result-move :
      (ev : Evaluation) (m : Move) (o : Evaluation)
      → is_empty (uci m) ≡ false
      → o.best_move ≡ some (uci m)
      → (override_result c evaluate ev m (some o)).best_move ≡ some (uci m)
  unfolding override_result
  override_result-move ev m o h k = rw (k, h, eq_refl (lower (uci m))) refl

  overridden-move :
      (b : Board) (ev : Evaluation) (depth : ℕ) (picked : Option (Move × Bool))
      → IsObedient b depth
      → (overridden c evaluate b ev depth picked).best_move ≡ or_text (move_of picked) ev.best_move
  unfolding overridden
  overridden-move b ev depth none h = refl
  overridden-move b ev depth (some (m, true)) h = refl
  overridden-move b ev depth (some (m, false)) h =
      let (e, (o, k, l)) = h m in rw k (override_result-move ev m o e l)

  apply_override-drawing :
      (b : Board) (ev : Evaluation) (depth : ℕ) (text : String) (m : Move)
      → ev.best_move ≡ some text
      → is_empty text ≡ false
      → leb 100 (halfmove_clock b) ≡ true
      → find_move c text (legal_moves b) ≡ some m
      → is_drawing c evaluate b m ≡ true
      → apply_override c evaluate b ev depth
        ≡ overridden c evaluate b ev depth (pick_override_move c evaluate b (legal_moves b))
  unfolding apply_override
  apply_override-drawing b ev depth text m h k l f d = ground (arith, h, k, l, f, d)

  -- With the clock at 100 or more, when a draw by the clock can answer the engine's best move and
  -- the engine keeps to the move it is told to search, the best move becomes the first legal move
  -- that mates, or that resets the clock without a draw by 75 moves; it stays if there is none.
  -- The score of the new move does not matter.
  pub apply_override_lem :
      (b : Board) (ev : Evaluation) (depth : ℕ) (text : String) (m : Move)
      → IsObedient b depth
      → ev.best_move ≡ some text
      → is_empty text ≡ false
      → leb 100 (halfmove_clock b) ≡ true
      → find_move c text (legal_moves b) ≡ some m
      → is_drawing c evaluate b m ≡ true
      → (apply_override c evaluate b ev depth).best_move
        ≡ or_text (first_fit b (legal_moves b)) (some text)
  apply_override_lem b ev depth text m obeys h k l f d =
      rw
        (
          apply_override-drawing b ev depth text m h k l f d,
          overridden-move b ev depth (pick_override_move c evaluate b (legal_moves b)) obeys,
          pick-first_fit b (legal_moves b),
          h,
        )
        refl
