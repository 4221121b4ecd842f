-- ===== src/Rules/Terminal/Mating.antt =====
-- Which material mcp_server/rules/terminal.py takes to be enough for mate.
use chessy_mcp.Prelude.{
  ℕ, ◌+◌, ◌≤◌, ◌≡◌, ◌⊎◌, ◌↔◌, Bool, true, false, not, List, [], ◌∷◌, length, arith, refl, inl, inr,
}
use chessy_mcp.Chess.{Chess, pawn, knight, bishop, rook, queen}
use chessy_mcp.Rules.DeadPosition.{is_nonempty}
use chessy_mcp.Rules.Terminal.{can_checkmate, nonking, is_on_both_colors}

is_nonempty-cases :
    (l : List ℕ)
    → ((is_nonempty l ≡ false) × (length l ≡ 0)) ⊎ ((is_nonempty l ≡ true) × (1 ≤ length l))
is_nonempty-cases [] = ground arith
is_nonempty-cases (n ∷ l) = ground arith

module _ (c : Chess) where
  open c use {Board, pieces}

  abbrev pub have_both_colors : List ℕ → Bool
  have_both_colors = is_on_both_colors c

  one_color : (l : List ℕ) → (2 ≤ length l) ⊎ (have_both_colors l ≡ false)
  one_color [] = inr refl
  one_color (n ∷ []) = inr (ground arith)
  one_color (n ∷ m ∷ l) = inl (omega arith)

  -- A side cannot mate just if it has a bare king, or if it has no pawn, rook or queen, the other
  -- king is bare, and it has a single knight and no bishop, or bishops on one colour alone and no
  -- knight.
  pub can_checkmate_lem :
      (b : Board) (color : Bool)
      → (can_checkmate c b color ≡ false) ↔ (
          (nonking c b color ≡ 0)
          ⊎ ((length (pieces b pawn color)
                  + length (pieces b rook color)
                  + length (pieces b queen color)
                ≡ 0)
              × (nonking c b (not color) ≡ 0)
              × (((length (pieces b knight color) ≡ 1) × (length (pieces b bishop color) ≡ 0))
                  ⊎ ((length (pieces b knight color) ≡ 0)
                      × (have_both_colors (pieces b bishop color) ≡ false)))))
  unfolding can_checkmate
  can_checkmate_lem b color =
      ground (arith, is_nonempty-cases (pieces b bishop color), one_color (pieces b bishop color))
