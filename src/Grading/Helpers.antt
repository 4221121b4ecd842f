-- ===== src/Grading/Helpers.antt =====
-- mcp_server/analysis/move_grading/helpers.py.
use chessy_mcp.Prelude.{
  ℕ, ◌+◌, ℤ, pos, negsuc, ltbℤ, lebℤ, leb, Bool, not, ◌||◌, Option, none, some, false,
}
use chessy_mcp.Chess.{Chess}
use chessy_mcp.Rules.ActionChoice.{material}
use chessy_mcp.Grading.Draw.{is_over}

abbrev pub is_under : ℤ → Option ℤ → Bool
is_under bound none = false
is_under bound (some m) = ltbℤ m bound

unfoldable pub is_before_winning : ℤ → Option ℤ → Bool
is_before_winning before_mover mate = is_over (pos 0) mate || lebℤ (pos 200) before_mover

unfoldable pub is_mover_forced_win : ℤ → Option ℤ → Bool
is_mover_forced_win before_mover mate = is_over (pos 0) mate || lebℤ (pos 100) before_mover

unfoldable pub is_after_winning : Option ℤ → ℤ → Bool
is_after_winning mate after_mover = is_over (pos 0) mate || lebℤ (pos 100) after_mover

module _ (c : Chess) where
  open c use {Board, turn}

  unfoldable pub material_balance : Board → ℕ × ℕ
  material_balance b = (material c b (turn b), material c b (not (turn b)))

  unfoldable pub is_down_material : Board → Bool
  unfolding material_balance
  is_down_material b = leb ((material_balance b).0 + 200) (material_balance b).1

  unfoldable pub is_after_losing : Option ℤ → ℤ → Board → Bool
  unfolding is_down_material
  is_after_losing mate after_mover b =
      lebℤ after_mover (negsuc 99) || is_under (pos 0) mate || is_down_material b
