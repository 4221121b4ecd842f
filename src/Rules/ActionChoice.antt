-- ===== src/Rules/ActionChoice.antt =====
-- mcp_server/rules/action_choice.py, with the constants of mcp_server/rules/constants.py and the
-- piece values of mcp_server/domain/position.py.
pub mod Policy
use chessy_mcp.Prelude.{
  ℕ, ◌+◌, ◌-◌, ◌*◌, ℤ, pos, sub_ℕ, lebℤ, ltbℤ, Bool, true, false, not, ◌&&◌, ◌||◌, Option, none,
  some, length, leb, if◌then◌else◌,
}
use chessy_mcp.Chess.{Chess, PieceType, pawn, knight, bishop, rook, queen, king_}

-- `RuleAction`
pub data Action : Type 0 where
  play_move claim_draw claim_draw_with_intended_move game_over : Action

abbrev pub equivalence_threshold : ℤ
equivalence_threshold = pos 50

abbrev pub material_down_threshold : ℕ
material_down_threshold = 200

abbrev pub forced_win_threshold : ℤ
forced_win_threshold = pos 2000

unfoldable pub piece_value : PieceType → ℕ
piece_value pawn = 100
piece_value knight = 300
piece_value bishop = 300
piece_value rook = 500
piece_value queen = 900
piece_value king_ = 0

-- a mate count or a score that is there and passes a bound
abbrev pub is_positive : Option ℤ → Bool
is_positive none = false
is_positive (some m) = ltbℤ (pos 0) m

abbrev pub reaches : ℤ → Option ℤ → Bool
reaches bound none = false
reaches bound (some m) = lebℤ bound m

module _ (c : Chess) where
  open c use {Board, turn, pieces}

  -- the sum over `PIECE_VALUE` for one colour
  unfoldable pub material : Board → Bool → ℕ
  unfolding piece_value
  material b color =
      length (pieces b pawn color) * piece_value pawn
      + length (pieces b knight color) * piece_value knight
      + length (pieces b bishop color) * piece_value bishop
      + length (pieces b rook color) * piece_value rook
      + length (pieces b queen color) * piece_value queen

  unfoldable pub is_down_material : Board → Bool
  is_down_material b =
      leb (material b (turn b) + material_down_threshold) (material b (not (turn b)))

  unfoldable pub is_mover_in_trouble : Board → Option ℤ → Bool
  unfolding is_down_material
  is_mover_in_trouble b none = is_down_material b
  is_mover_in_trouble b (some score) =
      not (ltbℤ equivalence_threshold score && not (is_down_material b))

  -- The keyword arguments, in their order: the two claim flags, the mover's score and mate, the best
  -- score and mate behind a zeroing move.
  unfoldable pub choose_recommended_action :
      Board → Bool → Bool → Option ℤ → Option ℤ → Option ℤ → Option ℤ → Action
  unfolding is_mover_in_trouble
  choose_recommended_action b now intended score mate zeroing_score zeroing_mate =
      if not (now || intended)
      then play_move
      else if is_positive mate
      then play_move
      else if is_positive zeroing_mate
      then play_move
      else if reaches forced_win_threshold zeroing_score
      then play_move
      else if is_mover_in_trouble b score
      then (if now then claim_draw else claim_draw_with_intended_move)
      else play_move
