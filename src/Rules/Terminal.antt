-- ===== src/Rules/Terminal.antt =====
-- mcp_server/rules/terminal.py: whether a position is over, and whether a side can still mate.
pub mod Mating
use chessy_mcp.Prelude.{
  ℕ, ◌+◌, ◌%◌, ltb, leb, ◌==◌, Bool, true, false, not, ◌&&◌, ◌||◌, List, length, map, if◌then◌else◌,
}
use chessy_mcp.Chess.{Chess, pawn, knight, bishop, rook, queen}
use chessy_mcp.Rules.DeadPosition.{is_in, is_nonempty, is_locked_dead_position}

module _ (c : Chess) where
  open c use {
    Board, is_checkmate, is_stalemate, is_insufficient_material, is_seventyfive_moves,
    is_fivefold_repetition, pieces, square_rank, square_file,
  }

  unfoldable pub is_terminal_position : Board → Bool
  unfolding is_locked_dead_position
  is_terminal_position b =
      is_checkmate b
      || is_stalemate b
      || is_insufficient_material b
      || is_seventyfive_moves b
      || is_fivefold_repetition b
      || is_locked_dead_position c b

  -- the pieces of a side, its king left out
  abbrev pub nonking : Board → Bool → ℕ
  nonking b color =
      length (pieces b pawn color)
      + length (pieces b knight color)
      + length (pieces b bishop color)
      + length (pieces b rook color)
      + length (pieces b queen color)

  -- `len(complexes) >= 2`
  abbrev pub is_on_both_colors : List ℕ → Bool
  is_on_both_colors squares =
      let complexes = map (λ sq. (square_rank sq + square_file sq) % 2) squares in
      is_in 0 complexes && is_in 1 complexes

  unfoldable pub can_checkmate : Board → Bool → Bool
  can_checkmate b color =
      let pawns = length (pieces b pawn color) in
      let rooks = length (pieces b rook color) in
      let queens = length (pieces b queen color) in
      let bishops = pieces b bishop color in
      let knights = length (pieces b knight color) in
      if nonking b color == 0
      then false
      else if ltb 0 (pawns + rooks + queens)
      then true
      else if ltb 0 (nonking b (not color))
      then true
      else if leb 2 knights
      then true
      else if (knights == 1) && not (is_nonempty bishops)
      then false
      else if is_nonempty bishops
      then (if (length bishops == 1) && (knights == 0)
          then false
          else if ltb 0 knights
          then true
          else is_on_both_colors bishops)
      else false
