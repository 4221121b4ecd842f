-- ===== src/Rules/DeadPosition.antt =====
-- mcp_server/rules/dead_position.py: positions that are dead because the pawns are locked.
pub mod Flood
pub mod Locked
use chessy_mcp.Prelude.{
  ℕ, zero, suc, ◌==◌, ltb, max, min, Bool, true, false, not, ◌&&◌, ◌||◌, Option, none, some, List,
  [], ◌∷◌, ◌++◌, length, map, if◌then◌else◌,
}
use chessy_mcp.Chess.{Chess, PieceType, pawn, knight, bishop, rook, queen, king_}

-- membership in a set of squares
abbrev pub is_in : ℕ → List ℕ → Bool
is_in n [] = false
is_in n (m ∷ l) = let rest = is_in n l in (n == m) || rest

abbrev pub is_nonempty {ℓ} : {A : Type ℓ} → List A → Bool
is_nonempty [] = false
is_nonempty (a ∷ l) = true

abbrev pub any_in {ℓ} : {A : Type ℓ} → (A → Bool) → List A → Bool
any_in test [] = false
any_in test (a ∷ l) = let rest = any_in test l in test a || rest

abbrev pub union_of : (ℕ → List ℕ) → List ℕ → List ℕ
union_of f [] = []
union_of f (a ∷ l) = f a ++ union_of f l

-- one neighbour of the square that was taken from the queue: the squares that are reached, and the
-- queue
unfoldable pub visit : List ℕ → ℕ → List ℕ × List ℕ → List ℕ × List ℕ
visit blocked n (reached, queue) =
    if not (is_in n reached) && not (is_in n blocked)
    then (n ∷ reached, queue ++ n ∷ [])
    else (reached, queue)

abbrev pub visit_all : List ℕ → List ℕ → List ℕ × List ℕ → List ℕ × List ℕ
visit_all blocked [] state = state
visit_all blocked (n ∷ neighbors) state = visit_all blocked neighbors (visit blocked n state)

-- The loop `while queue`, for a number of rounds.
unfoldable pub flood : (ℕ → List ℕ) → List ℕ → ℕ → List ℕ × List ℕ → List ℕ
flood steps blocked zero (reached, queue) = reached
flood steps blocked (suc rounds) (reached, []) = reached
flood steps blocked (suc rounds) (reached, curr ∷ queue) =
    flood steps blocked rounds (visit_all blocked (steps curr) (reached, queue))

-- a square is taken from the queue once
abbrev pub squares : ℕ
squares = 64

unfoldable pub reachable : (ℕ → List ℕ) → List ℕ → ℕ → List ℕ
unfolding flood
reachable steps blocked king = flood steps blocked squares (king ∷ [], king ∷ [])

abbrev pub is_piece : PieceType → Option PieceType → Bool
is_piece pawn (some pawn) = true
is_piece bishop (some bishop) = true
is_piece p o = false

abbrev pub highest : List ℕ → ℕ
highest [] = 0
highest (a ∷ l) = max a (highest l)

-- `min(…, default=7)`
abbrev pub lowest : List ℕ → ℕ
lowest [] = 7
lowest (a ∷ []) = a
lowest (a ∷ b ∷ l) = min a (lowest (b ∷ l))

module _ (c : Chess) where
  open c use {
    Board, Move, with_turn, legal_moves, moved_piece, is_insufficient_material, pieces, king,
    occupied, attacks_mask, king_attacks, square_rank,
  }

  -- a queen, a rook or a knight
  unfoldable pub has_mating_piece : Board → Bool → Bool
  has_mating_piece b color =
      is_nonempty (pieces b queen color)
      || is_nonempty (pieces b rook color)
      || is_nonempty (pieces b knight color)

  unfoldable pub can_move : PieceType → Board → Bool → Bool
  can_move piece b color =
      let flipped = with_turn color b in
      any_in (λ m. is_piece piece (moved_piece flipped m)) (legal_moves flipped)

  -- occupied, or attacked by the pawns of a colour
  unfoldable pub blocked_by : Board → Bool → List ℕ
  blocked_by b color = occupied b ++ union_of (attacks_mask b) (pieces b pawn color)

  unfoldable pub king_region : Board → Bool → ℕ → List ℕ
  unfolding blocked_by reachable
  king_region b color = reachable king_attacks (blocked_by b (not color))

  unfoldable pub attacks_pawn : Board → Bool → List ℕ → Bool
  attacks_pawn b color region =
      any_in (λ sq. any_in (λ n. is_in n region) (king_attacks sq)) (pieces b pawn color)

  -- the test on kings and locked pawns
  unfoldable pub are_kings_apart : Board → ℕ → ℕ → Bool
  unfolding king_region attacks_pawn
  are_kings_apart b white_king black_king =
      let white = king_region b true white_king in
      let black = king_region b false black_king in
      not (attacks_pawn b false white)
      && not (attacks_pawn b true black)
      && ltb (highest (map square_rank white)) (lowest (map square_rank black))

  abbrev both_kings : Board → Option ℕ → Option ℕ → Bool
  both_kings b none o = false
  both_kings b (some w) none = false
  both_kings b (some w) (some k) = are_kings_apart b w k

  unfoldable pub is_locked_dead_position : Board → Bool
  unfolding has_mating_piece can_move are_kings_apart
  is_locked_dead_position b =
      is_insufficient_material b
      || (not (has_mating_piece b true || has_mating_piece b false)
          && not (can_move pawn b true || can_move pawn b false)
          && not (
              (is_nonempty (pieces b bishop true) || is_nonempty (pieces b bishop false))
              && (can_move bishop b true || can_move bishop b false))
          && both_kings b (king b true) (king b false))
