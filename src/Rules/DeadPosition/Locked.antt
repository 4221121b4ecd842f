-- ===== src/Rules/DeadPosition/Locked.antt =====
-- What mcp_server/rules/dead_position.py has made sure of when it calls a position dead.
use chessy_mcp.Prelude.{
  ℕ, ◌≤◌, ◌<◌, map, ◌≡◌, Bool, true, false, not, some, List, [], ◌∷◌, arith, ap, inl, inr,
  Bool-cases, ◌==◌,
}
use chessy_mcp.Chess.{Chess, pawn}
use chessy_mcp.Rules.DeadPosition.{
  is_in, any_in, highest, lowest, blocked_by, king_region, attacks_pawn, are_kings_apart,
  has_mating_piece, can_move, is_locked_dead_position,
}
use chessy_mcp.Rules.DeadPosition.Flood.{Walk, reachable_lem, ==→≡}

is_in-highest : (f : ℕ → ℕ) (n : ℕ) (l : List ℕ) → is_in n l ≡ true → f n ≤ highest (map f l)
is_in-highest f n [] h = ground (arith, h)
is_in-highest f n (m ∷ l) h = elim (Bool-cases (n == m)) [
  | inl e ↦ ground (arith, ap f (==→≡ n m e))
  | inr e ↦ ground (arith, is_in-highest f n l (ground (arith, e, h)))
]

lowest_head : (a : ℕ) (l : List ℕ) → lowest (a ∷ l) ≤ a
lowest_head a [] = ground arith
lowest_head a (b ∷ l) = ground arith

lowest_tail : (a b : ℕ) (l : List ℕ) → lowest (a ∷ b ∷ l) ≤ lowest (b ∷ l)
lowest_tail a b l = ground arith

is_in-lowest : (f : ℕ → ℕ) (n : ℕ) (l : List ℕ) → is_in n l ≡ true → lowest (map f l) ≤ f n
is_in-lowest f n [] h = ground (arith, h)
is_in-lowest f n (m ∷ []) h = ground (arith, h, ap f (==→≡ n m (ground (arith, h))))
is_in-lowest f n (m ∷ k ∷ l) h = elim (Bool-cases (n == m)) [
  | inl e ↦ ground (arith, ap f (==→≡ n m e), lowest_head (f m) (map f (k ∷ l)))
  | inr e ↦
      ground
        (arith, lowest_tail (f m) (f k) (map f l), is_in-lowest f n (k ∷ l) (ground (arith, e, h)))
]

any_in-none :
    (test : ℕ → Bool) (l : List ℕ) (n : ℕ)
    → any_in test l ≡ false
    → is_in n l ≡ true
    → test n ≡ false
any_in-none test [] n h k = ground (arith, k)
any_in-none test (m ∷ l) n h k = elim (Bool-cases (n == m)) [
  | inl e ↦ ground (arith, h, ap test (==→≡ n m e))
  | inr e ↦ any_in-none test l n (ground (arith, h)) (ground (arith, e, k))
]

any_in-absent :
    (test : ℕ → Bool) (l : List ℕ) (n : ℕ)
    → any_in test l ≡ false
    → test n ≡ true
    → is_in n l ≡ false
any_in-absent test l n h e = elim (Bool-cases (is_in n l)) [
  | inl f ↦ ground (arith, any_in-none test l n h f, e)
  | inr f ↦ f
]

module _ (c : Chess) (inside : (m n : ℕ) → is_in n (c.king_attacks m) ≡ true → n < 64)
    (b : c.Board) where
  open c use {king, king_attacks, pieces, square_rank}

  -- where the king of a colour can walk over squares that are empty in the position and that no pawn
  -- of the other side attacks
  abbrev pub KingWalk : Bool → ℕ → ℕ → Type 0
  KingWalk color = Walk king_attacks (blocked_by c b (not color))

  walks :
      (color : Bool) (w : ℕ)
      → w < 64
      → (m : ℕ) → KingWalk color w m
      → is_in m (king_region c b color w) ≡ true
  unfolding king_region
  walks color w h m walk =
      (reachable_lem king_attacks (blocked_by c b (not color)) w inside h m).1 walk

  module _ (w k : ℕ) (apart : are_kings_apart c b w k ≡ true) where
    lower :
        (m n : ℕ)
        → is_in m (king_region c b true w) ≡ true
        → is_in n (king_region c b false k) ≡ true
        → square_rank m < square_rank n
    unfolding are_kings_apart
    lower m n e f = ground (
      arith,
      apart,
      is_in-highest square_rank m (king_region c b true w) e,
      is_in-lowest square_rank n (king_region c b false k) f,
    )

    no_pawn_near :
        (color : Bool) (region : List ℕ) (m p : ℕ)
        → attacks_pawn c b color region ≡ false
        → is_in m region ≡ true
        → is_in p (pieces b pawn color) ≡ true
        → is_in m (king_attacks p) ≡ false
    unfolding attacks_pawn
    no_pawn_near color region m p h e f =
        any_in-absent (λ n. is_in n region) (king_attacks p) m
          (any_in-none (λ sq. any_in (λ n. is_in n region) (king_attacks sq)) (pieces b pawn color)
            p h f)
          e

    safe :
        (attacks_pawn c b false (king_region c b true w) ≡ false)
        × (attacks_pawn c b true (king_region c b false k) ≡ false)
    unfolding are_kings_apart
    safe = ground (arith, apart)

  are_kings_apart-kept :
      (w k : ℕ)
      → king b true ≡ some w
      → king b false ≡ some k
      → c.is_insufficient_material b ≡ false
      → is_locked_dead_position c b ≡ true
      → are_kings_apart c b w k ≡ true
  unfolding is_locked_dead_position
  are_kings_apart-kept w k ew ek mat dead = ground (arith, ew, ek, mat, dead)

  -- On a board whose squares are the numbers below 64 and which has both kings: in a position that
  -- is called dead though its material could mate, neither side has a queen, a rook or a knight, or a
  -- pawn that can move. And wherever the kings walk over squares that are empty in this position and
  -- that no pawn of the other side attacks, the white king stays on lower ranks than the black one
  -- and neither comes next to a pawn of the other side.
  pub is_locked_dead_position_lem :
      (w k : ℕ)
      → king b true ≡ some w
      → king b false ≡ some k
      → w < 64
      → k < 64
      → c.is_insufficient_material b ≡ false
      → is_locked_dead_position c b ≡ true
      → (has_mating_piece c b true ≡ false)
        × (has_mating_piece c b false ≡ false)
        × (can_move c pawn b true ≡ false)
        × (can_move c pawn b false ≡ false)
        × ((m n : ℕ) → KingWalk true w m → KingWalk false k n → square_rank m < square_rank n)
        × ((m p : ℕ)
            → KingWalk true w m
            → is_in p (pieces b pawn false) ≡ true
            → is_in m (king_attacks p) ≡ false)
        × ((n p : ℕ)
            → KingWalk false k n
            → is_in p (pieces b pawn true) ≡ true
            → is_in n (king_attacks p) ≡ false)
  unfolding is_locked_dead_position
  is_locked_dead_position_lem w k ew ek hw hk mat dead =
      let apart = are_kings_apart-kept w k ew ek mat dead in
      (
        ground (arith, mat, dead),
        ground (arith, mat, dead),
        ground (arith, mat, dead),
        ground (arith, mat, dead),
        (λ m n v u. lower w k apart m n (walks true w hw m v) (walks false k hk n u)),
        (λ m p v e. no_pawn_near w k apart false _ m p (safe w k apart).0 (walks true w hw m v) e),
        (λ n p u e. no_pawn_near w k apart true _ n p (safe w k apart).1 (walks false k hk n u) e),
      )
