-- ===== src/Rules/DeadPosition/Flood.antt =====
-- The squares that the loop of mcp_server/rules/dead_position.py reaches.
use chessy_mcp.Prelude.{
  ℕ, zero, suc, ◌+◌, ◌≤◌, ◌<◌, ◌==◌, ◌≡◌, refl, sym, ap, subst, true, false, not, ◌&&◌, ◌||◌,
  Bool-cases, inl, inr, ◌↔◌, List, [], ◌∷◌, ◌++◌, length, arith, if◌then◌else◌, length-append,
}
use chessy_mcp.Rules.DeadPosition.{is_in, visit, visit_all, flood, reachable, squares}

is_in-append : (n m : ℕ) (l : List ℕ) → is_in n (l ++ m ∷ []) ≡ (is_in n l || (n == m))
is_in-append n m [] = ground arith
is_in-append n m (k ∷ l) = ground (arith, is_in-append n m l)

pub ==→≡ : (n m : ℕ) → (n == m) ≡ true → n ≡ m
==→≡ n m h = ground (arith, h)

is_in_same : (n m : ℕ) (l : List ℕ) → (n == m) ≡ true → is_in n l ≡ is_in m l
is_in_same n m l h = ap (λ k. is_in k l) (==→≡ n m h)

is_in_head : (n : ℕ) (l : List ℕ) → is_in n (n ∷ l) ≡ true
is_in_head n l = ground arith

is_in_tail : (n m : ℕ) (l : List ℕ) → is_in n l ≡ true → is_in n (m ∷ l) ≡ true
is_in_tail n m l h = ground (arith, h)

-- how many numbers below `n` are not in a list
abbrev unseen : ℕ → List ℕ → ℕ
unseen zero l = 0
unseen (suc n) l = let rest = unseen n l in if is_in n l then rest else suc rest

unseen_mono : (n m : ℕ) (l : List ℕ) → unseen n (m ∷ l) ≤ unseen n l
unseen_mono zero m l = omega arith
unseen_mono (suc n) m l = ground (arith, unseen_mono n m l)

unseen_push : (n m : ℕ) (l : List ℕ) → m < n → is_in m l ≡ false → unseen n (m ∷ l) < unseen n l
unseen_push zero m l h k = omega (arith, h)
unseen_push (suc n) m l h k = elim (Bool-cases (n == m)) [
  | inl e ↦ ground (arith, e, k, is_in_same n m l e, unseen_mono n m l)
  | inr e ↦ ground (arith, e, k, unseen_push n m l (ground (arith, e, h)) k)
]

module _ (blocked : List ℕ) where
  module _ (n : ℕ) where
    visit_reached :
        (m : ℕ) (r q : List ℕ)
        → is_in n (visit blocked m (r, q)).0 ≡ (is_in n r || ((n == m) && not (is_in n blocked)))
    unfolding visit
    visit_reached m r q = elim (Bool-cases (n == m)) [
      | inl e ↦ ground (arith, e, is_in_same n m r e, is_in_same n m blocked e)
      | inr e ↦ ground (arith, e)
    ]

    visit_queue :
        (m : ℕ) (r q : List ℕ)
        → is_in n (visit blocked m (r, q)).1
          ≡ (is_in n q || ((n == m) && not (is_in n blocked) && not (is_in n r)))
    unfolding visit
    visit_queue m r q = elim (Bool-cases (n == m)) [
      | inl e ↦ ground (arith, e, is_in_same n m r e, is_in_same n m blocked e, is_in-append n m q)
      | inr e ↦ ground (arith, e, is_in-append n m q)
    ]

    -- what is reached behind all neighbours of a square
    visit_all_reached :
        (l : List ℕ) (s : List ℕ × List ℕ)
        → is_in n (visit_all blocked l s).0 ≡ (is_in n s.0 || (is_in n l && not (is_in n blocked)))
    visit_all_reached [] s = ground arith
    visit_all_reached (m ∷ l) s =
        ground (arith, visit_all_reached l (visit blocked m s), visit_reached m s.0 s.1)

    visit_all_queue :
        (l : List ℕ) (s : List ℕ × List ℕ)
        → is_in n (visit_all blocked l s).1
          ≡ (is_in n s.1 || (is_in n l && not (is_in n blocked) && not (is_in n s.0)))
    visit_all_queue [] s = ground arith
    visit_all_queue (m ∷ l) s = ground (
      arith,
      visit_all_queue l (visit blocked m s),
      visit_queue m s.0 s.1,
      visit_reached m s.0 s.1,
    )

  module _ (bound : ℕ) where
    -- the rounds that are left to do
    abbrev work : List ℕ × List ℕ → ℕ
    work s = unseen bound s.0 + length s.1

    work-visit : (m : ℕ) (s : List ℕ × List ℕ) → m < bound → work (visit blocked m s) ≤ work s
    unfolding visit
    work-visit m s h = elim (Bool-cases (is_in m s.0)) [
      | inl e ↦ ground (arith, e)
      | inr e ↦ ground (arith, e, unseen_push bound m s.0 h e, length-append s.1 (m ∷ []))
    ]

    work-visit_all :
        (l : List ℕ) (s : List ℕ × List ℕ)
        → ((n : ℕ) → is_in n l ≡ true → n < bound)
        → work (visit_all blocked l s) ≤ work s
    work-visit_all [] s h = omega arith
    work-visit_all (m ∷ l) s h = omega (
      arith,
      work-visit m s (h m (is_in_head m l)),
      work-visit_all l (visit blocked m s) (λ n e. h n (is_in_tail n m l e)),
    )

nothing_left : (n m : ℕ) → ¬ (n + suc m ≤ 0)
nothing_left n m h = omega (arith, h)

-- a walk in single steps through squares that are not blocked
pub data Walk (steps : ℕ → List ℕ) (blocked : List ℕ) (king : ℕ) : ℕ → Type 0 where
  start : Walk steps blocked king king
  onward :
      {m n : ℕ}
      → Walk steps blocked king m
      → is_in n (steps m) ≡ true
      → is_in n blocked ≡ false
      → Walk steps blocked king n

module _ (steps : ℕ → List ℕ) (blocked : List ℕ) (king bound : ℕ)
    (inside : (m n : ℕ) → is_in n (steps m) ≡ true → n < bound) where
  -- what holds at the head of each round
  record IsFlooding (s : List ℕ × List ℕ) : Type 0 where
    walked : (n : ℕ) → is_in n s.0 ≡ true → Walk steps blocked king n
    queued : (n : ℕ) → is_in n s.1 ≡ true → is_in n s.0 ≡ true
    expanded :
        (m n : ℕ)
        → is_in m s.0 ≡ true
        → is_in m s.1 ≡ false
        → is_in n (steps m) ≡ true
        → is_in n blocked ≡ false
        → is_in n s.0 ≡ true
    has_king : is_in king s.0 ≡ true

  round_expanded :
      (curr : ℕ) (r q : List ℕ)
      → IsFlooding (r, curr ∷ q)
      → (m n : ℕ) → is_in m (visit_all blocked (steps curr) (r, q)).0 ≡ true
      → is_in m (visit_all blocked (steps curr) (r, q)).1 ≡ false
      → is_in n (steps m) ≡ true
      → is_in n blocked ≡ false
      → is_in n (visit_all blocked (steps curr) (r, q)).0 ≡ true
  round_expanded curr r q h m n e f g k = elim (Bool-cases (m == curr)) [
    | inl same ↦ ground (
      arith,
      g,
      k,
      ap (λ c. is_in n (steps c)) (==→≡ m curr same),
      visit_all_reached blocked n (steps curr) (r, q),
    )
    | inr other ↦ ground (
      arith,
      visit_all_reached blocked n (steps curr) (r, q),
      h.expanded m n
          (ground (
            arith,
            e,
            f,
            visit_all_reached blocked m (steps curr) (r, q),
            visit_all_queue blocked m (steps curr) (r, q),
          ))
          (ground (arith, other, f, visit_all_queue blocked m (steps curr) (r, q))) g k,
    )
  ]

  round-IsFlooding :
      (curr : ℕ) (r q : List ℕ)
      → IsFlooding (r, curr ∷ q)
      → IsFlooding (visit_all blocked (steps curr) (r, q))
  round-IsFlooding curr r q h = record {
    walked = λ n e. elim (Bool-cases (is_in n r)) [
      | inl f ↦ h.walked n f
      | inr f ↦
          onward (h.walked curr (h.queued curr (is_in_head curr q)))
            (ground (arith, e, f, visit_all_reached blocked n (steps curr) (r, q)))
            (ground (arith, e, f, visit_all_reached blocked n (steps curr) (r, q)))
    ];
    queued = λ n e. elim (Bool-cases (is_in n q)) [
      | inl f ↦ ground (
        arith,
        h.queued n (is_in_tail n curr q f),
        visit_all_reached blocked n (steps curr) (r, q),
      )
      | inr f ↦ ground (
        arith,
        e,
        f,
        visit_all_reached blocked n (steps curr) (r, q),
        visit_all_queue blocked n (steps curr) (r, q),
      )
    ];
    expanded = round_expanded curr r q h;
    has_king = ground (arith, h.has_king, visit_all_reached blocked king (steps curr) (r, q));
  }

  done : (r : List ℕ) → IsFlooding (r, []) → (n : ℕ) → Walk steps blocked king n → is_in n r ≡ true
  done r h _ start = h.has_king
  done r h n (onward {m} w e f) = h.expanded m n (done r h m w) refl e f

  flood_lem :
      (rounds : ℕ) (r q : List ℕ)
      → IsFlooding (r, q)
      → work blocked bound (r, q) ≤ rounds
      → (n : ℕ) → (is_in n (flood steps blocked rounds (r, q)) ≡ true) ↔ Walk steps blocked king n
  unfolding flood
  flood_lem zero r [] h k n = (h.walked n, done r h n)
  flood_lem zero r (c ∷ q) h k n = elim (nothing_left (unseen bound r) (length q) k) [ ]
  flood_lem (suc rounds) r [] h k n = (h.walked n, done r h n)
  flood_lem (suc rounds) r (c ∷ q) h k n =
      let s = visit_all blocked (steps c) (r, q) in
      flood_lem rounds s.0 s.1 (round-IsFlooding c r q h)
        (omega (arith, k, work-visit_all blocked bound (steps c) (r, q) (inside c))) n

  start-IsFlooding : IsFlooding (king ∷ [], king ∷ [])
  start-IsFlooding = record {
    walked = λ n e. subst (Walk steps blocked king) (sym (==→≡ n king (ground (arith, e)))) start;
    queued = λ n e. e;
    expanded = λ m n e f g k. ground (arith, e, f);
    has_king = is_in_head king [];
  }

unseen_nothing : (n : ℕ) → unseen n [] ≡ n
unseen_nothing zero = refl
unseen_nothing (suc n) = omega (arith, unseen_nothing n)

-- On a board whose squares are the numbers below 64, the flood from a king ends, and it finds just
-- the squares to which the king can walk without entering a blocked one.
pub reachable_lem :
    (steps : ℕ → List ℕ) (blocked : List ℕ) (king : ℕ)
    → ((m n : ℕ) → is_in n (steps m) ≡ true → n < 64)
    → king < 64
    → (n : ℕ) → (is_in n (reachable steps blocked king) ≡ true) ↔ Walk steps blocked king n
unfolding reachable
reachable_lem steps blocked king inside h n =
    flood_lem steps blocked king squares inside squares (king ∷ []) (king ∷ [])
      (start-IsFlooding steps blocked king squares inside)
      (omega (arith, unseen_push squares king [] h refl, unseen_nothing squares)) n
