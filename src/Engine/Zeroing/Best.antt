-- ===== src/Engine/Zeroing/Best.antt =====
-- The scan of mcp_server/engine/zeroing_post_state_all.py finds the best of the zeroing moves.
use chessy_mcp.Prelude.{
  ℕ, ltb, pos, ltbℤ, ◌≡◌, refl, ◌∙◌, ap, ◌++◌, Bool-cases, subst, ◌⊎◌, inl, inr, Bool, true, false,
  ◌&&◌, ◌||◌, Option, none, some, List, [], ◌∷◌, arith, if◌then◌else◌,
}
use chessy_mcp.Chess.{Chess}
use chessy_mcp.Engine.Zeroing.{
  Evaluation, ZeroingOverrideResult, Entry, noop_result, consider, best_of, is_zeroing_move,
  bounded_eval, zeroing_results, evaluate_all_zeroing_post_states,
}

-- a mate that comes sooner is better, any mate is better than a score, and a higher score is better
abbrev pub beats : Entry → ZeroingOverrideResult → Bool
beats (uci, (cp, some mate)) r =
    ltbℤ (pos 0) mate && elim r.mate [ none ↦ true | some m ↦ ltbℤ mate m ]
beats (uci, (none, none)) r = false
beats (uci, (some cp, none)) r =
    ltbℤ (pos 0) cp
    && elim r.mate [ some m ↦ false | none ↦ elim r.cp [ none ↦ true | some c ↦ ltbℤ c cp ] ]

abbrev pub any_beats : List Entry → ZeroingOverrideResult → Bool
any_beats [] r = false
any_beats (e ∷ entries) r = let rest = any_beats entries r in beats e r || rest

-- what an entry says if it is the best one
abbrev pub result_of : Entry → ZeroingOverrideResult
result_of (uci, (cp, some mate)) = record { cp = none; mate = some mate; winning_uci = some uci }
result_of (uci, (cp, none)) = record { cp = cp; mate = none; winning_uci = some uci }

consider_lem :
    (r : ZeroingOverrideResult) (e : Entry) → consider r e ≡ (if beats e r then result_of e else r)
unfolding consider
consider_lem r (uci, (cp, some mate)) = ground arith
consider_lem r (uci, (none, none)) = ground arith
consider_lem r (uci, (some cp, none)) = ground arith

beats-result_of : (e : Entry) → beats e (result_of e) ≡ false
beats-result_of (uci, (cp, some mate)) = ground arith
beats-result_of (uci, (none, none)) = ground arith
beats-result_of (uci, (some cp, none)) = ground arith

-- who does not beat a result does not beat one that beats it
beats_trans :
    (e f : Entry) (r : ZeroingOverrideResult)
    → beats e r ≡ false
    → beats f r ≡ true
    → beats e (result_of f) ≡ false
beats_trans (u, (cp, some m)) (v, (cp', some m')) r h k = ground (arith, h, k)
beats_trans (u, (cp, some m)) (v, (none, none)) r h k = ground (arith, h, k)
beats_trans (u, (cp, some m)) (v, (some cp', none)) r h k = ground (arith, h, k)
beats_trans (u, (none, none)) f r h k = refl
beats_trans (u, (some cp, none)) (v, (cp', some m')) r h k = ground (arith, h, k)
beats_trans (u, (some cp, none)) (v, (none, none)) r h k = ground (arith, h, k)
beats_trans (u, (some cp, none)) (v, (some cp', none)) r h k = ground (arith, h, k)

beats-consider :
    (e f : Entry) (r : ZeroingOverrideResult) → beats e r ≡ false → beats e (consider r f) ≡ false
beats-consider e f r h = rw (consider_lem r f) (go (beats f r) refl)
  where
    go : (t : Bool) → beats f r ≡ t → beats e (if t then result_of f else r) ≡ false
    go true k = beats_trans e f r h k
    go false k = h

beats-best_of :
    (e : Entry) (r : ZeroingOverrideResult) (entries : List Entry)
    → beats e r ≡ false
    → beats e (best_of r entries) ≡ false
unfolding best_of
beats-best_of e r [] h = h
beats-best_of e r (f ∷ entries) h = beats-best_of e (consider r f) entries (beats-consider e f r h)

beats-itself : (e : Entry) (r : ZeroingOverrideResult) → beats e (consider r e) ≡ false
beats-itself e r = rw (consider_lem r e) (go (beats e r) refl)
  where
    go : (t : Bool) → beats e r ≡ t → beats e (if t then result_of e else r) ≡ false
    go true k = beats-result_of e
    go false k = k

any_beats-best_of :
    (r : ZeroingOverrideResult) (entries : List Entry)
    → any_beats entries (best_of r entries) ≡ false
unfolding best_of
any_beats-best_of r [] = refl
any_beats-best_of r (e ∷ entries) =
    rw (beats-best_of e (consider r e) entries (beats-itself e r))
      (any_beats-best_of (consider r e) entries)

-- the result is that of an entry that wins, or what there was before
unfoldable pub ComesFrom : ZeroingOverrideResult → ZeroingOverrideResult → List Entry → Type 0
ComesFrom start r [] = r ≡ start
ComesFrom start r (e ∷ entries) =
    ((r ≡ result_of e) × (beats e noop_result ≡ true)) ⊎ ComesFrom start r entries

ComesFrom-other :
    (start other r : ZeroingOverrideResult) (entries : List Entry)
    → ComesFrom start r entries
    → (r ≡ start) ⊎ ComesFrom other r entries
unfolding ComesFrom
ComesFrom-other start other r [] h = inl h
ComesFrom-other start other r (e ∷ entries) (inl h) = inr (inl h)
ComesFrom-other start other r (e ∷ entries) (inr h) =
    elim (ComesFrom-other start other r entries h) [ inl k ↦ inl k | inr k ↦ inr (inr k) ]

beats_noop : (e : Entry) (r : ZeroingOverrideResult) → beats e r ≡ true → beats e noop_result ≡ true
beats_noop (u, (cp, some m)) r h = ground (arith, h)
beats_noop (u, (none, none)) r h = ground (arith, h)
beats_noop (u, (some cp, none)) r h = ground (arith, h)

ComesFrom-cons :
    (r s : ZeroingOverrideResult) (e : Entry) (entries : List Entry)
    → ComesFrom (consider r e) s entries
    → ComesFrom r s (e ∷ entries)
unfolding ComesFrom
ComesFrom-cons r s e entries h = go (beats e r) refl
  where
    go : (t : Bool) → beats e r ≡ t → ComesFrom r s (e ∷ entries)
    go true k = elim (ComesFrom-other (consider r e) r s entries h) [
      | inl q ↦ inl (q ∙ consider_lem r e ∙ ground (arith, k), beats_noop e r k)
      | inr q ↦ inr q
    ]
    go false k = inr (subst (λ t. ComesFrom t s entries) (consider_lem r e ∙ ground (arith, k)) h)

ComesFrom-best_of :
    (r : ZeroingOverrideResult) (entries : List Entry) → ComesFrom r (best_of r entries) entries
unfolding best_of ComesFrom
ComesFrom-best_of r [] = refl
ComesFrom-best_of r (e ∷ entries) =
    ComesFrom-cons r (best_of (consider r e) entries) e entries
      (ComesFrom-best_of (consider r e) entries)

module _ (c : Chess) (evaluate : c.Board → ℕ → Option c.Move → Option Evaluation) where
  open c use {Board, Move, legal_moves, halfmove_clock, is_game_over}

  -- the scan as the best of its entries
  pub entries-ComesFrom :
      (b : Board) (depth : ℕ)
      → is_game_over b ≡ false
      → ltb (halfmove_clock b) 100 ≡ false
      → let entries = zeroing_results c evaluate b depth (legal_moves b) in
        let r = evaluate_all_zeroing_post_states c evaluate b depth in
        (any_beats entries r ≡ false) × ComesFrom noop_result r entries
  unfolding evaluate_all_zeroing_post_states
  entries-ComesFrom b depth h k =
      let entries = zeroing_results c evaluate b depth (legal_moves b) in
      rw (h, k) (any_beats-best_of noop_result entries, ComesFrom-best_of noop_result entries)

  -- some capture or pawn move among the moves has an evaluation that beats the result
  abbrev pub any_move_beats : Board → ℕ → List Move → ZeroingOverrideResult → Bool
  any_move_beats b depth [] r = false
  any_move_beats b depth (m ∷ moves) r =
      let rest = any_move_beats b depth moves r in
      (is_zeroing_move c evaluate b m && beats (bounded_eval c evaluate b depth m) r) || rest

  any_beats-zeroing_results :
      (b : Board) (depth : ℕ) (r : ZeroingOverrideResult) (moves : List Move)
      → any_move_beats b depth moves r ≡ any_beats (zeroing_results c evaluate b depth moves) r
  unfolding zeroing_results
  any_beats-zeroing_results b depth r [] = refl
  any_beats-zeroing_results b depth r (m ∷ moves) =
      elim (Bool-cases (is_zeroing_move c evaluate b m)) [
        | inl e ↦ rw (e, any_beats-zeroing_results b depth r moves) refl
        | inr e ↦ rw (e, any_beats-zeroing_results b depth r moves) refl
      ]

  -- the result is that of a zeroing move among some moves, which wins
  abbrev pub IsOfMove : Board → ℕ → List Move → ZeroingOverrideResult → Type 0
  IsOfMove b depth moves r =
      (m : Move) × (before : List Move) × (after : List Move) × (moves ≡ before ++ m ∷ after)
      × (is_zeroing_move c evaluate b m ≡ true)
      × (r ≡ result_of (bounded_eval c evaluate b depth m))
      × (beats (bounded_eval c evaluate b depth m) noop_result ≡ true)

  IsOfMove-cons :
      (b : Board) (depth : ℕ) (n : Move) (moves : List Move) (r : ZeroingOverrideResult)
      → IsOfMove b depth moves r
      → IsOfMove b depth (n ∷ moves) r
  IsOfMove-cons b depth n moves r (m, before, after, e, z, k, l) =
      (m, n ∷ before, after, ap (λ l. n ∷ l) e, z, k, l)

  ComesFrom-IsOfMove :
      (b : Board) (depth : ℕ) (moves : List Move) (r : ZeroingOverrideResult)
      → ComesFrom noop_result r (zeroing_results c evaluate b depth moves)
      → (r ≡ noop_result) ⊎ IsOfMove b depth moves r
  unfolding zeroing_results ComesFrom
  ComesFrom-IsOfMove b depth [] r h = inl h
  ComesFrom-IsOfMove b depth (n ∷ moves) r h = elim (Bool-cases (is_zeroing_move c evaluate b n)) [
    | inr e ↦ later (ComesFrom-IsOfMove b depth moves r (rw e at h))
    | inl e ↦ elim (first e) [
      | inl (k, l) ↦ inr (n, [], moves, refl, e, k, l)
      | inr k ↦ later (ComesFrom-IsOfMove b depth moves r k)
    ]
  ]
    where
      first :
          is_zeroing_move c evaluate b n ≡ true
          → ComesFrom noop_result r
              (bounded_eval c evaluate b depth n ∷ zeroing_results c evaluate b depth moves)
      first e = rw e at h

      later :
          (r ≡ noop_result) ⊎ IsOfMove b depth moves r
          → (r ≡ noop_result) ⊎ IsOfMove b depth (n ∷ moves) r
      later (inl k) = inl k
      later (inr k) = inr (IsOfMove-cons b depth n moves r k)

  -- With the clock at 100 or more and the game not over, the scan gives the best of all legal
  -- zeroing moves: no legal move that captures or moves a pawn has an evaluation that beats the result
  -- (a mate that comes sooner, any mate before a score, a higher score), and the result is that of one
  -- of these moves which wins for the mover, or says that none does.
  pub evaluate_all_zeroing_post_states_lem :
      (b : Board) (depth : ℕ)
      → is_game_over b ≡ false
      → ltb (halfmove_clock b) 100 ≡ false
      → let r = evaluate_all_zeroing_post_states c evaluate b depth in
        (any_move_beats b depth (legal_moves b) r ≡ false)
        × ((r ≡ noop_result) ⊎ IsOfMove b depth (legal_moves b) r)
  evaluate_all_zeroing_post_states_lem b depth h k =
      let r = evaluate_all_zeroing_post_states c evaluate b depth in
      let scanned = entries-ComesFrom b depth h k in
      (
        any_beats-zeroing_results b depth r (legal_moves b) ∙ scanned.0,
        ComesFrom-IsOfMove b depth (legal_moves b) r scanned.1,
      )
