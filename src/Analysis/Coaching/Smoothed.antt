-- ===== src/Analysis/Coaching/Smoothed.antt =====
-- `_confirm_segment_states` of mcp_server/analysis/game_coaching.py against a definition that looks
-- one ply ahead.
use chessy_mcp.Prelude.{
  ℕ, ◌+◌, ◌-◌, ◌≡◌, refl, sym, ap, ◌∙◌, subst, arith, true, false, inl, inr, Bool-cases, some, List,
  [], ◌∷◌, ◌++◌, append-nil, append_assoc, length, length-append,
}
use chessy_mcp.Analysis.Coaching.{
  PositionState, is_same, is_immediate, Smoothing, settle_on, rewrite_from, count_pending, observe,
  is_pending, observe_all, confirm_segment_states,
}
use chessy_mcp.Analysis.Coaching.Lookahead.{
  smoothed, changes, is_same_refl, is_same-≡, goes_on-other, goes_on-large,
}

rewrite_from-append :
    (done l : List PositionState) (s : PositionState)
    → rewrite_from (length done) s (done ++ l) ≡ done ++ rewrite_from 0 s l
unfolding rewrite_from
rewrite_from-append [] l s = refl
rewrite_from-append (t ∷ done) l s = ap (λ m. t ∷ m) (rewrite_from-append done l s)

-- a change to `s` is pending since the last ply, which is ply `n` + 1
abbrev waiting : PositionState → PositionState → ℕ → List (ℕ × ℕ) → List PositionState → Smoothing
waiting current s n ts done = record {
  current = current;
  confirmed = done ++ current ∷ [];
  transition_confirmed_ply = ts;
  pending_state = some s;
  pending_start_ply = some (n + 1);
  pending_count = 1;
}

-- what the loop ends with
abbrev Ends : Smoothing → ℕ → List PositionState → List PositionState → List (ℕ × ℕ) → Type 0
Ends s ply l c ts =
    ((observe_all s ply l).confirmed ≡ c) × ((observe_all s ply l).transition_confirmed_ply ≡ ts)

Ends-append :
    (s : Smoothing) (ply : ℕ) (l done c : List PositionState) (t : PositionState)
    (ts : List (ℕ × ℕ))
    → Ends s ply l ((done ++ t ∷ []) ++ c) ts
    → Ends s ply l (done ++ t ∷ c) ts
Ends-append s ply l done c t ts e = (e.0 ∙ append_assoc done (t ∷ []) c, e.1)

Ends-noted :
    (s : Smoothing) (ply : ℕ) (l done c : List PositionState) (t : PositionState)
    (ts us : List (ℕ × ℕ)) (u : ℕ × ℕ)
    → Ends s ply l ((done ++ t ∷ []) ++ c) ((ts ++ u ∷ []) ++ us)
    → Ends s ply l (done ++ t ∷ c) (ts ++ u ∷ us)
Ends-noted s ply l done c t ts us u e =
    (e.0 ∙ append_assoc done (t ∷ []) c, e.1 ∙ append_assoc ts (u ∷ []) us)

abbrev Settled : List PositionState → Type 0
Settled l =
    (current : PositionState) (ts : List (ℕ × ℕ)) (done : List PositionState) (n : ℕ)
    → n ≡ length done
    → Ends (settle_on current ts done) (n + 1) l (done ++ smoothed current l)
        (ts ++ changes current (n + 1) l)

abbrev Waits : List PositionState → Type 0
Waits l =
    (current s : PositionState) (ts : List (ℕ × ℕ)) (done : List PositionState) (n : ℕ)
    → n ≡ length done
    → is_same s current ≡ false
    → is_immediate current s ≡ false
    → Ends (waiting current s n ts done) (n + 1 + 1) l (done ++ smoothed current (s ∷ l))
        (ts ++ changes current (n + 1) (s ∷ l))

length_next :
    (done : List PositionState) (s : PositionState) (n : ℕ)
    → n ≡ length done
    → n + 1 ≡ length (done ++ s ∷ [])
length_next done s n h = omega (arith, h, length-append done (s ∷ []))

observe-same :
    (s : Smoothing) (ply : ℕ) (o : PositionState)
    → is_same o s.current ≡ true
    → observe s ply o
      ≡ settle_on s.current s.transition_confirmed_ply (s.confirmed ++ s.current ∷ [])
unfolding observe
observe-same s ply o h = rw h refl

observe-immediate :
    (s : Smoothing) (ply : ℕ) (o : PositionState)
    → is_same o s.current ≡ false
    → is_immediate s.current o ≡ true
    → observe s ply o
      ≡ settle_on o (s.transition_confirmed_ply ++ (ply, ply) ∷ []) (s.confirmed ++ o ∷ [])
unfolding observe
observe-immediate s ply o h k = rw (h, k) refl

-- the first ply of a small change
observe-first :
    (s : Smoothing) (ply : ℕ) (o : PositionState)
    → is_same o s.current ≡ false
    → is_immediate s.current o ≡ false
    → is_pending s.pending_state o ≡ false
    → observe s ply o ≡ count_pending s ply o (some ply) 1
unfolding observe
observe-first s ply o h k p = rw (h, k, p) refl

-- its second ply
observe-second :
    (s : Smoothing) (ply : ℕ) (o : PositionState)
    → is_same o s.current ≡ false
    → is_immediate s.current o ≡ false
    → is_pending s.pending_state o ≡ true
    → observe s ply o ≡ count_pending s ply o s.pending_start_ply (s.pending_count + 1)
unfolding observe
observe-second s ply o h k p = rw (h, k, p) refl

Ends-observe :
    (s t : Smoothing) (ply : ℕ) (o : PositionState) (l c : List PositionState) (ts : List (ℕ × ℕ))
    → observe s ply o ≡ t
    → Ends t (ply + 1) l c ts
    → Ends s ply (o ∷ l) c ts
unfolding observe_all
Ends-observe s t ply o l c ts e r = subst (λ x. Ends x (ply + 1) l c ts) (sym e) r

Settled-next : (s : PositionState) (l : List PositionState) → Settled l → Waits l → Settled (s ∷ l)
unfolding count_pending
Settled-next s l settled waits current ts done n h = elim (Bool-cases (is_same s current)) [
  | inl e ↦ rw e (
      Ends-observe _ _ (n + 1) s l _ _ (observe-same (settle_on current ts done) (n + 1) s e) (
        Ends-append _ _ l done _ current _
          (settled current ts (done ++ current ∷ []) (n + 1) (length_next done current n h))))
  | inr e ↦ elim (Bool-cases (is_immediate current s)) [
    | inl f ↦
        rw (e, f)
          (Ends-observe _ _ (n + 1) s l _ _
            (observe-immediate (settle_on current ts done) (n + 1) s e f)
            (Ends-noted _ _ l done _ s ts _ _ (
              settled s (ts ++ (n + 1, n + 1) ∷ []) (done ++ s ∷ []) (n + 1)
                (length_next done s n h))))
    | inr f ↦
        Ends-observe _ _ (n + 1) s l _ _
          (observe-first (settle_on current ts done) (n + 1) s e f refl)
          (waits current s ts done n h e f)
  ]
]

-- a pending change that does not last
-- a change that lasts is written over the ply that it began with
rewritten :
    (done : List PositionState) (current o : PositionState) (n : ℕ)
    → n ≡ length done
    → rewrite_from (n + 1 - 1) o ((done ++ current ∷ []) ++ current ∷ [])
      ≡ (done ++ o ∷ []) ++ o ∷ []
unfolding rewrite_from
rewritten done current o n h =
    ap (rewrite_from (n + 1 - 1) o) (append_assoc done (current ∷ []) (current ∷ []))
    ∙ ap (λ m. rewrite_from m o (done ++ current ∷ current ∷ [])) (omega (arith, h))
    ∙ rewrite_from-append done (current ∷ current ∷ []) o
    ∙ sym (append_assoc done (o ∷ []) (o ∷ []))

Waits-second :
    (o : PositionState) (l : List PositionState)
    → Settled l
    → (current : PositionState) (ts : List (ℕ × ℕ)) (done : List PositionState) (n : ℕ)
    → n ≡ length done
    → is_same o current ≡ false
    → is_immediate current o ≡ false
    → Ends
        (waiting current o n ts done)
        (n + 1 + 1)
        (o ∷ l)
        (done ++ smoothed current (o ∷ o ∷ l))
        (ts ++ changes current (n + 1) (o ∷ o ∷ l))
unfolding count_pending
Waits-second o l settled current ts done n h e f =
    let w = waiting current o n ts done in
    let twice = (done ++ o ∷ []) ++ o ∷ [] in
    let noted = ts ++ (n + 1, n + 1 + 1) ∷ [] in
    rw (e, f, is_same_refl o)
      (Ends-observe w (settle_on o noted twice) (n + 1 + 1) o l _ _
        (observe-second w (n + 1 + 1) o e f (is_same_refl o)
          ∙ ap (settle_on o noted) (rewritten done current o n h))
        (Ends-noted _ _ l done _ o ts _ _ (
          Ends-append _ _ l (done ++ o ∷ []) _ o _ (
            settled o noted twice (n + 1 + 1)
              (length_next (done ++ o ∷ []) o (n + 1) (length_next done o n h))))))

Waits-next : (o : PositionState) (l : List PositionState) → Settled l → Waits l → Waits (o ∷ l)
unfolding count_pending
Waits-next o l settled waits current s ts done n h a b =
    let w = waiting current s n ts done in
    let kept = done ++ current ∷ [] in
    let ply = n + 1 + 1 in
    let next = length_next done current n h in
    elim (Bool-cases (is_same o current)) [
      | inl e ↦
          rw (a, b, goes_on-other current s o a e, e)
            (Ends-observe _ _ ply o l _ _ (observe-same w ply o e) (
              Ends-append _ _ l done _ current _ (
                Ends-append _ _ l kept _ current _ (
                  settled current ts (kept ++ current ∷ []) ply
                    (length_next kept current (n + 1) next)))))
      | inr e ↦ elim (Bool-cases (is_immediate current o)) [
        | inl f ↦
            rw (a, b, goes_on-large current s o b f, e, f)
              (Ends-observe _ _ ply o l _ _ (observe-immediate w ply o e f) (
                Ends-append _ _ l done _ current _ (
                  Ends-noted _ _ l kept _ o ts _ _ (
                    settled o (ts ++ (ply, ply) ∷ []) (kept ++ o ∷ []) ply
                      (length_next kept o (n + 1) next)))))
        | inr f ↦ elim (Bool-cases (is_same s o)) [
          | inl g ↦
              subst
                (λ x.
                  Ends (waiting current x n ts done) ply (o ∷ l)
                    (done ++ smoothed current (x ∷ o ∷ l))
                    (ts ++ changes current (n + 1) (x ∷ o ∷ l)))
                (sym (is_same-≡ s o g)) (Waits-second o l settled current ts done n h e f)
          | inr g ↦
              rw (a, b, g)
                (Ends-observe _ _ ply o l _ _ (observe-first w ply o e f g)
                  (Ends-append _ _ l done _ current _ (waits current o ts kept (n + 1) next e f)))
        ]
      ]
    ]

follow : (l : List PositionState) → Settled l × Waits l
unfolding observe_all
follow [] = (
  λ current ts done n h. (sym (append-nil done), sym (append-nil ts)),
  λ current s ts done n h a b. rw (a, b) (refl, sym (append-nil ts)),
)
follow (s ∷ l) = let ih = follow l in (Settled-next s l ih.0 ih.1, Waits-next s l ih.0 ih.1)

-- The states of the plies behind the first one are what looking one ply ahead gives: a change of
-- state is taken over at once if it is of two bands or more or leads into a decisive state, and
-- else if the new state is observed on the next ply too; any other one is left out. The ply that
-- confirms each change is noted under the ply of the change: the same one, or the next one.
pub confirm_segment_states_lem :
    (first : PositionState) (l : List PositionState)
    → confirm_segment_states (first ∷ l) ≡ (first ∷ smoothed first l, changes first 2 l)
unfolding confirm_segment_states
confirm_segment_states_lem first l =
    let both = (follow l).0 first [] (first ∷ []) 1 refl in
    let last = observe_all (settle_on first [] (first ∷ [])) 2 l in
    ap (λ c. (c, last.transition_confirmed_ply)) both.0
    ∙ ap (λ t. (first ∷ smoothed first l, t)) both.1
