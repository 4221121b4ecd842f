-- ===== src/Analysis/Coaching/Lookahead.antt =====
-- The states of a game in mcp_server/analysis/game_coaching.py, smoothed by looking one ply ahead: what
-- `_confirm_segment_states`, which looks back, is compared with.
use chessy_mcp.Prelude.{
  ℕ, suc, ◌+◌, ◌==◌, ◌≡◌, not, ◌&&◌, ◌||◌, refl, sym, ap, ◌∙◌, arith, Bool, true, false, List, [],
  ◌∷◌, if◌then◌else◌, length, Bool-cases, inl, inr,
}
use chessy_mcp.Analysis.Coaching.{
  PositionState, decisively_worse, worse, slightly_worse, approximately_equal, slightly_better,
  better, decisively_better, state_order, is_same, is_immediate,
}

-- the state goes on for a ply
abbrev pub goes_on : PositionState → List PositionState → Bool
goes_on s [] = false
goes_on s (t ∷ l) = is_same s t

-- a change is taken over if it is a large one or if the state that it leads to lasts two plies
abbrev pub takes_over : PositionState → PositionState → List PositionState → Bool
takes_over current s l = not (is_same s current) && (is_immediate current s || goes_on s l)

abbrev pub smoothed : PositionState → List PositionState → List PositionState
smoothed current [] = []
smoothed current (s ∷ l) =
    let changed = smoothed s l in
    let kept = smoothed current l in if takes_over current s l then s ∷ changed else current ∷ kept

-- each change with the ply that confirms it
abbrev pub changes : PositionState → ℕ → List PositionState → List (ℕ × ℕ)
changes current ply [] = []
changes current ply (s ∷ l) =
    let changed = changes s (ply + 1) l in
    let kept = changes current (ply + 1) l in
    if takes_over current s l
    then (ply, if is_immediate current s then ply else ply + 1) ∷ changed
    else kept

pub is_same_refl : (s : PositionState) → is_same s s ≡ true
unfolding is_same
is_same_refl s = ground arith

abbrev state_at : ℕ → PositionState
state_at n =
    if n == 0
    then decisively_worse
    else if n == 1
    then worse
    else if n == 2
    then slightly_worse
    else if n == 3
    then approximately_equal
    else if n == 4
    then slightly_better
    else if n == 5
    then better
    else decisively_better

state_at-state_order : (s : PositionState) → state_at (state_order s) ≡ s
state_at-state_order decisively_worse = refl
state_at-state_order worse = refl
state_at-state_order slightly_worse = refl
state_at-state_order approximately_equal = refl
state_at-state_order slightly_better = refl
state_at-state_order better = refl
state_at-state_order decisively_better = refl

same_order : (s t : PositionState) → is_same s t ≡ true → state_order s ≡ state_order t
unfolding is_same
same_order s t h = ground (arith, h)

pub is_same-≡ : (s t : PositionState) → is_same s t ≡ true → s ≡ t
is_same-≡ s t h =
    sym (state_at-state_order s) ∙ ap state_at (same_order s t h) ∙ state_at-state_order t

pub goes_on-other :
    (current s o : PositionState)
    → is_same s current ≡ false
    → is_same o current ≡ true
    → is_same s o ≡ false
unfolding is_same
goes_on-other current s o h k = ground (arith, h, k)

pub goes_on-large :
    (current s o : PositionState)
    → is_immediate current s ≡ false
    → is_immediate current o ≡ true
    → is_same s o ≡ false
unfolding is_same is_immediate
goes_on-large current s o h k = ground (arith, h, k)

pub length-smoothed :
    (s : PositionState) (l : List PositionState) → length (smoothed s l) ≡ length l
length-smoothed s [] = refl
length-smoothed s (t ∷ l) = elim (Bool-cases (takes_over s t l)) [
  | inl h ↦ rw h (ap (λ n. suc n) (length-smoothed t l))
  | inr h ↦ rw h (ap (λ n. suc n) (length-smoothed s l))
]
