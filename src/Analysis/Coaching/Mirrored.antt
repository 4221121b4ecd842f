-- ===== src/Analysis/Coaching/Mirrored.antt =====
-- The two players' views of a game in mcp_server/analysis/game_coaching.py.
use chessy_mcp.Prelude.{
  ◌-◌, ◌≤◌, sym, ◌≡◌, refl, arith, ap, ◌∙◌, ℤ, pos, negsuc, negate, true, false, List, [], ◌∷◌, map,
  Bool-cases, inl, inr,
}
use chessy_mcp.Analysis.Coaching.{
  McpEval, perspective_cp, PositionState, decisively_worse, worse, slightly_worse,
  approximately_equal, slightly_better, better, decisively_better, position_state, state_order,
  confirm_segment_states, is_same, is_immediate, white_effective_cp,
}
use chessy_mcp.Analysis.Coaching.Segments.{segments_of, build_segments}
use chessy_mcp.Analysis.Coaching.Segments.Covered.{states_of, state_for, build_segments_lem}
use chessy_mcp.Analysis.Coaching.Lookahead.{smoothed, takes_over, goes_on}

abbrev pub mirrored : PositionState → PositionState
mirrored decisively_worse = decisively_better
mirrored worse = better
mirrored slightly_worse = slightly_better
mirrored approximately_equal = approximately_equal
mirrored slightly_better = slightly_worse
mirrored better = worse
mirrored decisively_better = decisively_worse

position_state-negate : (z : ℤ) → position_state (negate z) ≡ mirrored (position_state z)
unfolding position_state negate
position_state-negate (pos n) = ground arith
position_state-negate (negsuc n) = ground arith

state_order-mirrored : (s : PositionState) → state_order (mirrored s) ≡ 6 - state_order s
state_order-mirrored decisively_worse = refl
state_order-mirrored worse = refl
state_order-mirrored slightly_worse = refl
state_order-mirrored approximately_equal = refl
state_order-mirrored slightly_better = refl
state_order-mirrored better = refl
state_order-mirrored decisively_better = refl

state_order_le : (s : PositionState) → state_order s ≤ 6
state_order_le s = ground arith

is_same-mirrored : (s t : PositionState) → is_same (mirrored s) (mirrored t) ≡ is_same s t
unfolding is_same
is_same-mirrored s t =
    rw (state_order-mirrored s, state_order-mirrored t)
      (ground (arith, state_order_le s, state_order_le t))

is_immediate-mirrored :
    (s t : PositionState) → is_immediate (mirrored s) (mirrored t) ≡ is_immediate s t
unfolding is_immediate
is_immediate-mirrored s t =
    rw (state_order-mirrored s, state_order-mirrored t)
      (ground (arith, state_order_le s, state_order_le t))

goes_on-mirrored :
    (s : PositionState) (l : List PositionState)
    → goes_on (mirrored s) (map mirrored l) ≡ goes_on s l
goes_on-mirrored s [] = refl
goes_on-mirrored s (t ∷ l) = is_same-mirrored s t

smoothed-mirrored :
    (current : PositionState) (l : List PositionState)
    → smoothed (mirrored current) (map mirrored l) ≡ map mirrored (smoothed current l)
smoothed-mirrored current [] = refl
smoothed-mirrored current (s ∷ l) =
    rw (is_same-mirrored s current, is_immediate-mirrored current s, goes_on-mirrored s l)
      (elim (Bool-cases (takes_over current s l)) [
        | inl h ↦ rw h (ap (λ m. mirrored s ∷ m) (smoothed-mirrored s l))
        | inr h ↦ rw h (ap (λ m. mirrored current ∷ m) (smoothed-mirrored current l))
      ])

state_for-mirrored : (e : McpEval) → state_for false e ≡ mirrored (state_for true e)
unfolding perspective_cp
state_for-mirrored e = position_state-negate (white_effective_cp e)

states_for-mirrored :
    (l : List McpEval) → map (state_for false) l ≡ map mirrored (map (state_for true) l)
states_for-mirrored [] = refl
states_for-mirrored (e ∷ l) =
    rw (state_for-mirrored e) (ap (λ m. mirrored (state_for true e) ∷ m) (states_for-mirrored l))

-- Ply by ply, the segments that black is shown have the mirrored states of those that white is shown.
pub build_segments-mirrored :
    (l : List McpEval)
    → states_of (build_segments l false) ≡ map mirrored (states_of (build_segments l true))
unfolding build_segments segments_of confirm_segment_states
build_segments-mirrored [] = refl
build_segments-mirrored (e ∷ []) = refl
build_segments-mirrored (e ∷ f ∷ l) =
    let first = state_for true f in
    (build_segments_lem e f l false).0
    ∙ ap (λ s. s ∷ smoothed s (map (state_for false) l)) (state_for-mirrored f)
    ∙ ap (λ m. mirrored first ∷ smoothed (mirrored first) m) (states_for-mirrored l)
    ∙ ap (λ m. mirrored first ∷ m) (smoothed-mirrored first (map (state_for true) l))
    ∙ ap (map mirrored) (sym (build_segments_lem e f l true).0)
