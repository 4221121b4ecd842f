-- ===== src/Analysis/Coaching/Segments/Covered.antt =====
-- The segments that `_build_segments` of mcp_server/analysis/game_coaching.py cuts a game into.
use chessy_mcp.Prelude.{
  ℕ, zero, suc, ◌+◌, ◌-◌, ◌≤◌, ◌<◌, ◌≡◌, refl, sym, ap, ◌∙◌, subst, arith, ℤ, Bool, true, not,
  Bool-cases, Option, none, some, inl, inr, List, [], ◌∷◌, ◌++◌, map, length,
}
use chessy_mcp.Analysis.Coaching.{
  McpEval, perspective_cp, PositionState, position_state, is_same, confirm_segment_states,
}
use chessy_mcp.Analysis.Coaching.Lookahead.{smoothed, changes, is_same-≡, length-smoothed}
use chessy_mcp.Analysis.Coaching.Smoothed.{confirm_segment_states_lem}
use chessy_mcp.Analysis.Coaching.Segments.{
  GameSegment, segment, segments_from, segments_of, build_segments,
}

abbrev pub times : ℕ → PositionState → List PositionState
times zero s = []
times (suc n) s = s ∷ times n s

-- the state of every ply of the segments
abbrev pub states_of : List GameSegment → List PositionState
states_of [] = []
states_of (g ∷ l) = times (g.end_ply + 1 - g.start_ply) g.state ++ states_of l

-- a state that is not the one before it
abbrev pub is_new : Option PositionState → PositionState → Bool
is_new none s = true
is_new (some t) s = not (is_same s t)

-- the segments follow one another from ply `ply` to ply `last`, each with a state that is not the
-- one before it
abbrev pub AreConsecutive : Option PositionState → ℕ → ℕ → List GameSegment → Type 0
AreConsecutive before ply last [] = ply ≡ last + 1
AreConsecutive before ply last (g ∷ l) =
    (g.start_ply ≡ ply)
    × (ply ≤ g.end_ply)
    × (is_new before g.state ≡ true)
    × AreConsecutive (some g.state) (g.end_ply + 1) last l

times-next :
    (k : ℕ) (s : PositionState) (l : List PositionState) → times (suc k) s ++ l ≡ times k s ++ s ∷ l
times-next zero s l = refl
times-next (suc k) s l = ap (λ m. s ∷ m) (times-next k s l)

module _ (values : List ℤ) (raw : List PositionState) (transitions : List (ℕ × ℕ)) where
  abbrev cut : ℕ → PositionState → ℕ → List PositionState → List GameSegment
  cut = segments_from values raw transitions

  states_of-cut :
      (start ply k : ℕ) (current : PositionState) (l : List PositionState)
      → ply ≡ start + k
      → 0 < k
      → states_of (cut start current ply l) ≡ times k current ++ l
  unfolding segments_from segment
  states_of-cut start ply k current [] h p = ap (λ m. times m current ++ []) (omega (arith, h, p))
  states_of-cut start ply k current (s ∷ l) h p = elim (Bool-cases (is_same s current)) [
    | inl e ↦ rw e (
        states_of-cut start (ply + 1) (suc k) current l (omega (arith, h)) (omega arith)
        ∙ times-next k current l
        ∙ ap (λ t. times k current ++ t ∷ l) (sym (is_same-≡ s current e)))
    | inr e ↦ rw e (
        ap (λ m. times m current ++ states_of (cut ply s (ply + 1) l)) {x = ply - 1 + 1 - start}
          {y = k} (omega (arith, h, p))
        ∙ ap (λ m. times k current ++ m)
            (states_of-cut ply (ply + 1) 1 s l (omega arith) (omega arith)))
  ]

  cut-AreConsecutive :
      (before : Option PositionState) (start ply at last : ℕ) (current : PositionState)
      (l : List PositionState)
      → start ≡ at
      → start < ply
      → last + 1 ≡ ply + length l
      → is_new before current ≡ true
      → AreConsecutive before at last (cut start current ply l)
  unfolding segments_from segment
  cut-AreConsecutive before start ply at last current [] h p e n =
      (h, omega (arith, h, p), n, omega (arith, e, p))
  cut-AreConsecutive before start ply at last current (s ∷ l) h p e n =
      elim (Bool-cases (is_same s current)) [
        | inl f ↦ rw f (
            cut-AreConsecutive before start (ply + 1) at last current l h (omega (arith, p))
              (omega (arith, e)) n)
        | inr f ↦ rw f (
          h,
          omega (arith, h, p),
          n,
          cut-AreConsecutive (some current) ply (ply + 1) (ply - 1 + 1) last s l (omega (arith, p))
              (omega arith) (omega (arith, e)) (ap not f),
        )
      ]

-- what a player makes of an evaluation
abbrev pub state_for : Bool → McpEval → PositionState
state_for perspective ev = position_state (perspective_cp ev perspective)

map-twice :
    (perspective : Bool) (l : List McpEval)
    → map position_state (map (λ ev. perspective_cp ev perspective) l)
      ≡ map (state_for perspective) l
map-twice perspective [] = refl
map-twice perspective (e ∷ l) = ap (λ m. state_for perspective e ∷ m) (map-twice perspective l)

length-map-state_for :
    (perspective : Bool) (l : List McpEval) → length (map (state_for perspective) l) ≡ length l
length-map-state_for perspective [] = refl
length-map-state_for perspective (e ∷ l) = ap (λ n. suc n) (length-map-state_for perspective l)

-- what is said of the segments
abbrev IsCovered : PositionState → List PositionState → ℕ → List GameSegment → Type 0
IsCovered first rest n l =
    (states_of l ≡ first ∷ smoothed first rest) × AreConsecutive none 1 (n + 1) l

segments_of-IsCovered :
    (values : List ℤ) (first : PositionState) (rest : List PositionState) (n : ℕ)
    → length rest ≡ n
    → IsCovered first rest n
        (segments_of values (first ∷ rest) (confirm_segment_states (first ∷ rest)))
unfolding segments_of
segments_of-IsCovered values first rest n h =
    let ts = changes first 2 rest in
    let l = smoothed first rest in
    rw (confirm_segment_states_lem first rest) (
      states_of-cut values (first ∷ rest) ts 1 2 1 first l (omega arith) (omega arith),
      cut-AreConsecutive values (first ∷ rest) ts none 1 2 1 (n + 1) first l refl (omega arith)
          (omega (arith, h, length-smoothed first rest)) refl,
    )

-- The segments of a game with a move are those of the smoothed states: put together ply by ply, their
-- states are the first one and what `smoothed` makes of the others. They follow one another from
-- ply 1 to the last one, none is empty, and no two neighbours have the same state.
pub build_segments_lem :
    (e f : McpEval) (l : List McpEval) (perspective : Bool)
    → (states_of (build_segments (e ∷ f ∷ l) perspective)
        ≡ state_for perspective f
          ∷ smoothed (state_for perspective f) (map (state_for perspective) l))
      × AreConsecutive none 1 (length l + 1) (build_segments (e ∷ f ∷ l) perspective)
unfolding build_segments
build_segments_lem e f l perspective =
    let first = state_for perspective f in
    let values = map (λ ev. perspective_cp ev perspective) (e ∷ f ∷ l) in
    subst
      (λ raw.
        IsCovered first (map (state_for perspective) l) (length l)
          (segments_of values (first ∷ raw) (confirm_segment_states (first ∷ raw))))
      (sym (map-twice perspective l))
      (segments_of-IsCovered values first (map (state_for perspective) l) (length l)
        (length-map-state_for perspective l))
