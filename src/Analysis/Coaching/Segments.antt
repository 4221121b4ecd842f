-- ===== src/Analysis/Coaching/Segments.antt =====
-- `_segment_stability` and `_build_segments` of mcp_server/analysis/game_coaching.py: the phases of a
-- game. The perspective that every segment repeats is left out.
pub mod Covered
use chessy_mcp.Prelude.{
  ℕ, zero, suc, ◌+◌, ◌-◌, ◌*◌, leb, ltb, ◌==◌, ℤ, pos, minℤ, maxℤ, Bool, true, false, not, ◌&&◌,
  Option, none, some, List, [], ◌∷◌, map, length, take, drop, if◌then◌else◌,
}
use chessy_mcp.Analysis.Coaching.{
  McpEval, perspective_cp, PositionState, position_state, is_same, confirm_segment_states,
}

pub data SegmentStability : Type 0 where
  high medium low : SegmentStability

-- the number of states that differ from the one before them
abbrev pub raw_changes : List PositionState → ℕ
raw_changes [] = 0
raw_changes (s ∷ []) = 0
raw_changes (s ∷ t ∷ l) = let rest = raw_changes (t ∷ l) in if is_same s t then rest else rest + 1

abbrev pub matching : PositionState → List PositionState → ℕ
matching state [] = 0
matching state (s ∷ l) = let rest = matching state l in if is_same s state then rest + 1 else rest

-- the shares 0.8 and 0.6 of the states, without a division
unfoldable pub segment_stability : List PositionState → PositionState → SegmentStability × ℕ
segment_stability [] confirmed = (high, 0)
segment_stability (s ∷ l) confirmed =
    let changes = raw_changes (s ∷ l) in
    let share = 5 * matching confirmed (s ∷ l) in
    if leb (4 * length (s ∷ l)) share && leb changes 1
    then (high, changes)
    else if leb (3 * length (s ∷ l)) share
    then (medium, changes)
    else (low, changes)

pub record GameSegment : Type 0 where
  pub start_ply : ℕ
  pub end_ply : ℕ
  pub state : PositionState
  pub eval_start_effective_cp : ℤ
  pub eval_end_effective_cp : ℤ
  pub eval_peak_effective_cp : ℤ
  pub eval_trough_effective_cp : ℤ
  pub transition_cause_ply : Option ℕ
  pub transition_confirmed_ply : Option ℕ
  pub stability : SegmentStability
  pub raw_state_change_count : ℕ

-- `values[i]`; the indices are in range
abbrev pub value_at : ℕ → List ℤ → ℤ
value_at i [] = pos 0
value_at zero (v ∷ l) = v
value_at (suc i) (v ∷ l) = value_at i l

-- `max` and `min` of a list that is not empty
abbrev pub extreme : (ℤ → ℤ → ℤ) → List ℤ → ℤ
extreme f [] = pos 0
extreme f (v ∷ []) = v
extreme f (v ∷ w ∷ l) = f v (extreme f (w ∷ l))

-- `transition_confirmed.get(start)`
abbrev pub confirmed_at : ℕ → List (ℕ × ℕ) → Option ℕ
confirmed_at start [] = none
confirmed_at start ((ply, by) ∷ l) =
    let rest = confirmed_at start l in if ply == start then some by else rest

module _ (values : List ℤ) (raw : List PositionState) (transitions : List (ℕ × ℕ)) where
  unfoldable pub segment : ℕ → ℕ → PositionState → GameSegment
  segment start end state =
      let stable = segment_stability (take (end + 1 - start) (drop (start - 1) raw)) state in
      let segment_values = take (end + 1 - start) (drop start values) in
      record {
        start_ply = start;
        end_ply = end;
        state = state;
        eval_start_effective_cp = value_at start values;
        eval_end_effective_cp = value_at end values;
        eval_peak_effective_cp = extreme maxℤ segment_values;
        eval_trough_effective_cp = extreme minℤ segment_values;
        transition_cause_ply = if ltb 1 start then some start else none;
        transition_confirmed_ply = if ltb 1 start then confirmed_at start transitions else none;
        stability = stable.0;
        raw_state_change_count = stable.1;
      }

  -- the loop from ply `ply` on, and the last segment
  unfoldable pub segments_from : ℕ → PositionState → ℕ → List PositionState → List GameSegment
  segments_from start current ply [] = segment start (ply - 1) current ∷ []
  segments_from start current ply (s ∷ l) =
      let same = segments_from start current (ply + 1) l in
      let other = segments_from ply s (ply + 1) l in
      if is_same s current then same else segment start (ply - 1) current ∷ other

-- the segments of the values of a game, read as the states `raw`
unfoldable pub segments_of :
    List ℤ → List PositionState → List PositionState × List (ℕ × ℕ) → List GameSegment
segments_of values raw ([], transitions) = []
segments_of values raw (first ∷ rest, transitions) =
    segments_from values raw transitions 1 first 2 rest

unfoldable pub build_segments : List McpEval → Bool → List GameSegment
unfolding segments_of
build_segments [] perspective = []
build_segments (e ∷ l) perspective =
    let values = map (λ ev. perspective_cp ev perspective) (e ∷ l) in
    let raw = map position_state (drop 1 values) in
    segments_of values raw (confirm_segment_states raw)
