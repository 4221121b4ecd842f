-- ===== src/Analysis/Coaching.antt =====
-- mcp_server/analysis/game_coaching.py: the value of an evaluation for a player, the states of a
-- game that it is read as, and `_confirm_segment_states`, which holds back a change of state that
-- lasts one ply. The dictionary of the confirmed transitions is a list in the order of its keys.
pub mod Lookahead
pub mod Smoothed
pub mod Segments
pub mod Mirrored
use chessy_mcp.Prelude.{
  ℕ, zero, suc, ◌+◌, ◌-◌, ◌*◌, leb, ltb, ◌==◌, min, ℤ, pos, negsuc, pos_part, neg_part, lebℤ, ltbℤ,
  negate, ◌≡◌, refl, sym, ap, ◌∙◌, arith, String, Bool, true, false, not, ◌&&◌, ◌||◌, Option, none,
  some, List, [], ◌∷◌, ◌++◌, length, str_eq, if◌then◌else◌,
}

abbrev pub mate_value : ℕ
mate_value = 100000

-- what is read of `MCPEval`; `winner` is whether white has won
pub record McpEval : Type 0 where
  pub is_checkmate : Bool
  pub winner : Option Bool
  pub cp : Option ℤ
  pub mate : Option ℤ

abbrev pub is_zero : ℤ → Bool
is_zero z = pos_part z + neg_part z == 0

-- the score of a mate in `mate`, which is not zero
unfoldable pub mate_cp_of : ℤ → ℤ
unfolding negate
mate_cp_of mate =
    let size = pos (mate_value - min (pos_part mate + neg_part mate) (mate_value - 1)) in
    if ltbℤ (pos 0) mate then size else negate size

unfoldable pub white_effective_cp : McpEval → ℤ
unfolding mate_cp_of negate
white_effective_cp ev =
    let is_mated : Bool = elim ev.mate [
      | none ↦ ev.is_checkmate
      | some m ↦ ev.is_checkmate || is_zero m
    ] in
    if is_mated
    then elim ev.winner [
      | some white ↦ (if white then pos mate_value else negate (pos mate_value))
      | none ↦ elim ev.cp [
        | none ↦ pos mate_value
        | some cp ↦ (if ltbℤ cp (pos 0) then negate (pos mate_value) else pos mate_value)
      ]
    ]
    else elim ev.mate [ some m ↦ mate_cp_of m | none ↦ elim ev.cp [ none ↦ pos 0 | some cp ↦ cp ] ]

-- `perspective` is whether it is white's
unfoldable pub perspective_cp : McpEval → Bool → ℤ
unfolding white_effective_cp negate
perspective_cp ev perspective =
    if perspective then white_effective_cp ev else negate (white_effective_cp ev)

pub data PositionState : Type 0 where
  decisively_worse worse slightly_worse approximately_equal : PositionState
  slightly_better better decisively_better : PositionState

-- `STATE_ORDER`
abbrev pub state_order : PositionState → ℕ
state_order decisively_worse = 0
state_order worse = 1
state_order slightly_worse = 2
state_order approximately_equal = 3
state_order slightly_better = 4
state_order better = 5
state_order decisively_better = 6

unfoldable pub position_state : ℤ → PositionState
position_state value =
    if lebℤ (pos 350) value
    then decisively_better
    else if lebℤ (pos 150) value
    then better
    else if lebℤ (pos 60) value
    then slightly_better
    else if ltbℤ (negsuc 59) value
    then approximately_equal
    else if ltbℤ (negsuc 149) value
    then slightly_worse
    else if ltbℤ (negsuc 349) value
    then worse
    else decisively_worse

unfoldable pub is_same : PositionState → PositionState → Bool
is_same s t = state_order s == state_order t

abbrev pub is_decisive : PositionState → Bool
is_decisive s = state_order s == 0 || state_order s == 6

-- a change to `observed` that is accepted at once
unfoldable pub is_immediate : PositionState → PositionState → Bool
is_immediate current observed =
    leb 2
      (state_order observed - state_order current + (state_order current - state_order observed))
    || is_decisive observed

-- the variables of the loop
pub record Smoothing : Type 0 where
  pub current : PositionState
  pub confirmed : List PositionState
  pub transition_confirmed_ply : List (ℕ × ℕ)
  pub pending_state : Option PositionState
  pub pending_start_ply : Option ℕ
  pub pending_count : ℕ

-- `confirmed[rewrite] = current` from an index on
unfoldable pub rewrite_from : ℕ → PositionState → List PositionState → List PositionState
rewrite_from i s [] = []
rewrite_from zero s (t ∷ l) = s ∷ rewrite_from zero s l
rewrite_from (suc i) s (t ∷ l) = t ∷ rewrite_from i s l

-- no change is pending
abbrev pub settle_on : PositionState → List (ℕ × ℕ) → List PositionState → Smoothing
settle_on s transitions confirmed = record {
  current = s;
  confirmed = confirmed;
  transition_confirmed_ply = transitions;
  pending_state = none;
  pending_start_ply = none;
  pending_count = 0;
}

abbrev pub is_pending : Option PositionState → PositionState → Bool
is_pending none observed = false
is_pending (some s) observed = is_same s observed

-- the part of the loop behind the count of the plies that a change has lasted
unfoldable pub count_pending : Smoothing → ℕ → PositionState → Option ℕ → ℕ → Smoothing
count_pending s ply observed none count = record s {
  confirmed = s.confirmed ++ s.current ∷ [];
  pending_state = some observed;
  pending_start_ply = none;
  pending_count = count;
}
count_pending s ply observed (some start) count =
    if ltb count 2
    then record s {
      confirmed = s.confirmed ++ s.current ∷ [];
      pending_state = some observed;
      pending_start_ply = some start;
      pending_count = count;
    }
    else settle_on observed (s.transition_confirmed_ply ++ (start, ply) ∷ [])
        (rewrite_from (start - 1) observed (s.confirmed ++ s.current ∷ []))

-- one round of the loop
unfoldable pub observe : Smoothing → ℕ → PositionState → Smoothing
observe s ply observed =
    if is_same observed s.current
    then settle_on s.current s.transition_confirmed_ply (s.confirmed ++ s.current ∷ [])
    else if is_immediate s.current observed
    then settle_on observed (s.transition_confirmed_ply ++ (ply, ply) ∷ [])
        (s.confirmed ++ observed ∷ [])
    else if is_pending s.pending_state observed
    then count_pending s ply observed s.pending_start_ply (s.pending_count + 1)
    else count_pending s ply observed (some ply) 1

unfoldable pub observe_all : Smoothing → ℕ → List PositionState → Smoothing
observe_all s ply [] = s
observe_all s ply (observed ∷ l) = observe_all (observe s ply observed) (ply + 1) l

unfoldable pub confirm_segment_states : List PositionState → List PositionState × List (ℕ × ℕ)
confirm_segment_states [] = ([], [])
confirm_segment_states (first ∷ l) =
    let last = observe_all (settle_on first [] (first ∷ [])) 2 l in
    (last.confirmed, last.transition_confirmed_ply)

unfoldable pub forensic_verification_depth : ℕ → ℕ
forensic_verification_depth scan_depth =
    if ltb scan_depth 14
    then min (scan_depth + 4) 14
    else if leb scan_depth 18
    then 22
    else if leb scan_depth 20
    then 24
    else min (scan_depth + 2) 26
