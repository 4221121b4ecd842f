-- ===== src/Tests/Coaching.antt =====
-- Runs of mcp_server/analysis/game_coaching.py on short games, and instances of the theorems.
use chessy_mcp.Prelude.{
  ℕ, ℤ, maxℤ, ◌≡◌, refl, pos, negsuc, true, false, none, some, List, [], ◌∷◌, map, length, ◌+◌,
}
use chessy_mcp.Analysis.Coaching.{
  McpEval, PositionState, approximately_equal, slightly_better, better, decisively_better,
  position_state, perspective_cp, is_same, is_immediate, count_pending, rewrite_from, observe,
  observe_all, confirm_segment_states, forensic_verification_depth,
}
use chessy_mcp.Analysis.Coaching.Lookahead.{smoothed, changes}
use chessy_mcp.Analysis.Coaching.Smoothed.{confirm_segment_states_lem}
use chessy_mcp.Analysis.Coaching.Segments.{
  GameSegment, build_segments, segments_of, segments_from, segment,
}
use chessy_mcp.Analysis.Coaching.Segments.Covered.{
  states_of, state_for, AreConsecutive, build_segments_lem,
}
use chessy_mcp.Analysis.Coaching.Mirrored.{mirrored, build_segments-mirrored}

abbrev states : List PositionState
states =
    slightly_better ∷ approximately_equal ∷ slightly_better ∷ slightly_better ∷ better
    ∷ decisively_better ∷ []

-- the first change lasts a ply, the second one lasts, and the last one is decisive
flicker : confirm_segment_states (approximately_equal ∷ states) ≡ (
  approximately_equal ∷ approximately_equal ∷ approximately_equal ∷ slightly_better
      ∷ slightly_better ∷ slightly_better ∷ decisively_better ∷ [],
  (4, 5) ∷ (7, 7) ∷ [],
)
unfolding confirm_segment_states observe_all observe is_same is_immediate count_pending rewrite_from
flicker = refl

confirm_segment_states_lem_example : confirm_segment_states (approximately_equal ∷ states) ≡ (
  approximately_equal ∷ smoothed approximately_equal states,
  changes approximately_equal 2 states,
)
confirm_segment_states_lem_example = confirm_segment_states_lem approximately_equal states

abbrev worth : ℤ → McpEval
worth z = record { is_checkmate = false; winner = none; cp = some z; mate = none }

abbrev mates : McpEval
mates = record { is_checkmate = false; winner = none; cp = none; mate = some (pos 3) }

abbrev behind : List McpEval
behind = worth (pos 70) ∷ worth (negsuc 10) ∷ mates ∷ mates ∷ []

abbrev bounds_of : GameSegment → ℕ × ℕ
bounds_of g = (g.start_ply, g.end_ply)

abbrev peak_of : GameSegment → ℤ
peak_of g = g.eval_peak_effective_cp

two_phases :
    map bounds_of (build_segments (worth (pos 20) ∷ worth (pos 30) ∷ behind) true)
    ≡ (1, 3) ∷ (4, 5) ∷ []
unfolding build_segments segments_of segments_from segment perspective_cp position_state
    confirm_segment_states observe_all observe is_same is_immediate count_pending rewrite_from
two_phases = refl

-- the peak of a phase with a mate in three
peaks :
    map peak_of (build_segments (worth (pos 20) ∷ worth (pos 30) ∷ behind) true)
    ≡ pos 70 ∷ pos 99997 ∷ []
unfolding build_segments segments_of segments_from segment perspective_cp position_state maxℤ
    confirm_segment_states observe_all observe is_same is_immediate count_pending rewrite_from
peaks = refl

build_segments_lem_example :
    (states_of (build_segments (worth (pos 20) ∷ worth (pos 30) ∷ behind) true)
      ≡ state_for true (worth (pos 30))
        ∷ smoothed (state_for true (worth (pos 30))) (map (state_for true) behind))
    × AreConsecutive none 1
        (length behind + 1)
        (build_segments (worth (pos 20) ∷ worth (pos 30) ∷ behind) true)
build_segments_lem_example = build_segments_lem (worth (pos 20)) (worth (pos 30)) behind true

build_segments-mirrored_example :
    states_of (build_segments behind false) ≡ map mirrored (states_of (build_segments behind true))
build_segments-mirrored_example = build_segments-mirrored behind

-- a deeper scan is verified less deeply
depth_20 : forensic_verification_depth 20 ≡ 24
unfolding forensic_verification_depth
depth_20 = refl

depth_21 : forensic_verification_depth 21 ≡ 23
unfolding forensic_verification_depth
depth_21 = refl
