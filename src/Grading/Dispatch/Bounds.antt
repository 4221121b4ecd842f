-- ===== src/Grading/Dispatch/Bounds.antt =====
-- How much a score of mcp_server/analysis/move_grading can say was lost.
use chessy_mcp.Prelude.{pos_part, ◌-ℤ◌, ℕ, ◌≤◌, ℤ, ◌≡◌, Option, arith}
use chessy_mcp.Chess.{Chess}
use chessy_mcp.Rules.ActionChoice.{Action}
use chessy_mcp.Rules.Status.{RuleStatus}
use chessy_mcp.Grading.Score.{PlayedMoveScore, best, finalize_score}
use chessy_mcp.Grading.Standard.{grade_cp}
use chessy_mcp.Grading.Dispatch.All.{All}

-- at most ten pawns, and the whole win probability
abbrev pub IsBounded : PlayedMoveScore → Type 0
IsBounded s = (s.effective_loss ≤ 1000) × (s.win_loss ≤ 100000)

abbrev AllBounded : Option PlayedMoveScore → Type 0
AllBounded = All IsBounded

module _ (best : Action) (rule : RuleStatus) (action : Action) where
  -- a projection through the tests of `finalize_score`
  finalize_score-effective :
      (s : PlayedMoveScore)
      → ((finalize_score best rule action s).effective_loss ≡ s.effective_loss)
        × ((finalize_score best rule action s).win_loss ≡ s.win_loss)
  unfolding finalize_score
  finalize_score-effective s = ground arith

  final-IsBounded :
      (s : PlayedMoveScore) → IsBounded s → IsBounded (finalize_score best rule action s)
  final-IsBounded s h = ground (arith, finalize_score-effective s, h)

-- A move that is not the engine's best is never graded best, and no more is shown as lost than was.
pub grade_cp_lem :
    (win_pct : ℤ → ℕ) (b a : ℤ)
    → (¬ ((grade_cp win_pct b a).0 ≡ best)) × ((grade_cp win_pct b a).1 ≤ pos_part (b -ℤ a))
unfolding grade_cp
grade_cp_lem win_pct b a = (λ e. ground arith, ground arith)
