-- ===== src/Analysis/PracticalEquivalence/Verdict.antt =====
-- When mcp_server/analysis/practical_equivalence.py calls a move practically equivalent.
use chessy_mcp.Prelude.{
  ℤ, pos, lebℤ, ◌≡◌, ◌↔◌, ◌⊎◌, Bool, true, false, not, ◌&&◌, ◌||◌, Option, none, some, arith,
}
use chessy_mcp.Analysis.PracticalEquivalence.{MoveAnalysis}
use chessy_mcp.Analysis.PracticalEquivalence.Judge.{
  Grounds, Status, equivalent, not_equivalent, indeterminate, negligible, high, judge, is_true,
  coach_priority, build_practical_equivalence_evidence, grounds_of,
}

-- the loss is small: by win, draw and loss if they are known, else by centipawns
abbrev pub is_small : Option ℤ → Option ℤ → Bool
is_small (some points) loss = lebℤ points (pos 2000)
is_small none (some cp) = lebℤ cp (pos 30)
is_small none none = false

-- what the code's documentation asks of an equivalent move
abbrev pub is_harmless : Grounds → Bool
is_harmless g =
    g.is_move
    && g.same_outcome
    && not g.mate_deterioration
    && not g.tactical_punishment
    && (g.is_best || is_small g.wdl_loss g.effective_loss)

-- the outcome changed, the mate status got worse, or a punishment is known
abbrev pub is_dangerous : Grounds → Bool
is_dangerous g = g.mate_deterioration || not g.same_outcome || g.tactical_punishment

judge-true : (g : Grounds) → is_true (judge g).practical_equivalent ≡ is_harmless g
unfolding judge
judge-true g = ground arith

abbrev pub status_of : Option Bool → Status
status_of none = indeterminate
status_of (some true) = equivalent
status_of (some false) = not_equivalent

judge-status : (g : Grounds) → (judge g).status ≡ status_of (judge g).practical_equivalent
unfolding judge
judge-status g = ground arith

coach_priority_lem :
    (g : Grounds)
    → (coach_priority g (judge g).practical_equivalent ≡ negligible) ↔ (is_harmless g ≡ true)
unfolding coach_priority
coach_priority_lem g = ground (arith, judge-true g)

coach_priority-high :
    (g : Grounds)
    → (is_dangerous g ≡ false) ⊎ (coach_priority g (judge g).practical_equivalent ≡ high)
unfolding coach_priority
coach_priority-high g = ground (arith, judge-true g)

-- A move is called practically equivalent just if it is a move to play that keeps the outcome of
-- the rules, raises no new mate flag of the opponent (as `semantic_mate_state` reads the scores) and
-- no punishment flag, and is the engine's best or loses little. The status says the same, the
-- coach's priority is negligible just for such a move, and it is high wherever one of the flags is
-- raised or the outcome changed.
pub build_practical_equivalence_evidence_lem :
    (r : MoveAnalysis) (mover : Bool)
    → let p = build_practical_equivalence_evidence r mover in
      (is_true p.verdict.practical_equivalent ≡ is_harmless (grounds_of r mover))
      × (p.verdict.status ≡ status_of p.verdict.practical_equivalent)
      × ((p.priority ≡ negligible) ↔ (is_harmless (grounds_of r mover) ≡ true))
      × ((is_dangerous (grounds_of r mover) ≡ false) ⊎ (p.priority ≡ high))
unfolding build_practical_equivalence_evidence
build_practical_equivalence_evidence_lem r mover =
    let g = grounds_of r mover in
    (judge-true g, judge-status g, coach_priority_lem g, coach_priority-high g)
