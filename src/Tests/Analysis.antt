-- ===== src/Tests/Analysis.antt =====
-- Runs of mcp_server/analysis on small inputs, and instances of its theorems.
use chessy_mcp.Prelude.{pos, ◌≡◌, refl, ◌↔◌, ◌⊎◌, true, false, none, some, [], ◌∷◌}
use chessy_mcp.Rules.ActionChoice.{play_move}
use chessy_mcp.Contracts.MateState.{Snapshot}
use chessy_mcp.Analysis.PracticalEquivalence.{MoveAnalysis, whole, flag}
use chessy_mcp.Analysis.PracticalEquivalence.Judge.{
  equivalent, negligible, high, is_true, judgement, grounds_of,
  build_practical_equivalence_evidence,
}
use chessy_mcp.Analysis.PracticalEquivalence.Verdict.{
  is_harmless, is_dangerous, status_of, build_practical_equivalence_evidence_lem,
}

abbrev quiet : Snapshot
quiet = record { status = "active"; winner = none; cp = some (pos 20); mate = none }

-- white's move keeps half of the points but for a percentage point
abbrev small_loss : MoveAnalysis
small_loss = record {
  action_type = play_move;
  same_outcome = true;
  is_best_engine_move = false;
  is_engine_best = false;
  effective_loss = some (pos 12);
  centipawn_loss = some (pos 12);
  move_class = "good";
  eval_before = record {
    snapshot = quiet;
    turn = some true;
    wdl = some (record { wins = 100; draws = 800; losses = 100 });
    best_move = none;
    pv = [];
  };
  eval_after = record {
    snapshot = quiet;
    turn = some false;
    wdl = some (record { wins = 90; draws = 800; losses = 110 });
    best_move = none;
    pv = [];
  };
  forensics = none;
}

is_equivalent :
    (build_practical_equivalence_evidence small_loss true).verdict
    ≡ judgement equivalent (some true) "WDL_LOSS_WITHIN_EQUIVALENCE_BAND"
unfolding build_practical_equivalence_evidence
is_equivalent = refl

-- the same move, with a mate in one behind it
abbrev punished : MoveAnalysis
punished = record small_loss {
  forensics = some (record {
    detail = "coach";
    stability =
        ("verification_performed", flag true) ∷ ("verified_effective_loss", whole (pos 12)) ∷ [];
    evidence_signatures = "OPPONENT_MATE_IN_ONE_AFTER_MOVE" ∷ [];
    strongest_reply = some true;
  });
}

is_punished : (build_practical_equivalence_evidence punished true).priority ≡ high
unfolding build_practical_equivalence_evidence
is_punished = refl

judged_run :
    let p = build_practical_equivalence_evidence punished true in
    (is_true p.verdict.practical_equivalent ≡ is_harmless (grounds_of punished true))
    × (p.verdict.status ≡ status_of p.verdict.practical_equivalent)
    × ((p.priority ≡ negligible) ↔ (is_harmless (grounds_of punished true) ≡ true))
    × ((is_dangerous (grounds_of punished true) ≡ false) ⊎ (p.priority ≡ high))
judged_run = build_practical_equivalence_evidence_lem punished true
