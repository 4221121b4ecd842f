-- ===== src/Tests/Stability.antt =====
-- Runs of mcp_server/analysis/classification_stability.py on a move that loses half a pawn.
use chessy_mcp.Prelude.{
  ℕ, leb, pos, String, ◌≡◌, refl, Bool, true, false, Option, none, some, [], ◌∷◌, lookup, update,
  is_empty, if◌then◌else◌, ◌-ℤ◌, assign,
}
use chessy_mcp.Rules.ActionChoice.{Action, play_move}
use chessy_mcp.Contracts.MateState.{Snapshot}
use chessy_mcp.Analysis.PracticalEquivalence.{
  Value, Eval, Evidence, MoveAnalysis, text, whole, flag, selected_evidence,
}
use chessy_mcp.Analysis.Stability.{Score, disagreement_reasons, pv_prefix_stable}
use chessy_mcp.Analysis.Stability.Verify.{
  search_at, compared, entries_of, conclude, escalate, after_first, initial_entries,
  stability_of_move, verification_depth, verify_forensic_classification_stability,
}
use chessy_mcp.Analysis.Stability.Unanimous.{is_confirmed, stability_of_move-stable}
use chessy_mcp.Analysis.Stability.Selected.{evidence_at, deepest, selected_evidence-verify}
use chessy_mcp.Tests.Toy.{toy}

abbrev even : Snapshot
even = record { status = "active"; winner = none; cp = some (pos 0); mate = none }

abbrev eval_of : String → Eval
eval_of best = record {
  snapshot = even;
  turn = some true;
  wdl = none;
  best_move = some best;
  pv = best ∷ [];
}

abbrev rich : Evidence
rich = record {
  detail = "forensic";
  stability = ("human_findable", flag true) ∷ [];
  evidence_signatures = [];
  strongest_reply = none;
}

abbrev inaccuracy : MoveAnalysis
inaccuracy = record {
  action_type = play_move;
  same_outcome = true;
  is_best_engine_move = false;
  is_engine_best = false;
  effective_loss = some (pos 60);
  centipawn_loss = some (pos 60);
  move_class = "inaccuracy";
  eval_before = eval_of "a1a2";
  eval_after = eval_of "h7h8q";
  forensics = some rich;
}

-- a deeper search finds another best move at depth 26 only
abbrev engine : Bool → ℕ → Option Eval
engine b depth = some (eval_of (if leb 26 depth then "h7h8q" else "a1a2"))

abbrev graded : Bool → Bool → String → Eval → Eval → Action → Option Score
graded b after m e f action = some (record {
  move_class = "mistake";
  effective_loss = some (pos 130);
  centipawn_loss = some (pos 130);
})

abbrev entry : String → ℕ → Option Value
entry key depth =
    lookup key (stability_of_move toy engine graded inaccuracy true (some "a1a2") depth [])

prefixes : pv_prefix_stable ("E2E4" ∷ "e7e5" ∷ []) ("e2e4" ∷ "e7e5" ∷ "g1f3" ∷ "x" ∷ []) ≡ some true
unfolding pv_prefix_stable
prefixes = refl

-- the class changed at depth 22, and depth 24 confirms the change
escalated : entry "verification_status" 18 ≡ some (text "escalated")
unfolding stability_of_move after_first escalate conclude search_at disagreement_reasons compared
    entries_of initial_entries update assign lookup ◌-ℤ◌ is_empty
escalated = refl

-- with depth 29 the search that verifies is a shallower one
shallower : entry "verification_depth" 29 ≡ some (whole (pos 26))
unfolding stability_of_move after_first escalate conclude search_at disagreement_reasons compared
    entries_of initial_entries update assign lookup ◌-ℤ◌ is_empty
shallower = refl

selected_evidence-verify_example :
    selected_evidence
      (verify_forensic_classification_stability toy engine graded inaccuracy true (some "a1a2") 18)
      true
    ≡ evidence_at toy engine graded inaccuracy true "a1a2"
        (deepest toy engine graded inaccuracy true "a1a2" 18)
selected_evidence-verify_example =
    selected_evidence-verify toy engine graded inaccuracy rich true "a1a2" 18 refl refl

-- every search gives what the analysis at hand gives
abbrev steady : Bool → Bool → String → Eval → Eval → Action → Option Score
steady b after m e f action = some (record {
  move_class = "inaccuracy";
  effective_loss = some (pos 80);
  centipawn_loss = some (pos 80);
})

abbrev agreed : Bool → ℕ → Option Eval
agreed b depth = some (eval_of (if b then "a1a2" else "h7h8q"))

called_stable :
    lookup "stable" (stability_of_move toy agreed steady inaccuracy true (some "a1a2") 18 [])
    ≡ some (flag true)
unfolding stability_of_move after_first escalate conclude search_at disagreement_reasons compared
    entries_of initial_entries update assign lookup ◌-ℤ◌ is_empty
called_stable = refl

stability_of_move-stable_example :
    (is_confirmed toy agreed steady inaccuracy true "a1a2"
        (search_at toy agreed steady inaccuracy true "a1a2" (verification_depth 18))
      ≡ true)
    × (is_confirmed toy agreed steady inaccuracy true "a1a2"
          (deepest toy agreed steady inaccuracy true "a1a2" 18)
        ≡ true)
stability_of_move-stable_example =
    stability_of_move-stable toy agreed steady inaccuracy true "a1a2" 18 [] called_stable
