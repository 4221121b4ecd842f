-- ===== src/Analysis/Stability/Selected.antt =====
-- What mcp_server/analysis/practical_equivalence.py reads of the entries that
-- mcp_server/analysis/classification_stability.py leaves.
use chessy_mcp.Prelude.{
  ℕ, leb, ltb, ◌≡◌, inl, inr, true, not, ◌&&◌, Option, none, some, Assoc, lookup, update,
  lookup-update, str_eq, arith, Bool-cases, if◌then◌else◌,
}
use chessy_mcp.Chess.{Chess}
use chessy_mcp.Rules.ActionChoice.{Action}
use chessy_mcp.Rules.Status.{contains}
use chessy_mcp.Grading.Score.{is_play}
use chessy_mcp.Analysis.PracticalEquivalence.{
  Value, flag, Eval, Evidence, MoveAnalysis, Selected, selected_evidence,
}
use chessy_mcp.Analysis.Stability.{Score, Searched, agrees}
use chessy_mcp.Analysis.Stability.Verify.{
  reverify_classes, verification_depth, escalation_depth, initial_of, initial_entries,
  first_entries, second_entries, search_at, compared, escalate, after_first, stability_of_move,
  verify_forensic_classification_stability,
}
use chessy_mcp.Analysis.Stability.Entries.{
  disagreement_lem, with_entries, initial_evidence, evidence_of, IsInitial, conclude-selected,
  initial_entries-IsInitial, first-IsInitial, failed-selected, skipped-selected,
}

module _ (c : Chess) (evaluate : c.Board → ℕ → Option Eval)
    (score_played_move : c.Board → c.Board → c.Move → Eval → Eval → Action → Option Score) where
  open c use {Board, Move, turn, push}

  -- the search that counts behind the first one
  abbrev pub behind : MoveAnalysis → Board → Move → ℕ → Option Searched → Option Searched
  behind r b m depth none = none
  behind r b m depth (some first) =
      if agrees (compared c evaluate score_played_move r b m (initial_of r) first)
      then some first
      else search_at c evaluate score_played_move r b m (escalation_depth depth)

  -- the deepest search that was needed, if the searches that were needed gave a result
  abbrev pub deepest : MoveAnalysis → Board → Move → ℕ → Option Searched
  deepest r b m depth =
      if is_play r.action_type && contains r.move_class reverify_classes && not (leb 30 depth)
      then behind r b m depth
          (search_at c evaluate score_played_move r b m (verification_depth depth))
      else none

  -- what is read of the deepest search, or else of the evaluation at hand
  abbrev pub evidence_at : MoveAnalysis → Board → Move → Option Searched → Selected
  evidence_at r b m none = initial_evidence c evaluate score_played_move r b m
  evidence_at r b m (some s) = evidence_of c evaluate score_played_move r b m s

  first-performed :
      (r : MoveAnalysis) (b : Board) (m : Move) (depth : ℕ) (s : Searched) (stability : Assoc Value)
      → lookup "verification_performed" (update (first_entries depth) stability) ≡ some (flag true)
  first-performed r b m depth s stability = simp (lookup-update)

  escalate-selected :
      (r : MoveAnalysis) (e : Evidence) (b : Board) (m : Move) (depth : ℕ) (first : Searched)
      (o : Option Searched) (stability : Assoc Value)
      → IsInitial c evaluate score_played_move r b m stability
      → lookup "verification_performed" stability ≡ some (flag true)
      → selected_evidence
          (with_entries c evaluate score_played_move r e
            (escalate c evaluate score_played_move r b m depth first o stability))
          (turn b)
        ≡ evidence_at r b m o
  unfolding escalate
  escalate-selected r e b m depth first none stability h k =
      failed-selected c evaluate score_played_move r e b m stability h
  escalate-selected r e b m depth first (some s) stability h k =
      let converged = agrees (compared c evaluate score_played_move r b m first s) in
      conclude-selected c evaluate score_played_move r e b m s (some converged)
        (update (second_entries depth converged) stability) (simp (lookup-update, k))

  after_first-selected :
      (r : MoveAnalysis) (e : Evidence) (b : Board) (m : Move) (depth : ℕ) (o : Option Searched)
      (stability : Assoc Value)
      → IsInitial c evaluate score_played_move r b m stability
      → selected_evidence
          (with_entries c evaluate score_played_move r e
            (after_first c evaluate score_played_move r b m depth o stability))
          (turn b)
        ≡ evidence_at r b m (behind r b m depth o)
  unfolding after_first
  after_first-selected r e b m depth none stability h =
      failed-selected c evaluate score_played_move r e b m stability h
  after_first-selected r e b m depth (some first) stability h =
      let k = compared c evaluate score_played_move r b m (initial_of r) first in
      let vd : ltb (verification_depth depth) 26 ≡ true = ground arith in
      elim (Bool-cases (agrees k)) [
        | inl a ↦
            rw (disagreement_lem k, a)
              (conclude-selected c evaluate score_played_move r e b m first none _
                (first-performed r b m depth first _))
        | inr a ↦
            rw (disagreement_lem k, a, vd)
              (escalate-selected r e b m depth first _ _
                (first-IsInitial c evaluate score_played_move r b m depth first stability h)
                (first-performed r b m depth first _))
      ]

  stability-selected :
      (r : MoveAnalysis) (e : Evidence) (b : Board) (m : Move) (depth : ℕ)
      → selected_evidence
          (with_entries c evaluate score_played_move r e
            (stability_of_move c evaluate score_played_move r b (some m) depth e.stability))
          (turn b)
        ≡ evidence_at r b m (deepest r b m depth)
  unfolding stability_of_move
  stability-selected r e b m depth = elim (Bool-cases (is_play r.action_type)) [
    | inr h ↦ rw h (skipped-selected c evaluate score_played_move r e b m depth "non_move_action")
    | inl h ↦ elim (Bool-cases (contains r.move_class reverify_classes)) [
      | inr k ↦
          rw (h, k)
            (skipped-selected c evaluate score_played_move r e b m depth
              "low_coaching_priority_class")
      | inl k ↦ elim (Bool-cases (leb 30 depth)) [
        | inl n ↦
            rw (h, k, n)
              (skipped-selected c evaluate score_played_move r e b m depth "depth_cap_reached")
        | inr n ↦
            rw (h, k, n)
              (after_first-selected r e b m depth
                (search_at c evaluate score_played_move r b m (verification_depth depth))
                (update (initial_entries r depth (turn b) (turn (push b m))) e.stability)
                (initial_entries-IsInitial c evaluate score_played_move r b m depth e.stability))
      ]
    ]
  ]

  verify-entries :
      (r : MoveAnalysis) (e : Evidence) (b : Board) (m : Move) (depth : ℕ)
      → r.forensics ≡ some e
      → str_eq e.detail "forensic" ≡ true
      → verify_forensic_classification_stability c evaluate score_played_move r b (some m) depth
        ≡ with_entries c evaluate score_played_move r e
            (stability_of_move c evaluate score_played_move r b (some m) depth e.stability)
  unfolding verify_forensic_classification_stability
  verify-entries r e b m depth h k = ground (arith, h, k)

  -- For a played move whose result has the detail `forensic`, what practical equivalence reads of the
  -- entries is the deepest search that was needed: the first, or the second if the first speaks
  -- against the result at hand. Where none is made, or one that is needed fails, it reads the
  -- evaluation at hand.
  pub selected_evidence-verify :
      (r : MoveAnalysis) (e : Evidence) (b : Board) (m : Move) (depth : ℕ)
      → r.forensics ≡ some e
      → str_eq e.detail "forensic" ≡ true
      → selected_evidence
          (verify_forensic_classification_stability c evaluate score_played_move r b (some m) depth)
          (turn b)
        ≡ evidence_at r b m (deepest r b m depth)
  selected_evidence-verify r e b m depth h k =
      rw (verify-entries r e b m depth h k) (stability-selected r e b m depth)
