-- ===== src/Analysis/Stability/Entries.antt =====
-- The entries that mcp_server/analysis/classification_stability.py leaves, one search at a time, and
-- what mcp_server/analysis/practical_equivalence.py reads of them.
use chessy_mcp.Prelude.{
  ℕ, ℤ, String, ◌≡◌, refl, Bool, true, false, Option, none, some, Assoc, lookup, update,
  lookup-update, arith,
}
use chessy_mcp.Chess.{Chess}
use chessy_mcp.Rules.ActionChoice.{Action}
use chessy_mcp.Analysis.PracticalEquivalence.{
  Value, text, flag, Eval, Evidence, MoveAnalysis, Selected, points_lost, or_else,
  selected_evidence, thousandths, integer,
}
use chessy_mcp.Analysis.Stability.{
  Score, Searched, Comparison, signature, disagreement_reasons, agrees, whole_value, decimal_value,
}
use chessy_mcp.Analysis.Stability.Verify.{
  status_entry, is_nil, initial_entries, first_entries, failure_entries, entries_of, conclude,
}

thousandths-decimal : (o : Option ℤ) → thousandths (some (decimal_value o)) ≡ o
unfolding thousandths
thousandths-decimal none = refl
thousandths-decimal (some x) = refl

integer-whole : (o : Option ℤ) → integer (some (whole_value o)) ≡ o
unfolding integer
integer-whole none = refl
integer-whole (some x) = refl

or_else_same : (o : Option ℤ) → or_else o o ≡ o
or_else_same none = refl
or_else_same (some x) = refl

or_else_twice : (o p : Option ℤ) → or_else o (or_else o p) ≡ or_else o p
or_else_twice none p = refl
or_else_twice (some x) p = refl

pub disagreement_lem : (k : Comparison) → is_nil (disagreement_reasons k) ≡ agrees k
unfolding disagreement_reasons
disagreement_lem k = ground arith

module _ (c : Chess) (evaluate : c.Board → ℕ → Option Eval)
    (score_played_move : c.Board → c.Board → c.Move → Eval → Eval → Action → Option Score) where
  open c use {Board, Move, turn, push}

  -- the result with other entries
  abbrev pub with_entries : MoveAnalysis → Evidence → Assoc Value → MoveAnalysis
  with_entries r e stability = record r { forensics = some (record e { stability = stability }) }

  abbrev pub initial_evidence : MoveAnalysis → Board → Move → Selected
  initial_evidence r b m = record {
    is_verified = false;
    wdl_loss = points_lost r.eval_before.wdl r.eval_after.wdl (turn b);
    effective_loss = or_else r.effective_loss r.centipawn_loss;
    move_class = r.move_class;
    mate_before = signature (turn b) r.eval_before;
    mate_after = signature (turn (push b m)) r.eval_after;
  }

  abbrev pub evidence_of : MoveAnalysis → Board → Move → Searched → Selected
  evidence_of r b m s = record {
    is_verified = true;
    wdl_loss =
        or_else (points_lost s.before.wdl s.after.wdl (turn b))
          (points_lost r.eval_before.wdl r.eval_after.wdl (turn b));
    effective_loss = or_else s.score.effective_loss (or_else r.effective_loss r.centipawn_loss);
    move_class = s.score.move_class;
    mate_before = signature (turn b) s.before;
    mate_after = signature (turn (push b m)) s.after;
  }

  pub conclude-selected :
      (r : MoveAnalysis) (e : Evidence) (b : Board) (m : Move) (s : Searched)
      (converged : Option Bool) (stability : Assoc Value)
      → lookup "verification_performed" stability ≡ some (flag true)
      → selected_evidence
          (with_entries r e (conclude c evaluate score_played_move r b m s converged stability))
          (turn b)
        ≡ evidence_of r b m s
  unfolding selected_evidence conclude
  conclude-selected r e b m s converged stability h =
      simp (lookup-update, h, thousandths-decimal, integer-whole) refl

  -- the entries that the first evaluation left
  abbrev pub IsInitial : MoveAnalysis → Board → Move → Assoc Value → Type 0
  IsInitial r b m stability =
      (lookup "initial_wdl_loss_percentage_points" stability
        ≡ some (decimal_value (points_lost r.eval_before.wdl r.eval_after.wdl (turn b))))
      × (lookup "initial_effective_loss" stability ≡ some (whole_value r.effective_loss))
      × (lookup "initial_class" stability ≡ some (text r.move_class))
      × (lookup "initial_mate_before" stability ≡ some (text (signature (turn b) r.eval_before)))
      × (lookup "initial_mate_after" stability
          ≡ some (text (signature (turn (push b m)) r.eval_after)))

  pub initial_entries-IsInitial :
      (r : MoveAnalysis) (b : Board) (m : Move) (depth : ℕ) (stability : Assoc Value)
      → IsInitial r b m (update (initial_entries r depth (turn b) (turn (push b m))) stability)
  unfolding initial_entries
  initial_entries-IsInitial r b m depth stability = (
    simp (lookup-update),
    simp (lookup-update),
    simp (lookup-update),
    simp (lookup-update),
    simp (lookup-update),
  )

  pub first-IsInitial :
      (r : MoveAnalysis) (b : Board) (m : Move) (depth : ℕ) (s : Searched) (stability : Assoc Value)
      → IsInitial r b m stability
      → IsInitial r b m (
          update
            (first_entries depth)
            (update (entries_of c evaluate score_played_move r b m s) stability))
  unfolding entries_of
  first-IsInitial r b m depth s stability (h0, h1, h2, h3, h4) = (
    simp (lookup-update, h0),
    simp (lookup-update, h1),
    simp (lookup-update, h2),
    simp (lookup-update, h3),
    simp (lookup-update, h4),
  )

  unverified-selected :
      (r : MoveAnalysis) (e : Evidence) (b : Board) (m : Move) (stability : Assoc Value)
      → lookup "verification_performed" stability ≡ some (flag false)
      → IsInitial r b m stability
      → selected_evidence (with_entries r e stability) (turn b) ≡ initial_evidence r b m
  unfolding selected_evidence
  unverified-selected r e b m stability h (h0, h1, h2, h3, h4) =
      simp (h, h0, h1, h2, h3, h4, thousandths-decimal, integer-whole, or_else_same)
        (rw (or_else_twice r.effective_loss r.centipawn_loss) refl)

  pub failed-selected :
      (r : MoveAnalysis) (e : Evidence) (b : Board) (m : Move) (stability : Assoc Value)
      → IsInitial r b m stability
      → selected_evidence (with_entries r e (update failure_entries stability)) (turn b)
        ≡ initial_evidence r b m
  failed-selected r e b m stability (h0, h1, h2, h3, h4) =
      unverified-selected r e b m (update failure_entries stability) (simp (lookup-update)) (
        simp (lookup-update, h0),
        simp (lookup-update, h1),
        simp (lookup-update, h2),
        simp (lookup-update, h3),
        simp (lookup-update, h4),
      )

  pub skipped-selected :
      (r : MoveAnalysis) (e : Evidence) (b : Board) (m : Move) (depth : ℕ) (status : String)
      → selected_evidence
          (with_entries r e (
            update
              (status_entry status)
              (update (initial_entries r depth (turn b) (turn (push b m))) e.stability)))
          (turn b)
        ≡ initial_evidence r b m
  unfolding initial_entries
  skipped-selected r e b m depth status = unverified-selected r e b m _ (simp (lookup-update)) (
    simp (lookup-update),
    simp (lookup-update),
    simp (lookup-update),
    simp (lookup-update),
    simp (lookup-update),
  )
