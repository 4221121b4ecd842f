-- ===== src/Analysis/Stability/Unanimous.antt =====
-- What the entry `stable` of mcp_server/analysis/classification_stability.py says of the searches.
use chessy_mcp.Prelude.{
  ℕ, leb, ltb, ◌≢◌, sym, ◌∙◌, ap, ◌≡◌, refl, inl, inr, Bool, true, false, ◌&&◌, Option, none, some,
  Assoc, String, lookup, update, lookup-update, arith, Bool-cases,
}
use chessy_mcp.Chess.{Chess}
use chessy_mcp.Rules.ActionChoice.{Action}
use chessy_mcp.Rules.Status.{contains}
use chessy_mcp.Grading.Score.{is_play}
use chessy_mcp.Analysis.PracticalEquivalence.{Value, flag, null, Eval, MoveAnalysis}
use chessy_mcp.Analysis.Stability.{Score, Searched, tactical_context, agrees, is_not_false}
use chessy_mcp.Analysis.Stability.Verify.{
  status_entry, reverify_classes, verification_depth, escalation_depth, initial_of, initial_entries,
  first_entries, second_entries, failure_entries, entries_of, search_at, compared, conclude,
  escalate, after_first, stability_of_move,
}
use chessy_mcp.Analysis.Stability.Entries.{disagreement_lem}
use chessy_mcp.Analysis.Stability.Selected.{behind, deepest}
use chessy_mcp.Analysis.Stability.Agreement.{
  is_same_verdict, compare_searches-through, agrees-is_same_verdict,
}

flag-both : (b c : Bool) → some (flag (b && c)) ≡ some (flag true) → (b ≡ true) × (c ≡ true)
flag-both b c h = (ground (arith, h), ground (arith, h))

null-flag : some null ≢ some (flag true)
null-flag h = ground (arith, h)

module _ (c : Chess) (evaluate : c.Board → ℕ → Option Eval)
    (score_played_move : c.Board → c.Board → c.Move → Eval → Eval → Action → Option Score) where
  open c use {Board, Move, turn, push}

  -- a search gives the class, the best move and the mates of the result at hand
  abbrev pub confirms : MoveAnalysis → Board → Move → Searched → Bool
  confirms r b m s = is_same_verdict (compared c evaluate score_played_move r b m (initial_of r) s)

  abbrev pub is_confirmed : MoveAnalysis → Board → Move → Option Searched → Bool
  is_confirmed r b m none = false
  is_confirmed r b m (some s) = confirms r b m s

  stable-failed :
      (stability : Assoc Value)
      → lookup "stable" (update failure_entries stability) ≡ lookup "stable" stability
  stable-failed stability = simp (lookup-update)

  stable-first :
      (r : MoveAnalysis) (b : Board) (m : Move) (depth : ℕ) (s : Searched) (stability : Assoc Value)
      → lookup "stable" (
          update
            (first_entries depth)
            (update (entries_of c evaluate score_played_move r b m s) stability))
        ≡ lookup "stable" stability
  unfolding entries_of
  stable-first r b m depth s stability = simp (lookup-update)

  stable-conclude :
      (r : MoveAnalysis) (b : Board) (m : Move) (s : Searched) (converged : Option Bool)
      (stability : Assoc Value)
      → lookup "stable" (conclude c evaluate score_played_move r b m s converged stability)
        ≡ some (
            flag (
              agrees (compared c evaluate score_played_move r b m (initial_of r) s)
              && is_not_false converged))
  unfolding conclude
  stable-conclude r b m s converged stability = simp (lookup-update)

  concluded :
      (r : MoveAnalysis) (b : Board) (m : Move) (s : Searched) (converged : Option Bool)
      (stability : Assoc Value)
      → lookup "stable" (conclude c evaluate score_played_move r b m s converged stability)
        ≡ some (flag true)
      → (agrees (compared c evaluate score_played_move r b m (initial_of r) s) ≡ true)
        × (is_not_false converged ≡ true)
  concluded r b m s converged stability h =
      let k = sym (stable-conclude r b m s converged stability) ∙ h in
      flag-both (agrees (compared c evaluate score_played_move r b m (initial_of r) s))
        (is_not_false converged) k

  first-confirmed :
      (r : MoveAnalysis) (b : Board) (m : Move) (first second : Searched)
      → agrees (compared c evaluate score_played_move r b m first second) ≡ true
      → agrees (compared c evaluate score_played_move r b m (initial_of r) second) ≡ true
      → confirms r b m first ≡ true
  unfolding compared
  first-confirmed r b m first second h k =
      compare_searches-through (turn b) (turn (push b m)) (tactical_context r.forensics)
        (initial_of r) first second h k

  escalate-confirmed :
      (r : MoveAnalysis) (b : Board) (m : Move) (depth : ℕ) (first : Searched) (o : Option Searched)
      (stability : Assoc Value)
      → lookup "stable" stability ≡ some null
      → lookup "stable" (escalate c evaluate score_played_move r b m depth first o stability)
        ≡ some (flag true)
      → (confirms r b m first ≡ true) × (is_confirmed r b m o ≡ true)
  unfolding escalate
  escalate-confirmed r b m depth first none stability h k =
      absurd (null-flag (sym h ∙ sym (stable-failed stability) ∙ k))
  escalate-confirmed r b m depth first (some s) stability h k =
      let agreed = agrees (compared c evaluate score_played_move r b m first s) in
      let p = concluded r b m s (some agreed) (update (second_entries depth agreed) stability) k in
      (
        first-confirmed r b m first s p.1 p.0,
        agrees-is_same_verdict (compared c evaluate score_played_move r b m (initial_of r) s) p.0,
      )

  -- the entries behind the first search
  abbrev verified : MoveAnalysis → Board → Move → ℕ → Searched → Assoc Value → Assoc Value
  verified r b m depth s stability =
      update (first_entries depth)
        (update (entries_of c evaluate score_played_move r b m s) stability)

  after_first-agreeing :
      (r : MoveAnalysis) (b : Board) (m : Move) (depth : ℕ) (s : Searched) (stability : Assoc Value)
      → agrees (compared c evaluate score_played_move r b m (initial_of r) s) ≡ true
      → after_first c evaluate score_played_move r b m depth (some s) stability
        ≡ conclude c evaluate score_played_move r b m s none (verified r b m depth s stability)
  unfolding after_first
  after_first-agreeing r b m depth s stability a =
      rw (disagreement_lem (compared c evaluate score_played_move r b m (initial_of r) s), a) refl

  after_first-disagreeing :
      (r : MoveAnalysis) (b : Board) (m : Move) (depth : ℕ) (s : Searched) (stability : Assoc Value)
      → agrees (compared c evaluate score_played_move r b m (initial_of r) s) ≡ false
      → after_first c evaluate score_played_move r b m depth (some s) stability
        ≡ escalate c evaluate score_played_move r b m depth s
            (search_at c evaluate score_played_move r b m (escalation_depth depth))
            (verified r b m depth s stability)
  unfolding after_first
  after_first-disagreeing r b m depth s stability a =
      let low : ltb (verification_depth depth) 26 ≡ true = ground arith in
      rw (disagreement_lem (compared c evaluate score_played_move r b m (initial_of r) s), a, low)
        refl

  after_first-none :
      (r : MoveAnalysis) (b : Board) (m : Move) (depth : ℕ) (stability : Assoc Value)
      → after_first c evaluate score_played_move r b m depth none stability
        ≡ update failure_entries stability
  unfolding after_first
  after_first-none r b m depth stability = refl

  after_first-confirmed :
      (r : MoveAnalysis) (b : Board) (m : Move) (depth : ℕ) (o : Option Searched)
      (stability : Assoc Value)
      → lookup "stable" stability ≡ some null
      → lookup "stable" (after_first c evaluate score_played_move r b m depth o stability)
        ≡ some (flag true)
      → (is_confirmed r b m o ≡ true)
        × (is_confirmed r b m (behind c evaluate score_played_move r b m depth o) ≡ true)
  after_first-confirmed r b m depth none stability h k = absurd (
      null-flag (
        sym h
        ∙ sym (stable-failed stability)
        ∙ sym (ap (lookup "stable") (after_first-none r b m depth stability))
        ∙ k))
  after_first-confirmed r b m depth (some s) stability h k =
      let agreed = agrees (compared c evaluate score_played_move r b m (initial_of r) s) in
      elim (Bool-cases agreed) [
        | inl a ↦
            let p =
              concluded r b m s none (verified r b m depth s stability)
                (sym (ap (lookup "stable") (after_first-agreeing r b m depth s stability a)) ∙ k) in
            let q =
              agrees-is_same_verdict (compared c evaluate score_played_move r b m (initial_of r) s)
                p.0 in
            rw a (q, q)
        | inr a ↦ rw a (
            escalate-confirmed r b m depth s
              (search_at c evaluate score_played_move r b m (escalation_depth depth))
              (verified r b m depth s stability) (stable-first r b m depth s stability ∙ h)
              (sym (ap (lookup "stable") (after_first-disagreeing r b m depth s stability a)) ∙ k))
      ]

  stable-initial :
      (r : MoveAnalysis) (b : Board) (m : Move) (depth : ℕ) (stability : Assoc Value)
      → lookup "stable" (update (initial_entries r depth (turn b) (turn (push b m))) stability)
        ≡ some null
  unfolding initial_entries
  stable-initial r b m depth stability = simp (lookup-update)

  stable-skipped :
      (r : MoveAnalysis) (b : Board) (m : Move) (depth : ℕ) (status : String)
      (stability : Assoc Value)
      → lookup "stable" (
          update
            (status_entry status)
            (update (initial_entries r depth (turn b) (turn (push b m))) stability))
        ≡ some null
  unfolding initial_entries
  stable-skipped r b m depth status stability = simp (lookup-update)

  -- A move is called stable only if its first verification was made and gave the class, the best move
  -- and the mates of the analysis at hand, and if the deepest search that was needed did so too. So no
  -- second search makes up for a first one with another class, best move or mate.
  pub stability_of_move-stable :
      (r : MoveAnalysis) (b : Board) (m : Move) (depth : ℕ) (stability : Assoc Value)
      → lookup "stable"
          (stability_of_move c evaluate score_played_move r b (some m) depth stability)
        ≡ some (flag true)
      → (is_confirmed r b m
            (search_at c evaluate score_played_move r b m (verification_depth depth))
          ≡ true)
        × (is_confirmed r b m (deepest c evaluate score_played_move r b m depth) ≡ true)
  unfolding stability_of_move
  stability_of_move-stable r b m depth stability = elim (Bool-cases (is_play r.action_type)) [
    | inr e ↦ rw e (λ h. absurd (null-flag (sym (stable-skipped r b m depth _ stability) ∙ h)))
    | inl e ↦ elim (Bool-cases (contains r.move_class reverify_classes)) [
      | inr f ↦
          rw (e, f) (λ h. absurd (null-flag (sym (stable-skipped r b m depth _ stability) ∙ h)))
      | inl f ↦ elim (Bool-cases (leb 30 depth)) [
        | inl n ↦
            rw (e, f, n)
              (λ h. absurd (null-flag (sym (stable-skipped r b m depth _ stability) ∙ h)))
        | inr n ↦
            rw (e, f, n)
              (after_first-confirmed r b m depth
                (search_at c evaluate score_played_move r b m (verification_depth depth))
                (update (initial_entries r depth (turn b) (turn (push b m))) stability)
                (stable-initial r b m depth stability))
      ]
    ]
  ]
