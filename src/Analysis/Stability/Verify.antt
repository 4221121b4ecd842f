-- ===== src/Analysis/Stability/Verify.antt =====
-- `verify_forensic_classification_stability` of mcp_server/analysis/classification_stability.py: up
-- to two deeper searches, and the entries of `stability` that they leave. The evaluator and the
-- grade of a move (mcp_server/move_grading.py) are arguments, `none` when they raise. A move that
-- is pushed is the top of the stack, so the test of `peek` never fails.
use chessy_mcp.Prelude.{
  ℕ, ◌+◌, leb, ltb, min, pos, String, Bool, true, false, not, ◌&&◌, Option, none, some, List, [],
  ◌∷◌, Assoc, update, str_eq, if◌then◌else◌,
}
use chessy_mcp.Chess.{Chess}
use chessy_mcp.Rules.ActionChoice.{Action}
use chessy_mcp.Rules.Status.{contains}
use chessy_mcp.Grading.Score.{is_play}
use chessy_mcp.Analysis.PracticalEquivalence.{
  Value, whole, text, flag, null, other, Eval, MoveAnalysis, points_lost,
}
use chessy_mcp.Analysis.Stability.{
  Score, Searched, Comparison, signature, best_of, tactical_context, compare_searches, is_not_false,
  disagreement_reasons, agrees, text_value, whole_value, decimal_value, comparison_entries,
}

abbrev pub reverify_classes : List String
reverify_classes = "inaccuracy" ∷ "mistake" ∷ "blunder" ∷ []

abbrev pub is_nil : List String → Bool
is_nil [] = true
is_nil (s ∷ l) = false

abbrev pub verification_depth : ℕ → ℕ
verification_depth depth = min (depth + 4) 24

abbrev pub escalation_depth : ℕ → ℕ
escalation_depth depth = min (verification_depth depth + 2) 26

-- the evaluations and the grade that the result comes with
abbrev pub initial_of : MoveAnalysis → Searched
initial_of r = record {
  before = r.eval_before;
  after = r.eval_after;
  score = record {
    move_class = r.move_class;
    effective_loss = r.effective_loss;
    centipawn_loss = r.centipawn_loss;
  };
}

-- the entries that every result of the detail `forensic` gets
unfoldable pub initial_entries : MoveAnalysis → ℕ → Bool → Bool → Assoc Value
unfolding best_of signature points_lost
initial_entries r depth mover turn_after =
    ("initial_depth", whole (pos depth))
    ∷ ("initial_class", text r.move_class)
    ∷ ("initial_effective_loss", whole_value r.effective_loss)
    ∷ ("initial_centipawn_loss", whole_value r.centipawn_loss)
    ∷ ("initial_best_move_uci", text_value (best_of r.eval_before.best_move))
    ∷ (
      "initial_wdl_loss_percentage_points",
      decimal_value (points_lost r.eval_before.wdl r.eval_after.wdl mover),
    )
    ∷ ("initial_mate_before", text (signature mover r.eval_before))
    ∷ ("initial_mate_after", text (signature turn_after r.eval_after))
    ∷ ("initial_pv_before_prefix", other)
    ∷ ("initial_pv_after_prefix", other)
    ∷ ("verification_performed", flag false)
    ∷ ("verification_status", text "not_needed")
    ∷ ("verification_depth", null)
    ∷ ("escalation_depth", null)
    ∷ ("verification_converged", null)
    ∷ ("verification_convergence", null)
    ∷ ("first_verification_disagreement_reasons", other)
    ∷ ("stable", null)
    ∷ ("classification_stable", flag true)
    ∷ ("best_move_stable", flag true)
    ∷ ("pv_prefix_stable", flag true)
    ∷ ("mate_status_stable", flag true)
    ∷ ("evaluation_band_stable", flag true)
    ∷ ("verification_depths", other)
    ∷ ("verification_uses_cached_rule_aware_evaluator", other)
    ∷ ("stability_thresholds", other)
    ∷ ("proof_scope", other)
    ∷ []

abbrev pub status_entry : String → Assoc Value
status_entry s = ("verification_status", text s) ∷ []

-- the `except` clause
abbrev pub failure_entries : Assoc Value
failure_entries =
    ("verification_performed", flag false)
    ∷ ("verification_status", text "engine_verification_failed")
    ∷ []

abbrev pub first_entries : ℕ → Assoc Value
first_entries depth =
    ("verification_performed", flag true)
    ∷ ("verification_status", text "verified")
    ∷ ("verification_depth", whole (pos (verification_depth depth)))
    ∷ ("first_verification_disagreement_reasons", other)
    ∷ []

abbrev pub second_entries : ℕ → Bool → Assoc Value
second_entries depth converged =
    ("escalation_depth", whole (pos (escalation_depth depth)))
    ∷ ("verification_converged", flag converged)
    ∷ ("verification_convergence", other)
    ∷ ("verification_depth", whole (pos (escalation_depth depth)))
    ∷ ("verification_status", text "escalated")
    ∷ []

module _ (c : Chess) (evaluate : c.Board → ℕ → Option Eval)
    (score_played_move : c.Board → c.Board → c.Move → Eval → Eval → Action → Option Score) where
  open c use {Board, Move, turn, push}

  -- `_evaluate_pair` and `_score_at_depth`
  unfoldable pub search_at : MoveAnalysis → Board → Move → ℕ → Option Searched
  search_at r b m depth = elim (evaluate b depth) [
    | none ↦ none
    | some before ↦ elim (evaluate (push b m) depth) [
      | none ↦ none
      | some after ↦ elim (score_played_move b (push b m) m before after r.action_type) [
        | none ↦ none
        | some score ↦ some (record { before = before; after = after; score = score })
      ]
    ]
  ]

  -- two searches compared
  unfoldable pub compared : MoveAnalysis → Board → Move → Searched → Searched → Comparison
  unfolding compare_searches tactical_context
  compared r b m first second =
      compare_searches (turn b) (turn (push b m)) (tactical_context r.forensics) first second

  -- the entries of a search, compared with the result at hand
  unfoldable pub entries_of : MoveAnalysis → Board → Move → Searched → Assoc Value
  unfolding compared comparison_entries
  entries_of r b m s =
      comparison_entries (turn b) (turn (push b m)) (compared r b m (initial_of r) s) s

  -- the end, with the deepest search and whether it confirmed the one before
  unfoldable pub conclude :
      MoveAnalysis → Board → Move → Searched → Option Bool → Assoc Value → Assoc Value
  unfolding entries_of
  conclude r b m final converged stability =
      update
        (("verification_depths", other)
          ∷ (
            "stable",
            flag (agrees (compared r b m (initial_of r) final) && is_not_false converged),
          )
          ∷ [])
        (update (entries_of r b m final) stability)

  unfoldable pub escalate :
      MoveAnalysis → Board → Move → ℕ → Searched → Option Searched → Assoc Value → Assoc Value
  escalate r b m depth first none stability = update failure_entries stability
  escalate r b m depth first (some second) stability =
      let converged = agrees (compared r b m first second) in
      conclude r b m second (some converged) (update (second_entries depth converged) stability)

  -- behind the first search
  unfoldable pub after_first :
      MoveAnalysis → Board → Move → ℕ → Option Searched → Assoc Value → Assoc Value
  after_first r b m depth none stability = update failure_entries stability
  after_first r b m depth (some first) stability =
      let verified = update (first_entries depth) (update (entries_of r b m first) stability) in
      if not (is_nil (disagreement_reasons (compared r b m (initial_of r) first)))
        && ltb (verification_depth depth) 26
      then escalate r b m depth first (search_at r b m (escalation_depth depth)) verified
      else conclude r b m first none verified

  unfoldable pub stability_of_move :
      MoveAnalysis → Board → Option Move → ℕ → Assoc Value → Assoc Value
  unfolding after_first search_at initial_entries
  stability_of_move r b none depth stability =
      update (status_entry "non_move_action")
        (update (initial_entries r depth (turn b) (turn b)) stability)
  stability_of_move r b (some m) depth stability =
      let initial = update (initial_entries r depth (turn b) (turn (push b m))) stability in
      if not (is_play r.action_type)
      then update (status_entry "non_move_action") initial
      else if not (contains r.move_class reverify_classes)
      then update (status_entry "low_coaching_priority_class") initial
      else if leb 30 depth
      then update (status_entry "depth_cap_reached") initial
      else after_first r b m depth (search_at r b m (verification_depth depth)) initial

  unfoldable pub verify_forensic_classification_stability :
      MoveAnalysis → Board → Option Move → ℕ → MoveAnalysis
  verify_forensic_classification_stability r b played depth = elim r.forensics [
    | none ↦ r
    | some e ↦
        if str_eq e.detail "forensic"
        then record r {
          forensics =
              some (record e { stability = stability_of_move r b played depth e.stability });
        }
        else r
  ]
