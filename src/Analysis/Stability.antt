-- ===== src/Analysis/Stability.antt =====
-- mcp_server/analysis/classification_stability.py: whether a classification survives a deeper
-- search. This file compares evaluations; Stability/Verify.antt makes the searches.
pub mod Verify
pub mod Agreement
pub mod Entries
pub mod Selected
pub mod Unanimous
use chessy_mcp.Prelude.{
  ℕ, zero, suc, leb, ltb, ℤ, pos, ◌-ℤ◌, pos_part, neg_part, max, String, Bool, true, false, not,
  ◌&&◌, ◌||◌, Option, none, some, List, [], ◌∷◌, ◌++◌, Assoc, str_eq, lower, is_empty, ◌+◌,
  if◌then◌else◌,
}
use chessy_mcp.Rules.Status.{contains}
use chessy_mcp.Contracts.MateState.{semantic_mate_state, coerce_legacy_signature}
use chessy_mcp.Analysis.PracticalEquivalence.{
  Value, whole, decimal, text, flag, null, other, Eval, Evidence, MoveAnalysis, points_lost,
  signature_text,
}

-- a grade, as far as it is read
pub record Score : Type 0 where
  pub move_class : String
  pub effective_loss : Option ℤ
  pub centipawn_loss : Option ℤ

-- the evaluations before and after the move, and the grade they give
pub record Searched : Type 0 where
  pub before : Eval
  pub after : Eval
  pub score : Score

abbrev pub pv_prefix_plies : ℕ
pv_prefix_plies = 3

abbrev pub tactical_signatures : List String
tactical_signatures =
    "FORCING_REPLY_MATERIAL_LOSS_IMMEDIATE" ∷ "DELAYED_MATERIALIZATION_AFTER_FORCING_REPLY"
    ∷ "OPPONENT_MATE_IN_ONE_AFTER_MOVE" ∷ "STRONGEST_REPLY_IS_MATE_IN_ONE"
    ∷ "FAILED_MATE_THREAT_UPDATE_CANDIDATE" ∷ "FORCING_REPLY_AVAILABLE" ∷ []

-- `_mate_signature` on the board of the evaluation, by who is to move
unfoldable pub signature : Bool → Eval → String
unfolding semantic_mate_state coerce_legacy_signature signature_text
signature turn e =
    signature_text (coerce_legacy_signature (semantic_mate_state turn e.snapshot none))

-- the first texts of two lists are the same but for capitals, as far as both go
unfoldable pub same_prefix : ℕ → List String → List String → Bool
unfolding lower
same_prefix zero l m = true
same_prefix (suc n) [] m = true
same_prefix (suc n) (x ∷ l) [] = true
same_prefix (suc n) (x ∷ l) (y ∷ m) =
    let rest = same_prefix n l m in str_eq (lower x) (lower y) && rest

-- `_pv_prefix_stable`
unfoldable pub pv_prefix_stable : List String → List String → Option Bool
unfolding same_prefix
pv_prefix_stable [] m = none
pv_prefix_stable (x ∷ l) [] = none
pv_prefix_stable (x ∷ l) (y ∷ m) = some (same_prefix pv_prefix_plies (x ∷ l) (y ∷ m))

abbrev pub any_in : List String → List String → Bool
any_in [] l = false
any_in (s ∷ found) l = let rest = any_in found l in contains s l || rest

-- `_tactical_context`
unfoldable pub tactical_context : Option Evidence → Bool
tactical_context none = false
tactical_context (some e) =
    elim e.strongest_reply [ none ↦ false | some forcing ↦ forcing ]
    || any_in e.evidence_signatures tactical_signatures

-- `abs(x - y)`
abbrev pub distance : ℤ → ℤ → ℕ
distance x y = max (pos_part (x -ℤ y)) (neg_part (x -ℤ y))

-- `evaluation_stability_basis`
pub data Basis : Type 0 where
  wdl_points : Basis
  effective_cp : Basis
  no_numbers : Basis

pub record Magnitude : Type 0 where
  pub stable : Option Bool
  pub basis : Basis
  pub wdl_shift : Option ℕ
  pub effective_shift : Option ℕ

-- `_evaluation_magnitude_stability`: 3 percentage points, or 75 centipawns
unfoldable pub by_effective : Option ℤ → Option ℤ → Magnitude
unfolding ◌-ℤ◌
by_effective (some x) (some y) = record {
  stable = some (leb (distance y x) 75);
  basis = effective_cp;
  wdl_shift = none;
  effective_shift = some (distance y x);
}
by_effective x y = record {
  stable = none;
  basis = no_numbers;
  wdl_shift = none;
  effective_shift = none;
}

unfoldable pub magnitude_stability : Option ℤ → Option ℤ → Option ℤ → Option ℤ → Magnitude
unfolding by_effective ◌-ℤ◌
magnitude_stability (some x) (some y) x' y' = record {
  stable = some (leb (distance y x) 3000);
  basis = wdl_points;
  wdl_shift = some (distance y x);
  effective_shift = none;
}
magnitude_stability (some x) none x' y' = by_effective x' y'
magnitude_stability none y x' y' = by_effective x' y'

-- `(x or "").lower()`; `None` and the empty text are one here
unfoldable pub best_of : Option String → String
unfolding lower
best_of none = ""
best_of (some s) = lower s

-- `all(available) if available else None`
abbrev pub all_available : Option Bool → Option Bool → Option Bool
all_available none y = y
all_available (some x) none = some x
all_available (some x) (some y) = some (x && y)

-- both, where both are there
abbrev pub both_of : Option Bool → Option Bool → Option Bool
both_of (some x) (some y) = some (x && y)
both_of x y = none

pub record Comparison : Type 0 where
  pub class_stable : Bool
  pub best_move_stable : Bool
  pub mate_status_stable : Bool
  pub magnitude : Magnitude
  pub is_tactical : Bool
  pub pv_before_stable : Option Bool
  pub pv_after_stable : Option Bool
  pub tactical_pv_stable : Option Bool

-- two searches of the same positions, compared; `mover` is to move before the move
unfoldable pub compare_searches : Bool → Bool → Bool → Searched → Searched → Comparison
unfolding best_of signature magnitude_stability points_lost pv_prefix_stable
compare_searches mover turn_after is_tactical first second =
    let before = pv_prefix_stable first.before.pv second.before.pv in
    let after = pv_prefix_stable first.after.pv second.after.pv in
    record {
      class_stable = str_eq second.score.move_class first.score.move_class;
      best_move_stable = str_eq (best_of second.before.best_move) (best_of first.before.best_move);
      mate_status_stable =
          str_eq (signature mover second.before) (signature mover first.before)
          && str_eq (signature turn_after second.after) (signature turn_after first.after);
      magnitude =
          magnitude_stability (points_lost first.before.wdl first.after.wdl mover)
            (points_lost second.before.wdl second.after.wdl mover) first.score.effective_loss
            second.score.effective_loss;
      is_tactical = is_tactical;
      pv_before_stable = before;
      pv_after_stable = after;
      tactical_pv_stable = if is_tactical then all_available before after else none;
    }

-- `is not False`
abbrev pub is_not_false : Option Bool → Bool
is_not_false none = true
is_not_false (some b) = b

-- `_disagreement_reasons`
unfoldable pub disagreement_reasons : Comparison → List String
disagreement_reasons k =
    (if k.class_stable then [] else "classification_changed" ∷ [])
    ++ ((if k.best_move_stable then [] else "engine_best_move_changed" ∷ [])
        ++ ((if k.mate_status_stable then [] else "mate_status_changed" ∷ [])
            ++ ((if is_not_false k.magnitude.stable then [] else elim k.magnitude.basis [
              | wdl_points ↦ "wdl_loss_shift" ∷ []
              | _ ↦ "effective_loss_shift" ∷ []
            ])
                ++ (if is_not_false k.tactical_pv_stable
                    then []
                    else "tactical_pv_prefix_changed" ∷ []))))

-- nothing of a comparison speaks against the classification
abbrev pub agrees : Comparison → Bool
agrees k =
    k.class_stable
    && k.best_move_stable
    && k.mate_status_stable
    && is_not_false k.magnitude.stable
    && is_not_false k.tactical_pv_stable

abbrev pub text_value : String → Value
text_value s = if is_empty s then null else text s

abbrev pub flag_value : Option Bool → Value
flag_value none = null
flag_value (some b) = flag b

abbrev pub whole_value : Option ℤ → Value
whole_value none = null
whole_value (some x) = whole x

abbrev pub decimal_value : Option ℤ → Value
decimal_value none = null
decimal_value (some x) = decimal x

abbrev pub basis_text : Basis → String
basis_text wdl_points = "wdl_loss_percentage_points"
basis_text effective_cp = "effective_loss_cp"
basis_text no_numbers = "insufficient_numeric_evidence"

abbrev pub shift_value : (ℤ → Value) → Option ℕ → Value
shift_value make none = null
shift_value make (some n) = make (pos n)

-- `_comparison` of the result at hand with a search, as the entries it gives
unfoldable pub comparison_entries : Bool → Bool → Comparison → Searched → Assoc Value
unfolding best_of signature points_lost is_empty
comparison_entries mover turn_after k s =
    ("verified_class", text s.score.move_class)
    ∷ ("verified_effective_loss", whole_value s.score.effective_loss)
    ∷ ("verified_centipawn_loss", whole_value s.score.centipawn_loss)
    ∷ ("verified_best_move_uci", text_value (best_of s.before.best_move))
    ∷ (
      "verified_wdl_loss_percentage_points",
      decimal_value (points_lost s.before.wdl s.after.wdl mover),
    )
    ∷ ("verified_mate_before", text (signature mover s.before))
    ∷ ("verified_mate_after", text (signature turn_after s.after))
    ∷ ("verified_pv_before_prefix", other)
    ∷ ("class_stable", flag k.class_stable)
    ∷ ("classification_stable", flag k.class_stable)
    ∷ ("best_move_stable", flag k.best_move_stable)
    ∷ ("mate_status_stable", flag k.mate_status_stable)
    ∷ ("evaluation_band_stable", flag_value k.magnitude.stable)
    ∷ ("tactical_context_for_pv_stability", flag k.is_tactical)
    ∷ ("pv_before_prefix_stable", flag_value k.pv_before_stable)
    ∷ ("pv_after_prefix_stable", flag_value k.pv_after_stable)
    ∷ ("pv_prefix_stable", flag_value (both_of k.pv_before_stable k.pv_after_stable))
    ∷ ("tactical_pv_stable", flag_value k.tactical_pv_stable)
    ∷ ("evaluation_magnitude_stable", flag_value k.magnitude.stable)
    ∷ ("evaluation_stability_basis", text (basis_text k.magnitude.basis))
    ∷ ("wdl_loss_shift_percentage_points", shift_value decimal k.magnitude.wdl_shift)
    ∷ ("effective_loss_shift_cp", shift_value whole k.magnitude.effective_shift)
    ∷ []
