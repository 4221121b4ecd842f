-- ===== src/Analysis/PracticalEquivalence/Judge.antt =====
-- The judgement of mcp_server/analysis/practical_equivalence.py: `build_practical_equivalence_evidence`
-- and `apply_practical_equivalence`.
use chessy_mcp.Prelude.{
  ℤ, pos, lebℤ, String, Bool, true, false, not, ◌&&◌, ◌||◌, Option, none, some, List, [], ◌∷◌,
  assign, str_eq, is_some, if◌then◌else◌,
}
use chessy_mcp.Rules.Status.{contains}
use chessy_mcp.Grading.Score.{is_play}
use chessy_mcp.Contracts.MateState.{is_text}
use chessy_mcp.Analysis.PracticalEquivalence.{
  Value, text, flag, null, other, Evidence, MoveAnalysis, selected_evidence,
}

pub data Status : Type 0 where
  equivalent not_equivalent indeterminate : Status

pub data Priority : Type 0 where
  negligible low medium high : Priority

-- the signatures of a tactical punishment, as `sorted` orders them
abbrev pub punishment_signatures : List String
punishment_signatures =
    "DELAYED_MATERIALIZATION_AFTER_FORCING_REPLY" ∷ "FAILED_MATE_THREAT_UPDATE_CANDIDATE"
    ∷ "FORCING_REPLY_MATERIAL_LOSS_IMMEDIATE" ∷ "OPPONENT_MATE_IN_ONE_AFTER_MOVE"
    ∷ "STRONGEST_REPLY_IS_MATE_IN_ONE" ∷ []

unfoldable pub present : List String → List String → List String
present found [] = []
present found (s ∷ wanted) =
    let rest = present found wanted in if contains s found then s ∷ rest else rest

abbrev pub signatures_of : Option Evidence → List String
signatures_of none = []
signatures_of (some e) = e.evidence_signatures

abbrev pub is_forcing : Option Evidence → Bool
is_forcing none = false
is_forcing (some e) = elim e.strongest_reply [ none ↦ false | some forcing ↦ forcing ]

abbrev pub reaches : Option ℤ → ℤ → Bool
reaches none bound = false
reaches (some x) bound = lebℤ bound x

abbrev pub is_some_text : List String → Bool
is_some_text [] = false
is_some_text (s ∷ l) = true

-- what the verdict depends on
pub record Grounds : Type 0 where
  pub is_move : Bool
  pub same_outcome : Bool
  pub mate_deterioration : Bool
  pub tactical_punishment : Bool
  pub is_best : Bool
  pub won_by_mate : Bool
  pub wdl_loss : Option ℤ
  pub effective_loss : Option ℤ

unfoldable pub mover_won_by_mate : MoveAnalysis → Bool → Bool
mover_won_by_mate r mover =
    str_eq r.eval_after.snapshot.status "checkmate"
    && is_text (if mover then "white" else "black") r.eval_after.snapshot.winner

unfoldable pub tactical_punishment_of : MoveAnalysis → Option ℤ → Bool
unfolding present
tactical_punishment_of r loss =
    is_some_text (present (signatures_of r.forensics) punishment_signatures)
    || (is_forcing r.forensics && reaches loss (pos 100))

unfoldable pub grounds_of : MoveAnalysis → Bool → Grounds
unfolding selected_evidence mover_won_by_mate tactical_punishment_of
grounds_of r mover =
    let selected = selected_evidence r mover in
    let opponent = if mover then "black_mates" else "white_mates" in
    let won = mover_won_by_mate r mover in
    record {
      is_move = is_play r.action_type;
      same_outcome = r.same_outcome;
      mate_deterioration =
          not won
          && str_eq selected.mate_after opponent
          && not (str_eq selected.mate_before opponent);
      tactical_punishment = tactical_punishment_of r selected.effective_loss;
      is_best = r.is_best_engine_move || r.is_engine_best;
      won_by_mate = won;
      wdl_loss = selected.wdl_loss;
      effective_loss = selected.effective_loss;
    }

-- a status, `practical_equivalent`, and the reason code
pub record Judgement : Type 0 where
  pub status : Status
  pub practical_equivalent : Option Bool
  pub reason_code : String

abbrev pub judgement : Status → Option Bool → String → Judgement
judgement s e code = record { status = s; practical_equivalent = e; reason_code = code }

-- the three bands of a loss
unfoldable pub banded : ℤ → ℤ → ℤ → String → String → String → Judgement
banded loss small large within exceeds between =
    if lebℤ loss small
    then judgement equivalent (some true) within
    else if lebℤ large loss
    then judgement not_equivalent (some false) exceeds
    else judgement indeterminate none between

unfoldable pub judge_loss : Option ℤ → Option ℤ → Judgement
unfolding banded
judge_loss (some points) loss =
    banded points (pos 2000) (pos 5000) "WDL_LOSS_WITHIN_EQUIVALENCE_BAND"
      "WDL_LOSS_EXCEEDS_COACHING_BAND" "WDL_LOSS_IN_GRAY_ZONE"
judge_loss none (some cp) =
    banded cp (pos 30) (pos 100) "CP_FALLBACK_WITHIN_EQUIVALENCE_BAND"
      "CP_FALLBACK_EXCEEDS_COACHING_BAND" "CP_FALLBACK_IN_GRAY_ZONE"
judge_loss none none = judgement indeterminate none "INSUFFICIENT_WDL_OR_LOSS_EVIDENCE"

unfoldable pub judge : Grounds → Judgement
unfolding judge_loss
judge g =
    if not g.is_move
    then judgement indeterminate none "NON_MOVE_ACTION"
    else if not g.same_outcome
    then judgement not_equivalent (some false) "RULE_OUTCOME_CHANGED"
    else if g.mate_deterioration
    then judgement not_equivalent (some false) "MATE_STATUS_DETERIORATED"
    else if g.tactical_punishment
    then judgement not_equivalent (some false) "CONCRETE_FORCING_PUNISHMENT_EVIDENCE"
    else if g.is_best
    then judgement equivalent (some true)
        (if g.won_by_mate then "ENGINE_BEST_WINNING_MOVE" else "ENGINE_BEST_MOVE")
    else judge_loss g.wdl_loss g.effective_loss

abbrev pub is_true : Option Bool → Bool
is_true none = false
is_true (some b) = b

unfoldable pub coach_priority : Grounds → Option Bool → Priority
coach_priority g practical =
    if is_true practical
    then negligible
    else if g.mate_deterioration || not g.same_outcome || g.tactical_punishment
    then high
    else if reaches g.wdl_loss (pos 15000) || reaches g.effective_loss (pos 200)
    then high
    else if is_some practical
    then medium
    else low

-- the entries of the answer that are not passed on from the evidence
pub record Practical : Type 0 where
  pub verdict : Judgement
  pub priority : Priority
  pub grounds : Grounds
  pub tactical_punishment_signatures : List String

unfoldable pub build_practical_equivalence_evidence : MoveAnalysis → Bool → Practical
unfolding grounds_of judge coach_priority present
build_practical_equivalence_evidence r mover =
    let g = grounds_of r mover in
    record {
      verdict = judge g;
      priority = coach_priority g (judge g).practical_equivalent;
      grounds = g;
      tactical_punishment_signatures = present (signatures_of r.forensics) punishment_signatures;
    }

unfoldable pub status_text : Status → String
status_text equivalent = "equivalent"
status_text not_equivalent = "not_equivalent"
status_text indeterminate = "indeterminate"

unfoldable pub priority_text : Priority → String
priority_text negligible = "negligible"
priority_text low = "low"
priority_text medium = "medium"
priority_text high = "high"

abbrev pub as_value : Option Bool → Value
as_value none = null
as_value (some b) = flag b

-- `apply_practical_equivalence`; the nested dictionary is not looked into again
unfoldable pub apply_practical_equivalence : MoveAnalysis → Bool → MoveAnalysis
unfolding build_practical_equivalence_evidence status_text priority_text assign
apply_practical_equivalence r mover = elim r.forensics [
  | none ↦ r
  | some e ↦
      let p = build_practical_equivalence_evidence r mover in
      record r {
        forensics = some (record e {
          stability = assign "coach_priority" (text (priority_text p.priority)) (
              assign "practical_equivalence_status" (text (status_text p.verdict.status)) (
                assign "practical_equivalent" (as_value p.verdict.practical_equivalent)
                  (assign "practical_equivalence" other e.stability)));
        });
      }
]
