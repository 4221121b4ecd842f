-- ===== src/Analysis/PracticalEquivalence.antt =====
-- mcp_server/analysis/practical_equivalence.py: whether a played move is as good in practice as the
-- engine's. Percentage points are in thousandths, as `round(…, 3)` leaves them. The boards before
-- and after the move are read by the parsers; only their turn is used here.
pub mod Judge
pub mod Verdict
use chessy_mcp.Prelude.{
  ℕ, ◌+◌, ◌-◌, ◌*◌, ◌/◌, ℤ, pos, negsuc, lebℤ, leb, String, Bool, true, false, not, ◌&&◌, ◌||◌,
  Option, none, some, List, [], ◌∷◌, Assoc, assign, lookup, str_eq, is_empty, is_some, ◌==◌,
  if◌then◌else◌,
}
use chessy_mcp.Rules.ActionChoice.{Action}
use chessy_mcp.Rules.Status.{contains}
use chessy_mcp.Grading.Score.{is_play}
use chessy_mcp.Contracts.MateState.{
  Snapshot, MateState, no_mate, white_mates, black_mates, terminal_white_won, terminal_black_won,
  is_text, semantic_mate_state, coerce_legacy_signature,
}

-- a value in the dictionary `stability`
pub data Value : Type 0 where
  whole : ℤ → Value
  decimal : ℤ → Value
  text : String → Value
  flag : Bool → Value
  null : Value
  other : Value

pub record Wdl : Type 0 where
  pub wins : ℕ
  pub draws : ℕ
  pub losses : ℕ

-- what is read of an `MCPEval`; `turn` is that of the board for it, if one can be built
pub record Eval : Type 0 where
  pub snapshot : Snapshot
  pub turn : Option Bool
  pub wdl : Option Wdl
  pub best_move : Option String
  pub pv : List String

-- `strongest_reply` says whether the reply is forcing
pub record Evidence : Type 0 where
  pub detail : String
  pub stability : Assoc Value
  pub evidence_signatures : List String
  pub strongest_reply : Option Bool

pub record MoveAnalysis : Type 0 where
  pub action_type : Action
  pub same_outcome : Bool
  pub is_best_engine_move : Bool
  pub is_engine_best : Bool
  pub effective_loss : Option ℤ
  pub centipawn_loss : Option ℤ
  pub move_class : String
  pub eval_before : Eval
  pub eval_after : Eval
  pub forensics : Option Evidence

-- twice the mover's expected points, and the games they are of
unfoldable pub mover_points : Option Wdl → Bool → Option (ℕ × ℕ)
mover_points none mover = none
mover_points (some w) mover =
    let total = w.wins + w.draws + w.losses in
    if total == 0
    then none
    else some (if mover then 2 * w.wins + w.draws else 2 * w.losses + w.draws, total)

-- the nearest whole number
abbrev pub nearest : ℕ → ℕ → ℕ
nearest a b = (2 * a + b) / (2 * b)

-- what the mover's expectation falls by, in thousandths of a percentage point
unfoldable pub points_lost : Option Wdl → Option Wdl → Bool → Option ℤ
unfolding mover_points
points_lost first second mover = elim (mover_points first mover) [
  | none ↦ none
  | some (before, games) ↦ elim (mover_points second mover) [
    | none ↦ none
    | some (after, games') ↦
        some (pos (nearest (100000 * (before * games' - after * games)) (2 * games * games')))
  ]
]

-- `_wdl_loss_percentage_points`
unfoldable pub wdl_loss_points : MoveAnalysis → Bool → Option ℤ
unfolding points_lost
wdl_loss_points r mover = points_lost r.eval_before.wdl r.eval_after.wdl mover

unfoldable pub signature_text : MateState → String
signature_text no_mate = "no_mate"
signature_text white_mates = "white_mates"
signature_text black_mates = "black_mates"
signature_text terminal_white_won = "terminal_white_won"
signature_text terminal_black_won = "terminal_black_won"

-- `_mate_signature_from_eval`
unfoldable pub mate_signature : Eval → String
unfolding semantic_mate_state coerce_legacy_signature signature_text
mate_signature e = elim e.turn [
  | none ↦ "no_mate"
  | some turn ↦ signature_text (coerce_legacy_signature (semantic_mate_state turn e.snapshot none))
]

-- `bool(value)`
abbrev pub truthy : Option Value → Bool
truthy none = false
truthy (some (whole (pos n))) = not (n == 0)
truthy (some (whole (negsuc n))) = true
truthy (some (decimal (pos n))) = not (n == 0)
truthy (some (decimal (negsuc n))) = true
truthy (some (text s)) = not (is_empty s)
truthy (some (flag b)) = b
truthy (some null) = false
truthy (some other) = true

-- a number, in thousandths; a flag is an int
unfoldable pub thousandths : Option Value → Option ℤ
thousandths none = none
thousandths (some (whole (pos n))) = some (pos (1000 * n))
thousandths (some (whole (negsuc n))) = some (negsuc (1000 * n + 999))
thousandths (some (decimal d)) = some d
thousandths (some (text s)) = none
thousandths (some (flag b)) = some (if b then pos 1000 else pos 0)
thousandths (some null) = none
thousandths (some other) = none

unfoldable pub integer : Option Value → Option ℤ
integer none = none
integer (some (whole n)) = some n
integer (some (decimal d)) = none
integer (some (text s)) = none
integer (some (flag b)) = some (if b then pos 1 else pos 0)
integer (some null) = none
integer (some other) = none

unfoldable pub text_or : Option Value → String → String
text_or none s = s
text_or (some (whole n)) s = s
text_or (some (decimal d)) s = s
text_or (some (text t)) s = t
text_or (some (flag b)) s = s
text_or (some null) s = s
text_or (some other) s = s

abbrev pub or_else : Option ℤ → Option ℤ → Option ℤ
or_else none y = y
or_else (some x) y = some x

pub record Selected : Type 0 where
  pub is_verified : Bool
  pub wdl_loss : Option ℤ
  pub effective_loss : Option ℤ
  pub move_class : String
  pub mate_before : String
  pub mate_after : String

abbrev pub stability_of : Option Evidence → Assoc Value
stability_of none = []
stability_of (some e) = e.stability

-- `_selected_evidence`
unfoldable pub selected_evidence : MoveAnalysis → Bool → Selected
unfolding wdl_loss_points mate_signature thousandths integer text_or lookup
selected_evidence r mover =
    let stability = stability_of r.forensics in
    let verified = truthy (lookup "verification_performed" stability) in
    let entry : String → String → Option Value =
      λ first second. (if verified then lookup first stability else lookup second stability) in
    record {
      is_verified = verified;
      wdl_loss =
          or_else
            (thousandths
              (entry "verified_wdl_loss_percentage_points" "initial_wdl_loss_percentage_points"))
            (wdl_loss_points r mover);
      effective_loss =
          or_else (integer (entry "verified_effective_loss" "initial_effective_loss"))
            (or_else r.effective_loss r.centipawn_loss);
      move_class = text_or (entry "verified_class" "initial_class") r.move_class;
      mate_before =
          text_or (entry "verified_mate_before" "initial_mate_before")
            (mate_signature r.eval_before);
      mate_after =
          text_or (entry "verified_mate_after" "initial_mate_after") (mate_signature r.eval_after);
    }
