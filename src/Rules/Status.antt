-- ===== src/Rules/Status.antt =====
-- mcp_server/domain/rule_status.py and mcp_server/rules/status.py: what the rules say of a
-- position. Python iterates over a set in an order of its own: `list_of_set` is `list(set(…))`.

use chessy_mcp.Prelude.{
  String, Bool, false, not, ◌||◌, Option, none, some, List, [], ◌∷◌, ◌++◌, Assoc, if◌then◌else◌,
  str_eq,
}
use chessy_mcp.Rules.ActionChoice.{Action, game_over}

-- The moves of `intended_claim_moves` are named by `intended_claim_ucis`.
pub record RuleStatus : Type 0 where
  pub terminal : Option String
  pub winner : Option String
  pub can_claim_now : Bool
  pub claim_reasons_now : List String
  pub can_claim_with_intended_move : Bool
  pub intended_claim_sans : List String
  pub intended_claim_ucis : List String
  pub intended_claim_reasons_by_uci : Assoc (List String)
  pub claim_reasons : List String
  pub can_claim_draw : Bool
  pub claim_moves : List String
  pub claim_move : Option String
  pub claim_move_uci : Option String
  pub claim_move_san : Option String
  pub recommended_action : Action
  pub history_dependent_status : Bool
  pub requires_move_stack : Bool
  pub fen_sufficient_for_status : Bool
  pub history_completeness : String
  pub repetition_status : String
  pub repetition_sufficient_without_history : Bool

abbrev pub contains : String → List String → Bool
contains s [] = false
contains s (t ∷ l) = let rest = contains s l in str_eq s t || rest

abbrev pub first {ℓ} : {A : Type ℓ} → List A → Option A
first [] = none
first (a ∷ l) = some a

abbrev filter_out : String → List String → List String
filter_out s [] = []
filter_out s (t ∷ l) = let rest = filter_out s l in if str_eq s t then rest else t ∷ rest

-- `dict.fromkeys`
abbrev pub without_repeats : List String → List String
without_repeats [] = []
without_repeats (s ∷ l) = s ∷ filter_out s (without_repeats l)

abbrev pub all_reasons : Assoc (List String) → List String
all_reasons [] = []
all_reasons ((k, reasons) ∷ l) = reasons ++ all_reasons l

-- `TERMINAL_VS_HISTORY_INDEPENDENT`
abbrev pub is_history_independent : String → Bool
is_history_independent terminal = contains terminal (
    "checkmate" ∷ "stalemate" ∷ "insufficient_material" ∷ "seventyfive_moves" ∷ "dead_position"
    ∷ [])

-- the arguments `terminal`, `winner`, `history_dep`, `repetition` and `history_state`
unfoldable pub make_rule_status : String → Option String → Bool → String → String → RuleStatus
make_rule_status terminal winner history_dep repetition history_state = record {
  terminal = some terminal;
  winner = winner;
  can_claim_now = false;
  claim_reasons_now = [];
  can_claim_with_intended_move = false;
  intended_claim_sans = [];
  intended_claim_ucis = [];
  intended_claim_reasons_by_uci = [];
  claim_reasons = [];
  can_claim_draw = false;
  claim_moves = [];
  claim_move = none;
  claim_move_uci = none;
  claim_move_san = none;
  recommended_action = game_over;
  history_dependent_status = history_dep;
  requires_move_stack = history_dep;
  fen_sufficient_for_status = not history_dep;
  history_completeness = if is_history_independent terminal then "not_required" else history_state;
  repetition_status = repetition;
  repetition_sufficient_without_history = not history_dep;
}

-- `str | bool`
pub data HistoryValue : Type 0 where
  flag : Bool → HistoryValue
  word : String → HistoryValue

-- `none` is the `ValueError`.
unfoldable pub normalize_history_state : HistoryValue → Option String
normalize_history_state (flag b) = some (if b then "complete" else "incomplete")
normalize_history_state (word s) =
    if contains s ("complete" ∷ "partial" ∷ "incomplete" ∷ "not_required" ∷ [])
    then some s
    else none

pub record ClaimProofs (Move : Type 0) : Type 0 where
  pub can_claim_now : Bool
  pub reasons_now : List String
  pub intended : List Move
  pub reasons_by_uci : Assoc (List String)
