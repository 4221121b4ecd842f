-- ===== src/Analysis/Reconcile/Result.antt =====
-- `reconcile_result` of mcp_server/analysis/result_reconciliation.py, with the warnings of
-- reconciliation_warnings.py.
use chessy_mcp.Prelude.{
  ℕ, ltb, String, Bool, true, false, not, ◌&&◌, ◌||◌, Option, none, some, List, [], ◌∷◌, ◌++◌,
  str_eq, lower, strip, contains_text, if◌then◌else◌,
}
use chessy_mcp.Chess.{Chess}
use chessy_mcp.Rules.Status.{RuleStatus, contains, word}
use chessy_mcp.Rules.Evaluate.{evaluate_rule_status}
use chessy_mcp.Rules.Pv.{Law, validate_mating_possibility}
use chessy_mcp.Analysis.Reconcile.{
  Warning, cannot_mate, unrecognised_termination, contradictory_metadata, premature_agreement,
  GameMetadata, full, warn_if, pick_result_value, infer_from_termination, is_one_of,
  resolve_termination,
}

pub record ReconciledResult : Type 0 where
  pub result : String
  pub termination : Option String
  pub warnings : List Warning
  pub auto_termination : Option String
  pub result_inferred : Option String

abbrev pub any_in : String → List String → Bool
any_in t [] = false
any_in t (part ∷ parts) = let rest = any_in t parts in contains_text part t || rest

abbrev pub known_terminations : List String
known_terminations =
    "" ∷ "Normal" ∷ "Time forfeit" ∷ "Rules infraction" ∷ "Abandoned" ∷ "Unterminated" ∷ []

abbrev pub known_words : List String
known_words =
    "resign" ∷ "checkmate" ∷ "stalemate" ∷ "time" ∷ "abandon" ∷ "rule" ∷ "draw" ∷ "repetition"
    ∷ "insufficient" ∷ "50-move" ∷ "75-move" ∷ []

abbrev pub drawing_terminations : List String
drawing_terminations =
    "stalemate" ∷ "insufficient_material" ∷ "fifty_moves" ∷ "seventyfive_moves"
    ∷ "threefold_repetition" ∷ "fivefold_repetition" ∷ "dead_position" ∷ []

-- the condition of `emit_strict_termination_warning`
unfoldable pub is_unrecognised : Option String → String → Bool
unfolding strip lower contains_text
is_unrecognised (some norm) header = false
is_unrecognised none header =
    not (contains (strip header) known_terminations)
    && not (any_in (lower (strip header)) known_words)

-- the conditions of `emit_contradiction_warnings`
unfoldable pub is_contradictory : Option String → String → Bool
is_contradictory norm result =
    (is_one_of norm drawing_terminations && contains result ("1-0" ∷ "0-1" ∷ []))
    || (is_one_of norm ("checkmate" ∷ []) && contains result ("1/2-1/2" ∷ "*" ∷ []))
    || (is_one_of norm ("unterminated" ∷ []) && contains result ("1-0" ∷ "0-1" ∷ "1/2-1/2" ∷ []))

abbrev pub law_warning : Option Law → List Warning
law_warning none = []
law_warning (some law) = cannot_mate law ∷ []

abbrev pub none_or_star : Option String → Bool
none_or_star none = true
none_or_star (some s) = str_eq s "*"

-- `compute_result_inferred`
unfoldable pub compute_result_inferred :
    Option String → String → Option String → Option String → Option String
compute_result_inferred (some board) result raw movetext = some board
compute_result_inferred none result raw movetext =
    if none_or_star raw && none_or_star movetext && contains result ("1-0" ∷ "0-1" ∷ "1/2-1/2" ∷ [])
    then some result
    else none

module _ (c : Chess) (list_of_set : List String → List String)
    (normalize : String → Option String) where
  open c use {Board, turn}

  -- the result and the termination that the board shows
  unfoldable pub board_result : Board → Option String → Option String × Option String
  board_result b none = (none, none)
  board_result b (some terminal) = (
    some (if str_eq terminal "checkmate" then (if turn b then "0-1" else "1-0") else "1/2-1/2"),
    some terminal,
  )

  abbrev pub terminal_of : Option RuleStatus → Option String
  terminal_of none = none
  terminal_of (some s) = s.terminal

  -- the warnings at the end, of a header that is there
  unfoldable pub header_warnings : Bool → Option String → String → ℕ → List Warning
  unfolding is_unrecognised is_contradictory lower contains_text
  header_warnings strict header result moves_count = elim (full header) [
    | none ↦ []
    | some text ↦
        warn_if (strict && is_unrecognised (normalize text) text) unrecognised_termination
        ++ (warn_if (is_contradictory (normalize text) result) contradictory_metadata
            ++ warn_if (contains_text "agreement" (lower text) && ltb moves_count 2)
                premature_agreement)
  ]

  -- the result before the material is looked at
  unfoldable pub claimed_result : Option String → GameMetadata → Option String → String
  unfolding pick_result_value infer_from_termination
  claimed_result board m movetext =
      let picked = (pick_result_value board m movetext).0 in
      if str_eq picked "*"
      then elim (infer_from_termination m.termination_header) [
        | none ↦ picked
        | some inferred ↦ inferred
      ]
      else picked

  unfoldable pub reconcile_result :
      Board → GameMetadata → Option String → ℕ → Bool → ReconciledResult
  unfolding board_result
  reconcile_result b m movetext moves_count strict =
      let terminal =
        terminal_of (evaluate_rule_status c list_of_set b none none (word "complete") none none) in
      let (board, auto) = board_result b terminal in
      let claimed = claimed_result board m movetext in
      let (result, law) = validate_mating_possibility c b claimed m.termination_header in
      let (termination, disputes) = resolve_termination c normalize b m.termination_header auto in
      record {
        result = result;
        termination = termination;
        warnings =
            m.metadata_warnings
            ++ ((pick_result_value board m movetext).1
                ++ (law_warning law
                    ++ (disputes
                        ++ header_warnings strict m.termination_header result moves_count)));
        auto_termination = auto;
        result_inferred = compute_result_inferred board result m.result_header_raw movetext;
      }
