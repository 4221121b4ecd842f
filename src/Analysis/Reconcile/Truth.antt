-- ===== src/Analysis/Reconcile/Truth.antt =====
-- The board has the last word in mcp_server/analysis/result_reconciliation.py.
use chessy_mcp.Prelude.{
  ℕ, String, ◌≡◌, refl, Bool, true, false, not, ◌||◌, Option, none, some, List, Bool-cases, inl,
  inr, str_eq, is_empty, if◌then◌else◌,
}
use chessy_mcp.Chess.{Chess}
use chessy_mcp.Rules.Status.{word}
use chessy_mcp.Rules.Evaluate.{evaluate_rule_status}
use chessy_mcp.Rules.Terminal.{can_checkmate}
use chessy_mcp.Rules.Pv.{Law, law_of, downgraded, validate_mating_possibility}
use chessy_mcp.Analysis.Reconcile.{GameMetadata, resolve_termination}
use chessy_mcp.Analysis.Reconcile.Result.{
  terminal_of, claimed_result, compute_result_inferred, reconcile_result,
}

module _ (c : Chess) (list_of_set : List String → List String)
    (normalize : String → Option String) where
  open c use {Board, turn}

  -- what a terminal position says of the result
  abbrev pub shown_result : Board → String → String
  shown_result b terminal =
      if str_eq terminal "checkmate" then (if turn b then "0-1" else "1-0") else "1/2-1/2"

  -- how the position has ended, if it has
  abbrev pub ending : Board → Option String
  ending b =
      terminal_of c list_of_set normalize
        (evaluate_rule_status c list_of_set b none none (word "complete") none none)

  claimed-shown :
      (b : Board) (terminal : String) (m : GameMetadata) (movetext : Option String)
      → claimed_result c list_of_set normalize (some (shown_result b terminal)) m movetext
        ≡ shown_result b terminal
  unfolding claimed_result
  claimed-shown b terminal m movetext = elim (Bool-cases (str_eq terminal "checkmate")) [
    | inr e ↦ rw e refl
    | inl e ↦ elim (Bool-cases (turn b)) [ inl t ↦ rw (e, t) refl | inr t ↦ rw (e, t) refl ]
  ]

  won_downgraded :
      (b : Board) (law : Law)
      → can_checkmate c b true ≡ true
      → downgraded c b law "1-0" ≡ ("1-0", none)
  unfolding downgraded
  won_downgraded b law h = rw h refl

  lost_downgraded :
      (b : Board) (law : Law)
      → can_checkmate c b false ≡ true
      → downgraded c b law "0-1" ≡ ("0-1", none)
  unfolding downgraded
  lost_downgraded b law h = rw h refl

  drawn_downgraded : (b : Board) (law : Law) → downgraded c b law "1/2-1/2" ≡ ("1/2-1/2", none)
  unfolding downgraded
  drawn_downgraded b law = refl

  downgraded-shown :
      (b : Board) (terminal : String) (law : Law)
      → (str_eq terminal "checkmate" ≡ true → can_checkmate c b (not (turn b)) ≡ true)
      → downgraded c b law (shown_result b terminal) ≡ (shown_result b terminal, none)
  downgraded-shown b terminal law h = elim (Bool-cases (str_eq terminal "checkmate")) [
    | inr e ↦ rw e (drawn_downgraded b law)
    | inl e ↦ elim (Bool-cases (turn b)) [
      | inl t ↦ rw (e, t) (lost_downgraded b law (rw t at (h e)))
      | inr t ↦ rw (e, t) (won_downgraded b law (rw t at (h e)))
    ]
  ]

  by_law :
      (b : Board) (result : String) (o : Option Law)
      → ((law : Law) → downgraded c b law result ≡ (result, none))
      → ◌≡◌ {A = String × Option Law}
          (elim o [ none ↦ (result, none) | some law ↦ downgraded c b law result ])
          (result, none)
  by_law b result none h = refl
  by_law b result (some law) h = h law

  validated-shown :
      (b : Board) (terminal : String) (header : Option String)
      → (str_eq terminal "checkmate" ≡ true → can_checkmate c b (not (turn b)) ≡ true)
      → validate_mating_possibility c b (shown_result b terminal) header
        ≡ (shown_result b terminal, none)
  unfolding validate_mating_possibility
  validated-shown b terminal none h = refl
  validated-shown b terminal (some text) h =
      elim (Bool-cases (is_empty text || is_empty (shown_result b terminal))) [
        | inl e ↦ rw e refl
        | inr e ↦ rw e (
            by_law b (shown_result b terminal) (law_of text)
              (λ law. downgraded-shown b terminal law h))
      ]

  resolved-board :
      (b : Board) (header : Option String) (terminal : String)
      → (resolve_termination c normalize b header (some terminal)).0 ≡ some terminal
  unfolding resolve_termination
  resolved-board b header terminal = refl

  -- Where the final position has ended the game (and, if by checkmate, the side that mates has the
  -- material for it): the result and the inferred result are what the board shows, and the
  -- termination is the board's, whatever the headers and the movetext say.
  pub reconcile_result_lem :
      (b : Board) (terminal : String) (m : GameMetadata) (movetext : Option String)
      (moves_count : ℕ) (strict : Bool)
      → ending b ≡ some terminal
      → (str_eq terminal "checkmate" ≡ true → can_checkmate c b (not (turn b)) ≡ true)
      → let r = reconcile_result c list_of_set normalize b m movetext moves_count strict in
        (r.result ≡ shown_result b terminal)
        × (r.termination ≡ some terminal)
        × (r.auto_termination ≡ some terminal)
        × (r.result_inferred ≡ some (shown_result b terminal))
  unfolding reconcile_result compute_result_inferred
  reconcile_result_lem b terminal m movetext moves_count strict e h =
      rw (e, claimed-shown b terminal m movetext, validated-shown b terminal m.termination_header h)
        (refl, resolved-board b m.termination_header terminal, refl, refl)
