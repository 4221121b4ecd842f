-- ===== src/Rules/Evaluate/Terminality.antt =====
-- mcp_server/rules/status.py against mcp_server/rules/terminal.py: whether a position is over.
use chessy_mcp.Prelude.{
  ◌≡◌, String, Bool, true, false, ◌||◌, Option, none, some, List, ℤ, arith, refl, ◌∙◌, is_some,
}
use chessy_mcp.Chess.{Chess}
use chessy_mcp.Rules.Terminal.{is_terminal_position}
use chessy_mcp.Rules.Status.{RuleStatus, flag, normalize_history_state, make_rule_status}
use chessy_mcp.Rules.Evaluate.{evaluate_rule_status, status_in, terminal_status, open_status}

-- an error does not say that the position is over
abbrev pub is_over : Option RuleStatus → Bool
is_over none = false
is_over (some s) = is_some s.terminal

module _ (c : Chess) (list_of_set : List String → List String) where
  open c use {Board}

  terminal_status-over :
      (b : Board) (state : String)
      → is_some (terminal_status c list_of_set b true state)
        ≡ (is_terminal_position c b || c.is_game_over b)
  unfolding terminal_status is_terminal_position
  terminal_status-over b state = ground arith

  all_over :
      (b : Board) (h : Bool) (state : String) (t : RuleStatus)
      → t.terminal ≡ none
      → is_over (some (elim (terminal_status c list_of_set b h state) [ some s ↦ s | none ↦ t ]))
        ≡ is_some (terminal_status c list_of_set b h state)
  unfolding terminal_status make_rule_status
  all_over b h state t e = ground (arith, e)

  -- With the whole history, the status of a position says that it is over just if
  -- `is_terminal_position` or python-chess says so.
  pub evaluate_rule_status-is_terminal_position :
      (b : Board) (score mate zs zm : Option ℤ)
      → is_over (evaluate_rule_status c list_of_set b score mate (flag true) zs zm)
        ≡ (is_terminal_position c b || c.is_game_over b)
  unfolding evaluate_rule_status status_in normalize_history_state open_status
  evaluate_rule_status-is_terminal_position b score mate zs zm =
      all_over b true "complete" (open_status c list_of_set b score mate zs zm true true "complete")
        refl
      ∙ terminal_status-over b "complete"
