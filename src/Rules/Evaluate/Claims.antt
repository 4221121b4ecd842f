-- ===== src/Rules/Evaluate/Claims.antt =====
-- Which draw claims mcp_server/rules/status.py allows and recommends.
use chessy_mcp.Prelude.{
  ℤ, ◌≡◌, String, Bool, true, false, ◌||◌, ◌⊎◌, Option, none, some, List, arith, subst, str_eq,
}
use chessy_mcp.Chess.{Chess}
use chessy_mcp.Rules.ActionChoice.{
  play_move, claim_draw, claim_draw_with_intended_move, game_over, choose_recommended_action,
}
use chessy_mcp.Rules.DeadPosition.{is_nonempty}
use chessy_mcp.Rules.Status.{RuleStatus, HistoryValue, make_rule_status, normalize_history_state}
use chessy_mcp.Rules.Evaluate.{
  evaluate_rule_status, status_in, terminal_status, open_status, collect_claim_proofs,
}

-- what a status says of the action and of the claims agrees
abbrev pub IsCoherent : RuleStatus → Type 0
IsCoherent s =
    ((s.terminal ≡ none) ⊎ (s.recommended_action ≡ game_over))
    × ((s.terminal ≡ none) ⊎ ((s.can_claim_now ≡ false) × (s.can_claim_with_intended_move ≡ false)))
    × (s.recommended_action ≡ game_over → ¬ (s.terminal ≡ none))
    × (s.recommended_action ≡ claim_draw → s.can_claim_now ≡ true)
    × (s.recommended_action ≡ claim_draw_with_intended_move
        → (s.can_claim_now ≡ false) × (s.can_claim_with_intended_move ≡ true))
    × (s.can_claim_draw ≡ (s.can_claim_now || s.can_claim_with_intended_move))

abbrev AllCoherent : Option RuleStatus → Type 0
AllCoherent none = Unit
AllCoherent (some s) = IsCoherent s

or_open-IsCoherent :
    (o : Option RuleStatus) (t : RuleStatus)
    → AllCoherent o
    → IsCoherent t
    → IsCoherent (elim o [ some s ↦ s | none ↦ t ])
or_open-IsCoherent none t h k = k
or_open-IsCoherent (some s) t h k = h

some-AllCoherent :
    (o : Option String) (f : String → RuleStatus)
    → ((x : String) → IsCoherent (f x))
    → AllCoherent (elim o [ none ↦ none | some x ↦ some (f x) ])
some-AllCoherent none f h = tt
some-AllCoherent (some x) f h = h x

module _ (c : Chess) (list_of_set : List String → List String) where
  open c use {Board}

  chosen :
      (b : Board) (now intended : Bool) (score mate zs zm : Option ℤ)
      → let a = choose_recommended_action c b now intended score mate zs zm in
        (a ≡ play_move)
        ⊎ ((a ≡ claim_draw) × (now ≡ true))
        ⊎ ((a ≡ claim_draw_with_intended_move) × (now ≡ false) × (intended ≡ true))
  unfolding choose_recommended_action
  chosen b now intended score mate zs zm = ground arith

  terminal-IsCoherent :
      (b : Board) (h : Bool) (state : String)
      → AllCoherent (terminal_status c list_of_set b h state)
  unfolding terminal_status make_rule_status
  terminal-IsCoherent b h state = ground arith

  open-IsCoherent :
      (b : Board) (score mate zs zm : Option ℤ) (h full : Bool) (state : String)
      → IsCoherent (open_status c list_of_set b score mate zs zm h full state)
  unfolding open_status
  open-IsCoherent b score mate zs zm h full state =
      let p = collect_claim_proofs c list_of_set b h in
      ground (arith, chosen b p.can_claim_now (is_nonempty p.intended) score mate zs zm)

  status_in-IsCoherent :
      (b : Board) (score mate zs zm : Option ℤ) (state : String)
      → IsCoherent (status_in c list_of_set b score mate zs zm state)
  unfolding status_in
  status_in-IsCoherent b score mate zs zm state =
      let full = str_eq state "complete" in
      let has = full || str_eq state "partial" in
      or_open-IsCoherent (terminal_status c list_of_set b has state)
        (open_status c list_of_set b score mate zs zm has full state)
        (terminal-IsCoherent b has state) (open-IsCoherent b score mate zs zm has full state)

  -- In every status that is evaluated the action agrees with the rest: `game_over` is recommended
  -- just where the position is over, where no claim is offered; a claim is recommended only if it
  -- is offered, and one with an intended move only if no immediate one is; and a draw can be
  -- claimed just if one of the two claims can be made.
  pub evaluate_rule_status-IsCoherent :
      (b : Board) (score mate : Option ℤ) (history : HistoryValue) (zs zm : Option ℤ)
      (s : RuleStatus)
      → evaluate_rule_status c list_of_set b score mate history zs zm ≡ some s
      → IsCoherent s
  unfolding evaluate_rule_status
  evaluate_rule_status-IsCoherent b score mate history zs zm s e = subst AllCoherent e (
      some-AllCoherent (normalize_history_state history)
        (status_in c list_of_set b score mate zs zm) (status_in-IsCoherent b score mate zs zm))
