-- ===== src/Domain/Action/Legal/Best.antt =====
-- The best action of mcp_server/domain/action.py is the one that mcp_server/rules/status.py
-- recommends, and it is legal.
use mathlib.Core.List.{Mem, mem-append_left, mem-append_right}
use chessy_mcp.Prelude.{
  ℤ, String, ◌≡◌, refl, ◌⊎◌, inl, inr, true, false, Option, none, some, List, ◌++◌, arith, is_empty,
}
use chessy_mcp.Chess.{Chess}
use chessy_mcp.Rules.ActionChoice.{
  Action, play_move, claim_draw, claim_draw_with_intended_move, game_over,
}
use chessy_mcp.Rules.Status.{RuleStatus, HistoryValue, first}
use chessy_mcp.Rules.Evaluate.{evaluate_rule_status}
use chessy_mcp.Rules.Evaluate.Claims.{IsCoherent, evaluate_rule_status-IsCoherent}
use chessy_mcp.Domain.Action.{
  GameAction, EngineEval, type_of, over_action, build_best_action, engine_actions, now_claims,
  intended_claims, over_actions, build_legal_actions,
}
use chessy_mcp.Domain.Action.Legal.{
  IsBacked, now_claims-Mem, intended_claims-Mem, over_actions-Mem, named_first_uci, some_text,
  best_claim, best_intended, best_over, best_play, best_play-Plays, Plays, engine_text,
}
use chessy_mcp.Domain.Action.Legal.Backed.{evaluate_rule_status-IsBacked}

type_of-over_action :
    (s : RuleStatus) (terminal : String) → type_of (over_action s terminal) ≡ game_over
unfolding over_action
type_of-over_action s terminal = ground arith

module _ (c : Chess) where
  open c use {Board}

  -- the type that is recommended, and the engine's move or a legal action
  abbrev pub IsFit :
      RuleStatus → Option EngineEval → Option Board → List EngineEval → GameAction → Type 0
  IsFit s engine board moves best =
      (type_of best ≡ s.recommended_action)
      × (Plays c (engine_text c engine) best ⊎ Mem best (build_legal_actions c s board moves))

  legal_now :
      (s : RuleStatus) (board : Option Board) (moves : List EngineEval) (a : GameAction)
      → Mem a (now_claims s)
      → Mem a (build_legal_actions c s board moves)
  unfolding build_legal_actions
  legal_now s board moves a h =
      mem-append_left (intended_claims s ++ (engine_actions c board moves ++ over_actions s)) h

  legal_intended :
      (s : RuleStatus) (board : Option Board) (moves : List EngineEval) (a : GameAction)
      → Mem a (intended_claims s)
      → Mem a (build_legal_actions c s board moves)
  unfolding build_legal_actions
  legal_intended s board moves a h =
      mem-append_right (now_claims s)
        (mem-append_left (engine_actions c board moves ++ over_actions s) h)

  legal_over :
      (s : RuleStatus) (board : Option Board) (moves : List EngineEval) (a : GameAction)
      → Mem a (over_actions s)
      → Mem a (build_legal_actions c s board moves)
  unfolding build_legal_actions
  legal_over s board moves a h =
      mem-append_right (now_claims s)
        (mem-append_right (intended_claims s) (mem-append_right (engine_actions c board moves) h))

  over-IsFit :
      (s : RuleStatus) (engine : Option EngineEval) (board : Option Board) (moves : List EngineEval)
      (terminal : String)
      → s.terminal ≡ some terminal
      → IsCoherent s
      → IsFit s engine board moves (build_best_action c s.recommended_action s engine board)
  over-IsFit s engine board moves terminal t h =
      let e = best_over c s.recommended_action s engine board terminal t in
      (
        ground (arith, e, t, h.0, type_of-over_action s terminal),
        inr (rw e (legal_over s board moves _ (over_actions-Mem s terminal t))),
      )

  intended-IsFit :
      (s : RuleStatus) (engine : Option EngineEval) (board : Option Board) (moves : List EngineEval)
      → s.terminal ≡ none
      → IsBacked s
      → s.can_claim_with_intended_move ≡ true
      → (type_of (build_best_action c claim_draw_with_intended_move s engine board)
          ≡ claim_draw_with_intended_move)
        × Mem
            (build_best_action c claim_draw_with_intended_move s engine board)
            (build_legal_actions c s board moves)
  intended-IsFit s engine board moves t b h =
      let (some_uci, some_san) = b.named_first h in
      let (uci, hu, hn) = named_first_uci (first s.intended_claim_ucis) some_uci in
      let (san, hs) = some_text (first s.intended_claim_sans) some_san in
      let e = best_intended c s engine board uci san t b h hn hs in
      (rw e refl, rw e (legal_intended s board moves _ (intended_claims-Mem s uci san b h hu hs)))

  now-IsFit :
      (s : RuleStatus) (engine : Option EngineEval) (board : Option Board) (moves : List EngineEval)
      → s.terminal ≡ none
      → IsBacked s
      → s.can_claim_now ≡ true
      → (type_of (build_best_action c claim_draw s engine board) ≡ claim_draw)
        × Mem (build_best_action c claim_draw s engine board) (build_legal_actions c s board moves)
  now-IsFit s engine board moves t b h =
      let e = best_claim c s engine board t h in
      (rw e refl, rw e (legal_now s board moves _ (now_claims-Mem s b h)))

  open-IsFit :
      (s : RuleStatus) (engine : Option EngineEval) (board : Option Board) (moves : List EngineEval)
      (r : Action)
      → s.terminal ≡ none
      → s.recommended_action ≡ r
      → IsCoherent s
      → IsBacked s
      → IsFit s engine board moves (build_best_action c r s engine board)
  open-IsFit s engine board moves play_move t e h b =
      let p = best_play c s engine board t in
      (ground (arith, p, e), inl (best_play-Plays c s engine board t))
  open-IsFit s engine board moves claim_draw t e h b =
      let (p, m) = now-IsFit s engine board moves t b (h.3 e) in (ground (arith, p, e), inr m)
  open-IsFit s engine board moves claim_draw_with_intended_move t e h b =
      let (p, m) = intended-IsFit s engine board moves t b (h.4 e).1 in
      (ground (arith, p, e), inr m)
  open-IsFit s engine board moves game_over t e h b = absurd (h.2 e t)

  build_best_action-IsFit :
      (s : RuleStatus) (engine : Option EngineEval) (board : Option Board) (moves : List EngineEval)
      (o : Option String)
      → s.terminal ≡ o
      → IsCoherent s
      → IsBacked s
      → IsFit s engine board moves (build_best_action c s.recommended_action s engine board)
  build_best_action-IsFit s engine board moves none t h b =
      open-IsFit s engine board moves s.recommended_action t refl h b
  build_best_action-IsFit s engine board moves (some terminal) t h b =
      over-IsFit s engine board moves terminal t h

  -- If no move has an empty UCI text: for every status that `evaluate_rule_status` gives, the best
  -- action has the type that the status recommends, and it is among the legal actions, unless it
  -- plays the engine's best move, or a move without a text where the engine gives none.
  pub best_action_lem :
      (list_of_set : List String → List String) (b : Board) (score mate : Option ℤ)
      (history : HistoryValue) (zs zm : Option ℤ) (s : RuleStatus) (engine : Option EngineEval)
      (board : Option Board) (moves : List EngineEval)
      → ((m : c.Move) → is_empty (c.uci m) ≡ false)
      → evaluate_rule_status c list_of_set b score mate history zs zm ≡ some s
      → IsFit s engine board moves (build_best_action c s.recommended_action s engine board)
  best_action_lem list_of_set b score mate history zs zm s engine board moves u e =
      build_best_action-IsFit s engine board moves s.terminal refl
        (evaluate_rule_status-IsCoherent c list_of_set b score mate history zs zm s e)
        (evaluate_rule_status-IsBacked c list_of_set b score mate history zs zm s u e)
