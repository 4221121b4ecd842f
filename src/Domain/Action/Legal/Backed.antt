-- ===== src/Domain/Action/Legal/Backed.antt =====
-- The statuses of `evaluate_rule_status` (mcp_server/rules/status.py) have the reasons that
-- mcp_server/domain/action.py reads, and the best action is legal.
use chessy_mcp.Prelude.{
  ℤ, String, ◌≡◌, refl, inl, inr, Bool, true, false, ◌||◌, Option, none, some, List, [], ◌∷◌, map,
  arith, Bool-cases, Assoc, assign, lookup, lookup-assign, is_some, is_empty, str_eq, eq_iff, subst,
}
use chessy_mcp.Chess.{Chess}
use chessy_mcp.Rules.DeadPosition.{is_nonempty}
use chessy_mcp.Rules.Status.{
  RuleStatus, HistoryValue, first, make_rule_status, normalize_history_state,
}
use chessy_mcp.Rules.Evaluate.{
  evaluate_rule_status, status_in, terminal_status, open_status, reasons_for_move, intended_moves,
  reasons_of, san_or_uci,
}
use chessy_mcp.Domain.Action.{first_reason, found_list, or_list, reasons_for, is_draw_reason}
use chessy_mcp.Domain.Action.Legal.{is_named, IsBacked}

-- a list of reasons whose first one is valid
abbrev pub has_valid_first : Option (List String) → Bool
has_valid_first none = false
has_valid_first (some []) = false
has_valid_first (some (reason ∷ reasons)) = is_draw_reason reason

module _ (c : Chess) (list_of_set : List String → List String) where
  open c use {Board, Move, uci, legal_moves}

  reasons_for_move-valid :
      (b : Board) (h : Bool) (m : Move)
      → is_nonempty (reasons_for_move c list_of_set b h m) ≡ true
      → has_valid_first (some (reasons_for_move c list_of_set b h m)) ≡ true
  unfolding reasons_for_move
  reasons_for_move-valid b h m e = ground (arith, e)

  -- each move has a reason
  abbrev AllReasoned : Board → Bool → List Move → Type 0
  AllReasoned b h [] = Unit
  AllReasoned b h (m ∷ moves) =
      (is_nonempty (reasons_for_move c list_of_set b h m) ≡ true) × AllReasoned b h moves

  intended_moves-AllReasoned :
      (b : Board) (h : Bool) (moves : List Move)
      → AllReasoned b h (intended_moves c list_of_set b h moves)
  unfolding intended_moves
  intended_moves-AllReasoned b h [] = tt
  intended_moves-AllReasoned b h (m ∷ moves) =
      let rest = intended_moves-AllReasoned b h moves in
      elim (Bool-cases (is_nonempty (reasons_for_move c list_of_set b h m))) [
        | inl e ↦ ground (arith, e, rest)
        | inr e ↦ ground (arith, e, rest)
      ]

  -- what is written for a key stays valid
  reasons_of-keeps :
      (b : Board) (h : Bool) (moves : List Move) (key : String) (d : Assoc (List String))
      → AllReasoned b h moves
      → has_valid_first (lookup key d) ≡ true
      → has_valid_first (lookup key (reasons_of c list_of_set b h moves d)) ≡ true
  unfolding reasons_of
  reasons_of-keeps b h [] key d a v = v
  reasons_of-keeps b h (m ∷ moves) key d a v =
      reasons_of-keeps b h moves key (assign (uci m) (reasons_for_move c list_of_set b h m) d) a.1 (
        ground (
          arith,
          v,
          lookup-assign (uci m) key (reasons_for_move c list_of_set b h m) d,
          reasons_for_move-valid b h m a.0,
        ))

  reasons_of-first :
      (b : Board) (h : Bool) (m : Move) (moves : List Move) (d : Assoc (List String))
      → AllReasoned b h (m ∷ moves)
      → has_valid_first (lookup (uci m) (reasons_of c list_of_set b h (m ∷ moves) d)) ≡ true
  unfolding reasons_of
  reasons_of-first b h m moves d a =
      reasons_of-keeps b h moves (uci m) (assign (uci m) (reasons_for_move c list_of_set b h m) d)
        a.1
        (ground (
          arith,
          eq_iff (uci m) (uci m),
          lookup-assign (uci m) (uci m) (reasons_for_move c list_of_set b h m) d,
          reasons_for_move-valid b h m a.0,
        ))

  first_reasons-valid :
      (b : Board) (h : Bool) (text : String) (moves : List Move)
      → AllReasoned b h moves
      → first (map uci moves) ≡ some text
      → has_valid_first (lookup text (reasons_of c list_of_set b h moves [])) ≡ true
  first_reasons-valid b h text [] a e = absurd (ground (arith, e))
  first_reasons-valid b h text (m ∷ moves) a e =
      let same : uci m ≡ text = ground (arith, e) in
      subst (λ x. has_valid_first (lookup x (reasons_of c list_of_set b h (m ∷ moves) [])) ≡ true)
        same (reasons_of-first b h m moves [] a)

  valid_found :
      (o : Option (List String)) (others : List String)
      → has_valid_first o ≡ true
      → is_draw_reason (first_reason (or_list (found_list o) others)) ≡ true
  valid_found none others h = absurd (ground (arith, h))
  valid_found (some []) others h = absurd (ground (arith, h))
  valid_found (some (reason ∷ reasons)) others h = h

  first_names :
      (b : Board) (moves : List Move)
      → ((m : Move) → is_empty (uci m) ≡ false)
      → is_nonempty moves ≡ true
      → (is_named (first (map uci moves)) ≡ true)
        × (is_some (first (map (san_or_uci c list_of_set b) moves)) ≡ true)
  first_names b [] u h = absurd (ground (arith, h))
  first_names b (m ∷ moves) u h = (ground (arith, u m), refl)

  open-IsBacked :
      (b : Board) (score mate zs zm : Option ℤ) (h full : Bool) (state : String)
      → ((m : Move) → is_empty (uci m) ≡ false)
      → IsBacked (open_status c list_of_set b score mate zs zm h full state)
  unfolding open_status reasons_for
  open-IsBacked b score mate zs zm h full state u = record {
    reason = λ e. ground (arith, e);
    named_first = λ e. first_names b (intended_moves c list_of_set b h (legal_moves b)) u e;
    same_first = (refl, refl, refl);
    valid = λ text e f.
        valid_found
          (lookup text
            (reasons_of c list_of_set b h (intended_moves c list_of_set b h (legal_moves b)) []))
          _
          (first_reasons-valid b h text (intended_moves c list_of_set b h (legal_moves b))
            (intended_moves-AllReasoned b h (legal_moves b)) f);
  }

  -- a status without claims
  abbrev IsClosed : RuleStatus → Type 0
  IsClosed s =
      (s.can_claim_now ≡ false)
      × (s.can_claim_with_intended_move ≡ false)
      × (s.claim_move_uci ≡ first s.intended_claim_ucis)
      × (s.claim_move_san ≡ first s.intended_claim_sans)
      × (s.claim_move ≡ first s.intended_claim_sans)

  IsClosed-IsBacked : (s : RuleStatus) → IsClosed s → IsBacked s
  IsClosed-IsBacked s h = record {
    reason = λ e. absurd (ground (arith, e, h));
    named_first = λ e. absurd (ground (arith, e, h));
    same_first = (h.2, h.3, h.4);
    valid = λ uci e f. absurd (ground (arith, e, h));
  }

  AllClosed : Option RuleStatus → Type 0
  AllClosed none = Unit
  AllClosed (some s) = IsClosed s

  terminal_status-AllClosed :
      (b : Board) (h : Bool) (state : String) → AllClosed (terminal_status c list_of_set b h state)
  unfolding terminal_status make_rule_status AllClosed
  terminal_status-AllClosed b h state = ground arith

  or_open-IsBacked :
      (o : Option RuleStatus) (t : RuleStatus)
      → AllClosed o
      → IsBacked t
      → IsBacked (elim o [ some s ↦ s | none ↦ t ])
  unfolding AllClosed
  or_open-IsBacked none t h k = k
  or_open-IsBacked (some s) t h k = IsClosed-IsBacked s h

  status_in-IsBacked :
      (b : Board) (score mate zs zm : Option ℤ) (state : String)
      → ((m : Move) → is_empty (uci m) ≡ false)
      → IsBacked (status_in c list_of_set b score mate zs zm state)
  unfolding status_in
  status_in-IsBacked b score mate zs zm state u =
      let full = str_eq state "complete" in
      let has = full || str_eq state "partial" in
      or_open-IsBacked (terminal_status c list_of_set b has state)
        (open_status c list_of_set b score mate zs zm has full state)
        (terminal_status-AllClosed b has state) (open-IsBacked b score mate zs zm has full state u)

  abbrev AllBacked : Option RuleStatus → Type 0
  AllBacked none = Unit
  AllBacked (some s) = IsBacked s

  some-AllBacked :
      (o : Option String) (f : String → RuleStatus)
      → ((x : String) → IsBacked (f x))
      → AllBacked (elim o [ none ↦ none | some x ↦ some (f x) ])
  some-AllBacked none f h = tt
  some-AllBacked (some x) f h = h x

  pub evaluate_rule_status-IsBacked :
      (b : Board) (score mate : Option ℤ) (history : HistoryValue) (zs zm : Option ℤ)
      (s : RuleStatus)
      → ((m : Move) → is_empty (uci m) ≡ false)
      → evaluate_rule_status c list_of_set b score mate history zs zm ≡ some s
      → IsBacked s
  unfolding evaluate_rule_status
  evaluate_rule_status-IsBacked b score mate history zs zm s u e = subst AllBacked e (
      some-AllBacked (normalize_history_state history) (status_in c list_of_set b score mate zs zm)
        (λ state. status_in-IsBacked b score mate zs zm state u))
