-- ===== src/Domain/Action/Legal.antt =====
-- The best action of mcp_server/domain/action.py against its legal actions, for a status that
-- `evaluate_rule_status` gives.
pub mod Backed
pub mod Best
use mathlib.Core.List.{Mem, mem-cons_self, mem-cons_of_mem, mem-append_left, mem-append_right}
use chessy_mcp.Prelude.{
  ℕ, ℤ, String, ◌≡◌, refl, sym, ◌⊎◌, inl, inr, Bool, true, false, not, ◌&&◌, ◌||◌, Option, none,
  some, List, [], ◌∷◌, ◌++◌, map, arith, Bool-cases, lookup, is_some, is_empty, str_eq,
  if◌then◌else◌, subst,
}
use chessy_mcp.Chess.{Chess}
use chessy_mcp.Rules.ActionChoice.{
  Action, play_move, claim_draw, claim_draw_with_intended_move, game_over,
}
use chessy_mcp.Rules.Status.{RuleStatus, first}
use chessy_mcp.Domain.Action.{
  GameAction, play, claim, claim_intended, over, EngineEval, type_of, or_text, first_reason,
  reasons_for, over_action, paired, named, intended_pairs, is_draw_reason, claims_of, all_claims_of,
  san_of, build_best_action, engine_actions, now_claims, intended_claims, over_actions,
  build_legal_actions,
}

-- a text that is there and not empty
abbrev pub is_named : Option String → Bool
is_named none = false
is_named (some s) = not (is_empty s)

-- The claims that a status offers have their reasons: an immediate claim has one, and the first
-- intended move has a UCI name, the SAN that stands as the claim's move, and a valid reason.
pub record IsBacked (s : RuleStatus) : Type 0 where
  pub reason : s.can_claim_now ≡ true → is_some (first s.claim_reasons_now) ≡ true
  pub named_first :
      s.can_claim_with_intended_move ≡ true
      → (is_named (first s.intended_claim_ucis) ≡ true)
        × (is_some (first s.intended_claim_sans) ≡ true)
  pub same_first :
      (s.claim_move_uci ≡ first s.intended_claim_ucis)
      × (s.claim_move_san ≡ first s.intended_claim_sans)
      × (s.claim_move ≡ first s.intended_claim_sans)
  pub valid :
      (uci : String)
      → s.can_claim_with_intended_move ≡ true
      → first s.intended_claim_ucis ≡ some uci
      → is_draw_reason (first_reason (reasons_for s uci)) ≡ true

claim-Mem :
    (reasons : List String)
    → is_some (first reasons) ≡ true
    → Mem (claim (first_reason reasons)) (map claim reasons)
claim-Mem [] h = absurd (ground (arith, h))
claim-Mem (reason ∷ reasons) h = mem-cons_self

claims_of-Mem :
    (uci : String) (san : Option String) (reasons : List String)
    → is_some (first reasons) ≡ true
    → is_draw_reason (first_reason reasons) ≡ true
    → Mem (claim_intended (first_reason reasons) uci san) (claims_of uci san reasons)
unfolding claims_of
claims_of-Mem uci san [] h v = absurd (ground (arith, h))
claims_of-Mem uci san (reason ∷ reasons) h v = rw v mem-cons_self

reasons_for_some : (s : RuleStatus) (uci : String) → is_some (first (reasons_for s uci)) ≡ true
unfolding reasons_for
reasons_for_some s uci = ground arith

-- the pair of the first intended move
paired_first :
    (s : RuleStatus) (uci san : String)
    → first s.intended_claim_ucis ≡ some uci
    → first s.intended_claim_sans ≡ some san
    → first (intended_pairs s) ≡ some (uci, some san)
unfolding intended_pairs
paired_first s uci san hu hs = ground (arith, hu, hs)

first-cons {ℓ} :
    {A : Type ℓ} (a : A) (l : List A) → first l ≡ some a → (rest : List A) × (l ≡ a ∷ rest)
first-cons a [] h = absurd (ground (arith, h))
first-cons a (x ∷ l) h = (l, ground (arith, h))

intended-Mem :
    (s : RuleStatus) (uci : String) (san : Option String) (pairs : List (String × Option String))
    → is_draw_reason (first_reason (reasons_for s uci)) ≡ true
    → Mem
        (claim_intended (first_reason (reasons_for s uci)) uci san)
        (all_claims_of s ((uci, san) ∷ pairs))
unfolding all_claims_of
intended-Mem s uci san pairs v =
    mem-append_left (all_claims_of s pairs)
      (claims_of-Mem uci san (reasons_for s uci) (reasons_for_some s uci) v)

now_claims-Mem :
    (s : RuleStatus)
    → IsBacked s
    → s.can_claim_now ≡ true
    → Mem (claim (first_reason s.claim_reasons_now)) (now_claims s)
unfolding now_claims
now_claims-Mem s b h = simp h (claim-Mem s.claim_reasons_now (b.reason h))

intended_claims-pairs :
    (s : RuleStatus)
    → s.can_claim_with_intended_move ≡ true
    → intended_claims s ≡ all_claims_of s (intended_pairs s)
unfolding intended_claims
intended_claims-pairs s h = ground (arith, h)

pub intended_claims-Mem :
    (s : RuleStatus) (uci san : String)
    → IsBacked s
    → s.can_claim_with_intended_move ≡ true
    → first s.intended_claim_ucis ≡ some uci
    → first s.intended_claim_sans ≡ some san
    → Mem (claim_intended (first_reason (reasons_for s uci)) uci (some san)) (intended_claims s)
intended_claims-Mem s uci san b h hu hs =
    let (rest, e) = first-cons (uci, some san) (intended_pairs s) (paired_first s uci san hu hs) in
    rw (intended_claims-pairs s h, e) (intended-Mem s uci (some san) rest (b.valid uci h hu))

over_actions-cons :
    (s : RuleStatus) (terminal : String)
    → s.terminal ≡ some terminal
    → over_actions s ≡ over_action s terminal ∷ []
unfolding over_actions
over_actions-cons s terminal h = ground (arith, h)

over_actions-Mem :
    (s : RuleStatus) (terminal : String)
    → s.terminal ≡ some terminal
    → Mem (over_action s terminal) (over_actions s)
over_actions-Mem s terminal h = rw (over_actions-cons s terminal h) mem-cons_self

-- a named first intended move, as `build_best_action` reads it
named_first_uci :
    (o : Option String) → is_named o ≡ true → (uci : String) × (o ≡ some uci) × (named o ≡ some uci)
named_first_uci none h = absurd (ground (arith, h))
named_first_uci (some uci) h = (uci, refl, ground (arith, h))

some_text : (o : Option String) → is_some o ≡ true → (san : String) × (o ≡ some san)
some_text none h = absurd (ground (arith, h))
some_text (some san) h = (san, refl)

or_text_same : (o : Option String) → or_text o o ≡ o
or_text_same none = refl
or_text_same (some s) = ground arith

-- the claims that a status offers agree with what it recommends
abbrev pub Offers : Action → RuleStatus → Type 0
Offers recommended s =
    (recommended ≡ claim_draw → s.can_claim_now ≡ true)
    × (recommended ≡ claim_draw_with_intended_move → s.can_claim_with_intended_move ≡ true)

module _ (c : Chess) where
  open c use {Board}

  best_claim :
      (s : RuleStatus) (engine : Option EngineEval) (board : Option Board)
      → s.terminal ≡ none
      → s.can_claim_now ≡ true
      → build_best_action c claim_draw s engine board ≡ claim (first_reason s.claim_reasons_now)
  unfolding build_best_action
  best_claim s engine board t h = ground (arith, t, h)

  best_intended :
      (s : RuleStatus) (engine : Option EngineEval) (board : Option Board) (uci san : String)
      → s.terminal ≡ none
      → IsBacked s
      → s.can_claim_with_intended_move ≡ true
      → named (first s.intended_claim_ucis) ≡ some uci
      → first s.intended_claim_sans ≡ some san
      → build_best_action c claim_draw_with_intended_move s engine board
        ≡ claim_intended (first_reason (reasons_for s uci)) uci (some san)
  unfolding build_best_action
  best_intended s engine board uci san t b h hu hs =
      let (eu, en, em) = b.same_first in
      ground (arith, t, h, hu, hs, eu, en, em, or_text_same (some san))

  best_over :
      (recommended : Action) (s : RuleStatus) (engine : Option EngineEval) (board : Option Board)
      (terminal : String)
      → s.terminal ≡ some terminal
      → build_best_action c recommended s engine board ≡ over_action s terminal
  unfolding build_best_action
  best_over recommended s engine board terminal t = ground (arith, t)

  -- the text of the engine's move, empty where there is none
  abbrev pub engine_text : Option EngineEval → String
  engine_text none = ""
  engine_text (some e) = elim (named e.best_move) [ none ↦ "" | some text ↦ text ]

  -- the action plays the move with this text
  abbrev pub Plays : String → GameAction → Type 0
  Plays text (play uci san cp mate) = uci ≡ text
  Plays text (claim reason) = ⊥
  Plays text (claim_intended reason uci san) = ⊥
  Plays text (over outcome reason perspective) = ⊥

  best_play-Plays :
      (s : RuleStatus) (engine : Option EngineEval) (board : Option Board)
      → s.terminal ≡ none
      → Plays (engine_text engine) (build_best_action c play_move s engine board)
  unfolding build_best_action
  best_play-Plays s none board t = rw t refl
  best_play-Plays s (some e) board t = rw t (go (named e.best_move))
    where
      go :
          (o : Option String)
          → Plays
              (elim o [ none ↦ "" | some text ↦ text ])
              (elim o [
                | none ↦ play "" none none none
                | some text ↦ play text (san_of c board text) e.cp e.mate
              ])
      go none = refl
      go (some text) = refl

  best_play :
      (s : RuleStatus) (engine : Option EngineEval) (board : Option Board)
      → s.terminal ≡ none
      → type_of (build_best_action c play_move s engine board) ≡ play_move
  unfolding build_best_action
  best_play s engine board t = ground (arith, t)
