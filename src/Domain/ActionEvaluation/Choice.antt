-- ===== src/Domain/ActionEvaluation/Choice.antt =====
-- Which of the actions mcp_server/domain/action_evaluation.py recommends.
use chessy_mcp.Prelude.{
  ℕ, leb, ◌≡◌, refl, ◌⊎◌, inl, inr, Bool, true, false, ◌&&◌, ◌||◌, Option, none, some, List, [],
  ◌∷◌, arith, if◌then◌else◌,
}
use chessy_mcp.Domain.ActionEvaluation.{
  ActionEvaluation, winning, claiming, open_ended, losing, wins_sooner, is_worth_more, loses_less,
  first_of, head, or_else, choose_recommended_action,
}

-- how good an action is: a winning move, a claim that can be made, a move that leaves the game open,
-- a losing move, anything else
abbrev pub tier : Bool → ActionEvaluation → ℕ
tier can_claim e =
    if winning e
    then 4
    else if can_claim && claiming e
    then 3
    else if open_ended e
    then 2
    else if losing e
    then 1
    else 0

abbrev pub all_tiers_below : Bool → ℕ → List ActionEvaluation → Bool
all_tiers_below can_claim n [] = true
all_tiers_below can_claim n (e ∷ l) =
    let rest = all_tiers_below can_claim n l in leb (tier can_claim e) n && rest

abbrev pub any_of : (ActionEvaluation → Bool) → List ActionEvaluation → Bool
any_of p [] = false
any_of p (e ∷ l) = let rest = any_of p l in p e || rest

-- an action is one of a list
pub IsAmong : ActionEvaluation → List ActionEvaluation → Type 0
IsAmong e [] = ⊥
IsAmong e (f ∷ l) = (e ≡ f) ⊎ IsAmong e l

-- what `first_of` finds
pub Finds : (ActionEvaluation → Bool) → List ActionEvaluation → Option ActionEvaluation → Type 0
Finds p l none = any_of p l ≡ false
Finds p l (some e) = (p e ≡ true) × IsAmong e l

first_of-Finds :
    (p : ActionEvaluation → Bool) (before : ActionEvaluation → ActionEvaluation → Bool)
    (l : List ActionEvaluation)
    → Finds p l (first_of p before l)
unfolding first_of Finds IsAmong
first_of-Finds p before [] = refl
first_of-Finds p before (e ∷ l) = go (p e) refl (first_of p before l) (first_of-Finds p before l)
  where
    go :
        (t : Bool)
        → p e ≡ t
        → (o : Option ActionEvaluation) → Finds p l o
        → Finds p (e ∷ l) (
            if t
            then elim o [ none ↦ some e | some f ↦ if before f e then some f else some e ]
            else o)
    go true h none k = (h, inl refl)
    go true h (some f) k = pick (before f e)
      where
        pick : (t : Bool) → Finds p (e ∷ l) (if t then some f else some e)
        pick true = (k.0, inr k.1)
        pick false = (h, inl refl)
    go false h none k = rw (h, k) refl
    go false h (some f) k = (k.0, inr k.1)

below_4 : (can : Bool) (l : List ActionEvaluation) → all_tiers_below can 4 l ≡ true
below_4 can [] = refl
below_4 can (e ∷ l) = ground (arith, below_4 can l)

below_3 :
    (can : Bool) (l : List ActionEvaluation)
    → any_of winning l ≡ false
    → all_tiers_below can 3 l ≡ true
below_3 can [] h = refl
below_3 can (e ∷ l) h = ground (arith, h, below_3 can l)

below_2 :
    (can : Bool) (l : List ActionEvaluation)
    → any_of winning l ≡ false
    → any_of (λ e. can && claiming e) l ≡ false
    → all_tiers_below can 2 l ≡ true
below_2 can [] h k = refl
below_2 can (e ∷ l) h k = ground (arith, h, k, below_2 can l)

below_1 :
    (can : Bool) (l : List ActionEvaluation)
    → any_of winning l ≡ false
    → any_of (λ e. can && claiming e) l ≡ false
    → any_of open_ended l ≡ false
    → all_tiers_below can 1 l ≡ true
below_1 can [] h k m = refl
below_1 can (e ∷ l) h k m = ground (arith, h, k, m, below_1 can l)

below_0 :
    (can : Bool) (l : List ActionEvaluation)
    → any_of winning l ≡ false
    → any_of (λ e. can && claiming e) l ≡ false
    → any_of open_ended l ≡ false
    → any_of losing l ≡ false
    → all_tiers_below can 0 l ≡ true
below_0 can [] h k m n = refl
below_0 can (e ∷ l) h k m n = ground (arith, h, k, m, n, below_0 can l)

none_claims : (l : List ActionEvaluation) → any_of (λ e. false && claiming e) l ≡ false
none_claims [] = refl
none_claims (e ∷ l) = none_claims l

claim-Finds :
    (can : Bool) (l : List ActionEvaluation)
    → Finds (λ e. can && claiming e) l (if can then first_of claiming (λ a b. false) l else none)
unfolding Finds
claim-Finds true l = first_of-Finds claiming (λ a b. false) l
claim-Finds false l = none_claims l

-- the choice is one of the actions and none has a better tier; there is none for an empty list
pub IsBest : Bool → List ActionEvaluation → Option ActionEvaluation → Type 0
IsBest can_claim l none = l ≡ []
IsBest can_claim l (some e) = IsAmong e l × (all_tiers_below can_claim (tier can_claim e) l ≡ true)

stage :
    (can : Bool) (p : ActionEvaluation → Bool) (n : ℕ) (l : List ActionEvaluation)
    (o rest : Option ActionEvaluation)
    → Finds p l o
    → ((e : ActionEvaluation) → p e ≡ true → tier can e ≡ n)
    → all_tiers_below can n l ≡ true
    → (any_of p l ≡ false → IsBest can l rest)
    → IsBest can l (or_else o rest)
unfolding Finds IsBest
stage can p n l none rest found level below later = later found
stage can p n l (some e) rest found level below later = (found.1, rw (level e found.0) below)

last_stage :
    (can : Bool) (l : List ActionEvaluation)
    → all_tiers_below can 0 l ≡ true
    → IsBest can l (head l)
unfolding IsBest IsAmong
last_stage can [] h = refl
last_stage can (e ∷ l) h = (inl refl, ground (arith, h))

tier-claim : (can : Bool) (e : ActionEvaluation) → (can && claiming e) ≡ true → tier can e ≡ 3
tier-claim can e h = ground (arith, h)

tier-open : (can : Bool) (e : ActionEvaluation) → open_ended e ≡ true → tier can e ≡ 2
tier-open can e h = ground (arith, h)

tier-losing : (can : Bool) (e : ActionEvaluation) → losing e ≡ true → tier can e ≡ 1
tier-losing can e h = ground (arith, h)

tier-winning : (can : Bool) (e : ActionEvaluation) → winning e ≡ true → tier can e ≡ 4
tier-winning can e h = ground (arith, h)

-- The recommended action is one of those evaluated, and none of them has a better tier: a winning
-- move comes before a claim, if one can be made, then a move that leaves the game open, then a losing
-- move. An action is recommended unless there is none.
pub choose_recommended_action_tiers :
    (l : List ActionEvaluation) (now intended : Bool)
    → IsBest (now || intended) l (choose_recommended_action l now intended)
unfolding choose_recommended_action
choose_recommended_action_tiers l now intended =
    let can = now || intended in
    stage can winning 4 l _ _ (first_of-Finds winning wins_sooner l) (tier-winning can)
      (below_4 can l)
      (λ h.
        stage can (λ e. can && claiming e) 3 l _ _ (claim-Finds can l) (tier-claim can)
          (below_3 can l h)
          (λ k.
            stage can open_ended 2 l _ _ (first_of-Finds open_ended is_worth_more l) (tier-open can)
              (below_2 can l h k)
              (λ m.
                stage can losing 1 l _ _ (first_of-Finds losing loses_less l) (tier-losing can)
                  (below_1 can l h k m) (λ n. last_stage can l (below_0 can l h k m n)))))
