-- ===== src/Contracts/Candidates/Noted.antt =====
-- One step of the loop of mcp_server/contracts/candidates.py.
use chessy_mcp.Prelude.{
  String, ◌≡◌, refl, false, ◌||◌, Option, none, some, List, [], ◌∷◌, ◌++◌, arith, lookup,
  lookup-assign, is_some, str_eq, eq_iff, if◌then◌else◌,
}
use chessy_mcp.Rules.Status.{contains}
use chessy_mcp.Contracts.Candidates.{Reading, CanonicalCandidate, Seen, joined, note}

abbrev pub HasNoRepeats : List String → Type 0
HasNoRepeats [] = Unit
HasNoRepeats (u ∷ order) = (contains u order ≡ false) × HasNoRepeats order

contains-concat :
    (u v : String) (order : List String)
    → contains u (order ++ v ∷ []) ≡ (contains u order || str_eq u v)
contains-concat u v [] = ground arith
contains-concat u v (w ∷ order) = ground (arith, contains-concat u v order)

HasNoRepeats-concat :
    (u : String) (order : List String)
    → HasNoRepeats order
    → contains u order ≡ false
    → HasNoRepeats (order ++ u ∷ [])
HasNoRepeats-concat u [] h n = ground arith
HasNoRepeats-concat u (v ∷ order) h n = ground (
  arith,
  h,
  n,
  HasNoRepeats-concat u order h.1,
  contains-concat v u order,
  eq_iff u v,
  eq_iff v u,
)

-- `order` names the keys of `seen`, each once, and a candidate stands at its own name
pub record IsFormed (s : Seen) : Type 0 where
  pub known : (u : String) → contains u s.order ≡ is_some (lookup u s.seen)
  pub distinct : HasNoRepeats s.order
  pub named : (u : String) (c : CanonicalCandidate) → lookup u s.seen ≡ some c → c.uci ≡ u

-- the spellings that are noted for a move
abbrev pub spelt : Option CanonicalCandidate → List String
spelt none = []
spelt (some c) = c.aliases_seen

pub joined-uci :
    (o : Option CanonicalCandidate) (raw : String) (r : Reading) → (joined o raw r).uci ≡ r.uci
unfolding joined
joined-uci none raw r = refl
joined-uci (some c) raw r = refl

joined-spelt :
    (o : Option CanonicalCandidate) (raw : String) (r : Reading)
    → (joined o raw r).aliases_seen ≡ spelt o ++ raw ∷ []
unfolding joined
joined-spelt none raw r = refl
joined-spelt (some c) raw r = refl

pub note-IsFormed : (raw : String) (r : Reading) (s : Seen) → IsFormed s → IsFormed (note raw r s)
unfolding note
note-IsFormed raw r s h = record {
  known = λ u. ground (
    arith,
    h.known u,
    h.known r.uci,
    contains-concat u r.uci s.order,
    lookup-assign r.uci u (joined (lookup r.uci s.seen) raw r) s.seen,
    eq_iff u r.uci,
    eq_iff r.uci u,
  );
  distinct =
      ground (arith, h.distinct, h.known r.uci, HasNoRepeats-concat r.uci s.order h.distinct);
  named = λ u c e. ground (
    arith,
    e,
    h.named u c,
    lookup-assign r.uci u (joined (lookup r.uci s.seen) raw r) s.seen,
    eq_iff r.uci u,
    joined-uci (lookup r.uci s.seen) raw r,
  );
}

pub note-spelt :
    (u raw : String) (r : Reading) (s : Seen)
    → spelt (lookup u (note raw r s).seen)
      ≡ (if str_eq r.uci u then spelt (lookup u s.seen) ++ raw ∷ [] else spelt (lookup u s.seen))
unfolding note
note-spelt u raw r s = ground (
  arith,
  lookup-assign r.uci u (joined (lookup r.uci s.seen) raw r) s.seen,
  eq_iff r.uci u,
  joined-spelt (lookup r.uci s.seen) raw r,
)
