-- ===== src/Contracts/Candidates/Unique.antt =====
-- The candidates of mcp_server/contracts/candidates.py: no move twice, and every spelling kept.
use chessy_mcp.Prelude.{
  String, ◌≡◌, true, Option, none, some, List, [], ◌∷◌, ◌++◌, Assoc, lookup, is_some, str_eq,
  if◌then◌else◌,
}
use chessy_mcp.Rules.Status.{contains}
use chessy_mcp.Contracts.Candidates.{Parse, parsed, refused, Reading, CanonicalCandidate, Seen}
use chessy_mcp.Contracts.Candidates.Noted.{IsFormed, spelt}

module _ (parse : String → Parse Reading) where
  -- the texts, in their order, that are read as a move
  unfoldable pub spellings : String → List (Option String) → List String
  spellings u [] = []
  spellings u (none ∷ raws) = spellings u raws
  spellings u (some raw ∷ raws) =
      let rest = spellings u raws in
      elim (parse raw) [
        | refused error ↦ rest
        | parsed r ↦ if str_eq r.uci u then raw ∷ rest else rest
      ]

  record IsCollected (raws : List (Option String)) (s t : Seen) : Type 0 where
    formed : IsFormed t
    spelled : (u : String) → spelt (lookup u t.seen) ≡ spelt (lookup u s.seen) ++ spellings u raws

-- the keys of a list are there, and a candidate stands at its own name
record IsListed (seen : Assoc CanonicalCandidate) (order : List String) : Type 0 where
  there : (u : String) → contains u order ≡ true → is_some (lookup u seen) ≡ true
  own : (u : String) (c : CanonicalCandidate) → lookup u seen ≡ some c → c.uci ≡ u

-- the spellings of the candidate for a move, if there is one
abbrev pub aliases_of : String → List CanonicalCandidate → List String
aliases_of u [] = []
aliases_of u (c ∷ cs) = if str_eq c.uci u then c.aliases_seen else aliases_of u cs

module _ (parse : String → Parse Reading) where
  empty_seen : Seen
  empty_seen = record { seen = []; order = [] }
