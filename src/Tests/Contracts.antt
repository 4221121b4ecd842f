-- ===== src/Tests/Contracts.antt =====
-- mcp_server/contracts on small inputs.
use chessy_mcp.Prelude.{
  String, pos, ◌≡◌, refl, Bool, true, false, Option, none, some, List, [], ◌∷◌, map, negate, sub_ℕ,
  ltbℤ, if◌then◌else◌, str_eq,
}
use chessy_mcp.Tests.Toy.{toy}
use chessy_mcp.Contracts.Candidates.{
  illegal_move, ambiguous_san, Parse, parsed, refused, Reading, Details, message,
  CanonicalCandidate, looks_like_uci, parse_one, canonicalize_candidates, collect, note,
}
use chessy_mcp.Contracts.MateState.{
  white_mates, black_mates, no_mate, semantic_mate_state, info_to_eval,
}
use chessy_mcp.Contracts.MateState.Sides.{snapshot_of, semantic_mate_state-snapshot_of}

-- black is to move and mates in three
black_to_mate :
    semantic_mate_state false (snapshot_of false (record { cp = none; mate = some (pos 3) })) none
    ≡ white_mates
unfolding semantic_mate_state info_to_eval negate sub_ℕ
black_to_mate = refl

labels_run :
    semantic_mate_state false (snapshot_of false (record { cp = none; mate = some (pos 3) })) none
    ≡ (if ltbℤ (pos 0) (pos 3)
        then white_mates
        else if ltbℤ (pos 3) (pos 0)
        then black_mates
        else no_mate)
labels_run = semantic_mate_state-snapshot_of false none (pos 3)

uci_shape : looks_like_uci " e7e8q " ≡ true
unfolding looks_like_uci
uci_shape = refl

abbrev no_san : toy.Board → String → Bool → Details
no_san b text strict = message "AMBIGUOUS_SAN: two knights"

read_uci :
    parse_one toy no_san true false " a1a2 "
    ≡ parsed (record {
      uci = "a1a2";
      canonical_san = "";
      normalization_kind = "none";
      normalization_changes = [];
    })
unfolding parse_one
read_uci = refl

read_san : parse_one toy no_san true false "Nd2" ≡ refused ambiguous_san
unfolding parse_one
read_san = refl

-- a reader that knows one SAN
abbrev reader : String → Parse Reading
reader raw = parsed (record {
  uci = if str_eq raw "Nf3" then "g1f3" else raw;
  canonical_san = raw;
  normalization_kind = "none";
  normalization_changes = [];
})

abbrev raws : List (Option String)
raws = some "g1f3" ∷ none ∷ some "e2e4" ∷ some "Nf3" ∷ []

abbrev answer_of : Parse (List CanonicalCandidate) → List CanonicalCandidate
answer_of (parsed cs) = cs
answer_of (refused error) = []

two_candidates :
    map (λ c. c.aliases_seen) (answer_of (canonicalize_candidates reader 8 raws))
    ≡ ("g1f3" ∷ "Nf3" ∷ []) ∷ ("e2e4" ∷ []) ∷ []
unfolding canonicalize_candidates collect note
two_candidates = refl

too_many : canonicalize_candidates reader 1 raws ≡ refused illegal_move
unfolding canonicalize_candidates collect note
too_many = refl
