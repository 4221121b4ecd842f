-- ===== src/Contracts/Candidates.antt =====
-- mcp_server/contracts/candidates.py: candidate moves, read from texts and without repeats. The
-- general parser of moves (mcp_server/parsers/move_parser.py) is an argument.
pub mod Noted
pub mod Unique
use chessy_mcp.Prelude.{
  contains_text, ℕ, ◌*◌, String, Bool, true, false, not, ◌||◌, Option, none, some, List, [], ◌∷◌,
  ◌++◌, Assoc, assign, lookup, length, ltb, str_eq, is_empty, strip, starts_with, if◌then◌else◌,
  Regex, one_of, both, optional, full_match,
}
use chessy_mcp.Chess.{Chess}

-- the classes of errors that leave this module
pub data CandidateError : Type 0 where
  illegal_move : CandidateError
  strict_validation : CandidateError
  ambiguous_san : CandidateError
  game_already_over : CandidateError

pub data Parse (A : Type 0) : Type 0 where
  parsed : A → Parse A
  refused : CandidateError → Parse A

-- a move that was read, as far as it is used
pub record Reading : Type 0 where
  pub uci : String
  pub canonical_san : String
  pub normalization_kind : String
  pub normalization_changes : List String

-- `parse_move_with_details`: a reading, or the message of its `ValueError`
pub data Details : Type 0 where
  details : Reading → Details
  message : String → Details

pub record CanonicalCandidate : Type 0 where
  pub uci : String
  pub canonical_san : String
  pub requested_first : String
  pub aliases_seen : List String
  pub normalization_kind : String
  pub normalization_changes : List String

-- `_UCI_RE`
unfoldable pub uci_pattern : Regex
unfolding optional
uci_pattern = both (one_of "abcdefghABCDEFGH") (
    both (one_of "12345678")
      (both (one_of "abcdefghABCDEFGH") (both (one_of "12345678") (optional (one_of "qrbnQRBN")))))

unfoldable pub looks_like_uci : String → Bool
unfolding uci_pattern full_match strip
looks_like_uci text = full_match uci_pattern (strip text)

-- the error for a message of the general parser
unfoldable pub error_of : String → CandidateError
unfolding contains_text
error_of text =
    if contains_text "STRICT" text
    then strict_validation
    else if contains_text "AMBIGUOUS_SAN" text
    then ambiguous_san
    else if contains_text "GAME_ALREADY_OVER" text
    then game_already_over
    else illegal_move

module _ (c : Chess) (parse_details : c.Board → String → Bool → Details) where
  open c use {Board, legal_uci, uci, san}

  abbrev text_of : Option String → String
  text_of none = ""
  text_of (some s) = s

  -- `Move.from_uci` and `in board.legal_moves`, which takes a king to its own rook as castling
  unfoldable pub legal_reading : Board → String → Parse Reading
  legal_reading b text = elim (legal_uci b text) [
    | none ↦ refused illegal_move
    | some m ↦ parsed (record {
      uci = uci m;
      canonical_san = text_of (san b m);
      normalization_kind = "none";
      normalization_changes = [];
    })
  ]

  -- `_parse_one`
  unfoldable pub parse_one : Board → Bool → String → Parse Reading
  unfolding looks_like_uci legal_reading error_of strip
  parse_one b strict raw =
      let text = strip raw in
      if is_empty text
      then refused illegal_move
      else if looks_like_uci text
      then legal_reading b text
      else elim (parse_details b text strict) [
        | details reading ↦ parsed reading
        | message error ↦ refused (error_of error)
      ]

-- a new candidate, or one more spelling of a candidate that is there
unfoldable pub joined : Option CanonicalCandidate → String → Reading → CanonicalCandidate
joined none raw r = record {
  uci = r.uci;
  canonical_san = r.canonical_san;
  requested_first = raw;
  aliases_seen = raw ∷ [];
  normalization_kind = r.normalization_kind;
  normalization_changes = r.normalization_changes;
}
joined (some existing) raw r = record existing {
  uci = r.uci;
  aliases_seen = existing.aliases_seen ++ raw ∷ [];
}

-- the dictionary `seen` and the list `order`
pub record Seen : Type 0 where
  pub seen : Assoc CanonicalCandidate
  pub order : List String

unfoldable pub note : String → Reading → Seen → Seen
unfolding joined lookup assign
note raw r s = record {
  seen = assign r.uci (joined (lookup r.uci s.seen) raw r) s.seen;
  order = elim (lookup r.uci s.seen) [ some _ ↦ s.order | none ↦ s.order ++ r.uci ∷ [] ];
}

-- the loop over the texts; `None` is passed over, and a text that is refused ends it
unfoldable pub collect : (String → Parse Reading) → List (Option String) → Seen → Parse Seen
collect parse [] s = parsed s
collect parse (none ∷ raws) s = collect parse raws s
collect parse (some raw ∷ raws) s = elim (parse raw) [
  | refused error ↦ refused error
  | parsed r ↦ collect parse raws (note raw r s)
]

-- `[seen[uci] for uci in order]`
unfoldable pub in_order : Assoc CanonicalCandidate → List String → List CanonicalCandidate
unfolding lookup
in_order seen [] = []
in_order seen (uci ∷ order) =
    let rest = in_order seen order in
    elim (lookup uci seen) [ none ↦ rest | some candidate ↦ candidate ∷ rest ]

-- `canonicalize_candidates`, for a way to read one text
unfoldable pub canonicalize_candidates :
    (String → Parse Reading) → ℕ → List (Option String) → Parse (List CanonicalCandidate)
unfolding in_order
canonicalize_candidates parse cap raws =
    elim (collect parse raws (record { seen = []; order = [] })) [
      | refused error ↦ refused error
      | parsed s ↦
          let candidates = in_order s.seen s.order in
          if ltb cap (length candidates) then refused illegal_move else parsed candidates
    ]

-- `normalize_candidate_limit`
unfoldable pub normalize_candidate_limit : ℕ → ℕ → Parse ℕ
normalize_candidate_limit raw_count cap =
    if ltb (cap * 4) raw_count then refused illegal_move else parsed raw_count
