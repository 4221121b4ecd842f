-- ===== src/Parsers/Castling.antt =====
-- mcp_server/parsers/pgn_validate/castling.py: the castling rights of a FEN against the rooks.
pub mod Backed
use Prim.Native.String.{[] as end, ◌∷◌ as cons}
use Prim.Native.Char.{Char, code}
use chessy_mcp.Prelude.{
  ◌==◌, String, Bool, true, false, not, ◌&&◌, ◌||◌, is_empty, is_in, str_eq, if◌then◌else◌,
}
use chessy_mcp.Chess.{Chess, rook}
use chessy_mcp.Rules.DeadPosition

-- the token that is used, or the error that strict mode raises
pub data Rights : Type 0 where
  accepted : String → Rights
  rook_missing : Rights
  foreign_char : Rights
  wrong_order : Rights

-- `list(dict.fromkeys(s))`, behind the characters that were seen
unfoldable pub without_repeats : String → String → String
unfolding is_in
without_repeats seen end = end
without_repeats seen (cons c s) =
    let rest = without_repeats seen s in
    let fresh = without_repeats (cons c seen) s in if is_in c seen then rest else cons c fresh

-- the characters of a text that stand in another
unfoldable pub those_in : String → String → String
unfolding is_in
those_in chars end = end
those_in chars (cons c s) =
    let rest = those_in chars s in if is_in c chars then cons c rest else rest

unfoldable pub those_not_in : String → String → String
unfolding is_in
those_not_in chars end = end
those_not_in chars (cons c s) =
    let rest = those_not_in chars s in if is_in c chars then rest else cons c rest

abbrev pub canonical_order : String
canonical_order = "KQkq"

-- the token when every rook is there
unfoldable pub in_canonical_order : Bool → String → Rights
unfolding is_empty those_in those_not_in without_repeats
in_canonical_order strict token =
    let expected = those_in token canonical_order in
    if strict
    then (if not (is_empty (those_not_in canonical_order (without_repeats "" token)))
        then foreign_char
        else if str_eq (those_in canonical_order token) expected
        then accepted token
        else wrong_order)
    else if is_empty expected
    then accepted token
    else accepted expected

module _ (c : Chess) where
  open c use {Board, pieces}

  -- The character goes to `valid`: one of KQkq whose rook is on its square, or any other character
  -- (`if req is None`), a Shredder letter such as `H` too, for which no rook is looked for.
  unfoldable pub is_valid_char : Board → Char → Bool
  is_valid_char b ch =
      if code ch == 75
      then DeadPosition.is_in 7 (pieces b rook true)
      else if code ch == 81
      then DeadPosition.is_in 0 (pieces b rook true)
      else if code ch == 107
      then DeadPosition.is_in 63 (pieces b rook false)
      else if code ch == 113
      then DeadPosition.is_in 56 (pieces b rook false)
      else true

  -- `valid`, and `invalid`
  unfoldable pub valid : Board → String → String
  unfolding is_valid_char
  valid b end = end
  valid b (cons ch s) = let rest = valid b s in if is_valid_char b ch then cons ch rest else rest

  unfoldable pub invalid : Board → String → String
  unfolding is_valid_char
  invalid b end = end
  invalid b (cons ch s) =
      let rest = invalid b s in if is_valid_char b ch then rest else cons ch rest

  unfoldable pub validate_castling_rights : Board → String → Bool → Rights
  unfolding is_empty valid invalid in_canonical_order without_repeats
  validate_castling_rights b token strict =
      let chars = without_repeats "" token in
      if is_empty token || str_eq token "-"
      then accepted token
      else if not (is_empty (invalid b chars))
      then (if strict
          then rook_missing
          else if is_empty (valid b chars)
          then accepted "-"
          else accepted (valid b chars))
      else in_canonical_order strict token
