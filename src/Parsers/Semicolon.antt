-- ===== src/Parsers/Semicolon.antt =====
-- mcp_server/parsers/pgn/semicolon.py: the scanner that finds the `;` and `%` comments of a game's
-- mainline.
pub mod Captures
use Prim.Native.String as Str
use Prim.Native.Char.{Char, code}
use chessy_mcp.Prelude.{
  ℕ, ◌+◌, ◌-◌, ◌*◌, String, Bool, true, false, not, ◌&&◌, ◌||◌, Option, none, some, List, [], ◌∷◌,
  ◌++◌, leb, ◌==◌, if◌then◌else◌, is_empty, strip, str_append, ℤ, pos, negsuc, lebℤ, sub_ℕ, Regex,
  one_of, both, either, many, optional, literal, full_match, is_in,
}

-- the local variables of `extract_semicolon_comments`
pub record Scan : Type 0 where
  pub captures : List (ℤ × String)
  pub in_brace : Bool
  pub in_semi : Bool
  pub in_quote : Bool
  pub escape_next : Bool
  pub is_line_start : Bool
  pub var_depth : ℕ
  pub mainline_ply : ℕ
  pub last_move_number : Option ℕ
  pub last_move_dots : ℕ
  pub san_buffer : String
  pub semi_buffer : String
  pub semi_open_ply : Option ℤ

abbrev pub initial : Scan
initial = record {
  captures = [];
  in_brace = false;
  in_semi = false;
  in_quote = false;
  escape_next = false;
  is_line_start = true;
  var_depth = 0;
  mainline_ply = 0;
  last_move_number = none;
  last_move_dots = 0;
  san_buffer = "";
  semi_buffer = "";
  semi_open_ply = none;
}

unfoldable pub annotated : Regex → Regex
annotated r = both r (many (one_of "+#?!"))

-- `_SAN_MOVE_TOKEN_RE`
unfoldable pub san_move_token : Regex
unfolding annotated optional literal
san_move_token =
    either
      (both (optional (one_of "KQRBN")) (
        both (optional (one_of "abcdefgh")) (
          both (optional (one_of "12345678")) (
            both (optional (one_of "x")) (
              annotated (
                both (one_of "abcdefgh")
                  (both (one_of "12345678") (optional (both (literal "=") (one_of "QRBN"))))))))))
      (either (annotated (literal "O-O-O")) (
        either (annotated (literal "O-O"))
          (either (annotated (literal "0-0-0")) (annotated (literal "0-0")))))

-- the digits of a move number and its dots, read so far
unfoldable pub number_char : Char → Option (ℕ × Bool × ℕ) → Option (ℕ × Bool × ℕ)
number_char c none = none
number_char c (some (value, seen, dots)) =
    if leb b'0' (code c) && leb (code c) b'9' && dots == 0
    then some (value * 10 + (code c - b'0'), true, 0)
    else if code c == b'.' && seen
    then some (value, seen, dots + 1)
    else none

unfoldable pub number_chars : Option (ℕ × Bool × ℕ) → String → Option (ℕ × Bool × ℕ)
unfolding number_char
number_chars read Str.[] = read
number_chars read (Str.◌∷◌ c s) = number_chars (number_char c read) s

-- `_MOVE_NUMBER_TOKEN_RE`: the number and how many dots
unfoldable pub move_number : String → Option (ℕ × ℕ)
unfolding number_chars
move_number s = elim (number_chars (some (0, false, 0)) s) [
  | none ↦ none
  | some (value, seen, dots) ↦ if leb 1 dots && leb dots 3 then some (value, dots) else none
]

unfoldable pub flush_san_buffer : Scan → Scan
unfolding san_move_token full_match
flush_san_buffer s = if is_empty s.san_buffer then s else record s {
  san_buffer = "";
  mainline_ply =
      if full_match san_move_token s.san_buffer then s.mainline_ply + 1 else s.mainline_ply;
}

unfoldable pub move_number_ply : Scan → ℤ
unfolding sub_ℕ
move_number_ply s = elim s.last_move_number [
  | none ↦ pos 0
  | some n ↦ sub_ℕ (2 * n) (if s.last_move_dots == 1 then 1 else 0)
]

-- `x or 1`
unfoldable pub or_one : ℤ → ℤ
or_one (pos n) = if n == 0 then pos 1 else pos n
or_one (negsuc n) = negsuc n

unfoldable pub attach_ply : Scan → ℤ
unfolding move_number_ply or_one
attach_ply s =
    if lebℤ (move_number_ply s) (pos s.mainline_ply) && not (s.mainline_ply == 0)
    then pos s.mainline_ply
    else or_one (move_number_ply s)

-- the comment that is open, at the end of its line
unfoldable pub capture : Scan → Scan
unfolding strip
capture s =
    if s.in_semi
    then elim s.semi_open_ply [
      | none ↦ s
      | some ply ↦ record s {
        captures =
            if is_empty (strip s.semi_buffer)
            then s.captures
            else s.captures ++ (ply, strip s.semi_buffer) ∷ [];
        semi_buffer = "";
        semi_open_ply = none;
      }
    ]
    else s

unfoldable pub end_line : Scan → Scan
unfolding flush_san_buffer capture
end_line s = record (capture (flush_san_buffer s)) {
  in_semi = false;
  in_quote = false;
  escape_next = false;
  is_line_start = true;
}

unfoldable pub open_comment : Scan → Scan
unfolding attach_ply
open_comment s = record s {
  in_semi = true;
  semi_buffer = "";
  semi_open_ply = if s.var_depth == 0 then some (attach_ply s) else none;
}

unfoldable pub push_san : Char → Scan → Scan
unfolding move_number
push_san c s =
    let buffer = str_append s.san_buffer (Str.◌∷◌ c "") in
    elim (move_number buffer) [
      | none ↦ record s { san_buffer = buffer }
      | some (number, dots) ↦ record s {
        san_buffer = buffer;
        last_move_number = some number;
        last_move_dots = dots;
      }
    ]

-- a character outside quotes, braces and comments
unfoldable pub movetext : Char → Scan → Scan
unfolding open_comment push_san flush_san_buffer
movetext c s =
    if (s.is_line_start && code c == b'%') || code c == b';'
    then open_comment s
    else if code c == b'{'
    then record (flush_san_buffer s) { in_brace = true }
    else if code c == b'('
    then (let f = flush_san_buffer s in record f { var_depth = f.var_depth + 1 })
    else if code c == b')'
    then (let f = flush_san_buffer s in record f { var_depth = f.var_depth - 1 })
    else if leb 1 s.var_depth
    then s
    else if code c == 32 || code c == 9
    then flush_san_buffer s
    else push_san c s

-- a character outside braces and comments
unfoldable pub outside : Char → Scan → Scan
unfolding movetext
outside c s =
    if s.escape_next
    then record s { escape_next = false }
    else if code c == b'\\'
    then record s { escape_next = true }
    else if code c == b'"'
    then record s { in_quote = not s.in_quote }
    else if s.in_quote
    then s
    else movetext c s

unfoldable pub within_line : Char → Scan → Scan
unfolding outside
within_line c s =
    if not s.in_brace && not s.in_semi
    then outside c s
    else if s.in_brace
    then (if code c == b'}' then record s { in_brace = false } else s)
    else elim s.semi_open_ply [
      | none ↦ s
      | some ply ↦ record s { semi_buffer = str_append s.semi_buffer (Str.◌∷◌ c "") }
    ]

unfoldable pub is_line_end : Char → Bool
is_line_end c = code c == 13 || code c == 10

-- one turn of the loop
unfoldable pub scan_char : Char → Scan → Scan
unfolding end_line within_line is_line_end
scan_char c s =
    if is_line_end c
    then end_line s
    else (let t = within_line c s in
        record t { is_line_start = if code c == 32 || code c == 9 then t.is_line_start else false })

unfoldable pub scan : String → Scan → Scan
scan Str.[] s = s
scan (Str.◌∷◌ c text) s = scan text (scan_char c s)

unfoldable pub extract_semicolon_comments : String → List (ℤ × String)
unfolding scan scan_char capture flush_san_buffer
extract_semicolon_comments text = (capture (flush_san_buffer (scan text initial))).captures
