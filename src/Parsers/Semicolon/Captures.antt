-- ===== src/Parsers/Semicolon/Captures.antt =====
-- What mcp_server/parsers/pgn/semicolon.py captures: the plies, the texts and how many there are.
use Prim.Native.String as Str
use Prim.Native.Char.{Char}
use chessy_mcp.Prelude.{
  ℕ, suc, String, ◌≡◌, Bool, true, not, ◌&&◌, Option, none, some, List, [], ◌∷◌, leb, ◌==◌,
  if◌then◌else◌, is_empty, ℤ, pos, negsuc,
}
use chessy_mcp.Parsers.Semicolon.{Scan, is_line_end}

-- at least 1, or the -1 that the move number `0.` gives
abbrev pub is_ply : ℤ → Bool
is_ply (pos n) = leb 1 n
is_ply (negsuc n) = n == 0

abbrev pub are_captures : List (ℤ × String) → Bool
are_captures [] = true
are_captures ((ply, body) ∷ captures) = is_ply ply && not (is_empty body) && are_captures captures

abbrev pub is_open_ply : Option ℤ → Bool
is_open_ply none = true
is_open_ply (some ply) = is_ply ply

unfoldable pub is_sound : Scan → Bool
is_sound s = are_captures s.captures && is_open_ply s.semi_open_ply

-- A piece of the loop that leaves the captures as they are, and either the open comment too or
-- opens one.
record IsTame (s t : Scan) : Type 0 where
  same : t.captures ≡ s.captures
  sound : is_sound s ≡ true → is_sound t ≡ true

-- the characters that end a line
pub line_ends : String → ℕ
unfolding is_line_end
line_ends Str.[] = 0
line_ends (Str.◌∷◌ c text) = let rest = line_ends text in if is_line_end c then suc rest else rest
