-- ===== src/Prelude/FullMatch.antt =====
-- Regular expressions by derivatives: `re.fullmatch` on ASCII text. Which way a match is found
-- (greedy, first branch) does not matter to whether there is one.
use Prim.Native.Nat.{ℕ}
use Prim.Native.String.{String, [], ◌∷◌}
use Prim.Native.Char.{Char, code}
use mathlib.Core.Bool.{Bool, true, false, not, ◌&&◌, ◌||◌}
use mathlib.Core.List.{List}
use chessy_mcp.Prelude.Test.{leb, if◌then◌else◌}

pub data Regex : Type 0 where
  nothing : Regex
  nil : Regex
  -- a character between two codes
  between : ℕ → ℕ → Regex
  one_of : String → Regex
  both : Regex → Regex → Regex
  either : Regex → Regex → Regex
  many : Regex → Regex

unfoldable pub is_in : Char → String → Bool
is_in c [] = false
is_in c (d ∷ s) = let rest = is_in c s in chessy_mcp.Prelude.Test.◌==◌ (code c) (code d) || rest

abbrev pub digit : Regex
digit = between 48 57

unfoldable pub optional : Regex → Regex
optional r = either nil r

unfoldable pub some_of : Regex → Regex
some_of r = both r (many r)

-- the characters of a literal
unfoldable pub literal : String → Regex
literal [] = nil
literal (c ∷ s) = both (between (code c) (code c)) (literal s)

unfoldable pub accepts_empty : Regex → Bool
accepts_empty nothing = false
accepts_empty nil = true
accepts_empty (between a b) = false
accepts_empty (one_of s) = false
accepts_empty (both r s) = accepts_empty r && accepts_empty s
accepts_empty (either r s) = accepts_empty r || accepts_empty s
accepts_empty (many r) = true

-- what may follow the character
unfoldable pub derive : Char → Regex → Regex
unfolding accepts_empty is_in
derive c nothing = nothing
derive c nil = nothing
derive c (between a b) = if leb a (code c) && leb (code c) b then nil else nothing
derive c (one_of s) = if is_in c s then nil else nothing
derive c (both r s) =
    let first = both (derive c r) s in
    let second = derive c s in if accepts_empty r then either first second else first
derive c (either r s) = either (derive c r) (derive c s)
derive c (many r) = both (derive c r) (many r)

unfoldable pub full_match : Regex → String → Bool
unfolding accepts_empty derive
full_match r [] = accepts_empty r
full_match r (c ∷ s) = full_match (derive c r) s

unfoldable pub sequence : List Regex → Regex
sequence List.[] = nil
sequence (List.◌∷◌ r rs) = both r (sequence rs)

-- one of some literals
unfoldable pub any_of : List String → Regex
unfolding literal
any_of List.[] = nothing
any_of (List.◌∷◌ s ss) = either (literal s) (any_of ss)

-- `\s`
abbrev pub blank : Regex
blank = either (between 9 13) (between 32 32)

-- `\w`
abbrev pub is_word_char : Char → Bool
is_word_char c =
    (leb 97 (code c) && leb (code c) 122)
    || (leb 65 (code c) && leb (code c) 90)
    || (leb 48 (code c) && leb (code c) 57)
    || chessy_mcp.Prelude.Test.◌==◌ (code c) 95

abbrev pub starts_word : String → Bool
starts_word [] = false
starts_word (c ∷ s) = is_word_char c

-- a match at the start of the text that ends where a word ends
unfoldable pub match_word : Regex → String → Bool
unfolding accepts_empty derive
match_word r [] = accepts_empty r
match_word r (c ∷ s) =
    let rest = match_word (derive c r) s in (accepts_empty r && not (is_word_char c)) || rest

-- `re.search(r"\b…\b", text)`, for an expression whose matches begin and end with word characters;
-- `inside` says that a word character stands before the text
unfoldable pub search_word : Regex → Bool → String → Bool
unfolding match_word
search_word r inside [] = false
search_word r inside (c ∷ s) =
    let rest = search_word r (is_word_char c) s in (not inside && match_word r (c ∷ s)) || rest
