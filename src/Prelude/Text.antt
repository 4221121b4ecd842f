-- ===== src/Prelude/Text.antt =====
-- Python's `str.startswith`, `str.removeprefix`, `str.strip` on ASCII blanks, and
-- `str.split(mark, maxsplit=1)`.
use Prim.Native.String.{String, [], ◌∷◌}
use Prim.Native.Char.{Char, code}
use mathlib.Core.Bool.{Bool, ◌&&◌, ◌||◌}
use mathlib.Core.Option.{Option, none, some}
use chessy_mcp.Prelude.Test.{leb, if◌then◌else◌, is_some}
use chessy_mcp.Prelude.Test

abbrev pub same_char : Char → Char → Bool
same_char c d = Test.◌==◌ (code c) (code d)

-- the text after a prefix, if it stands there
unfoldable pub after_prefix : String → String → Option String
after_prefix [] s = some s
after_prefix (c ∷ mark) [] = none
after_prefix (c ∷ mark) (d ∷ s) =
    let rest = after_prefix mark s in if same_char c d then rest else none

unfoldable pub starts_with : String → String → Bool
unfolding after_prefix
starts_with mark s = is_some (after_prefix mark s)

unfoldable pub remove_prefix : String → String → String
unfolding after_prefix
remove_prefix mark s = elim (after_prefix mark s) [ none ↦ s | some rest ↦ rest ]

-- `s.split(mark, maxsplit=1)`: the text before the first mark, and the one after it
unfoldable pub split_once : String → String → String × Option String
unfolding after_prefix
split_once mark [] = ([], none)
split_once mark (c ∷ s) =
    let rest = split_once mark s in
    elim (after_prefix mark (c ∷ s)) [ some after ↦ ([], some after) | none ↦ (c ∷ rest.0, rest.1) ]

-- a blank, or one of tab, line feed, vertical tab, form feed and carriage return
abbrev pub is_blank : Char → Bool
is_blank c = Test.◌==◌ (code c) 32 || (leb 9 (code c) && leb (code c) 13)

unfoldable pub left_strip : String → String
left_strip [] = []
left_strip (c ∷ s) = let rest = left_strip s in if is_blank c then rest else c ∷ s

unfoldable pub is_empty : String → Bool
is_empty [] = Bool.true
is_empty (c ∷ s) = Bool.false

unfoldable pub right_strip : String → String
unfolding is_empty
right_strip [] = []
right_strip (c ∷ s) =
    let rest = right_strip s in if is_blank c && is_empty rest then [] else c ∷ rest

unfoldable pub strip : String → String
unfolding left_strip right_strip
strip s = right_strip (left_strip s)

-- `in` on texts
unfoldable pub contains_text : String → String → Bool
unfolding starts_with
contains_text part [] = is_empty part
contains_text part (c ∷ s) = let rest = contains_text part s in starts_with part (c ∷ s) || rest
