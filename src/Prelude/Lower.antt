-- ===== src/Prelude/Lower.antt =====
-- Python's `str.lower` on ASCII.
use Prim.Native.Nat.{◌-◌}
use Prim.Native.String.{String, [], ◌∷◌, char_at}
use Prim.Native.Char.{Char, code}
use mathlib.Core.Bool.{◌&&◌}
use chessy_mcp.Prelude.Test.{leb, if◌then◌else◌}

abbrev pub lower_char : Char → Char
lower_char c =
    if leb 65 (code c) && leb (code c) 90
    then char_at "abcdefghijklmnopqrstuvwxyz" (code c - 65)
    else c

unfoldable pub lower : String → String
lower [] = []
lower (c ∷ s) = lower_char c ∷ lower s
