-- ===== src/Middleware/Texts.antt =====
-- The texts that mcp_server/middleware/client_ip.py and request_logger.py read: Python's
-- `str.strip` of given characters, slices, and `int` on ASCII text.
use Prim.Native.Nat.{ℕ, zero, suc, ◌+◌, ◌-◌, ◌*◌}
use Prim.Native.String.{String, [], ◌∷◌}
use Prim.Native.Char.{Char, code}
use mathlib.Core.Bool.{Bool, true, false, ◌&&◌}
use mathlib.Core.Option.{Option, none, some}
use chessy_mcp.Prelude.{leb, ltb, ◌==◌, if◌then◌else◌, ℤ, pos, negate, is_empty, is_in}

-- `s.strip(chars)`
unfoldable pub left_strip_of : String → String → String
unfolding is_in
left_strip_of chars [] = []
left_strip_of chars (c ∷ s) =
    let rest = left_strip_of chars s in if is_in c chars then rest else c ∷ s

unfoldable pub right_strip_of : String → String → String
unfolding is_in is_empty
right_strip_of chars [] = []
right_strip_of chars (c ∷ s) =
    let rest = right_strip_of chars s in if is_in c chars && is_empty rest then [] else c ∷ rest

unfoldable pub strip_of : String → String → String
unfolding left_strip_of right_strip_of
strip_of chars s = right_strip_of chars (left_strip_of chars s)

-- `s[n:]`
unfoldable pub drop_chars : ℕ → String → String
drop_chars zero s = s
drop_chars (suc n) [] = []
drop_chars (suc n) (c ∷ s) = drop_chars n s

unfoldable pub is_ascii : String → Bool
is_ascii [] = true
is_ascii (c ∷ s) = let rest = is_ascii s in ltb (code c) 128 && rest

abbrev pub is_digit : Char → Bool
is_digit c = leb 48 (code c) && leb (code c) 57

-- the digits of a text
unfoldable pub count_digits : String → ℕ
count_digits [] = 0
count_digits (c ∷ s) = let rest = count_digits s in if is_digit c then suc rest else rest

-- the digits that are left, behind a digit or not; one underscore may stand between two of them
unfoldable pub digits : ℕ → Bool → String → Option ℕ
digits acc behind [] = if behind then some acc else none
digits acc behind (c ∷ s) =
    let next = digits (acc * 10 + (code c - 48)) true s in
    let gap = digits acc false s in
    if is_digit c then next else if code c == 95 && behind then gap else none

abbrev with_sign : (ℕ → ℤ) → Option ℕ → Option ℤ
with_sign sign none = none
with_sign sign (some n) = some (sign n)

-- `int(s)` of a stripped text, `none` where it raises; Python reads at most 4300 digits
unfoldable pub int_of : String → Option ℤ
unfolding digits count_digits negate
int_of [] = none
int_of (c ∷ s) =
    if ltb 4300 (count_digits (c ∷ s))
    then none
    else if code c == 45
    then with_sign (λ n. negate (pos n)) (digits 0 false s)
    else if code c == 43
    then with_sign pos (digits 0 false s)
    else with_sign pos (digits 0 false (c ∷ s))
