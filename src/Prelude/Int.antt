-- ===== src/Prelude/Int.antt =====
-- Python's integers: `negsuc n` is -(n + 1).
use Prim.Native.Nat.{ℕ, ◌+◌, ◌-◌, ◌≤◌}
use mathlib.Core.Path.{◌≡◌}
use mathlib.Core.Logic.{◌⊎◌}
use mathlib.Core.Bool.{Bool, true}
use native.Mathlib.Omega.{arith}
use chessy_mcp.Prelude.Test.{leb, ltb, if◌then◌else◌}

pub data ℤ : Type 0 where
  pos : ℕ → ℤ
  negsuc : ℕ → ℤ

-- a number is its positive part less its negative part
abbrev pub pos_part : ℤ → ℕ
pos_part (negsuc n) = 0
pos_part (pos n) = n

abbrev pub neg_part : ℤ → ℕ
neg_part (negsuc n) = n + 1
neg_part (pos n) = 0

-- the difference of two naturals
unfoldable pub sub_ℕ : ℕ → ℕ → ℤ
sub_ℕ a b = if leb b a then pos (a - b) else negsuc (b - a - 1)

infixl 65 ◌+ℤ◌ ◌-ℤ◌
unfoldable pub ◌+ℤ◌ : ℤ → ℤ → ℤ
unfolding sub_ℕ
x +ℤ y = sub_ℕ (pos_part x + pos_part y) (neg_part x + neg_part y)

unfoldable pub ◌-ℤ◌ : ℤ → ℤ → ℤ
unfolding sub_ℕ
x -ℤ y = sub_ℕ (pos_part x + neg_part y) (neg_part x + pos_part y)

unfoldable pub negate : ℤ → ℤ
unfolding sub_ℕ
negate x = sub_ℕ (neg_part x) (pos_part x)

infix 50 ◌≤ℤ◌
abbrev pub ◌≤ℤ◌ : ℤ → ℤ → Type 0
x ≤ℤ y = pos_part x + neg_part y ≤ pos_part y + neg_part x

-- the tests `x <= y` and `x < y`
abbrev pub lebℤ : ℤ → ℤ → Bool
lebℤ x y = leb (pos_part x + neg_part y) (pos_part y + neg_part x)

abbrev pub ltbℤ : ℤ → ℤ → Bool
ltbℤ x y = ltb (pos_part x + neg_part y) (pos_part y + neg_part x)

unfoldable pub minℤ : ℤ → ℤ → ℤ
minℤ x y = if lebℤ x y then x else y

unfoldable pub maxℤ : ℤ → ℤ → ℤ
maxℤ x y = if lebℤ x y then y else x

pub +ℤ_parts :
    (x y : ℤ)
    → pos_part (x +ℤ y) + neg_part x + neg_part y ≡ pos_part x + pos_part y + neg_part (x +ℤ y)
unfolding ◌+ℤ◌
+ℤ_parts x y = ground arith

pub -ℤ_parts :
    (x y : ℤ)
    → pos_part (x -ℤ y) + neg_part x + pos_part y ≡ pos_part x + neg_part y + neg_part (x -ℤ y)
unfolding ◌-ℤ◌
-ℤ_parts x y = ground arith

pub sub_ℕ_parts : (a b : ℕ) → pos_part (sub_ℕ a b) + b ≡ a + neg_part (sub_ℕ a b)
unfolding sub_ℕ
sub_ℕ_parts a b = ground arith

pub negate_parts : (x : ℤ) → pos_part (negate x) + pos_part x ≡ neg_part x + neg_part (negate x)
unfolding negate
negate_parts x = ground arith

pub minℤ_parts :
    (x y : ℤ)
    → ((pos_part (minℤ x y) ≡ pos_part x) × (neg_part (minℤ x y) ≡ neg_part x) × (x ≤ℤ y))
      ⊎ ((pos_part (minℤ x y) ≡ pos_part y) × (neg_part (minℤ x y) ≡ neg_part y) × (y ≤ℤ x))
unfolding minℤ
minℤ_parts x y = ground arith

pub maxℤ_parts :
    (x y : ℤ)
    → ((pos_part (maxℤ x y) ≡ pos_part y) × (neg_part (maxℤ x y) ≡ neg_part y) × (x ≤ℤ y))
      ⊎ ((pos_part (maxℤ x y) ≡ pos_part x) × (neg_part (maxℤ x y) ≡ neg_part x) × (y ≤ℤ x))
unfolding maxℤ
maxℤ_parts x y = ground arith

pub lebℤ→≤ℤ : (x y : ℤ) → lebℤ x y ≡ true → x ≤ℤ y
lebℤ→≤ℤ x y h = ground arith

pub ruleset int_laws =
    (arith, +ℤ_parts, -ℤ_parts, sub_ℕ_parts, negate_parts, minℤ_parts, maxℤ_parts)
