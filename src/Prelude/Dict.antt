-- ===== src/Prelude/Dict.antt =====
-- Python's `dict` and `OrderedDict` with string keys: entries in insertion order.
use Prim.Native.Nat.{suc, ◌≤◌}
use Prim.Native.String.{String}
use mathlib.Core.Path.{◌≡◌, refl}
use mathlib.Core.Bool.{true, false}
use mathlib.Core.Option.{Option, none, some}
use mathlib.Core.List.{List, [], ◌∷◌, ◌++◌}
use native.Mathlib.Omega.{arith}
use text.Mathlib.Text.{◌==◌}
use text.Mathlib.TextEquality.{eq_iff}
use chessy_mcp.Prelude.Test.{if◌then◌else◌, is_some}
use chessy_mcp.Prelude.Lists.{length}

abbrev pub Assoc {ℓ} : Type ℓ → Type ℓ
Assoc Val = List (String × Val)

module _ {ℓ} {Val : Type ℓ} where
  -- `d[key] = v`: in place if the key is there, else at the end
  unfoldable pub assign : String → Val → Assoc Val → Assoc Val
  assign key v [] = (key, v) ∷ []
  assign key v ((other, w) ∷ entries) =
      let rest = assign key v entries in
      if other == key then (other, v) ∷ entries else (other, w) ∷ rest

  -- `d.get(key)`
  unfoldable pub lookup : String → Assoc Val → Option Val
  lookup key [] = none
  lookup key ((other, v) ∷ entries) = if other == key then some v else lookup key entries

  -- `d.pop(key, None)`
  unfoldable pub without : String → Assoc Val → Assoc Val
  without key [] = []
  without key ((other, v) ∷ entries) =
      let rest = without key entries in if other == key then rest else (other, v) ∷ rest

  -- `d.update(pairs)`
  unfoldable pub update : Assoc Val → Assoc Val → Assoc Val
  unfolding assign
  update [] entries = entries
  update ((key, v) ∷ pairs) entries = update pairs (assign key v entries)

  -- the last value for a key in the pairs, or the one before
  abbrev pub latest : String → Assoc Val → Option Val → Option Val
  latest key [] before = before
  latest key ((other, v) ∷ pairs) before =
      latest key pairs (if other == key then some v else before)

  -- no key twice
  abbrev pub HasUniqueKeys : Assoc Val → Type 0
  HasUniqueKeys [] = Unit
  HasUniqueKeys ((key, v) ∷ entries) =
      (is_some (lookup key entries) ≡ false) × HasUniqueKeys entries

module _ {ℓ} {Val : Type ℓ} where
  pub lookup-append :
      (key : String) (entries m : Assoc Val)
      → lookup key (entries ++ m)
        ≡ (if is_some (lookup key entries) then lookup key entries else lookup key m)
  unfolding lookup
  lookup-append key [] m = refl
  lookup-append key ((other, v) ∷ entries) m = ground (arith, lookup-append key entries m)

  pub lookup-without :
      (key other : String) (entries : Assoc Val)
      → lookup other (without key entries) ≡ (if key == other then none else lookup other entries)
  unfolding lookup without
  lookup-without key other [] = ground arith
  lookup-without key other ((first, v) ∷ entries) = ground (
    arith,
    eq_iff key other,
    eq_iff first other,
    eq_iff first key,
    lookup-without key other entries,
  )

  pub lookup-assign :
      (key other : String) (v : Val) (entries : Assoc Val)
      → lookup other (assign key v entries)
        ≡ (if key == other then some v else lookup other entries)
  unfolding lookup assign
  lookup-assign key other v [] = refl
  lookup-assign key other v ((first, w) ∷ entries) = ground (
    arith,
    lookup-assign key other v entries,
    eq_iff first key,
    eq_iff first other,
    eq_iff key other,
  )

  pub without-absent :
      (key : String) (entries : Assoc Val)
      → is_some (lookup key entries) ≡ false
      → without key entries ≡ entries
  unfolding lookup without
  without-absent key [] h = refl
  without-absent key ((other, v) ∷ entries) h = ground (arith, without-absent key entries)

  pub assign-absent :
      (key : String) (v : Val) (entries : Assoc Val)
      → is_some (lookup key entries) ≡ false
      → assign key v entries ≡ entries ++ (key, v) ∷ []
  unfolding lookup assign
  assign-absent key v [] h = refl
  assign-absent key v ((other, w) ∷ entries) h = ground (arith, assign-absent key v entries)

  -- an assignment to the entry that stands last
  pub assign_last :
      (key : String) (v w : Val) (entries : Assoc Val)
      → is_some (lookup key entries) ≡ false
      → assign key v (entries ++ (key, w) ∷ []) ≡ entries ++ (key, v) ∷ []
  unfolding lookup assign
  assign_last key v w [] h = ground (arith, eq_iff key key)
  assign_last key v w ((other, u) ∷ entries) h = ground (arith, assign_last key v w entries)

  pub length-without_le :
      (key : String) (entries : Assoc Val) → length (without key entries) ≤ length entries
  unfolding without
  length-without_le key [] = omega arith
  length-without_le key ((other, v) ∷ entries) = ground (arith, length-without_le key entries)

  pub length-without_lt :
      (key : String) (entries : Assoc Val)
      → is_some (lookup key entries) ≡ true
      → suc (length (without key entries)) ≤ length entries
  unfolding without lookup
  length-without_lt key [] h = ground arith
  length-without_lt key ((other, v) ∷ entries) h =
      ground (arith, length-without_lt key entries, length-without_le key entries)

  pub HasUniqueKeys-without :
      (key : String) (entries : Assoc Val)
      → HasUniqueKeys entries
      → HasUniqueKeys (without key entries)
  unfolding without
  HasUniqueKeys-without key [] h = tt
  HasUniqueKeys-without key ((other, v) ∷ entries) h =
      ground (arith, HasUniqueKeys-without key entries h.1, lookup-without key other entries)

  pub HasUniqueKeys-concat :
      (key : String) (v : Val) (entries : Assoc Val)
      → HasUniqueKeys entries
      → is_some (lookup key entries) ≡ false
      → HasUniqueKeys (entries ++ (key, v) ∷ [])
  unfolding lookup
  HasUniqueKeys-concat key v [] h a = ground arith
  HasUniqueKeys-concat key v ((other, w) ∷ entries) h a = ground (
    arith,
    HasUniqueKeys-concat key v entries h.1,
    lookup-append other entries ((key, v) ∷ []),
    eq_iff key other,
    eq_iff other key,
  )

  -- with no key twice, `pop` takes out just the one entry
  pub without-middle :
      (key : String) (v : Val) (entries m : Assoc Val)
      → HasUniqueKeys (entries ++ (key, v) ∷ m)
      → without key (entries ++ (key, v) ∷ m) ≡ entries ++ m
  unfolding without lookup
  without-middle key v [] m h = ground (arith, without-absent key m, eq_iff key key)
  without-middle key v ((other, w) ∷ entries) m h = ground (
    arith,
    without-middle key v entries m h.1,
    lookup-append other entries ((key, v) ∷ m),
    eq_iff other key,
    eq_iff key other,
  )

  pub length-assign_le :
      (key : String) (v : Val) (entries : Assoc Val)
      → length (assign key v entries) ≤ suc (length entries)
  unfolding assign
  length-assign_le key v [] = omega arith
  length-assign_le key v ((other, w) ∷ entries) = ground (arith, length-assign_le key v entries)

  pub lookup-update :
      (key : String) (pairs entries : Assoc Val)
      → lookup key (update pairs entries) ≡ latest key pairs (lookup key entries)
  unfolding update
  lookup-update key [] entries = refl
  lookup-update key ((other, v) ∷ pairs) entries =
      rw (lookup-update key pairs (assign other v entries), lookup-assign other key v entries) refl
