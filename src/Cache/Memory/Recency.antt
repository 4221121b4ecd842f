-- ===== src/Cache/Memory/Recency.antt =====
-- What `get` and `set` of `AsyncLRUCache` (mcp_server/cache/memory.py) do to the order of use:
-- each amounts to moving one entry to the recent end.
use chessy_mcp.Prelude.{
  String, ◌≡◌, refl, sym, false, Option, none, some, [], ◌∷◌, ◌++◌, arith, Assoc, lookup, without,
  assign, is_some, drop, length, lookup-without, lookup-append, without-absent, assign-absent,
  assign_last, eq_iff, str_eq, ltb, if◌then◌else◌,
}
use chessy_mcp.Cache.Memory.{AsyncLruCache, move_to_end, get, set}

module _ {ℓ} {T : Type ℓ} where
  -- the entry of `key` anew, at the recent end
  abbrev pub touched : String → T → Assoc T → Assoc T
  touched key value l = without key l ++ (key, value) ∷ []

  pub without_absent : (k : String) (l : Assoc T) → is_some (lookup k (without k l)) ≡ false
  without_absent k l = ground (arith, lookup-without k k l, eq_iff k k)

  moved_lookup : (k : String) (v : T) (l : Assoc T) → lookup k (touched k v l) ≡ some v
  unfolding lookup
  moved_lookup k v l =
      ground (arith, lookup-append k (without k l) ((k, v) ∷ []), without_absent k l, eq_iff k k)

  move_to_end-present :
      (k : String) (w : T) (l : Assoc T) → lookup k l ≡ some w → move_to_end k l ≡ touched k w l
  unfolding move_to_end
  move_to_end-present k w l h = rw (h, move_to_end)

  assign-move_to_end :
      (k : String) (v w : T) (l : Assoc T)
      → lookup k l ≡ some w
      → assign k v (move_to_end k l) ≡ touched k v l
  assign-move_to_end k v w l h =
      rw (move_to_end-present k w l h) (assign_last k v w (without k l) (without_absent k l))

  -- what `set` writes, before it evicts
  pub written_lem :
      (k : String) (v : T) (l : Assoc T)
      → assign k v (if is_some (lookup k l) then move_to_end k l else l) ≡ touched k v l
  written_lem k v l = go (lookup k l) refl
    where
      go :
          (o : Option T)
          → lookup k l ≡ o
          → assign k v (if is_some (lookup k l) then move_to_end k l else l) ≡ touched k v l
      go none e = rw e (rw (without-absent k l (rw e)) (assign-absent k v l (rw e)))
      go (some w) e = rw e (assign-move_to_end k v w l e)

  pub cache-set :
      (k : String) (v : T) (c : AsyncLruCache T)
      → (set k v c).cache ≡ (
          if ltb c.maxsize (length (touched k v c.cache))
          then drop 1 (touched k v c.cache)
          else touched k v c.cache)
  unfolding set
  cache-set k v c = rw (written_lem k v c.cache)

  pub get-hit :
      (k : String) (v : T) (c : AsyncLruCache T)
      → lookup k c.cache ≡ some v
      → get k c ≡ (some v, record c { cache = touched k v c.cache })
  unfolding get
  get-hit k v c h = rw (h, move_to_end) (rw (moved_lookup k v c.cache))

  pub get-miss : (k : String) (c : AsyncLruCache T) → lookup k c.cache ≡ none → get k c ≡ (none, c)
  unfolding get
  get-miss k c h = rw h

  pub lookup-touched :
      (k j : String) (v : T) (l : Assoc T)
      → lookup j (touched k v l) ≡ (if str_eq k j then some v else lookup j l)
  unfolding lookup
  lookup-touched k j v l =
      ground (arith, lookup-append j (without k l) ((k, v) ∷ []), lookup-without k j l, eq_iff k j)

  -- `get` reads what is there, and whatever it does to the order, no key's value changes.
  pub get_lem :
      (k j : String) (c : AsyncLruCache T)
      → ((get k c).0 ≡ lookup k c.cache) × (lookup j (get k c).1.cache ≡ lookup j c.cache)
  get_lem k j c = go (lookup k c.cache) refl
    where
      go :
          (o : Option T)
          → lookup k c.cache ≡ o
          → ((get k c).0 ≡ lookup k c.cache) × (lookup j (get k c).1.cache ≡ lookup j c.cache)
      go none e = rw (get-miss k c e) (sym e, refl)
      go (some v) e =
          rw (get-hit k v c e) (sym e, ground (arith, lookup-touched k j v c.cache, eq_iff k j))

  pub maxsize-get : (k : String) (c : AsyncLruCache T) → (get k c).1.maxsize ≡ c.maxsize
  unfolding get
  maxsize-get k c = ground arith
