-- ===== src/Cache/Memory/Eviction.antt =====
-- Which entry `AsyncLRUCache.set` (mcp_server/cache/memory.py) gives up, stated without its loop
-- of moves: the oldest one, and only for a new key in a full cache.
use chessy_mcp.Prelude.{
  ◌<◌, String, ◌≡◌, refl, false, Option, none, some, [], ◌∷◌, ◌++◌, arith, Assoc, lookup, is_some,
  drop, length, length-append, HasUniqueKeys, lookup-append, without-absent, Bool, not, ◌&&◌, leb,
  if◌then◌else◌, str_eq, eq_iff,
}
use chessy_mcp.Cache.Memory.{AsyncLruCache, set}
use chessy_mcp.Cache.Memory.Recency.{cache-set, lookup-touched}
use chessy_mcp.Cache.Memory.Bounds.{IsWellFormed, length-touched_present}

module _ {ℓ} {T : Type ℓ} where
  abbrev pub is_oldest : Assoc T → String → Bool
  is_oldest [] j = false
  is_oldest ((i, v) ∷ l) j = str_eq i j

  -- `j` is what a write of `key` pushes out
  abbrev pub is_victim : String → AsyncLruCache T → String → Bool
  is_victim key c j =
      not (is_some (lookup key c.cache)) && leb c.maxsize (length c.cache) && is_oldest c.cache j

  lookup-drop_one :
      (k j : String) (v : T) (l : Assoc T)
      → HasUniqueKeys l
      → 0 < length l
      → lookup j (drop 1 (l ++ (k, v) ∷ []))
        ≡ (if is_oldest l j then lookup j ((k, v) ∷ []) else lookup j (l ++ (k, v) ∷ []))
  unfolding lookup
  lookup-drop_one k j v [] u h = absurd (omega arith)
  lookup-drop_one k j v ((i, w) ∷ l) u h =
      ground (arith, eq_iff i j, eq_iff i i, lookup-append j l ((k, v) ∷ []))

  set_new :
      (k j : String) (v : T) (c : AsyncLruCache T)
      → IsWellFormed c
      → 0 < c.maxsize
      → lookup k c.cache ≡ none
      → lookup j (set k v c).cache
        ≡ (if str_eq k j then some v else if is_victim k c j then none else lookup j c.cache)
  unfolding lookup
  set_new k j v c h pos e =
      rw (cache-set k v c, without-absent k c.cache (rw e))
        (ground (
          arith,
          e,
          eq_iff k j,
          h.bounded,
          length-append c.cache ((k, v) ∷ []),
          lookup-append j c.cache ((k, v) ∷ []),
          lookup-drop_one k j v c.cache h.unique,
        ))

  set_again :
      (k j : String) (v w : T) (c : AsyncLruCache T)
      → IsWellFormed c
      → lookup k c.cache ≡ some w
      → lookup j (set k v c).cache
        ≡ (if str_eq k j then some v else if is_victim k c j then none else lookup j c.cache)
  set_again k j v w c h e = rw (cache-set k v c) (
      ground
        (arith, e, h.bounded, length-touched_present k v w c.cache e, lookup-touched k j v c.cache))

  -- In a well-formed cache with room for at least one entry, `set` stores the value at its
  -- key, drops the least recently used entry exactly when the key is new and the cache is
  -- full, and leaves every other key as it was.
  pub lookup-set :
      (k j : String) (v : T) (c : AsyncLruCache T)
      → IsWellFormed c
      → 0 < c.maxsize
      → lookup j (set k v c).cache
        ≡ (if str_eq k j then some v else if is_victim k c j then none else lookup j c.cache)
  lookup-set k j v c h pos = go (lookup k c.cache) refl
    where
      go :
          (o : Option T)
          → lookup k c.cache ≡ o
          → lookup j (set k v c).cache
            ≡ (if str_eq k j then some v else if is_victim k c j then none else lookup j c.cache)
      go none e = set_new k j v c h pos e
      go (some w) e = set_again k j v w c h e
