-- ===== src/Cache/Memory/Bounds.antt =====
-- The invariant of `AsyncLRUCache` (mcp_server/cache/memory.py), kept by every method.
use chessy_mcp.Prelude.{
  ℕ, ◌≤◌, ◌+◌, String, ◌≡◌, refl, inl, inr, Option, none, some, List, [], ◌∷◌, arith, Assoc, lookup,
  without, drop, length, length-append, HasUniqueKeys, HasUniqueKeys-without, HasUniqueKeys-concat,
  length-without_lt, length-without_le, Bool-cases, ltb,
}
use chessy_mcp.Cache.Memory.{AsyncLruCache, empty, get, set, clear}
use chessy_mcp.Cache.Memory.Recency.{touched, without_absent, cache-set, get-hit, get-miss}

pub record IsWellFormed {ℓ} {T : Type ℓ} (c : AsyncLruCache T) : Type 0 where
  pub unique : HasUniqueKeys c.cache
  pub bounded : length c.cache ≤ c.maxsize

module _ {ℓ} {T : Type ℓ} where
  HasUniqueKeys-touched :
      (k : String) (v : T) (l : Assoc T) → HasUniqueKeys l → HasUniqueKeys (touched k v l)
  HasUniqueKeys-touched k v l h =
      HasUniqueKeys-concat k v (without k l) (HasUniqueKeys-without k l h) (without_absent k l)

  length-touched_le : (k : String) (v : T) (l : Assoc T) → length (touched k v l) ≤ length l + 1
  length-touched_le k v l =
      omega (arith, length-append (without k l) ((k, v) ∷ []), length-without_le k l)

  pub length-touched_present :
      (k : String) (v w : T) (l : Assoc T) → lookup k l ≡ some w → length (touched k v l) ≤ length l
  length-touched_present k v w l h =
      omega (arith, length-append (without k l) ((k, v) ∷ []), length-without_lt k l (rw h))

  HasUniqueKeys-drop : (l : Assoc T) → HasUniqueKeys l → HasUniqueKeys (drop 1 l)
  HasUniqueKeys-drop [] h = tt
  HasUniqueKeys-drop ((k, v) ∷ l) h = h.1

  length-drop_one : (l : Assoc T) (n : ℕ) → length l ≤ n + 1 → length (drop 1 l) ≤ n
  length-drop_one [] n h = omega arith
  length-drop_one (x ∷ l) n h = omega arith

  maxsize-set : (k : String) (v : T) (c : AsyncLruCache T) → (set k v c).maxsize ≡ c.maxsize
  unfolding set
  maxsize-set k v c = refl

  pub set-IsWellFormed :
      (k : String) (v : T) (c : AsyncLruCache T) → IsWellFormed c → IsWellFormed (set k v c)
  set-IsWellFormed k v c h = record {
    unique =
        rw (cache-set k v c) (elim (Bool-cases (ltb c.maxsize (length (touched k v c.cache)))) [
          | inl full ↦ rw full (HasUniqueKeys-drop _ (HasUniqueKeys-touched k v c.cache h.unique))
          | inr room ↦ rw room (HasUniqueKeys-touched k v c.cache h.unique)
        ]);
    bounded =
        rw (cache-set k v c, maxsize-set k v c)
          (ground (
            arith,
            length-touched_le k v c.cache,
            length-drop_one (touched k v c.cache) c.maxsize,
            h.bounded,
          ));
  }

  pub get-IsWellFormed :
      (k : String) (c : AsyncLruCache T) → IsWellFormed c → IsWellFormed (get k c).1
  get-IsWellFormed k c h = go (lookup k c.cache) refl
    where
      go : (o : Option T) → lookup k c.cache ≡ o → IsWellFormed (get k c).1
      go none e = rw (get-miss k c e) h
      go (some v) e = rw (get-hit k v c e) (record {
        unique = HasUniqueKeys-touched k v c.cache h.unique;
        bounded = omega (arith, length-touched_present k v v c.cache e, h.bounded);
      })

-- one call of a method
pub data Call {ℓ} (T : Type ℓ) : Type ℓ where
  read : String → Call T
  write : String → T → Call T
  wipe : Call T

module _ {ℓ} {T : Type ℓ} where
  abbrev pub perform : Call T → AsyncLruCache T → AsyncLruCache T
  perform (read k) c = (get k c).1
  perform (write k v) c = set k v c
  perform wipe c = clear c

  abbrev pub run : List (Call T) → AsyncLruCache T → AsyncLruCache T
  run [] c = c
  run (call ∷ rest) c = run rest (perform call c)

  clear-IsWellFormed : (c : AsyncLruCache T) → IsWellFormed (clear c)
  unfolding clear
  clear-IsWellFormed c = record { unique = tt; bounded = omega arith }

  perform-IsWellFormed :
      (call : Call T) (c : AsyncLruCache T) → IsWellFormed c → IsWellFormed (perform call c)
  perform-IsWellFormed (read k) c h = get-IsWellFormed k c h
  perform-IsWellFormed (write k v) c h = set-IsWellFormed k v c h
  perform-IsWellFormed wipe c h = clear-IsWellFormed c

  run_keeps :
      (calls : List (Call T)) (c : AsyncLruCache T) → IsWellFormed c → IsWellFormed (run calls c)
  run_keeps [] c h = h
  run_keeps (call ∷ rest) c h = run_keeps rest (perform call c) (perform-IsWellFormed call c h)

  empty-IsWellFormed : (n : ℕ) → IsWellFormed (empty {T = T} n)
  unfolding empty
  empty-IsWellFormed n = record { unique = tt; bounded = omega arith }

  -- After any sequence of `get`, `set` and `clear` calls on a new cache no key stands twice
  -- and there are at most `maxsize` entries.
  pub run-IsWellFormed : (calls : List (Call T)) (n : ℕ) → IsWellFormed (run calls (empty n))
  run-IsWellFormed calls n = run_keeps calls (empty n) (empty-IsWellFormed n)
