-- ===== src/Cache/Memory.antt =====
-- mcp_server/cache/memory.py: the in-memory tier. An `OrderedDict` is an association list, the
-- least recently used entry first; each method runs under the lock, so it is one step.
pub mod Bounds
pub mod Recency
pub mod Eviction
use chessy_mcp.Prelude.{
  ℕ, String, Option, none, some, [], ◌∷◌, ◌++◌, Assoc, lookup, without, assign, is_some, drop,
  length, ltb, if◌then◌else◌,
}

pub record AsyncLruCache {ℓ} (T : Type ℓ) : Type ℓ where
  pub maxsize : ℕ
  pub cache : Assoc T

module _ {ℓ} {T : Type ℓ} where
  unfoldable pub empty : ℕ → AsyncLruCache T
  empty n = record { maxsize = n; cache = [] }

  -- `OrderedDict.move_to_end(key)`, of a key that is there
  unfoldable pub move_to_end : String → Assoc T → Assoc T
  move_to_end key l = elim (lookup key l) [ none ↦ l | some v ↦ without key l ++ (key, v) ∷ [] ]

  unfoldable pub get : String → AsyncLruCache T → Option T × AsyncLruCache T
  unfolding move_to_end
  get key c =
      if is_some (lookup key c.cache)
      then (let moved = move_to_end key c.cache in (lookup key moved, record c { cache = moved }))
      else (none, c)

  unfoldable pub set : String → T → AsyncLruCache T → AsyncLruCache T
  unfolding move_to_end
  set key value c =
      let moved = if is_some (lookup key c.cache) then move_to_end key c.cache else c.cache in
      let written = assign key value moved in
      record c { cache = if ltb c.maxsize (length written) then drop 1 written else written }

  unfoldable pub clear : AsyncLruCache T → AsyncLruCache T
  clear c = record c { cache = [] }

  unfoldable pub size : AsyncLruCache T → ℕ
  size c = length c.cache
