-- ===== src/Cache/MultiTier/Reads.antt =====
-- What `MultiTierCache` (mcp_server/cache/multi_tier.py) lets a reader see.
use chessy_mcp.Prelude.{
  ℕ, ◌<◌, String, ◌≡◌, refl, false, Option, none, some, arith, lookup, eq_iff, ◌/◌, ◌%◌, ◌==◌,
}
use chessy_mcp.Cache.Memory
use chessy_mcp.Cache.Memory.{AsyncLruCache}
use chessy_mcp.Cache.Memory.Recency.{get_lem, maxsize-get, get-miss}
use chessy_mcp.Cache.Memory.Bounds.{IsWellFormed, get-IsWellFormed}
use chessy_mcp.Cache.Memory.Eviction.{lookup-set}
use chessy_mcp.Cache.Disk.{Outcome, done, select, get_sync}
use chessy_mcp.Cache.Disk.Rows.{get-set}
use chessy_mcp.Cache.MultiTier.{
  Models, DiskWrite, Value, eval, MultiTierCache, as_eval, write_through, get_eval, set_eval,
  parsed, from_l2, max_entries,
}

module _ (m : Models) where
  open m use {Eval, eval_of_json, eval_to_json}

  abbrev pub held : String → MultiTierCache m → Option (Value m)
  held key c = lookup key c.l1.cache

  -- the row of the disk tier, read as an evaluation
  abbrev pub stored : String → MultiTierCache m → Option Eval
  stored key c = elim (select key c.l2) [ none ↦ none | some raw ↦ eval_of_json raw ]

  -- a process that starts anew on the same file
  abbrev pub restarted : ℕ → MultiTierCache m → MultiTierCache m
  restarted n c = record { l1 = Memory.empty n; l2 = c.l2 }

  lookup-empty : (n : ℕ) (key : String) → lookup key (Memory.empty {T = Value m} n).cache ≡ none
  unfolding lookup Memory.empty
  lookup-empty n key = refl

  get_eval-held :
      (disk : Outcome) (during : MultiTierCache m → MultiTierCache m) (key : String) (v : Eval)
      (c : MultiTierCache m)
      → held key c ≡ some (eval v)
      → (get_eval m disk during key c).0 ≡ some v
  unfolding get_eval
  get_eval-held disk during key v c h = ground (arith, (get_lem key key c.l1).0)

  l1-write :
      (disk : DiskWrite) (key text : String) (v : Value m) (c : MultiTierCache m)
      → (write_through m disk key v text c).l1 ≡ Memory.set key v (Memory.get key c.l1).1
  unfolding write_through
  l1-write disk key text v c = ground arith

  held-write :
      (disk : DiskWrite) (key text : String) (v : Value m) (c : MultiTierCache m)
      → IsWellFormed c.l1
      → 0 < c.l1.maxsize
      → held key (write_through m disk key v text c) ≡ some v
  held-write disk key text v c h pos = rw (l1-write disk key text v c) (
      ground (
        arith,
        maxsize-get key c.l1,
        lookup-set key key v (Memory.get key c.l1).1 (get-IsWellFormed key c.l1 h),
        eq_iff key key,
      ))

  -- A read of a key that was just written returns what was written, whether or not the disk tier
  -- works and whatever other tasks do during the read, if the memory tier has room for one entry.
  pub get_eval-set_eval :
      (write : DiskWrite) (disk : Outcome) (during : MultiTierCache m → MultiTierCache m)
      (key : String) (v : Eval) (c : MultiTierCache m)
      → IsWellFormed c.l1
      → 0 < c.l1.maxsize
      → (get_eval m disk during key (set_eval m write key v c)).0 ≡ some v
  unfolding set_eval
  get_eval-set_eval write disk during key v c h pos =
      get_eval-held disk during key v _ (held-write write key (eval_to_json v) (eval v) c h pos)

  parsed-none :
      (disk : Outcome) (key : String) (c : MultiTierCache m)
      → stored key c ≡ none
      → parsed m (as_eval m) eval eval_of_json (get_sync disk key c.l2).0 ≡ none
  unfolding parsed get_sync
  parsed-none done key c s = ground arith
  parsed-none _ key c s = refl

  from_l2-none :
      (disk : Outcome) (during : MultiTierCache m → MultiTierCache m) (key : String)
      (c : MultiTierCache m)
      → stored key c ≡ none
      → (from_l2 m (as_eval m) eval eval_of_json disk during key c).0
        ≡ as_eval m (held key (during (record c { l2 = (get_sync disk key c.l2).1 })))
  unfolding from_l2
  from_l2-none disk during key c s = ground (
    arith,
    parsed-none disk key c s,
    (get_lem key key (during (record c { l2 = (get_sync disk key c.l2).1 })).l1).0,
  )

  get_eval-l2 :
      (disk : Outcome) (during : MultiTierCache m → MultiTierCache m) (key : String)
      (c : MultiTierCache m)
      → held key c ≡ none
      → get_eval m disk during key c ≡ from_l2 m (as_eval m) eval eval_of_json disk during key c
  unfolding get_eval
  get_eval-l2 disk during key c h = ground (arith, get-miss key c.l1 h)

  -- A read that misses both tiers still returns the evaluation that another task puts into the
  -- memory tier while the read waits for the disk.
  pub get_eval_race :
      (disk : Outcome) (during : MultiTierCache m → MultiTierCache m) (key : String) (v : Eval)
      (c : MultiTierCache m)
      → held key c ≡ none
      → stored key c ≡ none
      → ((t : MultiTierCache m) → held key (during t) ≡ some (eval v))
      → (get_eval m disk during key c).0 ≡ some v
  get_eval_race disk during key v c h s w =
      rw (get_eval-l2 disk during key c h) (rw (from_l2-none disk during key c s) (rw (w _)))

  stored-write :
      (write : DiskWrite) (key text : String) (v : Value m) (c : MultiTierCache m)
      → held key c ≡ none
      → write.first ≡ done
      → ((write.pruned_at / 1000) % 100 == 0) ≡ false
      → select key (write_through m write key v text c).l2 ≡ some text
  unfolding write_through get_sync
  stored-write write key text v c h ok quiet = ground (
    arith,
    (get_lem key key c.l1).0,
    get-set key key text write.now write.pruned_at max_entries write.again c.l2 quiet,
    eq_iff key key,
  )

  get_eval-stored :
      (during : MultiTierCache m → MultiTierCache m) (key : String) (v : Eval)
      (c : MultiTierCache m)
      → held key c ≡ none
      → stored key c ≡ some v
      → (get_eval m done during key c).0 ≡ some v
  unfolding from_l2 parsed get_sync
  get_eval-stored during key v c h s = rw (get_eval-l2 done during key c h) (ground arith)

  -- Writing a key that the memory tier does not hold makes the value survive a restart, if SQLite
  -- works, no pruning falls into that second, and the JSON of the value reads back as the value.
  pub get_eval-restarted :
      (write : DiskWrite) (during : MultiTierCache m → MultiTierCache m) (key : String) (v : Eval)
      (c : MultiTierCache m) (n : ℕ)
      → held key c ≡ none
      → write.first ≡ done
      → ((write.pruned_at / 1000) % 100 == 0) ≡ false
      → eval_of_json (eval_to_json v) ≡ some v
      → (get_eval m done during key (restarted n (set_eval m write key v c))).0 ≡ some v
  unfolding set_eval
  get_eval-restarted write during key v c n h ok quiet json =
      get_eval-stored during key v (restarted n (set_eval m write key v c)) (lookup-empty n key)
        (ground (arith, stored-write write key (eval_to_json v) (eval v) c h ok quiet))

  -- Writing a key that the memory tier holds leaves the disk tier as it was: a process that starts
  -- anew reads what the earlier write stored.
  pub l2-set_eval_warm :
      (write : DiskWrite) (key : String) (v : Eval) (w : Value m) (c : MultiTierCache m)
      → held key c ≡ some w
      → (set_eval m write key v c).l2 ≡ c.l2
  unfolding set_eval write_through
  l2-set_eval_warm write key v w c h = ground (arith, (get_lem key key c.l1).0)
