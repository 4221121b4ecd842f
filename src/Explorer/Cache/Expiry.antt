-- ===== src/Explorer/Cache/Expiry.antt =====
-- How long `get_or_fetch` of mcp_server/lichess_explorer/cache.py gives what it has fetched.
use chessy_mcp.Prelude.{ℕ, ◌+◌, ◌<◌, String, ◌≡◌, true, false, Option, some, arith, eq_iff, lookup}
use chessy_mcp.Cache.Memory
use chessy_mcp.Cache.Memory.{AsyncLruCache}
use chessy_mcp.Cache.Memory.Bounds.{IsWellFormed}
use chessy_mcp.Cache.Memory.Recency.{get-hit}
use chessy_mcp.Cache.Memory.Eviction.{lookup-set}
use chessy_mcp.Cache.Disk.{get_sync}
use chessy_mcp.Explorer.Cache.{
  CacheEntry, LichessExplorerCache, World, answer, remember, after_fetch, from_l2, get_or_fetch,
}

module _ {Json : Type 0} (payload_of : String → Option (Json × ℕ))
    (row_of : Json → ℕ → String) where
  -- what the other tasks leave: a well-formed first tier with room, and the same time to live
  pub record IsUsable (ttl : ℕ) (c : LichessExplorerCache Json) : Type 0 where
    pub formed : IsWellFormed c.l1
    pub room : 0 < c.l1.maxsize
    pub same_ttl : c.ttl ≡ ttl

  remember_lem :
      (key : String) (value : Json) (expires_at ttl : ℕ) (c : LichessExplorerCache Json)
      → IsUsable ttl c
      → lookup key (remember payload_of row_of key value expires_at c).l1.cache
        ≡ some (record { value = value; expires_at = expires_at })
  unfolding remember
  remember_lem key value expires_at ttl c h = ground (
    arith,
    eq_iff key key,
    lookup-set key key (record { value = value; expires_at = expires_at }) c.l1 h.formed h.room,
  )

  after_fetch_lem :
      (w : World Json) (key : String) (value : Json) (ttl : ℕ) (c t : LichessExplorerCache Json)
      → IsUsable ttl c
      → after_fetch payload_of row_of w key c ≡ (answer value false, t)
      → lookup key t.l1.cache ≡ some (record { value = value; expires_at = w.now + ttl })
  unfolding after_fetch
  after_fetch_lem w key value ttl c t h e =
      ground (arith, e, h.same_ttl, remember_lem key value (w.now + ttl) ttl c h)

  -- what stands in the first tier, alive, is given without the second tier and the fetch
  hit_lem :
      (w : World Json) (key : String) (e : CacheEntry Json) (c : LichessExplorerCache Json)
      → lookup key c.l1.cache ≡ some e
      → w.now < e.expires_at
      → (get_or_fetch payload_of row_of w key c).0 ≡ answer e.value true
  unfolding get_or_fetch
  hit_lem w key e c h l = ground (arith, l, get-hit key e c.l1 h)

  from_l2_lem :
      (w : World Json) (key : String) (value : Json) (ttl : ℕ) (c t : LichessExplorerCache Json)
      → ((u : LichessExplorerCache Json) → IsUsable ttl (w.during_fetch u))
      → from_l2 payload_of row_of w key c ≡ (answer value false, t)
      → lookup key t.l1.cache ≡ some (record { value = value; expires_at = w.now + ttl })
  unfolding from_l2
  from_l2_lem w key value ttl c t h e =
      let read = w.during_read (record c { l2 = (get_sync w.disk_read key c.l2).1 }) in
      ground (arith, e, after_fetch_lem w key value ttl (w.during_fetch read) t (h read))

  get_or_fetch-entry :
      (w : World Json) (key : String) (value : Json) (ttl : ℕ) (c t : LichessExplorerCache Json)
      → ((u : LichessExplorerCache Json) → IsUsable ttl (w.during_fetch u))
      → get_or_fetch payload_of row_of w key c ≡ (answer value false, t)
      → lookup key t.l1.cache ≡ some (record { value = value; expires_at = w.now + ttl })
  unfolding get_or_fetch
  get_or_fetch-entry w key value ttl c t h e =
      let looked = record c { l1 = (Memory.get key c.l1).1 } in
      ground (arith, e, from_l2_lem w key value ttl looked t h)

  -- What `get_or_fetch` has fetched it gives again, as a hit and whatever SQLite and the fetcher
  -- then do, until `ttl` seconds after the start of the call that fetched it, if the other tasks
  -- of that call left the first tier well-formed and no task has touched it since.
  pub get_or_fetch_again :
      (w later : World Json) (key : String) (value : Json) (ttl : ℕ)
      (c t : LichessExplorerCache Json)
      → ((u : LichessExplorerCache Json) → IsUsable ttl (w.during_fetch u))
      → get_or_fetch payload_of row_of w key c ≡ (answer value false, t)
      → later.now < w.now + ttl
      → (get_or_fetch payload_of row_of later key t).0 ≡ answer value true
  get_or_fetch_again w later key value ttl c t h e l =
      hit_lem later key (record { value = value; expires_at = w.now + ttl }) t
        (get_or_fetch-entry w key value ttl c t h e) l
