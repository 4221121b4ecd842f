-- ===== src/Explorer/Cache.antt =====
-- mcp_server/lichess_explorer/cache.py: `get_or_fetch` over the two tiers. Clock readings are whole
-- numbers. While the call waits for SQLite or for the fetch, other tasks may run: it is given what
-- they do to the tiers meanwhile. The JSON of a row is the standard library's: `payload_of` gives
-- the value and the time of a row, if both are there, and `row_of` writes them.
pub mod Expiry
use chessy_mcp.Prelude.{ℕ, ◌+◌, String, Bool, true, false, Option, none, some, ltb, if◌then◌else◌}
use chessy_mcp.Cache.Memory
use chessy_mcp.Cache.Memory.{AsyncLruCache}
use chessy_mcp.Cache.Disk.{Table, Outcome, get_sync, set_sync}
use chessy_mcp.Cache.MultiTier.{DiskWrite, max_entries}
use chessy_mcp.Cache.SingleFlight.{Ending, result, raised, cancelled}

pub record CacheEntry (Json : Type 0) : Type 0 where
  pub value : Json
  pub expires_at : ℕ

pub record LichessExplorerCache (Json : Type 0) : Type 0 where
  pub l1 : AsyncLruCache (CacheEntry Json)
  pub l2 : Table
  pub ttl : ℕ

-- what the call meets: the clock, SQLite, the end of the flight, and the other tasks
pub record World (Json : Type 0) : Type 0 where
  pub now : ℕ
  pub disk_read : Outcome
  pub disk_write : DiskWrite
  pub fetched : Ending Json
  pub during_read : LichessExplorerCache Json → LichessExplorerCache Json
  pub during_fetch : LichessExplorerCache Json → LichessExplorerCache Json

-- a value and `cache_hit`, or the fetcher's failure
pub data Answer (Json : Type 0) : Type 0 where
  answer : Json → Bool → Answer Json
  failure : String → Answer Json
  cancellation : Answer Json

module _ {Json : Type 0} (payload_of : String → Option (Json × ℕ))
    (row_of : Json → ℕ → String) where
  -- an entry that `is_alive(now)`
  unfoldable pub alive : ℕ → Option (CacheEntry Json) → Option Json
  alive now none = none
  alive now (some entry) = if ltb now entry.expires_at then some entry.value else none

  unfoldable pub alive_row : ℕ → Option String → Option (Json × ℕ)
  alive_row now none = none
  alive_row now (some raw) = elim (payload_of raw) [
    | none ↦ none
    | some (value, expires_at) ↦ if ltb now expires_at then some (value, expires_at) else none
  ]

  unfoldable pub remember :
      String → Json → ℕ → LichessExplorerCache Json → LichessExplorerCache Json
  remember key value expires_at c = record c {
    l1 = Memory.set key (record { value = value; expires_at = expires_at }) c.l1;
  }

  unfoldable pub write_row :
      DiskWrite → String → Json → ℕ → LichessExplorerCache Json → LichessExplorerCache Json
  write_row disk key value expires_at c = record c {
    l2 =
        set_sync disk.first disk.again disk.now disk.pruned_at max_entries key
          (row_of value expires_at) c.l2;
  }

  -- behind the flight; `now` is still the time at which the call began
  unfoldable pub after_fetch :
      World Json → String → LichessExplorerCache Json → Answer Json × LichessExplorerCache Json
  unfolding remember write_row
  after_fetch w key c = elim w.fetched [
    | raised error ↦ (failure error, c)
    | cancelled ↦ (cancellation, c)
    | result value ↦ (
      answer value false,
      write_row w.disk_write key value (w.now + c.ttl) (remember key value (w.now + c.ttl) c),
    )
  ]

  unfoldable pub from_l2 :
      World Json → String → LichessExplorerCache Json → Answer Json × LichessExplorerCache Json
  unfolding alive_row remember after_fetch
  from_l2 w key c =
      let (raw, l2') = get_sync w.disk_read key c.l2 in
      let read = w.during_read (record c { l2 = l2' }) in
      elim (alive_row w.now raw) [
        | some (value, expires_at) ↦ (answer value true, remember key value expires_at read)
        | none ↦ after_fetch w key (w.during_fetch read)
      ]

  unfoldable pub get_or_fetch :
      World Json → String → LichessExplorerCache Json → Answer Json × LichessExplorerCache Json
  unfolding alive from_l2
  get_or_fetch w key c =
      let (entry, l1') = Memory.get key c.l1 in
      let looked = record c { l1 = l1' } in
      elim (alive w.now entry) [
        | some value ↦ (answer value true, looked)
        | none ↦ from_l2 w key looked
      ]
