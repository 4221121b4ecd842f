-- ===== src/Cache/Disk/Rows.antt =====
-- What a read after a write sees, and how many rows a pruning write leaves
-- (mcp_server/cache/disk.py).
use chessy_mcp.Prelude.{
  ℕ, zero, suc, ◌+◌, ◌-◌, ◌≤◌, ◌/◌, ◌%◌, String, ◌≡◌, refl, true, false, ◌⊎◌, inr, some, [], ◌∷◌,
  ◌++◌, arith, length, ltb, ◌==◌, if◌then◌else◌, str_eq, eq_iff,
}
use chessy_mcp.Cache.Disk.{
  Table, Outcome, done, select, delete, insert_or_replace, min_created, remove_created, drop_oldest,
  drop_oldest_times, prune, get_sync, set_sync,
}

select-concat :
    (k j v : String) (t : ℕ) (rows : Table)
    → select j (delete k rows ++ record { key = k; val = v; created_at = t } ∷ [])
      ≡ (if str_eq k j then some v else select j rows)
unfolding select delete
select-concat k j v t [] = refl
select-concat k j v t (r ∷ rows) =
    ground (arith, select-concat k j v t rows, eq_iff k j, eq_iff r.key k, eq_iff r.key j)

pub select-insert :
    (k j v : String) (t : ℕ) (rows : Table)
    → select j (insert_or_replace k v t rows) ≡ (if str_eq k j then some v else select j rows)
unfolding insert_or_replace
select-insert k j v t rows = select-concat k j v t rows

-- either the row is there and goes, or `least` was below all rows
remove-min :
    (rows : Table) (least : ℕ)
    → (length (remove_created (min_created least rows) rows) + 1 ≡ length rows)
      ⊎ (min_created least rows ≡ least)
unfolding min_created remove_created
remove-min [] least = inr refl
remove-min (r ∷ rows) least =
    ground (arith, remove-min rows (if ltb r.created_at least then r.created_at else least))

length-drop_oldest : (rows : Table) → length (drop_oldest rows) ≡ length rows - 1
unfolding drop_oldest
length-drop_oldest [] = omega arith
length-drop_oldest (r ∷ rows) = ground (arith, remove-min rows r.created_at)

length-drop_oldest_times :
    (n : ℕ) (rows : Table) → length (drop_oldest_times n rows) ≡ length rows - n
unfolding drop_oldest_times
length-drop_oldest_times zero rows = omega arith
length-drop_oldest_times (suc n) rows =
    omega (arith, length-drop_oldest_times n (drop_oldest rows), length-drop_oldest rows)

length-prune : (m : ℕ) (rows : Table) → length (prune m rows) ≤ m
unfolding prune
length-prune m rows = omega (arith, length-drop_oldest_times (length rows - m) rows)

-- Unless the write falls in a pruning second, a value that is written is read back, and every other
-- key reads as before, if the database does what it is asked.
pub get-set :
    (k j v : String) (now now' m : ℕ) (again : Outcome) (rows : Table)
    → ((now' / 1000) % 100 == 0) ≡ false
    → (get_sync done j (set_sync done again now now' m k v rows)).0
      ≡ (if str_eq k j then some v else select j rows)
unfolding get_sync set_sync
get-set k j v now now' m again rows h = rw h (select-insert k j v now rows)

-- What a pruning write leaves: `max_entries` rows at most, whatever was there before.
pub length-set_pruning :
    (k v : String) (now now' m : ℕ) (again : Outcome) (rows : Table)
    → ((now' / 1000) % 100 == 0) ≡ true
    → length (set_sync done again now now' m k v rows) ≤ m
unfolding set_sync
length-set_pruning k v now now' m again rows h =
    rw h (length-prune m (insert_or_replace k v now rows))
