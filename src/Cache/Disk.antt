-- ===== src/Cache/Disk.antt =====
-- mcp_server/cache/disk.py: the SQLite tier. The table `eval_cache` is the list of its rows in
-- rowid order. SQLite, the file system and the clock stand outside: each call is given what they
-- do (`Outcome`) and the times that it reads, in milliseconds.
pub mod Rows
use chessy_mcp.Prelude.{
  ℕ, zero, suc, ◌-◌, ◌/◌, ◌%◌, String, Bool, Option, none, some, List, [], ◌∷◌, ◌++◌, length, ltb,
  ◌==◌, if◌then◌else◌, str_eq,
}

pub record Row : Type 0 where
  pub key : String
  pub val : String
  pub created_at : ℕ

abbrev pub Table : Type 0
Table = List Row

-- How a block of statements ends: well, by `sqlite3.DatabaseError` (the flag says whether the
-- files can then be removed), or by another exception.
pub data Outcome : Type 0 where
  done other_error : Outcome
  database_error : Bool → Outcome

unfoldable pub select : String → Table → Option String
select k [] = none
select k (r ∷ rows) = if str_eq r.key k then some r.val else select k rows

unfoldable pub delete : String → Table → Table
delete k [] = []
delete k (r ∷ rows) = let rest = delete k rows in if str_eq r.key k then rest else r ∷ rest

-- `INSERT OR REPLACE`: the row that holds the key goes, and a new row is added
unfoldable pub insert_or_replace : String → String → ℕ → Table → Table
unfolding delete
insert_or_replace k v now rows = delete k rows ++ record { key = k; val = v; created_at = now } ∷ []

min_created : ℕ → Table → ℕ
min_created least [] = least
min_created least (r ∷ rows) =
    min_created (if ltb r.created_at least then r.created_at else least) rows

remove_created : ℕ → Table → Table
remove_created t [] = []
remove_created t (r ∷ rows) =
    let rest = remove_created t rows in if r.created_at == t then rows else r ∷ rest

-- the first row of `ORDER BY created_at ASC` goes
drop_oldest : Table → Table
unfolding min_created remove_created
drop_oldest [] = []
drop_oldest (r ∷ rows) = remove_created (min_created r.created_at rows) (r ∷ rows)

drop_oldest_times : ℕ → Table → Table
drop_oldest_times zero rows = rows
drop_oldest_times (suc n) rows = drop_oldest_times n (drop_oldest rows)

-- `DELETE ... LIMIT max(0, count(*) - max_entries)`
unfoldable pub prune : ℕ → Table → Table
unfolding drop_oldest_times drop_oldest
prune max_entries rows = drop_oldest_times (length rows - max_entries) rows

unfoldable pub handle_db_corruption : Bool → Table → Table
handle_db_corruption removed rows = if removed then [] else rows

unfoldable pub get_sync : Outcome → String → Table → Option String × Table
unfolding select handle_db_corruption
get_sync done k rows = (select k rows, rows)
get_sync (database_error removed) k rows = (none, handle_db_corruption removed rows)
get_sync other_error k rows = (none, rows)

-- the second attempt, on the table that the first one left
rewrite : Outcome → String → String → ℕ → Table → Table
unfolding insert_or_replace
rewrite done k v now rows = insert_or_replace k v now rows
rewrite _ k v now rows = rows

-- `now` is read for `created_at`, and `now'` for the pruning test
unfoldable pub set_sync : Outcome → Outcome → ℕ → ℕ → ℕ → String → String → Table → Table
unfolding insert_or_replace handle_db_corruption rewrite
set_sync done again now now' max_entries k v rows =
    let written = insert_or_replace k v now rows in
    if (now' / 1000) % 100 == 0 then prune max_entries written else written
set_sync (database_error removed) again now now' max_entries k v rows =
    rewrite again k v now (handle_db_corruption removed rows)
set_sync other_error again now now' max_entries k v rows = rows

unfoldable pub clear_sync : Outcome → Table → Table
clear_sync done rows = []
clear_sync _ rows = rows
