-- ===== src/Tests/Cache.antt =====
-- mcp_server/cache on small inputs.
use chessy_mcp.Prelude.{
  ℕ, ◌<◌, ◌≤◌, length, String, ◌≡◌, refl, true, none, some, List, [], ◌∷◌, arith, lookup, assign,
  without, str_eq, if◌then◌else◌,
}
use chessy_mcp.Cache.Memory
use chessy_mcp.Cache.Memory.{AsyncLruCache, get, set, size}
use chessy_mcp.Cache.Memory.Bounds.{IsWellFormed, Call, read, write, run, run-IsWellFormed}
use chessy_mcp.Cache.Memory.Eviction.{is_victim, lookup-set}
use chessy_mcp.Cache.Disk.{
  Table, done, database_error, other_error, get_sync, set_sync, prune, select,
}
use chessy_mcp.Cache.Disk.Rows.{get-set, length-set_pruning}
use chessy_mcp.Cache.MultiTier.{Models, DiskWrite, MultiTierCache, eval, get_eval, set_eval}
use chessy_mcp.Cache.MultiTier.Reads.{
  restarted, get_eval-set_eval, get_eval_race, get_eval-restarted, l2-set_eval_warm,
}
use chessy_mcp.Cache.SingleFlight
use chessy_mcp.Cache.SingleFlight.{Ending, result, waiter, SingleFlight, enter, settle, awaited}
use chessy_mcp.Cache.SingleFlight.Steps.{
  Tasks, Reach, here, next, call, IsCoalesced, start, Reach-IsCoalesced, call_joins, Reach-awaited,
}

-- two entries at most: the read of "a" makes "b" the oldest
abbrev calls : List (Call ℕ)
calls = write "a" 1 ∷ write "b" 2 ∷ read "a" ∷ write "c" 3 ∷ []

run-calls : (run calls (Memory.empty 2)).cache ≡ ("a", 1) ∷ ("c", 3) ∷ []
unfolding set get lookup assign without Memory.empty
run-calls = refl

run-IsWellFormed_example : IsWellFormed (run calls (Memory.empty 2))
run-IsWellFormed_example = run-IsWellFormed calls 2

abbrev full : AsyncLruCache ℕ
full = run calls (Memory.empty 2)

lookup-set_run : lookup "a" (set "d" 4 full).cache ≡ (
    if str_eq "d" "a"
    then some 4
    else if is_victim "d" full "a"
    then none
    else lookup "a" full.cache)
unfolding set get Memory.empty lookup assign
lookup-set_run = lookup-set "d" "a" 4 full (run-IsWellFormed calls 2) (omega arith)

-- a second row, and a write in a pruning second (at 100000 ms) with room for one
abbrev rows : Table
rows = record { key = "a"; val = "1"; created_at = 7 } ∷ []

pruned :
    set_sync done done 100000 100000 1 "b" "2" rows
    ≡ record { key = "b"; val = "2"; created_at = 100000 } ∷ []
unfolding set_sync prune
pruned = refl

corrupt :
    set_sync (database_error true) done 5 5 9 "b" "2" rows
    ≡ record { key = "b"; val = "2"; created_at = 5 } ∷ []
unfolding set_sync
corrupt = refl

get-set_run :
    (get_sync done "a" (set_sync done done 1000 1000 9 "b" "2" rows)).0
    ≡ (if str_eq "b" "a" then some "2" else some "1")
unfolding get_sync
get-set_run = get-set "b" "a" "2" 1000 1000 9 done rows refl

length-set_pruning_run : length (set_sync done done 100000 100000 1 "b" "2" rows) ≤ 1
length-set_pruning_run = length-set_pruning "b" "2" 100000 100000 1 done rows refl

-- JSON of a model that is a text already
abbrev texts : Models
texts = record {
  Eval = String;
  Analysis = String;
  eval_of_json = some;
  eval_to_json = λ s. s;
  moves_of_json = λ s. some (s ∷ []);
  moves_to_json = λ l. "";
  analysis_of_json = some;
  analysis_to_json = λ s. s;
}

abbrev cold : MultiTierCache texts
cold = record { l1 = Memory.empty 2; l2 = [] }

abbrev quiet : DiskWrite
quiet = record { first = done; again = done; now = 1000; pruned_at = 1000 }

cold-IsWellFormed : IsWellFormed cold.l1
unfolding Memory.empty
cold-IsWellFormed = record { unique = tt; bounded = omega arith }

get_eval-set_eval_run :
    (get_eval texts other_error (λ c. c) "k" (set_eval texts quiet "k" "e" cold)).0 ≡ some "e"
unfolding Memory.empty
get_eval-set_eval_run =
    get_eval-set_eval texts quiet other_error (λ c. c) "k" "e" cold cold-IsWellFormed (omega arith)

-- another task that stores "e" in an empty memory tier
abbrev writer : MultiTierCache texts → MultiTierCache texts
writer c = record c { l1 = Memory.set "k" (eval "e") (Memory.empty 2) }

get_eval_race_example : (get_eval texts done writer "k" cold).0 ≡ some "e"
unfolding Memory.empty Memory.set lookup assign select
get_eval_race_example = get_eval_race texts done writer "k" "e" cold refl refl (λ t. refl)

get_eval-restarted_run :
    (get_eval texts done (λ c. c) "k" (restarted texts 2 (set_eval texts quiet "k" "e" cold))).0
    ≡ some "e"
unfolding Memory.empty lookup
get_eval-restarted_run = get_eval-restarted texts quiet (λ c. c) "k" "e" cold 2 refl refl refl refl

abbrev warm : MultiTierCache texts
warm = writer cold

restarted_warm : (set_eval texts quiet "k" "f" warm).l2 ≡ []
unfolding Memory.empty Memory.set lookup assign
restarted_warm = l2-set_eval_warm texts quiet "k" "f" (eval "e") warm refl

-- two callers of one key, the end of the work, and the first caller's leave
abbrev one : Tasks ℕ
one = record { flight = (enter "k" start.flight).1; producers = ("k", 0) ∷ [] }

one_reached : Reach (start {T = ℕ}) one
unfolding enter SingleFlight.empty lookup
one_reached = next here (call "k" start)

Reach-IsCoalesced_example : IsCoalesced one
Reach-IsCoalesced_example = Reach-IsCoalesced one_reached

joined_call : enter "k" one.flight ≡ (waiter 0, one.flight)
unfolding lookup
joined_call = call_joins "k" 0 one (Reach-IsCoalesced one_reached) refl

abbrev settled : Tasks ℕ
settled = record one { flight = settle 0 (result 42) one.flight }

Reach-awaited_run : (0 < settled.flight.next) × (awaited 0 settled.flight ≡ some (result 42))
unfolding enter settle awaited SingleFlight.empty lookup
Reach-awaited_run = Reach-awaited settled settled 0 (result 42) (omega arith) refl here
