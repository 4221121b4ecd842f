-- ===== src/Tests/Explorer.antt =====
-- Runs of mcp_server/lichess_explorer at concrete replies, and instances of its theorems. A JSON
-- value is its own text, a dict starts with a brace, and the text `bad` does not parse.
use chessy_mcp.Prelude.{
  ℕ, zero, suc, String, ◌≡◌, refl, Bool, true, false, Option, none, some, [], ◌∷◌, arith, str_eq,
  starts_with, is_empty, if◌then◌else◌, lookup,
}
use chessy_mcp.Explorer.Client.{
  auth, response, returned, raised, Reply, timed_out, answered, read_lines, query,
}
use chessy_mcp.Explorer.Client.Attempts.{is_server_error, meaning, query_lem}
use chessy_mcp.Cache.Memory.{empty, get}
use chessy_mcp.Cache.Disk.{done, other_error, get_sync}
use chessy_mcp.Cache.SingleFlight.{result, raised as flight_raised}
use chessy_mcp.Explorer.Cache.{LichessExplorerCache, World, answer, get_or_fetch}
use chessy_mcp.Explorer.Cache.Expiry.{IsUsable, get_or_fetch_again}

abbrev loads : String → Option String
loads s = if str_eq s "bad" then none else some s

abbrev is_dict : String → Bool
is_dict s = starts_with "{" s

-- the server fails once, then answers
abbrev flaky : ℕ → Reply
flaky zero = timed_out
flaky (suc zero) = answered 503 "text/plain" ""
flaky (suc (suc n)) = answered 200 "application/x-ndjson" "{1}\n\r\n{2}\n"

second_request : query loads is_dict "token" flaky ≡ (returned "{2}", 2)
unfolding query starts_with
second_request = refl

no_request : query loads is_dict "" flaky ≡ (raised auth, 0)
unfolding query
no_request = refl

query_lem_example : query loads is_dict "token" flaky ≡ (
    if is_empty "token"
    then (raised auth, 0)
    else if is_server_error (flaky 1)
    then (meaning loads is_dict (flaky 2), 2)
    else (meaning loads is_dict (flaky 1), 1))
query_lem_example = query_lem loads is_dict "token" flaky

bad_line : read_lines loads is_dict none ("{1}" ∷ " bad " ∷ []) ≡ raised response
unfolding read_lines starts_with
bad_line = refl

abbrev fresh_cache : LichessExplorerCache String
fresh_cache = record { l1 = empty 2; l2 = []; ttl = 480 }

abbrev first_call : World String
first_call = record {
  now = 1000;
  disk_read = done;
  disk_write = record { first = done; again = done; now = 1000; pruned_at = 1000 };
  fetched = result "{}";
  during_read = λ u. u;
  during_fetch = λ u. fresh_cache;
}

abbrev second_call : World String
second_call = record {
  now = 1479;
  disk_read = other_error;
  disk_write = record { first = done; again = done; now = 1479; pruned_at = 1479 };
  fetched = flight_raised "unreachable";
  during_read = λ u. u;
  during_fetch = λ u. u;
}

abbrev no_payload : String → Option (String × ℕ)
no_payload raw = none

abbrev row : String → ℕ → String
row value expires_at = value

fresh-IsUsable : (u : LichessExplorerCache String) → IsUsable no_payload row 480 fresh_cache
unfolding empty
fresh-IsUsable u = record {
  formed = record { unique = tt; bounded = omega arith };
  room = omega arith;
  same_ttl = refl;
}

first_call_fetches :
    get_or_fetch no_payload row first_call "k" fresh_cache
    ≡ (answer "{}" false, (get_or_fetch no_payload row first_call "k" fresh_cache).1)
unfolding get_or_fetch empty get lookup get_sync
first_call_fetches = refl

get_or_fetch_again_example :
    (get_or_fetch no_payload row second_call "k"
      (get_or_fetch no_payload row first_call "k" fresh_cache).1).0
    ≡ answer "{}" true
get_or_fetch_again_example =
    get_or_fetch_again no_payload row first_call second_call "k" "{}" 480 fresh_cache
      (get_or_fetch no_payload row first_call "k" fresh_cache).1 fresh-IsUsable first_call_fetches
      (omega arith)
