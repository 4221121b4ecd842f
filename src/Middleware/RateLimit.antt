-- ===== src/Middleware/RateLimit.antt =====
-- mcp_server/middleware/rate_limit.py: the token bucket of each client. Times are in milliseconds
-- and tokens in thousandths, so a rate in tokens a second is a rate in thousandths a millisecond.
-- Python's floats are integers here. The dictionary of buckets is in insertion order.
pub mod Bounds
pub mod Credit
pub mod Budget
use chessy_mcp.Prelude.{
  ℕ, zero, suc, ◌+◌, ◌*◌, ℤ, pos, sub_ℕ, ◌+ℤ◌, ◌-ℤ◌, minℤ, lebℤ, String, Bool, true, false, Option,
  none, some, List, [], ◌∷◌, length, take, Assoc, lookup, assign, ltb, leb, if◌then◌else◌,
}

pub record Bucket : Type 0 where
  pub tokens : ℤ
  pub last_time : ℕ

pub record TokenBucketRateLimiter : Type 0 where
  pub rate : ℕ
  pub capacity : ℕ
  pub buckets : Assoc Bucket

abbrev pub max_buckets : ℕ
max_buckets = 10000

-- `v[1] > now - 3600`
drop_stale : ℕ → Assoc Bucket → Assoc Bucket
drop_stale now [] = []
drop_stale now ((k, b) ∷ l) =
    let rest = drop_stale now l in if ltb now (b.last_time + 3600000) then (k, b) ∷ rest else rest

-- `sorted(…, reverse=True)` by the last time, which keeps the order of equal ones
insert_recent : String → Bucket → Assoc Bucket → Assoc Bucket
insert_recent k b [] = (k, b) ∷ []
insert_recent k b ((j, c) ∷ l) =
    let rest = insert_recent k b l in
    if leb c.last_time b.last_time then (k, b) ∷ (j, c) ∷ l else (j, c) ∷ rest

sort_recent : Assoc Bucket → Assoc Bucket
unfolding insert_recent
sort_recent [] = []
sort_recent ((k, b) ∷ l) = insert_recent k b (sort_recent l)

unfoldable pub evict : ℕ → Assoc Bucket → Assoc Bucket
unfolding drop_stale sort_recent
evict now buckets =
    if ltb max_buckets (length buckets)
    then (let fresh = drop_stale now buckets in
        if ltb max_buckets (length fresh) then take 5000 (sort_recent fresh) else fresh)
    else buckets

abbrev pub bucket_of : TokenBucketRateLimiter → ℕ → Option Bucket → Bucket
bucket_of r now none = record { tokens = pos r.capacity; last_time = now }
bucket_of r now (some b) = b

unfoldable pub refill : TokenBucketRateLimiter → ℕ → Bucket → ℤ
refill r now b = minℤ (pos r.capacity) (b.tokens +ℤ sub_ℕ (now * r.rate) (b.last_time * r.rate))

unfoldable pub is_allowed : ℕ → String → ℕ → TokenBucketRateLimiter → Bool × TokenBucketRateLimiter
unfolding evict refill
is_allowed now client_id cost r =
    let buckets = evict now r.buckets in
    let tokens = refill r now (bucket_of r now (lookup client_id buckets)) in
    let allowed = lebℤ (pos cost) tokens in
    let bucket : Bucket = record {
      tokens = if allowed then tokens -ℤ pos cost else tokens;
      last_time = now;
    } in
    (allowed, record r { buckets = assign client_id bucket buckets })
