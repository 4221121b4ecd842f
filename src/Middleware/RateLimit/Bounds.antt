-- ===== src/Middleware/RateLimit/Bounds.antt =====
-- The number of buckets that mcp_server/middleware/rate_limit.py keeps.
use chessy_mcp.Prelude.{ℕ, ◌+◌, ◌≤◌, String, arith, Assoc, length, length-assign_le, length-take_le}
use chessy_mcp.Middleware.RateLimit.{
  Bucket, TokenBucketRateLimiter, max_buckets, evict, is_allowed, sort_recent, drop_stale,
}

length-evict_le : (now : ℕ) (l : Assoc Bucket) → length (evict now l) ≤ max_buckets
unfolding evict
length-evict_le now l = ground (arith, length-take_le 5000 (sort_recent (drop_stale now l)))

-- However many clients call, a call leaves at most one bucket more than the limit that starts an
-- eviction.
pub length-is_allowed :
    (now : ℕ) (client_id : String) (cost : ℕ) (r : TokenBucketRateLimiter)
    → length (is_allowed now client_id cost r).1.buckets ≤ max_buckets + 1
unfolding is_allowed
length-is_allowed now client_id cost r =
    omega (arith, length-assign_le client_id _ (evict now r.buckets), length-evict_le now r.buckets)
