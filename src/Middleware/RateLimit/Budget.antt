-- ===== src/Middleware/RateLimit/Budget.antt =====
-- How much one client gets through mcp_server/middleware/rate_limit.py in a stretch of time.
use chessy_mcp.Prelude.{
  ℕ, ◌+◌, ◌-◌, ◌*◌, ◌≤◌, ◌≡◌, refl, ◌&&◌, pos, sub_ℕ, ◌+ℤ◌, ◌≤ℤ◌, int_laws, String, Option, none,
  some, List, [], ◌∷◌, length, lookup, str_eq, if◌then◌else◌, arith,
}
use chessy_mcp.Middleware.RateLimit.{Bucket, TokenBucketRateLimiter, max_buckets, is_allowed}
use chessy_mcp.Middleware.RateLimit.Credit.{
  credit, IsCurrent, mul_mono, credit_grows, credit_bounds, call_length, charges,
}

pub record Request : Type 0 where
  pub at : ℕ
  pub client : String
  pub cost : ℕ

-- what the allowed requests of one client cost in all
abbrev pub admitted : String → List Request → TokenBucketRateLimiter → ℕ
admitted c [] r = 0
admitted c (q ∷ rest) r =
    let (ok, r') = is_allowed q.at q.client q.cost r in
    (if ok && str_eq q.client c then q.cost else 0) + admitted c rest r'

-- the requests come in the order of the clock, from `start` to `end`
abbrev pub IsTimely : ℕ → ℕ → List Request → Type 0
IsTimely start end [] = start ≤ end
IsTimely start end (q ∷ rest) = (start ≤ q.at) × IsTimely q.at end rest

IsCurrent-later :
    (now later : ℕ) (o : Option Bucket) → IsCurrent now o → now ≤ later → IsCurrent later o
IsCurrent-later now later none h k = tt
IsCurrent-later now later (some b) h k = (h.0, omega arith)

rate-is_allowed :
    (r : TokenBucketRateLimiter) (now : ℕ) (caller : String) (cost : ℕ)
    → (is_allowed now caller cost r).1.rate ≡ r.rate
unfolding is_allowed
rate-is_allowed r now caller cost = refl

admitted_le :
    (client : String) (start end : ℕ) (requests : List Request) (r : TokenBucketRateLimiter)
    → IsTimely start end requests
    → IsCurrent start (lookup client r.buckets)
    → length r.buckets + length requests ≤ max_buckets
    → pos (admitted client requests r)
      ≤ℤ credit r client start +ℤ sub_ℕ (end * r.rate) (start * r.rate)
admitted_le client start end [] r timely current small =
    omega (int_laws, (credit_bounds r client start current).0, mul_mono start end r.rate timely)
admitted_le client start end (q ∷ rest) r timely current small =
    let now = IsCurrent-later start q.at (lookup client r.buckets) current timely.0 in
    let step = charges r q.at client q.cost now (omega arith) q.client in
    let ih =
      admitted_le client q.at end rest (is_allowed q.at q.client q.cost r).1 timely.1 step.current
        (omega (arith, call_length r q.at q.client q.cost (omega arith))) in
    omega (
      int_laws,
      credit_grows r client start q.at current timely.0,
      step.paid,
      rw (rate-is_allowed r q.at q.client q.cost) at ih,
    )

sub_mul : (a b k : ℕ) → a ≤ b → (b - a) * k + a * k ≡ b * k
sub_mul a b k h = grind arith

-- From a limiter on which the client owes nothing, requests in the order of the clock get at most
-- a full bucket and what the rate adds from `start` to `end` admitted for the client, whatever
-- other clients send, as long as there are too few clients and requests to start an eviction.
pub admitted-le-budget :
    (client : String) (start end : ℕ) (requests : List Request) (r : TokenBucketRateLimiter)
    → IsTimely start end requests
    → start ≤ end
    → IsCurrent start (lookup client r.buckets)
    → length r.buckets + length requests ≤ max_buckets
    → admitted client requests r ≤ r.capacity + (end - start) * r.rate
admitted-le-budget client start end requests r timely order current small = omega (
  int_laws,
  admitted_le client start end requests r timely current small,
  (credit_bounds r client start current).1,
  sub_mul start end r.rate order,
)
