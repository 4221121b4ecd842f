-- ===== src/Middleware/Admission/Budget.antt =====
-- How many requests of one client mcp_server/middleware/request_logger.py lets through in a stretch
-- of time.
use chessy_mcp.Prelude.{
  ℕ, ◌+◌, ◌-◌, ◌*◌, ◌≤◌, ℤ, pos, negsuc, String, inl, inr, Bool, true, false, ◌&&◌, List, [], ◌∷◌,
  length, str_eq, lookup, arith, if◌then◌else◌,
}
use chessy_mcp.Middleware.RateLimit.{TokenBucketRateLimiter, max_buckets}
use chessy_mcp.Middleware.RateLimit.Credit.{IsCurrent}
use chessy_mcp.Middleware.RateLimit.Budget.{Request, admitted, IsTimely, admitted-le-budget}
use chessy_mcp.Middleware.Admission.{
  HttpRequest, Lock, declared_length, request_cost, effective_client_ip, call,
}
use chessy_mcp.Middleware.Admission.Guarded.{
  is_forwarded, is_admissible, verdict, allowance, call-cases,
}

-- requests with the time at which each comes
abbrev pub Arrivals : Type 0
Arrivals = List (ℕ × HttpRequest)

-- the requests come in the order of the clock, from `start` to `end`
abbrev pub IsOrdered : ℕ → ℕ → Arrivals → Type 0
IsOrdered start end [] = start ≤ end
IsOrdered start end ((now, q) ∷ rest) = (start ≤ now) × IsOrdered now end rest

request_cost_positive : (n : ℤ) → 1000 ≤ request_cost n
unfolding request_cost
request_cost_positive (pos n) = ground arith
request_cost_positive (negsuc n) = ground arith

IsTimely-earlier :
    (start later end : ℕ) (l : List Request)
    → start ≤ later
    → IsTimely later end l
    → IsTimely start end l
IsTimely-earlier start later end [] h k = omega (arith, h, k)
IsTimely-earlier start later end (q ∷ l) h k = (omega (arith, h, k.0), k.1)

step :
    (ok same : Bool) (cost count credit : ℕ)
    → 1000 ≤ cost
    → count * 1000 ≤ credit
    → ((if is_forwarded (verdict ok) && same then 1 else 0) + count) * 1000
      ≤ (if ok && same then cost else 0) + credit
step true true cost count credit h k = omega (arith, h, k)
step true false cost count credit h k = omega (arith, h, k)
step false same cost count credit h k = omega (arith, h, k)

module _ (is_trusted : String → Bool) (lock : Lock) where
  abbrev pub client_of : HttpRequest → String
  client_of q = effective_client_ip is_trusted q.peer_ip q.forwarded_for

  -- how many requests of a client are forwarded
  abbrev pub passed : String → Arrivals → TokenBucketRateLimiter → ℕ
  passed client [] r = 0
  passed client ((now, q) ∷ rest) r =
      let (answer, r') = call is_trusted lock now q r in
      (if is_forwarded answer && str_eq (client_of q) client then 1 else 0) + passed client rest r'

  -- what of the requests the limiter sees
  abbrev seen : Arrivals → List Request
  seen [] = []
  seen ((now, q) ∷ rest) =
      let later = seen rest in
      if is_admissible lock q
      then record { at = now; client = client_of q; cost = request_cost (declared_length q) }
        ∷ later
      else later

  length-seen : (l : Arrivals) → length (seen l) ≤ length l
  length-seen [] = omega arith
  length-seen ((now, q) ∷ rest) = ground (arith, length-seen rest)

  seen-IsTimely :
      (start end : ℕ) (l : Arrivals) → IsOrdered start end l → IsTimely start end (seen l)
  seen-IsTimely start end [] h = h
  seen-IsTimely start end ((now, q) ∷ rest) h =
      go (is_admissible lock q) (seen-IsTimely now end rest h.1)
    where
      go :
          (t : Bool)
          → IsTimely now end (seen rest)
          → IsTimely start end (
              if t
              then record {
                at = now;
                client = client_of q;
                cost = request_cost (declared_length q);
              }
                ∷ seen rest
              else seen rest)
      go true k = (h.0, k)
      go false k = IsTimely-earlier start now end (seen rest) h.0 k

  passed-admitted :
      (client : String) (l : Arrivals) (r : TokenBucketRateLimiter)
      → passed client l r * 1000 ≤ admitted client (seen l) r
  passed-admitted client [] r = omega arith
  passed-admitted client ((now, q) ∷ rest) r = elim (call-cases is_trusted lock now q r) [
    | inl (a, e) ↦
        rw (a, e)
          (step (allowance is_trusted now q r).0 (str_eq (client_of q) client) _ _ _
            (request_cost_positive (declared_length q))
            (passed-admitted client rest (allowance is_trusted now q r).1))
    | inr (a, e, u) ↦ rw (a, e, u) (omega (arith, passed-admitted client rest r))
  ]

  -- Of requests in the order of the clock from `start` to `end`, whatever the lock, the cap and other
  -- clients' requests do, those forwarded for one client address are at most, at a token each, a full
  -- bucket and what the rate adds in that time, if the client owes nothing at the start and there are
  -- too few clients and requests to start an eviction.
  pub passed-le-budget :
      (client : String) (start end : ℕ) (l : Arrivals) (r : TokenBucketRateLimiter)
      → IsOrdered start end l
      → start ≤ end
      → IsCurrent start (lookup client r.buckets)
      → length r.buckets + length l ≤ max_buckets
      → passed client l r * 1000 ≤ r.capacity + (end - start) * r.rate
  passed-le-budget client start end l r ordered h current small = omega (
    arith,
    passed-admitted client l r,
    admitted-le-budget client start end (seen l) r (seen-IsTimely start end l ordered) h current
        (omega (arith, length-seen l, small)),
  )
