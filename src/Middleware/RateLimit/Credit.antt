-- ===== src/Middleware/RateLimit/Credit.antt =====
-- What one call of mcp_server/middleware/rate_limit.py does to the credit of each client.
use chessy_mcp.Prelude.{
  subst, sym, ℕ, ◌+◌, ◌*◌, ◌≤◌, ◌≡◌, refl, Bool, ◌&&◌, true, false, inl, inr, ℤ, pos, sub_ℕ, ◌+ℤ◌,
  ◌-ℤ◌, ◌≤ℤ◌, lebℤ, int_laws, String, Option, none, some, length, lookup, lookup-assign,
  length-assign_le, str_eq, eq_iff, eq_refl, lebℤ→≤ℤ, if◌then◌else◌, arith, Bool-cases,
}
use chessy_mcp.Middleware.RateLimit.{
  Bucket, TokenBucketRateLimiter, max_buckets, evict, bucket_of, refill, is_allowed,
}

-- what `client` could spend at `now`
abbrev pub credit : TokenBucketRateLimiter → String → ℕ → ℤ
credit r client now = refill r now (bucket_of r now (lookup client r.buckets))

-- a bucket that no clock has overtaken, with nothing owed
abbrev pub IsCurrent : ℕ → Option Bucket → Type 0
IsCurrent now none = Unit
IsCurrent now (some b) = (pos 0 ≤ℤ b.tokens) × (b.last_time ≤ now)

pub mul_mono : (a b k : ℕ) → a ≤ b → a * k ≤ b * k
mul_mono a b k h = grind arith

module _ (r : TokenBucketRateLimiter) where
  refill_grows :
      (now later : ℕ) (b : Bucket)
      → b.last_time ≤ now
      → now ≤ later
      → refill r later b ≤ℤ refill r now b +ℤ sub_ℕ (later * r.rate) (now * r.rate)
  unfolding refill
  refill_grows now later b h k =
      omega (int_laws, mul_mono b.last_time now r.rate h, mul_mono now later r.rate k)

  refill_bounds :
      (now : ℕ) (b : Bucket)
      → pos 0 ≤ℤ b.tokens
      → b.last_time ≤ now
      → (pos 0 ≤ℤ refill r now b) × (refill r now b ≤ℤ pos r.capacity)
  unfolding refill
  refill_bounds now b h k = omega (int_laws, mul_mono b.last_time now r.rate k)

  refill_now : (now : ℕ) (t : ℤ) → refill r now (record { tokens = t; last_time = now }) ≤ℤ t
  unfolding refill
  refill_now now t = omega int_laws

  refill_full :
      (now : ℕ)
      → pos r.capacity ≤ℤ refill r now (record { tokens = pos r.capacity; last_time = now })
  unfolding refill
  refill_full now = omega int_laws

  pub credit_grows :
      (client : String) (now later : ℕ)
      → IsCurrent now (lookup client r.buckets)
      → now ≤ later
      → credit r client later ≤ℤ credit r client now +ℤ sub_ℕ (later * r.rate) (now * r.rate)
  credit_grows client now later h k = go (lookup client r.buckets) h
    where
      go :
          (o : Option Bucket)
          → IsCurrent now o
          → refill r later (bucket_of r later o)
            ≤ℤ refill r now (bucket_of r now o) +ℤ sub_ℕ (later * r.rate) (now * r.rate)
      go none c = omega (
        int_laws,
        refill_full now,
        refill_now later (pos r.capacity),
        mul_mono now later r.rate k,
      )
      go (some b) c = refill_grows now later b c.1 k

  pub credit_bounds :
      (client : String) (now : ℕ)
      → IsCurrent now (lookup client r.buckets)
      → (pos 0 ≤ℤ credit r client now) × (credit r client now ≤ℤ pos r.capacity)
  credit_bounds client now h = go (lookup client r.buckets) h
    where
      go :
          (o : Option Bucket)
          → IsCurrent now o
          → (pos 0 ≤ℤ refill r now (bucket_of r now o))
            × (refill r now (bucket_of r now o) ≤ℤ pos r.capacity)
      go none c =
          refill_bounds now (record { tokens = pos r.capacity; last_time = now }) (omega arith)
            (omega arith)
      go (some b) c = refill_bounds now b c.0 c.1

  evict_small : (now : ℕ) → length r.buckets ≤ max_buckets → evict now r.buckets ≡ r.buckets
  unfolding evict
  evict_small now h = ground arith

  call_other :
      (now : ℕ) (caller client : String) (cost : ℕ)
      → length r.buckets ≤ max_buckets
      → str_eq caller client ≡ false
      → lookup client (is_allowed now caller cost r).1.buckets ≡ lookup client r.buckets
  unfolding is_allowed
  call_other now caller client cost h ne = rw (evict_small now h, lookup-assign, ne)

  abbrev charged : ℤ → ℕ → ℤ
  charged c cost = if lebℤ (pos cost) c then c -ℤ pos cost else c

  charged_lem :
      (c : ℤ) (cost : ℕ)
      → (pos (if lebℤ (pos cost) c then cost else 0) +ℤ charged c cost ≤ℤ c)
        × (pos 0 ≤ℤ c → pos 0 ≤ℤ charged c cost)
  charged_lem c cost = elim (Bool-cases (lebℤ (pos cost) c)) [
    | inl y ↦
        rw y
          (omega (int_laws, lebℤ→≤ℤ (pos cost) c y), λ h. omega (int_laws, lebℤ→≤ℤ (pos cost) c y))
    | inr n ↦ rw n (omega int_laws, λ h. h)
  ]

  call_own :
      (now : ℕ) (client : String) (cost : ℕ)
      → length r.buckets ≤ max_buckets
      → ((is_allowed now client cost r).0 ≡ lebℤ (pos cost) (credit r client now))
        × (lookup client (is_allowed now client cost r).1.buckets
            ≡ some (record { tokens = charged (credit r client now) cost; last_time = now }))
  unfolding is_allowed
  call_own now client cost h = rw (evict_small now h, lookup-assign, eq_refl) (refl, refl)

  pub call_length :
      (now : ℕ) (client : String) (cost : ℕ)
      → length r.buckets ≤ max_buckets
      → length (is_allowed now client cost r).1.buckets ≤ length r.buckets + 1
  unfolding is_allowed
  call_length now client cost h =
      rw (evict_small now h) (omega (arith, length-assign_le client _ r.buckets))

if-and_true : (k : ℕ) (b : Bool) → (if b && true then k else 0) ≡ (if b then k else 0)
if-and_true k b = ground arith

if-and_false : (k : ℕ) (b : Bool) → (if b && false then k else 0) ≡ 0
if-and_false k b = ground arith

-- a call at `now` by `caller`, as `client` sees it
pub record Charges (r : TokenBucketRateLimiter) (now : ℕ) (client : String) (cost : ℕ)
    (caller : String) : Type 0 where
  pub current : IsCurrent now (lookup client (is_allowed now caller cost r).1.buckets)
  pub paid :
      pos (if (is_allowed now caller cost r).0 && str_eq caller client then cost else 0)
        +ℤ credit (is_allowed now caller cost r).1 client now
      ≤ℤ credit r client now

module _ (r : TokenBucketRateLimiter) (now : ℕ) (client : String) (cost : ℕ)
    (current : IsCurrent now (lookup client r.buckets))
    (small : length r.buckets ≤ max_buckets) where
  credit-call :
      (caller : String)
      → credit (is_allowed now caller cost r).1 client now
        ≡ refill r now (bucket_of r now (lookup client (is_allowed now caller cost r).1.buckets))
  unfolding refill is_allowed
  credit-call caller = go (lookup client (is_allowed now caller cost r).1.buckets)
    where
      go :
          (o : Option Bucket)
          → refill r now (bucket_of (is_allowed now caller cost r).1 now o)
            ≡ refill r now (bucket_of r now o)
      go none = refl
      go (some b) = refl

  Charges-own : Charges r now client cost client
  Charges-own =
      let (said, left) = call_own r now client cost small in
      let bounds = credit_bounds r client now current in
      let charge = charged_lem r (credit r client now) cost in
      record {
        current = rw left (charge.1 bounds.0, omega arith);
        paid =
            rw (credit-call client, left, said, eq_refl, if-and_true cost)
              (omega (int_laws, charge.0, refill_now r now (charged r (credit r client now) cost)));
      }

  Charges-other :
      (caller : String) → str_eq caller client ≡ false → Charges r now client cost caller
  Charges-other caller ne =
      let same = call_other r now caller client cost small ne in
      record {
        current = rw same current;
        paid = rw (credit-call caller, same, ne, if-and_false cost) (omega int_laws);
      }

  pub charges : (caller : String) → Charges r now client cost caller
  charges caller = elim (Bool-cases (str_eq caller client)) [
    | inl own ↦ subst (Charges r now client cost) (sym ((eq_iff caller client).0 own)) Charges-own
    | inr other ↦ Charges-other caller other
  ]
