-- ===== src/Middleware/Admission/Guarded.antt =====
-- Which requests mcp_server/middleware/request_logger.py lets through when it is locked.
use chessy_mcp.Prelude.{
  ℕ, pos, sym, ap, ◌∙◌, ltbℤ, String, ◌≡◌, refl, ◌⊎◌, inl, inr, Bool, true, false, not, ◌&&◌, ◌||◌,
  none, some, str_eq, is_empty, strip, arith, if◌then◌else◌,
}
use chessy_mcp.Middleware.RateLimit.{TokenBucketRateLimiter, is_allowed}
use chessy_mcp.Middleware.Admission.{
  HttpRequest, Lock, Response, slow_down, forwarded, token_matches, bearer, is_authorized,
  max_buffered_body, declared_length, request_cost, effective_client_ip, limit, call,
}

abbrev pub is_forwarded : Response → Bool
is_forwarded forwarded = true
is_forwarded r = false

-- one of the two headers carries the token, which is not empty
abbrev pub carries : String → HttpRequest → Bool
carries token q =
    not (is_empty token)
    && (str_eq (strip q.chessy_auth) token || str_eq (bearer q.authorization) token)

token_matches-true :
    (token candidate : String)
    → token_matches token candidate ≡ some true
    → (not (is_empty token) && str_eq candidate token) ≡ true
unfolding token_matches
token_matches-true token candidate h = ground (arith, h)

is_authorized-true :
    (token : String) (q : HttpRequest) → is_authorized token q ≡ some true → carries token q ≡ true
unfolding is_authorized
is_authorized-true token q h = ground (
  arith,
  h,
  token_matches-true token (strip q.chessy_auth),
  token_matches-true token (bearer q.authorization),
)

-- the request comes to the limiter
abbrev pub is_admissible : Lock → HttpRequest → Bool
is_admissible lock q =
    not (str_eq q.method "OPTIONS")
    && (not (not (str_eq q.path "/health") && lock.restrict_to_chatgpt)
        || elim (is_authorized lock.auth_token q) [ none ↦ false | some b ↦ b ])
    && not (ltbℤ (pos max_buffered_body) (declared_length q))

abbrev pub verdict : Bool → Response
verdict ok = if ok then forwarded else slow_down

admissible-carries :
    (lock : Lock) (q : HttpRequest)
    → is_admissible lock q ≡ true
    → lock.restrict_to_chatgpt ≡ true
    → str_eq q.path "/health" ≡ false
    → is_authorized lock.auth_token q ≡ some true
admissible-carries lock q h k l = ground (arith, h, k, l)

admissible-fits :
    (lock : Lock) (q : HttpRequest)
    → is_admissible lock q ≡ true
    → ltbℤ (pos max_buffered_body) (declared_length q) ≡ false
admissible-fits lock q h = ground (arith, h)

verdict-true : (ok : Bool) → is_forwarded (verdict ok) ≡ true → ok ≡ true
verdict-true true h = refl
verdict-true false h = absurd (ground (arith, h))

module _ (is_trusted : String → Bool) where
  -- what the limiter says of a request
  abbrev pub allowance : ℕ → HttpRequest → TokenBucketRateLimiter → Bool × TokenBucketRateLimiter
  allowance now q r =
      is_allowed now (effective_client_ip is_trusted q.peer_ip q.forwarded_for)
        (request_cost (declared_length q)) r

  -- a request that the limiter sees is answered by it, and no other is let through or charged
  pub call-cases :
      (lock : Lock) (now : ℕ) (q : HttpRequest) (r : TokenBucketRateLimiter)
      → ((is_admissible lock q ≡ true)
          × (call is_trusted lock now q r ≡ (verdict (allowance now q r).0, (allowance now q r).1)))
        ⊎ ((is_admissible lock q ≡ false)
            × (is_forwarded (call is_trusted lock now q r).0 ≡ false)
            × ((call is_trusted lock now q r).1 ≡ r))
  unfolding call limit
  call-cases lock now q r = ground arith

  -- A locked server forwards a request to another path than `/health` only if the configured token is
  -- not empty and one of the two headers carries it, a POST request declares no body above the
  -- cap, and the limiter allowed its cost to the client's address and charged it.
  pub call-forwarded :
      (lock : Lock) (now : ℕ) (q : HttpRequest) (r : TokenBucketRateLimiter)
      → lock.restrict_to_chatgpt ≡ true
      → str_eq q.path "/health" ≡ false
      → is_forwarded (call is_trusted lock now q r).0 ≡ true
      → (carries lock.auth_token q ≡ true)
        × (ltbℤ (pos max_buffered_body) (declared_length q) ≡ false)
        × ((allowance now q r).0 ≡ true)
        × ((call is_trusted lock now q r).1 ≡ (allowance now q r).1)
  call-forwarded lock now q r h k f = elim (call-cases lock now q r) [
    | inl (a, e) ↦ (
      is_authorized-true lock.auth_token q (admissible-carries lock q a h k),
      admissible-fits lock q a,
      verdict-true (allowance now q r).0 (sym (ap (λ t. is_forwarded t.0) e) ∙ f),
      ap (λ t. t.1) e,
    )
    | inr (a, e, u) ↦ absurd (ground (arith, sym f ∙ e))
  ]
