-- ===== src/Tests/Middleware.antt =====
-- mcp_server/middleware on small inputs.
use chessy_mcp.Prelude.{
  ◌+◌, ◌-◌, ◌*◌, ◌≤◌, ◌≡◌, refl, List, [], ◌∷◌, lookup, assign, length, arith, ◌+ℤ◌, ◌-ℤ◌, sub_ℕ,
  minℤ, pos, negsuc, some, none, true, false, String, Bool, is_empty,
}
use chessy_mcp.Middleware.RateLimit.{TokenBucketRateLimiter, is_allowed, max_buckets}
use chessy_mcp.Middleware.RateLimit.Bounds.{length-is_allowed}
use chessy_mcp.Middleware.RateLimit.Budget.{Request, admitted, admitted-le-budget}
use chessy_mcp.Prelude.{ltbℤ, str_eq}
use chessy_mcp.Middleware.Texts.{int_of}
use chessy_mcp.Middleware.Admission.{
  HttpRequest, Lock, Response, token_matches, max_buffered_body, declared_length,
  effective_client_ip, call,
}
use chessy_mcp.Middleware.Admission.Guarded.{is_forwarded, carries, allowance, call-forwarded}
use chessy_mcp.Middleware.Admission.Budget.{Arrivals, passed, passed-le-budget}

-- the defaults: 20 tokens a second, and 500 at most
abbrev limiter : TokenBucketRateLimiter
limiter = record { rate = 20; capacity = 500000; buckets = [] }

abbrev requests : List Request
requests =
    record { at = 1000; client = "a"; cost = 300000 }
    ∷ record { at = 1100; client = "b"; cost = 5000 }
    ∷ record { at = 1200; client = "a"; cost = 300000 }
    ∷ record { at = 6000; client = "a"; cost = 290000 }
    ∷ []

-- the second request of "a" is refused, the third finds 200 + 5 * 20 tokens
admitted-requests : admitted "a" requests limiter ≡ 590000
unfolding is_allowed ◌+ℤ◌ ◌-ℤ◌ sub_ℕ minℤ lookup assign
admitted-requests = refl

admitted-le-budget_example : admitted "a" requests limiter ≤ 500000 + (6000 - 1000) * 20
unfolding lookup
admitted-le-budget_example =
    admitted-le-budget "a" 1000 6000 requests limiter (omega arith) (omega arith) tt (omega arith)

length-is_allowed_run : length (is_allowed 1000 "a" 1000 limiter).1.buckets ≤ max_buckets + 1
length-is_allowed_run = length-is_allowed 1000 "a" 1000 limiter

minus : int_of "-12" ≡ some (negsuc 11)
unfolding int_of sub_ℕ
minus = refl

underscored : int_of "1_000" ≡ some (pos 1000)
unfolding int_of
underscored = refl

no_number : int_of "1__0" ≡ none
unfolding int_of
no_number = refl

abbrev is_loopback : String → Bool
is_loopback ip = str_eq ip "127.0.0.1"

behind_proxy : effective_client_ip is_loopback "[127.0.0.1]" " 9.9.9.9 , 10.0.0.1" ≡ "9.9.9.9"
unfolding effective_client_ip is_empty
behind_proxy = refl

not_a_proxy : effective_client_ip is_loopback "8.8.8.8" "9.9.9.9" ≡ "8.8.8.8"
unfolding effective_client_ip is_empty
not_a_proxy = refl

abbrev locked : Lock
locked = record { restrict_to_chatgpt = true; auth_token = "key" }

abbrev post : String → HttpRequest
post length = record {
  method = "POST";
  path = "/mcp";
  peer_ip = "8.8.8.8";
  forwarded_for = "";
  chessy_auth = "";
  authorization = "Bearer key";
  content_length = length;
}

abbrev first_call : Response × TokenBucketRateLimiter
first_call = call is_loopback locked 1000 (post "2048") limiter

let_through : is_forwarded first_call.0 ≡ true
unfolding call is_empty is_allowed lookup minℤ ◌+ℤ◌ sub_ℕ
let_through = refl

foreign_letter : token_matches "key" "é" ≡ none
unfolding token_matches is_empty
foreign_letter = refl

call-forwarded_example :
    (carries "key" (post "2048") ≡ true)
    × (ltbℤ (pos max_buffered_body) (declared_length (post "2048")) ≡ false)
    × ((allowance is_loopback 1000 (post "2048") limiter).0 ≡ true)
    × (first_call.1 ≡ (allowance is_loopback 1000 (post "2048") limiter).1)
call-forwarded_example =
    call-forwarded is_loopback locked 1000 (post "2048") limiter refl refl let_through

abbrev arrivals : Arrivals
arrivals = (1000, post "2048") ∷ (1100, post "99999999") ∷ (1200, post "") ∷ []

passed_two : passed is_loopback locked "8.8.8.8" arrivals limiter ≡ 2
unfolding call is_empty is_allowed lookup assign minℤ ◌+ℤ◌ ◌-ℤ◌ sub_ℕ
passed_two = refl

passed-le-budget_example :
    passed is_loopback locked "8.8.8.8" arrivals limiter * 1000 ≤ 500000 + (6000 - 1000) * 20
unfolding lookup
passed-le-budget_example =
    passed-le-budget is_loopback locked "8.8.8.8" 1000 6000 arrivals limiter
      (omega arith, (omega arith, (omega arith, omega arith))) (omega arith) tt (omega arith)
