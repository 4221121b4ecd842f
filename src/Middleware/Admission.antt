-- ===== src/Middleware/Admission.antt =====
-- `ASGIRequestLoggerMiddleware` of mcp_server/middleware/request_logger.py, with `client_ip.py`:
-- which requests reach the server. Costs are in thousandths of a token, rounded down. What the
-- library ipaddress says of an address is an argument.
pub mod Guarded
pub mod Budget
use chessy_mcp.Prelude.{
  ℕ, ◌+◌, ◌*◌, ◌/◌, min, ltb, ℤ, pos, negsuc, ltbℤ, String, Bool, true, false, not, ◌&&◌, ◌||◌,
  Option, none, some, List, [], ◌∷◌, str_eq, is_empty, strip, split_once, starts_with, lower,
  if◌then◌else◌,
}
use chessy_mcp.Middleware.Texts.{strip_of, drop_chars, is_ascii, int_of}
use chessy_mcp.Middleware.RateLimit.{TokenBucketRateLimiter, is_allowed}

-- what `__call__` reads of a request: `method` is upper case already, and a header that is missing
-- is empty
pub record HttpRequest : Type 0 where
  pub method : String
  pub path : String
  pub peer_ip : String
  pub forwarded_for : String
  pub chessy_auth : String
  pub authorization : String
  pub content_length : String

-- `restrict_to_chatgpt`, and the setting `auth_token`
pub record Lock : Type 0 where
  pub restrict_to_chatgpt : Bool
  pub auth_token : String

-- what becomes of a request: an answer of the middleware, an exception, or the server's own answer
pub data Response : Type 0 where
  preflight : Response
  forbidden : Response
  crashed : Response
  too_large : Response
  slow_down : Response
  forwarded : Response

-- `token_matches`; `hmac.compare_digest` raises on text that is not ASCII
unfoldable pub token_matches : String → String → Option Bool
unfolding is_empty is_ascii
token_matches token candidate =
    if is_empty token
    then some false
    else if is_ascii candidate && is_ascii token
    then some (str_eq candidate token)
    else none

unfoldable pub bearer : String → String
unfolding lower starts_with drop_chars strip
bearer authorization =
    let text = strip authorization in
    if starts_with "bearer " (lower text) then strip (drop_chars 7 text) else ""

-- `token_matches(provided) or token_matches(bearer)`
unfoldable pub is_authorized : String → HttpRequest → Option Bool
unfolding token_matches bearer strip
is_authorized token q = elim (token_matches token (strip q.chessy_auth)) [
  | none ↦ none
  | some true ↦ some true
  | some false ↦ token_matches token (bearer q.authorization)
]

abbrev pub max_buffered_body : ℕ
max_buffered_body = 32 * 1024 * 1024

-- the length that a POST request declares: 0 where it declares none, and -1 where it is no number
unfoldable pub declared_length : HttpRequest → ℤ
unfolding is_empty strip int_of
declared_length q =
    if not (str_eq q.method "POST") || is_empty (strip q.content_length)
    then pos 0
    else elim (int_of (strip q.content_length)) [ none ↦ negsuc 0 | some n ↦ n ]

-- `request_cost`
unfoldable pub request_cost : ℤ → ℕ
request_cost (negsuc n) = 1000
request_cost (pos n) =
    if ltb (8 * 1024) n
    then 5000 + min 40000 (n * 1000 / 1024)
    else if ltb 1024 n
    then 2000
    else 1000

module _ (is_trusted : String → Bool) where
  -- `effective_client_ip`
  unfoldable pub effective_client_ip : String → String → String
  unfolding is_empty strip split_once strip_of
  effective_client_ip peer_ip forwarded_for =
      let peer = strip_of "[]" (strip peer_ip) in
      if not (is_empty forwarded_for) && is_trusted (strip_of "[]" (strip peer))
      then (let candidate = strip_of "[]" (strip (split_once "," forwarded_for).0) in
          if is_empty candidate then peer else candidate)
      else peer

  -- the admission behind the authentication
  unfoldable pub limit :
      ℕ → HttpRequest → TokenBucketRateLimiter → Response × TokenBucketRateLimiter
  unfolding declared_length request_cost effective_client_ip is_allowed
  limit now q r =
      let length = declared_length q in
      if ltbℤ (pos max_buffered_body) length
      then (too_large, r)
      else (let client = effective_client_ip q.peer_ip q.forwarded_for in
          let (ok, r') = is_allowed now client (request_cost length) r in
          (if ok then forwarded else slow_down, r'))

  -- `__call__` of a request of HTTP
  unfoldable pub call :
      Lock → ℕ → HttpRequest → TokenBucketRateLimiter → Response × TokenBucketRateLimiter
  unfolding limit is_authorized
  call lock now q r =
      if str_eq q.method "OPTIONS"
      then (preflight, r)
      else if not (str_eq q.path "/health") && lock.restrict_to_chatgpt
      then elim (is_authorized lock.auth_token q) [
        | none ↦ (crashed, r)
        | some false ↦ (forbidden, r)
        | some true ↦ limit now q r
      ]
      else limit now q r
