-- ===== src/Explorer/Client/Attempts.antt =====
-- How many requests `query` of mcp_server/lichess_explorer/client.py makes, and what it gives.
use chessy_mcp.Prelude.{
  ℕ, String, ◌≡◌, refl, Bool, true, false, ◌&&◌, Option, none, some, arith, ltb, leb, ◌==◌,
  is_empty, if◌then◌else◌,
}
use chessy_mcp.Explorer.Client.{
  auth, rate_limited, unavailable, timeout, unreachable, not_found, response, Result, raised, Reply,
  timed_out, failed, answered, parse_body, settle, attempts, query,
}

-- a response with a status from 500 to 599
abbrev pub is_server_error : Reply → Bool
is_server_error timed_out = false
is_server_error failed = false
is_server_error (answered status content_type text) = leb 500 status && ltb status 600

module _ {Json : Type 0} (loads : String → Option Json) (is_dict : Json → Bool) where
  -- what a reply means to the caller
  unfoldable pub meaning : Reply → Result Json
  unfolding parse_body
  meaning timed_out = raised timeout
  meaning failed = raised unreachable
  meaning (answered status content_type text) =
      if status == 200
      then parse_body loads is_dict content_type text
      else if status == 401
      then raised auth
      else if status == 404
      then raised not_found
      else if status == 429
      then raised rate_limited
      else if leb 500 status && ltb status 600
      then raised unavailable
      else raised response

  settle_lem :
      (r : Reply) (is_first : Bool)
      → settle loads is_dict r is_first
        ≡ (if is_server_error r && is_first then none else some (meaning r))
  unfolding settle meaning
  settle_lem timed_out true = refl
  settle_lem timed_out false = refl
  settle_lem failed true = refl
  settle_lem failed false = refl
  settle_lem (answered status content_type text) true = ground arith
  settle_lem (answered status content_type text) false = ground arith

  -- With a token, `query` ends after one request unless the server fails on it (5xx), and after
  -- two at most; it gives what the last reply means. Without a token it makes no request.
  pub query_lem :
      (token : String) (get : ℕ → Reply)
      → query loads is_dict token get ≡ (
          if is_empty token
          then (raised auth, 0)
          else if is_server_error (get 1)
          then (meaning (get 2), 2)
          else (meaning (get 1), 1))
  unfolding query attempts
  query_lem token get = ground (arith, settle_lem (get 1) true, settle_lem (get 2) false)
