-- ===== src/Explorer/Client.antt =====
-- mcp_server/lichess_explorer/client.py: `query` and `_parse_body`. The transport is httpx's: how
-- the n-th request ends is a parameter. So is what `json.loads` gives, of which the code only
-- asks whether it is a dict.
pub mod Body
pub mod Attempts
use Prim.Native.String as Str
use Prim.Native.Char.{Char, code}
use chessy_mcp.Prelude.{
  contains_text, ℕ, suc, ◌+◌, String, Bool, true, false, ◌&&◌, ◌||◌, Option, none, some, List, [],
  ◌∷◌, ◌==◌, leb, ltb, is_empty, strip, if◌then◌else◌,
}

-- the characters at which `str.splitlines` breaks a line
abbrev pub is_line_break : Char → Bool
is_line_break c =
    (leb 10 (code c) && leb (code c) 13)
    || (leb 28 (code c) && leb (code c) 30)
    || code c == 133
    || code c == 8232
    || code c == 8233

abbrev pub starts_with_feed : String → Bool
starts_with_feed Str.[] = false
starts_with_feed (Str.◌∷◌ c s) = code c == 10

-- a character in front of the first line
abbrev pub onto_first : Char → List String → List String
onto_first c [] = Str.◌∷◌ c "" ∷ []
onto_first c (line ∷ lines) = Str.◌∷◌ c line ∷ lines

-- `str.splitlines`; a carriage return with a line feed behind it is one break
unfoldable pub splitlines : String → List String
splitlines Str.[] = []
splitlines (Str.◌∷◌ c s) =
    let rest = splitlines s in
    if code c == 13 && starts_with_feed s
    then rest
    else if is_line_break c
    then "" ∷ rest
    else onto_first c rest

-- a typed failure, each with the class that the code raises
pub data ExplorerError : Type 0 where
  auth : ExplorerError
  rate_limited : ExplorerError
  unavailable : ExplorerError
  timeout : ExplorerError
  unreachable : ExplorerError
  not_found : ExplorerError
  response : ExplorerError

pub data Result (A : Type 0) : Type 0 where
  returned : A → Result A
  raised : ExplorerError → Result A

-- how one `client.get` ends: `httpx.TimeoutException`, another `httpx.HTTPError`, or a response
pub data Reply : Type 0 where
  timed_out : Reply
  failed : Reply
  answered : (status : ℕ) (content_type text : String) → Reply

module _ {Json : Type 0} (loads : String → Option Json) (is_dict : Json → Bool) where
  -- the loop over the lines of an NDJSON body; `last` is the last object so far
  unfoldable pub read_lines : Option Json → List String → Result Json
  unfolding strip
  read_lines none [] = raised response
  read_lines (some last) [] = returned last
  read_lines last (line ∷ lines) =
      if is_empty (strip line) then read_lines last lines else elim (loads (strip line)) [
        | none ↦ raised response
        | some obj ↦ if is_dict obj then read_lines (some obj) lines else read_lines last lines
      ]

  unfoldable pub read_whole : String → Result Json
  read_whole text = elim (loads text) [
    | none ↦ raised response
    | some obj ↦ if is_dict obj then returned obj else raised response
  ]

  -- `_parse_body`
  unfoldable pub parse_body : String → String → Result Json
  unfolding read_lines read_whole splitlines contains_text
  parse_body content_type text =
      if contains_text "ndjson" content_type
      then read_lines none (splitlines text)
      else read_whole text

  -- what one turn of the loop does: it ends the call, or goes on to the next attempt
  unfoldable pub settle : Reply → Bool → Option (Result Json)
  unfolding parse_body
  settle timed_out is_first = some (raised timeout)
  settle failed is_first = some (raised unreachable)
  settle (answered status content_type text) is_first =
      if status == 200
      then some (parse_body content_type text)
      else if status == 401
      then some (raised auth)
      else if status == 404
      then some (raised not_found)
      else if status == 429
      then some (raised rate_limited)
      else if leb 500 status && ltb status 600
      then (if is_first then none else some (raised unavailable))
      else some (raised response)

  -- `for attempt in (1, 2)`, with the number of requests made; behind the loop the last
  -- `LichessExplorerUnavailable` is raised
  unfoldable pub attempts : (ℕ → Reply) → List ℕ → Result Json × ℕ
  unfolding settle
  attempts get [] = (raised unavailable, 0)
  attempts get (attempt ∷ later) =
      let rest = attempts get later in
      elim (settle (get attempt) (attempt == 1)) [
        | some end ↦ (end, 1)
        | none ↦ (rest.0, suc rest.1)
      ]

  -- `query`, with the number of requests made
  unfoldable pub query : String → (ℕ → Reply) → Result Json × ℕ
  unfolding attempts
  query token get = if is_empty token then (raised auth, 0) else attempts get (1 ∷ 2 ∷ [])
