-- ===== src/Explorer/Client/Body.antt =====
-- The NDJSON bodies of mcp_server/lichess_explorer/client.py.
use chessy_mcp.Prelude.{
  String, Bool, true, ◌&&◌, ◌||◌, Option, none, some, List, [], ◌∷◌, is_empty, is_some, strip,
  if◌then◌else◌,
}
use chessy_mcp.Explorer.Client.{response, Result, returned, raised}

module _ {Json : Type 0} (loads : String → Option Json) (is_dict : Json → Bool) where
  -- a line that is blank or parses
  unfoldable pub is_readable : String → Bool
  unfolding strip
  is_readable line = is_empty (strip line) || is_some (loads (strip line))

  -- the object on a line, if one stands there
  unfoldable pub object_on : String → Option Json
  unfolding strip
  object_on line = if is_empty (strip line) then none else elim (loads (strip line)) [
    | none ↦ none
    | some obj ↦ if is_dict obj then some obj else none
  ]

  pub all_readable : List String → Bool
  unfolding is_readable
  all_readable [] = true
  all_readable (line ∷ lines) = is_readable line && all_readable lines

  -- the object on the last line that has one
  pub last_object : List String → Option Json
  unfolding object_on
  last_object [] = none
  last_object (line ∷ lines) = elim (last_object lines) [
    | some obj ↦ some obj
    | none ↦ object_on line
  ]

  abbrev pub given : Option Json → Result Json
  given none = raised response
  given (some obj) = returned obj

  abbrev pub or_else : Option Json → Option Json → Option Json
  or_else none last = last
  or_else (some obj) last = some obj
