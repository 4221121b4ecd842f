-- ===== src/Tools/Inputs.antt =====
-- Inputs and errors of mcp_server/tools/_common.py: the verbosity, and the code of an error.
use chessy_mcp.Prelude.{
  String, Option, none, some, [], ◌∷◌, Assoc, lookup, contains_text, lower, strip, if◌then◌else◌,
}

abbrev pub verbosity_aliases : Assoc String
verbosity_aliases =
    ("compact", "compact")
    ∷ ("minimal", "minimal")
    ∷ ("min", "minimal")
    ∷ ("full", "full")
    ∷ ("standard", "full")
    ∷ ("default", "full")
    ∷ []

-- `_resolve_verbosity`; `none` is the `ValueError`
unfoldable pub resolve_verbosity : Option String → Option String
unfolding lookup lower strip
resolve_verbosity none = some "full"
resolve_verbosity (some value) = lookup (lower (strip value)) verbosity_aliases

abbrev pub error_code_prefixes : Assoc String
error_code_prefixes =
    ("INVALID_VERBOSITY", "invalid_verbosity")
    ∷ ("INVALID_DETAIL", "invalid_detail")
    ∷ ("INVALID_ARGUMENT", "invalid_argument")
    ∷ ("SCHEMA_VALIDATION_ERROR", "schema_validation_error")
    ∷ ("INVALID_ACTION_TYPE", "invalid_action_type")
    ∷ ("ILLEGAL_ACTION", "illegal_action")
    ∷ ("STRICT", "strict_validation_error")
    ∷ ("UNSUPPORTED_VARIANT", "unsupported_variant")
    ∷ ("INVALID_FEN", "invalid_fen")
    ∷ ("INVALID_POSITION_INPUT", "invalid_position_input")
    ∷ ("INVALID_POSITION", "invalid_position")
    ∷ ("MULTIPLE_GAMES", "multiple_games_not_supported")
    ∷ ("INVALID_MOVE_SYNTAX", "invalid_move_syntax")
    ∷ ("INVALID_PARAMETER_COUNT", "invalid_argument")
    ∷ ("INVALID_COMPARE_MOVE", "illegal_move")
    ∷ ("ILLEGAL_MOVE", "illegal_move")
    ∷ ("AMBIGUOUS_SAN", "ambiguous_san")
    ∷ ("GAME_ALREADY_OVER", "game_already_over")
    ∷ ("POSITION_HISTORY_MISMATCH", "position_history_mismatch")
    ∷ ("INVALID_PGN", "invalid_pgn")
    ∷ ("Could not parse PGN", "invalid_pgn")
    ∷ ("Invalid PGN", "invalid_pgn")
    ∷ ("MISSING_MOVE", "invalid_input")
    ∷ ("MISSING_PLAYER", "missing_player")
    ∷ ("MISSING_TOKEN", "missing_token")
    ∷ []

unfoldable pub first_marker : Assoc String → String → String
unfolding contains_text
first_marker [] message = "invalid_input"
first_marker ((marker, code) ∷ l) message =
    let rest = first_marker l message in if contains_text marker message then code else rest

unfoldable pub error_code_for : String → String
unfolding first_marker
error_code_for message = first_marker error_code_prefixes message
