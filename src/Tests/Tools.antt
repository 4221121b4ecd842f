-- ===== src/Tests/Tools.antt =====
-- Runs of mcp_server/tools/_common.py, and an instance of the theorem on a Termination tag.
use chessy_mcp.Prelude.{◌≡◌, refl, true, false, none, some, is_empty}
use chessy_mcp.Chess.{Chess}
use chessy_mcp.Analysis.Reconcile.{resolve_termination, resolve_header}
use chessy_mcp.Tools.Termination.{normalize_termination}
use chessy_mcp.Tools.Termination.Supported.{is_supported, resolve_termination-supported}
use chessy_mcp.Tools.Inputs.{resolve_verbosity, error_code_for}
use chessy_mcp.Tests.Toy.{toy}

on_time : normalize_termination (some "White won on time") ≡ some "time_forfeit"
unfolding normalize_termination
on_time = refl

repeated : normalize_termination (some " Draw by 3-fold repetition ") ≡ some "threefold_repetition"
unfolding normalize_termination
repeated = refl

fifty : normalize_termination (some "Fifty-move rule") ≡ some "fifty_moves"
unfolding normalize_termination
fifty = refl

seconds : normalize_termination (some "Second illegal move") ≡ some "rules_infraction"
unfolding normalize_termination
seconds = refl

-- no expression reads a stalemate
stalemated : normalize_termination (some "Stalemate") ≡ none
unfolding normalize_termination
stalemated = refl

abbrev repeats : Chess
repeats = record toy { is_repetition = λ b. true }

resolve_termination-supported_example : is_supported repeats false "threefold_repetition" ≡ true
unfolding normalize_termination resolve_termination resolve_header
resolve_termination-supported_example =
    resolve_termination-supported repeats false (some "3-fold repetition") "threefold_repetition"
      refl

-- a repetition that no board shows is passed on
any_repetition :
    (resolve_termination toy (λ t. normalize_termination (some t)) false (some "Repetition") none).0
    ≡ some "repetition"
unfolding normalize_termination resolve_termination resolve_header
any_repetition = refl

aliases : resolve_verbosity (some " Standard") ≡ some "full"
unfolding resolve_verbosity
aliases = refl

no_such : resolve_verbosity (some "maximal") ≡ none
unfolding resolve_verbosity
no_such = refl

illegal : error_code_for "ILLEGAL_MOVE: e9" ≡ "illegal_move"
unfolding error_code_for is_empty
illegal = refl

-- the text of a caller that is quoted in a message can pass for a marker
quoted : error_code_for "INVALID_PGN: no header STRICT" ≡ "strict_validation_error"
unfolding error_code_for is_empty
quoted = refl
