-- ===== src/Tools/Termination.antt =====
-- `normalize_termination` of mcp_server/tools/_common.py: the words of a PGN Termination tag.
pub mod Supported
use chessy_mcp.Prelude.{
  String, Bool, true, false, Option, none, some, List, [], ◌∷◌, is_empty, lower, strip,
  if◌then◌else◌, Regex, both, either, many, one_of, optional, literal, some_of, sequence, any_of,
  blank, search_word,
}

-- `[-\s]*`
abbrev pub gap : Regex
gap = many (either blank (one_of "-"))

-- `\s*`
abbrev pub blanks : Regex
blanks = many blank

unfoldable pub then_maybe : Regex → String → Regex
unfolding sequence optional literal
then_maybe r word = both r (optional (sequence (blanks ∷ literal word ∷ [])))

unfoldable pub moves_rule : Regex → Regex
unfolding then_maybe sequence literal optional
moves_rule number =
    then_maybe (sequence (number ∷ gap ∷ literal "move" ∷ optional (literal "s") ∷ [])) "rule"

unfoldable pub fold : String → String → Regex
unfolding then_maybe sequence any_of literal
fold digit word =
    then_maybe (sequence (any_of (digit ∷ word ∷ []) ∷ gap ∷ literal "fold" ∷ [])) "repetition"

unfoldable pub time_words : Regex
unfolding sequence any_of some_of literal
time_words =
    either
      (sequence
        (literal "time" ∷ blanks ∷ any_of ("forfeit" ∷ "expired" ∷ "exhausted" ∷ "loss" ∷ []) ∷ []))
      (either
        (sequence
          (literal "out" ∷ some_of blank ∷ literal "of" ∷ some_of blank ∷ literal "time" ∷ []))
        (either
          (sequence (literal "flag" ∷ blanks ∷ any_of ("fell" ∷ "fall" ∷ "dropped" ∷ []) ∷ []))
          (either
            (sequence
              (literal "lost" ∷ some_of blank ∷ literal "on" ∷ some_of blank ∷ literal "time" ∷ []))
            (either
              (sequence (
                any_of ("white" ∷ "black" ∷ [])
                ∷ some_of blank
                ∷ any_of ("win" ∷ "wins" ∷ "won" ∷ [])
                ∷ some_of blank
                ∷ literal "on"
                ∷ some_of blank
                ∷ literal "time"
                ∷ []))
              (sequence
                (literal "clock" ∷ some_of blank ∷ any_of ("flagged" ∷ "expired" ∷ []) ∷ []))))))

-- the expressions in the order of the tests, each with the word it stands for; `\b` stands round
-- every one of them
unfoldable pub patterns : List (Regex × String)
unfolding moves_rule fold then_maybe time_words sequence any_of some_of literal optional
patterns =
    (literal "normal", "normal")
    ∷ (moves_rule (any_of ("50" ∷ "fifty" ∷ [])), "fifty_moves")
    ∷ (
      moves_rule (either (literal "75") (sequence (literal "seventy" ∷ gap ∷ literal "five" ∷ []))),
      "seventyfive_moves",
    )
    ∷ (fold "5" "five", "fivefold_repetition")
    ∷ (either (then_maybe (fold "3" "three") "claim") (literal "threefold"), "threefold_repetition")
    ∷ (literal "repetition", "repetition")
    ∷ (any_of ("checkmate" ∷ "mate" ∷ []), "checkmate")
    ∷ (then_maybe (literal "insufficient") "material", "insufficient_material")
    ∷ (both (literal "resign") (optional (any_of ("ed" ∷ "ation" ∷ "s" ∷ []))), "resignation")
    ∷ (time_words, "time_forfeit")
    ∷ (any_of ("unterminated" ∷ "unfinished" ∷ []), "unterminated")
    ∷ (both (literal "abandon") (optional (literal "ed")), "abandoned")
    ∷ (both (literal "adjudicat") (any_of ("ed" ∷ "ion" ∷ [])), "adjudication")
    ∷ (literal "death", "death")
    ∷ (literal "emergency", "emergency")
    ∷ (
      either
          (sequence
            (literal "rule" ∷ optional (literal "s") ∷ some_of blank ∷ literal "infraction" ∷ []))
          (either
            (sequence (
              optional (sequence (literal "second" ∷ some_of blank ∷ []))
              ∷ literal "illegal"
              ∷ some_of blank
              ∷ literal "move"
              ∷ []))
            (any_of ("infraction" ∷ "illegal" ∷ []))),
      "rules_infraction",
    )
    ∷ (
      either
          (sequence (
            literal "draw"
            ∷ some_of blank
            ∷ literal "by"
            ∷ some_of blank
            ∷ literal "agreement"
            ∷ []))
          (literal "agreement"),
      "draw_agreement",
    )
    ∷ []

-- the word of the first expression that is found
unfoldable pub first_found : List (Regex × String) → String → Option String
unfolding search_word
first_found [] t = none
first_found ((r, word) ∷ l) t =
    let rest = first_found l t in if search_word r false t then some word else rest

unfoldable pub normalize_termination : Option String → Option String
unfolding first_found patterns is_empty strip lower
normalize_termination none = none
normalize_termination (some term) =
    if is_empty term then none else first_found patterns (lower (strip term))
