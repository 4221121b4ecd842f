-- ===== src/Tools/Termination/Supported.antt =====
-- What `resolve_termination` of mcp_server/analysis/termination_resolution.py makes of a Termination
-- tag that `normalize_termination` reads, on a board that does not end the game.
use chessy_mcp.Prelude.{
  leb, String, ap, ◌≡◌, subst, refl, inl, inr, Bool, true, false, ◌&&◌, ◌||◌, Option, none, some,
  List, [], ◌∷◌, ◌++◌, lower, strip, is_empty, str_eq, eq_iff, arith, Bool-cases, Regex,
  search_word,
}
use chessy_mcp.Chess.{Chess}
use chessy_mcp.Rules.Status.{contains}
use chessy_mcp.Analysis.Reconcile.{resolve_header, resolve_termination}
use chessy_mcp.Tools.Termination.{patterns, first_found, normalize_termination}

-- what a board says nothing of
abbrev pub off_board : List String
off_board =
    "normal" ∷ "resignation" ∷ "time_forfeit" ∷ "unterminated" ∷ "abandoned" ∷ "adjudication"
    ∷ "death" ∷ "emergency" ∷ "rules_infraction" ∷ "draw_agreement" ∷ []

-- A bare `repetition` is on the board, but `resolve_header` does not look.
abbrev pub unchecked : String
unchecked = "repetition"

-- the words for the end of a game on the board
abbrev pub on_board : List String
on_board =
    "fifty_moves" ∷ "seventyfive_moves" ∷ "fivefold_repetition" ∷ "threefold_repetition"
    ∷ "checkmate" ∷ "insufficient_material" ∷ []

abbrev pub words_of : List (Regex × String) → List String → Bool
words_of [] known = true
words_of ((r, word) ∷ l) known = let rest = words_of l known in contains word known && rest

first_found-known :
    (l : List (Regex × String)) (t word : String) (known : List String)
    → words_of l known ≡ true
    → first_found l t ≡ some word
    → contains word known ≡ true
unfolding first_found
first_found-known [] t word known h k = absurd (ground (arith, k))
first_found-known ((r, w) ∷ l) t word known h k =
    go (search_word r false t) refl (contains w known) refl (first_found-known l t word known)
  where
    go :
        (b : Bool)
        → search_word r false t ≡ b
        → (a : Bool) → contains w known ≡ a
        → (words_of l known ≡ true → first_found l t ≡ some word → contains word known ≡ true)
        → contains word known ≡ true
    go true e a f ih = ground (arith, h, k, e, f)
    go false e a f ih = ih (ground (arith, h, f)) (ground (arith, k, e))

all_known : words_of patterns (unchecked ∷ off_board ++ on_board) ≡ true
unfolding patterns
all_known = refl

-- the words that `normalize_termination` gives
normalize-known :
    (term : Option String) (word : String)
    → normalize_termination term ≡ some word
    → contains word (unchecked ∷ off_board ++ on_board) ≡ true
unfolding normalize_termination
normalize-known none word h = absurd (ground (arith, h))
normalize-known (some term) word h = go (is_empty term) refl
  where
    go : (b : Bool) → is_empty term ≡ b → contains word (unchecked ∷ off_board ++ on_board) ≡ true
    go true e = absurd (ground (arith, h, e))
    go false e =
        first_found-known patterns (lower (strip term)) word (unchecked ∷ off_board ++ on_board)
          all_known (ground (arith, h, e))

abbrev Each : (String → Type 0) → List String → Type 0
Each P [] = Unit
Each P (w ∷ l) = P w × Each P l

-- what holds of each of the words holds of one that is among them
Each-contains :
    (P : String → Type 0) (word : String) (l : List String)
    → Each P l
    → contains word l ≡ true
    → P word
Each-contains P word [] e h = absurd (ground (arith, h))
Each-contains P word (w ∷ l) e h = elim (Bool-cases (str_eq word w)) [
  | inl k ↦ subst P (same k) e.0
  | inr k ↦ Each-contains P word l e.1 (ground (arith, h, k))
]
  where
    same : str_eq word w ≡ true → w ≡ word
    same k = ground (arith, k, eq_iff word w)

on_the_board :
    (word : String) (l m : List String)
    → contains word (l ++ m) ≡ true
    → contains word l ≡ false
    → contains word m ≡ true
on_the_board word [] m h e = h
on_the_board word (w ∷ l) m h e = on_the_board word l m (ground (arith, h, e)) (ground (arith, e))

module _ (c : Chess) where
  open c use {Board, halfmove_clock, is_fifty_moves, is_repetition}

  -- the board bears the word out, or has no say
  abbrev pub is_supported : Board → String → Bool
  is_supported b word =
      contains word off_board
      || str_eq word unchecked
      || (str_eq word "threefold_repetition" && is_repetition b)
      || (str_eq word "fifty_moves" && (is_fifty_moves b || leb 100 (halfmove_clock b)))

  -- the header is refused, or what is made of it is borne out
  abbrev Upheld : Board → String → String → String → Type 0
  Upheld b header word norm =
      (resolve_header c b header (some norm)).0 ≡ some word → is_supported b word ≡ true

  passed :
      (b : Board) (word other : String)
      → some word ≡ some other
      → is_supported b word ≡ true
      → is_supported b other ≡ true
  passed b word other h k = ground (arith, h, k)

  -- the header is passed on as it is, or not at all
  resolve_header-same :
      (b : Board) (header norm word : String)
      → (resolve_header c b header (some norm)).0 ≡ some word
      → norm ≡ word
  unfolding resolve_header
  resolve_header-same b header norm word k = ground (arith, k, eq_iff norm "normal")

  fifty : (b : Board) (header word : String) → Upheld b header word "fifty_moves"
  unfolding resolve_header
  fifty b header word h = elim (Bool-cases (is_fifty_moves b || leb 100 (halfmove_clock b))) [
    | inl k ↦ passed b "fifty_moves" word (ground (arith, h, k)) k
    | inr k ↦ absurd (ground (arith, h, k))
  ]

  threefold : (b : Board) (header word : String) → Upheld b header word "threefold_repetition"
  unfolding resolve_header
  threefold b header word h = elim (Bool-cases (is_repetition b)) [
    | inl k ↦ passed b "threefold_repetition" word (ground (arith, h, k)) (ground (arith, k))
    | inr k ↦ absurd (ground (arith, h, k))
  ]

  Each-resolve_header : (b : Board) (header word : String) → Each (Upheld b header word) on_board
  unfolding resolve_header
  Each-resolve_header b header word = (
    fifty b header word,
    (
      λ h. absurd (ground (arith, h)),
      (
        λ h. absurd (ground (arith, h)),
        (
          threefold b header word,
          (λ h. absurd (ground (arith, h)), (λ h. absurd (ground (arith, h)), tt)),
        ),
      ),
    ),
  )

  header_supported :
      (b : Board) (header norm word : String)
      → contains norm (unchecked ∷ off_board ++ on_board) ≡ true
      → Upheld b header word norm
  header_supported b header norm word h k =
      elim (Bool-cases (contains norm (unchecked ∷ off_board))) [
        | inl e ↦
            passed b norm word (ap some (resolve_header-same b header norm word k))
              (ground (arith, e))
        | inr e ↦
            Each-contains (Upheld b header word) norm on_board (Each-resolve_header b header word)
              (on_the_board norm (unchecked ∷ off_board) on_board h e) k
      ]

  read_supported :
      (b : Board) (header word : String) (norm : Option String)
      → normalize_termination (some header) ≡ norm
      → (resolve_header c b header norm).0 ≡ some word
      → is_supported b word ≡ true
  unfolding resolve_header
  read_supported b header word none e h = absurd (ground (arith, h))
  read_supported b header word (some norm) e h =
      header_supported b header norm word (normalize-known (some header) norm e) h

  -- Where the board does not end the game, the termination that is made of a Termination tag is never
  -- a checkmate, insufficient material, or a draw by 75 moves or fivefold repetition. It is a
  -- threefold repetition or a draw by 50 moves only if the board shows it. Else it is a bare
  -- `repetition`, which is passed on without a look at the board, or a word of which a board says
  -- nothing.
  pub resolve_termination-supported :
      (b : Board) (header : Option String) (word : String)
      → (resolve_termination c (λ t. normalize_termination (some t)) b header none).0 ≡ some word
      → is_supported b word ≡ true
  unfolding resolve_termination
  resolve_termination-supported b none word h = absurd (ground (arith, h))
  resolve_termination-supported b (some header) word h = elim (Bool-cases (is_empty header)) [
    | inl e ↦ absurd (ground (arith, h, e))
    | inr e ↦
        read_supported b header word (normalize_termination (some header)) refl
          (ground (arith, h, e))
  ]
