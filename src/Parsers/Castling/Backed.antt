-- ===== src/Parsers/Castling/Backed.antt =====
-- The castling rights that mcp_server/parsers/pgn_validate/castling.py lets through have their rooks.
use Prim.Native.String.{[] as end, ◌∷◌ as cons}
use Prim.Native.Char.{Char, code}
use chessy_mcp.Prelude.{
  ℕ, ◌==◌, String, ◌≡◌, refl, sym, ◌∙◌, Bool, true, false, ◌&&◌, ◌||◌, is_empty, is_in, str_eq,
  eq_iff, arith, Bool-cases, inl, inr, ◌⊎◌,
}
use chessy_mcp.Chess.{Chess, rook}
use chessy_mcp.Rules.DeadPosition
use chessy_mcp.Parsers.Castling.{
  Rights, accepted, without_repeats, those_in, those_not_in, canonical_order, is_valid_char, valid,
  invalid, in_canonical_order, validate_castling_rights,
}

-- a test of characters that looks at their codes alone
module _ (p : Char → Bool) where
  abbrev pub all : String → Bool
  all end = true
  all (cons ch s) = let rest = all s in p ch && rest

  abbrev IsOfCodes : Type 0
  IsOfCodes = (d e : Char) → code d ≡ code e → p d ≡ p e

  all-in : IsOfCodes → (ch : Char) (s : String) → all s ≡ true → is_in ch s ≡ true → p ch ≡ true
  unfolding is_in
  all-in same ch end h k = absurd (ground (arith, k))
  all-in same ch (cons d s) h k = ground (arith, h, k, all-in same ch s, same ch d)

  all-repeats :
      IsOfCodes
      → (seen s : String) → all seen ≡ true
      → all (without_repeats seen s) ≡ true
      → all s ≡ true
  unfolding without_repeats
  all-repeats same seen end h k = refl
  all-repeats same seen (cons ch s) h k =
      ground (
        arith,
        h,
        k,
        all-repeats same seen s,
        all-repeats same (cons ch seen) s,
        all-in same ch seen,
      )

  all-those_in : IsOfCodes → (chars s : String) → all chars ≡ true → all (those_in chars s) ≡ true
  unfolding those_in
  all-those_in same chars end h = refl
  all-those_in same chars (cons ch s) h =
      ground (arith, h, all-those_in same chars s h, all-in same ch chars)

in-IsOfCodes : (chars : String) → IsOfCodes (λ ch. is_in ch chars)
unfolding is_in
in-IsOfCodes end d e h = refl
in-IsOfCodes (cons ch chars) d e h = rw (h, in-IsOfCodes chars d e h) refl

none_foreign :
    (chars s : String)
    → is_empty (those_not_in chars s) ≡ true
    → all (λ ch. is_in ch chars) s ≡ true
unfolding those_not_in is_empty
none_foreign chars end h = refl
none_foreign chars (cons ch s) h = ground (arith, h, none_foreign chars s)

those_in-all : (chars s : String) → all (λ ch. is_in ch chars) s ≡ true → those_in chars s ≡ s
unfolding those_in
those_in-all chars end h = refl
those_in-all chars (cons ch s) h = ground (arith, h, those_in-all chars s)

abbrev pub has_code : ℕ → String → Bool
has_code n end = false
has_code n (cons ch s) = let rest = has_code n s in (code ch == n) || rest

module _ (c : Chess) (b : c.Board) where
  backed-IsOfCodes : IsOfCodes (is_valid_char c b)
  unfolding is_valid_char
  backed-IsOfCodes d e h = rw h refl

  valid-backed : (s : String) → all (is_valid_char c b) (valid c b s) ≡ true
  unfolding valid
  valid-backed end = refl
  valid-backed (cons ch s) = ground (arith, valid-backed s)

  none_invalid : (s : String) → is_empty (invalid c b s) ≡ true → all (is_valid_char c b) s ≡ true
  unfolding invalid is_empty
  none_invalid end h = refl
  none_invalid (cons ch s) h = ground (arith, h, none_invalid s)

  dash : all (is_valid_char c b) "-" ≡ true
  unfolding is_valid_char
  dash = refl

  bare :
      (token : String) → (is_empty token || str_eq token "-") ≡ true → (token ≡ "") ⊎ (token ≡ "-")
  unfolding is_empty
  bare end h = inl refl
  bare (cons ch s) h = inr (ground (arith, h, eq_iff (cons ch s) "-"))

  abbrev pub HasRook : ℕ → ℕ → Bool → String → Type 0
  HasRook letter square color r =
      (has_code letter r ≡ false) ⊎ (DeadPosition.is_in square (c.pieces b rook color) ≡ true)

  -- K, Q, k and q have their rooks on h1, a1, h8 and a8
  abbrev pub HasRooks : String → Type 0
  HasRooks r =
      HasRook 75 7 true r × HasRook 81 0 true r × HasRook 107 63 false r × HasRook 113 56 false r

  all-HasRooks : (r : String) → all (is_valid_char c b) r ≡ true → HasRooks r
  unfolding is_valid_char
  all-HasRooks end h = (inl refl, inl refl, inl refl, inl refl)
  all-HasRooks (cons ch s) h =
      let rest : HasRooks s = all-HasRooks s (ground (arith, h)) in ground (arith, h, rest)

  -- what is let through, and what is refused, in lenient mode or in strict mode
  pub IsSound : Bool → Rights → Type 0
  IsSound strict (accepted r) =
      HasRooks r × ((strict ≡ false) ⊎ ((r ≡ those_in r canonical_order) ⊎ ((r ≡ "") ⊎ (r ≡ "-"))))
  IsSound strict r = strict ≡ true

  ordered-IsSound :
      (strict : Bool) (token : String)
      → all (is_valid_char c b) token ≡ true
      → IsSound strict (in_canonical_order strict token)
  unfolding in_canonical_order IsSound
  ordered-IsSound true token h =
      elim (Bool-cases (is_empty (those_not_in canonical_order (without_repeats "" token)))) [
        | inr e ↦ rw e refl
        | inl e ↦
            elim (Bool-cases
              (str_eq (those_in canonical_order token) (those_in token canonical_order))) [
                | inr f ↦ rw (e, f) refl
                | inl f ↦
                    rw (e, f)
                      (
                        all-HasRooks token h,
                        inr (
                            inl (
                              sym (
                                those_in-all canonical_order token (
                                  all-repeats (λ ch. is_in ch canonical_order)
                                    (in-IsOfCodes canonical_order) "" token refl
                                    (none_foreign canonical_order (without_repeats "" token) e)))
                              ∙ ground (
                                arith,
                                f,
                                eq_iff (those_in canonical_order token)
                                    (those_in token canonical_order),
                              ))),
                      )
              ]
      ]
  ordered-IsSound false token h = elim (Bool-cases (is_empty (those_in token canonical_order))) [
    | inl e ↦ rw e (all-HasRooks token h, inl refl)
    | inr e ↦ rw e (
      all-HasRooks (those_in token canonical_order)
          (all-those_in (is_valid_char c b) backed-IsOfCodes token canonical_order h),
      inl refl,
    )
  ]

  bare-IsSound :
      (token : String) (strict : Bool)
      → (is_empty token || str_eq token "-") ≡ true
      → IsSound strict (validate_castling_rights c b token strict)
  unfolding validate_castling_rights IsSound
  bare-IsSound token strict e = rw e (go (bare token e))
    where
      go :
          ((token ≡ "") ⊎ (token ≡ "-"))
          → HasRooks token
            × ((strict ≡ false)
                ⊎ ((token ≡ those_in token canonical_order) ⊎ ((token ≡ "") ⊎ (token ≡ "-"))))
      go (inl h) = (all-HasRooks token (rw h refl), inr (inr (inl h)))
      go (inr h) = (all-HasRooks token (rw h dash), inr (inr (inr h)))

  backed-validated :
      (token : String) (strict : Bool)
      → (is_empty token || str_eq token "-") ≡ false
      → is_empty (invalid c b (without_repeats "" token)) ≡ true
      → validate_castling_rights c b token strict ≡ in_canonical_order strict token
  unfolding validate_castling_rights
  backed-validated token strict e f = rw (e, f) refl

  missing-IsSound :
      (token : String) (strict : Bool)
      → (is_empty token || str_eq token "-") ≡ false
      → is_empty (invalid c b (without_repeats "" token)) ≡ false
      → IsSound strict (validate_castling_rights c b token strict)
  unfolding validate_castling_rights IsSound
  missing-IsSound token true e f = rw (e, f) refl
  missing-IsSound token false e f =
      elim (Bool-cases (is_empty (valid c b (without_repeats "" token)))) [
        | inl g ↦ rw (e, f, g) (all-HasRooks "-" dash, inl refl)
        | inr g ↦
            rw (e, f, g)
              (
                all-HasRooks (valid c b (without_repeats "" token))
                    (valid-backed (without_repeats "" token)),
                inl refl,
              )
      ]

  -- Each of the rights K, Q, k and q in a token that is let through has its rook on its square (h1,
  -- a1, h8 or a8); other letters are not looked at in lenient mode, which refuses no token. In strict
  -- mode the token is empty, a dash, or made of these four alone, each at most once and in the order
  -- KQkq.
  pub validate_castling_rights_lem :
      (token : String) (strict : Bool) → IsSound strict (validate_castling_rights c b token strict)
  validate_castling_rights_lem token strict =
      elim (Bool-cases (is_empty token || str_eq token "-")) [
        | inl e ↦ bare-IsSound token strict e
        | inr e ↦ elim (Bool-cases (is_empty (invalid c b (without_repeats "" token)))) [
          | inl f ↦ rw (backed-validated token strict e f) (
              ordered-IsSound strict token (
                all-repeats (is_valid_char c b) backed-IsOfCodes "" token refl
                  (none_invalid (without_repeats "" token) f)))
          | inr f ↦ missing-IsSound token strict e f
        ]
      ]
