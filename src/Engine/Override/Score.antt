-- ===== src/Engine/Override/Score.antt =====
-- When the score that `_compute_pos` reports for the zeroing moves is a winning one.
use chessy_mcp.Prelude.{
  ℕ, leb, ℤ, pos, negate, ltbℤ, lower, is_empty, String, ◌≡◌, refl, ◌⊎◌, inl, inr, ◌∙◌, ap, sym,
  Bool, true, false, not, ◌&&◌, ◌||◌, Option, none, some, List, [], ◌∷◌, arith, if◌then◌else◌,
}
use chessy_mcp.Chess.{Chess}
use chessy_mcp.Engine.Zeroing.{
  nothing_won, is_zeroing_move, Evaluation, PostState, ZeroingOverrideResult, Entry, noop_result,
  zeroing_results, post_state_winning, eval_one_post_state, evaluate_zeroing_post_state,
  evaluate_all_zeroing_post_states, maybe_zeroing_best_override,
}
use chessy_mcp.Rules.Pv.{find_move}
use chessy_mcp.Engine.Zeroing.Best.{beats, any_beats, result_of, ComesFrom, entries-ComesFrom}
use chessy_mcp.Engine.Override.{is_above, is_unconvincing, better, zeroing_best}

-- a mate or a score for the mover
abbrev pub is_won : PostState → Bool
is_won (cp, mate) = is_above (pos 0) mate || is_above (pos 0) cp

-- nothing, or a win
abbrev is_kept : PostState → Bool
is_kept (none, none) = true
is_kept s = is_won s

result-won :
    (e : Entry) → beats e noop_result ≡ true → is_won ((result_of e).cp, (result_of e).mate) ≡ true
result-won (u, (cp, some m)) h = ground (arith, h)
result-won (u, (none, none)) h = ground (arith, h)
result-won (u, (some cp, none)) h = ground (arith, h)

ComesFrom-won :
    (r : ZeroingOverrideResult) (entries : List Entry)
    → ComesFrom noop_result r entries
    → (r ≡ noop_result) ⊎ (is_won (r.cp, r.mate) ≡ true)
unfolding ComesFrom
ComesFrom-won r [] h = inl h
ComesFrom-won r (e ∷ entries) (inl (h, k)) =
    inr (ap (λ t. is_won (t.cp, t.mate)) h ∙ result-won e k)
ComesFrom-won r (e ∷ entries) (inr h) = ComesFrom-won r entries h

better-won :
    (one : PostState) (r : ZeroingOverrideResult)
    → is_won (r.cp, r.mate) ≡ true
    → is_won (better one r) ≡ true
unfolding better
better-won (cp, mate) r h = ground (arith, h)

kept-mate : (x : ℤ) → is_kept (if ltbℤ (pos 0) x then (none, some x) else nothing_won) ≡ true
kept-mate x = ground arith

kept-score : (x : ℤ) → is_kept (if ltbℤ (pos 0) x then (some x, none) else nothing_won) ≡ true
kept-score x = ground arith

post_state-kept :
    (mover : Bool) (cp mate : Option ℤ) → is_kept (post_state_winning mover cp mate) ≡ true
unfolding post_state_winning
post_state-kept mover cp (some mate) = kept-mate (if mover then mate else negate mate)
post_state-kept mover (some cp) none = kept-score (if mover then cp else negate cp)
post_state-kept mover none none = refl

convincing-won : (s : PostState) → is_kept s ≡ true → is_unconvincing s ≡ false → is_won s ≡ true
convincing-won (cp, mate) h k = ground (arith, h, k)

kept-then :
    (t : Bool) (s : PostState) → is_kept s ≡ true → is_kept (if t then s else nothing_won) ≡ true
kept-then true s h = h
kept-then false s h = refl

kept-else :
    (t : Bool) (s : PostState) → is_kept s ≡ true → is_kept (if t then nothing_won else s) ≡ true
kept-else true s h = refl
kept-else false s h = h

won-if :
    (t : Bool) (s one : PostState)
    → is_won s ≡ true
    → (t ≡ false → is_won one ≡ true)
    → is_won (if t then s else one) ≡ true
won-if true s one h k = h
won-if false s one h k = k refl

module _ (c : Chess) (evaluate : c.Board → ℕ → Option c.Move → Option Evaluation) where
  open c use {Board, Move, legal_moves, halfmove_clock, is_game_over, turn, push}

  eval_one-kept :
      (after : Board) (mover : Bool) (depth : ℕ)
      → is_kept (eval_one_post_state c evaluate after mover depth) ≡ true
  unfolding eval_one_post_state
  eval_one-kept after mover depth =
      elim (evaluate after depth none)
        as (λ o.
          is_kept (elim o [ none ↦ nothing_won | some ev ↦ post_state_winning mover ev.cp ev.mate ])
          ≡ true) [ none ↦ refl | some ev ↦ post_state-kept mover ev.cp ev.mate ]

  of_move-kept :
      (b : Board) (best_move : String) (depth : ℕ)
      → is_kept (evaluate_zeroing_post_state c evaluate b best_move depth) ≡ true
  unfolding evaluate_zeroing_post_state
  of_move-kept b best_move depth = go (find_move c (lower best_move) (legal_moves b))
    where
      go :
          (o : Option Move)
          → is_kept (elim o [
            | none ↦ nothing_won
            | some m ↦
                if not (is_zeroing_move c evaluate b m) || is_game_over (push b m)
                then nothing_won
                else eval_one_post_state c evaluate (push b m) (turn b) depth
          ])
            ≡ true
      go none = refl
      go (some m) =
          kept-else (not (is_zeroing_move c evaluate b m) || is_game_over (push b m)) _
            (eval_one-kept (push b m) (turn b) depth)

  one-kept :
      (b : Board) (best_move : Option String) (depth : ℕ)
      → is_kept (maybe_zeroing_best_override c evaluate b best_move depth) ≡ true
  unfolding maybe_zeroing_best_override
  one-kept b none depth = refl
  one-kept b (some best_move) depth =
      kept-then (not (is_empty best_move) && leb 100 (halfmove_clock b) && not (is_game_over b)) _
        (of_move-kept b best_move depth)

  best-cases :
      (b : Board) (best_move : Option String) (depth : ℕ)
      → is_game_over b ≡ false
      → leb 100 (halfmove_clock b) ≡ true
      → let one = maybe_zeroing_best_override c evaluate b best_move depth in
        zeroing_best c evaluate b best_move depth ≡ (
          if is_unconvincing one
          then better one (evaluate_all_zeroing_post_states c evaluate b depth)
          else one)
  unfolding zeroing_best
  best-cases b best_move depth h k = rw (h, k) refl

  scan-won :
      (b : Board) (depth : ℕ)
      → is_game_over b ≡ false
      → leb 100 (halfmove_clock b) ≡ true
      → any_beats (zeroing_results c evaluate b depth (legal_moves b)) noop_result ≡ true
      → let r = evaluate_all_zeroing_post_states c evaluate b depth in is_won (r.cp, r.mate) ≡ true
  scan-won b depth h k w =
      let entries = zeroing_results c evaluate b depth (legal_moves b) in
      let (unbeaten, from) = entries-ComesFrom c evaluate b depth h (ground (arith, k)) in
      elim (ComesFrom-won _ entries from) [
        | inl e ↦ absurd (ground (arith, sym w ∙ ap (any_beats entries) (sym e) ∙ unbeaten))
        | inr won ↦ won
      ]

  -- With the clock at 100 or more and the game not over, when some legal zeroing move wins in the
  -- scan of all of them, the score that is reported is a mate or a plus for the mover, even if the
  -- engine's own move was scored.
  pub zeroing_best_lem :
      (b : Board) (best_move : Option String) (depth : ℕ)
      → is_game_over b ≡ false
      → leb 100 (halfmove_clock b) ≡ true
      → any_beats (zeroing_results c evaluate b depth (legal_moves b)) noop_result ≡ true
      → is_won (zeroing_best c evaluate b best_move depth) ≡ true
  zeroing_best_lem b best_move depth h k w = rw (best-cases b best_move depth h k) (
      won-if (is_unconvincing (maybe_zeroing_best_override c evaluate b best_move depth)) _ _
        (better-won _ _ (scan-won b depth h k w))
        (convincing-won (maybe_zeroing_best_override c evaluate b best_move depth)
          (one-kept b best_move depth)))
