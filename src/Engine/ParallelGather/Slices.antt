-- ===== src/Engine/ParallelGather/Slices.antt =====
-- No position is lost and none changes its place in mcp_server/engine/parallel_gather.py.
use chessy_mcp.Prelude.{
  ℕ, zero, suc, ◌+◌, ◌-◌, ◌*◌, ◌≤◌, min, max, ◌≡◌, refl, sym, ap, ◌∙◌, subst, Bool, true, false,
  Option, none, some, List, [], ◌∷◌, ◌++◌, append_assoc, map, length, take, drop, arith,
}
use native.Mathlib.Omega.{div_any, mod_fact}
use chessy_mcp.Engine.ParallelGather.{
  enumerate, slices, blanks, write, write_all, concat, ceiling, max_batch_workers, run_from,
  run_slice, gather_evaluate_positions_bounded,
}

too_long : (n m : ℕ) → ¬ (suc n ≤ 0 * m)
too_long n m h = omega (arith, h)

module _ {ℓ} {A : Type ℓ} where
  take-drop : (n : ℕ) (xs : List A) → take n xs ++ drop n xs ≡ xs
  take-drop zero xs = refl
  take-drop (suc n) [] = refl
  take-drop (suc n) (x ∷ xs) = ap (λ l. x ∷ l) (take-drop n xs)

  length-drop : (n : ℕ) (xs : List A) → length (drop n xs) ≡ length xs - n
  length-drop zero xs = omega arith
  length-drop (suc n) [] = omega arith
  length-drop (suc n) (x ∷ xs) = omega (arith, length-drop n xs)

  concat-slices :
      (chunk count : ℕ) (xs : List A)
      → length xs ≤ count * chunk
      → concat (slices chunk count xs) ≡ xs
  unfolding slices
  concat-slices chunk zero [] h = refl
  concat-slices chunk zero (x ∷ xs) h = elim (too_long (length xs) chunk h) [ ]
  concat-slices chunk (suc count) [] h = refl
  concat-slices chunk (suc count) (x ∷ xs) h =
      ap (λ l. take chunk (x ∷ xs) ++ l)
        (concat-slices chunk count (drop chunk (x ∷ xs))
          (omega (arith, h, length-drop chunk (x ∷ xs))))
      ∙ take-drop chunk (x ∷ xs)

  write_here :
      (pre : List (Option A)) (x : A) (o : Option A) (out : List (Option A))
      → write (length pre) x (pre ++ o ∷ out) ≡ pre ++ some x ∷ out
  unfolding write
  write_here [] x o out = refl
  write_here (p ∷ pre) x o out = ap (λ l. p ∷ l) (write_here pre x o out)

  length-snoc : (xs : List A) (x : A) → length (xs ++ x ∷ []) ≡ suc (length xs)
  length-snoc [] x = refl
  length-snoc (y ∷ xs) x = ap suc (length-snoc xs x)

  length-enumerate : (i : ℕ) (xs : List A) → length (enumerate i xs) ≡ length xs
  length-enumerate i [] = refl
  length-enumerate i (x ∷ xs) = ap suc (length-enumerate (suc i) xs)

ceiling_covers : (n k : ℕ) → n ≤ suc k * ceiling n (suc k)
ceiling_covers n k = omega (arith, div_any (n + k) (suc k), mod_fact (n + k) k)

module _ {ℓ} {Board Result : Type ℓ} (evaluate : Bool → Board → Result)
    (short_circuit : Board → ℕ → Option Result) where
  -- what a position may be given: the short circuit's answer, or else an evaluation
  pub data IsResult (i : ℕ) (b : Board) : Result → Type ℓ where
    shortened : {r : Result} → short_circuit b i ≡ some r → IsResult i b r
    evaluated : (reuse_tt : Bool) → short_circuit b i ≡ none → IsResult i b (evaluate reuse_tt b)

  -- one result for each position, from the index `i` on
  pub data AreResults : ℕ → List Board → List (Option Result) → Type ℓ where
    done : {i : ℕ} → AreResults i [] []
    result :
        {i : ℕ} {b : Board} {r : Result} {bs : List Board} {out : List (Option Result)}
        → IsResult i b r
        → AreResults (suc i) bs out
        → AreResults i (b ∷ bs) (some r ∷ out)

  data AreRun : List (ℕ × Board) → List (ℕ × Result) → Type ℓ where
    nothing : AreRun [] []
    item :
        {i : ℕ} {b : Board} {r : Result} {bs : List (ℕ × Board)} {rs : List (ℕ × Result)}
        → IsResult i b r
        → AreRun bs rs
        → AreRun ((i, b) ∷ bs) ((i, r) ∷ rs)

  one-IsResult :
      (reuse_tt : Bool) (i : ℕ) (b : Board) (o : Option Result)
      → short_circuit b i ≡ o
      → IsResult i b (elim o [ some r ↦ r | none ↦ evaluate reuse_tt b ])
  one-IsResult reuse_tt i b none e = evaluated reuse_tt e
  one-IsResult reuse_tt i b (some r) e = shortened e

  run_from-AreRun :
      (reuse_tt : Bool) (items : List (ℕ × Board))
      → AreRun items (run_from evaluate short_circuit reuse_tt items)
  run_from-AreRun reuse_tt [] = nothing
  run_from-AreRun reuse_tt ((i, b) ∷ items) =
      item (one-IsResult reuse_tt i b (short_circuit b i) refl) (run_from-AreRun true items)

  append-AreRun :
      {bs cs : List (ℕ × Board)} {rs qs : List (ℕ × Result)}
      → AreRun bs rs
      → AreRun cs qs
      → AreRun (bs ++ cs) (rs ++ qs)
  append-AreRun nothing k = k
  append-AreRun (item h t) k = item h (append-AreRun t k)

  concat-AreRun :
      (parts : List (List (ℕ × Board)))
      → AreRun (concat parts) (concat (map (run_slice evaluate short_circuit) parts))
  unfolding run_slice
  concat-AreRun [] = nothing
  concat-AreRun (p ∷ parts) = append-AreRun (run_from-AreRun false p) (concat-AreRun parts)

  write_all-AreResults :
      (pre : List (Option Result)) (bs : List Board) (rs : List (ℕ × Result))
      → AreRun (enumerate (length pre) bs) rs
      → (out : List (Option Result)) × (write_all rs (pre ++ blanks (length bs)) ≡ pre ++ out)
        × AreResults (length pre) bs out
  write_all-AreResults pre [] _ nothing = ([], refl, done)
  write_all-AreResults pre (b ∷ bs) _ (item {r = r} {rs = rs} h t) =
      let pre' = pre ++ some r ∷ [] in
      let len = length-snoc pre (some r) in
      let rest =
        write_all-AreResults pre' bs rs (subst (λ n. AreRun (enumerate n bs) rs) (sym len) t) in
      (
        some r ∷ rest.0,
        ap (write_all rs) (write_here pre r none (blanks (length bs)))
            ∙ ap (write_all rs) (sym (append_assoc pre (some r ∷ []) (blanks (length bs))))
            ∙ rest.1
            ∙ append_assoc pre (some r ∷ []) rest.0,
        result h (subst (λ n. AreResults n bs rest.0) len rest.2),
      )

  gathered :
      (k : ℕ) (positions : List Board)
      → 1 ≤ k
      → AreResults 0 positions (
          write_all
            (concat (
              map
                (run_slice evaluate short_circuit)
                (slices (ceiling (length positions) k) k (enumerate 0 positions))))
            (blanks (length positions)))
  gathered zero positions h = elim (too_long 0 0 h) [ ]
  gathered (suc k) positions h =
      let chunk = ceiling (length positions) (suc k) in
      let parts = slices chunk (suc k) (enumerate 0 positions) in
      let whole =
        concat-slices chunk (suc k) (enumerate 0 positions)
          (omega (arith, ceiling_covers (length positions) k, length-enumerate 0 positions)) in
      let rs = concat (map (run_slice evaluate short_circuit) parts) in
      let written =
        write_all-AreResults [] positions rs
          (subst (λ l. AreRun l rs) whole (concat-AreRun parts)) in
      subst (AreResults 0 positions) (sym written.1) written.2

  -- Every position gets one result, in the order of the positions, whatever the size of the pool:
  -- the short circuit's if there is one, or else an evaluation of that position.
  pub gather_evaluate_positions_bounded_lem :
      (target : ℕ) (positions : List Board)
      → AreResults 0 positions
          (gather_evaluate_positions_bounded evaluate short_circuit target positions)
  unfolding gather_evaluate_positions_bounded
  gather_evaluate_positions_bounded_lem target positions =
      gathered (max 1 (min (max_batch_workers target) (length positions))) positions (omega arith)
