-- ===== src/Engine/ParallelGather.antt =====
-- mcp_server/engine/parallel_gather.py: positions evaluated in slices, one slice a worker. The
-- evaluator and the short circuit are arguments; the semaphore only delays. A pool without workers of its own never
-- reuses the engine's table: there `evaluate` does not look at its flag.
pub mod Slices
use chessy_mcp.Prelude.{
  ℕ, zero, suc, ◌+◌, ◌-◌, ◌*◌, ◌/◌, min, max, leb, Bool, true, false, Option, none, some, List, [],
  ◌∷◌, ◌++◌, map, length, take, drop, if◌then◌else◌,
}

module _ {ℓ} {A : Type ℓ} where
  -- `enumerate`, from a number
  abbrev pub enumerate : ℕ → List A → List (ℕ × A)
  enumerate i [] = []
  enumerate i (x ∷ xs) = (i, x) ∷ enumerate (suc i) xs

  -- Slices of `chunk` items, at most `count` of them.
  unfoldable pub slices : ℕ → ℕ → List A → List (List A)
  slices chunk zero xs = []
  slices chunk (suc count) [] = []
  slices chunk (suc count) (x ∷ xs) = take chunk (x ∷ xs) ∷ slices chunk count (drop chunk (x ∷ xs))

  abbrev pub blanks : ℕ → List (Option A)
  blanks zero = []
  blanks (suc n) = none ∷ blanks n

  -- `out[i] = item`, which raises `IndexError` where nothing is written here
  unfoldable pub write : ℕ → A → List (Option A) → List (Option A)
  write i x [] = []
  write zero x (o ∷ out) = some x ∷ out
  write (suc i) x (o ∷ out) = o ∷ write i x out

  abbrev pub write_all : List (ℕ × A) → List (Option A) → List (Option A)
  write_all [] out = out
  write_all ((i, x) ∷ l) out = write_all l (write i x out)

  abbrev pub concat : List (List A) → List A
  concat [] = []
  concat (l ∷ ls) = l ++ concat ls

unfoldable pub max_batch_workers : ℕ → ℕ
max_batch_workers target = if leb 5 target then max 1 (target - 2) else max 1 (target - 1)

-- `math.ceil(n / k)`
abbrev pub ceiling : ℕ → ℕ → ℕ
ceiling n k = (n + (k - 1)) / k

module _ {ℓ} {Board Result : Type ℓ} (evaluate : Bool → Board → Result)
    (short_circuit : Board → ℕ → Option Result) where
  -- One slice: the first item does not reuse the engine's table.
  abbrev pub run_from : Bool → List (ℕ × Board) → List (ℕ × Result)
  run_from reuse_tt [] = []
  run_from reuse_tt ((i, b) ∷ items) =
      (i, elim (short_circuit b i) [ some r ↦ r | none ↦ evaluate reuse_tt b ])
      ∷ run_from true items

  unfoldable pub run_slice : List (ℕ × Board) → List (ℕ × Result)
  run_slice items = run_from false items

  unfoldable pub gather_evaluate_positions_bounded : ℕ → List Board → List (Option Result)
  unfolding slices write run_slice max_batch_workers
  gather_evaluate_positions_bounded target positions =
      let n = length positions in
      let k = max 1 (min (max_batch_workers target) n) in
      let parts = slices (ceiling n k) k (enumerate 0 positions) in
      write_all (concat (map run_slice parts)) (blanks n)
