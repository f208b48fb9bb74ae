-- ===== src/Levenshtein.antt =====
-- core/bitmod/cache_engine.py: `_levenshtein_distance` and `_levenshtein_similarity`, over texts as
-- lists of characters with a decidable equality. Reading a row out of its bounds, Python's
-- `IndexError`, is `none`.
pub mod Script
pub mod Rows
pub mod Distance
use bit_mod_ai_inference_cac.Prelude.{
  ℕ, zero, suc, ◌+◌, ◌-◌, min, max, List, [], ◌∷◌, ◌++◌, Option, none, some, ◌>>=◌, ite, ltb, ◌==◌,
  if◌then◌else◌, length, get_elem?,
}

abbrev pub min₃ : ℕ → ℕ → ℕ → ℕ
min₃ a b c = min (min a b) c

-- `list(range(i, i + n))`
abbrev pub range_from : ℕ → ℕ → List ℕ
range_from i zero = []
range_from i (suc n) = i ∷ range_from (i + 1) n

-- `row[-1]`
abbrev pub last {ℓ} : {A : Type ℓ} → List A → Option A
last [] = none
last (x ∷ []) = some x
last (x ∷ y ∷ xs) = last (y ∷ xs)

module _ {ℓ} {A : Type ℓ} (dec : Discrete A) where
  -- `c1 != c2`, as a number
  abbrev pub differs : A → A → ℕ
  differs a b = ite (dec a b) 0 1

  -- The inner loop, with `j` the counter of `enumerate`: the current row.
  unfoldable pub cells : ℕ → A → List A → List ℕ → List ℕ → Option (List ℕ)
  cells j c1 [] prev_row curr_row = some curr_row
  cells j c1 (c2 ∷ s2) prev_row curr_row = do
    above ← get_elem? prev_row (j + 1)
    left ← get_elem? curr_row j
    corner ← get_elem? prev_row j
    cells (j + 1) c1 s2 prev_row
        (curr_row ++ min₃ (above + 1) (left + 1) (corner + differs c1 c2) ∷ [])

  -- The outer loop, with `i` the counter of `enumerate`: the last row.
  unfoldable pub rows : ℕ → List A → List A → List ℕ → Option (List ℕ)
  unfolding cells
  rows i [] s2 prev_row = some prev_row
  rows i (c1 ∷ s1) s2 prev_row = do
    curr_row ← cells 0 c1 s2 prev_row ((i + 1) ∷ [])
    rows (i + 1) s1 s2 curr_row

  -- The body for texts of which the first is not the shorter one.
  unfoldable pub table_distance : List A → List A → Option ℕ
  unfolding rows
  table_distance s1 [] = some (length s1)
  table_distance s1 (c ∷ s2) = do
    row ← rows 0 s1 (c ∷ s2) (range_from 0 (length (c ∷ s2) + 1))
    last row

  -- The call of itself with the arguments swapped does not swap again, so it is the body.
  unfoldable pub levenshtein_distance : List A → List A → Option ℕ
  unfolding table_distance
  levenshtein_distance s1 s2 =
      if ltb (length s1) (length s2) then table_distance s2 s1 else table_distance s1 s2

  -- `1.0 - distance / max_len` as a fraction: its numerator and its denominator.
  unfoldable pub levenshtein_similarity : List A → List A → Option (ℕ × ℕ)
  unfolding levenshtein_distance
  levenshtein_similarity s1 s2 =
      let max_len = max (length s1) (length s2) in
      if max_len == 0
      then some (1, 1)
      else do distance ← levenshtein_distance s1 s2; some (max_len - distance, max_len)
