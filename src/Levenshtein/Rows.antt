-- ===== src/Levenshtein/Rows.antt =====
-- The rows of the table in core/bitmod/cache_engine.py hold the distances of prefixes.
use mathlib.Core.Path.{subst}
use native.Mathlib.Numerals.{add-one}
use mathlib.Core.List.{reverse, append_assoc, reverse_aux}
use bit_mod_ai_inference_cac.Levenshtein.{table_distance, rows, last, range_from, cells}
use bit_mod_ai_inference_cac.Levenshtein.Script.{edit-nil, edit}
use bit_mod_ai_inference_cac.Prelude.{
  ◌∙◌, sym, length-append, arith, ◌+◌, ap, get_elem?, refl, [], some, ◌++◌, suc, ◌≡◌, length, ◌∷◌,
  ℕ, List,
}

get_elem?-here {ℓ} :
    {A : Type ℓ} (xs : List A) (y : A) (zs : List A) → get_elem? (xs ++ y ∷ zs) (length xs) ≡ some y
get_elem?-here [] y zs = refl
get_elem?-here (x ∷ xs) y zs = get_elem?-here xs y zs

get_elem?-next {ℓ} :
    {A : Type ℓ} (xs : List A) (x y : A) (zs : List A)
    → get_elem? (xs ++ x ∷ y ∷ zs) (length xs + 1) ≡ some y
get_elem?-next [] x y zs = refl
get_elem?-next (z ∷ xs) x y zs = rw add-one (rw add-one at (get_elem?-next xs x y zs))

length-reverse_aux {ℓ} :
    {A : Type ℓ} (xs acc : List A) → length (reverse_aux xs acc) ≡ length xs + length acc
length-reverse_aux [] acc = omega arith
length-reverse_aux (x ∷ xs) acc = omega (arith, length-reverse_aux xs (x ∷ acc))

length-reverse {ℓ} : {A : Type ℓ} (xs : List A) → length (reverse xs) ≡ length xs
length-reverse xs = omega (arith, length-reverse_aux xs [])

module _ {ℓ} {A : Type ℓ} (dec : Discrete A) where
  -- The row after the characters `r`, the last one first: the distances to the prefixes that `acc`,
  -- the last one first, and a part of `s` make up.
  unfoldable pub row : List A → List A → List A → List ℕ
  row r acc [] = edit dec r acc ∷ []
  row r acc (c ∷ s) = edit dec r acc ∷ row r (c ∷ acc) s

  pub range-row : (acc s : List A) → range_from (length acc) (suc (length s)) ≡ row [] acc s
  unfolding row edit
  range-row acc [] = refl
  range-row acc (c ∷ s) = ap (◌∷◌ (length acc)) (
      subst (λ n. range_from n (suc (length s)) ≡ row [] (c ∷ acc) s) (omega arith)
        (range-row (c ∷ acc) s))

  row-head : (r acc s : List A) → (rest : List ℕ) × (row r acc s ≡ edit dec r acc ∷ rest)
  unfolding row
  row-head r acc [] = ([], refl)
  row-head r acc (c ∷ s) = (row r (c ∷ acc) s, refl)

  -- The cells of the row, `pre` being those before, and `row r acc s2` those above.
  cells-row :
      (c1 : A) (r acc s2 : List A) (above before : List ℕ)
      → length above ≡ length before
      → cells dec
          (length before)
          c1
          s2
          (above ++ row r acc s2)
          (before ++ edit dec (c1 ∷ r) acc ∷ [])
        ≡ some (before ++ row (c1 ∷ r) acc s2)
  unfolding cells row edit
  cells-row c1 r acc [] above before e = refl
  cells-row c1 r acc (c2 ∷ s2) above before e =
      let (rest, h) = row-head r (c2 ∷ acc) s2 in
      let up : get_elem? (above ++ edit dec r acc ∷ row r (c2 ∷ acc) s2) (length before + 1)
          ≡ some (edit dec r (c2 ∷ acc)) =
        rw (h, ← e) (get_elem?-next above (edit dec r acc) (edit dec r (c2 ∷ acc)) rest) in
      let diagonal : get_elem? (above ++ edit dec r acc ∷ row r (c2 ∷ acc) s2) (length before)
          ≡ some (edit dec r acc) =
        rw (← e) (get_elem?-here above (edit dec r acc) (row r (c2 ∷ acc) s2)) in
      let ih =
        cells-row c1 r (c2 ∷ acc) s2 (above ++ edit dec r acc ∷ [])
          (before ++ edit dec (c1 ∷ r) acc ∷ [])
          (omega (
            arith,
            length-append above (edit dec r acc ∷ []),
            length-append before (edit dec (c1 ∷ r) acc ∷ []),
          )) in
      rw (up, get_elem?-here before (edit dec (c1 ∷ r) acc) [], diagonal)
        (simp append_assoc (simp (append_assoc, length-append) at ih))

  pub last-row : (r acc s : List A) → last (row r acc s) ≡ some (edit dec r (reverse_aux s acc))
  unfolding row
  last-row r acc [] = refl
  last-row r acc (c ∷ s) =
      let (rest, e) = row-head r (c ∷ acc) s in rw e (rw e at (last-row r (c ∷ acc) s))

  -- The rows that are left, from the row after `r` on.
  rows-row :
      (s1 s2 r : List A)
      → rows dec (length r) s1 s2 (row r [] s2) ≡ some (row (reverse_aux s1 r) [] s2)
  unfolding rows edit
  rows-row [] s2 r = refl
  rows-row (c1 ∷ s1) s2 r =
      let first : cells dec 0 c1 s2 (row r [] s2) ((length r + 1) ∷ [])
          ≡ some (row (c1 ∷ r) [] s2) =
        rw add-one (cells-row c1 r [] s2 [] [] refl) in
      rw first (rw add-one (rows-row s1 s2 (c1 ∷ r)))

  -- The table ends with the distance of the reversed texts.
  pub table_distance-edit :
      (s1 s2 : List A) → table_distance dec s1 s2 ≡ some (edit dec (reverse s1) (reverse s2))
  unfolding table_distance
  table_distance-edit s1 [] = ap some (sym (edit-nil dec (reverse s1) ∙ length-reverse s1))
  table_distance-edit s1 (c ∷ s2) =
      let start : rows dec 0 s1 (c ∷ s2) (range_from 0 (suc (length s2) + 1))
          ≡ some (row (reverse s1) [] (c ∷ s2)) =
        rw (add-one, range-row [] (c ∷ s2)) (rows-row s1 (c ∷ s2) []) in
      rw start (last-row (reverse s1) [] (c ∷ s2))
