-- ===== src/Levenshtein/Script.antt =====
-- What the edit distance of core/bitmod/cache_engine.py promises: the least cost of a script of
-- single-character edits.
use bit_mod_ai_inference_cac.Levenshtein.{differs, min₃}
use mathlib.Core.List.{append-nil, reverse-append, reverse}
use mathlib.Core.Path.{subst₂, subst}
use bit_mod_ai_inference_cac.Prelude.{
  dec_le, refl, min, ◌≤◌, ◌≡◌, length, ℕ, suc, ◌+◌, List, [], ◌∷◌, ◌++◌, arith,
}

-- A way from the first text to the second, from left to right, with its cost.
pub data Script {ℓ} {A : Type ℓ} : List A → List A → ℕ → Type ℓ where
  done : Script [] [] 0
  keep : {xs ys : List A} {n : ℕ} (x : A) → Script xs ys n → Script (x ∷ xs) (x ∷ ys) n
  replace : {xs ys : List A} {n : ℕ} (x y : A) → Script xs ys n → Script (x ∷ xs) (y ∷ ys) (suc n)
  insert : {xs ys : List A} {n : ℕ} (y : A) → Script xs ys n → Script xs (y ∷ ys) (suc n)
  delete : {xs ys : List A} {n : ℕ} (x : A) → Script xs ys n → Script (x ∷ xs) ys (suc n)

module _ {ℓ} {A : Type ℓ} where
  pub flip : {xs ys : List A} {n : ℕ} → Script xs ys n → Script ys xs n
  flip done = done
  flip (keep x s) = keep x (flip s)
  flip (replace x y s) = replace y x (flip s)
  flip (insert y s) = delete y (flip s)
  flip (delete x s) = insert x (flip s)

  Script-append :
      {xs ys us vs : List A} {n m : ℕ}
      → Script xs ys n
      → Script us vs m
      → Script (xs ++ us) (ys ++ vs) (n + m)
  Script-append {us = us} {vs = vs} {m = m} done t = subst (Script us vs) {x = m} (omega arith) t
  Script-append (keep x s) t = keep x (Script-append s t)
  Script-append (replace x y s) t =
      subst (Script _ _) (omega arith) (replace x y (Script-append s t))
  Script-append (insert y s) t = subst (Script _ _) (omega arith) (insert y (Script-append s t))
  Script-append (delete x s) t = subst (Script _ _) (omega arith) (delete x (Script-append s t))

  pub Script-reverse :
      {xs ys : List A} {n : ℕ} → Script xs ys n → Script (reverse xs) (reverse ys) n
  Script-reverse done = done
  Script-reverse (keep {xs} {ys} {n} x s) =
      rw (reverse-append (x ∷ []) xs, reverse-append (x ∷ []) ys)
        (subst (Script _ _) {x = n + 0} (omega arith)
          (Script-append (Script-reverse s) (keep x done)))
  Script-reverse (replace {xs} {ys} {n} x y s) =
      rw (reverse-append (x ∷ []) xs, reverse-append (y ∷ []) ys)
        (subst (Script _ _) {x = n + 1} (omega arith)
          (Script-append (Script-reverse s) (replace x y done)))
  Script-reverse (insert {xs} {ys} {n} y s) =
      rw (reverse-append (y ∷ []) ys, ← append-nil (reverse xs))
        (subst (Script _ _) {x = n + 1} (omega arith)
          (Script-append (Script-reverse s) (insert y done)))
  Script-reverse (delete {xs} {ys} {n} x s) =
      rw (reverse-append (x ∷ []) xs, ← append-nil (reverse ys))
        (subst (Script _ _) {x = n + 1} (omega arith)
          (Script-append (Script-reverse s) (delete x done)))

  Script-min : {xs ys : List A} {n m : ℕ} → Script xs ys n → Script xs ys m → Script xs ys (min n m)
  Script-min {xs} {ys} {n} {m} s t = elim (dec_le n m) [
    | yes h ↦ subst (Script xs ys) {x = n} (omega arith) s
    | no h ↦ subst (Script xs ys) {x = m} (omega arith) t
  ]

module _ {ℓ} {A : Type ℓ} (dec : Discrete A) where
  -- The recursion that the table unfolds.
  unfoldable pub edit : List A → List A → ℕ
  edit [] ys = length ys
  edit (x ∷ xs) [] = suc (length xs)
  edit (x ∷ xs) (y ∷ ys) =
      min₃ (edit xs (y ∷ ys) + 1) (edit (x ∷ xs) ys + 1) (edit xs ys + differs dec x y)

  pub edit-nil : (xs : List A) → edit xs [] ≡ length xs
  unfolding edit
  edit-nil [] = refl
  edit-nil (x ∷ xs) = refl

  edit-insert : (xs ys : List A) (y : A) → edit xs (y ∷ ys) ≤ edit xs ys + 1
  unfolding edit
  edit-insert [] ys y = omega arith
  edit-insert (x ∷ xs) ys y = omega arith

  edit-delete : (xs ys : List A) (x : A) → edit (x ∷ xs) ys ≤ edit xs ys + 1
  unfolding edit
  edit-delete xs [] x = omega (arith, edit-nil xs)
  edit-delete xs (y ∷ ys) x = omega arith

  edit-replace : (xs ys : List A) (x y : A) → edit (x ∷ xs) (y ∷ ys) ≤ edit xs ys + differs dec x y
  unfolding edit
  edit-replace xs ys x y = omega arith

  -- No script costs less.
  pub edit-le : {xs ys : List A} {n : ℕ} → Script xs ys n → edit xs ys ≤ n
  edit-le done = unfold edit in omega arith
  edit-le (keep {xs} {ys} x s) = ground (arith, edit-le s, edit-replace xs ys x x)
  edit-le (replace {xs} {ys} x y s) = ground (arith, edit-le s, edit-replace xs ys x y)
  edit-le (insert {xs} {ys} y s) = omega (arith, edit-le s, edit-insert xs ys y)
  edit-le (delete {xs} {ys} x s) = omega (arith, edit-le s, edit-delete xs ys x)

  corner :
      {xs ys : List A} {n : ℕ} (x y : A)
      → Script xs ys n
      → Script (x ∷ xs) (y ∷ ys) (n + differs dec x y)
  corner {xs} {ys} {n} x y s = elim (dec x y) [
    | yes p ↦
        let e : n ≡ n + differs dec x y = ground arith in
        subst₂ (λ z m. Script (x ∷ xs) (z ∷ ys) m) p e (keep x s)
    | no p ↦ subst (Script (x ∷ xs) (y ∷ ys)) {x = suc n} (ground arith) (replace x y s)
  ]

  -- Some script has that cost.
  pub edit-Script : (xs ys : List A) → Script xs ys (edit xs ys)
  unfolding edit
  edit-Script [] [] = done
  edit-Script [] (y ∷ ys) = insert y (edit-Script [] ys)
  edit-Script (x ∷ xs) [] = delete x (subst (Script xs []) (edit-nil xs) (edit-Script xs []))
  edit-Script (x ∷ xs) (y ∷ ys) =
      Script-min
        (Script-min (subst (Script _ _) (omega arith) (delete x (edit-Script xs (y ∷ ys))))
          (subst (Script _ _) (omega arith) (insert y (edit-Script (x ∷ xs) ys))))
        (corner x y (edit-Script xs ys))
