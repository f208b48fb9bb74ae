-- ===== src/Levenshtein/Distance.antt =====
-- `_levenshtein_distance` of core/bitmod/cache_engine.py is the edit distance, which is a metric.
use bit_mod_ai_inference_cac.Levenshtein.Rows.{table_distance-edit}
use mathlib.Core.Path.{subst, subst₂}
use bit_mod_ai_inference_cac.Levenshtein.{levenshtein_similarity, levenshtein_distance}
use mathlib.Core.List.{reverse-reverse, reverse}
use bit_mod_ai_inference_cac.Levenshtein.Script.{
  Script-reverse, edit-Script, edit-le, edit, flip, replace, keep, done, delete, insert, Script,
}
use bit_mod_ai_inference_cac.Prelude.{
  dec_lt, ◌-◌, [], zero, inr, inl, ◌∙◌, ltb, refl, ◌<◌, ◌↔◌, Bool-cases, some, ap, length, ◌≡◌, ◌∷◌,
  max, arith, suc, ◌+◌, ◌≤◌, ℕ, List,
}

module _ {ℓ} {A : Type ℓ} where
  abbrev edits : {xs ys : List A} {n : ℕ} → Script xs ys n → ℕ
  edits done = 0
  edits (keep x s) = suc (edits s)
  edits (replace x y s) = suc (edits s)
  edits (insert y s) = suc (edits s)
  edits (delete x s) = suc (edits s)

  -- Two scripts one after the other, with no more edits than both.
  trans_within :
      (f : ℕ) {xs ys zs : List A} {n m : ℕ} (s : Script xs ys n) (t : Script ys zs m)
      → edits s + edits t < f
      → (k : ℕ) × (k ≤ n + m) × Script xs zs k
  trans_within zero s t lt = elim lt [ ]
  trans_within (suc f) s (insert z t) lt =
      let (k, h, u) = trans_within f s t (omega arith) in (suc k, omega arith, insert z u)
  trans_within (suc f) (delete x s) t lt =
      let (k, h, u) = trans_within f s t (omega arith) in (suc k, omega arith, delete x u)
  trans_within (suc f) done done lt = (0, omega arith, done)
  trans_within (suc f) (keep x s) (keep _ t) lt =
      let (k, h, u) = trans_within f s t (omega arith) in (k, omega arith, keep x u)
  trans_within (suc f) (keep x s) (replace _ z t) lt =
      let (k, h, u) = trans_within f s t (omega arith) in (suc k, omega arith, replace x z u)
  trans_within (suc f) (keep x s) (delete _ t) lt =
      let (k, h, u) = trans_within f s t (omega arith) in (suc k, omega arith, delete x u)
  trans_within (suc f) (replace x y s) (keep _ t) lt =
      let (k, h, u) = trans_within f s t (omega arith) in (suc k, omega arith, replace x y u)
  trans_within (suc f) (replace x y s) (replace _ z t) lt =
      let (k, h, u) = trans_within f s t (omega arith) in (suc k, omega arith, replace x z u)
  trans_within (suc f) (replace x y s) (delete _ t) lt =
      let (k, h, u) = trans_within f s t (omega arith) in (suc k, omega arith, delete x u)
  trans_within (suc f) (insert y s) (keep _ t) lt =
      let (k, h, u) = trans_within f s t (omega arith) in (suc k, omega arith, insert y u)
  trans_within (suc f) (insert y s) (replace _ z t) lt =
      let (k, h, u) = trans_within f s t (omega arith) in (suc k, omega arith, insert z u)
  trans_within (suc f) (insert y s) (delete _ t) lt =
      let (k, h, u) = trans_within f s t (omega arith) in (k, omega arith, u)

  Script-trans :
      {xs ys zs : List A} {n m : ℕ}
      → Script xs ys n
      → Script ys zs m
      → (k : ℕ) × (k ≤ n + m) × Script xs zs k
  Script-trans s t = trans_within (suc (edits s + edits t)) s t (omega arith)

  abbrev pub longer : List A → List A → ℕ
  longer xs ys = max (length xs) (length ys)

  -- Replacing character by character, then inserting or deleting the rest.
  replace_all : (xs ys : List A) → Script xs ys (longer xs ys)
  replace_all [] [] = done
  replace_all [] (y ∷ ys) = subst (Script _ _) (omega arith) (insert y (replace_all [] ys))
  replace_all (x ∷ xs) [] = subst (Script _ _) (omega arith) (delete x (replace_all xs []))
  replace_all (x ∷ xs) (y ∷ ys) = subst (Script _ _) (omega arith) (replace x y (replace_all xs ys))

  keep_all : (xs : List A) → Script xs xs 0
  keep_all [] = done
  keep_all (x ∷ xs) = keep x (keep_all xs)

  eq_of_script : {xs ys : List A} {n : ℕ} → n ≡ 0 → Script xs ys n → xs ≡ ys
  eq_of_script e done = refl
  eq_of_script e (keep x s) = ap (◌∷◌ x) (eq_of_script e s)
  eq_of_script e (replace x y s) = absurd (omega arith)
  eq_of_script e (insert y s) = absurd (omega arith)
  eq_of_script e (delete x s) = absurd (omega arith)

-- A script of least cost.
pub record IsLeast {ℓ} {A : Type ℓ} (xs ys : List A) (n : ℕ) : Type ℓ where
  pub script : Script xs ys n
  pub least : (m : ℕ) → Script xs ys m → n ≤ m

module _ {ℓ} {A : Type ℓ} (dec : Discrete A) where
  edit-IsLeast : (xs ys : List A) → IsLeast xs ys (edit dec (reverse xs) (reverse ys))
  edit-IsLeast xs ys = record {
    script =
        subst₂ (λ us vs. Script us vs (edit dec (reverse xs) (reverse ys))) (reverse-reverse xs)
          (reverse-reverse ys) (Script-reverse (edit-Script dec (reverse xs) (reverse ys)));
    least = λ m s. edit-le dec (Script-reverse s);
  }

  IsLeast-flip : {xs ys : List A} {n : ℕ} → IsLeast xs ys n → IsLeast ys xs n
  IsLeast-flip h = record { script = flip h.script; least = λ m s. h.least m (flip s) }

  -- The function always has a result, and it is the least cost of a script of insertions, deletions
  -- and replacements of one character that turns the first text into the second.
  pub levenshtein_distance-IsLeast :
      (s1 s2 : List A) → (d : ℕ) × (levenshtein_distance dec s1 s2 ≡ some d) × IsLeast s1 s2 d
  unfolding levenshtein_distance
  levenshtein_distance-IsLeast s1 s2 = elim (Bool-cases (ltb (length s1) (length s2))) [
    | inl e ↦ (
      edit dec (reverse s2) (reverse s1),
      rw e (table_distance-edit dec s2 s1),
      IsLeast-flip (edit-IsLeast s2 s1),
    )
    | inr e ↦ (
      edit dec (reverse s1) (reverse s2),
      rw e (table_distance-edit dec s1 s2),
      edit-IsLeast s1 s2,
    )
  ]

  distance-IsLeast :
      (s1 s2 : List A) {d : ℕ} → levenshtein_distance dec s1 s2 ≡ some d → IsLeast s1 s2 d
  distance-IsLeast s1 s2 {d} h =
      let (d', e, l) = levenshtein_distance-IsLeast s1 s2 in
      let same : d' ≡ d = cc in subst (IsLeast s1 s2) same l

  zero_iff : {s1 s2 : List A} {d : ℕ} → IsLeast s1 s2 d → (d ≡ 0) ↔ (s1 ≡ s2)
  zero_iff {s1} l = (
    λ z. eq_of_script z l.script,
    λ z. omega (arith, l.least 0 (subst (λ t. Script s1 t 0) z (keep_all s1))),
  )

  -- The distance is a metric: it is 0 just for equal texts, the order of the texts does not matter,
  -- and no way round by a third text is shorter; and it is at most the length of the longer text.
  pub levenshtein_distance_metric :
      (s1 s2 s3 : List A) (d12 d23 d13 : ℕ)
      → levenshtein_distance dec s1 s2 ≡ some d12
      → levenshtein_distance dec s2 s3 ≡ some d23
      → levenshtein_distance dec s1 s3 ≡ some d13
      → ((d12 ≡ 0) ↔ (s1 ≡ s2))
        × (levenshtein_distance dec s2 s1 ≡ some d12)
        × (d13 ≤ d12 + d23)
        × (d12 ≤ longer s1 s2)
  levenshtein_distance_metric s1 s2 s3 d12 d23 d13 p q r =
      let l12 = distance-IsLeast s1 s2 p in
      let l23 = distance-IsLeast s2 s3 q in
      let l13 = distance-IsLeast s1 s3 r in
      let (d21, e, l21) = levenshtein_distance-IsLeast s2 s1 in
      let (k, h, s) = Script-trans l12.script l23.script in
      let same : d21 ≡ d12 =
        omega (arith, l21.least d12 (flip l12.script), l12.least d21 (flip l21.script)) in
      (
        zero_iff l12,
        e ∙ ap some same,
        omega (arith, l13.least k s),
        l12.least (longer s1 s2) (replace_all s1 s2),
      )

  eq_of_longer : (s1 s2 : List A) → longer s1 s2 ≡ 0 → s1 ≡ s2
  eq_of_longer [] [] h = refl
  eq_of_longer [] (y ∷ ys) h = absurd (omega arith)
  eq_of_longer (x ∷ xs) [] h = absurd (omega arith)
  eq_of_longer (x ∷ xs) (y ∷ ys) h = absurd (omega arith)

  similarity_empty :
      (s1 s2 : List A) → longer s1 s2 ≡ 0 → levenshtein_similarity dec s1 s2 ≡ some (1, 1)
  unfolding levenshtein_similarity
  similarity_empty s1 s2 h = ground arith

  similarity_nonempty :
      (s1 s2 : List A) (d : ℕ)
      → 0 < longer s1 s2
      → levenshtein_distance dec s1 s2 ≡ some d
      → levenshtein_similarity dec s1 s2 ≡ some (longer s1 s2 - d, longer s1 s2)
  unfolding levenshtein_similarity
  similarity_nonempty s1 s2 d h e = ground arith

  -- The similarity is always given as a fraction between 0 and 1, and is 1 just for equal texts.
  pub levenshtein_similarity_bounds :
      (s1 s2 : List A)
      → (num : ℕ) × (den : ℕ) × (levenshtein_similarity dec s1 s2 ≡ some (num, den))
        × (0 < den)
        × (num ≤ den)
        × ((num ≡ den) ↔ (s1 ≡ s2))
  levenshtein_similarity_bounds s1 s2 = elim (dec_lt 0 (longer s1 s2)) [
    | yes pos ↦
        let (d, e, l) = levenshtein_distance-IsLeast s1 s2 in
        let fits : d ≤ longer s1 s2 = l.least (longer s1 s2) (replace_all s1 s2) in
        (
          longer s1 s2 - d,
          longer s1 s2,
          similarity_nonempty s1 s2 d pos e,
          pos,
          omega arith,
          (λ p. (zero_iff l).0 (omega arith), λ p. omega (arith, (zero_iff l).1 p)),
        )
    | no neg ↦ (
      1,
      1,
      similarity_empty s1 s2 (omega arith),
      omega arith,
      omega arith,
      (λ p. eq_of_longer s1 s2 (omega arith), λ p. refl),
    )
  ]
