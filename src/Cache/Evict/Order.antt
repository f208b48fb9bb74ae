-- ===== src/Cache/Evict/Order.antt =====
-- The selections and sorts of core/bitmod/adapters/db_sqlite.py `cache_evict_lru`, on any rows.
use bit_mod_ai_inference_cac.Cache.Evict.{select_where, sort_by, insert_by}
use bit_mod_ai_inference_cac.Prelude.{
  length, false, true, zero, leb→le, ap, inr, refl, suc, inl, [], drop, arith, Bool-cases, leb, ◌≤◌,
  All, ◌∷◌, take, ◌++◌, ◌+◌, ◌≡◌, List, ◌&&◌, ℕ, Bool,
}
use bit_mod_ai_inference_cac.Cache.Backend.{count_where, delete_where}

module _ {ℓ} {A : Type ℓ} where
  -- `p` and `q` at once
  abbrev pub both : (A → Bool) → (A → Bool) → A → Bool
  both p q a = p a && q a

  count-insert_by :
      (p : A → Bool) (le : A → A → Bool) (a : A) (rs : List A)
      → count_where p (insert_by le a rs) ≡ count_where p (a ∷ rs)
  unfolding insert_by
  count-insert_by p le a [] = refl
  count-insert_by p le a (b ∷ rs) = elim (Bool-cases (le a b)) [
    | inl e ↦ rw e refl
    | inr e ↦ rw e (omega (arith, count-insert_by p le a rs))
  ]

  pub count-sort_by :
      (p : A → Bool) (le : A → A → Bool) (rs : List A)
      → count_where p (sort_by le rs) ≡ count_where p rs
  unfolding sort_by
  count-sort_by p le [] = refl
  count-sort_by p le (a ∷ rs) =
      omega (arith, count-insert_by p le a (sort_by le rs), count-sort_by p le rs)

  pub count-select_where :
      (p q : A → Bool) (rs : List A) → count_where q (select_where p rs) ≡ count_where (both p q) rs
  unfolding select_where
  count-select_where p q [] = refl
  count-select_where p q (a ∷ rs) = ground (arith, count-select_where p q rs)

  pub count-delete_where :
      (p q : A → Bool) (rs : List A)
      → count_where p (delete_where q rs) + count_where (both p q) rs ≡ count_where p rs
  count-delete_where p q [] = omega arith
  count-delete_where p q (a ∷ rs) = ground (arith, count-delete_where p q rs)

  pub count-append :
      (p : A → Bool) (rs qs : List A)
      → count_where p (rs ++ qs) ≡ count_where p rs + count_where p qs
  count-append p [] qs = omega arith
  count-append p (a ∷ rs) qs = omega (arith, count-append p rs qs)

  pub take-drop : (n : ℕ) (rs : List A) → take n rs ++ drop n rs ≡ rs
  take-drop zero rs = refl
  take-drop (suc n) [] = refl
  take-drop (suc n) (a ∷ rs) = ap (λ s. a ∷ s) (take-drop n rs)

  -- Each element is followed only by such as it is no more than.
  abbrev pub Sorted : (A → ℕ) → List A → Type ℓ
  Sorted value [] = Unit
  Sorted value (a ∷ rs) = All (λ b. value a ≤ value b) rs × Sorted value rs

  module _ {κ} (P : A → Type κ) where
    pub All-insert_by :
        (le : A → A → Bool) (a : A) (rs : List A) → P a → All P rs → All P (insert_by le a rs)
    unfolding insert_by
    All-insert_by le a [] h hs = (h, tt)
    All-insert_by le a (b ∷ rs) h hs = elim (Bool-cases (le a b)) [
      | inl e ↦ rw e (h, hs)
      | inr e ↦ rw e (hs.0, All-insert_by le a rs h hs.1)
    ]

    pub All-sort_by : (le : A → A → Bool) (rs : List A) → All P rs → All P (sort_by le rs)
    unfolding sort_by
    All-sort_by le [] h = tt
    All-sort_by le (a ∷ rs) h = All-insert_by le a (sort_by le rs) h.0 (All-sort_by le rs h.1)

  All-at_least :
      (value : A → ℕ) (m n : ℕ) (rs : List A)
      → m ≤ n
      → All (λ b. n ≤ value b) rs
      → All (λ b. m ≤ value b) rs
  All-at_least value m n [] h hs = tt
  All-at_least value m n (b ∷ rs) h hs = (omega arith, All-at_least value m n rs h hs.1)

  module _ (value : A → ℕ) where
    insert_by-Sorted :
        (a : A) (rs : List A)
        → Sorted value rs
        → Sorted value (insert_by (λ x y. leb (value x) (value y)) a rs)
    unfolding insert_by
    insert_by-Sorted a [] h = (tt, tt)
    insert_by-Sorted a (b ∷ rs) h = elim (Bool-cases (leb (value a) (value b))) [
      | inl e ↦
          let below : value a ≤ value b = leb→le (value a) (value b) e in
          rw e ((below, All-at_least value (value a) (value b) rs below h.0), h)
      | inr e ↦ rw e (
        All-insert_by (λ c. value b ≤ value c) (λ x y. leb (value x) (value y)) a rs (ground arith)
            h.0,
        insert_by-Sorted a rs h.1,
      )
    ]

    pub sort_by-Sorted : (rs : List A) → Sorted value (sort_by (λ x y. leb (value x) (value y)) rs)
    unfolding sort_by
    sort_by-Sorted [] = tt
    sort_by-Sorted (a ∷ rs) =
        insert_by-Sorted a (sort_by (λ x y. leb (value x) (value y)) rs) (sort_by-Sorted rs)

    All-drop :
        (m n : ℕ) (rs : List A) → All (λ b. m ≤ value b) rs → All (λ b. m ≤ value b) (drop n rs)
    All-drop m zero rs h = h
    All-drop m (suc n) [] h = tt
    All-drop m (suc n) (a ∷ rs) h = All-drop m n rs h.1

    -- What a prefix of a sorted list takes is no more than what it leaves.
    pub take-Sorted :
        (n : ℕ) (rs : List A)
        → Sorted value rs
        → All (λ a. All (λ b. value a ≤ value b) (drop n rs)) (take n rs)
    take-Sorted zero rs h = tt
    take-Sorted (suc n) [] h = tt
    take-Sorted (suc n) (a ∷ rs) h = (All-drop (value a) n rs h.0, take-Sorted n rs h.1)

  module _ {κ} (P : A → Type κ) where
    pub All-of_insert_by :
        (le : A → A → Bool) (a : A) (rs : List A) → All P (insert_by le a rs) → P a × All P rs
    unfolding insert_by
    All-of_insert_by le a [] h = h
    All-of_insert_by le a (b ∷ rs) h = elim (Bool-cases (le a b)) [
      | inl e ↦ (rw e at h)
      | inr e ↦
          let (first, rest) : P b × All P (insert_by le a rs) = (rw e at h) in
          let (here, others) = All-of_insert_by le a rs rest in (here, (first, others))
    ]

    pub All-of_sort_by : (le : A → A → Bool) (rs : List A) → All P (sort_by le rs) → All P rs
    unfolding sort_by
    All-of_sort_by le [] h = tt
    All-of_sort_by le (a ∷ rs) h =
        let (here, rest) = All-of_insert_by le a (sort_by le rs) h in
        (here, All-of_sort_by le rs rest)

    pub All-select_where : (p : A → Bool) (rs : List A) → All P rs → All P (select_where p rs)
    unfolding select_where
    All-select_where p [] h = tt
    All-select_where p (a ∷ rs) h = elim (Bool-cases (p a)) [
      | inl e ↦ rw e (h.0, All-select_where p rs h.1)
      | inr e ↦ rw e (All-select_where p rs h.1)
    ]

    pub All-of_select_where :
        (p : A → Bool) (rs : List A) → All P (select_where p rs) → All (λ a. p a ≡ true → P a) rs
    unfolding select_where
    All-of_select_where p [] h = tt
    All-of_select_where p (a ∷ rs) h = elim (Bool-cases (p a)) [
      | inl e ↦
          let both_kept : P a × All P (select_where p rs) = (rw e at h) in
          ((λ t. both_kept.0), All-of_select_where p rs both_kept.1)
      | inr e ↦ ((λ t. absurd (ground arith)), All-of_select_where p rs (rw e at h))
    ]

    pub All-delete_where :
        (p : A → Bool) (rs : List A) → All P rs → All (λ a. (p a ≡ false) × P a) (delete_where p rs)
    All-delete_where p [] h = tt
    All-delete_where p (a ∷ rs) h = elim (Bool-cases (p a)) [
      | inl e ↦ rw e (All-delete_where p rs h.1)
      | inr e ↦ rw e ((e, h.0), All-delete_where p rs h.1)
    ]

    pub All-take : (n : ℕ) (rs : List A) → All P rs → All P (take n rs)
    All-take zero rs h = tt
    All-take (suc n) [] h = tt
    All-take (suc n) (a ∷ rs) h = (h.0, All-take n rs h.1)

  pub All-imp {κ₀ κ₁} :
      (P : A → Type κ₀) (Q : A → Type κ₁)
      → ((a : A) → P a → Q a)
      → (rs : List A) → All P rs
      → All Q rs
  All-imp P Q f [] h = tt
  All-imp P Q f (a ∷ rs) h = (f a h.0, All-imp P Q f rs h.1)

  pub All-zip {κ₀ κ₁ κ₂} :
      (P : A → Type κ₀) (Q : A → Type κ₁) (R : A → Type κ₂)
      → ((a : A) → P a → Q a → R a)
      → (rs : List A) → All P rs
      → All Q rs
      → All R rs
  All-zip P Q R f [] h k = tt
  All-zip P Q R f (a ∷ rs) h k = (f a h.0 k.0, All-zip P Q R f rs h.1 k.1)

  pub All-under {κ κ₁} :
      (P : A → Type κ) (B : Type κ₁) (rs : List A) → (B → All P rs) → All (λ a. B → P a) rs
  All-under P B [] h = tt
  All-under P B (a ∷ rs) h = ((λ b. (h b).0), All-under P B rs (λ b. (h b).1))

  All-column {κ} :
      (R : A → A → Type κ) (b : A) (rs qs : List A)
      → All (λ a. All (λ c. R a c) (b ∷ qs)) rs
      → All (λ a. R a b) rs × All (λ a. All (λ c. R a c) qs) rs
  All-column R b [] qs h = (tt, tt)
  All-column R b (a ∷ rs) qs h =
      let (first, others) = All-column R b rs qs h.1 in ((h.0.0, first), (h.0.1, others))

  pub All-swap {κ} :
      (R : A → A → Type κ) (rs qs : List A)
      → All (λ a. All (λ b. R a b) qs) rs
      → All (λ b. All (λ a. R a b) rs) qs
  All-swap R rs [] h = tt
  All-swap R rs (b ∷ qs) h =
      let (first, others) = All-column R b rs qs h in (first, All-swap R rs qs others)

  pub count-le_both : (p q : A → Bool) (rs : List A) → count_where (both p q) rs ≤ count_where q rs
  count-le_both p q [] = omega arith
  count-le_both p q (a ∷ rs) = ground (arith, count-le_both p q rs)

  pub count-both_self : (p : A → Bool) (rs : List A) → count_where (both p p) rs ≡ count_where p rs
  count-both_self p [] = refl
  count-both_self p (a ∷ rs) = ground (arith, count-both_self p rs)

  pub count-le_length : (p : A → Bool) (rs : List A) → count_where p rs ≤ length rs
  count-le_length p [] = omega arith
  count-le_length p (a ∷ rs) = ground (arith, count-le_length p rs)
