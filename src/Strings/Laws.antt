-- ===== src/Strings/Laws.antt =====
-- What `split`, `join` and `strip` keep of a text (the methods of Python's `str`).
use mathlib.Core.List.{append-nil, append_assoc}
use bit_mod_ai_inference_cac.Prelude.{
  ==_iff, ◌==◌, inr, inl, Bool-cases, sym, false, List, Bool, refl, [], ◌∙◌, arith, if◌then◌else◌,
  true, ◌++◌, ◌∷◌, ◌≡◌, ℕ,
}
use bit_mod_ai_inference_cac.Strings.{
  join_with, split, push, is_space, keep_nonempty, strip, rstrip, lstrip, Text,
}

-- The characters that a test keeps.
unfoldable pub keep : (ℕ → Bool) → Text → Text
keep p [] = []
keep p (c ∷ t) = if p c then c ∷ keep p t else keep p t

unfoldable pub keep_all : (ℕ → Bool) → List Text → Text
unfolding keep
keep_all p [] = []
keep_all p (t ∷ ts) = keep p t ++ keep_all p ts

pub keep-append : (p : ℕ → Bool) (s t : Text) → keep p (s ++ t) ≡ keep p s ++ keep p t
unfolding keep
keep-append p [] t = refl
keep-append p (c ∷ s) t = ground (arith, keep-append p s t)

pub keep_all-append :
    (p : ℕ → Bool) (ss ts : List Text) → keep_all p (ss ++ ts) ≡ keep_all p ss ++ keep_all p ts
unfolding keep_all
keep_all-append p [] ts = refl
keep_all-append p (s ∷ ss) ts =
    rw (keep_all-append p ss ts) (sym (append_assoc (keep p s) (keep_all p ss) (keep_all p ts)))

-- A test that no space passes.
module _ (p : ℕ → Bool) (spaceless : (c : ℕ) → is_space c ≡ true → p c ≡ false) where
  keep-lstrip : (t : Text) → keep p (lstrip t) ≡ keep p t
  unfolding keep lstrip
  keep-lstrip [] = refl
  keep-lstrip (c ∷ t) = elim (Bool-cases (is_space c)) [
    | inl e ↦ rw (e, spaceless c e) (keep-lstrip t)
    | inr e ↦ rw e refl
  ]

  keep-keep_nonempty : (c : ℕ) (t : Text) → keep p (keep_nonempty c t) ≡ keep p (c ∷ t)
  unfolding keep
  keep-keep_nonempty c [] = elim (Bool-cases (is_space c)) [
    | inl e ↦ rw (e, spaceless c e) refl
    | inr e ↦ rw e refl
  ]
  keep-keep_nonempty c (d ∷ t) = refl

  keep-rstrip : (t : Text) → keep p (rstrip t) ≡ keep p t
  unfolding keep rstrip
  keep-rstrip [] = refl
  keep-rstrip (c ∷ t) = keep-keep_nonempty c (rstrip t) ∙ rw (keep-rstrip t) refl

  pub keep-strip : (t : Text) → keep p (strip t) ≡ keep p t
  unfolding strip
  keep-strip t = keep-rstrip (lstrip t) ∙ keep-lstrip t

module _ (p : ℕ → Bool) (sep : ℕ) (dropped : p sep ≡ false) where
  keep_all-push :
      (c : ℕ) (ts : List Text) → keep_all p (push c ts) ≡ keep p (c ∷ []) ++ keep_all p ts
  unfolding keep_all keep
  keep_all-push c [] = ground arith
  keep_all-push c (t ∷ ts) = ground arith

  keep-cons :
      (c : ℕ) (t : Text) → keep p (c ∷ []) ++ keep p t ≡ (if p c then c ∷ keep p t else keep p t)
  unfolding keep
  keep-cons c t = ground arith

  -- Splitting at a character that the test drops, and joining by one, keeps the others.
  pub keep_all-split : (t : Text) → keep_all p (split (sep ∷ []) t) ≡ keep p t
  unfolding split keep_all keep
  keep_all-split [] = refl
  keep_all-split (c ∷ t) = elim (Bool-cases (c == sep)) [
    | inl e ↦ rw e (rw ((==_iff c sep).0 e, dropped) (keep_all-split t))
    | inr e ↦ rw e (keep_all-push c (split (sep ∷ []) t) ∙ rw (keep_all-split t) (keep-cons c t))
  ]

  pub keep-join_with : (ts : List Text) → keep p (join_with (sep ∷ []) ts) ≡ keep_all p ts
  unfolding join_with keep_all keep
  keep-join_with [] = refl
  keep-join_with (t ∷ []) = sym (append-nil (keep p t))
  keep-join_with (t ∷ u ∷ ts) =
      keep-append p t (sep ∷ join_with (sep ∷ []) (u ∷ ts))
      ∙ rw (dropped, keep-join_with (u ∷ ts)) refl
