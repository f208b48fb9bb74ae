-- ===== src/Strings/Pieces.antt =====
-- Pieces of a text: what `strip` leaves is one, and what `split` makes joins to the text again.
use bit_mod_ai_inference_cac.Prelude.{
  zero, ◌-◌, length-append, inr, inl, arith, sym, ◌∙◌, ap, Bool-cases, length, refl, drop, true,
  suc, ◌++◌, ◌≢◌, [], List, ◌+◌, ◌∷◌, ◌≡◌, ℕ,
}
use bit_mod_ai_inference_cac.Strings.{
  is_space, push, keep_nonempty, split, starts_with, split_from, join_with, strip, rstrip, lstrip,
  Text,
}
use mathlib.Core.List.{append-nil, append_assoc}

-- `piece` stands in the text behind `before` characters.
abbrev pub Piece : Text → ℕ → Text → Type 0
Piece text before piece =
    (pre : Text) × (post : Text) × (text ≡ pre ++ (piece ++ post)) × (length pre ≡ before)

lstrip-suffix : (t : Text) → (pre : Text) × (t ≡ pre ++ lstrip t)
unfolding lstrip
lstrip-suffix [] = ([], refl)
lstrip-suffix (c ∷ t) = elim (Bool-cases (is_space c)) [
  | inl e ↦ let (pre, same) = lstrip-suffix t in (c ∷ pre, rw e (ap (λ s. c ∷ s) same))
  | inr e ↦ ([], rw e refl)
]

keep_nonempty-prefix : (c : ℕ) (t : Text) → (post : Text) × (c ∷ t ≡ keep_nonempty c t ++ post)
keep_nonempty-prefix c [] = elim (Bool-cases (is_space c)) [
  | inl e ↦ (c ∷ [], rw e refl)
  | inr e ↦ ([], rw e refl)
]
keep_nonempty-prefix c (d ∷ t) = ([], sym (append-nil (c ∷ d ∷ t)))

rstrip-prefix : (t : Text) → (post : Text) × (t ≡ rstrip t ++ post)
unfolding rstrip
rstrip-prefix [] = ([], refl)
rstrip-prefix (c ∷ t) =
    let (post, same) = rstrip-prefix t in
    let (rest, e) = keep_nonempty-prefix c (rstrip t) in
    (
      rest ++ post,
      ap (λ s. c ∷ s) same
          ∙ ap (λ s. s ++ post) e
          ∙ append_assoc (keep_nonempty c (rstrip t)) rest post,
    )

pub strip-piece : (t : Text) → (pre : Text) × (post : Text) × (t ≡ pre ++ (strip t ++ post))
unfolding strip
strip-piece t =
    let (pre, e) = lstrip-suffix t in
    let (post, q) = rstrip-prefix (lstrip t) in (pre, post, e ∙ ap (λ s. pre ++ s) q)

-- A piece of a piece is a piece.
pub Piece-trans :
    (text inner piece : Text) (m n : ℕ)
    → Piece text m inner
    → Piece inner n piece
    → Piece text (m + n) piece
Piece-trans text inner piece m n (pre, post, e, h) (pre', post', e', h') = (
  pre ++ pre',
  post' ++ post,
  e ∙ ap (λ s. pre ++ (s ++ post)) e' ∙ simp (append_assoc),
  omega (arith, length-append pre pre'),
)

-- The parts but the last of a `split`, each with the separator behind it.
abbrev pub ended_with : Text → List Text → Text
ended_with sep [] = []
ended_with sep (p ∷ ps) = p ++ (sep ++ ended_with sep ps)

pub join_with-append :
    (sep : Text) (ps : List Text) (q : Text) (qs : List Text)
    → join_with sep (ps ++ q ∷ qs) ≡ ended_with sep ps ++ join_with sep (q ∷ qs)
unfolding join_with
join_with-append sep [] q qs = refl
join_with-append sep (p ∷ []) q qs = simp (append_assoc)
join_with-append sep (p ∷ r ∷ ps) q qs =
    ap (λ s. p ++ (sep ++ s)) (join_with-append sep (r ∷ ps) q qs) ∙ simp (append_assoc)

split_from-cons :
    (sep : Text) (skip : ℕ) (t : Text)
    → (p : Text) × (ps : List Text) × (split_from sep skip t ≡ p ∷ ps)
unfolding split_from
split_from-cons sep skip [] = ([], [], refl)
split_from-cons sep (suc skip) (c ∷ t) = split_from-cons sep skip t
split_from-cons sep zero (c ∷ t) = elim (Bool-cases (starts_with sep (c ∷ t))) [
  | inl e ↦ ([], split_from sep (length sep - 1) t, rw e refl)
  | inr e ↦ let (p, ps, q) = split_from-cons sep 0 t in (c ∷ p, ps, rw (e, q) refl)
]

starts_with-drop : (sep t : Text) → starts_with sep t ≡ true → sep ++ drop (length sep) t ≡ t
unfolding starts_with
starts_with-drop [] t e = refl
starts_with-drop (p ∷ ps) [] e = cc
starts_with-drop (p ∷ ps) (c ∷ t) e = ground (arith, starts_with-drop ps t)

join_with-push :
    (sep : Text) (c : ℕ) (ps : List Text) → join_with sep (push c ps) ≡ c ∷ join_with sep ps
unfolding join_with
join_with-push sep c [] = refl
join_with-push sep c (p ∷ []) = refl
join_with-push sep c (p ∷ q ∷ ps) = refl

join_with-empty :
    (sep : Text) (skip : ℕ) (t : Text)
    → join_with sep ([] ∷ split_from sep skip t) ≡ sep ++ join_with sep (split_from sep skip t)
unfolding join_with
join_with-empty sep skip t = let (p, ps, q) = split_from-cons sep skip t in rw q refl

join_with-split_from :
    (s : ℕ) (ep t : Text) (skip : ℕ) → join_with (s ∷ ep) (split_from (s ∷ ep) skip t) ≡ drop skip t
unfolding split_from
join_with-split_from s ep [] zero = unfold join_with in refl
join_with-split_from s ep [] (suc skip) = unfold join_with in refl
join_with-split_from s ep (c ∷ t) (suc skip) = join_with-split_from s ep t skip
join_with-split_from s ep (c ∷ t) zero = elim (Bool-cases (starts_with (s ∷ ep) (c ∷ t))) [
  | inl e ↦
      let shorter : length (s ∷ ep) - 1 ≡ length ep = omega arith in
      rw (e, shorter)
        (join_with-empty (s ∷ ep) (length ep) t
          ∙ ap (λ u. (s ∷ ep) ++ u) (join_with-split_from s ep t (length ep))
          ∙ starts_with-drop (s ∷ ep) (c ∷ t) e)
  | inr e ↦ rw e (join_with-push (s ∷ ep) c _ ∙ ap (λ u. c ∷ u) (join_with-split_from s ep t 0))
]

pub join_with-split : (sep t : Text) → sep ≢ [] → join_with sep (split sep t) ≡ t
unfolding split
join_with-split [] t h = absurd (h refl)
join_with-split (s ∷ ep) t h = join_with-split_from s ep t 0
