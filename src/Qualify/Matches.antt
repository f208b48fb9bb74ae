-- ===== src/Qualify/Matches.antt =====
-- core/bitmod/cache_qualify.py: what the gate's first pattern finds.
use mathlib.Core.List.{Memᴰ}
use mathlib.Core.Path.{subst}
use bit_mod_ai_inference_cac.Prelude.{
  if◌then◌else◌, leb, ◌&&◌, ltb, ◌⊎◌, ◌≤◌, false, ◌<◌, inr, sym, inl, refl, ◌↔◌, Bool-cases, ap,
  arith, true, ◌++◌, ℕ, length, ◌≡◌, drop, List, Bool, [], ◌∷◌,
}
use bit_mod_ai_inference_cac.Qualify.{
  openers, opened_by, lower, context_phrases, strip, is_context_dependent, words, qualify_cache_hit,
  begins_word, ends_word, is_word, is_boundary, search_from, any_at, matches_at,
}
use bit_mod_ai_inference_cac.Strings.{starts_with, Text}

-- A phrase of the list in the text, whole words.
pub record Occurs (before : Bool) (phrases : List Text) (t : Text) : Type 0 where
  pub front : Text
  pub phrase : Text
  pub back : Text
  pub listed : Memᴰ phrase phrases
  pub place : t ≡ front ++ (phrase ++ back)
  pub opens : is_boundary (ends_word before front) (begins_word (phrase ++ back)) ≡ true
  pub closes : is_boundary (ends_word (ends_word before front) phrase) (begins_word back) ≡ true

drop-append : (p t : Text) → drop (length p) (p ++ t) ≡ t
drop-append [] t = refl
drop-append (c ∷ p) t = drop-append p t

starts_with-append : (p t : Text) → starts_with p (p ++ t) ≡ true
unfolding starts_with
starts_with-append [] t = refl
starts_with-append (c ∷ p) t = ground (arith, starts_with-append p t)

starts_with-split : (p t : Text) → starts_with p t ≡ true → t ≡ p ++ drop (length p) t
unfolding starts_with
starts_with-split [] t h = refl
starts_with-split (c ∷ p) [] h = cc
starts_with-split (c ∷ p) (d ∷ t) h = ground (arith, starts_with-split p t)

any_at_sound :
    (before : Bool) (ps : List Text) (t : Text)
    → any_at before ps t ≡ true
    → (p : Text) × Memᴰ p ps × (matches_at before p t ≡ true)
unfolding any_at
any_at_sound before [] t h = absurd (ground arith)
any_at_sound before (p ∷ ps) t h = elim (Bool-cases (matches_at before p t)) [
  | inl e ↦ (p, Memᴰ.head refl, e)
  | inr e ↦ let (q, m, found) = any_at_sound before ps t (ground arith) in (q, Memᴰ.tail m, found)
]

any_at_complete :
    (before : Bool) (p : Text) (ps : List Text) (t : Text)
    → Memᴰ p ps
    → matches_at before p t ≡ true
    → any_at before ps t ≡ true
unfolding any_at
any_at_complete before p _ t (Memᴰ.head e) h = ground arith
any_at_complete before p (q ∷ ps) t (Memᴰ.tail m) h =
    ground (arith, any_at_complete before p ps t m h)

here : (before : Bool) (ps : List Text) (t : Text) → any_at before ps t ≡ true → Occurs before ps t
unfolding matches_at
here before ps t h =
    let (p, m, found) = any_at_sound before ps t h in
    let split = starts_with-split p t (ground arith) in
    record {
      front = [];
      phrase = p;
      back = drop (length p) t;
      listed = m;
      place = split;
      opens = subst (λ u. is_boundary before (begins_word u) ≡ true) split (ground arith);
      closes = ground arith;
    }

there :
    (before : Bool) (ps : List Text) (c : ℕ) (t : Text)
    → Occurs (is_word c) ps t
    → Occurs before ps (c ∷ t)
there before ps c t o = record {
  front = c ∷ o.front;
  phrase = o.phrase;
  back = o.back;
  listed = o.listed;
  place = ap (λ u. c ∷ u) o.place;
  opens = o.opens;
  closes = o.closes;
}

search_from_sound :
    (before : Bool) (ps : List Text) (t : Text)
    → search_from before ps t ≡ true
    → Occurs before ps t
unfolding search_from
search_from_sound before ps [] h = here before ps [] h
search_from_sound before ps (c ∷ t) h = elim (Bool-cases (any_at before ps (c ∷ t))) [
  | inl e ↦ here before ps (c ∷ t) e
  | inr e ↦ there before ps c t (search_from_sound (is_word c) ps t (ground arith))
]

search_from-first :
    (before : Bool) (ps : List Text) (t : Text)
    → any_at before ps t ≡ true
    → search_from before ps t ≡ true
unfolding search_from
search_from-first before ps [] h = h
search_from-first before ps (c ∷ t) h = ground arith

search_from_complete :
    (before : Bool) (ps : List Text) (front phrase back : Text)
    → Memᴰ phrase ps
    → is_boundary (ends_word before front) (begins_word (phrase ++ back)) ≡ true
    → is_boundary (ends_word (ends_word before front) phrase) (begins_word back) ≡ true
    → search_from before ps (front ++ (phrase ++ back)) ≡ true
unfolding search_from matches_at
search_from_complete before ps [] phrase back m o c = search_from-first before ps (phrase ++ back) (
    any_at_complete before phrase ps (phrase ++ back) m
      (ground (arith, starts_with-append phrase back, drop-append phrase back)))
search_from_complete before ps (d ∷ front) phrase back m o c =
    ground (arith, search_from_complete (is_word d) ps front phrase back m o c)

-- A text that a phrase of the list occurs in as whole words, and no other, is found.
pub search_from_iff :
    (before : Bool) (ps : List Text) (t : Text)
    → (search_from before ps t ≡ true) ↔ Occurs before ps t
search_from_iff before ps t = (
  search_from_sound before ps t,
  λ o.
      subst (λ u. search_from before ps u ≡ true) (sym o.place)
        (search_from_complete before ps o.front o.phrase o.back o.listed o.opens o.closes),
)

-- What the gate refuses for: a short query in a conversation, a phrase, an opening pronoun.
abbrev pub NeedsContext : Text → List Text → Type 0
NeedsContext query history =
    ((0 < length history) × (length (words (strip query)) ≤ 3))
    ⊎ (Occurs false context_phrases (lower (strip query))
        ⊎ (opened_by openers (lower (strip query)) ≡ true))

gate-cases :
    (a b c : Bool)
    → ((if a then true else if b then true else c) ≡ true)
      ↔ ((a ≡ true) ⊎ ((b ≡ true) ⊎ (c ≡ true)))
gate-cases true b c = ((λ h. inl refl), (λ h. refl))
gate-cases false true c = ((λ h. inr (inl refl)), (λ h. refl))
gate-cases false false c = ((λ h. inr (inr h)), (λ h. ground arith))

short_iff : (m n : ℕ) → ((ltb 0 m && leb n 3) ≡ true) ↔ ((0 < m) × (n ≤ 3))
short_iff m n = ground arith

qualify_cache_hit-serve :
    (query cached_answer : Text) (history : List Text)
    → ((qualify_cache_hit query cached_answer history).serve ≡ false)
      ↔ (is_context_dependent query history ≡ true)
unfolding qualify_cache_hit
qualify_cache_hit-serve query cached_answer history =
    elim (Bool-cases (is_context_dependent query history)) [
      | inl e ↦ rw e ((λ h. refl), (λ h. refl))
      | inr e ↦ rw e ((λ h. cc), (λ h. cc))
    ]

-- The gate refuses a query exactly where there is a history and the query has three words at most, or
-- where one of the listed phrases stands in it as whole words, in any case of the letters, or where it
-- opens with a listed word, spaces and a pronoun; whatever the cached answer is.
pub qualify_cache_hit_iff :
    (query cached_answer : Text) (history : List Text)
    → ((qualify_cache_hit query cached_answer history).serve ≡ false) ↔ NeedsContext query history
unfolding is_context_dependent
qualify_cache_hit_iff query cached_answer history =
    let q = strip query in
    let served = qualify_cache_hit-serve query cached_answer history in
    let short = short_iff (length history) (length (words q)) in
    let found = search_from_iff false context_phrases (lower q) in
    let cases =
      gate-cases (ltb 0 (length history) && leb (length (words q)) 3)
        (search_from false context_phrases (lower q)) (opened_by openers (lower q)) in
    (
      (λ h. elim (cases.0 (served.0 h)) [
        | inl e ↦ inl (short.0 e)
        | inr (inl e) ↦ inr (inl (found.0 e))
        | inr (inr e) ↦ inr (inr e)
      ]),
      (λ n. served.1 (
          cases.1 (elim n [
            | inl e ↦ inl (short.1 e)
            | inr (inl e) ↦ inr (inl (found.1 e))
            | inr (inr e) ↦ inr (inr e)
          ]))),
    )
