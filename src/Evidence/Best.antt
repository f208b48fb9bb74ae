-- ===== src/Evidence/Best.antt =====
-- core/bitmod/cache_engine.py: what `best_single_answer` picks.
use bit_mod_ai_inference_cac.Cache.Semantic.Best.{All-Memᴰ}
use mathlib.Core.Path.{subst}
use bit_mod_ai_inference_cac.Evidence.Total.{InRange}
use mathlib.Core.List.{Memᴰ}
use native.Mathlib.Nat.{mul-le-mul_right, le_of_mul-le-mul_right}
use bit_mod_ai_inference_cac.Prelude.{
  Option-cases, ◌∙◌, if◌then◌else◌, ap, sym, none, true, All, refl, zero, arith, suc, ◌↔◌, ◌≤◌, ◌+◌,
  ◌<◌, ◌*◌, ℕ, inr, Bool-cases, inl, false, ◌⊎◌, some, ◌≡◌, List, Option, [], ◌∷◌,
}
use bit_mod_ai_inference_cac.Evidence.{
  PipelineEvidence, best_single_answer, minus, magnitude, plus, lt_confidence, Confidence,
  CacheEvidence, best_from, better,
}

-- A confidence as a difference over its denominator.
abbrev gain : Confidence → ℕ
gain (plus a) = a.num
gain (minus a) = 0

abbrev loss : Confidence → ℕ
loss (plus a) = 0
loss (minus a) = a.num

abbrev den_of : Confidence → ℕ
den_of c = (magnitude c).den

-- `a <= b`
abbrev pub LeConfidence : Confidence → Confidence → Type 0
LeConfidence a b = gain a * den_of b + loss b * den_of a ≤ gain b * den_of a + loss a * den_of b

nil_of_mul : (a d : ℕ) → 0 < d → a * d ≤ 0 → a ≡ 0
nil_of_mul zero d h k = refl
nil_of_mul (suc a) d h k = absurd (grind arith)

lt_confidence_iff :
    (a b : Confidence)
    → 0 < den_of a
    → 0 < den_of b
    → (lt_confidence a b ≡ false) ↔ LeConfidence b a
unfolding lt_confidence
lt_confidence_iff (plus a) (plus b) h k = ground arith
lt_confidence_iff (plus a) (minus b) h k = ground arith
lt_confidence_iff (minus a) (plus b) h k =
    ground (arith, nil_of_mul b.num a.den, nil_of_mul a.num b.den)
lt_confidence_iff (minus a) (minus b) h k = ground arith

lt_confidence-le : (a b : Confidence) → lt_confidence a b ≡ true → LeConfidence a b
unfolding lt_confidence
lt_confidence-le (plus a) (plus b) h = ground arith
lt_confidence-le (plus a) (minus b) h = absurd (ground arith)
lt_confidence-le (minus a) (plus b) h = omega arith
lt_confidence-le (minus a) (minus b) h = ground arith

fractions_trans :
    (p n d q m e r o f : ℕ)
    → 0 < e
    → p * e + m * d ≤ q * d + n * e
    → q * f + o * e ≤ r * e + m * f
    → p * f + o * d ≤ r * d + n * f
fractions_trans p n d q m e r o f h k l =
    let left = mul-le-mul_right f k in
    let right = mul-le-mul_right d l in
    let le : (p * f + o * d) * e ≤ (r * d + n * f) * e = grind arith in le_of_mul-le-mul_right le h

LeConfidence-trans :
    (a b c : Confidence) → 0 < den_of b → LeConfidence a b → LeConfidence b c → LeConfidence a c
LeConfidence-trans a b c h k l =
    fractions_trans (gain a) (loss a) (den_of a) (gain b) (loss b) (den_of b) (gain c) (loss c)
      (den_of c) h k l

-- Of `b` with the evidence: one that is not partial, of a confidence that no other of these exceeds.
abbrev pub IsChosen : CacheEvidence → List CacheEvidence → Type 0
IsChosen b es =
    (b.is_partial ≡ false)
    × All (λ e. e.is_partial ≡ false → LeConfidence e.confidence b.confidence) es

-- The start of the loop, where there is one, is not partial and in range.
abbrev StartsWell : Option CacheEvidence → Type 0
StartsWell none = Unit
StartsWell (some s) = (s.is_partial ≡ false) × InRange s

abbrev AtLeast : Option CacheEvidence → CacheEvidence → Type 0
AtLeast none b = Unit
AtLeast (some s) b = LeConfidence s.confidence b.confidence

-- What the loop comes to.
abbrev Picks : Option CacheEvidence → List CacheEvidence → Option CacheEvidence → Type 0
Picks start es none = (start ≡ none) × All (λ e. e.is_partial ≡ true) es
Picks start es (some b) = ((start ≡ some b) ⊎ Memᴰ b es) × IsChosen b es × AtLeast start b

Picks-skip :
    (start : Option CacheEvidence) (e : CacheEvidence) (es : List CacheEvidence)
    (o : Option CacheEvidence)
    → e.is_partial ≡ true
    → Picks start es o
    → Picks start (e ∷ es) o
Picks-skip start e es none p h = (h.0, (p, h.1))
Picks-skip start e es (some b) p (origin, (whole, best), least) = (
  elim origin [ inl s ↦ inl s | inr m ↦ inr (Memᴰ.tail m) ],
  (whole, ((λ q. absurd (ground arith)), best)),
  least,
)

Picks-take :
    (start : Option CacheEvidence) (e : CacheEvidence) (es : List CacheEvidence)
    (o : Option CacheEvidence)
    → e.is_partial ≡ false
    → InRange e
    → AtLeast start e
    → Picks (some e) es o
    → Picks start (e ∷ es) o
Picks-take start e es none p r l h = absurd (ground arith)
Picks-take none e es (some b) p r l (origin, (whole, best), least) = (
  elim origin [ inl s ↦ inr (Memᴰ.head (sym (ground arith))) | inr m ↦ inr (Memᴰ.tail m) ],
  (whole, ((λ q. least), best)),
  tt,
)
Picks-take (some s) e es (some b) p r l (origin, (whole, best), least) = (
  elim origin [ inl s ↦ inr (Memᴰ.head (sym (ground arith))) | inr m ↦ inr (Memᴰ.tail m) ],
  (whole, ((λ q. least), best)),
  LeConfidence-trans s.confidence e.confidence b.confidence r.0 l least,
)

Picks-keep :
    (s e : CacheEvidence) (es : List CacheEvidence) (o : Option CacheEvidence)
    → InRange s
    → LeConfidence e.confidence s.confidence
    → Picks (some s) es o
    → Picks (some s) (e ∷ es) o
Picks-keep s e es none r l h = absurd (ground arith)
Picks-keep s e es (some b) r l (origin, (whole, best), least) = (
  elim origin [ inl s ↦ inl s | inr m ↦ inr (Memᴰ.tail m) ],
  (whole, ((λ q. LeConfidence-trans e.confidence s.confidence b.confidence r.0 l least), best)),
  least,
)

best_from-Picks :
    (start : Option CacheEvidence) (es : List CacheEvidence)
    → StartsWell start
    → All InRange es
    → Picks start es (best_from start es)
unfolding best_from
best_from-Picks none [] w a = (refl, tt)
best_from-Picks (some s) [] w a = (inl refl, (w.0, tt), omega arith)
best_from-Picks none (e ∷ es) w a = elim (Bool-cases e.is_partial) [
  | inl p ↦
      subst (λ o. Picks none (e ∷ es) (best_from o es))
        (sym (ap (λ b. if b then none else some e) p))
        (Picks-skip none e es (best_from none es) p (best_from-Picks none es w a.1))
  | inr p ↦
      subst (λ o. Picks none (e ∷ es) (best_from o es))
        (sym (ap (λ b. if b then none else some e) p))
        (Picks-take none e es (best_from (some e) es) p a.0 tt
          (best_from-Picks (some e) es (p, a.0) a.1))
]
best_from-Picks (some s) (e ∷ es) w a =
    let ordered = lt_confidence_iff s.confidence e.confidence w.1.0 a.0.0 in
    elim (Bool-cases e.is_partial) [
      | inl p ↦
          subst (λ o. Picks (some s) (e ∷ es) (best_from o es))
            (sym (ap (λ b. if b then some s else better (some s) e) p))
            (Picks-skip (some s) e es (best_from (some s) es) p (best_from-Picks (some s) es w a.1))
      | inr p ↦ elim (Bool-cases (lt_confidence s.confidence e.confidence)) [
        | inl lt ↦
            subst (λ o. Picks (some s) (e ∷ es) (best_from o es))
              (sym (
                ap (λ b. if b then some s else better (some s) e) p
                ∙ ap (λ b. if b then some e else some s) lt))
              (Picks-take (some s) e es (best_from (some e) es) p a.0
                (lt_confidence-le s.confidence e.confidence lt)
                (best_from-Picks (some e) es (p, a.0) a.1))
        | inr ge ↦
            subst (λ o. Picks (some s) (e ∷ es) (best_from o es))
              (sym (
                ap (λ b. if b then some s else better (some s) e) p
                ∙ ap (λ b. if b then some e else some s) ge))
              (Picks-keep s e es (best_from (some s) es) w.1 (ordered.0 ge)
                (best_from-Picks (some s) es w a.1))
      ]
    ]

-- Of evidence with confidences in range, what is picked is one of it that is not partial and whose confidence no
-- other such piece exceeds; nothing is picked exactly where all of it is partial.
pub best_single_answer_lem :
    (p : PipelineEvidence)
    → All InRange p.evidences
    → ((b : CacheEvidence)
        → best_single_answer p ≡ some b
        → Memᴰ b p.evidences × IsChosen b p.evidences)
      × ((best_single_answer p ≡ none) ↔ All (λ e. e.is_partial ≡ true) p.evidences)
unfolding best_single_answer
best_single_answer_lem p a =
    let es = p.evidences in
    let picked = best_from-Picks none es tt a in
    (
      (λ b e.
          let (origin, chosen, least) = subst (λ o. Picks none es o) e picked in
          (elim origin [ inl s ↦ absurd (ground arith) | inr m ↦ m ], chosen)),
      (
        (λ e. (subst (λ o. Picks none es o) e picked).1),
        (λ h. elim (Option-cases (best_from none es)) [
          | inl e ↦ e
          | inr (b, e) ↦
              let (origin, chosen, least) = subst (λ o. Picks none es o) e picked in
              elim origin [
                | inl s ↦ absurd (ground arith)
                | inr m ↦ absurd (
                    let whole = All-Memᴰ (λ e. e.is_partial ≡ true) b es m h in
                    ground (arith, chosen.0))
              ]
        ]),
      ),
    )
