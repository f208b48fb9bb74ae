-- ===== src/Evidence/Total.antt =====
-- core/bitmod/cache_engine.py: how the total confidence of `PipelineEvidence` moves.
use mathlib.Core.Path.{subst}
use native.Mathlib.Nat.{mul-sub, mul_comm, mul_assoc, mul-le-mul_right, mul_right_comm}
use bit_mod_ai_inference_cac.Prelude.{
  ◌∙◌, All-append, sym, ltb, ◌+◌, inr, inl, Bool-cases, refl, [], ◌∷◌, ◌++◌, All, List, ◌-◌, arith,
  ◌≤◌, ◌≡◌, ℕ, ◌*◌, ◌<◌,
}
use bit_mod_ai_inference_cac.Evidence.{
  ratio, no_evidence, add, recompute_confidence, PipelineEvidence, minus, plus, Confidence,
  is_positive, plus_negative, times_miss, complement, sub_ratio, magnitude, at_most_one, neg_total,
  miss_product, CacheEvidence, Ratio,
}

-- A fraction between 0 and 1.
abbrev pub IsProper : Ratio → Type 0
IsProper a = (0 < a.den) × (a.num ≤ a.den)

-- A confidence between -1.0 and 1.0.
abbrev pub InRange : CacheEvidence → Type 0
InRange e = IsProper (magnitude e.confidence)

-- `a <= b`
abbrev pub LeRatio : Ratio → Ratio → Type 0
LeRatio a b = a.num * b.den ≤ b.num * a.den

mul_pos : (a b : ℕ) → 0 < a → 0 < b → 0 < a * b
mul_pos a b h k = grind arith

mul_le : (a b c d : ℕ) → a ≤ b → c ≤ d → a * c ≤ b * d
mul_le a b c d h k = grind arith

sub_mul : (a b d : ℕ) → (a - b) * d ≡ a * d - b * d
sub_mul a b d = omega (arith, mul-sub d a b, mul_comm d (a - b), mul_comm d a, mul_comm d b)

mul_sub_le : (a b d c : ℕ) → a * d ≤ c → (a - b) * d ≤ c - b * d
mul_sub_le a b d c h = omega (arith, sub_mul a b d)

sub_mul_le : (a b d c : ℕ) → b * d ≤ c → a * d - c ≤ (a - b) * d
sub_mul_le a b d c h = omega (arith, sub_mul a b d)

miss_product-IsProper :
    (es : List CacheEvidence) (p : Ratio)
    → IsProper p
    → All InRange es
    → IsProper (miss_product p es)
unfolding miss_product
miss_product-IsProper [] p h a = h
miss_product-IsProper (e ∷ es) p h a =
    miss_product-IsProper es (times_miss p e) (times p e h a.0) a.1
  where
    times : (p : Ratio) (e : CacheEvidence) → IsProper p → InRange e → IsProper (times_miss p e)
    times p e h r = elim (Bool-cases (is_positive e.confidence)) [
      | inl q ↦ rw q (
        mul_pos p.den (magnitude e.confidence).den h.0 r.0,
        mul_le p.num p.den ((magnitude e.confidence).den - (magnitude e.confidence).num)
            (magnitude e.confidence).den h.1 (omega arith),
      )
      | inr q ↦ rw q h
    ]

neg_total-pos :
    (es : List CacheEvidence) (s : Ratio) → 0 < s.den → All InRange es → 0 < (neg_total s es).den
unfolding neg_total
neg_total-pos [] s h a = h
neg_total-pos (e ∷ es) s h a =
    neg_total-pos es (plus_negative s e)
      (ground (arith, mul_pos s.den (magnitude e.confidence).den)) a.1

miss_product-snoc :
    (es : List CacheEvidence) (p : Ratio) (e : CacheEvidence)
    → miss_product p (es ++ e ∷ []) ≡ times_miss (miss_product p es) e
unfolding miss_product
miss_product-snoc [] p e = refl
miss_product-snoc (f ∷ es) p e = miss_product-snoc es (times_miss p f) e

neg_total-snoc :
    (es : List CacheEvidence) (s : Ratio) (e : CacheEvidence)
    → neg_total s (es ++ e ∷ []) ≡ plus_negative (neg_total s es) e
unfolding neg_total
neg_total-snoc [] s e = refl
neg_total-snoc (f ∷ es) s e = neg_total-snoc es (plus_negative s f) e

-- The total, from the product and the sum.
abbrev total_of : Ratio → Ratio → Ratio
total_of miss neg = at_most_one (sub_ratio (complement miss) neg)

-- The cap at 1 is not reached.
total_of-uncapped : (miss neg : Ratio) → total_of miss neg ≡ sub_ratio (complement miss) neg
total_of-uncapped miss neg =
    let below : (miss.den - miss.num) * neg.den ≤ miss.den * neg.den =
      mul_le (miss.den - miss.num) miss.den neg.den neg.den (omega arith) (omega arith) in
    ground arith

total_of-IsProper : (miss neg : Ratio) → IsProper miss → 0 < neg.den → IsProper (total_of miss neg)
total_of-IsProper miss neg h k =
    let below : (miss.den - miss.num) * neg.den ≤ miss.den * neg.den =
      mul_le (miss.den - miss.num) miss.den neg.den neg.den (omega arith) (omega arith) in
    rw (total_of-uncapped miss neg) (mul_pos miss.den neg.den h.0 k, omega arith)

shuffle : (a x y d : ℕ) → a * ((x * d) * y) ≡ (a * d) * (x * y)
shuffle a x y d = grind arith

-- One more factor `1 - n / d` of the product: the difference in front of the sum of the negatives.
factor_grows : (p q n d : ℕ) → p ≤ q → n ≤ d → (q - p) * d ≤ q * d - p * (d - n)
factor_grows p q n d h k =
    omega (arith, sub_mul q p d, mul_le p p (d - n) d (omega arith) (omega arith))

module _ (p q t u n d : ℕ) where
  plus_num : p ≤ q → n ≤ d → ((q - p) * u - t * q) * d ≤ (q * d - p * (d - n)) * u - t * (q * d)
  plus_num h k =
      let grows : ((q - p) * u) * d ≤ (q * d - p * (d - n)) * u =
        subst (λ x. x ≤ (q * d - p * (d - n)) * u) (mul_right_comm (q - p) d u)
          (mul-le-mul_right u (factor_grows p q n d h k)) in
      subst (λ x. ((q - p) * u - t * q) * d ≤ (q * d - p * (d - n)) * u - x) (mul_assoc t q d)
        (mul_sub_le ((q - p) * u) (t * q) d ((q * d - p * (d - n)) * u) grows)

  minus_num : (q - p) * (u * d) - (t * d + n * u) * q ≤ ((q - p) * u - t * q) * d
  minus_num =
      let more : (t * q) * d ≤ (t * d + n * u) * q =
        subst (λ x. x ≤ (t * d + n * u) * q) (mul_right_comm t d q)
          (mul-le-mul_right q (omega arith)) in
      subst (λ x. x - (t * d + n * u) * q ≤ ((q - p) * u - t * q) * d) (mul_assoc (q - p) u d)
        (sub_mul_le ((q - p) * u) (t * q) d ((t * d + n * u) * q) more)

scaled_up : (a b x y d : ℕ) → a * d ≤ b → a * ((x * d) * y) ≤ b * (x * y)
scaled_up a b x y d h =
    subst (λ z. z ≤ b * (x * y)) (sym (shuffle a x y d)) (mul-le-mul_right (x * y) h)

scaled_down : (a b x y d : ℕ) → b ≤ a * d → b * (x * y) ≤ a * (x * (y * d))
scaled_down a b x y d h =
    let same : (a * d) * (x * y) ≡ a * (x * (y * d)) = grind arith in
    subst (λ z. b * (x * y) ≤ z) same (mul-le-mul_right (x * y) h)

-- The direction in which one piece of evidence may move the total.
abbrev pub Moves : Confidence → Ratio → Ratio → Type 0
Moves (plus c) before after = LeRatio before after
Moves (minus c) before after = LeRatio after before

-- The raw totals, without the cap.
abbrev raw : Ratio → Ratio → Ratio
raw miss neg = sub_ratio (complement miss) neg

moves :
    (miss neg : Ratio) (e : CacheEvidence) (c : Confidence)
    → e.confidence ≡ c
    → IsProper miss
    → IsProper (magnitude c)
    → Moves c (raw miss neg) (raw (times_miss miss e) (plus_negative neg e))
moves miss neg e (plus c) q h r = elim (Bool-cases (ltb 0 c.num)) [
  | inl pos ↦
      rw (q, pos)
        (scaled_up _ _ miss.den neg.den c.den
          (plus_num miss.num miss.den neg.num neg.den c.num c.den h.1 r.1))
  | inr nil ↦ rw (q, nil) (omega arith)
]
moves miss neg e (minus c) q h r = elim (Bool-cases (ltb 0 c.num)) [
  | inl pos ↦
      rw (q, pos)
        (scaled_down _ _ miss.den neg.den c.den
          (minus_num miss.num miss.den neg.num neg.den c.num c.den))
  | inr nil ↦ rw (q, nil) (omega arith)
]

-- The total is that of the evidence, whose confidences are in range.
pub record IsSound (p : PipelineEvidence) : Type 0 where
  pub in_range : All InRange p.evidences
  pub total : p.total_confidence ≡ recompute_confidence p.evidences

pub no_evidence-IsSound : IsSound no_evidence
unfolding recompute_confidence miss_product neg_total
no_evidence-IsSound = record { in_range = tt; total = refl }

recompute-IsProper : (es : List CacheEvidence) → All InRange es → IsProper (recompute_confidence es)
unfolding recompute_confidence
recompute-IsProper es a =
    total_of-IsProper (miss_product (ratio 1 1) es) (neg_total (ratio 0 1) es)
      (miss_product-IsProper es (ratio 1 1) (omega arith, omega arith) a)
      (neg_total-pos es (ratio 0 1) (omega arith) a)

recompute-raw :
    (es : List CacheEvidence)
    → recompute_confidence es ≡ raw (miss_product (ratio 1 1) es) (neg_total (ratio 0 1) es)
unfolding recompute_confidence
recompute-raw es = total_of-uncapped _ _

recompute-snoc :
    (es : List CacheEvidence) (e : CacheEvidence)
    → recompute_confidence (es ++ e ∷ [])
      ≡ raw
          (times_miss (miss_product (ratio 1 1) es) e)
          (plus_negative (neg_total (ratio 0 1) es) e)
unfolding recompute_confidence
recompute-snoc es e =
    rw (miss_product-snoc es (ratio 1 1) e, neg_total-snoc es (ratio 0 1) e) (total_of-uncapped _ _)

-- Adding a piece of evidence with a confidence between -1.0 and 1.0 keeps the total that of the whole
-- list and between 0 and 1; the total does not fall by a confidence of 0 or more and does not rise by
-- counter-evidence.
pub add_lem :
    (e : CacheEvidence) (p : PipelineEvidence)
    → IsSound p
    → InRange e
    → IsSound (add e p)
      × IsProper (add e p).total_confidence
      × Moves e.confidence p.total_confidence (add e p).total_confidence
unfolding add
add_lem e p s r =
    let es = p.evidences in
    let a = All-append InRange es (e ∷ []) s.in_range (r, tt) in
    let now : p.total_confidence ≡ raw (miss_product (ratio 1 1) es) (neg_total (ratio 0 1) es) =
      s.total ∙ recompute-raw es in
    (
      record { in_range = a; total = refl },
      recompute-IsProper (es ++ e ∷ []) a,
      rw (now, recompute-snoc es e)
          (moves (miss_product (ratio 1 1) es) (neg_total (ratio 0 1) es) e e.confidence refl
            (miss_product-IsProper es (ratio 1 1) (omega arith, omega arith) s.in_range) r),
    )
