-- ===== src/Evidence.antt =====
-- core/bitmod/cache_engine.py: `CacheEvidence`, `PipelineEvidence` and `_similarity_to_confidence`. A
-- confidence between 0.0 and 1.0 is a fraction, computed without rounding, and counter-evidence is one
-- with a sign. A similarity is a number of parts of which `unit` make 1.0.
pub mod Total
pub mod Best
pub mod Curve
use bit_mod_ai_inference_cac.Cache.Evict.{sort_by}
use bit_mod_ai_inference_cac.Prelude.{
  true, not, ◌||◌, none, some, ◌∷◌, false, leb, ltb, ◌+◌, ◌++◌, [], ◌-◌, List, Option,
  if◌then◌else◌, Bool, ◌*◌, ℕ,
}
use bit_mod_ai_inference_cac.Strings.{is_blank, join_with, codes, Text}

pub record Ratio : Type 0 where
  pub num : ℕ
  pub den : ℕ

abbrev pub ratio : ℕ → ℕ → Ratio
ratio num den = record { num = num; den = den }

abbrev pub mul_ratio : Ratio → Ratio → Ratio
mul_ratio a b = ratio (a.num * b.num) (a.den * b.den)

abbrev pub add_ratio : Ratio → Ratio → Ratio
add_ratio a b = ratio (a.num * b.den + b.num * a.den) (a.den * b.den)

-- `max(0.0, a - b)`
abbrev pub sub_ratio : Ratio → Ratio → Ratio
sub_ratio a b = ratio (a.num * b.den - b.num * a.den) (a.den * b.den)

abbrev pub lt_ratio : Ratio → Ratio → Bool
lt_ratio a b = ltb (a.num * b.den) (b.num * a.den)

-- `min(1.0, a)`
abbrev pub at_most_one : Ratio → Ratio
at_most_one a = if ltb a.den a.num then ratio 1 1 else a

-- `a >= percent / 100`
unfoldable pub reaches : ℕ → Ratio → Bool
reaches percent a = leb (percent * a.den) (100 * a.num)

pub data Confidence : Type 0 where
  plus minus : Ratio → Confidence

-- `a < b`
unfoldable pub lt_confidence : Confidence → Confidence → Bool
lt_confidence (plus a) (plus b) = lt_ratio a b
lt_confidence (plus a) (minus b) = false
lt_confidence (minus a) (plus b) = ltb 0 a.num || ltb 0 b.num
lt_confidence (minus a) (minus b) = lt_ratio b a

abbrev pub is_positive : Confidence → Bool
is_positive (plus a) = ltb 0 a.num
is_positive (minus a) = false

abbrev pub is_negative : Confidence → Bool
is_negative (plus a) = false
is_negative (minus a) = ltb 0 a.num

-- `abs(e.confidence)`
abbrev pub magnitude : Confidence → Ratio
magnitude (plus a) = a
magnitude (minus a) = a

pub data Layer : Type 0 where
  exact semantic composable fuzzy similarity_link atomic_facts session promotion_verify : Layer

abbrev pub is_semantic : Layer → Bool
is_semantic semantic = true
is_semantic exact = false
is_semantic composable = false
is_semantic fuzzy = false
is_semantic similarity_link = false
is_semantic atomic_facts = false
is_semantic session = false
is_semantic promotion_verify = false

abbrev pub is_link : Layer → Bool
is_link similarity_link = true
is_link exact = false
is_link semantic = false
is_link composable = false
is_link fuzzy = false
is_link atomic_facts = false
is_link session = false
is_link promotion_verify = false

-- Of the metadata, the id of the link.
pub record CacheEvidence : Type 0 where
  pub layer : Layer
  pub confidence : Confidence
  pub answer_text : Text
  pub record_id : Option Text
  pub similarity : ℕ
  pub is_partial : Bool
  pub sub_query : Text
  pub link_id : Option Text

pub record PipelineEvidence : Type 0 where
  pub evidences : List CacheEvidence
  pub total_confidence : Ratio

-- `1.0 - c`
abbrev pub complement : Ratio → Ratio
complement c = ratio (c.den - c.num) c.den

abbrev pub times_miss : Ratio → CacheEvidence → Ratio
times_miss product e =
    if is_positive e.confidence
    then mul_ratio product (complement (magnitude e.confidence))
    else product

abbrev pub plus_negative : Ratio → CacheEvidence → Ratio
plus_negative sum e =
    if is_negative e.confidence then add_ratio sum (magnitude e.confidence) else sum

-- The loop over the positive evidence.
unfoldable pub miss_product : Ratio → List CacheEvidence → Ratio
miss_product product [] = product
miss_product product (e ∷ es) = miss_product (times_miss product e) es

-- The sum over the negative evidence.
unfoldable pub neg_total : Ratio → List CacheEvidence → Ratio
neg_total sum [] = sum
neg_total sum (e ∷ es) = neg_total (plus_negative sum e) es

unfoldable pub recompute_confidence : List CacheEvidence → Ratio
unfolding miss_product neg_total
recompute_confidence es =
    at_most_one (sub_ratio (complement (miss_product (ratio 1 1) es)) (neg_total (ratio 0 1) es))

abbrev pub no_evidence : PipelineEvidence
no_evidence = record { evidences = []; total_confidence = ratio 0 1 }

unfoldable pub add : CacheEvidence → PipelineEvidence → PipelineEvidence
unfolding recompute_confidence
add e p =
    let es = p.evidences ++ e ∷ [] in
    record { evidences = es; total_confidence = recompute_confidence es }

-- The later of two maxima does not take the place of the first.
abbrev pub better : Option CacheEvidence → CacheEvidence → Option CacheEvidence
better none e = some e
better (some best) e = if lt_confidence best.confidence e.confidence then some e else some best

unfoldable pub best_from : Option CacheEvidence → List CacheEvidence → Option CacheEvidence
unfolding lt_confidence
best_from best [] = best
best_from best (e ∷ es) = best_from (if e.is_partial then best else better best e) es

unfoldable pub best_single_answer : PipelineEvidence → Option CacheEvidence
unfolding best_from
best_single_answer p = best_from none p.evidences

abbrev pub layer_name : Layer → Text
layer_name exact = codes "exact"
layer_name semantic = codes "semantic"
layer_name composable = codes "composable"
layer_name fuzzy = codes "fuzzy"
layer_name similarity_link = codes "similarity_link"
layer_name atomic_facts = codes "atomic_facts"
layer_name session = codes "session"
layer_name promotion_verify = codes "promotion_verify"

abbrev pub re_label : Text → Text
re_label sub_query = if is_blank sub_query then [] else codes " (re: " ++ (sub_query ++ codes ")")

-- `two_places` is the format `.2f` of a confidence.
abbrev pub part_of : (Confidence → Text) → CacheEvidence → Text
part_of two_places e =
    (codes "[" ++ (layer_name e.layer ++ (codes ":" ++ (two_places e.confidence ++ codes "]"))))
    ++ (re_label e.sub_query ++ (10 ∷ e.answer_text))

unfoldable pub parts_of : (Confidence → Text) → List CacheEvidence → List Text
parts_of two_places [] = []
parts_of two_places (e ∷ es) =
    let rest = parts_of two_places es in
    if is_blank e.answer_text then rest else part_of two_places e ∷ rest

unfoldable pub context_for_llm : (Confidence → Text) → PipelineEvidence → Text
unfolding parts_of lt_confidence join_with sort_by
context_for_llm two_places p = join_with (10 ∷ 10 ∷ codes "---" ++ (10 ∷ 10 ∷ [])) (
    parts_of two_places
      (sort_by (λ a b. not (lt_confidence a.confidence b.confidence)) p.evidences))

-- The curve of `layer="semantic"`: `sim` parts of `unit`.
unfoldable pub semantic_confidence : ℕ → ℕ → Ratio
semantic_confidence unit sim = at_most_one (
    if leb (98 * unit) (100 * sim)
    then ratio 99 100
    else if leb (92 * unit) (100 * sim)
    then ratio (850 * unit + (100 * sim - 92 * unit) * 15) (1000 * unit)
    else if leb (85 * unit) (100 * sim)
    then ratio (550 * unit + (100 * sim - 85 * unit) * 43) (1000 * unit)
    else if leb (75 * unit) (100 * sim)
    then ratio (250 * unit + (100 * sim - 75 * unit) * 30) (1000 * unit)
    else ratio 0 1)

-- The curve of `layer="fuzzy"`.
unfoldable pub fuzzy_confidence : ℕ → ℕ → Ratio
fuzzy_confidence unit sim = at_most_one (
    if leb (95 * unit) (100 * sim)
    then ratio 80 100
    else if leb (90 * unit) (100 * sim)
    then ratio (500 * unit + (100 * sim - 90 * unit) * 40) (1000 * unit)
    else if leb (85 * unit) (100 * sim)
    then ratio (300 * unit + (100 * sim - 85 * unit) * 40) (1000 * unit)
    else ratio 15 100)

-- `_similarity_to_confidence`
unfoldable pub similarity_to_confidence : Layer → ℕ → ℕ → Ratio
unfolding semantic_confidence fuzzy_confidence
similarity_to_confidence semantic unit sim = semantic_confidence unit sim
similarity_to_confidence fuzzy unit sim = fuzzy_confidence unit sim
similarity_to_confidence exact unit sim = at_most_one (ratio sim unit)
similarity_to_confidence composable unit sim = at_most_one (ratio sim unit)
similarity_to_confidence similarity_link unit sim = at_most_one (ratio sim unit)
similarity_to_confidence atomic_facts unit sim = at_most_one (ratio sim unit)
similarity_to_confidence session unit sim = at_most_one (ratio sim unit)
similarity_to_confidence promotion_verify unit sim = at_most_one (ratio sim unit)
