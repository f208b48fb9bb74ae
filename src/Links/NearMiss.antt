-- ===== src/Links/NearMiss.antt =====
-- core/bitmod/proxy/base.py: which evidence `_learn_from_near_misses` learns from, and which links it
-- makes of it.
use mathlib.Core.Path.{subst}
use bit_mod_ai_inference_cac.Prelude.{
  none, leb→le, ◌∙◌, ◌&&◌, Bool-cases, ap, Option-cases, leb, ◌+◌, arith, Bool, sym, le→leb, refl,
  ◌≤◌, inl, [], inr, ◌*◌, equal, ◌⊎◌, length, Option, ◌∷◌, ◌++◌, true, some, List, ◌≡◌, ℕ,
}
use bit_mod_ai_inference_cac.Cache.Backend.{delete_where}
use bit_mod_ai_inference_cac.Evidence.{is_semantic, CacheEvidence, Layer}
use bit_mod_ai_inference_cac.Links.{Links, store_similarity_link, SimilarityLink}
use bit_mod_ai_inference_cac.Links.Learning.{near_miss, near_misses, learn_each, new_link}
use bit_mod_ai_inference_cac.Strings.{Text}
use mathlib.Core.List.{Memᴰ}

-- A semantic match of the entry `id` whose similarity is from 0.75 to 0.91, both included.
pub record IsNearMiss (unit : ℕ) (e : CacheEvidence) (id : Text) : Type 0 where
  pub is_match : e.layer ≡ Layer.semantic
  pub named : e.record_id ≡ some id
  pub at_least : 75 * unit ≤ 100 * e.similarity
  pub at_most : 100 * e.similarity ≤ 91 * unit

is_semantic_iff : (l : Layer) → is_semantic l ≡ true → l ≡ Layer.semantic
is_semantic_iff Layer.semantic h = refl
is_semantic_iff Layer.exact h = cc
is_semantic_iff Layer.composable h = cc
is_semantic_iff Layer.fuzzy h = cc
is_semantic_iff Layer.similarity_link h = cc
is_semantic_iff Layer.atomic_facts h = cc
is_semantic_iff Layer.session h = cc
is_semantic_iff Layer.promotion_verify h = cc

Memᴰ-or {ℓ} : {A : Type ℓ} (a : A) (xs ys : List A) → Memᴰ a (xs ++ ys) → Memᴰ a xs ⊎ Memᴰ a ys
Memᴰ-or a [] ys m = inr m
Memᴰ-or a (x ∷ xs) ys (Memᴰ.head e) = inl (Memᴰ.head e)
Memᴰ-or a (x ∷ xs) ys (Memᴰ.tail m) = elim (Memᴰ-or a xs ys m) [
  | inl l ↦ inl (Memᴰ.tail l)
  | inr r ↦ inr r
]

pub Memᴰ-after {ℓ} : {A : Type ℓ} (a : A) (xs ys : List A) → Memᴰ a ys → Memᴰ a (xs ++ ys)
Memᴰ-after a [] ys m = m
Memᴰ-after a (x ∷ xs) ys m = Memᴰ.tail (Memᴰ-after a xs ys m)

pub Memᴰ-before {ℓ} : {A : Type ℓ} (a : A) (xs ys : List A) → Memᴰ a xs → Memᴰ a (xs ++ ys)
Memᴰ-before a _ ys (Memᴰ.head e) = Memᴰ.head e
Memᴰ-before a (x ∷ xs) ys (Memᴰ.tail m) = Memᴰ.tail (Memᴰ-before a xs ys m)

Memᴰ-only {ℓ} : {A : Type ℓ} (a b : A) → Memᴰ a (b ∷ []) → a ≡ b
Memᴰ-only a b (Memᴰ.head e) = e
Memᴰ-only a b (Memᴰ.tail m) = elim m [ ]

module _ (unit : ℕ) where
  -- The match of a pair that has been collected, with its evidence.
  abbrev pub IsNearMissOf : List CacheEvidence → Text × ℕ → Type 0
  IsNearMissOf es m = (e : CacheEvidence) × Memᴰ e es × IsNearMiss unit e m.0 × (e.similarity ≡ m.1)

  near_miss_complete :
      (e : CacheEvidence) (id : Text)
      → IsNearMiss unit e id
      → near_miss unit e e.record_id ≡ (id, e.similarity) ∷ []
  near_miss_complete e id h =
      let lo = le→leb (75 * unit) (100 * e.similarity) h.at_least in
      let hi = le→leb (100 * e.similarity) (91 * unit) h.at_most in
      rw (h.named, h.is_match, lo, hi) refl

  pub near_misses_complete :
      (es : List CacheEvidence) (e : CacheEvidence) (id : Text)
      → Memᴰ e es
      → IsNearMiss unit e id
      → Memᴰ (id, e.similarity) (near_misses unit es)
  unfolding near_misses
  near_misses_complete [] e id m h = elim m [ ]
  near_misses_complete (d ∷ es) e id (Memᴰ.head q) h =
      Memᴰ-before (id, e.similarity) (near_miss unit d d.record_id) (near_misses unit es)
        (subst (λ (c : CacheEvidence). Memᴰ (id, e.similarity) (near_miss unit c c.record_id)) q
          (subst (Memᴰ (id, e.similarity)) (sym (near_miss_complete e id h)) (Memᴰ.head refl)))
  near_misses_complete (d ∷ es) e id (Memᴰ.tail m) h =
      Memᴰ-after (id, e.similarity) (near_miss unit d d.record_id) (near_misses unit es)
        (near_misses_complete es e id m h)

  near_miss_sound :
      (e : CacheEvidence) (o : Option Text) (m : Text × ℕ)
      → e.record_id ≡ o
      → Memᴰ m (near_miss unit e o)
      → IsNearMiss unit e m.0 × (e.similarity ≡ m.1)
  near_miss_sound e none m q h = elim h [ ]
  near_miss_sound e (some id) m q h =
      let low : Bool = leb (75 * unit) (100 * e.similarity) in
      let high : Bool = leb (100 * e.similarity) (91 * unit) in
      elim (Bool-cases (is_semantic e.layer && (low && high))) [
        | inl t ↦
            let found : Memᴰ m ((id, e.similarity) ∷ []) = rw t at h in
            let same : m ≡ (id, e.similarity) = Memᴰ-only m (id, e.similarity) found in
            (
              record {
                is_match = is_semantic_iff e.layer (ground arith);
                named = q ∙ ap (λ (k : Text × ℕ). some k.0) (sym same);
                at_least = leb→le (75 * unit) (100 * e.similarity) (ground arith);
                at_most = leb→le (100 * e.similarity) (91 * unit) (ground arith);
              },
              sym (ap (λ (k : Text × ℕ). k.1) same),
            )
        | inr f ↦ (let found : Memᴰ m [] = rw f at h in elim found [ ])
      ]

  pub near_misses_sound :
      (es : List CacheEvidence) (m : Text × ℕ) → Memᴰ m (near_misses unit es) → IsNearMissOf es m
  unfolding near_misses
  near_misses_sound [] m h = elim h [ ]
  near_misses_sound (e ∷ es) m h =
      elim (Memᴰ-or m (near_miss unit e e.record_id) (near_misses unit es) h) [
        | inl here ↦
            let (near, same) = near_miss_sound e e.record_id m refl here in
            (e, Memᴰ.head refl, near, same)
        | inr there ↦
            let (d, q, near, same) = near_misses_sound es m there in (d, Memᴰ.tail q, near, same)
      ]

  pub length-near_misses : (es : List CacheEvidence) → length (near_misses unit es) ≤ length es
  unfolding near_misses
  length-near_misses [] = omega arith
  length-near_misses (e ∷ es) = elim (Option-cases e.record_id) [
    | inl n ↦ rw n (ground (arith, length-near_misses es))
    | inr (id, n) ↦ rw n (ground (arith, length-near_misses es))
  ]

-- A link between the answer that was stored and the entry of a near miss, in one direction.
pub record LinksIt (new_cache_id : Text) (l : SimilarityLink) (m : Text × ℕ) : Type 0 where
  pub similar : l.similarity ≡ m.1
  pub ends :
      ((l.source_cache_id ≡ new_cache_id) × (l.target_cache_id ≡ m.0))
      ⊎ ((l.source_cache_id ≡ m.0) × (l.target_cache_id ≡ new_cache_id))

module _ (dec : Discrete Text) (uuids : ℕ → Text) (now : ℕ) (new_cache_id new_norm : Text) where
  Memᴰ-kept :
      (l : SimilarityLink) (id : Text) (ls : Links)
      → Memᴰ l (delete_where (λ (k : SimilarityLink). equal dec k.id id) ls)
      → Memᴰ l ls
  Memᴰ-kept l id [] m = m
  Memᴰ-kept l id (k ∷ ls) m = elim (Bool-cases (equal dec k.id id)) [
    | inl t ↦ Memᴰ.tail (Memᴰ-kept l id ls (rw t at m))
    | inr f ↦
        let rest : Links = delete_where (λ (q : SimilarityLink). equal dec q.id id) ls in
        elim (Memᴰ-or l (k ∷ []) rest (rw f at m)) [
          | inl here ↦ Memᴰ.head (Memᴰ-only l k here)
          | inr there ↦ Memᴰ.tail (Memᴰ-kept l id ls there)
        ]
  ]

  stored_sound :
      (l link : SimilarityLink) (links : Links)
      → Memᴰ l (store_similarity_link dec now link links)
      → Memᴰ l links ⊎ (l ≡ record link { created_at = now })
  unfolding store_similarity_link
  stored_sound l link links h =
      let old = delete_where (λ (k : SimilarityLink). equal dec k.id link.id) links in
      elim (Memᴰ-or l old (record link { created_at = now } ∷ []) h) [
        | inl m ↦ inl (Memᴰ-kept l link.id links m)
        | inr m ↦ inr (Memᴰ-only l (record link { created_at = now }) m)
      ]

  -- Each link that learning leaves was there before, or is one of a near miss.
  pub learn_each_sound :
      (n : ℕ) (ms : List (Text × ℕ)) (links : Links) (l : SimilarityLink)
      → Memᴰ l (learn_each dec uuids now new_cache_id new_norm n ms links)
      → Memᴰ l links ⊎ ((m : Text × ℕ) × Memᴰ m ms × LinksIt new_cache_id l m)
  unfolding learn_each
  learn_each_sound n [] links l h = inl h
  learn_each_sound n ((t, sim) ∷ ms) links l h =
      let forward_link = new_link (uuids n) new_cache_id t sim new_norm [] in
      let reverse_link = new_link (uuids (n + 1)) t new_cache_id sim [] new_norm in
      let forward = store_similarity_link dec now forward_link links in
      elim (learn_each_sound (n + 2) ms (store_similarity_link dec now reverse_link forward) l h) [
        | inl m ↦ elim (stored_sound l reverse_link forward m) [
          | inl f ↦ elim (stored_sound l forward_link links f) [
            | inl old ↦ inl old
            | inr e ↦ inr (
              (t, sim),
              Memᴰ.head refl,
              record {
                similar = ap (λ (k : SimilarityLink). k.similarity) e;
                ends = inl (
                  ap (λ (k : SimilarityLink). k.source_cache_id) e,
                  ap (λ (k : SimilarityLink). k.target_cache_id) e,
                );
              },
            )
          ]
          | inr e ↦ inr (
            (t, sim),
            Memᴰ.head refl,
            record {
              similar = ap (λ (k : SimilarityLink). k.similarity) e;
              ends = inr (
                ap (λ (k : SimilarityLink). k.source_cache_id) e,
                ap (λ (k : SimilarityLink). k.target_cache_id) e,
              );
            },
          )
        ]
        | inr (m, q, it) ↦ inr (m, Memᴰ.tail q, it)
      ]
