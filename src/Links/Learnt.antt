-- ===== src/Links/Learnt.antt =====
-- core/bitmod/proxy/base.py: which links `_learn_from_near_misses` leaves.
use bit_mod_ai_inference_cac.Links.Kept.{IsLearnt, IsLearnt-later, learn_each-IsLearnt}
use bit_mod_ai_inference_cac.Cache.Semantic.Best.{All-Memᴰ}
use bit_mod_ai_inference_cac.Links.NearMiss.{
  IsNearMiss, IsNearMissOf, LinksIt, near_misses_complete, near_misses_sound, length-near_misses,
  learn_each_sound,
}
use bit_mod_ai_inference_cac.Links.Learning.{
  near_misses, learn_from_near_misses, learn_all, learn_each,
}
use bit_mod_ai_inference_cac.Strings.{Text}
use mathlib.Core.Path.{subst}
use bit_mod_ai_inference_cac.Prelude.{
  ◌⊎◌, inr, ==_iff, inl, All, ◌*◌, ◌%◌, refl, arith, sym, length, [], ◌+◌, ◌≢◌, ◌∷◌, ◌≡◌, List, ℕ,
}
use mathlib.Core.List.{Memᴰ}
use bit_mod_ai_inference_cac.Links.{Links, SimilarityLink}
use bit_mod_ai_inference_cac.Evidence.{CacheEvidence, PipelineEvidence}

module _ (dec : Discrete Text) (uuids : ℕ → Text) (now : ℕ) (new_cache_id new_norm : Text) where
  -- Each link is one from before or one of a near miss.
  learnt-IsNearMiss :
      (unit n : ℕ) (es : List CacheEvidence) (links : Links) (l : SimilarityLink)
      → Memᴰ l (learn_each dec uuids now new_cache_id new_norm n (near_misses unit es) links)
      → Memᴰ l links ⊎ ((m : Text × ℕ) × IsNearMissOf unit es m × LinksIt new_cache_id l m)
  learnt-IsNearMiss unit n es links l h =
      elim (learn_each_sound dec uuids now new_cache_id new_norm n (near_misses unit es) links l
        h) [ inl old ↦ inl old | inr (m, q, it) ↦ inr (m, near_misses_sound unit es m q, it) ]

  -- Without an eviction due, the links are those of the near misses.
  learn_all-links :
      (n write_counter : ℕ) (ms : List (Text × ℕ)) (links : Links)
      → (write_counter + 1) % 100 ≢ 0
      → (learn_all dec uuids now new_cache_id new_norm n ms (write_counter, links)).1
        ≡ learn_each dec uuids now new_cache_id new_norm n ms links
  unfolding learn_all learn_each
  learn_all-links n write_counter [] links h = refl
  learn_all-links n write_counter (m ∷ ms) links h =
      ground (arith, ==_iff ((write_counter + 1) % 100) 0)

  learn_all-count :
      (n write_counter : ℕ) (ms : List (Text × ℕ)) (links : Links) (P : Text × ℕ → Type 0)
      → ((m : Text × ℕ) → Memᴰ m ms → P m)
      → (((learn_all dec uuids now new_cache_id new_norm n ms (write_counter, links)).0
            ≡ write_counter + 1)
          × (m : Text × ℕ) × P m)
        ⊎ (learn_all dec uuids now new_cache_id new_norm n ms (write_counter, links)
            ≡ (write_counter, links))
  unfolding learn_all
  learn_all-count n write_counter [] links P h = inr refl
  learn_all-count n write_counter (m ∷ ms) links P h = inl (ground arith, m, h m (Memᴰ.head refl))

  module _ (unique : (i j : ℕ) → uuids i ≡ uuids j → i ≡ j) where
    -- With different ids for different links, after a call that does not come to evict: every semantic match of the
    -- evidence whose similarity is from 0.75 to 0.91, both included, is linked with the new answer in both directions by its
    -- similarity; each link was there before or links the new answer with such a match by its similarity; and the count
    -- of the writes is one more and there is such a match, or the links and the count stay as they were.
    pub learn_from_near_misses_lem :
        (unit n write_counter : ℕ) (p : PipelineEvidence) (links : Links)
        → (write_counter + 1) % 100 ≢ 0
        → let after =
            learn_from_near_misses dec uuids now new_cache_id new_norm unit n p
              (write_counter, links) in
          ((e : CacheEvidence) (id : Text)
            → Memᴰ e p.evidences
            → IsNearMiss unit e id
            → IsLearnt uuids new_cache_id (n + 2 * length p.evidences) after.1 (id, e.similarity))
          × ((l : SimilarityLink)
              → Memᴰ l after.1
              → Memᴰ l links
                ⊎ ((m : Text × ℕ) × IsNearMissOf unit p.evidences m × LinksIt new_cache_id l m))
          × (((after.0 ≡ write_counter + 1) × (m : Text × ℕ) × IsNearMissOf unit p.evidences m)
              ⊎ (after ≡ (write_counter, links)))
    unfolding learn_from_near_misses
    learn_from_near_misses_lem unit n write_counter p links h =
        let ms = near_misses unit p.evidences in
        let same = learn_all-links n write_counter ms links h in
        (
          λ e id m near.
              IsLearnt-later uuids new_cache_id (n + 2 * length ms) (n + 2 * length p.evidences)
                (id, e.similarity)
                (learn_all dec uuids now new_cache_id new_norm n ms (write_counter, links)).1
                (let few = length-near_misses unit p.evidences in omega arith)
                (All-Memᴰ
                  (IsLearnt uuids new_cache_id (n + 2 * length ms)
                    (learn_all dec uuids now new_cache_id new_norm n ms (write_counter, links)).1)
                  (id, e.similarity) ms (near_misses_complete unit p.evidences e id m near)
                  (subst (λ s. All (IsLearnt uuids new_cache_id (n + 2 * length ms) s) ms)
                    (sym same)
                    (learn_each-IsLearnt dec uuids now new_cache_id new_norm unique n ms links))),
          λ l m. learnt-IsNearMiss unit n p.evidences links l (subst (Memᴰ l) same m),
          learn_all-count n write_counter ms links (IsNearMissOf unit p.evidences)
              (near_misses_sound unit p.evidences),
        )
