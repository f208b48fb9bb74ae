-- ===== src/Tests/LinkTests.antt =====
-- A table of near misses, learnt from and traversed (core/bitmod/proxy/base.py).
use bit_mod_ai_inference_cac.Tests.KeyTests.{text_discrete}
use bit_mod_ai_inference_cac.Links.{evidence_of, walk_links, Links, SimilarityLink}
use bit_mod_ai_inference_cac.Links.Learning.{near_misses, learn_from_near_misses}
use bit_mod_ai_inference_cac.Links.NearMiss.{IsNearMiss, IsNearMissOf, LinksIt}
use mathlib.Core.List.{Memᴰ}
use bit_mod_ai_inference_cac.Links.Learnt.{learn_from_near_misses_lem}
use bit_mod_ai_inference_cac.Links.Kept.{IsLearnt}
use bit_mod_ai_inference_cac.Strings.{codes, Text}
use bit_mod_ai_inference_cac.Cache.{Row, Db, at}
use bit_mod_ai_inference_cac.Links.Walks.{Grown, walk_links_lem}
use bit_mod_ai_inference_cac.Prelude.{
  ◌⊎◌, ℕ_discrete, arith, ◌*◌, ◌+◌, refl, length, true, ◌≡◌, ℕ, [], ◌∷◌, none, some,
}
use bit_mod_ai_inference_cac.Evidence.{
  no_evidence, ratio, add, PipelineEvidence, Layer, CacheEvidence,
}

abbrev answer_row : Text → Row Text Text
answer_row id = record {
  id = id;
  answer_key = id;
  answer_text = codes "Paris";
  source_sections = [];
  temporal_scope = none;
  namespace_id = none;
  max_age_seconds = none;
  created_at = at 10;
  is_valid = true;
  serve_count = 0;
  last_served_at = none;
  invalidated_at = none;
  invalidation_reason = none;
}

abbrev answers_db : Db Text Text ℕ
answers_db = record {
  rows = answer_row (codes "a") ∷ answer_row (codes "bb") ∷ [];
  embeddings = [];
  sections = [];
}

-- A semantic match of 0.80.
abbrev missed : PipelineEvidence
missed =
    add (evidence_of Layer.semantic (ratio 40 100) (codes "Paris") (some (codes "a")) 80 none)
      no_evidence

abbrev numbered : ℕ → Text
numbered n = n ∷ []

numbered_unique : (i j : ℕ) → numbered i ≡ numbered j → i ≡ j
numbered_unique i j h = cc

learn_from_near_misses_lem_example :
    let after =
      learn_from_near_misses text_discrete numbered 50 (codes "bb") [] 100 0 missed (3, []) in
    ((e : CacheEvidence) (id : Text)
      → Memᴰ e missed.evidences
      → IsNearMiss 100 e id
      → IsLearnt numbered (codes "bb") (0 + 2 * length missed.evidences) after.1 (id, e.similarity))
    × ((l : SimilarityLink)
        → Memᴰ l after.1
        → Memᴰ l []
          ⊎ ((m : Text × ℕ) × IsNearMissOf 100 missed.evidences m × LinksIt (codes "bb") l m))
    × (((after.0 ≡ 3 + 1) × (m : Text × ℕ) × IsNearMissOf 100 missed.evidences m)
        ⊎ (after ≡ (3, [])))
learn_from_near_misses_lem_example =
    learn_from_near_misses_lem text_discrete numbered 50 (codes "bb") [] numbered_unique 100 0 3
      missed [] (λ h. absurd (omega arith))

two_links :
    length (learn_from_near_misses text_discrete numbered 50 (codes "bb") [] 100 0 missed (3, [])).1
    ≡ 2
unfolding learn_from_near_misses text_discrete add ℕ_discrete
two_links = refl

abbrev match_of : ℕ → CacheEvidence
match_of similarity =
    evidence_of Layer.semantic (ratio 40 100) (codes "Paris") (some (codes "a")) similarity none

-- Both bounds are near misses, and what is just outside of them is not.
at_bounds :
    near_misses 1000 (match_of 749 ∷ match_of 750 ∷ match_of 910 ∷ match_of 911 ∷ [])
    ≡ (codes "a", 750) ∷ (codes "a", 910) ∷ []
unfolding near_misses
at_bounds = refl

abbrev learnt : Links
learnt = (learn_from_near_misses text_discrete numbered 50 (codes "bb") [] 100 0 missed (3, [])).1

walk_links_lem_example :
    Grown text_discrete 100 answers_db learnt missed.evidences
      (walk_links text_discrete 100 answers_db learnt missed)
walk_links_lem_example = walk_links_lem text_discrete 100 answers_db learnt missed

-- The next walk from the match finds the new answer, and by its second hop the match itself once more.
found_two : (walk_links text_discrete 100 answers_db learnt missed).link_count ≡ 2
unfolding walk_links learn_from_near_misses text_discrete add ℕ_discrete
found_two = refl
