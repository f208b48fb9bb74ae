-- ===== src/Links/Learning.antt =====
-- core/bitmod/proxy/base.py: `_learn_from_near_misses` and `_reinforce_links`. `uuids` are the ids that
-- `uuid4()` gives to the links that are made, in their order, from the number `n` on.
use bit_mod_ai_inference_cac.Prelude.{some}
use bit_mod_ai_inference_cac.Strings.{Text}
use bit_mod_ai_inference_cac.Prelude.{
  none, ◌*◌, leb, ◌&&◌, ◌%◌, ◌==◌, length, [], ◌+◌, ◌++◌, if◌then◌else◌, ◌∷◌, Option, List, ℕ,
}
use bit_mod_ai_inference_cac.Links.{
  ids_of, Links, evict_similarity_links, store_similarity_link, increment_similarity_link_strength,
  SimilarityLink,
}
use bit_mod_ai_inference_cac.Evidence.{is_semantic, is_link, PipelineEvidence, CacheEvidence}

-- The ids and similarities of the semantic matches from 0.75 to 0.91; the id of a record is not empty.
abbrev pub near_miss : ℕ → CacheEvidence → Option Text → List (Text × ℕ)
near_miss unit e none = []
near_miss unit e (some id) =
    if is_semantic e.layer
      && (leb (75 * unit) (100 * e.similarity) && leb (100 * e.similarity) (91 * unit))
    then (id, e.similarity) ∷ []
    else []

unfoldable pub near_misses : ℕ → List CacheEvidence → List (Text × ℕ)
near_misses unit [] = []
near_misses unit (e ∷ es) = near_miss unit e e.record_id ++ near_misses unit es

abbrev pub new_link : Text → Text → Text → ℕ → Text → Text → SimilarityLink
new_link id source target similarity source_norm target_norm = record {
  id = id;
  source_cache_id = source;
  target_cache_id = target;
  similarity = similarity;
  source_query_norm = source_norm;
  target_query_norm = target_norm;
  strength = 0;
  created_at = 0;
}

-- `link_ids` of `_reinforce_links`
unfoldable pub contributing : List CacheEvidence → List Text
contributing [] = []
contributing (e ∷ es) = (if is_link e.layer then ids_of e.link_id else []) ++ contributing es

module _ (dec : Discrete Text) where
  unfoldable pub increment_all : List Text → Links → Links
  unfolding increment_similarity_link_strength
  increment_all [] links = links
  increment_all (id ∷ ids) links =
      increment_all ids (increment_similarity_link_strength dec id links)

  unfoldable pub reinforce_links : PipelineEvidence → Links → Links
  unfolding increment_all contributing
  reinforce_links p links = increment_all (contributing p.evidences) links

  module _ (uuids : ℕ → Text) (now : ℕ) (new_cache_id new_norm : Text) where
    -- The forward and the reverse link of each near miss.
    unfoldable pub learn_each : ℕ → List (Text × ℕ) → Links → Links
    unfolding store_similarity_link
    learn_each n [] links = links
    learn_each n ((target, similarity) ∷ ms) links = learn_each (n + 2) ms (
        store_similarity_link dec now
          (new_link (uuids (n + 1)) target new_cache_id similarity [] new_norm)
          (store_similarity_link dec now
            (new_link (uuids n) new_cache_id target similarity new_norm []) links))

    -- `_similarity_link_write_counter` and the links; every hundredth call that stores evicts.
    unfoldable pub learn_all : ℕ → List (Text × ℕ) → ℕ × Links → ℕ × Links
    unfolding learn_each evict_similarity_links
    learn_all n ms (write_counter, links) =
        let learnt = learn_each n ms links in
        if length ms == 0 then (write_counter, links) else (
          write_counter + 1,
          if (write_counter + 1) % 100 == 0
              then (evict_similarity_links dec 1000000 learnt).0
              else learnt,
        )

    unfoldable pub learn_from_near_misses : ℕ → ℕ → PipelineEvidence → ℕ × Links → ℕ × Links
    unfolding near_misses learn_all
    learn_from_near_misses unit n p state = learn_all n (near_misses unit p.evidences) state
