-- ===== src/Links.antt =====
-- The graph of near misses: the table `similarity_links` of core/bitmod/adapters/db_sqlite.py, its
-- traversal (the seventh layer of `_run_cache_pipeline`), `_learn_from_near_misses` and
-- `_reinforce_links` of core/bitmod/proxy/base.py. A table is the list of its rows in the order of
-- insertion, which orders rows of the same similarity; a time is a number of seconds. The `try` around each read,
-- for a backend that raises, is left out.
pub mod Walks
pub mod Learning
pub mod NearMiss
pub mod Kept
pub mod Learnt
use bit_mod_ai_inference_cac.Cache.Backend.{cache_lookup_by_id, update_where, delete_where}
use bit_mod_ai_inference_cac.Prelude.{
  none, true, min, some, ◌*◌, ◌-◌, ◌&&◌, ◌+◌, ◌||◌, leb, [], ◌++◌, if◌then◌else◌, length, ◌==◌,
  equal, false, Option, ◌∷◌, ltb, take, Bool, ℕ, List,
}
use bit_mod_ai_inference_cac.Strings.{Text}
use bit_mod_ai_inference_cac.Cache.Evict.{select_where, sort_by}
use bit_mod_ai_inference_cac.Cache.{Row, Db}
use bit_mod_ai_inference_cac.Evidence.{
  is_semantic, similarity_link, add, plus, CacheEvidence, ratio, PipelineEvidence, Layer, Ratio,
}

pub record SimilarityLink : Type 0 where
  pub id : Text
  pub source_cache_id : Text
  pub target_cache_id : Text
  pub similarity : ℕ
  pub source_query_norm : Text
  pub target_query_norm : Text
  pub strength : ℕ
  pub created_at : ℕ

abbrev pub Links : Type 0
Links = List SimilarityLink

-- `ORDER BY similarity DESC LIMIT ?`
unfoldable pub nearest : ℕ → Links → Links
unfolding sort_by
nearest limit links = take limit (sort_by (λ a b. leb b.similarity a.similarity) links)

-- `ORDER BY strength ASC, created_at ASC`
abbrev pub is_weaker : SimilarityLink → SimilarityLink → Bool
is_weaker a b =
    ltb a.strength b.strength || (a.strength == b.strength && leb a.created_at b.created_at)

abbrev pub link_ids : Links → List Text
link_ids [] = []
link_ids (l ∷ ls) = l.id ∷ link_ids ls

-- What one piece of evidence is made of.
abbrev pub evidence_of : Layer → Ratio → Text → Option Text → ℕ → Option Text → CacheEvidence
evidence_of layer confidence answer_text record_id similarity link_id = record {
  layer = layer;
  confidence = plus confidence;
  answer_text = answer_text;
  record_id = record_id;
  similarity = similarity;
  is_partial = false;
  sub_query = [];
  link_id = link_id;
}

-- The evidence, `link_count` and `seen_link_targets`.
pub record Walk : Type 0 where
  pub evidence : PipelineEvidence
  pub link_count : ℕ
  pub seen : List Text

-- `similarity * 0.5 + min(strength * 0.05, 0.25)`
abbrev pub hop1_confidence : ℕ → SimilarityLink → Ratio
hop1_confidence unit l = ratio (10 * l.similarity + min l.strength 5 * unit) (20 * unit)

-- `similarity * 0.5 * 0.3`
abbrev pub hop2_confidence : ℕ → SimilarityLink → Ratio
hop2_confidence unit l = ratio (15 * l.similarity) (100 * unit)

-- The evidence for the record that is found by its id, and whether there is one.
abbrev pub add_linked : Ratio → SimilarityLink → Text → Option (Row Text Text) → Walk → Walk × Bool
add_linked confidence l other_id none w = (record w { seen = other_id ∷ w.seen }, false)
add_linked confidence l other_id (some r) w =
    if r.is_valid
    then (
      record {
        evidence =
            add
              (evidence_of similarity_link confidence r.answer_text (some r.id) l.similarity
                (some l.id))
              w.evidence;
        link_count = w.link_count + 1;
        seen = other_id ∷ w.seen;
      },
      true,
    )
    else (record w { seen = other_id ∷ w.seen }, false)

-- `semantic_evidences`, by their ids.
abbrev pub ids_of : Option Text → List Text
ids_of none = []
ids_of (some id) = id ∷ []

abbrev pub semantic_ids : List CacheEvidence → List Text
semantic_ids [] = []
semantic_ids (e ∷ es) = (if is_semantic e.layer then ids_of e.record_id else []) ++ semantic_ids es

module _ (dec : Discrete Text) where
  abbrev pub is_among : Text → List Text → Bool
  is_among t [] = false
  is_among t (s ∷ ss) = equal dec s t || is_among t ss

  -- `INSERT OR REPLACE`, with the default of `created_at`.
  unfoldable pub store_similarity_link : ℕ → SimilarityLink → Links → Links
  store_similarity_link now link links =
      delete_where (λ (l : SimilarityLink). equal dec l.id link.id) links
      ++ record link { created_at = now } ∷ []

  unfoldable pub get_similarity_links : Text → ℕ → Links → Links
  unfolding nearest select_where
  get_similarity_links cache_id limit links =
      nearest limit
        (select_where (λ (l : SimilarityLink). equal dec l.source_cache_id cache_id) links)

  unfoldable pub get_similarity_links_targeting : Text → ℕ → Links → Links
  unfolding nearest select_where
  get_similarity_links_targeting cache_id limit links =
      nearest limit
        (select_where (λ (l : SimilarityLink). equal dec l.target_cache_id cache_id) links)

  unfoldable pub increment_similarity_link_strength : Text → Links → Links
  increment_similarity_link_strength link_id links =
      update_where (λ (l : SimilarityLink). equal dec l.id link_id)
        (λ l. record l { strength = l.strength + 1 }) links

  -- The links and the number of those that are deleted. A link is a day old 86400 seconds after its creation.
  unfoldable pub cleanup_weak_links : ℕ → ℕ → Links → Links × ℕ
  unfolding select_where
  cleanup_weak_links now max_age_days links =
      let ids = link_ids (
        select_where
          (λ (l : SimilarityLink). l.strength == 0 && ltb (l.created_at + max_age_days * 86400) now)
          links) in
      if length ids == 0
      then (links, 0)
      else (delete_where (λ (l : SimilarityLink). is_among l.id ids) links, length ids)

  unfoldable pub evict_similarity_links : ℕ → Links → Links × ℕ
  unfolding sort_by
  evict_similarity_links max_links links =
      let excess = length links - max_links in
      let ids = link_ids (take excess (sort_by is_weaker links)) in
      if leb (length links) max_links
      then (links, 0)
      else (delete_where (λ (l : SimilarityLink). is_among l.id ids) links, excess)

  abbrev pub other_side : Text → SimilarityLink → Text
  other_side rid l =
      if equal dec l.source_cache_id rid then l.target_cache_id else l.source_cache_id

  module _ {V : Type 0} (unit : ℕ) (db : Db Text Text V) (links : Links) where
    unfoldable pub follow : Ratio → SimilarityLink → Text → Walk → Walk × Bool
    unfolding cache_lookup_by_id
    follow confidence l other_id w =
        if is_among other_id w.seen
        then (w, false)
        else add_linked confidence l other_id (cache_lookup_by_id dec db other_id) w

    -- The links of one semantic match; the result has `hop2_sources` too.
    unfoldable pub walk_hop1 : Text → Links → Walk → List Text → Walk × List Text
    unfolding follow
    walk_hop1 rid [] w sources = (w, sources)
    walk_hop1 rid (l ∷ ls) w sources =
        let found = follow (hop1_confidence unit l) l (other_side rid l) w in
        let rest =
          walk_hop1 rid ls found.0
            (if found.1 then sources ++ other_side rid l ∷ [] else sources) in
        if leb 10 w.link_count then (w, sources) else rest

    unfoldable pub walk_hop2 : Links → Walk → Walk
    unfolding follow
    walk_hop2 [] w = w
    walk_hop2 (l ∷ ls) w =
        let rest = walk_hop2 ls (follow (hop2_confidence unit l) l l.target_cache_id w).0 in
        if leb 10 w.link_count then w else rest

    unfoldable pub walk_sources : List Text → Walk → Walk
    unfolding walk_hop2 get_similarity_links
    walk_sources [] w = w
    walk_sources (hop1_target ∷ targets) w =
        let rest = walk_sources targets (walk_hop2 (get_similarity_links hop1_target 2 links) w) in
        if leb 10 w.link_count then w else rest

    -- The body of the loop over the semantic matches, for the id of one.
    unfoldable pub walk_match : Text → Walk → Walk
    unfolding walk_hop1 walk_sources get_similarity_links_targeting
    walk_match rid w =
        let near =
          walk_hop1 rid
            (get_similarity_links rid 3 links ++ get_similarity_links_targeting rid 3 links) w [] in
        walk_sources near.1 near.0

    unfoldable pub walk_matches : List Text → Walk → Walk
    unfolding walk_match
    walk_matches [] w = w
    walk_matches (rid ∷ rids) w =
        let rest = walk_matches rids (walk_match rid w) in if leb 10 w.link_count then w else rest

    unfoldable pub walk_links : PipelineEvidence → Walk
    unfolding walk_matches
    walk_links p =
        walk_matches (semantic_ids p.evidences) (record { evidence = p; link_count = 0; seen = [] })
