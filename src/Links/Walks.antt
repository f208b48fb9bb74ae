-- ===== src/Links/Walks.antt =====
-- core/bitmod/proxy/base.py: what the traversal of the links adds to the evidence.
use mathlib.Core.List.{append-nil, append_assoc}
use bit_mod_ai_inference_cac.Prelude.{
  All-append, ◌+◌, length-append, sym, ◌∙◌, ap, [], refl, arith, none, inr, All, inl, ◌≤◌, leb,
  Option, length, true, Bool-cases, ◌<◌, ◌++◌, some, ◌∷◌, ◌≡◌, List, ℕ,
}
use bit_mod_ai_inference_cac.Links.{
  semantic_ids, get_similarity_links_targeting, get_similarity_links, hop2_confidence, evidence_of,
  walk_links, walk_matches, walk_match, walk_sources, walk_hop2, other_side, hop1_confidence,
  is_among, add_linked, SimilarityLink, walk_hop1, Walk, cache_lookup_by_id, Links, Text, follow,
}
use bit_mod_ai_inference_cac.Evidence.{PipelineEvidence, add, Ratio, CacheEvidence, similarity_link}
use bit_mod_ai_inference_cac.Cache.{Row, Db}

module _ {V : Type 0} (dec : Discrete Text) (unit : ℕ) (db : Db Text Text V) (links : Links)
    (base : List CacheEvidence) where
  -- Evidence from a link: the text of a valid answer that is found by its id.
  abbrev pub IsLinked : CacheEvidence → Type 0
  IsLinked e =
      (r : Row Text Text) × (id : Text) × (cache_lookup_by_id dec db id ≡ some r)
      × (r.is_valid ≡ true)
      × (e.layer ≡ similarity_link)
      × (e.answer_text ≡ r.answer_text)
      × (e.record_id ≡ some r.id)

  -- The evidence is the one at the start and as much new as is counted, ten pieces at most.
  pub record Grown (w : Walk) : Type 0 where
    pub found : List CacheEvidence
    pub grown : w.evidence.evidences ≡ base ++ found
    pub counted : length found ≡ w.link_count
    pub bounded : w.link_count ≤ 10
    pub linked : All IsLinked found

  follow-Grown :
      (c : Ratio) (l : SimilarityLink) (id : Text) (w : Walk)
      → w.link_count < 10
      → Grown w
      → Grown (follow dec unit db links c l id w).0
  unfolding follow add
  follow-Grown c l id w h g = elim (Bool-cases (is_among dec id w.seen)) [
    | inl e ↦ rw e g
    | inr e ↦ rw e (added (cache_lookup_by_id dec db id) refl)
  ]
    where
      added :
          (o : Option (Row Text Text))
          → cache_lookup_by_id dec db id ≡ o
          → Grown (add_linked c l id o w).0
      added none q = record {
        found = g.found;
        grown = g.grown;
        counted = g.counted;
        bounded = g.bounded;
        linked = g.linked;
      }
      added (some r) q = elim (Bool-cases r.is_valid) [
        | inl v ↦
            let e =
              evidence_of similarity_link c r.answer_text (some r.id) l.similarity (some l.id) in
            rw v (record {
              found = g.found ++ e ∷ [];
              grown = ap (λ es. es ++ e ∷ []) g.grown ∙ append_assoc base g.found (e ∷ []);
              counted = length-append g.found (e ∷ []) ∙ ap (λ n. n + 1) g.counted;
              bounded = omega arith;
              linked =
                  All-append IsLinked g.found (e ∷ []) g.linked
                    ((r, id, q, v, refl, refl, refl), tt);
            })
        | inr v ↦ rw v (record {
          found = g.found;
          grown = g.grown;
          counted = g.counted;
          bounded = g.bounded;
          linked = g.linked;
        })
      ]

  walk_hop1-Grown :
      (rid : Text) (ls : Links) (w : Walk) (sources : List Text)
      → Grown w
      → Grown (walk_hop1 dec unit db links rid ls w sources).0
  unfolding walk_hop1
  walk_hop1-Grown rid [] w sources g = g
  walk_hop1-Grown rid (l ∷ ls) w sources g = elim (Bool-cases (leb 10 w.link_count)) [
    | inl e ↦ rw e g
    | inr e ↦ rw e (
        walk_hop1-Grown rid ls _ _
          (follow-Grown (hop1_confidence unit l) l (other_side dec rid l) w (ground arith) g))
  ]

  walk_hop2-Grown : (ls : Links) (w : Walk) → Grown w → Grown (walk_hop2 dec unit db links ls w)
  unfolding walk_hop2
  walk_hop2-Grown [] w g = g
  walk_hop2-Grown (l ∷ ls) w g = elim (Bool-cases (leb 10 w.link_count)) [
    | inl e ↦ rw e g
    | inr e ↦ rw e (
        walk_hop2-Grown ls _
          (follow-Grown (hop2_confidence unit l) l l.target_cache_id w (ground arith) g))
  ]

  walk_sources-Grown :
      (targets : List Text) (w : Walk) → Grown w → Grown (walk_sources dec unit db links targets w)
  unfolding walk_sources
  walk_sources-Grown [] w g = g
  walk_sources-Grown (t ∷ ts) w g = elim (Bool-cases (leb 10 w.link_count)) [
    | inl e ↦ rw e g
    | inr e ↦
        rw e (walk_sources-Grown ts _ (walk_hop2-Grown (get_similarity_links dec t 2 links) w g))
  ]

  walk_match-Grown : (rid : Text) (w : Walk) → Grown w → Grown (walk_match dec unit db links rid w)
  unfolding walk_match
  walk_match-Grown rid w g =
      let ls =
        get_similarity_links dec rid 3 links ++ get_similarity_links_targeting dec rid 3 links in
      walk_sources-Grown (walk_hop1 dec unit db links rid ls w []).1 _
        (walk_hop1-Grown rid ls w [] g)

  pub walk_matches-Grown :
      (rids : List Text) (w : Walk) → Grown w → Grown (walk_matches dec unit db links rids w)
  unfolding walk_matches
  walk_matches-Grown [] w g = g
  walk_matches-Grown (rid ∷ rids) w g = elim (Bool-cases (leb 10 w.link_count)) [
    | inl e ↦ rw e g
    | inr e ↦ rw e (walk_matches-Grown rids _ (walk_match-Grown rid w g))
  ]

-- However many links there are, the traversal keeps the evidence that it starts from and adds ten pieces to it at
-- most, as many as it counts; each of these is the text of an answer that is still valid and is found by its id.
pub walk_links_lem :
    {V : Type 0} (dec : Discrete Text) (unit : ℕ) (db : Db Text Text V) (links : Links)
    (p : PipelineEvidence)
    → Grown dec unit db links p.evidences (walk_links dec unit db links p)
unfolding walk_links
walk_links_lem dec unit db links p =
    walk_matches-Grown dec unit db links p.evidences (semantic_ids p.evidences)
      (record { evidence = p; link_count = 0; seen = [] })
      (record {
        found = [];
        grown = sym (append-nil p.evidences);
        counted = refl;
        bounded = omega arith;
        linked = tt;
      })
