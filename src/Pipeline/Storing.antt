-- ===== src/Pipeline/Storing.antt =====
-- core/bitmod/proxy/base.py: `_store_response`, which keeps a generated answer, and the exact lookup that finds it.
use bit_mod_ai_inference_cac.Facts.Bounds.{store_atomic_facts_bounded}
use bit_mod_ai_inference_cac.Cache.Lookup.{lookup-store}
use bit_mod_ai_inference_cac.Cache.Evict.Storing.{cache_store-returns}
use bit_mod_ai_inference_cac.Cache.Backend.{has_key, inserted, cache_lookup, has_id, select_one}
use bit_mod_ai_inference_cac.Links.Learning.{learn_from_near_misses}
use bit_mod_ai_inference_cac.Cache.Table.{Distinct}
use bit_mod_ai_inference_cac.Cache.Engine.{double_verify, is_temporal_query, is_expired, try_cache}
use bit_mod_ai_inference_cac.Evidence.{PipelineEvidence}
use bit_mod_ai_inference_cac.Links.{Links}
use bit_mod_ai_inference_cac.Strings.{Text}
use bit_mod_ai_inference_cac.Cache.{Row, Db, absent}
use bit_mod_ai_inference_cac.Facts.{store_atomic_facts, FactDb, FactText}
use bit_mod_ai_inference_cac.Session.{record_at, get_or_create, Tracker}
use bit_mod_ai_inference_cac.Cache.Evict.{
  max_answer_length, maybe_evict, cache_store_embedding, store_answer, store_embedding, stored_or,
  with_embedding,
}
use bit_mod_ai_inference_cac.Prelude.{
  inr, inl, Option-cases, ◌&&◌, ◌∙◌, ap, ◌≤◌, length, ==_iff, arith, refl, ◌≢◌, ◌%◌, ◌+◌, ◌≡◌, List,
  take, true, Option, ℕ, [], none, some,
}

-- What is written to; each counter of calls stands beside its table.
pub record Memory (V : Type 0) : Type 0 where
  pub cache : ℕ × Db Text Text V
  pub facts : ℕ × FactDb V
  pub links : ℕ × Links
  pub tracker : Tracker

-- The arguments, with the id of the new entry, the embedding of its query and what the answer decomposes into. Of the
-- filters, the temporal scope, `none` if it is missing or empty.
pub record Response (V : Type 0) : Type 0 where
  pub id : Text
  pub user_message : Text
  pub answer_text : Text
  pub norm : Text
  pub answer_key : Text
  pub temporal_scope : Option Text
  pub namespace_id : Option Text
  pub evidence : Option PipelineEvidence
  pub session_id : Option Text
  pub embedding : Option V
  pub decomposed : Option (List FactText)

abbrev pub response_row : {V : Type 0} → Response V → Row Text Text
response_row g = record {
  id = g.id;
  answer_key = g.answer_key;
  answer_text = g.answer_text;
  source_sections = [];
  temporal_scope = g.temporal_scope;
  namespace_id = g.namespace_id;
  max_age_seconds = none;
  created_at = absent;
  is_valid = true;
  serve_count = 0;
  last_served_at = none;
  invalidated_at = none;
  invalidation_reason = none;
}

module _ {V : Type 0} (dec : Discrete Text) (encrypt : Text → Text) (value : Row Text Text → ℕ)
    (similarity : V → V → ℕ) (unit : ℕ) (embed : Text → Option V) (uuids : ℕ → Text)
    (now max_entries interval : ℕ) where
  abbrev pub learn_if : Option PipelineEvidence → Response V → ℕ × Links → ℕ × Links
  learn_if none g links = links
  learn_if (some p) g links = learn_from_near_misses dec uuids now g.id g.norm unit 0 p links

  -- `if messages_for_context`, by the id of the session
  abbrev pub record_if : Option Text → Response V → Tracker → Tracker
  record_if none g tracker = tracker
  record_if (some sid) g tracker =
      let found = get_or_create dec sid tracker in
      record_at found.1 g.user_message g.answer_text g.answer_key found.0

  abbrev pub after_storing :
      Response V → Memory V → Option (Row Text Text × (ℕ × Db Text Text V)) → Option (Memory V)
  after_storing g m none = none
  after_storing g m (some (row, cache)) = some (record {
    cache = cache;
    facts =
        store_atomic_facts dec similarity unit embed uuids now row.id g.namespace_id 0 g.answer_text
          g.decomposed m.facts;
    links = learn_if g.evidence g m.links;
    tracker = record_if g.session_id g m.tracker;
  })

  -- `none` is the error of an id that another entry has.
  unfoldable pub store_response : Response V → Memory V → Option (Memory V)
  unfolding store_answer store_atomic_facts learn_from_near_misses get_or_create record_at
  store_response g m =
      after_storing g m (
        store_answer dec encrypt value now (response_row g) g.embedding max_entries interval
          m.cache)

  store_embedding-rows :
      (o : Option V) (k : Text) (s : ℕ × Db Text Text V)
      → (store_embedding dec o k s).1.rows ≡ s.1.rows
  unfolding cache_store_embedding
  store_embedding-rows none k s = refl
  store_embedding-rows (some v) k (n, db) = kept (select_one (has_id dec k) db.rows)
    where
      kept :
          (o : Option (Row Text Text))
          → (stored_or dec db (with_embedding dec o db k v)).rows ≡ db.rows
      kept none = refl
      kept (some q) = refl

  maybe_evict-idle :
      (n : ℕ) (db : Db Text Text V)
      → (n + 1) % interval ≢ 0
      → maybe_evict dec value now max_entries interval (n, db) ≡ (n + 1, db)
  unfolding maybe_evict
  maybe_evict-idle n db h = ground (arith, ==_iff ((n + 1) % interval) 0)

  -- The text that is kept.
  abbrev pub kept_text : Text → Text
  kept_text t = encrypt (take max_answer_length t)

  cache_lookup-rows :
      (a b : Db Text Text V) (k : Text)
      → a.rows ≡ b.rows
      → cache_lookup dec a k ≡ cache_lookup dec b k
  unfolding cache_lookup
  cache_lookup-rows a b k h = ap (select_one (λ r. has_key dec k r && r.is_valid)) h

  -- An answer that was made for a response has no source and no time to live.
  serves_fresh :
      (later : ℕ) (decrypt : Text → Text) (g : Response V) (t : Text) (db : Db Text Text V)
      (k : Text)
      → cache_lookup dec db k ≡ some (inserted now (record (response_row g) { answer_text = t }))
      → (try_cache dec later decrypt db k).1
        ≡ some (record (inserted now (response_row g)) { answer_text = decrypt t })
  unfolding try_cache is_expired is_temporal_query double_verify
  serves_fresh later decrypt g t db k found = elim (Option-cases g.temporal_scope) [
    | inl e ↦ rw (found, try_cache, e) refl
    | inr (scope, e) ↦ rw (found, try_cache, e) refl
  ]

  -- In a table with unique ids and keys, under an id that no entry has and without an eviction due, the response is stored.
  -- On the database that this leaves, the exact lookup of its key serves it whatever the clock reads then, because the entry
  -- has no time to live, its text cut to the limit, encrypted and decrypted again; and it has added ten facts at most.
  pub store_response-try_cache :
      (g : Response V) (m : Memory V) (later : ℕ) (decrypt : Text → Text)
      → Distinct m.cache.1.rows
      → select_one (has_id dec g.id) m.cache.1.rows ≡ none
      → (m.cache.0 + 1) % interval ≢ 0
      → (m' : Memory V) × (store_response g m ≡ some m')
        × ((try_cache dec later decrypt m'.cache.1 g.answer_key).1
            ≡ some (record (inserted now (response_row g)) {
              answer_text = decrypt (kept_text g.answer_text);
            }))
        × (length m'.facts.1.facts ≤ length m.facts.1.facts + 10)
  unfolding store_response
  store_response-try_cache g m later decrypt d fresh idle =
      let stored = record (response_row g) { answer_text = kept_text g.answer_text } in
      let (db', returns) = cache_store-returns dec now m.cache.1 stored fresh in
      let evicted = maybe_evict dec value now max_entries interval (m.cache.0, db') in
      let cache = store_embedding dec g.embedding g.id evicted in
      let same : cache.1.rows ≡ db'.rows =
        store_embedding-rows g.embedding g.id evicted
        ∙ ap (λ (s : ℕ × Db Text Text V). s.1.rows) (maybe_evict-idle m.cache.0 db' idle) in
      let facts =
        store_atomic_facts dec similarity unit embed uuids now g.id g.namespace_id 0 g.answer_text
          g.decomposed m.facts in
      (
        record {
          cache = cache;
          facts = facts;
          links = learn_if g.evidence g m.links;
          tracker = record_if g.session_id g m.tracker;
        },
        rw returns refl,
        serves_fresh later decrypt g (kept_text g.answer_text) cache.1 g.answer_key (
            cache_lookup-rows cache.1 db' g.answer_key same
            ∙ (lookup-store dec now m.cache.1 stored g.answer_key d returns).0),
        (store_atomic_facts_bounded dec similarity unit embed uuids now g.id g.namespace_id 0
            m.facts.0 g.answer_text g.decomposed m.facts.1).0,
      )
