-- ===== src/Pipeline/Layers.antt =====
-- core/bitmod/proxy/base.py: the layers of `_run_cache_pipeline`, from the exact lookup to the context of the
-- session. A layer changes the state; the exact and the composable layer may come to a result. A read of the
-- backend that raises is modelled for the exact and for the first semantic lookup.
use bit_mod_ai_inference_cac.Strings.{codes, Text}
use bit_mod_ai_inference_cac.Namespaces.{get_namespace_fallback}
use bit_mod_ai_inference_cac.Breaker.{CircuitBreaker}
use bit_mod_ai_inference_cac.Session.{Tracker}
use bit_mod_ai_inference_cac.Strings.{is_blank, join_with}
use bit_mod_ai_inference_cac.Breaker.{track_failure, track_success, can_execute}
use bit_mod_ai_inference_cac.Cache.Engine.{try_cache}
use bit_mod_ai_inference_cac.Links.{evidence_of}
use bit_mod_ai_inference_cac.Pipeline.{
  add_all, trace_step, answer_key_in, fallback_in, is_qualified, Request, State, Setting,
  CacheResult, Proxy, exact_cache, semantic_cache, composable_cache, hit, miss, skip,
  skip_qualified, evidence, full_hit, partial,
}
use bit_mod_ai_inference_cac.Cache.{Row, Db}
use bit_mod_ai_inference_cac.Cache.Semantic.{
  try_composable_cache, semantic_cache_search, SubQuery, Composed, or_else,
}
use bit_mod_ai_inference_cac.Session.{record_at, get_or_create}
use bit_mod_ai_inference_cac.Prelude.{
  ◌&&◌, ◌==◌, length, not, if◌then◌else◌, ◌++◌, some, List, Option, true, Bool, ◌/◌, none, ◌+◌, ◌*◌,
  ℕ, [], ◌∷◌,
}
use bit_mod_ai_inference_cac.Evidence.{
  add, similarity_to_confidence, ratio, CacheEvidence, Ratio, Layer,
}

-- A request has its result, or goes on to the next layer.
pub data Outcome (V : Type 0) : Type 0 where
  result : Proxy V → CacheResult → Outcome V
  going : State V → Outcome V

abbrev pub partial_evidence : Layer → Ratio → Text → Text → CacheEvidence
partial_evidence layer confidence answer_text sub_query =
    record (evidence_of layer confidence answer_text none 0 none) {
      is_partial = true;
      sub_query = sub_query;
    }

-- `0.75`, as the least similarity that is not below it.
abbrev pub search_threshold : ℕ → ℕ
search_threshold unit = (75 * unit + 99) / 100

module _ {V : Type 0} (dec : Discrete Text) (e : Setting V) (r : Request V) where
  abbrev pub falls_back : Proxy V → Bool
  falls_back p = fallback_in e r dec p.namespaces r.namespace_id

  unfoldable pub lookup_exact : Proxy V → Db Text Text V × Option (Row Text Text)
  unfolding try_cache answer_key_in get_namespace_fallback
  lookup_exact p =
      or_else dec r.now e.decrypt e.similarity
        (try_cache dec r.now e.decrypt p.db (answer_key_in e r dec r.namespace_id))
        (λ db.
          if falls_back p
          then try_cache dec r.now e.decrypt db (answer_key_in e r dec none)
          else (db, none))

  -- What the exact lookup finds, guarded by the circuit of the database.
  unfoldable pub find_exact : Proxy V → Proxy V × Option (Row Text Text)
  unfolding lookup_exact can_execute track_success track_failure
  find_exact p =
      let asked = can_execute r.now p.db_circuit in
      if asked.1
      then if r.database_raises
        then (record p { db_circuit = track_failure r.now asked.0 }, none)
        else (
          record p { db = (lookup_exact p).0; db_circuit = track_success r.now asked.0 },
          (lookup_exact p).1,
        )
      else (record p { db_circuit = asked.0 }, none)

  abbrev pub visited : Proxy V → Tracker × ℕ
  visited p = get_or_create dec (e.session_id r.messages) p.tracker

  -- `get_or_create` and `record`
  unfoldable pub record_session : Text → Text → Proxy V → Proxy V
  unfolding get_or_create record_at
  record_session answer_text cache_key p = record p {
    tracker = record_at (visited p).1 r.user_message answer_text cache_key (visited p).0;
  }

  abbrev pub exact_evidence : Row Text Text → CacheEvidence
  exact_evidence cached =
      evidence_of Layer.exact (ratio 1 1) cached.answer_text (some cached.id) 0 none

  abbrev pub exact_result : Row Text Text → State V → CacheResult
  exact_result cached s = record {
    hit = true;
    answer_text = cached.answer_text;
    cache_key = cached.answer_key;
    trace = s.trace ++ (exact_cache, hit) ∷ [];
    fuzzy_context = none;
    norm = [];
    answer_key = [];
    gathered = some (add (exact_evidence cached) s.gathered);
  }

  abbrev pub serve_exact : State V → Option (Row Text Text) → Outcome V
  serve_exact s none = going (trace_step exact_cache miss s)
  serve_exact s (some cached) =
      if is_qualified e r cached.answer_text
      then result (record_session cached.answer_text cached.answer_key s.proxy)
          (exact_result cached s)
      else going (trace_step exact_cache miss (trace_step exact_cache skip_qualified s))

  unfoldable pub exact_layer : State V → Outcome V
  unfolding find_exact record_session is_qualified
  exact_layer s =
      let found = find_exact s.proxy in serve_exact (record s { proxy = found.0 }) found.1

  abbrev pub semantic_evidence : List (Row Text Text × ℕ) → List CacheEvidence
  semantic_evidence [] = []
  semantic_evidence ((q, sim) ∷ ms) =
      evidence_of Layer.semantic (similarity_to_confidence Layer.semantic e.unit sim) q.answer_text
        (some q.id) sim none
      ∷ semantic_evidence ms

  abbrev pub searched_in : Option Text → Db Text Text V → List (Row Text Text × ℕ)
  searched_in namespace_id db =
      semantic_cache_search dec r.now e.decrypt e.similarity (search_threshold e.unit) 3 e.max_scan
        namespace_id r.query_embedding none db

  -- The first search, and the one without a namespace where that finds nothing.
  unfoldable pub semantic_matches : Proxy V → List (Row Text Text × ℕ)
  unfolding semantic_cache_search get_namespace_fallback
  semantic_matches p =
      let matches = if r.search_raises then [] else searched_in r.namespace_id p.db in
      if length matches == 0 && falls_back p then searched_in none p.db else matches

  abbrev pub search_circuit : CircuitBreaker → CircuitBreaker
  search_circuit cb = if r.search_raises then track_failure r.now cb else track_success r.now cb

  unfoldable pub semantic_layer : State V → State V
  unfolding can_execute track_success track_failure semantic_matches add_all
  semantic_layer s =
      let asked = can_execute r.now s.proxy.embed_circuit in
      let matches = semantic_matches s.proxy in
      if not e.has_embedder
      then trace_step semantic_cache skip s
      else if asked.1
      then trace_step semantic_cache (if length matches == 0 then miss else evidence) (
          add_all (semantic_evidence matches)
            (record s { proxy = record s.proxy { embed_circuit = search_circuit asked.0 } }))
      else trace_step semantic_cache skip
          (record s { proxy = record s.proxy { embed_circuit = asked.0 } })

  abbrev pub Hits : Type 0
  Hits = List (SubQuery Text V × Row Text Text)

  abbrev pub composable_evidence : Hits → List CacheEvidence
  composable_evidence [] = []
  composable_evidence ((sq, q) ∷ hs) =
      partial_evidence Layer.composable (ratio 85 100) q.answer_text sq.query
      ∷ composable_evidence hs

  unfoldable pub answer_sections : Hits → List Text
  answer_sections [] = []
  answer_sections ((sq, q) ∷ hs) =
      (codes "## " ++ (sq.query ++ (10 ∷ 10 ∷ q.answer_text))) ∷ answer_sections hs

  unfoldable pub combined : Hits → Text
  unfolding answer_sections join_with
  combined hs = join_with (10 ∷ 10 ∷ []) (answer_sections hs)

  abbrev pub composable_result : Hits → State V → CacheResult
  composable_result hs s = record {
    hit = true;
    answer_text = combined hs;
    cache_key = codes "composable";
    trace = s.trace ++ (composable_cache, full_hit) ∷ [];
    fuzzy_context = none;
    norm = [];
    answer_key = [];
    gathered = some s.gathered;
  }

  abbrev pub partial_step : Bool → State V → State V
  partial_step is_partial s = trace_step composable_cache (if is_partial then partial else miss) s

  -- The hits, and whether they are partial and full.
  abbrev pub serve_composed : State V → Hits → Bool → Bool → Outcome V
  serve_composed s hs is_partial is_full =
      if is_full
      then if is_qualified e r (combined hs)
        then if is_blank (combined hs)
          then going (partial_step is_partial s)
          else result s.proxy (composable_result hs s)
        else going (partial_step is_partial (trace_step composable_cache skip_qualified s))
      else going (partial_step is_partial s)

  abbrev pub composed_outcome : State V → Option (Composed Text Text V × (Bool × Bool)) → Outcome V
  composed_outcome s none = going (trace_step composable_cache miss s)
  composed_outcome s (some (c, (is_partial, is_full))) =
      serve_composed (add_all (composable_evidence c.hits) s) c.hits is_partial is_full

  unfoldable pub composable_layer : State V → Outcome V
  unfolding try_composable_cache add_all combined is_qualified
  composable_layer s =
      let found =
        try_composable_cache dec r.now e.decrypt e.similarity e.semantic_threshold e.max_scan
          r.namespace_id r.sub_queries s.proxy.db in
      composed_outcome (record s { proxy = record s.proxy { db = found.0 } }) found.1
