-- ===== src/Pipeline/Context.antt =====
-- core/bitmod/proxy/base.py: the layers of `_run_cache_pipeline` that only add evidence: the fuzzy matches, the links,
-- the atomic facts and the session.
use bit_mod_ai_inference_cac.Strings.{codes, Text}
use bit_mod_ai_inference_cac.Pipeline.Layers.{visited, partial_evidence}
use bit_mod_ai_inference_cac.Breaker.{can_execute}
use bit_mod_ai_inference_cac.Links.{walk_links, evidence_of}
use bit_mod_ai_inference_cac.Pipeline.{
  add_evidence, trace_step, State, add_all, Request, Setting, FactMatch, fuzzy_match,
  similarity_links, atomic_facts, session_cache, hit, miss, skip, evidence, search,
}
use bit_mod_ai_inference_cac.Cache.{Row}
use bit_mod_ai_inference_cac.Session.{
  last_exchange_context, get_or_create, turn_count, SessionState, Context, exchange, no_context,
  index_error,
}
use bit_mod_ai_inference_cac.Prelude.{
  get_elem?, take, ◌==◌, length, not, true, ltb, leb, ◌*◌, ◌++◌, if◌then◌else◌, Option, ℕ, List, [],
  ◌∷◌, none, some,
}
use bit_mod_ai_inference_cac.Evidence.{add, ratio, CacheEvidence, Layer, Ratio}

abbrev pub fuzzy_evidence : List (Row Text Text) → List CacheEvidence
fuzzy_evidence [] = []
fuzzy_evidence (q ∷ qs) =
    evidence_of Layer.fuzzy (ratio 40 100) q.answer_text (some q.id) 0 none ∷ fuzzy_evidence qs

-- `f"[fact:{fact.category}:{fact.entity}]"`
abbrev pub fact_label : FactMatch → Text
fact_label f = codes "[fact:" ++ (f.category ++ (codes ":" ++ (f.entity ++ codes "]")))

-- `sim * qs * 0.4`
abbrev pub fact_confidence : ℕ → FactMatch → Ratio
fact_confidence unit f = ratio (f.similarity * f.quality.num * 40) (unit * f.quality.den * 100)

unfoldable pub fact_evidence : ℕ → List FactMatch → List CacheEvidence
fact_evidence unit [] = []
fact_evidence unit (f ∷ fs) =
    let rest = fact_evidence unit fs in
    if leb (80 * unit) (100 * f.similarity)
    then record (evidence_of Layer.atomic_facts (fact_confidence unit f) f.fact_text (some f.id)
        f.similarity none) { is_partial = true; sub_query = fact_label f }
      ∷ rest
    else rest

-- The text of `last_exchange_context`. A state has an answer to each query, so the IndexError does not come up.
unfoldable pub context_text : Context → Option Text
context_text no_context = none
context_text index_error = none
context_text (exchange query answer) =
    some (codes "Previous Q: " ++ (query ++ (10 ∷ (codes "Previous A: " ++ answer))))

abbrev pub context_of : Option SessionState → Option Text
context_of none = none
context_of (some state) =
    if ltb 0 (turn_count state) then context_text (last_exchange_context state) else none

module _ {V : Type 0} (dec : Discrete Text) (e : Setting V) (r : Request V) where
  unfoldable pub fuzzy_layer : State V → State V
  unfolding add_all
  fuzzy_layer s =
      trace_step fuzzy_match (if length r.fuzzy_hits == 0 then miss else evidence)
        (add_all (fuzzy_evidence (take 3 r.fuzzy_hits)) s)

  unfoldable pub link_layer : State V → State V
  unfolding walk_links
  link_layer s =
      let walk = walk_links dec e.unit s.proxy.db s.proxy.links s.gathered in
      trace_step similarity_links (if walk.link_count == 0 then miss else evidence)
        (record s { gathered = walk.evidence })

  abbrev pub search_facts : Option V → Option (List FactMatch) → State V → State V
  search_facts none fs s = trace_step atomic_facts skip s
  search_facts (some query_emb) none s = trace_step atomic_facts skip s
  search_facts (some query_emb) (some fs) s =
      trace_step atomic_facts search (add_all (fact_evidence e.unit fs) s)

  unfoldable pub fact_layer : State V → State V
  unfolding can_execute add_all fact_evidence
  fact_layer s =
      let asked = can_execute r.now s.proxy.embed_circuit in
      let s' = record s { proxy = record s.proxy { embed_circuit = asked.0 } } in
      if not e.has_embedder
      then trace_step atomic_facts skip s
      else if asked.1
      then search_facts r.query_embedding r.fact_matches s'
      else trace_step atomic_facts skip s'

  abbrev pub add_context : Option Text → State V → State V
  add_context none s = trace_step session_cache miss s
  add_context (some context) s = trace_step session_cache hit (
      add_evidence
        (partial_evidence Layer.session (ratio 25 100) context (codes "[session_context]")) s)

  -- The state, and the reference of the session.
  unfoldable pub session_layer : State V → State V × ℕ
  unfolding get_or_create last_exchange_context context_text add
  session_layer s =
      let found = visited dec e r s.proxy in
      (
        add_context (context_of (get_elem? found.0.heap found.1))
            (record s { proxy = record s.proxy { tracker = found.0 } }),
        found.1,
      )
