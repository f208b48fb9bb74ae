-- ===== src/Pipeline.antt =====
-- core/bitmod/proxy/base.py: `BitmodProxy` as far as its cache pipeline goes, `_run_cache_pipeline` and
-- `_can_verify_today`. What the pipeline calls outside the modelled code stands in `Setting`, what one
-- request brings in `Request`. The clock is read once, the embeddings' circuit twice. Intent detection, which only
-- the trace shows, the audit log, the spans and the timings are left out.
pub mod Layers
pub mod Context
pub mod Decision
pub mod Decides
pub mod Serves
pub mod Storing
pub mod Routing
pub mod Messages
pub mod Fuzzy
use bit_mod_ai_inference_cac.Breaker.{CircuitBreaker}
use bit_mod_ai_inference_cac.Queries.{normalize_query}
use bit_mod_ai_inference_cac.Links.{Links}
use bit_mod_ai_inference_cac.Qualify.{qualify_cache_hit}
use bit_mod_ai_inference_cac.AnswerKey.{Scope, compute_answer_key}
use bit_mod_ai_inference_cac.Strings.{codes, Text}
use bit_mod_ai_inference_cac.Prelude.{
  length, ◌==◌, ltb, none, some, if◌then◌else◌, [], ◌∷◌, false, Option, ◌++◌, Bool, ℕ, List,
}
use bit_mod_ai_inference_cac.Cache.{Row, Db}
use bit_mod_ai_inference_cac.Cache.Semantic.{SubQuery}
use bit_mod_ai_inference_cac.Evidence.{Confidence, add, CacheEvidence, PipelineEvidence, Ratio}
use bit_mod_ai_inference_cac.Session.{Tracker}
use bit_mod_ai_inference_cac.Namespaces.{get_namespace_fallback, Namespaces}

-- `mechanism` and `action` of a step of the trace.
pub data Mechanism : Type 0 where
  validation normalization exact_cache semantic_cache composable_cache fuzzy_match : Mechanism
  similarity_links atomic_facts session_cache promotion_verify decision : Mechanism

pub data Action : Type 0 where
  reject done hit miss skip skip_qualified evidence full_hit partial search : Action
  demoted promoted serve generate_with_context generate : Action

abbrev pub Trace : Type 0
Trace = List (Mechanism × Action)

-- A fact that the search of the eighth layer finds.
pub record FactMatch : Type 0 where
  pub id : Text
  pub fact_text : Text
  pub category : Text
  pub entity : Text
  pub quality : Ratio
  pub similarity : ℕ

pub record Setting (V : Type 0) : Type 0 where
  pub sha256 : Text → Text
  pub context_hash : List Text → Text
  pub session_id : List Text → Text
  pub decrypt : Text → Text
  pub is_encrypted : Text → Bool
  pub similarity : V → V → ℕ
  pub unit : ℕ
  pub two_places : Confidence → Text
  pub has_embedder : Bool
  pub max_scan : ℕ
  pub semantic_threshold : ℕ
  pub promotion_enabled : Bool
  pub max_daily_verifications : ℕ

-- `fuzzy_hits` and `fact_matches` are what `fuzzy_match` and `search_atomic_facts` find, the latter
-- `none` where it raises; `sub_queries` is what `decompose_query` gives; `query_embedding` is the embedder's
-- answer, `none` where it raises or has none; `verified` is what the language model says of the best answer.
pub record Request (V : Type 0) : Type 0 where
  pub now : ℕ
  pub today : ℕ
  pub user_message : Text
  pub messages : List Text
  pub namespace_id : Option Text
  pub database_raises : Bool
  pub search_raises : Bool
  pub query_embedding : Option V
  pub sub_queries : Option (List (SubQuery Text V))
  pub fuzzy_hits : List (Row Text Text)
  pub fact_matches : Option (List FactMatch)
  pub verified : Bool

-- The proxy and the tables behind it.
pub record Proxy (V : Type 0) : Type 0 where
  pub db : Db Text Text V
  pub links : Links
  pub namespaces : Namespaces
  pub tracker : Tracker
  pub db_circuit : CircuitBreaker
  pub embed_circuit : CircuitBreaker
  pub promotion_count : ℕ
  pub promotion_date : ℕ

-- The local variables that the layers change.
pub record State (V : Type 0) : Type 0 where
  pub proxy : Proxy V
  pub gathered : PipelineEvidence
  pub trace : Trace

-- `_CacheResult`
pub record CacheResult : Type 0 where
  pub hit : Bool
  pub answer_text : Text
  pub cache_key : Text
  pub trace : Trace
  pub fuzzy_context : Option Text
  pub norm : Text
  pub answer_key : Text
  pub gathered : Option PipelineEvidence

module _ {V : Type 0} where
  abbrev pub trace_step : Mechanism → Action → State V → State V
  trace_step mechanism action s = record s { trace = s.trace ++ (mechanism, action) ∷ [] }

  abbrev pub add_evidence : CacheEvidence → State V → State V
  add_evidence e s = record s { gathered = add e s.gathered }

  unfoldable pub add_all : List CacheEvidence → State V → State V
  unfolding add
  add_all [] s = s
  add_all (e ∷ es) s = add_all es (add_evidence e s)

-- `messages_for_context[:-1]`
unfoldable pub history : List Text → List Text
history [] = []
history (m ∷ []) = []
history (m ∷ n ∷ ms) = m ∷ history (n ∷ ms)

abbrev pub key_scope : Option Text → Scope
key_scope namespace_id = record {
  temporal_scope = none;
  language = none;
  namespace_id = namespace_id;
  project_id = none;
}

abbrev pub too_long : ℕ
too_long = 10000

-- `_CacheResult(hit=False, trace=reject_trace)`
abbrev pub rejected : CacheResult
rejected = record {
  hit = false;
  answer_text = [];
  cache_key = [];
  trace = (validation, reject) ∷ [];
  fuzzy_context = none;
  norm = [];
  answer_key = [];
  gathered = none;
}

abbrev pub context_label : Text
context_label = codes "_context"

-- `{"_context": context_hash} if context_hash else {}`
unfoldable pub context_filters : Text → List (Text × Text)
context_filters [] = []
context_filters (c ∷ t) = (context_label, c ∷ t) ∷ []

module _ {V : Type 0} (e : Setting V) (r : Request V) where
  unfoldable pub filters : List (Text × Text)
  unfolding history context_filters
  filters =
      if ltb 1 (length r.messages)
      then context_filters (e.context_hash (history r.messages))
      else []

  unfoldable pub answer_key_in : Discrete Text → Option Text → Text
  unfolding compute_answer_key normalize_query filters
  answer_key_in dec namespace_id =
      compute_answer_key dec e.sha256 (normalize_query r.user_message) filters
        (key_scope namespace_id)

  abbrev pub fallback_in : Discrete Text → Namespaces → Option Text → Bool
  fallback_in dec table none = false
  fallback_in dec table (some id) = get_namespace_fallback dec id table

  -- The gate, on the messages before the last.
  unfoldable pub is_qualified : Text → Bool
  unfolding qualify_cache_hit history
  is_qualified cached_answer =
      (qualify_cache_hit r.user_message cached_answer (history r.messages)).serve

-- `_can_verify_today`, and whether the cap is not reached.
unfoldable pub can_verify_today : {V : Type 0} → Setting V → ℕ → Proxy V → Proxy V × Bool
can_verify_today e today p =
    let p' =
      if p.promotion_date == today
      then p
      else record p { promotion_count = 0; promotion_date = today } in
    (p', ltb p'.promotion_count e.max_daily_verifications)
