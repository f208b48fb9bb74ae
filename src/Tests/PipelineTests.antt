-- ===== src/Tests/PipelineTests.antt =====
-- A proxy with one answer and a request for it (core/bitmod/proxy/base.py).
use bit_mod_ai_inference_cac.Pipeline.Storing.{
  Response, Memory, store_response, response_row, store_response-try_cache,
}
use bit_mod_ai_inference_cac.Cache.Backend.{has_id, select_one, cache_lookup}
use bit_mod_ai_inference_cac.AnswerKey.{join, parts}
use bit_mod_ai_inference_cac.Cache.Engine.{try_cache, is_expired, is_temporal_query, double_verify}
use bit_mod_ai_inference_cac.Pipeline.Serves.{run_cache_pipeline-Served, Served}
use bit_mod_ai_inference_cac.Cache.Backend.{inserted}
use bit_mod_ai_inference_cac.Tests.KeyTests.{text_discrete}
use bit_mod_ai_inference_cac.Cache.Table.{Distinct}
use bit_mod_ai_inference_cac.Pipeline.Fuzzy.{decide-fuzzy, fuzzy_and_partial}
use bit_mod_ai_inference_cac.Pipeline.Decision.{decide, run_cache_pipeline}
use bit_mod_ai_inference_cac.Strings.{strip, codes, is_blank, Text}
use bit_mod_ai_inference_cac.Cache.{ttl_expired, Source, Row, at}
use bit_mod_ai_inference_cac.Prelude.{
  arith, ◌+◌, ◌≤◌, Option, length, ◌<◌, refl, ◌⊎◌, min, Bool, ℕ_discrete, ◌≡◌, true, false, ℕ, List,
  [], ◌∷◌, none, some,
}
use bit_mod_ai_inference_cac.Evidence.{no_evidence}
use bit_mod_ai_inference_cac.Pipeline.{Request, State, Proxy, Setting, rejected}
use bit_mod_ai_inference_cac.Breaker.{closed}
use bit_mod_ai_inference_cac.Cache.Answers.{
  specified_all, perform_all, answers, Call, store, invalidate, perform_all-refines,
}

abbrev question_text : Text
question_text = codes "Capital of France?"

abbrev setting : Setting ℕ
setting = record {
  sha256 = λ t. t;
  context_hash = λ ms. [];
  session_id = λ ms. codes "s";
  decrypt = λ t. t;
  is_encrypted = λ t. false;
  similarity = λ a b. min a b;
  unit = 100;
  two_places = λ c. [];
  has_embedder = false;
  max_scan = 100;
  semantic_threshold = 92;
  promotion_enabled = false;
  max_daily_verifications = 0;
}

abbrev asking : Text → Request ℕ
asking message = record {
  now = 50;
  today = 1;
  user_message = message;
  messages = message ∷ [];
  namespace_id = none;
  database_raises = false;
  search_raises = false;
  query_embedding = none;
  sub_queries = none;
  fuzzy_hits = [];
  fact_matches = none;
  verified = true;
}

abbrev stored_answer : Row Text Text
stored_answer = record {
  id = codes "a";
  answer_key = codes "capital france";
  answer_text = codes "Paris";
  source_sections = [];
  temporal_scope = none;
  namespace_id = none;
  max_age_seconds = none;
  created_at = at 10;
  is_valid = true;
  serve_count = 0;
  last_served_at = none;
  invalidated_at = none;
  invalidation_reason = none;
}

abbrev proxy : Proxy ℕ
proxy = record {
  db = record { rows = stored_answer ∷ []; embeddings = []; sections = [] };
  links = [];
  namespaces = [];
  tracker = record { heap = []; sessions = []; max_sessions = 9; instance_salt = [] };
  db_circuit = record {
    failure_threshold = 3;
    recovery_timeout = 30;
    half_open_max = 1;
    state = closed;
    failure_count = 0;
    half_open_calls = 0;
    opened_at = 0;
  };
  embed_circuit = record {
    failure_threshold = 3;
    recovery_timeout = 30;
    half_open_max = 1;
    state = closed;
    failure_count = 0;
    half_open_calls = 0;
    opened_at = 0;
  };
  promotion_count = 0;
  promotion_date = 0;
}

run_cache_pipeline-Served_example :
    ((is_blank (strip question_text) ≡ true) ⊎ (10000 < length question_text)
      → run_cache_pipeline text_discrete setting (asking question_text) proxy ≡ (proxy, rejected))
    × ((run_cache_pipeline text_discrete setting (asking question_text) proxy).1.hit ≡ true
        → Served text_discrete setting
            (asking question_text)
            proxy
            (run_cache_pipeline text_discrete setting (asking question_text) proxy).1)
run_cache_pipeline-Served_example =
    run_cache_pipeline-Served text_discrete setting (asking question_text) proxy

served_exactly :
    (run_cache_pipeline text_discrete setting (asking question_text) proxy).1.answer_text
    ≡ codes "Paris"
unfolding run_cache_pipeline text_discrete ℕ_discrete cache_lookup join parts is_expired
    is_temporal_query double_verify
served_exactly = refl

refused :
    (run_cache_pipeline text_discrete setting (asking (codes "  ")) proxy).1.trace ≡ rejected.trace
unfolding run_cache_pipeline
refused = refl

-- Another question is generated, with no context.
generated :
    (run_cache_pipeline text_discrete setting
      (asking (codes "Capital of Peru?"))
      proxy).1.fuzzy_context
    ≡ none
unfolding run_cache_pipeline text_discrete ℕ_discrete cache_lookup join parts
generated = refl

abbrev gathering : State ℕ
gathering = record { proxy = proxy; gathered = no_evidence; trace = [] }

decide-fuzzy_example :
    let s' = record gathering {
      gathered =
          fuzzy_and_partial text_discrete setting
            (asking question_text)
            (codes "France")
            (codes "A country.")
            stored_answer
            stored_answer
            stored_answer;
    } in
    let after = (decide text_discrete setting (asking question_text) (s', 0)).1 in
    (after.hit ≡ true) × (after.answer_text ≡ codes "Paris")
decide-fuzzy_example =
    decide-fuzzy text_discrete setting (asking question_text) (codes "France") (codes "A country.")
      stored_answer stored_answer stored_answer gathering 0 refl refl refl

-- A store, an invalidation and a second store under one key, seen as a map.
abbrev calls : List (Call Text Text)
calls =
    store 50 (record stored_answer { id = codes "bb" })
    ∷ invalidate 60 (codes "bb") ttl_expired
    ∷ store 70 (record stored_answer { id = codes "ccc" })
    ∷ []

abbrev any_source : Text → List (Source Text) → Bool
any_source section_id sources = true

perform_all-refines_example :
    Distinct (perform_all text_discrete any_source calls proxy.db).0.rows
    × (answers text_discrete (perform_all text_discrete any_source calls proxy.db).0
        ≡ specified_all text_discrete any_source calls
            (perform_all text_discrete any_source calls proxy.db).1
            (answers text_discrete proxy.db))
perform_all-refines_example = perform_all-refines text_discrete any_source calls proxy.db (tt, tt)

replaced :
    answers text_discrete
      (perform_all text_discrete any_source calls proxy.db).0
      stored_answer.answer_key
    ≡ some (inserted 70 (record stored_answer { id = codes "ccc" }))
unfolding answers perform_all text_discrete ℕ_discrete
replaced = refl

abbrev response : Response ℕ
response = record {
  id = codes "bb";
  user_message = codes "Capital of Peru?";
  answer_text = codes "Lima";
  norm = codes "capital peru";
  answer_key = codes "capital peru";
  temporal_scope = none;
  namespace_id = none;
  evidence = some no_evidence;
  session_id = some (codes "s");
  embedding = some 7;
  decomposed = some [];
}

abbrev memory : Memory ℕ
memory = record {
  cache = (3, proxy.db);
  facts = (0, record { facts = []; embeddings = [] });
  links = (0, []);
  tracker = proxy.tracker;
}

abbrev one_value : Row Text Text → ℕ
one_value q = 1

abbrev nothing : Text → Option ℕ
nothing t = none

abbrev codes_of : ℕ → Text
codes_of n = n ∷ []

no_bb : select_one (has_id text_discrete (codes "bb")) memory.cache.1.rows ≡ none
unfolding text_discrete ℕ_discrete
no_bb = refl

store_response-try_cache_example :
    (m' : Memory ℕ) × (store_response text_discrete
        (λ t. t)
        one_value
        setting.similarity
        100
        nothing
        codes_of
        60
        5
        100
        response
        memory
      ≡ some m')
    × ((try_cache text_discrete 900 (λ t. t) m'.cache.1 response.answer_key).1
        ≡ some (record (inserted 60 (response_row response)) { answer_text = codes "Lima" }))
    × (length m'.facts.1.facts ≤ 0 + 10)
store_response-try_cache_example =
    store_response-try_cache text_discrete (λ t. t) one_value setting.similarity 100 nothing
      codes_of 60 5 100 response memory 900 (λ t. t) (tt, tt) no_bb (λ h. absurd (omega arith))
