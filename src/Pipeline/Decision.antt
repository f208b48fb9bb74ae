-- ===== src/Pipeline/Decision.antt =====
-- core/bitmod/proxy/base.py: the decision at the end of `_run_cache_pipeline`, and the pipeline as a whole.
use bit_mod_ai_inference_cac.Queries.{normalize_query}
use bit_mod_ai_inference_cac.Strings.{Text}
use bit_mod_ai_inference_cac.Session.{record_at}
use bit_mod_ai_inference_cac.Strings.{is_blank, strip}
use bit_mod_ai_inference_cac.Pipeline.Context.{session_layer, fact_layer, link_layer, fuzzy_layer}
use bit_mod_ai_inference_cac.Links.Learning.{reinforce_links}
use bit_mod_ai_inference_cac.Links.{evidence_of}
use bit_mod_ai_inference_cac.Pipeline.{
  add_evidence, too_long, rejected, trace_step, CacheResult, Proxy, State, can_verify_today,
  answer_key_in, Request, Setting, promotion_verify, decision, demoted, promoted, serve,
  generate_with_context, generate, normalization, done,
}
use bit_mod_ai_inference_cac.Prelude.{
  ◌++◌, ltb, ◌&&◌, false, ◌+◌, true, ◌==◌, Bool, length, Option, ℕ, if◌then◌else◌, [], ◌∷◌, none,
  some,
}
use bit_mod_ai_inference_cac.Evidence.{
  plus, add, no_evidence, best_single_answer, lt_confidence, reaches, context_for_llm,
  PipelineEvidence, ratio, CacheEvidence, Layer, minus,
}
use bit_mod_ai_inference_cac.Pipeline.Layers.{
  semantic_layer, composable_layer, exact_layer, Outcome, result, going,
}

-- `CacheEvidence(layer="promotion_verify", confidence=-0.5, answer_text="")`
abbrev pub demotion : CacheEvidence
demotion = record (evidence_of Layer.promotion_verify (ratio 0 1) [] none 0 none) {
  confidence = minus (ratio 50 100);
}

module _ {V : Type 0} (dec : Discrete Text) (e : Setting V) (r : Request V) where
  abbrev pub the_key : Text
  the_key = answer_key_in e r dec r.namespace_id

  -- `fuzzy_context`, and the result without a hit.
  abbrev pub generate_context : PipelineEvidence → Option Text
  generate_context p =
      if length p.evidences == 0 then none else some (context_for_llm e.two_places p)

  unfoldable pub generate_result : State V → CacheResult
  unfolding context_for_llm normalize_query answer_key_in
  generate_result s = record {
    hit = false;
    answer_text = [];
    cache_key = [];
    trace =
        s.trace
        ++ (decision, if length s.gathered.evidences == 0 then generate else generate_with_context)
          ∷ [];
    fuzzy_context = generate_context s.gathered;
    norm = normalize_query r.user_message;
    answer_key = the_key;
    gathered = some s.gathered;
  }

  -- The check of the best answer by the language model, and whether the answer is demoted: whether it is `wanted`, whether
  -- the day's cap leaves one, and its outcome; `checked` is the proxy after the cap is looked at.
  unfoldable pub promotion : Bool → Bool → Bool → Proxy V → State V → State V × Bool
  unfolding add
  promotion wanted allowed verified checked s =
      let s' = record s { proxy = checked } in
      let counted = record s {
        proxy = record checked { promotion_count = checked.promotion_count + 1 };
      } in
      if wanted
      then if allowed
        then if verified
          then (trace_step promotion_verify promoted counted, false)
          else (add_evidence demotion (trace_step promotion_verify demoted counted), true)
        else (s', false)
      else (s, false)

  unfoldable pub promote : CacheEvidence → State V → State V × Bool
  unfolding can_verify_today lt_confidence promotion
  promote best s =
      let asked = can_verify_today e r.today s.proxy in
      promotion (e.promotion_enabled && lt_confidence best.confidence (plus (ratio 1 1))) asked.1
        r.verified asked.0 s

  -- The answer that can be served: not empty, and no longer encrypted.
  unfoldable pub servable : Text → Text
  servable answer_text =
      if is_blank answer_text
      then []
      else if e.is_encrypted answer_text
      then (if e.is_encrypted (e.decrypt answer_text) then [] else e.decrypt answer_text)
      else answer_text

  abbrev pub served_result : CacheEvidence → State V → CacheResult
  served_result best s = record {
    hit = true;
    answer_text = servable best.answer_text;
    cache_key = the_key;
    trace = s.trace;
    fuzzy_context = none;
    norm = [];
    answer_key = [];
    gathered = some s.gathered;
  }

  -- The links that contributed are reinforced and the exchange is recorded, then the answer is looked at.
  unfoldable pub serve_answer : CacheEvidence → ℕ → State V → Proxy V × CacheResult
  unfolding reinforce_links record_at servable generate_result
  serve_answer best session_ref s =
      let s' = trace_step decision serve s in
      let p = record s'.proxy {
        links = reinforce_links dec s'.gathered s'.proxy.links;
        tracker = record_at session_ref r.user_message best.answer_text the_key s'.proxy.tracker;
      } in
      (
        p,
        if is_blank (servable best.answer_text) then generate_result s' else served_result best s',
      )

  abbrev pub decide_promoted : CacheEvidence → ℕ → State V × Bool → Proxy V × CacheResult
  decide_promoted best session_ref (s, true) = (s.proxy, generate_result s)
  decide_promoted best session_ref (s, false) = serve_answer best session_ref s

  abbrev pub decide_best : Option CacheEvidence → ℕ → State V → Proxy V × CacheResult
  decide_best none session_ref s = (s.proxy, generate_result s)
  decide_best (some best) session_ref s = decide_promoted best session_ref (promote best s)

  -- `serve_threshold` is 0.95.
  unfoldable pub decide : State V × ℕ → Proxy V × CacheResult
  unfolding reaches best_single_answer promote serve_answer generate_result
  decide (s, session_ref) =
      if reaches 95 s.gathered.total_confidence
      then decide_best (best_single_answer s.gathered) session_ref s
      else (s.proxy, generate_result s)

  -- The layers behind the composable one, and the decision.
  unfoldable pub gather_context : State V → State V × ℕ
  unfolding fuzzy_layer link_layer fact_layer session_layer
  gather_context s =
      session_layer dec e r (fact_layer dec e r (link_layer dec e r (fuzzy_layer dec e r s)))

  abbrev pub then_decide : Outcome V → Proxy V × CacheResult
  then_decide (result p c) = (p, c)
  then_decide (going s) = decide (gather_context s)

  abbrev pub then_search : Outcome V → Proxy V × CacheResult
  then_search (result p c) = (p, c)
  then_search (going s) = then_decide (composable_layer dec e r (semantic_layer dec e r s))

  abbrev pub started : Proxy V → State V
  started p = record { proxy = p; gathered = no_evidence; trace = (normalization, done) ∷ [] }

  -- An empty message, one of spaces and one of more than 10,000 characters are refused.
  unfoldable pub run_cache_pipeline : Proxy V → Proxy V × CacheResult
  unfolding strip exact_layer semantic_layer composable_layer gather_context decide
  run_cache_pipeline p =
      if is_blank (strip r.user_message)
      then (p, rejected)
      else if ltb too_long (length r.user_message)
      then (p, rejected)
      else then_search (exact_layer dec e r (started p))
