-- ===== src/Pipeline/Decides.antt =====
-- core/bitmod/proxy/base.py: when the decision at the end of `_run_cache_pipeline` serves.
use bit_mod_ai_inference_cac.Evidence.{ratio, plus, lt_confidence, CacheEvidence, PipelineEvidence}
use bit_mod_ai_inference_cac.Strings.{Text}
use mathlib.Core.Path.{subst}
use bit_mod_ai_inference_cac.Strings.{is_blank}
use bit_mod_ai_inference_cac.Evidence.{best_single_answer, reaches}
use bit_mod_ai_inference_cac.Pipeline.Decision.{
  promotion, decide_promoted, decide_best, servable, decide, generate_result, promote, serve_answer,
}
use bit_mod_ai_inference_cac.Pipeline.{
  can_verify_today, serve, decision, trace_step, State, CacheResult, Proxy, Request, Setting,
}
use bit_mod_ai_inference_cac.Prelude.{
  ◌&&◌, ap, if◌then◌else◌, sym, refl, inr, arith, inl, Bool-cases, true, false, ℕ, Bool, ◌≡◌,
  Option, none, some,
}

module _ {V : Type 0} (dec : Discrete Text) (e : Setting V) (r : Request V) where
  -- By the decision: the best single piece of evidence, where the total reaches the threshold.
  pub record ServedBest (c : CacheResult) : Type 0 where
    pub gathered : PipelineEvidence
    pub best : CacheEvidence
    pub shown : c.gathered ≡ some gathered
    pub confident : reaches 95 gathered.total_confidence ≡ true
    pub chosen : best_single_answer gathered ≡ some best
    pub text : c.answer_text ≡ servable dec e r best.answer_text
    pub filled : is_blank c.answer_text ≡ false

  generate_result-miss : (s : State V) → (generate_result dec e r s).hit ≡ false
  unfolding generate_result
  generate_result-miss s = refl

  serve_answer-ServedBest :
      (best : CacheEvidence) (ref : ℕ) (s : State V)
      → reaches 95 s.gathered.total_confidence ≡ true
      → best_single_answer s.gathered ≡ some best
      → (serve_answer dec e r best ref s).1.hit ≡ true
      → ServedBest (serve_answer dec e r best ref s).1
  unfolding serve_answer
  serve_answer-ServedBest best ref s confident chosen h =
      elim (Bool-cases (is_blank (servable dec e r best.answer_text))) [
        | inl b ↦
            absurd (let miss = generate_result-miss (trace_step decision serve s) in ground arith)
        | inr b ↦ rw b (record {
          gathered = s.gathered;
          best = best;
          shown = refl;
          confident = confident;
          chosen = chosen;
          text = refl;
          filled = b;
        })
      ]

  promotion-gathered :
      (wanted allowed verified : Bool) (checked : Proxy V) (s : State V)
      → (promotion dec e r wanted allowed verified checked s).1 ≡ false
      → (promotion dec e r wanted allowed verified checked s).0.gathered ≡ s.gathered
  unfolding promotion
  promotion-gathered true true true checked s h = refl
  promotion-gathered true true false checked s h = absurd (ground arith)
  promotion-gathered true false verified checked s h = refl
  promotion-gathered false allowed verified checked s h = refl

  promote-gathered :
      (best : CacheEvidence) (s : State V)
      → (promote dec e r best s).1 ≡ false
      → (promote dec e r best s).0.gathered ≡ s.gathered
  unfolding promote
  promote-gathered best s h =
      let asked = can_verify_today e r.today s.proxy in
      promotion-gathered (e.promotion_enabled && lt_confidence best.confidence (plus (ratio 1 1)))
        asked.1 r.verified asked.0 s h

  decide_best-ServedBest :
      (o : Option CacheEvidence) (ref : ℕ) (s : State V)
      → reaches 95 s.gathered.total_confidence ≡ true
      → best_single_answer s.gathered ≡ o
      → (decide_best dec e r o ref s).1.hit ≡ true
      → ServedBest (decide_best dec e r o ref s).1
  decide_best-ServedBest none ref s confident chosen h =
      absurd (let miss = generate_result-miss s in ground arith)
  decide_best-ServedBest (some best) ref s confident chosen h =
      promoted (promote dec e r best s) (promote-gathered best s) h
    where
      promoted :
          (q : State V × Bool)
          → (q.1 ≡ false → q.0.gathered ≡ s.gathered)
          → (decide_promoted dec e r best ref q).1.hit ≡ true
          → ServedBest (decide_promoted dec e r best ref q).1
      promoted (s', true) same k = absurd (let miss = generate_result-miss s' in ground arith)
      promoted (s', false) same k =
          serve_answer-ServedBest best ref s'
            (subst (λ g. reaches 95 g.total_confidence ≡ true) (sym (same refl)) confident)
            (subst (λ g. best_single_answer g ≡ some best) (sym (same refl)) chosen) k

  pub decide-ServedBest :
      (q : State V × ℕ) → (decide dec e r q).1.hit ≡ true → ServedBest (decide dec e r q).1
  unfolding decide
  decide-ServedBest (s, ref) h =
      let next = λ (b : Bool).
        let yes_next = decide_best dec e r (best_single_answer s.gathered) ref s in
        let no_next : Proxy V × CacheResult = (s.proxy, generate_result dec e r s) in
        if b then yes_next else no_next in
      elim (Bool-cases (reaches 95 s.gathered.total_confidence)) [
        | inl c ↦
            let step : decide dec e r (s, ref)
                ≡ decide_best dec e r (best_single_answer s.gathered) ref s =
              ap next c in
            subst (λ q. ServedBest q.1) (sym step)
              (decide_best-ServedBest (best_single_answer s.gathered) ref s c refl
                (subst (λ q. q.1.hit ≡ true) step h))
        | inr c ↦
            let step : decide dec e r (s, ref) ≡ (s.proxy, generate_result dec e r s) = ap next c in
            let served = subst (λ q. q.1.hit ≡ true) step h in
            absurd (let miss = generate_result-miss s in ground arith)
      ]
