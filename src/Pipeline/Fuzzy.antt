-- ===== src/Pipeline/Fuzzy.antt =====
-- core/bitmod/proxy/base.py: what the fuzzy matches, which the code calls context only, come to in the decision.
use mathlib.Core.Path.{subst}
use bit_mod_ai_inference_cac.Pipeline.Layers.{partial_evidence}
use bit_mod_ai_inference_cac.Links.{evidence_of}
use bit_mod_ai_inference_cac.Pipeline.{can_verify_today, State, Request, Setting}
use bit_mod_ai_inference_cac.Strings.{is_blank, Text}
use bit_mod_ai_inference_cac.Pipeline.Decision.{
  decide_promoted, promotion, serve_answer, servable, promote, decide,
}
use bit_mod_ai_inference_cac.Cache.{Row}
use bit_mod_ai_inference_cac.Evidence.{
  plus, lt_confidence, CacheEvidence, no_evidence, ratio, add, PipelineEvidence, Layer,
}
use bit_mod_ai_inference_cac.Prelude.{◌&&◌, ap, sym, refl, true, false, ◌≡◌, ℕ, none, some}

module _ {V : Type 0} (dec : Discrete Text) (e : Setting V) (r : Request V) where
  -- The evidence of one sub-query that has an answer, and of three fuzzy matches.
  abbrev pub fuzzy_and_partial :
      Text → Text → Row Text Text → Row Text Text → Row Text Text → PipelineEvidence
  fuzzy_and_partial topic answer a b c =
      add (evidence_of Layer.fuzzy (ratio 40 100) c.answer_text (some c.id) 0 none) (
        add (evidence_of Layer.fuzzy (ratio 40 100) b.answer_text (some b.id) 0 none) (
          add (evidence_of Layer.fuzzy (ratio 40 100) a.answer_text (some a.id) 0 none)
            (add (partial_evidence Layer.composable (ratio 85 100) answer topic) no_evidence)))

  promote-off :
      (best : CacheEvidence) (s : State V)
      → e.promotion_enabled ≡ false
      → promote dec e r best s ≡ (s, false)
  unfolding promote promotion
  promote-off best s off =
      let asked = can_verify_today e r.today s.proxy in
      ap
        (λ b.
          promotion dec e r (b && lt_confidence best.confidence (plus (ratio 1 1))) asked.1
            r.verified asked.0 s)
        off

  servable_lem : (t : Text) → is_blank t ≡ false → e.is_encrypted t ≡ false → servable dec e r t ≡ t
  unfolding servable
  servable_lem t filled plain = rw (filled, plain) refl

  serve_answer_lem :
      (best : CacheEvidence) (ref : ℕ) (s : State V)
      → is_blank best.answer_text ≡ false
      → servable dec e r best.answer_text ≡ best.answer_text
      → ((serve_answer dec e r best ref s).1.hit ≡ true)
        × ((serve_answer dec e r best ref s).1.answer_text ≡ best.answer_text)
  unfolding serve_answer
  serve_answer_lem best ref s filled same = rw (same, filled) (refl, refl)

  -- Without promotion, with one answered sub-query and three fuzzy matches as all the evidence, the decision is a hit, and
  -- what it serves is the first fuzzy match, of confidence 0.40, if its text is not empty and not encrypted: a fuzzy match
  -- is served directly.
  pub decide-fuzzy :
      (topic answer : Text) (a b c : Row Text Text) (s : State V) (session_ref : ℕ)
      → e.promotion_enabled ≡ false
      → is_blank a.answer_text ≡ false
      → e.is_encrypted a.answer_text ≡ false
      → let s' = record s { gathered = fuzzy_and_partial topic answer a b c } in
        let after = (decide dec e r (s', session_ref)).1 in
        (after.hit ≡ true) × (after.answer_text ≡ a.answer_text)
  unfolding decide add
  decide-fuzzy topic answer a b c s session_ref off filled plain =
      let s' = record s { gathered = fuzzy_and_partial topic answer a b c } in
      let best = evidence_of Layer.fuzzy (ratio 40 100) a.answer_text (some a.id) 0 none in
      subst
        (λ q.
          ((decide_promoted dec e r best session_ref q).1.hit ≡ true)
          × ((decide_promoted dec e r best session_ref q).1.answer_text ≡ a.answer_text))
        (sym (promote-off best s' off))
        (serve_answer_lem best session_ref s' filled (servable_lem a.answer_text filled plain))
