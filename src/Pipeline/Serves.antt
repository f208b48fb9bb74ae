-- ===== src/Pipeline/Serves.antt =====
-- core/bitmod/proxy/base.py: when `_run_cache_pipeline` serves from the cache.
use bit_mod_ai_inference_cac.Breaker.{track_success, track_failure, can_execute}
use bit_mod_ai_inference_cac.Pipeline.Decides.{ServedBest, decide-ServedBest}
use bit_mod_ai_inference_cac.Strings.{strip, Text}
use bit_mod_ai_inference_cac.Strings.{is_blank}
use bit_mod_ai_inference_cac.Cache.Semantic.{try_composable_cache, Composed}
use bit_mod_ai_inference_cac.Pipeline.Decision.{
  started, gather_context, then_search, then_decide, run_cache_pipeline,
}
use bit_mod_ai_inference_cac.Pipeline.{
  too_long, rejected, add_all, is_qualified, State, CacheResult, Proxy, Request, Setting,
}
use bit_mod_ai_inference_cac.Pipeline.Layers.{
  lookup_exact, semantic_layer, composable_evidence, going, composed_outcome, serve_exact, result,
  composable_layer, serve_composed, exact_layer, Outcome, combined, Hits, find_exact,
}
use bit_mod_ai_inference_cac.Cache.{Row, Db}
use bit_mod_ai_inference_cac.Prelude.{
  if◌then◌else◌, ltb, length, ◌<◌, ◌⊎◌, refl, inr, arith, inl, Bool-cases, true, false, Bool, ◌≡◌,
  Option, none, some,
}

module _ {V : Type 0} (dec : Discrete Text) (e : Setting V) (r : Request V) where
  -- By the exact lookup: what it finds under the key, where the circuit of the database admits it, the database
  -- does not raise, and the query needs no context.
  pub record ServedExact (p : Proxy V) (c : CacheResult) : Type 0 where
    pub cached : Row Text Text
    pub admitted : (can_execute r.now p.db_circuit).1 ≡ true
    pub returned : r.database_raises ≡ false
    pub found : (lookup_exact dec e r p).1 ≡ some cached
    pub qualified : is_qualified e r cached.answer_text ≡ true
    pub text : c.answer_text ≡ cached.answer_text
    pub key : c.cache_key ≡ cached.answer_key

  -- By the sub-queries: the answers to all of them, under their headings.
  pub record ServedComposed (c : CacheResult) : Type 0 where
    pub hits : Hits dec e r
    pub db : Db Text Text V
    pub partial : Bool
    pub found :
        (composed : Composed Text Text V) × (composed.hits ≡ hits)
        × ((try_composable_cache dec r.now e.decrypt e.similarity e.semantic_threshold e.max_scan
              r.namespace_id r.sub_queries db).1
            ≡ some (composed, (partial, true)))
    pub qualified : is_qualified e r (combined dec e r hits) ≡ true
    pub text : c.answer_text ≡ combined dec e r hits
    pub filled : is_blank c.answer_text ≡ false

  -- Of an outcome: its result, where it has one.
  abbrev Fits : (CacheResult → Type 0) → Outcome V → Type 0
  Fits P (result p c) = P c
  Fits P (going s) = Unit

  find_exact-found :
      (p : Proxy V) (cached : Row Text Text)
      → (find_exact dec e r p).1 ≡ some cached
      → ((can_execute r.now p.db_circuit).1 ≡ true)
        × (r.database_raises ≡ false)
        × ((lookup_exact dec e r p).1 ≡ some cached)
  unfolding find_exact
  find_exact-found p cached =
      cases (can_execute r.now p.db_circuit).1 r.database_raises
        (record p { db_circuit = track_failure r.now (can_execute r.now p.db_circuit).0 })
        (record p { db_circuit = (can_execute r.now p.db_circuit).0 })
        (record p {
          db = (lookup_exact dec e r p).0;
          db_circuit = track_success r.now (can_execute r.now p.db_circuit).0;
        })
    where
      cases :
          (asked raises : Bool) (failed refused succeeded : Proxy V)
          → let next : Proxy V × Option (Row Text Text) =
              if asked
              then if raises then (failed, none) else (succeeded, (lookup_exact dec e r p).1)
              else (refused, none) in
            next.1 ≡ some cached
            → (asked ≡ true) × (raises ≡ false) × ((lookup_exact dec e r p).1 ≡ some cached)
      cases true true failed refused succeeded h = absurd (ground arith)
      cases true false failed refused succeeded h = (refl, refl, h)
      cases false raises failed refused succeeded h = absurd (ground arith)

  exact_layer-Fits : (s : State V) → Fits (ServedExact s.proxy) (exact_layer dec e r s)
  unfolding exact_layer
  exact_layer-Fits s =
      served (find_exact dec e r s.proxy).1 (record s { proxy = (find_exact dec e r s.proxy).0 })
        refl
    where
      served :
          (o : Option (Row Text Text)) (s' : State V)
          → (find_exact dec e r s.proxy).1 ≡ o
          → Fits (ServedExact s.proxy) (serve_exact dec e r s' o)
      served none s' h = tt
      served (some cached) s' h = elim (Bool-cases (is_qualified e r cached.answer_text)) [
        | inl q ↦
            let (admitted, returned, found) = find_exact-found s.proxy cached h in
            rw q (record {
              cached = cached;
              admitted = admitted;
              returned = returned;
              found = found;
              qualified = q;
              text = refl;
              key = refl;
            })
        | inr q ↦ rw q tt
      ]

  serve_composed-Fits :
      (s : State V) (db : Db Text Text V) (c : Composed Text Text V) (partial full : Bool)
      → (try_composable_cache dec r.now e.decrypt e.similarity e.semantic_threshold e.max_scan
          r.namespace_id r.sub_queries db).1
        ≡ some (c, (partial, full))
      → Fits ServedComposed (serve_composed dec e r s c.hits partial full)
  serve_composed-Fits s db c partial false h = tt
  serve_composed-Fits s db c partial true h =
      elim (Bool-cases (is_qualified e r (combined dec e r c.hits))) [
        | inr q ↦ rw q tt
        | inl q ↦ elim (Bool-cases (is_blank (combined dec e r c.hits))) [
          | inl b ↦ rw (q, b) tt
          | inr b ↦
              rw (q, b)
                (record {
                  hits = c.hits;
                  db = db;
                  partial = partial;
                  found = (c, refl, h);
                  qualified = q;
                  text = refl;
                  filled = b;
                })
        ]
      ]

  composable_layer-Fits : (s : State V) → Fits ServedComposed (composable_layer dec e r s)
  unfolding composable_layer
  composable_layer-Fits s =
      let found =
        try_composable_cache dec r.now e.decrypt e.similarity e.semantic_threshold e.max_scan
          r.namespace_id r.sub_queries s.proxy.db in
      composed found.1 (record s { proxy = record s.proxy { db = found.0 } }) refl
    where
      composed :
          (o : Option (Composed Text Text V × (Bool × Bool))) (s' : State V)
          → (try_composable_cache dec r.now e.decrypt e.similarity e.semantic_threshold e.max_scan
              r.namespace_id r.sub_queries s.proxy.db).1
            ≡ o
          → Fits ServedComposed (composed_outcome dec e r s' o)
      composed none s' h = tt
      composed (some (c, (partial, full))) s' h =
          serve_composed-Fits (add_all (composable_evidence dec e r c.hits) s') s.proxy.db c partial
            full h

  -- Where a result that is a hit comes from.
  abbrev pub Served : Proxy V → CacheResult → Type 0
  Served p c = ServedExact p c ⊎ (ServedComposed c ⊎ ServedBest dec e r c)

  then_decide-Served :
      (p : Proxy V) (o : Outcome V)
      → Fits ServedComposed o
      → (then_decide dec e r o).1.hit ≡ true
      → Served p (then_decide dec e r o).1
  then_decide-Served p (result p' c) f h = inr (inl f)
  then_decide-Served p (going s) f h =
      inr (inr (decide-ServedBest dec e r (gather_context dec e r s) h))

  then_search-Served :
      (p : Proxy V) (o : Outcome V)
      → Fits (ServedExact p) o
      → (then_search dec e r o).1.hit ≡ true
      → Served p (then_search dec e r o).1
  then_search-Served p (result p' c) f h = inl f
  then_search-Served p (going s) f h =
      then_decide-Served p (composable_layer dec e r (semantic_layer dec e r s))
        (composable_layer-Fits (semantic_layer dec e r s)) h

  -- A message that is empty, of spaces only or of more than 10,000 characters is refused, and nothing
  -- is changed. A hit is one of three: the answer that the exact lookup finds, for a query that needs
  -- no context, where the circuit of the database admits the lookup and the database does not raise;
  -- the answers to all sub-queries under their headings, for such a query too; or the text of the best
  -- single piece of the evidence, decrypted and not empty, where the total confidence reaches 0.95.
  pub run_cache_pipeline-Served :
      (p : Proxy V)
      → ((is_blank (strip r.user_message) ≡ true) ⊎ (10000 < length r.user_message)
          → run_cache_pipeline dec e r p ≡ (p, rejected))
        × ((run_cache_pipeline dec e r p).1.hit ≡ true → Served p (run_cache_pipeline dec e r p).1)
  unfolding run_cache_pipeline
  run_cache_pipeline-Served p = elim (Bool-cases (is_blank (strip r.user_message))) [
    | inl b ↦ rw b ((λ h. refl), (λ h. absurd (ground arith)))
    | inr b ↦ elim (Bool-cases (ltb too_long (length r.user_message))) [
      | inl l ↦ rw (b, l) ((λ h. refl), (λ h. absurd (ground arith)))
      | inr l ↦
          rw (b, l)
            (
              (λ h. elim h [
                | inl q ↦ absurd (ground arith)
                | inr q ↦ absurd (ground (arith, b, l))
              ]),
              then_search-Served p (exact_layer dec e r (started dec e r p))
                  (exact_layer-Fits (started dec e r p)),
            )
    ]
  ]
