-- ===== src/Router/Generate.antt =====
-- What `generate` of core/bitmod/router.py returns or raises, and what it leaves in the breakers.
use bit_mod_ai_inference_cac.Prelude.{
  ℕ, ◌+◌, ◌≤◌, ◌<◌, ◌≡◌, refl, ◌⊎◌, inl, inr, List, [], Bool, true, false, if◌then◌else◌, Option,
  none, some, arith, length, Option-cases,
}
use bit_mod_ai_inference_cac.Breaker.{can_execute}
use bit_mod_ai_inference_cac.Breaker.Trip.{track}
use bit_mod_ai_inference_cac.Router.{
  Outcome, returns, raises, provider_error, circuit_open, all_failed, Result, ok, err, LlmRouter,
  ask_primary, fallback_succeeded, fallback_failed, primary_phase, fallback_phase, generate,
}
use bit_mod_ai_inference_cac.Router.Calls.{
  try_primary-ticks, is_failure, KeepsFallback, log, length-log-le, try_primary-KeepsFallback,
  try_primary-calls, try_primary-track, try_primary-first, try_primary-none, try_primary_sound,
}

-- What the fallback answers, if its circuit's decision is `allowed` and it has had `k` calls.
abbrev pub fallback_answer {ℓ} : {A E : Type ℓ} → Option (ℕ → Outcome A E) → Bool → ℕ → Result A E
fallback_answer none allowed k = err all_failed
fallback_answer (some provider) false k = err circuit_open
fallback_answer (some provider) true k = elim (provider k) [
  | returns a ↦ ok a
  | raises e ↦ err (provider_error e)
]

module _ {ℓ} {A E : Type ℓ} (clock : ℕ → ℕ) (primary : ℕ → Outcome A E)
    (fallback : Option (ℕ → Outcome A E)) where
  -- The primary's circuit refuses, or all its attempts raise.
  abbrev pub Unavailable : LlmRouter → Type 0
  Unavailable r =
      ((can_execute (clock r.ticks) r.primary_cb).1 ≡ false)
      ⊎ ((j : ℕ) → j < r.max_retries → is_failure (primary (r.primary_calls + j)) ≡ true)

  fallback_phase_lem :
      (fb : Option (ℕ → Outcome A E)) (r : LlmRouter)
      → ((fallback_phase clock primary fb r).1
          ≡ fallback_answer fb (can_execute (clock r.ticks) r.fallback_cb).1 r.fallback_calls)
        × ((fallback_phase clock primary fb r).0.primary_cb ≡ r.primary_cb)
        × ((fallback_phase clock primary fb r).0.primary_calls ≡ r.primary_calls)
        × (r.fallback_calls ≤ (fallback_phase clock primary fb r).0.fallback_calls)
        × ((fallback_phase clock primary fb r).0.fallback_calls ≤ r.fallback_calls + 1)
  unfolding fallback_phase fallback_succeeded fallback_failed
  fallback_phase_lem none r = ground arith
  fallback_phase_lem (some p) r = ground arith

  -- The primary's calls that `generate` makes, with the readings and the outcomes that it tracks.
  abbrev pub calls_made : LlmRouter → List (ℕ × Bool)
  calls_made r =
      if (can_execute (clock r.ticks) r.primary_cb).1
      then log clock primary r.max_retries r.primary_calls (r.ticks + 1)
      else []

  primary_phase-KeepsFallback : (r : LlmRouter) → KeepsFallback r (primary_phase clock primary r).0
  unfolding primary_phase
  primary_phase-KeepsFallback r =
      ground (arith, try_primary-KeepsFallback clock primary r.max_retries (ask_primary clock r).0)

  primary_phase-track :
      (r : LlmRouter)
      → ((primary_phase clock primary r).0.primary_cb
          ≡ track (calls_made r) (can_execute (clock r.ticks) r.primary_cb).0)
        × ((primary_phase clock primary r).0.primary_calls
            ≡ r.primary_calls + length (calls_made r))
        × (length (calls_made r) ≤ r.max_retries)
  unfolding primary_phase track
  primary_phase-track r =
      let r1 : LlmRouter = (ask_primary clock r).0 in
      ground (
        arith,
        try_primary-track clock primary r.max_retries r1,
        try_primary-calls clock primary r.max_retries r1,
        length-log-le clock primary r.max_retries r.primary_calls (r.ticks + 1),
      )

  primary_phase-ticks :
      (r : LlmRouter)
      → (primary_phase clock primary r).0.ticks ≡ r.ticks + 1 + length (calls_made r)
  unfolding primary_phase
  primary_phase-ticks r =
      ground (arith, try_primary-ticks clock primary r.max_retries (ask_primary clock r).0)

  primary_phase-none : (r : LlmRouter) → Unavailable r → (primary_phase clock primary r).1 ≡ none
  unfolding primary_phase
  primary_phase-none r (inl c) = ground arith
  primary_phase-none r (inr f) =
      ground (arith, try_primary-none clock primary r.max_retries (ask_primary clock r).0 f)

  primary_phase_sound :
      (r : LlmRouter) (a : A)
      → (primary_phase clock primary r).1 ≡ some a
      → (i : ℕ) × (i < r.max_retries) × (primary (r.primary_calls + i) ≡ returns a)
  unfolding primary_phase
  primary_phase_sound r a h =
      try_primary_sound clock primary r.max_retries (ask_primary clock r).0 a (ground arith)

  fallback_answer_sound :
      (fb : Option (ℕ → Outcome A E)) (b : Bool) (k : ℕ) (a : A)
      → fallback_answer fb b k ≡ ok a
      → (provider : ℕ → Outcome A E) × (fb ≡ some provider) × (provider k ≡ returns a)
  fallback_answer_sound none b k a h = cc
  fallback_answer_sound (some p) false k a h = cc
  fallback_answer_sound (some p) true k a h = (p, refl, ground arith)

  -- If the primary's circuit admits the request and call `i` of its attempts is the first that
  -- returns, `generate` returns that result after just those calls, and the fallback is not used.
  pub generate-first :
      (r : LlmRouter) (i : ℕ) (a : A)
      → (can_execute (clock r.ticks) r.primary_cb).1 ≡ true
      → i < r.max_retries
      → ((j : ℕ) → j < i → is_failure (primary (r.primary_calls + j)) ≡ true)
      → primary (r.primary_calls + i) ≡ returns a
      → ((generate clock primary fallback r).1 ≡ ok a)
        × ((generate clock primary fallback r).0.primary_calls ≡ r.primary_calls + i + 1)
        × KeepsFallback r (generate clock primary fallback r).0
  unfolding generate primary_phase
  generate-first r i a c h f p =
      let r1 : LlmRouter = (ask_primary clock r).0 in
      ground (
        arith,
        try_primary-first clock primary r.max_retries i r1 a h f p,
        try_primary-KeepsFallback clock primary r.max_retries r1,
      )

  -- If the primary's circuit refuses or all its attempts raise, `generate` answers what the fallback
  -- answers. The fallback's circuit is asked at the reading of the clock that follows the one for the
  -- primary's circuit and one for each call of the primary that was made.
  pub generate-failover :
      (r : LlmRouter)
      → Unavailable r
      → (generate clock primary fallback r).1
        ≡ fallback_answer fallback
            (can_execute (clock (r.ticks + 1 + length (calls_made r))) r.fallback_cb).1
            r.fallback_calls
  unfolding generate
  generate-failover r u =
      let r' : LlmRouter = (primary_phase clock primary r).0 in
      let kept = primary_phase-KeepsFallback r in
      let answered = (fallback_phase_lem fallback r').0 in
      rw (primary_phase-none r u)
        (rw (primary_phase-ticks r, kept.same_cb, kept.same_calls) at answered)

  -- A result that `generate` returns is that of one of the primary's attempts or of the fallback.
  pub generate_sound :
      (r : LlmRouter) (a : A)
      → (generate clock primary fallback r).1 ≡ ok a
      → ((i : ℕ) × (i < r.max_retries) × (primary (r.primary_calls + i) ≡ returns a))
        ⊎ ((provider : ℕ → Outcome A E) × (fallback ≡ some provider)
            × (provider r.fallback_calls ≡ returns a))
  unfolding generate
  generate_sound r a h =
      let r' : LlmRouter = (primary_phase clock primary r).0 in
      let b : Bool = (can_execute (clock r'.ticks) r'.fallback_cb).1 in
      elim (Option-cases (primary_phase clock primary r).1) [
        | inl e ↦
            let kept = primary_phase-KeepsFallback r in
            let (p, q, w) =
              fallback_answer_sound fallback b r'.fallback_calls a
                (ground (arith, fallback_phase_lem fallback r')) in
            inr (p, q, ground arith)
        | inr (b, e) ↦ inl (primary_phase_sound r a (ground arith))
      ]

  -- The primary is called at most `max_retries` times, and never if its circuit refuses; each call
  -- is tracked in its breaker, in order; the fallback is called at most once.
  pub generate-track :
      (r : LlmRouter)
      → let r' = (generate clock primary fallback r).0 in
        (r'.primary_cb ≡ track (calls_made r) (can_execute (clock r.ticks) r.primary_cb).0)
        × (r'.primary_calls ≡ r.primary_calls + length (calls_made r))
        × (length (calls_made r) ≤ r.max_retries)
        × (r'.fallback_calls ≤ r.fallback_calls + 1)
  unfolding generate
  generate-track r = ground (
    arith,
    primary_phase-track r,
    primary_phase-KeepsFallback r,
    fallback_phase_lem fallback (primary_phase clock primary r).0,
  )
