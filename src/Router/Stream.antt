-- ===== src/Router/Stream.antt =====
-- core/bitmod/router.py: `LLMRouter.stream`. What a provider's stream does is the list of tokens
-- that it yields, and then its exception, if it raises one. The tokens that the method has yielded so
-- far, over all of its calls, are passed from each call to the next; `yielded` of the source is that
-- there are any. A consumer that abandons the stream is left out.
use bit_mod_ai_inference_cac.Prelude.{
  ◌++◌, ℕ, zero, suc, ◌+◌, ◌≤◌, ◌<◌, ◌≡◌, refl, ◌⊎◌, inl, inr, List, [], ◌∷◌, Bool, true, false,
  if◌then◌else◌, Option, none, some, arith, Bool-cases, Option-cases,
}
use bit_mod_ai_inference_cac.Router.{
  RouterError, provider_error, circuit_open, all_failed, LlmRouter, ask_primary, ask_fallback,
  primary_succeeded, primary_failed, fallback_succeeded, fallback_failed,
}

pub record Call {ℓ} (T E : Type ℓ) : Type ℓ where
  pub tokens : List T
  pub raised : Option E

pub record Streamed {ℓ} (T E : Type ℓ) : Type ℓ where
  pub yielded : List T
  pub error : Option (RouterError E)

-- The tokens that have been yielded so far, and whether the method has returned.
pub record Sending {ℓ} (T : Type ℓ) : Type ℓ where
  pub sent : List T
  pub returned : Bool

abbrev pub is_empty {ℓ} : {T : Type ℓ} → List T → Bool
is_empty [] = true
is_empty (t ∷ ts) = false

is_empty_iff {ℓ} : {T : Type ℓ} (ts : List T) → is_empty ts ≡ true → ts ≡ []
is_empty_iff [] h = refl
is_empty_iff (t ∷ ts) h = cc

module _ {ℓ} {T E : Type ℓ} (clock : ℕ → ℕ) (primary : ℕ → Call T E) where
  -- The attempts on the primary, after `sent`. A stream that fails once a token has been yielded
  -- ends the method without an error.
  unfoldable pub try_primary : ℕ → List T → LlmRouter → LlmRouter × Sending T
  try_primary zero sent r = (r, record { sent = sent; returned = false })
  try_primary (suc n) sent r =
      let call = primary r.primary_calls in
      let sent' = sent ++ call.tokens in
      elim call.raised [
        | none ↦ (primary_succeeded clock r, record { sent = sent'; returned = true })
        | some e ↦
            let again = try_primary n sent' (primary_failed clock r) in
            if is_empty sent'
            then again
            else (primary_failed clock r, record { sent = sent'; returned = true })
      ]

  unfoldable pub primary_phase : LlmRouter → LlmRouter × Sending T
  unfolding ask_primary
  primary_phase r =
      let (r', allowed) = ask_primary clock r in
      if allowed
      then try_primary r'.max_retries [] r'
      else (r', record { sent = []; returned = false })

  call_fallback : (ℕ → Call T E) → List T → LlmRouter → LlmRouter × Streamed T E
  call_fallback provider sent r =
      let call = provider r.fallback_calls in
      elim call.raised [
        | none ↦
            (fallback_succeeded clock r, record { yielded = sent ++ call.tokens; error = none })
        | some e ↦ (
          fallback_failed clock r,
          record { yielded = sent ++ call.tokens; error = some (provider_error e) },
        )
      ]

  unfoldable pub fallback_phase :
      Option (ℕ → Call T E) → List T → LlmRouter → LlmRouter × Streamed T E
  unfolding ask_fallback call_fallback
  fallback_phase none sent r = (r, record { yielded = sent; error = some all_failed })
  fallback_phase (some provider) sent r =
      let (r', allowed) = ask_fallback clock r in
      if allowed
      then call_fallback provider sent r'
      else (r', record { yielded = sent; error = some circuit_open })

  finish : Option (ℕ → Call T E) → LlmRouter → List T → Bool → LlmRouter × Streamed T E
  finish fallback r sent true = (r, record { yielded = sent; error = none })
  finish fallback r sent false = fallback_phase fallback sent r

  unfoldable pub stream : Option (ℕ → Call T E) → LlmRouter → LlmRouter × Streamed T E
  unfolding finish
  stream fallback r =
      let (r', phase) = primary_phase r in finish fallback r' phase.sent phase.returned

  -- Attempts that have the method return have yielded the whole of one call, and called no more
  -- after it; if they do not, nothing has been yielded.
  try_primary_sound :
      (n : ℕ) (r : LlmRouter)
      → ((try_primary n [] r).1.returned ≡ true
          → (k : ℕ) × (r.primary_calls ≤ k)
            × (k < r.primary_calls + n)
            × ((primary k).tokens ≡ (try_primary n [] r).1.sent)
            × ((try_primary n [] r).0.primary_calls ≡ k + 1))
        × ((try_primary n [] r).1.returned ≡ false → (try_primary n [] r).1.sent ≡ [])
  unfolding try_primary primary_succeeded primary_failed
  try_primary_sound zero r = (λ h. cc, λ h. refl)
  try_primary_sound (suc n) r = elim (Option-cases (primary r.primary_calls).raised) [
    | inl e ↦ (
      λ h. (r.primary_calls, omega arith, omega arith, ground arith, ground arith),
      λ h. absurd (ground arith),
    )
    | inr (x, e) ↦ elim (Bool-cases (is_empty (primary r.primary_calls).tokens)) [
      | inl silent ↦
          let nothing = is_empty_iff (primary r.primary_calls).tokens silent in
          let (ends, goes_on) = try_primary_sound n (primary_failed clock r) in
          (
            λ h.
                let (k, lo, hi, p, q) = ends (ground arith) in
                (k, omega arith, omega arith, ground arith, ground arith),
            λ h. ground (arith, goes_on),
          )
      | inr spoke ↦ (
        λ h. (r.primary_calls, omega arith, omega arith, ground arith, ground arith),
        λ h. absurd (ground arith),
      )
    ]
  ]

  try_primary_fallback :
      (n : ℕ) (sent : List T) (r : LlmRouter)
      → (try_primary n sent r).0.fallback_calls ≡ r.fallback_calls
  unfolding try_primary primary_succeeded primary_failed
  try_primary_fallback zero sent r = refl
  try_primary_fallback (suc n) sent r = ground (
    arith,
    try_primary_fallback n (sent ++ (primary r.primary_calls).tokens) (primary_failed clock r),
  )

  primary_phase_sound :
      (r : LlmRouter)
      → ((primary_phase r).1.returned ≡ true
          → (k : ℕ) × (r.primary_calls ≤ k)
            × (k < r.primary_calls + r.max_retries)
            × ((primary k).tokens ≡ (primary_phase r).1.sent)
            × ((primary_phase r).0.primary_calls ≡ k + 1))
        × ((primary_phase r).1.returned ≡ false → (primary_phase r).1.sent ≡ [])
  unfolding primary_phase
  primary_phase_sound r = elim (Bool-cases (ask_primary clock r).1) [
    | inl e ↦ rw (e, primary_phase) (try_primary_sound r.max_retries (ask_primary clock r).0)
    | inr e ↦ (λ h. absurd (ground arith), λ h. ground arith)
  ]

  primary_phase_fallback : (r : LlmRouter) → (primary_phase r).0.fallback_calls ≡ r.fallback_calls
  unfolding primary_phase
  primary_phase_fallback r =
      ground (arith, try_primary_fallback r.max_retries [] (ask_primary clock r).0)

  -- The tokens of the fallback's call, or none and the router's own exception.
  fallback_phase_sound :
      (fallback : Option (ℕ → Call T E)) (r : LlmRouter) (k : ℕ)
      → r.fallback_calls ≡ k
      → ((provider : ℕ → Call T E) × (fallback ≡ some provider)
          × ((provider k).tokens ≡ (fallback_phase fallback [] r).1.yielded)
          × ((fallback_phase fallback [] r).0.fallback_calls ≡ k + 1))
        ⊎ (((fallback_phase fallback [] r).1.yielded ≡ [])
            × (((fallback_phase fallback [] r).1.error ≡ some circuit_open)
                ⊎ ((fallback_phase fallback [] r).1.error ≡ some all_failed)))
  unfolding fallback_phase fallback_succeeded fallback_failed
  fallback_phase_sound none r k h = inr (refl, inr refl)
  fallback_phase_sound (some p) r k h = elim (Bool-cases (ask_fallback clock r).1) [
    | inl e ↦ inl (p, refl, ground (arith), ground arith)
    | inr e ↦ inr (ground arith, inl (ground arith))
  ]

  module _ (fallback : Option (ℕ → Call T E)) where
    -- All that `stream` yields, over all of its calls, comes from one of them, never from two: all tokens of the last call that it
    -- made of the primary, the fallback not being called; or all tokens of the fallback's call; or
    -- nothing, and then it raises `CircuitOpenError` or its own `RuntimeError`.
    pub stream_one_source :
        (r : LlmRouter)
        → ((k : ℕ) × (r.primary_calls ≤ k)
            × (k < r.primary_calls + r.max_retries)
            × ((primary k).tokens ≡ (stream fallback r).1.yielded)
            × ((stream fallback r).0.primary_calls ≡ k + 1)
            × ((stream fallback r).0.fallback_calls ≡ r.fallback_calls))
          ⊎ ((provider : ℕ → Call T E) × (fallback ≡ some provider)
              × ((provider r.fallback_calls).tokens ≡ (stream fallback r).1.yielded)
              × ((stream fallback r).0.fallback_calls ≡ r.fallback_calls + 1))
          ⊎ (((stream fallback r).1.yielded ≡ [])
              × (((stream fallback r).1.error ≡ some circuit_open)
                  ⊎ ((stream fallback r).1.error ≡ some all_failed)))
    unfolding stream
    stream_one_source r = elim (Bool-cases (primary_phase r).1.returned) [
      | inl e ↦
          let (k, lo, hi, p, q) = (primary_phase_sound r).0 e in
          let kept = primary_phase_fallback r in
          inl (k, lo, hi, ground arith, ground arith, ground arith)
      | inr e ↦
          rw (e, (primary_phase_sound r).1 e, stream, finish)
            (inr (
              fallback_phase_sound fallback (primary_phase r).0 r.fallback_calls
                (primary_phase_fallback r)))
    ]
