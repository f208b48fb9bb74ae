-- ===== src/Router.antt =====
-- core/bitmod/router.py: the class `LLMRouter`. The providers are parameters: `primary n` is what
-- the n-th call of the primary does, and `fallback` is absent where the router has none. `clock n`
-- is the n-th reading of `time.monotonic()`; a method that may read it is given a reading in any
-- case. The messages and the options, which are handed on as they are, are left out.
pub mod Calls
pub mod Generate
pub mod Stream
use bit_mod_ai_inference_cac.Prelude.{
  ℕ, zero, suc, ◌+◌, List, [], ◌∷◌, Bool, true, false, if◌then◌else◌, Option, none, some,
}
use bit_mod_ai_inference_cac.Breaker.{CircuitBreaker, can_execute, track_success, track_failure}

-- What `await provider.generate(...)` does.
pub data Outcome {ℓ} (A E : Type ℓ) : Type ℓ where
  returns : A → Outcome A E
  raises : E → Outcome A E

-- The exceptions that leave the router: a provider's own, `CircuitOpenError`, and the
-- `RuntimeError` at the end.
pub data RouterError {ℓ} (E : Type ℓ) : Type ℓ where
  provider_error : E → RouterError E
  circuit_open : RouterError E
  all_failed : RouterError E

pub data Result {ℓ} (A E : Type ℓ) : Type ℓ where
  ok : A → Result A E
  err : RouterError E → Result A E

pub record LlmRouter : Type 0 where
  pub max_retries : ℕ
  pub primary_cb : CircuitBreaker
  pub fallback_cb : CircuitBreaker
  pub ticks : ℕ
  pub primary_calls : ℕ
  pub fallback_calls : ℕ

module _ (clock : ℕ → ℕ) where
  unfoldable pub ask_primary : LlmRouter → LlmRouter × Bool
  ask_primary r =
      let (cb, b) = can_execute (clock r.ticks) r.primary_cb in
      (record r { primary_cb = cb; ticks = r.ticks + 1 }, b)

  unfoldable pub ask_fallback : LlmRouter → LlmRouter × Bool
  ask_fallback r =
      let (cb, b) = can_execute (clock r.ticks) r.fallback_cb in
      (record r { fallback_cb = cb; ticks = r.ticks + 1 }, b)

  -- One call of the primary, tracked as a success or as a failure.
  unfoldable pub primary_succeeded : LlmRouter → LlmRouter
  primary_succeeded r = record r {
    primary_cb = track_success (clock r.ticks) r.primary_cb;
    ticks = r.ticks + 1;
    primary_calls = r.primary_calls + 1;
  }

  unfoldable pub primary_failed : LlmRouter → LlmRouter
  primary_failed r = record r {
    primary_cb = track_failure (clock r.ticks) r.primary_cb;
    ticks = r.ticks + 1;
    primary_calls = r.primary_calls + 1;
  }

  unfoldable pub fallback_succeeded : LlmRouter → LlmRouter
  fallback_succeeded r = record r {
    fallback_cb = track_success (clock r.ticks) r.fallback_cb;
    ticks = r.ticks + 1;
    fallback_calls = r.fallback_calls + 1;
  }

  unfoldable pub fallback_failed : LlmRouter → LlmRouter
  fallback_failed r = record r {
    fallback_cb = track_failure (clock r.ticks) r.fallback_cb;
    ticks = r.ticks + 1;
    fallback_calls = r.fallback_calls + 1;
  }

module _ {ℓ} {A E : Type ℓ} (clock : ℕ → ℕ) (primary : ℕ → Outcome A E) where
  -- `for attempt in range(self._max_retries)`: the first result, or nothing when all have failed.
  unfoldable pub try_primary : ℕ → LlmRouter → LlmRouter × Option A
  try_primary zero r = (r, none)
  try_primary (suc n) r = elim (primary r.primary_calls) [
    | returns a ↦ (primary_succeeded clock r, some a)
    | raises e ↦ try_primary n (primary_failed clock r)
  ]

  unfoldable pub primary_phase : LlmRouter → LlmRouter × Option A
  unfolding ask_primary
  primary_phase r =
      let (r', allowed) = ask_primary clock r in
      if allowed then try_primary r'.max_retries r' else (r', none)

  call_fallback : (ℕ → Outcome A E) → LlmRouter → LlmRouter × Result A E
  call_fallback provider r = elim (provider r.fallback_calls) [
    | returns a ↦ (fallback_succeeded clock r, ok a)
    | raises e ↦ (fallback_failed clock r, err (provider_error e))
  ]

  unfoldable pub fallback_phase : Option (ℕ → Outcome A E) → LlmRouter → LlmRouter × Result A E
  unfolding ask_fallback call_fallback
  fallback_phase none r = (r, err all_failed)
  fallback_phase (some provider) r =
      let (r', allowed) = ask_fallback clock r in
      if allowed then call_fallback provider r' else (r', err circuit_open)

  finish : Option (ℕ → Outcome A E) → LlmRouter → Option A → LlmRouter × Result A E
  finish fallback r (some a) = (r, ok a)
  finish fallback r none = fallback_phase fallback r

  unfoldable pub generate : Option (ℕ → Outcome A E) → LlmRouter → LlmRouter × Result A E
  unfolding finish
  generate fallback r = let (r', found) = primary_phase r in finish fallback r' found
