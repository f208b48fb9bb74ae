-- ===== src/Tests/RouterTests.antt =====
-- A circuit breaker and a router with a primary that fails twice (core/bitmod/router.py).
use bit_mod_ai_inference_cac.Router.Generate.{
  generate-track, generate-failover, calls_made, fallback_answer,
}
use bit_mod_ai_inference_cac.Router.Calls.{is_failure}
use bit_mod_ai_inference_cac.Breaker.Lockout.{trial_call, lockout, admitted}
use bit_mod_ai_inference_cac.Breaker.Trip.{track-opened_iff, InRow, track}
use bit_mod_ai_inference_cac.Router.{
  primary_phase, try_primary, primary_failed, fallback_phase, all_failed, circuit_open, ok, returns,
  raises, LlmRouter, Outcome, generate,
}
use bit_mod_ai_inference_cac.Prelude.{
  zero, inr, length, ◌⊎◌, suc, refl, ◌+◌, arith, ◌↔◌, none, ◌≤◌, ◌<◌, true, false, some, [], ◌∷◌,
  ◌≡◌, ℕ,
}
use bit_mod_ai_inference_cac.Router.Stream.{
  Call as StreamCall, primary_phase as stream_phase, try_primary as stream_attempts,
  fallback_phase as stream_fallback, stream, stream_one_source,
}
use bit_mod_ai_inference_cac.Breaker.Invariant.{IsValid as BreakerIsValid, run-init-IsValid}
use bit_mod_ai_inference_cac.Breaker.{
  closed, half_open, success, ask, opened, failure, CircuitBreaker, init, run, step, can_execute,
}

abbrev fresh : CircuitBreaker
fresh = record {
  failure_threshold = 2;
  recovery_timeout = 10;
  half_open_max = 1;
  state = closed;
  failure_count = 0;
  half_open_calls = 0;
  opened_at = 0;
}

abbrev clock : ℕ → ℕ
clock n = n

abbrev primary : ℕ → Outcome ℕ ℕ
primary zero = raises 7
primary (suc zero) = raises 8
primary (suc (suc n)) = returns 9

abbrev backup : ℕ → Outcome ℕ ℕ
backup n = returns 4

abbrev primary_stream : ℕ → StreamCall ℕ ℕ
primary_stream zero = record { tokens = 1 ∷ 2 ∷ []; raised = some 7 }
primary_stream (suc n) = record { tokens = 4 ∷ []; raised = none }

-- A primary that raises before a token, twice.
abbrev silent_stream : ℕ → StreamCall ℕ ℕ
silent_stream n = record { tokens = []; raised = some 7 }

abbrev backup_stream : ℕ → StreamCall ℕ ℕ
backup_stream n = record { tokens = 3 ∷ []; raised = none }

abbrev router : ℕ → LlmRouter
router retries = record {
  max_retries = retries;
  primary_cb = fresh;
  fallback_cb = fresh;
  ticks = 0;
  primary_calls = 0;
  fallback_calls = 0;
}

abbrev tripped : CircuitBreaker
tripped = record fresh { state = opened; failure_count = 2; opened_at = 5 }

-- Two failures trip the breaker; the third attempt, still in the loop, returns.
router_runs :
    ((generate clock primary (some backup) (router 3)).1 ≡ ok 9)
    × ((generate clock primary (some backup) (router 2)).1 ≡ ok 4)
unfolding generate primary_phase can_execute try_primary primary_failed fallback_phase
router_runs = (refl, refl)

track-opened_iff_example :
    ((track ((1, false) ∷ (2, false) ∷ []) fresh).state ≡ opened)
    ↔ InRow 2 ((1, false) ∷ (2, false) ∷ [])
track-opened_iff_example = track-opened_iff 1 ((1, false) ∷ (2, false) ∷ []) fresh refl refl refl

lockout_example : admitted ((6, ask) ∷ (9, failure) ∷ (14, ask) ∷ []) tripped ≡ []
lockout_example = lockout tripped ((6, ask) ∷ (9, failure) ∷ (14, ask) ∷ []) refl (omega arith)

trial_call_example :
    ((can_execute 15 tripped).1 ≡ true)
    × ((run ((15, ask) ∷ (16, success) ∷ []) tripped).state ≡ closed)
    × ((run ((15, ask) ∷ (16, success) ∷ []) tripped).failure_count ≡ 0)
    × ((run ((15, ask) ∷ (16, failure) ∷ []) tripped).state ≡ opened)
    × ((run ((15, ask) ∷ (16, failure) ∷ []) tripped).opened_at ≡ 16)
trial_call_example = trial_call tripped 15 16 refl (omega arith)

run-init-IsValid_breaker_example :
    BreakerIsValid (run ((1, failure) ∷ (2, failure) ∷ (13, ask) ∷ []) (init 2 10 1))
run-init-IsValid_breaker_example =
    run-init-IsValid 2 10 1 ((1, failure) ∷ (2, failure) ∷ (13, ask) ∷ []) (omega arith)

reached : (run ((1, failure) ∷ (2, failure) ∷ (13, ask) ∷ []) (init 2 10 1)).state ≡ half_open
unfolding run init step
reached = refl

admitted_at_first : (can_execute (clock 0) fresh).1 ≡ true
unfolding can_execute
admitted_at_first = refl

both_fail : (j : ℕ) → j < 2 → is_failure (primary (0 + j)) ≡ true
both_fail zero h = refl
both_fail (suc zero) h = refl
both_fail (suc (suc j)) h = absurd (omega arith)

generate-failover_example :
    (generate clock primary (some backup) (router 2)).1
    ≡ fallback_answer
        (some backup)
        (can_execute
          (clock (0 + 1 + length (calls_made clock primary (some backup) (router 2))))
          fresh).1
        0
generate-failover_example = generate-failover clock primary (some backup) (router 2) (inr both_fail)

returned : (generate clock primary (some backup) (router 3)).1 ≡ ok 9
unfolding generate primary_phase can_execute try_primary primary_failed fallback_phase
returned = refl

generate-track_example :
    let r' = (generate clock primary (some backup) (router 3)).0 in
    (r'.primary_cb
      ≡ track (calls_made clock primary (some backup) (router 3)) (can_execute (clock 0) fresh).0)
    × (r'.primary_calls ≡ 0 + length (calls_made clock primary (some backup) (router 3)))
    × (length (calls_made clock primary (some backup) (router 3)) ≤ 3)
    × (r'.fallback_calls ≤ 0 + 1)
generate-track_example = generate-track clock primary (some backup) (router 3)

stream_one_source_example :
    ((k : ℕ) × (0 ≤ k)
      × (k < 0 + 2)
      × ((primary_stream k).tokens
          ≡ (stream clock primary_stream (some backup_stream) (router 2)).1.yielded)
      × ((stream clock primary_stream (some backup_stream) (router 2)).0.primary_calls ≡ k + 1)
      × ((stream clock primary_stream (some backup_stream) (router 2)).0.fallback_calls ≡ 0))
    ⊎ ((provider : ℕ → StreamCall ℕ ℕ) × (some backup_stream ≡ some provider)
        × ((provider 0).tokens
            ≡ (stream clock primary_stream (some backup_stream) (router 2)).1.yielded)
        × ((stream clock primary_stream (some backup_stream) (router 2)).0.fallback_calls ≡ 0 + 1))
    ⊎ (((stream clock primary_stream (some backup_stream) (router 2)).1.yielded ≡ [])
        × (((stream clock primary_stream (some backup_stream) (router 2)).1.error
              ≡ some circuit_open)
            ⊎ ((stream clock primary_stream (some backup_stream) (router 2)).1.error
                ≡ some all_failed)))
stream_one_source_example = stream_one_source clock primary_stream (some backup_stream) (router 2)

-- The first call raises after two tokens, and there is no second one.
cut_short :
    (stream clock primary_stream (some backup_stream) (router 2)).1
    ≡ record { yielded = 1 ∷ 2 ∷ []; error = none }
unfolding stream can_execute stream_phase stream_attempts stream_fallback primary_failed
cut_short = refl

taken_over :
    (stream clock silent_stream (some backup_stream) (router 2)).1
    ≡ record { yielded = 3 ∷ []; error = none }
unfolding stream can_execute stream_phase stream_attempts stream_fallback primary_failed
taken_over = refl
