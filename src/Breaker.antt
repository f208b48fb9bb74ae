-- ===== src/Breaker.antt =====
-- core/bitmod/router.py: the circuit states and the class `CircuitBreaker`. A method returns the
-- breaker that it leaves; a reading of `time.monotonic()` is the argument `now`, in any unit. The
-- breaker's name, which only the log uses, and the lock are left out.
pub mod Invariant
pub mod Lockout
pub mod Trip
use bit_mod_ai_inference_cac.Prelude.{
  ℕ, ◌+◌, List, [], ◌∷◌, Bool, true, false, ltb, leb, if◌then◌else◌,
}

-- `opened` is OPEN.
pub data CircuitState : Type 0 where
  closed opened half_open : CircuitState

pub record CircuitBreaker : Type 0 where
  pub failure_threshold : ℕ
  pub recovery_timeout : ℕ
  pub half_open_max : ℕ
  pub state : CircuitState
  pub failure_count : ℕ
  pub half_open_calls : ℕ
  pub opened_at : ℕ

unfoldable pub init : ℕ → ℕ → ℕ → CircuitBreaker
init failure_threshold recovery_timeout half_open_max = record {
  failure_threshold = failure_threshold;
  recovery_timeout = recovery_timeout;
  half_open_max = half_open_max;
  state = closed;
  failure_count = 0;
  half_open_calls = 0;
  opened_at = 0;
}

unfoldable pub transition : ℕ → CircuitState → CircuitBreaker → CircuitBreaker
transition now opened cb = record cb { state = opened; opened_at = now; half_open_calls = 0 }
transition now half_open cb = record cb { state = half_open; half_open_calls = 0 }
transition now closed cb = record cb { state = closed; failure_count = 0; half_open_calls = 0 }

-- `now - opened_at >= recovery_timeout`, with the subtraction moved to the other side.
unfoldable pub recovered : ℕ → CircuitBreaker → Bool
recovered now cb = leb (cb.opened_at + cb.recovery_timeout) now

can_execute_in : CircuitState → ℕ → CircuitBreaker → CircuitBreaker × Bool
can_execute_in closed now cb = (cb, true)
can_execute_in opened now cb =
    if recovered now cb then (transition now half_open cb, true) else (cb, false)
can_execute_in half_open now cb = (cb, ltb cb.half_open_calls cb.half_open_max)

unfoldable pub can_execute : ℕ → CircuitBreaker → CircuitBreaker × Bool
unfolding can_execute_in recovered transition
can_execute now cb = can_execute_in cb.state now cb

-- The property `state`, which also lets a recovered circuit go half open.
refresh_in : CircuitState → ℕ → CircuitBreaker → CircuitBreaker
refresh_in opened now cb = if recovered now cb then transition now half_open cb else cb
refresh_in closed now cb = cb
refresh_in half_open now cb = cb

unfoldable pub read_state : ℕ → CircuitBreaker → CircuitBreaker × CircuitState
unfolding refresh_in recovered transition
read_state now cb = let cb' = refresh_in cb.state now cb in (cb', cb'.state)

abbrev is_half_open : CircuitState → Bool
is_half_open half_open = true
is_half_open closed = false
is_half_open opened = false

unfoldable pub track_success : ℕ → CircuitBreaker → CircuitBreaker
unfolding transition
track_success now cb =
    let cb' = if is_half_open cb.state then transition now closed cb else cb in
    record cb' { failure_count = 0; half_open_calls = 0 }

unfoldable pub track_failure : ℕ → CircuitBreaker → CircuitBreaker
unfolding transition
track_failure now cb =
    let cb' = record cb { failure_count = cb.failure_count + 1 } in
    if is_half_open cb'.state
    then transition now opened cb'
    else if leb cb'.failure_threshold cb'.failure_count
    then transition now opened cb'
    else cb'

-- The calls that a client makes, each with the clock's reading.
pub data Call : Type 0 where
  ask : Call
  look : Call
  success : Call
  failure : Call

unfoldable pub step : ℕ → Call → CircuitBreaker → CircuitBreaker
unfolding can_execute read_state track_success track_failure
step now ask cb = (can_execute now cb).0
step now look cb = (read_state now cb).0
step now success cb = track_success now cb
step now failure cb = track_failure now cb

unfoldable pub run : List (ℕ × Call) → CircuitBreaker → CircuitBreaker
run [] cb = cb
run ((now, c) ∷ calls) cb = run calls (step now c cb)
