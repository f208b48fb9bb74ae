-- ===== src/Breaker/Invariant.antt =====
-- What holds of a circuit breaker between two calls of its methods (core/bitmod/router.py).
use bit_mod_ai_inference_cac.Prelude.{ℕ, ◌<◌, ◌≡◌, refl, List, [], ◌∷◌, map, Bool, arith, ltb}
use bit_mod_ai_inference_cac.Breaker.{
  closed, half_open, CircuitBreaker, init, can_execute, Call, ask, look, success, failure, step,
  run,
}

pub record IsValid (cb : CircuitBreaker) : Type 0 where
  pub no_calls : cb.half_open_calls ≡ 0
  pub positive : 0 < cb.failure_threshold
  pub below : cb.state ≡ closed → cb.failure_count < cb.failure_threshold

pub init-IsValid : (n t m : ℕ) → 0 < n → IsValid (init n t m)
unfolding init
init-IsValid n t m h = ground arith

pub step-IsValid : (now : ℕ) (c : Call) (cb : CircuitBreaker) → IsValid cb → IsValid (step now c cb)
unfolding step
step-IsValid now ask cb v = ground arith
step-IsValid now look cb v = ground arith
step-IsValid now success cb v = ground arith
step-IsValid now failure cb v = ground arith

pub run-IsValid :
    (calls : List (ℕ × Call)) (cb : CircuitBreaker) → IsValid cb → IsValid (run calls cb)
unfolding run
run-IsValid [] cb v = v
run-IsValid ((now, c) ∷ calls) cb v = run-IsValid calls (step now c cb) (step-IsValid now c cb v)

-- A breaker that `__init__` built with a positive threshold, after any calls at any times: the
-- half-open counter is still 0, and a closed circuit has fewer failures than its threshold.
pub run-init-IsValid :
    (n t m : ℕ) (calls : List (ℕ × Call)) → 0 < n → IsValid (run calls (init n t m))
run-init-IsValid n t m calls h = run-IsValid calls (init n t m) (init-IsValid n t m h)

-- What `can_execute` answers at each of the times.
unfoldable pub answers : List ℕ → CircuitBreaker → List Bool
answers [] cb = []
answers (now ∷ times) cb = let (cb', b) = can_execute now cb in b ∷ answers times cb'

pub answers-half_open :
    (times : List ℕ) (cb : CircuitBreaker)
    → cb.half_open_calls ≡ 0
    → cb.state ≡ half_open
    → answers times cb ≡ map (λ _. ltb 0 cb.half_open_max) times
unfolding answers can_execute
answers-half_open [] cb z h = refl
answers-half_open (now ∷ times) cb z h = ground (arith, answers-half_open times cb z h)

-- A half-open circuit with a positive threshold, however it was reached, admits every request for as long as none is
-- tracked, whatever their number, if `half_open_max` is positive, and none if it is 0.
pub half_open_unlimited :
    (n t m : ℕ) (calls : List (ℕ × Call)) (times : List ℕ)
    → 0 < n
    → (run calls (init n t m)).state ≡ half_open
    → answers times (run calls (init n t m))
      ≡ map (λ _. ltb 0 (run calls (init n t m)).half_open_max) times
half_open_unlimited n t m calls times pos h =
    answers-half_open times (run calls (init n t m)) (run-init-IsValid n t m calls pos).no_calls h
