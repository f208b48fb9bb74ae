-- ===== src/Breaker/Lockout.antt =====
-- When a circuit opens, and what an open circuit admits (core/bitmod/router.py).
use bit_mod_ai_inference_cac.Prelude.{
  ℕ, ◌+◌, ◌<◌, ◌≤◌, ◌≡◌, refl, List, [], ◌∷◌, true, false, arith,
}
use bit_mod_ai_inference_cac.Breaker.{
  closed, opened, CircuitBreaker, can_execute, Call, ask, look, success, failure, step, run,
}

-- Every time of the list lies in [lo, hi).
abbrev pub Within : ℕ → ℕ → List (ℕ × Call) → Type 0
Within lo hi [] = Unit
Within lo hi ((now, c) ∷ calls) = (lo ≤ now) × (now < hi) × Within lo hi calls

-- The request times at which `can_execute` answered True.
unfoldable pub admitted : List (ℕ × Call) → CircuitBreaker → List ℕ
admitted [] cb = []
admitted ((now, ask) ∷ calls) cb =
    let (cb', b) = can_execute now cb in
    let rest = admitted calls cb' in elim b [ true ↦ now ∷ rest | false ↦ rest ]
admitted ((now, c) ∷ calls) cb = admitted calls (step now c cb)

record IsLocked (lo hi : ℕ) (cb : CircuitBreaker) : Type 0 where
  is_opened : cb.state ≡ opened
  later : lo ≤ cb.opened_at
  deadline : hi ≤ cb.opened_at + cb.recovery_timeout

step-IsLocked :
    (lo hi now : ℕ) (c : Call) (cb : CircuitBreaker)
    → lo ≤ now
    → now < hi
    → hi ≤ lo + cb.recovery_timeout
    → IsLocked lo hi cb
    → IsLocked lo hi (step now c cb) × ((step now c cb).recovery_timeout ≡ cb.recovery_timeout)
unfolding step
step-IsLocked lo hi now ask cb p q d v = ground arith
step-IsLocked lo hi now look cb p q d v = ground arith
step-IsLocked lo hi now success cb p q d v = ground arith
step-IsLocked lo hi now failure cb p q d v = ground arith

ask-IsLocked :
    (lo hi now : ℕ) (cb : CircuitBreaker)
    → now < hi
    → IsLocked lo hi cb
    → can_execute now cb ≡ (cb, false)
unfolding can_execute
ask-IsLocked lo hi now cb q v = ground arith

admitted-IsLocked :
    (lo hi : ℕ) (calls : List (ℕ × Call)) (cb : CircuitBreaker)
    → hi ≤ lo + cb.recovery_timeout
    → IsLocked lo hi cb
    → Within lo hi calls
    → admitted calls cb ≡ []
unfolding admitted
admitted-IsLocked lo hi [] cb d v w = refl
admitted-IsLocked lo hi ((now, ask) ∷ calls) cb d v w =
    ground (arith, ask-IsLocked lo hi now cb w.1 v, admitted-IsLocked lo hi calls cb d v w.2)
admitted-IsLocked lo hi ((now, look) ∷ calls) cb d v w =
    let s = step-IsLocked lo hi now look cb w.0 w.1 d v in
    admitted-IsLocked lo hi calls (step now look cb) (omega (arith, s.1)) s.0 w.2
admitted-IsLocked lo hi ((now, success) ∷ calls) cb d v w =
    let s = step-IsLocked lo hi now success cb w.0 w.1 d v in
    admitted-IsLocked lo hi calls (step now success cb) (omega (arith, s.1)) s.0 w.2
admitted-IsLocked lo hi ((now, failure) ∷ calls) cb d v w =
    let s = step-IsLocked lo hi now failure cb w.0 w.1 d v in
    admitted-IsLocked lo hi calls (step now failure cb) (omega (arith, s.1)) s.0 w.2

-- From an open circuit no request is admitted before the recovery timeout has passed, whatever is
-- asked, looked at or tracked in between, if the clock does not run backwards.
pub lockout :
    (cb : CircuitBreaker) (calls : List (ℕ × Call))
    → cb.state ≡ opened
    → Within cb.opened_at (cb.opened_at + cb.recovery_timeout) calls
    → admitted calls cb ≡ []
lockout cb calls h w =
    admitted-IsLocked cb.opened_at (cb.opened_at + cb.recovery_timeout) calls cb (omega arith)
      (record { is_opened = h; later = omega arith; deadline = omega arith }) w

-- A request at or after the timeout of an open circuit is admitted; if it is tracked as a success
-- the circuit is closed with no failures, and if as a failure it is open again, for a whole
-- timeout from then.
pub trial_call :
    (cb : CircuitBreaker) (now later : ℕ)
    → cb.state ≡ opened
    → cb.opened_at + cb.recovery_timeout ≤ now
    → ((can_execute now cb).1 ≡ true)
      × ((run ((now, ask) ∷ (later, success) ∷ []) cb).state ≡ closed)
      × ((run ((now, ask) ∷ (later, success) ∷ []) cb).failure_count ≡ 0)
      × ((run ((now, ask) ∷ (later, failure) ∷ []) cb).state ≡ opened)
      × ((run ((now, ask) ∷ (later, failure) ∷ []) cb).opened_at ≡ later)
unfolding run step
trial_call cb now later h d = ground arith
