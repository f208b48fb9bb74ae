-- ===== src/Breaker/Trip.antt =====
-- When a closed circuit opens (core/bitmod/router.py).
use mathlib.Core.Path.{subst}
use bit_mod_ai_inference_cac.Prelude.{
  ℕ, zero, suc, ◌+◌, ◌<◌, ◌≤◌, ◌≡◌, List, [], ◌∷◌, Bool, true, false, arith, ◌⊎◌, inl, inr, ◌↔◌,
  sym, ◌∙◌,
}
use bit_mod_ai_inference_cac.Breaker.{closed, opened, CircuitBreaker, track_success, track_failure}

-- The outcomes of calls, each at its time: True is a success that is tracked, False a failure.
unfoldable pub track : List (ℕ × Bool) → CircuitBreaker → CircuitBreaker
track [] cb = cb
track ((now, true) ∷ os) cb = track os (track_success now cb)
track ((now, false) ∷ os) cb = track os (track_failure now cb)

-- The list begins with `n` failures.
abbrev pub Leads : ℕ → List (ℕ × Bool) → Type 0
Leads zero os = Unit
Leads (suc n) [] = ⊥
Leads (suc n) ((now, true) ∷ os) = ⊥
Leads (suc n) ((now, false) ∷ os) = Leads n os

-- Somewhere in the list there are `n` failures in a row.
abbrev pub InRow : ℕ → List (ℕ × Bool) → Type 0
InRow n [] = Leads n []
InRow n (o ∷ os) = Leads n (o ∷ os) ⊎ InRow n os

Leads-InRow : (n : ℕ) (os : List (ℕ × Bool)) → Leads n os → InRow n os
Leads-InRow n [] h = h
Leads-InRow n (o ∷ os) h = inl h

Leads-mono : (n k : ℕ) (os : List (ℕ × Bool)) → n ≤ k → Leads k os → Leads n os
Leads-mono zero k os h l = tt
Leads-mono (suc n) zero os h l = absurd (omega arith)
Leads-mono (suc n) (suc k) [] h l = l
Leads-mono (suc n) (suc k) ((now, true) ∷ os) h l = l
Leads-mono (suc n) (suc k) ((now, false) ∷ os) h l = Leads-mono n k os (omega arith) l

track-opened :
    (os : List (ℕ × Bool)) (cb : CircuitBreaker) → cb.state ≡ opened → (track os cb).state ≡ opened
unfolding track
track-opened [] cb h = h
track-opened ((now, true) ∷ os) cb h =
    track-opened os (track_success now cb) (unfold track_success in ground arith)
track-opened ((now, false) ∷ os) cb h =
    track-opened os (track_failure now cb) (unfold track_failure in ground arith)

success_closed :
    (now : ℕ) (cb : CircuitBreaker)
    → cb.state ≡ closed
    → ((track_success now cb).state ≡ closed)
      × ((track_success now cb).failure_count ≡ 0)
      × ((track_success now cb).failure_threshold ≡ cb.failure_threshold)
unfolding track_success
success_closed now cb h = ground arith

failure_counted :
    (now : ℕ) (cb : CircuitBreaker)
    → cb.state ≡ closed
    → cb.failure_count + 1 < cb.failure_threshold
    → ((track_failure now cb).state ≡ closed)
      × ((track_failure now cb).failure_count ≡ cb.failure_count + 1)
      × ((track_failure now cb).failure_threshold ≡ cb.failure_threshold)
unfolding track_failure
failure_counted now cb h p = ground arith

failure_trips :
    (now : ℕ) (cb : CircuitBreaker)
    → cb.state ≡ closed
    → cb.failure_threshold ≤ cb.failure_count + 1
    → (track_failure now cb).state ≡ opened
unfolding track_failure
failure_trips now cb h p = ground arith

module _ (n : ℕ) where
  -- `r + 1` more failures in a row open the circuit, and so do `n + 1` in a row later on.
  track-opens :
      (os : List (ℕ × Bool)) (r : ℕ) (cb : CircuitBreaker)
      → cb.state ≡ closed
      → cb.failure_threshold ≡ suc n
      → cb.failure_count + r ≡ n
      → Leads (suc r) os ⊎ InRow (suc n) os
      → (track os cb).state ≡ opened
  unfolding track
  track-opens [] r cb h t e (inl l) = absurd l
  track-opens [] r cb h t e (inr l) = absurd l
  track-opens ((now, true) ∷ os) r cb h t e (inl l) = absurd l
  track-opens ((now, true) ∷ os) r cb h t e (inr (inl l)) = absurd l
  track-opens ((now, true) ∷ os) r cb h t e (inr (inr l)) =
      let (s, c, f) = success_closed now cb h in
      track-opens os n (track_success now cb) s (f ∙ t) (omega (arith, c)) (inr l)
  track-opens ((now, false) ∷ os) zero cb h t e l =
      track-opened os (track_failure now cb) (failure_trips now cb h (omega arith))
  track-opens ((now, false) ∷ os) (suc r) cb h t e l =
      let (s, c, f) = failure_counted now cb h (omega arith) in
      track-opens os r (track_failure now cb) s (f ∙ t) (omega (arith, c)) (narrow l)
    where
      narrow :
          Leads (suc (suc r)) ((now, false) ∷ os) ⊎ InRow (suc n) ((now, false) ∷ os)
          → Leads (suc r) os ⊎ InRow (suc n) os
      narrow (inl l') = inl l'
      narrow (inr (inl l')) = inl (Leads-mono (suc r) n os (omega arith) l')
      narrow (inr (inr l')) = inr l'

  opened-Leads :
      (os : List (ℕ × Bool)) (r : ℕ) (cb : CircuitBreaker)
      → cb.state ≡ closed
      → cb.failure_threshold ≡ suc n
      → cb.failure_count + r ≡ n
      → (track os cb).state ≡ opened
      → Leads (suc r) os ⊎ InRow (suc n) os
  unfolding track
  opened-Leads [] r cb h t e o = cc
  opened-Leads ((now, true) ∷ os) r cb h t e o =
      let (s, c, f) = success_closed now cb h in
      inr (inr (whole (opened-Leads os n (track_success now cb) s (f ∙ t) (omega (arith, c)) o)))
    where
      whole : Leads (suc n) os ⊎ InRow (suc n) os → InRow (suc n) os
      whole (inl l) = Leads-InRow (suc n) os l
      whole (inr l) = l
  opened-Leads ((now, false) ∷ os) zero cb h t e o = inl tt
  opened-Leads ((now, false) ∷ os) (suc r) cb h t e o =
      let (s, c, f) = failure_counted now cb h (omega arith) in
      widen (opened-Leads os r (track_failure now cb) s (f ∙ t) (omega (arith, c)) o)
    where
      widen :
          Leads (suc r) os ⊎ InRow (suc n) os
          → Leads (suc (suc r)) ((now, false) ∷ os) ⊎ InRow (suc n) ((now, false) ∷ os)
      widen (inl l) = inl l
      widen (inr l) = inr (inr l)

-- While nothing but outcomes is tracked, a closed circuit with no failures opens exactly if as
-- many calls in a row fail as its (positive) threshold says; a success in between starts anew.
pub track-opened_iff :
    (n : ℕ) (os : List (ℕ × Bool)) (cb : CircuitBreaker)
    → cb.state ≡ closed
    → cb.failure_count ≡ 0
    → cb.failure_threshold ≡ suc n
    → ((track os cb).state ≡ opened) ↔ InRow cb.failure_threshold os
track-opened_iff n os cb h z t =
    subst (λ k. ((track os cb).state ≡ opened) ↔ InRow k os) (sym t)
      (forth, λ l. track-opens n os n cb h t (omega arith) (inr l))
  where
    whole : Leads (suc n) os ⊎ InRow (suc n) os → InRow (suc n) os
    whole (inl l) = Leads-InRow (suc n) os l
    whole (inr l) = l

    forth : (track os cb).state ≡ opened → InRow (suc n) os
    forth o = whole (opened-Leads n os n cb h t (omega arith) o)
