-- ===== src/Router/Calls.antt =====
-- How often `generate` of core/bitmod/router.py calls the primary, and what it tracks.
use mathlib.Core.Path.{subst}
use bit_mod_ai_inference_cac.Prelude.{
  ℕ, zero, ◌⊎◌, inl, inr, suc, ◌+◌, ◌≤◌, ◌<◌, ◌≡◌, refl, List, [], ◌∷◌, Bool, true, false, none,
  some, arith, length,
}
use bit_mod_ai_inference_cac.Breaker.Trip.{track}
use bit_mod_ai_inference_cac.Router.{
  Outcome, returns, raises, LlmRouter, primary_succeeded, primary_failed, try_primary,
}

-- What the primary phase leaves alone.
pub record KeepsFallback (r r' : LlmRouter) : Type 0 where
  pub same_cb : r'.fallback_cb ≡ r.fallback_cb
  pub same_calls : r'.fallback_calls ≡ r.fallback_calls
  pub same_retries : r'.max_retries ≡ r.max_retries

abbrev pub is_failure {ℓ} : {A E : Type ℓ} → Outcome A E → Bool
is_failure (returns a) = false
is_failure (raises e) = true

pub Outcome-cases {ℓ} :
    {A E : Type ℓ} (o : Outcome A E) → ((a : A) × (o ≡ returns a)) ⊎ ((e : E) × (o ≡ raises e))
Outcome-cases (returns a) = inl (a, refl)
Outcome-cases (raises e) = inr (e, refl)

module _ {ℓ} {A E : Type ℓ} (clock : ℕ → ℕ) (primary : ℕ → Outcome A E) where
  -- The outcomes of up to `n` calls from call `k` on, up to the first success, at their readings.
  unfoldable pub log : ℕ → ℕ → ℕ → List (ℕ × Bool)
  log zero k t = []
  log (suc n) k t = elim (primary k) [
    | returns a ↦ (clock t, true) ∷ []
    | raises e ↦ (clock t, false) ∷ log n (k + 1) (t + 1)
  ]

  pub length-log-le : (n k t : ℕ) → length (log n k t) ≤ n
  unfolding log
  length-log-le zero k t = omega arith
  length-log-le (suc n) k t = ground (arith, length-log-le n (k + 1) (t + 1))

  pub try_primary-KeepsFallback :
      (n : ℕ) (r : LlmRouter) → KeepsFallback r (try_primary clock primary n r).0
  unfolding try_primary primary_succeeded primary_failed
  try_primary-KeepsFallback zero r = ground arith
  try_primary-KeepsFallback (suc n) r =
      ground (arith, try_primary-KeepsFallback n (primary_failed clock r))

  pub try_primary-calls :
      (n : ℕ) (r : LlmRouter)
      → (try_primary clock primary n r).0.primary_calls
        ≡ r.primary_calls + length (log n r.primary_calls r.ticks)
  unfolding try_primary log primary_succeeded primary_failed
  try_primary-calls zero r = omega arith
  try_primary-calls (suc n) r = ground (arith, try_primary-calls n (primary_failed clock r))

  -- The clock is read once for each call that is tracked.
  pub try_primary-ticks :
      (n : ℕ) (r : LlmRouter)
      → (try_primary clock primary n r).0.ticks ≡ r.ticks + length (log n r.primary_calls r.ticks)
  unfolding try_primary log primary_succeeded primary_failed
  try_primary-ticks zero r = omega arith
  try_primary-ticks (suc n) r = ground (arith, try_primary-ticks n (primary_failed clock r))

  pub try_primary-track :
      (n : ℕ) (r : LlmRouter)
      → (try_primary clock primary n r).0.primary_cb
        ≡ track (log n r.primary_calls r.ticks) r.primary_cb
  unfolding try_primary log primary_succeeded primary_failed track
  try_primary-track zero r = refl
  try_primary-track (suc n) r = ground (arith, try_primary-track n (primary_failed clock r))

  -- The first call that returns gives the result.
  pub try_primary-first :
      (n i : ℕ) (r : LlmRouter) (a : A)
      → i < n
      → ((j : ℕ) → j < i → is_failure (primary (r.primary_calls + j)) ≡ true)
      → primary (r.primary_calls + i) ≡ returns a
      → ((try_primary clock primary n r).1 ≡ some a)
        × ((try_primary clock primary n r).0.primary_calls ≡ r.primary_calls + i + 1)
  unfolding try_primary primary_succeeded primary_failed
  try_primary-first zero i r a h f p = absurd (omega arith)
  try_primary-first (suc n) zero r a h f p =
      let e : r.primary_calls + 0 ≡ r.primary_calls = omega arith in
      let p' : primary r.primary_calls ≡ returns a = rw e at p in ground arith
  try_primary-first (suc n) (suc i) r a h f p =
      let k = r.primary_calls in
      let first : is_failure (primary k) ≡ true =
        subst (λ c. is_failure (primary c) ≡ true) {x = k + 0} (omega arith) (f 0 (omega arith)) in
      let later : (j : ℕ) → j < i → is_failure (primary (k + 1 + j)) ≡ true = λ j q.
        subst (λ c. is_failure (primary c) ≡ true) {x = k + suc j} (omega arith)
          (f (suc j) (omega arith)) in
      let last : primary (k + 1 + i) ≡ returns a =
        subst (λ c. primary c ≡ returns a) {x = k + suc i} (omega arith) p in
      ground
        (arith, first, try_primary-first n i (primary_failed clock r) a (omega arith) later last)

  -- If all calls fail there is no result.
  pub try_primary-none :
      (n : ℕ) (r : LlmRouter)
      → ((j : ℕ) → j < n → is_failure (primary (r.primary_calls + j)) ≡ true)
      → ((try_primary clock primary n r).1 ≡ none)
        × ((try_primary clock primary n r).0.primary_calls ≡ r.primary_calls + n)
  unfolding try_primary primary_failed
  try_primary-none zero r f = (refl, omega arith)
  try_primary-none (suc n) r f =
      let k = r.primary_calls in
      let first : is_failure (primary k) ≡ true =
        subst (λ c. is_failure (primary c) ≡ true) {x = k + 0} (omega arith) (f 0 (omega arith)) in
      let later : (j : ℕ) → j < n → is_failure (primary (k + 1 + j)) ≡ true = λ j q.
        subst (λ c. is_failure (primary c) ≡ true) {x = k + suc j} (omega arith)
          (f (suc j) (omega arith)) in
      ground (arith, first, try_primary-none n (primary_failed clock r) later)

  -- A result is that of one of the calls.
  pub try_primary_sound :
      (n : ℕ) (r : LlmRouter) (a : A)
      → (try_primary clock primary n r).1 ≡ some a
      → (i : ℕ) × (i < n) × (primary (r.primary_calls + i) ≡ returns a)
  unfolding try_primary primary_failed
  try_primary_sound zero r a h = cc
  try_primary_sound (suc n) r a h = elim (Outcome-cases (primary r.primary_calls)) [
    | inl (b, e) ↦ (
      0,
      omega arith,
      subst (λ c. primary c ≡ returns a) {x = r.primary_calls} (omega arith) (ground arith),
    )
    | inr (x, e) ↦
        let (i, lt, p) = try_primary_sound n (primary_failed clock r) a (ground arith) in
        (
          suc i,
          omega arith,
          subst (λ c. primary c ≡ returns a) {x = r.primary_calls + 1 + i} (omega arith) p,
        )
  ]
