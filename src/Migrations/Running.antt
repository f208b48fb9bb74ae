-- ===== src/Migrations/Running.antt =====
-- core/bitmod/migrations.py: what `migrate` has applied when it returns, and what a second run does.
use mathlib.Core.Path.{subst}
use bit_mod_ai_inference_cac.Migrations.Applied.{
  get_applied-has_version, ok-injective, apply-Records, >>=-eq-ok, apply-IsSkipped, Records,
  IsSkipped, Grows,
}
use bit_mod_ai_inference_cac.Prelude.{
  ap, ◌∙◌, sym, arith, inr, inl, refl, none, [], ◌∷◌, ◌⊎◌, ℕ, Option, All, ◌≡◌, List,
}
use bit_mod_ai_inference_cac.Migrations.{
  apply, some, without_applied, Migration, get_pending, migrate, up_to, apply_all, BackendType,
  Execution, Text, Session, ok,
}

module _ {ℓ} {S : Type ℓ} (run_statement : Text → S → Execution S) (bt : BackendType) where
  apply_all-Records :
      (ms : List Migration) (s s' : Session S)
      → apply_all run_statement bt ms s ≡ ok s'
      → Grows run_statement bt s s' × All (λ m. IsSkipped bt m ⊎ Records s' m.version) ms
  unfolding apply_all
  apply_all-Records [] s s' h = ((λ v r. rw (ok-injective (sym h)) r), tt)
  apply_all-Records (m ∷ ms) s s' h =
      let (t, first, rest) =
        >>=-eq-ok (apply run_statement bt m s) (λ t. apply_all run_statement bt ms t) h in
      let (grows, done) = apply_all-Records ms t s' rest in
      elim (apply-Records run_statement bt m s t first) [
        | inl (skip, same) ↦
            ((λ v r. grows v (subst (λ x. Records x v) (sym same) r)), (inl skip, done))
        | inr (r, g) ↦ ((λ v q. grows v (g v q)), (inr (grows m.version r), done))
      ]

  apply_all-IsSkipped :
      (ms : List Migration) (s : Session S)
      → All (IsSkipped bt) ms
      → apply_all run_statement bt ms s ≡ ok s
  unfolding apply_all
  apply_all-IsSkipped [] s h = refl
  apply_all-IsSkipped (m ∷ ms) s h =
      rw (apply-IsSkipped run_statement bt m s h.0) (apply_all-IsSkipped ms s h.1)

  -- What is pending after a run is pending before it, or applied by it.
  still_pending :
      (target : Option ℕ) (modules : List Migration) (s s' : Session S)
      → Grows run_statement bt s s'
      → All (λ m. IsSkipped bt m ⊎ Records s' m.version) (up_to target (get_pending modules s))
      → All (IsSkipped bt) (up_to target (get_pending modules s'))
  unfolding up_to get_pending without_applied
  still_pending none [] s s' g h = tt
  still_pending (some t) [] s s' g h = tt
  still_pending none (m ∷ ms) s s' g h = ground (
    arith,
    still_pending none ms s s' g,
    g m.version,
    get_applied-has_version m.version s,
    get_applied-has_version m.version s',
  )
  still_pending (some t) (m ∷ ms) s s' g h = ground (
    arith,
    still_pending (some t) ms s s' g,
    g m.version,
    get_applied-has_version m.version s,
    get_applied-has_version m.version s',
  )

  -- When `migrate` returns, each migration that it names is recorded in the table or has nothing for the
  -- backend; what is then still pending up to the target has nothing for the backend; and a second run
  -- changes nothing, but names those again.
  pub migrate_lem :
      (modules : List Migration) (target : Option ℕ) (s s' : Session S) (applied : List Migration)
      → migrate run_statement bt modules target s ≡ ok (s', applied)
      → All (λ m. IsSkipped bt m ⊎ Records s' m.version) applied
        × All (IsSkipped bt) (up_to target (get_pending modules s'))
        × (migrate run_statement bt modules target s'
            ≡ ok (s', up_to target (get_pending modules s')))
  unfolding migrate
  migrate_lem modules target s s' applied h =
      let (t, run, out) =
        >>=-eq-ok (apply_all run_statement bt (up_to target (get_pending modules s)) s) _ h in
      let result = ok-injective out in
      let (grows, done) =
        apply_all-Records (up_to target (get_pending modules s)) s s'
          (run ∙ ap (λ x. ok x) (ap (λ p. p.0) result)) in
      let still = still_pending target modules s s' grows done in
      (
        subst (All (λ m. IsSkipped bt m ⊎ Records s' m.version)) (ap (λ p. p.1) result) done,
        still,
        rw (apply_all-IsSkipped (up_to target (get_pending modules s')) s' still) refl,
      )
