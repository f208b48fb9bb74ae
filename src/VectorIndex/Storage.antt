-- ===== src/VectorIndex/Storage.antt =====
-- core/bitmod/vector_index.py: the two storages of the vectors behave as one list.
use mathlib.Core.Option.{some-injective}
use bit_mod_ai_inference_cac.VectorIndex.Dict.{zero≢suc, pop_lem, copy_lem}
use bit_mod_ai_inference_cac.Prelude.{
  zero, refl, sym, none, ◌∷◌, arith, set, ◌++◌, take, ◌<◌, suc, some, [], ◌≡◌, length, get_elem?, ℕ,
  List,
}
use bit_mod_ai_inference_cac.VectorIndex.{python, numpy, append_row, truncate, move_row, Store}

module _ {ℓ} {V : Type ℓ} where
  unfoldable pub vectors : Store V → List V
  vectors (numpy none) = []
  vectors (numpy (some m)) = m
  vectors (python rows) = rows

  pub move_row-vectors :
      (s : Store V) (pos last : ℕ) (v : V)
      → get_elem? (vectors s) last ≡ some v
      → pos < length (vectors s)
      → (s' : Store V) × (move_row pos last s ≡ some s') × (vectors s' ≡ set (vectors s) pos v)
  unfolding vectors move_row
  move_row-vectors (numpy none) pos last v e lt = cc
  move_row-vectors (numpy (some m)) pos last v e lt =
      (numpy (some (set m pos v)), rw (copy_lem m pos last v e lt) refl, refl)
  move_row-vectors (python rows) pos last v e lt =
      (python (set rows pos v), rw (copy_lem rows pos last v e lt) refl, refl)

  pub truncate-vectors :
      (s : Store V) (last : ℕ)
      → length (vectors s) ≡ suc last
      → (s' : Store V) × (truncate last s ≡ some s') × (vectors s' ≡ take last (vectors s))
  unfolding vectors truncate
  truncate-vectors (numpy none) last e = absurd (zero≢suc last e)
  truncate-vectors (numpy (some m)) zero e = (numpy none, refl, refl)
  truncate-vectors (numpy (some m)) (suc last) e =
      (numpy (some (take (suc last) m)), ground arith, refl)
  truncate-vectors (python rows) last e =
      (python (take last rows), rw (pop_lem rows last e) refl, refl)

  -- The row is appended, or the dimension guard returns.
  pub append_row-vectors :
      (dim : V → ℕ) (v : V) (s s' : Store V)
      → append_row dim v s ≡ some s'
      → vectors s' ≡ vectors s ++ v ∷ []
  unfolding vectors append_row
  append_row-vectors dim v (numpy none) s' e = rw (some-injective _ _ (sym e)) refl
  append_row-vectors dim v (numpy (some [])) s' e = rw (some-injective _ _ (sym e)) refl
  append_row-vectors dim v (numpy (some (r ∷ m))) s' e = ground arith
  append_row-vectors dim v (python rows) s' e = rw (some-injective _ _ (sym e)) refl
