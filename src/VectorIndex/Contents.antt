-- ===== src/VectorIndex/Contents.antt =====
-- core/bitmod/vector_index.py: the vectors that an index holds for the ids, and what `add`, `remove`
-- and `_evict_oldest` make of them.
use mathlib.Core.Option.{some-injective}
use bit_mod_ai_inference_cac.VectorIndex.Removal.{
  none-some, inner, last_known, remove-inner, remove-last, IsValid,
}
use bit_mod_ai_inference_cac.VectorIndex.Dict.{
  length-cut, cut_self, cut_ne, lt-get_elem?, get_elem?-lt,
}
use bit_mod_ai_inference_cac.VectorIndex.Storage.{vectors}
use bit_mod_ai_inference_cac.VectorIndex.Removal.{Removed-IsValid, Removed}
use bit_mod_ai_inference_cac.Prelude.{
  ◌≤◌, [], ◌∷◌, ◌<◌, List, ap, sym, refl, ◌∙◌, ℕ_discrete, arith, suc, inr, ◌-◌, inl, length,
  Option-cases, ◌≢◌, get_elem?, some, none, ◌>>=◌, ◌≡◌, Option, ℕ,
}
use bit_mod_ai_inference_cac.VectorIndex.{
  evict_oldest, evict_first, position, remove_at, remove, Index,
}
use bit_mod_ai_inference_cac.AnswerKey.{Text}

module _ {ℓ} {V : Type ℓ} (dec : Discrete Text) where
  -- The vector of an id, as a search reads it.
  unfoldable pub vector_of : Text → Index V → Option V
  vector_of id t = position dec id t.id_to_pos >>= get_elem? (vectors t.store)

module _ {ℓ} {V : Type ℓ} (dec : Discrete Text) where
  -- What an operation that drops one id leaves.
  pub record Dropped (id : Text) (t t' : Index V) : Type ℓ where
    pub valid : IsValid dec t'
    pub none_left : vector_of dec id t' ≡ none
    pub kept : (o : Text) → o ≢ id → vector_of dec o t' ≡ vector_of dec o t
    pub max_kept : t'.max_size ≡ t.max_size
    pub shrinks : length t'.ids ≤ length t.ids
    pub frees : (p : ℕ) → position dec id t.id_to_pos ≡ some p → length t'.ids < length t.ids

  Removed-length :
      (id : Text) (pos last : ℕ) (last_id : Text) (v : V) (t t' : Index V)
      → Removed dec id pos last last_id v t t'
      → suc (length t'.ids) ≡ length t.ids
  Removed-length id pos last last_id v t t' r =
      ap suc (ap length r.ids_lem ∙ length-cut t.ids pos last last_id r.size) ∙ sym r.size

  others_kept :
      (id : Text) (pos last : ℕ) (last_id : Text) (v : V) (t t' : Index V)
      → IsValid dec t
      → position dec id t.id_to_pos ≡ some pos
      → Removed dec id pos last last_id v t t'
      → (o : Text) → o ≢ id
      → o ≢ last_id
      → vector_of dec o t' ≡ vector_of dec o t
  unfolding vector_of
  others_kept id pos last last_id v t t' valid at r o ne ne' =
      elim (Option-cases (position dec o t.id_to_pos)) [
        | inl e ↦ rw (r.others o ne ne', e) refl
        | inr (p, e) ↦
            let g = valid.listed o p e in
            let not_pos : pos ≢ p = λ z. ne (
              some-injective o id
                (sym g ∙ ap (get_elem? t.ids) (sym z) ∙ valid.listed id pos at)) in
            let not_last : p ≢ last =
              λ z. ne' (some-injective o last_id (sym g ∙ ap (get_elem? t.ids) z ∙ r.id_last)) in
            rw (r.others o ne ne', e, r.rows_lem)
              (cut_ne (vectors t.store) pos last p v
                (omega (arith, get_elem?-lt t.ids p o g, r.size)) not_pos)
      ]

  Removed-Dropped :
      (id : Text) (pos last : ℕ) (last_id : Text) (v : V) (t t' : Index V)
      → IsValid dec t
      → position dec id t.id_to_pos ≡ some pos
      → Removed dec id pos last last_id v t t'
      → Dropped id t t'
  unfolding vector_of
  Removed-Dropped id pos last last_id v t t' valid at r = record {
    valid = Removed-IsValid dec id pos last last_id v t t' valid at r;
    none_left = rw r.gone refl;
    kept = λ o ne. elim (dec o last_id) [
      | yes s ↦
          let ne' : last_id ≢ id = λ z. ne (s ∙ z) in
          let before : vector_of dec o t ≡ some v =
            rw (s, last_known dec id pos last last_id v t t' valid at r) r.row_last in
          let after : vector_of dec o t' ≡ some v =
            rw (s, r.moved ne', r.rows_lem)
              (cut_self (vectors t.store) pos last v (valid.rows ∙ r.size)
                (inner dec id pos last last_id v t t' valid at r ne')) in
          after ∙ sym before
      | no s ↦ others_kept id pos last last_id v t t' valid at r o ne s
    ];
    max_kept = r.max_lem;
    shrinks = omega (arith, Removed-length id pos last last_id v t t' r);
    frees = λ p e. omega (arith, Removed-length id pos last last_id v t t' r);
  }

  -- The removal of an id that is there, with the places.
  remove-Removed :
      (id : Text) (pos : ℕ) (t : Index V)
      → IsValid dec t
      → position dec id t.id_to_pos ≡ some pos
      → (last_id : Text) × (v : V) × (t' : Index V) × (remove dec id t ≡ some t')
        × Removed dec id pos (length t.ids - 1) last_id v t t'
  remove-Removed id pos t valid at =
      let lt = get_elem?-lt t.ids pos id (valid.listed id pos at) in
      let last = length t.ids - 1 in
      let size : length t.ids ≡ suc last = omega arith in
      let (last_id, e) = lt-get_elem? t.ids last (omega arith) in
      let (v, f) = lt-get_elem? (vectors t.store) last (omega (arith, valid.rows)) in
      elim (ℕ_discrete pos last) [
        | yes p ↦
            (let (t', eq, r) = remove-last dec id pos last last_id v t valid at size e f p in
              (last_id, v, t', eq, r))
        | no p ↦
            (let (t', eq, r) = remove-inner dec id pos last last_id v t valid at size e f p in
              (last_id, v, t', eq, r))
      ]

  -- On a valid index `remove` raises no IndexError, and the result is valid, has nothing for the id,
  -- and has for every other id what was there.
  pub remove-Dropped :
      (id : Text) (t : Index V)
      → IsValid dec t
      → (t' : Index V) × (remove dec id t ≡ some t') × Dropped id t t'
  unfolding remove remove_at vector_of
  remove-Dropped id t valid = elim (Option-cases (position dec id t.id_to_pos)) [
    | inl e ↦ (
      t,
      rw e refl,
      record {
        valid = valid;
        none_left = rw e refl;
        kept = λ o ne. refl;
        max_kept = refl;
        shrinks = omega arith;
        frees = λ p f. absurd (none-some p (sym e ∙ f));
      },
    )
    | inr (pos, e) ↦
        let (last_id, v, t', eq, r) = remove-Removed id pos t valid e in
        (t', eq, Removed-Dropped id pos _ last_id v t t' valid e r)
  ]

  pub evict_first-remove :
      (id : Text) (ids : List Text) (t : Index V)
      → get_elem? ids 0 ≡ some id
      → evict_first dec ids t ≡ remove dec id t
  unfolding evict_first
  evict_first-remove id [] t e = cc
  evict_first-remove id (i ∷ ids) t e = ap (λ x. remove dec x t) (some-injective i id e)

  -- `_evict_oldest` drops the first id of the list, which the removal of an older one filled with the
  -- newest: on a valid index, after the first id of at least two is removed, the next eviction drops
  -- the last one of the list, and only that.
  pub evict_oldest-newest :
      (oldest newest : Text) (t : Index V)
      → IsValid dec t
      → 1 < length t.ids
      → get_elem? t.ids 0 ≡ some oldest
      → get_elem? t.ids (length t.ids - 1) ≡ some newest
      → (t1 : Index V) × (t2 : Index V) × (remove dec oldest t ≡ some t1)
        × (evict_oldest dec t1 ≡ some t2)
        × Dropped newest t1 t2
  unfolding evict_oldest
  evict_oldest-newest oldest newest t valid lt e f =
      let at = valid.known oldest 0 e in
      let (last_id, v, t1, eq, r) = remove-Removed oldest 0 t valid at in
      let d = Removed-Dropped oldest 0 _ last_id v t t1 valid at r in
      let (t2, eq2, d2) = remove-Dropped newest t1 d.valid in
      let first =
        ap (λ xs. get_elem? xs 0) r.ids_lem
        ∙ cut_self t.ids 0 _ last_id r.size (omega arith)
        ∙ sym r.id_last
        ∙ f in
      (t1, t2, eq, evict_first-remove newest t1.ids t1 first ∙ eq2, d2)
