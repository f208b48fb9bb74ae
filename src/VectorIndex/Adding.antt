-- ===== src/VectorIndex/Adding.antt =====
-- core/bitmod/vector_index.py: `add` on a valid index.
use mathlib.Core.Option.{some-injective}
use bit_mod_ai_inference_cac.VectorIndex.Storage.{append_row-vectors, vectors}
use bit_mod_ai_inference_cac.VectorIndex.Dict.{
  get_elem?-append, get_elem?-end, position-put_ne, position-put_self, get_elem?-lt, lt-get_elem?,
}
use bit_mod_ai_inference_cac.Prelude.{
  suc, ◌*◌, ◌&&◌, ℕ_discrete, ltb, ◌+◌, length-append, [], ◌++◌, leb→le, Option, Bool-cases, ◌>>=◌,
  ap, arith, ◌∙◌, lt→leb, sym, false, inr, leb, inl, refl, ◌∷◌, Option-cases, ◌≢◌, List, ◌≤◌, none,
  some, ◌<◌, ℕ, ◌≡◌, length, get_elem?,
}
use bit_mod_ai_inference_cac.VectorIndex.Contents.{evict_first-remove, remove-Dropped, vector_of}
use bit_mod_ai_inference_cac.VectorIndex.{
  add, append_row, insert, numpy, python, build_from, put, build_clusters, Store, rebuild, position,
  evict_oldest, make_room, Index,
}
use bit_mod_ai_inference_cac.AnswerKey.{Text}
use bit_mod_ai_inference_cac.VectorIndex.Removal.{none-some, IsValid}

module _ {ℓ} {V : Type ℓ} (dec : Discrete Text) where
  -- The entry that `add` drops for a new id: the first of a full index.
  pub record Victim (id o : Text) (t : Index V) : Type 0 where
    pub first : get_elem? t.ids 0 ≡ some o
    pub full : t.max_size ≤ length t.ids
    pub new : position dec id t.id_to_pos ≡ none

  record Room (id : Text) (t t2 : Index V) : Type ℓ where
    valid : IsValid dec t2
    free : length t2.ids < t.max_size
    absent : position dec id t2.id_to_pos ≡ none
    kept : (o : Text) → o ≢ id → ¬ Victim id o t → vector_of dec o t2 ≡ vector_of dec o t
    max_kept : t2.max_size ≡ t.max_size

  no_vector : {A : Type 0} (v : V) → none ≡ some v → A
  no_vector v e = cc

  absent_lem :
      (id : Text) (t : Index V)
      → IsValid dec t
      → vector_of dec id t ≡ none
      → position dec id t.id_to_pos ≡ none
  unfolding vector_of
  absent_lem id t valid e = elim (Option-cases (position dec id t.id_to_pos)) [
    | inl f ↦ f
    | inr (p, f) ↦
        let (v, g) =
          lt-get_elem? (vectors t.store) p
            (rw valid.rows (get_elem?-lt t.ids p id (valid.listed id p f))) in
        no_vector v (sym e ∙ ap (λ x. x >>= get_elem? (vectors t.store)) f ∙ g)
  ]

  known-vector_of :
      (id : Text) (t : Index V) → position dec id t.id_to_pos ≡ none → vector_of dec id t ≡ none
  unfolding vector_of
  known-vector_of id t e = rw e refl

  replaced :
      (id : Text) (p : ℕ) (t : Index V)
      → IsValid dec t
      → length t.ids ≤ t.max_size
      → position dec id t.id_to_pos ≡ some p
      → (t2 : Index V) × (make_room dec id t ≡ some t2) × Room id t t2
  unfolding make_room
  replaced id p t valid fits at =
      let (t1, eq, d) = remove-Dropped dec id t valid in
      let full : leb t1.max_size (length t1.ids) ≡ false =
        lt→leb t1.max_size (length t1.ids) (omega (arith, d.frees p at, d.max_kept)) in
      (
        t1,
        rw (at, eq, full) refl,
        record {
          valid = d.valid;
          free = omega (arith, d.frees p at);
          absent = absent_lem id t1 d.valid d.none_left;
          kept = λ o ne no. d.kept o ne;
          max_kept = d.max_kept;
        },
      )

  evicted :
      (id i : Text) (t : Index V)
      → get_elem? t.ids 0 ≡ some i
      → IsValid dec t
      → length t.ids ≤ t.max_size
      → t.max_size ≤ length t.ids
      → position dec id t.id_to_pos ≡ none
      → (t2 : Index V) × (evict_oldest dec t ≡ some t2) × Room id t t2
  unfolding evict_oldest
  evicted id i t first valid fits full e =
      let (t2, eq, d) = remove-Dropped dec i t valid in
      let at = valid.known i 0 first in
      let ne : id ≢ i = λ z. none-some 0 (sym e ∙ ap (λ x. position dec x t.id_to_pos) z ∙ at) in
      (
        t2,
        evict_first-remove dec i t.ids t first ∙ eq,
        record {
          valid = d.valid;
          free = omega (arith, d.frees 0 at);
          absent = absent_lem id t2 d.valid (d.kept id ne ∙ known-vector_of id t e);
          kept = λ o q no.
              d.kept o (λ z. no record { first = first ∙ ap some (sym z); full = full; new = e });
          max_kept = d.max_kept;
        },
      )

  spacious :
      (id : Text) (t : Index V)
      → IsValid dec t
      → 0 < t.max_size
      → length t.ids ≤ t.max_size
      → position dec id t.id_to_pos ≡ none
      → (t2 : Index V) × (make_room dec id t ≡ some t2) × Room id t t2
  unfolding make_room
  spacious id t valid lt fits e = elim (Bool-cases (leb t.max_size (length t.ids))) [
    | inl full ↦
        let (i, first) =
          lt-get_elem? t.ids 0 (omega (arith, leb→le t.max_size (length t.ids) full)) in
        let (t2, eq, room) =
          evicted id i t first valid fits (leb→le t.max_size (length t.ids) full) e in
        (t2, rw (e, full) eq, room)
    | inr space ↦ (
      t,
      rw (e, space) refl,
      record {
        valid = valid;
        free = ground arith;
        absent = e;
        kept = λ o ne no. refl;
        max_kept = refl;
      },
    )
  ]

  make_room-Room :
      (id : Text) (t : Index V)
      → IsValid dec t
      → 0 < t.max_size
      → length t.ids ≤ t.max_size
      → (t2 : Index V) × (make_room dec id t ≡ some t2) × Room id t t2
  make_room-Room id t valid lt fits = elim (Option-cases (position dec id t.id_to_pos)) [
    | inl e ↦ spacious id t valid lt fits e
    | inr (p, e) ↦ replaced id p t valid fits e
  ]

  build_from_lem :
      (kmeans : List V → ℕ → List V × List ℕ) (n : ℕ) (s : Store V) (t : Index V)
      → (c : Option (List V × List ℕ)) × (k : ℕ) × (build_from kmeans n s t
          ≡ record t { clusters = c; vectors_at_last_build = k })
  build_from_lem kmeans n (python rows) t = (t.clusters, t.vectors_at_last_build, refl)
  build_from_lem kmeans n (numpy none) t = (t.clusters, t.vectors_at_last_build, refl)
  build_from_lem kmeans n (numpy (some m)) t = elim (Bool-cases (ltb (length m) n)) [
    | inl e ↦ (t.clusters, t.vectors_at_last_build, rw e refl)
    | inr e ↦ (some (kmeans m n), length m, rw e refl)
  ]

  -- The rebuild of the clusters touches nothing else.
  rebuild_lem :
      (kmeans : List V → ℕ → List V × List ℕ) (t : Index V) (c : Option (List V × List ℕ))
      → (c' : Option (List V × List ℕ)) × (n : ℕ) × (rebuild kmeans t c
          ≡ record t { clusters = c'; vectors_at_last_build = n })
  unfolding rebuild build_clusters
  rebuild_lem kmeans t none = (t.clusters, t.vectors_at_last_build, refl)
  rebuild_lem kmeans t (some (centroids, assignments)) =
      elim (Bool-cases
        (ltb 0 t.vectors_at_last_build && leb (t.vectors_at_last_build * 2) (length t.ids))) [
          | inl e ↦
              let (c, k, eq) = build_from_lem kmeans (length centroids) t.store t in (c, k, rw e eq)
          | inr e ↦ (t.clusters, t.vectors_at_last_build, rw e refl)
        ]

  clustered :
      (t : Index V) (c : Option (List V × List ℕ)) (n : ℕ)
      → IsValid dec t
      → IsValid dec (record t { clusters = c; vectors_at_last_build = n })
  clustered t c n valid = record { rows = valid.rows; listed = valid.listed; known = valid.known }

  appended : Text → Store V → Index V → Index V
  appended id store t = record t {
    ids = t.ids ++ id ∷ [];
    store = store;
    id_to_pos = put dec id (length t.ids) t.id_to_pos;
  }

  module _ (id : Text) (v : V) (store : Store V) (t : Index V) (valid : IsValid dec t)
      (e : position dec id t.id_to_pos ≡ none)
      (rows : vectors store ≡ vectors t.store ++ v ∷ []) where
    appended-listed :
        (o : Text) (p : ℕ)
        → position dec o (appended id store t).id_to_pos ≡ some p
        → get_elem? (appended id store t).ids p ≡ some o
    unfolding appended
    appended-listed o p f = elim (dec o id) [
      | yes q ↦
          let last = some-injective (length t.ids) p (
            sym (position-put_self dec id (length t.ids) t.id_to_pos)
            ∙ ap (λ x. position dec x (put dec id (length t.ids) t.id_to_pos)) (sym q)
            ∙ f) in
          ap (get_elem? (t.ids ++ id ∷ [])) (sym last) ∙ get_elem?-end t.ids id ∙ ap some (sym q)
      | no q ↦
          let g =
            valid.listed o p (sym (position-put_ne dec id (length t.ids) o t.id_to_pos q) ∙ f) in
          get_elem?-append t.ids id p (get_elem?-lt t.ids p o g) ∙ g
    ]

    appended-known :
        (o : Text) (p : ℕ)
        → get_elem? (appended id store t).ids p ≡ some o
        → position dec o (appended id store t).id_to_pos ≡ some p
    unfolding appended
    appended-known o p f = elim (ℕ_discrete p (length t.ids)) [
      | yes q ↦
          let same =
            some-injective o id
              (sym f ∙ ap (get_elem? (t.ids ++ id ∷ [])) q ∙ get_elem?-end t.ids id) in
          ap (λ x. position dec x (put dec id (length t.ids) t.id_to_pos)) same
          ∙ position-put_self dec id (length t.ids) t.id_to_pos
          ∙ ap some (sym q)
      | no q ↦
          let lt : p < length t.ids =
            omega (arith, get_elem?-lt (t.ids ++ id ∷ []) p o f, length-append t.ids (id ∷ [])) in
          let at = valid.known o p (sym (get_elem?-append t.ids id p lt) ∙ f) in
          let ne : o ≢ id =
            λ z. none-some p (sym e ∙ ap (λ x. position dec x t.id_to_pos) (sym z) ∙ at) in
          position-put_ne dec id (length t.ids) o t.id_to_pos ne ∙ at
    ]

    appended-IsValid : IsValid dec (appended id store t)
    unfolding appended
    appended-IsValid = record {
      rows =
          ap length rows
          ∙ length-append (vectors t.store) (v ∷ [])
          ∙ ap (λ n. n + 1) valid.rows
          ∙ sym (length-append t.ids (id ∷ []));
      listed = appended-listed;
      known = appended-known;
    }

    appended-vector_of : vector_of dec id (appended id store t) ≡ some v
    unfolding appended vector_of
    appended-vector_of =
        rw (position-put_self dec id (length t.ids) t.id_to_pos, rows, sym valid.rows)
          (get_elem?-end (vectors t.store) v)

    appended-kept : (o : Text) → o ≢ id → vector_of dec o (appended id store t) ≡ vector_of dec o t
    unfolding appended vector_of
    appended-kept o ne = elim (Option-cases (position dec o t.id_to_pos)) [
      | inl f ↦ rw (position-put_ne dec id (length t.ids) o t.id_to_pos ne, f) refl
      | inr (p, f) ↦
          rw (position-put_ne dec id (length t.ids) o t.id_to_pos ne, f, rows)
            (get_elem?-append (vectors t.store) v p
              (rw valid.rows (get_elem?-lt t.ids p o (valid.listed o p f))))
    ]

  -- An `insert` into a valid index that does not have the id.
  record Inserted (id : Text) (v : V) (t t' : Index V) : Type ℓ where
    valid : IsValid dec t'
    found : vector_of dec id t' ≡ some v
    kept : (o : Text) → o ≢ id → vector_of dec o t' ≡ vector_of dec o t
    size : length t'.ids ≡ suc (length t.ids)
    max_kept : t'.max_size ≡ t.max_size

  insert-Inserted :
      (kmeans : List V → ℕ → List V × List ℕ) (id : Text) (v : V) (store : Store V) (t : Index V)
      → IsValid dec t
      → position dec id t.id_to_pos ≡ none
      → vectors store ≡ vectors t.store ++ v ∷ []
      → Inserted id v t (insert dec kmeans id (some store) t)
  unfolding insert appended vector_of
  insert-Inserted kmeans id v store t valid e rows =
      let (c, k, eq) = rebuild_lem kmeans (appended id store t) t.clusters in
      rw eq record {
        valid = clustered (appended id store t) c k (appended-IsValid id v store t valid e rows);
        found = appended-vector_of id v store t valid e rows;
        kept = appended-kept id v store t valid e rows;
        size = length-append t.ids (id ∷ []) ∙ omega arith;
        max_kept = refl;
      }

  append_row-some :
      (dim : V → ℕ) (v : V) (s : Store V)
      → ((a b : V) → dim a ≡ dim b)
      → (s' : Store V) × (append_row dim v s ≡ some s')
  unfolding append_row
  append_row-some dim v (numpy none) same = (numpy (some (v ∷ [])), refl)
  append_row-some dim v (numpy (some [])) same = (numpy (some (v ∷ [])), refl)
  append_row-some dim v (numpy (some (r ∷ m))) same =
      (numpy (some ((r ∷ m) ++ v ∷ [])), ground (arith, same v r))
  append_row-some dim v (python rows) same = (python (rows ++ v ∷ []), refl)

  -- On a valid index of at most max_size > 0 vectors, where all vectors have one dimension, `add`
  -- raises no IndexError; the result is again valid and not larger than max_size, has the normalised
  -- vector for the id, and what was there for every other id, but for the first id of a full index
  -- without the new one.
  pub add-vector_of :
      (normalize : V → V) (dim : V → ℕ) (kmeans : List V → ℕ → List V × List ℕ) (id : Text)
      (embedding : V) (t : Index V)
      → ((a b : V) → dim a ≡ dim b)
      → IsValid dec t
      → 0 < t.max_size
      → length t.ids ≤ t.max_size
      → (t' : Index V) × (add dec normalize dim kmeans id embedding t ≡ some t')
        × IsValid dec t'
        × (length t'.ids ≤ t'.max_size)
        × (vector_of dec id t' ≡ some (normalize embedding))
        × ((o : Text) → o ≢ id → ¬ Victim id o t → vector_of dec o t' ≡ vector_of dec o t)
  unfolding add
  add-vector_of normalize dim kmeans id embedding t same valid lt fits =
      let (t2, eq, room) = make_room-Room id t valid lt fits in
      let (store, row) = append_row-some dim (normalize embedding) t2.store same in
      let done =
        insert-Inserted kmeans id (normalize embedding) store t2 room.valid room.absent
          (append_row-vectors dim (normalize embedding) t2.store store row) in
      (
        insert dec kmeans id (some store) t2,
        rw (eq, row) refl,
        done.valid,
        omega (arith, done.size, done.max_kept, room.free, room.max_kept),
        done.found,
        λ o ne no. done.kept o ne ∙ room.kept o ne no,
      )
