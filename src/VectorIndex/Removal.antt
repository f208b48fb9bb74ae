-- ===== src/VectorIndex/Removal.antt =====
-- core/bitmod/vector_index.py: `remove` on an index whose dict and lists agree.
use mathlib.Core.Option.{some-injective}
use bit_mod_ai_inference_cac.VectorIndex.Dict.{
  cut_ne, cut_self, length-cut, cut_lt, position-put_self, position-del_ne, position-del_self,
  position-put_ne, set_same, assign_lem, pop_lem, get_elem?-lt,
}
use bit_mod_ai_inference_cac.VectorIndex.Storage.{move_row-vectors, truncate-vectors, vectors}
use bit_mod_ai_inference_cac.Prelude.{
  ℕ_discrete, ◌<◌, ◌≤◌, refl, false, true, ◌==◌, arith, ◌-◌, length-set, ap, sym, none, ◌∙◌, set,
  ◌≢◌, take, get_elem?, some, suc, ◌≡◌, length, ℕ,
}
use bit_mod_ai_inference_cac.VectorIndex.{
  invalidate, put, del, truncate_last, swap_last, position, remove_at, remove, Index,
}
use bit_mod_ai_inference_cac.AnswerKey.{Text}

pub none-some : (p : ℕ) → none ≡ some p → ⊥
none-some p e = cc

pub n<n : {a b : ℕ} → a < b → a ≡ b → ⊥
n<n lt e = omega arith

module _ {ℓ} {V : Type ℓ} where
  -- A row to each id, and the dict is the inverse of the list of ids.
  pub record IsValid (dec : Discrete Text) (t : Index V) : Type ℓ where
    pub rows : length (vectors t.store) ≡ length t.ids
    pub listed :
        (id : Text) (p : ℕ) → position dec id t.id_to_pos ≡ some p → get_elem? t.ids p ≡ some id
    pub known :
        (id : Text) (p : ℕ) → get_elem? t.ids p ≡ some id → position dec id t.id_to_pos ≡ some p

  -- The last entry, `last_id` with the row `v`, stands in the place of the removed one.
  pub record Removed (dec : Discrete Text) (id : Text) (pos last : ℕ) (last_id : Text) (v : V)
      (t t' : Index V) : Type ℓ where
    pub size : length t.ids ≡ suc last
    pub id_last : get_elem? t.ids last ≡ some last_id
    pub row_last : get_elem? (vectors t.store) last ≡ some v
    pub ids_lem : t'.ids ≡ take last (set t.ids pos last_id)
    pub rows_lem : vectors t'.store ≡ take last (set (vectors t.store) pos v)
    pub gone : position dec id t'.id_to_pos ≡ none
    pub moved : last_id ≢ id → position dec last_id t'.id_to_pos ≡ some pos
    pub others :
        (other : Text)
        → other ≢ id
        → other ≢ last_id
        → position dec other t'.id_to_pos ≡ position dec other t.id_to_pos
    pub max_lem : t'.max_size ≡ t.max_size

  module _ (dec : Discrete Text) (id : Text) (pos last : ℕ) (last_id : Text) (v : V)
      (t : Index V) where
    pub remove-last :
        IsValid dec t
        → position dec id t.id_to_pos ≡ some pos
        → length t.ids ≡ suc last
        → get_elem? t.ids last ≡ some last_id
        → get_elem? (vectors t.store) last ≡ some v
        → pos ≡ last
        → (t' : Index V) × (remove dec id t ≡ some t') × Removed dec id pos last last_id v t t'
    unfolding remove remove_at swap_last truncate_last
    remove-last valid at size e f same =
        let (store, cut, cut_lem) = truncate-vectors t.store last (valid.rows ∙ size) in
        let here = valid.listed id pos at in
        let is_id = some-injective id last_id (sym here ∙ ap (get_elem? t.ids) same ∙ e) in
        let last_lem : length t.ids - 1 ≡ last = omega arith in
        let test : (pos == last) ≡ true = ground arith in
        (
          record t {
            ids = take last t.ids;
            store = store;
            id_to_pos = del dec id t.id_to_pos;
            clusters = invalidate t.store t.clusters;
          },
          rw (at, last_lem, test, pop_lem t.ids last size, cut) refl,
          record {
            size = size;
            id_last = e;
            row_last = f;
            ids_lem =
                ap (take last)
                  (sym (ap (λ p. set t.ids p last_id) same ∙ set_same t.ids last last_id e));
            rows_lem =
                cut_lem
                ∙ ap (take last) (
                    sym (
                      ap (λ p. set (vectors t.store) p v) same
                      ∙ set_same (vectors t.store) last v f));
            gone = position-del_self dec id t.id_to_pos;
            moved = λ ne. absurd (ne (sym is_id));
            others = λ other ne ne'. position-del_ne dec id other t.id_to_pos ne;
            max_lem = refl;
          },
        )

    pub remove-inner :
        IsValid dec t
        → position dec id t.id_to_pos ≡ some pos
        → length t.ids ≡ suc last
        → get_elem? t.ids last ≡ some last_id
        → get_elem? (vectors t.store) last ≡ some v
        → pos ≢ last
        → (t' : Index V) × (remove dec id t ≡ some t') × Removed dec id pos last last_id v t t'
    unfolding remove remove_at swap_last truncate_last
    remove-inner valid at size e f ne =
        let lt = get_elem?-lt t.ids pos id (valid.listed id pos at) in
        let (store1, move, move_lem) = move_row-vectors t.store pos last v f (rw valid.rows lt) in
        let (store2, cut, cut_lem) =
          truncate-vectors store1 last
            (ap length move_lem ∙ length-set (vectors t.store) pos v ∙ valid.rows ∙ size) in
        let last_lem : length t.ids - 1 ≡ last = omega arith in
        let test : (pos == last) ≡ false = ground arith in
        let new_size = length-set t.ids pos last_id ∙ size in
        let is_other : id ≢ last_id =
          λ q. ne (some-injective pos last (sym at ∙ valid.known id last (e ∙ ap some (sym q)))) in
        (
          record t {
            ids = take last (set t.ids pos last_id);
            store = store2;
            id_to_pos = put dec last_id pos (del dec id t.id_to_pos);
            clusters = invalidate store1 t.clusters;
          },
          rw
              (
                at,
                last_lem,
                test,
                e,
                assign_lem t.ids pos last_id lt,
                move,
                pop_lem (set t.ids pos last_id) last new_size,
                cut,
              )
              refl,
          record {
            size = size;
            id_last = e;
            row_last = f;
            ids_lem = refl;
            rows_lem = cut_lem ∙ ap (take last) move_lem;
            gone =
                position-put_ne dec last_id pos id (del dec id t.id_to_pos) is_other
                ∙ position-del_self dec id t.id_to_pos;
            moved = λ q. position-put_self dec last_id pos (del dec id t.id_to_pos);
            others = λ other q q'.
                position-put_ne dec last_id pos other (del dec id t.id_to_pos) q'
                ∙ position-del_ne dec id other t.id_to_pos q;
            max_lem = refl;
          },
        )

  module _ (dec : Discrete Text) (id : Text) (pos last : ℕ) (last_id : Text) (v : V)
      (t t' : Index V) (valid : IsValid dec t) (at : position dec id t.id_to_pos ≡ some pos)
      (r : Removed dec id pos last last_id v t t') where
    pub pos-le : pos ≤ last
    pos-le = omega (arith, get_elem?-lt t.ids pos id (valid.listed id pos at), r.size)

    pub last_known : position dec last_id t.id_to_pos ≡ some last
    last_known = valid.known last_id last r.id_last

    pub inner : last_id ≢ id → pos < last
    inner ne = elim (ℕ_discrete pos last) [
      | yes p ↦ absurd (
          ne (
            some-injective last_id id
              (sym r.id_last ∙ ap (get_elem? t.ids) (sym p) ∙ valid.listed id pos at)))
      | no p ↦ omega (arith, pos-le)
    ]

    Removed-listed :
        (o : Text) (p : ℕ) → position dec o t'.id_to_pos ≡ some p → get_elem? t'.ids p ≡ some o
    Removed-listed o p e = elim (dec o id) [
      | yes q ↦
          absurd (none-some p (sym r.gone ∙ ap (λ x. position dec x t'.id_to_pos) (sym q) ∙ e))
      | no q ↦ elim (dec o last_id) [
        | yes s ↦
            let ne : last_id ≢ id = λ z. q (s ∙ z) in
            let same =
              some-injective pos p
                (sym (r.moved ne) ∙ ap (λ x. position dec x t'.id_to_pos) (sym s) ∙ e) in
            ap (λ xs. get_elem? xs p) r.ids_lem
            ∙ ap (get_elem? (take last (set t.ids pos last_id))) (sym same)
            ∙ cut_self t.ids pos last last_id r.size (inner ne)
            ∙ ap some (sym s)
        | no s ↦
            let g = valid.listed o p (sym (r.others o q s) ∙ e) in
            let ne : pos ≢ p = λ z. q (
              some-injective o id
                (sym g ∙ ap (get_elem? t.ids) (sym z) ∙ valid.listed id pos at)) in
            let ne' : p ≢ last =
              λ z. s (some-injective o last_id (sym g ∙ ap (get_elem? t.ids) z ∙ r.id_last)) in
            ap (λ xs. get_elem? xs p) r.ids_lem
            ∙ cut_ne t.ids pos last p last_id (omega (arith, get_elem?-lt t.ids p o g, r.size)) ne
            ∙ g
      ]
    ]

    Removed-known :
        (o : Text) (p : ℕ) → get_elem? t'.ids p ≡ some o → position dec o t'.id_to_pos ≡ some p
    Removed-known o p e =
        let e' = ap (λ xs. get_elem? xs p) (sym r.ids_lem) ∙ e in
        let lt = cut_lt (set t.ids pos last_id) last p o e' in
        elim (ℕ_discrete pos p) [
          | yes q ↦
              let lt' : pos < last = omega arith in
              let is_last = some-injective o last_id (
                sym e'
                ∙ ap (get_elem? (take last (set t.ids pos last_id))) (sym q)
                ∙ cut_self t.ids pos last last_id r.size lt') in
              let ne : last_id ≢ id = λ z. n<n lt' (
                some-injective pos last
                  (sym at ∙ ap (λ x. position dec x t.id_to_pos) (sym z) ∙ last_known)) in
              ap (λ x. position dec x t'.id_to_pos) is_last ∙ r.moved ne ∙ ap some q
          | no q ↦
              let g = sym (cut_ne t.ids pos last p last_id lt q) ∙ e' in
              let k = valid.known o p g in
              let ne : o ≢ id = λ z. q (
                some-injective pos p (sym at ∙ ap (λ x. position dec x t.id_to_pos) (sym z) ∙ k)) in
              let ne' : o ≢ last_id = λ z. n<n lt (
                some-injective p last
                  (sym k ∙ ap (λ x. position dec x t.id_to_pos) z ∙ last_known)) in
              r.others o ne ne' ∙ k
        ]

    pub Removed-IsValid : IsValid dec t'
    Removed-IsValid = record {
      rows =
          ap length r.rows_lem
          ∙ length-cut (vectors t.store) pos last v (valid.rows ∙ r.size)
          ∙ sym (ap length r.ids_lem ∙ length-cut t.ids pos last last_id r.size);
      listed = Removed-listed;
      known = Removed-known;
    }
