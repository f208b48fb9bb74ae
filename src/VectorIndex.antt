-- ===== src/VectorIndex.antt =====
-- core/bitmod/vector_index.py: `VectorIndex` (`add`, `remove`, `_evict_oldest`, the early
-- returns of `build_clusters`). The type of the vectors, their L2 normalisation and dimension, and the
-- k-means of numpy are parameters. A result `none` is an IndexError.
pub mod Dict
pub mod Storage
pub mod Removal
pub mod Contents
pub mod Adding
use bit_mod_ai_inference_cac.AnswerKey.{Text}
use bit_mod_ai_inference_cac.Prelude.{
  ◌*◌, ◌&&◌, ◌-◌, set, ◌++◌, [], leb, length, ◌==◌, equal, take, ltb, ◌>>=◌, some, ◌∷◌, get_elem?,
  none, if◌then◌else◌, ℕ, List, Option,
}

-- The field that holds the vectors: `_matrix` with numpy, `_rows` without.
pub data Store {ℓ} (V : Type ℓ) : Type ℓ where
  numpy : Option (List V) → Store V
  python : List V → Store V

-- `_id_to_pos`, as its items.
abbrev pub Positions : Type 0
Positions = List (Text × ℕ)

pub record Index {ℓ} (V : Type ℓ) : Type ℓ where
  pub ids : List Text
  pub store : Store V
  pub id_to_pos : Positions
  pub max_size : ℕ
  pub clusters : Option (List V × List ℕ)
  pub vectors_at_last_build : ℕ

-- `xs[i] = v`, with an IndexError out of range.
unfoldable pub assign {ℓ} : {A : Type ℓ} → List A → ℕ → A → Option (List A)
assign xs i v = if ltb i (length xs) then some (set xs i v) else none

-- `xs.pop()`
unfoldable pub pop {ℓ} : {A : Type ℓ} → List A → Option (List A)
pop [] = none
pop (x ∷ xs) = some (take (length xs) (x ∷ xs))

-- `xs[pos] = xs[last]`
unfoldable pub copy {ℓ} : {A : Type ℓ} → List A → ℕ → ℕ → Option (List A)
unfolding assign
copy xs pos last = get_elem? xs last >>= (λ x. assign xs pos x)

module _ (dec : Discrete Text) where
  unfoldable pub position : Text → Positions → Option ℕ
  position id [] = none
  position id ((i, p) ∷ ps) = if equal dec i id then some p else position id ps

  unfoldable pub del : Text → Positions → Positions
  del id [] = []
  del id ((i, p) ∷ ps) = let rest = del id ps in if equal dec i id then rest else (i, p) ∷ rest

  unfoldable pub put : Text → ℕ → Positions → Positions
  unfolding del
  put id p ps = (id, p) ∷ del id ps

module _ {ℓ} {V : Type ℓ} where
  unfoldable pub move_row : ℕ → ℕ → Store V → Option (Store V)
  unfolding copy
  move_row pos last (numpy none) = some (numpy none)
  move_row pos last (numpy (some m)) = copy m pos last >>= (λ m'. some (numpy (some m')))
  move_row pos last (python rows) = copy rows pos last >>= (λ rows'. some (python rows'))

  unfoldable pub truncate : ℕ → Store V → Option (Store V)
  unfolding pop
  truncate last (numpy none) = some (numpy none)
  truncate last (numpy (some m)) = some (numpy (if ltb 0 last then some (take last m) else none))
  truncate last (python rows) = pop rows >>= (λ rows'. some (python rows'))

  -- Clusters are dropped with numpy.
  abbrev pub invalidate : Store V → Option (List V × List ℕ) → Option (List V × List ℕ)
  invalidate (numpy m) clusters = none
  invalidate (python rows) clusters = clusters

  unfoldable pub append_row : (V → ℕ) → V → Store V → Option (Store V)
  append_row dim v (numpy none) = some (numpy (some (v ∷ [])))
  append_row dim v (numpy (some [])) = some (numpy (some (v ∷ [])))
  append_row dim v (numpy (some (r ∷ m))) =
      if dim v == dim r then some (numpy (some ((r ∷ m) ++ v ∷ []))) else none
  append_row dim v (python rows) = some (python (rows ++ v ∷ []))

  abbrev pub build_from : (List V → ℕ → List V × List ℕ) → ℕ → Store V → Index V → Index V
  build_from kmeans n (python rows) t = t
  build_from kmeans n (numpy none) t = t
  build_from kmeans n (numpy (some m)) t =
      if ltb (length m) n
      then t
      else record t { clusters = some (kmeans m n); vectors_at_last_build = length m }

  unfoldable pub build_clusters : (List V → ℕ → List V × List ℕ) → ℕ → Index V → Index V
  build_clusters kmeans n t = build_from kmeans n t.store t

  -- The rebuild at the end of `add`.
  unfoldable pub rebuild :
      (List V → ℕ → List V × List ℕ) → Index V → Option (List V × List ℕ) → Index V
  unfolding build_clusters
  rebuild kmeans t none = t
  rebuild kmeans t (some (centroids, assignments)) =
      if ltb 0 t.vectors_at_last_build && leb (t.vectors_at_last_build * 2) (length t.ids)
      then build_clusters kmeans (length centroids) t
      else t

  module _ (dec : Discrete Text) where
    -- The swap with the last element, where the removed one is not the last.
    unfoldable pub swap_last : ℕ → ℕ → Index V → Option (Index V)
    unfolding put move_row assign
    swap_last pos last t =
        if pos == last
        then some t
        else (get_elem? t.ids last >>= (λ last_id. assign t.ids pos last_id >>= (λ ids.
            move_row pos last t.store >>= (λ store. some (record t {
              ids = ids;
              store = store;
              id_to_pos = put dec last_id pos t.id_to_pos;
            })))))

    unfoldable pub truncate_last : ℕ → Index V → Option (Index V)
    unfolding truncate pop
    truncate_last last t = pop t.ids >>= (λ ids. truncate last t.store >>= (λ store.
        some (record t { ids = ids; store = store; clusters = invalidate t.store t.clusters })))

    unfoldable pub remove_at : Text → Option ℕ → Index V → Option (Index V)
    unfolding swap_last truncate_last del
    remove_at id none t = some t
    remove_at id (some pos) t =
        swap_last pos (length t.ids - 1) (record t { id_to_pos = del dec id t.id_to_pos })
        >>= truncate_last (length t.ids - 1)

    unfoldable pub remove : Text → Index V → Option (Index V)
    unfolding position remove_at
    remove id t = remove_at id (position dec id t.id_to_pos) t

    unfoldable pub evict_first : List Text → Index V → Option (Index V)
    unfolding remove
    evict_first [] t = some t
    evict_first (i ∷ ids) t = remove i t

    unfoldable pub evict_oldest : Index V → Option (Index V)
    unfolding evict_first
    evict_oldest t = evict_first t.ids t

    abbrev pub remove_known : Text → Option ℕ → Index V → Option (Index V)
    remove_known id none t = some t
    remove_known id (some pos) t = remove id t

    -- The first two tests of `add`.
    unfoldable pub make_room : Text → Index V → Option (Index V)
    unfolding remove evict_oldest
    make_room id t =
        remove_known id (position dec id t.id_to_pos) t
        >>= (λ t1. if leb t1.max_size (length t1.ids) then evict_oldest t1 else some t1)

    unfoldable pub insert :
        (List V → ℕ → List V × List ℕ) → Text → Option (Store V) → Index V → Index V
    unfolding put rebuild
    insert kmeans id none t = t
    insert kmeans id (some store) t =
        let t' = record t {
          ids = t.ids ++ id ∷ [];
          store = store;
          id_to_pos = put dec id (length t.ids) t.id_to_pos;
        } in
        rebuild kmeans t' t'.clusters

    unfoldable pub add :
        (V → V) → (V → ℕ) → (List V → ℕ → List V × List ℕ) → Text → V → Index V → Option (Index V)
    unfolding make_room append_row insert
    add normalize dim kmeans id embedding t =
        make_room id t
        >>= (λ t2. some (insert kmeans id (append_row dim (normalize embedding) t2.store) t2))
