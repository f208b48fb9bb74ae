-- ===== src/VectorIndex/Dict.antt =====
-- core/bitmod/vector_index.py: the dict `_id_to_pos`, and lists cut and written at an index.
use bit_mod_ai_inference_cac.VectorIndex.{Positions, put, del, assign, position, pop, copy}
use bit_mod_ai_inference_cac.Prelude.{
  length-set, min, get_elem?-set_ne, get_elem?-set_self, length-take, ◌∙◌, refl, zero, ap, set, [],
  arith, ◌≢◌, none, ◌∷◌, some, suc, ◌++◌, ◌≡◌, take, length, get_elem?, ◌<◌, List, ℕ,
}
use bit_mod_ai_inference_cac.AnswerKey.{Text}

module _ (dec : Discrete Text) where
  pub position-del_self : (id : Text) (ps : Positions) → position dec id (del dec id ps) ≡ none
  unfolding position del
  position-del_self id [] = refl
  position-del_self id ((i, p) ∷ ps) = ground (arith, position-del_self id ps)

  pub position-del_ne :
      (id other : Text) (ps : Positions)
      → other ≢ id
      → position dec other (del dec id ps) ≡ position dec other ps
  unfolding position del
  position-del_ne id other [] ne = refl
  position-del_ne id other ((i, p) ∷ ps) ne = ground (arith, position-del_ne id other ps ne)

  pub position-put_self :
      (id : Text) (p : ℕ) (ps : Positions) → position dec id (put dec id p ps) ≡ some p
  unfolding position put
  position-put_self id p ps = ground arith

  pub position-put_ne :
      (id : Text) (p : ℕ) (other : Text) (ps : Positions)
      → other ≢ id
      → position dec other (put dec id p ps) ≡ position dec other ps
  unfolding position put
  position-put_ne id p other ps ne = ground (arith, position-del_ne id other ps ne)

pub zero≢suc : (n : ℕ) → 0 ≢ suc n
zero≢suc n e = omega arith

module _ {ℓ} {A : Type ℓ} where
  pub get_elem?-take :
      (n : ℕ) (xs : List A) (i : ℕ) → i < n → get_elem? (take n xs) i ≡ get_elem? xs i
  get_elem?-take zero xs i h = elim h [ ]
  get_elem?-take (suc n) [] i h = refl
  get_elem?-take (suc n) (x ∷ xs) zero h = refl
  get_elem?-take (suc n) (x ∷ xs) (suc i) h = get_elem?-take n xs i (omega arith)

  pub get_elem?-lt : (xs : List A) (i : ℕ) (x : A) → get_elem? xs i ≡ some x → i < length xs
  get_elem?-lt [] i x e = cc
  get_elem?-lt (y ∷ xs) zero x e = omega arith
  get_elem?-lt (y ∷ xs) (suc i) x e = omega (arith, get_elem?-lt xs i x e)

  pub lt-get_elem? : (xs : List A) (i : ℕ) → i < length xs → (x : A) × (get_elem? xs i ≡ some x)
  lt-get_elem? [] i h = elim h [ ]
  lt-get_elem? (x ∷ xs) zero h = (x, refl)
  lt-get_elem? (x ∷ xs) (suc i) h = lt-get_elem? xs i (omega arith)

  pub get_elem?-append :
      (xs : List A) (y : A) (i : ℕ) → i < length xs → get_elem? (xs ++ y ∷ []) i ≡ get_elem? xs i
  get_elem?-append [] y i h = elim h [ ]
  get_elem?-append (x ∷ xs) y zero h = refl
  get_elem?-append (x ∷ xs) y (suc i) h = get_elem?-append xs y i (omega arith)

  pub get_elem?-end : (xs : List A) (y : A) → get_elem? (xs ++ y ∷ []) (length xs) ≡ some y
  get_elem?-end [] y = refl
  get_elem?-end (x ∷ xs) y = get_elem?-end xs y

  pub set_same : (xs : List A) (i : ℕ) (x : A) → get_elem? xs i ≡ some x → set xs i x ≡ xs
  set_same [] i x e = refl
  set_same (y ∷ xs) zero x e = cc
  set_same (y ∷ xs) (suc i) x e = ap (◌∷◌ y) (set_same xs i x e)

  pub assign_lem : (xs : List A) (i : ℕ) (x : A) → i < length xs → assign xs i x ≡ some (set xs i x)
  unfolding assign
  assign_lem xs i x lt = ground arith

  pub copy_lem :
      (xs : List A) (pos last : ℕ) (x : A)
      → get_elem? xs last ≡ some x
      → pos < length xs
      → copy xs pos last ≡ some (set xs pos x)
  unfolding copy assign
  copy_lem xs pos last x e lt = rw e (ground arith)

  pub pop_lem : (xs : List A) (last : ℕ) → length xs ≡ suc last → pop xs ≡ some (take last xs)
  unfolding pop
  pop_lem [] last e = absurd (zero≢suc last e)
  pop_lem (x ∷ xs) last e = let same : length xs ≡ last = omega arith in rw same refl

  -- The list with its last element moved to the index.
  pub cut_self :
      (xs : List A) (pos last : ℕ) (x : A)
      → length xs ≡ suc last
      → pos < last
      → get_elem? (take last (set xs pos x)) pos ≡ some x
  cut_self xs pos last x size lt =
      get_elem?-take last (set xs pos x) pos lt ∙ get_elem?-set_self xs pos x (omega arith)

  pub cut_ne :
      (xs : List A) (pos last i : ℕ) (x : A)
      → i < last
      → pos ≢ i
      → get_elem? (take last (set xs pos x)) i ≡ get_elem? xs i
  cut_ne xs pos last i x lt ne = get_elem?-take last (set xs pos x) i lt ∙ get_elem?-set_ne xs x ne

  pub cut_lt : (xs : List A) (last i : ℕ) (y : A) → get_elem? (take last xs) i ≡ some y → i < last
  cut_lt xs last i y e = omega (arith, get_elem?-lt (take last xs) i y e, length-take last xs)

  pub length-cut :
      (xs : List A) (pos last : ℕ) (x : A)
      → length xs ≡ suc last
      → length (take last (set xs pos x)) ≡ last
  length-cut xs pos last x size =
      length-take last (set xs pos x) ∙ ap (min last) (length-set xs pos x ∙ size) ∙ omega arith
