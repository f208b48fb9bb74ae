-- ===== src/Tests/IndexTests.antt =====
-- An index of three one-dimensional vectors without numpy (core/bitmod/vector_index.py).
use bit_mod_ai_inference_cac.VectorIndex.Adding.{add-vector_of, Victim}
use bit_mod_ai_inference_cac.VectorIndex.Contents.{vector_of, remove-Dropped, Dropped}
use bit_mod_ai_inference_cac.VectorIndex.Storage.{vectors}
use bit_mod_ai_inference_cac.Prelude.{
  ◌≢◌, ◌≤◌, length, refl, zero, suc, arith, none, some, get_elem?, ◌≡◌, [], ◌∷◌, List, ℕ,
}
use bit_mod_ai_inference_cac.VectorIndex.{remove, add, python, position, Index}
use bit_mod_ai_inference_cac.AnswerKey.{Text}
use bit_mod_ai_inference_cac.VectorIndex.Removal.{IsValid}
use bit_mod_ai_inference_cac.Tests.KeyTests.{text_discrete}

abbrev a : Text
a = b'a' ∷ []

abbrev b : Text
b = b'b' ∷ []

abbrev c : Text
c = b'c' ∷ []

abbrev d : Text
d = b'd' ∷ []

abbrev three : Index ℕ
three = record {
  ids = a ∷ b ∷ c ∷ [];
  store = python (10 ∷ 20 ∷ 30 ∷ []);
  id_to_pos = (a, 0) ∷ (b, 1) ∷ (c, 2) ∷ [];
  max_size = 3;
  clusters = none;
  vectors_at_last_build = 0;
}

abbrev same : ℕ → ℕ
same v = v

abbrev one_dimension : ℕ → ℕ
one_dimension v = 1

abbrev no_clusters : List ℕ → ℕ → List ℕ × List ℕ
no_clusters m n = ([], [])

three-listed :
    (id : Text) (p : ℕ)
    → position text_discrete id three.id_to_pos ≡ some p
    → get_elem? three.ids p ≡ some id
unfolding position
three-listed id p e = ground arith

three-known :
    (id : Text) (p : ℕ)
    → get_elem? three.ids p ≡ some id
    → position text_discrete id three.id_to_pos ≡ some p
unfolding position
three-known id zero e = ground arith
three-known id (suc zero) e = ground arith
three-known id (suc (suc zero)) e = ground arith
three-known id (suc (suc (suc p))) e = cc

three-IsValid : IsValid text_discrete three
unfolding vectors
three-IsValid = record { rows = refl; listed = three-listed; known = three-known }

add-vector_of_example :
    (t' : Index ℕ) × (add text_discrete same one_dimension no_clusters d 40 three ≡ some t')
    × IsValid text_discrete t'
    × (length t'.ids ≤ t'.max_size)
    × (vector_of text_discrete d t' ≡ some (same 40))
    × ((o : Text)
        → o ≢ d
        → ¬ Victim text_discrete d o three
        → vector_of text_discrete o t' ≡ vector_of text_discrete o three)
add-vector_of_example =
    add-vector_of text_discrete same one_dimension no_clusters d 40 three (λ x y. refl)
      three-IsValid (omega arith) (omega arith)

remove-Dropped_example :
    (t' : Index ℕ) × (remove text_discrete b three ≡ some t') × Dropped text_discrete b three t'
remove-Dropped_example = remove-Dropped text_discrete b three three-IsValid
