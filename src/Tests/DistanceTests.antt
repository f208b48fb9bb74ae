-- ===== src/Tests/DistanceTests.antt =====
-- Edit distances of small texts (core/bitmod/cache_engine.py).
use bit_mod_ai_inference_cac.Levenshtein.Distance.{
  levenshtein_distance_metric, longer, levenshtein_distance-IsLeast, IsLeast,
}
use bit_mod_ai_inference_cac.Levenshtein.{levenshtein_distance}
use bit_mod_ai_inference_cac.Prelude.{◌+◌, refl, ◌≤◌, some, [], ◌↔◌, ℕ_discrete, ◌∷◌, ◌≡◌, ℕ, List}

abbrev cat : List ℕ
cat = 1 ∷ 2 ∷ 3 ∷ []

abbrev cut : List ℕ
cut = 1 ∷ 4 ∷ 3 ∷ []

abbrev cuts : List ℕ
cuts = 1 ∷ 4 ∷ 3 ∷ 5 ∷ []

one : levenshtein_distance ℕ_discrete cat cut ≡ some 1
unfolding levenshtein_distance ℕ_discrete
one = refl

one' : levenshtein_distance ℕ_discrete cut cuts ≡ some 1
unfolding levenshtein_distance ℕ_discrete
one' = refl

two : levenshtein_distance ℕ_discrete cat cuts ≡ some 2
unfolding levenshtein_distance ℕ_discrete
two = refl

levenshtein_distance-IsLeast_example :
    (d : ℕ) × (levenshtein_distance ℕ_discrete cat cuts ≡ some d) × IsLeast cat cuts d
levenshtein_distance-IsLeast_example = levenshtein_distance-IsLeast ℕ_discrete cat cuts

levenshtein_distance_metric_example :
    ((◌≡◌ {A = ℕ} 1 0) ↔ (cat ≡ cut))
    × (levenshtein_distance ℕ_discrete cut cat ≡ some 1)
    × (2 ≤ 1 + 1)
    × (1 ≤ longer cat cut)
levenshtein_distance_metric_example =
    levenshtein_distance_metric ℕ_discrete cat cut cuts 1 1 2 one one' two
