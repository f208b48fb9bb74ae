-- ===== src/Tests/KeyTests.antt =====
-- Answer keys of small texts (core/bitmod/cache_engine.py), with the text itself as its digest.
use bit_mod_ai_inference_cac.AnswerKey.Scoping.{compute_answer_key-namespace}
use bit_mod_ai_inference_cac.Prelude.{◌≢◌, some, [], none, ◌∷◌, ℕ_discrete}
use bit_mod_ai_inference_cac.AnswerKey.{english, compute_answer_key, Scope, Text}

unfoldable pub text_discrete : Discrete Text
text_discrete = hlevel ℕ_discrete

abbrev tenant : Text
tenant = b'a' ∷ []

abbrev question : Text
question = b'q' ∷ []

abbrev digest : Text → Text
digest t = t

abbrev scope : Scope
scope = record {
  temporal_scope = none;
  language = some english;
  namespace_id = none;
  project_id = none;
}

compute_answer_key-namespace_example :
    compute_answer_key text_discrete digest question []
      (record scope { namespace_id = some tenant })
    ≢ compute_answer_key text_discrete digest question [] (record scope { namespace_id = none })
compute_answer_key-namespace_example =
    compute_answer_key-namespace text_discrete question digest [] scope (some tenant) none
      (λ x y e. e) tt tt (λ e. cc)
