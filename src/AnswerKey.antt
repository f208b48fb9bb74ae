-- ===== src/AnswerKey.antt =====
-- core/bitmod/cache_engine.py: `compute_answer_key`. A text is the list of its characters; the
-- normalised query, which Queries makes, and SHA-256 are arguments. A dict of filters is
-- its items in the order of `sorted(filters.keys())`.
pub mod Scoping
pub use bit_mod_ai_inference_cac.Strings.{Text}
use bit_mod_ai_inference_cac.Prelude.{
  ℕ, List, [], ◌∷◌, ◌++◌, Bool, true, false, ◌&&◌, not, Option, none, some, if◌then◌else◌, equal,
}

abbrev pub is_empty : Text → Bool
is_empty [] = true
is_empty (c ∷ t) = false

-- `"|".join(parts)`
unfoldable pub join : List Text → Text
join [] = []
join (p ∷ []) = p
join (p ∷ q ∷ ps) = p ++ (b'|' ∷ join (q ∷ ps))

-- `parts.append(f"{prefix}:{value}")`, if the value is there and not empty.
abbrev pub labelled : Text → Option Text → List Text
labelled prefix none = []
labelled prefix (some value) = if is_empty value then [] else (prefix ++ b':' ∷ value) ∷ []

unfoldable pub filter_parts : List (Text × Text) → List Text
filter_parts [] = []
filter_parts ((key, value) ∷ items) = labelled key (some value) ++ filter_parts items

abbrev pub temporal_label : Text
temporal_label = b't' ∷ b'e' ∷ b'm' ∷ b'p' ∷ b'o' ∷ b'r' ∷ b'a' ∷ b'l' ∷ []

abbrev pub lang_label : Text
lang_label = b'l' ∷ b'a' ∷ b'n' ∷ b'g' ∷ []

abbrev pub ns_label : Text
ns_label = b'n' ∷ b's' ∷ []

abbrev pub proj_label : Text
proj_label = b'p' ∷ b'r' ∷ b'o' ∷ b'j' ∷ []

abbrev pub english : Text
english = b'e' ∷ b'n' ∷ []

-- The scope arguments of the function.
pub record Scope : Type 0 where
  pub temporal_scope : Option Text
  pub language : Option Text
  pub namespace_id : Option Text
  pub project_id : Option Text

module _ (dec : Discrete Text) where
  -- `language and language != "en"`
  abbrev pub foreign : Option Text → Option Text
  foreign none = none
  foreign (some language) = if equal dec language english then none else some language

  unfoldable pub parts : Text → List (Text × Text) → Scope → List Text
  unfolding filter_parts
  parts normalized filters s =
      normalized
      ∷ (filter_parts filters
          ++ (labelled temporal_label s.temporal_scope
              ++ (labelled lang_label (foreign s.language)
                  ++ (labelled ns_label s.namespace_id ++ labelled proj_label s.project_id))))

  unfoldable pub compute_answer_key : (Text → Text) → Text → List (Text × Text) → Scope → Text
  compute_answer_key sha256 normalized filters s = sha256 (join (parts normalized filters s))
