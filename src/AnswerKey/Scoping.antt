-- ===== src/AnswerKey/Scoping.antt =====
-- Which answer keys differ (`compute_answer_key` of core/bitmod/cache_engine.py).
use bit_mod_ai_inference_cac.AnswerKey.{
  foreign, lang_label, proj_label, temporal_label, is_empty, Scope, filter_parts, ns_label,
  compute_answer_key, parts, labelled, some, Text, join,
}
use bit_mod_ai_inference_cac.Prelude.{
  refl, ◌∙◌, false, ◌≢◌, ap, sym, none, [], ◌≡◌, ◌++◌, ◌∷◌, Option, List,
}
use mathlib.Core.List.{append_cancel_left, append_cancel_right, append_assoc, append-nil}

-- The parts behind the first one, each with its separator.
abbrev glue : List Text → Text
glue [] = []
glue (p ∷ ps) = b'|' ∷ (p ++ glue ps)

join-glue : (p : Text) (ps : List Text) → join (p ∷ ps) ≡ p ++ glue ps
unfolding join
join-glue p [] = sym (append-nil p)
join-glue p (q ∷ ps) = rw (join-glue q ps) refl

glue-append : (ps qs : List Text) → glue (ps ++ qs) ≡ glue ps ++ glue qs
glue-append [] qs = refl
glue-append (p ∷ ps) qs =
    rw (glue-append ps qs) (ap (◌∷◌ b'|') (sym (append_assoc p (glue ps) (glue qs))))

-- A name that is absent or not empty.
abbrev pub IsName : Option Text → Type 0
IsName none = Unit
IsName (some []) = ⊥
IsName (some (c ∷ t)) = Unit

labelled-injective :
    (a b : Option Text)
    → IsName a
    → IsName b
    → glue (labelled ns_label a) ≡ glue (labelled ns_label b)
    → a ≡ b
labelled-injective none none p q e = refl
labelled-injective none (some []) p q e = absurd q
labelled-injective none (some (c ∷ t)) p q e = cc
labelled-injective (some []) b p q e = absurd p
labelled-injective (some (c ∷ t)) none p q e = cc
labelled-injective (some (c ∷ t)) (some []) p q e = absurd q
labelled-injective (some (c ∷ t)) (some (c' ∷ t')) p q e = ap some (
    append_cancel_right (c ∷ t) (c' ∷ t') []
      (append_cancel_left (b'|' ∷ b'n' ∷ b's' ∷ b':' ∷ []) _ _ e))

module _ (dec : Discrete Text) (normalized : Text) where
  -- The text before the namespace, and the text of the namespace and of the project.
  before : List (Text × Text) → Option Text → Option Text → Text
  before filters temporal language =
      normalized
      ++ (glue (filter_parts filters)
          ++ (glue (labelled temporal_label temporal)
              ++ glue (labelled lang_label (foreign dec language))))

  composite_lem :
      (filters : List (Text × Text)) (s : Scope)
      → join (parts dec normalized filters s)
        ≡ before filters s.temporal_scope s.language
          ++ (glue (labelled ns_label s.namespace_id) ++ glue (labelled proj_label s.project_id))
  unfolding parts before
  composite_lem filters s = rw join-glue (simp (glue-append, append_assoc) refl)

  -- If SHA-256 has no collision, the same query with the same filters, time, language and project
  -- has different keys in namespaces with different names that are not empty, and in such a
  -- namespace and in none.
  pub compute_answer_key-namespace :
      (sha256 : Text → Text) (filters : List (Text × Text)) (s : Scope) (a b : Option Text)
      → ((x y : Text) → sha256 x ≡ sha256 y → x ≡ y)
      → IsName a
      → IsName b
      → a ≢ b
      → compute_answer_key dec sha256 normalized filters (record s { namespace_id = a })
        ≢ compute_answer_key dec sha256 normalized filters (record s { namespace_id = b })
  unfolding compute_answer_key
  compute_answer_key-namespace sha256 filters s a b inj p q ne e =
      let composites = inj _ _ e in
      let middles = append_cancel_left (before filters s.temporal_scope s.language) _ _ (
        sym (composite_lem filters (record s { namespace_id = a }))
        ∙ composites
        ∙ composite_lem filters (record s { namespace_id = b })) in
      ne (
        labelled-injective a b p q
          (append_cancel_right _ _ (glue (labelled proj_label s.project_id)) middles))

filter_parts-append :
    (xs ys : List (Text × Text)) → filter_parts (xs ++ ys) ≡ filter_parts xs ++ filter_parts ys
unfolding filter_parts
filter_parts-append [] ys = refl
filter_parts-append ((key, value) ∷ xs) ys =
    rw (filter_parts-append xs ys)
      (sym (append_assoc (labelled key (some value)) (filter_parts xs) (filter_parts ys)))

-- One part whose value goes on with the separator and a name reads as two parts.
labelled-split :
    (key value name : Text)
    → is_empty value ≡ false
    → is_empty name ≡ false
    → glue (filter_parts ((key, value ++ (b'|' ∷ b'n' ∷ b's' ∷ b':' ∷ name)) ∷ []))
      ≡ glue (filter_parts ((key, value) ∷ [])) ++ glue (labelled ns_label (some name))
unfolding filter_parts
labelled-split key [] name p q = cc
labelled-split key (c ∷ v) [] p q = cc
labelled-split key (c ∷ v) (d ∷ n) p q = simp (append_assoc, append-nil) refl

module _ (dec : Discrete Text) (normalized : Text) where
  -- The value of a filter can stand in for a namespace: a query outside all namespaces whose last
  -- filter has the value `v|ns:n` has the key of the query in the namespace `n` with the value `v`,
  -- where neither is empty, and there is no temporal scope and no language.
  pub compute_answer_key_collision :
      (sha256 : Text → Text) (filters : List (Text × Text)) (key value name : Text)
      (project : Option Text)
      → is_empty value ≡ false
      → is_empty name ≡ false
      → compute_answer_key dec sha256 normalized
          (filters ++ (key, value ++ (b'|' ∷ b'n' ∷ b's' ∷ b':' ∷ name)) ∷ [])
          (record {
            temporal_scope = none;
            language = none;
            namespace_id = none;
            project_id = project;
          })
        ≡ compute_answer_key dec sha256 normalized (filters ++ (key, value) ∷ []) (record {
          temporal_scope = none;
          language = none;
          namespace_id = some name;
          project_id = project;
        })
  unfolding compute_answer_key before
  compute_answer_key_collision sha256 filters key value name project p q = ap sha256 (
      rw
        (
          composite_lem dec normalized,
          composite_lem dec normalized,
          filter_parts-append,
          filter_parts-append,
          glue-append,
          glue-append,
          labelled-split key value name p q,
        )
        (simp (append_assoc, append-nil) refl))
