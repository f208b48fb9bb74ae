-- ===== src/Namespaces/Lifecycle.antt =====
-- core/bitmod/namespaces.py: who can remove a namespace, and what a header resolves to.
use bit_mod_ai_inference_cac.Prelude.{
  false, equal_iff, ap, equal_self, refl, true, [], arith, ◌++◌, none, some, Option, ◌≢◌, ◌≡◌, ◌∷◌,
  Bool, List, ℕ,
}
use bit_mod_ai_inference_cac.Namespaces.{
  is_blank, is_accessible, resolve_namespace_id, strip, namespace_delete, refused, Namespace,
  namespace_create, namespace_get_by_name, namespace_get, Namespaces, Created, Text, create, delete,
  created,
}

-- The calls that change the table.
pub data Op : Type 0 where
  make : Text → ℕ → Text → Text → Text → Bool → Option Text → Op
  remove : Text → Text → Op

abbrev pub table_after : Created → Namespaces → Namespaces
table_after (created table' ns) table = table'
table_after (refused e) table = table

module _ (dec : Discrete Text) where
  unfoldable pub step : Op → Namespaces → Namespaces
  unfolding create delete
  step (make uuid now name owner isolation fallback auth) table =
      table_after (create dec uuid now name owner isolation fallback auth table) table
  step (remove id owner) table = (delete dec id owner table).0

  unfoldable pub run : List Op → Namespaces → Namespaces
  unfolding step
  run [] table = table
  run (o ∷ ops) table = run ops (step o table)

  -- No call asks to delete the namespace in the owner's name.
  abbrev pub Spares : Text → Text → List Op → Type 0
  Spares id owner [] = Unit
  Spares id owner (make uuid now name o isolation fallback auth ∷ ops) = Spares id owner ops
  Spares id owner (remove i o ∷ ops) = (((i ≡ id) × (o ≡ owner)) → ⊥) × Spares id owner ops

  get-append :
      (id : Text) (table : Namespaces) (ns other : Namespace)
      → namespace_get dec id table ≡ some ns
      → namespace_get dec id (table ++ other ∷ []) ≡ some ns
  unfolding namespace_get
  get-append id [] ns other e = cc
  get-append id (m ∷ table) ns other e = ground (arith, get-append id table ns other)

  get-append_self :
      (table : Namespaces) (ns : Namespace)
      → namespace_get dec ns.id table ≡ none
      → namespace_get dec ns.id (table ++ ns ∷ []) ≡ some ns
  unfolding namespace_get
  get-append_self [] ns e = ground arith
  get-append_self (m ∷ table) ns e = ground (arith, get-append_self table ns)

  get_by_name-append_self :
      (table : Namespaces) (ns : Namespace)
      → namespace_get_by_name dec ns.name table ≡ none
      → namespace_get_by_name dec ns.name (table ++ ns ∷ []) ≡ some ns
  unfolding namespace_get_by_name
  get_by_name-append_self [] ns e = ground arith
  get_by_name-append_self (m ∷ table) ns e = ground (arith, get_by_name-append_self table ns)

  get-append_ne :
      (id : Text) (table : Namespaces) (ns : Namespace)
      → ns.id ≢ id
      → namespace_get dec id (table ++ ns ∷ []) ≡ namespace_get dec id table
  unfolding namespace_get
  get-append_ne id [] ns ne = ground arith
  get-append_ne id (m ∷ table) ns ne = ground (arith, get-append_ne id table ns)

  get-delete_self :
      (id : Text) (table : Namespaces) → namespace_get dec id (namespace_delete dec id table) ≡ none
  unfolding namespace_get namespace_delete
  get-delete_self id [] = refl
  get-delete_self id (m ∷ table) = ground (arith, get-delete_self id table)

  get-delete_ne :
      (id other : Text) (table : Namespaces)
      → id ≢ other
      → namespace_get dec id (namespace_delete dec other table) ≡ namespace_get dec id table
  unfolding namespace_get namespace_delete
  get-delete_ne id other [] ne = refl
  get-delete_ne id other (m ∷ table) ne = ground (arith, get-delete_ne id other table ne)

  namespace_create-keeps :
      (id : Text) (ns new : Namespace) (table : Namespaces)
      → namespace_get dec id table ≡ some ns
      → namespace_get dec id (table_after (namespace_create dec new table) table) ≡ some ns
  unfolding namespace_create
  namespace_create-keeps id ns new table e = ground (arith, get-append id table ns new)

  step-keeps :
      (id : Text) (ns : Namespace) (o : Op) (table : Namespaces)
      → namespace_get dec id table ≡ some ns
      → Spares id ns.owner_key_id (o ∷ [])
      → namespace_get dec id (step o table) ≡ some ns
  unfolding step create delete
  step-keeps id ns (make uuid now name owner isolation fallback auth) table e h = ground (
    arith,
    namespace_create-keeps id ns
        (record {
          id = uuid;
          name = strip name;
          owner_key_id = owner;
          isolation = isolation;
          public_fallback = fallback;
          created_at = now;
        })
        table e,
  )
  step-keeps id ns (remove i o) table e h = elim (dec i id) [
    | yes same ↦ elim (dec o ns.owner_key_id) [
      | yes owns ↦ absurd (h.0 (same, owns))
      | no other ↦ ground (arith, ap (λ x. namespace_get dec x table) same)
    ]
    | no differs ↦ ground (arith, get-delete_ne id i table)
  ]

  run-keeps :
      (id : Text) (ns : Namespace) (ops : List Op) (table : Namespaces)
      → namespace_get dec id table ≡ some ns
      → Spares id ns.owner_key_id ops
      → namespace_get dec id (run ops table) ≡ some ns
  unfolding run
  run-keeps id ns [] table e h = e
  run-keeps id ns (make uuid now name owner isolation fallback auth ∷ ops) table e h =
      run-keeps id ns ops (step (make uuid now name owner isolation fallback auth) table)
        (step-keeps id ns (make uuid now name owner isolation fallback auth) table e tt) h
  run-keeps id ns (remove i o ∷ ops) table e h =
      run-keeps id ns ops (step (remove i o) table)
        (step-keeps id ns (remove i o) table e (h.0, tt)) h.1

  delete_lem :
      (id : Text) (ns : Namespace) (table : Namespaces)
      → namespace_get dec id table ≡ some ns
      → delete dec id ns.owner_key_id table ≡ (namespace_delete dec id table, true)
  unfolding delete
  delete_lem id ns table e = rw (e, equal_self dec ns.owner_key_id) refl

  -- Whatever clients create and delete, a namespace stays as it is until a delete names its id and its
  -- owner's key; that delete succeeds, removes it, and touches no other namespace.
  pub owner_only :
      (id : Text) (ns : Namespace) (ops : List Op) (table : Namespaces)
      → namespace_get dec id table ≡ some ns
      → Spares id ns.owner_key_id ops
      → let after = delete dec id ns.owner_key_id (run ops table) in
        (namespace_get dec id (run ops table) ≡ some ns)
        × (after.1 ≡ true)
        × (namespace_get dec id after.0 ≡ none)
        × ((other : Text)
            → other ≢ id
            → namespace_get dec other after.0 ≡ namespace_get dec other (run ops table))
  owner_only id ns ops table e h =
      let kept = run-keeps id ns ops table e h in
      (
        kept,
        rw (delete_lem id ns (run ops table) kept) refl,
        rw (delete_lem id ns (run ops table) kept) (get-delete_self id (run ops table)),
        λ other ne.
            rw (delete_lem id ns (run ops table) kept) (get-delete_ne other id (run ops table) ne),
      )

  create-eq-created :
      (uuid : Text) (now : ℕ) (name owner isolation : Text) (fallback : Bool) (auth : Option Text)
      → (table table' : Namespaces) (ns : Namespace)
      → create dec uuid now name owner isolation fallback auth table ≡ created table' ns
      → (is_blank (strip name) ≡ false)
        × (namespace_get dec uuid table ≡ none)
        × (namespace_get_by_name dec (strip name) table ≡ none)
        × (table' ≡ table ++ ns ∷ [])
        × (ns.id ≡ uuid)
        × (ns.name ≡ strip name)
        × (ns.owner_key_id ≡ owner)
        × (ns.public_fallback ≡ fallback)
  unfolding create namespace_create
  create-eq-created uuid now name owner isolation fallback auth table table' ns e = ground arith

  -- A namespace that `create` has added is found by its name, also with white space around it, unless an
  -- id of the table is spelled like the name; its owner reaches it, and another key where it is public.
  pub create-resolve :
      (uuid : Text) (now : ℕ) (name owner isolation : Text) (fallback : Bool) (auth : Option Text)
      → (table table' : Namespaces) (ns : Namespace)
      → create dec uuid now name owner isolation fallback auth table ≡ created table' ns
      → namespace_get dec (strip name) table ≡ none
      → uuid ≢ strip name
      → (resolve_namespace_id dec (some name) table' ≡ some uuid)
        × (is_accessible dec uuid owner table' ≡ true)
        × ((key : Text) → key ≢ owner → is_accessible dec uuid key table' ≡ fallback)
  unfolding resolve_namespace_id is_accessible
  create-resolve uuid now name owner isolation fallback auth table table' ns e a ne =
      let (filled, new, free, same, of_id, of_name, of_owner, of_fallback) =
        create-eq-created uuid now name owner isolation fallback auth table table' ns e in
      let by_id : namespace_get dec uuid table' ≡ some ns =
        ground (arith, get-append_self table ns, ap (λ x. namespace_get dec x table) of_id) in
      let by_name : namespace_get_by_name dec (strip name) table' ≡ some ns = ground (
        arith,
        get_by_name-append_self table ns,
        ap (λ x. namespace_get_by_name dec x table) of_name,
      ) in
      let no_id : namespace_get dec (strip name) table' ≡ none =
        ground (arith, get-append_ne (strip name) table ns) in
      (
        rw (no_id, by_name) (ground arith),
        ground (arith, equal_iff dec),
        λ key differs. ground arith,
      )
