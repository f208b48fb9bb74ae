-- ===== src/Namespaces.antt =====
-- core/bitmod/namespaces.py: the class `NamespaceManager`, `resolve_namespace_id` and
-- `get_namespace_fallback`, on the table `namespaces` of core/bitmod/adapters/db_sqlite.py. A table is the
-- list of its rows in the order of insertion. `uuid` and `now` are what `uuid4()` and the clock give, the
-- latter as a number.
pub mod Lifecycle
use bit_mod_ai_inference_cac.Prelude.{
  ◌||◌, true, not, ◌++◌, some, false, equal, none, ltb, ℕ, Option, if◌then◌else◌, Bool, [], ◌∷◌,
  List,
}
use bit_mod_ai_inference_cac.Strings.{is_blank, strip, codes, Text}

pub record Namespace : Type 0 where
  pub id : Text
  pub name : Text
  pub owner_key_id : Text
  pub isolation : Text
  pub public_fallback : Bool
  pub created_at : ℕ

abbrev pub Namespaces : Type 0
Namespaces = List Namespace

pub data NamespaceError : Type 0 where
  empty_name invalid_isolation missing_owner wrong_owner name_taken : NamespaceError

pub data Created : Type 0 where
  created : Namespaces → Namespace → Created
  refused : NamespaceError → Created

abbrev pub strict : Text
strict = codes "strict"

abbrev pub shared : Text
shared = codes "shared"

-- `ORDER BY created_at DESC`
unfoldable pub insert_newest : Namespace → Namespaces → Namespaces
insert_newest ns [] = ns ∷ []
insert_newest ns (m ∷ table) =
    let rest = insert_newest ns table in
    if ltb m.created_at ns.created_at then ns ∷ m ∷ table else m ∷ rest

unfoldable pub newest_first : Namespaces → Namespaces → Namespaces
unfolding insert_newest
newest_first sorted [] = sorted
newest_first sorted (ns ∷ table) = newest_first (insert_newest ns sorted) table

module _ (dec : Discrete Text) where
  unfoldable pub namespace_get : Text → Namespaces → Option Namespace
  namespace_get id [] = none
  namespace_get id (ns ∷ table) = if equal dec ns.id id then some ns else namespace_get id table

  unfoldable pub namespace_get_by_name : Text → Namespaces → Option Namespace
  namespace_get_by_name name [] = none
  namespace_get_by_name name (ns ∷ table) =
      if equal dec ns.name name then some ns else namespace_get_by_name name table

  unfoldable pub owned_by : Text → Namespaces → Namespaces
  owned_by owner [] = []
  owned_by owner (ns ∷ table) =
      let rest = owned_by owner table in if equal dec ns.owner_key_id owner then ns ∷ rest else rest

  unfoldable pub namespace_list_for_owner : Text → Namespaces → Namespaces
  unfolding owned_by newest_first
  namespace_list_for_owner owner table = newest_first [] (owned_by owner table)

  unfoldable pub namespace_delete : Text → Namespaces → Namespaces
  namespace_delete id [] = []
  namespace_delete id (ns ∷ table) =
      let rest = namespace_delete id table in if equal dec ns.id id then rest else ns ∷ rest

  abbrev pub insert_unless : Option Namespace → Option Namespace → Namespace → Namespaces → Created
  insert_unless none none ns table = created (table ++ ns ∷ []) ns
  insert_unless none (some other) ns table = refused name_taken
  insert_unless (some other) o ns table = refused name_taken

  -- The `INSERT`, with its primary key and its unique name.
  unfoldable pub namespace_create : Namespace → Namespaces → Created
  unfolding namespace_get namespace_get_by_name
  namespace_create ns table =
      insert_unless (namespace_get ns.id table) (namespace_get_by_name ns.name table) ns table

  -- `authenticated_key_id is not None and authenticated_key_id != owner_key_id`
  abbrev pub is_other : Option Text → Text → Bool
  is_other none owner = false
  is_other (some key) owner = not (equal dec key owner)

  unfoldable pub create : Text → ℕ → Text → Text → Text → Bool → Option Text → Namespaces → Created
  unfolding strip namespace_create
  create uuid now name owner_key_id isolation public_fallback authenticated_key_id table =
      if is_blank (strip name)
      then refused empty_name
      else if not (equal dec isolation strict || equal dec isolation shared)
      then refused invalid_isolation
      else if is_blank owner_key_id
      then refused missing_owner
      else if is_other authenticated_key_id owner_key_id
      then refused wrong_owner
      else namespace_create
          (record {
            id = uuid;
            name = strip name;
            owner_key_id = owner_key_id;
            isolation = isolation;
            public_fallback = public_fallback;
            created_at = now;
          })
          table

  abbrev pub delete_found : Option Namespace → Text → Text → Namespaces → Namespaces × Bool
  delete_found none id owner table = (table, false)
  delete_found (some ns) id owner table =
      if equal dec ns.owner_key_id owner then (namespace_delete id table, true) else (table, false)

  unfoldable pub delete : Text → Text → Namespaces → Namespaces × Bool
  unfolding namespace_get namespace_delete
  delete id owner_key_id table = delete_found (namespace_get id table) id owner_key_id table

  abbrev pub accessible : Option Namespace → Text → Bool
  accessible none key = false
  accessible (some ns) key = if equal dec ns.owner_key_id key then true else ns.public_fallback

  unfoldable pub is_accessible : Text → Text → Namespaces → Bool
  unfolding namespace_get
  is_accessible id key table = accessible (namespace_get id table) key

  abbrev pub first_id : Option Namespace → Option Namespace → Option Text
  first_id (some ns) other = some ns.id
  first_id none (some ns) = some ns.id
  first_id none none = none

  -- The header is absent where it is `none`.
  unfoldable pub resolve_namespace_id : Option Text → Namespaces → Option Text
  unfolding strip namespace_get namespace_get_by_name
  resolve_namespace_id none table = none
  resolve_namespace_id (some header) table =
      let value = strip header in
      if is_blank value
      then none
      else first_id (namespace_get value table) (namespace_get_by_name value table)

  abbrev pub fallback_of : Option Namespace → Bool
  fallback_of none = false
  fallback_of (some ns) = ns.public_fallback

  unfoldable pub get_namespace_fallback : Text → Namespaces → Bool
  unfolding namespace_get
  get_namespace_fallback id table = fallback_of (namespace_get id table)

unfoldable pub namespace_list_all : Namespaces → Namespaces
unfolding newest_first
namespace_list_all table = newest_first [] table
