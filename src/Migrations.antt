-- ===== src/Migrations.antt =====
-- core/bitmod/migrations.py: `_split_sql_statements` and the class `MigrationRunner`. The database and
-- what it does with a statement are parameters; `modules` is what `discover_migrations` found, sorted by
-- version. The times of application and the log are left out.
pub mod Script
pub mod Splitting
pub mod Applied
pub mod Running
use bit_mod_ai_inference_cac.Migrations.Script.{split_sql_statements}
use bit_mod_ai_inference_cac.Strings.{
  codes, is_blank, lower, strip, split, contains, join_with, Text,
}
use bit_mod_ai_inference_cac.Prelude.{
  map, equal, length, take, ◌+◌, none, ◌==◌, ◌&&◌, ◌||◌, leb, max, ltb, false, not, ◌++◌, some, [],
  if◌then◌else◌, ◌∷◌, Bool, Option, List, ℕ,
}

pub data BackendType : Type 0 where
  sqlite postgresql mysql mongodb : BackendType

-- `apply_mongodb` is a name of the function, where there is one.
pub record Migration : Type 0 where
  pub version : ℕ
  pub name : Text
  pub checksum : Text
  pub sql_sqlite : Text
  pub sql_postgresql : Text
  pub sql_mysql : Text
  pub apply_mongodb : Option Text

pub record AppliedMigration : Type 0 where
  pub id : ℕ
  pub version : ℕ
  pub name : Text
  pub checksum : Text

-- What an execution does: the new schema, or an exception with its message.
pub data Execution {ℓ} (S : Type ℓ) : Type ℓ where
  executed : S → Execution S
  failed : Text → S → Execution S

-- The exceptions that leave the runner: that of a statement, the `ValueError` of an unknown backend, and
-- the `IntegrityError` of a version that is recorded already.
pub data MigrationError : Type 0 where
  statement_error : Text → MigrationError
  integrity_error : MigrationError

pub data Outcome {ℓ} (A : Type ℓ) : Type ℓ where
  ok : A → Outcome A
  err : MigrationError → Outcome A

-- The schema, and the table `schema_migrations` in the order of insertion; `next_id` numbers its rows.
pub record Session {ℓ} (S : Type ℓ) : Type ℓ where
  pub schema : S
  pub table : List AppliedMigration
  pub next_id : ℕ

unfoldable pub has_version : ℕ → List AppliedMigration → Bool
has_version v [] = false
has_version v (m ∷ ms) = m.version == v || has_version v ms

-- `ORDER BY version`
unfoldable pub insert_applied : AppliedMigration → List AppliedMigration → List AppliedMigration
insert_applied m [] = m ∷ []
insert_applied m (n ∷ ns) =
    let rest = insert_applied m ns in if ltb m.version n.version then m ∷ n ∷ ns else n ∷ rest

unfoldable pub order_by_version :
    List AppliedMigration → List AppliedMigration → List AppliedMigration
unfolding insert_applied
order_by_version sorted [] = sorted
order_by_version sorted (m ∷ ms) = order_by_version (insert_applied m sorted) ms

unfoldable pub max_version : List AppliedMigration → ℕ
max_version [] = 0
max_version (m ∷ ms) = max m.version (max_version ms)

unfoldable pub without_applied : List AppliedMigration → List Migration → List Migration
unfolding has_version
without_applied applied [] = []
without_applied applied (m ∷ ms) =
    let rest = without_applied applied ms in
    if has_version m.version applied then rest else m ∷ rest

unfoldable pub up_to : Option ℕ → List Migration → List Migration
up_to none ms = ms
up_to (some target) [] = []
up_to (some target) (m ∷ ms) =
    let rest = up_to (some target) ms in if leb m.version target then m ∷ rest else rest

abbrev pub sql_of : BackendType → Migration → Text
sql_of sqlite m = m.sql_sqlite
sql_of postgresql m = m.sql_postgresql
sql_of mysql m = m.sql_mysql
sql_of mongodb m = []

abbrev pub duplicate_column : Text
duplicate_column = codes "duplicate column"

abbrev pub already_exists : Text
already_exists = codes "already exists"

unfoldable pub is_expected : Text → Bool
unfolding contains lower
is_expected message =
    contains duplicate_column (lower message) || contains already_exists (lower message)

module _ {ℓ} {S : Type ℓ} (run_statement : Text → S → Execution S) where
  -- The loop over the statements of SQLite: an expected error skips its statement.
  unfoldable pub execute_all : List Text → S → Outcome S
  unfolding is_expected strip
  execute_all [] schema = ok schema
  execute_all (stmt ∷ stmts) schema =
      let skipped = execute_all stmts schema in
      let run : Outcome S = elim (run_statement (strip stmt) schema) [
        | executed schema' ↦ execute_all stmts schema'
        | failed message schema' ↦
            let rest = execute_all stmts schema' in
            if is_expected message then rest else err (statement_error message)
      ] in
      if is_blank (strip stmt) then skipped else run

  -- `session.execute(sql)` of the other SQL backends.
  unfoldable pub execute_script : Text → S → Outcome S
  execute_script sql schema = elim (run_statement sql schema) [
    | executed schema' ↦ ok schema'
    | failed message schema' ↦ err (statement_error message)
  ]

  unfoldable pub execute_sql : BackendType → Text → S → Outcome S
  unfolding execute_all execute_script split_sql_statements
  execute_sql sqlite sql schema = execute_all (split_sql_statements sql) schema
  execute_sql postgresql sql schema = execute_script sql schema
  execute_sql mysql sql schema = execute_script sql schema
  execute_sql mongodb sql schema = ok schema

abbrev pub row_of : ℕ → Migration → AppliedMigration
row_of id m = record { id = id; version = m.version; name = m.name; checksum = m.checksum }

module _ {ℓ} {S : Type ℓ} where
  -- The `INSERT` into `schema_migrations`, where a version is unique.
  unfoldable pub insert_row : Migration → Session S → Outcome (Session S)
  unfolding has_version
  insert_row m s =
      if has_version m.version s.table
      then err integrity_error
      else ok (record s { table = s.table ++ row_of s.next_id m ∷ []; next_id = s.next_id + 1 })

  unfoldable pub get_applied : Session S → List AppliedMigration
  unfolding order_by_version
  get_applied s = order_by_version [] s.table

  unfoldable pub get_current_version : Session S → ℕ
  unfolding get_applied max_version
  get_current_version s = max_version (get_applied s)

  unfoldable pub get_pending : List Migration → Session S → List Migration
  unfolding get_applied without_applied
  get_pending modules s = without_applied (get_applied s) modules

infixl 5 ◌>>=◌
abbrev pub ◌>>=◌ {ℓ κ} : {A : Type ℓ} {B : Type κ} → Outcome A → (A → Outcome B) → Outcome B
ok a >>= f = f a
err e >>= f = err e

-- The statements of a `MigrationRunner` of one backend. `run_script` is the function `apply_mongodb`.
module _ {ℓ} {S : Type ℓ} (run_statement : Text → S → Execution S)
    (backend_type : BackendType) where
  -- MongoDB's `insert_one` has no unique version.
  unfoldable pub apply_function : Option Text → Migration → Session S → Outcome (Session S)
  unfolding execute_script
  apply_function none m s = ok s
  apply_function (some f) m s = do
    schema ← execute_script run_statement f s.schema
    ok (record s {
      schema = schema;
      table = s.table ++ row_of s.next_id m ∷ [];
      next_id = s.next_id + 1;
    })

  unfoldable pub apply_sql : Migration → Session S → Outcome (Session S)
  unfolding execute_sql insert_row
  apply_sql m s =
      let run : Outcome (Session S) =
        (execute_sql run_statement backend_type (sql_of backend_type m) s.schema
          >>= (λ schema. insert_row m (record s { schema = schema }))) in
      if is_blank (sql_of backend_type m) then ok s else run

  abbrev pub apply_on : BackendType → Migration → Session S → Outcome (Session S)
  apply_on mongodb m s = apply_function m.apply_mongodb m s
  apply_on sqlite m s = apply_sql m s
  apply_on postgresql m s = apply_sql m s
  apply_on mysql m s = apply_sql m s

  unfoldable pub apply : Migration → Session S → Outcome (Session S)
  apply m s = apply_on backend_type m s

  unfoldable pub apply_all : List Migration → Session S → Outcome (Session S)
  unfolding apply
  apply_all [] s = ok s
  apply_all (m ∷ ms) s = apply m s >>= (λ s'. apply_all ms s')

  -- The migrations that it returns are all that it went through.
  unfoldable pub migrate :
      List Migration → Option ℕ → Session S → Outcome (Session S × List Migration)
  unfolding get_pending up_to apply_all
  migrate modules target_version s = do
    let pending = up_to target_version (get_pending modules s)
    s' ← apply_all pending s
    ok (s', pending)

pub record Status : Type 0 where
  pub current_version : ℕ
  pub pending_count : ℕ
  pub applied_count : ℕ
  pub pending : List (ℕ × Text)
  pub history : List AppliedMigration

abbrev pub abbreviated : AppliedMigration → AppliedMigration
abbreviated m = record m { checksum = take 12 m.checksum ++ codes "..." }

unfoldable pub status {ℓ} : {S : Type ℓ} → List Migration → Session S → Status
unfolding get_applied get_pending max_version
status modules s = record {
  current_version = max_version (get_applied s);
  pending_count = length (get_pending modules s);
  applied_count = length (get_applied s);
  pending = map (λ (m : Migration). (m.version, m.name)) (get_pending modules s);
  history = map abbreviated (get_applied s);
}

-- `{version: m ...}`: the last entry of a version, at the place of the first.
unfoldable pub put_version {ℓ} : {A : Type ℓ} → ℕ → A → List (ℕ × A) → List (ℕ × A)
put_version v a [] = (v, a) ∷ []
put_version v a ((w, b) ∷ d) = if w == v then (v, a) ∷ d else (w, b) ∷ put_version v a d

unfoldable pub version_at {ℓ} : {A : Type ℓ} → ℕ → List (ℕ × A) → Option A
version_at v [] = none
version_at v ((w, b) ∷ d) = if w == v then some b else version_at v d

unfoldable pub by_version {ℓ} : {A : Type ℓ} → (A → ℕ) → List A → List (ℕ × A) → List (ℕ × A)
unfolding put_version
by_version version [] d = d
by_version version (a ∷ as') d = by_version version as' (put_version (version a) a d)

pub data Mismatch : Type 0 where
  missing : ℕ → Text → Mismatch
  modified : ℕ → Text → Text → Text → Mismatch

module _ (dec : Discrete Text) where
  abbrev pub compare_checksums : ℕ → AppliedMigration → Option Migration → List Mismatch
  compare_checksums v m none = missing v m.name ∷ []
  compare_checksums v m (some disk) =
      if equal dec disk.checksum m.checksum
      then []
      else modified v m.name (take 12 m.checksum) (take 12 disk.checksum) ∷ []

  unfoldable pub mismatches : List (ℕ × AppliedMigration) → List (ℕ × Migration) → List Mismatch
  unfolding version_at
  mismatches [] disk = []
  mismatches ((v, m) ∷ applied) disk =
      compare_checksums v m (version_at v disk) ++ mismatches applied disk

  unfoldable pub verify_checksums {ℓ} : {S : Type ℓ} → List Migration → Session S → List Mismatch
  unfolding mismatches by_version get_applied
  verify_checksums modules s =
      mismatches (by_version (λ (m : AppliedMigration). m.version) (get_applied s) [])
        (by_version (λ (m : Migration). m.version) modules [])
