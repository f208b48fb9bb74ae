-- ===== src/Migrations/Applied.antt =====
-- core/bitmod/migrations.py: which versions the table `schema_migrations` records.
use bit_mod_ai_inference_cac.Prelude.{
  false, ap, inr, ◌∙◌, sym, Option, inl, Bool-cases, ◌⊎◌, refl, ◌==◌, arith, none, [], true, ◌++◌,
  ◌||◌, ◌∷◌, ◌≡◌, List, ℕ,
}
use bit_mod_ai_inference_cac.Migrations.{
  ◌>>=◌, execute_sql, execute_script, some, err, apply_function, row_of, Outcome, mysql, postgresql,
  sqlite, mongodb, sql_of, ok, is_blank, apply_sql, insert_row, Execution, Migration,
  AppliedMigration, Text, BackendType, get_applied, has_version, order_by_version, insert_applied,
  Session, apply,
}

insert_applied-has_version :
    (v : ℕ) (m : AppliedMigration) (ms : List AppliedMigration)
    → has_version v (insert_applied m ms) ≡ has_version v (m ∷ ms)
unfolding insert_applied has_version
insert_applied-has_version v m [] = refl
insert_applied-has_version v m (n ∷ ns) = ground (arith, insert_applied-has_version v m ns)

order_by_version-has_version :
    (v : ℕ) (sorted ms : List AppliedMigration)
    → has_version v (order_by_version sorted ms) ≡ (has_version v sorted || has_version v ms)
unfolding order_by_version has_version
order_by_version-has_version v sorted [] = ground arith
order_by_version-has_version v sorted (m ∷ ms) = ground (
  arith,
  order_by_version-has_version v (insert_applied m sorted) ms,
  insert_applied-has_version v m sorted,
)

has_version-append :
    (v : ℕ) (ms : List AppliedMigration) (m : AppliedMigration)
    → has_version v (ms ++ m ∷ []) ≡ (has_version v ms || (m.version == v))
unfolding has_version
has_version-append v [] m = ground arith
has_version-append v (n ∷ ms) m = ground (arith, has_version-append v ms m)

module _ {ℓ} {S : Type ℓ} where
  abbrev pub Records : Session S → ℕ → Type 0
  Records s v = has_version v s.table ≡ true

  pub get_applied-has_version :
      (v : ℕ) (s : Session S) → has_version v (get_applied s) ≡ has_version v s.table
  unfolding get_applied has_version
  get_applied-has_version v s = order_by_version-has_version v [] s.table

-- The migration has nothing for the backend.
abbrev pub IsSkipped : BackendType → Migration → Type 0
IsSkipped mongodb m = m.apply_mongodb ≡ none
IsSkipped sqlite m = is_blank m.sql_sqlite ≡ true
IsSkipped postgresql m = is_blank m.sql_postgresql ≡ true
IsSkipped mysql m = is_blank m.sql_mysql ≡ true

pub ok-injective {ℓ} : {A : Type ℓ} {a b : A} → ok a ≡ ok b → a ≡ b
ok-injective e = cc

pub >>=-eq-ok {κ μ} :
    {A : Type κ} {B : Type μ} (o : Outcome A) (f : A → Outcome B) {b : B}
    → (o >>= f) ≡ ok b
    → (a : A) × (o ≡ ok a) × (f a ≡ ok b)
>>=-eq-ok (ok a) f h = (a, refl, h)
>>=-eq-ok (err e) f h = cc

module _ {ℓ} {S : Type ℓ} (run_statement : Text → S → Execution S) (bt : BackendType) where
  -- What an application of one migration does to the table.
  abbrev pub Grows : Session S → Session S → Type 0
  Grows s s' = (v : ℕ) → Records s v → Records s' v

  appended-Records :
      (m : Migration) (s s' : Session S)
      → s'.table ≡ s.table ++ row_of s.next_id m ∷ []
      → Records s' m.version × Grows s s'
  appended-Records m s s' e = (
    rw (e, has_version-append m.version s.table (row_of s.next_id m)) (ground arith),
    λ v h. rw (e, has_version-append v s.table (row_of s.next_id m), h) refl,
  )

  insert_row-table :
      (m : Migration) (s s' : Session S)
      → insert_row m s ≡ ok s'
      → s'.table ≡ s.table ++ row_of s.next_id m ∷ []
  unfolding insert_row
  insert_row-table m s s' h = ground arith

  apply_sql_lem :
      (m : Migration) (s : Session S)
      → is_blank (sql_of bt m) ≡ false
      → apply_sql run_statement bt m s ≡ (
          execute_sql run_statement bt (sql_of bt m) s.schema
          >>= (λ schema. insert_row m (record s { schema = schema })))
  unfolding apply_sql
  apply_sql_lem m s e = rw e refl

  apply_sql_blank :
      (m : Migration) (s : Session S)
      → is_blank (sql_of bt m) ≡ true
      → apply_sql run_statement bt m s ≡ ok s
  unfolding apply_sql
  apply_sql_blank m s e = rw e refl

  apply_sql-Records :
      (m : Migration) (s s' : Session S)
      → apply_sql run_statement bt m s ≡ ok s'
      → ((is_blank (sql_of bt m) ≡ true) × (s' ≡ s)) ⊎ (Records s' m.version × Grows s s')
  apply_sql-Records m s s' h = elim (Bool-cases (is_blank (sql_of bt m))) [
    | inl e ↦ inl (e, ok-injective (sym h ∙ apply_sql_blank m s e))
    | inr e ↦
        let (schema, _, k) =
          >>=-eq-ok (execute_sql run_statement bt (sql_of bt m) s.schema) _
            (sym (apply_sql_lem m s e) ∙ h) in
        inr (appended-Records m s s' (insert_row-table m (record s { schema = schema }) s' k))
  ]

  apply_function-Records :
      (o : Option Text) (m : Migration) (s s' : Session S)
      → apply_function run_statement bt o m s ≡ ok s'
      → ((o ≡ none) × (s' ≡ s)) ⊎ (Records s' m.version × Grows s s')
  unfolding apply_function
  apply_function-Records none m s s' h = inl (refl, ok-injective (sym h))
  apply_function-Records (some f) m s s' h =
      let (schema, _, k) = >>=-eq-ok (execute_script run_statement f s.schema) _ h in
      inr (appended-Records m s s' (ap (λ (x : Session S). x.table) (ok-injective (sym k))))

module _ {ℓ} {S : Type ℓ} (run_statement : Text → S → Execution S) where
  pub apply-Records :
      (bt : BackendType) (m : Migration) (s s' : Session S)
      → apply run_statement bt m s ≡ ok s'
      → (IsSkipped bt m × (s' ≡ s)) ⊎ (Records s' m.version × Grows run_statement bt s s')
  unfolding apply
  apply-Records mongodb m s s' h =
      apply_function-Records run_statement mongodb m.apply_mongodb m s s' h
  apply-Records sqlite m s s' h = apply_sql-Records run_statement sqlite m s s' h
  apply-Records postgresql m s s' h = apply_sql-Records run_statement postgresql m s s' h
  apply-Records mysql m s s' h = apply_sql-Records run_statement mysql m s s' h

  pub apply-IsSkipped :
      (bt : BackendType) (m : Migration) (s : Session S)
      → IsSkipped bt m
      → apply run_statement bt m s ≡ ok s
  unfolding apply apply_function
  apply-IsSkipped mongodb m s h = rw h refl
  apply-IsSkipped sqlite m s h = apply_sql_blank run_statement sqlite m s h
  apply-IsSkipped postgresql m s h = apply_sql_blank run_statement postgresql m s h
  apply-IsSkipped mysql m s h = apply_sql_blank run_statement mysql m s h
