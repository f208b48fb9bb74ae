-- ===== src/Tests/MigrationTests.antt =====
-- Scripts and migrations (core/bitmod/migrations.py); a schema is the list of the statements that ran.
use bit_mod_ai_inference_cac.Migrations.Script.{split_sql_statements}
use bit_mod_ai_inference_cac.Strings.Laws.{keep}
use bit_mod_ai_inference_cac.Migrations.Applied.{Records, IsSkipped}
use bit_mod_ai_inference_cac.Strings.{codes, Text}
use bit_mod_ai_inference_cac.Prelude.{refl, none, ◌∷◌, ◌≡◌, [], ◌++◌, All, List, ℕ, ◌⊎◌}
use bit_mod_ai_inference_cac.Migrations.{
  apply_sql, get_pending, up_to, ok, Session, Migration, sqlite, executed, migrate, Execution,
}
use bit_mod_ai_inference_cac.Migrations.Running.{migrate_lem}
use bit_mod_ai_inference_cac.Migrations.Splitting.{
  IsStatement, is_mark, marks, split_sql_statements_lem,
}

-- A semicolon in a quoted string ends the statement.
quoted : split_sql_statements (codes "a';'b;c") ≡ codes "a'" ∷ codes "'b" ∷ codes "c" ∷ []
unfolding split_sql_statements
quoted = refl

split_sql_statements_lem_example :
    (marks (split_sql_statements (codes "a ;\n b;;")) ≡ keep is_mark (codes "a ;\n b;;"))
    × All IsStatement (split_sql_statements (codes "a ;\n b;;"))
split_sql_statements_lem_example = split_sql_statements_lem (codes "a ;\n b;;")

abbrev run_statement : Text → List Text → Execution (List Text)
run_statement stmt schema = executed (schema ++ stmt ∷ [])

abbrev script : ℕ → Text → Migration
script version sql = record {
  version = version;
  name = codes "m";
  checksum = codes "c";
  sql_sqlite = sql;
  sql_postgresql = [];
  sql_mysql = [];
  apply_mongodb = none;
}

abbrev fresh : Session (List Text)
fresh = record { schema = []; table = []; next_id = 1 }

abbrev modules : List Migration
modules = script 1 (codes "a;b") ∷ script 2 [] ∷ []

abbrev done : Session (List Text)
done = record {
  schema = codes "a" ∷ codes "b" ∷ [];
  table = record { id = 1; version = 1; name = codes "m"; checksum = codes "c" } ∷ [];
  next_id = 2;
}

-- The second migration, without SQL, is named though it is not recorded.
migrate_lem_example :
    All (λ m. IsSkipped sqlite m ⊎ Records done m.version) modules
    × All (IsSkipped sqlite) (up_to none (get_pending modules done))
    × (migrate run_statement sqlite modules none done
        ≡ ok (done, up_to none (get_pending modules done)))
unfolding migrate apply_sql
migrate_lem_example = migrate_lem run_statement sqlite modules none fresh done modules refl
