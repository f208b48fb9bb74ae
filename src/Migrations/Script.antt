-- ===== src/Migrations/Script.antt =====
-- core/bitmod/migrations.py: `_split_sql_statements`.

use bit_mod_ai_inference_cac.Strings.{is_blank, strip, split, contains, join_with, Text}
use bit_mod_ai_inference_cac.Prelude.{◌&&◌, false, not, ◌++◌, [], if◌then◌else◌, ◌∷◌, Bool, List}

-- What the loop of `_split_sql_statements` holds.
pub record Splitter : Type 0 where
  pub statements : List Text
  pub current : List Text
  pub in_dollar : Bool

abbrev pub newline : Text
newline = 10 ∷ []

abbrev pub semicolon : Text
semicolon = b';' ∷ []

abbrev pub dollars : Text
dollars = b'$' ∷ b'$' ∷ []

-- `statements.append(stmt)`, if it is not empty.
unfoldable pub append_statement : List Text → List Text → List Text
unfolding join_with strip
append_statement statements current =
    let stmt = strip (join_with newline current) in
    if is_blank stmt then statements else statements ++ stmt ∷ []

-- The loop over `line.split(";")`.
unfoldable pub add_parts : List Text → Splitter → Splitter
unfolding append_statement
add_parts [] s = s
add_parts (part ∷ []) s = record s { current = s.current ++ part ∷ [] }
add_parts (part ∷ next ∷ parts) s =
    add_parts (next ∷ parts) (record s {
      statements = append_statement s.statements (s.current ++ part ∷ []);
      current = [];
    })

unfoldable pub add_line : Text → Splitter → Splitter
unfolding add_parts contains split
add_line line s =
    let in_dollar = if contains dollars (strip line) then not s.in_dollar else s.in_dollar in
    let s' = record s { in_dollar = in_dollar } in
    if not in_dollar && contains semicolon line
    then add_parts (split semicolon line) s'
    else record s' { current = s'.current ++ line ∷ [] }

unfoldable pub add_lines : List Text → Splitter → Splitter
unfolding add_line
add_lines [] s = s
add_lines (line ∷ lines) s = add_lines lines (add_line line s)

unfoldable pub split_sql_statements : Text → List Text
unfolding add_lines append_statement split
split_sql_statements sql =
    let s =
      add_lines (split newline sql) (record { statements = []; current = []; in_dollar = false }) in
    append_statement s.statements s.current
