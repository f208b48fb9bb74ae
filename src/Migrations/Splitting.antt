-- ===== src/Migrations/Splitting.antt =====
-- core/bitmod/migrations.py: what `_split_sql_statements` keeps of a script.
use bit_mod_ai_inference_cac.Migrations.Script.{
  split_sql_statements, Splitter, semicolon, dollars, newline, add_lines, add_line, add_parts,
  append_statement,
}
use mathlib.Core.List.{append_assoc, append-nil}
use bit_mod_ai_inference_cac.Strings.{is_space, Text, contains, split, strip, join_with, is_blank}
use bit_mod_ai_inference_cac.Strings.Laws.{
  keep_all-split, keep-join_with, keep_all-append, keep-strip, keep_all, keep,
}
use bit_mod_ai_inference_cac.Prelude.{
  ◌&&◌, if◌then◌else◌, All-append, ap, inr, refl, inl, ◌∙◌, ◌∷◌, ◌==◌, [], ◌||◌, Bool-cases, false,
  sym, true, not, All, ◌++◌, ◌≡◌, Bool, List, ℕ,
}

-- A character that is neither a space nor a semicolon.
abbrev pub is_mark : ℕ → Bool
is_mark c = not (is_space c || c == b';')

spaceless : (c : ℕ) → is_space c ≡ true → is_mark c ≡ false
spaceless c e = rw e refl

abbrev pub marks : List Text → Text
marks = keep_all is_mark

blank_marks : (t : Text) → is_blank t ≡ true → keep is_mark t ≡ []
unfolding keep
blank_marks [] e = refl
blank_marks (c ∷ t) e = cc

one_text : (t : Text) → marks (t ∷ []) ≡ keep is_mark t
unfolding keep_all
one_text t = append-nil (keep is_mark t)

append_statement-marks :
    (statements current : List Text)
    → marks (append_statement statements current) ≡ marks statements ++ marks current
unfolding append_statement
append_statement-marks statements current =
    let kept =
      keep-strip is_mark spaceless (join_with newline current)
      ∙ keep-join_with is_mark 10 refl current in
    elim (Bool-cases (is_blank (strip (join_with newline current)))) [
      | inl e ↦ rw e (
          sym (
            rw (sym kept ∙ blank_marks (strip (join_with newline current)) e)
              (append-nil (marks statements))))
      | inr e ↦ rw e (
          keep_all-append is_mark statements (strip (join_with newline current) ∷ [])
          ∙ ap (λ x. marks statements ++ x) (one_text (strip (join_with newline current)) ∙ kept))
    ]

-- All the marks that the splitter holds.
abbrev held : Splitter → Text
held s = marks s.statements ++ marks s.current

add_parts-held :
    (parts : List Text) (s : Splitter) → held (add_parts parts s) ≡ held s ++ marks parts
unfolding add_parts keep_all
add_parts-held [] s = sym (append-nil (held s))
add_parts-held (part ∷ []) s =
    rw (keep_all-append is_mark s.current (part ∷ []))
      (sym (append_assoc (marks s.statements) (marks s.current) (marks (part ∷ []))))
add_parts-held (part ∷ next ∷ parts) s =
    add_parts-held (next ∷ parts) (record s {
      statements = append_statement s.statements (s.current ++ part ∷ []);
      current = [];
    })
    ∙ rw
        (
          append_statement-marks s.statements (s.current ++ part ∷ []),
          keep_all-append is_mark s.current (part ∷ []),
        )
        (simp (append_assoc, append-nil) refl)

-- Every statement has a character that is not a space.
abbrev pub IsStatement : Text → Type 0
IsStatement t = is_blank t ≡ false

append_statement-All :
    (statements current : List Text)
    → All IsStatement statements
    → All IsStatement (append_statement statements current)
unfolding append_statement
append_statement-All statements current h =
    elim (Bool-cases (is_blank (strip (join_with newline current)))) [
      | inl e ↦ rw e h
      | inr e ↦
          rw e
            (All-append IsStatement statements (strip (join_with newline current) ∷ []) h (e, tt))
    ]

add_line-held : (line : Text) (s : Splitter) → held (add_line line s) ≡ held s ++ keep is_mark line
unfolding add_line
add_line-held line s =
    let in_dollar = if contains dollars (strip line) then not s.in_dollar else s.in_dollar in
    let s' : Splitter = record s { in_dollar = in_dollar } in
    elim (Bool-cases (not in_dollar && contains semicolon line)) [
      | inl e ↦ rw e (
          add_parts-held (split semicolon line) s'
          ∙ ap (λ x. held s ++ x) (keep_all-split is_mark b';' refl line))
      | inr e ↦ rw e (
          rw (keep_all-append is_mark s.current (line ∷ []), one_text line)
            (sym (append_assoc (marks s.statements) (marks s.current) (keep is_mark line))))
    ]

add_lines-held :
    (lines : List Text) (s : Splitter) → held (add_lines lines s) ≡ held s ++ marks lines
unfolding add_lines keep_all
add_lines-held [] s = sym (append-nil (held s))
add_lines-held (line ∷ lines) s =
    rw (add_lines-held lines (add_line line s), add_line-held line s)
      (append_assoc (held s) (keep is_mark line) (marks lines))

add_parts-All :
    (parts : List Text) (s : Splitter)
    → All IsStatement s.statements
    → All IsStatement (add_parts parts s).statements
unfolding add_parts
add_parts-All [] s h = h
add_parts-All (part ∷ []) s h = h
add_parts-All (part ∷ next ∷ parts) s h =
    add_parts-All (next ∷ parts)
      (record s {
        statements = append_statement s.statements (s.current ++ part ∷ []);
        current = [];
      })
      (append_statement-All s.statements (s.current ++ part ∷ []) h)

add_lines-All :
    (lines : List Text) (s : Splitter)
    → All IsStatement s.statements
    → All IsStatement (add_lines lines s).statements
unfolding add_lines add_line
add_lines-All [] s h = h
add_lines-All (line ∷ lines) s h =
    let in_dollar = if contains dollars (strip line) then not s.in_dollar else s.in_dollar in
    let s' : Splitter = record s { in_dollar = in_dollar } in
    elim (Bool-cases (not in_dollar && contains semicolon line)) [
      | inl e ↦
          add_lines-All lines (add_line line s) (rw e (add_parts-All (split semicolon line) s' h))
      | inr e ↦ add_lines-All lines (add_line line s) (rw e h)
    ]

-- Splitting a script loses nothing but spaces and semicolons: the other characters of the statements,
-- one after the other, are those of the script; and no statement is blank.
pub split_sql_statements_lem :
    (sql : Text)
    → (marks (split_sql_statements sql) ≡ keep is_mark sql)
      × All IsStatement (split_sql_statements sql)
unfolding split_sql_statements keep_all keep
split_sql_statements_lem sql =
    let start : Splitter = record { statements = []; current = []; in_dollar = false } in
    let s = add_lines (split newline sql) start in
    (
      append_statement-marks s.statements s.current
          ∙ add_lines-held (split newline sql) start
          ∙ keep_all-split is_mark 10 refl sql,
      append_statement-All s.statements s.current (add_lines-All (split newline sql) start tt),
    )
