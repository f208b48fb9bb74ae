-- ===== src/Roles/Yaml.antt =====
-- core/bitmod/roles.py: `RoleRegistry._parse_yaml`; its argument here is the content of the file.
-- A dict is the list of its items.

use bit_mod_ai_inference_cac.Prelude.{
  not, ◌&&◌, ◌||◌, true, [], some, false, ◌==◌, none, if◌then◌else◌, Option, ◌∷◌, Bool, List, ℕ,
}
use bit_mod_ai_inference_cac.Strings.{is_space, is_blank, codes, starts_with, split, strip, Text}

-- What the parser finds under a key: a text, or the keys of a section.
pub data Value : Type 0 where
  scalar : Text → Value
  section : List (Text × Text) → Value

-- `key == k` of two texts.
abbrev pub is_text : Text → Text → Bool
is_text [] [] = true
is_text [] (d ∷ u) = false
is_text (c ∷ t) [] = false
is_text (c ∷ t) (d ∷ u) = c == d && is_text t u

unfoldable pub put_item {ℓ} : {A : Type ℓ} → Text → A → List (Text × A) → List (Text × A)
put_item key a [] = (key, a) ∷ []
put_item key a ((k, b) ∷ items) =
    if is_text k key then (k, a) ∷ items else (k, b) ∷ put_item key a items

unfoldable pub get_item {ℓ} : {A : Type ℓ} → Text → List (Text × A) → Option A
get_item key [] = none
get_item key ((k, b) ∷ items) = if is_text k key then some b else get_item key items

unfoldable pub before_colon : Text → Text
before_colon [] = []
before_colon (c ∷ t) = if c == b':' then [] else c ∷ before_colon t

unfoldable pub after_colon : Text → Text
after_colon [] = []
after_colon (c ∷ t) = if c == b':' then t else after_colon t

unfoldable pub has_colon : Text → Bool
has_colon [] = false
has_colon (c ∷ t) = c == b':' || has_colon t

-- `strip` of one character.
unfoldable pub lstrip_char : ℕ → Text → Text
lstrip_char q [] = []
lstrip_char q (c ∷ t) = if c == q then lstrip_char q t else c ∷ t

abbrev pub keep_unless : ℕ → ℕ → Text → Text
keep_unless q c [] = if c == q then [] else c ∷ []
keep_unless q c (d ∷ t) = c ∷ d ∷ t

unfoldable pub rstrip_char : ℕ → Text → Text
rstrip_char q [] = []
rstrip_char q (c ∷ t) = keep_unless q c (rstrip_char q t)

unfoldable pub unquote : Text → Text
unfolding lstrip_char rstrip_char
unquote t = rstrip_char 39 (lstrip_char 39 (rstrip_char 34 (lstrip_char 34 t)))

-- `result` and `current_section`
pub record Parser : Type 0 where
  pub result : List (Text × Value)
  pub current_section : Option Text

abbrev pub is_indented : Text → Bool
is_indented [] = false
is_indented (c ∷ t) = is_space c

abbrev pub add_nested : Text → Text → Text → Option Value → Parser → Parser
add_nested current key value none p = p
add_nested current key value (some (scalar t)) p = p
add_nested current key value (some (section items)) p = record p {
  result = put_item current (section (put_item key value items)) p.result;
}

abbrev pub nested_line : Text → Option Text → Parser → Parser
nested_line stripped none p = p
nested_line stripped (some current) p =
    if is_blank current
    then p
    else add_nested current (strip (before_colon stripped)) (unquote (strip (after_colon stripped)))
        (get_item current p.result) p

unfoldable pub parse_line : Text → Parser → Parser
unfolding strip before_colon after_colon has_colon put_item get_item unquote starts_with
parse_line line p =
    let stripped = strip line in
    let key = strip (before_colon stripped) in
    let value = strip (after_colon stripped) in
    if is_blank stripped || starts_with (codes "#") stripped
    then p
    else if not (is_indented line) && has_colon stripped
    then (if is_blank value
        then record { result = put_item key (section []) p.result; current_section = some key }
        else record { result = put_item key (scalar value) p.result; current_section = none })
    else if is_indented line && has_colon stripped
    then nested_line stripped p.current_section p
    else p

unfoldable pub parse_lines : List Text → Parser → Parser
unfolding parse_line
parse_lines [] p = p
parse_lines (line ∷ lines) p = parse_lines lines (parse_line line p)

-- The content of the file is given.
unfoldable pub parse_yaml : Text → List (Text × Value)
unfolding parse_lines split
parse_yaml content =
    (parse_lines (split (codes "\n") content)
      (record { result = []; current_section = none })).result
