-- ===== src/Strings.antt =====
-- Texts as lists of code points, with the methods of Python's `str` that the modelled code calls:
-- `in`, `split()`, `split(sep)`, `join`, `strip`, `lower`, `startswith`. Spaces and letters are those of ASCII.
pub mod Laws
pub mod Pieces
use Prim.Native.Char.{code}
use Prim.Native.String
use Prim.Native.String.{String}
use bit_mod_ai_inference_cac.Prelude.{
  zero, ◌+◌, ◌-◌, length, ◌&&◌, [], leb, ◌++◌, suc, false, ◌||◌, if◌then◌else◌, ◌∷◌, true, ◌==◌,
  Bool, ℕ, List,
}

abbrev pub Text : Type 0
Text = List ℕ

abbrev pub codes : String → Text
codes String.[] = []
codes (String.◌∷◌ c s) = code c ∷ codes s

-- `c.isspace()`
abbrev pub is_space : ℕ → Bool
is_space c = c == b' ' || ((leb 9 c && leb c 13) || (leb 28 c && leb c 31))

unfoldable pub starts_with : Text → Text → Bool
starts_with [] t = true
starts_with (p ∷ ps) [] = false
starts_with (p ∷ ps) (c ∷ t) = c == p && starts_with ps t

-- `part in t`
unfoldable pub contains : Text → Text → Bool
unfolding starts_with
contains part [] = starts_with part []
contains part (c ∷ t) = starts_with part (c ∷ t) || contains part t

abbrev pub push : ℕ → List Text → List Text
push c [] = (c ∷ []) ∷ []
push c (p ∷ ps) = (c ∷ p) ∷ ps

-- `t.split(sep)`: from the left, without overlaps; `skip` characters of a separator are left to pass.
unfoldable pub split_from : Text → ℕ → Text → List Text
unfolding starts_with
split_from sep skip [] = [] ∷ []
split_from sep (suc skip) (c ∷ t) = split_from sep skip t
split_from sep zero (c ∷ t) =
    let hit = starts_with sep (c ∷ t) in
    let rest = split_from sep (if hit then length sep - 1 else 0) t in
    if hit then [] ∷ rest else push c rest

unfoldable pub split : Text → Text → List Text
unfolding split_from
split sep t = split_from sep 0 t

-- `sep.join(parts)`
unfoldable pub join_with : Text → List Text → Text
join_with sep [] = []
join_with sep (p ∷ []) = p
join_with sep (p ∷ q ∷ ps) = p ++ (sep ++ join_with sep (q ∷ ps))

unfoldable pub lstrip : Text → Text
lstrip [] = []
lstrip (c ∷ t) = if is_space c then lstrip t else c ∷ t

abbrev pub keep_nonempty : ℕ → Text → Text
keep_nonempty c [] = if is_space c then [] else c ∷ []
keep_nonempty c (d ∷ t) = c ∷ d ∷ t

unfoldable pub rstrip : Text → Text
rstrip [] = []
rstrip (c ∷ t) = keep_nonempty c (rstrip t)

unfoldable pub strip : Text → Text
unfolding lstrip rstrip
strip t = rstrip (lstrip t)

unfoldable pub lower : Text → Text
lower [] = []
lower (c ∷ t) = (if leb b'A' c && leb c b'Z' then c + 32 else c) ∷ lower t

abbrev pub is_blank : Text → Bool
is_blank [] = true
is_blank (c ∷ t) = false

-- A character in front of the words of what follows it.
abbrev pub attach : ℕ → Text → List Text → List Text
attach c [] ws = (c ∷ []) ∷ ws
attach c (d ∷ t) ws = if is_space d then (c ∷ []) ∷ ws else push c ws

-- `t.split()`
unfoldable pub words : Text → List Text
words [] = []
words (c ∷ t) = let ws = words t in if is_space c then ws else attach c t ws
