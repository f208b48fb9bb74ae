-- ===== src/Chunker/Sentences.antt =====
-- core/bitmod/ingestion/chunker.py: `_split_sentences`, its regular expressions written out.

use bit_mod_ai_inference_cac.Strings.{
  is_space, is_blank, push, join_with, codes, Text, strip, split, starts_with,
}
use bit_mod_ai_inference_cac.Prelude.{
  ◌&&◌, zero, length, ◌++◌, true, ◌||◌, suc, if◌then◌else◌, [], false, ◌==◌, ◌∷◌, Bool, ℕ, List,
}

abbrev pub abbreviations : List Text
abbreviations =
    codes "Mr"
    ∷ codes "Mrs"
    ∷ codes "Ms"
    ∷ codes "Dr"
    ∷ codes "Prof"
    ∷ codes "Sr"
    ∷ codes "Jr"
    ∷ codes "St"
    ∷ codes "vs"
    ∷ codes "etc"
    ∷ codes "Inc"
    ∷ codes "Ltd"
    ∷ codes "Corp"
    ∷ []

unfoldable pub abbreviation_at : List Text → Text → ℕ
unfolding starts_with
abbreviation_at [] t = 0
abbreviation_at (a ∷ abbrs) t =
    let rest = abbreviation_at abbrs t in if starts_with (a ++ codes ".") t then length a else rest

-- `re.sub` of an abbreviation's full stop by `<DOT>`. No abbreviation holds a full stop, so that at most
-- one fits. `left` characters of a match are still to come, the last of them its full stop.
unfoldable pub mark_dots : ℕ → Text → Text
unfolding abbreviation_at
mark_dots left [] = []
mark_dots zero (c ∷ t) = c ∷ mark_dots (abbreviation_at abbreviations (c ∷ t)) t
mark_dots (suc zero) (c ∷ t) = codes "<DOT>" ++ mark_dots 0 t
mark_dots (suc (suc left)) (c ∷ t) = c ∷ mark_dots (suc left) t

abbrev pub ends_sentence : ℕ → Bool
ends_sentence c = c == b'.' || (c == b'!' || c == b'?')

-- `re.split(r"(?<=[.!?])\s+", text)`: `ended` where the character before ends a sentence, `cut` inside the
-- white space that a match takes.
unfoldable pub split_after : Bool → Bool → Text → List Text
split_after ended cut [] = [] ∷ []
split_after ended cut (c ∷ t) =
    let dropped = split_after false true t in
    let kept = push c (split_after (ends_sentence c) false t) in
    if is_space c && cut then dropped else if is_space c && ended then [] ∷ dropped else kept

-- `s.replace("<DOT>", ".")`
unfoldable pub restore_dots : Text → Text
unfolding split join_with
restore_dots t = join_with (codes ".") (split (codes "<DOT>") t)

unfoldable pub restore_all : List Text → List Text
unfolding restore_dots strip
restore_all [] = []
restore_all (s ∷ ss) =
    let rest = restore_all ss in if is_blank (strip s) then rest else restore_dots s ∷ rest

unfoldable pub split_sentences : Text → List Text
unfolding mark_dots split_after restore_all
split_sentences text = restore_all (split_after false false (mark_dots 0 text))
