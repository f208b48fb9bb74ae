-- ===== src/Queries.antt =====
-- core/bitmod/cache_engine.py: `normalize_query` and the stopwords. Characters of words are those of ASCII.
use bit_mod_ai_inference_cac.Strings.{is_space, join_with, words, strip, codes, lower, Text}
use bit_mod_ai_inference_cac.Prelude.{
  ◌&&◌, ◌==◌, true, ◌||◌, false, if◌then◌else◌, [], Bool, ◌∷◌, List,
}
use bit_mod_ai_inference_cac.Qualify.{is_word}

unfoldable pub stopwords : List Text
stopwords =
    codes "a"
    ∷ codes "an"
    ∷ codes "the"
    ∷ codes "is"
    ∷ codes "are"
    ∷ codes "was"
    ∷ codes "were"
    ∷ codes "be"
    ∷ codes "been"
    ∷ codes "being"
    ∷ codes "have"
    ∷ codes "has"
    ∷ codes "had"
    ∷ codes "do"
    ∷ codes "does"
    ∷ codes "did"
    ∷ codes "will"
    ∷ codes "would"
    ∷ codes "could"
    ∷ codes "should"
    ∷ codes "may"
    ∷ codes "might"
    ∷ codes "can"
    ∷ codes "shall"
    ∷ codes "to"
    ∷ codes "of"
    ∷ codes "in"
    ∷ codes "for"
    ∷ codes "on"
    ∷ codes "with"
    ∷ codes "at"
    ∷ codes "by"
    ∷ codes "from"
    ∷ codes "as"
    ∷ codes "into"
    ∷ codes "about"
    ∷ codes "between"
    ∷ codes "through"
    ∷ codes "during"
    ∷ codes "before"
    ∷ codes "after"
    ∷ codes "above"
    ∷ codes "below"
    ∷ codes "and"
    ∷ codes "or"
    ∷ codes "but"
    ∷ codes "not"
    ∷ codes "no"
    ∷ codes "if"
    ∷ codes "then"
    ∷ codes "than"
    ∷ codes "so"
    ∷ codes "what"
    ∷ codes "which"
    ∷ codes "who"
    ∷ codes "whom"
    ∷ codes "this"
    ∷ codes "that"
    ∷ codes "these"
    ∷ codes "those"
    ∷ codes "it"
    ∷ codes "its"
    ∷ codes "my"
    ∷ codes "your"
    ∷ codes "his"
    ∷ codes "her"
    ∷ codes "our"
    ∷ codes "their"
    ∷ codes "how"
    ∷ codes "when"
    ∷ codes "where"
    ∷ codes "why"
    ∷ []

-- `re.sub(r"[^\w\s]", " ", text)`
unfoldable pub blank_marks : Text → Text
blank_marks [] = []
blank_marks (c ∷ t) = (if is_word c || is_space c then c else b' ') ∷ blank_marks t

abbrev pub same_text : Text → Text → Bool
same_text [] [] = true
same_text [] (d ∷ t) = false
same_text (c ∷ s) [] = false
same_text (c ∷ s) (d ∷ t) = c == d && same_text s t

abbrev pub is_listed : Text → List Text → Bool
is_listed t [] = false
is_listed t (s ∷ ss) = same_text s t || is_listed t ss

unfoldable pub without_stopwords : List Text → List Text
unfolding stopwords
without_stopwords [] = []
without_stopwords (t ∷ ts) =
    let rest = without_stopwords ts in if is_listed t stopwords then rest else t ∷ rest

unfoldable pub normalize_query : Text → Text
unfolding lower strip blank_marks words without_stopwords join_with
normalize_query query =
    join_with (codes " ") (without_stopwords (words (blank_marks (strip (lower query)))))
