-- ===== src/Qualify.antt =====
-- core/bitmod/cache_qualify.py: the gate between a cache hit and its serving. The two regular
-- expressions are read with `re.IGNORECASE` as matches in the text's lower case; letters, digits and
-- spaces are those of ASCII.
pub mod Matches
use bit_mod_ai_inference_cac.Strings.{
  lower, is_space, words, lstrip, codes, strip, starts_with, Text,
}
use bit_mod_ai_inference_cac.Prelude.{
  ltb, length, ◌==◌, true, [], drop, ◌||◌, if◌then◌else◌, ◌&&◌, not, ◌∷◌, false, leb, List, Bool, ℕ,
}

-- `\w`
abbrev pub is_word : ℕ → Bool
is_word c =
    (leb b'a' c && leb c b'z')
    || (leb b'A' c && leb c b'Z')
    || (leb b'0' c && leb c b'9')
    || c == b'_'

abbrev pub begins_word : Text → Bool
begins_word [] = false
begins_word (c ∷ t) = is_word c

-- Whether the character before a place is one of a word, `before` at the start of the text.
abbrev pub ends_word : Bool → Text → Bool
ends_word before [] = before
ends_word before (c ∷ t) = ends_word (is_word c) t

-- `\b`, between what stands before and behind a place.
abbrev pub is_boundary : Bool → Bool → Bool
is_boundary true behind = not behind
is_boundary false behind = behind

-- An alternative at this place, with `\b` on both sides.
unfoldable pub matches_at : Bool → Text → Text → Bool
unfolding starts_with
matches_at before phrase t =
    (is_boundary before (begins_word t) && starts_with phrase t)
    && is_boundary (ends_word before phrase) (begins_word (drop (length phrase) t))

unfoldable pub any_at : Bool → List Text → Text → Bool
unfolding matches_at
any_at before [] t = false
any_at before (p ∷ ps) t = matches_at before p t || any_at before ps t

-- `re.search` for `\b(...)\b`, behind a character that is one of a word or not.
unfoldable pub search_from : Bool → List Text → Text → Bool
unfolding any_at
search_from before phrases [] = any_at before phrases []
search_from before phrases (c ∷ t) =
    any_at before phrases (c ∷ t) || search_from (is_word c) phrases t

-- The alternatives of `_CONTEXT_DEPENDENT_PATTERNS`; `what\'?s next` is two of them.
unfoldable pub context_phrases : List Text
context_phrases =
    codes "what about that"
    ∷ codes "tell me more"
    ∷ codes "explain that"
    ∷ codes "go deeper"
    ∷ codes "elaborate on that"
    ∷ codes "more about that"
    ∷ codes "what do you mean"
    ∷ codes "can you clarify"
    ∷ codes "what did you mean"
    ∷ codes "why is that"
    ∷ codes "how so"
    ∷ codes "in what way"
    ∷ codes "what's next"
    ∷ codes "whats next"
    ∷ codes "what else"
    ∷ codes "anything else"
    ∷ codes "go on"
    ∷ codes "continue"
    ∷ codes "what about the other"
    ∷ codes "the next one"
    ∷ codes "the previous one"
    ∷ codes "and the second"
    ∷ codes "and the third"
    ∷ codes "the last one"
    ∷ codes "what is it"
    ∷ codes "what are they"
    ∷ codes "who are they"
    ∷ codes "where is it"
    ∷ codes "how does it work"
    ∷ codes "why does it matter"
    ∷ codes "is it true"
    ∷ codes "do that again"
    ∷ codes "try that again"
    ∷ codes "repeat that"
    ∷ codes "the same thing"
    ∷ codes "like before"
    ∷ codes "as you said"
    ∷ codes "you mentioned"
    ∷ codes "you just said"
    ∷ codes "earlier you said"
    ∷ codes "back to that"
    ∷ codes "yes"
    ∷ codes "no"
    ∷ codes "ok"
    ∷ codes "sure"
    ∷ codes "right"
    ∷ codes "exactly"
    ∷ codes "correct"
    ∷ codes "wrong"
    ∷ codes "summarize this"
    ∷ codes "summarize that"
    ∷ codes "put it together"
    ∷ []

unfoldable pub openers : List Text
openers =
    codes "what"
    ∷ codes "where"
    ∷ codes "when"
    ∷ codes "who"
    ∷ codes "how"
    ∷ codes "why"
    ∷ codes "is"
    ∷ codes "are"
    ∷ codes "do"
    ∷ codes "does"
    ∷ codes "did"
    ∷ codes "can"
    ∷ codes "will"
    ∷ codes "would"
    ∷ []

unfoldable pub pronouns : List Text
pronouns =
    codes "it"
    ∷ codes "that"
    ∷ codes "this"
    ∷ codes "they"
    ∷ codes "them"
    ∷ codes "those"
    ∷ codes "these"
    ∷ codes "he"
    ∷ codes "she"
    ∷ codes "his"
    ∷ codes "her"
    ∷ []

-- A pronoun with `\b` behind it.
unfoldable pub pronoun_at : List Text → Text → Bool
unfolding starts_with
pronoun_at [] t = false
pronoun_at (p ∷ ps) t =
    (starts_with p t && is_boundary (ends_word false p) (begins_word (drop (length p) t)))
    || pronoun_at ps t

-- `\s+(...)\b`; no pronoun begins with a space.
abbrev pub spaces_then_pronoun : Text → Bool
spaces_then_pronoun [] = false
spaces_then_pronoun (c ∷ t) = is_space c && pronoun_at pronouns (lstrip t)

unfoldable pub opened_by : List Text → Text → Bool
unfolding starts_with pronoun_at pronouns lstrip
opened_by [] t = false
opened_by (o ∷ os) t =
    (starts_with o t && spaces_then_pronoun (drop (length o) t)) || opened_by os t

pub record QualificationResult : Type 0 where
  pub serve : Bool
  pub reason : Text
  pub check : Text

unfoldable pub is_context_dependent : Text → List Text → Bool
unfolding strip words lower search_from context_phrases opened_by openers
is_context_dependent query history =
    let q = strip query in
    if ltb 0 (length history) && leb (length (words q)) 3
    then true
    else if search_from false context_phrases (lower q)
    then true
    else opened_by openers (lower q)

-- The cached answer is not read.
unfoldable pub qualify_cache_hit : Text → Text → List Text → QualificationResult
unfolding is_context_dependent
qualify_cache_hit query cached_answer history =
    if is_context_dependent query history
    then record {
      serve = false;
      reason = codes "Query appears context-dependent (requires conversation history)";
      check = codes "context_dependent";
    }
    else record { serve = true; reason = []; check = [] }
