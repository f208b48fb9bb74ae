-- ===== src/Session/Ids.antt =====
-- core/bitmod/session.py: `_compute_session_id`. The encoding, SHA-256 and the first 16 hex digits of
-- it are one parameter.
use bit_mod_ai_inference_cac.Prelude.{
  ◌∙◌, sym, ◌<◌, arith, length-append, refl, none, ◌≢◌, ap, some, ◌≡◌, length, map, [], ◌∷◌, ◌++◌,
  List, Option,
}
use bit_mod_ai_inference_cac.AnswerKey.{Text, join}

-- A block of a message: a dict with its `text`, where it has one, or what `str(b)` gives.
pub data Block : Type 0 where
  dict : Option Text → Block
  other : Text → Block

pub data Content : Type 0 where
  plain : Text → Content
  blocks : List Block → Content

pub record Message : Type 0 where
  pub role : Option Text
  pub content : Option Content

abbrev pub get_text : Option Text → Text
get_text none = []
get_text (some t) = t

abbrev pub block_text : Block → Text
block_text (dict t) = get_text t
block_text (other t) = t

-- `" ".join(...)`
unfoldable pub spaced : List Block → Text
spaced [] = []
spaced (b ∷ []) = block_text b
spaced (b ∷ c ∷ bs) = block_text b ++ (b' ' ∷ spaced (c ∷ bs))

abbrev pub content_text : Option Content → Text
unfolding spaced
content_text none = []
content_text (some (plain t)) = t
content_text (some (blocks bs)) = spaced bs

abbrev pub message_part : Message → Text
message_part m = get_text m.role ++ b':' ∷ content_text m.content

abbrev pub empty_label : Text
empty_label = b'e' ∷ b'm' ∷ b'p' ∷ b't' ∷ b'y' ∷ []

abbrev pub parts : Text → List Message → List Text
parts salt [] = salt ∷ empty_label ∷ []
parts salt (m ∷ ms) = salt ∷ map message_part (m ∷ ms)

unfoldable pub compute_session_id : (Text → Text) → Text → List Message → Text
unfolding join
compute_session_id digest salt messages = digest (join (parts salt messages))

join-longer :
    (p : Text) (ps : List Text) (q : Text) (qs : List Text)
    → length (join (p ∷ ps)) < length (join (p ∷ ps ++ q ∷ qs))
unfolding join
join-longer p [] q qs = rw (length-append p (b'|' ∷ join (q ∷ qs))) (omega arith)
join-longer p (r ∷ ps) q qs =
    rw (length-append p, length-append p) (omega (arith, join-longer r ps q qs))

map-append {ℓ κ} :
    {A : Type ℓ} {B : Type κ} (f : A → B) (xs ys : List A) → map f (xs ++ ys) ≡ map f xs ++ map f ys
map-append f [] ys = refl
map-append f (x ∷ xs) ys = ap (◌∷◌ (f x)) (map-append f xs ys)

-- Where the digest does not collide, a conversation with further messages has another id: the id is
-- that of all the messages, not of the first one.
pub compute_session_id-longer :
    (digest : Text → Text) (salt : Text) (m : Message) (ms : List Message) (next : Message)
    (later : List Message)
    → ((x y : Text) → digest x ≡ digest y → x ≡ y)
    → compute_session_id digest salt (m ∷ ms ++ next ∷ later)
      ≢ compute_session_id digest salt (m ∷ ms)
unfolding compute_session_id
compute_session_id-longer digest salt m ms next later inj e =
    let longer =
      join-longer salt (map message_part (m ∷ ms)) (message_part next) (map message_part later) in
    let same = ap length (
      sym (ap (λ xs. join (salt ∷ message_part m ∷ xs)) (map-append message_part ms (next ∷ later)))
      ∙ inj _ _ e) in
    omega arith
