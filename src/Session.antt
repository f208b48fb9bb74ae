-- ===== src/Session.antt =====
-- core/bitmod/session.py: `SessionState` and `SessionTracker`. The states are objects that the
-- tracker and its callers share, so they stand in a heap and a state is passed on as its index there.
-- The OrderedDict is the list of its items, the oldest first. The digest of a conversation is a
-- parameter.
pub mod Ids
pub mod Table
pub mod Keeps
pub mod Recall
use bit_mod_ai_inference_cac.Prelude.{
  suc, equal, ltb, set, if◌then◌else◌, get_elem?, ◌∷◌, some, none, ◌++◌, length, [], Option, ℕ,
  List,
}
use bit_mod_ai_inference_cac.AnswerKey.{Text}

pub record SessionState : Type 0 where
  pub session_id : Text
  pub queries : List Text
  pub answers : List Text
  pub cache_keys : List Text

-- The items of a dict of session references.
abbrev pub Sessions : Type 0
Sessions = List (Text × ℕ)

pub record Tracker : Type 0 where
  pub heap : List SessionState
  pub sessions : Sessions
  pub max_sessions : ℕ
  pub instance_salt : Text

abbrev pub new_session : Text → SessionState
new_session sid = record { session_id = sid; queries = []; answers = []; cache_keys = [] }

unfoldable pub init : ℕ → Text → Tracker
init max_sessions salt = record {
  heap = [];
  sessions = [];
  max_sessions = max_sessions;
  instance_salt = salt;
}

abbrev pub turn_count : SessionState → ℕ
turn_count s = length s.queries

-- `SessionState.record`
unfoldable pub record_exchange : SessionState → Text → Text → Text → SessionState
record_exchange s query answer cache_key = record s {
  queries = s.queries ++ query ∷ [];
  answers = s.answers ++ answer ∷ [];
  cache_keys = s.cache_keys ++ cache_key ∷ [];
}

-- The element that Python's index -1 reads.
unfoldable pub last_elem {ℓ} : {A : Type ℓ} → List A → Option A
last_elem [] = none
last_elem (x ∷ []) = some x
last_elem (x ∷ y ∷ xs) = last_elem (y ∷ xs)

-- What `last_exchange_context` comes to: no context, the text of an exchange, or an IndexError.
pub data Context : Type 0 where
  no_context : Context
  exchange : Text → Text → Context
  index_error : Context

unfoldable pub exchange_of : Option Text → Option Text → Context
exchange_of none answer = no_context
exchange_of (some query) none = index_error
exchange_of (some query) (some answer) = exchange query answer

unfoldable pub last_exchange_context : SessionState → Context
unfolding exchange_of last_elem
last_exchange_context s = exchange_of (last_elem s.queries) (last_elem s.answers)

-- The `while` loop behind the insertion.
unfoldable pub evict : ℕ → Sessions → Sessions
evict max_sessions [] = []
evict max_sessions (x ∷ xs) =
    let rest = evict max_sessions xs in if ltb max_sessions (suc (length xs)) then rest else x ∷ xs

module _ (dec : Discrete Text) where
  -- `self._sessions[sid]`, where there is one.
  unfoldable pub session_at : Text → Sessions → Option ℕ
  session_at sid [] = none
  session_at sid ((s, r) ∷ xs) = if equal dec s sid then some r else session_at sid xs

  unfoldable pub without : Text → Sessions → Sessions
  without sid [] = []
  without sid ((s, r) ∷ xs) =
      let rest = without sid xs in if equal dec s sid then rest else (s, r) ∷ rest

  unfoldable pub move_to_end : Text → ℕ → Sessions → Sessions
  unfolding without
  move_to_end sid r xs = without sid xs ++ (sid, r) ∷ []

  unfoldable pub create : Text → Tracker → Tracker × ℕ
  unfolding evict
  create sid t = (
    record t {
      heap = t.heap ++ new_session sid ∷ [];
      sessions = evict t.max_sessions (t.sessions ++ (sid, length t.heap) ∷ []);
    },
    length t.heap,
  )

  unfoldable pub get_or_create_at : Text → Tracker → Option ℕ → Tracker × ℕ
  unfolding move_to_end create
  get_or_create_at sid t none = create sid t
  get_or_create_at sid t (some r) = (record t { sessions = move_to_end sid r t.sessions }, r)

  -- `get_or_create`, from the id of the conversation on.
  unfoldable pub get_or_create : Text → Tracker → Tracker × ℕ
  unfolding session_at get_or_create_at
  get_or_create sid t = get_or_create_at sid t (session_at sid t.sessions)

abbrev pub write :
    List SessionState → ℕ → Option SessionState → Text → Text → Text → List SessionState
write heap r none query answer cache_key = heap
write heap r (some s) query answer cache_key = set heap r (record_exchange s query answer cache_key)

-- `SessionTracker.record`, at the reference of the state.
unfoldable pub record_at : ℕ → Text → Text → Text → Tracker → Tracker
unfolding record_exchange
record_at r query answer cache_key t = record t {
  heap = write t.heap r (get_elem? t.heap r) query answer cache_key;
}

-- What the proxy does with its tracker.
pub data Op : Type 0 where
  visit : Text → Op
  note : ℕ → Text → Text → Text → Op

unfoldable pub step : Discrete Text → Op → Tracker → Tracker
unfolding get_or_create record_at
step dec (visit sid) t = (get_or_create dec sid t).0
step dec (note r query answer cache_key) t = record_at r query answer cache_key t

unfoldable pub run : Discrete Text → List Op → Tracker → Tracker
unfolding step
run dec [] t = t
run dec (o ∷ ops) t = run dec ops (step dec o t)
