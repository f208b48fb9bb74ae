-- ===== src/Session/Keeps.antt =====
-- core/bitmod/session.py: what every operation of the tracker keeps.
use mathlib.Core.Option.{some-injective}
use bit_mod_ai_inference_cac.Session.Table.{length-evict, length-without}
use mathlib.Core.Path.{subst}
use bit_mod_ai_inference_cac.Session.{
  new_session, create, note, visit, Op, get_or_create, move_to_end, session_at, without, init, run,
  step, record_at, record_exchange, evict, Tracker, Sessions, SessionState,
}
use bit_mod_ai_inference_cac.Prelude.{
  sym, refl, inr, equal, All-append, ltb, zero, inl, none, Bool-cases, suc, [], arith, Option-cases,
  set, ◌∷◌, ◌++◌, ◌<◌, ◌≤◌, ◌≢◌, ◌≡◌, some, length-append, get_elem?, All, length, ℕ, Option, List,
}
use bit_mod_ai_inference_cac.AnswerKey.{Text}

abbrev pub IdIs : Text → Option SessionState → Type 0
IdIs sid none = ⊥
IdIs sid (some s) = s.session_id ≡ sid

-- The reference of an item leads to a state with the item's id.
abbrev pub Refers : List SessionState → Text × ℕ → Type 0
Refers heap (sid, r) = IdIs sid (get_elem? heap r)

-- A state has an answer and a cache key to each query.
abbrev pub Aligned : SessionState → Type 0
Aligned s = (length s.answers ≡ length s.queries) × (length s.cache_keys ≡ length s.queries)

abbrev pub Fresh : Text → Sessions → Type 0
Fresh sid xs = All (λ x. x.0 ≢ sid) xs

unfoldable pub Distinct : Sessions → Type 0
Distinct [] = Unit
Distinct ((sid, r) ∷ xs) = Fresh sid xs × Distinct xs

-- At most max_sessions sessions with different ids, each of them a state of its id, and no state
-- with a query that has no answer or cache key.
pub record IsConsistent (t : Tracker) : Type 0 where
  pub bounded : length t.sessions ≤ t.max_sessions
  pub distinct : Distinct t.sessions
  pub refers : All (Refers t.heap) t.sessions
  pub aligned : All Aligned t.heap

pub get_elem?-append {ℓ} :
    {A : Type ℓ} (xs : List A) (y : A) (i : ℕ)
    → i < length xs
    → get_elem? (xs ++ y ∷ []) i ≡ get_elem? xs i
get_elem?-append [] y i h = elim h [ ]
get_elem?-append (x ∷ xs) y zero h = refl
get_elem?-append (x ∷ xs) y (suc i) h = get_elem?-append xs y i (omega arith)

new_IdIs :
    (sid : Text) (heap : List SessionState)
    → IdIs sid (get_elem? (heap ++ new_session sid ∷ []) (length heap))
new_IdIs sid [] = refl
new_IdIs sid (x ∷ heap) = new_IdIs sid heap

IdIs-append :
    (sid : Text) (heap : List SessionState) (r : ℕ) (s : SessionState)
    → IdIs sid (get_elem? heap r)
    → IdIs sid (get_elem? (heap ++ s ∷ []) r)
IdIs-append sid [] r s h = absurd h
IdIs-append sid (x ∷ heap) zero s h = h
IdIs-append sid (x ∷ heap) (suc r) s h = IdIs-append sid heap r s h

IdIs-set :
    (sid : Text) (heap : List SessionState) (r i : ℕ) (s s' : SessionState)
    → get_elem? heap i ≡ some s
    → s'.session_id ≡ s.session_id
    → IdIs sid (get_elem? heap r)
    → IdIs sid (get_elem? (set heap i s') r)
IdIs-set sid [] r i s s' e f h = absurd h
IdIs-set sid (x ∷ heap) zero zero s s' e f h = cc
IdIs-set sid (x ∷ heap) zero (suc i) s s' e f h = h
IdIs-set sid (x ∷ heap) (suc r) zero s s' e f h = h
IdIs-set sid (x ∷ heap) (suc r) (suc i) s s' e f h = IdIs-set sid heap r i s s' e f h

All-map {ℓ κ} :
    {A : Type ℓ} (P Q : A → Type κ) → ((a : A) → P a → Q a) → (xs : List A) → All P xs → All Q xs
All-map P Q f [] h = tt
All-map P Q f (x ∷ xs) h = (f x h.0, All-map P Q f xs h.1)

All-set {ℓ κ} :
    {A : Type ℓ} (P : A → Type κ) (xs : List A) (i : ℕ) (v : A)
    → P v
    → All P xs
    → All P (set xs i v)
All-set P [] i v p h = h
All-set P (x ∷ xs) zero v p h = (p, h.1)
All-set P (x ∷ xs) (suc i) v p h = (h.0, All-set P xs i v p h.1)

pub All-get_elem? {ℓ κ} :
    {A : Type ℓ} (P : A → Type κ) (xs : List A) (i : ℕ) (v : A)
    → get_elem? xs i ≡ some v
    → All P xs
    → P v
All-get_elem? P [] i v e h = cc
All-get_elem? P (x ∷ xs) zero v e h = subst P (some-injective _ _ e) h.0
All-get_elem? P (x ∷ xs) (suc i) v e h = All-get_elem? P xs i v e h.1

All-evict {κ} : (P : Text × ℕ → Type κ) (n : ℕ) (xs : Sessions) → All P xs → All P (evict n xs)
unfolding evict
All-evict P n [] h = h
All-evict P n (x ∷ xs) h = elim (Bool-cases (ltb n (suc (length xs)))) [
  | inl e ↦ rw e (All-evict P n xs h.1)
  | inr e ↦ rw e h
]

Distinct-evict : (n : ℕ) (xs : Sessions) → Distinct xs → Distinct (evict n xs)
unfolding evict Distinct
Distinct-evict n [] h = h
Distinct-evict n ((s, q) ∷ xs) h = elim (Bool-cases (ltb n (suc (length xs)))) [
  | inl e ↦ rw e (Distinct-evict n xs h.1)
  | inr e ↦ rw e h
]

Distinct-append :
    (sid : Text) (r : ℕ) (xs : Sessions)
    → Fresh sid xs
    → Distinct xs
    → Distinct (xs ++ (sid, r) ∷ [])
unfolding Distinct
Distinct-append sid r [] f h = (tt, tt)
Distinct-append sid r ((s, q) ∷ xs) f h = (
  All-append (λ x. x.0 ≢ s) xs ((sid, r) ∷ []) h.0 ((λ e. f.0 (sym e)), tt),
  Distinct-append sid r xs f.1 h.1,
)

module _ (dec : Discrete Text) where
  All-without {κ} :
      (P : Text × ℕ → Type κ) (sid : Text) (xs : Sessions) → All P xs → All P (without dec sid xs)
  unfolding without
  All-without P sid [] h = h
  All-without P sid ((s, q) ∷ xs) h = elim (Bool-cases (equal dec s sid)) [
    | inl e ↦ rw e (All-without P sid xs h.1)
    | inr e ↦ rw e (h.0, All-without P sid xs h.1)
  ]

  Fresh-without : (sid : Text) (xs : Sessions) → Fresh sid (without dec sid xs)
  unfolding without
  Fresh-without sid [] = tt
  Fresh-without sid ((s, q) ∷ xs) = ground (arith, Fresh-without sid xs)

  Distinct-without : (sid : Text) (xs : Sessions) → Distinct xs → Distinct (without dec sid xs)
  unfolding without Distinct
  Distinct-without sid [] h = h
  Distinct-without sid ((s, q) ∷ xs) h = elim (Bool-cases (equal dec s sid)) [
    | inl e ↦ rw e (Distinct-without sid xs h.1)
    | inr e ↦ rw e (All-without (λ x. x.0 ≢ s) sid xs h.0, Distinct-without sid xs h.1)
  ]

  session_at-Fresh : (sid : Text) (xs : Sessions) → session_at dec sid xs ≡ none → Fresh sid xs
  unfolding session_at
  session_at-Fresh sid [] e = tt
  session_at-Fresh sid ((s, q) ∷ xs) e = ground (arith, session_at-Fresh sid xs)

  length-without_lt :
      (sid : Text) (r : ℕ) (xs : Sessions)
      → session_at dec sid xs ≡ some r
      → length (without dec sid xs) < length xs
  unfolding session_at without
  length-without_lt sid r [] e = cc
  length-without_lt sid r ((s, q) ∷ xs) e =
      ground (arith, length-without_lt sid r xs, length-without dec sid xs)

  pub session_at-IdIs :
      (sid : Text) (r : ℕ) (heap : List SessionState) (xs : Sessions)
      → All (Refers heap) xs
      → session_at dec sid xs ≡ some r
      → IdIs sid (get_elem? heap r)
  unfolding session_at
  session_at-IdIs sid r heap [] h e = cc
  session_at-IdIs sid r heap ((s, q) ∷ xs) h e = ground (arith, session_at-IdIs sid r heap xs)

  create-IsConsistent :
      (sid : Text) (t : Tracker)
      → IsConsistent t
      → session_at dec sid t.sessions ≡ none
      → IsConsistent (create dec sid t).0
  unfolding create
  create-IsConsistent sid t v e = record {
    bounded = length-evict t.max_sessions _;
    distinct = Distinct-evict t.max_sessions _ (
        Distinct-append sid (length t.heap) t.sessions (session_at-Fresh sid t.sessions e)
          v.distinct);
    refers = All-evict (Refers (t.heap ++ new_session sid ∷ [])) t.max_sessions _ (
        All-append (Refers (t.heap ++ new_session sid ∷ [])) t.sessions ((sid, length t.heap) ∷ [])
          (All-map (Refers t.heap) _ (λ x. IdIs-append x.0 t.heap x.1 (new_session sid)) t.sessions
            v.refers)
          (new_IdIs sid t.heap, tt));
    aligned = All-append Aligned t.heap (new_session sid ∷ []) v.aligned ((refl, refl), tt);
  }

  move-IsConsistent :
      (sid : Text) (r : ℕ) (t : Tracker)
      → IsConsistent t
      → session_at dec sid t.sessions ≡ some r
      → IsConsistent (record t { sessions = move_to_end dec sid r t.sessions })
  unfolding move_to_end
  move-IsConsistent sid r t v e = record {
    bounded =
        rw (length-append (without dec sid t.sessions) ((sid, r) ∷ []))
          (omega (arith, v.bounded, length-without_lt sid r t.sessions e));
    distinct =
        Distinct-append sid r _ (Fresh-without sid t.sessions)
          (Distinct-without sid t.sessions v.distinct);
    refers =
        All-append (Refers t.heap) _ ((sid, r) ∷ [])
          (All-without (Refers t.heap) sid t.sessions v.refers)
          (session_at-IdIs sid r t.heap t.sessions v.refers e, tt);
    aligned = v.aligned;
  }

  get_or_create-IsConsistent :
      (sid : Text) (t : Tracker) → IsConsistent t → IsConsistent (get_or_create dec sid t).0
  unfolding get_or_create
  get_or_create-IsConsistent sid t v = elim (Option-cases (session_at dec sid t.sessions)) [
    | inl e ↦ rw e (create-IsConsistent sid t v e)
    | inr (r, e) ↦ rw e (move-IsConsistent sid r t v e)
  ]

record_exchange-Aligned :
    (s : SessionState) (query answer cache_key : Text)
    → Aligned s
    → Aligned (record_exchange s query answer cache_key)
unfolding record_exchange
record_exchange-Aligned s query answer cache_key h =
    rw
      (
        length-append s.queries (query ∷ []),
        length-append s.answers (answer ∷ []),
        length-append s.cache_keys (cache_key ∷ []),
      )
      (omega (arith, h.0), omega (arith, h.1))

record_at-IsConsistent :
    (r : ℕ) (query answer cache_key : Text) (t : Tracker)
    → IsConsistent t
    → IsConsistent (record_at r query answer cache_key t)
unfolding record_at record_exchange
record_at-IsConsistent r query answer cache_key t v = elim (Option-cases (get_elem? t.heap r)) [
  | inl e ↦ rw e v
  | inr (s, e) ↦ rw e record {
    bounded = v.bounded;
    distinct = v.distinct;
    refers =
        All-map (Refers t.heap) _
          (λ x. IdIs-set x.0 t.heap x.1 r s (record_exchange s query answer cache_key) e refl)
          t.sessions v.refers;
    aligned =
        All-set Aligned t.heap r _
          (record_exchange-Aligned s query answer cache_key
            (All-get_elem? Aligned t.heap r s e v.aligned))
          v.aligned;
  }
]

step-IsConsistent :
    (dec : Discrete Text) (o : Op) (t : Tracker) → IsConsistent t → IsConsistent (step dec o t)
unfolding step
step-IsConsistent dec (visit sid) t v = get_or_create-IsConsistent dec sid t v
step-IsConsistent dec (note r query answer cache_key) t v =
    record_at-IsConsistent r query answer cache_key t v

pub run-IsConsistent :
    (dec : Discrete Text) (ops : List Op) (t : Tracker)
    → IsConsistent t
    → IsConsistent (run dec ops t)
unfolding run
run-IsConsistent dec [] t v = v
run-IsConsistent dec (o ∷ ops) t v =
    run-IsConsistent dec ops (step dec o t) (step-IsConsistent dec o t v)

init-IsConsistent : (max_sessions : ℕ) (salt : Text) → IsConsistent (init max_sessions salt)
unfolding init Distinct
init-IsConsistent max_sessions salt = record {
  bounded = omega arith;
  distinct = tt;
  refers = tt;
  aligned = tt;
}

-- Whatever calls a new tracker has had, it holds at most max_sessions sessions with different ids,
-- each id leads to a state with that id, and every state has an answer and a cache key to each query.
pub run-init-IsConsistent :
    (dec : Discrete Text) (max_sessions : ℕ) (salt : Text) (ops : List Op)
    → IsConsistent (run dec ops (init max_sessions salt))
run-init-IsConsistent dec max_sessions salt ops =
    run-IsConsistent dec ops (init max_sessions salt) (init-IsConsistent max_sessions salt)
