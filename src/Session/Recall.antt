-- ===== src/Session/Recall.antt =====
-- core/bitmod/session.py: what a returning conversation finds (`get_or_create`, `record`,
use bit_mod_ai_inference_cac.Session.Keeps.{session_at-IdIs, IdIs, IsConsistent}
-- `last_exchange_context`).
use bit_mod_ai_inference_cac.Session.Keeps.{get_elem?-append}
use bit_mod_ai_inference_cac.Session.Table.{
  Behind-session_at, session_at-without, Behind-new, Behind-move_to_end, Behind-append,
  Behind-weaken, Behind-evict, Behind,
}
use bit_mod_ai_inference_cac.AnswerKey.{Text}
use bit_mod_ai_inference_cac.Session.{
  without, new_session, move_to_end, session_at, step, create, run, get_or_create_at, record_at,
  note, exchange, visit, Tracker, get_or_create, SessionState, record_exchange, Op,
  last_exchange_context, last_elem,
}
use bit_mod_ai_inference_cac.Prelude.{
  ap, get_elem?-set_self, none, ◌>>=◌, Option, ◌∙◌, get_elem?-set_ne, inr, zero, ◌+◌, inl,
  Option-cases, arith, length, refl, ◌≢◌, ◌<◌, some, get_elem?, suc, [], ◌≡◌, ◌∷◌, ◌++◌, ℕ, List,
}

abbrev pub visits : List Op → ℕ
visits [] = 0
visits (visit sid ∷ ops) = suc (visits ops)
visits (note r query answer cache_key ∷ ops) = visits ops

-- No exchange is recorded in the state.
abbrev pub Untouched : ℕ → List Op → Type 0
Untouched r [] = Unit
Untouched r (visit sid ∷ ops) = Untouched r ops
Untouched r (note q query answer cache_key ∷ ops) = (q ≢ r) × Untouched r ops

last_elem-append {ℓ} : {A : Type ℓ} (xs : List A) (x : A) → last_elem (xs ++ x ∷ []) ≡ some x
unfolding last_elem
last_elem-append [] x = refl
last_elem-append (y ∷ []) x = refl
last_elem-append (y ∷ z ∷ xs) x = last_elem-append (z ∷ xs) x

get_elem?-lt {ℓ} :
    {A : Type ℓ} (xs : List A) (i : ℕ) (x : A) → get_elem? xs i ≡ some x → i < length xs
get_elem?-lt [] i x e = cc
get_elem?-lt (y ∷ xs) zero x e = omega arith
get_elem?-lt (y ∷ xs) (suc i) x e = omega (arith, get_elem?-lt xs i x e)

get_elem?-end {ℓ} :
    {A : Type ℓ} (xs : List A) (y : A) → get_elem? (xs ++ y ∷ []) (length xs) ≡ some y
get_elem?-end [] y = refl
get_elem?-end (x ∷ xs) y = get_elem?-end xs y

IdIs-some : (sid : Text) (o : Option SessionState) → IdIs sid o → (s : SessionState) × (o ≡ some s)
IdIs-some sid none h = absurd h
IdIs-some sid (some s) h = (s, refl)

note_there :
    (r q : ℕ) (s : SessionState) (query answer cache_key : Text) (t : Tracker)
    → q ≢ r
    → get_elem? t.heap r ≡ some s
    → get_elem? (record_at q query answer cache_key t).heap r ≡ some s
unfolding record_at
note_there r q s query answer cache_key t ne e = elim (Option-cases (get_elem? t.heap q)) [
  | inl f ↦ rw f e
  | inr (x, f) ↦ rw f (get_elem?-set_ne t.heap _ ne ∙ e)
]

last_exchange_context-record_exchange :
    (s : SessionState) (query answer cache_key : Text)
    → last_exchange_context (record_exchange s query answer cache_key) ≡ exchange query answer
unfolding last_exchange_context record_exchange
last_exchange_context-record_exchange s query answer cache_key =
    rw (last_elem-append s.queries query, last_elem-append s.answers answer) refl

module _ (dec : Discrete Text) where
  -- The session is at its reference, with few enough others behind it, and the state is as it was.
  record Recalls (sid : Text) (r k : ℕ) (s : SessionState) (t : Tracker) : Type 0 where
    behind : Behind dec sid r k t.sessions
    there : get_elem? t.heap r ≡ some s

  visit-Behind :
      (sid : Text) (r k : ℕ) (other : Text) (t : Tracker)
      → suc k < t.max_sessions
      → Behind dec sid r k t.sessions
      → Behind dec sid r (suc k) (get_or_create dec other t).0.sessions
  unfolding get_or_create get_or_create_at create
  visit-Behind sid r k other t lt h = elim (Option-cases (session_at dec other t.sessions)) [
    | inl e ↦ rw e (
        Behind-evict dec sid r (suc k) t.max_sessions _ lt
          (Behind-append dec sid r k t.sessions (other, length t.heap) h))
    | inr (q, e) ↦ rw e (Behind-move_to_end dec sid r k other q t.sessions e h)
  ]

  visit_there :
      (r : ℕ) (s : SessionState) (other : Text) (t : Tracker)
      → get_elem? t.heap r ≡ some s
      → get_elem? (get_or_create dec other t).0.heap r ≡ some s
  unfolding get_or_create get_or_create_at create
  visit_there r s other t h = elim (Option-cases (session_at dec other t.sessions)) [
    | inl e ↦ rw e (get_elem?-append t.heap (new_session other) r (get_elem?-lt t.heap r s h) ∙ h)
    | inr (q, e) ↦ rw e h
  ]

  visit_max :
      (other : Text) (t : Tracker) → (get_or_create dec other t).0.max_sessions ≡ t.max_sessions
  unfolding get_or_create get_or_create_at create
  visit_max other t = elim (Option-cases (session_at dec other t.sessions)) [
    | inl e ↦ rw e refl
    | inr (q, e) ↦ rw e refl
  ]

  run-Recalls :
      (sid : Text) (r k : ℕ) (s : SessionState) (ops : List Op) (t : Tracker)
      → k + visits ops < t.max_sessions
      → Untouched r ops
      → Recalls sid r k s t
      → Recalls sid r (k + visits ops) s (run dec ops t)
  unfolding run step record_at
  run-Recalls sid r k s [] t lt u h = record {
    behind = Behind-weaken dec sid r k _ _ (omega arith) h.behind;
    there = h.there;
  }
  run-Recalls sid r k s (visit other ∷ ops) t lt u h =
      let next =
        run-Recalls sid r (suc k) s ops (step dec (visit other) t)
          (rw (visit_max other t) (omega arith)) u
          record {
            behind = visit-Behind sid r k other t (omega arith) h.behind;
            there = visit_there r s other t h.there;
          } in
      record {
        behind = Behind-weaken dec sid r _ _ _ (omega arith) next.behind;
        there = next.there;
      }
  run-Recalls sid r k s (note q query answer cache_key ∷ ops) t lt u h =
      run-Recalls sid r k s ops (step dec (note q query answer cache_key) t) lt u.1
        record { behind = h.behind; there = note_there r q s query answer cache_key t u.0 h.there }

  -- A session that `get_or_create` has just given is the last in order, and its state is in the heap.
  visited :
      (sid : Text) (t : Tracker)
      → IsConsistent t
      → 0 < t.max_sessions
      → (s : SessionState) × Recalls sid (get_or_create dec sid t).1 0 s (get_or_create dec sid t).0
  unfolding get_or_create get_or_create_at create move_to_end
  visited sid t v lt = elim (Option-cases (session_at dec sid t.sessions)) [
    | inl e ↦ rw e (
      new_session sid,
      record {
        behind =
            Behind-evict dec sid (length t.heap) 0 t.max_sessions _ lt
              (Behind-new dec sid (length t.heap) t.sessions e);
        there = get_elem?-end t.heap (new_session sid);
      },
    )
    | inr (r, e) ↦ rw e (
        let (s, there) =
          IdIs-some sid (get_elem? t.heap r)
            (session_at-IdIs dec sid r t.heap t.sessions v.refers e) in
        (
          s,
          record {
            behind =
                Behind-new dec sid r (without dec sid t.sessions)
                  (session_at-without dec sid t.sessions);
            there = there;
          },
        ))
  ]

  recorded :
      (sid : Text) (r : ℕ) (s : SessionState) (query answer cache_key : Text) (t : Tracker)
      → Recalls sid r 0 s t
      → Recalls sid r 0
          (record_exchange s query answer cache_key)
          (record_at r query answer cache_key t)
  unfolding record_at
  recorded sid r s query answer cache_key t h = record {
    behind = h.behind;
    there = rw h.there (get_elem?-set_self t.heap r _ (get_elem?-lt t.heap r s h.there));
  }

  revisited :
      (sid : Text) (r k : ℕ) (s : SessionState) (t : Tracker)
      → Recalls sid r k s t
      → (get_or_create dec sid t).1 ≡ r
  unfolding get_or_create get_or_create_at
  revisited sid r k s t h = rw (Behind-session_at dec sid r k t.sessions h.behind) refl

  -- On a tracker whose sessions lead to their states, as all calls leave it: after `get_or_create`
  -- gives a state and an exchange is recorded in it, and then fewer than
  -- max_sessions other calls of `get_or_create` and records of other states, the same id gives the
  -- same state, and its context is that exchange.
  pub get_or_create-record :
      (sid query answer cache_key : Text) (ops : List Op) (t : Tracker)
      → IsConsistent t
      → visits ops < t.max_sessions
      → Untouched (get_or_create dec sid t).1 ops
      → let r = (get_or_create dec sid t).1 in
        let later =
          get_or_create dec sid
            (run dec ops (record_at r query answer cache_key (get_or_create dec sid t).0)) in
        (later.1 ≡ r)
        × ((get_elem? later.0.heap r >>= (λ s. some (last_exchange_context s)))
            ≡ some (exchange query answer))
  unfolding record_at
  get_or_create-record sid query answer cache_key ops t v lt u =
      let (s, h) = visited sid t v (omega arith) in
      let t' =
        record_at (get_or_create dec sid t).1 query answer cache_key (get_or_create dec sid t).0 in
      let h' = recorded sid _ s query answer cache_key _ h in
      let kept = run-Recalls sid _ 0 _ ops t' (rw (visit_max sid t) (omega arith)) u h' in
      (
        revisited sid _ _ _ _ kept,
        ap (λ o. o >>= (λ s. some (last_exchange_context s))) (visit_there _ _ sid _ kept.there)
            ∙ ap some (last_exchange_context-record_exchange s query answer cache_key),
      )
