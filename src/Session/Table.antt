-- ===== src/Session/Table.antt =====
-- core/bitmod/session.py: where a session stands in the OrderedDict, and what each operation makes of
-- its place.
use mathlib.Core.Option.{some-injective}
use bit_mod_ai_inference_cac.Prelude.{
  ap, ◌∙◌, sym, refl, length-append, [], ite, ◌∷◌, arith, none, ◌++◌, ◌≤◌, some, ◌<◌, ◌≢◌, suc,
  length, ◌≡◌, ℕ,
}
use bit_mod_ai_inference_cac.Session.{move_to_end, Sessions, without, session_at, evict}
use bit_mod_ai_inference_cac.AnswerKey.{Text}

module _ (dec : Discrete Text) where
  -- The session of the id is there, at the reference, with at most k sessions behind it.
  unfoldable pub Behind : Text → ℕ → ℕ → Sessions → Type 0
  Behind sid r k [] = ⊥
  Behind sid r k ((s, q) ∷ xs) = ite (dec s sid) ((q ≡ r) × (length xs ≤ k)) (Behind sid r k xs)

  pub Behind-session_at :
      (sid : Text) (r k : ℕ) (xs : Sessions) → Behind sid r k xs → session_at dec sid xs ≡ some r
  unfolding Behind session_at
  Behind-session_at sid r k [] h = absurd h
  Behind-session_at sid r k ((s, q) ∷ xs) h = ground (arith, Behind-session_at sid r k xs)

  pub length-without : (sid : Text) (xs : Sessions) → length (without dec sid xs) ≤ length xs
  unfolding without
  length-without sid [] = omega arith
  length-without sid ((s, q) ∷ xs) = ground (arith, length-without sid xs)

  pub Behind-append :
      (sid : Text) (r k : ℕ) (xs : Sessions) (x : Text × ℕ)
      → Behind sid r k xs
      → Behind sid r (suc k) (xs ++ x ∷ [])
  unfolding Behind
  Behind-append sid r k [] x h = absurd h
  Behind-append sid r k ((s, q) ∷ xs) x h =
      ground (arith, length-append xs (x ∷ []), Behind-append sid r k xs x)

  pub Behind-without :
      (sid other : Text) (r k : ℕ) (xs : Sessions)
      → other ≢ sid
      → Behind sid r k xs
      → Behind sid r k (without dec other xs)
  unfolding Behind without
  Behind-without sid other r k [] ne h = absurd h
  Behind-without sid other r k ((s, q) ∷ xs) ne h =
      ground (arith, length-without other xs, Behind-without sid other r k xs ne)

  pub Behind-new :
      (sid : Text) (r : ℕ) (xs : Sessions)
      → session_at dec sid xs ≡ none
      → Behind sid r 0 (xs ++ (sid, r) ∷ [])
  unfolding Behind session_at
  Behind-new sid r [] h = ground arith
  Behind-new sid r ((s, q) ∷ xs) h = ground (arith, Behind-new sid r xs)

  pub session_at-without :
      (sid : Text) (xs : Sessions) → session_at dec sid (without dec sid xs) ≡ none
  unfolding without session_at
  session_at-without sid [] = refl
  session_at-without sid ((s, q) ∷ xs) = ground (arith, session_at-without sid xs)

  pub Behind-evict :
      (sid : Text) (r k max_sessions : ℕ) (xs : Sessions)
      → k < max_sessions
      → Behind sid r k xs
      → Behind sid r k (evict max_sessions xs)
  unfolding Behind evict
  Behind-evict sid r k max_sessions [] lt h = absurd h
  Behind-evict sid r k max_sessions ((s, q) ∷ xs) lt h =
      ground (arith, Behind-evict sid r k max_sessions xs lt)

pub length-evict :
    (max_sessions : ℕ) (xs : Sessions) → length (evict max_sessions xs) ≤ max_sessions
unfolding evict
length-evict max_sessions [] = omega arith
length-evict max_sessions (x ∷ xs) = ground (arith, length-evict max_sessions xs)

pub evict-fits :
    (max_sessions : ℕ) (xs : Sessions) → length xs ≤ max_sessions → evict max_sessions xs ≡ xs
unfolding evict
evict-fits max_sessions [] h = refl
evict-fits max_sessions (x ∷ xs) h = ground arith

module _ (dec : Discrete Text) where
  pub Behind-weaken :
      (sid : Text) (r k n : ℕ) (xs : Sessions)
      → k ≤ n
      → Behind dec sid r k xs
      → Behind dec sid r n xs
  unfolding Behind
  Behind-weaken sid r k n [] le h = absurd h
  Behind-weaken sid r k n ((s, q) ∷ xs) le h = ground (arith, Behind-weaken sid r k n xs le)

  -- A visit of any session puts at most one more behind a session.
  pub Behind-move_to_end :
      (sid : Text) (r k : ℕ) (other : Text) (q : ℕ) (xs : Sessions)
      → session_at dec other xs ≡ some q
      → Behind dec sid r k xs
      → Behind dec sid r (suc k) (move_to_end dec other q xs)
  unfolding move_to_end
  Behind-move_to_end sid r k other q xs e h = elim (dec other sid) [
    | yes p ↦
        let same =
          some-injective q r
            (sym e ∙ ap (λ x. session_at dec x xs) p ∙ Behind-session_at dec sid r k xs h) in
        rw (same, p)
          (Behind-weaken sid r 0 (suc k) _ (omega arith)
            (Behind-new dec sid r (without dec sid xs) (session_at-without dec sid xs)))
    | no p ↦
        Behind-append dec sid r k (without dec other xs) (other, q)
          (Behind-without dec sid other r k xs p h)
  ]
