-- ===== src/RateLimiter/Window.antt =====
-- core/bitmod/security.py: how many requests `InMemoryRateLimiter.is_allowed` admits in a window.
use mathlib.Core.List.{append_assoc}
use mathlib.Core.Path.{subst}
use bit_mod_ai_inference_cac.Prelude.{
  equal_self, Bool, ap, length-append, sym, ◌∙◌, inr, leb→le, inl, false, ◌+◌, Bool-cases, ◌-◌, leb,
  ◌&&◌, refl, equal, ◌↔◌, [], ◌<◌, if◌then◌else◌, true, arith, ◌∷◌, ◌≢◌, ◌≡◌, length, ◌≤◌, ◌++◌,
  List, ℕ,
}
use bit_mod_ai_inference_cac.RateLimiter.{
  maybe_cleanup, InMemoryRateLimiter, remaining, admit, put, is_allowed, requests_of, recent,
}

recent-append :
    (now window : ℕ) (ts us : List ℕ)
    → recent now window (ts ++ us) ≡ recent now window ts ++ recent now window us
unfolding recent
recent-append now window [] us = refl
recent-append now window (t ∷ ts) us = ground (arith, recent-append now window ts us)

-- A later look at the times that an earlier one kept.
recent-recent :
    (now later window : ℕ) (ts : List ℕ)
    → now ≤ later
    → recent later window (recent now window ts) ≡ recent later window ts
unfolding recent
recent-recent now later window [] h = refl
recent-recent now later window (t ∷ ts) h = ground (arith, recent-recent now later window ts h)

length-recent : (now window : ℕ) (ts : List ℕ) → length (recent now window ts) ≤ length ts
unfolding recent
length-recent now window [] = omega arith
length-recent now window (t ∷ ts) = ground (arith, length-recent now window ts)

leb-lt : (a b : ℕ) → leb a b ≡ false → b < a
leb-lt a b h = ground arith

if_true {ℓ} : {A : Type ℓ} {b : Bool} (x y : A) → b ≡ true → (if b then x else y) ≡ x
if_true x y e = rw e refl

if_false {ℓ} : {A : Type ℓ} {b : Bool} (x y : A) → b ≡ false → (if b then x else y) ≡ y
if_false x y e = rw e refl

refused : false ≡ true → ⊥
refused e = cc

over : {m n : ℕ} → m ≤ n → 0 < m - n → ⊥
over h k = omega arith

module _ {ℓ} {K : Type ℓ} (dec : Discrete K) where
  requests_of-put_self :
      (id : K) (ts : List ℕ) (rs : List (K × List ℕ)) → requests_of dec id (put dec id ts rs) ≡ ts
  unfolding requests_of put
  requests_of-put_self id ts [] = ground arith
  requests_of-put_self id ts ((i, us) ∷ rs) = ground (arith, requests_of-put_self id ts rs)

  requests_of-put_ne :
      (id : K) (ts : List ℕ) (other : K) (rs : List (K × List ℕ))
      → other ≢ id
      → requests_of dec other (put dec id ts rs) ≡ requests_of dec other rs
  unfolding requests_of put
  requests_of-put_ne id ts other [] ne = ground arith
  requests_of-put_ne id ts other ((i, us) ∷ rs) ne =
      ground (arith, requests_of-put_ne id ts other rs ne)

  -- The request is allowed exactly if `remaining` of the limiter after its cleanup is positive, and the
  -- client then has its requests in the window, with this one if it is allowed; what the cleanup
  -- leaves of the other clients is kept.
  pub is_allowed_lem :
      (now : ℕ) (id : K) (max_requests window : ℕ) (r : InMemoryRateLimiter K)
      → let after = is_allowed dec now id max_requests window r in
        let cleaned = maybe_cleanup dec now window r in
        let kept = recent now window (requests_of dec id cleaned.requests) in
        ((after.1 ≡ true) ↔ (0 < (remaining dec now id max_requests window cleaned).1))
        × (requests_of dec id after.0.requests ≡ (if after.1 then kept ++ now ∷ [] else kept))
        × ((other : K)
            → other ≢ id
            → requests_of dec other after.0.requests ≡ requests_of dec other cleaned.requests)
  unfolding is_allowed admit remaining
  is_allowed_lem now id max_requests window r =
      let cleaned = maybe_cleanup dec now window r in
      let kept = recent now window (requests_of dec id cleaned.requests) in
      elim (Bool-cases (leb max_requests (length kept))) [
        | inl e ↦
            let full = leb→le max_requests (length kept) e in
            rw e (
              (λ h. cc, λ h. absurd (over full h)),
              requests_of-put_self id kept cleaned.requests,
              λ other ne. requests_of-put_ne id kept other cleaned.requests ne,
            )
        | inr e ↦
            let free = leb-lt max_requests (length kept) e in
            rw e (
              (λ h. omega arith, λ h. refl),
              requests_of-put_self id (kept ++ now ∷ []) cleaned.requests,
              λ other ne. requests_of-put_ne id (kept ++ now ∷ []) other cleaned.requests ne,
            )
      ]

  -- The times at which the client's requests were admitted, in a run of requests by any clients.
  unfoldable pub admitted : K → ℕ → ℕ → List (ℕ × K) → InMemoryRateLimiter K → List ℕ
  admitted id max_requests window [] r = []
  admitted id max_requests window ((now, c) ∷ calls) r =
      let (r', allowed) = is_allowed dec now c max_requests window r in
      let rest = admitted id max_requests window calls r' in
      if equal dec c id && allowed then now ∷ rest else rest

-- The times do not go back, and the next cleanup is not due.
abbrev pub Between {ℓ} : {K : Type ℓ} → ℕ → ℕ → List (ℕ × K) → ℕ → Type 0
Between lo cleanup [] end = lo ≤ end
Between lo cleanup ((now, c) ∷ calls) end =
    (lo ≤ now) × (now < cleanup) × Between now cleanup calls end

Between-le {ℓ} :
    {K : Type ℓ} (lo cleanup : ℕ) (calls : List (ℕ × K)) (end : ℕ)
    → Between lo cleanup calls end
    → lo ≤ end
Between-le lo cleanup [] end h = h
Between-le lo cleanup ((now, c) ∷ calls) end h =
    omega (arith, h.0, Between-le now cleanup calls end h.2)

-- A kept list stands for the whole one in every later window.
recent-kept :
    (now end window : ℕ) (q a : List ℕ)
    → now ≤ end
    → recent end window (recent now window q ++ a) ≡ recent end window (q ++ a)
recent-kept now end window q a le =
    rw
      (
        recent-append end window (recent now window q) a,
        recent-append end window q a,
        recent-recent now end window q le,
      )
      refl

module _ {ℓ} {K : Type ℓ} (dec : Discrete K) (id : K) (max_requests window : ℕ) where
  no_cleanup :
      (now cleanup : ℕ) (r : InMemoryRateLimiter K)
      → r.last_cleanup + r.cleanup_interval ≡ cleanup
      → now < cleanup
      → maybe_cleanup dec now window r ≡ r
  unfolding maybe_cleanup
  no_cleanup now cleanup r e lt = ground arith

  other_test : {c : K} → ¬ (c ≡ id) → equal dec c id ≡ false
  other_test ne = ground arith

  -- What a request between two cleanups leaves of the requests of its client.
  own :
      (now cleanup : ℕ) (r : InMemoryRateLimiter K)
      → r.last_cleanup + r.cleanup_interval ≡ cleanup
      → now < cleanup
      → requests_of dec id (is_allowed dec now id max_requests window r).0.requests ≡ (
          if (is_allowed dec now id max_requests window r).1
          then recent now window (requests_of dec id r.requests) ++ now ∷ []
          else recent now window (requests_of dec id r.requests))
  own now cleanup r e lt =
      (is_allowed_lem dec now id max_requests window r).1
      ∙ ap
          (λ (x : InMemoryRateLimiter K).
            if (is_allowed dec now id max_requests window r).1
            then recent now window (requests_of dec id x.requests) ++ now ∷ []
            else recent now window (requests_of dec id x.requests))
          (no_cleanup now cleanup r e lt)

  own_free :
      (now cleanup : ℕ) (r : InMemoryRateLimiter K)
      → r.last_cleanup + r.cleanup_interval ≡ cleanup
      → now < cleanup
      → (is_allowed dec now id max_requests window r).1 ≡ true
      → length (recent now window (requests_of dec id r.requests)) < max_requests
  unfolding is_allowed admit
  own_free now cleanup r e lt a =
      elim (Bool-cases
        (leb max_requests (length (recent now window (requests_of dec id r.requests))))) [
          | inl f ↦ absurd (refused (sym (rw (no_cleanup now cleanup r e lt, f) refl) ∙ a))
          | inr f ↦ leb-lt max_requests _ f
        ]

  others :
      (now cleanup : ℕ) (c : K) (r : InMemoryRateLimiter K)
      → r.last_cleanup + r.cleanup_interval ≡ cleanup
      → now < cleanup
      → id ≢ c
      → requests_of dec id (is_allowed dec now c max_requests window r).0.requests
        ≡ requests_of dec id r.requests
  others now cleanup c r e lt ne =
      (is_allowed_lem dec now c max_requests window r).2 id ne
      ∙ ap (λ (x : InMemoryRateLimiter K). requests_of dec id x.requests)
          (no_cleanup now cleanup r e lt)

  same_cleanup :
      (now cleanup : ℕ) (c : K) (r : InMemoryRateLimiter K)
      → r.last_cleanup + r.cleanup_interval ≡ cleanup
      → now < cleanup
      → (is_allowed dec now c max_requests window r).0.last_cleanup
          + (is_allowed dec now c max_requests window r).0.cleanup_interval
        ≡ cleanup
  unfolding is_allowed admit
  same_cleanup now cleanup c r e lt =
      elim (Bool-cases
        (leb max_requests (length (recent now window (requests_of dec c r.requests))))) [
          | inl f ↦ rw (no_cleanup now cleanup r e lt, f) e
          | inr f ↦ rw (no_cleanup now cleanup r e lt, f) e
        ]

  admitted-recent :
      (lo cleanup : ℕ) (calls : List (ℕ × K)) (end : ℕ) (r : InMemoryRateLimiter K)
      → r.last_cleanup + r.cleanup_interval ≡ cleanup
      → Between lo cleanup calls end
      → length (requests_of dec id r.requests) ≤ max_requests
      → length (
          recent end window
            (requests_of dec id r.requests ++ admitted dec id max_requests window calls r))
        ≤ max_requests
  unfolding admitted is_allowed admit
  admitted-recent lo cleanup [] end r e b h = omega (
    arith,
    length-recent end window (requests_of dec id r.requests ++ []),
    length-append (requests_of dec id r.requests) [],
  )
  admitted-recent lo cleanup ((now, c) ∷ calls) end r e b h =
      let cl = same_cleanup now cleanup c r e b.1 in
      let r' = (is_allowed dec now c max_requests window r).0 in
      let later = Between-le now cleanup calls end b.2 in
      let q = requests_of dec id r.requests in
      elim (dec c id) [
        | yes p ↦
            let cl' = same_cleanup now cleanup id r e b.1 in
            let r'' = (is_allowed dec now id max_requests window r).0 in
            let rest = admitted dec id max_requests window calls r'' in
            let kept = recent now window q in
            elim (Bool-cases (is_allowed dec now id max_requests window r).1) [
              | inl a ↦
                  let same = own now cleanup r e b.1 ∙ if_true _ _ a in
                  let free = own_free now cleanup r e b.1 a in
                  let size = ap length same ∙ length-append kept (now ∷ []) in
                  let ih =
                    admitted-recent now cleanup calls end r'' cl' b.2 (omega (arith, size, free)) in
                  let times =
                    ap (λ x. recent end window (x ++ rest)) same
                    ∙ ap (recent end window) (append_assoc kept (now ∷ []) rest)
                    ∙ recent-kept now end window q (now ∷ rest) later in
                  rw (p, equal_self dec id, a) (subst (λ x. length x ≤ max_requests) times ih)
              | inr a ↦
                  let same = own now cleanup r e b.1 ∙ if_false _ _ a in
                  let ih =
                    admitted-recent now cleanup calls end r'' cl' b.2
                      (omega (arith, ap length same, length-recent now window q)) in
                  let times =
                    ap (λ x. recent end window (x ++ rest)) same
                    ∙ recent-kept now end window q rest later in
                  rw (p, equal_self dec id, a) (subst (λ x. length x ≤ max_requests) times ih)
            ]
        | no p ↦
            let same = others now cleanup c r e b.1 (λ z. p (sym z)) in
            let ih = admitted-recent now cleanup calls end r' cl b.2 (rw same h) in
            rw (other_test p) (
              subst
                (λ x.
                  length (recent end window (x ++ admitted dec id max_requests window calls r'))
                  ≤ max_requests)
                same ih)
      ]

  -- From a limiter without requests of the client, between two cleanups and with a clock that does not
  -- go back, at most max_requests of the client's requests are admitted in any one window, whoever
  -- else asks in between.
  pub admitted_bound :
      (calls : List (ℕ × K)) (end : ℕ) (r : InMemoryRateLimiter K)
      → requests_of dec id r.requests ≡ []
      → Between 0 (r.last_cleanup + r.cleanup_interval) calls end
      → length (recent end window (admitted dec id max_requests window calls r)) ≤ max_requests
  admitted_bound calls end r none b =
      let bound = admitted-recent 0 _ calls end r refl b (rw none (omega arith)) in
      subst
        (λ q.
          length (recent end window (q ++ admitted dec id max_requests window calls r))
          ≤ max_requests)
        none bound
