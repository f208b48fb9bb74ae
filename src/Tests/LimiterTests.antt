-- ===== src/Tests/LimiterTests.antt =====
-- A rate limiter of two requests in ten seconds (core/bitmod/security.py).
use bit_mod_ai_inference_cac.RateLimiter.Window.{admitted}
use bit_mod_ai_inference_cac.RateLimiter.Window.{is_allowed_lem, admitted_bound}
use bit_mod_ai_inference_cac.Prelude.{
  ◌≢◌, ◌++◌, if◌then◌else◌, ◌<◌, arith, ◌↔◌, refl, true, ◌≤◌, ◌≡◌, ◌∷◌, [], ℕ_discrete, ℕ, length,
  List,
}
use bit_mod_ai_inference_cac.RateLimiter.{
  remaining, maybe_cleanup, recent, requests_of, is_allowed, InMemoryRateLimiter,
}

abbrev limiter : InMemoryRateLimiter ℕ
limiter = record { requests = []; last_cleanup = 0; cleanup_interval = 300; max_clients = 5 }

abbrev calls : List (ℕ × ℕ)
calls = (1, 7) ∷ (2, 7) ∷ (3, 8) ∷ (4, 7) ∷ (12, 7) ∷ []

-- The third request of client 7 is refused, and the one after its first has left the window is not.
limiter_run : admitted ℕ_discrete 7 2 10 calls limiter ≡ 1 ∷ 2 ∷ 12 ∷ []
unfolding admitted is_allowed ℕ_discrete
limiter_run = refl

is_allowed_lem_example :
    let after = is_allowed ℕ_discrete 1 7 2 10 limiter in
    let cleaned = maybe_cleanup ℕ_discrete 1 10 limiter in
    let kept = recent 1 10 (requests_of ℕ_discrete 7 cleaned.requests) in
    ((after.1 ≡ true) ↔ (0 < (remaining ℕ_discrete 1 7 2 10 cleaned).1))
    × (requests_of ℕ_discrete 7 after.0.requests ≡ (if after.1 then kept ++ 1 ∷ [] else kept))
    × ((other : ℕ)
        → other ≢ 7
        → requests_of ℕ_discrete other after.0.requests
          ≡ requests_of ℕ_discrete other cleaned.requests)
is_allowed_lem_example = is_allowed_lem ℕ_discrete 1 7 2 10 limiter

nothing : requests_of ℕ_discrete 7 limiter.requests ≡ []
unfolding requests_of
nothing = refl

admitted_bound_example : length (recent 12 10 (admitted ℕ_discrete 7 2 10 calls limiter)) ≤ 2
admitted_bound_example = admitted_bound ℕ_discrete 7 2 10 calls 12 limiter nothing (omega arith)
