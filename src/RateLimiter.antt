-- ===== src/RateLimiter.antt =====
-- core/bitmod/security.py: the class `InMemoryRateLimiter`. `now` is the clock's reading, in whole units from
-- a start; the dict of requests is the list of its items, in the order of insertion. The lock and the
-- log are left out. A difference of times is written as a sum on the other side.
pub mod Window
use bit_mod_ai_inference_cac.Prelude.{
  true, ◌++◌, false, take, ◌==◌, [], ◌+◌, leb, equal, length, min, max, ltb, ◌-◌, if◌then◌else◌,
  Bool, ◌∷◌, ℕ, List,
}

pub record InMemoryRateLimiter {ℓ} (K : Type ℓ) : Type ℓ where
  pub requests : List (K × List ℕ)
  pub last_cleanup : ℕ
  pub cleanup_interval : ℕ
  pub max_clients : ℕ

-- `[t for t in ts if t > now - window_seconds]`
unfoldable pub recent : ℕ → ℕ → List ℕ → List ℕ
recent now window [] = []
recent now window (t ∷ ts) =
    let rest = recent now window ts in if ltb now (t + window) then t ∷ rest else rest

-- `max(item[1]) if item[1] else 0`
unfoldable pub newest : List ℕ → ℕ
newest [] = 0
newest (t ∷ ts) = max t (newest ts)

-- `min(ts)`, of at least one time.
unfoldable pub oldest : ℕ → List ℕ → ℕ
oldest t [] = t
oldest t (u ∷ ts) = oldest (min t u) ts

-- `not timestamps or all(t <= cutoff for t in timestamps)`
unfoldable pub is_stale : ℕ → ℕ → List ℕ → Bool
unfolding recent
is_stale now window ts = length (recent now window ts) == 0

module _ {ℓ} {K : Type ℓ} where
  unfoldable pub drop_stale : ℕ → ℕ → List (K × List ℕ) → List (K × List ℕ)
  unfolding is_stale
  drop_stale now window [] = []
  drop_stale now window ((id, ts) ∷ rs) =
      let rest = drop_stale now window rs in
      if is_stale now window ts then rest else (id, ts) ∷ rest

  -- `sorted(..., key=newest)`, by insertion behind the items with the same key.
  unfoldable pub insert_sorted : K × List ℕ → List (K × List ℕ) → List (K × List ℕ)
  unfolding newest
  insert_sorted x [] = x ∷ []
  insert_sorted x (y ∷ rs) =
      let rest = insert_sorted x rs in
      if ltb (newest x.1) (newest y.1) then x ∷ y ∷ rs else y ∷ rest

  unfoldable pub sort_from : List (K × List ℕ) → List (K × List ℕ) → List (K × List ℕ)
  unfolding insert_sorted
  sort_from done [] = done
  sort_from done (x ∷ rs) = sort_from (insert_sorted x done) rs

module _ {ℓ} {K : Type ℓ} (dec : Discrete K) where
  -- `self._requests[client_id]` of the `defaultdict`
  unfoldable pub requests_of : K → List (K × List ℕ) → List ℕ
  requests_of id [] = []
  requests_of id ((i, ts) ∷ rs) = if equal dec i id then ts else requests_of id rs

  unfoldable pub put : K → List ℕ → List (K × List ℕ) → List (K × List ℕ)
  put id ts [] = (id, ts) ∷ []
  put id ts ((i, us) ∷ rs) =
      let rest = put id ts rs in if equal dec i id then (i, ts) ∷ rs else (i, us) ∷ rest

  unfoldable pub delete : K → List (K × List ℕ) → List (K × List ℕ)
  delete id [] = []
  delete id ((i, ts) ∷ rs) =
      let rest = delete id rs in if equal dec i id then rs else (i, ts) ∷ rest

  unfoldable pub delete_all : List (K × List ℕ) → List (K × List ℕ) → List (K × List ℕ)
  unfolding delete
  delete_all [] rs = rs
  delete_all (x ∷ xs) rs = delete_all xs (delete x.0 rs)

  unfoldable pub prune : ℕ → List (K × List ℕ) → List (K × List ℕ)
  unfolding delete_all sort_from
  prune max_clients rs =
      if ltb max_clients (length rs)
      then delete_all (take (length rs - max_clients) (sort_from [] rs)) rs
      else rs

  unfoldable pub maybe_cleanup : ℕ → ℕ → InMemoryRateLimiter K → InMemoryRateLimiter K
  unfolding drop_stale prune
  maybe_cleanup now window r =
      if ltb now (r.last_cleanup + r.cleanup_interval) then r else record r {
        requests = prune r.max_clients (drop_stale now window r.requests);
        last_cleanup = now;
      }

  unfoldable pub admit : ℕ → K → ℕ → List ℕ → InMemoryRateLimiter K → InMemoryRateLimiter K × Bool
  unfolding put
  admit now id max_requests kept r =
      if leb max_requests (length kept)
      then (record r { requests = put id kept r.requests }, false)
      else (record r { requests = put id (kept ++ now ∷ []) r.requests }, true)

  unfoldable pub is_allowed : ℕ → K → ℕ → ℕ → InMemoryRateLimiter K → InMemoryRateLimiter K × Bool
  unfolding maybe_cleanup admit requests_of recent
  is_allowed now id max_requests window r =
      let r' = maybe_cleanup now window r in
      admit now id max_requests (recent now window (requests_of id r'.requests)) r'

  -- Reading the `defaultdict` makes the client's entry.
  unfoldable pub remaining : ℕ → K → ℕ → ℕ → InMemoryRateLimiter K → InMemoryRateLimiter K × ℕ
  unfolding put requests_of recent
  remaining now id max_requests window r = (
    record r { requests = put id (requests_of id r.requests) r.requests },
    max_requests - length (recent now window (requests_of id r.requests)),
  )

  abbrev pub wait : ℕ → ℕ → List ℕ → ℕ
  wait now window [] = 0
  wait now window (t ∷ ts) = oldest t ts + window - now

  unfoldable pub reset_seconds : ℕ → K → ℕ → InMemoryRateLimiter K → InMemoryRateLimiter K × ℕ
  unfolding put requests_of recent oldest
  reset_seconds now id window r = (
    record r { requests = put id (requests_of id r.requests) r.requests },
    wait now window (recent now window (requests_of id r.requests)),
  )
