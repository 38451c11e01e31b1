-- ===== src/RateLimiter.antt =====
-- The sliding-window limiter of requests (backend/api/rate_limiter.py,
-- `SlidingWindowRateLimiter`). Time is counted in ticks of the monotonic clock, `second` ticks to
-- a second; the lock makes each call of `is_allowed` one step, so a run is a list of calls.
pub mod Queue
pub mod Window
mod Tests
use sih.Prelude.{
  ℕ, zero, suc, ◌+◌, ◌-◌, ◌/◌, max, Bool, true, false, Option, none, some, List, [], ◌∷◌, ◌++◌,
  length, ltb, if◌then◌else◌, String,
}
use sih.Prelude.Text.{str_eq}

-- `max_requests`, and `window_seconds` in ticks.
pub record Settings : Type 0 where
  pub max_requests : ℕ
  pub window : ℕ
  pub second : ℕ

-- What `is_allowed` returns.
pub record Answer : Type 0 where
  pub allowed : Bool
  pub remaining : ℕ
  pub retry_after : ℕ

-- The `while` loop that drops the times before `now - window` from the front of the queue.
unfoldable pub prune : ℕ → ℕ → List ℕ → List ℕ
prune window now [] = []
prune window now (t ∷ q) = elim (ltb (t + window) now) [ true ↦ prune window now q | false ↦ t ∷ q ]

-- `q.append(now)`, `cost` times.
unfoldable pub append_times : ℕ → ℕ → List ℕ → List ℕ
append_times zero now q = q
append_times (suc cost) now q = append_times cost now (q ++ now ∷ [])

abbrev pub oldest_or : ℕ → List ℕ → ℕ
oldest_or now [] = now
oldest_or now (t ∷ q) = t

-- The body of `is_allowed` under the lock, on the queue of one client.
unfoldable pub is_allowed_queue : Settings → ℕ → ℕ → List ℕ → Answer × List ℕ
unfolding append_times
is_allowed_queue s cost now queue =
    let q = prune s.window now queue in
    if ltb s.max_requests (length q + cost)
    then (
      record {
        allowed = false;
        remaining = 0;
        retry_after = max 1 ((oldest_or now q + s.window - now) / s.second + 1);
      },
      q,
    )
    else (
      record {
        allowed = true;
        remaining = s.max_requests - length (append_times cost now q);
        retry_after = 0;
      },
      append_times cost now q,
    )

-- `self._requests`: a queue for each client that was seen.
abbrev pub Requests : Type 0
Requests = List (String × List ℕ)

-- `self._requests[client_key]`, of a `defaultdict`.
unfoldable pub queue_of : String → Requests → List ℕ
queue_of key [] = []
queue_of key ((k, q) ∷ rest) = if str_eq k key then q else queue_of key rest

unfoldable pub set_queue : String → List ℕ → Requests → Requests
set_queue key q [] = (key, q) ∷ []
set_queue key q ((k, old) ∷ rest) =
    if str_eq k key then (k, q) ∷ rest else (k, old) ∷ set_queue key q rest

unfoldable pub is_allowed : Settings → String → ℕ → ℕ → Requests → Answer × Requests
is_allowed s key cost now requests =
    let (answer, q) = is_allowed_queue s cost now (queue_of key requests) in
    (answer, set_queue key q requests)

-- `reset`
unfoldable pub reset : Requests → Requests
reset requests = []
