-- ===== src/RateLimiter/Tests.antt =====
-- Runs of the limiter (backend/api/rate_limiter.py), and its theorems at concrete calls.
use sih.Prelude.{
  ℕ, ◌+◌, ◌*◌, ◌≤◌, ◌≡◌, refl, ◌⊎◌, true, false, List, [], ◌∷◌, length, arith, if◌then◌else◌, ◌<◌,
}
use sih.Prelude.Text.{str_eq}
use sih.RateLimiter.{Settings, prune, is_allowed_queue, Requests, queue_of, is_allowed}
use sih.RateLimiter.Queue.{is_allowed_queue_lem, is_allowed_queue_retry}
use sih.RateLimiter.Window.{admitted, within, admitted_bound, is_allowed_isolated}

-- Two requests in 60 seconds, at 10 ticks to a second.
abbrev two_a_minute : Settings
two_a_minute = record { max_requests = 2; window = 600; second = 10 }

refused :
    is_allowed_queue two_a_minute 1 605 (5 ∷ 300 ∷ [])
    ≡ (record { allowed = false; remaining = 0; retry_after = 1 }, 5 ∷ 300 ∷ [])
unfolding is_allowed_queue prune
refused = refl

let_through :
    is_allowed_queue two_a_minute 1 606 (5 ∷ 300 ∷ [])
    ≡ (record { allowed = true; remaining = 0; retry_after = 0 }, 300 ∷ 606 ∷ [])
unfolding is_allowed_queue prune
let_through = refl

is_allowed_queue_lem_run :
    let (answer, q) = is_allowed_queue two_a_minute 1 605 (5 ∷ 300 ∷ []) in
    let n = length (prune 600 605 (5 ∷ 300 ∷ [])) in
    (length q ≤ 2)
    × ((answer.allowed ≡ true)
          × (n + 1 ≤ 2)
          × (length q ≡ n + 1)
          × (answer.remaining + length q ≡ 2)
        ⊎ (answer.allowed ≡ false)
          × (2 < n + 1)
          × (q ≡ prune 600 605 (5 ∷ 300 ∷ []))
          × (1 ≤ answer.retry_after))
is_allowed_queue_lem_run = is_allowed_queue_lem two_a_minute 1 605 (5 ∷ 300 ∷ []) (omega arith)

is_allowed_queue_retry_example :
    let (answer, q) = is_allowed_queue two_a_minute 1 605 (5 ∷ 300 ∷ []) in
    (is_allowed_queue two_a_minute 1 (605 + answer.retry_after * 10) q).0.allowed ≡ true
unfolding is_allowed_queue prune
is_allowed_queue_retry_example =
    is_allowed_queue_retry two_a_minute 605 (5 ∷ 300 ∷ []) (omega arith) (omega arith) (omega arith)
      refl

abbrev calls : List (ℕ × ℕ)
calls = (5, 1) ∷ (300, 1) ∷ (605, 1) ∷ (606, 1) ∷ []

admitted_bound_example : length (within 600 5 (admitted two_a_minute calls [] [])) ≤ 2
admitted_bound_example = admitted_bound two_a_minute calls (omega arith) 5

abbrev seen : Requests
seen = ("a", 5 ∷ []) ∷ ("b", 7 ∷ []) ∷ []

isolated_run :
    ((is_allowed two_a_minute "a" 1 9 seen).0
      ≡ (is_allowed_queue two_a_minute 1 9 (queue_of "a" seen)).0)
    × (queue_of "b" (is_allowed two_a_minute "a" 1 9 seen).1 ≡ (
        if str_eq "a" "b"
        then (is_allowed_queue two_a_minute 1 9 (queue_of "a" seen)).1
        else queue_of "b" seen))
isolated_run = is_allowed_isolated two_a_minute "a" "b" 1 9 seen
