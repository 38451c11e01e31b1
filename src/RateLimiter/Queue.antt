-- ===== src/RateLimiter/Queue.antt =====
-- One call of the limiter: the bound on the queue, the answer, and the time after which a
-- refused request is let through.
use sih.Prelude.{
  ℕ, zero, suc, ◌+◌, ◌-◌, ◌*◌, ◌≤◌, ◌<◌, ◌≡◌, refl, true, false, List, [], ◌∷◌, ◌++◌, length,
  length-append, arith, ltb, if◌then◌else◌, ◌⊎◌, inl, inr, Bool-cases, ◌/◌, max,
}
use native.Mathlib.Nat.{div-add-mod, mod-lt}
use sih.RateLimiter.{Settings, Answer, prune, append_times, oldest_or, is_allowed_queue}

pub length-prune : (w now : ℕ) (q : List ℕ) → length (prune w now q) ≤ length q
unfolding prune
length-prune w now [] = omega arith
length-prune w now (t ∷ q) = ground (arith, length-prune w now q)

pub length-append_times :
    (cost now : ℕ) (q : List ℕ) → length (append_times cost now q) ≡ length q + cost
unfolding append_times
length-append_times zero now q = omega arith
length-append_times (suc cost) now q =
    omega (arith, length-append_times cost now (q ++ now ∷ []), length-append q (now ∷ []))

-- After any call the queue holds at most `max_requests` times; an allowed call adds `cost` of
-- them and reports the room that is left, and a refused one adds none and names a wait.
pub is_allowed_queue_lem :
    (s : Settings) (cost now : ℕ) (queue : List ℕ)
    → length queue ≤ s.max_requests
    → let (answer, q) = is_allowed_queue s cost now queue in
      let n = length (prune s.window now queue) in
      (length q ≤ s.max_requests)
      × ((answer.allowed ≡ true)
            × (n + cost ≤ s.max_requests)
            × (length q ≡ n + cost)
            × (answer.remaining + length q ≡ s.max_requests)
          ⊎ (answer.allowed ≡ false)
            × (s.max_requests < n + cost)
            × (q ≡ prune s.window now queue)
            × (1 ≤ answer.retry_after))
unfolding is_allowed_queue
is_allowed_queue_lem s cost now queue h =
    let p = prune s.window now queue in
    elim (Bool-cases (ltb s.max_requests (length p + cost))) [
      | inl full ↦ rw full (
        omega (arith, length-prune s.window now queue),
        inr (refl, ground arith, refl, omega arith),
      )
      | inr room ↦ rw room (
        ground (arith, length-append_times cost now p),
        inl (
          refl,
          ground arith,
          length-append_times cost now p,
          ground (arith, length-append_times cost now p),
        ),
      )
    ]

-- The wait that a refusal names is long enough for the oldest time in the queue to leave it.
wait_passes : (now sec x : ℕ) → 0 < sec → now + x < now + max 1 (x / sec + 1) * sec
wait_passes now sec x h = grind (arith, div-add-mod x sec, mod-lt x {m = sec} h)

prune_drops : (w now t : ℕ) (q : List ℕ) → t + w < now → length (prune w now (t ∷ q)) ≤ length q
unfolding prune
prune_drops w now t q h = ground (arith, length-prune w now q)

-- A request of cost 1 that is refused is let through at the time that the refusal names, when
-- no other request of that client comes between: if the queue respects its bound, the bound is
-- not 0 and a second is not 0 ticks.
pub is_allowed_queue_retry :
    (s : Settings) (now : ℕ) (queue : List ℕ)
    → 0 < s.max_requests
    → 0 < s.second
    → length queue ≤ s.max_requests
    → (is_allowed_queue s 1 now queue).0.allowed ≡ false
    → let (answer, q) = is_allowed_queue s 1 now queue in
      (is_allowed_queue s 1 (now + answer.retry_after * s.second) q).0.allowed ≡ true
unfolding is_allowed_queue
is_allowed_queue_retry s now queue m sec h e =
    retry (prune s.window now queue) (length-prune s.window now queue) e
  where
    step : List ℕ → Answer × List ℕ
    step p =
        if ltb s.max_requests (length p + 1)
        then (
          record {
            allowed = false;
            remaining = 0;
            retry_after = max 1 ((oldest_or now p + s.window - now) / s.second + 1);
          },
          p,
        )
        else (
          record {
            allowed = true;
            remaining = s.max_requests - length (append_times 1 now p);
            retry_after = 0;
          },
          append_times 1 now p,
        )

    retry :
        (p : List ℕ)
        → length p ≤ length queue
        → (step p).0.allowed ≡ false
        → (is_allowed_queue s 1 (now + (step p).0.retry_after * s.second) (step p).1).0.allowed
          ≡ true
    retry [] l d = absurd (ground arith)
    retry (t ∷ p) l d =
        let later = now + max 1 ((t + s.window - now) / s.second + 1) * s.second in
        ground
          (arith, wait_passes now s.second (t + s.window - now) sec, prune_drops s.window later t p)
