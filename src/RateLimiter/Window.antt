-- ===== src/RateLimiter/Window.antt =====
-- A run of calls of one client: in any stretch of time as long as the window, at most
-- `max_requests` requests are let through.
use sih.Prelude.{
  ℕ, zero, suc, ◌+◌, ◌≤◌, ◌≡◌, refl, ap, sym, ◌∙◌, Bool, true, false, ◌&&◌, List, [], ◌∷◌, ◌++◌,
  length, arith, ltb, leb, if◌then◌else◌, inl, inr, Bool-cases, All, All-append, append-nil, keep,
  String,
}
use sih.Prelude.Keep.{All-keep, keep-append, length-keep_mono, All-map}
use sih.Prelude.Text.{str_eq, eq_iff}
use sih.RateLimiter.{
  Settings, prune, append_times, is_allowed_queue, Requests, queue_of, set_queue, is_allowed,
}
use sih.RateLimiter.Queue.{length-append_times}

-- The calls of one client: the time and the cost of each. The result is the times of the
-- requests that were let through, each as often as its cost.
unfoldable pub admitted : Settings → List (ℕ × ℕ) → List ℕ → List ℕ → List ℕ
unfolding is_allowed_queue append_times
admitted s [] q done = done
admitted s ((now, cost) ∷ calls) q done =
    let (answer, q') = is_allowed_queue s cost now q in
    admitted s calls q' (if answer.allowed then append_times cost now done else done)

-- The clock does not run backwards.
abbrev pub InOrder : ℕ → List (ℕ × ℕ) → Type 0
InOrder t [] = Unit
InOrder t ((now, cost) ∷ calls) = (t ≤ now) × InOrder now calls

abbrev IsSorted : List ℕ → Type 0
IsSorted [] = Unit
IsSorted (t ∷ q) = All (λ u. t ≤ u) q × IsSorted q

-- The times of a list from `u` to `u + w`, both ends included.
abbrev pub within : ℕ → ℕ → List ℕ → List ℕ
within w u = keep (λ t. leb u t && leb t (u + w))

-- The times that are not older than the window.
abbrev fresh : ℕ → ℕ → List ℕ → List ℕ
fresh w now = keep (λ t. leb now (t + w))

fresh-All : (w now : ℕ) (q : List ℕ) → All (λ t. now ≤ t + w) q → fresh w now q ≡ q
fresh-All w now [] a = refl
fresh-All w now (t ∷ q) (h, a) = ground (arith, fresh-All w now q a)

-- On a sorted queue, dropping from the front drops all the old times.
prune-eq-fresh : (w now : ℕ) (q : List ℕ) → IsSorted q → prune w now q ≡ fresh w now q
unfolding prune
prune-eq-fresh w now [] s = refl
prune-eq-fresh w now (t ∷ q) (h, s) = elim (Bool-cases (ltb (t + w) now)) [
  | inl old ↦ ground (arith, prune-eq-fresh w now q s)
  | inr young ↦ ground (
    arith,
    fresh-All w now q (All-map (λ u. t ≤ u) (λ u. now ≤ u + w) (λ u le. ground arith) q h),
  )
]

IsSorted-keep : (p : ℕ → Bool) (q : List ℕ) → IsSorted q → IsSorted (keep p q)
IsSorted-keep p [] s = tt
IsSorted-keep p (t ∷ q) (h, s) = elim (Bool-cases (p t)) [
  | inl e ↦ rw e (All-keep (λ u. t ≤ u) p q h, IsSorted-keep p q s)
  | inr e ↦ rw e (IsSorted-keep p q s)
]

fresh-fresh :
    (w now later : ℕ) (q : List ℕ) → now ≤ later → fresh w later (fresh w now q) ≡ fresh w later q
fresh-fresh w now later [] h = refl
fresh-fresh w now later (t ∷ q) h = ground (arith, fresh-fresh w now later q h)

IsSorted-append_now :
    (now : ℕ) (q : List ℕ) → IsSorted q → All (λ t. t ≤ now) q → IsSorted (q ++ now ∷ [])
IsSorted-append_now now [] s a = (tt, tt)
IsSorted-append_now now (t ∷ q) (h, s) (le, a) =
    (All-append (λ u. t ≤ u) q (now ∷ []) h (le, tt), IsSorted-append_now now q s a)

-- What the queue has to do with the requests let through before: it holds those that are not
-- older than the window at the time `now` of the last call.
record IsWindow (s : Settings) (now : ℕ) (q done : List ℕ) : Type 0 where
  sorted : IsSorted done
  past : All (λ t. t ≤ now) done
  queue : q ≡ fresh s.window now done
  bound : (u : ℕ) → length (within s.window u done) ≤ s.max_requests

append_times-IsSorted :
    (cost now : ℕ) (q : List ℕ)
    → IsSorted q
    → All (λ t. t ≤ now) q
    → IsSorted (append_times cost now q) × All (λ t. t ≤ now) (append_times cost now q)
unfolding append_times
append_times-IsSorted zero now q s a = (s, a)
append_times-IsSorted (suc cost) now q s a =
    append_times-IsSorted cost now (q ++ now ∷ []) (IsSorted-append_now now q s a)
      (All-append (λ t. t ≤ now) q (now ∷ []) a (omega arith))

keep-append_times :
    (p : ℕ → Bool) (cost now : ℕ) (q : List ℕ)
    → keep p (append_times cost now q)
      ≡ (if p now then append_times cost now (keep p q) else keep p q)
unfolding append_times
keep-append_times p zero now q = ground arith
keep-append_times p (suc cost) now q = ground (
  arith,
  keep-append_times p cost now (q ++ now ∷ []),
  keep-append p q (now ∷ []),
  append-nil (keep p q),
)

-- The bound of the window holds after a call that is let through.
window_append :
    (w m cost now : ℕ) (done : List ℕ)
    → length (fresh w now done) + cost ≤ m
    → ((u : ℕ) → length (within w u done) ≤ m)
    → (u : ℕ) → length (within w u (append_times cost now done)) ≤ m
window_append w m cost now done room bound u =
    let inside = λ (t : ℕ). leb u t && leb t (u + w) in
    elim (Bool-cases (inside now)) [
      | inl e ↦ rw (keep-append_times inside cost now done) (
          rw e (
            ground (
              arith,
              length-append_times cost now (keep inside done),
              length-keep_mono inside (λ t. leb now (t + w)) done (λ t. still_fresh t e),
            )))
      | inr e ↦ rw (keep-append_times inside cost now done) (rw e (bound u))
    ]
  where
    still_fresh :
        (t : ℕ)
        → (leb u now && leb now (u + w)) ≡ true
        → (leb u t && leb t (u + w)) ≡ true
        → leb now (t + w) ≡ true
    still_fresh t e = ground arith

-- One call of the limiter keeps the relation of queue and history.
is_allowed_queue-IsWindow :
    (s : Settings) (before cost now : ℕ) (q done : List ℕ)
    → before ≤ now
    → IsWindow s before q done
    → let (answer, q') = is_allowed_queue s cost now q in
      IsWindow s now q' (if answer.allowed then append_times cost now done else done)
unfolding is_allowed_queue
is_allowed_queue-IsWindow s before cost now q done le v =
    elim (Bool-cases (ltb s.max_requests (length p + cost))) [
      | inl full ↦
          rw full (record { sorted = v.sorted; past = past; queue = pruned; bound = v.bound })
      | inr room ↦ rw room (record {
        sorted = (append_times-IsSorted cost now done v.sorted past).0;
        past = (append_times-IsSorted cost now done v.sorted past).1;
        queue = joined;
        bound = window_append s.window s.max_requests cost now done (fits room) v.bound;
      })
    ]
  where
    p : List ℕ
    p = prune s.window now q

    past : All (λ t. t ≤ now) done
    past = All-map (λ t. t ≤ before) (λ t. t ≤ now) (λ t h. omega arith) done v.past

    sorted_queue : IsSorted q
    sorted_queue = rw v.queue (IsSorted-keep (λ t. leb before (t + s.window)) done v.sorted)

    pruned : p ≡ fresh s.window now done
    pruned =
        prune-eq-fresh s.window now q sorted_queue
        ∙ ap (fresh s.window now) v.queue
        ∙ fresh-fresh s.window before now done le

    now_fresh : leb now (now + s.window) ≡ true
    now_fresh = ground arith

    joined : append_times cost now p ≡ fresh s.window now (append_times cost now done)
    joined =
        ap (append_times cost now) pruned
        ∙ sym (keep-append_times (λ t. leb now (t + s.window)) cost now done ∙ rw now_fresh)

    fits :
        ltb s.max_requests (length p + cost) ≡ false
        → length (fresh s.window now done) + cost ≤ s.max_requests
    fits room = ground (arith, ap length pruned)

admitted-IsWindow :
    (s : Settings) (before : ℕ) (calls : List (ℕ × ℕ)) (q done : List ℕ)
    → InOrder before calls
    → IsWindow s before q done
    → (u : ℕ) → length (within s.window u (admitted s calls q done)) ≤ s.max_requests
unfolding admitted
admitted-IsWindow s before [] q done o v u = v.bound u
admitted-IsWindow s before ((now, cost) ∷ calls) q done (le, o) v u =
    let (answer, q') = is_allowed_queue s cost now q in
    admitted-IsWindow s now calls q' (if answer.allowed then append_times cost now done else done) o
      (is_allowed_queue-IsWindow s before cost now q done le v) u

-- Whatever the calls of one client, in order of time and from an empty queue: of the requests
-- that are let through, at most `max_requests` (by cost) fall into any stretch of time from `u`
-- to `u + window`.
pub admitted_bound :
    (s : Settings) (calls : List (ℕ × ℕ))
    → InOrder 0 calls
    → (u : ℕ) → length (within s.window u (admitted s calls [] [])) ≤ s.max_requests
admitted_bound s calls o =
    admitted-IsWindow s 0 calls [] [] o
      (record { sorted = tt; past = tt; queue = refl; bound = λ u. omega arith })

queue_of-set_queue :
    (j k : String) (q : List ℕ) (r : Requests)
    → queue_of j (set_queue k q r) ≡ (if str_eq k j then q else queue_of j r)
unfolding queue_of set_queue
queue_of-set_queue j k q [] = refl
queue_of-set_queue j k q ((i, old) ∷ r) =
    ground (arith, eq_iff i k, eq_iff i j, eq_iff k j, queue_of-set_queue j k q r)

-- A call for one client decides by that client's queue alone, replaces that queue, and leaves
-- the queue of every other client as it was.
pub is_allowed_isolated :
    (s : Settings) (k j : String) (cost now : ℕ) (r : Requests)
    → ((is_allowed s k cost now r).0 ≡ (is_allowed_queue s cost now (queue_of k r)).0)
      × (queue_of j (is_allowed s k cost now r).1
          ≡ (if str_eq k j then (is_allowed_queue s cost now (queue_of k r)).1 else queue_of j r))
unfolding is_allowed
is_allowed_isolated s k j cost now r =
    (refl, queue_of-set_queue j k (is_allowed_queue s cost now (queue_of k r)).1 r)
