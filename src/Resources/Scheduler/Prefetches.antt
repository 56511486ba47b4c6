-- ===== src/Resources/Scheduler/Prefetches.antt =====
-- How many slots of internal/services/resources/scheduler.go prefetches take over every interleaving.
use kubepeep.Base.{
  ℕ, zero, suc, ◌-◌, ◌≤◌, ◌≡◌, refl, min, max, Bool, true, false, List, [], ◌∷◌, ◌⊎◌, inl, inr,
  arith, if◌then◌else◌, map, Bool-cases,
}
use kubepeep.Resources.Scheduler.{
  RequestScheduler, RequestPriority, priority_visible, priority_likely_next, priority_unrelated,
  is_visible, SchedulerConfig, reserve, Entry, enter, admitted, leave_queue, release, observe,
}
use kubepeep.Resources.Scheduler.Limits.{prefetch_reserve}
use kubepeep.Resources.Scheduler.Requests.{
  Phase, arriving, entering, limiting, queued, holding, ended, Finds, advance, advance_at,
  after_enter, Event, moves, observes, System, step, run,
}
use kubepeep.Resources.Scheduler.Wakeups.{
  start, total, holds_slot, IsSafe, step-IsSafe, start-IsSafe,
}

-- The slots that requests of some priorities hold.
abbrev pub taken : (RequestPriority → Bool) → Phase → ℕ
taken picks (limiting p) = if picks p then 1 else 0
taken picks (holding p) = if picks p then 1 else 0
taken picks _ = 0

abbrev pub is_prefetch : RequestPriority → Bool
is_prefetch priority_visible = false
is_prefetch _ = true

abbrev pub is_unrelated : RequestPriority → Bool
is_unrelated priority_unrelated = true
is_unrelated _ = false

total-taken :
    (picks : RequestPriority → Bool) (ps : List Phase)
    → total (taken picks) ps ≤ total holds_slot ps
total-taken picks [] = omega arith
total-taken picks (p ∷ ps) = let rest = total-taken picks ps in ground arith

-- The slots that are left when `n` are reserved, but always one.
abbrev pub unreserved : ℕ → ℕ → ℕ
unreserved n limit = max (limit - n) 1

-- The priorities that are picked are prefetches, and keep as many slots free.
Reserves : (RequestPriority → Bool) → ℕ → Type 0
Reserves picks n =
    (p : RequestPriority) (s : RequestScheduler)
    → picks p ≡ true
    → (is_visible p ≡ false) × (min n (s.limit - 1) ≤ reserve p s)

-- After a move, no more slots are taken, or those that are leave the reserve free.
IsReserved : (RequestPriority → Bool) → ℕ → RequestScheduler × ℕ → RequestScheduler × ℕ → Type 0
IsReserved picks n (s, before) (t, after) =
    (t.maximum ≡ s.maximum) × ((after ≤ before) ⊎ (t.active ≤ unreserved n t.limit))

module _ (picks : RequestPriority → Bool) (n : ℕ) (reserves : Reserves picks n) where
  enter-limit :
      (p : RequestPriority) (now : ℕ) (s : RequestScheduler)
      → ((enter p now s).0.limit ≡ s.limit) × ((enter p now s).0.maximum ≡ s.maximum)
  unfolding enter
  enter-limit p now s = ground arith

  enter-reserved :
      (p : RequestPriority) (now : ℕ) (s : RequestScheduler)
      → picks p ≡ true
      → (enter p now s).1 ≡ admitted
      → (enter p now s).0.active ≤ unreserved n (enter p now s).0.limit
  unfolding Reserves
  enter-reserved p now s q e =
      let r = reserves p s q in
      let kept = prefetch_reserve p now s r.0 e in ground (arith, r, kept, enter-limit p now s)

  entered-IsReserved :
      (p : RequestPriority) (s : RequestScheduler) (out : RequestScheduler × Entry)
      → out.0.maximum ≡ s.maximum
      → (picks p ≡ true → out.1 ≡ admitted → out.0.active ≤ unreserved n out.0.limit)
      → IsReserved picks n (s, 0) ((after_enter p out).0, taken picks (after_enter p out).1)
  unfolding IsReserved
  entered-IsReserved p s (t, Entry.deferred) m h = (m, inl (omega arith))
  entered-IsReserved p s (t, Entry.admitted) m h = elim (Bool-cases (picks p)) [
    | inl q ↦ (m, inr (h q refl))
    | inr q ↦ (m, inl (ground (arith, q)))
  ]
  entered-IsReserved p s (t, Entry.queued c) m h = (m, inl (omega arith))

  advance-IsReserved :
      (f : Finds) (s : RequestScheduler) (p : Phase)
      → IsReserved picks n (s, taken picks p) ((advance f s p).0, taken picks (advance f s p).1)
  unfolding advance leave_queue release IsReserved
  advance-IsReserved f s (arriving p) = ground arith
  advance-IsReserved f s (entering p) =
      entered-IsReserved p s (enter p f.now s) (enter-limit p f.now s).1 (enter-reserved p f.now s)
  advance-IsReserved f s (limiting p) = ground arith
  advance-IsReserved f s (queued c) = ground arith
  advance-IsReserved f s (holding p) = ground arith
  advance-IsReserved f s (ended o) = ground arith

  advance_at-IsReserved :
      (i : ℕ) (f : Finds) (s : RequestScheduler) (ps : List Phase)
      → IsReserved picks n
          (s, total (taken picks) ps)
          ((advance_at i f s ps).0, total (taken picks) (advance_at i f s ps).1)
  unfolding advance_at IsReserved
  advance_at-IsReserved i f s [] = (refl, inl (omega arith))
  advance_at-IsReserved zero f s (p ∷ ps) =
      let one = advance-IsReserved f s p in ground (arith, one)
  advance_at-IsReserved (suc i) f s (p ∷ ps) =
      let rest = advance_at-IsReserved i f s ps in ground (arith, rest)

  observe-maximum :
      (latency : ℕ) (throttled timed_out : Bool) (now : ℕ) (s : RequestScheduler)
      → (observe latency throttled timed_out now s).maximum ≡ s.maximum
  unfolding observe
  observe-maximum latency throttled timed_out now s = ground arith

  IsWithin : System → Type 0
  IsWithin y = total (taken picks) y.requests ≤ unreserved n y.scheduler.maximum

  step-IsWithin : (y : System) (e : Event) → IsSafe (step y e) → IsWithin y → IsWithin (step y e)
  unfolding step IsWithin IsReserved
  step-IsWithin y (moves i f) v h =
      let moved = advance_at-IsReserved i f y.scheduler y.requests in
      let slots = v.sound.counted.slots in
      let below = v.bounded.below in
      let some_of = total-taken picks (advance_at i f y.scheduler y.requests).1 in
      ground (arith, moved, slots, below, some_of)
  step-IsWithin y (observes latency throttled timed_out now) v h =
      ground (arith, observe-maximum latency throttled timed_out now y.scheduler)

  run-IsWithin : (y : System) (es : List Event) → IsSafe y → IsWithin y → IsWithin (run y es)
  unfolding run
  run-IsWithin y [] v h = h
  run-IsWithin y (e ∷ es) v h =
      let safe = step-IsSafe y e v in run-IsWithin (step y e) es safe (step-IsWithin y e safe h)

  none_taken : (ps : List RequestPriority) → total (taken picks) (map arriving ps) ≡ 0
  none_taken [] = refl
  none_taken (p ∷ ps) = omega (arith, none_taken ps)

  start-IsWithin :
      (c : SchedulerConfig) (ps : List RequestPriority) (es : List Event)
      → IsWithin (run (start c ps) es)
  unfolding IsWithin start
  start-IsWithin c ps es =
      run-IsWithin (start c ps) es (start-IsSafe c ps) (omega (arith, none_taken ps))

prefetch-Reserves : Reserves is_prefetch 2
unfolding Reserves reserve
prefetch-Reserves priority_visible s h = cc
prefetch-Reserves priority_likely_next s h = (refl, omega arith)
prefetch-Reserves priority_unrelated s h = (refl, omega arith)

unrelated-Reserves : Reserves is_unrelated 4
unfolding Reserves reserve
unrelated-Reserves priority_visible s h = cc
unrelated-Reserves priority_likely_next s h = cc
unrelated-Reserves priority_unrelated s h = (refl, omega arith)

-- Whatever the schedule and the tuning of the limit, prefetches leave two slots of the maximum to visible
-- requests, and unrelated prefetches leave four, except that one slot may be taken under any maximum.
pub run_prefetches :
    (c : SchedulerConfig) (ps : List RequestPriority) (es : List Event)
    → let y = run (start c ps) es in
      (total (taken is_prefetch) y.requests ≤ max (y.scheduler.maximum - 2) 1)
      × (total (taken is_unrelated) y.requests ≤ max (y.scheduler.maximum - 4) 1)
unfolding IsWithin
run_prefetches c ps es = (
  start-IsWithin is_prefetch 2 prefetch-Reserves c ps es,
  start-IsWithin is_unrelated 4 unrelated-Reserves c ps es,
)
