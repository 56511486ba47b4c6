-- ===== src/Resources/Scheduler/Wakeups.antt =====
-- Slots and wake-ups of internal/services/resources/scheduler.go over every interleaving.
use kubepeep.Base.{ℕ, zero, suc, ◌+◌, ◌≤◌, ◌<◌, ◌≡◌, refl, Bool, List, [], ◌∷◌, map, All, arith}
use kubepeep.Resources.Scheduler.{
  RequestScheduler, RequestPriority, SchedulerConfig, new_request_scheduler_with_config, enter,
  leave_queue, release, observe,
}
use kubepeep.Resources.Scheduler.Limits.{
  IsBounded, new-IsBounded, enter-IsBounded, release-IsBounded, leave_queue-IsBounded,
  observe-IsBounded,
}
use kubepeep.Resources.Scheduler.Requests.{
  Phase, arriving, entering, limiting, queued, holding, ended, Finds, advance, advance_at, Event,
  moves, observes, System, step, run,
}

abbrev pub holds_slot : Phase → ℕ
holds_slot (limiting p) = 1
holds_slot (holding p) = 1
holds_slot _ = 0

abbrev pub is_queued : Phase → ℕ
is_queued (queued c) = 1
is_queued _ = 0

abbrev pub total : (Phase → ℕ) → List Phase → ℕ
total f [] = 0
total f (p ∷ ps) = f p + total f ps

-- A queued request has read a channel made by now; if nobody has closed it, no slot is free.
abbrev pub IsServed : RequestScheduler → Phase → Type 0
IsServed s (queued c) = (c ≤ s.changed) × (c ≡ s.changed → s.limit ≤ s.active)
IsServed s _ = Unit {0}

-- Of the slots and waiters counted, `a` and `w` belong to requests that are not in the list.
pub record IsCounted (a w : ℕ) (s : RequestScheduler) (ps : List Phase) : Type 0 where
  pub slots : s.active ≡ a + total holds_slot ps
  pub waiters : s.visible_waiting ≡ w + total is_queued ps

advance-counts :
    (f : Finds) (s : RequestScheduler) (p : Phase) (a w : ℕ)
    → s.active ≡ a + holds_slot p
    → s.visible_waiting ≡ w + is_queued p
    → let (t, q) = advance f s p in
      (t.active ≡ a + holds_slot q) × (t.visible_waiting ≡ w + is_queued q)
unfolding advance enter leave_queue release
advance-counts f s (arriving p) a w ha hw = ground arith
advance-counts f s (entering p) a w ha hw = ground arith
advance-counts f s (limiting p) a w ha hw = ground arith
advance-counts f s (queued c) a w ha hw = ground arith
advance-counts f s (holding p) a w ha hw = ground arith
advance-counts f s (ended o) a w ha hw = ground arith

advance-IsServed :
    (f : Finds) (s : RequestScheduler) (p : Phase)
    → IsServed s p
    → IsServed (advance f s p).0 (advance f s p).1
unfolding advance enter leave_queue release
advance-IsServed f s (arriving p) h = ground arith
advance-IsServed f s (entering p) h = ground arith
advance-IsServed f s (limiting p) h = ground arith
advance-IsServed f s (queued c) h = ground arith
advance-IsServed f s (holding p) h = tt
advance-IsServed f s (ended o) h = tt

-- A move of one request keeps the others served.
abbrev Keeps : RequestScheduler → RequestScheduler → Type 0
Keeps s t =
    (s.changed ≤ t.changed) × (s.changed ≡ t.changed → s.limit ≤ s.active → t.limit ≤ t.active)

Keeps-IsServed : (s t : RequestScheduler) (p : Phase) → Keeps s t → IsServed s p → IsServed t p
Keeps-IsServed s t (queued c) k h = ground arith
Keeps-IsServed s t p k h = tt

advance-Keeps : (f : Finds) (s : RequestScheduler) (p : Phase) → Keeps s (advance f s p).0
unfolding advance enter leave_queue release
advance-Keeps f s (arriving p) = ground arith
advance-Keeps f s (entering p) = ground arith
advance-Keeps f s (limiting p) = ground arith
advance-Keeps f s (queued c) = ground arith
advance-Keeps f s (holding p) = ground arith
advance-Keeps f s (ended o) = ground arith

observe-Keeps :
    (latency : ℕ) (throttled timed_out : Bool) (now : ℕ) (s : RequestScheduler)
    → Keeps s (observe latency throttled timed_out now s)
unfolding observe
observe-Keeps latency throttled timed_out now s = ground arith

All-Keeps :
    (s t : RequestScheduler) (ps : List Phase)
    → Keeps s t
    → All (IsServed s) ps
    → All (IsServed t) ps
All-Keeps s t [] k h = tt
All-Keeps s t (p ∷ ps) k h = (Keeps-IsServed s t p k h.0, All-Keeps s t ps k h.1)

-- What holds of the scheduler and of a part of its requests.
pub record IsSound (a w : ℕ) (s : RequestScheduler) (ps : List Phase) : Type 0 where
  pub counted : IsCounted a w s ps
  pub served : All (IsServed s) ps

advance_at-Keeps :
    (i : ℕ) (f : Finds) (s : RequestScheduler) (ps : List Phase) → Keeps s (advance_at i f s ps).0
unfolding advance_at
advance_at-Keeps i f s [] = ground arith
advance_at-Keeps zero f s (p ∷ ps) = advance-Keeps f s p
advance_at-Keeps (suc i) f s (p ∷ ps) = advance_at-Keeps i f s ps

advance_at-IsSound :
    (i : ℕ) (f : Finds) (a w : ℕ) (s : RequestScheduler) (ps : List Phase)
    → IsSound a w s ps
    → IsSound a w (advance_at i f s ps).0 (advance_at i f s ps).1
unfolding advance_at
advance_at-IsSound i f a w s [] h = h
advance_at-IsSound zero f a w s (p ∷ ps) h =
    let moved =
      advance-counts f s p (a + total holds_slot ps) (w + total is_queued ps) (omega arith)
        (omega arith) in
    record {
      counted = record { slots = omega (arith, moved.0); waiters = omega (arith, moved.1) };
      served = (
        advance-IsServed f s p h.served.0,
        All-Keeps s (advance f s p).0 ps (advance-Keeps f s p) h.served.1,
      );
    }
advance_at-IsSound (suc i) f a w s (p ∷ ps) h =
    let rest = advance_at-IsSound i f (a + holds_slot p) (w + is_queued p) s ps (record {
      counted = record { slots = omega arith; waiters = omega arith };
      served = h.served.1;
    }) in
    record {
      counted = record {
        slots = omega (arith, rest.counted.slots);
        waiters = omega (arith, rest.counted.waiters);
      };
      served = (
        Keeps-IsServed s (advance_at i f s ps).0 p (advance_at-Keeps i f s ps) h.served.0,
        rest.served,
      );
    }

advance-IsBounded :
    (f : Finds) (s : RequestScheduler) (p : Phase) → IsBounded s → IsBounded (advance f s p).0
unfolding advance
advance-IsBounded f s (arriving p) b = b
advance-IsBounded f s (entering p) b = ground (arith, enter-IsBounded p f.now s)
advance-IsBounded f s (limiting p) b = ground (arith, release-IsBounded s)
advance-IsBounded f s (queued c) b = ground (arith, leave_queue-IsBounded s)
advance-IsBounded f s (holding p) b = release-IsBounded s b
advance-IsBounded f s (ended o) b = b

observe-IsCounted :
    (latency : ℕ) (throttled timed_out : Bool) (now : ℕ) (y : System)
    → IsCounted 0 0 y.scheduler y.requests
    → IsCounted 0 0 (observe latency throttled timed_out now y.scheduler) y.requests
unfolding observe
observe-IsCounted latency throttled timed_out now y v = ground arith

advance_at-IsBounded :
    (i : ℕ) (f : Finds) (s : RequestScheduler) (ps : List Phase)
    → IsBounded s
    → IsBounded (advance_at i f s ps).0
unfolding advance_at
advance_at-IsBounded i f s [] b = b
advance_at-IsBounded zero f s (p ∷ ps) b = advance-IsBounded f s p b
advance_at-IsBounded (suc i) f s (p ∷ ps) b = advance_at-IsBounded i f s ps b

pub record IsSafe (y : System) : Type 0 where
  pub bounded : IsBounded y.scheduler
  pub sound : IsSound 0 0 y.scheduler y.requests

pub step-IsSafe : (y : System) (e : Event) → IsSafe y → IsSafe (step y e)
unfolding step
step-IsSafe y (moves i f) v = record {
  bounded = advance_at-IsBounded i f y.scheduler y.requests v.bounded;
  sound = advance_at-IsSound i f 0 0 y.scheduler y.requests v.sound;
}
step-IsSafe y (observes latency throttled timed_out now) v = record {
  bounded = observe-IsBounded latency throttled timed_out now y.scheduler v.bounded;
  sound = record {
    counted = observe-IsCounted latency throttled timed_out now y v.sound.counted;
    served =
        All-Keeps y.scheduler (observe latency throttled timed_out now y.scheduler) y.requests
          (observe-Keeps latency throttled timed_out now y.scheduler) v.sound.served;
  };
}

run-IsSafe : (y : System) (es : List Event) → IsSafe y → IsSafe (run y es)
unfolding run
run-IsSafe y [] v = v
run-IsSafe y (e ∷ es) v = run-IsSafe (step y e) es (step-IsSafe y e v)

-- A new scheduler, and requests that are about to call `Acquire`.
unfoldable pub start : SchedulerConfig → List RequestPriority → System
start c ps = record { scheduler = new_request_scheduler_with_config c; requests = map arriving ps }

arrivals-IsSound :
    (s : RequestScheduler) (ps : List RequestPriority)
    → s.active ≡ 0
    → s.visible_waiting ≡ 0
    → IsSound 0 0 s (map arriving ps)
arrivals-IsSound s [] a w = record { counted = record { slots = a; waiters = w }; served = tt }
arrivals-IsSound s (p ∷ ps) a w =
    let rest = arrivals-IsSound s ps a w in
    record {
      counted = record {
        slots = omega (arith, rest.counted.slots);
        waiters = omega (arith, rest.counted.waiters);
      };
      served = (tt, rest.served);
    }

pub start-IsSafe : (c : SchedulerConfig) (ps : List RequestPriority) → IsSafe (start c ps)
unfolding start new_request_scheduler_with_config
start-IsSafe c ps = record {
  bounded = new-IsBounded c;
  sound = arrivals-IsSound (new_request_scheduler_with_config c) ps refl refl;
}

-- Whatever the schedule, `active` counts the requests that have taken a slot and not given it back,
-- and there are never more of them than the maximum; `visible_waiting` counts those in the queue.
pub run_slots :
    (c : SchedulerConfig) (ps : List RequestPriority) (es : List Event)
    → let y = run (start c ps) es in
      (y.scheduler.active ≡ total holds_slot y.requests)
      × (total holds_slot y.requests ≤ y.scheduler.maximum)
      × (y.scheduler.visible_waiting ≡ total is_queued y.requests)
run_slots c ps es =
    let v = run-IsSafe (start c ps) es (start-IsSafe c ps) in
    omega (arith, v.bounded, v.sound.counted)

-- A queued request whose channel has been closed: its next move leaves the queue.
abbrev pub IsWoken : RequestScheduler → Phase → Type 0
IsWoken s (queued c) = c < s.changed
IsWoken s _ = Unit {0}

IsServed-IsWoken :
    (s : RequestScheduler) (ps : List Phase)
    → s.active < s.limit
    → All (IsServed s) ps
    → All (IsWoken s) ps
IsServed-IsWoken s [] free h = tt
IsServed-IsWoken s (queued c ∷ ps) free h = (ground arith, IsServed-IsWoken s ps free h.1)
IsServed-IsWoken s (p ∷ ps) free h = (tt, IsServed-IsWoken s ps free h.1)

-- No wake-up is lost: whatever the schedule, while a slot is free every queued request has been
-- woken.
pub run_wakes :
    (c : SchedulerConfig) (ps : List RequestPriority) (es : List Event)
    → let y = run (start c ps) es in
      total holds_slot y.requests < y.scheduler.limit → All (IsWoken y.scheduler) y.requests
run_wakes c ps es free =
    let v = run-IsSafe (start c ps) es (start-IsSafe c ps) in
    IsServed-IsWoken (run (start c ps) es).scheduler (run (start c ps) es).requests
      (omega (arith, v.sound.counted)) v.sound.served
