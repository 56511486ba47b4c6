-- ===== src/Resources/Scheduler/Requests.antt =====
-- The requests that share one scheduler: each runs `Acquire` of
-- internal/services/resources/scheduler.go and then its release function once. A schedule lists which
-- request moves next, and what it then finds outside the scheduler.
use kubepeep.Base.{ℕ, zero, suc, Bool, List, [], ◌∷◌, ltb, if◌then◌else◌}
use kubepeep.Resources.Scheduler.{
  RequestScheduler, RequestPriority, priority_visible, Entry, enter, leave_queue, release, observe,
}

pub data Outcome : Type 0 where
  context_error prefetch_deferred limiter_error released : Outcome

-- Where a request stands between two critical sections. One that is `queued` holds the channel that
-- it read; `limiting` waits for the rate limiter with its slot taken, and a request is `holding` its
-- slot until it calls the release function.
pub data Phase : Type 0 where
  arriving entering limiting holding : RequestPriority → Phase
  queued : ℕ → Phase
  ended : Outcome → Phase

-- What the request finds: the time, whether its context is done, whether `limiter.Wait` fails.
pub record Finds : Type 0 where
  pub now : ℕ
  pub context_done : Bool
  pub limiter_fails : Bool

abbrev pub after_enter : RequestPriority → RequestScheduler × Entry → RequestScheduler × Phase
after_enter p (s, Entry.deferred) = (s, ended prefetch_deferred)
after_enter p (s, Entry.admitted) = (s, limiting p)
after_enter p (s, Entry.queued c) = (s, queued c)

unfoldable pub advance : Finds → RequestScheduler → Phase → RequestScheduler × Phase
advance f s (arriving p) = (s, if f.context_done then ended context_error else entering p)
advance f s (entering p) = after_enter p (enter p f.now s)
advance f s (limiting p) =
    if f.limiter_fails then (release s, ended limiter_error) else (s, holding p)
advance f s (queued c) =
    if f.context_done
    then (leave_queue s, ended context_error)
    else if ltb c s.changed
    then (leave_queue s, entering priority_visible)
    else (s, queued c)
advance f s (holding p) = (release s, ended released)
advance f s (ended o) = (s, ended o)

unfoldable pub advance_at :
    ℕ → Finds → RequestScheduler → List Phase → RequestScheduler × List Phase
advance_at i f s [] = (s, [])
advance_at zero f s (p ∷ ps) = let (s', p') = advance f s p in (s', p' ∷ ps)
advance_at (suc i) f s (p ∷ ps) = let (s', ps') = advance_at i f s ps in (s', p ∷ ps')

-- A move of the request at an index, or an observation by whoever finished one.
pub data Event : Type 0 where
  moves : ℕ → Finds → Event
  observes : ℕ → Bool → Bool → ℕ → Event

pub record System : Type 0 where
  pub scheduler : RequestScheduler
  pub requests : List Phase

unfoldable pub step : System → Event → System
step y (moves i f) =
    let (s, ps) = advance_at i f y.scheduler y.requests in record { scheduler = s; requests = ps }
step y (observes latency throttled timed_out now) = record y {
  scheduler = observe latency throttled timed_out now y.scheduler;
}

unfoldable pub run : System → List Event → System
unfolding step advance_at advance
run y [] = y
run y (e ∷ es) = run (step y e) es
