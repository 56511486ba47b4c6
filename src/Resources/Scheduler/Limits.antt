-- ===== src/Resources/Scheduler/Limits.antt =====
-- The limits of internal/services/resources/scheduler.go: how far the AIMD tuning moves the limit,
-- and which slots a prefetch may take.
use kubepeep.Base.{ℕ, ◌+◌, ◌/◌, ◌≤◌, ◌<◌, ◌≡◌, min, max, Bool, true, false, ◌||◌, arith}
use kubepeep.Resources.Scheduler.{
  SchedulerConfig, RequestScheduler, RequestPriority, is_visible, seconds,
  new_request_scheduler_with_config, reserve, enter, admitted, release, leave_queue, observe, Entry,
}

-- The limit stays between a positive minimum and the maximum, and no more slots are taken than the
-- maximum.
pub record IsBounded (s : RequestScheduler) : Type 0 where
  pub positive : 0 < s.minimum
  pub above : s.minimum ≤ s.limit
  pub below : s.limit ≤ s.maximum
  pub slots : s.active ≤ s.maximum

pub new-IsBounded : (c : SchedulerConfig) → IsBounded (new_request_scheduler_with_config c)
unfolding new_request_scheduler_with_config
new-IsBounded c = ground arith

pub enter-IsBounded :
    (p : RequestPriority) (now : ℕ) (s : RequestScheduler)
    → IsBounded s
    → IsBounded (enter p now s).0
unfolding enter
enter-IsBounded p now s b = ground arith

pub release-IsBounded : (s : RequestScheduler) → IsBounded s → IsBounded (release s)
unfolding release
release-IsBounded s b = ground arith

pub leave_queue-IsBounded : (s : RequestScheduler) → IsBounded s → IsBounded (leave_queue s)
unfolding leave_queue
leave_queue-IsBounded s b = ground arith

pub observe-IsBounded :
    (latency : ℕ) (throttled timed_out : Bool) (now : ℕ) (s : RequestScheduler)
    → IsBounded s
    → IsBounded (observe latency throttled timed_out now s)
unfolding observe
observe-IsBounded latency throttled timed_out now s b = ground arith

-- An admitted prefetch leaves the reserved slots free, passes no waiting visible request, and is not
-- paused.
pub prefetch_reserve :
    (p : RequestPriority) (now : ℕ) (s : RequestScheduler)
    → is_visible p ≡ false
    → (enter p now s).1 ≡ admitted
    → ((enter p now s).0.active + reserve p s ≤ s.limit)
      × (0 < reserve p s)
      × (s.visible_waiting ≡ 0)
      × (s.prefetch_pause_until ≤ now)
unfolding enter reserve
prefetch_reserve p now s v e = ground arith

-- For fifteen seconds after a throttled or timed-out request, whatever else is observed, no prefetch
-- is admitted.
observe-enter_paused :
    (latency : ℕ) (throttled timed_out : Bool) (now later : ℕ) (p : RequestPriority)
    (s : RequestScheduler)
    → (throttled || timed_out) ≡ true
    → is_visible p ≡ false
    → later < now + seconds 15
    → (enter p later (observe latency throttled timed_out now s)).1 ≡ Entry.deferred
unfolding observe enter
observe-enter_paused latency throttled timed_out now later p s pressed v early = ground arith

-- The tuning adds one slot at most, takes none away unless a request was throttled or timed out, and
-- then halves the limit at most, down to the minimum; it is off unless `adaptive` is set.
observe_limit :
    (latency : ℕ) (throttled timed_out : Bool) (now : ℕ) (s : RequestScheduler)
    → let t = observe latency throttled timed_out now s in
      (t.limit ≤ s.limit + 1)
      × ((throttled || timed_out) ≡ false → s.limit ≤ t.limit)
      × ((throttled || timed_out) ≡ true
          → (t.limit ≤ s.limit) × (min s.limit (max s.minimum (s.limit / 2)) ≤ t.limit))
      × (s.adaptive ≡ false → t.limit ≡ s.limit)
unfolding observe
observe_limit latency throttled timed_out now s = ground arith
