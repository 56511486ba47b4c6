-- ===== src/Resources/Scheduler.antt =====
-- internal/services/resources/scheduler.go: the bound on concurrent LIST windows. The critical
-- sections of `Acquire` are functions of the scheduler; what runs between two of them (the rate
-- limiter, the context, the wake-up channel) is in Scheduler/Requests. Times are nanoseconds. A
-- count at or below 0 in a configuration is 0 here, and the uint64 counters wrap.
pub mod Limits
pub mod Prefetches
pub mod Requests
pub mod Wakeups
pub mod Tests
use kubepeep.Base.{
  ℕ, suc, ◌+◌, ◌-◌, ◌*◌, ◌/◌, ◌%◌, ◌^◌, min, max, Bool, true, false, not, ◌&&◌, ◌||◌, ltb, leb,
  ◌==◌, if◌then◌else◌,
}

pub data RequestPriority : Type 0 where
  priority_visible priority_likely_next priority_unrelated : RequestPriority

abbrev pub is_visible : RequestPriority → Bool
is_visible priority_visible = true
is_visible _ = false

pub record SchedulerConfig : Type 0 where
  pub minimum : ℕ
  pub initial : ℕ
  pub maximum : ℕ
  pub adaptive : Bool
  pub healthy_threshold : ℕ

-- `changed` numbers the channel of that name: making a new one closes the one before.
pub record RequestScheduler : Type 0 where
  pub changed : ℕ
  pub active : ℕ
  pub visible_waiting : ℕ
  pub deferred : ℕ
  pub congestion : ℕ
  pub prefetch_pause_until : ℕ
  pub minimum : ℕ
  pub limit : ℕ
  pub maximum : ℕ
  pub adaptive : Bool
  pub healthy : ℕ
  pub healthy_threshold : ℕ
  pub increases : ℕ
  pub reductions : ℕ

abbrev or_default : ℕ → ℕ → ℕ
or_default n default = if n == 0 then default else n

abbrev u64_next : ℕ → ℕ
u64_next n = (n + 1) % 2 ^ 64

abbrev pub seconds : ℕ → ℕ
seconds n = n * 1000000000

unfoldable pub new_request_scheduler_with_config : SchedulerConfig → RequestScheduler
new_request_scheduler_with_config config =
    let minimum = or_default config.minimum 2 in
    let maximum = or_default config.maximum 8 in
    let initial = or_default config.initial 4 in
    let minimum' = min minimum maximum in
    record {
      changed = 0;
      active = 0;
      visible_waiting = 0;
      deferred = 0;
      congestion = 0;
      prefetch_pause_until = 0;
      minimum = minimum';
      limit = max minimum' (min initial maximum);
      maximum = maximum;
      adaptive = config.adaptive;
      healthy = 0;
      healthy_threshold = or_default config.healthy_threshold 8;
      increases = 0;
      reductions = 0;
    }

pub new_request_scheduler : ℕ → RequestScheduler
unfolding new_request_scheduler_with_config
new_request_scheduler maximum =
    let m = or_default maximum 8 in
    new_request_scheduler_with_config
      (record { minimum = m; initial = m; maximum = m; adaptive = false; healthy_threshold = 0 })

pub reserve : RequestPriority → RequestScheduler → ℕ
reserve priority_unrelated s = min 4 (s.limit - 1)
reserve _ s = min 2 (s.limit - 1)

prefetch_deferred_locked : RequestPriority → ℕ → RequestScheduler → Bool
unfolding reserve
prefetch_deferred_locked priority now s =
    if leb s.limit 1
    then true
    else ltb 0 s.visible_waiting
      || leb (s.limit - reserve priority s) s.active
      || ltb now s.prefetch_pause_until

-- What one pass through the loop's first critical section decides.
pub data Entry : Type 0 where
  deferred admitted : Entry
  queued : ℕ → Entry

unfoldable pub enter : RequestPriority → ℕ → RequestScheduler → RequestScheduler × Entry
unfolding prefetch_deferred_locked
enter priority now s =
    if not (is_visible priority) && prefetch_deferred_locked priority now s
    then (record s { deferred = u64_next s.deferred }, deferred)
    else if ltb s.active s.limit
    then (record s { active = s.active + 1 }, admitted)
    else if not (is_visible priority)
    then (record s { deferred = u64_next s.deferred }, deferred)
    else (record s { visible_waiting = s.visible_waiting + 1 }, queued s.changed)

pub leave_queue : RequestScheduler → RequestScheduler
leave_queue s = record s { visible_waiting = s.visible_waiting - 1 }

unfoldable pub release : RequestScheduler → RequestScheduler
release s = record s { active = s.active - 1; changed = s.changed + 1 }

-- `Observe` after a request that was neither throttled, timed out nor slow.
observe_healthy : RequestScheduler → RequestScheduler
observe_healthy s =
    if s.adaptive && ltb s.limit s.maximum
    then if leb s.healthy_threshold (s.healthy + 1)
      then record s {
        limit = s.limit + 1;
        healthy = 0;
        increases = u64_next s.increases;
        changed = s.changed + 1;
      }
      else record s { healthy = s.healthy + 1 }
    else s

-- `scheduler.limit/2`, but not below the minimum; never a growth.
reduce : Bool → RequestScheduler → RequestScheduler
reduce pressed s =
    let next = max s.minimum (s.limit / 2) in
    if s.adaptive && pressed && ltb next s.limit
    then record s { limit = next; reductions = u64_next s.reductions }
    else s

observe_congested : Bool → ℕ → RequestScheduler → RequestScheduler
unfolding reduce
observe_congested pressed now s =
    let t = reduce pressed (record s { congestion = u64_next s.congestion; healthy = 0 }) in
    let until = now + (if pressed then seconds 15 else seconds 5) in
    if ltb t.prefetch_pause_until until then record t { prefetch_pause_until = until } else t

pub observe : ℕ → Bool → Bool → ℕ → RequestScheduler → RequestScheduler
unfolding observe_healthy observe_congested
observe latency throttled timed_out now s =
    if not throttled && not timed_out && ltb latency (seconds 2)
    then observe_healthy s
    else observe_congested (throttled || timed_out) now s
