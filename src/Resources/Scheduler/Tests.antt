-- ===== src/Resources/Scheduler/Tests.antt =====
-- Runs of the scheduler, and the theorems about it at concrete inputs.
use kubepeep.Base.{◌-◌, max, ◌≤◌, ◌≡◌, refl, true, false, [], ◌∷◌, All, List, arith}
use kubepeep.Resources.Scheduler.{
  SchedulerConfig, RequestPriority, priority_visible, priority_likely_next, enter, release,
  new_request_scheduler_with_config,
}
use kubepeep.Resources.Scheduler.Prefetches.{taken, is_prefetch, is_unrelated, run_prefetches}
use kubepeep.Resources.Scheduler.Requests.{Finds, Event, moves, run}
use kubepeep.Resources.Scheduler.Wakeups.{
  start, total, holds_slot, is_queued, IsWoken, run_slots, run_wakes,
}

abbrev one_slot : SchedulerConfig
one_slot = record { minimum = 1; initial = 1; maximum = 1; adaptive = true; healthy_threshold = 2 }

abbrev four_slots : SchedulerConfig
four_slots = record {
  minimum = 0;
  initial = 0;
  maximum = 0;
  adaptive = true;
  healthy_threshold = 2;
}

abbrev fine : Finds
fine = record { now = 0; context_done = false; limiter_fails = false }

abbrev two : List RequestPriority
two = priority_visible ∷ priority_visible ∷ []

-- The first request takes the slot, the second queues, the first gives the slot back.
abbrev handover : List Event
handover =
    moves 0 fine ∷ moves 1 fine ∷ moves 0 fine ∷ moves 1 fine ∷ moves 0 fine ∷ moves 0 fine ∷ []

handover_queue : total is_queued (run (start one_slot two) handover).requests ≡ 1
unfolding run enter release start new_request_scheduler_with_config
handover_queue = refl

run_slots_example :
    let y = run (start one_slot two) handover in
    (y.scheduler.active ≡ total holds_slot y.requests)
    × (total holds_slot y.requests ≤ y.scheduler.maximum)
    × (y.scheduler.visible_waiting ≡ total is_queued y.requests)
run_slots_example = run_slots one_slot two handover

run_wakes_example :
    let y = run (start one_slot two) handover in All (IsWoken y.scheduler) y.requests
unfolding run enter release start new_request_scheduler_with_config
run_wakes_example = run_wakes one_slot two handover (omega arith)

-- Three prefetches arrive: the third one is deferred.
abbrev three_prefetches : List RequestPriority
three_prefetches = priority_likely_next ∷ priority_likely_next ∷ priority_likely_next ∷ []

abbrev all_arrive : List Event
all_arrive =
    moves 0 fine ∷ moves 0 fine ∷ moves 1 fine ∷ moves 1 fine ∷ moves 2 fine ∷ moves 2 fine ∷ []

two_are_admitted :
    total (taken is_prefetch) (run (start four_slots three_prefetches) all_arrive).requests ≡ 2
unfolding run enter release start new_request_scheduler_with_config
two_are_admitted = refl

run_prefetches_example :
    let y = run (start four_slots three_prefetches) all_arrive in
    (total (taken is_prefetch) y.requests ≤ max (y.scheduler.maximum - 2) 1)
    × (total (taken is_unrelated) y.requests ≤ max (y.scheduler.maximum - 4) 1)
run_prefetches_example = run_prefetches four_slots three_prefetches all_arrive
