-- ===== src/Resources/Retry/Tests.antt =====
-- Concrete runs of the retries of internal/services/resources/retry.go.
use kubepeep.Base.{ℕ, ◌≤◌, true, false, All, length}
use kubepeep.Resources.Retry.{RetryPolicy, Failure, failure, Surroundings, retry, retry_waits}

abbrev policy : RetryPolicy
policy = record { attempts = 3; base = 200000000; maximum = 5000000000 }

abbrev throttled : Failure
throttled = record { is_rate_limited = true; is_retryable = true; retry_after = 1000000000 }

abbrev busy : Surroundings ℕ
busy = record {
  respond = λ n. failure throttled;
  is_done = λ n. false;
  jitter = λ n. λ d. d;
  wait_fails = λ n. false;
}

retry_waits_example :
    let (x, waits, throttles) = retry 3 policy busy 0 throttled in
    (length waits ≤ 3) × All (λ d. d ≤ policy.maximum) waits
retry_waits_example = retry_waits 3 policy busy 0 throttled
