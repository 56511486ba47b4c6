-- ===== src/Resources/Retry.antt =====
-- internal/services/resources/retry.go: the retries of one LIST page. What the lister answers, the
-- jitter, and whether the context is done or ends a wait are inputs by attempt; a failure says what
-- `retryableRead`, `ErrorCodeOf` and `RetryAfter` report of it. Durations are nanoseconds, and one
-- at or below 0 is 0 here.
mod Tests
use kubepeep.Base.{
  ℕ, zero, suc, ◌+◌, ◌-◌, ◌*◌, ◌/◌, ◌%◌, ◌^◌, ◌≤◌, ◌<◌, ◌≡◌, min, max, Bool, true, false, not, ◌&&◌,
  ◌||◌, List, [], ◌∷◌, leb, ltb, ◌==◌, if◌then◌else◌, length, arith, All, Bool-cases, ◌⊎◌, inl, inr,
}

abbrev pub maximum_retry_delay : ℕ
maximum_retry_delay = 5000000000

pub record RetryPolicy : Type 0 where
  pub attempts : ℕ
  pub base : ℕ
  pub maximum : ℕ

unfoldable pub normalize_retry_policy : RetryPolicy → RetryPolicy
normalize_retry_policy p = record {
  attempts = if p.attempts == 0 then 3 else p.attempts;
  base = if p.base == 0 then 200000000 else p.base;
  maximum =
      if p.maximum == 0 || ltb maximum_retry_delay p.maximum
      then maximum_retry_delay
      else p.maximum;
}

pub record Failure : Type 0 where
  pub is_rate_limited : Bool
  pub is_retryable : Bool
  pub retry_after : ℕ

pub data Response {ℓ} (P : Type ℓ) : Type ℓ where
  page : P → Response P
  failure : Failure → Response P

pub data Listed {ℓ} (P : Type ℓ) : Type ℓ where
  listed : P → Listed P
  failed : Failure → Listed P
  canceled : Listed P

pub record Surroundings {ℓ} (P : Type ℓ) : Type ℓ where
  pub respond : ℕ → Response P
  pub is_done : ℕ → Bool
  pub jitter : ℕ → ℕ → ℕ
  pub wait_fails : ℕ → Bool

-- `policy.Base << attempt` on int64; a negative delay is 0.
abbrev pub shift : ℕ → ℕ → ℕ
shift base attempt = let d = (base * 2 ^ attempt) % 2 ^ 64 in if ltb d (2 ^ 63) then d else 0

-- The wait before the next attempt.
unfoldable pub next_delay : RetryPolicy → ℕ → (ℕ → ℕ) → ℕ → ℕ
next_delay p attempt jitter retry_after =
    max (min (jitter (min (max (shift p.base attempt) retry_after) p.maximum)) p.maximum)
      retry_after

-- Whether a failed attempt is the last one.
unfoldable pub is_last : RetryPolicy → ℕ → Failure → Bool
is_last p attempt e =
    not e.is_retryable || leb p.attempts (attempt + 1) || ltb p.maximum e.retry_after

module _ {ℓ} {P : Type ℓ} where
  -- One attempt, and `rest` for those after it: the result, the waits, and the throttles recorded.
  after_response :
      RetryPolicy
      → Surroundings P
      → ℕ
      → (Listed P × List ℕ × ℕ)
      → Response P
      → Listed P × List ℕ × ℕ
  unfolding next_delay is_last
  after_response p e attempt rest (page x) = (listed x, [], 0)
  after_response p e attempt rest (failure f) =
      let delay = next_delay p attempt (e.jitter attempt) f.retry_after in
      let throttle =
        if f.is_rate_limited && f.is_retryable && ltb (attempt + 1) p.attempts then 1 else 0 in
      let (r, waits, throttles) = rest in
      if is_last p attempt f
      then (failed f, [], throttle)
      else if e.wait_fails attempt
      then (canceled, delay ∷ [], throttle)
      else (r, delay ∷ waits, throttle + throttles)

  -- The loop; the first number counts the attempts that are left.
  unfoldable pub retry : ℕ → RetryPolicy → Surroundings P → ℕ → Failure → Listed P × List ℕ × ℕ
  unfolding after_response
  retry zero p e attempt f = (failed f, [], 0)
  retry (suc left) p e attempt f =
      let rest = retry left p e (attempt + 1) f in
      if e.is_done attempt
      then (canceled, [], 0)
      else after_response p e attempt rest (e.respond attempt)

  -- `retryListPage`; the failure is the `lastErr` of a loop without an attempt.
  pub retry_list_page : RetryPolicy → Surroundings P → Failure → Listed P × List ℕ × ℕ
  unfolding normalize_retry_policy retry
  retry_list_page p e f = let q = normalize_retry_policy p in retry q.attempts q e 0 f

  after_response_waits :
      (p : RetryPolicy) (e : Surroundings P) (attempt : ℕ) (rest : Listed P × List ℕ × ℕ)
      (r : Response P)
      → All (λ d. d ≤ p.maximum) rest.1
      → let (x, waits, throttles) = after_response p e attempt rest r in
        (length waits ≤ length rest.1 + 1) × All (λ d. d ≤ p.maximum) waits
  unfolding after_response next_delay is_last
  after_response_waits p e attempt rest (page x) h = (omega arith, tt)
  after_response_waits p e attempt rest (failure f) h = ground (arith, h)

  -- The loop makes no more waits than it has attempts, none of them longer than the policy's maximum,
  -- whatever the jitter and the server ask for.
  pub retry_waits :
      (left : ℕ) (p : RetryPolicy) (e : Surroundings P) (attempt : ℕ) (f : Failure)
      → let (x, waits, throttles) = retry left p e attempt f in
        (length waits ≤ left) × All (λ d. d ≤ p.maximum) waits
  unfolding retry
  retry_waits zero p e attempt f = (omega arith, tt)
  retry_waits (suc left) p e attempt f =
      let rest = retry_waits left p e (attempt + 1) f in
      let after =
        after_response_waits p e attempt (retry left p e (attempt + 1) f) (e.respond attempt)
          rest.1 in
      ground (arith, rest, after)

-- A wait that the loop makes is at least what the server asks for and at most the policy's maximum.
next_delay_range :
    (p : RetryPolicy) (attempt : ℕ) (jitter : ℕ → ℕ) (f : Failure)
    → is_last p attempt f ≡ false
    → (f.retry_after ≤ next_delay p attempt jitter f.retry_after)
      × (next_delay p attempt jitter f.retry_after ≤ p.maximum)
unfolding is_last next_delay
next_delay_range p attempt jitter f h = ground arith
