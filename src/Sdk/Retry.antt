-- ===== src/Sdk/Retry.antt =====
-- `evaluateRetryDecision` and `calculateRetryDelay` of sdk/internal/worker_runtime.go.
pub mod Decisions
use durablefuture.Prelude.{
  ◌≡◌, refl, String, List, [], ◌∷◌, none, some, Bool, true, false, not, ◌&&◌, ◌||◌, arith, contains,
  ltb, length, if◌then◌else◌,
}
use durablefuture.Prelude.Int.{
  ℤ, pos, ◌+ℤ◌, ◌-ℤ◌, ◌*ℤ◌, ◌≤ℤ◌, ltb_ℤ, leb_ℤ, beq_ℤ, min_ℤ, min_ℤ-le, wrap32, wrap64,
}
use durablefuture.Api.Values.{Float64, FloatOps}
use durablefuture.Api.Tasks.{RetryPolicy, ActivityTask}
use durablefuture.Sdk.Activity.{milliseconds}

-- time.Second and time.Millisecond, in nanoseconds.
abbrev pub second : ℤ
second = pos 1000000000

abbrev pub millisecond : ℤ
millisecond = pos 1000000

-- The intervals of a policy after the defaults, as durations.
unfoldable pub initial_interval : RetryPolicy → ℤ
initial_interval policy =
    let d = wrap64 (policy.initial_interval_ms *ℤ millisecond) in
    if beq_ℤ d (pos 0) then second else d

unfoldable pub max_interval : RetryPolicy → ℤ
max_interval policy =
    let d = wrap64 (policy.maximum_interval_ms *ℤ millisecond) in
    if beq_ℤ d (pos 0) then wrap64 (pos 100 *ℤ initial_interval policy) else d

-- The length test before `slices.Contains` changes nothing.
listed : (ts : List String) (s : String) → (ltb 0 (length ts) && contains ts s) ≡ contains ts s
listed [] s = refl
listed (t ∷ ts) s = ground arith

module _ (fl : FloatOps) where
  unfoldable pub backoff_coefficient : RetryPolicy → Float64
  backoff_coefficient policy =
      if fl.is_nonpositive policy.backoff_coefficient then fl.two else policy.backoff_coefficient

  -- `attempt - 1` is an int32.
  unfoldable pub policy_delay : ActivityTask → RetryPolicy → ℤ
  policy_delay task policy =
      let next_delay = fl.to_int64 (
        fl.mul (fl.of_int64 (initial_interval policy))
          (fl.pow (backoff_coefficient policy) (fl.of_int64 (wrap32 (task.attempt -ℤ pos 1))))) in
      min_ℤ next_delay (max_interval policy)

  unfoldable pub calculate_retry_delay : ActivityTask → ℤ
  calculate_retry_delay task = elim task.retry_policy [
    | none ↦ second
    | some policy ↦ policy_delay task policy
  ]

  -- The test of the schedule-to-close timeout, at the time `now_ms`.
  unfoldable pub would_exceed : ℤ → ActivityTask → Bool
  would_exceed now_ms task =
      ltb_ℤ (pos 0) task.schedule_to_close_timeout_unix
      && ltb_ℤ task.schedule_to_close_timeout_unix (
          wrap64
            (wrap64 (now_ms -ℤ task.scheduled_at_ms) +ℤ milliseconds (calculate_retry_delay task)))

  -- The three tests in order, each with its early return. Of the error the code uses the text.
  policy_allows : ℤ → ActivityTask → String → RetryPolicy → Bool
  policy_allows now_ms task error policy =
      if ltb_ℤ (pos 0) policy.maximum_attempts && leb_ℤ policy.maximum_attempts task.attempt
      then false
      else if ltb 0 (length policy.non_retryable_error_types)
          && contains policy.non_retryable_error_types error
      then false
      else if would_exceed now_ms task
      then false
      else true

  unfoldable pub evaluate_retry_decision : ℤ → ActivityTask → String → Bool
  unfolding policy_allows
  evaluate_retry_decision now_ms task error = elim task.retry_policy [
    | none ↦ false
    | some policy ↦ policy_allows now_ms task error policy
  ]

  -- The decision as one test; a task without a policy is not retried.
  pub evaluate_retry_decision_iff :
      (now_ms : ℤ) (task : ActivityTask) (error : String) (policy : RetryPolicy)
      → task.retry_policy ≡ some policy
      → (evaluate_retry_decision now_ms task error ≡ (
          (leb_ℤ policy.maximum_attempts (pos 0) || ltb_ℤ task.attempt policy.maximum_attempts)
          && not (contains policy.non_retryable_error_types error)
          && not (would_exceed now_ms task)))
        × (evaluate_retry_decision now_ms (record task { retry_policy = none }) error ≡ false)
  unfolding evaluate_retry_decision
  evaluate_retry_decision_iff now_ms task error policy e =
      (ground (arith, listed policy.non_retryable_error_types error), refl)
