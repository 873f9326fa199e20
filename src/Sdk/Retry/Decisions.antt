-- ===== src/Sdk/Retry/Decisions.antt =====
-- The retry decisions and delays of sdk/internal/worker_runtime.go in plain numbers, where no int64
-- overflows.
use durablefuture.Prelude.{
  ℕ, ◌*◌, ◌+◌, ◌-◌, ◌^◌, ◌≤◌, ◌<◌, ◌≡◌, ◌⊎◌, ◌↔◌, refl, String, some, true, false, ◌&&◌, arith,
  contains, nat_beq, if◌then◌else◌,
}
use durablefuture.Prelude.Int.{pos, ◌≤ℤ◌, ltb_ℤ, wrap64-pos, +ℤ-pos, -ℤ-pos}
use durablefuture.Api.Values.{FloatOps}
use durablefuture.Api.Tasks.{RetryPolicy, ActivityTask}
use durablefuture.Sdk.Activity.{milliseconds}
use durablefuture.Sdk.Retry.{
  calculate_retry_delay, would_exceed, evaluate_retry_decision, evaluate_retry_decision_iff,
}

-- An attempt is left, the error is not listed, and the next attempt begins in time.
abbrev pub Allowed : ℕ → RetryPolicy → ActivityTask → String → Type 0
Allowed elapsed policy task error =
    ((policy.maximum_attempts ≤ℤ pos 0) ⊎ ¬ (policy.maximum_attempts ≤ℤ task.attempt))
    × (contains policy.non_retryable_error_types error ≡ false)
    × ((task.schedule_to_close_timeout_unix ≤ℤ pos 0)
        ⊎ (pos elapsed ≤ℤ task.schedule_to_close_timeout_unix))

-- The intervals of a policy in nanoseconds, with the defaults: one second, and 100 initial intervals.
abbrev pub nanoseconds : ℕ → ℕ
nanoseconds initial_ms = if nat_beq initial_ms 0 then 1000000000 else initial_ms * 1000000

abbrev pub cap : ℕ → ℕ → ℕ
cap initial_ms maximum_ms =
    if nat_beq maximum_ms 0 then 100 * nanoseconds initial_ms else maximum_ms * 1000000

module _ (fl : FloatOps) where
  would_exceed-pos :
      (n s d : ℕ) (task : ActivityTask)
      → task.scheduled_at_ms ≡ pos s
      → s ≤ n
      → milliseconds (calculate_retry_delay fl task) ≡ pos d
      → n + d < 2 ^ 63
      → would_exceed fl (pos n) task ≡ (
          ltb_ℤ (pos 0) task.schedule_to_close_timeout_unix
          && ltb_ℤ task.schedule_to_close_timeout_unix (pos (n - s + d)))
  unfolding would_exceed
  would_exceed-pos n s d task hs le hd small =
      rw
        (
          hd,
          hs,
          -ℤ-pos n s le,
          wrap64-pos (n - s) (omega arith),
          +ℤ-pos (n - s) d,
          wrap64-pos (n - s + d) (omega arith),
        )
        refl

  -- Let a task with a policy have been scheduled at `s`, fail at `n`, not before that, and have the
  -- delay `d`, all in milliseconds, so that no int64 overflows. It is retried if and only if the
  -- policy's maximum is not positive or above the attempt, the error's text is not listed, and the
  -- timeout is not positive or at least the time since `s` together with the delay.
  pub evaluate_retry_decision-Allowed :
      (n s d : ℕ) (task : ActivityTask) (error : String) (policy : RetryPolicy)
      → task.retry_policy ≡ some policy
      → task.scheduled_at_ms ≡ pos s
      → s ≤ n
      → milliseconds (calculate_retry_delay fl task) ≡ pos d
      → n + d < 2 ^ 63
      → (evaluate_retry_decision fl (pos n) task error ≡ true)
        ↔ Allowed (n - s + d) policy task error
  evaluate_retry_decision-Allowed n s d task error policy hp hs le hd small =
      let decides = (evaluate_retry_decision_iff fl (pos n) task error policy hp).0 in
      let exceeds = would_exceed-pos n s d task hs le hd small in
      rw (decides, exceeds) (ground arith)
