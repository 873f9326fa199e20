-- ===== src/Server/Examples/Attempts.antt =====
-- The attempts of a payment, at a concrete serializer and history.
use durablefuture.Prelude.{
  ℕ, zero, suc, List, [], ◌∷◌, Option, none, some, Bool, true, ◌&&◌, Result, ok, err, ◌==◌,
}
use durablefuture.Prelude.Int.{ℤ, pos}
use durablefuture.Api.Values.{Any, string}
use durablefuture.Api.Tasks.{Bytes, ActivityTask, RetryPolicy}
use durablefuture.Api.Events.{ActivityScheduled}
use durablefuture.Server.Broker.{JetStream, Serde}
use durablefuture.Server.ActivityTasks.{first_attempt}
use durablefuture.Server.Examples.{policy, payment, serde, scheduling, broker}

-- A serializer of tasks of the payment that writes the maximum and the attempt.
abbrev two_numbers : ℤ → ℤ → Result Bytes
two_numbers (pos j) (pos a) = ok (j ∷ a ∷ [])
two_numbers _ _ = err "unsupported"

abbrev written : Bool → Option RetryPolicy → ℤ → Result Bytes
written true (some p) a = two_numbers p.maximum_attempts a
written _ _ _ = err "unsupported"

abbrev is_payment : ActivityTask → Bool
is_payment t = t.activity_fn == "pay" && t.workflow_id == "1"

abbrev tasks : Serde
tasks = record serde {
  serialize_activity_task = λ t. written (is_payment t) t.retry_policy t.attempt;
}

abbrev task_of : ℕ → ℕ → ActivityTask
task_of j a = record (first_attempt (pos 1000) payment) {
  attempt = pos a;
  retry_policy = some (record policy { maximum_attempts = pos j });
}

abbrev read : Bytes → Option ActivityTask
read (j ∷ a ∷ []) = some (task_of j a)
read _ = none

-- Brokers whose history is the scheduling of the payment.
abbrev brokers : ℕ → JetStream
brokers n = record broker { fetch_history = λ subject limit. ok (scheduling ∷ []) }

abbrev policy_of : Option (ActivityScheduled × ℤ) → Option RetryPolicy
policy_of none = none
policy_of (some found) = found.0.retry_policy

-- The third of at most three attempts is counted with no attempt to go, and it succeeds.
abbrev outcome : ℕ → Result (List Any)
outcome zero = ok (string "paid" ∷ [])
outcome (suc n) = err "timeout"
