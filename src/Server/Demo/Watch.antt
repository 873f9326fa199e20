-- ===== src/Server/Demo/Watch.antt =====
-- How `watchWorkflowEvents` of internal/server/handler/http/demo_watcher.go comes to its consumer.
use native.Mathlib.Decide.{dec_lt}
use durablefuture.Prelude.{
  ℕ, zero, suc, ◌+◌, ◌<◌, ◌≤◌, ◌≡◌, List, [], ◌∷◌, String, Option, none, some, Option-cases, inl,
  inr, arith, ltb, if◌then◌else◌,
}

abbrev pub max_retries : ℕ
max_retries = 10

-- The sleep behind the i-th attempt, in seconds, unless it is the last.
abbrev backoff : ℕ → List ℕ → List ℕ
backoff i sleeps = if ltb (i + 1) max_retries then suc i ∷ sleeps else sleeps

-- `create` is the error of the i-th call of `CreateOrUpdateConsumer`, if there is one. The loop has
-- `left` attempts from the i-th on; the last error is `m`. It gives the error of the last attempt, and
-- the sleeps.
module _ (create : ℕ → Option String) where
  unfoldable pub retry_from : ℕ → ℕ → Option String → Option String × List ℕ
  retry_from zero i m = (m, [])
  retry_from (suc left) i m =
      let later = retry_from left (suc i) (create i) in
      elim (create i) [ none ↦ (none, []) | some e ↦ (later.0, backoff i later.1) ]

  unfoldable pub create_demo_consumer : Option String × List ℕ
  create_demo_consumer = retry_from max_retries 0 none

  -- The loop gives up only if no attempt succeeds.
  retry_from-some :
      (left i : ℕ) (m : Option String) (e : String)
      → (retry_from left i m).0 ≡ some e
      → (j : ℕ) → i ≤ j
      → j < left + i
      → (e' : String) × (create j ≡ some e')
  unfolding retry_from
  retry_from-some zero i m e h j le lt = absurd (omega arith)
  retry_from-some (suc left) i m e h j le lt = elim (Option-cases (create i)) [
    | inl none_left ↦ let failed = rw (retry_from, none_left) at h in ground (arith, failed)
    | inr (e', p) ↦ elim (dec_lt i j) [
      | yes later ↦
          retry_from-some left (suc i) (create i) e (rw (retry_from, p) at h) j (omega arith)
            (omega arith)
      | no here ↦ let same : j ≡ i = omega arith in (e', rw same p)
    ]
  ]

  -- The watcher gives up only if all ten attempts fail.
  pub create_demo_consumer-some :
      (e : String)
      → create_demo_consumer.0 ≡ some e
      → (j : ℕ) → j < max_retries
      → (e' : String) × (create j ≡ some e')
  unfolding create_demo_consumer
  create_demo_consumer-some e h j lt = retry_from-some max_retries 0 none e h j (omega arith) lt
