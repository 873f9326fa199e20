-- ===== src/Sdk/Activity/Counts.antt =====
-- How many `ActivityScheduled` events a call records, and how many calls have gone past the history.
use durablefuture.Prelude.{
  ℕ, zero, suc, ◌+◌, ◌-◌, ◌≤◌, ◌<◌, ◌≡◌, refl, ap, subst, ◌∙◌, String, List, [], ◌∷◌, ◌++◌, none,
  some, Option-cases, inl, inr, arith, length, get_elem?, ◌==◌, eq_iff, if◌then◌else◌,
}
use native.Mathlib.Nat.{le_of_eq}
use durablefuture.Api.Values.{Any}
use durablefuture.Api.Events.{WorkflowEvent, activity_scheduled}
use durablefuture.Sdk.State.{ActivityReplay, ActivityReplayRecord, WorkflowState}
use durablefuture.Sdk.State.Replays.{replay_of}
use durablefuture.Sdk.Future.{Blocking, Signal, value, blocking_future, panic}
use durablefuture.Sdk.Activity.{Runtime, OptionsValue, unset, options, mistyped, scheduled_event}
use durablefuture.Sdk.Activity.Effects.{answer, consumed_one, fresh, next_record, Called}

abbrev counts_one : String → WorkflowEvent → ℕ
counts_one fn_name (activity_scheduled e) = if e.activity_fn_name == fn_name then 1 else 0
counts_one fn_name _ = 0

-- The `ActivityScheduled` events of a function in a list.
unfoldable pub scheduled_count : String → List WorkflowEvent → ℕ
scheduled_count fn_name [] = 0
scheduled_count fn_name (e ∷ es) = counts_one fn_name e + scheduled_count fn_name es

scheduled_count-append :
    (j : String) (xs ys : List WorkflowEvent)
    → scheduled_count j (xs ++ ys) ≡ scheduled_count j xs + scheduled_count j ys
unfolding scheduled_count
scheduled_count-append j [] ys = omega arith
scheduled_count-append j (x ∷ xs) ys = omega (arith, scheduled_count-append j xs ys)

-- The calls beyond the results that the history has.
abbrev pub overshoot : ActivityReplay → ℕ
overshoot entry = entry.consumed - length entry.history

get_elem?-lt {ℓ} :
    {A : Type ℓ} (xs : List A) (i : ℕ) (a : A) → get_elem? xs i ≡ some a → i < length xs
get_elem?-lt [] i a h = cc
get_elem?-lt (x ∷ xs) zero a h = omega arith
get_elem?-lt (x ∷ xs) (suc i) a h = omega (arith, get_elem?-lt xs i a h)

get_elem?-ge {ℓ} : {A : Type ℓ} (xs : List A) (i : ℕ) → get_elem? xs i ≡ none → length xs ≤ i
get_elem?-ge [] i h = omega arith
get_elem?-ge (x ∷ xs) zero h = cc
get_elem?-ge (x ∷ xs) (suc i) h = omega (arith, get_elem?-ge xs i h)

-- From `c` to `d`: the history stands, calls only add up, and at most the calls beyond the history
-- are scheduled; if `all` holds, each of them is.
pub record Ledger (all : Type 0) (j : String) (c d : WorkflowState) : Type 0 where
  pub history : (replay_of j d).history ≡ (replay_of j c).history
  pub calls : (replay_of j c).consumed ≤ (replay_of j d).consumed
  pub at_most :
      scheduled_count j d.uncommitted + overshoot (replay_of j c)
      ≤ scheduled_count j c.uncommitted + overshoot (replay_of j d)
  pub exact :
      all
      → scheduled_count j d.uncommitted + overshoot (replay_of j c)
        ≡ scheduled_count j c.uncommitted + overshoot (replay_of j d)

abbrev pub NoPanic {ℓ} : {A : Type ℓ} → Signal A → Type 0
NoPanic (value f) = Unit
NoPanic blocking_future = Unit
NoPanic (panic m) = ⊥

scheduled_count-fresh-some :
    (rt : Runtime) (j : String) (o : OptionsValue) (fn_name : String) (args : List Any)
    (c : WorkflowState) (r : ActivityReplayRecord)
    → scheduled_count j (fresh rt o fn_name args c (some r)) ≡ 0
unfolding fresh scheduled_count
scheduled_count-fresh-some rt j o fn_name args c r = refl

-- With no result left a call that does not panic schedules its function, and no other.
scheduled_count-fresh-none :
    (rt : Runtime) (j : String) (o : OptionsValue) (fn_name : String) (args : List Any)
    (c : WorkflowState)
    → let n = scheduled_count j (fresh rt o fn_name args c none) in
      let m : ℕ = if fn_name == j then 1 else 0 in (n ≤ m) × (NoPanic (answer o none) → n ≡ m)
unfolding fresh scheduled_count scheduled_event
scheduled_count-fresh-none rt j unset fn_name args c = ground arith
scheduled_count-fresh-none rt j (options p) fn_name args c = ground arith
scheduled_count-fresh-none rt j mistyped fn_name args c = ground arith

module _ {rt : Runtime} {o : OptionsValue} {fn_name : String} {args : List Any} {c : WorkflowState}
    {out : Signal Blocking × WorkflowState} where
  replay_of-Called :
      (j : String)
      → Called rt o fn_name args c out
      → replay_of j out.1 ≡ (if fn_name == j then consumed_one (replay_of j c) else replay_of j c)
  replay_of-Called j h = ground (arith, h.replays j, eq_iff fn_name j)

  -- The overshoot grows by one where no result is left, and only for the function called.
  overshoot-Called :
      (j : String)
      → Called rt o fn_name args c out
      → (next_record fn_name c ≡ none
          → overshoot (replay_of j out.1)
            ≡ overshoot (replay_of j c) + (if fn_name == j then 1 else 0))
        × ((r : ActivityReplayRecord)
            → next_record fn_name c ≡ some r
            → overshoot (replay_of j out.1) ≡ overshoot (replay_of j c))
  unfolding next_record
  overshoot-Called j h = (
    λ e. ground (
      arith,
      replay_of-Called j h,
      eq_iff fn_name j,
      get_elem?-ge (replay_of fn_name c).history (replay_of fn_name c).consumed e,
    ),
    λ r e. ground (
      arith,
      replay_of-Called j h,
      eq_iff fn_name j,
      get_elem?-lt (replay_of fn_name c).history (replay_of fn_name c).consumed r e,
    ),
  )

  none_scheduled :
      (j : String)
      → Called rt o fn_name args c out
      → (r : ActivityReplayRecord) → next_record fn_name c ≡ some r
      → scheduled_count j out.1.uncommitted + overshoot (replay_of j c)
        ≡ scheduled_count j c.uncommitted + overshoot (replay_of j out.1)
  none_scheduled j h r e = omega (
    arith,
    (overshoot-Called j h).1 r e,
    ap (scheduled_count j) (rw e at h.recorded),
    scheduled_count-append j c.uncommitted (fresh rt o fn_name args c (some r)),
    scheduled_count-fresh-some rt j o fn_name args c r,
  )

  pub Called-Ledger :
      (j : String) → Called rt o fn_name args c out → Ledger (NoPanic out.0) j c out.1
  Called-Ledger j h = elim (Option-cases (next_record fn_name c)) [
    | inl e ↦ record {
      history = ground (arith, replay_of-Called j h);
      calls = ground (arith, replay_of-Called j h);
      at_most = omega (
        arith,
        (overshoot-Called j h).0 e,
        ap (scheduled_count j) (rw e at h.recorded),
        scheduled_count-append j c.uncommitted (fresh rt o fn_name args c none),
        (scheduled_count-fresh-none rt j o fn_name args c).0,
      );
      exact = λ v. omega (
        arith,
        (overshoot-Called j h).0 e,
        ap (scheduled_count j) (rw e at h.recorded),
        scheduled_count-append j c.uncommitted (fresh rt o fn_name args c none),
        (scheduled_count-fresh-none rt j o fn_name args c).1 (subst NoPanic (rw e at h.answered) v),
      );
    }
    | inr (r, e) ↦ record {
      history = ground (arith, replay_of-Called j h);
      calls = ground (arith, replay_of-Called j h);
      at_most = le_of_eq (none_scheduled j h r e);
      exact = λ v. none_scheduled j h r e;
    }
  ]

pub Ledger-refl : {A : Type 0} (j : String) (c : WorkflowState) → Ledger A j c c
Ledger-refl j c = record {
  history = refl;
  calls = omega arith;
  at_most = omega arith;
  exact = λ _. refl;
}

pub Ledger-trans :
    {A B C : Type 0} {j : String} {c d e : WorkflowState}
    → (C → A)
    → (C → B)
    → Ledger A j c d
    → Ledger B j d e
    → Ledger C j c e
Ledger-trans f g p q = record {
  history = q.history ∙ p.history;
  calls = omega (arith, p.calls, q.calls);
  at_most = omega (arith, p.at_most, q.at_most);
  exact = λ x. omega (arith, p.exact (f x), q.exact (g x));
}
