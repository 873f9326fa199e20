-- ===== src/Sdk/Delivery/Accounts.antt =====
-- Where each message that came to a worker is.
use durablefuture.Prelude.{
  ℕ, ◌+◌, ◌≡◌, refl, ap, subst, List, [], ◌∷◌, ◌++◌, Bool, Result, ok, err, Result-cases, inl, inr,
  arith, Each, String, if◌then◌else◌,
}
use durablefuture.Api.Tasks.{Bytes, Task}
use durablefuture.Sdk.Delivery.{
  TaskKind, Delivered, TaskToken, Receiver, initial, handle_message, Step, Reach, add, consume,
  consume_fails, stop, close, message, pass, refuse, send_closed, cancel, read_end, read_done, here,
  next,
}

-- How many of the messages satisfy a test.
abbrev pub count {ℓ} : {A : Type ℓ} → (A → Bool) → List A → ℕ
count test [] = 0
count test (x ∷ xs) = (if test x then 1 else 0) + count test xs

count-middle {ℓ} :
    {A : Type ℓ} (test : A → Bool) (front back : List A) (x : A)
    → count test (front ++ x ∷ back) ≡ (if test x then 1 else 0) + count test (front ++ back)
count-middle test [] back x = refl
count-middle test (y ∷ front) back x = omega (arith, count-middle test front back x)

Each-middle {ℓ κ} :
    {A : Type ℓ} (Holds : A → Type κ) (front back : List A) (x : A)
    → Each Holds (front ++ x ∷ back)
    → Holds x × Each Holds (front ++ back)
Each-middle Holds [] back x h = h
Each-middle Holds (y ∷ front) back x h =
    let (one, others) = Each-middle Holds front back x h.1 in (one, (h.0, others))

module _ (decode : TaskKind → Bytes → Result Task) where
  -- The task of the token is the one that its message decodes to, as a task of its own stream.
  abbrev pub Decodes : TaskToken → Type 0
  Decodes t = decode t.msg.stream t.msg.bytes ≡ ok t.task

  abbrev pub Undecodable : Delivered → Type 0
  Undecodable m = (e : String) × (decode m.stream m.bytes ≡ err e)

  -- Each message that came is in one place, as often as it came: with a blocked handler, passed to
  -- the callback, refused, or terminated. Tokens hold the tasks of their messages, and what was
  -- terminated does not decode.
  pub record Accounts (r : Receiver) : Type 0 where
    pub placed :
        (test : Delivered → Bool)
        → count test r.fetched
          ≡ count (λ t. test t.msg) r.blocked
            + count (λ t. test t.msg) r.passed
            + count (λ t. test t.msg) r.refused
            + count test r.terminated
    pub blocked : Each Decodes r.blocked
    pub passed : Each Decodes r.passed
    pub refused : Each Decodes r.refused
    pub terminated : Each Undecodable r.terminated

  initial-Accounts : (kinds : List TaskKind) → Accounts (initial kinds)
  initial-Accounts kinds = record {
    placed = λ test. refl;
    blocked = tt;
    passed = tt;
    refused = tt;
    terminated = tt;
  }

  handle_message-Accounts :
      (kind : TaskKind) (m : Delivered) (r : Receiver)
      → m.stream ≡ kind
      → Accounts r
      → Accounts (handle_message decode kind m r)
  unfolding handle_message
  handle_message-Accounts kind m r of a = elim (Result-cases (decode kind m.bytes)) [
    | inl (t, e) ↦
        rw (e, handle_message)
          (record {
            placed = λ test. omega (arith, a.placed test);
            blocked = (rw of e, a.blocked);
            passed = a.passed;
            refused = a.refused;
            terminated = a.terminated;
          })
    | inr (x, e) ↦
        rw (e, handle_message)
          (record {
            placed = λ test. omega (arith, a.placed test);
            blocked = a.blocked;
            passed = a.passed;
            refused = a.refused;
            terminated = ((x, rw of e), a.terminated);
          })
  ]

  -- A step that moves no message.
  unmoved :
      {r s : Receiver}
      → r.fetched ≡ s.fetched
      → r.blocked ≡ s.blocked
      → r.passed ≡ s.passed
      → r.refused ≡ s.refused
      → r.terminated ≡ s.terminated
      → Accounts r
      → Accounts s
  unmoved f b p n t a = record {
    placed = λ test. ground (arith, a.placed test);
    blocked = subst (Each Decodes) b a.blocked;
    passed = subst (Each Decodes) p a.passed;
    refused = subst (Each Decodes) n a.refused;
    terminated = subst (Each Undecodable) t a.terminated;
  }

  Step-Accounts : {r s : Receiver} → Step decode r s → Accounts r → Accounts s
  Step-Accounts (message r front back kind m e of) a = handle_message-Accounts kind m r of a
  Step-Accounts (pass r front back t e reading unclosed) a =
      let (one, others) = Each-middle Decodes front back t (subst (Each Decodes) e a.blocked) in
      record {
        placed = λ test. omega (
          arith,
          a.placed test,
          ap (count (λ (t : TaskToken). test t.msg)) e,
          count-middle (λ (t : TaskToken). test t.msg) front back t,
        );
        blocked = others;
        passed = (one, a.passed);
        refused = a.refused;
        terminated = a.terminated;
      }
  Step-Accounts (refuse r front back t e cancelled) a =
      let (one, others) = Each-middle Decodes front back t (subst (Each Decodes) e a.blocked) in
      record {
        placed = λ test. omega (
          arith,
          a.placed test,
          ap (count (λ (t : TaskToken). test t.msg)) e,
          count-middle (λ (t : TaskToken). test t.msg) front back t,
        );
        blocked = others;
        passed = a.passed;
        refused = (one, a.refused);
        terminated = a.terminated;
      }
  Step-Accounts (add r kind rest e) a = unmoved refl refl refl refl refl a
  Step-Accounts (consume r front back kind e) a = unmoved refl refl refl refl refl a
  Step-Accounts (consume_fails r front back kind e) a = unmoved refl refl refl refl refl a
  Step-Accounts (stop r front back kind e c) a = unmoved refl refl refl refl refl a
  Step-Accounts (close r e o) a = unmoved refl refl refl refl refl a
  Step-Accounts (send_closed r front back t e c) a = unmoved refl refl refl refl refl a
  Step-Accounts (cancel r) a = unmoved refl refl refl refl refl a
  Step-Accounts (read_end r c) a = unmoved refl refl refl refl refl a
  Step-Accounts (read_done r c) a = unmoved refl refl refl refl refl a

  -- At any time, whatever the order of the goroutines' steps: each message that came is with a blocked
  -- handler, passed to the callback, refused, or terminated, in one of these and as often as it came.
  -- The tokens hold the tasks that their messages decode to, as tasks of the stream that each message
  -- came from, and no terminated message decodes so.
  pub Reach-Accounts :
      (kinds : List TaskKind) (r : Receiver) → Reach decode (initial kinds) r → Accounts r
  Reach-Accounts kinds r here = initial-Accounts kinds
  Reach-Accounts kinds r (next {r = q} before live step) =
      Step-Accounts step (Reach-Accounts kinds q before)
