-- ===== src/Sdk/Delivery/Shutdown.antt =====
-- When the channel of tasks is closed.
use durablefuture.Prelude.{
  Result-cases, subst, ◌<◌, ◌+◌, ◌≡◌, refl, ap, ◌⊎◌, inl, inr, List, [], ◌∷◌, ◌++◌, true, false,
  Result, ok, arith, length, length-append,
}
use durablefuture.Api.Tasks.{Bytes, Task}
use durablefuture.Sdk.Delivery.{
  TaskKind, Delivered, TaskToken, Receiver, initial, wait_count, handle_message, Step, Reach, add,
  consume, consume_fails, stop, close, message, pass, refuse, send_closed, cancel, read_end,
  read_done, here, next,
}

-- A receiver all of whose consumers are counted before the goroutine of `wg.Wait` runs.
abbrev pub launched : List TaskKind → Receiver
launched kinds = record (initial kinds) { unadded = []; starting = kinds }

module _ (decode : TaskKind → Bytes → Result Task) where
  -- While the context is not done the consumers are counted, and the channel is not closed.
  record Guarded (r : Receiver) : Type 0 where
    all_added : r.unadded ≡ []
    counted : (r.cancelled ≡ true) ⊎ ((0 < wait_count r) × (r.closed ≡ false))
    crash_closed : r.crashed ≡ true → r.closed ≡ true

  handle_message-Guarded :
      (kind : TaskKind) (m : Delivered) (r : Receiver)
      → Guarded r
      → Guarded (handle_message decode kind m r)
  unfolding handle_message
  handle_message-Guarded kind m r g = elim (Result-cases (decode kind m.bytes)) [
    | inl (t, e) ↦
        rw (e, handle_message)
          (record { all_added = g.all_added; counted = g.counted; crash_closed = g.crash_closed })
    | inr (x, e) ↦
        rw (e, handle_message)
          (record { all_added = g.all_added; counted = g.counted; crash_closed = g.crash_closed })
  ]

  length-middle {ℓ} :
      {A : Type ℓ} (xs front back : List A) (x : A)
      → xs ≡ front ++ x ∷ back
      → length xs ≡ 1 + length (front ++ back)
  length-middle xs front back x e =
      omega (arith, ap length e, length-append front (x ∷ back), length-append front back)

  Step-Guarded : {r s : Receiver} → Step decode r s → r.crashed ≡ false → Guarded r → Guarded s
  Step-Guarded (message r front back kind m e of) live g = handle_message-Guarded kind m r g
  Step-Guarded (add r kind rest e) live g =
      let none_left = g.all_added in ground (arith, e, none_left)
  Step-Guarded (consume r front back kind e) live g = record {
    all_added = g.all_added;
    counted = elim g.counted [
      | inl c ↦ inl c
      | inr w ↦ inr (omega (arith, w.0, length-middle r.starting front back kind e), w.1)
    ];
    crash_closed = g.crash_closed;
  }
  Step-Guarded (stop r front back kind e c) live g = record {
    all_added = g.all_added;
    counted = inl c;
    crash_closed = g.crash_closed;
  }
  Step-Guarded (close r e unclosed) live g = record {
    all_added = g.all_added;
    counted = elim g.counted [ inl c ↦ inl c | inr w ↦ absurd (omega (arith, w.0, e)) ];
    crash_closed = λ h. refl;
  }
  Step-Guarded (pass r front back t e reading unclosed) live g = record {
    all_added = g.all_added;
    counted = g.counted;
    crash_closed = g.crash_closed;
  }
  Step-Guarded (refuse r front back t e c) live g = record {
    all_added = g.all_added;
    counted = g.counted;
    crash_closed = g.crash_closed;
  }
  Step-Guarded (send_closed r front back t e c) live g = record {
    all_added = g.all_added;
    counted = g.counted;
    crash_closed = λ h. c;
  }
  Step-Guarded (consume_fails r front back kind e) live g = record {
    all_added = g.all_added;
    counted = inl refl;
    crash_closed = g.crash_closed;
  }
  Step-Guarded (cancel r) live g = record {
    all_added = g.all_added;
    counted = inl refl;
    crash_closed = g.crash_closed;
  }
  Step-Guarded (read_end r c) live g = record {
    all_added = g.all_added;
    counted = inl refl;
    crash_closed = g.crash_closed;
  }
  Step-Guarded (read_done r c) live g = record {
    all_added = g.all_added;
    counted = inl refl;
    crash_closed = g.crash_closed;
  }

  launched-Guarded : (kind : TaskKind) (kinds : List TaskKind) → Guarded (launched (kind ∷ kinds))
  launched-Guarded kind kinds = record {
    all_added = refl;
    counted = inr (omega arith, refl);
    crash_closed = λ h. ground (arith, h);
  }

  Reach-Guarded :
      (kind : TaskKind) (kinds : List TaskKind) (r : Receiver)
      → Reach decode (launched (kind ∷ kinds)) r
      → Guarded r
  Reach-Guarded kind kinds r here = launched-Guarded kind kinds
  Reach-Guarded kind kinds r (next {r = q} before live step) =
      Step-Guarded step live (Reach-Guarded kind kinds q before)

  -- If every consumer, of which there is at least one, is counted before `wg.Wait` runs, then the
  -- channel is closed only behind the end of the context, and so nothing panics on a closed channel
  -- before it.
  pub launched-closes_late :
      (kind : TaskKind) (kinds : List TaskKind) (r : Receiver)
      → Reach decode (launched (kind ∷ kinds)) r
      → (r.closed ≡ true) ⊎ (r.crashed ≡ true)
      → r.cancelled ≡ true
  launched-closes_late kind kinds r path over =
      let g = Reach-Guarded kind kinds r path in
      elim g.counted [
        | inl c ↦ c
        | inr w ↦ elim over [
          | inl e ↦ ground (arith, w.1, e)
          | inr e ↦ let c = g.crash_closed e in ground (arith, w.1, c)
        ]
      ]

  -- From the state in which the code starts its goroutines, where the one of `wg.Wait` may run before
  -- the loop has counted a consumer, a panic can be reached while no context is done: the channel is
  -- closed at once, and the handler of the first message that decodes sends on it.
  pub initial-closes_early :
      (kind : TaskKind) (kinds : List TaskKind) (m : Delivered) (t : Task)
      → m.stream ≡ kind
      → decode kind m.bytes ≡ ok t
      → (r : Receiver) × Reach decode (initial (kind ∷ kinds)) r
        × (r.crashed ≡ true)
        × (r.cancelled ≡ false)
  unfolding handle_message
  initial-closes_early kind kinds m t of e =
      let r0 = initial (kind ∷ kinds) in
      let r1 = record r0 { closed = true } in
      let r2 = record r1 { unadded = kinds; starting = kind ∷ [] } in
      let r3 = record r2 { starting = []; consuming = kind ∷ [] } in
      let token : TaskToken = record { task = t; msg = m } in
      let r4 = record r3 { fetched = m ∷ []; blocked = token ∷ [] } in
      let r5 = record r4 { crashed = true } in
      let closed_first = next here refl (close r0 refl refl) in
      let added = next closed_first refl (add r1 kind kinds refl) in
      let consuming = next added refl (consume r2 [] [] kind refl) in
      let handled : handle_message decode kind m r3 ≡ r4 = rw (e, handle_message) refl in
      let came = subst (Step decode r3) handled (message r3 [] [] kind m refl of) in
      (r5, next (next consuming refl came) refl (send_closed r4 [] [] token refl refl), refl, refl)
