-- ===== src/Sdk/Delivery/Drains.antt =====
-- How a receiver that is cancelled winds down.
use durablefuture.Prelude.{
  ◌≡◌, refl, ap, inl, inr, List, [], ◌∷◌, Bool-cases, true, false, Result, arith, length,
}
use durablefuture.Api.Tasks.{Bytes, Task}
use durablefuture.Sdk.Delivery.{
  TaskKind, TaskToken, Receiver, Reach, add, consume, stop, close, refuse, read_end, here, next,
}

module _ (decode : TaskKind → Bytes → Result Task) where
  abbrev pub Drained : Receiver → Type 0
  Drained r =
      (r.unadded ≡ [])
      × (r.starting ≡ [])
      × (r.consuming ≡ [])
      × (r.blocked ≡ [])
      × (r.reading ≡ false)
      × (r.closed ≡ true)
      × (r.crashed ≡ false)

  module _ (start : Receiver) where
    abbrev Drains : Type 0
    Drains = (s : Receiver) × Reach decode start s × Drained s

    -- The threads are gone: the channel is closed, if it is not yet, and the reader ends.
    end_reading :
        (r : Receiver)
        → Reach decode start r
        → r.crashed ≡ false
        → r.unadded ≡ []
        → r.starting ≡ []
        → r.consuming ≡ []
        → r.blocked ≡ []
        → Drains
    end_reading r path live u s c b = elim (Bool-cases r.closed) [
      | inl closed ↦ (
        record r { reading = false; cancelled = true },
        next path live (read_end r closed),
        (u, s, c, b, refl, closed, live),
      )
      | inr unclosed ↦
          let r' = record r { closed = true } in
          (
            record r' { reading = false; cancelled = true },
            next (next path live (close r (omega (arith, ap length s, ap length c)) unclosed)) live
                (read_end r' refl),
            (u, s, c, b, refl, refl, live),
          )
    ]

    refuse_all :
        (ts : List TaskToken) (r : Receiver)
        → Reach decode start r
        → r.crashed ≡ false
        → r.cancelled ≡ true
        → r.unadded ≡ []
        → r.starting ≡ []
        → r.consuming ≡ []
        → r.blocked ≡ ts
        → Drains
    refuse_all [] r path live stopped u s c b = end_reading r path live u s c b
    refuse_all (t ∷ ts) r path live stopped u s c b =
        refuse_all ts (record r { blocked = ts; refused = t ∷ r.refused })
          (next path live (refuse r [] ts t b stopped)) live stopped u s c refl

    stop_all :
        (ks : List TaskKind) (r : Receiver)
        → Reach decode start r
        → r.crashed ≡ false
        → r.cancelled ≡ true
        → r.unadded ≡ []
        → r.starting ≡ []
        → r.consuming ≡ ks
        → Drains
    stop_all [] r path live stopped u s c = refuse_all r.blocked r path live stopped u s c refl
    stop_all (k ∷ ks) r path live stopped u s c =
        stop_all ks (record r { consuming = ks }) (next path live (stop r [] ks k c stopped)) live
          stopped u s refl

    consume_all :
        (ks : List TaskKind) (r : Receiver)
        → Reach decode start r
        → r.crashed ≡ false
        → r.cancelled ≡ true
        → r.unadded ≡ []
        → r.starting ≡ ks
        → Drains
    consume_all [] r path live stopped u s = stop_all r.consuming r path live stopped u s refl
    consume_all (k ∷ ks) r path live stopped u s =
        consume_all ks (record r { starting = ks; consuming = k ∷ r.consuming })
          (next path live (consume r [] ks k s)) live stopped u refl

    add_all :
        (ks : List TaskKind) (r : Receiver)
        → Reach decode start r
        → r.crashed ≡ false
        → r.cancelled ≡ true
        → r.unadded ≡ ks
        → Drains
    add_all [] r path live stopped u = consume_all r.starting r path live stopped u refl
    add_all (k ∷ ks) r path live stopped u =
        add_all ks (record r { unadded = ks; starting = k ∷ r.starting })
          (next path live (add r k ks u)) live stopped refl

  -- From every state in which the context is done and nothing has panicked, the receiver can wind
  -- down: every consumer stops, every blocked handler returns, the channel is closed, the reader ends,
  -- and nothing panics.
  pub cancelled-drains :
      (r : Receiver)
      → r.crashed ≡ false
      → r.cancelled ≡ true
      → (s : Receiver) × Reach decode r s × Drained s
  cancelled-drains r live stopped = add_all r r.unadded r here live stopped refl
