-- ===== src/Sdk/Histories/Saves.antt =====
-- Reads and saves of a stored history: `repo.Get` and `repo.Save` of sdk/internal/worker_runtime.go.
use durablefuture.Prelude.{
  ℕ, ◌≡◌, refl, sym, ap, subst, ◌∙◌, String, List, [], ◌∷◌, ◌++◌, Option, none, some, ◌⊎◌, inl, inr,
  Result-cases, ok-injective, ok, arith, Each, Each-append, get_elem?, get_elem?-append,
}
use durablefuture.Api.Values.{Any}
use durablefuture.Api.Events.{WorkflowEvent, workflow_completed, workflow_failed}
use durablefuture.Sdk.State.{ActivityReplayRecord}
use durablefuture.Sdk.State.Replays.{completions, completions-append}
use durablefuture.Sdk.Program.{Ran, returned, panicked}
use durablefuture.Sdk.Program.Direct.{Outcomes, wrong_options}
use durablefuture.Sdk.Worker.{workflow_panic}
use durablefuture.Sdk.Histories.{Stored, EventCodec, write, write_all, read_all, saved}

-- An event that tells of the workflow's end tells of this one, or of a context whose options have
-- another type.
abbrev pub Faithful : Ran → WorkflowEvent → Type 0
Faithful ideal (workflow_completed e) =
    (vs : List Any) × (e.result ≡ some vs) × (ideal ≡ returned vs)
Faithful ideal (workflow_failed e) =
    (m : String) × (e.error ≡ workflow_panic m) × ((ideal ≡ panicked m) ⊎ (m ≡ wrong_options))
Faithful ideal _ = Unit

-- A stored event was serialized from one that is faithful.
abbrev pub StoredFaithful : EventCodec → Ran → Stored → Type 0
StoredFaithful codec ideal r = (e : WorkflowEvent) × (write codec e ≡ ok r) × Faithful ideal e

-- The completions of a history are these outcomes.
abbrev pub Agrees : Outcomes → List WorkflowEvent → Type 0
Agrees outcomes es =
    (j : String) (n : ℕ) (r : ActivityReplayRecord)
    → get_elem? (completions j es) n ≡ some r
    → r ≡ outcomes j n

-- Every history has such outcomes: its own completions, and any where it has none.
abbrev or_nothing : Option ActivityReplayRecord → ActivityReplayRecord
or_nothing none = record { result = none; err = none }
or_nothing (some r) = r

abbrev pub outcomes_of : List WorkflowEvent → Outcomes
outcomes_of es j n = or_nothing (get_elem? (completions j es) n)

pub outcomes_of-Agrees : (es : List WorkflowEvent) → Agrees (outcomes_of es) es
outcomes_of-Agrees es j n r e = rw e refl

pub Agrees-before :
    (outcomes : Outcomes) (es es' : List WorkflowEvent)
    → Agrees outcomes (es ++ es')
    → Agrees outcomes es
Agrees-before outcomes es es' agree j n r e = agree j n r (
    ap (λ rs. get_elem? rs n) (completions-append j es es')
    ∙ get_elem?-append (completions j es) (completions j es') n r e)

module _ (codec : EventCodec) where
  read_all-append :
      (rs rs' : List Stored) (es : List WorkflowEvent)
      → read_all codec (rs ++ rs') ≡ ok es
      → (before after : List WorkflowEvent) × (read_all codec rs ≡ ok before)
        × (es ≡ before ++ after)
  unfolding read_all
  read_all-append [] rs' es h = ([], es, refl, refl)
  read_all-append (r ∷ rs) rs' es h = elim (Result-cases (codec.read r.name r.payload)) [
    | inr (m, e) ↦ let p = rw e at h in ground (arith, p)
    | inl (event, e) ↦ elim (Result-cases (read_all codec (rs ++ rs'))) [
      | inr (m, e') ↦ let p = rw (e, e') at h in ground (arith, p)
      | inl (more, e') ↦
          let (before, after, hb, ha) = read_all-append rs rs' more e' in
          (
            event ∷ before,
            after,
            rw (e, hb) refl,
            sym (ok-injective (rw (e, e') at h)) ∙ ap (λ xs. event ∷ xs) ha,
          )
    ]
  ]

  write_all-StoredFaithful :
      (ideal : Ran) (es : List WorkflowEvent) (rs : List Stored)
      → write_all codec es ≡ ok rs
      → Each (Faithful ideal) es
      → Each (StoredFaithful codec ideal) rs
  unfolding write_all
  write_all-StoredFaithful ideal [] rs h f =
      subst (Each (StoredFaithful codec ideal)) (ok-injective h) tt
  write_all-StoredFaithful ideal (e ∷ es) rs h f = elim (Result-cases (write codec e)) [
    | inr (m, w) ↦ let p = rw w at h in ground (arith, p)
    | inl (r, w) ↦ elim (Result-cases (write_all codec es)) [
      | inr (m, w') ↦ let p = rw (w, w') at h in ground (arith, p)
      | inl (more, w') ↦
          subst (Each (StoredFaithful codec ideal)) (ok-injective (rw (w, w') at h))
            ((e, w, f.0), write_all-StoredFaithful ideal es more w' f.1)
    ]
  ]

  -- Saving keeps what is stored faithful, if what a task records of a history that agrees is.
  pub saved-StoredFaithful :
      (ideal : Ran) (outcomes : Outcomes) (made : List WorkflowEvent → List WorkflowEvent)
      (rs : List Stored)
      → ((es : List WorkflowEvent) → Agrees outcomes es → Each (Faithful ideal) (made es))
      → ((es : List WorkflowEvent)
          → read_all codec rs ≡ ok es
          → Agrees outcomes es
          → Each (StoredFaithful codec ideal) rs)
      → (es : List WorkflowEvent) → read_all codec (saved codec made rs) ≡ ok es
      → Agrees outcomes es
      → Each (StoredFaithful codec ideal) (saved codec made rs)
  unfolding saved
  saved-StoredFaithful ideal outcomes made rs faithful kept es h agree =
      elim (Result-cases (read_all codec rs)) [
        | inr (m, e) ↦ rw (e, saved) (kept es (rw (e, saved) at h) agree)
        | inl (before, e) ↦ elim (Result-cases (write_all codec (made before))) [
          | inr (m, w) ↦ rw (e, saved, w) (kept es (rw (e, saved, w) at h) agree)
          | inl (new, w) ↦
              let (first, after, hf, split) = read_all-append rs new es (rw (e, saved, w) at h) in
              let same : first ≡ before = ok-injective (sym hf ∙ e) in
              let agree_first =
                Agrees-before outcomes first after (subst (Agrees outcomes) split agree) in
              rw (e, saved, w)
                (Each-append (StoredFaithful codec ideal) rs new (kept first hf agree_first) (
                  write_all-StoredFaithful ideal (made before) new w
                    (faithful before (subst (Agrees outcomes) same agree_first))))
        ]
      ]
