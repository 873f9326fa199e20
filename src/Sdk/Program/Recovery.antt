-- ===== src/Sdk/Program/Recovery.antt =====
-- A workflow that has returned over a history returns the same over any longer one, on any worker.
use durablefuture.Prelude.{
  ℕ, zero, suc, ◌≡◌, refl, sym, ap, ◌∙◌, String, List, [], ◌∷◌, ◌++◌, Option, none, some,
  Option-cases, ◌⊎◌, inl, inr, Result, ok, err, arith, get_elem?, get_elem?-append, eq_iff,
}
use durablefuture.Api.Values.{Any}
use durablefuture.Api.Events.{WorkflowEvent}
use durablefuture.Sdk.State.{ActivityReplayRecord, WorkflowState, load}
use durablefuture.Sdk.State.Replays.{replay_of, replay_of-load, completions-append, completions}
use durablefuture.Sdk.Future.{BinarySerde, Blocking, Signal, value, blocking_future, panic, get}
use durablefuture.Sdk.Activity.{
  Runtime, RecordsEvents, OptionsValue, unset, options, mistyped, pending, resolved,
  execute_activity,
}
use durablefuture.Sdk.Activity.Effects.{
  Called, answer, next_record, execute_activity-Called, execute_activity-err,
}
use durablefuture.Sdk.Program.{Program, returns, panics, execute, await, Ran, returned, resume, run}

-- As many calls were made from `d` as from `c`, and its history of each function goes on from the
-- one of `c`.
pub record Extends (c d : WorkflowState) : Type 0 where
  pub consumed : (j : String) → (replay_of j d).consumed ≡ (replay_of j c).consumed
  pub history :
      (j : String)
      → (ys : List ActivityReplayRecord) × ((replay_of j d).history ≡ (replay_of j c).history ++ ys)

abbrev pub Settles : Blocking → Blocking → Type 0
Settles f g = (f ≡ g) ⊎ (f ≡ pending)

-- The futures of the second run are those of the first, of which some pending ones may be resolved.
abbrev pub Ahead : List Blocking → List Blocking → Type 0
Ahead [] [] = Unit
Ahead [] (g ∷ gs) = ⊥
Ahead (f ∷ fs) [] = ⊥
Ahead (f ∷ fs) (g ∷ gs) = Settles f g × Ahead fs gs

pub Ahead-snoc :
    (fs gs : List Blocking) (f g : Blocking)
    → Ahead fs gs
    → Settles f g
    → Ahead (fs ++ f ∷ []) (gs ++ g ∷ [])
Ahead-snoc [] [] f g a s = (s, tt)
Ahead-snoc [] (h ∷ gs) f g a s = absurd a
Ahead-snoc (h ∷ fs) [] f g a s = absurd a
Ahead-snoc (h ∷ fs) (h' ∷ gs) f g a s = (a.0, Ahead-snoc fs gs f g a.1 s)

pub Ahead-get_elem? :
    (fs gs : List Blocking) (i : ℕ) (f : Blocking)
    → Ahead fs gs
    → get_elem? fs i ≡ some f
    → (g : Blocking) × (get_elem? gs i ≡ some g) × Settles f g
Ahead-get_elem? [] gs i f a e = cc
Ahead-get_elem? (h ∷ fs) [] i f a e = absurd a
Ahead-get_elem? (h ∷ fs) (h' ∷ gs) zero f a e = (h', refl, ground (arith, a.0))
Ahead-get_elem? (h ∷ fs) (h' ∷ gs) (suc i) f a e = Ahead-get_elem? fs gs i f a.1 e

pub next_record-Extends :
    (fn_name : String) (c d : WorkflowState) (r : ActivityReplayRecord)
    → Extends c d
    → next_record fn_name c ≡ some r
    → next_record fn_name d ≡ some r
unfolding next_record
next_record-Extends fn_name c d r x e =
    let (ys, p) = x.history fn_name in
    rw (p, x.consumed fn_name) (get_elem?-append (replay_of fn_name c).history ys _ r e)

-- Where a call returns a future from `c`, it returns one from `d` that is as far or further.
answer-Settles :
    (o : OptionsValue) (r r' : Option ActivityReplayRecord) (f : Blocking)
    → ((x : ActivityReplayRecord) → r ≡ some x → r' ≡ some x)
    → answer o r ≡ value f
    → (g : Blocking) × (answer o r' ≡ value g) × Settles f g
answer-Settles o (some x) r' f h e = (resolved x, ap (answer o) (h x refl), inl (cc))
answer-Settles unset none none f h e = (pending, refl, inl (cc))
answer-Settles unset none (some x) f h e = (resolved x, refl, inr (cc))
answer-Settles (options p) none none f h e = (pending, refl, inl (cc))
answer-Settles (options p) none (some x) f h e = (resolved x, refl, inr (cc))
answer-Settles mistyped none r' f h e = cc

module _ {rt rt' : Runtime} {o : OptionsValue} {fn_name : String} {args : List Any}
    {c d : WorkflowState} {out out' : Signal Blocking × WorkflowState}
    (called : Called rt o fn_name args c out) (called' : Called rt' o fn_name args d out')
    (x : Extends c d) where
  Called-Settles :
      (f : Blocking) → out.0 ≡ value f → (g : Blocking) × (out'.0 ≡ value g) × Settles f g
  Called-Settles f e =
      let (g, p, s) =
        answer-Settles o (next_record fn_name c) (next_record fn_name d) f
          (λ r. next_record-Extends fn_name c d r x) (sym called.answered ∙ e) in
      (g, called'.answered ∙ p, s)

  pub Called-Extends : Extends out.1 out'.1
  Called-Extends = record {
    consumed =
        λ j. ground (arith, called.replays j, called'.replays j, x.consumed j, x.consumed fn_name);
    history = λ j. (
      (x.history j).0,
      ground (arith, called.replays j, called'.replays j, (x.history j).1, eq_iff fn_name j),
    );
  }

resume-eq_returned {ℓ} :
    {A : Type ℓ} (s : Signal A) (c : WorkflowState) (k : A → Ran × WorkflowState) (vs : List Any)
    → (resume s c k).0 ≡ returned vs
    → (a : A) × (s ≡ value a) × ((k a).0 ≡ returned vs)
resume-eq_returned (value a) c k vs h = (a, refl, h)
resume-eq_returned blocking_future c k vs h = cc
resume-eq_returned (panic m) c k vs h = cc

-- A `Get` that returns does so on the same future, resolved, in the second run.
get-Settles :
    (format : Any → String) (converter : Option BinarySerde) (f g : Blocking)
    (target : Option String) (r : Result (Option Any))
    → Settles f g
    → get format converter f target ≡ value r
    → get format converter g target ≡ value r
unfolding get
get-Settles format converter f g target r (inl p) h = rw (← p) h
get-Settles format converter f g target r (inr p) h =
    cc (h, ap (λ x. get format converter x target) p)

module _ (rt : Runtime) (fs : List Blocking) (i : ℕ) (target : Option String)
    (k : Result (Option Any) → Program) (c : WorkflowState) where
  pub run-await :
      (f : Blocking) (r : Result (Option Any))
      → get_elem? fs i ≡ some f
      → get rt.format rt.converter f target ≡ value r
      → run rt fs (await i target k) c ≡ run rt fs (k r) c
  unfolding run
  run-await f r e p = rw (e, run) (rw p)

  run-await-eq_returned :
      (vs : List Any)
      → (run rt fs (await i target k) c).0 ≡ returned vs
      → (f : Blocking) × (r : Result (Option Any)) × (get_elem? fs i ≡ some f)
        × (get rt.format rt.converter f target ≡ value r)
        × ((run rt fs (k r) c).0 ≡ returned vs)
  unfolding run
  run-await-eq_returned vs h = elim (Option-cases (get_elem? fs i)) [
    | inl e ↦ cc (rw (e, run) at h)
    | inr (f, e) ↦
        let (r, p, rest) =
          resume-eq_returned (get rt.format rt.converter f target) c (λ r. run rt fs (k r) c) vs
            (rw (e, run) at h) in
        (f, r, e, p, rest)
  ]

-- A longer history of the same workflow extends the state that a shorter one loads.
pub load-Extends : (es es' : List WorkflowEvent) → Extends (load es) (load (es ++ es'))
load-Extends es es' = record {
  consumed = λ j. ground (arith, replay_of-load j es, replay_of-load j (es ++ es'));
  history = λ j. (
    completions j es',
    ground (arith, replay_of-load j es, replay_of-load j (es ++ es'), completions-append j es es'),
  );
}

-- Two workers whose contexts have the same converter; their clocks may differ.
pub record SameCodec (rt rt' : Runtime) : Type 0 where
  pub converter : rt'.converter ≡ rt.converter
  pub format : rt'.format ≡ rt.format

module _ {rt rt' : Runtime} (law : RecordsEvents rt) (law' : RecordsEvents rt')
    (same : SameCodec rt rt') where
  run-Extends :
      (fs gs : List Blocking) (p : Program) (c d : WorkflowState) (vs : List Any)
      → Ahead fs gs
      → Extends c d
      → (run rt fs p c).0 ≡ returned vs
      → (run rt' gs p d).0 ≡ returned vs
  unfolding run
  run-Extends fs gs (returns ws) c d vs a x h = h
  run-Extends fs gs (panics m) c d vs a x h = cc
  run-Extends fs gs (execute o (err m) args p) c d vs a x h = cc (
    h,
    ap (λ s. (resume s.0 s.1 (λ f. run rt (fs ++ f ∷ []) p s.1)).0)
        (execute_activity-err rt o m args c),
  )
  run-Extends fs gs (execute o (ok fn_name) args p) c d vs a x h =
      let called = execute_activity-Called law fn_name args c o in
      let called' = execute_activity-Called law' fn_name args d o in
      let out = execute_activity rt o (ok fn_name) args c in
      let out' = execute_activity rt' o (ok fn_name) args d in
      let (f, e, rest) = resume-eq_returned out.0 out.1 (λ f. run rt (fs ++ f ∷ []) p out.1) vs h in
      let (g, e', s) = Called-Settles called called' x f e in
      rw e' (
        run-Extends (fs ++ f ∷ []) (gs ++ g ∷ []) p out.1 out'.1 vs (Ahead-snoc fs gs f g a s)
          (Called-Extends called called' x) rest)
  run-Extends fs gs (await i target k) c d vs a x h =
      let (f, r, e, p, rest) = run-await-eq_returned rt fs i target k c vs h in
      let (g, e', s) = Ahead-get_elem? fs gs i f a e in
      let p' = get-Settles rt.format rt.converter f g target r s p in
      rw (run-await rt' gs i target k d g r e' (rw (same.converter, same.format) p'))
        (run-Extends fs gs (k r) c d vs a x rest)

  -- A workflow that returns over a history returns the same values over any longer history, on any
  -- worker whose context has the same converter.
  pub run-returned_stable :
      (p : Program) (es es' : List WorkflowEvent) (vs : List Any)
      → (run rt [] p (load es)).0 ≡ returned vs
      → (run rt' [] p (load (es ++ es'))).0 ≡ returned vs
  run-returned_stable p es es' vs h =
      run-Extends [] [] p (load es) (load (es ++ es')) vs tt (load-Extends es es') h
