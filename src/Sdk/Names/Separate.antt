-- ===== src/Sdk/Names/Separate.antt =====
-- The task streams of namespaces are kept apart.
use Prim.Native.String.{◌++◌, count}
use text.Mathlib.TextLemmas.{append_inj, append_assoc, length-append, append_cancel_right}
use durablefuture.Prelude.{
  ◌≡◌, ◌≢◌, refl, ap, sym, ◌∙◌, String, Bool-cases, inl, inr, arith, eq_iff, ◌==◌, if◌then◌else◌,
}
use durablefuture.Sdk.Names.{
  workflow_tasks_stream, activity_tasks_stream, workflow_task_stream_name,
  activity_task_stream_name,
}

-- What stands in front of a stream's base name.
front : String → String
front ns = if ns == "" then "" else ns ++ "_"

front-injective : (a b : String) → front a ≡ front b → a ≡ b
unfolding front
front-injective a b h = elim (Bool-cases (a == "")) [
  | inl e ↦ elim (Bool-cases (b == "")) [
    | inl e' ↦ ground (arith, eq_iff a "", eq_iff b "", e, e')
    | inr e' ↦ let p = ap count (rw (e, e') at h) in ground (arith, p, length-append b "_")
  ]
  | inr e ↦ elim (Bool-cases (b == "")) [
    | inl e' ↦ let p = ap count (rw (e, e') at h) in ground (arith, p, length-append a "_")
    | inr e' ↦ append_cancel_right a b "_" (rw (e, e') at h)
  ]
]

workflow_task_stream_name-front :
    (ns : String) → workflow_task_stream_name ns ≡ front ns ++ workflow_tasks_stream
unfolding workflow_task_stream_name front
workflow_task_stream_name-front ns = elim (Bool-cases (ns == "")) [
  | inl e ↦ rw e refl
  | inr e ↦ rw e (sym (append_assoc ns "_" workflow_tasks_stream))
]

activity_task_stream_name-front :
    (ns : String) → activity_task_stream_name ns ≡ front ns ++ activity_tasks_stream
unfolding activity_task_stream_name front
activity_task_stream_name-front ns = elim (Bool-cases (ns == "")) [
  | inl e ↦ rw e refl
  | inr e ↦ rw e (sym (append_assoc ns "_" activity_tasks_stream))
]

-- Two fronts before bases of one length.
fronts :
    (a b base base' : String)
    → count base ≡ count base'
    → front a ++ base ≡ front b ++ base'
    → (a ≡ b) × (base ≡ base')
fronts a b base base' len h =
    let same : count (front a) ≡ count (front b) = omega (
      arith,
      sym (length-append (front a) base) ∙ ap count h ∙ length-append (front b) base',
      len,
    ) in
    let (f, bases) = append_inj h same in (front-injective a b f, bases)

bases_differ : workflow_tasks_stream ≢ activity_tasks_stream
bases_differ = ground (arith, eq_iff workflow_tasks_stream activity_tasks_stream)

-- Two namespaces share no task stream, and in none do workflow tasks and activity tasks: the names
-- of streams differ whenever the namespaces do, and those for the two kinds of tasks always.
pub task_streams-separate :
    (a b : String)
    → a ≢ b
    → (workflow_task_stream_name a ≢ workflow_task_stream_name b)
      × (activity_task_stream_name a ≢ activity_task_stream_name b)
      × (workflow_task_stream_name a ≢ activity_task_stream_name b)
      × (workflow_task_stream_name a ≢ activity_task_stream_name a)
task_streams-separate a b ne =
    let w = workflow_task_stream_name-front in
    let v = activity_task_stream_name-front in
    let base = workflow_tasks_stream in
    let base' = activity_tasks_stream in
    (
      λ h. ne (fronts a b base base refl (sym (w a) ∙ h ∙ w b)).0,
      λ h. ne (fronts a b base' base' refl (sym (v a) ∙ h ∙ v b)).0,
      λ h. bases_differ (fronts a b base base' refl (sym (w a) ∙ h ∙ v b)).1,
      λ h. bases_differ (fronts a a base base' refl (sym (w a) ∙ h ∙ v a)).1,
    )
