-- ===== src/Sdk/State/Same.antt =====
-- States that agree on all that a run can tell apart, and events that keep them so.
use durablefuture.Prelude.{String, ◌≡◌, refl, ◌∙◌, List, [], ◌∷◌, ◌++◌, append-nil, arith}
use durablefuture.Api.Events.{
  WorkflowEvent, workflow_started, activity_scheduled, activity_started, activity_completed,
  activity_failed, activity_retried, workflow_failed, workflow_completed, event_id, event_workflow,
}
use durablefuture.Sdk.State.{
  ActivityReplayRecord, WorkflowState, identify, push_record, applied, load_from,
}
use durablefuture.Sdk.State.Replays.{
  replay_of, completion, SameBase, ensure_activity_replay-SameBase, replay_of-applied,
  uncommitted-applied,
}

-- States with the same base and the same entry for each function: what a run can tell apart.
pub record SameReplays (c d : WorkflowState) : Type 0 where
  pub base : SameBase c d
  pub replays : (j : String) → replay_of j d ≡ replay_of j c

identity-push_record :
    (k : String) (r : ActivityReplayRecord) (c : WorkflowState)
    → ((push_record k r c).id ≡ c.id)
      × ((push_record k r c).workflow_function_name ≡ c.workflow_function_name)
unfolding push_record
identity-push_record k r c = let s = ensure_activity_replay-SameBase k c in (s.id, s.name)

-- An event gives the state its own identity.
pub identity-applied :
    (c : WorkflowState) (e : WorkflowEvent)
    → ((applied c e).id ≡ event_id e) × ((applied c e).workflow_function_name ≡ event_workflow e)
unfolding applied
identity-applied c (activity_completed e) =
    identity-push_record e.activity_fn_name _ (identify e.id e.workflow_fn_name c)
identity-applied c (activity_failed e) =
    identity-push_record e.activity_fn_name _ (identify e.id e.workflow_fn_name c)
identity-applied c (workflow_started e) = (refl, refl)
identity-applied c (activity_scheduled e) = (refl, refl)
identity-applied c (activity_started e) = (refl, refl)
identity-applied c (activity_retried e) = (refl, refl)
identity-applied c (workflow_failed e) = (refl, refl)
identity-applied c (workflow_completed e) = (refl, refl)

SameReplays-applied :
    {c d : WorkflowState} (e : WorkflowEvent)
    → SameReplays c d
    → SameReplays (applied c e) (applied d e)
SameReplays-applied {c} {d} e s = record {
  base = record {
    id = ground (arith, identity-applied c e, identity-applied d e);
    name = ground (arith, identity-applied c e, identity-applied d e);
    uncommitted =
        ground (arith, uncommitted-applied c e, uncommitted-applied d e, s.base.uncommitted);
  };
  replays = λ j. ground (arith, replay_of-applied j c e, replay_of-applied j d e, s.replays j);
}

pub SameReplays-load_from :
    {c d : WorkflowState} (es : List WorkflowEvent)
    → SameReplays c d
    → SameReplays (load_from c es) (load_from d es)
unfolding load_from
SameReplays-load_from {c} {d} [] s = s
SameReplays-load_from {c} {d} (e ∷ es) s =
    SameReplays-load_from {c = applied c e} {d = applied d e} es (SameReplays-applied e s)

-- An event that carries the identity of the state and completes nothing changes nothing.
pub SameReplays-applied_self :
    (c : WorkflowState) (e : WorkflowEvent)
    → event_id e ≡ c.id
    → event_workflow e ≡ c.workflow_function_name
    → ((j : String) → completion j e ≡ [])
    → SameReplays c (applied c e)
SameReplays-applied_self c e p q none_done = record {
  base = record {
    id = (identity-applied c e).0 ∙ p;
    name = (identity-applied c e).1 ∙ q;
    uncommitted = uncommitted-applied c e;
  };
  replays =
      λ j. ground (arith, replay_of-applied j c e, none_done j, append-nil (replay_of j c).history);
}

pub load_from-append :
    (c : WorkflowState) (xs ys : List WorkflowEvent)
    → load_from c (xs ++ ys) ≡ load_from (load_from c xs) ys
unfolding load_from
load_from-append c [] ys = refl
load_from-append c (x ∷ xs) ys = load_from-append (applied c x) xs ys
