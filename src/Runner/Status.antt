-- ===== src/Runner/Status.antt =====
-- What the store says of a run when it is over.
use comfyui_runpod_agentic_n.Base.{
  String, Bool, true, false, Option, none, some, List, ◌∷◌, ◌≡◌, refl, ◌∙◌, eq_refl, ◌⊎◌, inl, inr,
}
use comfyui_runpod_agentic_n.Base.Result.{Error, Result, ok, err}
use comfyui_runpod_agentic_n.Specs.{RunMode}
use comfyui_runpod_agentic_n.Store.Rows.{Tables, Payload, RunRow, ResourceRow}
use comfyui_runpod_agentic_n.Store.Operations.{record_run, get_run, list_resources}
use comfyui_runpod_agentic_n.Store.Kept.{add_event-runs}
use comfyui_runpod_agentic_n.Store.Upserts.{get_run-record_run, recorded_run}
use comfyui_runpod_agentic_n.Planner.Plan.{DeploymentPlan}
use comfyui_runpod_agentic_n.Remote.Outside.{Call, Outside}
use comfyui_runpod_agentic_n.Remote.Exec.{
  World, Outcome, Exec, returned, raised, unfinished, pure, raise, read, attempt, event, stored,
  continue, handle, progress_step, ◌>>=◌,
}
use comfyui_runpod_agentic_n.Remote.Relates.{
  Relation, IsPreorder, Relates, bind-Relates, attempt-Relates, if-Relates, each-Relates,
  event-Relates,
}
use comfyui_runpod_agentic_n.Runner.Agent.{Texts}
use comfyui_runpod_agentic_n.Runner.Lifecycle.{end_pod, clean_up, cleanup_created, is_created}
use comfyui_runpod_agentic_n.Runner.Run.{
  Applied, RunResult, OnError, RunRequest, mode_text, record_status, attempt_mode, clean, recover,
  guarded,
}

-- The runs are the same.
abbrev SameRuns : Relation
SameRuns u v = v.tables.runs ≡ u.tables.runs

same_runs : IsPreorder SameRuns
same_runs = record { stays = λ w. refl; joins = λ u v w h k. k ∙ h }

event-SameRuns :
    (o : Outside) (run_id event_type message : String) (resource_id : Option String)
    (payload : Payload)
    → Relates SameRuns (event o run_id event_type message resource_id payload)
event-SameRuns o run_id event_type message resource_id payload =
    event-Relates SameRuns same_runs o run_id event_type message resource_id payload (λ w. refl)
      (λ w. refl)
      (λ w id now t. add_event-runs id now run_id event_type message resource_id payload w.tables t)

end_pod-SameRuns :
    (o : Outside) (b : Bool) (pod_id : String) → Relates SameRuns (end_pod o b pod_id)
end_pod-SameRuns o true pod_id w = refl
end_pod-SameRuns o false pod_id w = refl

cleanup_created-SameRuns :
    (o : Outside) (plan : DeploymentPlan) (b : Bool) → Relates SameRuns (cleanup_created o plan b)
unfolding cleanup_created clean_up
cleanup_created-SameRuns o plan b =
    bind-Relates SameRuns same_runs (read list_resources) _ (λ w. refl)
      λ rows. each-Relates SameRuns same_runs _ rows λ row.
        if-Relates SameRuns same_runs (is_created plan.run_id row) _ _
          (attempt-Relates SameRuns same_runs _ _ (end_pod-SameRuns o b _)
            (λ e. event-SameRuns o plan.run_id _ _ _ _))
          (λ w. refl)

-- The run is in the store, with this status.
pub record HasStatus (run_id status : String) (t : Tables) : Type 0 where
  pub row : RunRow
  pub found : get_run run_id t ≡ some row
  pub said : row.status ≡ status

same-HasStatus :
    (run_id status : String) (t u : Tables)
    → u.runs ≡ t.runs
    → HasStatus run_id status t
    → HasStatus run_id status u
unfolding get_run
same-HasStatus run_id status t u e h = record { row = h.row; found = rw e h.found; said = h.said }

record_run-HasStatus :
    (now run_id workflow_hash deployment_hash mode status : String) (prompt_id : Option String)
    (t : Tables)
    → HasStatus run_id status
        (record_run now run_id workflow_hash deployment_hash mode status prompt_id t)
record_run-HasStatus now run_id workflow_hash deployment_hash mode status prompt_id t = record {
  row =
      recorded_run now run_id workflow_hash deployment_hash mode status prompt_id
        (get_run run_id t);
  found =
      get_run-record_run now run_id workflow_hash deployment_hash mode status prompt_id t run_id
      ∙ rw (eq_refl run_id) refl;
  said =
      elim (get_run run_id t)
        as (λ o.
          (recorded_run now run_id workflow_hash deployment_hash mode status prompt_id o).status
          ≡ status) [ none ↦ refl | some old ↦ refl ];
}

module _ (o : Outside) (texts : Texts) where
  clean-SameRuns : (e : OnError) (plan : DeploymentPlan) → Relates SameRuns (clean o texts e plan)
  clean-SameRuns OnError.leave_running plan = λ w. refl
  clean-SameRuns OnError.stop_created plan = cleanup_created-SameRuns o plan false
  clean-SameRuns OnError.terminate_created plan = cleanup_created-SameRuns o plan true

  -- Once a status is recorded, it stays if what follows leaves the runs alone.
  record_status-HasStatus :
      {A : Type 0} (plan : DeploymentPlan) (mode : RunMode) (status : String) (m : Exec A)
      (w : World)
      → Relates SameRuns m
      → HasStatus plan.run_id status
          ((record_status o texts plan mode status >>= λ _. m) w).1.tables
  unfolding record_status ◌>>=◌
  record_status-HasStatus plan mode status m w same =
      let history = Call.read_now ∷ w.history in
      let v : World = record {
        tables =
            record_run (o.text history) plan.run_id plan.workflow_hash plan.deployment_hash
              (mode_text mode) status none w.tables;
        history = history;
      } in
      same-HasStatus plan.run_id status v.tables (m v).1.tables (same v) (
        record_run-HasStatus (o.text history) plan.run_id plan.workflow_hash plan.deployment_hash
          (mode_text mode) status none w.tables)

-- What is recorded of a run at the end of its `try` statement: `tried` is how the body of the statement
-- ended. An exception that leaves no `failed` is that of the insertion of the error's event.
abbrev pub IsRecorded :
    Outside → String → Outcome RunResult × World → Outcome RunResult × World → Type 0
IsRecorded o run_id tried (returned (RunResult.applied r), w) =
    HasStatus run_id "completed" w.tables
IsRecorded o run_id tried (returned (RunResult.ended s rows), w) = Unit
IsRecorded o run_id tried (raised e, w) =
    (HasStatus run_id "failed" w.tables)
    ⊎ ((x : Error) × (v : World) × (tried ≡ (raised x, v))
        × (event o run_id "error" x.message none Payload.without v ≡ (raised e, w)))
IsRecorded o run_id tried (unfinished, w) = Unit

-- An event is always done or refused.
IsEvent : Outcome (Unit {0}) × World → Type 0
IsEvent (returned a, w) = Unit
IsEvent (raised e, w) = Unit
IsEvent (unfinished, w) = ⊥

stored-IsEvent : (w : World) (r : Result Tables) → IsEvent (stored w r)
unfolding IsEvent
stored-IsEvent w (ok t) = tt
stored-IsEvent w (err e) = tt

event-IsEvent :
    (o : Outside) (run_id event_type message : String) (resource_id : Option String)
    (payload : Payload) (w : World)
    → IsEvent (event o run_id event_type message resource_id payload w)
unfolding event ◌>>=◌
event-IsEvent o run_id event_type message resource_id payload w = stored-IsEvent _ _

module _ (o : Outside) (texts : Texts) (request : RunRequest) (plan : DeploymentPlan) where
  abbrev inserted : Error → World → Outcome (Unit {0}) × World
  inserted x v = event o plan.run_id "error" x.message none Payload.without v

  abbrev Recorded : Error → World → Outcome RunResult × World → Type 0
  Recorded x v = IsRecorded o plan.run_id (raised x, v)

  continue-IsRecorded :
      (x : Error) (v : World) (r : Outcome (Unit {0}) × World) (m : Exec RunResult)
      → IsEvent r
      → inserted x v ≡ r
      → ((w : World) → Recorded x v (m w))
      → Recorded x v (continue r (λ _. m))
  unfolding IsEvent
  continue-IsRecorded x v (returned a, w) m h e k = k w
  continue-IsRecorded x v (raised f, w) m h e k = inr (x, v, refl, e)
  continue-IsRecorded x v (unfinished, w) m h e k = absurd h

  raise-IsRecorded :
      (x : Error) (v : World) (r : Outcome (Unit {0}) × World)
      → HasStatus plan.run_id "failed" r.1.tables
      → Recorded x v (continue r (λ _. raise x))
  raise-IsRecorded x v (returned a, w) h = inl h
  raise-IsRecorded x v (raised f, w) h = inl h
  raise-IsRecorded x v (unfinished, w) h = tt

  recover-IsRecorded : (x : Error) (v : World) → Recorded x v (recover o texts request plan x v)
  unfolding recover record_status ◌>>=◌
  recover-IsRecorded x v =
      continue-IsRecorded x v (inserted x v) _
        (event-IsEvent o plan.run_id "error" x.message none Payload.without v) refl
        λ w. raise-IsRecorded x v _ (
          record_status-HasStatus o texts plan request.mode "failed"
            (clean o texts request.on_error plan) w (clean-SameRuns o texts request.on_error plan))

  -- What is recorded if there is a result.
  IsResult : Outcome RunResult × World → Type 0
  IsResult (returned a, w) = IsRecorded o plan.run_id (returned a, w) (returned a, w)
  IsResult (raised e, w) = Unit
  IsResult (unfinished, w) = Unit

  applied-IsResult :
      {A : Type 0} (r : Outcome A × World) (f : A → Applied)
      → IsResult (
          continue r (λ a. record_status o texts plan request.mode "completed" >>= λ _.
          progress_step o "completed" >>= λ _. pure (RunResult.applied (f a))))
  unfolding IsResult record_status ◌>>=◌
  applied-IsResult (returned a, w) f =
      record_status-HasStatus o texts plan request.mode "completed" (progress_step o "completed") w
        (λ v. refl)
  applied-IsResult (raised e, w) f = tt
  applied-IsResult (unfinished, w) f = tt

  ended-IsResult :
      {A : Type 0} (r : Outcome A × World) (s : String) (f : A → List ResourceRow)
      → IsResult (continue r (λ a. pure (RunResult.ended s (f a))))
  unfolding IsResult
  ended-IsResult (returned a, w) s f = tt
  ended-IsResult (raised e, w) s f = tt
  ended-IsResult (unfinished, w) s f = tt

  attempt_mode-IsResult :
      (mode : RunMode) (w : World) → IsResult (attempt_mode o texts mode request plan w)
  unfolding attempt_mode ◌>>=◌
  attempt_mode-IsResult RunMode.stop w = ended-IsResult _ "stop" (λ rows. rows)
  attempt_mode-IsResult RunMode.terminate w = ended-IsResult _ "terminate" (λ rows. rows)
  attempt_mode-IsResult RunMode.plan w = applied-IsResult _ (λ r. r)
  attempt_mode-IsResult RunMode.apply w = applied-IsResult _ (λ r. r)
  attempt_mode-IsResult RunMode.apply_and_wait w = applied-IsResult _ (λ r. r)

  handle-IsRecorded :
      (r : Outcome RunResult × World)
      → IsResult r
      → IsRecorded o plan.run_id r (handle r (recover o texts request plan))
  unfolding IsResult
  handle-IsRecorded (returned (RunResult.applied a), w) h = h
  handle-IsRecorded (returned (RunResult.ended s rows), w) h = tt
  handle-IsRecorded (raised x, v) h = recover-IsRecorded x v
  handle-IsRecorded (unfinished, w) h = tt

-- When the `try` statement of a run is over, the store has the run: as completed if it returns an applied
-- plan, and as failed if it raises, unless the body of the statement had raised and it was the insertion
-- of that error's event that raised then. So it is whatever the mode, and whatever the clean-up does.
pub guarded-IsRecorded :
    (o : Outside) (texts : Texts) (request : RunRequest) (plan : DeploymentPlan) (w : World)
    → IsRecorded o plan.run_id
        (attempt_mode o texts request.mode request plan w)
        (guarded o texts request plan w)
unfolding guarded attempt
guarded-IsRecorded o texts request plan w =
    handle-IsRecorded o texts request plan _
      (attempt_mode-IsResult o texts request plan request.mode w)
