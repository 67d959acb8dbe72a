-- ===== src/Store/Kept.antt =====
-- What no sequence of calls of the store's methods changes in a run's row.
use comfyui_runpod_agentic_n.Base.{
  String, ◌≡◌, refl, Option, none, some, arith, ℤ, ◌==◌, ◌∙◌, Bool-cases, inl, inr,
}
use comfyui_runpod_agentic_n.Base.Result.{ok}
use comfyui_runpod_agentic_n.Store.Rows.{Payload, RunRow, Tables}
use comfyui_runpod_agentic_n.Store.Table.{find}
use comfyui_runpod_agentic_n.Store.Operations.{
  record_run, record_resource, record_remote_resource, start_command, finish_command, add_event,
  increment_counter, mark_resource_status, get_run,
}
use comfyui_runpod_agentic_n.Store.Upserts.{get_run-record_run, recorded_run}
use comfyui_runpod_agentic_n.Store.Reachable.{Step, Steps}

-- The columns of a run that no method changes.
pub record IsSameRun (old new : RunRow) : Type 0 where
  pub workflow : new.workflow_hash ≡ old.workflow_hash
  pub deployment : new.deployment_hash ≡ old.deployment_hash
  pub created : new.created_at ≡ old.created_at
  pub prompt : new.prompt_id ≡ old.prompt_id

abbrev pub Kept : Option RunRow → Option RunRow → Type 0
Kept none new = Unit
Kept (some old) none = ⊥
Kept (some old) (some new) = IsSameRun old new

Kept-refl : (o : Option RunRow) → Kept o o
Kept-refl none = tt
Kept-refl (some row) = record { workflow = refl; deployment = refl; created = refl; prompt = refl }

Kept-trans : (o p q : Option RunRow) → Kept o p → Kept p q → Kept o q
Kept-trans none p q h k = tt
Kept-trans (some a) none q h k = absurd h
Kept-trans (some a) (some b) none h k = absurd k
Kept-trans (some a) (some b) (some c) h k = record {
  workflow = k.workflow ∙ h.workflow;
  deployment = k.deployment ∙ h.deployment;
  created = k.created ∙ h.created;
  prompt = k.prompt ∙ h.prompt;
}

same_runs-Kept : (t u : Tables) (k : String) → u.runs ≡ t.runs → Kept (get_run k t) (get_run k u)
unfolding get_run
same_runs-Kept t u k e = rw e (Kept-refl (find RunRow.id t.runs k))

recorded_run-Kept :
    (now run_id workflow_hash deployment_hash mode status : String) (prompt_id : Option String)
    (o : Option RunRow)
    → Kept o (some (recorded_run now run_id workflow_hash deployment_hash mode status prompt_id o))
recorded_run-Kept now run_id workflow_hash deployment_hash mode status prompt_id none = tt
recorded_run-Kept now run_id workflow_hash deployment_hash mode status prompt_id (some row) =
    record { workflow = refl; deployment = refl; created = refl; prompt = refl }

record_run-Kept :
    (now run_id workflow_hash deployment_hash mode status : String) (prompt_id : Option String)
    (t : Tables) (k : String)
    → Kept
        (get_run k t)
        (get_run k (record_run now run_id workflow_hash deployment_hash mode status prompt_id t))
record_run-Kept now run_id workflow_hash deployment_hash mode status prompt_id t k =
    rw (get_run-record_run now run_id workflow_hash deployment_hash mode status prompt_id t k)
      (elim (Bool-cases (run_id == k)) [
        | inl e ↦ rw e (
            recorded_run-Kept now run_id workflow_hash deployment_hash mode status prompt_id
              (get_run k t))
        | inr e ↦ rw e (Kept-refl (get_run k t))
      ])

start_command-runs :
    (uuid now run_id : String) (resource_id : Option String) (phase : String) (order_index : ℤ)
    (command_hash stdout_path stderr_path : String) (t u : Tables)
    → start_command uuid now run_id resource_id phase order_index command_hash stdout_path
        stderr_path t
      ≡ ok u
    → u.runs ≡ t.runs
unfolding start_command
start_command-runs uuid now run_id resource_id phase order_index command_hash stdout_path
      stderr_path t u h =
    ground arith

pub add_event-runs :
    (uuid now run_id event_type message : String) (resource_id : Option String) (payload : Payload)
    (t u : Tables)
    → add_event uuid now run_id event_type message resource_id payload t ≡ ok u
    → u.runs ≡ t.runs
unfolding add_event
add_event-runs uuid now run_id event_type message resource_id payload t u h = ground arith

Step-Kept : (t u : Tables) (k : String) → Step t u → Kept (get_run k t) (get_run k u)
unfolding record_resource record_remote_resource finish_command increment_counter
    mark_resource_status
Step-Kept t _ k (Step.runs now run_id workflow_hash deployment_hash mode status prompt_id) =
    record_run-Kept now run_id workflow_hash deployment_hash mode status prompt_id t k
Step-Kept t _ k (Step.resources now run_id resource pod status) = same_runs-Kept t _ k refl
Step-Kept t _ k (Step.remote now pod run_id) = same_runs-Kept t _ k refl
Step-Kept t u k
      (Step.started uuid now run_id resource_id phase order_index command_hash stdout_path
        stderr_path _ h) =
    same_runs-Kept t u k (
      start_command-runs uuid now run_id resource_id phase order_index command_hash stdout_path
        stderr_path t u h)
Step-Kept t _ k (Step.finished now command_id status exit_code) = same_runs-Kept t _ k refl
Step-Kept t u k (Step.event uuid now run_id event_type message resource_id payload _ h) =
    same_runs-Kept t u k
      (add_event-runs uuid now run_id event_type message resource_id payload t u h)
Step-Kept t _ k (Step.counted now run_id counter_type amount resource_id) =
    same_runs-Kept t _ k refl
Step-Kept t _ k (Step.marked now resource_id status) = same_runs-Kept t _ k refl

-- Along every sequence of calls a run that is in the table stays there, and keeps its hashes, its
-- prompt and the time of its creation.
pub Steps-Kept : (t u : Tables) (k : String) → Steps t u → Kept (get_run k t) (get_run k u)
Steps-Kept t _ k Steps.done = Kept-refl (get_run k t)
Steps-Kept t _ k (Steps.then u v steps step) =
    Kept-trans (get_run k t) (get_run k u) (get_run k v) (Steps-Kept t u k steps)
      (Step-Kept u v k step)
