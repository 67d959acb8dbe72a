-- ===== src/Store/Reachable.antt =====
-- state_store.py: sequences of calls of the store's methods, as a relation on its tables.
use comfyui_runpod_agentic_n.Base.{ℕ, String, ◌≡◌, Option, ℤ}
use comfyui_runpod_agentic_n.Base.Result.{ok}
use comfyui_runpod_agentic_n.Planner.Plan.{ResourcePlan}
use comfyui_runpod_agentic_n.Remote.Pod.{Pod}
use comfyui_runpod_agentic_n.Store.Rows.{Payload, Tables}
use comfyui_runpod_agentic_n.Store.Operations.{
  record_run, record_resource, record_remote_resource, start_command, finish_command, add_event,
  increment_counter, mark_resource_status,
}

-- One call of a method that writes.
pub data Step (t : Tables) : Tables → Type 0 where
  runs :
      (now run_id workflow_hash deployment_hash mode status : String) (prompt_id : Option String)
      → Step t (record_run now run_id workflow_hash deployment_hash mode status prompt_id t)
  resources :
      (now run_id : String) (resource : ResourcePlan) (pod : Pod) (status : Option String)
      → Step t (record_resource now run_id resource pod status t).1
  remote :
      (now : String) (pod : Pod) (run_id : Option String)
      → Step t (record_remote_resource now pod run_id t).1
  started :
      (uuid now run_id : String) (resource_id : Option String) (phase : String) (order_index : ℤ)
      (command_hash stdout_path stderr_path : String) (u : Tables)
      → start_command uuid now run_id resource_id phase order_index command_hash stdout_path
          stderr_path t
        ≡ ok u
      → Step t u
  finished :
      (now command_id status : String) (exit_code : ℤ)
      → Step t (finish_command now command_id status exit_code t)
  event :
      (uuid now run_id event_type message : String) (resource_id : Option String)
      (payload : Payload) (u : Tables)
      → add_event uuid now run_id event_type message resource_id payload t ≡ ok u
      → Step t u
  counted :
      (now run_id counter_type : String) (amount : ℕ) (resource_id : Option String)
      → Step t (increment_counter now run_id counter_type amount resource_id t).1
  marked :
      (now resource_id status : String) → Step t (mark_resource_status now resource_id status t)

pub data Steps (t : Tables) : Tables → Type 0 where
  done : Steps t t
  then : (u v : Tables) → Steps t u → Step u v → Steps t v
