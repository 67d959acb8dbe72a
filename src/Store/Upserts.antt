-- ===== src/Store/Upserts.antt =====
-- What the methods of the store leave in its tables.
use comfyui_runpod_agentic_n.Base.{
  ℕ, ◌+◌, String, ◌<>◌, ◌≡◌, refl, Option, none, some, List, [], ◌∷◌, map, if◌then◌else◌, ◌==◌,
  eq_iff, arith, ℤ,
}
use comfyui_runpod_agentic_n.Base.Result.{ok}
use comfyui_runpod_agentic_n.Planner.Plan.{ResourcePlan}
use comfyui_runpod_agentic_n.Remote.Pod.{Pod, seen, cost_of}
use comfyui_runpod_agentic_n.Planner.Env.{role_text}
use comfyui_runpod_agentic_n.Store.Rows.{RunRow, ResourceRow, CommandRow, CounterRow, Tables}
use comfyui_runpod_agentic_n.Store.Table.{find, find-upsert, find-update_row, find-append}
use comfyui_runpod_agentic_n.Store.Operations.{
  record_run, get_run, run_row, set_run, finish_row, command_row, counter_row, set_counter,
  record_resource, resource_row, set_resource, start_command, finish_command, increment_counter,
  counter_key, counter_value,
}

-- The row of a run after a method has recorded it, column by column.
abbrev pub recorded_run :
    (now run_id workflow_hash deployment_hash mode status : String) (prompt_id : Option String)
    → Option RunRow
    → RunRow
recorded_run now run_id workflow_hash deployment_hash mode status prompt_id none = record {
  id = run_id;
  prompt_id = prompt_id;
  workflow_hash = workflow_hash;
  created_at = now;
  updated_at = now;
  mode = mode;
  status = status;
  deployment_hash = deployment_hash;
}
recorded_run now run_id workflow_hash deployment_hash mode status prompt_id (some old) = record {
  id = old.id;
  prompt_id = old.prompt_id;
  workflow_hash = old.workflow_hash;
  created_at = old.created_at;
  updated_at = now;
  mode = mode;
  status = status;
  deployment_hash = old.deployment_hash;
}

-- After a run is recorded, the row of another run is what it was. The run's own row has the mode and the
-- status that were given and the time as that of its last update. If the run was not there, the other
-- columns are those that were given, with the time as that of its creation; if it was, the hashes, the
-- prompt and the time of creation are the old ones.
pub get_run-record_run :
    (now run_id workflow_hash deployment_hash mode status : String) (prompt_id : Option String)
    (tables : Tables) (k : String)
    → get_run k (record_run now run_id workflow_hash deployment_hash mode status prompt_id tables)
      ≡ (if run_id == k
          then some (
              recorded_run now run_id workflow_hash deployment_hash mode status prompt_id
                (get_run k tables))
          else get_run k tables)
unfolding get_run record_run
get_run-record_run now run_id workflow_hash deployment_hash mode status prompt_id tables k =
    ground (
      arith,
      find-upsert RunRow.id set_run
          (run_row now run_id workflow_hash deployment_hash mode status prompt_id) tables.runs k
          (λ old. refl),
    )

-- The row of a resource after it has been recorded, column by column.
abbrev pub recorded_resource :
    (now run_id : String) (resource : ResourcePlan) (pod : Pod) (status : Option String)
    → Option ResourceRow
    → ResourceRow
recorded_resource now run_id resource pod status none = record {
  id = run_id <> (":" <> (role_text resource.role <> (":" <> resource.desired_hash)));
  run_id = some run_id;
  node_id = resource.node_id;
  role = some (role_text resource.role);
  desired_hash = some resource.desired_hash;
  runpod_pod_id = seen pod.id;
  runpod_template_id = some resource.template_id;
  name = resource.name;
  status = status;
  cost_per_hr = cost_of pod;
  created_at = now;
  last_seen_at = now;
  stop_after = resource.pod_input.stop_after;
  terminate_after = resource.pod_input.terminate_after;
}
recorded_resource now run_id resource pod status (some old) = record {
  id = old.id;
  run_id = old.run_id;
  node_id = old.node_id;
  role = old.role;
  desired_hash = old.desired_hash;
  runpod_pod_id = seen pod.id;
  runpod_template_id = old.runpod_template_id;
  name = old.name;
  status = status;
  cost_per_hr = cost_of pod;
  created_at = old.created_at;
  last_seen_at = now;
  stop_after = old.stop_after;
  terminate_after = old.terminate_after;
}

-- Recording a resource returns the key of its row, made of the run, the role and the hash, and leaves the
-- row of every other key alone. Its own row then has the pod's id and cost, the status that was given and
-- the time at which it was seen. If it was not there, the other columns are those of the plan; if it was,
-- they are the old ones.
pub find-record_resource :
    (now run_id : String) (resource : ResourcePlan) (pod : Pod) (status : Option String)
    (tables : Tables) (k : String)
    → let recorded = record_resource now run_id resource pod status tables in
      find ResourceRow.id recorded.1.resources k ≡ (
        if recorded.0 == k
        then some (
            recorded_resource now run_id resource pod status
              (find ResourceRow.id tables.resources k))
        else find ResourceRow.id tables.resources k)
unfolding record_resource
find-record_resource now run_id resource pod status tables k = ground (
  arith,
  find-upsert ResourceRow.id set_resource (resource_row now run_id resource pod status)
      tables.resources k (λ old. refl),
)

-- A command that was started under a fresh id and then finished stands in the table with the status and
-- the exit code that it was finished with, with both times, and with all that it was started with; and
-- every other command is as it was before.
pub finish_command-start_command :
    (uuid now later run_id : String) (resource_id : Option String) (phase : String)
    (order_index : ℤ) (command_hash stdout_path stderr_path status : String) (exit_code : ℤ)
    (tables started : Tables) (k : String)
    → start_command uuid now run_id resource_id phase order_index command_hash stdout_path
        stderr_path tables
      ≡ ok started
    → find CommandRow.id (finish_command later uuid status exit_code started).commands k ≡ (
        if uuid == k
        then some (record {
          id = uuid;
          run_id = run_id;
          resource_id = resource_id;
          phase = phase;
          order_index = order_index;
          command_hash = command_hash;
          status = status;
          started_at = now;
          finished_at = some later;
          exit_code = some exit_code;
          stdout_path = stdout_path;
          stderr_path = stderr_path;
        })
        else find CommandRow.id tables.commands k)
unfolding start_command finish_command
finish_command-start_command uuid now later run_id resource_id phase order_index command_hash
      stdout_path stderr_path status exit_code tables started k h =
    ground (
      arith,
      find-update_row CommandRow.id (finish_row later status exit_code) uuid started.commands k
          (λ old. refl),
      find-append CommandRow.id tables.commands
          (command_row uuid now run_id resource_id phase order_index command_hash stdout_path
            stderr_path)
          k,
    )

counter_value-increment :
    (now run_id counter_type : String) (amount : ℕ) (resource_id : Option String) (tables : Tables)
    (k : String)
    → counter_value
        (increment_counter now run_id counter_type amount resource_id tables).1.counters
        k
      ≡ (if counter_key run_id counter_type resource_id == k
          then counter_value tables.counters k + amount
          else counter_value tables.counters k)
unfolding increment_counter
counter_value-increment now run_id counter_type amount resource_id tables k = ground (
  arith,
  eq_iff (counter_key run_id counter_type resource_id) k,
  find-upsert CounterRow.id set_counter
      (counter_row now run_id counter_type resource_id
        (counter_value tables.counters (counter_key run_id counter_type resource_id) + amount))
      tables.counters k (λ old. refl),
)

abbrev pub sum : List ℕ → ℕ
sum [] = 0
sum (n ∷ ns) = n + sum ns

-- One increment after the other, each with its own time.
abbrev pub increments : String → String → Option String → List (String × ℕ) → Tables → Tables
increments run_id counter_type resource_id [] tables = tables
increments run_id counter_type resource_id ((now, amount) ∷ rest) tables =
    increments run_id counter_type resource_id rest
      (increment_counter now run_id counter_type amount resource_id tables).1

-- After any number of increments a counter has grown by their sum, and every other counter has its
-- old value.
pub counter_value-increments :
    (run_id counter_type : String) (resource_id : Option String) (amounts : List (String × ℕ))
    (tables : Tables) (k : String)
    → counter_value (increments run_id counter_type resource_id amounts tables).counters k ≡ (
        if counter_key run_id counter_type resource_id == k
        then counter_value tables.counters k + sum (map (λ a. a.1) amounts)
        else counter_value tables.counters k)
counter_value-increments run_id counter_type resource_id [] tables k = ground arith
counter_value-increments run_id counter_type resource_id ((now, amount) ∷ rest) tables k = ground (
  arith,
  counter_value-increments run_id counter_type resource_id rest
      (increment_counter now run_id counter_type amount resource_id tables).1 k,
  counter_value-increment now run_id counter_type amount resource_id tables k,
)
