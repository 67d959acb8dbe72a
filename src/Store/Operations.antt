-- ===== src/Store/Operations.antt =====
-- state_store.py: the methods of `StateStore`, one function for each.
use comfyui_runpod_agentic_n.Base.{
  ℕ, ◌+◌, String, ◌<>◌, Option, none, some, List, [], ◌∷◌, ◌++◌, if◌then◌else◌, ◌==◌, is_some,
  select, value_or, truthy, or_text, text_or, ℤ,
}
use comfyui_runpod_agentic_n.Base.Dict.{get}
use comfyui_runpod_agentic_n.Base.Result.{Result, ok, err, ErrorKind}
use comfyui_runpod_agentic_n.Planner.Plan.{ResourcePlan}
use comfyui_runpod_agentic_n.Planner.Env.{role_text}
use comfyui_runpod_agentic_n.Names.{ManagedName, parse_managed_name}
use comfyui_runpod_agentic_n.Remote.Pod.{Pod, seen, cost_of, pod_env}
use comfyui_runpod_agentic_n.Store.Rows.{
  Payload, RunRow, ResourceRow, CommandRow, EventRow, CounterRow, Tables,
}
use comfyui_runpod_agentic_n.Store.Table.{find, upsert, update_row, order_by, leb_text}

-- The columns that a conflict updates.
abbrev pub set_run : RunRow → RunRow → RunRow
set_run row old = record old { updated_at = row.updated_at; mode = row.mode; status = row.status }

abbrev pub run_row :
    (now run_id workflow_hash deployment_hash mode status : String) → Option String → RunRow
run_row now run_id workflow_hash deployment_hash mode status prompt_id = record {
  id = run_id;
  prompt_id = prompt_id;
  workflow_hash = workflow_hash;
  created_at = now;
  updated_at = now;
  mode = mode;
  status = status;
  deployment_hash = deployment_hash;
}

unfoldable pub record_run :
    (now : String) (run_id workflow_hash deployment_hash mode status : String)
    (prompt_id : Option String)
    → Tables
    → Tables
unfolding upsert
record_run now run_id workflow_hash deployment_hash mode status prompt_id tables = record tables {
  runs =
      upsert RunRow.id set_run
        (run_row now run_id workflow_hash deployment_hash mode status prompt_id) tables.runs;
}

abbrev pub set_resource : ResourceRow → ResourceRow → ResourceRow
set_resource row old = record old {
  runpod_pod_id = row.runpod_pod_id;
  status = row.status;
  cost_per_hr = row.cost_per_hr;
  last_seen_at = row.last_seen_at;
}

-- `f"{run_id}:{resource.role}:{resource.desired_hash}"`
abbrev pub resource_key : String → ResourcePlan → String
resource_key run_id resource =
    run_id <> (":" <> (role_text resource.role <> (":" <> resource.desired_hash)))

abbrev pub resource_row : String → String → ResourcePlan → Pod → Option String → ResourceRow
resource_row now run_id resource pod status = record {
  id = resource_key run_id resource;
  run_id = some run_id;
  node_id = resource.node_id;
  role = some (role_text resource.role);
  desired_hash = some resource.desired_hash;
  runpod_pod_id = seen pod.id;
  runpod_template_id = some resource.template_id;
  name = resource.name;
  status = status;
  cost_per_hr = cost_of pod;
  created_at = now;
  last_seen_at = now;
  stop_after = resource.pod_input.stop_after;
  terminate_after = resource.pod_input.terminate_after;
}

unfoldable pub record_resource :
    (now run_id : String) (resource : ResourcePlan) (pod : Pod) (status : Option String)
    → Tables
    → String × Tables
unfolding upsert
record_resource now run_id resource pod status tables = (
  resource_key run_id resource,
  record tables {
    resources =
        upsert ResourceRow.id set_resource (resource_row now run_id resource pod status)
          tables.resources;
  },
)

abbrev pub remote_key : Pod → String
remote_key pod = text_or (seen pod.id) (text_or (seen pod.name) "")

-- `parsed.get(key)`
abbrev parsed_field : (ManagedName → String) → Option ManagedName → Option String
parsed_field f none = none
parsed_field f (some m) = some (f m)

-- What the environment says, or else what the name says.
unfoldable pub remote_row : String → Option String → Pod → ResourceRow
unfolding pod_env get parse_managed_name
remote_row now run_id pod =
    let name = text_or (seen pod.name) "" in
    let parsed = parse_managed_name name in
    let env = pod_env pod in
    record {
      id = remote_key pod;
      run_id = or_text run_id (get env "CRAG_RUN_ID");
      node_id = or_text (get env "CRAG_NODE_ID") (parsed_field ManagedName.node_id parsed);
      role = or_text (get env "CRAG_ROLE") (parsed_field ManagedName.role parsed);
      desired_hash =
          or_text (get env "CRAG_DESIRED_HASH") (parsed_field ManagedName.desired_hash parsed);
      runpod_pod_id = seen pod.id;
      runpod_template_id = or_text (seen pod.template_id) (seen pod.template_id_snake);
      name = name;
      status = or_text (seen pod.desired_status) (seen pod.status);
      cost_per_hr = cost_of pod;
      created_at = now;
      last_seen_at = now;
      stop_after = none;
      terminate_after = none;
    }

unfoldable pub record_remote_resource : String → Pod → Option String → Tables → String × Tables
unfolding upsert remote_row
record_remote_resource now pod run_id tables = (
  remote_key pod,
  record tables {
    resources = upsert ResourceRow.id set_resource (remote_row now run_id pod) tables.resources;
  },
)

-- `INSERT INTO`, which fails on an id that is there.
abbrev insert_row : {A : Type 0} → (A → String) → A → List A → Result (List A)
insert_row id row rows =
    if is_some (find id rows (id row))
    then err (record { kind = ErrorKind.integrity_error; message = "UNIQUE constraint failed" })
    else ok (rows ++ row ∷ [])

abbrev put_commands : Tables → Result (List CommandRow) → Result Tables
put_commands tables (ok rows) = ok (record tables { commands = rows })
put_commands tables (err e) = err e

abbrev pub command_row :
    (uuid now run_id : String) (resource_id : Option String) (phase : String) (order_index : ℤ)
    (command_hash stdout_path stderr_path : String)
    → CommandRow
command_row uuid now run_id resource_id phase order_index command_hash stdout_path stderr_path =
    record {
      id = uuid;
      run_id = run_id;
      resource_id = resource_id;
      phase = phase;
      order_index = order_index;
      command_hash = command_hash;
      status = "running";
      started_at = now;
      finished_at = none;
      exit_code = none;
      stdout_path = stdout_path;
      stderr_path = stderr_path;
    }

unfoldable pub start_command :
    (uuid now run_id : String) (resource_id : Option String) (phase : String) (order_index : ℤ)
    (command_hash stdout_path stderr_path : String)
    → Tables
    → Result Tables
unfolding find
start_command uuid now run_id resource_id phase order_index command_hash stdout_path stderr_path
      tables =
    put_commands tables (
      insert_row CommandRow.id
        (command_row uuid now run_id resource_id phase order_index command_hash stdout_path
          stderr_path)
        tables.commands)

abbrev pub finish_row : String → String → ℤ → CommandRow → CommandRow
finish_row now status exit_code row = record row {
  status = status;
  finished_at = some now;
  exit_code = some exit_code;
}

unfoldable pub finish_command : String → String → String → ℤ → Tables → Tables
unfolding update_row
finish_command now command_id status exit_code tables = record tables {
  commands = update_row CommandRow.id (finish_row now status exit_code) command_id tables.commands;
}

abbrev put_events : Tables → Result (List EventRow) → Result Tables
put_events tables (ok rows) = ok (record tables { events = rows })
put_events tables (err e) = err e

abbrev pub event_row :
    (uuid now run_id event_type message : String) → Option String → Payload → EventRow
event_row uuid now run_id event_type message resource_id payload = record {
  id = uuid;
  run_id = run_id;
  resource_id = resource_id;
  timestamp = now;
  event_type = event_type;
  message = message;
  payload = payload;
}

unfoldable pub add_event :
    (uuid now run_id event_type message : String) (resource_id : Option String)
    → Payload
    → Tables
    → Result Tables
unfolding find
add_event uuid now run_id event_type message resource_id payload tables = put_events tables (
    insert_row EventRow.id (event_row uuid now run_id event_type message resource_id payload)
      tables.events)

-- `f"{run_id}:{resource_id or 'run'}:{counter_type}"`
abbrev pub counter_key : String → String → Option String → String
counter_key run_id counter_type resource_id =
    run_id <> (":" <> (text_or resource_id "run" <> (":" <> counter_type)))

abbrev pub counter_value : List CounterRow → String → ℕ
counter_value rows k = elim (find CounterRow.id rows k) [ none ↦ 0 | some row ↦ row.value ]

abbrev pub set_counter : CounterRow → CounterRow → CounterRow
set_counter row old = record old { value = row.value; updated_at = row.updated_at }

abbrev pub counter_row : (now run_id counter_type : String) → Option String → ℕ → CounterRow
counter_row now run_id counter_type resource_id value = record {
  id = counter_key run_id counter_type resource_id;
  run_id = run_id;
  resource_id = resource_id;
  counter_type = counter_type;
  value = value;
  updated_at = now;
}

unfoldable pub increment_counter :
    (now run_id counter_type : String) (amount : ℕ) (resource_id : Option String)
    → Tables
    → ℕ × Tables
unfolding find upsert
increment_counter now run_id counter_type amount resource_id tables =
    let k = counter_key run_id counter_type resource_id in
    let value = counter_value tables.counters k + amount in
    (
      value,
      record tables {
        counters =
            upsert CounterRow.id set_counter (counter_row now run_id counter_type resource_id value)
              tables.counters;
      },
    )

abbrev take : {A : Type 0} → ℕ → List A → List A
take n [] = []
take ℕ.zero (x ∷ xs) = []
take (ℕ.suc n) (x ∷ xs) = x ∷ take n xs

unfoldable pub list_runs : ℕ → Tables → List RunRow
unfolding order_by
list_runs limit tables =
    take limit (order_by (λ a b. leb_text b.created_at a.created_at) tables.runs)

unfoldable pub get_run : String → Tables → Option RunRow
unfolding find
get_run run_id tables = find RunRow.id tables.runs run_id

unfoldable pub list_resources : Tables → List ResourceRow
unfolding order_by
list_resources tables = order_by (λ a b. leb_text b.created_at a.created_at) tables.resources

unfoldable pub list_commands : Option String → Tables → List CommandRow
unfolding order_by select
list_commands run_id tables =
    if truthy run_id
    then order_by (λ a b. leb_text a.started_at b.started_at)
        (select (λ row. row.run_id == value_or run_id "") tables.commands)
    else order_by (λ a b. leb_text b.started_at a.started_at) tables.commands

unfoldable pub list_events : Option String → Tables → List EventRow
unfolding order_by select
list_events run_id tables =
    if truthy run_id
    then order_by (λ a b. leb_text a.timestamp b.timestamp)
        (select (λ row. row.run_id == value_or run_id "") tables.events)
    else order_by (λ a b. leb_text b.timestamp a.timestamp) tables.events

abbrev pub mark_row : String → String → ResourceRow → ResourceRow
mark_row now status row = record row { status = some status; last_seen_at = now }

unfoldable pub mark_resource_status : String → String → String → Tables → Tables
unfolding update_row
mark_resource_status now resource_id status tables = record tables {
  resources = update_row ResourceRow.id (mark_row now status) resource_id tables.resources;
}
