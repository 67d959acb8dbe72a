-- ===== src/Examples/Running.antt =====
-- The theorems on the store and on the runner at the inputs.
use comfyui_runpod_agentic_n.Base.{String}
use comfyui_runpod_agentic_n.Base.{
  ℕ, ◌+◌, ◌≡◌, refl, true, none, some, List, [], ◌∷◌, pos, arith, length,
}
use comfyui_runpod_agentic_n.Base.Result.{ok}
use comfyui_runpod_agentic_n.Base.Text.{decimal}
use comfyui_runpod_agentic_n.Specs.{RunMode, CommandPhase, FailurePolicy}
use comfyui_runpod_agentic_n.Runner.Endpoints.{resolve_dependency_endpoints, sanitize_pod_input}
use comfyui_runpod_agentic_n.Runner.Substitution.{
  IsPlain, get-sanitize_pod_input, get-resolve_dependency_endpoints,
}
use comfyui_runpod_agentic_n.Contracts.{empty_contract, matches_secret}
use comfyui_runpod_agentic_n.Contracts.Secrets.{is_sensitive_key}
use comfyui_runpod_agentic_n.Base.Dict.{get}
use comfyui_runpod_agentic_n.Planner.Plan.{Role}
use comfyui_runpod_agentic_n.Planner.Plan.{ResourcePlan, DeploymentPlan, CommandDetail}
use comfyui_runpod_agentic_n.Store.Rows.{
  Payload, EventRow, ResourceRow, CommandRow, Tables, no_tables,
}
use comfyui_runpod_agentic_n.Store.Table.{find}
use comfyui_runpod_agentic_n.Store.Operations.{
  record_run, get_run, record_resource, start_command, finish_command, command_row, counter_value,
  increment_counter,
}
use comfyui_runpod_agentic_n.Store.Upserts.{
  recorded_resource, get_run-record_run, find-record_resource, finish_command-start_command,
  increments, counter_value-increments,
}
use comfyui_runpod_agentic_n.Store.Reachable.{Step, Steps}
use comfyui_runpod_agentic_n.Store.Grows.{Grows, Steps-Grows}
use comfyui_runpod_agentic_n.Store.Kept.{Kept, Steps-Kept}
use comfyui_runpod_agentic_n.Remote.Pod.{Pod, Port, empty_pod, held, absent}
use comfyui_runpod_agentic_n.Remote.Outside.{Call, Outside, CommandResult}
use comfyui_runpod_agentic_n.Remote.Exec.{World, Outcome, ◌>>=◌}
use comfyui_runpod_agentic_n.Planner.PodInput.{pod_input}
use comfyui_runpod_agentic_n.Remote.Timed.{HasClock, finished, seconds_of}
use comfyui_runpod_agentic_n.Runner.Shell.{Mode, read_word, shell_env}
use comfyui_runpod_agentic_n.Runner.Shell.Quotes.{read_word-shell_env}
use comfyui_runpod_agentic_n.Runner.Agent.{Texts}
use comfyui_runpod_agentic_n.Runner.Pods.{materialize_network_volumes}
use comfyui_runpod_agentic_n.Runner.Volumes.{IsSettled, materialize_network_volumes-IsSettled}
use comfyui_runpod_agentic_n.Runner.Commands.{run_ssh_command_action}
use comfyui_runpod_agentic_n.Runner.Attempts.{IsBounded, run_ssh_command_action-IsBounded}
use comfyui_runpod_agentic_n.Runner.Run.{RunRequest, OnError, attempt_mode, guarded, run}
use comfyui_runpod_agentic_n.Runner.Finished.{run-finished}
use comfyui_runpod_agentic_n.Runner.Status.{IsRecorded, guarded-IsRecorded}
use comfyui_runpod_agentic_n.Examples.Inputs.{deployment, ambient, resolver}
use comfyui_runpod_agentic_n.Examples.Planning.{planned, built}

abbrev tables : Tables
unfolding record_run
tables = record_run "t0" "run" "w" "d" "apply" "started" none no_tables

get_run-record_run_example :
    get_run "run" (record_run "t1" "run" "w2" "d2" "apply_and_wait" "failed" none tables)
    ≡ some (record {
      id = "run";
      prompt_id = none;
      workflow_hash = "w";
      created_at = "t0";
      updated_at = "t1";
      mode = "apply_and_wait";
      status = "failed";
      deployment_hash = "d";
    })
unfolding get_run record_run
get_run-record_run_example =
    get_run-record_run "t1" "run" "w2" "d2" "apply_and_wait" "failed" none tables "run"

find-record_resource_example :
    find ResourceRow.id
      (record_resource "t1" "run" planned empty_pod (some "creating") tables).1.resources
      "run:agent:0123456789ab"
    ≡ some (recorded_resource "t1" "run" planned empty_pod (some "creating") none)
unfolding find record_run record_resource
find-record_resource_example =
    find-record_resource "t1" "run" planned empty_pod (some "creating") tables
      "run:agent:0123456789ab"

abbrev started : Tables
started = record tables {
  commands = command_row "c1" "t1" "run" none "before_start" (pos 1) "h" "out" "err" ∷ [];
}

finish_command-start_command_example :
    find CommandRow.id (finish_command "t2" "c1" "completed" (pos 0) started).commands "c1"
    ≡ some (record {
      id = "c1";
      run_id = "run";
      resource_id = none;
      phase = "before_start";
      order_index = pos 1;
      command_hash = "h";
      status = "completed";
      started_at = "t1";
      finished_at = some "t2";
      exit_code = some (pos 0);
      stdout_path = "out";
      stderr_path = "err";
    })
unfolding start_command record_run
finish_command-start_command_example =
    finish_command-start_command "c1" "t1" "t2" "run" none "before_start" (pos 1) "h" "out" "err"
      "completed" (pos 0) tables started "c1" refl

counter_value-increments_example :
    counter_value
      (increments "run" "turns" none (("t1", 1) ∷ ("t2", 2) ∷ []) tables).counters
      "run:run:turns"
    ≡ counter_value tables.counters "run:run:turns" + (1 + (2 + 0))
counter_value-increments_example =
    counter_value-increments "run" "turns" none (("t1", 1) ∷ ("t2", 2) ∷ []) tables "run:run:turns"

-- The command is started, a turn is counted, and the command is finished.
abbrev counted : Tables
counted = (increment_counter "t1" "run" "turns" 1 none started).1

steps : Steps tables (finish_command "t2" "c1" "completed" (pos 0) counted)
unfolding start_command record_run
steps =
    Steps.then counted (finish_command "t2" "c1" "completed" (pos 0) counted)
      (Steps.then started counted
        (Steps.then tables started Steps.done
          (Step.started "c1" "t1" "run" none "before_start" (pos 1) "h" "out" "err" started refl))
        (Step.counted "t1" "run" "turns" 1 none))
      (Step.finished "t2" "c1" "completed" (pos 0))

Steps-Grows_example : Grows tables (finish_command "t2" "c1" "completed" (pos 0) counted)
Steps-Grows_example =
    Steps-Grows tables (finish_command "t2" "c1" "completed" (pos 0) counted) steps

Steps-Kept_example :
    Kept
      (get_run "run" tables)
      (get_run "run" (record_run "t1" "run" "w2" "d2" "apply" "failed" none tables))
Steps-Kept_example =
    Steps-Kept tables (record_run "t1" "run" "w2" "d2" "apply" "failed" none tables) "run"
      (Steps.then tables _ Steps.done (Step.runs "t1" "run" "w2" "d2" "apply" "failed" none))

-- A pod with a port for SSH and one for HTTP.
abbrev port : ℕ → ℕ → Port
port private public = record {
  private_port = held private;
  container_port = absent;
  container_port_snake = absent;
  public_port = held public;
  public_port_snake = absent;
  ip = held "10.0.0.1";
  host = absent;
  hostname = absent;
  kind = held "tcp";
  protocol = absent;
}

abbrev pod : Pod
pod = record empty_pod {
  id = held "pod-1";
  desired_status = held "RUNNING";
  runtime =
      held (record {
        ports = held (port 22 10022 ∷ port 6333 16333 ∷ []);
        uptime_in_seconds = held 60;
      });
}

abbrev elapsed : List Call → ℕ
elapsed [] = 0
elapsed (c ∷ h) = elapsed h + seconds_of c

-- Surroundings in which everything goes well, but for commands that fail.
abbrev outside : CommandResult → Outside
outside result = record {
  pods = λ h. ok [];
  pod = λ h. ok pod;
  volume = λ h. ok "vol-1";
  lifecycle = λ h. ok tt;
  command = λ h. ok result;
  written = λ h. ok tt;
  is_ready = λ h. true;
  clock = elapsed;
  text = λ h. decimal (length h);
  command_hash = λ c. "0123456789abcdef";
  dependency_timeout = 1200;
  response_timeout = 120;
  log_folder = "logs";
}

outside-HasClock : (result : CommandResult) → HasClock (outside result)
outside-HasClock result h c = omega arith

abbrev failing : CommandResult
failing = record { exit_code = pos 1; stdout = ""; stderr = "no" }

abbrev texts : Texts
texts = record {
  resources_json = λ r. "{}";
  commands_json = λ c. "[]";
  timer_script = λ p. "sleep 60";
  launcher_files = [];
  subagent_files = λ e. [];
  pi_files = λ e. [];
  configured_launcher = none;
}

abbrev asked : RunRequest
asked = record {
  deployment = deployment;
  mode = RunMode.apply_and_wait;
  prompt = "hello";
  workflow_graph = none;
  on_error = OnError.stop_created;
  response_image_path = "";
  api_key = some "key";
}

abbrev world : World
world = record { tables = no_tables; history = [] }

run-finished_example : finished (run (outside failing) texts ambient resolver asked world).0 ≡ true
run-finished_example =
    run-finished (outside failing) texts (outside-HasClock failing) ambient resolver asked world

guarded-IsRecorded_example :
    IsRecorded
      (outside failing)
      built.0.run_id
      (attempt_mode (outside failing) texts asked.mode asked built.0 world)
      (guarded (outside failing) texts asked built.0 world)
guarded-IsRecorded_example = guarded-IsRecorded (outside failing) texts asked built.0 world

abbrev command : CommandDetail
command = record {
  command = "false";
  phase = CommandPhase.before_start;
  order = pos 1;
  failure_policy = FailurePolicy.retry;
  retry_count = 2;
  source = none;
  command_hash = none;
}

run_ssh_command_action-IsBounded_example :
    IsBounded
      (outside failing)
      command
      0
      (run_ssh_command_action (outside failing) "run" "10.0.0.1" 10022 none command world)
run_ssh_command_action-IsBounded_example =
    run_ssh_command_action-IsBounded (outside failing) "run" "10.0.0.1" 10022 none command world

read_word-shell_env_example : read_word Mode.bare (shell_env "it's") ≡ some "it's"
read_word-shell_env_example = read_word-shell_env "it's"

abbrev one_resource : DeploymentPlan
one_resource = record (built.0) { resources = planned ∷ [] }

-- Two resources that ask for the same volume.
abbrev pending : ResourcePlan
pending = record planned {
  pod_input = record (planned.pod_input) {
    network_volume_id = none;
    pending_volume =
        some (record { name = "data"; size_gb = some 50; data_center_id = some "EU-RO-1" });
  };
}

abbrev two_pending : DeploymentPlan
two_pending = record (built.0) { resources = pending ∷ pending ∷ [] }

-- Both get the volume that was created.
abbrev mounted : ResourcePlan
mounted = record pending {
  pod_input = record (pending.pod_input) {
    network_volume_id = some "vol-1";
    pending_volume = none;
  };
}

abbrev creation_calls : List Call
creation_calls = Call.read_now ∷ Call.read_uuid ∷ Call.create_volume "data" 50 "EU-RO-1" ∷ []

abbrev volume_event : EventRow
volume_event = record {
  id = "2";
  run_id = two_pending.run_id;
  resource_id = none;
  timestamp = "3";
  event_type = "network_volume_created";
  message = "data";
  payload = Payload.volume "vol-1" 50 "EU-RO-1";
}

settles : materialize_network_volumes (outside failing) two_pending world ≡ (
  Outcome.returned (record two_pending { resources = mounted ∷ mounted ∷ [] }),
  record { tables = record no_tables { events = volume_event ∷ [] }; history = creation_calls },
)
unfolding materialize_network_volumes ◌>>=◌ pod_input decimal
settles = refl

materialize_network_volumes-IsSettled_example :
    IsSettled
      (outside failing)
      []
      []
      (pending ∷ pending ∷ [])
      (mounted ∷ mounted ∷ [])
      creation_calls
materialize_network_volumes-IsSettled_example =
    materialize_network_volumes-IsSettled (outside failing) two_pending world
      (record {
        tables = record no_tables { events = volume_event ∷ [] };
        history = creation_calls;
      })
      (record two_pending { resources = mounted ∷ mounted ∷ [] }) settles

get-sanitize_pod_input_example :
    get (sanitize_pod_input planned.pod_input).env "CRAG_ROLE"
    ≡ get planned.pod_input.env "CRAG_ROLE"
unfolding get matches_secret is_sensitive_key
get-sanitize_pod_input_example = get-sanitize_pod_input planned.pod_input "CRAG_ROLE"

abbrev hosted : DeploymentPlan
hosted = record one_resource {
  runtime_contract = record empty_contract {
    env = record {
      values = ("HOST", "h") ∷ ("LLM_BASE_URL", "crag://llm/ollama/v1") ∷ [];
      secrets = [];
    };
  };
}

pair_injective : (a b : String × String) → some a ≡ some b → a ≡ b
pair_injective a b e = cc

host-IsPlain : IsPlain "h"
host-IsPlain Role.browser p e =
    rw (← pair_injective ("crag://browser/playwright", "crag://browser/neko") p e) (refl, refl)
host-IsPlain Role.llm p e =
    rw (← pair_injective ("crag://llm/ollama", "crag://llm/vllm") p e) (refl, refl)
host-IsPlain Role.sql p e =
    rw (← pair_injective ("crag://sql/postgres", "crag://sql/mysql") p e) (refl, refl)
host-IsPlain Role.vector p e =
    rw (← pair_injective ("crag://vector/chroma", "crag://vector/qdrant") p e) (refl, refl)
host-IsPlain Role.agent p e = absurd (cc)

get-resolve_dependency_endpoints_example :
    get (resolve_dependency_endpoints hosted []).env.values "HOST" ≡ some "h"
unfolding get
get-resolve_dependency_endpoints_example =
    get-resolve_dependency_endpoints hosted [] "HOST" "h" (refl, (refl, tt)) host-IsPlain refl
