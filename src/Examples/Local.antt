-- ===== src/Examples/Local.antt =====
-- The local runtime at concrete inputs.
use comfyui_runpod_agentic_n.Base.{
  ℕ, String, true, false, none, some, List, [], ◌∷◌, ◌≡◌, refl, pos, ◌+◌, contains, arith,
}
use comfyui_runpod_agentic_n.Base.Result.{ok}
use comfyui_runpod_agentic_n.Specs.{
  Materialization, RunMode, ReusePolicy, VolumeRetentionPolicy, KeepAliveMode,
}
use comfyui_runpod_agentic_n.Contracts.{empty_contract}
use comfyui_runpod_agentic_n.Planner.Plan.{Role, PodInput, ResourcePlan, DeploymentPlan}
use comfyui_runpod_agentic_n.Remote.Exec.{returned}
use comfyui_runpod_agentic_n.Local.{Action, is_apply, ApplyResult, ReadResult}
use comfyui_runpod_agentic_n.Local.Text.{
  is_service_char, compose_service_name_from_text, resolve_crag_placeholders, secret_of,
}
use comfyui_runpod_agentic_n.Local.Text.Names.{IsName, compose_service_name_from_text-IsName}
use comfyui_runpod_agentic_n.Local.Compose.{local_retention_volume_names}
use comfyui_runpod_agentic_n.Local.Compose.Volumes.{
  deletable_by, local_retention_volume_names-deletable_by,
}
use comfyui_runpod_agentic_n.Local.Host.{Step, Finish, Host, on_option, on_result}
use comfyui_runpod_agentic_n.Local.Apply.{is_always_create}
use comfyui_runpod_agentic_n.Local.Run.{apply_local_runtime_plan}
use comfyui_runpod_agentic_n.Local.Timed.{seconds_of, HasClock, Ends}
use comfyui_runpod_agentic_n.Local.Reuse.{IsReuse}
use comfyui_runpod_agentic_n.Local.Leaves.{Leaves}
use comfyui_runpod_agentic_n.Local.Leaves.Applied.{apply_local_runtime_plan-IsReuse}
use comfyui_runpod_agentic_n.Local.Since.{Since}
use comfyui_runpod_agentic_n.Local.Total.{apply_local_runtime_plan-Ends}
use comfyui_runpod_agentic_n.Local.Waits.{
  read_local_runtime_file, response_is_ready, requires_ready_response,
}
use comfyui_runpod_agentic_n.Local.Waits.Response.{read_local_runtime_file-response_is_ready}
use comfyui_runpod_agentic_n.Local.Timer.{enforce_local_keep_alive}
use comfyui_runpod_agentic_n.Local.Timer.Laws.{enforce_local_keep_alive-acts}
use comfyui_runpod_agentic_n.Examples.Inputs.{access, policy}

service_name_runs : compose_service_name_from_text "CRAG Agent/" ≡ "crag-agent"
unfolding compose_service_name_from_text
service_name_runs = refl

compose_service_name_from_text-IsName_example :
    IsName is_service_char (compose_service_name_from_text "CRAG Agent/")
compose_service_name_from_text-IsName_example = compose_service_name_from_text-IsName "CRAG Agent/"

placeholder_runs :
    resolve_crag_placeholders "postgresql://app@crag://sql/postgres/hostport/app"
      (("crag-0123-sql-7", "crag-0123-sql-7") ∷ [])
    ≡ "postgresql://app@crag-0123-sql-7:5432/app"
unfolding resolve_crag_placeholders
placeholder_runs = refl

secret_runs : secret_of "{{ RUNPOD_SECRET_HF_TOKEN }}" ≡ some "HF_TOKEN"
unfolding secret_of
secret_runs = refl

abbrev input : PodInput
input = record {
  template_id = "t1";
  name = "crag-agent";
  env = ("WORKSPACE_DIR", "/workspace/") ∷ [];
  ports = [];
  start_ssh = true;
  container_disk_gb = 40;
  cloud_type = none;
  image_name = none;
  compute_type = none;
  min_vcpu_count = none;
  gpu_count = none;
  gpu_type_id = none;
  volume_gb = none;
  network_volume_id = some "Vol 1";
  pending_volume = none;
  volume_mount_path = some "/workspace";
  stop_after = none;
  terminate_after = none;
  docker_args = none;
}

abbrev resource : ResourcePlan
resource = record {
  role = Role.agent;
  node_id = none;
  desired_hash = "h";
  name = "crag-agent";
  template_id = "t1";
  materialization = Materialization.own_pod;
  env = [];
  secrets = [];
  ports = [];
  pod_input = input;
  storage_retention_policy = some VolumeRetentionPolicy.delete_with_deployment;
}

abbrev plan : DeploymentPlan
plan = record {
  run_id = "run";
  workflow_hash = "w";
  deployment_hash = "d";
  mode = RunMode.apply;
  prompt = "hello";
  resources = resource ∷ [];
  runtime_contract = empty_contract;
  ssh_access = access;
  reuse_policy = ReusePolicy.reuse_matching;
  keep_alive = some (record policy { mode = KeepAliveMode.cost });
  actions = [];
  warnings = [];
}

volumes_run : local_retention_volume_names "demo" plan.resources ≡ "demo_vol-1" ∷ []
unfolding local_retention_volume_names
volumes_run = refl

local_retention_volume_names-deletable_by_example :
    contains "demo_vol-1" (local_retention_volume_names "demo" plan.resources)
    ≡ deletable_by "demo" "demo_vol-1" plan.resources
local_retention_volume_names-deletable_by_example =
    local_retention_volume_names-deletable_by "demo" "demo_vol-1" plan.resources

-- The time is the seconds that were slept.
elapsed : List Step → ℕ
elapsed [] = 0
elapsed (s ∷ h) = elapsed h + seconds_of s

-- Every command succeeds, and a single container runs, which is the agent's.
abbrev host : Host
unfolding elapsed
host = record {
  tools = record { has_podman = false; has_nerdctl = false; sudo = "" };
  setting = record {
    secrets = [];
    parse_int = λ text. ok (pos 7681);
    state_dir = "/tmp/crag-local-runtime";
    launch_command = λ plan. "launch";
    digest = λ value. "0123456789abcdef";
  };
  finish = λ h. Finish.exited (pos 0) "[crag-agent] complete" "";
  clock = elapsed;
  rows = λ text. ok ((("ID", "c1") ∷ ("Names", "demo-crag-agent") ∷ []) ∷ []);
  labels = λ text. ok (
      ("comfyui-runpod-agentic.role", "agent")
      ∷ ("comfyui-runpod-agentic.desired_hash", "0123456789ab")
      ∷ []);
  summary = λ path. ok "summary";
  base_name = λ path. path;
  pid_exists = λ h. false;
  pid = λ h. none;
}

host-HasClock : HasClock host
unfolding elapsed host
host-HasClock h s = omega arith

abbrev reused_result : ApplyResult
reused_result = record {
  engine = "docker";
  action = "reuse";
  compose_path = "demo";
  command =
      "docker" ∷ "exec" ∷ "c1" ∷ "bash" ∷ "-lc"
      ∷ "bash /workspace/.runpod_agentic/local-runtime/run-agent.sh" ∷ [];
  returncode = pos 0;
  stdout = "[crag-agent] complete";
  stderr = "";
}

abbrev ps : Step
ps = Step.run ("docker" ∷ "ps" ∷ "--format" ∷ "{{json .}}" ∷ []) 30

abbrev inspect : Step
inspect = Step.run ("docker" ∷ "inspect" ∷ "c1" ∷ []) 30

-- The steps of the reuse, the last one first.
abbrev reuse_steps : List Step
reuse_steps =
    Step.run reused_result.command 60
    ∷ Step.write_files "demo" plan
    ∷ inspect
    ∷ ps
    ∷ inspect
    ∷ ps
    ∷ Step.clear_outputs "demo"
    ∷ Step.write_files "demo" plan
    ∷ []

reuse_runs :
    apply_local_runtime_plan host "docker" "compose.yaml" "demo" plan 60 Action.apply []
    ≡ (returned (reused_result, true), reuse_steps)
unfolding apply_local_runtime_plan host on_option on_result
reuse_runs = refl

apply_local_runtime_plan-IsReuse_example :
    (is_apply Action.apply ≡ true)
    × (is_always_create plan.reuse_policy ≡ false)
    × IsReuse plan (reused_result, true)
    × Since (Leaves host "docker" "compose.yaml" "demo" plan) [] reuse_steps
apply_local_runtime_plan-IsReuse_example =
    apply_local_runtime_plan-IsReuse host "docker" "compose.yaml" "demo" plan 60 Action.apply []
      reuse_steps reused_result reuse_runs

apply_local_runtime_plan-Ends_example :
    Ends host (apply_local_runtime_plan host "docker" "compose.yaml" "demo" plan 60 Action.apply)
apply_local_runtime_plan-Ends_example =
    apply_local_runtime_plan-Ends host "docker" "compose.yaml" "demo" plan 60 Action.apply
      host-HasClock

abbrev response_path : String
response_path = "/workspace/.runpod_agentic/response.txt"

abbrev cat : List String
cat = "docker" ∷ "exec" ∷ "c1" ∷ "cat" ∷ response_path ∷ []

abbrev read_result : ReadResult
read_result = record {
  engine = "docker";
  project_name = "demo";
  role = "agent";
  path = response_path;
  container_id = "c1";
  command = cat;
  returncode = pos 0;
  stdout = "[crag-agent] complete";
  stderr = "";
}

abbrev read_steps : List Step
read_steps = Step.run cat 10 ∷ inspect ∷ ps ∷ Step.read_clock ∷ Step.read_clock ∷ []

read_runs :
    read_local_runtime_file host "docker" "demo" "agent" response_path 60 []
    ≡ (returned read_result, read_steps)
unfolding read_local_runtime_file host on_option on_result requires_ready_response
read_runs = refl

read_local_runtime_file-response_is_ready_example :
    response_is_ready response_path read_result.stdout ≡ true
unfolding requires_ready_response
read_local_runtime_file-response_is_ready_example =
    read_local_runtime_file-response_is_ready host "docker" "demo" "agent" response_path 60 []
      read_steps read_result read_runs refl refl

enforce_local_keep_alive-acts_example :
    (enforce_local_keep_alive host "docker" "compose.yaml" "demo" plan true []).1 ≡ []
enforce_local_keep_alive-acts_example =
    enforce_local_keep_alive-acts host "docker" "compose.yaml" "demo" plan true [] refl
