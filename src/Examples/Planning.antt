-- ===== src/Examples/Planning.antt =====
-- The theorems on contracts, templates, validation, names and plans at the inputs.
use comfyui_runpod_agentic_n.Base.{
  String, ◌≡◌, refl, Bool, true, false, select, none, some, [], ◌∷◌, ◌++◌, ◌↔◌, map, arith,
}
use comfyui_runpod_agentic_n.Base.Dict.{get}
use comfyui_runpod_agentic_n.Base.Result.{ok, is_ok, is_ok-value}
use comfyui_runpod_agentic_n.Base.Sort.{All, IsSorted, sorted_by}
use comfyui_runpod_agentic_n.Base.Text.{first}
use mathlib.Core.List.{Perm}
use comfyui_runpod_agentic_n.Specs.Deployment.{SshCommand}
use comfyui_runpod_agentic_n.Templates.{resolve_agent, resolve_app, resolve_id}
use comfyui_runpod_agentic_n.Templates.Laws.{selected, resolve_agent_iff}
use comfyui_runpod_agentic_n.Names.{managed_name, short_node_id, parse_managed_name}
use comfyui_runpod_agentic_n.Names.RoundTrip.{parse_managed_name-managed_name}
use comfyui_runpod_agentic_n.Specs.{RunMode, CommandPhase, Materialization}
use comfyui_runpod_agentic_n.Contracts.{
  merge_contracts, redact_env, matches_secret, secret_placeholder,
}
use comfyui_runpod_agentic_n.Contracts.Merge.{or_else, merge_contracts-append}
use comfyui_runpod_agentic_n.Contracts.Secrets.{
  is_ascii, is_sensitive_key, is_sensitive_key-eq-matches_secret, get-redact_env,
}
use comfyui_runpod_agentic_n.Validation.{validate_deployment}
use comfyui_runpod_agentic_n.Validation.Laws.{IsDeployable, validate_deployment_iff}
use comfyui_runpod_agentic_n.Planner.Plan.{Role, DeploymentPlan, ResourcePlan}
use comfyui_runpod_agentic_n.Planner.PodInput.{
  PodRequest, pod_input, app_kind, app_engine, own_pod_dependencies,
}
use comfyui_runpod_agentic_n.Planner.Env.{contract_env_for_creation}
use comfyui_runpod_agentic_n.Planner.Actions.{
  runtime_detail, ssh_detail, ssh_command_actions, graph_commands,
}
use comfyui_runpod_agentic_n.Planner.Commands.{
  commands_run, contract_teardown, actions-commands, ssh_command_actions-IsSorted,
}
use comfyui_runpod_agentic_n.Planner.Build.{build}
use comfyui_runpod_agentic_n.Planner.PodLaws.{get-contract_env_for_creation}
use comfyui_runpod_agentic_n.Planner.Resources.{IsPlanOf, build_lem, build_ok_iff}
use comfyui_runpod_agentic_n.Examples.Inputs.{
  contract, storage, deployment, ambient, resolver, commands,
}

abbrev is_before : CommandPhase → Bool
is_before CommandPhase.before_start = true
is_before _ = false

abbrev request : PodRequest
request = record {
  template_id = "t2";
  name = "crag-0123-vector-node7-0123";
  role = Role.vector;
  node_id = some "Node-7";
  desired_hash = "0123456789ab";
  contract = contract;
  network_storage = some storage;
  install_sshd = true;
  image_name = none;
}

abbrev pub planned : ResourcePlan
planned = record {
  role = Role.agent;
  node_id = none;
  desired_hash = "0123456789ab";
  name = "crag-0123-agent-none-0123";
  template_id = "t1";
  materialization = Materialization.own_pod;
  env = [];
  secrets = [];
  ports = [];
  pod_input = pod_input ambient deployment request;
  storage_retention_policy = none;
}

pub built :
    (plan : DeploymentPlan) × (build ambient resolver deployment RunMode.apply "hello" none
      ≡ ok plan)
unfolding build
built = is_ok-value (build ambient resolver deployment RunMode.apply "hello" none) refl

build_lem_example : IsPlanOf ambient deployment built.0
build_lem_example = build_lem ambient resolver deployment RunMode.apply "hello" none built.0 built.1

build_ok_iff_example :
    (is_ok (validate_deployment deployment RunMode.apply false none) ≡ true)
    × All
        (λ s. is_ok (resolve_app resolver (app_kind s) (app_engine s)) ≡ true)
        (own_pod_dependencies deployment)
    × (is_ok (resolve_agent resolver "codex" []) ≡ true)
unfolding build
build_ok_iff_example = (build_ok_iff ambient resolver deployment RunMode.apply "hello" none).0 refl

actions-commands_example :
    Perm
      (commands_run built.0.actions
        ++ map
            (runtime_detail ambient)
            (sorted_by (λ c. c.order) (contract_teardown built.0.runtime_contract)))
      (map (runtime_detail ambient) built.0.runtime_contract.commands
        ++ map ssh_detail (graph_commands (some commands)))
actions-commands_example =
    actions-commands ambient built.0.resources deployment built.0.runtime_contract built.0.actions
      (build_lem ambient resolver deployment RunMode.apply "hello" none built.0 built.1).1

ssh_command_actions-IsSorted_example :
    (commands_run (ssh_command_actions planned (some commands) is_before)
      ≡ map ssh_detail
          (select (λ c. is_before c.phase) (sorted_by (λ c. c.order) commands.commands)))
    × IsSorted
        (λ (c : SshCommand). c.order)
        (select (λ c. is_before c.phase) (sorted_by (λ c. c.order) commands.commands))
ssh_command_actions-IsSorted_example =
    ssh_command_actions-IsSorted planned (some commands) is_before

get-contract_env_for_creation_example :
    get (contract_env_for_creation contract) "HF_TOKEN" ≡ some "{{ RUNPOD_SECRET_HF }}"
unfolding secret_placeholder
get-contract_env_for_creation_example = get-contract_env_for_creation contract "HF_TOKEN"

merge_contracts-append_example :
    let xy = merge_contracts (some contract ∷ none ∷ some contract ∷ []) in
    let x = merge_contracts (some contract ∷ []) in
    let y = merge_contracts (none ∷ some contract ∷ []) in
    (get xy.env.values "HF_TOKEN"
      ≡ or_else (get y.env.values "HF_TOKEN") (get x.env.values "HF_TOKEN"))
    × (get xy.files "HF_TOKEN" ≡ or_else (get y.files "HF_TOKEN") (get x.files "HF_TOKEN"))
    × (xy.env.secrets ≡ x.env.secrets ++ y.env.secrets)
    × (xy.ports ≡ x.ports ++ y.ports)
    × (xy.commands ≡ x.commands ++ y.commands)
merge_contracts-append_example =
    merge_contracts-append (some contract ∷ []) (none ∷ some contract ∷ []) "HF_TOKEN"

is_sensitive_key-eq-matches_secret_example : is_sensitive_key "my_Api_Key" ≡ true
unfolding matches_secret is_ascii
is_sensitive_key-eq-matches_secret_example = is_sensitive_key-eq-matches_secret "my_Api_Key" refl

get-redact_env_example :
    get (redact_env (("HF_TOKEN", "abc") ∷ ("HOST", "h") ∷ [])) "HF_TOKEN" ≡ some "<redacted>"
unfolding matches_secret get
get-redact_env_example = get-redact_env (("HF_TOKEN", "abc") ∷ ("HOST", "h") ∷ []) "HF_TOKEN"

resolve_agent_iff_example :
    (resolve_agent resolver "pi" ("vllm" ∷ []) ≡ ok (record { template_id = "rp-agent-pi-vllm" }))
    ↔ ((key : String) × (selected (get resolver.config.agent_templates "pi") ("vllm" ∷ [])
          ≡ some key)
        × ("rp-agent-pi-vllm" ≡ resolve_id resolver key))
resolve_agent_iff_example =
    resolve_agent_iff resolver "pi" ("vllm" ∷ []) (record { template_id = "rp-agent-pi-vllm" })

validate_deployment_iff_example : IsDeployable deployment RunMode.apply true (some "key")
unfolding validate_deployment
validate_deployment_iff_example =
    (validate_deployment_iff deployment RunMode.apply true (some "key")).0 refl

parse_managed_name-managed_name_example :
    parse_managed_name (managed_name "0123456789abcdef" Role.vector (some "Node-7") "00ff")
    ≡ some (record {
      workflow_hash = first 12 "0123456789abcdef";
      role = "vector";
      node_id = short_node_id (some "Node-7");
      desired_hash = first 12 "00ff";
    })
parse_managed_name-managed_name_example =
    parse_managed_name-managed_name "0123456789abcdef" Role.vector (some "Node-7") "00ff"
      (omega arith) (omega arith)
