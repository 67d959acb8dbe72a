-- ===== src/Planner/PodInput.antt =====
-- planner.py: `_own_pod_dependencies` and `_pod_input`.
use comfyui_runpod_agentic_n.Base.{
  ℕ, String, Bool, true, false, ◌&&◌, Option, none, some, List, [], ◌∷◌, ◌++◌, if◌then◌else◌,
  truthy, nonzero, is_empty, value_or, text_or, select,
}
use comfyui_runpod_agentic_n.Base.Dict.{Dict, put, update}
use comfyui_runpod_agentic_n.Specs.{
  SpecMeta, Materialization, RuntimeContract, NetworkStorageSpec, BrowserEngine, LlmEngine,
  SqlEngine, VectorEngine, KeepAliveMode, LimitAction, KeepAliveEnforcement,
}
use comfyui_runpod_agentic_n.Specs.Deployment.{
  DeploymentSpec, KeepAlivePolicy, SshAccessPolicy, PodResourceHints,
}
use comfyui_runpod_agentic_n.Planner.Plan.{Role, AppSpec, PodInput, Ambient}
use comfyui_runpod_agentic_n.Planner.Env.{
  managed_by, role_text, contract_env_for_creation, ensure_ssh_port,
}

-- What the planner reads of a dependency, whatever its kind.
abbrev pub app_role : AppSpec → Role
app_role (AppSpec.llm s) = Role.llm
app_role (AppSpec.sql s) = Role.sql
app_role (AppSpec.vector s) = Role.vector
app_role (AppSpec.browser s) = Role.browser

abbrev pub app_kind : AppSpec → String
app_kind (AppSpec.llm s) = "llm_server"
app_kind (AppSpec.sql s) = "sql_database"
app_kind (AppSpec.vector s) = "vector_database"
app_kind (AppSpec.browser s) = "browser"

abbrev pub app_engine : AppSpec → String
app_engine (AppSpec.llm s) = elim s.engine [ LlmEngine.ollama ↦ "ollama" | LlmEngine.vllm ↦ "vllm" ]
app_engine (AppSpec.sql s) = elim s.engine [
  | SqlEngine.postgres ↦ "postgres"
  | SqlEngine.mysql ↦ "mysql"
  | SqlEngine.sqlite ↦ "sqlite"
]
app_engine (AppSpec.vector s) = elim s.engine [
  | VectorEngine.chroma ↦ "chroma"
  | VectorEngine.qdrant ↦ "qdrant"
]
app_engine (AppSpec.browser s) = elim s.engine [
  | BrowserEngine.neko ↦ "neko"
  | BrowserEngine.playwright ↦ "playwright"
]

abbrev pub app_materialization : AppSpec → Materialization
app_materialization (AppSpec.llm s) = s.materialization
app_materialization (AppSpec.sql s) = s.materialization
app_materialization (AppSpec.vector s) = s.materialization
app_materialization (AppSpec.browser s) = s.materialization

abbrev pub app_contract : AppSpec → RuntimeContract
app_contract (AppSpec.llm s) = s.runtime_contract
app_contract (AppSpec.sql s) = s.runtime_contract
app_contract (AppSpec.vector s) = s.runtime_contract
app_contract (AppSpec.browser s) = s.runtime_contract

abbrev pub app_storage : AppSpec → Option NetworkStorageSpec
app_storage (AppSpec.llm s) = s.network_storage
app_storage (AppSpec.sql s) = s.network_storage
app_storage (AppSpec.vector s) = s.network_storage
app_storage (AppSpec.browser s) = s.network_storage

abbrev pub app_meta : AppSpec → SpecMeta
app_meta (AppSpec.llm s) = s.meta
app_meta (AppSpec.sql s) = s.meta
app_meta (AppSpec.vector s) = s.meta
app_meta (AppSpec.browser s) = s.meta

abbrev pub is_own_pod : Materialization → Bool
is_own_pod Materialization.own_pod = true
is_own_pod _ = false

abbrev pub option_list : {A B : Type 0} → (A → B) → Option A → List B
option_list f none = []
option_list f (some a) = f a ∷ []

-- `_own_pod_dependencies`
unfoldable pub own_pod_dependencies : DeploymentSpec → List AppSpec
unfolding select
own_pod_dependencies d =
    let app = d.primary_app in
    select (λ s. is_own_pod (app_materialization s))
      (option_list AppSpec.llm app.llm_server
        ++ (option_list AppSpec.sql app.sql_database
            ++ (option_list AppSpec.vector app.vector_database
                ++ option_list AppSpec.browser app.browser)))

-- What a pod is planned from.
pub record PodRequest : Type 0 where
  pub template_id : String
  pub name : String
  pub role : Role
  pub node_id : Option String
  pub desired_hash : String
  pub contract : RuntimeContract
  pub network_storage : Option NetworkStorageSpec
  pub install_sshd : Bool
  pub image_name : Option String

abbrev keep_nonzero : Option ℕ → Option ℕ
keep_nonzero n = if nonzero n then n else none

abbrev pub keep_truthy : Option String → Option String
keep_truthy s = if truthy s then s else none

-- The variables that every managed pod has.
abbrev pub identity_env : PodRequest → Dict String
identity_env r =
    ("RUNPOD_MANAGED_BY", managed_by)
    ∷ ("CRAG_NODE_ID", value_or r.node_id "")
    ∷ ("CRAG_ROLE", role_text r.role)
    ∷ ("CRAG_DESIRED_HASH", r.desired_hash)
    ∷ []

-- With hints for a CPU pod there are no GPU keys, and the other way round.
unfoldable pub base_input : PodResourceHints → PodRequest → PodInput
unfolding contract_env_for_creation update ensure_ssh_port
base_input hints r = record {
  template_id = r.template_id;
  name = r.name;
  env = update (contract_env_for_creation r.contract) (identity_env r);
  ports = ensure_ssh_port r.contract.ports;
  start_ssh = true;
  container_disk_gb = hints.container_disk_gb;
  cloud_type = hints.cloud_type;
  image_name = keep_truthy r.image_name;
  compute_type = if hints.cpu_only then some "CPU" else none;
  min_vcpu_count = if hints.cpu_only then keep_nonzero hints.vcpu_count else none;
  gpu_count = if hints.cpu_only then none else some hints.gpu_count;
  gpu_type_id = if hints.cpu_only then none else keep_truthy hints.gpu_type_id;
  volume_gb = keep_nonzero hints.volume_gb;
  network_volume_id = none;
  pending_volume = none;
  volume_mount_path = none;
  stop_after = none;
  terminate_after = none;
  docker_args = none;
}

unfoldable pub add_storage : Option NetworkStorageSpec → PodInput → PodInput
add_storage none p = p
add_storage (some s) p =
    if is_empty s.network_volume_id
    then record p {
      pending_volume = some (record {
        name = text_or s.name p.name;
        size_gb = s.size_gb;
        data_center_id = s.data_center_id;
      });
      volume_mount_path = some s.mount_path;
    }
    else record p {
      network_volume_id = some s.network_volume_id;
      volume_mount_path = some s.mount_path;
    }

abbrev pub is_server_side : KeepAliveEnforcement → Bool
is_server_side KeepAliveEnforcement.server_side = true
is_server_side KeepAliveEnforcement.both = true
is_server_side KeepAliveEnforcement.pod_side = false

abbrev pub is_time : KeepAliveMode → Bool
is_time KeepAliveMode.time = true
is_time _ = false

-- The deadline of a policy that the server enforces.
unfoldable pub add_deadline : (ℕ → String) → Option KeepAlivePolicy → PodInput → PodInput
add_deadline iso_after none p = p
add_deadline iso_after (some policy) p =
    if is_time policy.mode && (nonzero policy.time_seconds && is_server_side policy.enforcement)
    then (let deadline = iso_after (value_or policy.time_seconds 0) in
        elim policy.action [
          | LimitAction.stop ↦ record p { stop_after = some deadline }
          | LimitAction.terminate ↦ record p { terminate_after = some deadline }
        ])
    else p

-- The key is added to the environment that the input already holds.
unfoldable pub add_sshd : Ambient → SshAccessPolicy → Bool → PodInput → PodInput
unfolding put
add_sshd ambient access false p = p
add_sshd ambient access true p =
    let public_key = ambient.public_key access.private_key_path in
    record p {
      env =
          if truthy public_key
          then put p.env "RUNPOD_SSH_PUBLIC_KEY" (value_or public_key "")
          else p.env;
      docker_args = some ambient.sshd_command;
    }

-- `_pod_input`
unfoldable pub pod_input : Ambient → DeploymentSpec → PodRequest → PodInput
unfolding base_input add_storage add_deadline add_sshd
pod_input ambient d r = add_sshd ambient d.ssh_access r.install_sshd (
    add_deadline ambient.iso_after d.keep_alive
      (add_storage r.network_storage (base_input d.resource_hints r)))
