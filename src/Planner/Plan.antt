-- ===== src/Planner/Plan.antt =====
-- The data classes of planner.py, and what the planner takes from its surroundings.
use comfyui_runpod_agentic_n.Base.{ℕ, String, Bool, Option, List, ℤ}
use comfyui_runpod_agentic_n.Base.Dict.{Dict}
use comfyui_runpod_agentic_n.Specs.{
  Materialization, StartupMode, CommandPhase, FailurePolicy, VolumeRetentionPolicy, RunMode,
  ReusePolicy, SecretRef, PortSpec, RuntimeContract, BrowserSpec, LlmServerSpec, SqlDatabaseSpec,
  VectorDatabaseSpec,
}
use comfyui_runpod_agentic_n.Specs.Deployment.{
  Harness, AgentSpec, KeepAlivePolicy, SshAccessPolicy, CloudType, DeploymentSpec,
}

pub data Role : Type 0 where
  llm sql vector browser agent : Role

-- A dependency of the agent, of any of the four kinds.
pub data AppSpec : Type 0 where
  llm : LlmServerSpec → AppSpec
  sql : SqlDatabaseSpec → AppSpec
  vector : VectorDatabaseSpec → AppSpec
  browser : BrowserSpec → AppSpec

-- `to_plain` of a command, as the detail of an action. A command of the graph has no `source`.
pub record CommandDetail : Type 0 where
  pub command : String
  pub phase : CommandPhase
  pub order : ℤ
  pub failure_policy : FailurePolicy
  pub retry_count : ℕ
  pub source : Option (Option String)
  pub command_hash : Option String

-- The volume that is to be created: the keys `_networkVolumeName`, `_networkVolumeSizeGb` and
-- `_networkVolumeDataCenterId` of a pod input, which are set together.
pub record PendingVolume : Type 0 where
  pub name : String
  pub size_gb : Option ℕ
  pub data_center_id : Option String

-- The input of a pod's creation. An optional field is a key that may be absent.
pub record PodInput : Type 0 where
  pub template_id : String
  pub name : String
  pub env : Dict String
  pub ports : List PortSpec
  pub start_ssh : Bool
  pub container_disk_gb : ℕ
  pub cloud_type : Option CloudType
  pub image_name : Option String
  pub compute_type : Option String
  pub min_vcpu_count : Option ℕ
  pub gpu_count : Option ℕ
  pub gpu_type_id : Option String
  pub volume_gb : Option ℕ
  pub network_volume_id : Option String
  pub pending_volume : Option PendingVolume
  pub volume_mount_path : Option String
  pub stop_after : Option String
  pub terminate_after : Option String
  pub docker_args : Option String

pub record ResourcePlan : Type 0 where
  pub role : Role
  pub node_id : Option String
  pub desired_hash : String
  pub name : String
  pub template_id : String
  pub materialization : Materialization
  pub env : Dict String
  pub secrets : List SecretRef
  pub ports : List PortSpec
  pub pod_input : PodInput
  pub storage_retention_policy : Option VolumeRetentionPolicy

pub data ActionKind : Type 0 where
  create_or_resume wait_ready resolve_dependency_contracts wait_ssh run_ssh_command : ActionKind
  write_runtime_config launch_agent monitor_keep_alive : ActionKind

-- The `detail` of an action.
pub data Detail : Type 0 where
  no_detail : Detail
  template : String → Detail
  resources : List String → Detail
  files : Dict String → Detail
  launch : Harness → StartupMode → Detail
  command : CommandDetail → Detail
  keep_alive : KeepAlivePolicy → Detail

pub record PlanAction : Type 0 where
  pub action : ActionKind
  pub role : Option Role
  pub resource_name : Option String
  pub detail : Detail

pub record DeploymentPlan : Type 0 where
  pub run_id : String
  pub workflow_hash : String
  pub deployment_hash : String
  pub mode : RunMode
  pub prompt : String
  pub resources : List ResourcePlan
  pub runtime_contract : RuntimeContract
  pub ssh_access : SshAccessPolicy
  pub reuse_policy : ReusePolicy
  pub keep_alive : Option KeepAlivePolicy
  pub actions : List PlanAction
  pub warnings : List String

-- What `stable_hash` is applied to.
pub data Plain : Type 0 where
  deployment : DeploymentSpec → Plain
  graph : String → Plain
  app : AppSpec → Plain
  agent : AgentSpec → Plain
  detail : CommandDetail → Plain

-- What the planner takes from outside: the hex digest of a value's canonical JSON (`json.dumps` and
-- SHA-256), the hex digits of a new UUID, the ISO time a number of seconds from now, the text of a
-- float, the public key beside a private key's path, and the text of `internal_sshd_command()`.
pub record Ambient : Type 0 where
  pub hexdigest : Plain → String
  pub uuid_hex : String
  pub iso_after : ℕ → String
  pub float_text : ℕ → String
  pub public_key : String → Option String
  pub sshd_command : String
