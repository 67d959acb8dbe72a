-- ===== src/Specs/Deployment.antt =====
-- specs.py, second half: skills, MCP servers, subagents, the agent, and the whole deployment.
use comfyui_runpod_agentic_n.Base.{ℕ, String, Bool, Option, List, ℤ}
use comfyui_runpod_agentic_n.Base.Dict.{Dict}
use comfyui_runpod_agentic_n.Specs.{
  StartupMode, CommandPhase, FailurePolicy, KeepAliveMode, LimitAction, KeepAliveEnforcement,
  ReusePolicy, SpecMeta, SecretRef, RuntimeContract, NetworkStorageSpec, BrowserSpec,
  WebTerminalSpec, LlmServerSpec, LlmApiSpec, SqlDatabaseSpec, VectorDatabaseSpec,
}

pub data Transport : Type 0 where
  stdio http sse : Transport

pub record McpServer : Type 0 where
  pub name : String
  pub transport : Transport
  pub command : Option String
  pub args : List String
  pub url : Option String
  pub env : Dict String
  pub secret_refs : List SecretRef

pub record McpServerSpec : Type 0 where
  pub servers : List McpServer
  pub runtime_contract : RuntimeContract
  pub meta : SpecMeta

pub data SkillKind : Type 0 where
  skill framework : SkillKind

pub record SkillSource : Type 0 where
  pub kind : SkillKind
  pub name : String
  pub repo_url : String
  pub repo_path : String
  pub target_path : String
  pub git_ref : Option String

pub record SkillSpec : Type 0 where
  pub skills : List SkillSource
  pub runtime_contract : RuntimeContract
  pub meta : SpecMeta

pub record Subagent : Type 0 where
  pub name : String
  pub model : String
  pub system_prompt : String

pub record SubagentSpec : Type 0 where
  pub subagents : List Subagent
  pub runtime_contract : RuntimeContract
  pub meta : SpecMeta

pub data Harness : Type 0 where
  codex claude opencode hermes pi : Harness

pub record AgentSpec : Type 0 where
  pub harness : Harness
  pub model : String
  pub startup_mode : StartupMode
  pub workspace_path : String
  pub system_prompt : String
  pub browser : Option BrowserSpec
  pub llm_api : Option LlmApiSpec
  pub llm_server : Option LlmServerSpec
  pub sql_database : Option SqlDatabaseSpec
  pub vector_database : Option VectorDatabaseSpec
  pub mcp_servers : Option McpServerSpec
  pub skills : Option SkillSpec
  pub subagents : Option SubagentSpec
  pub terminal : Option WebTerminalSpec
  pub image_name : Option String
  pub runtime_contract : RuntimeContract
  pub required_image_capabilities : List String
  pub template_key : Option String
  pub meta : SpecMeta

pub record S3StorageSpec : Type 0 where
  pub endpoint : String
  pub bucket : String
  pub region : Option String
  pub access_key_secret : SecretRef
  pub secret_key_secret : SecretRef
  pub env_prefix : String
  pub runtime_contract : RuntimeContract
  pub meta : SpecMeta

pub record SshCommand : Type 0 where
  pub command : String
  pub phase : CommandPhase
  pub order : ℤ
  pub failure_policy : FailurePolicy
  pub retry_count : ℕ

pub record SshCommandSpec : Type 0 where
  pub commands : List SshCommand
  pub meta : SpecMeta

pub record KeepAlivePolicy : Type 0 where
  pub mode : KeepAliveMode
  pub action : LimitAction
  pub time_seconds : Option ℕ
  pub turn_limit : Option ℕ
  pub cost_limit_usd : Option ℕ
  pub idle_grace_seconds : Option ℕ
  pub enforcement : KeepAliveEnforcement
  pub meta : SpecMeta

pub data SshMode : Type 0 where
  runpod_proxy internal_sshd : SshMode

pub record SshAccessPolicy : Type 0 where
  pub mode : SshMode
  pub username : String
  pub private_key_path : String
  pub proxy_key_suffix : Option String
  pub internal_port : ℕ
  pub install_internal_sshd : Bool
  pub meta : SpecMeta

pub data CloudType : Type 0 where
  secure community : CloudType

pub record PodResourceHints : Type 0 where
  pub gpu_type_id : Option String
  pub gpu_count : ℕ
  pub cloud_type : Option CloudType
  pub container_disk_gb : ℕ
  pub volume_gb : Option ℕ
  pub expose_public_ip : Bool
  pub cpu_only : Bool
  pub vcpu_count : Option ℕ

pub record DeploymentSpec : Type 0 where
  pub primary_app : AgentSpec
  pub network_storage : Option NetworkStorageSpec
  pub s3_storage : Option S3StorageSpec
  pub ssh_commands : Option SshCommandSpec
  pub keep_alive : Option KeepAlivePolicy
  pub ssh_access : SshAccessPolicy
  pub resource_hints : PodResourceHints
  pub reuse_policy : ReusePolicy
  pub meta : SpecMeta
