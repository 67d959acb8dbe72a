-- ===== src/Specs.antt =====
-- specs.py: the specifications that the nodes build and the planner reads. `Literal` types are
-- enumerations, optional fields are `Option`, and a `dict` of texts is a `Dict String`.
-- Amounts in US dollars are counted in millionths.
pub mod Deployment
use comfyui_runpod_agentic_n.Base.{ℕ, String, Bool, Option, List, ℤ}
use comfyui_runpod_agentic_n.Base.Dict.{Dict}

pub data Materialization : Type 0 where
  own_pod same_pod file_only env_only config_only : Materialization

pub data StartupMode : Type 0 where
  wait_for_commands auto_start manual : StartupMode

pub data CommandPhase : Type 0 where
  before_start after_start after_ready teardown : CommandPhase

pub data FailurePolicy : Type 0 where
  fail continue retry : FailurePolicy

pub data KeepAliveMode : Type 0 where
  time turns cost manual : KeepAliveMode

pub data LimitAction : Type 0 where
  stop terminate : LimitAction

pub data KeepAliveEnforcement : Type 0 where
  server_side pod_side both : KeepAliveEnforcement

pub data RunMode : Type 0 where
  plan apply apply_and_wait stop terminate : RunMode

pub data VolumeRetentionPolicy : Type 0 where
  preserve delete_when_unused delete_with_deployment : VolumeRetentionPolicy

pub data ReusePolicy : Type 0 where
  reuse_matching always_create resume_stopped : ReusePolicy

pub data SecretProvider : Type 0 where
  runpod_secret server_env literal_for_dev_only : SecretProvider

pub data Protocol : Type 0 where
  http tcp : Protocol

pub record SpecMeta : Type 0 where
  pub spec_version : String
  pub node_id : Option String
  pub display_name : Option String

pub record SecretRef : Type 0 where
  pub name : String
  pub env_var : String
  pub provider : SecretProvider

pub record PortSpec : Type 0 where
  pub name : String
  pub container_port : ℕ
  pub protocol : Protocol
  pub public : Bool

pub record EnvPatch : Type 0 where
  pub values : Dict String
  pub secrets : List SecretRef

pub record RuntimeCommand : Type 0 where
  pub command : String
  pub phase : CommandPhase
  pub order : ℤ
  pub failure_policy : FailurePolicy
  pub retry_count : ℕ
  pub source : Option String

pub record RuntimeContract : Type 0 where
  pub env : EnvPatch
  pub ports : List PortSpec
  pub files : Dict String
  pub commands : List RuntimeCommand

pub record NetworkStorageSpec : Type 0 where
  pub network_volume_id : String
  pub mount_path : String
  pub retention_policy : VolumeRetentionPolicy
  pub size_gb : Option ℕ
  pub data_center_id : Option String
  pub name : Option String
  pub meta : SpecMeta

pub data BrowserEngine : Type 0 where
  neko playwright : BrowserEngine

pub record BrowserSpec : Type 0 where
  pub engine : BrowserEngine
  pub materialization : Materialization
  pub browser_engine : Option String
  pub runtime_contract : RuntimeContract
  pub required_image_capabilities : List String
  pub template_key : Option String
  pub network_storage : Option NetworkStorageSpec
  pub meta : SpecMeta

pub data AuthMode : Type 0 where
  password none : AuthMode

pub record WebTerminalSpec : Type 0 where
  pub shell : String
  pub port : ℕ
  pub host_port : ℕ
  pub auth_mode : AuthMode
  pub username : String
  pub password : String
  pub runtime_contract : RuntimeContract
  pub meta : SpecMeta

pub data LlmEngine : Type 0 where
  ollama vllm : LlmEngine

pub data ApiFormat : Type 0 where
  openai ollama anthropic : ApiFormat

pub record LlmServerSpec : Type 0 where
  pub engine : LlmEngine
  pub model : String
  pub materialization : Materialization
  pub api_format : ApiFormat
  pub runtime_contract : RuntimeContract
  pub required_image_capabilities : List String
  pub template_key : Option String
  pub hf_token_secret : Option SecretRef
  pub api_key_secret : Option SecretRef
  pub network_storage : Option NetworkStorageSpec
  pub meta : SpecMeta

pub data LlmProvider : Type 0 where
  codex claude ollama_cloud : LlmProvider

pub record LlmApiSpec : Type 0 where
  pub provider : LlmProvider
  pub model : String
  pub api_format : ApiFormat
  pub base_url : Option String
  pub runtime_contract : RuntimeContract
  pub api_key_secret : Option SecretRef
  pub meta : SpecMeta

pub data SqlEngine : Type 0 where
  postgres mysql sqlite : SqlEngine

pub record SqlDatabaseSpec : Type 0 where
  pub engine : SqlEngine
  pub materialization : Materialization
  pub database_name : String
  pub username : Option String
  pub password_secret : Option SecretRef
  pub runtime_contract : RuntimeContract
  pub template_key : Option String
  pub network_storage : Option NetworkStorageSpec
  pub meta : SpecMeta

pub data VectorEngine : Type 0 where
  chroma qdrant : VectorEngine

pub record VectorDatabaseSpec : Type 0 where
  pub engine : VectorEngine
  pub materialization : Materialization
  pub collection_name : String
  pub persistence_path : String
  pub runtime_contract : RuntimeContract
  pub template_key : Option String
  pub network_storage : Option NetworkStorageSpec
  pub meta : SpecMeta
