-- ===== src/Nodes/Deploy.antt =====
-- nodes.py: storage, keep-alive and SSH access nodes, and the node that puts a deployment together.
-- The choice of the time unit is an enumeration, amounts in US dollars are counted in millionths, and
-- `get_ssh_env_config()` is an argument.
pub mod Volumes
pub mod Plans
use comfyui_runpod_agentic_n.Base.{
  ℕ, ◌*◌, String, Bool, true, false, ◌&&◌, Option, none, some, List, [], ◌∷◌, if◌then◌else◌,
  is_empty, is_some, not, text_or, truthy,
}
use comfyui_runpod_agentic_n.Base.Dict.{Dict, get}
use comfyui_runpod_agentic_n.Base.Text.{strip}
use comfyui_runpod_agentic_n.Base.Result.{Result, ok, ◌>>=◌}
use comfyui_runpod_agentic_n.Specs.{
  KeepAliveMode, LimitAction, KeepAliveEnforcement, RunMode, VolumeRetentionPolicy, ReusePolicy,
  SpecMeta, SecretRef, RuntimeContract, NetworkStorageSpec,
}
use comfyui_runpod_agentic_n.Specs.Deployment.{
  AgentSpec, S3StorageSpec, SshCommandSpec, KeepAlivePolicy, SshMode, SshAccessPolicy,
  DeploymentSpec,
}
use comfyui_runpod_agentic_n.Validation.{validate_deployment}
use comfyui_runpod_agentic_n.Nodes.{
  meta_of, text_of, count_of, generated_volume_id, default_resource_hints,
}
use comfyui_runpod_agentic_n.Nodes.Services.{contract_of, runpod_secret}

-- `NetworkStorageNode.build`
unfoldable pub build_network_storage :
    String
    → String
    → String
    → VolumeRetentionPolicy
    → ℕ
    → String
    → String
    → Option String
    → NetworkStorageSpec
unfolding strip generated_volume_id
build_network_storage uuid_hex volume_id mount_path policy size_gb data_center volume_name node_id =
    record {
      network_volume_id =
          if is_empty (strip volume_id) && not (is_some (count_of size_gb))
          then generated_volume_id uuid_hex node_id volume_name
          else strip volume_id;
      mount_path = mount_path;
      retention_policy = policy;
      size_gb = count_of size_gb;
      data_center_id = text_of (strip data_center);
      name = text_of (strip volume_name);
      meta = meta_of node_id "Network Storage";
    }

-- `S3StorageNode.build`
unfoldable pub build_s3_storage :
    String → String → String → String → String → Option String → S3StorageSpec
build_s3_storage endpoint bucket region access_name secret_name node_id =
    let access = runpod_secret access_name "AWS_ACCESS_KEY_ID" in
    let secret = runpod_secret secret_name "AWS_SECRET_ACCESS_KEY" in
    record {
      endpoint = endpoint;
      bucket = bucket;
      region = text_of region;
      access_key_secret = access;
      secret_key_secret = secret;
      env_prefix = "S3";
      runtime_contract =
          contract_of
            (("S3_ENDPOINT", endpoint) ∷ ("S3_BUCKET", bucket) ∷ ("S3_REGION", region) ∷ [])
            (access ∷ secret ∷ []) [] [] [];
      meta = meta_of node_id "S3 Storage";
    }

pub data TimeUnit : Type 0 where
  seconds minutes hours : TimeUnit

abbrev pub multiplier : TimeUnit → ℕ
multiplier seconds = 1
multiplier minutes = 60
multiplier hours = 3600

abbrev is_time : KeepAliveMode → Bool
is_time KeepAliveMode.time = true
is_time _ = false

-- `KeepAliveNode.build`
unfoldable pub build_keep_alive :
    KeepAliveMode
    → LimitAction
    → ℕ
    → TimeUnit
    → ℕ
    → ℕ
    → ℕ
    → KeepAliveEnforcement
    → Option String
    → KeepAlivePolicy
build_keep_alive mode action time_value unit turn_limit cost_limit idle_grace enforcement node_id =
    record {
      mode = mode;
      action = action;
      time_seconds = if is_time mode then some (time_value * multiplier unit) else none;
      turn_limit = count_of turn_limit;
      cost_limit_usd = count_of cost_limit;
      idle_grace_seconds = count_of idle_grace;
      enforcement = enforcement;
      meta = meta_of node_id "Keep Alive";
    }

-- `SSHAccessNode.build`
unfoldable pub build_ssh_access :
    Dict String → SshMode → String → String → String → ℕ → Bool → Option String → SshAccessPolicy
unfolding get
build_ssh_access env_config mode username key_path proxy_suffix port install node_id = record {
  mode = mode;
  username = username;
  private_key_path = text_or (get env_config "private_key_path") key_path;
  proxy_key_suffix =
      if is_empty proxy_suffix then get env_config "proxy_suffix" else some proxy_suffix;
  internal_port = port;
  install_internal_sshd = install;
  meta = meta_of node_id "SSH Access";
}

-- `SSHAccessPolicy()`
abbrev pub default_ssh_access : SshAccessPolicy
default_ssh_access = record {
  mode = SshMode.runpod_proxy;
  username = "root";
  private_key_path = "~/.ssh/id_ed25519";
  proxy_key_suffix = none;
  internal_port = 22;
  install_internal_sshd = false;
  meta = record { spec_version = "0.1"; node_id = none; display_name = none };
}

unfoldable pub assembled :
    AgentSpec
    → Option NetworkStorageSpec
    → Option S3StorageSpec
    → Option SshCommandSpec
    → Option KeepAlivePolicy
    → Option String
    → DeploymentSpec
assembled app network_storage s3_storage commands keep_alive node_id = record {
  primary_app = app;
  network_storage = network_storage;
  s3_storage = s3_storage;
  ssh_commands = commands;
  keep_alive = keep_alive;
  ssh_access = default_ssh_access;
  resource_hints = default_resource_hints;
  reuse_policy = ReusePolicy.reuse_matching;
  meta = meta_of node_id "Deploy";
}

-- `DeployNode.build`; the warnings of the validation are dropped.
unfoldable pub build_deployment :
    AgentSpec
    → Option NetworkStorageSpec
    → Option S3StorageSpec
    → Option SshCommandSpec
    → Option KeepAlivePolicy
    → Option String
    → Result DeploymentSpec
unfolding assembled validate_deployment
build_deployment app network_storage s3_storage commands keep_alive node_id =
    let deployment = assembled app network_storage s3_storage commands keep_alive node_id in
    validate_deployment deployment RunMode.plan false none >>= λ warnings. ok deployment
