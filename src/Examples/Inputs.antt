-- ===== src/Examples/Inputs.antt =====
-- A deployment with a vector database in a pod of its own, and surroundings in which it runs.
use comfyui_runpod_agentic_n.Base.{true, false, none, some, [], ◌∷◌, pos}
use comfyui_runpod_agentic_n.Specs.{
  SpecMeta, Materialization, StartupMode, CommandPhase, FailurePolicy, KeepAliveMode, LimitAction,
  KeepAliveEnforcement, VolumeRetentionPolicy, ReusePolicy, SecretRef, SecretProvider,
  RuntimeContract, NetworkStorageSpec, VectorDatabaseSpec, VectorEngine,
}
use comfyui_runpod_agentic_n.Specs.Deployment.{
  Harness, AgentSpec, SshCommandSpec, KeepAlivePolicy, SshMode, SshAccessPolicy, PodResourceHints,
  DeploymentSpec,
}
use comfyui_runpod_agentic_n.Contracts.{empty_contract}
use comfyui_runpod_agentic_n.Templates.{TemplateResolver, default_template_config}
use comfyui_runpod_agentic_n.Planner.Plan.{Ambient}

abbrev pub meta : SpecMeta
meta = record { spec_version = "1"; node_id = some "Node-7"; display_name = none }

abbrev pub token : SecretRef
token = record { name = "HF"; env_var = "HF_TOKEN"; provider = SecretProvider.runpod_secret }

abbrev pub contract : RuntimeContract
contract = record empty_contract {
  env = record {
    values = ("VECTOR_KIND", "qdrant") ∷ ("HF_TOKEN", "plain") ∷ [];
    secrets = token ∷ [];
  };
  commands =
      record {
        command = "pip install x";
        phase = CommandPhase.before_start;
        order = pos 2;
        failure_policy = FailurePolicy.fail;
        retry_count = 0;
        source = none;
      }
      ∷ [];
}

abbrev pub storage : NetworkStorageSpec
storage = record {
  network_volume_id = "";
  mount_path = "/workspace";
  retention_policy = VolumeRetentionPolicy.preserve;
  size_gb = some 20;
  data_center_id = some "EU-1";
  name = some "data";
  meta = meta;
}

abbrev pub vector : VectorDatabaseSpec
vector = record {
  engine = VectorEngine.qdrant;
  materialization = Materialization.own_pod;
  collection_name = "docs";
  persistence_path = "/data";
  runtime_contract = contract;
  template_key = none;
  network_storage = some storage;
  meta = meta;
}

abbrev pub agent : AgentSpec
agent = record {
  harness = Harness.codex;
  model = "m";
  startup_mode = StartupMode.auto_start;
  workspace_path = "/workspace";
  system_prompt = "";
  browser = none;
  llm_api = none;
  llm_server = none;
  sql_database = none;
  vector_database = some vector;
  mcp_servers = none;
  skills = none;
  subagents = none;
  terminal = none;
  image_name = none;
  runtime_contract = contract;
  required_image_capabilities = [];
  template_key = none;
  meta = meta;
}

abbrev pub policy : KeepAlivePolicy
policy = record {
  mode = KeepAliveMode.time;
  action = LimitAction.stop;
  time_seconds = some 60;
  turn_limit = none;
  cost_limit_usd = none;
  idle_grace_seconds = none;
  enforcement = KeepAliveEnforcement.both;
  meta = meta;
}

abbrev pub access : SshAccessPolicy
access = record {
  mode = SshMode.internal_sshd;
  username = "root";
  private_key_path = "~/.ssh/id";
  proxy_key_suffix = none;
  internal_port = 22;
  install_internal_sshd = true;
  meta = meta;
}

abbrev pub hints : PodResourceHints
hints = record {
  gpu_type_id = some "A100";
  gpu_count = 1;
  cloud_type = none;
  container_disk_gb = 20;
  volume_gb = none;
  expose_public_ip = true;
  cpu_only = false;
  vcpu_count = none;
}

abbrev pub commands : SshCommandSpec
commands = record {
  commands =
      record {
        command = "second";
        phase = CommandPhase.before_start;
        order = pos 5;
        failure_policy = FailurePolicy.retry;
        retry_count = 2;
      }
      ∷ record {
        command = "first";
        phase = CommandPhase.teardown;
        order = pos 1;
        failure_policy = FailurePolicy.continue;
        retry_count = 0;
      }
      ∷ [];
  meta = meta;
}

abbrev pub deployment : DeploymentSpec
deployment = record {
  primary_app = agent;
  network_storage = none;
  s3_storage = none;
  ssh_commands = some commands;
  keep_alive = some policy;
  ssh_access = access;
  resource_hints = hints;
  reuse_policy = ReusePolicy.reuse_matching;
  meta = meta;
}

abbrev pub ambient : Ambient
ambient = record {
  hexdigest = λ p. "0123456789abcdef";
  uuid_hex = "fedcba9876543210";
  iso_after = λ n. "later";
  float_text = λ n. "1.0";
  public_key = λ path. some "ssh-ed25519 AAAA";
  sshd_command = "sshd";
}

abbrev pub resolver : TemplateResolver
resolver = record {
  config = default_template_config;
  template_ids = ("rp-agent-codex", "t1") ∷ ("rp-vector-qdrant", "t2") ∷ [];
}
