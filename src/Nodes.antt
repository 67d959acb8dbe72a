-- ===== src/Nodes.antt =====
-- nodes.py: what the nodes that build specifications share. A choice of a combo box is an enumeration,
-- and a text field is a text. The shell scripts and the JSON texts that the nodes put into contracts are
-- parameters.
pub mod Services
pub mod Models
pub mod Databases
pub mod Commands
pub mod Skills
pub mod Agent
pub mod Deploy
use comfyui_runpod_agentic_n.Base.{
  ℕ, String, ◌<>◌, Bool, true, false, Option, none, some, List, [], ◌∷◌, if◌then◌else◌, is_empty,
  ◌=ℕ=◌, text_or, value_or,
}
use comfyui_runpod_agentic_n.Base.Dict.{Dict}
use comfyui_runpod_agentic_n.Base.Text.{first, strip}
use comfyui_runpod_agentic_n.Base.Characters.{is_alnum, lower_text, replace_char, keep}
use comfyui_runpod_agentic_n.Base.Result.{Result, err, validation_error}
use comfyui_runpod_agentic_n.Specs.{
  SpecMeta, LlmEngine, SqlEngine, RuntimeContract, RuntimeCommand, ReusePolicy, PortSpec, Protocol,
}
use comfyui_runpod_agentic_n.Specs.Deployment.{
  Harness, McpServer, SkillSource, Subagent, PodResourceHints, CloudType, SshAccessPolicy,
  DeploymentSpec,
}

-- The texts that setup_commands.py and `json.dumps` make, the two standard library parsers, and the hex
-- digits of a new UUID.
pub record Scripts : Type 0 where
  pub harness_install : Harness → String
  pub same_pod_llm_start : LlmEngine → String → String
  pub database_client_setup : SqlEngine → Bool → String
  pub local_sql_setup : String → String → Bool → String
  pub embedded_chroma_setup : String → Bool → String
  pub web_terminal : ℕ → String → Bool → String → String → String
  pub skill_install : SkillSource → String
  pub package_install : String → String → Result String
  pub git_repository : String → String → String → Result String
  pub language_runtime : String → ℕ → Result String
  pub database_skill_files : Dict String
  pub mcp_json : List McpServer → String
  pub skills_json : List SkillSource → String
  pub subagents_json : List Subagent → String
  pub split : String → Result (List String)
  pub parse_object : String → Result (Dict String)
  pub uuid_hex : String

-- `norm`
unfoldable pub norm : String → String
unfolding strip lower_text replace_char
norm value = replace_char b' ' "_" (lower_text (strip value))

-- `meta`; the version is the field's default.
abbrev pub meta_of : Option String → String → SpecMeta
meta_of node_id display_name = record {
  spec_version = "0.1";
  node_id = node_id;
  display_name = some display_name;
}

-- `raise ValidationError(message)`
abbrev pub invalid : {A : Type 0} → String → Result A
invalid message = err (record { kind = validation_error; message = message })

abbrev pub port_of : String → ℕ → Protocol → Bool → PortSpec
port_of name container_port protocol public = record {
  name = name;
  container_port = container_port;
  protocol = protocol;
  public = public;
}

-- `value.strip() or default`
abbrev pub stripped_or : String → String → String
stripped_or value default = text_or (some (strip value)) default

-- `value or None` on a text, and `int(value) or None`.
abbrev pub text_of : String → Option String
text_of value = if is_empty value then none else some value

abbrev pub count_of : ℕ → Option ℕ
count_of n = if n =ℕ= 0 then none else some n

-- `generated_volume_id`; both UUIDs that it may draw are the same parameter.
unfoldable pub generated_volume_id : String → Option String → String → String
unfolding norm lower_text keep first replace_char
generated_volume_id uuid_hex node_id volume_name =
    let short = first 8 (keep is_alnum (lower_text (text_or node_id (first 8 uuid_hex)))) in
    let suffix = if is_empty short then first 8 uuid_hex else short in
    let base =
      replace_char b'_' "-"
        (norm (if is_empty volume_name then "crag-workspace" else volume_name)) in
    base <> ("-" <> suffix)

abbrev pub default_resource_hints : PodResourceHints
default_resource_hints = record {
  gpu_type_id = none;
  gpu_count = 1;
  cloud_type = none;
  container_disk_gb = 40;
  volume_gb = none;
  expose_public_ip = true;
  cpu_only = false;
  vcpu_count = none;
}

-- The options of a terminal node, the arguments of `with_terminal_options`; `auto` is no cloud type.
pub record TerminalOptions : Type 0 where
  pub gpu_type_id : String
  pub gpu_count : ℕ
  pub cloud_type : Option CloudType
  pub container_disk_gb : ℕ
  pub volume_gb : ℕ
  pub expose_public_ip : Bool
  pub vcpu_count : ℕ
  pub reuse_policy : ReusePolicy
  pub ssh_access : Option SshAccessPolicy

unfoldable pub with_terminal_options : TerminalOptions → DeploymentSpec → DeploymentSpec
with_terminal_options options deployment =
    let cpu_only = options.gpu_count =ℕ= 0 in
    record deployment {
      resource_hints = record {
        gpu_type_id = if cpu_only then none else text_of options.gpu_type_id;
        gpu_count = options.gpu_count;
        cloud_type = options.cloud_type;
        container_disk_gb = options.container_disk_gb;
        volume_gb = count_of options.volume_gb;
        expose_public_ip = options.expose_public_ip;
        cpu_only = cpu_only;
        vcpu_count = if cpu_only then some options.vcpu_count else none;
      };
      reuse_policy = options.reuse_policy;
      ssh_access = value_or options.ssh_access deployment.ssh_access;
    }
