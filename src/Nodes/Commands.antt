-- ===== src/Nodes/Commands.antt =====
-- nodes.py: the nodes that form chains, each with what the node before it has: commands of the graph,
-- MCP servers, subagents and skills.
pub mod Order
pub mod Subagents
use Prim.Native.Char.{code}
use comfyui_runpod_agentic_n.Base.{
  ℕ, suc, ◌+◌, ◌-◌, String, ◌<>◌, Bool, true, false, not, ◌&&◌, ◌||◌, Option, none, some, List, [],
  ◌∷◌, ◌++◌, map, if◌then◌else◌, ℤ, pos, negsuc, leb, leb_ℤ, ◌=ℕ=◌, is_empty, value_or, contains,
  starts_with,
}
use comfyui_runpod_agentic_n.Base.Dict.{Dict, get}
use comfyui_runpod_agentic_n.Base.Sort.{sorted_by}
use comfyui_runpod_agentic_n.Base.Text.{first, strip}
use comfyui_runpod_agentic_n.Base.Characters.{is_alnum, lower_text, replace_char, keep, strip_char}
use comfyui_runpod_agentic_n.Base.Result.{Result, ok, require, key_error, ◌>>=◌}
use comfyui_runpod_agentic_n.Specs.{
  CommandPhase, FailurePolicy, SecretRef, SecretProvider, RuntimeCommand, RuntimeContract,
}
use comfyui_runpod_agentic_n.Specs.Deployment.{
  Transport, McpServer, McpServerSpec, SkillKind, SkillSource, SkillSpec, Subagent, SubagentSpec,
  SshCommand, SshCommandSpec,
}
use comfyui_runpod_agentic_n.Nodes.{Scripts, norm, meta_of, invalid, stripped_or, text_of}
use comfyui_runpod_agentic_n.Nodes.Services.{setup_command, contract_of}

-- `n + k`
abbrev pub add_ℕ : ℤ → ℕ → ℤ
add_ℕ (pos a) k = pos (a + k)
add_ℕ (negsuc a) k = if leb (suc a) k then pos (k - suc a) else negsuc (a - k)

abbrev pub max_ℤ : ℤ → ℤ → ℤ
max_ℤ a b = if leb_ℤ a b then b else a

unfoldable pub max_order : ℤ → List SshCommand → ℤ
max_order n [] = n
max_order n (c ∷ rest) = max_order (max_ℤ n c.order) rest

abbrev pub commands_of : Option SshCommandSpec → List SshCommand
commands_of none = []
commands_of (some spec) = spec.commands

abbrev pub order_after : List SshCommand → ℤ
order_after [] = pos 0
order_after (c ∷ rest) = add_ℕ (max_order c.order rest) 100

-- `inferred_command_order`
unfoldable pub inferred_command_order : Option SshCommandSpec → ℤ
unfolding max_order
inferred_command_order previous = order_after (commands_of previous)

-- A command without its place in the chain.
pub record NewCommand : Type 0 where
  pub command : String
  pub phase : CommandPhase
  pub failure_policy : FailurePolicy
  pub retry_count : ℕ

abbrev pub placed : NewCommand → ℤ → SshCommand
placed c order = record {
  command = c.command;
  phase = c.phase;
  order = order;
  failure_policy = c.failure_policy;
  retry_count = c.retry_count;
}

-- What the four nodes do with the command that they have.
unfoldable pub append_command :
    NewCommand → Option SshCommandSpec → Option String → String → SshCommandSpec
unfolding inferred_command_order sorted_by
append_command c previous node_id display = record {
  commands =
      sorted_by (λ item. item.order)
        (commands_of previous ++ placed c (inferred_command_order previous) ∷ []);
  meta = meta_of node_id display;
}

-- `SSHCommandNode.build`
unfoldable pub build_ssh_command :
    NewCommand → Option SshCommandSpec → Option String → SshCommandSpec
unfolding append_command
build_ssh_command c previous node_id = append_command c previous node_id "SSH Command"

abbrev setup : String → FailurePolicy → ℕ → NewCommand
setup command failure_policy retry_count = record {
  command = command;
  phase = CommandPhase.before_start;
  failure_policy = failure_policy;
  retry_count = retry_count;
}

-- `PackageNode.build`
unfoldable pub build_package :
    Scripts
    → String
    → String
    → FailurePolicy
    → ℕ
    → Option SshCommandSpec
    → Option String
    → Result SshCommandSpec
unfolding append_command
build_package scripts manager packages policy retry_count previous node_id =
    scripts.package_install manager packages >>= λ command.
    ok (append_command (setup command policy retry_count) previous node_id "Package")

-- `GitRepositoryNode.build`
unfoldable pub build_git_repository :
    Scripts
    → String
    → String
    → String
    → FailurePolicy
    → ℕ
    → Option SshCommandSpec
    → Option String
    → Result SshCommandSpec
unfolding append_command
build_git_repository scripts repo_url target_path git_ref policy retry_count previous node_id =
    scripts.git_repository repo_url target_path git_ref >>= λ command.
    ok (append_command (setup command policy retry_count) previous node_id "Git Repository")

-- `LanguageRuntimeNode.build`
unfoldable pub build_language_runtime :
    Scripts
    → String
    → ℕ
    → FailurePolicy
    → ℕ
    → Option SshCommandSpec
    → Option String
    → Result SshCommandSpec
unfolding append_command
build_language_runtime scripts runtime version policy retry_count previous node_id =
    scripts.language_runtime runtime version >>= λ command.
    ok (append_command (setup command policy retry_count) previous node_id "Language Runtime")

-- `value.split(",")`
split_comma : String → List String
split_comma String.[] = "" ∷ []
split_comma (String.◌∷◌ c s) =
    let parts = split_comma s in
    if code c =ℕ= b','
    then "" ∷ parts
    else elim parts [ [] ↦ String.◌∷◌ c String.[] ∷ [] | part ∷ rest ↦ String.◌∷◌ c part ∷ rest ]

env_secrets : List String → List SecretRef
unfolding strip
env_secrets [] = []
env_secrets (name ∷ rest) =
    let others = env_secrets rest in
    if is_empty (strip name)
    then others
    else (record { name = strip name; env_var = strip name; provider = SecretProvider.server_env })
      ∷ others

abbrev pub previous_servers : Option McpServerSpec → List McpServer
previous_servers none = []
previous_servers (some spec) = spec.servers

gather_secrets : List McpServer → List SecretRef
gather_secrets [] = []
gather_secrets (server ∷ rest) = server.secret_refs ++ gather_secrets rest

-- `mcp_runtime_contract`
unfoldable pub mcp_runtime_contract : Scripts → List McpServer → RuntimeContract
unfolding gather_secrets
mcp_runtime_contract scripts servers =
    contract_of (("MCP_SERVERS_JSON", scripts.mcp_json servers) ∷ []) (gather_secrets servers) [] []
      []

abbrev is_stdio : Transport → Bool
is_stdio Transport.stdio = true
is_stdio _ = false

-- The server that the node describes.
unfoldable pub mcp_server :
    Scripts
    → String
    → Transport
    → String
    → String
    → String
    → Dict String
    → List SecretRef
    → Result McpServer
unfolding strip
mcp_server scripts name transport command args url env secrets =
    if is_stdio transport
    then if is_empty (strip command)
      then invalid "MCP stdio transport requires a command."
      else (scripts.split args >>= λ words. ok (record {
        name = name;
        transport = Transport.stdio;
        command = some (strip command);
        args = words;
        url = none;
        env = env;
        secret_refs = secrets;
      }))
    else if is_empty (strip url)
    then invalid "MCP http/sse transport requires a URL."
    else ok (record {
      name = name;
      transport = transport;
      command = none;
      args = [];
      url = some (strip url);
      env = env;
      secret_refs = secrets;
    })

-- `MCPServerNode.build`
unfoldable pub build_mcp_server :
    Scripts
    → String
    → Transport
    → String
    → String
    → String
    → String
    → String
    → Option McpServerSpec
    → Option String
    → Result McpServerSpec
unfolding strip mcp_server mcp_runtime_contract split_comma env_secrets
build_mcp_server scripts name transport command args url env_json secret_names previous node_id =
    if is_empty (strip name)
    then invalid "MCP server name is required."
    else (scripts.parse_object env_json >>= λ env.
        mcp_server scripts (strip name) transport command args url env
          (env_secrets (split_comma secret_names))
        >>= λ server.
            let servers = previous_servers previous ++ server ∷ [] in
            ok (record {
              servers = servers;
              runtime_contract = mcp_runtime_contract scripts servers;
              meta = meta_of node_id "MCP Server";
            }))

abbrev is_name_character : ℕ → Bool
is_name_character c = is_alnum c || c =ℕ= b'-'

-- `sanitize_subagent_name`
unfoldable pub sanitize_subagent_name : String → String → String
unfolding strip lower_text replace_char keep strip_char
sanitize_subagent_name value fallback =
    let dashes = replace_char b'_' "-" (replace_char b' ' "-" (lower_text (strip value))) in
    let raw = if is_empty dashes then fallback else dashes in
    let clean = strip_char b'-' (keep is_name_character raw) in
    if is_empty clean then fallback else clean

abbrev pub previous_subagents : Option SubagentSpec → List Subagent
previous_subagents none = []
previous_subagents (some spec) = spec.subagents

-- `len(names) != len(set(names))`
unfoldable pub has_duplicates : List String → Bool
has_duplicates [] = false
has_duplicates (name ∷ rest) = contains name rest || has_duplicates rest

abbrev pub names_of : List Subagent → List String
names_of subagents = map (λ s. s.name) subagents

abbrev default_name : Scripts → Option String → String
default_name scripts node_id =
    "subagent-"
    <> lower_text
        (let id = value_or node_id "" in if is_empty id then first 8 scripts.uuid_hex else id)

-- The subagent that the node describes.
unfoldable pub described : Scripts → String → String → String → Option String → Subagent
unfolding sanitize_subagent_name strip lower_text first
described scripts name model prompt node_id = record {
  name = sanitize_subagent_name name (default_name scripts node_id);
  model = strip model;
  system_prompt = strip prompt;
}

-- `SubagentNode.build`, with `subagent_runtime_contract`
unfoldable pub build_subagent :
    Scripts → String → String → String → Option SubagentSpec → Option String → Result SubagentSpec
build_subagent scripts name model prompt previous node_id =
    let subagent = described scripts name model prompt node_id in
    let subagents = previous_subagents previous ++ subagent ∷ [] in
    if is_empty subagent.model
    then invalid "Subagent model is required."
    else if has_duplicates (names_of subagents)
    then invalid ("Duplicate subagent name: " <> (subagent.name <> "."))
    else ok (record {
      subagents = subagents;
      runtime_contract =
          contract_of (("CRAG_SUBAGENTS_JSON", scripts.subagents_json subagents) ∷ []) [] [] [] [];
      meta = meta_of node_id "Subagent";
    })
