-- ===== src/Nodes/Agent.antt =====
-- nodes.py: the agent node, which joins the contracts of what is connected to it.
pub mod Contract
use comfyui_runpod_agentic_n.Base.{
  String, ◌<>◌, Bool, true, false, not, ◌&&◌, ◌||◌, Option, none, some, List, [], ◌∷◌, ◌++◌,
  if◌then◌else◌, ℤ, negsuc, is_empty, is_some,
}
use comfyui_runpod_agentic_n.Base.Dict.{Dict, update}
use comfyui_runpod_agentic_n.Base.Text.{strip}
use comfyui_runpod_agentic_n.Specs.{
  Materialization, StartupMode, FailurePolicy, RuntimeCommand, RuntimeContract, BrowserSpec,
  WebTerminalSpec, LlmServerSpec, LlmApiSpec, SqlDatabaseSpec, VectorDatabaseSpec,
}
use comfyui_runpod_agentic_n.Specs.Deployment.{
  McpServerSpec, SkillSpec, SubagentSpec, Harness, AgentSpec,
}
use comfyui_runpod_agentic_n.Planner.Build.{harness_text}
use comfyui_runpod_agentic_n.Nodes.{Scripts, meta_of}
use comfyui_runpod_agentic_n.Nodes.Services.{setup_command, contract_of}

-- The input `llm`, of one type or the other.
pub data Llm : Type 0 where
  api : LlmApiSpec → Llm
  server : LlmServerSpec → Llm

pub record AgentInputs : Type 0 where
  pub harness : Harness
  pub model : String
  pub startup_mode : StartupMode
  pub workspace_path : String
  pub system_prompt : String
  pub browser : Option BrowserSpec
  pub llm : Option Llm
  pub sql_database : Option SqlDatabaseSpec
  pub vector_database : Option VectorDatabaseSpec
  pub mcp_servers : Option McpServerSpec
  pub skills : Option SkillSpec
  pub subagents : Option SubagentSpec
  pub terminal : Option WebTerminalSpec
  pub image_name : Option String
  pub node_id : Option String

abbrev pub llm_api_of : Option Llm → Option LlmApiSpec
llm_api_of (some (Llm.api spec)) = some spec
llm_api_of _ = none

abbrev pub llm_server_of : Option Llm → Option LlmServerSpec
llm_server_of (some (Llm.server spec)) = some spec
llm_server_of _ = none

abbrev is_same_pod : Materialization → Bool
is_same_pod Materialization.same_pod = true
is_same_pod _ = false

abbrev pub browser_capabilities : Option BrowserSpec → List String
browser_capabilities none = []
browser_capabilities (some b) =
    if is_same_pod b.materialization then b.required_image_capabilities else []

abbrev pub llm_capabilities : Option LlmServerSpec → List String
llm_capabilities none = []
llm_capabilities (some s) =
    if is_same_pod s.materialization then s.required_image_capabilities else []

abbrev pub is_manual : StartupMode → Bool
is_manual StartupMode.manual = true
is_manual _ = false

abbrev startup_text : StartupMode → String
startup_text StartupMode.wait_for_commands = "wait_for_commands"
startup_text StartupMode.auto_start = "auto_start"
startup_text StartupMode.manual = "manual"

-- The choices of the combo box; the display name of the harness in harnesses.py is the same.
abbrev harness_title : Harness → String
harness_title Harness.codex = "Codex"
harness_title Harness.claude = "Claude"
harness_title Harness.opencode = "OpenCode"
harness_title Harness.hermes = "Hermes"
harness_title Harness.pi = "Pi"

-- `HARNESS_SUPPORT[harness_id].system_prompt`
abbrev supports_system_prompt : Harness → Bool
supports_system_prompt Harness.claude = true
supports_system_prompt Harness.pi = true
supports_system_prompt _ = false

-- `harness_capability_warning`
unfoldable pub harness_capability_warning : Harness → String → String
unfolding strip
harness_capability_warning harness system_prompt =
    if not (is_empty (strip system_prompt)) && not (supports_system_prompt harness)
    then (harness_title harness
        <> " does not advertise system prompt support; AGENT_SYSTEM_PROMPT is available in the environment but the built-in launcher will not pass a guessed CLI flag.")
    else ""

-- `skip_terminal_only_manual`; subagents are not among the inputs that it looks at.
unfoldable pub skips_install : AgentInputs → Bool
skips_install i =
    (is_manual i.startup_mode && is_some i.terminal)
    && not (
        is_some i.browser
        || (is_some i.llm
            || (is_some i.sql_database
                || (is_some i.vector_database || (is_some i.mcp_servers || is_some i.skills)))))

-- The first argument is the test of `CRAG_SKIP_HARNESS_INSTALL`.
unfoldable pub install_commands : Bool → Scripts → AgentInputs → List RuntimeCommand
unfolding skips_install
install_commands skip_harness scripts i =
    if not (skips_install i) && not skip_harness
    then setup_command (scripts.harness_install i.harness) (negsuc 29999)
        (if is_some i.terminal then FailurePolicy.continue else FailurePolicy.fail)
        ("harness:" <> harness_text i.harness)
      ∷ []
    else []

unfoldable pub agent_env : AgentInputs → Dict String
unfolding harness_capability_warning
agent_env i =
    let warning = harness_capability_warning i.harness i.system_prompt in
    ("AGENT_HARNESS", harness_text i.harness)
    ∷ ("AGENT_MODEL", i.model)
    ∷ ("AGENT_STARTUP_MODE", startup_text i.startup_mode)
    ∷ ("AGENT_SYSTEM_PROMPT", i.system_prompt)
    ∷ ("WORKSPACE_DIR", i.workspace_path)
    ∷ (if is_empty warning then [] else ("CRAG_AGENT_WARNINGS", warning) ∷ [])

unfoldable pub own_contract : Bool → Scripts → AgentInputs → RuntimeContract
unfolding agent_env install_commands
own_contract skip_harness scripts i =
    contract_of (agent_env i) [] [] [] (install_commands skip_harness scripts i)

-- `if mcp_servers:`, whose files replace those before, and which takes no ports.
unfoldable pub with_mcp : RuntimeContract → Option McpServerSpec → RuntimeContract
unfolding update
with_mcp contract none = contract
with_mcp contract (some spec) =
    let c = spec.runtime_contract in
    contract_of (update contract.env.values c.env.values) (contract.env.secrets ++ c.env.secrets) []
      c.files (contract.commands ++ c.commands)

-- `if skills:` and `if subagents:`
unfoldable pub with_files : RuntimeContract → Option RuntimeContract → RuntimeContract
unfolding update
with_files contract none = contract
with_files contract (some c) =
    contract_of (update contract.env.values c.env.values) (contract.env.secrets ++ c.env.secrets) []
      (update contract.files c.files) (contract.commands ++ c.commands)

-- `if terminal:`
unfoldable pub with_ports : RuntimeContract → Option RuntimeContract → RuntimeContract
unfolding update
with_ports contract none = contract
with_ports contract (some c) =
    contract_of (update contract.env.values c.env.values) (contract.env.secrets ++ c.env.secrets)
      (contract.ports ++ c.ports) (update contract.files c.files) (contract.commands ++ c.commands)

abbrev pub mcp_contract : Option McpServerSpec → Option RuntimeContract
mcp_contract none = none
mcp_contract (some spec) = some spec.runtime_contract

abbrev pub skill_contract : Option SkillSpec → Option RuntimeContract
skill_contract none = none
skill_contract (some spec) = some spec.runtime_contract

abbrev pub subagent_contract : Option SubagentSpec → Option RuntimeContract
subagent_contract none = none
subagent_contract (some spec) = some spec.runtime_contract

abbrev pub terminal_contract : Option WebTerminalSpec → Option RuntimeContract
terminal_contract none = none
terminal_contract (some spec) = some spec.runtime_contract

unfoldable pub joined_contract : Bool → Scripts → AgentInputs → RuntimeContract
unfolding own_contract with_mcp with_files with_ports
joined_contract skip_harness scripts i =
    with_ports
      (with_files
        (with_files (with_mcp (own_contract skip_harness scripts i) i.mcp_servers)
          (skill_contract i.skills))
        (subagent_contract i.subagents))
      (terminal_contract i.terminal)

-- `image_name.strip() if image_name else None`
abbrev image_of : Option String → Option String
unfolding strip
image_of none = none
image_of (some name) = if is_empty name then none else some (strip name)

-- `AgentNode.build`
unfoldable pub build_agent : Bool → Scripts → AgentInputs → AgentSpec
unfolding joined_contract image_of
build_agent skip_harness scripts i = record {
  harness = i.harness;
  model = i.model;
  startup_mode = i.startup_mode;
  workspace_path = i.workspace_path;
  system_prompt = i.system_prompt;
  browser = i.browser;
  llm_api = llm_api_of i.llm;
  llm_server = llm_server_of i.llm;
  sql_database = i.sql_database;
  vector_database = i.vector_database;
  mcp_servers = i.mcp_servers;
  skills = i.skills;
  subagents = i.subagents;
  terminal = i.terminal;
  image_name = image_of i.image_name;
  runtime_contract = joined_contract skip_harness scripts i;
  required_image_capabilities =
      browser_capabilities i.browser ++ llm_capabilities (llm_server_of i.llm);
  template_key = none;
  meta = meta_of i.node_id (harness_title i.harness);
}
