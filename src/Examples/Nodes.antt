-- ===== src/Examples/Nodes.antt =====
-- The nodes at concrete inputs.
use comfyui_runpod_agentic_n.Base.{
  if◌then◌else◌, true, false, not, ◌&&◌, ◌||◌, none, some, [], ◌∷◌, ◌++◌, ◌≡◌, refl, pos, is_empty,
  ◌=ℕ=◌, contains, leb_ℤ,
}
use comfyui_runpod_agentic_n.Base.Text.{strip}
use comfyui_runpod_agentic_n.Base.Sort.{All, IsSorted}
use comfyui_runpod_agentic_n.Base.Result.{ok, is_ok}
use comfyui_runpod_agentic_n.Specs.{
  CommandPhase, FailurePolicy, StartupMode, RunMode, VolumeRetentionPolicy, WebTerminalSpec,
  AuthMode,
}
use comfyui_runpod_agentic_n.Specs.Deployment.{
  Harness, SubagentSpec, SshCommandSpec, DeploymentSpec,
}
use comfyui_runpod_agentic_n.Contracts.{merge_contracts}
use comfyui_runpod_agentic_n.Validation.{has_volume}
use comfyui_runpod_agentic_n.Planner.Build.{build}
use comfyui_runpod_agentic_n.Nodes.{Scripts}
use comfyui_runpod_agentic_n.Nodes.Services.{contract_of}
use comfyui_runpod_agentic_n.Nodes.Commands.{
  NewCommand, add_ℕ, commands_of, placed, inferred_command_order, append_command,
  previous_subagents, names_of, described, build_subagent, has_duplicates,
}
use comfyui_runpod_agentic_n.Nodes.Commands.Order.{append_command-IsSorted}
use comfyui_runpod_agentic_n.Nodes.Commands.Subagents.{chain_after, build_subagent-Distinct}
use comfyui_runpod_agentic_n.Nodes.Agent.{
  AgentInputs, own_contract, joined_contract, mcp_contract, skill_contract, subagent_contract,
  terminal_contract,
}
use comfyui_runpod_agentic_n.Nodes.Agent.Contract.{joined_contract-merge_contracts}
use comfyui_runpod_agentic_n.Nodes.Deploy.{build_network_storage, assembled, build_deployment}
use comfyui_runpod_agentic_n.Nodes.Deploy.Volumes.{build_network_storage-has_volume}
use comfyui_runpod_agentic_n.Nodes.Deploy.Plans.{fits, build_deployment-build}
use comfyui_runpod_agentic_n.Examples.Inputs.{meta, agent, ambient, resolver, commands}

abbrev scripts : Scripts
scripts = record {
  harness_install = λ harness. "install";
  same_pod_llm_start = λ engine model. "start";
  database_client_setup = λ engine python. "client";
  local_sql_setup = λ path name python. "sqlite";
  embedded_chroma_setup = λ path python. "chroma";
  web_terminal = λ port shell auth user password. "ttyd";
  skill_install = λ skill. skill.repo_url;
  package_install = λ manager packages. ok packages;
  git_repository = λ url path ref. ok url;
  language_runtime = λ runtime version. ok runtime;
  database_skill_files = [];
  mcp_json = λ servers. "servers";
  skills_json = λ skills. "skills";
  subagents_json = λ subagents. "subagents";
  split = λ text. ok (text ∷ []);
  parse_object = λ text. ok [];
  uuid_hex = "fedcba9876543210";
}

abbrev command : NewCommand
command = record {
  command = "make";
  phase = CommandPhase.after_start;
  failure_policy = FailurePolicy.fail;
  retry_count = 0;
}

abbrev one : SshCommandSpec
one = record { commands = placed command (pos 3) ∷ []; meta = meta }

append_runs : append_command command (some one) none "SSH Command" ≡ record {
  commands = placed command (pos 3) ∷ placed command (pos 103) ∷ [];
  meta = record { spec_version = "0.1"; node_id = none; display_name = some "SSH Command" };
}
unfolding append_command
append_runs = refl

append_command-IsSorted_example :
    let n = inferred_command_order (some one) in
    let added = append_command command (some one) none "SSH Command" in
    (added.commands ≡ commands_of (some one) ++ placed command n ∷ [])
    × All (λ x. leb_ℤ (add_ℕ x.order 100) n ≡ true) (commands_of (some one))
    × IsSorted (λ c. c.order) added.commands
append_command-IsSorted_example =
    append_command-IsSorted command (some one) none "SSH Command" (tt, tt)

abbrev reviewers : SubagentSpec
reviewers = record {
  subagents = record { name = "reviewer"; model = "m"; system_prompt = "" } ∷ [];
  runtime_contract = contract_of [] [] [] [] [];
  meta = meta;
}

-- The cleaned name is taken already.
subagent_runs : is_ok (build_subagent scripts " Reviewer " "gpt" "" (some reviewers) none) ≡ false
unfolding build_subagent described has_duplicates
subagent_runs = refl

build_subagent-Distinct_example :
    let added = described scripts "Code Writer" "gpt" "Write." none in
    let chain = previous_subagents (some reviewers) in
    let fits = not (is_empty added.model) && not (contains added.name (names_of chain)) in
    let built = build_subagent scripts "Code Writer" "gpt" "Write." (some reviewers) none in
    (is_ok built ≡ fits)
    × (chain_after (some reviewers) built ≡ (if fits then chain ++ added ∷ [] else chain))
    × (has_duplicates (names_of (chain_after (some reviewers) built)) ≡ false)
unfolding has_duplicates
build_subagent-Distinct_example =
    build_subagent-Distinct scripts "Code Writer" "gpt" "Write." (some reviewers) none refl

abbrev terminal : WebTerminalSpec
terminal = record {
  shell = "/bin/bash";
  port = 7681;
  host_port = 7681;
  auth_mode = AuthMode.none;
  username = "crag";
  password = "";
  runtime_contract = contract_of (("CRAG_WEB_TERMINAL", "1") ∷ []) [] [] [] [];
  meta = meta;
}

abbrev inputs : AgentInputs
inputs = record {
  harness = Harness.hermes;
  model = "m";
  startup_mode = StartupMode.auto_start;
  workspace_path = "/workspace";
  system_prompt = "Be brief.";
  browser = none;
  llm = none;
  sql_database = none;
  vector_database = none;
  mcp_servers = none;
  skills = none;
  subagents = some reviewers;
  terminal = some terminal;
  image_name = some " ";
  node_id = some "4";
}

joined_contract-merge_contracts_example :
    joined_contract false scripts inputs
    ≡ merge_contracts (
        some (own_contract false scripts inputs)
        ∷ mcp_contract inputs.mcp_servers
        ∷ skill_contract inputs.skills
        ∷ subagent_contract inputs.subagents
        ∷ terminal_contract inputs.terminal
        ∷ [])
joined_contract-merge_contracts_example =
    joined_contract-merge_contracts false scripts inputs tt tt tt refl

build_network_storage-has_volume_example :
    has_volume (
      build_network_storage "fedcba9876543210" " " "/workspace" VolumeRetentionPolicy.preserve 20 ""
        "data"
        (some "7"))
    ≡ (not (is_empty (strip " ")) || (20 =ℕ= 0 || not (is_empty (strip ""))))
build_network_storage-has_volume_example =
    build_network_storage-has_volume "fedcba9876543210" " " "/workspace"
      VolumeRetentionPolicy.preserve 20 "" "data" (some "7")

abbrev put_together : DeploymentSpec
unfolding assembled
put_together = assembled agent none none (some commands) none (some "9")

deploy_runs : build_deployment agent none none (some commands) none (some "9") ≡ ok put_together
unfolding build_deployment put_together
deploy_runs = refl

build_deployment-build_example :
    is_ok (build ambient resolver put_together RunMode.apply "hello" none)
    ≡ fits agent.harness agent.required_image_capabilities
build_deployment-build_example =
    build_deployment-build ambient resolver agent none none (some commands) none (some "9")
      put_together RunMode.apply "hello" none refl refl deploy_runs
