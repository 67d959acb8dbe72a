-- ===== src/Planner/Build.antt =====
-- planner.py: `Planner.build`.
use comfyui_runpod_agentic_n.Base.{
  String, ◌<>◌, false, not, Option, none, some, List, [], ◌∷◌, ◌++◌, map, select, value_or,
}
use comfyui_runpod_agentic_n.Base.Result.{Result, ok, ◌>>=◌}
use comfyui_runpod_agentic_n.Base.Text.{first, rstrip_slash}
use comfyui_runpod_agentic_n.Base.Dict.{Dict}
use comfyui_runpod_agentic_n.Specs.{
  Materialization, RuntimeContract, NetworkStorageSpec, VolumeRetentionPolicy, RunMode,
}
use comfyui_runpod_agentic_n.Specs.Deployment.{DeploymentSpec, Harness}
use comfyui_runpod_agentic_n.Contracts.{merge_contracts, with_env}
use comfyui_runpod_agentic_n.Templates.{TemplateResolver, resolve_agent, resolve_app}
use comfyui_runpod_agentic_n.Validation.{validate_deployment}
use comfyui_runpod_agentic_n.Names.{managed_name}
use comfyui_runpod_agentic_n.Planner.Plan.{
  Role, AppSpec, ResourcePlan, DeploymentPlan, Plain, Ambient,
}
use comfyui_runpod_agentic_n.Planner.Env.{
  managed_by, contract_env_for_creation, keep_alive_env, dependency_pod_contract,
}
use comfyui_runpod_agentic_n.Planner.PodInput.{
  app_role, app_kind, app_engine, app_materialization, app_contract, app_storage, app_meta,
  is_own_pod, option_list, own_pod_dependencies, pod_input,
}
use comfyui_runpod_agentic_n.Planner.Actions.{actions}

abbrev pub harness_text : Harness → String
harness_text Harness.codex = "codex"
harness_text Harness.claude = "claude"
harness_text Harness.opencode = "opencode"
harness_text Harness.hermes = "hermes"
harness_text Harness.pi = "pi"

abbrev retention_of : Option NetworkStorageSpec → Option VolumeRetentionPolicy
retention_of none = none
retention_of (some s) = some s.retention_policy

-- The body of the loop over the dependencies.
unfoldable pub dependency_resource :
    Ambient → TemplateResolver → DeploymentSpec → String → AppSpec → Result ResourcePlan
unfolding resolve_app dependency_pod_contract managed_name pod_input contract_env_for_creation first
dependency_resource ambient resolver d workflow_hash spec = do
  selection ← resolve_app resolver (app_kind spec) (app_engine spec)
  let role = app_role spec
  let contract = dependency_pod_contract role (app_contract spec)
  let desired_hash = first 12 (ambient.hexdigest (Plain.app spec))
  let name = managed_name workflow_hash role (app_meta spec).node_id desired_hash
  ok (record {
    role = role;
    node_id = (app_meta spec).node_id;
    desired_hash = desired_hash;
    name = name;
    template_id = selection.template_id;
    materialization = app_materialization spec;
    env = contract_env_for_creation contract;
    secrets = contract.env.secrets;
    ports = contract.ports;
    pod_input = pod_input ambient d (record {
      template_id = selection.template_id;
      name = name;
      role = role;
      node_id = (app_meta spec).node_id;
      desired_hash = desired_hash;
      contract = contract;
      network_storage = app_storage spec;
      install_sshd = false;
      image_name = none;
    });
    storage_retention_policy = retention_of (app_storage spec);
  })

unfoldable pub dependency_resources :
    Ambient → TemplateResolver → DeploymentSpec → String → List AppSpec → Result (List ResourcePlan)
unfolding dependency_resource
dependency_resources ambient resolver d workflow_hash [] = ok []
dependency_resources ambient resolver d workflow_hash (spec ∷ specs) =
    let later = dependency_resources ambient resolver d workflow_hash specs in
    do
      resource ← dependency_resource ambient resolver d workflow_hash spec
      resources ← later
      ok (resource ∷ resources)

abbrev unless_own_pod : AppSpec → List (Option RuntimeContract)
unless_own_pod spec =
    map (λ s. some (app_contract s))
      (select (λ s. not (is_own_pod (app_materialization s))) (spec ∷ []))

abbrev each_option :
    {A : Type 0} → (A → List (Option RuntimeContract)) → Option A → List (Option RuntimeContract)
each_option f none = []
each_option f (some a) = f a

-- The contracts that take effect in the agent's own pod.
unfoldable pub local_contracts : DeploymentSpec → List (Option RuntimeContract)
unfolding select
local_contracts d =
    let app = d.primary_app in
    some app.runtime_contract
    ∷ (each_option (λ s. unless_own_pod (AppSpec.browser s)) app.browser
        ++ (each_option (λ s. unless_own_pod (AppSpec.llm s)) app.llm_server
            ++ (each_option (λ s. unless_own_pod (AppSpec.sql s)) app.sql_database
                ++ (each_option (λ s. unless_own_pod (AppSpec.vector s)) app.vector_database
                    ++ (option_list (λ s. some s.runtime_contract) app.llm_api
                        ++ option_list (λ s. some s.runtime_contract) d.s3_storage)))))

-- The variables that the planner sets for the agent.
unfoldable pub agent_env : DeploymentSpec → String → String → String → Dict String
unfolding rstrip_slash
agent_env d run_id workflow_hash prompt =
    let app = d.primary_app in
    ("RUNPOD_MANAGED_BY", managed_by)
    ∷ ("CRAG_RUN_ID", run_id)
    ∷ ("CRAG_WORKFLOW_HASH", workflow_hash)
    ∷ ("CRAG_NODE_ID", value_or app.meta.node_id "")
    ∷ ("CRAG_ROLE", "agent")
    ∷ ("CRAG_RUNTIME_DIR", rstrip_slash app.workspace_path <> "/.runpod_agentic")
    ∷ ("AGENT_PROMPT", prompt)
    ∷ ("WORKSPACE_DIR", app.workspace_path)
    ∷ []

unfoldable pub agent_contract :
    Ambient → DeploymentSpec → String → String → String → RuntimeContract
unfolding merge_contracts with_env agent_env keep_alive_env local_contracts own_pod_dependencies
agent_contract ambient d run_id workflow_hash prompt =
    let local = merge_contracts (local_contracts d) in
    let joined =
      merge_contracts (some local ∷ map (λ s. some (app_contract s)) (own_pod_dependencies d)) in
    with_env (with_env joined (agent_env d run_id workflow_hash prompt))
      (keep_alive_env ambient.float_text d.keep_alive)

unfoldable pub agent_resource :
    Ambient → DeploymentSpec → String → String → RuntimeContract → ResourcePlan
unfolding merge_contracts local_contracts managed_name pod_input contract_env_for_creation first
agent_resource ambient d workflow_hash template_id contract =
    let app = d.primary_app in
    let pod_contract = record contract { ports = (merge_contracts (local_contracts d)).ports } in
    let desired_hash = first 12 (ambient.hexdigest (Plain.agent app)) in
    let name = managed_name workflow_hash Role.agent app.meta.node_id desired_hash in
    record {
      role = Role.agent;
      node_id = app.meta.node_id;
      desired_hash = desired_hash;
      name = name;
      template_id = template_id;
      materialization = Materialization.own_pod;
      env = contract_env_for_creation contract;
      secrets = contract.env.secrets;
      ports = pod_contract.ports;
      pod_input = pod_input ambient d (record {
        template_id = template_id;
        name = name;
        role = Role.agent;
        node_id = app.meta.node_id;
        desired_hash = desired_hash;
        contract = pod_contract;
        network_storage = d.network_storage;
        install_sshd = d.ssh_access.install_internal_sshd;
        image_name = app.image_name;
      });
      storage_retention_policy = retention_of d.network_storage;
    }

-- `stable_hash(workflow_graph if workflow_graph is not None else to_plain(deployment))[:12]`
abbrev pub workflow_hash_of : Ambient → DeploymentSpec → Option String → String
workflow_hash_of ambient d none = first 12 (ambient.hexdigest (Plain.deployment d))
workflow_hash_of ambient d (some graph) = first 12 (ambient.hexdigest (Plain.graph graph))

unfoldable pub build :
    Ambient
    → TemplateResolver
    → DeploymentSpec
    → RunMode
    → String
    → Option String
    → Result DeploymentPlan
unfolding validate_deployment dependency_resources agent_contract agent_resource resolve_agent
    actions own_pod_dependencies first
build ambient resolver d mode prompt graph = do
  warnings ← validate_deployment d mode false none
  let workflow_hash = workflow_hash_of ambient d graph
  let run_id = "crag-" <> first 12 ambient.uuid_hex
  deps ← dependency_resources ambient resolver d workflow_hash (own_pod_dependencies d)
  let contract = agent_contract ambient d run_id workflow_hash prompt
  selection ←
      resolve_agent resolver (harness_text d.primary_app.harness)
        d.primary_app.required_image_capabilities
  let agent = agent_resource ambient d workflow_hash selection.template_id contract
  let resources = deps ++ agent ∷ []
  steps ← actions ambient resources d contract
  ok (record {
    run_id = run_id;
    workflow_hash = workflow_hash;
    deployment_hash = ambient.hexdigest (Plain.deployment d);
    mode = mode;
    prompt = prompt;
    resources = resources;
    runtime_contract = contract;
    ssh_access = d.ssh_access;
    reuse_policy = d.reuse_policy;
    keep_alive = d.keep_alive;
    actions = steps;
    warnings = warnings;
  })
