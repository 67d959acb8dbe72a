-- ===== src/Planner/Actions.antt =====
-- planner.py: `_actions`, the ordered list of what a run does.
use comfyui_runpod_agentic_n.Base.{
  Bool, true, false, not, Option, none, some, List, [], ◌∷◌, ◌++◌, map, if◌then◌else◌, select,
}
use comfyui_runpod_agentic_n.Base.Result.{Result, ok, err, stop_iteration}
use comfyui_runpod_agentic_n.Base.Sort.{sorted_by}
use comfyui_runpod_agentic_n.Base.Text.{first}
use comfyui_runpod_agentic_n.Specs.{CommandPhase, RuntimeCommand, RuntimeContract}
use comfyui_runpod_agentic_n.Specs.Deployment.{
  DeploymentSpec, SshCommand, SshCommandSpec, KeepAlivePolicy,
}
use comfyui_runpod_agentic_n.Planner.Plan.{
  Role, CommandDetail, ResourcePlan, ActionKind, Detail, PlanAction, Plain, Ambient,
}
use comfyui_runpod_agentic_n.Planner.Env.{runtime_config_paths}

abbrev pub is_agent : Role → Bool
is_agent Role.agent = true
is_agent _ = false

-- `[resource for resource in resources if resource.role != "agent"]`
unfoldable pub dependencies_of : List ResourcePlan → List ResourcePlan
unfolding select
dependencies_of resources = select (λ r. not (is_agent r.role)) resources

-- `next(resource for resource in resources if resource.role == "agent")`
unfoldable pub agent_of : List ResourcePlan → Option ResourcePlan
agent_of [] = none
agent_of (r ∷ rest) = let later = agent_of rest in if is_agent r.role then some r else later

abbrev pub is_before : CommandPhase → Bool
is_before CommandPhase.before_start = true
is_before _ = false

abbrev pub is_after : CommandPhase → Bool
is_after CommandPhase.after_start = true
is_after CommandPhase.after_ready = true
is_after _ = false

abbrev pub is_teardown : CommandPhase → Bool
is_teardown CommandPhase.teardown = true
is_teardown _ = false

abbrev pub agent_action : ResourcePlan → ActionKind → Detail → PlanAction
agent_action agent kind detail = record {
  action = kind;
  role = some Role.agent;
  resource_name = some agent.name;
  detail = detail;
}

unfoldable pub create_action : ResourcePlan → PlanAction
create_action r = record {
  action = ActionKind.create_or_resume;
  role = some r.role;
  resource_name = some r.name;
  detail = Detail.template r.template_id;
}

unfoldable pub wait_action : ResourcePlan → PlanAction
wait_action r = record {
  action = ActionKind.wait_ready;
  role = some r.role;
  resource_name = some r.name;
  detail = Detail.no_detail;
}

unfoldable pub resolve_action : List ResourcePlan → List PlanAction
resolve_action [] = []
resolve_action (r ∷ rest) =
    record {
      action = ActionKind.resolve_dependency_contracts;
      role = none;
      resource_name = none;
      detail = Detail.resources (map (λ s. s.name) (r ∷ rest));
    }
    ∷ []

abbrev detail_of_runtime : RuntimeCommand → CommandDetail
detail_of_runtime c = record {
  command = c.command;
  phase = c.phase;
  order = c.order;
  failure_policy = c.failure_policy;
  retry_count = c.retry_count;
  source = some c.source;
  command_hash = none;
}

-- The detail of a contract's command carries the hash of the detail without it.
unfoldable pub runtime_detail : Ambient → RuntimeCommand → CommandDetail
unfolding first
runtime_detail ambient c = record (detail_of_runtime c) {
  command_hash = some (first 12 (ambient.hexdigest (Plain.detail (detail_of_runtime c))));
}

unfoldable pub ssh_detail : SshCommand → CommandDetail
ssh_detail c = record {
  command = c.command;
  phase = c.phase;
  order = c.order;
  failure_policy = c.failure_policy;
  retry_count = c.retry_count;
  source = none;
  command_hash = none;
}

-- `runtime_command_actions`
unfoldable pub runtime_command_actions :
    Ambient → ResourcePlan → RuntimeContract → (CommandPhase → Bool) → List PlanAction
unfolding runtime_detail select sorted_by
runtime_command_actions ambient agent contract phases =
    map
      (λ c.
        agent_action agent ActionKind.run_ssh_command (Detail.command (runtime_detail ambient c)))
      (sorted_by (λ c. c.order) (select (λ c. phases c.phase) contract.commands))

abbrev pub graph_commands : Option SshCommandSpec → List SshCommand
graph_commands none = []
graph_commands (some spec) = spec.commands

-- The loop over the sorted commands of the graph, with its test on the phase.
unfoldable pub ssh_command_actions :
    ResourcePlan → Option SshCommandSpec → (CommandPhase → Bool) → List PlanAction
unfolding ssh_detail select sorted_by
ssh_command_actions agent spec phases =
    map (λ c. agent_action agent ActionKind.run_ssh_command (Detail.command (ssh_detail c)))
      (select (λ c. phases c.phase) (sorted_by (λ c. c.order) (graph_commands spec)))

abbrev pub monitor_actions : ResourcePlan → Option KeepAlivePolicy → List PlanAction
monitor_actions agent none = []
monitor_actions agent (some policy) =
    agent_action agent ActionKind.monitor_keep_alive (Detail.keep_alive policy) ∷ []

-- The actions on the agent's pod, in order.
unfoldable pub agent_actions :
    Ambient → ResourcePlan → DeploymentSpec → RuntimeContract → List PlanAction
unfolding runtime_command_actions ssh_command_actions runtime_config_paths
agent_actions ambient agent d contract =
    agent_action agent ActionKind.create_or_resume (Detail.template agent.template_id)
    ∷ (agent_action agent ActionKind.wait_ssh Detail.no_detail
        ∷ (runtime_command_actions ambient agent contract is_before
            ++ (ssh_command_actions agent d.ssh_commands is_before
                ++ (agent_action agent ActionKind.write_runtime_config
                      (Detail.files (runtime_config_paths d.primary_app.workspace_path))
                    ∷ (agent_action agent ActionKind.launch_agent
                          (Detail.launch d.primary_app.harness d.primary_app.startup_mode)
                        ∷ (runtime_command_actions ambient agent contract is_after
                            ++ (ssh_command_actions agent d.ssh_commands is_after
                                ++ (monitor_actions agent d.keep_alive
                                    ++ ssh_command_actions agent d.ssh_commands is_teardown))))))))

unfoldable pub actions_for :
    Ambient → ResourcePlan → List ResourcePlan → DeploymentSpec → RuntimeContract → List PlanAction
unfolding create_action wait_action resolve_action agent_actions
actions_for ambient agent deps d contract =
    map create_action deps
    ++ (map wait_action deps ++ (resolve_action deps ++ agent_actions ambient agent d contract))

-- `_actions`
unfoldable pub actions :
    Ambient → List ResourcePlan → DeploymentSpec → RuntimeContract → Result (List PlanAction)
unfolding agent_of dependencies_of actions_for
actions ambient resources d contract = elim (agent_of resources) [
  | none ↦ err (record { kind = stop_iteration; message = "" })
  | some agent ↦ ok (actions_for ambient agent (dependencies_of resources) d contract)
]
