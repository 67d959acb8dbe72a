-- ===== src/Runner/Launch.antt =====
-- runner.py: the token that is made at apply time, and the commands that launch the agent and its timer.
use comfyui_runpod_agentic_n.Base.{
  String, ◌<>◌, Bool, true, false, ◌&&◌, ◌||◌, Option, none, some, List, [], ◌∷◌, map,
  if◌then◌else◌, ◌==◌, nonzero, value_or, or_text, truthy, any, is_empty,
}
use comfyui_runpod_agentic_n.Base.Dict.{Dict, get}
use comfyui_runpod_agentic_n.Base.Text.{codes, is_infix, replace_all}
use comfyui_runpod_agentic_n.Specs.{KeepAliveMode, KeepAliveEnforcement}
use comfyui_runpod_agentic_n.Specs.Deployment.{KeepAlivePolicy}
use comfyui_runpod_agentic_n.Contracts.{with_env}
use comfyui_runpod_agentic_n.Planner.Plan.{ResourcePlan, DeploymentPlan, Role}
use comfyui_runpod_agentic_n.Runner.Shell.{shell_env}

abbrev pub generated : String
generated = "crag-generated-at-apply"

abbrev pub mentions : Dict String → Bool
mentions env = any (λ entry. is_infix (codes generated) (codes entry.1)) env

unfoldable pub plan_uses_generated_token : DeploymentPlan → Bool
unfolding any is_infix
plan_uses_generated_token plan =
    mentions plan.runtime_contract.env.values || any (λ r. mentions r.env) plan.resources

unfoldable pub replace_generated_token_values : Dict String → String → Dict String
unfolding replace_all
replace_generated_token_values [] token = []
replace_generated_token_values ((key, value) ∷ values) token =
    (key, replace_all generated token value) ∷ replace_generated_token_values values token

abbrev with_token : String → ResourcePlan → ResourcePlan
with_token token resource = record resource {
  env = replace_generated_token_values resource.env token;
  pod_input = record (resource.pod_input) {
    env = replace_generated_token_values resource.pod_input.env token;
  };
}

-- `materialize_generated_tokens`, where `token` is the fresh token.
unfoldable pub materialize_generated_tokens : String → DeploymentPlan → DeploymentPlan
unfolding plan_uses_generated_token replace_generated_token_values with_env
materialize_generated_tokens token plan =
    if plan_uses_generated_token plan
    then record plan {
      resources = map (with_token token) plan.resources;
      runtime_contract =
          with_env plan.runtime_contract
            (replace_generated_token_values plan.runtime_contract.env.values token);
    }
    else plan

abbrev pub is_time : KeepAliveMode → Bool
is_time KeepAliveMode.time = true
is_time _ = false

abbrev is_pod_side : KeepAliveEnforcement → Bool
is_pod_side KeepAliveEnforcement.pod_side = true
is_pod_side KeepAliveEnforcement.both = true
is_pod_side KeepAliveEnforcement.server_side = false

abbrev pub is_agent : Role → Bool
is_agent Role.agent = true
is_agent _ = false

-- `next(resource for resource in plan.resources if resource.role == "agent")`
unfoldable pub find_agent : List ResourcePlan → Option ResourcePlan
find_agent [] = none
find_agent (resource ∷ rest) = if is_agent resource.role then some resource else find_agent rest

-- A policy whose timer runs in the pod.
abbrev pub has_pod_timer : Option KeepAlivePolicy → Bool
has_pod_timer none = false
has_pod_timer (some policy) =
    is_time policy.mode && (nonzero policy.time_seconds && is_pod_side policy.enforcement)

-- `keep_alive_pod_timer_command`: `script` is the text of the timer's script for a policy.
unfoldable pub keep_alive_pod_timer_command :
    (KeepAlivePolicy → String) → Option KeepAlivePolicy → String
unfolding shell_env
keep_alive_pod_timer_command script none = ""
keep_alive_pod_timer_command script (some policy) =
    if has_pod_timer (some policy)
    then "mkdir -p .runpod_agentic && (nohup bash -lc "
      <> (shell_env (script policy) <> " > .runpod_agentic/keepalive.log 2>&1 &)")
    else ""

abbrev launch_line : Option String → String → String
launch_line configured harness =
    if truthy configured
    then "nohup bash -lc "
      <> (shell_env (value_or configured "") <> " > .runpod_agentic/agent.log 2>&1 &")
    else "chmod +x .runpod_agentic/launcher.sh .runpod_agentic/launcher.d/*.sh .runpod_agentic/launcher.d/harnesses/*.sh 2>/dev/null || true && nohup .runpod_agentic/launcher.sh "
      <> (shell_env harness <> " > .runpod_agentic/agent.log 2>&1 &")

-- `" && ".join(...)` of the timer and the launch.
abbrev after : String → String
after part = if is_empty part then "" else " && " <> part

-- `launch_command_for_plan`: `configured` is `CRAG_AGENT_LAUNCH_COMMAND` of the server's environment.
unfoldable pub launch_command :
    (KeepAlivePolicy → String) → Option String → Option KeepAlivePolicy → Dict String → String
unfolding keep_alive_pod_timer_command get shell_env
launch_command script configured keep_alive env =
    let start =
      "cd "
      <> (shell_env (value_or (get env "WORKSPACE_DIR") "/workspace")
          <> " && mkdir -p .runpod_agentic") in
    let timer = keep_alive_pod_timer_command script keep_alive in
    if value_or (get env "AGENT_STARTUP_MODE") "" == "manual"
    then (if is_empty timer then "" else (start <> after timer))
    else (start
        <> (after timer
            <> after (
                launch_line (or_text configured (get env "CRAG_AGENT_LAUNCH_COMMAND"))
                  (value_or (get env "AGENT_HARNESS") "agent"))))
