-- ===== src/Local/Timer.antt =====
-- local_runtime.py: how a keep-alive policy ends a local project, at once or by a timer in the background.
pub mod Laws
use comfyui_runpod_agentic_n.Base.{
  ℕ, String, ◌<>◌, Bool, true, false, not, ◌&&◌, ◌||◌, Option, none, some, List, [], ◌∷◌,
  if◌then◌else◌, ℤ, pos, leb, nonzero, value_or,
}
use comfyui_runpod_agentic_n.Base.Text.{decimal}
use comfyui_runpod_agentic_n.Base.Result.{Result, ok, err}
use comfyui_runpod_agentic_n.Specs.{KeepAliveMode, LimitAction}
use comfyui_runpod_agentic_n.Specs.Deployment.{KeepAlivePolicy}
use comfyui_runpod_agentic_n.Planner.Plan.{DeploymentPlan}
use comfyui_runpod_agentic_n.Planner.PodInput.{is_server_side}
use comfyui_runpod_agentic_n.Local.{Action, action_text, ApplyResult, command_for_engine}
use comfyui_runpod_agentic_n.Local.Text.{shlex_join, safe_project}
use comfyui_runpod_agentic_n.Local.Host.{
  Step, Host, Local, pure, tell, look, on_result, ◌>>=◌, ◌>>◌,
}
use comfyui_runpod_agentic_n.Local.Apply.{apply_compose_file}

-- `local_keep_alive_pid_path`
unfoldable pub local_keep_alive_pid_path : String → String → String
unfolding safe_project
local_keep_alive_pid_path state_dir project_name =
    state_dir <> ("/" <> (safe_project project_name <> ".keepalive.pid"))

abbrev kill_if : Option ℤ → Local (Unit {0})
kill_if none = pure tt
kill_if (some pid) = tell (Step.kill pid)

-- `"terminate" if policy.action == "terminate" else "stop"`
abbrev pub lifecycle_of : LimitAction → Action
lifecycle_of LimitAction.terminate = Action.terminate
lifecycle_of LimitAction.stop = Action.stop

module _ (host : Host) (engine compose_path project_name : String) where
  abbrev pid_path : String
  unfolding local_keep_alive_pid_path
  pid_path = local_keep_alive_pid_path host.setting.state_dir project_name

  -- `cancel_local_keep_alive`; a kill that fails is passed over.
  unfoldable pub cancel_local_keep_alive : Local (Unit {0})
  unfolding ◌>>=◌ pid_path
  cancel_local_keep_alive = look (Step.read_pid pid_path) host.pid_exists >>= λ exists.
      if not exists
      then pure tt
      else (look (Step.read_pid pid_path) host.pid >>= λ pid.
          kill_if pid >>= λ _. tell (Step.unlink_pid pid_path))

  abbrev keep_alive_result : List String → ℤ → String → String → ApplyResult
  keep_alive_result command code stdout stderr = record {
    engine = engine;
    action = "keep_alive";
    compose_path = compose_path;
    command = command;
    returncode = code;
    stdout = stdout;
    stderr = stderr;
  }

  -- `schedule_local_lifecycle`
  unfoldable pub schedule_local_lifecycle : Action → ℕ → Local ApplyResult
  unfolding ◌>>=◌ command_for_engine cancel_local_keep_alive pid_path shlex_join decimal
  schedule_local_lifecycle action delay =
      on_result (command_for_engine host.tools engine compose_path project_name action)
        (λ e. pure (keep_alive_result [] (pos 127) "" e.message))
        (λ command. cancel_local_keep_alive >>= λ _.
          tell (Step.spawn ("sleep " <> (decimal delay <> ("; " <> shlex_join command)))) >>= λ _.
          tell (Step.make_directory host.setting.state_dir) >>= λ _.
          tell (Step.write_pid pid_path) >>= λ _. pure (
            keep_alive_result command (pos 0)
              ("Scheduled local runtime "
                <> (action_text action <> (" in " <> (decimal delay <> " seconds."))))
              ""))

  -- What a policy that the server enforces does, by its mode.
  unfoldable pub enforce_mode :
      DeploymentPlan → KeepAlivePolicy → Bool → KeepAliveMode → Local (Option ApplyResult)
  unfolding ◌>>=◌ schedule_local_lifecycle apply_compose_file decimal
  enforce_mode plan policy response_collected KeepAliveMode.manual = pure none
  enforce_mode plan policy response_collected KeepAliveMode.time =
      if nonzero policy.time_seconds
      then (schedule_local_lifecycle (lifecycle_of policy.action) (value_or policy.time_seconds 0)
          >>= λ result. pure (some result))
      else pure none
  enforce_mode plan policy response_collected KeepAliveMode.turns =
      let limit = value_or policy.turn_limit 0 in
      if nonzero policy.turn_limit && response_collected
      then if leb limit 1
        then (apply_compose_file host engine compose_path project_name plan 1800
              (lifecycle_of policy.action)
            >>= λ result. pure (some result))
        else pure (
            some (
              keep_alive_result [] (pos 0)
                ("Local runtime turn limit is "
                  <> (decimal limit
                      <> "; current run consumed one turn and containers remain running."))
                ""))
      else pure none
  enforce_mode plan policy response_collected KeepAliveMode.cost = pure (
      some (
        keep_alive_result [] (pos 0)
          "Local runtime cannot measure provider spend; cost keep-alive was recorded but not enforced locally."
          ""))

  unfoldable pub enforce_policy :
      DeploymentPlan → Bool → Option KeepAlivePolicy → Local (Option ApplyResult)
  unfolding enforce_mode
  enforce_policy plan response_collected none = pure none
  enforce_policy plan response_collected (some policy) =
      if not (is_server_side policy.enforcement)
      then pure none
      else enforce_mode plan policy response_collected policy.mode

  -- `enforce_local_keep_alive`
  unfoldable pub enforce_local_keep_alive : DeploymentPlan → Bool → Local (Option ApplyResult)
  unfolding enforce_policy
  enforce_local_keep_alive plan response_collected =
      enforce_policy plan response_collected plan.keep_alive
