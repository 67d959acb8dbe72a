-- ===== src/Runner/KeepAlive.antt =====
-- runner.py: what a keep-alive policy does once the agent runs.
use comfyui_runpod_agentic_n.Base.{
  ℕ, ◌*◌, String, ◌<>◌, Bool, true, false, ◌&&◌, ◌||◌, not, Option, none, some, if◌then◌else◌,
  value_or, leb, truthy, nonzero,
}
use comfyui_runpod_agentic_n.Specs.{KeepAliveMode, LimitAction}
use comfyui_runpod_agentic_n.Specs.Deployment.{KeepAlivePolicy}
use comfyui_runpod_agentic_n.Planner.Plan.{DeploymentPlan}
use comfyui_runpod_agentic_n.Planner.Env.{limit_action_text}
use comfyui_runpod_agentic_n.Planner.PodInput.{is_server_side, is_time}
use comfyui_runpod_agentic_n.Store.Operations.{increment_counter}
use comfyui_runpod_agentic_n.Remote.Pod.{Pod, seen, cost_of, uptime_of}
use comfyui_runpod_agentic_n.Remote.Outside.{Call, Outside}
use comfyui_runpod_agentic_n.Remote.Exec.{
  Exec, pure, tell, ask, store, utc_now, progress_step, on_some, ◌>>=◌, ◌>>◌,
}

-- What is reported: the turns, or the estimated cost in millionths of a dollar times 3600, and the
-- action if it was taken.
pub data Report : Type 0 where
  turns : Option LimitAction → ℕ → Report
  cost : Option LimitAction → ℕ → Report

abbrev pub is_terminate : LimitAction → Bool
is_terminate LimitAction.terminate = true
is_terminate LimitAction.stop = false

-- `uptime / 3600 * cost_per_hr >= limit`, without the division.
abbrev pub estimated : Pod → ℕ
estimated pod = uptime_of pod * value_or (cost_of pod) 0

module _ (o : Outside) where
  unfoldable pub apply_keep_alive_action : String → LimitAction → Exec (Unit {0})
  apply_keep_alive_action pod_id action =
      progress_step o ("keep alive " <> limit_action_text action) >>= λ _.
      (if is_terminate action
        then ask (Call.terminate_pod pod_id) o.lifecycle
        else ask (Call.stop_pod pod_id) o.lifecycle)

  -- The turns of a run, of which one more is counted if there was a response.
  abbrev pub counted : String → Bool → Exec ℕ
  counted run_id false = pure 0
  counted run_id true = utc_now o >>= λ now. store (increment_counter now run_id "turns" 1 none)

  unfoldable pub enforce_turns : String → KeepAlivePolicy → ℕ → Exec (Option Report)
  unfolding apply_keep_alive_action
  enforce_turns pod_id policy n =
      if nonzero policy.turn_limit && leb (value_or policy.turn_limit 0) n
      then (apply_keep_alive_action pod_id policy.action
          >> pure (some (Report.turns (some policy.action) n)))
      else pure (some (Report.turns none n))

  unfoldable pub enforce_cost : String → KeepAlivePolicy → ℕ → Exec (Option Report)
  unfolding apply_keep_alive_action
  enforce_cost pod_id policy amount =
      if leb (value_or policy.cost_limit_usd 0 * 3600) amount
      then (apply_keep_alive_action pod_id policy.action
          >> pure (some (Report.cost (some policy.action) amount)))
      else pure (some (Report.cost none amount))

  unfoldable pub enforce :
      KeepAliveMode → String → Pod → String → Bool → KeepAlivePolicy → Exec (Option Report)
  unfolding enforce_turns enforce_cost increment_counter
  enforce KeepAliveMode.turns run_id pod pod_id response_collected policy =
      counted run_id response_collected >>= λ n. enforce_turns pod_id policy n
  enforce KeepAliveMode.cost run_id pod pod_id response_collected policy =
      if nonzero policy.cost_limit_usd
      then enforce_cost pod_id policy (estimated pod)
      else pure none
  enforce KeepAliveMode.time run_id pod pod_id response_collected policy = pure none
  enforce KeepAliveMode.manual run_id pod pod_id response_collected policy = pure none

  unfoldable pub enforce_response_keep_alive : DeploymentPlan → Pod → Bool → Exec (Option Report)
  unfolding enforce
  enforce_response_keep_alive plan pod response_collected =
      on_some plan.keep_alive (pure none) (λ policy.
        if not (is_server_side policy.enforcement) || not (truthy (seen pod.id))
        then pure none
        else enforce policy.mode plan.run_id pod (value_or (seen pod.id) "") response_collected
            policy)

  unfoldable pub schedule_time_keep_alive : DeploymentPlan → Pod → Exec Bool
  schedule_time_keep_alive plan pod = on_some plan.keep_alive (pure false) (λ policy.
      if is_time policy.mode
        && (nonzero policy.time_seconds
            && (is_server_side policy.enforcement && truthy (seen pod.id)))
      then (progress_step o ("schedule keep alive " <> limit_action_text policy.action) >>= λ _.
          tell (
            Call.schedule (value_or (seen pod.id) "") policy.action
              (value_or policy.time_seconds 0))
          >>= λ _. pure true)
      else pure false)
