-- ===== src/Runner/LifecycleEnds.antt =====
-- The keep-alive monitor, the lifecycle and the clean-up of runner.py come to an outcome.
use comfyui_runpod_agentic_n.Base.{
  ℕ, String, Bool, true, false, Option, none, some, List, [], ◌∷◌, is_zero, is_empty, value_or, not,
  ◌&&◌, ◌||◌, leb, ◌*◌, nonzero, truthy, nonempty, select,
}
use comfyui_runpod_agentic_n.Base.Text.{strip}
use comfyui_runpod_agentic_n.Specs.{KeepAliveMode, LimitAction}
use comfyui_runpod_agentic_n.Specs.Deployment.{KeepAlivePolicy}
use comfyui_runpod_agentic_n.Store.Rows.{ResourceRow}
use comfyui_runpod_agentic_n.Planner.Plan.{DeploymentPlan, CommandDetail}
use comfyui_runpod_agentic_n.Remote.Pod.{Pod, seen}
use comfyui_runpod_agentic_n.Remote.Outside.{Outside}
use comfyui_runpod_agentic_n.Remote.Timed.{
  HasClock, IsTimed, pure-IsTimed, look-IsTimed, ask-IsTimed, bind-IsTimed, if-IsTimed,
  tell-IsTimed, event-IsTimed, modify-IsTimed, store-IsTimed, read-IsTimed, attempt-IsTimed,
  each-IsTimed, on_some-IsTimed,
}
use comfyui_runpod_agentic_n.Runner.Agent.{copy_remote_image_file}
use comfyui_runpod_agentic_n.Runner.KeepAlive.{
  apply_keep_alive_action, counted, enforce_turns, enforce_cost, enforce, is_terminate,
  enforce_response_keep_alive, schedule_time_keep_alive, estimated,
}
use comfyui_runpod_agentic_n.Runner.Lifecycle.{
  run_all, run_teardown_commands, end_pod, end_resource, lifecycle, clean_up, cleanup_created,
  record_each, reconcile_managed_pods, matched, is_managed, is_created, text_is, teardown_commands,
}
use comfyui_runpod_agentic_n.Planner.PodInput.{is_server_side, is_time}
use comfyui_runpod_agentic_n.Store.Operations.{list_resources}
use comfyui_runpod_agentic_n.Runner.Run.{}
use comfyui_runpod_agentic_n.Runner.Termination.{wait_ssh_endpoint-IsTimed, wait_ssh_ready-IsTimed}
use comfyui_runpod_agentic_n.Runner.Ends.{run_ssh_command_action-IsTimed}

module _ (o : Outside) (clock : HasClock o) where
  pub copy_remote_image_file-IsTimed :
      (run_id host : String) (port : ℕ) (path : String)
      → IsTimed o (copy_remote_image_file o run_id host port path)
  unfolding copy_remote_image_file
  copy_remote_image_file-IsTimed run_id host port path =
      bind-IsTimed o _ _ (ask-IsTimed o clock _ o.command) λ result.
        if-IsTimed o (not (is_zero result.exit_code) || is_empty (strip result.stdout)) _ _
          (pure-IsTimed o "")
          (bind-IsTimed o _ _ (tell-IsTimed o clock _)
            λ _. bind-IsTimed o _ _ (event-IsTimed o clock _ _ _ _ _) λ _. pure-IsTimed o _)

  apply_keep_alive_action-IsTimed :
      (pod_id : String) (action : LimitAction) → IsTimed o (apply_keep_alive_action o pod_id action)
  unfolding apply_keep_alive_action
  apply_keep_alive_action-IsTimed pod_id action = bind-IsTimed o _ _ (tell-IsTimed o clock _) λ _.
      if-IsTimed o (is_terminate action) _ _ (ask-IsTimed o clock _ o.lifecycle)
        (ask-IsTimed o clock _ o.lifecycle)

  counted-IsTimed : (run_id : String) (b : Bool) → IsTimed o (counted o run_id b)
  counted-IsTimed run_id false = pure-IsTimed o 0
  counted-IsTimed run_id true =
      bind-IsTimed o _ _ (look-IsTimed o clock _ o.text) λ now. store-IsTimed o _

  enforce_turns-IsTimed :
      (pod_id : String) (policy : KeepAlivePolicy) (n : ℕ)
      → IsTimed o (enforce_turns o pod_id policy n)
  unfolding enforce_turns
  enforce_turns-IsTimed pod_id policy n =
      if-IsTimed o (nonzero policy.turn_limit && leb (value_or policy.turn_limit 0) n) _ _
        (bind-IsTimed o _ _ (apply_keep_alive_action-IsTimed pod_id policy.action)
          λ _. pure-IsTimed o _)
        (pure-IsTimed o _)

  enforce_cost-IsTimed :
      (pod_id : String) (policy : KeepAlivePolicy) (n : ℕ)
      → IsTimed o (enforce_cost o pod_id policy n)
  unfolding enforce_cost
  enforce_cost-IsTimed pod_id policy n =
      if-IsTimed o (leb (value_or policy.cost_limit_usd 0 * 3600) n) _ _
        (bind-IsTimed o _ _ (apply_keep_alive_action-IsTimed pod_id policy.action)
          λ _. pure-IsTimed o _)
        (pure-IsTimed o _)

  enforce-IsTimed :
      (mode : KeepAliveMode) (run_id : String) (pod : Pod) (pod_id : String) (b : Bool)
      (policy : KeepAlivePolicy)
      → IsTimed o (enforce o mode run_id pod pod_id b policy)
  unfolding enforce
  enforce-IsTimed KeepAliveMode.turns run_id pod pod_id b policy =
      bind-IsTimed o _ _ (counted-IsTimed run_id b) λ n. enforce_turns-IsTimed pod_id policy n
  enforce-IsTimed KeepAliveMode.cost run_id pod pod_id b policy =
      if-IsTimed o (nonzero policy.cost_limit_usd) _ _
        (enforce_cost-IsTimed pod_id policy (estimated pod)) (pure-IsTimed o none)
  enforce-IsTimed KeepAliveMode.time run_id pod pod_id b policy = pure-IsTimed o none
  enforce-IsTimed KeepAliveMode.manual run_id pod pod_id b policy = pure-IsTimed o none

  pub enforce_response_keep_alive-IsTimed :
      (plan : DeploymentPlan) (pod : Pod) (b : Bool)
      → IsTimed o (enforce_response_keep_alive o plan pod b)
  unfolding enforce_response_keep_alive
  enforce_response_keep_alive-IsTimed plan pod b =
      on_some-IsTimed o plan.keep_alive _ _ (pure-IsTimed o none) λ policy.
        if-IsTimed o (not (is_server_side policy.enforcement) || not (truthy (seen pod.id))) _ _
          (pure-IsTimed o none)
          (enforce-IsTimed policy.mode plan.run_id pod (value_or (seen pod.id) "") b policy)

  pub schedule_time_keep_alive-IsTimed :
      (plan : DeploymentPlan) (pod : Pod) → IsTimed o (schedule_time_keep_alive o plan pod)
  unfolding schedule_time_keep_alive
  schedule_time_keep_alive-IsTimed plan pod =
      on_some-IsTimed o plan.keep_alive _ _ (pure-IsTimed o false) λ policy.
        if-IsTimed o
          (is_time policy.mode
            && (nonzero policy.time_seconds
                && (is_server_side policy.enforcement && truthy (seen pod.id))))
          _ _
          (bind-IsTimed o _ _ (tell-IsTimed o clock _)
            λ _. bind-IsTimed o _ _ (tell-IsTimed o clock _) λ _. pure-IsTimed o true)
          (pure-IsTimed o false)

  run_all-IsTimed :
      (plan : DeploymentPlan) (host : String) (port : ℕ) (row : ResourceRow)
      (commands : List CommandDetail)
      → IsTimed o (run_all o plan host port row commands)
  run_all-IsTimed plan host port row [] = pure-IsTimed o tt
  run_all-IsTimed plan host port row (c ∷ rest) =
      bind-IsTimed o _ _
        (run_ssh_command_action-IsTimed o clock plan.run_id host port (some row.id) c)
        λ result. run_all-IsTimed plan host port row rest

  run_teardown_commands-IsTimed :
      (plan : DeploymentPlan) (row : ResourceRow) → IsTimed o (run_teardown_commands o plan row)
  unfolding run_teardown_commands
  run_teardown_commands-IsTimed plan row =
      if-IsTimed o
        (text_is row.role "agent"
          && (truthy row.runpod_pod_id && nonempty (teardown_commands plan)))
        _ _
        (bind-IsTimed o _ _ (ask-IsTimed o clock _ o.pod) λ pod.
          bind-IsTimed o _ _ (wait_ssh_endpoint-IsTimed o clock pod plan) λ endpoint.
            bind-IsTimed o _ _ (wait_ssh_ready-IsTimed o clock endpoint.0 endpoint.1)
              λ _. run_all-IsTimed plan endpoint.0 endpoint.1 row (teardown_commands plan))
        (pure-IsTimed o tt)

  end_pod-IsTimed : (b : Bool) (pod_id : String) → IsTimed o (end_pod o b pod_id)
  end_pod-IsTimed true pod_id = ask-IsTimed o clock _ o.lifecycle
  end_pod-IsTimed false pod_id = ask-IsTimed o clock _ o.lifecycle

  end_resource-IsTimed :
      (plan : DeploymentPlan) (b : Bool) (row : ResourceRow) → IsTimed o (end_resource o plan b row)
  unfolding end_resource
  end_resource-IsTimed plan b row =
      if-IsTimed o (truthy row.runpod_pod_id) _ _
        (bind-IsTimed o _ _ (run_teardown_commands-IsTimed plan row) λ _.
          bind-IsTimed o _ _ (end_pod-IsTimed b (value_or row.runpod_pod_id ""))
            λ _. bind-IsTimed o _ _ (look-IsTimed o clock _ o.text) λ now. modify-IsTimed o _)
        (pure-IsTimed o tt)

  pub lifecycle-IsTimed : (plan : DeploymentPlan) (b : Bool) → IsTimed o (lifecycle o plan b)
  unfolding lifecycle
  lifecycle-IsTimed plan b = bind-IsTimed o _ _ (read-IsTimed o list_resources) λ rows.
      bind-IsTimed o _ _ (each-IsTimed o _ (matched plan rows) (end_resource-IsTimed plan b))
        λ _. pure-IsTimed o _

  clean_up-IsTimed :
      (plan : DeploymentPlan) (b : Bool) (row : ResourceRow) → IsTimed o (clean_up o plan b row)
  unfolding clean_up
  clean_up-IsTimed plan b row =
      if-IsTimed o (is_created plan.run_id row) _ _
        (attempt-IsTimed o _ _ (end_pod-IsTimed b (value_or row.runpod_pod_id ""))
          λ e. event-IsTimed o clock _ _ _ _ _)
        (pure-IsTimed o tt)

  pub cleanup_created-IsTimed :
      (plan : DeploymentPlan) (b : Bool) → IsTimed o (cleanup_created o plan b)
  unfolding cleanup_created
  cleanup_created-IsTimed plan b =
      bind-IsTimed o _ _ (read-IsTimed o list_resources)
        λ rows. each-IsTimed o _ rows (clean_up-IsTimed plan b)

  record_each-IsTimed :
      (run_id : Option String) (pods : List Pod) → IsTimed o (record_each o run_id pods)
  unfolding record_each
  record_each-IsTimed run_id [] = pure-IsTimed o tt
  record_each-IsTimed run_id (pod ∷ pods) =
      bind-IsTimed o _ _ (look-IsTimed o clock _ o.text)
        λ now. bind-IsTimed o _ _ (store-IsTimed o _) λ id. record_each-IsTimed run_id pods

  pub reconcile_managed_pods-IsTimed :
      (run_id : Option String) → IsTimed o (reconcile_managed_pods o run_id)
  unfolding reconcile_managed_pods
  reconcile_managed_pods-IsTimed run_id = bind-IsTimed o _ _ (ask-IsTimed o clock _ o.pods) λ pods.
      bind-IsTimed o _ _ (record_each-IsTimed run_id (select is_managed pods)) λ _. pure-IsTimed o _
