-- ===== src/Runner/Ends.antt =====
-- Every method of the runner comes to an outcome.
use comfyui_runpod_agentic_n.Base.{
  ℕ, zero, suc, ◌+◌, String, Option, none, some, List, [], ◌∷◌, is_zero, ◌||◌,
}
use comfyui_runpod_agentic_n.Specs.{ReusePolicy}
use comfyui_runpod_agentic_n.Templates.{is_unresolved_template_key}
use comfyui_runpod_agentic_n.Store.Rows.{ResourceRow}
use comfyui_runpod_agentic_n.Planner.Plan.{ResourcePlan, DeploymentPlan, CommandDetail}
use comfyui_runpod_agentic_n.Remote.Pod.{Pod}
use comfyui_runpod_agentic_n.Remote.Outside.{Outside, CommandResult}
use comfyui_runpod_agentic_n.Remote.Exec.{Exec, attempt}
use comfyui_runpod_agentic_n.Remote.Timed.{
  HasClock, IsTimed, pure-IsTimed, raise-IsTimed, look-IsTimed, ask-IsTimed, bind-IsTimed,
  if-IsTimed, tell-IsTimed, event-IsTimed, modify-IsTimed, try_store-IsTimed, read-IsTimed,
  attempt-IsTimed, on_some-IsTimed,
}
use comfyui_runpod_agentic_n.Runner.Pods.{
  reuse, reuse_by, create, reuse_or_create_pod, or_create, matching_existing_resource, VolumeKey,
  volume_of, volume_for, wanted_volume, materialize_each, materialize_network_volumes,
}
use comfyui_runpod_agentic_n.Runner.Commands.{
  run_attempts, run_ssh_command_action, judge, is_continue,
}

module _ (o : Outside) (clock : HasClock o) where
  reuse_by-IsTimed :
      (policy : ReusePolicy) (plan : DeploymentPlan) (resource : ResourcePlan)
      (pending pod_id : String) (pod : Pod)
      → IsTimed o (reuse_by o policy plan resource pending pod_id pod)
  unfolding reuse_by
  reuse_by-IsTimed ReusePolicy.always_create plan resource pending pod_id pod = pure-IsTimed o none
  reuse_by-IsTimed ReusePolicy.reuse_matching plan resource pending pod_id pod =
      if-IsTimed o _ _ _ (pure-IsTimed o none)
        (bind-IsTimed o _ _ (event-IsTimed o clock _ _ _ _ _) λ _. pure-IsTimed o _)
  reuse_by-IsTimed ReusePolicy.resume_stopped plan resource pending pod_id pod =
      if-IsTimed o _ _ _
        (bind-IsTimed o _ _ (ask-IsTimed o clock _ o.pod)
          λ resumed. bind-IsTimed o _ _ (event-IsTimed o clock _ _ _ _ _) λ _. pure-IsTimed o _)
        (pure-IsTimed o none)

  reuse-IsTimed :
      (plan : DeploymentPlan) (resource : ResourcePlan) (pending : String)
      (row : Option ResourceRow)
      → IsTimed o (reuse o plan resource pending row)
  unfolding reuse
  reuse-IsTimed plan resource pending none = pure-IsTimed o none
  reuse-IsTimed plan resource pending (some row) =
      bind-IsTimed o _ _ (ask-IsTimed o clock _ o.pod)
        λ pod. reuse_by-IsTimed plan.reuse_policy plan resource pending _ pod

  create-IsTimed :
      (plan : DeploymentPlan) (resource : ResourcePlan) (pending : String)
      → IsTimed o (create o plan resource pending)
  unfolding create
  create-IsTimed plan resource pending = bind-IsTimed o _ _ (event-IsTimed o clock _ _ _ _ _) λ _.
      bind-IsTimed o _ _
        (attempt-IsTimed o _ _ (ask-IsTimed o clock _ o.pod)
          (λ e. bind-IsTimed o _ _ (event-IsTimed o clock _ _ _ _ _) λ _. raise-IsTimed o e))
        λ pod. bind-IsTimed o _ _ (event-IsTimed o clock _ _ _ _ _) λ _. pure-IsTimed o pod

  or_create-IsTimed : (m : Exec Pod) (pod : Option Pod) → IsTimed o m → IsTimed o (or_create m pod)
  or_create-IsTimed m none t = t
  or_create-IsTimed m (some pod) t = pure-IsTimed o pod

  pub reuse_or_create_pod-IsTimed :
      (plan : DeploymentPlan) (resource : ResourcePlan) (pending : String)
      → IsTimed o (reuse_or_create_pod o plan resource pending)
  unfolding reuse_or_create_pod
  reuse_or_create_pod-IsTimed plan resource pending =
      if-IsTimed o (is_unresolved_template_key resource.template_id) _ _ (raise-IsTimed o _) (
        bind-IsTimed o _ _ (read-IsTimed o (matching_existing_resource plan resource)) λ existing.
          bind-IsTimed o _ _ (reuse-IsTimed plan resource pending existing) λ pod.
            or_create-IsTimed (create o plan resource pending) pod
              (create-IsTimed plan resource pending))

  volume_for-IsTimed :
      (plan : DeploymentPlan) (created : List (VolumeKey × String)) (key : Option VolumeKey)
      → IsTimed o (volume_for o plan created key)
  unfolding volume_for
  volume_for-IsTimed plan created none = pure-IsTimed o _
  volume_for-IsTimed plan created (some (name, size, center)) =
      on_some-IsTimed o (volume_of created (name, size, center)) _ _
        (bind-IsTimed o _ _ (ask-IsTimed o clock _ o.volume) λ id.
          if-IsTimed o _ _ _ (raise-IsTimed o _)
            (bind-IsTimed o _ _ (event-IsTimed o clock _ _ _ _ _) λ _. pure-IsTimed o _))
        (λ id. pure-IsTimed o _)

  materialize_each-IsTimed :
      (plan : DeploymentPlan) (created : List (VolumeKey × String)) (resources : List ResourcePlan)
      → IsTimed o (materialize_each o plan created resources)
  unfolding materialize_each
  materialize_each-IsTimed plan created [] = pure-IsTimed o []
  materialize_each-IsTimed plan created (resource ∷ rest) =
      bind-IsTimed o _ _ (volume_for-IsTimed plan created (wanted_volume resource)) λ found.
        bind-IsTimed o _ _ (materialize_each-IsTimed plan found.1 rest) λ later. pure-IsTimed o _

  pub materialize_network_volumes-IsTimed :
      (plan : DeploymentPlan) → IsTimed o (materialize_network_volumes o plan)
  unfolding materialize_network_volumes
  materialize_network_volumes-IsTimed plan =
      bind-IsTimed o _ _ (materialize_each-IsTimed plan [] plan.resources)
        λ resources. pure-IsTimed o _

  run_attempts-IsTimed :
      (left attempt : ℕ) (run_id host : String) (port : ℕ) (c : CommandDetail)
      → IsTimed o (run_attempts o left attempt run_id host port c)
  unfolding run_attempts
  run_attempts-IsTimed zero attempt run_id host port c = raise-IsTimed o _
  run_attempts-IsTimed (suc left) attempt run_id host port c =
      bind-IsTimed o _ _ (ask-IsTimed o clock _ o.command) λ result.
        if-IsTimed o _ _ _ (pure-IsTimed o result) (
          if-IsTimed o _ _ _ (pure-IsTimed o result) (
            bind-IsTimed o _ _ (event-IsTimed o clock _ _ _ _ _) λ _.
              bind-IsTimed o _ _ (tell-IsTimed o clock _)
                λ _. run_attempts-IsTimed left (attempt + 1) run_id host port c))

  judge-IsTimed : (c : CommandDetail) (result : CommandResult) → IsTimed o (judge o c result)
  judge-IsTimed c result =
      if-IsTimed o (is_zero result.exit_code || is_continue c.failure_policy) _ _
        (pure-IsTimed o result) (raise-IsTimed o _)

  pub run_ssh_command_action-IsTimed :
      (run_id host : String) (port : ℕ) (resource_id : Option String) (c : CommandDetail)
      → IsTimed o (run_ssh_command_action o run_id host port resource_id c)
  unfolding run_ssh_command_action
  run_ssh_command_action-IsTimed run_id host port resource_id c =
      bind-IsTimed o _ _ (tell-IsTimed o clock _) λ _.
        bind-IsTimed o _ _ (look-IsTimed o clock _ o.text) λ command_id.
          bind-IsTimed o _ _ (look-IsTimed o clock _ o.text) λ now.
            bind-IsTimed o _ _ (try_store-IsTimed o _) λ _.
              bind-IsTimed o _ _ (run_attempts-IsTimed (suc c.retry_count) 0 run_id host port c)
                λ result. bind-IsTimed o _ _ (tell-IsTimed o clock _) λ _.
                  bind-IsTimed o _ _ (tell-IsTimed o clock _) λ _.
                    bind-IsTimed o _ _ (look-IsTimed o clock _ o.text) λ later.
                      bind-IsTimed o _ _ (modify-IsTimed o _) λ _.
                        bind-IsTimed o _ _ (event-IsTimed o clock _ _ _ _ _)
                          λ _. judge-IsTimed c result
