-- ===== src/Runner/Finished.antt =====
-- A run comes to an outcome, and has a bound on its time in each of its loops.
use comfyui_runpod_agentic_n.Base.{
  ℕ, String, Bool, true, false, Option, none, some, List, [], ◌∷◌, ◌≡◌, is_empty, not, ◌&&◌,
}
use comfyui_runpod_agentic_n.Base.Text.{strip}
use comfyui_runpod_agentic_n.Specs.{RunMode}
use comfyui_runpod_agentic_n.Templates.{TemplateResolver}
use comfyui_runpod_agentic_n.Planner.Plan.{ResourcePlan, DeploymentPlan, Ambient}
use comfyui_runpod_agentic_n.Remote.Pod.{Pod, seen_or, empty_pod}
use comfyui_runpod_agentic_n.Remote.Outside.{Outside}
use comfyui_runpod_agentic_n.Remote.Exec.{World, wait}
use comfyui_runpod_agentic_n.Remote.Timed.{
  HasClock, IsTimed, finished, pure-IsTimed, raise-IsTimed, lift-IsTimed, look-IsTimed,
  bind-IsTimed, if-IsTimed, tell-IsTimed, event-IsTimed, modify-IsTimed, store-IsTimed,
  attempt-IsTimed,
}
use comfyui_runpod_agentic_n.Runner.Agent.{Texts}
use comfyui_runpod_agentic_n.Runner.KeepAlive.{}
use comfyui_runpod_agentic_n.Runner.Lifecycle.{}
use comfyui_runpod_agentic_n.Runner.Launch.{is_agent, plan_uses_generated_token}
use comfyui_runpod_agentic_n.Runner.Run.{
  OnError, RunRequest, Created, record_pod, waited, create_resources, image, apply_agent,
  with_tokens, apply, record_status, apply_mode, attempt_mode, clean, recover, guarded, run_plan,
  run,
}
use comfyui_runpod_agentic_n.Runner.Termination.{
  wait_ssh_endpoint-IsTimed, wait_ssh_ready-IsTimed, wait_dependency_ready-IsTimed,
}
use comfyui_runpod_agentic_n.Runner.Total.{run_agent_ssh_steps-IsTimed}
use comfyui_runpod_agentic_n.Runner.Ends.{
  reuse_or_create_pod-IsTimed, materialize_network_volumes-IsTimed,
}
use comfyui_runpod_agentic_n.Runner.LifecycleEnds.{
  copy_remote_image_file-IsTimed, enforce_response_keep_alive-IsTimed,
  schedule_time_keep_alive-IsTimed, lifecycle-IsTimed, cleanup_created-IsTimed,
  reconcile_managed_pods-IsTimed,
}

module _ (o : Outside) (texts : Texts) (clock : HasClock o) where
  record_pod-IsTimed :
      (plan : DeploymentPlan) (resource : ResourcePlan) (pod : Pod) (status : Option String)
      → IsTimed o (record_pod o texts plan resource pod status)
  record_pod-IsTimed plan resource pod status =
      bind-IsTimed o _ _ (look-IsTimed o clock _ o.text) λ now. store-IsTimed o _

  waited-IsTimed :
      (plan : DeploymentPlan) (resource : ResourcePlan) (pod : Pod) (resource_id : String)
      → IsTimed o (waited o texts plan resource pod resource_id)
  waited-IsTimed plan resource pod resource_id =
      if-IsTimed o (is_agent resource.role) _ _ (pure-IsTimed o pod) (
        bind-IsTimed o _ _ (tell-IsTimed o clock _)
          λ _. wait_dependency_ready-IsTimed o clock resource pod plan.run_id resource_id)

  create_resources-IsTimed :
      (plan : DeploymentPlan) (resources : List ResourcePlan) (created : Created)
      → IsTimed o (create_resources o texts plan resources created)
  unfolding create_resources
  create_resources-IsTimed plan [] created = pure-IsTimed o created
  create_resources-IsTimed plan (resource ∷ rest) created =
      bind-IsTimed o _ _ (tell-IsTimed o clock _) λ _.
        bind-IsTimed o _ _ (record_pod-IsTimed plan resource empty_pod (some "creating")) λ pending.
          bind-IsTimed o _ _ (reuse_or_create_pod-IsTimed o clock plan resource pending) λ pod.
            bind-IsTimed o _ _
              (record_pod-IsTimed plan resource pod (seen_or pod.desired_status "created"))
              λ resource_id.
                bind-IsTimed o _ _ (waited-IsTimed plan resource pod resource_id)
                  λ ready. create_resources-IsTimed plan rest _

  image-IsTimed :
      (plan : DeploymentPlan) (host : String) (port : ℕ) (wait : Bool) (path : String)
      → IsTimed o (image o texts plan host port wait path)
  image-IsTimed plan host port wait path =
      if-IsTimed o (wait && not (is_empty (strip path))) _ _
        (copy_remote_image_file-IsTimed o clock plan.run_id host port (strip path))
        (pure-IsTimed o "")

  apply_agent-IsTimed :
      (plan : DeploymentPlan) (wait : Bool) (path : String) (created : Created)
      (agent : ResourcePlan) (pod : Pod)
      → IsTimed o (apply_agent o texts plan wait path created agent pod)
  unfolding apply_agent
  apply_agent-IsTimed plan wait path created agent pod =
      bind-IsTimed o _ _ (schedule_time_keep_alive-IsTimed o clock plan pod) λ scheduled.
        bind-IsTimed o _ _ (tell-IsTimed o clock _) λ _.
          bind-IsTimed o _ _ (wait_ssh_endpoint-IsTimed o clock pod plan) λ endpoint.
            bind-IsTimed o _ _ (wait_ssh_ready-IsTimed o clock endpoint.0 endpoint.1) λ _.
              bind-IsTimed o _ _
                (run_agent_ssh_steps-IsTimed o texts clock plan endpoint.0 endpoint.1 _ wait)
                λ collected.
                  bind-IsTimed o _ _ (image-IsTimed plan endpoint.0 endpoint.1 wait path)
                    λ image_path.
                      bind-IsTimed o _ _ (enforce_response_keep_alive-IsTimed o clock plan pod _)
                        λ keep_alive. bind-IsTimed o _ _ (lift-IsTimed o _) λ urls. pure-IsTimed o _

  with_tokens-IsTimed : (plan : DeploymentPlan) → IsTimed o (with_tokens o texts plan)
  with_tokens-IsTimed plan =
      if-IsTimed o (plan_uses_generated_token plan) _ _
        (bind-IsTimed o _ _ (look-IsTimed o clock _ o.text) λ token. pure-IsTimed o _)
        (pure-IsTimed o plan)

  apply-IsTimed :
      (plan : DeploymentPlan) (wait : Bool) (path : String)
      → IsTimed o (apply o texts plan wait path)
  unfolding apply
  apply-IsTimed plan wait path = bind-IsTimed o _ _ (with_tokens-IsTimed plan) λ tokened.
      bind-IsTimed o _ _ (materialize_network_volumes-IsTimed o clock tokened) λ settled.
        bind-IsTimed o _ _ (create_resources-IsTimed settled settled.resources ([], [])) λ created.
          bind-IsTimed o _ _ (lift-IsTimed o _) λ agent.
            bind-IsTimed o _ _ (lift-IsTimed o _)
              λ pod. apply_agent-IsTimed _ wait path created agent pod

  record_status-IsTimed :
      (plan : DeploymentPlan) (mode : RunMode) (status : String)
      → IsTimed o (record_status o texts plan mode status)
  unfolding record_status
  record_status-IsTimed plan mode status =
      bind-IsTimed o _ _ (look-IsTimed o clock _ o.text) λ now. modify-IsTimed o _

  apply_mode-IsTimed :
      (request : RunRequest) (plan : DeploymentPlan) → IsTimed o (apply_mode o texts request plan)
  apply_mode-IsTimed request plan =
      bind-IsTimed o _ _ (apply-IsTimed plan _ request.response_image_path) λ result.
        bind-IsTimed o _ _ (record_status-IsTimed plan request.mode "completed")
          λ _. bind-IsTimed o _ _ (tell-IsTimed o clock _) λ _. pure-IsTimed o _

  attempt_mode-IsTimed :
      (mode : RunMode) (request : RunRequest) (plan : DeploymentPlan)
      → IsTimed o (attempt_mode o texts mode request plan)
  unfolding attempt_mode
  attempt_mode-IsTimed RunMode.stop request plan =
      bind-IsTimed o _ _ (lifecycle-IsTimed o clock plan false) λ rows. pure-IsTimed o _
  attempt_mode-IsTimed RunMode.terminate request plan =
      bind-IsTimed o _ _ (lifecycle-IsTimed o clock plan true) λ rows. pure-IsTimed o _
  attempt_mode-IsTimed RunMode.plan request plan = apply_mode-IsTimed request plan
  attempt_mode-IsTimed RunMode.apply request plan = apply_mode-IsTimed request plan
  attempt_mode-IsTimed RunMode.apply_and_wait request plan = apply_mode-IsTimed request plan

  clean-IsTimed : (e : OnError) (plan : DeploymentPlan) → IsTimed o (clean o texts e plan)
  clean-IsTimed OnError.leave_running plan = pure-IsTimed o tt
  clean-IsTimed OnError.stop_created plan = cleanup_created-IsTimed o clock plan false
  clean-IsTimed OnError.terminate_created plan = cleanup_created-IsTimed o clock plan true

  guarded-IsTimed :
      (request : RunRequest) (plan : DeploymentPlan) → IsTimed o (guarded o texts request plan)
  unfolding guarded recover
  guarded-IsTimed request plan =
      attempt-IsTimed o _ _ (attempt_mode-IsTimed request.mode request plan) λ e.
        bind-IsTimed o _ _ (event-IsTimed o clock _ _ _ _ _) λ _.
          bind-IsTimed o _ _ (record_status-IsTimed plan request.mode "failed")
            λ _. bind-IsTimed o _ _ (clean-IsTimed request.on_error plan) λ _. raise-IsTimed o e

  run-IsTimed :
      (ambient : Ambient) (resolver : TemplateResolver) (request : RunRequest)
      → IsTimed o (run o texts ambient resolver request)
  unfolding run run_plan
  run-IsTimed ambient resolver request = bind-IsTimed o _ _ (lift-IsTimed o _) λ warnings.
      bind-IsTimed o _ _ (lift-IsTimed o _) λ plan.
        bind-IsTimed o _ _ (reconcile_managed_pods-IsTimed o clock none) λ pods.
          bind-IsTimed o _ _ (record_status-IsTimed plan request.mode "started")
            λ _. guarded-IsTimed request plan

-- With a clock that a sleep moves on, a run never exhausts the fuel of a loop, whatever Runpod, the pods
-- and the store answer: it returns a result or raises an error.
pub run-finished :
    (o : Outside) (texts : Texts)
    → HasClock o
    → (ambient : Ambient) (resolver : TemplateResolver) (request : RunRequest) (w : World)
    → finished (run o texts ambient resolver request w).0 ≡ true
run-finished o texts clock ambient resolver request w =
    (run-IsTimed o texts clock ambient resolver request w).ends
