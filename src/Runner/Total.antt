-- ===== src/Runner/Total.antt =====
-- A run comes to an outcome: its loops end in time, and nothing else waits.
use comfyui_runpod_agentic_n.Base.{ℕ, String, ◌<>◌, Bool, Option, List, [], ◌∷◌, is_zero, value_or}
use comfyui_runpod_agentic_n.Base.Dict.{Dict, get}
use comfyui_runpod_agentic_n.Planner.Plan.{DeploymentPlan, Detail, PlanAction, ActionKind}
use comfyui_runpod_agentic_n.Remote.Outside.{Outside}
use comfyui_runpod_agentic_n.Remote.Exec.{wait}
use comfyui_runpod_agentic_n.Remote.Timed.{
  HasClock, IsTimed, pure-IsTimed, raise-IsTimed, lift-IsTimed, ask-IsTimed, bind-IsTimed,
  if-IsTimed, tell-IsTimed, event-IsTimed,
}
use comfyui_runpod_agentic_n.Runner.Agent.{
  Texts, write_files, write_runtime_files, launch_agent, run_detail, run_kind, run_step, run_steps,
  wait_agent_response, run_agent_ssh_steps, is_teardown, is_agent_action, base_of, runtime_files,
}
use comfyui_runpod_agentic_n.Runner.KeepAlive.{}
use comfyui_runpod_agentic_n.Runner.Lifecycle.{}
use comfyui_runpod_agentic_n.Runner.Run.{}
use comfyui_runpod_agentic_n.Runner.Termination.{wait_response-IsTimed}
use comfyui_runpod_agentic_n.Runner.Ends.{run_ssh_command_action-IsTimed}

module _ (o : Outside) (texts : Texts) (clock : HasClock o) where
  write_files-IsTimed :
      (host : String) (port : ℕ) (files : Dict String)
      → IsTimed o (write_files o texts host port files)
  unfolding write_files
  write_files-IsTimed host port [] = pure-IsTimed o tt
  write_files-IsTimed host port ((path, content) ∷ rest) =
      bind-IsTimed o _ _ (ask-IsTimed o clock _ o.written) λ _. write_files-IsTimed host port rest

  write_runtime_files-IsTimed :
      (plan : DeploymentPlan) (host : String) (port : ℕ)
      → IsTimed o (write_runtime_files o texts plan host port)
  unfolding write_runtime_files
  write_runtime_files-IsTimed plan host port = bind-IsTimed o _ _ (lift-IsTimed o _) λ env.
      bind-IsTimed o _ _ (write_files-IsTimed host port (runtime_files texts plan (base_of env)))
        λ _. event-IsTimed o clock _ _ _ _ _

  launch_agent-IsTimed :
      (plan : DeploymentPlan) (host : String) (port : ℕ)
      → IsTimed o (launch_agent o texts plan host port)
  unfolding launch_agent
  launch_agent-IsTimed plan host port = bind-IsTimed o _ _ (lift-IsTimed o _) λ env.
      if-IsTimed o _ _ _
        (bind-IsTimed o _ _ (event-IsTimed o clock _ _ _ _ _) λ _. pure-IsTimed o _)
        (bind-IsTimed o _ _ (tell-IsTimed o clock _) λ _.
          bind-IsTimed o _ _ (ask-IsTimed o clock _ o.command) λ result.
            bind-IsTimed o _ _ (event-IsTimed o clock _ _ _ _ _) λ _.
              if-IsTimed o (is_zero result.exit_code) _ _ (pure-IsTimed o _) (raise-IsTimed o _))

  run_detail-IsTimed :
      (plan : DeploymentPlan) (host : String) (port : ℕ) (resource_id : Option String)
      (work : Detail)
      → IsTimed o (run_detail o texts plan host port resource_id work)
  run_detail-IsTimed plan host port resource_id (Detail.command c) =
      if-IsTimed o (is_teardown c.phase) _ _ (pure-IsTimed o _) (
        bind-IsTimed o _ _ (run_ssh_command_action-IsTimed o clock _ host port resource_id c)
          λ result. pure-IsTimed o _)
  run_detail-IsTimed plan host port resource_id Detail.no_detail = raise-IsTimed o _
  run_detail-IsTimed plan host port resource_id (Detail.template t) = raise-IsTimed o _
  run_detail-IsTimed plan host port resource_id (Detail.resources t) = raise-IsTimed o _
  run_detail-IsTimed plan host port resource_id (Detail.files t) = raise-IsTimed o _
  run_detail-IsTimed plan host port resource_id (Detail.launch h m) = raise-IsTimed o _
  run_detail-IsTimed plan host port resource_id (Detail.keep_alive p) = raise-IsTimed o _

  run_kind-IsTimed :
      (kind : ActionKind) (plan : DeploymentPlan) (host : String) (port : ℕ)
      (resource_id : Option String) (work : Detail)
      → IsTimed o (run_kind o texts kind plan host port resource_id work)
  unfolding run_kind
  run_kind-IsTimed ActionKind.run_ssh_command plan host port resource_id work =
      run_detail-IsTimed plan host port resource_id work
  run_kind-IsTimed ActionKind.write_runtime_config plan host port resource_id work =
      bind-IsTimed o _ _ (tell-IsTimed o clock _)
        λ _. bind-IsTimed o _ _ (write_runtime_files-IsTimed plan host port) λ _. pure-IsTimed o _
  run_kind-IsTimed ActionKind.launch_agent plan host port resource_id work =
      launch_agent-IsTimed plan host port
  run_kind-IsTimed ActionKind.create_or_resume plan host port resource_id work = pure-IsTimed o _
  run_kind-IsTimed ActionKind.wait_ready plan host port resource_id work = pure-IsTimed o _
  run_kind-IsTimed ActionKind.resolve_dependency_contracts plan host port resource_id work =
      pure-IsTimed o _
  run_kind-IsTimed ActionKind.wait_ssh plan host port resource_id work = pure-IsTimed o _
  run_kind-IsTimed ActionKind.monitor_keep_alive plan host port resource_id work = pure-IsTimed o _

  run_steps-IsTimed :
      (plan : DeploymentPlan) (host : String) (port : ℕ) (resource_id : Option String)
      (actions : List PlanAction)
      → IsTimed o (run_steps o texts plan host port resource_id actions)
  unfolding run_steps run_step
  run_steps-IsTimed plan host port resource_id [] = pure-IsTimed o _
  run_steps-IsTimed plan host port resource_id (action ∷ rest) =
      bind-IsTimed o _ _
        (if-IsTimed o (is_agent_action action.role) _ _
          (run_kind-IsTimed action.action plan host port resource_id action.detail)
          (pure-IsTimed o _))
        λ now.
          bind-IsTimed o _ _ (run_steps-IsTimed plan host port resource_id rest)
            λ later. pure-IsTimed o _

  wait_agent_response-IsTimed :
      (plan : DeploymentPlan) (host : String) (port : ℕ)
      → IsTimed o (wait_agent_response o texts plan host port)
  unfolding wait_agent_response
  wait_agent_response-IsTimed plan host port = bind-IsTimed o _ _ (lift-IsTimed o _) λ env.
      wait_response-IsTimed o clock plan.run_id host port
        (value_or (get plan.runtime_contract.env.values "AGENT_RESPONSE_FILE")
          (base_of env <> "/response.txt"))
        (value_or (get plan.runtime_contract.env.values "AGENT_ERRORS_FILE")
          (base_of env <> "/errors.txt"))
        (base_of env <> "/agent.log")

  pub run_agent_ssh_steps-IsTimed :
      (plan : DeploymentPlan) (host : String) (port : ℕ) (resource_id : Option String) (wait : Bool)
      → IsTimed o (run_agent_ssh_steps o texts plan host port resource_id wait)
  unfolding run_agent_ssh_steps
  run_agent_ssh_steps-IsTimed plan host port resource_id wait =
      bind-IsTimed o _ _ (run_steps-IsTimed plan host port resource_id plan.actions) λ collected.
        if-IsTimed o _ _ _
          (bind-IsTimed o _ _ (tell-IsTimed o clock _) λ _.
            bind-IsTimed o _ _ (wait_agent_response-IsTimed plan host port)
              λ last. pure-IsTimed o _)
          (pure-IsTimed o _)
