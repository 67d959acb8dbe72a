-- ===== src/Local/Total.antt =====
-- local_runtime.py: applying a plan comes to an outcome.
use comfyui_runpod_agentic_n.Base.{
  ℕ, String, Bool, true, false, not, ◌&&◌, Option, none, some, is_zero, nonempty,
}
use comfyui_runpod_agentic_n.Planner.Plan.{DeploymentPlan}
use comfyui_runpod_agentic_n.Local.{Action, is_apply, is_stop, is_terminate, ApplyResult}
use comfyui_runpod_agentic_n.Local.Compose.{local_resource_desired_hash}
use comfyui_runpod_agentic_n.Local.Host.{Step, Host, pure, lift, tell, guarded, ◌>>=◌}
use comfyui_runpod_agentic_n.Local.Containers.{list_containers, all_running, all_exist}
use comfyui_runpod_agentic_n.Local.Apply.{
  agent_resource_of, is_always_create, is_resume_stopped, apply_compose_file, reconcile_stale,
  remove_retention_volumes, stop_containers, start_project, exec_agent, find_agent_container,
  running_agent, resume_found, resume_stopped, reuse_found, reuse,
}
use comfyui_runpod_agentic_n.Local.Waits.{wait_startup_complete, should_wait_local_startup}
use comfyui_runpod_agentic_n.Local.Containers.Ends.{
  list_containers-Ends, find_container-Ends, all_running-Ends, all_exist-Ends,
}
use comfyui_runpod_agentic_n.Local.Waits.Ends.{wait_startup_complete-Ends}
use comfyui_runpod_agentic_n.Local.Timed.{
  HasClock, Ends, pure-Ends, lift-Ends, tell-Ends, if-Ends, guarded-Ends, bind-Ends,
}
use comfyui_runpod_agentic_n.Local.Run.{
  after_cleanup, writes_files, stop_rest, remove_rest, compose_and_wait, create_after, create,
  or_create, apply_plan, apply_local_runtime_plan,
}

module _ (host : Host) (clock : HasClock host) (engine compose_path project_name : String)
    (plan : DeploymentPlan) (timeout : ℕ) where
  -- The same arguments for every method.
  apply_compose_file-Ends :
      (action : Action)
      → Ends host (apply_compose_file host engine compose_path project_name plan timeout action)
  unfolding apply_compose_file
  apply_compose_file-Ends Action.save_only = pure-Ends host _
  apply_compose_file-Ends Action.plan =
      bind-Ends host (lift (host.summary compose_path)) _ (lift-Ends host _)
        (λ text. pure-Ends host _)
  apply_compose_file-Ends Action.apply = guarded-Ends host clock engine _ _ _ _ timeout
  apply_compose_file-Ends Action.apply_and_wait = guarded-Ends host clock engine _ _ _ _ timeout
  apply_compose_file-Ends Action.stop = guarded-Ends host clock engine _ _ _ _ timeout
  apply_compose_file-Ends Action.terminate = guarded-Ends host clock engine _ _ _ _ timeout

  reconcile_stale-Ends :
      Ends host (reconcile_stale host engine compose_path project_name plan timeout)
  unfolding reconcile_stale
  reconcile_stale-Ends =
      bind-Ends host (list_containers host engine project_name false) _
        (list_containers-Ends host clock engine project_name false)
        λ ids. if-Ends host (not (nonempty ids)) _ _ (pure-Ends host _) (
          bind-Ends host (all_running host engine project_name plan) _
            (all_running-Ends host clock engine project_name plan)
            λ running. if-Ends host running _ _ (pure-Ends host _) (
              bind-Ends host
                (apply_compose_file host engine compose_path project_name plan timeout
                  Action.terminate)
                _ (apply_compose_file-Ends Action.terminate) (λ result. pure-Ends host _)))

  remove_retention_volumes-Ends :
      Ends host (remove_retention_volumes host engine compose_path project_name plan timeout)
  unfolding remove_retention_volumes
  remove_retention_volumes-Ends = if-Ends host _ _ _ (pure-Ends host _) (
      bind-Ends host (guarded host engine "volume_cleanup" "" "" _ timeout) _
        (guarded-Ends host clock engine "volume_cleanup" "" "" _ timeout) (λ r. pure-Ends host _))

  stop_containers-Ends :
      Ends host (stop_containers host engine compose_path project_name plan timeout)
  unfolding stop_containers
  stop_containers-Ends =
      bind-Ends host (list_containers host engine project_name true) _
        (list_containers-Ends host clock engine project_name true)
        λ ids. if-Ends host (not (nonempty ids)) _ _ (pure-Ends host _) (
          bind-Ends host (guarded host engine "stop" "" "" _ timeout) _
            (guarded-Ends host clock engine "stop" "" "" _ timeout) (λ r. pure-Ends host _))

  exec_agent-Ends :
      (container_id : String)
      → Ends host (exec_agent host engine compose_path project_name plan timeout container_id)
  unfolding exec_agent
  exec_agent-Ends container_id =
      bind-Ends host (lift (agent_resource_of plan)) _ (lift-Ends host _)
        (λ agent. guarded-Ends host clock engine "reuse" project_name "" _ timeout)

  start_project-Ends : Ends host (start_project host engine compose_path project_name plan timeout)
  unfolding start_project
  start_project-Ends =
      guarded-Ends host clock engine "resume_stopped" compose_path compose_path _ timeout

  find_agent_container-Ends :
      Ends host (find_agent_container host engine compose_path project_name plan timeout)
  unfolding find_agent_container
  find_agent_container-Ends =
      bind-Ends host (lift (agent_resource_of plan)) _ (lift-Ends host _) λ agent.
        bind-Ends host (lift (local_resource_desired_hash host.setting agent plan)) _
          (lift-Ends host _)
          λ hash. find_container-Ends host clock engine project_name "agent" (some hash)

  running_agent-Ends : Ends host (running_agent host engine compose_path project_name plan timeout)
  unfolding running_agent
  running_agent-Ends = bind-Ends host (lift (agent_resource_of plan)) _ (lift-Ends host _) λ agent.
      bind-Ends host (all_running host engine project_name plan) _
        (all_running-Ends host clock engine project_name plan)
        λ running. if-Ends host running _ _ find_agent_container-Ends (pure-Ends host none)

  -- The files are written, and the agent's command runs in the container.
  exec_after_write-Ends :
      {B : Type 0} (container_id : String) (f : ApplyResult → B)
      → Ends host (
          tell (Step.write_files project_name plan) >>= λ _.
          exec_agent host engine compose_path project_name plan timeout container_id >>= λ executed.
          pure (f executed))
  exec_after_write-Ends container_id f =
      bind-Ends host (tell (Step.write_files project_name plan)) _ (tell-Ends host clock _) λ _.
        bind-Ends host (exec_agent host engine compose_path project_name plan timeout container_id)
          _ (exec_agent-Ends container_id) (λ executed. pure-Ends host (f executed))

  resume_found-Ends :
      (started : ApplyResult) (found : Option String)
      → Ends host (resume_found host engine compose_path project_name plan timeout started found)
  unfolding resume_found
  resume_found-Ends started none = pure-Ends host none
  resume_found-Ends started (some id) = exec_after_write-Ends id _

  resume_stopped-Ends :
      Ends host (resume_stopped host engine compose_path project_name plan timeout)
  unfolding resume_stopped
  resume_stopped-Ends =
      if-Ends host (not (is_resume_stopped plan.reuse_policy)) _ _ (pure-Ends host none) (
        bind-Ends host (all_exist host engine project_name plan) _
          (all_exist-Ends host clock engine project_name plan)
          λ exist. if-Ends host (not exist) _ _ (pure-Ends host none) (
            bind-Ends host (start_project host engine compose_path project_name plan timeout) _
              start_project-Ends
              λ started. if-Ends host (not (is_zero started.returncode)) _ _ (pure-Ends host _) (
                bind-Ends host
                  (find_agent_container host engine compose_path project_name plan timeout) _
                  find_agent_container-Ends (resume_found-Ends started))))

  reuse_found-Ends :
      (found : Option String)
      → Ends host (reuse_found host engine compose_path project_name plan timeout found)
  unfolding reuse_found
  reuse_found-Ends none = resume_stopped-Ends
  reuse_found-Ends (some id) = exec_after_write-Ends id _

  reuse-Ends : Ends host (reuse host engine compose_path project_name plan timeout)
  unfolding reuse
  reuse-Ends =
      bind-Ends host (running_agent host engine compose_path project_name plan timeout) _
        running_agent-Ends reuse_found-Ends

  stop_rest-Ends :
      (action : Action) (result : ApplyResult)
      → Ends host (stop_rest host engine compose_path project_name plan timeout action result)
  unfolding stop_rest
  stop_rest-Ends action result =
      if-Ends host (is_stop action && is_zero result.returncode) _ _
        (bind-Ends host (stop_containers host engine compose_path project_name plan timeout) _
          stop_containers-Ends (λ r. pure-Ends host _))
        (pure-Ends host result)

  remove_rest-Ends :
      (action : Action) (result : ApplyResult)
      → Ends host (remove_rest host engine compose_path project_name plan timeout action result)
  unfolding remove_rest
  remove_rest-Ends action result =
      if-Ends host (is_terminate action && is_zero result.returncode) _ _
        (bind-Ends host
          (remove_retention_volumes host engine compose_path project_name plan timeout) _
          remove_retention_volumes-Ends (λ r. pure-Ends host _))
        (pure-Ends host _)

  compose_and_wait-Ends :
      (action : Action) (cleanup : Option ApplyResult)
      → Ends host
          (compose_and_wait host engine compose_path project_name plan timeout action cleanup)
  unfolding compose_and_wait
  compose_and_wait-Ends action cleanup =
      bind-Ends host (apply_compose_file host engine compose_path project_name plan timeout action)
        _ (apply_compose_file-Ends action)
        λ applied.
          bind-Ends host
            (stop_rest host engine compose_path project_name plan timeout action applied) _
            (stop_rest-Ends action applied)
            λ stopped.
              if-Ends host
                (is_apply action
                  && (is_zero (after_cleanup cleanup stopped).returncode
                      && should_wait_local_startup plan))
                _ _
                (bind-Ends host (wait_startup_complete host engine project_name plan timeout) _
                  (wait_startup_complete-Ends host clock engine project_name plan timeout)
                  λ startup.
                    if-Ends host (not (is_zero startup.returncode)) _ _ (pure-Ends host _)
                      (remove_rest-Ends action (after_cleanup cleanup stopped)))
                (remove_rest-Ends action (after_cleanup cleanup stopped))

  create_after-Ends :
      (action : Action) (cleanup : Option ApplyResult)
      → Ends host (create_after host engine compose_path project_name plan timeout action cleanup)
  unfolding create_after
  create_after-Ends action none = compose_and_wait-Ends action none
  create_after-Ends action (some result) =
      if-Ends host (not (is_zero result.returncode)) _ _ (pure-Ends host _)
        (compose_and_wait-Ends action (some result))

  create-Ends :
      (action : Action)
      → Ends host (create host engine compose_path project_name plan timeout action)
  unfolding create
  create-Ends action =
      bind-Ends host (reconcile_stale host engine compose_path project_name plan timeout) _
        reconcile_stale-Ends (create_after-Ends action)

  or_create-Ends :
      (action : Action) (reused : Option (ApplyResult × Bool))
      → Ends host (or_create host engine compose_path project_name plan timeout action reused)
  unfolding or_create
  or_create-Ends action none = create-Ends action
  or_create-Ends action (some result) = pure-Ends host result

  apply_plan-Ends :
      (action : Action)
      → Ends host (apply_plan host engine compose_path project_name plan timeout action)
  unfolding apply_plan
  apply_plan-Ends action =
      bind-Ends host (tell (Step.write_files project_name plan)) _ (tell-Ends host clock _) λ _.
        bind-Ends host (tell (Step.clear_outputs project_name)) _ (tell-Ends host clock _) λ _.
          if-Ends host (is_always_create plan.reuse_policy) _ _ (create-Ends action) (
            bind-Ends host (reuse host engine compose_path project_name plan timeout) _ reuse-Ends
              (or_create-Ends action))

-- Applying a plan to a container engine comes to a result or an exception, for every action, whatever the
-- engine answers, where the clock is monotonic and a sleep moves it on: the wait for the startup ends at
-- its deadline at the latest.
pub apply_local_runtime_plan-Ends :
    (host : Host) (engine compose_path project_name : String) (plan : DeploymentPlan) (timeout : ℕ)
    (action : Action)
    → HasClock host
    → Ends host (apply_local_runtime_plan host engine compose_path project_name plan timeout action)
unfolding apply_local_runtime_plan
apply_local_runtime_plan-Ends host engine compose_path project_name plan timeout action clock =
    let composed =
      compose_and_wait-Ends host clock engine compose_path project_name plan timeout action none in
    if-Ends host (is_apply action) _ _
      (apply_plan-Ends host clock engine compose_path project_name plan timeout action)
      (if-Ends host (writes_files action) _ _
        (bind-Ends host (tell (Step.write_files project_name plan)) _ (tell-Ends host clock _)
          (λ _. composed))
        composed)
