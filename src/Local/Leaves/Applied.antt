-- ===== src/Local/Leaves/Applied.antt =====
-- local_runtime.py: an apply that uses a container again creates and removes none.
use comfyui_runpod_agentic_n.Base.{
  ℕ, String, Bool, true, false, not, ◌≡◌, refl, Option, none, some, List, is_zero, arith,
}
use comfyui_runpod_agentic_n.Planner.Plan.{DeploymentPlan}
use comfyui_runpod_agentic_n.Local.{Action, is_apply, ApplyResult}
use comfyui_runpod_agentic_n.Remote.Exec.{returned}
use comfyui_runpod_agentic_n.Local.Compose.{local_resource_desired_hash}
use comfyui_runpod_agentic_n.Local.Host.{Step, Host, Local, pure, lift, tell}
use comfyui_runpod_agentic_n.Local.Since.{
  Since, Takes, TakesWhen, pure-Takes, lift-Takes, if-Takes, tell-Takes, guarded-Takes, bind-Takes,
  bind-TakesWhen, Takes-TakesWhen, never-TakesWhen, if-TakesWhen,
}
use comfyui_runpod_agentic_n.Local.Ensures.{Holds-returned, Ensures}
use comfyui_runpod_agentic_n.Local.Reuse.{
  IsNew, IsReuse, IsAllowed, create-IsNew, compose_and_wait-IsNew,
  apply_local_runtime_plan-IsAllowed,
}
use comfyui_runpod_agentic_n.Local.Containers.{
  find_container, find_project_container, all_running, all_exist,
}
use comfyui_runpod_agentic_n.Local.Apply.{
  is_always_create, is_resume_stopped, exec_agent, resume_stopped, resume_found, reuse_found, reuse,
  running_agent, agent_resource_of, start_project, find_agent_container, as_resumed,
}
use comfyui_runpod_agentic_n.Local.Run.{
  writes_files, or_create, apply_plan, apply_local_runtime_plan,
}
use comfyui_runpod_agentic_n.Local.Leaves.{
  Leaves, writes, clears, asks, starts, find_container-Takes, find_project_container-Takes,
  all_found-Takes,
}

-- A result that tells of a reuse.
abbrev WasReused : ApplyResult × Bool → Type 0
WasReused r = r.1 ≡ true

module _ (host : Host) (engine compose_path project_name : String) (plan : DeploymentPlan)
    (timeout : ℕ) where
  abbrev Left : Step → Type 0
  Left = Leaves host engine compose_path project_name plan

  new-TakesWhen : (m : Local (ApplyResult × Bool)) → Ensures IsNew m → TakesWhen Left WasReused m
  new-TakesWhen m e = never-TakesWhen Left WasReused IsNew m e (λ (result, reused) f t. cc)

  find_agent-Takes :
      Takes Left (find_agent_container host engine compose_path project_name plan timeout)
  unfolding find_agent_container
  find_agent-Takes = bind-Takes Left (lift (agent_resource_of plan)) _ (lift-Takes Left _) λ agent.
      bind-Takes Left (lift (local_resource_desired_hash host.setting agent plan)) _
        (lift-Takes Left _)
        λ hash. find_container-Takes host engine compose_path project_name plan "agent" (some hash)

  running_agent-Takes :
      Takes Left (running_agent host engine compose_path project_name plan timeout)
  unfolding running_agent all_running
  running_agent-Takes =
      bind-Takes Left (lift (agent_resource_of plan)) _ (lift-Takes Left _) λ agent.
        bind-Takes Left (all_running host engine project_name plan) _
          (all_found-Takes host engine compose_path project_name plan
            (find_container host engine project_name)
            (find_container-Takes host engine compose_path project_name plan) plan.resources)
          λ running. if-Takes Left running _ _ (λ e. find_agent-Takes) (λ e. pure-Takes Left none)

  exec_agent-Takes :
      (container_id : String)
      → Takes Left (exec_agent host engine compose_path project_name plan timeout container_id)
  unfolding exec_agent
  exec_agent-Takes container_id =
      bind-Takes Left (lift (agent_resource_of plan)) _ (lift-Takes Left _) λ agent.
        guarded-Takes Left host engine "reuse" project_name "" _ timeout
          (λ command e. asks _ command timeout refl e)

  -- The agent's command in a container, after the files are written.
  resume_found-Takes :
      (started : ApplyResult) (found : Option String)
      → Takes Left (resume_found host engine compose_path project_name plan timeout started found)
  unfolding resume_found
  resume_found-Takes started none = pure-Takes Left none
  resume_found-Takes started (some id) =
      bind-Takes Left (tell (Step.write_files project_name plan)) _ (tell-Takes Left _ writes) λ _.
        bind-Takes Left (exec_agent host engine compose_path project_name plan timeout id) _
          (exec_agent-Takes id)
          λ executed.
            pure-Takes Left (
              some (as_resumed host engine compose_path project_name plan timeout started executed))

  resume_stopped-Takes :
      Takes Left (resume_stopped host engine compose_path project_name plan timeout)
  unfolding resume_stopped start_project all_exist
  resume_stopped-Takes =
      if-Takes Left (not (is_resume_stopped plan.reuse_policy)) _ _ (λ e. pure-Takes Left none)
        λ e.
          bind-Takes Left (all_exist host engine project_name plan) _
            (all_found-Takes host engine compose_path project_name plan
              (find_project_container host engine project_name)
              (find_project_container-Takes host engine compose_path project_name plan)
              plan.resources)
            λ exist.
              if-Takes Left (not exist) _ _ (λ f. pure-Takes Left none)
                λ f.
                  bind-Takes Left (start_project host engine compose_path project_name plan timeout)
                    _
                    (guarded-Takes Left host engine "resume_stopped" compose_path compose_path _
                      timeout (λ command c. starts command timeout (ground arith) c))
                    λ started.
                      if-Takes Left (not (is_zero started.returncode)) _ _
                        (λ z. pure-Takes Left (some (started, false)))
                        λ z.
                          bind-Takes Left
                            (find_agent_container host engine compose_path project_name plan
                              timeout)
                            _ find_agent-Takes (resume_found-Takes started)

  reuse_found-Takes :
      (found : Option String)
      → Takes Left (reuse_found host engine compose_path project_name plan timeout found)
  unfolding reuse_found
  reuse_found-Takes none = resume_stopped-Takes
  reuse_found-Takes (some id) =
      bind-Takes Left (tell (Step.write_files project_name plan)) _ (tell-Takes Left _ writes) λ _.
        bind-Takes Left (exec_agent host engine compose_path project_name plan timeout id) _
          (exec_agent-Takes id) λ executed. pure-Takes Left (some (executed, true))

  pub reuse-Takes : Takes Left (reuse host engine compose_path project_name plan timeout)
  unfolding reuse
  reuse-Takes =
      bind-Takes Left (running_agent host engine compose_path project_name plan timeout) _
        running_agent-Takes reuse_found-Takes

  or_create-TakesWhen :
      (action : Action) (reused : Option (ApplyResult × Bool))
      → TakesWhen Left WasReused
          (or_create host engine compose_path project_name plan timeout action reused)
  unfolding or_create
  or_create-TakesWhen action (some result) =
      Takes-TakesWhen Left WasReused (pure result) (pure-Takes Left result)
  or_create-TakesWhen action none =
      new-TakesWhen _ (create-IsNew host engine compose_path project_name plan timeout action)

  apply_plan-TakesWhen :
      (action : Action)
      → TakesWhen Left WasReused
          (apply_plan host engine compose_path project_name plan timeout action)
  unfolding apply_plan
  apply_plan-TakesWhen action =
      bind-TakesWhen Left WasReused (tell (Step.write_files project_name plan)) _
        (tell-Takes Left _ writes)
        λ _.
          bind-TakesWhen Left WasReused (tell (Step.clear_outputs project_name)) _
            (tell-Takes Left _ clears)
            λ _.
              if-TakesWhen Left WasReused (is_always_create plan.reuse_policy) _ _
                (λ e.
                  new-TakesWhen _
                    (create-IsNew host engine compose_path project_name plan timeout action))
                (λ e.
                  bind-TakesWhen Left WasReused
                    (reuse host engine compose_path project_name plan timeout) _ reuse-Takes
                    (or_create-TakesWhen action))

  apply-TakesWhen :
      (action : Action)
      → TakesWhen Left WasReused
          (apply_local_runtime_plan host engine compose_path project_name plan timeout action)
  unfolding apply_local_runtime_plan
  apply-TakesWhen action =
      let composed =
        new-TakesWhen _
          (compose_and_wait-IsNew host engine compose_path project_name plan timeout action none) in
      if-TakesWhen Left WasReused (is_apply action) _ _ (λ e. apply_plan-TakesWhen action)
        λ e.
          if-TakesWhen Left WasReused (writes_files action) _ _
            (λ f.
              bind-TakesWhen Left WasReused (tell (Step.write_files project_name plan)) _
                (tell-Takes Left _ writes) (λ _. composed))
            (λ f. composed)

-- An application that tells of a used container is that of an apply whose policy is not to create
-- always; its result says `reuse` or, under the policy to resume only, `resume_stopped`; and every step
-- that it took leaves the containers as they are: it writes files, or runs `ps`, `inspect` or `exec` of
-- the engine or, under the policy to resume only, starts the project.
pub apply_local_runtime_plan-IsReuse :
    (host : Host) (engine compose_path project_name : String) (plan : DeploymentPlan) (timeout : ℕ)
    (action : Action) (h h' : List Step) (result : ApplyResult)
    → apply_local_runtime_plan host engine compose_path project_name plan timeout action h
      ≡ (returned (result, true), h')
    → (is_apply action ≡ true)
      × (is_always_create plan.reuse_policy ≡ false)
      × IsReuse plan (result, true)
      × Since (Leaves host engine compose_path project_name plan) h h'
apply_local_runtime_plan-IsReuse host engine compose_path project_name plan timeout action h h'
      result e =
    let run =
      apply_local_runtime_plan host engine compose_path project_name plan timeout action h in
    let Kept : List Step → Type 0 = Since (Leaves host engine compose_path project_name plan) h in
    let allowed =
      apply_local_runtime_plan-IsAllowed host engine compose_path project_name plan timeout
        action in
    let kept = apply-TakesWhen host engine compose_path project_name plan timeout action in
    let a =
      Holds-returned (λ r h''. IsAllowed action plan r) run (result, true) h' (allowed.holds h) e in
    let k =
      Holds-returned (λ r h''. WasReused r → Kept h'') run (result, true) h' (kept.when h) e in
    ((a refl).0, (a refl).1, (a refl).2, k refl)
