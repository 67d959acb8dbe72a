-- ===== src/Local/Reuse.antt =====
-- local_runtime.py: when an apply uses a container again.
use comfyui_runpod_agentic_n.Base.{
  ℕ, String, Bool, true, false, not, ◌&&◌, ◌≡◌, ◌⊎◌, inl, inr, refl, Option, none, some, List, ◌∷◌,
  is_zero, arith,
}
use comfyui_runpod_agentic_n.Base.Result.{Result, ok, err}
use comfyui_runpod_agentic_n.Planner.Plan.{DeploymentPlan}
use comfyui_runpod_agentic_n.Local.{Action, is_apply, is_terminate, ApplyResult}
use comfyui_runpod_agentic_n.Local.Host.{
  Step, Host, Local, Finish, finished_with, pure, lift, tell, guarded,
}
use comfyui_runpod_agentic_n.Local.Ensures.{
  Ensures, Ensures-pure, Ensures-bind, Ensures-bind_through, Ensures-if, Ensures-imp,
}
use comfyui_runpod_agentic_n.Local.Apply.{
  as_resumed, is_always_create, is_resume_stopped, apply_compose_file, reconcile_stale,
  remove_retention_volumes, exec_agent, resume_stopped, resume_found, reuse_found, reuse,
  running_agent, agent_resource_of, start_project, find_agent_container,
}
use comfyui_runpod_agentic_n.Local.Containers.{all_exist}
use comfyui_runpod_agentic_n.Local.Waits.{wait_startup_complete, should_wait_local_startup}
use comfyui_runpod_agentic_n.Local.Run.{
  writes_files, after_cleanup, remove_rest, stop_rest, create_after, or_create, create,
  compose_and_wait, apply_plan, apply_local_runtime_plan,
}

-- A result that does not tell of a reuse.
abbrev pub IsNew : ApplyResult × Bool → Type 0
IsNew (result, reused) = reused ≡ false

module _ (host : Host) (engine compose_path project_name : String) (plan : DeploymentPlan)
    (timeout : ℕ) where
  remove_rest-IsNew :
      (action : Action) (result : ApplyResult)
      → Ensures IsNew (remove_rest host engine compose_path project_name plan timeout action result)
  unfolding remove_rest
  remove_rest-IsNew action result =
      Ensures-if IsNew (is_terminate action && is_zero result.returncode) _ _
        (λ e.
          Ensures-bind IsNew
            (remove_retention_volumes host engine compose_path project_name plan timeout) _
            (λ removed. Ensures-pure IsNew _ refl))
        (λ e. Ensures-pure IsNew _ refl)

  pub compose_and_wait-IsNew :
      (action : Action) (cleanup : Option ApplyResult)
      → Ensures IsNew
          (compose_and_wait host engine compose_path project_name plan timeout action cleanup)
  unfolding compose_and_wait
  compose_and_wait-IsNew action cleanup =
      Ensures-bind IsNew
        (apply_compose_file host engine compose_path project_name plan timeout action) _
        λ applied.
          Ensures-bind IsNew
            (stop_rest host engine compose_path project_name plan timeout action applied) _
            λ stopped.
              Ensures-if IsNew
                (is_apply action
                  && (is_zero (after_cleanup cleanup stopped).returncode
                      && should_wait_local_startup plan))
                _ _
                (λ e.
                  Ensures-bind IsNew (wait_startup_complete host engine project_name plan timeout) _
                    λ startup.
                      Ensures-if IsNew (not (is_zero startup.returncode)) _ _
                        (λ f. Ensures-pure IsNew _ refl)
                        (λ f. remove_rest-IsNew action (after_cleanup cleanup stopped)))
                (λ e. remove_rest-IsNew action (after_cleanup cleanup stopped))

  create_after-IsNew :
      (action : Action) (cleanup : Option ApplyResult)
      → Ensures IsNew
          (create_after host engine compose_path project_name plan timeout action cleanup)
  unfolding create_after
  create_after-IsNew action none = compose_and_wait-IsNew action none
  create_after-IsNew action (some result) =
      Ensures-if IsNew (not (is_zero result.returncode)) _ _ (λ e. Ensures-pure IsNew _ refl)
        (λ e. compose_and_wait-IsNew action (some result))

  pub create-IsNew :
      (action : Action)
      → Ensures IsNew (create host engine compose_path project_name plan timeout action)
  unfolding create
  create-IsNew action =
      Ensures-bind IsNew (reconcile_stale host engine compose_path project_name plan timeout) _
        (create_after-IsNew action)

-- A result that tells of a reuse is that of the agent's command in a container, after a start of the
-- project if the policy is to resume.
abbrev pub IsReuse : DeploymentPlan → ApplyResult × Bool → Type 0
IsReuse plan (result, reused) =
    (result.action ≡ "reuse")
    ⊎ ((result.action ≡ "resume_stopped") × (is_resume_stopped plan.reuse_policy ≡ true))

abbrev FromReuse : DeploymentPlan → ApplyResult × Bool → Type 0
FromReuse plan r = r.1 ≡ true → IsReuse plan r

abbrev FromReuseOption : DeploymentPlan → Option (ApplyResult × Bool) → Type 0
FromReuseOption plan none = Unit
FromReuseOption plan (some r) = FromReuse plan r

module _ (host : Host) (engine compose_path project_name : String) (plan : DeploymentPlan)
    (timeout : ℕ) where
  guarded-action :
      (action path failed : String) (command : Result (List String)) (t : ℕ)
      → Ensures (λ r. r.action ≡ action) (guarded host engine action path failed command t)
  unfolding guarded
  guarded-action action path failed (err e) t = record { holds = λ h. refl }
  guarded-action action path failed (ok command) t = record {
    holds = λ h.
        elim (host.finish (Step.run command t ∷ h))
          as (λ f. (finished_with host engine action path failed command f).action ≡ action) [
            | Finish.exited code out text ↦ refl
            | Finish.timed_out out text message ↦ refl
            | Finish.missing message ↦ refl
          ];
  }

  exec_agent-action :
      (container_id : String)
      → Ensures
          (λ r. r.action ≡ "reuse")
          (exec_agent host engine compose_path project_name plan timeout container_id)
  unfolding exec_agent
  exec_agent-action container_id =
      Ensures-bind (λ (r : ApplyResult). r.action ≡ "reuse") (lift (agent_resource_of plan)) _
        (λ agent. guarded-action "reuse" project_name "" _ timeout)

  resume_found-IsReuse :
      is_resume_stopped plan.reuse_policy ≡ true
      → (started : ApplyResult) (found : Option String)
      → Ensures
          (FromReuseOption plan)
          (resume_found host engine compose_path project_name plan timeout started found)
  unfolding resume_found
  resume_found-IsReuse p started none = Ensures-pure (FromReuseOption plan) _ tt
  resume_found-IsReuse p started (some container_id) =
      Ensures-bind (FromReuseOption plan) (tell (Step.write_files project_name plan)) _ λ _.
        Ensures-bind (FromReuseOption plan)
          (exec_agent host engine compose_path project_name plan timeout container_id) _
          λ executed.
            Ensures-pure (FromReuseOption plan)
              (some
                (as_resumed host engine compose_path project_name plan timeout started executed))
              (λ r. inr (refl, p))

  resume_stopped-IsReuse :
      Ensures
        (FromReuseOption plan)
        (resume_stopped host engine compose_path project_name plan timeout)
  unfolding resume_stopped
  resume_stopped-IsReuse =
      let P = FromReuseOption plan in
      Ensures-if P (not (is_resume_stopped plan.reuse_policy)) _ _ (λ e. Ensures-pure P _ tt)
        λ e. Ensures-bind P (all_exist host engine project_name plan) _ λ exist.
          Ensures-if P (not exist) _ _ (λ f. Ensures-pure P _ tt)
            λ f.
              Ensures-bind P (start_project host engine compose_path project_name plan timeout) _
                λ started.
                  Ensures-if P (not (is_zero started.returncode)) _ _
                    (λ g. Ensures-pure P _ (λ r. absurd (cc)))
                    λ g.
                      Ensures-bind P
                        (find_agent_container host engine compose_path project_name plan timeout) _
                        (resume_found-IsReuse (ground arith) started)

  reuse_found-IsReuse :
      (found : Option String)
      → Ensures
          (FromReuseOption plan)
          (reuse_found host engine compose_path project_name plan timeout found)
  unfolding reuse_found
  reuse_found-IsReuse none = resume_stopped-IsReuse
  reuse_found-IsReuse (some container_id) =
      Ensures-bind (FromReuseOption plan) (tell (Step.write_files project_name plan)) _ λ _.
        Ensures-bind_through (FromReuseOption plan) (λ (r : ApplyResult). r.action ≡ "reuse")
          (exec_agent host engine compose_path project_name plan timeout container_id)
          (λ executed. pure (some (executed, true))) (exec_agent-action container_id)
          (λ executed a. Ensures-pure (FromReuseOption plan) _ (λ r. inl a))

  reuse-IsReuse :
      Ensures (FromReuseOption plan) (reuse host engine compose_path project_name plan timeout)
  unfolding reuse
  reuse-IsReuse =
      Ensures-bind (FromReuseOption plan)
        (running_agent host engine compose_path project_name plan timeout) _ reuse_found-IsReuse

-- What an apply may tell of a reuse.
abbrev pub IsAllowed : Action → DeploymentPlan → ApplyResult × Bool → Type 0
IsAllowed action plan r =
    r.1 ≡ true
    → (is_apply action ≡ true) × (is_always_create plan.reuse_policy ≡ false) × IsReuse plan r

new-IsAllowed :
    (action : Action) (plan : DeploymentPlan) (r : ApplyResult × Bool)
    → IsNew r
    → IsAllowed action plan r
new-IsAllowed action plan (result, reused) e h = absurd (cc)

module _ (host : Host) (engine compose_path project_name : String) (plan : DeploymentPlan)
    (timeout : ℕ) (action : Action) where
  or_create-IsAllowed :
      (reused : Option (ApplyResult × Bool))
      → is_apply action ≡ true
      → is_always_create plan.reuse_policy ≡ false
      → FromReuseOption plan reused
      → Ensures
          (IsAllowed action plan)
          (or_create host engine compose_path project_name plan timeout action reused)
  unfolding or_create
  or_create-IsAllowed none e f r =
      Ensures-imp IsNew (IsAllowed action plan) (new-IsAllowed action plan) _
        (create-IsNew host engine compose_path project_name plan timeout action)
  or_create-IsAllowed (some result) e f r =
      Ensures-pure (IsAllowed action plan) _ (λ t. (e, f, r t))

  apply_plan-IsAllowed :
      is_apply action ≡ true
      → Ensures
          (IsAllowed action plan)
          (apply_plan host engine compose_path project_name plan timeout action)
  unfolding apply_plan
  apply_plan-IsAllowed e =
      let P = IsAllowed action plan in
      Ensures-bind P (tell (Step.write_files project_name plan)) _ λ _.
        Ensures-bind P (tell (Step.clear_outputs project_name)) _ λ _.
          Ensures-if P (is_always_create plan.reuse_policy) _ _
            (λ f.
              Ensures-imp IsNew P (new-IsAllowed action plan) _
                (create-IsNew host engine compose_path project_name plan timeout action))
            (λ f.
              Ensures-bind_through P (FromReuseOption plan)
                (reuse host engine compose_path project_name plan timeout)
                (or_create host engine compose_path project_name plan timeout action)
                (reuse-IsReuse host engine compose_path project_name plan timeout)
                (λ reused r. or_create-IsAllowed reused e f r))

pub apply_local_runtime_plan-IsAllowed :
    (host : Host) (engine compose_path project_name : String) (plan : DeploymentPlan) (timeout : ℕ)
    (action : Action)
    → Ensures
        (IsAllowed action plan)
        (apply_local_runtime_plan host engine compose_path project_name plan timeout action)
unfolding apply_local_runtime_plan
apply_local_runtime_plan-IsAllowed host engine compose_path project_name plan timeout action =
    let P = IsAllowed action plan in
    let new : (m : Local (ApplyResult × Bool)) → Ensures IsNew m → Ensures P m =
      Ensures-imp IsNew P (new-IsAllowed action plan) in
    let composed =
      new (compose_and_wait host engine compose_path project_name plan timeout action none)
        (compose_and_wait-IsNew host engine compose_path project_name plan timeout action none) in
    Ensures-if P (is_apply action) _ _
      (λ e. apply_plan-IsAllowed host engine compose_path project_name plan timeout action e)
      (λ e.
        Ensures-if P (writes_files action) _ _
          (λ f. Ensures-bind P (tell (Step.write_files project_name plan)) _ (λ _. composed))
          (λ f. composed))
