-- ===== src/Local/Leaves.antt =====
-- local_runtime.py: steps that leave the containers as they are, and the queries of an engine, which do.
pub mod Applied
use comfyui_runpod_agentic_n.Base.{
  ℕ, String, Bool, true, false, not, ◌≡◌, refl, Option, none, some, List, [], ◌∷◌, is_zero, is_some,
  contains, arith, Bool-cases, ◌==◌, ◌||◌, inl, inr,
}
use comfyui_runpod_agentic_n.Base.Result.{Result, ok}
use comfyui_runpod_agentic_n.Planner.Plan.{ResourcePlan, DeploymentPlan}
use comfyui_runpod_agentic_n.Planner.Env.{role_text}
use comfyui_runpod_agentic_n.Local.{
  Action, is_apply, ApplyResult, ps_args, command_for_engine, local_runtime_command,
}
use comfyui_runpod_agentic_n.Remote.Exec.{returned}
use comfyui_runpod_agentic_n.Local.Compose.{local_resource_desired_hash}
use comfyui_runpod_agentic_n.Local.Host.{Step, Host, Local, pure, lift, tell}
use comfyui_runpod_agentic_n.Local.Since.{
  Since, Takes, TakesWhen, pure-Takes, lift-Takes, if-Takes, tell-Takes, run_process-Takes,
  guarded-Takes, bind-Takes, result-Takes, bind-TakesWhen, Takes-TakesWhen, never-TakesWhen,
  if-TakesWhen,
}
use comfyui_runpod_agentic_n.Local.Ensures.{Holds-returned, Ensures}
use comfyui_runpod_agentic_n.Local.Reuse.{
  IsNew, IsReuse, IsAllowed, create-IsNew, compose_and_wait-IsNew,
  apply_local_runtime_plan-IsAllowed,
}
use comfyui_runpod_agentic_n.Local.Containers.{
  run_engine, inspect_container_labels, first_matching, labels_match, list_containers, ids_of,
  find_container, find_project_container, all_found, all_running, all_exist,
}
use comfyui_runpod_agentic_n.Local.Apply.{
  is_always_create, is_resume_stopped, to_start, exec_agent, resume_stopped, resume_found,
  reuse_found, reuse, running_agent, agent_resource_of, start_project, find_agent_container,
  as_resumed,
}
use comfyui_runpod_agentic_n.Local.Run.{
  writes_files, or_create, apply_plan, apply_local_runtime_plan,
}

-- The first word of a command that asks an engine, or runs a program in a container.
abbrev pub leaves_containers : List String → Bool
leaves_containers [] = false
leaves_containers (word ∷ rest) = contains word ("ps" ∷ "inspect" ∷ "exec" ∷ [])

-- A step that neither creates nor removes a container: files are written, the engine is asked or told to
-- run a program in a container, or, under the policy to resume, the project's containers are started.
pub data Leaves (host : Host) (engine compose_path project_name : String) (plan : DeploymentPlan)
    : Step → Type 0 where
  writes : Leaves host engine compose_path project_name plan (Step.write_files project_name plan)
  clears : Leaves host engine compose_path project_name plan (Step.clear_outputs project_name)
  asks :
      (args command : List String) (timeout : ℕ)
      → leaves_containers args ≡ true
      → local_runtime_command host.tools engine args ≡ ok command
      → Leaves host engine compose_path project_name plan (Step.run command timeout)
  starts :
      (command : List String) (timeout : ℕ)
      → is_resume_stopped plan.reuse_policy ≡ true
      → to_start (command_for_engine host.tools engine compose_path project_name Action.plan)
        ≡ ok command
      → Leaves host engine compose_path project_name plan (Step.run command timeout)

ok_ps-leaves :
    (rest args : List String)
    → Path (Result (List String)) (ok ("ps" ∷ rest)) (ok args)
    → leaves_containers args ≡ true
ok_ps-leaves rest args e = let p : leaves_containers ("ps" ∷ rest) ≡ true = refl in cc (e, p)

ps_args-leaves :
    (engine : String) (all : Bool) (args : List String)
    → ps_args engine all ≡ ok args
    → leaves_containers args ≡ true
unfolding ps_args
ps_args-leaves engine all args = elim (Bool-cases (engine == "containerd")) [
  | inl c ↦ rw c (ok_ps-leaves _ args)
  | inr c ↦ rw c (elim (Bool-cases (engine == "docker" || engine == "podman")) [
    | inl d ↦ rw d (ok_ps-leaves _ args)
    | inr d ↦ rw d (λ e. absurd (cc))
  ])
]

module _ (host : Host) (engine compose_path project_name : String) (plan : DeploymentPlan) where
  abbrev pub Left : Step → Type 0
  Left = Leaves host engine compose_path project_name plan

  run_engine-Takes :
      (args : List String)
      → leaves_containers args ≡ true
      → Takes Left (run_engine host engine args)
  unfolding run_engine
  run_engine-Takes args p =
      result-Takes Left (local_runtime_command host.tools engine args) _
        λ command e. run_process-Takes Left host command 30 (asks args command 30 p e)

  inspect-Takes :
      (container_id : String) → Takes Left (inspect_container_labels host engine container_id)
  unfolding inspect_container_labels
  inspect-Takes container_id =
      bind-Takes Left (run_engine host engine ("inspect" ∷ container_id ∷ [])) _
        (run_engine-Takes ("inspect" ∷ container_id ∷ []) refl)
        λ completed.
          if-Takes Left (is_zero completed.returncode) _ _ (λ e. lift-Takes Left _)
            (λ e. pure-Takes Left [])

  first_matching-Takes :
      (role : String) (hash : Option String) (ids : List String)
      → Takes Left (first_matching host engine role hash ids)
  unfolding first_matching
  first_matching-Takes role hash [] = pure-Takes Left none
  first_matching-Takes role hash (id ∷ rest) =
      bind-Takes Left (inspect_container_labels host engine id) _ (inspect-Takes id) λ labels.
        if-Takes Left (labels_match labels role hash) _ _ (λ e. pure-Takes Left (some id))
          (λ e. first_matching-Takes role hash rest)

  list_containers-Takes :
      (only_running : Bool) → Takes Left (list_containers host engine project_name only_running)
  unfolding list_containers
  list_containers-Takes only_running =
      result-Takes Left (ps_args engine (not only_running)) _ λ args e.
        bind-Takes Left (run_engine host engine args) _
          (run_engine-Takes args (ps_args-leaves engine (not only_running) args e))
          λ completed.
            if-Takes Left (is_zero completed.returncode) _ _
              (λ z.
                bind-Takes Left (lift (host.rows completed.stdout)) _ (lift-Takes Left _)
                  λ rows. pure-Takes Left (ids_of project_name rows))
              (λ z. pure-Takes Left [])

  pub find_container-Takes :
      (role : String) (hash : Option String)
      → Takes Left (find_container host engine project_name role hash)
  unfolding find_container
  find_container-Takes role hash =
      bind-Takes Left (list_containers host engine project_name true) _ (list_containers-Takes true)
        (first_matching-Takes role hash)

  pub find_project_container-Takes :
      (role : String) (hash : Option String)
      → Takes Left (find_project_container host engine project_name role hash)
  unfolding find_project_container
  find_project_container-Takes role hash =
      bind-Takes Left (list_containers host engine project_name false) _
        (list_containers-Takes false) (first_matching-Takes role hash)

  pub all_found-Takes :
      (find : String → Option String → Local (Option String))
      → ((role : String) (hash : Option String) → Takes Left (find role hash))
      → (resources : List ResourcePlan) → Takes Left (all_found host find plan resources)
  unfolding all_found
  all_found-Takes find e [] = pure-Takes Left true
  all_found-Takes find e (resource ∷ rest) =
      bind-Takes Left (lift (local_resource_desired_hash host.setting resource plan)) _
        (lift-Takes Left _)
        λ hash. bind-Takes Left (find (role_text resource.role) (some hash)) _ (e _ _) λ found.
          if-Takes Left (is_some found) _ _ (λ t. all_found-Takes find e rest)
            (λ t. pure-Takes Left false)
