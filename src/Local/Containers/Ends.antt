-- ===== src/Local/Containers/Ends.antt =====
-- local_runtime.py: the search for a container comes to an outcome.
use comfyui_runpod_agentic_n.Base.{
  String, Bool, true, false, not, Option, none, some, List, [], ◌∷◌, is_zero, is_some,
}
use comfyui_runpod_agentic_n.Planner.Plan.{ResourcePlan, DeploymentPlan}
use comfyui_runpod_agentic_n.Planner.Env.{role_text}
use comfyui_runpod_agentic_n.Local.{ps_args, local_runtime_command}
use comfyui_runpod_agentic_n.Local.Compose.{local_resource_desired_hash}
use comfyui_runpod_agentic_n.Local.Host.{Host, Local, lift}
use comfyui_runpod_agentic_n.Local.Containers.{
  run_engine, inspect_container_labels, first_matching, list_containers, find_container,
  find_project_container, all_found, all_running, all_exist, labels_match,
}
use comfyui_runpod_agentic_n.Local.Timed.{
  HasClock, Ends, pure-Ends, lift-Ends, if-Ends, run_process-Ends, bind-Ends,
}

module _ (host : Host) (clock : HasClock host) where
  pub run_engine-Ends :
      (engine : String) (args : List String) → Ends host (run_engine host engine args)
  unfolding run_engine
  run_engine-Ends engine args =
      bind-Ends host (lift (local_runtime_command host.tools engine args)) _ (lift-Ends host _)
        (λ command. run_process-Ends host clock command 30)

  inspect_container_labels-Ends :
      (engine container_id : String) → Ends host (inspect_container_labels host engine container_id)
  unfolding inspect_container_labels
  inspect_container_labels-Ends engine container_id =
      bind-Ends host (run_engine host engine ("inspect" ∷ container_id ∷ [])) _
        (run_engine-Ends engine _)
        (λ c. if-Ends host (is_zero c.returncode) _ _ (lift-Ends host _) (pure-Ends host []))

  first_matching-Ends :
      (engine role : String) (desired_hash : Option String) (ids : List String)
      → Ends host (first_matching host engine role desired_hash ids)
  unfolding first_matching
  first_matching-Ends engine role desired_hash [] = pure-Ends host none
  first_matching-Ends engine role desired_hash (id ∷ rest) =
      bind-Ends host (inspect_container_labels host engine id) _
        (inspect_container_labels-Ends engine id)
        (λ labels.
          if-Ends host (labels_match labels role desired_hash) _ _ (pure-Ends host (some id))
            (first_matching-Ends engine role desired_hash rest))

  pub list_containers-Ends :
      (engine project_name : String) (only_running : Bool)
      → Ends host (list_containers host engine project_name only_running)
  unfolding list_containers
  list_containers-Ends engine project_name only_running =
      bind-Ends host (lift (ps_args engine (not only_running))) _ (lift-Ends host _) λ args.
        bind-Ends host (run_engine host engine args) _ (run_engine-Ends engine args) λ completed.
          if-Ends host (is_zero completed.returncode) _ _
            (bind-Ends host (lift (host.rows completed.stdout)) _ (lift-Ends host _)
              (λ rows. pure-Ends host _))
            (pure-Ends host [])

  pub find_container-Ends :
      (engine project_name role : String) (hash : Option String)
      → Ends host (find_container host engine project_name role hash)
  unfolding find_container
  find_container-Ends engine project_name role hash =
      bind-Ends host (list_containers host engine project_name true) _
        (list_containers-Ends engine project_name true) (first_matching-Ends engine role hash)

  pub find_project_container-Ends :
      (engine project_name role : String) (hash : Option String)
      → Ends host (find_project_container host engine project_name role hash)
  unfolding find_project_container
  find_project_container-Ends engine project_name role hash =
      bind-Ends host (list_containers host engine project_name false) _
        (list_containers-Ends engine project_name false) (first_matching-Ends engine role hash)

  all_found-Ends :
      (find : String → Option String → Local (Option String))
      → ((role : String) (hash : Option String) → Ends host (find role hash))
      → (plan : DeploymentPlan) (resources : List ResourcePlan)
      → Ends host (all_found host find plan resources)
  unfolding all_found
  all_found-Ends find e plan [] = pure-Ends host true
  all_found-Ends find e plan (r ∷ rest) =
      bind-Ends host (lift (local_resource_desired_hash host.setting r plan)) _ (lift-Ends host _)
        λ hash. bind-Ends host (find (role_text r.role) (some hash)) _ (e _ _) λ found.
          if-Ends host (is_some found) _ _ (all_found-Ends find e plan rest) (pure-Ends host false)

  pub all_running-Ends :
      (engine project_name : String) (plan : DeploymentPlan)
      → Ends host (all_running host engine project_name plan)
  unfolding all_running
  all_running-Ends engine project_name plan =
      all_found-Ends (find_container host engine project_name)
        (find_container-Ends engine project_name) plan plan.resources

  pub all_exist-Ends :
      (engine project_name : String) (plan : DeploymentPlan)
      → Ends host (all_exist host engine project_name plan)
  unfolding all_exist
  all_exist-Ends engine project_name plan =
      all_found-Ends (find_project_container host engine project_name)
        (find_project_container-Ends engine project_name) plan plan.resources
