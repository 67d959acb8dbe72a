-- ===== src/Local/Containers.antt =====
-- local_runtime.py: the containers of a project.
pub mod Ends
use comfyui_runpod_agentic_n.Base.{
  String, ◌<>◌, Bool, true, false, not, ◌&&◌, Option, none, some, List, [], ◌∷◌, if◌then◌else◌,
  is_zero, is_empty, is_some, text_or, starts_with, ◌==◌,
}
use comfyui_runpod_agentic_n.Base.Dict.{Dict, get}
use comfyui_runpod_agentic_n.Planner.Plan.{ResourcePlan, DeploymentPlan}
use comfyui_runpod_agentic_n.Planner.Env.{role_text}
use comfyui_runpod_agentic_n.Local.{ps_args, local_runtime_command}
use comfyui_runpod_agentic_n.Local.Compose.{local_resource_desired_hash}
use comfyui_runpod_agentic_n.Local.Host.{
  Host, Row, Local, Completed, pure, lift, run_process, ◌>>=◌,
}

-- `str(item.get("Names") or item.get("Name") or item.get("NamesString") or "")`
unfoldable pub row_name : Row → String
unfolding get
row_name item =
    text_or (get item "Names") (text_or (get item "Name") (text_or (get item "NamesString") ""))

unfoldable pub row_id : Row → String
unfolding get
row_id item =
    text_or (get item "ID") (text_or (get item "Id") (text_or (get item "ContainerID") ""))

-- A container that has an id and a name of the project.
abbrev pub belongs : String → Row → Bool
belongs project_name item =
    not (is_empty (row_id item)) && starts_with (row_name item) (project_name <> "-")

unfoldable pub ids_of : String → List Row → List String
unfolding row_id row_name
ids_of project_name [] = []
ids_of project_name (item ∷ rest) =
    let others = ids_of project_name rest in
    if belongs project_name item then row_id item ∷ others else others

abbrev same_text : Option String → String → Bool
same_text none expected = false
same_text (some text) expected = text == expected

abbrev has_hash : Dict String → Option String → Bool
unfolding get
has_hash labels none = true
has_hash labels (some hash) = same_text (get labels "comfyui-runpod-agentic.desired_hash") hash

-- Labels that name the role and, if one is asked for, the hash.
unfoldable pub labels_match : Dict String → String → Option String → Bool
unfolding get has_hash
labels_match labels role desired_hash =
    same_text (get labels "comfyui-runpod-agentic.role") role && has_hash labels desired_hash

module _ (host : Host) where
  -- `subprocess.run(local_runtime_command(engine, args), timeout=30)`
  unfoldable pub run_engine : String → List String → Local Completed
  unfolding local_runtime_command
  run_engine engine args =
      lift (local_runtime_command host.tools engine args) >>= λ command. run_process host command 30

  -- `inspect_container_labels`
  unfoldable pub inspect_container_labels : String → String → Local (Dict String)
  unfolding ◌>>=◌ run_engine
  inspect_container_labels engine container_id =
      run_engine engine ("inspect" ∷ container_id ∷ []) >>= λ completed.
      if is_zero completed.returncode then lift (host.labels completed.stdout) else pure []

  -- The loops of `find_local_runtime_container` and of `find_local_runtime_project_container`.
  unfoldable pub first_matching :
      String → String → Option String → List String → Local (Option String)
  unfolding ◌>>=◌ inspect_container_labels labels_match
  first_matching engine role desired_hash [] = pure none
  first_matching engine role desired_hash (container_id ∷ rest) =
      let later = first_matching engine role desired_hash rest in
      inspect_container_labels engine container_id >>= λ labels.
      if labels_match labels role desired_hash then pure (some container_id) else later

  -- `list_local_runtime_project_containers`
  unfoldable pub list_containers : String → String → Bool → Local (List String)
  unfolding ◌>>=◌ ps_args ids_of run_engine
  list_containers engine project_name only_running =
      lift (ps_args engine (not only_running)) >>= λ args. run_engine engine args >>= λ completed.
      if is_zero completed.returncode
      then (lift (host.rows completed.stdout) >>= λ rows. pure (ids_of project_name rows))
      else pure []

  -- `find_local_runtime_container`
  unfoldable pub find_container : String → String → String → Option String → Local (Option String)
  unfolding ◌>>=◌ list_containers first_matching
  find_container engine project_name role desired_hash =
      list_containers engine project_name true >>= λ ids.
      first_matching engine role desired_hash ids

  -- `find_local_runtime_project_container`
  unfoldable pub find_project_container :
      String → String → String → Option String → Local (Option String)
  unfolding ◌>>=◌ list_containers first_matching
  find_project_container engine project_name role desired_hash =
      list_containers engine project_name false >>= λ ids.
      first_matching engine role desired_hash ids

  -- `all(find(...) for resource in plan.resources)`; an id that is found is not empty.
  unfoldable pub all_found :
      (String → Option String → Local (Option String))
      → DeploymentPlan
      → List ResourcePlan
      → Local Bool
  unfolding ◌>>=◌ local_resource_desired_hash
  all_found find plan [] = pure true
  all_found find plan (resource ∷ rest) =
      let others = all_found find plan rest in
      lift (local_resource_desired_hash host.setting resource plan) >>= λ hash.
      find (role_text resource.role) (some hash) >>= λ found.
      if is_some found then others else pure false

  -- `all_local_runtime_resources_running`
  unfoldable pub all_running : String → String → DeploymentPlan → Local Bool
  unfolding all_found find_container
  all_running engine project_name plan =
      all_found (find_container engine project_name) plan plan.resources

  -- `all_local_runtime_resources_exist`
  unfoldable pub all_exist : String → String → DeploymentPlan → Local Bool
  unfolding all_found find_project_container
  all_exist engine project_name plan =
      all_found (find_project_container engine project_name) plan plan.resources
