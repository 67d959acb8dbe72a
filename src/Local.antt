-- ===== src/Local.antt =====
-- local_runtime.py: the command lines of the three container engines. `shutil.which` and the environment
-- are parameters.
pub mod Text
pub mod Compose
pub mod Service
pub mod Host
pub mod Containers
pub mod Apply
pub mod Waits
pub mod Timer
pub mod Ensures
pub mod Timed
pub mod Run
pub mod Reuse
pub mod Total
pub mod Since
pub mod Leaves
use comfyui_runpod_agentic_n.Base.{
  ℕ, String, ◌<>◌, Bool, true, false, not, ◌&&◌, ◌||◌, Option, none, some, List, [], ◌∷◌, ◌++◌,
  if◌then◌else◌, ℤ, pos, contains, ◌==◌,
}
use comfyui_runpod_agentic_n.Base.Text.{strip}
use comfyui_runpod_agentic_n.Base.Characters.{lower_text}
use comfyui_runpod_agentic_n.Base.Result.{Result, ok, err, runtime_error, ◌>>=◌}

-- `LOCAL_RUNTIME_ACTIONS`
pub data Action : Type 0 where
  save_only plan apply apply_and_wait stop terminate : Action

abbrev pub action_text : Action → String
action_text save_only = "save_only"
action_text plan = "plan"
action_text apply = "apply"
action_text apply_and_wait = "apply_and_wait"
action_text stop = "stop"
action_text terminate = "terminate"

-- `action in {"apply", "apply_and_wait"}`
abbrev pub is_apply : Action → Bool
is_apply apply = true
is_apply apply_and_wait = true
is_apply _ = false

abbrev pub is_stop : Action → Bool
is_stop stop = true
is_stop _ = false

abbrev pub is_terminate : Action → Bool
is_terminate terminate = true
is_terminate _ = false

-- Which programs are on the path, and the value of `CRAG_LOCAL_RUNTIME_SUDO`.
pub record Tools : Type 0 where
  pub has_podman : Bool
  pub has_nerdctl : Bool
  pub sudo : String

-- `raise RuntimeError(message)`
abbrev pub runtime : {A : Type 0} → String → Result A
runtime message = err (record { kind = runtime_error; message = message })

-- `use_sudo_for_local_runtime`
unfoldable pub use_sudo : Tools → Bool
unfolding strip lower_text
use_sudo tools = contains (lower_text (strip tools.sudo)) ("1" ∷ "true" ∷ "yes" ∷ "on" ∷ [])

-- `local_runtime_base_command`
unfoldable pub base_command : Tools → List String → List String
unfolding use_sudo
base_command tools command = (if use_sudo tools then "sudo" ∷ [] else []) ++ command

-- `compose_command_for`
unfoldable pub compose_command_for : List String → String → String → Action → List String
compose_command_for base compose_path project_name action =
    let command = base ++ "-f" ∷ compose_path ∷ "-p" ∷ project_name ∷ [] in
    elim action [
      | Action.apply ↦ command ++ "up" ∷ "-d" ∷ []
      | Action.apply_and_wait ↦ command ++ "up" ∷ "-d" ∷ []
      | Action.stop ↦ command ++ "stop" ∷ []
      | Action.terminate ↦ command ++ "down" ∷ "--remove-orphans" ∷ []
      | Action.plan ↦ command ++ "plan" ∷ []
      | Action.save_only ↦ command ++ "save_only" ∷ []
    ]

-- `command_for_engine`
unfoldable pub command_for_engine : Tools → String → String → String → Action → Result (List String)
unfolding base_command compose_command_for
command_for_engine tools engine compose_path project_name action =
    let command : String → Result (List String) = λ program. ok (
      compose_command_for (base_command tools (program ∷ "compose" ∷ [])) compose_path project_name
        action) in
    if engine == "docker"
    then command "docker"
    else if engine == "podman"
    then if tools.has_podman
      then command "podman"
      else runtime "Podman local runtime requires `podman compose` on PATH."
    else if engine == "containerd"
    then if not tools.has_nerdctl
      then runtime
          "Containerd local runtime requires `nerdctl` on PATH; raw ctr does not support compose semantics."
      else command "nerdctl"
    else runtime ("Unsupported local runtime engine: " <> engine)

-- `local_runtime_command`
unfoldable pub local_runtime_command : Tools → String → List String → Result (List String)
unfolding base_command
local_runtime_command tools engine args =
    if engine == "docker"
    then ok (base_command tools ("docker" ∷ args))
    else if engine == "podman"
    then if not tools.has_podman
      then runtime "Podman local runtime requires `podman` on PATH."
      else ok (base_command tools ("podman" ∷ args))
    else if engine == "containerd"
    then if not tools.has_nerdctl
      then runtime "Containerd local runtime requires `nerdctl` on PATH."
      else ok (base_command tools ("nerdctl" ∷ args))
    else runtime ("Unsupported local runtime engine: " <> engine)

-- `ps_args_for_engine`
unfoldable pub ps_args : String → Bool → Result (List String)
ps_args engine all_containers =
    let all = if all_containers then "-a" ∷ [] else [] in
    if engine == "containerd"
    then ok ("ps" ∷ (all ++ "--format" ∷ "json" ∷ []))
    else if engine == "docker" || engine == "podman"
    then ok ("ps" ∷ (all ++ "--format" ∷ "{{json .}}" ∷ []))
    else runtime ("Unsupported local runtime engine: " <> engine)

-- `LocalApplyResult`; the action is a text, since a result also names other steps.
pub record ApplyResult : Type 0 where
  pub engine : String
  pub action : String
  pub compose_path : String
  pub command : List String
  pub returncode : ℤ
  pub stdout : String
  pub stderr : String

-- `LocalRuntimeReadResult`
pub record ReadResult : Type 0 where
  pub engine : String
  pub project_name : String
  pub role : String
  pub path : String
  pub container_id : String
  pub command : List String
  pub returncode : ℤ
  pub stdout : String
  pub stderr : String
