-- ===== src/Local/Apply.antt =====
-- local_runtime.py: applying a plan to a container engine. The second part of a result tells whether the
-- agent's container was used again.
use comfyui_runpod_agentic_n.Base.{
  ℕ, String, ◌<>◌, Bool, true, false, not, Option, none, some, List, [], ◌∷◌, ◌++◌, if◌then◌else◌,
  pos, is_zero, is_empty, nonempty,
}
use comfyui_runpod_agentic_n.Base.Result.{Result, ok, err, require, stop_iteration}
use comfyui_runpod_agentic_n.Specs.{ReusePolicy}
use comfyui_runpod_agentic_n.Planner.Plan.{ResourcePlan, DeploymentPlan}
use comfyui_runpod_agentic_n.Runner.Launch.{find_agent}
use comfyui_runpod_agentic_n.Local.{
  Action, action_text, ApplyResult, command_for_engine, local_runtime_command,
}
use comfyui_runpod_agentic_n.Local.Text.{shlex_quote}
use comfyui_runpod_agentic_n.Local.Compose.{
  runtime_base, local_resource_desired_hash, local_retention_volume_names,
}
use comfyui_runpod_agentic_n.Local.Host.{Step, Host, Local, pure, lift, tell, guarded, ◌>>=◌}
use comfyui_runpod_agentic_n.Local.Containers.{
  list_containers, find_container, all_running, all_exist,
}

-- `"\n".join(part for part in (a, b) if part)`
abbrev pub join_parts : String → String → String
join_parts a b = if is_empty a then b else if is_empty b then a else (a <> ("\n" <> b))

-- `[*a, "&&", *b] if a and b else c or d`, where `c` and `d` are `a` and `b` in some order.
abbrev pub join_commands : List String → List String → List String
join_commands [] b = b
join_commands (x ∷ a) [] = x ∷ a
join_commands (x ∷ a) (y ∷ b) = (x ∷ a) ++ "&&" ∷ y ∷ b

-- One result after another: the code is that of the second.
abbrev pub after : ApplyResult → ApplyResult → ApplyResult
after a b = record {
  engine = b.engine;
  action = b.action;
  compose_path = b.compose_path;
  command = join_commands a.command b.command;
  returncode = b.returncode;
  stdout = join_parts a.stdout b.stdout;
  stderr = join_parts a.stderr b.stderr;
}

-- The same, under the name and the path of the first.
abbrev pub followed : ApplyResult → ApplyResult → ApplyResult
followed a b = record (after a b) {
  engine = a.engine;
  action = a.action;
  compose_path = a.compose_path;
}

-- All but the last element.
init : List String → List String
init [] = []
init (x ∷ []) = []
init (x ∷ y ∷ rest) = x ∷ init (y ∷ rest)

abbrev pub to_start : Result (List String) → Result (List String)
unfolding init
to_start (err e) = err e
to_start (ok command) = ok (init command ++ "start" ∷ [])

abbrev pub is_always_create : ReusePolicy → Bool
is_always_create ReusePolicy.always_create = true
is_always_create _ = false

abbrev pub is_resume_stopped : ReusePolicy → Bool
is_resume_stopped ReusePolicy.resume_stopped = true
is_resume_stopped _ = false

-- `next(resource for resource in plan.resources if resource.role == "agent")`
unfoldable pub agent_resource_of : DeploymentPlan → Result ResourcePlan
unfolding find_agent
agent_resource_of plan = require (find_agent plan.resources) stop_iteration ""

module _ (host : Host) (engine compose_path project_name : String) (plan : DeploymentPlan)
    (timeout : ℕ) where
  -- `apply_compose_file`; the enumeration leaves no unsupported action.
  unfoldable pub apply_compose_file : Action → Local ApplyResult
  unfolding guarded command_for_engine ◌>>=◌
  apply_compose_file action =
      let saved : String → ApplyResult = λ text. record {
        engine = engine;
        action = action_text action;
        compose_path = compose_path;
        command = [];
        returncode = pos 0;
        stdout = text;
        stderr = "";
      } in
      let run =
        guarded host engine (action_text action) compose_path compose_path
          (command_for_engine host.tools engine compose_path project_name action) timeout in
      elim action [
        | Action.save_only ↦ pure (saved "Compose file saved; no local runtime command was run.")
        | Action.plan ↦ lift (host.summary compose_path) >>= λ text. pure (saved text)
        | Action.apply ↦ run
        | Action.apply_and_wait ↦ run
        | Action.stop ↦ run
        | Action.terminate ↦ run
      ]

  -- `reconcile_stale_local_runtime_project`
  unfoldable pub reconcile_stale : Local (Option ApplyResult)
  unfolding ◌>>=◌ list_containers all_running apply_compose_file
  reconcile_stale = list_containers host engine project_name false >>= λ ids.
      if not (nonempty ids)
      then pure none
      else (all_running host engine project_name plan >>= λ running.
          if running
          then pure none
          else (apply_compose_file Action.terminate >>= λ result. pure (some result)))

  -- `remove_local_retention_volumes`
  unfoldable pub remove_retention_volumes : Local (Option ApplyResult)
  unfolding ◌>>=◌ guarded local_runtime_command local_retention_volume_names
  remove_retention_volumes =
      let names = local_retention_volume_names project_name plan.resources in
      if not (nonempty names)
      then pure none
      else (guarded host engine "volume_cleanup" "" ""
            (local_runtime_command host.tools engine ("volume" ∷ "rm" ∷ names)) timeout
          >>= λ result. pure (some result))

  -- `stop_local_runtime_project_containers`
  unfoldable pub stop_containers : Local (Option ApplyResult)
  unfolding ◌>>=◌ list_containers guarded local_runtime_command
  stop_containers = list_containers host engine project_name true >>= λ ids.
      if not (nonempty ids)
      then pure none
      else (guarded host engine "stop" "" ""
            (local_runtime_command host.tools engine ("stop" ∷ ids)) timeout
          >>= λ result. pure (some result))

  -- `start_local_runtime_project`
  unfoldable pub start_project : Local ApplyResult
  unfolding guarded command_for_engine to_start
  start_project =
      guarded host engine "resume_stopped" compose_path compose_path
        (to_start (command_for_engine host.tools engine compose_path project_name Action.plan))
        timeout

  -- `exec_agent_in_local_container`
  unfoldable pub exec_agent : String → Local ApplyResult
  unfolding ◌>>=◌ agent_resource_of guarded local_runtime_command runtime_base shlex_quote
  exec_agent container_id = lift (agent_resource_of plan) >>= λ agent.
      guarded host engine "reuse" project_name ""
        (local_runtime_command host.tools engine (
          "exec"
          ∷ container_id
          ∷ "bash"
          ∷ "-lc"
          ∷ ("bash "
              <> shlex_quote (runtime_base agent.pod_input.env <> "/local-runtime/run-agent.sh"))
          ∷ []))
        timeout

  -- `find_local_runtime_container(engine, project_name, "agent", desired_hash=...)`
  unfoldable pub find_agent_container : Local (Option String)
  unfolding ◌>>=◌ agent_resource_of local_resource_desired_hash find_container
  find_agent_container = lift (agent_resource_of plan) >>= λ agent.
      lift (local_resource_desired_hash host.setting agent plan) >>= λ hash.
      find_container host engine project_name "agent" (some hash)

  -- The first attempt: a container whose whole project runs. `next` comes before the test.
  unfoldable pub running_agent : Local (Option String)
  unfolding ◌>>=◌ agent_resource_of all_running find_agent_container
  running_agent = lift (agent_resource_of plan) >>= λ agent.
      all_running host engine project_name plan >>= λ running.
      if running then find_agent_container else pure none

  abbrev pub as_resumed : ApplyResult → ApplyResult → ApplyResult × Bool
  as_resumed started executed =
      (record (after started executed) { action = "resume_stopped" }, true)

  -- The agent's container after a start of the project.
  unfoldable pub resume_found : ApplyResult → Option String → Local (Option (ApplyResult × Bool))
  unfolding ◌>>=◌ exec_agent
  resume_found started none = pure none
  resume_found started (some container_id) = tell (Step.write_files project_name plan) >>= λ _.
      exec_agent container_id >>= λ executed. pure (some (as_resumed started executed))

  -- The second attempt: what is returned, or nothing where the code goes on.
  unfoldable pub resume_stopped : Local (Option (ApplyResult × Bool))
  unfolding ◌>>=◌ all_exist start_project find_agent_container resume_found
  resume_stopped =
      if not (is_resume_stopped plan.reuse_policy)
      then pure none
      else (all_exist host engine project_name plan >>= λ exist.
          if not exist
          then pure none
          else (start_project >>= λ started.
              if not (is_zero started.returncode)
              then pure (some (started, false))
              else (find_agent_container >>= λ found. resume_found started found)))

  unfoldable pub reuse_found : Option String → Local (Option (ApplyResult × Bool))
  unfolding ◌>>=◌ exec_agent resume_stopped
  reuse_found none = resume_stopped
  reuse_found (some container_id) = tell (Step.write_files project_name plan) >>= λ _.
      exec_agent container_id >>= λ executed. pure (some (executed, true))

  -- The branch of an apply whose policy allows reuse.
  unfoldable pub reuse : Local (Option (ApplyResult × Bool))
  unfolding ◌>>=◌ running_agent reuse_found
  reuse = running_agent >>= λ found. reuse_found found
