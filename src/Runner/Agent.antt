-- ===== src/Runner/Agent.antt =====
-- runner.py: what is done in the agent's pod once its shell answers.
use Prim.Native.Char.{code}
use comfyui_runpod_agentic_n.Base.{
  ℕ, String, ◌<>◌, Bool, true, false, ◌&&◌, ◌||◌, not, Option, none, some, List, [], ◌∷◌, ◌++◌,
  if◌then◌else◌, ◌=ℕ=◌, value_or, is_zero, truthy, is_empty, select,
}
use comfyui_runpod_agentic_n.Base.Dict.{Dict, get}
use comfyui_runpod_agentic_n.Base.Result.{ErrorKind, Result, ok, err, require}
use comfyui_runpod_agentic_n.Base.Text.{rstrip_slash, strip}
use comfyui_runpod_agentic_n.Specs.{CommandPhase}
use comfyui_runpod_agentic_n.Specs.Deployment.{KeepAlivePolicy}
use comfyui_runpod_agentic_n.Planner.Plan.{
  CommandDetail, Detail, PlanAction, ActionKind, Role, ResourcePlan, DeploymentPlan,
}
use comfyui_runpod_agentic_n.Store.Rows.{Payload}
use comfyui_runpod_agentic_n.Store.Table.{order_by, leb_text}
use comfyui_runpod_agentic_n.Remote.Outside.{Call, Outside}
use comfyui_runpod_agentic_n.Remote.Exec.{
  Exec, pure, raise, fail, lift, tell, ask, event, progress_step, done, ◌>>=◌, ◌>>◌,
}
use comfyui_runpod_agentic_n.Runner.Shell.{shell_env, integer_text}
use comfyui_runpod_agentic_n.Runner.Launch.{is_agent, find_agent, launch_command}
use comfyui_runpod_agentic_n.Runner.Commands.{run_ssh_command_action}
use comfyui_runpod_agentic_n.Runner.Waits.{wait_response}

-- The texts that the runner writes or runs and that are JSON or whole scripts: of the resources, of the
-- commands, of a policy's timer, of the launcher's files, of the files for an environment's subagents
-- and provider, and the launcher that the server's environment names.
pub record Texts : Type 0 where
  pub resources_json : List ResourcePlan → String
  pub commands_json : List CommandDetail → String
  pub timer_script : KeepAlivePolicy → String
  pub launcher_files : Dict String
  pub subagent_files : Dict String → Dict String
  pub pi_files : Dict String → Dict String
  pub configured_launcher : Option String

abbrev pub stop_iteration : {A : Type 0} → Option A → Result A
stop_iteration o = require o ErrorKind.stop_iteration ""

abbrev pub agent_env : DeploymentPlan → Result (Dict String)
agent_env plan = elim (find_agent plan.resources) [
  | none ↦ err (record { kind = ErrorKind.stop_iteration; message = "" })
  | some resource ↦ ok resource.pod_input.env
]

abbrev pub base_of : Dict String → String
base_of env = rstrip_slash (value_or (get env "WORKSPACE_DIR") "/workspace") <> "/.runpod_agentic"

-- The details of the actions that run a command.
unfoldable pub command_details : List PlanAction → List CommandDetail
command_details [] = []
command_details (action ∷ rest) =
    let later = command_details rest in
    elim action.detail [ Detail.command c ↦ c ∷ later | _ ↦ later ]

abbrev export_lines : Dict String → String
export_lines [] = ""
export_lines ((key, value) ∷ rest) =
    let later = export_lines rest in
    "export "
    <> (key <> ("=" <> (shell_env value <> (if is_empty later then "" else "\n" <> later))))

-- `session.env`: an export for each variable, by name.
unfoldable pub session_env : Dict String → String
unfolding order_by shell_env
session_env values = export_lines (order_by (λ a b. leb_text a.0 b.0) values) <> "\n"

abbrev is_dependency : ResourcePlan → Bool
is_dependency resource = not (is_agent resource.role)

-- `relative_path.strip("/")`
strip_left_slash : String → String
strip_left_slash String.[] = String.[]
strip_left_slash (String.◌∷◌ c s) =
    let rest = strip_left_slash s in if code c =ℕ= b'/' then rest else String.◌∷◌ c s

abbrev optional_file : Dict String → String → String → Dict String
optional_file values key name =
    if truthy (get values key) then (name, value_or (get values key) "") ∷ [] else []

abbrev below : String → Dict String → Dict String
below base [] = []
below base ((path, content) ∷ rest) = (base <> ("/" <> path), content) ∷ below base rest

abbrev at_root : Dict String → Dict String
at_root [] = []
at_root ((path, content) ∷ rest) =
    ("/" <> rstrip_slash (strip_left_slash path), content) ∷ at_root rest

-- The files that `_write_runtime_files` writes, in order.
unfoldable pub runtime_files : Texts → DeploymentPlan → String → Dict String
unfolding select command_details session_env get strip_left_slash rstrip_slash
runtime_files texts plan base =
    let values = plan.runtime_contract.env.values in
    below base (
      ("resources.json", texts.resources_json (select is_dependency plan.resources))
      ∷ ("session.env", session_env values)
      ∷ ("commands.json", texts.commands_json (command_details plan.actions))
      ∷ (optional_file values "AGENT_SYSTEM_PROMPT" "system_prompt.txt"
          ++ (optional_file values "AGENT_PROMPT" "prompt.txt"
              ++ (optional_file values "MCP_SERVERS_JSON" "mcp_servers.json"
                  ++ optional_file values "CRAG_SUBAGENTS_JSON" "subagents.json"))))
    ++ (at_root plan.runtime_contract.files
        ++ below base
            (texts.subagent_files values ++ (texts.pi_files values ++ texts.launcher_files)))

abbrev pub is_teardown : CommandPhase → Bool
is_teardown CommandPhase.teardown = true
is_teardown _ = false

-- What has been collected: the response, the errors, and whether the agent was launched.
abbrev pub Collected : Type 0
Collected = String × String × Bool

abbrev pub is_agent_action : Option Role → Bool
is_agent_action none = false
is_agent_action (some role) = is_agent role

module _ (o : Outside) (texts : Texts) where
  unfoldable pub write_files : String → ℕ → Dict String → Exec (Unit {0})
  write_files host port [] = done
  write_files host port ((path, content) ∷ rest) =
      ask (Call.write_file host port path content) o.written >> write_files host port rest

  unfoldable pub write_runtime_files : DeploymentPlan → String → ℕ → Exec (Unit {0})
  unfolding write_files runtime_files find_agent event
  write_runtime_files plan host port = lift (agent_env plan) >>= λ env.
      write_files host port (runtime_files texts plan (base_of env)) >>= λ _.
      event o plan.run_id "runtime_config_written" (base_of env) none Payload.without

  unfoldable pub launch_agent : DeploymentPlan → String → ℕ → Exec Collected
  unfolding find_agent launch_command event integer_text
  launch_agent plan host port = lift (agent_env plan) >>= λ env.
      (let launch =
          launch_command texts.timer_script texts.configured_launcher plan.keep_alive env in
        if is_empty launch
        then (event o plan.run_id "agent_launch_skipped" "manual startup mode" none Payload.without
            >> pure ("", "", false))
        else (progress_step o "launch agent" >>= λ _.
            ask (Call.ssh_run host port launch) o.command >>= λ result.
            event o plan.run_id "agent_launch" launch none (Payload.exit_code result.exit_code)
            >>= λ _.
                (if is_zero result.exit_code
                  then pure (result.stdout, result.stderr, true)
                  else fail (
                      "Agent launch failed with exit code "
                      <> (integer_text result.exit_code <> ".")))))

  abbrev pub run_detail : DeploymentPlan → String → ℕ → Option String → Detail → Exec Collected
  run_detail plan host port resource_id (Detail.command c) =
      if is_teardown c.phase
      then pure ("", "", false)
      else (run_ssh_command_action o plan.run_id host port resource_id c >>= λ result.
          pure ("", result.stderr, false))
  run_detail plan host port resource_id _ =
      raise (record { kind = ErrorKind.key_error; message = "'command'" })

  unfoldable pub run_kind :
      ActionKind → DeploymentPlan → String → ℕ → Option String → Detail → Exec Collected
  unfolding launch_agent write_runtime_files run_ssh_command_action
  run_kind ActionKind.run_ssh_command plan host port resource_id work =
      run_detail plan host port resource_id work
  run_kind ActionKind.write_runtime_config plan host port resource_id work =
      progress_step o "write runtime" >>= λ _.
      write_runtime_files plan host port >>= λ _. pure ("", "", false)
  run_kind ActionKind.launch_agent plan host port resource_id work = launch_agent plan host port
  run_kind _ plan host port resource_id work = pure ("", "", false)

  -- One action of the agent's; the other roles' actions are passed over.
  unfoldable pub run_step :
      DeploymentPlan → String → ℕ → Option String → PlanAction → Exec Collected
  unfolding run_kind
  run_step plan host port resource_id action =
      if is_agent_action action.role
      then run_kind action.action plan host port resource_id action.detail
      else pure ("", "", false)

  unfoldable pub run_steps :
      DeploymentPlan → String → ℕ → Option String → List PlanAction → Exec Collected
  unfolding run_step
  run_steps plan host port resource_id [] = pure ("", "", false)
  run_steps plan host port resource_id (action ∷ rest) =
      run_step plan host port resource_id action >>= λ now.
      run_steps plan host port resource_id rest >>= λ later.
      pure (now.0 <> later.0, now.1 <> later.1, now.2 || later.2)

  unfoldable pub wait_agent_response : DeploymentPlan → String → ℕ → Exec (String × String)
  unfolding wait_response find_agent get rstrip_slash
  wait_agent_response plan host port = lift (agent_env plan) >>= λ env.
      (let values = plan.runtime_contract.env.values in
        wait_response o plan.run_id host port
          (value_or (get values "AGENT_RESPONSE_FILE") (base_of env <> "/response.txt"))
          (value_or (get values "AGENT_ERRORS_FILE") (base_of env <> "/errors.txt"))
          (base_of env <> "/agent.log"))

  unfoldable pub run_agent_ssh_steps :
      DeploymentPlan → String → ℕ → Option String → Bool → Exec (String × String)
  unfolding run_steps wait_agent_response
  run_agent_ssh_steps plan host port resource_id wait =
      run_steps plan host port resource_id plan.actions >>= λ collected.
      if wait && collected.2
      then (progress_step o "wait response" >>= λ _. wait_agent_response plan host port >>= λ last.
          pure (collected.0 <> last.0, collected.1 <> last.1))
      else pure (collected.0, collected.1)

-- `Path(path).name`
abbrev name_from : String → String → String
name_from acc String.[] = acc
name_from acc (String.◌∷◌ c s) =
    name_from (if code c =ℕ= b'/' then "" else (acc <> String.◌∷◌ c String.[])) s

module _ (o : Outside) where
  -- The local file gets the bytes that the remote file's base64 text stands for.
  unfoldable pub copy_remote_image_file : String → String → ℕ → String → Exec String
  unfolding shell_env strip rstrip_slash event
  copy_remote_image_file run_id host port path =
      ask
        (Call.ssh_run host port
          ("test -s " <> (shell_env path <> (" && base64 -w 0 " <> shell_env path))))
        o.command
      >>= λ result.
          if not (is_zero result.exit_code) || is_empty (strip result.stdout)
          then pure ""
          else (let target =
                "artifacts/runpod/"
                <> (run_id <> ("/files/" <> name_from "" (rstrip_slash path))) in
              tell (Call.save_base64 target (strip result.stdout)) >>= λ _.
              event o run_id "agent_image_collected" path none (Payload.local_path target) >>= λ _.
              pure target)
