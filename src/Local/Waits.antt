-- ===== src/Local/Waits.antt =====
-- local_runtime.py: the loops that wait for a container. They run until the clock has reached a deadline;
-- the model's loops run on fuel.
pub mod Ends
pub mod Response
use comfyui_runpod_agentic_n.Base.{
  ℕ, zero, suc, ◌+◌, String, ◌<>◌, Bool, true, false, not, ◌&&◌, ◌||◌, Option, none, some, List, [],
  ◌∷◌, if◌then◌else◌, ℤ, pos, is_zero, is_empty, is_some, nonzero, ltb, leb, value_or, any, ◌==◌,
}
use comfyui_runpod_agentic_n.Base.Dict.{get}
use comfyui_runpod_agentic_n.Base.Text.{codes, is_infix}
use comfyui_runpod_agentic_n.Base.Result.{Result, ok, err, Error, ErrorKind}
use comfyui_runpod_agentic_n.Planner.Plan.{ResourcePlan, DeploymentPlan, Role}
use comfyui_runpod_agentic_n.Planner.PodInput.{is_server_side, is_time}
use comfyui_runpod_agentic_n.Remote.Exec.{Outcome, returned, raised, unfinished}
use comfyui_runpod_agentic_n.Runner.Launch.{find_agent}
use comfyui_runpod_agentic_n.Local.{ReadResult, local_runtime_command}
use comfyui_runpod_agentic_n.Local.Text.{shlex_quote, safe_project}
use comfyui_runpod_agentic_n.Local.Compose.{local_resource_desired_hash}
use comfyui_runpod_agentic_n.Local.Apply.{agent_resource_of}
use comfyui_runpod_agentic_n.Local.Host.{
  Step, Host, Local, Completed, pure, lift, tell, look, out_of_fuel, on_option, on_result,
  run_process, ◌>>=◌, ◌>>◌,
}
use comfyui_runpod_agentic_n.Local.Containers.{find_container, find_project_container}

abbrev pub markers : List String
markers =
    "[crag-local-runtime] startup commands complete"
    ∷ "[crag-local-runtime] startup mode is manual; launcher not started."
    ∷ "No compatible agent launcher was found" ∷ []

-- `local_runtime_logs_are_complete`
unfoldable pub logs_are_complete : String → Bool
unfolding any is_infix
logs_are_complete logs = any (λ marker. is_infix (codes marker) (codes logs)) markers

-- `path.endswith(suffix)`
unfoldable pub ends_with : String → String → Bool
ends_with String.[] suffix = is_empty suffix
ends_with (String.◌∷◌ c s) suffix = String.◌∷◌ c s == suffix || ends_with s suffix

-- `local_runtime_path_requires_ready_response`
unfoldable pub requires_ready_response : String → Bool
unfolding ends_with
requires_ready_response path = ends_with path "/.runpod_agentic/response.txt"

-- `local_runtime_response_is_ready`
unfoldable pub response_is_ready : String → String → Bool
unfolding requires_ready_response is_infix
response_is_ready path text =
    if requires_ready_response path
    then is_infix (codes "[crag-agent] complete") (codes text)
    else true

-- `plan_has_web_terminal`
unfoldable pub plan_has_web_terminal : DeploymentPlan → Bool
unfolding find_agent get
plan_has_web_terminal plan = elim (find_agent plan.resources) [
  | none ↦ false
  | some agent ↦ value_or (get agent.pod_input.env "CRAG_WEB_TERMINAL") "" == "1"
]

-- `should_wait_local_startup`
unfoldable pub should_wait_local_startup : DeploymentPlan → Bool
unfolding plan_has_web_terminal
should_wait_local_startup plan = plan_has_web_terminal plan || elim plan.keep_alive [
  | none ↦ false
  | some policy ↦
      is_time policy.mode && (nonzero policy.time_seconds && is_server_side policy.enforcement)
]

module _ (host : Host) (engine project_name role : String) where
  -- A result of the loops.
  abbrev pub read_with : String → String → List String → ℤ → String → String → ReadResult
  read_with path container_id command code stdout stderr = record {
    engine = engine;
    project_name = project_name;
    role = role;
    path = path;
    container_id = container_id;
    command = command;
    returncode = code;
    stdout = stdout;
    stderr = stderr;
  }

  -- `read_local_runtime_logs`
  unfoldable pub read_logs : String → Local ReadResult
  unfolding ◌>>=◌ local_runtime_command
  read_logs container_id =
      on_result (local_runtime_command host.tools engine ("logs" ∷ container_id ∷ []))
        (λ e. pure (read_with "<logs>" container_id [] (pos 127) "" e.message))
        (λ command. run_process host command 30 >>= λ completed. pure (
          read_with "<logs>" container_id command completed.returncode completed.stdout
            completed.stderr))

  -- `except RuntimeError` around the search for a container; other exceptions pass.
  abbrev pub is_runtime : ErrorKind → Bool
  is_runtime ErrorKind.runtime_error = true
  is_runtime _ = false

  abbrev searched :
      Outcome (Option String) × List Step → Outcome (Result (Option String)) × List Step
  searched (returned found, h) = (returned (ok found), h)
  searched (raised e, h) = if is_runtime e.kind then (returned (err e), h) else (raised e, h)
  searched (unfinished, h) = (unfinished, h)

  unfoldable pub search : Local (Option String) → Local (Result (Option String))
  search m h = searched (m h)

  abbrev no_container : String
  no_container =
      "No running " <> (role <> (" container found for project " <> (project_name <> ".")))

  -- The state of a loop: the last container, the last command, and the last error.
  pub record Seen : Type 0 where
    pub container_id : String
    pub command : List String
    pub last_stderr : String

  -- What one round does: it returns, or it sleeps for a second and goes on with what it has seen.
  pub data Round : Type 0 where
    stops : ReadResult → Round
    goes_on : Seen → Round

  unfoldable pub on_round : Round → (Seen → Local ReadResult) → Local ReadResult
  unfolding ◌>>=◌
  on_round (stops result) later = pure result
  on_round (goes_on seen) later = tell (Step.sleep 1) >>= λ _. later seen

  -- `while time.time() < deadline: ...; time.sleep(1)`
  unfoldable pub rounds :
      (Seen → Local Round) → (Seen → ReadResult) → ℕ → ℕ → Seen → Local ReadResult
  unfolding ◌>>=◌ on_round
  rounds round last zero deadline seen = out_of_fuel
  rounds round last (suc fuel) deadline seen =
      let later = rounds round last fuel deadline in
      look Step.read_clock host.clock >>= λ now.
      if ltb now deadline
      then (round seen >>= λ outcome. on_round outcome later)
      else pure (last seen)

  abbrev pub seen_nothing : Seen
  seen_nothing = record { container_id = ""; command = []; last_stderr = "" }

  -- The deadline is taken from the clock, and the fuel is one more than the seconds.
  unfoldable pub wait_until_deadline :
      (Seen → Local Round) → (Seen → ReadResult) → ℕ → Local ReadResult
  unfolding ◌>>=◌ rounds
  wait_until_deadline round last timeout = look Step.read_clock host.clock >>= λ start.
      rounds round last (suc timeout) (start + timeout) seen_nothing

  -- A round of `wait_local_runtime_startup_complete`.
  unfoldable pub startup_round : String → Seen → Local Round
  unfolding ◌>>=◌ find_container read_logs logs_are_complete
  startup_round desired_hash seen =
      find_container host engine project_name role (some desired_hash) >>= λ found.
      let container_id = value_or found "" in
      if is_empty container_id
      then pure (Round.goes_on (record seen { container_id = ""; last_stderr = no_container }))
      else (read_logs container_id >>= λ logs.
          if is_zero logs.returncode && logs_are_complete logs.stdout
          then pure (Round.stops logs)
          else pure (
              Round.goes_on (record {
                container_id = container_id;
                command = logs.command;
                last_stderr = logs.stderr;
              })))

  abbrev pub startup_timed_out : Seen → ReadResult
  startup_timed_out seen = read_with "<logs>" seen.container_id seen.command (pos 1) "" (
      if is_empty seen.last_stderr
      then "Timed out waiting for local runtime startup commands to complete."
      else seen.last_stderr)

  abbrev first_of : String → String → String → String
  first_of a b c = if not (is_empty a) then a else if not (is_empty b) then b else c

  -- No container runs: the logs of one that has stopped are the error.
  unfoldable pub stopped_round : String → Seen → Local Round
  unfolding ◌>>=◌ find_project_container read_logs
  stopped_round path seen = find_project_container host engine project_name role none >>= λ stopped.
      on_option stopped
        (pure (Round.goes_on (record seen { container_id = ""; last_stderr = no_container })))
        (λ stopped_id. read_logs stopped_id >>= λ logs. pure (
          Round.stops (
            read_with path stopped_id logs.command (pos 1) "" (
              first_of logs.stdout logs.stderr
                (role <> (" container exited before " <> (path <> " was ready.")))))))

  -- What follows from the text of the file and from the logs of the container.
  unfoldable pub read_outcome : String → String → List String → Completed → ReadResult → Round
  unfolding response_is_ready logs_are_complete requires_ready_response
  read_outcome path container_id command completed logs =
      if is_zero logs.returncode && logs_are_complete logs.stdout
      then if requires_ready_response path
        then Round.goes_on (record {
          container_id = container_id;
          command = command;
          last_stderr =
              first_of logs.stdout logs.stderr
                (path <> (" was not ready after the " <> (role <> " container completed.")));
        })
        else Round.stops
            (read_with path container_id logs.command logs.returncode logs.stdout logs.stderr)
      else Round.goes_on (record {
        container_id = container_id;
        command = command;
        last_stderr = completed.stderr;
      })

  unfoldable pub running_round : String → ℕ → Seen → String → Local Round
  unfolding ◌>>=◌ local_runtime_command read_logs response_is_ready read_outcome
  running_round path timeout seen container_id =
      on_result
        (local_runtime_command host.tools engine ("exec" ∷ container_id ∷ "cat" ∷ path ∷ []))
        (λ e. pure (Round.stops (read_with path container_id seen.command (pos 127) "" e.message)))
        (λ command. run_process host command timeout >>= λ completed.
          if is_zero completed.returncode && response_is_ready path completed.stdout
          then pure (
              Round.stops (
                read_with path container_id command completed.returncode completed.stdout
                  completed.stderr))
          else (read_logs container_id >>= λ logs.
              pure (read_outcome path container_id command completed logs)))

  -- A round of `read_local_runtime_file`, where `timeout` is `min(10, int(timeout_seconds))`.
  unfoldable pub read_round : String → ℕ → Seen → Local Round
  unfolding ◌>>=◌ search find_container stopped_round running_round
  read_round path timeout seen =
      search (find_container host engine project_name role none) >>= λ searched.
      on_result searched
        (λ e. pure (Round.stops (read_with path "" seen.command (pos 127) "" e.message)))
        (λ found.
          let container_id = value_or found "" in
          if is_empty container_id
          then stopped_round path seen
          else running_round path timeout seen container_id)

  abbrev pub read_timed_out : String → Seen → ReadResult
  read_timed_out path seen =
      read_with path seen.container_id seen.command (pos 1) "" seen.last_stderr

  abbrev at_most : ℕ → ℕ → ℕ
  at_most a b = if leb a b then a else b

  -- `read_local_runtime_file`
  unfoldable pub read_local_runtime_file : String → ℕ → Local ReadResult
  unfolding wait_until_deadline read_round
  read_local_runtime_file path timeout =
      wait_until_deadline (read_round path (at_most 10 timeout)) (read_timed_out path) timeout

  unfoldable pub copy_outcome :
      String → String → String → ℕ → List String → List String → Local Round
  unfolding ◌>>=◌
  copy_outcome path target container_id timeout test_command command =
      let still : String → Round = λ text.
        Round.goes_on
          (record { container_id = container_id; command = command; last_stderr = text }) in
      run_process host test_command (at_most 10 timeout) >>= λ tested.
      if is_zero tested.returncode
      then (run_process host command (at_most 30 timeout) >>= λ copied. pure (
          if is_zero copied.returncode
          then Round.stops (read_with path container_id command (pos 0) target copied.stderr)
          else still copied.stderr))
      else pure (still tested.stderr)

  -- A round of `copy_local_runtime_file`.
  unfoldable pub copy_round : String → String → ℕ → Seen → Local Round
  unfolding ◌>>=◌ search find_container local_runtime_command shlex_quote copy_outcome
  copy_round path target timeout seen =
      search (find_container host engine project_name role none) >>= λ searched.
      on_result searched
        (λ e. pure (Round.stops (read_with path "" seen.command (pos 127) "" e.message)))
        (λ found.
          let container_id = value_or found "" in
          let fails : Error → Local Round = λ e.
            pure (Round.stops (read_with path container_id seen.command (pos 127) "" e.message)) in
          if is_empty container_id
          then pure (Round.goes_on (record seen { container_id = ""; last_stderr = no_container }))
          else on_result
              (local_runtime_command host.tools engine
                ("exec" ∷ container_id ∷ "sh" ∷ "-lc" ∷ ("test -s " <> shlex_quote path) ∷ []))
              fails
              (λ test_command.
                on_result
                  (local_runtime_command host.tools engine
                    ("cp" ∷ (container_id <> (":" <> path)) ∷ target ∷ []))
                  fails (copy_outcome path target container_id timeout test_command)))

  -- `copy_local_runtime_file`; `base_name` is `Path(path).name`.
  unfoldable pub copy_local_runtime_file : String → ℕ → Local ReadResult
  unfolding ◌>>=◌ rounds copy_round safe_project
  copy_local_runtime_file path timeout =
      let folder = "artifacts/local-runtime/" <> (safe_project project_name <> "/files") in
      look Step.read_clock host.clock >>= λ start. tell (Step.make_directory folder) >>= λ _.
      rounds (copy_round path (folder <> ("/" <> host.base_name path)) timeout)
        (read_timed_out path) (suc timeout) (start + timeout) seen_nothing

-- The rest of `wait_local_runtime_startup_complete`, from the time at which it starts.
unfoldable pub wait_startup_from :
    Host → String → String → DeploymentPlan → ℕ → ℕ → Local ReadResult
unfolding ◌>>=◌ agent_resource_of local_resource_desired_hash rounds startup_round
wait_startup_from host engine project_name plan timeout start =
    lift (agent_resource_of plan) >>= λ agent.
    lift (local_resource_desired_hash host.setting agent plan) >>= λ hash.
    rounds host engine project_name "agent" (startup_round host engine project_name "agent" hash)
      (startup_timed_out host engine project_name "agent") (suc timeout) (start + timeout)
      (seen_nothing host engine project_name "agent")

-- `wait_local_runtime_startup_complete` for the agent, the role of its only call.
unfoldable pub wait_startup_complete :
    Host → String → String → DeploymentPlan → ℕ → Local ReadResult
unfolding ◌>>=◌ wait_startup_from
wait_startup_complete host engine project_name plan timeout =
    look Step.read_clock host.clock >>= λ start.
    wait_startup_from host engine project_name plan timeout start
