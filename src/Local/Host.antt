-- ===== src/Local/Host.antt =====
-- local_runtime.py: what the local runtime does to its host, as steps, and how a subprocess finishes as a
-- function of all steps so far, the newest first.
use comfyui_runpod_agentic_n.Base.{
  ℕ, String, Bool, Option, none, some, List, [], ◌∷◌, if◌then◌else◌, ℤ, pos, is_empty,
}
use comfyui_runpod_agentic_n.Base.Result.{
  Error, Result, ok, err, timeout_expired, file_not_found_error,
}
use comfyui_runpod_agentic_n.Base.Dict.{Dict}
use comfyui_runpod_agentic_n.Planner.Plan.{DeploymentPlan}
use comfyui_runpod_agentic_n.Remote.Exec.{Outcome, returned, raised, unfinished, outcome}
use comfyui_runpod_agentic_n.Local.{Tools, ApplyResult}
use comfyui_runpod_agentic_n.Local.Compose.{Setting}

pub data Step : Type 0 where
  run : List String → ℕ → Step
  write_files : String → DeploymentPlan → Step
  clear_outputs : String → Step
  make_directory : String → Step
  spawn : String → Step
  write_pid : String → Step
  read_pid : String → Step
  kill : ℤ → Step
  unlink_pid : String → Step
  sleep : ℕ → Step
  read_clock : Step

-- `subprocess.run` returns, or raises `TimeoutExpired` or `FileNotFoundError`. A process that runs out of
-- time has what it printed, and the text of the exception.
pub data Finish : Type 0 where
  exited : ℤ → String → String → Finish
  timed_out : String → String → String → Finish
  missing : String → Finish

-- A row of the list of containers, as the values of its keys.
abbrev pub Row : Type 0
Row = Dict String

-- `rows` is `parse_container_list`, `labels` is the reading of the labels in `inspect_container_labels`,
-- and `summary` is `local_runtime_summary_from_file`. `pid` is the number in the process id file, if it
-- is there, and `killed` tells whether `os.kill` succeeds.
pub record Host : Type 0 where
  pub tools : Tools
  pub setting : Setting
  pub finish : List Step → Finish
  pub clock : List Step → ℕ
  pub rows : String → Result (List Row)
  pub labels : String → Result (Dict String)
  pub summary : String → Result String
  pub base_name : String → String
  pub pid_exists : List Step → Bool
  pub pid : List Step → Option ℤ

abbrev pub Local : Type 0 → Type 0
Local A = List Step → Outcome A × List Step

-- `subprocess.CompletedProcess`
pub record Completed : Type 0 where
  pub returncode : ℤ
  pub stdout : String
  pub stderr : String

module _ {A : Type 0} where
  abbrev pub pure : A → Local A
  pure a h = (returned a, h)

  abbrev pub lift : Result A → Local A
  lift r h = (outcome r, h)

  abbrev pub out_of_fuel : Local A
  out_of_fuel h = (unfinished, h)

module _ {A B : Type 0} where
  abbrev pub continue : Outcome A × List Step → (A → Local B) → Outcome B × List Step
  continue (returned a, h) f = f a h
  continue (raised e, h) f = (raised e, h)
  continue (unfinished, h) f = (unfinished, h)

  infixl 5 ◌>>=◌ ◌>>◌
  unfoldable pub ◌>>=◌ : Local A → (A → Local B) → Local B
  ◌>>=◌ m f h = continue (m h) f

  abbrev pub ◌>>◌ : Local A → Local B → Local B
  m >> n = m >>= λ _. n

-- The cases of an optional value and of a result.
module _ {A B : Type 0} where
  unfoldable pub on_option : Option A → Local B → (A → Local B) → Local B
  on_option none m f = m
  on_option (some a) m f = f a

  unfoldable pub on_result : Result A → (Error → Local B) → (A → Local B) → Local B
  on_result (err e) m f = m e
  on_result (ok a) m f = f a

-- A step without an answer.
abbrev pub tell : Step → Local (Unit {0})
tell step h = (returned tt, step ∷ h)

-- A step whose answer is read.
abbrev pub look : {A : Type 0} → Step → (List Step → A) → Local A
look step answer h = (returned (answer (step ∷ h)), step ∷ h)

abbrev pub completed_of : Finish → Outcome Completed
completed_of (exited code stdout stderr) =
    returned (record { returncode = code; stdout = stdout; stderr = stderr })
completed_of (timed_out stdout stderr message) =
    raised (record { kind = timeout_expired; message = message })
completed_of (missing message) = raised (record { kind = file_not_found_error; message = message })

module _ (host : Host) where
  -- `subprocess.run` outside of a `try`.
  abbrev pub run_process : List String → ℕ → Local Completed
  run_process args timeout h =
      (completed_of (host.finish (run args timeout ∷ h)), run args timeout ∷ h)

  abbrev result_with : String → String → String → List String → ℤ → String → String → ApplyResult
  result_with engine action path command code stdout stderr = record {
    engine = engine;
    action = action;
    compose_path = path;
    command = command;
    returncode = code;
    stdout = stdout;
    stderr = stderr;
  }

  abbrev pub finished_with : String → String → String → String → List String → Finish → ApplyResult
  finished_with engine action path failed command (exited code stdout stderr) =
      result_with engine action path command code stdout stderr
  finished_with engine action path failed command (timed_out stdout stderr message) =
      result_with engine action failed command (pos 124) stdout
        (if is_empty stderr then message else stderr)
  finished_with engine action path failed command (missing message) =
      result_with engine action failed [] (pos 127) "" message

  -- The `try` block that five functions share: a command that cannot be made or found is code 127, and
  -- one that runs out of time is code 124. The paths are those of a result with and without an
  -- exception.
  unfoldable pub guarded :
      String → String → String → String → Result (List String) → ℕ → Local ApplyResult
  guarded engine action path failed (err e) timeout h =
      (returned (result_with engine action failed [] (pos 127) "" e.message), h)
  guarded engine action path failed (ok command) timeout h =
      let h' = run command timeout ∷ h in
      (returned (finished_with engine action path failed command (host.finish h')), h')
