-- ===== src/Ssh.antt =====
-- ssh_client.py: the client that runs `ssh` as a subprocess. A subprocess is outside: how it finishes is a
-- function of all that were started so far, the newest first.
pub mod Laws
use comfyui_runpod_agentic_n.Base.{
  ℕ, String, ◌<>◌, Bool, true, false, ◌||◌, Option, none, some, List, [], ◌∷◌, ◌++◌, if◌then◌else◌,
  ℤ, pos, is_zero, is_empty, nonzero, value_or, text_or,
}
use comfyui_runpod_agentic_n.Base.Text.{codes, decimal, is_infix, lower}
use comfyui_runpod_agentic_n.Base.Result.{ErrorKind, Result, ok, err}
use comfyui_runpod_agentic_n.Remote.Outside.{CommandResult}
use comfyui_runpod_agentic_n.Runner.Shell.{escape}

pub record SshConfig : Type 0 where
  pub username : String
  pub private_key_path : String
  pub connect_timeout_seconds : ℕ
  pub command_timeout_seconds : ℕ

-- `subprocess.run(args, input=..., timeout=...)`
pub record Process : Type 0 where
  pub args : List String
  pub input : Option String
  pub timeout : ℕ

-- A process exits, or is killed when its time is over.
pub data Finish : Type 0 where
  exited : ℤ → String → String → Finish
  timed_out : Option String → Option String → Finish

-- `expand` is `Path(p).expanduser()`, and `parent` is `Path(p).parent`.
pub record System : Type 0 where
  pub finish : List Process → Finish
  pub expand : String → String
  pub parent : String → String

unfoldable pub shell_quote : String → String
unfolding escape
shell_quote value = "'" <> (escape value <> "'")

unfoldable pub is_runpod_proxy_host : String → Bool
unfolding is_infix
is_runpod_proxy_host host = is_infix (codes "ssh.runpod.io") (codes host)

abbrev pub result_of : ℤ → String → String → CommandResult
result_of code stdout stderr = record { exit_code = code; stdout = stdout; stderr = stderr }

abbrev pub output : CommandResult → String
output result = result.stdout <> result.stderr

-- What the proxy prints without a terminal, and without a container.
unfoldable pub lacks_pty : CommandResult → Bool
unfolding is_infix
lacks_pty result = is_infix (codes "Your SSH client doesn't support PTY") (codes (output result))

unfoldable pub lacks_container : CommandResult → Bool
unfolding is_infix lower
lacks_container result = is_infix (codes "container not found") (lower (output result))

abbrev refused : CommandResult → String → CommandResult
refused result message = record {
  exit_code = pos 255;
  stdout = result.stdout;
  stderr = if is_empty result.stderr then message else result.stderr;
}

unfoldable pub normalize_ssh_result : CommandResult → CommandResult
unfolding lacks_pty lacks_container
normalize_ssh_result result =
    if lacks_pty result
    then refused result "Runpod proxy SSH requires PTY allocation."
    else if lacks_container result
    then refused result "Runpod proxy SSH did not attach to the container."
    else result

abbrev file_marker : String
file_marker = "__CRAG_FILE_CONTENT__"

module _ (system : System) (config : SshConfig) where
  -- `_base_args`
  unfoldable pub base_args : String → ℕ → Bool → List String
  unfolding is_infix decimal
  base_args host port allocate_tty =
      "ssh"
      ∷ ((if allocate_tty then "-tt" ∷ [] else [])
          ++ ("-i"
              ∷ system.expand config.private_key_path
              ∷ "-o"
              ∷ "StrictHostKeyChecking=no"
              ∷ "-o"
              ∷ ("ConnectTimeout=" <> decimal config.connect_timeout_seconds)
              ∷ "-p"
              ∷ decimal port
              ∷ (if is_infix (codes "@") (codes host)
                  then host
                  else (config.username <> ("@" <> host)))
              ∷ []))

  -- The process that `run` starts.
  unfoldable pub run_process : String → ℕ → String → Option ℕ → Process
  unfolding base_args is_runpod_proxy_host
  run_process host port command timeout_seconds =
      let timeout =
        if nonzero timeout_seconds
        then value_or timeout_seconds 0
        else config.command_timeout_seconds in
      if is_runpod_proxy_host host
      then (record {
        args = base_args host port true;
        input = some (command <> "\nexit\n");
        timeout = timeout;
      })
      else (record {
        args = base_args host port false ++ (command ∷ []);
        input = none;
        timeout = timeout;
      })

  unfoldable pub collect : ℕ → Finish → CommandResult
  unfolding normalize_ssh_result decimal
  collect timeout (exited code stdout stderr) = normalize_ssh_result (result_of code stdout stderr)
  collect timeout (timed_out stdout stderr) = record {
    exit_code = pos 124;
    stdout = text_or stdout "";
    stderr = text_or stderr ("SSH command timed out after " <> (decimal timeout <> " seconds."));
  }

  unfoldable pub run : String → ℕ → String → Option ℕ → List Process → CommandResult × List Process
  unfolding run_process collect
  run host port command timeout_seconds started =
      let process = run_process host port command timeout_seconds in
      (collect process.timeout (system.finish (process ∷ started)), process ∷ started)

  -- The process that writes the text it is given to the file.
  unfoldable pub write_process : String → ℕ → String → String → Process
  unfolding base_args is_runpod_proxy_host shell_quote
  write_process host port path content =
      if is_runpod_proxy_host host
      then (record {
        args = base_args host port true;
        input = some (
            "cat > "
            <> (shell_quote path
                <> (" <<'"
                    <> (file_marker
                        <> ("'\n" <> (content <> ("\n" <> (file_marker <> "\nexit\n"))))))));
        timeout = config.command_timeout_seconds;
      })
      else (record {
        args = base_args host port false ++ (("cat > " <> shell_quote path) ∷ []);
        input = some content;
        timeout = config.command_timeout_seconds;
      })

  abbrev ssh_error : String → Result (Unit {0})
  ssh_error message = err (record { kind = ErrorKind.ssh_error; message = message })

  abbrev pub judged : CommandResult → Result (Unit {0})
  judged result =
      if is_zero result.exit_code
      then ok tt
      else ssh_error (if is_empty result.stderr then result.stdout else result.stderr)

  -- How the writing process finished; `subprocess.TimeoutExpired` is not caught.
  unfoldable pub written : Finish → Result (Unit {0})
  unfolding normalize_ssh_result
  written (timed_out stdout stderr) =
      err (record { kind = ErrorKind.timeout_expired; message = "" })
  written (exited code stdout stderr) = judged (normalize_ssh_result (result_of code stdout stderr))

  unfoldable pub write_file :
      String → ℕ → String → String → List Process → Result (Unit {0}) × List Process
  unfolding run write_process written shell_quote
  write_file host port path content started =
      let made = run host port ("mkdir -p " <> shell_quote (system.parent path)) none started in
      let process = write_process host port path content in
      if is_zero made.0.exit_code
      then (written (system.finish (process ∷ made.1)), process ∷ made.1)
      else (ssh_error made.0.stderr, made.1)
