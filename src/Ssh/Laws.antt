-- ===== src/Ssh/Laws.antt =====
-- When a command over SSH succeeds, and when a file is written.
use comfyui_runpod_agentic_n.Base.{
  ℕ, String, ◌<>◌, true, false, Option, none, List, ◌∷◌, ◌≡◌, ◌↔◌, is_zero, arith,
}
use comfyui_runpod_agentic_n.Base.Result.{Result, is_ok}
use comfyui_runpod_agentic_n.Remote.Outside.{CommandResult}
use comfyui_runpod_agentic_n.Ssh.{
  SshConfig, Process, Finish, System, result_of, exited, timed_out, lacks_pty, lacks_container,
  normalize_ssh_result, run_process, write_process, collect, run, judged, written, write_file,
  shell_quote,
}

-- A process has succeeded: it has exited with zero, and printed neither of the proxy's refusals.
abbrev pub Succeeded : Finish → Type 0
Succeeded (timed_out stdout stderr) = ⊥
Succeeded (exited code stdout stderr) =
    (is_zero code ≡ true)
    × (lacks_pty (result_of code stdout stderr) ≡ false)
    × (lacks_container (result_of code stdout stderr) ≡ false)

normalize_ssh_result_iff :
    (r : CommandResult)
    → (is_zero (normalize_ssh_result r).exit_code ≡ true)
      ↔ ((is_zero r.exit_code ≡ true) × (lacks_pty r ≡ false) × (lacks_container r ≡ false))
unfolding normalize_ssh_result
normalize_ssh_result_iff r = ground arith

module _ (system : System) (config : SshConfig) where
  collect_iff :
      (timeout : ℕ) (f : Finish)
      → (is_zero (collect system config timeout f).exit_code ≡ true) ↔ Succeeded f
  unfolding collect
  collect_iff timeout (exited code stdout stderr) =
      normalize_ssh_result_iff (result_of code stdout stderr)
  collect_iff timeout (timed_out stdout stderr) = ground arith

  judged_lem : (n : CommandResult) → is_ok (judged system config n) ≡ is_zero n.exit_code
  judged_lem n = ground arith

  -- The same test decides whether an exception is raised.
  normalized_iff :
      (r : CommandResult) (m : CommandResult → Result (Unit {0}))
      → ((n : CommandResult) → is_ok (m n) ≡ is_zero n.exit_code)
      → (is_ok (m (normalize_ssh_result r)) ≡ true)
        ↔ ((is_zero r.exit_code ≡ true) × (lacks_pty r ≡ false) × (lacks_container r ≡ false))
  normalized_iff r m h = rw (h (normalize_ssh_result r)) (normalize_ssh_result_iff r)

  written_iff : (f : Finish) → (is_ok (written system config f) ≡ true) ↔ Succeeded f
  unfolding written
  written_iff (exited code stdout stderr) =
      normalized_iff (result_of code stdout stderr) (judged system config) judged_lem
  written_iff (timed_out stdout stderr) = ground arith

  -- A command over SSH has the exit code zero exactly when its process exited with zero in time and its
  -- output shows no refusal of the proxy.
  pub run_iff :
      (host : String) (port : ℕ) (command : String) (timeout_seconds : Option ℕ)
      (started : List Process)
      → (is_zero (run system config host port command timeout_seconds started).0.exit_code ≡ true)
        ↔ Succeeded
            (system.finish (run_process system config host port command timeout_seconds ∷ started))
  unfolding run
  run_iff host port command timeout_seconds started =
      collect_iff (run_process system config host port command timeout_seconds).timeout _

  -- A file is written without an exception exactly when the process that makes its folder succeeds, and
  -- then the process that is given the content.
  pub write_file_iff :
      (host : String) (port : ℕ) (path content : String) (started : List Process)
      → (is_ok (write_file system config host port path content started).0 ≡ true) ↔ (
          let mkdir =
            run_process system config host port
              ("mkdir -p " <> shell_quote (system.parent path))
              none in
          let write = write_process system config host port path content in
          Succeeded (system.finish (mkdir ∷ started))
          × Succeeded (system.finish (write ∷ mkdir ∷ started)))
  unfolding write_file run
  write_file_iff host port path content started =
      let mkdir =
        run_process system config host port ("mkdir -p " <> shell_quote (system.parent path))
          none in
      let write = write_process system config host port path content in
      let made = collect_iff mkdir.timeout (system.finish (mkdir ∷ started)) in
      let wrote = written_iff (system.finish (write ∷ mkdir ∷ started)) in
      ground (arith, made, wrote)
