-- ===== src/Runner/Commands.antt =====
-- runner.py: the commands that are run in the agent's pod.
use comfyui_runpod_agentic_n.Base.{
  ℕ, zero, suc, ◌+◌, String, ◌<>◌, Bool, true, false, ◌||◌, not, Option, none, if◌then◌else◌, ◌=ℕ=◌,
  is_zero, text_or,
}
use comfyui_runpod_agentic_n.Base.Result.{ErrorKind}
use comfyui_runpod_agentic_n.Base.Text.{first}
use comfyui_runpod_agentic_n.Specs.{FailurePolicy}
use comfyui_runpod_agentic_n.Planner.Plan.{CommandDetail}
use comfyui_runpod_agentic_n.Store.Rows.{Payload}
use comfyui_runpod_agentic_n.Store.Operations.{start_command, finish_command}
use comfyui_runpod_agentic_n.Remote.Outside.{Call, Outside, CommandResult}
use comfyui_runpod_agentic_n.Remote.Exec.{
  Exec, pure, raise, fail, tell, ask, event, uuid, utc_now, wait, modify, try_store, progress_step,
  ◌>>=◌,
}
use comfyui_runpod_agentic_n.Runner.Shell.{order_text, phase_text, integer_text}

abbrev pub is_retry : FailurePolicy → Bool
is_retry FailurePolicy.retry = true
is_retry _ = false

abbrev pub is_continue : FailurePolicy → Bool
is_continue FailurePolicy.continue = true
is_continue _ = false

module _ (o : Outside) where
  -- The loop over the attempts: `left` are left, and `attempt` have been made.
  unfoldable pub run_attempts :
      (left attempt : ℕ) (run_id host : String) (port : ℕ) → CommandDetail → Exec CommandResult
  unfolding event
  run_attempts zero attempt run_id host port detail =
      raise (record { kind = ErrorKind.assertion_error; message = "" })
  run_attempts (suc left) attempt run_id host port detail =
      ask (Call.ssh_run host port detail.command) o.command >>= λ result.
      if is_zero result.exit_code
      then pure result
      else if not (is_retry detail.failure_policy) || left =ℕ= 0
      then pure result
      else (event o run_id "ssh_command_retry" detail.command none
            (Payload.retry (attempt + 1) result.exit_code)
          >>= λ _. wait o 1 >>= λ _. run_attempts left (attempt + 1) run_id host port detail)

  -- `_command_log_paths`, up to the ending.
  abbrev pub log_prefix : String → CommandDetail → String
  log_prefix run_id detail =
      o.log_folder
      <> ("/"
          <> (run_id
              <> ("/"
                  <> (order_text detail.order
                      <> ("-"
                          <> (phase_text detail.phase
                              <> ("-" <> first 12 (o.command_hash detail.command))))))))

  abbrev pub save : String → String → Exec (Unit {0})
  save path text = tell (Call.save_text path text)

  -- A command that failed is an error, unless its policy is to continue.
  abbrev pub judge : CommandDetail → CommandResult → Exec CommandResult
  judge detail result =
      if is_zero result.exit_code || is_continue detail.failure_policy
      then pure result
      else fail (
          "SSH command failed with exit code "
          <> (integer_text result.exit_code <> (": " <> detail.command)))

  unfoldable pub run_ssh_command_action :
      (run_id host : String) (port : ℕ) (resource_id : Option String)
      → CommandDetail
      → Exec CommandResult
  unfolding run_attempts event start_command finish_command first order_text integer_text
  run_ssh_command_action run_id host port resource_id detail =
      progress_step o ("ssh " <> phase_text detail.phase) >>= λ _. uuid o >>= λ command_id.
      utc_now o >>= λ now.
      try_store (
        start_command command_id now run_id resource_id (phase_text detail.phase) detail.order
          (text_or detail.command_hash (o.command_hash detail.command))
          (log_prefix run_id detail <> ".stdout.log") (log_prefix run_id detail <> ".stderr.log"))
      >>= λ _. run_attempts (suc detail.retry_count) 0 run_id host port detail >>= λ result.
          save (log_prefix run_id detail <> ".stdout.log") result.stdout >>= λ _.
          save (log_prefix run_id detail <> ".stderr.log") result.stderr >>= λ _.
          utc_now o >>= λ later.
          modify (
            finish_command later command_id
              (if is_zero result.exit_code then "completed" else "failed") result.exit_code)
          >>= λ _.
              event o run_id "ssh_command" detail.command none (Payload.exit_code result.exit_code)
              >>= λ _. judge detail result
