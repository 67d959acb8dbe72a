-- ===== src/Local/Run.antt =====
-- local_runtime.py: `apply_local_runtime_plan`, from the files to the last clean-up.
use comfyui_runpod_agentic_n.Base.{
  ℕ, String, Bool, true, false, not, ◌&&◌, Option, none, some, List, [], ◌∷◌, ◌++◌, if◌then◌else◌,
  is_zero,
}
use comfyui_runpod_agentic_n.Planner.Plan.{DeploymentPlan}
use comfyui_runpod_agentic_n.Local.{
  Action, is_apply, is_stop, is_terminate, ApplyResult, ReadResult,
}
use comfyui_runpod_agentic_n.Local.Host.{Step, Host, Local, pure, tell, ◌>>=◌}
use comfyui_runpod_agentic_n.Local.Apply.{
  join_parts, after, followed, is_always_create, apply_compose_file, reconcile_stale,
  remove_retention_volumes, stop_containers, reuse,
}
use comfyui_runpod_agentic_n.Local.Waits.{wait_startup_complete, should_wait_local_startup}

-- Saving and planning write the files, too.
abbrev pub writes_files : Action → Bool
writes_files Action.save_only = true
writes_files Action.plan = true
writes_files _ = false

-- `[*a, "&&", *b] if a else b`
abbrev chained : List String → List String → List String
chained [] b = b
chained (x ∷ a) b = (x ∷ a) ++ "&&" ∷ b

abbrev pub then_volumes : ApplyResult → Option ApplyResult → ApplyResult
then_volumes result none = result
then_volumes result (some cleanup) = record (followed result cleanup) {
  command = chained result.command cleanup.command;
}

abbrev pub then_stopped : ApplyResult → Option ApplyResult → ApplyResult
then_stopped result none = result
then_stopped result (some stopped) = followed result stopped

abbrev pub after_cleanup : Option ApplyResult → ApplyResult → ApplyResult
after_cleanup none result = result
after_cleanup (some cleanup) result = after cleanup result

abbrev pub failed_startup : ApplyResult → ReadResult → ApplyResult
failed_startup result startup = record result {
  returncode = startup.returncode;
  stderr = join_parts result.stderr startup.stderr;
}

abbrev has_failed : Option ApplyResult → Bool
has_failed none = false
has_failed (some result) = not (is_zero result.returncode)

module _ (host : Host) (engine compose_path project_name : String) (plan : DeploymentPlan)
    (timeout : ℕ) where
  unfoldable pub stop_rest : Action → ApplyResult → Local ApplyResult
  unfolding ◌>>=◌ stop_containers
  stop_rest action result =
      if is_stop action && is_zero result.returncode
      then (stop_containers host engine compose_path project_name plan timeout >>= λ stopped.
          pure (then_stopped result stopped))
      else pure result

  unfoldable pub remove_rest : Action → ApplyResult → Local (ApplyResult × Bool)
  unfolding ◌>>=◌ remove_retention_volumes
  remove_rest action result =
      if is_terminate action && is_zero result.returncode
      then (remove_retention_volumes host engine compose_path project_name plan timeout
          >>= λ removed. pure (then_volumes result removed, false))
      else pure (result, false)

  -- What follows the clean-up of a stale project.
  unfoldable pub compose_and_wait : Action → Option ApplyResult → Local (ApplyResult × Bool)
  unfolding ◌>>=◌ apply_compose_file stop_rest remove_rest should_wait_local_startup
      wait_startup_complete
  compose_and_wait action cleanup =
      apply_compose_file host engine compose_path project_name plan timeout action >>= λ applied.
      stop_rest action applied >>= λ stopped.
      let result = after_cleanup cleanup stopped in
      if is_apply action && (is_zero result.returncode && should_wait_local_startup plan)
      then (wait_startup_complete host engine project_name plan timeout >>= λ startup.
          if not (is_zero startup.returncode)
          then pure (failed_startup result startup, false)
          else remove_rest action result)
      else remove_rest action result

  -- An apply that uses no container again, after the clean-up of a stale project.
  unfoldable pub create_after : Action → Option ApplyResult → Local (ApplyResult × Bool)
  unfolding compose_and_wait
  create_after action none = compose_and_wait action none
  create_after action (some result) =
      if not (is_zero result.returncode)
      then pure (result, false)
      else compose_and_wait action (some result)

  unfoldable pub create : Action → Local (ApplyResult × Bool)
  unfolding ◌>>=◌ reconcile_stale create_after
  create action = reconcile_stale host engine compose_path project_name plan timeout >>= λ cleanup.
      create_after action cleanup

  unfoldable pub or_create : Action → Option (ApplyResult × Bool) → Local (ApplyResult × Bool)
  unfolding create
  or_create action (some result) = pure result
  or_create action none = create action

  -- An apply: it first writes the runtime's files and removes the old outputs.
  unfoldable pub apply_plan : Action → Local (ApplyResult × Bool)
  unfolding ◌>>=◌ reuse create or_create
  apply_plan action = tell (Step.write_files project_name plan) >>= λ _.
      tell (Step.clear_outputs project_name) >>= λ _.
      if is_always_create plan.reuse_policy
      then create action
      else (reuse host engine compose_path project_name plan timeout >>= λ reused.
          or_create action reused)

  -- `apply_local_runtime_plan`
  unfoldable pub apply_local_runtime_plan : Action → Local (ApplyResult × Bool)
  unfolding ◌>>=◌ apply_plan compose_and_wait
  apply_local_runtime_plan action =
      if is_apply action
      then apply_plan action
      else if writes_files action
      then (tell (Step.write_files project_name plan) >>= λ _. compose_and_wait action none)
      else compose_and_wait action none
