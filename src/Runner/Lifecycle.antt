-- ===== src/Runner/Lifecycle.antt =====
-- runner.py: stopping and terminating what a deployment has, cleaning up after a failure, and
-- recording the pods that Runpod lists.
use comfyui_runpod_agentic_n.Base.{
  ℕ, String, Bool, true, false, ◌&&◌, Option, none, some, List, [], ◌∷◌, map, if◌then◌else◌, ◌==◌,
  value_or, truthy, contains, nonempty, select, starts_with,
}
use comfyui_runpod_agentic_n.Planner.Plan.{CommandDetail, DeploymentPlan}
use comfyui_runpod_agentic_n.Store.Rows.{Payload, ResourceRow}
use comfyui_runpod_agentic_n.Store.Operations.{
  list_resources, mark_resource_status, record_remote_resource,
}
use comfyui_runpod_agentic_n.Remote.Pod.{Pod, seen_or}
use comfyui_runpod_agentic_n.Remote.Outside.{Call, Outside}
use comfyui_runpod_agentic_n.Remote.Exec.{
  Exec, pure, ask, read, store, modify, event, utc_now, attempt, each, done, ◌>>=◌,
}
use comfyui_runpod_agentic_n.Runner.Waits.{wait_ssh_endpoint, wait_ssh_ready}
use comfyui_runpod_agentic_n.Runner.Commands.{run_ssh_command_action}
use comfyui_runpod_agentic_n.Runner.Agent.{command_details, is_teardown}

abbrev pub text_is : Option String → String → Bool
text_is none t = false
text_is (some s) t = s == t

-- The resources of the store that are the plan's.
unfoldable pub matched : DeploymentPlan → List ResourceRow → List ResourceRow
unfolding select
matched plan rows =
    select
      (λ row. elim row.desired_hash [
        | none ↦ false
        | some hash ↦ contains hash (map (λ r. r.desired_hash) plan.resources)
      ])
      rows

abbrev pub action_text : Bool → String
action_text true = "terminate"
action_text false = "stop"

abbrev pub is_created : String → ResourceRow → Bool
is_created run_id row = text_is row.run_id run_id && truthy row.runpod_pod_id

abbrev pub is_managed : Pod → Bool
is_managed pod = starts_with (value_or (seen_or pod.name "") "None") "crag-"

abbrev pub teardown_commands : DeploymentPlan → List CommandDetail
teardown_commands plan = select (λ c. is_teardown c.phase) (command_details plan.actions)

module _ (o : Outside) where
  abbrev pub run_all :
      DeploymentPlan → String → ℕ → ResourceRow → List CommandDetail → Exec (Unit {0})
  run_all plan host port row [] = done
  run_all plan host port row (c ∷ rest) =
      run_ssh_command_action o plan.run_id host port (some row.id) c >>= λ result.
      run_all plan host port row rest

  unfoldable pub run_teardown_commands : DeploymentPlan → ResourceRow → Exec (Unit {0})
  unfolding run_ssh_command_action wait_ssh_endpoint wait_ssh_ready command_details select
  run_teardown_commands plan row =
      if text_is row.role "agent" && (truthy row.runpod_pod_id && nonempty (teardown_commands plan))
      then (ask (Call.get_pod (value_or row.runpod_pod_id "")) o.pod >>= λ pod.
          wait_ssh_endpoint o pod plan >>= λ endpoint.
          wait_ssh_ready o endpoint.0 endpoint.1 >>= λ _.
          run_all plan endpoint.0 endpoint.1 row (teardown_commands plan))
      else done

  abbrev pub end_pod : Bool → String → Exec (Unit {0})
  end_pod true pod_id = ask (Call.terminate_pod pod_id) o.lifecycle
  end_pod false pod_id = ask (Call.stop_pod pod_id) o.lifecycle

  unfoldable pub end_resource : DeploymentPlan → Bool → ResourceRow → Exec (Unit {0})
  unfolding run_teardown_commands mark_resource_status
  end_resource plan terminate row =
      if truthy row.runpod_pod_id
      then (run_teardown_commands plan row >>= λ _.
          end_pod terminate (value_or row.runpod_pod_id "") >>= λ _.
          utc_now o >>= λ now. modify (mark_resource_status now row.id (action_text terminate)))
      else done

  -- `_lifecycle`, which returns the matched resources.
  unfoldable pub lifecycle : DeploymentPlan → Bool → Exec (List ResourceRow)
  unfolding end_resource matched list_resources
  lifecycle plan terminate = read list_resources >>= λ rows.
      each (end_resource plan terminate) (matched plan rows) >>= λ _. pure (matched plan rows)

  -- A pod that cannot be ended is an event and no error.
  unfoldable pub clean_up : DeploymentPlan → Bool → ResourceRow → Exec (Unit {0})
  unfolding event
  clean_up plan terminate row =
      if is_created plan.run_id row
      then attempt (end_pod terminate (value_or row.runpod_pod_id "")) (λ e.
        event o plan.run_id
          (if terminate then "cleanup_terminate_failed" else "cleanup_stop_failed") e.message
          (some row.id) Payload.without)
      else done

  unfoldable pub cleanup_created : DeploymentPlan → Bool → Exec (Unit {0})
  unfolding clean_up list_resources
  cleanup_created plan terminate =
      read list_resources >>= λ rows. each (clean_up plan terminate) rows

  unfoldable pub record_each : Option String → List Pod → Exec (Unit {0})
  unfolding record_remote_resource
  record_each run_id [] = done
  record_each run_id (pod ∷ pods) = utc_now o >>= λ now.
      store (record_remote_resource now pod run_id) >>= λ id. record_each run_id pods

  unfoldable pub reconcile_managed_pods : Option String → Exec (List Pod)
  unfolding record_each select
  reconcile_managed_pods run_id = ask Call.list_pods o.pods >>= λ pods.
      record_each run_id (select is_managed pods) >>= λ _. pure (select is_managed pods)
