-- ===== src/Runner/Run.antt =====
-- runner.py: `_apply` and `run`.
use comfyui_runpod_agentic_n.Base.{
  ℕ, String, ◌<>◌, Bool, true, false, ◌&&◌, not, Option, none, some, List, [], ◌∷◌, if◌then◌else◌,
  is_empty,
}
use comfyui_runpod_agentic_n.Base.Dict.{Dict, get, put}
use comfyui_runpod_agentic_n.Base.Text.{strip}
use comfyui_runpod_agentic_n.Base.Result.{Error, ErrorKind, Result, require}
use comfyui_runpod_agentic_n.Specs.{RunMode}
use comfyui_runpod_agentic_n.Specs.Deployment.{DeploymentSpec}
use comfyui_runpod_agentic_n.Templates.{TemplateResolver}
use comfyui_runpod_agentic_n.Validation.{validate_deployment}
use comfyui_runpod_agentic_n.Planner.Plan.{ResourcePlan, DeploymentPlan, Ambient}
use comfyui_runpod_agentic_n.Planner.Env.{role_text}
use comfyui_runpod_agentic_n.Planner.Build.{build}
use comfyui_runpod_agentic_n.Store.Rows.{Payload, ResourceRow}
use comfyui_runpod_agentic_n.Store.Operations.{record_run, record_resource}
use comfyui_runpod_agentic_n.Remote.Pod.{Pod, seen, seen_or, empty_pod}
use comfyui_runpod_agentic_n.Remote.Outside.{Call, Outside}
use comfyui_runpod_agentic_n.Remote.Exec.{
  Exec, pure, raise, lift, look, store, modify, event, utc_now, progress_step, attempt, done, ◌>>=◌,
}
use comfyui_runpod_agentic_n.Runner.Endpoints.{
  resolve_dependency_endpoints, terminal_urls_for_pods, terminal_auth_for_plan,
}
use comfyui_runpod_agentic_n.Runner.Launch.{
  materialize_generated_tokens, plan_uses_generated_token, find_agent, is_agent,
}
use comfyui_runpod_agentic_n.Runner.Pods.{reuse_or_create_pod, materialize_network_volumes}
use comfyui_runpod_agentic_n.Runner.Waits.{wait_dependency_ready, wait_ssh_endpoint, wait_ssh_ready}
use comfyui_runpod_agentic_n.Runner.Agent.{Texts, run_agent_ssh_steps, copy_remote_image_file}
use comfyui_runpod_agentic_n.Runner.KeepAlive.{
  Report, enforce_response_keep_alive, schedule_time_keep_alive,
}
use comfyui_runpod_agentic_n.Runner.Lifecycle.{lifecycle, cleanup_created, reconcile_managed_pods}

-- The result of a run that applied its plan.
pub record Applied : Type 0 where
  pub run_id : String
  pub status : String
  pub pods : Dict (Option String)
  pub response : String
  pub errors : String
  pub plan : DeploymentPlan
  pub image_path : String
  pub terminal_urls : Dict String
  pub terminal_auth : Dict (String × String)
  pub keep_alive : Option Report
  pub scheduled : Bool

pub data RunResult : Type 0 where
  applied : Applied → RunResult
  ended : String → List ResourceRow → RunResult

pub data OnError : Type 0 where
  leave_running stop_created terminate_created : OnError

pub record RunRequest : Type 0 where
  pub deployment : DeploymentSpec
  pub mode : RunMode
  pub prompt : String
  pub workflow_graph : Option String
  pub on_error : OnError
  pub response_image_path : String
  pub api_key : Option String

abbrev pub mode_text : RunMode → String
mode_text RunMode.plan = "plan"
mode_text RunMode.apply = "apply"
mode_text RunMode.apply_and_wait = "apply_and_wait"
mode_text RunMode.stop = "stop"
mode_text RunMode.terminate = "terminate"

-- The pods by the resources' names, and the keys of the resources' rows.
abbrev pub Created : Type 0
Created = Dict Pod × Dict String

abbrev pod_ids : Dict Pod → Dict (Option String)
pod_ids [] = []
pod_ids ((name, pod) ∷ pods) = (name, seen pod.id) ∷ pod_ids pods

abbrev status_of : Bool → String → String
status_of wait response =
    if wait then (if is_empty response then "waiting" else "completed") else "launched"

module _ (o : Outside) (texts : Texts) where
  abbrev pub record_pod : DeploymentPlan → ResourcePlan → Pod → Option String → Exec String
  record_pod plan resource pod status =
      utc_now o >>= λ now. store (record_resource now plan.run_id resource pod status)

  abbrev pub waited : DeploymentPlan → ResourcePlan → Pod → String → Exec Pod
  waited plan resource pod resource_id =
      if is_agent resource.role
      then pure pod
      else (progress_step o ("wait " <> role_text resource.role) >>= λ _.
          wait_dependency_ready o resource pod plan.run_id resource_id)

  unfoldable pub create_resources : DeploymentPlan → List ResourcePlan → Created → Exec Created
  unfolding reuse_or_create_pod wait_dependency_ready record_resource put
  create_resources plan [] created = pure created
  create_resources plan (resource ∷ rest) created =
      progress_step o ("create " <> role_text resource.role) >>= λ _.
      record_pod plan resource empty_pod (some "creating") >>= λ pending.
      reuse_or_create_pod o plan resource pending >>= λ pod.
      record_pod plan resource pod (seen_or pod.desired_status "created") >>= λ resource_id.
      waited plan resource pod resource_id >>= λ ready.
      create_resources plan rest
        (put created.0 resource.name ready, put created.1 resource.name resource_id)

  abbrev pub image : DeploymentPlan → String → ℕ → Bool → String → Exec String
  image plan host port wait path =
      if wait && not (is_empty (strip path))
      then copy_remote_image_file o plan.run_id host port (strip path)
      else pure ""

  -- The agent's part: `plan` has the resolved contract.
  unfoldable pub apply_agent :
      DeploymentPlan → Bool → String → Created → ResourcePlan → Pod → Exec Applied
  unfolding schedule_time_keep_alive wait_ssh_endpoint wait_ssh_ready run_agent_ssh_steps
      copy_remote_image_file strip enforce_response_keep_alive terminal_urls_for_pods
      terminal_auth_for_plan get
  apply_agent plan wait path created agent pod =
      schedule_time_keep_alive o plan pod >>= λ scheduled. progress_step o "wait ssh" >>= λ _.
      wait_ssh_endpoint o pod plan >>= λ endpoint. wait_ssh_ready o endpoint.0 endpoint.1 >>= λ _.
      run_agent_ssh_steps o texts plan endpoint.0 endpoint.1 (get created.1 agent.name) wait
      >>= λ collected. image plan endpoint.0 endpoint.1 wait path >>= λ image_path.
          enforce_response_keep_alive o plan pod (not (is_empty collected.0)) >>= λ keep_alive.
          lift (terminal_urls_for_pods plan created.0) >>= λ urls. pure (record {
            run_id = plan.run_id;
            status = status_of wait collected.0;
            pods = pod_ids created.0;
            response = collected.0;
            errors = collected.1;
            plan = plan;
            image_path = image_path;
            terminal_urls = urls;
            terminal_auth = elim urls [ [] ↦ [] | _ ∷ _ ↦ terminal_auth_for_plan plan ];
            keep_alive = keep_alive;
            scheduled = scheduled;
          })

  abbrev pub agent_of : DeploymentPlan → Result ResourcePlan
  agent_of plan = require (find_agent plan.resources) ErrorKind.stop_iteration ""

  abbrev pub pod_of : Created → ResourcePlan → Result Pod
  pod_of created agent = require (get created.0 agent.name) ErrorKind.key_error agent.name

  -- The token is drawn only for a plan that uses it.
  abbrev pub with_tokens : DeploymentPlan → Exec DeploymentPlan
  with_tokens plan =
      if plan_uses_generated_token plan
      then (look Call.read_token o.text >>= λ token.
          pure (materialize_generated_tokens ("crag-" <> token) plan))
      else pure plan

  unfoldable pub apply : DeploymentPlan → Bool → String → Exec Applied
  unfolding create_resources apply_agent materialize_generated_tokens plan_uses_generated_token
      materialize_network_volumes resolve_dependency_endpoints find_agent get
  apply plan wait path = with_tokens plan >>= λ tokened.
      materialize_network_volumes o tokened >>= λ plan.
      create_resources plan plan.resources ([], []) >>= λ created. lift (agent_of plan) >>= λ agent.
      (let resolved : DeploymentPlan = record plan {
        runtime_contract = resolve_dependency_endpoints plan created.0;
      } in
        lift (pod_of created agent) >>= λ pod. apply_agent resolved wait path created agent pod)

  unfoldable pub record_status : DeploymentPlan → RunMode → String → Exec (Unit {0})
  unfolding record_run
  record_status plan mode status = utc_now o >>= λ now. modify (
      record_run now plan.run_id plan.workflow_hash plan.deployment_hash (mode_text mode) status
        none)

  abbrev pub is_wait : RunMode → Bool
  is_wait RunMode.apply_and_wait = true
  is_wait _ = false

  abbrev pub apply_mode : RunRequest → DeploymentPlan → Exec RunResult
  apply_mode request plan =
      apply plan (is_wait request.mode) request.response_image_path >>= λ result.
      record_status plan request.mode "completed" >>= λ _.
      progress_step o "completed" >>= λ _. pure (RunResult.applied result)

  -- What the `try` of `run` holds.
  unfoldable pub attempt_mode : RunMode → RunRequest → DeploymentPlan → Exec RunResult
  unfolding lifecycle apply record_status
  attempt_mode RunMode.stop request plan =
      lifecycle o plan false >>= λ rows. pure (RunResult.ended "stop" rows)
  attempt_mode RunMode.terminate request plan =
      lifecycle o plan true >>= λ rows. pure (RunResult.ended "terminate" rows)
  attempt_mode _ request plan = apply_mode request plan

  abbrev pub clean : OnError → DeploymentPlan → Exec (Unit {0})
  clean OnError.leave_running plan = done
  clean OnError.stop_created plan = cleanup_created o plan false
  clean OnError.terminate_created plan = cleanup_created o plan true

  -- Its `except`.
  unfoldable pub recover : RunRequest → DeploymentPlan → Error → Exec RunResult
  unfolding record_status cleanup_created event
  recover request plan e = event o plan.run_id "error" e.message none Payload.without >>= λ _.
      record_status plan request.mode "failed" >>= λ _. clean request.on_error plan >>= λ _. raise e

  -- The `try` statement.
  unfoldable pub guarded : RunRequest → DeploymentPlan → Exec RunResult
  unfolding attempt_mode recover
  guarded request plan = attempt (attempt_mode request.mode request plan) (recover request plan)

  unfoldable pub run_plan : RunRequest → DeploymentPlan → Exec RunResult
  unfolding reconcile_managed_pods record_status guarded
  run_plan request plan = reconcile_managed_pods o none >>= λ pods.
      record_status plan request.mode "started" >>= λ _. guarded request plan

  unfoldable pub run : Ambient → TemplateResolver → RunRequest → Exec RunResult
  unfolding validate_deployment build run_plan
  run ambient resolver request =
      lift (validate_deployment request.deployment request.mode true request.api_key)
      >>= λ warnings.
          lift (
            build ambient resolver request.deployment request.mode request.prompt
              request.workflow_graph)
          >>= λ plan. run_plan request plan
