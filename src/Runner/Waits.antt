-- ===== src/Runner/Waits.antt =====
-- runner.py: the loops that wait. Each runs on fuel, of which it is given a second's worth more than its
-- time allows.
use comfyui_runpod_agentic_n.Base.{
  ℕ, zero, suc, ◌+◌, String, ◌<>◌, Bool, true, false, ◌&&◌, ◌||◌, not, Option, none, some, List, [],
  ◌∷◌, if◌then◌else◌, ◌=ℕ=◌, truthy, nonzero, value_or, text_or, is_empty, ltb, any, is_zero,
}
use comfyui_runpod_agentic_n.Base.Text.{codes, decimal, is_infix, rstrip_slash}
use comfyui_runpod_agentic_n.Base.Result.{Error, ErrorKind, Result, ok, err}
use comfyui_runpod_agentic_n.Specs.Deployment.{SshMode}
use comfyui_runpod_agentic_n.Planner.Plan.{ResourcePlan, DeploymentPlan}
use comfyui_runpod_agentic_n.Planner.Env.{role_text}
use comfyui_runpod_agentic_n.Store.Rows.{Payload}
use comfyui_runpod_agentic_n.Remote.Pod.{
  Pod, Port, seen, pod_ports, has_runtime_ports, is_blank, private_of, public_of, host_of, kind_of,
  is_lower_word,
}
use comfyui_runpod_agentic_n.Remote.Outside.{Call, Outside}
use comfyui_runpod_agentic_n.Remote.Exec.{
  Exec, pure, fail, ask, look, event, monotonic, wait, out_of_fuel, done, on_some, ◌>>=◌, ◌>>◌,
}
use comfyui_runpod_agentic_n.Runner.Endpoints.{public_http_endpoint, readiness_probe_paths}
use comfyui_runpod_agentic_n.Runner.Shell.{shell_env}

abbrev pub Endpoint : Type 0
Endpoint = String × ℕ

abbrev ssh_error : {A : Type 0} → String → Result A
ssh_error message = err (record { kind = ErrorKind.ssh_error; message = message })

-- ssh_client.py: `runpod_proxy_ssh_endpoint`
unfoldable pub runpod_proxy_ssh_endpoint : Pod → Option String → Result Endpoint
runpod_proxy_ssh_endpoint pod suffix =
    if not (truthy (seen pod.id))
    then ssh_error "Runpod proxy SSH requires a pod id."
    else if not (truthy suffix)
    then ssh_error
        "Runpod proxy SSH requires proxy_key_suffix, for example RUNPOD_SSH_PROXY_SUFFIX=64410ecc."
    else ok (value_or (seen pod.id) "" <> ("-" <> (value_or suffix "" <> "@ssh.runpod.io")), 22)

abbrev is_ssh_port : Port → Bool
is_ssh_port port =
    private_of port =ℕ= 22
    && (nonzero (public_of port)
        && (truthy (host_of port)
            && (not (truthy (kind_of port)) || is_lower_word "tcp" (text_or (kind_of port) ""))))

unfoldable pub ssh_endpoint_in : List Port → Result Endpoint
unfolding is_lower_word
ssh_endpoint_in [] = ssh_error "Could not find public TCP mapping for pod SSH port 22."
ssh_endpoint_in (port ∷ rest) =
    if is_ssh_port port
    then ok (value_or (host_of port) "", value_or (public_of port) 0)
    else ssh_endpoint_in rest

-- ssh_client.py: `extract_ssh_endpoint`
unfoldable pub extract_ssh_endpoint : Pod → Result Endpoint
unfolding ssh_endpoint_in
extract_ssh_endpoint pod = ssh_endpoint_in (pod_ports pod)

abbrev is_proxy : SshMode → Bool
is_proxy SshMode.runpod_proxy = true
is_proxy SshMode.internal_sshd = false

-- The proxy's endpoint if that is the mode, or else the one that the pod shows.
unfoldable pub ssh_endpoint : DeploymentPlan → Pod → Result Endpoint
unfolding runpod_proxy_ssh_endpoint extract_ssh_endpoint
ssh_endpoint plan pod = elim (runpod_proxy_ssh_endpoint pod plan.ssh_access.proxy_key_suffix) [
  | ok endpoint ↦ if is_proxy plan.ssh_access.mode then ok endpoint else extract_ssh_endpoint pod
  | err e ↦ extract_ssh_endpoint pod
]

-- `f"{pod_id}"`, where a missing id is empty here.
abbrev pub shown : String → String
shown pod_id = if is_empty pod_id then "None" else pod_id

abbrev pub wants_public : ResourcePlan → Bool
wants_public resource = any (λ p. p.public) resource.ports

abbrev pub is_complete : Option String → Bool
is_complete none = false
is_complete (some text) = is_infix (codes "[crag-agent] complete status=") (codes text)

-- An endpoint is returned, and an exception is remembered.
abbrev pub unless_ok : Result Endpoint → (Error → Exec Endpoint) → Exec Endpoint
unless_ok (ok endpoint) f = pure endpoint
unless_ok (err e) f = f e

module _ (o : Outside) where
  unfoldable pub refreshed : String → Pod → Exec Pod
  refreshed pod_id pod = if is_empty pod_id then pure pod else ask (Call.get_pod pod_id) o.pod

  -- `self.runpod_client.get_pod(pod_id) or pod`
  unfoldable pub refreshed_or : String → Pod → Exec Pod
  unfolding refreshed
  refreshed_or pod_id pod =
      refreshed pod_id pod >>= λ later. pure (if is_blank later then pod else later)

  unfoldable pub wait_endpoint_until :
      (fuel : ℕ) (plan : DeploymentPlan) (pod_id : String) (deadline : ℕ) (last_error : String)
      → Pod
      → Exec Endpoint
  unfolding ssh_endpoint refreshed
  wait_endpoint_until zero plan pod_id deadline last_error pod = out_of_fuel
  wait_endpoint_until (suc fuel) plan pod_id deadline last_error pod = monotonic o >>= λ now.
      if ltb now deadline
      then unless_ok (ssh_endpoint plan pod) (λ e. refreshed pod_id pod >>= λ later.
          wait o 5 >> wait_endpoint_until fuel plan pod_id deadline e.message later)
      else fail
          ("Timed out waiting for SSH endpoint on pod " <> (shown pod_id <> (": " <> last_error)))

  unfoldable pub wait_ssh_endpoint : Pod → DeploymentPlan → Exec Endpoint
  unfolding wait_endpoint_until
  wait_ssh_endpoint pod plan = monotonic o >>= λ now.
      wait_endpoint_until 181 plan (text_or (seen pod.id) "") (now + 180) "None" pod

  unfoldable pub wait_ready_until :
      (fuel : ℕ) (host : String) (port deadline : ℕ) (last_stderr : String) → Exec (Unit {0})
  wait_ready_until zero host port deadline last_stderr = out_of_fuel
  wait_ready_until (suc fuel) host port deadline last_stderr = monotonic o >>= λ now.
      if ltb now deadline
      then (ask (Call.ssh_run host port "true") o.command >>= λ result.
          if is_zero result.exit_code
          then done
          else (wait o 5 >> wait_ready_until fuel host port deadline result.stderr))
      else fail (
          "Timed out waiting for SSH readiness on "
          <> (host <> (":" <> (decimal port <> (": " <> last_stderr)))))

  unfoldable pub wait_ssh_ready : String → ℕ → Exec (Unit {0})
  unfolding wait_ready_until
  wait_ssh_ready host port = monotonic o >>= λ now. wait_ready_until 181 host port (now + 180) ""

  -- `first_ready_probe`: the first path that answers.
  unfoldable pub probe_paths : String → List String → Exec (Option String)
  unfolding rstrip_slash
  probe_paths endpoint [] = pure none
  probe_paths endpoint (path ∷ paths) =
      look (Call.probe (rstrip_slash endpoint <> path)) o.is_ready >>= λ ready.
      if ready then pure (some path) else probe_paths endpoint paths

  -- What the loop sees of a pod that is ready: its payload.
  unfoldable pub readiness : ResourcePlan → Option String → Pod → Exec (Option Payload)
  unfolding probe_paths public_http_endpoint readiness_probe_paths
  readiness resource pod_id pod =
      if wants_public resource
      then on_some (public_http_endpoint pod) (pure none) (λ endpoint.
        probe_paths endpoint (readiness_probe_paths resource.role resource.pod_input.env)
        >>= λ found.
            on_some found (pure none) (λ path. pure (some (Payload.ready pod_id endpoint path))))
      else pure (if has_runtime_ports pod then some (Payload.pod_id pod_id) else none)

  unfoldable pub wait_dependency_until :
      (fuel : ℕ) (resource : ResourcePlan) (run_id resource_id pod_id : String) (deadline : ℕ)
      (last_status : String)
      → Pod
      → Exec Pod
  unfolding readiness refreshed_or event
  wait_dependency_until zero resource run_id resource_id pod_id deadline last_status pod =
      out_of_fuel
  wait_dependency_until (suc fuel) resource run_id resource_id pod_id deadline last_status pod =
      monotonic o >>= λ now.
      if ltb now deadline
      then (readiness resource (if is_empty pod_id then none else some pod_id) pod >>= λ found.
          on_some found
            (refreshed_or pod_id pod >>= λ later.
              wait o 5
              >> wait_dependency_until fuel resource run_id resource_id pod_id deadline
                  (text_or (seen later.desired_status) last_status) later)
            (λ payload.
              event o run_id "dependency_ready" resource.name (some resource_id) payload
              >> pure pod))
      else fail (
          "Timed out after "
          <> (decimal o.dependency_timeout
              <> ("s waiting for dependency "
                  <> (role_text resource.role
                      <> (" pod "
                          <> (shown pod_id
                              <> (" readiness; last status: " <> (last_status <> "."))))))))

  unfoldable pub wait_dependency_ready : ResourcePlan → Pod → String → String → Exec Pod
  unfolding wait_dependency_until
  wait_dependency_ready resource pod run_id resource_id = monotonic o >>= λ now.
      wait_dependency_until (suc o.dependency_timeout) resource run_id resource_id
        (text_or (seen pod.id) "") (now + o.dependency_timeout)
        (text_or (seen pod.desired_status) "unknown") pod

  -- `_read_remote_file`
  unfoldable pub read_remote_file : String → ℕ → String → Exec (Option String)
  unfolding shell_env
  read_remote_file host port path =
      ask
        (Call.ssh_run host port ("test -s " <> (shell_env path <> (" && cat " <> shell_env path))))
        o.command
      >>= λ result. pure (if is_zero result.exit_code then some result.stdout else none)

  unfoldable pub wait_response_until :
      (fuel : ℕ) (run_id host : String) (port : ℕ) (response_path errors_path log_path : String)
      (deadline : ℕ) (last_error : String)
      → Exec (String × String)
  unfolding read_remote_file event
  wait_response_until zero run_id host port response_path errors_path log_path deadline last_error =
      out_of_fuel
  wait_response_until (suc fuel) run_id host port response_path errors_path log_path deadline
        last_error =
      monotonic o >>= λ now.
      if ltb now deadline
      then (read_remote_file host port response_path >>= λ response.
          read_remote_file host port errors_path >>= λ errors.
          on_some response
            (read_remote_file host port log_path >>= λ log_text.
              if is_complete log_text
              then (event o run_id "agent_log_collected" log_path none Payload.without
                  >> pure ("", text_or errors ""))
              else (wait o 2
                  >> wait_response_until fuel run_id host port response_path errors_path log_path
                      deadline (text_or errors last_error)))
            (λ text.
              event o run_id "agent_response_collected" response_path none Payload.without
              >> pure (text, text_or errors "")))
      else (event o run_id "agent_response_timeout" response_path none
            (Payload.timeout o.response_timeout)
          >> pure ("", last_error))

  unfoldable pub wait_response :
      (run_id host : String) (port : ℕ) (response_path errors_path log_path : String)
      → Exec (String × String)
  unfolding wait_response_until
  wait_response run_id host port response_path errors_path log_path = monotonic o >>= λ now.
      wait_response_until (suc o.response_timeout) run_id host port response_path errors_path
        log_path (now + o.response_timeout) ""
