-- ===== src/Runner/Termination.antt =====
-- The waiting loops of runner.py come to an end before their fuel does.
use comfyui_runpod_agentic_n.Base.{
  ℕ, zero, suc, ◌+◌, ◌≤◌, String, Option, none, some, List, [], ◌∷◌, arith, Bool-cases, inl, inr,
  text_or, is_zero, is_empty,
}
use comfyui_runpod_agentic_n.Base.Result.{Error, Result, ok, err}
use comfyui_runpod_agentic_n.Planner.Plan.{ResourcePlan, DeploymentPlan}
use comfyui_runpod_agentic_n.Remote.Pod.{Pod, seen}
use comfyui_runpod_agentic_n.Remote.Outside.{Call, Outside}
use comfyui_runpod_agentic_n.Remote.Exec.{World, Exec, pure, ask, ◌>>=◌}
use comfyui_runpod_agentic_n.Remote.Timed.{
  HasClock, IsTimed, IsTimedAt, pure-IsTimed, raise-IsTimed, look-IsTimed, ask-IsTimed,
  bind-IsTimed, if-IsTimed, event-IsTimed, bind-IsTimedAt, wait-IsTimedAt, on_some-IsTimed,
  on_some-IsTimedAt, round-IsTimedAt,
}
use comfyui_runpod_agentic_n.Runner.Endpoints.{public_http_endpoint}
use comfyui_runpod_agentic_n.Runner.Waits.{
  Endpoint, wait_ready_until, wait_ssh_ready, refreshed, refreshed_or, wait_endpoint_until,
  wait_ssh_endpoint, ssh_endpoint, unless_ok, probe_paths, readiness, wait_dependency_until,
  wait_dependency_ready, read_remote_file, wait_response_until, wait_response, wants_public,
  is_complete,
}

module _ (o : Outside) (clock : HasClock o) where
  wait_ready_until-IsTimedAt :
      (fuel : ℕ) (host : String) (port deadline : ℕ) (last_stderr : String) (w : World)
      → deadline ≤ o.clock w.history + fuel
      → IsTimedAt o (wait_ready_until o (suc fuel) host port deadline last_stderr) w
  unfolding wait_ready_until
  wait_ready_until-IsTimedAt zero host port deadline last_stderr w h =
      round-IsTimedAt o clock deadline _ _ w (λ v moved before. absurd (omega arith))
        (raise-IsTimed o _)
  wait_ready_until-IsTimedAt (suc fuel) host port deadline last_stderr w h =
      round-IsTimedAt o clock deadline _ _ w
        (λ v moved before.
          bind-IsTimedAt o _ _ v (ask-IsTimed o clock (Call.ssh_run host port "true") o.command)
            λ result u later. elim (Bool-cases (is_zero result.exit_code)) [
              | inl e ↦ rw e (pure-IsTimed o tt u)
              | inr e ↦ rw e (
                  wait-IsTimedAt o clock 5 _ u λ x passed.
                    wait_ready_until-IsTimedAt fuel host port deadline result.stderr x
                      (omega arith))
            ])
        (raise-IsTimed o _)

  pub wait_ssh_ready-IsTimed : (host : String) (port : ℕ) → IsTimed o (wait_ssh_ready o host port)
  unfolding wait_ssh_ready ◌>>=◌
  wait_ssh_ready-IsTimed host port w =
      let v : World = record { tables = w.tables; history = Call.read_clock ∷ w.history } in
      let r =
        wait_ready_until-IsTimedAt 180 host port (o.clock v.history + 180) "" v (omega arith) in
      record { ends = r.ends; time = omega (arith, r.time, clock w.history Call.read_clock) }

  refreshed-IsTimed : (pod_id : String) (pod : Pod) → IsTimed o (refreshed o pod_id pod)
  unfolding refreshed
  refreshed-IsTimed pod_id pod =
      if-IsTimed o (is_empty pod_id) (pure pod) (ask (Call.get_pod pod_id) o.pod)
        (pure-IsTimed o pod) (ask-IsTimed o clock (Call.get_pod pod_id) o.pod)

  refreshed_or-IsTimed : (pod_id : String) (pod : Pod) → IsTimed o (refreshed_or o pod_id pod)
  unfolding refreshed_or
  refreshed_or-IsTimed pod_id pod =
      bind-IsTimed o (refreshed o pod_id pod) _ (refreshed-IsTimed pod_id pod)
        λ later. pure-IsTimed o _

  unless_ok-IsTimedAt :
      (r : Result Endpoint) (f : Error → Exec Endpoint) (w : World)
      → ((e : Error) → IsTimedAt o (f e) w)
      → IsTimedAt o (unless_ok r f) w
  unless_ok-IsTimedAt (ok endpoint) f w t = pure-IsTimed o endpoint w
  unless_ok-IsTimedAt (err e) f w t = t e

  wait_endpoint_until-IsTimedAt :
      (fuel : ℕ) (plan : DeploymentPlan) (pod_id : String) (deadline : ℕ) (last_error : String)
      (pod : Pod) (w : World)
      → deadline ≤ o.clock w.history + fuel
      → IsTimedAt o (wait_endpoint_until o (suc fuel) plan pod_id deadline last_error pod) w
  unfolding wait_endpoint_until
  wait_endpoint_until-IsTimedAt zero plan pod_id deadline last_error pod w h =
      round-IsTimedAt o clock deadline _ _ w (λ v moved before. absurd (omega arith))
        (raise-IsTimed o _)
  wait_endpoint_until-IsTimedAt (suc fuel) plan pod_id deadline last_error pod w h =
      round-IsTimedAt o clock deadline _ _ w
        (λ v moved before. unless_ok-IsTimedAt (ssh_endpoint plan pod) _ v λ e.
          bind-IsTimedAt o _ _ v (refreshed-IsTimed pod_id pod) λ later u past.
            wait-IsTimedAt o clock 5 _ u λ x passed.
              wait_endpoint_until-IsTimedAt fuel plan pod_id deadline e.message later x
                (omega arith))
        (raise-IsTimed o _)

  pub wait_ssh_endpoint-IsTimed :
      (pod : Pod) (plan : DeploymentPlan) → IsTimed o (wait_ssh_endpoint o pod plan)
  unfolding wait_ssh_endpoint ◌>>=◌
  wait_ssh_endpoint-IsTimed pod plan w =
      let v : World = record { tables = w.tables; history = Call.read_clock ∷ w.history } in
      let r =
        wait_endpoint_until-IsTimedAt 180 plan (text_or (seen pod.id) "") (o.clock v.history + 180)
          "None" pod v (omega arith) in
      record { ends = r.ends; time = omega (arith, r.time, clock w.history Call.read_clock) }

  probe_paths-IsTimed :
      (endpoint : String) (paths : List String) → IsTimed o (probe_paths o endpoint paths)
  unfolding probe_paths
  probe_paths-IsTimed endpoint [] = pure-IsTimed o none
  probe_paths-IsTimed endpoint (path ∷ paths) =
      bind-IsTimed o _ _ (look-IsTimed o clock _ o.is_ready) λ ready.
        if-IsTimed o ready _ _ (pure-IsTimed o (some path)) (probe_paths-IsTimed endpoint paths)

  readiness-IsTimed :
      (resource : ResourcePlan) (pod_id : Option String) (pod : Pod)
      → IsTimed o (readiness o resource pod_id pod)
  unfolding readiness
  readiness-IsTimed resource pod_id pod =
      if-IsTimed o (wants_public resource) _ _
        (on_some-IsTimed o (public_http_endpoint pod) _ _ (pure-IsTimed o none) λ endpoint.
          bind-IsTimed o _ _ (probe_paths-IsTimed endpoint _)
            λ found. on_some-IsTimed o found _ _ (pure-IsTimed o none) λ path. pure-IsTimed o _)
        (pure-IsTimed o _)

  wait_dependency_until-IsTimedAt :
      (fuel : ℕ) (resource : ResourcePlan) (run_id resource_id pod_id : String) (deadline : ℕ)
      (last_status : String) (pod : Pod) (w : World)
      → deadline ≤ o.clock w.history + fuel
      → IsTimedAt o
          (wait_dependency_until o
            (suc fuel)
            resource
            run_id
            resource_id
            pod_id
            deadline
            last_status
            pod)
          w
  unfolding wait_dependency_until
  wait_dependency_until-IsTimedAt zero resource run_id resource_id pod_id deadline last_status pod w
        h =
      round-IsTimedAt o clock deadline _ _ w (λ v moved before. absurd (omega arith))
        (raise-IsTimed o _)
  wait_dependency_until-IsTimedAt (suc fuel) resource run_id resource_id pod_id deadline last_status
        pod w h =
      round-IsTimedAt o clock deadline _ _ w
        (λ v moved before. bind-IsTimedAt o _ _ v (readiness-IsTimed resource _ pod) λ found u past.
          on_some-IsTimedAt o found _ _ u
            (bind-IsTimedAt o _ _ u (refreshed_or-IsTimed pod_id pod) λ later x gone.
              wait-IsTimedAt o clock 5 _ x λ y passed.
                wait_dependency_until-IsTimedAt fuel resource run_id resource_id pod_id deadline
                  (text_or (seen later.desired_status) last_status) later y (omega arith))
            (λ payload.
              bind-IsTimed o _ _ (event-IsTimed o clock run_id _ _ _ payload)
                (λ _. pure-IsTimed o pod) u))
        (raise-IsTimed o _)

  pub wait_dependency_ready-IsTimed :
      (resource : ResourcePlan) (pod : Pod) (run_id resource_id : String)
      → IsTimed o (wait_dependency_ready o resource pod run_id resource_id)
  unfolding wait_dependency_ready ◌>>=◌
  wait_dependency_ready-IsTimed resource pod run_id resource_id w =
      let v : World = record { tables = w.tables; history = Call.read_clock ∷ w.history } in
      let r =
        wait_dependency_until-IsTimedAt o.dependency_timeout resource run_id resource_id
          (text_or (seen pod.id) "") (o.clock v.history + o.dependency_timeout)
          (text_or (seen pod.desired_status) "unknown") pod v (omega arith) in
      record { ends = r.ends; time = omega (arith, r.time, clock w.history Call.read_clock) }

  read_remote_file-IsTimed :
      (host : String) (port : ℕ) (path : String) → IsTimed o (read_remote_file o host port path)
  unfolding read_remote_file
  read_remote_file-IsTimed host port path =
      bind-IsTimed o _ _ (ask-IsTimed o clock _ o.command) λ result. pure-IsTimed o _

  wait_response_until-IsTimedAt :
      (fuel : ℕ) (run_id host : String) (port : ℕ) (response_path errors_path log_path : String)
      (deadline : ℕ) (last_error : String) (w : World)
      → deadline ≤ o.clock w.history + fuel
      → IsTimedAt o
          (wait_response_until o
            (suc fuel)
            run_id
            host
            port
            response_path
            errors_path
            log_path
            deadline
            last_error)
          w
  unfolding wait_response_until
  wait_response_until-IsTimedAt zero run_id host port response_path errors_path log_path deadline
        last_error w h =
      round-IsTimedAt o clock deadline _ _ w (λ v moved before. absurd (omega arith))
        (bind-IsTimed o _ _ (event-IsTimed o clock run_id _ _ _ _) λ _. pure-IsTimed o _)
  wait_response_until-IsTimedAt (suc fuel) run_id host port response_path errors_path log_path
        deadline last_error w h =
      round-IsTimedAt o clock deadline _ _ w
        (λ v moved before.
          bind-IsTimedAt o _ _ v (read_remote_file-IsTimed host port response_path)
            λ response u past.
              bind-IsTimedAt o _ _ u (read_remote_file-IsTimed host port errors_path)
                λ errors x gone.
                  on_some-IsTimedAt o response _ _ x
                    (bind-IsTimedAt o _ _ x (read_remote_file-IsTimed host port log_path)
                      λ log_text y more. elim (Bool-cases (is_complete log_text)) [
                        | inl e ↦ rw e (
                            bind-IsTimed o _ _ (event-IsTimed o clock run_id _ _ _ _)
                              (λ _. pure-IsTimed o _) y)
                        | inr e ↦ rw e (
                            wait-IsTimedAt o clock 2 _ y λ z passed.
                              wait_response_until-IsTimedAt fuel run_id host port response_path
                                errors_path log_path deadline (text_or errors last_error) z
                                (omega arith))
                      ])
                    (λ text.
                      bind-IsTimed o _ _ (event-IsTimed o clock run_id _ _ _ _)
                        (λ _. pure-IsTimed o _) x))
        (bind-IsTimed o _ _ (event-IsTimed o clock run_id _ _ _ _) λ _. pure-IsTimed o _)

  pub wait_response-IsTimed :
      (run_id host : String) (port : ℕ) (response_path errors_path log_path : String)
      → IsTimed o (wait_response o run_id host port response_path errors_path log_path)
  unfolding wait_response ◌>>=◌
  wait_response-IsTimed run_id host port response_path errors_path log_path w =
      let v : World = record { tables = w.tables; history = Call.read_clock ∷ w.history } in
      let r =
        wait_response_until-IsTimedAt o.response_timeout run_id host port response_path errors_path
          log_path (o.clock v.history + o.response_timeout) "" v (omega arith) in
      record { ends = r.ends; time = omega (arith, r.time, clock w.history Call.read_clock) }
