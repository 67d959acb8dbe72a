-- ===== src/Local/Waits/Ends.antt =====
-- local_runtime.py: the waiting loops come to an outcome, at their deadline at the latest.
use comfyui_runpod_agentic_n.Base.{
  ℕ, zero, suc, ◌+◌, ◌≤◌, ltb, String, ◌<>◌, true, ◌&&◌, Option, none, some, List, [], ◌∷◌, ◌≡◌,
  refl, arith, if◌then◌else◌, is_zero, is_empty, value_or, inl, inr, Bool-cases,
}
use comfyui_runpod_agentic_n.Planner.Plan.{DeploymentPlan}
use comfyui_runpod_agentic_n.Remote.Exec.{Outcome, returned, raised, unfinished}
use comfyui_runpod_agentic_n.Remote.Timed.{finished}
use comfyui_runpod_agentic_n.Local.{ReadResult, local_runtime_command}
use comfyui_runpod_agentic_n.Local.Compose.{local_resource_desired_hash}
use comfyui_runpod_agentic_n.Local.Apply.{agent_resource_of}
use comfyui_runpod_agentic_n.Local.Text.{safe_project}
use comfyui_runpod_agentic_n.Local.Host.{Step, Host, Local, pure, tell, look, run_process, ◌>>=◌}
use comfyui_runpod_agentic_n.Local.Containers.{find_container, find_project_container}
use comfyui_runpod_agentic_n.Local.Timed.{
  HasClock, Ends, EndsAt, pure-Ends, if-Ends, run_process-Ends, bind-Ends, look-EndsAt, tell-EndsAt,
  bind-EndsAt, result-EndsAt, on_option-Ends, on_result-Ends,
}
use comfyui_runpod_agentic_n.Local.Waits.{
  Seen, read_timed_out, seen_nothing, Round, search, searched, read_logs, on_round, rounds,
  wait_until_deadline, startup_round, stopped_round, running_round, read_round, copy_outcome,
  copy_round, read_local_runtime_file, copy_local_runtime_file, wait_startup_complete,
  wait_startup_from, startup_timed_out, is_runtime, logs_are_complete, response_is_ready,
}
use comfyui_runpod_agentic_n.Local.Containers.Ends.{
  find_container-Ends, find_project_container-Ends,
}

module _ (host : Host) (clock : HasClock host) where
  module _ (engine project_name role : String) where
    read_logs-Ends :
        (container_id : String) → Ends host (read_logs host engine project_name role container_id)
    unfolding read_logs
    read_logs-Ends container_id =
        on_result-Ends host (local_runtime_command host.tools engine ("logs" ∷ container_id ∷ [])) _
          _ (λ e. pure-Ends host _)
          (λ command.
            bind-Ends host (run_process host command 30) _ (run_process-Ends host clock command 30)
              (λ completed. pure-Ends host _))

    searched-Ends :
        (h : List Step) (r : Outcome (Option String) × List Step)
        → finished r.0 ≡ true
        → host.clock h ≤ host.clock r.1
        → (finished (searched host engine project_name role r).0 ≡ true)
          × (host.clock h ≤ host.clock (searched host engine project_name role r).1)
    searched-Ends h (returned a, h') p q = (refl, q)
    searched-Ends h (raised e, h') p q =
        elim (Bool-cases (is_runtime host engine project_name role e.kind)) [
          | inl b ↦ rw b (refl, q)
          | inr b ↦ rw b (refl, q)
        ]
    searched-Ends h (unfinished, h') p q = absurd (ground arith)

    search-Ends :
        (m : Local (Option String))
        → Ends host m
        → Ends host (search host engine project_name role m)
    unfolding search
    search-Ends m e = record {
      at = λ h.
          let r = searched-Ends h (m h) (e.at h).ends (e.at h).time in
          record { ends = r.0; time = r.1 };
    }

    stopped_round-Ends :
        (path : String) (seen : Seen host engine project_name role)
        → Ends host (stopped_round host engine project_name role path seen)
    unfolding stopped_round
    stopped_round-Ends path seen =
        bind-Ends host (find_project_container host engine project_name role none) _
          (find_project_container-Ends host clock engine project_name role none)
          λ stopped. on_option-Ends host stopped _ _ (pure-Ends host _) λ id.
            bind-Ends host (read_logs host engine project_name role id) _ (read_logs-Ends id)
              λ logs. pure-Ends host _

    running_round-Ends :
        (path : String) (timeout : ℕ) (seen : Seen host engine project_name role) (id : String)
        → Ends host (running_round host engine project_name role path timeout seen id)
    unfolding running_round
    running_round-Ends path timeout seen id =
        on_result-Ends host
          (local_runtime_command host.tools engine ("exec" ∷ id ∷ "cat" ∷ path ∷ [])) _ _
          (λ e. pure-Ends host _)
          (λ command.
            bind-Ends host (run_process host command timeout) _
              (run_process-Ends host clock command timeout)
              λ completed.
                if-Ends host
                  (is_zero completed.returncode && response_is_ready path completed.stdout) _ _
                  (pure-Ends host _)
                  (bind-Ends host (read_logs host engine project_name role id) _ (read_logs-Ends id)
                    (λ logs. pure-Ends host _)))

    read_round-Ends :
        (path : String) (timeout : ℕ) (seen : Seen host engine project_name role)
        → Ends host (read_round host engine project_name role path timeout seen)
    unfolding read_round
    read_round-Ends path timeout seen =
        bind-Ends host
          (search host engine project_name role (find_container host engine project_name role none))
          _ (search-Ends _ (find_container-Ends host clock engine project_name role none))
          λ found.
            on_result-Ends host found _ _ (λ e. pure-Ends host _)
              λ o.
                if-Ends host (is_empty (value_or o "")) _ _ (stopped_round-Ends path seen)
                  (running_round-Ends path timeout seen (value_or o ""))

    copy_outcome-Ends :
        (path target id : String) (timeout : ℕ) (test_command command : List String)
        → Ends host
            (copy_outcome host engine project_name role path target id timeout test_command command)
    unfolding copy_outcome
    copy_outcome-Ends path target id timeout test_command command =
        bind-Ends host (run_process host test_command _) _
          (run_process-Ends host clock test_command _)
          λ tested.
            if-Ends host (is_zero tested.returncode) _ _
              (bind-Ends host (run_process host command _) _ (run_process-Ends host clock command _)
                (λ copied. pure-Ends host _))
              (pure-Ends host _)

    copy_round-Ends :
        (path target : String) (timeout : ℕ) (seen : Seen host engine project_name role)
        → Ends host (copy_round host engine project_name role path target timeout seen)
    unfolding copy_round
    copy_round-Ends path target timeout seen =
        bind-Ends host
          (search host engine project_name role (find_container host engine project_name role none))
          _ (search-Ends _ (find_container-Ends host clock engine project_name role none))
          λ found.
            on_result-Ends host found _ _ (λ e. pure-Ends host _)
              λ o. if-Ends host (is_empty (value_or o "")) _ _ (pure-Ends host _) (
                on_result-Ends host _ _ _ (λ e. pure-Ends host _)
                  λ test_command.
                    on_result-Ends host _ _ _ (λ e. pure-Ends host _)
                      (copy_outcome-Ends path target (value_or o "") timeout test_command))

    startup_round-Ends :
        (hash : String) (seen : Seen host engine project_name role)
        → Ends host (startup_round host engine project_name role hash seen)
    unfolding startup_round
    startup_round-Ends hash seen =
        bind-Ends host (find_container host engine project_name role (some hash)) _
          (find_container-Ends host clock engine project_name role (some hash))
          λ o. if-Ends host (is_empty (value_or o "")) _ _ (pure-Ends host _) (
            bind-Ends host (read_logs host engine project_name role (value_or o "")) _
              (read_logs-Ends (value_or o ""))
              λ logs.
                if-Ends host (is_zero logs.returncode && logs_are_complete logs.stdout) _ _
                  (pure-Ends host _) (pure-Ends host _))

    module _
        (round : Seen host engine project_name role → Local (Round host engine project_name role))
        (last : Seen host engine project_name role → ReadResult)
        (each : (seen : Seen host engine project_name role) → Ends host (round seen)) where
      on_round-EndsAt :
          (outcome : Round host engine project_name role)
          (later : Seen host engine project_name role → Local ReadResult) (h : List Step)
          → ((seen : Seen host engine project_name role) (h' : List Step)
              → host.clock h + 1 ≤ host.clock h'
              → EndsAt host (later seen) h')
          → EndsAt host (on_round host engine project_name role outcome later) h
      unfolding on_round
      on_round-EndsAt (Round.stops result) later h e = (pure-Ends host result).at h
      on_round-EndsAt (Round.goes_on seen) later h e =
          tell-EndsAt host clock (Step.sleep 1) (λ _. later seen) h
            (e seen (Step.sleep 1 ∷ h) (clock h (Step.sleep 1)))

      -- One more round, if the rounds after it come to an outcome a second later.
      round-EndsAt :
          (deadline : ℕ) (seen : Seen host engine project_name role)
          (later : Seen host engine project_name role → Local ReadResult) (h : List Step)
          → ((seen : Seen host engine project_name role) (h' : List Step)
              → host.clock h + 1 ≤ host.clock h'
              → host.clock h + 1 ≤ deadline
              → EndsAt host (later seen) h')
          → EndsAt host
              (look Step.read_clock host.clock >>= λ now.
                if ltb now deadline
                then (round seen >>= λ outcome.
                    on_round host engine project_name role outcome later)
                else pure (last seen))
              h
      round-EndsAt deadline seen later h e =
          let h1 = Step.read_clock ∷ h in
          let now = host.clock h1 in
          let read = clock h Step.read_clock in
          let passed = (each seen).at h1 in
          let more : ltb now deadline ≡ true → host.clock h + 1 ≤ deadline = λ b. ground arith in
          look-EndsAt host clock Step.read_clock host.clock _ h
            (elim (Bool-cases (ltb now deadline)) [
              | inl b ↦ rw b (
                  bind-EndsAt host (round seen)
                    (λ outcome. on_round host engine project_name role outcome later) h1 passed
                    (λ outcome.
                      on_round-EndsAt outcome later (round seen h1).1
                        (λ seen' h' moved. e seen' h' (omega (arith, passed.time)) (more b))))
              | inr b ↦ rw b ((pure-Ends host (last seen)).at h1)
            ])

      rounds-EndsAt :
          (fuel deadline : ℕ) (seen : Seen host engine project_name role) (h : List Step)
          → deadline ≤ host.clock h + fuel
          → EndsAt host (rounds host engine project_name role round last (suc fuel) deadline seen) h
      unfolding rounds
      rounds-EndsAt zero deadline seen h d =
          round-EndsAt deadline seen _ h (λ seen' h' moved before. absurd (omega arith))
      rounds-EndsAt (suc fuel) deadline seen h d =
          round-EndsAt deadline seen _ h
            (λ seen' h' moved before. rounds-EndsAt fuel deadline seen' h' (omega arith))

      pub wait_until_deadline-Ends :
          (timeout : ℕ)
          → Ends host (wait_until_deadline host engine project_name role round last timeout)
      unfolding wait_until_deadline
      wait_until_deadline-Ends timeout = record {
        at = λ h.
            look-EndsAt host clock Step.read_clock host.clock
              (λ start.
                rounds host engine project_name role round last (suc timeout) (start + timeout)
                  (seen_nothing host engine project_name role))
              h
              (rounds-EndsAt timeout (host.clock (Step.read_clock ∷ h) + timeout)
                (seen_nothing host engine project_name role) (Step.read_clock ∷ h) (omega arith));
      }

    -- Reading a file of a container comes to a result or an exception, whatever the engine answers, where
    -- the clock is monotonic and a sleep moves it on.
    pub read_local_runtime_file-Ends :
        (path : String) (timeout : ℕ)
        → Ends host (read_local_runtime_file host engine project_name role path timeout)
    unfolding read_local_runtime_file
    read_local_runtime_file-Ends path timeout =
        wait_until_deadline-Ends _ _ (read_round-Ends path _) timeout

    -- The same holds of copying a file out of a container.
    pub copy_local_runtime_file-Ends :
        (path : String) (timeout : ℕ)
        → Ends host (copy_local_runtime_file host engine project_name role path timeout)
    unfolding copy_local_runtime_file
    copy_local_runtime_file-Ends path timeout = record {
      at = λ h.
          let folder = "artifacts/local-runtime/" <> (safe_project project_name <> "/files") in
          let round =
            copy_round host engine project_name role path (folder <> ("/" <> host.base_name path))
              timeout in
          let last = read_timed_out host engine project_name role path in
          let nothing = seen_nothing host engine project_name role in
          let h1 = Step.read_clock ∷ h in
          let h2 = Step.make_directory folder ∷ h1 in
          let loop : ℕ → Local ReadResult = λ start.
            rounds host engine project_name role round last (suc timeout) (start + timeout)
              nothing in
          look-EndsAt host clock Step.read_clock host.clock
            (λ start. tell (Step.make_directory folder) >>= λ _. loop start) h
            (tell-EndsAt host clock (Step.make_directory folder) (λ _. loop (host.clock h1)) h1
              (rounds-EndsAt round last (copy_round-Ends path _ timeout) timeout
                (host.clock h1 + timeout) nothing h2
                (omega (arith, clock h1 (Step.make_directory folder)))));
    }

  pub wait_startup_complete-Ends :
      (engine project_name : String) (plan : DeploymentPlan) (timeout : ℕ)
      → Ends host (wait_startup_complete host engine project_name plan timeout)
  unfolding wait_startup_complete wait_startup_from
  wait_startup_complete-Ends engine project_name plan timeout = record {
    at = λ h.
        let h1 = Step.read_clock ∷ h in
        look-EndsAt host clock Step.read_clock host.clock
          (wait_startup_from host engine project_name plan timeout) h
          (result-EndsAt host (agent_resource_of plan) _ h1 λ agent.
            result-EndsAt host (local_resource_desired_hash host.setting agent plan) _ h1 λ hash.
              rounds-EndsAt engine project_name "agent"
                (startup_round host engine project_name "agent" hash)
                (startup_timed_out host engine project_name "agent")
                (startup_round-Ends engine project_name "agent" hash) timeout
                (host.clock h1 + timeout) (seen_nothing host engine project_name "agent") h1
                (omega arith));
  }
