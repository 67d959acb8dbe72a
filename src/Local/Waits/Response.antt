-- ===== src/Local/Waits/Response.antt =====
-- local_runtime.py: what the loop that reads a file of a container returns.
use comfyui_runpod_agentic_n.Base.{
  ℕ, zero, suc, ◌+◌, ltb, leb, String, true, ◌&&◌, ◌≡◌, Option, none, some, List, [], ◌∷◌, arith,
  is_zero, is_empty, value_or, inl, inr, Bool-cases, if◌then◌else◌,
}
use comfyui_runpod_agentic_n.Base.Result.{Error, Result, ok, err}
use comfyui_runpod_agentic_n.Local.{ReadResult, local_runtime_command}
use comfyui_runpod_agentic_n.Local.Host.{
  Step, Host, Local, Completed, tell, look, on_option, on_result, run_process,
}
use comfyui_runpod_agentic_n.Local.Containers.{find_container, find_project_container}
use comfyui_runpod_agentic_n.Remote.Exec.{returned}
use comfyui_runpod_agentic_n.Local.Ensures.{
  Holds-returned, Ensures, Ensures-pure, Ensures-if, Ensures-bind, Ensures-bind_through,
}
use comfyui_runpod_agentic_n.Local.Waits.{
  Seen, seen_nothing, read_timed_out, Round, search, read_logs, on_round, rounds,
  wait_until_deadline, stopped_round, read_outcome, running_round, read_round,
  read_local_runtime_file, logs_are_complete, response_is_ready, requires_ready_response,
}

module _ {A B : Type 0} (P : B → Type 0) where
  on_option-Ensures :
      (o : Option A) (m : Local B) (f : A → Local B)
      → Ensures P m
      → ((a : A) → Ensures P (f a))
      → Ensures P (on_option o m f)
  unfolding on_option
  on_option-Ensures none m f p e = p
  on_option-Ensures (some a) m f p e = e a

  on_result-Ensures :
      (r : Result A) (m : Error → Local B) (f : A → Local B)
      → ((x : Error) → Ensures P (m x))
      → ((a : A) → Ensures P (f a))
      → Ensures P (on_result r m f)
  unfolding on_result
  on_result-Ensures (err x) m f p e = p x
  on_result-Ensures (ok a) m f p e = e a

-- A result that claims success on the path of a response has the text of a complete response.
abbrev pub IsComplete : String → ReadResult → Type 0
IsComplete path result =
    requires_ready_response path ≡ true
    → is_zero result.returncode ≡ true
    → response_is_ready path result.stdout ≡ true

module _ (host : Host) (engine project_name role path : String) where
  -- A round that returns, returns such a result.
  abbrev StopsComplete : Round host engine project_name role → Type 0
  StopsComplete (Round.stops result) = IsComplete path result
  StopsComplete (Round.goes_on seen) = Unit

  stopped_round-Ensures :
      (seen : Seen host engine project_name role)
      → Ensures StopsComplete (stopped_round host engine project_name role path seen)
  unfolding stopped_round
  stopped_round-Ensures seen =
      Ensures-bind StopsComplete (find_project_container host engine project_name role none) _
        λ stopped.
          on_option-Ensures StopsComplete stopped _ _ (Ensures-pure StopsComplete _ tt) λ id.
            Ensures-bind StopsComplete (read_logs host engine project_name role id) _
              λ logs. Ensures-pure StopsComplete _ (λ r z. absurd (cc))

  read_outcome-StopsComplete :
      (id : String) (command : List String) (completed : Completed) (logs : ReadResult)
      → StopsComplete (read_outcome host engine project_name role path id command completed logs)
  unfolding read_outcome
  read_outcome-StopsComplete id command completed logs =
      elim (Bool-cases (is_zero logs.returncode && logs_are_complete logs.stdout)) [
        | inl e ↦ rw e (elim (Bool-cases (requires_ready_response path)) [
          | inl r ↦ rw r tt
          | inr r ↦ rw r (λ q z. absurd (cc))
        ])
        | inr e ↦ rw e tt
      ]

  running_round-Ensures :
      (timeout : ℕ) (seen : Seen host engine project_name role) (id : String)
      → Ensures StopsComplete (running_round host engine project_name role path timeout seen id)
  unfolding running_round
  running_round-Ensures timeout seen id =
      on_result-Ensures StopsComplete
        (local_runtime_command host.tools engine ("exec" ∷ id ∷ "cat" ∷ path ∷ [])) _ _
        (λ e. Ensures-pure StopsComplete _ (λ r z. absurd (cc)))
        (λ command. Ensures-bind StopsComplete (run_process host command timeout) _ λ completed.
          Ensures-if StopsComplete
            (is_zero completed.returncode && response_is_ready path completed.stdout) _ _
            (λ e. Ensures-pure StopsComplete _ (λ r z. ground arith))
            (λ e. Ensures-bind StopsComplete (read_logs host engine project_name role id) _ λ logs.
              Ensures-pure StopsComplete _ (read_outcome-StopsComplete id command completed logs)))

  read_round-Ensures :
      (timeout : ℕ) (seen : Seen host engine project_name role)
      → Ensures StopsComplete (read_round host engine project_name role path timeout seen)
  unfolding read_round
  read_round-Ensures timeout seen =
      Ensures-bind StopsComplete
        (search host engine project_name role (find_container host engine project_name role none)) _
        λ found.
          on_result-Ensures StopsComplete found _ _
            (λ e. Ensures-pure StopsComplete _ (λ r z. absurd (cc)))
            λ o.
              Ensures-if StopsComplete (is_empty (value_or o "")) _ _
                (λ e. stopped_round-Ensures seen)
                (λ e. running_round-Ensures timeout seen (value_or o ""))

  module _ (P : ReadResult → Type 0)
      (round : Seen host engine project_name role → Local (Round host engine project_name role))
      (last : Seen host engine project_name role → ReadResult)
      (Stops : Round host engine project_name role → Type 0)
      (each : (seen : Seen host engine project_name role) → Ensures Stops (round seen))
      (stop : (result : ReadResult) → Stops (Round.stops result) → P result)
      (finally : (seen : Seen host engine project_name role) → P (last seen)) where
    on_round-Ensures :
        (outcome : Round host engine project_name role)
        (later : Seen host engine project_name role → Local ReadResult)
        → Stops outcome
        → ((seen : Seen host engine project_name role) → Ensures P (later seen))
        → Ensures P (on_round host engine project_name role outcome later)
    unfolding on_round
    on_round-Ensures (Round.stops result) later s e = Ensures-pure P result (stop result s)
    on_round-Ensures (Round.goes_on seen) later s e =
        Ensures-bind P (tell (Step.sleep 1)) (λ _. later seen) (λ _. e seen)

    rounds-Ensures :
        (fuel deadline : ℕ) (seen : Seen host engine project_name role)
        → Ensures P (rounds host engine project_name role round last fuel deadline seen)
    unfolding rounds
    rounds-Ensures zero deadline seen = record { holds = λ h. tt }
    rounds-Ensures (suc fuel) deadline seen =
        Ensures-bind P (look Step.read_clock host.clock) _ λ now.
          Ensures-if P (ltb now deadline) _ _
            (λ e.
              Ensures-bind_through P Stops (round seen)
                (λ outcome.
                  on_round host engine project_name role outcome
                    (rounds host engine project_name role round last fuel deadline))
                (each seen)
                (λ outcome s. on_round-Ensures outcome _ s (rounds-Ensures fuel deadline)))
            (λ e. Ensures-pure P (last seen) (finally seen))

read_local_runtime_file-Ensures :
    (host : Host) (engine project_name role path : String) (timeout : ℕ)
    → Ensures (IsComplete path) (read_local_runtime_file host engine project_name role path timeout)
unfolding read_local_runtime_file wait_until_deadline
read_local_runtime_file-Ensures host engine project_name role path timeout =
    let P = IsComplete path in
    let finally : (seen : Seen host engine project_name role)
        → P (read_timed_out host engine project_name role path seen) =
      λ seen r z. absurd (cc) in
    let at_most_ten = if leb 10 timeout then 10 else timeout in
    Ensures-bind P (look Step.read_clock host.clock) _ λ start.
      rounds-Ensures host engine project_name role path P
        (read_round host engine project_name role path at_most_ten)
        (read_timed_out host engine project_name role path)
        (StopsComplete host engine project_name role path)
        (read_round-Ensures host engine project_name role path at_most_ten) (λ result s. s) finally
        (suc timeout) (start + timeout) (seen_nothing host engine project_name role)

-- Where the path is that of an agent's response, a read that claims success has the text of a complete
-- response, and never the container's logs or a part of the file.
pub read_local_runtime_file-response_is_ready :
    (host : Host) (engine project_name role path : String) (timeout : ℕ) (h h' : List Step)
    (result : ReadResult)
    → read_local_runtime_file host engine project_name role path timeout h ≡ (returned result, h')
    → requires_ready_response path ≡ true
    → is_zero result.returncode ≡ true
    → response_is_ready path result.stdout ≡ true
read_local_runtime_file-response_is_ready host engine project_name role path timeout h h' result e =
    let complete = read_local_runtime_file-Ensures host engine project_name role path timeout in
    Holds-returned (λ r h''. IsComplete path r)
      (read_local_runtime_file host engine project_name role path timeout h) result h'
      (complete.holds h) e
