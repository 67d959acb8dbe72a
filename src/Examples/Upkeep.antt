-- ===== src/Examples/Upkeep.antt =====
-- The SSH client and the upkeep of pods at concrete inputs.
use comfyui_runpod_agentic_n.Base.{
  String, ◌<>◌, none, some, List, [], ◌∷◌, map, ◌≡◌, refl, ◌↔◌, pos, is_zero, true, select, ◌=ℕ=◌,
  if◌then◌else◌,
}
use comfyui_runpod_agentic_n.Base.Result.{Result, ok, err, is_ok, runpod_client_error}
use comfyui_runpod_agentic_n.Specs.{LimitAction}
use comfyui_runpod_agentic_n.Remote.Pod.{Pod, empty_pod, held}
use comfyui_runpod_agentic_n.Ssh.{
  SshConfig, Process, Finish, System, exited, timed_out, run, run_process, write_process,
  write_file, shell_quote,
}
use comfyui_runpod_agentic_n.Ssh.Laws.{Succeeded, run_iff, write_file_iff}
use comfyui_runpod_agentic_n.Maintenance.{
  Call, end_pod, sleep, has_name, id_of, cleanup_managed_pods, apply_runpod_lifecycle,
}
use comfyui_runpod_agentic_n.Maintenance.Laws.{
  affected_of, ended, calls_in, IsTried, cleanup_managed_pods_lem, apply_runpod_lifecycle-IsTried,
}

abbrev config : SshConfig
config = record {
  username = "root";
  private_key_path = "~/.ssh/id_ed25519";
  connect_timeout_seconds = 120;
  command_timeout_seconds = 1800;
}

-- The first process exits with zero, and every later one runs out of time.
abbrev finish : List Process → Finish
finish (p ∷ []) = exited (pos 0) "done" ""
finish _ = timed_out none none

abbrev system : System
system = record { finish = finish; expand = λ path. path; parent = λ path. "/workspace" }

run_iff_example :
    (is_zero (run system config "10.0.0.1" 22 "ls" none []).0.exit_code ≡ true)
    ↔ Succeeded (finish (run_process system config "10.0.0.1" 22 "ls" none ∷ []))
run_iff_example = run_iff system config "10.0.0.1" 22 "ls" none []

write_file_iff_example :
    (is_ok (write_file system config "pod-1@ssh.runpod.io" 22 "/workspace/a" "text" []).0 ≡ true)
    ↔ (let mkdir =
          run_process system config "pod-1@ssh.runpod.io" 22
            ("mkdir -p " <> shell_quote "/workspace")
            none in
        let write = write_process system config "pod-1@ssh.runpod.io" 22 "/workspace/a" "text" in
        Succeeded (finish (mkdir ∷ [])) × Succeeded (finish (write ∷ mkdir ∷ [])))
write_file_iff_example =
    write_file_iff system config "pod-1@ssh.runpod.io" 22 "/workspace/a" "text" []

abbrev named : String → String → Pod
named id name = record empty_pod { id = held id; name = held name }

abbrev listed : List Pod
listed = named "a" "crag-agent" ∷ named "b" "other" ∷ named "c" "crag-llm" ∷ []

abbrev accepting : List Call → Result (Unit {0})
accepting h = ok tt

cleanup_runs : cleanup_managed_pods accepting LimitAction.terminate "crag-" (ok listed) ≡ (
  ok (
      affected_of LimitAction.terminate (named "a" "crag-agent")
      ∷ affected_of LimitAction.terminate (named "c" "crag-llm")
      ∷ []),
  end_pod LimitAction.terminate (some "c") ∷ end_pod LimitAction.terminate (some "a") ∷ [],
)
unfolding cleanup_managed_pods has_name id_of
cleanup_runs = refl

cleanup_managed_pods_lem_example :
    cleanup_managed_pods accepting LimitAction.terminate "crag-" (ok listed) ≡ (
      ok (map (affected_of LimitAction.terminate) (select (has_name "crag-") listed)),
      ended LimitAction.terminate (select (has_name "crag-") listed) [],
    )
unfolding has_name select
cleanup_managed_pods_lem_example =
    cleanup_managed_pods_lem accepting (λ h. refl) LimitAction.terminate "crag-" listed
      (tt, (tt, tt))

-- Runpod refuses the first call.
abbrev refusing : List Call → Result (Unit {0})
refusing h =
    if calls_in h =ℕ= 1
    then err (record { kind = runpod_client_error; message = "busy" })
    else ok tt

apply_runs : apply_runpod_lifecycle refusing "a" LimitAction.stop (pos 60) 5 ≡ (
  ok 2,
  end_pod LimitAction.stop (some "a")
      ∷ sleep 3
      ∷ end_pod LimitAction.stop (some "a")
      ∷ sleep 60
      ∷ [],
)
unfolding apply_runpod_lifecycle
apply_runs = refl

apply_runpod_lifecycle-IsTried_example :
    IsTried refusing 5 1
      (sleep 60 ∷ [])
      (apply_runpod_lifecycle refusing "a" LimitAction.stop (pos 60) 5)
apply_runpod_lifecycle-IsTried_example =
    apply_runpod_lifecycle-IsTried refusing "a" LimitAction.stop (pos 60) 5
