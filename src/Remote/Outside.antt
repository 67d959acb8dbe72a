-- ===== src/Remote/Outside.antt =====
-- All that the runner does to its surroundings, as calls, and what the surroundings answer. An answer is
-- a function of all calls so far, the newest first, so that nothing is assumed of it.
use comfyui_runpod_agentic_n.Base.{ℕ, String, Bool, List, ℤ}
use comfyui_runpod_agentic_n.Base.Result.{Result}
use comfyui_runpod_agentic_n.Planner.Plan.{PodInput}
use comfyui_runpod_agentic_n.Specs.{LimitAction}
use comfyui_runpod_agentic_n.Remote.Pod.{Pod}

-- ssh_client.py: `CommandResult`
pub record CommandResult : Type 0 where
  pub exit_code : ℤ
  pub stdout : String
  pub stderr : String

pub data Call : Type 0 where
  list_pods : Call
  get_pod : String → Call
  stop_pod : String → Call
  resume_pod : String → Call
  terminate_pod : String → Call
  create_pod : PodInput → Call
  create_volume : String → ℕ → String → Call
  ssh_run : String → ℕ → String → Call
  write_file : String → ℕ → String → String → Call
  save_text : String → String → Call
  save_base64 : String → String → Call
  probe : String → Call
  schedule : String → LimitAction → ℕ → Call
  sleep : ℕ → Call
  read_clock : Call
  read_uuid : Call
  read_now : Call
  read_token : Call
  progress : String → Call

-- `volume` is `volume.get("id") or volume.get("networkVolumeId") or ""`. The clock is read in seconds.
pub record Outside : Type 0 where
  pub pods : List Call → Result (List Pod)
  pub pod : List Call → Result Pod
  pub volume : List Call → Result String
  pub lifecycle : List Call → Result (Unit {0})
  pub command : List Call → Result CommandResult
  pub written : List Call → Result (Unit {0})
  pub is_ready : List Call → Bool
  pub clock : List Call → ℕ
  pub text : List Call → String
  pub command_hash : String → String
  pub dependency_timeout : ℕ
  pub response_timeout : ℕ
  pub log_folder : String
