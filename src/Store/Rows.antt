-- ===== src/Store/Rows.antt =====
-- state_store.py: the columns of the five tables.
use comfyui_runpod_agentic_n.Base.{ℕ, String, Option, List, [], ℤ}
use comfyui_runpod_agentic_n.Planner.Plan.{Role, PodInput}

-- The payloads that the events have.
pub data Payload : Type 0 where
  without : Payload
  pod_id : Option String → Payload
  pod_input : PodInput → Payload
  failed_creation : Role → String → PodInput → Payload
  volume : String → ℕ → String → Payload
  exit_code : ℤ → Payload
  retry : ℕ → ℤ → Payload
  timeout : ℕ → Payload
  local_path : String → Payload
  ready : Option String → String → String → Payload

pub record RunRow : Type 0 where
  pub id : String
  pub prompt_id : Option String
  pub workflow_hash : String
  pub created_at : String
  pub updated_at : String
  pub mode : String
  pub status : String
  pub deployment_hash : String

pub record ResourceRow : Type 0 where
  pub id : String
  pub run_id : Option String
  pub node_id : Option String
  pub role : Option String
  pub desired_hash : Option String
  pub runpod_pod_id : Option String
  pub runpod_template_id : Option String
  pub name : String
  pub status : Option String
  pub cost_per_hr : Option ℕ
  pub created_at : String
  pub last_seen_at : String
  pub stop_after : Option String
  pub terminate_after : Option String

pub record CommandRow : Type 0 where
  pub id : String
  pub run_id : String
  pub resource_id : Option String
  pub phase : String
  pub order_index : ℤ
  pub command_hash : String
  pub status : String
  pub started_at : String
  pub finished_at : Option String
  pub exit_code : Option ℤ
  pub stdout_path : String
  pub stderr_path : String

pub record EventRow : Type 0 where
  pub id : String
  pub run_id : String
  pub resource_id : Option String
  pub timestamp : String
  pub event_type : String
  pub message : String
  pub payload : Payload

pub record CounterRow : Type 0 where
  pub id : String
  pub run_id : String
  pub resource_id : Option String
  pub counter_type : String
  pub value : ℕ
  pub updated_at : String

-- The database.
pub record Tables : Type 0 where
  pub runs : List RunRow
  pub resources : List ResourceRow
  pub commands : List CommandRow
  pub events : List EventRow
  pub counters : List CounterRow

abbrev pub no_tables : Tables
no_tables = record { runs = []; resources = []; commands = []; events = []; counters = [] }
