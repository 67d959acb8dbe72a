-- ===== src/Validation.antt =====
-- validation.py: the checks that stand before every plan and run. The warnings keep their order.
-- `get_runpod_api_key()` is an argument.
pub mod Laws
use comfyui_runpod_agentic_n.Base.{
  ℕ, String, ◌<>◌, Bool, true, false, ◌&&◌, ◌||◌, not, Option, none, some, List, [], ◌∷◌, ◌++◌,
  if◌then◌else◌, is_some, is_empty, truthy, nonzero, starts_with, value_or, any,
}
use comfyui_runpod_agentic_n.Base.Dict.{get}
use comfyui_runpod_agentic_n.Base.Text.{codes, lower, is_infix, remove_prefix}
use comfyui_runpod_agentic_n.Base.Result.{Result, ok, err, validation_error, raise_if, ◌>>=◌, ◌>>◌}
use comfyui_runpod_agentic_n.Specs.{
  NetworkStorageSpec, VolumeRetentionPolicy, preserve, delete_when_unused, delete_with_deployment,
  BrowserSpec, BrowserEngine, Materialization, same_pod, SqlDatabaseSpec, SqlEngine, RunMode,
  KeepAliveMode,
}
use comfyui_runpod_agentic_n.Specs.Deployment.{
  DeploymentSpec, AgentSpec, S3StorageSpec, SshCommand, SshCommandSpec, KeepAlivePolicy,
}

abbrev pub retention_text : VolumeRetentionPolicy → String
retention_text preserve = "preserve"
retention_text delete_when_unused = "delete_when_unused"
retention_text delete_with_deployment = "delete_with_deployment"

abbrev pub is_preserve : VolumeRetentionPolicy → Bool
is_preserve preserve = true
is_preserve _ = false

abbrev pub mode_text : RunMode → String
mode_text RunMode.plan = "plan"
mode_text RunMode.apply = "apply"
mode_text RunMode.apply_and_wait = "apply_and_wait"
mode_text RunMode.stop = "stop"
mode_text RunMode.terminate = "terminate"

abbrev pub is_plan : RunMode → Bool
is_plan RunMode.plan = true
is_plan _ = false

abbrev is_neko : BrowserEngine → Bool
is_neko BrowserEngine.neko = true
is_neko BrowserEngine.playwright = false

abbrev is_same_pod : Materialization → Bool
is_same_pod same_pod = true
is_same_pod _ = false

abbrev is_sqlite : SqlEngine → Bool
is_sqlite SqlEngine.sqlite = true
is_sqlite _ = false

abbrev is_cost : KeepAliveMode → Bool
is_cost KeepAliveMode.cost = true
is_cost _ = false

abbrev pub is_neko_same_pod : Option BrowserSpec → Bool
is_neko_same_pod none = false
is_neko_same_pod (some b) = is_neko b.engine && is_same_pod b.materialization

-- `DATABASE_PATH`, or `DATABASE_URL` with its scheme taken off.
abbrev pub sqlite_path : SqlDatabaseSpec → String
sqlite_path db =
    let values = db.runtime_contract.env.values in
    let path = value_or (get values "DATABASE_PATH") "" in
    if is_empty path
    then remove_prefix "sqlite:///" (value_or (get values "DATABASE_URL") "")
    else path

-- `path and not path.startswith(app.workspace_path)`
abbrev pub is_outside : String → String → Bool
is_outside path workspace = not (is_empty path) && not (starts_with path workspace)

check_sqlite : AgentSpec → Option NetworkStorageSpec → Option SqlDatabaseSpec → Result (List String)
check_sqlite app storage none = ok []
check_sqlite app storage (some db) =
    if is_sqlite db.engine
    then (do
      raise_if (is_outside (sqlite_path db) app.workspace_path) validation_error
          "SQLite path must be inside the agent workspace path."
      ok (if is_some storage then [] else "SQLite without network storage may be ephemeral." ∷ []))
    else ok []

abbrev present : List (Option NetworkStorageSpec) → List NetworkStorageSpec
present [] = []
present (none ∷ rest) = present rest
present (some s ∷ rest) = s ∷ present rest

-- `network_storages`
unfoldable pub network_storages : DeploymentSpec → List NetworkStorageSpec
network_storages d = present (
    d.network_storage
    ∷ elim d.primary_app.browser [ none ↦ none | some s ↦ s.network_storage ]
    ∷ elim d.primary_app.llm_server [ none ↦ none | some s ↦ s.network_storage ]
    ∷ elim d.primary_app.sql_database [ none ↦ none | some s ↦ s.network_storage ]
    ∷ elim d.primary_app.vector_database [ none ↦ none | some s ↦ s.network_storage ]
    ∷ [])

-- `storage.network_volume_id or (storage.size_gb and storage.data_center_id)`
abbrev pub has_volume : NetworkStorageSpec → Bool
has_volume s = not (is_empty s.network_volume_id) || (nonzero s.size_gb && truthy s.data_center_id)

abbrev retention_warning : NetworkStorageSpec → List String
retention_warning s =
    if is_preserve s.retention_policy
    then []
    else ("Network storage "
        <> (s.network_volume_id
            <> (" uses retention_policy="
                <> (retention_text s.retention_policy
                    <> "; verify this before destructive runs."))))
      ∷ []

check_storages : List NetworkStorageSpec → Result (List String)
check_storages [] = ok []
check_storages (s ∷ rest) =
    let later = check_storages rest in
    do
      raise_if (not (has_volume s)) validation_error
          "Network storage requires network_volume_id, or create_size_gb with data_center_id."
      warnings ← later
      ok (retention_warning s ++ warnings)

abbrev pub lacks_s3_secret : Option S3StorageSpec → Bool
lacks_s3_secret none = false
lacks_s3_secret (some s) = is_empty s.access_key_secret.name || is_empty s.secret_key_secret.name

abbrev cost_warning : Option KeepAlivePolicy → List String
cost_warning none = []
cost_warning (some policy) =
    if is_cost policy.mode
    then "Cost keep-alive is estimated from pod runtime and cost/hour." ∷ []
    else []

abbrev install_markers : List String
install_markers =
    "apt install" ∷ "apt-get install" ∷ "pip install" ∷ "npm install" ∷ "pnpm install" ∷ []

-- `any(marker in body for marker in install_markers)`
installs : String → Bool
unfolding lower is_infix any
installs command = any (λ marker. is_infix (codes marker) (lower command)) install_markers

validate_each : List SshCommand → List String
unfolding installs
validate_each [] = []
validate_each (c ∷ rest) =
    (if installs c.command
      then "Startup command appears to install dependencies; prefer baking common deps into templates."
        ∷ []
      else [])
    ++ validate_each rest

-- `validate_commands`
unfoldable pub validate_commands : Option SshCommandSpec → List String
unfolding validate_each
validate_commands none = []
validate_commands (some spec) = validate_each spec.commands

unfoldable pub validate_deployment :
    DeploymentSpec → RunMode → Bool → Option String → Result (List String)
unfolding check_sqlite check_storages network_storages
validate_deployment d mode require_api_key api_key = do
  let app = d.primary_app
  raise_if (is_some app.llm_api && is_some app.llm_server) validation_error
      "Agent accepts either llm_api or llm_server, not both."
  raise_if (is_neko_same_pod app.browser) validation_error
      "Neko browser supports only own_pod materialization in the MVP."
  sqlite_warnings ← check_sqlite app d.network_storage app.sql_database
  storage_warnings ← check_storages (network_storages d)
  raise_if (lacks_s3_secret d.s3_storage) validation_error
      "S3 storage requires access and secret key secret references."
  raise_if (not (is_plan mode) && (require_api_key && not (truthy api_key))) validation_error
      ("Run mode " <> (mode_text mode <> " requires RUNPOD_API_KEY in the server environment."))
  ok (
      sqlite_warnings
      ++ (storage_warnings ++ (cost_warning d.keep_alive ++ validate_commands d.ssh_commands)))

-- `validate_keep_alive`; the enumeration leaves no other enforcement.
unfoldable pub validate_keep_alive : KeepAlivePolicy → Result (Unit {0})
validate_keep_alive policy = elim policy.mode [
  | KeepAliveMode.time ↦
      raise_if (not (nonzero policy.time_seconds)) validation_error
        "Time keep-alive requires a positive time value."
  | KeepAliveMode.turns ↦
      raise_if (not (nonzero policy.turn_limit)) validation_error
        "Turns keep-alive requires a turn limit."
  | KeepAliveMode.cost ↦
      raise_if (not (nonzero policy.cost_limit_usd)) validation_error
        "Cost keep-alive requires a cost limit."
  | KeepAliveMode.manual ↦ ok tt
]
