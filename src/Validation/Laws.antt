-- ===== src/Validation/Laws.antt =====
-- `validate_deployment` accepts exactly the deployments that the checks describe.
use comfyui_runpod_agentic_n.Base.{
  is_some, not, ◌&&◌, String, ◌≡◌, ◌≢◌, ◌⊎◌, ◌↔◌, refl, Bool, true, false, Option, none, some, List,
  [], ◌∷◌, arith, eq_iff, starts_with, nonzero, truthy,
}
use comfyui_runpod_agentic_n.Base.Sort.{All}
use comfyui_runpod_agentic_n.Base.Result.{
  Result, ok, raise_if, validation_error, ◌>>=◌, ◌>>◌, is_ok,
}
use comfyui_runpod_agentic_n.Specs.{
  NetworkStorageSpec, BrowserSpec, BrowserEngine, same_pod, SqlDatabaseSpec, SqlEngine, RunMode,
}
use comfyui_runpod_agentic_n.Specs.Deployment.{AgentSpec, DeploymentSpec, S3StorageSpec}
use comfyui_runpod_agentic_n.Validation.{
  is_plan, validate_deployment, check_sqlite, check_storages, network_storages, has_volume,
  sqlite_path, is_neko_same_pod, lacks_s3_secret,
}

-- A volume that exists, or the size and the data center from which one can be created.
abbrev pub HasVolume : NetworkStorageSpec → Type 0
HasVolume s =
    (s.network_volume_id ≢ "") ⊎ ((nonzero s.size_gb ≡ true) × (truthy s.data_center_id ≡ true))

-- What holds of an optional part where it is there.
abbrev pub OnSome : {A : Type 0} → (A → Type 0) → Option A → Type 0
OnSome P none = Unit
OnSome P (some a) = P a

abbrev pub IsSingleHost : BrowserSpec → Type 0
IsSingleHost b = (b.engine ≢ BrowserEngine.neko) ⊎ (b.materialization ≢ same_pod)

abbrev pub IsInside : String → SqlDatabaseSpec → Type 0
IsInside workspace db =
    (db.engine ≢ SqlEngine.sqlite)
    ⊎ (sqlite_path db ≡ "")
    ⊎ (starts_with (sqlite_path db) workspace ≡ true)

abbrev pub HasSecrets : S3StorageSpec → Type 0
HasSecrets s = (s.access_key_secret.name ≢ "") × (s.secret_key_secret.name ≢ "")

-- What the checks ask of a deployment.
pub record IsDeployable (d : DeploymentSpec) (mode : RunMode) (require_key : Bool)
    (key : Option String) : Type 0 where
  pub one_llm : (d.primary_app.llm_api ≡ none) ⊎ (d.primary_app.llm_server ≡ none)
  pub browser : OnSome IsSingleHost d.primary_app.browser
  pub sqlite : OnSome (IsInside d.primary_app.workspace_path) d.primary_app.sql_database
  pub volumes : All HasVolume (network_storages d)
  pub s3_secrets : OnSome HasSecrets d.s3_storage
  pub keyed : (mode ≡ RunMode.plan) ⊎ (require_key ≡ false) ⊎ (truthy key ≡ true)

has_volume_iff : (s : NetworkStorageSpec) → (has_volume s ≡ true) ↔ HasVolume s
has_volume_iff s = ground (arith, eq_iff s.network_volume_id "")

check_storages_iff :
    (ss : List NetworkStorageSpec) → (is_ok (check_storages ss) ≡ true) ↔ All HasVolume ss
unfolding check_storages
check_storages_iff [] = (λ h. tt, λ h. refl)
check_storages_iff (s ∷ ss) = ground (arith, check_storages_iff ss, has_volume_iff s)

check_sqlite_iff :
    (app : AgentSpec) (storage : Option NetworkStorageSpec) (db : Option SqlDatabaseSpec)
    → (is_ok (check_sqlite app storage db) ≡ true) ↔ OnSome (IsInside app.workspace_path) db
unfolding check_sqlite
check_sqlite_iff app storage none = (λ h. tt, λ h. refl)
check_sqlite_iff app storage (some db) = ground (arith, eq_iff (sqlite_path db) "")

browser_iff : (b : Option BrowserSpec) → (is_neko_same_pod b ≡ false) ↔ OnSome IsSingleHost b
browser_iff none = (λ h. tt, λ h. refl)
browser_iff (some b) = ground arith

s3_iff : (s : Option S3StorageSpec) → (lacks_s3_secret s ≡ false) ↔ OnSome HasSecrets s
s3_iff none = (λ h. tt, λ h. refl)
s3_iff (some s) =
    ground (arith, eq_iff s.access_key_secret.name "", eq_iff s.secret_key_secret.name "")

checks_iff :
    (llms host s3 keyless : Bool) (r t : Result (List String)) (m n o p : String)
    (ws : List String → List String → List String)
    → (is_ok (do
      raise_if llms validation_error m
      raise_if host validation_error n
      a ← r
      b ← t
      raise_if s3 validation_error o
      raise_if keyless validation_error p
      ok (ws a b))
        ≡ true)
      ↔ ((llms ≡ false)
          × (host ≡ false)
          × (is_ok r ≡ true)
          × (is_ok t ≡ true)
          × (s3 ≡ false)
          × (keyless ≡ false))
checks_iff llms host s3 keyless r t m n o p ws = ground arith

llms_iff :
    (app : AgentSpec)
    → ((is_some app.llm_api && is_some app.llm_server) ≡ false)
      ↔ ((app.llm_api ≡ none) ⊎ (app.llm_server ≡ none))
llms_iff app = ground arith

key_iff :
    (mode : RunMode) (require_key : Bool) (key : Option String)
    → ((not (is_plan mode) && (require_key && not (truthy key))) ≡ false)
      ↔ ((mode ≡ RunMode.plan) ⊎ (require_key ≡ false) ⊎ (truthy key ≡ true))
key_iff mode require_key key = ground arith

-- Validation accepts a deployment, for a mode and a key, exactly when the deployment has at most
-- one source of a model, no Neko browser inside the agent's pod, a SQLite file inside the workspace,
-- a volume or the means to create one for each storage, both S3 secrets, and the key where the mode
-- needs one.
pub validate_deployment_iff :
    (d : DeploymentSpec) (mode : RunMode) (require_key : Bool) (key : Option String)
    → (is_ok (validate_deployment d mode require_key key) ≡ true)
      ↔ IsDeployable d mode require_key key
unfolding validate_deployment
validate_deployment_iff d mode require_key key = (
  λ h.
      let (l, b, q, v, s, k) = (checks_iff _ _ _ _ _ _ _ _ _ _ _).0 h in
      record {
        one_llm = (llms_iff d.primary_app).0 l;
        browser = (browser_iff d.primary_app.browser).0 b;
        sqlite = (check_sqlite_iff d.primary_app d.network_storage d.primary_app.sql_database).0 q;
        volumes = (check_storages_iff (network_storages d)).0 v;
        s3_secrets = (s3_iff d.s3_storage).0 s;
        keyed = (key_iff mode require_key key).0 k;
      },
  λ h. (checks_iff _ _ _ _ _ _ _ _ _ _ _).1 (
    (llms_iff d.primary_app).1 h.one_llm,
    (browser_iff d.primary_app.browser).1 h.browser,
    (check_sqlite_iff d.primary_app d.network_storage d.primary_app.sql_database).1 h.sqlite,
    (check_storages_iff (network_storages d)).1 h.volumes,
    (s3_iff d.s3_storage).1 h.s3_secrets,
    (key_iff mode require_key key).1 h.keyed,
  ),
)
