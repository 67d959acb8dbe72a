-- ===== src/Nodes/Deploy/Plans.antt =====
-- nodes.py and planner.py: which of the deployments that nodes build can be planned.
use comfyui_runpod_agentic_n.Base.{
  String, ◌≡◌, ◌↔◌, refl, sym, ◌∙◌, map, eq_iff, is_some, Bool, true, false, not, ◌&&◌, ◌||◌,
  Option, none, some, List, [], ◌∷◌, ◌++◌, arith, select, contains, inl, inr, Bool-cases,
}
use comfyui_runpod_agentic_n.Base.Dict.{get}
use comfyui_runpod_agentic_n.Base.Result.{ok, is_ok, >>=-eq-ok, ok_injective}
use comfyui_runpod_agentic_n.Base.Sort.{All, All-append}
use comfyui_runpod_agentic_n.Specs.{
  RunMode, LlmEngine, SqlEngine, VectorEngine, BrowserEngine, NetworkStorageSpec, SqlDatabaseSpec,
}
use comfyui_runpod_agentic_n.Specs.Deployment.{
  AgentSpec, Harness, S3StorageSpec, SshCommandSpec, KeepAlivePolicy, DeploymentSpec,
}
use comfyui_runpod_agentic_n.Templates.{
  TemplateResolver, default_template_config, agent_entry, resolve_agent, resolve_app,
}
use comfyui_runpod_agentic_n.Templates.Laws.{key_for, resolve_agent-is_ok}
use comfyui_runpod_agentic_n.Validation.{validate_deployment}
use comfyui_runpod_agentic_n.Planner.Plan.{AppSpec, Ambient}
use comfyui_runpod_agentic_n.Planner.PodInput.{
  app_kind, app_engine, app_materialization, is_own_pod, option_list, own_pod_dependencies,
}
use comfyui_runpod_agentic_n.Planner.Build.{build, harness_text}
use comfyui_runpod_agentic_n.Planner.Resources.{build_ok_iff}
use comfyui_runpod_agentic_n.Nodes.Deploy.{assembled, build_deployment}

-- The capabilities that a harness has a template for.
abbrev pub capabilities_of : Harness → List String
capabilities_of Harness.hermes = "ollama" ∷ "vllm" ∷ []
capabilities_of Harness.pi = "ollama" ∷ "vllm" ∷ []
capabilities_of _ = "playwright" ∷ "ollama" ∷ "vllm" ∷ []

-- At most one capability, and one that the harness has a template for.
unfoldable pub fits : Harness → List String → Bool
fits harness [] = true
fits harness (c ∷ []) = contains c (capabilities_of harness)
fits harness (c ∷ d ∷ rest) = false

has_key-contains :
    (c : String) (f : String → String) (keys : List String)
    → is_some (get (map (λ k. (k, f k)) keys) c) ≡ contains c keys
unfolding get
has_key-contains c f [] = refl
has_key-contains c f (k ∷ keys) = ground (arith, has_key-contains c f keys, eq_iff c k, eq_iff k c)

abbrev is_sqlite : SqlEngine → Bool
is_sqlite SqlEngine.sqlite = true
is_sqlite _ = false

-- Every app has a template, but for SQLite.
abbrev has_template : AppSpec → Bool
has_template (AppSpec.sql s) = not (is_sqlite s.engine)
has_template _ = true

abbrev is_own_pod_sqlite : SqlDatabaseSpec → Bool
is_own_pod_sqlite s = is_own_pod s.materialization && is_sqlite s.engine

-- No SQLite database in a pod of its own, which no node builds.
abbrev pub no_sqlite_pod : Option SqlDatabaseSpec → Bool
no_sqlite_pod none = true
no_sqlite_pod (some s) = not (is_own_pod_sqlite s)

abbrev needs_template : AppSpec → Bool
needs_template s = not (is_own_pod (app_materialization s)) || has_template s

either_second : (a b : Bool) → a ≡ true → (not a || b) ≡ true → b ≡ true
either_second a b h k = ground arith

module _ (resolver : TemplateResolver) (usual : resolver.config ≡ default_template_config) where
  usual_entry :
      (harness : Harness)
      → get resolver.config.agent_templates (harness_text harness)
        ≡ some (agent_entry (harness_text harness) (capabilities_of harness))
  unfolding get
  usual_entry Harness.codex = rw usual refl
  usual_entry Harness.claude = rw usual refl
  usual_entry Harness.opencode = rw usual refl
  usual_entry Harness.hermes = rw usual refl
  usual_entry Harness.pi = rw usual refl

  key_for-fits :
      (harness : Harness) (capabilities : List String)
      → is_some
          (key_for (agent_entry (harness_text harness) (capabilities_of harness)) capabilities)
        ≡ fits harness capabilities
  unfolding fits
  key_for-fits harness [] = refl
  key_for-fits harness (c ∷ []) = has_key-contains c _ (capabilities_of harness)
  key_for-fits harness (c ∷ d ∷ rest) = refl

  resolve_agent-fits :
      (harness : Harness) (capabilities : List String)
      → is_ok (resolve_agent resolver (harness_text harness) capabilities)
        ≡ fits harness capabilities
  resolve_agent-fits harness capabilities =
      resolve_agent-is_ok resolver (harness_text harness) capabilities _ (usual_entry harness)
      ∙ key_for-fits harness capabilities

  resolve_app-is_ok :
      (s : AppSpec) → is_ok (resolve_app resolver (app_kind s) (app_engine s)) ≡ has_template s
  unfolding resolve_app
  resolve_app-is_ok (AppSpec.llm s) =
      elim s.engine
        as (λ e.
          is_ok
            (resolve_app resolver "llm_server" (app_engine (AppSpec.llm (record s { engine = e }))))
          ≡ true) [ LlmEngine.ollama ↦ rw usual refl | LlmEngine.vllm ↦ rw usual refl ]
  resolve_app-is_ok (AppSpec.sql s) =
      elim s.engine
        as (λ e.
          is_ok (
            resolve_app resolver "sql_database"
              (app_engine (AppSpec.sql (record s { engine = e }))))
          ≡ has_template (AppSpec.sql (record s { engine = e }))) [
            | SqlEngine.postgres ↦ rw usual refl
            | SqlEngine.mysql ↦ rw usual refl
            | SqlEngine.sqlite ↦ rw usual refl
          ]
  resolve_app-is_ok (AppSpec.vector s) =
      elim s.engine
        as (λ e.
          is_ok (
            resolve_app resolver "vector_database"
              (app_engine (AppSpec.vector (record s { engine = e }))))
          ≡ true) [ VectorEngine.chroma ↦ rw usual refl | VectorEngine.qdrant ↦ rw usual refl ]
  resolve_app-is_ok (AppSpec.browser s) =
      elim s.engine
        as (λ e.
          is_ok (
            resolve_app resolver "browser" (app_engine (AppSpec.browser (record s { engine = e }))))
          ≡ true) [ BrowserEngine.neko ↦ rw usual refl | BrowserEngine.playwright ↦ rw usual refl ]

  dependencies-All :
      (specs : List AppSpec)
      → All (λ s. needs_template s ≡ true) specs
      → All
          (λ s. is_ok (resolve_app resolver (app_kind s) (app_engine s)) ≡ true)
          (select (λ s. is_own_pod (app_materialization s)) specs)
  unfolding select
  dependencies-All [] a = tt
  dependencies-All (s ∷ specs) a = elim (Bool-cases (is_own_pod (app_materialization s))) [
    | inl e ↦ rw e (resolve_app-is_ok s ∙ either_second _ _ e a.0, dependencies-All specs a.1)
    | inr e ↦ rw e (dependencies-All specs a.1)
  ]

option_list-All :
    {A : Type 0} (f : A → AppSpec) (item : Option A)
    → ((a : A) → needs_template (f a) ≡ true)
    → All (λ s. needs_template s ≡ true) (option_list f item)
option_list-All f none h = tt
option_list-All f (some a) h = (h a, tt)

sql_list-All :
    (item : Option SqlDatabaseSpec)
    → no_sqlite_pod item ≡ true
    → All (λ s. needs_template s ≡ true) (option_list AppSpec.sql item)
sql_list-All none h = tt
sql_list-All (some s) h = (ground arith, tt)

app_lists-All :
    (app : AgentSpec)
    → no_sqlite_pod app.sql_database ≡ true
    → All
        (λ s. needs_template s ≡ true)
        (option_list AppSpec.llm app.llm_server
          ++ (option_list AppSpec.sql app.sql_database
              ++ (option_list AppSpec.vector app.vector_database
                  ++ option_list AppSpec.browser app.browser)))
app_lists-All app h =
    let P : AppSpec → Type 0 = λ s. needs_template s ≡ true in
    All-append P (option_list AppSpec.llm app.llm_server) _
      (option_list-All AppSpec.llm app.llm_server (λ a. ground arith))
      (All-append P (option_list AppSpec.sql app.sql_database) _ (sql_list-All app.sql_database h) (
        All-append P (option_list AppSpec.vector app.vector_database) _
          (option_list-All AppSpec.vector app.vector_database (λ a. ground arith))
          (option_list-All AppSpec.browser app.browser (λ a. ground arith))))

validate_deployment-mode :
    (d : DeploymentSpec) (mode : RunMode)
    → validate_deployment d mode false none ≡ validate_deployment d RunMode.plan false none
unfolding validate_deployment
validate_deployment-mode d RunMode.plan = refl
validate_deployment-mode d RunMode.apply = refl
validate_deployment-mode d RunMode.apply_and_wait = refl
validate_deployment-mode d RunMode.stop = refl
validate_deployment-mode d RunMode.terminate = refl

same_truth : (b c : Bool) → ((b ≡ true) ↔ (c ≡ true)) → b ≡ c
same_truth true c h = sym (h.0 refl)
same_truth false true h = h.1 refl
same_truth false false h = refl

-- A deployment that the deploy node returns is planned, in every mode, exactly when the agent needs at
-- most one capability of its image, and one that its harness has a template for. Here the template
-- configuration is the built-in one, the ids of the templates are arbitrary, and the agent has no
-- SQLite database in a pod of its own.
pub build_deployment-build :
    (ambient : Ambient) (resolver : TemplateResolver) (app : AgentSpec)
    (network_storage : Option NetworkStorageSpec) (s3_storage : Option S3StorageSpec)
    (commands : Option SshCommandSpec) (keep_alive : Option KeepAlivePolicy)
    (node_id : Option String) (d : DeploymentSpec) (mode : RunMode) (prompt : String)
    (graph : Option String)
    → resolver.config ≡ default_template_config
    → no_sqlite_pod app.sql_database ≡ true
    → build_deployment app network_storage s3_storage commands keep_alive node_id ≡ ok d
    → is_ok (build ambient resolver d mode prompt graph)
      ≡ fits app.harness app.required_image_capabilities
unfolding build_deployment own_pod_dependencies
build_deployment-build ambient resolver app network_storage s3_storage commands keep_alive node_id d
      mode prompt graph usual no_sqlite h =
    let put = assembled app network_storage s3_storage commands keep_alive node_id in
    let (warnings, valid, same) = >>=-eq-ok (validate_deployment put RunMode.plan false none) _ h in
    let planned = build_ok_iff ambient resolver put mode prompt graph in
    let agent = resolve_agent-fits resolver usual app.harness app.required_image_capabilities in
    let passes : is_ok (validate_deployment put mode false none) ≡ true =
      rw (validate_deployment-mode put mode, valid) refl in
    let templates = dependencies-All resolver usual _ (app_lists-All app no_sqlite) in
    rw (← ok_injective put d same) (
      same_truth _ _
        (λ b. sym agent ∙ (planned.0 b).2, λ f. planned.1 (passes, templates, agent ∙ f)))
