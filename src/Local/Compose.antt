-- ===== src/Local/Compose.antt =====
-- local_runtime.py: what the local runtime makes of one resource of a plan. The secrets of the server, the
-- parser of integers, the directory of the local runtime's state, the launch command and the hash are
-- parameters.
pub mod Volumes
use Prim.Native.String.{compare}
use Prim.Native.Nat.{Ordering}
use comfyui_runpod_agentic_n.Base.{
  ℕ, String, ◌<>◌, Bool, true, false, not, ◌&&◌, ◌||◌, Option, none, some, List, [], ◌∷◌, ◌++◌,
  if◌then◌else◌, ℤ, pos, is_empty, is_some, truthy, text_or, or_text, value_or, ◌==◌, leb_ℤ, map,
}
use comfyui_runpod_agentic_n.Base.Dict.{Dict, get, put, pop, update}
use comfyui_runpod_agentic_n.Base.Text.{first, rstrip_slash}
use comfyui_runpod_agentic_n.Base.Result.{Result, ok, ◌>>=◌}
use comfyui_runpod_agentic_n.Specs.{CommandPhase, VolumeRetentionPolicy}
use comfyui_runpod_agentic_n.Validation.{retention_text, is_preserve}
use comfyui_runpod_agentic_n.Planner.Plan.{
  Role, CommandDetail, ResourcePlan, ActionKind, Detail, PlanAction, DeploymentPlan,
}
use comfyui_runpod_agentic_n.Runner.Launch.{is_agent}
use comfyui_runpod_agentic_n.Runner.Shell.{integer_text}
use comfyui_runpod_agentic_n.Local.Text.{
  compose_service_name_from_text, safe_project, shlex_quote, resolve_crag_placeholders,
  resolve_local_secret_placeholder,
}

-- `DEFAULT_IMAGES`
abbrev pub default_images : Dict String
default_images =
    ("agent", "ubuntu:24.04")
    ∷ ("browser:neko", "ghcr.io/m1k1o/neko/chromium:latest")
    ∷ ("browser:playwright", "mcr.microsoft.com/playwright:v1.60.0-noble")
    ∷ ("llm:ollama", "ollama/ollama:0.12.10")
    ∷ ("llm:vllm", "vllm/vllm-openai:latest")
    ∷ ("sql:postgres", "postgres:17.7")
    ∷ ("sql:mysql", "mysql:8.4")
    ∷ ("vector:qdrant", "qdrant/qdrant:v1.16.2")
    ∷ ("vector:chroma", "chromadb/chroma:latest")
    ∷ []

-- `DEFAULT_IMAGES.get(f"{role}:{env.get(key)}", DEFAULT_IMAGES[default])`; a missing value reads `None`.
image_of_kind : Dict String → String → String → String → String
unfolding get
image_of_kind env role key default =
    value_or (get default_images (role <> (":" <> value_or (get env key) "None")))
      (value_or (get default_images default) "")

-- `image_for_resource`
unfoldable pub image_for_resource : ResourcePlan → String
unfolding image_of_kind
image_for_resource resource =
    let env = resource.pod_input.env in
    if truthy resource.pod_input.image_name
    then value_or resource.pod_input.image_name ""
    else elim resource.role [
      | Role.agent ↦ "ubuntu:24.04"
      | Role.browser ↦ image_of_kind env "browser" "BROWSER_KIND" "browser:playwright"
      | Role.llm ↦ image_of_kind env "llm" "LLM_PROVIDER" "llm:ollama"
      | Role.sql ↦ image_of_kind env "sql" "DATABASE_KIND" "sql:postgres"
      | Role.vector ↦ image_of_kind env "vector" "VECTOR_KIND" "vector:qdrant"
    ]

-- `compose_service_name`
unfoldable pub compose_service_name : ResourcePlan → String
unfolding compose_service_name_from_text
compose_service_name resource = compose_service_name_from_text resource.name

-- `{resource.name: compose_service_name(resource) for resource in plan.resources}`
unfoldable pub service_names_of : List ResourcePlan → Dict String
unfolding compose_service_name update
service_names_of resources = update [] (map (λ r. (r.name, compose_service_name r)) resources)

abbrev volume_name_of : ResourcePlan → Option String
volume_name_of resource = elim resource.pod_input.pending_volume [
  | none ↦ none
  | some v ↦ some v.name
]

-- `volume_mount_for_resource`
unfoldable pub volume_mount_for_resource : ResourcePlan → Option (String × String × String)
unfolding compose_service_name_from_text
volume_mount_for_resource resource =
    let volume_id = or_text resource.pod_input.network_volume_id (volume_name_of resource) in
    let mount_path = resource.pod_input.volume_mount_path in
    if not (truthy volume_id) || not (truthy mount_path)
    then none
    else some (
      compose_service_name_from_text (value_or volume_id ""),
      value_or mount_path "",
      elim resource.storage_retention_policy [
        | none ↦ "preserve"
        | some policy ↦ retention_text policy
      ],
    )

-- `workspace.rstrip("/") + "/.runpod_agentic"`
unfoldable pub runtime_base : Dict String → String
unfolding get rstrip_slash
runtime_base env =
    rstrip_slash (value_or (get env "WORKSPACE_DIR") "/workspace") <> "/.runpod_agentic"

-- `local_runtime_project_dir`
unfoldable pub local_runtime_project_dir : String → String → String
unfolding safe_project
local_runtime_project_dir state_dir project_name = state_dir <> ("/" <> safe_project project_name)

-- `local_runtime_mount_for_resource`
unfoldable pub local_runtime_mount_for_resource : String → String → ResourcePlan → Option String
unfolding runtime_base local_runtime_project_dir
local_runtime_mount_for_resource state_dir project_name resource =
    if not (is_agent resource.role)
    then none
    else some (
        local_runtime_project_dir state_dir project_name
        <> ("/runtime:" <> runtime_base resource.pod_input.env))

-- `local_port_mappings`
unfoldable pub local_port_mappings : (String → Result ℤ) → ResourcePlan → Result (List String)
unfolding get integer_text
local_port_mappings parse_int resource =
    let env = resource.pod_input.env in
    if not (is_agent resource.role)
    then ok []
    else if not (value_or (get env "CRAG_WEB_TERMINAL") "" == "1")
    then ok []
    else ((if truthy (get env "CRAG_WEB_TERMINAL_PORT")
          then parse_int (value_or (get env "CRAG_WEB_TERMINAL_PORT") "")
          else ok (pos 7681))
        >>= λ container_port.
            (if truthy (get env "CRAG_WEB_TERMINAL_HOST_PORT")
              then parse_int (value_or (get env "CRAG_WEB_TERMINAL_HOST_PORT") "")
              else ok container_port)
            >>= λ host_port. ok (
                if leb_ℤ host_port (pos 0)
                then []
                else ("127.0.0.1:"
                    <> (integer_text host_port <> (":" <> integer_text container_port)))
                  ∷ []))

resolved : Dict String → Dict String → Dict String → Dict String
unfolding resolve_crag_placeholders resolve_local_secret_placeholder
resolved secrets service_names [] = []
resolved secrets service_names ((key, value) ∷ env) =
    (key, resolve_local_secret_placeholder secrets (resolve_crag_placeholders value service_names))
    ∷ resolved secrets service_names env

-- `env.setdefault(key, env.get(source, "app"))`
unfoldable pub put_default : String → String → Dict String → Dict String
unfolding get put
put_default key source env =
    if is_some (get env key) then env else put env key (value_or (get env source) "app")

abbrev pub is_sql_role : Role → Bool
is_sql_role Role.sql = true
is_sql_role _ = false

unfoldable pub with_postgres : Dict String → Dict String
unfolding put_default
with_postgres env =
    put_default "POSTGRES_PASSWORD" "DATABASE_PASSWORD"
      (put_default "POSTGRES_USER" "DATABASE_USER" (put_default "POSTGRES_DB" "DATABASE_NAME" env))

unfoldable pub with_mysql : Dict String → Dict String
unfolding put_default
with_mysql env = put_default "MYSQL_ROOT_PASSWORD" "DATABASE_PASSWORD" (
    put_default "MYSQL_PASSWORD" "DATABASE_PASSWORD"
      (put_default "MYSQL_USER" "DATABASE_USER" (put_default "MYSQL_DATABASE" "DATABASE_NAME" env)))

-- `compose_env`
unfoldable pub compose_env : Dict String → ResourcePlan → Dict String → Dict String
unfolding resolved with_postgres with_mysql get
compose_env secrets resource service_names =
    let env = resolved secrets service_names resource.pod_input.env in
    let is_kind : String → Dict String → Bool =
      λ kind env. is_sql_role resource.role && value_or (get env "DATABASE_KIND") "" == kind in
    let env' = if is_kind "postgres" env then with_postgres env else env in
    if is_kind "mysql" env' then with_mysql env' else env'

-- `stable_agent_env`
unfoldable pub stable_agent_env : Dict String → Dict String
unfolding pop
stable_agent_env env = pop (pop (pop env "AGENT_PROMPT") "CRAG_RUN_ID") "CRAG_WORKFLOW_HASH"

-- `agent_startup_command`
unfoldable pub agent_startup_command : ResourcePlan → String
unfolding runtime_base shlex_quote
agent_startup_command resource =
    "bash -lc "
    <> shlex_quote (
        "bash "
        <> shlex_quote (runtime_base resource.pod_input.env <> "/local-runtime/run-agent.sh"))

-- `compose_command`
unfoldable pub compose_command : ResourcePlan → Option String
unfolding agent_startup_command get
compose_command resource =
    let env = resource.pod_input.env in
    elim resource.role [
      | Role.agent ↦ some (agent_startup_command resource)
      | Role.llm ↦ if value_or (get env "LLM_PROVIDER") "" == "ollama" then some "serve" else none
      | Role.browser ↦
          if value_or (get env "BROWSER_KIND") "" == "playwright"
          then some "npx playwright run-server --host 0.0.0.0 --port 3000"
          else none
      | Role.sql ↦ none
      | Role.vector ↦ none
    ]

abbrev pub phase_of : (CommandPhase → Bool) → PlanAction → List CommandDetail
phase_of phases step = elim step.action [
  | ActionKind.run_ssh_command ↦ elim step.detail [
    | Detail.command c ↦
        if elim step.role [ none ↦ false | some r ↦ is_agent r ] && phases c.phase
        then c ∷ []
        else []
    | _ ↦ []
  ]
  | _ ↦ []
]

commands_in : (CommandPhase → Bool) → List PlanAction → List CommandDetail
commands_in phases [] = []
commands_in phases (action ∷ rest) = phase_of phases action ++ commands_in phases rest

-- `local_runtime_commands_for_phase`
unfoldable pub local_runtime_commands_for_phase :
    DeploymentPlan → (CommandPhase → Bool) → List CommandDetail
unfolding commands_in
local_runtime_commands_for_phase plan phases = commands_in phases plan.actions

abbrev pub is_before : CommandPhase → Bool
is_before CommandPhase.before_start = true
is_before _ = false

abbrev pub is_after : CommandPhase → Bool
is_after CommandPhase.after_start = true
is_after CommandPhase.after_ready = true
is_after _ = false

-- What stands for the command in the hash.
pub data CommandShape : Type 0 where
  shell : Option String → CommandShape
  agent : List CommandDetail → List CommandDetail → String → CommandShape

pub record HashInput : Type 0 where
  pub image : String
  pub environment : Dict String
  pub command : CommandShape
  pub ports : List String
  pub volume_mount : Option (String × String × String)

-- What the functions take from outside: `local_secret_values()`, `int(text)`,
-- `CRAG_LOCAL_RUNTIME_STATE_DIR`, `launch_command_for_plan(plan)`, and `stable_local_hash`.
pub record Setting : Type 0 where
  pub secrets : Dict String
  pub parse_int : String → Result ℤ
  pub state_dir : String
  pub launch_command : DeploymentPlan → String
  pub digest : HashInput → String

-- `stable_agent_command_shape`
unfoldable pub stable_agent_command_shape : Setting → DeploymentPlan → CommandShape
unfolding local_runtime_commands_for_phase
stable_agent_command_shape setting plan =
    CommandShape.agent (local_runtime_commands_for_phase plan is_before)
      (local_runtime_commands_for_phase plan is_after) (setting.launch_command plan)

-- `local_resource_desired_hash`
unfoldable pub local_resource_desired_hash : Setting → ResourcePlan → DeploymentPlan → Result String
unfolding compose_env stable_agent_env compose_command stable_agent_command_shape
    local_port_mappings volume_mount_for_resource image_for_resource service_names_of first
local_resource_desired_hash setting resource plan =
    let env = compose_env setting.secrets resource (service_names_of plan.resources) in
    local_port_mappings setting.parse_int resource >>= λ ports. ok (
      first 12 (
        setting.digest (record {
          image = image_for_resource resource;
          environment = if is_agent resource.role then stable_agent_env env else env;
          command =
              if is_agent resource.role
              then stable_agent_command_shape setting plan
              else CommandShape.shell (compose_command resource);
          ports = ports;
          volume_mount = volume_mount_for_resource resource;
        })))

-- `sorted(set(names))`, by inserting each name that is not there yet.
unfoldable pub insert_name : String → List String → List String
insert_name name [] = name ∷ []
insert_name name (next ∷ rest) =
    let later = insert_name name rest in
    elim (compare name next) [
      | Ordering.lt ↦ name ∷ next ∷ rest
      | Ordering.eq ↦ next ∷ rest
      | Ordering.gt ↦ next ∷ later
    ]

-- A policy that is neither missing nor `preserve`.
abbrev pub may_delete : Option VolumeRetentionPolicy → Bool
may_delete none = false
may_delete (some policy) = not (is_preserve policy)

-- `local_retention_volume_names`
unfoldable pub local_retention_volume_names : String → List ResourcePlan → List String
unfolding insert_name compose_service_name_from_text
local_retention_volume_names project_name [] = []
local_retention_volume_names project_name (resource ∷ rest) =
    let names = local_retention_volume_names project_name rest in
    if may_delete resource.storage_retention_policy
      && (truthy resource.pod_input.network_volume_id
          && truthy resource.pod_input.volume_mount_path)
    then insert_name
        (project_name
          <> ("_"
              <> compose_service_name_from_text (value_or resource.pod_input.network_volume_id "")))
        names
    else names
