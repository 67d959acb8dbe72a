-- ===== src/Planner/Env.antt =====
-- planner.py: names, environments and ports.
use comfyui_runpod_agentic_n.Base.{
  ℕ, String, ◌<>◌, Bool, true, false, ◌||◌, Option, none, some, List, [], ◌∷◌, ◌++◌, ◌==◌,
  if◌then◌else◌, ◌=ℕ=◌,
}
use comfyui_runpod_agentic_n.Base.Dict.{Dict, get, put, pop}
use comfyui_runpod_agentic_n.Base.Text.{rstrip_slash, decimal}
use comfyui_runpod_agentic_n.Specs.{
  SecretRef, PortSpec, RuntimeContract, KeepAliveMode, LimitAction, KeepAliveEnforcement, Protocol,
}
use comfyui_runpod_agentic_n.Specs.Deployment.{KeepAlivePolicy}
use comfyui_runpod_agentic_n.Contracts.{secret_placeholder}
use comfyui_runpod_agentic_n.Planner.Plan.{Role}

abbrev pub managed_by : String
managed_by = "comfyui-runpod-agentic"

abbrev pub role_text : Role → String
role_text Role.llm = "llm"
role_text Role.sql = "sql"
role_text Role.vector = "vector"
role_text Role.browser = "browser"
role_text Role.agent = "agent"

-- `for secret in contract.env.secrets: env[secret.env_var] = secret_placeholder(secret)`
unfoldable pub put_secrets : Dict String → List SecretRef → Dict String
unfolding put secret_placeholder
put_secrets env [] = env
put_secrets env (secret ∷ rest) =
    put_secrets (put env secret.env_var (secret_placeholder secret)) rest

unfoldable pub contract_env_for_creation : RuntimeContract → Dict String
unfolding put_secrets
contract_env_for_creation contract = put_secrets contract.env.values contract.env.secrets

abbrev keep_alive_mode_text : KeepAliveMode → String
keep_alive_mode_text KeepAliveMode.time = "time"
keep_alive_mode_text KeepAliveMode.turns = "turns"
keep_alive_mode_text KeepAliveMode.cost = "cost"
keep_alive_mode_text KeepAliveMode.manual = "manual"

abbrev pub limit_action_text : LimitAction → String
limit_action_text LimitAction.stop = "stop"
limit_action_text LimitAction.terminate = "terminate"

abbrev enforcement_text : KeepAliveEnforcement → String
enforcement_text KeepAliveEnforcement.server_side = "server_side"
enforcement_text KeepAliveEnforcement.pod_side = "pod_side"
enforcement_text KeepAliveEnforcement.both = "both"

-- `if value is not None: values[key] = str(value)`
abbrev put_some : Dict String → String → Option ℕ → (ℕ → String) → Dict String
put_some values key none text = values
put_some values key (some n) text = put values key (text n)

-- The variables that every policy sets but the manual one.
policy_env : (ℕ → String) → KeepAlivePolicy → Dict String
unfolding put decimal
policy_env float_text policy =
    let named =
      ("CRAG_KEEP_ALIVE_MODE", keep_alive_mode_text policy.mode)
      ∷ ("CRAG_KEEP_ALIVE_ACTION", limit_action_text policy.action)
      ∷ ("CRAG_KEEP_ALIVE_ENFORCEMENT", enforcement_text policy.enforcement)
      ∷ [] in
    let limited = put_some named "CRAG_KEEP_ALIVE_TURN_LIMIT" policy.turn_limit decimal in
    let priced =
      put_some limited "CRAG_KEEP_ALIVE_COST_LIMIT_USD" policy.cost_limit_usd float_text in
    put_some priced "CRAG_KEEP_ALIVE_IDLE_GRACE_SECONDS" policy.idle_grace_seconds decimal

abbrev pub is_manual_mode : KeepAliveMode → Bool
is_manual_mode KeepAliveMode.manual = true
is_manual_mode _ = false

unfoldable pub keep_alive_env : (ℕ → String) → Option KeepAlivePolicy → Dict String
unfolding policy_env
keep_alive_env float_text none = []
keep_alive_env float_text (some policy) =
    if is_manual_mode policy.mode then [] else policy_env float_text policy

abbrev has_value : Dict String → String → String → Bool
has_value env key value = elim (get env key) [ none ↦ false | some v ↦ v == value ]

-- The environment of a dependency's own pod: what points at the dependency itself is taken out.
dependency_env : Role → Dict String → Dict String
unfolding get put pop
dependency_env Role.llm env =
    if has_value env "LLM_PROVIDER" "ollama"
    then pop (put env "OLLAMA_HOST" "0.0.0.0:11434") "OPENAI_BASE_URL"
    else if has_value env "LLM_PROVIDER" "vllm"
    then pop env "OPENAI_BASE_URL"
    else env
dependency_env Role.browser env = pop (pop env "NEKO_URL") "PLAYWRIGHT_WS_ENDPOINT"
dependency_env Role.sql env = pop env "DATABASE_URL"
dependency_env Role.vector env = pop env "VECTOR_URL"
dependency_env Role.agent env = env

unfoldable pub dependency_pod_contract : Role → RuntimeContract → RuntimeContract
unfolding dependency_env
dependency_pod_contract role contract = record contract {
  env = record (contract.env) { values = dependency_env role contract.env.values };
}

unfoldable pub ssh_port : PortSpec
ssh_port = record { name = "ssh"; container_port = 22; protocol = Protocol.tcp; public = true }

abbrev pub has_ssh_port : List PortSpec → Bool
has_ssh_port [] = false
has_ssh_port (port ∷ rest) = port.container_port =ℕ= 22 || has_ssh_port rest

unfoldable pub ensure_ssh_port : List PortSpec → List PortSpec
unfolding ssh_port
ensure_ssh_port ports = if has_ssh_port ports then ports else ports ++ ssh_port ∷ []

-- `runtime_config_paths`
unfoldable pub runtime_config_paths : String → Dict String
unfolding rstrip_slash
runtime_config_paths workspace_path =
    let base = rstrip_slash workspace_path <> "/.runpod_agentic" in
    ("resources", base <> "/resources.json")
    ∷ ("session_env", base <> "/session.env")
    ∷ ("commands", base <> "/commands.json")
    ∷ []
