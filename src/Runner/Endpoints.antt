-- ===== src/Runner/Endpoints.antt =====
-- runner.py: endpoints of pods, the addresses that the agent's environment refers to, probes, terminals,
-- and the redaction of a pod's input.
use comfyui_runpod_agentic_n.Base.{
  ℕ, ◌+◌, ◌*◌, ◌-◌, leb, String, ◌<>◌, Bool, false, ◌&&◌, ◌||◌, not, Option, none, some, List, [],
  ◌∷◌, if◌then◌else◌, ◌=ℕ=◌, ◌==◌, truthy, nonzero, value_or, text_or, or_text, starts_with,
  is_empty,
}
use comfyui_runpod_agentic_n.Base.Dict.{Dict, get, put}
use comfyui_runpod_agentic_n.Base.Text.{remove_prefix, codes}
use comfyui_runpod_agentic_n.Base.Result.{Result, ok, err, ErrorKind, ◌>>=◌}
use comfyui_runpod_agentic_n.Specs.{RuntimeContract}
use comfyui_runpod_agentic_n.Contracts.{with_env}
use comfyui_runpod_agentic_n.Contracts.Secrets.{is_sensitive_key}
use comfyui_runpod_agentic_n.Planner.Plan.{Role, PodInput, ResourcePlan, DeploymentPlan}
use comfyui_runpod_agentic_n.Planner.Env.{role_text}
use comfyui_runpod_agentic_n.Remote.Pod.{
  Pod, Port, pod_ports, private_of, public_of, host_of, address_of, empty_pod, is_lower_word,
}

abbrev has_address : Port → Bool
has_address port = truthy (host_of port) && nonzero (public_of port)

-- The first public port that is not that of SSH.
unfoldable pub first_endpoint : List Port → Option String
unfolding address_of
first_endpoint [] = none
first_endpoint (port ∷ rest) =
    let later = first_endpoint rest in
    if private_of port =ℕ= 22
    then later
    else if has_address port
    then some (address_of port)
    else later

unfoldable pub public_http_endpoint : Pod → Option String
unfolding first_endpoint
public_http_endpoint pod = first_endpoint (pod_ports pod)

unfoldable pub endpoint_at : List Port → ℕ → Option String
unfolding address_of
endpoint_at [] private_port = none
endpoint_at (port ∷ rest) private_port =
    let later = endpoint_at rest private_port in
    if not (private_of port =ℕ= private_port)
    then later
    else if has_address port
    then some (address_of port)
    else later

-- `replace_prefix`, which writes only to keys that are there.
unfoldable pub replace_prefix : Dict String → String → String → Dict String
replace_prefix [] placeholder endpoint = []
replace_prefix ((key, value) ∷ env) placeholder endpoint =
    (
      key,
      if starts_with value placeholder then endpoint <> remove_prefix placeholder value else value,
    )
    ∷ replace_prefix env placeholder endpoint

-- The two placeholders of a dependency's role.
abbrev pub placeholders : Role → Option (String × String)
placeholders Role.browser = some ("crag://browser/playwright", "crag://browser/neko")
placeholders Role.llm = some ("crag://llm/ollama", "crag://llm/vllm")
placeholders Role.sql = some ("crag://sql/postgres", "crag://sql/mysql")
placeholders Role.vector = some ("crag://vector/chroma", "crag://vector/qdrant")
placeholders Role.agent = none

abbrev pub replace_both : Dict String → Option (String × String) → Option String → Dict String
replace_both env none endpoint = env
replace_both env (some p) none = env
replace_both env (some (a, b)) (some endpoint) =
    replace_prefix (replace_prefix env a endpoint) b endpoint

unfoldable pub resolve_endpoints : List ResourcePlan → Dict Pod → Dict String → Dict String
unfolding public_http_endpoint replace_prefix get
resolve_endpoints [] pods env = env
resolve_endpoints (resource ∷ rest) pods env = resolve_endpoints rest pods (
    replace_both env (placeholders resource.role)
      (public_http_endpoint (value_or (get pods resource.name) empty_pod)))

unfoldable pub resolve_dependency_endpoints : DeploymentPlan → Dict Pod → RuntimeContract
unfolding resolve_endpoints with_env
resolve_dependency_endpoints plan pods =
    with_env plan.runtime_contract
      (resolve_endpoints plan.resources pods plan.runtime_contract.env.values)

abbrev provider_of : Dict String → String
provider_of env =
    value_or
      (or_text
        (or_text (or_text (get env "LLM_PROVIDER") (get env "VECTOR_KIND"))
          (get env "VECTOR_PROVIDER"))
        (get env "BROWSER_KIND"))
      ""

unfoldable pub readiness_probe_paths : Role → Dict String → List String
unfolding is_lower_word get
readiness_probe_paths role env =
    let is : String → Bool = λ word. is_lower_word word (provider_of env) in
    let other = "/" ∷ [] in
    elim role [
      | Role.browser ↦
          if is "playwright"
          then "/json/version" ∷ "/" ∷ []
          else if is "neko"
          then "/" ∷ "/api/health" ∷ []
          else other
      | Role.llm ↦
          if is "ollama"
          then "/api/tags" ∷ []
          else if is "vllm"
          then "/health" ∷ "/v1/models" ∷ []
          else other
      | Role.vector ↦
          if is "qdrant"
          then "/readyz" ∷ "/collections" ∷ []
          else if is "chroma"
          then "/api/v2/heartbeat" ∷ "/api/v1/heartbeat" ∷ []
          else other
      | _ ↦ other
    ]

-- `sanitize_pod_input`
unfoldable pub redact_sensitive : Dict String → Dict String
unfolding is_sensitive_key
redact_sensitive [] = []
redact_sensitive ((key, value) ∷ env) =
    (key, if is_sensitive_key key then "<redacted>" else value) ∷ redact_sensitive env

unfoldable pub sanitize_pod_input : PodInput → PodInput
unfolding redact_sensitive
sanitize_pod_input p = record p { env = redact_sensitive p.env }

abbrev has_env : Dict String → String → String → Bool
has_env env key value = elim (get env key) [ none ↦ false | some v ↦ v == value ]

-- The user and the password of a terminal that asks for them.
abbrev auth_of : Dict String → Option (String × String)
auth_of env =
    let username = text_or (get env "CRAG_WEB_TERMINAL_USERNAME") "" in
    let password = text_or (get env "CRAG_WEB_TERMINAL_PASSWORD") "" in
    if not (has_env env "CRAG_WEB_TERMINAL" "1")
      || not (has_env env "CRAG_WEB_TERMINAL_AUTH_MODE" "password")
    then none
    else if not (is_empty username) && not (is_empty password)
    then some (username, password)
    else none

abbrev put_if : {A : Type 0} → Dict A → String → Option A → Dict A
put_if d key none = d
put_if d key (some a) = put d key a

unfoldable pub terminal_auth : List ResourcePlan → Dict (String × String) → Dict (String × String)
unfolding get put
terminal_auth [] auth = auth
terminal_auth (resource ∷ rest) auth =
    terminal_auth rest (put_if auth (role_text resource.role) (auth_of resource.pod_input.env))

unfoldable pub terminal_auth_for_plan : DeploymentPlan → Dict (String × String)
unfolding terminal_auth
terminal_auth_for_plan plan = terminal_auth plan.resources []

-- `int(text)` of a text of decimal digits.
abbrev digits_value : ℕ → List ℕ → Option ℕ
digits_value acc [] = some acc
digits_value acc (c ∷ cs) =
    let later = digits_value (10 * acc + (c - b'0')) cs in
    if leb b'0' c && leb c b'9' then later else none

abbrev port_of : Dict String → Option ℕ
port_of env = digits_value 0 (codes (text_or (get env "CRAG_WEB_TERMINAL_PORT") "7681"))

abbrev url_of : ResourcePlan → Dict Pod → Result (Option String)
url_of resource pods =
    if not (has_env resource.pod_input.env "CRAG_WEB_TERMINAL" "1")
    then ok none
    else elim (port_of resource.pod_input.env) [
      | none ↦ err (record { kind = ErrorKind.value_error; message = "invalid literal for int()" })
      | some n ↦ ok (endpoint_at (pod_ports (value_or (get pods resource.name) empty_pod)) n)
    ]

unfoldable pub terminal_urls : List ResourcePlan → Dict Pod → Dict String → Result (Dict String)
unfolding get put endpoint_at
terminal_urls [] pods urls = ok urls
terminal_urls (resource ∷ rest) pods urls = url_of resource pods >>= λ url.
    terminal_urls rest pods (put_if urls (role_text resource.role) url)

unfoldable pub terminal_urls_for_pods : DeploymentPlan → Dict Pod → Result (Dict String)
unfolding terminal_urls
terminal_urls_for_pods plan pods = terminal_urls plan.resources pods []
