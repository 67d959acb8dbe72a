-- ===== src/Nodes/Models.antt =====
-- nodes.py: the nodes of language models, served in a pod or behind an API.
use comfyui_runpod_agentic_n.Base.{
  String, ◌<>◌, true, Option, none, some, List, [], ◌∷◌, ◌++◌, if◌then◌else◌, negsuc, is_empty,
  truthy, value_or, ◌==◌,
}
use comfyui_runpod_agentic_n.Base.Dict.{Dict, put}
use comfyui_runpod_agentic_n.Base.Result.{Result, ok}
use comfyui_runpod_agentic_n.Specs.{
  FailurePolicy, SecretRef, PortSpec, Protocol, RuntimeCommand, NetworkStorageSpec, LlmEngine,
  ApiFormat, LlmServerSpec, LlmProvider, LlmApiSpec,
}
use comfyui_runpod_agentic_n.Nodes.{Scripts, norm, meta_of, invalid, port_of, text_of}
use comfyui_runpod_agentic_n.Nodes.Services.{
  Placement, own_pod, same_pod, materialize, setup_command, contract_of, listed, secret_for,
  own_pod_key,
}

abbrev pub llm_text : LlmEngine → String
llm_text LlmEngine.ollama = "ollama"
llm_text LlmEngine.vllm = "vllm"

abbrev llm_format : LlmEngine → ApiFormat
llm_format LlmEngine.ollama = ApiFormat.ollama
llm_format LlmEngine.vllm = ApiFormat.openai

abbrev pub format_text : ApiFormat → String
format_text ApiFormat.openai = "openai"
format_text ApiFormat.ollama = "ollama"
format_text ApiFormat.anthropic = "anthropic"

abbrev placement_text : Placement → String
placement_text own_pod = "own_pod"
placement_text same_pod = "same_pod"

abbrev ollama_host : Placement → String
ollama_host own_pod = "crag://llm/ollama"
ollama_host same_pod = "http://127.0.0.1:11434"

abbrev vllm_url : Placement → String
vllm_url own_pod = "crag://llm/vllm/v1"
vllm_url same_pod = "http://127.0.0.1:8000/v1"

-- The values that the engine adds, and its port.
abbrev engine_values : LlmEngine → Placement → String → Dict String
engine_values LlmEngine.ollama placement model =
    ("OLLAMA_HOST", ollama_host placement)
    ∷ ("OLLAMA_MODEL", model)
    ∷ ("OPENAI_BASE_URL", ollama_host placement <> "/v1")
    ∷ []
engine_values LlmEngine.vllm placement model =
    ("OPENAI_BASE_URL", vllm_url placement) ∷ ("OPENAI_MODEL", model) ∷ []

abbrev engine_port : LlmEngine → PortSpec
engine_port LlmEngine.ollama = port_of "ollama" 11434 Protocol.http true
engine_port LlmEngine.vllm = port_of "vllm" 8000 Protocol.http true

-- How the server's API is protected.
pub data ApiAuthMode : Type 0 where
  open_access generated_token secret : ApiAuthMode

abbrev api_values : ApiAuthMode → Dict String
api_values generated_token = ("OPENAI_API_KEY", "crag-generated-at-apply") ∷ []
api_values _ = []

abbrev api_secret : ApiAuthMode → String → Option SecretRef
api_secret secret name = secret_for name "OPENAI_API_KEY"
api_secret _ name = none

abbrev start_commands : Scripts → LlmEngine → Placement → String → List RuntimeCommand
start_commands scripts engine own_pod model = []
start_commands scripts engine same_pod model =
    setup_command (scripts.same_pod_llm_start engine model) (negsuc 24999) FailurePolicy.fail
      ("llm:" <> (llm_text engine <> ":same_pod"))
    ∷ []

abbrev needed : LlmEngine → Placement → List String
needed engine own_pod = []
needed engine same_pod = llm_text engine ∷ []

abbrev if_own_pod : {A : Type 0} → Placement → Option A → Option A
if_own_pod own_pod a = a
if_own_pod same_pod a = none

-- `norm(placement)`, if it is one of the two.
unfoldable pub placement_of : String → Option Placement
unfolding norm
placement_of placement =
    if norm placement == "own_pod"
    then some own_pod
    else if norm placement == "same_pod"
    then some same_pod
    else none

unfoldable pub llm_server :
    Scripts
    → LlmEngine
    → String
    → Placement
    → ApiAuthMode
    → String
    → String
    → Option NetworkStorageSpec
    → String
    → Option String
    → LlmServerSpec
llm_server scripts engine model placement auth api_name hf_name network_storage display node_id =
    record {
      engine = engine;
      model = model;
      materialization = materialize placement;
      api_format = llm_format engine;
      runtime_contract =
          contract_of
            (("LLM_PROVIDER", llm_text engine)
              ∷ ("LLM_API_FORMAT", format_text (llm_format engine))
              ∷ ("LLM_MODEL", model)
              ∷ ("LLM_SERVER_PLACEMENT", placement_text placement)
              ∷ (engine_values engine placement model ++ api_values auth))
            (listed (api_secret auth api_name) ++ listed (secret_for hf_name "HF_TOKEN"))
            (engine_port engine ∷ []) [] (start_commands scripts engine placement model);
      required_image_capabilities = needed engine placement;
      template_key = own_pod_key placement ("rp-llm-" <> llm_text engine);
      hf_token_secret = secret_for hf_name "HF_TOKEN";
      api_key_secret = api_secret auth api_name;
      network_storage = if_own_pod placement network_storage;
      meta = meta_of node_id display;
    }

-- `LLMServerNode.build`
unfoldable pub build_llm_server :
    Scripts
    → String
    → String
    → String
    → ApiAuthMode
    → String
    → String
    → Option NetworkStorageSpec
    → Option String
    → Result LlmServerSpec
unfolding norm placement_of llm_server
build_llm_server scripts engine model placement auth api_name hf_name network_storage node_id =
    elim (placement_of placement) [
      | none ↦ invalid "LLM Server placement must be own_pod or same_pod."
      | some place ↦ ok (
          llm_server scripts (if norm engine == "vllm" then LlmEngine.vllm else LlmEngine.ollama)
            model place auth api_name hf_name network_storage engine node_id)
    ]

abbrev pub provider_text : LlmProvider → String
provider_text LlmProvider.codex = "codex"
provider_text LlmProvider.claude = "claude"
provider_text LlmProvider.ollama_cloud = "ollama_cloud"

abbrev api_format_of : LlmProvider → ApiFormat
api_format_of LlmProvider.codex = ApiFormat.openai
api_format_of LlmProvider.claude = ApiFormat.anthropic
api_format_of LlmProvider.ollama_cloud = ApiFormat.ollama

abbrev env_var_of : LlmProvider → String
env_var_of LlmProvider.codex = "OPENAI_API_KEY"
env_var_of LlmProvider.claude = "ANTHROPIC_API_KEY"
env_var_of LlmProvider.ollama_cloud = "OLLAMA_API_KEY"

-- The base URL, which Ollama Cloud always has.
abbrev base_url_of : LlmProvider → String → Option String
base_url_of LlmProvider.ollama_cloud override =
    some (if is_empty override then "https://ollama.com" else override)
base_url_of LlmProvider.codex override = text_of override
base_url_of LlmProvider.claude override = text_of override

abbrev provider_values : LlmProvider → String → String → Dict String
provider_values LlmProvider.ollama_cloud model base_url =
    ("LLM_PROVIDER", "ollama_cloud")
    ∷ ("LLM_API_FORMAT", "ollama")
    ∷ ("OLLAMA_HOST", base_url)
    ∷ ("OLLAMA_MODEL", model)
    ∷ ("LLM_MODEL", model)
    ∷ ("LLM_API_BASE_URL", base_url)
    ∷ []
provider_values LlmProvider.claude model base_url =
    ("LLM_PROVIDER", "claude")
    ∷ ("LLM_API_FORMAT", "anthropic")
    ∷ ("ANTHROPIC_MODEL", model)
    ∷ ("LLM_MODEL", model)
    ∷ []
provider_values LlmProvider.codex model base_url =
    ("LLM_PROVIDER", "codex")
    ∷ ("LLM_API_FORMAT", "openai")
    ∷ ("OPENAI_MODEL", model)
    ∷ ("LLM_MODEL", model)
    ∷ []

abbrev provider_secrets : LlmProvider → String → List SecretRef
provider_secrets LlmProvider.ollama_cloud name =
    listed (secret_for name "OLLAMA_API_KEY") ++ listed (secret_for name "OLLAMA_CLOUD_API_KEY")
provider_secrets LlmProvider.claude name = listed (secret_for name "ANTHROPIC_API_KEY")
provider_secrets LlmProvider.codex name = listed (secret_for name "OPENAI_API_KEY")

-- `values["LLM_API_BASE_URL"] = base_url`, and the OpenAI variable too where the format is OpenAI's.
abbrev put_base_url : LlmProvider → Option String → Dict String → Dict String
put_base_url LlmProvider.codex url values =
    if truthy url
    then put (put values "LLM_API_BASE_URL" (value_or url "")) "OPENAI_BASE_URL" (value_or url "")
    else values
put_base_url _ url values =
    if truthy url then put values "LLM_API_BASE_URL" (value_or url "") else values

unfoldable pub provider_of : String → LlmProvider
unfolding norm
provider_of provider =
    if norm provider == "ollama_cloud"
    then LlmProvider.ollama_cloud
    else if norm provider == "claude"
    then LlmProvider.claude
    else LlmProvider.codex

unfoldable pub llm_api :
    LlmProvider → String → String → String → String → Option String → LlmApiSpec
unfolding put
llm_api provider model api_name override display node_id =
    let url = base_url_of provider override in
    record {
      provider = provider;
      model = model;
      api_format = api_format_of provider;
      base_url = url;
      runtime_contract =
          contract_of (put_base_url provider url (provider_values provider model (value_or url "")))
            (provider_secrets provider api_name) [] [] [];
      api_key_secret = secret_for api_name (env_var_of provider);
      meta = meta_of node_id display;
    }

-- `LLMApiNode.build`
unfoldable pub build_llm_api : String → String → String → String → Option String → LlmApiSpec
unfolding provider_of llm_api
build_llm_api provider model api_name override node_id =
    llm_api (provider_of provider) model api_name override provider node_id
