-- ===== src/Templates.antt =====
-- template_resolver.py: from a harness or an app to the id of a Runpod template. The configuration
-- and the id map are values that the caller has loaded.
pub mod Laws
use comfyui_runpod_agentic_n.Base.{
  String, ◌<>◌, Bool, true, false, ◌&&◌, not, Option, none, some, List, [], ◌∷◌, map, if◌then◌else◌,
  is_some, is_empty, truthy, select, starts_with, value_or,
}
use comfyui_runpod_agentic_n.Base.Dict.{Dict, get}
use comfyui_runpod_agentic_n.Base.Result.{
  Result, ok, err, template_resolution_error, key_error, raise_if, require, ◌>>=◌, ◌>>◌,
}

-- One entry of `agent_templates`, with the two keys that are read of it.
pub record AgentEntry : Type 0 where
  pub default : Option String
  pub capabilities : Option (Dict String)

pub record TemplateConfig : Type 0 where
  pub agent_templates : Dict AgentEntry
  pub app_templates : Dict (Dict String)

pub record TemplateResolver : Type 0 where
  pub config : TemplateConfig
  pub template_ids : Dict String

-- The selections that the resolver makes set the template id only.
pub record TemplateSelection : Type 0 where
  pub template_id : String

abbrev raise : String → Result TemplateSelection
raise message = err (record { kind = template_resolution_error; message = message })

abbrev is_missing : Dict String → String → Bool
is_missing templates capability = not (is_some (get templates capability))

abbrev join : String → List String → String
join sep [] = ""
join sep (s ∷ []) = s
join sep (s ∷ t ∷ rest) = s <> (sep <> join sep (t ∷ rest))

unfoldable pub resolve_id : TemplateResolver → String → String
resolve_id r key_or_id = value_or (get r.template_ids key_or_id) key_or_id

select_for : TemplateResolver → String → Result TemplateSelection
unfolding resolve_id
select_for r key = ok (record { template_id = resolve_id r key })

abbrev has_items : List String → Bool
has_items [] = false
has_items (x ∷ xs) = true

-- `not entry`: the mapping has no key.
abbrev is_empty_entry : AgentEntry → Bool
is_empty_entry entry = not (is_some entry.default) && not (is_some entry.capabilities)

-- The part of `resolve_agent` that is reached with capabilities.
resolve_capabilities :
    TemplateResolver → String → Dict String → String → List String → Result TemplateSelection
unfolding select_for select
resolve_capabilities r harness templates capability more = do
  let missing = select (is_missing templates) (capability ∷ more)
  raise_if (has_items missing) template_resolution_error (
      "Agent template "
      <> (harness <> (" lacks required capabilities: " <> (join ", " missing <> "."))))
  raise_if (has_items more) template_resolution_error
      "Multiple same-pod capabilities require an explicit combined template."
  key ← require (get templates capability) key_error capability
  select_for r key

resolve_entry :
    TemplateResolver → String → Option AgentEntry → List String → Result TemplateSelection
unfolding resolve_capabilities
resolve_entry r harness none capabilities =
    raise ("No agent template configured for harness " <> (harness <> "."))
resolve_entry r harness (some entry) [] = do
  raise_if (is_empty_entry entry) template_resolution_error
      ("No agent template configured for harness " <> (harness <> "."))
  key ← require entry.default key_error "default"
  select_for r key
resolve_entry r harness (some entry) (capability ∷ more) = do
  raise_if (is_empty_entry entry) template_resolution_error
      ("No agent template configured for harness " <> (harness <> "."))
  resolve_capabilities r harness (value_or entry.capabilities []) capability more

unfoldable pub resolve_agent : TemplateResolver → String → List String → Result TemplateSelection
unfolding resolve_entry get
resolve_agent r harness capabilities =
    resolve_entry r harness (get r.config.agent_templates harness) capabilities

unfoldable pub resolve_app : TemplateResolver → String → String → Result TemplateSelection
unfolding select_for get
resolve_app r kind engine =
    let template_id = get (value_or (get r.config.app_templates kind) []) engine in
    if truthy template_id
    then select_for r (value_or template_id "")
    else raise ("No template configured for " <> (kind <> ("/" <> (engine <> "."))))

-- `is_unresolved_template_key`
unfoldable pub is_unresolved_template_key : String → Bool
is_unresolved_template_key template_id = not (is_empty template_id) && starts_with template_id "rp-"

abbrev pub agent_entry : String → List String → AgentEntry
agent_entry name capabilities = record {
  default = some ("rp-agent-" <> name);
  capabilities = some (map (λ c. (c, "rp-agent-" <> (name <> ("-" <> c)))) capabilities);
}

-- `DEFAULT_TEMPLATE_CONFIG`
abbrev pub default_template_config : TemplateConfig
default_template_config = record {
  agent_templates =
      ("codex", agent_entry "codex" ("playwright" ∷ "ollama" ∷ "vllm" ∷ []))
      ∷ ("claude", agent_entry "claude" ("playwright" ∷ "ollama" ∷ "vllm" ∷ []))
      ∷ ("opencode", agent_entry "opencode" ("playwright" ∷ "ollama" ∷ "vllm" ∷ []))
      ∷ ("hermes", agent_entry "hermes" ("ollama" ∷ "vllm" ∷ []))
      ∷ ("pi", agent_entry "pi" ("ollama" ∷ "vllm" ∷ []))
      ∷ [];
  app_templates =
      ("browser", ("playwright", "rp-browser-playwright") ∷ ("neko", "rp-browser-neko") ∷ [])
      ∷ ("llm_server", ("ollama", "rp-llm-ollama") ∷ ("vllm", "rp-llm-vllm") ∷ [])
      ∷ ("sql_database", ("postgres", "rp-db-postgres") ∷ ("mysql", "rp-db-mysql") ∷ [])
      ∷ ("vector_database", ("chroma", "rp-vector-chroma") ∷ ("qdrant", "rp-vector-qdrant") ∷ [])
      ∷ [];
}
