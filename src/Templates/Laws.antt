-- ===== src/Templates/Laws.antt =====
-- When the resolver finds a template for an agent, and which one.
use comfyui_runpod_agentic_n.Base.{
  String, ◌≡◌, refl, Option, none, some, List, [], ◌∷◌, arith, select, ◌↔◌, is_some, value_or,
}
use comfyui_runpod_agentic_n.Base.Dict.{get}
use comfyui_runpod_agentic_n.Base.Result.{ok, is_ok}
use comfyui_runpod_agentic_n.Templates.{
  TemplateResolver, TemplateSelection, AgentEntry, resolve_agent, resolve_id, resolve_entry,
  resolve_capabilities, select_for,
}

-- An agent resolves with a list of capabilities exactly in two cases, and so to this key: no
-- capability is asked for and the entry has a default, or one is and the entry lists it.
abbrev pub key_for : AgentEntry → List String → Option String
key_for entry [] = entry.default
key_for entry (capability ∷ []) = get (value_or entry.capabilities []) capability
key_for entry (capability ∷ more ∷ rest) = none

-- The same of a configuration: without an entry for the harness, no key is selected.
abbrev pub selected : Option AgentEntry → List String → Option String
selected none capabilities = none
selected (some entry) capabilities = key_for entry capabilities

resolve_entry_iff :
    (r : TemplateResolver) (harness : String) (found : Option AgentEntry)
    (capabilities : List String) (s : TemplateSelection)
    → (resolve_entry r harness found capabilities ≡ ok s) ↔ (
        (key : String) × (selected found capabilities ≡ some key)
        × (s.template_id ≡ resolve_id r key))
unfolding resolve_entry resolve_capabilities select_for select get
resolve_entry_iff r harness none capabilities s = (λ h. absurd (cc), λ (key, e, q). absurd (cc))
resolve_entry_iff r harness (some entry) [] s = (λ h. ground arith, λ (key, e, q). ground arith)
resolve_entry_iff r harness (some entry) (capability ∷ []) s =
    let p : get {V = String} [] capability ≡ none = refl in
    (λ h. ground (arith, p), λ (key, e, q). ground (arith, p))
resolve_entry_iff r harness (some entry) (capability ∷ more ∷ rest) s =
    (λ h. ground arith, λ (key, e, q). ground arith)

-- Resolving an agent gives a template exactly when the configuration has an entry for the harness and the
-- request selects a key of it: the default with no capability, the listed key with a single capability,
-- none with several. The template is the key's image in the id map, or the key itself.
pub resolve_agent_iff :
    (r : TemplateResolver) (harness : String) (capabilities : List String) (s : TemplateSelection)
    → (resolve_agent r harness capabilities ≡ ok s) ↔ (
        (key : String) × (selected (get r.config.agent_templates harness) capabilities ≡ some key)
        × (s.template_id ≡ resolve_id r key))
unfolding resolve_agent
resolve_agent_iff r harness capabilities s =
    resolve_entry_iff r harness (get r.config.agent_templates harness) capabilities s

-- Resolving gives a template exactly when a key is selected.
pub resolve_agent-is_ok :
    (r : TemplateResolver) (harness : String) (capabilities : List String) (entry : AgentEntry)
    → get r.config.agent_templates harness ≡ some entry
    → is_ok (resolve_agent r harness capabilities) ≡ is_some (key_for entry capabilities)
unfolding resolve_agent resolve_entry resolve_capabilities select_for select
resolve_agent-is_ok r harness [] entry found = ground arith
resolve_agent-is_ok r harness (capability ∷ []) entry found = ground arith
resolve_agent-is_ok r harness (capability ∷ more ∷ rest) entry found = ground arith
