-- ===== src/Runner/Substitution.antt =====
-- What runner.py changes in an environment: endpoints in place of placeholders, and redaction.
use comfyui_runpod_agentic_n.Base.{
  String, ◌<>◌, false, ◌≡◌, refl, Option, none, some, List, [], ◌∷◌, if◌then◌else◌, ◌==◌, eq_iff,
  arith, Bool-cases, inl, inr, ◌∙◌, starts_with,
}
use comfyui_runpod_agentic_n.Base.Dict.{Dict, get, get-update, UniqueKeys, last_of-eq-get}
use comfyui_runpod_agentic_n.Base.Text.{remove_prefix}
use comfyui_runpod_agentic_n.Planner.Plan.{Role, PodInput, ResourcePlan, DeploymentPlan}
use comfyui_runpod_agentic_n.Contracts.Secrets.{is_sensitive_key}
use comfyui_runpod_agentic_n.Remote.Pod.{Pod}
use comfyui_runpod_agentic_n.Runner.Endpoints.{
  replace_prefix, placeholders, replace_both, resolve_endpoints, resolve_dependency_endpoints,
  redact_sensitive, sanitize_pod_input,
}

get-redact_sensitive :
    (values : Dict String) (k : String)
    → get (redact_sensitive values) k ≡ (
        if is_sensitive_key k
        then elim (get values k) [ none ↦ none | some v ↦ some "<redacted>" ]
        else get values k)
unfolding redact_sensitive get
get-redact_sensitive [] k = ground arith
get-redact_sensitive ((j, v) ∷ values) k = ground (arith, eq_iff j k, get-redact_sensitive values k)

-- The pod input that is recorded as an event has every variable of the pod, with the value of a sensitive
-- one hidden and of any other as it is.
pub get-sanitize_pod_input :
    (p : PodInput) (k : String)
    → get (sanitize_pod_input p).env k ≡ (
        if is_sensitive_key k
        then elim (get p.env k) [ none ↦ none | some v ↦ some "<redacted>" ]
        else get p.env k)
unfolding sanitize_pod_input
get-sanitize_pod_input p k = get-redact_sensitive p.env k

abbrev swap : String → String → String → String
swap placeholder endpoint value =
    if starts_with value placeholder then endpoint <> remove_prefix placeholder value else value

get-replace_prefix :
    (env : Dict String) (placeholder endpoint k v : String)
    → get env k ≡ some v
    → get (replace_prefix env placeholder endpoint) k ≡ some (swap placeholder endpoint v)
unfolding replace_prefix get
get-replace_prefix [] placeholder endpoint k v h = absurd (cc)
get-replace_prefix ((j, w) ∷ env) placeholder endpoint k v h = elim (Bool-cases (j == k)) [
  | inl e ↦ let same : some w ≡ some v = rw e at h in let equal : w ≡ v = cc in rw (e, equal) refl
  | inr e ↦
      let later : get env k ≡ some v = rw e at h in
      rw e (get-replace_prefix env placeholder endpoint k v later)
]

replace_prefix-none :
    (env : Dict String) (placeholder endpoint k : String)
    → get env k ≡ none
    → get (replace_prefix env placeholder endpoint) k ≡ none
unfolding replace_prefix get
replace_prefix-none [] placeholder endpoint k h = refl
replace_prefix-none ((j, w) ∷ env) placeholder endpoint k h = elim (Bool-cases (j == k)) [
  | inl e ↦ let same : some w ≡ none = rw e at h in absurd (cc)
  | inr e ↦
      let later : get env k ≡ none = rw e at h in
      rw e (replace_prefix-none env placeholder endpoint k later)
]

replace_prefix-UniqueKeys :
    (env : Dict String) (placeholder endpoint : String)
    → UniqueKeys env
    → UniqueKeys (replace_prefix env placeholder endpoint)
unfolding replace_prefix
replace_prefix-UniqueKeys [] placeholder endpoint u = tt
replace_prefix-UniqueKeys ((j, w) ∷ env) placeholder endpoint u = (
  replace_prefix-none env placeholder endpoint j u.0,
  replace_prefix-UniqueKeys env placeholder endpoint u.1,
)

replace_both-UniqueKeys :
    (env : Dict String) (pair : Option (String × String)) (endpoint : Option String)
    → UniqueKeys env
    → UniqueKeys (replace_both env pair endpoint)
replace_both-UniqueKeys env none endpoint u = u
replace_both-UniqueKeys env (some p) none u = u
replace_both-UniqueKeys env (some (a, b)) (some endpoint) u =
    replace_prefix-UniqueKeys (replace_prefix env a endpoint) b endpoint
      (replace_prefix-UniqueKeys env a endpoint u)

resolve_endpoints-UniqueKeys :
    (resources : List ResourcePlan) (pods : Dict Pod) (env : Dict String)
    → UniqueKeys env
    → UniqueKeys (resolve_endpoints resources pods env)
unfolding resolve_endpoints
resolve_endpoints-UniqueKeys [] pods env u = u
resolve_endpoints-UniqueKeys (resource ∷ rest) pods env u =
    resolve_endpoints-UniqueKeys rest pods _
      (replace_both-UniqueKeys env (placeholders resource.role) _ u)

-- A value begins with none of the placeholders.
abbrev pub IsPlain : String → Type 0
IsPlain v =
    (role : Role) (p : String × String)
    → placeholders role ≡ some p
    → (starts_with v p.0 ≡ false) × (starts_with v p.1 ≡ false)

get-replace_both :
    (env : Dict String) (role : Role) (pair : Option (String × String)) (endpoint : Option String)
    (k v : String)
    → placeholders role ≡ pair
    → IsPlain v
    → get env k ≡ some v
    → get (replace_both env pair endpoint) k ≡ some v
get-replace_both env role none endpoint k v e plain h = h
get-replace_both env role (some p) none k v e plain h = h
get-replace_both env role (some (a, b)) (some endpoint) k v e plain h =
    let (x, y) = plain role (a, b) e in
    let first : get (replace_prefix env a endpoint) k ≡ some v =
      get-replace_prefix env a endpoint k v h ∙ rw x refl in
    get-replace_prefix (replace_prefix env a endpoint) b endpoint k v first ∙ rw y refl

get-resolve_endpoints :
    (resources : List ResourcePlan) (pods : Dict Pod) (env : Dict String) (k v : String)
    → IsPlain v
    → get env k ≡ some v
    → get (resolve_endpoints resources pods env) k ≡ some v
unfolding resolve_endpoints
get-resolve_endpoints [] pods env k v plain h = h
get-resolve_endpoints (resource ∷ rest) pods env k v plain h =
    get-resolve_endpoints rest pods _ k v plain
      (get-replace_both env resource.role (placeholders resource.role) _ k v refl plain h)

-- Resolving the endpoints of dependencies keeps each variable of the contract whose value begins with none
-- of the placeholders, if no key stands twice in the contract's environment.
pub get-resolve_dependency_endpoints :
    (plan : DeploymentPlan) (pods : Dict Pod) (k v : String)
    → UniqueKeys plan.runtime_contract.env.values
    → IsPlain v
    → get plan.runtime_contract.env.values k ≡ some v
    → get (resolve_dependency_endpoints plan pods).env.values k ≡ some v
unfolding resolve_dependency_endpoints
get-resolve_dependency_endpoints plan pods k v u plain h =
    let values = plan.runtime_contract.env.values in
    let resolved = resolve_endpoints plan.resources pods values in
    let kept = get-resolve_endpoints plan.resources pods values k v plain h in
    let last =
      last_of-eq-get resolved k (resolve_endpoints-UniqueKeys plan.resources pods values u) in
    get-update values resolved k ∙ rw (last, kept) refl
