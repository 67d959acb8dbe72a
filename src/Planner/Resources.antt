-- ===== src/Planner/Resources.antt =====
-- What a successful `build` holds, and when it succeeds.
use mathlib.Core.Path.{ap₂, subst}
use mathlib.Core.List.{map-append}
use comfyui_runpod_agentic_n.Base.{
  String, ◌<>◌, ◌≡◌, ◌↔◌, refl, ap, sym, true, false, Option, none, some, List, [], ◌∷◌, ◌++◌, map,
  arith, inl, inr, Bool-cases,
}
use comfyui_runpod_agentic_n.Base.Result.{
  Result, ok, err, is_ok, ◌>>=◌, >>=-eq-ok, ok_injective, Returns-bind, Returns-at,
}
use comfyui_runpod_agentic_n.Base.Text.{first}
use comfyui_runpod_agentic_n.Base.Sort.{All}
use comfyui_runpod_agentic_n.Specs.{RunMode, RuntimeContract}
use comfyui_runpod_agentic_n.Specs.Deployment.{DeploymentSpec}
use comfyui_runpod_agentic_n.Templates.{
  TemplateResolver, TemplateSelection, resolve_agent, resolve_app,
}
use comfyui_runpod_agentic_n.Validation.{validate_deployment}
use comfyui_runpod_agentic_n.Planner.Plan.{
  Role, AppSpec, ResourcePlan, PlanAction, DeploymentPlan, Ambient,
}
use comfyui_runpod_agentic_n.Planner.PodInput.{app_role, app_kind, app_engine, own_pod_dependencies}
use comfyui_runpod_agentic_n.Planner.Actions.{actions, agent_of, is_agent}
use comfyui_runpod_agentic_n.Planner.Order.{IsOrdered, actions-IsOrdered}
use comfyui_runpod_agentic_n.Planner.Build.{
  build, dependency_resource, dependency_resources, agent_contract, agent_resource,
  workflow_hash_of, harness_text,
}

module _ (ambient : Ambient) (resolver : TemplateResolver) (d : DeploymentSpec) (w : String) where
  dependency_resource-role :
      (spec : AppSpec) (r : ResourcePlan)
      → dependency_resource ambient resolver d w spec ≡ ok r
      → r.role ≡ app_role spec
  unfolding dependency_resource
  dependency_resource-role spec r h =
      let (selection, _, e) =
        >>=-eq-ok (resolve_app resolver (app_kind spec) (app_engine spec)) _ h in
      sym (ap (λ (r : ResourcePlan). r.role) (ok_injective _ r e))

  dependency_resources-roles :
      (specs : List AppSpec) (rs : List ResourcePlan)
      → dependency_resources ambient resolver d w specs ≡ ok rs
      → map (λ r. r.role) rs ≡ map app_role specs
  unfolding dependency_resources
  dependency_resources-roles [] rs h =
      ap (map (λ (r : ResourcePlan). r.role)) (sym (ok_injective [] rs h))
  dependency_resources-roles (spec ∷ specs) rs h =
      Returns-at (λ (rs : List ResourcePlan). map (λ r. r.role) rs ≡ map app_role (spec ∷ specs)) _
        rs
        (Returns-bind _ _ _ (λ r er. Returns-bind _ _ _ (λ rest erest.
          ap₂ ◌∷◌ (dependency_resource-role spec r er)
            (dependency_resources-roles specs rest erest))))
        h

agent_of-append :
    (rs : List ResourcePlan) (agent : ResourcePlan)
    → is_agent agent.role ≡ true
    → (a : ResourcePlan) × (agent_of (rs ++ agent ∷ []) ≡ some a)
unfolding agent_of
agent_of-append [] agent h = (agent, rw h)
agent_of-append (r ∷ rs) agent h = elim (Bool-cases (is_agent r.role)) [
  | inl e ↦ (r, rw e)
  | inr e ↦ let (a, found) = agent_of-append rs agent h in (a, rw e found)
]

agent_resource-role :
    (ambient : Ambient) (d : DeploymentSpec) (w t : String) (contract : RuntimeContract)
    → (agent_resource ambient d w t contract).role ≡ Role.agent
unfolding agent_resource
agent_resource-role ambient d w t contract = refl

-- What a plan says of the deployment: the resources by role, the actions, and their order.
abbrev pub IsPlanOf : Ambient → DeploymentSpec → DeploymentPlan → Type 0
IsPlanOf ambient d plan =
    (map (λ r. r.role) plan.resources ≡ map app_role (own_pod_dependencies d) ++ Role.agent ∷ [])
    × (actions ambient plan.resources d plan.runtime_contract ≡ ok plan.actions)
    × IsOrdered plan.actions

-- A plan that is built has one resource for each dependency with a pod of its own, in the order LLM
-- server, SQL database, vector database and browser, and then the agent; its actions are those of
-- these resources and of its own contract; and they stand in the order of their stages.
pub build_lem :
    (ambient : Ambient) (resolver : TemplateResolver) (d : DeploymentSpec) (mode : RunMode)
    (prompt : String) (graph : Option String) (plan : DeploymentPlan)
    → build ambient resolver d mode prompt graph ≡ ok plan
    → IsPlanOf ambient d plan
unfolding build
build_lem ambient resolver d mode prompt graph plan h =
    let w = workflow_hash_of ambient d graph in
    let contract = agent_contract ambient d ("crag-" <> first 12 ambient.uuid_hex) w prompt in
    let (ws, _, h1) = >>=-eq-ok (validate_deployment d mode false none) _ h in
    let (deps, edeps, h2) =
      >>=-eq-ok (dependency_resources ambient resolver d w (own_pod_dependencies d)) _ h1 in
    let (selection, _, h3) =
      >>=-eq-ok
        (resolve_agent resolver (harness_text d.primary_app.harness)
          d.primary_app.required_image_capabilities)
        _ h2 in
    let agent = agent_resource ambient d w selection.template_id contract in
    let (steps, esteps, h4) = >>=-eq-ok (actions ambient (deps ++ agent ∷ []) d contract) _ h3 in
    subst (IsPlanOf ambient d) (ok_injective _ plan h4) (
      rw (map-append (λ (r : ResourcePlan). r.role) deps (agent ∷ [])) (
          ap₂ ◌++◌ (dependency_resources-roles ambient resolver d w _ deps edeps) (
            ap (λ (r : Role). r ∷ [])
              (agent_resource-role ambient d w selection.template_id contract))),
      esteps,
      actions-IsOrdered ambient (deps ++ agent ∷ []) d contract steps esteps,
    )

module _ {A B : Type 0} where
  bind-ok_iff :
      (m : Result A) (f : A → Result B) (P : Type 0)
      → ((a : A) → m ≡ ok a → (is_ok (f a) ≡ true) ↔ P)
      → (is_ok (m >>= f) ≡ true) ↔ ((is_ok m ≡ true) × P)
  bind-ok_iff (ok a) f P h = (λ g. (refl, (h a refl).0 g), λ g. (h a refl).1 g.1)
  bind-ok_iff (err e) f P h = (λ g. absurd (cc), λ g. absurd (cc (g.0)))

  bind_always : (m : Result A) (f : A → B) → (is_ok (m >>= λ a. ok (f a)) ≡ true) ↔ (is_ok m ≡ true)
  bind_always (ok a) f = (λ g. refl, λ g. refl)
  bind_always (err e) f = (λ g. absurd (cc), λ g. absurd (cc))

module _ (ambient : Ambient) (resolver : TemplateResolver) (d : DeploymentSpec) (w : String) where
  dependency_resource-ok_iff :
      (s : AppSpec)
      → (is_ok (dependency_resource ambient resolver d w s) ≡ true)
        ↔ (is_ok (resolve_app resolver (app_kind s) (app_engine s)) ≡ true)
  unfolding dependency_resource
  dependency_resource-ok_iff s = bind_always (resolve_app resolver (app_kind s) (app_engine s)) _

  resolve-All_iff :
      (specs : List AppSpec)
      → (is_ok (dependency_resources ambient resolver d w specs) ≡ true)
        ↔ All (λ s. is_ok (resolve_app resolver (app_kind s) (app_engine s)) ≡ true) specs
  unfolding dependency_resources
  resolve-All_iff [] = (λ h. tt, λ h. refl)
  resolve-All_iff (s ∷ specs) =
      let ih = resolve-All_iff specs in
      let one = dependency_resource-ok_iff s in
      let chain =
        bind-ok_iff (dependency_resource ambient resolver d w s) _
          (is_ok (dependency_resources ambient resolver d w specs) ≡ true)
          (λ r e. bind_always (dependency_resources ambient resolver d w specs) (λ rs. r ∷ rs)) in
      (λ h. (one.0 (chain.0 h).0, ih.0 (chain.0 h).1), λ h. chain.1 (one.1 h.0, ih.1 h.1))

actions-ok :
    (ambient : Ambient) (deps : List ResourcePlan) (agent : ResourcePlan) (d : DeploymentSpec)
    (contract : RuntimeContract)
    → agent.role ≡ Role.agent
    → is_ok (actions ambient (deps ++ agent ∷ []) d contract) ≡ true
unfolding actions
actions-ok ambient deps agent d contract h =
    let (a, found) = agent_of-append deps agent (ground arith) in rw (found, actions, is_ok) refl

agent_last :
    (ambient : Ambient) (d : DeploymentSpec) (contract : RuntimeContract) (w : String)
    (deps : List ResourcePlan) (agent : Result TemplateSelection)
    (f : TemplateSelection → List PlanAction → DeploymentPlan)
    → (is_ok (
          agent >>= λ s.
          actions ambient
            (deps ++ agent_resource ambient d w s.template_id contract ∷ [])
            d
            contract
          >>= λ steps. ok (f s steps))
        ≡ true)
      ↔ (is_ok agent ≡ true)
agent_last ambient d contract w deps (err e) f = (λ g. absurd (cc), λ g. absurd (cc))
agent_last ambient d contract w deps (ok s) f = (
  λ g. refl,
  λ g.
      (bind_always
          (actions ambient (deps ++ agent_resource ambient d w s.template_id contract ∷ []) d
            contract)
          (f s)).1
        (actions-ok ambient deps _ d contract
          (agent_resource-role ambient d w s.template_id contract)),
)

-- A plan is built exactly when the deployment passes validation, every dependency with a pod of its
-- own has a template, and the agent has one for its capabilities. In particular the search for the
-- agent among the resources never fails.
pub build_ok_iff :
    (ambient : Ambient) (resolver : TemplateResolver) (d : DeploymentSpec) (mode : RunMode)
    (prompt : String) (graph : Option String)
    → (is_ok (build ambient resolver d mode prompt graph) ≡ true) ↔ (
        (is_ok (validate_deployment d mode false none) ≡ true)
        × All
            (λ s. is_ok (resolve_app resolver (app_kind s) (app_engine s)) ≡ true)
            (own_pod_dependencies d)
        × (is_ok (
              resolve_agent resolver
                (harness_text d.primary_app.harness)
                d.primary_app.required_image_capabilities)
            ≡ true))
unfolding build
build_ok_iff ambient resolver d mode prompt graph =
    let w = workflow_hash_of ambient d graph in
    let contract = agent_contract ambient d ("crag-" <> first 12 ambient.uuid_hex) w prompt in
    let all = resolve-All_iff ambient resolver d w (own_pod_dependencies d) in
    let agent =
      resolve_agent resolver (harness_text d.primary_app.harness)
        d.primary_app.required_image_capabilities in
    let chain =
      bind-ok_iff (validate_deployment d mode false none) _
        ((is_ok (dependency_resources ambient resolver d w (own_pod_dependencies d)) ≡ true)
          × (is_ok agent ≡ true))
        (λ ws e.
          bind-ok_iff (dependency_resources ambient resolver d w (own_pod_dependencies d)) _
            (is_ok agent ≡ true) (λ deps e. agent_last ambient d contract w deps agent _)) in
    (
      λ h. ((chain.0 h).0, all.0 (chain.0 h).1.0, (chain.0 h).1.1),
      λ h. chain.1 (h.0, (all.1 h.1, h.2)),
    )
