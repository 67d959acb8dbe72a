-- ===== src/Planner/Commands.antt =====
-- No command of a deployment is lost, repeated or moved to another stage.
use mathlib.Core.List.{Perm, append_assoc, map-append, perm_middle, perm_append_comm}
use mathlib.Core.List.Perm
use comfyui_runpod_agentic_n.Base.{
  ◌≡◌, ◌⊎◌, refl, ap, Bool, true, false, not, Option, none, some, List, [], ◌∷◌, ◌++◌, map, arith,
  select, inl, inr, Bool-cases, Option-cases,
}
use comfyui_runpod_agentic_n.Base.Result.{ok}
use comfyui_runpod_agentic_n.Base.Sort.{
  sorted_by, sorted_by-perm, sorted_by-IsSorted, select-IsSorted, IsSorted,
}
use comfyui_runpod_agentic_n.Specs.{CommandPhase, RuntimeContract, RuntimeCommand}
use comfyui_runpod_agentic_n.Specs.Deployment.{DeploymentSpec, SshCommandSpec, KeepAlivePolicy}
use comfyui_runpod_agentic_n.Planner.Plan.{
  CommandDetail, ResourcePlan, ActionKind, Detail, PlanAction, Ambient,
}
use comfyui_runpod_agentic_n.Planner.Actions.{
  is_before, is_after, is_teardown, create_action, wait_action, resolve_action, actions, agent_of,
  dependencies_of, runtime_detail, ssh_command_actions, ssh_detail, graph_commands, monitor_actions,
  agent_actions, actions_for, agent_action,
}

abbrev detail_list : ActionKind → Detail → List CommandDetail
detail_list ActionKind.run_ssh_command (Detail.command c) = c ∷ []
detail_list _ _ = []

-- The commands that a list of actions runs, in order.
abbrev pub commands_run : List PlanAction → List CommandDetail
commands_run [] = []
commands_run (a ∷ rest) = detail_list a.action a.detail ++ commands_run rest

commands_run-append :
    (xs ys : List PlanAction) → commands_run (xs ++ ys) ≡ commands_run xs ++ commands_run ys
commands_run-append [] ys = refl
commands_run-append (x ∷ xs) ys = simp (commands_run-append xs ys, append_assoc)

module _ {A : Type 0} (agent : ResourcePlan) (detail : A → CommandDetail) where
  commands_run-map :
      (xs : List A)
      → commands_run
          (map (λ c. agent_action agent ActionKind.run_ssh_command (Detail.command (detail c))) xs)
        ≡ map detail xs
  commands_run-map [] = refl
  commands_run-map (x ∷ xs) = ap (◌∷◌ (detail x)) (commands_run-map xs)

commands_run-create : (deps : List ResourcePlan) → commands_run (map create_action deps) ≡ []
unfolding create_action
commands_run-create [] = refl
commands_run-create (r ∷ rest) = commands_run-create rest

commands_run-wait : (deps : List ResourcePlan) → commands_run (map wait_action deps) ≡ []
unfolding wait_action
commands_run-wait [] = refl
commands_run-wait (r ∷ rest) = commands_run-wait rest

commands_run-resolve : (deps : List ResourcePlan) → commands_run (resolve_action deps) ≡ []
unfolding resolve_action
commands_run-resolve [] = refl
commands_run-resolve (r ∷ rest) = refl

commands_run-monitor :
    (agent : ResourcePlan) (policy : Option KeepAlivePolicy)
    → commands_run (monitor_actions agent policy) ≡ []
commands_run-monitor agent none = refl
commands_run-monitor agent (some policy) = refl

-- Splitting by two tests, the second of which is the first's negation.
module _ {A : Type 0} (p q : A → Bool) (opposite : (x : A) → q x ≡ not (p x)) where
  select-perm : (xs : List A) → Perm (select p xs ++ select q xs) xs
  unfolding select
  select-perm [] = Perm.refl []
  select-perm (x ∷ xs) = elim (Bool-cases (p x)) [
    | inl e ↦ rw (opposite x, e) (Perm.cons x (select-perm xs))
    | inr e ↦
        rw (opposite x, e)
          (Perm.trans (perm_middle (select p xs) (select q xs)) (Perm.cons x (select-perm xs)))
  ]

-- Where every item passes exactly one of three tests, the three selections hold all items.
module _ {A : Type 0} (p q r : A → Bool)
    (one : (x : A)
      → ((p x ≡ true) × (q x ≡ false) × (r x ≡ false))
        ⊎ ((p x ≡ false) × (q x ≡ true) × (r x ≡ false))
        ⊎ ((p x ≡ false) × (q x ≡ false) × (r x ≡ true))) where
  select_three-perm : (xs : List A) → Perm (select p xs ++ (select q xs ++ select r xs)) xs
  unfolding select
  select_three-perm [] = Perm.refl []
  select_three-perm (x ∷ xs) = elim (one x) [
    | inl (a, b, c) ↦ rw (a, b, c) (Perm.cons x (select_three-perm xs))
    | inr (inl (a, b, c)) ↦
        rw (a, b, c)
          (Perm.trans (perm_middle (select p xs) (select q xs ++ select r xs))
            (Perm.cons x (select_three-perm xs)))
    | inr (inr (a, b, c)) ↦
        rw (a, b, c)
          (Perm.trans (Perm.append_left (select p xs) (perm_middle (select q xs) (select r xs))) (
            Perm.trans (perm_middle (select p xs) (select q xs ++ select r xs))
              (Perm.cons x (select_three-perm xs))))
  ]

shuffle :
    {A : Type 0} (a b c d e : List A)
    → Perm ((a ++ (b ++ (c ++ d))) ++ e) ((a ++ (c ++ e)) ++ (b ++ d))
shuffle a b c d e = simp append_assoc (
    Perm.append_left a (
      Perm.trans (perm_append_comm b (c ++ (d ++ e))) (
        simp append_assoc
          (Perm.append_left c (rw (← append_assoc e b d) (perm_append_comm d (e ++ b)))))))

phase_one :
    (p : CommandPhase)
    → ((is_before p ≡ true) × (is_after p ≡ false) × (is_teardown p ≡ false))
      ⊎ ((is_before p ≡ false) × (is_after p ≡ true) × (is_teardown p ≡ false))
      ⊎ ((is_before p ≡ false) × (is_after p ≡ false) × (is_teardown p ≡ true))
phase_one p = ground arith

module _ (ambient : Ambient) (agent : ResourcePlan) (d : DeploymentSpec)
    (contract : RuntimeContract) where
  abbrev runtime_part : (CommandPhase → Bool) → List CommandDetail
  runtime_part phases =
      map (runtime_detail ambient)
        (sorted_by (λ c. c.order) (select (λ c. phases c.phase) contract.commands))

  abbrev graph_part : (CommandPhase → Bool) → List CommandDetail
  graph_part phases =
      map ssh_detail
        (select (λ c. phases c.phase) (sorted_by (λ c. c.order) (graph_commands d.ssh_commands)))

  commands_run-agent_actions :
      commands_run (agent_actions ambient agent d contract)
      ≡ runtime_part is_before
        ++ (graph_part is_before
            ++ (runtime_part is_after ++ (graph_part is_after ++ graph_part is_teardown)))
  unfolding agent_actions
  commands_run-agent_actions = simp (
    commands_run-append,
    commands_run-map agent (runtime_detail ambient),
    commands_run-map agent ssh_detail,
    commands_run-monitor agent d.keep_alive,
  )

  runtime_parts-perm :
      Perm
        (runtime_part is_before ++ (runtime_part is_after ++ runtime_part is_teardown))
        (map (runtime_detail ambient) contract.commands)
  runtime_parts-perm =
      let phased : (CommandPhase → Bool) → List RuntimeCommand =
        λ phases. select (λ c. phases c.phase) contract.commands in
      rw
        (
          ← map-append (runtime_detail ambient) (sorted_by (λ c. c.order) (phased is_after)) _,
          ← map-append (runtime_detail ambient) _ _,
        )
        (Perm.map (runtime_detail ambient) (
          Perm.trans
            (Perm.append (sorted_by-perm _ (phased is_before)) (
              Perm.append (sorted_by-perm _ (phased is_after))
                (sorted_by-perm _ (phased is_teardown))))
            (select_three-perm _ _ _ (λ c. phase_one c.phase) contract.commands)))

  graph_parts-perm :
      Perm
        (graph_part is_before ++ (graph_part is_after ++ graph_part is_teardown))
        (map ssh_detail (graph_commands d.ssh_commands))
  graph_parts-perm =
      let sorted = sorted_by (λ c. c.order) (graph_commands d.ssh_commands) in
      rw
        (
          ← map-append ssh_detail (select (λ c. is_after c.phase) sorted) _,
          ← map-append ssh_detail _ _,
        )
        (Perm.map ssh_detail (
          Perm.trans (select_three-perm _ _ _ (λ c. phase_one c.phase) sorted)
            (sorted_by-perm _ (graph_commands d.ssh_commands))))

  all_commands-perm :
      Perm (commands_run (agent_actions ambient agent d contract) ++ runtime_part is_teardown) (
        map (runtime_detail ambient) contract.commands
        ++ map ssh_detail (graph_commands d.ssh_commands))
  all_commands-perm = rw commands_run-agent_actions (
      Perm.trans
        (shuffle (runtime_part is_before) (graph_part is_before) (runtime_part is_after)
          (graph_part is_after ++ graph_part is_teardown) (runtime_part is_teardown))
        (Perm.append runtime_parts-perm graph_parts-perm))

  commands_run-actions_for :
      (deps : List ResourcePlan)
      → commands_run (actions_for ambient agent deps d contract)
        ≡ commands_run (agent_actions ambient agent d contract)
  unfolding actions_for
  commands_run-actions_for deps = simp (
    commands_run-append,
    commands_run-create deps,
    commands_run-wait deps,
    commands_run-resolve deps,
  )

-- The teardown commands of a contract.
abbrev pub contract_teardown : RuntimeContract → List RuntimeCommand
contract_teardown contract = select (λ c. is_teardown c.phase) contract.commands

-- The actions of a plan run every command of the graph once, and every command of the agent's
-- contract once, but for the contract's teardown commands, which no action runs: together with those
-- the commands that the actions run are the two lists, up to the order.
pub actions-commands :
    (ambient : Ambient) (resources : List ResourcePlan) (d : DeploymentSpec)
    (contract : RuntimeContract) (steps : List PlanAction)
    → actions ambient resources d contract ≡ ok steps
    → Perm
        (commands_run steps
          ++ map (runtime_detail ambient) (sorted_by (λ c. c.order) (contract_teardown contract)))
        (map (runtime_detail ambient) contract.commands
          ++ map ssh_detail (graph_commands d.ssh_commands))
unfolding actions
actions-commands ambient resources d contract steps h = elim (Option-cases (agent_of resources)) [
  | inl e ↦ absurd (ground arith)
  | inr (agent, e) ↦
      let deps = dependencies_of resources in
      let same : actions_for ambient agent deps d contract ≡ steps = ground arith in
      rw (← same, commands_run-actions_for ambient agent d contract deps)
        (all_commands-perm ambient agent d contract)
]

-- The commands of the graph that stand in one part of a plan stand in ascending order.
pub ssh_command_actions-IsSorted :
    (agent : ResourcePlan) (spec : Option SshCommandSpec) (phases : CommandPhase → Bool)
    → (commands_run (ssh_command_actions agent spec phases)
        ≡ map ssh_detail
            (select (λ c. phases c.phase) (sorted_by (λ c. c.order) (graph_commands spec))))
      × IsSorted
          (λ c. c.order)
          (select (λ c. phases c.phase) (sorted_by (λ c. c.order) (graph_commands spec)))
unfolding ssh_command_actions
ssh_command_actions-IsSorted agent spec phases = (
  commands_run-map agent ssh_detail _,
  select-IsSorted (λ c. c.order) (λ c. phases c.phase) _
      (sorted_by-IsSorted (λ c. c.order) (graph_commands spec)),
)
