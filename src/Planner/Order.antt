-- ===== src/Planner/Order.antt =====
-- The actions of a plan stand in the order of their stages.
use mathlib.Core.Path.{subst}
use comfyui_runpod_agentic_n.Base.{
  ℕ, ◌≤◌, ◌≡◌, refl, Bool, true, false, not, Option, none, some, List, [], ◌∷◌, ◌++◌, map, arith,
  if◌then◌else◌, inl, inr, Option-cases,
}
use comfyui_runpod_agentic_n.Base.Result.{ok}
use comfyui_runpod_agentic_n.Base.Sort.{All, All-select, All-map, All-imp, All-sorted_by}
use comfyui_runpod_agentic_n.Specs.{CommandPhase, RuntimeContract}
use comfyui_runpod_agentic_n.Specs.Deployment.{DeploymentSpec, SshCommandSpec, KeepAlivePolicy}
use comfyui_runpod_agentic_n.Planner.Plan.{
  Role, ResourcePlan, ActionKind, Detail, PlanAction, Ambient,
}
use comfyui_runpod_agentic_n.Planner.Actions.{
  is_agent, is_before, is_after, is_teardown, dependencies_of, agent_of, create_action, wait_action,
  resolve_action, runtime_command_actions, runtime_detail, ssh_command_actions, ssh_detail,
  monitor_actions, agent_actions, actions_for, actions,
}

abbrev phase_stage : CommandPhase → ℕ
phase_stage CommandPhase.before_start = 5
phase_stage CommandPhase.after_start = 8
phase_stage CommandPhase.after_ready = 8
phase_stage CommandPhase.teardown = 10

abbrev command_stage : Detail → ℕ
command_stage (Detail.command c) = phase_stage c.phase
command_stage _ = 11

abbrev create_stage : Option Role → ℕ
create_stage none = 11
create_stage (some role) = if is_agent role then 3 else 0

abbrev stage_of : ActionKind → Option Role → Detail → ℕ
stage_of ActionKind.create_or_resume role _ = create_stage role
stage_of ActionKind.wait_ready role _ = 1
stage_of ActionKind.resolve_dependency_contracts role _ = 2
stage_of ActionKind.wait_ssh role _ = 4
stage_of ActionKind.run_ssh_command role extra = command_stage extra
stage_of ActionKind.write_runtime_config role _ = 6
stage_of ActionKind.launch_agent role _ = 7
stage_of ActionKind.monitor_keep_alive role _ = 9

-- The stage of an action: the pods of the dependencies are created, then awaited, then resolved;
-- then the agent's pod is created and reached, the commands before the start run, the runtime files
-- are written, the agent is launched, the commands after the start run, the keep-alive is monitored
-- and the teardown commands stand last.
abbrev pub stage : PlanAction → ℕ
stage a = stage_of a.action a.role a.detail

abbrev pub IsOrdered : List PlanAction → Type 0
IsOrdered [] = Unit
IsOrdered (a ∷ steps) = All (λ b. stage a ≤ stage b) steps × IsOrdered steps

-- Ordered, and nothing stands before stage `n`.
record From (n : ℕ) (steps : List PlanAction) : Type 0 where
  above : All (λ a. n ≤ stage a) steps
  ordered : IsOrdered steps

abbrev At : ℕ → List PlanAction → Type 0
At n steps = All (λ a. stage a ≡ n) steps

From-nil : (n : ℕ) → From n []
From-nil n = record { above = tt; ordered = tt }

From-append :
    (n m : ℕ) (steps later : List PlanAction)
    → n ≤ m
    → At n steps
    → From m later
    → From n (steps ++ later)
From-append n m [] later le at f = record {
  above = All-imp (λ a. m ≤ stage a) (λ a. n ≤ stage a) (λ a h. omega arith) later f.above;
  ordered = f.ordered;
}
From-append n m (a ∷ steps) later le at f =
    let rest = From-append n m steps later le at.1 f in
    record {
      above = (omega (arith, at.0), rest.above);
      ordered = (
        All-imp (λ b. n ≤ stage b) (λ b. stage a ≤ stage b) (λ b h. omega (arith, at.0)) _
            rest.above,
        rest.ordered,
      );
    }

From-cons :
    (n m : ℕ) (a : PlanAction) (later : List PlanAction)
    → n ≤ m
    → stage a ≡ n
    → From m later
    → From n (a ∷ later)
From-cons n m a later le at f = From-append n m (a ∷ []) later le (at, tt) f

create-At :
    (deps : List ResourcePlan)
    → All (λ r. is_agent r.role ≡ false) deps
    → At 0 (map create_action deps)
unfolding create_action
create-At [] h = tt
create-At (r ∷ rest) h = (ground arith, create-At rest h.1)

wait-At : (deps : List ResourcePlan) → At 1 (map wait_action deps)
unfolding wait_action
wait-At [] = tt
wait-At (r ∷ rest) = (refl, wait-At rest)

resolve-At : (deps : List ResourcePlan) → At 2 (resolve_action deps)
unfolding resolve_action
resolve-At [] = tt
resolve-At (r ∷ rest) = (refl, tt)

monitor-At :
    (agent : ResourcePlan) (policy : Option KeepAlivePolicy) → At 9 (monitor_actions agent policy)
monitor-At agent none = tt
monitor-At agent (some policy) = (refl, tt)

-- The commands of the phases that a test accepts have one stage.
module _ (phases : CommandPhase → Bool) (n : ℕ)
    (staged : (p : CommandPhase) → phases p ≡ true → phase_stage p ≡ n) where
  runtime-At :
      (ambient : Ambient) (agent : ResourcePlan) (contract : RuntimeContract)
      → At n (runtime_command_actions ambient agent contract phases)
  unfolding runtime_command_actions runtime_detail
  runtime-At ambient agent contract =
      All-map (λ a. stage a ≡ n) _ _
        (All-sorted_by (λ c. c.order) (λ c. phase_stage c.phase ≡ n) _
          (All-imp (λ c. phases c.phase ≡ true) (λ c. phase_stage c.phase ≡ n)
            (λ c h. staged c.phase h) _ (All-select (λ c. phases c.phase) contract.commands)))

  ssh-At :
      (agent : ResourcePlan) (spec : Option SshCommandSpec)
      → At n (ssh_command_actions agent spec phases)
  unfolding ssh_command_actions ssh_detail
  ssh-At agent spec =
      All-map (λ a. stage a ≡ n) _ _
        (All-imp (λ c. phases c.phase ≡ true) (λ c. phase_stage c.phase ≡ n)
          (λ c h. staged c.phase h) _ (All-select (λ c. phases c.phase) _))

before_stage : (p : CommandPhase) → is_before p ≡ true → phase_stage p ≡ 5
before_stage p h = ground arith

after_stage : (p : CommandPhase) → is_after p ≡ true → phase_stage p ≡ 8
after_stage p h = ground arith

teardown_stage : (p : CommandPhase) → is_teardown p ≡ true → phase_stage p ≡ 10
teardown_stage p h = ground arith

From-At : (n : ℕ) (steps : List PlanAction) → At n steps → From n steps
From-At n [] at = From-nil n
From-At n (a ∷ steps) at = From-cons n n a steps (omega arith) at.0 (From-At n steps at.1)

agent_actions-From :
    (ambient : Ambient) (agent : ResourcePlan) (d : DeploymentSpec) (contract : RuntimeContract)
    → From 3 (agent_actions ambient agent d contract)
unfolding agent_actions
agent_actions-From ambient agent d contract = From-cons 3 4 _ _ (omega arith) refl (
    From-cons 4 5 _ _ (omega arith) refl (
      From-append 5 5 _ _ (omega arith) (runtime-At is_before 5 before_stage ambient agent contract)
        (From-append 5 6 _ _ (omega arith) (ssh-At is_before 5 before_stage agent d.ssh_commands) (
          From-cons 6 7 _ _ (omega arith) refl (
            From-cons 7 8 _ _ (omega arith) refl (
              From-append 8 8 _ _ (omega arith)
                (runtime-At is_after 8 after_stage ambient agent contract)
                (From-append 8 9 _ _ (omega arith)
                  (ssh-At is_after 8 after_stage agent d.ssh_commands)
                  (From-append 9 10 _ _ (omega arith) (monitor-At agent d.keep_alive) (
                    From-At 10 _
                      (ssh-At is_teardown 10 teardown_stage agent d.ssh_commands))))))))))

not_agent : (r : ResourcePlan) → not (is_agent r.role) ≡ true → is_agent r.role ≡ false
not_agent r h = ground arith

dependencies_of-deps :
    (resources : List ResourcePlan) → All (λ r. is_agent r.role ≡ false) (dependencies_of resources)
unfolding dependencies_of
dependencies_of-deps resources =
    All-imp (λ r. not (is_agent r.role) ≡ true) (λ r. is_agent r.role ≡ false) not_agent _
      (All-select (λ r. not (is_agent r.role)) resources)

actions_for-IsOrdered :
    (ambient : Ambient) (agent : ResourcePlan) (resources : List ResourcePlan) (d : DeploymentSpec)
    (contract : RuntimeContract)
    → IsOrdered (actions_for ambient agent (dependencies_of resources) d contract)
unfolding actions_for
actions_for-IsOrdered ambient agent resources d contract =
    let deps = dependencies_of resources in
    (From-append 0 1 _ _ (omega arith) (create-At deps (dependencies_of-deps resources)) (
      From-append 1 2 _ _ (omega arith) (wait-At deps) (
        From-append 2 3 _ _ (omega arith) (resolve-At deps)
          (agent_actions-From ambient agent d contract)))).ordered

-- Whatever the resources, the actions that the planner lists stand in the order of their stages:
-- every dependency is created before any is awaited, all are ready and resolved before the agent's
-- pod is created, commands before the start run before the launch, commands after the start after
-- it, and teardown commands last.
pub actions-IsOrdered :
    (ambient : Ambient) (resources : List ResourcePlan) (d : DeploymentSpec)
    (contract : RuntimeContract) (steps : List PlanAction)
    → actions ambient resources d contract ≡ ok steps
    → IsOrdered steps
unfolding actions
actions-IsOrdered ambient resources d contract steps h = elim (Option-cases (agent_of resources)) [
  | inl e ↦ absurd (ground arith)
  | inr (agent, e) ↦
      subst IsOrdered (ground arith) (actions_for-IsOrdered ambient agent resources d contract)
]
