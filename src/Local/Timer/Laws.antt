-- ===== src/Local/Timer/Laws.antt =====
-- local_runtime.py: when a keep-alive policy touches a local project.
use comfyui_runpod_agentic_n.Base.{
  String, Bool, true, false, ◌&&◌, ◌||◌, ◌≡◌, inl, inr, refl, Option, none, some, List, arith, leb,
  nonzero, value_or, Bool-cases,
}
use comfyui_runpod_agentic_n.Specs.{KeepAliveMode}
use comfyui_runpod_agentic_n.Specs.Deployment.{KeepAlivePolicy}
use comfyui_runpod_agentic_n.Planner.Plan.{DeploymentPlan}
use comfyui_runpod_agentic_n.Planner.PodInput.{is_server_side}
use comfyui_runpod_agentic_n.Local.Host.{Step, Host}
use comfyui_runpod_agentic_n.Local.Timer.{enforce_mode, enforce_policy, enforce_local_keep_alive}

abbrev is_time : KeepAliveMode → Bool
is_time KeepAliveMode.time = true
is_time _ = false

abbrev is_turns : KeepAliveMode → Bool
is_turns KeepAliveMode.turns = true
is_turns _ = false

-- A policy that acts: the server enforces it, and it is of time with seconds, or of a single turn and
-- there was a response.
abbrev acts : KeepAlivePolicy → Bool → Bool
acts policy response =
    is_server_side policy.enforcement
    && ((is_time policy.mode && nonzero policy.time_seconds)
        || (is_turns policy.mode
            && ((nonzero policy.turn_limit && response) && leb (value_or policy.turn_limit 0) 1)))

abbrev acts_for : Option KeepAlivePolicy → Bool → Bool
acts_for none response = false
acts_for (some policy) response = acts policy response

module _ (host : Host) (engine compose_path project_name : String) (plan : DeploymentPlan)
    (response : Bool) (h : List Step) where
  enforce_mode-quiet :
      (policy : KeepAlivePolicy) (mode : KeepAliveMode)
      → ((is_time mode && nonzero policy.time_seconds)
          || (is_turns mode
              && ((nonzero policy.turn_limit && response) && leb (value_or policy.turn_limit 0) 1)))
        ≡ false
      → (enforce_mode host engine compose_path project_name plan policy response mode h).1 ≡ h
  unfolding enforce_mode
  enforce_mode-quiet policy KeepAliveMode.manual q = refl
  enforce_mode-quiet policy KeepAliveMode.cost q = refl
  enforce_mode-quiet policy KeepAliveMode.time q =
      let none : nonzero policy.time_seconds ≡ false = ground arith in rw none refl
  enforce_mode-quiet policy KeepAliveMode.turns q =
      elim (Bool-cases (nonzero policy.turn_limit && response)) [
        | inl e ↦
            let more : leb (value_or policy.turn_limit 0) 1 ≡ false = ground arith in
            rw (e, more) refl
        | inr e ↦ rw e refl
      ]

  enforce_policy-quiet :
      (policy : Option KeepAlivePolicy)
      → acts_for policy response ≡ false
      → (enforce_policy host engine compose_path project_name plan response policy h).1 ≡ h
  unfolding enforce_policy
  enforce_policy-quiet none q = refl
  enforce_policy-quiet (some policy) q = elim (Bool-cases (is_server_side policy.enforcement)) [
    | inl e ↦ rw e (enforce_mode-quiet policy policy.mode (ground arith))
    | inr e ↦ rw e refl
  ]

-- A keep-alive policy leaves the local project and its timer alone, in that no step is taken, unless it
-- acts: the server enforces it, and either its time is limited, or its turns are limited to one and the
-- run had a response. A policy of cost and a larger limit of turns are only reported.
pub enforce_local_keep_alive-acts :
    (host : Host) (engine compose_path project_name : String) (plan : DeploymentPlan)
    (response : Bool) (h : List Step)
    → acts_for plan.keep_alive response ≡ false
    → (enforce_local_keep_alive host engine compose_path project_name plan response h).1 ≡ h
unfolding enforce_local_keep_alive
enforce_local_keep_alive-acts host engine compose_path project_name plan response h quiet =
    enforce_policy-quiet host engine compose_path project_name plan response h plan.keep_alive quiet
