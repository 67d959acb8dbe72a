-- ===== src/Planner/PodLaws.antt =====
-- What every pod input holds, and what every environment says.
use comfyui_runpod_agentic_n.Base.{
  String, ◌≡◌, ◌≢◌, ◌⊎◌, refl, Bool, true, false, not, Option, none, some, List, [], ◌∷◌, arith,
  if◌then◌else◌, ◌&&◌, ◌||◌, is_some, ◌==◌, nonzero, value_or,
}
use comfyui_runpod_agentic_n.Base.Dict.{Dict, get, put, get-put}
use comfyui_runpod_agentic_n.Specs.{SecretRef, RuntimeContract, LimitAction}
use comfyui_runpod_agentic_n.Specs.Deployment.{DeploymentSpec, KeepAlivePolicy}
use comfyui_runpod_agentic_n.Contracts.{secret_placeholder}
use comfyui_runpod_agentic_n.Planner.Plan.{PodInput}
use comfyui_runpod_agentic_n.Planner.Env.{
  managed_by, role_text, put_secrets, contract_env_for_creation, has_ssh_port,
}
use comfyui_runpod_agentic_n.Planner.PodInput.{PodRequest, is_time, is_server_side}

-- The last secret that is bound to a variable.
abbrev pub last_secret : List SecretRef → String → Option SecretRef
last_secret [] k = none
last_secret (s ∷ rest) k =
    let later = last_secret rest k in
    if is_some later then later else if s.env_var == k then some s else none

abbrev pub placeholder_or : Option SecretRef → Option String → Option String
placeholder_or none plain = plain
placeholder_or (some s) plain = some (secret_placeholder s)

get-put_secrets :
    (env : Dict String) (secrets : List SecretRef) (k : String)
    → get (put_secrets env secrets) k ≡ placeholder_or (last_secret secrets k) (get env k)
unfolding put_secrets
get-put_secrets env [] k = refl
get-put_secrets env (s ∷ rest) k = ground (
  arith,
  get-put_secrets (put env s.env_var (secret_placeholder s)) rest k,
  get-put env s.env_var (secret_placeholder s) k,
)

-- In the environment from which a pod is created, a variable that a secret is bound to holds the
-- placeholder of the last such secret and never a plain value, and every other variable holds what
-- the contract sets.
pub get-contract_env_for_creation :
    (contract : RuntimeContract) (k : String)
    → get (contract_env_for_creation contract) k
      ≡ placeholder_or (last_secret contract.env.secrets k) (get contract.env.values k)
unfolding contract_env_for_creation
get-contract_env_for_creation contract k =
    get-put_secrets contract.env.values contract.env.secrets k

-- The deadline of a policy: a time policy with a duration that the server is to enforce.
abbrev pub has_deadline : Option KeepAlivePolicy → Bool
has_deadline none = false
has_deadline (some p) = is_time p.mode && (nonzero p.time_seconds && is_server_side p.enforcement)

abbrev pub stops : Option KeepAlivePolicy → Bool
stops none = false
stops (some p) = elim p.action [ LimitAction.stop ↦ true | LimitAction.terminate ↦ false ]

-- What a pod input holds, whatever the contract, the storage and the policy.
pub record IsSoundInput (d : DeploymentSpec) (r : PodRequest) (p : PodInput) : Type 0 where
  pub ssh : has_ssh_port p.ports ≡ true
  pub one_compute : is_some p.gpu_count ≡ not (is_some p.compute_type)
  pub no_gpu : p.compute_type ≢ none → p.gpu_type_id ≡ none
  pub one_volume : (p.network_volume_id ≡ none) ⊎ (p.pending_volume ≡ none)
  pub mounted :
      is_some p.volume_mount_path ≡ (is_some p.network_volume_id || is_some p.pending_volume)
  pub stop_set : is_some p.stop_after ≡ (has_deadline d.keep_alive && stops d.keep_alive)
  pub terminate_set :
      is_some p.terminate_after ≡ (has_deadline d.keep_alive && not (stops d.keep_alive))
  pub sshd_set : is_some p.docker_args ≡ r.install_sshd
  pub role : get p.env "CRAG_ROLE" ≡ some (role_text r.role)
  pub owner : get p.env "RUNPOD_MANAGED_BY" ≡ some managed_by
  pub hash : get p.env "CRAG_DESIRED_HASH" ≡ some r.desired_hash
  pub node : get p.env "CRAG_NODE_ID" ≡ some (value_or r.node_id "")
