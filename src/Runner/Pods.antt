-- ===== src/Runner/Pods.antt =====
-- runner.py: which pod a resource gets, and the volumes that are created before.
use comfyui_runpod_agentic_n.Base.{
  ℕ, String, ◌<>◌, Bool, true, false, ◌&&◌, ◌||◌, Option, none, some, List, [], ◌∷◌, if◌then◌else◌,
  ◌=ℕ=◌, ◌==◌, truthy, nonzero, value_or, text_or, or_text, is_empty,
}
use comfyui_runpod_agentic_n.Base.Text.{codes, upper}
use comfyui_runpod_agentic_n.Specs.{ReusePolicy}
use comfyui_runpod_agentic_n.Templates.{is_unresolved_template_key}
use comfyui_runpod_agentic_n.Planner.Plan.{PendingVolume, ResourcePlan, DeploymentPlan}
use comfyui_runpod_agentic_n.Store.Rows.{Payload, ResourceRow, Tables}
use comfyui_runpod_agentic_n.Store.Operations.{list_resources}
use comfyui_runpod_agentic_n.Remote.Pod.{Pod, seen, overlay}
use comfyui_runpod_agentic_n.Remote.Outside.{Call, Outside}
use comfyui_runpod_agentic_n.Remote.Exec.{
  Exec, pure, raise, fail, ask, read, attempt, event, on_some, ◌>>=◌, ◌>>◌,
}
use comfyui_runpod_agentic_n.Runner.Endpoints.{sanitize_pod_input}

abbrev pub is_always_create : ReusePolicy → Bool
is_always_create ReusePolicy.always_create = true
is_always_create _ = false

abbrev is_match : String → ResourceRow → Bool
is_match hash row = elim row.desired_hash [
  | none ↦ false
  | some h ↦ h == hash && truthy row.runpod_pod_id
]

unfoldable pub first_match : String → List ResourceRow → Option ResourceRow
first_match hash [] = none
first_match hash (row ∷ rows) = if is_match hash row then some row else first_match hash rows

unfoldable pub matching_existing_resource :
    DeploymentPlan → ResourcePlan → Tables → Option ResourceRow
unfolding first_match list_resources
matching_existing_resource plan resource tables =
    if is_always_create plan.reuse_policy
    then none
    else first_match resource.desired_hash (list_resources tables)

abbrev same : List ℕ → List ℕ → Bool
same [] [] = true
same (x ∷ a) (y ∷ b) = x =ℕ= y && same a b
same _ _ = false

-- `status in {...}`, where `status` is in upper case.
unfoldable pub is_status : Pod → String → Bool
unfolding upper
is_status pod word =
    same (codes word) (upper (value_or (or_text (seen pod.desired_status) (seen pod.status)) ""))

abbrev pub or_create : Exec Pod → Option Pod → Exec Pod
or_create make none = make
or_create make (some pod) = pure pod

module _ (o : Outside) where
  -- What the policy makes of a pod that is there.
  unfoldable pub reuse_by :
      ReusePolicy → DeploymentPlan → ResourcePlan → String → String → Pod → Exec (Option Pod)
  unfolding is_status event
  reuse_by ReusePolicy.always_create plan resource pending pod_id pod = pure none
  reuse_by ReusePolicy.reuse_matching plan resource pending pod_id pod =
      if is_status pod "STOPPED" || (is_status pod "EXITED" || is_status pod "TERMINATED")
      then pure none
      else (event o plan.run_id "pod_reused" resource.name (some pending)
            (Payload.pod_id (some pod_id))
          >> pure (some pod))
  reuse_by ReusePolicy.resume_stopped plan resource pending pod_id pod =
      if is_status pod "STOPPED" || is_status pod "EXITED"
      then (ask (Call.resume_pod pod_id) o.pod >>= λ resumed.
          event o plan.run_id "pod_resumed" resource.name (some pending)
            (Payload.pod_id (some pod_id))
          >> pure (some (overlay pod resumed)))
      else pure none

  unfoldable pub reuse :
      DeploymentPlan → ResourcePlan → String → Option ResourceRow → Exec (Option Pod)
  unfolding reuse_by
  reuse plan resource pending none = pure none
  reuse plan resource pending (some row) =
      ask (Call.get_pod (value_or row.runpod_pod_id "")) o.pod >>= λ pod.
      reuse_by plan.reuse_policy plan resource pending (value_or row.runpod_pod_id "") pod

  unfoldable pub create : DeploymentPlan → ResourcePlan → String → Exec Pod
  unfolding event sanitize_pod_input
  create plan resource pending = do
    event o plan.run_id "pod_create_request" resource.name (some pending)
        (Payload.pod_input (sanitize_pod_input resource.pod_input))
    pod ← attempt (ask (Call.create_pod resource.pod_input) o.pod) (λ e.
        event o plan.run_id "pod_create_failed" (resource.name <> (": " <> e.message))
          (some pending)
          (Payload.failed_creation resource.role resource.template_id
            (sanitize_pod_input resource.pod_input))
        >> raise e)
    event o plan.run_id "pod_created" resource.name (some pending) (Payload.pod_id (seen pod.id))
    pure pod

  unfoldable pub reuse_or_create_pod : DeploymentPlan → ResourcePlan → String → Exec Pod
  unfolding reuse create is_unresolved_template_key matching_existing_resource
  reuse_or_create_pod plan resource pending =
      if is_unresolved_template_key resource.template_id
      then fail (
          "Template key "
          <> (resource.template_id
              <> " is not resolved to a Runpod template id. Run scripts/create-runpod-templates or update defaults/runpod_template_ids.json."))
      else (read (matching_existing_resource plan resource) >>= λ existing.
          reuse plan resource pending existing >>= or_create (create plan resource pending))

abbrev pub VolumeKey : Type 0
VolumeKey = String × ℕ × String

abbrev pub same_key : VolumeKey → VolumeKey → Bool
same_key (a, n, d) (b, m, e) = a == b && (n =ℕ= m && d == e)

unfoldable pub volume_of : List (VolumeKey × String) → VolumeKey → Option String
volume_of [] key = none
volume_of ((k, v) ∷ rest) key = if same_key k key then some v else volume_of rest key

-- The volume that a pod input asks for: it has no volume yet, and a size and a data center.
abbrev pub wanted_by : String → Option PendingVolume → Option VolumeKey
wanted_by name none = none
wanted_by name (some v) =
    if nonzero v.size_gb && truthy v.data_center_id
    then some (text_or (some v.name) name, value_or v.size_gb 0, value_or v.data_center_id "")
    else none

abbrev pub wanted_volume : ResourcePlan → Option VolumeKey
wanted_volume resource =
    if truthy resource.pod_input.network_volume_id
    then none
    else wanted_by resource.name resource.pod_input.pending_volume

abbrev pub without_pending : ResourcePlan → Option String → ResourcePlan
without_pending resource none = record resource {
  pod_input = record (resource.pod_input) { pending_volume = none };
}
without_pending resource (some id) = record resource {
  pod_input = record (resource.pod_input) { pending_volume = none; network_volume_id = some id };
}

module _ (o : Outside) where
  -- The id of the volume, created if no resource before has asked for the same, and all volumes.
  unfoldable pub volume_for :
      DeploymentPlan
      → List (VolumeKey × String)
      → Option VolumeKey
      → Exec (Option String × List (VolumeKey × String))
  unfolding volume_of event
  volume_for plan created none = pure (none, created)
  volume_for plan created (some (name, size, center)) =
      on_some (volume_of created (name, size, center))
        (ask (Call.create_volume name size center) o.volume >>= λ id.
          if is_empty id
          then fail "Runpod network volume creation did not return an id."
          else (event o plan.run_id "network_volume_created" name none
                (Payload.volume id size center)
              >> pure (some id, ((name, size, center), id) ∷ created)))
        (λ id. pure (some id, created))

  unfoldable pub materialize_each :
      DeploymentPlan → List (VolumeKey × String) → List ResourcePlan → Exec (List ResourcePlan)
  unfolding volume_for
  materialize_each plan created [] = pure []
  materialize_each plan created (resource ∷ rest) =
      volume_for plan created (wanted_volume resource) >>= λ found.
      materialize_each plan found.1 rest >>= λ later.
      pure (without_pending resource found.0 ∷ later)

  unfoldable pub materialize_network_volumes : DeploymentPlan → Exec DeploymentPlan
  unfolding materialize_each
  materialize_network_volumes plan = materialize_each plan [] plan.resources >>= λ resources.
      pure (record plan { resources = resources })
