-- ===== src/Local/Compose/Volumes.antt =====
-- local_runtime.py: the volumes that ending a local project removes.
use Prim.Native.String.{compare}
use Prim.Native.Nat.{Ordering}
use text.Mathlib.TextEquality.{path_by_compare}
use comfyui_runpod_agentic_n.Base.{
  String, ◌<>◌, Bool, false, ◌&&◌, ◌||◌, ◌≡◌, refl, List, [], ◌∷◌, arith, contains, truthy,
  value_or, inl, inr, Bool-cases, ◌==◌,
}
use comfyui_runpod_agentic_n.Planner.Plan.{ResourcePlan}
use comfyui_runpod_agentic_n.Local.Text.{compose_service_name_from_text}
use comfyui_runpod_agentic_n.Local.Compose.{insert_name, may_delete, local_retention_volume_names}

insert_case :
    (x name next : String) (rest later : List String) (o : Ordering)
    → compare name next ≡ o
    → contains x later ≡ (x == name || contains x rest)
    → contains x (elim o [
      | Ordering.lt ↦ name ∷ next ∷ rest
      | Ordering.eq ↦ next ∷ rest
      | Ordering.gt ↦ next ∷ later
    ])
      ≡ (x == name || (x == next || contains x rest))
insert_case x name next rest later Ordering.lt c h = refl
insert_case x name next rest later Ordering.eq c h = rw (path_by_compare name next c) (ground arith)
insert_case x name next rest later Ordering.gt c h = ground arith

contains-insert_name :
    (x name : String) (names : List String)
    → contains x (insert_name name names) ≡ (x == name || contains x names)
unfolding insert_name
contains-insert_name x name [] = refl
contains-insert_name x name (next ∷ rest) =
    insert_case x name next rest (insert_name name rest) (compare name next) refl
      (contains-insert_name x name rest)

-- What the local runtime calls the volume of a resource.
abbrev volume_of : String → ResourcePlan → String
volume_of project_name resource =
    project_name
    <> ("_" <> compose_service_name_from_text (value_or resource.pod_input.network_volume_id ""))

-- A resource with a mounted volume whose policy is not to preserve it.
abbrev is_deletable : ResourcePlan → Bool
is_deletable resource =
    may_delete resource.storage_retention_policy
    && (truthy resource.pod_input.network_volume_id && truthy resource.pod_input.volume_mount_path)

-- Whether some resource of a list has the volume of a name and lets it be deleted.
abbrev pub deletable_by : String → String → List ResourcePlan → Bool
deletable_by project_name name [] = false
deletable_by project_name name (resource ∷ rest) =
    (is_deletable resource && name == volume_of project_name resource)
    || deletable_by project_name name rest

-- The volumes that are removed with a project are those of the resources that have an id of a volume and a
-- mount path and a policy other than `preserve`: no other volume, and all of these.
pub local_retention_volume_names-deletable_by :
    (project_name name : String) (resources : List ResourcePlan)
    → contains name (local_retention_volume_names project_name resources)
      ≡ deletable_by project_name name resources
unfolding local_retention_volume_names
local_retention_volume_names-deletable_by project_name name [] = refl
local_retention_volume_names-deletable_by project_name name (resource ∷ rest) =
    let ih = local_retention_volume_names-deletable_by project_name name rest in
    let names = local_retention_volume_names project_name rest in
    elim (Bool-cases (is_deletable resource)) [
      | inl e ↦
          rw e (rw (contains-insert_name name (volume_of project_name resource) names, ih) refl)
      | inr e ↦ rw e ih
    ]
