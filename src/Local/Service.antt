-- ===== src/Local/Service.antt =====
-- local_runtime.py: the compose file of a plan, before it is printed as YAML, and the result of applying it
-- as a text's content.
use comfyui_runpod_agentic_n.Base.{String, ◌<>◌, Option, none, some, List, [], ◌∷◌, ◌++◌, value_or}
use comfyui_runpod_agentic_n.Base.Dict.{Dict, get, put}
use comfyui_runpod_agentic_n.Base.Result.{Result, ok, ◌>>=◌}
use comfyui_runpod_agentic_n.Planner.Plan.{Role, ResourcePlan, DeploymentPlan}
use comfyui_runpod_agentic_n.Planner.Env.{role_text}
use comfyui_runpod_agentic_n.Local.Text.{escape_compose_interpolation}
use comfyui_runpod_agentic_n.Local.Compose.{
  Setting, image_for_resource, service_names_of, volume_mount_for_resource,
  local_runtime_mount_for_resource, local_port_mappings, compose_env, compose_command,
  local_resource_desired_hash,
}

-- A service; an empty list is a key that is absent.
pub record Service : Type 0 where
  pub image : String
  pub container_name : String
  pub environment : Dict String
  pub role : String
  pub desired_hash : String
  pub command : Option String
  pub shm_size : Option String
  pub volumes : List String
  pub ports : List String

-- `volumes` has the retention policy of each volume.
pub record Compose : Type 0 where
  pub name : String
  pub services : Dict Service
  pub volumes : Dict String

abbrev shm_of : Role → Option String
shm_of Role.browser = some "2gb"
shm_of _ = none

abbrev mounts_of : Option (String × String × String) → List String
mounts_of none = []
mounts_of (some (volume, path, policy)) = (volume <> (":" <> path)) ∷ []

abbrev pub put_volume : Option (String × String × String) → Dict String → Dict String
unfolding put
put_volume none volumes = volumes
put_volume (some (volume, path, policy)) volumes = put volumes volume policy

abbrev listed : Option String → List String
listed none = []
listed (some a) = a ∷ []

abbrev pub escaped : Option String → Option String
unfolding escape_compose_interpolation
escaped none = none
escaped (some command) = some (escape_compose_interpolation command)

-- The service of a resource.
unfoldable pub service_of : Setting → DeploymentPlan → String → ResourcePlan → Result Service
unfolding image_for_resource compose_env compose_command volume_mount_for_resource get
    local_runtime_mount_for_resource local_port_mappings local_resource_desired_hash
    service_names_of
service_of setting plan project_name resource =
    let names = service_names_of plan.resources in
    local_resource_desired_hash setting resource plan >>= λ hash.
    local_port_mappings setting.parse_int resource >>= λ ports. ok (record {
      image = image_for_resource resource;
      container_name = project_name <> ("-" <> value_or (get names resource.name) "");
      environment = compose_env setting.secrets resource names;
      role = role_text resource.role;
      desired_hash = hash;
      command = escaped (compose_command resource);
      shm_size = shm_of resource.role;
      volumes =
          mounts_of (volume_mount_for_resource resource)
          ++ listed (local_runtime_mount_for_resource setting.state_dir project_name resource);
      ports = ports;
    })

-- The loop over the resources.
unfoldable pub add_services :
    Setting → DeploymentPlan → String → List ResourcePlan → Compose → Result Compose
unfolding service_of put get service_names_of
add_services setting plan project_name [] compose = ok compose
add_services setting plan project_name (resource ∷ rest) compose =
    service_of setting plan project_name resource >>= λ service.
    add_services setting plan project_name rest (record compose {
      services =
          put compose.services (value_or (get (service_names_of plan.resources) resource.name) "")
            service;
      volumes = put_volume (volume_mount_for_resource resource) compose.volumes;
    })

-- `compose_yaml_for_plan`
unfoldable pub compose_for_plan : Setting → DeploymentPlan → String → Result Compose
unfolding add_services
compose_for_plan setting plan project_name =
    add_services setting plan project_name plan.resources
      (record { name = project_name; services = []; volumes = [] })
