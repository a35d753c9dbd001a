-- ===== src/Operator/Resources/Workload.antt =====
-- operator/internal/controller/reconcile_workload.go: the workspace's StatefulSet and Service.
mod Script
pub mod Env
pub mod Unread
pub mod Wiring
pub mod Docker
use k8s_opencode.Common.{ℕ, String, ◌++◌, true, false, none, some, [], ◌∷◌}
use k8s_opencode.Common.Dict.{Dict}
use k8s_opencode.Operator.Exec.{Exec, pure, wrapping, ◌>>=◌}
use k8s_opencode.Operator.Api.{OpenCodeWorkspace}
use k8s_opencode.Operator.Object.{
  meta_of, SecurityContext, Container, VolumeMount, VolumeSource, Volume, claim, config_map_source,
  empty_dir, PodTemplateSpec, empty_pod, StatefulSet, Service, stateful_set_kind, service_kind,
}
use k8s_opencode.Operator.Client.{Client}
use k8s_opencode.Operator.Resources.Owned.{own, put_label, quoted}
use k8s_opencode.Operator.Resources.Workload.Env.{home_of, build_provider_env_vars}
use k8s_opencode.Operator.Resources.Workload.Script.{init_script}

abbrev pub workspace_container_image : String
workspace_container_image = "ghcr.io/timothyclin/k8s-opencode/opencode-workspace:latest"

abbrev pub workspace_service_name : String
workspace_service_name = "workspace"

abbrev pub workspace_config_map_name : String
workspace_config_map_name = "opencode-config"

abbrev pub workspace_data_pvc_name : String
workspace_data_pvc_name = "data-pvc"

abbrev pub workspace_pvc_name : String
workspace_pvc_name = "workspace-pvc"

abbrev pub workspace_labels : OpenCodeWorkspace → Dict String
workspace_labels ws = ("app", "workspace") ∷ ("opencode.io/workspace", ws.name) ∷ []

abbrev run_as : ℕ → SecurityContext
run_as user = record {
  run_as_user = user;
  run_as_group = user;
  run_as_non_root = true;
  fs_group = none;
}

abbrev mount : String → String → VolumeMount
mount name path = record { name = name; mount_path = path; sub_path = ""; read_only = false }

abbrev read_only : VolumeMount → VolumeMount
read_only m = record m { read_only = true }

abbrev sub_path : String → VolumeMount → VolumeMount
sub_path path m = record m { sub_path = path }

abbrev volume : String → VolumeSource → Volume
volume name source = record { name = name; source = source }

unfoldable pub init_container : OpenCodeWorkspace → Container
init_container ws = record {
  name = "init-permissions";
  image = workspace_container_image;
  image_pull_policy = "";
  command = "sh" ∷ "-c" ∷ [];
  args = init_script ∷ [];
  working_dir = "";
  ports = [];
  env = record { name = "WORKSPACE_USER"; value = ws.name; value_from = none } ∷ [];
  resources = record { requests = none; limits = none };
  security_context = some (record (run_as 0) { run_as_non_root = false });
  volume_mounts =
      mount "sudoers" "/etc/sudoers.d"
      ∷ mount "passwd" "/mnt/passwd"
      ∷ mount "shadow" "/mnt/shadow"
      ∷ mount workspace_data_pvc_name (home_of ws)
      ∷ mount workspace_pvc_name (home_of ws ++ "/workspace")
      ∷ read_only (mount workspace_config_map_name "/etc/opencode-config")
      ∷ [];
}

unfoldable pub workspace_container : OpenCodeWorkspace → Container
workspace_container ws = record {
  name = "workspace";
  image = workspace_container_image;
  image_pull_policy = "";
  command = "opencode" ∷ "serve" ∷ "--hostname" ∷ "0.0.0.0" ∷ "--port" ∷ "4096" ∷ [];
  args = [];
  working_dir = home_of ws;
  ports = record { name = "http"; container_port = 4096; protocol = "" } ∷ [];
  env = build_provider_env_vars ws;
  resources = ws.spec.resources;
  security_context = some (run_as 1000);
  volume_mounts =
      mount workspace_pvc_name (home_of ws ++ "/workspace")
      ∷ mount workspace_data_pvc_name (home_of ws)
      ∷ read_only (mount "sudoers" "/etc/sudoers.d")
      ∷ read_only (sub_path "passwd" (mount "passwd" "/etc/passwd"))
      ∷ read_only (sub_path "shadow" (mount "shadow" "/etc/shadow"))
      ∷ [];
}

unfoldable pub pod_template : OpenCodeWorkspace → PodTemplateSpec
unfolding init_container workspace_container
pod_template ws = record {
  labels = workspace_labels ws;
  service_account_name = "";
  security_context = some (record (run_as 1000) { fs_group = some 1000 });
  init_containers = init_container ws ∷ [];
  containers = workspace_container ws ∷ [];
  volumes =
      volume workspace_pvc_name (claim workspace_pvc_name)
      ∷ volume workspace_data_pvc_name (claim workspace_data_pvc_name)
      ∷ volume workspace_config_map_name (config_map_source workspace_config_map_name)
      ∷ volume "sudoers" empty_dir
      ∷ volume "passwd" empty_dir
      ∷ volume "shadow" empty_dir
      ∷ [];
}

module _ (c : Client) (ws : OpenCodeWorkspace) where
  unfoldable pub set_stateful_set : StatefulSet → Exec c.World StatefulSet
  unfolding pod_template
  set_stateful_set s = do
    m ← own c ws (put_label "opencode.io/workspace" ws.name (put_label "app" "workspace" s.meta))
    pure (record {
      meta = m;
      replicas = some 1;
      service_name = workspace_service_name;
      selector = some (workspace_labels ws);
      template = pod_template ws;
    })

  unfoldable pub reconcile_stateful_set : String → Exec c.World (Unit {0})
  reconcile_stateful_set namespace =
      wrapping ("failed to reconcile statefulset " ++ (quoted workspace_service_name ++ ": ")) (
        c.create_or_update stateful_set_kind
          (record {
            meta = meta_of namespace workspace_service_name;
            replicas = none;
            service_name = "";
            selector = none;
            template = empty_pod;
          })
          set_stateful_set)

  unfoldable pub set_service : Service → Exec c.World Service
  set_service s = do
    m ← own c ws (put_label "opencode.io/workspace" ws.name (put_label "app" "workspace" s.meta))
    pure (record {
      meta = m;
      type = "ClusterIP";
      selector = ("app", "workspace") ∷ [];
      ports = record { name = "http"; protocol = ""; port = 4096; target_port = 4096 } ∷ [];
    })

  unfoldable pub reconcile_service : String → Exec c.World (Unit {0})
  reconcile_service namespace =
      wrapping ("failed to reconcile service " ++ (quoted workspace_service_name ++ ": ")) (
        c.create_or_update service_kind
          (record {
            meta = meta_of namespace workspace_service_name;
            type = "";
            selector = [];
            ports = [];
          })
          set_service)
