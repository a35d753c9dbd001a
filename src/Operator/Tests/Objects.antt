-- ===== src/Operator/Tests/Objects.antt =====
-- The theorems on the objects that the operator writes, applied to those of one workspace.
use k8s_opencode.Common.{◌*◌, true, none, [], ◌∷◌, ◌≡◌, refl, arith}
use k8s_opencode.Operator.Exec.{Result, ok, err, pure, lift, try}
use k8s_opencode.Operator.Api.{OpenCodeWorkspace}
use k8s_opencode.Operator.Object.{
  meta_of, Role, RoleBinding, Deployment, Service, StatefulSet, Ingress, empty_pod,
}
use k8s_opencode.Operator.Memory.{memory}
use k8s_opencode.Operator.Resources.Owned.{own}
use k8s_opencode.Operator.Resources.Kubedock.{
  set_role, set_role_binding, set_deployment, set_kubedock_service,
}
use k8s_opencode.Operator.Resources.Tailscale.{expose}
use k8s_opencode.Operator.Resources.Workload.{set_stateful_set, set_service}
use k8s_opencode.Operator.Resources.Workload.Wiring.{IsWired, set-IsWired}
use k8s_opencode.Operator.Resources.Workload.Docker.{IsServed, kubedock-IsServed}
use k8s_opencode.Operator.Resources.Password.{password_of}
use k8s_opencode.Operator.Resources.Password.Decoding.{decode, first_bytes, decode-password_of}
use k8s_opencode.Operator.Tests.Fixtures.{ann, spec, empty, no_resources}

decode-password_of_example :
    decode (password_of (1 * 4) (255 ∷ 0 ∷ 128 ∷ 7 ∷ []))
    ≡ first_bytes (1 * 3) (255 ∷ 0 ∷ 128 ∷ 7 ∷ [])
decode-password_of_example =
    decode-password_of 1 (255 ∷ 0 ∷ 128 ∷ 7 ∷ []) refl
      (omega arith, (omega arith, (omega arith, (omega arith, tt))))

abbrev old_set : StatefulSet
old_set = record {
  meta = meta_of "oc-ann" "workspace";
  replicas = none;
  service_name = "";
  selector = none;
  template = empty_pod;
}

abbrev old_service : Service
old_service = record {
  meta = meta_of "oc-ann" "workspace";
  type = "NodePort";
  selector = ("app", "other") ∷ [];
  ports = [];
}

abbrev old_ingress : Ingress
old_ingress = record {
  meta = meta_of "oc-ann" "opencode-workspace";
  ingress_class_name = none;
  default_backend = none;
  tls_hosts = [];
}

abbrev value : {A : Type 0} → Result A → A → A
value (ok a) default = a
value (err e) default = default

abbrev new_set : StatefulSet
new_set = value (set_stateful_set memory ann old_set empty).0 old_set

abbrev new_service : Service
new_service = value (set_service memory ann old_service empty).0 old_service

abbrev new_ingress : Ingress
new_ingress = value (expose memory ann "oc-ann" old_ingress empty).0 old_ingress

set_written : (set_stateful_set memory ann old_set empty).0 ≡ ok new_set
unfolding set_stateful_set own try pure lift
set_written = refl

service_written : (set_service memory ann old_service empty).0 ≡ ok new_service
unfolding set_service own try pure lift
service_written = refl

ingress_written : (expose memory ann "oc-ann" old_ingress empty).0 ≡ ok new_ingress
unfolding expose own try pure lift
ingress_written = refl

set-IsWired_example : IsWired new_set new_service new_ingress
set-IsWired_example =
    set-IsWired memory ann old_set new_set old_service new_service old_ingress new_ingress "oc-ann"
      empty empty empty set_written service_written ingress_written

-- It has a Docker API server.
abbrev docker_ann : OpenCodeWorkspace
docker_ann = record ann {
  spec = record spec { kubedock = record { enabled = true; resources = no_resources } };
}

abbrev old_deployment : Deployment
old_deployment = record {
  meta = meta_of "oc-ann" "kubedock";
  replicas = none;
  selector = none;
  template = empty_pod;
}

abbrev old_binding : RoleBinding
old_binding = record {
  meta = meta_of "oc-ann" "kubedock";
  subjects = [];
  role_ref = record { kind = ""; name = ""; api_group = "" };
}

abbrev old_role : Role
old_role = record { meta = meta_of "oc-ann" "kubedock"; rules = [] }

abbrev new_deployment : Deployment
new_deployment = value (set_deployment memory docker_ann old_deployment empty).0 old_deployment

abbrev docker_service : Service
docker_service = value (set_kubedock_service memory docker_ann old_service empty).0 old_service

abbrev new_binding : RoleBinding
new_binding = value (set_role_binding memory docker_ann "oc-ann" old_binding empty).0 old_binding

abbrev new_role : Role
new_role = value (set_role memory docker_ann old_role empty).0 old_role

deployment_written : (set_deployment memory docker_ann old_deployment empty).0 ≡ ok new_deployment
unfolding set_deployment own try pure lift
deployment_written = refl

docker_service_written :
    (set_kubedock_service memory docker_ann old_service empty).0 ≡ ok docker_service
unfolding set_kubedock_service own try pure lift
docker_service_written = refl

binding_written : (set_role_binding memory docker_ann "oc-ann" old_binding empty).0 ≡ ok new_binding
unfolding set_role_binding own try pure lift
binding_written = refl

kubedock-IsServed_example : IsServed docker_ann "oc-ann" new_deployment docker_service new_binding
kubedock-IsServed_example =
    kubedock-IsServed memory docker_ann "oc-ann" old_deployment new_deployment old_service
      docker_service old_binding new_binding empty empty empty refl deployment_written
      docker_service_written binding_written
