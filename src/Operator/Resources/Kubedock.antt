-- ===== src/Operator/Resources/Kubedock.antt =====
-- operator/internal/controller/reconcile_kubedock.go: the Docker API server beside a workspace.
use k8s_opencode.Common.{ℕ, String, ◌++◌, Option, none, some, [], ◌∷◌, not, if◌then◌else◌}
use k8s_opencode.Common.Dict.{Dict}
use k8s_opencode.Common.Text.{decimal}
use k8s_opencode.Operator.Exec.{Exec, pure, wrapping, ◌>>=◌, ◌>>◌}
use k8s_opencode.Operator.Api.{OpenCodeWorkspace, Quantity, ResourceRequirements}
use k8s_opencode.Operator.Object.{
  ObjectMeta, meta_of, ServiceAccount, Role, RoleBinding, Container, empty_pod, Deployment, Service,
  service_account_kind, role_kind, role_binding_kind, deployment_kind, service_kind,
}
use k8s_opencode.Operator.Client.{Client}
use k8s_opencode.Operator.Resources.Owned.{own, put_label}

abbrev pub kubedock_image : String
kubedock_image = "joyrex2001/kubedock:0.20.3"

abbrev pub kubedock_port : ℕ
kubedock_port = 2475

abbrev pub kubedock_service_name : String
kubedock_service_name = "kubedock-service"

-- kubedockDeploymentName, kubedockServiceAccount, kubedockRoleName, kubedockRoleBindingName and
-- kubedockComponent
abbrev pub kubedock : String
kubedock = "kubedock"

abbrev pub kubedock_labels : OpenCodeWorkspace → Dict String
kubedock_labels ws =
    ("app.kubernetes.io/component", kubedock) ∷ ("opencode.io/workspace", ws.name) ∷ []

abbrev label_kubedock : OpenCodeWorkspace → ObjectMeta → ObjectMeta
label_kubedock ws m =
    put_label "opencode.io/workspace" ws.name (put_label "app.kubernetes.io/component" kubedock m)

abbrev or_default : Option (Dict Quantity) → Dict Quantity → Option (Dict Quantity)
or_default none d = some d
or_default (some given) d = some given

module _ (c : Client) (ws : OpenCodeWorkspace) where
  unfoldable pub set_service_account : ServiceAccount → Exec c.World ServiceAccount
  set_service_account sa = do m ← own c ws (label_kubedock ws sa.meta); pure (record { meta = m })

  unfoldable pub reconcile_kubedock_service_account : String → Exec c.World (Unit {0})
  reconcile_kubedock_service_account namespace =
      wrapping "failed to reconcile kubedock ServiceAccount: " (
        c.create_or_update service_account_kind (record { meta = meta_of namespace kubedock })
          set_service_account)

  unfoldable pub set_role : Role → Exec c.World Role
  set_role role = do
    m ← own c ws (label_kubedock ws role.meta)
    pure (record {
      meta = m;
      rules =
          record {
            api_groups = "" ∷ [];
            resources = "pods" ∷ "services" ∷ "configmaps" ∷ "pods/exec" ∷ "pods/log" ∷ [];
            verbs = "get" ∷ "list" ∷ "watch" ∷ "create" ∷ "delete" ∷ "update" ∷ "patch" ∷ [];
          }
          ∷ record {
            api_groups = "" ∷ [];
            resources = "persistentvolumeclaims" ∷ [];
            verbs = "get" ∷ "list" ∷ "watch" ∷ "create" ∷ "delete" ∷ [];
          }
          ∷ [];
    })

  unfoldable pub reconcile_kubedock_role : String → Exec c.World (Unit {0})
  reconcile_kubedock_role namespace = wrapping "failed to reconcile kubedock Role: " (
      c.create_or_update role_kind (record { meta = meta_of namespace kubedock; rules = [] })
        set_role)

  unfoldable pub set_role_binding : String → RoleBinding → Exec c.World RoleBinding
  set_role_binding namespace rb = do
    m ← own c ws (label_kubedock ws rb.meta)
    pure (record {
      meta = m;
      subjects = record { kind = "ServiceAccount"; name = kubedock; namespace = namespace } ∷ [];
      role_ref = record { kind = "Role"; name = kubedock; api_group = "rbac.authorization.k8s.io" };
    })

  unfoldable pub reconcile_kubedock_role_binding : String → Exec c.World (Unit {0})
  reconcile_kubedock_role_binding namespace =
      wrapping "failed to reconcile kubedock RoleBinding: " (
        c.create_or_update role_binding_kind
          (record {
            meta = meta_of namespace kubedock;
            subjects = [];
            role_ref = record { kind = ""; name = ""; api_group = "" };
          })
          (set_role_binding namespace))

  -- The resources of the spec, or the defaults for what is not specified.
  unfoldable pub kubedock_resources : ResourceRequirements
  kubedock_resources = record {
    requests =
        or_default ws.spec.kubedock.resources.requests
          (("cpu", c.must_parse "50m") ∷ ("memory", c.must_parse "64Mi") ∷ []);
    limits =
        or_default ws.spec.kubedock.resources.limits
          (("cpu", c.must_parse "200m") ∷ ("memory", c.must_parse "128Mi") ∷ []);
  }

  unfoldable pub kubedock_container : Container
  unfolding kubedock_resources
  kubedock_container = record {
    name = "kubedock";
    image = kubedock_image;
    image_pull_policy = "IfNotPresent";
    command = "kubedock" ∷ "server" ∷ [];
    args =
        ("--listen-addr=:" ++ decimal kubedock_port)
        ∷ ("--label=opencode.io/workspace=" ++ ws.name)
        ∷ [];
    working_dir = "";
    ports = record { name = "api"; container_port = kubedock_port; protocol = "TCP" } ∷ [];
    env = [];
    resources = kubedock_resources;
    security_context = none;
    volume_mounts = [];
  }

  unfoldable pub set_deployment : Deployment → Exec c.World Deployment
  unfolding kubedock_container
  set_deployment d = do
    m ← own c ws (label_kubedock ws d.meta)
    pure (record {
      meta = m;
      replicas = some 1;
      selector = some (kubedock_labels ws);
      template = record {
        labels = kubedock_labels ws;
        service_account_name = kubedock;
        security_context = none;
        init_containers = [];
        containers = kubedock_container ∷ [];
        volumes = [];
      };
    })

  unfoldable pub reconcile_kubedock_deployment : String → Exec c.World (Unit {0})
  reconcile_kubedock_deployment namespace = wrapping "failed to reconcile kubedock Deployment: " (
      c.create_or_update deployment_kind
        (record {
          meta = meta_of namespace kubedock;
          replicas = none;
          selector = none;
          template = empty_pod;
        })
        set_deployment)

  unfoldable pub set_kubedock_service : Service → Exec c.World Service
  set_kubedock_service s = do
    m ← own c ws (label_kubedock ws s.meta)
    pure (record {
      meta = m;
      type = "ClusterIP";
      selector = kubedock_labels ws;
      ports =
          record {
            name = "api";
            protocol = "TCP";
            port = kubedock_port;
            target_port = kubedock_port;
          }
          ∷ [];
    })

  unfoldable pub reconcile_kubedock_service : String → Exec c.World (Unit {0})
  reconcile_kubedock_service namespace = wrapping "failed to reconcile kubedock Service: " (
      c.create_or_update service_kind
        (record {
          meta = meta_of namespace kubedock_service_name;
          type = "";
          selector = [];
          ports = [];
        })
        set_kubedock_service)

  unfoldable pub reconcile_kubedock : String → Exec c.World (Unit {0})
  reconcile_kubedock namespace = if not ws.spec.kubedock.enabled then pure tt else do
    reconcile_kubedock_service_account namespace
    reconcile_kubedock_role namespace
    reconcile_kubedock_role_binding namespace
    reconcile_kubedock_deployment namespace
    reconcile_kubedock_service namespace
