-- ===== src/Operator/Resources/Workload/Docker.antt =====
-- How a workspace reaches its Docker API server.
use mathlib.Core.List.{◌++◌}
use k8s_opencode.Common.{
  String, Bool, true, false, ◌&&◌, ◌||◌, Option, none, some, List, [], ◌∷◌, ◌≡◌, refl, ◌==◌,
  eq_refl, arith, if◌then◌else◌, also, not,
}
use k8s_opencode.Common.Dict.{lookup}
use k8s_opencode.Common.Text.{decimal}
use k8s_opencode.Operator.Exec.{ok, pure}
use k8s_opencode.Operator.Exec.Inversion.{lift-bind}
use k8s_opencode.Operator.Api.{OpenCodeWorkspace, SecretKeyRef}
use k8s_opencode.Operator.Object.{EnvVar, RoleBinding, Subject, Deployment, Service}
use k8s_opencode.Operator.Selector.{selects}
use k8s_opencode.Operator.Client.{Client}
use k8s_opencode.Operator.Resources.Owned.{own}
use k8s_opencode.Operator.Resources.Kubedock.{
  kubedock, kubedock_port, kubedock_labels, kubedock_container, set_role_binding, set_deployment,
  set_kubedock_service,
}
use k8s_opencode.Operator.Resources.Workload.Env.{
  add_provider, secret_env_var, build_provider_env_vars,
}
use k8s_opencode.Operator.Resources.Workload.Wiring.{Routes, serves, all_served}

-- The value that the first variable of this name has.
abbrev pub value_of : String → List EnvVar → Option String
value_of name [] = none
value_of name (e ∷ es) = if e.name == name then some e.value else value_of name es

-- A ServiceAccount of the namespace is among the subjects.
abbrev pub binds : String → String → List Subject → Bool
binds account namespace [] = false
binds account namespace (s ∷ ss) =
    ((s.kind == "ServiceAccount") && ((s.name == account) && (s.namespace == namespace)))
    || binds account namespace ss

value_of-append :
    (name value : String) (es new : List EnvVar)
    → value_of name es ≡ some value
    → value_of name (es ++ new) ≡ some value
value_of-append name value [] new h = absurd (cc (h))
value_of-append name value (e ∷ es) new h =
    let rest = value_of-append name value es new in ground arith

value_of-add_provider :
    (enabled : Bool) (ref : SecretKeyRef) (title name value : String) (es : List EnvVar)
    → value_of name es ≡ some value
    → value_of name (add_provider enabled ref title es) ≡ some value
value_of-add_provider enabled ref title name value es h =
    append_if (enabled && not (ref.name == ""))
  where
    append_if :
        (b : Bool) → value_of name (also b (secret_env_var title ref.name ∷ []) es) ≡ some value
    append_if true = value_of-append name value es _ h
    append_if false = h

docker_host :
    (ws : OpenCodeWorkspace)
    → ws.spec.kubedock.enabled ≡ true
    → value_of "DOCKER_HOST" (build_provider_env_vars ws) ≡ some "tcp://kubedock-service:2475"
unfolding build_provider_env_vars decimal
docker_host ws enabled =
    let p = ws.spec.providers in
    value_of-add_provider p.openrouter.enabled p.openrouter.api_key_secret_ref "OPENROUTER_API_KEY"
      _ _ _
      (value_of-add_provider p.openai.enabled p.openai.api_key_secret_ref "OPENAI_API_KEY" _ _ _ (
        value_of-add_provider p.anthropic.enabled p.anthropic.api_key_secret_ref "ANTHROPIC_API_KEY"
          _ _ _ (rw enabled refl)))

-- The pods of the Deployment `d` are found by the Service `v`, listen on the port that
-- `DOCKER_HOST` names, and run under an account that the RoleBinding `b` gives the Role.
pub record IsServed (ws : OpenCodeWorkspace) (namespace : String) (d : Deployment) (v : Service)
    (b : RoleBinding) : Type 0 where
  pub own_pods :
      (elim d.selector [ none ↦ false | some labels ↦ selects labels d.template.labels ]) ≡ true
  pub routes : Routes v d.template
  pub address :
      value_of "DOCKER_HOST" (build_provider_env_vars ws) ≡ some "tcp://kubedock-service:2475"
  pub port : serves 2475 v.ports ≡ true
  pub account : binds d.template.service_account_name namespace b.subjects ≡ true
  pub role :
      b.role_ref
      ≡ record { kind = "Role"; name = kubedock; api_group = "rbac.authorization.k8s.io" }

kubedock_own_labels :
    (ws : OpenCodeWorkspace) → selects (kubedock_labels ws) (kubedock_labels ws) ≡ true
unfolding lookup
kubedock_own_labels ws = rw (eq_refl ws.name) refl

module _ (c : Client) (ws : OpenCodeWorkspace) where
  deployment-result :
      (d d' : Deployment) (w : c.World)
      → (set_deployment c ws d w).0 ≡ ok d'
      → (d'.selector ≡ some (kubedock_labels ws))
        × (d'.template ≡ record {
          labels = kubedock_labels ws;
          service_account_name = kubedock;
          security_context = none;
          init_containers = [];
          containers = kubedock_container c ws ∷ [];
          volumes = [];
        })
  unfolding set_deployment own pure
  deployment-result d d' w h =
      let (m, owned, run) = lift-bind (c.set_owner_reference ws _) _ w d' h in
      let made = rw run at h in (cc (made), cc (made))

  docker_service-result :
      (v v' : Service) (w : c.World)
      → (set_kubedock_service c ws v w).0 ≡ ok v'
      → (v'.selector ≡ kubedock_labels ws)
        × (v'.ports
            ≡ record {
              name = "api";
              protocol = "TCP";
              port = kubedock_port;
              target_port = kubedock_port;
            }
              ∷ [])
  unfolding set_kubedock_service own pure
  docker_service-result v v' w h =
      let (m, owned, run) = lift-bind (c.set_owner_reference ws _) _ w v' h in
      let made = rw run at h in (cc (made), cc (made))

  binding-result :
      (namespace : String) (b b' : RoleBinding) (w : c.World)
      → (set_role_binding c ws namespace b w).0 ≡ ok b'
      → (b'.subjects
          ≡ record { kind = "ServiceAccount"; name = kubedock; namespace = namespace } ∷ [])
        × (b'.role_ref
            ≡ record { kind = "Role"; name = kubedock; api_group = "rbac.authorization.k8s.io" })
  unfolding set_role_binding own pure
  binding-result namespace b b' w h =
      let (m, owned, run) = lift-bind (c.set_owner_reference ws _) _ w b' h in
      let made = rw run at h in (cc (made), cc (made))

  kubedock_port_served :
      all_served
        (record {
          name = "api";
          protocol = "TCP";
          port = kubedock_port;
          target_port = kubedock_port;
        }
          ∷ [])
        (kubedock_container c ws ∷ [])
      ≡ true
  unfolding kubedock_container
  kubedock_port_served = refl

  -- Where the Docker API server is enabled, whatever the objects held before and in whatever state of
  -- the cluster each was written: the Deployment's selector finds its own pods, so does the Service,
  -- whose port is theirs and is the one of the address that the workspace is given, and the pods run
  -- under an account of this namespace that is bound to the Role.
  pub kubedock-IsServed :
      (namespace : String) (d d' : Deployment) (v v' : Service) (b b' : RoleBinding)
      (w1 w2 w3 : c.World)
      → ws.spec.kubedock.enabled ≡ true
      → (set_deployment c ws d w1).0 ≡ ok d'
      → (set_kubedock_service c ws v w2).0 ≡ ok v'
      → (set_role_binding c ws namespace b w3).0 ≡ ok b'
      → IsServed ws namespace d' v' b'
  kubedock-IsServed namespace d d' v v' b b' w1 w2 w3 enabled h1 h2 h3 =
      let (selector, template) = deployment-result d d' w1 h1 in
      let (chosen, ports) = docker_service-result v v' w2 h2 in
      let (subjects, role) = binding-result namespace b b' w3 h3 in
      record {
        own_pods = rw (selector, template) (kubedock_own_labels ws);
        routes = record {
          finds = rw (chosen, template) (kubedock_own_labels ws);
          served = rw (ports, template) kubedock_port_served;
        };
        address = docker_host ws enabled;
        port = rw ports refl;
        account = rw (template, subjects) (rw (eq_refl namespace) refl);
        role = role;
      }
