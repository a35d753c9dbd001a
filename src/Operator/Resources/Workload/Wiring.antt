-- ===== src/Operator/Resources/Workload/Wiring.antt =====
-- How the objects of a workspace refer to one another: selectors, ports, volumes and host names.
use k8s_opencode.Common.{
  ℕ, String, Bool, true, false, ◌&&◌, ◌||◌, none, some, List, [], ◌∷◌, ◌≡◌, refl, ◌==◌, eq_refl,
  nat_eq,
}
use k8s_opencode.Common.Dict.{lookup}
use k8s_opencode.Operator.Exec.{ok, pure}
use k8s_opencode.Operator.Exec.Inversion.{lift-bind}
use k8s_opencode.Operator.Api.{OpenCodeWorkspace}
use k8s_opencode.Operator.Object.{
  Container, ContainerPort, VolumeMount, Volume, PodTemplateSpec, StatefulSet, Service, ServicePort,
  Ingress,
}
use k8s_opencode.Operator.Selector.{selects}
use k8s_opencode.Operator.Client.{Client}
use k8s_opencode.Operator.Resources.Owned.{own}
use k8s_opencode.Operator.Resources.Workload.{
  workspace_service_name, workspace_labels, init_container, workspace_container, pod_template,
  set_stateful_set, set_service,
}
use k8s_opencode.Operator.Resources.Tailscale.{expose}

abbrev declares : List Volume → String → Bool
declares [] name = false
declares (v ∷ vs) name = (v.name == name) || declares vs name

abbrev mounts_declared : List Volume → List VolumeMount → Bool
mounts_declared volumes [] = true
mounts_declared volumes (m ∷ ms) = declares volumes m.name && mounts_declared volumes ms

-- Every mount of the containers names a volume.
abbrev pub all_declared : List Volume → List Container → Bool
all_declared volumes [] = true
all_declared volumes (c ∷ cs) = mounts_declared volumes c.volume_mounts && all_declared volumes cs

abbrev listens_among : ℕ → List ContainerPort → Bool
listens_among port [] = false
listens_among port (p ∷ ps) = nat_eq p.container_port port || listens_among port ps

abbrev listens : ℕ → List Container → Bool
listens port [] = false
listens port (c ∷ cs) = listens_among port c.ports || listens port cs

-- Every port of a Service leads to a port of a container.
abbrev pub all_served : List ServicePort → List Container → Bool
all_served [] containers = true
all_served (p ∷ ps) containers = listens p.target_port containers && all_served ps containers

abbrev pub serves : ℕ → List ServicePort → Bool
serves port [] = false
serves port (p ∷ ps) = nat_eq p.port port || serves port ps

-- The Service finds the pods, and its ports are theirs.
pub record Routes (service : Service) (pod : PodTemplateSpec) : Type 0 where
  pub finds : selects service.selector pod.labels ≡ true
  pub served : all_served service.ports pod.containers ≡ true

-- The StatefulSet's selector finds the pods of its own template, whose mounts are declared; the
-- Service routes to them, and the Ingress to a port of the Service.
pub record IsWired (s : StatefulSet) (v : Service) (i : Ingress) : Type 0 where
  pub own_pods :
      (elim s.selector [ none ↦ false | some labels ↦ selects labels s.template.labels ]) ≡ true
  pub init_mounts : all_declared s.template.volumes s.template.init_containers ≡ true
  pub mounts : all_declared s.template.volumes s.template.containers ≡ true
  pub routes : Routes v s.template
  pub exposed :
      (elim i.default_backend [
        | none ↦ false
        | some b ↦ (b.service == workspace_service_name) && serves b.port v.ports
      ])
      ≡ true

template_mounts :
    (ws : OpenCodeWorkspace)
    → (all_declared (pod_template ws).volumes (pod_template ws).init_containers ≡ true)
      × (all_declared (pod_template ws).volumes (pod_template ws).containers ≡ true)
unfolding pod_template init_container workspace_container
template_mounts ws = (refl, refl)

own_labels :
    (ws : OpenCodeWorkspace) → selects (workspace_labels ws) (pod_template ws).labels ≡ true
unfolding pod_template lookup
own_labels ws = rw (eq_refl ws.name) refl

found :
    (ws : OpenCodeWorkspace) → selects (("app", "workspace") ∷ []) (pod_template ws).labels ≡ true
unfolding pod_template lookup
found ws = refl

served_at :
    (ws : OpenCodeWorkspace)
    → all_served
        (record { name = "http"; protocol = ""; port = 4096; target_port = 4096 } ∷ [])
        (pod_template ws).containers
      ≡ true
unfolding pod_template workspace_container
served_at ws = refl

module _ (c : Client) (ws : OpenCodeWorkspace) where
  stateful_set-result :
      (s s' : StatefulSet) (w : c.World)
      → (set_stateful_set c ws s w).0 ≡ ok s'
      → (s'.selector ≡ some (workspace_labels ws)) × (s'.template ≡ pod_template ws)
  unfolding set_stateful_set own pure
  stateful_set-result s s' w h =
      let (m, owned, run) = lift-bind (c.set_owner_reference ws _) _ w s' h in
      let made = rw run at h in (cc (made), cc (made))

  service-result :
      (v v' : Service) (w : c.World)
      → (set_service c ws v w).0 ≡ ok v'
      → (v'.selector ≡ ("app", "workspace") ∷ [])
        × (v'.ports ≡ record { name = "http"; protocol = ""; port = 4096; target_port = 4096 } ∷ [])
  unfolding set_service own pure
  service-result v v' w h =
      let (m, owned, run) = lift-bind (c.set_owner_reference ws _) _ w v' h in
      let made = rw run at h in (cc (made), cc (made))

  expose-result :
      (i i' : Ingress) (hostname : String) (w : c.World)
      → (expose c ws hostname i w).0 ≡ ok i'
      → i'.default_backend ≡ some (record { service = "workspace"; port = 4096 })
  unfolding expose own pure
  expose-result i i' hostname w h =
      let (m, owned, run) = lift-bind (c.set_owner_reference ws _) _ w i' h in
      let made = rw run at h in cc (made)

  -- Whatever the objects held before, and in whatever state of the cluster each was written, the
  -- workspace's StatefulSet, Service and Ingress as the operator leaves them fit together: the
  -- StatefulSet's selector finds its own pods, every volume that a container mounts is declared, the
  -- Service finds these pods and its port is theirs, and the Ingress leads to a port of the Service.
  pub set-IsWired :
      (s s' : StatefulSet) (v v' : Service) (i i' : Ingress) (hostname : String)
      (w1 w2 w3 : c.World)
      → (set_stateful_set c ws s w1).0 ≡ ok s'
      → (set_service c ws v w2).0 ≡ ok v'
      → (expose c ws hostname i w3).0 ≡ ok i'
      → IsWired s' v' i'
  set-IsWired s s' v v' i i' hostname w1 w2 w3 h1 h2 h3 =
      let (selector, template) = stateful_set-result s s' w1 h1 in
      let (chosen, ports) = service-result v v' w2 h2 in
      let backend = expose-result i i' hostname w3 h3 in
      let (init, main) = template_mounts ws in
      record {
        own_pods = rw (selector, template) (own_labels ws);
        init_mounts = rw template init;
        mounts = rw template main;
        routes = record {
          finds = rw (chosen, template) (found ws);
          served = rw (ports, template) (served_at ws);
        };
        exposed = rw (backend, ports) refl;
      }
