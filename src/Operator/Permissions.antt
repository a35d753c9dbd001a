-- ===== src/Operator/Permissions.antt =====
-- The operator's own permissions: the rbac markers of
-- operator/internal/controller/opencodeworkspace_controller.go, of which its ClusterRole is generated.
use k8s_opencode.Common.{String, Bool, true, false, ◌&&◌, ◌||◌, List, [], ◌∷◌, ◌==◌}
use k8s_opencode.Operator.Exec.{Result, ok, err}
use k8s_opencode.Operator.Object.{
  PolicyRule, Role, Kind, namespace_kind, network_policy_kind, config_map_kind, secret_kind,
  claim_kind, service_account_kind, role_kind, role_binding_kind, deployment_kind,
  stateful_set_kind, service_kind, ingress_kind,
}
use k8s_opencode.Operator.Client.{Client}

abbrev marker : String → List String → List String → PolicyRule
marker group resources verbs = record {
  api_groups = group ∷ [];
  resources = resources;
  verbs = verbs;
}

abbrev all_verbs : List String
all_verbs = "get" ∷ "list" ∷ "watch" ∷ "create" ∷ "update" ∷ "patch" ∷ "delete" ∷ []

abbrev pub operator_rules : List PolicyRule
operator_rules =
    marker "opencode.opencode.io" ("opencodeworkspaces" ∷ []) all_verbs
    ∷ marker "opencode.opencode.io" ("opencodeworkspaces/status" ∷ [])
        ("get" ∷ "update" ∷ "patch" ∷ [])
    ∷ marker "opencode.opencode.io" ("opencodeworkspaces/finalizers" ∷ []) ("update" ∷ [])
    ∷ marker "" ("namespaces" ∷ []) all_verbs
    ∷ marker "" ("configmaps" ∷ []) all_verbs
    ∷ marker "" ("secrets" ∷ []) all_verbs
    ∷ marker "" ("persistentvolumeclaims" ∷ []) all_verbs
    ∷ marker "" ("services" ∷ []) all_verbs
    ∷ marker "apps" ("statefulsets" ∷ []) all_verbs
    ∷ marker "apps" ("deployments" ∷ []) all_verbs
    ∷ marker "networking.k8s.io" ("networkpolicies" ∷ []) all_verbs
    ∷ marker "networking.k8s.io" ("ingresses" ∷ []) all_verbs
    ∷ marker "networking.k8s.io" ("ingressclasses" ∷ []) all_verbs
    ∷ marker "" ("serviceaccounts" ∷ []) all_verbs
    ∷ marker "rbac.authorization.k8s.io" ("roles" ∷ []) all_verbs
    ∷ marker "rbac.authorization.k8s.io" ("rolebindings" ∷ []) all_verbs
    ∷ marker "" ("pods" ∷ "pods/exec" ∷ "pods/log" ∷ [])
        ("create" ∷ "delete" ∷ "get" ∷ "list" ∷ "patch" ∷ "update" ∷ "watch" ∷ [])
    ∷ []

abbrev among : String → List String → Bool
among name [] = false
among name (n ∷ ns) = (n == name) || among name ns

-- Some rule allows this verb on this resource of this group.
abbrev pub allows : List PolicyRule → String → String → String → Bool
allows [] group resource verb = false
allows (r ∷ rs) group resource verb =
    (among group r.api_groups && among resource r.resources && among verb r.verbs)
    || allows rs group resource verb

abbrev all_of : (String → Bool) → List String → Bool
all_of test [] = true
all_of test (n ∷ ns) = test n && all_of test ns

-- Whatever a rule of the second list allows, some rule of the first does: what the API server wants
-- of the author of a Role.
abbrev pub covers : List PolicyRule → List PolicyRule → Bool
covers held [] = true
covers held (r ∷ rs) =
    all_of (λ group. all_of (λ resource. all_of (allows held group resource) r.verbs) r.resources)
      r.api_groups
    && covers held rs

abbrev group_of : Kind → String
group_of deployment_kind = "apps"
group_of stateful_set_kind = "apps"
group_of network_policy_kind = "networking.k8s.io"
group_of ingress_kind = "networking.k8s.io"
group_of role_kind = "rbac.authorization.k8s.io"
group_of role_binding_kind = "rbac.authorization.k8s.io"
group_of k = ""

abbrev resource_of : Kind → String
resource_of namespace_kind = "namespaces"
resource_of network_policy_kind = "networkpolicies"
resource_of config_map_kind = "configmaps"
resource_of secret_kind = "secrets"
resource_of claim_kind = "persistentvolumeclaims"
resource_of service_account_kind = "serviceaccounts"
resource_of role_kind = "roles"
resource_of role_binding_kind = "rolebindings"
resource_of deployment_kind = "deployments"
resource_of service_kind = "services"
resource_of stateful_set_kind = "statefulsets"
resource_of ingress_kind = "ingresses"

-- CreateOrUpdate reads the object, and creates or updates it.
abbrev pub needed : Kind → PolicyRule
needed k = marker (group_of k) (resource_of k ∷ []) ("get" ∷ "create" ∷ "update" ∷ [])

rules_of : Result Role → List PolicyRule
rules_of (ok role) = role.rules
rules_of (err e) = []
