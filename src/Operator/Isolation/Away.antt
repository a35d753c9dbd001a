-- ===== src/Operator/Isolation/Away.antt =====
-- Addresses other than those of the objects that are written after the network policy.

use k8s_opencode.Common.{inl, String, ◌≢◌, inr, ap, sym}
use k8s_opencode.Operator.Object.{
  Kind, Key, namespace_kind, config_map_kind, secret_kind, claim_kind, service_account_kind,
  role_kind, role_binding_kind, deployment_kind, service_kind, stateful_set_kind, ingress_kind,
  network_policy_kind,
}
use k8s_opencode.Operator.Contract.{Differs}

-- A key in another namespace than this is another key.
pub elsewhere :
    (namespace name : String) (key : Key)
    → key.namespace ≢ namespace
    → record { namespace = namespace; name = name } ≢ key
elsewhere namespace name key n e = n (sym (ap (λ (k : Key). k.namespace) e))

-- The kinds of the objects of a namespace that are written after its network policy.
pub data IsLater : Kind → Type 0 where
  later_config_map : IsLater config_map_kind
  later_secret : IsLater secret_kind
  later_claim : IsLater claim_kind
  later_service_account : IsLater service_account_kind
  later_role : IsLater role_kind
  later_role_binding : IsLater role_binding_kind
  later_deployment : IsLater deployment_kind
  later_service : IsLater service_kind
  later_stateful_set : IsLater stateful_set_kind
  later_ingress : IsLater ingress_kind

pub ruleset later_rules = (
  later_config_map, later_secret, later_claim, later_service_account, later_role,
  later_role_binding, later_deployment, later_service, later_stateful_set, later_ingress,
)

-- Those objects of the namespace are at other addresses.
abbrev pub Away : String → Kind → Key → Type 0
Away namespace k' key' =
    (k : Kind) (name : String)
    → IsLater k
    → Differs k (record { namespace = namespace; name = name }) k' key'

pub elsewhere-Away :
    (namespace : String) (k' : Kind) (key' : Key)
    → key'.namespace ≢ namespace
    → Away namespace k' key'
elsewhere-Away namespace k' key' n k name l = inr (elsewhere namespace name key' n)

-- Those objects are neither network policies nor namespaces.
pub later_neq : (k : Kind) → IsLater k → (network_policy_kind ≢ k) × (namespace_kind ≢ k)
later_neq config_map_kind later_config_map = (λ e. cc (e), λ e. cc (e))
later_neq secret_kind later_secret = (λ e. cc (e), λ e. cc (e))
later_neq claim_kind later_claim = (λ e. cc (e), λ e. cc (e))
later_neq service_account_kind later_service_account = (λ e. cc (e), λ e. cc (e))
later_neq role_kind later_role = (λ e. cc (e), λ e. cc (e))
later_neq role_binding_kind later_role_binding = (λ e. cc (e), λ e. cc (e))
later_neq deployment_kind later_deployment = (λ e. cc (e), λ e. cc (e))
later_neq service_kind later_service = (λ e. cc (e), λ e. cc (e))
later_neq stateful_set_kind later_stateful_set = (λ e. cc (e), λ e. cc (e))
later_neq ingress_kind later_ingress = (λ e. cc (e), λ e. cc (e))
later_neq namespace_kind l = elim l [ ]
later_neq network_policy_kind l = elim l [ ]

pub policy-Away : (namespace : String) (key' : Key) → Away namespace network_policy_kind key'
policy-Away namespace key' k name l = inl (λ e. (later_neq k l).0 (sym e))
