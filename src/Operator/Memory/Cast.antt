-- ===== src/Operator/Memory/Cast.antt =====
-- Objects of a kind, as objects of a kind that may be another.
use k8s_opencode.Common.{Option, none, some, ◌≡◌, refl, ◌≢◌}
use k8s_opencode.Operator.Object.{
  Kind, Object, namespace_kind, network_policy_kind, config_map_kind, secret_kind, claim_kind,
  service_account_kind, role_kind, role_binding_kind, deployment_kind, service_kind,
  stateful_set_kind, ingress_kind,
}

unfoldable pub cast : (k k' : Kind) → Object k → Option (Object k')
cast namespace_kind namespace_kind o = some o
cast network_policy_kind network_policy_kind o = some o
cast config_map_kind config_map_kind o = some o
cast secret_kind secret_kind o = some o
cast claim_kind claim_kind o = some o
cast service_account_kind service_account_kind o = some o
cast role_kind role_kind o = some o
cast role_binding_kind role_binding_kind o = some o
cast deployment_kind deployment_kind o = some o
cast service_kind service_kind o = some o
cast stateful_set_kind stateful_set_kind o = some o
cast ingress_kind ingress_kind o = some o
cast k k' o = none

pub cast_other : (k k' : Kind) (o : Object k) → k ≢ k' → cast k k' o ≡ none
unfolding cast
cast_other namespace_kind namespace_kind o n = absurd (n refl)
cast_other network_policy_kind network_policy_kind o n = absurd (n refl)
cast_other config_map_kind config_map_kind o n = absurd (n refl)
cast_other secret_kind secret_kind o n = absurd (n refl)
cast_other claim_kind claim_kind o n = absurd (n refl)
cast_other service_account_kind service_account_kind o n = absurd (n refl)
cast_other role_kind role_kind o n = absurd (n refl)
cast_other role_binding_kind role_binding_kind o n = absurd (n refl)
cast_other deployment_kind deployment_kind o n = absurd (n refl)
cast_other service_kind service_kind o n = absurd (n refl)
cast_other stateful_set_kind stateful_set_kind o n = absurd (n refl)
cast_other ingress_kind ingress_kind o n = absurd (n refl)
cast_other k k' o n = refl

pub cast_same : (k : Kind) (o : Object k) → cast k k o ≡ some o
unfolding cast
cast_same namespace_kind o = refl
cast_same network_policy_kind o = refl
cast_same config_map_kind o = refl
cast_same secret_kind o = refl
cast_same claim_kind o = refl
cast_same service_account_kind o = refl
cast_same role_kind o = refl
cast_same role_binding_kind o = refl
cast_same deployment_kind o = refl
cast_same service_kind o = refl
cast_same stateful_set_kind o = refl
cast_same ingress_kind o = refl
