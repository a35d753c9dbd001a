-- ===== src/Operator/Resources/Network.antt =====
-- operator/internal/controller/reconcile_networkpolicy.go
use k8s_opencode.Common.{String, ◌++◌, some, [], ◌∷◌}
use k8s_opencode.Operator.Exec.{Exec, pure, wrapping, ◌>>=◌}
use k8s_opencode.Operator.Api.{OpenCodeWorkspace}
use k8s_opencode.Operator.Object.{
  NetworkPolicy, NetworkPolicyPeer, ingress_policy, egress_policy, meta_of, network_policy_kind,
}
use k8s_opencode.Operator.Client.{Client}
use k8s_opencode.Operator.Resources.Owned.{own, quoted}

abbrev pub network_policy_name : String
network_policy_name = "workspace-isolation"

abbrev pub tailscale_peer : NetworkPolicyPeer
tailscale_peer = record {
  namespace_selector = some (("kubernetes.io/metadata.name", "tailscale") ∷ []);
}

module _ (c : Client) (ws : OpenCodeWorkspace) where
  unfoldable pub isolate : NetworkPolicy → Exec c.World NetworkPolicy
  isolate np = do
    m ← own c ws np.meta
    pure (record np {
      meta = m;
      pod_selector = [];
      policy_types = ingress_policy ∷ egress_policy ∷ [];
      ingress = record { peers = tailscale_peer ∷ [] } ∷ [];
      egress = record { peers = [] } ∷ [];
    })

  unfoldable pub reconcile_network_policy : String → Exec c.World (Unit {0})
  reconcile_network_policy namespace =
      wrapping ("failed to reconcile network policy " ++ (quoted network_policy_name ++ ": ")) (
        c.create_or_update network_policy_kind
          (record {
            meta = meta_of namespace network_policy_name;
            pod_selector = [];
            policy_types = [];
            ingress = [];
            egress = [];
          })
          isolate)
