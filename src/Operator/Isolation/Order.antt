-- ===== src/Operator/Isolation/Order.antt =====
-- In which order a reconciliation writes the objects of a workspace's namespace: the network policy
-- before all that runs there.

use k8s_opencode.Common.{◌≢◌, String, Option, refl, inl, inr}
use k8s_opencode.Common.Json.{Codec}
use k8s_opencode.Operator.Api.{OpenCodeWorkspace}
use k8s_opencode.Operator.Object.{Kind, Object, Key, network_policy_kind}
use k8s_opencode.Operator.Client.{Client}
use k8s_opencode.Operator.Contract.{Contract}
use k8s_opencode.Operator.Resources.Names.{namespace_name}
use k8s_opencode.Operator.Resources.Network.{reconcile_network_policy}
use k8s_opencode.Operator.Resources.Config.{ConfigCodec}
use k8s_opencode.Operator.Isolation.Away.{IsLater, later_neq, policy-Away}
use k8s_opencode.Operator.Isolation.Resources.{Keeps-reconcile_network_policy}
use k8s_opencode.Operator.Isolation.Reconcile.{Keeps-provision_rest}
use k8s_opencode.Operator.Isolation.Policy.{
  Guarded, policy_at, reconcile_network_policy-Guarded, Keeps-Guarded,
}
use k8s_opencode.Operator.Reconcile.{provision_in, reconcile_live}
use k8s_opencode.Operator.Isolation.Leads.{
  Leads, Leads-after, Before, Behind, Leads-reported, Leads-reconcile_live,
}

module _ (c : Client) (contract : Contract c) (j : Codec) (jc : ConfigCodec) (system : String)
    (k' : Kind) (key' : Key) (o' : Option (Object k')) (later : IsLater k') where
  Leads-provision_in :
      (ws : OpenCodeWorkspace) (namespace : String)
      → Leads
          (Before c contract j jc system k' key' o' later (Guarded c contract))
          (Behind c contract j jc system k' key' o' later (Guarded c contract) namespace)
          (provision_in c j jc system ws namespace)
  unfolding provision_in
  Leads-provision_in ws namespace =
      Leads-after c {R = λ _. Guarded c contract namespace}
        (reconcile_network_policy c ws namespace) _ _
        (λ w a h e. reconcile_network_policy-Guarded c contract j jc system namespace ws w a e)
        (Keeps-reconcile_network_policy c contract k' key' o' ws namespace
          (inl (later_neq k' later).0))
        (λ w a e. record {
          at = λ u g. inr (
              (Keeps-Guarded c contract j jc system namespace _ (λ o.
                  Keeps-provision_rest c contract j jc system network_policy_kind
                    (policy_at namespace) o ws namespace
                    (policy-Away namespace (policy_at namespace)) (inl (λ e. cc (e))))).at
                u g);
        })
        (λ e.
          Leads-reported c contract j jc system k' key' o' later (Guarded c contract) namespace ws
            "NetworkPolicy" e)

-- Whatever the calls answer, and wherever a reconciliation of a workspace that is not being deleted
-- breaks off: of the objects that are neither namespaces nor network policies, none has been written
-- unless the network policy is stored in the workspace's namespace that admits traffic to its pods
-- from the namespace named `tailscale` only. So no pod is started, nor a Secret written, in a
-- namespace that is open to others.
pub reconcile_live-Guarded_first :
    (c : Client) (contract : Contract c) (j : Codec) (jc : ConfigCodec) (system : String)
    (ws : OpenCodeWorkspace) (w : c.World) (k' : Kind) (key' : Key)
    → IsLater k'
    → contract.lookup (reconcile_live c j jc system ws w).1 k' key' ≢ contract.lookup w k' key'
    → Guarded c contract (namespace_name ws) (reconcile_live c j jc system ws w).1
reconcile_live-Guarded_first c contract j jc system ws w k' key' later changed =
    elim ((Leads-reconcile_live c contract j jc system k' key' (contract.lookup w k' key') later
        (Guarded c contract)
        (Leads-provision_in c contract j jc system k' key' (contract.lookup w k' key') later) ws).at
      w refl) [ inl same ↦ absurd (changed same) | inr guarded ↦ guarded ]
