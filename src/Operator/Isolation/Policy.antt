-- ===== src/Operator/Isolation/Policy.antt =====
-- Who may reach the pods of a workspace: the network policy that a reconciliation leaves.

use k8s_opencode.Common.{
  String, Bool, true, false, ◌&&◌, ◌||◌, not, Option, none, some, List, [], ◌∷◌, ◌≡◌, ◌↔◌, inl,
  ◌==◌, eq_iff, arith,
}
use k8s_opencode.Common.Dict.{Dict, lookup}
use k8s_opencode.Common.Json.{Codec}
use k8s_opencode.Operator.Exec.{ok, pure}
use k8s_opencode.Operator.Exec.Inversion.{wrapping-ok, lift-bind}
use k8s_opencode.Operator.Exec.Keeps.{Keeps}
use k8s_opencode.Operator.Api.{OpenCodeWorkspace}
use k8s_opencode.Operator.Object.{
  PolicyType, ingress_policy, egress_policy, NetworkPolicy, NetworkPolicyPeer, NetworkPolicyRule,
  Key, network_policy_kind,
}
use k8s_opencode.Operator.Selector.{selects}
use k8s_opencode.Operator.Client.{Client}
use k8s_opencode.Operator.Contract.{Contract, verbatim_network_policy}
use k8s_opencode.Operator.Resources.Config.{ConfigCodec}
use k8s_opencode.Operator.Resources.Owned.{own}
use k8s_opencode.Operator.Isolation.Away.{policy-Away}
use k8s_opencode.Operator.Isolation.Calls.{Same}
use k8s_opencode.Operator.Isolation.Reconcile.{Keeps-provision_rest}
use k8s_opencode.Operator.Reconcile.Live.{Ends-reconcile_live}
use k8s_opencode.Operator.Reconcile.{done, provision_in, reconcile_live}
use k8s_opencode.Operator.Reconcile.Ends.{Ends, Ends-kept, Ends-handle_reconcile_error}
use k8s_opencode.Operator.Resources.Names.{namespace_name}
use k8s_opencode.Operator.Resources.Network.{
  network_policy_name, tailscale_peer, isolate, reconcile_network_policy,
}

-- The documented meaning of an ingress rule, for traffic from a pod of a namespace with these
-- labels: a selector wants each of its labels, a peer without one admits none of another namespace,
-- a rule without peers admits all.
abbrev pub peer_admits : NetworkPolicyPeer → Dict String → Bool
peer_admits p labels = elim p.namespace_selector [ none ↦ false | some sel ↦ selects sel labels ]

abbrev pub any_peer : List NetworkPolicyPeer → Dict String → Bool
any_peer [] labels = false
any_peer (p ∷ ps) labels = peer_admits p labels || any_peer ps labels

abbrev pub rule_admits : NetworkPolicyRule → Dict String → Bool
rule_admits r labels = elim r.peers [ [] ↦ true | p ∷ ps ↦ any_peer (p ∷ ps) labels ]

abbrev pub any_rule : List NetworkPolicyRule → Dict String → Bool
any_rule [] labels = false
any_rule (r ∷ rs) labels = rule_admits r labels || any_rule rs labels

-- A policy restricts what comes in if it has the type `Ingress`, which it has by default.
abbrev pub has_ingress : List PolicyType → Bool
has_ingress [] = false
has_ingress (ingress_policy ∷ types) = true
has_ingress (egress_policy ∷ types) = has_ingress types

abbrev pub restricts_ingress : List PolicyType → Bool
restricts_ingress [] = true
restricts_ingress (type ∷ types) = has_ingress (type ∷ types)

abbrev pub admits : NetworkPolicy → Dict String → Bool
admits np labels = not (restricts_ingress np.policy_types) || any_rule np.ingress labels

holds_alone :
    (found : Option String) (value : String)
    → (((elim found [ none ↦ false | some v ↦ v == value ]) && true || false || false) ≡ true)
      ↔ (found ≡ some value)
holds_alone none value = ground arith
holds_alone (some v) value = ground (arith, eq_iff v value)

module _ (c : Client) where
  -- What the operator makes of any network policy: for all pods of the namespace, it admits traffic
  -- from the namespace named `tailscale` and from no other, itself included.
  isolate-ingress :
      (ws : OpenCodeWorkspace) (np np' : NetworkPolicy) (w : c.World)
      → (isolate c ws np w).0 ≡ ok np'
      → (np'.pod_selector ≡ [])
        × (np'.ingress ≡ record { peers = tailscale_peer ∷ [] } ∷ [])
        × (np'.policy_types ≡ ingress_policy ∷ egress_policy ∷ [])
  unfolding isolate own pure
  isolate-ingress ws np np' w h =
      let (m, answered, run) = lift-bind (c.set_owner_reference ws np.meta) _ w np' h in
      let h' = rw run at h in (cc (h'), cc (h'), cc (h'))

abbrev pub policy_at : String → Key
policy_at namespace = record { namespace = namespace; name = network_policy_name }

-- A network policy is stored for this namespace that covers all its pods, and admits traffic from
-- the namespace named `tailscale` only.
pub record Guarded (c : Client) (contract : Contract c) (namespace : String) (w : c.World)
    : Type 0 where
  pub policy : NetworkPolicy
  pub stored : contract.lookup w network_policy_kind (policy_at namespace) ≡ some policy
  pub for_all : policy.pod_selector ≡ []
  pub admitted :
      (labels : Dict String)
      → (admits policy labels ≡ true)
        ↔ (lookup "kubernetes.io/metadata.name" labels ≡ some "tailscale")

module _ (c : Client) (contract : Contract c) (j : Codec) (jc : ConfigCodec) (system : String)
    (namespace : String) where
  pub reconcile_network_policy-Guarded :
      (ws : OpenCodeWorkspace) (w : c.World) (a : Unit {0})
      → (reconcile_network_policy c ws namespace w).0 ≡ ok a
      → Guarded c contract namespace (reconcile_network_policy c ws namespace w).1
  unfolding reconcile_network_policy
  reconcile_network_policy-Guarded ws w a h =
      let (written, same) = wrapping-ok _ _ w a h in
      let (np, u, policy, made, stored) =
        contract.create_or_update_written network_policy_kind verbatim_network_policy _
          (isolate c ws) w written in
      let (for_all, ingress, types) = isolate-ingress c ws np policy u made in
      record {
        policy = policy;
        stored = rw same stored;
        for_all = for_all;
        admitted = λ labels.
            rw (types, ingress)
              (holds_alone (lookup "kubernetes.io/metadata.name" labels) "tailscale");
      }

  pub Keeps-Guarded :
      {X : Type 0} (m : c.World → X × c.World)
      → ((o : Option NetworkPolicy)
          → Keeps (Same c contract network_policy_kind (policy_at namespace) o) m)
      → Keeps (Guarded c contract namespace) m
  Keeps-Guarded m kept = record {
    at = λ w g. record {
      policy = g.policy;
      stored = (kept (some g.policy)).at w g.stored;
      for_all = g.for_all;
      admitted = g.admitted;
    };
  }

  Ends-provision_in :
      (ws : OpenCodeWorkspace)
      → Ends (Guarded c contract namespace) (provision_in c j jc system ws namespace)
  unfolding provision_in
  Ends-provision_in ws =
      Ends-kept c (reconcile_network_policy c ws namespace) _ _
        (reconcile_network_policy-Guarded ws)
        (λ a. Keeps-Guarded _ (λ o.
          Keeps-provision_rest c contract j jc system network_policy_kind (policy_at namespace) o ws
            namespace (policy-Away namespace (policy_at namespace)) (inl (λ e. cc (e)))))
        (λ e. Ends-handle_reconcile_error c ws "NetworkPolicy" e)

-- A reconciliation of a workspace that is not being deleted which answers with no error and no
-- requeue leaves, in the workspace's namespace, a network policy for all its pods that admits traffic
-- from the pods of the namespace named `tailscale` and from no other namespace, whatever the policy
-- was before.
pub reconcile_live-Guarded :
    (c : Client) (contract : Contract c) (j : Codec) (jc : ConfigCodec) (system : String)
    (ws : OpenCodeWorkspace) (w : c.World)
    → (reconcile_live c j jc system ws w).0 ≡ done
    → Guarded c contract (namespace_name ws) (reconcile_live c j jc system ws w).1
reconcile_live-Guarded c contract j jc system ws w h =
    (Ends-reconcile_live c contract j jc system (Guarded c contract)
        (λ namespace ws'. Ends-provision_in c contract j jc system namespace ws') ws).at
      w h
