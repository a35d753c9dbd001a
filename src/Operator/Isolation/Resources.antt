-- ===== src/Operator/Isolation/Resources.antt =====
-- The object at an address outside a workspace's footprint is left as it is by each of the functions
-- that reconcile the workspace's resources.
use mathlib.Core.Path.{subst}
use k8s_opencode.Common.{String, Option, ◌≡◌, sym}
use k8s_opencode.Common.Json.{Codec}
use k8s_opencode.Operator.Exec.Keeps.{Keeps, keeps_rules}
use k8s_opencode.Operator.Api.{OpenCodeWorkspace}
use k8s_opencode.Operator.Object.{
  Kind, Object, ObjectMeta, Key, key_of, namespace_kind, config_map_kind, ConfigMap,
  network_policy_kind,
}
use k8s_opencode.Operator.Client.{Client}
use k8s_opencode.Operator.Contract.{Contract, Differs}
use k8s_opencode.Operator.Isolation.Calls.{
  Same, Keeps-try-get, Keeps-create, Keeps-update, Keeps-create_or_update, Keeps-retry,
}
use k8s_opencode.Operator.EmailMap.{
  email_map_at, store_payload, write_payload, put_entry, adopt_email_map, create_email_map,
  set_missing, set_email, reconcile_email_map,
}
use k8s_opencode.Operator.Resources.Names.{namespace_name}
use k8s_opencode.Operator.Resources.Owned.{own, label_namespace, reconcile_namespace}
use k8s_opencode.Operator.Resources.Network.{network_policy_name, isolate, reconcile_network_policy}

module _ (c : Client) (contract : Contract c) (k' : Kind) (key' : Key) (o' : Option (Object k'))
    (ws : OpenCodeWorkspace) where
  pub Keeps-own : (m : ObjectMeta) → Keeps (Same c contract k' key' o') (own c ws m)
  unfolding own
  Keeps-own m = search keeps_rules

  pub Keeps-reconcile_namespace :
      Differs namespace_kind (record { namespace = ""; name = namespace_name ws }) k' key'
      → Keeps (Same c contract k' key' o') (reconcile_namespace c ws)
  unfolding reconcile_namespace label_namespace
  Keeps-reconcile_namespace d = search (keeps_rules, Keeps-create_or_update, Keeps-own)

  module _ (j : Codec) (system : String)
      (d : Differs config_map_kind (email_map_at c j system) k' key') where
    -- A ConfigMap that was read at the email map's key is written at that key.
    read-Differs :
        (cm : ConfigMap)
        → key_of config_map_kind cm ≡ email_map_at c j system
        → Differs config_map_kind (key_of config_map_kind cm) k' key'
    read-Differs cm e = subst (λ key. Differs config_map_kind key k' key') (sym e) d

    Keeps-put_entry :
        (email name : String) (cm : ConfigMap)
        → key_of config_map_kind cm ≡ email_map_at c j system
        → Keeps (Same c contract k' key' o') (put_entry c j system email name cm)
    unfolding put_entry write_payload store_payload
    Keeps-put_entry email name cm e =
        let d' = read-Differs cm e in search (keeps_rules, Keeps-update, d')

    Keeps-create_email_map :
        (email name : String)
        → Keeps (Same c contract k' key' o') (create_email_map c j system email name)
    unfolding create_email_map adopt_email_map
    Keeps-create_email_map email name =
        search (keeps_rules, Keeps-create, Keeps-try-get, Keeps-put_entry, d)

    Keeps-set_email :
        (email name : String) → Keeps (Same c contract k' key' o') (set_email c j system email name)
    unfolding set_email set_missing
    Keeps-set_email email name =
        search (keeps_rules, Keeps-try-get, Keeps-put_entry, Keeps-create_email_map)

    pub Keeps-reconcile_email_map :
        Keeps (Same c contract k' key' o') (reconcile_email_map c j system ws)
    unfolding reconcile_email_map
    Keeps-reconcile_email_map = search (keeps_rules, Keeps-retry, Keeps-set_email)

  pub Keeps-reconcile_network_policy :
      (namespace : String)
      → Differs network_policy_kind
          (record { namespace = namespace; name = network_policy_name })
          k'
          key'
      → Keeps (Same c contract k' key' o') (reconcile_network_policy c ws namespace)
  unfolding reconcile_network_policy isolate
  Keeps-reconcile_network_policy namespace d =
      search (keeps_rules, Keeps-create_or_update, Keeps-own, d)
