-- ===== src/Operator/Supplies/First.antt =====
-- No StatefulSet is written before what its pods need is there.
use k8s_opencode.Common.{String, Option, ◌≢◌, refl, inl, inr}
use k8s_opencode.Common.Json.{Codec}
use k8s_opencode.Operator.Exec.{Error, Exec}
use k8s_opencode.Operator.Exec.Keeps.{Keeps}
use k8s_opencode.Operator.Exec.Gives.{Gives}
use k8s_opencode.Operator.Api.{OpenCodeWorkspace}
use k8s_opencode.Operator.Object.{
  Key, Object, secret_kind, config_map_kind, claim_kind, stateful_set_kind,
}
use k8s_opencode.Operator.Client.{Client}
use k8s_opencode.Operator.Contract.{Contract, Differs}
use k8s_opencode.Operator.EmailMap.{email_map_at}
use k8s_opencode.Operator.Resources.Config.{ConfigCodec, reconcile_config_map}
use k8s_opencode.Operator.Resources.Secrets.{reconcile_secrets}
use k8s_opencode.Common.Dict.{Dict}
use k8s_opencode.Operator.Resources.Claims.{reconcile_pvcs}
use k8s_opencode.Operator.Isolation.Away.{later_stateful_set, later_neq}
use k8s_opencode.Operator.Isolation.Resources.{Keeps-reconcile_network_policy}
use k8s_opencode.Operator.Isolation.Inside.{
  Keeps-reconcile_secrets, Keeps-reconcile_config_map, Keeps-reconcile_pvcs,
}
use k8s_opencode.Operator.Isolation.Leads.{
  Leads, Leads-after, Leads-same, Before, Behind, Leads-reported, Leads-reconcile_live,
}
use k8s_opencode.Operator.Reconcile.{
  provision_in, provision_rest, reconcile_live, handle_reconcile_error, Action, after,
}
use k8s_opencode.Operator.Supplies.Stored.{Keeps-Stored}
use k8s_opencode.Operator.Supplies.Parts.{
  in_namespace, other_name, PasswordStored, ConfigStored, ClaimStored, Gives-reconcile_secrets,
  Gives-reconcile_config_map, Gives-workspace_claim, Gives-data_claim,
}
use k8s_opencode.Operator.Supplies.Reconciled.{Stocked, other_kind, rest_rules}
use k8s_opencode.Operator.Supplies.Needs.{HasInputs, Stocked-HasInputs}

module _ (c : Client) (contract : Contract c) (j : Codec) (jc : ConfigCodec) (system : String)
    (key' : Key) (o' : Option (Object stateful_set_kind)) where
  module _ (P : String → c.World → Type 0) (ws : OpenCodeWorkspace) (namespace : String) where
    abbrev Start : c.World → Type 0
    Start = Before c contract j jc system stateful_set_kind key' o' later_stateful_set P

    abbrev End : c.World → Type 0
    End = Behind c contract j jc system stateful_set_kind key' o' later_stateful_set P namespace

    refused :
        (resource : String) (e : Error) → Leads Start End (handle_reconcile_error c ws resource e)
    refused resource e =
        Leads-reported c contract j jc system stateful_set_kind key' o' later_stateful_set P
          namespace ws resource e

    -- A resource's success brings `P` about, and what follows keeps it.
    Leads-given :
        {A : Type 0} (resource : String) (m : Exec c.World A) (k : A → Action c)
        → Gives (P namespace) m
        → Keeps Start m
        → ((a : A) → Keeps (P namespace) (k a))
        → Leads Start End (after c m k (handle_reconcile_error c ws resource))
    Leads-given resource m k given km kk =
        Leads-after c {R = λ _. P namespace} m k _ (λ w a h e. given.at w a e) km
          (λ w a e. record { at = λ u g. inr ((kk a).at u g) }) (refused resource)

    Keeps-secrets : Keeps Start (reconcile_secrets c ws namespace)
    Keeps-secrets =
        Keeps-reconcile_secrets c contract stateful_set_kind key' o' ws namespace
          (λ name. other_kind secret_kind stateful_set_kind _ key' refl)

    Keeps-config_map :
        (keys : Dict String) → Keeps Start (reconcile_config_map jc c ws namespace keys)
    Keeps-config_map keys =
        Keeps-reconcile_config_map c contract stateful_set_kind key' o' ws namespace jc keys
          (λ name. other_kind config_map_kind stateful_set_kind _ key' refl)

    Keeps-pvcs : Keeps Start (reconcile_pvcs c ws namespace)
    Keeps-pvcs =
        Keeps-reconcile_pvcs c contract stateful_set_kind key' o' ws namespace
          (λ name. other_kind claim_kind stateful_set_kind _ key' refl)

    -- From the network policy on.
    Leads-in :
        Leads Start End (provision_rest c j jc system ws namespace)
        → Leads Start End (provision_in c j jc system ws namespace)
    unfolding provision_in
    Leads-in rest =
        Leads-same c _ _ _
          (Keeps-reconcile_network_policy c contract stateful_set_kind key' o' ws namespace
            (inl (later_neq stateful_set_kind later_stateful_set).0))
          (λ w a e. rest) (refused _)

  abbrev Claimed : String → String → c.World → Type 0
  Claimed name namespace = ClaimStored c contract namespace name

  module _ (ws : OpenCodeWorkspace) (namespace : String) where
    Leads-password :
        Leads
          (Start (PasswordStored c contract) ws namespace)
          (End (PasswordStored c contract) ws namespace)
          (provision_rest c j jc system ws namespace)
    unfolding provision_rest
    Leads-password =
        Leads-given (PasswordStored c contract) ws namespace "Secrets" _ _
          (Gives-reconcile_secrets c contract namespace ws)
          (Keeps-secrets (PasswordStored c contract) ws namespace)
          (λ keys. Keeps-Stored c contract secret_kind _ _ _ (λ o. search rest_rules depth 30))

    Leads-config :
        Leads
          (Start (ConfigStored c contract) ws namespace)
          (End (ConfigStored c contract) ws namespace)
          (provision_rest c j jc system ws namespace)
    unfolding provision_rest
    Leads-config =
        let P = ConfigStored c contract in
        let email_map : Differs config_map_kind (email_map_at c j system) config_map_kind
            (in_namespace namespace "opencode-config") =
          inr (other_name _ _ refl) in
        Leads-same c _ _ _ (Keeps-secrets P ws namespace)
          (λ w keys e.
            Leads-given P ws namespace "ConfigMap" _ _
              (Gives-reconcile_config_map c contract namespace ws jc _)
              (Keeps-config_map P ws namespace _)
              (λ a.
                Keeps-Stored c contract config_map_kind _ _ _
                  (λ o. search (rest_rules, email_map) depth 30)))
          (refused P ws namespace _)

    Leads-claim :
        (name : String)
        → Gives (ClaimStored c contract namespace name) (reconcile_pvcs c ws namespace)
        → Leads
            (Start (Claimed name) ws namespace)
            (End (Claimed name) ws namespace)
            (provision_rest c j jc system ws namespace)
    unfolding provision_rest
    Leads-claim name given =
        let P = Claimed name in
        Leads-same c _ _ _ (Keeps-secrets P ws namespace)
          (λ w keys e.
            Leads-same c _ _ _ (Keeps-config_map P ws namespace _)
              (λ w' a e'.
                Leads-given P ws namespace "PVCs" _ _ given (Keeps-pvcs P ws namespace)
                  (λ b. Keeps-Stored c contract claim_kind _ _ _ (λ o. search rest_rules depth 30)))
              (refused P ws namespace _))
          (refused P ws namespace _)

    Leads-provision_in :
        Leads
          (Start (Stocked c contract) ws namespace)
          (End (Stocked c contract) ws namespace)
          (provision_in c j jc system ws namespace)
    Leads-provision_in = Leads-in (Stocked c contract) ws namespace (record {
      at = λ w h. elim (Leads-password.at w h) [
        | inl same ↦ inl same
        | inr password ↦ elim (Leads-config.at w h) [
          | inl same ↦ inl same
          | inr config ↦
              elim ((Leads-claim "workspace-pvc" (Gives-workspace_claim c contract namespace ws)).at
                w h) [
                  | inl same ↦ inl same
                  | inr workspace_claim ↦
                      elim ((Leads-claim "data-pvc" (Gives-data_claim c contract namespace ws)).at w
                        h) [
                          | inl same ↦ inl same
                          | inr data_claim ↦ inr (record {
                            password = password;
                            config = config;
                            workspace_claim = workspace_claim;
                            data_claim = data_claim;
                          })
                        ]
                ]
        ]
      ];
    })

-- Whatever the calls answer, and wherever a reconciliation of a workspace that is not being deleted
-- breaks off: no StatefulSet has been written or changed unless all is stored that the volumes and
-- the environment of the workspace's pods refer to, the providers' API keys apart. So none of its
-- pods is started with a part of its configuration missing.
pub reconcile_live-HasInputs_first :
    (c : Client) (contract : Contract c) (j : Codec) (jc : ConfigCodec) (system : String)
    (ws : OpenCodeWorkspace) (w : c.World) (key' : Key)
    → contract.lookup (reconcile_live c j jc system ws w).1 stateful_set_kind key'
      ≢ contract.lookup w stateful_set_kind key'
    → HasInputs c contract ws (reconcile_live c j jc system ws w).1
reconcile_live-HasInputs_first c contract j jc system ws w key' changed =
    let before = contract.lookup w stateful_set_kind key' in
    elim ((Leads-reconcile_live c contract j jc system stateful_set_kind key' before
        later_stateful_set (Stocked c contract)
        (Leads-provision_in c contract j jc system key' before) ws).at
      w refl) [
        | inl same ↦ absurd (changed same)
        | inr stocked ↦ Stocked-HasInputs c contract ws _ stocked
      ]
