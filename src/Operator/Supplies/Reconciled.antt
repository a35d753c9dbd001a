-- ===== src/Operator/Supplies/Reconciled.antt =====
-- A reconciliation that is done has left the Secret, the ConfigMap, the volumes' claims and the
-- StatefulSet.

use k8s_opencode.Common.{String, false, ℕ, ◌≡◌, refl, ap, inl, inr, nat_eq, arith}
use k8s_opencode.Common.Json.{Codec}
use k8s_opencode.Operator.Exec.{Error}
use k8s_opencode.Operator.Exec.Gives.{Gives}
use k8s_opencode.Operator.Api.{OpenCodeWorkspace}
use k8s_opencode.Operator.Object.{
  Kind, Key, secret_kind, config_map_kind, claim_kind, stateful_set_kind, service_account_kind,
  role_kind, role_binding_kind, deployment_kind, service_kind, ingress_kind,
}
use k8s_opencode.Operator.Client.{Client}
use k8s_opencode.Operator.Contract.{Contract, Differs}
use k8s_opencode.Operator.EmailMap.{email_map_at}
use k8s_opencode.Operator.Resources.Config.{ConfigCodec}
use k8s_opencode.Operator.Resources.Claims.{reconcile_pvcs}
use k8s_opencode.Operator.Isolation.Resources.{Keeps-reconcile_email_map}
use k8s_opencode.Operator.Isolation.Inside.{
  Keeps-reconcile_config_map, Keeps-reconcile_pvcs, Keeps-reconcile_kubedock,
  Keeps-reconcile_stateful_set, Keeps-reconcile_service, Keeps-reconcile_tailscale_ingress,
}
use k8s_opencode.Operator.Isolation.Reconcile.{
  action_rules, Keeps-handle_reconcile_error, Keeps-finish,
}
use k8s_opencode.Operator.Reconcile.{provision_in, provision_rest, handle_reconcile_error}
use k8s_opencode.Operator.Reconcile.Ends.{Ends, Ends-kept, Ends-after, Ends-handle_reconcile_error}
use k8s_opencode.Operator.Supplies.Stored.{Keeps-Stored}
use k8s_opencode.Operator.Supplies.Parts.{
  in_namespace, other_name, PasswordStored, ConfigStored, ClaimStored, SetStored,
  Gives-reconcile_secrets, Gives-reconcile_config_map, Gives-workspace_claim, Gives-data_claim,
  Gives-reconcile_stateful_set,
}

-- The place of a kind in the order in which its objects are written.
abbrev pub place : Kind → ℕ
place secret_kind = 1
place config_map_kind = 2
place claim_kind = 3
place service_account_kind = 4
place role_kind = 4
place role_binding_kind = 4
place deployment_kind = 4
place stateful_set_kind = 5
place service_kind = 6
place ingress_kind = 7
place k = 0

pub other_kind :
    (k k' : Kind) (key key' : Key) → nat_eq (place k) (place k') ≡ false → Differs k key k' key'
other_kind k k' key key' n =
    inl (λ e. let h : place k ≡ place k' = ap place e in ground (arith, h, n))

module _ (c : Client) (contract : Contract c) (j : Codec) (jc : ConfigCodec) (system : String)
    (namespace : String) (ws : OpenCodeWorkspace) where
  -- Objects of a kind that is written at another place are at other addresses.
  pub clear_at :
      (k' : Kind) (name' : String) (k : Kind)
      → nat_eq (place k) (place k') ≡ false
      → (name : String) → Differs k (in_namespace namespace name) k' (in_namespace namespace name')
  clear_at k' name' k n name = other_kind k k' _ _ n

  pub ruleset rest_rules = (
    action_rules, Keeps-handle_reconcile_error, Keeps-finish, Keeps-reconcile_config_map,
    Keeps-reconcile_pvcs, Keeps-reconcile_kubedock, Keeps-reconcile_stateful_set,
    Keeps-reconcile_service, Keeps-reconcile_tailscale_ingress, Keeps-reconcile_email_map, clear_at,
    other_kind,
  )

  Ends-refused :
      {P : c.World → Type 0} (resource : String) (e : Error)
      → Ends P (handle_reconcile_error c ws resource e)
  Ends-refused resource e = Ends-handle_reconcile_error c ws resource e

  Ends-password :
      Ends (PasswordStored c contract namespace) (provision_rest c j jc system ws namespace)
  unfolding provision_rest
  Ends-password =
      Ends-kept c _ _ _ (Gives-reconcile_secrets c contract namespace ws).at
        (λ keys. Keeps-Stored c contract secret_kind _ _ _ (λ o. search rest_rules depth 30))
        (Ends-refused _)

  Ends-config : Ends (ConfigStored c contract namespace) (provision_rest c j jc system ws namespace)
  unfolding provision_rest
  Ends-config =
      let email_map : Differs config_map_kind (email_map_at c j system) config_map_kind
          (in_namespace namespace "opencode-config") =
        inr (other_name _ _ refl) in
      Ends-after c _ _ _
        (λ keys.
          Ends-kept c _ _ _ (Gives-reconcile_config_map c contract namespace ws jc _).at
            (λ a.
              Keeps-Stored c contract config_map_kind _ _ _
                (λ o. search (rest_rules, email_map) depth 30))
            (Ends-refused _))
        (Ends-refused _)

  Ends-claim :
      (name : String)
      → Gives (ClaimStored c contract namespace name) (reconcile_pvcs c ws namespace)
      → Ends (ClaimStored c contract namespace name) (provision_rest c j jc system ws namespace)
  unfolding provision_rest
  Ends-claim name given =
      Ends-after c _ _ _
        (λ keys.
          Ends-after c _ _ _
            (λ a.
              Ends-kept c _ _ _ given.at
                (λ b. Keeps-Stored c contract claim_kind _ _ _ (λ o. search rest_rules depth 30))
                (Ends-refused _))
            (Ends-refused _))
        (Ends-refused _)

  Ends-set : Ends (SetStored c contract namespace) (provision_rest c j jc system ws namespace)
  unfolding provision_rest
  Ends-set =
      Ends-after c _ _ _
        (λ keys.
          Ends-after c _ _ _
            (λ a.
              Ends-after c _ _ _
                (λ b.
                  Ends-after c _ _ _
                    (λ d.
                      Ends-kept c _ _ _ (Gives-reconcile_stateful_set c contract namespace ws).at
                        (λ f.
                          Keeps-Stored c contract stateful_set_kind _ _ _
                            (λ o. search rest_rules depth 30))
                        (Ends-refused _))
                    (Ends-refused _))
                (Ends-refused _))
            (Ends-refused _))
        (Ends-refused _)

-- What is stored in a workspace's namespace for its pods.
pub record Stocked (c : Client) (contract : Contract c) (namespace : String) (w : c.World)
    : Type 0 where
  pub password : PasswordStored c contract namespace w
  pub config : ConfigStored c contract namespace w
  pub workspace_claim : ClaimStored c contract namespace "workspace-pvc" w
  pub data_claim : ClaimStored c contract namespace "data-pvc" w

module _ (c : Client) (contract : Contract c) (j : Codec) (jc : ConfigCodec) (system : String) where
  -- The StatefulSet is stored too.
  abbrev pub Complete : String → c.World → Type 0
  Complete namespace w = Stocked c contract namespace w × SetStored c contract namespace w

  pub Ends-provision_in :
      (namespace : String) (ws : OpenCodeWorkspace)
      → Ends (Complete namespace) (provision_in c j jc system ws namespace)
  unfolding provision_in
  Ends-provision_in namespace ws =
      Ends-after c _ _ _
        (λ a. record {
          at = λ w h. (
            record {
              password = (Ends-password c contract j jc system namespace ws).at w h;
              config = (Ends-config c contract j jc system namespace ws).at w h;
              workspace_claim =
                  (Ends-claim c contract j jc system namespace ws "workspace-pvc"
                      (Gives-workspace_claim c contract namespace ws)).at
                    w h;
              data_claim =
                  (Ends-claim c contract j jc system namespace ws "data-pvc"
                      (Gives-data_claim c contract namespace ws)).at
                    w h;
            },
            (Ends-set c contract j jc system namespace ws).at w h,
          );
        })
        (λ e. Ends-handle_reconcile_error c ws _ e)
