-- ===== src/Operator/Isolation/Inside.antt =====
-- An object at an address where none of the kinds is that a function writes in the workspace's
-- namespace is left as it is by that function.
use k8s_opencode.Common.{Bool, String, Option, [], ◌∷◌}
use k8s_opencode.Common.Dict.{Dict}
use k8s_opencode.Operator.Exec.Keeps.{Keeps, keeps_rules}
use k8s_opencode.Operator.Api.{OpenCodeWorkspace, Quantity, SecretKeyRef}
use k8s_opencode.Operator.Object.{
  Kind, Object, Key, config_map_kind, Secret, secret_kind, claim_kind, service_account_kind,
  role_kind, role_binding_kind, deployment_kind, service_kind, stateful_set_kind, ingress_kind,
}
use k8s_opencode.Operator.Client.{Client}
use k8s_opencode.Operator.Contract.{Contract, Differs}
use k8s_opencode.Operator.Isolation.Calls.{Same, Keeps-get, Keeps-create_or_update, Keeps-rand_read}
use k8s_opencode.Operator.Resources.Claims.{request_storage, reconcile_claim, reconcile_pvcs}
use k8s_opencode.Operator.Resources.Tailscale.{
  expose, reconcile_ingress, reconcile_tailscale_ingress,
}
use k8s_opencode.Operator.Resources.Password.{generate_password}
use k8s_opencode.Operator.Resources.Secrets.{
  provider_secrets_name, get_secret_key, provider_key, choose_password, keep_or_set,
  set_workspace_secret, reconcile_workspace_secrets, set_provider_secret, write_provider_secret,
  reconcile_secrets,
}
use k8s_opencode.Operator.Resources.Config.{ConfigCodec, set_config, reconcile_config_map}
use k8s_opencode.Operator.Resources.Kubedock.{
  set_service_account, reconcile_kubedock_service_account, set_role, reconcile_kubedock_role,
  set_role_binding, reconcile_kubedock_role_binding, set_deployment, reconcile_kubedock_deployment,
  set_kubedock_service, reconcile_kubedock_service, reconcile_kubedock,
}
use k8s_opencode.Operator.Resources.Workload.{
  set_stateful_set, reconcile_stateful_set, set_service, reconcile_service,
}
use k8s_opencode.Operator.Isolation.Resources.{Keeps-own}

module _ (c : Client) (contract : Contract c) (k' : Kind) (key' : Key) (o' : Option (Object k'))
    (ws : OpenCodeWorkspace) where
  module _ (namespace : String) where
    -- The objects of this kind in the namespace are at other addresses.
    abbrev Clear : Kind → Type 0
    Clear k = (name : String) → Differs k (record { namespace = namespace; name = name }) k' key'

    ruleset call_rules = (keeps_rules, Keeps-create_or_update, Keeps-own)

    pub Keeps-reconcile_claim :
        (name : String) (size : Quantity)
        → Differs claim_kind (record { namespace = namespace; name = name }) k' key'
        → Keeps (Same c contract k' key' o') (reconcile_claim c ws namespace name size)
    unfolding reconcile_claim request_storage
    Keeps-reconcile_claim name size d = search (call_rules, d)

    pub Keeps-reconcile_pvcs :
        Clear claim_kind → Keeps (Same c contract k' key' o') (reconcile_pvcs c ws namespace)
    unfolding reconcile_pvcs
    Keeps-reconcile_pvcs d = search (keeps_rules, d, Keeps-reconcile_claim)

    pub Keeps-reconcile_stateful_set :
        Clear stateful_set_kind
        → Keeps (Same c contract k' key' o') (reconcile_stateful_set c ws namespace)
    unfolding reconcile_stateful_set set_stateful_set
    Keeps-reconcile_stateful_set d = search (call_rules, d)

    pub Keeps-reconcile_service :
        Clear service_kind → Keeps (Same c contract k' key' o') (reconcile_service c ws namespace)
    unfolding reconcile_service set_service
    Keeps-reconcile_service d = search (call_rules, d)

    Keeps-reconcile_ingress :
        (hostname : String)
        → Clear ingress_kind
        → Keeps (Same c contract k' key' o') (reconcile_ingress c ws namespace hostname)
    unfolding reconcile_ingress expose
    Keeps-reconcile_ingress hostname d = search (call_rules, d)

    pub Keeps-reconcile_tailscale_ingress :
        Clear ingress_kind
        → Keeps (Same c contract k' key' o') (reconcile_tailscale_ingress c ws namespace)
    unfolding reconcile_tailscale_ingress
    Keeps-reconcile_tailscale_ingress d = search (keeps_rules, d, Keeps-reconcile_ingress)

    Keeps-get_secret_key :
        (ns name key : String) → Keeps (Same c contract k' key' o') (get_secret_key c ns name key)
    unfolding get_secret_key
    Keeps-get_secret_key ns name key = search (keeps_rules, Keeps-get)

    pub Keeps-provider_key :
        (enabled : Bool) (ref : SecretKeyRef) (title : String)
        → Keeps (Same c contract k' key' o') (provider_key c enabled ref title)
    unfolding provider_key
    Keeps-provider_key enabled ref title = search (keeps_rules, Keeps-get_secret_key)

    pub Keeps-set_workspace_secret :
        (secret : Secret) → Keeps (Same c contract k' key' o') (set_workspace_secret c ws secret)
    unfolding set_workspace_secret keep_or_set choose_password generate_password
    Keeps-set_workspace_secret secret = search (keeps_rules, Keeps-own, Keeps-rand_read) depth 12

    pub Keeps-write_provider_secret :
        (keys : Dict String)
        → Differs secret_kind
            (record { namespace = namespace; name = provider_secrets_name })
            k'
            key'
        → Keeps (Same c contract k' key' o') (write_provider_secret c ws namespace keys)
    unfolding write_provider_secret set_provider_secret
    Keeps-write_provider_secret [] d = search keeps_rules
    Keeps-write_provider_secret (entry ∷ entries) d = search (call_rules, d)

    pub Keeps-reconcile_secrets :
        Clear secret_kind → Keeps (Same c contract k' key' o') (reconcile_secrets c ws namespace)
    unfolding reconcile_secrets reconcile_workspace_secrets
    Keeps-reconcile_secrets d =
        search
          (
            call_rules, d, Keeps-provider_key, Keeps-set_workspace_secret,
            Keeps-write_provider_secret,
          )
          depth 14

    pub Keeps-reconcile_config_map :
        (jc : ConfigCodec) (keys : Dict String)
        → Clear config_map_kind
        → Keeps (Same c contract k' key' o') (reconcile_config_map jc c ws namespace keys)
    unfolding reconcile_config_map set_config
    Keeps-reconcile_config_map jc keys d = search (call_rules, d) depth 12

    Keeps-service_account :
        Clear service_account_kind
        → Keeps (Same c contract k' key' o') (reconcile_kubedock_service_account c ws namespace)
    unfolding reconcile_kubedock_service_account set_service_account
    Keeps-service_account d = search (call_rules, d)

    Keeps-role :
        Clear role_kind
        → Keeps (Same c contract k' key' o') (reconcile_kubedock_role c ws namespace)
    unfolding reconcile_kubedock_role set_role
    Keeps-role d = search (call_rules, d)

    Keeps-role_binding :
        Clear role_binding_kind
        → Keeps (Same c contract k' key' o') (reconcile_kubedock_role_binding c ws namespace)
    unfolding reconcile_kubedock_role_binding set_role_binding
    Keeps-role_binding d = search (call_rules, d)

    Keeps-deployment :
        Clear deployment_kind
        → Keeps (Same c contract k' key' o') (reconcile_kubedock_deployment c ws namespace)
    unfolding reconcile_kubedock_deployment set_deployment
    Keeps-deployment d = search (call_rules, d)

    Keeps-kubedock_service :
        Clear service_kind
        → Keeps (Same c contract k' key' o') (reconcile_kubedock_service c ws namespace)
    unfolding reconcile_kubedock_service set_kubedock_service
    Keeps-kubedock_service d = search (call_rules, d)

    pub Keeps-reconcile_kubedock :
        Clear service_account_kind
        → Clear role_kind
        → Clear role_binding_kind
        → Clear deployment_kind
        → Clear service_kind
        → Keeps (Same c contract k' key' o') (reconcile_kubedock c ws namespace)
    unfolding reconcile_kubedock
    Keeps-reconcile_kubedock a r b d s =
        search
          (
            keeps_rules, a, r, b, d, s, Keeps-service_account, Keeps-role, Keeps-role_binding,
            Keeps-deployment, Keeps-kubedock_service,
          )
          depth 14
