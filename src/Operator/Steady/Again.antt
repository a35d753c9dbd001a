-- ===== src/Operator/Steady/Again.antt =====
-- Reconciling an object again.
use k8s_opencode.Common.{String, Option, some, ◌≡◌, refl}
use k8s_opencode.Common.Dict.{Dict}
use k8s_opencode.Operator.Exec.{Exec, ok}
use k8s_opencode.Operator.Api.{OpenCodeWorkspace, Quantity}
use k8s_opencode.Operator.Object.{
  Kind, Object, Key, key_of, namespace_kind, network_policy_kind, secret_kind, config_map_kind,
  claim_kind, service_account_kind, role_kind, role_binding_kind, deployment_kind, service_kind,
  stateful_set_kind, ingress_kind,
}
use k8s_opencode.Operator.Client.{Client}
use k8s_opencode.Operator.Contract.{Contract, Differs}
use k8s_opencode.Operator.Exec.Keeps.{Keeps, keeps_rules}
use k8s_opencode.Operator.Isolation.Calls.{Same}
use k8s_opencode.Operator.Isolation.Resources.{Keeps-own}
use k8s_opencode.Operator.Isolation.Inside.{Keeps-set_workspace_secret}
use k8s_opencode.Operator.Resources.Owned.{label_namespace}
use k8s_opencode.Operator.Resources.Network.{isolate}
use k8s_opencode.Operator.Resources.Claims.{request_storage}
use k8s_opencode.Operator.Resources.Tailscale.{expose}
use k8s_opencode.Operator.Resources.Secrets.{set_workspace_secret, set_provider_secret}
use k8s_opencode.Operator.Resources.Config.{ConfigCodec, set_config}
use k8s_opencode.Operator.Resources.Kubedock.{
  set_service_account, set_role, set_role_binding, set_deployment, set_kubedock_service,
}
use k8s_opencode.Operator.Resources.Workload.{set_stateful_set, set_service}
use k8s_opencode.Operator.Steady.Metadata.{OwnerLaw}
use k8s_opencode.Operator.Steady.Shape.{IsSteady}
use k8s_opencode.Operator.Steady.Mutations.{
  label_namespace-IsSteady, isolate-IsSteady, set_workspace_secret-IsSteady,
  set_provider_secret-IsSteady, set_config-IsSteady, request_storage-IsSteady,
  set_service_account-IsSteady, set_role-IsSteady, set_role_binding-IsSteady,
  set_deployment-IsSteady, set_kubedock_service-IsSteady, set_stateful_set-IsSteady,
  set_service-IsSteady, expose-IsSteady,
}

-- The functions that the operator gives to CreateOrUpdate for a workspace, and the kinds of their
-- objects.
pub data IsMutation (c : Client) (ws : OpenCodeWorkspace)
    : (k : Kind) → (Object k → Exec c.World (Object k)) → Type 1 where
  of_namespace : IsMutation c ws namespace_kind (label_namespace c ws)
  of_network_policy : IsMutation c ws network_policy_kind (isolate c ws)
  of_workspace_secret : IsMutation c ws secret_kind (set_workspace_secret c ws)
  of_provider_secret :
      (keys : Dict String) → IsMutation c ws secret_kind (set_provider_secret c ws keys)
  of_config_map :
      (jc : ConfigCodec) (payload : String)
      → IsMutation c ws config_map_kind (set_config jc c ws payload)
  of_claim : (size : Quantity) → IsMutation c ws claim_kind (request_storage c ws size)
  of_service_account : IsMutation c ws service_account_kind (set_service_account c ws)
  of_role : IsMutation c ws role_kind (set_role c ws)
  of_role_binding :
      (namespace : String) → IsMutation c ws role_binding_kind (set_role_binding c ws namespace)
  of_deployment : IsMutation c ws deployment_kind (set_deployment c ws)
  of_kubedock_service : IsMutation c ws service_kind (set_kubedock_service c ws)
  of_stateful_set : IsMutation c ws stateful_set_kind (set_stateful_set c ws)
  of_service : IsMutation c ws service_kind (set_service c ws)
  of_ingress : (hostname : String) → IsMutation c ws ingress_kind (expose c ws hostname)

module _ (c : Client) (contract : Contract c) (ws : OpenCodeWorkspace) (k' : Kind) (key' : Key)
    (o' : Option (Object k')) where
  -- They write no object themselves.
  mutation-Keeps :
      (k : Kind) (f : Object k → Exec c.World (Object k))
      → IsMutation c ws k f
      → (x : Object k) → Keeps (Same c contract k' key' o') (f x)
  unfolding label_namespace isolate set_provider_secret set_config request_storage
      set_service_account set_role set_role_binding set_deployment set_kubedock_service
      set_stateful_set set_service expose
  mutation-Keeps _ _ of_namespace x = search (keeps_rules, Keeps-own)
  mutation-Keeps _ _ of_network_policy x = search (keeps_rules, Keeps-own)
  mutation-Keeps _ _ of_workspace_secret x =
      Keeps-set_workspace_secret c contract k' key' o' ws "" x
  mutation-Keeps _ _ (of_provider_secret keys) x = search (keeps_rules, Keeps-own)
  mutation-Keeps _ _ (of_config_map jc payload) x = search (keeps_rules, Keeps-own)
  mutation-Keeps _ _ (of_claim size) x = search (keeps_rules, Keeps-own)
  mutation-Keeps _ _ of_service_account x = search (keeps_rules, Keeps-own)
  mutation-Keeps _ _ of_role x = search (keeps_rules, Keeps-own)
  mutation-Keeps _ _ (of_role_binding namespace) x = search (keeps_rules, Keeps-own)
  mutation-Keeps _ _ of_deployment x = search (keeps_rules, Keeps-own)
  mutation-Keeps _ _ of_kubedock_service x = search (keeps_rules, Keeps-own)
  mutation-Keeps _ _ of_stateful_set x = search (keeps_rules, Keeps-own)
  mutation-Keeps _ _ of_service x = search (keeps_rules, Keeps-own)
  mutation-Keeps _ _ (of_ingress hostname) x = search (keeps_rules, Keeps-own)

module _ (c : Client) (law : OwnerLaw c) (ws : OpenCodeWorkspace) where
  mutation-IsSteady :
      (k : Kind) (f : Object k → Exec c.World (Object k)) → IsMutation c ws k f → IsSteady f
  mutation-IsSteady _ _ of_namespace = label_namespace-IsSteady c law ws
  mutation-IsSteady _ _ of_network_policy = isolate-IsSteady c law ws
  mutation-IsSteady _ _ of_workspace_secret = set_workspace_secret-IsSteady c law ws
  mutation-IsSteady _ _ (of_provider_secret keys) = set_provider_secret-IsSteady c law ws keys
  mutation-IsSteady _ _ (of_config_map jc payload) = set_config-IsSteady c law ws jc payload
  mutation-IsSteady _ _ (of_claim size) = request_storage-IsSteady c law ws size
  mutation-IsSteady _ _ of_service_account = set_service_account-IsSteady c law ws
  mutation-IsSteady _ _ of_role = set_role-IsSteady c law ws
  mutation-IsSteady _ _ (of_role_binding namespace) = set_role_binding-IsSteady c law ws namespace
  mutation-IsSteady _ _ of_deployment = set_deployment-IsSteady c law ws
  mutation-IsSteady _ _ of_kubedock_service = set_kubedock_service-IsSteady c law ws
  mutation-IsSteady _ _ of_stateful_set = set_stateful_set-IsSteady c law ws
  mutation-IsSteady _ _ of_service = set_service-IsSteady c law ws
  mutation-IsSteady _ _ (of_ingress hostname) = expose-IsSteady c law ws hostname

  -- Applied to an object that it has answered, each of them answers it unchanged, in whatever state the
  -- cluster is then.
  mutation-again :
      (k : Kind) (f : Object k → Exec c.World (Object k))
      → IsMutation c ws k f
      → (x y : Object k) (u : c.World) → (f x u).0 ≡ ok y
      → (w : c.World) → (f y w).0 ≡ ok y
  mutation-again k f m x y u h w = (mutation-IsSteady k f m).again x y u w h

  -- If the API and the helper that sets the owner behave as documented: where an object is stored as
  -- one of the functions that the operator gives to CreateOrUpdate has once answered it, running
  -- CreateOrUpdate with that function leaves this object and every other as they are, whether the call
  -- succeeds or fails; a generated password, too.
  pub mutation-idle :
      (contract : Contract c) (k : Kind) (f : Object k → Exec c.World (Object k))
      → IsMutation c ws k f
      → (x y o : Object k) (u w : c.World) → (f x u).0 ≡ ok y
      → contract.lookup w k (key_of k o) ≡ some y
      → (contract.lookup (c.create_or_update k o f w).1 k (key_of k o) ≡ some y)
        × ((k' : Kind) (key' : Key)
            → Differs k (key_of k o) k' key'
            → contract.lookup (c.create_or_update k o f w).1 k' key' ≡ contract.lookup w k' key')
  mutation-idle contract k f m x y o u w h there = (
    contract.create_or_update_idle k o f w y
        (λ z v. (mutation-Keeps c contract ws k (key_of k o) (some y) k f m z).at v)
        (mutation-again k f m x y u h) there,
    λ k' key' d.
        contract.create_or_update_frame k o f w k' key' _ d
          (λ z v. (mutation-Keeps c contract ws k' key' _ k f m z).at v) refl,
  )
