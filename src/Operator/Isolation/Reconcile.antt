-- ===== src/Operator/Isolation/Reconcile.antt =====
-- What `Reconcile` leaves alone.
use k8s_opencode.Common.{inr, String, Option, ◌≡◌, refl, ◌∙◌, ◌≢◌}
use k8s_opencode.Common.Json.{Codec}
use k8s_opencode.Operator.Exec.{Error, Result, ok, err, Exec}
use k8s_opencode.Operator.Exec.Keeps.{Keeps, Keeps-if, keeps_rules}
use k8s_opencode.Operator.Api.{OpenCodeWorkspace}
use k8s_opencode.Operator.Object.{
  Kind, Object, Key, namespace_kind, network_policy_kind, config_map_kind,
}
use k8s_opencode.Operator.Client.{Client}
use k8s_opencode.Operator.Contract.{Contract, Differs}
use k8s_opencode.Operator.EmailMap.{email_map_at}
use k8s_opencode.Operator.Resources.Names.{namespace_name}
use k8s_opencode.Operator.Resources.Network.{network_policy_name}
use k8s_opencode.Operator.Resources.Owned.{reconcile_namespace}
use k8s_opencode.Operator.Resources.Config.{ConfigCodec}
use k8s_opencode.Operator.Isolation.Away.{IsLater, elsewhere, Away, elsewhere-Away, later_rules}
use k8s_opencode.Operator.Isolation.Calls.{Same, Keeps-update_workspace, Keeps-update_status}
use k8s_opencode.Operator.Isolation.Resources.{
  Keeps-reconcile_namespace, Keeps-reconcile_email_map, Keeps-reconcile_network_policy,
}
use k8s_opencode.Operator.Isolation.Inside.{
  Keeps-reconcile_secrets, Keeps-reconcile_config_map, Keeps-reconcile_pvcs,
  Keeps-reconcile_kubedock, Keeps-reconcile_stateful_set, Keeps-reconcile_service,
  Keeps-reconcile_tailscale_ingress,
}
use k8s_opencode.Operator.Reconcile.Answers.{
  reconcile_namespace-answer, start_creating-answer, namespace_name-eq,
}
use k8s_opencode.Operator.Reconcile.{
  finalizer_name, Outcome, Action, returns, after, handle_reconcile_error, finish, provision_rest,
  provision_in, record_namespace, provision, start_creating, install_finalizer, set_pending,
  reconcile_resources, reconcile_live,
}

-- An address outside what the operator may write for a workspace: not in the workspace's
-- namespace, not that namespace, and not the email map.
pub record Outside (c : Client) (j : Codec) (system : String) (ws : OpenCodeWorkspace) (k' : Kind)
    (key' : Key) : Type 0 where
  pub not_inside : key'.namespace ≢ namespace_name ws
  pub not_namespace :
      Differs namespace_kind (record { namespace = ""; name = namespace_name ws }) k' key'
  pub not_email_map : Differs config_map_kind (email_map_at c j system) k' key'

module _ (c : Client) {P : c.World → Type 0} where
  pub Keeps-returns : (o : Outcome) → Keeps P (returns c o)
  unfolding returns
  Keeps-returns o = record { at = λ w h. h }

  -- What follows a success may use what was answered.
  pub Keeps-after-answer :
      {A : Type 0} (m : Exec c.World A) (k : A → Action c) (g : Error → Action c)
      → Keeps P m
      → ((w : c.World) (a : A) → (m w).0 ≡ ok a → Keeps P (k a))
      → ((e : Error) → Keeps P (g e))
      → Keeps P (after c m k g)
  unfolding after
  Keeps-after-answer {A} m k g km kk kg = record {
    at = λ w h. answer w (m w).0 refl (m w).1 (km.at w h);
  }
    where
      answer :
          (w : c.World) (r : Result A)
          → (m w).0 ≡ r
          → (u : c.World) → P u
          → P (after c (λ _. (r, u)) k g w).1
      answer w (ok a) e u h = (kk w a e).at u h
      answer w (err x) e u h = (kg x).at u h

  pub Keeps-after :
      {A : Type 0} (m : Exec c.World A) (k : A → Action c) (g : Error → Action c)
      → Keeps P m
      → ((a : A) → Keeps P (k a))
      → ((e : Error) → Keeps P (g e))
      → Keeps P (after c m k g)
  Keeps-after m k g km kk kg = Keeps-after-answer m k g km (λ w a e. kk a) kg

pub ruleset action_rules = (keeps_rules, Keeps-returns, Keeps-after, Keeps-if)

module _ (c : Client) (contract : Contract c) (j : Codec) (jc : ConfigCodec) (system : String)
    (k' : Kind) (key' : Key) (o' : Option (Object k')) where
  pub Keeps-handle_reconcile_error :
      (ws : OpenCodeWorkspace) (resource : String) (e : Error)
      → Keeps (Same c contract k' key' o') (handle_reconcile_error c ws resource e)
  unfolding handle_reconcile_error
  Keeps-handle_reconcile_error ws resource e = search (action_rules, Keeps-update_status)

  pub Keeps-finish : (ws : OpenCodeWorkspace) → Keeps (Same c contract k' key' o') (finish c ws)
  unfolding finish
  Keeps-finish ws = search (action_rules, Keeps-update_status)

  ruleset write_rules =
      (action_rules, Keeps-update_status, Keeps-handle_reconcile_error, Keeps-finish)

  -- What is left of a reconciliation after the network policy.
  pub Keeps-provision_rest :
      (ws : OpenCodeWorkspace) (namespace : String)
      → Away namespace k' key'
      → Differs config_map_kind (email_map_at c j system) k' key'
      → Keeps (Same c contract k' key' o') (provision_rest c j jc system ws namespace)
  unfolding provision_rest
  Keeps-provision_rest ws namespace a d =
      let clear : (k : Kind)
          → IsLater k
          → (name : String) → Differs k (record { namespace = namespace; name = name }) k' key' =
        λ k l name. a k name l in
      search
        (
          write_rules, clear, later_rules, Keeps-reconcile_secrets, Keeps-reconcile_config_map,
          Keeps-reconcile_pvcs, Keeps-reconcile_kubedock, Keeps-reconcile_stateful_set,
          Keeps-reconcile_service, Keeps-reconcile_tailscale_ingress, Keeps-reconcile_email_map, d,
        )
        depth 30

  Keeps-provision_in :
      (ws : OpenCodeWorkspace) (namespace : String)
      → key'.namespace ≢ namespace
      → Differs config_map_kind (email_map_at c j system) k' key'
      → Keeps (Same c contract k' key' o') (provision_in c j jc system ws namespace)
  unfolding provision_in
  Keeps-provision_in ws namespace n d =
      let a = elsewhere-Away namespace k' key' n in
      let policy : Differs network_policy_kind
          (record { namespace = namespace; name = network_policy_name }) k' key' =
        inr (elsewhere namespace network_policy_name key' n) in
      search (write_rules, Keeps-reconcile_network_policy, Keeps-provision_rest, policy, a, d) depth
        30

  pub Keeps-record_namespace :
      (ws : OpenCodeWorkspace) (namespace : String)
      → Keeps (Same c contract k' key' o') (record_namespace c ws namespace)
  unfolding record_namespace
  Keeps-record_namespace ws namespace = search write_rules

  pub Keeps-start_creating :
      (ws : OpenCodeWorkspace) → Keeps (Same c contract k' key' o') (start_creating c ws)
  unfolding start_creating
  Keeps-start_creating ws = search write_rules

  Keeps-provision :
      (ws : OpenCodeWorkspace)
      → Outside c j system ws k' key'
      → Keeps (Same c contract k' key' o') (provision c j jc system ws)
  unfolding provision
  Keeps-provision ws out =
      Keeps-after-answer c (reconcile_namespace c ws) _ _
        (Keeps-reconcile_namespace c contract k' key' o' ws out.not_namespace)
        (λ w namespace answered.
          let same = reconcile_namespace-answer c ws w namespace answered in
          let n : key'.namespace ≢ namespace = λ e. out.not_inside (e ∙ same) in
          Keeps-after c (record_namespace c ws namespace) _ _ (Keeps-record_namespace ws namespace)
            (λ ws'. Keeps-provision_in ws' namespace n out.not_email_map) (λ e. Keeps-returns c _))
        (λ e. Keeps-handle_reconcile_error ws "Namespace" e)

  Outside-eq :
      (ws ws' : OpenCodeWorkspace)
      → namespace_name ws' ≡ namespace_name ws
      → Outside c j system ws k' key'
      → Outside c j system ws' k' key'
  Outside-eq ws ws' e out = record {
    not_inside = λ q. out.not_inside (q ∙ e);
    not_namespace = rw e out.not_namespace;
    not_email_map = out.not_email_map;
  }

  Keeps-reconcile_resources :
      (ws : OpenCodeWorkspace)
      → Outside c j system ws k' key'
      → Keeps (Same c contract k' key' o') (reconcile_resources c j jc system ws)
  unfolding reconcile_resources
  Keeps-reconcile_resources ws out =
      Keeps-after-answer c (start_creating c ws) _ _ (Keeps-start_creating ws)
        (λ w ws' answered.
          let same = start_creating-answer c contract ws w ws' answered in
          Keeps-provision ws' (Outside-eq ws ws' (namespace_name-eq ws ws' same.0 same.1) out))
        (λ e. Keeps-returns c _)

  pub Keeps-install_finalizer :
      (ws : OpenCodeWorkspace) → Keeps (Same c contract k' key' o') (install_finalizer c ws)
  unfolding install_finalizer
  Keeps-install_finalizer ws =
      let there = contract.finalizer_there ws.finalizers finalizer_name in
      Keeps-after c _ _ _
        (Keeps-update_workspace c contract k' key' o'
          (record ws { finalizers = c.add_finalizer ws.finalizers finalizer_name }) finalizer_name
          there)
        (λ a. Keeps-returns c _) (λ e. Keeps-returns c _)

  pub Keeps-set_pending :
      (ws : OpenCodeWorkspace) → Keeps (Same c contract k' key' o') (set_pending c ws)
  unfolding set_pending
  Keeps-set_pending ws = search (action_rules, Keeps-update_status)

  Keeps-reconcile_live :
      (ws : OpenCodeWorkspace)
      → Outside c j system ws k' key'
      → Keeps (Same c contract k' key' o') (reconcile_live c j jc system ws)
  unfolding reconcile_live
  Keeps-reconcile_live ws out =
      search (Keeps-if, Keeps-install_finalizer, Keeps-set_pending, Keeps-reconcile_resources)

-- For a workspace that is not being deleted, every object outside its footprint is left as it was,
-- whatever the calls answer: only objects in its namespace, that namespace and the email map can
-- change.
pub reconcile_live-isolated :
    (c : Client) (contract : Contract c) (j : Codec) (jc : ConfigCodec) (system : String)
    (ws : OpenCodeWorkspace) (w : c.World) (k' : Kind) (key' : Key)
    → Outside c j system ws k' key'
    → contract.lookup (reconcile_live c j jc system ws w).1 k' key' ≡ contract.lookup w k' key'
reconcile_live-isolated c contract j jc system ws w k' key' out =
    (Keeps-reconcile_live c contract j jc system k' key' (contract.lookup w k' key') ws out).at w
      refl
