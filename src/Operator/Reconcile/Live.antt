-- ===== src/Operator/Reconcile/Live.antt =====
-- What holds at the end of a reconciliation that is done: what holds of the workspace's namespace
-- when its resources have been written there.
use mathlib.Core.Path.{subst}
use k8s_opencode.Common.{String}
use k8s_opencode.Common.Json.{Codec}
use k8s_opencode.Operator.Api.{OpenCodeWorkspace}
use k8s_opencode.Operator.Client.{Client}
use k8s_opencode.Operator.Contract.{Contract}
use k8s_opencode.Operator.Resources.Config.{ConfigCodec}
use k8s_opencode.Operator.Resources.Names.{namespace_name}
use k8s_opencode.Operator.Resources.Owned.{reconcile_namespace}
use k8s_opencode.Operator.Reconcile.Answers.{
  reconcile_namespace-answer, start_creating-answer, namespace_name-eq,
}
use k8s_opencode.Operator.Reconcile.{
  provision_in, record_namespace, provision, start_creating, install_finalizer, set_pending,
  reconcile_resources, reconcile_live,
}
use k8s_opencode.Operator.Reconcile.Ends.{
  Ends, ends_rules, Ends-error, Ends-after, Ends-after-answer, Ends-handle_reconcile_error,
}

module _ (c : Client) (contract : Contract c) (j : Codec) (jc : ConfigCodec) (system : String)
    (P : String → c.World → Type 0)
    (provided : (namespace : String) (ws : OpenCodeWorkspace)
      → Ends (P namespace) (provision_in c j jc system ws namespace)) where
  Ends-provision :
      (ws : OpenCodeWorkspace) → Ends (P (namespace_name ws)) (provision c j jc system ws)
  unfolding provision
  Ends-provision ws =
      Ends-after-answer c (reconcile_namespace c ws) _ _
        (λ w namespace answered.
          let same = reconcile_namespace-answer c ws w namespace answered in
          Ends-after c (record_namespace c ws namespace) _ _
            (λ ws'.
              subst (λ name. Ends (P name) (provision_in c j jc system ws' namespace)) same
                (provided namespace ws'))
            (Ends-error c))
        (λ e. Ends-handle_reconcile_error c ws "Namespace" e)

  Ends-reconcile_resources :
      (ws : OpenCodeWorkspace) → Ends (P (namespace_name ws)) (reconcile_resources c j jc system ws)
  unfolding reconcile_resources
  Ends-reconcile_resources ws =
      Ends-after-answer c (start_creating c ws) _ _
        (λ w ws' answered.
          let same = start_creating-answer c contract ws w ws' answered in
          subst (λ name. Ends (P name) (provision c j jc system ws'))
            (namespace_name-eq ws ws' same.0 same.1) (Ends-provision ws'))
        (Ends-error c)

  pub Ends-reconcile_live :
      (ws : OpenCodeWorkspace) → Ends (P (namespace_name ws)) (reconcile_live c j jc system ws)
  unfolding reconcile_live install_finalizer set_pending
  Ends-reconcile_live ws = search (ends_rules, Ends-reconcile_resources) depth 30
