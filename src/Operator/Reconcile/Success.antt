-- ===== src/Operator/Reconcile/Success.antt =====
-- What a reconciliation that answers without an error and without a requeue has done.
use k8s_opencode.Common.{String, List, ◌≡◌, refl, ◌∙◌}
use k8s_opencode.Common.Json.{Codec}
use k8s_opencode.Operator.Exec.{Error, ok}
use k8s_opencode.Operator.Api.{OpenCodeWorkspace, Condition}
use k8s_opencode.Operator.Client.{Client}
use k8s_opencode.Operator.Contract.{Contract}
use k8s_opencode.Operator.Resources.Tailscale.{reconcile_tailscale_ingress}
use k8s_opencode.Operator.Resources.Config.{ConfigCodec}
use k8s_opencode.Operator.Reconcile.Answers.{
  start_creating-answer, record_namespace-answer, ingress-answer,
}
use k8s_opencode.Operator.Reconcile.{
  Action, done, after, mark_running, finish, provision_in, provision_rest, provision,
  install_finalizer, set_pending, reconcile_resources, reconcile_live, record_namespace,
  start_creating,
}
use k8s_opencode.Operator.Reconcile.Ends.{
  Ends, ends_rules, Ends-error, Ends-after, Ends-after-answer, Ends-last,
  Ends-handle_reconcile_error,
}

-- Condition `type`, as the operator writes it.
abbrev condition : OpenCodeWorkspace → String → String → String → String → Condition
condition ws type status reason message = record {
  type = type;
  status = status;
  reason = reason;
  message = message;
  observed_generation = ws.generation;
}

-- What a workspace that runs has in its status: the phase, the message, and the three conditions set on
-- those that it had.
pub record IsRunning (c : Client) (ws : OpenCodeWorkspace) : Type 0 where
  pub phase : ws.status.phase ≡ "Running"
  pub message : ws.status.message ≡ "Workspace is running"
  pub earlier : List Condition
  pub conditions :
      ws.status.conditions
      ≡ c.set_status_condition
          (c.set_status_condition
            (c.set_status_condition earlier (
              condition ws "Ready" "True" "WorkspaceReady" "All resources reconciled successfully"))
            (condition ws "Progressing" "False" "ReconcileComplete" "Reconciliation complete"))
          (condition ws "Degraded" "False" "Healthy" "No degradation detected")

mark_running-IsRunning : (c : Client) (ws : OpenCodeWorkspace) → IsRunning c (mark_running c ws)
unfolding mark_running
mark_running-IsRunning c ws = record {
  phase = refl;
  message = refl;
  earlier = ws.status.conditions;
  conditions = refl;
}

-- The world `w` is what a status update left that succeeded, and that wrote the workspace of this name
-- as a running one.
pub record Marked (c : Client) (name : String) (w : c.World) : Type 0 where
  pub workspace : OpenCodeWorkspace
  pub named : workspace.name ≡ name
  pub running : IsRunning c workspace
  pub earlier : c.World
  pub answer : OpenCodeWorkspace
  pub answered : (c.update_status workspace earlier).0 ≡ ok answer
  pub left : (c.update_status workspace earlier).1 ≡ w

module _ (c : Client) (contract : Contract c) (j : Codec) (jc : ConfigCodec) (system : String)
    (name : String) where
  Ends-finish : (ws : OpenCodeWorkspace) → ws.name ≡ name → Ends (Marked c name) (finish c ws)
  unfolding finish mark_running
  Ends-finish ws n = Ends-last c (c.update_status (mark_running c ws)) (λ w a e. record {
    workspace = mark_running c ws;
    named = n;
    running = mark_running-IsRunning c ws;
    earlier = w;
    answer = a;
    answered = e;
    left = refl;
  })

  Ends-ingress :
      (ws : OpenCodeWorkspace) (namespace : String) (k : OpenCodeWorkspace → Action c)
      (g : Error → Action c)
      → ws.name ≡ name
      → ((ws' : OpenCodeWorkspace) → ws'.name ≡ name → Ends (Marked c name) (k ws'))
      → ((e : Error) → Ends (Marked c name) (g e))
      → Ends (Marked c name) (after c (reconcile_tailscale_ingress c ws namespace) k g)
  Ends-ingress ws namespace k g n kk kg =
      Ends-after-answer c (reconcile_tailscale_ingress c ws namespace) k g
        (λ w ws' e. kk ws' (ingress-answer c ws ws' namespace w e ∙ n)) kg

  Ends-provision_in :
      (ws : OpenCodeWorkspace) (namespace : String)
      → ws.name ≡ name
      → Ends (Marked c name) (provision_in c j jc system ws namespace)
  unfolding provision_in provision_rest
  Ends-provision_in ws namespace n = search (ends_rules, Ends-ingress, Ends-finish, n) depth 30

  Ends-provision :
      (ws : OpenCodeWorkspace) → ws.name ≡ name → Ends (Marked c name) (provision c j jc system ws)
  unfolding provision
  Ends-provision ws n =
      Ends-after c _ _ _
        (λ namespace.
          Ends-after-answer c (record_namespace c ws namespace) _ _
            (λ w ws' e.
              Ends-provision_in ws' namespace
                (record_namespace-answer c contract ws ws' namespace w e ∙ n))
            (Ends-error c))
        (λ e. Ends-handle_reconcile_error c ws "Namespace" e)

  Ends-reconcile_resources :
      (ws : OpenCodeWorkspace)
      → ws.name ≡ name
      → Ends (Marked c name) (reconcile_resources c j jc system ws)
  unfolding reconcile_resources
  Ends-reconcile_resources ws n =
      Ends-after-answer c (start_creating c ws) _ _
        (λ w ws' e. Ends-provision ws' ((start_creating-answer c contract ws w ws' e).0 ∙ n))
        (Ends-error c)

  Ends-reconcile_live :
      (ws : OpenCodeWorkspace)
      → ws.name ≡ name
      → Ends (Marked c name) (reconcile_live c j jc system ws)
  unfolding reconcile_live install_finalizer set_pending
  Ends-reconcile_live ws n = search (ends_rules, Ends-reconcile_resources, n) depth 30

-- A reconciliation of a workspace that is not being deleted which answers with no error and no
-- requeue has ended in a status update that succeeded, and that wrote this workspace with the phase
-- `Running`, its message, and the conditions of a workspace that is ready, not progressing and not
-- degraded.
pub reconcile_live-Marked :
    (c : Client) (contract : Contract c) (j : Codec) (jc : ConfigCodec) (system : String)
    (ws : OpenCodeWorkspace) (w : c.World)
    → (reconcile_live c j jc system ws w).0 ≡ done
    → Marked c ws.name (reconcile_live c j jc system ws w).1
reconcile_live-Marked c contract j jc system ws w h =
    (Ends-reconcile_live c contract j jc system ws.name ws refl).at w h
