-- ===== src/Operator/Reconcile/Answers.antt =====
-- What the parts of a reconciliation that answer a value answer.
use k8s_opencode.Common.{Bool-cases, ◌==◌, arith, String, ◌≡◌, inl, inr}
use k8s_opencode.Operator.Exec.{ok, pure, raise, try}
use k8s_opencode.Operator.Api.{OpenCodeWorkspace}
use k8s_opencode.Operator.Client.{Client}
use k8s_opencode.Operator.Contract.{Contract}
use k8s_opencode.Operator.Resources.Names.{prefix_of, namespace_name}
use k8s_opencode.Operator.Resources.Owned.{reconcile_namespace}
use k8s_opencode.Operator.Resources.Tailscale.{reconcile_tailscale_ingress}
use k8s_opencode.Operator.Reconcile.{
  phase_pending, set_namespace, record_namespace, mark_creating, start_creating,
}

pub reconcile_namespace-answer :
    (c : Client) (ws : OpenCodeWorkspace) (w : c.World) (namespace : String)
    → (reconcile_namespace c ws w).0 ≡ ok namespace
    → namespace ≡ namespace_name ws
unfolding reconcile_namespace try
reconcile_namespace-answer c ws w namespace h = ground arith

-- The workspace that a first status update answers is the same but for its status.
pub start_creating-answer :
    (c : Client) (contract : Contract c) (ws : OpenCodeWorkspace) (w : c.World)
    (ws' : OpenCodeWorkspace)
    → (start_creating c ws w).0 ≡ ok ws'
    → (ws'.name ≡ ws.name) × (ws'.spec ≡ ws.spec)
unfolding start_creating pure mark_creating
start_creating-answer c contract ws w ws' h = elim (Bool-cases (ws.status.phase == phase_pending)) [
  | inl pending ↦ contract.update_status_answer (mark_creating c ws) w ws' (ground arith)
  | inr other ↦ ground arith
]

pub namespace_name-eq :
    (ws ws' : OpenCodeWorkspace)
    → ws'.name ≡ ws.name
    → ws'.spec ≡ ws.spec
    → namespace_name ws' ≡ namespace_name ws
unfolding namespace_name prefix_of
namespace_name-eq ws ws' n s = cc

pub ingress-answer :
    (c : Client) (ws ws' : OpenCodeWorkspace) (namespace : String) (w : c.World)
    → (reconcile_tailscale_ingress c ws namespace w).0 ≡ ok ws'
    → ws'.name ≡ ws.name
unfolding reconcile_tailscale_ingress try pure raise
ingress-answer c ws ws' namespace w h = ground arith

pub record_namespace-answer :
    (c : Client) (contract : Contract c) (ws ws' : OpenCodeWorkspace) (namespace : String)
    (w : c.World)
    → (record_namespace c ws namespace w).0 ≡ ok ws'
    → ws'.name ≡ ws.name
unfolding record_namespace pure
record_namespace-answer c contract ws ws' namespace w h =
    elim (Bool-cases (ws.status.namespace == namespace)) [
      | inl same ↦ ground arith
      | inr other ↦
          (contract.update_status_answer (set_namespace namespace ws) w ws' (rw other at h)).0
    ]
