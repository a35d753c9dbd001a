-- ===== src/Operator/Reconcile.antt =====
-- operator/internal/controller/opencodeworkspace_controller.go: `Reconcile` and its error and
-- deletion paths. Log lines are left out.
pub mod Ends
pub mod Answers
pub mod Live
pub mod Success
pub mod Fails
pub mod Failure
pub mod Requeues
pub mod Phases
pub mod Release
use k8s_opencode.Common.{
  String, ◌++◌, Bool, true, false, not, Option, none, some, [], ◌∷◌, ◌==◌, if◌then◌else◌,
}
use k8s_opencode.Common.Dict.{Dict}
use k8s_opencode.Common.Json.{Codec}
use k8s_opencode.Operator.Exec.{Error, wrap, error_text, Result, ok, err, Exec, pure, raise, try}
use k8s_opencode.Operator.Api.{OpenCodeWorkspace}
use k8s_opencode.Operator.Object.{namespace_kind, Key}
use k8s_opencode.Operator.Client.{Client, is_not_found}
use k8s_opencode.Operator.EmailMap.{reconcile_email_map, remove_from_email_map}
use k8s_opencode.Operator.Resources.Names.{deletion_namespace_name}
use k8s_opencode.Operator.Resources.Owned.{reconcile_namespace, quoted}
use k8s_opencode.Operator.Resources.Network.{reconcile_network_policy}
use k8s_opencode.Operator.Resources.Secrets.{ApiKeys, reconcile_secrets}
use k8s_opencode.Operator.Resources.Config.{ConfigCodec, reconcile_config_map}
use k8s_opencode.Operator.Resources.Claims.{reconcile_pvcs}
use k8s_opencode.Operator.Resources.Kubedock.{reconcile_kubedock}
use k8s_opencode.Operator.Resources.Workload.{reconcile_stateful_set, reconcile_service}
use k8s_opencode.Operator.Resources.Tailscale.{reconcile_tailscale_ingress}

abbrev pub finalizer_name : String
finalizer_name = "opencode.io/workspace-finalizer"

abbrev pub phase_pending : String
phase_pending = "Pending"

abbrev pub phase_creating : String
phase_creating = "Creating"

abbrev pub phase_running : String
phase_running = "Running"

abbrev pub phase_failed : String
phase_failed = "Failed"

abbrev pub phase_terminating : String
phase_terminating = "Terminating"

abbrev pub condition_type_ready : String
condition_type_ready = "Ready"

abbrev pub condition_type_progressing : String
condition_type_progressing = "Progressing"

abbrev pub condition_type_degraded : String
condition_type_degraded = "Degraded"

-- `(ctrl.Result, error)`
pub record Outcome : Type 0 where
  pub requeue : Bool
  pub error : Option Error

abbrev pub done : Outcome
done = record { requeue = false; error = none }

abbrev pub requeued : Outcome
requeued = record { requeue = true; error = none }

abbrev pub failed : Error → Outcome
failed e = record { requeue = false; error = some e }

abbrev pub set_phase : String → OpenCodeWorkspace → OpenCodeWorkspace
set_phase phase ws = record ws { status = record (ws.status) { phase = phase } }

abbrev pub set_message : String → OpenCodeWorkspace → OpenCodeWorkspace
set_message message ws = record ws { status = record (ws.status) { message = message } }

abbrev pub set_namespace : String → OpenCodeWorkspace → OpenCodeWorkspace
set_namespace namespace ws = record ws { status = record (ws.status) { namespace = namespace } }

-- The map that `Reconcile` makes of the API keys.
abbrev pub api_keys_map : ApiKeys → Dict String
api_keys_map k =
    ("anthropic", k.anthropic) ∷ ("openai", k.openai) ∷ ("openrouter", k.openrouter) ∷ []

module _ (c : Client) where
  abbrev pub Action : Type 0
  Action = c.World → Outcome × c.World

  unfoldable pub returns : Outcome → Action
  returns o w = (o, w)

  abbrev pub proceed : {A : Type 0} → Result A → (A → Action) → (Error → Action) → Action
  proceed (ok a) k h w = k a w
  proceed (err e) k h w = h e w

  -- `if err := m(); err != nil { … }` before the rest of the function
  unfoldable pub after : {A : Type 0} → Exec c.World A → (A → Action) → (Error → Action) → Action
  unfolding returns
  after m k h w = proceed (m w).0 k h (m w).1

  -- `return ctrl.Result{}, err`
  abbrev pub return_error : Error → Action
  return_error e = returns (failed e)

  unfoldable pub set_condition :
      String → String → String → String → OpenCodeWorkspace → OpenCodeWorkspace
  set_condition type status reason message ws = record ws {
    status = record (ws.status) {
      conditions = c.set_status_condition ws.status.conditions (record {
        type = type;
        status = status;
        reason = reason;
        message = message;
        observed_generation = ws.generation;
      });
    };
  }

  abbrev pub failure_message : String → Error → String
  failure_message resource e = "Failed to reconcile " ++ (resource ++ (": " ++ error_text e))

  -- The workspace that handleReconcileError writes.
  unfoldable pub mark_failed : String → Error → OpenCodeWorkspace → OpenCodeWorkspace
  unfolding set_condition
  mark_failed resource e ws =
      let message = failure_message resource e in
      set_condition condition_type_ready "False" "ReconcileFailed" message (
        set_condition condition_type_degraded "True" "ReconcileFailed" message
          (set_message message (set_phase phase_failed ws)))

  unfoldable pub handle_reconcile_error : OpenCodeWorkspace → String → Error → Action
  handle_reconcile_error ws resource e =
      after (c.update_status (mark_failed resource e ws)) (λ _. return_error e)
        (λ status_error. return_error e)

  -- One resource of `Reconcile`.
  abbrev pub resource :
      {A : Type 0} → String → OpenCodeWorkspace → Exec c.World A → (A → Action) → Action
  resource name ws m k = after m k (handle_reconcile_error ws name)

  -- The workspace that a reconciliation with no error writes.
  unfoldable pub mark_running : OpenCodeWorkspace → OpenCodeWorkspace
  unfolding set_condition
  mark_running ws =
      set_condition condition_type_degraded "False" "Healthy" "No degradation detected" (
        set_condition condition_type_progressing "False" "ReconcileComplete"
          "Reconciliation complete"
          (set_condition condition_type_ready "True" "WorkspaceReady"
            "All resources reconciled successfully"
            (set_message "Workspace is running" (set_phase phase_running ws))))

  -- The workspace that is written before its resources are first created.
  unfoldable pub mark_creating : OpenCodeWorkspace → OpenCodeWorkspace
  unfolding set_condition
  mark_creating ws =
      set_condition condition_type_progressing "True" "CreatingResources"
        "Creating workspace resources" (set_phase phase_creating ws)

  unfoldable pub finish : OpenCodeWorkspace → Action
  finish ws = after (c.update_status (mark_running ws)) (λ _. returns done) return_error

  -- `if workspace.Status.Namespace != namespaceName { … }`
  unfoldable pub record_namespace : OpenCodeWorkspace → String → Exec c.World OpenCodeWorkspace
  record_namespace ws namespace =
      if not (ws.status.namespace == namespace)
      then c.update_status (set_namespace namespace ws)
      else pure ws

  -- `if workspace.Status.Phase == phasePending { … }`
  unfoldable pub start_creating : OpenCodeWorkspace → Exec c.World OpenCodeWorkspace
  start_creating ws =
      if ws.status.phase == phase_pending then c.update_status (mark_creating ws) else pure ws

  -- The namespace of the workspace is deleted if it can be read.
  unfoldable pub delete_namespace : OpenCodeWorkspace → Exec c.World (Unit {0})
  delete_namespace ws =
      let name = deletion_namespace_name ws in
      let key : Key = record { namespace = ""; name = name } in
      try (c.get namespace_kind key)
        (λ ns. try (c.delete namespace_kind key) pure (λ e.
          if not (is_not_found c e)
          then raise (wrap ("failed to delete namespace " ++ (quoted name ++ ": ")) e)
          else pure tt))
        (λ e. pure tt)

  -- The finalizer is taken off, and the resource goes.
  unfoldable pub drop_finalizer : OpenCodeWorkspace → Action
  drop_finalizer ws =
      after
        (c.update_workspace
          (record ws { finalizers = c.remove_finalizer ws.finalizers finalizer_name }))
        (λ _. returns done) return_error

  unfoldable pub install_finalizer : OpenCodeWorkspace → Action
  install_finalizer ws =
      after
        (c.update_workspace
          (record ws { finalizers = c.add_finalizer ws.finalizers finalizer_name }))
        (λ _. returns requeued) return_error

  unfoldable pub set_pending : OpenCodeWorkspace → Action
  set_pending ws =
      after (c.update_status (set_phase phase_pending ws)) (λ _. returns requeued) return_error

  module _ (j : Codec) (jc : ConfigCodec) (system_namespace : String) where
    -- From the network policy on: the resources in the namespace, in their order, and the email map.
    unfoldable pub provision_rest : OpenCodeWorkspace → String → Action
    provision_rest ws namespace = resource "Secrets" ws (reconcile_secrets c ws namespace) λ keys.
        resource "ConfigMap" ws (reconcile_config_map jc c ws namespace (api_keys_map keys)) λ _.
          resource "PVCs" ws (reconcile_pvcs c ws namespace) λ _.
            resource "Kubedock" ws (reconcile_kubedock c ws namespace) λ _.
              resource "StatefulSet" ws (reconcile_stateful_set c ws namespace) λ _.
                resource "Service" ws (reconcile_service c ws namespace) λ _.
                  resource "TailscaleIngress" ws (reconcile_tailscale_ingress c ws namespace) λ ws'.
                    resource "EmailMap" ws' (reconcile_email_map c j system_namespace ws')
                      λ _. finish ws'

    -- From the namespace on.
    unfoldable pub provision_in : OpenCodeWorkspace → String → Action
    provision_in ws namespace =
        resource "NetworkPolicy" ws (reconcile_network_policy c ws namespace)
          λ _. provision_rest ws namespace

    unfoldable pub provision : OpenCodeWorkspace → Action
    provision ws = resource "Namespace" ws (reconcile_namespace c ws) λ namespace.
        after (record_namespace ws namespace) (λ ws'. provision_in ws' namespace) return_error

    -- The end of handleDeletion, from the deletion of the namespace on.
    unfoldable pub release : OpenCodeWorkspace → Action
    release ws = after (delete_namespace ws) (λ _. drop_finalizer ws) return_error

    -- From the status update of handleDeletion on, over the workspace that it answers; an error of
    -- the email map is logged only.
    unfoldable pub clean_up : OpenCodeWorkspace → Action
    clean_up ws =
        after (remove_from_email_map c j system_namespace ws) (λ _. release ws) (λ e. release ws)

    unfoldable pub handle_deletion : OpenCodeWorkspace → Action
    handle_deletion ws =
        if not (c.contains_finalizer ws.finalizers finalizer_name)
        then returns done
        else after
            (c.update_status
              (set_message "Workspace is being deleted" (set_phase phase_terminating ws)))
            clean_up return_error

    unfoldable pub reconcile_resources : OpenCodeWorkspace → Action
    reconcile_resources ws = after (start_creating ws) provision return_error

    -- From the check of the deletion time on.
    unfoldable pub reconcile_live : OpenCodeWorkspace → Action
    reconcile_live ws =
        if not (c.contains_finalizer ws.finalizers finalizer_name)
        then install_finalizer ws
        else if ws.status.phase == ""
        then set_pending ws
        else reconcile_resources ws

    unfoldable pub dispatch : OpenCodeWorkspace → Option String → Action
    dispatch ws none = reconcile_live ws
    dispatch ws (some deleted_at) = handle_deletion ws

    -- `Reconcile`, for the workspace of this name.
    unfoldable pub reconcile : String → Action
    reconcile name =
        after (c.get_workspace name) (λ ws. dispatch ws ws.deletion_timestamp)
          (λ e. if is_not_found c e then returns done else return_error e)
