-- ===== src/Operator/Reconcile/Failure.antt =====
-- What a reconciliation that answers an error has done about it.
use k8s_opencode.Common.{String, ◌++◌, List, ◌≡◌}
use k8s_opencode.Common.Json.{Codec}
use k8s_opencode.Operator.Exec.{Error, error_text, err}
use k8s_opencode.Operator.Api.{OpenCodeWorkspace, Condition}
use k8s_opencode.Operator.Client.{Client}
use k8s_opencode.Operator.Contract.{Contract}
use k8s_opencode.Operator.Resources.Config.{ConfigCodec}
use k8s_opencode.Operator.Reconcile.{Action}
use k8s_opencode.Operator.Reconcile.Fails.{Fails}

-- Condition `type` of a failure, as the operator writes it.
abbrev condition : OpenCodeWorkspace → String → String → String → Condition
condition ws type status message = record {
  type = type;
  status = status;
  reason = "ReconcileFailed";
  message = message;
  observed_generation = ws.generation;
}

-- What a workspace has in its status of which this resource has failed with `e`: the phase, the message
-- with the error's text, and the two conditions set on those that it had.
pub record IsFailed (c : Client) (resource : String) (e : Error) (ws : OpenCodeWorkspace)
    : Type 0 where
  pub phase : ws.status.phase ≡ "Failed"
  pub message : ws.status.message ≡ "Failed to reconcile " ++ (resource ++ (": " ++ error_text e))
  pub earlier : List Condition
  pub conditions :
      ws.status.conditions
      ≡ c.set_status_condition
          (c.set_status_condition earlier (condition ws "Degraded" "True" ws.status.message))
          (condition ws "Ready" "False" ws.status.message)

-- The error `e` that the world `w` was left with: a status update was tried of the workspace of
-- this name as one that has failed with `e`, or `e` is the answer to a write of the workspace itself.
pub data Reported (c : Client) (name : String) (e : Error) (w : c.World) : Type 0 where
  marked :
      (ws : OpenCodeWorkspace) (resource : String) (earlier : c.World)
      → ws.name ≡ name
      → IsFailed c resource e ws
      → (c.update_status ws earlier).1 ≡ w
      → Reported c name e w
  unsaved_status :
      (ws : OpenCodeWorkspace) (earlier : c.World)
      → c.update_status ws earlier ≡ (err e, w)
      → Reported c name e w
  unsaved_workspace :
      (ws : OpenCodeWorkspace) (earlier : c.World)
      → c.update_workspace ws earlier ≡ (err e, w)
      → Reported c name e w

module _ (c : Client) (contract : Contract c) (j : Codec) (jc : ConfigCodec) (system : String)
    (name : String) where
  abbrev FailsReported : Action c → Type 0
  FailsReported m = Fails (Reported c name) m
