-- ===== src/Operator/Reconcile/Release.antt =====
-- What a deletion that answers without an error has done.
use k8s_opencode.Common.{String, true, ◌≡◌, refl}
use k8s_opencode.Common.Json.{Codec}
use k8s_opencode.Operator.Exec.{ok}
use k8s_opencode.Operator.Api.{OpenCodeWorkspace}
use k8s_opencode.Operator.Client.{Client}
use k8s_opencode.Operator.Contract.{Contract}
use k8s_opencode.Operator.Resources.Config.{ConfigCodec}
use k8s_opencode.Operator.Reconcile.{
  finalizer_name, done, drop_finalizer, release, clean_up, handle_deletion,
}
use k8s_opencode.Operator.Reconcile.Ends.{
  Ends, ends_rules, Ends-error, Ends-after-answer, Ends-last,
}

-- The world `w` is what an update left that succeeded in taking the finalizer off the workspace of
-- this name.
pub record Released (c : Client) (name : String) (w : c.World) : Type 0 where
  pub workspace : OpenCodeWorkspace
  pub named : workspace.name ≡ name
  pub earlier : c.World
  pub answer : OpenCodeWorkspace
  pub answered :
      (c.update_workspace
        (record workspace { finalizers = c.remove_finalizer workspace.finalizers finalizer_name })
        earlier).0
      ≡ ok answer
  pub left :
      (c.update_workspace
        (record workspace { finalizers = c.remove_finalizer workspace.finalizers finalizer_name })
        earlier).1
      ≡ w

module _ (c : Client) (j : Codec) (jc : ConfigCodec) (system name : String) where
  Ends-drop_finalizer :
      (ws : OpenCodeWorkspace) → ws.name ≡ name → Ends (Released c name) (drop_finalizer c ws)
  unfolding drop_finalizer
  Ends-drop_finalizer ws n =
      Ends-last c
        (c.update_workspace
          (record ws { finalizers = c.remove_finalizer ws.finalizers finalizer_name }))
        (λ w a e. record {
          workspace = ws;
          named = n;
          earlier = w;
          answer = a;
          answered = e;
          left = refl;
        })

  Ends-clean_up :
      (ws : OpenCodeWorkspace) → ws.name ≡ name → Ends (Released c name) (clean_up c j jc system ws)
  unfolding clean_up release
  Ends-clean_up ws n = search (ends_rules, Ends-drop_finalizer, n) depth 30

-- The deletion of a workspace that holds the finalizer, if it answers with no error, has ended in
-- an update that succeeded in taking the finalizer off this workspace: it never reports success
-- without that.
pub handle_deletion-Released :
    (c : Client) (contract : Contract c) (j : Codec) (jc : ConfigCodec) (system : String)
    (ws : OpenCodeWorkspace) (w : c.World)
    → c.contains_finalizer ws.finalizers finalizer_name ≡ true
    → (handle_deletion c j jc system ws w).0 ≡ done
    → Released c ws.name (handle_deletion c j jc system ws w).1
unfolding handle_deletion
handle_deletion-Released c contract j jc system ws w holds h =
    let ends : Ends (Released c ws.name) (handle_deletion c j jc system ws) = rw holds (
      Ends-after-answer c _ _ _
        (λ u ws' e.
          Ends-clean_up c j jc system ws.name ws' (contract.update_status_answer _ u ws' e).0)
        (Ends-error c)) in
    ends.at w h
