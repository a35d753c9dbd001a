-- ===== src/Operator/Isolation/Deletion.antt =====
-- What the deletion of a workspace asks of the cluster, and that it does not ask for the deletion of
-- the workspace's own namespace.
use Prim.Native.String.{count}
use text.Mathlib.TextLemmas.{append_cancel_left, length-append}
use k8s_opencode.Common.{String, ◌++◌, ◌≡◌, ap, ◌≢◌, arith, refl}
use k8s_opencode.Common.Json.{Codec}
use k8s_opencode.Operator.Exec.Keeps.{Keeps, Keeps-if, keeps_rules}
use k8s_opencode.Operator.Api.{OpenCodeWorkspace}
use k8s_opencode.Operator.Object.{Kind, Key, key_of, ConfigMap, namespace_kind, config_map_kind}
use k8s_opencode.Operator.Client.{Client}
use k8s_opencode.Operator.Contract.{Contract}
use k8s_opencode.Operator.EmailMap.{
  email_map_at, store_payload, drop_entry, unset_missing, unset_email, remove_from_email_map,
}
use k8s_opencode.Operator.Resources.Names.{prefix_of, namespace_name, deletion_namespace_name}
use k8s_opencode.Operator.Resources.Config.{ConfigCodec}
use k8s_opencode.Operator.Isolation.Calls.{Keeps-try-read, Keeps-retried}
use k8s_opencode.Operator.Isolation.Reconcile.{Keeps-after-answer, action_rules, Keeps-returns}
use k8s_opencode.Operator.Reconcile.{
  delete_namespace, drop_finalizer, release, clean_up, handle_deletion, set_message, set_phase,
  phase_terminating,
}

-- The namespace that the deletion addresses, for a workspace, and the one that was made for it.
abbrev pub deleted_key : OpenCodeWorkspace → Key
deleted_key ws = record { namespace = ""; name = deletion_namespace_name ws }

abbrev pub own_key : OpenCodeWorkspace → Key
own_key ws = record { namespace = ""; name = namespace_name ws }

deletion_namespace_name-eq :
    (ws ws' : OpenCodeWorkspace)
    → ws'.name ≡ ws.name
    → ws'.spec ≡ ws.spec
    → deletion_namespace_name ws' ≡ deletion_namespace_name ws
unfolding deletion_namespace_name prefix_of
deletion_namespace_name-eq ws ws' n s = cc

-- Whether `P` holds is not changed, from true to false, by these requests: reads, updates of the
-- email map, of the workspace and of its status, and deletions of the namespaces that `D` admits.
pub record Spares (c : Client) (j : Codec) (system : String) (ws : OpenCodeWorkspace)
    (D : Key → Type 0) (P : c.World → Type 0) : Type 0 where
  pub get : (k : Kind) (key : Key) → Keeps P (c.get k key)
  pub update_map :
      (cm : ConfigMap)
      → key_of config_map_kind cm ≡ email_map_at c j system
      → Keeps P (c.update config_map_kind cm)
  pub update_workspace :
      (ws' : OpenCodeWorkspace) → ws'.name ≡ ws.name → Keeps P (c.update_workspace ws')
  pub update_status : (ws' : OpenCodeWorkspace) → ws'.name ≡ ws.name → Keeps P (c.update_status ws')
  pub delete : (key : Key) → D key → Keeps P (c.delete namespace_kind key)

module _ (c : Client) (contract : Contract c) (j : Codec) (jc : ConfigCodec) (system : String)
    (ws : OpenCodeWorkspace) {D : Key → Type 0} {P : c.World → Type 0}
    (s : Spares c j system ws D P) (d : D (deleted_key ws)) where
  Keeps-get : (k : Kind) (key : Key) → Keeps P (c.get k key)
  Keeps-get = s.get

  Keeps-delete : Keeps P (c.delete namespace_kind (deleted_key ws))
  Keeps-delete = s.delete (deleted_key ws) d

  Keeps-update_workspace :
      (ws' : OpenCodeWorkspace) → ws'.name ≡ ws.name → Keeps P (c.update_workspace ws')
  Keeps-update_workspace = s.update_workspace

  Keeps-update_map :
      (cm : ConfigMap)
      → key_of config_map_kind cm ≡ email_map_at c j system
      → Keeps P (c.update config_map_kind cm)
  Keeps-update_map = s.update_map

  Keeps-drop_entry :
      (email : String) (cm : ConfigMap)
      → key_of config_map_kind cm ≡ email_map_at c j system
      → Keeps P (drop_entry c j system email cm)
  unfolding drop_entry store_payload
  Keeps-drop_entry email cm e = search (keeps_rules, Keeps-update_map, e)

  Keeps-unset_email : (email : String) → Keeps P (unset_email c j system email)
  unfolding unset_email unset_missing
  Keeps-unset_email email =
      search (keeps_rules, Keeps-try-read, contract, Keeps-get, Keeps-drop_entry)

  Keeps-remove_from_email_map :
      (ws' : OpenCodeWorkspace) → Keeps P (remove_from_email_map c j system ws')
  unfolding remove_from_email_map
  Keeps-remove_from_email_map ws' = search (keeps_rules, Keeps-retried, contract, Keeps-unset_email)

  Keeps-delete_namespace :
      (ws' : OpenCodeWorkspace)
      → deletion_namespace_name ws' ≡ deletion_namespace_name ws
      → Keeps P (delete_namespace c ws')
  unfolding delete_namespace
  Keeps-delete_namespace ws' e = rw e (search (keeps_rules, Keeps-get, Keeps-delete) depth 12)

  Keeps-clean_up :
      (ws' : OpenCodeWorkspace)
      → ws'.name ≡ ws.name
      → deletion_namespace_name ws' ≡ deletion_namespace_name ws
      → Keeps P (clean_up c j jc system ws')
  unfolding clean_up release drop_finalizer
  Keeps-clean_up ws' n e =
      search
        (
          action_rules, Keeps-remove_from_email_map, Keeps-delete_namespace, Keeps-update_workspace,
          n, e,
        )
        depth 12

  Keeps-handle_deletion : Keeps P (handle_deletion c j jc system ws)
  unfolding handle_deletion
  Keeps-handle_deletion =
      let terminating = set_message "Workspace is being deleted" (set_phase phase_terminating ws) in
      Keeps-if _ _ _ (Keeps-returns c _) (
        Keeps-after-answer c (c.update_status terminating) _ _ (s.update_status terminating refl)
          (λ w ws' answered.
            let same = contract.update_status_answer terminating w ws' answered in
            Keeps-clean_up ws' same.0 (deletion_namespace_name-eq ws ws' same.0 same.1))
          (λ e. Keeps-returns c _))

-- The deletion addresses a namespace of another name than the one that was made for the workspace.
deletion-ne-namespace_name :
    (ws : OpenCodeWorkspace) → deletion_namespace_name ws ≢ namespace_name ws
unfolding deletion_namespace_name namespace_name
deletion-ne-namespace_name ws e =
    let tails = append_cancel_left (prefix_of ws) ws.name ("-" ++ ws.name) e in
    absurd (omega (arith, ap count tails, length-append "-" ws.name))

-- The deletion of a workspace never asks for the deletion of the namespace that was made for it,
-- whatever the calls answer: what is kept true by its other requests and by the deletion of every
-- other namespace is true after it. What it asks to delete is a namespace whose name lacks the dash.
pub namespace_not_deleted :
    (c : Client) (contract : Contract c) (j : Codec) (jc : ConfigCodec) (system : String)
    (ws : OpenCodeWorkspace) (P : c.World → Type 0) (w : c.World)
    → Spares c j system ws (λ key. key ≢ own_key ws) P
    → P w
    → P (handle_deletion c j jc system ws w).1
namespace_not_deleted c contract j jc system ws P w s h =
    let other : deleted_key ws ≢ own_key ws =
      λ e. deletion-ne-namespace_name ws (ap (λ (k : Key). k.name) e) in
    (Keeps-handle_deletion c contract j jc system ws s other).at w h

-- All that the deletion of a workspace asks of the cluster, whatever the calls answer, are reads,
-- updates of the email map, of this workspace and of its status, and the deletion of the one
-- namespace that it addresses: what these requests keep true is true after it.
pub handle_deletion-Spares :
    (c : Client) (contract : Contract c) (j : Codec) (jc : ConfigCodec) (system : String)
    (ws : OpenCodeWorkspace) (P : c.World → Type 0) (w : c.World)
    → Spares c j system ws (λ key. key ≡ deleted_key ws) P
    → P w
    → P (handle_deletion c j jc system ws w).1
handle_deletion-Spares c contract j jc system ws P w s h =
    (Keeps-handle_deletion c contract j jc system ws s refl).at w h
