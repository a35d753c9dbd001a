-- ===== src/Operator/Memory/Deletes.antt =====
-- What the requests of a deletion leave alone in the cluster in memory.
use mathlib.Core.Path.{subst}
use k8s_opencode.Common.{
  String, Bool, true, false, Option, none, some, ◌≡◌, refl, sym, ap, ◌∙◌, ◌⊎◌, inl, inr,
}
use k8s_opencode.Common.Json.{Codec}
use k8s_opencode.Operator.Api.{OpenCodeWorkspace}
use k8s_opencode.Operator.Object.{Kind, Object, Key, key_of, config_map_kind, namespace_kind}
use k8s_opencode.Operator.Contract.{Differs}
use k8s_opencode.Operator.EmailMap.{email_map_at}
use k8s_opencode.Operator.Isolation.Deletion.{Spares}
use k8s_opencode.Operator.Memory.{
  Cluster, keep, stored, drop, removed, delete_found, set_workspace, memory,
}
use k8s_opencode.Operator.Memory.Cast.{cast}
use k8s_opencode.Operator.Memory.Laws.{stored_key, apart, update_found_frame}

removed_other :
    {A : Type 0} (b : Bool) (o old : Option A) → (o ≡ none) ⊎ (b ≡ false) → removed b o old ≡ old
removed_other b none old h = refl
removed_other true (some o) old (inl h) = cc
removed_other true (some o) old (inr h) = cc
removed_other false (some o) old h = refl

drop_frame :
    (k : Kind) (o : Object k) (w : Cluster) (k' : Kind) (key' : Key)
    → Differs k (key_of k o) k' key'
    → stored (drop k o w) k' key' ≡ stored w k' key'
unfolding stored drop
drop_frame k o w k' key' d =
    ap (keep k' key') (removed_other _ (cast k k' o) _ (apart k o k' key' d))

delete_found_frame :
    (k : Kind) (key : Key) (x : Option (Object k)) (w : Cluster) (k' : Kind) (key' : Key)
    → stored w k key ≡ x
    → Differs k key k' key'
    → stored (delete_found k x w).1 k' key' ≡ stored w k' key'
delete_found_frame k key none w k' key' e d = refl
delete_found_frame k key (some o) w k' key' e d =
    drop_frame k o w k' key' (subst (λ a. Differs k a k' key') (sym (stored_key w k key o e)) d)

set_workspace_frame :
    (ws : OpenCodeWorkspace) (w : Cluster) (k' : Kind) (key' : Key)
    → stored (set_workspace ws w) k' key' ≡ stored w k' key'
unfolding stored
set_workspace_frame ws w k' key' = refl

-- An object that is not the email map, and is none of the namespaces of `D`, is left alone.
pub Spares-memory :
    (j : Codec) (system : String) (ws : OpenCodeWorkspace) (D : Key → Type 0) (k' : Kind)
    (key' : Key) (v : Option (Object k'))
    → Differs config_map_kind (email_map_at memory j system) k' key'
    → ((key : Key) → D key → Differs namespace_kind key k' key')
    → Spares memory j system ws D (λ w. stored w k' key' ≡ v)
Spares-memory j system ws D k' key' v m d = record {
  get = λ k key. record { at = λ w h. h };
  update_map = λ cm e. record {
    at = λ w h.
        update_found_frame config_map_kind cm _ w k' key'
          (subst (λ a. Differs config_map_kind a k' key') (sym e) m)
        ∙ h;
  };
  update_workspace = λ ws' n. record { at = λ w h. set_workspace_frame ws' w k' key' ∙ h };
  update_status = λ ws' n. record { at = λ w h. set_workspace_frame ws' w k' key' ∙ h };
  delete = λ key a. record {
    at = λ w h. delete_found_frame namespace_kind key _ w k' key' refl (d key a) ∙ h;
  };
}
