-- ===== src/Operator/Memory/Workspaces.antt =====
-- The workspaces of a cluster in memory.
use k8s_opencode.Common.{String, ap, Option, none, some, ◌≡◌, refl, eq_iff, eq_refl, arith}
use k8s_opencode.Operator.Exec.{ok}
use k8s_opencode.Operator.Api.{OpenCodeWorkspace}
use k8s_opencode.Operator.Contract.{WorkspaceContract}
use k8s_opencode.Operator.Memory.{Cluster, memory, got, keep_workspace, set_workspace}

kept-named :
    (name : String) (o : Option OpenCodeWorkspace) (ws : OpenCodeWorkspace)
    → got (keep_workspace name o) ≡ ok ws
    → ws.name ≡ name
unfolding keep_workspace
kept-named name none ws h = absurd (cc (h))
kept-named name (some x) ws h = ground (arith, eq_iff x.name name)

written : (ws : OpenCodeWorkspace) (w : Cluster) → (set_workspace ws w).workspaces ws.name ≡ some ws
written ws w = rw (eq_refl ws.name) refl

kept : (ws : OpenCodeWorkspace) → keep_workspace ws.name (some ws) ≡ some ws
unfolding keep_workspace
kept ws = rw (eq_refl ws.name) refl

written-read :
    (ws ws' : OpenCodeWorkspace) (w : Cluster)
    → got (keep_workspace ws.name ((set_workspace ws w).workspaces ws.name)) ≡ ok ws'
    → ws ≡ ws'
written-read ws ws' w h =
    cc (ap (λ o. got (keep_workspace ws.name o)) (written ws w), ap got (kept ws), h)

pub memory_workspaces : WorkspaceContract memory
memory_workspaces = record {
  named = λ name w ws h. kept-named name (w.workspaces name) ws h;
  reread = λ ws answer ws' w h r. (let e = written-read ws ws' w r in cc (e));
  reread_status = λ ws answer ws' w h r. (let e = written-read ws ws' w r in (cc (e), cc (e)));
  finalizer_added = λ fs name. ground (arith, eq_refl name);
}
