-- ===== src/Operator/Tests/Failures.antt =====
-- The error of a reconciliation, and the start of the operator's process.
use k8s_opencode.Common.{ℕ, suc, false, [], ◌∷◌, ◌≡◌, refl, ◌⊎◌}
use k8s_opencode.Common.Json.Marked.{marked}
use k8s_opencode.Operator.Exec.{ok}
use k8s_opencode.Operator.Memory.{Cluster, memory, set_workspace}
use k8s_opencode.Operator.Main.{
  default_flags, TlsConfig, manager_options, Library, returned, exits, main,
}
use k8s_opencode.Operator.Main.Start.{configured, manager_options-guarded, Ran, main-Ran}
use k8s_opencode.Operator.Reconcile.Phases.{settle, reconcile-settles}
use k8s_opencode.Operator.Api.{OpenCodeWorkspace}
use k8s_opencode.Operator.Memory.Workspaces.{memory_workspaces}
use k8s_opencode.Operator.Tests.Fixtures.{ann, empty, plain_config}

abbrev both_protos : TlsConfig
both_protos = record { next_protos = "h2" ∷ "http/1.1" ∷ [] }

manager_options-guarded_example :
    ((configured (manager_options default_flags).webhook.tls_opts both_protos).next_protos
      ≡ "http/1.1" ∷ [])
    × ((configured (manager_options default_flags).metrics.tls_opts both_protos).next_protos
        ≡ "http/1.1" ∷ [])
    × ((manager_options default_flags).metrics.secure_serving
        ≡ (manager_options default_flags).metrics.filtered)
manager_options-guarded_example = manager_options-guarded default_flags both_protos refl

-- A library that counts its calls.
abbrev counting : Library
counting = record {
  World = ℕ;
  Manager = ℕ;
  new_manager = λ o n. (ok n, suc n);
  complete = λ mgr watched named r n. (ok tt, suc n);
  add_healthz_check = λ mgr named n. (ok tt, suc n);
  add_readyz_check = λ mgr named n. (ok tt, suc n);
  start = λ mgr n. (ok tt, suc n);
}

main-Ran_example :
    ((main counting default_flags "" 0).0 ≡ exits 1)
    ⊎ (((main counting default_flags "" 0).0 ≡ returned) × Ran counting default_flags "" 0)
main-Ran_example = main-Ran counting default_flags "" 0

-- It has neither a finalizer nor a phase yet.
abbrev new_ann : OpenCodeWorkspace
new_ann = record ann { finalizers = []; status = record (ann.status) { phase = "" } }

abbrev with_new : Cluster
with_new = set_workspace new_ann empty

reconcile-settles_example :
    (settle memory marked plain_config "ok8s" 3 "ann" with_new).0.requeue ≡ false
reconcile-settles_example =
    reconcile-settles memory memory_workspaces marked plain_config "ok8s" "ann" with_new
