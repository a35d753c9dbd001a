-- ===== src/Operator/Tests.antt =====
-- The operator's theorems, applied to one workspace on a cluster in memory.
pub mod Fixtures
pub mod Runs
mod Copies
mod Objects
mod Reconciled
mod Failures
use k8s_opencode.Operator.Resources.Workload.Env.{build_provider_env_vars}
use k8s_opencode.Operator.Resources.Workload.Unread.{AllRefs, Unread, env_vars-Unread}
use k8s_opencode.Common.{inr, none, ◌≢◌, arith, eq_iff, ◌++◌, some, ◌≡◌, refl, inl, [], ◌∷◌}
use k8s_opencode.Common.Dict.{lookup}
use k8s_opencode.Common.Json.Marked.{marked, marked-IsRoundTrip}
use k8s_opencode.Common.Text.{trim_space, is_space, trim_left, trim_right}
use k8s_opencode.Operator.Exec.{ok, pure, lift, try}
use k8s_opencode.Operator.Object.{namespace_kind, secret_kind}
use k8s_opencode.Operator.Memory.{memory, stored}
use k8s_opencode.Operator.Memory.Deletes.{Spares-memory}
use k8s_opencode.Operator.Memory.Laws.{memory_contract}
use k8s_opencode.Operator.EmailMap.{reconcile_email_map, allocated, remove_from_email_map}
use k8s_opencode.Operator.EmailMap.Entries.{Sets}
use k8s_opencode.Operator.EmailMap.Retried.{reconcile_email_map-Sets}
use k8s_opencode.Operator.Resources.Names.{namespace_name, prefix_of}
use k8s_opencode.Operator.Resources.Config.{mcp_servers_of}
use k8s_opencode.Operator.Resources.Config.Servers.{
  first_of, last_laptop, last_remote, lookup-mcp_servers_of,
}
use k8s_opencode.Operator.Resources.Secrets.{set_workspace_secret, keep_or_set}
use k8s_opencode.Operator.Resources.Secrets.Kept.{set_workspace_secret-kept}
use k8s_opencode.Operator.Resources.Password.{password_of}
use k8s_opencode.Operator.Resources.Password.Alphabet.{IsPassword, password_of-IsPassword}
use k8s_opencode.Operator.Isolation.Reconcile.{Outside, reconcile_live-isolated}
use k8s_opencode.Operator.Isolation.Deletion.{
  own_key, deleted_key, namespace_not_deleted, handle_deletion-Spares,
}
use k8s_opencode.Operator.Reconcile.{reconcile_live, handle_deletion}
use k8s_opencode.Operator.Reconcile.Success.{Marked, reconcile_live-Marked}
use k8s_opencode.Operator.Reconcile.Release.{Released, handle_deletion-Released}
use k8s_opencode.Operator.Resources.Owned.{own}
use k8s_opencode.Operator.Tests.Fixtures.{
  with_key, spec, ann, empty, plain_config, other_secret, filled, old_secret, new_secret, named,
}
use k8s_opencode.Operator.Tests.Runs.{secret_set, added, reconciled, released, cleared}
use k8s_opencode.Operator.EmailMap.Removal.{Clears, remove_from_email_map-Clears}

reconcile_email_map-Sets_example :
    Sets memory memory_contract marked marked-IsRoundTrip "ok8s"
      (trim_space " ann@x.org")
      "ann"
      empty
      (reconcile_email_map memory marked "ok8s" ann empty).1
reconcile_email_map-Sets_example =
    reconcile_email_map-Sets memory memory_contract marked marked-IsRoundTrip "ok8s" ann empty added

outside : Outside memory marked "ok8s" ann secret_kind other_secret
unfolding namespace_name prefix_of
outside = record {
  not_inside = λ e. cc ((eq_iff "oc-bob" "oc-ann").1 e);
  not_namespace = inl (λ e. cc (e));
  not_email_map = inl (λ e. cc (e));
}

reconcile_live-isolated_example :
    memory_contract.lookup
      (reconcile_live memory marked plain_config "ok8s" ann empty).1
      secret_kind
      other_secret
    ≡ memory_contract.lookup empty secret_kind other_secret
reconcile_live-isolated_example =
    reconcile_live-isolated memory memory_contract marked plain_config "ok8s" ann empty secret_kind
      other_secret outside

reconcile_live-Marked_example :
    Marked memory "ann" (reconcile_live memory marked plain_config "ok8s" ann empty).1
reconcile_live-Marked_example =
    reconcile_live-Marked memory memory_contract marked plain_config "ok8s" ann empty reconciled

namespace_not_deleted_example :
    stored
      (handle_deletion memory marked plain_config "ok8s" ann filled).1
      namespace_kind
      (own_key ann)
    ≡ stored filled namespace_kind (own_key ann)
namespace_not_deleted_example =
    namespace_not_deleted memory memory_contract marked plain_config "ok8s" ann
      (λ w. stored w namespace_kind (own_key ann) ≡ stored filled namespace_kind (own_key ann))
      filled
      (Spares-memory marked "ok8s" ann (λ key. key ≢ own_key ann) namespace_kind (own_key ann) _
        (inl (λ e. cc (e))) (λ key n. inr n))
      refl

handle_deletion-Spares_example :
    stored (handle_deletion memory marked plain_config "ok8s" ann filled).1 secret_kind other_secret
    ≡ stored filled secret_kind other_secret
handle_deletion-Spares_example =
    handle_deletion-Spares memory memory_contract marked plain_config "ok8s" ann
      (λ w. stored w secret_kind other_secret ≡ stored filled secret_kind other_secret) filled
      (Spares-memory marked "ok8s" ann (λ key. key ≡ deleted_key ann) secret_kind other_secret _
        (inl (λ e. cc (e))) (λ key n. inl (λ e. cc (e))))
      refl

handle_deletion-Released_example :
    Released memory ann.name (handle_deletion memory marked plain_config "ok8s" ann filled).1
handle_deletion-Released_example =
    handle_deletion-Released memory memory_contract marked plain_config "ok8s" ann filled refl
      released

password_there : lookup "server-password" (allocated old_secret.contents) ≡ some "hunter2"
unfolding lookup
password_there = refl

set_workspace_secret-kept_example :
    lookup "server-password" (allocated new_secret.contents) ≡ some "hunter2"
set_workspace_secret-kept_example =
    set_workspace_secret-kept memory ann old_secret new_secret empty "server-password" "hunter2"
      secret_set password_there

lookup-mcp_servers_of_example :
    lookup "laptop_ide" (mcp_servers_of ann)
    ≡ first_of
        (last_laptop "laptop_ide" ann.spec.mcp.laptop_servers)
        (last_remote "laptop_ide" ann.spec.mcp.remote)
lookup-mcp_servers_of_example = lookup-mcp_servers_of "laptop_ide" ann

password_of-IsPassword_example : IsPassword 4 (password_of 4 (255 ∷ 0 ∷ 128 ∷ 7 ∷ []))
password_of-IsPassword_example =
    password_of-IsPassword 4 (255 ∷ 0 ∷ 128 ∷ 7 ∷ []) refl
      (omega arith, (omega arith, (omega arith, (omega arith, tt))))

trimmed : trim_space " ann@x.org" ≢ ""
unfolding trim_space trim_left trim_right is_space
trimmed e = absurd (cc (e))

remove_from_email_map-Clears_example :
    Clears memory memory_contract marked marked-IsRoundTrip "ok8s"
      (trim_space " ann@x.org")
      filled
      (remove_from_email_map memory marked "ok8s" ann filled).1
remove_from_email_map-Clears_example =
    remove_from_email_map-Clears memory memory_contract marked marked-IsRoundTrip "ok8s" ann filled
      trimmed cleared

env_vars-Unread_example :
    AllRefs (Unread memory (some "sk-1") none none) (build_provider_env_vars with_key)
env_vars-Unread_example = env_vars-Unread memory (some "sk-1") none none with_key
