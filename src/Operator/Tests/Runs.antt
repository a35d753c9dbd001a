-- ===== src/Operator/Tests/Runs.antt =====
-- Runs of the operator on the clusters in memory, to their end.
use k8s_opencode.Common.{◌≡◌, ◌≢◌, refl, ap, Bool, true, false, Option, none, some}
use k8s_opencode.Operator.Object.{Key, key_of, secret_kind, stateful_set_kind}
use k8s_opencode.Common.Dict.{lookup, insert, delete}
use k8s_opencode.Common.Json.Marked.{marked, unmarshal_marked, marshal_marked}
use k8s_opencode.Common.Text.{trim_space, is_space, trim_left, trim_right, strip_prefix, decimal}
use k8s_opencode.Operator.Exec.{Error, errorf, ok, error_text, is_reason, pure, raise, lift, try}
use k8s_opencode.Operator.Memory.{
  Cluster, memory, key_eq, keep, stored, put, drop, write_changed, begun, create_or_update_in,
}
use k8s_opencode.Operator.EmailMap.{
  reconcile_email_map, parse_email_map, store_payload, write_payload, put_entry, adopt_email_map,
  create_email_map, set_missing, set_email, drop_entry, unset_email, remove_from_email_map,
}
use k8s_opencode.Operator.Resources.Names.{
  namespace_name, prefix_of, deletion_namespace_name, generate_ingress_hostname,
}
use k8s_opencode.Operator.Resources.Config.{
  mcp_servers_of, enabled_providers_of, provider_of, plugins_of, add_remotes, add_laptops,
  read_skills, skills_of, config_of, set_config, reconcile_config_map,
}
use k8s_opencode.Operator.Resources.Secrets.{
  set_workspace_secret, get_secret_key, provider_key, choose_password, keep_or_set,
  reconcile_workspace_secrets, set_provider_secret, api_keys_of, write_provider_secret,
  reconcile_secrets,
}
use k8s_opencode.Operator.Resources.Password.{password_of, nth, encode, take, generate_password}
use k8s_opencode.Operator.Reconcile.{
  done, reconcile_live, handle_deletion, returns, after, set_condition, mark_failed,
  handle_reconcile_error, mark_running, mark_creating, finish, record_namespace, start_creating,
  delete_namespace, drop_finalizer, install_finalizer, set_pending, provision_in, provision_rest,
  provision, release, clean_up, reconcile_resources, dispatch, reconcile,
}
use k8s_opencode.Operator.Memory.Laws.{memory_contract, memory_contract-lookup}
use k8s_opencode.Operator.Memory.Cast.{cast}
use k8s_opencode.Operator.Resources.Claims.{
  class_of, pvc_storage_size, request_storage, reconcile_claim, reconcile_pvcs,
}
use k8s_opencode.Operator.Resources.Kubedock.{
  set_service_account, reconcile_kubedock_service_account, set_role, reconcile_kubedock_role,
  set_role_binding, reconcile_kubedock_role_binding, kubedock_resources, kubedock_container,
  set_deployment, reconcile_kubedock_deployment, set_kubedock_service, reconcile_kubedock_service,
  reconcile_kubedock,
}
use k8s_opencode.Operator.Resources.Network.{isolate, reconcile_network_policy}
use k8s_opencode.Operator.Resources.Owned.{own, label_namespace, reconcile_namespace}
use k8s_opencode.Operator.Resources.Tailscale.{
  expose, reconcile_ingress, reconcile_tailscale_ingress,
}
use k8s_opencode.Operator.Resources.Workload.{
  init_container, workspace_container, pod_template, set_stateful_set, reconcile_stateful_set,
  set_service, reconcile_service,
}
use k8s_opencode.Operator.Resources.Workload.Env.{secret_env_var, build_provider_env_vars}
use k8s_opencode.Operator.Tests.Fixtures.{
  old_secret, new_secret, with_key, ann, empty, plain_config, filled,
}

-- All that a run on a cluster in memory computes with.
unfoldable in_memory : Unit {0}
unfolding lookup insert delete unmarshal_marked marshal_marked is_space trim_left trim_right
    trim_space strip_prefix decimal parse_email_map store_payload write_payload put_entry
    adopt_email_map create_email_map set_missing set_email reconcile_email_map drop_entry
    unset_email remove_from_email_map error_text is_reason pure raise lift try key_eq keep stored
    put drop write_changed begun create_or_update_in cast returns after set_condition mark_failed
    handle_reconcile_error mark_running mark_creating finish record_namespace start_creating
    delete_namespace drop_finalizer install_finalizer set_pending provision_in provision_rest
    provision release clean_up handle_deletion reconcile_resources reconcile_live dispatch reconcile
    class_of pvc_storage_size request_storage reconcile_claim reconcile_pvcs enabled_providers_of
    provider_of plugins_of add_remotes add_laptops mcp_servers_of read_skills skills_of config_of
    set_config reconcile_config_map set_service_account reconcile_kubedock_service_account set_role
    reconcile_kubedock_role set_role_binding reconcile_kubedock_role_binding kubedock_resources
    kubedock_container set_deployment reconcile_kubedock_deployment set_kubedock_service
    reconcile_kubedock_service reconcile_kubedock prefix_of namespace_name deletion_namespace_name
    generate_ingress_hostname isolate reconcile_network_policy own label_namespace
    reconcile_namespace nth encode take password_of generate_password get_secret_key provider_key
    choose_password keep_or_set set_workspace_secret reconcile_workspace_secrets set_provider_secret
    api_keys_of write_provider_secret reconcile_secrets expose reconcile_ingress
    reconcile_tailscale_ingress init_container workspace_container pod_template set_stateful_set
    reconcile_stateful_set set_service reconcile_service secret_env_var build_provider_env_vars
in_memory = tt

-- Its email map can be written.
pub added : (reconcile_email_map memory marked "ok8s" ann empty).0 ≡ ok tt
unfolding in_memory
added = refl

pub reconciled : (reconcile_live memory marked plain_config "ok8s" ann empty).0 ≡ done
unfolding in_memory
reconciled = refl

pub released : (handle_deletion memory marked plain_config "ok8s" ann filled).0 ≡ done
unfolding in_memory
released = refl

pub cleared : (remove_from_email_map memory marked "ok8s" ann filled).0 ≡ ok tt
unfolding in_memory
cleared = refl

abbrev error_of : Option Error → Error
error_of none = errorf ""
error_of (some e) = e

-- A workspace that refers to a Secret which is not there cannot be reconciled.
abbrev pub refusal : Error
refusal = error_of (reconcile_live memory marked plain_config "ok8s" with_key empty).0.error

pub refused :
    (reconcile_live memory marked plain_config "ok8s" with_key empty).0.error ≡ some refusal
unfolding in_memory
refused = refl

abbrev pub own_secrets : Key
own_secrets = record { namespace = namespace_name ann; name = "workspace-secrets" }

abbrev is_there : {A : Type 0} → Option A → Bool
is_there none = false
is_there (some x) = true

abbrev pub own_set : Key
own_set = record { namespace = namespace_name ann; name = "workspace" }

secret_there : is_there (stored filled secret_kind own_secrets) ≡ true
unfolding in_memory
secret_there = refl

secret_missing : is_there (stored empty secret_kind own_secrets) ≡ false
unfolding in_memory
secret_missing = refl

set_there : is_there (stored filled stateful_set_kind own_set) ≡ true
unfolding in_memory
set_there = refl

set_missing_before : is_there (stored empty stateful_set_kind own_set) ≡ false
unfolding in_memory
set_missing_before = refl

-- The Secret and the StatefulSet of the workspace are written.
pub secret_written :
    memory_contract.lookup filled secret_kind own_secrets
    ≢ memory_contract.lookup empty secret_kind own_secrets
secret_written e = cc (
  secret_there,
  secret_missing,
  ap is_there e,
  memory_contract-lookup filled secret_kind own_secrets,
  memory_contract-lookup empty secret_kind own_secrets,
)

pub set_written :
    memory_contract.lookup filled stateful_set_kind own_set
    ≢ memory_contract.lookup empty stateful_set_kind own_set
set_written e = cc (
  set_there,
  set_missing_before,
  ap is_there e,
  memory_contract-lookup filled stateful_set_kind own_set,
  memory_contract-lookup empty stateful_set_kind own_set,
)

pub secret_set : (set_workspace_secret memory ann old_secret empty).0 ≡ ok new_secret
unfolding in_memory
secret_set = refl

-- The cluster with the Secret as it was written.
abbrev pub with_secret : Cluster
with_secret = put secret_kind new_secret empty

pub with_secret_stored :
    stored with_secret secret_kind (key_of secret_kind old_secret) ≡ some new_secret
unfolding in_memory
with_secret_stored = refl
