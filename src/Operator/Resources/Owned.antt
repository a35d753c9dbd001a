-- ===== src/Operator/Resources/Owned.antt =====
-- What the functions given to CreateOrUpdate share, and the namespace of a workspace:
-- operator/internal/controller/reconcile_namespace.go.
use k8s_opencode.Common.{String, ◌++◌, none, some, []}
use k8s_opencode.Common.Dict.{insert}
use k8s_opencode.Operator.Exec.{Exec, pure, lift, wrapping, ◌>>=◌, ◌>>◌}
use k8s_opencode.Operator.Api.{OpenCodeWorkspace}
use k8s_opencode.Operator.Object.{ObjectMeta, meta_of, Namespace, namespace_kind}
use k8s_opencode.Operator.Client.{Client}
use k8s_opencode.Operator.Resources.Names.{namespace_name}

abbrev pub workspace_owner_label : String
workspace_owner_label = "opencode.io/workspace"

-- `if o.Labels == nil { o.Labels = map[string]string{} }; o.Labels[key] = value`
abbrev pub put_label : String → String → ObjectMeta → ObjectMeta
put_label key value m = record m {
  labels = some (insert key value (elim m.labels [ none ↦ [] | some d ↦ d ]));
}

-- `%q` of a text that needs no escapes, as the names of objects are
abbrev pub quoted : String → String
quoted name = "\"" ++ (name ++ "\"")

module _ (c : Client) (ws : OpenCodeWorkspace) where
  -- `controllerutil.SetOwnerReference(workspace, o, r.Scheme)`
  unfoldable pub own : ObjectMeta → Exec c.World ObjectMeta
  own m = lift (c.set_owner_reference ws m)

  unfoldable pub label_namespace : Namespace → Exec c.World Namespace
  label_namespace ns = do
    m ← own ns.meta
    pure (record ns { meta = put_label workspace_owner_label ws.name m })

  unfoldable pub reconcile_namespace : Exec c.World String
  reconcile_namespace = do
    wrapping ("failed to reconcile namespace " ++ (quoted (namespace_name ws) ++ ": ")) (
        c.create_or_update namespace_kind (record { meta = meta_of "" (namespace_name ws) })
          label_namespace)
    pure (namespace_name ws)
