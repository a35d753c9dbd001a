-- ===== src/Operator/Resources/Claims.antt =====
-- operator/internal/controller/reconcile_pvc.go
use k8s_opencode.Common.{String, not, Option, none, some, [], ◌∷◌, ◌==◌, if◌then◌else◌}
use k8s_opencode.Operator.Exec.{Exec, pure, ◌>>=◌, ◌>>◌}
use k8s_opencode.Operator.Api.{OpenCodeWorkspace, Quantity}
use k8s_opencode.Operator.Object.{PersistentVolumeClaim, meta_of, claim_kind}
use k8s_opencode.Operator.Client.{Client}
use k8s_opencode.Operator.Resources.Owned.{own}

abbrev pub default_workspace_pvc_size : String
default_workspace_pvc_size = "10Gi"

abbrev pub default_data_pvc_size : String
default_data_pvc_size = "5Gi"

-- The storage class is set once, and only if one is configured.
unfoldable pub class_of : String → Option String → Option String
class_of configured (some present) = some present
class_of configured none = if configured == "" then none else some configured

module _ (c : Client) where
  unfoldable pub pvc_storage_size : Quantity → String → Quantity
  pvc_storage_size value default_value =
      if not (c.is_zero value) then value else c.must_parse default_value

  unfoldable pub request_storage :
      OpenCodeWorkspace → Quantity → PersistentVolumeClaim → Exec c.World PersistentVolumeClaim
  unfolding class_of
  request_storage ws size pvc = do
    m ← own c ws pvc.meta
    pure (record pvc {
      meta = m;
      access_modes = "ReadWriteOnce" ∷ [];
      requests = ("storage", size) ∷ [];
      storage_class_name = class_of ws.spec.storage.storage_class_name pvc.storage_class_name;
    })

  unfoldable pub reconcile_claim :
      OpenCodeWorkspace → String → String → Quantity → Exec c.World (Unit {0})
  reconcile_claim ws namespace name size =
      c.create_or_update claim_kind
        (record {
          meta = meta_of namespace name;
          access_modes = [];
          requests = [];
          storage_class_name = none;
        })
        (request_storage ws size)

  unfoldable pub reconcile_pvcs : OpenCodeWorkspace → String → Exec c.World (Unit {0})
  unfolding reconcile_claim pvc_storage_size
  reconcile_pvcs ws namespace = do
    reconcile_claim ws namespace "workspace-pvc"
        (pvc_storage_size ws.spec.storage.workspace default_workspace_pvc_size)
    reconcile_claim ws namespace "data-pvc"
        (pvc_storage_size ws.spec.storage.data_size default_data_pvc_size)
