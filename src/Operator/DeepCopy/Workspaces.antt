-- ===== src/Operator/DeepCopy/Workspaces.antt =====
-- The generated functions for a workspace's spec and status, a workspace and a list of them.
use k8s_opencode.Common.{ℕ, Option, none, some, List, ◌≡◌}
use k8s_opencode.Operator.DeepCopy.Heap.{Heap, Copier}
use k8s_opencode.Operator.DeepCopy.Slices.{elements, reference}
use k8s_opencode.Operator.DeepCopy.Types.{
  references, values, WorkspaceSpecOf, WorkspaceStatusOf, WorkspaceOf, WorkspaceListOf,
}
use k8s_opencode.Operator.DeepCopy.Cells.{
  Cell, Library, conditions, to_conditions, workspaces, to_workspaces,
}
use k8s_opencode.Operator.DeepCopy.Plain.{deep_copy}
use k8s_opencode.Operator.DeepCopy.Specs.{storage_spec, tailscale_spec, kubedock_spec, plugins_spec}
use k8s_opencode.Operator.DeepCopy.Servers.{mcp_spec, skills_spec}

module _ (l : Library) where
  abbrev C : Type 0
  C = Cell l.go l.Contents

  -- An OpenCodeWorkspaceSpec: the parts that hold references, in the order of their fields.
  unfoldable pub deep_copy_into_workspace_spec :
      WorkspaceSpecOf (references l.go) → Heap C → WorkspaceSpecOf (references l.go) × Heap C
  deep_copy_into_workspace_spec v h =
      let resources = l.resources.deep_copy_into v.resources h in
      let storage = (storage_spec l).deep_copy_into v.storage resources.1 in
      let tailscale = (tailscale_spec l).deep_copy_into v.tailscale storage.1 in
      let kubedock = (kubedock_spec l).deep_copy_into v.kubedock tailscale.1 in
      let plugins = (plugins_spec l).deep_copy_into v.plugins kubedock.1 in
      let mcp = (mcp_spec l).deep_copy_into v.mcp plugins.1 in
      let skills = (skills_spec l).deep_copy_into v.skills mcp.1 in
      (
        record v {
          resources = resources.0;
          storage = storage.0;
          tailscale = tailscale.0;
          kubedock = kubedock.0;
          plugins = plugins.0;
          mcp = mcp.0;
          skills = skills.0;
        },
        skills.1,
      )

  abbrev pub workspace_spec :
      Copier C (WorkspaceSpecOf (references l.go)) (WorkspaceSpecOf (values l.meant))
  workspace_spec = record {
    deep_copy_into = deep_copy_into_workspace_spec;
    stands = λ lo hi h v a.
        ((v.email ≡ a.email
            × v.namespace_prefix ≡ a.namespace_prefix
            × v.providers ≡ a.providers
            × v.server_password ≡ a.server_password)
          × (l.resources.stands lo hi h v.resources a.resources
              × ((storage_spec l).stands lo hi h v.storage a.storage
                  × ((tailscale_spec l).stands lo hi h v.tailscale a.tailscale
                      × ((kubedock_spec l).stands lo hi h v.kubedock a.kubedock
                          × ((plugins_spec l).stands lo hi h v.plugins a.plugins
                              × ((mcp_spec l).stands lo hi h v.mcp a.mcp
                                  × (skills_spec l).stands lo hi h v.skills a.skills)))))));
  }

  abbrev pub deep_copy_workspace_spec :
      Option (WorkspaceSpecOf (references l.go))
      → Heap C
      → Option (WorkspaceSpecOf (references l.go)) × Heap C
  deep_copy_workspace_spec = deep_copy deep_copy_into_workspace_spec

  abbrev pub condition_slice : Copier C (Option ℕ) (Option (List l.meant.Condition))
  condition_slice = reference conditions to_conditions (elements l.condition)

  -- An OpenCodeWorkspaceStatus: the conditions.
  unfoldable pub deep_copy_into_workspace_status :
      WorkspaceStatusOf (references l.go) → Heap C → WorkspaceStatusOf (references l.go) × Heap C
  deep_copy_into_workspace_status v h =
      let conditions = condition_slice.deep_copy_into v.conditions h in
      (record v { conditions = conditions.0 }, conditions.1)

  abbrev pub workspace_status :
      Copier C (WorkspaceStatusOf (references l.go)) (WorkspaceStatusOf (values l.meant))
  workspace_status = record {
    deep_copy_into = deep_copy_into_workspace_status;
    stands = λ lo hi h v a.
        ((v.phase ≡ a.phase
            × v.namespace ≡ a.namespace
            × v.ingress_hostname ≡ a.ingress_hostname
            × v.message ≡ a.message
            × v.acl_snippet ≡ a.acl_snippet)
          × condition_slice.stands lo hi h v.conditions a.conditions);
  }

  abbrev pub deep_copy_workspace_status :
      Option (WorkspaceStatusOf (references l.go))
      → Heap C
      → Option (WorkspaceStatusOf (references l.go)) × Heap C
  deep_copy_workspace_status = deep_copy deep_copy_into_workspace_status

  -- An OpenCodeWorkspace: the metadata, the spec and the status.
  unfoldable pub deep_copy_into_workspace :
      WorkspaceOf (references l.go) → Heap C → WorkspaceOf (references l.go) × Heap C
  deep_copy_into_workspace v h =
      let object_meta = l.object_meta.deep_copy_into v.object_meta h in
      let spec = workspace_spec.deep_copy_into v.spec object_meta.1 in
      let status = workspace_status.deep_copy_into v.status spec.1 in
      (record v { object_meta = object_meta.0; spec = spec.0; status = status.0 }, status.1)

  abbrev pub workspace : Copier C (WorkspaceOf (references l.go)) (WorkspaceOf (values l.meant))
  workspace = record {
    deep_copy_into = deep_copy_into_workspace;
    stands = λ lo hi h v a.
        ((v.type_meta ≡ a.type_meta)
          × (l.object_meta.stands lo hi h v.object_meta a.object_meta
              × (workspace_spec.stands lo hi h v.spec a.spec
                  × workspace_status.stands lo hi h v.status a.status)));
  }

  abbrev pub deep_copy_workspace :
      Option (WorkspaceOf (references l.go))
      → Heap C
      → Option (WorkspaceOf (references l.go)) × Heap C
  deep_copy_workspace = deep_copy deep_copy_into_workspace

  abbrev pub workspace_slice : Copier C (Option ℕ) (Option (List (WorkspaceOf (values l.meant))))
  workspace_slice = reference workspaces to_workspaces (elements workspace)

  -- An OpenCodeWorkspaceList: the metadata, then the items with what they refer to.
  unfoldable pub deep_copy_into_workspace_list :
      WorkspaceListOf (references l.go) → Heap C → WorkspaceListOf (references l.go) × Heap C
  deep_copy_into_workspace_list v h =
      let list_meta = l.list_meta.deep_copy_into v.list_meta h in
      let items = workspace_slice.deep_copy_into v.items list_meta.1 in
      (record v { list_meta = list_meta.0; items = items.0 }, items.1)

  abbrev pub workspace_list :
      Copier C (WorkspaceListOf (references l.go)) (WorkspaceListOf (values l.meant))
  workspace_list = record {
    deep_copy_into = deep_copy_into_workspace_list;
    stands = λ lo hi h v a.
        ((v.type_meta ≡ a.type_meta)
          × (l.list_meta.stands lo hi h v.list_meta a.list_meta
              × workspace_slice.stands lo hi h v.items a.items));
  }

  abbrev pub deep_copy_workspace_list :
      Option (WorkspaceListOf (references l.go))
      → Heap C
      → Option (WorkspaceListOf (references l.go)) × Heap C
  deep_copy_workspace_list = deep_copy deep_copy_into_workspace_list

  -- A runtime.Object: nil, or a workspace or a list of them.
  pub data RuntimeObject : Type 0 where
    nothing : RuntimeObject
    a_workspace : WorkspaceOf (references l.go) → RuntimeObject
    a_workspace_list : WorkspaceListOf (references l.go) → RuntimeObject

  -- `if c := in.DeepCopy(); c != nil { return c }; return nil`
  abbrev pub object_of : {V : Type 0} → (V → RuntimeObject) → Option V → RuntimeObject
  object_of make none = nothing
  object_of make (some v) = make v

  abbrev pub deep_copy_object :
      Option (WorkspaceOf (references l.go)) → Heap C → RuntimeObject × Heap C
  deep_copy_object v h = let c = deep_copy_workspace v h in (object_of a_workspace c.0, c.1)

  abbrev pub deep_copy_object_list :
      Option (WorkspaceListOf (references l.go)) → Heap C → RuntimeObject × Heap C
  deep_copy_object_list v h =
      let c = deep_copy_workspace_list v h in (object_of a_workspace_list c.0, c.1)
