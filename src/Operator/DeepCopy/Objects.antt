-- ===== src/Operator/DeepCopy/Objects.antt =====
-- DeepCopyObject of a workspace and of a list of workspaces.
use k8s_opencode.Common.{◌≡◌, refl, some}
use k8s_opencode.Operator.DeepCopy.Heap.{Heap}
use k8s_opencode.Operator.DeepCopy.Types.{references, values, WorkspaceOf, WorkspaceListOf}
use k8s_opencode.Operator.DeepCopy.Cells.{Cell, Library, IsLibrary}
use k8s_opencode.Operator.DeepCopy.Workspaces.{
  workspace, workspace_list, a_workspace, a_workspace_list, deep_copy_object, deep_copy_object_list,
  deep_copy_into_workspace, deep_copy_into_workspace_list,
}
use k8s_opencode.Operator.DeepCopy.Deep.{workspace-IsDeep, workspace_list-IsDeep}
use k8s_opencode.Operator.DeepCopy.Independent.{IsIndependent, IsDeep-IsIndependent}

module _ (l : Library) (d : IsLibrary l) where
  abbrev C : Type 0
  C = Cell l.go l.Contents

  -- Of libraries whose copies are deep: let a workspace `v` stand for `a` in `h`, that is, have all that
  -- it refers to in use there and making up `a`. Then DeepCopyObject returns a workspace that stands for
  -- `a` too; the original still does; and each of the two still stands for `a` after any writes to
  -- memory that was in use before the copy (for the copy) or was not (for the original).
  pub deep_copy_object-IsIndependent :
      (h : Heap C) (v : WorkspaceOf (references l.go)) (a : WorkspaceOf (values l.meant))
      → (workspace l).stands 0 h.next h v a
      → (v' : WorkspaceOf (references l.go)) × (h' : Heap C) × (deep_copy_object l (some v) h
          ≡ (a_workspace v', h'))
        × IsIndependent (workspace l) h h' v v' a
  deep_copy_object-IsIndependent h v a e = (
    (deep_copy_into_workspace l v h).0,
    (deep_copy_into_workspace l v h).1,
    refl,
    IsDeep-IsIndependent (workspace l) (workspace-IsDeep l d) h v a e,
  )

  -- The same of a list of workspaces, with all that its items refer to.
  pub deep_copy_object_list-IsIndependent :
      (h : Heap C) (v : WorkspaceListOf (references l.go)) (a : WorkspaceListOf (values l.meant))
      → (workspace_list l).stands 0 h.next h v a
      → (v' : WorkspaceListOf (references l.go)) × (h' : Heap C) × (deep_copy_object_list l
            (some v)
            h
          ≡ (a_workspace_list v', h'))
        × IsIndependent (workspace_list l) h h' v v' a
  deep_copy_object_list-IsIndependent h v a e = (
    (deep_copy_into_workspace_list l v h).0,
    (deep_copy_into_workspace_list l v h).1,
    refl,
    IsDeep-IsIndependent (workspace_list l) (workspace_list-IsDeep l d) h v a e,
  )
