-- ===== src/Operator/DeepCopy/Deep.antt =====
-- The generated copies of the structs that hold references are deep copies.
use k8s_opencode.Common.{refl, ◌≡◌}
use k8s_opencode.Operator.DeepCopy.Heap.{IsDeep, flat-IsDeep, pair, pair-IsDeep}
use k8s_opencode.Operator.DeepCopy.Slices.{elements-IsDeep, reference-IsDeep}
use k8s_opencode.Operator.DeepCopy.Types.{
  Layout, references, values, EgressSpecOf, TailscaleSpecOf, StorageSpecOf, KubedockSpecOf,
  PluginsSpecOf, RemoteMcpServerOf, McpSpecOf, SkillsSpecOf, WorkspaceSpecOf, WorkspaceStatusOf,
  WorkspaceOf, WorkspaceListOf,
}
use k8s_opencode.Operator.DeepCopy.Structs.{struct-IsDeep}
use k8s_opencode.Operator.DeepCopy.Cells.{
  Library, IsLibrary, strings, to_strings, ports, to_ports, laptops, to_laptops, remotes,
  to_remotes, raws, to_raws, conditions, to_conditions, workspaces, to_workspaces, entries_of,
  to_entries, oauth_cell, to_oauth, string_slice, port_slice, laptop_slice, string_map,
  oauth_pointer,
}
use k8s_opencode.Operator.DeepCopy.Specs.{
  deep_copy_into_egress_spec, egress_spec, deep_copy_into_tailscale_spec, tailscale_spec,
  deep_copy_into_storage_spec, storage_spec, deep_copy_into_kubedock_spec, kubedock_spec,
  deep_copy_into_plugins_spec, plugins_spec,
}
use k8s_opencode.Operator.DeepCopy.Servers.{
  remote_slice, raw_slice, deep_copy_into_remote_mcp_server, remote_mcp_server,
  deep_copy_into_mcp_spec, mcp_spec, deep_copy_into_skills_spec, skills_spec,
}
use k8s_opencode.Operator.DeepCopy.Workspaces.{
  condition_slice, workspace_slice, deep_copy_into_workspace_spec, workspace_spec,
  deep_copy_into_workspace_status, workspace_status, deep_copy_into_workspace, workspace,
  deep_copy_into_workspace_list, workspace_list,
}

module _ (l : Library) (d : IsLibrary l) where
  abbrev go : Layout
  go = references l.go

  abbrev meant : Layout
  meant = values l.meant

  string_slice-IsDeep : IsDeep (string_slice l)
  string_slice-IsDeep =
      reference-IsDeep strings to_strings _ (λ v. refl) (elements-IsDeep _ (flat-IsDeep _))

  port_slice-IsDeep : IsDeep (port_slice l)
  port_slice-IsDeep =
      reference-IsDeep ports to_ports _ (λ v. refl) (elements-IsDeep _ (flat-IsDeep _))

  laptop_slice-IsDeep : IsDeep (laptop_slice l)
  laptop_slice-IsDeep =
      reference-IsDeep laptops to_laptops _ (λ v. refl) (elements-IsDeep _ (flat-IsDeep _))

  string_map-IsDeep : IsDeep (string_map l)
  string_map-IsDeep = reference-IsDeep entries_of to_entries _ (λ v. refl) (flat-IsDeep _)

  oauth_pointer-IsDeep : IsDeep (oauth_pointer l)
  oauth_pointer-IsDeep = reference-IsDeep oauth_cell to_oauth _ (λ v. refl) (flat-IsDeep _)

  pub egress_spec-IsDeep : IsDeep (egress_spec l)
  unfolding deep_copy_into_egress_spec
  egress_spec-IsDeep =
      struct-IsDeep {V = EgressSpecOf go} {A = EgressSpecOf meant}
        (pair (port_slice l) (string_slice l)) (λ v. (v.mcp_ports, v.tags))
        (λ v w. record v { mcp_ports = w.0; tags = w.1 }) (λ a. (a.mcp_ports, a.tags))
        (λ v a. v.enabled ≡ a.enabled × v.laptop_hostname ≡ a.laptop_hostname) (λ v w. refl)
        (λ v w a e. e) (pair-IsDeep _ _ port_slice-IsDeep string_slice-IsDeep)

  pub tailscale_spec-IsDeep : IsDeep (tailscale_spec l)
  unfolding deep_copy_into_tailscale_spec
  tailscale_spec-IsDeep =
      struct-IsDeep {V = TailscaleSpecOf go} {A = TailscaleSpecOf meant}
        (pair (string_slice l) (egress_spec l)) (λ v. (v.ingress_tags, v.egress))
        (λ v w. record v { ingress_tags = w.0; egress = w.1 }) (λ a. (a.ingress_tags, a.egress))
        (λ v a. Unit) (λ v w. refl) (λ v w a e. e)
        (pair-IsDeep _ _ string_slice-IsDeep egress_spec-IsDeep)

  pub storage_spec-IsDeep : IsDeep (storage_spec l)
  unfolding deep_copy_into_storage_spec
  storage_spec-IsDeep =
      struct-IsDeep {V = StorageSpecOf go} {A = StorageSpecOf meant} (pair l.quantity l.quantity)
        (λ v. (v.workspace, v.data_size)) (λ v w. record v { workspace = w.0; data_size = w.1 })
        (λ a. (a.workspace, a.data_size)) (λ v a. v.storage_class_name ≡ a.storage_class_name)
        (λ v w. refl) (λ v w a e. e) (pair-IsDeep _ _ d.quantity d.quantity)

  pub kubedock_spec-IsDeep : IsDeep (kubedock_spec l)
  unfolding deep_copy_into_kubedock_spec
  kubedock_spec-IsDeep =
      struct-IsDeep {V = KubedockSpecOf go} {A = KubedockSpecOf meant} l.resources
        (λ v. v.resources) (λ v w. record v { resources = w }) (λ a. a.resources)
        (λ v a. v.enabled ≡ a.enabled) (λ v w. refl) (λ v w a e. e) d.resources

  pub plugins_spec-IsDeep : IsDeep (plugins_spec l)
  unfolding deep_copy_into_plugins_spec
  plugins_spec-IsDeep =
      struct-IsDeep {V = PluginsSpecOf go} {A = PluginsSpecOf meant} (string_slice l) (λ v. v.npm)
        (λ v w. record v { npm = w }) (λ a. a.npm) (λ v a. v.enabled ≡ a.enabled) (λ v w. refl)
        (λ v w a e. e) string_slice-IsDeep

  pub remote_mcp_server-IsDeep : IsDeep (remote_mcp_server l)
  unfolding deep_copy_into_remote_mcp_server
  remote_mcp_server-IsDeep =
      struct-IsDeep {V = RemoteMcpServerOf go} {A = RemoteMcpServerOf meant}
        (pair (string_map l) (oauth_pointer l)) (λ v. (v.headers, v.oauth))
        (λ v w. record v { headers = w.0; oauth = w.1 }) (λ a. (a.headers, a.oauth))
        (λ v a. v.name ≡ a.name × v.url ≡ a.url × v.enabled ≡ a.enabled) (λ v w. refl)
        (λ v w a e. e) (pair-IsDeep _ _ string_map-IsDeep oauth_pointer-IsDeep)

  remote_slice-IsDeep : IsDeep (remote_slice l)
  remote_slice-IsDeep =
      reference-IsDeep remotes to_remotes _ (λ v. refl) (elements-IsDeep _ remote_mcp_server-IsDeep)

  pub mcp_spec-IsDeep : IsDeep (mcp_spec l)
  unfolding deep_copy_into_mcp_spec
  mcp_spec-IsDeep =
      struct-IsDeep {V = McpSpecOf go} {A = McpSpecOf meant}
        (pair (remote_slice l) (laptop_slice l)) (λ v. (v.remote, v.laptop_servers))
        (λ v w. record v { remote = w.0; laptop_servers = w.1 }) (λ a. (a.remote, a.laptop_servers))
        (λ v a. Unit) (λ v w. refl) (λ v w a e. e)
        (pair-IsDeep _ _ remote_slice-IsDeep laptop_slice-IsDeep)

  raw_slice-IsDeep : IsDeep (raw_slice l)
  raw_slice-IsDeep = reference-IsDeep raws to_raws _ (λ v. refl) (elements-IsDeep _ d.raw_extension)

  pub skills_spec-IsDeep : IsDeep (skills_spec l)
  unfolding deep_copy_into_skills_spec
  skills_spec-IsDeep =
      struct-IsDeep {V = SkillsSpecOf go} {A = SkillsSpecOf meant}
        (pair (string_slice l) (raw_slice l)) (λ v. (v.npm, v.config))
        (λ v w. record v { npm = w.0; config = w.1 }) (λ a. (a.npm, a.config)) (λ v a. Unit)
        (λ v w. refl) (λ v w a e. e) (pair-IsDeep _ _ string_slice-IsDeep raw_slice-IsDeep)

  pub workspace_spec-IsDeep : IsDeep (workspace_spec l)
  unfolding deep_copy_into_workspace_spec
  workspace_spec-IsDeep =
      struct-IsDeep {V = WorkspaceSpecOf go} {A = WorkspaceSpecOf meant}
        (pair l.resources (
          pair (storage_spec l) (
            pair (tailscale_spec l) (
              pair (kubedock_spec l) (pair (plugins_spec l) (pair (mcp_spec l) (skills_spec l)))))))
        (λ v.
          (v.resources, (v.storage, (v.tailscale, (v.kubedock, (v.plugins, (v.mcp, v.skills)))))))
        (λ v w. record v {
          resources = w.0;
          storage = w.1.0;
          tailscale = w.1.1.0;
          kubedock = w.1.1.1.0;
          plugins = w.1.1.1.1.0;
          mcp = w.1.1.1.1.1.0;
          skills = w.1.1.1.1.1.1;
        })
        (λ a.
          (a.resources, (a.storage, (a.tailscale, (a.kubedock, (a.plugins, (a.mcp, a.skills)))))))
        (λ v a.
          v.email ≡ a.email
          × v.namespace_prefix ≡ a.namespace_prefix
          × v.providers ≡ a.providers
          × v.server_password ≡ a.server_password)
        (λ v w. refl) (λ v w a e. e)
        (pair-IsDeep _ _ d.resources (
          pair-IsDeep _ _ storage_spec-IsDeep (
            pair-IsDeep _ _ tailscale_spec-IsDeep (
              pair-IsDeep _ _ kubedock_spec-IsDeep (
                pair-IsDeep _ _ plugins_spec-IsDeep
                  (pair-IsDeep _ _ mcp_spec-IsDeep skills_spec-IsDeep))))))

  condition_slice-IsDeep : IsDeep (condition_slice l)
  condition_slice-IsDeep =
      reference-IsDeep conditions to_conditions _ (λ v. refl) (elements-IsDeep _ d.condition)

  pub workspace_status-IsDeep : IsDeep (workspace_status l)
  unfolding deep_copy_into_workspace_status
  workspace_status-IsDeep =
      struct-IsDeep {V = WorkspaceStatusOf go} {A = WorkspaceStatusOf meant} (condition_slice l)
        (λ v. v.conditions) (λ v w. record v { conditions = w }) (λ a. a.conditions)
        (λ v a.
          v.phase ≡ a.phase
          × v.namespace ≡ a.namespace
          × v.ingress_hostname ≡ a.ingress_hostname
          × v.message ≡ a.message
          × v.acl_snippet ≡ a.acl_snippet)
        (λ v w. refl) (λ v w a e. e) condition_slice-IsDeep

  pub workspace-IsDeep : IsDeep (workspace l)
  unfolding deep_copy_into_workspace
  workspace-IsDeep =
      struct-IsDeep {V = WorkspaceOf go} {A = WorkspaceOf meant}
        (pair l.object_meta (pair (workspace_spec l) (workspace_status l)))
        (λ v. (v.object_meta, (v.spec, v.status)))
        (λ v w. record v { object_meta = w.0; spec = w.1.0; status = w.1.1 })
        (λ a. (a.object_meta, (a.spec, a.status))) (λ v a. v.type_meta ≡ a.type_meta) (λ v w. refl)
        (λ v w a e. e)
        (pair-IsDeep _ _ d.object_meta
          (pair-IsDeep _ _ workspace_spec-IsDeep workspace_status-IsDeep))

  workspace_slice-IsDeep : IsDeep (workspace_slice l)
  workspace_slice-IsDeep =
      reference-IsDeep workspaces to_workspaces _ (λ v. refl) (elements-IsDeep _ workspace-IsDeep)

  pub workspace_list-IsDeep : IsDeep (workspace_list l)
  unfolding deep_copy_into_workspace_list
  workspace_list-IsDeep =
      struct-IsDeep {V = WorkspaceListOf go} {A = WorkspaceListOf meant}
        (pair l.list_meta (workspace_slice l)) (λ v. (v.list_meta, v.items))
        (λ v w. record v { list_meta = w.0; items = w.1 }) (λ a. (a.list_meta, a.items))
        (λ v a. v.type_meta ≡ a.type_meta) (λ v w. refl) (λ v w a e. e)
        (pair-IsDeep _ _ d.list_meta workspace_slice-IsDeep)
