-- ===== src/Operator/DeepCopy/Servers.antt =====
-- The generated functions for the MCP servers and the skills of a workspace's spec.
use k8s_opencode.Common.{ℕ, Option, List, ◌≡◌}
use k8s_opencode.Operator.DeepCopy.Heap.{Heap, Copier}
use k8s_opencode.Operator.DeepCopy.Slices.{elements, reference}
use k8s_opencode.Operator.DeepCopy.Types.{
  references, values, RemoteMcpServerOf, McpSpecOf, SkillsSpecOf,
}
use k8s_opencode.Operator.DeepCopy.Cells.{
  Cell, Library, remotes, to_remotes, raws, to_raws, string_slice, laptop_slice, string_map,
  oauth_pointer,
}
use k8s_opencode.Operator.DeepCopy.Plain.{deep_copy}

module _ (l : Library) where
  abbrev C : Type 0
  C = Cell l.go l.Contents

  -- A RemoteMCPServer: the map of headers, then what the pointer to the OAuth options points to.
  unfoldable pub deep_copy_into_remote_mcp_server :
      RemoteMcpServerOf (references l.go) → Heap C → RemoteMcpServerOf (references l.go) × Heap C
  deep_copy_into_remote_mcp_server v h =
      let headers = (string_map l).deep_copy_into v.headers h in
      let oauth = (oauth_pointer l).deep_copy_into v.oauth headers.1 in
      (record v { headers = headers.0; oauth = oauth.0 }, oauth.1)

  abbrev pub remote_mcp_server :
      Copier C (RemoteMcpServerOf (references l.go)) (RemoteMcpServerOf (values l.meant))
  remote_mcp_server = record {
    deep_copy_into = deep_copy_into_remote_mcp_server;
    stands = λ lo hi h v a.
        ((v.name ≡ a.name × v.url ≡ a.url × v.enabled ≡ a.enabled)
          × ((string_map l).stands lo hi h v.headers a.headers
              × (oauth_pointer l).stands lo hi h v.oauth a.oauth));
  }

  abbrev pub deep_copy_remote_mcp_server :
      Option (RemoteMcpServerOf (references l.go))
      → Heap C
      → Option (RemoteMcpServerOf (references l.go)) × Heap C
  deep_copy_remote_mcp_server = deep_copy deep_copy_into_remote_mcp_server

  abbrev pub remote_slice : Copier C (Option ℕ) (Option (List (RemoteMcpServerOf (values l.meant))))
  remote_slice = reference remotes to_remotes (elements remote_mcp_server)

  -- An MCPSpec: the remote servers with what they refer to, then those of the laptop.
  unfoldable pub deep_copy_into_mcp_spec :
      McpSpecOf (references l.go) → Heap C → McpSpecOf (references l.go) × Heap C
  deep_copy_into_mcp_spec v h =
      let remote = remote_slice.deep_copy_into v.remote h in
      let laptop_servers = (laptop_slice l).deep_copy_into v.laptop_servers remote.1 in
      (record v { remote = remote.0; laptop_servers = laptop_servers.0 }, laptop_servers.1)

  abbrev pub mcp_spec : Copier C (McpSpecOf (references l.go)) (McpSpecOf (values l.meant))
  mcp_spec = record {
    deep_copy_into = deep_copy_into_mcp_spec;
    stands = λ lo hi h v a.
        ((Unit)
          × (remote_slice.stands lo hi h v.remote a.remote
              × (laptop_slice l).stands lo hi h v.laptop_servers a.laptop_servers));
  }

  abbrev pub deep_copy_mcp_spec :
      Option (McpSpecOf (references l.go)) → Heap C → Option (McpSpecOf (references l.go)) × Heap C
  deep_copy_mcp_spec = deep_copy deep_copy_into_mcp_spec

  abbrev pub raw_slice : Copier C (Option ℕ) (Option (List l.meant.RawExtension))
  raw_slice = reference raws to_raws (elements l.raw_extension)

  -- A SkillsSpec: the packages, then the configurations.
  unfoldable pub deep_copy_into_skills_spec :
      SkillsSpecOf (references l.go) → Heap C → SkillsSpecOf (references l.go) × Heap C
  deep_copy_into_skills_spec v h =
      let npm = (string_slice l).deep_copy_into v.npm h in
      let config = raw_slice.deep_copy_into v.config npm.1 in
      (record v { npm = npm.0; config = config.0 }, config.1)

  abbrev pub skills_spec : Copier C (SkillsSpecOf (references l.go)) (SkillsSpecOf (values l.meant))
  skills_spec = record {
    deep_copy_into = deep_copy_into_skills_spec;
    stands = λ lo hi h v a.
        ((Unit)
          × ((string_slice l).stands lo hi h v.npm a.npm
              × raw_slice.stands lo hi h v.config a.config));
  }

  abbrev pub deep_copy_skills_spec :
      Option (SkillsSpecOf (references l.go))
      → Heap C
      → Option (SkillsSpecOf (references l.go)) × Heap C
  deep_copy_skills_spec = deep_copy deep_copy_into_skills_spec
