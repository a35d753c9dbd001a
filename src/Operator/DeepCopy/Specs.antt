-- ===== src/Operator/DeepCopy/Specs.antt =====
-- The generated functions for the parts of a workspace's spec that hold references.
use k8s_opencode.Common.{Option, ◌≡◌}
use k8s_opencode.Operator.DeepCopy.Heap.{Heap, Copier}
use k8s_opencode.Operator.DeepCopy.Types.{
  references, values, StorageSpecOf, EgressSpecOf, TailscaleSpecOf, KubedockSpecOf, PluginsSpecOf,
}
use k8s_opencode.Operator.DeepCopy.Cells.{Cell, Library, string_slice, port_slice}
use k8s_opencode.Operator.DeepCopy.Plain.{deep_copy}

module _ (l : Library) where
  abbrev C : Type 0
  C = Cell l.go l.Contents

  -- An EgressSpec: the ports, then the tags.
  unfoldable pub deep_copy_into_egress_spec :
      EgressSpecOf (references l.go) → Heap C → EgressSpecOf (references l.go) × Heap C
  deep_copy_into_egress_spec v h =
      let mcp_ports = (port_slice l).deep_copy_into v.mcp_ports h in
      let tags = (string_slice l).deep_copy_into v.tags mcp_ports.1 in
      (record v { mcp_ports = mcp_ports.0; tags = tags.0 }, tags.1)

  abbrev pub egress_spec : Copier C (EgressSpecOf (references l.go)) (EgressSpecOf (values l.meant))
  egress_spec = record {
    deep_copy_into = deep_copy_into_egress_spec;
    stands = λ lo hi h v a.
        ((v.enabled ≡ a.enabled × v.laptop_hostname ≡ a.laptop_hostname)
          × ((port_slice l).stands lo hi h v.mcp_ports a.mcp_ports
              × (string_slice l).stands lo hi h v.tags a.tags));
  }

  abbrev pub deep_copy_egress_spec :
      Option (EgressSpecOf (references l.go))
      → Heap C
      → Option (EgressSpecOf (references l.go)) × Heap C
  deep_copy_egress_spec = deep_copy deep_copy_into_egress_spec

  -- A TailscaleSpec: the tags of the ingress, then the egress.
  unfoldable pub deep_copy_into_tailscale_spec :
      TailscaleSpecOf (references l.go) → Heap C → TailscaleSpecOf (references l.go) × Heap C
  deep_copy_into_tailscale_spec v h =
      let ingress_tags = (string_slice l).deep_copy_into v.ingress_tags h in
      let egress = egress_spec.deep_copy_into v.egress ingress_tags.1 in
      (record v { ingress_tags = ingress_tags.0; egress = egress.0 }, egress.1)

  abbrev pub tailscale_spec :
      Copier C (TailscaleSpecOf (references l.go)) (TailscaleSpecOf (values l.meant))
  tailscale_spec = record {
    deep_copy_into = deep_copy_into_tailscale_spec;
    stands = λ lo hi h v a.
        ((Unit)
          × ((string_slice l).stands lo hi h v.ingress_tags a.ingress_tags
              × egress_spec.stands lo hi h v.egress a.egress));
  }

  abbrev pub deep_copy_tailscale_spec :
      Option (TailscaleSpecOf (references l.go))
      → Heap C
      → Option (TailscaleSpecOf (references l.go)) × Heap C
  deep_copy_tailscale_spec = deep_copy deep_copy_into_tailscale_spec

  -- A StorageSpec: the two quantities.
  unfoldable pub deep_copy_into_storage_spec :
      StorageSpecOf (references l.go) → Heap C → StorageSpecOf (references l.go) × Heap C
  deep_copy_into_storage_spec v h =
      let workspace = l.quantity.deep_copy_into v.workspace h in
      let data_size = l.quantity.deep_copy_into v.data_size workspace.1 in
      (record v { workspace = workspace.0; data_size = data_size.0 }, data_size.1)

  abbrev pub storage_spec :
      Copier C (StorageSpecOf (references l.go)) (StorageSpecOf (values l.meant))
  storage_spec = record {
    deep_copy_into = deep_copy_into_storage_spec;
    stands = λ lo hi h v a.
        ((v.storage_class_name ≡ a.storage_class_name)
          × (l.quantity.stands lo hi h v.workspace a.workspace
              × l.quantity.stands lo hi h v.data_size a.data_size));
  }

  abbrev pub deep_copy_storage_spec :
      Option (StorageSpecOf (references l.go))
      → Heap C
      → Option (StorageSpecOf (references l.go)) × Heap C
  deep_copy_storage_spec = deep_copy deep_copy_into_storage_spec

  -- A KubedockSpec: its resources.
  unfoldable pub deep_copy_into_kubedock_spec :
      KubedockSpecOf (references l.go) → Heap C → KubedockSpecOf (references l.go) × Heap C
  deep_copy_into_kubedock_spec v h =
      let resources = l.resources.deep_copy_into v.resources h in
      (record v { resources = resources.0 }, resources.1)

  abbrev pub kubedock_spec :
      Copier C (KubedockSpecOf (references l.go)) (KubedockSpecOf (values l.meant))
  kubedock_spec = record {
    deep_copy_into = deep_copy_into_kubedock_spec;
    stands = λ lo hi h v a.
        ((v.enabled ≡ a.enabled) × l.resources.stands lo hi h v.resources a.resources);
  }

  abbrev pub deep_copy_kubedock_spec :
      Option (KubedockSpecOf (references l.go))
      → Heap C
      → Option (KubedockSpecOf (references l.go)) × Heap C
  deep_copy_kubedock_spec = deep_copy deep_copy_into_kubedock_spec

  -- A PluginsSpec: the packages.
  unfoldable pub deep_copy_into_plugins_spec :
      PluginsSpecOf (references l.go) → Heap C → PluginsSpecOf (references l.go) × Heap C
  deep_copy_into_plugins_spec v h =
      let npm = (string_slice l).deep_copy_into v.npm h in (record v { npm = npm.0 }, npm.1)

  abbrev pub plugins_spec :
      Copier C (PluginsSpecOf (references l.go)) (PluginsSpecOf (values l.meant))
  plugins_spec = record {
    deep_copy_into = deep_copy_into_plugins_spec;
    stands = λ lo hi h v a. ((v.enabled ≡ a.enabled) × (string_slice l).stands lo hi h v.npm a.npm);
  }

  abbrev pub deep_copy_plugins_spec :
      Option (PluginsSpecOf (references l.go))
      → Heap C
      → Option (PluginsSpecOf (references l.go)) × Heap C
  deep_copy_plugins_spec = deep_copy deep_copy_into_plugins_spec
