-- ===== src/Operator/Tests/Copies.antt =====
-- The theorems on deep copies, applied to a workspace with a remote server and a configuration.
use k8s_opencode.Common.{
  ℕ, zero, suc, String, Option, none, some, true, false, List, [], ◌∷◌, ◌≡◌, refl, arith,
}
use k8s_opencode.Operator.Api.{McpOauthConfig}
use k8s_opencode.Operator.DeepCopy.Heap.{Heap, Copier, flat, flat-IsDeep}
use k8s_opencode.Operator.DeepCopy.Slices.{reference, reference-IsDeep}
use k8s_opencode.Operator.DeepCopy.Types.{
  Parts, Layout, references, values, RemoteMcpServerOf, WorkspaceOf,
}
use k8s_opencode.Operator.DeepCopy.Cells.{
  Cell, Library, IsLibrary, remotes, entries_of, string_map, raws, foreign, workspaces,
}
use k8s_opencode.Operator.DeepCopy.Workspaces.{
  workspace_spec, workspace, a_workspace, deep_copy_object,
}
use k8s_opencode.Operator.DeepCopy.Servers.{remote_slice, raw_slice}
use k8s_opencode.Operator.DeepCopy.Independent.{IsIndependent}
use k8s_opencode.Operator.DeepCopy.Objects.{deep_copy_object-IsIndependent}
use k8s_opencode.Operator.Tests.Fixtures.{spec}

-- All parts of the libraries are texts, but a raw extension refers to its bytes.
abbrev parts : Type 0 → Parts
parts X = record {
  Quantity = String;
  ResourceRequirements = String;
  ObjectMeta = String;
  ListMeta = String;
  RawExtension = X;
  Condition = String;
}

abbrev C : Type 0
C = Cell (parts (Option ℕ)) String

abbrev to_foreign : C → Option String
to_foreign (foreign x) = some x
to_foreign c = none

abbrev bytes : Copier C (Option ℕ) (Option String)
bytes = reference foreign to_foreign (flat String)

abbrev texts : Library
texts = record {
  go = parts (Option ℕ);
  meant = parts (Option String);
  Contents = String;
  quantity = flat String;
  resources = flat String;
  object_meta = flat String;
  list_meta = flat String;
  raw_extension = bytes;
  condition = flat String;
}

texts-IsLibrary : IsLibrary texts
texts-IsLibrary = record {
  quantity = flat-IsDeep String;
  resources = flat-IsDeep String;
  object_meta = flat-IsDeep String;
  list_meta = flat-IsDeep String;
  raw_extension =
      reference-IsDeep foreign to_foreign (flat String) (λ v. refl) (flat-IsDeep String);
  condition = flat-IsDeep String;
}

-- The workspace as a Go value, its remote servers at 1 and the headers of the one that there is at 0,
-- its configurations at 3 and the bytes of the one at 2; and what it stands for.
abbrev docs : (l : Layout) → l.map_of String → l.pointer McpOauthConfig → RemoteMcpServerOf l
docs l headers oauth = record {
  name = "docs";
  url = "https://docs.x.org";
  enabled = true;
  headers = headers;
  oauth = oauth;
}

abbrev bearer : List (String × String)
bearer = ("Authorization", "Bearer x") ∷ []

abbrev ann_value : WorkspaceOf (references texts.go)
ann_value = record {
  type_meta = record { kind = "OpenCodeWorkspace"; api_version = "opencode.ai/v1alpha1" };
  object_meta = "ann";
  spec = record {
    email = "ann@x.org";
    namespace_prefix = "oc";
    providers = spec.providers;
    resources = "1 CPU";
    storage = record { workspace = "20Gi"; data_size = "5Gi"; storage_class_name = "" };
    tailscale = record {
      ingress_tags = none;
      egress = record { enabled = false; laptop_hostname = ""; mcp_ports = none; tags = none };
    };
    kubedock = record { enabled = false; resources = "" };
    server_password = "";
    plugins = record { enabled = false; npm = none };
    mcp = record { remote = some 1; laptop_servers = none };
    skills = record { npm = none; config = some 3 };
  };
  status = record {
    phase = "Running";
    namespace = "";
    ingress_hostname = "";
    message = "";
    acl_snippet = "";
    conditions = none;
  };
}

abbrev ann_meaning : WorkspaceOf (values texts.meant)
ann_meaning = record {
  type_meta = record { kind = "OpenCodeWorkspace"; api_version = "opencode.ai/v1alpha1" };
  object_meta = "ann";
  spec = record {
    email = "ann@x.org";
    namespace_prefix = "oc";
    providers = spec.providers;
    resources = "1 CPU";
    storage = record { workspace = "20Gi"; data_size = "5Gi"; storage_class_name = "" };
    tailscale = record {
      ingress_tags = none;
      egress = record { enabled = false; laptop_hostname = ""; mcp_ports = none; tags = none };
    };
    kubedock = record { enabled = false; resources = "" };
    server_password = "";
    plugins = record { enabled = false; npm = none };
    mcp = record {
      remote = some (docs (values texts.meant) (some bearer) none ∷ []);
      laptop_servers = none;
    };
    skills = record { npm = none; config = some (some "{}" ∷ []) };
  };
  status = record {
    phase = "Running";
    namespace = "";
    ingress_hostname = "";
    message = "";
    acl_snippet = "";
    conditions = none;
  };
}

abbrev used : List C
used =
    entries_of bearer
    ∷ remotes (docs (references texts.go) (some 0) none ∷ [])
    ∷ foreign "{}"
    ∷ raws (some 2 ∷ [])
    ∷ workspaces (ann_value ∷ [])
    ∷ []

abbrev cell_at : List C → ℕ → Option C
cell_at [] p = none
cell_at (c ∷ cs) zero = some c
cell_at (c ∷ cs) (suc p) = cell_at cs p

abbrev heap : Heap C
heap = record { cells = cell_at used; next = 5 }

ann_value-stands : (workspace texts).stands 0 5 heap ann_value ann_meaning
ann_value-stands = (refl, (refl, (spec_stands, ((refl, refl, refl, refl, refl), tt))))
  where
    bearer_stands : (string_map texts).stands 0 5 heap (some 0) (some bearer)
    bearer_stands = (omega arith, omega arith, bearer, refl, refl)

    docs_stands :
        (remote_slice texts).stands 0 5 heap
          (some 1)
          (some (docs (values texts.meant) (some bearer) none ∷ []))
    docs_stands = (
      omega arith,
      omega arith,
      docs (references texts.go) (some 0) none ∷ [],
      refl,
      (((refl, refl, refl), (bearer_stands, tt)), tt),
    )

    raws_stand : (raw_slice texts).stands 0 5 heap (some 3) (some (some "{}" ∷ []))
    raws_stand = (
      omega arith,
      omega arith,
      some 2 ∷ [],
      refl,
      ((omega arith, omega arith, "{}", refl, refl), tt),
    )

    spec_stands : (workspace_spec texts).stands 0 5 heap (ann_value.spec) (ann_meaning.spec)
    spec_stands = (
      (refl, refl, refl, refl),
      (
        refl,
        (
          (refl, (refl, refl)),
          (
            (tt, (tt, ((refl, refl), (tt, tt)))),
            ((refl, refl), ((refl, tt), ((tt, (docs_stands, tt)), (tt, (tt, raws_stand))))),
          ),
        ),
      ),
    )

deep_copy_object-IsIndependent_example :
    (v' : WorkspaceOf (references texts.go)) × (h' : Heap C) × (deep_copy_object texts
        (some ann_value)
        heap
      ≡ (a_workspace v', h'))
    × IsIndependent (workspace texts) heap h' ann_value v' ann_meaning
deep_copy_object-IsIndependent_example =
    deep_copy_object-IsIndependent texts texts-IsLibrary heap ann_value ann_meaning ann_value-stands
