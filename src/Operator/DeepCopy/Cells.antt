-- ===== src/Operator/DeepCopy/Cells.antt =====
-- What the addresses of a workspace hold, and the deep copies of the libraries that a workspace's
-- types come from.
use k8s_opencode.Common.{ℕ, String, Option, none, some, List}
use k8s_opencode.Common.Dict.{Dict}
use k8s_opencode.Operator.Api.{McpPort, LaptopMcpServer, McpOauthConfig}
use k8s_opencode.Operator.DeepCopy.Heap.{Copier, IsDeep, flat}
use k8s_opencode.Operator.DeepCopy.Slices.{elements, reference}
use k8s_opencode.Operator.DeepCopy.Types.{Parts, references, RemoteMcpServerOf, WorkspaceOf}

-- The elements of a slice, the entries of a map, or a struct; `foreign` is what a library's value
-- refers to.
pub data Cell (p : Parts) (X : Type 0) : Type 0 where
  strings : List String → Cell p X
  ports : List McpPort → Cell p X
  laptops : List LaptopMcpServer → Cell p X
  remotes : List (RemoteMcpServerOf (references p)) → Cell p X
  entries_of : Dict String → Cell p X
  oauth_cell : McpOauthConfig → Cell p X
  raws : List p.RawExtension → Cell p X
  conditions : List p.Condition → Cell p X
  workspaces : List (WorkspaceOf (references p)) → Cell p X
  foreign : X → Cell p X

-- The DeepCopy and DeepCopyInto of resource.Quantity, corev1.ResourceRequirements,
-- metav1.ObjectMeta, metav1.ListMeta, runtime.RawExtension and metav1.Condition.
pub record Library : Type 1 where
  pub go : Parts
  pub meant : Parts
  pub Contents : Type 0
  pub quantity : Copier (Cell go Contents) go.Quantity meant.Quantity
  pub resources : Copier (Cell go Contents) go.ResourceRequirements meant.ResourceRequirements
  pub object_meta : Copier (Cell go Contents) go.ObjectMeta meant.ObjectMeta
  pub list_meta : Copier (Cell go Contents) go.ListMeta meant.ListMeta
  pub raw_extension : Copier (Cell go Contents) go.RawExtension meant.RawExtension
  pub condition : Copier (Cell go Contents) go.Condition meant.Condition

-- Each is documented to be a deep copy.
pub record IsLibrary (l : Library) : Type 0 where
  pub quantity : IsDeep l.quantity
  pub resources : IsDeep l.resources
  pub object_meta : IsDeep l.object_meta
  pub list_meta : IsDeep l.list_meta
  pub raw_extension : IsDeep l.raw_extension
  pub condition : IsDeep l.condition

module _ {p : Parts} {X : Type 0} where
  abbrev pub to_strings : Cell p X → Option (List String)
  to_strings (strings s) = some s
  to_strings c = none

  abbrev pub to_ports : Cell p X → Option (List McpPort)
  to_ports (ports s) = some s
  to_ports c = none

  abbrev pub to_laptops : Cell p X → Option (List LaptopMcpServer)
  to_laptops (laptops s) = some s
  to_laptops c = none

  abbrev pub to_remotes : Cell p X → Option (List (RemoteMcpServerOf (references p)))
  to_remotes (remotes s) = some s
  to_remotes c = none

  abbrev pub to_entries : Cell p X → Option (Dict String)
  to_entries (entries_of s) = some s
  to_entries c = none

  abbrev pub to_oauth : Cell p X → Option McpOauthConfig
  to_oauth (oauth_cell s) = some s
  to_oauth c = none

  abbrev pub to_raws : Cell p X → Option (List p.RawExtension)
  to_raws (raws s) = some s
  to_raws c = none

  abbrev pub to_conditions : Cell p X → Option (List p.Condition)
  to_conditions (conditions s) = some s
  to_conditions c = none

  abbrev pub to_workspaces : Cell p X → Option (List (WorkspaceOf (references p)))
  to_workspaces (workspaces s) = some s
  to_workspaces c = none

-- References to slices of structs without references, to a map of strings and to such a struct.
module _ (l : Library) where
  abbrev C : Type 0
  C = Cell l.go l.Contents

  abbrev pub string_slice : Copier C (Option ℕ) (Option (List String))
  string_slice = reference strings to_strings (elements (flat String))

  abbrev pub port_slice : Copier C (Option ℕ) (Option (List McpPort))
  port_slice = reference ports to_ports (elements (flat McpPort))

  abbrev pub laptop_slice : Copier C (Option ℕ) (Option (List LaptopMcpServer))
  laptop_slice = reference laptops to_laptops (elements (flat LaptopMcpServer))

  abbrev pub string_map : Copier C (Option ℕ) (Option (Dict String))
  string_map = reference entries_of to_entries (flat (Dict String))

  abbrev pub oauth_pointer : Copier C (Option ℕ) (Option McpOauthConfig)
  oauth_pointer = reference oauth_cell to_oauth (flat McpOauthConfig)
