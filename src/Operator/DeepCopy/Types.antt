-- ===== src/Operator/DeepCopy/Types.antt =====
-- The types of operator/api/v1alpha1/opencodeworkspace_types.go with what their values refer to: a
-- slice, a map and a pointer by how a layout has them.
use k8s_opencode.Common.{ℕ, String, Bool, Option, List}
use k8s_opencode.Common.Dict.{Dict}
use k8s_opencode.Operator.Api.{McpPort, LaptopMcpServer, McpOauthConfig, ProvidersSpec}

-- Types of apimachinery and of the core API.
pub record Parts : Type 1 where
  pub Quantity : Type 0
  pub ResourceRequirements : Type 0
  pub ObjectMeta : Type 0
  pub ListMeta : Type 0
  pub RawExtension : Type 0
  pub Condition : Type 0

pub record Layout : Type 1 where
  pub parts : Parts
  pub slice : Type 0 → Type 0
  pub pointer : Type 0 → Type 0
  pub map_of : Type 0 → Type 0

-- Go values: a slice, a map or a pointer is nil or an address.
abbrev pub references : Parts → Layout
references p = record {
  parts = p;
  slice = λ A. Option ℕ;
  pointer = λ A. Option ℕ;
  map_of = λ A. Option ℕ;
}

-- What they stand for.
abbrev pub values : Parts → Layout
values p = record {
  parts = p;
  slice = λ A. Option (List A);
  pointer = λ A. Option A;
  map_of = λ A. Option (Dict A);
}

pub record TypeMeta : Type 0 where
  pub kind : String
  pub api_version : String

module _ (l : Layout) where
  pub record StorageSpecOf : Type 0 where
    pub workspace : l.parts.Quantity
    pub data_size : l.parts.Quantity
    pub storage_class_name : String

  pub record EgressSpecOf : Type 0 where
    pub enabled : Bool
    pub laptop_hostname : String
    pub mcp_ports : l.slice McpPort
    pub tags : l.slice String

  pub record TailscaleSpecOf : Type 0 where
    pub ingress_tags : l.slice String
    pub egress : EgressSpecOf

  pub record KubedockSpecOf : Type 0 where
    pub enabled : Bool
    pub resources : l.parts.ResourceRequirements

  pub record PluginsSpecOf : Type 0 where
    pub enabled : Bool
    pub npm : l.slice String

  pub record RemoteMcpServerOf : Type 0 where
    pub name : String
    pub url : String
    pub enabled : Bool
    pub headers : l.map_of String
    pub oauth : l.pointer McpOauthConfig

  pub record McpSpecOf : Type 0 where
    pub remote : l.slice RemoteMcpServerOf
    pub laptop_servers : l.slice LaptopMcpServer

  pub record SkillsSpecOf : Type 0 where
    pub npm : l.slice String
    pub config : l.slice l.parts.RawExtension

  pub record WorkspaceSpecOf : Type 0 where
    pub email : String
    pub namespace_prefix : String
    pub providers : ProvidersSpec
    pub resources : l.parts.ResourceRequirements
    pub storage : StorageSpecOf
    pub tailscale : TailscaleSpecOf
    pub kubedock : KubedockSpecOf
    pub server_password : String
    pub plugins : PluginsSpecOf
    pub mcp : McpSpecOf
    pub skills : SkillsSpecOf

  pub record WorkspaceStatusOf : Type 0 where
    pub phase : String
    pub namespace : String
    pub ingress_hostname : String
    pub message : String
    pub acl_snippet : String
    pub conditions : l.slice l.parts.Condition

  pub record WorkspaceOf : Type 0 where
    pub type_meta : TypeMeta
    pub object_meta : l.parts.ObjectMeta
    pub spec : WorkspaceSpecOf
    pub status : WorkspaceStatusOf

  pub record WorkspaceListOf : Type 0 where
    pub type_meta : TypeMeta
    pub list_meta : l.parts.ListMeta
    pub items : l.slice WorkspaceOf
