-- ===== src/Operator/Api.antt =====
-- operator/api/v1alpha1/opencodeworkspace_types.go: the OpenCodeWorkspace resource.
-- A slice or map that the code compares with nil is an `Option`.
use k8s_opencode.Common.{ℕ, String, Bool, Option, List}
use k8s_opencode.Common.Dict.{Dict}

-- `resource.Quantity`, by the text that it is written as.
pub record Quantity : Type 0 where
  pub text : String

-- `corev1.ResourceRequirements`, by the fields that the operator reads.
pub record ResourceRequirements : Type 0 where
  pub requests : Option (Dict Quantity)
  pub limits : Option (Dict Quantity)

pub record SecretKeyRef : Type 0 where
  pub name : String
  pub namespace : String

pub record ProviderConfig : Type 0 where
  pub enabled : Bool
  pub model : String
  pub api_key_secret_ref : SecretKeyRef

pub record AnthropicProviderConfig : Type 0 where
  pub enabled : Bool
  pub model : String
  pub api_key_secret_ref : SecretKeyRef

pub record ProvidersSpec : Type 0 where
  pub anthropic : AnthropicProviderConfig
  pub openai : ProviderConfig
  pub openrouter : ProviderConfig

pub record StorageSpec : Type 0 where
  pub workspace : Quantity
  pub data_size : Quantity
  pub storage_class_name : String

pub record McpPort : Type 0 where
  pub name : String
  pub port : ℕ

pub record EgressSpec : Type 0 where
  pub enabled : Bool
  pub laptop_hostname : String
  pub mcp_ports : List McpPort
  pub tags : List String

pub record TailscaleSpec : Type 0 where
  pub ingress_tags : Option (List String)
  pub egress : EgressSpec

pub record KubedockSpec : Type 0 where
  pub enabled : Bool
  pub resources : ResourceRequirements

pub record PluginsSpec : Type 0 where
  pub enabled : Bool
  pub npm : List String

pub record McpOauthConfig : Type 0 where
  pub client_id : String
  pub client_secret : String
  pub token_url : String

pub record RemoteMcpServer : Type 0 where
  pub name : String
  pub url : String
  pub enabled : Bool
  pub headers : Dict String
  pub oauth : Option McpOauthConfig

pub record LaptopMcpServer : Type 0 where
  pub name : String
  pub tailscale_ip : String
  pub tailscale_fqdn : String
  pub port : ℕ
  pub enabled : Bool

pub record McpSpec : Type 0 where
  pub remote : List RemoteMcpServer
  pub laptop_servers : List LaptopMcpServer

-- A `runtime.RawExtension` is its raw JSON text.
pub record SkillsSpec : Type 0 where
  pub npm : List String
  pub config : List String

pub record OpenCodeWorkspaceSpec : Type 0 where
  pub email : String
  pub namespace_prefix : String
  pub providers : ProvidersSpec
  pub resources : ResourceRequirements
  pub storage : StorageSpec
  pub tailscale : TailscaleSpec
  pub kubedock : KubedockSpec
  pub server_password : String
  pub plugins : PluginsSpec
  pub mcp : McpSpec
  pub skills : SkillsSpec

-- `metav1.Condition`, less the time of its last transition.
pub record Condition : Type 0 where
  pub type : String
  pub status : String
  pub reason : String
  pub message : String
  pub observed_generation : ℕ

pub record OpenCodeWorkspaceStatus : Type 0 where
  pub phase : String
  pub namespace : String
  pub ingress_hostname : String
  pub message : String
  pub acl_snippet : String
  pub conditions : List Condition

-- The resource, with the metadata that the operator reads; a zero deletion time is `none`.
pub record OpenCodeWorkspace : Type 0 where
  pub name : String
  pub generation : ℕ
  pub deletion_timestamp : Option String
  pub finalizers : List String
  pub spec : OpenCodeWorkspaceSpec
  pub status : OpenCodeWorkspaceStatus
