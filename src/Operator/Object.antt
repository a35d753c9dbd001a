-- ===== src/Operator/Object.antt =====
-- The Kubernetes objects that the operator creates, by the fields that it reads or writes. A map
-- that the code compares with nil, or a pointer, is an `Option`; `contents` is an object's `Data`.
use k8s_opencode.Common.{ℕ, String, Bool, Option, none, List, []}
use k8s_opencode.Common.Dict.{Dict}
use k8s_opencode.Operator.Api.{Quantity, ResourceRequirements}

pub record OwnerReference : Type 0 where
  pub api_version : String
  pub kind : String
  pub name : String
  pub uid : String

pub record ObjectMeta : Type 0 where
  pub name : String
  pub namespace : String
  pub labels : Option (Dict String)
  pub annotations : Option (Dict String)
  pub owner_references : List OwnerReference

-- `metav1.ObjectMeta{Name: name, Namespace: namespace}`
abbrev pub meta_of : String → String → ObjectMeta
meta_of namespace name = record {
  name = name;
  namespace = namespace;
  labels = none;
  annotations = none;
  owner_references = [];
}

pub record Namespace : Type 0 where
  pub meta : ObjectMeta

pub record NetworkPolicyPeer : Type 0 where
  pub namespace_selector : Option (Dict String)

-- An empty list of peers allows every source, or destination.
pub record NetworkPolicyRule : Type 0 where
  pub peers : List NetworkPolicyPeer

pub data PolicyType : Type 0 where
  ingress_policy egress_policy : PolicyType

pub record NetworkPolicy : Type 0 where
  pub meta : ObjectMeta
  pub pod_selector : Dict String
  pub policy_types : List PolicyType
  pub ingress : List NetworkPolicyRule
  pub egress : List NetworkPolicyRule

pub record ConfigMap : Type 0 where
  pub meta : ObjectMeta
  pub contents : Option (Dict String)

pub record Secret : Type 0 where
  pub meta : ObjectMeta
  pub type : String
  pub contents : Option (Dict String)

pub record PersistentVolumeClaim : Type 0 where
  pub meta : ObjectMeta
  pub access_modes : List String
  pub requests : Dict Quantity
  pub storage_class_name : Option String

pub record ServiceAccount : Type 0 where
  pub meta : ObjectMeta

pub record PolicyRule : Type 0 where
  pub api_groups : List String
  pub resources : List String
  pub verbs : List String

pub record Role : Type 0 where
  pub meta : ObjectMeta
  pub rules : List PolicyRule

pub record Subject : Type 0 where
  pub kind : String
  pub name : String
  pub namespace : String

pub record RoleRef : Type 0 where
  pub kind : String
  pub name : String
  pub api_group : String

pub record RoleBinding : Type 0 where
  pub meta : ObjectMeta
  pub subjects : List Subject
  pub role_ref : RoleRef

pub record SecretKeySelector : Type 0 where
  pub name : String
  pub key : String

pub record EnvVar : Type 0 where
  pub name : String
  pub value : String
  pub value_from : Option SecretKeySelector

pub record VolumeMount : Type 0 where
  pub name : String
  pub mount_path : String
  pub sub_path : String
  pub read_only : Bool

pub record ContainerPort : Type 0 where
  pub name : String
  pub container_port : ℕ
  pub protocol : String

-- Of a pod or a container; the file system group is a pod's only.
pub record SecurityContext : Type 0 where
  pub run_as_user : ℕ
  pub run_as_group : ℕ
  pub run_as_non_root : Bool
  pub fs_group : Option ℕ

pub record Container : Type 0 where
  pub name : String
  pub image : String
  pub image_pull_policy : String
  pub command : List String
  pub args : List String
  pub working_dir : String
  pub ports : List ContainerPort
  pub env : List EnvVar
  pub resources : ResourceRequirements
  pub security_context : Option SecurityContext
  pub volume_mounts : List VolumeMount

pub data VolumeSource : Type 0 where
  claim config_map_source : String → VolumeSource
  empty_dir : VolumeSource

pub record Volume : Type 0 where
  pub name : String
  pub source : VolumeSource

pub record PodTemplateSpec : Type 0 where
  pub labels : Dict String
  pub service_account_name : String
  pub security_context : Option SecurityContext
  pub init_containers : List Container
  pub containers : List Container
  pub volumes : List Volume

abbrev pub empty_pod : PodTemplateSpec
empty_pod = record {
  labels = [];
  service_account_name = "";
  security_context = none;
  init_containers = [];
  containers = [];
  volumes = [];
}

pub record Deployment : Type 0 where
  pub meta : ObjectMeta
  pub replicas : Option ℕ
  pub selector : Option (Dict String)
  pub template : PodTemplateSpec

pub record StatefulSet : Type 0 where
  pub meta : ObjectMeta
  pub replicas : Option ℕ
  pub service_name : String
  pub selector : Option (Dict String)
  pub template : PodTemplateSpec

pub record ServicePort : Type 0 where
  pub name : String
  pub protocol : String
  pub port : ℕ
  pub target_port : ℕ

pub record Service : Type 0 where
  pub meta : ObjectMeta
  pub type : String
  pub selector : Dict String
  pub ports : List ServicePort

pub record ServiceBackend : Type 0 where
  pub service : String
  pub port : ℕ

pub record Ingress : Type 0 where
  pub meta : ObjectMeta
  pub ingress_class_name : Option String
  pub default_backend : Option ServiceBackend
  pub tls_hosts : List (List String)

pub data Kind : Type 0 where
  namespace_kind network_policy_kind config_map_kind secret_kind claim_kind : Kind
  service_account_kind role_kind role_binding_kind deployment_kind : Kind
  service_kind stateful_set_kind ingress_kind : Kind

abbrev pub Object : Kind → Type 0
Object namespace_kind = Namespace
Object network_policy_kind = NetworkPolicy
Object config_map_kind = ConfigMap
Object secret_kind = Secret
Object claim_kind = PersistentVolumeClaim
Object service_account_kind = ServiceAccount
Object role_kind = Role
Object role_binding_kind = RoleBinding
Object deployment_kind = Deployment
Object service_kind = Service
Object stateful_set_kind = StatefulSet
Object ingress_kind = Ingress

abbrev pub meta : (k : Kind) → Object k → ObjectMeta
meta namespace_kind o = o.meta
meta network_policy_kind o = o.meta
meta config_map_kind o = o.meta
meta secret_kind o = o.meta
meta claim_kind o = o.meta
meta service_account_kind o = o.meta
meta role_kind o = o.meta
meta role_binding_kind o = o.meta
meta deployment_kind o = o.meta
meta service_kind o = o.meta
meta stateful_set_kind o = o.meta
meta ingress_kind o = o.meta

-- `types.NamespacedName`; a cluster-scoped object has the namespace "".
pub record Key : Type 0 where
  pub namespace : String
  pub name : String

abbrev pub key_of : (k : Kind) → Object k → Key
key_of k o = record { namespace = (meta k o).namespace; name = (meta k o).name }
