-- ===== src/Operator/Resources/Names.antt =====
-- The names that are made of a workspace's name and prefix.
use k8s_opencode.Common.{String, ◌++◌, ◌==◌, if◌then◌else◌}
use k8s_opencode.Operator.Api.{OpenCodeWorkspace}

-- `if prefix == "" { prefix = "oc" }`
unfoldable pub prefix_of : OpenCodeWorkspace → String
prefix_of ws = if ws.spec.namespace_prefix == "" then "oc" else ws.spec.namespace_prefix

-- `namespaceName` of reconcileNamespace
unfoldable pub namespace_name : OpenCodeWorkspace → String
namespace_name ws = prefix_of ws ++ ("-" ++ ws.name)

-- `namespaceName` of handleDeletion
unfoldable pub deletion_namespace_name : OpenCodeWorkspace → String
deletion_namespace_name ws = prefix_of ws ++ ws.name

-- `generateIngressHostname`
unfoldable pub generate_ingress_hostname : OpenCodeWorkspace → String
generate_ingress_hostname ws = "oc-" ++ (ws.name ++ ("-" ++ prefix_of ws))
