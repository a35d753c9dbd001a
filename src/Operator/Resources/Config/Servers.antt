-- ===== src/Operator/Resources/Config/Servers.antt =====
-- The MCP servers of a workspace's configuration, by name.
use k8s_opencode.Common.{
  String, ◌++◌, Option, none, some, List, [], ◌∷◌, ◌≡◌, refl, arith, if◌then◌else◌, ◌==◌, ◌∙◌,
}
use k8s_opencode.Common.Dict.{Dict, lookup, insert, lookup-insert}
use k8s_opencode.Operator.Api.{OpenCodeWorkspace, RemoteMcpServer, LaptopMcpServer}
use k8s_opencode.Operator.Resources.Config.{
  McpServer, remote_server, laptop_server, add_remotes, add_laptops, mcp_servers_of,
}

abbrev pub first_of : Option McpServer → Option McpServer → Option McpServer
first_of (some s) other = some s
first_of none other = other

-- The last remote server of this name.
unfoldable pub last_remote : String → List RemoteMcpServer → Option McpServer
last_remote k [] = none
last_remote k (r ∷ rs) =
    first_of (last_remote k rs) (if r.name == k then some (remote_server r) else none)

-- The last laptop server whose name is this behind the prefix "laptop_".
unfoldable pub last_laptop : String → List LaptopMcpServer → Option McpServer
last_laptop k [] = none
last_laptop k (l ∷ ls) =
    first_of (last_laptop k ls)
      (if ("laptop_" ++ l.name) == k then some (laptop_server l) else none)

first_of_assoc : (a b c : Option McpServer) → first_of a (first_of b c) ≡ first_of (first_of a b) c
first_of_assoc (some s) b c = refl
first_of_assoc none b c = refl

inserted :
    (k j : String) (s : McpServer) (d : Dict McpServer)
    → lookup k (insert j s d) ≡ first_of (if j == k then some s else none) (lookup k d)
inserted k j s d = ground (arith, lookup-insert j k s d)

lookup-add_remotes :
    (k : String) (rs : List RemoteMcpServer) (d : Dict McpServer)
    → lookup k (add_remotes rs d) ≡ first_of (last_remote k rs) (lookup k d)
unfolding add_remotes last_remote
lookup-add_remotes k [] d = refl
lookup-add_remotes k (r ∷ rs) d =
    rw
      (
        lookup-add_remotes k rs (insert r.name (remote_server r) d),
        inserted k r.name (remote_server r) d,
      )
      (first_of_assoc (last_remote k rs) _ (lookup k d))

lookup-add_laptops :
    (k : String) (ls : List LaptopMcpServer) (d : Dict McpServer)
    → lookup k (add_laptops ls d) ≡ first_of (last_laptop k ls) (lookup k d)
unfolding add_laptops last_laptop
lookup-add_laptops k [] d = refl
lookup-add_laptops k (l ∷ ls) d =
    rw
      (
        lookup-add_laptops k ls (insert ("laptop_" ++ l.name) (laptop_server l) d),
        inserted k ("laptop_" ++ l.name) (laptop_server l) d,
      )
      (first_of_assoc (last_laptop k ls) _ (lookup k d))

-- Under each name stands the last laptop server of that name, and if there is none the last remote
-- server; no other name is in the map.
pub lookup-mcp_servers_of :
    (k : String) (ws : OpenCodeWorkspace)
    → lookup k (mcp_servers_of ws)
      ≡ first_of (last_laptop k ws.spec.mcp.laptop_servers) (last_remote k ws.spec.mcp.remote)
unfolding mcp_servers_of lookup
lookup-mcp_servers_of k ws =
    lookup-add_laptops k ws.spec.mcp.laptop_servers (add_remotes ws.spec.mcp.remote [])
    ∙ rw (lookup-add_remotes k ws.spec.mcp.remote []) (ground arith)
