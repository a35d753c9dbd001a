-- ===== src/Operator/Resources/Config.antt =====
-- operator/internal/controller/reconcile_configmap.go: the workspace's `opencode.json`.
pub mod Servers
use k8s_opencode.Common.{
  String, ◌++◌, Bool, not, ◌||◌, Option, none, some, List, [], ◌∷◌, ◌⊎◌, ◌==◌, also, if◌then◌else◌,
}
use k8s_opencode.Common.Dict.{Dict, insert}
use k8s_opencode.Common.Text.{decimal}
use k8s_opencode.Operator.Exec.{Result, ok, err, Exec, pure, lift, wrapping, ◌>>=◌}
use k8s_opencode.Operator.Api.{OpenCodeWorkspace, RemoteMcpServer, LaptopMcpServer, McpOauthConfig}
use k8s_opencode.Operator.Object.{ConfigMap, config_map_kind, meta_of}
use k8s_opencode.Operator.Client.{Client}
use k8s_opencode.Operator.EmailMap.{allocated, read_entry, from_json}
use k8s_opencode.Operator.Resources.Owned.{own, quoted}

abbrev pub opencode_config_map_name : String
opencode_config_map_name = "opencode-config"

-- `mcpOAuth`
pub record McpOauth : Type 0 where
  pub client_id : String
  pub client_secret : String
  pub token_url : String

-- `mcpServer`; headers that are not set are empty
pub record McpServer : Type 0 where
  pub type : String
  pub url : String
  pub enabled : Bool
  pub headers : Dict String
  pub oauth : Option McpOauth

-- `skillsConfig`, over the type of JSON values
pub record SkillsConfig (Value : Type 0) : Type 0 where
  pub npm : List String
  pub config : List Value

-- `opencodeConfig`; a provider is its `options.apiKey`
pub record OpencodeConfig (Value : Type 0) : Type 0 where
  pub schema : String
  pub plugin : List String
  pub enabled_providers : List String
  pub provider : Dict String
  pub mcp : Dict McpServer
  pub skills : Option (SkillsConfig Value)

-- What this file uses of `encoding/json`: reading a value of any kind, and `MarshalIndent`.
pub record ConfigCodec : Type 1 where
  pub Value : Type 0
  pub read_value : String → String ⊎ Value
  pub marshal_config : OpencodeConfig Value → String ⊎ String

-- One provider's block, over the map of API keys.
abbrev add_provider_key : Bool → String → Dict String → Dict String → Dict String
add_provider_key enabled name api_keys provider =
    if not enabled
    then provider
    else if read_entry (some api_keys) name == ""
    then provider
    else insert name (read_entry (some api_keys) name) provider

unfoldable pub enabled_providers_of : OpenCodeWorkspace → List String
enabled_providers_of ws =
    let p = ws.spec.providers in
    also p.openrouter.enabled ("openrouter" ∷ [])
      (also p.openai.enabled ("openai" ∷ []) (also p.anthropic.enabled ("anthropic" ∷ []) []))

unfoldable pub provider_of : OpenCodeWorkspace → Dict String → Dict String
provider_of ws api_keys =
    let p = ws.spec.providers in
    add_provider_key p.openrouter.enabled "openrouter" api_keys (
      add_provider_key p.openai.enabled "openai" api_keys
        (add_provider_key p.anthropic.enabled "anthropic" api_keys []))

unfoldable pub plugins_of : OpenCodeWorkspace → List String
plugins_of ws =
    also ws.spec.plugins.enabled
      ("oh-my-opencode@latest" ∷ "@tarquinen/opencode-dcp@latest" ∷ ws.spec.plugins.npm) []

abbrev oauth_of : McpOauthConfig → McpOauth
oauth_of o = record {
  client_id = o.client_id;
  client_secret = o.client_secret;
  token_url = o.token_url;
}

abbrev map_oauth : Option McpOauthConfig → Option McpOauth
map_oauth none = none
map_oauth (some o) = some (oauth_of o)

abbrev pub remote_server : RemoteMcpServer → McpServer
remote_server r = record {
  type = "remote";
  url = r.url;
  enabled = r.enabled;
  headers = r.headers;
  oauth = map_oauth r.oauth;
}

abbrev pub laptop_host : LaptopMcpServer → String
laptop_host l = if not (l.tailscale_fqdn == "") then l.tailscale_fqdn else l.tailscale_ip

abbrev pub laptop_server : LaptopMcpServer → McpServer
laptop_server l = record {
  type = "remote";
  url = "http://" ++ (laptop_host l ++ (":" ++ decimal l.port));
  enabled = l.enabled;
  headers = [];
  oauth = none;
}

-- The two loops over the servers; a later entry replaces an earlier one of its name.
unfoldable pub add_remotes : List RemoteMcpServer → Dict McpServer → Dict McpServer
add_remotes [] servers = servers
add_remotes (r ∷ rs) servers = add_remotes rs (insert r.name (remote_server r) servers)

unfoldable pub add_laptops : List LaptopMcpServer → Dict McpServer → Dict McpServer
add_laptops [] servers = servers
add_laptops (l ∷ ls) servers =
    add_laptops ls (insert ("laptop_" ++ l.name) (laptop_server l) servers)

unfoldable pub mcp_servers_of : OpenCodeWorkspace → Dict McpServer
unfolding add_remotes add_laptops
mcp_servers_of ws = add_laptops ws.spec.mcp.laptop_servers (add_remotes ws.spec.mcp.remote [])

abbrev is_empty : List String → Bool
is_empty [] = Bool.true
is_empty (x ∷ xs) = Bool.false

module _ (j : ConfigCodec) where
  -- The loop over the inline skill configurations: the first that is no JSON is the error.
  unfoldable pub read_skills : List String → Result (List j.Value)
  read_skills [] = ok []
  read_skills (raw ∷ raws) = elim (from_json "unmarshal skill config: " (j.read_value raw)) [
    | err e ↦ err e
    | ok v ↦ elim (read_skills raws) [ err e ↦ err e | ok vs ↦ ok (v ∷ vs) ]
  ]

  unfoldable pub skills_of : OpenCodeWorkspace → Result (Option (SkillsConfig j.Value))
  unfolding read_skills
  skills_of ws =
      if not (is_empty ws.spec.skills.npm) || not (is_empty ws.spec.skills.config)
      then elim (read_skills ws.spec.skills.config) [
        | err e ↦ err e
        | ok vs ↦ ok (some (record { npm = ws.spec.skills.npm; config = vs }))
      ]
      else ok none

  unfoldable pub config_of :
      OpenCodeWorkspace → Dict String → Option (SkillsConfig j.Value) → OpencodeConfig j.Value
  unfolding enabled_providers_of provider_of plugins_of mcp_servers_of
  config_of ws api_keys skills = record {
    schema = "https://opencode.ai/config.json";
    plugin = plugins_of ws;
    enabled_providers = enabled_providers_of ws;
    provider = provider_of ws api_keys;
    mcp = mcp_servers_of ws;
    skills = skills;
  }

  module _ (c : Client) where
    unfoldable pub set_config : OpenCodeWorkspace → String → ConfigMap → Exec c.World ConfigMap
    set_config ws payload cm = do
      m ← own c ws cm.meta
      pure (record {
        meta = m;
        contents = some (insert "opencode.json" payload (allocated cm.contents));
      })

    unfoldable pub reconcile_config_map :
        OpenCodeWorkspace → String → Dict String → Exec c.World (Unit {0})
    unfolding config_of skills_of
    reconcile_config_map ws namespace api_keys = do
      skills ← lift (skills_of ws)
      payload ←
          lift (
            from_json "marshal opencode config: " (j.marshal_config (config_of ws api_keys skills)))
      wrapping ("failed to reconcile configmap " ++ (quoted opencode_config_map_name ++ ": ")) (
          c.create_or_update config_map_kind
            (record { meta = meta_of namespace opencode_config_map_name; contents = none })
            (set_config ws payload))
