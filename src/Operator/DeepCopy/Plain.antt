-- ===== src/Operator/DeepCopy/Plain.antt =====
-- The generated functions for the structs without references: `*out = *in`, and then the structs in
-- them once more.
use k8s_opencode.Common.{Option, none, some}
use k8s_opencode.Operator.Api.{
  McpPort, LaptopMcpServer, McpOauthConfig, SecretKeyRef, ProviderConfig, AnthropicProviderConfig,
  ProvidersSpec,
}
use k8s_opencode.Operator.DeepCopy.Heap.{Heap}

-- `if in == nil { return nil }; out := new(T); in.DeepCopyInto(out); return out`; a pointer is given by
-- the struct that it points to.
abbrev pub deep_copy :
    {C V : Type 0} → (V → Heap C → V × Heap C) → Option V → Heap C → Option V × Heap C
deep_copy into none h = (none, h)
deep_copy into (some v) h = (some (into v h).0, (into v h).1)

module _ {C : Type 0} where
  abbrev pub deep_copy_into_secret_key_ref : SecretKeyRef → Heap C → SecretKeyRef × Heap C
  deep_copy_into_secret_key_ref v h = (v, h)

  abbrev pub deep_copy_secret_key_ref : Option SecretKeyRef → Heap C → Option SecretKeyRef × Heap C
  deep_copy_secret_key_ref = deep_copy deep_copy_into_secret_key_ref

  abbrev pub deep_copy_into_provider_config : ProviderConfig → Heap C → ProviderConfig × Heap C
  deep_copy_into_provider_config v h = (record v { api_key_secret_ref = v.api_key_secret_ref }, h)

  abbrev pub deep_copy_provider_config :
      Option ProviderConfig → Heap C → Option ProviderConfig × Heap C
  deep_copy_provider_config = deep_copy deep_copy_into_provider_config

  abbrev pub deep_copy_into_anthropic_provider_config :
      AnthropicProviderConfig → Heap C → AnthropicProviderConfig × Heap C
  deep_copy_into_anthropic_provider_config v h =
      (record v { api_key_secret_ref = v.api_key_secret_ref }, h)

  abbrev pub deep_copy_anthropic_provider_config :
      Option AnthropicProviderConfig → Heap C → Option AnthropicProviderConfig × Heap C
  deep_copy_anthropic_provider_config = deep_copy deep_copy_into_anthropic_provider_config

  abbrev pub deep_copy_into_providers_spec : ProvidersSpec → Heap C → ProvidersSpec × Heap C
  deep_copy_into_providers_spec v h =
      (record v { anthropic = v.anthropic; openai = v.openai; openrouter = v.openrouter }, h)

  abbrev pub deep_copy_providers_spec :
      Option ProvidersSpec → Heap C → Option ProvidersSpec × Heap C
  deep_copy_providers_spec = deep_copy deep_copy_into_providers_spec

  abbrev pub deep_copy_into_laptop_mcp_server : LaptopMcpServer → Heap C → LaptopMcpServer × Heap C
  deep_copy_into_laptop_mcp_server v h = (v, h)

  abbrev pub deep_copy_laptop_mcp_server :
      Option LaptopMcpServer → Heap C → Option LaptopMcpServer × Heap C
  deep_copy_laptop_mcp_server = deep_copy deep_copy_into_laptop_mcp_server

  abbrev pub deep_copy_into_mcp_oauth_config : McpOauthConfig → Heap C → McpOauthConfig × Heap C
  deep_copy_into_mcp_oauth_config v h = (v, h)

  abbrev pub deep_copy_mcp_oauth_config :
      Option McpOauthConfig → Heap C → Option McpOauthConfig × Heap C
  deep_copy_mcp_oauth_config = deep_copy deep_copy_into_mcp_oauth_config

  abbrev pub deep_copy_into_mcp_port : McpPort → Heap C → McpPort × Heap C
  deep_copy_into_mcp_port v h = (v, h)

  abbrev pub deep_copy_mcp_port : Option McpPort → Heap C → Option McpPort × Heap C
  deep_copy_mcp_port = deep_copy deep_copy_into_mcp_port
