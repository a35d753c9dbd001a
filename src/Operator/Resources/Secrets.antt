-- ===== src/Operator/Resources/Secrets.antt =====
-- operator/internal/controller/reconcile_secrets.go: the server password and the copies of the
-- providers' API keys. A `[]byte` is the text that it holds.
pub mod Kept
use k8s_opencode.Common.{
  String, ◌++◌, Bool, not, ◌&&◌, Option, none, some, [], ◌∷◌, ◌==◌, if◌then◌else◌,
}
use k8s_opencode.Common.Dict.{Dict, lookup, insert}
use k8s_opencode.Operator.Exec.{errorf, Exec, pure, raise, try, wrapping, option, ◌>>=◌, ◌>>◌}
use k8s_opencode.Operator.Api.{OpenCodeWorkspace, SecretKeyRef}
use k8s_opencode.Operator.Object.{Secret, secret_kind, meta_of}
use k8s_opencode.Operator.Client.{Client, is_not_found}
use k8s_opencode.Operator.EmailMap.{allocated}
use k8s_opencode.Operator.Resources.Owned.{own, quoted}
use k8s_opencode.Operator.Resources.Password.{generate_password}

abbrev pub provider_secrets_name : String
provider_secrets_name = "provider-api-keys"

abbrev pub workspace_secrets_name : String
workspace_secrets_name = "workspace-secrets"

pub record ApiKeys : Type 0 where
  pub anthropic : String
  pub openai : String
  pub openrouter : String

abbrev pub no_keys : ApiKeys
no_keys = record { anthropic = ""; openai = ""; openrouter = "" }

abbrev entry_of : Option (Dict String) → String → Option String
entry_of none key = none
entry_of (some d) key = lookup key d

module _ (c : Client) where
  unfoldable pub get_secret_key : String → String → String → Exec c.World String
  get_secret_key namespace name key =
      try (c.get secret_kind (record { namespace = namespace; name = name }))
        (λ secret.
          option (entry_of secret.contents key)
            (raise (
              errorf (
                "key "
                ++ (quoted key ++ (" not found in secret " ++ (namespace ++ ("/" ++ name)))))))
            pure)
        (λ e.
          if is_not_found c e
          then raise (errorf ("secret " ++ (namespace ++ ("/" ++ (name ++ " not found")))))
          else raise e)

  -- One provider's block of `reconcileSecrets`: `none` where it adds no key.
  unfoldable pub provider_key : Bool → SecretKeyRef → String → Exec c.World (Option String)
  unfolding get_secret_key
  provider_key enabled ref title =
      if enabled && (not (ref.name == "") && not (ref.namespace == ""))
      then (wrapping ("failed to get " ++ (title ++ " API key: "))
            (get_secret_key ref.namespace ref.name "api-key")
          >>= λ key. pure (some key))
      else pure none

  -- The password for `server-password`: the user's, or a random one.
  unfoldable pub choose_password : OpenCodeWorkspace → Exec c.World String
  choose_password ws =
      if not (ws.spec.server_password == "")
      then pure ws.spec.server_password
      else wrapping "failed to generate server password: " (generate_password c 32)

  -- A password that is there already is kept.
  unfoldable pub keep_or_set : OpenCodeWorkspace → Dict String → Exec c.World (Dict String)
  unfolding choose_password
  keep_or_set ws d =
      option (lookup "server-password" d)
        (choose_password ws >>= λ password. pure (insert "server-password" password d))
        (λ present. pure d)

  unfoldable pub set_workspace_secret : OpenCodeWorkspace → Secret → Exec c.World Secret
  unfolding keep_or_set
  set_workspace_secret ws secret = do
    m ← own c ws secret.meta
    d ← keep_or_set ws (allocated secret.contents)
    pure (record { meta = m; type = "Opaque"; contents = some d })

  unfoldable pub reconcile_workspace_secrets : OpenCodeWorkspace → String → Exec c.World (Unit {0})
  reconcile_workspace_secrets ws namespace =
      wrapping ("failed to reconcile workspace secrets " ++ (quoted workspace_secrets_name ++ ": "))
        (c.create_or_update secret_kind
          (record { meta = meta_of namespace workspace_secrets_name; type = ""; contents = none })
          (set_workspace_secret ws))

  unfoldable pub set_provider_secret :
      OpenCodeWorkspace → Dict String → Secret → Exec c.World Secret
  set_provider_secret ws api_keys secret = do
    m ← own c ws secret.meta
    pure (record { meta = m; type = "Opaque"; contents = some api_keys })

  abbrev put_key : String → Option String → Dict String → Dict String
  put_key name none d = d
  put_key name (some key) d = insert name key d

  abbrev key_text : Option String → String
  key_text none = ""
  key_text (some key) = key

  -- The map `apiKeys`, and the result.
  unfoldable pub api_keys_of : Option String → Option String → Option String → Dict String
  api_keys_of anthropic openai openrouter =
      put_key "OPENROUTER_API_KEY" openrouter
        (put_key "OPENAI_API_KEY" openai (put_key "ANTHROPIC_API_KEY" anthropic []))

  abbrev result_of : Option String → Option String → Option String → ApiKeys
  result_of anthropic openai openrouter = record {
    anthropic = key_text anthropic;
    openai = key_text openai;
    openrouter = key_text openrouter;
  }

  unfoldable pub write_provider_secret :
      OpenCodeWorkspace → String → Dict String → Exec c.World (Unit {0})
  write_provider_secret ws namespace [] = pure tt
  write_provider_secret ws namespace (entry ∷ entries) =
      wrapping ("failed to reconcile secrets " ++ (quoted provider_secrets_name ++ ": ")) (
        c.create_or_update secret_kind
          (record { meta = meta_of namespace provider_secrets_name; type = ""; contents = none })
          (set_provider_secret ws (entry ∷ entries)))

  unfoldable pub reconcile_secrets : OpenCodeWorkspace → String → Exec c.World ApiKeys
  reconcile_secrets ws namespace = do
    reconcile_workspace_secrets ws namespace
    let p = ws.spec.providers
    anthropic ← provider_key p.anthropic.enabled p.anthropic.api_key_secret_ref "Anthropic"
    openai ← provider_key p.openai.enabled p.openai.api_key_secret_ref "OpenAI"
    openrouter ← provider_key p.openrouter.enabled p.openrouter.api_key_secret_ref "OpenRouter"
    write_provider_secret ws namespace (api_keys_of anthropic openai openrouter)
    pure (result_of anthropic openai openrouter)
