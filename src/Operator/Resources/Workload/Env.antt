-- ===== src/Operator/Resources/Workload/Env.antt =====
-- `buildProviderEnvVars` and `secretEnvVar` of reconcile_workload.go.
use k8s_opencode.Common.{String, ◌++◌, Bool, not, ◌&&◌, none, some, List, [], ◌∷◌, ◌==◌, also}
use k8s_opencode.Common.Text.{decimal}
use k8s_opencode.Operator.Api.{OpenCodeWorkspace, SecretKeyRef}
use k8s_opencode.Operator.Object.{EnvVar}
use k8s_opencode.Operator.Resources.Kubedock.{kubedock_service_name, kubedock_port}

-- `fmt.Sprintf("/home/%s", workspace.Name)`
abbrev pub home_of : OpenCodeWorkspace → String
home_of ws = "/home/" ++ ws.name

abbrev pub plain : String → String → EnvVar
plain name value = record { name = name; value = value; value_from = none }

abbrev pub from_secret : String → String → String → EnvVar
from_secret name secret_name key = record {
  name = name;
  value = "";
  value_from = some (record { name = secret_name; key = key });
}

unfoldable pub secret_env_var : String → String → EnvVar
secret_env_var name secret_name = from_secret name secret_name "api-key"

-- A provider that is enabled and refers to a Secret adds the variable.
abbrev pub add_provider : Bool → SecretKeyRef → String → List EnvVar → List EnvVar
add_provider enabled ref name envs =
    also (enabled && not (ref.name == "")) (secret_env_var name ref.name ∷ []) envs

unfoldable pub build_provider_env_vars : OpenCodeWorkspace → List EnvVar
unfolding secret_env_var
build_provider_env_vars ws =
    let base =
      plain "HOME" (home_of ws)
      ∷ from_secret "OPENCODE_SERVER_PASSWORD" "workspace-secrets" "server-password"
      ∷ [] in
    let docker =
      also ws.spec.kubedock.enabled
        (plain "DOCKER_HOST" ("tcp://" ++ (kubedock_service_name ++ (":" ++ decimal kubedock_port)))
          ∷ plain "TESTCONTAINERS_RYUK_DISABLED" "true"
          ∷ plain "TESTCONTAINERS_CHECKS_DISABLE" "true"
          ∷ [])
        base in
    let anthropic = ws.spec.providers.anthropic in
    let openai = ws.spec.providers.openai in
    let openrouter = ws.spec.providers.openrouter in
    add_provider openrouter.enabled openrouter.api_key_secret_ref "OPENROUTER_API_KEY" (
      add_provider openai.enabled openai.api_key_secret_ref "OPENAI_API_KEY"
        (add_provider anthropic.enabled anthropic.api_key_secret_ref "ANTHROPIC_API_KEY" docker))
