-- ===== src/Operator/Resources/Workload/Unread.antt =====
-- The Secrets that the workspace's environment refers to, and the Secret of the copied API keys.
use mathlib.Core.List.{◌++◌}
use k8s_opencode.Common.{
  String, Bool, true, false, Option, none, some, List, [], ◌∷◌, ◌≡◌, refl, ◌⊎◌, inl, inr, also,
  ◌&&◌, not, ◌==◌,
}
use k8s_opencode.Common.Dict.{lookup, insert}
use k8s_opencode.Operator.Api.{OpenCodeWorkspace, SecretKeyRef}
use k8s_opencode.Operator.Object.{EnvVar, SecretKeySelector}
use k8s_opencode.Operator.Client.{Client}
use k8s_opencode.Operator.Resources.Secrets.{api_keys_of}
use k8s_opencode.Operator.Resources.Workload.Env.{
  secret_env_var, add_provider, build_provider_env_vars,
}

-- `P` holds of the key of a Secret that a variable refers to, if it does.
abbrev OfRef : (SecretKeySelector → Type 0) → Option SecretKeySelector → Type 0
OfRef P none = Unit
OfRef P (some r) = P r

-- `P` holds of every key of a Secret that the variables refer to.
abbrev pub AllRefs : (SecretKeySelector → Type 0) → List EnvVar → Type 0
AllRefs P [] = Unit
AllRefs P (e ∷ es) = OfRef P e.value_from × AllRefs P es

module _ (P Q : SecretKeySelector → Type 0) (m : (r : SecretKeySelector) → P r → Q r) where
  OfRef-map : (v : Option SecretKeySelector) → OfRef P v → OfRef Q v
  OfRef-map none h = tt
  OfRef-map (some s) h = m s h

  pub AllRefs-map : (es : List EnvVar) → AllRefs P es → AllRefs Q es
  AllRefs-map [] a = tt
  AllRefs-map (e ∷ es) (r, a) = (OfRef-map e.value_from r, AllRefs-map es a)

no_api_key :
    (c : Client) (anthropic openai openrouter : Option String)
    → lookup "api-key" (api_keys_of c anthropic openai openrouter) ≡ none
unfolding lookup insert api_keys_of
no_api_key c none none none = refl
no_api_key c none none (some d) = refl
no_api_key c none (some b) none = refl
no_api_key c none (some b) (some d) = refl
no_api_key c (some a) none none = refl
no_api_key c (some a) none (some d) = refl
no_api_key c (some a) (some b) none = refl
no_api_key c (some a) (some b) (some d) = refl

-- The server password's key, or the key of an API key.
abbrev pub Known : SecretKeySelector → Type 0
Known r = ((r.name ≡ "workspace-secrets") × (r.key ≡ "server-password")) ⊎ (r.key ≡ "api-key")

AllRefs-append :
    (es new : List EnvVar) → AllRefs Known es → AllRefs Known new → AllRefs Known (es ++ new)
AllRefs-append [] new a n = n
AllRefs-append (e ∷ es) new (r, a) n = (r, AllRefs-append es new a n)

AllRefs-also :
    (b : Bool) (new es : List EnvVar)
    → AllRefs Known new
    → AllRefs Known es
    → AllRefs Known (also b new es)
AllRefs-also true new es n a = AllRefs-append es new a n
AllRefs-also false new es n a = a

AllRefs-add_provider :
    (enabled : Bool) (ref : SecretKeyRef) (name : String) (es : List EnvVar)
    → AllRefs Known es
    → AllRefs Known (add_provider enabled ref name es)
unfolding secret_env_var
AllRefs-add_provider enabled ref name es a =
    AllRefs-also (enabled && not (ref.name == "")) (secret_env_var name ref.name ∷ []) es
      (inr refl, tt) a

pub env_vars-Known : (ws : OpenCodeWorkspace) → AllRefs Known (build_provider_env_vars ws)
unfolding build_provider_env_vars
env_vars-Known ws =
    let p = ws.spec.providers in
    AllRefs-add_provider p.openrouter.enabled p.openrouter.api_key_secret_ref "OPENROUTER_API_KEY" _
      (AllRefs-add_provider p.openai.enabled p.openai.api_key_secret_ref "OPENAI_API_KEY" _ (
        AllRefs-add_provider p.anthropic.enabled p.anthropic.api_key_secret_ref "ANTHROPIC_API_KEY"
          _
          (AllRefs-also ws.spec.kubedock.enabled _ _ (tt, (tt, (tt, tt)))
            (tt, (inl (refl, refl), tt)))))

-- The server password's key, or one that the Secret of the copied API keys does not have.
abbrev pub Unread :
    Client → Option String → Option String → Option String → SecretKeySelector → Type 0
Unread c anthropic openai openrouter r =
    ((r.name ≡ "workspace-secrets") × (r.key ≡ "server-password"))
    ⊎ (lookup r.key (api_keys_of c anthropic openai openrouter) ≡ none)

-- Whatever API keys are copied to the workspace's Secret for them, the workspace's environment
-- reads none of the copies: every key of a Secret that it refers to is the server password's, or
-- one that the Secret of the copies does not have.
pub env_vars-Unread :
    (c : Client) (anthropic openai openrouter : Option String) (ws : OpenCodeWorkspace)
    → AllRefs (Unread c anthropic openai openrouter) (build_provider_env_vars ws)
env_vars-Unread c a o r ws =
    AllRefs-map Known (Unread c a o r)
      (λ ref known. elim known [
        | inl password ↦ inl password
        | inr e ↦ inr (rw e (no_api_key c a o r))
      ])
      (build_provider_env_vars ws) (env_vars-Known ws)
