-- ===== src/Operator/Resources/Secrets/Kept.antt =====
-- What becomes of the workspace's own Secret when it is reconciled again.
use k8s_opencode.Common.{String, some, ◌≡◌, ◌∙◌, sym, ap, arith, eq_iff, Option-cases, inl, inr}
use k8s_opencode.Common.Dict.{Dict, lookup, insert, lookup-insert}
use k8s_opencode.Operator.Exec.{Exec, ok, pure, raise}
use k8s_opencode.Operator.Exec.Inversion.{Result-cases, lift-bind, try-ok, try-err}
use k8s_opencode.Operator.Api.{OpenCodeWorkspace}
use k8s_opencode.Operator.Object.{Secret}
use k8s_opencode.Operator.Client.{Client}
use k8s_opencode.Operator.EmailMap.{allocated}
use k8s_opencode.Operator.Resources.Owned.{own}
use k8s_opencode.Operator.Resources.Secrets.{choose_password, keep_or_set, set_workspace_secret}

module _ (c : Client) (ws : OpenCodeWorkspace) where
  keep_or_set-kept :
      (d d' : Dict String) (k v : String) (w : c.World)
      → (keep_or_set c ws d w).0 ≡ ok d'
      → lookup k d ≡ some v
      → lookup k d' ≡ some v
  unfolding keep_or_set pure raise
  keep_or_set-kept d d' k v w h e = elim (Option-cases (lookup "server-password" d)) [
    | inl absent ↦ elim (Result-cases (choose_password c ws w).0) [
      | inl (p, chosen) ↦
          let run =
            try-ok (choose_password c ws) (λ q. pure (insert "server-password" q d)) raise w p
              chosen in
          let same : insert "server-password" p d ≡ d' = cc (rw (absent, run) at h) in
          sym (ap (lookup k) same)
          ∙ ground (arith, lookup-insert "server-password" k p d, eq_iff "server-password" k)
      | inr (x, refused) ↦
          let run =
            try-err (choose_password c ws) (λ q. pure (insert "server-password" q d)) raise w x
              refused in
          absurd (cc (rw (absent, run) at h))
    ]
    | inr (p, present) ↦ let same : d ≡ d' = cc (rw present at h) in sym (ap (lookup k) same) ∙ e
  ]

-- No entry of the workspace's Secret is changed or lost when the Secret is reconciled again: the
-- server password that was generated first stays.
pub set_workspace_secret-kept :
    (c : Client) (ws : OpenCodeWorkspace) (secret secret' : Secret) (w : c.World) (k v : String)
    → (set_workspace_secret c ws secret w).0 ≡ ok secret'
    → lookup k (allocated secret.contents) ≡ some v
    → lookup k (allocated secret'.contents) ≡ some v
unfolding set_workspace_secret pure own raise
set_workspace_secret-kept c ws secret secret' w k v h e =
    let (m, owned, e₁) = lift-bind (c.set_owner_reference ws secret.meta) _ w secret' h in
    let d = allocated secret.contents in
    let f : Dict String → Exec c.World Secret =
      λ x. pure (record { meta = m; type = "Opaque"; contents = some x }) in
    elim (Result-cases (keep_or_set c ws d w).0) [
      | inl (d', kept) ↦
          let run = try-ok (keep_or_set c ws d) f raise w d' kept in
          let new : Secret = record { meta = m; type = "Opaque"; contents = some d' } in
          let same : new ≡ secret' = cc (rw (e₁, run) at h) in
          ap (λ (s : Secret). lookup k (allocated s.contents)) (sym same)
          ∙ keep_or_set-kept c ws d d' k v w kept e
      | inr (x, refused) ↦
          let run = try-err (keep_or_set c ws d) f raise w x refused in
          absurd (cc (rw (e₁, run) at h))
    ]
