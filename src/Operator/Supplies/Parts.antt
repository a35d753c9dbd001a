-- ===== src/Operator/Supplies/Parts.antt =====
-- What each function leaves for the workspace's pods: the server password, the configuration, the
-- volumes and the StatefulSet.
use k8s_opencode.Common.{
  String, false, ◌==◌, ◌≢◌, Option, some, ◌≡◌, refl, Option-cases, eq_refl, inl, inr, sym, ap, ◌∙◌,
}
use k8s_opencode.Common.Dict.{Dict, lookup, insert, lookup-insert}
use k8s_opencode.Operator.Exec.{ok, pure}
use k8s_opencode.Operator.Exec.Inversion.{bind-ok}
use k8s_opencode.Operator.Exec.Gives.{Gives, Gives-first, Gives-last, Gives-wrapping}
use k8s_opencode.Operator.Exec.Keeps.{keeps_rules}
use k8s_opencode.Operator.Api.{OpenCodeWorkspace}
use k8s_opencode.Operator.Object.{
  Key, Secret, StatefulSet, ConfigMap, secret_kind, config_map_kind, claim_kind, stateful_set_kind,
}
use k8s_opencode.Operator.Client.{Client}
use mathlib.Core.Path.{subst}
use k8s_opencode.Operator.Contract.{
  SameInputs, Contract, Differs, verbatim_secret, verbatim_config_map,
}
use k8s_opencode.Operator.EmailMap.{allocated}
use k8s_opencode.Operator.Resources.Owned.{own}
use k8s_opencode.Operator.Resources.Secrets.{
  provider_secrets_name, choose_password, keep_or_set, set_workspace_secret,
  reconcile_workspace_secrets, reconcile_secrets,
}
use k8s_opencode.Operator.Resources.Config.{ConfigCodec, set_config, reconcile_config_map}
use k8s_opencode.Operator.Resources.Claims.{reconcile_claim, reconcile_pvcs}
use k8s_opencode.Operator.Resources.Workload.{
  pod_template, set_stateful_set, reconcile_stateful_set,
}
use k8s_opencode.Operator.Supplies.Stored.{Stored, Gives-there, Gives-written, Keeps-Stored}
use k8s_opencode.Operator.Isolation.Inside.{
  Keeps-provider_key, Keeps-write_provider_secret, Keeps-reconcile_claim,
}

abbrev pub in_namespace : String → String → Key
in_namespace namespace name = record { namespace = namespace; name = name }

-- Keys of other names are other keys.
pub other_name : (key key' : Key) → (key.name == key'.name) ≡ false → key ≢ key'
other_name key key' n e =
    let h : (key.name == key.name) ≡ (key.name == key'.name) =
      ap (λ (k : Key). key.name == k.name) e in
    cc (h, n, eq_refl key.name)

abbrev pub HasEntry : String → Option (Dict String) → Type 0
HasEntry key contents = (v : String) × (lookup key (allocated contents) ≡ some v)

inserted : (key v : String) (d : Dict String) → lookup key (insert key v d) ≡ some v
inserted key v d = lookup-insert key key v d ∙ rw (eq_refl key) refl

module _ (c : Client) (ws : OpenCodeWorkspace) where
  pub keep_or_set-present :
      (d d' : Dict String) (w : c.World)
      → (keep_or_set c ws d w).0 ≡ ok d'
      → HasEntry "server-password" (some d')
  unfolding keep_or_set pure
  keep_or_set-present d d' w h = elim (Option-cases (lookup "server-password" d)) [
    | inl absent ↦
        let (p, chosen, set) =
          bind-ok (choose_password c ws) (λ q. pure (insert "server-password" q d)) w d'
            (rw absent at h) in
        (p, ap (lookup "server-password") (sym (cc (set))) ∙ inserted "server-password" p d)
    | inr (p, present) ↦ (p, ap (lookup "server-password") (sym (cc (rw present at h))) ∙ present)
  ]

  set_workspace_secret-present :
      (x : Secret) (u : c.World) (s : Secret)
      → (set_workspace_secret c ws x u).0 ≡ ok s
      → HasEntry "server-password" s.contents
  unfolding set_workspace_secret pure
  set_workspace_secret-present x u s h =
      let (m, owned, set) = bind-ok (own c ws x.meta) _ u s h in
      let (d, kept, made) = bind-ok (keep_or_set c ws (allocated x.contents)) _ _ s set in
      let (p, e) = keep_or_set-present (allocated x.contents) d _ kept in
      let same : record { meta = m; type = "Opaque"; contents = some d } ≡ s = cc (made) in
      (p, ap (λ (t : Secret). lookup "server-password" (allocated t.contents)) (sym same) ∙ e)

  set_config-present :
      (jc : ConfigCodec) (payload : String) (x : ConfigMap) (u : c.World) (cm : ConfigMap)
      → (set_config jc c ws payload x u).0 ≡ ok cm
      → HasEntry "opencode.json" cm.contents
  unfolding set_config pure
  set_config-present jc payload x u cm h =
      let (m, owned, made) = bind-ok (own c ws x.meta) _ u cm h in
      let d = insert "opencode.json" payload (allocated x.contents) in
      let same : record { meta = m; contents = some d } ≡ cm = cc (made) in
      (
        payload,
        ap (λ (t : ConfigMap). lookup "opencode.json" (allocated t.contents)) (sym same)
            ∙ inserted "opencode.json" payload (allocated x.contents),
      )

-- The pods have the volumes and the environments of the operator's template.
abbrev pub HasTemplate : StatefulSet → Type 0
HasTemplate s = (ws : OpenCodeWorkspace) × SameInputs (pod_template ws) s.template

set_stateful_set-template :
    (c : Client) (ws : OpenCodeWorkspace) (x s : StatefulSet) (u : c.World)
    → (set_stateful_set c ws x u).0 ≡ ok s
    → s.template ≡ pod_template ws
unfolding set_stateful_set pure
set_stateful_set-template c ws x s u h =
    let (m, owned, made) = bind-ok (own c ws _) _ u s h in cc (made)

-- The Secret of the workspace has the server password, its ConfigMap the configuration.
module _ (c : Client) (contract : Contract c) (namespace : String) where
  abbrev pub PasswordStored : c.World → Type 0
  PasswordStored =
      Stored c contract secret_kind (in_namespace namespace "workspace-secrets")
        (λ s. HasEntry "server-password" s.contents)

  abbrev pub ConfigStored : c.World → Type 0
  ConfigStored =
      Stored c contract config_map_kind (in_namespace namespace "opencode-config")
        (λ cm. HasEntry "opencode.json" cm.contents)

  abbrev pub ClaimStored : String → c.World → Type 0
  ClaimStored name = Stored c contract claim_kind (in_namespace namespace name) (λ p. Unit)

  abbrev pub SetStored : c.World → Type 0
  SetStored = Stored c contract stateful_set_kind (in_namespace namespace "workspace") HasTemplate

  module _ (ws : OpenCodeWorkspace) where
    pub Gives-reconcile_secrets : Gives PasswordStored (reconcile_secrets c ws namespace)
    unfolding reconcile_secrets reconcile_workspace_secrets
    Gives-reconcile_secrets =
        Gives-first (reconcile_workspace_secrets c ws namespace) _
          (Gives-wrapping _ _ (
            Gives-written c contract secret_kind _ verbatim_secret _ _
              (set_workspace_secret-present c ws)))
          (λ a. Keeps-Stored c contract secret_kind _ _ _ (λ o.
            let other : Differs secret_kind (in_namespace namespace provider_secrets_name)
                secret_kind (in_namespace namespace "workspace-secrets") =
              inr (other_name _ _ refl) in
            search (keeps_rules, Keeps-provider_key, Keeps-write_provider_secret, other) depth 14))

    pub Gives-reconcile_config_map :
        (jc : ConfigCodec) (keys : Dict String)
        → Gives ConfigStored (reconcile_config_map jc c ws namespace keys)
    unfolding reconcile_config_map
    Gives-reconcile_config_map jc keys = Gives-last _ _ (λ skills. Gives-last _ _ (λ payload.
        Gives-wrapping _ _ (
          Gives-written c contract config_map_kind _ verbatim_config_map _ _
            (set_config-present c ws jc payload))))

    pub Gives-workspace_claim : Gives (ClaimStored "workspace-pvc") (reconcile_pvcs c ws namespace)
    unfolding reconcile_pvcs reconcile_claim
    Gives-workspace_claim =
        Gives-first _ _ (Gives-there c contract claim_kind (λ p. Unit) _ _ (λ p. tt)) (λ a.
          Keeps-Stored c contract claim_kind _ _ _ (λ o.
            let other : Differs claim_kind (in_namespace namespace "data-pvc") claim_kind
                (in_namespace namespace "workspace-pvc") =
              inr (other_name _ _ refl) in
            Keeps-reconcile_claim c contract claim_kind _ o ws namespace "data-pvc" _ other))

    pub Gives-data_claim : Gives (ClaimStored "data-pvc") (reconcile_pvcs c ws namespace)
    unfolding reconcile_pvcs reconcile_claim
    Gives-data_claim =
        Gives-last _ _ (λ a. Gives-there c contract claim_kind (λ p. Unit) _ _ (λ p. tt))

    pub Gives-reconcile_stateful_set : Gives SetStored (reconcile_stateful_set c ws namespace)
    unfolding reconcile_stateful_set
    Gives-reconcile_stateful_set = Gives-wrapping _ _ (record {
      at = λ w a h.
          (let (x, u, o, s, answered, there, inputs) =
              contract.create_or_update_template _ (set_stateful_set c ws) w h in
            let same = set_stateful_set-template c ws x o u answered in
            record {
              object = s;
              there = there;
              meets = (ws, subst (λ t. SameInputs t s.template) same inputs);
            });
    })
