-- ===== src/Operator/Steady/Mutations.antt =====
-- Each function that the operator gives to CreateOrUpdate is steady.
use k8s_opencode.Common.{
  String, false, Option, none, some, List, [], ◌∷◌, ◌≡◌, refl, sym, ap, ◌∙◌, ◌==◌, arith,
}
use k8s_opencode.Common.Dict.{Dict, lookup, insert}
use k8s_opencode.Operator.Exec.{ok, pure, try}
use k8s_opencode.Operator.Exec.Inversion.{bind-ok, lift-bind}
use k8s_opencode.Operator.Api.{OpenCodeWorkspace, Quantity}
use k8s_opencode.Operator.Object.{ObjectMeta, Namespace, Secret, ConfigMap}
use k8s_opencode.Operator.Client.{Client}
use k8s_opencode.Operator.Resources.Owned.{own, put_label, label_namespace}
use k8s_opencode.Operator.Resources.Network.{isolate}
use k8s_opencode.Operator.Resources.Claims.{class_of, request_storage}
use k8s_opencode.Operator.Resources.Tailscale.{tag, annotate, expose}
use k8s_opencode.Operator.Resources.Secrets.{keep_or_set, set_workspace_secret, set_provider_secret}
use k8s_opencode.Operator.Resources.Config.{ConfigCodec, set_config}
use k8s_opencode.Operator.Resources.Kubedock.{
  set_service_account, set_role, set_role_binding, set_deployment, set_kubedock_service,
}
use k8s_opencode.Operator.Resources.Workload.{set_stateful_set, set_service}
use k8s_opencode.Operator.Steady.Metadata.{
  OwnerLaw, insert-present, two_labels-present, put_label-present, lookup-inserted,
  lookup-inserted_other,
}
use k8s_opencode.Operator.EmailMap.{allocated}
use k8s_opencode.Operator.Supplies.Parts.{keep_or_set-present}
use k8s_opencode.Operator.Steady.Shape.{IsSteady, shaped, shaped-IsSteady}

class_of-again :
    (configured : String) (present : Option String)
    → class_of configured (class_of configured present) ≡ class_of configured present
unfolding class_of
class_of-again configured (some present) = refl
class_of-again configured none = ground arith

tag-again :
    (tags : Option (List String)) (hostname : String) (d : Dict String)
    → tag tags (
        insert "tailscale.com/hostname" hostname
          (tag tags (insert "tailscale.com/hostname" hostname d)))
      ≡ tag tags (insert "tailscale.com/hostname" hostname d)
tag-again none hostname d = insert-present _ hostname _ (lookup-inserted _ hostname d)
tag-again (some []) hostname d = insert-present _ hostname _ (lookup-inserted _ hostname d)
tag-again (some (t ∷ ts)) hostname d =
    let d' = insert "tailscale.com/hostname" hostname d in
    ap (insert "tailscale.com/tags" t) (
      insert-present "tailscale.com/hostname" hostname (insert "tailscale.com/tags" t d')
        (lookup-inserted_other "tailscale.com/hostname" "tailscale.com/tags" hostname t d refl))
    ∙ insert-present "tailscale.com/tags" t _ (lookup-inserted "tailscale.com/tags" t d')

annotate-present :
    (ws : OpenCodeWorkspace) (hostname : String) (m m' : ObjectMeta)
    → m'.annotations ≡ (annotate ws hostname m).annotations
    → annotate ws hostname m' ≡ m'
annotate-present ws hostname m m' e =
    ap (λ l. record m' { annotations = l })
      (rw e (ap some (tag-again ws.spec.tailscale.ingress_tags hostname _)))

module _ (c : Client) (law : OwnerLaw c) (ws : OpenCodeWorkspace) where
  -- The owner is all the metadata.
  owned-IsSteady :
      {X : Type 0} (meta : X → ObjectMeta) (put : X → ObjectMeta → X)
      → ((x : X) (m : ObjectMeta) → meta (put x m) ≡ m)
      → ((x : X) (m : ObjectMeta) → put (put x m) m ≡ put x m)
      → IsSteady (shaped c law ws (λ m. m) meta put)
  owned-IsSteady meta put metas puts =
      shaped-IsSteady c law ws (λ m. m) meta put (λ m m' e f. refl) metas puts

  -- There are two labels besides.
  labelled-IsSteady :
      {X : Type 0} (k v k' v' : String) (meta : X → ObjectMeta) (put : X → ObjectMeta → X)
      → (k' == k) ≡ false
      → ((x : X) (m : ObjectMeta) → meta (put x m) ≡ m)
      → ((x : X) (m : ObjectMeta) → put (put x m) m ≡ put x m)
      → IsSteady (shaped c law ws (λ m. put_label k' v' (put_label k v m)) meta put)
  labelled-IsSteady k v k' v' meta put n metas puts =
      shaped-IsSteady c law ws _ meta put (λ m m' e f. two_labels-present k v k' v' m m' n e) metas
        puts

  pub isolate-IsSteady : IsSteady (isolate c ws)
  unfolding isolate
  isolate-IsSteady = owned-IsSteady (λ np. np.meta) _ (λ x m. refl) (λ x m. refl)

  pub request_storage-IsSteady : (size : Quantity) → IsSteady (request_storage c ws size)
  unfolding request_storage
  request_storage-IsSteady size =
      owned-IsSteady (λ pvc. pvc.meta) _ (λ x m. refl)
        (λ x m.
          ap
            (λ s. record x {
              meta = m;
              access_modes = "ReadWriteOnce" ∷ [];
              requests = ("storage", size) ∷ [];
              storage_class_name = s;
            })
            (class_of-again ws.spec.storage.storage_class_name x.storage_class_name))

  pub set_provider_secret-IsSteady : (keys : Dict String) → IsSteady (set_provider_secret c ws keys)
  unfolding set_provider_secret
  set_provider_secret-IsSteady keys =
      owned-IsSteady (λ (s : Secret). s.meta) _ (λ x m. refl) (λ x m. refl)

  pub set_config-IsSteady :
      (jc : ConfigCodec) (payload : String) → IsSteady (set_config jc c ws payload)
  unfolding set_config
  set_config-IsSteady jc payload =
      owned-IsSteady (λ (cm : ConfigMap). cm.meta) _ (λ x m. refl)
        (λ x m.
          ap (λ d. record { meta = m; contents = some d })
            (insert-present "opencode.json" payload _ (lookup-inserted "opencode.json" payload _)))

  pub set_stateful_set-IsSteady : IsSteady (set_stateful_set c ws)
  unfolding set_stateful_set
  set_stateful_set-IsSteady =
      labelled-IsSteady _ _ _ _ (λ s. s.meta) _ refl (λ x m. refl) (λ x m. refl)

  pub set_service-IsSteady : IsSteady (set_service c ws)
  unfolding set_service
  set_service-IsSteady = labelled-IsSteady _ _ _ _ (λ s. s.meta) _ refl (λ x m. refl) (λ x m. refl)

  pub set_service_account-IsSteady : IsSteady (set_service_account c ws)
  unfolding set_service_account
  set_service_account-IsSteady =
      labelled-IsSteady _ _ _ _ (λ s. s.meta) _ refl (λ x m. refl) (λ x m. refl)

  pub set_role-IsSteady : IsSteady (set_role c ws)
  unfolding set_role
  set_role-IsSteady = labelled-IsSteady _ _ _ _ (λ s. s.meta) _ refl (λ x m. refl) (λ x m. refl)

  pub set_role_binding-IsSteady : (namespace : String) → IsSteady (set_role_binding c ws namespace)
  unfolding set_role_binding
  set_role_binding-IsSteady namespace =
      labelled-IsSteady _ _ _ _ (λ s. s.meta) _ refl (λ x m. refl) (λ x m. refl)

  pub set_deployment-IsSteady : IsSteady (set_deployment c ws)
  unfolding set_deployment
  set_deployment-IsSteady =
      labelled-IsSteady _ _ _ _ (λ s. s.meta) _ refl (λ x m. refl) (λ x m. refl)

  pub set_kubedock_service-IsSteady : IsSteady (set_kubedock_service c ws)
  unfolding set_kubedock_service
  set_kubedock_service-IsSteady =
      labelled-IsSteady _ _ _ _ (λ s. s.meta) _ refl (λ x m. refl) (λ x m. refl)

  pub expose-IsSteady : (hostname : String) → IsSteady (expose c ws hostname)
  unfolding expose
  expose-IsSteady hostname =
      shaped-IsSteady c law ws
        (λ m. annotate ws hostname (
          put_label "app.kubernetes.io/workspace" ws.name
            (put_label "app.kubernetes.io/managed-by" "opencode-operator" m)))
        (λ i. i.meta) _
        (λ m m' e f.
          ap (annotate ws hostname) (two_labels-present _ _ _ _ m m' refl e)
          ∙ annotate-present ws hostname m m' f)
        (λ x m. refl) (λ x m. refl)

  pub label_namespace-IsSteady : IsSteady (label_namespace c ws)
  unfolding label_namespace own pure try
  label_namespace-IsSteady = record {
    again = λ x y w w' h.
        (let (m, owned, run) = lift-bind (c.set_owner_reference ws x.meta) _ w y h in
          let labelled = put_label "opencode.io/workspace" ws.name m in
          let same : record { meta = labelled } ≡ y = cc (rw run at h) in
          let owned_again : c.set_owner_reference ws y.meta ≡ ok labelled =
            ap (λ (z : Namespace). c.set_owner_reference ws z.meta) (sym same)
            ∙ law.settled ws x.meta m labelled owned refl refl in
          let present : put_label "opencode.io/workspace" ws.name labelled ≡ labelled =
            put_label-present _ ws.name labelled _ refl (lookup-inserted _ ws.name _) in
          rw owned_again (ap ok (ap (λ z. record { meta = z }) present ∙ same)));
  }

  -- The password that is there is kept, so that no other is drawn.
  pub set_workspace_secret-IsSteady : IsSteady (set_workspace_secret c ws)
  unfolding set_workspace_secret keep_or_set own pure try
  set_workspace_secret-IsSteady = record {
    again = λ x y w w' h.
        (let (m, owned, run) = lift-bind (c.set_owner_reference ws x.meta) _ w y h in
          let (d, kept, made) =
            bind-ok (keep_or_set c ws (allocated x.contents)) _ w y (rw run at h) in
          let same : record { meta = m; type = "Opaque"; contents = some d } ≡ y = cc (made) in
          let (p, present) = keep_or_set-present c ws (allocated x.contents) d w kept in
          let owned_again : c.set_owner_reference ws y.meta ≡ ok m =
            ap (λ (z : Secret). c.set_owner_reference ws z.meta) (sym same)
            ∙ law.settled ws x.meta m m owned refl refl in
          let there : lookup "server-password" (allocated y.contents) ≡ some p =
            ap (λ (z : Secret). lookup "server-password" (allocated z.contents)) (sym same)
            ∙ present in
          let contents_same : some (allocated y.contents) ≡ some d =
            ap (λ (z : Secret). some (allocated z.contents)) (sym same) in
          rw (owned_again, there)
            (ap (λ l. ok (record { meta = m; type = "Opaque"; contents = l })) contents_same
              ∙ ap ok same));
  }
