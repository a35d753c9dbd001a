-- ===== src/Operator/Steady/Shape.antt =====
-- Functions that prepare the metadata, set the owner and fill in the object: applied to what such a
-- function has answered, it answers the same.
use k8s_opencode.Common.{◌≡◌, refl, sym, ap, ◌∙◌}
use k8s_opencode.Operator.Exec.{Exec, ok, pure, try, ◌>>=◌}
use k8s_opencode.Operator.Exec.Inversion.{lift-bind}
use k8s_opencode.Operator.Api.{OpenCodeWorkspace}
use k8s_opencode.Operator.Object.{ObjectMeta}
use k8s_opencode.Operator.Client.{Client}
use k8s_opencode.Operator.Resources.Owned.{own}
use k8s_opencode.Operator.Steady.Metadata.{OwnerLaw}

-- Applied to its own answer, in whatever state of the cluster, `f` answers it again.
pub record IsSteady {W X : Type 0} (f : X → Exec W X) : Type 0 where
  pub again : (x y : X) (w w' : W) → (f x w).0 ≡ ok y → (f y w').0 ≡ ok y

module _ {X : Type 0} (c : Client) (law : OwnerLaw c) (ws : OpenCodeWorkspace)
    (touch : ObjectMeta → ObjectMeta) (meta : X → ObjectMeta) (put : X → ObjectMeta → X) where
  abbrev pub shaped : X → Exec c.World X
  shaped x = own c ws (touch (meta x)) >>= λ m. pure (put x m)

  pub shaped-IsSteady :
      ((m m' : ObjectMeta)
        → m'.labels ≡ (touch m).labels
        → m'.annotations ≡ (touch m).annotations
        → touch m' ≡ m')
      → ((x : X) (m : ObjectMeta) → meta (put x m) ≡ m)
      → ((x : X) (m : ObjectMeta) → put (put x m) m ≡ put x m)
      → IsSteady shaped
  unfolding own pure try
  shaped-IsSteady touched metas puts = record {
    again = λ x y w w' h.
        (let (m, owned, run) = lift-bind (c.set_owner_reference ws (touch (meta x))) _ w y h in
          let same : put x m ≡ y = cc (rw run at h) in
          let kept = law.only_owners ws _ m owned in
          let still : touch m ≡ m =
            touched (meta x) m (ap (λ (o : ObjectMeta). o.labels) kept)
              (ap (λ (o : ObjectMeta). o.annotations) kept) in
          let owned_again : c.set_owner_reference ws (touch (meta y)) ≡ ok m =
            ap (λ z. c.set_owner_reference ws (touch (meta z))) (sym same)
            ∙ ap (λ z. c.set_owner_reference ws (touch z)) (metas x m)
            ∙ ap (λ z. c.set_owner_reference ws z) still
            ∙ law.settled ws _ m m owned refl refl in
          rw owned_again (ap ok (ap (λ z. put z m) (sym same) ∙ puts x m ∙ same)));
  }
