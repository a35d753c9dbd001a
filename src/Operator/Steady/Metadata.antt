-- ===== src/Operator/Steady/Metadata.antt =====
-- Labels and annotations that are there already are put on without a change, also after the owner
-- has been set.
use k8s_opencode.Common.{
  String, false, none, some, [], ◌∷◌, ◌≡◌, refl, ap, ◌∙◌, ◌==◌, eq_iff, eq_refl, arith,
}
use k8s_opencode.Common.Dict.{Dict, lookup, insert, lookup-insert}
use k8s_opencode.Operator.Exec.{ok}
use k8s_opencode.Operator.Api.{OpenCodeWorkspace}
use k8s_opencode.Operator.Object.{ObjectMeta}
use k8s_opencode.Operator.Client.{Client}
use k8s_opencode.Operator.Resources.Owned.{put_label}

pub insert-present :
    {V : Type 0} (k : String) (v : V) (d : Dict V) → lookup k d ≡ some v → insert k v d ≡ d
unfolding insert lookup
insert-present k v [] h = absurd (cc (h))
insert-present k v ((j, w) ∷ d) h =
    let rest = insert-present k v d in ground (arith, rest, eq_iff j k, h)

-- What is relied on of SetOwnerReference: it changes nothing but the owner references, and where
-- they are as it has left them it changes nothing.
pub record OwnerLaw (c : Client) : Type 0 where
  pub only_owners :
      (ws : OpenCodeWorkspace) (m m' : ObjectMeta)
      → c.set_owner_reference ws m ≡ ok m'
      → m' ≡ record m { owner_references = m'.owner_references }
  pub settled :
      (ws : OpenCodeWorkspace) (m m' m'' : ObjectMeta)
      → c.set_owner_reference ws m ≡ ok m'
      → m''.namespace ≡ m'.namespace
      → m''.owner_references ≡ m'.owner_references
      → c.set_owner_reference ws m'' ≡ ok m''

pub put_label-present :
    (k v : String) (m : ObjectMeta) (d : Dict String)
    → m.labels ≡ some d
    → lookup k d ≡ some v
    → put_label k v m ≡ m
put_label-present k v m d there present =
    ap (λ l. record m { labels = l }) (rw there (ap some (insert-present k v d present)))

pub lookup-inserted :
    {V : Type 0} (k : String) (v : V) (d : Dict V) → lookup k (insert k v d) ≡ some v
lookup-inserted k v d = lookup-insert k k v d ∙ rw (eq_refl k) refl

pub lookup-inserted_other :
    {V : Type 0} (k k' : String) (v v' : V) (d : Dict V)
    → (k' == k) ≡ false
    → lookup k (insert k' v' (insert k v d)) ≡ some v
lookup-inserted_other k k' v v' d n =
    lookup-insert k' k v' (insert k v d) ∙ rw n (lookup-inserted k v d)

-- Two labels.
pub two_labels-present :
    (k v k' v' : String) (m m' : ObjectMeta)
    → (k' == k) ≡ false
    → m'.labels ≡ (put_label k' v' (put_label k v m)).labels
    → put_label k' v' (put_label k v m') ≡ m'
two_labels-present k v k' v' m m' n e =
    let d = insert k v (elim m.labels [ none ↦ [] | some d ↦ d ]) in
    ap (put_label k' v')
      (put_label-present k v m' (insert k' v' d) e (lookup-inserted_other k k' v v' _ n))
    ∙ put_label-present k' v' m' (insert k' v' d) e (lookup-inserted k' v' d)
