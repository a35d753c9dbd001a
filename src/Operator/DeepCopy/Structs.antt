-- ===== src/Operator/DeepCopy/Structs.antt =====
-- The copies of structs: of all fields at once, and then of those that hold references.
use k8s_opencode.Common.{◌≡◌}
use mathlib.Core.Path.{subst}
use k8s_opencode.Common.{sym}
use k8s_opencode.Operator.DeepCopy.Heap.{Copier, IsDeep}

-- `fields` and `put` are the fields with references, `meant` those of the abstract value; of the
-- others `Fixed` says that they are the same.
module _ {C V W A B : Type 0} (k : Copier C W B) (fields : V → W) (put : V → W → V) (meant : A → B)
    (Fixed : V → A → Type 0) where
  abbrev pub struct : Copier C V A
  struct = record {
    deep_copy_into =
        λ v h. (put v (k.deep_copy_into (fields v) h).0, (k.deep_copy_into (fields v) h).1);
    stands = λ lo hi h v a. Fixed v a × k.stands lo hi h (fields v) (meant a);
  }

  pub struct-IsDeep :
      ((v : V) (w : W) → fields (put v w) ≡ w)
      → ((v : V) (w : W) (a : A) → Fixed v a → Fixed (put v w) a)
      → IsDeep k
      → IsDeep struct
  struct-IsDeep get fixed d = record {
    moved = λ lo hi lo' hi' h h' v a l u s e.
        (e.0, d.moved lo hi lo' hi' h h' (fields v) (meant a) l u s e.1);
    copied = λ h v a e.
        (let inner = d.copied h (fields v) (meant a) e.1 in
          record {
            grown = inner.grown;
            kept = inner.kept;
            same = (
              fixed v _ a e.0,
              subst
                  (λ w.
                    k.stands h.next (k.deep_copy_into (fields v) h).1.next
                      (k.deep_copy_into (fields v) h).1 w (meant a))
                  (sym (get v (k.deep_copy_into (fields v) h).0)) inner.same,
            );
          });
  }
