-- ===== src/Operator/DeepCopy/Independent.antt =====
-- What a deep copy is for: the original and the copy share nothing, so that a write to one is not
-- seen in the other.
use k8s_opencode.Common.{◌≤◌, ◌∙◌, refl, arith}
use k8s_opencode.Operator.DeepCopy.Heap.{Heap, Agrees, Copier, IsDeep}

module _ {C V A : Type 0} (k : Copier C V A) where
  -- `v'` in `h'` stands for `a`, and does so after any writes to the cells below `n`; the
  -- original `v` stands for `a`, and does so after any writes to the cells from `n` on.
  pub record IsIndependent (h h' : Heap C) (v v' : V) (a : A) : Type 0 where
    pub copy_is_same : k.stands 0 h'.next h' v' a
    pub original_is_same : k.stands 0 h'.next h' v a
    pub copy_lasts :
        (h'' : Heap C)
        → h'.next ≤ h''.next
        → Agrees h.next h'.next h' h''
        → k.stands 0 h''.next h'' v' a
    pub original_lasts :
        (h'' : Heap C) → h'.next ≤ h''.next → Agrees 0 h.next h' h'' → k.stands 0 h''.next h'' v a

  pub IsDeep-IsIndependent :
      IsDeep k
      → (h : Heap C) (v : V) (a : A) → k.stands 0 h.next h v a
      → IsIndependent h (k.deep_copy_into v h).1 v (k.deep_copy_into v h).0 a
  IsDeep-IsIndependent d h v a e =
      let c = d.copied h v a e in
      let h' = (k.deep_copy_into v h).1 in
      let v' = (k.deep_copy_into v h).0 in
      record {
        copy_is_same =
            d.moved h.next h'.next 0 h'.next h' h' v' a (omega arith) (omega arith) (λ p l u. refl)
              c.same;
        original_is_same = d.moved 0 h.next 0 h'.next h h' v a (omega arith) c.grown c.kept e;
        copy_lasts = λ h'' grown agrees.
            d.moved h.next h'.next 0 h''.next h' h'' v' a (omega arith) grown agrees c.same;
        original_lasts = λ h'' grown agrees.
            d.moved 0 h.next 0 h''.next h h'' v a (omega arith) (omega (arith, c.grown, grown))
              (λ p l u. agrees p l u ∙ c.kept p l u) e;
      }
