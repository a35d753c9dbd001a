-- ===== src/Operator/DeepCopy/Slices.antt =====
-- The copies of a slice's elements and of what is behind a reference.
use mathlib.Core.Path.{subst}
use k8s_opencode.Common.{
  ℕ, suc, ◌≤◌, ◌<◌, Option, none, some, List, [], ◌∷◌, ◌≡◌, refl, sym, ap, ◌∙◌, arith,
}
use k8s_opencode.Operator.DeepCopy.Heap.{
  Heap, alloc, alloc-new, alloc-kept, Agrees, Copier, IsCopied, IsDeep,
}

module _ {C V A : Type 0} (k : Copier C V A) where
  -- `for i := range *in { (*in)[i].DeepCopyInto(&(*out)[i]) }`
  abbrev pub copy_elements : List V → Heap C → List V × Heap C
  copy_elements [] h = ([], h)
  copy_elements (v ∷ vs) h =
      let first = k.deep_copy_into v h in
      let rest = copy_elements vs first.1 in (first.0 ∷ rest.0, rest.1)

  abbrev pub AllStand : ℕ → ℕ → Heap C → List V → List A → Type 0
  AllStand lo hi h [] [] = Unit
  AllStand lo hi h [] (a ∷ bs) = ⊥
  AllStand lo hi h (v ∷ vs) [] = ⊥
  AllStand lo hi h (v ∷ vs) (a ∷ bs) = k.stands lo hi h v a × AllStand lo hi h vs bs

  abbrev pub elements : Copier C (List V) (List A)
  elements = record { deep_copy_into = copy_elements; stands = AllStand }

  module _ (d : IsDeep k) where
    elements-moved :
        (lo hi lo' hi' : ℕ) (h h' : Heap C) (vs : List V) (bs : List A)
        → lo' ≤ lo
        → hi ≤ hi'
        → Agrees lo hi h h'
        → AllStand lo hi h vs bs
        → AllStand lo' hi' h' vs bs
    elements-moved lo hi lo' hi' h h' [] [] l u s e = tt
    elements-moved lo hi lo' hi' h h' [] (a ∷ bs) l u s e = e
    elements-moved lo hi lo' hi' h h' (v ∷ vs) [] l u s e = e
    elements-moved lo hi lo' hi' h h' (v ∷ vs) (a ∷ bs) l u s (e, es) =
        (d.moved lo hi lo' hi' h h' v a l u s e, elements-moved lo hi lo' hi' h h' vs bs l u s es)

    elements-copied :
        (h : Heap C) (vs : List V) (bs : List A)
        → AllStand 0 h.next h vs bs
        → IsCopied elements h bs (copy_elements vs h).0 (copy_elements vs h).1
    elements-copied h [] [] e = record { grown = omega arith; kept = λ p l u. refl; same = tt }
    elements-copied h [] (a ∷ bs) e = absurd e
    elements-copied h (v ∷ vs) [] e = absurd e
    elements-copied h (v ∷ vs) (a ∷ bs) (e, es) =
        let first = d.copied h v a e in
        let h' = (k.deep_copy_into v h).1 in
        let second =
          elements-copied h' vs bs (
            elements-moved 0 h.next 0 h'.next h h' vs bs (omega arith) first.grown first.kept es) in
        let h'' = (copy_elements vs h').1 in
        record {
          grown = omega (arith, first.grown, second.grown);
          kept = λ p l b. second.kept p l (omega (arith, first.grown, b)) ∙ first.kept p l b;
          same = (
            d.moved h.next h'.next h.next h''.next h' h'' _ a (omega arith) second.grown
                (λ p l b. second.kept p (omega arith) b) first.same,
            elements-moved h'.next h''.next h.next h''.next h'' h'' _ bs first.grown (omega arith)
                (λ p l b. refl) second.same,
          );
        }

    pub elements-IsDeep : IsDeep elements
    elements-IsDeep = record { moved = elements-moved; copied = elements-copied }

-- A reference to a cell of one kind; nil is `none`.
module _ {C V A : Type 0} (wrap : V → C) (unwrap : C → Option V) (k : Copier C V A) where
  abbrev contents : Option C → Option V
  contents none = none
  contents (some c) = unwrap c

  abbrev pub pointee : ℕ → Heap C → Option V
  pointee p h = contents (h.cells p)

  abbrev copy_pointee : ℕ → Option V → Heap C → Option ℕ × Heap C
  copy_pointee p none h = (some p, h)
  copy_pointee p (some v) h =
      let content = k.deep_copy_into v h in
      let place = alloc (wrap content.0) content.1 in (some place.0, place.1)

  -- `if in.F != nil { in, out := &in.F, &out.F; *out = make(…); … }`; a reference of a Go value is to
  -- a cell of its kind, so one to another cell does not occur. The cell is made with what it will hold,
  -- after the elements' own references are copied, and not before: only the addresses differ.
  abbrev pub copy_reference : Option ℕ → Heap C → Option ℕ × Heap C
  copy_reference none h = (none, h)
  copy_reference (some p) h = copy_pointee p (pointee p h) h

  abbrev pub Refers : ℕ → ℕ → Heap C → Option ℕ → Option A → Type 0
  Refers lo hi h none none = Unit
  Refers lo hi h none (some a) = ⊥
  Refers lo hi h (some p) none = ⊥
  Refers lo hi h (some p) (some a) =
      (lo ≤ p) × (p < hi) × (v : V) × (h.cells p ≡ some (wrap v)) × k.stands lo hi h v a

  abbrev pub reference : Copier C (Option ℕ) (Option A)
  reference = record { deep_copy_into = copy_reference; stands = Refers }

  module _ (read : (v : V) → unwrap (wrap v) ≡ some v) (d : IsDeep k) where
    reference-moved :
        (lo hi lo' hi' : ℕ) (h h' : Heap C) (r : Option ℕ) (a : Option A)
        → lo' ≤ lo
        → hi ≤ hi'
        → Agrees lo hi h h'
        → Refers lo hi h r a
        → Refers lo' hi' h' r a
    reference-moved lo hi lo' hi' h h' none none l u s e = tt
    reference-moved lo hi lo' hi' h h' none (some a) l u s e = e
    reference-moved lo hi lo' hi' h h' (some p) none l u s e = e
    reference-moved lo hi lo' hi' h h' (some p) (some a) l u s (from, below, v, holds, e) = (
      omega (arith, l, from),
      omega (arith, u, below),
      v,
      s p from below ∙ holds,
      d.moved lo hi lo' hi' h h' v a l u s e,
    )

    pointee_eq : (h : Heap C) (p : ℕ) (v : V) → h.cells p ≡ some (wrap v) → pointee p h ≡ some v
    pointee_eq h p v holds = ap contents holds ∙ read v

    placed :
        (h : Heap C) (p : ℕ) (v : V) (a : A)
        → k.stands 0 h.next h v a
        → IsCopied reference h (some a) (copy_pointee p (some v) h).0 (copy_pointee p (some v) h).1
    unfolding alloc
    placed h p v a e =
        let content = d.copied h v a e in
        let h' = (k.deep_copy_into v h).1 in
        let v' = (k.deep_copy_into v h).0 in
        record {
          grown = omega (arith, content.grown);
          kept = λ q l u.
              alloc-kept (wrap v') h' q l (omega (arith, content.grown, u)) ∙ content.kept q l u;
          same = (
            content.grown,
            omega arith,
            v',
            alloc-new (wrap v') h',
            d.moved h.next h'.next h.next (suc h'.next) h' (alloc (wrap v') h').1 v' a (omega arith)
                (omega arith) (λ q l u. alloc-kept (wrap v') h' q (omega arith) u) content.same,
          );
        }

    reference-copied :
        (h : Heap C) (r : Option ℕ) (a : Option A)
        → Refers 0 h.next h r a
        → IsCopied reference h a (copy_reference r h).0 (copy_reference r h).1
    reference-copied h none none e = record { grown = omega arith; kept = λ p l u. refl; same = tt }
    reference-copied h none (some a) e = absurd e
    reference-copied h (some p) none e = absurd e
    reference-copied h (some p) (some a) (from, below, v, holds, e) =
        let there = pointee_eq h p v holds in
        subst (λ o. IsCopied reference h (some a) (copy_pointee p o h).0 (copy_pointee p o h).1)
          (sym there) (placed h p v a e)

    pub reference-IsDeep : IsDeep reference
    reference-IsDeep = record { moved = reference-moved; copied = reference-copied }
