-- ===== src/Operator/DeepCopy/Heap.antt =====
-- Go's memory as the deep copies see it, and ways to build a copy and to reason about it.

use k8s_opencode.Common.{
  ℕ, suc, ◌≤◌, ◌<◌, Option, some, ◌≡◌, refl, ◌∙◌, arith, nat_eq, if◌then◌else◌,
}

-- The addresses below `next` are in use; each holds the elements of a slice, a map or a struct.
pub record Heap (C : Type 0) : Type 0 where
  pub cells : ℕ → Option C
  pub next : ℕ

-- `make` and `new`: a cell that nothing else refers to
unfoldable pub alloc : {C : Type 0} → C → Heap C → ℕ × Heap C
alloc c h = (
  h.next,
  record { cells = λ p. if nat_eq p h.next then some c else h.cells p; next = suc h.next },
)

pub alloc-new : {C : Type 0} (c : C) (h : Heap C) → (alloc c h).1.cells h.next ≡ some c
unfolding alloc
alloc-new c h = ground arith

-- The cells from `lo` on and below `hi` are the same.
abbrev pub Agrees : {C : Type 0} → ℕ → ℕ → Heap C → Heap C → Type 0
Agrees lo hi h h' = (p : ℕ) → lo ≤ p → p < hi → h'.cells p ≡ h.cells p

pub alloc-kept : {C : Type 0} (c : C) (h : Heap C) → Agrees 0 h.next h (alloc c h).1
unfolding alloc
alloc-kept c h p l u = ground (arith, u)

-- How a Go value is copied, and when it stands for an abstract one: `stands lo hi h v a` says that
-- all that is reached from `v` in `h` is at addresses from `lo` on and below `hi`, and makes up `a`.
pub record Copier (C V A : Type 0) : Type 1 where
  pub deep_copy_into : V → Heap C → V × Heap C
  pub stands : ℕ → ℕ → Heap C → V → A → Type 0

module _ {C V A : Type 0} (k : Copier C V A) where
  -- The copy is made of new cells only, stands for the same, and leaves the old cells as they are.
  pub record IsCopied (h : Heap C) (a : A) (v' : V) (h' : Heap C) : Type 0 where
    pub grown : h.next ≤ h'.next
    pub kept : Agrees 0 h.next h h'
    pub same : k.stands h.next h'.next h' v' a

  pub record IsDeep : Type 0 where
    pub moved :
        (lo hi lo' hi' : ℕ) (h h' : Heap C) (v : V) (a : A)
        → lo' ≤ lo
        → hi ≤ hi'
        → Agrees lo hi h h'
        → k.stands lo hi h v a
        → k.stands lo' hi' h' v a
    pub copied :
        (h : Heap C) (v : V) (a : A)
        → k.stands 0 h.next h v a
        → IsCopied h a (k.deep_copy_into v h).0 (k.deep_copy_into v h).1

module _ {C : Type 0} where
  -- `*out = *in`, of a struct without references
  abbrev pub flat : (V : Type 0) → Copier C V V
  flat V = record { deep_copy_into = λ v h. (v, h); stands = λ lo hi h v a. v ≡ a }

  pub flat-IsDeep : (V : Type 0) → IsDeep (flat V)
  flat-IsDeep V = record {
    moved = λ lo hi lo' hi' h h' v a l u s e. e;
    copied = λ h v a e. record { grown = omega arith; kept = λ p l u. refl; same = e };
  }

  -- One field after the other.
  abbrev pub pair : {V W A B : Type 0} → Copier C V A → Copier C W B → Copier C (V × W) (A × B)
  pair k m = record {
    deep_copy_into = λ x h. (
      ((k.deep_copy_into x.0 h).0, (m.deep_copy_into x.1 (k.deep_copy_into x.0 h).1).0),
      (m.deep_copy_into x.1 (k.deep_copy_into x.0 h).1).1,
    );
    stands = λ lo hi h x a. k.stands lo hi h x.0 a.0 × m.stands lo hi h x.1 a.1;
  }

  pub pair-IsDeep :
      {V W A B : Type 0} (k : Copier C V A) (m : Copier C W B)
      → IsDeep k
      → IsDeep m
      → IsDeep (pair k m)
  pair-IsDeep k m dk dm = record {
    moved = λ lo hi lo' hi' h h' x a l u s e. (
      dk.moved lo hi lo' hi' h h' x.0 a.0 l u s e.0,
      dm.moved lo hi lo' hi' h h' x.1 a.1 l u s e.1,
    );
    copied = λ h x a e.
        (let first = dk.copied h x.0 a.0 e.0 in
          let h' = (k.deep_copy_into x.0 h).1 in
          let second =
            dm.copied h' x.1 a.1
              (dm.moved 0 h.next 0 h'.next h h' x.1 a.1 (omega arith) first.grown first.kept e.1) in
          let h'' = (m.deep_copy_into x.1 h').1 in
          record {
            grown = omega (arith, first.grown, second.grown);
            kept = λ p l b. second.kept p l (omega (arith, first.grown, b)) ∙ first.kept p l b;
            same = (
              dk.moved h.next h'.next h.next h''.next h' h'' _ a.0 (omega arith) second.grown
                  (λ p l b. second.kept p (omega arith) b) first.same,
              dm.moved h'.next h''.next h.next h''.next h'' h'' _ a.1 first.grown (omega arith)
                  (λ p l b. refl) second.same,
            );
          });
  }
