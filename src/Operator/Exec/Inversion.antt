-- ===== src/Operator/Exec/Inversion.antt =====
-- What is known of the parts of a function that succeeded.
use k8s_opencode.Common.{String, ◌≡◌, refl, ◌⊎◌, inl, inr, arith}
use k8s_opencode.Operator.Exec.{
  Error, Result, ok, err, Exec, pure, raise, lift, try, wrap, wrapping,
}

module _ {W A B : Type 0} where
  pub lift-bind :
      (r : Result A) (f : A → Exec W B) (w : W) (b : B)
      → (try (lift r) f raise w).0 ≡ ok b
      → (a : A) × (r ≡ ok a) × (try (lift r) f raise w ≡ f a w)
  unfolding try
  lift-bind (ok a) f w b h = (a, refl, refl)
  lift-bind (err e) f w b h = cc

  pub try-ok :
      (m : Exec W A) (f : A → Exec W B) (g : Error → Exec W B) (w : W) (a : A)
      → (m w).0 ≡ ok a
      → try m f g w ≡ f a (m w).1
  unfolding try
  try-ok m f g w a h = rw h

  pub try-err :
      (m : Exec W A) (f : A → Exec W B) (g : Error → Exec W B) (w : W) (e : Error)
      → (m w).0 ≡ err e
      → try m f g w ≡ g e (m w).1
  unfolding try
  try-err m f g w e h = rw h

-- A success of two functions, one after the other, is one of both.
module _ {W A B : Type 0} where
  pub bind-ok :
      (m : Exec W A) (f : A → Exec W B) (w : W) (b : B)
      → (try m f raise w).0 ≡ ok b
      → (a : A) × ((m w).0 ≡ ok a) × ((f a (m w).1).0 ≡ ok b)
  unfolding try raise
  bind-ok m f w b h = answer (m w).0 (m w).1 h
    where
      answer :
          (r : Result A) (u : W)
          → (try (λ _. (r, u)) f raise u).0 ≡ ok b
          → (a : A) × (r ≡ ok a) × ((f a u).0 ≡ ok b)
      answer (ok a) u h = (a, refl, h)
      answer (err e) u h = absurd (cc (h))

pub Result-cases :
    {X : Type 0} (answer : Result X)
    → ((x : X) × (answer ≡ ok x)) ⊎ ((failure : Error) × (answer ≡ err failure))
Result-cases (err failure) = inr (failure, refl)
Result-cases (ok x) = inl (x, refl)

-- A success that an error's wrapping lets through is that of the function itself.
pub wrapping-ok :
    {W A : Type 0} (text : String) (m : Exec W A) (w : W) (a : A)
    → (wrapping text m w).0 ≡ ok a
    → ((m w).0 ≡ ok a) × ((wrapping text m w).1 ≡ (m w).1)
unfolding try
wrapping-ok text m w a h = ground arith

-- An error behind a wrapping is a wrapped one.
pub wrapping-err :
    {W A : Type 0} (text : String) (m : Exec W A) (w : W) (e : Error)
    → (wrapping text m w).0 ≡ err e
    → (x : Error) × ((m w).0 ≡ err x) × (e ≡ wrap text x) × ((wrapping text m w).1 ≡ (m w).1)
unfolding pure raise
wrapping-err text m w e h = elim (Result-cases (m w).0) [
  | inl (a, done) ↦ absurd (cc (rw (try-ok m pure (λ x. raise (wrap text x)) w a done) at h))
  | inr (x, refused) ↦
      let run = try-err m pure (λ x. raise (wrap text x)) w x refused in
      (x, refused, cc (rw run at h), rw run refl)
]
