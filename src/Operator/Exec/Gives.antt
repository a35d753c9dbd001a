-- ===== src/Operator/Exec/Gives.antt =====
-- What the success of a function brings about: one rule for each way to build a function.
use k8s_opencode.Common.{String, ◌≡◌, refl}
use k8s_opencode.Operator.Exec.{Result, ok, err, Exec, raise, try, wrapping, ◌>>=◌}
use k8s_opencode.Operator.Exec.Inversion.{wrapping-ok}
use k8s_opencode.Operator.Exec.Keeps.{Keeps}

-- Where `m` succeeds, `P` holds of the world it leaves.
pub record Gives {W A : Type 0} (P : W → Type 0) (m : Exec W A) : Type 0 where
  pub at : (w : W) (a : A) → (m w).0 ≡ ok a → P (m w).1

module _ {W A B : Type 0} {P : W → Type 0} where
  -- The last call brings it about.
  pub Gives-last : (m : Exec W A) (f : A → Exec W B) → ((a : A) → Gives P (f a)) → Gives P (m >>= f)
  unfolding try raise
  Gives-last m f gf = record { at = λ w b h. answer (m w).0 (m w).1 b h }
    where
      answer :
          (r : Result A) (u : W) (b : B)
          → (try (λ _. (r, u)) f raise u).0 ≡ ok b
          → P (try (λ _. (r, u)) f raise u).1
      answer (ok a) u b h = (gf a).at u b h
      answer (err e) u b h = absurd (cc (h))

  -- The first call brings it about, and the rest keeps it.
  pub Gives-first :
      (m : Exec W A) (f : A → Exec W B) → Gives P m → ((a : A) → Keeps P (f a)) → Gives P (m >>= f)
  unfolding try raise
  Gives-first m f gm kf = record { at = λ w b h. answer (m w).0 (m w).1 b (λ a e. gm.at w a e) h }
    where
      answer :
          (r : Result A) (u : W) (b : B)
          → ((a : A) → r ≡ ok a → P u)
          → (try (λ _. (r, u)) f raise u).0 ≡ ok b
          → P (try (λ _. (r, u)) f raise u).1
      answer (ok a) u b l h = (kf a).at u (l a refl)
      answer (err e) u b l h = absurd (cc (h))

pub Gives-wrapping :
    {W A : Type 0} {P : W → Type 0} (text : String) (m : Exec W A)
    → Gives P m
    → Gives P (wrapping text m)
Gives-wrapping text m gm = record {
  at = λ w a h. let (h', same) = wrapping-ok text m w a h in rw same (gm.at w a h');
}
