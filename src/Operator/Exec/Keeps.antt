-- ===== src/Operator/Exec/Keeps.antt =====
-- Properties of the world that functions keep, whether they succeed or fail: one rule for each way
-- to build a function.
use k8s_opencode.Common.{Bool, true, false, Option, none, some, if◌then◌else◌}
use k8s_opencode.Operator.Exec.{Error, Result, ok, err, Exec, pure, raise, lift, try, option}

-- `m` keeps `P`, whatever it answers.
pub record Keeps {W X : Type 0} (P : W → Type 0) (m : W → X × W) : Type 0 where
  pub at : (w : W) → P w → P (m w).1

module _ {W A : Type 0} {P : W → Type 0} where
  pub Keeps-pure : (a : A) → Keeps P (pure {W = W} a)
  unfolding pure
  Keeps-pure a = record { at = λ w h. h }

  pub Keeps-raise : (e : Error) → Keeps P (raise {W = W} {A = A} e)
  unfolding raise
  Keeps-raise e = record { at = λ w h. h }

  pub Keeps-lift : (r : Result A) → Keeps P (lift {W = W} r)
  unfolding lift
  Keeps-lift r = record { at = λ w h. h }

  pub Keeps-if : (b : Bool) (m n : W → A × W) → Keeps P m → Keeps P n → Keeps P (if b then m else n)
  Keeps-if true m n km kn = km
  Keeps-if false m n km kn = kn

module _ {W A B : Type 0} {P : W → Type 0} where
  pub Keeps-try :
      (m : Exec W A) (f : A → Exec W B) (g : Error → Exec W B)
      → Keeps P m
      → ((a : A) → Keeps P (f a))
      → ((e : Error) → Keeps P (g e))
      → Keeps P (try m f g)
  unfolding try
  Keeps-try m f g km kf kg = record { at = λ w h. answer (m w).0 (m w).1 (km.at w h) }
    where
      answer : (r : Result A) (w : W) → P w → P (try (λ _. (r, w)) f g w).1
      answer (ok a) w h = (kf a).at w h
      answer (err e) w h = (kg e).at w h

  pub Keeps-option :
      (o : Option A) (m : W → B × W) (f : A → W → B × W)
      → Keeps P m
      → ((a : A) → Keeps P (f a))
      → Keeps P (option o m f)
  Keeps-option none m f km kf = km
  Keeps-option (some a) m f km kf = kf a

pub ruleset keeps_rules = (Keeps-pure, Keeps-raise, Keeps-lift, Keeps-if, Keeps-try, Keeps-option)
