-- ===== src/Operator/Exec.antt =====
-- Go's `error` values and functions that call the cluster and may fail: the world comes back beside
-- the error too, so what was written before a failure stays written.
pub mod Keeps
pub mod Inversion
pub mod Gives
use k8s_opencode.Common.{String, ◌++◌, Bool, false, Option, none, some}

-- The `metav1.Status` of a refused API call.
pub record Status : Type 0 where
  pub reason : String
  pub message : String

-- An error of the API, one made by `fmt.Errorf`, and one that `fmt.Errorf` wraps by `%w`.
pub data Error : Type 0 where
  api : Status → Error
  errorf : String → Error
  wrap : String → Error → Error

-- `err.Error()`; the text that goes with a wrapped error stands before it
unfoldable pub error_text : Error → String
error_text (api s) = s.message
error_text (errorf text) = text
error_text (wrap text e) = text ++ error_text e

-- `apierrors.IsNotFound` and its like: a test of the API error, looked for through `%w`.
unfoldable pub is_reason : (Status → Bool) → Error → Bool
is_reason test (api s) = test s
is_reason test (errorf text) = false
is_reason test (wrap text e) = is_reason test e

pub data Result {ℓ} (A : Type ℓ) : Type ℓ where
  ok : A → Result A
  err : Error → Result A

abbrev pub Exec : Type 0 → Type 0 → Type 0
Exec W A = W → Result A × W

module _ {W A : Type 0} where
  unfoldable pub pure : A → Exec W A
  pure a w = (ok a, w)

  unfoldable pub raise : Error → Exec W A
  raise e w = (err e, w)

  unfoldable pub lift : Result A → Exec W A
  lift r w = (r, w)

module _ {W A B : Type 0} where
  abbrev pub continue : Result A → (A → Exec W B) → (Error → Exec W B) → Exec W B
  continue (ok a) f g w = f a w
  continue (err e) f g w = g e w

  -- `if x, err := m(); err != nil { … }`, with what is done on either side.
  unfoldable pub try : Exec W A → (A → Exec W B) → (Error → Exec W B) → Exec W B
  unfolding pure raise lift
  try m f g w = continue (m w).0 f g (m w).1

  infixl 5 ◌>>=◌ ◌>>◌
  -- the error is returned as it is
  abbrev pub ◌>>=◌ : Exec W A → (A → Exec W B) → Exec W B
  m >>= f = try m f raise

  abbrev pub ◌>>◌ : Exec W A → Exec W B → Exec W B
  m >> n = m >>= λ _. n

-- `return fmt.Errorf("text: %w", err)`
abbrev pub wrapping : {W A : Type 0} → String → Exec W A → Exec W A
wrapping text m = try m pure (λ e. raise (wrap text e))

-- A look-up in a map, `if v, ok := m[k]; ok { … }`.
abbrev pub option {ℓ κ} : {A : Type ℓ} {X : Type κ} → Option A → X → (A → X) → X
option none missing found = missing
option (some a) missing found = found a
