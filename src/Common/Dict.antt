-- ===== src/Common/Dict.antt =====
-- Go's `map[string]V` as an association list. The program reads its maps by key, and hands them to
-- the JSON encoder, which sorts the keys; so the order of the entries carries no meaning.
use mathlib.Core.Path.{◌≡◌, refl}
use mathlib.Core.Option.{Option, none, some}
use mathlib.Core.List.{List, [], ◌∷◌}
use Prim.Native.String.{String}
use native.Mathlib.Omega.{arith}
use text.Mathlib.Text.{◌==◌}
use text.Mathlib.TextEquality.{eq_iff}
use k8s_opencode.Common.Tests.{if◌then◌else◌}

abbrev pub Dict {ℓ} : Type ℓ → Type ℓ
Dict V = List (String × V)

module _ {ℓ} {V : Type ℓ} where
  -- v, ok := m[k]
  unfoldable pub lookup : String → Dict V → Option V
  lookup k [] = none
  lookup k ((j, v) ∷ m) = if j == k then some v else lookup k m

  -- m[k] = v
  unfoldable pub insert : String → V → Dict V → Dict V
  insert k v [] = (k, v) ∷ []
  insert k v ((j, w) ∷ m) = if j == k then (k, v) ∷ m else (j, w) ∷ insert k v m

  -- delete(m, k)
  unfoldable pub delete : String → Dict V → Dict V
  delete k [] = []
  delete k ((j, w) ∷ m) = let rest = delete k m in if j == k then rest else (j, w) ∷ rest

  -- A read after a write answers what was written, at the key that was written.
  pub lookup-insert :
      (key other : String) (value : V) (entries : Dict V)
      → lookup other (insert key value entries)
        ≡ (if key == other then some value else lookup other entries)
  unfolding insert lookup
  lookup-insert key other value [] = refl
  lookup-insert key other value ((first, held) ∷ entries) =
      let behind = lookup-insert key other value entries in
      ground (arith, eq_iff first key, eq_iff first other, eq_iff key other, behind)

  pub lookup-delete :
      (key other : String) (entries : Dict V)
      → lookup other (delete key entries) ≡ (if key == other then none else lookup other entries)
  unfolding delete lookup
  lookup-delete key other [] = ground arith
  lookup-delete key other ((first, held) ∷ entries) =
      let behind = lookup-delete key other entries in
      ground (arith, eq_iff first key, eq_iff first other, eq_iff key other, behind)

pub ruleset dict_laws = (lookup-insert, lookup-delete)
