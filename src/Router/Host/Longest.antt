-- ===== src/Router/Host/Longest.antt =====
-- The user that `extractUserFromHost` finds is the longest one that the pattern admits.
use Prim.Native.Char.{Char}
use Prim.Native.String.{[], ◌∷◌, count}
use mathlib.Core.Path.{subst}
use text.Mathlib.TextEquality.{Char-path}
use text.Mathlib.TextLemmas.{nil-append, cons-append, length-cons, length-nil}
use text.Mathlib.TextLemmas.{cons-ne-nil}
use k8s_opencode.Common.{
  ◌≤◌, String, ◌++◌, some, ◌≡◌, refl, ◌≢◌, true, arith, Option-cases, inl, inr,
}
use k8s_opencode.Common.Text.{strip_prefix, strip_prefix-append, strip_prefix-eq-some}
use k8s_opencode.Router.Host.{
  is_user_char, is_dash, match_star_dash, match_plus_dash, extract_user_from_host,
}

-- Every character of a text belongs to the class of the pattern.
abbrev pub AllUser : String → Type 0
AllUser [] = Unit
AllUser (c ∷ s) = (is_user_char c ≡ true) × AllUser s

-- `s` begins with `u`, all of the class, and then a dash.
data Splits : String → String → Type 0 where
  stop : {c : Char} {s : String} → is_dash c ≡ true → Splits (c ∷ s) []
  more : {c : Char} {s u : String} → is_user_char c ≡ true → Splits s u → Splits (c ∷ s) (c ∷ u)

dash-eq-cons : (c : Char) (r : String) → is_dash c ≡ true → "-" ++ r ≡ c ∷ r
unfolding is_dash
dash-eq-cons c r h = cc (Char-path c "-" (ground arith), cons-append "-" [] r, nil-append r)

Splits-eq : {s u : String} → Splits s u → AllUser u × ((rest : String) × (s ≡ u ++ ("-" ++ rest)))
Splits-eq (stop {c} {s} h) = (tt, (s, cc (nil-append ("-" ++ s), dash-eq-cons c s h)))
Splits-eq (more {c} {s} {u} h t) =
    let (a, (rest, e)) = Splits-eq t in ((h, a), (rest, cc (e, cons-append c u ("-" ++ rest))))

Splits-of_eq : (u rest : String) → AllUser u → Splits (u ++ ("-" ++ rest)) u
unfolding is_dash
Splits-of_eq [] rest h = rw (nil-append, cons-append) (stop refl)
Splits-of_eq (c ∷ u) rest (h, hs) =
    rw (cons-append c u ("-" ++ rest)) (more h (Splits-of_eq u rest hs))

star_sound : (s u : String) → match_star_dash s ≡ some u → Splits s u
unfolding match_star_dash
star_sound [] u h = cc
star_sound (c ∷ s) [] h = elim (Option-cases (match_star_dash s)) [
  | inl done ↦ stop (ground arith)
  | inr (v, found) ↦ stop (ground (arith, cons-ne-nil c v))
]
star_sound (c ∷ s) (d ∷ u) h =
    let e : (c ≡ d) × (is_user_char c ≡ true) × (match_star_dash s ≡ some u) =
      ground (arith, cons-ne-nil d u) in
    subst (λ x. Splits (c ∷ s) (x ∷ u)) e.0 (more e.1 (star_sound s u e.2))

star_longest :
    (s u : String) → Splits s u → (v : String) × (match_star_dash s ≡ some v) × (count u ≤ count v)
unfolding match_star_dash
star_longest _ _ (stop {c} {s} h) = elim (Option-cases (match_star_dash (c ∷ s))) [
  | inl none' ↦ absurd (ground arith)
  | inr (v, e) ↦ (v, ground arith, omega (arith, length-nil))
]
star_longest _ _ (more {c} {s} {u} h t) =
    let (v, e, le) = star_longest s u t in
    (c ∷ v, ground arith, omega (arith, length-cons c u, length-cons c v))

plus_sound : (s u : String) → match_plus_dash s ≡ some u → (u ≢ "") × Splits s u
unfolding match_plus_dash
plus_sound [] u h = cc
plus_sound (c ∷ s) [] h = elim (Option-cases (match_star_dash s)) [
  | inl none' ↦ absurd (ground arith)
  | inr (v, found) ↦ absurd (ground (arith, cons-ne-nil c v))
]
plus_sound (c ∷ s) (d ∷ u) h =
    let e : (c ≡ d) × (is_user_char c ≡ true) × (match_star_dash s ≡ some u) = ground arith in
    (cons-ne-nil d u, subst (λ x. Splits (c ∷ s) (x ∷ u)) e.0 (more e.1 (star_sound s u e.2)))

plus_longest :
    (s u : String)
    → u ≢ ""
    → Splits s u
    → (v : String) × (match_plus_dash s ≡ some v) × (count u ≤ count v)
unfolding match_plus_dash
plus_longest _ _ n (stop h) = absurd (n refl)
plus_longest _ _ n (more {c} {s} {u} h t) =
    let (v, e, le) = star_longest s u t in
    (c ∷ v, ground arith, omega (arith, length-cons c u, length-cons c v))

-- `u` is a user that the pattern admits for the host: not empty, of the class, behind the prefix
-- and a dash, and before a dash.
abbrev pub Admits : String → String → String → Type 0
Admits host_prefix host u =
    (u ≢ "") × AllUser u × ((rest : String) × (host ≡ (host_prefix ++ "-") ++ (u ++ ("-" ++ rest))))

-- What is extracted is a user that the pattern admits for the host.
pub extract_sound :
    (host_prefix host u : String)
    → extract_user_from_host host_prefix host ≡ some u
    → Admits host_prefix host u
unfolding extract_user_from_host
extract_sound p host u h = elim (Option-cases (strip_prefix (p ++ "-") host)) [
  | inl none' ↦ absurd (ground arith)
  | inr (tail, e) ↦
      let (n, split) = plus_sound tail u (ground arith) in
      let (all, (rest, e')) = Splits-eq split in
      (n, all, (rest, cc (e', strip_prefix-eq-some (p ++ "-") host tail e)))
]

-- Whenever the pattern admits a user, one is extracted, and none that it admits is longer.
pub extract_longest :
    (host_prefix host u : String)
    → Admits host_prefix host u
    → (v : String) × (extract_user_from_host host_prefix host ≡ some v) × (count u ≤ count v)
unfolding extract_user_from_host
extract_longest p host u (n, all, (rest, e)) =
    let (v, found, le) = plus_longest _ u n (Splits-of_eq u rest all) in
    (v, cc (e, strip_prefix-append (p ++ "-") (u ++ ("-" ++ rest)), found), le)
