-- ===== src/Router/Host/Labels.antt =====
-- Which user is found in the hosts that the chart makes, `prefix-user-namespace` and a domain.
use Prim.Native.Char.{Char}
use Prim.Native.String.{[], ◌∷◌, count}
use text.Mathlib.TextLemmas.{
  nil-append, cons-append, append_assoc, append_inj, append_cancel_left, cons-ne-nil, length-append,
}
use mathlib.Core.Option
use k8s_opencode.Common.{
  Option, String, ◌++◌, ◌≤◌, none, some, ◌≡◌, refl, ap, ◌≢◌, ◌↔◌, false, arith,
}
use k8s_opencode.Common.Text.{strip_prefix-append}
use k8s_opencode.Router.Host.{
  cons, or_else, is_user_char, is_dash, match_star_dash, match_plus_dash, extract_user_from_host,
}
use k8s_opencode.Router.Host.Longest.{AllUser, Admits, extract_sound, extract_longest}

Admits-unique :
    (p host u v : String) → Admits p host u → Admits p host v → count u ≡ count v → u ≡ v
Admits-unique p host u v (_, _, (r, e)) (_, _, (r', e')) same =
    let tails : u ++ ("-" ++ r) ≡ v ++ ("-" ++ r') =
      append_cancel_left (p ++ "-") _ _ (cc (e, e')) in
    (append_inj tails same).0

-- The user that is extracted from a host is the longest that the pattern admits for it: that is
-- when it is extracted, and no other is.
pub extract_iff_longest :
    (host_prefix host u : String)
    → (extract_user_from_host host_prefix host ≡ some u)
      ↔ (Admits host_prefix host u × ((v : String) → Admits host_prefix host v → count v ≤ count u))
extract_iff_longest p host u = (
  λ h. (
    extract_sound p host u h,
    λ v a.
        let (w, found, le) = extract_longest p host v a in
        let same : w ≡ u = ground arith in omega (arith, ap count same),
  ),
  λ (a, most).
      let (w, found, le) = extract_longest p host u a in
      let admitted = extract_sound p host w found in
      let same = Admits-unique p host w u admitted a (omega (arith, most w admitted)) in cc,
)

-- Class characters other than the dash.
abbrev pub DashFree : String → Type 0
DashFree [] = Unit
DashFree (c ∷ s) = (is_dash c ≡ false) × DashFree s

-- A text that is empty or begins outside the class, such as ".tail1234.ts.net" or ":443".
abbrev pub EndsLabel : String → Type 0
EndsLabel [] = Unit
EndsLabel (c ∷ s) = is_user_char c ≡ false

is_dash_of_outside : (c : Char) → is_user_char c ≡ false → is_dash c ≡ false
unfolding is_user_char is_dash
is_dash_of_outside c h = ground arith

star_none :
    (ns domain : String) → DashFree ns → EndsLabel domain → match_star_dash (ns ++ domain) ≡ none
unfolding match_star_dash
star_none [] [] d e = refl
star_none [] (c ∷ s) d e = rw (nil-append (c ∷ s)) (ground (arith, is_dash_of_outside c))
star_none (c ∷ ns) domain (h, d) e =
    rw (cons-append c ns domain) (ground (arith, star_none ns domain d e))

dash-match : (o : Option String) → o ≡ none → or_else (Option.map (cons "-") o) (some "") ≡ some ""
dash-match o h = rw h refl

star_exact :
    (u rest : String)
    → AllUser u
    → match_star_dash rest ≡ none
    → match_star_dash (u ++ ("-" ++ rest)) ≡ some u
unfolding match_star_dash is_dash is_user_char
star_exact [] rest a h =
    rw (nil-append ("-" ++ rest), cons-append "-" [] rest, nil-append rest)
      (dash-match (match_star_dash rest) h)
star_exact (c ∷ u) rest (k, a) h =
    rw (cons-append c u ("-" ++ rest)) (ground (arith, star_exact u rest a h))

-- Behind a user comes a namespace without a dash, and then what ends the host's first label: the
-- user is extracted exactly.
pub extract_plain_namespace :
    (host_prefix u ns domain : String)
    → u ≢ ""
    → AllUser u
    → DashFree ns
    → EndsLabel domain
    → extract_user_from_host host_prefix ((host_prefix ++ "-") ++ (u ++ ("-" ++ (ns ++ domain))))
      ≡ some u
unfolding extract_user_from_host match_plus_dash
extract_plain_namespace p [] ns domain n a d e = absurd (n refl)
extract_plain_namespace p (c ∷ u) ns domain n (k, a) d e =
    let found = star_exact u (ns ++ domain) a (star_none ns domain d e) in
    let matched : match_plus_dash ((c ∷ u) ++ ("-" ++ (ns ++ domain))) ≡ some (c ∷ u) =
      rw (cons-append c u ("-" ++ (ns ++ domain))) (ground arith) in
    cc (strip_prefix-append (p ++ "-") ((c ∷ u) ++ ("-" ++ (ns ++ domain))), matched)

AllUser-append : (u v : String) → AllUser u → AllUser v → AllUser (u ++ v)
AllUser-append [] v a b = rw (nil-append v) b
AllUser-append (c ∷ u) v (k, a) b = rw (cons-append c u v) (k, AllUser-append u v a b)

AllUser-dash : (v : String) → AllUser v → AllUser ("-" ++ v)
unfolding is_user_char
AllUser-dash v b = AllUser-append "-" v (refl, tt) b

append-ne-nil : (u v : String) → u ≢ "" → u ++ v ≢ ""
append-ne-nil [] v n = absurd (n refl)
append-ne-nil (c ∷ u) v n = rw (cons-append c u v) (cons-ne-nil c (u ++ v))

-- Where the namespace has a dash, the user is never the one that is extracted: the first part of
-- the namespace is taken for the end of the user's name.
pub extract_dashed_namespace :
    (host_prefix u part rest : String)
    → u ≢ ""
    → AllUser u
    → AllUser part
    → extract_user_from_host host_prefix
        ((host_prefix ++ "-") ++ (u ++ ("-" ++ (part ++ ("-" ++ rest)))))
      ≢ some u
extract_dashed_namespace p u part rest n a b h =
    let longer = u ++ ("-" ++ part) in
    let admitted : Admits p ((p ++ "-") ++ (u ++ ("-" ++ (part ++ ("-" ++ rest))))) longer = (
      append-ne-nil u ("-" ++ part) n,
      AllUser-append u ("-" ++ part) a (AllUser-dash part b),
      (rest, simp append_assoc),
    ) in
    let (v, found, le) = extract_longest p _ longer admitted in
    let same : v ≡ u = ground arith in
    absurd (omega (arith, ap count same, length-append u ("-" ++ part), length-append "-" part))
