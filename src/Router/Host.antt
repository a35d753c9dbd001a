-- ===== src/Router/Host.antt =====
-- `extractUserFromHost` of images/router/main.go: the workspace user that a host name asks for.
-- The regular expression `^prefix-([a-zA-Z0-9_-]+)-` is matched as Go's leftmost-first matcher
-- does: the group takes as much as it can, and gives back until a dash follows.
pub mod Labels
pub mod Longest
use Prim.Native.Char.{Char, code}
use Prim.Native.String.{[], ◌∷◌}
use mathlib.Core.Option
use k8s_opencode.Common.{
  ℕ, String, ◌++◌, Bool, ◌&&◌, ◌||◌, Option, none, some, leb, nat_eq, if◌then◌else◌,
}
use k8s_opencode.Common.Text.{strip_prefix}

-- `[a-zA-Z0-9_-]`
unfoldable pub is_user_char : Char → Bool
is_user_char ch =
    let c = code ch in
    (leb b'a' c && leb c b'z')
    || (leb b'A' c && leb c b'Z')
    || (leb b'0' c && leb c b'9')
    || nat_eq c b'_'
    || nat_eq c b'-'

unfoldable pub is_dash : Char → Bool
is_dash ch = nat_eq (code ch) b'-'

abbrev or_else : Option String → Option String → Option String
or_else (some u) other = some u
or_else none other = other

abbrev cons : Char → String → String
cons c u = c ∷ u

-- `([a-zA-Z0-9_-]*)-` at the start of a text: one more character of the group is tried first.
unfoldable pub match_star_dash : String → Option String
match_star_dash [] = none
match_star_dash (c ∷ s) =
    let longer = Option.map (cons c) (match_star_dash s) in
    or_else (if is_user_char c then longer else none) (if is_dash c then some [] else none)

-- `([a-zA-Z0-9_-]+)-`
unfoldable pub match_plus_dash : String → Option String
match_plus_dash [] = none
match_plus_dash (c ∷ s) = if is_user_char c then Option.map (cons c) (match_star_dash s) else none

-- `none` is the result `("", false)`.
unfoldable pub extract_user_from_host : String → String → Option String
unfolding strip_prefix
extract_user_from_host host_prefix host = elim (strip_prefix (host_prefix ++ "-") host) [
  | none ↦ none
  | some rest ↦ match_plus_dash rest
]
