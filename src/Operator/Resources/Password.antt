-- ===== src/Operator/Resources/Password.antt =====
-- `generatePassword` of operator/internal/controller/reconcile_secrets.go, and the encoding
-- `base64.URLEncoding` of the Go standard library.
pub mod Alphabet
pub mod Decoding
use Prim.Native.Char.{Char}
use Prim.Native.String.{[], ◌∷◌}
use mathlib.Core.List
use k8s_opencode.Common.{ℕ, zero, suc, ◌+◌, ◌*◌, ◌/◌, ◌%◌, String, List}
use k8s_opencode.Operator.Exec.{Exec, pure, ◌>>=◌}
use k8s_opencode.Operator.Client.{Client}

abbrev pub alphabet : String
alphabet = "ABCDEFGHIJKLMNOPQRSTUVWXYZabcdefghijklmnopqrstuvwxyz0123456789-_"

-- `s[n]`, over characters of one byte; a value past the end does not occur.
unfoldable pub nth : String → ℕ → Char
nth [] n = "="
nth (c ∷ s) zero = c
nth (c ∷ s) (suc n) = nth s n

-- The character of a 6-bit value.
abbrev pub sextet : ℕ → Char
sextet n = nth alphabet n

-- Three bytes become four characters; one or two bytes at the end are padded by '='.
unfoldable pub encode : List ℕ → String
encode List.[] = []
encode (List.◌∷◌ a List.[]) = sextet (a / 4) ∷ sextet (a % 4 * 16) ∷ "=" ∷ "=" ∷ []
encode (List.◌∷◌ a (List.◌∷◌ b List.[])) =
    sextet (a / 4) ∷ sextet (a % 4 * 16 + b / 16) ∷ sextet (b % 16 * 4) ∷ "=" ∷ []
encode (List.◌∷◌ a (List.◌∷◌ b (List.◌∷◌ c bytes))) =
    sextet (a / 4)
    ∷ sextet (a % 4 * 16 + b / 16)
    ∷ sextet (b % 16 * 4 + c / 64)
    ∷ sextet (c % 64)
    ∷ encode bytes

-- `s[:n]`
unfoldable pub take : ℕ → String → String
take zero s = []
take (suc n) [] = []
take (suc n) (c ∷ s) = c ∷ take n s

-- `base64.URLEncoding.EncodeToString(bytes)[:length]`
unfoldable pub password_of : ℕ → List ℕ → String
unfolding encode take nth
password_of length bytes = take length (encode bytes)

unfoldable pub generate_password : (c : Client) → ℕ → Exec c.World String
generate_password c length = do bytes ← c.rand_read length; pure (password_of length bytes)
