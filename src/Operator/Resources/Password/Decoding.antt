-- ===== src/Operator/Resources/Password/Decoding.antt =====
-- What a password says of the random bytes that it was made from.
use Prim.Native.Char.{Char, code}
use Prim.Native.String.{◌∷◌}
use k8s_opencode.Common.{
  Bool-cases, inl, inr, ℕ, zero, suc, ◌+◌, ◌*◌, ◌/◌, ◌%◌, ◌-◌, ◌≤◌, ◌<◌, String, List, ◌≡◌, ◌∙◌,
  refl, true, Bool, ◌&&◌, arith, length, leb, nat_eq, if◌then◌else◌,
}
use k8s_opencode.Operator.Resources.Password.{nth, sextet, encode, take, password_of}
use k8s_opencode.Operator.Resources.Password.Alphabet.{AllBytes, first, second, third, fourth}

-- The 6-bit value of a character by the table of RFC 4648, section 5.
unfoldable pub sextet_value : Char → ℕ
sextet_value ch =
    let c = code ch in
    if leb b'A' c && leb c b'Z'
    then c - 65
    else if leb b'a' c && leb c b'z'
    then c - 71
    else if leb b'0' c && leb c b'9'
    then c + 4
    else if nat_eq c b'-'
    then 62
    else 63

-- The bytes of a text of whole groups of four characters.
unfoldable pub decode : String → List ℕ
unfolding sextet_value
decode (p ∷ q ∷ r ∷ s ∷ rest) =
    let a = sextet_value p in
    let b = sextet_value q in
    let c = sextet_value r in
    let d = sextet_value s in
    List.◌∷◌ (a * 4 + b / 16)
      (List.◌∷◌ (b % 16 * 16 + c / 4) (List.◌∷◌ (c % 4 * 64 + d) (decode rest)))
decode s = List.[]

unfoldable pub first_bytes : ℕ → List ℕ → List ℕ
first_bytes zero bytes = List.[]
first_bytes (suc n) List.[] = List.[]
first_bytes (suc n) (List.◌∷◌ b bytes) = List.◌∷◌ b (first_bytes n bytes)

is_identity : (ℕ → ℕ) → ℕ → Bool
is_identity f zero = true
is_identity f (suc n) = nat_eq (f n) n && is_identity f n

is_identity-at : (f : ℕ → ℕ) (n bound : ℕ) → is_identity f bound ≡ true → n < bound → f n ≡ n
unfolding is_identity
is_identity-at f n zero h l = absurd (omega arith)
is_identity-at f n (suc bound) h l =
    let earlier = is_identity-at f n bound in
    elim (Bool-cases (nat_eq n bound)) [
      | inl same ↦ (let e : n ≡ bound = ground arith in rw e (ground arith))
      | inr other ↦ earlier (ground arith) (ground arith)
    ]

all_recovered : is_identity (λ n. sextet_value (sextet n)) 64 ≡ true
unfolding is_identity sextet_value nth
all_recovered = refl

sextet_value-sextet : (n : ℕ) → n < 64 → sextet_value (sextet n) ≡ n
sextet_value-sextet n l = is_identity-at (λ k. sextet_value (sextet k)) n 64 all_recovered l

join :
    {a b c x y z : ℕ} {rest : List ℕ}
    → a ≡ x
    → b ≡ y
    → c ≡ z
    → List.◌∷◌ a (List.◌∷◌ b (List.◌∷◌ c rest)) ≡ List.◌∷◌ x (List.◌∷◌ y (List.◌∷◌ z rest))
join p q r = rw (p, q, r) refl

group :
    (x y z : ℕ) (rest : String)
    → x < 256
    → y < 256
    → z < 256
    → decode (
        sextet (x / 4)
        ∷ sextet (x % 4 * 16 + y / 16)
        ∷ sextet (y % 16 * 4 + z / 64)
        ∷ sextet (z % 64)
        ∷ rest)
      ≡ List.◌∷◌ x (List.◌∷◌ y (List.◌∷◌ z (decode rest)))
unfolding decode
group x y z rest p q r =
    rw
      (
        sextet_value-sextet (x / 4) (first x p),
        sextet_value-sextet (x % 4 * 16 + y / 16) (second x y q),
        sextet_value-sextet (y % 16 * 4 + z / 64) (third y z r),
        sextet_value-sextet (z % 64) (fourth z),
      )
      (join (omega arith) (omega arith) (omega arith))

decode-take :
    (k : ℕ) (bytes : List ℕ)
    → k * 3 ≤ length bytes
    → AllBytes bytes
    → decode (take (k * 4) (encode bytes)) ≡ first_bytes (k * 3) bytes
unfolding decode take encode first_bytes
decode-take zero bytes h b = refl
decode-take (suc k) List.[] h b = absurd (omega arith)
decode-take (suc k) (List.◌∷◌ x List.[]) h b = absurd (omega arith)
decode-take (suc k) (List.◌∷◌ x (List.◌∷◌ y List.[])) h b = absurd (omega arith)
decode-take (suc k) (List.◌∷◌ x (List.◌∷◌ y (List.◌∷◌ z bytes))) h (p, (q, (r, b))) =
    let rest = decode-take k bytes (omega arith) b in
    let four : suc k * 4 ≡ suc (suc (suc (suc (k * 4)))) = omega arith in
    let three : suc k * 3 ≡ suc (suc (suc (k * 3))) = omega arith in
    rw (four, three) (group x y z _ p q r ∙ rw rest refl)

-- From `n` random bytes, a password of `n` characters, where `n` is a multiple of four, decodes to
-- the first three quarters of those bytes: it keeps six bits of randomness for each character, and
-- the rest of the bytes is dropped.
pub decode-password_of :
    (k : ℕ) (bytes : List ℕ)
    → length bytes ≡ k * 4
    → AllBytes bytes
    → decode (password_of (k * 4) bytes) ≡ first_bytes (k * 3) bytes
unfolding password_of
decode-password_of k bytes h b = decode-take k bytes (omega arith) b
