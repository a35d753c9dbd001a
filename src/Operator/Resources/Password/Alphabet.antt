-- ===== src/Operator/Resources/Password/Alphabet.antt =====
-- What passwords are made of.

use Prim.Native.String.{[], ◌∷◌, count}
use text.Mathlib.TextLemmas.{length-nil, length-cons}
use k8s_opencode.Common.{
  ℕ, zero, suc, ◌+◌, ◌*◌, ◌/◌, ◌%◌, ◌≤◌, ◌<◌, String, List, ◌≡◌, refl, true, Bool, ◌&&◌, arith,
  length,
}
use k8s_opencode.Router.Host.{is_user_char}
use k8s_opencode.Router.Host.Longest.{AllUser}
use k8s_opencode.Operator.Resources.Password.{alphabet, nth, sextet, encode, take, password_of}

all_user : String → Bool
all_user [] = true
all_user (c ∷ s) = is_user_char c && all_user s

nth-is_user : (s : String) (n : ℕ) → all_user s ≡ true → n < count s → is_user_char (nth s n) ≡ true
unfolding all_user nth
nth-is_user [] n a h = absurd (omega (arith, length-nil))
nth-is_user (c ∷ s) zero a h = ground arith
nth-is_user (c ∷ s) (suc n) a h = nth-is_user s n (ground arith) (omega (arith, length-cons c s))

alphabet_user : all_user alphabet ≡ true
unfolding all_user is_user_char
alphabet_user = refl

sextet-is_user : (n : ℕ) → n < 64 → is_user_char (sextet n) ≡ true
sextet-is_user n h = nth-is_user alphabet n alphabet_user h

-- Every number of the list is a byte.
abbrev pub AllBytes : List ℕ → Type 0
AllBytes List.[] = Unit
AllBytes (List.◌∷◌ b bs) = (b < 256) × AllBytes bs

-- A text of `n` characters, each of them url-safe: a letter, a digit, '-' or '_'.
pub record IsPassword (n : ℕ) (s : String) : Type 0 where
  pub has_length : count s ≡ n
  pub is_safe : AllUser s

none_yet : IsPassword 0 []
none_yet = record { has_length = length-nil; is_safe = tt }

more : {n : ℕ} {s : String} (k : ℕ) → k < 64 → IsPassword n s → IsPassword (suc n) (sextet k ∷ s)
more {n} {s} k h p = record {
  has_length = omega (arith, length-cons (sextet k) s, p.has_length);
  is_safe = (sextet-is_user k h, p.is_safe);
}

pub first : (x : ℕ) → x < 256 → x / 4 < 64
first x h = omega arith

pub second : (x y : ℕ) → y < 256 → x % 4 * 16 + y / 16 < 64
second x y h = omega arith

pub third : (y z : ℕ) → z < 256 → y % 16 * 4 + z / 64 < 64
third y z h = omega arith

pub fourth : (z : ℕ) → z % 64 < 64
fourth z = omega arith

take-encode :
    (n : ℕ) (bytes : List ℕ)
    → n ≤ length bytes
    → AllBytes bytes
    → IsPassword n (take n (encode bytes))
unfolding take encode
take-encode zero bytes h b = none_yet
take-encode (suc n) List.[] h b = absurd (omega arith)
take-encode (suc zero) (List.◌∷◌ x List.[]) h (p, _) = more (x / 4) (first x p) none_yet
take-encode (suc (suc n)) (List.◌∷◌ x List.[]) h b = absurd (omega arith)
take-encode (suc zero) (List.◌∷◌ x (List.◌∷◌ y List.[])) h (p, _) =
    more (x / 4) (first x p) none_yet
take-encode (suc (suc zero)) (List.◌∷◌ x (List.◌∷◌ y List.[])) h (p, (q, _)) =
    more (x / 4) (first x p) (more (x % 4 * 16 + y / 16) (second x y q) none_yet)
take-encode (suc (suc (suc n))) (List.◌∷◌ x (List.◌∷◌ y List.[])) h b = absurd (omega arith)
take-encode (suc zero) (List.◌∷◌ x (List.◌∷◌ y (List.◌∷◌ z bytes))) h (p, _) =
    more (x / 4) (first x p) none_yet
take-encode (suc (suc zero)) (List.◌∷◌ x (List.◌∷◌ y (List.◌∷◌ z bytes))) h (p, (q, _)) =
    more (x / 4) (first x p) (more (x % 4 * 16 + y / 16) (second x y q) none_yet)
take-encode (suc (suc (suc zero))) (List.◌∷◌ x (List.◌∷◌ y (List.◌∷◌ z bytes))) h (p, (q, (r, _))) =
    more (x / 4) (first x p) (
      more (x % 4 * 16 + y / 16) (second x y q) (more (y % 16 * 4 + z / 64) (third y z r) none_yet))
take-encode (suc (suc (suc (suc n)))) (List.◌∷◌ x (List.◌∷◌ y (List.◌∷◌ z bytes))) h
      (p, (q, (r, b))) =
    more (x / 4) (first x p) (
      more (x % 4 * 16 + y / 16) (second x y q) (
        more (y % 16 * 4 + z / 64) (third y z r)
          (more (z % 64) (fourth z) (take-encode n bytes (omega arith) b))))

-- From as many random bytes as the password is long, whatever they are, the password has exactly
-- that length and holds only url-safe characters: none of the encoding's padding.
pub password_of-IsPassword :
    (n : ℕ) (bytes : List ℕ)
    → length bytes ≡ n
    → AllBytes bytes
    → IsPassword n (password_of n bytes)
unfolding password_of
password_of-IsPassword n bytes h b = take-encode n bytes (omega arith) b
