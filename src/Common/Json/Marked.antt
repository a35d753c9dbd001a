-- ===== src/Common/Json/Marked.antt =====
-- A codec for maps of texts: each character stands behind a mark, and each text has an end.
use Prim.Native.Char.{Char, code}
use Prim.Native.String.{String, [], ◌∷◌, ◌++◌}
use mathlib.Core.Path.{◌≡◌, refl, subst}
use mathlib.Core.Logic.{◌⊎◌, ◌≢◌, inl, inr}
use mathlib.Core.Bool.{Bool, true, false}
use mathlib.Core.Option.{Option, some}
use mathlib.Core.List.{List}
use native.Mathlib.Omega.{arith}
use text.Mathlib.TextEquality.{Char-path}
use text.Mathlib.TextLemmas.{cons-append, nil-append, cons-ne-nil}
use k8s_opencode.Common.Dict.{Dict}
use k8s_opencode.Common.Json.{Codec, IsRoundTrip}
use k8s_opencode.Common.Tests.{Bool-cases, nat_eq, if◌then◌else◌}
use k8s_opencode.Common.Text.{is_space, trim_left, trim_right, trim_space}

is_mark : Char → Bool
is_mark c = nat_eq (code c) 120

-- A text with its marks, in front of what follows.
write_text : String → String → String
write_text [] rest = ";" ++ rest
write_text (c ∷ s) rest = "x" ++ (c ∷ write_text s rest)

write_map : Dict String → String
write_map List.[] = ""
write_map (List.◌∷◌ (k, v) m) = write_text k (write_text v (write_map m))

-- The first text and the texts behind it; `true` is behind a mark.
read_texts : Bool → String → String × List String
read_texts marked [] = ("", List.[])
read_texts true (c ∷ s) = let (t, ts) = read_texts false s in (c ∷ t, ts)
read_texts false (c ∷ s) =
    let (t, ts) = read_texts false s in if is_mark c then read_texts true s else ("", List.◌∷◌ t ts)

pairs : String → List String → Dict String
pairs k List.[] = List.[]
pairs k (List.◌∷◌ v List.[]) = List.[]
pairs k (List.◌∷◌ v (List.◌∷◌ k' rest)) = List.◌∷◌ (k, v) (pairs k' rest)

is_brace : Char → Bool
is_brace c = nat_eq (code c) 123

unfoldable pub unmarshal_marked : String → String ⊎ Option (Dict String)
unfolding read_texts pairs is_mark is_brace
unmarshal_marked [] = inl "unexpected end of JSON input"
unmarshal_marked (c ∷ s) =
    if is_brace c
    then inr (some (pairs (read_texts false s).0 (read_texts false s).1))
    else inl "invalid character"

unfoldable pub marshal_marked : Dict String → String ⊎ String
unfolding write_map write_text
marshal_marked m = inr ("{" ++ write_map m)

abbrev pub marked : Codec
marked = record { marshal = marshal_marked; unmarshal = unmarshal_marked }

read_written :
    (t rest : String)
    → read_texts false (write_text t rest)
      ≡ (t, List.◌∷◌ (read_texts false rest).0 (read_texts false rest).1)
unfolding read_texts write_text is_mark
read_written [] rest = rw (cons-append ";" [] rest, nil-append rest) refl
read_written (c ∷ s) rest =
    rw
      (
        cons-append "x" [] (c ∷ write_text s rest),
        nil-append (c ∷ write_text s rest),
        read_written s rest,
      )
      refl

read_map :
    (m : Dict String)
    → pairs (read_texts false (write_map m)).0 (read_texts false (write_map m)).1 ≡ m
unfolding write_map pairs read_texts
read_map List.[] = refl
read_map (List.◌∷◌ (k, v) m) =
    rw (read_written k (write_text v (write_map m)), read_written v (write_map m), read_map m) refl

brace_visible : (s : String) → trim_space ("{" ++ s) ≢ ""
unfolding trim_space trim_left trim_right is_space
brace_visible s = rw (cons-append "{" [] s, nil-append s) (cons-ne-nil "{" (trim_right s))

brace_first : (s : String) → trim_space ("{" ∷ s) ≢ ""
unfolding trim_space trim_left trim_right is_space
brace_first s = cons-ne-nil "{" (trim_right s)

blank_fails : (raw : String) → trim_space raw ≡ "" → (e : String) × (unmarshal_marked raw ≡ inl e)
unfolding unmarshal_marked trim_space trim_left trim_right is_space is_brace
blank_fails [] h = ("unexpected end of JSON input", refl)
blank_fails (c ∷ s) h = elim (Bool-cases (is_brace c)) [
  | inl brace ↦
      let same : c ≡ "{" = Char-path c "{" (ground (arith, brace)) in
      absurd (brace_first s (subst (λ d. trim_space (d ∷ s) ≡ "") same h))
  | inr other ↦ ("invalid character", rw other refl)
]

reads_map : (m : Dict String) → unmarshal_marked ("{" ++ write_map m) ≡ inr (some m)
unfolding unmarshal_marked is_brace
reads_map m = rw (cons-append "{" [] (write_map m), nil-append (write_map m), read_map m) refl

marshalled :
    (m : Dict String) (raw : String) → marshal_marked m ≡ inr raw → "{" ++ write_map m ≡ raw
unfolding marshal_marked
marshalled m raw h = cc

pub marked-IsRoundTrip : IsRoundTrip marked
unfolding marshal_marked
marked-IsRoundTrip = record {
  writes = λ m. ("{" ++ write_map m, refl);
  reads = λ m raw h. (
    m,
    subst (λ t. unmarshal_marked t ≡ inr (some m)) (marshalled m raw h) (reads_map m),
    λ k. refl,
  );
  blank = blank_fails;
  visible =
      λ m raw h. subst (λ t. trim_space t ≢ "") (marshalled m raw h) (brace_visible (write_map m));
}
