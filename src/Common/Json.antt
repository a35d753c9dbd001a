-- ===== src/Common/Json.antt =====
-- What the program uses of `encoding/json`: a `map[string]string` is written and read back. A
-- result `inl text` is an error; a read of `null` sets the map to nil, which is `none`.
pub mod Marked
use k8s_opencode.Common.Dict.{Dict, lookup}
use k8s_opencode.Common.Text.{trim_space}
use Prim.Native.String.{String}
use mathlib.Core.Path.{◌≡◌}
use mathlib.Core.Logic.{◌⊎◌, ◌≢◌, inl, inr}
use mathlib.Core.Option.{Option, some}

pub record Codec : Type 0 where
  pub marshal : Dict String → String ⊎ String
  pub unmarshal : String → String ⊎ Option (Dict String)

-- What the documentation of `encoding/json` says of such maps: each can be written, and what is
-- written reads back as a map with the same entries, in an order of its own.
pub record IsRoundTrip (j : Codec) : Type 0 where
  pub writes : (m : Dict String) → (raw : String) × (j.marshal m ≡ inr raw)
  pub reads :
      (m : Dict String) (raw : String)
      → j.marshal m ≡ inr raw
      → (m' : Dict String) × (j.unmarshal raw ≡ inr (some m'))
        × ((k : String) → lookup k m' ≡ lookup k m)
  -- a JSON text is more than spaces
  pub visible : (m : Dict String) (raw : String) → j.marshal m ≡ inr raw → trim_space raw ≢ ""
  -- nor is a text of spaces one
  pub blank : (raw : String) → trim_space raw ≡ "" → (e : String) × (j.unmarshal raw ≡ inl e)
