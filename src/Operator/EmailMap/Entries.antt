-- ===== src/Operator/EmailMap/Entries.antt =====
-- What the map from emails to workspaces holds after a workspace has been added or removed.
use mathlib.Core.Path.{subst}
use k8s_opencode.Common.{
  [], Sum-cases, ◌⊎◌, Bool-cases, String, Option, none, some, ◌≡◌, refl, sym, ap, ◌∙◌, inl, inr,
  ◌==◌, arith, eq_iff, eq_refl, if◌then◌else◌, Bool-cases,
}
use k8s_opencode.Common.Dict.{Dict, lookup, insert, lookup-insert}
use k8s_opencode.Common.Json.{Codec, IsRoundTrip}
use k8s_opencode.Common.Text.{trim_space}
use k8s_opencode.Operator.Exec.{ok, pure}
use k8s_opencode.Operator.Exec.Inversion.{lift-bind, wrapping-ok}
use k8s_opencode.Operator.Object.{ConfigMap, config_map_kind, key_of}
use k8s_opencode.Operator.Client.{Client}
use k8s_opencode.Operator.Contract.{Contract}
use k8s_opencode.Operator.EmailMap.{
  email_map_key, email_map_at, read_entry, allocated, from_json, parse_email_map, store_payload,
  write_payload, put_entry,
}

-- The text of the email map, "" where the ConfigMap or its entry is missing.
abbrev pub text_of : Option ConfigMap → String
text_of none = ""
text_of (some cm) = read_entry cm.contents email_map_key

-- A text that parses is blank, or is JSON.
pub parse_email_map-cases :
    (j : Codec) (text : String) (m : Dict String)
    → parse_email_map j text ≡ ok m
    → ((trim_space text ≡ "") × (m ≡ []))
      ⊎ ((m' : Option (Dict String)) × (j.unmarshal text ≡ inr m') × (allocated m' ≡ m))
unfolding parse_email_map
parse_email_map-cases j text m h = elim (Bool-cases (trim_space text == "")) [
  | inl blank ↦ inl ((eq_iff (trim_space text) "").0 blank, ground arith)
  | inr filled ↦ elim (Sum-cases (j.unmarshal text)) [
    | inl (e, failed) ↦ absurd (ground (arith, eq_iff (trim_space text) ""))
    | inr (m', read) ↦ inr (m', read, ground arith)
  ]
]

module _ (j : Codec) (rt : IsRoundTrip j) where
  -- What a marshalled map is parsed to.
  pub parse-marshal :
      (m : Dict String) (raw : String)
      → j.marshal m ≡ inr raw
      → (m' : Dict String) × (parse_email_map j raw ≡ ok m')
        × ((k : String) → lookup k m' ≡ lookup k m)
  unfolding parse_email_map
  parse-marshal m raw h =
      let (m', e, same) = rt.reads m raw h in
      (m', ground (arith, eq_iff (trim_space raw) "", rt.visible m raw h), same)

  pub marshal_ok :
      (m : Dict String) (raw : String)
      → from_json "marshal email-map payload: " (j.marshal m) ≡ ok raw
      → j.marshal m ≡ inr raw
  marshal_ok m raw h = ground arith

module _ (c : Client) (contract : Contract c) (j : Codec) (rt : IsRoundTrip j)
    (system : String) where
  abbrev pub stored : c.World → Option ConfigMap
  stored w = contract.lookup w config_map_kind (email_map_at c j system)

  -- The email map of the world `w` is `m`.
  abbrev pub Maps : c.World → Dict String → Type 0
  Maps w m = parse_email_map j (text_of (stored w)) ≡ ok m

  pub read-insert :
      (d : Dict String) (payload : String)
      → read_entry (some (insert email_map_key payload d)) email_map_key ≡ payload
  read-insert d payload =
      ground (arith, lookup-insert email_map_key email_map_key payload d, eq_refl email_map_key)

  -- A ConfigMap written over the one that was read holds the new payload.
  pub written :
      (cm : ConfigMap) (m : Dict String) (payload : String) (w : c.World)
      → key_of config_map_kind cm ≡ email_map_at c j system
      → j.marshal m ≡ inr payload
      → stored w
        ≡ some
            (record cm { contents = some (insert email_map_key payload (allocated cm.contents)) })
      → (m' : Dict String) × Maps w m' × ((k : String) → lookup k m' ≡ lookup k m)
  written cm m payload w e h s =
      let (m', parsed, same) = parse-marshal j rt m payload h in
      (m', cc (s, read-insert (allocated cm.contents) payload, parsed), same)

  read-allocated :
      (d : Option (Dict String)) (key : String)
      → read_entry (some (allocated d)) key ≡ read_entry d key
  unfolding lookup
  read-allocated none key = refl
  read-allocated (some d) key = refl

  pub stored-store_payload :
      (cm : ConfigMap) (payload : String) (w : c.World)
      → key_of config_map_kind cm ≡ email_map_at c j system
      → (store_payload c j system cm payload w).0 ≡ ok tt
      → stored (store_payload c j system cm payload w).1
        ≡ some
            (record cm { contents = some (insert email_map_key payload (allocated cm.contents)) })
  unfolding store_payload
  stored-store_payload cm payload w e h =
      let new : ConfigMap = record cm {
        contents = some (insert email_map_key payload (allocated cm.contents));
      } in
      let (done, after) =
        wrapping-ok "update email-map ConfigMap: " (c.update config_map_kind new) w tt h in
      let is_there = contract.update_ok new w done in
      ap stored after
      ∙ subst
          (λ key. contract.lookup (c.update config_map_kind new w).1 config_map_kind key ≡ some new)
          e is_there

  -- After a payload has been written, the email map is what the payload was made from.
  write_payload-Maps :
      (cm : ConfigMap) (m : Dict String) (payload : String) (w : c.World)
      → stored w ≡ some cm
      → key_of config_map_kind cm ≡ email_map_at c j system
      → j.marshal m ≡ inr payload
      → (write_payload c j system cm payload w).0 ≡ ok tt
      → (m' : Dict String) × Maps (write_payload c j system cm payload w).1 m'
        × ((k : String) → lookup k m' ≡ lookup k m)
  unfolding write_payload pure
  write_payload-Maps cm m payload w s e made h =
      elim (Bool-cases (read_entry (some (allocated cm.contents)) email_map_key == payload)) [
        | inl present ↦
            let (m', parsed, same) = parse-marshal j rt m payload made in
            let text : read_entry cm.contents email_map_key ≡ payload =
              sym (read-allocated cm.contents email_map_key) ∙ (eq_iff _ _).0 present in
            (m', rw present (cc (s, text, parsed)), same)
        | inr other ↦
            let (m', maps, same) =
              written cm m payload (store_payload c j system cm payload w).1 e made
                (stored-store_payload cm payload w e (rw other at h)) in
            (m', rw other maps, same)
      ]

  -- From `w` to `w'` the email is set to the name, and every other email keeps its entry.
  pub record Sets (email name : String) (w w' : c.World) : Type 0 where
    pub before : Dict String
    pub after : Dict String
    pub maps_before : Maps w before
    pub maps_after : Maps w' after
    pub entries :
        (e : String) → lookup e after ≡ (if email == e then some name else lookup e before)

  pub put_entry-Sets :
      (email name : String) (cm : ConfigMap) (w : c.World)
      → stored w ≡ some cm
      → key_of config_map_kind cm ≡ email_map_at c j system
      → (put_entry c j system email name cm w).0 ≡ ok tt
      → Sets email name w (put_entry c j system email name cm w).1
  unfolding put_entry
  put_entry-Sets email name cm w s e h =
      let (m, parsed, e₁) =
        lift-bind (parse_email_map j (read_entry cm.contents email_map_key)) _ w tt h in
      let (payload, made, e₂) =
        lift-bind (from_json "marshal email-map payload: " (j.marshal (insert email name m))) _ w tt
          (rw e₁ at h) in
      let run : put_entry c j system email name cm w ≡ write_payload c j system cm payload w =
        e₁ ∙ e₂ in
      let (m', maps, same) =
        write_payload-Maps cm (insert email name m) payload w s e
          (marshal_ok j rt (insert email name m) payload made) (rw run at h) in
      record {
        before = m;
        after = m';
        maps_before = cc (s, parsed);
        maps_after = rw run maps;
        entries = λ k. same k ∙ lookup-insert email k name m;
      }

  pub Sets-from :
      (email name : String) (u w w' : c.World)
      → stored u ≡ stored w
      → Sets email name u w'
      → Sets email name w w'
  Sets-from email name u w w' e s = record {
    before = s.before;
    after = s.after;
    maps_before = cc (e, s.maps_before);
    maps_after = s.maps_after;
    entries = s.entries;
  }
