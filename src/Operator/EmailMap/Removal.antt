-- ===== src/Operator/EmailMap/Removal.antt =====
-- What `removeFromEmailMap` leaves in the email map.

use k8s_opencode.Common.{
  String, Option, none, some, [], ◌≡◌, refl, ◌∙◌, ◌≢◌, inl, inr, ◌==◌, if◌then◌else◌, Bool-cases,
  Option-cases, arith, eq_iff,
}
use k8s_opencode.Common.Dict.{Dict, lookup, delete, lookup-delete}
use k8s_opencode.Common.Json.{Codec, IsRoundTrip}
use k8s_opencode.Common.Text.{trim_space}
use k8s_opencode.Operator.Exec.{ok, Exec, pure, raise, option}
use k8s_opencode.Operator.Exec.Inversion.{lift-bind, try-ok, try-err, Result-cases}
use k8s_opencode.Operator.Api.{OpenCodeWorkspace}
use k8s_opencode.Operator.Object.{ConfigMap, config_map_kind, key_of}
use k8s_opencode.Operator.Client.{Client, is_not_found}
use k8s_opencode.Operator.Contract.{Contract}
use k8s_opencode.Operator.EmailMap.{
  email_map_key, email_map_at, read_entry, from_json, parse_email_map, store_payload, drop_entry,
  unset_missing, unset_email, remove_from_email_map,
}
use k8s_opencode.Operator.EmailMap.Entries.{stored, Maps, written, marshal_ok, stored-store_payload}
use k8s_opencode.Operator.EmailMap.Attempt.{no_map, read_keeps, read_answers}
use k8s_opencode.Operator.EmailMap.Retried.{Unharmed, unharmed_rules, Attempts-keep}

module _ (c : Client) (contract : Contract c) (j : Codec) (rt : IsRoundTrip j)
    (system : String) where
  -- From `w` to `w'` the email loses its entry, and every other email keeps its own.
  pub record Clears (email : String) (w w' : c.World) : Type 0 where
    pub before : Dict String
    pub after : Dict String
    pub maps_before : Maps c contract j rt system w before
    pub maps_after : Maps c contract j rt system w' after
    pub entries : (e : String) → lookup e after ≡ (if email == e then none else lookup e before)

  Clears-from :
      (email : String) (u w w' : c.World)
      → stored c contract j rt system u ≡ stored c contract j rt system w
      → Clears email u w'
      → Clears email w w'
  Clears-from email u w w' e s = record {
    before = s.before;
    after = s.after;
    maps_before = cc (e, s.maps_before);
    maps_after = s.maps_after;
    entries = s.entries;
  }

  -- Where the email has no entry, there is nothing to lose.
  absent-Clears :
      (email : String) (m : Dict String) (w : c.World)
      → Maps c contract j rt system w m
      → lookup email m ≡ none
      → Clears email w w
  absent-Clears email m w maps missing = record {
    before = m;
    after = m;
    maps_before = maps;
    maps_after = maps;
    entries = λ e. ground (arith, eq_iff email e);
  }

  drop_entry-Clears :
      (email : String) (cm : ConfigMap) (w : c.World)
      → stored c contract j rt system w ≡ some cm
      → key_of config_map_kind cm ≡ email_map_at c j system
      → (drop_entry c j system email cm w).0 ≡ ok tt
      → Clears email w (drop_entry c j system email cm w).1
  unfolding drop_entry pure
  drop_entry-Clears email cm w s k h =
      let (m, parsed, e₁) =
        lift-bind (parse_email_map j (read_entry cm.contents email_map_key)) _ w tt h in
      let maps : Maps c contract j rt system w m = cc (s, parsed) in
      elim (Option-cases (lookup email m)) [
        | inl missing ↦ rw (e₁, missing) (absent-Clears email m w maps missing)
        | inr (name, found) ↦
            let (payload, made, e₂) =
              lift-bind (from_json "marshal email-map payload: " (j.marshal (delete email m))) _ w
                tt (rw (e₁, found) at h) in
            let stores = rw (e₁, found, e₂) at h in
            let (m', maps', same) =
              written c contract j rt system cm (delete email m) payload
                (store_payload c j system cm payload w).1 k
                (marshal_ok j rt (delete email m) payload made)
                (stored-store_payload c contract j rt system cm payload w k stores) in
            rw (e₁, found, e₂)
              (record {
                before = m;
                after = m';
                maps_before = maps;
                maps_after = maps';
                entries = λ e. same e ∙ lookup-delete email e m;
              })
      ]

  unset_email-Clears :
      (email : String) (w : c.World)
      → (unset_email c j system email w).0 ≡ ok tt
      → Clears email w (unset_email c j system email w).1
  unfolding unset_email unset_missing pure raise lookup
  unset_email-Clears email w h =
      let read = c.get config_map_kind (email_map_at c j system) in
      elim (Result-cases (read w).0) [
        | inl (cm, got) ↦
            let run =
              try-ok read (drop_entry c j system email) (unset_missing c j system) w cm got in
            let (s, k) = read_answers c contract j rt system w cm got in
            rw run (
              Clears-from email (read w).1 w _ (read_keeps c contract j rt system w)
                (drop_entry-Clears email cm (read w).1 s k (rw run at h)))
        | inr (x, refused) ↦
            let run =
              try-err read (drop_entry c j system email) (unset_missing c j system) w x refused in
            elim (Bool-cases (is_not_found c x)) [
              | inl absent ↦
                  let none_there =
                    read_keeps c contract j rt system w
                    ∙ contract.get_missing config_map_kind (email_map_at c j system) w x refused
                        absent in
                  rw (run, absent)
                    (Clears-from email (read w).1 w _ (read_keeps c contract j rt system w) (
                      absent-Clears email [] (read w).1
                        (no_map c contract j rt system (read w).1 none_there) refl))
              | inr other ↦ absurd (cc (rw (run, other) at h))
            ]
      ]

  Unharmed-option :
      (o : Option String) (m : Exec c.World (Unit {0})) (f : String → Exec c.World (Unit {0}))
      → Unharmed c contract j rt system m
      → ((a : String) → Unharmed c contract j rt system (f a))
      → Unharmed c contract j rt system (option o m f)
  Unharmed-option none m f um uf = um
  Unharmed-option (some a) m f um uf = uf a

  Unharmed-drop_entry :
      (email : String) (cm : ConfigMap)
      → key_of config_map_kind cm ≡ email_map_at c j system
      → Unharmed c contract j rt system (drop_entry c j system email cm)
  unfolding drop_entry
  Unharmed-drop_entry email cm k = search (unharmed_rules, Unharmed-option, k) depth 12

  Unharmed-unset_email :
      (email : String) → Unharmed c contract j rt system (unset_email c j system email)
  unfolding unset_email unset_missing
  Unharmed-unset_email email = search (unharmed_rules, Unharmed-drop_entry) depth 12

  -- Once a workspace that has an email is removed from the email map without an error, however
  -- often the function is tried again on conflicts, its email has no entry, whichever workspace
  -- that entry named; every other email is mapped to what it was.
  pub remove_from_email_map-Clears :
      (ws : OpenCodeWorkspace) (w : c.World)
      → trim_space ws.spec.email ≢ ""
      → (remove_from_email_map c j system ws w).0 ≡ ok tt
      → Clears (trim_space ws.spec.email) w (remove_from_email_map c j system ws w).1
  unfolding remove_from_email_map
  remove_from_email_map-Clears ws w n h =
      let email = trim_space ws.spec.email in
      elim (Bool-cases (email == "")) [
        | inl empty ↦ absurd (n ((eq_iff email "").0 empty))
        | inr filled ↦
            let m = unset_email c j system email in
            let (w', a, e) = contract.retry m w in
            rw (filled, e)
              (Clears-from email w' w _
                (Attempts-keep c contract j rt system m w w' (Unharmed-unset_email email) a)
                (unset_email-Clears email w' (rw (filled, e) at h)))
      ]
