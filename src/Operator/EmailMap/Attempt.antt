-- ===== src/Operator/EmailMap/Attempt.antt =====
-- One attempt to add a workspace to the email map, from what the cluster holds before it.

use k8s_opencode.Common.{String, none, some, ◌≡◌, ◌∙◌, ◌≢◌, inl, inr, true, Bool-cases, []}
use k8s_opencode.Common.Dict.{insert, lookup-insert}
use k8s_opencode.Common.Json.{Codec, IsRoundTrip}
use k8s_opencode.Operator.Exec.{Error, ok, Exec, pure, raise, try, wrap}
use k8s_opencode.Operator.Exec.Inversion.{lift-bind, try-ok, try-err, Result-cases}
use k8s_opencode.Operator.Object.{ConfigMap, config_map_kind, key_of, meta_of}
use k8s_opencode.Operator.Client.{Client, is_not_found, is_already_exists}
use k8s_opencode.Operator.Contract.{Contract}
use k8s_opencode.Operator.EmailMap.{
  email_map_key, email_map_name, email_map_at, from_json, parse_email_map, put_entry,
  adopt_email_map, create_email_map, set_missing, set_email,
}
use k8s_opencode.Operator.EmailMap.Entries.{
  parse-marshal, marshal_ok, stored, Maps, read-insert, Sets, put_entry-Sets, Sets-from,
}

module _ (c : Client) (contract : Contract c) (j : Codec) (rt : IsRoundTrip j)
    (system : String) where
  -- A read leaves the email map as it was, and answers it.
  pub read_keeps :
      (w : c.World)
      → stored c contract j rt system (c.get config_map_kind (email_map_at c j system) w).1
        ≡ stored c contract j rt system w
  read_keeps w =
      contract.get_frame config_map_kind (email_map_at c j system) w config_map_kind
        (email_map_at c j system)

  pub read_answers :
      (w : c.World) (cm : ConfigMap)
      → (c.get config_map_kind (email_map_at c j system) w).0 ≡ ok cm
      → (stored c contract j rt system (c.get config_map_kind (email_map_at c j system) w).1
          ≡ some cm)
        × (key_of config_map_kind cm ≡ email_map_at c j system)
  read_answers w cm h =
      let s = contract.get_ok config_map_kind (email_map_at c j system) w cm h in
      (read_keeps w ∙ s, contract.lookup_key w config_map_kind (email_map_at c j system) cm s)

  pub no_map :
      (w : c.World) → stored c contract j rt system w ≡ none → Maps c contract j rt system w []
  unfolding parse_email_map
  no_map w h = rw h

  abbrev pub new_map : String → ConfigMap
  new_map payload = record {
    meta = meta_of system email_map_name;
    contents = some (insert email_map_key payload []);
  }

  created-Sets :
      (email name payload : String) (w : c.World)
      → stored c contract j rt system w ≡ none
      → j.marshal (insert email name []) ≡ inr payload
      → (c.create config_map_kind (new_map payload) w).0 ≡ ok tt
      → Sets c contract j rt system email name w (c.create config_map_kind (new_map payload) w).1
  created-Sets email name payload w missing made h =
      let (m', parsed, same) = parse-marshal j rt (insert email name []) payload made in
      let is_there = contract.create_ok (new_map payload) w h in
      record {
        before = [];
        after = m';
        maps_before = no_map w missing;
        maps_after = cc (is_there, read-insert c contract j rt system [] payload, parsed);
        entries = λ k. same k ∙ lookup-insert email k name [];
      }

  -- Where there is no ConfigMap, a read of it is no success, and a function that begins by the read
  -- and ends in an error without it is none.
  read_fails :
      (f : ConfigMap → Exec c.World (Unit {0})) (text : String) (w : c.World)
      → stored c contract j rt system w ≡ none
      → (try (c.get config_map_kind (email_map_at c j system)) f (λ e. raise (wrap text e)) w).0
        ≢ ok tt
  unfolding raise
  read_fails f text w missing h =
      let read = c.get config_map_kind (email_map_at c j system) in
      elim (Result-cases (read w).0) [
        | inl (cm, got) ↦
            cc (missing, contract.get_ok config_map_kind (email_map_at c j system) w cm got)
        | inr (x, refused) ↦ cc (try-err read f (λ e. raise (wrap text e)) w x refused)
      ]

  -- With no ConfigMap there is none to adopt.
  adopt_fails :
      (email name : String) (e : Error) (w : c.World)
      → (is_already_exists c e ≡ true → stored c contract j rt system w ≡ none)
      → (adopt_email_map c j system email name e w).0 ≢ ok tt
  unfolding adopt_email_map raise
  adopt_fails email name e w missing h = elim (Bool-cases (is_already_exists c e)) [
    | inl exists ↦
        read_fails (put_entry c j system email name) _ w (missing exists) (rw exists at h)
    | inr other ↦ cc (rw other at h)
  ]

  create_email_map-Sets :
      (email name : String) (w : c.World)
      → stored c contract j rt system w ≡ none
      → (create_email_map c j system email name w).0 ≡ ok tt
      → Sets c contract j rt system email name w (create_email_map c j system email name w).1
  unfolding create_email_map pure
  create_email_map-Sets email name w missing h =
      let (payload, made, e) =
        lift-bind (from_json "marshal email-map payload: " (j.marshal (insert email name []))) _ w
          tt h in
      let made' = marshal_ok j rt (insert email name []) payload made in
      let create = c.create config_map_kind (new_map payload) in
      elim (Result-cases (create w).0) [
        | inl (a, done) ↦
            rw (e, try-ok create _ _ w a done)
              (created-Sets email name payload w missing made' done)
        | inr (x, refused) ↦
            let e' = e ∙ try-err create pure (adopt_email_map c j system email name) w x refused in
            absurd (
              adopt_fails email name x (create w).1
                (λ exists.
                  contract.create_refused (new_map payload) w x refused (inl exists) ∙ missing)
                (rw e' at h))
      ]

  set_missing-Sets :
      (email name : String) (e : Error) (w : c.World)
      → (is_not_found c e ≡ true → stored c contract j rt system w ≡ none)
      → (set_missing c j system email name e w).0 ≡ ok tt
      → Sets c contract j rt system email name w (set_missing c j system email name e w).1
  unfolding set_missing raise
  set_missing-Sets email name e w missing h = elim (Bool-cases (is_not_found c e)) [
    | inl absent ↦ rw absent (create_email_map-Sets email name w (missing absent) (rw absent at h))
    | inr other ↦ absurd (cc (rw other at h))
  ]

  -- An attempt that succeeds has set the email's entry, and no other.
  pub set_email-Sets :
      (email name : String) (w : c.World)
      → (set_email c j system email name w).0 ≡ ok tt
      → Sets c contract j rt system email name w (set_email c j system email name w).1
  unfolding set_email
  set_email-Sets email name w h =
      let read = c.get config_map_kind (email_map_at c j system) in
      elim (Result-cases (read w).0) [
        | inl (cm, got) ↦
            let run =
              try-ok read (put_entry c j system email name) (set_missing c j system email name) w cm
                got in
            let (s, k) = read_answers w cm got in
            rw run (
              Sets-from c contract j rt system email name (read w).1 w _ (read_keeps w)
                (put_entry-Sets c contract j rt system email name cm (read w).1 s k (rw run at h)))
        | inr (x, refused) ↦
            let run =
              try-err read (put_entry c j system email name) (set_missing c j system email name) w x
                refused in
            rw run (
              Sets-from c contract j rt system email name (read w).1 w _ (read_keeps w) (
                set_missing-Sets email name x (read w).1
                  (λ absent.
                    read_keeps w
                    ∙ contract.get_missing config_map_kind (email_map_at c j system) w x refused
                        absent)
                  (rw run at h)))
      ]
