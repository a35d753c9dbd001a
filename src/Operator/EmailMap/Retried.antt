-- ===== src/Operator/EmailMap/Retried.antt =====
-- The retries of `reconcileEmailMap` on conflicts.
use mathlib.Core.Path.{subst}
use k8s_opencode.Common.{
  String, Bool, true, false, Option, some, ◌≡◌, refl, sym, ap, ◌∙◌, inl, inr, ◌==◌, if◌then◌else◌,
  Bool-cases,
}
use k8s_opencode.Common.Dict.{insert}
use k8s_opencode.Common.Json.{Codec, IsRoundTrip}
use k8s_opencode.Common.Text.{trim_space}
use k8s_opencode.Operator.Exec.{
  Error, Result, ok, err, Exec, pure, raise, lift, try, wrap, is_reason,
}
use k8s_opencode.Operator.Exec.Inversion.{try-ok, try-err, Result-cases, wrapping-err}
use k8s_opencode.Operator.Api.{OpenCodeWorkspace}
use k8s_opencode.Operator.Object.{ConfigMap, config_map_kind, key_of}
use k8s_opencode.Operator.Client.{Client, is_already_exists}
use k8s_opencode.Operator.Contract.{Contract, Attempts, first, again}
use k8s_opencode.Operator.EmailMap.{
  email_map_key, allocated, email_map_at, store_payload, write_payload, put_entry, adopt_email_map,
  create_email_map, set_missing, set_email, reconcile_email_map,
}
use k8s_opencode.Operator.EmailMap.Entries.{stored, Sets, Sets-from}
use k8s_opencode.Operator.EmailMap.Attempt.{read_keeps, read_answers, new_map, set_email-Sets}

module _ (c : Client) (contract : Contract c) (j : Codec) (rt : IsRoundTrip j)
    (system : String) where
  abbrev pub map_in : c.World → Option ConfigMap
  map_in w = stored c contract j rt system w

  -- Where `m` ends in a conflict, the email map is as it was.
  pub record Unharmed (m : Exec c.World (Unit {0})) : Type 0 where
    pub at :
        (w : c.World) (e : Error)
        → (m w).0 ≡ err e
        → is_reason c.conflict e ≡ true
        → map_in (m w).1 ≡ map_in w

  pub Unharmed-pure : Unharmed (pure tt)
  unfolding pure
  Unharmed-pure = record { at = λ w e h r. refl }

  pub Unharmed-raise : (e : Error) → Unharmed (raise e)
  unfolding raise
  Unharmed-raise e = record { at = λ w x h r. refl }

  pub Unharmed-if :
      (b : Bool) (m n : Exec c.World (Unit {0}))
      → Unharmed m
      → Unharmed n
      → Unharmed (if b then m else n)
  Unharmed-if true m n um un = um
  Unharmed-if false m n um un = un

  pub Unharmed-lift :
      {A : Type 0} (r : Result A) (f : A → Exec c.World (Unit {0}))
      → ((a : A) → Unharmed (f a))
      → Unharmed (try (lift r) f raise)
  unfolding try
  Unharmed-lift (ok a) f uf = record { at = (uf a).at }
  Unharmed-lift (err x) f uf = record { at = λ w e h r. refl }

  -- The read of the email map, and what follows it.
  pub Unharmed-read :
      (f : ConfigMap → Exec c.World (Unit {0})) (g : Error → Exec c.World (Unit {0}))
      → ((cm : ConfigMap) → key_of config_map_kind cm ≡ email_map_at c j system → Unharmed (f cm))
      → ((e : Error) → Unharmed (g e))
      → Unharmed (try (c.get config_map_kind (email_map_at c j system)) f g)
  Unharmed-read f g uf ug = record {
    at = λ w e h r.
        let read = c.get config_map_kind (email_map_at c j system) in
        elim (Result-cases (read w).0) [
          | inl (cm, got) ↦
              let run = try-ok read f g w cm got in
              let (s, k) = read_answers c contract j rt system w cm got in
              rw run
                ((uf cm k).at (read w).1 e (rw run at h) r ∙ read_keeps c contract j rt system w)
          | inr (x, refused) ↦
              let run = try-err read f g w x refused in
              rw run ((ug x).at (read w).1 e (rw run at h) r ∙ read_keeps c contract j rt system w)
        ];
  }

  pub Unharmed-store_payload :
      (cm : ConfigMap) (payload : String)
      → key_of config_map_kind cm ≡ email_map_at c j system
      → Unharmed (store_payload c j system cm payload)
  unfolding store_payload is_reason
  Unharmed-store_payload cm payload k = record {
    at = λ w e h r.
        let new : ConfigMap = record cm {
          contents = some (insert email_map_key payload (allocated cm.contents));
        } in
        let (x, refused, wrapped, after) =
          wrapping-err "update email-map ConfigMap: " (c.update config_map_kind new) w e h in
        let again : is_reason c.conflict x ≡ true = ap (is_reason c.conflict) (sym wrapped) ∙ r in
        ap map_in after
        ∙ subst
            (λ key.
              contract.lookup (c.update config_map_kind new w).1 config_map_kind key
              ≡ contract.lookup w config_map_kind key)
            k (contract.update_conflict new w x refused again);
  }

  pub ruleset unharmed_rules = (
    Unharmed-pure, Unharmed-raise, Unharmed-if, Unharmed-lift, Unharmed-read,
    Unharmed-store_payload,
  )

  Unharmed-put_entry :
      (email name : String) (cm : ConfigMap)
      → key_of config_map_kind cm ≡ email_map_at c j system
      → Unharmed (put_entry c j system email name cm)
  unfolding put_entry write_payload
  Unharmed-put_entry email name cm k = search (unharmed_rules, k) depth 12

  Unharmed-adopt_email_map :
      (email name : String) (e : Error) → Unharmed (adopt_email_map c j system email name e)
  unfolding adopt_email_map
  Unharmed-adopt_email_map email name e = search (unharmed_rules, Unharmed-put_entry) depth 12

  -- A refused create has left the email map as it was, whichever way it was refused.
  Unharmed-create :
      (email name payload : String)
      → Unharmed (
          try
            (c.create config_map_kind (new_map c contract j rt system payload))
            pure
            (adopt_email_map c j system email name))
  unfolding pure adopt_email_map raise is_reason
  Unharmed-create email name payload = record {
    at = λ w e h r.
        let create = c.create config_map_kind (new_map c contract j rt system payload) in
        elim (Result-cases (create w).0) [
          | inl (a, done) ↦
              absurd
                (cc (rw (try-ok create pure (adopt_email_map c j system email name) w a done) at h))
          | inr (x, refused) ↦
              let run = try-err create pure (adopt_email_map c j system email name) w x refused in
              let h' = rw run at h in
              elim (Bool-cases (is_already_exists c x)) [
                | inl exists ↦ rw run (
                    (Unharmed-adopt_email_map email name x).at (create w).1 e h' r
                    ∙ contract.create_refused (new_map c contract j rt system payload) w x refused
                        (inl exists))
                | inr other ↦
                    let wrapped : wrap "create email-map ConfigMap: " x ≡ e = cc (rw other at h') in
                    let again : is_reason c.conflict x ≡ true =
                      ap (is_reason c.conflict) wrapped ∙ r in
                    rw (run, other)
                      (contract.create_refused (new_map c contract j rt system payload) w x refused
                        (inr again))
              ]
        ];
  }

  Unharmed-create_email_map :
      (email name : String) → Unharmed (create_email_map c j system email name)
  unfolding create_email_map
  Unharmed-create_email_map email name = search (Unharmed-lift, Unharmed-create) depth 12

  Unharmed-set_email : (email name : String) → Unharmed (set_email c j system email name)
  unfolding set_email set_missing
  Unharmed-set_email email name =
      search (unharmed_rules, Unharmed-put_entry, Unharmed-create_email_map) depth 12

  pub Attempts-keep :
      (m : Exec c.World (Unit {0})) (w w' : c.World)
      → Unharmed m
      → Attempts c m w w'
      → map_in w' ≡ map_in w
  Attempts-keep m w w' u first = refl
  Attempts-keep m w w' u (again e a h r) = u.at _ e h r ∙ Attempts-keep m w _ u a

  -- A workspace whose entry in the email map is reconciled without an error, however often the
  -- function is tried again on conflicts, is what its email is mapped to from then on; every other
  -- email is mapped to what it was.
  pub reconcile_email_map-Sets :
      (ws : OpenCodeWorkspace) (w : c.World)
      → (reconcile_email_map c j system ws w).0 ≡ ok tt
      → Sets c contract j rt system
          (trim_space ws.spec.email)
          ws.name
          w
          (reconcile_email_map c j system ws w).1
  unfolding reconcile_email_map raise
  reconcile_email_map-Sets ws w h =
      let email = trim_space ws.spec.email in
      elim (Bool-cases (email == "")) [
        | inl empty ↦ absurd (cc (rw empty at h))
        | inr filled ↦
            let m = set_email c j system email ws.name in
            let (w', a, e) = contract.retry m w in
            rw (filled, e)
              (Sets-from c contract j rt system email ws.name w' w _
                (Attempts-keep m w w' (Unharmed-set_email email ws.name) a)
                (set_email-Sets c contract j rt system email ws.name w' (rw (filled, e) at h)))
      ]
