-- ===== src/Operator/EmailMap.antt =====
-- operator/internal/controller/reconcile_emailmap.go: the map from emails to workspaces, as JSON in
-- a ConfigMap of the operator's namespace, which the router reads.
pub mod Entries
pub mod Attempt
pub mod Retried
pub mod Removal
pub mod History
use k8s_opencode.Common.{
  String, ◌++◌, Bool, not, Option, none, some, [], ◌⊎◌, inl, inr, ◌==◌, if◌then◌else◌,
}
use k8s_opencode.Common.Dict.{Dict, lookup, insert, delete}
use k8s_opencode.Common.Json.{Codec}
use k8s_opencode.Common.Text.{trim_space}
use k8s_opencode.Operator.Exec.{
  Error, errorf, wrap, Result, ok, err, Exec, pure, raise, lift, try, wrapping, option, ◌>>=◌,
}
use k8s_opencode.Operator.Api.{OpenCodeWorkspace}
use k8s_opencode.Operator.Object.{ConfigMap, config_map_kind, Key, meta_of}
use k8s_opencode.Operator.Client.{Client, is_not_found, is_already_exists}

abbrev pub email_map_name : String
email_map_name = "email-map"

abbrev pub email_map_key : String
email_map_key = "email-map.json"

-- `configMap.Data[key]`: "" for a key that is missing, or of a nil map
abbrev pub read_entry : Option (Dict String) → String → String
read_entry none key = ""
read_entry (some d) key = elim (lookup key d) [ none ↦ "" | some raw ↦ raw ]

-- `if m == nil { m = map[string]string{} }`
abbrev pub allocated : Option (Dict String) → Dict String
allocated none = []
allocated (some d) = d

abbrev pub from_json {ℓ} : {A : Type ℓ} → String → String ⊎ A → Result A
from_json text (inl e) = err (wrap text (errorf e))
from_json text (inr a) = ok a

abbrev or_empty : Result (Option (Dict String)) → Result (Dict String)
or_empty (err e) = err e
or_empty (ok m) = ok (allocated m)

unfoldable pub parse_email_map : Codec → String → Result (Dict String)
unfolding trim_space
parse_email_map j raw =
    if trim_space raw == ""
    then ok []
    else or_empty (from_json "parse email-map.json: " (j.unmarshal raw))

module _ (c : Client) (j : Codec) (system_namespace : String) where
  abbrev pub email_map_at : Key
  email_map_at = record { namespace = system_namespace; name = email_map_name }

  abbrev pub marshal_email_map : Dict String → Exec c.World String
  marshal_email_map m = lift (from_json "marshal email-map payload: " (j.marshal m))

  unfoldable pub store_payload : ConfigMap → String → Exec c.World (Unit {0})
  store_payload cm payload = wrapping "update email-map ConfigMap: " (
      c.update config_map_kind
        (record cm { contents = some (insert email_map_key payload (allocated cm.contents)) }))

  -- A payload that is there already is not written.
  unfoldable pub write_payload : ConfigMap → String → Exec c.World (Unit {0})
  write_payload cm payload =
      if read_entry (some (allocated cm.contents)) email_map_key == payload
      then pure tt
      else store_payload cm payload

  -- From the parsed ConfigMap on: the entry is set, and written back if the payload changed.
  unfoldable pub put_entry : String → String → ConfigMap → Exec c.World (Unit {0})
  put_entry email name cm = do
    mapping ← lift (parse_email_map j (read_entry cm.contents email_map_key))
    payload ← marshal_email_map (insert email name mapping)
    write_payload cm payload

  -- After a create that failed: if another writer was first, its ConfigMap is read and changed.
  unfoldable pub adopt_email_map : String → String → Error → Exec c.World (Unit {0})
  adopt_email_map email name e =
      if not (is_already_exists c e)
      then raise (wrap "create email-map ConfigMap: " e)
      else try (c.get config_map_kind email_map_at) (put_entry email name)
          (λ e'. raise (wrap "get email-map ConfigMap after create: " e'))

  -- A missing ConfigMap is created with the one entry.
  unfoldable pub create_email_map : String → String → Exec c.World (Unit {0})
  create_email_map email name = do
    payload ← marshal_email_map (insert email name [])
    try
        (c.create config_map_kind (record {
          meta = meta_of system_namespace email_map_name;
          contents = some (insert email_map_key payload []);
        }))
        pure (adopt_email_map email name)

  unfoldable pub set_missing : String → String → Error → Exec c.World (Unit {0})
  set_missing email name e =
      if not (is_not_found c e)
      then raise (wrap "get email-map ConfigMap: " e)
      else create_email_map email name

  -- One attempt of `reconcileEmailMap`, the function that is retried on a conflict.
  unfoldable pub set_email : String → String → Exec c.World (Unit {0})
  set_email email name =
      try (c.get config_map_kind email_map_at) (put_entry email name) (set_missing email name)

  unfoldable pub reconcile_email_map : OpenCodeWorkspace → Exec c.World (Unit {0})
  reconcile_email_map ws =
      let email = trim_space ws.spec.email in
      if email == ""
      then raise (errorf "workspace email is empty")
      else c.retry_on_conflict (set_email email ws.name)

  unfoldable pub drop_entry : String → ConfigMap → Exec c.World (Unit {0})
  drop_entry email cm = do
    mapping ← lift (parse_email_map j (read_entry cm.contents email_map_key))
    option (lookup email mapping) (pure tt)
        (λ found. do payload ← marshal_email_map (delete email mapping); store_payload cm payload)

  unfoldable pub unset_missing : Error → Exec c.World (Unit {0})
  unset_missing e = if is_not_found c e then pure tt else raise (wrap "get email-map ConfigMap: " e)

  -- One attempt of `removeFromEmailMap`.
  unfoldable pub unset_email : String → Exec c.World (Unit {0})
  unset_email email = try (c.get config_map_kind email_map_at) (drop_entry email) unset_missing

  unfoldable pub remove_from_email_map : OpenCodeWorkspace → Exec c.World (Unit {0})
  remove_from_email_map ws =
      let email = trim_space ws.spec.email in
      if email == "" then pure tt else c.retry_on_conflict (unset_email email)
