-- ===== src/Delivery/Tests.antt =====
-- A workspace's email is added and removed by the operator, and the router is asked for it.
use k8s_opencode.Common.{String, List, ◌↔◌, ap, ◌∙◌, true, some, ◌≡◌, refl, ◌≢◌, [], ◌∷◌, inr}
use k8s_opencode.Common.Dict.{lookup, insert, delete}
use k8s_opencode.Common.Json.Marked.{marked, marked-IsRoundTrip, marshal_marked, unmarshal_marked}
use k8s_opencode.Common.Text.{trim_space, is_space, trim_left, trim_right, strip_prefix}
use k8s_opencode.Operator.Exec.{ok, is_reason, pure, raise, lift, try}
use k8s_opencode.Operator.Memory.{
  Cluster, memory, key_eq, keep, stored, put, drop, write_changed, begun, create_or_update_in,
}
use k8s_opencode.Operator.Memory.Cast.{cast}
use k8s_opencode.Operator.Memory.Laws.{memory_contract, memory_contract-lookup}
use k8s_opencode.Operator.EmailMap.Entries.{text_of}
use k8s_opencode.Operator.Object.{config_map_kind}
use k8s_opencode.Operator.EmailMap.{
  email_map_at, parse_email_map, store_payload, write_payload, put_entry, adopt_email_map,
  create_email_map, set_missing, set_email, reconcile_email_map, drop_entry, unset_email,
  remove_from_email_map,
}
use k8s_opencode.Operator.Tests.Fixtures.{ann, empty}
use k8s_opencode.Operator.Tests.Runs.{added}
use k8s_opencode.Router.Host.{
  is_user_char, is_dash, match_star_dash, match_plus_dash, extract_user_from_host,
}
use k8s_opencode.Router.Watch.{EmailMap, parse, load_email_map, entries}
use k8s_opencode.Router.Access.{Request, proxied, Outside, Config, handle, target_of, set_identity}
use k8s_opencode.Operator.EmailMap.Entries.{Maps}
use k8s_opencode.Operator.EmailMap.History.{Change, adds, meant}
use k8s_opencode.Delivery.Histories.{IsEntitled, write_all-handle}
use k8s_opencode.Delivery.{IsSignedIn, mounted, reconciled-handle, removed-handle}

abbrev sign_in : Outside
sign_in = record {
  accepts_request = λ r. true;
  client_do =
      λ r. some (record { status_code = 202; header = ("X-Auth-Request-Email", "ann@x.org") ∷ [] });
  url_parses = λ t. true;
}

abbrev cfg : Config
cfg = record {
  oauth_proxy_url = "http://proxy:4180";
  sign_in_url = "https://ingress/oauth2/sign_in";
  host_prefix = "oc";
}

abbrev asked : Request
asked = record { host = "oc-ann-prod.ts.net"; header = []; body = "" }

signed_in : IsSignedIn sign_in cfg asked (trim_space ann.spec.email)
unfolding trim_space trim_left trim_right is_space lookup
signed_in = record {
  answer = record { status_code = 202; header = ("X-Auth-Request-Email", "ann@x.org") ∷ [] };
  sent = refl;
  answered = refl;
  accepted = refl;
  named = refl;
}

host_named : extract_user_from_host cfg.host_prefix asked.host ≡ some ann.name
unfolding extract_user_from_host match_plus_dash match_star_dash is_user_char is_dash strip_prefix
host_named = refl

reconciled-handle_example :
    (m : EmailMap) × (load_email_map marked (
        mounted memory memory_contract marked marked-IsRoundTrip "ok8s"
          (reconcile_email_map memory marked "ok8s" ann empty).1)
      ≡ inr m)
    × (handle sign_in cfg (entries m) asked
        ≡ proxied
            (target_of cfg.host_prefix ann.name)
            (set_identity asked (trim_space ann.spec.email) ann.name))
reconciled-handle_example =
    reconciled-handle memory memory_contract marked marked-IsRoundTrip "ok8s" sign_in cfg ann empty
      asked added signed_in host_named refl

-- The cluster where the email has been added.
abbrev with_email : Cluster
with_email = (reconcile_email_map memory marked "ok8s" ann empty).1

abbrev no_email : EmailMap
no_email = some []

has_email : trim_space ann.spec.email ≢ ""
unfolding trim_space trim_left trim_right is_space
has_email e = absurd (cc (e))

removed : (remove_from_email_map memory marked "ok8s" ann with_email).0 ≡ ok tt
unfolding lookup insert delete unmarshal_marked marshal_marked is_space trim_left trim_right
    trim_space parse_email_map store_payload write_payload put_entry adopt_email_map
    create_email_map set_missing set_email reconcile_email_map drop_entry unset_email
    remove_from_email_map is_reason pure raise lift try key_eq keep stored put drop write_changed
    begun create_or_update_in cast
removed = refl

-- The cluster where it has been removed again.
abbrev without_email : Cluster
without_email = (remove_from_email_map memory marked "ok8s" ann with_email).1

loaded_empty :
    load_email_map marked
      (inr (text_of (stored without_email config_map_kind (email_map_at memory marked "ok8s"))))
    ≡ inr no_email
unfolding lookup insert delete unmarshal_marked marshal_marked is_space trim_left trim_right
    trim_space parse_email_map store_payload write_payload put_entry adopt_email_map
    create_email_map set_missing set_email reconcile_email_map drop_entry unset_email
    remove_from_email_map is_reason pure raise lift try key_eq keep stored put drop write_changed
    begun create_or_update_in cast load_email_map parse
loaded_empty = refl

nobody :
    load_email_map marked
      (mounted memory memory_contract marked marked-IsRoundTrip "ok8s" without_email)
    ≡ inr no_email
nobody =
    ap (λ cm. load_email_map marked (inr (text_of cm)))
      (memory_contract-lookup without_email config_map_kind (email_map_at memory marked "ok8s"))
    ∙ loaded_empty

removed-handle_example :
    handle sign_in cfg (entries no_email) asked ≢ proxied "http://oc-user-ann:4096" asked
removed-handle_example =
    removed-handle memory memory_contract marked marked-IsRoundTrip "ok8s" sign_in cfg ann
      with_email asked no_email "http://oc-user-ann:4096" asked has_email removed nobody signed_in

abbrev one_email : EmailMap
one_email = some (("ann@x.org", "ann") ∷ [])

abbrev history : List Change
history = adds ann ∷ []

no_map :
    parse_email_map marked
      (text_of (stored empty config_map_kind (email_map_at memory marked "ok8s")))
    ≡ ok []
unfolding lookup insert delete unmarshal_marked marshal_marked is_space trim_left trim_right
    trim_space parse_email_map store_payload write_payload put_entry adopt_email_map
    create_email_map set_missing set_email reconcile_email_map drop_entry unset_email
    remove_from_email_map is_reason pure raise lift try key_eq keep stored put drop write_changed
    begun create_or_update_in cast
no_map = refl

begins : Maps memory memory_contract marked marked-IsRoundTrip "ok8s" empty []
begins =
    ap (λ cm. parse_email_map marked (text_of cm))
      (memory_contract-lookup empty config_map_kind (email_map_at memory marked "ok8s"))
    ∙ no_map

loaded_one :
    load_email_map marked
      (inr (text_of (stored with_email config_map_kind (email_map_at memory marked "ok8s"))))
    ≡ inr one_email
unfolding lookup insert delete unmarshal_marked marshal_marked is_space trim_left trim_right
    trim_space parse_email_map store_payload write_payload put_entry adopt_email_map
    create_email_map set_missing set_email reconcile_email_map drop_entry unset_email
    remove_from_email_map is_reason pure raise lift try key_eq keep stored put drop write_changed
    begun create_or_update_in cast load_email_map parse
loaded_one = refl

somebody :
    load_email_map marked
      (mounted memory memory_contract marked marked-IsRoundTrip "ok8s" with_email)
    ≡ inr one_email
somebody =
    ap (λ cm. load_email_map marked (inr (text_of cm)))
      (memory_contract-lookup with_email config_map_kind (email_map_at memory marked "ok8s"))
    ∙ loaded_one

write_all-handle_example :
    (handle sign_in cfg (entries one_email) asked ≡ proxied "http://oc-user-ann:4096" asked) ↔ (
      (email : String) × (user : String) × IsEntitled sign_in cfg
        (meant history (λ e. lookup e []))
        asked
        email
        user
      × ("http://oc-user-ann:4096" ≡ target_of cfg.host_prefix user)
      × (asked ≡ set_identity asked email user))
write_all-handle_example =
    write_all-handle memory memory_contract marked marked-IsRoundTrip "ok8s" sign_in cfg history
      empty [] one_email asked "http://oc-user-ann:4096" asked begins (added, tt) somebody
