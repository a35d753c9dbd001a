-- ===== src/Router/Tests.antt =====
-- The router at one configuration and one request: its theorems applied to them.
mod Watching
use Prim.Native.String.{count}
use mathlib.Core.Path.{subst}
use k8s_opencode.Common.{
  ◌≤◌, String, ◌++◌, true, some, ◌≡◌, refl, ◌≢◌, ◌↔◌, [], ◌∷◌, ◌==◌, if◌then◌else◌,
}
use k8s_opencode.Common.Dict.{Dict, lookup, insert}
use k8s_opencode.Common.Text.{strip_prefix}
use k8s_opencode.Router.Host.{
  is_user_char, is_dash, match_star_dash, match_plus_dash, extract_user_from_host,
}
use k8s_opencode.Router.Host.Longest.{AllUser, Admits}
use k8s_opencode.Router.Host.Labels.{
  DashFree, EndsLabel, extract_iff_longest, extract_plain_namespace, extract_dashed_namespace,
}
use k8s_opencode.Router.Access.{
  Request, proxied, Outside, Config, auth_handler, get_email, forward, authorize, handle, target_of,
  set_identity,
}
use k8s_opencode.Router.Access.Grants.{
  Granted, handle-proxied_iff, forwarded_identity, handle_depends_on_own_entry,
}

abbrev signed_in : Outside
signed_in = record {
  accepts_request = λ r. true;
  client_do =
      λ r. some (record { status_code = 202; header = ("X-Auth-Request-Email", "ann@x.org") ∷ [] });
  url_parses = λ t. true;
}

abbrev cfg : Config
cfg = record {
  oauth_proxy_url = "http://ok8s-oauth2-proxy:4180";
  sign_in_url = "https://oc-ingress-opencode/oauth2/sign_in";
  host_prefix = "opencode";
}

abbrev emails : Dict String
emails = ("bob@x.org", "bob") ∷ ("ann@x.org", "ann") ∷ []

abbrev fewer_emails : Dict String
fewer_emails = ("ann@x.org", "ann") ∷ []

-- It comes with a forged identity.
abbrev request : Request
request = record {
  host = "opencode-ann-prod.ts.net";
  header = ("X-Forwarded-User", "bob") ∷ [];
  body = "";
}

abbrev target : String
target = "http://opencode-user-ann:4096"

abbrev sent : Request
sent = record {
  host = "opencode-ann-prod.ts.net";
  header = ("X-Forwarded-User", "ann") ∷ ("X-Forwarded-Email", "ann@x.org") ∷ [];
  body = "";
}

run : handle signed_in cfg emails request ≡ proxied target sent
unfolding handle auth_handler authorize get_email forward lookup insert extract_user_from_host
    match_plus_dash match_star_dash is_user_char is_dash strip_prefix
run = refl

handle-proxied_iff_example : (handle signed_in cfg emails request ≡ proxied target sent) ↔ (
    (email : String) × (user : String) × Granted signed_in cfg emails request email user
    × (target ≡ target_of cfg.host_prefix user)
    × (sent ≡ set_identity request email user))
handle-proxied_iff_example = handle-proxied_iff signed_in cfg emails request target sent

forwarded_identity_example :
    (email : String) × (user : String) × Granted signed_in cfg emails request email user
    × ((name : String)
        → lookup name sent.header ≡ (
            if "X-Forwarded-User" == name
            then some user
            else if "X-Forwarded-Email" == name
            then some email
            else lookup name request.header))
forwarded_identity_example = forwarded_identity signed_in cfg emails request target sent run

same_entry :
    (email : String)
    → auth_handler signed_in cfg.oauth_proxy_url request ≡ some email
    → lookup email emails ≡ lookup email fewer_emails
unfolding auth_handler lookup
same_entry email h =
    let named : "ann@x.org" ≡ email = cc (h) in
    subst (λ e. lookup e emails ≡ lookup e fewer_emails) named refl

handle_depends_on_own_entry_example :
    handle signed_in cfg emails request ≡ handle signed_in cfg fewer_emails request
handle_depends_on_own_entry_example =
    handle_depends_on_own_entry signed_in cfg emails fewer_emails request same_entry

extract_iff_longest_example :
    (extract_user_from_host "opencode" "opencode-ann-prod.ts.net" ≡ some "ann") ↔ (
      Admits "opencode" "opencode-ann-prod.ts.net" "ann"
      × ((v : String) → Admits "opencode" "opencode-ann-prod.ts.net" v → count v ≤ count "ann"))
extract_iff_longest_example = extract_iff_longest "opencode" "opencode-ann-prod.ts.net" "ann"

ann_user : AllUser "ann"
unfolding is_user_char
ann_user = (refl, (refl, (refl, tt)))

prod-DashFree : DashFree "prod"
unfolding is_dash
prod-DashFree = (refl, (refl, (refl, (refl, tt))))

ends_label : EndsLabel ".ts.net"
unfolding is_user_char
ends_label = refl

extract_plain_namespace_example :
    extract_user_from_host "opencode"
      (("opencode" ++ "-") ++ ("ann" ++ ("-" ++ ("prod" ++ ".ts.net"))))
    ≡ some "ann"
extract_plain_namespace_example =
    extract_plain_namespace "opencode" "ann" "prod" ".ts.net" (λ e. cc) ann_user prod-DashFree
      ends_label

team_user : AllUser "my"
unfolding is_user_char
team_user = (refl, (refl, tt))

extract_dashed_namespace_example :
    extract_user_from_host "opencode"
      (("opencode" ++ "-") ++ ("ann" ++ ("-" ++ ("my" ++ ("-" ++ "prod.ts.net")))))
    ≢ some "ann"
extract_dashed_namespace_example =
    extract_dashed_namespace "opencode" "ann" "my" "prod.ts.net" (λ e. cc) ann_user team_user
