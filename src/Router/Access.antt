-- ===== src/Router/Access.antt =====
-- The request handler of images/router/main.go: who may reach which workspace.
pub mod Grants
use k8s_opencode.Common.{
  ℕ, String, ◌++◌, Bool, not, Option, none, some, nat_eq, ◌==◌, if◌then◌else◌,
}
use k8s_opencode.Common.Dict.{Dict, lookup, insert}
use k8s_opencode.Router.Host.{extract_user_from_host}

-- What the handler reads of `*http.Request`; header names are in their canonical spelling.
pub record Request : Type 0 where
  pub host : String
  pub header : Dict String
  pub body : String

-- Header.Get: "" for a header that is missing
abbrev pub get_header : Dict String → String → String
get_header h name = elim (lookup name h) [ none ↦ "" | some value ↦ value ]

-- The request that `authHandler` sends, and what it reads of the answer.
pub record AuthRequest : Type 0 where
  pub method : String
  pub url : String
  pub cookie : String

pub record AuthResponse : Type 0 where
  pub status_code : ℕ
  pub header : Dict String

-- What the handler writes, or does: `proxied` is what it hands to `ServeHTTP` of a reverse proxy for a
-- target, which then drops the hop-by-hop headers; `panicked` is the nil target URL of a reverse proxy.
pub data Response : Type 0 where
  http_error : ℕ → String → Response
  redirect : ℕ → String → Response
  proxied : String → Request → Response
  panicked : Response

-- What stands outside the program: `http.NewRequest` and `client.Do`, `none` for their errors, and
-- whether `url.Parse` accepts a text.
pub record Outside : Type 0 where
  pub accepts_request : AuthRequest → Bool
  pub client_do : AuthRequest → Option AuthResponse
  pub url_parses : String → Bool

-- The process's configuration: the package variable `hostPrefix`, and `main`'s two URLs.
pub record Config : Type 0 where
  pub oauth_proxy_url : String
  pub sign_in_url : String
  pub host_prefix : String

-- `authHandler`: `none` is an error, `some ""` is a request that is not signed in.
unfoldable pub auth_handler : Outside → String → Request → Option String
auth_handler o proxy_url r =
    let req : AuthRequest = record {
      method = "GET";
      url = proxy_url ++ "/oauth2/auth";
      cookie = get_header r.header "Cookie";
    } in
    if not (o.accepts_request req) then none else elim (o.client_do req) [
      | none ↦ none
      | some resp ↦
          if not (nat_eq resp.status_code 202)
          then some ""
          else some (get_header resp.header "X-Auth-Request-Email")
    ]

-- `getEmail`
unfoldable pub get_email : Dict String → String → Option String
get_email email_map email = lookup email email_map

abbrev pub target_of : String → String → String
target_of host_prefix user = "http://" ++ (host_prefix ++ ("-user-" ++ (user ++ ":4096")))

abbrev pub set_identity : Request → String → String → Request
set_identity r email user = record r {
  header = insert "X-Forwarded-User" user (insert "X-Forwarded-Email" email r.header);
}

-- From the look-up in the map on: `actualUser != expectedUser` and the proxy.
unfoldable pub forward : Outside → Config → Request → String → String → String → Response
forward o cfg r email expected actual =
    if not (actual == expected)
    then http_error 403 "Access denied"
    else if o.url_parses (target_of cfg.host_prefix expected)
    then proxied (target_of cfg.host_prefix expected) (set_identity r email actual)
    else panicked

unfoldable pub authorize : Outside → Config → Dict String → Request → String → Response
unfolding get_email forward
authorize o cfg email_map r email = elim (extract_user_from_host cfg.host_prefix r.host) [
  | none ↦ http_error 400 "Invalid hostname"
  | some expected ↦ elim (get_email email_map email) [
    | none ↦ http_error 403 ("Email " ++ (email ++ " not mapped to any user"))
    | some actual ↦ forward o cfg r email expected actual
  ]
]

-- The function that `main` hands to `http.HandleFunc`.
unfoldable pub handle : Outside → Config → Dict String → Request → Response
unfolding auth_handler authorize
handle o cfg email_map r = elim (auth_handler o cfg.oauth_proxy_url r) [
  | none ↦ http_error 500 "Internal Server Error"
  | some email ↦
      if email == "" then redirect 302 cfg.sign_in_url else authorize o cfg email_map r email
]

-- `getEnv`, over the value of `os.Getenv`
unfoldable pub get_env : String → String → String
get_env value fallback = if not (value == "") then value else fallback

-- The configuration that `main` reads from the environment.
unfoldable pub configure : (String → String) → Config
unfolding get_env
configure getenv = record {
  oauth_proxy_url = get_env (getenv "OAUTH2_PROXY_URL") "http://ok8s-oauth2-proxy:4180";
  sign_in_url = get_env (getenv "SIGNIN_URL") "https://oc-ingress-opencode/oauth2/sign_in";
  host_prefix = get_env (getenv "HOST_PREFIX") "opencode";
}
