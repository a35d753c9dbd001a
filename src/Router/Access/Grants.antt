-- ===== src/Router/Access/Grants.antt =====
-- When the router forwards a request, and to which workspace.
use k8s_opencode.Common.{
  String, ◌++◌, some, ◌≡◌, ◌≢◌, ◌↔◌, true, arith, eq_iff, if◌then◌else◌, ◌==◌, ap, ◌∙◌,
  Option-cases, inl, inr,
}
use k8s_opencode.Common.Dict.{Dict, lookup, lookup-insert}
use k8s_opencode.Router.Host.{extract_user_from_host}
use k8s_opencode.Router.Access.{
  Request, get_header, AuthResponse, AuthRequest, proxied, Outside, Config, auth_handler, target_of,
  set_identity, get_email, forward, authorize, handle,
}

-- The request that the router sends to the sign-in service for a client's request.
abbrev pub question : Config → Request → AuthRequest
question cfg r = record {
  method = "GET";
  url = cfg.oauth_proxy_url ++ "/oauth2/auth";
  cookie = get_header r.header "Cookie";
}

-- A request is granted to a user: the sign-in service answered 202 to the request's cookie and
-- named an email, the email maps to the user, and the host asks for that same user.
pub record Granted (o : Outside) (cfg : Config) (email_map : Dict String) (r : Request)
    (email user : String) : Type 0 where
  pub answer : AuthResponse
  pub sent : o.accepts_request (question cfg r) ≡ true
  pub answered : o.client_do (question cfg r) ≡ some answer
  pub accepted : answer.status_code ≡ 202
  pub named : get_header answer.header "X-Auth-Request-Email" ≡ email
  pub signed_in : email ≢ ""
  pub mapped : lookup email email_map ≡ some user
  pub asked : extract_user_from_host cfg.host_prefix r.host ≡ some user
  pub routable : o.url_parses (target_of cfg.host_prefix user) ≡ true

module _ (o : Outside) (cfg : Config) (email_map : Dict String) (r : Request) where
  -- A granted request is forwarded to the user's own service, with the identity headers set.
  handle_of_Granted :
      (email user : String)
      → Granted o cfg email_map r email user
      → handle o cfg email_map r
        ≡ proxied (target_of cfg.host_prefix user) (set_identity r email user)
  unfolding handle
  handle_of_Granted email user g = ground (
    arith,
    eq_iff email "",
    eq_iff (get_header g.answer.header "X-Auth-Request-Email") "",
    eq_iff user user,
  )

  forwarded-eq :
      (email expected actual target : String) (r' : Request)
      → forward o cfg r email expected actual ≡ proxied target r'
      → (actual ≡ expected)
        × (o.url_parses (target_of cfg.host_prefix actual) ≡ true)
        × (target ≡ target_of cfg.host_prefix actual)
        × (r' ≡ set_identity r email actual)
  unfolding forward
  forwarded-eq email expected actual target r' h = ground (arith, eq_iff actual expected)

  auth_handler-eq :
      (email : String)
      → auth_handler o cfg.oauth_proxy_url r ≡ some email
      → email ≢ ""
      → (answer : AuthResponse) × (o.accepts_request (question cfg r) ≡ true)
        × (o.client_do (question cfg r) ≡ some answer)
        × (answer.status_code ≡ 202)
        × (get_header answer.header "X-Auth-Request-Email" ≡ email)
  unfolding auth_handler
  auth_handler-eq email h n = elim (Option-cases (o.client_do (question cfg r))) [
    | inl failed ↦ absurd (ground arith)
    | inr (answer, e) ↦ (answer, ground arith, e, ground arith, ground arith)
  ]

  authorize-eq :
      (email target : String) (r' : Request)
      → authorize o cfg email_map r email ≡ proxied target r'
      → (user : String) × (extract_user_from_host cfg.host_prefix r.host ≡ some user)
        × (lookup email email_map ≡ some user)
        × (o.url_parses (target_of cfg.host_prefix user) ≡ true)
        × (target ≡ target_of cfg.host_prefix user)
        × (r' ≡ set_identity r email user)
  unfolding authorize
  authorize-eq email target r' h = elim (Option-cases (lookup email email_map)) [
    | inl missing ↦ absurd (ground arith)
    | inr (actual, found) ↦ elim (Option-cases (extract_user_from_host cfg.host_prefix r.host)) [
      | inl invalid ↦ absurd (ground arith)
      | inr (expected, asked) ↦
          let f = forwarded-eq email expected actual target r' (ground arith) in
          (actual, cc (asked, f.0), found, f.1, f.2, f.3)
    ]
  ]

  handle-eq :
      (target : String) (r' : Request)
      → handle o cfg email_map r ≡ proxied target r'
      → (email : String) × (auth_handler o cfg.oauth_proxy_url r ≡ some email)
        × (email ≢ "")
        × (authorize o cfg email_map r email ≡ proxied target r')
  unfolding handle
  handle-eq target r' h = elim (Option-cases (auth_handler o cfg.oauth_proxy_url r)) [
    | inl failed ↦ absurd (ground arith)
    | inr (email, e) ↦ (email, e, ground (arith, eq_iff email ""), ground (arith, eq_iff email ""))
  ]

  Granted-of_handle :
      (target : String) (r' : Request)
      → handle o cfg email_map r ≡ proxied target r'
      → (email : String) × (user : String) × Granted o cfg email_map r email user
        × (target ≡ target_of cfg.host_prefix user)
        × (r' ≡ set_identity r email user)
  Granted-of_handle target r' h =
      let (email, e, n, h') = handle-eq target r' h in
      let (answer, sent, answered, accepted, named) = auth_handler-eq email e n in
      let (user, asked, mapped, routable, t, q) = authorize-eq email target r' h' in
      (
        email,
        user,
        record {
          answer = answer;
          sent = sent;
          answered = answered;
          accepted = accepted;
          named = named;
          signed_in = n;
          mapped = mapped;
          asked = asked;
          routable = routable;
        },
        t,
        q,
      )

-- The router forwards a request, with some target and some changed request, exactly when it is
-- granted to a user; the target is then that user's own service and the forwarded request carries
-- that user and the email that the sign-in service named.
pub handle-proxied_iff :
    (o : Outside) (cfg : Config) (email_map : Dict String) (r : Request) (target : String)
    (r' : Request)
    → (handle o cfg email_map r ≡ proxied target r') ↔ (
        (email : String) × (user : String) × Granted o cfg email_map r email user
        × (target ≡ target_of cfg.host_prefix user)
        × (r' ≡ set_identity r email user))
handle-proxied_iff o cfg m r target r' = (
  Granted-of_handle o cfg m r target r',
  λ (email, user, g, t, q). cc (handle_of_Granted o cfg m r email user g),
)

lookup-set_identity :
    (r : Request) (email user name : String)
    → lookup name (set_identity r email user).header ≡ (
        if "X-Forwarded-User" == name
        then some user
        else if "X-Forwarded-Email" == name
        then some email
        else lookup name r.header)
lookup-set_identity r email user name = simp lookup-insert

-- Whatever identity headers a client sends, a request that is handed to the reverse proxy carries the
-- email that the sign-in service named for it and the user whom that email maps to and the host asks
-- for, and each other header that is read as it was when it came.
pub forwarded_identity :
    (o : Outside) (cfg : Config) (email_map : Dict String) (r : Request) (target : String)
    (r' : Request)
    → handle o cfg email_map r ≡ proxied target r'
    → (email : String) × (user : String) × Granted o cfg email_map r email user
      × ((name : String)
          → lookup name r'.header ≡ (
              if "X-Forwarded-User" == name
              then some user
              else if "X-Forwarded-Email" == name
              then some email
              else lookup name r.header))
forwarded_identity o cfg m r target r' h =
    let (email, user, g, t, q) = Granted-of_handle o cfg m r target r' h in
    (
      email,
      user,
      g,
      λ name. ap (λ (x : Request). lookup name x.header) q ∙ lookup-set_identity r email user name,
    )

-- One email's entry decides: two maps that agree on the emails that the sign-in service can name
-- for the request give the same response.
pub handle_depends_on_own_entry :
    (o : Outside) (cfg : Config) (m m' : Dict String) (r : Request)
    → ((email : String)
        → auth_handler o cfg.oauth_proxy_url r ≡ some email
        → lookup email m ≡ lookup email m')
    → handle o cfg m r ≡ handle o cfg m' r
unfolding handle get_email
handle_depends_on_own_entry o cfg m m' r same =
    elim (Option-cases (auth_handler o cfg.oauth_proxy_url r)) [
      | inl failed ↦ ground arith
      | inr (email, e) ↦ ground (arith, same email e)
    ]
