-- ===== src/Delivery.antt =====
-- From the operator to a router whose file is the operator's email map: the entry that
-- reconcile_emailmap.go writes has the name and the format of the file that images/router/main.go
-- reads. Which ConfigMap is mounted there is up to the deployment.
pub mod Histories
mod Tests
use k8s_opencode.Common.{
  String, Option, none, some, [], ◌≡◌, refl, sym, ap, ◌∙◌, ◌≢◌, inl, inr, ◌⊎◌, true, arith, ◌==◌,
  eq_refl, eq_iff, if◌then◌else◌, Bool-cases, Sum-cases,
}
use k8s_opencode.Common.Dict.{Dict, lookup}
use k8s_opencode.Common.Json.{Codec, IsRoundTrip}
use k8s_opencode.Common.Text.{trim_space}
use k8s_opencode.Operator.Exec.{ok, err, raise}
use k8s_opencode.Operator.Api.{OpenCodeWorkspace}
use k8s_opencode.Operator.Client.{Client}
use k8s_opencode.Operator.Contract.{Contract}
use k8s_opencode.Operator.EmailMap.{
  parse_email_map, allocated, reconcile_email_map, remove_from_email_map,
}
use k8s_opencode.Operator.EmailMap.Entries.{parse_email_map-cases, text_of, stored, Sets}
use k8s_opencode.Operator.EmailMap.Retried.{reconcile_email_map-Sets}
use k8s_opencode.Operator.EmailMap.Removal.{Clears, remove_from_email_map-Clears}
use k8s_opencode.Router.Host.{extract_user_from_host}
use k8s_opencode.Router.Watch.{File, EmailMap, load_email_map, parse, entries}
use k8s_opencode.Router.Access.{
  Request, AuthResponse, get_header, proxied, Outside, Config, auth_handler, handle, target_of,
  set_identity,
}
use k8s_opencode.Router.Access.Grants.{Granted, question, handle-proxied_iff}

entries-allocated : (m : EmailMap) → entries m ≡ allocated m
entries-allocated none = refl
entries-allocated (some d) = refl

-- A text that the operator parses to a map with an entry is loaded by the router as that map.
parsed-load :
    (j : Codec) (text email name : String) (m : Dict String)
    → parse_email_map j text ≡ ok m
    → lookup email m ≡ some name
    → (m' : EmailMap) × (load_email_map j (inr text) ≡ inr m') × (entries m' ≡ m)
unfolding load_email_map parse lookup
parsed-load j text email name m h l = elim (parse_email_map-cases j text m h) [
  | inl (blank, empty) ↦ absurd (cc (empty, l))
  | inr (m', read, e) ↦ (m', ground (arith, read), entries-allocated m' ∙ e)
]

-- What the router loads from a text that the operator parses has the same entries.
pub load-parsed :
    (j : Codec) (rt : IsRoundTrip j) (text : String) (m : Dict String) (m' : EmailMap)
    → parse_email_map j text ≡ ok m
    → load_email_map j (inr text) ≡ inr m'
    → entries m' ≡ m
unfolding load_email_map parse
load-parsed j rt text m m' h l = elim (parse_email_map-cases j text m h) [
  | inl (blank, empty) ↦ let (e, failed) = rt.blank text blank in absurd (ground (arith, failed))
  | inr (n, read, e) ↦
      let same : n ≡ m' = ground (arith, read) in ap entries (sym same) ∙ (entries-allocated n ∙ e)
]

-- The sign-in service accepts the request and names the email.
pub record IsSignedIn (o : Outside) (cfg : Config) (r : Request) (email : String) : Type 0 where
  pub answer : AuthResponse
  pub sent : o.accepts_request (question cfg r) ≡ true
  pub answered : o.client_do (question cfg r) ≡ some answer
  pub accepted : answer.status_code ≡ 202
  pub named : get_header answer.header "X-Auth-Request-Email" ≡ email

module _ (c : Client) (contract : Contract c) (j : Codec) (rt : IsRoundTrip j)
    (system : String) where
  -- The file that the router reads, where the ConfigMap of the world is mounted.
  abbrev pub mounted : c.World → File
  mounted w = inr (text_of (stored c contract j rt system w))

  reconciled_email :
      (ws : OpenCodeWorkspace) (w : c.World)
      → (reconcile_email_map c j system ws w).0 ≡ ok tt
      → trim_space ws.spec.email ≢ ""
  unfolding reconcile_email_map raise
  reconciled_email ws w h e = cc (rw ((eq_iff (trim_space ws.spec.email) "").1 e) at h)

  -- Once the operator has added a workspace to the email map without an error, a router whose file is
  -- that map loads it, and hands every request whose host names the workspace and whose sender signs in
  -- with the workspace's email, as that user's, to a reverse proxy for the address
  -- `http://<prefix>-user-<name>:4096`, if that parses. Whether a Service has that name is not said.
  pub reconciled-handle :
      (o : Outside) (cfg : Config) (ws : OpenCodeWorkspace) (w : c.World) (r : Request)
      → (reconcile_email_map c j system ws w).0 ≡ ok tt
      → IsSignedIn o cfg r (trim_space ws.spec.email)
      → extract_user_from_host cfg.host_prefix r.host ≡ some ws.name
      → o.url_parses (target_of cfg.host_prefix ws.name) ≡ true
      → (m : EmailMap) × (load_email_map j (mounted (reconcile_email_map c j system ws w).1)
          ≡ inr m)
        × (handle o cfg (entries m) r
            ≡ proxied
                (target_of cfg.host_prefix ws.name)
                (set_identity r (trim_space ws.spec.email) ws.name))
  reconciled-handle o cfg ws w r h s e u =
      let email = trim_space ws.spec.email in
      let sets = reconcile_email_map-Sets c contract j rt system ws w h in
      let entry : lookup email sets.after ≡ some ws.name =
        ground (arith, sets.entries email, eq_refl email) in
      let (m, loaded, same) = parsed-load j _ email ws.name sets.after sets.maps_after entry in
      let granted : Granted o cfg (entries m) r email ws.name = record {
        answer = s.answer;
        sent = s.sent;
        answered = s.answered;
        accepted = s.accepted;
        named = s.named;
        signed_in = reconciled_email ws w h;
        mapped = ap (lookup email) same ∙ entry;
        asked = e;
        routable = u;
      } in
      (
        m,
        loaded,
        (handle-proxied_iff o cfg (entries m) r _ _).1 (email, ws.name, granted, refl, refl),
      )

  -- Once the operator has removed a workspace that has an email from the email map without an error, a
  -- router that has loaded the map as its file forwards no request whose sender signs in with the
  -- workspace's email, whatever its host.
  pub removed-handle :
      (o : Outside) (cfg : Config) (ws : OpenCodeWorkspace) (w : c.World) (r : Request)
      (m : EmailMap) (target : String) (r' : Request)
      → trim_space ws.spec.email ≢ ""
      → (remove_from_email_map c j system ws w).0 ≡ ok tt
      → load_email_map j (mounted (remove_from_email_map c j system ws w).1) ≡ inr m
      → IsSignedIn o cfg r (trim_space ws.spec.email)
      → handle o cfg (entries m) r ≢ proxied target r'
  removed-handle o cfg ws w r m target r' n h l s p =
      let email = trim_space ws.spec.email in
      let clears = remove_from_email_map-Clears c contract j rt system ws w n h in
      let gone : lookup email clears.after ≡ none =
        ground (arith, clears.entries email, eq_refl email) in
      let (email', user, g, t, q) = (handle-proxied_iff o cfg (entries m) r target r').0 p in
      let same_answer : s.answer ≡ g.answer = cc (s.answered, g.answered) in
      let same_email : email ≡ email' = cc (same_answer, s.named, g.named) in
      let same = load-parsed j rt _ clears.after m clears.maps_after l in
      absurd (cc (same, same_email, g.mapped, gone))
