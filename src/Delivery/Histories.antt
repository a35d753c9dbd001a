-- ===== src/Delivery/Histories.antt =====
-- Whom a router serves after any history of the operator's email map.
use k8s_opencode.Common.{String, Option, some, List, ◌≡◌, ◌≢◌, sym, ap, ◌∙◌, inr, true, ◌↔◌}
use k8s_opencode.Common.Dict.{Dict, lookup}
use k8s_opencode.Common.Json.{Codec, IsRoundTrip}
use k8s_opencode.Operator.Client.{Client}
use k8s_opencode.Operator.Contract.{Contract}
use k8s_opencode.Operator.EmailMap.Entries.{Maps}
use k8s_opencode.Operator.EmailMap.History.{Change, meant, write_all, Succeed, write_all-meant}
use k8s_opencode.Router.Host.{extract_user_from_host}
use k8s_opencode.Router.Watch.{EmailMap, load_email_map, entries}
use k8s_opencode.Router.Access.{Request, proxied, Outside, Config, handle, target_of, set_identity}
use k8s_opencode.Router.Access.Grants.{Granted, handle-proxied_iff}
use k8s_opencode.Delivery.{IsSignedIn, mounted, load-parsed}

-- The sender is signed in with the email of the user whom the host names.
pub record IsEntitled (o : Outside) (cfg : Config) (owner : String → Option String) (r : Request)
    (email user : String) : Type 0 where
  pub signed_in : IsSignedIn o cfg r email
  pub filled : email ≢ ""
  pub owned : owner email ≡ some user
  pub asked : extract_user_from_host cfg.host_prefix r.host ≡ some user
  pub routable : o.url_parses (target_of cfg.host_prefix user) ≡ true

Granted-IsEntitled :
    (o : Outside) (cfg : Config) (emails : Dict String) (owner : String → Option String)
    (r : Request) (email user : String)
    → lookup email emails ≡ owner email
    → Granted o cfg emails r email user ↔ IsEntitled o cfg owner r email user
Granted-IsEntitled o cfg emails owner r email user same = (
  λ g. record {
    signed_in = record {
      answer = g.answer;
      sent = g.sent;
      answered = g.answered;
      accepted = g.accepted;
      named = g.named;
    };
    filled = g.signed_in;
    owned = sym same ∙ g.mapped;
    asked = g.asked;
    routable = g.routable;
  },
  λ e. record {
    answer = e.signed_in.answer;
    sent = e.signed_in.sent;
    answered = e.signed_in.answered;
    accepted = e.signed_in.accepted;
    named = e.signed_in.named;
    signed_in = e.filled;
    mapped = same ∙ e.owned;
    asked = e.asked;
    routable = e.routable;
  },
)

module _ (c : Client) (contract : Contract c) (j : Codec) (rt : IsRoundTrip j)
    (system : String) where
  -- After any sequence of workspaces that were reconciled or deleted, each without an error in the
  -- email map, a router that has loaded that map as its file forwards a request exactly where the
  -- sender signs in with an email whose owner, as that sequence means it, is the user whom the host
  -- names and whose URL parses; and to that user, with that identity.
  pub write_all-handle :
      (o : Outside) (cfg : Config) (changes : List Change) (w : c.World) (m : Dict String)
      (loaded : EmailMap) (r : Request) (target : String) (r' : Request)
      → Maps c contract j rt system w m
      → Succeed c j system changes w
      → load_email_map j (mounted c contract j rt system (write_all c j system changes w))
        ≡ inr loaded
      → (handle o cfg (entries loaded) r ≡ proxied target r') ↔ (
          (email : String) × (user : String) × IsEntitled o cfg
            (meant changes (λ e. lookup e m))
            r
            email
            user
          × (target ≡ target_of cfg.host_prefix user)
          × (r' ≡ set_identity r email user))
  write_all-handle o cfg changes w m loaded r target r' h s l =
      let (m', maps, owners) = write_all-meant c contract j rt system changes w m h s in
      let same = load-parsed j rt _ m' loaded maps l in
      let owner = meant changes (λ e. lookup e m) in
      let grant = λ (email user : String).
        Granted-IsEntitled o cfg (entries loaded) owner r email user
          (ap (lookup email) same ∙ owners email) in
      let (to, from) = handle-proxied_iff o cfg (entries loaded) r target r' in
      (
        λ p. (let (email, user, g, t, q) = to p in (email, user, (grant email user).0 g, t, q)),
        λ x. (let (email, user, e, t, q) = x in from (email, user, (grant email user).1 e, t, q)),
      )
