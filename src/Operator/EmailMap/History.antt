-- ===== src/Operator/EmailMap/History.antt =====
-- The email map after any sequence of additions and removals.
use k8s_opencode.Common.{
  String, Option, none, some, List, [], ◌∷◌, ◌≡◌, refl, ap, ◌∙◌, ◌≢◌, ◌==◌, if◌then◌else◌,
}
use k8s_opencode.Common.Dict.{Dict, lookup}
use k8s_opencode.Common.Json.{Codec, IsRoundTrip}
use k8s_opencode.Common.Text.{trim_space}
use k8s_opencode.Operator.Exec.{ok, Exec}
use k8s_opencode.Operator.Api.{OpenCodeWorkspace}
use k8s_opencode.Operator.Client.{Client}
use k8s_opencode.Operator.Contract.{Contract}
use k8s_opencode.Operator.EmailMap.{reconcile_email_map, remove_from_email_map}
use k8s_opencode.Operator.EmailMap.Entries.{Maps}
use k8s_opencode.Operator.EmailMap.Retried.{reconcile_email_map-Sets}
use k8s_opencode.Operator.EmailMap.Removal.{remove_from_email_map-Clears}

-- A workspace is reconciled or deleted.
pub data Change : Type 0 where
  adds removes : OpenCodeWorkspace → Change

-- What the map is meant to be: the owner of each email, after the changes in their order.
abbrev pub meant : List Change → (String → Option String) → String → Option String
meant [] owner email = owner email
meant (adds ws ∷ changes) owner email =
    meant changes (λ e. if trim_space ws.spec.email == e then some ws.name else owner e) email
meant (removes ws ∷ changes) owner email =
    meant changes (λ e. if trim_space ws.spec.email == e then none else owner e) email

module _ (c : Client) (j : Codec) (system : String) where
  abbrev pub write : Change → Exec c.World (Unit {0})
  write (adds ws) = reconcile_email_map c j system ws
  write (removes ws) = remove_from_email_map c j system ws

  abbrev pub write_all : List Change → c.World → c.World
  write_all [] w = w
  write_all (change ∷ changes) w = write_all changes (write change w).1

  -- Every change is written without an error, and a workspace that is removed has an email.
  abbrev pub Succeed : List Change → c.World → Type 0
  Succeed [] w = Unit
  Succeed (adds ws ∷ changes) w =
      ((write (adds ws) w).0 ≡ ok tt) × Succeed changes (write (adds ws) w).1
  Succeed (removes ws ∷ changes) w =
      (trim_space ws.spec.email ≢ "")
      × ((write (removes ws) w).0 ≡ ok tt)
      × Succeed changes (write (removes ws) w).1

meant-eq :
    (changes : List Change) (owner owner' : String → Option String)
    → ((e : String) → owner e ≡ owner' e)
    → (email : String) → meant changes owner email ≡ meant changes owner' email
meant-eq [] owner owner' h email = h email
meant-eq (adds ws ∷ changes) owner owner' h email = meant-eq changes _ _ (λ e. rw (h e) refl) email
meant-eq (removes ws ∷ changes) owner owner' h email =
    meant-eq changes _ _ (λ e. rw (h e) refl) email

module _ (c : Client) (contract : Contract c) (j : Codec) (rt : IsRoundTrip j)
    (system : String) where
  same_map :
      (w : c.World) (m m' : Dict String)
      → Maps c contract j rt system w m
      → Maps c contract j rt system w m'
      → (e : String) → lookup e m ≡ lookup e m'
  same_map w m m' h h' e = (let same : m ≡ m' = cc (h, h') in ap (lookup e) same)

  -- After any sequence of changes that were each written without an error, conflicts and retries
  -- included, the stored map gives every email the owner that the sequence means it to have: that of
  -- the last change of the email, or, without one, the owner of before.
  pub write_all-meant :
      (changes : List Change) (w : c.World) (m : Dict String)
      → Maps c contract j rt system w m
      → Succeed c j system changes w
      → (m' : Dict String) × Maps c contract j rt system (write_all c j system changes w) m'
        × ((email : String) → lookup email m' ≡ meant changes (λ e. lookup e m) email)
  write_all-meant [] w m h s = (m, h, λ email. refl)
  write_all-meant (adds ws ∷ changes) w m h (written, s) =
      let step = reconcile_email_map-Sets c contract j rt system ws w written in
      let (m', maps, entries) = write_all-meant changes _ step.after step.maps_after s in
      let same = same_map w step.before m step.maps_before h in
      (
        m',
        maps,
        λ email.
            entries email ∙ meant-eq changes _ _ (λ e. step.entries e ∙ rw (same e) refl) email,
      )
  write_all-meant (removes ws ∷ changes) w m h (n, written, s) =
      let step = remove_from_email_map-Clears c contract j rt system ws w n written in
      let (m', maps, entries) = write_all-meant changes _ step.after step.maps_after s in
      let same = same_map w step.before m step.maps_before h in
      (
        m',
        maps,
        λ email.
            entries email ∙ meant-eq changes _ _ (λ e. step.entries e ∙ rw (same e) refl) email,
      )
