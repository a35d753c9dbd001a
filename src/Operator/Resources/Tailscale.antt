-- ===== src/Operator/Resources/Tailscale.antt =====
-- operator/internal/controller/reconcile_tailscale.go
use k8s_opencode.Common.{
  String, Bool, not, ◌&&◌, true, false, Option, none, some, List, [], ◌∷◌, ◌==◌, if◌then◌else◌,
}
use k8s_opencode.Common.Dict.{Dict, insert}
use k8s_opencode.Operator.Exec.{Exec, pure, wrapping, ◌>>=◌, ◌>>◌}
use k8s_opencode.Operator.Api.{OpenCodeWorkspace}
use k8s_opencode.Operator.Object.{ObjectMeta, Ingress, meta_of, ingress_kind}
use k8s_opencode.Operator.Client.{Client}
use k8s_opencode.Operator.Resources.Owned.{own, put_label}
use k8s_opencode.Operator.Resources.Names.{generate_ingress_hostname}

abbrev pub ingress_class_name : String
ingress_class_name = "tailscale"

abbrev is_nil : Option (List String) → Bool
is_nil none = true
is_nil (some tags) = false

-- `if len(IngressTags) > 0 { Annotations["tailscale.com/tags"] = IngressTags[0] }`
abbrev pub tag : Option (List String) → Dict String → Dict String
tag none d = d
tag (some []) d = d
tag (some (t ∷ ts)) d = insert "tailscale.com/tags" t d

abbrev pub annotate : OpenCodeWorkspace → String → ObjectMeta → ObjectMeta
annotate ws hostname m = record m {
  annotations = some (
      tag ws.spec.tailscale.ingress_tags
        (insert "tailscale.com/hostname" hostname (elim m.annotations [ none ↦ [] | some d ↦ d ])));
}

module _ (c : Client) (ws : OpenCodeWorkspace) where
  unfoldable pub expose : String → Ingress → Exec c.World Ingress
  expose hostname ingress = do
    m ← own c ws (
        annotate ws hostname (
          put_label "app.kubernetes.io/workspace" ws.name
            (put_label "app.kubernetes.io/managed-by" "opencode-operator" ingress.meta)))
    pure (record ingress {
      meta = m;
      ingress_class_name = some ingress_class_name;
      default_backend = some (record { service = "workspace"; port = 4096 });
      tls_hosts = (hostname ∷ []) ∷ [];
    })

  unfoldable pub reconcile_ingress : String → String → Exec c.World (Unit {0})
  reconcile_ingress namespace hostname =
      c.create_or_update ingress_kind
        (record {
          meta = meta_of namespace "opencode-workspace";
          ingress_class_name = none;
          default_backend = none;
          tls_hosts = [];
        })
        (expose hostname)

  -- The result is the workspace, whose status has the host name if an ingress was made.
  unfoldable pub reconcile_tailscale_ingress : String → Exec c.World OpenCodeWorkspace
  reconcile_tailscale_ingress namespace =
      if is_nil ws.spec.tailscale.ingress_tags && not ws.spec.tailscale.egress.enabled
      then pure ws
      else do
        let hostname = generate_ingress_hostname ws
        wrapping "failed to reconcile Ingress: " (reconcile_ingress namespace hostname)
        if not (ws.status.ingress_hostname == hostname)
            then pure (record ws { status = record (ws.status) { ingress_hostname = hostname } })
            else pure ws
