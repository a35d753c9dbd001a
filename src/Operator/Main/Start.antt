-- ===== src/Operator/Main/Start.antt =====
-- With what options the manager is made, and how the program ends.
use k8s_opencode.Common.{
  String, ap, ◌∙◌, sym, Bool, true, false, List, [], ◌∷◌, ◌≡◌, refl, ◌==◌, inl, inr, Bool-cases,
  if◌then◌else◌, ◌⊎◌,
}
use k8s_opencode.Operator.Exec.{Result, ok, err, Exec}
use k8s_opencode.Operator.Main.{
  Flags, TlsConfig, tls_opts_of, webhook_options, metrics_options, manager_options,
  get_system_namespace, Library, Exit, returned, exits, setup_with_manager, or_exit, main,
}

-- The configuration that a server is made with, from the one that it would have.
abbrev pub configured : List (TlsConfig → TlsConfig) → TlsConfig → TlsConfig
configured [] c = c
configured (f ∷ fs) c = configured fs (f c)

tls_opts_of-off :
    (f : Flags) (c : TlsConfig)
    → f.enable_http2 ≡ false
    → (configured (tls_opts_of f) c).next_protos ≡ "http/1.1" ∷ []
unfolding tls_opts_of
tls_opts_of-off f c off = rw off refl

webhook_tls : (f : Flags) → (webhook_options f).tls_opts ≡ tls_opts_of f
unfolding webhook_options
webhook_tls f = elim (Bool-cases (f.webhook_cert_path == "")) [
  | inl absent ↦ rw absent refl
  | inr given ↦ rw given refl
]

metrics_served :
    (f : Flags)
    → ((metrics_options f).tls_opts ≡ tls_opts_of f)
      × ((metrics_options f).secure_serving ≡ f.secure_metrics)
      × ((metrics_options f).filtered ≡ f.secure_metrics)
unfolding metrics_options
metrics_served f = elim (Bool-cases (f.metrics_cert_path == "")) [
  | inl absent ↦ rw absent (refl, refl, filter f.secure_metrics)
  | inr given ↦ rw given (refl, refl, filter f.secure_metrics)
]
  where
    filter : (b : Bool) → (if b then true else false) ≡ b
    filter true = refl
    filter false = refl

-- Unless HTTP/2 is enabled, and whatever the other flags are, the metrics server and the webhook
-- server offer HTTP/1.1 only, whatever they would have offered; and the metrics are served over
-- HTTPS exactly where their clients are authenticated and authorized.
pub manager_options-guarded :
    (f : Flags) (c : TlsConfig)
    → f.enable_http2 ≡ false
    → ((configured (manager_options f).webhook.tls_opts c).next_protos ≡ "http/1.1" ∷ [])
      × ((configured (manager_options f).metrics.tls_opts c).next_protos ≡ "http/1.1" ∷ [])
      × ((manager_options f).metrics.secure_serving ≡ (manager_options f).metrics.filtered)
unfolding manager_options
manager_options-guarded f c off =
    let http = tls_opts_of-off f c off in
    let (tls, secure, filtered) = metrics_served f in
    (rw (webhook_tls f) http, rw tls http, secure ∙ sym filtered)

module _ (l : Library) where
  -- What is known where the rest is reached is known where the whole returns.
  or_exit-cases :
      {A P : Type 0} (m : Exec l.World A) (k : A → l.World → Exit × l.World) (w : l.World)
      → ((a : A) (u : l.World)
          → m w ≡ (ok a, u)
          → ((k a u).0 ≡ exits 1) ⊎ (((k a u).0 ≡ returned) × P))
      → ((or_exit l m k w).0 ≡ exits 1) ⊎ (((or_exit l m k w).0 ≡ returned) × P)
  unfolding or_exit
  or_exit-cases {A} {P} m k w rest =
      answer (m w).0 (m w).1 (λ a q. rest a (m w).1 (ap (λ r. (r, (m w).1)) q))
    where
      answer :
          (r : Result A) (u : l.World)
          → ((a : A) → r ≡ ok a → ((k a u).0 ≡ exits 1) ⊎ (((k a u).0 ≡ returned) × P))
          → ((or_exit l (λ _. (r, u)) k u).0 ≡ exits 1)
            ⊎ (((or_exit l (λ _. (r, u)) k u).0 ≡ returned) × P)
      answer (ok a) u known = known a refl
      answer (err e) u known = inl refl

  -- A manager was made with the options of the flags, the workspaces' reconciler was registered with
  -- it for the namespace of the environment, then the two checks, and it ran until it stopped
  -- without an error: each call in the world that the one before it left.
  pub record Ran (f : Flags) (pod_namespace : String) (w : l.World) : Type 0 where
    pub mgr : l.Manager
    pub w1 : l.World
    pub w2 : l.World
    pub w3 : l.World
    pub w4 : l.World
    pub w5 : l.World
    pub made : l.new_manager (manager_options f) w ≡ (ok mgr, w1)
    pub registered :
        l.complete mgr "OpenCodeWorkspace" "opencodeworkspace"
          (record { system_namespace = get_system_namespace pod_namespace })
          w1
        ≡ (ok tt, w2)
    pub healthz : l.add_healthz_check mgr "healthz" w2 ≡ (ok tt, w3)
    pub readyz : l.add_readyz_check mgr "readyz" w3 ≡ (ok tt, w4)
    pub stopped : l.start mgr w4 ≡ (ok tt, w5)

  -- The program ends by exit code 1, or `main` returns: then a manager made with the options of the
  -- flags, with the workspaces' reconciler and both checks registered, has run and stopped without an
  -- error.
  pub main-Ran :
      (f : Flags) (pod_namespace : String) (w : l.World)
      → ((main l f pod_namespace w).0 ≡ exits 1)
        ⊎ (((main l f pod_namespace w).0 ≡ returned) × Ran f pod_namespace w)
  unfolding main setup_with_manager
  main-Ran f pod_namespace w = or_exit-cases (l.new_manager (manager_options f)) _ w λ mgr w1 made.
      or_exit-cases (l.complete mgr _ _ _) _ w1 λ _ w2 registered.
        or_exit-cases (l.add_healthz_check mgr _) _ w2 λ _ w3 healthz.
          or_exit-cases (l.add_readyz_check mgr _) _ w3 λ _ w4 readyz.
            or_exit-cases (l.start mgr) _ w4 λ _ w5 stopped. inr (
              refl,
              record {
                mgr = mgr;
                w1 = w1;
                w2 = w2;
                w3 = w3;
                w4 = w4;
                w5 = w5;
                made = made;
                registered = registered;
                healthz = healthz;
                readyz = readyz;
                stopped = stopped;
              },
            )
