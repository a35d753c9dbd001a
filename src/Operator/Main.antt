-- ===== src/Operator/Main.antt =====
-- operator/cmd/main.go: the flags, the options that they become, and the start of the manager; and
-- `SetupWithManager` of operator/internal/controller/opencodeworkspace_controller.go.
pub mod Start
use k8s_opencode.Common.{
  ℕ, String, Bool, true, false, not, Option, none, some, List, [], ◌∷◌, ◌==◌, if◌then◌else◌,
}
use k8s_opencode.Operator.Exec.{Error, Result, ok, err, Exec}

pub record Flags : Type 0 where
  pub metrics_addr : String
  pub metrics_cert_path : String
  pub metrics_cert_name : String
  pub metrics_cert_key : String
  pub webhook_cert_path : String
  pub webhook_cert_name : String
  pub webhook_cert_key : String
  pub enable_leader_election : Bool
  pub probe_addr : String
  pub secure_metrics : Bool
  pub enable_http2 : Bool

-- What flag.StringVar and flag.BoolVar give where the command line is silent.
abbrev pub default_flags : Flags
default_flags = record {
  metrics_addr = "0";
  metrics_cert_path = "";
  metrics_cert_name = "tls.crt";
  metrics_cert_key = "tls.key";
  webhook_cert_path = "";
  webhook_cert_name = "tls.crt";
  webhook_cert_key = "tls.key";
  enable_leader_election = false;
  probe_addr = ":8081";
  secure_metrics = true;
  enable_http2 = false;
}

-- The part of a `tls.Config` that the program sets.
pub record TlsConfig : Type 0 where
  pub next_protos : List String

-- webhook.Options
pub record WebhookOptions : Type 0 where
  pub tls_opts : List (TlsConfig → TlsConfig)
  pub cert_dir : String
  pub cert_name : String
  pub key_name : String

-- metricsserver.Options; the filter is filters.WithAuthenticationAndAuthorization or none
pub record MetricsOptions : Type 0 where
  pub bind_address : String
  pub secure_serving : Bool
  pub tls_opts : List (TlsConfig → TlsConfig)
  pub filtered : Bool
  pub cert_dir : String
  pub cert_name : String
  pub key_name : String

-- ctrl.Options
pub record ManagerOptions : Type 0 where
  pub metrics : MetricsOptions
  pub webhook : WebhookOptions
  pub health_probe_bind_address : String
  pub leader_election : Bool
  pub leader_election_id : String

abbrev pub disable_http2 : TlsConfig → TlsConfig
disable_http2 c = record { next_protos = "http/1.1" ∷ [] }

-- var tlsOpts
unfoldable pub tls_opts_of : Flags → List (TlsConfig → TlsConfig)
tls_opts_of f = if not f.enable_http2 then disable_http2 ∷ [] else []

unfoldable pub webhook_options : Flags → WebhookOptions
unfolding tls_opts_of
webhook_options f =
    let o : WebhookOptions = record {
      tls_opts = tls_opts_of f;
      cert_dir = "";
      cert_name = "";
      key_name = "";
    } in
    if not (f.webhook_cert_path == "")
    then record o {
      cert_dir = f.webhook_cert_path;
      cert_name = f.webhook_cert_name;
      key_name = f.webhook_cert_key;
    }
    else o

unfoldable pub metrics_options : Flags → MetricsOptions
unfolding tls_opts_of
metrics_options f =
    let o : MetricsOptions = record {
      bind_address = f.metrics_addr;
      secure_serving = f.secure_metrics;
      tls_opts = tls_opts_of f;
      filtered = if f.secure_metrics then true else false;
      cert_dir = "";
      cert_name = "";
      key_name = "";
    } in
    if not (f.metrics_cert_path == "")
    then record o {
      cert_dir = f.metrics_cert_path;
      cert_name = f.metrics_cert_name;
      key_name = f.metrics_cert_key;
    }
    else o

unfoldable pub manager_options : Flags → ManagerOptions
unfolding webhook_options metrics_options
manager_options f = record {
  metrics = metrics_options f;
  webhook = webhook_options f;
  health_probe_bind_address = f.probe_addr;
  leader_election = f.enable_leader_election;
  leader_election_id = "b138afdc.opencode.io";
}

-- of the value of the environment variable POD_NAMESPACE, "" where it is not set
unfoldable pub get_system_namespace : String → String
get_system_namespace pod_namespace =
    if not (pod_namespace == "") then pod_namespace else "ok8s-system"

-- OpenCodeWorkspaceReconciler, less its client
pub record OpenCodeWorkspaceReconciler : Type 0 where
  pub system_namespace : String

-- What the program calls of controller-runtime. `new_manager` is ctrl.NewManager with the
-- configuration of the cluster, without which ctrl.GetConfigOrDie ends the process before.
-- `complete` is the builder's `For`, `Named` and `Complete`, with the resource that is watched and
-- the controller's name.
pub record Library : Type 1 where
  pub World : Type 0
  pub Manager : Type 0
  pub new_manager : ManagerOptions → Exec World Manager
  pub complete : Manager → String → String → OpenCodeWorkspaceReconciler → Exec World (Unit {0})
  pub add_healthz_check : Manager → String → Exec World (Unit {0})
  pub add_readyz_check : Manager → String → Exec World (Unit {0})
  pub start : Manager → Exec World (Unit {0})

-- How the process ends: main returns, or os.Exit is called.
pub data Exit : Type 0 where
  returned : Exit
  exits : ℕ → Exit

module _ (l : Library) where
  unfoldable pub setup_with_manager :
      OpenCodeWorkspaceReconciler → l.Manager → Exec l.World (Unit {0})
  setup_with_manager r mgr = l.complete mgr "OpenCodeWorkspace" "opencodeworkspace" r

  abbrev pub go_on :
      {A : Type 0} → Result A → (A → l.World → Exit × l.World) → l.World → Exit × l.World
  go_on (ok a) k w = k a w
  go_on (err e) k w = (exits 1, w)

  -- `if err != nil { …; os.Exit(1) }` before the rest
  unfoldable pub or_exit :
      {A : Type 0} → Exec l.World A → (A → l.World → Exit × l.World) → l.World → Exit × l.World
  or_exit m k w = go_on (m w).0 k (m w).1

  -- From the parsed flags and the environment on.
  unfoldable pub main : Flags → String → l.World → Exit × l.World
  unfolding setup_with_manager or_exit get_system_namespace
  main f pod_namespace = or_exit (l.new_manager (manager_options f)) λ mgr.
      or_exit
        (setup_with_manager (record { system_namespace = get_system_namespace pod_namespace }) mgr)
        λ _. or_exit (l.add_healthz_check mgr "healthz") λ _.
          or_exit (l.add_readyz_check mgr "readyz") λ _. or_exit (l.start mgr) λ _ w. (returned, w)
