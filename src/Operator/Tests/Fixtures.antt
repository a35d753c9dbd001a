-- ===== src/Operator/Tests/Fixtures.antt =====
-- A workspace, and clusters in memory without and with its resources.
use k8s_opencode.Common.{String, true, false, none, some, inr, [], ◌∷◌}
use k8s_opencode.Common.Json.Marked.{marked}
use k8s_opencode.Operator.Api.{
  OpenCodeWorkspace, OpenCodeWorkspaceSpec, OpenCodeWorkspaceStatus, ResourceRequirements,
  ProviderConfig,
}
use k8s_opencode.Operator.Object.{Key, Secret, meta_of}
use k8s_opencode.Operator.Memory.{owned_by, Cluster, memory}
use k8s_opencode.Operator.Resources.Config.{ConfigCodec}
use k8s_opencode.Operator.Reconcile.{finalizer_name, reconcile_live}

abbrev pub no_resources : ResourceRequirements
no_resources = record { requests = none; limits = none }

abbrev pub no_provider : ProviderConfig
no_provider = record {
  enabled = false;
  model = "";
  api_key_secret_ref = record { name = ""; namespace = "" };
}

abbrev pub spec : OpenCodeWorkspaceSpec
spec = record {
  email = " ann@x.org";
  namespace_prefix = "oc";
  providers = record {
    anthropic = record {
      enabled = false;
      model = "";
      api_key_secret_ref = record { name = ""; namespace = "" };
    };
    openai = no_provider;
    openrouter = no_provider;
  };
  resources = no_resources;
  storage = record {
    workspace = record { text = "20Gi" };
    data_size = record { text = "0" };
    storage_class_name = "";
  };
  tailscale = record {
    ingress_tags = some ("tag:dev" ∷ []);
    egress = record { enabled = false; laptop_hostname = ""; mcp_ports = []; tags = [] };
  };
  kubedock = record { enabled = false; resources = no_resources };
  server_password = "";
  plugins = record { enabled = true; npm = [] };
  mcp = record {
    remote =
        record {
          name = "docs";
          url = "https://docs.x.org";
          enabled = true;
          headers = [];
          oauth = none;
        }
        ∷ [];
    laptop_servers =
        record {
          name = "ide";
          tailscale_ip = "100.64.0.1";
          tailscale_fqdn = "";
          port = 8080;
          enabled = true;
        }
        ∷ [];
  };
  skills = record { npm = []; config = [] };
}

abbrev pub status_of : String → OpenCodeWorkspaceStatus
status_of phase = record {
  phase = phase;
  namespace = "";
  ingress_hostname = "";
  message = "";
  acl_snippet = "";
  conditions = [];
}

-- A workspace that waits for its resources, and holds the finalizer.
abbrev pub ann : OpenCodeWorkspace
ann = record {
  name = "ann";
  generation = 1;
  deletion_timestamp = none;
  finalizers = finalizer_name ∷ [];
  spec = spec;
  status = status_of "Pending";
}

abbrev pub empty : Cluster
empty = record { objects = λ k key. none; workspaces = λ name. none }

-- Configurations are read and written as texts of no content.
abbrev pub plain_config : ConfigCodec
plain_config = record {
  Value = String;
  read_value = λ text. inr text;
  marshal_config = λ config. inr "{}";
}

abbrev pub other_secret : Key
other_secret = record { namespace = "oc-bob"; name = "workspace-secrets" }

-- The cluster that has the workspace's resources.
abbrev pub filled : Cluster
filled = (reconcile_live memory marked plain_config "ok8s" ann empty).1

abbrev pub old_secret : Secret
old_secret = record {
  meta = meta_of "oc-ann" "workspace-secrets";
  type = "Opaque";
  contents = some (("server-password", "hunter2") ∷ []);
}

abbrev pub new_secret : Secret
new_secret = record {
  meta = owned_by ann (meta_of "oc-ann" "workspace-secrets");
  type = "Opaque";
  contents = some (("server-password", "hunter2") ∷ []);
}

abbrev pub named : String → String → OpenCodeWorkspace
named prefix name = record ann { name = name; spec = record spec { namespace_prefix = prefix } }

-- It refers to an API key.
abbrev pub with_key : OpenCodeWorkspace
with_key = record ann {
  spec = record spec {
    providers = record (spec.providers) {
      anthropic = record {
        enabled = true;
        model = "";
        api_key_secret_ref = record { name = "ann-key"; namespace = "keys" };
      };
    };
  };
}
