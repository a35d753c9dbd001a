-- ===== src/Operator/Supplies/Needs.antt =====
-- What the pods of a workspace need in order to start, and that a reconciliation supplies it.

use k8s_opencode.Common.{some, List, [], ◌∷◌, ◌⊎◌, String, ◌≡◌, inl, inr}
use k8s_opencode.Common.Json.{Codec}
use k8s_opencode.Operator.Api.{OpenCodeWorkspace}
use k8s_opencode.Operator.Object.{
  Volume, VolumeSource, claim, config_map_source, empty_dir, SecretKeySelector, StatefulSet, EnvVar,
  secret_kind, config_map_kind, stateful_set_kind,
}
use k8s_opencode.Operator.Client.{Client}
use k8s_opencode.Operator.Contract.{Contract, env_of}
use k8s_opencode.Operator.Resources.Config.{ConfigCodec}
use k8s_opencode.Operator.Reconcile.{done, reconcile_live}
use k8s_opencode.Operator.Reconcile.Live.{Ends-reconcile_live}
use k8s_opencode.Operator.Resources.Names.{namespace_name}
use k8s_opencode.Operator.Resources.Workload.{pod_template, init_container, workspace_container}
use k8s_opencode.Operator.Resources.Workload.Env.{build_provider_env_vars}
use k8s_opencode.Operator.Resources.Workload.Unread.{Known, AllRefs, AllRefs-map, env_vars-Known}
use k8s_opencode.Operator.Supplies.Stored.{Stored}
use k8s_opencode.Operator.Supplies.Parts.{
  HasEntry, in_namespace, ClaimStored, PasswordStored, SetStored,
}
use k8s_opencode.Operator.Supplies.Reconciled.{Stocked, Complete, Ends-provision_in}

-- What a volume of a pod is made of is there; a configuration has the file that opencode reads.
abbrev pub Resolves : (c : Client) → Contract c → String → c.World → VolumeSource → Type 0
Resolves c contract namespace w (claim name) = ClaimStored c contract namespace name w
Resolves c contract namespace w (config_map_source name) =
    Stored c contract config_map_kind (in_namespace namespace name)
      (λ cm. HasEntry "opencode.json" cm.contents) w
Resolves c contract namespace w empty_dir = Unit

abbrev pub AllVolumes : (VolumeSource → Type 0) → List Volume → Type 0
AllVolumes P [] = Unit
AllVolumes P (v ∷ vs) = P v.source × AllVolumes P vs

-- A Secret is stored that has the key which a variable of the environment refers to.
abbrev pub Readable : (c : Client) → Contract c → String → c.World → SecretKeySelector → Type 0
Readable c contract namespace w r =
    Stored c contract secret_kind (in_namespace namespace r.name) (λ s. HasEntry r.key s.contents) w

-- All that the volumes and the environment of a workspace's pods refer to is stored, the API keys
-- apart.
pub record HasInputs (c : Client) (contract : Contract c) (ws : OpenCodeWorkspace) (w : c.World)
    : Type 0 where
  pub volumes : AllVolumes (Resolves c contract (namespace_name ws) w) (pod_template ws).volumes
  pub secrets :
      AllRefs
        (λ r. Readable c contract (namespace_name ws) w r ⊎ (r.key ≡ "api-key"))
        (workspace_container ws).env

readable :
    (c : Client) (contract : Contract c) (namespace : String) (w : c.World)
    → PasswordStored c contract namespace w
    → (r : SecretKeySelector) → Known r
    → Readable c contract namespace w r ⊎ (r.key ≡ "api-key")
readable c contract namespace w p r known = elim known [
  | inl (named, keyed) ↦ inl (rw (named, keyed) p)
  | inr e ↦ inr e
]

pub Stocked-HasInputs :
    (c : Client) (contract : Contract c) (ws : OpenCodeWorkspace) (w : c.World)
    → Stocked c contract (namespace_name ws) w
    → HasInputs c contract ws w
unfolding pod_template workspace_container
Stocked-HasInputs c contract ws w s = record {
  volumes = (s.workspace_claim, (s.data_claim, (s.config, (tt, (tt, (tt, tt))))));
  secrets =
      AllRefs-map Known _ (readable c contract _ w s.password) (build_provider_env_vars ws)
        (env_vars-Known ws);
}

abbrev pub AllEnvs : (SecretKeySelector → Type 0) → List (List EnvVar) → Type 0
AllEnvs P [] = Unit
AllEnvs P (env ∷ envs) = AllRefs P env × AllEnvs P envs

-- A StatefulSet is stored in the namespace, and all that the volumes and the environments of its own
-- pods refer to, the API keys apart.
pub record IsSupplied (c : Client) (contract : Contract c) (namespace : String) (w : c.World)
    : Type 0 where
  pub set : StatefulSet
  pub stored : contract.lookup w stateful_set_kind (in_namespace namespace "workspace") ≡ some set
  pub volumes : AllVolumes (Resolves c contract namespace w) set.template.volumes
  pub init_env :
      AllEnvs
        (λ r. Readable c contract namespace w r ⊎ (r.key ≡ "api-key"))
        (env_of set.template.init_containers)
  pub env :
      AllEnvs
        (λ r. Readable c contract namespace w r ⊎ (r.key ≡ "api-key"))
        (env_of set.template.containers)

Complete-IsSupplied :
    (c : Client) (contract : Contract c) (namespace : String) (w : c.World)
    → Stocked c contract namespace w
    → SetStored c contract namespace w
    → IsSupplied c contract namespace w
unfolding pod_template init_container workspace_container
Complete-IsSupplied c contract namespace w s set =
    let (ws, same) = set.meets in
    record {
      set = set.object;
      stored = set.there;
      volumes =
          rw same.volumes (s.workspace_claim, (s.data_claim, (s.config, (tt, (tt, (tt, tt))))));
      init_env = rw same.init_env ((tt, tt), tt);
      env = rw same.env (
        AllRefs-map Known _ (readable c contract namespace w s.password)
            (build_provider_env_vars ws) (env_vars-Known ws),
        tt,
      );
    }

-- After a reconciliation of a workspace that is not being deleted which answers with no error and no
-- requeue, the workspace's namespace has a StatefulSet, and all that its own pods need to start: the
-- claim or the ConfigMap of each of their volumes, the latter with `opencode.json`, and each key of a
-- Secret that the environment of a container reads, unless it is a provider's `api-key`.
pub reconcile_live-IsSupplied :
    (c : Client) (contract : Contract c) (j : Codec) (jc : ConfigCodec) (system : String)
    (ws : OpenCodeWorkspace) (w : c.World)
    → (reconcile_live c j jc system ws w).0 ≡ done
    → IsSupplied c contract (namespace_name ws) (reconcile_live c j jc system ws w).1
reconcile_live-IsSupplied c contract j jc system ws w h =
    let (stocked, set) =
      (Ends-reconcile_live c contract j jc system (Complete c contract j jc system)
          (Ends-provision_in c contract j jc system) ws).at
        w h in
    Complete-IsSupplied c contract _ _ stocked set
