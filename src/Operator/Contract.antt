-- ===== src/Operator/Contract.antt =====
-- What the operator relies on of the API server and of the client's helpers: documented behaviour,
-- as hypotheses on a `Client`. No other writer interferes during a call of the operator.
use k8s_opencode.Common.{[], ◌∷◌, List, ℕ, String, Option, none, some, ◌≡◌, ◌≢◌, ◌⊎◌, true}
use k8s_opencode.Operator.Exec.{Error, err, ok, Exec, is_reason}
use k8s_opencode.Operator.Api.{OpenCodeWorkspace}
use k8s_opencode.Operator.Object.{
  Kind, Object, Key, key_of, config_map_kind, secret_kind, network_policy_kind, stateful_set_kind,
  Container, EnvVar, PodTemplateSpec, StatefulSet,
}
use k8s_opencode.Operator.Client.{Client, is_not_found}

-- Two addresses of objects that are not the same.
abbrev pub Differs : Kind → Key → Kind → Key → Type 0
Differs k key k' key' = (k ≢ k') ⊎ (key ≢ key')

-- `retry.RetryOnConflict` runs its function, again while that returns a conflict, and answers what
-- the last run answered. `Attempts c m w w'`: runs from `w` that failed have led to `w'`.
pub data Attempts (c : Client) (m : Exec c.World (Unit {0})) : c.World → c.World → Type 0 where
  first : {w : c.World} → Attempts c m w w
  again :
      {w w' : c.World} (e : Error)
      → Attempts c m w w'
      → (m w').0 ≡ err e
      → is_reason c.conflict e ≡ true
      → Attempts c m w (m w').1

-- The kinds of which the API server stores the fields that the operator uses as they are written.
pub data IsVerbatim : Kind → Type 0 where
  verbatim_network_policy : IsVerbatim network_policy_kind
  verbatim_secret : IsVerbatim secret_kind
  verbatim_config_map : IsVerbatim config_map_kind

abbrev pub env_of : List Container → List (List EnvVar)
env_of [] = []
env_of (c ∷ cs) = c.env ∷ env_of cs

-- Two templates whose pods have the same volumes and environments.
pub record SameInputs (t t' : PodTemplateSpec) : Type 0 where
  pub volumes : t'.volumes ≡ t.volumes
  pub init_env : env_of t'.init_containers ≡ env_of t.init_containers
  pub env : env_of t'.containers ≡ env_of t.containers

pub record Contract (c : Client) : Type 0 where
  -- the stored object of a kind at a key
  pub lookup : c.World → (k : Kind) → Key → Option (Object k)
  pub lookup_key :
      (w : c.World) (k : Kind) (key : Key) (o : Object k)
      → lookup w k key ≡ some o
      → key_of k o ≡ key
  -- reads
  pub get_ok :
      (k : Kind) (key : Key) (w : c.World) (o : Object k)
      → (c.get k key w).0 ≡ ok o
      → lookup w k key ≡ some o
  pub get_missing :
      (k : Kind) (key : Key) (w : c.World) (e : Error)
      → (c.get k key w).0 ≡ err e
      → is_not_found c e ≡ true
      → lookup w k key ≡ none
  pub get_frame :
      (k : Kind) (key : Key) (w : c.World) (k' : Kind) (key' : Key)
      → lookup (c.get k key w).1 k' key' ≡ lookup w k' key'
  -- a ConfigMap is stored as it is written; a write that is refused as a conflict, or since the
  -- object exists, writes nothing
  pub create_ok :
      (o : Object config_map_kind) (w : c.World)
      → (c.create config_map_kind o w).0 ≡ ok tt
      → lookup (c.create config_map_kind o w).1 config_map_kind (key_of config_map_kind o) ≡ some o
  pub create_refused :
      (o : Object config_map_kind) (w : c.World) (e : Error)
      → (c.create config_map_kind o w).0 ≡ err e
      → (is_reason c.already_exists e ≡ true) ⊎ (is_reason c.conflict e ≡ true)
      → lookup (c.create config_map_kind o w).1 config_map_kind (key_of config_map_kind o)
        ≡ lookup w config_map_kind (key_of config_map_kind o)
  pub update_ok :
      (o : Object config_map_kind) (w : c.World)
      → (c.update config_map_kind o w).0 ≡ ok tt
      → lookup (c.update config_map_kind o w).1 config_map_kind (key_of config_map_kind o) ≡ some o
  pub update_conflict :
      (o : Object config_map_kind) (w : c.World) (e : Error)
      → (c.update config_map_kind o w).0 ≡ err e
      → is_reason c.conflict e ≡ true
      → lookup (c.update config_map_kind o w).1 config_map_kind (key_of config_map_kind o)
        ≡ lookup w config_map_kind (key_of config_map_kind o)
  -- a write touches the object that it addresses, and no other
  pub create_frame :
      (k : Kind) (o : Object k) (w : c.World) (k' : Kind) (key' : Key)
      → Differs k (key_of k o) k' key'
      → lookup (c.create k o w).1 k' key' ≡ lookup w k' key'
  pub update_frame :
      (k : Kind) (o : Object k) (w : c.World) (k' : Kind) (key' : Key)
      → Differs k (key_of k o) k' key'
      → lookup (c.update k o w).1 k' key' ≡ lookup w k' key'
  -- so does CreateOrUpdate, if the function that it runs leaves the other object as it is
  pub create_or_update_frame :
      (k : Kind) (o : Object k) (f : Object k → Exec c.World (Object k)) (w : c.World) (k' : Kind)
      (key' : Key) (v : Option (Object k'))
      → Differs k (key_of k o) k' key'
      → ((x : Object k) (u : c.World) → lookup u k' key' ≡ v → lookup (f x u).1 k' key' ≡ v)
      → lookup w k' key' ≡ v
      → lookup (c.create_or_update k o f w).1 k' key' ≡ v
  -- and, where it succeeds, leaves the object stored: of the kinds of which the server sets no field
  -- that the operator uses, as that function leaves it
  pub create_or_update_there :
      (k : Kind) (o : Object k) (f : Object k → Exec c.World (Object k)) (w : c.World)
      → (c.create_or_update k o f w).0 ≡ ok tt
      → (o' : Object k) × (lookup (c.create_or_update k o f w).1 k (key_of k o) ≡ some o')
  pub create_or_update_written :
      (k : Kind)
      → IsVerbatim k
      → (o : Object k) (f : Object k → Exec c.World (Object k)) (w : c.World)
      → (c.create_or_update k o f w).0 ≡ ok tt
      → (x : Object k) × (u : c.World) × (o' : Object k) × ((f x u).0 ≡ ok o')
        × (lookup (c.create_or_update k o f w).1 k (key_of k o) ≡ some o')
  -- of a StatefulSet the server sets fields that were left out, but no volume and no variable
  pub create_or_update_template :
      (o : StatefulSet) (f : StatefulSet → Exec c.World StatefulSet) (w : c.World)
      → (c.create_or_update stateful_set_kind o f w).0 ≡ ok tt
      → (x : StatefulSet) × (u : c.World) × (o' : StatefulSet) × (s : StatefulSet) × ((f x u).0
          ≡ ok o')
        × (lookup
              (c.create_or_update stateful_set_kind o f w).1
              stateful_set_kind
              (key_of stateful_set_kind o)
            ≡ some s)
        × SameInputs o'.template s.template
  -- where the function answers the stored object as it is, that stays as it is
  pub create_or_update_idle :
      (k : Kind) (o : Object k) (f : Object k → Exec c.World (Object k)) (w : c.World)
      (y : Object k)
      → ((x : Object k) (u : c.World)
          → lookup u k (key_of k o) ≡ some y
          → lookup (f x u).1 k (key_of k o) ≡ some y)
      → ((u : c.World) → (f y u).0 ≡ ok y)
      → lookup w k (key_of k o) ≡ some y
      → lookup (c.create_or_update k o f w).1 k (key_of k o) ≡ some y
  -- a status update answers the same resource, with its spec as it was
  pub update_status_answer :
      (ws : OpenCodeWorkspace) (w : c.World) (ws' : OpenCodeWorkspace)
      → (c.update_status ws w).0 ≡ ok ws'
      → (ws'.name ≡ ws.name) × (ws'.spec ≡ ws.spec)
  -- the finalizer that is added is there
  pub finalizer_there :
      (finalizers : List String) (name : String)
      → c.contains_finalizer (c.add_finalizer finalizers name) name ≡ true
  -- workspaces are objects of another kind, and a random number is none; what a workspace owns goes
  -- only after it has gone itself, which a finalizer prevents
  pub get_workspace_frame :
      (name : String) (w : c.World) (k' : Kind) (key' : Key)
      → lookup (c.get_workspace name w).1 k' key' ≡ lookup w k' key'
  pub update_workspace_frame :
      (ws : OpenCodeWorkspace) (name : String) (w : c.World) (k' : Kind) (key' : Key)
      → c.contains_finalizer ws.finalizers name ≡ true
      → lookup (c.update_workspace ws w).1 k' key' ≡ lookup w k' key'
  pub update_status_frame :
      (ws : OpenCodeWorkspace) (w : c.World) (k' : Kind) (key' : Key)
      → lookup (c.update_status ws w).1 k' key' ≡ lookup w k' key'
  pub rand_read_frame :
      (n : ℕ) (w : c.World) (k' : Kind) (key' : Key)
      → lookup (c.rand_read n w).1 k' key' ≡ lookup w k' key'
  pub retry :
      (m : Exec c.World (Unit {0})) (w : c.World)
      → (w' : c.World) × Attempts c m w w' × (c.retry_on_conflict m w ≡ m w')

-- What is relied on of the workspaces themselves, besides: a read is of the workspace that is asked
-- for, and after a write that was accepted it is of what was written, if nothing else writes these fields
-- in between; a write that is not of the newest version is refused. A finalizer that was added is there.
pub record WorkspaceContract (c : Client) : Type 0 where
  pub named :
      (name : String) (w : c.World) (ws : OpenCodeWorkspace)
      → (c.get_workspace name w).0 ≡ ok ws
      → ws.name ≡ name
  pub reread :
      (ws answer ws' : OpenCodeWorkspace) (w : c.World)
      → (c.update_workspace ws w).0 ≡ ok answer
      → (c.get_workspace ws.name (c.update_workspace ws w).1).0 ≡ ok ws'
      → ws'.finalizers ≡ ws.finalizers
  pub reread_status :
      (ws answer ws' : OpenCodeWorkspace) (w : c.World)
      → (c.update_status ws w).0 ≡ ok answer
      → (c.get_workspace ws.name (c.update_status ws w).1).0 ≡ ok ws'
      → (ws'.finalizers ≡ ws.finalizers) × (ws'.status ≡ ws.status)
  pub finalizer_added :
      (finalizers : List String) (name : String)
      → c.contains_finalizer (c.add_finalizer finalizers name) name ≡ true
