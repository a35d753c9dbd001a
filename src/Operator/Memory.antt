-- ===== src/Operator/Memory.antt =====
-- A cluster that is kept in memory: a `Client` with every operation.
pub mod Cast
pub mod Laws
pub mod Deletes
pub mod Workspaces
use k8s_opencode.Common.{
  ℕ, zero, suc, String, ◌==◌, Bool, ◌&&◌, not, ◌||◌, Option, none, some, List, [], ◌∷◌,
  if◌then◌else◌,
}
use k8s_opencode.Operator.Exec.{Status, Error, api, errorf, Result, ok, err, Exec}
use k8s_opencode.Operator.Api.{OpenCodeWorkspace, Condition, Quantity}
use k8s_opencode.Operator.Object.{Kind, Object, ObjectMeta, OwnerReference, Key, meta, key_of}
use k8s_opencode.Operator.Client.{Client}
use k8s_opencode.Operator.Memory.Cast.{cast}

abbrev pub Objects : Type 0
Objects = (k : Kind) → Key → Option (Object k)

pub record Cluster : Type 0 where
  pub objects : Objects
  pub workspaces : String → Option OpenCodeWorkspace

unfoldable pub key_eq : Key → Key → Bool
key_eq a b = (a.namespace == b.namespace) && (a.name == b.name)

-- An object counts at its own key only.
unfoldable pub keep : (k : Kind) → Key → Option (Object k) → Option (Object k)
keep k key none = none
keep k key (some o) = if key_eq (key_of k o) key then some o else none

unfoldable pub stored : Cluster → (k : Kind) → Key → Option (Object k)
stored w k key = keep k key (w.objects k key)

abbrev pub placed : {A : Type 0} → Bool → Option A → Option A → Option A
placed here none old = old
placed here (some o) old = if here then some o else old

unfoldable pub put : (k : Kind) → Object k → Cluster → Cluster
put k o w = record w {
  objects = λ k' key'. placed (key_eq (key_of k o) key') (cast k k' o) (w.objects k' key');
}

abbrev pub removed : {A : Type 0} → Bool → Option A → Option A → Option A
removed here none old = old
removed here (some o) old = if here then none else old

unfoldable pub drop : (k : Kind) → Object k → Cluster → Cluster
drop k o w = record w {
  objects = λ k' key'. removed (key_eq (key_of k o) key') (cast k k' o) (w.objects k' key');
}

abbrev pub refused : String → Error
refused reason = api (record { reason = reason; message = reason })

abbrev pub got : {A : Type 0} → Option A → Result A
got none = err (refused "NotFound")
got (some a) = ok a

abbrev pub create_found : (k : Kind) → Object k → Option (Object k) → Exec Cluster (Unit {0})
create_found k o none w = (ok tt, put k o w)
create_found k o (some old) w = (err (refused "AlreadyExists"), w)

abbrev pub create_in : (k : Kind) → Object k → Exec Cluster (Unit {0})
create_in k o w = create_found k o (stored w k (key_of k o)) w

abbrev pub update_found : (k : Kind) → Object k → Option (Object k) → Exec Cluster (Unit {0})
update_found k o none w = (err (refused "NotFound"), w)
update_found k o (some old) w = (ok tt, put k o w)

abbrev pub update_in : (k : Kind) → Object k → Exec Cluster (Unit {0})
update_in k o w = update_found k o (stored w k (key_of k o)) w

abbrev pub delete_found : (k : Kind) → Option (Object k) → Exec Cluster (Unit {0})
delete_found k none w = (err (refused "NotFound"), w)
delete_found k (some old) w = (ok tt, drop k old w)

abbrev pub delete_in : (k : Kind) → Key → Exec Cluster (Unit {0})
delete_in k key w = delete_found k (stored w k key) w

-- The changed object, written at the key of the object that the change began with.
unfoldable pub write_changed : (k : Kind) → Key → Result (Object k) → Exec Cluster (Unit {0})
write_changed k key (err e) w = (err e, w)
write_changed k key (ok o) w =
    if key_eq (key_of k o) key then (ok tt, put k o w) else (err (errorf "key changed"), w)

unfoldable pub begun : (k : Kind) → Object k → Option (Object k) → Object k
begun k o none = o
begun k o (some old) = old

unfoldable pub create_or_update_in :
    (k : Kind) → Object k → (Object k → Exec Cluster (Object k)) → Exec Cluster (Unit {0})
create_or_update_in k o f w =
    let changed = f (begun k o (stored w k (key_of k o))) w in
    write_changed k (key_of k o) (changed.0) (changed.1)

abbrev pub set_workspace : OpenCodeWorkspace → Cluster → Cluster
set_workspace ws w = record w {
  workspaces = λ name. if name == ws.name then some ws else w.workspaces name;
}

-- A workspace stands under its name.
unfoldable pub keep_workspace : String → Option OpenCodeWorkspace → Option OpenCodeWorkspace
keep_workspace name none = none
keep_workspace name (some ws) = if ws.name == name then some ws else none

abbrev pub contains : List String → String → Bool
contains [] x = Bool.false
contains (y ∷ ys) x = (y == x) || contains ys x

abbrev pub remove : List String → String → List String
remove [] x = []
remove (y ∷ ys) x = let rest = remove ys x in if y == x then rest else y ∷ rest

abbrev pub set_status_condition : List Condition → Condition → List Condition
set_status_condition [] n = n ∷ []
set_status_condition (o ∷ os) n =
    let rest = set_status_condition os n in if o.type == n.type then n ∷ os else o ∷ rest

abbrev pub zeros : ℕ → List ℕ
zeros zero = []
zeros (suc n) = 0 ∷ zeros n

abbrev pub owned_by : OpenCodeWorkspace → ObjectMeta → ObjectMeta
owned_by ws m = record m {
  owner_references =
      record {
        api_version = "opencode.io/v1alpha1";
        kind = "OpenCodeWorkspace";
        name = ws.name;
        uid = ws.name;
      }
      ∷ [];
}

abbrev pub memory : Client
memory = record {
  World = Cluster;
  not_found = λ s. s.reason == "NotFound";
  already_exists = λ s. s.reason == "AlreadyExists";
  conflict = λ s. s.reason == "Conflict";
  get_workspace = λ name w. (got (keep_workspace name (w.workspaces name)), w);
  update_workspace = λ ws w. (ok ws, set_workspace ws w);
  update_status = λ ws w. (ok ws, set_workspace ws w);
  get = λ k key w. (got (stored w k key), w);
  create = create_in;
  update = update_in;
  delete = delete_in;
  create_or_update = create_or_update_in;
  set_owner_reference = λ ws m. ok (owned_by ws m);
  contains_finalizer = contains;
  add_finalizer = λ fs f. f ∷ fs;
  remove_finalizer = remove;
  set_status_condition = set_status_condition;
  retry_on_conflict = λ m. m;
  rand_read = λ n w. (ok (zeros n), w);
  is_zero = λ q. q.text == "0";
  must_parse = λ text. record { text = text };
}
