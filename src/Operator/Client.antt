-- ===== src/Operator/Client.antt =====
-- What the operator calls and does not implement: the API server through controller-runtime's
-- client, the helpers of controllerutil and client-go, and the standard library's random source.
use k8s_opencode.Common.{ℕ, String, Bool, List}
use k8s_opencode.Operator.Exec.{Status, Error, Result, Exec, is_reason}
use k8s_opencode.Operator.Api.{OpenCodeWorkspace, Condition, Quantity}
use k8s_opencode.Operator.Object.{Kind, Object, ObjectMeta, Key}

pub record Client : Type 1 where
  -- the cluster's state and all else that an answer depends on
  pub World : Type 0
  pub not_found : Status → Bool
  pub already_exists : Status → Bool
  pub conflict : Status → Bool
  -- r.Get, r.Update and r.Status().Update of a workspace; an update answers with the new resource
  pub get_workspace : String → Exec World OpenCodeWorkspace
  pub update_workspace : OpenCodeWorkspace → Exec World OpenCodeWorkspace
  pub update_status : OpenCodeWorkspace → Exec World OpenCodeWorkspace
  -- r.Get, r.Create, r.Update and r.Delete of any other object
  pub get : (k : Kind) → Key → Exec World (Object k)
  pub create : (k : Kind) → Object k → Exec World (Unit {0})
  pub update : (k : Kind) → Object k → Exec World (Unit {0})
  pub delete : (k : Kind) → Key → Exec World (Unit {0})
  -- controllerutil.CreateOrUpdate, with its function that changes the object
  pub create_or_update :
      (k : Kind) → Object k → (Object k → Exec World (Object k)) → Exec World (Unit {0})
  -- controllerutil.SetOwnerReference, ContainsFinalizer, AddFinalizer and RemoveFinalizer
  pub set_owner_reference : OpenCodeWorkspace → ObjectMeta → Result ObjectMeta
  pub contains_finalizer : List String → String → Bool
  pub add_finalizer : List String → String → List String
  pub remove_finalizer : List String → String → List String
  -- meta.SetStatusCondition
  pub set_status_condition : List Condition → Condition → List Condition
  -- retry.RetryOnConflict with retry.DefaultRetry
  pub retry_on_conflict : Exec World (Unit {0}) → Exec World (Unit {0})
  -- rand.Read into a slice of this length
  pub rand_read : ℕ → Exec World (List ℕ)
  -- Quantity.IsZero and resource.MustParse
  pub is_zero : Quantity → Bool
  pub must_parse : String → Quantity

-- apierrors.IsNotFound, apierrors.IsAlreadyExists
abbrev pub is_not_found : Client → Error → Bool
is_not_found c e = is_reason c.not_found e

abbrev pub is_already_exists : Client → Error → Bool
is_already_exists c e = is_reason c.already_exists e
