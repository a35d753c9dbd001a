-- ===== src/Operator/Isolation/Calls.antt =====
-- The calls of the API, and the objects that they do not address.
use k8s_opencode.Common.{true, ℕ, String, Option, ◌≡◌, refl, ◌∙◌}
use k8s_opencode.Operator.Exec.{Error, Result, ok, err, Exec, try}
use k8s_opencode.Operator.Exec.Keeps.{Keeps}
use k8s_opencode.Operator.Api.{OpenCodeWorkspace}
use k8s_opencode.Operator.Object.{Kind, Object, Key, key_of}
use k8s_opencode.Operator.Client.{Client}
use k8s_opencode.Operator.Contract.{Contract, Differs, Attempts, first, again}

module _ (c : Client) (contract : Contract c) {P : c.World → Type 0} where
  -- A read answers an object of the key that it is asked for.
  pub Keeps-try-read :
      {B : Type 0} (k : Kind) (key : Key) (f : Object k → Exec c.World B)
      (g : Error → Exec c.World B)
      → Keeps P (c.get k key)
      → ((o : Object k) → key_of k o ≡ key → Keeps P (f o))
      → ((e : Error) → Keeps P (g e))
      → Keeps P (try (c.get k key) f g)
  unfolding try
  Keeps-try-read {B} k key f g kget kf kg = record {
    at = λ w h. answer w (c.get k key w).0 refl (kget.at w h);
  }
    where
      answer :
          (w : c.World) (r : Result (Object k))
          → (c.get k key w).0 ≡ r
          → P (c.get k key w).1
          → P (try (λ _. (r, (c.get k key w).1)) f g w).1
      answer w (ok o) e h =
          (kf o (contract.lookup_key w k key o (contract.get_ok k key w o e))).at _ h
      answer w (err x) e h = (kg x).at _ h

  Keeps-Attempts :
      {m : Exec c.World (Unit {0})} {w w' : c.World} → Keeps P m → P w → Attempts c m w w' → P w'
  Keeps-Attempts km h first = h
  Keeps-Attempts km h (again {w' = w'} e t _ _) = km.at w' (Keeps-Attempts km h t)

  pub Keeps-retried : (m : Exec c.World (Unit {0})) → Keeps P m → Keeps P (c.retry_on_conflict m)
  Keeps-retried m km = record {
    at = λ w h. let (w', t, e) = contract.retry m w in rw e (km.at w' (Keeps-Attempts km h t));
  }

module _ (c : Client) (contract : Contract c) (k' : Kind) (key' : Key)
    (o' : Option (Object k')) where
  open contract use {lookup}

  -- The object at the address `k'`, `key'` is `o'`.
  abbrev pub Same : c.World → Type 0
  Same w = lookup w k' key' ≡ o'

  pub Keeps-get : (k : Kind) (key : Key) → Keeps Same (c.get k key)
  Keeps-get k key = record { at = λ w h. contract.get_frame k key w k' key' ∙ h }

  -- What is read has the key that it is read by.
  pub Keeps-try-get :
      {B : Type 0} (k : Kind) (key : Key) (f : Object k → Exec c.World B)
      (g : Error → Exec c.World B)
      → ((o : Object k) → key_of k o ≡ key → Keeps Same (f o))
      → ((e : Error) → Keeps Same (g e))
      → Keeps Same (try (c.get k key) f g)
  Keeps-try-get k key f g kf kg = Keeps-try-read c contract k key f g (Keeps-get k key) kf kg

  pub Keeps-create :
      (k : Kind) (o : Object k) → Differs k (key_of k o) k' key' → Keeps Same (c.create k o)
  Keeps-create k o d = record { at = λ w h. contract.create_frame k o w k' key' d ∙ h }

  pub Keeps-update :
      (k : Kind) (o : Object k) → Differs k (key_of k o) k' key' → Keeps Same (c.update k o)
  Keeps-update k o d = record { at = λ w h. contract.update_frame k o w k' key' d ∙ h }

  pub Keeps-create_or_update :
      (k : Kind) (o : Object k) (f : Object k → Exec c.World (Object k))
      → Differs k (key_of k o) k' key'
      → ((x : Object k) → Keeps Same (f x))
      → Keeps Same (c.create_or_update k o f)
  Keeps-create_or_update k o f d kf = record {
    at = λ w h. contract.create_or_update_frame k o f w k' key' o' d (λ x u. (kf x).at u) h;
  }

  pub Keeps-get_workspace : (name : String) → Keeps Same (c.get_workspace name)
  Keeps-get_workspace name = record { at = λ w h. contract.get_workspace_frame name w k' key' ∙ h }

  pub Keeps-update_workspace :
      (ws : OpenCodeWorkspace) (name : String)
      → c.contains_finalizer ws.finalizers name ≡ true
      → Keeps Same (c.update_workspace ws)
  Keeps-update_workspace ws name there = record {
    at = λ w h. contract.update_workspace_frame ws name w k' key' there ∙ h;
  }

  pub Keeps-update_status : (ws : OpenCodeWorkspace) → Keeps Same (c.update_status ws)
  Keeps-update_status ws = record { at = λ w h. contract.update_status_frame ws w k' key' ∙ h }

  pub Keeps-rand_read : (n : ℕ) → Keeps Same (c.rand_read n)
  Keeps-rand_read n = record { at = λ w h. contract.rand_read_frame n w k' key' ∙ h }

  pub Keeps-retry :
      (m : Exec c.World (Unit {0})) → Keeps Same m → Keeps Same (c.retry_on_conflict m)
  Keeps-retry m km = Keeps-retried c contract m km
