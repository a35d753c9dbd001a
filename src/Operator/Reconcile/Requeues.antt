-- ===== src/Operator/Reconcile/Requeues.antt =====
-- Where a function of the reconciler asks for a requeue: one rule for each way to build such a
-- function. Neither the resources nor a deletion do.
use k8s_opencode.Common.{String, Bool, true, false, ◌≡◌, refl, if◌then◌else◌}
use k8s_opencode.Common.Json.{Codec}
use k8s_opencode.Operator.Exec.{Error, Result, ok, err, Exec}
use k8s_opencode.Operator.Api.{OpenCodeWorkspace}
use k8s_opencode.Operator.Client.{Client}
use k8s_opencode.Operator.Resources.Config.{ConfigCodec}
use k8s_opencode.Operator.Reconcile.{
  Outcome, Action, done, requeued, returns, after, return_error, handle_reconcile_error, finish,
  provision_rest, provision_in, provision, reconcile_resources, drop_finalizer, release, clean_up,
  handle_deletion,
}

-- Where `m` asks for a requeue, `P` holds of the world that it leaves.
pub record Requeues {W : Type 0} (P : W → Type 0) (m : W → Outcome × W) : Type 0 where
  pub at : (w : W) → (m w).0.requeue ≡ true → P (m w).1

module _ (c : Client) {P : c.World → Type 0} where
  pub Requeues-done : Requeues P (returns c done)
  unfolding returns
  Requeues-done = record { at = λ w h. absurd (cc (h)) }

  pub Requeues-error : (e : Error) → Requeues P (return_error c e)
  unfolding returns
  Requeues-error e = record { at = λ w h. absurd (cc (h)) }

  pub Requeues-if :
      (b : Bool) (m n : Action c) → Requeues P m → Requeues P n → Requeues P (if b then m else n)
  Requeues-if true m n rm rn = rm
  Requeues-if false m n rm rn = rn

  pub Requeues-answer :
      {A : Type 0} (m : Exec c.World A) (k : A → Action c) (g : Error → Action c)
      → ((w : c.World) (a : A) → (m w).0 ≡ ok a → Requeues P (k a))
      → ((e : Error) → Requeues P (g e))
      → Requeues P (after c m k g)
  unfolding after
  Requeues-answer {A} m k g kk kg = record {
    at = λ w h. answer (m w).0 (m w).1 (λ a q. kk w a q) h;
  }
    where
      answer :
          (r : Result A) (u : c.World)
          → ((a : A) → r ≡ ok a → Requeues P (k a))
          → (after c (λ _. (r, u)) k g u).0.requeue ≡ true
          → P (after c (λ _. (r, u)) k g u).1
      answer (ok a) u l h = (l a refl).at u h
      answer (err x) u l h = (kg x).at u h

  pub Requeues-after :
      {A : Type 0} (m : Exec c.World A) (k : A → Action c) (g : Error → Action c)
      → ((a : A) → Requeues P (k a))
      → ((e : Error) → Requeues P (g e))
      → Requeues P (after c m k g)
  Requeues-after m k g kk kg = Requeues-answer m k g (λ w a q. kk a) kg

  -- A write whose success asks for the requeue.
  pub Requeues-write :
      {A : Type 0} (m : Exec c.World A)
      → ((w : c.World) (a : A) → (m w).0 ≡ ok a → P (m w).1)
      → Requeues P (after c m (λ _. returns c requeued) (return_error c))
  unfolding after returns
  Requeues-write {A} m written = record {
    at = λ w h. answer (m w).0 (m w).1 (λ a q. written w a q) h;
  }
    where
      answer :
          (r : Result A) (u : c.World)
          → ((a : A) → r ≡ ok a → P u)
          → (after c (λ _. (r, u)) (λ _. returns c requeued) (return_error c) u).0.requeue ≡ true
          → P (after c (λ _. (r, u)) (λ _. returns c requeued) (return_error c) u).1
      answer (ok a) u l h = l a refl
      answer (err x) u l h = absurd (cc (h))

  pub Requeues-handle_reconcile_error :
      (ws : OpenCodeWorkspace) (resource : String) (e : Error)
      → Requeues P (handle_reconcile_error c ws resource e)
  unfolding handle_reconcile_error
  Requeues-handle_reconcile_error ws resource e =
      Requeues-after _ _ _ (λ a. Requeues-error e) (λ x. Requeues-error e)

pub ruleset requeues_rules =
    (Requeues-done, Requeues-error, Requeues-if, Requeues-after, Requeues-handle_reconcile_error)

module _ (c : Client) (j : Codec) (jc : ConfigCodec) (system : String) {P : c.World → Type 0} where
  -- Neither the resources nor a deletion ask for a requeue.
  pub Requeues-reconcile_resources :
      (ws : OpenCodeWorkspace) → Requeues P (reconcile_resources c j jc system ws)
  unfolding reconcile_resources provision provision_in provision_rest finish
  Requeues-reconcile_resources ws = search requeues_rules depth 40

  pub Requeues-handle_deletion :
      (ws : OpenCodeWorkspace) → Requeues P (handle_deletion c j jc system ws)
  unfolding handle_deletion clean_up release drop_finalizer
  Requeues-handle_deletion ws = search requeues_rules depth 40
