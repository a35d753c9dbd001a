-- ===== src/Operator/Reconcile/Ends.antt =====
-- What holds where a function of the reconciler answers without an error and without a requeue: one
-- rule for each way to build such a function.
use k8s_opencode.Common.{String, Bool, true, false, ◌≡◌, refl, if◌then◌else◌}
use k8s_opencode.Operator.Exec.{Error, Result, ok, err, Exec}
use k8s_opencode.Operator.Exec.Keeps.{Keeps}
use k8s_opencode.Operator.Api.{OpenCodeWorkspace}
use k8s_opencode.Operator.Client.{Client}
use k8s_opencode.Operator.Reconcile.{
  Outcome, Action, done, requeued, returns, after, return_error, mark_failed,
  handle_reconcile_error,
}

-- Where `m` answers with no error and no requeue, `P` holds of the world it leaves.
pub record Ends {W : Type 0} (P : W → Type 0) (m : W → Outcome × W) : Type 0 where
  pub at : (w : W) → (m w).0 ≡ done → P (m w).1

module _ (c : Client) {P : c.World → Type 0} where
  pub Ends-error : (e : Error) → Ends P (return_error c e)
  unfolding returns
  Ends-error e = record { at = λ w h. absurd (cc) }

  pub Ends-requeued : Ends P (returns c requeued)
  unfolding returns
  Ends-requeued = record { at = λ w h. absurd (cc) }

  pub Ends-after :
      {A : Type 0} (m : Exec c.World A) (k : A → Action c) (g : Error → Action c)
      → ((a : A) → Ends P (k a))
      → ((e : Error) → Ends P (g e))
      → Ends P (after c m k g)
  unfolding after
  Ends-after {A} m k g kk kg = record { at = λ w h. answer (m w).0 (m w).1 h }
    where
      answer :
          (r : Result A) (u : c.World)
          → (after c (λ _. (r, u)) k g u).0 ≡ done
          → P (after c (λ _. (r, u)) k g u).1
      answer (ok a) u h = (kk a).at u h
      answer (err e) u h = (kg e).at u h

  -- What follows a success may use what was answered.
  pub Ends-after-answer :
      {A : Type 0} (m : Exec c.World A) (k : A → Action c) (g : Error → Action c)
      → ((w : c.World) (a : A) → (m w).0 ≡ ok a → Ends P (k a))
      → ((e : Error) → Ends P (g e))
      → Ends P (after c m k g)
  unfolding after
  Ends-after-answer {A} m k g kk kg = record {
    at = λ w h. answer (m w).0 (m w).1 (λ a e. kk w a e) h;
  }
    where
      answer :
          (r : Result A) (u : c.World)
          → ((a : A) → r ≡ ok a → Ends P (k a))
          → (after c (λ _. (r, u)) k g u).0 ≡ done
          → P (after c (λ _. (r, u)) k g u).1
      answer (ok a) u l h = (l a refl).at u h
      answer (err e) u l h = (kg e).at u h

  -- The last call of a function, where its success is the function's.
  pub Ends-last :
      {A : Type 0} (m : Exec c.World A)
      → ((w : c.World) (a : A) → (m w).0 ≡ ok a → P (m w).1)
      → Ends P (after c m (λ _. returns c done) (return_error c))
  unfolding after returns
  Ends-last {A} m last = record { at = λ w h. answer (m w).0 (m w).1 (λ a e. last w a e) h }
    where
      answer :
          (r : Result A) (u : c.World)
          → ((a : A) → r ≡ ok a → P u)
          → (after c (λ _. (r, u)) (λ _. returns c done) (return_error c) u).0 ≡ done
          → P (after c (λ _. (r, u)) (λ _. returns c done) (return_error c) u).1
      answer (ok a) u l h = l a refl
      answer (err x) u l h = absurd (cc)

  -- What the success of a call brings about and the rest keeps.
  pub Ends-kept :
      {A : Type 0} (m : Exec c.World A) (k : A → Action c) (g : Error → Action c)
      → ((w : c.World) (a : A) → (m w).0 ≡ ok a → P (m w).1)
      → ((a : A) → Keeps P (k a))
      → ((e : Error) → Ends P (g e))
      → Ends P (after c m k g)
  unfolding after
  Ends-kept {A} m k g first kk kg = record {
    at = λ w h. answer (m w).0 (m w).1 (λ a e. first w a e) h;
  }
    where
      answer :
          (r : Result A) (u : c.World)
          → ((a : A) → r ≡ ok a → P u)
          → (after c (λ _. (r, u)) k g u).0 ≡ done
          → P (after c (λ _. (r, u)) k g u).1
      answer (ok a) u l h = (kk a).at u (l a refl)
      answer (err e) u l h = (kg e).at u h

  pub Ends-if : (b : Bool) (m n : Action c) → Ends P m → Ends P n → Ends P (if b then m else n)
  Ends-if true m n em en = em
  Ends-if false m n em en = en

  pub Ends-handle_reconcile_error :
      (ws : OpenCodeWorkspace) (resource : String) (e : Error)
      → Ends P (handle_reconcile_error c ws resource e)
  unfolding handle_reconcile_error
  Ends-handle_reconcile_error ws resource e =
      Ends-after (c.update_status (mark_failed c resource e ws)) _ _ (λ a. Ends-error e)
        (λ x. Ends-error e)

pub ruleset ends_rules =
    (Ends-error, Ends-requeued, Ends-after, Ends-if, Ends-handle_reconcile_error)
