-- ===== src/Operator/Reconcile/Fails.antt =====
-- What holds where a function of the reconciler answers an error: one rule for each way to build
-- such a function.

use k8s_opencode.Common.{Bool, true, false, some, ap, ◌≡◌, refl, if◌then◌else◌}
use k8s_opencode.Operator.Exec.{Error, Result, ok, err, Exec}
use k8s_opencode.Operator.Client.{Client}
use k8s_opencode.Operator.Reconcile.{
  Outcome, Action, done, failed, requeued, returns, after, return_error,
}

-- Where `m` answers an error, it asks for no requeue, and `P` holds of the error and of the world
-- that it leaves.
pub record Fails {W : Type 0} (P : Error → W → Type 0) (m : W → Outcome × W) : Type 0 where
  pub at : (w : W) (e : Error) → (m w).0.error ≡ some e → ((m w).0.requeue ≡ false) × P e (m w).1

-- The same error is returned whatever the call answers.
module _ (c : Client) where
  pub both :
      {A : Type 0} (m : Exec c.World A) (e : Error) (w : c.World)
      → after c m (λ _. return_error c e) (λ _. return_error c e) w ≡ (failed e, (m w).1)
  unfolding after returns
  both {A} m e w = answer (m w).0 (m w).1
    where
      answer :
          (r : Result A) (u : c.World)
          → after c (λ _. (r, u)) (λ _. return_error c e) (λ _. return_error c e) u ≡ (failed e, u)
      answer (ok a) u = refl
      answer (err x) u = refl

module _ (c : Client) {P : Error → c.World → Type 0} where
  pub Fails-done : Fails P (returns c done)
  unfolding returns
  Fails-done = record { at = λ w e h. absurd (cc (h)) }

  pub Fails-requeued : Fails P (returns c requeued)
  unfolding returns
  Fails-requeued = record { at = λ w e h. absurd (cc (h)) }

  pub Fails-if : (b : Bool) (m n : Action c) → Fails P m → Fails P n → Fails P (if b then m else n)
  Fails-if true m n fm fn = fm
  Fails-if false m n fm fn = fn

  pub Fails-answer :
      {A : Type 0} (m : Exec c.World A) (k : A → Action c) (g : Error → Action c)
      → ((w : c.World) (a : A) → (m w).0 ≡ ok a → Fails P (k a))
      → ((x : Error) → Fails P (g x))
      → Fails P (after c m k g)
  unfolding after
  Fails-answer {A} m k g kk kg = record {
    at = λ w e h. answer (m w).0 (m w).1 e (λ a q. kk w a q) h;
  }
    where
      answer :
          (r : Result A) (u : c.World) (e : Error)
          → ((a : A) → r ≡ ok a → Fails P (k a))
          → (after c (λ _. (r, u)) k g u).0.error ≡ some e
          → ((after c (λ _. (r, u)) k g u).0.requeue ≡ false) × P e (after c (λ _. (r, u)) k g u).1
      answer (ok a) u e l h = (l a refl).at u e h
      answer (err x) u e l h = (kg x).at u e h

  pub Fails-after :
      {A : Type 0} (m : Exec c.World A) (k : A → Action c) (g : Error → Action c)
      → ((a : A) → Fails P (k a))
      → ((x : Error) → Fails P (g x))
      → Fails P (after c m k g)
  Fails-after m k g kk kg = Fails-answer m k g (λ w a q. kk a) kg

  -- A call whose error is returned as it is.
  pub Fails-own :
      {A : Type 0} (m : Exec c.World A) (k : A → Action c)
      → ((w u : c.World) (x : Error) → m w ≡ (err x, u) → P x u)
      → ((w : c.World) (a : A) → (m w).0 ≡ ok a → Fails P (k a))
      → Fails P (after c m k (return_error c))
  unfolding after returns
  Fails-own {A} m k own kk = record {
    at = λ w e h.
        answer (m w).0 (m w).1 e (λ a q. kk w a q)
          (λ x q. own w (m w).1 x (ap (λ r. (r, (m w).1)) q)) h;
  }
    where
      answer :
          (r : Result A) (u : c.World) (e : Error)
          → ((a : A) → r ≡ ok a → Fails P (k a))
          → ((x : Error) → r ≡ err x → P x u)
          → (after c (λ _. (r, u)) k (return_error c) u).0.error ≡ some e
          → ((after c (λ _. (r, u)) k (return_error c) u).0.requeue ≡ false)
            × P e (after c (λ _. (r, u)) k (return_error c) u).1
      answer (ok a) u e l o h = (l a refl).at u e h
      answer (err x) u e l o h = (refl, o e (ap err (cc (h))))

pub ruleset fails_rules = (Fails-done, Fails-requeued, Fails-after, Fails-if)
