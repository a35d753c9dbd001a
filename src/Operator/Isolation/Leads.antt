-- ===== src/Operator/Isolation/Leads.antt =====
-- Where a reconciliation leads that may break off anywhere: an object of a namespace is as it was, or
-- what has been provided in that namespace holds.
use mathlib.Core.Path.{subst}
use k8s_opencode.Common.{String, Bool, true, false, Option, ◌≡◌, refl, ◌⊎◌, inl, if◌then◌else◌}
use k8s_opencode.Common.Json.{Codec}
use k8s_opencode.Operator.Exec.{Error, Result, ok, err, Exec}
use k8s_opencode.Operator.Exec.Keeps.{Keeps}
use k8s_opencode.Operator.Api.{OpenCodeWorkspace}
use k8s_opencode.Operator.Object.{Kind, Object, Key}
use k8s_opencode.Operator.Client.{Client}
use k8s_opencode.Operator.Contract.{Contract}
use k8s_opencode.Operator.Resources.Names.{namespace_name}
use k8s_opencode.Operator.Resources.Owned.{reconcile_namespace}
use k8s_opencode.Operator.Resources.Config.{ConfigCodec}
use k8s_opencode.Operator.Isolation.Calls.{Same}
use k8s_opencode.Operator.Isolation.Away.{IsLater, later_neq}
use k8s_opencode.Operator.Isolation.Resources.{Keeps-reconcile_namespace}
use k8s_opencode.Operator.Isolation.Reconcile.{
  Keeps-returns, Keeps-handle_reconcile_error, Keeps-record_namespace, Keeps-start_creating,
  Keeps-install_finalizer, Keeps-set_pending,
}
use k8s_opencode.Operator.Reconcile.{
  install_finalizer, set_pending, handle_reconcile_error, Action, failed, after, returns,
  provision_in, record_namespace, provision, start_creating, reconcile_resources, reconcile_live,
}
use k8s_opencode.Operator.Reconcile.Answers.{
  reconcile_namespace-answer, start_creating-answer, namespace_name-eq,
}

-- From a world of which `P` holds, `m` leads to one of which `Q` does.
pub record Leads {W X : Type 0} (P Q : W → Type 0) (m : W → X × W) : Type 0 where
  pub at : (w : W) → P w → Q (m w).1

module _ (c : Client) {P Q : c.World → Type 0} where
  pub Leads-if :
      (b : Bool) (m n : Action c) → Leads P Q m → Leads P Q n → Leads P Q (if b then m else n)
  Leads-if true m n lm ln = lm
  Leads-if false m n lm ln = ln

  -- What follows a success starts from what the success has brought about.
  pub Leads-after :
      {A : Type 0} {R : A → c.World → Type 0} (m : Exec c.World A) (k : A → Action c)
      (g : Error → Action c)
      → ((w : c.World) (a : A) → P w → (m w).0 ≡ ok a → R a (m w).1)
      → Keeps P m
      → ((w : c.World) (a : A) → (m w).0 ≡ ok a → Leads (R a) Q (k a))
      → ((e : Error) → Leads P Q (g e))
      → Leads P Q (after c m k g)
  unfolding after
  Leads-after {A} {R} m k g first km kk kg = record {
    at = λ w h. answer (m w).0 (m w).1 (λ a e. (first w a h e, kk w a e)) (km.at w h);
  }
    where
      answer :
          (r : Result A) (u : c.World)
          → ((a : A) → r ≡ ok a → R a u × Leads (R a) Q (k a))
          → P u
          → Q (after c (λ _. (r, u)) k g u).1
      answer (ok a) u l h = (let (x, y) = l a refl in y.at u x)
      answer (err e) u l h = (kg e).at u h

  pub Leads-same :
      {A : Type 0} (m : Exec c.World A) (k : A → Action c) (g : Error → Action c)
      → Keeps P m
      → ((w : c.World) (a : A) → (m w).0 ≡ ok a → Leads P Q (k a))
      → ((e : Error) → Leads P Q (g e))
      → Leads P Q (after c m k g)
  Leads-same m k g km kk kg = Leads-after {R = λ _. P} m k g (λ w a h e. km.at w h) km kk kg

module _ (c : Client) (contract : Contract c) (j : Codec) (jc : ConfigCodec) (system : String)
    (k' : Kind) (key' : Key) (o' : Option (Object k')) (later : IsLater k')
    (P : String → c.World → Type 0) where
  abbrev pub Before : c.World → Type 0
  Before w = Same c contract k' key' o' w

  -- The object is as it was, or `P` holds for the namespace.
  abbrev pub Behind : String → c.World → Type 0
  Behind namespace w = Before w ⊎ P namespace w

  pub Leads-Keeps :
      {X : Type 0} (namespace : String) (m : c.World → X × c.World)
      → Keeps Before m
      → Leads Before (Behind namespace) m
  Leads-Keeps namespace m km = record { at = λ w h. inl (km.at w h) }

  pub Leads-error :
      (namespace : String) (e : Error) → Leads Before (Behind namespace) (returns c (failed e))
  Leads-error namespace e = Leads-Keeps namespace _ (Keeps-returns c (failed e))

  pub Leads-reported :
      (namespace : String) (ws : OpenCodeWorkspace) (resource : String) (e : Error)
      → Leads Before (Behind namespace) (handle_reconcile_error c ws resource e)
  Leads-reported namespace ws resource e =
      Leads-Keeps namespace _
        (Keeps-handle_reconcile_error c contract j jc system k' key' o' ws resource e)

  module _
      (provided : (ws : OpenCodeWorkspace) (namespace : String)
        → Leads Before (Behind namespace) (provision_in c j jc system ws namespace)) where
    Leads-provision :
        (ws : OpenCodeWorkspace)
        → Leads Before (Behind (namespace_name ws)) (provision c j jc system ws)
    unfolding provision
    Leads-provision ws =
        Leads-same c (reconcile_namespace c ws) _ _
          (Keeps-reconcile_namespace c contract k' key' o' ws (inl (later_neq k' later).1))
          (λ w namespace answered.
            let same = reconcile_namespace-answer c ws w namespace answered in
            Leads-same c (record_namespace c ws namespace) _ _
              (Keeps-record_namespace c contract j jc system k' key' o' ws namespace)
              (λ w' ws' e.
                subst
                  (λ name. Leads Before (Behind name) (provision_in c j jc system ws' namespace))
                  same (provided ws' namespace))
              (Leads-error (namespace_name ws)))
          (λ e. Leads-reported (namespace_name ws) ws "Namespace" e)

    Leads-reconcile_resources :
        (ws : OpenCodeWorkspace)
        → Leads Before (Behind (namespace_name ws)) (reconcile_resources c j jc system ws)
    unfolding reconcile_resources
    Leads-reconcile_resources ws =
        Leads-same c (start_creating c ws) _ _
          (Keeps-start_creating c contract j jc system k' key' o' ws)
          (λ w ws' answered.
            let same = start_creating-answer c contract ws w ws' answered in
            subst (λ name. Leads Before (Behind name) (provision c j jc system ws'))
              (namespace_name-eq ws ws' same.0 same.1) (Leads-provision ws'))
          (Leads-error (namespace_name ws))

    pub Leads-reconcile_live :
        (ws : OpenCodeWorkspace)
        → Leads Before (Behind (namespace_name ws)) (reconcile_live c j jc system ws)
    unfolding reconcile_live
    Leads-reconcile_live ws =
        Leads-if c _ (install_finalizer c ws) _
          (Leads-Keeps _ _ (Keeps-install_finalizer c contract j jc system k' key' o' ws))
          (Leads-if c _ (set_pending c ws) _
            (Leads-Keeps _ _ (Keeps-set_pending c contract j jc system k' key' o' ws))
            (Leads-reconcile_resources ws))
