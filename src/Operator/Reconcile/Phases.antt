-- ===== src/Operator/Reconcile/Phases.antt =====
-- How often a workspace is requeued: for its finalizer and for its first phase.
use k8s_opencode.Common.{
  ℕ, zero, suc, String, true, false, Option, none, some, ◌≡◌, refl, ap, ◌∙◌, ◌==◌, ◌⊎◌, inl, inr,
  Bool-cases, if◌then◌else◌,
}
use k8s_opencode.Common.Json.{Codec}
use k8s_opencode.Operator.Exec.{Error, Result, ok, err}
use k8s_opencode.Operator.Api.{OpenCodeWorkspace, OpenCodeWorkspaceStatus}
use k8s_opencode.Operator.Client.{Client, is_not_found}
use k8s_opencode.Operator.Contract.{WorkspaceContract}
use k8s_opencode.Operator.Resources.Config.{ConfigCodec}
use k8s_opencode.Operator.Reconcile.{
  Action, done, requeued, returns, after, return_error, finalizer_name, phase_pending, set_phase,
  reconcile_resources, install_finalizer, set_pending, reconcile_live, dispatch, reconcile,
}
use k8s_opencode.Operator.Reconcile.Requeues.{
  Requeues, Requeues-done, Requeues-error, Requeues-if, Requeues-write,
  Requeues-reconcile_resources, Requeues-handle_deletion,
}

module _ (c : Client) (law : WorkspaceContract c) (j : Codec) (jc : ConfigCodec) (system : String)
    (name : String) where
  -- A workspace with the finalizer was written, and the write was accepted.
  record Installed (w : c.World) : Type 0 where
    ws : OpenCodeWorkspace
    answer : OpenCodeWorkspace
    earlier : c.World
    same_name : ws.name ≡ name
    accepted : (c.update_workspace ws earlier).0 ≡ ok answer
    left : (c.update_workspace ws earlier).1 ≡ w
    present : c.contains_finalizer ws.finalizers finalizer_name ≡ true

  -- The status of a workspace with the finalizer was written, with a phase.
  record Begun (w : c.World) : Type 0 where
    ws : OpenCodeWorkspace
    answer : OpenCodeWorkspace
    earlier : c.World
    same_name : ws.name ≡ name
    accepted : (c.update_status ws earlier).0 ≡ ok answer
    left : (c.update_status ws earlier).1 ≡ w
    present : c.contains_finalizer ws.finalizers finalizer_name ≡ true
    phased : ws.status.phase ≡ phase_pending

  Requeues-install_finalizer :
      (ws : OpenCodeWorkspace) → ws.name ≡ name → Requeues Installed (install_finalizer c ws)
  unfolding install_finalizer
  Requeues-install_finalizer ws n = Requeues-write c (c.update_workspace _) (λ w a h. record {
    ws = record ws { finalizers = c.add_finalizer ws.finalizers finalizer_name };
    answer = a;
    earlier = w;
    same_name = n;
    accepted = h;
    left = refl;
    present = law.finalizer_added ws.finalizers finalizer_name;
  })

  Requeues-set_pending :
      (ws : OpenCodeWorkspace)
      → ws.name ≡ name
      → c.contains_finalizer ws.finalizers finalizer_name ≡ true
      → Requeues Begun (set_pending c ws)
  unfolding set_pending
  Requeues-set_pending ws n p = Requeues-write c (c.update_status _) (λ w a h. record {
    ws = set_phase phase_pending ws;
    answer = a;
    earlier = w;
    same_name = n;
    accepted = h;
    left = refl;
    present = p;
    phased = refl;
  })

  -- With the finalizer there, a requeue is for the phase.
  Requeues-dispatch_installed :
      (ws : OpenCodeWorkspace) (deleted : Option String)
      → ws.name ≡ name
      → c.contains_finalizer ws.finalizers finalizer_name ≡ true
      → Requeues Begun (dispatch c j jc system ws deleted)
  unfolding dispatch reconcile_live
  Requeues-dispatch_installed ws (some t) n p = Requeues-handle_deletion c j jc system ws
  Requeues-dispatch_installed ws none n p = rw p (
      Requeues-if c (ws.status.phase == "") (set_pending c ws)
        (reconcile_resources c j jc system ws) (Requeues-set_pending ws n p)
        (Requeues-reconcile_resources c j jc system ws))

  -- With a phase as well there is none.
  Requeues-dispatch_begun :
      {P : c.World → Type 0} (ws : OpenCodeWorkspace) (deleted : Option String)
      → c.contains_finalizer ws.finalizers finalizer_name ≡ true
      → (ws.status.phase == "") ≡ false
      → Requeues P (dispatch c j jc system ws deleted)
  unfolding dispatch reconcile_live
  Requeues-dispatch_begun ws (some t) p q = Requeues-handle_deletion c j jc system ws
  Requeues-dispatch_begun ws none p q = rw (p, q) (Requeues-reconcile_resources c j jc system ws)

  Requeues-dispatch_absent :
      (ws : OpenCodeWorkspace) (deleted : Option String)
      → ws.name ≡ name
      → c.contains_finalizer ws.finalizers finalizer_name ≡ false
      → Requeues Installed (dispatch c j jc system ws deleted)
  unfolding dispatch reconcile_live
  Requeues-dispatch_absent ws (some t) n a = Requeues-handle_deletion c j jc system ws
  Requeues-dispatch_absent ws none n a = rw a (Requeues-install_finalizer ws n)

  Requeues-dispatch :
      (ws : OpenCodeWorkspace) (deleted : Option String)
      → ws.name ≡ name
      → Requeues (λ w. Installed w ⊎ Begun w) (dispatch c j jc system ws deleted)
  Requeues-dispatch ws deleted n =
      elim (Bool-cases (c.contains_finalizer ws.finalizers finalizer_name)) [
        | inl there ↦
            let r = Requeues-dispatch_installed ws deleted n there in
            record { at = λ w h. inr (r.at w h) }
        | inr absent ↦
            let r = Requeues-dispatch_absent ws deleted n absent in
            record { at = λ w h. inl (r.at w h) }
      ]

  -- What the read of the workspace finds decides.
  requeue-read :
      {P : c.World → Type 0} (w : c.World)
      → ((ws : OpenCodeWorkspace)
          → (c.get_workspace name w).0 ≡ ok ws
          → Requeues P (dispatch c j jc system ws ws.deletion_timestamp))
      → (reconcile c j jc system name w).0.requeue ≡ true
      → P (reconcile c j jc system name w).1
  unfolding reconcile after
  requeue-read {P} w found h =
      answer (c.get_workspace name w).0 (c.get_workspace name w).1 (λ ws q. found ws q) h
    where
      missing :
          (e : Error) → Requeues P (if is_not_found c e then returns c done else return_error c e)
      missing e = Requeues-if c (is_not_found c e) _ _ (Requeues-done c) (Requeues-error c e)

      answer :
          (r : Result OpenCodeWorkspace) (u : c.World)
          → ((ws : OpenCodeWorkspace)
              → r ≡ ok ws
              → Requeues P (dispatch c j jc system ws ws.deletion_timestamp))
          → (after c
              (λ _. (r, u))
              (λ ws. dispatch c j jc system ws ws.deletion_timestamp)
              (λ e. if is_not_found c e then returns c done else return_error c e)
              u).0.requeue
            ≡ true
          → P
              (after c
                (λ _. (r, u))
                (λ ws. dispatch c j jc system ws ws.deletion_timestamp)
                (λ e. if is_not_found c e then returns c done else return_error c e)
                u).1
      answer (ok ws) u l h = (l ws refl).at u h
      answer (err e) u l h = (missing e).at u h

  -- The first reconciliation, whatever was done before.
  first_requeue :
      (w : c.World)
      → (reconcile c j jc system name w).0.requeue ≡ true
      → Installed (reconcile c j jc system name w).1 ⊎ Begun (reconcile c j jc system name w).1
  first_requeue w h =
      requeue-read w (λ ws q. Requeues-dispatch ws ws.deletion_timestamp (law.named name w ws q)) h

  -- After the finalizer has been written.
  second_requeue :
      (w : c.World)
      → Installed w
      → (reconcile c j jc system name w).0.requeue ≡ true
      → Begun (reconcile c j jc system name w).1
  second_requeue w i h =
      requeue-read w
        (λ ws q.
          let there =
            law.reread i.ws i.answer ws i.earlier i.accepted (cc (q, i.same_name, i.left)) in
          Requeues-dispatch_installed ws ws.deletion_timestamp (law.named name w ws q)
            (cc (there, i.present)))
        h

  -- After the phase has been written.
  third_settles : (w : c.World) → Begun w → (reconcile c j jc system name w).0.requeue ≡ true → ⊥
  third_settles w b h =
      requeue-read {P = λ u. ⊥} w
        (λ ws q.
          let (there, status) =
            law.reread_status b.ws b.answer ws b.earlier b.accepted (cc (q, b.same_name, b.left)) in
          Requeues-dispatch_begun ws ws.deletion_timestamp (cc (there, b.present)) (
            ap (λ (s : OpenCodeWorkspaceStatus). s.phase == "") status
            ∙ ap (λ phase. phase == "") b.phased))
        h

-- A workspace that is reconciled again, at most so many times, while `Requeue: true` is answered. An
-- error ends it, although the work queue retries after that too.
unfoldable pub settle :
    (c : Client) (j : Codec) (jc : ConfigCodec) (system : String) → ℕ → String → Action c
settle c j jc system zero name w = (requeued, w)
settle c j jc system (suc n) name w =
    let first = reconcile c j jc system name w in
    let rest = settle c j jc system n name first.1 in if first.0.requeue then rest else first

module _ (c : Client) (j : Codec) (jc : ConfigCodec) (system name : String) where
  settle-step :
      (n : ℕ) (w : c.World)
      → ((reconcile c j jc system name w).0.requeue ≡ true
          → (settle c j jc system n name (reconcile c j jc system name w).1).0.requeue ≡ false)
      → (settle c j jc system (suc n) name w).0.requeue ≡ false
  unfolding settle
  settle-step n w rest = elim (Bool-cases (reconcile c j jc system name w).0.requeue) [
    | inl again ↦ rw again (rest again)
    | inr settled ↦ rw settled refl
  ]

-- Of the reconciliations of a workspace, one directly after another while nothing else writes its
-- finalizers or its status, at most two in a row answer `Requeue: true`: the third at the latest
-- answers without it, with or without an error, whatever state it was in, whether a deletion begins
-- meanwhile, and whatever calls fail. What the work queue does after an error is not counted.
pub reconcile-settles :
    (c : Client) (law : WorkspaceContract c) (j : Codec) (jc : ConfigCodec) (system name : String)
    (w : c.World)
    → (settle c j jc system 3 name w).0.requeue ≡ false
reconcile-settles c law j jc system name w =
    let settled_begun = λ (n : ℕ) (u : c.World) (b : Begun c law j jc system name u).
      settle-step c j jc system name n u
        (λ h. absurd (third_settles c law j jc system name u b h)) in
    settle-step c j jc system name 2 w λ h. elim (first_requeue c law j jc system name w h) [
      | inr b ↦ settled_begun 1 _ b
      | inl i ↦
          settle-step c j jc system name 1 _
            λ h'. settled_begun 0 _ (second_requeue c law j jc system name _ i h')
    ]
