-- ===== src/Operator/Memory/Laws.antt =====
-- The contract, for the cluster in memory.
use mathlib.Core.Path.{subst}
use k8s_opencode.Operator.Api.{OpenCodeWorkspace}
use k8s_opencode.Common.{
  Bool, true, false, arith, eq_iff, eq_refl, Option, none, some, ◌≡◌, refl, sym, ap, ◌∙◌, ◌≢◌, ◌⊎◌,
  inl, inr, Bool-cases,
}
use k8s_opencode.Operator.Exec.{Error, Result, ok, err}
use k8s_opencode.Operator.Object.{stateful_set_kind, Kind, Object, Key, key_of, config_map_kind}
use k8s_opencode.Operator.Contract.{Contract, Differs, first}
use k8s_opencode.Operator.Memory.{
  Cluster, key_eq, keep, stored, put, placed, got, create_found, update_found, set_workspace,
  write_changed, begun, create_or_update_in, memory,
}
use k8s_opencode.Operator.Memory.Cast.{cast, cast_same, cast_other}

key_eq_refl : (a : Key) → key_eq a a ≡ true
unfolding key_eq
key_eq_refl a = ground (arith, eq_refl a.namespace, eq_refl a.name)

eq-key_eq : (a b : Key) → key_eq a b ≡ true → a ≡ b
unfolding key_eq
eq-key_eq a b h =
    let n : a.namespace ≡ b.namespace = ground (arith, eq_iff a.namespace b.namespace) in
    let m : a.name ≡ b.name = ground (arith, eq_iff a.name b.name) in cc (n, m)

kept_key :
    (k : Kind) (key : Key) (x : Option (Object k)) (o : Object k)
    → keep k key x ≡ some o
    → key_of k o ≡ key
unfolding keep
kept_key k key none o h = cc
kept_key k key (some x) o h = elim (Bool-cases (key_eq (key_of k x) key)) [
  | inl e ↦
      let same : x ≡ o = ground arith in ap (key_of k) (sym same) ∙ eq-key_eq (key_of k x) key e
  | inr e ↦ absurd (cc (rw e at h))
]

pub stored_key :
    (w : Cluster) (k : Kind) (key : Key) (o : Object k) → stored w k key ≡ some o → key_of k o ≡ key
unfolding stored
stored_key w k key o h = kept_key k key (w.objects k key) o h

stored-put : (k : Kind) (o : Object k) (w : Cluster) → stored (put k o w) k (key_of k o) ≡ some o
unfolding stored keep put
stored-put k o w = ground (arith, cast_same k o, key_eq_refl (key_of k o))

placed_other :
    {A : Type 0} (b : Bool) (o old : Option A) → (o ≡ none) ⊎ (b ≡ false) → placed b o old ≡ old
placed_other b none old h = refl
placed_other true (some o) old (inl h) = cc
placed_other true (some o) old (inr h) = cc
placed_other false (some o) old h = refl

key_eq_other : (a b : Key) → a ≢ b → key_eq a b ≡ false
key_eq_other a b n = elim (Bool-cases (key_eq a b)) [
  | inl e ↦ absurd (n (eq-key_eq a b e))
  | inr e ↦ e
]

pub apart :
    (k : Kind) (o : Object k) (k' : Kind) (key' : Key)
    → Differs k (key_of k o) k' key'
    → (cast k k' o ≡ none) ⊎ (key_eq (key_of k o) key' ≡ false)
apart k o k' key' (inl n) = inl (cast_other k k' o n)
apart k o k' key' (inr n) = inr (key_eq_other _ _ n)

put_frame :
    (k : Kind) (o : Object k) (w : Cluster) (k' : Kind) (key' : Key)
    → Differs k (key_of k o) k' key'
    → stored (put k o w) k' key' ≡ stored w k' key'
unfolding stored put
put_frame k o w k' key' d = ap (keep k' key') (placed_other _ (cast k k' o) _ (apart k o k' key' d))

create_found_frame :
    (k : Kind) (o : Object k) (x : Option (Object k)) (w : Cluster) (k' : Kind) (key' : Key)
    → Differs k (key_of k o) k' key'
    → stored (create_found k o x w).1 k' key' ≡ stored w k' key'
create_found_frame k o none w k' key' d = put_frame k o w k' key' d
create_found_frame k o (some y) w k' key' d = refl

pub update_found_frame :
    (k : Kind) (o : Object k) (x : Option (Object k)) (w : Cluster) (k' : Kind) (key' : Key)
    → Differs k (key_of k o) k' key'
    → stored (update_found k o x w).1 k' key' ≡ stored w k' key'
update_found_frame k o none w k' key' d = refl
update_found_frame k o (some y) w k' key' d = put_frame k o w k' key' d

write_changed_frame :
    (k : Kind) (key : Key) (r : Result (Object k)) (w : Cluster) (k' : Kind) (key' : Key)
    → Differs k key k' key'
    → stored (write_changed k key r w).1 k' key' ≡ stored w k' key'
unfolding write_changed
write_changed_frame k key (err e) w k' key' d = refl
write_changed_frame k key (ok o) w k' key' d = elim (Bool-cases (key_eq (key_of k o) key)) [
  | inl e ↦ rw e (
      put_frame k o w k' key'
        (subst (λ a. Differs k a k' key') (sym (eq-key_eq (key_of k o) key e)) d))
  | inr e ↦ rw e refl
]

created :
    (k : Kind) (o : Object k) (x : Option (Object k)) (w : Cluster)
    → (create_found k o x w).0 ≡ ok tt
    → stored (create_found k o x w).1 k (key_of k o) ≡ some o
created k o none w h = stored-put k o w
created k o (some y) w h = cc

updated :
    (k : Kind) (o : Object k) (x : Option (Object k)) (w : Cluster)
    → (update_found k o x w).0 ≡ ok tt
    → stored (update_found k o x w).1 k (key_of k o) ≡ some o
updated k o none w h = cc
updated k o (some y) w h = stored-put k o w

create_refused :
    (k : Kind) (o : Object k) (x : Option (Object k)) (w : Cluster) (e : Error)
    → (create_found k o x w).0 ≡ err e
    → (create_found k o x w).1 ≡ w
create_refused k o none w e h = cc
create_refused k o (some y) w e h = refl

update_refused :
    (k : Kind) (o : Object k) (x : Option (Object k)) (w : Cluster) (e : Error)
    → (update_found k o x w).0 ≡ err e
    → (update_found k o x w).1 ≡ w
update_refused k o none w e h = refl
update_refused k o (some y) w e h = cc

write_changed-stored :
    (k : Kind) (key : Key) (r : Result (Object k)) (w : Cluster)
    → (write_changed k key r w).0 ≡ ok tt
    → (o : Object k) × (r ≡ ok o) × (stored (write_changed k key r w).1 k key ≡ some o)
unfolding write_changed
write_changed-stored k key (err e) w h = cc
write_changed-stored k key (ok o) w h = elim (Bool-cases (key_eq (key_of k o) key)) [
  | inl e ↦ (
    o,
    refl,
    rw e (
        subst (λ a. stored (put k o w) k a ≡ some o) (eq-key_eq (key_of k o) key e)
          (stored-put k o w)),
  )
  | inr e ↦ absurd (cc (rw e at h))
]

set_workspace_frame :
    (ws : OpenCodeWorkspace) (w : Cluster) (k' : Kind) (key' : Key)
    → stored (set_workspace ws w) k' key' ≡ stored w k' key'
unfolding stored
set_workspace_frame ws w k' key' = refl

ok-inj : {A : Type 0} (a b : A) → ok a ≡ ok b → a ≡ b
ok-inj a b h = cc

got-ok : {A : Type 0} (x : Option A) (a : A) → got x ≡ ok a → x ≡ some a
got-ok none a h = cc
got-ok (some b) a h = cc

got-err : {A : Type 0} (x : Option A) (e : Error) → got x ≡ err e → x ≡ none
got-err none e h = refl
got-err (some b) e h = cc

rewritten :
    (k : Kind) (key : Key) (y : Object k) (r : Result (Object k)) (w : Cluster)
    → key_of k y ≡ key
    → r ≡ ok y
    → stored (write_changed k key r w).1 k key ≡ some y
unfolding write_changed
rewritten k key y (err e) w a h = absurd (cc (h))
rewritten k key y (ok x) w a h =
    let same : x ≡ y = cc (h) in
    let here : key_of k x ≡ key = ap (key_of k) same ∙ a in
    let there : key_eq (key_of k x) key ≡ true = ap (λ z. key_eq z key) here ∙ key_eq_refl key in
    rw there (subst (λ z. stored (put k x w) k z ≡ some x) here (stored-put k x w) ∙ ap some same)

pub memory_contract : Contract memory
unfolding create_or_update_in begun
memory_contract = record {
  lookup = stored;
  lookup_key = stored_key;
  get_ok = λ k key w o h. got-ok (stored w k key) o h;
  get_missing = λ k key w e h n. got-err (stored w k key) e h;
  get_frame = λ k key w k' key'. refl;
  create_ok = λ o w h. created config_map_kind o _ w h;
  create_refused = λ o w e h d.
      ap (λ u. stored u config_map_kind (key_of config_map_kind o))
        (create_refused config_map_kind o _ w e h);
  update_ok = λ o w h. updated config_map_kind o _ w h;
  update_conflict = λ o w e h d.
      ap (λ u. stored u config_map_kind (key_of config_map_kind o))
        (update_refused config_map_kind o _ w e h);
  create_frame = λ k o w k' key' d. create_found_frame k o _ w k' key' d;
  update_frame = λ k o w k' key' d. update_found_frame k o _ w k' key' d;
  create_or_update_frame = λ k o f w k' key' v d keeps start.
      write_changed_frame k (key_of k o) _ _ k' key' d
      ∙ keeps (begun k o (stored w k (key_of k o))) w start;
  create_or_update_there = λ k o f w h.
      let x = begun k o (stored w k (key_of k o)) in
      let (o', e, s) = write_changed-stored k (key_of k o) (f x w).0 (f x w).1 h in (o', s);
  create_or_update_written = λ k v o f w h.
      let x = begun k o (stored w k (key_of k o)) in
      let (o', e, s) = write_changed-stored k (key_of k o) (f x w).0 (f x w).1 h in
      (x, w, o', e, s);
  create_or_update_template = λ o f w h.
      let x = begun stateful_set_kind o (stored w stateful_set_kind (key_of stateful_set_kind o)) in
      let (o', e, s) =
        write_changed-stored stateful_set_kind (key_of stateful_set_kind o) (f x w).0 (f x w).1 h in
      (x, w, o', o', e, s, record { volumes = refl; init_env = refl; env = refl });
  create_or_update_idle = λ k o f w y keeps again there.
      let r = (f (begun k o (stored w k (key_of k o))) w).0 in
      let same : r ≡ ok y = ap (λ x. (f (begun k o x) w).0) there ∙ again w in
      rewritten k (key_of k o) y r _ (stored_key w k (key_of k o) y there) same;
  update_status_answer = λ ws w ws' h. let e = ok-inj ws ws' h in (cc (e), cc (e));
  get_workspace_frame = λ name w k' key'. refl;
  finalizer_there = λ fs name. ground (arith, eq_refl name);
  update_workspace_frame = λ ws name w k' key' there. set_workspace_frame ws w k' key';
  update_status_frame = λ ws w k' key'. set_workspace_frame ws w k' key';
  rand_read_frame = λ n w k' key'. refl;
  retry = λ m w. (w, first, refl);
}

pub memory_contract-lookup :
    (w : Cluster) (k : Kind) (key : Key) → memory_contract.lookup w k key ≡ stored w k key
unfolding memory_contract
memory_contract-lookup w k key = refl
