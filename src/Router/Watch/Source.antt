-- ===== src/Router/Watch/Source.antt =====
-- Where the map in memory comes from.
use mathlib.Core.Path.{subst}
use k8s_opencode.Common.{
  String, Sum-cases, ◌&&◌, ℕ, zero, suc, Bool, Option, none, some, List, [], ◌∷◌, ◌≡◌, refl, sym,
  inl, inr, arith,
}
use k8s_opencode.Common.Json.{Codec}
use k8s_opencode.Router.Watch.{
  File, EmailMap, Op, load_email_map, Router, Choice, changes, notices, reports, closes, receives,
  fires, fires_older, clears, reads_file, assigns, on_event, receive, fire, fire_older, clear,
  read_file, assign, assign_picked, pick, leave, step, run, initial, start,
}

-- `P` holds of every version that the file is changed to.
abbrev pub AllFiles : (File → Type 0) → List Choice → Type 0
AllFiles P [] = Unit
AllFiles P (changes f op ∷ cs) = P f × AllFiles P cs
AllFiles P (c ∷ cs) = AllFiles P cs

assign-inl :
    (j : Codec) (f : File) (r : Router) (e : String) → load_email_map j f ≡ inl e → assign j f r ≡ r
unfolding assign
assign-inl j f r e h = ground (arith, h)

pub assign-inr :
    (j : Codec) (f : File) (r : Router) (m : EmailMap)
    → load_email_map j f ≡ inr m
    → assign j f r ≡ record r { email_map = m }
unfolding assign
assign-inr j f r m h = ground (arith, h)

start-eq :
    (j : Codec) (f : File) (made added : Bool) (r : Router)
    → start j f made added ≡ some r
    → (m : EmailMap) × (load_email_map j f ≡ inr m) × (initial f m (made && added) ≡ r)
unfolding start
start-eq j f made added r h = ground arith

module _ (j : Codec) (P : File → Type 0) where
  abbrev All : List File → Type 0
  All [] = Unit
  All (f ∷ fs) = P f × All fs

  -- A map that was loaded from a version of which `P` holds.
  abbrev pub IsLoaded : EmailMap → Type 0
  IsLoaded m = (f : File) × P f × (load_email_map j f ≡ inr m)

  record Inv (r : Router) : Type 0 where
    file : P r.file
    reads : All r.reads
    loaded : IsLoaded r.email_map

  Inv-eq :
      (r r' : Router)
      → r'.file ≡ r.file
      → r'.reads ≡ r.reads
      → r'.email_map ≡ r.email_map
      → Inv r
      → Inv r'
  Inv-eq r r' f g m i = record {
    file = subst P (sym f) i.file;
    reads = subst All (sym g) i.reads;
    loaded = subst IsLoaded (sym m) i.loaded;
  }

  on_event-Inv : (op : Op) (r : Router) → Inv r → Inv (on_event op r)
  unfolding on_event
  on_event-Inv op r i = Inv-eq r _ (ground arith) (ground arith) (ground arith) i

  receive-Inv : (ops : List Op) (r : Router) → Inv r → Inv (receive ops r)
  unfolding receive on_event
  receive-Inv [] r i = i
  receive-Inv (op ∷ ops) r i = Inv-eq r _ (ground arith) (ground arith) (ground arith) i

  read_file-Inv : (n : ℕ) (r : Router) → Inv r → Inv (read_file n r)
  read_file-Inv zero r i = i
  read_file-Inv (suc n) r i = record { file = i.file; reads = (i.file, i.reads); loaded = i.loaded }

  assign-IsLoaded :
      (f : File) (r : Router) → P f → IsLoaded r.email_map → IsLoaded (assign j f r).email_map
  unfolding assign
  assign-IsLoaded f r p l = elim (Sum-cases (load_email_map j f)) [
    | inl (e, failed) ↦ rw (assign-inl j f r e failed) l
    | inr (m, loaded) ↦ rw (assign-inr j f r m loaded) (f, p, loaded)
  ]

  assign-Inv : (f : File) (r : Router) → P f → Inv r → Inv (assign j f r)
  unfolding assign
  assign-Inv f r p i = record {
    file = subst P (sym (ground arith)) i.file;
    reads = subst All (sym (ground arith)) i.reads;
    loaded = assign-IsLoaded f r p i.loaded;
  }

  All-leave : (n : ℕ) (fs : List File) → All fs → All (leave n fs)
  All-leave n [] a = a
  All-leave zero (f ∷ fs) (p, a) = a
  All-leave (suc n) (f ∷ fs) (p, a) = (p, All-leave n fs a)

  All-pick : (n : ℕ) (fs : List File) (f : File) → All fs → pick n fs ≡ some f → P f
  All-pick n [] f a h = cc
  All-pick zero (g ∷ fs) f (p, a) h = subst P (ground arith) p
  All-pick (suc n) (g ∷ fs) f (p, a) h = All-pick n fs f a h

  assign_picked-Inv :
      (n : ℕ) (r : Router) (x : Option File)
      → pick n r.reads ≡ x
      → Inv r
      → Inv (assign_picked j x (leave n r.reads) r)
  assign_picked-Inv n r none e i = i
  assign_picked-Inv n r (some f) e i =
      assign-Inv f _ (All-pick n r.reads f i.reads e)
        (record { file = i.file; reads = All-leave n r.reads i.reads; loaded = i.loaded })

  run-Inv : (cs : List Choice) (r : Router) → AllFiles P cs → Inv r → Inv (run j cs r)
  unfolding run step
  run-Inv [] r a i = i
  run-Inv (changes f op ∷ cs) r (p, a) i =
      run-Inv cs _ a (record { file = p; reads = i.reads; loaded = i.loaded })
  run-Inv (notices op ∷ cs) r a i = run-Inv cs _ a (Inv-eq r _ refl refl refl i)
  run-Inv (reports e ∷ cs) r a i = run-Inv cs r a i
  run-Inv (closes ∷ cs) r a i = run-Inv cs _ a (Inv-eq r _ refl refl refl i)
  run-Inv (receives ∷ cs) r a i = run-Inv cs _ a (receive-Inv r.events r i)
  run-Inv (fires ∷ cs) r a i =
      run-Inv cs (fire r.timer r) a (Inv-eq r _ (ground arith) (ground arith) (ground arith) i)
  run-Inv (fires_older ∷ cs) r a i =
      run-Inv cs (fire_older r.older r) a
        (Inv-eq r _ (ground arith) (ground arith) (ground arith) i)
  run-Inv (clears ∷ cs) r a i =
      run-Inv cs (clear r.fired r) a (Inv-eq r _ (ground arith) (ground arith) (ground arith) i)
  run-Inv (reads_file ∷ cs) r a i = run-Inv cs _ a (read_file-Inv r.cleared r i)
  run-Inv (assigns n ∷ cs) r a i = run-Inv cs _ a (assign_picked-Inv n r (pick n r.reads) refl i)

-- The map in memory is always one that was loaded whole from a version that the file has had, in
-- whatever order the goroutines go on, callbacks that overlap and files that cannot be parsed
-- included: what holds of every version of the file holds of the version that the map is from.
pub run-IsLoaded :
    (j : Codec) (P : File → Type 0) (f : File) (made added : Bool) (r : Router) (cs : List Choice)
    → start j f made added ≡ some r
    → P f
    → AllFiles P cs
    → IsLoaded j P (run j cs r).email_map
run-IsLoaded j P f made added r cs h p a =
    let (m, loaded, begun) = start-eq j f made added r h in
    (run-Inv j P cs r a
      (subst (Inv j P) begun (record { file = p; reads = tt; loaded = (f, p, loaded) }))).loaded
