-- ===== src/Router/Watch/Orderly.antt =====
-- Runs of the watch in which callbacks do not overlap, and what every step of them keeps.
use mathlib.Core.Path.{subst}
use k8s_opencode.Common.{
  if◌then◌else◌, ℕ, zero, suc, ◌<◌, Bool, true, false, ◌||◌, Option, none, some, List, [], ◌∷◌, ◌≡◌,
  refl, ◌⊎◌, inl, inr, arith, ap, sym, ◌∙◌, length, ◌≤◌,
}
use k8s_opencode.Common.Json.{Codec}
use k8s_opencode.Router.Watch.{
  File, EmailMap, Op, is_relevant, load_email_map, Router, Choice, changes, notices, reports,
  closes, receives, fires, fires_older, clears, reads_file, assigns, append_op, on_event, receive,
  fire, fire_older, clear, read_file, assign, assign_picked, pick, leave, step, run,
}

-- The map is what a load of the file gives, if that gives one.
abbrev pub Reflects : Codec → Router → Type 0
Reflects j r = (m : EmailMap) → load_email_map j r.file ≡ inr m → r.email_map ≡ m

unfoldable pub has_relevant : List Op → Bool
has_relevant [] = false
has_relevant (op ∷ ops) = is_relevant op || has_relevant ops

-- A load of the file as it is now is still to come, or has read it.
abbrev pub IsDue : Router → Type 0
IsDue r =
    (has_relevant r.events ≡ true)
    ⊎ ((r.timer ≡ some true)
        ⊎ ((0 < r.older) ⊎ ((0 < r.fired) ⊎ ((0 < r.cleared) ⊎ (r.reads ≡ r.file ∷ [])))))

-- What the surroundings do: a change of the file has an event that says so, and the watcher does
-- not end; and callbacks do not overlap, so none reads the file while another has read it.
abbrev pub IsOrderly : Choice → Router → Type 0
IsOrderly (changes f op) r = is_relevant op ≡ true
IsOrderly closes r = true ≡ false
IsOrderly reads_file r = r.reads ≡ []
IsOrderly c r = Unit

abbrev pub AllOrderly : Codec → List Choice → Router → Type 0
AllOrderly j [] r = Unit
AllOrderly j (c ∷ cs) r = IsOrderly c r × AllOrderly j cs (step j c r)

abbrev pub is_set : Option Bool → Bool
is_set none = false
is_set (some armed) = true

pub record Inv (j : Codec) (r : Router) : Type 0 where
  pub watched : r.watching ≡ true
  pub timed : (r.pending ≡ false) ⊎ (is_set r.timer ≡ true)
  pub alone : length r.reads ≤ 1
  pub current : IsDue r ⊎ ((r.reads ≡ []) × Reflects j r)

pub has_relevant-append :
    (ops : List Op) (op : Op)
    → has_relevant (append_op ops op) ≡ (has_relevant ops || is_relevant op)
unfolding has_relevant
has_relevant-append [] op = ground arith
has_relevant-append (e ∷ ops) op = ground (arith, has_relevant-append ops op)

-- The file and the map in memory are as they were.
pub record Keeps (r r' : Router) : Type 0 where
  file : r'.file ≡ r.file
  email_map : r'.email_map ≡ r.email_map

pub transfer-Inv :
    (j : Codec) (r r' : Router)
    → Inv j r
    → Keeps r r'
    → r'.watching ≡ true
    → (r'.pending ≡ false) ⊎ (is_set r'.timer ≡ true)
    → length r'.reads ≤ 1
    → (IsDue r → IsDue r')
    → (r.reads ≡ [] → IsDue r' ⊎ (r'.reads ≡ []))
    → Inv j r'
transfer-Inv j r r' i k w t a d n = record {
  watched = w;
  timed = t;
  alone = a;
  current = elim i.current [
    | inl due ↦ inl (d due)
    | inr (none_read, same) ↦ elim (n none_read) [
      | inl due ↦ inl due
      | inr still_none ↦
          inr (still_none, λ m h. k.email_map ∙ same m (ap (load_email_map j) (sym k.file) ∙ h))
    ]
  ];
}

pub on_event-Inv :
    (j : Codec) (op : Op) (ops : List Op) (r : Router)
    → r.events ≡ op ∷ ops
    → Inv j r
    → Inv j (on_event op (record r { events = ops }))
unfolding on_event has_relevant
on_event-Inv j op ops r e i =
    transfer-Inv j r _ i (record { file = ground arith; email_map = ground arith })
      (ground (arith, i.watched)) (ground (arith, i.timed)) (ground (arith, i.alone))
      (λ d. ground (arith, d, i.timed)) (λ e'. inr (ground (arith, e')))

pub receive-Inv :
    (j : Codec) (r : Router) (ops : List Op) → r.events ≡ ops → Inv j r → Inv j (receive ops r)
unfolding receive
receive-Inv j r [] e i = i
receive-Inv j r (op ∷ ops) e i =
    subst (λ b. Inv j (if b then on_event op (record r { events = ops }) else r)) (sym i.watched)
      (on_event-Inv j op ops r e i)

pub fire-Inv : (j : Codec) (r : Router) → Inv j r → Inv j (fire r.timer r)
fire-Inv j r i =
    transfer-Inv j r _ i (record { file = ground arith; email_map = ground arith })
      (ground (arith, i.watched)) (ground (arith, i.timed)) (ground (arith, i.alone))
      (λ d. ground (arith, d)) (λ e. inr (ground (arith, e)))

pub fire_older-Inv : (j : Codec) (r : Router) → Inv j r → Inv j (fire_older r.older r)
fire_older-Inv j r i =
    transfer-Inv j r _ i (record { file = ground arith; email_map = ground arith })
      (ground (arith, i.watched)) (ground (arith, i.timed)) (ground (arith, i.alone))
      (λ d. ground (arith, d)) (λ e. inr (ground (arith, e)))

pub clear-Inv : (j : Codec) (r : Router) → Inv j r → Inv j (clear r.fired r)
clear-Inv j r i =
    transfer-Inv j r _ i (record { file = ground arith; email_map = ground arith })
      (ground (arith, i.watched)) (ground (arith, i.timed)) (ground (arith, i.alone))
      (λ d. ground (arith, d)) (λ e. inr (ground (arith, e)))

pub read_file-Inv :
    (j : Codec) (r : Router) → r.reads ≡ [] → Inv j r → Inv j (read_file r.cleared r)
read_file-Inv j r n i =
    transfer-Inv j r _ i (record { file = ground arith; email_map = ground arith })
      (ground (arith, i.watched)) (ground (arith, i.timed)) (ground (arith, n))
      (λ d. ground (arith, d, n)) (λ e. ground (arith, e))

pub append_event :
    (j : Codec) (op : Op) (r : Router)
    → Inv j r
    → Inv j (record r { events = append_op r.events op })
append_event j op r i =
    transfer-Inv j r _ i (record { file = refl; email_map = refl }) i.watched i.timed i.alone
      (λ d. ground (arith, d, has_relevant-append r.events op)) inr

pub changes-Inv :
    (j : Codec) (f : File) (op : Op) (r : Router)
    → is_relevant op ≡ true
    → Inv j r
    → Inv j (record r { file = f; events = append_op r.events op })
changes-Inv j f op r h i = record {
  watched = i.watched;
  timed = i.timed;
  alone = i.alone;
  current = inl (inl (ground (arith, has_relevant-append r.events op, h)));
}

pub assign-Keeps :
    (j : Codec) (f : File) (r : Router)
    → (assign j f r).watching ≡ r.watching
      × ((assign j f r).pending ≡ r.pending)
      × ((assign j f r).timer ≡ r.timer)
      × ((assign j f r).reads ≡ r.reads)
unfolding assign
assign-Keeps j f r = ground arith

-- What a callback that has read the file as it is assigns is the map of the file.
pub assign-Reflects : (j : Codec) (r : Router) → Reflects j (assign j r.file r)
unfolding assign
assign-Reflects j r m h = ground arith

pub assign-IsDue :
    (j : Codec) (f : File) (r : Router)
    → r.reads ≡ f ∷ []
    → IsDue r
    → IsDue (assign j f (record r { reads = [] })) ⊎ (r.file ≡ f)
unfolding assign
assign-IsDue j f r e d = ground (arith, d, e)

-- The one callback that has read the file assigns the map.
pub assign-Inv :
    (j : Codec) (f : File) (r : Router)
    → r.reads ≡ f ∷ []
    → Inv j r
    → Inv j (assign j f (record r { reads = [] }))
unfolding assign
assign-Inv j f r e i = record {
  watched = ground (arith, i.watched);
  timed = ground (arith, i.timed);
  alone = ground arith;
  current = elim i.current [
    | inl due ↦ elim (assign-IsDue j f r e due) [
      | inl still ↦ inl still
      | inr current ↦ inr (
        ground arith,
        subst (λ g. Reflects j (assign j g (record r { reads = [] }))) current
            (assign-Reflects j (record r { reads = [] })),
      )
    ]
    | inr (none_read, same) ↦ absurd (cc (e, none_read))
  ];
}

pub assigns-Inv :
    (j : Codec) (n : ℕ) (r : Router) (fs : List File)
    → r.reads ≡ fs
    → length fs ≤ 1
    → Inv j r
    → Inv j (assign_picked j (pick n fs) (leave n fs) r)
assigns-Inv j n r [] e h i = i
assigns-Inv j zero r (f ∷ []) e h i = assign-Inv j f r e i
assigns-Inv j (suc n) r (f ∷ []) e h i = i
assigns-Inv j n r (f ∷ g ∷ fs) e h i = absurd (omega arith)

pub step-Inv : (j : Codec) (c : Choice) (r : Router) → IsOrderly c r → Inv j r → Inv j (step j c r)
unfolding step
step-Inv j (changes f op) r o i = changes-Inv j f op r o i
step-Inv j (notices op) r o i = append_event j op r i
step-Inv j (reports e) r o i = i
step-Inv j closes r o i = absurd (cc (o))
step-Inv j receives r o i = receive-Inv j r r.events refl i
step-Inv j fires r o i = fire-Inv j r i
step-Inv j fires_older r o i = fire_older-Inv j r i
step-Inv j clears r o i = clear-Inv j r i
step-Inv j reads_file r o i = read_file-Inv j r o i
step-Inv j (assigns n) r o i = assigns-Inv j n r r.reads refl i.alone i

pub run-Inv :
    (j : Codec) (cs : List Choice) (r : Router) → AllOrderly j cs r → Inv j r → Inv j (run j cs r)
unfolding run
run-Inv j [] r o i = i
run-Inv j (c ∷ cs) r (o, os) i = run-Inv j cs (step j c r) os (step-Inv j c r o i)
