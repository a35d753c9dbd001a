-- ===== src/Router/Watch/Progress.antt =====
-- That the router can always go on until its map is that of the file.
use k8s_opencode.Common.{
  ℕ, zero, suc, ◌<◌, length, Bool, true, false, Option, none, some, List, [], ◌∷◌, ◌≡◌, ◌≢◌, refl,
  ap, ◌∙◌, ◌⊎◌, inl, inr, arith,
}
use k8s_opencode.Common.Json.{Codec}
use k8s_opencode.Router.Watch.{
  File, EmailMap, Op, load_email_map, Router, Choice, changes, notices, reports, closes, receives,
  fires, fires_older, clears, reads_file, assigns, on_event, receive, assign, assign_picked, pick,
  leave, step, run, start,
}
use k8s_opencode.Router.Watch.Orderly.{has_relevant, IsOrderly, AllOrderly, Inv, step-Inv, run-Inv}
use k8s_opencode.Router.Watch.Fresh.{IsQuiet, start-Inv, quiet-not-IsDue}
use k8s_opencode.Router.Watch.Rest.{work, IsPossible, AllPossible, step-work}

List-cases : {A : Type 0} (xs : List A) → (xs ≡ []) ⊎ (xs ≢ [])
List-cases [] = inl refl
List-cases (x ∷ xs) = inr (λ e. cc (e))

zero-cases : (n : ℕ) → (n ≡ 0) ⊎ (0 < n)
zero-cases zero = inl refl
zero-cases (suc n) = inr (omega arith)

armed-cases : (t : Option Bool) → (t ≢ some true) ⊎ (t ≡ some true)
armed-cases none = inl (λ e. cc (e))
armed-cases (some true) = inr refl
armed-cases (some false) = inl (λ e. cc (e))

nonempty_pos : (fs : List File) → fs ≢ [] → 0 < length fs
nonempty_pos [] n = absurd (n refl)
nonempty_pos (f ∷ fs) n = omega arith

-- A router that watches is quiet, or can go a step that lets no callbacks overlap.
next_step :
    (r : Router) → r.watching ≡ true → IsQuiet r ⊎ ((c : Choice) × IsPossible c r × IsOrderly c r)
unfolding has_relevant
next_step r w = elim (List-cases r.reads) [
  | inr a ↦ inr (assigns 0, nonempty_pos r.reads a, tt)
  | inl a ↦ elim (List-cases r.events) [
    | inr n ↦ inr (receives, (w, n), tt)
    | inl e ↦ elim (armed-cases r.timer) [
      | inr t ↦ inr (fires, t, tt)
      | inl t ↦ elim (zero-cases r.older) [
        | inr o ↦ inr (fires_older, o, tt)
        | inl o ↦ elim (zero-cases r.fired) [
          | inr f ↦ inr (clears, f, tt)
          | inl f ↦ elim (zero-cases r.cleared) [
            | inr c ↦ inr (reads_file, c, a)
            | inl c ↦ inl (record {
              no_event = rw e refl;
              not_armed = t;
              none_older = o;
              none_fired = f;
              none_cleared = c;
              none_read = a;
            })
          ]
        ]
      ]
    ]
  ]
]

receive-file : (ops : List Op) (r : Router) → (receive ops r).file ≡ r.file
unfolding receive on_event
receive-file [] r = refl
receive-file (op ∷ ops) r = ground arith

picked-file :
    (j : Codec) (o : Option File) (rest : List File) (r : Router)
    → (assign_picked j o rest r).file ≡ r.file
unfolding assign
picked-file j none rest r = refl
picked-file j (some f) rest r = ground arith

-- No step of the process itself writes the file.
step-file : (j : Codec) (c : Choice) (r : Router) → IsPossible c r → (step j c r).file ≡ r.file
unfolding step
step-file j (changes f op) r h = absurd (cc (h))
step-file j (notices op) r h = absurd (cc (h))
step-file j (reports e) r h = absurd (cc (h))
step-file j closes r h = absurd (cc (h))
step-file j receives r h = receive-file r.events r
step-file j fires r h = ground arith
step-file j fires_older r h = ground arith
step-file j clears r h = ground arith
step-file j reads_file r h = ground arith
step-file j (assigns n) r h = picked-file j (pick n r.reads) (leave n r.reads) r

-- A run of possible steps from `r` that ends where nothing is left to do.
pub record Rests (j : Codec) (r : Router) : Type 0 where
  pub steps : List Choice
  pub possible : AllPossible j steps r
  pub quiet : IsQuiet (run j steps r)
  pub same_file : (run j steps r).file ≡ r.file
  pub inv : Inv j (run j steps r)

Rests-step :
    (j : Codec) (c : Choice) (r : Router) → IsPossible c r → Rests j (step j c r) → Rests j r
unfolding run
Rests-step j c r p rest = record {
  steps = c ∷ rest.steps;
  possible = (p, rest.possible);
  quiet = rest.quiet;
  same_file = rest.same_file ∙ step-file j c r p;
  inv = rest.inv;
}

Rests-here : (j : Codec) (r : Router) → Inv j r → IsQuiet r → Rests j r
unfolding run
Rests-here j r i q = record { steps = []; possible = tt; quiet = q; same_file = refl; inv = i }

Rests-within : (j : Codec) (n : ℕ) (r : Router) → work r < n → Inv j r → Rests j r
Rests-within j zero r h i = absurd (omega arith)
Rests-within j (suc n) r h i = elim (next_step r i.watched) [
  | inl q ↦ Rests-here j r i q
  | inr (c, p, o) ↦
      Rests-step j c r p
        (Rests-within j n (step j c r) (omega (arith, step-work j c r p)) (step-Inv j c r o i))
]

-- The router catches up: from wherever it is, after a start with a watcher and a run in which each
-- change of the file has an event and no two callbacks overlap, its loop, timers and callbacks can go
-- on, without a new event, until nothing is left to do; the map is then that of the file, if the file
-- can be read and parsed.
pub run-catches_up :
    (j : Codec) (f : File) (r : Router) (cs : List Choice) (m : EmailMap)
    → start j f true true ≡ some r
    → AllOrderly j cs r
    → load_email_map j (run j cs r).file ≡ inr m
    → (steps : List Choice) × AllPossible j steps (run j cs r)
      × IsQuiet (run j steps (run j cs r))
      × ((run j steps (run j cs r)).email_map ≡ m)
run-catches_up j f r cs m h o l =
    let rest =
      Rests-within j (suc (work (run j cs r))) (run j cs r) (omega arith)
        (run-Inv j cs r o (start-Inv j f r h)) in
    (
      rest.steps,
      rest.possible,
      rest.quiet,
      elim rest.inv.current [
        | inl due ↦ absurd (quiet-not-IsDue _ rest.quiet due)
        | inr (none_read, same) ↦ same m (ap (load_email_map j) rest.same_file ∙ l)
      ],
    )
