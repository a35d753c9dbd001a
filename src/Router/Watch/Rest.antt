-- ===== src/Router/Watch/Rest.antt =====
-- How long the router goes on by itself.
use k8s_opencode.Common.{
  ℕ, zero, suc, ◌+◌, ◌*◌, ◌≤◌, ◌<◌, length, true, false, some, List, [], ◌∷◌, ◌≡◌, ◌≢◌, refl, arith,
}
use k8s_opencode.Common.Json.{Codec}
use k8s_opencode.Router.Watch.{
  File, Op, Router, Choice, changes, notices, reports, closes, receives, fires, fires_older, clears,
  reads_file, assigns, count_armed, on_event, receive, assign, assign_picked, pick, leave, step,
  run,
}

-- At most so many steps are left: five for an event, four for an armed timer, and three, two and one
-- for a callback on its way.
unfoldable pub work : Router → ℕ
work r =
    5 * length r.events
    + (4 * (count_armed r.timer + r.older) + (3 * r.fired + (2 * r.cleared + length r.reads)))

-- The goroutines of the process can go this step.
abbrev pub IsPossible : Choice → Router → Type 0
IsPossible receives r = (r.watching ≡ true) × (r.events ≢ [])
IsPossible fires r = r.timer ≡ some true
IsPossible fires_older r = 0 < r.older
IsPossible clears r = 0 < r.fired
IsPossible reads_file r = 0 < r.cleared
IsPossible (assigns n) r = n < length r.reads
IsPossible c r = true ≡ false

abbrev pub AllPossible : Codec → List Choice → Router → Type 0
AllPossible j [] r = Unit
AllPossible j (c ∷ cs) r = IsPossible c r × AllPossible j cs (step j c r)

receive-work :
    (r : Router) (ops : List Op)
    → r.events ≡ ops
    → r.watching ≡ true
    → r.events ≢ []
    → work (receive ops r) < work r
unfolding receive on_event work
receive-work r [] e w n = absurd (n e)
receive-work r (op ∷ ops) e w n = ground (arith, w, e)

length-leave : (n : ℕ) (fs : List File) → n < length fs → length (leave n fs) < length fs
length-leave n [] h = absurd (omega arith)
length-leave zero (f ∷ fs) h = omega arith
length-leave (suc n) (f ∷ fs) h = omega (arith, length-leave n fs (omega arith))

pick-some : (n : ℕ) (fs : List File) → n < length fs → (f : File) × (pick n fs ≡ some f)
pick-some n [] h = absurd (omega arith)
pick-some zero (f ∷ fs) h = (f, refl)
pick-some (suc n) (f ∷ fs) h = pick-some n fs (omega arith)

assign-work : (j : Codec) (f : File) (r : Router) → work (assign j f r) ≡ work r
unfolding work assign
assign-work j f r = ground arith

assigns-work :
    (j : Codec) (n : ℕ) (r : Router)
    → n < length r.reads
    → work (assign_picked j (pick n r.reads) (leave n r.reads) r) < work r
unfolding work
assigns-work j n r h =
    let (f, e) = pick-some n r.reads h in
    rw e (
      omega
        (arith, assign-work j f (record r { reads = leave n r.reads }), length-leave n r.reads h))

pub step-work : (j : Codec) (c : Choice) (r : Router) → IsPossible c r → work (step j c r) < work r
unfolding step work
step-work j (changes f op) r h = absurd (cc (h))
step-work j (notices op) r h = absurd (cc (h))
step-work j (reports e) r h = absurd (cc (h))
step-work j closes r h = absurd (cc (h))
step-work j receives r (w, n) = receive-work r r.events refl w n
step-work j fires r h = ground (arith, h)
step-work j fires_older r h = ground (arith, h)
step-work j clears r h = ground (arith, h)
step-work j reads_file r h = ground (arith, h)
step-work j (assigns n) r h = assigns-work j n r h

-- Left to itself, the process comes to rest: however the loop, the timers and the callbacks take
-- turns, they go at most `work` steps without a new event.
pub possible_run-bounded :
    (j : Codec) (cs : List Choice) (r : Router)
    → AllPossible j cs r
    → length cs + work (run j cs r) ≤ work r
unfolding run
possible_run-bounded j [] r a = omega arith
possible_run-bounded j (c ∷ cs) r (p, a) =
    omega (arith, step-work j c r p, possible_run-bounded j cs (step j c r) a)
