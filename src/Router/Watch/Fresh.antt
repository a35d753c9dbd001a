-- ===== src/Router/Watch/Fresh.antt =====
-- When the map in memory is that of the file.
use mathlib.Core.Path.{subst}
use k8s_opencode.Common.{true, false, some, List, [], ◌≡◌, refl, ◌≢◌, inl, inr, arith, sym}
use k8s_opencode.Common.Json.{Codec}
use k8s_opencode.Router.Watch.{File, EmailMap, load_email_map, Router, Choice, initial, start, run}
use k8s_opencode.Router.Watch.Orderly.{has_relevant, IsDue, AllOrderly, Inv, run-Inv}

pub start-initial :
    (j : Codec) (f : File) (r : Router)
    → start j f true true ≡ some r
    → (m : EmailMap) × (load_email_map j f ≡ inr m) × (r ≡ initial f m true)
unfolding start
start-initial j f r h = ground arith

initial-Inv :
    (j : Codec) (f : File) (m : EmailMap) → load_email_map j f ≡ inr m → Inv j (initial f m true)
initial-Inv j f m h = record {
  watched = refl;
  timed = inl refl;
  alone = omega arith;
  current = inr (refl, λ m' h'. cc (h, h'));
}

pub start-Inv : (j : Codec) (f : File) (r : Router) → start j f true true ≡ some r → Inv j r
start-Inv j f r h =
    let (m, loaded, e) = start-initial j f r h in subst (Inv j) (sym e) (initial-Inv j f m loaded)

-- Nothing is left to do: no event of a change is in the queue, no timer is armed, and no callback
-- is under way.
pub record IsQuiet (r : Router) : Type 0 where
  pub no_event : has_relevant r.events ≡ false
  pub not_armed : r.timer ≢ some true
  pub none_older : r.older ≡ 0
  pub none_fired : r.fired ≡ 0
  pub none_cleared : r.cleared ≡ 0
  pub none_read : r.reads ≡ []

pub quiet-not-IsDue : (r : Router) → IsQuiet r → ¬ IsDue r
quiet-not-IsDue r q d = ground (arith, q, d)

-- No change of the file is lost: from the start of a router that watches, whatever the order in
-- which the file changes, events arrive, timers go off and callbacks go on, as long as each change
-- has an event and no two callbacks overlap, the map is that of the file once nothing is left to
-- do, provided that the file can be read and parsed.
pub quiet_run-current :
    (j : Codec) (f : File) (r : Router) (cs : List Choice) (m : EmailMap)
    → start j f true true ≡ some r
    → AllOrderly j cs r
    → IsQuiet (run j cs r)
    → load_email_map j (run j cs r).file ≡ inr m
    → (run j cs r).email_map ≡ m
quiet_run-current j f r cs m h o q l = elim (run-Inv j cs r o (start-Inv j f r h)).current [
  | inl due ↦ absurd (quiet-not-IsDue (run j cs r) q due)
  | inr (none_read, same) ↦ same m l
]
