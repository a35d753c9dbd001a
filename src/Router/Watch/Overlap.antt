-- ===== src/Router/Watch/Overlap.antt =====
-- What can happen where two callbacks overlap.
use k8s_opencode.Common.{ap, ◌∙◌, String, true, false, some, List, [], ◌∷◌, ◌≡◌, refl, ◌⊎◌, inr}
use k8s_opencode.Common.Json.{Codec}
use k8s_opencode.Router.Watch.{
  File, EmailMap, Op, is_relevant, load_email_map, Router, Choice, changes, receives, fires, clears,
  reads_file, assigns, on_event, receive, step, run, initial, start,
}
use k8s_opencode.Router.Watch.Source.{assign-inr}
use k8s_opencode.Router.Watch.Orderly.{has_relevant}
use k8s_opencode.Router.Watch.Fresh.{start-initial, IsQuiet}

-- A callback reads the file, which then changes; the callback for that change reads the file too and
-- assigns the map; and only then the first callback assigns the map that it has read.
abbrev pub creation : Op
creation = record { create = true; write = false; remove = false; rename = false; chmod = false }

abbrev pub overlap : String → String → List Choice
overlap old new =
    changes (inr old) creation
    ∷ receives
    ∷ fires
    ∷ clears
    ∷ reads_file
    ∷ changes (inr new) creation
    ∷ receives
    ∷ fires
    ∷ clears
    ∷ reads_file
    ∷ assigns 0
    ∷ assigns 0
    ∷ []

-- After both callbacks have read the file.
abbrev both_read : String → String → EmailMap → Router
both_read old new m = record {
  file = inr new;
  events = [];
  watching = true;
  pending = false;
  timer = some false;
  older = 0;
  fired = 0;
  cleared = 0;
  reads = inr new ∷ inr old ∷ [];
  email_map = m;
}

overlap-run :
    (j : Codec) (f : File) (m₀ : EmailMap) (old new : String)
    → run j (overlap old new) (initial f m₀ true)
      ≡ run j (assigns 0 ∷ assigns 0 ∷ []) (both_read old new m₀)
unfolding run step receive on_event is_relevant
overlap-run j f m₀ old new = refl

assigned :
    (j : Codec) (m₀ : EmailMap) (old new : String) (m m' : EmailMap)
    → load_email_map j (inr old) ≡ inr m
    → load_email_map j (inr new) ≡ inr m'
    → run j (assigns 0 ∷ assigns 0 ∷ []) (both_read old new m₀)
      ≡ record (both_read old new m) { reads = [] }
unfolding run step
assigned j m₀ old new m m' l l' =
    let second : Router = record (both_read old new m₀) { reads = inr old ∷ [] } in
    let e = assign-inr j (inr new) second m' l' in
    ap (step j (assigns 0)) e
    ∙ assign-inr j (inr old) (record second { reads = []; email_map = m' }) m l

-- Where two callbacks overlap, the older version can stay: for any two versions of the file that
-- can be parsed there is an order of steps that leaves nothing to do, with the newer version in the
-- file and the map of the older one in memory.
pub overlap-stale :
    (j : Codec) (f : String ⊎ String) (r : Router) (old new : String) (m m' : EmailMap)
    → start j f true true ≡ some r
    → load_email_map j (inr old) ≡ inr m
    → load_email_map j (inr new) ≡ inr m'
    → IsQuiet (run j (overlap old new) r)
      × ((run j (overlap old new) r).file ≡ inr new)
      × ((run j (overlap old new) r).email_map ≡ m)
unfolding has_relevant
overlap-stale j f r old new m m' h l l' =
    let (m₀, loaded, e) = start-initial j f r h in
    let ran =
      ap (run j (overlap old new)) e
      ∙ (overlap-run j f m₀ old new ∙ assigned j m₀ old new m m' l l') in
    rw ran (
      record {
        no_event = refl;
        not_armed = λ a. cc (a);
        none_older = refl;
        none_fired = refl;
        none_cleared = refl;
        none_read = refl;
      },
      refl,
      refl,
    )
