-- ===== src/Router/Tests/Watching.antt =====
-- The router's watch on its email map: its theorems applied to one change of the file.
use k8s_opencode.Common.{
  ◌+◌, ◌≤◌, length, String, true, false, some, List, [], ◌∷◌, ◌≡◌, refl, inr, arith,
}
use k8s_opencode.Common.Json.Marked.{marked, unmarshal_marked}
use k8s_opencode.Router.Watch.{
  File, EmailMap, Op, is_relevant, parse, load_email_map, Router, Choice, changes, receives, fires,
  clears, reads_file, assigns, on_event, receive, assign, step, run, initial, start,
}
use k8s_opencode.Router.Watch.Orderly.{has_relevant, AllOrderly}
use k8s_opencode.Router.Watch.Fresh.{IsQuiet, quiet_run-current}
use k8s_opencode.Router.Watch.Source.{IsLoaded, run-IsLoaded}
use k8s_opencode.Router.Watch.Overlap.{overlap, overlap-stale}
use k8s_opencode.Router.Watch.Progress.{run-catches_up}
use k8s_opencode.Router.Watch.Rest.{work, AllPossible, possible_run-bounded}

abbrev old : File
old = inr "{"

abbrev new : File
new = inr "{xa;xb;"

abbrev replaced : Op
replaced = record { create = true; write = false; remove = false; rename = false; chmod = false }

abbrev begun : Router
begun = initial old (some []) true

abbrev schedule : List Choice
schedule = changes new replaced ∷ receives ∷ fires ∷ clears ∷ reads_file ∷ assigns 0 ∷ []

abbrev reloaded : EmailMap
reloaded = some (("a", "b") ∷ [])

started : start marked old true true ≡ some begun
unfolding start load_email_map parse unmarshal_marked
started = refl

orderly : AllOrderly marked schedule begun
unfolding step receive on_event is_relevant
orderly = (refl, (tt, (tt, (tt, (refl, (tt, tt))))))

at_rest : IsQuiet (run marked schedule begun)
unfolding run step receive on_event is_relevant assign load_email_map parse unmarshal_marked
    has_relevant
at_rest = record {
  no_event = refl;
  not_armed = λ a. cc (a);
  none_older = refl;
  none_fired = refl;
  none_cleared = refl;
  none_read = refl;
}

loaded : load_email_map marked (run marked schedule begun).file ≡ inr reloaded
unfolding run step receive on_event is_relevant assign load_email_map parse unmarshal_marked
loaded = refl

quiet_run-current_example : (run marked schedule begun).email_map ≡ reloaded
quiet_run-current_example =
    quiet_run-current marked old begun schedule reloaded started orderly at_rest loaded

-- The file is never missing.
abbrev Present : File → Type 0
Present f = (text : String) × (f ≡ inr text)

run-IsLoaded_example : IsLoaded marked Present (run marked schedule begun).email_map
run-IsLoaded_example =
    run-IsLoaded marked Present old true true begun schedule started ("{", refl)
      (("{xa;xb;", refl), tt)

-- The change has been seen.
abbrev seen : Router
seen = record begun { file = new; events = replaced ∷ [] }

abbrev rest_of_schedule : List Choice
rest_of_schedule = receives ∷ fires ∷ clears ∷ reads_file ∷ assigns 0 ∷ []

possible : AllPossible marked rest_of_schedule seen
unfolding step receive on_event is_relevant
possible = ((refl, λ e. cc (e)), (refl, (omega arith, (omega arith, (omega arith, tt)))))

possible_run-bounded_example :
    length rest_of_schedule + work (run marked rest_of_schedule seen) ≤ work seen
possible_run-bounded_example = possible_run-bounded marked rest_of_schedule seen possible

-- The file has changed, and the event of it waits.
abbrev changed : List Choice
changed = changes new replaced ∷ []

changed_orderly : AllOrderly marked changed begun
unfolding is_relevant
changed_orderly = (refl, tt)

changed_loads : load_email_map marked (run marked changed begun).file ≡ inr reloaded
unfolding run step load_email_map parse unmarshal_marked
changed_loads = refl

run-catches_up_example :
    (steps : List Choice) × AllPossible marked steps (run marked changed begun)
    × IsQuiet (run marked steps (run marked changed begun))
    × ((run marked steps (run marked changed begun)).email_map ≡ reloaded)
run-catches_up_example =
    run-catches_up marked old begun changed reloaded started changed_orderly changed_loads

old_loads : load_email_map marked old ≡ inr (some [])
unfolding load_email_map parse unmarshal_marked
old_loads = refl

new_loads : load_email_map marked new ≡ inr reloaded
unfolding load_email_map parse unmarshal_marked
new_loads = refl

overlap-stale_example :
    IsQuiet (run marked (overlap "{" "{xa;xb;") begun)
    × ((run marked (overlap "{" "{xa;xb;") begun).file ≡ new)
    × ((run marked (overlap "{" "{xa;xb;") begun).email_map ≡ some [])
overlap-stale_example =
    overlap-stale marked old begun "{" "{xa;xb;" (some []) reloaded started old_loads new_loads
