-- ===== src/Router/Watch.antt =====
-- The email map of images/router/main.go: loadEmailMap, and watchEmailMap, which reloads the map
-- when its file changes. The loop over the watcher's events and the timer's callbacks are goroutines
-- of one process: a run is a list of choices, each of which lets one of them go one step further.
pub mod Orderly
pub mod Fresh
pub mod Source
pub mod Overlap
pub mod Rest
pub mod Progress
use k8s_opencode.Common.{
  ℕ, zero, suc, ◌+◌, ◌-◌, String, ◌++◌, Bool, true, false, not, ◌||◌, ◌&&◌, Option, none, some,
  List, [], ◌∷◌, ◌⊎◌, inl, inr, if◌then◌else◌, ltb,
}
use k8s_opencode.Common.Dict.{Dict}
use k8s_opencode.Common.Json.{Codec}

-- What `os.ReadFile` answers: the text of an error, or the contents.
abbrev pub File : Type 0
File = String ⊎ String

-- The package variable `emailMap`; a nil map is `none`.
abbrev pub EmailMap : Type 0
EmailMap = Option (Dict String)

unfoldable pub parse : Codec → String → String ⊎ EmailMap
parse j contents = elim (j.unmarshal contents) [
  | inl e ↦ inl ("parse email map: " ++ e)
  | inr m ↦ inr m
]

-- `loadEmailMap`, up to the assignment: the error, or the new map.
unfoldable pub load_email_map : Codec → File → String ⊎ EmailMap
unfolding parse
load_email_map j (inl e) = inl ("read email map: " ++ e)
load_email_map j (inr contents) = parse j contents

-- The bits of `event.Op`.
pub record Op : Type 0 where
  pub create : Bool
  pub write : Bool
  pub remove : Bool
  pub rename : Bool
  pub chmod : Bool

-- `event.Op&(fsnotify.Create|fsnotify.Write) != 0`
unfoldable pub is_relevant : Op → Bool
is_relevant op = op.create || op.write

-- The process and its surroundings. `timer` is nil, or tells whether the timer of that variable is
-- armed; `older` counts the armed timers that the variable no longer refers to. A callback of a
-- timer that has gone off is counted by `fired` until it has reset `pending`, then by `cleared`
-- until it has read the file; then what it has read is in `reads`, until it assigns the map.
pub record Router : Type 0 where
  pub file : File
  pub events : List Op
  pub watching : Bool
  pub pending : Bool
  pub timer : Option Bool
  pub older : ℕ
  pub fired : ℕ
  pub cleared : ℕ
  pub reads : List File
  pub email_map : EmailMap

pub data Choice : Type 0 where
  -- the surroundings: a change of the file, with the event of it; another event; a watcher error;
  -- the end of the watcher
  changes : File → Op → Choice
  notices : Op → Choice
  reports : String → Choice
  closes : Choice
  -- the loop takes the first event
  receives : Choice
  -- a timer goes off; a callback resets `pending`, reads the file, and assigns the map
  fires fires_older clears reads_file : Choice
  assigns : ℕ → Choice

abbrev append_op : List Op → Op → List Op
append_op [] op = op ∷ []
append_op (e ∷ es) op = e ∷ append_op es op

abbrev count_armed : Option Bool → ℕ
count_armed none = 0
count_armed (some armed) = if armed then 1 else 0

-- `timer.Reset(500 * time.Millisecond)`, if the timer is not nil
abbrev reset : Option Bool → Option Bool
reset none = none
reset (some armed) = some true

-- The body of the loop for an event.
unfoldable pub on_event : Op → Router → Router
unfolding is_relevant
on_event op r =
    if not (is_relevant op)
    then r
    else if r.pending
    then record r { timer = reset r.timer }
    else record r { pending = true; older = count_armed r.timer + r.older; timer = some true }

unfoldable pub receive : List Op → Router → Router
receive [] r = r
receive (op ∷ ops) r = if r.watching then on_event op (record r { events = ops }) else r

abbrev fire : Option Bool → Router → Router
fire none r = r
fire (some armed) r = if armed then record r { timer = some false; fired = suc r.fired } else r

abbrev fire_older : ℕ → Router → Router
fire_older zero r = r
fire_older (suc n) r = record r { older = n; fired = suc r.fired }

-- pending = false
abbrev clear : ℕ → Router → Router
clear zero r = r
clear (suc n) r = record r { fired = n; pending = false; cleared = suc r.cleared }

abbrev read_file : ℕ → Router → Router
read_file zero r = r
read_file (suc n) r = record r { cleared = n; reads = r.file ∷ r.reads }

-- A callback that failed to read or parse leaves the map.
unfoldable pub assign : Codec → File → Router → Router
unfolding load_email_map
assign j f r = elim (load_email_map j f) [ inl e ↦ r | inr m ↦ record r { email_map = m } ]

-- The callback at position `n` of those that have read the file.
abbrev pick : ℕ → List File → Option File
pick n [] = none
pick zero (f ∷ fs) = some f
pick (suc n) (f ∷ fs) = pick n fs

abbrev leave : ℕ → List File → List File
leave n [] = []
leave zero (f ∷ fs) = fs
leave (suc n) (f ∷ fs) = f ∷ leave n fs

abbrev assign_picked : Codec → Option File → List File → Router → Router
assign_picked j none rest r = r
assign_picked j (some f) rest r = assign j f (record r { reads = rest })

-- One choice; one that is not possible leaves all as it is.
unfoldable pub step : Codec → Choice → Router → Router
unfolding receive on_event
step j (changes f op) r = record r { file = f; events = append_op r.events op }
step j (notices op) r = record r { events = append_op r.events op }
step j (reports e) r = r
step j closes r = record r { watching = false }
step j receives r = receive r.events r
step j fires r = fire r.timer r
step j fires_older r = fire_older r.older r
step j clears r = clear r.fired r
step j reads_file r = read_file r.cleared r
step j (assigns n) r = assign_picked j (pick n r.reads) (leave n r.reads) r

unfoldable pub run : Codec → List Choice → Router → Router
unfolding step
run j [] r = r
run j (c ∷ cs) r = run j cs (step j c r)

-- The process as its goroutines begin.
abbrev pub initial : File → EmailMap → Bool → Router
initial file m watching = record {
  file = file;
  events = [];
  watching = watching;
  pending = false;
  timer = none;
  older = 0;
  fired = 0;
  cleared = 0;
  reads = [];
  email_map = m;
}

-- `main` up to the server: the map is loaded, or the process ends; then the directory is watched
-- unless the watcher cannot be made or the directory cannot be added.
unfoldable pub start : Codec → File → Bool → Bool → Option Router
start j file made added = elim (load_email_map j file) [
  | inl e ↦ none
  | inr m ↦ some (initial file m (made && added))
]

-- What `getEmail` reads: a nil map has no entries.
abbrev pub entries : EmailMap → Dict String
entries none = []
entries (some m) = m
