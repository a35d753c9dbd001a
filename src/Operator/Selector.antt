-- ===== src/Operator/Selector.antt =====
-- The documented meaning of a label selector.
use k8s_opencode.Common.{String, Bool, true, false, ◌&&◌, none, some, [], ◌∷◌, ◌==◌}
use k8s_opencode.Common.Dict.{Dict, lookup}

-- A selector wants each of its labels, with its value.
abbrev pub selects : Dict String → Dict String → Bool
selects [] labels = true
selects ((key, value) ∷ wanted) labels =
    (elim (lookup key labels) [ none ↦ false | some v ↦ v == value ]) && selects wanted labels
