-- ===== src/Resources/Diff/Tests.antt =====
-- The diff of internal/services/resources/diff.go on concrete lines.
use kubepeep.Base.{◌≡◌, refl, none, some, [], ◌∷◌, ◌++◌, map}
use kubepeep.Resources.Diff.{op_same, op_insert, op_delete, myers_diff}
use kubepeep.Resources.Diff.Changes.{myers_diff-change, myers_diff_panics}

-- Two changes around a line that stays.
two_changes :
    myers_diff ("a" ∷ "m" ∷ "c" ∷ []) ("z" ∷ "m" ∷ "d" ∷ [])
    ≡ some (op_delete "a" ∷ op_insert "z" ∷ op_same "m" ∷ op_delete "c" ∷ op_insert "d" ∷ [])
unfolding myers_diff
two_changes = refl

myers_diff-change_example :
    myers_diff ("kind: Pod" ∷ "replicas: 1" ∷ []) ("kind: Pod" ∷ "replicas: 2" ∷ [])
    ≡ some (
        map op_same ("kind: Pod" ∷ [])
        ++ (op_delete "replicas: 1" ∷ op_insert "replicas: 2" ∷ [])
        ++ map op_same [])
myers_diff-change_example = myers_diff-change ("kind: Pod" ∷ []) [] "replicas: 1" "replicas: 2" refl

myers_diff_panics_example :
    (myers_diff ("kind: Pod" ∷ []) ("kind: Pod" ∷ "paused: true" ∷ []) ≡ none)
    × (myers_diff ("kind: Pod" ∷ "paused: true" ∷ []) ("kind: Pod" ∷ []) ≡ none)
myers_diff_panics_example = myers_diff_panics ("kind: Pod" ∷ []) "paused: true"
