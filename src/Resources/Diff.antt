-- ===== src/Resources/Diff.antt =====
-- internal/services/resources/diff.go: the line diff that is shown between a document and the one last
-- applied. An index out of range is a panic, `none` here. The loops run on fuel, the number of rounds that
-- their conditions allow. The YAML and the annotations are not modelled.
pub mod Changes
mod Tests
use kubepeep.Base.{
  ℕ, zero, suc, ◌+◌, ◌*◌, ℤ, pos, negsuc, ltb_ℤ, ◌-ℤ◌, ◌+ℤ◌, ◌==ℤ◌, String, str_eq, Bool, true,
  false, not, ◌&&◌, Option, none, some, List, [], ◌∷◌, ◌++◌, map, ltb, leb, ◌==◌, if◌then◌else◌,
  length, get_elem?, set,
}
use mathlib.Core.List.{reverse}

abbrev pub maximum_diff_input_lines : ℕ
maximum_diff_input_lines = 6000

abbrev pub maximum_diff_lines : ℕ
maximum_diff_lines = 4000

-- A line that stays, one that is new, and one that is gone.
pub data DiffOperation : Type 0 where
  op_same op_insert op_delete : String → DiffOperation

pub record LastAppliedDiff : Type 0 where
  pub truncated : Bool
  pub lines : List DiffOperation

-- An index that may be negative.
at {ℓ} : {A : Type ℓ} → List A → ℤ → Option A
at xs (pos n) = get_elem? xs n
at xs (negsuc n) = none

put : List ℕ → ℤ → ℕ → List ℕ
put xs (pos n) x = set xs n x
put xs (negsuc n) x = xs

repeat : ℕ → List ℕ
repeat zero = []
repeat (suc n) = 0 ∷ repeat n

module _ (previous : List String) (current : List String) where
  abbrev offset : ℤ
  offset = pos (length previous + length current)

  -- The choice between the diagonal above and the one below, with the test for the outermost diagonals
  -- of a number of edits: true for the one above.
  goes_down : ℤ → ℤ → List ℕ → Option Bool
  unfolding at
  goes_down d k vertical =
      if k ==ℤ (pos 0 -ℤ d)
      then some true
      else if k ==ℤ d
      then some false
      else elim (at vertical (k -ℤ pos 1 +ℤ offset)) [
        | none ↦ none
        | some left ↦ elim (at vertical (k +ℤ pos 1 +ℤ offset)) [
          | none ↦ none
          | some right ↦ some (ltb left right)
        ]
      ]

  furthest : ℤ → ℤ → List ℕ → Option ℕ
  unfolding goes_down
  furthest d k vertical = elim (goes_down d k vertical) [
    | none ↦ none
    | some true ↦ at vertical (k +ℤ pos 1 +ℤ offset)
    | some false ↦ elim (at vertical (k -ℤ pos 1 +ℤ offset)) [ none ↦ none | some x ↦ some (x + 1) ]
  ]

  -- The loop over equal lines from a line of the previous document on, on a diagonal.
  slide : ℕ → ℤ → ℕ → Option ℕ
  unfolding at
  slide zero k x = some x
  slide (suc n) k x =
      let y = pos x -ℤ k in
      let more = slide n k (x + 1) in
      if ltb x (length previous) && ltb_ℤ y (pos (length current))
      then elim (get_elem? previous x) [
        | none ↦ none
        | some a ↦ elim (at current y) [
          | none ↦ none
          | some b ↦ if str_eq a b then more else some x
        ]
      ]
      else some x

  is_end : ℤ → ℕ → Bool
  is_end k x = leb (length previous) x && not (ltb_ℤ (pos x -ℤ k) (pos (length current)))

  -- The loop over the diagonals, with the rounds that are left: the furthest points, and whether the end
  -- was reached.
  diagonals : ℕ → ℤ → ℤ → List ℕ → Option (List ℕ × Bool)
  unfolding furthest slide is_end put
  diagonals zero d k vertical = some (vertical, false)
  diagonals (suc n) d k vertical = elim (furthest d k vertical) [
    | none ↦ none
    | some start ↦ elim (slide (length previous) k start) [
      | none ↦ none
      | some x ↦
          let next = put vertical (k +ℤ offset) x in
          let more = diagonals n d (k +ℤ pos 2) next in
          if is_end k x then some (next, true) else more
    ]
  ]

  -- The lines back to the diagonal's start.
  slide_back : ℕ → ℤ → ℤ → ℤ → ℤ → List DiffOperation → Option (List DiffOperation × ℤ × ℤ)
  unfolding at
  slide_back zero previous_x previous_y x y operations = some (operations, x, y)
  slide_back (suc n) previous_x previous_y x y operations =
      if ltb_ℤ previous_x x && ltb_ℤ previous_y y
      then elim (at previous (x -ℤ pos 1)) [
        | none ↦ none
        | some a ↦
            slide_back n previous_x previous_y (x -ℤ pos 1) (y -ℤ pos 1) (op_same a ∷ operations)
      ]
      else some (operations, x, y)

  edit_back : ℤ → ℤ → List DiffOperation × ℤ × ℤ → Option (List DiffOperation × ℤ × ℤ)
  unfolding at
  edit_back previous_x previous_y (operations, x, y) =
      if x ==ℤ previous_x
      then elim (at current previous_y) [
        | none ↦ none
        | some b ↦ some (op_insert b ∷ operations, x, y -ℤ pos 1)
      ]
      else elim (at previous (x -ℤ pos 1)) [
        | none ↦ none
        | some a ↦ some (op_delete a ∷ operations, x -ℤ pos 1, y)
      ]

  -- A round of the loop back, from the furthest points of a number of edits.
  step_back : ℕ → List ℕ → List DiffOperation × ℤ × ℤ → Option (List DiffOperation × ℤ × ℤ)
  unfolding goes_down slide_back edit_back
  step_back d snapshot (operations, x, y) =
      let k = x -ℤ y in
      elim (goes_down (pos d) k snapshot) [
        | none ↦ none
        | some down ↦
            let previous_k = if down then k +ℤ pos 1 else k -ℤ pos 1 in
            elim (at snapshot (previous_k +ℤ offset)) [
              | none ↦ none
              | some previous_x ↦
                  let previous_y = pos previous_x -ℤ previous_k in
                  elim (slide_back (length previous) (pos previous_x) previous_y x y operations) [
                    | none ↦ none
                    | some state ↦ edit_back (pos previous_x) previous_y state
                  ]
            ]
      ]

  -- The loop over the snapshots, the last one first. The operations come in order, since each goes to
  -- the front.
  loop_back : List (List ℕ) → List DiffOperation × ℤ × ℤ → Option (List DiffOperation)
  unfolding step_back
  loop_back [] state = some state.0
  loop_back (snapshot ∷ snapshots) state = elim (step_back (length snapshots) snapshot state) [
    | none ↦ none
    | some next ↦ loop_back snapshots next
  ]

  -- `myersBacktrack`, given the snapshots before the last one, the latest first.
  myers_backtrack : List (List ℕ) → Option (List DiffOperation)
  unfolding loop_back
  myers_backtrack snapshots = loop_back snapshots ([], pos (length previous), pos (length current))

  -- The loop over the number of edits, with the rounds that are left.
  edits : ℕ → ℕ → List ℕ → List (List ℕ) → Option (List DiffOperation)
  unfolding diagonals myers_backtrack
  edits zero d vertical trace = some (map op_delete previous ++ map op_insert current)
  edits (suc n) d vertical trace = elim (diagonals (suc d) (pos d) (pos 0 -ℤ pos d) vertical) [
    | none ↦ none
    | some (next, true) ↦ myers_backtrack trace
    | some (next, false) ↦ edits n (suc d) next (next ∷ trace)
  ]

  pub myers_middle : Option (List DiffOperation)
  unfolding edits repeat
  myers_middle =
      let lines = length previous + length current in
      if lines == 0 then some [] else edits (suc lines) 0 (repeat (2 * lines + 1)) []

-- The lines that two lists begin with, and the rest of both.
pub strip_common : List String → List String → List String × List String × List String
strip_common [] ys = ([], [], ys)
strip_common (x ∷ xs) [] = ([], x ∷ xs, [])
strip_common (x ∷ xs) (y ∷ ys) =
    let rest = strip_common xs ys in
    if str_eq x y then (x ∷ rest.0, rest.1, rest.2) else ([], x ∷ xs, y ∷ ys)

-- The lines that two lists end with, and the rest of both.
pub strip_common_end : List String → List String → List String × List String × List String
unfolding strip_common
strip_common_end xs ys =
    let out = strip_common (reverse xs) (reverse ys) in
    (reverse out.0, reverse out.1, reverse out.2)

around : List String → List String → Option (List DiffOperation) → Option (List DiffOperation)
around head tail none = none
around head tail (some middle) = some (map op_same head ++ middle ++ map op_same tail)

with_back : List String → List String × List String × List String → Option (List DiffOperation)
unfolding around
with_back head (tail, previous, current) = around head tail (myers_middle previous current)

with_front : List String × List String × List String → Option (List DiffOperation)
unfolding strip_common_end with_back
with_front (head, previous, current) = with_back head (strip_common_end previous current)

unfoldable pub myers_diff : List String → List String → Option (List DiffOperation)
unfolding strip_common strip_common_end with_front myers_middle
myers_diff previous current =
    if length previous + length current == 0
    then some []
    else with_front (strip_common previous current)

first_lines {ℓ} : {A : Type ℓ} → ℕ → List A → List A
first_lines zero xs = []
first_lines (suc n) [] = []
first_lines (suc n) (x ∷ xs) = x ∷ first_lines n xs

rendered : Option (List DiffOperation) → Option LastAppliedDiff
unfolding first_lines
rendered none = none
rendered (some ops) = some (record {
  truncated = ltb maximum_diff_lines (length ops);
  lines = first_lines maximum_diff_lines ops;
})

-- `DiffYAML`, from the lines of the two documents.
pub diff_yaml : List String → List String → Option LastAppliedDiff
unfolding rendered first_lines
diff_yaml current previous = rendered (
    myers_diff (first_lines maximum_diff_input_lines previous)
      (first_lines maximum_diff_input_lines current))
