-- ===== src/Resources/Diff/Changes.antt =====
-- What the diff of internal/services/resources/diff.go gives for two documents that differ in one line.
use kubepeep.Base.{
  pos, ◌+◌, ◌≡◌, refl, ap, subst, ◌∙◌, String, str_eq, true, false, none, some, List, [], ◌∷◌, ◌++◌,
  map, arith, ◌==◌, length, length-append, eq_iff,
}
use mathlib.Core.List.{reverse, reverse-cons, reverse-reverse, append-nil}
use kubepeep.Resources.Diff.{
  op_same, op_insert, op_delete, strip_common, strip_common_end, around, with_front, with_back,
  myers_diff, myers_middle, edits, diagonals, furthest, goes_down, slide, at, put, repeat, is_end,
  myers_backtrack, loop_back, step_back, slide_back, edit_back,
}

str_eq_refl : (s : String) → str_eq s s ≡ true
str_eq_refl s = (eq_iff s s).1 refl

strip_common-append :
    (p xs ys : List String)
    → strip_common (p ++ xs) (p ++ ys)
      ≡ (p ++ (strip_common xs ys).0, (strip_common xs ys).1, (strip_common xs ys).2)
unfolding strip_common
strip_common-append [] xs ys = refl
strip_common-append (x ∷ p) xs ys = rw (str_eq_refl x, strip_common-append p xs ys) refl

middle-insert : (c : String) → myers_middle [] (c ∷ []) ≡ none
unfolding myers_middle edits diagonals furthest goes_down slide at put repeat is_end myers_backtrack
    loop_back step_back slide_back edit_back
middle-insert c = refl

middle-delete : (c : String) → myers_middle (c ∷ []) [] ≡ none
unfolding myers_middle edits diagonals furthest goes_down slide at put repeat is_end myers_backtrack
    loop_back step_back slide_back edit_back
middle-delete c = refl

slide-change : (a b : String) → str_eq a b ≡ false → slide (a ∷ []) (b ∷ []) 1 (pos 0) 0 ≡ some 0
unfolding slide at
slide-change a b h = rw h refl

diagonals-change :
    (a b : String)
    → str_eq a b ≡ false
    → diagonals (a ∷ []) (b ∷ []) 1 (pos 0) (pos 0) (repeat 5) ≡ some (repeat 5, false)
unfolding diagonals furthest goes_down at put repeat is_end
diagonals-change a b h = rw (slide-change a b h, diagonals) refl

middle-change :
    (a b : String)
    → str_eq a b ≡ false
    → myers_middle (a ∷ []) (b ∷ []) ≡ some (op_delete a ∷ op_insert b ∷ [])
unfolding myers_middle edits furthest goes_down slide at put repeat is_end myers_backtrack loop_back
    step_back slide_back edit_back
middle-change a b h = rw (diagonals-change a b h, edits) refl

-- Two texts by what `strip_common` leaves of them.
myers_diff-around :
    (previous current head xs ys tail us vs : List String)
    → (length previous + length current == 0) ≡ false
    → strip_common previous current ≡ (head, xs, ys)
    → strip_common_end xs ys ≡ (tail, us, vs)
    → myers_diff previous current ≡ around head tail (myers_middle us vs)
unfolding myers_diff with_front with_back
myers_diff-around previous current head xs ys tail us vs n f g =
    let trimmed : myers_diff previous current ≡ with_front (strip_common previous current) =
      rw n refl in
    trimmed ∙ ap with_front f ∙ ap (with_back head) g

strip_common_end-change :
    (a b : String) (s : List String)
    → str_eq a b ≡ false
    → strip_common_end (a ∷ s) (b ∷ s) ≡ (s, a ∷ [], b ∷ [])
unfolding strip_common_end strip_common
strip_common_end-change a b s h =
    let different : strip_common (a ∷ []) (b ∷ []) ≡ ([], a ∷ [], b ∷ []) = rw h refl in
    rw
      (
        reverse-cons a s,
        reverse-cons b s,
        strip_common-append (reverse s) (a ∷ []) (b ∷ []),
        different,
        append-nil (reverse s),
        reverse-reverse s,
      )
      refl

some_lines : (p q s : List String) (a : String) → (length q + length (p ++ a ∷ s) == 0) ≡ false
some_lines p q s a = ground (arith, length-append p (a ∷ s))

more_lines : (p : List String) (c : String) → (length (p ++ c ∷ []) + length p == 0) ≡ false
more_lines p c = ground (arith, length-append p (c ∷ []))

-- A document that differs from the one before in one line, wherever it stands, has the diff that removes
-- the old line, adds the new one, and keeps all others.
pub myers_diff-change :
    (p s : List String) (a b : String)
    → str_eq a b ≡ false
    → myers_diff (p ++ a ∷ s) (p ++ b ∷ s)
      ≡ some (map op_same p ++ (op_delete a ∷ op_insert b ∷ []) ++ map op_same s)
unfolding around
myers_diff-change p s a b h =
    let different : strip_common (a ∷ s) (b ∷ s) ≡ ([], a ∷ s, b ∷ s) =
      unfold strip_common in rw h refl in
    let front = strip_common-append p (a ∷ s) (b ∷ s) ∙ ap (λ t. (p ++ t.0, t.1, t.2)) different in
    let back = strip_common_end-change a b s h in
    let kept =
      myers_diff-around (p ++ a ∷ s) (p ++ b ∷ s) (p ++ []) (a ∷ s) (b ∷ s) s (a ∷ []) (b ∷ [])
        (some_lines p (p ++ a ∷ s) s b) front back in
    kept ∙ (rw (middle-change a b h, append-nil p) refl)

-- The diff panics for each document that grew by a line at its end, and for each that lost its last line.
pub myers_diff_panics :
    (p : List String) (c : String)
    → (myers_diff p (p ++ c ∷ []) ≡ none) × (myers_diff (p ++ c ∷ []) p ≡ none)
unfolding around strip_common_end strip_common
myers_diff_panics p c =
    let grown =
      subst (λ q. strip_common q (p ++ c ∷ []) ≡ (p ++ [], [], c ∷ [])) (append-nil p)
        (strip_common-append p [] (c ∷ [])) in
    let shrunk =
      subst (λ q. strip_common (p ++ c ∷ []) q ≡ (p ++ [], c ∷ [], [])) (append-nil p)
        (strip_common-append p (c ∷ []) []) in
    (
      myers_diff-around p (p ++ c ∷ []) (p ++ []) [] (c ∷ []) [] [] (c ∷ []) (some_lines p p [] c)
            grown refl
          ∙ ap (around (p ++ []) []) (middle-insert c),
      myers_diff-around (p ++ c ∷ []) p (p ++ []) (c ∷ []) [] [] (c ∷ []) [] (more_lines p c) shrunk
            refl
          ∙ ap (around (p ++ []) []) (middle-delete c),
    )
