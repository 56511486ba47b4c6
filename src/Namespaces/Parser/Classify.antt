-- ===== src/Namespaces/Parser/Classify.antt =====
-- What `classifyItems` of internal/services/namespaces/parser.go makes of a list of names.
use kubepeep.Base.{
  ℕ, ◌+◌, ◌≡◌, refl, sym, ap, ◌∙◌, Bool, true, false, not, ◌&&◌, List, [], ◌∷◌, ◌++◌, arith,
  if◌then◌else◌, length, length-append, Bool-cases, inl, inr,
}
use mathlib.Core.List.{append_assoc, append-nil}
use kubepeep.Namespaces.Parser.{
  Text, has_text, is_empty, is_space, trim_left, trim_right, trim, trim_space, ValidationReport,
  InvalidNamespace, Libraries, empty_report, valid_namespace_name, add_name, note_item, note_seen,
  classify_loop, classify_items,
}

trim_right_idem : (p : ℕ → Bool) (s : Text) → trim_right p (trim_right p s) ≡ trim_right p s
unfolding trim_right
trim_right_idem p [] = refl
trim_right_idem p (c ∷ s) = ground (arith, trim_right_idem p s)

trim_left_idem :
    (p : ℕ → Bool) (s : Text)
    → trim_left p (trim_right p (trim_left p s)) ≡ trim_right p (trim_left p s)
unfolding trim_left trim_right
trim_left_idem p [] = refl
trim_left_idem p (c ∷ s) = elim (Bool-cases (p c)) [
  | inl q ↦ rw q (trim_left_idem p s)
  | inr q ↦ ground (arith, q)
]

trim_space_idem : (s : Text) → trim_space (trim_space s) ≡ trim_space s
unfolding trim_space trim
trim_space_idem s =
    ap (trim_right is_space) (trim_left_idem is_space s)
    ∙ trim_right_idem is_space (trim_left is_space s)

abbrev counted : ValidationReport → ℕ
counted r = length r.valid + length r.invalid + r.duplicate_count + r.discarded_empty_count

module _ (libraries : Libraries) where
  note_item_counts :
      (seen : List Text) (name : Text) (r : ValidationReport)
      → counted (note_item libraries seen name r) ≡ counted r + 1
  unfolding note_item add_name
  note_item_counts seen name r =
      let refused : InvalidNamespace = record { input = name; code = "INVALID_NAMESPACE_NAME" } in
      ground (arith, length-append r.valid (name ∷ []), length-append r.invalid (refused ∷ []))

  loop_counts :
      (seen : List Text) (r : ValidationReport) (items : List Text)
      → counted (classify_loop libraries seen r items) ≡ counted r + length items
  unfolding classify_loop
  loop_counts seen r [] = omega arith
  loop_counts seen r (item ∷ items) =
      let name = trim_space item in
      omega (
        arith,
        note_item_counts seen name r,
        loop_counts (note_seen libraries seen name) (note_item libraries seen name r) items,
      )

  -- Every item is counted once: as valid, as invalid, as a duplicate or as empty.
  classify_items_counts :
      (items : List Text)
      → let r = classify_items libraries items in
        r.valid_count + r.invalid_count + r.duplicate_count + r.discarded_empty_count ≡ length items
  unfolding classify_items empty_report
  classify_items_counts items = omega (arith, loop_counts [] empty_report items)

  -- The valid names, by a recursion that keeps no report.
  added : List Text → Text → List Text
  added seen name =
      if not (is_empty name) && not (has_text name seen) && valid_namespace_name libraries name
      then name ∷ []
      else []

  kept : List Text → List Text → List Text
  unfolding added
  kept seen [] = []
  kept seen (item ∷ items) =
      let name = trim_space item in added seen name ++ kept (note_seen libraries seen name) items

  note_item_valid :
      (seen : List Text) (name : Text) (r : ValidationReport)
      → (note_item libraries seen name r).valid ≡ r.valid ++ added seen name
  unfolding note_item add_name added
  note_item_valid seen name r = ground (arith, append-nil r.valid)

  loop_valid :
      (seen : List Text) (r : ValidationReport) (items : List Text)
      → (classify_loop libraries seen r items).valid ≡ r.valid ++ kept seen items
  unfolding classify_loop kept
  loop_valid seen r [] = sym (append-nil r.valid)
  loop_valid seen r (item ∷ items) =
      let name = trim_space item in
      let later = note_seen libraries seen name in
      loop_valid later (note_item libraries seen name r) items
      ∙ ap (λ xs. xs ++ kept later items) (note_item_valid seen name r)
      ∙ append_assoc r.valid (added seen name) (kept later items)

  -- Names that are valid, trimmed and not empty, and neither seen before nor repeated.
  abbrev pub AreNames : List Text → List Text → Type 0
  AreNames seen [] = Unit
  AreNames seen (name ∷ names) =
      (valid_namespace_name libraries name ≡ true)
      × (trim_space name ≡ name)
      × (is_empty name ≡ false)
      × (has_text name seen ≡ false)
      × AreNames (name ∷ seen) names

  abbrev Within : List Text → List Text → Type 0
  Within few many = (t : Text) → has_text t many ≡ false → has_text t few ≡ false

  AreNames-Within :
      (few many names : List Text) → Within few many → AreNames many names → AreNames few names
  AreNames-Within few many [] w h = tt
  AreNames-Within few many (name ∷ names) w (v, t, e, f, rest) = (
    v,
    t,
    e,
    w name f,
    AreNames-Within (name ∷ few) (name ∷ many) names (λ s. λ q. ground (arith, q, w s)) rest,
  )

  kept-AreNames : (seen items : List Text) → AreNames seen (kept seen items)
  unfolding kept added note_seen
  kept-AreNames seen [] = tt
  kept-AreNames seen (item ∷ items) =
      let name = trim_space item in
      let same = kept-AreNames seen items in
      let rest = kept-AreNames (name ∷ seen) items in
      let weaker =
        AreNames-Within seen (name ∷ seen) (kept (name ∷ seen) items) (λ s. λ f. ground (arith, f))
          rest in
      elim (Bool-cases (is_empty name)) [
        | inl q ↦ rw q same
        | inr q ↦ elim (Bool-cases (has_text name seen)) [
          | inl d ↦ rw (q, d) same
          | inr d ↦ elim (Bool-cases (valid_namespace_name libraries name)) [
            | inl v ↦ rw (q, d, v) (v, trim_space_idem item, q, d, rest)
            | inr v ↦ rw (q, d, v) weaker
          ]
        ]
      ]

  loop-AreNames :
      (seen names : List Text) (r : ValidationReport)
      → AreNames seen names
      → classify_loop libraries seen r names ≡ record r { valid = r.valid ++ names }
  unfolding classify_loop note_item note_seen add_name
  loop-AreNames seen [] r h = ap (λ xs. record r { valid = xs }) (sym (append-nil r.valid))
  loop-AreNames seen (name ∷ names) r (v, t, e, f, rest) =
      rw (t, e, f, v)
        (loop-AreNames (name ∷ seen) names (record r { valid = r.valid ++ name ∷ [] }) rest
          ∙ ap (λ xs. record r { valid = xs }) (append_assoc r.valid (name ∷ []) names))

  -- The names reported as valid are valid, trimmed and all different, and they are those, in their
  -- order, that a second classification accepts, which finds nothing else to report.
  pub classify_items_idem :
      (items : List Text)
      → let r = classify_items libraries items in
        AreNames [] r.valid
        × (classify_items libraries r.valid
            ≡ record empty_report { valid = r.valid; valid_count = r.valid_count })
  unfolding classify_items empty_report
  classify_items_idem items =
      let names = kept [] items in
      let first = loop_valid [] empty_report items in
      let again = loop-AreNames [] names empty_report (kept-AreNames [] items) in
      rw first (kept-AreNames [] items, rw again refl)
