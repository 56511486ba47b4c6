-- ===== src/Resources/Listing/Windows/Denials.antt =====
-- What LazyMerge of internal/services/resources/pagination.go does with an origin that the client may not
-- list.
use kubepeep.Base.{
  ℕ, zero, suc, ◌≡◌, refl, ap, ◌∙◌, String, Bool, true, false, not, ◌&&◌, ◌||◌, Option, none, some,
  List, [], ◌∷◌, leb, length, same_text, get_elem?, set, Bool-cases, inl, inr,
}
use kubepeep.Resources.Listing.{
  Origin, OriginPage, OriginCursor, CompositeCursor, other_page, Result, ok, err, Key, key_of,
  apply_origin_page,
}
use kubepeep.Resources.Listing.Windows.{
  decision_denied, Request, OriginOutcome, Scan, Walk, going, filled, canceled, refused, is_none,
  run_origin_workers, allow, note_outcome, note_all, authorized_buffered_count, buffered_indices,
  then_walk, indices_of, windows, normalize_fanout, put_page, apply_fetched, apply_outcome,
  apply_outcomes, check_filled, read_window, read_windows, read_pass, round, more_rounds,
  cursor_sources_exhausted, rounds, next,
}
use kubepeep.Resources.Listing.Windows.Outcomes.{
  IsHarmless, AllHarmless, AllHarmless-run_origin_workers,
}

abbrev pub scan_of {ℓ} : {Item : Type ℓ} → Walk Item → Scan Item
scan_of (going s) = s
scan_of (filled s) = s
scan_of (canceled s) = s
scan_of (refused e s) = s

-- Whether the map of the origins has an entry that lets one be shown.
abbrev pub is_shown : Option Bool → Bool
is_shown none = false
is_shown (some b) = b

module _ {ℓ} {Item : Type ℓ} (k : Key) where
  module _ (i : ℕ) (cursor : OriginCursor Item) where
    IsKept : Scan Item → Type ℓ
    IsKept s = (get_elem? s.origins i ≡ some cursor) × (is_shown (s.allowed k) ≡ false)

    IsKept-note_outcome :
        (o : OriginOutcome Item) (s : Scan Item)
        → IsHarmless k o
        → IsKept s
        → IsKept (note_outcome o s)
    unfolding IsKept IsHarmless note_outcome allow
    IsKept-note_outcome o s harmless (at, shown) = (
      at,
      elim (Bool-cases (same_text k (key_of o.page.origin))) [
        | inl q ↦ rw q (harmless q).0
        | inr q ↦ rw q shown
      ],
    )

    kept_at :
        (os : List (OriginCursor Item)) (j i : ℕ) (old new : OriginCursor Item)
        → get_elem? os j ≡ some old
        → get_elem? os i ≡ some cursor
        → (old ≡ cursor → new ≡ cursor)
        → get_elem? (set os j new) i ≡ some cursor
    kept_at [] j i old new q at same = at
    kept_at (o ∷ os) zero zero old new q at same =
        let here : old ≡ cursor = cc in ap some (same here)
    kept_at (o ∷ os) zero (suc i) old new q at same = at
    kept_at (o ∷ os) (suc j) zero old new q at same = at
    kept_at (o ∷ os) (suc j) (suc i) old new q at same = kept_at os j i old new q at same

    IsKeptBy : Walk Item → Type ℓ
    IsKeptBy w = IsKept (scan_of w)

    IsKeptBy-then_walk :
        (w : Walk Item) (more : Scan Item → Walk Item)
        → IsKeptBy w
        → ((s : Scan Item) → IsKept s → IsKeptBy (more s))
        → IsKeptBy (then_walk w more)
    unfolding IsKeptBy then_walk
    IsKeptBy-then_walk (going s) more h next = next s h
    IsKeptBy-then_walk (filled s) more h next = h
    IsKeptBy-then_walk (canceled s) more h next = h
    IsKeptBy-then_walk (refused e s) more h next = h

    IsKeptBy-put_page :
        (j : ℕ) (old : OriginCursor Item) (put : Result (OriginCursor Item)) (s : Scan Item)
        → get_elem? s.origins j ≡ some old
        → ((new : OriginCursor Item) → put ≡ ok new → old ≡ cursor → new ≡ cursor)
        → IsKept s
        → IsKeptBy (put_page j put s)
    unfolding IsKeptBy IsKept put_page
    IsKeptBy-put_page j old (err e) s q same h = h
    IsKeptBy-put_page j old (ok new) s q same (at, shown) =
        (kept_at s.origins j i old new q at (same new refl), shown)

    module _ (less : Item → Item → Bool) (key_is : key_of cursor.origin ≡ k) where
      other_page_same :
          (old : OriginCursor Item) (page : OriginPage Item) (new : OriginCursor Item)
          → same_text k (key_of page.origin) ≡ false
          → apply_origin_page less old page ≡ ok new
          → old ≡ cursor
          → new ≡ cursor
      unfolding apply_origin_page
      other_page_same old page new other put same =
          let key : key_of old.origin ≡ k = ap (λ o. key_of (o.origin)) same ∙ key_is in
          let refused : apply_origin_page less old page ≡ err other_page = rw (key, other) refl in
          cc

      IsKeptBy-apply_fetched :
          (j : ℕ) (o : OriginOutcome Item) (found : Option (OriginCursor Item)) (s : Scan Item)
          → get_elem? s.origins j ≡ found
          → IsHarmless k o
          → IsKept s
          → IsKeptBy (apply_fetched less j o found s)
      unfolding apply_fetched IsKeptBy IsHarmless
      IsKeptBy-apply_fetched j o none s q harmless h = h
      IsKeptBy-apply_fetched j o (some old) s q harmless h =
          elim (Bool-cases (is_none o.error && o.queried)) [
            | inl fetched ↦
                let other : same_text k (key_of o.page.origin) ≡ false =
                  elim (Bool-cases (same_text k (key_of o.page.origin))) [
                    | inl e ↦ let denied = (harmless e).1 in cc
                    | inr e ↦ e
                  ] in
                rw fetched (
                  IsKeptBy-put_page j old (apply_origin_page less old o.page) s q
                    (λ new. other_page_same old o.page new other) h)
            | inr idle ↦ rw idle h
          ]

      IsKeptBy-apply_outcomes :
          (os : List (ℕ × OriginOutcome Item)) (s : Scan Item)
          → AllHarmless k os
          → IsKept s
          → IsKeptBy (apply_outcomes less os s)
      unfolding apply_outcomes apply_outcome AllHarmless note_outcome IsKeptBy IsKept
      IsKeptBy-apply_outcomes [] s harmless h = h
      IsKeptBy-apply_outcomes ((j, o) ∷ os) s (harmless, later) h =
          IsKeptBy-then_walk (apply_outcome less j o s) (λ t. apply_outcomes less os t)
            (IsKeptBy-apply_fetched j o (get_elem? s.origins j) (note_outcome o s) refl harmless
              (IsKept-note_outcome o s harmless h))
            (λ t g. IsKeptBy-apply_outcomes os t later g)

      IsKept-note_all :
          (os : List (ℕ × OriginOutcome Item)) (s : Scan Item)
          → AllHarmless k os
          → IsKept s
          → IsKept (note_all os s)
      unfolding note_all AllHarmless
      IsKept-note_all [] s harmless h = h
      IsKept-note_all ((j, o) ∷ os) s (harmless, later) h =
          IsKept-note_all os (note_outcome o s) later (IsKept-note_outcome o s harmless h)

  module _ (r : Request Item) (no_grant : r.global_list_grant ≡ none)
      (denies : (m : ℕ) (o : Origin)
        → same_text k (key_of o) ≡ true
        → r.check m o ≡ decision_denied)
      (names : (m : ℕ) (o : Origin) (limit : ℕ) (token : String)
        → same_text k (key_of (r.list_page m o limit token).0.origin) ≡ true
        → same_text k (key_of o) ≡ true) where
    module _ (i : ℕ) (cursor : OriginCursor Item) (less : Item → Item → Bool)
        (key_is : key_of cursor.origin ≡ k) where
      IsKeptBy-check_filled :
          (s : Scan Item) → IsKept i cursor s → IsKeptBy i cursor (check_filled r s)
      unfolding check_filled IsKeptBy
      IsKeptBy-check_filled s h =
          elim (Bool-cases (leb r.limit (authorized_buffered_count s.origins s.allowed))) [
            | inl q ↦ rw q h
            | inr q ↦ rw q h
          ]

      IsKeptBy-read_window :
          (indices : List ℕ) (s : Scan Item)
          → IsKept i cursor s
          → IsKeptBy i cursor (read_window less r indices s)
      unfolding read_window IsKeptBy
      IsKeptBy-read_window indices s h = elim (Bool-cases (r.is_done (length s.outcomes))) [
        | inl q ↦ rw q h
        | inr q ↦ rw q (
            IsKeptBy-then_walk i cursor
              (apply_outcomes less
                (run_origin_workers r (length s.outcomes) true s.allowed s.origins indices) s)
              (check_filled r)
              (IsKeptBy-apply_outcomes i cursor less key_is _ s
                (AllHarmless-run_origin_workers k r no_grant denies names (length s.outcomes) true
                  s.allowed s.origins indices)
                h)
              IsKeptBy-check_filled)
      ]

      IsKeptBy-read_windows :
          (ws : List (List ℕ)) (s : Scan Item)
          → IsKept i cursor s
          → IsKeptBy i cursor (read_windows less r ws s)
      unfolding read_windows IsKeptBy
      IsKeptBy-read_windows [] s h = h
      IsKeptBy-read_windows (w ∷ ws) s h =
          IsKeptBy-then_walk i cursor (read_window less r w s) (λ t. read_windows less r ws t)
            (IsKeptBy-read_window w s h) (λ t g. IsKeptBy-read_windows ws t g)

      IsKeptBy-read_pass :
          (prefer_empty : Bool) (s : Scan Item)
          → IsKept i cursor s
          → IsKeptBy i cursor (read_pass less r prefer_empty s)
      unfolding read_pass
      IsKeptBy-read_pass prefer_empty s h =
          IsKeptBy-read_windows
            (windows (normalize_fanout r.fanout) (indices_of 0 prefer_empty s.origins)) s h

      IsKeptBy-round : (s : Scan Item) → IsKept i cursor s → IsKeptBy i cursor (round less r s)
      unfolding round IsKept
      IsKeptBy-round s h =
          let start : Scan Item = record s { progress = false } in
          IsKeptBy-then_walk i cursor (read_pass less r true start) (read_pass less r false)
            (IsKeptBy-read_pass true start h) (IsKeptBy-read_pass false)

      IsKeptBy-more_rounds :
          (more : Scan Item → Walk Item) (s : Scan Item)
          → IsKept i cursor s
          → ((t : Scan Item) → IsKept i cursor t → IsKeptBy i cursor (more t))
          → IsKeptBy i cursor (more_rounds more s)
      unfolding more_rounds IsKeptBy
      IsKeptBy-more_rounds more s h next =
          elim (Bool-cases (not s.progress || cursor_sources_exhausted s.origins)) [
            | inl q ↦ rw q h
            | inr q ↦ rw q (next s h)
          ]

      IsKeptBy-rounds :
          (n : ℕ) (s : Scan Item) → IsKept i cursor s → IsKeptBy i cursor (rounds less r n s)
      unfolding rounds IsKeptBy
      IsKeptBy-rounds zero s h = h
      IsKeptBy-rounds (suc n) s h =
          IsKeptBy-then_walk i cursor (round less r s) (more_rounds (λ t. rounds less r n t))
            (IsKeptBy-round s h)
            (λ t g.
              IsKeptBy-more_rounds (λ u. rounds less r n u) t g (λ u f. IsKeptBy-rounds n u f))

-- Whatever LazyMerge reads, an origin that the client may not list keeps its cursor, with the items that
-- wait in it, and is not allowed to be shown, after any number of rounds. There is no cluster-wide grant,
-- each check denies every origin with the cursor's key, and a page carries that key only if it was asked
-- of such an origin.
pub next_denied {ℓ} :
    {Item : Type ℓ} (less : Item → Item → Bool) (r : Request Item) (n i : ℕ)
    (c : CompositeCursor Item) (cursor : OriginCursor Item)
    → get_elem? c.origins i ≡ some cursor
    → r.global_list_grant ≡ none
    → ((m : ℕ) (o : Origin)
        → same_text (key_of cursor.origin) (key_of o) ≡ true
        → r.check m o ≡ decision_denied)
    → ((m : ℕ) (o : Origin) (limit : ℕ) (token : String)
        → same_text (key_of cursor.origin) (key_of (r.list_page m o limit token).0.origin) ≡ true
        → same_text (key_of cursor.origin) (key_of o) ≡ true)
    → let s = scan_of (next less r n c) in
      (get_elem? s.origins i ≡ some cursor) × (is_shown (s.allowed (key_of cursor.origin)) ≡ false)
unfolding next IsKeptBy IsKept
next_denied less r n i c cursor at no_grant denies names =
    let k = key_of cursor.origin in
    let asked = run_origin_workers r 0 false (λ j. none) c.origins (buffered_indices 0 c.origins) in
    let start : Scan _ = record {
      origins = c.origins;
      allowed = λ j. none;
      outcomes = [];
      progress = false;
    } in
    IsKeptBy-then_walk k i cursor (check_filled r (note_all asked start)) (rounds less r n)
      (IsKeptBy-check_filled k r no_grant denies names i cursor less refl (note_all asked start) (
        IsKept-note_all k i cursor less refl asked start
          (AllHarmless-run_origin_workers k r no_grant denies names 0 false (λ j. none) c.origins
            (buffered_indices 0 c.origins))
          (at, refl)))
      (IsKeptBy-rounds k r no_grant denies names i cursor less refl n)
