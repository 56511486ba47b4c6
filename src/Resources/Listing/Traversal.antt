-- ===== src/Resources/Listing/Traversal.antt =====
-- A whole traversal of a list in internal/services/resources: pages of the origins arrive, and pages of
-- the list are sent, in any order that the strategies of pagination.go may choose.
use kubepeep.Base.{
  ℕ, zero, suc, ◌+◌, ◌≡◌, refl, sym, ap, ◌∙◌, String, str_eq, Bool, true, false, not, ◌&&◌, Option,
  some, List, [], ◌∷◌, ◌++◌, map, arith, if◌then◌else◌, length, same_text,
}
use kubepeep.Resources.Listing.{
  Origin, OriginPage, OriginCursor, CompositeCursor, CursorError, other_page, no_progress, Result,
  ok, err, Key, key_of, sort_insert, sort_stable, canonical_origins, fresh_cursor,
  new_composite_cursor, is_complete_origin, complete_origins, complete, with_page, with_pages, emit,
  merge_authorized_origin_pages, apply_origin_page,
}
use kubepeep.Resources.Listing.Sums.{sum_of, sum_of-emit, sum_of-with_pages}
use kubepeep.Resources.Listing.Conservation.{
  count, waiting, arriving-none, merge-conserves, merge-emit, count-with_new_page, count-append,
}

-- Lists of a cluster that does not change: the page of an origin behind a token, the first one behind
-- an empty token.
pub record Upstream {ℓ} (Item : Type ℓ) : Type ℓ where
  pub page : Origin → String → OriginPage Item

-- The page of the origin at a position is read, or a page of the list is sent.
pub data Move : Type 0 where
  read_page : ℕ → Move
  send_page : ℕ → Option (Key → Bool) → Move

pub record Progress {ℓ} (Item : Type ℓ) : Type ℓ where
  pub sent : List Item
  pub cursor : CompositeCursor Item

module _ {ℓ} {Item : Type ℓ} (less : Item → Item → Bool) (upstream : Upstream Item) where
  read_or_keep : OriginCursor Item → Result (OriginCursor Item) → OriginCursor Item
  read_or_keep o (ok next) = next
  read_or_keep o (err e) = o

  -- An origin without a next page is not read.
  read_origin : OriginCursor Item → OriginCursor Item
  unfolding apply_origin_page read_or_keep
  read_origin o =
      if o.exhausted
      then o
      else read_or_keep o (apply_origin_page less o (upstream.page o.origin o.continue))

  read_at : ℕ → List (OriginCursor Item) → List (OriginCursor Item)
  unfolding read_origin
  read_at i [] = []
  read_at zero (o ∷ os) = read_origin o ∷ os
  read_at (suc i) (o ∷ os) = o ∷ read_at i os

  sent_page : Result (List Item × CompositeCursor Item) → Progress Item → Progress Item
  sent_page (ok (items, next)) p = record { sent = p.sent ++ items; cursor = next }
  sent_page (err e) p = p

  step : Move → Progress Item → Progress Item
  unfolding read_at sent_page
  step (read_page i) p = record p {
    cursor = record p.cursor { origins = read_at i p.cursor.origins };
  }
  step (send_page limit allowed) p =
      sent_page (merge_authorized_origin_pages less p.cursor [] limit allowed) p

  unfoldable pub traverse : List Move → Progress Item → Progress Item
  unfolding step merge_authorized_origin_pages
  traverse [] p = p
  traverse (move ∷ moves) p = traverse moves (step move p)

  unfoldable pub start : List Origin → Progress Item
  unfolding new_composite_cursor
  start origins = record { sent = []; cursor = new_composite_cursor origins }

module _ {ℓ} {Item : Type ℓ} (contents : Origin → String → List Item) where
  -- The items that an origin has still to give.
  coming_at : (Item → Bool) → Bool → Origin → String → ℕ
  coming_at p true o token = 0
  coming_at p false o token = count p (contents o token)

  abbrev coming_of : (Item → Bool) → OriginCursor Item → ℕ
  coming_of p o = coming_at p o.exhausted o.origin o.continue

  coming : (Item → Bool) → List (OriginCursor Item) → ℕ
  unfolding coming_at
  coming p os = sum_of (coming_of p) os

  -- The items of all origins.
  pub all_of : (Item → Bool) → List Origin → ℕ
  all_of p [] = 0
  all_of p (o ∷ os) = count p (contents o "") + all_of p os

  all_of-sort_insert :
      (before : Origin → Origin → Bool) (p : Item → Bool) (o : Origin) (os : List Origin)
      → all_of p (sort_insert before o os) ≡ count p (contents o "") + all_of p os
  unfolding sort_insert all_of
  all_of-sort_insert before p o [] = refl
  all_of-sort_insert before p o (x ∷ xs) = ground (arith, all_of-sort_insert before p o xs)

  all_of-sort_stable :
      (before : Origin → Origin → Bool) (p : Item → Bool) (os : List Origin)
      → all_of p (sort_stable before os) ≡ all_of p os
  unfolding sort_stable all_of
  all_of-sort_stable before p [] = refl
  all_of-sort_stable before p (o ∷ os) =
      all_of-sort_insert before p o (sort_stable before os)
      ∙ ap (λ n. count p (contents o "") + n) (all_of-sort_stable before p os)

  all_of-canonical :
      (p : Item → Bool) (os : List Origin) → all_of p (canonical_origins os) ≡ all_of p os
  unfolding canonical_origins
  all_of-canonical p os = all_of-sort_stable _ p os

  count-empty : (p : Item → Bool) (xs : List Item) → length xs ≡ 0 → count p xs ≡ 0
  count-empty p [] h = refl
  count-empty p (x ∷ xs) h = omega arith

  coming-fresh : (p : Item → Bool) (os : List Origin) → coming p (map fresh_cursor os) ≡ all_of p os
  unfolding coming coming_at fresh_cursor all_of
  coming-fresh p [] = refl
  coming-fresh p (o ∷ os) = omega (arith, coming-fresh p os)

  waiting-fresh :
      (p : Item → Bool) (os : List Origin) → waiting p (map (fresh_cursor {Item = Item}) os) ≡ 0
  unfolding fresh_cursor
  waiting-fresh p [] = refl
  waiting-fresh p (o ∷ os) = omega (arith, waiting-fresh p os)

  module _ (less : Item → Item → Bool) where
    coming-emit :
        (p : Item → Bool) (allowed : Option (Key → Bool)) (n : ℕ) (os : List (OriginCursor Item))
        → coming p (emit less n allowed (with_pages less [] os)).1 ≡ coming p os
    unfolding coming with_page
    coming-emit p allowed n os =
        sum_of-emit (coming_of p) less allowed (λ o x xs h. refl) n (with_pages less [] os)
        ∙ sum_of-with_pages (coming_of p) less os (λ o. refl)

  coming_at-page :
      (p : Item → Bool) (b : Bool) (o : Origin) (items : List Item) (token next : String)
      → contents o token ≡ items ++ (if b then [] else contents o next)
      → count p items + coming_at p b o next ≡ count p (contents o token)
  unfolding coming_at
  coming_at-page p true o items token next h =
      omega (arith, ap (count p) h, count-append p items [])
  coming_at-page p false o items token next h =
      omega (arith, ap (count p) h, count-append p items (contents o next))

  module _ (less : Item → Item → Bool) (upstream : Upstream Item) where
    -- Each page of an origin is what its contents behind the token begin with, and an empty next token
    -- means that there is nothing behind the page.
    abbrev pub IsListOf : Origin → String → Type ℓ
    IsListOf o token =
        let page = upstream.page o token in
        contents o token
        ≡ page.items ++ (if str_eq page.continue "" then [] else contents o page.continue)

    held_at : (Item → Bool) → OriginCursor Item → ℕ
    unfolding coming_at
    held_at p o = count p o.buffered + coming_at p o.exhausted o.origin o.continue

    IsHeld : (Item → Bool) → ℕ → Result (OriginCursor Item) → Type 0
    unfolding held_at
    IsHeld p n (ok s) = held_at p s ≡ n
    IsHeld p n (err e) = Unit

    IsHeld-if :
        (p : Item → Bool) (n : ℕ) (b c : Bool) (d e : CursorError) (s : OriginCursor Item)
        → held_at p s ≡ n
        → IsHeld p n (if b then err d else if c then err e else ok s)
    unfolding IsHeld
    IsHeld-if p n true c d e s h = tt
    IsHeld-if p n false true d e s h = tt
    IsHeld-if p n false false d e s h = h

    held_at-with_page :
        (p : Item → Bool) (o : OriginCursor Item)
        → IsListOf o.origin o.continue
        → held_at p (with_page less o (some (upstream.page o.origin o.continue)))
          ≡ count p o.buffered + count p (contents o.origin o.continue)
    unfolding held_at with_page
    held_at-with_page p o h =
        let page = upstream.page o.origin o.continue in
        omega (
          arith,
          count-with_new_page less p o page,
          coming_at-page p (str_eq page.continue "") o.origin page.items o.continue page.continue h,
        )

    IsHeld-apply_origin_page :
        (p : Item → Bool) (o : OriginCursor Item)
        → IsListOf o.origin o.continue
        → IsHeld p
            (count p o.buffered + count p (contents o.origin o.continue))
            (apply_origin_page less o (upstream.page o.origin o.continue))
    unfolding apply_origin_page
    IsHeld-apply_origin_page p o h =
        let page = upstream.page o.origin o.continue in
        IsHeld-if p _ (not (same_text (key_of o.origin) (key_of page.origin)))
          (not (str_eq page.continue "") && str_eq page.continue o.continue) other_page no_progress
          (with_page less o (some page)) (held_at-with_page p o h)

    held_at-read_or_keep :
        (p : Item → Bool) (o : OriginCursor Item) (n : ℕ) (r : Result (OriginCursor Item))
        → IsHeld p n r
        → held_at p o ≡ n
        → held_at p (read_or_keep less upstream o r) ≡ n
    unfolding read_or_keep IsHeld
    held_at-read_or_keep p o n (ok next) h k = h
    held_at-read_or_keep p o n (err e) h k = k

    held_at-if :
        (p : Item → Bool) (o : OriginCursor Item) (b : Bool) (r : Result (OriginCursor Item))
        → o.exhausted ≡ b
        → IsHeld p (count p o.buffered + count p (contents o.origin o.continue)) r
        → held_at p (if b then o else read_or_keep less upstream o r) ≡ held_at p o
    unfolding held_at
    held_at-if p o true r q h = refl
    held_at-if p o false r q h =
        let unread = ap (λ b. count p o.buffered + coming_at p b o.origin o.continue) q in
        held_at-read_or_keep p o _ r h unread ∙ sym unread

    held_at-read_origin :
        (p : Item → Bool) (o : OriginCursor Item)
        → IsListOf o.origin o.continue
        → held_at p (read_origin less upstream o) ≡ held_at p o
    unfolding read_origin
    held_at-read_origin p o h = held_at-if p o o.exhausted _ refl (IsHeld-apply_origin_page p o h)

    -- The items that wait or are still to come.
    held : (Item → Bool) → List (OriginCursor Item) → ℕ
    held p os = waiting p os + coming p os

    held-read_at :
        (p : Item → Bool) (i : ℕ) (os : List (OriginCursor Item))
        → ((o : Origin) (token : String) → IsListOf o token)
        → held p (read_at less upstream i os) ≡ held p os
    unfolding held read_at coming held_at
    held-read_at p i [] h = refl
    held-read_at p zero (o ∷ os) h = omega (arith, held_at-read_origin p o (h o.origin o.continue))
    held-read_at p (suc i) (o ∷ os) h = omega (arith, held-read_at p i os h)

    accounted : (Item → Bool) → Progress Item → ℕ
    accounted p s = count p s.sent + held p s.cursor.origins

    accounted-sent_page :
        (p : Item → Bool) (limit : ℕ) (allowed : Option (Key → Bool)) (s : Progress Item)
        (r : Result (List Item × CompositeCursor Item))
        → merge_authorized_origin_pages less s.cursor [] limit allowed ≡ r
        → accounted p (sent_page less upstream r s) ≡ accounted p s
    unfolding accounted sent_page held
    accounted-sent_page p limit allowed s (err e) h = refl
    accounted-sent_page p limit allowed s (ok (items, next)) h =
        let out = merge-emit less s.cursor next [] limit allowed items h in
        let kept = merge-conserves less p s.cursor next [] limit allowed items h in
        let unmoved = coming-emit less p allowed limit s.cursor.origins in
        omega (
          arith,
          kept,
          count-append p s.sent items,
          ap (coming p) out.1,
          unmoved,
          arriving-none p s.cursor.origins,
        )

    accounted-step :
        (p : Item → Bool) (move : Move) (s : Progress Item)
        → ((o : Origin) (token : String) → IsListOf o token)
        → accounted p (step less upstream move s) ≡ accounted p s
    unfolding step accounted held
    accounted-step p (read_page i) s h =
        ap (λ n. count p s.sent + n) (held-read_at p i s.cursor.origins h)
    accounted-step p (send_page limit allowed) s h = accounted-sent_page p limit allowed s _ refl

    accounted-traverse :
        (p : Item → Bool) (moves : List Move) (s : Progress Item)
        → ((o : Origin) (token : String) → IsListOf o token)
        → accounted p (traverse less upstream moves s) ≡ accounted p s
    unfolding traverse
    accounted-traverse p [] s h = refl
    accounted-traverse p (move ∷ moves) s h =
        accounted-traverse p moves (step less upstream move s) h ∙ accounted-step p move s h

    held_complete :
        (p : Item → Bool) (os : List (OriginCursor Item))
        → complete_origins os ≡ true
        → held p os ≡ 0
    unfolding held complete_origins is_complete_origin coming coming_at
    held_complete p [] h = refl
    held_complete p (o ∷ os) h =
        let rest = held_complete p os (ground (arith, h)) in
        let bare : length o.buffered ≡ 0 = ground (arith, h) in
        let done : o.exhausted ≡ true = ground (arith, h) in
        ground (arith, rest, count-empty p o.buffered bare, done)

    -- A client that follows a list to its end gets each item of each origin exactly once: however pages of
    -- the origins are read and pages of the list sent, once the cursor is complete, the items that pass any
    -- test are as many among those sent as in the lists of all origins.
    pub traverse-complete :
        (p : Item → Bool) (moves : List Move) (origins : List Origin)
        → ((o : Origin) (token : String) → IsListOf o token)
        → complete (traverse less upstream moves (start less upstream origins)).cursor ≡ true
        → count p (traverse less upstream moves (start less upstream origins)).sent
          ≡ all_of p origins
    unfolding complete start new_composite_cursor accounted held
    traverse-complete p moves origins h k =
        let s = start less upstream origins in
        let total = accounted-traverse p moves s h in
        let over = held_complete p (traverse less upstream moves s).cursor.origins k in
        omega (
          arith,
          total,
          over,
          waiting-fresh p (canonical_origins origins),
          coming-fresh p (canonical_origins origins),
          all_of-canonical p origins,
        )
