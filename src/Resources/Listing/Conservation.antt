-- ===== src/Resources/Listing/Conservation.antt =====
-- No item is lost or repeated by the merge of internal/services/resources/cursor.go, counted by an
-- arbitrary test on items.
use kubepeep.Base.{
  ℕ, zero, suc, ◌+◌, ◌≡◌, refl, ap, subst, Bool, true, false, not, ◌&&◌, ◌||◌, Option, none, some,
  List, [], ◌∷◌, ◌++◌, arith, if◌then◌else◌, ltb, Bool-cases, inl, inr,
}
use kubepeep.Resources.Listing.{
  OriginPage, OriginCursor, CompositeCursor, Result, ok, err, Key, key_of, sort_insert, sort_stable,
  page_for, is_allowed, head_when, head_of, with_page, with_pages, choose, has_duplicate_page,
  maximum_list_limit, invalid_merge, duplicate_page, pop_least, emit, emit_after,
  merge_authorized_origin_pages,
}

pub is_allowed-buffered {ℓ} :
    {Item : Type ℓ} (allowed : Option (Key → Bool)) (o : OriginCursor Item) (xs : List Item)
    → is_allowed allowed (record o { buffered = xs }) ≡ is_allowed allowed o
unfolding is_allowed
is_allowed-buffered none o xs = refl
is_allowed-buffered (some allowed) o xs = refl

module _ {ℓ} {Item : Type ℓ} where
  abbrev pub count : (Item → Bool) → List Item → ℕ
  count p [] = 0
  count p (x ∷ xs) = (if p x then 1 else 0) + count p xs

  -- The items that wait in the origins of a cursor.
  abbrev pub waiting : (Item → Bool) → List (OriginCursor Item) → ℕ
  waiting p [] = 0
  waiting p (o ∷ os) = count p o.buffered + waiting p os

  page_count : (Item → Bool) → Option (OriginPage Item) → ℕ
  page_count p none = 0
  page_count p (some page) = count p page.items

  -- The items of the pages that a cursor has an origin for, for each such origin.
  pub arriving : (Item → Bool) → List (OriginPage Item) → List (OriginCursor Item) → ℕ
  unfolding page_count page_for key_of
  arriving p pages [] = 0
  arriving p pages (o ∷ os) = page_count p (page_for (key_of o.origin) pages) + arriving p pages os

  pub count-append :
      (p : Item → Bool) (xs ys : List Item) → count p (xs ++ ys) ≡ count p xs + count p ys
  count-append p [] ys = omega arith
  count-append p (x ∷ xs) ys = omega (arith, count-append p xs ys)

  pub head_when-list :
      (b : Bool) (ys : List Item) (x : Item) (xs : List Item)
      → head_when b ys ≡ some (x, xs)
      → (b ≡ true) × (ys ≡ x ∷ xs)
  unfolding head_when
  head_when-list b [] x xs h = cc
  head_when-list true (y ∷ ys) x xs h = (refl, cc)
  head_when-list false (y ∷ ys) x xs h = cc

  pub arriving-none : (p : Item → Bool) (os : List (OriginCursor Item)) → arriving p [] os ≡ 0
  unfolding arriving page_for page_count
  arriving-none p [] = refl
  arriving-none p (o ∷ os) = omega (arith, arriving-none p os)

  head_of-waiting :
      (p : Item → Bool) (allowed : Option (Key → Bool)) (o : OriginCursor Item) (x : Item)
      (xs : List Item)
      → head_of allowed o ≡ some (x, xs)
      → count p o.buffered ≡ (if p x then 1 else 0) + count p xs
  unfolding head_of
  head_of-waiting p allowed o x xs h =
      ap (count p) (head_when-list (is_allowed allowed o) o.buffered x xs h).1

module _ {ℓ} {Item : Type ℓ} (less : Item → Item → Bool) where
  count-sort_insert :
      (p : Item → Bool) (x : Item) (xs : List Item)
      → count p (sort_insert less x xs) ≡ (if p x then 1 else 0) + count p xs
  unfolding sort_insert
  count-sort_insert p x [] = omega arith
  count-sort_insert p x (y ∷ ys) = ground (arith, count-sort_insert p x ys)

  count-sort_stable :
      (p : Item → Bool) (xs : List Item) → count p (sort_stable less xs) ≡ count p xs
  unfolding sort_stable
  count-sort_stable p [] = refl
  count-sort_stable p (x ∷ xs) =
      ground (arith, count-sort_insert p x (sort_stable less xs), count-sort_stable p xs)

  count-with_page :
      (p : Item → Bool) (s : OriginCursor Item) (page : Option (OriginPage Item))
      → count p (with_page less s page).buffered ≡ count p s.buffered + page_count p page
  unfolding with_page page_count
  count-with_page p s none = omega (arith, count-sort_stable p s.buffered)
  count-with_page p s (some page) =
      omega (
        arith,
        count-sort_stable p (s.buffered ++ page.items),
        count-append p s.buffered page.items,
      )

  pub count-with_old_page :
      (p : Item → Bool) (s : OriginCursor Item)
      → count p (with_page less s none).buffered ≡ count p s.buffered
  unfolding with_page
  count-with_old_page p s = count-sort_stable p s.buffered

  pub count-with_new_page :
      (p : Item → Bool) (s : OriginCursor Item) (page : OriginPage Item)
      → count p (with_page less s (some page)).buffered ≡ count p s.buffered + count p page.items
  unfolding page_count
  count-with_new_page p s page = count-with_page p s (some page)

  waiting-with_pages :
      (p : Item → Bool) (pages : List (OriginPage Item)) (os : List (OriginCursor Item))
      → waiting p (with_pages less pages os) ≡ waiting p os + arriving p pages os
  unfolding with_pages arriving
  waiting-with_pages p pages [] = refl
  waiting-with_pages p pages (o ∷ os) =
      omega (
        arith,
        waiting-with_pages p pages os,
        count-with_page p o (page_for (key_of o.origin) pages),
      )

  -- What is popped and what is left.
  IsPopped : (Item → Bool) → Option (Item × List (OriginCursor Item)) → ℕ → Type 0
  IsPopped p none n = Unit
  IsPopped p (some (x, rest)) n = (if p x then 1 else 0) + waiting p rest ≡ n

  IsPopped-choose :
      (p : Item → Bool) (allowed : Option (Key → Bool)) (o : OriginCursor Item)
      (os : List (OriginCursor Item)) (head : Option (Item × List Item))
      (later : Option (Item × List (OriginCursor Item)))
      → head_of allowed o ≡ head
      → IsPopped p later (waiting p os)
      → IsPopped p (choose less o os head later) (waiting p (o ∷ os))
  unfolding choose IsPopped
  IsPopped-choose p allowed o os none none h k = tt
  IsPopped-choose p allowed o os none (some (y, rest)) h k = omega arith
  IsPopped-choose p allowed o os (some (x, xs)) none h k =
      omega (arith, head_of-waiting p allowed o x xs h)
  IsPopped-choose p allowed o os (some (x, xs)) (some (y, rest)) h k =
      elim (Bool-cases (less y x && not (less x y))) [
        | inl q ↦ rw q (omega arith)
        | inr q ↦ rw q (omega (arith, head_of-waiting p allowed o x xs h))
      ]

  IsPopped-pop_least :
      (p : Item → Bool) (allowed : Option (Key → Bool)) (os : List (OriginCursor Item))
      → IsPopped p (pop_least less allowed os) (waiting p os)
  unfolding pop_least IsPopped
  IsPopped-pop_least p allowed [] = tt
  IsPopped-pop_least p allowed (o ∷ os) =
      IsPopped-choose p allowed o os (head_of allowed o) (pop_least less allowed os) refl
        (IsPopped-pop_least p allowed os)

  count-emit_after :
      (p : Item → Bool) (os : List (OriginCursor Item))
      (out : Option (Item × List (OriginCursor Item)))
      (more : List (OriginCursor Item) → List Item × List (OriginCursor Item))
      → ((rest : List (OriginCursor Item))
          → count p (more rest).0 + waiting p (more rest).1 ≡ waiting p rest)
      → IsPopped p out (waiting p os)
      → count p (emit_after less os out more).0 + waiting p (emit_after less os out more).1
        ≡ waiting p os
  unfolding emit_after IsPopped
  count-emit_after p os none more h k = omega arith
  count-emit_after p os (some (x, rest)) more h k = omega (arith, h rest)

  pub count-emit :
      (p : Item → Bool) (allowed : Option (Key → Bool)) (n : ℕ) (os : List (OriginCursor Item))
      → count p (emit less n allowed os).0 + waiting p (emit less n allowed os).1 ≡ waiting p os
  unfolding emit
  count-emit p allowed zero os = omega arith
  count-emit p allowed (suc n) os =
      count-emit_after p os (pop_least less allowed os) (λ rest. emit less n allowed rest)
        (λ rest. count-emit p allowed n rest) (IsPopped-pop_least p allowed os)

  -- What a merge that gives a page has emitted.
  abbrev IsEmitted :
      List Item × List (OriginCursor Item) → Result (List Item × CompositeCursor Item) → Type ℓ
  IsEmitted out (err e) = Unit
  IsEmitted out (ok (items, next)) = (items ≡ out.0) × (next.origins ≡ out.1)

  IsEmitted-if :
      (b c : Bool) (out : List Item × List (OriginCursor Item)) (current : CompositeCursor Item)
      → IsEmitted out (
          if b
          then err invalid_merge
          else if c
          then err duplicate_page
          else ok (out.0, record current { origins = out.1 }))
  IsEmitted-if true c out current = tt
  IsEmitted-if false true out current = tt
  IsEmitted-if false false out current = (refl, refl)

  pub merge-emit :
      (current next : CompositeCursor Item) (pages : List (OriginPage Item)) (limit : ℕ)
      (allowed : Option (Key → Bool)) (items : List Item)
      → merge_authorized_origin_pages less current pages limit allowed ≡ ok (items, next)
      → let out = emit less limit allowed (with_pages less pages current.origins) in
        (items ≡ out.0) × (next.origins ≡ out.1)
  unfolding merge_authorized_origin_pages
  merge-emit current next pages limit allowed items h =
      let out = emit less limit allowed (with_pages less pages current.origins) in
      subst (IsEmitted out) h (
        IsEmitted-if (ltb limit 1 || ltb maximum_list_limit limit) (has_duplicate_page [] pages) out
          current)

  -- A page and the cursor behind it have together each item that waited in the cursor and each item of a
  -- page that arrived for one of its origins, as often as there and no others: for any test, the items
  -- that pass it are as many before as after.
  pub merge-conserves :
      (p : Item → Bool) (current next : CompositeCursor Item) (pages : List (OriginPage Item))
      (limit : ℕ) (allowed : Option (Key → Bool)) (items : List Item)
      → merge_authorized_origin_pages less current pages limit allowed ≡ ok (items, next)
      → count p items + waiting p next.origins
        ≡ waiting p current.origins + arriving p pages current.origins
  merge-conserves p current next pages limit allowed items h =
      let out = merge-emit current next pages limit allowed items h in
      let kept = count-emit p allowed limit (with_pages less pages current.origins) in
      omega (
        arith,
        ap (count p) out.0,
        ap (waiting p) out.1,
        kept,
        waiting-with_pages p pages current.origins,
      )
