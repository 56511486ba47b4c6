-- ===== src/Resources/Listing/Sums.antt =====
-- What the merge of internal/services/resources/cursor.go leaves alone: a sum over the origins of a
-- number that does not change when an origin that may be shown gives its first item.
use kubepeep.Base.{
  ℕ, zero, suc, ◌+◌, ◌≡◌, refl, ap, ◌∙◌, Bool, not, ◌&&◌, Option, none, some, List, [], ◌∷◌, arith,
  if◌then◌else◌, Bool-cases, inl, inr,
}
use kubepeep.Resources.Listing.{
  OriginCursor, CompositeCursor, ok, Key, sort_stable, page_for, is_allowed, head_of, with_page,
  with_pages, choose, pop_least, emit, emit_after, merge_authorized_origin_pages,
}
use kubepeep.Resources.Listing.Conservation.{
  is_allowed-buffered, count, head_when-list, merge-emit, count-with_old_page,
}

module _ {ℓ} {Item : Type ℓ} (f : OriginCursor Item → ℕ) where
  abbrev pub sum_of : List (OriginCursor Item) → ℕ
  sum_of [] = 0
  sum_of (o ∷ os) = f o + sum_of os

  module _ (less : Item → Item → Bool) where
    pub sum_of-with_pages :
        (os : List (OriginCursor Item))
        → ((o : OriginCursor Item) → f (with_page less o none) ≡ f o)
        → sum_of (with_pages less [] os) ≡ sum_of os
    unfolding with_pages page_for
    sum_of-with_pages [] h = refl
    sum_of-with_pages (o ∷ os) h = omega (arith, h o, sum_of-with_pages os h)

    module _ (allowed : Option (Key → Bool))
        (keep : (o : OriginCursor Item) (x : Item) (xs : List Item)
          → head_of allowed o ≡ some (x, xs)
          → f (record o { buffered = xs }) ≡ f o) where
      IsUnmoved : ℕ → Option (Item × List (OriginCursor Item)) → Type 0
      IsUnmoved n none = Unit
      IsUnmoved n (some (x, rest)) = sum_of rest ≡ n

      IsUnmoved-choose :
          (o : OriginCursor Item) (os : List (OriginCursor Item)) (head : Option (Item × List Item))
          (later : Option (Item × List (OriginCursor Item)))
          → head_of allowed o ≡ head
          → IsUnmoved (sum_of os) later
          → IsUnmoved (sum_of (o ∷ os)) (choose less o os head later)
      unfolding choose IsUnmoved
      IsUnmoved-choose o os none none q h = tt
      IsUnmoved-choose o os none (some (y, rest)) q h = omega arith
      IsUnmoved-choose o os (some (x, xs)) none q h = omega (arith, keep o x xs q)
      IsUnmoved-choose o os (some (x, xs)) (some (y, rest)) q h =
          elim (Bool-cases (less y x && not (less x y))) [
            | inl b ↦ rw b (omega arith)
            | inr b ↦ rw b (omega (arith, keep o x xs q))
          ]

      IsUnmoved-pop_least :
          (os : List (OriginCursor Item)) → IsUnmoved (sum_of os) (pop_least less allowed os)
      unfolding pop_least IsUnmoved
      IsUnmoved-pop_least [] = tt
      IsUnmoved-pop_least (o ∷ os) =
          IsUnmoved-choose o os (head_of allowed o) (pop_least less allowed os) refl
            (IsUnmoved-pop_least os)

      sum_of-emit_after :
          (os : List (OriginCursor Item)) (out : Option (Item × List (OriginCursor Item)))
          (more : List (OriginCursor Item) → List Item × List (OriginCursor Item))
          → ((rest : List (OriginCursor Item)) → sum_of (more rest).1 ≡ sum_of rest)
          → IsUnmoved (sum_of os) out
          → sum_of (emit_after less os out more).1 ≡ sum_of os
      unfolding emit_after IsUnmoved
      sum_of-emit_after os none more h k = refl
      sum_of-emit_after os (some (x, rest)) more h k = h rest ∙ k

      pub sum_of-emit :
          (n : ℕ) (os : List (OriginCursor Item)) → sum_of (emit less n allowed os).1 ≡ sum_of os
      unfolding emit
      sum_of-emit zero os = refl
      sum_of-emit (suc n) os =
          sum_of-emit_after os (pop_least less allowed os) (λ rest. emit less n allowed rest)
            (λ rest. sum_of-emit n rest) (IsUnmoved-pop_least os)

module _ {ℓ} {Item : Type ℓ} (less : Item → Item → Bool) (allowed : Option (Key → Bool))
    (p : Item → Bool) where
  -- The items of an origin that may not be shown.
  abbrev pub withheld : OriginCursor Item → ℕ
  withheld o = if is_allowed allowed o then 0 else count p o.buffered

  withheld-head_of :
      (o : OriginCursor Item) (x : Item) (xs : List Item)
      → head_of allowed o ≡ some (x, xs)
      → withheld (record o { buffered = xs }) ≡ withheld o
  unfolding head_of
  withheld-head_of o x xs h =
      let head = head_when-list (is_allowed allowed o) o.buffered x xs h in
      rw (is_allowed-buffered allowed o xs, head.0) refl

  is_allowed-with_page :
      (o : OriginCursor Item) → is_allowed allowed (with_page less o none) ≡ is_allowed allowed o
  unfolding with_page
  is_allowed-with_page o = is_allowed-buffered allowed o (sort_stable less o.buffered)

  withheld-with_page : (o : OriginCursor Item) → withheld (with_page less o none) ≡ withheld o
  withheld-with_page o = ground (arith, count-with_old_page less p o, is_allowed-with_page o)

  -- Origins that the client may not read are left as they are: for any test, the items that pass it and
  -- wait in such origins are as many behind a page as before it.
  pub merge-withholds :
      (current next : CompositeCursor Item) (limit : ℕ) (items : List Item)
      → merge_authorized_origin_pages less current [] limit allowed ≡ ok (items, next)
      → sum_of withheld next.origins ≡ sum_of withheld current.origins
  merge-withholds current next limit items h =
      let out = merge-emit less current next [] limit allowed items h in
      let kept =
        sum_of-emit withheld less allowed withheld-head_of limit
          (with_pages less [] current.origins) in
      ap (sum_of withheld) out.1
      ∙ kept
      ∙ sum_of-with_pages withheld less current.origins withheld-with_page
