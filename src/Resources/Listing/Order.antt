-- ===== src/Resources/Listing/Order.antt =====
-- The order of a page of the merge in internal/services/resources/cursor.go. Comparators are strict weak
-- orders: what is less is not greater, and "not greater" is transitive.
use kubepeep.Base.{
  ℕ, zero, suc, ◌≡◌, refl, sym, subst, Bool, true, false, not, ◌&&◌, Option, none, some, List, [],
  ◌∷◌, ◌++◌, arith, Bool-cases, inl, inr, All,
}
use kubepeep.Resources.Listing.{
  OriginPage, OriginCursor, CompositeCursor, ok, Key, key_of, sort_insert, sort_stable, page_for,
  is_allowed, head_when, head_of, with_page, with_pages, choose, pop_least, emit, emit_after,
  merge_authorized_origin_pages,
}
use kubepeep.Resources.Listing.Conservation.{is_allowed-buffered, head_when-list, merge-emit}

module _ {ℓ} {Item : Type ℓ} (less : Item → Item → Bool)
    (asym : (a b : Item) → less a b ≡ true → less b a ≡ false)
    (trans : (a b c : Item) → less b a ≡ false → less c b ≡ false → less c a ≡ false) where
  -- No item of a list is less than an item.
  abbrev pub IsBelow : Item → List Item → Type 0
  IsBelow x ys = All (λ y. less y x ≡ false) ys

  abbrev pub IsSorted : List Item → Type 0
  IsSorted [] = Unit
  IsSorted (x ∷ xs) = IsBelow x xs × IsSorted xs

  IsBelow-trans : (a b : Item) (xs : List Item) → less b a ≡ false → IsBelow b xs → IsBelow a xs
  IsBelow-trans a b [] h k = tt
  IsBelow-trans a b (x ∷ xs) h (k, ks) = (trans a b x h k, IsBelow-trans a b xs h ks)

  irreflexive : (a : Item) → less a a ≡ false
  irreflexive a = elim (Bool-cases (less a a)) [ inl q ↦ asym a a q | inr q ↦ q ]

  not_less_than : (x y : Item) → (less y x && not (less x y)) ≡ false → less y x ≡ false
  not_less_than x y h = elim (Bool-cases (less y x)) [
    | inl q ↦ ground (arith, h, q, asym y x q)
    | inr q ↦ q
  ]

  IsBelow-sort_insert :
      (z x : Item) (xs : List Item)
      → less x z ≡ false
      → IsBelow z xs
      → IsBelow z (sort_insert less x xs)
  unfolding sort_insert
  IsBelow-sort_insert z x [] h k = (h, tt)
  IsBelow-sort_insert z x (y ∷ ys) h (k, ks) = elim (Bool-cases (less y x)) [
    | inl q ↦ rw q (k, IsBelow-sort_insert z x ys h ks)
    | inr q ↦ rw q (h, (k, ks))
  ]

  IsSorted-sort_insert :
      (x : Item) (xs : List Item) → IsSorted xs → IsSorted (sort_insert less x xs)
  unfolding sort_insert
  IsSorted-sort_insert x [] h = (tt, tt)
  IsSorted-sort_insert x (y ∷ ys) (h, hs) = elim (Bool-cases (less y x)) [
    | inl q ↦ rw q (IsBelow-sort_insert y x ys (asym y x q) h, IsSorted-sort_insert x ys hs)
    | inr q ↦ rw q ((q, IsBelow-trans x y ys q h), (h, hs))
  ]

  IsSorted-sort_stable : (xs : List Item) → IsSorted (sort_stable less xs)
  unfolding sort_stable
  IsSorted-sort_stable [] = tt
  IsSorted-sort_stable (x ∷ xs) =
      IsSorted-sort_insert x (sort_stable less xs) (IsSorted-sort_stable xs)

  IsSorted-with_page :
      (s : OriginCursor Item) (page : Option (OriginPage Item))
      → IsSorted (with_page less s page).buffered
  unfolding with_page
  IsSorted-with_page s none = IsSorted-sort_stable s.buffered
  IsSorted-with_page s (some page) = IsSorted-sort_stable (s.buffered ++ page.items)

  AreSorted : List (OriginCursor Item) → Type 0
  AreSorted [] = Unit
  AreSorted (o ∷ os) = IsSorted o.buffered × AreSorted os

  AreSorted-with_pages :
      (pages : List (OriginPage Item)) (os : List (OriginCursor Item))
      → AreSorted (with_pages less pages os)
  unfolding with_pages AreSorted
  AreSorted-with_pages pages [] = tt
  AreSorted-with_pages pages (o ∷ os) =
      (IsSorted-with_page o (page_for (key_of o.origin) pages), AreSorted-with_pages pages os)

  module _ (allowed : Option (Key → Bool)) where
    -- No item that may be shown and waits is less than an item.
    pub IsBelowAt : Bool → Item → List Item → Type 0
    IsBelowAt true x ys = IsBelow x ys
    IsBelowAt false x ys = Unit

    pub IsBelowAll : Item → List (OriginCursor Item) → Type 0
    unfolding IsBelowAt
    IsBelowAll x [] = Unit
    IsBelowAll x (o ∷ os) = IsBelowAt (is_allowed allowed o) x o.buffered × IsBelowAll x os

    IsBelowAt-trans :
        (b : Bool) (x y : Item) (ys : List Item)
        → less y x ≡ false
        → IsBelowAt b y ys
        → IsBelowAt b x ys
    unfolding IsBelowAt
    IsBelowAt-trans true x y ys h k = IsBelow-trans x y ys h k
    IsBelowAt-trans false x y ys h k = tt

    IsBelowAll-trans :
        (x y : Item) (os : List (OriginCursor Item))
        → less y x ≡ false
        → IsBelowAll y os
        → IsBelowAll x os
    unfolding IsBelowAll
    IsBelowAll-trans x y [] h k = tt
    IsBelowAll-trans x y (o ∷ os) h (k, ks) =
        (IsBelowAt-trans (is_allowed allowed o) x y o.buffered h k, IsBelowAll-trans x y os h ks)

    -- A IsPopped item is below all that waited, and what is below all that waited is below it and below
    -- what is left.
    IsLeast : List (OriginCursor Item) → Option (Item × List (OriginCursor Item)) → Type ℓ
    IsLeast os none = (z : Item) → IsBelowAll z os
    IsLeast os (some (x, rest)) =
        IsBelowAll x os
        × AreSorted rest
        × ((z : Item) → IsBelowAll z os → (less x z ≡ false) × IsBelowAll z rest)

    IsBelowAt-head :
        (b : Bool) (x z : Item) (xs ys : List Item)
        → b ≡ true
        → ys ≡ x ∷ xs
        → IsSorted ys
        → IsBelowAt b x ys
          × (IsBelowAt b z ys → (less x z ≡ false) × IsBelowAt b z xs)
          × IsSorted xs
    unfolding IsBelowAt
    IsBelowAt-head true x z xs ys h k s =
        subst
          (λ us.
            IsSorted us
            → IsBelow x us × (IsBelow z us → (less x z ≡ false) × IsBelow z xs) × IsSorted xs)
          (sym k) (λ t. ((irreflexive x, t.0), λ b. b, t.1)) s
    IsBelowAt-head false x z xs ys h k s = cc

    IsBelowAt-none :
        (b : Bool) (z : Item) (ys : List Item) → head_when b ys ≡ none → IsBelowAt b z ys
    unfolding IsBelowAt head_when
    IsBelowAt-none true z [] h = tt
    IsBelowAt-none true z (y ∷ ys) h = cc
    IsBelowAt-none false z ys h = tt

    IsLeast-earlier :
        (o : OriginCursor Item) (os : List (OriginCursor Item)) (x : Item) (xs : List Item)
        → head_when (is_allowed allowed o) o.buffered ≡ some (x, xs)
        → IsSorted o.buffered
        → AreSorted os
        → IsBelowAll x os
        → IsLeast (o ∷ os) (some (x, record o { buffered = xs } ∷ os))
    unfolding IsLeast IsBelowAll AreSorted
    IsLeast-earlier o os x xs h s ss below =
        let head = head_when-list (is_allowed allowed o) o.buffered x xs h in
        let here = IsBelowAt-head (is_allowed allowed o) x x xs o.buffered head.0 head.1 s in
        (
          (here.0, below),
          (here.2, ss),
          λ z b.
              let there = IsBelowAt-head (is_allowed allowed o) x z xs o.buffered head.0 head.1 s in
              let low = there.1 b.0 in
              (
                low.0,
                (subst (λ c. IsBelowAt c z xs) (sym (is_allowed-buffered allowed o xs)) low.1, b.1),
              ),
        )

    IsLeast-later :
        (o : OriginCursor Item) (os : List (OriginCursor Item)) (y : Item)
        (rest : List (OriginCursor Item))
        → IsBelowAt (is_allowed allowed o) y o.buffered
        → IsSorted o.buffered
        → IsLeast os (some (y, rest))
        → IsLeast (o ∷ os) (some (y, o ∷ rest))
    unfolding IsLeast IsBelowAll AreSorted
    IsLeast-later o os y rest h s (below, sorted, low) =
        ((h, below), (s, sorted), λ z b. let there = low z b.1 in (there.0, (b.0, there.1)))

    IsLeast-choose :
        (o : OriginCursor Item) (os : List (OriginCursor Item)) (head : Option (Item × List Item))
        (later : Option (Item × List (OriginCursor Item)))
        → head_when (is_allowed allowed o) o.buffered ≡ head
        → IsSorted o.buffered
        → AreSorted os
        → IsLeast os later
        → IsLeast (o ∷ os) (choose less o os head later)
    unfolding choose IsLeast IsBelowAll
    IsLeast-choose o os none none h s ss l =
        λ z. (IsBelowAt-none (is_allowed allowed o) z o.buffered h, l z)
    IsLeast-choose o os none (some (y, rest)) h s ss l =
        IsLeast-later o os y rest (IsBelowAt-none (is_allowed allowed o) y o.buffered h) s l
    IsLeast-choose o os (some (x, xs)) none h s ss l = IsLeast-earlier o os x xs h s ss (l x)
    IsLeast-choose o os (some (x, xs)) (some (y, rest)) h s ss l =
        let head = head_when-list (is_allowed allowed o) o.buffered x xs h in
        let here = IsBelowAt-head (is_allowed allowed o) x x xs o.buffered head.0 head.1 s in
        elim (Bool-cases (less y x && not (less x y))) [
          | inl q ↦
              let not_less : less x y ≡ false = ground (arith, q) in
              rw q (
                IsLeast-later o os y rest
                  (IsBelowAt-trans (is_allowed allowed o) y x o.buffered not_less here.0) s l)
          | inr q ↦
              let not_less = not_less_than x y q in
              rw q (IsLeast-earlier o os x xs h s ss (IsBelowAll-trans x y os not_less l.0))
        ]

    IsLeast-pop_least :
        (os : List (OriginCursor Item)) → AreSorted os → IsLeast os (pop_least less allowed os)
    unfolding pop_least head_of IsLeast IsBelowAll AreSorted
    IsLeast-pop_least [] s = λ z. tt
    IsLeast-pop_least (o ∷ os) (s, ss) =
        IsLeast-choose o os (head_when (is_allowed allowed o) o.buffered)
          (pop_least less allowed os) refl s ss (IsLeast-pop_least os ss)

    -- A page is sorted, its items are below what is left to show, and what is below all that waited is
    -- below them and below what is left.
    AreAbove : List Item → List (OriginCursor Item) → Type 0
    AreAbove items rest = All (λ x. IsBelowAll x rest) items

    IsPage : List (OriginCursor Item) → List Item × List (OriginCursor Item) → Type ℓ
    IsPage os out =
        IsSorted out.0
        × AreAbove out.0 out.1
        × ((z : Item) → IsBelowAll z os → IsBelow z out.0 × IsBelowAll z out.1)

    IsPage-emit_after :
        (os : List (OriginCursor Item)) (least : Option (Item × List (OriginCursor Item)))
        (more : List (OriginCursor Item) → List Item × List (OriginCursor Item))
        → ((rest : List (OriginCursor Item)) → AreSorted rest → IsPage rest (more rest))
        → IsLeast os least
        → IsPage os (emit_after less os least more)
    unfolding emit_after IsLeast IsPage AreAbove
    IsPage-emit_after os none more h l = (tt, tt, λ z b. (tt, b))
    IsPage-emit_after os (some (x, rest)) more h l =
        let page = h rest l.1 in
        let first = page.2 x (l.2 x l.0).1 in
        (
          (first.0, page.0),
          (first.1, page.1),
          λ z b. let low = l.2 z b in let later = page.2 z low.1 in ((low.0, later.0), later.1),
        )

    IsPage-emit :
        (n : ℕ) (os : List (OriginCursor Item)) → AreSorted os → IsPage os (emit less n allowed os)
    unfolding emit IsPage AreAbove
    IsPage-emit zero os s = (tt, tt, λ z b. (tt, b))
    IsPage-emit (suc n) os s =
        IsPage-emit_after os (pop_least less allowed os) (λ rest. emit less n allowed rest)
          (λ rest t. IsPage-emit n rest t) (IsLeast-pop_least os s)

    -- A page is sorted, and no item that waits behind it in an origin that may be shown is less than one
    -- of its items. The comparator is a strict weak order.
    pub merge-IsSorted :
        (current next : CompositeCursor Item) (pages : List (OriginPage Item)) (limit : ℕ)
        (items : List Item)
        → merge_authorized_origin_pages less current pages limit allowed ≡ ok (items, next)
        → IsSorted items × All (λ x. IsBelowAll x next.origins) items
    unfolding IsPage AreAbove
    merge-IsSorted current next pages limit items h =
        let out = merge-emit less current next pages limit allowed items h in
        let page =
          IsPage-emit limit (with_pages less pages current.origins)
            (AreSorted-with_pages pages current.origins) in
        rw (out.0, out.1) (page.0, page.1)
