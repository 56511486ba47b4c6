-- ===== src/Resources/Listing.antt =====
-- internal/services/resources/cursor.go and the shared parts of pagination.go: the cursor of a list
-- over several origins, what a page of one origin does to it, and the merge that emits the next page.
pub mod Conservation
pub mod Order
pub mod Sums
pub mod Traversal
pub mod Windows
mod Tests
use kubepeep.Base.{
  ℕ, zero, suc, ◌+◌, ◌*◌, String, str_eq, Bool, true, false, not, ◌&&◌, ◌||◌, Option, none, some,
  List, [], ◌∷◌, ◌++◌, map, ltb, ◌==◌, if◌then◌else◌, length, len, codes, same_text,
}

abbrev pub maximum_list_limit : ℕ
maximum_list_limit = 500

abbrev pub maximum_cursor_bytes : ℕ
maximum_cursor_bytes = 16 * 1024

pub record Origin : Type 0 where
  pub namespace : String
  pub api_group : String
  pub version : String
  pub resource : String

pub record OriginPage {ℓ} (Item : Type ℓ) : Type ℓ where
  pub origin : Origin
  pub items : List Item
  pub continue : String
  pub resource_version : String

pub record OriginCursor {ℓ} (Item : Type ℓ) : Type ℓ where
  pub origin : Origin
  pub continue : String
  pub resource_version : String
  pub exhausted : Bool
  pub buffered : List Item

pub record CompositeCursor {ℓ} (Item : Type ℓ) : Type ℓ where
  pub version : ℕ
  pub origins : List (OriginCursor Item)

pub data CursorError : Type 0 where
  unsupported_version other_origins incomplete_origin token_too_large exhausted_with_token :
      CursorError
  invalid_merge duplicate_page other_page no_progress : CursorError

pub data Result {ℓ} (A : Type ℓ) : Type ℓ where
  ok : A → Result A
  err : CursorError → Result A

abbrev pub Key : Type 0
Key = List ℕ

-- `Origin.Key`.
unfoldable pub key_of : Origin → Key
key_of o =
    codes o.api_group
    ++ (47 ∷ codes o.version)
    ++ (47 ∷ codes o.resource)
    ++ (47 ∷ codes o.namespace)

-- The order of Go's strings.
text_before : Key → Key → Bool
text_before [] [] = false
text_before [] (d ∷ t) = true
text_before (c ∷ s) [] = false
text_before (c ∷ s) (d ∷ t) = let rest = text_before s t in if c == d then rest else ltb c d

contains_key : Key → List Key → Bool
contains_key k [] = false
contains_key k (j ∷ js) = same_text k j || contains_key k js

module _ {ℓ} {A : Type ℓ} (less : A → A → Bool) where
  -- `sort.SliceStable`: an item stands before those that are not less than it and came after it.
  pub sort_insert : A → List A → List A
  sort_insert x [] = x ∷ []
  sort_insert x (y ∷ ys) =
      let later = y ∷ sort_insert x ys in if less y x then later else x ∷ y ∷ ys

  pub sort_stable : List A → List A
  unfolding sort_insert
  sort_stable [] = []
  sort_stable (x ∷ xs) = sort_insert x (sort_stable xs)

pub canonical_origins : List Origin → List Origin
unfolding sort_stable key_of text_before
canonical_origins origins = sort_stable (λ a b. text_before (key_of a) (key_of b)) origins

module _ {ℓ} {Item : Type ℓ} where
  pub fresh_cursor : Origin → OriginCursor Item
  fresh_cursor o = record {
    origin = o;
    continue = "";
    resource_version = "";
    exhausted = false;
    buffered = [];
  }

  pub new_composite_cursor : List Origin → CompositeCursor Item
  unfolding canonical_origins fresh_cursor
  new_composite_cursor origins = record {
    version = 1;
    origins = map fresh_cursor (canonical_origins origins);
  }

  -- The loop over the origins beside the expected ones, with the keys that were met.
  validate_loop : List Key → List (OriginCursor Item) → List Origin → Option CursorError
  unfolding contains_key key_of
  validate_loop seen (s ∷ ss) (o ∷ os) =
      let key = key_of s.origin in
      let rest = validate_loop (key ∷ seen) ss os in
      if str_eq s.origin.version "" || str_eq s.origin.resource ""
      then some incomplete_origin
      else if contains_key key seen || not (same_text key (key_of o))
      then some other_origins
      else if ltb maximum_cursor_bytes (len s.continue)
      then some token_too_large
      else if s.exhausted && not (str_eq s.continue "")
      then some exhausted_with_token
      else rest
  validate_loop seen _ _ = none

  -- `CompositeCursor.Validate`: none where the cursor is valid.
  pub validate : CompositeCursor Item → List Origin → Option CursorError
  unfolding validate_loop canonical_origins
  validate c expected =
      if not (c.version == 1)
      then some unsupported_version
      else if length c.origins == 0 || not (length c.origins == length expected)
      then some other_origins
      else validate_loop [] c.origins (canonical_origins expected)

  is_complete_origin : OriginCursor Item → Bool
  is_complete_origin o = o.exhausted && length o.buffered == 0

  unfoldable pub complete_origins : List (OriginCursor Item) → Bool
  unfolding is_complete_origin
  complete_origins [] = true
  complete_origins (o ∷ os) = is_complete_origin o && complete_origins os

  -- `CompositeCursor.Complete`.
  unfoldable pub complete : CompositeCursor Item → Bool
  unfolding complete_origins
  complete c = complete_origins c.origins

  pub page_for : Key → List (OriginPage Item) → Option (OriginPage Item)
  unfolding key_of
  page_for k [] = none
  page_for k (p ∷ ps) = if same_text (key_of p.origin) k then some p else page_for k ps

  has_duplicate_page : List Key → List (OriginPage Item) → Bool
  unfolding contains_key key_of
  has_duplicate_page seen [] = false
  has_duplicate_page seen (p ∷ ps) =
      contains_key (key_of p.origin) seen || has_duplicate_page (key_of p.origin ∷ seen) ps

  -- The map of the origins that may be shown; without one, all may.
  pub is_allowed : Option (Key → Bool) → OriginCursor Item → Bool
  unfolding key_of
  is_allowed none o = true
  is_allowed (some allowed) o = allowed (key_of o.origin)

  pub head_when : Bool → List Item → Option (Item × List Item)
  head_when b [] = none
  head_when b (x ∷ xs) = if b then some (x, xs) else none

  pub head_of : Option (Key → Bool) → OriginCursor Item → Option (Item × List Item)
  unfolding is_allowed head_when
  head_of allowed o = head_when (is_allowed allowed o) o.buffered

module _ {ℓ} {Item : Type ℓ} (less : Item → Item → Bool) where
  pub with_page : OriginCursor Item → Option (OriginPage Item) → OriginCursor Item
  unfolding sort_stable
  with_page s none = record s { buffered = sort_stable less s.buffered }
  with_page s (some p) = record s {
    continue = p.continue;
    resource_version = p.resource_version;
    exhausted = str_eq p.continue "";
    buffered = sort_stable less (s.buffered ++ p.items);
  }

  pub with_pages : List (OriginPage Item) → List (OriginCursor Item) → List (OriginCursor Item)
  unfolding with_page page_for key_of
  with_pages pages [] = []
  with_pages pages (s ∷ ss) = with_page s (page_for (key_of s.origin) pages) ∷ with_pages pages ss

  -- The choice between the head of an origin and the least head of the later ones: the earlier origin
  -- wins a tie, as in `originMergeHeap.Less`.
  pub choose :
      OriginCursor Item
      → List (OriginCursor Item)
      → Option (Item × List Item)
      → Option (Item × List (OriginCursor Item))
      → Option (Item × List (OriginCursor Item))
  choose o os none none = none
  choose o os none (some (y, rest)) = some (y, o ∷ rest)
  choose o os (some (x, xs)) none = some (x, record o { buffered = xs } ∷ os)
  choose o os (some (x, xs)) (some (y, rest)) =
      if less y x && not (less x y)
      then some (y, o ∷ rest)
      else some (x, record o { buffered = xs } ∷ os)

  -- `heap.Pop` on the heads of the origins that may be shown, and the push of what the origin has left.
  pub pop_least :
      Option (Key → Bool) → List (OriginCursor Item) → Option (Item × List (OriginCursor Item))
  unfolding choose head_of
  pop_least allowed [] = none
  pop_least allowed (o ∷ os) = choose o os (head_of allowed o) (pop_least allowed os)

  -- The item that was popped, before those of the rest of the loop.
  pub emit_after :
      List (OriginCursor Item)
      → Option (Item × List (OriginCursor Item))
      → (List (OriginCursor Item) → List Item × List (OriginCursor Item))
      → List Item × List (OriginCursor Item)
  emit_after os none more = ([], os)
  emit_after os (some (x, rest)) more = (x ∷ (more rest).0, (more rest).1)

  -- The loop that fills a page.
  pub emit :
      ℕ → Option (Key → Bool) → List (OriginCursor Item) → List Item × List (OriginCursor Item)
  unfolding pop_least emit_after
  emit zero allowed os = ([], os)
  emit (suc n) allowed os = emit_after os (pop_least allowed os) (λ rest. emit n allowed rest)

  -- `mergeAuthorizedOriginPages`, whose comparator is there.
  unfoldable pub merge_authorized_origin_pages :
      CompositeCursor Item
      → List (OriginPage Item)
      → ℕ
      → Option (Key → Bool)
      → Result (List Item × CompositeCursor Item)
  unfolding has_duplicate_page with_pages emit
  merge_authorized_origin_pages current pages limit allowed =
      let out = emit limit allowed (with_pages pages current.origins) in
      if ltb limit 1 || ltb maximum_list_limit limit
      then err invalid_merge
      else if has_duplicate_page [] pages
      then err duplicate_page
      else ok (out.0, record current { origins = out.1 })

  -- `applyOriginPage`, whose comparator is there.
  pub apply_origin_page : OriginCursor Item → OriginPage Item → Result (OriginCursor Item)
  unfolding with_page key_of
  apply_origin_page s page =
      if not (same_text (key_of s.origin) (key_of page.origin))
      then err other_page
      else if not (str_eq page.continue "") && str_eq page.continue s.continue
      then err no_progress
      else ok (with_page s (some page))
