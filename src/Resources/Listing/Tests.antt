-- ===== src/Resources/Listing/Tests.antt =====
-- The merge of internal/services/resources/cursor.go on concrete cursors of numbers.
use kubepeep.Base.{
  Bool-cases, inl, inr, ℕ, ◌+◌, ◌≡◌, refl, String, str_eq, Bool, true, false, get_elem?, Option,
  none, some, List, [], ◌∷◌, arith, if◌then◌else◌, ltb, ◌==◌, All, same_text,
}
use kubepeep.Resources.Listing.{
  Origin, OriginCursor, CompositeCursor, ok, Key, key_of, merge_authorized_origin_pages, complete,
}
use kubepeep.Resources.Listing.Conservation.{count, waiting, arriving, merge-conserves}
use kubepeep.Resources.Listing.Order.{IsSorted, IsBelowAll, merge-IsSorted}
use kubepeep.Resources.Listing.Sums.{sum_of, withheld, merge-withholds}
use kubepeep.Resources.Listing.Windows.{decision_allowed, decision_denied, Request, next}
use kubepeep.Resources.Listing.Windows.Denials.{scan_of, is_shown, next_denied}
use kubepeep.Resources.Listing.Traversal.{
  Upstream, Move, read_page, send_page, traverse, start, IsListOf, all_of, traverse-complete,
}

abbrev pods_of : String → Origin
pods_of namespace = record {
  namespace = namespace;
  api_group = "";
  version = "v1";
  resource = "pods";
}

abbrev cursor_of : String → List ℕ → OriginCursor ℕ
cursor_of namespace items = record {
  origin = pods_of namespace;
  continue = "";
  resource_version = "1";
  exhausted = true;
  buffered = items;
}

abbrev two_namespaces : CompositeCursor ℕ
two_namespaces = record {
  version = 1;
  origins = cursor_of "a" (1 ∷ 5 ∷ []) ∷ cursor_of "b" (4 ∷ 2 ∷ []) ∷ [];
}

abbrev after_three : CompositeCursor ℕ
after_three = record { version = 1; origins = cursor_of "a" (5 ∷ []) ∷ cursor_of "b" [] ∷ [] }

three_merged :
    merge_authorized_origin_pages ltb two_namespaces [] 3 none ≡ ok (1 ∷ 2 ∷ 4 ∷ [], after_three)
unfolding merge_authorized_origin_pages
three_merged = refl

abbrev is_two : ℕ → Bool
is_two n = n == 2

merge-conserves_example :
    count is_two (1 ∷ 2 ∷ 4 ∷ []) + waiting is_two after_three.origins
    ≡ waiting is_two two_namespaces.origins + arriving is_two [] two_namespaces.origins
merge-conserves_example =
    merge-conserves ltb is_two two_namespaces after_three [] 3 none (1 ∷ 2 ∷ 4 ∷ []) three_merged

-- The second namespace is not shown.
abbrev first_shown : CompositeCursor ℕ
first_shown = record { version = 1; origins = cursor_of "a" [] ∷ cursor_of "b" (2 ∷ 4 ∷ []) ∷ [] }

abbrev only_first : Option (Key → Bool)
only_first = some (λ k. same_text k (key_of (pods_of "a")))

first_merged :
    merge_authorized_origin_pages ltb two_namespaces [] 3 only_first ≡ ok (1 ∷ 5 ∷ [], first_shown)
unfolding merge_authorized_origin_pages key_of
first_merged = refl

merge-withholds_example :
    sum_of (withheld ltb only_first is_two) first_shown.origins
    ≡ sum_of (withheld ltb only_first is_two) two_namespaces.origins
merge-withholds_example =
    merge-withholds ltb only_first is_two two_namespaces first_shown 3 (1 ∷ 5 ∷ []) first_merged

ltb_asym : (a b : ℕ) → ltb a b ≡ true → ltb b a ≡ false
ltb_asym a b h = ground (arith, h)

ltb_trans : (a b c : ℕ) → ltb b a ≡ false → ltb c b ≡ false → ltb c a ≡ false
ltb_trans a b c h k = ground (arith, h, k)

merge-IsSorted_example :
    IsSorted ltb ltb_asym ltb_trans (1 ∷ 2 ∷ 4 ∷ [])
    × All (λ x. IsBelowAll ltb ltb_asym ltb_trans none x after_three.origins) (1 ∷ 2 ∷ 4 ∷ [])
merge-IsSorted_example =
    merge-IsSorted ltb ltb_asym ltb_trans none two_namespaces after_three [] 3 (1 ∷ 2 ∷ 4 ∷ [])
      three_merged

-- Each origin has two pages, the second behind the token "t".
abbrev two_pages : Upstream ℕ
two_pages = record {
  page = λ o token. record {
    origin = o;
    items = if str_eq token "" then 3 ∷ 1 ∷ [] else 2 ∷ [];
    continue = if str_eq token "" then "t" else "";
    resource_version = "1";
  };
}

abbrev two_pages_contents : Origin → String → List ℕ
two_pages_contents o token = if str_eq token "" then 3 ∷ 1 ∷ 2 ∷ [] else 2 ∷ []

two_pages-IsListOf :
    (o : Origin) (token : String) → IsListOf two_pages_contents ltb two_pages o token
two_pages-IsListOf o token = elim (Bool-cases (str_eq token "")) [
  | inl q ↦ rw q refl
  | inr q ↦ rw q refl
]

abbrev to_the_end : List Move
to_the_end =
    read_page 0
    ∷ send_page 1 none
    ∷ read_page 1
    ∷ read_page 0
    ∷ send_page 3 none
    ∷ read_page 1
    ∷ send_page 500 none
    ∷ []

abbrev both_namespaces : List Origin
both_namespaces = pods_of "b" ∷ pods_of "a" ∷ []

ended :
    complete (traverse ltb two_pages to_the_end (start ltb two_pages both_namespaces)).cursor ≡ true
unfolding complete traverse start
ended = refl

traverse-complete_example :
    count is_two (traverse ltb two_pages to_the_end (start ltb two_pages both_namespaces)).sent
    ≡ all_of two_pages_contents is_two both_namespaces
traverse-complete_example =
    traverse-complete two_pages_contents ltb two_pages is_two to_the_end both_namespaces
      two_pages-IsListOf ended

-- The second namespace may not be listed.
abbrev first_listed : Request ℕ
first_listed = record {
  limit = 5;
  fanout = 0;
  global_list_grant = none;
  read_through_unknown = true;
  check = λ m. λ o.
      if same_text (key_of (pods_of "b")) (key_of o) then decision_denied else decision_allowed;
  list_page = λ m. λ o. λ limit.
      λ token. (record { origin = o; items = 7 ∷ []; continue = ""; resource_version = "2" }, none);
  is_done = λ m. false;
  is_served = λ m. λ i. true;
}

abbrev unread_of : String → List ℕ → OriginCursor ℕ
unread_of namespace items = record {
  origin = pods_of namespace;
  continue = "";
  resource_version = "";
  exhausted = false;
  buffered = items;
}

abbrev two_unread : CompositeCursor ℕ
two_unread = record { version = 1; origins = unread_of "a" [] ∷ unread_of "b" (2 ∷ []) ∷ [] }

-- The first one is read.
first_read :
    get_elem? (scan_of (next ltb first_listed 2 two_unread)).origins 0
    ≡ some (record (cursor_of "a" (7 ∷ [])) { resource_version = "2" })
unfolding next key_of
first_read = refl

next_denied_example :
    let s = scan_of (next ltb first_listed 2 two_unread) in
    (get_elem? s.origins 1 ≡ some (unread_of "b" (2 ∷ [])))
    × (is_shown (s.allowed (key_of (pods_of "b"))) ≡ false)
next_denied_example =
    next_denied ltb first_listed 2 1 two_unread (unread_of "b" (2 ∷ [])) refl refl
      (λ m o e. rw e refl) (λ m o limit token e. e)
