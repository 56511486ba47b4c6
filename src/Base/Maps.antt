-- ===== src/Base/Maps.antt =====
-- Go maps with text keys, as association lists. The order of the list stands for the order in which
-- a `range` over the map visits it, which Go leaves open: the theorems hold for every order.
use Prim.Native.Nat.{ℕ, ◌+◌, ◌≤◌}
use Prim.Native.String.{String}
use mathlib.Core.Path.{◌≡◌, refl}
use mathlib.Core.Logic.{◌≢◌}
use mathlib.Core.Option.{Option, none, some}
use mathlib.Core.List.{List, [], ◌∷◌}
use native.Mathlib.Omega.{arith}
use text.Mathlib.Text.{◌==◌ as str_eq}
use text.Mathlib.TextEquality.{eq_iff}
use kubepeep.Base.Tests.{if◌then◌else◌}
use kubepeep.Base.Lists.{length}

abbrev pub Dict {ℓ} : Type ℓ → Type ℓ
Dict V = List (String × V)

module _ {ℓ} {V : Type ℓ} where
  -- `entries[key]`, where a missing key is `none`.
  unfoldable pub lookup : String → Dict V → Option V
  lookup key [] = none
  lookup key ((head, value) ∷ rest) =
      let later = lookup key rest in if str_eq head key then some value else later

  -- `entries[key] = value`.
  unfoldable pub insert : String → V → Dict V → Dict V
  insert key value [] = (key, value) ∷ []
  insert key value ((head, old) ∷ rest) =
      let later = (head, old) ∷ insert key value rest in
      if str_eq head key then (head, value) ∷ rest else later

  -- `delete(m, k)`; a key stands at most once in a map.
  unfoldable pub delete : String → Dict V → Dict V
  delete k [] = []
  delete k ((j, w) ∷ m) = if str_eq j k then m else (j, w) ∷ delete k m

  -- No key stands twice.
  abbrev pub IsDistinct : Dict V → Type ℓ
  IsDistinct [] = Unit
  IsDistinct ((j, w) ∷ m) = (lookup j m ≡ none) × IsDistinct m

  -- The sum of a size over the values, and its share at one key.
  abbrev pub total : (V → ℕ) → Dict V → ℕ
  total f [] = 0
  total f ((j, w) ∷ m) = f w + total f m

  abbrev pub size_or_zero : (V → ℕ) → Option V → ℕ
  size_or_zero f none = 0
  size_or_zero f (some v) = f v

module _ {ℓ} {V : Type ℓ} where
  pub lookup-insert :
      (key other : String) (value : V) (rest : Dict V)
      → lookup other (insert key value rest)
        ≡ (if str_eq key other then some value else lookup other rest)
  unfolding lookup insert
  lookup-insert key other value [] = refl
  lookup-insert key other value ((head, old) ∷ rest) =
      let later = lookup-insert key other value rest in
      ground (arith, later, eq_iff head other, eq_iff head key, eq_iff key other)

  pub lookup-insert_self : (k : String) (v : V) (m : Dict V) → lookup k (insert k v m) ≡ some v
  lookup-insert_self k v m = ground (arith, lookup-insert k k v m, eq_iff k k)

  pub lookup-insert_ne :
      (k j : String) (v : V) (m : Dict V) → k ≢ j → lookup j (insert k v m) ≡ lookup j m
  lookup-insert_ne k j v m h = ground (arith, lookup-insert k j v m, eq_iff k j)

  pub lookup-delete_ne : (k j : String) (m : Dict V) → k ≢ j → lookup j (delete k m) ≡ lookup j m
  unfolding lookup delete
  lookup-delete_ne k j [] h = refl
  lookup-delete_ne k j ((i, w) ∷ m) h =
      ground (arith, eq_iff k j, eq_iff i k, eq_iff i j, lookup-delete_ne k j m h)

  pub lookup-delete_self : (k : String) (m : Dict V) → IsDistinct m → lookup k (delete k m) ≡ none
  unfolding lookup delete
  lookup-delete_self k [] d = refl
  lookup-delete_self k ((i, w) ∷ m) d = ground (arith, eq_iff i k, lookup-delete_self k m d.1)

  pub insert-IsDistinct :
      (k : String) (v : V) (m : Dict V) → IsDistinct m → IsDistinct (insert k v m)
  unfolding lookup insert
  insert-IsDistinct k v [] d = (refl, tt)
  insert-IsDistinct k v ((i, w) ∷ m) d =
      ground (arith, eq_iff i k, eq_iff k i, insert-IsDistinct k v m d.1, lookup-insert_ne k i v m)

  pub lookup-delete_missing :
      (k j : String) (m : Dict V) → lookup j m ≡ none → lookup j (delete k m) ≡ none
  unfolding lookup delete
  lookup-delete_missing k j [] h = refl
  lookup-delete_missing k j ((i, w) ∷ m) h =
      ground (arith, eq_iff i k, eq_iff i j, lookup-delete_missing k j m)

  pub delete-IsDistinct : (k : String) (m : Dict V) → IsDistinct m → IsDistinct (delete k m)
  unfolding lookup delete
  delete-IsDistinct k [] d = tt
  delete-IsDistinct k ((i, w) ∷ m) d =
      ground (arith, eq_iff i k, delete-IsDistinct k m d.1, lookup-delete_missing k i m d.0)

  pub total-insert :
      (f : V → ℕ) (k : String) (v : V) (m : Dict V)
      → total f (insert k v m) + size_or_zero f (lookup k m) ≡ total f m + f v
  unfolding lookup insert
  total-insert f k v [] = omega arith
  total-insert f k v ((i, w) ∷ m) = ground (arith, eq_iff i k, total-insert f k v m)

  pub total-delete :
      (f : V → ℕ) (k : String) (m : Dict V)
      → total f (delete k m) + size_or_zero f (lookup k m) ≡ total f m
  unfolding lookup delete
  total-delete f k [] = omega arith
  total-delete f k ((i, w) ∷ m) = ground (arith, eq_iff i k, total-delete f k m)

  pub length-total : (m : Dict V) → length m ≡ total (λ _. 1) m
  length-total [] = refl
  length-total ((i, w) ∷ m) = omega (arith, length-total m)

  pub size-le-total :
      (f : V → ℕ) (k : String) (m : Dict V) → size_or_zero f (lookup k m) ≤ total f m
  size-le-total f k m = omega (arith, total-delete f k m)
