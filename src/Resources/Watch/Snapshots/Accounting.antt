-- ===== src/Resources/Watch/Snapshots/Accounting.antt =====
-- The running byte count of a worker's snapshot in internal/services/resources/watch.go.
use kubepeep.Base.{
  ℕ, ◌+◌, ◌≤◌, ◌≡◌, refl, Option, none, some, List, [], ◌∷◌, arith, if◌then◌else◌, length, ◌==◌,
  Option-cases, inl, inr,
}
use kubepeep.Resources.Cache.Subscription.{WatchSnapshot}
use kubepeep.Resources.Watch.{
  Topic, TopicObject, ResourceRef, EventKind, added, modified, deleted, StreamEvent, Encoding,
  Identity, changed_key,
}
use kubepeep.Resources.Watch.Snapshots.{
  find, put_item, remove_item, apply_items, apply_stream_event_to_snapshot, new_bytes, size_delta,
  delta_of, snapshot_event_size_delta, shift_by,
}

module _ {ℓ} {Details : Type ℓ} (encoding : Encoding Details) where
  open encoding use {object_bytes}

  abbrev summed : List (TopicObject Details) → ℕ
  summed [] = 0
  summed (x ∷ xs) = object_bytes x + 1 + summed xs

  -- The length of a JSON array: two brackets, the objects, and a comma between any two.
  abbrev pub array_bytes : List (TopicObject Details) → ℕ
  array_bytes [] = 2
  array_bytes (x ∷ xs) = object_bytes x + 2 + summed xs

  abbrev old_bytes : Option (TopicObject Details) → ℕ
  old_bytes none = 0
  old_bytes (some o) = object_bytes o + 1

  array-summed :
      (xs : List (TopicObject Details))
      → array_bytes xs ≡ summed xs + (if length xs == 0 then 2 else 1)
  array-summed [] = refl
  array-summed (x ∷ xs) = ground arith

  put_item_bytes :
      (k : Identity) (o : TopicObject Details) (xs : List (TopicObject Details))
      → summed (put_item encoding k o xs) + old_bytes (find encoding k xs)
        ≡ summed xs + object_bytes o + 1
  unfolding put_item find
  put_item_bytes k o [] = omega arith
  put_item_bytes k o (x ∷ xs) = ground (arith, put_item_bytes k o xs)

  remove_item_bytes :
      (k : Identity) (xs : List (TopicObject Details))
      → summed (remove_item encoding k xs) + old_bytes (find encoding k xs) ≡ summed xs
  unfolding remove_item find
  remove_item_bytes k [] = omega arith
  remove_item_bytes k (x ∷ xs) = ground (arith, remove_item_bytes k xs)

  abbrev one_if : Option (TopicObject Details) → ℕ
  one_if none = 0
  one_if (some o) = 1

  length-remove_item :
      (k : Identity) (xs : List (TopicObject Details))
      → length (remove_item encoding k xs) + one_if (find encoding k xs) ≡ length xs
  unfolding remove_item find
  length-remove_item k [] = omega arith
  length-remove_item k (x ∷ xs) = ground (arith, length-remove_item k xs)

  length-put_item :
      (k : Identity) (o : TopicObject Details) (xs : List (TopicObject Details))
      → length (put_item encoding k o xs) + one_if (find encoding k xs) ≡ length xs + 1
  unfolding put_item find
  length-put_item k o [] = omega arith
  length-put_item k o (x ∷ xs) = ground (arith, length-put_item k o xs)

  find-length :
      (k : Identity) (xs : List (TopicObject Details)) → one_if (find encoding k xs) ≤ length xs
  unfolding find
  find-length k [] = omega arith
  find-length k (x ∷ xs) = ground (arith, find-length k xs)

  put_item_delta :
      (k : Identity) (o : TopicObject Details) (xs : List (TopicObject Details))
      → 1 ≤ object_bytes o
      → array_bytes (put_item encoding k o xs)
        ≡ shift_by
            (array_bytes xs)
            (size_delta encoding (object_bytes o) (length xs) (find encoding k xs))
  unfolding size_delta
  put_item_delta k o xs h = elim (Option-cases (find encoding k xs)) [
    | inl q ↦ ground (
      arith,
      q,
      array-summed xs,
      array-summed (put_item encoding k o xs),
      put_item_bytes k o xs,
      length-put_item k o xs,
      find-length k xs,
    )
    | inr (old, q) ↦ ground (
      arith,
      q,
      array-summed xs,
      array-summed (put_item encoding k o xs),
      put_item_bytes k o xs,
      length-put_item k o xs,
      find-length k xs,
    )
  ]

  remove_item_delta :
      (k : Identity) (xs : List (TopicObject Details))
      → array_bytes (remove_item encoding k xs)
        ≡ shift_by (array_bytes xs) (size_delta encoding 0 (length xs) (find encoding k xs))
  unfolding size_delta
  remove_item_delta k xs = elim (Option-cases (find encoding k xs)) [
    | inl q ↦ ground (
      arith,
      q,
      array-summed xs,
      array-summed (remove_item encoding k xs),
      remove_item_bytes k xs,
      length-remove_item k xs,
      find-length k xs,
    )
    | inr (old, q) ↦ ground (
      arith,
      q,
      array-summed xs,
      array-summed (remove_item encoding k xs),
      remove_item_bytes k xs,
      length-remove_item k xs,
      find-length k xs,
    )
  ]

  delta_of-apply_items :
      (topic : Topic) (kind : EventKind) (object : Option (TopicObject Details))
      (ref : Option ResourceRef) (xs : List (TopicObject Details))
      → ((o : TopicObject Details) → 1 ≤ object_bytes o)
      → let key = changed_key encoding topic kind object ref in
        array_bytes (apply_items encoding kind object key xs)
        ≡ shift_by (array_bytes xs) (delta_of encoding (new_bytes encoding kind object) xs key)
  unfolding apply_items delta_of new_bytes changed_key
  delta_of-apply_items topic added (some o) ref xs h = put_item_delta _ o xs (h o)
  delta_of-apply_items topic modified (some o) ref xs h = put_item_delta _ o xs (h o)
  delta_of-apply_items topic deleted object (some ref) xs h = remove_item_delta _ xs
  delta_of-apply_items topic deleted object none xs h = omega arith
  delta_of-apply_items topic kind none ref xs h = omega arith
  delta_of-apply_items topic kind (some o) ref xs h = omega arith

  -- The change of size that is worked out from the changed object alone is the change of the length of
  -- the JSON of the whole array. An object has at least one byte.
  pub apply-size_delta :
      (topic : Topic) (s : WatchSnapshot (TopicObject Details)) (e : StreamEvent Details)
      → ((o : TopicObject Details) → 1 ≤ object_bytes o)
      → array_bytes (apply_stream_event_to_snapshot encoding topic s e).items
        ≡ shift_by (array_bytes s.items) (snapshot_event_size_delta encoding topic s e)
  unfolding apply_stream_event_to_snapshot snapshot_event_size_delta
  apply-size_delta topic s e h = delta_of-apply_items topic e.kind e.object e.deleted_ref s.items h
