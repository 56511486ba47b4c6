-- ===== src/Resources/Watch/Snapshots/Levels.antt =====
-- What a snapshot of internal/services/resources/watch.go holds after an event, and its limits.
use kubepeep.Base.{
  sym, ◌∙◌, ℕ, ◌≡◌, refl, true, false, Option, none, some, List, [], ◌∷◌, arith, if◌then◌else◌,
  same_text, same_text_iff, Bool-cases, inl, inr,
}
use kubepeep.Resources.Cache.Subscription.{WatchSnapshot}
use kubepeep.Resources.Watch.{
  Topic, TopicObject, ResourceRef, EventKind, added, modified, deleted, StreamEvent, Encoding,
  Identity, topic_object_identity, changed_key,
}
use kubepeep.Resources.Watch.Snapshots.{
  find, put_item, remove_item, apply_items, apply_stream_event_to_snapshot,
}

same_text_trans : (a j k : List ℕ) → same_text a j ≡ true → same_text a k ≡ same_text j k
same_text_trans a j k q = rw ((same_text_iff a j).0 q) refl

same_text_apart :
    (a j k : List ℕ) → same_text a j ≡ false → same_text a k ≡ true → same_text j k ≡ false
same_text_apart a j k q r = elim (Bool-cases (same_text j k)) [
  | inl t ↦
      let u = (same_text_iff a k).0 r in
      let v = (same_text_iff j k).0 t in let same = (same_text_iff a j).1 cc in cc
  | inr t ↦ t
]

same_text_sym : (a j : List ℕ) → same_text a j ≡ false → same_text j a ≡ false
same_text_sym a j q = elim (Bool-cases (same_text j a)) [
  | inl t ↦ let u = (same_text_iff j a).0 t in let same = (same_text_iff a j).1 cc in cc
  | inr t ↦ t
]

module _ {ℓ} {Details : Type ℓ} (encoding : Encoding Details) where
  -- No two objects have one identity.
  abbrev pub IsDistinct : List (TopicObject Details) → Type ℓ
  IsDistinct [] = Unit
  IsDistinct (x ∷ xs) = (find encoding (topic_object_identity encoding x) xs ≡ none) × IsDistinct xs

  pub find-put_item :
      (k j : Identity) (o : TopicObject Details) (xs : List (TopicObject Details))
      → topic_object_identity encoding o ≡ j
      → find encoding k (put_item encoding j o xs)
        ≡ (if same_text j k then some o else find encoding k xs)
  unfolding find put_item
  find-put_item k j o [] h = rw h refl
  find-put_item k j o (x ∷ xs) h =
      let id = topic_object_identity encoding x in
      elim (Bool-cases (same_text id j)) [
        | inl q ↦
            rw (q, h, same_text_trans id j k q)
              (elim (Bool-cases (same_text j k)) [ inl t ↦ rw t refl | inr t ↦ rw t refl ])
        | inr q ↦
            rw (q, find-put_item k j o xs h)
              (elim (Bool-cases (same_text id k)) [
                | inl t ↦ rw (t, same_text_apart id j k q t) refl
                | inr t ↦ rw t refl
              ])
      ]

  pub find-remove_item :
      (k j : Identity) (xs : List (TopicObject Details))
      → IsDistinct xs
      → find encoding k (remove_item encoding j xs)
        ≡ (if same_text j k then none else find encoding k xs)
  unfolding find remove_item
  find-remove_item k j [] d = ground arith
  find-remove_item k j (x ∷ xs) d =
      let id = topic_object_identity encoding x in
      elim (Bool-cases (same_text id j)) [
        | inl q ↦
            rw (q, same_text_trans id j k q)
              (elim (Bool-cases (same_text j k)) [
                | inl t ↦
                    let u = (same_text_iff id j).0 q in
                    let v = (same_text_iff j k).0 t in
                    let absent = d.0 in rw (t, sym v, sym u) absent
                | inr t ↦ rw t refl
              ])
        | inr q ↦
            rw (q, find-remove_item k j xs d.1)
              (elim (Bool-cases (same_text id k)) [
                | inl t ↦ rw (t, same_text_apart id j k q t) refl
                | inr t ↦ rw t refl
              ])
      ]

  IsDistinct-put_item :
      (j : Identity) (o : TopicObject Details) (xs : List (TopicObject Details))
      → topic_object_identity encoding o ≡ j
      → IsDistinct xs
      → IsDistinct (put_item encoding j o xs)
  unfolding find put_item
  IsDistinct-put_item j o [] h d = (refl, tt)
  IsDistinct-put_item j o (x ∷ xs) h d =
      let id = topic_object_identity encoding x in
      let rest = IsDistinct-put_item j o xs h d.1 in
      let absent = find-put_item id j o xs h in
      let old = d.0 in
      elim (Bool-cases (same_text id j)) [
        | inl q ↦ let u = (same_text_iff id j).0 q in rw q (rw (h ∙ sym u) old, d.1)
        | inr q ↦ rw q (rw (absent, same_text_sym id j q) old, rest)
      ]

  IsDistinct-remove_item :
      (j : Identity) (xs : List (TopicObject Details))
      → IsDistinct xs
      → IsDistinct (remove_item encoding j xs)
  unfolding find remove_item
  IsDistinct-remove_item j [] d = tt
  IsDistinct-remove_item j (x ∷ xs) d =
      let id = topic_object_identity encoding x in
      let rest = IsDistinct-remove_item j xs d.1 in
      let absent = find-remove_item id j xs d.1 in
      let old = d.0 in
      elim (Bool-cases (same_text id j)) [
        | inl q ↦ rw q d.1
        | inr q ↦ rw q (rw (absent, same_text_sym id j q) old, rest)
      ]

  -- What is kept under an identity after an event, from what was kept under it before.
  abbrev pub kept_after :
      EventKind
      → Option (TopicObject Details)
      → Option Identity
      → Identity
      → Option (TopicObject Details)
      → Option (TopicObject Details)
  kept_after added (some o) (some j) k old = if same_text j k then some o else old
  kept_after modified (some o) (some j) k old = if same_text j k then some o else old
  kept_after deleted object (some j) k old = if same_text j k then none else old
  kept_after _ object key k old = old

  find-apply_items :
      (topic : Topic) (kind : EventKind) (object : Option (TopicObject Details))
      (ref : Option ResourceRef) (k : Identity) (xs : List (TopicObject Details))
      → IsDistinct xs
      → let key = changed_key encoding topic kind object ref in
        (find encoding k (apply_items encoding kind object key xs)
          ≡ kept_after kind object key k (find encoding k xs))
        × IsDistinct (apply_items encoding kind object key xs)
  unfolding apply_items changed_key
  find-apply_items topic added (some o) ref k xs d =
      (find-put_item k _ o xs refl, IsDistinct-put_item _ o xs refl d)
  find-apply_items topic modified (some o) ref k xs d =
      (find-put_item k _ o xs refl, IsDistinct-put_item _ o xs refl d)
  find-apply_items topic deleted object (some ref) k xs d =
      (find-remove_item k _ xs d, IsDistinct-remove_item _ xs d)
  find-apply_items topic kind object ref k xs d = (refl, d)

  -- A snapshot that holds one object for an identity still does after any event, and it keeps for each
  -- identity what an index by identity would: the object of the event for the identity that an
  -- `added` or a `modified` event is about, nothing for the one that a `deleted` event is about, and
  -- what it kept before for each other.
  pub find-apply_stream_event :
      (topic : Topic) (k : Identity) (s : WatchSnapshot (TopicObject Details))
      (e : StreamEvent Details)
      → IsDistinct s.items
      → let next = apply_stream_event_to_snapshot encoding topic s e in
        (find encoding k next.items
          ≡ kept_after e.kind e.object
              (changed_key encoding topic e.kind e.object e.deleted_ref)
              k
              (find encoding k s.items))
        × IsDistinct next.items
  unfolding apply_stream_event_to_snapshot
  find-apply_stream_event topic k s e d =
      find-apply_items topic e.kind e.object e.deleted_ref k s.items d
