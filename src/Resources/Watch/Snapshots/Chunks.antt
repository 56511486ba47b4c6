-- ===== src/Resources/Watch/Snapshots/Chunks.antt =====
-- The events of a whole snapshot in internal/services/resources/watch.go: what a subscriber that
-- collects them has at the end.
use kubepeep.Base.{
  ℕ, not, ◌+◌, ◌≡◌, refl, ap, subst, String, Bool, true, false, List, [], ◌∷◌, ◌++◌, if◌then◌else◌,
  ltb, length,
}
use mathlib.Core.List.{append_assoc}
use kubepeep.Resources.Cache.Subscription.{WatchSnapshot}
use kubepeep.Resources.Watch.{Topic, TopicObject, StreamEvent, Encoding}
use kubepeep.Resources.Watch.Snapshots.{
  Result, ok, err, limit_exceeded, wrong_topic, chunk_event, then_event, chunk_loop, all_of_topic,
  snapshot_events, maximum_snapshot_items, maximum_snapshot_bytes,
}

module _ {ℓ} {Details : Type ℓ} (encoding : Encoding Details) where
  open encoding use {event_bytes}

  -- The objects of all events, in order.
  abbrev pub all_items : List (StreamEvent Details) → List (TopicObject Details)
  all_items [] = []
  all_items (e ∷ es) = e.items ++ all_items es

  -- The events are numbered from a number on, and the last alone is final.
  abbrev pub IsNumbered : ℕ → List (StreamEvent Details) → Type 0
  IsNumbered n [] = ⊥
  IsNumbered n (e ∷ []) = (e.chunk ≡ n) × (e.final ≡ true)
  IsNumbered n (e ∷ e' ∷ es) = (e.chunk ≡ n) × (e.final ≡ false) × IsNumbered (n + 1) (e' ∷ es)

  Carries : ℕ → List (TopicObject Details) → Result (List (StreamEvent Details)) → Type ℓ
  Carries n xs (err e) = Unit
  Carries n xs (ok es) = (all_items es ≡ xs) × IsNumbered n es

  Carries-then_event :
      (n : ℕ) (e : StreamEvent Details) (xs : List (TopicObject Details))
      (r : Result (List (StreamEvent Details)))
      → e.chunk ≡ n
      → e.final ≡ false
      → Carries (n + 1) xs r
      → Carries n (e.items ++ xs) (then_event encoding e r)
  unfolding then_event Carries
  Carries-then_event n e xs (err x) h k c = tt
  Carries-then_event n e xs (ok []) h k (c, d) = elim d [ ]
  Carries-then_event n e xs (ok (e' ∷ es)) h k (c, d) = (ap (λ ys. e.items ++ ys) c, (h, k, d))

  Carries-if :
      (n : ℕ) (xs : List (TopicObject Details)) (b c d : Bool)
      (r s : Result (List (StreamEvent Details)))
      → Carries n xs r
      → Carries n xs s
      → Carries n xs
          (if b then (if c then err limit_exceeded else if d then err limit_exceeded else r) else s)
  unfolding Carries
  Carries-if n xs true true d r s h k = tt
  Carries-if n xs true false true r s h k = tt
  Carries-if n xs true false false r s h k = h
  Carries-if n xs false c d r s h k = k

  Carries-last :
      (topic : Topic) (generation version : String) (n : ℕ) (chunk : List (TopicObject Details))
      → Carries n
          (chunk ++ [])
          (ok (chunk_event encoding topic generation version n chunk true ∷ []))
  unfolding Carries chunk_event
  Carries-last topic generation version n chunk = (refl, (refl, refl))

  Carries-step :
      (topic : Topic) (generation version : String) (n : ℕ) (chunk xs : List (TopicObject Details))
      (r : Result (List (StreamEvent Details)))
      → Carries (n + 1) xs r
      → Carries n
          (chunk ++ xs)
          (then_event encoding (chunk_event encoding topic generation version n chunk false) r)
  unfolding chunk_event
  Carries-step topic generation version n chunk xs r h = Carries-then_event n _ xs r refl refl h

  Carries-chunk_loop :
      (topic : Topic) (generation version : String) (n : ℕ)
      (chunk items : List (TopicObject Details))
      → Carries n (chunk ++ items) (chunk_loop encoding topic generation version n chunk items)
  unfolding chunk_loop
  Carries-chunk_loop topic generation version n chunk [] =
      Carries-last topic generation version n chunk
  Carries-chunk_loop topic generation version n chunk (item ∷ items) =
      let grown = Carries-chunk_loop topic generation version n (chunk ++ item ∷ []) items in
      let later = Carries-chunk_loop topic generation version (n + 1) (item ∷ []) items in
      Carries-if n _ _ _ _ _ _
        (Carries-step topic generation version n chunk (item ∷ items) _ later)
        (subst
          (λ xs.
            Carries n xs
              (chunk_loop encoding topic generation version n (chunk ++ item ∷ []) items))
          (append_assoc chunk (item ∷ []) items) grown)

  Carries-tests :
      (xs : List (TopicObject Details)) (a b c : Bool) (r : Result (List (StreamEvent Details)))
      → Carries 0 xs r
      → Carries 0 xs (
          if a
          then err limit_exceeded
          else if b
          then err wrong_topic
          else if c
          then err limit_exceeded
          else r)
  unfolding Carries
  Carries-tests xs true b c r h = tt
  Carries-tests xs false true c r h = tt
  Carries-tests xs false false true r h = tt
  Carries-tests xs false false false r h = h

  Carries-snapshot_events :
      (whole : ℕ) (generation : String) (topic : Topic) (s : WatchSnapshot (TopicObject Details))
      → Carries 0 s.items (snapshot_events encoding whole generation topic s)
  unfolding snapshot_events
  Carries-snapshot_events whole generation topic s =
      Carries-tests s.items (ltb maximum_snapshot_items (length s.items))
        (not (all_of_topic encoding topic s.items)) (ltb maximum_snapshot_bytes whole) _
        (Carries-chunk_loop topic generation s.resource_version 0 [] s.items)

  -- Where a snapshot is sent, the objects of its events are those of the snapshot in their order, the
  -- events are numbered from 0, and the last one and no other is final.
  pub snapshot_events-items :
      (whole : ℕ) (generation : String) (topic : Topic) (s : WatchSnapshot (TopicObject Details))
      (es : List (StreamEvent Details))
      → snapshot_events encoding whole generation topic s ≡ ok es
      → (all_items es ≡ s.items) × IsNumbered 0 es
  unfolding Carries
  snapshot_events-items whole generation topic s es h =
      subst (Carries 0 s.items) h (Carries-snapshot_events whole generation topic s)
