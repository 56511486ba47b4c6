-- ===== src/Resources/Watch/Queue/Coalescing.antt =====
-- The coalescing of events in a subscriber's queue, internal/services/resources/watch.go: what a
-- subscriber that applies the events has at the end.
use kubepeep.Base.{
  ℕ, ◌∙◌, ◌≡◌, refl, sym, ap, Bool, true, false, Option, none, some, List, [], ◌∷◌, ◌++◌, arith,
  if◌then◌else◌, ltb, ◌==◌, same_text_iff, Bool-cases, inl, inr, ◌||◌, ◌&&◌,
}
use kubepeep.Resources.Watch.{
  Topic, TopicObject, EventKind, snapshot, deleted, StreamEvent, ResourceRef, Encoding, Identity,
  same_topic, topic_pods, topic_events, topic_workloads, topic_services, topic_ingresses,
  topic_endpoint_slices, topic_config_maps, topic_pvcs, stream_event_identity, stream_key,
  changed_key,
}
use kubepeep.Resources.Watch.Snapshots.{find, maximum_stream_event_bytes}
use kubepeep.Resources.Watch.Queue.{
  QueuedEvent, Subscription, Found, found, stopped, unknown, push, find_last, find_here, search,
  replace_or_append, append_item, same_key, is_snapshot, is_about, queued, wire_bytes,
}

same_topic_eq : (s t : Topic) → same_topic s t ≡ true → s ≡ t
same_topic_eq topic_pods topic_pods h = refl
same_topic_eq topic_events topic_events h = refl
same_topic_eq topic_workloads topic_workloads h = refl
same_topic_eq topic_services topic_services h = refl
same_topic_eq topic_ingresses topic_ingresses h = refl
same_topic_eq topic_endpoint_slices topic_endpoint_slices h = refl
same_topic_eq topic_config_maps topic_config_maps h = refl
same_topic_eq topic_pvcs topic_pvcs h = refl
same_topic_eq s t h = cc

same_key_iff :
    (topic : Topic) (k : Identity) (key : Option (Topic × Identity))
    → same_key topic k key ≡ true
    → key ≡ some (topic, k)
unfolding same_key
same_key_iff topic k none h = cc
same_key_iff topic k (some (t, j)) h =
    let topics = same_topic_eq t topic (ground (arith, h)) in
    let keys = (same_text_iff j k).0 (ground (arith, h)) in cc

module _ {ℓ} {Details : Type ℓ} (encoding : Encoding Details) where
  -- What a subscriber has for an identity in a topic after an event: the latest object, or none.
  latest : EventKind → Option (TopicObject Details) → Option (TopicObject Details)
  latest deleted object = none
  latest _ object = object

  listed :
      Identity
      → ℕ
      → List (TopicObject Details)
      → Option (TopicObject Details)
      → Option (TopicObject Details)
  listed k chunk items old = elim (find encoding k items) [
    | some o ↦ some o
    | none ↦ if chunk == 0 then none else old
  ]

  pub absorb :
      Topic
      → Identity
      → Option (TopicObject Details)
      → StreamEvent Details
      → Option (TopicObject Details)
  unfolding latest listed
  absorb topic k old e =
      if same_key topic k (stream_event_identity encoding e)
      then latest e.kind e.object
      else if is_snapshot e.kind && is_about topic e.topic
      then listed k e.chunk e.items old
      else old

  pub view :
      Topic
      → Identity
      → Option (TopicObject Details)
      → List (QueuedEvent Details)
      → Option (TopicObject Details)
  unfolding absorb
  view topic k old [] = old
  view topic k old (q ∷ qs) = view topic k (absorb topic k old q.event) qs

  changed_key-none :
      (topic : Topic) (kind : EventKind) (object : Option (TopicObject Details))
      (ref : Option ResourceRef)
      → is_snapshot kind ≡ true
      → changed_key encoding topic kind object ref ≡ none
  unfolding is_snapshot changed_key
  changed_key-none topic snapshot object ref h = refl
  changed_key-none topic kind object ref h = cc

  stream_key-none :
      (topic : Option Topic) (e : StreamEvent Details)
      → is_snapshot e.kind ≡ true
      → stream_key encoding topic e ≡ none
  unfolding stream_key
  stream_key-none none e h = refl
  stream_key-none (some topic_events) e h = refl
  stream_key-none (some topic) e h =
      rw (changed_key-none topic e.kind e.object e.deleted_ref h, stream_key) refl

  not-is_snapshot :
      (e : StreamEvent Details) (topic : Topic) (x : Topic × Identity)
      → stream_event_identity encoding e ≡ some x
      → (is_snapshot e.kind && is_about topic e.topic) ≡ false
  unfolding stream_event_identity
  not-is_snapshot e topic x h = elim (Bool-cases (is_snapshot e.kind)) [
    | inl s ↦ let no_key = stream_key-none e.topic e s in cc
    | inr s ↦ rw s refl
  ]

  view-append :
      (topic : Topic) (k : Identity) (old : Option (TopicObject Details))
      (qs : List (QueuedEvent Details)) (item : QueuedEvent Details)
      → view topic k old (qs ++ item ∷ []) ≡ absorb topic k (view topic k old qs) item.event
  unfolding view
  view-append topic k old [] item = refl
  view-append topic k old (q ∷ qs) item = view-append topic k (absorb topic k old q.event) qs item

  absorb-same :
      (topic : Topic) (k : Identity) (x y : Option (TopicObject Details)) (e : StreamEvent Details)
      → same_key topic k (stream_event_identity encoding e) ≡ true
      → absorb topic k x e ≡ absorb topic k y e
  unfolding absorb
  absorb-same topic k x y e h = rw h refl

  absorb-inert :
      (topic : Topic) (k : Identity) (x : Option (TopicObject Details)) (e : StreamEvent Details)
      → same_key topic k (stream_event_identity encoding e) ≡ false
      → (is_snapshot e.kind && is_about topic e.topic) ≡ false
      → absorb topic k x e ≡ x
  unfolding absorb
  absorb-inert topic k x e h r = rw (h, r) refl

  -- What a found place in the queue means for every view, and what it means that there is none.
  IsCoalesced :
      Topic → Identity → List (QueuedEvent Details) → QueuedEvent Details → Found Details → Type ℓ
  IsCoalesced topic k qs item (found old queue) =
      (t : Topic) (j : Identity) (x : Option (TopicObject Details))
      → view t j x queue ≡ view t j x (qs ++ item ∷ [])
  IsCoalesced topic k qs item stopped = Unit
  IsCoalesced topic k qs item unknown = (x : Option (TopicObject Details)) → view topic k x qs ≡ x

  view-replace :
      (topic : Topic) (k : Identity) (q item : QueuedEvent Details)
      (qs : List (QueuedEvent Details))
      → stream_event_identity encoding item.event ≡ some (topic, k)
      → stream_event_identity encoding q.event ≡ some (topic, k)
      → ((x : Option (TopicObject Details)) → view topic k x qs ≡ x)
      → (t : Topic) (j : Identity) (x : Option (TopicObject Details))
      → view t j x (item ∷ qs) ≡ view t j x (q ∷ qs ++ item ∷ [])
  unfolding view same_key
  view-replace topic k q item qs h r inert t j x =
      let same : same_key t j (stream_event_identity encoding q.event)
          ≡ same_key t j (stream_event_identity encoding item.event) =
        ap (same_key t j) (r ∙ sym h) in
      let step = view-append t j (absorb t j x q.event) qs item in
      elim (Bool-cases (same_key t j (stream_event_identity encoding item.event))) [
        | inl b ↦
            let key = same_key_iff t j _ b in
            let topics : topic ≡ t = cc in
            let keys : k ≡ j = cc in
            let still : (y : Option (TopicObject Details)) → view t j y qs ≡ y =
              λ y. rw (sym topics, sym keys) (inert y) in
            rw
              (
                step,
                still (absorb t j x item.event),
                absorb-same t j x (view t j (absorb t j x q.event) qs) item.event b,
              )
              refl
        | inr b ↦
            let item_inert = not-is_snapshot item.event t _ h in
            let q_inert = not-is_snapshot q.event t _ r in
            rw
              (
                step,
                absorb-inert t j x item.event b item_inert,
                absorb-inert t j x q.event (same ∙ b) q_inert,
                absorb-inert t j (view t j x qs) item.event b item_inert,
              )
              refl
      ]

  IsCoalesced-if :
      (topic : Topic) (k : Identity) (q item : QueuedEvent Details)
      (qs : List (QueuedEvent Details))
      → stream_event_identity encoding item.event ≡ some (topic, k)
      → ((x : Option (TopicObject Details)) → view topic k x qs ≡ x)
      → (b c : Bool) → (is_snapshot q.event.kind && is_about topic q.event.topic) ≡ b
      → same_key topic k (stream_event_identity encoding q.event) ≡ c
      → IsCoalesced topic k
          (q ∷ qs)
          item
          (if b then stopped else if c then found q (item ∷ qs) else unknown)
  unfolding IsCoalesced view
  IsCoalesced-if topic k q item qs h inert true c r t = tt
  IsCoalesced-if topic k q item qs h inert false true r t =
      view-replace topic k q item qs h (same_key_iff topic k _ t) inert
  IsCoalesced-if topic k q item qs h inert false false r t =
      λ x. ap (λ y. view topic k y qs) (absorb-inert topic k x q.event t r) ∙ inert x

  IsCoalesced-find_here :
      (topic : Topic) (k : Identity) (q item : QueuedEvent Details)
      (qs : List (QueuedEvent Details)) (f : Found Details)
      → stream_event_identity encoding item.event ≡ some (topic, k)
      → IsCoalesced topic k qs item f
      → IsCoalesced topic k (q ∷ qs) item (find_here encoding topic k q qs item f)
  unfolding IsCoalesced find_here view
  IsCoalesced-find_here topic k q item qs (found old after) h c =
      λ t j x. c t j (absorb t j x q.event)
  IsCoalesced-find_here topic k q item qs stopped h c = tt
  IsCoalesced-find_here topic k q item qs unknown h c =
      IsCoalesced-if topic k q item qs h c _ _ refl refl

  IsCoalesced-find_last :
      (topic : Topic) (k : Identity) (qs : List (QueuedEvent Details)) (item : QueuedEvent Details)
      → stream_event_identity encoding item.event ≡ some (topic, k)
      → IsCoalesced topic k qs item (find_last encoding topic k qs item)
  unfolding find_last IsCoalesced view
  IsCoalesced-find_last topic k [] item h = λ x. refl
  IsCoalesced-find_last topic k (q ∷ qs) item h =
      IsCoalesced-find_here topic k q item qs _ h (IsCoalesced-find_last topic k qs item h)

  IsMerged : List (QueuedEvent Details) → QueuedEvent Details → Found Details → Type ℓ
  IsMerged qs item (found old queue) =
      (t : Topic) (j : Identity) (x : Option (TopicObject Details))
      → view t j x queue ≡ view t j x (qs ++ item ∷ [])
  IsMerged qs item stopped = Unit
  IsMerged qs item unknown = Unit

  IsMerged-IsCoalesced :
      (topic : Topic) (k : Identity) (qs : List (QueuedEvent Details)) (item : QueuedEvent Details)
      (f : Found Details)
      → IsCoalesced topic k qs item f
      → IsMerged qs item f
  unfolding IsCoalesced IsMerged
  IsMerged-IsCoalesced topic k qs item (found old queue) c = c
  IsMerged-IsCoalesced topic k qs item stopped c = tt
  IsMerged-IsCoalesced topic k qs item unknown c = tt

  IsMerged-search :
      (key : Option (Topic × Identity)) (qs : List (QueuedEvent Details))
      (item : QueuedEvent Details)
      → stream_event_identity encoding item.event ≡ key
      → IsMerged qs item (search encoding key qs item)
  unfolding search IsMerged
  IsMerged-search none qs item h = tt
  IsMerged-search (some (topic, k)) qs item h =
      IsMerged-IsCoalesced topic k qs item _ (IsCoalesced-find_last topic k qs item h)

  view-append_item :
      (item : QueuedEvent Details) (s : Subscription Details)
      → (append_item encoding item s).1 ≡ true
      → (append_item encoding item s).0.queue ≡ s.queue ++ item ∷ []
  unfolding append_item
  view-append_item item s h = ground (arith, h)

  view-if :
      (b : Bool) (s : Subscription Details) (r : Subscription Details × Bool) (t : Topic)
      (j : Identity) (x y : Option (TopicObject Details))
      → (if b then (s, false) else r).1 ≡ true
      → (r.1 ≡ true → view t j x r.0.queue ≡ y)
      → view t j x (if b then (s, false) else r).0.queue ≡ y
  view-if true s r t j x y h k = cc
  view-if false s r t j x y h k = k h

  view-replace_or_append :
      (item : QueuedEvent Details) (f : Found Details) (s : Subscription Details)
      → IsMerged s.queue item f
      → (replace_or_append encoding item f s).1 ≡ true
      → (t : Topic) (j : Identity) (x : Option (TopicObject Details))
      → view t j x (replace_or_append encoding item f s).0.queue ≡ view t j x (s.queue ++ item ∷ [])
  unfolding replace_or_append IsMerged
  view-replace_or_append item (found old queue) s c h t j x =
      view-if _ s _ t j x _ h (λ taken. c t j x)
  view-replace_or_append item stopped s c h t j x = ap (view t j x) (view-append_item item s h)
  view-replace_or_append item unknown s c h t j x = ap (view t j x) (view-append_item item s h)

  -- Coalescing loses nothing: where an event is taken into the queue, a subscriber that reads the queue
  -- has for each identity of each topic, from whatever it had, the same latest object as one that reads
  -- the queue from before with the event behind it.
  pub view-push :
      (e : StreamEvent Details) (s : Subscription Details)
      → (push encoding e s).1 ≡ true
      → (topic : Topic) (k : Identity) (old : Option (TopicObject Details))
      → view topic k old (push encoding e s).0.queue
        ≡ view topic k old (s.queue ++ queued encoding e ∷ [])
  unfolding push queued
  view-push e s h topic k old =
      let item = queued encoding e in
      let key = stream_event_identity encoding e in
      let f = search encoding key s.queue item in
      view-if (ltb maximum_stream_event_bytes (wire_bytes encoding e) || s.closed) s
        (replace_or_append encoding item f s) topic k old _ h
        (λ taken.
          view-replace_or_append item f s (IsMerged-search key s.queue item refl) taken topic k old)
