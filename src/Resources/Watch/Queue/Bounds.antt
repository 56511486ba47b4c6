-- ===== src/Resources/Watch/Queue/Bounds.antt =====
-- The running byte count and the limits of a subscriber's queue in internal/services/resources/watch.go.
use kubepeep.Base.{
  ℕ, ap, ◌∙◌, ◌+◌, ◌≤◌, ◌≡◌, refl, Bool, true, false, Option, none, some, List, [], ◌∷◌, ◌++◌,
  arith, if◌then◌else◌, ltb, length, length-append, Bool-cases, inl, inr, ◌||◌,
}
use kubepeep.Resources.Watch.{Topic, StreamEvent, Encoding, Identity, stream_event_identity}
use kubepeep.Resources.Watch.Queue.{
  QueuedEvent, Subscription, Found, found, stopped, unknown, next, take_first, close,
  new_subscription, queued, push, force_terminal, find_last, find_here, search, replace_or_append,
  append_item, wire_bytes, maximum_stream_queue_events, maximum_stream_queue_bytes,
}
use kubepeep.Resources.Watch.Snapshots.{maximum_stream_event_bytes}

module _ {ℓ} {Details : Type ℓ} where
  abbrev pub total : List (QueuedEvent Details) → ℕ
  total [] = 0
  total (q ∷ qs) = q.bytes + total qs

  -- The count is that of the queued events, and both limits hold.
  abbrev pub IsBounded : Subscription Details → Type 0
  IsBounded s =
      (s.bytes ≡ total s.queue)
      × (s.bytes ≤ maximum_stream_queue_bytes)
      × (length s.queue ≤ maximum_stream_queue_events)

  total-append : (xs ys : List (QueuedEvent Details)) → total (xs ++ ys) ≡ total xs + total ys
  total-append [] ys = omega arith
  total-append (x ∷ xs) ys = omega (arith, total-append xs ys)

  IsBounded-take_first :
      (s : Subscription Details) (qs : List (QueuedEvent Details))
      → s.queue ≡ qs
      → IsBounded s
      → IsBounded (take_first qs s).1
  unfolding take_first
  IsBounded-take_first s [] q h = h
  IsBounded-take_first s (item ∷ rest) q h =
      let count = h.0 ∙ ap total q in let size = ap length q in ground arith

module _ {ℓ} {Details : Type ℓ} (encoding : Encoding Details) where
  -- What the search may put in place of a queue.
  IsReplacement : List (QueuedEvent Details) → QueuedEvent Details → Found Details → Type 0
  IsReplacement qs item (found old queue) =
      (total queue + old.bytes ≡ total qs + item.bytes)
      × (length queue ≡ length qs)
      × (old.bytes ≤ total qs)
  IsReplacement qs item stopped = Unit
  IsReplacement qs item unknown = Unit

  IsReplacement-if :
      (b c : Bool) (q item : QueuedEvent Details) (qs : List (QueuedEvent Details))
      → IsReplacement
          (q ∷ qs)
          item
          (if b then stopped else if c then found q (item ∷ qs) else unknown)
  unfolding IsReplacement
  IsReplacement-if true c q item qs = tt
  IsReplacement-if false true q item qs = (omega arith, refl, omega arith)
  IsReplacement-if false false q item qs = tt

  IsReplacement-find_here :
      (topic : Topic) (k : Identity) (q item : QueuedEvent Details)
      (qs : List (QueuedEvent Details)) (f : Found Details)
      → IsReplacement qs item f
      → IsReplacement (q ∷ qs) item (find_here encoding topic k q qs item f)
  unfolding IsReplacement find_here
  IsReplacement-find_here topic k q item qs (found old after) (a, b, c) =
      (omega arith, omega arith, omega arith)
  IsReplacement-find_here topic k q item qs stopped h = tt
  IsReplacement-find_here topic k q item qs unknown h = IsReplacement-if _ _ q item qs

  IsReplacement-find_last :
      (topic : Topic) (k : Identity) (qs : List (QueuedEvent Details)) (item : QueuedEvent Details)
      → IsReplacement qs item (find_last encoding topic k qs item)
  unfolding find_last IsReplacement
  IsReplacement-find_last topic k [] item = tt
  IsReplacement-find_last topic k (q ∷ qs) item =
      IsReplacement-find_here topic k q item qs _ (IsReplacement-find_last topic k qs item)

  IsReplacement-search :
      (key : Option (Topic × Identity)) (qs : List (QueuedEvent Details))
      (item : QueuedEvent Details)
      → IsReplacement qs item (search encoding key qs item)
  unfolding search IsReplacement
  IsReplacement-search none qs item = tt
  IsReplacement-search (some (topic, k)) qs item = IsReplacement-find_last topic k qs item

  IsBounded-append_item :
      (item : QueuedEvent Details) (s : Subscription Details)
      → IsBounded s
      → IsBounded (append_item encoding item s).0
  unfolding append_item
  IsBounded-append_item item s h =
      ground
        (arith, h.0, h.1, h.2, total-append s.queue (item ∷ []), length-append s.queue (item ∷ []))

  IsBounded-replace_or_append :
      (item : QueuedEvent Details) (f : Found Details) (s : Subscription Details)
      → IsReplacement s.queue item f
      → IsBounded s
      → IsBounded (replace_or_append encoding item f s).0
  unfolding replace_or_append IsReplacement
  IsBounded-replace_or_append item (found old queue) s (a, b, c) h = ground (arith, h.0, h.1, h.2)
  IsBounded-replace_or_append item stopped s r h = IsBounded-append_item item s h
  IsBounded-replace_or_append item unknown s r h = IsBounded-append_item item s h

  IsBounded-push :
      (e : StreamEvent Details) (s : Subscription Details)
      → IsBounded s
      → IsBounded (push encoding e s).0
  unfolding push
  IsBounded-push e s h =
      let item = queued encoding e in
      let key = stream_event_identity encoding e in
      let pushed =
        IsBounded-replace_or_append item (search encoding key s.queue item) s
          (IsReplacement-search key s.queue item) h in
      elim (Bool-cases (ltb maximum_stream_event_bytes (wire_bytes encoding e) || s.closed)) [
        | inl q ↦ rw q h
        | inr q ↦ rw q pushed
      ]

  IsBounded-force_terminal :
      (e : StreamEvent Details) (s : Subscription Details)
      → wire_bytes encoding e ≤ maximum_stream_event_bytes
      → IsBounded s
      → IsBounded (force_terminal encoding e s)
  unfolding force_terminal queued
  IsBounded-force_terminal e s w h = ground (arith, h.0, h.1, h.2)

  -- What a subscriber and the workers that feed it do to its queue.
  pub data Step (s : Subscription Details) : Subscription Details → Type ℓ where
    pushed : (e : StreamEvent Details) → Step s (push encoding e s).0
    read : Step s (next s).1
    closed_by_reader : Step s (close s)
    ended_by :
        (e : StreamEvent Details)
        → wire_bytes encoding e ≤ maximum_stream_event_bytes
        → Step s (force_terminal encoding e s)

  pub data Reachable : Subscription Details → Type ℓ where
    opened : Reachable new_subscription
    after : {s t : Subscription Details} → Reachable s → Step s t → Reachable t

  IsBounded-step : (s t : Subscription Details) → Step s t → IsBounded s → IsBounded t
  unfolding next close
  IsBounded-step s _ (pushed e) h = IsBounded-push e s h
  IsBounded-step s _ read h = IsBounded-take_first s s.queue refl h
  IsBounded-step s _ closed_by_reader h = h
  IsBounded-step s _ (ended_by e w) h = IsBounded-force_terminal e s w h

  -- However events are pushed and read and the stream is closed or ended, with a last event within the
  -- limit of an event: the byte count is that of the queued events, the queue has at most 1 MiB and at most
  -- 1000 events.
  pub Reachable-IsBounded : (s : Subscription Details) → Reachable s → IsBounded s
  unfolding new_subscription
  Reachable-IsBounded s opened = (refl, omega arith, omega arith)
  Reachable-IsBounded s (after r step) = IsBounded-step _ s step (Reachable-IsBounded _ r)
