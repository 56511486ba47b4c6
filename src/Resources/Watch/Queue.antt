-- ===== src/Resources/Watch/Queue.antt =====
-- internal/services/resources/watch.go: `Subscription`, the queue of a subscriber. The signal channel
-- and the contexts only wake the reader: `next` is one round of its loop.
pub mod Bounds
pub mod Coalescing
use kubepeep.Base.{
  ℕ, ◌+◌, ◌-◌, Bool, true, false, ◌&&◌, ◌||◌, Option, none, some, List, [], ◌∷◌, ◌++◌, leb, ltb,
  if◌then◌else◌, length, same_text,
}
use kubepeep.Resources.Watch.{
  Topic, EventKind, snapshot, StreamEvent, Encoding, Identity, same_topic, stream_event_identity,
}
use kubepeep.Resources.Watch.Snapshots.{maximum_stream_event_bytes, stream_sse_envelope_reserve}

abbrev pub maximum_stream_queue_events : ℕ
maximum_stream_queue_events = 1000

abbrev pub maximum_stream_queue_bytes : ℕ
maximum_stream_queue_bytes = 1048576

pub record QueuedEvent {ℓ} (Details : Type ℓ) : Type ℓ where
  pub event : StreamEvent Details
  pub bytes : ℕ

pub record Subscription {ℓ} (Details : Type ℓ) : Type ℓ where
  pub queue : List (QueuedEvent Details)
  pub bytes : ℕ
  pub closed : Bool

-- What a round of `Next` finds: an event, the end of the stream, or nothing to read yet.
pub data Delivery {ℓ} (Details : Type ℓ) : Type ℓ where
  delivered : StreamEvent Details → Delivery Details
  end_of_stream waiting : Delivery Details

-- What the search from the end of the queue finds: an event of the same identity, or a place where it
-- stops.
pub data Found {ℓ} (Details : Type ℓ) : Type ℓ where
  found : QueuedEvent Details → List (QueuedEvent Details) → Found Details
  stopped unknown : Found Details

is_snapshot : EventKind → Bool
is_snapshot snapshot = true
is_snapshot _ = false

is_about : Topic → Option Topic → Bool
is_about topic none = false
is_about topic (some t) = same_topic t topic

same_key : Topic → Identity → Option (Topic × Identity) → Bool
same_key topic k none = false
same_key topic k (some (t, j)) = same_topic t topic && same_text j k

module _ {ℓ} {Details : Type ℓ} where
  unfoldable pub new_subscription : Subscription Details
  new_subscription = record { queue = []; bytes = 0; closed = false }

  take_first :
      List (QueuedEvent Details) → Subscription Details → Delivery Details × Subscription Details
  take_first [] s = (if s.closed then end_of_stream else waiting, s)
  take_first (item ∷ rest) s =
      (delivered item.event, record s { queue = rest; bytes = s.bytes - item.bytes })

  unfoldable pub next : Subscription Details → Delivery Details × Subscription Details
  unfolding take_first
  next s = take_first s.queue s

  -- `Close` without the callback that it runs.
  unfoldable pub close : Subscription Details → Subscription Details
  close s = record s { closed = true }

module _ {ℓ} {Details : Type ℓ} (encoding : Encoding Details) where
  open encoding use {event_bytes}

  pub wire_bytes : StreamEvent Details → ℕ
  wire_bytes e = event_bytes e + stream_sse_envelope_reserve

  pub queued : StreamEvent Details → QueuedEvent Details
  unfolding wire_bytes
  queued e = record { event = e; bytes = wire_bytes e }

  -- A round of the loop from the last queued event to the first, after the rounds for the later events.
  find_here :
      Topic
      → Identity
      → QueuedEvent Details
      → List (QueuedEvent Details)
      → QueuedEvent Details
      → Found Details
      → Found Details
  unfolding is_snapshot is_about same_key
  find_here topic k q qs item (found old after) = found old (q ∷ after)
  find_here topic k q qs item stopped = stopped
  find_here topic k q qs item unknown =
      if is_snapshot q.event.kind && is_about topic q.event.topic
      then stopped
      else if same_key topic k (stream_event_identity encoding q.event)
      then found q (item ∷ qs)
      else unknown

  find_last : Topic → Identity → List (QueuedEvent Details) → QueuedEvent Details → Found Details
  unfolding find_here
  find_last topic k [] item = unknown
  find_last topic k (q ∷ qs) item = find_here topic k q qs item (find_last topic k qs item)

  append_item : QueuedEvent Details → Subscription Details → Subscription Details × Bool
  append_item item s =
      if leb maximum_stream_queue_events (length s.queue)
        || ltb maximum_stream_queue_bytes (s.bytes + item.bytes)
      then (s, false)
      else (record s { queue = s.queue ++ item ∷ []; bytes = s.bytes + item.bytes }, true)

  replace_or_append :
      QueuedEvent Details → Found Details → Subscription Details → Subscription Details × Bool
  unfolding append_item
  replace_or_append item (found old queue) s =
      if ltb maximum_stream_queue_bytes (s.bytes - old.bytes + item.bytes)
      then (s, false)
      else (record s { queue = queue; bytes = s.bytes + item.bytes - old.bytes }, true)
  replace_or_append item stopped s = append_item item s
  replace_or_append item unknown s = append_item item s

  search :
      Option (Topic × Identity) → List (QueuedEvent Details) → QueuedEvent Details → Found Details
  unfolding find_last
  search none queue item = unknown
  search (some (topic, k)) queue item = find_last topic k queue item

  unfoldable pub push : StreamEvent Details → Subscription Details → Subscription Details × Bool
  unfolding wire_bytes queued search replace_or_append
  push e s =
      let item = queued e in
      if ltb maximum_stream_event_bytes (wire_bytes e) || s.closed
      then (s, false)
      else replace_or_append item (search (stream_event_identity encoding e) s.queue item) s

  -- The last event of a subscriber that cannot be served any more.
  unfoldable pub force_terminal : StreamEvent Details → Subscription Details → Subscription Details
  unfolding wire_bytes queued
  force_terminal e s =
      if s.closed then s else record { queue = queued e ∷ []; bytes = wire_bytes e; closed = true }
