-- ===== src/Resources/Watch/Snapshots.antt =====
-- internal/services/resources/watch.go: a worker's snapshot, the events that change it, the running
-- count of its bytes, and the events that send it to a subscriber.
pub mod Accounting
pub mod Levels
pub mod Chunks
pub mod Limits
use kubepeep.Base.{
  ℕ, suc, ℤ, pos, pos_part, neg_part, sub_ℕ, ◌+◌, ◌-◌, String, str_eq, Bool, true, false, not, ◌&&◌,
  ◌||◌, Option, none, some, List, [], ◌∷◌, ◌++◌, leb, ltb, ◌==◌, if◌then◌else◌, length, same_text,
}
use kubepeep.Resources.Cache.Subscription.{WatchSnapshot}
use kubepeep.Resources.Watch.{
  Topic, TopicObject, ResourceRef, EventKind, added, modified, deleted, snapshot, StreamEvent,
  Encoding, Identity, same_topic, object_topic, topic_object_identity, changed_key,
}

abbrev pub maximum_stream_event_bytes : ℕ
maximum_stream_event_bytes = 65536

abbrev pub maximum_snapshot_items : ℕ
maximum_snapshot_items = 10000

abbrev pub maximum_snapshot_bytes : ℕ
maximum_snapshot_bytes = 10485760

abbrev pub stream_sse_envelope_reserve : ℕ
stream_sse_envelope_reserve = 64

pub data SnapshotError : Type 0 where
  canceled limit_exceeded wrong_topic : SnapshotError

pub data Result {ℓ} (A : Type ℓ) : Type ℓ where
  ok : A → Result A
  err : SnapshotError → Result A

-- What a worker keeps of its topic. The subscribers and the cache are elsewhere.
pub record Worker {ℓ} (Details : Type ℓ) : Type ℓ where
  pub current : WatchSnapshot (TopicObject Details)
  pub snapshot_bytes : ℕ
  pub snapshot_ready : Bool
  pub initial : List (StreamEvent Details)
  pub stopping : Bool

abbrev pub shift_by : ℕ → ℤ → ℕ
shift_by bytes delta = bytes + pos_part delta - neg_part delta

-- `snapshotFitsLocked`: a size beside the bytes of the other workers.
abbrev pub snapshot_fits : ℕ → ℕ → ℕ → Bool
snapshot_fits limit others size = leb (size + others) (if limit == 0 then 33554432 else limit)

module _ {ℓ} {Details : Type ℓ} (encoding : Encoding Details) where
  open encoding use {object_bytes, event_bytes}

  -- The first object with an identity; the object in its place, or at the end; the rest without it.
  unfoldable pub find : Identity → List (TopicObject Details) → Option (TopicObject Details)
  find k [] = none
  find k (x ∷ xs) = if same_text (topic_object_identity encoding x) k then some x else find k xs

  pub put_item :
      Identity → TopicObject Details → List (TopicObject Details) → List (TopicObject Details)
  put_item k o [] = o ∷ []
  put_item k o (x ∷ xs) =
      let later = x ∷ put_item k o xs in
      if same_text (topic_object_identity encoding x) k then o ∷ xs else later

  pub remove_item : Identity → List (TopicObject Details) → List (TopicObject Details)
  remove_item k [] = []
  remove_item k (x ∷ xs) =
      let later = x ∷ remove_item k xs in
      if same_text (topic_object_identity encoding x) k then xs else later

  -- What an event does to the objects, by its kind and the identity that it is about.
  apply_items :
      EventKind
      → Option (TopicObject Details)
      → Option Identity
      → List (TopicObject Details)
      → List (TopicObject Details)
  unfolding put_item remove_item
  apply_items added (some o) (some k) items = put_item k o items
  apply_items modified (some o) (some k) items = put_item k o items
  apply_items deleted object (some k) items = remove_item k items
  apply_items _ object key items = items

  pub apply_stream_event_to_snapshot :
      Topic
      → WatchSnapshot (TopicObject Details)
      → StreamEvent Details
      → WatchSnapshot (TopicObject Details)
  unfolding apply_items
  apply_stream_event_to_snapshot topic s e = record {
    resource_version =
        if str_eq e.resource_version "" then s.resource_version else e.resource_version;
    items =
        apply_items e.kind e.object (changed_key encoding topic e.kind e.object e.deleted_ref)
          s.items;
  }

  -- The bytes of the new object; 0 where the event has none.
  new_bytes : EventKind → Option (TopicObject Details) → ℕ
  new_bytes added (some o) = object_bytes o
  new_bytes modified (some o) = object_bytes o
  new_bytes _ object = 0

  size_delta : ℕ → ℕ → Option (TopicObject Details) → ℤ
  size_delta fresh count (some old) =
      sub_ℕ fresh (object_bytes old + (if fresh == 0 && ltb 1 count then 1 else 0))
  size_delta fresh count none = pos (if ltb 0 fresh && ltb 0 count then fresh + 1 else fresh)

  delta_of : ℕ → List (TopicObject Details) → Option Identity → ℤ
  unfolding size_delta find
  delta_of fresh items none = pos 0
  delta_of fresh items (some k) = size_delta fresh (length items) (find k items)

  pub snapshot_event_size_delta :
      Topic → WatchSnapshot (TopicObject Details) → StreamEvent Details → ℤ
  unfolding delta_of new_bytes
  snapshot_event_size_delta topic s e =
      delta_of (new_bytes e.kind e.object) s.items
        (changed_key encoding topic e.kind e.object e.deleted_ref)

  -- `installSnapshotLocked`, given the length of the JSON of the objects.
  unfoldable pub install_snapshot :
      ℕ
      → ℕ
      → Bool
      → ℕ
      → WatchSnapshot (TopicObject Details)
      → List (StreamEvent Details)
      → Worker Details
      → Result (Worker Details)
  install_snapshot limit others ended encoded s events w =
      if w.stopping || ended
      then err canceled
      else if ltb maximum_snapshot_items (length s.items)
          || ltb maximum_snapshot_bytes encoded
          || not (snapshot_fits limit others encoded)
      then err limit_exceeded
      else ok (record w {
        current = s;
        snapshot_bytes = encoded;
        snapshot_ready = true;
        initial = events;
      })

  -- A snapshot that was never measured is measured first; an empty array has two bytes.
  measured : ℕ → Worker Details → ℕ
  measured encoded w =
      if w.snapshot_bytes == 0
      then if length w.current.items == 0 then 2 else encoded
      else w.snapshot_bytes

  -- `updateSnapshot`: past a limit the worker drops its snapshot and stops.
  pub update_snapshot :
      ℕ → ℕ → ℕ → Topic → StreamEvent Details → Worker Details → Worker Details × Bool
  unfolding apply_stream_event_to_snapshot snapshot_event_size_delta measured
  update_snapshot limit others encoded topic e w =
      let next = apply_stream_event_to_snapshot topic w.current e in
      let bytes = shift_by (measured encoded w) (snapshot_event_size_delta topic w.current e) in
      if w.stopping || not w.snapshot_ready
      then (w, not w.stopping)
      else if ltb maximum_snapshot_items (length next.items)
          || ltb maximum_snapshot_bytes bytes
          || not (snapshot_fits limit others bytes)
      then (
        record {
          current = record { resource_version = ""; items = [] };
          snapshot_bytes = 0;
          snapshot_ready = false;
          initial = [];
          stopping = true;
        },
        false,
      )
      else (record w { current = next; snapshot_bytes = bytes; initial = [] }, true)

  -- One `snapshot` event with a chunk of the objects.
  chunk_event :
      Topic → String → String → ℕ → List (TopicObject Details) → Bool → StreamEvent Details
  chunk_event topic generation version number chunk final = record {
    kind = snapshot;
    topic = some topic;
    generation = generation;
    resource_version = version;
    items = chunk;
    object = none;
    deleted_ref = none;
    chunk = number;
    final = final;
  }

  then_event :
      StreamEvent Details
      → Result (List (StreamEvent Details))
      → Result (List (StreamEvent Details))
  then_event e (ok es) = ok (e ∷ es)
  then_event e (err x) = err x

  -- The loop over the objects, with the number of events so far and the chunk that is being filled.
  chunk_loop :
      Topic
      → String
      → String
      → ℕ
      → List (TopicObject Details)
      → List (TopicObject Details)
      → Result (List (StreamEvent Details))
  unfolding chunk_event then_event
  chunk_loop topic generation version number chunk [] =
      ok (chunk_event topic generation version number chunk true ∷ [])
  chunk_loop topic generation version number chunk (item ∷ items) =
      let candidate = chunk ++ item ∷ [] in
      let single = chunk_event topic generation version (number + 1) (item ∷ []) true in
      let grown = chunk_loop topic generation version number candidate items in
      let later = chunk_loop topic generation version (number + 1) (item ∷ []) items in
      if ltb (maximum_stream_event_bytes - 512)
        (event_bytes (chunk_event topic generation version number candidate false))
      then if length chunk == 0
        then err limit_exceeded
        else if ltb maximum_stream_event_bytes (event_bytes single + stream_sse_envelope_reserve)
        then err limit_exceeded
        else then_event (chunk_event topic generation version number chunk false) later
      else grown

  all_of_topic : Topic → List (TopicObject Details) → Bool
  all_of_topic topic [] = true
  all_of_topic topic (x ∷ xs) = same_topic (object_topic x) topic && all_of_topic topic xs

  -- `SnapshotEvents`, given the length of the JSON of all objects.
  unfoldable pub snapshot_events :
      ℕ → String → Topic → WatchSnapshot (TopicObject Details) → Result (List (StreamEvent Details))
  unfolding chunk_loop all_of_topic
  snapshot_events whole generation topic s =
      if ltb maximum_snapshot_items (length s.items)
      then err limit_exceeded
      else if not (all_of_topic topic s.items)
      then err wrong_topic
      else if ltb maximum_snapshot_bytes whole
      then err limit_exceeded
      else chunk_loop topic generation s.resource_version 0 [] s.items
