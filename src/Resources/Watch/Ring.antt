-- ===== src/Resources/Watch/Ring.antt =====
-- internal/services/resources/watch.go: `ReplayRing`, which keeps the last events of a stream so that a
-- client can resume it. What creates a ring (a random epoch, and a binding that names the instance, the
-- generation and the topics) is not modelled.
pub mod History
pub mod Bounds
use kubepeep.Base.{
  ℕ, ◌+◌, ◌-◌, ◌%◌, ◌^◌, Bool, true, false, not, ◌||◌, Option, none, some, List, [], ◌∷◌, ◌++◌, ltb,
  ◌==◌, if◌then◌else◌, length, codes, same_text,
}
use kubepeep.Resources.Watch.{EventKind, heartbeat, reset, error, StreamEvent, Encoding}
use kubepeep.Resources.Watch.Snapshots.{maximum_stream_event_bytes, stream_sse_envelope_reserve}
use kubepeep.Resources.Watch.Queue.{maximum_stream_queue_events, maximum_stream_queue_bytes}

-- What the standard library does with the parts of an id: `strconv.FormatUint` and `ParseUint` in base
-- 36, and whether a text is the base64 of 16 bytes.
pub record IdFormat : Type 0 where
  pub format : ℕ → List ℕ
  pub is_number : List ℕ → Bool
  pub is_epoch : List ℕ → Bool

pub record RingEvent {ℓ} (Details : Type ℓ) : Type ℓ where
  pub id : List ℕ
  pub event : StreamEvent Details
  pub bytes : ℕ

pub record Ring {ℓ} (Details : Type ℓ) : Type ℓ where
  pub epoch : List ℕ
  pub binding : List ℕ
  pub sequence : ℕ
  pub events : List (RingEvent Details)
  pub bytes : ℕ

pub data Replay {ℓ} (A : Type ℓ) : Type ℓ where
  replayed : A → Replay A
  malformed unavailable : Replay A

-- Heartbeats, resets and errors are not kept.
is_transient : EventKind → Bool
is_transient heartbeat = true
is_transient reset = true
is_transient error = true
is_transient _ = false

-- `strings.Split` at the full stops.
with_character : ℕ → List (List ℕ) → List (List ℕ)
with_character c [] = (c ∷ []) ∷ []
with_character c (part ∷ parts) = (c ∷ part) ∷ parts

split_stops : List ℕ → List (List ℕ)
unfolding with_character
split_stops [] = [] ∷ []
split_stops (c ∷ s) =
    let rest = split_stops s in if c == 46 then [] ∷ rest else with_character c rest

-- The epoch of an id, where the id is well formed.
epoch_of : IdFormat → List (List ℕ) → Option (List ℕ)
epoch_of f (first ∷ epoch ∷ number ∷ []) =
    if not (same_text first (codes "kpse1")) || not (f.is_epoch epoch) || not (f.is_number number)
    then none
    else some epoch
epoch_of f _ = none

next_sequence : ℕ → ℕ
next_sequence n = (n + 1) % 2 ^ 64

event_id : IdFormat → List ℕ → ℕ → List ℕ
event_id f epoch n = codes "kpse1." ++ epoch ++ 46 ∷ f.format n

module _ {ℓ} {Details : Type ℓ} where
  -- The loop that drops the oldest events. A ring without events has no bytes, so it ends there.
  trim : List (RingEvent Details) → ℕ → List (RingEvent Details) × ℕ
  trim [] bytes = ([], bytes)
  trim (x ∷ xs) bytes =
      let rest = trim xs (bytes - x.bytes) in
      if ltb maximum_stream_queue_events (length (x ∷ xs)) || ltb maximum_stream_queue_bytes bytes
      then rest
      else (x ∷ xs, bytes)

  with_events : Ring Details → ℕ → List (RingEvent Details) × ℕ → Ring Details
  with_events r n kept = record r { sequence = n; events = kept.0; bytes = kept.1 }

  -- The events behind the first one with an id.
  events_after : List ℕ → List (RingEvent Details) → Option (List (RingEvent Details))
  events_after last [] = none
  events_after last (x ∷ xs) =
      let later = events_after last xs in if same_text x.id last then some xs else later

  resume : Option (List (RingEvent Details)) → Replay (List (RingEvent Details))
  resume none = unavailable
  resume (some xs) = replayed xs

  replay_of : Option (List ℕ) → List ℕ → List ℕ → Ring Details → Replay (List (RingEvent Details))
  unfolding events_after resume
  replay_of none last binding r = malformed
  replay_of (some epoch) last binding r =
      if not (same_text epoch r.epoch)
      then unavailable
      else if not (same_text binding r.binding)
      then unavailable
      else resume (events_after last r.events)

  -- `ReplayEntries`, whose entries are the events with their ids.
  unfoldable pub replay_entries :
      IdFormat → List ℕ → List ℕ → Ring Details → Replay (List (RingEvent Details))
  unfolding replay_of epoch_of split_stops
  replay_entries f last binding r = replay_of (epoch_of f (split_stops last)) last binding r

module _ {ℓ} {Details : Type ℓ} (encoding : Encoding Details) (f : IdFormat) where
  open encoding use {event_bytes}

  ring_event : List ℕ → ℕ → StreamEvent Details → RingEvent Details
  unfolding event_id
  ring_event epoch n e = record {
    id = event_id f epoch n;
    event = e;
    bytes = event_bytes e + stream_sse_envelope_reserve;
  }

  is_too_large : StreamEvent Details → Bool
  is_too_large e = ltb maximum_stream_event_bytes (event_bytes e + stream_sse_envelope_reserve)

  append_kept : StreamEvent Details → Ring Details → Ring Details
  unfolding ring_event trim next_sequence with_events
  append_kept e r =
      let n = next_sequence r.sequence in
      let item = ring_event r.epoch n e in
      with_events r n (trim (r.events ++ item ∷ []) (r.bytes + item.bytes))

  -- The id is empty where the event is not kept, and missing where it is too large.
  unfoldable pub append : StreamEvent Details → Ring Details → Ring Details × Option (List ℕ)
  unfolding is_transient is_too_large append_kept
  append e r =
      if is_transient e.kind
      then (r, some [])
      else if is_too_large e
      then (r, none)
      else (append_kept e r, some (event_id f r.epoch (next_sequence r.sequence)))

  unfoldable pub append_all : List (StreamEvent Details) → Ring Details → Ring Details
  unfolding append
  append_all [] r = r
  append_all (e ∷ es) r = append_all es (append e r).0
