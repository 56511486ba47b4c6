-- ===== src/Resources/Watch/Tests.antt =====
-- The watch of a topic, internal/services/resources/watch.go, on concrete events.
use kubepeep.Base.{
  ℕ, ◌==◌, ◌≡◌, ◌+◌, ◌*◌, length, ◌≤◌, refl, Bool, true, false, none, some, List, [], ◌∷◌, ◌++◌,
  codes, arith,
}
use kubepeep.Resources.Cache.Subscription.{WatchSnapshot}
use kubepeep.Resources.Watch.{
  object_topic, stream_event_identity, topic_pods, TopicObject, pod, EventKind, added, modified,
  snapshot, StreamEvent, Encoding, Identity, changed_key, topic_object_identity,
}
use kubepeep.Resources.Watch.Snapshots.{
  ok, find, install_snapshot, Worker, snapshot_events, apply_stream_event_to_snapshot,
  snapshot_event_size_delta, shift_by,
}
use kubepeep.Resources.Watch.Snapshots.Accounting.{array_bytes, apply-size_delta}
use kubepeep.Resources.Watch.Snapshots.Levels.{IsDistinct, kept_after, find-apply_stream_event}
use kubepeep.Resources.Watch.Snapshots.Chunks.{all_items, IsNumbered, snapshot_events-items}
use kubepeep.Resources.Watch.Snapshots.Limits.{Update, updates, IsExact, updates-IsExact}
use kubepeep.Resources.Watch.Queue.{Subscription, new_subscription, push, queued, next}
use kubepeep.Resources.Watch.Queue.Bounds.{
  pushed, read, Reachable, opened, after, IsBounded, Reachable-IsBounded,
}
use kubepeep.Resources.Watch.Queue.Coalescing.{view, view-push}
use kubepeep.Resources.Watch.Ring.{IdFormat, Ring, RingEvent, append_all, replay_entries, replayed}
use kubepeep.Resources.Watch.Ring.History.{AreAfter, numbered, append_all-replay_entries}

-- The detail of an object is the length of its JSON, less one.
abbrev encoding : Encoding ℕ
encoding = record {
  lower_trim = codes;
  object_bytes = λ o. elim o [ pod _ _ n ↦ n + 1 | _ ↦ 1 ];
  event_bytes = λ e. 40000 * length e.items;
}

abbrev web : TopicObject ℕ
web = pod "shop" "web" 40

abbrev grown_web : TopicObject ℕ
grown_web = pod "shop" "web" 70

abbrev api : TopicObject ℕ
api = pod "shop" "api" 30

abbrev change : EventKind → TopicObject ℕ → StreamEvent ℕ
change kind o = record {
  kind = kind;
  topic = some topic_pods;
  generation = "g";
  resource_version = "8";
  items = [];
  object = some o;
  deleted_ref = none;
  chunk = 0;
  final = false;
}

abbrev two_pods : WatchSnapshot (TopicObject ℕ)
two_pods = record { resource_version = "7"; items = web ∷ api ∷ [] }

object_bytes_positive : (o : TopicObject ℕ) → 1 ≤ encoding.object_bytes o
object_bytes_positive o = ground arith

apply-size_delta_example :
    array_bytes encoding
      (apply_stream_event_to_snapshot encoding topic_pods two_pods
        (change modified grown_web)).items
    ≡ shift_by
        (array_bytes encoding two_pods.items)
        (snapshot_event_size_delta encoding topic_pods two_pods (change modified grown_web))
apply-size_delta_example =
    apply-size_delta encoding topic_pods two_pods (change modified grown_web) object_bytes_positive

two_pods-IsDistinct : IsDistinct encoding two_pods.items
unfolding find topic_object_identity
two_pods-IsDistinct = (refl, (refl, tt))

abbrev web_key : Identity
web_key = topic_object_identity encoding web

find-apply_stream_event_example :
    let e = change modified grown_web in
    let later = apply_stream_event_to_snapshot encoding topic_pods two_pods e in
    (find encoding web_key later.items
      ≡ kept_after encoding modified
          (some grown_web)
          (changed_key encoding topic_pods modified (some grown_web) none)
          web_key
          (find encoding web_key two_pods.items))
    × IsDistinct encoding later.items
find-apply_stream_event_example =
    find-apply_stream_event encoding topic_pods web_key two_pods (change modified grown_web)
      two_pods-IsDistinct

abbrev sent_chunk : ℕ → TopicObject ℕ → Bool → StreamEvent ℕ
sent_chunk number o final = record {
  kind = snapshot;
  topic = some topic_pods;
  generation = "g";
  resource_version = "7";
  items = o ∷ [];
  object = none;
  deleted_ref = none;
  chunk = number;
  final = final;
}

abbrev sent : List (StreamEvent ℕ)
sent = sent_chunk 0 web false ∷ sent_chunk 1 api true ∷ []

two_pods-sent : snapshot_events encoding 74 "g" topic_pods two_pods ≡ ok sent
unfolding snapshot_events object_topic
two_pods-sent = refl

snapshot_events-items_example :
    (all_items encoding sent ≡ two_pods.items) × IsNumbered encoding 0 sent
snapshot_events-items_example =
    snapshot_events-items encoding 74 "g" topic_pods two_pods sent two_pods-sent

abbrev waiting_events : Subscription ℕ
waiting_events =
    (push encoding (change added api) (push encoding (change added web) new_subscription).0).0

grown_web_taken : (push encoding (change modified grown_web) waiting_events).1 ≡ true
unfolding push new_subscription stream_event_identity
grown_web_taken = refl

-- The event for the first pod takes the place of the one that waits.
two_wait : length (push encoding (change modified grown_web) waiting_events).0.queue ≡ 2
unfolding push new_subscription stream_event_identity
two_wait = refl

view-push_example :
    view encoding topic_pods web_key none
      (push encoding (change modified grown_web) waiting_events).0.queue
    ≡ view encoding topic_pods web_key none
        (waiting_events.queue ++ queued encoding (change modified grown_web) ∷ [])
view-push_example =
    view-push encoding (change modified grown_web) waiting_events grown_web_taken topic_pods web_key
      none

waiting-Reachable : Reachable encoding (next waiting_events).1
waiting-Reachable =
    after (after (after opened (pushed (change added web))) (pushed (change added api))) read

Reachable-IsBounded_example : IsBounded (next waiting_events).1
Reachable-IsBounded_example = Reachable-IsBounded encoding (next waiting_events).1 waiting-Reachable

abbrev fresh_worker : Worker ℕ
fresh_worker = record {
  current = record { resource_version = ""; items = [] };
  snapshot_bytes = 0;
  snapshot_ready = false;
  initial = [];
  stopping = false;
}

abbrev ready_worker : Worker ℕ
ready_worker = record {
  current = two_pods;
  snapshot_bytes = 75;
  snapshot_ready = true;
  initial = [];
  stopping = false;
}

two_pods_installed :
    install_snapshot encoding 0 500 false
      (array_bytes encoding two_pods.items)
      two_pods
      []
      fresh_worker
    ≡ ok ready_worker
unfolding install_snapshot
two_pods_installed = refl

abbrev one_update : List (Update ℕ)
one_update = record { limit = 0; others = 500; encoded = 0; event = change modified grown_web } ∷ []

updates-IsExact_example : IsExact encoding (updates encoding topic_pods one_update ready_worker)
updates-IsExact_example =
    updates-IsExact encoding 0 500 false topic_pods two_pods [] one_update fresh_worker ready_worker
      object_bytes_positive two_pods_installed

abbrev ids : IdFormat
ids = record { format = λ n. (48 + n) ∷ []; is_number = λ s. true; is_epoch = λ s. length s == 2 }

abbrev empty_ring : Ring ℕ
empty_ring = record {
  epoch = codes "ab";
  binding = codes "instance";
  sequence = 0;
  events = [];
  bytes = 0;
}

abbrev two_changes : List (StreamEvent ℕ)
two_changes = change added web ∷ change modified grown_web ∷ []

abbrev second_event : RingEvent ℕ
second_event = record { id = codes "kpse1.ab.2"; event = change modified grown_web; bytes = 64 }

second_replayed :
    replay_entries ids
      (codes "kpse1.ab.1")
      (codes "instance")
      (append_all encoding ids two_changes empty_ring)
    ≡ replayed (second_event ∷ [])
unfolding replay_entries append_all
second_replayed = refl

append_all-replay_entries_example :
    (codes "instance" ≡ empty_ring.binding)
    × AreAfter
        (codes "kpse1.ab.1")
        (second_event ∷ [])
        (numbered encoding ids empty_ring.epoch empty_ring.sequence two_changes)
append_all-replay_entries_example =
    append_all-replay_entries encoding ids two_changes empty_ring (codes "kpse1.ab.1")
      (codes "instance") (second_event ∷ []) refl second_replayed
