-- ===== src/Resources/Watch.antt =====
-- internal/services/resources/watch.go: what a watch of a topic keeps and sends. Here are the objects,
-- the events and their identities; Snapshots applies events to a worker's snapshot, Queue is a
-- subscriber's queue, Ring the ring for resumed streams. The manager and its workers are not modelled.
pub mod Snapshots
pub mod Queue
pub mod Ring
mod Tests
use kubepeep.Base.{
  ℕ, String, str_eq, Bool, true, false, ◌&&◌, Option, none, some, List, [], ◌∷◌, ◌++◌,
  if◌then◌else◌, codes, same_text,
}

pub data Topic : Type 0 where
  topic_pods topic_events topic_workloads topic_services topic_ingresses : Topic
  topic_endpoint_slices topic_config_maps topic_pvcs : Topic

-- The DTO families, each with what its identity is made of and its other fields.
pub data TopicObject {ℓ} (Details : Type ℓ) : Type ℓ where
  pod service ingress endpoint_slice config_map pvc :
      String → String → Details → TopicObject Details
  workload : String → String → String → Details → TopicObject Details
  event : String → String → String → String → String → Option String → Details → TopicObject Details

pub record ResourceRef : Type 0 where
  pub kind : String
  pub namespace : String
  pub name : String

pub data EventKind : Type 0 where
  added modified deleted snapshot reset error heartbeat other : EventKind

-- `topic` is missing in the events that are about no topic. The reason of a reset, the counters and
-- the times are left out.
pub record StreamEvent {ℓ} (Details : Type ℓ) : Type ℓ where
  pub kind : EventKind
  pub topic : Option Topic
  pub generation : String
  pub resource_version : String
  pub items : List (TopicObject Details)
  pub object : Option (TopicObject Details)
  pub deleted_ref : Option ResourceRef
  pub chunk : ℕ
  pub final : Bool

-- What the standard library does: `strings.ToLower` after `strings.TrimSpace`, and the lengths of the
-- JSON of an object and of an event.
pub record Encoding {ℓ} (Details : Type ℓ) : Type ℓ where
  pub lower_trim : String → List ℕ
  pub object_bytes : TopicObject Details → ℕ
  pub event_bytes : StreamEvent Details → ℕ

abbrev pub same_topic : Topic → Topic → Bool
same_topic topic_pods topic_pods = true
same_topic topic_events topic_events = true
same_topic topic_workloads topic_workloads = true
same_topic topic_services topic_services = true
same_topic topic_ingresses topic_ingresses = true
same_topic topic_endpoint_slices topic_endpoint_slices = true
same_topic topic_config_maps topic_config_maps = true
same_topic topic_pvcs topic_pvcs = true
same_topic _ _ = false

unfoldable pub object_topic {ℓ} : {Details : Type ℓ} → TopicObject Details → Topic
object_topic (pod _ _ _) = topic_pods
object_topic (service _ _ _) = topic_services
object_topic (ingress _ _ _) = topic_ingresses
object_topic (endpoint_slice _ _ _) = topic_endpoint_slices
object_topic (config_map _ _ _) = topic_config_maps
object_topic (pvc _ _ _) = topic_pvcs
object_topic (workload _ _ _ _) = topic_workloads
object_topic (event _ _ _ _ _ _ _) = topic_events

-- The parts of an identity, each ended by a NUL but the last.
abbrev pub Identity : Type 0
Identity = List ℕ

join_nul : List ℕ → List ℕ → List ℕ
join_nul s t = s ++ 0 ∷ t

abbrev or_empty : Option String → String
or_empty none = ""
or_empty (some s) = s

kind_of_topic : Topic → String
kind_of_topic topic_pods = "pod"
kind_of_topic topic_services = "service"
kind_of_topic topic_ingresses = "ingress"
kind_of_topic topic_endpoint_slices = "endpointslice"
kind_of_topic topic_config_maps = "configmap"
kind_of_topic topic_pvcs = "persistentvolumeclaim"
kind_of_topic topic_events = ""
kind_of_topic topic_workloads = ""

module _ {ℓ} {Details : Type ℓ} (encoding : Encoding Details) where
  open encoding use {lower_trim}

  object_identity : String → String → String → Identity
  unfolding join_nul
  object_identity kind namespace name =
      join_nul (lower_trim kind) (join_nul (codes namespace) (codes name))

  event_object_identity : String → String → String → String → String → Option String → Identity
  unfolding object_identity join_nul
  event_object_identity namespace name object_kind object_name reason timestamp =
      if str_eq name ""
      then join_nul (codes "event") (
          join_nul (codes namespace) (
            join_nul (codes object_kind) (
              join_nul (codes object_name) (join_nul (codes reason) (codes (or_empty timestamp))))))
      else object_identity "event" namespace name

  unfoldable pub topic_object_identity : TopicObject Details → Identity
  unfolding object_identity event_object_identity
  topic_object_identity (pod namespace name _) = object_identity "pod" namespace name
  topic_object_identity (service namespace name _) = object_identity "service" namespace name
  topic_object_identity (ingress namespace name _) = object_identity "ingress" namespace name
  topic_object_identity (endpoint_slice namespace name _) =
      object_identity "endpointslice" namespace name
  topic_object_identity (config_map namespace name _) = object_identity "configmap" namespace name
  topic_object_identity (pvc namespace name _) =
      object_identity "persistentvolumeclaim" namespace name
  topic_object_identity (workload kind namespace name _) = object_identity kind namespace name
  topic_object_identity (event namespace name object_kind object_name reason timestamp _) =
      event_object_identity namespace name object_kind object_name reason timestamp

  pub resource_ref_identity : Topic → ResourceRef → Identity
  unfolding object_identity kind_of_topic
  resource_ref_identity topic ref =
      object_identity (if str_eq ref.kind "" then kind_of_topic topic else ref.kind) ref.namespace
        ref.name

  object_key : Option (TopicObject Details) → Option Identity
  unfolding topic_object_identity
  object_key none = none
  object_key (some o) = some (topic_object_identity o)

  ref_key : Topic → Option ResourceRef → Option Identity
  unfolding resource_ref_identity
  ref_key topic none = none
  ref_key topic (some ref) = some (resource_ref_identity topic ref)

  -- The identity of the object that an event is about, in a topic.
  pub changed_key :
      Topic → EventKind → Option (TopicObject Details) → Option ResourceRef → Option Identity
  unfolding object_key ref_key
  changed_key topic added object ref = object_key object
  changed_key topic modified object ref = object_key object
  changed_key topic deleted object ref = ref_key topic ref
  changed_key topic _ object ref = none

  stream_key : Option Topic → StreamEvent Details → Option (Topic × Identity)
  unfolding changed_key
  stream_key none e = none
  stream_key (some topic_events) e = none
  stream_key (some topic) e = elim (changed_key topic e.kind e.object e.deleted_ref) [
    | none ↦ none
    | some k ↦ some (topic, k)
  ]

  -- `streamEventIdentity`: the topic and the identity, which the code joins by a NUL.
  unfoldable pub stream_event_identity : StreamEvent Details → Option (Topic × Identity)
  unfolding stream_key
  stream_event_identity e = stream_key e.topic e
