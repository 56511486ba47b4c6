-- ===== src/Resources/Watch/Snapshots/Limits.antt =====
-- The limits of a worker's snapshot in internal/services/resources/watch.go, while events change it.
use kubepeep.Base.{
  ℕ, ◌≤◌, ◌≡◌, refl, ap, sym, subst, ◌∙◌, Bool, true, false, not, ◌||◌, List, [], ◌∷◌, arith,
  if◌then◌else◌, length, ltb,
}
use kubepeep.Resources.Cache.Subscription.{WatchSnapshot}
use kubepeep.Resources.Watch.{Topic, TopicObject, StreamEvent, Encoding}
use kubepeep.Resources.Watch.Snapshots.{
  Result, ok, err, SnapshotError, canceled, limit_exceeded, apply_stream_event_to_snapshot,
  snapshot_event_size_delta, shift_by, Worker, update_snapshot, install_snapshot, snapshot_fits,
  measured, maximum_snapshot_items, maximum_snapshot_bytes,
}
use kubepeep.Resources.Watch.Snapshots.Accounting.{array_bytes, apply-size_delta}

-- One event, with the limit of all workers, the bytes of the others, and the length of the JSON where
-- the snapshot was never measured.
pub record Update {ℓ} (Details : Type ℓ) : Type ℓ where
  pub limit : ℕ
  pub others : ℕ
  pub encoded : ℕ
  pub event : StreamEvent Details

module _ {ℓ} {Details : Type ℓ} (encoding : Encoding Details) where
  open encoding use {object_bytes}

  abbrev pub Exact : Bool → ℕ → List (TopicObject Details) → Type 0
  Exact false bytes items = Unit
  Exact true bytes items =
      (bytes ≡ array_bytes encoding items)
      × (bytes ≤ maximum_snapshot_bytes)
      × (length items ≤ maximum_snapshot_items)

  -- The count of a snapshot that is ready is the length of its JSON, and both limits hold.
  abbrev pub IsExact : Worker Details → Type 0
  IsExact w = Exact w.snapshot_ready w.snapshot_bytes w.current.items

  pub updates : Topic → List (Update Details) → Worker Details → Worker Details
  unfolding update_snapshot
  updates topic [] w = w
  updates topic (u ∷ us) w =
      updates topic us (update_snapshot encoding u.limit u.others u.encoded topic u.event w).0

  array_bytes-positive : (xs : List (TopicObject Details)) → 2 ≤ array_bytes encoding xs
  array_bytes-positive [] = omega arith
  array_bytes-positive (x ∷ xs) = omega arith

  Exact-measured :
      (encoded : ℕ) (w : Worker Details)
      → w.snapshot_ready ≡ true
      → IsExact w
      → measured encoding encoded w ≡ array_bytes encoding w.current.items
  unfolding measured
  Exact-measured encoded w r h =
      let exact = subst (λ b. Exact b w.snapshot_bytes w.current.items) r h in
      let some_bytes = array_bytes-positive w.current.items in ground (arith, exact.0, some_bytes)

  IsExact-if :
      (a b : Bool) (p q r : Worker Details × Bool)
      → IsExact p.0
      → IsExact q.0
      → (a ≡ false → b ≡ false → IsExact r.0)
      → IsExact (if a then p else if b then q else r).0
  IsExact-if true b p q r h k l = h
  IsExact-if false true p q r h k l = k
  IsExact-if false false p q r h k l = l refl refl

  IsExact-update_snapshot :
      (limit others encoded : ℕ) (topic : Topic) (e : StreamEvent Details) (w : Worker Details)
      → ((o : TopicObject Details) → 1 ≤ object_bytes o)
      → IsExact w
      → IsExact (update_snapshot encoding limit others encoded topic e w).0
  unfolding update_snapshot
  IsExact-update_snapshot limit others encoded topic e w p h =
      let next = apply_stream_event_to_snapshot encoding topic w.current e in
      let delta = snapshot_event_size_delta encoding topic w.current e in
      let bytes = shift_by (measured encoding encoded w) delta in
      IsExact-if (w.stopping || not w.snapshot_ready)
        (ltb maximum_snapshot_items (length next.items)
          || ltb maximum_snapshot_bytes bytes
          || not (snapshot_fits limit others bytes))
        _ _ _ h tt
        (λ active fitting.
          let ready : w.snapshot_ready ≡ true = ground (arith, active) in
          let size = ap (λ n. shift_by n delta) (Exact-measured encoded w ready h) in
          let delta_size = apply-size_delta encoding topic w.current e p in
          subst (λ b. Exact b bytes next.items) (sym ready)
            (size ∙ sym delta_size, ground (arith, fitting), ground (arith, fitting)))

  IsExact-updates :
      (topic : Topic) (us : List (Update Details)) (w : Worker Details)
      → ((o : TopicObject Details) → 1 ≤ object_bytes o)
      → IsExact w
      → IsExact (updates topic us w)
  unfolding updates
  IsExact-updates topic [] w p h = h
  IsExact-updates topic (u ∷ us) w p h =
      IsExact-updates topic us _ p
        (IsExact-update_snapshot u.limit u.others u.encoded topic u.event w p h)

  IsExactResult : Result (Worker Details) → Type 0
  IsExactResult (err e) = Unit
  IsExactResult (ok w) = IsExact w

  IsExactResult-if :
      (a b : Bool) (d e : SnapshotError) (w : Worker Details)
      → (b ≡ false → IsExact w)
      → IsExactResult (if a then err d else if b then err e else ok w)
  unfolding IsExactResult
  IsExactResult-if true b d e w h = tt
  IsExactResult-if false true d e w h = tt
  IsExactResult-if false false d e w h = h refl

  IsExactResult-install_snapshot :
      (limit others : ℕ) (ended : Bool) (s : WatchSnapshot (TopicObject Details))
      (initial : List (StreamEvent Details)) (w : Worker Details)
      → IsExactResult
          (install_snapshot encoding limit others ended (array_bytes encoding s.items) s initial w)
  unfolding install_snapshot
  IsExactResult-install_snapshot limit others ended s initial w =
      let bytes = array_bytes encoding s.items in
      IsExactResult-if (w.stopping || ended)
        (ltb maximum_snapshot_items (length s.items)
          || ltb maximum_snapshot_bytes bytes
          || not (snapshot_fits limit others bytes))
        canceled limit_exceeded _
        (λ fitting. (refl, ground (arith, fitting), ground (arith, fitting)))

  -- From the moment that a snapshot is installed, whatever events follow and whatever the other workers
  -- hold: while the snapshot is ready, the running byte count is the length of the JSON of its objects,
  -- which is at most 10 MiB, and there are at most 10000 objects. An object has at least one byte.
  pub updates-IsExact :
      (limit others : ℕ) (ended : Bool) (topic : Topic) (s : WatchSnapshot (TopicObject Details))
      (initial : List (StreamEvent Details)) (us : List (Update Details))
      (w installed : Worker Details)
      → ((o : TopicObject Details) → 1 ≤ object_bytes o)
      → install_snapshot encoding limit others ended (array_bytes encoding s.items) s initial w
        ≡ ok installed
      → IsExact (updates topic us installed)
  unfolding IsExactResult
  updates-IsExact limit others ended topic s initial us w installed p h =
      let start =
        subst IsExactResult h (IsExactResult-install_snapshot limit others ended s initial w) in
      IsExact-updates topic us installed p start
