-- ===== src/Resources/Watch/Ring/Bounds.antt =====
-- The running byte count and the limits of the ring in internal/services/resources/watch.go.
use kubepeep.Base.{
  ℕ, ◌+◌, ◌-◌, ◌≤◌, ◌≡◌, ◌||◌, List, [], ◌∷◌, ◌++◌, arith, ltb, length, Bool-cases, inl, inr,
}
use kubepeep.Resources.Watch.{StreamEvent, Encoding}
use kubepeep.Resources.Watch.Queue.{maximum_stream_queue_events, maximum_stream_queue_bytes}
use kubepeep.Resources.Watch.Ring.{
  IdFormat, RingEvent, Ring, is_transient, trim, with_events, next_sequence, ring_event,
  is_too_large, append_kept, append, append_all,
}

module _ {ℓ} {Details : Type ℓ} where
  abbrev pub total : List (RingEvent Details) → ℕ
  total [] = 0
  total (x ∷ xs) = x.bytes + total xs

  abbrev pub IsFit : List (RingEvent Details) × ℕ → Type 0
  IsFit kept =
      (kept.1 ≡ total kept.0)
      × (kept.1 ≤ maximum_stream_queue_bytes)
      × (length kept.0 ≤ maximum_stream_queue_events)

  -- The byte count is that of the events, and both limits hold.
  abbrev pub IsBounded : Ring Details → Type 0
  IsBounded r = IsFit (r.events, r.bytes)

  total-append : (xs ys : List (RingEvent Details)) → total (xs ++ ys) ≡ total xs + total ys
  total-append [] ys = omega arith
  total-append (x ∷ xs) ys = omega (arith, total-append xs ys)

  IsFit-trim :
      (xs : List (RingEvent Details)) (bytes : ℕ) → bytes ≡ total xs → IsFit (trim xs bytes)
  unfolding trim
  IsFit-trim [] bytes h = (h, omega arith, omega arith)
  IsFit-trim (x ∷ xs) bytes h =
      let rest = IsFit-trim xs (bytes - x.bytes) (omega arith) in
      elim (Bool-cases (
        ltb maximum_stream_queue_events (length (x ∷ xs))
        || ltb maximum_stream_queue_bytes bytes)) [
          | inl q ↦ rw q rest
          | inr q ↦ rw q (h, ground (arith, q), ground (arith, q))
        ]

module _ {ℓ} {Details : Type ℓ} (encoding : Encoding Details) (f : IdFormat) where
  IsBounded-append_kept :
      (e : StreamEvent Details) (r : Ring Details)
      → IsBounded r
      → IsBounded (append_kept encoding f e r)
  unfolding append_kept with_events
  IsBounded-append_kept e r h =
      let item = ring_event encoding f r.epoch (next_sequence r.sequence) e in
      IsFit-trim (r.events ++ item ∷ []) (r.bytes + item.bytes)
        (omega (arith, h.0, total-append r.events (item ∷ [])))

  IsBounded-append :
      (e : StreamEvent Details) (r : Ring Details)
      → IsBounded r
      → IsBounded (append encoding f e r).0
  unfolding append
  IsBounded-append e r h =
      let kept = IsBounded-append_kept e r h in
      elim (Bool-cases (is_transient e.kind)) [
        | inl q ↦ rw q h
        | inr q ↦ elim (Bool-cases (is_too_large encoding f e)) [
          | inl t ↦ rw (q, t) h
          | inr t ↦ rw (q, t) kept
        ]
      ]

  -- Whatever is appended to a ring within its limits, the byte count stays that of its events, and it
  -- keeps at most 1 MiB and at most 1000 events.
  append_all-IsBounded :
      (es : List (StreamEvent Details)) (r : Ring Details)
      → IsBounded r
      → IsBounded (append_all encoding f es r)
  unfolding append_all
  append_all-IsBounded [] r h = h
  append_all-IsBounded (e ∷ es) r h = append_all-IsBounded es _ (IsBounded-append e r h)
