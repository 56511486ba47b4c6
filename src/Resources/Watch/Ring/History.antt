-- ===== src/Resources/Watch/Ring/History.antt =====
-- A resumed stream of internal/services/resources/watch.go against all events that were appended.
use kubepeep.Base.{
  ℕ, ◌+◌, ◌-◌, ◌≡◌, refl, sym, ap, ◌∙◌, subst, Bool, true, false, not, ◌||◌, Option, none, some,
  List, [], ◌∷◌, ◌++◌, arith, if◌then◌else◌, ltb, length, same_text, same_text_iff,
}
use mathlib.Core.List.{append_assoc, append-nil}
use kubepeep.Resources.Watch.{StreamEvent, Encoding}
use kubepeep.Resources.Watch.Queue.{maximum_stream_queue_events, maximum_stream_queue_bytes}
use kubepeep.Resources.Watch.Ring.{
  IdFormat, RingEvent, Ring, Replay, replayed, malformed, unavailable, is_transient, next_sequence,
  trim, with_events, events_after, resume, replay_of, replay_entries, ring_event, is_too_large,
  append_kept, append, append_all,
}

module _ {ℓ} {Details : Type ℓ} where
  abbrev IsSuffix : List (RingEvent Details) → List (RingEvent Details) → Type ℓ
  IsSuffix xs whole = (dropped : List (RingEvent Details)) × (whole ≡ dropped ++ xs)

  IsSuffix-trans :
      (xs ys zs : List (RingEvent Details)) → IsSuffix xs ys → IsSuffix ys zs → IsSuffix xs zs
  IsSuffix-trans xs ys zs (c, h) (d, k) =
      (d ++ c, k ∙ ap (λ us. d ++ us) h ∙ sym (append_assoc d c xs))

  IsSuffix-if :
      (b : Bool) (bytes : ℕ) (x : RingEvent Details) (xs : List (RingEvent Details))
      (rest : List (RingEvent Details) × ℕ)
      → IsSuffix rest.0 xs
      → IsSuffix (if b then rest else (x ∷ xs, bytes)).0 (x ∷ xs)
  IsSuffix-if true bytes x xs rest (d, h) = (x ∷ d, ap (λ ys. x ∷ ys) h)
  IsSuffix-if false bytes x xs rest h = ([], refl)

  IsSuffix-trim : (xs : List (RingEvent Details)) (bytes : ℕ) → IsSuffix (trim xs bytes).0 xs
  unfolding trim
  IsSuffix-trim [] bytes = ([], refl)
  IsSuffix-trim (x ∷ xs) bytes =
      IsSuffix-if
        (ltb maximum_stream_queue_events (length (x ∷ xs)) || ltb maximum_stream_queue_bytes bytes)
        bytes x xs (trim xs (bytes - x.bytes)) (IsSuffix-trim xs (bytes - x.bytes))

  -- The events behind one with an id.
  abbrev pub AreAfter : List ℕ → List (RingEvent Details) → List (RingEvent Details) → Type ℓ
  AreAfter last rest whole =
      (before : List (RingEvent Details)) × (x : RingEvent Details) × (x.id ≡ last)
      × (whole ≡ before ++ x ∷ rest)

  AreAfter-suffix :
      (last : List ℕ) (rest xs whole : List (RingEvent Details))
      → AreAfter last rest xs
      → IsSuffix xs whole
      → AreAfter last rest whole
  AreAfter-suffix last rest xs whole (before, x, i, h) (d, k) =
      (d ++ before, x, i, k ∙ ap (λ us. d ++ us) h ∙ sym (append_assoc d before (x ∷ rest)))

  AreResumed : List ℕ → List (RingEvent Details) → Option (List (RingEvent Details)) → Type ℓ
  AreResumed last xs none = Unit
  AreResumed last xs (some rest) = AreAfter last rest xs

  AreResumed-if :
      (b : Bool) (last : List ℕ) (x : RingEvent Details) (xs : List (RingEvent Details))
      (later : Option (List (RingEvent Details)))
      → same_text x.id last ≡ b
      → AreResumed last xs later
      → AreResumed last (x ∷ xs) (if b then some xs else later)
  unfolding AreResumed
  AreResumed-if true last x xs later h k = ([], x, (same_text_iff x.id last).0 h, refl)
  AreResumed-if false last x xs none h k = tt
  AreResumed-if false last x xs (some rest) h (before, y, i, k) =
      (x ∷ before, y, i, ap (λ us. x ∷ us) k)

  AreResumed-events_after :
      (last : List ℕ) (xs : List (RingEvent Details)) → AreResumed last xs (events_after last xs)
  unfolding events_after AreResumed
  AreResumed-events_after last [] = tt
  AreResumed-events_after last (x ∷ xs) =
      AreResumed-if _ last x xs _ refl (AreResumed-events_after last xs)

  -- What a reply says of the ring: its binding is the client's, and its events are those behind the id.
  IsReply : List ℕ → List ℕ → Ring Details → Replay (List (RingEvent Details)) → Type ℓ
  IsReply last binding r malformed = Unit
  IsReply last binding r unavailable = Unit
  IsReply last binding r (replayed rest) = (binding ≡ r.binding) × AreAfter last rest r.events

  IsReply-resume :
      (last binding : List ℕ) (r : Ring Details) (found : Option (List (RingEvent Details)))
      → binding ≡ r.binding
      → AreResumed last r.events found
      → IsReply last binding r (resume found)
  unfolding IsReply resume AreResumed
  IsReply-resume last binding r none b h = tt
  IsReply-resume last binding r (some rest) b h = (b, h)

  IsReply-if :
      (b c : Bool) (last binding : List ℕ) (r : Ring Details)
      (reply : Replay (List (RingEvent Details)))
      → (c ≡ false → IsReply last binding r reply)
      → IsReply last binding r (if b then unavailable else if c then unavailable else reply)
  unfolding IsReply
  IsReply-if true c last binding r reply h = tt
  IsReply-if false true last binding r reply h = tt
  IsReply-if false false last binding r reply h = h refl

  IsReply-replay_of :
      (epoch : Option (List ℕ)) (last binding : List ℕ) (r : Ring Details)
      → IsReply last binding r (replay_of epoch last binding r)
  unfolding replay_of IsReply
  IsReply-replay_of none last binding r = tt
  IsReply-replay_of (some epoch) last binding r =
      IsReply-if (not (same_text epoch r.epoch)) (not (same_text binding r.binding)) last binding r
        (resume (events_after last r.events))
        (λ h.
          let same : same_text binding r.binding ≡ true = ground (arith, h) in
          IsReply-resume last binding r _ ((same_text_iff binding r.binding).0 same)
            (AreResumed-events_after last r.events))

  IsReply-replay_entries :
      (f : IdFormat) (last binding : List ℕ) (r : Ring Details)
      → IsReply last binding r (replay_entries f last binding r)
  unfolding replay_entries
  IsReply-replay_entries f last binding r = IsReply-replay_of _ last binding r

module _ {ℓ} {Details : Type ℓ} (encoding : Encoding Details) (f : IdFormat) where
  -- All events that a ring takes, with the ids that it gives them, in order.
  unfoldable pub numbered : List ℕ → ℕ → List (StreamEvent Details) → List (RingEvent Details)
  unfolding ring_event is_transient is_too_large next_sequence
  numbered epoch n [] = []
  numbered epoch n (e ∷ es) =
      let skipped = numbered epoch n es in
      let later = numbered epoch (next_sequence n) es in
      if is_transient e.kind
      then skipped
      else if is_too_large encoding f e
      then skipped
      else ring_event encoding f epoch (next_sequence n) e ∷ later

  Keeps : List (StreamEvent Details) → Ring Details → List (RingEvent Details) → Type ℓ
  Keeps es r whole = IsSuffix (append_all encoding f es r).events whole

  Keeps-if :
      (b c : Bool) (es : List (StreamEvent Details)) (r kept : Ring Details)
      (i j k : Option (List ℕ)) (skipped taken : List (RingEvent Details))
      → Keeps es r skipped
      → Keeps es kept taken
      → (h : List (RingEvent Details)) → (u v : List (RingEvent Details)) → skipped ≡ h ++ u
      → taken ≡ h ++ v
      → let out : Ring Details × Option (List ℕ) =
          if b then (r, i) else if c then (r, j) else (kept, k) in
        Keeps es out.0 (h ++ (if b then u else if c then u else v))
  Keeps-if true c es r kept i j k skipped taken s t h u v p q = subst (Keeps es r) p s
  Keeps-if false true es r kept i j k skipped taken s t h u v p q = subst (Keeps es r) p s
  Keeps-if false false es r kept i j k skipped taken s t h u v p q = subst (Keeps es kept) q t

  IsSuffix-append_kept :
      (e : StreamEvent Details) (r : Ring Details) (h : List (RingEvent Details))
      → IsSuffix r.events h
      → IsSuffix
          (append_kept encoding f e r).events
          (h ++ ring_event encoding f r.epoch (next_sequence r.sequence) e ∷ [])
  unfolding append_kept with_events
  IsSuffix-append_kept e r h (d, p) =
      let item = ring_event encoding f r.epoch (next_sequence r.sequence) e in
      let longer = ap (λ us. us ++ item ∷ []) p ∙ append_assoc d r.events (item ∷ []) in
      IsSuffix-trans _ (r.events ++ item ∷ []) _
        (IsSuffix-trim (r.events ++ item ∷ []) (r.bytes + item.bytes)) (d, longer)

  Keeps-append_all :
      (es : List (StreamEvent Details)) (r : Ring Details) (h : List (RingEvent Details))
      → IsSuffix r.events h
      → Keeps es r (h ++ numbered r.epoch r.sequence es)
  unfolding Keeps append_all append numbered
  Keeps-append_all [] r h p = subst (IsSuffix r.events) (sym (append-nil h)) p
  Keeps-append_all (e ∷ es) r h p =
      let item = ring_event encoding f r.epoch (next_sequence r.sequence) e in
      let kept = append_kept encoding f e r in
      Keeps-if (is_transient e.kind) (is_too_large encoding f e) es r kept (some []) none _ _ _
        (Keeps-append_all es r h p)
        (Keeps-append_all es kept (h ++ item ∷ []) (IsSuffix-append_kept e r h p)) h _
        (item ∷ numbered r.epoch (next_sequence r.sequence) es) refl
        (append_assoc h (item ∷ []) (numbered r.epoch (next_sequence r.sequence) es))

  binding-append :
      (e : StreamEvent Details) (r : Ring Details) → (append encoding f e r).0.binding ≡ r.binding
  unfolding append append_kept with_events
  binding-append e r = ground arith

  binding-append_all :
      (es : List (StreamEvent Details)) (r : Ring Details)
      → (append_all encoding f es r).binding ≡ r.binding
  unfolding append_all
  binding-append_all [] r = refl
  binding-append_all (e ∷ es) r =
      binding-append_all es (append encoding f e r).0 ∙ binding-append e r

  -- A client that resumes a stream misses nothing: whatever was appended to a ring that was empty, a
  -- reply has the events behind one with the client's id, all of them and in order, in the list of all
  -- events that were ever taken, and the client's binding is the ring's.
  pub append_all-replay_entries :
      (es : List (StreamEvent Details)) (r : Ring Details) (last binding : List ℕ)
      (rest : List (RingEvent Details))
      → r.events ≡ []
      → replay_entries f last binding (append_all encoding f es r) ≡ replayed rest
      → (binding ≡ r.binding) × AreAfter last rest (numbered r.epoch r.sequence es)
  unfolding IsReply Keeps
  append_all-replay_entries es r last binding rest h k =
      let reply =
        subst (IsReply last binding (append_all encoding f es r)) k
          (IsReply-replay_entries f last binding (append_all encoding f es r)) in
      (
        reply.0 ∙ binding-append_all es r,
        AreAfter-suffix last rest _ _ reply.1 (Keeps-append_all es r [] ([], sym h)),
      )
