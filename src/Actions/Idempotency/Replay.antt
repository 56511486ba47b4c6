-- ===== src/Actions/Idempotency/Replay.antt =====
-- What a repeated key finds in the registry of internal/services/actions/idempotency.go.
use kubepeep.Base.{
  ℕ, ◌+◌, ◌<◌, ◌≡◌, String, eq_iff, true, false, some, [], ◌∷◌, length, get_elem?-set_self, arith,
  Dict, lookup, insert, lookup-insert_self,
}
use kubepeep.Actions.Idempotency.{
  IdempotencyEntry, IdempotencyIdentity, IdempotencyRegistry, Answer, Finds, idempotency_conflict,
  waiting, ended, same_identity, is_expired, is_canceled, prune_locked, begin, complete, advance,
}

prune_keeps :
    (now ttl : ℕ) (k : String) (m : Dict IdempotencyEntry) (e : IdempotencyEntry)
    → lookup k m ≡ some e
    → is_expired now ttl e ≡ false
    → lookup k (prune_locked now ttl m) ≡ some e
unfolding prune_locked lookup
prune_keeps now ttl k [] e h x = ground arith
prune_keeps now ttl k ((j, d) ∷ m) e h x = ground (arith, prune_keeps now ttl k m e, eq_iff j k)

module _ {ℓ} {T : Type ℓ} (zero_value : T) where
  -- While an entry runs or its time has not passed, a call under its key starts no execution: with
  -- the same identity it waits for that entry, with another one it is refused.
  begin_repeated :
      (now : ℕ) (key : String) (d : IdempotencyIdentity) (e : IdempotencyEntry)
      (r : IdempotencyRegistry T)
      → lookup key r.entries ≡ some e
      → is_expired now r.ttl e ≡ false
      → (same_identity e.identity d ≡ true → (begin zero_value now key d r).1 ≡ waiting e.number)
        × (same_identity e.identity d ≡ false
            → (begin zero_value now key d r).1
              ≡ ended (record {
                value = zero_value;
                replayed = false;
                error = some idempotency_conflict;
              }))
        × (lookup key (begin zero_value now key d r).0.entries ≡ some e)
  unfolding begin
  begin_repeated now key d e r h x =
      let kept = prune_keeps now r.ttl key r.entries e h x in ground (arith, kept)

  -- A call that repeats a completed one, with the same key and identity and before the time to live
  -- has passed, gets the value and the error of that execution, marked as replayed, unless the
  -- execution was canceled or the caller's own context is done.
  pub complete-begin_replays :
      (now later : ℕ) (key : String) (d : IdempotencyIdentity) (e : IdempotencyEntry) (a : Answer T)
      (f : Finds T) (r : IdempotencyRegistry T)
      → lookup key r.entries ≡ some e
      → same_identity e.identity d ≡ true
      → e.number < length r.answers
      → is_canceled a.error ≡ false
      → later < now + r.ttl
      → f.is_done ≡ false
      → let (r', p) = begin zero_value later key d (complete now key e.number a r) in
        (p ≡ waiting e.number)
        × ((advance zero_value f r' p).1
            ≡ ended (record { value = a.value; replayed = true; error = a.error }))
  unfolding begin complete advance
  complete-begin_replays now later key d e a f r h s n c t g =
      let stamped = record e { terminal_at = some now } in
      let kept =
        prune_keeps later r.ttl key (insert key stamped r.entries) stamped
          (lookup-insert_self key stamped r.entries) (ground arith) in
      ground (arith, kept, get_elem?-set_self r.answers e.number (some a) n)
