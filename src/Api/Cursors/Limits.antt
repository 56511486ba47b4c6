-- ===== src/Api/Cursors/Limits.antt =====
-- What the store of internal/api/cursor_store.go holds after any operations, and what it gives back.
use kubepeep.Base.{
  ℕ, ◌+◌, ◌%◌, ◌^◌, ◌≤◌, ◌≡◌, ◌≢◌, if◌then◌else◌, refl, String, str_eq, eq_iff, Option, none, some,
  List, [], ◌∷◌, arith, length, lookup, insert, total, lookup-insert, insert-IsDistinct,
  total-insert, length-total, leb, Bool-cases, inl, inr,
}
use kubepeep.Api.Cursors.{
  CursorStoreEntry, CursorStore, new_cursor_store, size, found, get, remove, purge_expired,
  Operation, puts, gets, removes, purges, perform, run,
}
use kubepeep.Api.Cursors.Bounds.{
  IsBounded, IsFresh, purge_locked-IsBounded, drop-IsBounded, put-IsBounded,
}

found-IsBounded :
    (now : ℕ) (reference : String) (o : Option CursorStoreEntry) (s : CursorStore)
    → reference ≢ ""
    → lookup reference s.entries ≡ o
    → IsBounded s
    → IsBounded (found now reference o s).0
unfolding found
found-IsBounded now reference none s h e v = v
found-IsBounded now reference (some x) s h e v = elim (Bool-cases (leb x.expires_at now)) [
  | inl q ↦ rw q (drop-IsBounded reference s v)
  | inr q ↦
      let y : CursorStoreEntry = record x { used_at = (s.clock + 1) % 2 ^ 64 } in
      let entries = insert reference y s.entries in
      let counted = total-insert size reference y s.entries in
      let grown = total-insert (λ _. 1) reference y s.entries in
      let same : (total size entries ≡ total size s.entries) × (length entries ≡ length s.entries) =
        ground (arith, e, counted, grown, length-total entries, length-total s.entries) in
      rw q record {
        distinct = insert-IsDistinct reference y s.entries v.distinct;
        named =
            ground (arith, v.named, h, lookup-insert reference "" y s.entries, eq_iff reference "");
        counted = omega (arith, v.counted, same);
        within_entries = omega (arith, v.within_entries, same);
        within_bytes = v.within_bytes;
        room_entries = v.room_entries;
        room_bytes = v.room_bytes;
      }
]

get-IsBounded :
    (now : ℕ) (reference : String) (s : CursorStore)
    → IsBounded s
    → IsBounded (get now reference s).0
unfolding get
get-IsBounded now reference s v = elim (Bool-cases (str_eq reference "")) [
  | inl q ↦ rw q v
  | inr q ↦ rw q (
      found-IsBounded now reference (lookup reference s.entries) s
        (λ z. ground (arith, q, z, eq_iff reference "")) refl v)
]

remove-IsBounded :
    (reference : String) (s : CursorStore) → IsBounded s → IsBounded (remove reference s)
unfolding remove
remove-IsBounded reference s v = elim (Bool-cases (str_eq reference "")) [
  | inl q ↦ rw q v
  | inr q ↦ rw q (drop-IsBounded reference s v)
]

-- A `Put` draws a reference that is not in use.
abbrev pub IsFreshFor : Operation → CursorStore → Type 0
IsFreshFor (puts now reference payload) s = IsFresh reference s
IsFreshFor _ s = Unit {0}

abbrev pub IsFreshRun : CursorStore → List Operation → Type 0
IsFreshRun s [] = Unit
IsFreshRun s (x ∷ xs) = IsFreshFor x s × IsFreshRun (perform x s) xs

pub perform-IsBounded :
    (x : Operation) (s : CursorStore) → IsFreshFor x s → IsBounded s → IsBounded (perform x s)
unfolding perform purge_expired
perform-IsBounded (puts now reference payload) s f v = put-IsBounded now reference payload s f v
perform-IsBounded (gets now reference) s f v = get-IsBounded now reference s v
perform-IsBounded (removes reference) s f v = remove-IsBounded reference s v
perform-IsBounded (purges now) s f v = purge_locked-IsBounded now s v

pub run-IsBounded :
    (s : CursorStore) (xs : List Operation) → IsFreshRun s xs → IsBounded s → IsBounded (run s xs)
unfolding run
run-IsBounded s [] f v = v
run-IsBounded s (x ∷ xs) (f, fs) v = run-IsBounded (perform x s) xs fs (perform-IsBounded x s f v)

pub new-IsBounded : (ttl : ℕ) → IsBounded (new_cursor_store ttl)
unfolding new_cursor_store lookup
new-IsBounded ttl = record {
  distinct = tt;
  named = refl;
  counted = refl;
  within_entries = omega arith;
  within_bytes = omega arith;
  room_entries = omega arith;
  room_bytes = omega arith;
}

-- After any operations on a new store, in which every `Put` draws a reference that is not in use, the
-- byte count is the sum of the payloads' lengths, and neither limit is exceeded.
pub run_parked :
    (ttl : ℕ) (xs : List Operation)
    → IsFreshRun (new_cursor_store ttl) xs
    → let s = run (new_cursor_store ttl) xs in
      (s.bytes ≡ total size s.entries)
      × (s.bytes ≤ s.max_bytes)
      × (length s.entries ≤ s.max_entries)
run_parked ttl xs f =
    let v = run-IsBounded (new_cursor_store ttl) xs f (new-IsBounded ttl) in
    (v.counted, v.within_bytes, v.within_entries)

pub get_stored :
    (later : ℕ) (reference : String) (e : CursorStoreEntry) (s : CursorStore)
    → reference ≢ ""
    → lookup reference s.entries ≡ some e
    → (get later reference s).1 ≡ (if leb e.expires_at later then none else some e.payload)
unfolding get found
get_stored later reference e s h q = elim (Bool-cases (str_eq reference "")) [
  | inl p ↦ ground (arith, p, h, eq_iff reference "")
  | inr p ↦ rw (p, q) (ground arith)
]
