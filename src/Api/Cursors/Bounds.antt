-- ===== src/Api/Cursors/Bounds.antt =====
-- The memory bounds of internal/api/cursor_store.go.
use kubepeep.Base.{
  ℕ, zero, suc, ◌+◌, ◌-◌, ◌%◌, ◌^◌, ◌≤◌, ◌≡◌, ◌≢◌, ◌||◌, if◌then◌else◌, refl, String, str_eq,
  eq_iff, true, false, none, some, List, [], ◌∷◌, arith, length, Dict, lookup, insert, delete,
  IsDistinct, total, lookup-insert, insert-IsDistinct, lookup-delete_missing, delete-IsDistinct,
  total-insert, total-delete, length-total, ltb, leb, Bool-cases, ◌⊎◌, inl, inr,
}
use kubepeep.Api.Cursors.{
  CursorStoreEntry, CursorStore, size, purge, purge_locked, victim, drop, is_over, evict,
  evict_locked, store_entry, put,
}

-- Nothing is counted twice, every reference is a real one, and the limits hold.
pub record IsBounded (s : CursorStore) : Type 0 where
  pub distinct : IsDistinct s.entries
  pub named : lookup "" s.entries ≡ none
  pub counted : s.bytes ≡ total size s.entries
  pub within_entries : length s.entries ≤ s.max_entries
  pub within_bytes : s.bytes ≤ s.max_bytes
  pub room_entries : 1 ≤ s.max_entries
  pub room_bytes : s.entry_bytes ≤ s.max_bytes

lookup-purge :
    (now : ℕ) (k : String) (m : Dict CursorStoreEntry) (bytes : ℕ)
    → lookup k m ≡ none
    → lookup k (purge now m bytes).0 ≡ none
unfolding purge lookup
lookup-purge now k [] bytes h = refl
lookup-purge now k ((r, e) ∷ m) bytes h = elim (Bool-cases (leb e.expires_at now)) [
  | inl q ↦ rw q (lookup-purge now k m (bytes - length e.payload) (ground (arith, h, eq_iff r k)))
  | inr q ↦ rw q (ground (arith, h, eq_iff r k, lookup-purge now k m bytes))
]

purge-IsDistinct :
    (now : ℕ) (m : Dict CursorStoreEntry) (bytes : ℕ)
    → IsDistinct m
    → IsDistinct (purge now m bytes).0
unfolding purge
purge-IsDistinct now [] bytes d = tt
purge-IsDistinct now ((r, e) ∷ m) bytes d = elim (Bool-cases (leb e.expires_at now)) [
  | inl q ↦ rw q (purge-IsDistinct now m (bytes - length e.payload) d.1)
  | inr q ↦ rw q (lookup-purge now r m bytes d.0, purge-IsDistinct now m bytes d.1)
]

-- What the entries outside this range weigh is `more`.
purge_counts :
    (now : ℕ) (m : Dict CursorStoreEntry) (bytes more : ℕ)
    → bytes ≡ total size m + more
    → ((purge now m bytes).1 ≡ total size (purge now m bytes).0 + more)
      × (length (purge now m bytes).0 ≤ length m)
      × ((purge now m bytes).1 ≤ bytes)
unfolding purge
purge_counts now [] bytes more h = (omega (arith, h), omega arith, omega arith)
purge_counts now ((r, e) ∷ m) bytes more h = elim (Bool-cases (leb e.expires_at now)) [
  | inl q ↦
      rw q (omega (arith, h, purge_counts now m (bytes - length e.payload) more (omega (arith, h))))
  | inr q ↦
      rw q (omega (arith, h, purge_counts now m bytes (length e.payload + more) (omega (arith, h))))
]

-- The settings, which no operation changes.
abbrev pub IsAlike : CursorStore → CursorStore → Type 0
IsAlike s t =
    (t.max_entries ≡ s.max_entries)
    × (t.max_bytes ≡ s.max_bytes)
    × (t.entry_bytes ≡ s.entry_bytes)
    × (t.ttl ≡ s.ttl)
    × (t.clock ≡ s.clock)

pub purge_locked-IsBounded :
    (now : ℕ) (s : CursorStore) → IsBounded s → IsBounded (purge_locked now s).0
unfolding purge_locked
purge_locked-IsBounded now s v =
    let counts = purge_counts now s.entries s.bytes 0 (omega (arith, v.counted)) in
    record {
      distinct = purge-IsDistinct now s.entries s.bytes v.distinct;
      named = lookup-purge now "" s.entries s.bytes v.named;
      counted = omega (arith, counts);
      within_entries = omega (arith, counts, v.within_entries);
      within_bytes = omega (arith, counts, v.within_bytes);
      room_entries = v.room_entries;
      room_bytes = v.room_bytes;
    }

pub drop-IsBounded : (r : String) (s : CursorStore) → IsBounded s → IsBounded (drop r s)
unfolding drop
drop-IsBounded r s v = record {
  distinct = delete-IsDistinct r s.entries v.distinct;
  named = lookup-delete_missing r "" s.entries v.named;
  counted = omega (arith, v.counted, total-delete size r s.entries);
  within_entries = omega (
    arith,
    v.within_entries,
    length-total s.entries,
    length-total (delete r s.entries),
    total-delete (λ _. 1) r s.entries,
  );
  within_bytes = omega (arith, v.within_bytes);
  room_entries = v.room_entries;
  room_bytes = v.room_bytes;
}

evict-IsBounded :
    (fuel incoming : ℕ) (s : CursorStore) → IsBounded s → IsBounded (evict fuel incoming s)
unfolding evict
evict-IsBounded zero incoming s v = v
evict-IsBounded (suc fuel) incoming s v =
    let oldest = victim "" 0 s.entries in
    let rest = evict-IsBounded fuel incoming (drop oldest s) (drop-IsBounded oldest s v) in
    elim (Bool-cases (is_over incoming s)) [
      | inl q ↦ elim (Bool-cases (str_eq oldest "")) [
        | inl p ↦ rw (q, p) v
        | inr p ↦ rw (q, p) rest
      ]
      | inr q ↦ rw q v
    ]

victim_present :
    (reference : String) (oldest : ℕ) (m : Dict CursorStoreEntry)
    → (victim reference oldest m ≡ reference)
      ⊎ ((e : CursorStoreEntry) × (lookup (victim reference oldest m) m ≡ some e))
unfolding victim lookup
victim_present reference oldest [] = inl refl
victim_present reference oldest ((r, e) ∷ m) =
    let better = str_eq reference "" || ltb e.used_at oldest in
    let v = victim (if better then r else reference) (if better then e.used_at else oldest) m in
    elim (victim_present (if better then r else reference) (if better then e.used_at else oldest)
      m) [
        | inl q ↦ elim (Bool-cases better) [
          | inl b ↦ inr (e, ground (arith, q, b, eq_iff r v))
          | inr b ↦ inl (ground (arith, q, b))
        ]
        | inr (e', q) ↦ elim (Bool-cases (str_eq r v)) [
          | inl b ↦ inr (e, ground (arith, q, b))
          | inr b ↦ inr (e', ground (arith, q, b))
        ]
      ]

length-delete :
    (k : String) (e : CursorStoreEntry) (m : Dict CursorStoreEntry)
    → lookup k m ≡ some e
    → length (delete k m) + 1 ≡ length m
length-delete k e m h =
    ground (arith, h, length-total (delete k m), length-total m, total-delete (λ _. 1) k m)

pub evict-IsAlike : (fuel incoming : ℕ) (s : CursorStore) → IsAlike s (evict fuel incoming s)
unfolding evict drop
evict-IsAlike zero incoming s = (refl, refl, refl, refl, refl)
evict-IsAlike (suc fuel) incoming s =
    let rest = evict-IsAlike fuel incoming (drop (victim "" 0 s.entries) s) in ground (arith, rest)

lookup-evict_missing :
    (fuel incoming : ℕ) (k : String) (s : CursorStore)
    → lookup k s.entries ≡ none
    → lookup k (evict fuel incoming s).entries ≡ none
unfolding evict drop
lookup-evict_missing zero incoming k s h = h
lookup-evict_missing (suc fuel) incoming k s h =
    let oldest = victim "" 0 s.entries in
    let rest =
      lookup-evict_missing fuel incoming k (drop oldest s)
        (lookup-delete_missing oldest k s.entries h) in
    elim (Bool-cases (is_over incoming s)) [
      | inl q ↦ elim (Bool-cases (str_eq oldest "")) [
        | inl p ↦ rw (q, p) h
        | inr p ↦ rw (q, p) rest
      ]
      | inr q ↦ rw q h
    ]

is_over_nonempty :
    (incoming : ℕ) (s : CursorStore) → is_over incoming s ≡ true → 1 ≤ length s.entries
unfolding is_over
is_over_nonempty incoming s h = ground arith

victim-some :
    (m : Dict CursorStoreEntry)
    → lookup "" m ≡ none
    → 1 ≤ length m
    → (e : CursorStoreEntry) × (lookup (victim "" 0 m) m ≡ some e) × (victim "" 0 m ≢ "")
unfolding victim lookup
victim-some [] h l = elim l [ ]
victim-some ((r, e) ∷ m) h l =
    let v = victim r e.used_at m in
    elim (victim_present r e.used_at m) [
      | inl q ↦ (e, ground (arith, q, eq_iff r v), λ z. ground (arith, h, q, z, eq_iff r ""))
      | inr (e', q) ↦ elim (Bool-cases (str_eq r v)) [
        | inl b ↦ (e, ground (arith, b), λ z. ground (arith, h, b, z, eq_iff r "", eq_iff r v))
        | inr b ↦
            (e', ground (arith, q, b), λ z. ground (arith, h, q, b, z, eq_iff r "", eq_iff r v))
      ]
    ]

-- The loop ends because there is room or nothing is left.
evict_room :
    (fuel incoming : ℕ) (s : CursorStore)
    → lookup "" s.entries ≡ none
    → length s.entries ≤ fuel
    → is_over incoming (evict fuel incoming s) ≡ false
unfolding evict drop
evict_room zero incoming s h l = elim (Bool-cases (is_over incoming s)) [
  | inl q ↦ ground (arith, l, is_over_nonempty incoming s q)
  | inr q ↦ q
]
evict_room (suc fuel) incoming s h l = elim (Bool-cases (is_over incoming s)) [
  | inl q ↦
      let (e, present, real) = victim-some s.entries h (is_over_nonempty incoming s q) in
      let oldest = victim "" 0 s.entries in
      let rest =
        evict_room fuel incoming (drop oldest s) (lookup-delete_missing oldest "" s.entries h)
          (omega (arith, l, length-delete oldest e s.entries present)) in
      ground (arith, q, real, eq_iff oldest "", rest)
  | inr q ↦ ground (arith, q)
]

-- A reference that is not in use yet.
abbrev pub IsFresh : String → CursorStore → Type 0
IsFresh reference s = (reference ≢ "") × (lookup reference s.entries ≡ none)

empty_total : (m : Dict CursorStoreEntry) → length m ≤ 0 → total size m ≡ 0
empty_total [] h = refl
empty_total (x ∷ m) h = omega (arith, h)

store_entry_fits :
    (payload : List ℕ) (s : CursorStore)
    → length payload ≤ s.entry_bytes
    → is_over (length payload) s ≡ false
    → IsBounded s
    → s.bytes + length payload ≤ s.max_bytes
unfolding is_over
store_entry_fits payload s small room v =
    ground (arith, small, room, v.counted, v.room_bytes, empty_total s.entries)

store_entry-IsBounded :
    (now : ℕ) (reference : String) (payload : List ℕ) (s : CursorStore)
    → IsFresh reference s
    → length payload ≤ s.entry_bytes
    → is_over (length payload) s ≡ false
    → IsBounded s
    → IsBounded (store_entry now reference payload s)
unfolding store_entry is_over
store_entry-IsBounded now reference payload s (real, fresh) small room v =
    let entry : CursorStoreEntry = record {
      payload = payload;
      expires_at = now + s.ttl;
      used_at = (s.clock + 1) % 2 ^ 64;
    } in
    let entries = insert reference entry s.entries in
    let counted = total-insert size reference entry s.entries in
    let grown = total-insert (λ _. 1) reference entry s.entries in
    let sizes : (total size entries ≡ total size s.entries + length payload)
        × (length entries ≡ length s.entries + 1) =
      ground (arith, fresh, counted, grown, length-total entries, length-total s.entries) in
    let fits = store_entry_fits payload s small room v in
    record {
      distinct = insert-IsDistinct reference entry s.entries v.distinct;
      named =
          ground
            (arith, v.named, real, lookup-insert reference "" entry s.entries, eq_iff reference "");
      counted = omega (arith, v.counted, sizes);
      within_entries = ground (arith, room, sizes, v.room_entries);
      within_bytes = fits;
      room_entries = v.room_entries;
      room_bytes = v.room_bytes;
    }

pub put-IsBounded :
    (now : ℕ) (reference : String) (payload : List ℕ) (s : CursorStore)
    → IsFresh reference s
    → IsBounded s
    → IsBounded (put now (some reference) (some payload) s).0
unfolding put evict_locked purge_locked
put-IsBounded now reference payload s (real, fresh) v =
    elim (Bool-cases (ltb s.entry_bytes (length payload))) [
      | inl q ↦ rw q v
      | inr q ↦
          let t = (purge_locked now s).0 in
          let n = length t.entries in
          let bounded : IsBounded t = purge_locked-IsBounded now s v in
          let alike = evict-IsAlike n (length payload) t in
          rw q (
            store_entry-IsBounded now reference payload (evict n (length payload) t)
              (
                real,
                lookup-evict_missing n (length payload) reference t
                    (lookup-purge now reference s.entries s.bytes fresh),
              )
              (ground (arith, q, alike))
              (evict_room n (length payload) t bounded.named (omega arith))
              (evict-IsBounded n (length payload) t bounded))
    ]
