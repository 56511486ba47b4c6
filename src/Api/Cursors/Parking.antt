-- ===== src/Api/Cursors/Parking.antt =====
-- How long a reference of internal/api/cursor_store.go gives its payload back, if nothing takes it away.
use kubepeep.Base.{
  ℕ, zero, suc, ◌+◌, ◌-◌, ◌≤◌, ◌<◌, ◌≡◌, ◌≢◌, inl, inr, refl, ap, ◌∙◌, if◌then◌else◌, String,
  str_eq, eq_iff, false, Option, none, some, List, [], ◌∷◌, arith, length, lookup, Dict, IsDistinct,
  lookup-insert_self, lookup-insert_ne, lookup-delete_ne, leb, ltb, Bool-cases,
}
use kubepeep.Api.Cursors.{
  CursorStoreEntry, CursorStore, new_cursor_store, purge, purge_locked, drop, is_over, evict,
  evict_locked, store_entry, put, found, get, remove, purge_expired, Operation, puts, gets, removes,
  purges, perform, run,
}
use kubepeep.Api.Cursors.Bounds.{IsBounded, IsFresh, put-IsBounded, evict-IsAlike}
use kubepeep.Api.Cursors.Limits.{
  IsFreshFor, IsFreshRun, get_stored, perform-IsBounded, run-IsBounded, new-IsBounded,
}

-- What a purge leaves of an entry.
abbrev pub alive : ℕ → Option CursorStoreEntry → Option CursorStoreEntry
alive now none = none
alive now (some e) = if leb e.expires_at now then none else some e

pub purge-lookup :
    (now : ℕ) (k : String) (m : Dict CursorStoreEntry) (bytes : ℕ)
    → IsDistinct m
    → lookup k (purge now m bytes).0 ≡ alive now (lookup k m)
unfolding purge lookup
purge-lookup now k [] bytes d = refl
purge-lookup now k ((i, e) ∷ m) bytes d = ground (
  arith,
  eq_iff i k,
  d,
  purge-lookup now k m bytes d.1,
  purge-lookup now k m (bytes - length e.payload) d.1,
)

module _ (reference : String) (payload : List ℕ) (expiry : ℕ) where
  -- The entry is there.
  unfoldable pub IsPresent : CursorStore → Type 0
  IsPresent s =
      (e : CursorStoreEntry) × (lookup reference s.entries ≡ some e)
      × (e.payload ≡ payload)
      × (e.expires_at ≡ expiry)

  -- Nothing takes the entry away: all is done before it expires, a `Put` finds room for its payload, and
  -- another reference is removed.
  abbrev pub IsQuiet : Operation → CursorStore → Type 0
  IsQuiet (puts now r p) s = (now < expiry) × (is_over (length p) (purge_locked now s).0 ≡ false)
  IsQuiet (gets now r) s = now < expiry
  IsQuiet (removes r) s = r ≢ reference
  IsQuiet (purges now) s = now < expiry

  abbrev pub IsQuietRun : CursorStore → List Operation → Type 0
  IsQuietRun s [] = Unit
  IsQuietRun s (x ∷ xs) = IsQuiet x s × IsQuietRun (perform x s) xs

  IsPresent-purge_locked :
      (now : ℕ) (s : CursorStore)
      → now < expiry
      → IsDistinct s.entries
      → IsPresent s
      → IsPresent (purge_locked now s).0
  unfolding IsPresent purge_locked
  IsPresent-purge_locked now s early d (e, found, same, dies) =
      let kept = purge-lookup now reference s.entries s.bytes d in
      (e, ground (arith, kept, found, dies, early), same, dies)

  evict_roomy :
      (fuel incoming : ℕ) (s : CursorStore) → is_over incoming s ≡ false → evict fuel incoming s ≡ s
  unfolding evict
  evict_roomy zero incoming s q = refl
  evict_roomy (suc fuel) incoming s q = rw q refl

  IsPresent-put :
      (now : ℕ) (r : String) (p : List ℕ) (s : CursorStore)
      → r ≢ reference
      → IsQuiet (puts now r p) s
      → IsBounded s
      → IsPresent s
      → IsPresent (put now (some r) (some p) s).0
  unfolding put evict_locked store_entry IsPresent
  IsPresent-put now r p s other (early, roomy) v h =
      let purged = (purge_locked now s).0 in
      let (e, found, same, dies) = IsPresent-purge_locked now s early v.distinct h in
      elim (Bool-cases (ltb s.entry_bytes (length p))) [
        | inl q ↦ rw q h
        | inr q ↦
            rw (q, evict_roomy (length purged.entries) (length p) purged roomy)
              (e, lookup-insert_ne r reference _ purged.entries other ∙ found, same, dies)
      ]

  IsPresent-found :
      (now : ℕ) (r : String) (o : Option CursorStoreEntry) (s : CursorStore)
      → now < expiry
      → lookup r s.entries ≡ o
      → IsPresent s
      → IsPresent (found now r o s).0
  unfolding found drop IsPresent
  IsPresent-found now r none s early q h = h
  IsPresent-found now r (some x) s early q (e, at, same, dies) =
      elim (Bool-cases (str_eq r reference)) [
        | inl p ↦
            let here : r ≡ reference = (eq_iff r reference).0 p in
            let one : x ≡ e = ground (arith, q, at, here) in
            let lives : leb x.expires_at now ≡ false =
              ground (arith, ap (λ e. e.expires_at) one, dies, early) in
            rw (lives, here)
              (
                _,
                lookup-insert_self reference _ s.entries,
                ap (λ e. e.payload) one ∙ same,
                ap (λ e. e.expires_at) one ∙ dies,
              )
        | inr p ↦
            let other : r ≢ reference = λ e. ground (arith, p, e, eq_iff r reference) in
            elim (Bool-cases (leb x.expires_at now)) [
              | inl l ↦ rw l (e, lookup-delete_ne r reference s.entries other ∙ at, same, dies)
              | inr l ↦ rw l (e, lookup-insert_ne r reference _ s.entries other ∙ at, same, dies)
            ]
      ]

  IsPresent-get :
      (now : ℕ) (r : String) (s : CursorStore)
      → now < expiry
      → IsPresent s
      → IsPresent (get now r s).0
  unfolding get
  IsPresent-get now r s early h = elim (Bool-cases (str_eq r "")) [
    | inl q ↦ rw q h
    | inr q ↦ rw q (IsPresent-found now r (lookup r s.entries) s early refl h)
  ]

  IsPresent-remove :
      (r : String) (s : CursorStore) → r ≢ reference → IsPresent s → IsPresent (remove r s)
  unfolding remove drop IsPresent
  IsPresent-remove r s other (e, at, same, dies) = elim (Bool-cases (str_eq r "")) [
    | inl q ↦ rw q (e, at, same, dies)
    | inr q ↦ rw q (e, lookup-delete_ne r reference s.entries other ∙ at, same, dies)
  ]

  -- A reference that is drawn while the entry is there is another one.
  fresh_other : (r : String) (s : CursorStore) → IsFresh r s → IsPresent s → r ≢ reference
  unfolding IsPresent
  fresh_other r s (named, unused) (e, at, same, dies) = λ q. ground (arith, q, at, unused)

  IsPresent-perform :
      (x : Operation) (s : CursorStore)
      → IsFreshFor x s
      → IsQuiet x s
      → IsBounded s
      → IsPresent s
      → IsPresent (perform x s)
  unfolding perform purge_expired
  IsPresent-perform (puts now r p) s f quiet v h =
      IsPresent-put now r p s (fresh_other r s f h) quiet v h
  IsPresent-perform (gets now r) s f quiet v h = IsPresent-get now r s quiet h
  IsPresent-perform (removes r) s f quiet v h = IsPresent-remove r s quiet h
  IsPresent-perform (purges now) s f quiet v h = IsPresent-purge_locked now s quiet v.distinct h

  IsPresent-run :
      (s : CursorStore) (xs : List Operation)
      → IsFreshRun s xs
      → IsQuietRun s xs
      → IsBounded s
      → IsPresent s
      → IsPresent (run s xs)
  unfolding run
  IsPresent-run s [] f q v h = h
  IsPresent-run s (x ∷ xs) (f, fs) (q, qs) v h =
      IsPresent-run (perform x s) xs fs qs (perform-IsBounded x s f v)
        (IsPresent-perform x s f q v h)

  IsPresent-get_stored :
      (later : ℕ) (s : CursorStore)
      → reference ≢ ""
      → IsPresent s
      → (get later reference s).1 ≡ (if leb expiry later then none else some payload)
  unfolding IsPresent
  IsPresent-get_stored later s named (e, at, same, dies) =
      get_stored later reference e s named at ∙ rw (same, dies) refl

-- The entry that a `Put` stores.
pub put-IsPresent :
    (now : ℕ) (reference : String) (payload : List ℕ) (s : CursorStore)
    → length payload ≤ s.entry_bytes
    → IsPresent reference payload (now + s.ttl) (put now (some reference) (some payload) s).0
unfolding put evict_locked purge_locked store_entry IsPresent
put-IsPresent now reference payload s l =
    let purged = (purge_locked now s).0 in
    let alike = evict-IsAlike (length purged.entries) (length payload) purged in
    let small : ltb s.entry_bytes (length payload) ≡ false = ground (arith, l) in
    rw small (_, lookup-insert_self reference _ _, refl, ground (arith, alike))

-- A payload that has been put is given back under its reference until it expires, and not from then on,
-- whatever was done with the store before the `Put`, and whatever is done between the two as long as it
-- is done before the payload expires, each `Put` finds room for its payload without an eviction, and
-- another reference is removed. Each `Put` draws a reference that is not in use, and the payload is no
-- larger than an entry may be.
pub put-get :
    (ttl : ℕ) (before between : List Operation) (now later : ℕ) (reference : String)
    (payload : List ℕ)
    → IsFreshRun (new_cursor_store ttl) before
    → let s = run (new_cursor_store ttl) before in
      let t = (put now (some reference) (some payload) s).0 in
      IsFresh reference s
      → length payload ≤ s.entry_bytes
      → IsFreshRun t between
      → IsQuietRun reference payload (now + s.ttl) t between
      → (get later reference (run t between)).1
        ≡ (if leb (now + s.ttl) later then none else some payload)
put-get ttl before between now later reference payload f fresh l fs quiet =
    let s = run (new_cursor_store ttl) before in
    let t = (put now (some reference) (some payload) s).0 in
    let v = run-IsBounded (new_cursor_store ttl) before f (new-IsBounded ttl) in
    IsPresent-get_stored reference payload (now + s.ttl) later (run t between) fresh.0 (
      IsPresent-run reference payload (now + s.ttl) t between fs quiet
        (put-IsBounded now reference payload s fresh v) (put-IsPresent now reference payload s l))
