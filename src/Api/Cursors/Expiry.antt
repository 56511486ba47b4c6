-- ===== src/Api/Cursors/Expiry.antt =====
-- What a reference of internal/api/cursor_store.go gives back at most, whatever is done with the store.
use kubepeep.Base.{
  ℕ, zero, suc, ◌+◌, ◌≤◌, ◌<◌, ◌≡◌, ◌≢◌, ◌⊎◌, inl, inr, refl, sym, subst, ap, ◌∙◌, String, str_eq,
  eq_iff, Option, none, some, List, [], ◌∷◌, arith, length, lookup, IsDistinct, lookup-insert_self,
  lookup-insert_ne, lookup-delete_ne, lookup-delete_self, delete-IsDistinct, leb, ltb, Bool-cases,
}
use kubepeep.Api.Cursors.{
  CursorStoreEntry, CursorStore, new_cursor_store, purge_locked, victim, drop, is_over, evict,
  evict_locked, store_entry, put, found, get, remove, purge_expired, Operation, puts, gets, removes,
  purges, perform, run,
}
use kubepeep.Api.Cursors.Bounds.{IsBounded, IsFresh, purge_locked-IsBounded, put-IsBounded}
use kubepeep.Api.Cursors.Limits.{
  IsFreshRun, get_stored, perform-IsBounded, run-IsBounded, new-IsBounded,
}
use kubepeep.Api.Cursors.Parking.{alive, purge-lookup, put-IsPresent, IsPresent}

-- An entry, if there is one, has the payload and the time of expiry.
IsOf : List ℕ → ℕ → Option CursorStoreEntry → Type 0
IsOf payload expiry none = Unit
IsOf payload expiry (some e) = (e.payload ≡ payload) × (e.expires_at ≡ expiry)

IsOf-alive :
    (payload : List ℕ) (expiry now : ℕ) (o : Option CursorStoreEntry)
    → IsOf payload expiry o
    → IsOf payload expiry (alive now o)
unfolding IsOf
IsOf-alive payload expiry now none h = tt
IsOf-alive payload expiry now (some e) h = elim (Bool-cases (leb e.expires_at now)) [
  | inl q ↦ rw q tt
  | inr q ↦ rw q h
]

-- The reference is unknown or has the payload until the time of expiry.
module _ (reference : String) (payload : List ℕ) (expiry : ℕ) where
  IsParked : CursorStore → Type 0
  IsParked s = IsOf payload expiry (lookup reference s.entries)

  IsParked-purge_locked :
      (now : ℕ) (s : CursorStore)
      → IsDistinct s.entries
      → IsParked s
      → IsParked (purge_locked now s).0
  unfolding IsParked purge_locked
  IsParked-purge_locked now s d h =
      rw (purge-lookup now reference s.entries s.bytes d) (IsOf-alive payload expiry now _ h)

  IsParked-drop :
      (r : String) (s : CursorStore) → IsDistinct s.entries → IsParked s → IsParked (drop r s)
  unfolding IsParked drop IsOf
  IsParked-drop r s d h = elim (Bool-cases (str_eq r reference)) [
    | inl q ↦
        let same : r ≡ reference = (eq_iff r reference).0 q in
        let gone : lookup reference (drop r s).entries ≡ none =
          rw (same, lookup-delete_self reference s.entries d) refl in
        rw gone tt
    | inr q ↦
        rw (lookup-delete_ne r reference s.entries (λ e. ground (arith, q, e, eq_iff r reference)))
          h
  ]

  IsParked-evict :
      (fuel incoming : ℕ) (s : CursorStore)
      → IsDistinct s.entries
      → IsParked s
      → IsParked (evict fuel incoming s)
  unfolding evict drop
  IsParked-evict zero incoming s d h = h
  IsParked-evict (suc fuel) incoming s d h =
      let oldest = victim "" 0 s.entries in
      let rest =
        IsParked-evict fuel incoming (drop oldest s) (delete-IsDistinct oldest s.entries d)
          (IsParked-drop oldest s d h) in
      elim (Bool-cases (is_over incoming s)) [
        | inl q ↦ elim (Bool-cases (str_eq oldest "")) [
          | inl p ↦ rw (q, p) h
          | inr p ↦ rw (q, p) rest
        ]
        | inr q ↦ rw q h
      ]

  IsParked-store_entry :
      (now : ℕ) (r : String) (p : List ℕ) (s : CursorStore)
      → r ≢ reference
      → IsParked s
      → IsParked (store_entry now r p s)
  unfolding IsParked store_entry
  IsParked-store_entry now r p s other h = rw (lookup-insert_ne r reference _ s.entries other) h

  IsParked-put :
      (now : ℕ) (r : String) (p : List ℕ) (s : CursorStore)
      → r ≢ reference
      → IsBounded s
      → IsParked s
      → IsParked (put now (some r) (some p) s).0
  unfolding put evict_locked
  IsParked-put now r p s other v h =
      let purged = (purge_locked now s).0 in
      let w = purge_locked-IsBounded now s v in
      elim (Bool-cases (ltb s.entry_bytes (length p))) [
        | inl q ↦ rw q h
        | inr q ↦ rw q (
            IsParked-store_entry now r p (evict (length purged.entries) (length p) purged) other (
              IsParked-evict (length purged.entries) (length p) purged w.distinct
                (IsParked-purge_locked now s v.distinct h)))
      ]

  IsParked-found :
      (now : ℕ) (r : String) (o : Option CursorStoreEntry) (s : CursorStore)
      → lookup r s.entries ≡ o
      → IsBounded s
      → IsParked s
      → IsParked (found now r o s).0
  unfolding found IsParked IsOf
  IsParked-found now r none s e v h = h
  IsParked-found now r (some x) s e v h = elim (Bool-cases (leb x.expires_at now)) [
    | inl q ↦ rw q (IsParked-drop r s v.distinct h)
    | inr q ↦ elim (Bool-cases (str_eq r reference)) [
      | inl p ↦
          let same : r ≡ reference = (eq_iff r reference).0 p in
          let old : IsOf payload expiry (some x) =
            subst (λ o. IsOf payload expiry o) (ap (λ k. lookup k s.entries) (sym same) ∙ e) h in
          rw (q, same, lookup-insert_self reference) old
      | inr p ↦
          rw
            (
              q,
              lookup-insert_ne r reference _ s.entries
                  (λ e. ground (arith, p, e, eq_iff r reference)),
            )
            h
    ]
  ]

  -- Every reference that is drawn is another one.
  abbrev IsOther : Operation → Type 0
  IsOther (puts now r p) = r ≢ reference
  IsOther _ = Unit {0}

  abbrev AllOther : List Operation → Type 0
  AllOther [] = Unit
  AllOther (x ∷ xs) = IsOther x × AllOther xs

  IsParked-get :
      (now : ℕ) (r : String) (s : CursorStore) → IsBounded s → IsParked s → IsParked (get now r s).0
  unfolding get
  IsParked-get now r s v h = elim (Bool-cases (str_eq r "")) [
    | inl q ↦ rw q h
    | inr q ↦ rw q (IsParked-found now r (lookup r s.entries) s refl v h)
  ]

  IsParked-remove :
      (r : String) (s : CursorStore) → IsBounded s → IsParked s → IsParked (remove r s)
  unfolding remove
  IsParked-remove r s v h = elim (Bool-cases (str_eq r "")) [
    | inl q ↦ rw q h
    | inr q ↦ rw q (IsParked-drop r s v.distinct h)
  ]

  IsParked-perform :
      (x : Operation) (s : CursorStore)
      → IsOther x
      → IsBounded s
      → IsParked s
      → IsParked (perform x s)
  unfolding perform purge_expired
  IsParked-perform (puts now r p) s other v h = IsParked-put now r p s other v h
  IsParked-perform (gets now r) s other v h = IsParked-get now r s v h
  IsParked-perform (removes r) s other v h = IsParked-remove r s v h
  IsParked-perform (purges now) s other v h = IsParked-purge_locked now s v.distinct h

  IsParked-run :
      (s : CursorStore) (xs : List Operation)
      → IsFreshRun s xs
      → AllOther xs
      → IsBounded s
      → IsParked s
      → IsParked (run s xs)
  unfolding run
  IsParked-run s [] f o v h = h
  IsParked-run s (x ∷ xs) (f, fs) (o, os) v h =
      IsParked-run (perform x s) xs fs os (perform-IsBounded x s f v) (IsParked-perform x s o v h)

IsOf-get :
    (payload : List ℕ) (expiry later : ℕ) (reference : String) (s : CursorStore)
    (o : Option CursorStoreEntry)
    → reference ≢ ""
    → lookup reference s.entries ≡ o
    → IsOf payload expiry o
    → ((get later reference s).1 ≡ none)
      ⊎ (((get later reference s).1 ≡ some payload) × (later < expiry))
unfolding IsOf get found
IsOf-get payload expiry later reference s none named q h = elim (Bool-cases (str_eq reference "")) [
  | inl p ↦ inl (rw p refl)
  | inr p ↦ inl (rw (p, q) refl)
]
IsOf-get payload expiry later reference s (some e) named q (same, dies) =
    let given = get_stored later reference e s named q in
    elim (Bool-cases (leb e.expires_at later)) [
      | inl p ↦ inl (given ∙ rw p refl)
      | inr p ↦ inr (given ∙ rw (p, same) refl, ground (arith, p, dies))
    ]

-- Whatever is done with the store before and after a `Put`, its reference gives back that payload, before
-- it has expired, or nothing. Each `Put` draws a reference that is not in use, and those after it draw
-- other references.
put-get_parked :
    (ttl : ℕ) (before between : List Operation) (now later : ℕ) (reference : String)
    (payload : List ℕ)
    → IsFreshRun (new_cursor_store ttl) before
    → let s = run (new_cursor_store ttl) before in
      let t = (put now (some reference) (some payload) s).0 in
      IsFresh reference s
      → length payload ≤ s.entry_bytes
      → IsFreshRun t between
      → AllOther reference payload (now + s.ttl) between
      → ((get later reference (run t between)).1 ≡ none)
        ⊎ (((get later reference (run t between)).1 ≡ some payload) × (later < now + s.ttl))
unfolding IsParked IsPresent IsOf
put-get_parked ttl before between now later reference payload f fresh l fs others =
    let s = run (new_cursor_store ttl) before in
    let t = (put now (some reference) (some payload) s).0 in
    let expiry = now + s.ttl in
    let v = run-IsBounded (new_cursor_store ttl) before f (new-IsBounded ttl) in
    let (e, at, same, dies) = put-IsPresent now reference payload s l in
    let parked : IsParked reference payload expiry t = rw at (same, dies) in
    IsOf-get payload expiry later reference (run t between) _ fresh.0 refl (
      IsParked-run reference payload expiry t between fs others
        (put-IsBounded now reference payload s fresh v) parked)
