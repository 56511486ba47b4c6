-- ===== src/Resources/Cache/Eviction/Room.antt =====
-- The eviction of internal/services/resources/cache.go makes the room that it reports, spares every
-- referenced entry, and changes nothing when it cannot make room.
use kubepeep.Base.{
  ℕ, ◌+◌, ◌-◌, ◌≤◌, ◌<◌, ◌≡◌, ◌∙◌, inl, inr, refl, String, str_eq, eq_iff, true, false, some, List,
  [], ◌∷◌, if◌then◌else◌, length, arith, Bool-cases, Option-cases, Dict, IsDistinct, lookup,
  size_or_zero, size-le-total, lookup-delete_ne, lookup-delete_self,
}
use kubepeep.Resources.Cache.{ResourceCache, ResourceCacheEntry, read, remove_entry_locked}
use kubepeep.Resources.Cache.Accounting.{
  IsAccounted, remove_present, remove-IsAccounted, remove_limits, remove_same, remove_spares,
}
use kubepeep.Resources.Cache.Eviction.{
  Candidate, insert_sorted, sort_candidates, candidates, entry_bytes, fits, available, evict_until,
  evict_for_locked, previous_bytes, added_entries, make_room,
}

-- How often a key stands among the candidates, and whether it is in the map.
abbrev occurrences : String → List Candidate → ℕ
occurrences k [] = 0
occurrences k (x ∷ xs) = (if str_eq x.identity k then 1 else 0) + occurrences k xs

insert_sorted-occurrences :
    (k : String) (x : Candidate) (xs : List Candidate)
    → occurrences k (insert_sorted x xs) ≡ occurrences k (x ∷ xs)
unfolding insert_sorted
insert_sorted-occurrences k x [] = refl
insert_sorted-occurrences k x (y ∷ ys) = ground (arith, insert_sorted-occurrences k x ys)

sort_candidates-occurrences :
    (k : String) (xs : List Candidate) → occurrences k (sort_candidates xs) ≡ occurrences k xs
unfolding sort_candidates
sort_candidates-occurrences k [] = refl
sort_candidates-occurrences k (x ∷ xs) =
    omega
      (arith, insert_sorted-occurrences k x (sort_candidates xs), sort_candidates-occurrences k xs)

module _ {ℓ} {S : Type ℓ} where
  abbrev present : String → Dict (ResourceCacheEntry S) → ℕ
  present k m = size_or_zero (λ _. 1) (lookup k m)

  -- A candidate is in the map, is not the excluded entry and has no reference.
  candidates-occurrences :
      (now : ℕ) (exclude : String) (refs : Dict ℕ) (m : Dict (ResourceCacheEntry S)) (k : String)
      → IsDistinct m
      → (occurrences k (candidates now exclude refs m) ≤ present k m)
        × (k ≡ exclude → occurrences k (candidates now exclude refs m) ≡ 0)
        × (0 < read k refs → occurrences k (candidates now exclude refs m) ≡ 0)
  unfolding candidates lookup
  candidates-occurrences now exclude refs [] k d = ground arith
  candidates-occurrences now exclude refs ((j, e) ∷ m) k d =
      ground (arith, candidates-occurrences now exclude refs m k d.1, eq_iff j k, eq_iff j exclude)

  -- The candidates that are still to come are in the map, once each, and do not hold the excluded key.
  record IsEvictable (exclude : String) (c : ResourceCache S) (cs : List Candidate) : Type ℓ where
    accounted : IsAccounted c
    held : (k : String) → occurrences k cs ≤ present k c.entries
    other : occurrences exclude cs ≡ 0

  next_present :
      (exclude : String) (c : ResourceCache S) (x : Candidate) (xs : List Candidate)
      → IsEvictable exclude c (x ∷ xs)
      → (e : ResourceCacheEntry S) × (lookup x.identity c.entries ≡ some e)
  next_present exclude c x xs v = elim (Option-cases (lookup x.identity c.entries)) [
    | inl h ↦ absurd (ground (arith, v.held x.identity, eq_iff x.identity x.identity))
    | inr found ↦ found
  ]

  next-IsEvictable :
      (exclude : String) (c : ResourceCache S) (x : Candidate) (xs : List Candidate)
      → IsEvictable exclude c (x ∷ xs)
      → IsEvictable exclude (remove_entry_locked x.identity true c) xs
  next-IsEvictable exclude c x xs v =
      let (e, h) = next_present exclude c x xs v in
      let removed = remove_present x.identity true c e v.accounted h in
      record {
        accounted = remove-IsAccounted x.identity true c v.accounted;
        held = λ k. ground (
          arith,
          removed,
          v.held k,
          eq_iff x.identity k,
          lookup-delete_ne x.identity k c.entries,
          lookup-delete_self x.identity c.entries v.accounted.distinct,
        );
        other = ground (arith, v.other);
      }

  -- The loop touches candidates alone.
  evict_until-spares :
      (k : String) (c : ResourceCache S) (cs : List Candidate) (b n : ℕ)
      → occurrences k cs ≡ 0
      → lookup k (evict_until c cs b n).0.entries ≡ lookup k c.entries
  unfolding evict_until
  evict_until-spares k c [] b n h = refl
  evict_until-spares k c (x ∷ xs) b n h =
      let one = remove_spares x.identity k c (ground (arith, eq_iff x.identity k)) in
      let rest =
        evict_until-spares k (remove_entry_locked x.identity true c) xs
          (b - entry_bytes (lookup x.identity c.entries)) (n - 1) (ground arith) in
      ground (arith, one, rest)

  evict_until-IsAccounted :
      (c : ResourceCache S) (cs : List Candidate) (b n : ℕ)
      → IsAccounted c
      → IsAccounted (evict_until c cs b n).0
  unfolding evict_until
  evict_until-IsAccounted c [] b n v = v
  evict_until-IsAccounted c (x ∷ xs) b n v =
      let one = remove-IsAccounted x.identity true c v in
      ground (
        arith,
        one,
        evict_until-IsAccounted (remove_entry_locked x.identity true c) xs
            (b - entry_bytes (lookup x.identity c.entries)) (n - 1) one,
      )

  -- The sums that the loop carries are those of the cache with the new entry in place of its
  -- predecessor, so a loop that reports success has made room for it.
  evict_until_room :
      (exclude : String) (size previous extra : ℕ) (c : ResourceCache S) (cs : List Candidate)
      (b n : ℕ)
      → IsEvictable exclude c cs
      → entry_bytes (lookup exclude c.entries) ≡ previous
      → b + previous ≡ c.bytes + size
      → n ≡ length c.entries + extra
      → (evict_until c cs b n).1 ≡ true
      → let c' = (evict_until c cs b n).0 in
        (c'.bytes + size ≤ c.max_bytes + previous) × (length c'.entries + extra ≤ c.max_entries)
  unfolding evict_until
  evict_until_room exclude size previous extra c [] b n v p eb en h = cc
  evict_until_room exclude size previous extra c (x ∷ xs) b n v p eb en h =
      let (e, found) = next_present exclude c x xs v in
      let removed = remove_present x.identity true c e v.accounted found in
      let kept =
        remove_spares x.identity exclude c (ground (arith, eq_iff x.identity exclude, v.other)) in
      let within : e.bytes + previous ≤ c.bytes = grind (
        arith,
        removed,
        kept,
        p,
        size-le-total (λ (e : ResourceCacheEntry S). e.bytes) exclude
            (remove_entry_locked x.identity true c).entries,
        (remove-IsAccounted x.identity true c v.accounted).counted,
      ) in
      ground (
        arith,
        removed,
        kept,
        within,
        found,
        evict_until_room exclude size previous extra (remove_entry_locked x.identity true c) xs
            (b - e.bytes) (n - 1) (next-IsEvictable exclude c x xs v),
      )

  -- A dry run that finds enough room is not disappointed by the loop that evicts.
  dry_run_holds :
      (c c' : ResourceCache S) (exclude : String) (cs : List Candidate) (b n : ℕ)
      → IsEvictable exclude c' cs
      → ((k : String) → 1 ≤ occurrences k cs → lookup k c'.entries ≡ lookup k c.entries)
      → c'.max_bytes ≡ c.max_bytes
      → c'.max_entries ≡ c.max_entries
      → fits c b n ≡ false
      → fits c (available c cs b n).0 (available c cs b n).1 ≡ true
      → (evict_until c' cs b n).1 ≡ true
  unfolding available evict_until
  dry_run_holds c c' exclude [] b n v same mb me tight enough = cc
  dry_run_holds c c' exclude (x ∷ xs) b n v same mb me tight enough =
      let (e, found) = next_present exclude c' x xs v in
      let removed = remove_present x.identity true c' e v.accounted found in
      let here = same x.identity (ground (arith, eq_iff x.identity x.identity)) in
      let bytes' = b - entry_bytes (lookup x.identity c.entries) in
      let later : (k : String)
          → 1 ≤ occurrences k xs
          → lookup k (remove_entry_locked x.identity true c').entries ≡ lookup k c.entries =
        λ k o.
          remove_spares x.identity k c'
            (λ (e : x.identity ≡ k). absurd (ground (arith, v.held k, eq_iff x.identity k)))
          ∙ same k (omega arith) in
      elim (Bool-cases (fits c bytes' (n - 1))) [
        | inl h ↦ ground (arith, here)
        | inr h ↦ ground (
          arith,
          here,
          removed,
          dry_run_holds c (remove_entry_locked x.identity true c') exclude xs bytes' (n - 1)
              (next-IsEvictable exclude c' x xs v) later (ground (arith, removed))
              (ground (arith, removed)) h,
        )
      ]

  chosen : ℕ → String → ResourceCache S → List Candidate
  chosen now exclude c = sort_candidates (candidates now exclude c.refs c.entries)

  chosen-occurrences :
      (now : ℕ) (exclude : String) (c : ResourceCache S) (k : String)
      → IsDistinct c.entries
      → (occurrences k (chosen now exclude c) ≤ present k c.entries)
        × (k ≡ exclude → occurrences k (chosen now exclude c) ≡ 0)
        × (0 < read k c.refs → occurrences k (chosen now exclude c) ≡ 0)
  unfolding chosen
  chosen-occurrences now exclude c k d =
      rw (sort_candidates-occurrences k (candidates now exclude c.refs c.entries))
        (candidates-occurrences now exclude c.refs c.entries k d)

  chosen-IsEvictable :
      (now : ℕ) (exclude : String) (c : ResourceCache S)
      → IsAccounted c
      → IsEvictable exclude c (chosen now exclude c)
  chosen-IsEvictable now exclude c v = record {
    accounted = v;
    held = λ k. (chosen-occurrences now exclude c k v.distinct).0;
    other = (chosen-occurrences now exclude c exclude v.distinct).1 refl;
  }

  -- If it reports success, an entry of the given size fits in place of its predecessor under the
  -- excluded key, within both limits.
  pub evict_for_room :
      (now : ℕ) (exclude : String) (size : ℕ) (c : ResourceCache S)
      → IsAccounted c
      → (make_room now exclude size c).1 ≡ true
      → let c' = (make_room now exclude size c).0 in
        (c'.bytes + size ≤ c.max_bytes + previous_bytes exclude c)
        × (length c'.entries + added_entries exclude c ≤ c.max_entries)
  unfolding evict_for_locked
  evict_for_room now exclude size c v h =
      let previous = previous_bytes exclude c in
      let added = added_entries exclude c in
      let within = size-le-total (λ (e : ResourceCacheEntry S). e.bytes) exclude c.entries in
      unfold chosen in
      ground (
        arith,
        within,
        v.counted,
        evict_until_room exclude size previous added c (chosen now exclude c)
            (c.bytes + size - previous) (length c.entries + added)
            (chosen-IsEvictable now exclude c v),
      )

  -- Evicting spares the excluded entry and every entry with a reference, and when there is not enough
  -- room to be made it evicts nothing at all.
  pub evict_for_spares :
      (now : ℕ) (exclude : String) (size : ℕ) (c : ResourceCache S)
      → IsAccounted c
      → let (c', done) = make_room now exclude size c in
        ((k : String) → 0 < read k c.refs → lookup k c'.entries ≡ lookup k c.entries)
        × (lookup exclude c'.entries ≡ lookup exclude c.entries)
        × (done ≡ false → c' ≡ c)
  unfolding evict_for_locked
  evict_for_spares now exclude size c v =
      let b = c.bytes + size - previous_bytes exclude c in
      let n = length c.entries + added_entries exclude c in
      let cs = chosen now exclude c in
      unfold chosen in
      (
        λ k used. ground (
          arith,
          evict_until-spares k c cs b n ((chosen-occurrences now exclude c k v.distinct).2 used),
        ),
        ground (
          arith,
          evict_until-spares exclude c cs b n
              ((chosen-occurrences now exclude c exclude v.distinct).1 refl),
        ),
        λ h. ground (
          arith,
          dry_run_holds c c exclude cs b n (chosen-IsEvictable now exclude c v) (λ k _. refl) refl
              refl,
        ),
      )

  evict_until_limits :
      (c : ResourceCache S) (cs : List Candidate) (b n : ℕ)
      → let c' = (evict_until c cs b n).0 in
        (c'.max_bytes ≡ c.max_bytes)
        × (c'.max_entries ≡ c.max_entries)
        × (length c'.entries ≤ length c.entries)
        × (c'.bytes ≤ c.bytes)
  unfolding evict_until
  evict_until_limits c [] b n = omega arith
  evict_until_limits c (x ∷ xs) b n = ground (
    arith,
    remove_limits x.identity true c,
    evict_until_limits (remove_entry_locked x.identity true c) xs
        (b - entry_bytes (lookup x.identity c.entries)) (n - 1),
  )

  pub make_room_limits :
      (now : ℕ) (exclude : String) (size : ℕ) (c : ResourceCache S)
      → let c' = (make_room now exclude size c).0 in
        (c'.max_bytes ≡ c.max_bytes)
        × (c'.max_entries ≡ c.max_entries)
        × (length c'.entries ≤ length c.entries)
        × (c'.bytes ≤ c.bytes)
  unfolding evict_for_locked
  make_room_limits now exclude size c =
      unfold chosen in
      ground (
        arith,
        evict_until_limits c (chosen now exclude c) (c.bytes + size - previous_bytes exclude c)
            (length c.entries + added_entries exclude c),
      )

  pub make_room-IsAccounted :
      (now : ℕ) (exclude : String) (size : ℕ) (c : ResourceCache S)
      → IsAccounted c
      → IsAccounted (make_room now exclude size c).0
  unfolding evict_for_locked
  make_room-IsAccounted now exclude size c v =
      unfold chosen in
      ground (
        arith,
        evict_until-IsAccounted c (chosen now exclude c) (c.bytes + size - previous_bytes exclude c)
            (length c.entries + added_entries exclude c) v,
      )

  evict_until_same :
      (c : ResourceCache S) (cs : List Candidate) (b n : ℕ)
      → (evict_until c cs b n).0.invalidated_generation ≡ c.invalidated_generation
  unfolding evict_until
  evict_until_same c [] b n = refl
  evict_until_same c (x ∷ xs) b n = ground (
    arith,
    remove_same x.identity true c,
    evict_until_same (remove_entry_locked x.identity true c) xs
        (b - entry_bytes (lookup x.identity c.entries)) (n - 1),
  )

  pub make_room_same :
      (now : ℕ) (exclude : String) (size : ℕ) (c : ResourceCache S)
      → (make_room now exclude size c).0.invalidated_generation ≡ c.invalidated_generation
  unfolding evict_for_locked
  make_room_same now exclude size c =
      unfold chosen in
      ground (
        arith,
        evict_until_same c (chosen now exclude c) (c.bytes + size - previous_bytes exclude c)
            (length c.entries + added_entries exclude c),
      )
