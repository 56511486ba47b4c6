-- ===== src/Resources/Cache/Accounting.antt =====
-- The memory accounting of internal/services/resources/cache.go: `bytes` is the size of the entries.
use kubepeep.Base.{
  ◌+◌, ◌≤◌, ◌≡◌, String, Bool, true, some, length, arith, IsDistinct, lookup, delete, total,
  total-delete, length-total, delete-IsDistinct, lookup-delete_ne, ◌≢◌,
}
use kubepeep.Resources.Cache.{ResourceCache, ResourceCacheEntry, remove_entry_locked}

module _ {ℓ} {S : Type ℓ} where
  pub record IsAccounted (c : ResourceCache S) : Type ℓ where
    pub distinct : IsDistinct c.entries
    pub counted : c.bytes ≡ total (λ e. e.bytes) c.entries

  -- What a removal of an entry that is there does.
  pub remove_present :
      (k : String) (eviction : Bool) (c : ResourceCache S) (e : ResourceCacheEntry S)
      → IsAccounted c
      → lookup k c.entries ≡ some e
      → let c' = remove_entry_locked k eviction c in
        (c'.entries ≡ delete k c.entries)
        × (c'.bytes + e.bytes ≡ c.bytes)
        × (length c'.entries + 1 ≡ length c.entries)
        × (c'.max_bytes ≡ c.max_bytes)
        × (c'.max_entries ≡ c.max_entries)
        × (c'.refs ≡ c.refs)
  unfolding remove_entry_locked
  remove_present k eviction c e v h = ground (
    arith,
    total-delete (λ (e : ResourceCacheEntry S). e.bytes) k c.entries,
    total-delete (λ (_ : ResourceCacheEntry S). 1) k c.entries,
    length-total c.entries,
    length-total (delete k c.entries),
  )

  pub remove-IsAccounted :
      (k : String) (eviction : Bool) (c : ResourceCache S)
      → IsAccounted c
      → IsAccounted (remove_entry_locked k eviction c)
  unfolding remove_entry_locked
  remove-IsAccounted k eviction c v = ground (
    arith,
    total-delete (λ (e : ResourceCacheEntry S). e.bytes) k c.entries,
    delete-IsDistinct k c.entries v.distinct,
  )

  pub remove_spares :
      (k j : String) (c : ResourceCache S)
      → k ≢ j
      → lookup j (remove_entry_locked k true c).entries ≡ lookup j c.entries
  unfolding remove_entry_locked
  remove_spares k j c ne = ground (arith, lookup-delete_ne k j c.entries ne)

  pub remove_limits :
      (k : String) (eviction : Bool) (c : ResourceCache S)
      → let c' = remove_entry_locked k eviction c in
        (c'.max_bytes ≡ c.max_bytes)
        × (c'.max_entries ≡ c.max_entries)
        × (length c'.entries ≤ length c.entries)
        × (c'.bytes ≤ c.bytes)
  unfolding remove_entry_locked
  remove_limits k eviction c = ground (
    arith,
    total-delete (λ (_ : ResourceCacheEntry S). 1) k c.entries,
    length-total c.entries,
    length-total (delete k c.entries),
  )

  -- The accounts balance and both limits are kept.
  pub record IsBounded (c : ResourceCache S) : Type ℓ where
    pub accounted : IsAccounted c
    pub within_bytes : c.bytes ≤ c.max_bytes
    pub within_entries : length c.entries ≤ c.max_entries

  pub remove-IsBounded :
      (k : String) (eviction : Bool) (c : ResourceCache S)
      → IsBounded c
      → IsBounded (remove_entry_locked k eviction c)
  remove-IsBounded k eviction c v =
      let limits = remove_limits k eviction c in
      record {
        accounted = remove-IsAccounted k eviction c v.accounted;
        within_bytes = omega (arith, limits, v.within_bytes);
        within_entries = omega (arith, limits, v.within_entries);
      }

  pub remove_same :
      (k : String) (eviction : Bool) (c : ResourceCache S)
      → (remove_entry_locked k eviction c).invalidated_generation ≡ c.invalidated_generation
  unfolding remove_entry_locked
  remove_same k eviction c = ground arith
