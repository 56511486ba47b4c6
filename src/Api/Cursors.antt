-- ===== src/Api/Cursors.antt =====
-- internal/api/cursor_store.go: the pagination states that are parked in memory under random
-- references. A payload is its bytes, `none` where `canonicalCursorJSON` fails, and a reference is
-- `none` where the random source fails. Times are nanoseconds; the metrics are left out.
pub mod Bounds
pub mod Limits
pub mod Parking
mod Expiry
mod Tests
use kubepeep.Base.{
  ℕ, zero, suc, ◌+◌, ◌-◌, ◌*◌, ◌%◌, ◌^◌, String, str_eq, Bool, true, false, not, ◌&&◌, ◌||◌, Option,
  none, some, List, [], ◌∷◌, leb, ltb, if◌then◌else◌, length, Dict, lookup, insert, delete,
  size_or_zero,
}

pub record CursorStoreEntry : Type 0 where
  pub payload : List ℕ
  pub expires_at : ℕ
  pub used_at : ℕ

pub record CursorStore : Type 0 where
  pub entries : Dict CursorStoreEntry
  pub ttl : ℕ
  pub max_entries : ℕ
  pub max_bytes : ℕ
  pub entry_bytes : ℕ
  pub bytes : ℕ
  pub clock : ℕ

abbrev pub cursor_store_max_entries : ℕ
cursor_store_max_entries = 1024

abbrev pub cursor_store_max_bytes : ℕ
cursor_store_max_bytes = 33554432

abbrev pub cursor_store_max_entry_bytes : ℕ
cursor_store_max_entry_bytes = 1048576

-- `CursorStoreTTL` is an argument.
unfoldable pub new_cursor_store : ℕ → CursorStore
new_cursor_store ttl = record {
  entries = [];
  ttl = ttl;
  max_entries = cursor_store_max_entries;
  max_bytes = cursor_store_max_bytes;
  entry_bytes = cursor_store_max_entry_bytes;
  bytes = 0;
  clock = 0;
}

abbrev pub size : CursorStoreEntry → ℕ
size e = length e.payload

-- The range over the map: what stays, the bytes, and how many were removed.
unfoldable pub purge : ℕ → Dict CursorStoreEntry → ℕ → Dict CursorStoreEntry × ℕ × ℕ
purge now [] bytes = ([], bytes, 0)
purge now ((reference, e) ∷ m) bytes =
    let dead = leb e.expires_at now in
    let (kept, left, removed) = purge now m (if dead then bytes - length e.payload else bytes) in
    if dead then (kept, left, removed + 1) else ((reference, e) ∷ kept, left, removed)

unfoldable pub purge_locked : ℕ → CursorStore → CursorStore × ℕ
unfolding purge
purge_locked now s =
    let (kept, left, removed) = purge now s.entries s.bytes in
    (record s { entries = kept; bytes = left }, removed)

-- The scan for the entry used longest ago.
unfoldable pub victim : String → ℕ → Dict CursorStoreEntry → String
victim reference oldest [] = reference
victim reference oldest ((r, e) ∷ m) =
    let better = str_eq reference "" || ltb e.used_at oldest in
    victim (if better then r else reference) (if better then e.used_at else oldest) m

unfoldable pub drop : String → CursorStore → CursorStore
drop reference s = record s {
  entries = delete reference s.entries;
  bytes = s.bytes - size_or_zero size (lookup reference s.entries);
}

unfoldable pub is_over : ℕ → CursorStore → Bool
is_over incoming s =
    ltb 0 (length s.entries)
    && (ltb s.max_entries (length s.entries + 1) || ltb s.max_bytes (s.bytes + incoming))

-- Each turn removes one entry.
unfoldable pub evict : ℕ → ℕ → CursorStore → CursorStore
unfolding drop is_over victim
evict zero incoming s = s
evict (suc fuel) incoming s =
    let oldest = victim "" 0 s.entries in
    let rest = evict fuel incoming (drop oldest s) in
    if is_over incoming s then if str_eq oldest "" then s else rest else s

unfoldable pub evict_locked : ℕ → CursorStore → CursorStore
unfolding evict
evict_locked incoming s = evict (length s.entries) incoming s

unfoldable pub touch : ℕ → ℕ
touch clock = (clock + 1) % 2 ^ 64

pub data PutError : Type 0 where
  encode_failed too_large reference_failed : PutError

pub store_entry : ℕ → String → List ℕ → CursorStore → CursorStore
unfolding touch
store_entry now reference payload s = record s {
  entries =
      insert reference
        (record { payload = payload; expires_at = now + s.ttl; used_at = touch s.clock }) s.entries;
  bytes = s.bytes + length payload;
  clock = touch s.clock;
}

pub data Put : Type 0 where
  put_ok : String → Put
  put_error : PutError → Put

-- `PutContext`.
unfoldable pub put : ℕ → Option String → Option (List ℕ) → CursorStore → CursorStore × Put
unfolding purge_locked evict_locked store_entry
put now reference none s = (s, put_error encode_failed)
put now none (some payload) s =
    (s, put_error (if ltb s.entry_bytes (length payload) then too_large else reference_failed))
put now (some reference) (some payload) s =
    if ltb s.entry_bytes (length payload) then (s, put_error too_large) else (
      store_entry now reference payload (evict_locked (length payload) (purge_locked now s).0),
      put_ok reference,
    )

found : ℕ → String → Option CursorStoreEntry → CursorStore → CursorStore × Option (List ℕ)
unfolding drop touch
found now reference none s = (s, none)
found now reference (some e) s = if leb e.expires_at now then (drop reference s, none) else (
  record s {
    entries = insert reference (record e { used_at = touch s.clock }) s.entries;
    clock = touch s.clock;
  },
  some e.payload,
)

-- `GetContext` up to the decoding of the payload; `none` is `CURSOR_EXPIRED`.
unfoldable pub get : ℕ → String → CursorStore → CursorStore × Option (List ℕ)
unfolding found
get now reference s =
    if str_eq reference "" then (s, none) else found now reference (lookup reference s.entries) s

unfoldable pub remove : String → CursorStore → CursorStore
unfolding drop
remove reference s = if str_eq reference "" then s else drop reference s

unfoldable pub purge_expired : ℕ → CursorStore → CursorStore × ℕ
unfolding purge_locked
purge_expired now s = purge_locked now s

pub bytes_of : CursorStore → ℕ
bytes_of s = s.bytes

pub length_of : CursorStore → ℕ
length_of s = length s.entries

pub data Operation : Type 0 where
  puts : ℕ → String → List ℕ → Operation
  gets : ℕ → String → Operation
  removes : String → Operation
  purges : ℕ → Operation

unfoldable pub perform : Operation → CursorStore → CursorStore
perform (puts now reference payload) s = (put now (some reference) (some payload) s).0
perform (gets now reference) s = (get now reference s).0
perform (removes reference) s = remove reference s
perform (purges now) s = (purge_expired now s).0

unfoldable pub run : CursorStore → List Operation → CursorStore
unfolding perform
run s [] = s
run s (x ∷ xs) = run (perform x s) xs
