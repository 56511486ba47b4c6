-- ===== src/Actions/Idempotency.antt =====
-- internal/services/actions/idempotency.go: one execution for each idempotency key. The requests that
-- call `Do` share one registry; a schedule lists which of them moves next, and what it then finds
-- outside. An entry is a shared object: waiters read its outcome through `answers`, which the entry's
-- number indexes, also after the map has dropped it. The zero time of a running entry is `none`.
pub mod Exclusion
pub mod Replay
mod Tests
use kubepeep.Base.{
  ℕ, zero, suc, ◌+◌, String, str_eq, Bool, true, false, ◌&&◌, Option, none, some, List, [], ◌∷◌,
  ◌++◌, leb, ◌==◌, if◌then◌else◌, length, get_elem?, set, Dict, lookup, insert, delete,
}

abbrev pub maximum_idempotency_entries : ℕ
maximum_idempotency_entries = 4096

pub record IdempotencyIdentity : Type 0 where
  pub method : String
  pub path : String
  pub cluster_profile_id : ℕ
  pub generation : String
  pub body_hash : String

abbrev pub same_identity : IdempotencyIdentity → IdempotencyIdentity → Bool
same_identity x y =
    str_eq x.method y.method
    && str_eq x.path y.path
    && x.cluster_profile_id == y.cluster_profile_id
    && str_eq x.generation y.generation
    && str_eq x.body_hash y.body_hash

-- The errors that the registry makes or tells apart; `upstream` is any other of the executed action.
pub data ActionError : Type 0 where
  canceled idempotency_conflict limit_exceeded internal context_done : ActionError
  upstream : ℕ → ActionError

-- What an execution returns: Go's pair of a value and an error.
pub record Answer {ℓ} (T : Type ℓ) : Type ℓ where
  pub value : T
  pub error : Option ActionError

pub record IdempotencyEntry : Type 0 where
  pub number : ℕ
  pub identity : IdempotencyIdentity
  pub terminal_at : Option ℕ

pub record IdempotencyRegistry {ℓ} (T : Type ℓ) : Type ℓ where
  pub ttl : ℕ
  pub entries : Dict IdempotencyEntry
  pub answers : List (Option (Answer T))

-- The value, the replayed flag and the error of `Do`.
pub record Reply {ℓ} (T : Type ℓ) : Type ℓ where
  pub value : T
  pub replayed : Bool
  pub error : Option ActionError

pub data Phase {ℓ} (T : Type ℓ) : Type ℓ where
  arriving : String → IdempotencyIdentity → Phase T
  waiting : ℕ → Phase T
  executing : String → ℕ → Phase T
  ended : Reply T → Phase T

-- What a request finds when it moves: the time, whether its context is done, and what `execute`
-- returned (`none` if it panicked).
pub record Finds {ℓ} (T : Type ℓ) : Type ℓ where
  pub now : ℕ
  pub is_done : Bool
  pub outcome : Option (Answer T)

unfoldable pub new_idempotency_registry {ℓ} : {T : Type ℓ} → ℕ → IdempotencyRegistry T
new_idempotency_registry ttl = record { ttl = ttl; entries = []; answers = [] }

abbrev pub is_expired : ℕ → ℕ → IdempotencyEntry → Bool
is_expired now ttl e = elim e.terminal_at [ none ↦ false | some t ↦ leb (t + ttl) now ]

pub prune_locked : ℕ → ℕ → Dict IdempotencyEntry → Dict IdempotencyEntry
prune_locked now ttl [] = []
prune_locked now ttl ((k, e) ∷ m) =
    let rest = prune_locked now ttl m in if is_expired now ttl e then rest else (k, e) ∷ rest

-- `entry.terminalAt = now`, seen through the map while it still holds this entry.
stamp : ℕ → String → ℕ → Option IdempotencyEntry → Dict IdempotencyEntry → Dict IdempotencyEntry
stamp now key number none m = m
stamp now key number (some e) m =
    if e.number == number then insert key (record e { terminal_at = some now }) m else m

abbrev pub is_canceled : Option ActionError → Bool
is_canceled (some canceled) = true
is_canceled _ = false

-- The deferred critical section.
module _ {ℓ} {T : Type ℓ} where
  pub complete : ℕ → String → ℕ → Answer T → IdempotencyRegistry T → IdempotencyRegistry T
  unfolding stamp
  complete now key number answer r =
      let stamped = stamp now key number (lookup key r.entries) r.entries in
      record r {
        entries = if is_canceled answer.error then delete key stamped else stamped;
        answers = set r.answers number (some answer);
      }

module _ {ℓ} {T : Type ℓ} (zero_value : T) where
  refused : ActionError → Phase T
  refused e = ended (record { value = zero_value; replayed = false; error = some e })

  -- The critical section in which `Do` begins, after the pruning.
  admit :
      String
      → IdempotencyIdentity
      → Option IdempotencyEntry
      → IdempotencyRegistry T
      → IdempotencyRegistry T × Phase T
  unfolding refused
  admit key identity (some existing) r =
      if same_identity existing.identity identity
      then (r, waiting existing.number)
      else (r, refused idempotency_conflict)
  admit key identity none r =
      if leb maximum_idempotency_entries (length r.entries) then (r, refused limit_exceeded) else (
        record r {
          entries =
              insert key
                (record { number = length r.answers; identity = identity; terminal_at = none })
                r.entries;
          answers = r.answers ++ none ∷ [];
        },
        executing key (length r.answers),
      )

  pub begin :
      ℕ → String → IdempotencyIdentity → IdempotencyRegistry T → IdempotencyRegistry T × Phase T
  unfolding admit
  begin now key identity r =
      let pruned = prune_locked now r.ttl r.entries in
      admit key identity (lookup key pruned) (record r { entries = pruned })

  -- A panic leaves the named result at its zero value.
  abbrev pub answer_of : Option (Answer T) → Answer T
  answer_of none = record { value = zero_value; error = some internal }
  answer_of (some a) = a

  await : Bool → ℕ → Option (Option (Answer T)) → Phase T
  await done number (some (some a)) =
      if done
      then ended (record { value = zero_value; replayed = true; error = some context_done })
      else ended (record { value = a.value; replayed = true; error = a.error })
  await done number _ =
      if done
      then ended (record { value = zero_value; replayed = true; error = some context_done })
      else waiting number

  pub advance : Finds T → IdempotencyRegistry T → Phase T → IdempotencyRegistry T × Phase T
  unfolding await begin complete
  advance f r (arriving key identity) = begin f.now key identity r
  advance f r (waiting number) = (r, await f.is_done number (get_elem? r.answers number))
  advance f r (executing key number) =
      let a = answer_of f.outcome in
      (
        complete f.now key number a r,
        ended (record { value = a.value; replayed = false; error = a.error }),
      )
  advance f r (ended reply) = (r, ended reply)

  pub advance_at :
      ℕ → Finds T → IdempotencyRegistry T → List (Phase T) → IdempotencyRegistry T × List (Phase T)
  advance_at i f r [] = (r, [])
  advance_at zero f r (p ∷ ps) = let (r', p') = advance f r p in (r', p' ∷ ps)
  advance_at (suc i) f r (p ∷ ps) = let (r', ps') = advance_at i f r ps in (r', p ∷ ps')

  -- A schedule: which request moves, and what it finds.
  pub run :
      IdempotencyRegistry T
      → List (Phase T)
      → List (ℕ × Finds T)
      → IdempotencyRegistry T × List (Phase T)
  unfolding advance_at advance
  run r ps [] = (r, ps)
  run r ps ((i, f) ∷ es) = let (r', ps') = advance_at i f r ps in run r' ps' es
