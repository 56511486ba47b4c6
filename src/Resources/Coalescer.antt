-- ===== src/Resources/Coalescer.antt =====
-- internal/services/resources/coalescer.go: overlapping requests for one key share one operation. A call
-- is a shared object: its callers keep its number, also after the map has dropped it. A schedule lists
-- who moves next: a caller, with whether its own context is done; the goroutine of a call, with what the
-- operation returned; or the one that closes the coalescer.
pub mod Waiters
pub mod Cancellation
mod Tests
use kubepeep.Base.{
  ℕ, ◌+◌, ◌-◌, String, str_eq, Bool, true, false, not, ◌&&◌, Option, none, some, List, [], ◌∷◌, ltb,
  ◌==◌, if◌then◌else◌, get_elem?, set, Dict, lookup, insert, delete,
}

-- What an operation returns: Go's pair of a value and an error.
pub record Answer {ℓ} (T : Type ℓ) : Type ℓ where
  pub value : T
  pub error : Option ℕ

-- `outcome` is there once the call has finished; `canceled` is that of the operation's context.
pub record CoalescedCall {ℓ} (T : Type ℓ) : Type ℓ where
  pub key : String
  pub waiters : ℕ
  pub canceled : Bool
  pub outcome : Option (Answer T)

-- The calls up to `made` are in use.
pub record RequestCoalescer {ℓ} (T : Type ℓ) : Type ℓ where
  pub calls : Dict ℕ
  pub store : ℕ → CoalescedCall T
  pub made : ℕ
  pub closed : Bool

pub data Reply {ℓ} (T : Type ℓ) : Type ℓ where
  invalid coalescer_closed context_done : Reply T
  answered : Answer T → Reply T

pub data Phase {ℓ} (T : Type ℓ) : Type ℓ where
  arriving : String → Phase T
  waiting : ℕ → Phase T
  replied : Reply T → Phase T

pub data Move {ℓ} (T : Type ℓ) : Type ℓ where
  caller_moves : ℕ → Bool → Move T
  operation_returns : ℕ → Answer T → Move T
  coalescer_closes : Move T

abbrev pub is_finished {ℓ} : {T : Type ℓ} → CoalescedCall T → Bool
is_finished c = elim c.outcome [ none ↦ false | some a ↦ true ]

-- `delete(coalescer.calls, key)` where the map still has this call.
forget_found : ℕ → String → Option ℕ → Dict ℕ → Dict ℕ
forget_found n key none calls = calls
forget_found n key (some m) calls = if m == n then delete key calls else calls

module _ {ℓ} {T : Type ℓ} where
  abbrev pub write : (ℕ → CoalescedCall T) → ℕ → CoalescedCall T → ℕ → CoalescedCall T
  write store n call m = if m == n then call else store m

  unfoldable pub new_request_coalescer : RequestCoalescer T
  new_request_coalescer = record {
    calls = [];
    store = λ n. record { key = ""; waiters = 0; canceled = false; outcome = none };
    made = 0;
    closed = false;
  }

  forget : ℕ → CoalescedCall T → Dict ℕ → Dict ℕ
  unfolding forget_found
  forget n call calls = forget_found n call.key (lookup call.key calls) calls

  pub join : ℕ → RequestCoalescer T → RequestCoalescer T
  join n c =
      let call = c.store n in
      record c { store = write c.store n (record call { waiters = call.waiters + 1 }) }

  pub create : String → RequestCoalescer T → RequestCoalescer T
  create key c = record c {
    calls = insert key c.made c.calls;
    store =
        write c.store c.made (record { key = key; waiters = 1; canceled = false; outcome = none });
    made = c.made + 1;
  }

  enter : String → Option ℕ → RequestCoalescer T → RequestCoalescer T × Phase T
  unfolding join create
  enter key (some n) c = (join n c, waiting n)
  enter key none c = (create key c, waiting c.made)

  -- `Do` up to its wait.
  begin : String → RequestCoalescer T → RequestCoalescer T × Phase T
  unfolding enter
  begin key c =
      if str_eq key ""
      then (c, replied invalid)
      else if c.closed
      then (c, replied coalescer_closed)
      else enter key (lookup key c.calls) c

  pub leave : ℕ → Bool → RequestCoalescer T → RequestCoalescer T
  unfolding forget
  leave n by_context c =
      let call = c.store n in
      let left = record call { waiters = call.waiters - 1 } in
      if by_context && left.waiters == 0 && not (is_finished call)
      then record c {
        calls = forget n call c.calls;
        store = write c.store n (record left { canceled = true });
      }
      else record c { store = write c.store n left }

  await : ℕ → Bool → Option (Answer T) → RequestCoalescer T → RequestCoalescer T × Phase T
  unfolding leave
  await n true outcome c = (leave n true c, replied context_done)
  await n false none c = (c, waiting n)
  await n false (some a) c = (leave n false c, replied (answered a))

  pub advance : Bool → RequestCoalescer T → Phase T → RequestCoalescer T × Phase T
  unfolding begin await
  advance is_done c (arriving key) = begin key c
  advance is_done c (waiting n) = await n is_done (c.store n).outcome c
  advance is_done c (replied reply) = (c, replied reply)

  -- `run` behind the operation, once for each call.
  pub finish : ℕ → Answer T → RequestCoalescer T → RequestCoalescer T
  unfolding forget
  finish n a c =
      let call = c.store n in
      if ltb n c.made && not (is_finished call)
      then record c {
        calls = forget n call c.calls;
        store = write c.store n (record call { outcome = some a; canceled = true });
      }
      else c

  cancel_all : Dict ℕ → (ℕ → CoalescedCall T) → ℕ → CoalescedCall T
  cancel_all [] store = store
  cancel_all ((k, n) ∷ calls) store =
      let later = cancel_all calls store in write later n (record (later n) { canceled = true })

  pub close : RequestCoalescer T → RequestCoalescer T
  unfolding cancel_all
  close c = if c.closed then c else record c { closed = true; store = cancel_all c.calls c.store }

  move_caller :
      ℕ
      → Bool
      → Option (Phase T)
      → RequestCoalescer T
      → List (Phase T)
      → RequestCoalescer T × List (Phase T)
  unfolding advance
  move_caller i is_done none c ps = (c, ps)
  move_caller i is_done (some p) c ps = ((advance is_done c p).0, set ps i (advance is_done c p).1)

  pub step : Move T → RequestCoalescer T → List (Phase T) → RequestCoalescer T × List (Phase T)
  unfolding move_caller finish close
  step (caller_moves i is_done) c ps = move_caller i is_done (get_elem? ps i) c ps
  step (operation_returns n a) c ps = (finish n a c, ps)
  step coalescer_closes c ps = (close c, ps)

  unfoldable pub run :
      List (Move T) → RequestCoalescer T → List (Phase T) → RequestCoalescer T × List (Phase T)
  unfolding step
  run [] c ps = (c, ps)
  run (move ∷ moves) c ps = run moves (step move c ps).0 (step move c ps).1
