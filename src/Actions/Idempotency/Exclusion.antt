-- ===== src/Actions/Idempotency/Exclusion.antt =====
-- The registry of internal/services/actions/idempotency.go over every interleaving: the entries that
-- have not ended are the executions that run.
use kubepeep.Base.{
  ℕ, zero, suc, ◌+◌, ◌≤◌, ◌≡◌, refl, String, str_eq, eq_iff, ◌&&◌, Option, none, some, List, [],
  ◌∷◌, inl, inr, Option-cases, Bool-cases, ◌==◌, if◌then◌else◌, length, arith, Dict, IsDistinct,
  lookup, insert, lookup-insert_self, lookup-insert_ne, insert-IsDistinct, lookup-delete_self,
  lookup-delete_ne, delete-IsDistinct,
}
use kubepeep.Actions.Idempotency.{
  IdempotencyEntry, IdempotencyIdentity, IdempotencyRegistry, Answer, Phase, Finds, arriving,
  waiting, executing, ended, new_idempotency_registry, prune_locked, begin, complete, answer_of,
  advance, advance_at, run,
}

-- 1 if the entry under the key runs, as the execution of that number.
abbrev runs_entry : ℕ → Option IdempotencyEntry → ℕ
runs_entry number none = 0
runs_entry number (some e) = elim e.terminal_at [
  | none ↦ if e.number == number then 1 else 0
  | some t ↦ 0
]

abbrev pub runs_as : String → ℕ → Dict IdempotencyEntry → ℕ
runs_as key number m = runs_entry number (lookup key m)

prune_none :
    (now ttl : ℕ) (k : String) (m : Dict IdempotencyEntry)
    → lookup k m ≡ none
    → lookup k (prune_locked now ttl m) ≡ none
unfolding prune_locked lookup
prune_none now ttl k [] h = refl
prune_none now ttl k ((j, e) ∷ m) h = ground (arith, prune_none now ttl k m, eq_iff j k)

prune-IsDistinct :
    (now ttl : ℕ) (m : Dict IdempotencyEntry) → IsDistinct m → IsDistinct (prune_locked now ttl m)
unfolding prune_locked
prune-IsDistinct now ttl [] d = tt
prune-IsDistinct now ttl ((j, e) ∷ m) d =
    ground (arith, prune-IsDistinct now ttl m d.1, prune_none now ttl j m d.0)

-- Pruning drops no running entry.
prune-runs_as :
    (now ttl number : ℕ) (k : String) (m : Dict IdempotencyEntry)
    → IsDistinct m
    → runs_as k number (prune_locked now ttl m) ≡ runs_as k number m
unfolding prune_locked lookup
prune-runs_as now ttl number k [] d = refl
prune-runs_as now ttl number k ((j, e) ∷ m) d =
    ground (arith, prune-runs_as now ttl number k m d.1, prune_none now ttl k m, eq_iff j k)

module _ {ℓ} {T : Type ℓ} where
  -- 1 if the request is the execution of that number under the key.
  abbrev pub executes_as : String → ℕ → Phase T → ℕ
  executes_as k number (executing j n) = if str_eq j k && n == number then 1 else 0
  executes_as k number _ = 0

  abbrev pub total : (Phase T → ℕ) → List (Phase T) → ℕ
  total f [] = 0
  total f (p ∷ ps) = f p + total f ps

  -- An execution under way has its entry in the map.
  abbrev IsLive : IdempotencyRegistry T → Phase T → Type 0
  IsLive r (executing k n) = 1 ≤ runs_as k n r.entries
  IsLive r _ = Unit {0}

module _ {ℓ} {T : Type ℓ} (zero_value : T) where
  begin-runs_as :
      (now : ℕ) (key : String) (d : IdempotencyIdentity) (r : IdempotencyRegistry T) (k : String)
      (n : ℕ)
      → IsDistinct r.entries
      → let (r', p) = begin zero_value now key d r in
        runs_as k n r'.entries ≡ runs_as k n r.entries + executes_as k n p
  unfolding begin
  begin-runs_as now key d r k n u = ground (
    arith,
    prune-runs_as now r.ttl n k r.entries u,
    eq_iff key k,
    lookup-insert_self key (record { number = length r.answers; identity = d; terminal_at = none })
        (prune_locked now r.ttl r.entries),
    lookup-insert_ne key k (record { number = length r.answers; identity = d; terminal_at = none })
        (prune_locked now r.ttl r.entries),
  )

  complete-runs_as :
      (now : ℕ) (key : String) (number : ℕ) (a : Answer T) (r : IdempotencyRegistry T) (k : String)
      (n : ℕ)
      → IsDistinct r.entries
      → 1 ≤ runs_as key number r.entries
      → runs_as k n (complete now key number a r).entries
          + executes_as {T = T} k n (executing key number)
        ≡ runs_as k n r.entries
  unfolding complete
  complete-runs_as now key number a r k n u live = elim (Option-cases (lookup key r.entries)) [
    | inl e ↦ absurd (ground arith)
    | inr (e, h) ↦
        let stamped = insert key (record e { terminal_at = some now }) r.entries in
        ground (
          arith,
          eq_iff key k,
          lookup-insert_self key (record e { terminal_at = some now }) r.entries,
          lookup-insert_ne key k (record e { terminal_at = some now }) r.entries,
          lookup-delete_self key stamped (insert-IsDistinct key _ r.entries u),
          lookup-delete_ne key k stamped,
          lookup-delete_self key r.entries u,
          lookup-delete_ne key k r.entries,
        )
  ]

  -- The entries that run are `a` executions and those of the requests in the list.
  record IsMatched (a : String → ℕ → ℕ) (r : IdempotencyRegistry T) (ps : List (Phase T))
      : Type ℓ where
    distinct : IsDistinct r.entries
    matched : (k : String) (n : ℕ) → a k n + total (executes_as k n) ps ≡ runs_as k n r.entries

  begin-IsDistinct :
      (now : ℕ) (key : String) (d : IdempotencyIdentity) (r : IdempotencyRegistry T)
      → IsDistinct r.entries
      → IsDistinct (begin zero_value now key d r).0.entries
  unfolding begin
  begin-IsDistinct now key d r u = ground (
    arith,
    prune-IsDistinct now r.ttl r.entries u,
    insert-IsDistinct key (record { number = length r.answers; identity = d; terminal_at = none })
        (prune_locked now r.ttl r.entries),
  )

  complete-IsDistinct :
      (now : ℕ) (key : String) (number : ℕ) (a : Answer T) (r : IdempotencyRegistry T)
      → IsDistinct r.entries
      → IsDistinct (complete now key number a r).entries
  unfolding complete
  complete-IsDistinct now key number a r u = elim (Option-cases (lookup key r.entries)) [
    | inl e ↦ ground (arith, delete-IsDistinct key r.entries u)
    | inr (e, h) ↦
        let stamped = insert key (record e { terminal_at = some now }) r.entries in
        let v = insert-IsDistinct key (record e { terminal_at = some now }) r.entries u in
        ground (arith, v, delete-IsDistinct key stamped v, delete-IsDistinct key r.entries u)
  ]

  advance-IsMatched :
      (a : String → ℕ → ℕ) (f : Finds T) (r : IdempotencyRegistry T) (p : Phase T)
      → IsDistinct r.entries
      → ((k : String) (n : ℕ) → a k n + executes_as k n p ≡ runs_as k n r.entries)
      → let (r', q) = advance zero_value f r p in
        IsDistinct r'.entries
        × ((k : String) (n : ℕ) → a k n + executes_as k n q ≡ runs_as k n r'.entries)
  unfolding advance
  advance-IsMatched a f r (arriving key d) u h = (
    begin-IsDistinct f.now key d r u,
    λ k n. omega (arith, h k n, begin-runs_as f.now key d r k n u),
  )
  advance-IsMatched a f r (waiting number) u h = (u, λ k n. ground (arith, h k n))
  advance-IsMatched a f r (executing key number) u h =
      let live : 1 ≤ runs_as key number r.entries = ground (arith, h key number, eq_iff key key) in
      (
        complete-IsDistinct f.now key number (answer_of zero_value f.outcome) r u,
        λ k n. omega (
          arith,
          h k n,
          complete-runs_as f.now key number (answer_of zero_value f.outcome) r k n u live,
        ),
      )
  advance-IsMatched a f r (ended reply) u h = (u, h)

  advance_at-IsMatched :
      (i : ℕ) (a : String → ℕ → ℕ) (f : Finds T) (r : IdempotencyRegistry T) (ps : List (Phase T))
      → IsMatched a r ps
      → IsMatched a (advance_at zero_value i f r ps).0 (advance_at zero_value i f r ps).1
  unfolding advance_at
  advance_at-IsMatched i a f r [] v = v
  advance_at-IsMatched zero a f r (p ∷ ps) v =
      let moved =
        advance-IsMatched (λ k n. a k n + total (executes_as k n) ps) f r p v.distinct
          (λ k n. omega (arith, v.matched k n)) in
      record { distinct = moved.0; matched = λ k n. omega (arith, moved.1 k n) }
  advance_at-IsMatched (suc i) a f r (p ∷ ps) v =
      let rest =
        advance_at-IsMatched i (λ k n. a k n + executes_as k n p) f r ps
          (record { distinct = v.distinct; matched = λ k n. omega (arith, v.matched k n) }) in
      record { distinct = rest.distinct; matched = λ k n. omega (arith, rest.matched k n) }

  run-IsMatched :
      (r : IdempotencyRegistry T) (ps : List (Phase T)) (es : List (ℕ × Finds T))
      → IsMatched (λ k n. 0) r ps
      → IsMatched (λ k n. 0) (run zero_value r ps es).0 (run zero_value r ps es).1
  unfolding run
  run-IsMatched r ps [] v = v
  run-IsMatched r ps ((i, f) ∷ es) v =
      run-IsMatched (advance_at zero_value i f r ps).0 (advance_at zero_value i f r ps).1 es
        (advance_at-IsMatched i (λ k n. 0) f r ps v)

module _ {ℓ} {T : Type ℓ} where
  -- 1 if the request is an execution under the key.
  abbrev pub executes : String → Phase T → ℕ
  executes k (executing j n) = if str_eq j k then 1 else 0
  executes k _ = 0

  none_executes :
      (k : String) (ps : List (Phase T))
      → ((n : ℕ) → total (executes_as k n) ps ≡ 0)
      → total (executes k) ps ≡ 0
  none_executes k [] h = refl
  none_executes k (executing j n ∷ ps) h =
      ground (arith, h n, none_executes k ps (λ i. omega (arith, h i)))
  none_executes k (p ∷ ps) h = omega (arith, none_executes k ps (λ i. omega (arith, h i)))

  one_executes :
      (k : String) (m : ℕ) (ps : List (Phase T))
      → ((n : ℕ) → total (executes_as k n) ps ≤ (if m == n then 1 else 0))
      → total (executes k) ps ≤ 1
  one_executes k m [] h = omega arith
  one_executes k m (executing j n ∷ ps) h = elim (Bool-cases (str_eq j k)) [
    | inl e ↦
        let rest : (i : ℕ) → total (executes_as k i) ps ≡ 0 = λ i. ground (arith, h i, h n) in
        ground (arith, none_executes k ps rest)
    | inr e ↦ ground (arith, one_executes k m ps (λ i. ground (arith, h i)))
  ]
  one_executes k m (p ∷ ps) h = omega (arith, one_executes k m ps (λ i. omega (arith, h i)))

-- The callers, each about to call `Do` with its key and identity.
abbrev pub callers {ℓ} : {T : Type ℓ} → List (String × IdempotencyIdentity) → List (Phase T)
callers [] = []
callers ((key, identity) ∷ cs) = arriving key identity ∷ callers cs

no_callers {ℓ} :
    (T : Type ℓ) (k : String) (n : ℕ) (cs : List (String × IdempotencyIdentity))
    → total (executes_as {T = T} k n) (callers cs) ≡ 0
no_callers T k n [] = refl
no_callers T k n ((key, identity) ∷ cs) = omega (arith, no_callers T k n cs)

module _ {ℓ} {T : Type ℓ} (zero_value : T) where
  start-IsMatched :
      (ttl : ℕ) (cs : List (String × IdempotencyIdentity))
      → IsMatched zero_value (λ k n. 0) (new_idempotency_registry ttl) (callers cs)
  unfolding new_idempotency_registry lookup
  start-IsMatched ttl cs = record {
    distinct = tt;
    matched = λ k n. omega (arith, no_callers T k n cs);
  }

  runs-le-one :
      (k : String) (ps : List (Phase T)) (o : Option IdempotencyEntry)
      → ((n : ℕ) → 0 + total (executes_as k n) ps ≡ runs_entry n o)
      → total (executes k) ps ≤ 1
  runs-le-one k ps none h = one_executes k 0 ps (λ n. ground (arith, h n))
  runs-le-one k ps (some e) h = one_executes k e.number ps (λ n. ground (arith, h n))

  -- Whatever the schedule, at most one execution runs under a key, and it runs exactly while the
  -- entry of its number stands in the map with no end time: such an entry is neither pruned nor
  -- replaced.
  pub run_exclusive :
      (ttl : ℕ) (cs : List (String × IdempotencyIdentity)) (es : List (ℕ × Finds T)) (k : String)
      → let (r, ps) = run zero_value (new_idempotency_registry ttl) (callers cs) es in
        (total (executes k) ps ≤ 1) × ((n : ℕ) → total (executes_as k n) ps ≡ runs_as k n r.entries)
  run_exclusive ttl cs es k =
      let v =
        run-IsMatched zero_value (new_idempotency_registry ttl) (callers cs) es
          (start-IsMatched ttl cs) in
      (runs-le-one k _ _ (v.matched k), λ n. omega (arith, v.matched k n))
