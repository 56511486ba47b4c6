-- ===== src/Selection/State/Serial.antt =====
-- What interleaved requests of internal/services/selection/state.go see of each other.
use kubepeep.Base.{
  ℕ, zero, suc, ◌+◌, ◌^◌, ◌≤◌, ◌<◌, ◌≡◌, refl, sym, ap, subst, String, str_eq, Bool, true, false,
  Option, none, some, List, [], ◌∷◌, map, ◌⊎◌, inl, inr, arith, All, length, get_elem?, Bool-cases,
}
use kubepeep.Selection.Coordinator.{
  SelectionError, invalid, Result, ok, err, Coordinator, Intent, begin, cancel, validate, contains,
}
use kubepeep.Selection.Coordinator.Newest.{Commits, commit_conditional-Commits, validate_newest}
use kubepeep.Selection.State.{
  SelectionBinding, State, Plan, System, Finds, Phase, starting, begun, checked, reading, checking,
  preparing, failed, prepared, committing, ended, ending, is_published, is_plan_valid,
  SelectionResult, check, finish, commit, advance, advance_at, run, transaction, after_publish,
}

-- The binding is the current one as long as the intent is the newest and has not been canceled.
abbrev HasSeen : Intent → SelectionBinding → System → Type 0
HasSeen i b y =
    (i.sequence ≤ y.coordinator.sequence)
    × (i.sequence ≡ y.coordinator.sequence
        → contains i.sequence y.coordinator.canceled ≡ false
        → b ≡ y.state.binding)

abbrev IsSafe : System → Phase → Type 0
IsSafe y (starting _) = Unit
IsSafe y (begun i _) = i.sequence ≤ y.coordinator.sequence
IsSafe y (reading i _) = i.sequence ≤ y.coordinator.sequence
IsSafe y (checking i _ b) = HasSeen i b y
IsSafe y (preparing i _ b) = HasSeen i b y
IsSafe y (failed i _ _) = i.sequence ≤ y.coordinator.sequence
IsSafe y (prepared i _ b _) = HasSeen i b y
IsSafe y (committing i _ b _) = HasSeen i b y
IsSafe y (ending _ _) = Unit
IsSafe y (ended _) = Unit

-- What a move may do to the others: the sequence number grows by at most one, nothing canceled is
-- forgotten, and where the binding changes the newest intent is canceled.
abbrev Moves : System → System → Type 0
Moves y z =
    (y.coordinator.sequence ≤ z.coordinator.sequence)
    × (z.coordinator.sequence ≤ y.coordinator.sequence + 1)
    × ((n : ℕ)
        → contains n y.coordinator.canceled ≡ true
        → contains n z.coordinator.canceled ≡ true)
    × ((z.state.binding ≡ y.state.binding)
        ⊎ (contains z.coordinator.sequence z.coordinator.canceled ≡ true))

Moves-HasSeen :
    (y z : System) (i : Intent) (b : SelectionBinding) → Moves y z → HasSeen i b y → HasSeen i b z
Moves-HasSeen y z i b (grows, _, keeps, same) (le, seen) = (
  omega (arith, grows, le),
  λ e. λ f. elim same [
    | inl q ↦ elim (Bool-cases (contains i.sequence y.coordinator.canceled)) [
      | inl t ↦ ground (arith, keeps i.sequence t, f)
      | inr t ↦ ground (arith, seen (omega (arith, grows, le, e)) t, q)
    ]
    | inr q ↦ ground (arith, e, f, q)
  ],
)

Moves-IsSafe : (y z : System) (p : Phase) → Moves y z → IsSafe y p → IsSafe z p
Moves-IsSafe y z (starting _) m h = h
Moves-IsSafe y z (begun i _) m h = omega (arith, m.0, h)
Moves-IsSafe y z (reading i _) m h = omega (arith, m.0, h)
Moves-IsSafe y z (checking i _ b) m h = Moves-HasSeen y z i b m h
Moves-IsSafe y z (preparing i _ b) m h = Moves-HasSeen y z i b m h
Moves-IsSafe y z (failed i _ _) m h = omega (arith, m.0, h)
Moves-IsSafe y z (prepared i _ b _) m h = Moves-HasSeen y z i b m h
Moves-IsSafe y z (committing i _ b _) m h = Moves-HasSeen y z i b m h
Moves-IsSafe y z (ending _ _) m h = h
Moves-IsSafe y z (ended _) m h = h

Moves-All : (y z : System) (ps : List Phase) → Moves y z → All (IsSafe y) ps → All (IsSafe z) ps
Moves-All y z [] m h = h
Moves-All y z (p ∷ ps) m (h, hs) = (Moves-IsSafe y z p m h, Moves-All y z ps m hs)

Moves-refl : (y : System) → Moves y y
Moves-refl y = (omega arith, omega arith, λ n. λ h. h, inl refl)

contains-cons : (n x : ℕ) (xs : List ℕ) → contains n xs ≡ true → contains n (x ∷ xs) ≡ true
contains-cons n x xs h = ground (arith, h)

contains-cons_self : (x : ℕ) (xs : List ℕ) → contains x (x ∷ xs) ≡ true
contains-cons_self x xs = ground arith

-- One move of one request.
abbrev MovesSafely : System → System × Phase → Type 0
MovesSafely y (z, q) = Moves y z × IsSafe z q

end-MovesSafely :
    (f : Finds) (i : Intent) (r : Result SelectionResult) (y : System)
    → MovesSafely y (advance f y (ending i r))
unfolding advance cancel
end-MovesSafely f i r y = (
  (
    omega arith,
    omega arith,
    λ n. λ h. contains-cons n i.sequence y.coordinator.canceled h,
    inl refl,
  ),
  tt,
)

checked-IsSafe :
    (i : Intent) (next : Phase) (y : System) (o : Option SelectionError)
    → IsSafe y next
    → IsSafe y (checked i next o)
checked-IsSafe i next y none h = h
checked-IsSafe i next y (some x) h = tt

check-MovesSafely :
    (f : Finds) (i : Intent) (expected : String) (next : Phase) (y : System)
    → IsSafe y next
    → MovesSafely y (check f i expected next y)
unfolding check
check-MovesSafely f i expected next y h = (
  Moves-refl y,
  checked-IsSafe i next y (validate f.surroundings.parent_canceled i expected y.coordinator) h,
)

Commits-Moves :
    (i : Intent) (y : System) (c : Coordinator) (s : State) (r : Result String)
    → Commits i y.coordinator y.state (c, s, r)
    → Moves y (record { coordinator = c; state = s })
Commits-Moves i y c s r (e, f, g) = (
  omega (arith, e),
  omega (arith, e),
  λ n. λ h. ground (arith, f, h),
  elim g [ inl q ↦ inl (ap (λ t. t.binding) q) | inr q ↦ inr (ground (arith, e, f, q)) ],
)

finish-Moves :
    (i : Intent) (plan : Plan) (published : Bool) (y : System)
    (o : Coordinator × State × Result String)
    → Commits i y.coordinator y.state o
    → Moves y (finish plan published o).0
unfolding finish
finish-Moves i plan published y (c, s, err x) h = Commits-Moves i y c s (err x) h
finish-Moves i plan published y (c, s, ok next) h = Commits-Moves i y c s (ok next) h

begin-MovesSafely :
    (f : Finds) (y : System) (expected : String)
    → y.coordinator.sequence + 1 < 2 ^ 64
    → MovesSafely y (advance f y (starting expected))
unfolding advance begin
begin-MovesSafely f y expected w = (
  (
    omega (arith, w),
    omega (arith, w),
    λ n. λ h. contains-cons n y.coordinator.sequence y.coordinator.canceled h,
    inl refl,
  ),
  omega arith,
)

commit-MovesSafely :
    (f : Finds) (i : Intent) (expected : String) (b : SelectionBinding) (plan : Plan) (y : System)
    → MovesSafely y (advance f y (committing i expected b plan))
unfolding advance commit
commit-MovesSafely f i expected b plan y = (
  finish-Moves i plan (is_published (transaction expected plan y.state)) y
      (commit f.surroundings i expected plan y)
      (commit_conditional-Commits f.surroundings i expected (transaction expected plan)
        (λ m. m.publish_generation) (after_publish plan) y.coordinator y.state),
  tt,
)

read-MovesSafely :
    (f : Finds) (i : Intent) (expected : String) (y : System)
    → i.sequence ≤ y.coordinator.sequence
    → MovesSafely y (advance f y (reading i expected))
unfolding advance
read-MovesSafely f i expected y h = elim (Bool-cases (str_eq y.state.binding.generation expected)) [
  | inl q ↦ rw q (Moves-refl y, (h, λ e. λ g. refl))
  | inr q ↦ rw q (Moves-refl y, tt)
]

prepare-MovesSafely :
    (f : Finds) (i : Intent) (expected : String) (b : SelectionBinding) (y : System)
    → HasSeen i b y
    → MovesSafely y (advance f y (preparing i expected b))
unfolding advance
prepare-MovesSafely f i expected b y h = go f.preparation h
  where
    go :
        (r : Result Plan)
        → HasSeen i b y
        → MovesSafely y (advance (record f { preparation = r }) y (preparing i expected b))
    go (err x) h = (Moves-refl y, h.0)
    go (ok plan) h = (Moves-refl y, h)

prepared-MovesSafely :
    (f : Finds) (i : Intent) (expected : String) (b : SelectionBinding) (plan : Plan) (y : System)
    → HasSeen i b y
    → MovesSafely y (advance f y (prepared i expected b plan))
unfolding advance
prepared-MovesSafely f i expected b plan y h = elim (Bool-cases (is_plan_valid plan)) [
  | inl q ↦ rw q (check-MovesSafely f i expected (committing i expected b plan) y h)
  | inr q ↦ rw q (check-MovesSafely f i expected (ending i (err invalid)) y tt)
]

advance-MovesSafely :
    (f : Finds) (y : System) (p : Phase)
    → y.coordinator.sequence + 1 < 2 ^ 64
    → IsSafe y p
    → MovesSafely y (advance f y p)
unfolding advance
advance-MovesSafely f y (starting expected) w h = begin-MovesSafely f y expected w
advance-MovesSafely f y (begun i expected) w h =
    check-MovesSafely f i expected (reading i expected) y h
advance-MovesSafely f y (reading i expected) w h = read-MovesSafely f i expected y h
advance-MovesSafely f y (checking i expected b) w h =
    check-MovesSafely f i expected (preparing i expected b) y h
advance-MovesSafely f y (preparing i expected b) w h = prepare-MovesSafely f i expected b y h
advance-MovesSafely f y (failed i expected x) w h =
    check-MovesSafely f i expected (ending i (err x)) y tt
advance-MovesSafely f y (prepared i expected b plan) w h =
    prepared-MovesSafely f i expected b plan y h
advance-MovesSafely f y (committing i expected b plan) w h =
    commit-MovesSafely f i expected b plan y
advance-MovesSafely f y (ending i r) w h = end-MovesSafely f i r y
advance-MovesSafely f y (ended r) w h = (Moves-refl y, tt)

advance_at-Moves :
    (n : ℕ) (f : Finds) (y : System) (ps : List Phase)
    → y.coordinator.sequence + 1 < 2 ^ 64
    → All (IsSafe y) ps
    → let (z, qs) = advance_at n f y ps in Moves y z × All (IsSafe z) qs
unfolding advance_at
advance_at-Moves n f y [] w h = (Moves-refl y, tt)
advance_at-Moves zero f y (p ∷ ps) w (h, hs) =
    let (m, q) = advance-MovesSafely f y p w h in (m, (q, Moves-All y (advance f y p).0 ps m hs))
advance_at-Moves (suc n) f y (p ∷ ps) w (h, hs) =
    let (m, qs) = advance_at-Moves n f y ps w hs in
    (m, (Moves-IsSafe y (advance_at n f y ps).0 p m h, qs))

run-All :
    (y : System) (ps : List Phase) (es : List (ℕ × Finds))
    → y.coordinator.sequence + length es < 2 ^ 64
    → All (IsSafe y) ps
    → let (z, qs) = run y ps es in All (IsSafe z) qs
unfolding run
run-All y ps [] w h = h
run-All y ps ((n, f) ∷ es) w h =
    let (m, qs) = advance_at-Moves n f y ps (omega (arith, w)) h in
    run-All (advance_at n f y ps).0 (advance_at n f y ps).1 es (omega (arith, w, m.1)) qs

starting-All : (y : System) (xs : List String) → All (IsSafe y) (map starting xs)
starting-All y [] = tt
starting-All y (x ∷ xs) = (tt, starting-All y xs)

some-inj : {p q : Phase} → some p ≡ some q → p ≡ q
some-inj e = cc

All-get_elem? :
    (y : System) (ps : List Phase) (n : ℕ) (p : Phase)
    → All (IsSafe y) ps
    → get_elem? ps n ≡ some p
    → IsSafe y p
All-get_elem? y [] n p h e = ground (arith, e)
All-get_elem? y (q ∷ ps) zero p (h, hs) e = subst (IsSafe y) (some-inj e) h
All-get_elem? y (q ∷ ps) (suc n) p (h, hs) e = All-get_elem? y ps n p hs e

validate_live :
    (p : Bool) (i : Intent) (expected : String) (c : Coordinator)
    → validate p i expected c ≡ none
    → contains i.sequence c.canceled ≡ false
unfolding validate
validate_live p i expected c h = ground arith

-- Whatever the schedule of any number of requests, a commit that the coordinator lets pass finds the
-- very binding that its remote preparation was given: no selection that another request has made in
-- the meantime is overwritten. (The sequence number does not wrap.)
pub run_serial :
    (y : System) (requests : List String) (es : List (ℕ × Finds)) (n : ℕ) (i : Intent)
    (expected : String) (b : SelectionBinding) (plan : Plan) (parent_canceled : Bool)
    → y.coordinator.sequence + length es < 2 ^ 64
    → let (z, qs) = run y (map starting requests) es in
      get_elem? qs n ≡ some (committing i expected b plan)
      → validate parent_canceled i expected z.coordinator ≡ none
      → z.state.binding ≡ b
run_serial y requests es n i expected b plan parent_canceled w e v =
    let (z, qs) = run y (map starting requests) es in
    let h =
      All-get_elem? z qs n (committing i expected b plan)
        (run-All y (map starting requests) es w (starting-All y requests)) e in
    sym (
      h.1 (validate_newest parent_canceled i expected z.coordinator v)
        (validate_live parent_canceled i expected z.coordinator v))
