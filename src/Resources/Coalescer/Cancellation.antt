-- ===== src/Resources/Coalescer/Cancellation.antt =====
-- When the operation of a call of internal/services/resources/coalescer.go is canceled, over every
-- interleaving.
use kubepeep.Base.{
  ℕ, ◌+◌, ◌≤◌, ◌<◌, ◌≡◌, refl, sym, ap, ◌∙◌, String, str_eq, Bool, true, false, Option, none, some,
  List, [], ◌∷◌, arith, ◌==◌, if◌then◌else◌, get_elem?, lookup,
}
use kubepeep.Resources.Coalescer.{
  Answer, RequestCoalescer, Reply, Phase, arriving, waiting, replied, Move, caller_moves,
  operation_returns, coalescer_closes, is_finished, new_request_coalescer, enter, begin, await,
  advance, move_caller, step, run,
}
use kubepeep.Resources.Coalescer.Waiters.{
  waits_for, callers_of, callers_of-set, Holds, Holds-join, Holds-create, Holds-leave, Holds-close,
  Holds-finish, Holds-same,
}

module _ {ℓ} {T : Type ℓ} where
  -- A caller moves from where it stands: the counts of callers before, and any counts behind that fit.
  IsMoved : Phase T → RequestCoalescer T × Phase T → (ℕ → ℕ) → Type ℓ
  IsMoved p out v =
      (w : ℕ → ℕ) → ((n : ℕ) → w n + waits_for n p ≡ v n + waits_for n out.1) → Holds out.0 w

  IsMoved-enter :
      (key : String) (found : Option ℕ) (c : RequestCoalescer T) (v : ℕ → ℕ)
      → lookup key c.calls ≡ found
      → Holds c v
      → IsMoved (arriving key) (enter key found c) v
  unfolding IsMoved enter
  IsMoved-enter key none c v q h = λ w e. Holds-create key c v w (λ m. omega (arith, e m)) h
  IsMoved-enter key (some n) c v q h = λ w e. Holds-join key n c v w q (λ m. omega (arith, e m)) h

  IsMoved-if :
      (b d : Bool) (key : String) (c : RequestCoalescer T) (r s : Reply T)
      (out : RequestCoalescer T × Phase T) (v : ℕ → ℕ)
      → Holds c v
      → IsMoved (arriving key) out v
      → IsMoved (arriving key) (if b then (c, replied r) else if d then (c, replied s) else out) v
  unfolding IsMoved
  IsMoved-if true d key c r s out v h k = λ w e. Holds-same c v w (λ n. omega (arith, e n)) h
  IsMoved-if false true key c r s out v h k = λ w e. Holds-same c v w (λ n. omega (arith, e n)) h
  IsMoved-if false false key c r s out v h k = k

  IsMoved-await :
      (n : ℕ) (is_done : Bool) (outcome : Option (Answer T)) (c : RequestCoalescer T) (v : ℕ → ℕ)
      → (c.store n).outcome ≡ outcome
      → Holds c v
      → IsMoved (waiting n) (await n is_done outcome c) v
  unfolding IsMoved await
  IsMoved-await n true outcome c v q h =
      λ w e. Holds-leave n true c v w (λ m. omega (arith, e m)) (λ f. cc) h
  IsMoved-await n false none c v q h = λ w e. Holds-same c v w (λ m. omega (arith, e m)) h
  IsMoved-await n false (some a) c v q h =
      λ w e. Holds-leave n false c v w (λ m. omega (arith, e m)) (λ f. rw q refl) h

  IsMoved-advance :
      (is_done : Bool) (c : RequestCoalescer T) (p : Phase T) (v : ℕ → ℕ)
      → Holds c v
      → IsMoved p (advance is_done c p) v
  unfolding advance begin IsMoved
  IsMoved-advance is_done c (arriving key) v h =
      IsMoved-if (str_eq key "") c.closed key c _ _ _ v h
        (IsMoved-enter key (lookup key c.calls) c v refl h)
  IsMoved-advance is_done c (waiting n) v h = IsMoved-await n is_done (c.store n).outcome c v refl h
  IsMoved-advance is_done c (replied reply) v h =
      λ w e. Holds-same c v w (λ n. omega (arith, e n)) h

  HoldsFor : RequestCoalescer T × List (Phase T) → Type ℓ
  HoldsFor s = Holds s.0 (λ n. callers_of n s.1)

  HoldsFor-move_caller :
      (i : ℕ) (is_done : Bool) (found : Option (Phase T)) (c : RequestCoalescer T)
      (ps : List (Phase T))
      → get_elem? ps i ≡ found
      → HoldsFor (c, ps)
      → HoldsFor (move_caller i is_done found c ps)
  unfolding HoldsFor move_caller IsMoved
  HoldsFor-move_caller i is_done none c ps q h = h
  HoldsFor-move_caller i is_done (some p) c ps q h =
      IsMoved-advance is_done c p (λ n. callers_of n ps) h _
        (λ n. callers_of-set n i ps p (advance is_done c p).1 q)

  HoldsFor-step :
      (move : Move T) (c : RequestCoalescer T) (ps : List (Phase T))
      → HoldsFor (c, ps)
      → HoldsFor (step move c ps)
  unfolding HoldsFor step
  HoldsFor-step (caller_moves i is_done) c ps h =
      HoldsFor-move_caller i is_done (get_elem? ps i) c ps refl h
  HoldsFor-step (operation_returns n a) c ps h = Holds-finish n a c _ h
  HoldsFor-step coalescer_closes c ps h = Holds-close c _ h

  HoldsFor-run :
      (moves : List (Move T)) (c : RequestCoalescer T) (ps : List (Phase T))
      → HoldsFor (c, ps)
      → HoldsFor (run moves c ps)
  unfolding run
  HoldsFor-run [] c ps h = h
  HoldsFor-run (move ∷ moves) c ps h =
      HoldsFor-run moves (step move c ps).0 (step move c ps).1 (HoldsFor-step move c ps h)

abbrev pub all_arriving {ℓ} : {T : Type ℓ} → List String → List (Phase T)
all_arriving [] = []
all_arriving (key ∷ keys) = arriving key ∷ all_arriving keys

no_callers {ℓ} :
    (T : Type ℓ) (n : ℕ) (keys : List String) → callers_of n (all_arriving {T = T} keys) ≡ 0
no_callers T n [] = refl
no_callers T n (key ∷ keys) = omega (arith, no_callers T n keys)

HoldsFor-new {ℓ} :
    (T : Type ℓ) (keys : List String) → HoldsFor (new_request_coalescer {T = T}, all_arriving keys)
unfolding HoldsFor new_request_coalescer lookup
HoldsFor-new T keys = record {
  counted = λ n. sym (no_callers T n keys);
  unused = λ n l. refl;
  live = λ n l f o. ground (arith, l);
  mapped = λ key n r. cc;
  distinct = tt;
}

module _ {ℓ} {T : Type ℓ} where
  -- However callers for any keys arrive, are answered or give up, and operations return: until the
  -- coalescer is closed, an operation that has not returned is canceled exactly when no caller waits for
  -- its call.
  pub run_canceled :
      (keys : List String) (moves : List (Move T)) (n : ℕ)
      → let out = run moves (new_request_coalescer {T = T}) (all_arriving keys) in
        n < out.0.made
        → is_finished (out.0.store n) ≡ false
        → out.0.closed ≡ false
        → (out.0.store n).canceled ≡ (callers_of n out.1 == 0)
  unfolding HoldsFor
  run_canceled keys moves n l f o =
      let h =
        HoldsFor-run moves (new_request_coalescer {T = T}) (all_arriving keys)
          (HoldsFor-new T keys) in
      h.live n l f o ∙ ap (λ k. k == 0) (h.counted n)

  -- A call that a new caller would join has not returned, has a caller, and is one for its key; unless
  -- the coalescer is closed, its operation is not canceled.
  pub run_joins :
      (keys : List String) (moves : List (Move T)) (key : String) (n : ℕ)
      → let out = run moves (new_request_coalescer {T = T}) (all_arriving keys) in
        lookup key out.0.calls ≡ some n
        → out.0.closed ≡ false
        → (is_finished (out.0.store n) ≡ false)
          × ((out.0.store n).key ≡ key)
          × (1 ≤ callers_of n out.1)
          × ((out.0.store n).canceled ≡ false)
  unfolding HoldsFor
  run_joins keys moves key n q o =
      let h =
        HoldsFor-run moves (new_request_coalescer {T = T}) (all_arriving keys)
          (HoldsFor-new T keys) in
      let there = h.mapped key n q in
      let canceled = h.live n there.0 there.2 o in
      (there.2, there.1, ground (arith, there.3, h.counted n), ground (arith, there.3, canceled))
