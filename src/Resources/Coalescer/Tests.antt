-- ===== src/Resources/Coalescer/Tests.antt =====
-- Two callers of one key of internal/services/resources/coalescer.go: the first gives up.
use kubepeep.Base.{
  ℕ, ◌≡◌, ◌≤◌, refl, String, true, false, List, [], ◌∷◌, lookup, insert, arith, ◌==◌,
}
use kubepeep.Resources.Coalescer.{Move, caller_moves, is_finished, new_request_coalescer, run}
use kubepeep.Resources.Coalescer.Waiters.{callers_of}
use kubepeep.Resources.Coalescer.Cancellation.{all_arriving, run_canceled, run_joins}

abbrev two_callers : List String
two_callers = "pods" ∷ "pods" ∷ []

abbrev one_gives_up : List (Move ℕ)
one_gives_up = caller_moves 0 false ∷ caller_moves 1 false ∷ caller_moves 0 true ∷ []

-- The second caller gives up too.
both_give_up :
    ((run
        (caller_moves 1 true ∷ [])
        (run one_gives_up new_request_coalescer (all_arriving two_callers)).0
        (run one_gives_up new_request_coalescer (all_arriving two_callers)).1).0.store
      0).canceled
    ≡ true
unfolding run new_request_coalescer lookup insert
both_give_up = refl

still_running :
    is_finished ((run one_gives_up new_request_coalescer (all_arriving two_callers)).0.store 0)
    ≡ false
unfolding run new_request_coalescer lookup insert
still_running = refl

run_canceled_example :
    ((run one_gives_up new_request_coalescer (all_arriving two_callers)).0.store 0).canceled
    ≡ (callers_of 0 (run one_gives_up new_request_coalescer (all_arriving two_callers)).1 == 0)
unfolding run new_request_coalescer lookup insert
run_canceled_example = run_canceled two_callers one_gives_up 0 (omega arith) refl refl

run_joins_example :
    let out = run one_gives_up new_request_coalescer (all_arriving two_callers) in
    (is_finished (out.0.store 0) ≡ false)
    × ((out.0.store 0).key ≡ "pods")
    × (1 ≤ callers_of 0 out.1)
    × ((out.0.store 0).canceled ≡ false)
unfolding run new_request_coalescer lookup insert
run_joins_example = run_joins two_callers one_gives_up "pods" 0 refl refl
