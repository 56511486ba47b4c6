-- ===== src/Actions/Idempotency/Tests.antt =====
-- Runs of the idempotency registry, and the theorems about it at concrete inputs.
use kubepeep.Base.{
  ℕ, ◌≤◌, ◌≡◌, refl, String, true, false, none, some, List, [], ◌∷◌, arith, lookup, insert,
}
use kubepeep.Actions.Idempotency.{
  IdempotencyEntry, IdempotencyIdentity, IdempotencyRegistry, Answer, Finds,
  new_idempotency_registry, waiting, ended, prune_locked, begin, complete, advance, run,
}
use kubepeep.Actions.Idempotency.Exclusion.{
  callers, executes, executes_as, runs_as, total, run_exclusive,
}
use kubepeep.Actions.Idempotency.Replay.{complete-begin_replays}

abbrev scale : IdempotencyIdentity
scale = record {
  method = "POST";
  path = "/actions/scale";
  cluster_profile_id = 1;
  generation = "gen_a";
  body_hash = "h1";
}

abbrev scaled : Answer ℕ
scaled = record { value = 7; error = none }

abbrev finds : Finds ℕ
finds = record { now = 10; is_done = false; outcome = some scaled }

abbrev twice : List (String × IdempotencyIdentity)
twice = ("k", scale) ∷ ("k", scale) ∷ []

-- Both call; the first one executes and the second one waits for it.
abbrev schedule : List (ℕ × Finds ℕ)
schedule = (0, finds) ∷ (1, finds) ∷ (1, finds) ∷ []

run_exclusive_example :
    let (r, ps) = run 0 (new_idempotency_registry 60) (callers twice) schedule in
    (total (executes "k") ps ≤ 1)
    × ((n : ℕ) → total (executes_as "k" n) ps ≡ runs_as "k" n r.entries)
run_exclusive_example = run_exclusive 0 60 twice schedule "k"

one_runs : total (executes "k") (run 0 (new_idempotency_registry 60) (callers twice) schedule).1 ≡ 1
unfolding run prune_locked begin advance new_idempotency_registry lookup insert
one_runs = refl

abbrev running : IdempotencyEntry
running = record { number = 0; identity = scale; terminal_at = none }

abbrev busy : IdempotencyRegistry ℕ
busy = record { ttl = 60; entries = ("k", running) ∷ []; answers = none ∷ [] }

complete-begin_replays_example :
    let (r', p) = begin 0 69 "k" scale (complete 10 "k" 0 scaled busy) in
    (p ≡ waiting 0)
    × ((advance 0 finds r' p).1 ≡ ended (record { value = 7; replayed = true; error = none }))
unfolding lookup
complete-begin_replays_example =
    complete-begin_replays 0 10 69 "k" scale running scaled finds busy refl refl (omega arith) refl
      (omega arith) refl
