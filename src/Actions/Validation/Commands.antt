-- ===== src/Actions/Validation/Commands.antt =====
-- Which command lines `validateExec` of internal/services/actions/validation.go lets through.
use kubepeep.Base.{
  ℕ, ◌+◌, ◌≤◌, ◌≡◌, ◌≢◌, ◌↔◌, refl, String, eq_iff, Bool, true, false, none, List, [], ◌∷◌, arith,
  All, len, length, any_of, codes, ◌==◌, Bool-cases, inl, inr,
}
use kubepeep.Actions.Requests.{
  maximum_exec_argument_bytes, maximum_exec_arguments, maximum_exec_command_bytes,
}
use kubepeep.Actions.Validation.{
  Libraries, violations, refuse, bad_argument, command_loop, command_checks,
}
use kubepeep.Actions.Validation.Accepts.{refuse-violations}

abbrev pub total_length : List String → ℕ
total_length [] = 0
total_length (a ∷ rest) = len a + total_length rest

abbrev pub IsArgument : Libraries → String → Type 0
IsArgument libraries a =
    (libraries.is_valid_utf8 a ≡ true)
    × (any_of (λ c. c == 0) (codes a) ≡ false)
    × (len a ≤ maximum_exec_argument_bytes)

-- The program is named.
abbrev pub StartsWithName : List String → Type 0
StartsWithName [] = Unit
StartsWithName (a ∷ rest) = a ≢ ""

abbrev IsGood : Libraries → Bool → List String → Type 0
IsGood libraries first [] = Unit
IsGood libraries first (a ∷ rest) =
    IsArgument libraries a × (first ≡ true → a ≢ "") × All (IsArgument libraries) rest

module _ (libraries : Libraries) where
  bad_argument_iff :
      (first : Bool) (a : String)
      → (bad_argument libraries first a ≡ false)
        ↔ (IsArgument libraries a × (first ≡ true → a ≢ ""))
  unfolding bad_argument
  bad_argument_iff first a = (
    λ h. (
      (ground (arith, h), ground (arith, h), ground (arith, h)),
      λ f. λ e. ground (arith, h, f, (eq_iff a "").1 e),
    ),
    λ h. ground (arith, h.0, h.1, eq_iff a ""),
  )

  loop_iff :
      (first : Bool) (total : ℕ) (xs : List String)
      → ((command_loop libraries first total xs).1 ≡ false) ↔ IsGood libraries first xs
  unfolding command_loop
  loop_iff first total [] = (λ h. tt, λ h. refl)
  loop_iff first total (a ∷ rest) =
      let own = bad_argument_iff first a in
      let later = loop_iff false (total + len a) rest in
      elim (Bool-cases (bad_argument libraries first a)) [
        | inl q ↦ (λ h. ground (arith, h, q), λ h. ground (arith, q, own.1 (h.0, h.1)))
        | inr q ↦ (
          λ h. let (g, n) = own.0 q in (g, n, good_all rest (later.0 (ground (arith, h, q)))),
          λ h. ground (arith, q, later.1 (all_good rest h.2)),
        )
      ]
    where
      good_all : (xs : List String) → IsGood libraries false xs → All (IsArgument libraries) xs
      good_all [] h = tt
      good_all (a ∷ rest) h = (h.0, h.2)

      all_good : (xs : List String) → All (IsArgument libraries) xs → IsGood libraries false xs
      all_good [] h = tt
      all_good (a ∷ rest) h = (h.0, λ f. cc, h.1)

  loop_total :
      (first : Bool) (total : ℕ) (xs : List String)
      → (command_loop libraries first total xs).1 ≡ false
      → (command_loop libraries first total xs).0 ≡ total + total_length xs
  unfolding command_loop
  loop_total first total [] h = omega arith
  loop_total first total (a ∷ rest) h = ground (arith, h, loop_total false (total + len a) rest)

  IsGood-parts :
      (xs : List String)
      → IsGood libraries true xs ↔ (StartsWithName xs × All (IsArgument libraries) xs)
  IsGood-parts [] = (λ h. (tt, tt), λ h. tt)
  IsGood-parts (a ∷ rest) = (λ h. (h.1 refl, (h.0, h.2)), λ h. (h.1.0, λ f. h.0, h.1.1))

  -- The loop stops at a bad argument and then has not added up the rest; still a command line passes
  -- exactly when it has 1 to 64 arguments, a name first, no bad argument, and at most 32768 bytes in
  -- all.
  pub command_checks-accepts :
      (command : List String)
      → (refuse (violations (command_checks libraries command)) ≡ none) ↔ (
          (1 ≤ length command)
          × (length command ≤ maximum_exec_arguments)
          × StartsWithName command
          × All (IsArgument libraries) command
          × (total_length command ≤ maximum_exec_command_bytes))
  unfolding command_checks
  command_checks-accepts command =
      let all = refuse-violations (command_checks libraries command) in
      let loop = loop_iff true 0 command in
      let parts = IsGood-parts command in
      (
        λ h.
            let (number, (good, (small, _))) = all.0 h in
            let (named, each) = parts.0 (loop.0 good) in
            (
              ground (arith, number),
              ground (arith, number),
              named,
              each,
              ground (arith, small, loop_total true 0 command good),
            ),
        λ h.
            let good = loop.1 (parts.1 (h.2, h.3)) in
            all.1 (
              ground (arith, h.0, h.1),
              (good, (ground (arith, h.4, loop_total true 0 command good), tt)),
            ),
      )
