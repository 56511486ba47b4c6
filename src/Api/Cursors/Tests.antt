-- ===== src/Api/Cursors/Tests.antt =====
-- Concrete runs of the store of internal/api/cursor_store.go.
use kubepeep.Base.{
  ◌≡◌, ◌≢◌, ◌≤◌, refl, String, eq_iff, some, List, [], ◌∷◌, length, total, arith, lookup, insert,
  delete,
}
use kubepeep.Api.Cursors.{
  CursorStore, new_cursor_store, size, put, get, run, perform, remove, purge, purge_locked, drop,
  evict, evict_locked, is_over, store_entry, Operation, puts, gets, removes,
}
use kubepeep.Api.Cursors.Limits.{run_parked}
use kubepeep.Api.Cursors.Parking.{put-get}

abbrev operations : List Operation
operations =
    puts 10 "ref-a" (1 ∷ 2 ∷ 3 ∷ [])
    ∷ puts 20 "ref-b" (4 ∷ 5 ∷ [])
    ∷ gets 30 "ref-a"
    ∷ removes "ref-b"
    ∷ []

abbrev first_reference : String
first_reference = "ref-a"

abbrev second_reference : String
second_reference = "ref-b"

first_named : first_reference ≢ ""
first_named = λ e. ground (arith, eq_iff first_reference "", e)

second_named : second_reference ≢ ""
second_named = λ e. ground (arith, eq_iff second_reference "", e)

abbrev after : CursorStore
after = run (new_cursor_store 600) operations

run_parked_example :
    (after.bytes ≡ total size after.entries)
    × (after.bytes ≤ after.max_bytes)
    × (length after.entries ≤ after.max_entries)
unfolding perform put new_cursor_store lookup insert
run_parked_example =
    run_parked 600 operations ((first_named, refl), ((second_named, refl), (tt, (tt, tt))))

-- What is done before the payload expires: a lookup, another `Put`, and a removal of the first reference.
abbrev between : List Operation
between = gets 20 "ref-c" ∷ puts 30 "ref-d" (9 ∷ []) ∷ removes "ref-a" ∷ []

abbrev third_reference : String
third_reference = "ref-c"

abbrev fourth_reference : String
fourth_reference = "ref-d"

third_named : third_reference ≢ ""
third_named = λ e. ground (arith, eq_iff third_reference "", e)

fourth_named : fourth_reference ≢ ""
fourth_named = λ e. ground (arith, eq_iff fourth_reference "", e)

first_third : first_reference ≢ third_reference
first_third = λ e. ground (arith, eq_iff first_reference third_reference, e)

put-get_example :
    (get 500 third_reference
      (run (put 10 (some third_reference) (some (7 ∷ [])) after).0 between)).1
    ≡ some (7 ∷ [])
unfolding run perform put get remove evict_locked store_entry purge purge_locked drop evict is_over
    new_cursor_store lookup insert delete
put-get_example =
    put-get 600 operations between 10 500 third_reference (7 ∷ [])
      ((first_named, refl), ((second_named, refl), (tt, (tt, tt)))) (third_named, refl)
      (omega arith) (tt, ((fourth_named, refl), (tt, tt)))
      (omega arith, ((omega arith, refl), (first_third, tt)))
