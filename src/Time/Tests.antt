-- ===== src/Time/Tests.antt =====
-- kernel/src/time/waits.rs: three slots, two of which wait.
use rustic_os.Base.{◌≤◌, ◌<◌, ◌≡◌, refl, true, false, none, some, [], ◌∷◌, get_elem?}
use rustic_os.Time.Waits.{
  WaitSet, complete, waits_for, next_deadline, complete-due, next_deadline-first,
}

abbrev two_wait : WaitSet
two_wait = some 30 ∷ none ∷ some 20 ∷ []

complete-due_example :
    (30 ≤ 20
      → (waits_for (complete two_wait 20).0 0 ≡ none)
        × (get_elem? (complete two_wait 20).1 0 ≡ some true))
    × (20 < 30
        → (waits_for (complete two_wait 20).0 0 ≡ some 30)
          × (get_elem? (complete two_wait 20).1 0 ≡ some false))
complete-due_example = complete-due two_wait 20 0 30 refl

next_deadline-first_example : 20 ≤ 30
unfolding next_deadline
next_deadline-first_example = next_deadline-first two_wait 20 0 30 refl refl
