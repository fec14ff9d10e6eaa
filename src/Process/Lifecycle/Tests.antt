-- ===== src/Process/Lifecycle/Tests.antt =====
-- kernel/src/process/lifecycle.rs: a table of two processes, neither of which runs yet.
use rustic_os.Base.{ℕ, ◌<◌, ◌≡◌, refl, ◌⊎◌, [], ◌∷◌}
use rustic_os.Base.Slots.{at, first_free, count}
use rustic_os.Process.Lifecycle.{Table, new, create, schedule, ready, probe}
use rustic_os.Process.Lifecycle.Invariant.{IsValid, new-IsValid, create-IsValid}
use rustic_os.Process.Lifecycle.Schedule.{Picked, schedule-Picked, schedule_progress, distance_from}
use rustic_os.Process.Lifecycle.Runs.{
  run, run-IsValid, create_call, schedule_call, block_call, hold_call,
}

run-IsValid_example :
    IsValid (run new (create_call ∷ create_call ∷ schedule_call ∷ block_call 1 ∷ []))
run-IsValid_example = run-IsValid (create_call ∷ create_call ∷ schedule_call ∷ block_call 1 ∷ [])

abbrev two : Table
two = (create (create new).0).0

two-IsValid : IsValid two
two-IsValid = create-IsValid (create new).0 (create-IsValid new new-IsValid)

schedule-Picked_example : Picked two 0 1
unfolding schedule create new first_free count at probe
schedule-Picked_example = schedule-Picked two 0 1 refl

schedule_progress_example :
    (◌≡◌ {A = ℕ} 0 1) ⊎ (distance_from (schedule two).0.cursor 1 < distance_from two.cursor 1)
unfolding schedule create new first_free count at probe
schedule_progress_example =
    schedule_progress two 1 0 1 (record { pid = 2; state = ready }) two-IsValid refl refl refl

-- One process, which is held.
abbrev held : Table
held = run new (create_call ∷ hold_call 1 ∷ [])
