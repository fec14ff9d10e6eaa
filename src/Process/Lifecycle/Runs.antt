-- ===== src/Process/Lifecycle/Runs.antt =====
-- Any sequence of calls of kernel/src/process/lifecycle.rs.
use rustic_os.Base.{ℕ, refl, not, List, [], ◌∷◌}
use rustic_os.Process.Lifecycle.{
  Table, Exit, ready, dormant, blocked, exited, new, create, hold, start, suspend, finish, block,
  wake, schedule, reap, is_running, is_ready, is_dormant, is_blocked, is_exited, not_running,
  not_blocked, already_exited,
}
use rustic_os.Process.Lifecycle.Invariant.{
  IsValid, new-IsValid, create-IsValid, change-IsValid, reap-IsValid,
}
use rustic_os.Process.Lifecycle.Schedule.{schedule-IsValid}

-- The calls of the kernel's runtime.
pub data Call : Type 0 where
  create_call schedule_call : Call
  hold_call start_call suspend_call block_call wake_call reap_call : ℕ → Call
  finish_call : ℕ → Exit → Call

unfoldable pub perform : Table → Call → Table
perform t create_call = (create t).0
perform t schedule_call = (schedule t).0
perform t (hold_call pid) = (hold t pid).0
perform t (start_call pid) = (start t pid).0
perform t (suspend_call pid) = (suspend t pid).0
perform t (block_call pid) = (block t pid).0
perform t (wake_call pid) = (wake t pid).0
perform t (reap_call pid) = (reap t pid).0
perform t (finish_call pid exit) = (finish t pid exit).0

unfoldable pub run : Table → List Call → Table
run t [] = t
run t (c ∷ cs) = run (perform t c) cs

perform-IsValid : (t : Table) (c : Call) → IsValid t → IsValid (perform t c)
unfolding perform hold start suspend finish block wake
perform-IsValid t create_call v = create-IsValid t v
perform-IsValid t schedule_call v = schedule-IsValid t v
perform-IsValid t (hold_call pid) v = change-IsValid is_ready dormant not_running t pid refl v
perform-IsValid t (start_call pid) v = change-IsValid is_dormant ready not_running t pid refl v
perform-IsValid t (suspend_call pid) v = change-IsValid is_running ready not_running t pid refl v
perform-IsValid t (block_call pid) v = change-IsValid is_running blocked not_running t pid refl v
perform-IsValid t (wake_call pid) v = change-IsValid is_blocked ready not_blocked t pid refl v
perform-IsValid t (reap_call pid) v = reap-IsValid t pid v
perform-IsValid t (finish_call pid exit) v =
    change-IsValid (λ s. not (is_exited s)) (exited exit) already_exited t pid refl v

run_from-IsValid : (t : Table) (cs : List Call) → IsValid t → IsValid (run t cs)
unfolding run
run_from-IsValid t [] v = v
run_from-IsValid t (c ∷ cs) v = run_from-IsValid (perform t c) cs (perform-IsValid t c v)

-- After any calls at all the table that began empty has distinct pids below its counter, its cursor
-- in range, and at most one running process.
pub run-IsValid : (cs : List Call) → IsValid (run new cs)
run-IsValid cs = run_from-IsValid new cs new-IsValid
