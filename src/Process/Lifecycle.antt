-- ===== src/Process/Lifecycle.antt =====
-- kernel/src/process/lifecycle.rs: the table of processes and its round-robin scheduler. A `Pid` is its
-- number. A method on `&mut self` returns the table that it leaves behind with its result.
pub mod Invariant
pub mod Schedule
pub mod Runs
mod Tests
use rustic_os.Base.{
  ℕ, zero, suc, ◌+◌, ◌-◌, ◌%◌, Bool, true, false, not, ◌<◌, ltb, Option, none, some, List,
  replicate, set, ◌==◌, if◌then◌else◌, Result, ok, err, get_elem?,
}
use mathlib.Core.Option
use rustic_os.Base.Slots.{at, first_free, find_slot, count}
use rustic_os.Base.Words.{checked_add}

abbrev pub capacity : ℕ
capacity = 16

pub data Exit : Type 0 where
  code : ℕ → Exit
  fault : ℕ → ℕ → ℕ → Exit
  killed : Exit

pub data State : Type 0 where
  dormant ready running blocked : State
  exited : Exit → State

pub data Error : Type 0 where
  full unknown already_running not_exited already_exited not_running not_blocked exhausted : Error

pub record Process : Type 0 where
  pub pid : ℕ
  pub state : State

pub record Table : Type 0 where
  pub slots : List (Option Process)
  pub next : ℕ
  pub cursor : ℕ

unfoldable pub new : Table
new = record { slots = replicate capacity none; next = 1; cursor = capacity - 1 }

-- Comparisons of a state with one that carries no data.
abbrev pub is_ready : State → Bool
is_ready ready = true
is_ready _ = false

abbrev pub is_running : State → Bool
is_running running = true
is_running _ = false

abbrev pub is_dormant : State → Bool
is_dormant dormant = true
is_dormant _ = false

abbrev pub is_blocked : State → Bool
is_blocked blocked = true
is_blocked _ = false

abbrev pub is_exited : State → Bool
is_exited (exited _) = true
is_exited _ = false

unfoldable pub create : Table → Table × Result Error (ℕ × ℕ)
create t = elim (first_free t.slots) [
  | none ↦ (t, err full)
  | some slot ↦ elim (checked_add t.next 1) [
    | none ↦ (t, err exhausted)
    | some next ↦ (
      record t {
        next = next;
        slots = set t.slots slot (some (record { pid = t.next; state = ready }));
      },
      ok (slot, t.next),
    )
  ]
]

abbrev pub has_pid : ℕ → Process → Bool
has_pid pid p = p.pid == pid

-- `slot`, with the record that stands there, which the callers unwrap.
unfoldable pub slot : Table → ℕ → Result Error (ℕ × Process)
slot t pid = elim (find_slot (has_pid pid) t.slots) [ none ↦ err unknown | some (i, p) ↦ ok (i, p) ]

-- The methods that move one process to another state: which states they accept, the state that they
-- leave, and the error otherwise.
unfoldable pub change : (State → Bool) → State → Error → Table → ℕ → Table × Result Error (Unit {0})
unfolding slot
change accepts next refusal t pid = elim (slot t pid) [
  | err e ↦ (t, err e)
  | ok (i, p) ↦
      if not (accepts p.state)
      then (t, err refusal)
      else (record t { slots = set t.slots i (some (record p { state = next })) }, ok tt)
]

unfoldable pub hold : Table → ℕ → Table × Result Error (Unit {0})
unfolding change
hold = change is_ready dormant not_running

unfoldable pub start : Table → ℕ → Table × Result Error (Unit {0})
unfolding change
start = change is_dormant ready not_running

unfoldable pub suspend : Table → ℕ → Table × Result Error (Unit {0})
unfolding change
suspend = change is_running ready not_running

unfoldable pub finish : Table → ℕ → Exit → Table × Result Error (Unit {0})
unfolding change
finish t pid exit = change (λ s. not (is_exited s)) (exited exit) already_exited t pid

unfoldable pub block : Table → ℕ → Table × Result Error (Unit {0})
unfolding change
block = change is_running blocked not_running

unfoldable pub wake : Table → ℕ → Table × Result Error (Unit {0})
unfolding change
wake = change is_blocked ready not_blocked

unfoldable pub state_of : Table → ℕ → Result Error State
unfolding slot
state_of t pid = elim (slot t pid) [ err e ↦ err e | ok (i, p) ↦ ok p.state ]

-- The first ready process at `distance`, `distance + 1`, … slots after the cursor; `left` are to be
-- tried.
unfoldable pub probe : Table → ℕ → ℕ → Option (ℕ × Process)
probe t distance zero = none
probe t distance (suc left) =
    let rest = probe t (distance + 1) left in
    elim (at t.slots ((t.cursor + distance) % capacity)) [
      | none ↦ rest
      | some p ↦ if is_ready p.state then some ((t.cursor + distance) % capacity, p) else rest
    ]

unfoldable pub schedule : Table → Table × Result Error (Option (ℕ × ℕ))
schedule t =
    if ltb 0 (count (λ p. is_running p.state) t.slots)
    then (t, err already_running)
    else elim (probe t 1 capacity) [
      | none ↦ (t, ok none)
      | some (i, p) ↦ (
        record t { slots = set t.slots i (some (record p { state = running })); cursor = i },
        ok (some (i, p.pid)),
      )
    ]

unfoldable pub pid_at : Table → ℕ → Option ℕ
pid_at t i = elim (at t.slots i) [ none ↦ none | some p ↦ some p.pid ]

unfoldable pub reap : Table → ℕ → Table × Result Error Exit
unfolding slot
reap t pid = elim (slot t pid) [
  | err e ↦ (t, err e)
  | ok (i, p) ↦ elim p.state [
    | exited exit ↦ (record t { slots = set t.slots i none }, ok exit)
    | _ ↦ (t, err not_exited)
  ]
]
