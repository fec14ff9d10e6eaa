-- ===== src/Time/Deadline.antt =====
-- kernel/src/time/deadline.rs: a deadline is its tick.
use rustic_os.Base.{
  ℕ, ◌*◌, ◌/◌, Bool, ◌||◌, ◌==◌, leb, min, Option, none, some, Result, if◌then◌else◌, ok_or,
}
use rustic_os.Base.Words.{u64_max, checked_add}

pub data Overflow : Type 0 where
  overflow : Overflow

unfoldable pub after : ℕ → ℕ → Result Overflow ℕ
after now ticks = ok_or (checked_add now ticks) overflow

abbrev pub reached : ℕ → ℕ → Bool
reached deadline now = leb deadline now

unfoldable pub ticks_to_nanos : ℕ → ℕ → ℕ → Option ℕ
ticks_to_nanos ticks divisor input_hz =
    if (input_hz == 0) || (divisor == 0)
    then none
    else some (min (ticks * divisor * 1000000000 / input_hz) u64_max)
