-- ===== src/Sdk/Rpc.antt =====
-- crates/sdk/src/rpc/state.rs: the one exchange that an endpoint has in flight.
pub mod Exchanges
mod Tests
use rustic_os.Base.{
  ℕ, ◌+◌, ◌-◌, Bool, true, false, not, ◌||◌, ◌&&◌, ◌==◌, Option, none, some, if◌then◌else◌,
}
use rustic_os.Base.Words.{checked_add}

pub record State : Type 0 where
  pub next : ℕ
  pub active : Option ℕ
  pub failed : Bool

unfoldable pub default : State
default = record { next = 0; active = none; failed = false }

abbrev pub is_some : Option ℕ → Bool
is_some none = false
is_some (some n) = true

-- `o == Some(n)`
abbrev pub holds : Option ℕ → ℕ → Bool
holds none n = false
holds (some m) n = m == n

unfoldable pub ticket : State → Option ℕ
ticket s = if s.failed || is_some s.active then none else checked_add s.next 1

unfoldable pub sent : State → ℕ → State × Bool
unfolding ticket
sent s n =
    if not (holds (ticket s) n) then (s, false) else (record s { next = n; active = some n }, true)

unfoldable pub fail : State → State
fail s = record s { failed = true; active = none }

unfoldable pub accept : State → ℕ → State × Bool
unfolding fail
accept s n =
    if s.failed || not (holds s.active n)
    then (fail s, false)
    else (record s { active = none }, true)

unfoldable pub pending : State → Bool
pending s = is_some s.active && not s.failed
