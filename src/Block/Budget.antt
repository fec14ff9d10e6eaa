-- ===== src/Block/Budget.antt =====
-- kernel/src/block/deadline.rs: how long the driver polls for a completion. A clock that moves
-- bounds the wait by ticks; one that stands still, by the number of polls.
use rustic_os.Base.{ℕ, zero, suc, ◌-◌, ◌≤◌, ◌≡◌, refl, arith, Bool, ◌||◌, leb, ◌==◌, if◌then◌else◌}
use rustic_os.Base.Words.{saturating_add}

abbrev pub request_ticks : ℕ
request_ticks = 500

abbrev pub stalled_limit : ℕ
stalled_limit = 5000000

pub record RequestBudget : Type 0 where
  pub started : ℕ
  pub observed_tick : ℕ
  pub polls : ℕ
  pub stalled_polls : ℕ

unfoldable pub new : ℕ → RequestBudget
new now = record { started = now; observed_tick = now; polls = 0; stalled_polls = 0 }

-- The state after one poll, and whether the budget is spent.
unfoldable pub expired_pending : RequestBudget → ℕ → RequestBudget × Bool
expired_pending b now =
    let stalled = if now == b.observed_tick then saturating_add b.stalled_polls 1 else 0 in
    (
      record {
        started = b.started;
        observed_tick = now;
        polls = saturating_add b.polls 1;
        stalled_polls = stalled;
      },
      leb request_ticks (now - b.started) || leb stalled_limit stalled,
    )

-- Polls at one tick until the budget is spent, on fuel: the number of polls that were still pending.
unfoldable pub pending_at : ℕ → RequestBudget → ℕ → ℕ
unfolding expired_pending
pending_at zero b now = zero
pending_at (suc fuel) b now =
    let (b', spent) = expired_pending b now in
    let rest = pending_at fuel b' now in if spent then zero else suc rest

stalled_bound :
    (fuel : ℕ) (b : RequestBudget) (now : ℕ)
    → b.observed_tick ≡ now
    → pending_at fuel b now ≤ stalled_limit - 1 - b.stalled_polls
unfolding pending_at expired_pending
stalled_bound zero b now h = omega arith
stalled_bound (suc fuel) b now h =
    ground (arith, stalled_bound fuel (expired_pending b now).0 now refl)

-- However much fuel a run of polls at one tick has, at most STALLED_POLLS of them find the request
-- still pending, whatever the budget was before.
pub stalled-expires :
    (fuel : ℕ) (b : RequestBudget) (now : ℕ) → pending_at fuel b now ≤ stalled_limit
unfolding pending_at expired_pending
stalled-expires zero b now = omega arith
stalled-expires (suc fuel) b now =
    ground (arith, stalled_bound fuel (expired_pending b now).0 now refl)
