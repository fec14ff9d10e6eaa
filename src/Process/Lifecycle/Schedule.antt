-- ===== src/Process/Lifecycle/Schedule.antt =====
-- The round robin of kernel/src/process/lifecycle.rs, `schedule`.
use rustic_os.Base.{
  ℕ, zero, suc, ◌+◌, ◌-◌, ◌%◌, ◌≤◌, ◌<◌, ◌≡◌, refl, sym, ap, ◌∙◌, ◌⊎◌, inl, inr, true, false, none,
  some, set, if◌then◌else◌, ltb, Bool-cases, Option-cases, arith, ok,
}
use mathlib.Core.Path.{subst}
use mathlib.Core.Bool.{false≢true}
use native.Mathlib.Decide.{ℕ_discrete, dec_lt}
use rustic_os.Base.Slots.{at, at_lt, count, count_zero}
use rustic_os.Process.Lifecycle.{
  Table, Process, running, capacity, is_running, is_ready, schedule, probe,
}
use rustic_os.Process.Lifecycle.Invariant.{IsValid, replaced-IsValid}

-- The slot at this distance after the cursor.
abbrev pub around : Table → ℕ → ℕ
around t m = (t.cursor + m) % capacity

-- No process that is ready stands at this distance.
abbrev pub Quiet : Table → ℕ → Type 0
Quiet t m = (q : Process) → at t.slots (around t m) ≡ some q → is_ready q.state ≡ false

-- What a probe from `distance` on that finds slot `i` has seen.
record Found (t : Table) (distance left i : ℕ) (p : Process) : Type 0 where
  steps : ℕ
  from : distance ≤ steps
  to : steps < distance + left
  place : i ≡ around t steps
  there : at t.slots i ≡ some p
  is : is_ready p.state ≡ true
  before : (m : ℕ) → distance ≤ m → m < steps → Quiet t m

Quiet-of_none : (t : Table) (m : ℕ) → at t.slots (around t m) ≡ none → Quiet t m
Quiet-of_none t m h q e = cc

Quiet-of_some :
    (t : Table) (m : ℕ) (p : Process)
    → at t.slots (around t m) ≡ some p
    → is_ready p.state ≡ false
    → Quiet t m
Quiet-of_some t m p h r q e = ground arith

-- Being quiet at `distance` extends what the rest of the probe has seen.
Found-later :
    (t : Table) (distance left i : ℕ) (p : Process)
    → Quiet t distance
    → Found t (distance + 1) left i p
    → Found t distance (suc left) i p
Found-later t distance left i p quiet f = record {
  steps = f.steps;
  from = omega (arith, f.from);
  to = omega (arith, f.to);
  place = f.place;
  there = f.there;
  is = f.is;
  before = λ m l h. elim (ℕ_discrete distance m) [
    | yes e ↦ subst (Quiet t) e quiet
    | no ne ↦ f.before m (omega arith) h
  ];
}

probe-Found :
    (t : Table) (distance left i : ℕ) (p : Process)
    → probe t distance left ≡ some (i, p)
    → Found t distance left i p
unfolding probe
probe-Found t distance zero i p h = cc
probe-Found t distance (suc left) i p h = elim (Option-cases (at t.slots (around t distance))) [
  | inl free ↦
      Found-later t distance left i p (Quiet-of_none t distance free)
        (probe-Found t (distance + 1) left i p (rw (free, probe) at h))
  | inr (q, there) ↦ elim (Bool-cases (is_ready q.state)) [
    | inl r ↦ record {
      steps = distance;
      from = omega arith;
      to = omega arith;
      place = ground arith;
      there = ground arith;
      is = ground arith;
      before = λ m l u. absurd (omega arith);
    }
    | inr n ↦
        Found-later t distance left i p (Quiet-of_some t distance q there n)
          (probe-Found t (distance + 1) left i p (ground arith))
  ]
]

probe-none :
    (t : Table) (distance left m : ℕ)
    → probe t distance left ≡ none
    → distance ≤ m
    → m < distance + left
    → Quiet t m
unfolding probe
probe-none t distance zero m h l u = absurd (omega arith)
probe-none t distance (suc left) m h l u = elim (ℕ_discrete distance m) [
  | no ne ↦ probe-none t (distance + 1) left m rest (omega arith) (omega arith)
  | yes same ↦ subst (Quiet t) same (λ q there. elim (Bool-cases (is_ready q.state)) [
    | inl r ↦ absurd (ground arith)
    | inr n ↦ n
  ])
]
  where
    rest : probe t (distance + 1) left ≡ none
    rest = elim (Option-cases (at t.slots (around t distance))) [
      | inl free ↦ ground arith
      | inr (q, there) ↦ ground arith
    ]

-- How far after the cursor `c` a slot stands: from 1 to the capacity.
abbrev pub distance_from : ℕ → ℕ → ℕ
distance_from c k = if ltb c k then k - c else k + capacity - c

pub reach :
    (t : Table) (k : ℕ)
    → t.cursor < capacity
    → k < capacity
    → k ≡ around t (distance_from t.cursor k)
reach t k hc hk = ground arith

-- The process that `schedule` runs is the first one ready after the cursor: it was ready, no process
-- before it in the round was, and the cursor moves to it.
pub record Picked (t : Table) (i pid : ℕ) : Type 0 where
  pub steps : ℕ
  pub steps_pos : 1 ≤ steps
  pub steps_max : steps ≤ capacity
  pub place : i ≡ around t steps
  pub process : Process
  pub there : at t.slots i ≡ some process
  pub named : process.pid ≡ pid
  pub was_ready : is_ready process.state ≡ true
  pub before : (m : ℕ) → 1 ≤ m → m < steps → Quiet t m
  pub result : schedule t ≡ (
    record t { slots = set t.slots i (some (record process { state = running })); cursor = i },
    ok (some (i, pid)),
  )

-- Whom `schedule` runs is `Picked`: the first process ready after the cursor, which moves to it, the
-- rest of the table staying as it was.
pub schedule-Picked : (t : Table) (i pid : ℕ) → (schedule t).1 ≡ ok (some (i, pid)) → Picked t i pid
unfolding schedule
schedule-Picked t i pid h = elim (Bool-cases (ltb 0 (count (λ p. is_running p.state) t.slots))) [
  | inl busy ↦ absurd (ground arith)
  | inr idle ↦ elim (Option-cases (probe t 1 capacity)) [
    | inl none_ready ↦ absurd (ground arith)
    | inr ((j, p), found) ↦
        let f = probe-Found t 1 capacity j p found in
        let ji : j ≡ i = ground arith in
        record {
          steps = f.steps;
          steps_pos = f.from;
          steps_max = omega (arith, f.to);
          place = sym ji ∙ f.place;
          process = p;
          there = subst (λ n. at t.slots n ≡ some p) ji f.there;
          named = ground arith;
          was_ready = f.is;
          before = f.before;
          result = ground arith;
        }
  ]
]

-- On a valid table `schedule` finds nobody only when no process is ready.
pub schedule-none :
    (t : Table) (k : ℕ) (q : Process)
    → IsValid t
    → (schedule t).1 ≡ ok none
    → at t.slots k ≡ some q
    → is_ready q.state ≡ false
unfolding schedule
schedule-none t k q v h there =
    probe-none t 1 capacity (distance_from t.cursor k) idle (ground (arith, room))
      (ground (arith, room)) q
      (subst (λ n. at t.slots n ≡ some q) (reach t k v.cursor_in room) there)
  where
    room : k < capacity
    room = omega (arith, at_lt t.slots k there, v.size)

    idle : probe t 1 capacity ≡ none
    idle = elim (Option-cases (probe t 1 capacity)) [
      | inl none_ready ↦ none_ready
      | inr ((j, p), found) ↦ absurd (ground arith)
    ]

nearer :
    (c k i e : ℕ)
    → c < capacity
    → k < capacity
    → 1 ≤ e
    → e ≤ distance_from c k
    → i ≡ (c + e) % capacity
    → (i ≡ k) ⊎ (distance_from i k < distance_from c k)
nearer c k i e hc hk he hd hi = ground arith

-- On a valid table, while a ready process waits in slot `k`, each turn that `schedule` gives to
-- another brings the cursor nearer to `k`.
pub schedule_progress :
    (t : Table) (k i pid : ℕ) (q : Process)
    → IsValid t
    → at t.slots k ≡ some q
    → is_ready q.state ≡ true
    → (schedule t).1 ≡ ok (some (i, pid))
    → (i ≡ k) ⊎ (distance_from (schedule t).0.cursor k < distance_from t.cursor k)
schedule_progress t k i pid q v there r h =
    let p = schedule-Picked t i pid h in
    let room : k < capacity = omega (arith, at_lt t.slots k there, v.size) in
    let moved : (schedule t).0.cursor ≡ i = ap (λ s. s.0.cursor) p.result in
    let back = reach t k v.cursor_in room in
    elim (dec_lt (distance_from t.cursor k) p.steps) [
      | yes sooner ↦ absurd (
          false≢true (
            sym (
              p.before (distance_from t.cursor k) (ground (arith, room)) sooner q
                (subst (λ n. at t.slots n ≡ some q) back there))
            ∙ r))
      | no later ↦
          rw moved (nearer t.cursor k i p.steps v.cursor_in room p.steps_pos (omega arith) p.place)
    ]

-- `schedule` keeps the invariant: it starts a process only when none runs.
pub schedule-IsValid : (t : Table) → IsValid t → IsValid (schedule t).0
unfolding schedule
schedule-IsValid t v = elim (Bool-cases (ltb 0 (count (λ p. is_running p.state) t.slots))) [
  | inl busy ↦ rw (busy, schedule) v
  | inr idle ↦ elim (Option-cases (probe t 1 capacity)) [
    | inl none_ready ↦ rw (idle, schedule) (rw none_ready v)
    | inr ((i, p), found) ↦
        let f = probe-Found t 1 capacity i p found in
        rw (idle, schedule)
          (rw found (
            replaced-IsValid t i p (record p { state = running }) i v
              (record {
                there = f.there;
                same_pid = refl;
                alone = λ _ j q hq hr. absurd (
                    false≢true (
                      sym (count_zero (λ p. is_running p.state) t.slots j (ground arith) hq) ∙ hr));
              })
              (omega (arith, at_lt t.slots i f.there, v.size))))
  ]
]
