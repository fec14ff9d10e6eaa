-- ===== src/Process/Lifecycle/Invariant.antt =====
-- The invariant of the process table of kernel/src/process/lifecycle.rs: distinct pids below the counter, and at most one running process.
use rustic_os.Base.{
  ℕ, ◌+◌, ◌^◌, ◌<◌, ◌≡◌, refl, sym, ◌∙◌, inl, inr, Bool, true, false, none, some, set, length,
  length-set, ltb, Bool-cases, Option-cases, arith, Result, ok, err,
}
use rustic_os.Base.Slots.{
  at, at-set_cases, at_lt, at-replicate, at-cleared, first_free, first_free-at, find_slot,
  find_slot-at,
}
use rustic_os.Process.Lifecycle.{
  Table, Process, State, Error, Exit, ready, exited, new, create, capacity, is_running, change,
  slot, has_pid, reap,
}

pub record IsValid (t : Table) : Type 0 where
  pub size : length t.slots ≡ capacity
  pub cursor_in : t.cursor < capacity
  pub issued : (i : ℕ) (p : Process) → at t.slots i ≡ some p → p.pid < t.next
  pub distinct :
      (i j : ℕ) (p q : Process)
      → at t.slots i ≡ some p
      → at t.slots j ≡ some q
      → p.pid ≡ q.pid
      → i ≡ j
  pub one_running :
      (i j : ℕ) (p q : Process)
      → at t.slots i ≡ some p
      → at t.slots j ≡ some q
      → is_running p.state ≡ true
      → is_running q.state ≡ true
      → i ≡ j

-- A new table is valid.
pub new-IsValid : IsValid new
unfolding new
new-IsValid = record {
  size = refl;
  cursor_in = omega arith;
  issued = λ i p h. absurd (empty i p h);
  distinct = λ i j p q h. absurd (empty i p h);
  one_running = λ i j p q h. absurd (empty i p h);
}
  where
    empty : (i : ℕ) (p : Process) → at new.slots i ≡ some p → ⊥
    empty i p h = ground (arith, at-replicate {A = Process} capacity i)

-- Writing to slot `i` a process with the pid that stood there and a state that does not run, or that
-- alone runs.
pub record Replaced (t : Table) (i : ℕ) (old p : Process) : Type 0 where
  pub there : at t.slots i ≡ some old
  pub same_pid : p.pid ≡ old.pid
  pub alone :
      is_running p.state ≡ true
      → (j : ℕ) (q : Process) → at t.slots j ≡ some q
      → is_running q.state ≡ true
      → i ≡ j

pub replaced-IsValid :
    (t : Table) (i : ℕ) (old p : Process) (cursor : ℕ)
    → IsValid t
    → Replaced t i old p
    → cursor < capacity
    → IsValid (record t { slots = set t.slots i (some p); cursor = cursor })
replaced-IsValid t i old p cursor v r hc = record {
  size = length-set t.slots i (some p) ∙ v.size;
  cursor_in = hc;
  issued = λ j q h. elim (at-set_cases t.slots i j (some p) (at_lt t.slots i r.there) h) [
    | inl (_, e) ↦ ground (arith, v.issued i old r.there, r.same_pid)
    | inr (_, kept) ↦ v.issued j q kept
  ];
  distinct = λ j k q s hq hs same.
      elim (at-set_cases t.slots i j (some p) (at_lt t.slots i r.there) hq) [
        | inl (ij, e) ↦ elim (at-set_cases t.slots i k (some p) (at_lt t.slots i r.there) hs) [
          | inl (ik, _) ↦ sym ij ∙ ik
          | inr (_, kept) ↦ sym ij ∙ v.distinct i k old s r.there kept (ground (arith, r.same_pid))
        ]
        | inr (_, was) ↦ elim (at-set_cases t.slots i k (some p) (at_lt t.slots i r.there) hs) [
          | inl (ik, e) ↦ v.distinct j i q old was r.there (ground (arith, r.same_pid)) ∙ ik
          | inr (_, kept) ↦ v.distinct j k q s was kept same
        ]
      ];
  one_running = λ j k q s hq hs rq rs.
      elim (at-set_cases t.slots i j (some p) (at_lt t.slots i r.there) hq) [
        | inl (ij, e) ↦ elim (at-set_cases t.slots i k (some p) (at_lt t.slots i r.there) hs) [
          | inl (ik, _) ↦ sym ij ∙ ik
          | inr (_, kept) ↦ sym ij ∙ r.alone (ground arith) k s kept rs
        ]
        | inr (_, was) ↦ elim (at-set_cases t.slots i k (some p) (at_lt t.slots i r.there) hs) [
          | inl (ik, e) ↦ sym (r.alone (ground arith) j q was rq) ∙ ik
          | inr (_, kept) ↦ v.one_running j k q s was kept rq rs
        ]
      ];
}

pub create-IsValid : (t : Table) → IsValid t → IsValid (create t).0
unfolding create
create-IsValid t v = elim (Option-cases (first_free t.slots)) [
  | inl taken ↦ rw (taken, create) v
  | inr (i, free) ↦ elim (Bool-cases (ltb (t.next + 1) (2 ^ 64))) [
    | inr spent ↦ rw (free, create) (rw spent v)
    | inl left ↦ rw (free, create) (rw left (created i (first_free-at t.slots i free)))
  ]
]
  where
    created :
        (i : ℕ)
        → (i < length t.slots) × (at t.slots i ≡ none)
        → IsValid (record t {
          next = t.next + 1;
          slots = set t.slots i (some (record { pid = t.next; state = ready }));
        })
    created i (room, free) = record {
      size = length-set t.slots i (some (record { pid = t.next; state = ready })) ∙ v.size;
      cursor_in = v.cursor_in;
      issued = λ j q h.
          elim (at-set_cases t.slots i j (some (record { pid = t.next; state = ready })) room h) [
            | inl (_, e) ↦ ground arith
            | inr (_, kept) ↦ ground (arith, v.issued j q kept)
          ];
      distinct = λ j k q s hq hs same.
          elim (at-set_cases t.slots i j (some (record { pid = t.next; state = ready })) room hq) [
            | inl (ij, e) ↦
                elim (at-set_cases t.slots i k (some (record { pid = t.next; state = ready })) room
                  hs) [
                    | inl (ik, _) ↦ sym ij ∙ ik
                    | inr (_, kept) ↦ absurd (ground (arith, v.issued k s kept))
                  ]
            | inr (_, was) ↦
                elim (at-set_cases t.slots i k (some (record { pid = t.next; state = ready })) room
                  hs) [
                    | inl (_, e) ↦ absurd (ground (arith, v.issued j q was))
                    | inr (_, kept) ↦ v.distinct j k q s was kept same
                  ]
          ];
      one_running = λ j k q s hq hs rq rs.
          elim (at-set_cases t.slots i j (some (record { pid = t.next; state = ready })) room hq) [
            | inl (_, e) ↦ absurd (ground arith)
            | inr (_, was) ↦
                elim (at-set_cases t.slots i k (some (record { pid = t.next; state = ready })) room
                  hs) [
                    | inl (_, e) ↦ absurd (ground arith)
                    | inr (_, kept) ↦ v.one_running j k q s was kept rq rs
                  ]
          ];
    }

-- A method that leaves a process in a state that does not run keeps the invariant.
pub change-IsValid :
    (accepts : State → Bool) (next : State) (refusal : Error) (t : Table) (pid : ℕ)
    → is_running next ≡ false
    → IsValid t
    → IsValid (change accepts next refusal t pid).0
unfolding change
change-IsValid accepts next refusal t pid still v =
    elim (Option-cases (find_slot (has_pid pid) t.slots)) [
      | inl missing ↦ rw (missing, change, slot) v
      | inr ((i, p), found) ↦ elim (Bool-cases (accepts p.state)) [
        | inr no_way ↦ rw (found, change, slot) (rw no_way v)
        | inl fits ↦
            rw (found, change, slot)
              (rw fits (
                replaced-IsValid t i p (record p { state = next }) t.cursor v
                  (record {
                    there = (find_slot-at (has_pid pid) t.slots i p found).0;
                    same_pid = refl;
                    alone = λ r. absurd (cc);
                  })
                  v.cursor_in))
      ]
    ]

pub reap-IsValid : (t : Table) (pid : ℕ) → IsValid t → IsValid (reap t pid).0
unfolding reap
reap-IsValid t pid v = elim (Option-cases (find_slot (has_pid pid) t.slots)) [
  | inl missing ↦ rw (missing, reap, slot) v
  | inr ((i, p), found) ↦
      rw (found, reap, slot) (reaped i p (find_slot-at (has_pid pid) t.slots i p found).0 p.state)
]
  where
    cleared :
        (i : ℕ) (p : Process)
        → at t.slots i ≡ some p
        → IsValid (record t { slots = set t.slots i none })
    cleared i p there =
        let l = at_lt t.slots i there in
        record {
          size = length-set t.slots i none ∙ v.size;
          cursor_in = v.cursor_in;
          issued = λ j q h. v.issued j q (at-cleared t.slots i j q l h);
          distinct = λ j k q s hq hs.
              v.distinct j k q s (at-cleared t.slots i j q l hq) (at-cleared t.slots i k s l hs);
          one_running = λ j k q s hq hs.
              v.one_running j k q s (at-cleared t.slots i j q l hq) (at-cleared t.slots i k s l hs);
        }

    reaped :
        (i : ℕ) (p : Process)
        → at t.slots i ≡ some p
        → (s : State)
        → IsValid
            (elim s as (λ _. Table × Result Error Exit) [
              | exited exit ↦ (record t { slots = set t.slots i none }, ok exit)
              | _ ↦ (t, err Error.not_exited)
            ]).0
    reaped i p there (exited e) = cleared i p there
    reaped i p there _ = v
