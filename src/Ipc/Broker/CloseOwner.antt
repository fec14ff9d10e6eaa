-- ===== src/Ipc/Broker/CloseOwner.antt =====
-- `close_owner` of kernel/src/ipc/broker.rs, the sweep when a process ends.
use rustic_os.Base.{
  ℕ, zero, suc, ◌+◌, ◌<◌, ◌≡◌, inl, inr, false, none, some, Option-cases, arith, ok, err,
}
use rustic_os.Base.Slots.{
  at_lt, find_slot, find_slot-at, find_slot-none, find_slot_absent, count, count-set,
}
use rustic_os.Handles
use rustic_os.Handles.{Entry, names, owned_by, Table}
use rustic_os.Handles.Cases.{remove_cases}
use rustic_os.Handles.Resolve.{resolve_of_absent}
use rustic_os.Ipc.Broker.{Endpoint, Broker, close, close_owner_loop, close_owner, handles_per_owner}
use rustic_os.Ipc.Broker.Invariant.{IsValid}
use rustic_os.Ipc.Broker.Safety.{close_found}

-- Closing the first handle of an owner succeeds and leaves the owner one handle fewer.
close_first :
    (b : Broker) (owner handle : ℕ)
    → IsValid b
    → Handles.first b.handles owner ≡ some handle
    → (b' : Broker) × (close b owner handle ≡ some (b', ok tt))
      × IsValid b'
      × (count (owned_by owner) b'.handles.entries + 1 ≡ count (owned_by owner) b.handles.entries)
unfolding Handles.first
close_first b owner handle v h =
    elim (Option-cases (find_slot (owned_by owner) b.handles.entries)) [
      | inl missing ↦ absurd (ground arith)
      | inr ((j, f), first) ↦ elim (remove_cases b.handles owner handle) [
        | inl (absent, _) ↦
            let (there, owned) = find_slot-at (owned_by owner) b.handles.entries j f first in
            absurd (
              ground (
                arith,
                find_slot-none (names owner handle) b.handles.entries j {a = f} absent there,
              ))
        | inr (i, e, found, there, removed) ↦
            let (b', done, v', entries) = close_found b owner handle i e v there removed in
            let (_, named) = find_slot-at (names owner handle) b.handles.entries i e found in
            (
              b',
              done,
              v',
              ground (
                arith,
                entries,
                count-set (owned_by owner) b.handles.entries i none
                    (at_lt b.handles.entries i there),
              ),
            )
      ]
    ]

-- An owner with no first handle has none.
absent_of_first :
    (t : Table Endpoint) (owner id : ℕ)
    → Handles.first t owner ≡ none
    → find_slot (names owner id) t.entries ≡ none
unfolding Handles.first
absent_of_first t owner id h = elim (Option-cases (find_slot (owned_by owner) t.entries)) [
  | inl missing ↦
      find_slot_absent (names owner id) t.entries
        (λ i a there. not_named a id (find_slot-none (owned_by owner) t.entries i missing there))
  | inr ((j, f), found) ↦ absurd (ground arith)
]
  where
    not_named : (a : Entry Endpoint) (id : ℕ) → owned_by owner a ≡ false → names owner id a ≡ false
    not_named a id e = ground arith

-- The loop ends within its fuel when that exceeds the owner's handles.
close_loop :
    (fuel : ℕ) (b : Broker) (owner : ℕ)
    → IsValid b
    → count (owned_by owner) b.handles.entries < fuel
    → (b' : Broker) × (close_owner_loop fuel b owner ≡ some b')
      × IsValid b'
      × (Handles.first b'.handles owner ≡ none)
unfolding close_owner_loop
close_loop zero b owner v h = absurd (omega arith)
close_loop (suc fuel) b owner v h = elim (Option-cases (Handles.first b.handles owner)) [
  | inl none_left ↦ (b, rw (none_left, close_owner_loop), v, none_left)
  | inr (handle, first) ↦
      let (b1, done, v1, fewer) = close_first b owner handle v first in
      let (b', rest, v', none_left) = close_loop fuel b1 owner v1 (omega arith) in
      (b', rw (first, close_owner_loop) (rw done rest), v', none_left)
]

-- On a valid broker `close_owner` always ends without a failed assertion, keeps the invariant, and afterwards the owner
-- holds no handle at all.
pub close_owner_total :
    (b : Broker) (owner : ℕ)
    → IsValid b
    → (b' : Broker) × (close_owner b owner ≡ some b')
      × IsValid b'
      × ((id right : ℕ) → Handles.resolve b'.handles owner id right ≡ err Handles.Error.handle)
unfolding close_owner
close_owner_total b owner v =
    let (b', done, v', none_left) =
      close_loop (suc handles_per_owner) b owner v (omega (arith, v.handles_valid.quota owner)) in
    (
      b',
      done,
      v',
      λ id right.
          resolve_of_absent b'.handles owner id right
            (absent_of_first b'.handles owner id none_left),
    )
