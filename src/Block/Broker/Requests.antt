-- ===== src/Block/Broker/Requests.antt =====
-- kernel/src/block/access/queue.rs: the operations on the queue and its invariant.
use mathlib.Core.Path.{subst}
use rustic_os.Base.{
  ℕ, suc, ◌+◌, ◌≡◌, refl, ap, ◌∙◌, ◌⊎◌, inl, inr, true, false, ◌&&◌, Option, none, some, List, [],
  ◌∷◌, replicate, ◌==◌, ltb, leb, Bool-cases, Option-cases, Result-cases, arith, ok,
}
use rustic_os.Base.Slots.{at, first_free, find_slot, find_slot-at, count}
use rustic_os.Base.Words.{checked_add, keep_if}
use rustic_os.Handles
use rustic_os.Handles.{Table}
use rustic_os.Block.Abi.{Operation, Status, max_id, cancelled, sector_size, success, no_effect}
use rustic_os.Block.Broker.{
  Broker, grant, validate, Request, Grant, Geometry, queued, active, complete, is_active, is_queued,
  check, admit, oldest, earlier, start, finish, effect_of, bytes_of, slot, peek, consume, cancel,
  close, made_by,
}
use rustic_os.Block.Broker.Invariant.{
  IsValid, in_progress, owned_by, written-IsValid, replaced-Fits, dropped-Fits, added-Fits,
  dropped-IsValid,
}

-- Slot `i`, counted from `k`, holds the queued request `r`.
unfoldable pub QueuedAt : ℕ → List (Option Request) → ℕ → Request → Type 0
QueuedAt k xs i r = (j : ℕ) × (i ≡ k + j) × (at xs j ≡ some r) × (is_queued r.phase ≡ true)

earlier-cases :
    (i k : ℕ) (r s : Request) (o : Option (ℕ × Request))
    → earlier (k, s) o ≡ some (i, r)
    → ((i ≡ k) × (some s ≡ some r)) ⊎ (o ≡ some (i, r))
earlier-cases i k r s none h = inl (ground arith, ground arith)
earlier-cases i k r s (some (j, t)) h = elim (Bool-cases (leb s.result.id t.result.id)) [
  | inl e ↦ inl (ground arith, ground arith)
  | inr e ↦ inr (ground arith)
]

QueuedAt-later :
    (k i : ℕ) (x : Option Request) (xs : List (Option Request)) (r : Request)
    → QueuedAt (k + 1) xs i r
    → QueuedAt k (x ∷ xs) i r
unfolding at QueuedAt
QueuedAt-later k i x xs r (j, same, there, q) = (suc j, omega (arith, same), there, q)

pub oldest-at :
    (k : ℕ) (xs : List (Option Request)) (i : ℕ) (r : Request)
    → oldest k xs ≡ some (i, r)
    → QueuedAt k xs i r
unfolding oldest at QueuedAt
oldest-at k [] i r h = ground arith
oldest-at k (none ∷ xs) i r h = QueuedAt-later k i none xs r (oldest-at (k + 1) xs i r h)
oldest-at k (some s ∷ xs) i r h = elim (Bool-cases (is_queued s.phase)) [
  | inr e ↦ QueuedAt-later k i (some s) xs r (oldest-at (k + 1) xs i r (ground arith))
  | inl e ↦ elim (earlier-cases i k r s (oldest (k + 1) xs) (ground arith)) [
    | inl (same, here) ↦ (0, omega (arith, same), here, ground arith)
    | inr later ↦ QueuedAt-later k i (some s) xs r (oldest-at (k + 1) xs i r later)
  ]
]

-- Handing the oldest request to the device keeps the queue valid.
pub start-IsValid : (b : Broker) → IsValid b → IsValid (start b).0
unfolding start QueuedAt
start-IsValid b v = elim (Bool-cases (ltb 0 (count in_progress b.records))) [
  | inl busy ↦ rw (busy, start) v
  | inr idle ↦ elim (Option-cases (oldest 0 b.records)) [
    | inl empty ↦ rw (idle, start) (rw empty v)
    | inr ((i, r), found) ↦
        let (j, same, there, _) = oldest-at 0 b.records i r found in
        let moved : Request = record r { phase = active } in
        let slots : i ≡ j = omega (arith, same) in
        let here : at b.records i ≡ some r = ap (at b.records) slots ∙ there in
        rw (idle, start)
          (rw found (
            written-IsValid b b.next i (some moved) v
              (replaced-Fits b i r moved v here refl refl (inr (ground arith)))))
  ]
]

-- The device's answer keeps the queue valid.
pub finish-IsValid :
    (b c : Broker) (id : ℕ) (status : Status) (bytes : List ℕ)
    → IsValid b
    → finish b id status bytes ≡ some c
    → IsValid c
unfolding finish
finish-IsValid b c id status bytes v h =
    elim (Option-cases (find_slot (λ r. (r.result.id == id) && is_active r.phase) b.records)) [
      | inl missing ↦ ground arith
      | inr ((i, r), found) ↦
          let (there, _) =
            find_slot-at (λ r. (r.result.id == id) && is_active r.phase) b.records i r found in
          elim (Bool-cases r.abandoned) [
            | inl e ↦
                subst IsValid (ground arith)
                  (written-IsValid b b.next i none v (dropped-Fits b i r v there))
            | inr e ↦
                let answered : Request = record r {
                  phase = complete;
                  result = record {
                    id = r.result.id;
                    operation = r.result.operation;
                    status = status;
                    effect = effect_of r.result.operation status;
                    bytes = bytes_of r.result.operation status bytes;
                  };
                } in
                subst IsValid (ground arith) (
                  written-IsValid b b.next i (some answered) v
                    (replaced-Fits b i r answered v there refl refl (inl refl)))
          ]
    ]

-- The slot that a call finds for its handle holds a record.
pub slot-at :
    (b : Broker) (owner handle i : ℕ) (r : Request)
    → slot b owner handle ≡ ok (i, r)
    → at b.records i ≡ some r
unfolding slot
slot-at b owner handle i r h = elim (Result-cases (Handles.resolve b.handles owner handle 0)) [
  | inr (e, refused) ↦ ground arith
  | inl (g, granted) ↦ elim (Option-cases (find_slot (made_by owner handle) b.records)) [
    | inl missing ↦ ground arith
    | inr ((j, s), found) ↦
        let (there, _) = find_slot-at (made_by owner handle) b.records j s found in ground arith
  ]
]

-- Taking a completion keeps the queue valid.
pub consume-IsValid :
    (b : Broker) (owner handle : ℕ) → IsValid b → IsValid (consume b owner handle).0
unfolding consume
consume-IsValid b owner handle v = elim (Result-cases (peek b owner handle)) [
  | inr (e, refused) ↦ rw (refused, consume) v
  | inl (c, ready) ↦ elim (Result-cases (slot b owner handle)) [
    | inr (e, refused) ↦ rw (ready, consume) (rw refused v)
    | inl ((i, r), found) ↦
        rw (ready, consume)
          (rw found (
            written-IsValid b b.next i none v
              (dropped-Fits b i r v (slot-at b owner handle i r found))))
  ]
]

abbrev called_off : Request → Request
called_off r = record r {
  phase = complete;
  result = record r.result { status = cancelled; bytes = replicate sector_size 0 };
}

abbrev asked : ℕ → ℕ → ℕ → ℕ → Operation → List ℕ → Request
asked id owner handle sector operation bytes = record {
  owner = owner;
  handle = handle;
  sector = sector;
  phase = queued;
  abandoned = false;
  result = record {
    id = id;
    operation = operation;
    status = success;
    effect = no_effect;
    bytes = bytes;
  };
}

-- Cancelling a request keeps the queue valid.
pub cancel-IsValid :
    (b : Broker) (owner handle id : ℕ) → IsValid b → IsValid (cancel b owner handle id).0
unfolding cancel
cancel-IsValid b owner handle id v = elim (Result-cases (slot b owner handle)) [
  | inr (e, refused) ↦ rw (refused, cancel) v
  | inl ((i, r), found) ↦ elim (Bool-cases (r.result.id == id)) [
    | inr other ↦ rw (found, cancel) (rw other v)
    | inl same ↦ elim (Bool-cases (is_queued r.phase)) [
      | inr late ↦ rw (found, cancel) (rw (same, late) v)
      | inl early ↦
          rw (found, cancel)
            (rw (same, early)
              (written-IsValid b b.next i (some (called_off r)) v (
                replaced-Fits b i r (called_off r) v (slot-at b owner handle i r found) refl refl
                  (inl refl))))
    ]
  ]
]

-- A new request keeps the queue valid.
pub admit-IsValid :
    (b : Broker) (owner handle : ℕ) (operation : Operation) (relative : ℕ) (bytes : List ℕ)
    (physical : Geometry)
    → IsValid b
    → IsValid (admit b owner handle operation relative bytes physical).0
unfolding admit
admit-IsValid b owner handle operation relative bytes physical v =
    elim (Result-cases (check b owner handle operation relative physical)) [
      | inr (e, refused) ↦ rw (refused, admit) v
      | inl (sector, allowed) ↦ elim (Bool-cases (ltb 0 (count (owned_by owner) b.records))) [
        | inl busy ↦ rw (allowed, admit) (rw busy v)
        | inr idle ↦ elim (Option-cases (first_free b.records)) [
          | inl taken ↦ rw (allowed, admit) (rw (idle, taken) v)
          | inr (i, free) ↦
              elim (Option-cases (keep_if (λ n. leb n max_id) (checked_add b.next 1))) [
                | inl spent ↦ rw (allowed, admit) (rw (idle, free, spent) v)
                | inr (next, left) ↦
                    rw (allowed, admit)
                      (rw (idle, free, left)
                        (let r = asked b.next owner handle sector operation bytes in
                          written-IsValid b next i (some r) v
                            (added-Fits b next i r v free refl (ground arith) refl (ground arith))))
              ]
        ]
      ]
    ]

-- Closing a handle keeps the queue valid.
pub close-IsValid : (b : Broker) (owner handle : ℕ) → IsValid b → IsValid (close b owner handle).0
unfolding close
close-IsValid b owner handle v = elim (Result-cases (Handles.remove b.handles owner handle).1) [
  | inr (e, refused) ↦
      rw (refused, close)
        (record { one_active = v.one_active; one_each = v.one_each; issued = v.issued })
  | inl (removed, done) ↦
      rw (done, close) (dropped-IsValid b (Handles.remove b.handles owner handle).0 handle v)
]

-- Granting a range of sectors leaves the queue as it is.
pub grant-IsValid :
    (b : Broker) (owner : ℕ) (g : Grant) (capacity : ℕ)
    → IsValid b
    → IsValid (grant b owner g capacity).0
unfolding grant
grant-IsValid b owner g capacity v = elim (Result-cases (validate g capacity)) [
  | inr (e, refused) ↦ rw (refused, grant) v
  | inl (_, fine) ↦
      rw (fine, grant)
        (record { one_active = v.one_active; one_each = v.one_each; issued = v.issued })
]
