-- ===== src/Block/Broker/Held.antt =====
-- kernel/src/block/access/queue.rs: the request at the device, under the calls of the owners and of
-- the driver.
use mathlib.Core.Bool.{true≢false}
use rustic_os.Base.{
  ℕ, zero, suc, ◌<◌, ◌≡◌, ◌≢◌, refl, sym, ◌∙◌, inl, inr, true, false, Option, none, some, List, [],
  ◌∷◌, set, length, ◌==◌, if◌then◌else◌, ltb, leb, Bool-cases, Option-cases, Result-cases, arith,
}
use rustic_os.Base.Slots.{
  at, at_lt, at-set_cases, at-set_ne, first_free, first_free-at, count, count_zero, passes,
}
use rustic_os.Base.Words.{checked_add, keep_if}
use rustic_os.Handles
use rustic_os.Block.Abi.{Operation, max_id}
use rustic_os.Block.Broker.{
  Broker, Request, Pending, Grant, Geometry, is_queued, validate, check, grant, admit, start, slot,
  peek, consume, cancel, drop_request, drop_requests, close, close_owner_loop,
}
use rustic_os.Block.Broker.Invariant.{in_progress, owned_by}
use rustic_os.Block.Broker.Requests.{slot-at}

-- Slot `i` of these records holds the request handed out as `p`, and no other one is at the device.
pub record Held (p : Pending) (i : ℕ) (xs : List (Option Request)) : Type 0 where
  pub request : Request
  pub there : at xs i ≡ some request
  pub live : in_progress request ≡ true
  pub same_owner : request.owner ≡ p.owner
  pub same_id : request.result.id ≡ p.id
  pub same_operation : request.result.operation ≡ p.operation
  pub alone : (j : ℕ) (s : Request) → at xs j ≡ some s → in_progress s ≡ true → i ≡ j

-- A write between requests that are not at the device leaves the one that is.
set-Held :
    (p : Pending) (i j : ℕ) (v : Option Request) (xs : List (Option Request))
    → Held p i xs
    → j < length xs
    → passes in_progress (at xs j) ≡ false
    → passes in_progress v ≡ false
    → Held p i (set xs j v)
set-Held p i j v xs h room before after =
    let ne : j ≢ i = λ e. ground (arith, h.there, h.live, before, e) in
    record {
      request = h.request;
      there = at-set_ne xs j i v ne ∙ h.there;
      live = h.live;
      same_owner = h.same_owner;
      same_id = h.same_id;
      same_operation = h.same_operation;
      alone = λ k s e a. elim (at-set_cases xs j k v room e) [
        | inl (_, written) ↦ absurd (ground (arith, written, after, a))
        | inr (_, kept) ↦ h.alone k s kept a
      ];
    }

at-drop_requests :
    (handle : ℕ) (xs : List (Option Request)) (i : ℕ)
    → at (drop_requests handle xs) i ≡ drop_request handle (at xs i)
unfolding at drop_requests
at-drop_requests handle [] i = refl
at-drop_requests handle (x ∷ xs) zero = refl
at-drop_requests handle (x ∷ xs) (suc i) = at-drop_requests handle xs i

dropped-active :
    (handle : ℕ) (x : Option Request) (s : Request)
    → drop_request handle x ≡ some s
    → in_progress s ≡ true
    → (t : Request) × (x ≡ some t) × (in_progress t ≡ true)
dropped-active handle none s h a = ground arith
dropped-active handle (some t) s h a = (t, refl, ground arith)

-- What closing `handle` makes of a request at the device.
abbrev left : ℕ → Request → Request
left handle r = if r.handle == handle then record r { abandoned = true } else r

drop-Held :
    (p : Pending) (i handle : ℕ) (xs : List (Option Request))
    → Held p i xs
    → Held p i (drop_requests handle xs)
drop-Held p i handle xs h =
    let there = at-drop_requests handle xs i in
    record {
      request = left handle h.request;
      there = ground (arith, h.there, h.live);
      live = ground (arith, h.live);
      same_owner = ground (arith, h.same_owner);
      same_id = ground (arith, h.same_id);
      same_operation = ground (arith, h.same_operation);
      alone = λ j s e a.
          let (t, was, busy) =
            dropped-active handle (at xs j) s (sym (at-drop_requests handle xs j) ∙ e) a in
          h.alone j t was busy;
    }

pub grant-Held :
    (p : Pending) (i : ℕ) (b : Broker) (owner : ℕ) (g : Grant) (capacity : ℕ)
    → Held p i b.records
    → Held p i (grant b owner g capacity).0.records
unfolding grant
grant-Held p i b owner g capacity h = elim (Result-cases (validate g capacity)) [
  | inr (e, refused) ↦ rw (refused, grant) h
  | inl (_, fine) ↦ rw (fine, grant) h
]

pub admit-Held :
    (p : Pending) (i : ℕ) (b : Broker) (owner handle : ℕ) (operation : Operation) (relative : ℕ)
    (bytes : List ℕ) (physical : Geometry)
    → Held p i b.records
    → Held p i (admit b owner handle operation relative bytes physical).0.records
unfolding admit
admit-Held p i b owner handle operation relative bytes physical h =
    elim (Result-cases (check b owner handle operation relative physical)) [
      | inr (e, refused) ↦ rw (refused, admit) h
      | inl (sector, allowed) ↦ elim (Bool-cases (ltb 0 (count (owned_by owner) b.records))) [
        | inl busy ↦ rw (allowed, admit) (rw busy h)
        | inr idle ↦ elim (Option-cases (first_free b.records)) [
          | inl taken ↦ rw (allowed, admit) (rw (idle, taken) h)
          | inr (j, free) ↦
              elim (Option-cases (keep_if (λ n. leb n max_id) (checked_add b.next 1))) [
                | inl spent ↦ rw (allowed, admit) (rw (idle, free, spent) h)
                | inr (next, more) ↦
                    let (room, empty) = first_free-at b.records j free in
                    rw (allowed, admit)
                      (rw (idle, free, more)
                        (set-Held p i j _ b.records h room (rw empty refl) refl))
              ]
        ]
      ]
    ]

-- While a request is at the device, `start` hands out no other.
pub start-Held :
    (p : Pending) (i : ℕ) (b : Broker) → Held p i b.records → Held p i (start b).0.records
unfolding start
start-Held p i b h = elim (Bool-cases (ltb 0 (count in_progress b.records))) [
  | inl busy ↦ rw (busy, start) h
  | inr idle ↦
      absurd (true≢false (sym h.live ∙ count_zero in_progress b.records i (ground arith) h.there))
]

pub consume-Held :
    (p : Pending) (i : ℕ) (b : Broker) (owner handle : ℕ)
    → Held p i b.records
    → Held p i (consume b owner handle).0.records
unfolding consume peek
consume-Held p i b owner handle h = elim (Result-cases (peek b owner handle)) [
  | inr (e, refused) ↦ rw (refused, consume) h
  | inl (c, ready) ↦ elim (Result-cases (slot b owner handle)) [
    | inr (e, refused) ↦ rw (ready, consume) (rw refused h)
    | inl ((j, r), found) ↦
        let there = slot-at b owner handle j r found in
        rw (ready, consume)
          (rw found (
            set-Held p i j none b.records h (at_lt b.records j there)
              (ground (arith, there, ready, found)) refl))
  ]
]

pub cancel-Held :
    (p : Pending) (i : ℕ) (b : Broker) (owner handle id : ℕ)
    → Held p i b.records
    → Held p i (cancel b owner handle id).0.records
unfolding cancel
cancel-Held p i b owner handle id h = elim (Result-cases (slot b owner handle)) [
  | inr (e, refused) ↦ rw (refused, cancel) h
  | inl ((j, r), found) ↦ elim (Bool-cases (r.result.id == id)) [
    | inr other ↦ rw (found, cancel) (rw other h)
    | inl same ↦ elim (Bool-cases (is_queued r.phase)) [
      | inr late ↦ rw (found, cancel) (rw (same, late) h)
      | inl early ↦
          let there = slot-at b owner handle j r found in
          rw (found, cancel)
            (rw (same, early)
              (set-Held p i j _ b.records h (at_lt b.records j there) (ground (arith, there, early))
                refl))
    ]
  ]
]

pub close-Held :
    (p : Pending) (i : ℕ) (b : Broker) (owner handle : ℕ)
    → Held p i b.records
    → Held p i (close b owner handle).0.records
unfolding close
close-Held p i b owner handle h = elim (Result-cases (Handles.remove b.handles owner handle).1) [
  | inr (e, refused) ↦ rw (refused, close) h
  | inl (removed, done) ↦ rw (done, close) (drop-Held p i handle b.records h)
]

pub close_owner_loop-Held :
    (p : Pending) (i fuel : ℕ) (b c : Broker) (owner : ℕ)
    → Held p i b.records
    → close_owner_loop fuel b owner ≡ some c
    → Held p i c.records
unfolding close_owner_loop
close_owner_loop-Held p i zero b c owner h done = ground arith
close_owner_loop-Held p i (suc fuel) b c owner h done =
    elim (Option-cases (Handles.first b.handles owner)) [
      | inl last ↦ let same : b ≡ c = ground arith in rw (← same) h
      | inr (handle, more) ↦ elim (Result-cases (close b owner handle).1) [
        | inr (e, refused) ↦ ground arith
        | inl (_, fine) ↦
            close_owner_loop-Held p i fuel (close b owner handle).0 c owner
              (close-Held p i b owner handle h) (ground arith)
      ]
    ]
