-- ===== src/Block/Broker/Runs.antt =====
-- kernel/src/block/access: the queue over its life, from the empty broker on.
use rustic_os.Base.{
  ap, ◌∙◌, set, ℕ, zero, suc, ◌+◌, ◌≤◌, ◌≡◌, inl, inr, true, Option, none, some, List, [], ◌∷◌, ltb,
  Bool-cases, Option-cases, arith,
}
use rustic_os.Base.Slots.{at, count}
use rustic_os.Block.Abi.{Operation, Status}
use rustic_os.Block.Broker.{
  active, Broker, Request, Pending, Grant, Geometry, is_queued, grant, admit, start, finish,
  consume, cancel, close, new, oldest,
}
use rustic_os.Block.Broker.Invariant.{IsValid, in_progress, new-IsValid}
use rustic_os.Block.Broker.Requests.{
  QueuedAt, oldest-at, admit-IsValid, start-IsValid, finish-IsValid, consume-IsValid,
  cancel-IsValid, close-IsValid, grant-IsValid,
}

-- The states of the queue that its owners' calls and the driver reach from the empty broker.
pub data Reached : Broker → Type 0 where
  opened : Reached new
  granted :
      (b : Broker) (owner : ℕ) (g : Grant) (capacity : ℕ)
      → Reached b
      → Reached (grant b owner g capacity).0
  admitted :
      (b : Broker) (owner handle : ℕ) (operation : Operation) (relative : ℕ) (bytes : List ℕ)
      (physical : Geometry)
      → Reached b
      → Reached (admit b owner handle operation relative bytes physical).0
  started : (b : Broker) → Reached b → Reached (start b).0
  finished :
      (b c : Broker) (id : ℕ) (status : Status) (bytes : List ℕ)
      → Reached b
      → finish b id status bytes ≡ some c
      → Reached c
  consumed : (b : Broker) (owner handle : ℕ) → Reached b → Reached (consume b owner handle).0
  called_off : (b : Broker) (owner handle id : ℕ) → Reached b → Reached (cancel b owner handle id).0
  closed : (b : Broker) (owner handle : ℕ) → Reached b → Reached (close b owner handle).0

-- In every state that calls and the driver reach from the empty broker, at most one request is at the
-- device, no owner has more than one request, and every id is below the counter.
pub reached-IsValid : (b : Broker) → Reached b → IsValid b
reached-IsValid b opened = new-IsValid
reached-IsValid b (granted c owner g capacity r) =
    grant-IsValid c owner g capacity (reached-IsValid c r)
reached-IsValid b (admitted c owner handle operation relative bytes physical r) =
    admit-IsValid c owner handle operation relative bytes physical (reached-IsValid c r)
reached-IsValid b (started c r) = start-IsValid c (reached-IsValid c r)
reached-IsValid b (finished c _ id status bytes r h) =
    finish-IsValid c b id status bytes (reached-IsValid c r) h
reached-IsValid b (consumed c owner handle r) = consume-IsValid c owner handle (reached-IsValid c r)
reached-IsValid b (called_off c owner handle id r) =
    cancel-IsValid c owner handle id (reached-IsValid c r)
reached-IsValid b (closed c owner handle r) = close-IsValid c owner handle (reached-IsValid c r)

oldest-none :
    (k : ℕ) (xs : List (Option Request)) (j : ℕ) (s : Request)
    → oldest k xs ≡ none
    → at xs j ≡ some s
    → is_queued s.phase ≡ true
    → ⊥
unfolding oldest at
oldest-none k [] j s h e q = ground arith
oldest-none k (none ∷ xs) zero s h e q = ground arith
oldest-none k (none ∷ xs) (suc j) s h e q = oldest-none (k + 1) xs j s h e q
oldest-none k (some t ∷ xs) zero s h e q = elim (Option-cases (oldest (k + 1) xs)) [
  | inl n ↦ ground arith
  | inr (x, n) ↦ ground arith
]
oldest-none k (some t ∷ xs) (suc j) s h e q = elim (Bool-cases (is_queued t.phase)) [
  | inr later ↦ oldest-none (k + 1) xs j s (ground arith) e q
  | inl now ↦ elim (Option-cases (oldest (k + 1) xs)) [
    | inl n ↦ oldest-none (k + 1) xs j s n e q
    | inr (x, n) ↦ ground arith
  ]
]

-- The candidate of a search is no younger than any queued request.
oldest_le :
    (k : ℕ) (xs : List (Option Request)) (i j : ℕ) (r s : Request)
    → oldest k xs ≡ some (i, r)
    → at xs j ≡ some s
    → is_queued s.phase ≡ true
    → r.result.id ≤ s.result.id
unfolding oldest at
oldest_le k [] i j r s h e q = ground arith
oldest_le k (none ∷ xs) i zero r s h e q = ground arith
oldest_le k (none ∷ xs) i (suc j) r s h e q = oldest_le (k + 1) xs i j r s h e q
oldest_le k (some t ∷ xs) i zero r s h e q = elim (Option-cases (oldest (k + 1) xs)) [
  | inl n ↦ ground arith
  | inr ((m, u), n) ↦ ground arith
]
oldest_le k (some t ∷ xs) i (suc j) r s h e q = elim (Bool-cases (is_queued t.phase)) [
  | inr later ↦ oldest_le (k + 1) xs i j r s (ground arith) e q
  | inl now ↦ elim (Option-cases (oldest (k + 1) xs)) [
    | inl n ↦ absurd (oldest-none (k + 1) xs j s n e q)
    | inr ((m, u), n) ↦ let no_later = oldest_le (k + 1) xs m j u s n e q in ground arith
  ]
]

-- What `start` handed out of the queue `b`, and the queue that it left.
pub record Started (b : Broker) (p : Pending) (after : Broker) : Type 0 where
  pub place : ℕ
  pub request : Request
  pub there : at b.records place ≡ some request
  pub waiting : is_queued request.phase ≡ true
  pub handed : p ≡ record {
    owner = request.owner;
    id = request.result.id;
    operation = request.result.operation;
    sector = request.sector;
    bytes = request.result.bytes;
  }
  pub moved :
      after ≡ record b { records = set b.records place (some (record request { phase = active })) }
  pub idle : count in_progress b.records ≡ 0
  pub first :
      (j : ℕ) (s : Request)
      → at b.records j ≡ some s
      → is_queued s.phase ≡ true
      → request.result.id ≤ s.result.id

-- When `start` hands a request to the device, none was there before. What it hands out is the owner,
-- id, operation, sector and bytes of a queued request, no queued request has a smaller id, and in the
-- queue that it leaves that request is active and nothing else has changed.
pub start-oldest : (b : Broker) (p : Pending) → (start b).1 ≡ some p → Started b p (start b).0
unfolding start QueuedAt
start-oldest b p h = elim (Bool-cases (ltb 0 (count in_progress b.records))) [
  | inl busy ↦ ground arith
  | inr idle ↦ elim (Option-cases (oldest 0 b.records)) [
    | inl empty ↦ ground arith
    | inr ((i, r), found) ↦
        let (j, same, there, q) = oldest-at 0 b.records i r found in
        let slots : i ≡ j = omega (arith, same) in
        record {
          place = i;
          request = r;
          there = ap (at b.records) slots ∙ there;
          waiting = q;
          handed = ground arith;
          moved = rw (idle, found, start);
          idle = ground arith;
          first = λ k s e w. oldest_le 0 b.records i k r s found e w;
        }
  ]
]
