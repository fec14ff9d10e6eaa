-- ===== src/Block/Broker/Invariant.antt =====
-- kernel/src/block/access/queue.rs: the invariant of the queue, and what a write of one slot must
-- keep of it.
use rustic_os.Base.{
  ℕ, zero, suc, ◌+◌, ◌≤◌, ◌<◌, ◌≡◌, refl, ◌⊎◌, inl, inr, Bool, false, Option, none, some, List, [],
  ◌∷◌, set, length, ◌==◌, Bool-cases, arith,
}
use rustic_os.Base.Slots.{
  at, at-set_cases, at_lt, first_free, first_free-at, count, hit, count-set, at-replicate,
}
use rustic_os.Handles.{Table}
use rustic_os.Block.Broker.{Broker, Request, Grant, is_active, drop_request, drop_requests, new}

abbrev pub in_progress : Request → Bool
in_progress r = is_active r.phase

abbrev pub owned_by : ℕ → Request → Bool
owned_by owner r = r.owner == owner

-- One request at the device, one request for each owner, and ids below the counter.
pub record IsValid (b : Broker) : Type 0 where
  pub one_active : count in_progress b.records ≤ 1
  pub one_each : (owner : ℕ) → count (owned_by owner) b.records ≤ 1
  pub issued : (i : ℕ) (r : Request) → at b.records i ≡ some r → r.result.id < b.next

pub new-IsValid : IsValid new
unfolding new count
new-IsValid = record {
  one_active = omega arith;
  one_each = λ owner. omega arith;
  issued = λ i r h. ground (arith, at-replicate {A = Request} 2 i);
}

-- What a write of `v` to slot `i` must keep.
pub record Fits (b : Broker) (next i : ℕ) (v : Option Request) : Type 0 where
  pub room : i < length b.records
  pub later : b.next ≤ next
  pub one_active :
      count in_progress b.records + hit in_progress v ≤ 1 + hit in_progress (at b.records i)
  pub one_each :
      (owner : ℕ)
      → count (owned_by owner) b.records + hit (owned_by owner) v
        ≤ 1 + hit (owned_by owner) (at b.records i)
  pub issued : (r : Request) → v ≡ some r → r.result.id < next

pub written-IsValid :
    (b : Broker) (next i : ℕ) (v : Option Request)
    → IsValid b
    → Fits b next i v
    → IsValid (record b { next = next; records = set b.records i v })
written-IsValid b next i v valid f = record {
  one_active = omega (arith, count-set in_progress b.records i v f.room, f.one_active);
  one_each =
      λ owner. omega (arith, count-set (owned_by owner) b.records i v f.room, f.one_each owner);
  issued = λ j r h. elim (at-set_cases b.records i j v f.room h) [
    | inl (_, e) ↦ f.issued r e
    | inr (_, e) ↦ omega (arith, valid.issued j r e, f.later)
  ];
}

-- The phases in which a write may leave a request: the same, or no longer active.
pub replaced-Fits :
    (b : Broker) (i : ℕ) (old r : Request)
    → IsValid b
    → at b.records i ≡ some old
    → r.owner ≡ old.owner
    → r.result.id ≡ old.result.id
    → (in_progress r ≡ false) ⊎ (count in_progress b.records ≡ 0)
    → Fits b b.next i (some r)
replaced-Fits b i old r v there owner id how = record {
  room = at_lt b.records i there;
  later = omega arith;
  one_active = elim how [ inl e ↦ ground (arith, v.one_active) | inr e ↦ ground arith ];
  one_each = λ o. rw (there, owner) (omega (arith, v.one_each o));
  issued = λ s e. ground (arith, v.issued i old there);
}

pub dropped-Fits :
    (b : Broker) (i : ℕ) (old : Request)
    → IsValid b
    → at b.records i ≡ some old
    → Fits b b.next i none
dropped-Fits b i old v there = record {
  room = at_lt b.records i there;
  later = omega arith;
  one_active = ground (arith, v.one_active);
  one_each = λ o. ground (arith, v.one_each o);
  issued = λ s e. ground arith;
}

pub added-Fits :
    (b : Broker) (next i : ℕ) (r : Request)
    → IsValid b
    → first_free b.records ≡ some i
    → in_progress r ≡ false
    → count (owned_by r.owner) b.records ≡ 0
    → r.result.id ≡ b.next
    → b.next < next
    → Fits b next i (some r)
added-Fits b next i r v free idle none_owned id later =
    let (room, empty) = first_free-at b.records i free in
    record {
      room = room;
      later = omega arith;
      one_active = rw idle (omega (arith, v.one_active));
      one_each = λ o. elim (Bool-cases (r.owner == o)) [
        | inl e ↦ let same : r.owner ≡ o = ground arith in rw (← same, none_owned) (ground arith)
        | inr e ↦ rw e (omega (arith, v.one_each o))
      ];
      issued = λ s e. ground arith;
    }

kept-hit_active :
    (handle : ℕ) (x : Option Request) → hit in_progress (drop_request handle x) ≤ hit in_progress x
kept-hit_active handle none = omega arith
kept-hit_active handle (some r) = ground arith

kept-hit_owned :
    (handle owner : ℕ) (x : Option Request)
    → hit (owned_by owner) (drop_request handle x) ≤ hit (owned_by owner) x
kept-hit_owned handle owner none = omega arith
kept-hit_owned handle owner (some r) = ground arith

kept-active :
    (handle : ℕ) (xs : List (Option Request))
    → count in_progress (drop_requests handle xs) ≤ count in_progress xs
unfolding count drop_requests
kept-active handle [] = omega arith
kept-active handle (x ∷ xs) = omega (arith, kept-hit_active handle x, kept-active handle xs)

kept-owned :
    (handle owner : ℕ) (xs : List (Option Request))
    → count (owned_by owner) (drop_requests handle xs) ≤ count (owned_by owner) xs
unfolding count drop_requests
kept-owned handle owner [] = omega arith
kept-owned handle owner (x ∷ xs) =
    omega (arith, kept-hit_owned handle owner x, kept-owned handle owner xs)

kept-id :
    (handle : ℕ) (x : Option Request) (r : Request)
    → drop_request handle x ≡ some r
    → (s : Request) × (x ≡ some s) × (r.result.id ≡ s.result.id)
kept-id handle none r h = ground arith
kept-id handle (some s) r h = (s, refl, ground arith)

kept-issued :
    (handle next : ℕ) (xs : List (Option Request))
    → ((i : ℕ) (r : Request) → at xs i ≡ some r → r.result.id < next)
    → (i : ℕ) (r : Request) → at (drop_requests handle xs) i ≡ some r
    → r.result.id < next
unfolding at drop_requests
kept-issued handle next [] all i r h = ground arith
kept-issued handle next (x ∷ xs) all zero r h =
    let (s, was, same) = kept-id handle x r h in omega (arith, same, all 0 s was)
kept-issued handle next (x ∷ xs) all (suc i) r h =
    kept-issued handle next xs (λ j. all (suc j)) i r h

pub dropped-IsValid :
    (b : Broker) (handles : Table Grant) (handle : ℕ)
    → IsValid b
    → IsValid (record b { handles = handles; records = drop_requests handle b.records })
dropped-IsValid b handles handle v = record {
  one_active = omega (arith, kept-active handle b.records, v.one_active);
  one_each = λ o. omega (arith, kept-owned handle o b.records, v.one_each o);
  issued = kept-issued handle b.next b.records v.issued;
}
