-- ===== src/Block/Broker/Answer.antt =====
-- kernel/src/block/access/queue.rs and kernel/src/process/runtime/block/service.rs: the driver starts a
-- request, its owners go on calling the queue, and the driver finishes the request by the id it was
-- handed.
use mathlib.Core.Bool.{true≢false}
use rustic_os.Base.{
  ℕ, suc, ◌≡◌, refl, sym, ◌∙◌, inl, inr, ◌&&◌, none, some, List, set, ◌==◌, ==_self, if◌then◌else◌,
  Bool-cases, arith,
}
use rustic_os.Base.Slots.{at, at_lt, at-set_cases, at-set_self, find_slot_unique, count_zero}
use rustic_os.Block.Abi.{Operation, Status}
use rustic_os.Block.Broker.{
  Broker, Request, Pending, Grant, Geometry, active, complete, is_active, grant, admit, start,
  finish, effect_of, bytes_of, consume, cancel, handles_per_owner, close, close_owner,
}
use rustic_os.Block.Broker.Invariant.{in_progress}
use rustic_os.Block.Broker.Runs.{Started, start-oldest}
use rustic_os.Block.Broker.Held.{
  Held, grant-Held, admit-Held, start-Held, consume-Held, cancel-Held, close-Held,
  close_owner_loop-Held,
}

-- The states of the queue that the calls of its owners and further calls of `start` reach from `b`.
pub data Meanwhile (b : Broker) : Broker → Type 0 where
  at_once : Meanwhile b b
  granted :
      (c : Broker) (owner : ℕ) (g : Grant) (capacity : ℕ)
      → Meanwhile b c
      → Meanwhile b (grant c owner g capacity).0
  admitted :
      (c : Broker) (owner handle : ℕ) (operation : Operation) (relative : ℕ) (bytes : List ℕ)
      (physical : Geometry)
      → Meanwhile b c
      → Meanwhile b (admit c owner handle operation relative bytes physical).0
  started : (c : Broker) → Meanwhile b c → Meanwhile b (start c).0
  consumed :
      (c : Broker) (owner handle : ℕ) → Meanwhile b c → Meanwhile b (consume c owner handle).0
  called_off :
      (c : Broker) (owner handle id : ℕ) → Meanwhile b c → Meanwhile b (cancel c owner handle id).0
  closed : (c : Broker) (owner handle : ℕ) → Meanwhile b c → Meanwhile b (close c owner handle).0
  owner_closed :
      (c d : Broker) (owner : ℕ) → Meanwhile b c → close_owner c owner ≡ some d → Meanwhile b d

meanwhile-Held :
    (p : Pending) (i : ℕ) (b c : Broker) → Held p i b.records → Meanwhile b c → Held p i c.records
unfolding close_owner
meanwhile-Held p i b c h at_once = h
meanwhile-Held p i b c h (granted d owner g capacity m) =
    grant-Held p i d owner g capacity (meanwhile-Held p i b d h m)
meanwhile-Held p i b c h (admitted d owner handle operation relative bytes physical m) =
    admit-Held p i d owner handle operation relative bytes physical (meanwhile-Held p i b d h m)
meanwhile-Held p i b c h (started d m) = start-Held p i d (meanwhile-Held p i b d h m)
meanwhile-Held p i b c h (consumed d owner handle m) =
    consume-Held p i d owner handle (meanwhile-Held p i b d h m)
meanwhile-Held p i b c h (called_off d owner handle id m) =
    cancel-Held p i d owner handle id (meanwhile-Held p i b d h m)
meanwhile-Held p i b c h (closed d owner handle m) =
    close-Held p i d owner handle (meanwhile-Held p i b d h m)
meanwhile-Held p i b c h (owner_closed d e owner m done) =
    close_owner_loop-Held p i (suc handles_per_owner) d c owner (meanwhile-Held p i b d h m) done

-- What `start` hands out is in its slot afterwards.
handed-Held :
    (b : Broker) (p : Pending) (s : Started b p (start b).0) → Held p s.place (start b).0.records
handed-Held b p s =
    let r : Request = record (s.request) { phase = active } in
    let room = at_lt b.records s.place s.there in
    rw s.moved (record {
      request = r;
      there = at-set_self b.records s.place (some r) room;
      live = refl;
      same_owner = rw s.handed refl;
      same_id = rw s.handed refl;
      same_operation = rw s.handed refl;
      alone = λ j t e a. elim (at-set_cases b.records s.place j (some r) room e) [
        | inl (same, _) ↦ same
        | inr (_, was) ↦ absurd (true≢false (sym a ∙ count_zero in_progress b.records j s.idle was))
      ];
    })

-- What the device's answer to `p`, of this status and these bytes, makes of the queue `c`.
pub record Answered (p : Pending) (status : Status) (bytes : List ℕ) (c after : Broker)
    : Type 0 where
  pub place : ℕ
  pub request : Request
  pub there : at c.records place ≡ some request
  pub same_owner : request.owner ≡ p.owner
  pub same_id : request.result.id ≡ p.id
  pub written : after ≡ record c {
    records = set c.records place (
        if request.abandoned
        then none
        else some (record request {
          phase = complete;
          result = record {
            id = p.id;
            operation = p.operation;
            status = status;
            effect = effect_of p.operation status;
            bytes = bytes_of p.operation status bytes;
          };
        }));
  }

finish-Held :
    (p : Pending) (i : ℕ) (c : Broker) (status : Status) (bytes : List ℕ)
    → Held p i c.records
    → (d : Broker) × (finish c p.id status bytes ≡ some d) × Answered p status bytes c d
unfolding finish
finish-Held p i c status bytes h =
    let found =
      find_slot_unique (λ s. (s.result.id == p.id) && is_active s.phase) c.records i h.request
        h.there (rw (h.same_id, ==_self p.id) h.live) (λ j s e k. h.alone j s e (ground arith)) in
    elim (Bool-cases h.request.abandoned) [
      | inl gone ↦ (
        record c { records = set c.records i none },
        rw (found, gone, finish),
        record {
          place = i;
          request = h.request;
          there = h.there;
          same_owner = h.same_owner;
          same_id = h.same_id;
          written = rw gone;
        },
      )
      | inr kept ↦ (
        record c {
          records = set c.records i (
              some (record (h.request) {
                phase = complete;
                result = record {
                  id = p.id;
                  operation = p.operation;
                  status = status;
                  effect = effect_of p.operation status;
                  bytes = bytes_of p.operation status bytes;
                };
              }));
        },
        rw (found, kept, h.same_id, h.same_operation, finish),
        record {
          place = i;
          request = h.request;
          there = h.there;
          same_owner = h.same_owner;
          same_id = h.same_id;
          written = rw kept;
        },
      )
    ]

-- Once `start` has handed out a request, and whatever its owners call and however often `start` is
-- tried before the device answers, `finish` with the id handed out does not panic. It answers the
-- record with the owner and id handed out: an abandoned one is dropped, any other is complete, with
-- that operation, the status, and the effect and bytes that go with them. Nothing else changes.
pub finish-start :
    (b c : Broker) (p : Pending) (status : Status) (bytes : List ℕ)
    → (start b).1 ≡ some p
    → Meanwhile (start b).0 c
    → (d : Broker) × (finish c p.id status bytes ≡ some d) × Answered p status bytes c d
finish-start b c p status bytes h m =
    let s = start-oldest b p h in
    finish-Held p s.place c status bytes
      (meanwhile-Held p s.place (start b).0 c (handed-Held b p s) m)
