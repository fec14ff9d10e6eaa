-- ===== src/Block/Broker.antt =====
-- kernel/src/block/access: grants of sector ranges, and the queue of requests. A sector's bytes are a
-- list; `none` stands for the panic of an `expect`.
use rustic_os.Base.{
  ℕ, zero, suc, ◌+◌, ◌-◌, Bool, true, false, not, ◌&&◌, ◌||◌, ◌≤◌, ltb, leb, Option, none, some,
  List, [], ◌∷◌, replicate, set, ◌==◌, if◌then◌else◌, Result, ok, err, bit_and, map_err, ◌>>=◌,
  ◌>>◌, refuse_if, ok_or,
}
use rustic_os.Base.Slots.{at, first_free, find_slot, count}
use rustic_os.Base.Words.{checked_add, keep_if}
use rustic_os.Handles
use rustic_os.Handles.{Table}
use rustic_os.Block.Abi.{
  Error, Operation, Status, Effect, Completion, read, write, flush, right, is_read, is_flush,
  is_success, is_unavailable, success, cancelled, no_effect, completed, all, flush_right,
  sector_size, max_id, of_handles,
}
use rustic_os.Block.Abi
pub mod Records
unfoldable pub use Records.*
pub mod Invariant
pub mod Requests
pub mod Runs
mod Held
pub mod Answer

-- queue.rs
pub record Broker : Type 0 where
  pub handles : Table Grant
  pub records : List (Option Request)
  pub next : ℕ

abbrev pub handle_slots : ℕ
handle_slots = 4

abbrev pub handles_per_owner : ℕ
handles_per_owner = 1

unfoldable pub new : Broker
new = record {
  handles = Handles.new Grant handle_slots 1 all 0;
  records = replicate 2 none;
  next = 1;
}

unfoldable pub grant : Broker → ℕ → Grant → ℕ → Broker × Result Error ℕ
grant b owner g capacity = elim (validate g capacity) [
  | err e ↦ (b, err e)
  | ok _ ↦
      let (handles, r) = Handles.grant handles_per_owner b.handles owner g g.rights in
      (record b { handles = handles }, map_err of_handles r)
]

-- `geometry`: the sectors and rights of the grant, and whether the device is read-only.
unfoldable pub geometry : Broker → ℕ → ℕ → Geometry → Result Error (ℕ × ℕ × Bool)
geometry b owner handle physical = do
  g ← map_err of_handles (Handles.resolve b.handles owner handle 0)
  ok (g.sectors, g.rights, physical.read_only)

unfoldable pub check : Broker → ℕ → ℕ → Operation → ℕ → Geometry → Result Error ℕ
check b owner handle operation relative physical = do
  g ← map_err of_handles (Handles.resolve b.handles owner handle (right operation))
  sector ← if is_flush operation then ok 0 else sector_of g relative
  refuse_if (not (is_read operation) && physical.read_only) Abi.read_only
  ok sector

unfoldable pub admit : Broker → ℕ → ℕ → Operation → ℕ → List ℕ → Geometry → Broker × Result Error ℕ
admit b owner handle operation relative bytes physical =
    elim (check b owner handle operation relative physical) [
      | err e ↦ (b, err e)
      | ok sector ↦
          if ltb 0 (count (λ r. r.owner == owner) b.records)
          then (b, err Abi.busy)
          else elim (first_free b.records) [
            | none ↦ (b, err Abi.busy)
            | some slot ↦ elim (keep_if (λ n. leb n max_id) (checked_add b.next 1)) [
              | none ↦ (b, err Abi.quota)
              | some next ↦ (
                record b {
                  next = next;
                  records = set b.records slot (
                      some (record {
                        owner = owner;
                        handle = handle;
                        sector = sector;
                        phase = queued;
                        abandoned = false;
                        result = record {
                          id = b.next;
                          operation = operation;
                          status = success;
                          effect = no_effect;
                          bytes = bytes;
                        };
                      }));
                },
                ok b.next,
              )
            ]
          ]
    ]

-- The earlier of two candidates for `min_by_key`: the first one wins a tie.
abbrev pub earlier : ℕ × Request → Option (ℕ × Request) → Option (ℕ × Request)
earlier a none = some a
earlier (i, r) (some (j, s)) = if leb r.result.id s.result.id then some (i, r) else some (j, s)

-- `filter(queued).min_by_key(id)` over the slots from `index` on.
unfoldable pub oldest : ℕ → List (Option Request) → Option (ℕ × Request)
oldest index [] = none
oldest index (x ∷ xs) =
    let rest = oldest (index + 1) xs in
    elim x [ none ↦ rest | some r ↦ if is_queued r.phase then earlier (index, r) rest else rest ]

unfoldable pub start : Broker → Broker × Option Pending
unfolding oldest
start b =
    if ltb 0 (count (λ r. is_active r.phase) b.records)
    then (b, none)
    else elim (oldest 0 b.records) [
      | none ↦ (b, none)
      | some (slot, r) ↦ (
        record b { records = set b.records slot (some (record r { phase = active })) },
        some (record {
          owner = r.owner;
          id = r.result.id;
          operation = r.result.operation;
          sector = r.sector;
          bytes = r.result.bytes;
        }),
      )
    ]

-- What is known of the device's state once it has answered.
abbrev pub effect_of : Operation → Status → Effect
effect_of operation status =
    if is_read operation || is_unavailable status
    then no_effect
    else if is_success status
    then completed
    else Effect.unknown

abbrev pub bytes_of : Operation → Status → List ℕ → List ℕ
bytes_of operation status bytes =
    if is_read operation && is_success status then bytes else replicate sector_size 0

-- `finish`; `none` is its `expect` of an active request with this id.
unfoldable pub finish : Broker → ℕ → Status → List ℕ → Option Broker
finish b id status bytes =
    elim (find_slot (λ r. (r.result.id == id) && is_active r.phase) b.records) [
      | none ↦ none
      | some (slot, r) ↦
          if r.abandoned
          then some (record b { records = set b.records slot none })
          else some (record b {
            records = set b.records slot (
                some (record r {
                  phase = complete;
                  result = record {
                    id = r.result.id;
                    operation = r.result.operation;
                    status = status;
                    effect = effect_of r.result.operation status;
                    bytes = bytes_of r.result.operation status bytes;
                  };
                }));
          })
    ]

abbrev pub made_by : ℕ → ℕ → Request → Bool
made_by owner handle r = (r.owner == owner) && (r.handle == handle)

-- `slot`, with the record that stands there.
unfoldable pub slot : Broker → ℕ → ℕ → Result Error (ℕ × Request)
slot b owner handle = do
  _ ← map_err of_handles (Handles.resolve b.handles owner handle 0)
  ok_or (find_slot (made_by owner handle) b.records) Abi.no_request

unfoldable pub peek : Broker → ℕ → ℕ → Result Error Completion
unfolding slot
peek b owner handle = elim (slot b owner handle) [
  | err e ↦ err e
  | ok (i, r) ↦ if not (is_complete r.phase) then err Abi.would_block else ok r.result
]

unfoldable pub wait : Broker → ℕ → ℕ → ℕ → Result Error (Unit {0})
unfolding slot peek
wait b owner handle id = elim (slot b owner handle) [
  | err e ↦ err e
  | ok (i, r) ↦
      if not (r.result.id == id) then err Abi.no_request else peek b owner handle >>= (λ _. ok tt)
]

unfoldable pub consume : Broker → ℕ → ℕ → Broker × Result Error (Unit {0})
unfolding slot peek
consume b owner handle = elim (peek b owner handle) [
  | err e ↦ (b, err e)
  | ok _ ↦ elim (slot b owner handle) [
    | err e ↦ (b, err e)
    | ok (i, r) ↦ (record b { records = set b.records i none }, ok tt)
  ]
]

-- 0 when the request was still queued and is cancelled, 1 when it is too late.
unfoldable pub cancel : Broker → ℕ → ℕ → ℕ → Broker × Result Error ℕ
unfolding slot
cancel b owner handle id = elim (slot b owner handle) [
  | err e ↦ (b, err e)
  | ok (i, r) ↦
      if not (r.result.id == id)
      then (b, err Abi.no_request)
      else if not (is_queued r.phase)
      then (b, ok 1)
      else (
        record b {
          records = set b.records i (
              some (record r {
                phase = complete;
                result = record {
                  id = r.result.id;
                  operation = r.result.operation;
                  status = cancelled;
                  effect = r.result.effect;
                  bytes = replicate sector_size 0;
                };
              }));
        },
        ok 0,
      )
]

-- What closing a handle leaves of one record: an active request is abandoned to the device, any other
-- is dropped.
abbrev pub drop_request : ℕ → Option Request → Option Request
drop_request handle none = none
drop_request handle (some r) =
    if r.handle == handle
    then if is_active r.phase then some (record r { abandoned = true }) else none
    else some r

unfoldable pub drop_requests : ℕ → List (Option Request) → List (Option Request)
drop_requests handle [] = []
drop_requests handle (x ∷ xs) = drop_request handle x ∷ drop_requests handle xs

unfoldable pub close : Broker → ℕ → ℕ → Broker × Result Error (Unit {0})
close b owner handle =
    let (handles, r) = Handles.remove b.handles owner handle in
    elim r [
      | err e ↦ (record b { handles = handles }, err (of_handles e))
      | ok _ ↦ (record b { handles = handles; records = drop_requests handle b.records }, ok tt)
    ]

-- The loop of `close_owner`, on fuel: `none` when that runs out or its `expect` fails.
unfoldable pub close_owner_loop : ℕ → Broker → ℕ → Option Broker
close_owner_loop zero b owner = none
close_owner_loop (suc fuel) b owner = elim (Handles.first b.handles owner) [
  | none ↦ some b
  | some handle ↦
      let (b', r) = close b owner handle in
      elim r [ ok _ ↦ close_owner_loop fuel b' owner | err _ ↦ none ]
]

unfoldable pub close_owner : Broker → ℕ → Option Broker
unfolding close_owner_loop
close_owner b owner = close_owner_loop (suc handles_per_owner) b owner

unfoldable pub counts : Broker → ℕ × ℕ
counts b = (Handles.count_handles b.handles, count (λ _. true) b.records)

unfoldable pub active_id : Broker → Option ℕ
active_id b = elim (find_slot (λ r. is_active r.phase) b.records) [
  | none ↦ none
  | some (i, r) ↦ some r.result.id
]
