-- ===== src/Ipc/Broker.antt =====
-- kernel/src/ipc/broker.rs. A handle of the broker stands for one side of one channel. An operation
-- returns `none` where the source would panic (`expect`, a failed assertion).
pub mod Linked
pub mod Lifetime
pub mod Opening
pub mod Invariant
pub mod Safety
pub mod CloseOwner
pub mod Connect
mod Tests
use rustic_os.Base.{
  ℕ, zero, suc, ◌+◌, ◌-◌, Bool, true, Option, none, some, List, replicate, set, ◌==◌, if◌then◌else◌,
  Result, ok, err, map_err,
}
use rustic_os.Base.Slots.{first_free, find_slot, count}
use rustic_os.Base.Words.{checked_add}
use rustic_os.Handles
use rustic_os.Handles.{Table}
use rustic_os.Ipc.Abi.{Error, all, read, write, transfer_right, quota, of_handles}
use rustic_os.Ipc.Message.{Message, decode}
use rustic_os.Ipc.Channel
use rustic_os.Ipc.Channel.{Side, side0, side1, Channel, new_channel}

abbrev pub channels_max : ℕ
channels_max = 24

abbrev pub endpoint_handles : ℕ
endpoint_handles = 64

abbrev pub handles_per_owner : ℕ
handles_per_owner = 24

pub record Endpoint : Type 0 where
  pub channel : ℕ
  pub side : Side

pub record Broker : Type 0 where
  pub channels : List (Option Channel)
  pub handles : Table Endpoint
  pub next_channel : ℕ

unfoldable pub new : Broker
new = record {
  channels = replicate channels_max none;
  handles = Handles.new Endpoint endpoint_handles 0 all transfer_right;
  next_channel = 1;
}

-- `slot`, with the channel that stands there; `none` is its `expect`.
unfoldable pub slot : Broker → Endpoint → Option (ℕ × Channel)
slot b e = find_slot (λ c. c.id == e.channel) b.channels

-- The endpoint of one side of the channel that `connect` is about to open.
abbrev pub new_endpoint : Broker → Side → Endpoint
new_endpoint b side = record { channel = b.next_channel; side = side }

-- `connect`, when the second grant is refused: what the removal of the first handle answered.
unfoldable pub connect_undo :
    Broker
    → Handles.Error
    → Table Endpoint × Result Handles.Error Endpoint
    → Broker × Result Error (ℕ × ℕ)
connect_undo b e (handles, err e') = (record b { handles = handles }, err (of_handles e'))
connect_undo b e (handles, ok _) = (record b { handles = handles }, err (of_handles e))

-- `connect`, on what the second grant answered.
unfoldable pub connect_second :
    Broker → ℕ → ℕ → ℕ → ℕ → Table Endpoint × Result Handles.Error ℕ → Broker × Result Error (ℕ × ℕ)
connect_second b a free next first (handles, err e) =
    connect_undo b e (Handles.remove handles a first)
connect_second b a free next first (handles, ok second) = (
  record b {
    handles = handles;
    channels = set b.channels free (some (new_channel b.next_channel));
    next_channel = next;
  },
  ok (first, second),
)

-- `connect`, on what the first grant answered.
unfoldable pub connect_first :
    Broker → ℕ → ℕ → ℕ → ℕ → Table Endpoint × Result Handles.Error ℕ → Broker × Result Error (ℕ × ℕ)
connect_first b a c free next (handles, err e) =
    (record b { handles = handles }, err (of_handles e))
connect_first b a c free next (handles, ok first) =
    connect_second b a free next first
      (Handles.grant handles_per_owner handles c (new_endpoint b side1) all)

unfoldable pub connect : Broker → ℕ → ℕ → Broker × Result Error (ℕ × ℕ)
connect b a c = elim (first_free b.channels) [
  | none ↦ (b, err quota)
  | some free ↦ elim (checked_add b.next_channel 1) [
    | none ↦ (b, err quota)
    | some next ↦
        connect_first b a c free next
          (Handles.grant handles_per_owner b.handles a (new_endpoint b side0) all)
  ]
]

unfoldable pub check : Broker → ℕ → ℕ → ℕ → Result Error (Unit {0})
check b owner handle right = elim (Handles.resolve b.handles owner handle right) [
  | err e ↦ err (of_handles e)
  | ok _ ↦ ok tt
]

-- `send`, once the handle is resolved and the message decoded.
unfoldable pub send_on : Broker → Endpoint → Message → Option (Broker × Result Error (Unit {0}))
send_on b e m = elim (slot b e) [
  | none ↦ none
  | some (i, c) ↦
      let (c', r) = Channel.send c e.side m in
      some (record b { channels = set b.channels i (some c') }, r)
]

unfoldable pub send : Broker → ℕ → ℕ → List ℕ → Option (Broker × Result Error (Unit {0}))
send b owner handle bytes = elim (Handles.resolve b.handles owner handle write) [
  | err e ↦ some (b, err (of_handles e))
  | ok e ↦ elim (decode bytes owner) [ err e' ↦ some (b, err e') | ok m ↦ send_on b e m ]
]

unfoldable pub peek : Broker → ℕ → ℕ → Option (Result Error Message)
unfolding slot
peek b owner handle = elim (Handles.resolve b.handles owner handle read) [
  | err e ↦ some (err (of_handles e))
  | ok e ↦ elim (slot b e) [ none ↦ none | some (i, c) ↦ some (Channel.peek c e.side) ]
]

-- `consume`, once the handle is resolved.
unfoldable pub consume_on : Broker → Endpoint → Option (Broker × Result Error (Unit {0}))
consume_on b e = elim (slot b e) [
  | none ↦ none
  | some (i, c) ↦ elim (Channel.peek c e.side) [
    | err e' ↦ some (b, err e')
    | ok _ ↦ elim (Channel.pop c e.side) [
      | none ↦ none
      | some c' ↦ some (record b { channels = set b.channels i (some c') }, ok tt)
    ]
  ]
]

unfoldable pub consume : Broker → ℕ → ℕ → Option (Broker × Result Error (Unit {0}))
consume b owner handle = elim (Handles.resolve b.handles owner handle read) [
  | err e ↦ some (b, err (of_handles e))
  | ok e ↦ consume_on b e
]

-- `close`, once the handle is removed: the channel goes when both its sides are closed.
unfoldable pub close_on : Broker → Endpoint → Option Broker
close_on b e = elim (slot b e) [
  | none ↦ none
  | some (i, c) ↦
      let (c', dead) = Channel.close c e.side in
      some (record b { channels = set b.channels i (if dead then none else some c') })
]

-- `close`, on what the removal of the handle answered.
unfoldable pub close_removed :
    Broker
    → Table Endpoint × Result Handles.Error Endpoint
    → Option (Broker × Result Error (Unit {0}))
close_removed b (handles, err e) = some (record b { handles = handles }, err (of_handles e))
close_removed b (handles, ok e) = elim (close_on (record b { handles = handles }) e) [
  | none ↦ none
  | some b' ↦ some (b', ok tt)
]

unfoldable pub close : Broker → ℕ → ℕ → Option (Broker × Result Error (Unit {0}))
unfolding close_removed
close b owner handle = close_removed b (Handles.remove b.handles owner handle)

-- The loop of `close_owner`, on fuel: `none` when that runs out or the `expect` fails.
unfoldable pub close_owner_loop : ℕ → Broker → ℕ → Option Broker
close_owner_loop zero b owner = none
close_owner_loop (suc fuel) b owner = elim (Handles.first b.handles owner) [
  | none ↦ some b
  | some handle ↦ elim (close b owner handle) [
    | some (b', ok _) ↦ close_owner_loop fuel b' owner
    | _ ↦ none
  ]
]

-- An owner holds at most `HANDLES_PER_OWNER` handles.
unfoldable pub close_owner : Broker → ℕ → Option Broker
unfolding close_owner_loop
close_owner b owner = close_owner_loop (suc handles_per_owner) b owner

unfoldable pub transfer : Broker → ℕ → ℕ → ℕ → ℕ → Broker × Result Error ℕ
transfer b owner handle target rights =
    let (handles, r) = Handles.transfer handles_per_owner b.handles owner handle target rights in
    (record b { handles = handles }, map_err of_handles r)

unfoldable pub counts : Broker → ℕ × ℕ
counts b = (count (λ _. true) b.channels, Handles.count_handles b.handles)

unfoldable pub max_owner_handles : Broker → ℕ
max_owner_handles b = Handles.max_owner_count b.handles
