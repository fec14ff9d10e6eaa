-- ===== src/Block/Tests.antt =====
-- kernel/src/block: a device of 100 sectors, of which owner 5 has ten.
use rustic_os.Base.{arith, ok, ℕ, ◌≤◌, ◌≡◌, refl, false, some, [], replicate}
use rustic_os.Base.Slots.{first_free, find_slot, count}
use rustic_os.Handles
use rustic_os.Block.Abi.{write, success}
use rustic_os.Block.Broker.{
  Broker, Request, Pending, Geometry, Grant, grant, admit, start, finish, cancel, validate, check,
  sector_of, oldest, active_id, is_queued,
}
use rustic_os.Block.Broker.Invariant.{IsValid}
use rustic_os.Block.Broker.Runs.{
  Reached, opened, granted, admitted, started, reached-IsValid, Started, start-oldest,
}
use rustic_os.Block.Broker.Answer.{Answered, at_once, called_off, finish-start}
use rustic_os.Block.Budget
use rustic_os.Block.Broker
use rustic_os.Block.Wire
use rustic_os.Block.Wire.RoundTrip.{decode_request-encode_request}
use rustic_os.Block.Budget.{pending_at, stalled_limit, stalled-expires}

abbrev device : Geometry
device = record { sectors = 100; read_only = false }

abbrev range : Grant
range = record { first = 20; sectors = 10; rights = 3 }

abbrev with_grant : Broker
with_grant = (grant Broker.new 5 range 100).0

abbrev handle : ℕ
handle = 72057594037927937

abbrev asked : Broker
asked = (admit with_grant 5 handle write 4 (replicate 512 7) device).0

abbrev at_device : Broker
at_device = (start asked).0

asked-Reached : Reached asked
asked-Reached =
    admitted with_grant 5 handle write 4 (replicate 512 7) device
      (granted Broker.new 5 range 100 opened)

reached-IsValid_example : IsValid at_device
reached-IsValid_example = reached-IsValid at_device (started asked asked-Reached)

abbrev first_pending : Pending
first_pending = record {
  owner = 5;
  id = 1;
  operation = write;
  sector = 24;
  bytes = replicate 512 7;
}

start-oldest_example : Started asked first_pending at_device
unfolding start oldest admit check sector_of validate grant Broker.new Handles.new Handles.grant
    Handles.room Handles.resolve Handles.index count first_free find_slot
start-oldest_example = start-oldest asked first_pending refl

-- The owner tries to cancel its write while it is at the device.
abbrev too_late : Broker
too_late = (cancel at_device 5 handle 1).0

finish-start_example :
    (d : Broker) × (finish too_late 1 success [] ≡ some d)
    × Answered first_pending success [] too_late d
unfolding start oldest admit check sector_of validate grant Broker.new Handles.new Handles.grant
    Handles.room Handles.resolve Handles.index count first_free find_slot
finish-start_example =
    finish-start asked too_late first_pending success [] refl
      (called_off at_device 5 handle 1 at_once)

stalled-expires_example : pending_at 6000000 (Budget.new 10) 10 ≤ stalled_limit
stalled-expires_example = stalled-expires 6000000 (Budget.new 10) 10

-- A write of sector 4 from address 4096.
abbrev write_request : Wire.Request
write_request = record { operation = write; sector = 4; address = 4096; length_of = 512 }

decode_request-encode_request_example :
    Wire.decode_request (Wire.encode_request write_request) ≡ ok write_request
unfolding Wire.check_request
decode_request-encode_request_example =
    decode_request-encode_request write_request (omega arith) (omega arith) (omega arith) refl
