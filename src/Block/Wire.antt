-- ===== src/Block/Wire.antt =====
-- crates/abi/src/block/request.rs, geometry.rs and completion.rs: the records of the block calls, as the
-- bytes that cross between a program and the kernel.
use rustic_os.Base.{
  ℕ, ◌+◌, ◌-◌, Bool, true, false, not, ◌&&◌, ◌||◌, ltb, ◌==◌, List, ◌++◌, length, take, drop,
  replicate, bit_and, if◌then◌else◌, Result, ok, err, ◌>>=◌, ◌>>◌, refuse_if,
}
use rustic_os.Base.Bytes.{le, slice, u16_at, u32_at, u64_at, any_nonzero}
use rustic_os.Base.Bits.{complement}
use rustic_os.Block.Abi.{
  Operation, Error, Status, Effect, Completion, all, sector_size, max_id, is_read, is_flush,
  is_success, is_unavailable,
}
pub mod RoundTrip

abbrev pub version : ℕ
version = 1

abbrev pub request_bytes : ℕ
request_bytes = 32

abbrev pub geometry_bytes : ℕ
geometry_bytes = 32

abbrev pub result_bytes : ℕ
result_bytes = 32 + sector_size

-- The number of an operation, and `Operation::parse`.
abbrev pub operation_number : Operation → ℕ
operation_number Operation.read = 1
operation_number Operation.write = 2
operation_number Operation.flush = 3

unfoldable pub parse_operation : ℕ → Result Error Operation
parse_operation value =
    if value == 1
    then ok Operation.read
    else if value == 2
    then ok Operation.write
    else if value == 3
    then ok Operation.flush
    else err Error.request

pub record Request : Type 0 where
  pub operation : Operation
  pub sector : ℕ
  pub address : ℕ
  pub length_of : ℕ

-- The final checks of `Request::decode`, by the operation.
unfoldable pub check_request : Request → Result Error Request
check_request r =
    if is_flush r.operation
    then if not (r.sector == 0) || not (r.address == 0) || not (r.length_of == 0)
      then err Error.request
      else ok r
    else if not (r.length_of == sector_size)
    then err Error.size
    else if is_read r.operation && not (r.address == 0)
    then err Error.request
    else ok r

unfoldable pub decode_request : List ℕ → Result Error Request
unfolding parse_operation check_request
decode_request bytes = do
  refuse_if (not (length bytes == request_bytes)) Error.size
  refuse_if (not (u16_at bytes 0 == version)) Error.version
  refuse_if (not (u32_at bytes 4 == 0) || not (u32_at bytes 28 == 0)) Error.request
  operation ← parse_operation (u16_at bytes 2)
  check_request (record {
    operation = operation;
    sector = u64_at bytes 8;
    address = u64_at bytes 16;
    length_of = u32_at bytes 24;
  })

unfoldable pub encode_request : Request → List ℕ
encode_request r =
    le 2 version
    ++ (le 2 (operation_number r.operation)
        ++ (le 4 0 ++ (le 8 r.sector ++ (le 8 r.address ++ (le 4 r.length_of ++ le 4 0)))))

pub record Geometry : Type 0 where
  pub sectors : ℕ
  pub rights : ℕ
  pub read_only : Bool

unfoldable pub encode_geometry : Geometry → List ℕ
encode_geometry g =
    le 2 version
    ++ (le 2 geometry_bytes
        ++ (le 4 g.rights
            ++ (le 8 g.sectors
                ++ (le 4 sector_size
                    ++ (le 4 sector_size ++ (le 4 (if g.read_only then 1 else 0) ++ le 4 0))))))

unfoldable pub decode_geometry : List ℕ → Result Error Geometry
decode_geometry bytes = do
  refuse_if (not (length bytes == geometry_bytes)) Error.size
  refuse_if (not (u16_at bytes 0 == version)) Error.version
  refuse_if
      (not (u16_at bytes 2 == geometry_bytes)
        || (u32_at bytes 4 == 0)
        || not (bit_and (u32_at bytes 4) (complement 32 all) == 0)
        || (u64_at bytes 8 == 0)
        || not (u32_at bytes 16 == sector_size)
        || not (u32_at bytes 20 == sector_size)
        || ltb 1 (u32_at bytes 24)
        || not (u32_at bytes 28 == 0))
      Error.protocol
  ok (record {
    sectors = u64_at bytes 8;
    rights = u32_at bytes 4;
    read_only = not (u32_at bytes 24 == 0);
  })

abbrev pub status_number : Status → ℕ
status_number Status.success = 0
status_number Status.cancelled = 1
status_number Status.io = 2
status_number Status.timeout = 3
status_number Status.protocol_failed = 4
status_number Status.unavailable = 5

unfoldable pub parse_status : ℕ → Result Error Status
parse_status n =
    if n == 0
    then ok Status.success
    else if n == 1
    then ok Status.cancelled
    else if n == 2
    then ok Status.io
    else if n == 3
    then ok Status.timeout
    else if n == 4
    then ok Status.protocol_failed
    else if n == 5
    then ok Status.unavailable
    else err Error.protocol

abbrev pub effect_number : Effect → ℕ
effect_number Effect.no_effect = 0
effect_number Effect.completed = 1
effect_number Effect.unknown = 2

unfoldable pub parse_effect : ℕ → Result Error Effect
parse_effect n =
    if n == 0
    then ok Effect.no_effect
    else if n == 1
    then ok Effect.completed
    else if n == 2
    then ok Effect.unknown
    else err Error.protocol

-- `Completion::length`
abbrev pub data_length : Operation → Status → ℕ
data_length operation status = if is_success status && is_read operation then sector_size else 0

abbrev pub is_cancelled : Status → Bool
is_cancelled Status.cancelled = true
is_cancelled _ = false

-- The one effect that a completion of this operation with this status may have.
abbrev pub expected_effect : Operation → Status → ℕ
expected_effect operation status =
    if is_read operation || is_cancelled status || is_unavailable status
    then 0
    else if is_success status
    then 1
    else 2

unfoldable pub encode_completion : Completion → List ℕ
encode_completion c =
    let n = data_length c.operation c.status in
    le 2 version
    ++ (le 2 (operation_number c.operation)
        ++ (le 4 (status_number c.status)
            ++ (le 8 c.id
                ++ (le 4 n
                    ++ (le 4 (effect_number c.effect)
                        ++ (le 8 0 ++ (take n c.bytes ++ replicate (sector_size - n) 0)))))))

unfoldable pub decode_completion : List ℕ → Result Error Completion
unfolding parse_operation parse_status parse_effect
decode_completion bytes = do
  refuse_if (not (length bytes == result_bytes)) Error.size
  refuse_if (not (u16_at bytes 0 == version)) Error.version
  operation ← parse_operation (u16_at bytes 2)
  status ← parse_status (u32_at bytes 4)
  effect ← parse_effect (u32_at bytes 20)
  refuse_if
      ((u64_at bytes 8 == 0)
        || ltb max_id (u64_at bytes 8)
        || not (u32_at bytes 16 == data_length operation status)
        || not (u64_at bytes 24 == 0)
        || any_nonzero (drop (32 + data_length operation status) bytes)
        || not (effect_number effect == expected_effect operation status))
      Error.protocol
  ok (record {
    id = u64_at bytes 8;
    operation = operation;
    status = status;
    effect = effect;
    bytes =
        slice 32 (data_length operation status) bytes
        ++ replicate (sector_size - data_length operation status) 0;
  })
