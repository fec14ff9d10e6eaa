-- ===== src/Ipc/Sdk.antt =====
-- crates/sdk/src/ipc/message.rs: a program's own storage for a message, 88 bytes and a length.
use rustic_os.Base.{
  ℕ, ◌+◌, ◌-◌, not, ◌&&◌, ◌||◌, List, ◌++◌, ◌==◌, ltb, leb, if◌then◌else◌, length, take, drop,
  replicate, Result, ok, err, ◌>>=◌,
}
use rustic_os.Base.Bytes.{le, slice, u16_at, u32_at, u64_at, any_nonzero, write_at}
use rustic_os.Ipc.Abi
use rustic_os.Ipc.Abi.{version, data_code, header, payload_max, max_message}
use rustic_os.Ipc.Message.{padded}

-- The errors of the SDK that these functions return.
pub data Error : Type 0 where
  ipc : Abi.Error → Error
  protocol : Error

pub record Message : Type 0 where
  pub bytes : List ℕ
  pub length_of : ℕ

unfoldable pub new : ℕ → List ℕ → Result Error Message
new correlation payload =
    if ltb payload_max (length payload)
    then err (ipc Abi.Error.size)
    else ok (record {
      bytes = padded max_message (
          le 2 version
          ++ (le 2 data_code
              ++ (le 4 (length payload) ++ (le 8 correlation ++ (replicate 8 0 ++ payload)))));
      length_of = header + length payload;
    })

unfoldable pub from_received : List ℕ → Result Error Message
unfolding new
from_received bytes =
    if not (leb header (length bytes) && leb (length bytes) max_message)
    then err protocol
    else if not (u16_at bytes 0 == version)
        || not (u16_at bytes 2 == data_code)
        || not (u32_at bytes 4 == length bytes - header)
        || not (any_nonzero (slice 16 8 bytes))
    then err protocol
    else do
      m ← new (u64_at bytes 8) (drop 24 bytes)
      ok (record m { bytes = write_at 16 (slice 16 8 bytes) m.bytes })

unfoldable pub correlation : Message → ℕ
correlation m = u64_at m.bytes 8

unfoldable pub sender : Message → ℕ
sender m = u64_at m.bytes 16

unfoldable pub payload : Message → List ℕ
payload m = slice header (m.length_of - header) m.bytes

unfoldable pub wire : Message → List ℕ
wire m = take m.length_of m.bytes
