-- ===== src/Ipc/Abi.antt =====
-- crates/abi/src/ipc.rs: the constants and error codes of the IPC calls.
use rustic_os.Base.{ℕ, ◌+◌, ◌-◌}
use rustic_os.Base.Words.{u64_max}
use rustic_os.Handles

abbrev pub version : ℕ
version = 1

-- The opcode DATA.
abbrev pub data_code : ℕ
data_code = 1

abbrev pub header : ℕ
header = 24

abbrev pub payload_max : ℕ
payload_max = 64

abbrev pub max_message : ℕ
max_message = header + payload_max

abbrev pub read : ℕ
read = 1

abbrev pub write : ℕ
write = 2

abbrev pub transfer_right : ℕ
transfer_right = 4

-- READ | WRITE | TRANSFER
abbrev pub all : ℕ
all = 7

pub data Error : Type 0 where
  handle denied address size version_error message would_block closed cancelled quota : Error

-- The number that `code` subtracts from `u64::MAX`.
abbrev distance : Error → ℕ
distance handle = 2
distance denied = 3
distance address = 4
distance size = 5
distance version_error = 6
distance message = 7
distance would_block = 8
distance closed = 9
distance cancelled = 10
distance quota = 11

unfoldable pub code : Error → ℕ
code e = u64_max - distance e

-- `From<crate::handles::Error>`
abbrev pub of_handles : Handles.Error → Error
of_handles Handles.Error.handle = handle
of_handles Handles.Error.denied = denied
of_handles Handles.Error.quota = quota
