-- ===== src/Ipc/Message.antt =====
-- kernel/src/ipc/message.rs: the kernel's copy of a message. A payload is an array of 64 bytes.
use rustic_os.Base.{
  ℕ, ◌+◌, ◌-◌, not, ◌&&◌, ◌||◌, List, ◌++◌, ◌==◌, ltb, leb, if◌then◌else◌, length, take, drop,
  replicate, Result, ok, err,
}
use rustic_os.Base.Bytes.{le, slice, u16_at, u32_at, u64_at, any_nonzero}
use rustic_os.Ipc.Abi.{Error, version, data_code, header, payload_max, max_message}

pub record Message : Type 0 where
  pub correlation : ℕ
  pub sender : ℕ
  pub payload : List ℕ
  pub len : ℕ

-- A fixed array that starts with these bytes and is zero beyond them.
abbrev pub padded : ℕ → List ℕ → List ℕ
padded n xs = xs ++ replicate (n - length xs) 0

unfoldable pub decode : List ℕ → ℕ → Result Error Message
decode bytes sender =
    if not (leb header (length bytes) && leb (length bytes) max_message)
    then err Error.size
    else if not (u16_at bytes 0 == version)
    then err Error.version_error
    else if not (u16_at bytes 2 == data_code) || any_nonzero (slice 16 8 bytes)
    then err Error.message
    else let len = u32_at bytes 4 in
      if ltb payload_max len || not (length bytes == header + len)
      then err Error.size
      else ok (record {
        correlation = u64_at bytes 8;
        sender = sender;
        payload = padded payload_max (drop header bytes);
        len = len;
      })

abbrev pub message_length : Message → ℕ
message_length m = header + m.len

-- The writes of `encode` fill the first `HEADER + len` bytes of a zeroed array, in order.
unfoldable pub encode : Message → List ℕ
encode m = padded max_message (
    le 2 version
    ++ (le 2 data_code
        ++ (le 4 m.len ++ (le 8 m.correlation ++ (le 8 m.sender ++ take m.len m.payload)))))
