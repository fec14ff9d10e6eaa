-- ===== src/Block/Abi.antt =====
-- crates/abi/src/block: constants, operations, results and error codes of the block calls.
use rustic_os.Base.{
  ℕ, ◌-◌, ◌^◌, ◌≤◌, ◌≡◌, refl, Bool, true, false, List, arith, if◌then◌else◌, ltb, ◌==◌, Result, ok,
  err,
}
use rustic_os.Base.Words.{u64_max}
use rustic_os.Handles

abbrev pub read_right : ℕ
read_right = 1

abbrev pub write_right : ℕ
write_right = 2

abbrev pub flush_right : ℕ
flush_right = 4

-- READ | WRITE | FLUSH
abbrev pub all : ℕ
all = 7

abbrev pub sector_size : ℕ
sector_size = 512

abbrev pub max_id : ℕ
max_id = 2 ^ 56 - 1

pub data Operation : Type 0 where
  read write flush : Operation

abbrev pub right : Operation → ℕ
right read = read_right
right write = write_right
right flush = flush_right

abbrev pub is_read : Operation → Bool
is_read read = true
is_read _ = false

abbrev pub is_flush : Operation → Bool
is_flush flush = true
is_flush _ = false

pub data Status : Type 0 where
  success cancelled io timeout protocol_failed unavailable : Status

abbrev pub is_success : Status → Bool
is_success success = true
is_success _ = false

abbrev pub is_unavailable : Status → Bool
is_unavailable unavailable = true
is_unavailable _ = false

pub data Effect : Type 0 where
  no_effect completed unknown : Effect

pub record Completion : Type 0 where
  pub id : ℕ
  pub operation : Operation
  pub status : Status
  pub effect : Effect
  pub bytes : List ℕ

pub data Error : Type 0 where
  handle denied address size version request busy quota range read_only device_unavailable : Error
  no_request would_block protocol : Error

-- The discriminant of an error.
abbrev pub number : Error → ℕ
number handle = 0
number denied = 1
number address = 2
number size = 3
number version = 4
number request = 5
number busy = 6
number quota = 7
number range = 8
number read_only = 9
number device_unavailable = 10
number no_request = 11
number would_block = 12
number protocol = 13

unfoldable pub code : Error → ℕ
code e = u64_max - 32 - number e

-- `Error::decode`: the loop over the errors, each compared with the value.
unfoldable pub decode : ℕ → Result Error ℕ
unfolding code
decode value =
    if value == code handle
    then err handle
    else if value == code denied
    then err denied
    else if value == code address
    then err address
    else if value == code size
    then err size
    else if value == code version
    then err version
    else if value == code request
    then err request
    else if value == code busy
    then err busy
    else if value == code quota
    then err quota
    else if value == code range
    then err range
    else if value == code read_only
    then err read_only
    else if value == code device_unavailable
    then err device_unavailable
    else if value == code no_request
    then err no_request
    else if value == code would_block
    then err would_block
    else if value == code protocol
    then err protocol
    else if ltb max_id value
    then err protocol
    else ok value

-- `From<crate::handles::Error>`
abbrev pub of_handles : Handles.Error → Error
of_handles Handles.Error.handle = handle
of_handles Handles.Error.denied = denied
of_handles Handles.Error.quota = quota

-- Every error comes back from its code.
pub decode-code : (e : Error) → decode (code e) ≡ err e
unfolding decode
decode-code handle = refl
decode-code e = refl

-- Every id or count up to `MAX_ID` comes back as itself, and is no error.
pub decode-value : (n : ℕ) → n ≤ max_id → decode n ≡ ok n
unfolding decode
decode-value n h = ground arith
