-- ===== src/Ipc/Wire.antt =====
-- One message on its way from a program to a program: crates/sdk/src/ipc/message.rs on both ends and
-- kernel/src/ipc/message.rs between them.
use rustic_os.Base.{
  ℕ, Bool-cases, inl, inr, le→ltb_false, le→leb, ==_iff, ◌+◌, ◌-◌, ◌^◌, ◌≤◌, ◌<◌, ◌≡◌, refl, sym,
  ◌∙◌, ◌≢◌, true, List, ◌++◌, ◌==◌, leb, length, take, drop, replicate, take-append, ok, arith,
}
use rustic_os.Base.Bytes.{
  le, from_le, u16_at, u32_at, u64_at, any_nonzero, from_le-zeros, from_le-le,
}
use rustic_os.Ipc.Abi.{version, data_code, header, payload_max, max_message}
use rustic_os.Ipc.Message.{Message, padded, decode, encode, message_length}
use rustic_os.Ipc.Sdk

-- The bytes of a message on the wire.
abbrev pub frame : ℕ → ℕ → List ℕ → List ℕ
frame correlation sender payload =
    le 2 version
    ++ (le 2 data_code ++ (le 4 (length payload) ++ (le 8 correlation ++ (le 8 sender ++ payload))))

-- A field of `k` bytes at a numeral offset is read back as it was written.
read_u64 : (n : ℕ) → n < 2 ^ 64 → from_le (le 8 n) ≡ n
read_u64 n h = from_le-le 8 n h

read_u32 : (n : ℕ) → n ≤ 64 → from_le (le 4 n) ≡ n
read_u32 n h = from_le-le 4 n (omega arith)

pub take-padded : (n k : ℕ) (xs : List ℕ) → k ≡ length xs → take k (padded n xs) ≡ xs
take-padded n k xs h = take-append xs (replicate (n - length xs) 0) k h

-- The program's side: what `new` accepts goes on the wire as a frame with no sender.
wire-new :
    (correlation : ℕ) (payload : List ℕ)
    → length payload ≤ 64
    → (m : Sdk.Message) × (Sdk.new correlation payload ≡ ok m)
      × (Sdk.wire m ≡ frame correlation 0 payload)
unfolding Sdk.new Sdk.wire
wire-new correlation payload h = (
  record {
    bytes = padded max_message (frame correlation 0 payload);
    length_of = header + length payload;
  },
  rw (le→ltb_false payload_max (length payload) h),
  take-padded max_message (header + length payload) (frame correlation 0 payload) (omega arith),
)

-- The kernel's copy of a frame.
abbrev stamped : ℕ → ℕ → List ℕ → Message
stamped correlation sender payload = record {
  correlation = correlation;
  sender = sender;
  payload = padded payload_max payload;
  len = length payload;
}

decode-frame :
    (correlation sender : ℕ) (payload : List ℕ)
    → correlation < 2 ^ 64
    → length payload ≤ 64
    → decode (frame correlation 0 payload) sender ≡ ok (stamped correlation sender payload)
unfolding decode any_nonzero
decode-frame correlation sender payload hc hp =
    let long : leb header (length (frame correlation 0 payload)) ≡ true =
      le→leb _ _ (omega arith) in
    let short : leb (length (frame correlation 0 payload)) max_message ≡ true =
      le→leb _ _ (omega arith) in
    let whole : (length (frame correlation 0 payload) == header + length payload) ≡ true =
      (==_iff _ _).1 (omega arith) in
    rw (
      long,
      short,
      read_u32 (length payload) hp,
      le→ltb_false payload_max (length payload) hp,
      whole,
      read_u64 correlation hc,
    )

encode-stamped :
    (correlation sender : ℕ) (payload : List ℕ)
    → length payload ≤ 64
    → take
        (message_length (stamped correlation sender payload))
        (encode (stamped correlation sender payload))
      ≡ frame correlation sender payload
unfolding encode
encode-stamped correlation sender payload hp =
    rw (take-padded payload_max (length payload) payload refl) (
      take-padded max_message (header + length payload) (frame correlation sender payload)
        (omega arith))

-- A sender id that is not zero shows in its eight bytes.
nonzero_bytes : (n : ℕ) → n < 2 ^ 64 → n ≢ 0 → any_nonzero (le 8 n) ≡ true
nonzero_bytes n h ne = elim (Bool-cases (any_nonzero (le 8 n))) [
  | inl t ↦ t
  | inr f ↦ absurd (ne (sym (read_u64 n h) ∙ from_le-zeros (le 8 n) f))
]

from_received-frame :
    (correlation sender : ℕ) (payload : List ℕ)
    → correlation < 2 ^ 64
    → sender < 2 ^ 64
    → sender ≢ 0
    → length payload ≤ 64
    → Sdk.from_received (frame correlation sender payload)
      ≡ ok (record {
        bytes = padded max_message (frame correlation sender payload);
        length_of = header + length payload;
      })
unfolding Sdk.from_received
from_received-frame correlation sender payload hc hs ne hp =
    let long : leb header (length (frame correlation sender payload)) ≡ true =
      le→leb _ _ (omega arith) in
    let short : leb (length (frame correlation sender payload)) max_message ≡ true =
      le→leb _ _ (omega arith) in
    let whole : (length payload == length (frame correlation sender payload) - header) ≡ true =
      (==_iff _ _).1 (omega arith) in
    rw (
      long,
      short,
      read_u32 (length payload) hp,
      whole,
      nonzero_bytes sender hs ne,
      read_u64 correlation hc,
      le→ltb_false payload_max (length payload) hp,
    )

-- A payload of at most 64 bytes, with a correlation and a nonzero sender of 64 bits, that a program sends arrives whole: the kernel accepts what the
-- SDK puts on the wire, and what the receiver decodes has the sender's correlation and payload and
-- the identity that the kernel gave, whatever the program had written there.
pub delivered :
    (correlation sender : ℕ) (payload : List ℕ)
    → correlation < 2 ^ 64
    → sender < 2 ^ 64
    → sender ≢ 0
    → length payload ≤ 64
    → (m : Sdk.Message) × (k : Message) × (r : Sdk.Message) × (Sdk.new correlation payload ≡ ok m)
      × (decode (Sdk.wire m) sender ≡ ok k)
      × (Sdk.from_received (take (message_length k) (encode k)) ≡ ok r)
      × (Sdk.correlation r ≡ correlation)
      × (Sdk.sender r ≡ sender)
      × (Sdk.payload r ≡ payload)
unfolding Sdk.correlation Sdk.sender Sdk.payload
delivered correlation sender payload hc hs ne hp =
    let (m, made, on_wire) = wire-new correlation payload hp in
    (
      m,
      stamped correlation sender payload,
      record {
        bytes = padded max_message (frame correlation sender payload);
        length_of = header + length payload;
      },
      made,
      rw on_wire (decode-frame correlation sender payload hc hp),
      rw (encode-stamped correlation sender payload hp)
          (from_received-frame correlation sender payload hc hs ne hp),
      read_u64 correlation hc,
      read_u64 sender hs,
      take-append payload (replicate (max_message - length (frame correlation sender payload)) 0)
          (header + length payload - header) (omega arith),
    )

-- What an accepted message tells of the bytes that it was decoded from.
pub record Accepted (bytes : List ℕ) (sender : ℕ) (m : Message) : Type 0 where
  pub version_ok : u16_at bytes 0 ≡ version
  pub code_ok : u16_at bytes 2 ≡ data_code
  pub small : m.len ≤ payload_max
  pub whole : length bytes ≡ header + m.len
  pub len_read : m.len ≡ u32_at bytes 4
  pub correlation_read : m.correlation ≡ u64_at bytes 8
  pub from : m.sender ≡ sender
  pub payload_read : m.payload ≡ padded payload_max (drop header bytes)

pub accepted :
    (bytes : List ℕ) (sender : ℕ) (m : Message)
    → decode bytes sender ≡ ok m
    → Accepted bytes sender m
unfolding decode
accepted bytes sender m h = ground arith
