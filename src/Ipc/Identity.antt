-- ===== src/Ipc/Identity.antt =====
-- The kernel names the sender: kernel/src/ipc/message.rs, `decode` and then `encode`.
use mathlib.Core.List.{append_assoc}
use mathlib.Core.Path.{ap₂}
use rustic_os.Base.{
  ℕ, ◌≡◌, sym, ap, ◌∙◌, List, ◌++◌, length, take, drop, take-add, length-drop, length-take,
  length-append, ok, arith,
}
use rustic_os.Base.Bytes.{le, slice, AreBytes, le-slice}
use rustic_os.Ipc.Abi.{version, data_code, payload_max, max_message}
use rustic_os.Ipc.Message.{Message, padded, decode, encode, message_length}
use rustic_os.Ipc.Wire.{take-padded, accepted}

-- The first four fields of a header, put together again.
header_fields :
    (bytes rest : List ℕ)
    → slice 0 2 bytes ++ (slice 2 2 bytes ++ (slice 4 4 bytes ++ (slice 8 8 bytes ++ rest)))
      ≡ take 16 bytes ++ rest
header_fields bytes rest =
    rw (take-add 8 8 bytes, take-add 4 4 bytes, take-add 2 2 bytes) (simp append_assoc)

-- What the receiver of an accepted message reads is what was sent, byte for byte, with the sender's
-- identity in the bytes from 16 to 24.
pub encode-decode :
    (bytes : List ℕ) (sender : ℕ) (m : Message)
    → AreBytes bytes
    → decode bytes sender ≡ ok m
    → take (message_length m) (encode m) ≡ take 16 bytes ++ (le 8 sender ++ drop 24 bytes)
unfolding encode
encode-decode bytes sender m hb h =
    let a = accepted bytes sender m h in
    let size : m.len ≡ length (drop 24 bytes) = omega (arith, length-drop 24 bytes, a.whole) in
    let body : take m.len m.payload ≡ drop 24 bytes =
      rw (a.payload_read) (take-padded payload_max m.len (drop 24 bytes) size) in
    let f0 : le 2 version ≡ slice 0 2 bytes =
      ap (le 2) (sym a.version_ok) ∙ le-slice 0 2 bytes hb (omega (arith, a.whole)) in
    let f1 : le 2 data_code ≡ slice 2 2 bytes =
      ap (le 2) (sym a.code_ok) ∙ le-slice 2 2 bytes hb (omega (arith, a.whole)) in
    let f2 : le 4 m.len ≡ slice 4 4 bytes =
      ap (le 4) a.len_read ∙ le-slice 4 4 bytes hb (omega (arith, a.whole)) in
    let f3 : le 8 m.correlation ≡ slice 8 8 bytes =
      ap (le 8) a.correlation_read ∙ le-slice 8 8 bytes hb (omega (arith, a.whole)) in
    let rest = le 8 sender ++ drop 24 bytes in
    let f4 : le 8 m.sender ++ take m.len m.payload ≡ rest = ap₂ ◌++◌ (ap (le 8) a.from) body in
    let joined : le 2 version
          ++ (le 2 data_code
              ++ (le 4 m.len ++ (le 8 m.correlation ++ (le 8 m.sender ++ take m.len m.payload))))
        ≡ take 16 bytes ++ rest =
      ap₂ ◌++◌ f0 (ap₂ ◌++◌ f1 (ap₂ ◌++◌ f2 (ap₂ ◌++◌ f3 f4))) ∙ header_fields bytes rest in
    let long : message_length m ≡ length (take 16 bytes ++ rest) = omega (
      arith,
      length-append (take 16 bytes) rest,
      length-take 16 bytes,
      length-drop 24 bytes,
      a.whole,
    ) in
    ap (λ xs. take (message_length m) (padded max_message xs)) joined
    ∙ (take-padded max_message (message_length m) (take 16 bytes ++ rest) long)
