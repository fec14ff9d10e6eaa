-- ===== src/Fs/Checksum.antt =====
-- crates/fs/src/checksum.rs: the CRC-32 of headers, nodes, records and payload.
use Prim.Native.Nat.{bit_xor}
use rustic_os.Base.{ℕ, zero, suc, ◌-◌, ◌/◌, ◌%◌, ◌^◌, List, [], ◌∷◌, ◌≡◌, refl, bit_and}
use rustic_os.Base.Bits.{complement}

-- `0u32.wrapping_sub(value & 1)` is all ones or 0.
abbrev pub crc_shift : ℕ → ℕ
crc_shift value = bit_xor (value / 2) (bit_and 0xedb88320 ((2 ^ 32 - value % 2) % 2 ^ 32))

unfoldable pub crc_bits : ℕ → ℕ → ℕ
crc_bits zero value = value
crc_bits (suc n) value = crc_bits n (crc_shift value)

unfoldable pub crc_update : ℕ → List ℕ → ℕ
unfolding crc_bits
crc_update value [] = value
crc_update value (byte ∷ rest) = crc_update (crc_bits 8 (bit_xor value byte)) rest

unfoldable pub crc : List ℕ → ℕ
unfolding crc_update
crc bytes = complement 32 (crc_update (2 ^ 32 - 1) bytes)

standard_check_value : crc (49 ∷ 50 ∷ 51 ∷ 52 ∷ 53 ∷ 54 ∷ 55 ∷ 56 ∷ 57 ∷ []) ≡ 0xcbf43926
unfolding crc
standard_check_value = refl
