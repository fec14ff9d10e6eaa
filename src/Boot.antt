-- ===== src/Boot.antt =====
-- kernel/src/boot/region.rs and map.rs: ranges of physical memory, and the firmware's map of them.
use rustic_os.Base.{
  ℕ, ◌+◌, ◌≤◌, ◌<◌, ◌≡◌, refl, Bool, true, false, ◌&&◌, leb, ltb, ◌==◌, Option, none, some, List,
  [], ◌∷◌, if◌then◌else◌, Result, ok, err,
}
use rustic_os.Base.Words.{checked_add}
pub mod Layout
mod Tests

pub record MemoryRegion : Type 0 where
  pub start : ℕ
  pub end : ℕ

pub data RegionError : Type 0 where
  empty address_overflow : RegionError

unfoldable pub region : ℕ → ℕ → Result RegionError MemoryRegion
region start length = if length == 0 then err empty else elim (checked_add start length) [
  | some end ↦ ok (record { start = start; end = end })
  | none ↦ err address_overflow
]

unfoldable pub contains : MemoryRegion → ℕ → Bool
contains r address = leb r.start address && ltb address r.end

unfoldable pub overlaps : MemoryRegion → MemoryRegion → Bool
overlaps r s = ltb r.start s.end && ltb s.start r.end

pub data MapError : Type 0 where
  invalid_range unordered_or_overlapping too_many_entries no_usable_memory : MapError

pub record MapSummary : Type 0 where
  pub entries : ℕ
  pub usable_bytes : ℕ

-- An entry of the map: its base, its length and whether it is usable.
abbrev pub MapEntry : Type 0
MapEntry = ℕ × ℕ × Bool

abbrev pub usable_length : ℕ → Bool → ℕ
usable_length length usable = if usable then length else 0

-- `checked_add` of the length of a usable entry.
abbrev pub add_usable : ℕ → ℕ → Bool → Option ℕ
add_usable bytes length true = checked_add bytes length
add_usable bytes length false = some bytes

-- The loop of `validate_map` on the entries that are left.
unfoldable pub validate_from : MapSummary → ℕ → List MapEntry → Result MapError MapSummary
unfolding region
validate_from s previous_end [] = ok s
validate_from s previous_end ((base, length, usable) ∷ rest) =
    if s.entries == 4096 then err too_many_entries else elim (region base length) [
      | err _ ↦ err invalid_range
      | ok r ↦
          if ltb base previous_end
          then err unordered_or_overlapping
          else elim (add_usable s.usable_bytes length usable) [
            | none ↦ err invalid_range
            | some bytes ↦
                validate_from (record { entries = s.entries + 1; usable_bytes = bytes }) r.end rest
          ]
    ]

unfoldable pub validate_map : List MapEntry → Result MapError MapSummary
unfolding validate_from
validate_map entries = elim (validate_from (record { entries = 0; usable_bytes = 0 }) 0 entries) [
  | err e ↦ err e
  | ok s ↦ if s.usable_bytes == 0 then err no_usable_memory else ok s
]
