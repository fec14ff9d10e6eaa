-- ===== src/Boot/Layout.antt =====
-- kernel/src/boot/map.rs: what an accepted map looks like.
use rustic_os.Base.{
  ℕ, ◌+◌, ◌≤◌, ◌<◌, ◌^◌, ◌≡◌, arith, Bool, true, false, List, [], ◌∷◌, length, ok, Result-cases,
  inl, inr,
}
use rustic_os.Boot.{MapEntry, MapSummary, usable_length, region, validate_from, validate_map}

-- Nonempty ranges in ascending order, each from `low` on, with no overlap and within 64 bits.
pub data Ordered : ℕ → List MapEntry → Type 0 where
  no_entries : (low : ℕ) → Ordered low []
  entry :
      (low base len : ℕ) (usable : Bool) (rest : List MapEntry)
      → low ≤ base
      → 0 < len
      → base + len < 2 ^ 64
      → Ordered (base + len) rest
      → Ordered low ((base, len, usable) ∷ rest)

unfoldable pub usable_sum : List MapEntry → ℕ
usable_sum [] = 0
usable_sum ((base, len, usable) ∷ rest) = usable_length len usable + usable_sum rest

unfoldable after_entry : MapSummary → ℕ → Bool → MapSummary
after_entry s len usable = record {
  entries = s.entries + 1;
  usable_bytes = s.usable_bytes + usable_length len usable;
}

validate_from_step :
    (s t : MapSummary) (low base len : ℕ) (usable : Bool) (rest : List MapEntry)
    → validate_from s low ((base, len, usable) ∷ rest) ≡ ok t
    → (low ≤ base)
      × (0 < len)
      × (base + len < 2 ^ 64)
      × (validate_from (after_entry s len usable) (base + len) rest ≡ ok t)
unfolding validate_from region after_entry
validate_from_step s t low base len true rest h = ground arith
validate_from_step s t low base len false rest h = ground arith

validate_from-Ordered :
    (s t : MapSummary) (low : ℕ) (entries : List MapEntry)
    → validate_from s low entries ≡ ok t
    → Ordered low entries
      × (t.usable_bytes ≡ s.usable_bytes + usable_sum entries)
      × (t.entries ≡ s.entries + length entries)
unfolding validate_from after_entry usable_sum
validate_from-Ordered s t low [] h = (no_entries low, ground arith, ground arith)
validate_from-Ordered s t low ((base, len, usable) ∷ rest) h =
    let (above, filled, ends, left) = validate_from_step s t low base len usable rest h in
    let (ordered, bytes, count) =
      validate_from-Ordered (after_entry s len usable) t (base + len) rest left in
    (
      entry low base len usable rest above filled ends ordered,
      omega (arith, bytes),
      omega (arith, count),
    )

-- A map that `validate_map` accepts has ranges that are not empty, ascend without overlap and end
-- within 64 bits; its summary counts the entries and the bytes of the usable ones, of which there are
-- some.
pub validate_map-Ordered :
    (entries : List MapEntry) (s : MapSummary)
    → validate_map entries ≡ ok s
    → Ordered 0 entries
      × (s.usable_bytes ≡ usable_sum entries)
      × (s.entries ≡ length entries)
      × (0 < s.usable_bytes)
unfolding validate_map
validate_map-Ordered entries s h =
    elim (Result-cases (validate_from (record { entries = 0; usable_bytes = 0 }) 0 entries)) [
      | inl (t, found) ↦
          let (ordered, bytes, count) =
            validate_from-Ordered (record { entries = 0; usable_bytes = 0 }) t 0 entries found in
          (ordered, ground arith, ground arith, ground arith)
      | inr (e, refused) ↦ ground arith
    ]
