-- ===== src/Boot/Tests.antt =====
-- kernel/src/boot/map.rs: a map of three ranges.
use rustic_os.Base.{ℕ, ◌<◌, ◌≡◌, refl, true, false, List, [], ◌∷◌, length}
use rustic_os.Boot.{MapEntry, validate_map, validate_from, region}
use rustic_os.Boot.Layout.{Ordered, usable_sum, validate_map-Ordered}

abbrev three : List MapEntry
three = (0, 4096, false) ∷ (4096, 8192, true) ∷ (16384, 4096, true) ∷ []

validate_map-Ordered_example :
    Ordered 0 three × (12288 ≡ usable_sum three) × (◌≡◌ {A = ℕ} 3 (length three)) × (0 < 12288)
unfolding validate_map validate_from region
validate_map-Ordered_example =
    validate_map-Ordered three (record { entries = 3; usable_bytes = 12288 }) refl
