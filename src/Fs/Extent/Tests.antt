-- ===== src/Fs/Extent/Tests.antt =====
-- An empty file and an empty region, and the theorems there.
use rustic_os.Base.{ℕ, ◌≡◌, refl, List, replicate, ok}
use rustic_os.Memory.Bitmap.{taken, scan}
use rustic_os.Fs.Extent.{
  Extent, new, push, FreeSpace, open_map, count_free, allocate, release, map_words,
}
use rustic_os.Fs.Extent.Runs.{Appended, new-IsValid, push-Appended}
use rustic_os.Fs.Extent.Accounting
use rustic_os.Fs.Extent.Accounting.{open_map-IsValid, Granted, allocate-Granted, is_free}
use rustic_os.Fs.Extent.Release.{release-allocate}

abbrev run : Extent
run = record { start = 9; sectors = 4 }

push-run : (push new run).1 ≡ ok tt
unfolding push new
push-run = refl

push-Appended_example : Appended new run (push new run).0
push-Appended_example = push-Appended new run new-IsValid push-run

abbrev zeros : List ℕ
zeros = replicate map_words 0

abbrev region : FreeSpace
region = record { words = zeros; free = 131072 }

open_map-zeros : open_map zeros ≡ ok region
unfolding open_map count_free
open_map-zeros = refl

region-IsValid : Accounting.IsValid region
region-IsValid = (open_map-IsValid zeros region open_map-zeros).1

abbrev first_run : Extent
first_run = record { start = 0; sectors = 3 }

allocate-region : (allocate region 3).1 ≡ ok first_run
unfolding allocate scan taken
allocate-region = refl

allocate-Granted_example : Granted region 3 first_run (allocate region 3).0
allocate-Granted_example = allocate-Granted region 3 first_run region-IsValid allocate-region

release-allocate_example :
    ((release (allocate region 3).0 first_run).1 ≡ ok tt)
    × ((release (allocate region 3).0 first_run).0.free ≡ 131072)
    × ((k : ℕ) → is_free (release (allocate region 3).0 first_run).0 k ≡ is_free region k)
release-allocate_example = release-allocate region 3 first_run region-IsValid allocate-region
