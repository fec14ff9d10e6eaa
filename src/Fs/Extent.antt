-- ===== src/Fs/Extent.antt =====
-- crates/fs/src/extent.rs: the runs of sectors of a file, and the map of free sectors.
-- A sum that can pass 64 bits wraps, as in a release build.
pub mod Runs
pub mod Accounting
pub mod Release
mod Tests
use rustic_os.Base.{
  ℕ, zero, suc, ◌+◌, ◌-◌, ◌*◌, ◌/◌, ◌%◌, ◌^◌, Bool, true, false, not, ◌&&◌, ◌||◌, leb, ltb, ◌==◌,
  Option, none, some, List, [], ◌∷◌, length, set, take, replicate, if◌then◌else◌, Result, ok, err,
}
use rustic_os.Base.Words.{checked_add}
use rustic_os.Memory.Bitmap.{taken, all_in, mark_run, scan}
use rustic_os.Fs.{Error, invalid, full, size}

abbrev pub max_file_v6 : ℕ
max_file_v6 = 256 * 1024

abbrev pub data_bytes_v6 : ℕ
data_bytes_v6 = 64 * 1024 * 1024

abbrev pub sector_bytes : ℕ
sector_bytes = 512

abbrev pub data_sectors : ℕ
data_sectors = 131072

abbrev pub map_words : ℕ
map_words = 2048

abbrev pub extents_per_file : ℕ
extents_per_file = 8

abbrev pub file_sectors_max : ℕ
file_sectors_max = 512

pub record Extent : Type 0 where
  pub start : ℕ
  pub sectors : ℕ

unfoldable pub end : Extent → ℕ
end run = (run.start + run.sectors) % 2 ^ 64

pub record Extents : Type 0 where
  pub runs : List (Option Extent)
  pub used : ℕ
  pub sectors : ℕ

unfoldable pub new : Extents
new = record { runs = replicate extents_per_file none; used = 0; sectors = 0 }

unfoldable pub push : Extents → Extent → Extents × Result Error (Unit {0})
push e run =
    if run.sectors == 0
    then (e, err invalid)
    else if e.used == extents_per_file
    then (e, err full)
    else elim (checked_add e.sectors run.sectors) [
      | none ↦ (e, err size)
      | some total ↦ if ltb file_sectors_max total then (e, err size) else (
        record { runs = set e.runs e.used (some run); used = e.used + 1; sectors = total },
        ok tt,
      )
    ]

-- `filter_map(|run| *run)`
abbrev pub present : List (Option Extent) → List Extent
present [] = []
present (none ∷ rest) = present rest
present (some run ∷ rest) = run ∷ present rest

unfoldable pub runs_of : Extents → List Extent
runs_of e = present (take e.used e.runs)

unfoldable pub bytes : Extents → ℕ
bytes e = e.sectors * sector_bytes

-- The loop of `offset_of`.
abbrev pub bytes_of : List Extent → ℕ
bytes_of [] = 0
bytes_of (run ∷ rest) = run.sectors * sector_bytes + bytes_of rest

unfoldable pub offset_of : Extents → ℕ → Option ℕ
offset_of e index = if leb e.used index then none else some (bytes_of (present (take index e.runs)))

-- `words` is the storage that the caller lends.
pub record FreeSpace : Type 0 where
  pub words : List ℕ
  pub free : ℕ

-- `count_zeros` of a word, on its `n` low bits.
unfoldable pub count_zeros : ℕ → ℕ → ℕ
count_zeros zero w = 0
count_zeros (suc n) w = (1 - w % 2) + count_zeros n (w / 2)

unfoldable pub count_free : List ℕ → ℕ
unfolding count_zeros
count_free [] = 0
count_free (w ∷ rest) = count_zeros 64 w + count_free rest

unfoldable pub open_map : List ℕ → Result Error FreeSpace
open_map words =
    if not (length words == map_words)
    then err size
    else ok (record { words = words; free = count_free words })

unfoldable pub fill : FreeSpace → FreeSpace
fill f = record { words = replicate (length f.words) (2 ^ 64 - 1); free = 0 }

unfoldable pub allocate : FreeSpace → ℕ → FreeSpace × Result Error Extent
allocate f sectors =
    if (sectors == 0) || ltb file_sectors_max sectors
    then (f, err size)
    else if ltb f.free sectors
    then (f, err full)
    else elim (scan data_sectors (λ sector. not (taken f.words sector)) sectors 0 0) [
      | none ↦ (f, err full)
      | some start ↦ (
        record { words = mark_run f.words start sectors true; free = f.free - sectors },
        ok (record { start = start; sectors = sectors }),
      )
    ]

-- `run.start..run.end()` is empty when the end lies before the start.
unfoldable pub release : FreeSpace → Extent → FreeSpace × Result Error (Unit {0})
release f run =
    if (run.sectors == 0) || ltb data_sectors (end run)
    then (f, err invalid)
    else if not (all_in (taken f.words) run.start (end run - run.start))
    then (f, err invalid)
    else (
      record {
        words = mark_run f.words run.start (end run - run.start) false;
        free = (f.free + run.sectors) % 2 ^ 64;
      },
      ok tt,
    )
