-- ===== src/Memory/Frames.antt =====
-- kernel/src/memory/frames.rs: the frames of physical memory that are managed, and of these the ones
-- that are allocated.
pub mod Contiguous
use rustic_os.Base.{
  ℕ, zero, suc, ◌+◌, ◌-◌, ◌*◌, ◌/◌, ◌%◌, ◌^◌, min, bit_and, bit_or, Bool, true, false, not, ◌&&◌,
  ◌||◌, leb, ltb, ◌==◌, Option, none, some, List, [], ◌∷◌, get_or, set, length, replicate,
  if◌then◌else◌, Result, ok, err, is_ok,
}
use rustic_os.Base.Bits.{complement}
use rustic_os.Base.Words.{checked_add, keep_if}
use rustic_os.Boot.{MapEntry, validate_map}
use rustic_os.Memory.Page.{page_size}
use rustic_os.Memory.Bitmap.{scan, taken, mark, all_in, mark_run}

pub data FrameError : Type 0 where
  invalid_map invalid_storage address_limit invalid_range not_managed not_allocated : FrameError
  in_use exhausted : FrameError

pub record FrameAllocator : Type 0 where
  pub managed : List ℕ
  pub allocated : List ℕ
  pub free : ℕ
  pub total : ℕ
  pub cursor : ℕ

unfoldable pub new : List ℕ → List ℕ → Result FrameError FrameAllocator
new managed allocated =
    if (length managed == 0) || not (length managed == length allocated)
    then err invalid_storage
    else ok (record {
      managed = replicate (length managed) 0;
      allocated = replicate (length allocated) 0;
      free = 0;
      total = 0;
      cursor = 0;
    })

abbrev pub frames : FrameAllocator → ℕ
frames a = length a.managed * 64

unfoldable pub address_bound : FrameAllocator → ℕ
address_bound a = frames a * page_size

-- `n.div_ceil(PAGE_SIZE)`
abbrev pub pages_up : ℕ → ℕ
pages_up n = (n + (page_size - 1)) / page_size

abbrev pub past : Option ℕ → ℕ → Bool
past none limit = true
past (some end) limit = ltb limit end

unfoldable pub beyond : ℕ → List MapEntry → Bool
beyond limit [] = false
beyond limit ((start, len, usable) ∷ rest) =
    (usable && past (checked_add start len) limit) || beyond limit rest

-- `import` of one usable entry, and of all entries.
unfoldable pub import_entry : FrameAllocator → MapEntry → FrameAllocator
import_entry a (start, len, false) = a
import_entry a (start, len, true) =
    let first = pages_up start in
    let count = (start + len) / page_size - first in
    record a {
      managed = mark_run a.managed first count true;
      free = a.free + count;
      total = a.total + count;
    }

unfoldable pub import_all : FrameAllocator → List MapEntry → FrameAllocator
import_all a [] = a
import_all a (e ∷ rest) = import_all (import_entry a e) rest

unfoldable pub import_map :
    FrameAllocator → List MapEntry → FrameAllocator × Result FrameError (Unit {0})
unfolding import_all
import_map a entries =
    if not (a.total == 0)
    then (a, err in_use)
    else if not (is_ok (validate_map entries))
    then (a, err invalid_map)
    else if beyond (address_bound a) entries
    then (a, err address_limit)
    else (import_all a entries, ok tt)

-- The second loop of `reserve`: each managed frame of the range is taken out.
unfoldable pub withdraw_frame : FrameAllocator → ℕ → FrameAllocator
withdraw_frame a frame =
    if taken a.managed frame
    then record a { managed = mark a.managed frame false; free = a.free - 1; total = a.total - 1 }
    else a

unfoldable pub withdraw : FrameAllocator → ℕ → ℕ → FrameAllocator
withdraw a first zero = a
withdraw a first (suc count) = withdraw (withdraw_frame a first) (first + 1) count

unfoldable pub reserve : FrameAllocator → ℕ → ℕ → FrameAllocator × Result FrameError (Unit {0})
unfolding withdraw
reserve a start len = elim (keep_if (λ _. not (len == 0)) (checked_add start len)) [
  | none ↦ (a, err invalid_range)
  | some end ↦
      let first = start / page_size in
      let count = min (pages_up end) (frames a) - first in
      if not (all_in (λ frame. not (taken a.allocated frame)) first count)
      then (a, err in_use)
      else (withdraw a first count, ok tt)
]

-- `u64::trailing_zeros` of a word that is not 0, from bit `n` on, on the bits that are left.
unfoldable pub trailing_zeros : ℕ → ℕ → ℕ → ℕ
trailing_zeros zero n w = n
trailing_zeros (suc fuel) n w =
    let rest = trailing_zeros fuel (n + 1) (w / 2) in if w % 2 == 0 then rest else n

-- The words from `offset` on, `count` of them are left: the first with an available frame.
unfoldable pub allocate_from : ℕ → FrameAllocator → ℕ → FrameAllocator × Result FrameError ℕ
unfolding trailing_zeros
allocate_from zero a offset = (a, err exhausted)
allocate_from (suc count) a offset =
    let index = (a.cursor + offset) % length a.managed in
    let available =
      bit_and (get_or a.managed index 0) (complement 64 (get_or a.allocated index 0)) in
    let rest = allocate_from count a (offset + 1) in
    if not (available == 0)
    then (
      record a {
        allocated =
            set a.allocated index
              (bit_or (get_or a.allocated index 0) (2 ^ trailing_zeros 64 0 available));
        cursor = index;
        free = a.free - 1;
      },
      ok ((index * 64 + trailing_zeros 64 0 available) * page_size),
    )
    else rest

unfoldable pub allocate : FrameAllocator → FrameAllocator × Result FrameError ℕ
unfolding allocate_from
allocate a = if a.free == 0 then (a, err exhausted) else allocate_from (length a.managed) a 0

-- `locate`: the frame; its word is `frame / 64` and its mask `1 << (frame % 64)`.
unfoldable pub locate : FrameAllocator → ℕ → Result FrameError ℕ
locate a address =
    if not (address % page_size == 0)
    then err invalid_range
    else if leb (frames a) (address / page_size)
    then err address_limit
    else ok (address / page_size)

unfoldable pub release : FrameAllocator → ℕ → FrameAllocator × Result FrameError (Unit {0})
release a address = elim (locate a address) [
  | err e ↦ (a, err e)
  | ok frame ↦
      if not (taken a.managed frame)
      then (a, err not_managed)
      else if not (taken a.allocated frame)
      then (a, err not_allocated)
      else (
        record a {
          allocated = mark a.allocated frame false;
          free = a.free + 1;
          cursor = frame / 64;
        },
        ok tt,
      )
]

abbrev pub available : FrameAllocator → ℕ → Bool
available a frame = not (
    bit_and
      (bit_and (get_or a.managed (frame / 64) 0)
        (complement 64 (get_or a.allocated (frame / 64) 0)))
      (2 ^ (frame % 64))
    == 0)

unfoldable pub allocate_contiguous_bounded :
    FrameAllocator → ℕ → ℕ → FrameAllocator × Result FrameError ℕ
allocate_contiguous_bounded a count maximum =
    if (count == 0) || ltb maximum count || ltb 128 maximum
    then (a, err invalid_range)
    else elim (scan (frames a) (available a) count 0 0) [
      | none ↦ (a, err exhausted)
      | some first ↦ (
        record a { allocated = mark_run a.allocated first count true; free = a.free - count },
        ok (first * page_size),
      )
    ]

unfoldable pub allocate_contiguous : FrameAllocator → ℕ → FrameAllocator × Result FrameError ℕ
unfolding allocate_contiguous_bounded
allocate_contiguous a count = allocate_contiguous_bounded a count 4

unfoldable pub is_allocated : FrameAllocator → ℕ → Bool
is_allocated a address = elim (locate a address) [
  | err e ↦ false
  | ok frame ↦ taken a.allocated frame
]
