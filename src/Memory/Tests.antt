-- ===== src/Memory/Tests.antt =====
-- The theorems on the heap window and the frame allocator at concrete states.
use rustic_os.Base.{ℕ, zero, suc, ◌+◌, ◌*◌, ◌^◌, ◌<◌, ◌≡◌, refl, arith, [], ◌∷◌, get_or, none, ok}
use rustic_os.Memory.Page.{page_size}
use rustic_os.Memory.Bitmap.{scan, find_first, taken, all_in, mark_run}
use rustic_os.Memory.Bitmap.Runs.{scan-find_first}
use rustic_os.Memory.Bitmap.Counts.{count_in}
use rustic_os.Memory.Heap.{
  Region, window_base, reserve, release, place, index_of, free, choose, requested, lowest_fit,
}
use rustic_os.Memory.Heap.Ownership
use rustic_os.Memory.Heap.Ownership.{Reserved, reserve-Reserved, release-reserve}
use rustic_os.Memory.Frames.{FrameAllocator, allocate_contiguous_bounded}
use rustic_os.Memory.Frames.Contiguous
use rustic_os.Memory.Frames.Contiguous.{Granted, allocate_contiguous-Granted}

-- Pages 0, 1 and 3 belong to the process.
abbrev three_pages : Region
three_pages = record { pages = 11 ∷ 0 ∷ []; used = 3 }

three_pages-IsValid : Ownership.IsValid three_pages
unfolding count_in taken
three_pages-IsValid = record { words = refl; counted = refl; budget = omega arith }

-- Two pages do not fit between them; the next place is page 4.
reserve-three_pages : (reserve three_pages none 2).1 ≡ ok (window_base + 4 * page_size)
unfolding reserve place index_of free choose requested lowest_fit find_first all_in taken mark_run
reserve-three_pages = refl

reserve-Reserved_example :
    Reserved three_pages 2 (window_base + 4 * page_size) (reserve three_pages none 2).0
reserve-Reserved_example =
    reserve-Reserved three_pages none 2 (window_base + 4 * page_size) three_pages-IsValid
      reserve-three_pages

release-reserve_example :
    ((release (reserve three_pages none 2).0 (window_base + 4 * page_size) 2).1 ≡ ok tt)
    × ((release (reserve three_pages none 2).0 (window_base + 4 * page_size) 2).0.used ≡ 3)
    × ((k : ℕ)
        → taken (release (reserve three_pages none 2).0 (window_base + 4 * page_size) 2).0.pages k
          ≡ taken three_pages.pages k)
release-reserve_example =
    release-reserve three_pages none 2 (window_base + 4 * page_size) three_pages-IsValid
      reserve-three_pages

scan-find_first_example : scan 8 (taken (108 ∷ [])) 2 0 0 ≡ find_first 7 (taken (108 ∷ [])) 0 2
scan-find_first_example = scan-find_first 8 (taken (108 ∷ [])) 2 (omega arith)

-- Eight frames are managed, and frames 0 and 2 are allocated.
abbrev eight_frames : FrameAllocator
eight_frames = record { managed = 255 ∷ []; allocated = 5 ∷ []; free = 6; total = 8; cursor = 0 }

eight_frames-words : (i : ℕ) → get_or (5 ∷ []) i 0 < 2 ^ 64
eight_frames-words zero = omega arith
eight_frames-words (suc i) = omega arith

eight_frames-IsValid : Contiguous.IsValid eight_frames
unfolding count_in taken
eight_frames-IsValid = record { same_length = refl; words = eight_frames-words; counted = refl }

allocate_contiguous-eight_frames :
    (allocate_contiguous_bounded eight_frames 2 4).1 ≡ ok (3 * page_size)
unfolding allocate_contiguous_bounded scan taken mark_run
allocate_contiguous-eight_frames = refl

allocate_contiguous-Granted_example :
    Granted eight_frames 2 (3 * page_size) (allocate_contiguous_bounded eight_frames 2 4).0
allocate_contiguous-Granted_example =
    allocate_contiguous-Granted eight_frames 2 4 (3 * page_size) eight_frames-IsValid
      allocate_contiguous-eight_frames
