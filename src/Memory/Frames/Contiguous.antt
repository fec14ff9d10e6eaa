-- ===== src/Memory/Frames/Contiguous.antt =====
-- kernel/src/memory/frames.rs: what a contiguous allocation hands out.
use rustic_os.Base.{
  bit_and, ℕ, ◌+◌, ◌-◌, ◌*◌, ◌/◌, ◌%◌, ◌^◌, ◌≤◌, ◌<◌, ◌≡◌, refl, sym, ap, ◌∙◌, inl, inr, arith,
  Bool, true, false, not, ◌&&◌, ◌||◌, ltb, ◌==◌, some, get_or, length, if◌then◌else◌, Bool-cases,
  Option-cases, ok,
}
use mathlib.Core.Path.{fun_ext}
use native.Mathlib.Nat.{one-le-pow}
use rustic_os.Base.Bits.{complement}
use rustic_os.Base.Bits.Single.{bit_le, bit-bit_and, bit_and-pow, bit-complement_word}
use rustic_os.Memory.Page.{page_size}
use rustic_os.Memory.Bitmap.{taken, mark_run, find_first, scan}
use rustic_os.Memory.Bitmap.Laws.{taken-bit, AreWords, mark_run-AreWords}
use rustic_os.Memory.Bitmap.Runs.{
  all_in-at, find_first-at, length-mark_run, taken-mark_run, within, scan-find_first,
}
use rustic_os.Memory.Bitmap.Counts.{count_in, count_in-changed}
use rustic_os.Memory.Frames.{FrameAllocator, frames, available, allocate_contiguous_bounded}

-- A managed frame that is not allocated.
abbrev pub is_free : FrameAllocator → ℕ → Bool
is_free a frame = taken a.managed frame && not (taken a.allocated frame)

-- Two bitmaps of one length, of 64-bit words; `free` counts the free frames.
pub record IsValid (a : FrameAllocator) : Type 0 where
  pub same_length : length a.managed ≡ length a.allocated
  pub words : AreWords a.allocated
  pub counted : a.free ≡ count_in (is_free a) 0 (frames a)

-- The mask of the source reads a frame that is managed and not allocated.
pub available-is_free :
    (a : FrameAllocator) (frame : ℕ)
    → get_or a.allocated (frame / 64) 0 < 2 ^ 64
    → available a frame ≡ is_free a frame
available-is_free a frame h =
    let m = get_or a.managed (frame / 64) 0 in
    let l = get_or a.allocated (frame / 64) 0 in
    ground (
      arith,
      taken-bit a.managed frame,
      taken-bit a.allocated frame,
      bit_and-pow (bit_and m (complement 64 l)) (frame % 64),
      bit-bit_and m (complement 64 l) (frame % 64),
      bit-complement_word 64 l (frame % 64) h (omega arith),
      bit_le m (frame % 64),
      bit_le l (frame % 64),
      one-le-pow (frame % 64) 2,
    )

-- What a successful contiguous allocation does: the run was managed and free, it is allocated now, no
-- other frame changes, and the count stays right.
pub record Granted (a : FrameAllocator) (count address : ℕ) (after : FrameAllocator) : Type 0 where
  pub first : ℕ
  pub start : address ≡ first * page_size
  pub fits : first + count ≤ frames a
  pub lowest : find_first (frames a + 1 - count) (is_free a) 0 count ≡ some first
  pub was_free : (k : ℕ) → first ≤ k → k < first + count → is_free a k ≡ true
  pub now : (k : ℕ) → is_free after k ≡ (if within first count k then false else is_free a k)
  pub valid : IsValid after

abbrev taken_run : FrameAllocator → ℕ → ℕ → FrameAllocator
taken_run a first count = record a {
  allocated = mark_run a.allocated first count true;
  free = a.free - count;
}

scan-lowest :
    (a : FrameAllocator) (count first : ℕ)
    → AreWords a.allocated
    → 0 < count
    → scan (frames a) (available a) count 0 0 ≡ some first
    → find_first (frames a + 1 - count) (is_free a) 0 count ≡ some first
scan-lowest a count first w h e =
    let same : available a ≡ is_free a = fun_ext (λ k. available-is_free a k (w (k / 64))) in
    sym (scan-find_first (frames a) (is_free a) count h)
    ∙ (sym (ap (λ p. scan (frames a) p count 0 0) same) ∙ e)

taken_run-Granted :
    (a : FrameAllocator) (count first : ℕ)
    → IsValid a
    → 0 < count
    → find_first (frames a + 1 - count) (is_free a) 0 count ≡ some first
    → Granted a count (first * page_size) (taken_run a first count)
taken_run-Granted a count first v h e =
    let (passes, low, high) = find_first-at (frames a + 1 - count) (is_free a) 0 count first e in
    let fits : first + count ≤ frames a = omega arith in
    let was : (k : ℕ) → first ≤ k → k < first + count → is_free a k ≡ true =
      λ k. all_in-at (is_free a) first count k passes in
    let now : (k : ℕ)
        → is_free (taken_run a first count) k
          ≡ (if within first count k then false else is_free a k) =
      λ k.
        let read = taken-mark_run a.allocated first count k true (omega (arith, v.same_length)) in
        ground arith in
    let fewer =
      count_in-changed (is_free a) (is_free (taken_run a first count)) false first count (frames a)
        fits was now in
    record {
      first = first;
      start = refl;
      fits = fits;
      lowest = e;
      was_free = was;
      now = now;
      valid = record {
        same_length = v.same_length ∙ sym (length-mark_run a.allocated first count true);
        words = mark_run-AreWords a.allocated first count true v.words;
        counted = omega (arith, fewer, v.counted);
      };
    }

-- On a valid allocator a contiguous allocation that succeeds hands out the lowest run of frames that
-- are managed and not allocated; they are allocated afterwards, no other frame changes, and the count
-- of free frames stays right.
pub allocate_contiguous-Granted :
    (a : FrameAllocator) (count maximum address : ℕ)
    → IsValid a
    → (allocate_contiguous_bounded a count maximum).1 ≡ ok address
    → Granted a count address (allocate_contiguous_bounded a count maximum).0
unfolding allocate_contiguous_bounded
allocate_contiguous-Granted a count maximum address v h =
    elim (Bool-cases ((count == 0) || ltb maximum count || ltb 128 maximum)) [
      | inl bad ↦ ground arith
      | inr fine ↦ elim (Option-cases (scan (frames a) (available a) count 0 0)) [
        | inl full ↦ ground arith
        | inr (first, found) ↦
            let start : address ≡ first * page_size = ground arith in
            let some_frames : 0 < count = ground arith in
            rw (fine, found, start, allocate_contiguous_bounded)
              (taken_run-Granted a count first v some_frames
                (scan-lowest a count first v.words some_frames found))
      ]
    ]
