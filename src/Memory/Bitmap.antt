-- ===== src/Memory/Bitmap.antt =====
-- The bitmaps of kernel/src/memory/frames.rs and kernel/src/process/heap.rs: one bit for each page, in
-- words of 64 bits.
pub mod Laws
pub mod Runs
pub mod Counts
use rustic_os.Base.{
  Option, some, none, ◌-◌, get_or, ℕ, zero, suc, ◌+◌, ◌/◌, ◌%◌, ◌^◌, Bool, true, not, ◌&&◌, ◌==◌,
  List, set, if◌then◌else◌, bit_and, bit_or,
}
use rustic_os.Base.Bits.{complement}

abbrev pub mask : ℕ → ℕ
mask page = 2 ^ (page % 64)

abbrev pub word : List ℕ → ℕ → ℕ
word words page = get_or words (page / 64) 0

-- `words[page / 64] & mask != 0`
unfoldable pub taken : List ℕ → ℕ → Bool
taken words page = not (bit_and (word words page) (mask page) == 0)

unfoldable pub mark : List ℕ → ℕ → Bool → List ℕ
mark words page owned = set words (page / 64) (
    if owned
    then bit_or (word words page) (mask page)
    else bit_and (word words page) (complement 64 (mask page)))

-- `(index..index + pages).all(..)`, and a mark of each of these pages.
unfoldable pub all_in : (ℕ → Bool) → ℕ → ℕ → Bool
all_in p index zero = true
all_in p index (suc pages) = p index && all_in p (index + 1) pages

unfoldable pub mark_run : List ℕ → ℕ → ℕ → Bool → List ℕ
unfolding mark
mark_run words index zero owned = words
mark_run words index (suc pages) owned = mark_run (mark words index owned) (index + 1) pages owned

-- `(index..index + tries).find(..)` of a run of `pages` that all pass.
unfoldable pub find_first : ℕ → (ℕ → Bool) → ℕ → ℕ → Option ℕ
unfolding all_in
find_first zero p index pages = none
find_first (suc tries) p index pages =
    let rest = find_first tries p (index + 1) pages in
    if all_in p index pages then some index else rest

-- The loop that counts a run while it goes over the pages from `page` on, `left` of them, after a run
-- of `run`: the first page of a run of `count`.
unfoldable pub scan : ℕ → (ℕ → Bool) → ℕ → ℕ → ℕ → Option ℕ
scan zero p count page run = none
scan (suc left) p count page run =
    let here = if p page then run + 1 else 0 in
    let rest = scan left p count (page + 1) here in
    if p page && (here == count) then some (page + 1 - count) else rest
