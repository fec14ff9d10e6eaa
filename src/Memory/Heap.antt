-- ===== src/Memory/Heap.antt =====
-- kernel/src/process/heap.rs: which pages of its heap window a process owns.
pub mod Ownership
use rustic_os.Base.{
  ℕ, zero, suc, ◌+◌, ◌-◌, ◌*◌, ◌/◌, ◌%◌, Bool, true, false, not, ◌&&◌, ◌||◌, ltb, ◌==◌, Option,
  none, some, List, if◌then◌else◌, Result, ok, err, ok_or, ◌>>=◌, ◌>>◌, refuse_if, replicate,
}
use rustic_os.Base.Words.{checked_add}
use rustic_os.Memory.Page.{page_size}
use rustic_os.Memory.Bitmap.{taken, all_in, mark_run, find_first}

abbrev pub window_base : ℕ
window_base = 0x10000000

abbrev pub window_pages : ℕ
window_pages = 128

abbrev pub process_pages : ℕ
process_pages = 64

pub data Error : Type 0 where
  size address invalid full : Error

pub record Region : Type 0 where
  pub pages : List ℕ
  pub used : ℕ

unfoldable pub new : Region
new = record { pages = replicate 2 0; used = 0 }

abbrev pub leaves_window : Option ℕ → Bool
leaves_window none = true
leaves_window (some end) = ltb window_pages end

unfoldable pub index_of : ℕ → ℕ → Result Error ℕ
index_of addr pages =
    if not (addr % page_size == 0) || ltb addr window_base
    then err address
    else let index = (addr - window_base) / page_size in
      if leaves_window (checked_add index pages) then err address else ok index

unfoldable pub owns : Region → ℕ → ℕ → Bool
owns r addr pages = not (pages == 0) && (elim (index_of addr pages) [
  | err e ↦ false
  | ok index ↦ all_in (taken r.pages) index pages
])

unfoldable pub free : Region → ℕ → ℕ → Bool
free r index pages = all_in (λ page. not (taken r.pages page)) index pages

unfoldable pub lowest_fit : Region → ℕ → Option ℕ
lowest_fit r pages =
    if ltb window_pages pages
    then none
    else find_first (window_pages - pages + 1) (λ page. not (taken r.pages page)) 0 pages

unfoldable pub requested : Option ℕ → ℕ → Result Error (Option ℕ)
requested none pages = ok none
requested (some addr) pages = do index ← index_of addr pages; ok (some index)

unfoldable pub choose : Region → Option ℕ → ℕ → Result Error ℕ
choose r (some index) pages = if not (free r index pages) then err address else ok index
choose r none pages = ok_or (lowest_fit r pages) address

-- The run that a request is given.
unfoldable pub place : Region → Option ℕ → ℕ → Result Error ℕ
place r addr pages = do
  refuse_if ((pages == 0) || ltb process_pages pages) size
  wanted ← requested addr pages
  refuse_if (ltb process_pages (r.used + pages)) full
  choose r wanted pages

unfoldable pub reserve : Region → Option ℕ → ℕ → Region × Result Error ℕ
unfolding place
reserve r addr pages = elim (place r addr pages) [
  | err e ↦ (r, err e)
  | ok index ↦ (
    record { pages = mark_run r.pages index pages true; used = r.used + pages },
    ok (window_base + index * page_size),
  )
]

unfoldable pub release : Region → ℕ → ℕ → Region × Result Error (Unit {0})
release r addr pages = if pages == 0 then (r, err size) else elim (index_of addr pages) [
  | err e ↦ (r, err e)
  | ok index ↦
      if not (owns r addr pages)
      then (r, err invalid)
      else (record { pages = mark_run r.pages index pages false; used = r.used - pages }, ok tt)
]
