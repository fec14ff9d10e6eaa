-- ===== src/Memory/Heap/Ownership.antt =====
-- kernel/src/process/heap.rs: which pages a process owns after `reserve` and `release`.
use rustic_os.Base.{
  ℕ, ◌+◌, ◌-◌, ◌*◌, ◌≤◌, ◌<◌, ◌≡◌, refl, ap, ◌∙◌, inl, inr, arith, true, false, not, ltb, ◌==◌,
  Option, none, some, length, if◌then◌else◌, Bool-cases, Option-cases, Result-cases, ok,
}
use rustic_os.Memory.Page.{page_size}
use rustic_os.Memory.Bitmap.{taken, all_in, mark_run}
use rustic_os.Memory.Bitmap.Runs.{
  all_in-at, all_in_intro, find_first-at, length-mark_run, taken-mark_run, within,
}
use rustic_os.Memory.Bitmap.Counts.{count_in, count_in-mark_run}
use rustic_os.Memory.Heap.{
  Region, index_of, owns, free, lowest_fit, requested, choose, place, reserve, release, window_base,
  window_pages, process_pages,
}

-- Two words of bits, `used` of which are set among the window's pages, within the budget.
pub record IsValid (r : Region) : Type 0 where
  pub words : length r.pages ≡ 2
  pub counted : r.used ≡ count_in (taken r.pages) 0 window_pages
  pub budget : r.used ≤ process_pages

pub index_of-ok :
    (addr pages index : ℕ)
    → index_of addr pages ≡ ok index
    → (addr ≡ window_base + index * page_size) × (index + pages ≤ window_pages)
unfolding index_of
index_of-ok addr pages index h = ground arith

pub index_of-page :
    (pages index : ℕ)
    → index + pages ≤ window_pages
    → index_of (window_base + index * page_size) pages ≡ ok index
unfolding index_of
index_of-page pages index h = ground arith

-- Where `place` puts a request: a free run of the window, within the budget.
pub record Placed (r : Region) (pages index : ℕ) : Type 0 where
  pub some_pages : 0 < pages
  pub within_budget : r.used + pages ≤ process_pages
  pub fits : index + pages ≤ window_pages
  pub was_free : free r index pages ≡ true

lowest_fit-Free :
    (r : Region) (pages index : ℕ)
    → lowest_fit r pages ≡ some index
    → (index + pages ≤ window_pages) × (free r index pages ≡ true)
unfolding lowest_fit free
lowest_fit-Free r pages index h = elim (Bool-cases (ltb window_pages pages)) [
  | inl e ↦ ground arith
  | inr e ↦
      let p = λ (page : ℕ). not (taken r.pages page) in
      let (passes, low, high) =
        find_first-at (window_pages - pages + 1) p 0 pages index (ground arith) in
      (ground arith, passes)
]

place-Placed :
    (r : Region) (addr : Option ℕ) (pages index : ℕ)
    → place r addr pages ≡ ok index
    → Placed r pages index
unfolding place choose requested
place-Placed r none pages index h = elim (Option-cases (lowest_fit r pages)) [
  | inl e ↦ ground arith
  | inr (found, e) ↦
      let same : found ≡ index = ground arith in
      let (fits, is_free) = lowest_fit-Free r pages index (e ∙ ap some same) in
      record {
        some_pages = ground arith;
        within_budget = ground arith;
        fits = fits;
        was_free = is_free;
      }
]
place-Placed r (some addr) pages index h = elim (Result-cases (index_of addr pages)) [
  | inr (f, e) ↦ ground arith
  | inl (found, e) ↦ elim (Bool-cases (free r found pages)) [
    | inr not_free ↦ ground arith
    | inl is_free ↦
        let same : found ≡ index = ground arith in
        let (_, fits) = index_of-ok addr pages found e in
        record {
          some_pages = ground arith;
          within_budget = ground arith;
          fits = rw (← same) fits;
          was_free = rw (← same) is_free;
        }
  ]
]

-- The region after a run has been marked.
abbrev pub reserved : Region → ℕ → ℕ → Region
reserved r index pages = record { pages = mark_run r.pages index pages true; used = r.used + pages }

free-at :
    (r : Region) (index pages k : ℕ)
    → free r index pages ≡ true
    → index ≤ k
    → k < index + pages
    → taken r.pages k ≡ false
unfolding free
free-at r index pages k h l m =
    let is_free = all_in-at (λ page. not (taken r.pages page)) index pages k h l m in ground arith

reserved-IsValid :
    (r : Region) (index pages : ℕ)
    → IsValid r
    → Placed r pages index
    → IsValid (reserved r index pages)
reserved-IsValid r index pages v p = record {
  words = length-mark_run r.pages index pages true ∙ v.words;
  counted = omega (
    arith,
    v.counted,
    count_in-mark_run r.pages index pages window_pages true (omega (arith, v.words)) p.fits
        (λ k l m. free-at r index pages k p.was_free l m),
  );
  budget = p.within_budget;
}

-- What a successful `reserve` does: the pages are a whole run of the window that nobody had, they are
-- the process's now, and no other page changes.
pub record Reserved (r : Region) (pages a : ℕ) (after : Region) : Type 0 where
  pub index : ℕ
  pub start : a ≡ window_base + index * page_size
  pub fits : index + pages ≤ window_pages
  pub was_free : (k : ℕ) → index ≤ k → k < index + pages → taken r.pages k ≡ false
  pub now : (k : ℕ) → taken after.pages k ≡ (if within index pages k then true else taken r.pages k)
  pub valid : IsValid after

-- On a valid region a successful `reserve` hands out a whole run of free pages of the window, within
-- the budget, changes no other page, and keeps the count of pages right.
pub reserve-Reserved :
    (r : Region) (addr : Option ℕ) (pages a : ℕ)
    → IsValid r
    → (reserve r addr pages).1 ≡ ok a
    → Reserved r pages a (reserve r addr pages).0
unfolding reserve
reserve-Reserved r addr pages a v h = elim (Result-cases (place r addr pages)) [
  | inr (e, refused) ↦ ground arith
  | inl (index, placed) ↦
      let p = place-Placed r addr pages index placed in
      rw (placed, reserve)
        (record {
          index = index;
          start = ground arith;
          fits = p.fits;
          was_free = λ k l m. free-at r index pages k p.was_free l m;
          now = λ k. taken-mark_run r.pages index pages k true (omega (arith, p.fits, v.words));
          valid = reserved-IsValid r index pages v p;
        })
]

owned_all :
    (r : Region) (index pages : ℕ)
    → 0 < pages
    → index + pages ≤ window_pages
    → all_in (taken r.pages) index pages ≡ true
    → owns r (window_base + index * page_size) pages ≡ true
unfolding owns
owned_all r index pages h fits all =
    let nonzero : (pages == 0) ≡ false = ground arith in
    rw (nonzero, index_of-page pages index fits, owns) all

released-reserved :
    (r : Region) (index pages : ℕ)
    → IsValid r
    → Placed r pages index
    → release (reserved r index pages) (window_base + index * page_size) pages ≡ (
      record {
        pages = mark_run (mark_run r.pages index pages true) index pages false;
        used = r.used + pages - pages;
      },
      ok tt,
    )
unfolding release
released-reserved r index pages v p =
    let nonzero : (pages == 0) ≡ false = ground (arith, p.some_pages) in
    let room : index + pages ≤ length r.pages * 64 = omega (arith, p.fits, v.words) in
    let all_owned : all_in (taken (mark_run r.pages index pages true)) index pages ≡ true =
      all_in_intro (taken (mark_run r.pages index pages true)) index pages
        (λ k l m. ground (arith, taken-mark_run r.pages index pages k true room)) in
    rw (
      nonzero,
      index_of-page pages index p.fits,
      owned_all (reserved r index pages) index pages p.some_pages p.fits all_owned,
    )

undone :
    (r : Region) (index pages : ℕ)
    → IsValid r
    → Placed r pages index
    → ((release (reserved r index pages) (window_base + index * page_size) pages).1 ≡ ok tt)
      × ((release (reserved r index pages) (window_base + index * page_size) pages).0.used ≡ r.used)
      × ((k : ℕ)
          → taken
              (release (reserved r index pages) (window_base + index * page_size) pages).0.pages
              k
            ≡ taken r.pages k)
undone r index pages v p = rw (released-reserved r index pages v p) (
  refl,
  omega arith,
  λ k.
      let room : index + pages ≤ length r.pages * 64 = omega (arith, p.fits, v.words) in
      ground (
        arith,
        taken-mark_run r.pages index pages k true room,
        taken-mark_run (mark_run r.pages index pages true) index pages k false
            (omega (arith, length-mark_run r.pages index pages true)),
        free-at r index pages k p.was_free,
      ),
)

-- Releasing what was just reserved succeeds and gives every page and the count back.
pub release-reserve :
    (r : Region) (addr : Option ℕ) (pages a : ℕ)
    → IsValid r
    → (reserve r addr pages).1 ≡ ok a
    → ((release (reserve r addr pages).0 a pages).1 ≡ ok tt)
      × ((release (reserve r addr pages).0 a pages).0.used ≡ r.used)
      × ((k : ℕ) → taken (release (reserve r addr pages).0 a pages).0.pages k ≡ taken r.pages k)
unfolding reserve
release-reserve r addr pages a v h = elim (Result-cases (place r addr pages)) [
  | inr (e, refused) ↦ ground arith
  | inl (index, placed) ↦
      let p = place-Placed r addr pages index placed in
      let at_index : a ≡ window_base + index * page_size = ground arith in
      rw (placed, at_index, reserve) (undone r index pages v p)
]
