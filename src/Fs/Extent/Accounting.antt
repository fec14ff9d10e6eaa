-- ===== src/Fs/Extent/Accounting.antt =====
-- crates/fs/src/extent.rs: the free sectors, counted when the map is opened and handed out in runs.
use rustic_os.Base.{
  ℕ, zero, suc, ◌+◌, ◌-◌, ◌*◌, ◌/◌, ◌%◌, ◌≤◌, ◌<◌, ◌≡◌, refl, sym, ap, ◌∙◌, inl, inr, arith, Bool,
  true, false, not, ◌||◌, ◌==◌, ltb, some, List, [], ◌∷◌, length, if◌then◌else◌, Bool-cases,
  Option-cases, ok,
}
use rustic_os.Base.Bits.Single.{bit}
use rustic_os.Memory.Bitmap.{taken, mark_run, find_first, scan}
use rustic_os.Memory.Bitmap.Laws.{taken-bit}
use rustic_os.Memory.Bitmap.Runs.{
  all_in-at, find_first-at, length-mark_run, scan-find_first, taken-mark_run, within,
}
use rustic_os.Memory.Bitmap.Counts.{
  count_in, count_in-add, count_in_same, count_in_le, count_in-changed, one_if,
}
use rustic_os.Fs.Extent.{
  Extent, FreeSpace, count_zeros, count_free, open_map, allocate, data_sectors, map_words,
  file_sectors_max,
}

abbrev pub is_free : FreeSpace → ℕ → Bool
is_free f sector = not (taken f.words sector)

-- One bit for each sector, and `free` counts those that are clear.
pub record IsValid (f : FreeSpace) : Type 0 where
  pub words : length f.words ≡ map_words
  pub counted : f.free ≡ count_in (is_free f) 0 data_sectors

count_in_shift : (p : ℕ → Bool) (m i n : ℕ) → count_in p (m + i) n ≡ count_in (λ k. p (m + k)) i n
unfolding count_in
count_in_shift p m i zero = refl
count_in_shift p m i (suc n) =
    let next : m + i + 1 ≡ m + (i + 1) = omega arith in
    rw next (ap (λ (rest : ℕ). one_if (p (m + i)) + rest) (count_in_shift p m (i + 1) n))

count_zeros-count_in :
    (w i n : ℕ) (p : ℕ → Bool)
    → ((k : ℕ) → k < n → p (i + k) ≡ not (bit w k == 1))
    → count_zeros n w ≡ count_in p i n
unfolding count_zeros count_in bit
count_zeros-count_in w i zero p h = refl
count_zeros-count_in w i (suc n) p h =
    let first : p i ≡ not (w % 2 == 1) = ap p (omega arith) ∙ h 0 (omega arith) in
    let rest : count_zeros n (w / 2) ≡ count_in p (i + 1) n =
      count_zeros-count_in (w / 2) (i + 1) n p
        (λ k l. ap p (omega arith) ∙ h (suc k) (omega arith)) in
    rw first (ground (arith, rest))

first_word :
    (w : ℕ) (rest : List ℕ) (k : ℕ) → k < 64 → not (taken (w ∷ rest) (0 + k)) ≡ not (bit w k == 1)
first_word w rest k h =
    let whole : 0 + k ≡ k = omega arith in
    let here : k / 64 ≡ 0 = omega arith in
    let low : k % 64 ≡ k = omega arith in rw (whole, taken-bit (w ∷ rest) k, here, low)

next_words : (w : ℕ) (rest : List ℕ) (k : ℕ) → taken (w ∷ rest) (64 + k) ≡ taken rest k
next_words w rest k =
    let next : (64 + k) / 64 ≡ suc (k / 64) = omega arith in
    let low : (64 + k) % 64 ≡ k % 64 = omega arith in
    rw (taken-bit (w ∷ rest) (64 + k), taken-bit rest k, next, low)

count_free-count_in :
    (words : List ℕ)
    → count_free words ≡ count_in (λ sector. not (taken words sector)) 0 (length words * 64)
unfolding count_free
count_free-count_in [] =
    omega (arith, count_in_le (λ sector. not (taken [] sector)) 0 (length {A = ℕ} [] * 64))
count_free-count_in (w ∷ rest) =
    let p : ℕ → Bool = λ sector. not (taken (w ∷ rest) sector) in
    let both : suc (length rest) * 64 ≡ 64 + length rest * 64 = omega arith in
    let here : count_zeros 64 w ≡ count_in p 0 64 =
      count_zeros-count_in w 0 64 p (first_word w rest) in
    let beyond : count_in p (64 + 0) (length rest * 64)
        ≡ count_in (λ sector. not (taken rest sector)) 0 (length rest * 64) =
      count_in_shift p 64 0 (length rest * 64)
      ∙ count_in_same (λ k. p (64 + k)) (λ k. not (taken rest k)) 0 (length rest * 64)
          (λ k _ _. ap not (next_words w rest k)) in
    rw (both, count_in-add p 0 64 (length rest * 64))
      (omega (arith, here, beyond, count_free-count_in rest))

-- Opening a map of the right length counts its free sectors.
pub open_map-IsValid :
    (words : List ℕ) (f : FreeSpace) → open_map words ≡ ok f → (f.words ≡ words) × IsValid f
unfolding open_map
open_map-IsValid words f h = elim (Bool-cases (length words == map_words)) [
  | inr other ↦ ground arith
  | inl right ↦
      let opened : FreeSpace = record { words = words; free = count_free words } in
      let same : opened ≡ f = ground arith in
      let long : length words ≡ map_words = ground arith in
      let all : length words * 64 ≡ data_sectors = omega arith in
      rw (← same) (
        refl,
        record {
          words = long;
          counted = count_free-count_in words ∙ ap (count_in (is_free opened) 0) all;
        },
      )
]

-- What a successful `allocate` does: the run is the lowest that was free, it is used now, no other
-- sector changes, and the count stays right.
pub record Granted (f : FreeSpace) (sectors : ℕ) (run : Extent) (after : FreeSpace) : Type 0 where
  pub asked : run.sectors ≡ sectors
  pub some_sectors : 0 < sectors
  pub fits : run.start + sectors ≤ data_sectors
  pub lowest : find_first (data_sectors + 1 - sectors) (is_free f) 0 sectors ≡ some run.start
  pub now : (k : ℕ) → is_free after k ≡ (if within run.start sectors k then false else is_free f k)
  pub valid : IsValid after

abbrev used_run : FreeSpace → ℕ → ℕ → FreeSpace
used_run f start sectors = record {
  words = mark_run f.words start sectors true;
  free = f.free - sectors;
}

used_run-Granted :
    (f : FreeSpace) (sectors start : ℕ)
    → IsValid f
    → 0 < sectors
    → find_first (data_sectors + 1 - sectors) (is_free f) 0 sectors ≡ some start
    → Granted f sectors (record { start = start; sectors = sectors }) (used_run f start sectors)
used_run-Granted f sectors start v h e =
    let (passes, low, high) =
      find_first-at (data_sectors + 1 - sectors) (is_free f) 0 sectors start e in
    let fits : start + sectors ≤ data_sectors = omega arith in
    let now : (k : ℕ)
        → is_free (used_run f start sectors) k
          ≡ (if within start sectors k then false else is_free f k) =
      λ k.
        let read = taken-mark_run f.words start sectors k true (omega (arith, v.words)) in
        ground arith in
    let fewer =
      count_in-changed (is_free f) (is_free (used_run f start sectors)) false start sectors
        data_sectors fits (λ k. all_in-at (is_free f) start sectors k passes) now in
    record {
      asked = refl;
      some_sectors = h;
      fits = fits;
      lowest = e;
      now = now;
      valid = record {
        words = length-mark_run f.words start sectors true ∙ v.words;
        counted = omega (arith, fewer, v.counted);
      };
    }

-- On a valid map an `allocate` that succeeds hands out the lowest free run of the region; its sectors
-- are used afterwards, no other sector changes, and the count of free sectors stays right.
pub allocate-Granted :
    (f : FreeSpace) (sectors : ℕ) (run : Extent)
    → IsValid f
    → (allocate f sectors).1 ≡ ok run
    → Granted f sectors run (allocate f sectors).0
unfolding allocate
allocate-Granted f sectors run v h =
    elim (Bool-cases ((sectors == 0) || ltb file_sectors_max sectors)) [
      | inl bad ↦ ground arith
      | inr fine ↦ elim (Bool-cases (ltb f.free sectors)) [
        | inl few ↦ ground arith
        | inr enough ↦ elim (Option-cases (scan data_sectors (is_free f) sectors 0 0)) [
          | inl none_fits ↦ ground arith
          | inr (start, found) ↦
              let same : run ≡ record { start = start; sectors = sectors } = ground arith in
              let some_sectors : 0 < sectors = ground arith in
              rw (fine, enough, found, same, allocate)
                (used_run-Granted f sectors start v some_sectors
                  (sym (scan-find_first data_sectors (is_free f) sectors some_sectors) ∙ found))
        ]
      ]
    ]
