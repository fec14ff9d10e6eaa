-- ===== src/Fs/Extent/Release.antt =====
-- crates/fs/src/extent.rs: `release`, alone and after `allocate`.
use rustic_os.Base.{
  ℕ, ◌+◌, ◌-◌, ◌%◌, ◌^◌, ◌≤◌, ◌<◌, ◌≡◌, sym, ap, ◌∙◌, inl, inr, arith, true, false, not, ◌||◌, ◌==◌,
  ltb, if◌then◌else◌, Bool-cases, ok,
}
use rustic_os.Memory.Bitmap.{taken, all_in, mark_run}
use rustic_os.Memory.Bitmap.Runs.{
  all_in-at, all_in_intro, find_first-at, length-mark_run, taken-mark_run, within,
}
use rustic_os.Memory.Bitmap.Counts.{count_in_le, count_in_same, count_in-changed}
use rustic_os.Fs.Extent.{Extent, FreeSpace, end, allocate, release, data_sectors}
use rustic_os.Fs.Extent.Accounting.{is_free, IsValid, allocate-Granted}

-- What a successful `release` of a run within 64 bits does.
pub record Returned (f : FreeSpace) (run : Extent) (after : FreeSpace) : Type 0 where
  pub fits : run.start + run.sectors ≤ data_sectors
  pub was_used : (k : ℕ) → run.start ≤ k → k < run.start + run.sectors → is_free f k ≡ false
  pub now :
      (k : ℕ) → is_free after k ≡ (if within run.start run.sectors k then true else is_free f k)
  pub valid : IsValid after

abbrev freed_run : FreeSpace → ℕ → ℕ → FreeSpace
freed_run f start sectors = record {
  words = mark_run f.words start sectors false;
  free = (f.free + sectors) % 2 ^ 64;
}

freed_run-Returned :
    (f : FreeSpace) (run : Extent)
    → IsValid f
    → run.start + run.sectors ≤ data_sectors
    → all_in (taken f.words) run.start run.sectors ≡ true
    → Returned f run (freed_run f run.start run.sectors)
freed_run-Returned f run v fits passes =
    let was : (k : ℕ) → run.start ≤ k → k < run.start + run.sectors → is_free f k ≡ false =
      λ k l m. ap not (all_in-at (taken f.words) run.start run.sectors k passes l m) in
    let now : (k : ℕ)
        → is_free (freed_run f run.start run.sectors) k
          ≡ (if within run.start run.sectors k then true else is_free f k) =
      λ k.
        let read = taken-mark_run f.words run.start run.sectors k false (omega (arith, v.words)) in
        ground arith in
    let more =
      count_in-changed (is_free f) (is_free (freed_run f run.start run.sectors)) true run.start
        run.sectors data_sectors fits was now in
    record {
      fits = fits;
      was_used = was;
      now = now;
      valid = record {
        words = length-mark_run f.words run.start run.sectors false ∙ v.words;
        counted = omega (arith, more, v.counted, count_in_le (is_free f) 0 data_sectors);
      };
    }

end-whole : (run : Extent) → run.start + run.sectors < 2 ^ 64 → end run ≡ run.start + run.sectors
unfolding end
end-whole run h = omega arith

-- On a valid map a `release` that succeeds, of a run whose end is within 64 bits, had every sector of
-- the run in use inside the region; they are free afterwards, no other sector changes, and the count of
-- free sectors stays right. So a run cannot be released twice.
pub release-Returned :
    (f : FreeSpace) (run : Extent)
    → IsValid f
    → run.start + run.sectors < 2 ^ 64
    → (release f run).1 ≡ ok tt
    → Returned f run (release f run).0
unfolding release
release-Returned f run v small h =
    let whole = end-whole run small in
    let count : end run - run.start ≡ run.sectors = omega arith in
    elim (Bool-cases ((run.sectors == 0) || ltb data_sectors (end run))) [
      | inl bad ↦ ground arith
      | inr fine ↦ elim (Bool-cases (all_in (taken f.words) run.start (end run - run.start))) [
        | inr unused ↦ ground arith
        | inl used ↦
            rw (fine, used, count, release)
              (freed_run-Returned f run v (ground arith)
                (ap (all_in (taken f.words) run.start) (sym count) ∙ used))
      ]
    ]

release-used :
    (f : FreeSpace) (run : Extent)
    → 0 < run.sectors
    → run.start + run.sectors ≤ data_sectors
    → ((k : ℕ) → run.start ≤ k → k < run.start + run.sectors → taken f.words k ≡ true)
    → (release f run).1 ≡ ok tt
unfolding release
release-used f run some_sectors fits used =
    let whole = end-whole run (omega arith) in
    let count : end run - run.start ≡ run.sectors = omega arith in
    let all = all_in_intro (taken f.words) run.start run.sectors used in
    let bad : ((run.sectors == 0) || ltb data_sectors (end run)) ≡ false = ground arith in
    rw (bad, count, all)

-- On a valid map, releasing the run that was just allocated succeeds, and every sector and the count
-- are as they were.
pub release-allocate :
    (f : FreeSpace) (sectors : ℕ) (run : Extent)
    → IsValid f
    → (allocate f sectors).1 ≡ ok run
    → ((release (allocate f sectors).0 run).1 ≡ ok tt)
      × ((release (allocate f sectors).0 run).0.free ≡ f.free)
      × ((k : ℕ) → is_free (release (allocate f sectors).0 run).0 k ≡ is_free f k)
release-allocate f sectors run v h =
    let g = allocate-Granted f sectors run v h in
    let after = (allocate f sectors).0 in
    let asked = g.asked in
    let some_sectors = g.some_sectors in
    let fits = g.fits in
    let used : (k : ℕ) → run.start ≤ k → k < run.start + run.sectors → taken after.words k ≡ true =
      λ k l m. let now = g.now k in ground arith in
    let done : (release after run).1 ≡ ok tt =
      release-used after run (omega arith) (omega arith) used in
    let back = release-Returned after run g.valid (omega arith) done in
    let was_free : all_in (is_free f) run.start sectors ≡ true =
      (find_first-at (data_sectors + 1 - sectors) (is_free f) 0 sectors run.start g.lowest).0 in
    let same : (k : ℕ) → is_free (release after run).0 k ≡ is_free f k = λ k.
      let first = g.now k in
      let second = back.now k in
      let held = all_in-at (is_free f) run.start sectors k was_free in ground arith in
    (
      done,
      back.valid.counted
          ∙ (count_in_same (is_free (release after run).0) (is_free f) 0 data_sectors
                (λ k _ _. same k)
              ∙ sym v.counted),
      same,
    )
