-- ===== src/Memory/Bitmap/Runs.antt =====
-- Runs of pages: a check of a run, its marking, and the two searches for one.
use rustic_os.Base.{
  ℕ, zero, suc, ◌+◌, ◌-◌, ◌*◌, ◌/◌, ◌≤◌, ◌<◌, ◌≡◌, refl, ◌∙◌, inl, inr, arith, Bool, true, false,
  ◌&&◌, ◌==◌, leb, ltb, none, some, List, length, length-set, if◌then◌else◌, Bool-cases,
}
use rustic_os.Memory.Bitmap.{taken, mark, all_in, mark_run, find_first, scan}
use rustic_os.Memory.Bitmap.Laws.{taken-mark}

pub all_in-at : (p : ℕ → Bool) (i n k : ℕ) → all_in p i n ≡ true → i ≤ k → k < i + n → p k ≡ true
unfolding all_in
all_in-at p i zero k h l m = absurd (omega arith)
all_in-at p i (suc n) k h l m = elim (Bool-cases (i == k)) [
  | inl e ↦ let same : i ≡ k = ground arith in rw (← same) (ground arith)
  | inr e ↦ all_in-at p (i + 1) n k (ground arith) (ground arith) (omega arith)
]

pub all_in_intro :
    (p : ℕ → Bool) (i n : ℕ) → ((k : ℕ) → i ≤ k → k < i + n → p k ≡ true) → all_in p i n ≡ true
unfolding all_in
all_in_intro p i zero h = refl
all_in_intro p i (suc n) h =
    let first : p i ≡ true = h i (omega arith) (omega arith) in
    let rest = all_in_intro p (i + 1) n (λ k l m. h k (omega arith) (omega arith)) in ground arith

-- A page that does not pass spoils every run that holds it.
all_in-spoiled : (p : ℕ → Bool) (i n k : ℕ) → p k ≡ false → i ≤ k → k < i + n → all_in p i n ≡ false
all_in-spoiled p i n k bad l m = elim (Bool-cases (all_in p i n)) [
  | inr e ↦ e
  | inl e ↦ let good = all_in-at p i n k e l m in ground arith
]

-- What `find_first` finds is a run that passes, and no earlier start is.
pub find_first-at :
    (tries : ℕ) (p : ℕ → Bool) (i n k : ℕ)
    → find_first tries p i n ≡ some k
    → (all_in p k n ≡ true) × (i ≤ k) × (k < i + tries)
unfolding find_first
find_first-at zero p i n k h = ground arith
find_first-at (suc tries) p i n k h = elim (Bool-cases (all_in p i n)) [
  | inl e ↦ let same : i ≡ k = ground arith in (rw (← same) e, omega arith, omega arith)
  | inr e ↦
      let (passes, low, high) = find_first-at tries p (i + 1) n k (ground arith) in
      (passes, omega arith, omega arith)
]

pub find_first-none :
    (tries : ℕ) (p : ℕ → Bool) (i n k : ℕ)
    → find_first tries p i n ≡ none
    → i ≤ k
    → k < i + tries
    → all_in p k n ≡ false
unfolding find_first
find_first-none zero p i n k h l m = absurd (omega arith)
find_first-none (suc tries) p i n k h l m = elim (Bool-cases (all_in p i n)) [
  | inl e ↦ ground arith
  | inr e ↦ elim (Bool-cases (i == k)) [
    | inl same ↦ let same' : i ≡ k = ground arith in rw (← same') e
    | inr later ↦ find_first-none tries p (i + 1) n k (ground arith) (ground arith) (omega arith)
  ]
]

-- Starts from `i` to `k`, where `k` does not pass, can be left out.
find_first-skip :
    (m tries : ℕ) (p : ℕ → Bool) (i n k : ℕ)
    → p k ≡ false
    → i + m ≡ k + 1
    → m ≤ n
    → find_first tries p i n ≡ find_first (tries - m) p (k + 1) n
unfolding find_first
find_first-skip zero tries p i n k bad e h =
    let same : i ≡ k + 1 = omega arith in
    let all : tries - 0 ≡ tries = omega arith in rw (same, all)
find_first-skip (suc m) zero p i n k bad e h =
    let none_left : 0 - suc m ≡ 0 = omega arith in rw none_left
find_first-skip (suc m) (suc tries) p i n k bad e h =
    let fails = all_in-spoiled p i n k bad (omega arith) (omega arith) in
    let fewer : suc tries - suc m ≡ tries - m = omega arith in
    rw (fails, fewer) (find_first-skip m tries p (i + 1) n k bad (omega arith) (omega arith))

extended :
    (p : ℕ → Bool) (i k : ℕ)
    → p k ≡ true
    → ((j : ℕ) → i ≤ j → j < k → p j ≡ true)
    → (j : ℕ) → i ≤ j
    → j < k + 1
    → p j ≡ true
extended p i k good all j l m = elim (Bool-cases (j == k)) [
  | inl e ↦ let same : j ≡ k = ground arith in rw same good
  | inr e ↦ all j l (ground arith)
]

scan-find_first_from :
    (left : ℕ) (p : ℕ → Bool) (count i k run : ℕ)
    → run < count
    → i + run ≡ k
    → ((j : ℕ) → i ≤ j → j < k → p j ≡ true)
    → scan left p count k run ≡ find_first (left + run + 1 - count) p i count
unfolding scan find_first
scan-find_first_from zero p count i k run h e all =
    let over : 0 + run + 1 - count ≡ 0 = omega arith in rw over
scan-find_first_from (suc left) p count i k run h e all = elim (Bool-cases (p k)) [
  | inr bad ↦
      let fewer : (suc left + run + 1 - count) - suc run ≡ left + 0 + 1 - count = omega arith in
      let rest =
        scan-find_first_from left p count (k + 1) (k + 1) 0 (omega arith) (omega arith)
          (λ j l m. absurd (omega arith)) in
      rw
        (
          bad,
          find_first-skip (suc run) (suc left + run + 1 - count) p i count k bad (omega arith)
              (omega arith),
          fewer,
        )
        rest
  | inl good ↦ elim (Bool-cases (run + 1 == count)) [
    | inl whole ↦
        let tries : suc left + run + 1 - count ≡ suc left = ground arith in
        let start : k + 1 - count ≡ i = ground arith in
        let passes = all_in_intro p i count (λ j l m. extended p i k good all j l (ground arith)) in
        rw (good, whole, tries, start) (rw (passes, find_first))
    | inr more ↦
        let tries : suc left + run + 1 - count ≡ left + (run + 1) + 1 - count = omega arith in
        rw (good, more, tries)
          (scan-find_first_from left p count i (k + 1) (run + 1) (ground arith) (omega arith)
            (λ j l m. extended p i k good all j l m))
  ]
]

-- The one pass that counts a run finds the first place where a whole run passes.
pub scan-find_first :
    (left : ℕ) (p : ℕ → Bool) (count : ℕ)
    → 0 < count
    → scan left p count 0 0 ≡ find_first (left + 1 - count) p 0 count
scan-find_first left p count h =
    let tries : left + 1 - count ≡ left + 0 + 1 - count = omega arith in
    rw tries
      (scan-find_first_from left p count 0 0 0 h (omega arith) (λ j l m. absurd (omega arith)))

length-mark : (words : List ℕ) (i : ℕ) (owned : Bool) → length (mark words i owned) ≡ length words
unfolding mark
length-mark words i owned = length-set words (i / 64) _

pub length-mark_run :
    (words : List ℕ) (i n : ℕ) (owned : Bool) → length (mark_run words i n owned) ≡ length words
unfolding mark_run mark
length-mark_run words i zero owned = refl
length-mark_run words i (suc n) owned =
    length-mark_run (mark words i owned) (i + 1) n owned ∙ length-mark words i owned

abbrev pub within : ℕ → ℕ → ℕ → Bool
within i n q = leb i q && ltb q (i + n)

-- Marking a run sets what is read of its pages, and of no other page.
pub taken-mark_run :
    (words : List ℕ) (i n q : ℕ) (owned : Bool)
    → i + n ≤ length words * 64
    → taken (mark_run words i n owned) q ≡ (if within i n q then owned else taken words q)
unfolding mark_run
taken-mark_run words i zero q owned h = ground arith
taken-mark_run words i (suc n) q owned h =
    let same : length (mark words i owned) ≡ length words = length-mark words i owned in
    let rest = taken-mark_run (mark words i owned) (i + 1) n q owned (omega arith) in
    let first = taken-mark words i q owned (omega arith) in ground arith
