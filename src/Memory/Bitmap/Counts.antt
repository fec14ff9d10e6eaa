-- ===== src/Memory/Bitmap/Counts.antt =====
-- How many pages of a range pass a test, and what the marking of a run adds to that.
use rustic_os.Base.{
  ℕ, zero, suc, ◌+◌, ◌-◌, ◌*◌, ◌≤◌, ◌<◌, ◌≡◌, refl, ap, ◌∙◌, arith, Bool, not, List, length,
  if◌then◌else◌,
}
use rustic_os.Memory.Bitmap.{taken, mark_run}
use rustic_os.Memory.Bitmap.Runs.{taken-mark_run, within}

abbrev pub one_if : Bool → ℕ
one_if b = if b then 1 else 0

-- How many of the pages from `i` on, `n` of them, pass.
unfoldable pub count_in : (ℕ → Bool) → ℕ → ℕ → ℕ
count_in p i zero = 0
count_in p i (suc n) = one_if (p i) + count_in p (i + 1) n

pub count_in-add :
    (p : ℕ → Bool) (i m n : ℕ) → count_in p i (m + n) ≡ count_in p i m + count_in p (i + m) n
unfolding count_in
count_in-add p i zero n =
    let a : 0 + n ≡ n = omega arith in let b : i + 0 ≡ i = omega arith in rw (a, b) (omega arith)
count_in-add p i (suc m) n =
    let a : suc m + n ≡ suc (m + n) = omega arith in
    let b : i + suc m ≡ i + 1 + m = omega arith in
    rw (a, b) (omega (arith, count_in-add p (i + 1) m n))

pub count_in_same :
    (p q : ℕ → Bool) (i n : ℕ)
    → ((k : ℕ) → i ≤ k → k < i + n → p k ≡ q k)
    → count_in p i n ≡ count_in q i n
unfolding count_in
count_in_same p q i zero h = refl
count_in_same p q i (suc n) h =
    let first : p i ≡ q i = h i (omega arith) (omega arith) in
    rw first (omega (arith, count_in_same p q (i + 1) n (λ k l m. h k (omega arith) (omega arith))))

count_in_all :
    (p : ℕ → Bool) (b : Bool) (i n : ℕ)
    → ((k : ℕ) → i ≤ k → k < i + n → p k ≡ b)
    → count_in p i n ≡ n * one_if b
unfolding count_in
count_in_all p b i zero h = omega arith
count_in_all p b i (suc n) h =
    let first : p i ≡ b = h i (omega arith) (omega arith) in
    rw first (ground (arith, count_in_all p b (i + 1) n (λ k l m. h k (omega arith) (omega arith))))

pub count_in_le : (p : ℕ → Bool) (i n : ℕ) → count_in p i n ≤ n
unfolding count_in
count_in_le p i zero = omega arith
count_in_le p i (suc n) = ground (arith, count_in_le p (i + 1) n)

count_in-split :
    (p : ℕ → Bool) (i n total : ℕ)
    → i + n ≤ total
    → count_in p 0 total ≡ count_in p 0 i + (count_in p i n + count_in p (i + n) (total - (i + n)))
count_in-split p i n total h =
    let parts : total ≡ i + (n + (total - (i + n))) = omega arith in
    let zero_i : 0 + i ≡ i = omega arith in
    ap (count_in p 0) parts
    ∙ (rw
        (count_in-add p 0 i (n + (total - (i + n))), zero_i, count_in-add p i n (total - (i + n))))

-- Where a test turns to `b` on a run and stays elsewhere, the count changes by the run's length.
pub count_in-changed :
    (p q : ℕ → Bool) (b : Bool) (i n total : ℕ)
    → i + n ≤ total
    → ((k : ℕ) → i ≤ k → k < i + n → p k ≡ not b)
    → ((k : ℕ) → q k ≡ (if within i n k then b else p k))
    → count_in q 0 total + (if b then 0 else n) ≡ count_in p 0 total + (if b then n else 0)
count_in-changed p q b i n total l was now =
    let before : count_in q 0 i ≡ count_in p 0 i =
      count_in_same q p 0 i (λ k a c. ground (arith, now k)) in
    let inside : count_in q i n ≡ n * one_if b =
      count_in_all q b i n (λ k a c. ground (arith, now k)) in
    let beyond : count_in q (i + n) (total - (i + n)) ≡ count_in p (i + n) (total - (i + n)) =
      count_in_same q p (i + n) (total - (i + n)) (λ k a c. ground (arith, now k)) in
    let old : count_in p i n ≡ n * one_if (not b) = count_in_all p (not b) i n was in
    ground (arith, count_in-split q i n total l, count_in-split p i n total l)

-- Marking a run that read the other way changes the count by its length: here is the sum that stays.
pub count_in-mark_run :
    (words : List ℕ) (i n total : ℕ) (owned : Bool)
    → total ≤ length words * 64
    → i + n ≤ total
    → ((k : ℕ) → i ≤ k → k < i + n → taken words k ≡ not owned)
    → count_in (taken (mark_run words i n owned)) 0 total + (if owned then 0 else n)
      ≡ count_in (taken words) 0 total + (if owned then n else 0)
count_in-mark_run words i n total owned h l read =
    count_in-changed (taken words) (taken (mark_run words i n owned)) owned i n total l read
      (λ k. taken-mark_run words i n k owned (omega arith))
