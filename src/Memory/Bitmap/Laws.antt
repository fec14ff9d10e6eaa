-- ===== src/Memory/Bitmap/Laws.antt =====
-- The bitmaps of pages and sectors, read as a predicate: what a mark changes, and what a run of marks.
use native.Mathlib.Nat.{one-le-pow}
use rustic_os.Base.{
  ℕ, zero, suc, ◌+◌, ◌/◌, ◌%◌, ◌^◌, ◌<◌, ◌≡◌, refl, ap, arith, Bool, true, false, ◌==◌, List, [],
  ◌∷◌, get_or, set, length, if◌then◌else◌, bit_and, bit_or,
}
use rustic_os.Base.Bits.{complement}
use rustic_os.Base.Bits.Single.{
  bit, bit_le, bit-bit_and, bit-bit_or, bit-pow, bit-complement, bit_and-pow, bit_or_lt, bit_and_le,
  pow_lt,
}
use rustic_os.Memory.Bitmap.{taken, mark, word, mask, mark_run}

get_or-set :
    (xs : List ℕ) (i j v : ℕ)
    → i < length xs
    → get_or (set xs i v) j 0 ≡ (if i == j then v else get_or xs j 0)
get_or-set [] i j v h = absurd (omega arith)
get_or-set (x ∷ xs) zero zero v h = refl
get_or-set (x ∷ xs) zero (suc j) v h = ground arith
get_or-set (x ∷ xs) (suc i) zero v h = ground arith
get_or-set (x ∷ xs) (suc i) (suc j) v h = ground (arith, get_or-set xs i j v (omega arith))

-- The test of the source reads one bit.
pub taken-bit : (words : List ℕ) (p : ℕ) → taken words p ≡ (bit (word words p) (p % 64) == 1)
unfolding taken
taken-bit words p = ground (
  arith,
  bit_and-pow (word words p) (p % 64),
  bit_le (word words p) (p % 64),
  one-le-pow (p % 64) 2,
)

-- The word of `p` after a mark of it.
marked : ℕ → ℕ → Bool → ℕ
marked w k owned = if owned then bit_or w (2 ^ k) else bit_and w (complement 64 (2 ^ k))

bit-marked :
    (w j k : ℕ) (owned : Bool)
    → j < 64
    → k < 64
    → bit (marked w j owned) k ≡ (if j == k then (if owned then 1 else 0) else bit w k)
unfolding marked
bit-marked w j k true h l = ground (arith, bit-bit_or w (2 ^ j) k, bit-pow j k, bit_le w k)
bit-marked w j k false h l =
    ground (arith, bit-bit_and w (complement 64 (2 ^ j)) k, bit-complement 64 j k h l, bit_le w k)

same_page : (p q : ℕ) → p / 64 ≡ q / 64 → p % 64 ≡ q % 64 → p ≡ q
same_page p q h l = omega arith

-- A mark of page `p` sets what is read of `p`, and nothing else.
pub taken-mark :
    (words : List ℕ) (p q : ℕ) (owned : Bool)
    → p / 64 < length words
    → taken (mark words p owned) q ≡ (if p == q then owned else taken words q)
unfolding mark marked
taken-mark words p q owned h =
    let w' = marked (word words p) (p % 64) owned in
    let read : word (mark words p owned) q ≡ (if p / 64 == q / 64 then w' else word words q) =
      get_or-set words (p / 64) (q / 64) w' h in
    ground (
      arith,
      taken-bit (mark words p owned) q,
      taken-bit words q,
      read,
      ap (λ (i : ℕ). get_or words i 0),
      bit-marked (word words p) (p % 64) (q % 64) owned (omega arith) (omega arith),
      same_page p q,
    )

-- Every word of the bitmap has 64 bits.
abbrev pub AreWords : List ℕ → Type 0
AreWords words = (i : ℕ) → get_or words i 0 < 2 ^ 64

set-AreWords :
    (xs : List ℕ) (i v j : ℕ) → AreWords xs → v < 2 ^ 64 → get_or (set xs i v) j 0 < 2 ^ 64
set-AreWords [] i v j h l = omega arith
set-AreWords (x ∷ xs) zero v zero h l = l
set-AreWords (x ∷ xs) zero v (suc j) h l = h (suc j)
set-AreWords (x ∷ xs) (suc i) v zero h l = h 0
set-AreWords (x ∷ xs) (suc i) v (suc j) h l = set-AreWords xs i v j (λ k. h (suc k)) l

pub mark-AreWords :
    (words : List ℕ) (p : ℕ) (owned : Bool) → AreWords words → AreWords (mark words p owned)
unfolding mark
mark-AreWords words p true h j =
    set-AreWords words (p / 64) (bit_or (word words p) (mask p)) j h
      (bit_or_lt 64 (word words p) (mask p) (h (p / 64)) (pow_lt 64 (p % 64) (omega arith)))
mark-AreWords words p false h j =
    set-AreWords words (p / 64) (bit_and (word words p) (complement 64 (mask p))) j h
      (omega (arith, bit_and_le (word words p) (complement 64 (mask p)), h (p / 64)))

pub mark_run-AreWords :
    (words : List ℕ) (i n : ℕ) (owned : Bool) → AreWords words → AreWords (mark_run words i n owned)
unfolding mark_run
mark_run-AreWords words i zero owned h = h
mark_run-AreWords words i (suc n) owned h =
    mark_run-AreWords (mark words i owned) (i + 1) n owned (mark-AreWords words i owned h)
