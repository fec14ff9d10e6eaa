-- ===== src/Base/Bits/Single.antt =====
-- One bit of a word: how `&`, `|` and a mask of one bit act on it.
use Prim.Native.Nat.{ℕ, zero, suc, ◌-◌, ◌*◌, ◌/◌, ◌%◌, ◌^◌, ◌≤◌, ◌<◌, min, max, bit_and, bit_or}
use mathlib.Core.Path.{◌≡◌, refl, ap}
use native.Mathlib.Nat.{pow-suc, one-le-pow}
use native.Mathlib.Omega.{arith}
use rustic_os.Base.Tests.{◌==◌, if◌then◌else◌}
use rustic_os.Base.Bits.{
  bit_and_step, bit_or_step, complement, complement_halves, bit_and-zero, zero-bit_and,
}

-- Bit `k` of `w`, as 0 or 1.
unfoldable pub bit : ℕ → ℕ → ℕ
bit w zero = w % 2
bit w (suc k) = bit (w / 2) k

pub bit_le : (w k : ℕ) → bit w k ≤ 1
unfolding bit
bit_le w zero = omega arith
bit_le w (suc k) = bit_le (w / 2) k

bit-zero : (k : ℕ) → bit 0 k ≡ 0
unfolding bit
bit-zero zero = refl
bit-zero (suc k) = bit-zero k

pub bit-bit_and : (a b k : ℕ) → bit (bit_and a b) k ≡ min (bit a k) (bit b k)
unfolding bit
bit-bit_and a b zero = omega (arith, bit_and_step a b)
bit-bit_and a b (suc k) =
    let half : bit_and a b / 2 ≡ bit_and (a / 2) (b / 2) = omega (arith, bit_and_step a b) in
    rw half (bit-bit_and (a / 2) (b / 2) k)

pub bit-bit_or : (a b k : ℕ) → bit (bit_or a b) k ≡ max (bit a k) (bit b k)
unfolding bit
bit-bit_or a b zero = omega (arith, bit_or_step a b)
bit-bit_or a b (suc k) =
    let half : bit_or a b / 2 ≡ bit_or (a / 2) (b / 2) = omega (arith, bit_or_step a b) in
    rw half (bit-bit_or (a / 2) (b / 2) k)

-- A mask of the single bit `j`.
pub bit-pow : (j k : ℕ) → bit (2 ^ j) k ≡ (if j == k then 1 else 0)
unfolding bit
bit-pow zero zero = refl
bit-pow zero (suc k) = ground (arith, bit-zero k)
bit-pow (suc j) zero = ground (arith, pow-suc 2 j)
bit-pow (suc j) (suc k) =
    let half : 2 ^ suc j / 2 ≡ 2 ^ j = omega (arith, pow-suc 2 j) in
    rw half (ground (arith, bit-pow j k))

pub pow_lt : (n j : ℕ) → j < n → 2 ^ j < 2 ^ n
pow_lt zero j h = absurd (omega arith)
pow_lt (suc n) zero h = omega (arith, pow-suc 2 n, one-le-pow n 2)
pow_lt (suc n) (suc j) h = omega (arith, pow-suc 2 n, pow-suc 2 j, pow_lt n j (omega arith))

bit-ones : (n k : ℕ) → k < n → bit (2 ^ n - 1) k ≡ 1
unfolding bit
bit-ones zero k h = absurd (omega arith)
bit-ones (suc n) zero h = omega (arith, pow-suc 2 n, one-le-pow n 2)
bit-ones (suc n) (suc k) h =
    let half : (2 ^ suc n - 1) / 2 ≡ 2 ^ n - 1 = omega (arith, pow-suc 2 n, one-le-pow n 2) in
    rw half (bit-ones n k (omega arith))

-- The mask of every bit but `j`.
pub bit-complement :
    (n j k : ℕ) → j < n → k < n → bit (complement n (2 ^ j)) k ≡ (if j == k then 0 else 1)
unfolding bit
bit-complement zero j k h l = absurd (omega arith)
bit-complement (suc n) zero zero h l = ground (arith, pow-suc 2 n, one-le-pow n 2)
bit-complement (suc n) zero (suc k) h l =
    let half : complement (suc n) (2 ^ 0) / 2 ≡ 2 ^ n - 1 =
      omega (arith, pow-suc 2 n, one-le-pow n 2) in
    rw half (ground (arith, bit-ones n k (omega arith)))
bit-complement (suc n) (suc j) zero h l =
    ground (arith, pow-suc 2 n, pow-suc 2 j, pow_lt n j (omega arith))
bit-complement (suc n) (suc j) (suc k) h l =
    let half : complement (suc n) (2 ^ suc j) / 2 ≡ complement n (2 ^ j) =
      omega (arith, pow-suc 2 n, pow-suc 2 j, pow_lt n j (omega arith)) in
    rw half (ground (arith, bit-complement n j k (omega arith) (omega arith)))

-- `w & mask` is 0 exactly when the bit is.
pub bit_and-pow : (w k : ℕ) → bit_and w (2 ^ k) ≡ bit w k * 2 ^ k
unfolding bit
bit_and-pow w zero = omega (arith, bit_and_step w 1, bit_and-zero (w / 2))
bit_and-pow w (suc k) =
    let half : 2 ^ suc k / 2 ≡ 2 ^ k = omega (arith, pow-suc 2 k) in
    let low : 2 ^ suc k % 2 ≡ 0 = omega (arith, pow-suc 2 k) in
    let step = bit_and_step w (2 ^ suc k) in
    let rest : bit_and (w / 2) (2 ^ suc k / 2) ≡ bit (w / 2) k * 2 ^ k =
      rw half (bit_and-pow (w / 2) k) in
    omega (arith, low, step, rest, ap (λ (t : ℕ). bit (w / 2) k * t) (pow-suc 2 k))

-- `!a` on words of `n` bits.
pub bit-complement_word : (n a k : ℕ) → a < 2 ^ n → k < n → bit (complement n a) k ≡ 1 - bit a k
unfolding bit
bit-complement_word zero a k h l = absurd (omega arith)
bit-complement_word (suc n) a zero h l = (complement_halves n a h).1
bit-complement_word (suc n) a (suc k) h l =
    rw ((complement_halves n a h).0)
      (bit-complement_word n (a / 2) k (omega (arith, pow-suc 2 n)) (omega arith))

-- Words of `n` bits stay words of `n` bits.
pub bit_or_lt : (n a b : ℕ) → a < 2 ^ n → b < 2 ^ n → bit_or a b < 2 ^ n
bit_or_lt zero a b h l =
    let a0 : a ≡ 0 = omega arith in let b0 : b ≡ 0 = omega arith in rw (a0, b0) (omega arith)
bit_or_lt (suc n) a b h l = omega (
  arith,
  bit_or_step a b,
  pow-suc 2 n,
  bit_or_lt n (a / 2) (b / 2) (omega (arith, pow-suc 2 n)) (omega (arith, pow-suc 2 n)),
)

bit_and_le_below : (n a b : ℕ) → a ≤ n → bit_and a b ≤ a
bit_and_le_below n zero b h = omega (arith, zero-bit_and b)
bit_and_le_below zero (suc a) b h = absurd (omega arith)
bit_and_le_below (suc n) (suc a) b h =
    omega (arith, bit_and_step (suc a) b, bit_and_le_below n (suc a / 2) (b / 2) (omega arith))

pub bit_and_le : (a b : ℕ) → bit_and a b ≤ a
bit_and_le a b = bit_and_le_below a a b (omega arith)
