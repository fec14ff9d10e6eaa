-- ===== src/Base/Bits.antt =====
-- `&`, `|` and `!` on words of any width: the equation for the lowest bit, masks of rights, and
-- numbers packed beside one another.
pub mod Single
use Prim.Native.Nat.{
  ℕ, zero, suc, ◌+◌, ◌-◌, ◌*◌, ◌/◌, ◌%◌, ◌^◌, ◌≤◌, ◌<◌, min, max, bit_and, bit_or, digits,
  bit_and-bitwise, bit_or-bitwise,
}
use mathlib.Core.Path.{◌≡◌, refl, ap}
use native.Mathlib.Nat.{pow-suc, one-le-pow}
use native.Mathlib.Omega.{arith}

-- The recursion on binary digits does not depend on its fuel, once that reaches the number.
digits_enough :
    (pad : ℕ → ℕ) (join : ℕ → ℕ → ℕ) (n m b a : ℕ)
    → a ≤ n
    → a ≤ m
    → digits pad join n a b ≡ digits pad join m a b
digits_enough pad join zero zero b zero p q = refl
digits_enough pad join zero (suc m) b zero p q = refl
digits_enough pad join (suc n) zero b zero p q = refl
digits_enough pad join (suc n) (suc m) b zero p q = refl
digits_enough pad join (suc n) (suc m) b (suc a) p q =
    rw (digits_enough pad join n m (b / 2) (suc a / 2) (omega arith) (omega arith))
digits_enough pad join zero m b (suc a) p q = absurd (omega arith)
digits_enough pad join (suc n) zero b (suc a) p q = absurd (omega arith)

pub bit_and_step : (a b : ℕ) → bit_and a b ≡ bit_and (a / 2) (b / 2) * 2 + min (a % 2) (b % 2)
bit_and_step zero b = omega (arith, bit_and-bitwise 0 b, bit_and-bitwise 0 (b / 2))
bit_and_step (suc a) b = omega (
  arith,
  bit_and-bitwise (suc a) b,
  bit_and-bitwise (suc a / 2) (b / 2),
  digits_enough (λ _. 0) min a (suc a / 2) (b / 2) (suc a / 2) (omega arith) (omega arith),
)

pub bit_or_step : (a b : ℕ) → bit_or a b ≡ bit_or (a / 2) (b / 2) * 2 + max (a % 2) (b % 2)
bit_or_step zero b = omega (arith, bit_or-bitwise 0 b, bit_or-bitwise 0 (b / 2))
bit_or_step (suc a) b = omega (
  arith,
  bit_or-bitwise (suc a) b,
  bit_or-bitwise (suc a / 2) (b / 2),
  digits_enough (λ y. y) max a (suc a / 2) (b / 2) (suc a / 2) (omega arith) (omega arith),
)

-- The bits of a word of `w` bits that are not in `a`: `!a`.
abbrev pub complement : ℕ → ℕ → ℕ
complement w a = 2 ^ w - 1 - a

pub zero-bit_and : (a : ℕ) → bit_and 0 a ≡ 0
zero-bit_and a = bit_and-bitwise 0 a

-- `n` bounds the number of bits.
bit_and-zero_below : (n a : ℕ) → a ≤ n → bit_and a 0 ≡ 0
bit_and-zero_below n zero h = zero-bit_and 0
bit_and-zero_below zero (suc a) h = absurd (omega arith)
bit_and-zero_below (suc n) (suc a) h =
    omega (arith, bit_and_step (suc a) 0, bit_and-zero_below n (suc a / 2) (omega arith))

pub bit_and-zero : (a : ℕ) → bit_and a 0 ≡ 0
bit_and-zero a = bit_and-zero_below a a (omega arith)

bit_or-zero_below : (n a : ℕ) → a ≤ n → bit_or a 0 ≡ a
bit_or-zero_below n zero h = bit_or-bitwise 0 0
bit_or-zero_below zero (suc a) h = absurd (omega arith)
bit_or-zero_below (suc n) (suc a) h =
    omega (arith, bit_or_step (suc a) 0, bit_or-zero_below n (suc a / 2) (omega arith))

pub bit_or-zero : (a : ℕ) → bit_or a 0 ≡ a
bit_or-zero a = bit_or-zero_below a a (omega arith)

pub zero-bit_or : (a : ℕ) → bit_or 0 a ≡ a
zero-bit_or a = bit_or-bitwise 0 a

pub complement_halves :
    (w a : ℕ)
    → a < 2 ^ suc w
    → (complement (suc w) a / 2 ≡ complement w (a / 2)) × (complement (suc w) a % 2 ≡ 1 - a % 2)
complement_halves w a h =
    (omega (arith, pow-suc 2 w, one-le-pow w 2), omega (arith, pow-suc 2 w, one-le-pow w 2))

-- A set of rights inside `old` grants nothing that `old` does not.
pub rights_within :
    (w a old right : ℕ)
    → a < 2 ^ w
    → old < 2 ^ w
    → right < 2 ^ w
    → bit_and a (complement w old) ≡ 0
    → bit_and a right ≡ right
    → bit_and old right ≡ right
rights_within zero a old zero ha ho hr e f = omega (arith, bit_and_step old 0, bit_and-zero old)
rights_within zero a old (suc right) ha ho hr e f = absurd (omega arith)
rights_within (suc w) a old right ha ho hr e f =
    let (half, low) = complement_halves w old ho in
    let step = bit_and_step a (complement (suc w) old) in
    let rest =
      rights_within w (a / 2) (old / 2) (right / 2) (omega (arith, pow-suc 2 w))
        (omega (arith, pow-suc 2 w)) (omega (arith, pow-suc 2 w)) (rw (← half) (omega arith))
        (omega (arith, bit_and_step a right)) in
    omega (arith, low, step, rest, bit_and_step a right, bit_and_step old right)

-- Being inside a set of rights is transitive.
pub within_trans :
    (w a b c : ℕ)
    → a < 2 ^ w
    → b < 2 ^ w
    → c < 2 ^ w
    → bit_and a (complement w b) ≡ 0
    → bit_and b (complement w c) ≡ 0
    → bit_and a (complement w c) ≡ 0
within_trans zero zero b c ha hb hc e f = zero-bit_and (complement 0 c)
within_trans zero (suc a) b c ha hb hc e f = absurd (omega arith)
within_trans (suc w) a b c ha hb hc e f =
    let (half_b, low_b) = complement_halves w b hb in
    let (half_c, low_c) = complement_halves w c hc in
    let step_b = bit_and_step a (complement (suc w) b) in
    let step_c = bit_and_step b (complement (suc w) c) in
    let step = bit_and_step a (complement (suc w) c) in
    let rest =
      within_trans w (a / 2) (b / 2) (c / 2) (omega (arith, pow-suc 2 w))
        (omega (arith, pow-suc 2 w)) (omega (arith, pow-suc 2 w)) (rw (← half_b) (omega arith))
        (rw (← half_c) (omega arith)) in
    let high : bit_and (a / 2) (complement (suc w) c / 2) ≡ 0 = rw half_c rest in
    omega (arith, low_b, low_c, step_b, step_c, step, high)

-- `(q << k) | r`, where `r` fits `k` bits.
pub bit_or_fields : (k q r : ℕ) → r < 2 ^ k → bit_or (q * 2 ^ k) r ≡ q * 2 ^ k + r
bit_or_fields zero q r h = ground (arith, bit_or-zero q)
bit_or_fields (suc k) q r h = ground (
  arith,
  bit_or_step (q * 2 ^ suc k) r,
  ap (λ (t : ℕ). q * t) (pow-suc 2 k),
  bit_or_fields k q (r / 2) (omega (arith, pow-suc 2 k)),
)
