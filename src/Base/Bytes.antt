-- ===== src/Base/Bytes.antt =====
-- Little-endian fields of byte strings: `to_le_bytes`, `from_le_bytes` and sub-slices.
use Prim.Native.Nat.{ℕ, zero, suc, ◌+◌, ◌*◌, ◌/◌, ◌%◌, ◌^◌, ◌≤◌, ◌<◌}
use mathlib.Core.Path.{◌≡◌, refl, ap, ap₂, ◌∙◌}
use mathlib.Core.Bool.{Bool, true, false, not, ◌||◌, ◌&&◌}
use mathlib.Core.List.{List, [], ◌∷◌, ◌++◌}
use native.Mathlib.Nat.{pow-suc}
use native.Mathlib.Omega.{arith}
use rustic_os.Base.Tests.{◌==◌}
use rustic_os.Base.Lists.{length, take, drop, replicate, length-take, length-drop}

-- `n.to_le_bytes()` of an integer of `k` bytes.
abbrev pub le : ℕ → ℕ → List ℕ
le zero n = []
le (suc k) n = n % 256 ∷ le k (n / 256)

abbrev pub from_le : List ℕ → ℕ
from_le [] = 0
from_le (b ∷ bs) = b + 256 * from_le bs

-- `bytes[from..from + len]`
abbrev pub slice : ℕ → ℕ → List ℕ → List ℕ
slice from len bytes = take len (drop from bytes)

abbrev pub u16_at : List ℕ → ℕ → ℕ
u16_at bytes offset = from_le (slice offset 2 bytes)

abbrev pub u32_at : List ℕ → ℕ → ℕ
u32_at bytes offset = from_le (slice offset 4 bytes)

abbrev pub u64_at : List ℕ → ℕ → ℕ
u64_at bytes offset = from_le (slice offset 8 bytes)

-- `bytes[from..from + xs.len()].copy_from_slice(xs)`
abbrev pub write_at : ℕ → List ℕ → List ℕ → List ℕ
write_at from xs bytes = take from bytes ++ (xs ++ drop (from + length xs) bytes)

-- `iter().any(|b| *b != 0)`
unfoldable pub any_nonzero : List ℕ → Bool
any_nonzero [] = false
any_nonzero (b ∷ bs) = not (b == 0) || any_nonzero bs

-- Every element is a byte.
abbrev pub AreBytes : List ℕ → Type 0
AreBytes [] = Unit {0}
AreBytes (b ∷ bs) = (b < 256) × AreBytes bs

pub length-le : (k n : ℕ) → length (le k n) ≡ k
length-le zero n = refl
length-le (suc k) n = ap suc (length-le k (n / 256))

pub le-AreBytes : (k n : ℕ) → AreBytes (le k n)
le-AreBytes zero n = tt
le-AreBytes (suc k) n = (omega arith, le-AreBytes k (n / 256))

pub from_le-le : (k n : ℕ) → n < 256 ^ k → from_le (le k n) ≡ n
from_le-le zero n h = omega arith
from_le-le (suc k) n h = omega (arith, from_le-le k (n / 256) (omega (arith, pow-suc 256 k)))

pub le-from_le : (bs : List ℕ) → AreBytes bs → le (length bs) (from_le bs) ≡ bs
le-from_le [] h = refl
le-from_le (b ∷ bs) h =
    ap₂ ◌∷◌ (omega arith)
      (ap (le (length bs)) {x = (b + 256 * from_le bs) / 256} (omega arith) ∙ le-from_le bs h.1)

pub AreBytes-take : (n : ℕ) (bs : List ℕ) → AreBytes bs → AreBytes (take n bs)
AreBytes-take zero bs h = tt
AreBytes-take (suc n) [] h = tt
AreBytes-take (suc n) (b ∷ bs) h = (h.0, AreBytes-take n bs h.1)

pub AreBytes-drop : (n : ℕ) (bs : List ℕ) → AreBytes bs → AreBytes (drop n bs)
AreBytes-drop zero bs h = h
AreBytes-drop (suc n) [] h = tt
AreBytes-drop (suc n) (b ∷ bs) h = AreBytes-drop n bs h.1

-- Re-encoding a field gives back its bytes.
pub le-slice :
    (from k : ℕ) (bs : List ℕ)
    → AreBytes bs
    → from + k ≤ length bs
    → le k (from_le (slice from k bs)) ≡ slice from k bs
le-slice from k bs h l =
    ap (λ n. le n (from_le (slice from k bs))) {x = k} {y = length (slice from k bs)}
      (omega (arith, length-take k (drop from bs), length-drop from bs))
    ∙ le-from_le (slice from k bs) (AreBytes-take k (drop from bs) (AreBytes-drop from bs h))

pub any_nonzero-replicate : (n : ℕ) → any_nonzero (replicate n 0) ≡ false
unfolding any_nonzero
any_nonzero-replicate zero = refl
any_nonzero-replicate (suc n) = any_nonzero-replicate n

pub from_le-zeros : (bs : List ℕ) → any_nonzero bs ≡ false → from_le bs ≡ 0
unfolding any_nonzero
from_le-zeros [] h = refl
from_le-zeros (b ∷ bs) h = ground (arith, from_le-zeros bs)

-- `a == b` of byte strings
abbrev pub same_bytes : List ℕ → List ℕ → Bool
same_bytes [] [] = true
same_bytes [] (b ∷ bs) = false
same_bytes (a ∷ rest) [] = false
same_bytes (a ∷ rest) (b ∷ bs) = (a == b) && same_bytes rest bs
