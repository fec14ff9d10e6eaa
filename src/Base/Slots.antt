-- ===== src/Base/Slots.antt =====
-- Fixed arrays of optional records, `[Option<A>; N]`: the searches that the kernel's tables make in
-- them, and what a write to one slot does to a later search or count.
use Prim.Native.Nat.{ℕ, zero, suc, ◌+◌, ◌<◌}
use mathlib.Core.Bool.{false≢true}
use mathlib.Core.Path.{subst, sym, ◌∙◌, ◌≡◌, refl, ap}
use mathlib.Core.Logic.{◌⊎◌, inl, inr, ◌≢◌}
use mathlib.Core.Bool.{Bool, true, false}
use mathlib.Core.Option
use mathlib.Core.Option.{Option, none, some}
use mathlib.Core.List.{List, [], ◌∷◌}
use native.Mathlib.Omega.{arith}
use native.Mathlib.Decide.{ℕ_discrete}
use rustic_os.Base.Tests.{◌==◌, ==_self, ==_of_ne, if◌then◌else◌, Option-cases, Bool-cases}
use rustic_os.Base.Lists.{replicate, length, set}

module _ {ℓ} {A : Type ℓ} where
  -- The occupant of slot `i`, if there is one.
  unfoldable pub at : List (Option A) → ℕ → Option A
  at [] i = none
  at (x ∷ xs) zero = x
  at (x ∷ xs) (suc i) = at xs i

  -- `position(Option::is_none)`
  unfoldable pub first_free : List (Option A) → Option ℕ
  first_free [] = none
  first_free (none ∷ xs) = some 0
  first_free (some a ∷ xs) = Option.map suc (first_free xs)

  abbrev pub hit : (A → Bool) → Option A → ℕ
  hit p none = 0
  hit p (some a) = if p a then 1 else 0

  -- `iter().flatten().filter(p).count()`
  unfoldable pub count : (A → Bool) → List (Option A) → ℕ
  count p [] = 0
  count p (x ∷ xs) = hit p x + count p xs

  abbrev shift : Option (ℕ × A) → Option (ℕ × A)
  shift none = none
  shift (some (i, a)) = some (suc i, a)

  -- `position(|e| e.is_some_and(p))` with the occupant of the slot that it finds.
  unfoldable pub find_slot : (A → Bool) → List (Option A) → Option (ℕ × A)
  find_slot p [] = none
  find_slot p (none ∷ xs) = shift (find_slot p xs)
  find_slot p (some a ∷ xs) = if p a then some (0, a) else shift (find_slot p xs)

module _ {ℓ} {A : Type ℓ} where
  pub at_lt : (xs : List (Option A)) (i : ℕ) {a : A} → at xs i ≡ some a → i < length xs
  unfolding at
  at_lt [] i h = cc
  at_lt (x ∷ xs) zero h = omega arith
  at_lt (x ∷ xs) (suc i) h = omega (arith, at_lt xs i h)

  pub at-set_self :
      (xs : List (Option A)) (i : ℕ) (v : Option A) → i < length xs → at (set xs i v) i ≡ v
  unfolding at
  at-set_self [] i v h = elim h [ ]
  at-set_self (x ∷ xs) zero v h = refl
  at-set_self (x ∷ xs) (suc i) v h = at-set_self xs i v (omega arith)

  pub at-set_ne :
      (xs : List (Option A)) (i j : ℕ) (v : Option A) → i ≢ j → at (set xs i v) j ≡ at xs j
  unfolding at
  at-set_ne [] i j v h = refl
  at-set_ne (x ∷ xs) zero zero v h = absurd (h refl)
  at-set_ne (x ∷ xs) zero (suc j) v h = refl
  at-set_ne (x ∷ xs) (suc i) zero v h = refl
  at-set_ne (x ∷ xs) (suc i) (suc j) v h = at-set_ne xs i j v (λ e. h (ap suc e))

  -- A write to slot `i`, as a reader of slot `j` sees it.
  pub at-set :
      (xs : List (Option A)) (i j : ℕ) (v : Option A)
      → i < length xs
      → at (set xs i v) j ≡ (if i == j then v else at xs j)
  at-set xs i j v h = elim (ℕ_discrete i j) [
    | yes e ↦ rw (← e, ==_self i) (at-set_self xs i v h)
    | no ne ↦ rw (==_of_ne i j ne) (at-set_ne xs i j v ne)
  ]

  -- Who stands in slot `j` after a write to slot `i`.
  pub at-set_cases :
      (xs : List (Option A)) (i j : ℕ) (v : Option A) {a : A}
      → i < length xs
      → at (set xs i v) j ≡ some a
      → ((i ≡ j) × (v ≡ some a)) ⊎ ((i ≢ j) × (at xs j ≡ some a))
  at-set_cases xs i j v {a} l h = elim (ℕ_discrete i j) [
    | yes e ↦
        inl (e, sym (at-set_self xs i v l) ∙ subst (λ k. at (set xs i v) k ≡ some a) (sym e) h)
    | no ne ↦ inr (ne, sym (at-set_ne xs i j v ne) ∙ h)
  ]

  -- What stands in the array after slot `i` is emptied stood there before.
  pub at-cleared :
      (xs : List (Option A)) (i j : ℕ) (a : A)
      → i < length xs
      → at (set xs i none) j ≡ some a
      → at xs j ≡ some a
  at-cleared xs i j a l h = elim (at-set_cases xs i j none l h) [ inl (_, e) ↦ cc | inr (_, e) ↦ e ]

  pub first_free-at :
      (xs : List (Option A)) (i : ℕ) → first_free xs ≡ some i → (i < length xs) × (at xs i ≡ none)
  unfolding first_free at
  first_free-at [] i h = cc
  first_free-at (none ∷ xs) i h = ground arith
  first_free-at (some a ∷ xs) zero h = ground (arith, Option-cases (first_free xs))
  first_free-at (some a ∷ xs) (suc i) h = ground (arith, first_free-at xs i)

  -- No slot is free: every slot has an occupant.
  pub first_free-none :
      (xs : List (Option A)) (i : ℕ)
      → first_free xs ≡ none
      → i < length xs
      → (a : A) × (at xs i ≡ some a)
  unfolding first_free at
  first_free-none [] i h l = elim l [ ]
  first_free-none (none ∷ xs) i h l = cc
  first_free-none (some a ∷ xs) zero h l = (a, refl)
  first_free-none (some a ∷ xs) (suc i) h l = first_free-none xs i (ground arith) (omega arith)

  pub find_slot-at :
      (p : A → Bool) (xs : List (Option A)) (i : ℕ) (a : A)
      → find_slot p xs ≡ some (i, a)
      → (at xs i ≡ some a) × (p a ≡ true)
  unfolding find_slot at
  find_slot-at p [] i a h = cc
  find_slot-at p (none ∷ xs) zero a h = ground arith
  find_slot-at p (none ∷ xs) (suc i) a h = ground (arith, find_slot-at p xs i a)
  find_slot-at p (some b ∷ xs) zero a h = ground arith
  find_slot-at p (some b ∷ xs) (suc i) a h = ground (arith, find_slot-at p xs i a)

  pub find_slot-none :
      (p : A → Bool) (xs : List (Option A)) (i : ℕ) {a : A}
      → find_slot p xs ≡ none
      → at xs i ≡ some a
      → p a ≡ false
  unfolding find_slot at
  find_slot-none p [] i h e = cc
  find_slot-none p (none ∷ xs) zero h e = cc
  find_slot-none p (none ∷ xs) (suc i) h e = find_slot-none p xs i (ground arith) e
  find_slot-none p (some b ∷ xs) zero h e = ground arith
  find_slot-none p (some b ∷ xs) (suc i) h e = find_slot-none p xs i (ground arith) e

  pub count-set :
      (p : A → Bool) (xs : List (Option A)) (i : ℕ) (v : Option A)
      → i < length xs
      → count p (set xs i v) + hit p (at xs i) ≡ count p xs + hit p v
  unfolding count at
  count-set p [] i v h = elim h [ ]
  count-set p (x ∷ xs) zero v h = omega arith
  count-set p (x ∷ xs) (suc i) v h = omega (arith, count-set p xs i v (omega arith))

  pub at-replicate : (n i : ℕ) → at (replicate {A = Option A} n none) i ≡ none
  unfolding at
  at-replicate zero i = refl
  at-replicate (suc n) zero = refl
  at-replicate (suc n) (suc i) = at-replicate n i

  pub count-replicate : (p : A → Bool) (n : ℕ) → count p (replicate n none) ≡ 0
  unfolding count
  count-replicate p zero = refl
  count-replicate p (suc n) = omega (arith, count-replicate p n)

  -- Once a search has an answer, it is that of any unique match.
  pub find_slot_unique :
      (p : A → Bool) (xs : List (Option A)) (i : ℕ) (a : A)
      → at xs i ≡ some a
      → p a ≡ true
      → ((j : ℕ) (b : A) → at xs j ≡ some b → p b ≡ true → i ≡ j)
      → find_slot p xs ≡ some (i, a)
  find_slot_unique p xs i a e h only = elim (Option-cases (find_slot p xs)) [
    | inl n ↦ absurd (false≢true (sym (find_slot-none p xs i n e) ∙ h))
    | inr ((j, b), f) ↦
        let (found, passed) = find_slot-at p xs j b f in let same = only j b found passed in cc
  ]

  pub find_slot_absent :
      (p : A → Bool) (xs : List (Option A))
      → ((i : ℕ) (a : A) → at xs i ≡ some a → p a ≡ false)
      → find_slot p xs ≡ none
  find_slot_absent p xs h = elim (Option-cases (find_slot p xs)) [
    | inl n ↦ n
    | inr ((j, b), f) ↦
        let (found, passed) = find_slot-at p xs j b f in
        absurd (false≢true (sym (h j b found) ∙ passed))
  ]

  abbrev pub passes : (A → Bool) → Option A → Bool
  passes p none = false
  passes p (some a) = p a

  -- A write that neither removes nor adds a match changes no search.
  pub find_slot-set_miss :
      (p : A → Bool) (xs : List (Option A)) (i : ℕ) (v : Option A)
      → passes p (at xs i) ≡ false
      → passes p v ≡ false
      → find_slot p (set xs i v) ≡ find_slot p xs
  unfolding find_slot at
  find_slot-set_miss p [] i v h k = refl
  find_slot-set_miss p (none ∷ xs) zero none h k = refl
  find_slot-set_miss p (none ∷ xs) zero (some b) h k = rw k
  find_slot-set_miss p (some a ∷ xs) zero none h k = rw h
  find_slot-set_miss p (some a ∷ xs) zero (some b) h k = rw (h, k)
  find_slot-set_miss p (none ∷ xs) (suc i) v h k = rw (find_slot-set_miss p xs i v h k)
  find_slot-set_miss p (some a ∷ xs) (suc i) v h k = rw (find_slot-set_miss p xs i v h k)

  -- Emptying a free slot again after a write gives the array back.
  pub set-undo :
      (xs : List (Option A)) (i : ℕ) (v : Option A) → at xs i ≡ none → set (set xs i v) i none ≡ xs
  unfolding at
  set-undo [] i v h = refl
  set-undo (x ∷ xs) zero v h = ap (λ y. y ∷ xs) (sym h)
  set-undo (x ∷ xs) (suc i) v h = ap (λ ys. x ∷ ys) (set-undo xs i v h)

  -- A count of zero says that no occupant passes the test.
  pub count_zero :
      (p : A → Bool) (xs : List (Option A)) (i : ℕ) {a : A}
      → count p xs ≡ 0
      → at xs i ≡ some a
      → p a ≡ false
  unfolding count at
  count_zero p [] i h e = cc
  count_zero p (none ∷ xs) zero h e = cc
  count_zero p (some b ∷ xs) zero h e = ground arith
  count_zero p (x ∷ xs) (suc i) h e = count_zero p xs i (omega arith) e

  -- A write of a match to the slot that a search finds leaves that slot the answer.
  pub find_slot-set_hit :
      (p : A → Bool) (xs : List (Option A)) (i : ℕ) (a b : A)
      → find_slot p xs ≡ some (i, a)
      → p b ≡ true
      → find_slot p (set xs i (some b)) ≡ some (i, b)
  unfolding find_slot
  find_slot-set_hit p [] i a b h k = cc
  find_slot-set_hit p (none ∷ xs) zero a b h k = ground arith
  find_slot-set_hit p (none ∷ xs) (suc i) a b h k =
      rw (find_slot-set_hit p xs i a b (ground arith) k)
  find_slot-set_hit p (some c ∷ xs) zero a b h k = rw k
  find_slot-set_hit p (some c ∷ xs) (suc i) a b h k = elim (Bool-cases (p c)) [
    | inl hit_here ↦ absurd (ground arith)
    | inr miss ↦ rw (miss, find_slot-set_hit p xs i a b (ground arith) k)
  ]
