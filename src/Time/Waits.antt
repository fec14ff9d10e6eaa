-- ===== src/Time/Waits.antt =====
-- kernel/src/time/waits.rs: the deadlines of one owner, at most one in each slot.
use rustic_os.Base.{
  ℕ, zero, suc, ◌≤◌, ◌<◌, ◌≡◌, refl, ap, ◌∙◌, sym, inl, inr, arith, Bool, true, false, Option, none,
  some, List, [], ◌∷◌, Result, ok, err, if◌then◌else◌, leb, get_elem?, set, replicate, length,
  le→leb, Option-cases,
}
use rustic_os.Time.Deadline.{reached}

pub data WaitError : Type 0 where
  invalid_slot occupied : WaitError

abbrev pub WaitSet : Type 0
WaitSet = List (Option ℕ)

unfoldable pub new : ℕ → WaitSet
new n = replicate n none

unfoldable pub register : WaitSet → ℕ → ℕ → WaitSet × Result WaitError (Unit {0})
register w slot deadline = elim (get_elem? w slot) [
  | none ↦ (w, err invalid_slot)
  | some (some _) ↦ (w, err occupied)
  | some none ↦ (set w slot (some deadline), ok tt)
]

-- Whether the slot that is cleared held a deadline.
unfoldable pub cancel : WaitSet → ℕ → WaitSet × Result WaitError Bool
cancel w slot = elim (get_elem? w slot) [
  | none ↦ (w, err invalid_slot)
  | some none ↦ (set w slot none, ok false)
  | some (some _) ↦ (set w slot none, ok true)
]

abbrev pub sooner : ℕ → Option ℕ → Option ℕ
sooner d none = some d
sooner d (some e) = if leb d e then some d else some e

unfoldable pub next_deadline : WaitSet → Option ℕ
next_deadline [] = none
next_deadline (none ∷ w) = next_deadline w
next_deadline (some d ∷ w) = sooner d (next_deadline w)

-- One slot: what it keeps, and whether it was due.
abbrev pub complete_slot : Option ℕ → ℕ → Option ℕ × Bool
complete_slot none now = (none, false)
complete_slot (some d) now = if reached d now then (none, true) else (some d, false)

unfoldable pub complete : WaitSet → ℕ → WaitSet × List Bool
complete [] now = ([], [])
complete (x ∷ w) now =
    let (y, due) = complete_slot x now in let (ys, flags) = complete w now in (y ∷ ys, due ∷ flags)

-- The deadline of a slot, if it has one.
abbrev pub waits_for : WaitSet → ℕ → Option ℕ
waits_for [] i = none
waits_for (x ∷ w) zero = x
waits_for (x ∷ w) (suc i) = waits_for w i

complete_slot-due : (d now : ℕ) → d ≤ now → complete_slot (some d) now ≡ (none, true)
complete_slot-due d now h = rw (le→leb d now h)

complete_slot-pending : (d now : ℕ) → now < d → complete_slot (some d) now ≡ (some d, false)
complete_slot-pending d now h = ground arith

-- A deadline in a slot is completed by a call at `now` exactly when it is at or before `now`: then the
-- slot is cleared and its flag is set. A later one stays, and its flag is not set.
pub complete-due :
    (w : WaitSet) (now i d : ℕ)
    → waits_for w i ≡ some d
    → (d ≤ now
        → (waits_for (complete w now).0 i ≡ none) × (get_elem? (complete w now).1 i ≡ some true))
      × (now < d
          → (waits_for (complete w now).0 i ≡ some d)
            × (get_elem? (complete w now).1 i ≡ some false))
unfolding complete
complete-due [] now i d h = ground arith
complete-due (x ∷ w) now zero d h = ground arith
complete-due (x ∷ w) now (suc i) d h = complete-due w now i d h

-- No deadline completes twice: a second call at the same tick changes nothing and sets no flag.
pub complete_once :
    (w : WaitSet) (now : ℕ)
    → complete (complete w now).0 now ≡ ((complete w now).0, replicate (length w) false)
unfolding complete
complete_once [] now = refl
complete_once (none ∷ w) now = rw (complete_once w now)
complete_once (some d ∷ w) now = ground (arith, complete_once w now)

sooner_le : (d e : ℕ) (o : Option ℕ) → sooner d o ≡ some e → e ≤ d
sooner_le d e none h = ground arith
sooner_le d e (some x) h = ground arith

sooner_left : (d e f : ℕ) → sooner d (some e) ≡ some f → f ≤ e
sooner_left d e f h = ground arith

no_deadline : (w : WaitSet) (i e : ℕ) → next_deadline w ≡ none → waits_for w i ≡ some e → ⊥
unfolding next_deadline
no_deadline [] i e h m = ground arith
no_deadline (none ∷ w) zero e h m = ground arith
no_deadline (none ∷ w) (suc i) e h m = no_deadline w i e h m
no_deadline (some x ∷ w) i e h m = elim (Option-cases (next_deadline w)) [
  | inl e0 ↦ ground arith
  | inr (f, e0) ↦ ground arith
]

-- The next deadline is at most the deadline of every slot.
pub next_deadline-first :
    (w : WaitSet) (d i e : ℕ) → next_deadline w ≡ some d → waits_for w i ≡ some e → d ≤ e
unfolding next_deadline
next_deadline-first [] d i e h m = ground arith
next_deadline-first (none ∷ w) d zero e h m = ground arith
next_deadline-first (none ∷ w) d (suc i) e h m = next_deadline-first w d i e h m
next_deadline-first (some x ∷ w) d zero e h m = ground arith
next_deadline-first (some x ∷ w) d (suc i) e h m = elim (Option-cases (next_deadline w)) [
  | inl none_left ↦ absurd (no_deadline w i e none_left m)
  | inr (f, found) ↦ omega (
    arith,
    sooner_left x f d (ap (sooner x) (sym found) ∙ h),
    next_deadline-first w f i e found m,
  )
]
