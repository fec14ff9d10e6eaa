-- ===== src/Block/Hold.antt =====
-- kernel/src/block/observation.rs: the diagnostic that holds back the answer to one request.
use rustic_os.Base.{
  ℕ, ◌-◌, Bool, true, false, not, ◌||◌, ltb, ◌==◌, Option, none, some, List, [], ◌∷◌, if◌then◌else◌,
}
use rustic_os.Base.Words.{saturating_add}

pub record Hold : Type 0 where
  pub armed : Option (ℕ × ℕ × ℕ)
  pub held : Option (ℕ × ℕ × ℕ)

unfoldable pub default : Hold
default = record { armed = none; held = none }

abbrev pub is_some {ℓ} : {A : Type ℓ} → Option A → Bool
is_some none = false
is_some (some a) = true

unfoldable pub arm : Hold → ℕ → ℕ → ℕ → Hold × Bool
arm h owner skip ticks =
    if (owner == 0) || ltb 16 skip || (ltb ticks 1 || ltb 500 ticks) || is_some h.held
    then (h, false)
    else (record h { armed = some (owner, skip, ticks) }, true)

unfoldable pub submitted : Hold → ℕ → ℕ → Bool → ℕ → Hold × Bool
submitted h owner id mutation now = elim h.armed [
  | none ↦ (h, false)
  | some (target, skip, ticks) ↦
      if not (target == owner) || not mutation
      then (h, false)
      else if not (skip == 0)
      then (record h { armed = some (target, skip - 1, ticks) }, false)
      else (record { armed = none; held = some (owner, id, saturating_add now ticks) }, true)
]

unfoldable pub withheld : Hold → ℕ → ℕ → Hold × Bool
withheld h id now = elim h.held [
  | none ↦ (h, false)
  | some (owner, active, deadline) ↦
      if not (id == active)
      then (h, false)
      else if ltb now deadline
      then (h, true)
      else (record h { held = none }, false)
]

unfoldable pub status : Hold → List ℕ
status h = elim h.held [
  | some (owner, id, until) ↦ 1 ∷ owner ∷ id ∷ until ∷ 0 ∷ 0 ∷ 0 ∷ 0 ∷ []
  | none ↦ elim h.armed [
    | some (owner, skip, ticks) ↦ 0 ∷ owner ∷ 0 ∷ 0 ∷ 1 ∷ skip ∷ ticks ∷ 0 ∷ []
    | none ↦ 0 ∷ 0 ∷ 0 ∷ 0 ∷ 0 ∷ 0 ∷ 0 ∷ 0 ∷ []
  ]
]
