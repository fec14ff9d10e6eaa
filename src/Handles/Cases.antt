-- ===== src/Handles/Cases.antt =====
-- The two ways that `grant` and `transfer` of kernel/src/handles/table.rs end: refused, with the table
-- as it was, or with one entry written under the next id.
use rustic_os.Base.{
  none, ℕ, ◌+◌, ◌^◌, ◌<◌, bit_and, bit_or, ◌≡◌, ◌≢◌, inl, inr, true, not, ◌&&◌, ◌||◌, ◌⊎◌, some,
  arith, ◌==◌, ltb, set, ok, err, Bool-cases, Option-cases,
}
use rustic_os.Base.Slots.{at, find_slot-at, first_free, find_slot}
use rustic_os.Base.Bits.{complement}
use rustic_os.Handles.{
  Error, Entry, Table, names, room, index, exceeds, grant, transfer, remove, remove,
}

module _ {T : Type 0} where
  -- Writing one fresh entry with the next id, over a free or an occupied slot: `grant` and
  -- `transfer` both end so.
  abbrev pub put : Table T → ℕ → Entry T → Table T
  put t slot e = record t { next = t.next + 1; entries = set t.entries slot (some e) }

  -- A call of `grant` that succeeds: the slot that it fills and the tests that it passed.
  pub record Granted (per_owner : ℕ) (t : Table T) (owner : ℕ) (object : T) (rights : ℕ)
      : Type 0 where
    pub slot : ℕ
    pub free : first_free t.entries ≡ some slot
    pub nonzero : rights ≢ 0
    pub within : bit_and rights (complement 8 t.allowed) ≡ 0
    pub space : room per_owner t owner ≡ true
    pub counter : t.next + 1 < 2 ^ 56
    pub result : grant per_owner t owner object rights ≡ (
      put t slot
          (record { id = bit_or t.domain t.next; owner = owner; object = object; rights = rights }),
      ok (bit_or t.domain t.next),
    )

  -- `grant` either refuses and leaves the table alone, or succeeds in this way.
  pub grant_cases :
      (per_owner : ℕ) (t : Table T) (owner : ℕ) (object : T) (rights : ℕ)
      → ((e : Error) × (grant per_owner t owner object rights ≡ (t, err e)))
        ⊎ Granted per_owner t owner object rights
  unfolding grant
  grant_cases per_owner t owner object rights =
      elim (Bool-cases (rights == 0 || exceeds rights t.allowed)) [
        | inl d ↦ inl (Error.denied, ground arith)
        | inr nd ↦ elim (Bool-cases (room per_owner t owner)) [
          | inr full ↦ inl (Error.quota, ground arith)
          | inl space ↦ elim (Option-cases (first_free t.entries)) [
            | inl full ↦ inl (Error.quota, ground arith)
            | inr (slot, free) ↦ elim (Bool-cases (ltb (t.next + 1) (2 ^ 56))) [
              | inr spent ↦ inl (Error.quota, ground arith)
              | inl left ↦ inr (record {
                slot = slot;
                free = free;
                nonzero = ground arith;
                within = ground arith;
                space = space;
                counter = ground arith;
                result = ground arith;
              })
            ]
          ]
        ]
      ]

  -- A call of `transfer` that succeeds.
  pub record Transferred (per_owner : ℕ) (t : Table T) (owner id target rights : ℕ) : Type 0 where
    pub slot : ℕ
    pub old : Entry T
    pub found : find_slot (names owner id) t.entries ≡ some (slot, old)
    pub may_transfer : t.transfer_right ≢ 0
    pub old_transfers : bit_and old.rights t.transfer_right ≢ 0
    pub nonzero : rights ≢ 0
    pub within : bit_and rights (complement 8 old.rights) ≡ 0
    pub space : (target ≡ owner) ⊎ (room per_owner t target ≡ true)
    pub counter : t.next + 1 < 2 ^ 56
    pub result : transfer per_owner t owner id target rights ≡ (
      put t slot (record old { id = bit_or t.domain t.next; owner = target; rights = rights }),
      ok (bit_or t.domain t.next),
    )

  -- `transfer` either refuses and leaves the table alone, or succeeds in this way.
  pub transfer_cases :
      (per_owner : ℕ) (t : Table T) (owner id target rights : ℕ)
      → ((e : Error) × (transfer per_owner t owner id target rights ≡ (t, err e)))
        ⊎ Transferred per_owner t owner id target rights
  unfolding transfer index
  transfer_cases per_owner t owner id target rights =
      elim (Option-cases (find_slot (names owner id) t.entries)) [
        | inl missing ↦ inl (Error.handle, ground arith)
        | inr ((slot, old), found) ↦
            elim (Bool-cases (
              t.transfer_right == 0
              || bit_and old.rights t.transfer_right == 0
              || rights == 0
              || exceeds rights old.rights)) [
                | inl d ↦ inl (Error.denied, ground arith)
                | inr nd ↦
                    elim (Bool-cases (not (target == owner) && not (room per_owner t target))) [
                      | inl full ↦ inl (Error.quota, ground arith)
                      | inr space ↦ elim (Bool-cases (ltb (t.next + 1) (2 ^ 56))) [
                        | inr spent ↦ inl (Error.quota, ground arith)
                        | inl left ↦ inr (record {
                          slot = slot;
                          old = old;
                          found = found;
                          may_transfer = ground arith;
                          old_transfers = ground arith;
                          nonzero = ground arith;
                          within = ground arith;
                          space = ground arith;
                          counter = ground arith;
                          result = ground arith;
                        })
                      ]
                    ]
              ]
      ]

  -- `remove` either finds no such handle and leaves the table alone, or empties its slot.
  pub remove_cases :
      (t : Table T) (owner id : ℕ)
      → ((find_slot (names owner id) t.entries ≡ none)
          × (remove t owner id ≡ (t, err Error.handle)))
        ⊎ ((slot : ℕ) × (e : Entry T) × (find_slot (names owner id) t.entries ≡ some (slot, e))
            × (at t.entries slot ≡ some e)
            × (remove t owner id ≡ (record t { entries = set t.entries slot none }, ok e.object)))
  unfolding remove index
  remove_cases t owner id = elim (Option-cases (find_slot (names owner id) t.entries)) [
    | inl missing ↦ inl (missing, ground arith)
    | inr ((slot, e), found) ↦
        inr (slot, e, found, (find_slot-at (names owner id) t.entries slot e found).0, ground arith)
  ]
