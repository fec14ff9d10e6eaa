-- ===== src/Handles.antt =====
-- kernel/src/handles: owner-bound handles, the capability table that the IPC broker and the block
-- broker share. `T` is the object that a handle stands for; `per_owner` is the const generic
-- PER_OWNER. The array of CAPACITY slots is a list whose length the invariant fixes.
-- A method on `&mut self` returns the table that it leaves behind with its result.
pub mod Cases
pub mod Invariant
pub mod Resolve
pub mod Transfer
mod Tests
use Prim.Native.Nat.{max}
use rustic_os.Base.{
  [], ◌∷◌, ℕ, ◌+◌, ◌*◌, ◌^◌, bit_and, bit_or, Bool, true, false, not, ◌&&◌, ◌||◌, Option, none,
  some, List, ◌==◌, ltb, if◌then◌else◌, Result, ok, err, replicate, set, ◌-◌,
}
use rustic_os.Base.Slots.{first_free, find_slot, count}
use rustic_os.Base.Bits.{complement}
use rustic_os.Base.Words.{checked_add, keep_if}

pub data Error : Type 0 where
  handle denied quota : Error

pub record Entry (T : Type 0) : Type 0 where
  pub id : ℕ
  pub owner : ℕ
  pub object : T
  pub rights : ℕ

pub record Table (T : Type 0) : Type 0 where
  pub entries : List (Option (Entry T))
  pub next : ℕ
  pub domain : ℕ
  pub allowed : ℕ
  pub transfer_right : ℕ

-- Rights outside `allowed`: `rights & !allowed != 0`, on bytes.
abbrev pub exceeds : ℕ → ℕ → Bool
exceeds rights allowed = not (bit_and rights (complement 8 allowed) == 0)

module _ {T : Type 0} where
  abbrev pub owned_by : ℕ → Entry T → Bool
  owned_by owner e = e.owner == owner

  abbrev pub names : ℕ → ℕ → Entry T → Bool
  names owner id e = (e.id == id) && (e.owner == owner)

  unfoldable pub room : ℕ → Table T → ℕ → Bool
  room per_owner t owner = ltb (count (owned_by owner) t.entries) per_owner

  -- `index` with the entry that it finds, which the callers unwrap.
  unfoldable pub index : Table T → ℕ → ℕ → Result Error (ℕ × Entry T)
  index t owner id = elim (find_slot (names owner id) t.entries) [
    | none ↦ err Error.handle
    | some (slot, e) ↦ ok (slot, e)
  ]

  -- `self.next.checked_add(1).filter(|next| *next < (1 << 56))`
  abbrev pub next_id : Table T → Option ℕ
  next_id t = keep_if (λ n. ltb n (2 ^ 56)) (checked_add t.next 1)

  unfoldable pub grant : ℕ → Table T → ℕ → T → ℕ → Table T × Result Error ℕ
  unfolding room
  grant per_owner t owner object rights =
      if rights == 0 || exceeds rights t.allowed
      then (t, err Error.denied)
      else if not (room per_owner t owner)
      then (t, err Error.quota)
      else elim (first_free t.entries) [
        | none ↦ (t, err Error.quota)
        | some slot ↦ elim (next_id t) [
          | none ↦ (t, err Error.quota)
          | some next ↦
              let id = bit_or t.domain t.next in
              (
                record t {
                  next = next;
                  entries =
                      set t.entries slot (
                        some (record { id = id; owner = owner; object = object; rights = rights }));
                },
                ok id,
              )
        ]
      ]

  unfoldable pub resolve : Table T → ℕ → ℕ → ℕ → Result Error T
  resolve t owner id right = elim (index t owner id) [
    | err e ↦ err e
    | ok (slot, e) ↦ if not (bit_and e.rights right == right) then err Error.denied else ok e.object
  ]

  unfoldable pub remove : Table T → ℕ → ℕ → Table T × Result Error T
  remove t owner id = elim (index t owner id) [
    | err e ↦ (t, err e)
    | ok (slot, e) ↦ (record t { entries = set t.entries slot none }, ok e.object)
  ]

  unfoldable pub transfer : ℕ → Table T → ℕ → ℕ → ℕ → ℕ → Table T × Result Error ℕ
  unfolding room
  transfer per_owner t owner id target rights = elim (index t owner id) [
    | err e ↦ (t, err e)
    | ok (slot, old) ↦
        if t.transfer_right == 0
          || bit_and old.rights t.transfer_right == 0
          || rights == 0
          || exceeds rights old.rights
        then (t, err Error.denied)
        else if not (target == owner) && not (room per_owner t target)
        then (t, err Error.quota)
        else elim (next_id t) [
          | none ↦ (t, err Error.quota)
          | some next ↦
              let id' = bit_or t.domain t.next in
              (
                record t {
                  entries =
                      set t.entries slot
                        (some (record old { id = id'; owner = target; rights = rights }));
                  next = next;
                },
                ok (bit_or t.domain (next - 1)),
              )
        ]
  ]

  -- `first`: some handle of the owner, for the sweep that closes them all.
  unfoldable pub first : Table T → ℕ → Option ℕ
  first t owner = elim (find_slot (owned_by owner) t.entries) [
    | none ↦ none
    | some (slot, e) ↦ some e.id
  ]

  unfoldable pub count_handles : Table T → ℕ
  count_handles t = count (λ _. true) t.entries

  -- For each entry the number of entries of its owner; the largest of those.
  largest : List (Option (Entry T)) → List (Option (Entry T)) → ℕ
  largest all [] = 0
  largest all (none ∷ es) = largest all es
  largest all (some e ∷ es) = max (count (owned_by e.owner) all) (largest all es)

  unfoldable pub max_owner_count : Table T → ℕ
  unfolding largest
  max_owner_count t = largest t.entries t.entries

-- `Table::new`; `domain` is the byte that tells one broker's handles from another's.
unfoldable pub new : (T : Type 0) → ℕ → ℕ → ℕ → ℕ → Table T
new T capacity domain allowed transfer_right = record {
  entries = replicate capacity none;
  next = 1;
  domain = domain * 2 ^ 56;
  allowed = allowed;
  transfer_right = transfer_right;
}
