-- ===== src/Handles/Resolve.antt =====
-- What `resolve` answers after `grant`, `remove` and `transfer`: what any owner sees
-- under any handle id.
use rustic_os.Base.{
  ℕ, ◌+◌, ◌<◌, bit_and, bit_or, ◌≡◌, refl, inl, inr, true, false, not, ◌&&◌, none, some, arith,
  ◌==◌, if◌then◌else◌, length, set, Result, ok, err, Bool-cases, Option-cases,
}
use rustic_os.Base.Slots.{
  at, at-set_cases, at-set_self, at_lt, first_free-at, find_slot, find_slot-at, find_slot_unique,
  find_slot_absent, find_slot-set_miss, passes,
}
use rustic_os.Handles.{Error, Entry, Table, names, index, grant, resolve, remove}
use rustic_os.Handles.Cases.{put, grant_cases}
use rustic_os.Handles.Invariant.{IsValid, fresh_id}

module _ {T : Type 0} where
  -- What a handle with these rights answers to a request for `right`.
  abbrev pub answer : ℕ → T → ℕ → Result Error T
  answer rights object right =
      if not (bit_and rights right == right) then err Error.denied else ok object

  pub resolve_of_find :
      (t : Table T) (owner id right slot : ℕ) (e : Entry T)
      → find_slot (names owner id) t.entries ≡ some (slot, e)
      → resolve t owner id right ≡ answer e.rights e.object right
  unfolding resolve index
  resolve_of_find t owner id right slot e h = ground arith

  pub resolve_of_absent :
      (t : Table T) (owner id right : ℕ)
      → find_slot (names owner id) t.entries ≡ none
      → resolve t owner id right ≡ err Error.handle
  unfolding resolve index
  resolve_of_absent t owner id right h = ground arith

  resolve_of_same :
      (t u : Table T) (owner id right : ℕ)
      → find_slot (names owner id) t.entries ≡ find_slot (names owner id) u.entries
      → resolve t owner id right ≡ resolve u owner id right
  unfolding resolve index
  resolve_of_same t u owner id right h = ground arith

  -- A handle that resolves is an entry of the table.
  pub resolve_ok :
      (t : Table T) (owner id right : ℕ) {object : T}
      → resolve t owner id right ≡ ok object
      → (slot : ℕ) × (e : Entry T) × (find_slot (names owner id) t.entries ≡ some (slot, e))
        × (at t.entries slot ≡ some e)
        × (e.object ≡ object)
  resolve_ok t owner id right h = elim (Option-cases (find_slot (names owner id) t.entries)) [
    | inl missing ↦ absurd (ground (arith, resolve_of_absent t owner id right missing))
    | inr ((slot, e), found) ↦ (
      slot,
      e,
      found,
      (find_slot-at (names owner id) t.entries slot e found).0,
      ground (arith, resolve_of_find t owner id right slot e found),
    )
  ]

  module _ (capacity per_owner : ℕ) (t : Table T) (v : IsValid capacity per_owner t) where
    -- After one entry is written with the next id, its handle is found where it was written.
    pub find-put :
        (slot : ℕ) (e : Entry T) (owner id : ℕ)
        → slot < length t.entries
        → e.id ≡ t.domain + t.next
        → names owner id e ≡ true
        → find_slot (names owner id) (put t slot e).entries ≡ some (slot, e)
    find-put slot e owner id l he n =
        find_slot_unique (names owner id) (put t slot e).entries slot e
          (at-set_self t.entries slot (some e) l) n only
      where
        only :
            (j : ℕ) (b : Entry T)
            → at (set t.entries slot (some e)) j ≡ some b
            → names owner id b ≡ true
            → slot ≡ j
        only j b h m = elim (at-set_cases t.entries slot j (some e) l h) [
          | inl (s, _) ↦ s
          | inr (_, old) ↦ absurd (ground (arith, v.issued j b old))
        ]

    -- The new handle answers by its rights; one that was not overwritten answers as before.
    pub resolve-put :
        (slot : ℕ) (e : Entry T) (owner id right : ℕ)
        → slot < length t.entries
        → e.id ≡ t.domain + t.next
        → passes (names owner id) (at t.entries slot) ≡ false
        → resolve (put t slot e) owner id right
          ≡ (if names owner id e then answer e.rights e.object right else resolve t owner id right)
    resolve-put slot e owner id right l he free = elim (Bool-cases (names owner id e)) [
      | inl new ↦
          rw new (
            resolve_of_find (put t slot e) owner id right slot e
              (find-put slot e owner id l he new))
      | inr other ↦ rw other (
          resolve_of_same (put t slot e) t owner id right
            (find_slot-set_miss (names owner id) t.entries slot (some e) free other))
    ]

    -- On a valid table, right after a successful `grant`, the new handle answers its owner with exactly the rights
    -- granted; every other pair of an owner and a handle answers as before.
    pub resolve-grant :
        (owner : ℕ) (object : T) (rights id : ℕ)
        → (grant per_owner t owner object rights).1 ≡ ok id
        → (owner' id' right : ℕ)
        → resolve (grant per_owner t owner object rights).0 owner' id' right ≡ (
            if id' == id && owner' == owner
            then answer rights object right
            else resolve t owner' id' right)
    resolve-grant owner object rights id h owner' id' right =
        elim (grant_cases per_owner t owner object rights) [
          | inl (e, refused) ↦ absurd (ground arith)
          | inr g ↦
              let (l, free) = first_free-at t.entries g.slot g.free in
              let e : Entry T = record {
                id = bit_or t.domain t.next;
                owner = owner;
                object = object;
                rights = rights;
              } in
              ground
                (arith, resolve-put g.slot e owner' id' right l (fresh_id capacity per_owner t v))
        ]

    removed-absent :
        (slot : ℕ) (e : Entry T)
        → at t.entries slot ≡ some e
        → (owner id : ℕ) → e.id ≡ id
        → find_slot (names owner id) (set t.entries slot none) ≡ none
    removed-absent slot e there owner id same =
        find_slot_absent (names owner id) (set t.entries slot none) none_left
      where
        none_left :
            (i : ℕ) (f : Entry T)
            → at (set t.entries slot none) i ≡ some f
            → names owner id f ≡ false
        none_left i f h = elim (at-set_cases t.entries slot i none (at_lt t.entries slot there) h) [
          | inl (_, ne) ↦ cc
          | inr (ne, old) ↦ elim (Bool-cases (f.id == id)) [
            | inl eq ↦ absurd (ne (v.distinct slot i e f there old (ground arith)))
            | inr other ↦ ground arith
          ]
        ]

    -- On a valid table, after a successful `remove`, the handle is dead for everyone, and every other handle answers as
    -- before.
    pub resolve-remove :
        (owner id : ℕ) {object : T}
        → (remove t owner id).1 ≡ ok object
        → (owner' id' right : ℕ)
        → resolve (remove t owner id).0 owner' id' right
          ≡ (if id' == id then err Error.handle else resolve t owner' id' right)
    unfolding remove index
    resolve-remove owner id h owner' id' right =
        elim (Option-cases (find_slot (names owner id) t.entries)) [
          | inl missing ↦ absurd (ground arith)
          | inr ((slot, e), found) ↦
              let (there, named) = find_slot-at (names owner id) t.entries slot e found in
              let after : Table T = record t { entries = set t.entries slot none } in
              let done : (remove t owner id).0 ≡ after = rw (found, remove, index) in
              elim (Bool-cases (id' == id)) [
                | inl dead ↦
                    rw (done, dead)
                      (resolve_of_absent after owner' id' right
                        (removed-absent slot e there owner' id' (ground arith)))
                | inr live ↦
                    rw (done, live)
                      (resolve_of_same after t owner' id' right (
                        find_slot-set_miss (names owner' id') t.entries slot none
                          (rw there (ground arith)) refl))
              ]
        ]
