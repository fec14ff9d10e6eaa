-- ===== src/Handles/Transfer.antt =====
-- A moved handle: kernel/src/handles/table.rs, `transfer`.
use rustic_os.Base.{
  ℕ, ◌+◌, ◌^◌, ◌<◌, bit_or, ◌≡◌, inl, inr, false, ◌&&◌, none, some, arith, ◌==◌, if◌then◌else◌, ok,
  err, Bool-cases,
}
use rustic_os.Base.Slots.{at, at-set_cases, at_lt, find_slot, find_slot-at, find_slot_absent}
use rustic_os.Base.Bits.{rights_within, bit_and-zero}
use rustic_os.Handles.{Error, Entry, Table, names, resolve, transfer}
use rustic_os.Handles.Cases.{put, transfer_cases}
use rustic_os.Handles.Invariant.{IsValid, fresh_id}
use rustic_os.Handles.Resolve.{answer, resolve_of_find, resolve_of_absent, resolve-put}

module _ {T : Type 0} (capacity per_owner : ℕ) (t : Table T)
    (v : IsValid capacity per_owner t) where
  -- Once a newer entry has taken the slot of `old`, nothing carries the id of `old`.
  overwritten-absent :
      (slot : ℕ) (old e : Entry T)
      → at t.entries slot ≡ some old
      → e.id ≡ t.domain + t.next
      → (owner id : ℕ) → old.id ≡ id
      → find_slot (names owner id) (put t slot e).entries ≡ none
  overwritten-absent slot old e there he owner id same =
      find_slot_absent (names owner id) (put t slot e).entries none_left
    where
      none_left :
          (i : ℕ) (f : Entry T) → at (put t slot e).entries i ≡ some f → names owner id f ≡ false
      none_left i f h =
          elim (at-set_cases t.entries slot i (some e) (at_lt t.entries slot there) h) [
            | inl (_, new) ↦ ground (arith, v.issued slot old there)
            | inr (ne, kept) ↦ elim (Bool-cases (f.id == id)) [
              | inl eq ↦ absurd (ne (v.distinct slot i old f there kept (ground arith)))
              | inr other ↦ ground arith
            ]
          ]

  -- On a valid table, after a successful `transfer` of the handle `id` of `owner`, which stood for
  -- `object`, that handle is dead for everyone,
  -- the new handle answers the target by the new rights for the same object, and every other handle
  -- answers as before.
  pub resolve-transfer :
      (owner id target rights new : ℕ) (object : T)
      → resolve t owner id 0 ≡ ok object
      → (transfer per_owner t owner id target rights).1 ≡ ok new
      → (owner' id' right : ℕ)
      → resolve (transfer per_owner t owner id target rights).0 owner' id' right ≡ (
          if id' == id
          then err Error.handle
          else if id' == new && owner' == target
          then answer rights object right
          else resolve t owner' id' right)
  resolve-transfer owner id target rights new object hr h owner' id' right =
      elim (transfer_cases per_owner t owner id target rights) [
        | inl (e, refused) ↦ absurd (ground arith)
        | inr g ↦
            let (there, named) = find_slot-at (names owner id) t.entries g.slot g.old g.found in
            let l = at_lt t.entries g.slot there in
            let e : Entry T = record (g.old) {
              id = bit_or t.domain t.next;
              owner = target;
              rights = rights;
            } in
            let fresh = fresh_id capacity per_owner t v in
            let was = resolve_of_find t owner id 0 g.slot g.old g.found in
            elim (Bool-cases (id' == id)) [
              | inl dead ↦
                  let gone =
                    overwritten-absent g.slot g.old e there fresh owner' id' (ground arith) in
                  ground (arith, resolve_of_absent (put t g.slot e) owner' id' right gone)
              | inr live ↦ ground (
                arith,
                bit_and-zero g.old.rights,
                resolve-put capacity per_owner t v g.slot e owner' id' right l fresh
                    (rw there (ground arith)),
              )
            ]
      ]

  -- On a valid table a move never adds a right: what the new handle allows its new owner, for rights
  -- that are bytes, the old one allowed before.
  pub transfer_attenuates :
      (owner id target rights new : ℕ)
      → rights < 2 ^ 8
      → (transfer per_owner t owner id target rights).1 ≡ ok new
      → (right : ℕ) (object : T) → right < 2 ^ 8
      → resolve (transfer per_owner t owner id target rights).0 target new right ≡ ok object
      → resolve t owner id right ≡ ok object
  transfer_attenuates owner id target rights new hb h right object hr works =
      elim (transfer_cases per_owner t owner id target rights) [
        | inl (e, refused) ↦ absurd (ground arith)
        | inr g ↦
            let (there, named) = find_slot-at (names owner id) t.entries g.slot g.old g.found in
            let l = at_lt t.entries g.slot there in
            let e : Entry T = record (g.old) {
              id = bit_or t.domain t.next;
              owner = target;
              rights = rights;
            } in
            let fresh = fresh_id capacity per_owner t v in
            let keeps =
              rights_within 8 rights g.old.rights right hb (v.issued g.slot g.old there).byte hr
                g.within in
            ground (
              arith,
              keeps,
              v.issued g.slot g.old there,
              resolve_of_find t owner id right g.slot g.old g.found,
              resolve-put capacity per_owner t v g.slot e target new right l fresh,
            )
      ]
