-- ===== src/Handles/Invariant.antt =====
-- The invariant of a handle table of kernel/src/handles/table.rs: the quotas, the domain byte and counter of the ids, ids that are
-- issued once, and rights that stay inside what the table allows.
use rustic_os.Base.{
  ℕ, ◌+◌, ◌*◌, ◌^◌, ◌≤◌, ◌<◌, bit_and, bit_or, ◌≡◌, sym, ◌∙◌, ◌≢◌, inl, inr, true, ◌⊎◌, none, some,
  arith, length, set, length-set, length-replicate, refl, Option-cases,
}
use mathlib.Core.Path.{subst}
use rustic_os.Base.Slots.{
  at, at-set_cases, at_lt, first_free-at, at-cleared, find_slot, find_slot-at, count, count-set,
  at-replicate, count-replicate,
}
use rustic_os.Base.Bits.{complement, bit_or_fields, within_trans}
use rustic_os.Handles.{new, Entry, Table, owned_by, names, room, index, grant, remove, transfer}
use rustic_os.Handles.Cases.{put, grant_cases, transfer_cases}

module _ {T : Type 0} where
  -- What holds of each entry of a table with this domain, counter and set of allowed rights.
  pub record EntryValid (domain next allowed : ℕ) (e : Entry T) : Type 0 where
    pub above : domain < e.id
    pub below : e.id < domain + next
    pub byte : e.rights < 2 ^ 8
    pub nonzero : e.rights ≢ 0
    pub within : bit_and e.rights (complement 8 allowed) ≡ 0

  pub record IsValid (capacity per_owner : ℕ) (t : Table T) : Type 0 where
    pub size : length t.entries ≡ capacity
    pub tag : ℕ
    pub tagged : t.domain ≡ tag * 2 ^ 56
    pub counter_pos : 1 ≤ t.next
    pub counter : t.next < 2 ^ 56
    pub allowed_byte : t.allowed < 2 ^ 8
    pub issued :
        (i : ℕ) (e : Entry T) → at t.entries i ≡ some e → EntryValid t.domain t.next t.allowed e
    pub distinct :
        (i j : ℕ) (e f : Entry T)
        → at t.entries i ≡ some e
        → at t.entries j ≡ some f
        → e.id ≡ f.id
        → i ≡ j
    pub quota : (owner : ℕ) → count (owned_by owner) t.entries ≤ per_owner

  -- An entry that is valid under one counter is valid under a later one.
  EntryValid-mono : (d n n' a : ℕ) {e : Entry T} → n ≤ n' → EntryValid d n a e → EntryValid d n' a e
  EntryValid-mono d n n' a h v = ground arith

  module _ (capacity per_owner : ℕ) (t : Table T) (v : IsValid capacity per_owner t) where
    pub fresh_id : bit_or t.domain t.next ≡ t.domain + t.next
    fresh_id = rw (v.tagged) (bit_or_fields 56 v.tag t.next v.counter)

    put-issued :
        (slot : ℕ) (e : Entry T)
        → slot < length t.entries
        → EntryValid t.domain (t.next + 1) t.allowed e
        → (i : ℕ) (f : Entry T) → at (put t slot e).entries i ≡ some f
        → EntryValid t.domain (t.next + 1) t.allowed f
    put-issued slot e l ve i f h = elim (at-set_cases t.entries slot i (some e) l h) [
      | inl (_, same) ↦ subst (EntryValid t.domain (t.next + 1) t.allowed) (cc) ve
      | inr (_, old) ↦
          EntryValid-mono t.domain t.next (t.next + 1) t.allowed (omega arith) (v.issued i f old)
    ]

    pub put-distinct :
        (slot : ℕ) (e : Entry T)
        → slot < length t.entries
        → e.id ≡ t.domain + t.next
        → (i j : ℕ) (f g : Entry T) → at (put t slot e).entries i ≡ some f
        → at (put t slot e).entries j ≡ some g
        → f.id ≡ g.id
        → i ≡ j
    put-distinct slot e l he i j f g hf hg same =
        elim (at-set_cases t.entries slot i (some e) l hf) [
          | inl (si, ef) ↦ elim (at-set_cases t.entries slot j (some e) l hg) [
            | inl (sj, eg) ↦ sym si ∙ sj
            | inr (_, og) ↦ absurd (ground (arith, v.issued j g og))
          ]
          | inr (_, of) ↦ elim (at-set_cases t.entries slot j (some e) l hg) [
            | inl (_, eg) ↦ absurd (ground (arith, v.issued i f of))
            | inr (_, og) ↦ v.distinct i j f g of og same
          ]
        ]

    -- The table after such a write, given the quota of its owner.
    put-IsValid :
        (slot : ℕ) (e : Entry T)
        → slot < length t.entries
        → t.next + 1 < 2 ^ 56
        → e.id ≡ t.domain + t.next
        → e.rights < 2 ^ 8
        → e.rights ≢ 0
        → bit_and e.rights (complement 8 t.allowed) ≡ 0
        → ((owner : ℕ) → count (owned_by owner) (set t.entries slot (some e)) ≤ per_owner)
        → IsValid capacity per_owner (put t slot e)
    put-IsValid slot e l hn he hb hz hw hq = record {
      size = length-set t.entries slot (some e) ∙ v.size;
      tag = v.tag;
      tagged = v.tagged;
      counter_pos = omega arith;
      counter = hn;
      allowed_byte = v.allowed_byte;
      issued = put-issued slot e l (ground (arith, v.counter_pos));
      distinct = put-distinct slot e l he;
      quota = hq;
    }

    grant_quota :
        (slot : ℕ) (e : Entry T)
        → slot < length t.entries
        → at t.entries slot ≡ none
        → room per_owner t e.owner ≡ true
        → (owner : ℕ) → count (owned_by owner) (set t.entries slot (some e)) ≤ per_owner
    unfolding room
    grant_quota slot e l free space owner =
        ground (arith, count-set (owned_by owner) t.entries slot (some e) l, v.quota owner)

    transfer_quota :
        (slot : ℕ) (old e : Entry T)
        → slot < length t.entries
        → at t.entries slot ≡ some old
        → (e.owner ≡ old.owner) ⊎ (room per_owner t e.owner ≡ true)
        → (owner : ℕ) → count (owned_by owner) (set t.entries slot (some e)) ≤ per_owner
    unfolding room
    transfer_quota slot old e l there space owner =
        ground (arith, count-set (owned_by owner) t.entries slot (some e) l, v.quota owner)

    -- `grant` keeps the invariant of a valid table, whatever it answers; `rights` is a byte.
    pub grant-IsValid :
        (owner : ℕ) (object : T) (rights : ℕ)
        → rights < 2 ^ 8
        → IsValid capacity per_owner (grant per_owner t owner object rights).0
    grant-IsValid owner object rights h = elim (grant_cases per_owner t owner object rights) [
      | inl (_, same) ↦ rw same v
      | inr g ↦
          let (l, free) = first_free-at t.entries g.slot g.free in
          let e : Entry T = record {
            id = bit_or t.domain t.next;
            owner = owner;
            object = object;
            rights = rights;
          } in
          rw g.result (
            put-IsValid g.slot e l g.counter fresh_id h g.nonzero g.within
              (grant_quota g.slot e l free g.space))
    ]

    -- Emptying a slot keeps the invariant.
    pub clear-IsValid :
        (slot : ℕ)
        → slot < length t.entries
        → IsValid capacity per_owner (record t { entries = set t.entries slot none })
    clear-IsValid slot l = record {
      size = length-set t.entries slot none ∙ v.size;
      tag = v.tag;
      tagged = v.tagged;
      counter_pos = v.counter_pos;
      counter = v.counter;
      allowed_byte = v.allowed_byte;
      issued = λ i e h. v.issued i e (at-cleared t.entries slot i e l h);
      distinct = λ i j e f he hf same.
          v.distinct i j e f (at-cleared t.entries slot i e l he)
            (at-cleared t.entries slot j f l hf) same;
      quota =
          λ owner. omega (arith, count-set (owned_by owner) t.entries slot none l, v.quota owner);
    }

    -- `remove` keeps the invariant of a valid table, whatever it answers.
    pub remove-IsValid : (owner id : ℕ) → IsValid capacity per_owner (remove t owner id).0
    unfolding remove index
    remove-IsValid owner id = elim (Option-cases (find_slot (names owner id) t.entries)) [
      | inl missing ↦ rw (missing, remove) v
      | inr ((slot, e), found) ↦
          rw (found, remove)
            (clear-IsValid slot
              (at_lt t.entries slot (find_slot-at (names owner id) t.entries slot e found).0))
    ]

    -- `transfer` keeps the invariant of a valid table, whatever it answers; `rights` is a byte.
    pub transfer-IsValid :
        (owner id target rights : ℕ)
        → rights < 2 ^ 8
        → IsValid capacity per_owner (transfer per_owner t owner id target rights).0
    transfer-IsValid owner id target rights h =
        elim (transfer_cases per_owner t owner id target rights) [
          | inl (_, same) ↦ rw same v
          | inr g ↦
              let (there, named) = find_slot-at (names owner id) t.entries g.slot g.old g.found in
              let l = at_lt t.entries g.slot there in
              let e : Entry T = record (g.old) {
                id = bit_or t.domain t.next;
                owner = target;
                rights = rights;
              } in
              rw g.result (
                put-IsValid g.slot e l g.counter fresh_id h g.nonzero
                  (within_trans 8 rights g.old.rights t.allowed h (v.issued g.slot g.old there).byte
                    v.allowed_byte g.within (v.issued g.slot g.old there).within)
                  (transfer_quota g.slot g.old e l there (ground arith)))
        ]

-- A new table is valid, for a domain and rights that are bytes.
pub new-IsValid :
    (T : Type 0) (capacity per_owner domain allowed transfer_right : ℕ)
    → allowed < 2 ^ 8
    → IsValid capacity per_owner (new T capacity domain allowed transfer_right)
unfolding new
new-IsValid T capacity per_owner domain allowed transfer_right h = record {
  size = length-replicate capacity none;
  tag = domain;
  tagged = refl;
  counter_pos = omega arith;
  counter = omega arith;
  allowed_byte = h;
  issued = λ i e there. ground (arith, at-replicate {A = Entry T} capacity i);
  distinct = λ i j e f there also. ground (arith, at-replicate {A = Entry T} capacity i);
  quota = λ owner. omega (arith, count-replicate (owned_by {T = T} owner) capacity);
}
