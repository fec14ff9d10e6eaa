-- ===== src/Ipc/Broker/Connect.antt =====
-- `connect` of kernel/src/ipc/broker.rs: a new channel with a handle on each side, and the refusals.
use mathlib.Core.Path.{subst}
use rustic_os.Base.{
  ℕ, ◌+◌, ◌<◌, ◌^◌, bit_or, ◌≡◌, refl, sym, ap, ◌∙◌, ◌⊎◌, inl, inr, true, false, ◌&&◌, none, some,
  set, length, length-set, ◌==◌, Bool-cases, ltb, Option-cases, arith, Result, err,
}
use rustic_os.Base.Slots.{at, set-undo, first_free, first_free-at}
use rustic_os.Handles
use rustic_os.Handles.{Entry, names, Table}
use rustic_os.Handles.Cases.{put, grant_cases, remove_cases, Granted}
use rustic_os.Handles.Invariant
use rustic_os.Handles.Invariant.{grant-IsValid, remove-IsValid, fresh_id}
use rustic_os.Handles.Resolve.{find-put}
use rustic_os.Ipc.Abi.{Error, all, quota, of_handles}
use rustic_os.Ipc.Channel.{side0, side1, new_channel}
use rustic_os.Ipc.Broker.{
  Endpoint, Broker, connect, connect_first, connect_second, connect_undo, new_endpoint,
  handles_per_owner, endpoint_handles,
}
use rustic_os.Ipc.Broker.Linked.{Linked}
use rustic_os.Ipc.Broker.Opening.{opened-Linked}
use rustic_os.Ipc.Broker.Invariant.{IsValid}

-- The broker is as it was, but for handle ids that were used up.
pub record Unchanged (b b' : Broker) : Type 0 where
  pub channels : b'.channels ≡ b.channels
  pub entries : b'.handles.entries ≡ b.handles.entries
  pub next_channel : b'.next_channel ≡ b.next_channel

-- What `connect` may leave: a valid broker, unchanged on an error.
pub record Connected (b : Broker) (r : Broker × Result Error (ℕ × ℕ)) : Type 0 where
  pub valid : IsValid r.0
  pub atomic : (e : Error) → r.1 ≡ err e → Unchanged b r.0

abbrev entry : Table Endpoint → ℕ → Endpoint → Entry Endpoint
entry t owner e = record { id = bit_or t.domain t.next; owner = owner; object = e; rights = all }

module _ (b : Broker) (v : IsValid b) where
  refused : (e : Error) → Connected b (b, err e)
  refused e = record {
    valid = v;
    atomic = λ _ _. record { channels = refl; entries = refl; next_channel = refl };
  }

  named : (a id : ℕ) → (id == id && a == a) ≡ true
  named a id = ground arith

  -- The first handle is taken back when the second is refused.
  undone :
      (a slot : ℕ) (e : Handles.Error)
      → at b.handles.entries slot ≡ none
      → slot < length b.handles.entries
      → let t = put b.handles slot (entry b.handles a (new_endpoint b side0)) in
        Invariant.IsValid endpoint_handles handles_per_owner t
        → Connected b
            (connect_undo b e (Handles.remove t a (bit_or b.handles.domain b.handles.next)))
  unfolding connect_undo
  undone a slot e free room vt =
      let e0 = entry b.handles a (new_endpoint b side0) in
      let id = bit_or b.handles.domain b.handles.next in
      let t = put b.handles slot e0 in
      let found =
        find-put endpoint_handles handles_per_owner b.handles v.handles_valid slot e0 a id room
          (fresh_id endpoint_handles handles_per_owner b.handles v.handles_valid) (named a id) in
      elim (remove_cases t a id) [
        | inl (absent, _) ↦ absurd (cc)
        | inr (i, f, found', there, removed) ↦
            let same : i ≡ slot = cc in
            let back : set t.entries i none ≡ b.handles.entries =
              ap (λ k. set t.entries k none) same
              ∙ set-undo b.handles.entries slot (some e0) free in
            subst (λ r. Connected b (connect_undo b e r)) (sym removed)
              (record {
                valid = record {
                  handles_valid =
                      subst (Invariant.IsValid endpoint_handles handles_per_owner)
                        (ap (λ r. r.0) removed)
                        (remove-IsValid endpoint_handles handles_per_owner t vt a id);
                  slots = v.slots;
                  linked = subst (λ es. Linked b.channels es b.next_channel) (sym back) v.linked;
                };
                atomic = λ _ _. record { channels = refl; entries = back; next_channel = refl };
              })
      ]

  connect_second-Connected :
      (a c free : ℕ)
      → first_free b.channels ≡ some free
      → (g : Granted handles_per_owner b.handles a (new_endpoint b side0) all)
      → let t = put b.handles g.slot (entry b.handles a (new_endpoint b side0)) in
        Connected b (
          connect_second b a free
            (b.next_channel + 1)
            (bit_or b.handles.domain b.handles.next)
            (Handles.grant handles_per_owner t c (new_endpoint b side1) all))
  unfolding connect_second
  connect_second-Connected a c free hf g =
      let e0 = entry b.handles a (new_endpoint b side0) in
      let t = put b.handles g.slot e0 in
      let (room_0, free_0) = first_free-at b.handles.entries g.slot g.free in
      let vt : Invariant.IsValid endpoint_handles handles_per_owner t =
        subst (Invariant.IsValid endpoint_handles handles_per_owner) (ap (λ r. r.0) g.result) (
          grant-IsValid endpoint_handles handles_per_owner b.handles v.handles_valid a
            (new_endpoint b side0) all (omega arith)) in
      elim (grant_cases handles_per_owner t c (new_endpoint b side1) all) [
        | inl (e, same) ↦
            subst
              (λ r. Connected b (
                connect_second b a free (b.next_channel + 1)
                  (bit_or b.handles.domain b.handles.next) r))
              (sym same) (undone a g.slot e free_0 room_0 vt)
        | inr h ↦
            let (room_1, free_1) = first_free-at t.entries h.slot h.free in
            let e1 = entry t c (new_endpoint b side1) in
            let (room_j, free_j) = first_free-at b.channels free hf in
            subst
              (λ r. Connected b (
                connect_second b a free (b.next_channel + 1)
                  (bit_or b.handles.domain b.handles.next) r))
              (sym h.result)
              (record {
                valid = record {
                  handles_valid =
                      subst (Invariant.IsValid endpoint_handles handles_per_owner)
                        (ap (λ r. r.0) h.result)
                        (grant-IsValid endpoint_handles handles_per_owner t vt c
                          (new_endpoint b side1) all (omega arith));
                  slots = length-set b.channels free (some (new_channel b.next_channel)) ∙ v.slots;
                  linked =
                      opened-Linked b.channels b.handles.entries b.next_channel v.linked free g.slot
                        h.slot e0 e1 (refl, refl) (refl, refl) free_j room_j room_0
                        (subst (λ n. h.slot < n) (length-set b.handles.entries g.slot (some e0))
                          room_1);
                };
                atomic = λ e bad. absurd (cc);
              })
      ]

  connect_started :
      (a c free : ℕ)
      → first_free b.channels ≡ some free
      → ltb (b.next_channel + 1) (2 ^ 64) ≡ true
      → connect b a c
        ≡ connect_first b a c free
            (b.next_channel + 1)
            (Handles.grant handles_per_owner b.handles a (new_endpoint b side0) all)
  unfolding connect
  connect_started a c free hf left = ground arith

  connect_refused :
      (a c : ℕ)
      → (first_free b.channels ≡ none) ⊎ (ltb (b.next_channel + 1) (2 ^ 64) ≡ false)
      → connect b a c ≡ (b, err quota)
  unfolding connect
  connect_refused a c h = ground arith

  connect_first-Connected :
      (a c free : ℕ)
      → first_free b.channels ≡ some free
      → Connected b (
          connect_first b a c free
            (b.next_channel + 1)
            (Handles.grant handles_per_owner b.handles a (new_endpoint b side0) all))
  unfolding connect_first
  connect_first-Connected a c free hf =
      elim (grant_cases handles_per_owner b.handles a (new_endpoint b side0) all) [
        | inl (e, same) ↦
            subst (λ r. Connected b (connect_first b a c free (b.next_channel + 1) r)) (sym same)
              (refused (of_handles e))
        | inr g ↦
            subst (λ r. Connected b (connect_first b a c free (b.next_channel + 1) r))
              (sym g.result) (connect_second-Connected a c free hf g)
      ]

  -- On a valid broker `connect` keeps the invariant. When it is refused, for want of a slot, of quota or of ids, no
  -- channel and no handle was added.
  pub connect-Connected : (a c : ℕ) → Connected b (connect b a c)
  connect-Connected a c = elim (Option-cases (first_free b.channels)) [
    | inl full ↦ subst (Connected b) (sym (connect_refused a c (inl full))) (refused quota)
    | inr (free, hf) ↦ elim (Bool-cases (ltb (b.next_channel + 1) (2 ^ 64))) [
      | inr spent ↦ subst (Connected b) (sym (connect_refused a c (inr spent))) (refused quota)
      | inl left ↦
          subst (Connected b) (sym (connect_started a c free hf left))
            (connect_first-Connected a c free hf)
    ]
  ]
