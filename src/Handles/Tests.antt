-- ===== src/Handles/Tests.antt =====
-- kernel/src/handles: a table of four slots, two handles for each owner, where owner 5 is granted an
-- object and passes it on to owner 6.
use rustic_os.Base.{ℕ, ◌+◌, ◌^◌, ◌≡◌, refl, arith, ok, err}
use rustic_os.Base.Slots.{count, find_slot, first_free}
use rustic_os.Handles.{Error, Table, new, grant, remove, resolve, transfer, room, index}
use rustic_os.Handles.Invariant.{IsValid, new-IsValid, grant-IsValid}
use rustic_os.Handles.Resolve.{resolve-grant, resolve-remove}
use rustic_os.Handles.Transfer.{resolve-transfer, transfer_attenuates}

abbrev empty : Table ℕ
empty = new ℕ 4 1 7 4

abbrev id1 : ℕ
id1 = 2 ^ 56 + 1

abbrev id2 : ℕ
id2 = 2 ^ 56 + 2

abbrev granted : Table ℕ
granted = (grant 2 empty 5 42 7).0

empty-IsValid : IsValid 4 2 empty
empty-IsValid = new-IsValid ℕ 4 2 1 7 4 (omega arith)

granted-IsValid : IsValid 4 2 granted
granted-IsValid = grant-IsValid 4 2 empty empty-IsValid 5 42 7 (omega arith)

resolve-grant_example : resolve granted 5 id1 2 ≡ ok 42
unfolding grant new room count first_free
resolve-grant_example = resolve-grant 4 2 empty empty-IsValid 5 42 7 id1 refl 5 id1 2

resolve-remove_example : resolve (remove granted 5 id1).0 5 id1 2 ≡ err Error.handle
unfolding grant new room count first_free remove index find_slot
resolve-remove_example = resolve-remove 4 2 granted granted-IsValid 5 id1 {object = 42} refl 5 id1 2

resolve-transfer_example : resolve (transfer 2 granted 5 id1 6 3).0 6 id2 1 ≡ ok 42
unfolding grant new room count first_free transfer index find_slot resolve
resolve-transfer_example =
    resolve-transfer 4 2 granted granted-IsValid 5 id1 6 3 id2 42 refl refl 6 id2 1

transfer_attenuates_example : resolve granted 5 id1 1 ≡ ok 42
unfolding grant new room count first_free transfer index find_slot resolve
transfer_attenuates_example =
    transfer_attenuates 4 2 granted granted-IsValid 5 id1 6 3 id2 (omega arith) refl 1 42
      (omega arith) refl
