-- ===== src/Fs/Mutations/Atomic.antt =====
-- crates/fs/src/mutations.rs, publication/writer.rs: a replacement of a file's bytes under any calls
-- and any answers of the disk.
use rustic_os.Base.{ℕ, Bool, true, false, Option, none, some, List, [], ◌∷◌, Result, ok, err}
use rustic_os.Fs.{Error}
use rustic_os.Fs.Volume.{Volume}
use rustic_os.Fs.Storage.{Disk, Answer, Poll, ready, pending, execute}
use rustic_os.Fs.Format.{Metadata, Command}
use rustic_os.Fs.Publication.{
  Publication, Phase, cancel, drive, poll_advance, advance, settled, of_poll, settle, submit,
  drive_next, drive_at, advance_if, preparing, ready_to_publish, settling,
}
use rustic_os.Fs.Publication.Plan.{IsValid}
use rustic_os.Fs.Publication.Isolation.{IsIsolated, Start, poll-IsLawful, execute-IsLawful}
use rustic_os.Fs.Publication.Runs.{Kept, drive-Kept, cancel-IsIsolated}

-- A call on a publication.
pub data Call : Type 0 where
  polls advances cancels : Call

abbrev pub first {ℓ κ} : {A : Type ℓ} {B : Type κ} → Option (A × B) → Option A
first none = none
first (some (a, _)) = some a

module _ {D T : Type 0} (disk : Disk D) where
  unfoldable pub call : Call → Publication D T → Option (Publication D T)
  call polls p = first (poll_advance disk p)
  call advances p = first (advance disk p)
  call cancels p = some (cancel p).0

  abbrev pub then_call : Call → Option (Publication D T) → Option (Publication D T)
  then_call c none = none
  then_call c (some p) = call c p

  -- The calls of the list, its last element first; `none` when one panics.
  unfoldable pub calls : List Call → Publication D T → Option (Publication D T)
  calls [] p = some p
  calls (c ∷ earlier) p = then_call c (calls earlier p)

-- A synchronous drive is not left pending.
abbrev IsReady : {A B : Type 0} → Option (A × Poll B) → Type 0
IsReady none = Unit {0}
IsReady (some (_, pending)) = ⊥
IsReady (some (_, ready _)) = Unit {0}

abbrev pub sync : {D : Type 0} → Disk D → Command → D → D × Poll Answer
sync disk c d = settled (execute disk c d)

module _ {D T : Type 0} (disk : Disk D) where
  settle-IsReady :
      (p : Publication D T) (m : Metadata) (d : D) (x : Answer)
      → IsReady (some (settle p m d (ready x)))
  unfolding settle
  settle-IsReady p m d (err e) = tt
  settle-IsReady p m d (ok _) = tt

  submit-IsReady :
      (p : Publication D T) (m : Metadata) (c : Option Command) → IsReady (submit (sync disk) p m c)
  unfolding submit
  submit-IsReady p m none = tt
  submit-IsReady p m (some c) =
      settle-IsReady p m (execute disk c p.disk).0 (execute disk c p.disk).1

  drive_next-IsReady :
      (p : Publication D T) (next : Option Metadata) → IsReady (drive_next (sync disk) p next)
  unfolding drive_next
  drive_next-IsReady p none = tt
  drive_next-IsReady p (some m) = submit-IsReady p m _

  drive_at-IsReady : (p : Publication D T) (phase : Phase) → IsReady (drive_at (sync disk) p phase)
  unfolding drive_at
  drive_at-IsReady p preparing = drive_next-IsReady p p.next
  drive_at-IsReady p ready_to_publish = drive_next-IsReady p p.next
  drive_at-IsReady p settling = drive_next-IsReady p p.next
  drive_at-IsReady p Phase.committed = tt
  drive_at-IsReady p Phase.cancelled = tt
  drive_at-IsReady p Phase.uncertain = tt

abbrev pub Isolated :
    {D T : Type 0}
    → (D → ℕ → List ℕ)
    → Volume
    → Metadata
    → Start D
    → Option (Publication D T)
    → Type 0
Isolated view v m d none = ⊥
Isolated view v m d (some q) = IsIsolated view v m d q

module _ {D T : Type 0} (disk : Disk D) {v : Volume} (valid : IsValid v) (m : Metadata)
    (d : Start D) where
  first-Isolated :
      {R : Type 0} (o : Option (Publication D T × R))
      → Kept disk.view v m d o
      → Isolated disk.view v m d (first o)
  first-Isolated none k = elim k [ ]
  first-Isolated (some (q, _)) k = k

  of_poll-Isolated :
      (o : Option (Publication D T × Poll (Result Error Phase)))
      → IsReady o
      → Kept disk.view v m d o
      → Isolated disk.view v m d (first (of_poll o))
  of_poll-Isolated none r k = elim k [ ]
  of_poll-Isolated (some (q, pending)) r k = elim r [ ]
  of_poll-Isolated (some (q, ready _)) r k = k

  advance_if-Isolated :
      (p : Publication D T) (outstanding : Bool)
      → IsIsolated disk.view v m d p
      → Isolated disk.view v m d (first (advance_if disk p outstanding))
  unfolding advance_if drive
  advance_if-Isolated p true h = h
  advance_if-Isolated p false h =
      of_poll-Isolated (drive (sync disk) p) (drive_at-IsReady disk p p.phase)
        (drive-Kept (execute-IsLawful disk) valid p h)

  call-Isolated :
      (c : Call) (p : Publication D T)
      → IsIsolated disk.view v m d p
      → Isolated disk.view v m d (call disk c p)
  unfolding call poll_advance advance
  call-Isolated polls p h =
      first-Isolated (poll_advance disk p) (drive-Kept (poll-IsLawful disk) valid p h)
  call-Isolated advances p h = advance_if-Isolated p p.pending h
  call-Isolated cancels p h = cancel-IsIsolated p h

  then_call-Isolated :
      (c : Call) (o : Option (Publication D T))
      → Isolated disk.view v m d o
      → Isolated disk.view v m d (then_call disk c o)
  then_call-Isolated c none h = elim h [ ]
  then_call-Isolated c (some p) h = call-Isolated c p h

  pub calls-Isolated :
      (cs : List Call) (p : Publication D T)
      → IsIsolated disk.view v m d p
      → Isolated disk.view v m d (calls disk cs p)
  unfolding calls
  calls-Isolated [] p h = h
  calls-Isolated (c ∷ earlier) p h =
      then_call-Isolated c (calls disk earlier p) (calls-Isolated earlier p h)
