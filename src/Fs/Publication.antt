-- ===== src/Fs/Publication.antt =====
-- crates/fs/src/publication: one publication of new metadata, driven a command at a time.
-- A panic of the source (`unwrap`, `unreachable!`) is `none`.
pub mod Plan
pub mod Isolation
pub mod Drive
pub mod Settle
pub mod Runs
use rustic_os.Base.{
  ℕ, zero, suc, ◌+◌, ◌-◌, ◌*◌, ◌≡◌, ◌≢◌, Bool, true, false, not, ◌&&◌, ◌||◌, leb, ltb, ◌==◌, Option,
  none, some, List, [], ◌∷◌, ◌++◌, length, drop, replicate, if◌then◌else◌, Result, ok, err,
}
use rustic_os.Base.Bytes.{slice}
use rustic_os.Base.Words.{checked_add}
use rustic_os.Fs.{Error, exhausted, max_file}
use rustic_os.Fs.Storage.{Poll, pending, ready, Answer, Disk, execute, poll}
use rustic_os.Fs.Volume.{Volume}
use rustic_os.Fs.Format.{Metadata, Command, write, flush, write_steps, command}

pub data Phase : Type 0 where
  preparing ready_to_publish settling committed cancelled uncertain : Phase

pub data Cancel : Type 0 where
  cancelled too_late draining : Cancel

pub record Publication (D T : Type 0) : Type 0 where
  pub volume : Volume
  pub disk : D
  pub next : Option Metadata
  pub data_bytes : List ℕ
  pub first_sector : ℕ
  pub data_steps : ℕ
  pub step : ℕ
  pub phase : Phase
  pub outcome : T
  pub pending : Bool
  pub stopping : Bool

-- What `drive` submits at its step: `none` is a panic.
unfoldable pub planned : Metadata → ℕ → List ℕ → ℕ → ℕ → ℕ → Option Command
planned next bank bytes first_sector data_steps step =
    if leb data_steps step
    then elim (command next bank (step - data_steps)) [ err e ↦ none | ok c ↦ some c ]
    else if leb step 1
    then some (write (first_sector + step) (slice (step * 512) 512 bytes))
    else if step == 2
    then some flush
    else none

module _ {D T : Type 0} where
  -- `bytes` has at most MAX_FILE bytes; the rest of the buffer is 0.
  unfoldable pub new : Volume → D → Metadata → ℕ → List ℕ → T → Publication D T
  new volume disk next first_sector bytes outcome = record {
    volume = record volume { poisoned = true };
    disk = disk;
    next = some next;
    data_bytes = bytes ++ replicate (max_file - length bytes) 0;
    first_sector = first_sector;
    data_steps = 3;
    step = 0;
    phase = preparing;
    outcome = outcome;
    pending = false;
    stopping = false;
  }

  unfoldable pub metadata_only : Volume → D → Metadata → T → Result Error (Publication D T)
  unfolding new
  metadata_only volume disk next outcome = elim (checked_add volume.metadata.sequence 1) [
    | none ↦ err exhausted
    | some sequence ↦
        ok (record (new volume disk (record next { sequence = sequence }) 0 [] outcome) {
          data_steps = 0;
        })
  ]

  unfoldable pub replayed : Volume → D → T → Publication D T
  replayed volume disk outcome = record {
    volume = volume;
    disk = disk;
    next = none;
    data_bytes = replicate max_file 0;
    first_sector = 0;
    data_steps = 0;
    step = 0;
    phase = Phase.committed;
    outcome = outcome;
    pending = false;
    stopping = false;
  }

  unfoldable pub result : Publication D T → Option T
  result p = elim p.phase [ Phase.committed ↦ some p.outcome | _ ↦ none ]

  abbrev pub total : Publication D T → Metadata → ℕ
  total p next = p.data_steps + write_steps next

  unfoldable pub before : Publication D T → Metadata → Phase
  before p next = if leb (total p next - 2) p.step then settling else p.phase

  -- The phase and the volume after the command of the last step settled well.
  unfoldable pub advanced : Publication D T → Metadata → Publication D T
  advanced p next =
      let q = record p { step = p.step + 1; pending = false } in
      if p.step + 1 == total p next
      then record q {
        volume = record { metadata = next; bank = 1 - p.volume.bank; poisoned = false };
        next = none;
        phase = Phase.committed;
      }
      else if p.step + 1 == total p next - 1
      then record q { phase = settling }
      else if p.step + 1 == total p next - 2
      then record q { phase = ready_to_publish }
      else record q { phase = preparing }

  unfoldable pub stopped : Publication D T → Publication D T
  stopped p =
      if p.stopping
      then record p { phase = Phase.cancelled; volume = record p.volume { poisoned = false } }
      else p

  unfoldable pub settle :
      Publication D T → Metadata → D → Poll Answer → Publication D T × Poll (Result Error Phase)
  unfolding before advanced stopped
  settle p next disk pending =
      (record p { disk = disk; phase = before p next; pending = true }, pending)
  settle p next disk (ready (err e)) = (
    record p { disk = disk; phase = Phase.uncertain; pending = true },
    ready (err Error.uncertain),
  )
  settle p next disk (ready (ok _)) =
      let q = stopped (advanced (record p { disk = disk }) next) in (q, ready (ok q.phase))

  unfoldable pub submit :
      (Command → D → D × Poll Answer)
      → Publication D T
      → Metadata
      → Option Command
      → Option (Publication D T × Poll (Result Error Phase))
  unfolding settle
  submit run p next none = none
  submit run p next (some c) = some (settle p next (run c p.disk).0 (run c p.disk).1)

  unfoldable pub drive_next :
      (Command → D → D × Poll Answer)
      → Publication D T
      → Option Metadata
      → Option (Publication D T × Poll (Result Error Phase))
  unfolding submit planned
  drive_next run p none = none
  drive_next run p (some next) =
      submit run p next
        (planned next (1 - p.volume.bank) p.data_bytes p.first_sector p.data_steps p.step)

  unfoldable pub drive_at :
      (Command → D → D × Poll Answer)
      → Publication D T
      → Phase
      → Option (Publication D T × Poll (Result Error Phase))
  unfolding drive_next
  drive_at run p Phase.committed = some (p, ready (ok Phase.committed))
  drive_at run p Phase.cancelled = some (p, ready (ok Phase.cancelled))
  drive_at run p Phase.uncertain = some (p, ready (err Error.uncertain))
  drive_at run p phase = drive_next run p p.next

  unfoldable pub drive :
      (Command → D → D × Poll Answer)
      → Publication D T
      → Option (Publication D T × Poll (Result Error Phase))
  unfolding drive_at
  drive run p = drive_at run p p.phase

  -- The two ways of `cancel`, by whether a command is outstanding.
  abbrev pub stop : Publication D T → Bool → Publication D T × Result Error Cancel
  stop p true = (record p { stopping = true }, ok draining)
  stop p false = (
    record p { phase = Phase.cancelled; volume = record p.volume { poisoned = false } },
    ok Cancel.cancelled,
  )

  unfoldable pub cancel_at : Publication D T → Phase → Publication D T × Result Error Cancel
  cancel_at p preparing = stop p p.pending
  cancel_at p ready_to_publish = stop p p.pending
  cancel_at p Phase.cancelled = stop p p.pending
  cancel_at p settling = (p, ok too_late)
  cancel_at p Phase.committed = (p, ok too_late)
  cancel_at p Phase.uncertain = (p, err Error.uncertain)

  unfoldable pub cancel : Publication D T → Publication D T × Result Error Cancel
  unfolding cancel_at
  cancel p = cancel_at p p.phase

  -- `Drop`: what the volume is left as.
  unfoldable pub dropped : Publication D T → Volume
  dropped p = elim p.phase [
    | preparing ↦ if not p.pending then record p.volume { poisoned = false } else p.volume
    | ready_to_publish ↦ if not p.pending then record p.volume { poisoned = false } else p.volume
    | _ ↦ p.volume
  ]

abbrev pub settled : {D : Type 0} → D × Answer → D × Poll Answer
settled (d, r) = (d, ready r)

-- A synchronous call that is still pending is `unreachable!`.
abbrev pub of_poll :
    {D T : Type 0}
    → Option (Publication D T × Poll (Result Error Phase))
    → Option (Publication D T × Result Error Phase)
of_poll none = none
of_poll (some (p, ready r)) = some (p, r)
of_poll (some (p, pending)) = none

module _ {D T : Type 0} (disk : Disk D) where
  unfoldable pub poll_advance :
      Publication D T → Option (Publication D T × Poll (Result Error Phase))
  unfolding drive
  poll_advance p = drive (poll disk) p

  -- `advance`, by whether a command is outstanding.
  unfoldable pub advance_if : Publication D T → Bool → Option (Publication D T × Result Error Phase)
  unfolding drive
  advance_if p true = some (p, err Error.uncertain)
  advance_if p false = of_poll (drive (λ c d. settled (execute disk c d)) p)

  unfoldable pub advance : Publication D T → Option (Publication D T × Result Error Phase)
  unfolding advance_if
  advance p = advance_if p p.pending
