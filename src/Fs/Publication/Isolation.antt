-- ===== src/Fs/Publication/Isolation.antt =====
-- crates/fs/src/publication/writer.rs: what holds of the disk and of the volume at every point of a
-- publication, whatever the disk answers and whenever it is cancelled.
use native.Mathlib.Decide.{ℕ_discrete}
use rustic_os.Base.{
  ℕ, ◌+◌, ◌-◌, ◌≤◌, ◌<◌, ◌≡◌, ap, ◌⊎◌, arith, Bool, true, false, Option, some, List, ok,
}
use rustic_os.Fs.Volume.{Volume}
use rustic_os.Fs.Storage.{Poll, ready, Answer, Disk, execute, poll}
use rustic_os.Fs.Format.{Metadata, Command, write, flush, header}
use rustic_os.Fs.Publication.{
  Publication, Phase, preparing, ready_to_publish, settling, planned, total, settled,
}
use rustic_os.Fs.Publication.Plan.{IsLive, Spare}

-- A way to run a command on the disk that changes only the sector it writes.
pub record IsLawful {D : Type 0} (view : D → ℕ → List ℕ) (run : Command → D → D × Poll Answer)
    : Type 0 where
  pub kept :
      (c : Command) (d : D) (t : ℕ)
      → ((bytes : List ℕ) → c ≡ write t bytes → ⊥)
      → view (run c d).0 t ≡ view d t
  pub written :
      (t : ℕ) (bytes : List ℕ) (d : D)
      → (run (write t bytes) d).1 ≡ ready (ok tt)
      → view (run (write t bytes) d).0 t ≡ bytes

module _ {D : Type 0} (disk : Disk D) where
  poll-kept :
      (c : Command) (d : D) (t : ℕ)
      → ((bytes : List ℕ) → c ≡ write t bytes → ⊥)
      → disk.view (poll disk c d).0 t ≡ disk.view d t
  unfolding poll
  poll-kept (write s bytes) d t other = elim (ℕ_discrete s t) [
    | yes same ↦ absurd (other bytes (ap (λ k. write k bytes) same))
    | no differ ↦ disk.poll_write_others s t bytes d differ
  ]
  poll-kept flush d t other = disk.poll_flush_keeps t d

  execute-kept :
      (c : Command) (d : D) (t : ℕ)
      → ((bytes : List ℕ) → c ≡ write t bytes → ⊥)
      → disk.view (execute disk c d).0 t ≡ disk.view d t
  unfolding execute
  execute-kept (write s bytes) d t other = elim (ℕ_discrete s t) [
    | yes same ↦ absurd (other bytes (ap (λ k. write k bytes) same))
    | no differ ↦ disk.write_others s t bytes d differ
  ]
  execute-kept flush d t other = disk.flush_keeps t d

  pub poll-IsLawful : IsLawful disk.view (poll disk)
  unfolding poll
  poll-IsLawful = record { kept = poll-kept; written = disk.poll_write_settled }

  pub execute-IsLawful : IsLawful disk.view (λ c d. settled (execute disk c d))
  unfolding execute
  execute-IsLawful = record {
    kept = execute-kept;
    written = λ t bytes d e. disk.write_settled t bytes d (ground arith);
  }

-- The volume once the other bank holds `m`.
abbrev pub published : Volume → Metadata → Volume
published v m = record { metadata = m; bank = 1 - v.bank; poisoned = false }

module _ {D T : Type 0} (v : Volume) (m : Metadata) where
  -- A publication under way, from the bank of `v` to the other one.
  pub record Going (p : Publication D T) : Type 0 where
    pub next : p.next ≡ some m
    pub fenced : p.volume ≡ record v { poisoned = true }
    pub within : p.step < total p m
    pub timing :
        ((p.phase ≡ preparing) × (p.step + 2 < total p m))
        ⊎ (((p.phase ≡ ready_to_publish) × (p.step + 2 ≡ total p m) × (p.pending ≡ false))
            ⊎ ((p.phase ≡ settling) × (total p m ≤ p.step + 2)))
    pub drains : p.stopping ≡ true → p.step + 2 < total p m

  abbrev pub Stage : Publication D T → Type 0
  Stage p =
      Going p
      ⊎ (((p.phase ≡ Phase.committed) × (p.volume ≡ published v m) × (p.step ≡ total p m))
          ⊎ (((p.phase ≡ Phase.cancelled)
                × (p.volume ≡ record v { poisoned = false })
                × (p.pending ≡ false))
              ⊎ ((p.phase ≡ Phase.uncertain) × (p.volume ≡ record v { poisoned = true }))))

  abbrev pub plan : Publication D T → ℕ → Option Command
  plan p i = planned m (1 - v.bank) p.data_bytes p.first_sector p.data_steps i

abbrev pub early : Phase → Bool
early preparing = true
early ready_to_publish = true
early Phase.cancelled = true
early _ = false

-- What a publication starts from: the disk, and the payload that is to be written.
pub record Start (D : Type 0) : Type 0 where
  pub disk : D
  pub content : List ℕ
  pub first_sector : ℕ
  pub data_steps : ℕ

-- The sectors of the live volume are as they were; what the steps so far
-- wrote is on the disk; and the other bank's header is as it was until it is submitted.
pub record IsIsolated {D T : Type 0} (view : D → ℕ → List ℕ) (v : Volume) (m : Metadata)
    (d : Start D) (p : Publication D T) : Type 0 where
  pub spare : Spare v p.first_sector p.data_steps
  pub payload :
      (p.data_bytes ≡ d.content) × (p.first_sector ≡ d.first_sector) × (p.data_steps ≡ d.data_steps)
  pub stage : Stage v m p
  pub live : (s : ℕ) → IsLive v s → view p.disk s ≡ view d.disk s
  pub on_disk :
      (i s : ℕ) (bytes : List ℕ)
      → i < p.step
      → plan v m p i ≡ some (write s bytes)
      → view p.disk s ≡ bytes
  pub unpublished :
      early p.phase ≡ true → view p.disk (header (1 - v.bank)) ≡ view d.disk (header (1 - v.bank))
