-- ===== src/Fs/Storage.antt =====
-- crates/fs/src/storage.rs, storage/poll.rs and publication/command.rs: the disk that a volume is
-- given. It is code outside the crate: `Disk` holds the operations that the source calls and what the
-- traits document of them.
use rustic_os.Base.{ℕ, ◌≡◌, ◌≢◌, List, Result, ok}
use rustic_os.Fs.{Error}
use rustic_os.Fs.Format.{Command}

pub data Poll (A : Type 0) : Type 0 where
  pending : Poll A
  ready : A → Poll A

abbrev pub Answer : Type 0
Answer = Result Error (Unit {0})

-- `view d s` is what sector `s` holds. An operation changes no sector but the one it writes, whatever
-- comes of it, and a write that succeeds has put its bytes there.
pub record Disk (D : Type 0) : Type 1 where
  pub view : D → ℕ → List ℕ
  pub write : ℕ → List ℕ → D → D × Answer
  pub flush : D → D × Answer
  pub poll_write : ℕ → List ℕ → D → D × Poll Answer
  pub poll_flush : D → D × Poll Answer
  pub write_others :
      (s t : ℕ) (bytes : List ℕ) (d : D) → s ≢ t → view (write s bytes d).0 t ≡ view d t
  pub write_settled :
      (s : ℕ) (bytes : List ℕ) (d : D)
      → (write s bytes d).1 ≡ ok tt
      → view (write s bytes d).0 s ≡ bytes
  pub flush_keeps : (t : ℕ) (d : D) → view (flush d).0 t ≡ view d t
  pub poll_write_others :
      (s t : ℕ) (bytes : List ℕ) (d : D) → s ≢ t → view (poll_write s bytes d).0 t ≡ view d t
  pub poll_write_settled :
      (s : ℕ) (bytes : List ℕ) (d : D)
      → (poll_write s bytes d).1 ≡ ready (ok tt)
      → view (poll_write s bytes d).0 s ≡ bytes
  pub poll_flush_keeps : (t : ℕ) (d : D) → view (poll_flush d).0 t ≡ view d t

module _ {D : Type 0} (disk : Disk D) where
  unfoldable pub execute : Command → D → D × Answer
  execute (Command.write sector bytes) d = disk.write sector bytes d
  execute Command.flush d = disk.flush d

  unfoldable pub poll : Command → D → D × Poll Answer
  poll (Command.write sector bytes) d = disk.poll_write sector bytes d
  poll Command.flush d = disk.poll_flush d
