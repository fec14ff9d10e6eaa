-- ===== src/Fs.antt =====
-- crates/fs: the volume of files. Its errors and limits, from crates/fs/src/lib.rs, and one child for
-- each part.
pub mod Checksum
pub mod Namespace
pub mod Recovery
pub mod Format
pub mod Storage
pub mod Volume
pub mod Publication
pub mod Mutations
pub mod Admission
pub mod Operations
pub mod Extent
mod Tests
use rustic_os.Base.{ℕ}

pub data Error : Type 0 where
  io uncertain invalid corrupt not_found exists not_directory is_directory not_empty full : Error
  size version read_only empty exhausted unsupported lineage expired_epoch outcome_unknown : Error
  idempotency_conflict busy cancelled : Error

abbrev pub objects : ℕ
objects = 32

abbrev pub max_file : ℕ
max_file = 1024

abbrev pub sectors : ℕ
sectors = 174
