-- ===== src/Fs/Admission.antt =====
-- crates/fs/src/admission: replacements that are admitted first and executed or cancelled later.
pub mod Prepare
pub mod Terminal
mod Tests
use rustic_os.Base.{
  ℕ, zero, suc, ◌+◌, ◌-◌, Bool, true, false, not, ◌&&◌, ◌||◌, ltb, ◌==◌, Option, none, some, List,
  [], ◌∷◌, ◌++◌, length, set, take, replicate, if◌then◌else◌, Result, ok, err, ◌>>=◌, ◌>>◌,
  refuse_if, ok_or,
}
use rustic_os.Base.Bytes.{same_bytes}
use rustic_os.Base.Slots.{find_slot, first_free}
use rustic_os.Base.Words.{checked_add, keep_if}
use rustic_os.Fs
use rustic_os.Fs.{
  Error, invalid, corrupt, is_directory, version, size, exhausted, full, unsupported, lineage,
  expired_epoch, outcome_unknown, idempotency_conflict, max_file,
}
use rustic_os.Fs.Namespace.{Node, is_file}
use rustic_os.Fs.Recovery.{
  Recovery, Record, Receipt, Retry, Stored, AdmissionState, admitted, committed, PreventionReason,
  unknown, requested, same_retry,
}
use rustic_os.Fs.Format.{Metadata}
use rustic_os.Fs.Volume.{Volume, is_ready, resolve, writable}
use rustic_os.Fs.Publication.{Publication, replayed, metadata_only}
use rustic_os.Fs.Mutations.{prepare_recorded}

pub record AdmissionId : Type 0 where
  pub lineage : List ℕ
  pub number : ℕ

pub record AdmissionStatus : Type 0 where
  pub id : AdmissionId
  pub state : AdmissionState
  pub terminal : ℕ
  pub prevention : Option PreventionReason

pub record Replacement : Type 0 where
  pub workspace : ℕ
  pub retry : Retry
  pub id : ℕ
  pub version : ℕ

pub record Admission : Type 0 where
  pub status : AdmissionStatus
  pub request : Replacement
  pub incarnation : ℕ
  pub receipt : Option Receipt
  pub bytes : List ℕ

abbrev pub receipt_of : AdmissionState → Receipt → Option Receipt
receipt_of committed receipt = some receipt
receipt_of _ receipt = none

unfoldable pub admission_view : Record → Result Error Admission
admission_view r = do
  a ← ok_or r.admission unsupported
  place ← ok_or r.namespace corrupt
  ok (record {
    status = record {
      id = record { lineage = r.receipt.retry.lineage; number = a.number };
      state = a.state;
      terminal = a.terminal;
      prevention = a.prevention;
    };
    request = record {
      workspace = place.0;
      retry = r.receipt.retry;
      id = r.receipt.id;
      version = r.receipt.previous;
    };
    incarnation = place.1;
    receipt = receipt_of a.state r.receipt;
    bytes = take r.receipt.length r.bytes;
  })

unfoldable pub admissions : Volume → Result Error Recovery
admissions v = do is_ready v; ok_or (keep_if (λ r. r.admissions) v.metadata.recovery) unsupported

abbrev pub is_numbered : ℕ → Option Stored → Bool
is_numbered number none = false
is_numbered number (some a) = a.number == number

abbrev pub is_admission : ℕ → AdmissionId → Record → Bool
is_admission subject id r = (r.subject == subject) && is_numbered id.number r.admission

-- The slot of the admission, with its record.
unfoldable pub admission_slot : Volume → ℕ → AdmissionId → Result Error (ℕ × Record)
unfolding admissions
admission_slot v subject id = do
  r ← admissions v
  refuse_if ((subject == 0) || (id.number == 0)) invalid
  refuse_if (not (same_bytes id.lineage r.lineage)) lineage
  ok_or (find_slot (is_admission subject id) r.records) outcome_unknown

unfoldable pub admission_by_id : Volume → ℕ → AdmissionId → Result Error Admission
admission_by_id v subject id = do found ← admission_slot v subject id; admission_view found.1

abbrev pub is_in : ℕ → Option (ℕ × ℕ) → Bool
is_in workspace none = false
is_in workspace (some (w, _)) = w == workspace

abbrev pub is_retry : ℕ → ℕ → Retry → Record → Bool
is_retry subject workspace retry r =
    (r.subject == subject) && is_in workspace r.namespace && same_retry r.receipt.retry retry

unfoldable pub admission_by_retry : Volume → ℕ → ℕ → Retry → Result Error Admission
admission_by_retry v subject workspace retry = do
  r ← admissions v
  refuse_if ((subject == 0) || (workspace == 0) || (retry.key == 0) || (retry.epoch == 0)) invalid
  refuse_if (not (same_bytes retry.lineage r.lineage)) lineage
  elim (find_slot (is_retry subject workspace retry) r.records) [
    | some (_, found) ↦ admission_view found
    | none ↦ if not (retry.epoch == r.epoch) then err expired_epoch else err outcome_unknown
  ]

unfoldable pub prevention_reasons_enabled : Volume → Result Error Bool
prevention_reasons_enabled v = do r ← admissions v; ok r.reasons
