-- ===== src/Fs/Admission/Prepare.antt =====
-- crates/fs/src/admission/admit.rs, cancel.rs and execution.rs: the publications that admit, cancel and
-- execute a replacement.
use rustic_os.Base.{
  ℕ, ◌-◌, not, ◌||◌, ltb, ◌==◌, Option, none, some, List, ◌++◌, length, set, replicate,
  if◌then◌else◌, Result, ok, err, ◌>>=◌, ◌>>◌, refuse_if, ok_or,
}
use rustic_os.Base.Bytes.{same_bytes}
use rustic_os.Base.Slots.{first_free}
use rustic_os.Base.Words.{checked_add}
use rustic_os.Fs
use rustic_os.Fs.{
  Error, invalid, corrupt, is_directory, version, size, exhausted, full, unsupported, lineage,
  expired_epoch, outcome_unknown, idempotency_conflict, max_file,
}
use rustic_os.Fs.Namespace.{is_file}
use rustic_os.Fs.Recovery.{
  Recovery, Record, Receipt, AdmissionState, admitted, committed, PreventionReason, unknown,
  requested,
}
use rustic_os.Fs.Format.{Metadata}
use rustic_os.Fs.Volume.{Volume, resolve, writable}
use rustic_os.Fs.Publication.{Publication, replayed, metadata_only}
use rustic_os.Fs.Mutations.{prepare_recorded}
use rustic_os.Fs.Admission.{
  AdmissionId, AdmissionStatus, Replacement, Admission, admission_view, admissions, admission_slot,
  admission_by_retry, prevention_reasons_enabled,
}

abbrev pub set_in : Option Recovery → ℕ → Record → Option Recovery
set_in none slot r = none
set_in (some old) slot r = some (record old { records = set old.records slot (some r) })

-- `next.recovery.as_mut().unwrap().records[slot] = Some(r)`
abbrev pub set_record : Metadata → ℕ → Record → Metadata
set_record m slot r = record m { recovery = set_in m.recovery slot r }

-- The record of a new admission.
abbrev pub admitted_record : ℕ → ℕ → ℕ → Replacement → List ℕ → Record
admitted_record subject incarnation number request bytes = record {
  subject = subject;
  receipt = record {
    retry = request.retry;
    id = request.id;
    previous = request.version;
    committed = 0;
    length = length bytes;
  };
  namespace = some (request.workspace, incarnation);
  bytes = bytes ++ replicate (max_file - length bytes) 0;
  admission = some (record { number = number; state = admitted; terminal = 0; prevention = none });
}

-- The record once its admission is cancelled, and once its replacement is committed under a sequence.
abbrev pub cancelled_record : Record → ℕ → PreventionReason → Record
cancelled_record r terminal reason = record r {
  admission = elim r.admission [
    | none ↦ none
    | some a ↦ some (record a {
      state = AdmissionState.cancelled;
      terminal = terminal;
      prevention = some reason;
    })
  ];
}

abbrev pub executed_record : Record → ℕ → Record
executed_record r sequence = record r {
  receipt = record r.receipt { committed = sequence };
  admission = elim r.admission [
    | none ↦ none
    | some a ↦ some (record a { state = committed; terminal = sequence })
  ];
}

module _ {D : Type 0} where
  unfoldable pub admit_new :
      Volume → D → ℕ → ℕ → Replacement → List ℕ → Result Error (Publication D AdmissionStatus)
  admit_new v d subject incarnation request bytes = do
    resolve v request.workspace request.id >>= (λ _. ok tt)
    node ← writable v request.id
    refuse_if (not (is_file node.kind)) is_directory
    refuse_if (not (node.version == request.version)) version
    r ← admissions v
    slot ← ok_or (first_free r.records) Fs.Error.full
    number ← ok_or (checked_add v.metadata.sequence 1) exhausted
    let chosen = if incarnation == 0 then number else incarnation in
        refuse_if (ltb number chosen) invalid
        >> (admission_view (admitted_record subject chosen number request bytes) >>= λ view.
            metadata_only v d
              (set_record v.metadata slot (admitted_record subject chosen number request bytes))
              view.status)

  -- What `prepare_admission` does with the record that the retry names, if there is one.
  unfoldable pub admit_again :
      Volume
      → D
      → ℕ
      → ℕ
      → Replacement
      → List ℕ
      → Result Error Admission
      → Result Error (Publication D AdmissionStatus)
  unfolding admit_new
  admit_again v d subject incarnation request bytes (ok old) =
      if not (old.request.id == request.id)
        || not (old.request.version == request.version)
        || not (same_bytes old.bytes bytes)
      then err idempotency_conflict
      else ok (replayed v d old.status)
  admit_again v d subject incarnation request bytes (err outcome_unknown) =
      admit_new v d subject incarnation request bytes
  admit_again v d subject incarnation request bytes (err e) = err e

  unfoldable pub prepare_admission :
      Volume → D → ℕ → ℕ → Replacement → List ℕ → Result Error (Publication D AdmissionStatus)
  unfolding admit_again
  prepare_admission v d subject incarnation request bytes = do
    refuse_if (ltb max_file (length bytes)) size
    admit_again v d subject incarnation request bytes
        (admission_by_retry v subject request.workspace request.retry)

  -- `prepare_cancelled`, by the state that the admission has.
  unfoldable pub cancel_from :
      Volume
      → D
      → ℕ × Record
      → AdmissionStatus
      → PreventionReason
      → AdmissionState
      → Result Error (Publication D AdmissionStatus)
  cancel_from v d (slot, r) old reason admitted = do
    terminal ← ok_or (checked_add v.metadata.sequence 1) exhausted
    metadata_only v d (set_record v.metadata slot (cancelled_record r terminal reason))
        (record old {
          state = AdmissionState.cancelled;
          terminal = terminal;
          prevention = some reason;
        })
  cancel_from v d found old reason _ = ok (replayed v d old)

  unfoldable pub prepare_cancelled :
      Volume → D → ℕ → AdmissionId → PreventionReason → Result Error (Publication D AdmissionStatus)
  unfolding cancel_from
  prepare_cancelled v d subject id reason = do
    found ← admission_slot v subject id
    old ← admission_view found.1
    cancel_from v d found old.status reason old.status.state

  unfoldable pub prepare_cancellation :
      Volume → D → ℕ → AdmissionId → Result Error (Publication D AdmissionStatus)
  unfolding prepare_cancelled
  prepare_cancellation v d subject id = do
    reasons ← prevention_reasons_enabled v
    prepare_cancelled v d subject id (if reasons then requested else unknown)

  unfoldable pub prepare_prevention :
      Volume → D → ℕ → AdmissionId → PreventionReason → Result Error (Publication D AdmissionStatus)
  unfolding prepare_cancelled
  prepare_prevention v d subject id reason = do
    reasons ← prevention_reasons_enabled v
    refuse_if (not reasons) unsupported
    prepare_cancelled v d subject id reason

  unfoldable pub execute_from :
      Volume → D → ℕ × Record → Admission → AdmissionState → Result Error (Publication D Receipt)
  execute_from v d found view AdmissionState.cancelled = err Fs.Error.cancelled
  execute_from v d (slot, r) view committed = ok (replayed v d r.receipt)
  execute_from v d (slot, r) view admitted = do
    resolve v view.request.workspace r.receipt.id >>= (λ _. ok tt)
    sequence ← ok_or (checked_add v.metadata.sequence 1) exhausted
    prepare_recorded v d r.receipt.id r.receipt.previous view.bytes
        (set_record v.metadata slot (executed_record r sequence))
        (λ _. (executed_record r sequence).receipt)

  unfoldable pub prepare_admitted :
      Volume → D → ℕ → AdmissionId → Result Error (Publication D Receipt)
  unfolding execute_from
  prepare_admitted v d subject id = do
    found ← admission_slot v subject id
    view ← admission_view found.1
    execute_from v d found view view.status.state
