-- ===== src/Fs/Operations.antt =====
-- crates/fs/src/recovery/operations.rs and scoped.rs: receipts of replacements that were committed, and
-- the replacements that leave one.
use rustic_os.Base.{
  ℕ, ◌-◌, Bool, true, false, not, ◌&&◌, ◌||◌, ltb, ◌==◌, Option, none, some, List, ◌++◌, length,
  map, take, replicate, if◌then◌else◌, Result, ok, err, ◌>>=◌, ◌>>◌, refuse_if, ok_or,
}
use rustic_os.Base.Bytes.{same_bytes}
use rustic_os.Base.Slots.{find_slot, first_free}
use rustic_os.Base.Words.{checked_add, keep_if}
use rustic_os.Fs
use rustic_os.Fs.{
  Error, invalid, size, exhausted, unsupported, lineage, expired_epoch, outcome_unknown,
  idempotency_conflict, max_file,
}
use rustic_os.Fs.Recovery.{
  Recovery, Record, Receipt, Retry, Stored, AdmissionState, admitted, committed, find,
}
use rustic_os.Fs.Storage.{Disk}
use rustic_os.Fs.Volume.{Volume, is_ready, resolve}
use rustic_os.Fs.Publication.{Publication, replayed}
use rustic_os.Fs.Mutations.{prepare_recorded, commit}
use rustic_os.Fs.Admission.{Replacement, is_retry}
use rustic_os.Fs.Admission.Prepare.{set_record}

unfoldable pub recovery_info : Volume → Result Error (List ℕ × ℕ)
recovery_info v = do is_ready v; r ← ok_or v.metadata.recovery unsupported; ok (r.lineage, r.epoch)

unfoldable pub receipt_for : Volume → ℕ → Retry → Result Error Receipt
receipt_for v subject retry = do
  is_ready v
  r ← ok_or v.metadata.recovery unsupported
  found ← find r subject retry
  kept ← ok_or found outcome_unknown
  ok kept.receipt

abbrev pub is_admitted : AdmissionState → Bool
is_admitted admitted = true
is_admitted _ = false

abbrev pub is_open : Option Stored → Bool
is_open none = false
is_open (some a) = is_admitted a.state

abbrev pub emptied : Option Recovery → ℕ → Option Recovery
emptied none epoch = none
emptied (some r) epoch = some (record r { epoch = epoch; records = map (λ _. none) r.records })

-- The epoch that `advance_epoch` publishes; the records of the old one are dropped.
unfoldable pub next_epoch : Volume → Result Error ℕ
next_epoch v = do
  is_ready v
  r ← ok_or v.metadata.recovery unsupported
  elim (find_slot (λ kept. is_open kept.admission) r.records) [
    | some waiting ↦ err Fs.Error.busy
    | none ↦ ok_or (checked_add r.epoch 1) exhausted
  ]

unfoldable pub advance_epoch : {D : Type 0} → Disk D → Volume → D → (Volume × D) × Result Error ℕ
unfolding next_epoch
advance_epoch disk v d = elim (next_epoch v) [
  | err e ↦ ((v, d), err e)
  | ok epoch ↦
      let done =
        commit disk v (record v.metadata { recovery = emptied v.metadata.recovery epoch }) d in
      elim done.1 [ err e ↦ (done.0, err e) | ok _ ↦ (done.0, ok epoch) ]
]

pub record Operation : Type 0 where
  pub workspace : ℕ
  pub incarnation : ℕ
  pub receipt : Receipt
  pub bytes : List ℕ

abbrev pub settled_state : Option Stored → Result Error (Unit {0})
settled_state none = ok tt
settled_state (some a) = elim a.state [
  | admitted ↦ err Fs.Error.busy
  | AdmissionState.cancelled ↦ err Fs.Error.cancelled
  | committed ↦ ok tt
]

unfoldable pub operation_of : Record → Result Error Operation
operation_of r = do
  place ← ok_or r.namespace outcome_unknown
  settled_state r.admission
  ok (record {
    workspace = place.0;
    incarnation = place.1;
    receipt = r.receipt;
    bytes = take r.receipt.length r.bytes;
  })

-- The records of a volume that has been upgraded to scoped operations.
unfoldable pub scoped_records : Volume → Result Error Recovery
scoped_records v = do is_ready v; ok_or (keep_if (λ r. r.scoped) v.metadata.recovery) unsupported

unfoldable pub operations_enabled : Volume → Result Error Bool
operations_enabled v = do
  is_ready v
  elim v.metadata.recovery [ none ↦ ok false | some r ↦ ok r.scoped ]

unfoldable pub operation_by_retry : Volume → ℕ → ℕ → Retry → Result Error Operation
unfolding operation_of scoped_records
operation_by_retry v subject workspace retry = do
  r ← scoped_records v
  refuse_if ((subject == 0) || (workspace == 0) || (retry.epoch == 0) || (retry.key == 0)) invalid
  refuse_if (not (same_bytes retry.lineage r.lineage)) lineage
  elim (find_slot (is_retry subject workspace retry) r.records) [
    | some (_, found) ↦ operation_of found
    | none ↦ if not (retry.epoch == r.epoch) then err expired_epoch else err outcome_unknown
  ]

unfoldable pub operation_by_id : Volume → ℕ → List ℕ → ℕ → Result Error Operation
unfolding operation_of scoped_records
operation_by_id v subject line sequence = do
  r ← scoped_records v
  refuse_if ((subject == 0) || (sequence == 0)) invalid
  refuse_if (not (same_bytes line r.lineage)) lineage
  found ←
      ok_or
        (find_slot (λ kept. (kept.subject == subject) && (kept.receipt.committed == sequence))
          r.records)
        outcome_unknown
  operation_of found.1

-- The record of a replacement that will be committed under `sequence`.
abbrev pub committed_record : ℕ → Retry → ℕ → ℕ → ℕ → Option (ℕ × ℕ) → List ℕ → Record
committed_record subject retry id previous sequence namespace bytes = record {
  subject = subject;
  receipt = record {
    retry = retry;
    id = id;
    previous = previous;
    committed = sequence;
    length = length bytes;
  };
  namespace = namespace;
  bytes = bytes ++ replicate (max_file - length bytes) 0;
  admission = none;
}

module _ {D : Type 0} where
  -- There are records: the retry was looked up in them before.
  unfoldable pub scope_new :
      Volume → D → ℕ → ℕ → Replacement → List ℕ → Result Error (Publication D Receipt)
  scope_new v d subject incarnation request bytes = do
    resolve v request.workspace request.id >>= (λ _. ok tt)
    r ← ok_or v.metadata.recovery unsupported
    slot ← ok_or (first_free r.records) Fs.Error.full
    sequence ← ok_or (checked_add v.metadata.sequence 1) exhausted
    let chosen = if incarnation == 0 then sequence else incarnation in
        let kept =
          committed_record subject request.retry request.id request.version sequence
            (some (request.workspace, chosen)) bytes in
        refuse_if (ltb sequence chosen) invalid
        >> prepare_recorded v d request.id request.version bytes (set_record v.metadata slot kept)
            (λ _. kept.receipt)

  -- What `prepare_scoped` does with the operation that the retry names, if there is one.
  unfoldable pub scope_again :
      Volume
      → D
      → ℕ
      → ℕ
      → Replacement
      → List ℕ
      → Result Error Operation
      → Result Error (Publication D Receipt)
  unfolding scope_new
  scope_again v d subject incarnation request bytes (ok old) =
      if not (old.receipt.id == request.id)
        || not (old.receipt.previous == request.version)
        || not (same_bytes old.bytes bytes)
      then err idempotency_conflict
      else ok (replayed v d old.receipt)
  scope_again v d subject incarnation request bytes (err outcome_unknown) =
      scope_new v d subject incarnation request bytes
  scope_again v d subject incarnation request bytes (err e) = err e

  unfoldable pub prepare_scoped :
      Volume → D → ℕ → ℕ → Replacement → List ℕ → Result Error (Publication D Receipt)
  unfolding scope_again
  prepare_scoped v d subject incarnation request bytes = do
    is_ready v
    refuse_if (ltb max_file (length bytes)) size
    scope_again v d subject incarnation request bytes
        (operation_by_retry v subject request.workspace request.retry)
