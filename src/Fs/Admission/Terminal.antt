-- ===== src/Fs/Admission/Terminal.antt =====
-- crates/fs/src/admission/cancel.rs and execution.rs: the execution of an admission on a volume that
-- holds its published cancellation.
use rustic_os.Base.{
  ℕ, ◌+◌, ◌^◌, ◌≡◌, refl, sym, ap, ◌∙◌, inl, inr, arith, true, false, ◌||◌, ◌==◌, ltb, some, set,
  Bool-cases, Option-cases, Result-cases, ok, err,
}
use rustic_os.Base.Bytes.{same_bytes}
use rustic_os.Base.Slots.{find_slot, find_slot-at, find_slot-set_hit}
use rustic_os.Fs
use rustic_os.Fs.Recovery.{Recovery, Record, AdmissionState, admitted, committed, PreventionReason}
use rustic_os.Fs.Format.{Metadata}
use rustic_os.Fs.Volume.{Volume, is_ready}
use rustic_os.Fs.Publication.{Publication, metadata_only, replayed, new}
use rustic_os.Fs.Publication.Isolation.{published}
use rustic_os.Fs.Admission.{
  AdmissionId, AdmissionStatus, Admission, admission_view, admissions, admission_slot, is_admission,
}
use rustic_os.Fs.Admission.Prepare.{
  set_in, cancelled_record, cancel_from, prepare_cancelled, execute_from, prepare_admitted,
}

-- What `admission_slot` has found: the records in use, and the slot in them.
record Found (v : Volume) (subject : ℕ) (id : AdmissionId) (slot : ℕ) (r : Record) : Type 0 where
  recovery : Recovery
  in_use : v.metadata.recovery ≡ some recovery
  enabled : recovery.admissions ≡ true
  named : ((subject == 0) || (id.number == 0)) ≡ false
  same_lineage : same_bytes id.lineage recovery.lineage ≡ true
  found : find_slot (is_admission subject id) recovery.records ≡ some (slot, r)

admissions-enabled :
    (v : Volume) (old : Recovery)
    → admissions v ≡ ok old
    → (v.metadata.recovery ≡ some old) × (old.admissions ≡ true)
unfolding admissions is_ready
admissions-enabled v old h = elim (Option-cases v.metadata.recovery) [
  | inl e ↦ absurd (ground arith)
  | inr (r, e) ↦ elim (Bool-cases r.admissions) [
    | inr off ↦ absurd (ground arith)
    | inl on ↦
        let same : r ≡ old = ground arith in
        (e ∙ ap some same, sym (ap (λ (x : Recovery). x.admissions) same) ∙ on)
  ]
]

admission_slot-Found :
    (v : Volume) (subject : ℕ) (id : AdmissionId) (slot : ℕ) (r : Record)
    → admission_slot v subject id ≡ ok (slot, r)
    → Found v subject id slot r
unfolding admission_slot
admission_slot-Found v subject id slot r h = elim (Result-cases (admissions v)) [
  | inr (failure, e) ↦ absurd (ground arith)
  | inl (old, e) ↦ elim (Bool-cases ((subject == 0) || (id.number == 0))) [
    | inl bad ↦ absurd (ground arith)
    | inr named ↦ elim (Bool-cases (same_bytes id.lineage old.lineage)) [
      | inr other ↦ absurd (ground arith)
      | inl line ↦ elim (Option-cases (find_slot (is_admission subject id) old.records)) [
        | inl missing ↦ absurd (ground arith)
        | inr ((slot', r'), f) ↦
            let (in_use, enabled) = admissions-enabled v old e in
            record {
              recovery = old;
              in_use = in_use;
              enabled = enabled;
              named = named;
              same_lineage = line;
              found = ground arith;
            }
      ]
    ]
  ]
]

-- A volume that is open and has the same records but for that slot finds the new record there.
Found-again :
    (v w : Volume) (subject : ℕ) (id : AdmissionId) (slot : ℕ) (r b : Record)
    (f : Found v subject id slot r)
    → w.poisoned ≡ false
    → w.metadata.recovery ≡ set_in v.metadata.recovery slot b
    → is_admission subject id b ≡ true
    → admission_slot w subject id ≡ ok (slot, b)
unfolding admission_slot admissions is_ready
Found-again v w subject id slot r b f open_now same match =
    let here =
      find_slot-set_hit (is_admission subject id) f.recovery.records slot r b f.found match in
    let there : w.metadata.recovery
        ≡ some (record f.recovery { records = set f.recovery.records slot (some b) }) =
      same ∙ ap (λ o. set_in o slot b) f.in_use in
    rw (open_now, there, f.enabled, f.named, f.same_lineage, here)

is_admission-cancelled_record :
    (subject : ℕ) (id : AdmissionId) (r : Record) (terminal : ℕ) (reason : PreventionReason)
    → is_admission subject id (cancelled_record r terminal reason) ≡ is_admission subject id r
is_admission-cancelled_record subject id r terminal reason = elim (Option-cases r.admission) [
  | inl e ↦ rw e
  | inr (a, e) ↦ rw e
]

view-cancelled_record :
    (r : Record) (view : Admission) (terminal : ℕ) (reason : PreventionReason)
    → admission_view r ≡ ok view
    → (after : Admission) × (admission_view (cancelled_record r terminal reason) ≡ ok after)
      × (after.status.state ≡ AdmissionState.cancelled)
unfolding admission_view
view-cancelled_record r view terminal reason h = elim (Option-cases r.admission) [
  | inl e ↦ absurd (ground arith)
  | inr (a, e) ↦ elim (Option-cases r.namespace) [
    | inl f ↦ absurd (ground arith)
    | inr (place, f) ↦ elim (Result-cases (admission_view (cancelled_record r terminal reason))) [
      | inr (failure, g) ↦ absurd (ground arith)
      | inl (after, g) ↦ (after, g, ground arith)
    ]
  ]
]

-- What a cancellation that is not a replay publishes.
record Cancels (v : Volume) (subject : ℕ) (id : AdmissionId) (m : Metadata) : Type 0 where
  slot : ℕ
  before : Record
  after : Record
  was : admission_slot v subject id ≡ ok (slot, before)
  now : m.recovery ≡ set_in v.metadata.recovery slot after
  is_it : is_admission subject id after ≡ is_admission subject id before
  view : Admission
  viewed : admission_view after ≡ ok view
  terminal : view.status.state ≡ AdmissionState.cancelled

cancel_from-Cancels :
    {D : Type 0} (v : Volume) (d : D) (subject : ℕ) (id : AdmissionId) (slot : ℕ) (r : Record)
    (view : Admission) (old : AdmissionStatus) (reason : PreventionReason) (state : AdmissionState)
    (p : Publication D AdmissionStatus) (m : Metadata)
    → admission_slot v subject id ≡ ok (slot, r)
    → admission_view r ≡ ok view
    → cancel_from v d (slot, r) old reason state ≡ ok p
    → p.next ≡ some m
    → Cancels v subject id m
unfolding cancel_from metadata_only new replayed
cancel_from-Cancels v d subject id slot r view old reason committed p m h e done target =
    absurd (ground arith)
cancel_from-Cancels v d subject id slot r view old reason AdmissionState.cancelled p m h e done
      target =
    absurd (ground arith)
cancel_from-Cancels v d subject id slot r view old reason admitted p m h e done target =
    elim (Bool-cases (ltb (v.metadata.sequence + 1) (2 ^ 64))) [
      | inr last ↦ absurd (ground arith)
      | inl more ↦
          let b = cancelled_record r (v.metadata.sequence + 1) reason in
          let (after, viewed, terminal) =
            view-cancelled_record r view (v.metadata.sequence + 1) reason e in
          record {
            slot = slot;
            before = r;
            after = b;
            was = h;
            now = ground arith;
            is_it = is_admission-cancelled_record subject id r (v.metadata.sequence + 1) reason;
            view = after;
            viewed = viewed;
            terminal = terminal;
          }
    ]

prepare_cancelled-Cancels :
    {D : Type 0} (v : Volume) (d : D) (subject : ℕ) (id : AdmissionId) (reason : PreventionReason)
    (p : Publication D AdmissionStatus) (m : Metadata)
    → prepare_cancelled v d subject id reason ≡ ok p
    → p.next ≡ some m
    → Cancels v subject id m
unfolding prepare_cancelled
prepare_cancelled-Cancels v d subject id reason p m h target =
    elim (Result-cases (admission_slot v subject id)) [
      | inr (failure, e) ↦ absurd (ground arith)
      | inl ((slot, r), e) ↦ elim (Result-cases (admission_view r)) [
        | inr (failure, f) ↦ absurd (ground arith)
        | inl (view, f) ↦
            cancel_from-Cancels v d subject id slot r view view.status reason view.status.state p m
              e f (ground arith) target
      ]
    ]

-- Once a cancellation of an admission has been published, executing that admission on the open volume
-- that holds it is refused as cancelled.
pub prepare_admitted-prepare_cancelled :
    {D E : Type 0} (v : Volume) (d : D) (e : E) (subject : ℕ) (id : AdmissionId)
    (reason : PreventionReason) (p : Publication D AdmissionStatus) (m : Metadata)
    → prepare_cancelled v d subject id reason ≡ ok p
    → p.next ≡ some m
    → prepare_admitted (published v m) e subject id ≡ err Fs.Error.cancelled
unfolding prepare_admitted execute_from
prepare_admitted-prepare_cancelled v d e subject id reason p m h target =
    let c = prepare_cancelled-Cancels v d subject id reason p m h target in
    let f = admission_slot-Found v subject id c.slot c.before c.was in
    let (_, matched) =
      find_slot-at (is_admission subject id) f.recovery.records c.slot c.before f.found in
    let found =
      Found-again v (published v m) subject id c.slot c.before c.after f refl c.now
        (c.is_it ∙ matched) in
    rw (found, c.viewed, c.terminal)
