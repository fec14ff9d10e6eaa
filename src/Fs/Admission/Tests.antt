-- ===== src/Fs/Admission/Tests.antt =====
-- A volume that holds one admission, which is cancelled.
use rustic_os.Base.{◌≡◌, refl, true, false, Option, none, some, [], ◌∷◌, replicate, Result, ok, err}
use rustic_os.Fs
use rustic_os.Fs.Recovery.{Recovery, Record, admitted, requested}
use rustic_os.Fs.Format.{Metadata}
use rustic_os.Fs.Volume.{Volume, is_ready}
use rustic_os.Fs.Namespace.{empty_node}
use rustic_os.Fs.Publication.{Publication, replayed, metadata_only, new}
use rustic_os.Fs.Publication.Isolation.{published}
use rustic_os.Base.Slots.{find_slot}
use rustic_os.Fs.Admission.{
  AdmissionId, AdmissionStatus, admission_slot, admission_view, admissions,
}
use rustic_os.Fs.Admission.Prepare.{prepare_cancelled, cancel_from, prepare_admitted}
use rustic_os.Fs.Admission.Terminal.{prepare_admitted-prepare_cancelled}

abbrev waits : Record
waits = record {
  subject = 7;
  receipt = record {
    retry = record { lineage = 9 ∷ []; epoch = 1; key = 4 };
    id = 5;
    previous = 2;
    committed = 0;
    length = 1;
  };
  namespace = some (2, 3);
  bytes = 1 ∷ replicate 1023 0;
  admission = some (record { number = 3; state = admitted; terminal = 0; prevention = none });
}

abbrev recovery : Recovery
recovery = record {
  lineage = 9 ∷ [];
  epoch = 1;
  scoped = true;
  admissions = true;
  reasons = true;
  records = some waits ∷ none ∷ [];
}

abbrev volume : Volume
volume = record {
  metadata = record {
    sequence = 3;
    next = 6;
    nodes = replicate 32 empty_node;
    recovery = some recovery;
  };
  bank = 0;
  poisoned = false;
}

abbrev id3 : AdmissionId
id3 = record { lineage = 9 ∷ []; number = 3 }

abbrev status : AdmissionStatus
status = record { id = id3; state = admitted; terminal = 0; prevention = none }

abbrev got_ok : {E A : Type 0} → Result E A → A → A
got_ok (ok a) b = a
got_ok (err e) b = b

-- The disk plays no part before a call.
abbrev cancels : Publication (Unit {0}) AdmissionStatus
cancels = got_ok (prepare_cancelled volume tt 7 id3 requested) (replayed volume tt status)

abbrev got : {A : Type 0} → Option A → A → A
got none a = a
got (some a) b = a

abbrev cancelled_metadata : Metadata
cancelled_metadata = got cancels.next volume.metadata

prepare_cancelled-waits :
    (prepare_cancelled volume tt 7 id3 requested ≡ ok cancels)
    × (cancels.next ≡ some cancelled_metadata)
unfolding prepare_cancelled cancel_from admission_slot admission_view admissions find_slot is_ready
    metadata_only new
prepare_cancelled-waits = (refl, refl)

prepare_admitted-prepare_cancelled_example :
    prepare_admitted (published volume cancelled_metadata) tt 7 id3 ≡ err Fs.Error.cancelled
prepare_admitted-prepare_cancelled_example =
    prepare_admitted-prepare_cancelled volume tt tt 7 id3 requested cancels cancelled_metadata
      prepare_cancelled-waits.0 prepare_cancelled-waits.1
