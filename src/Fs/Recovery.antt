-- ===== src/Fs/Recovery.antt =====
-- crates/fs/src/recovery/mod.rs, recovery/codec.rs, admission/mod.rs and admission/codec.rs: the
-- retained records of a volume and the sectors they are written to.
use rustic_os.Base.{
  ℕ, Bool, true, false, not, ◌&&◌, ◌||◌, ◌==◌, Option, none, some, List, [], ◌∷◌, ◌++◌, replicate,
  if◌then◌else◌, Result, ok, err,
}
use rustic_os.Base.Slots.{find_slot}
use rustic_os.Base.Bytes.{le, write_at, any_nonzero, same_bytes}
use rustic_os.Fs.{Error, invalid, lineage, expired_epoch}

abbrev pub retained : ℕ
retained = 2

abbrev pub recovery_sectors : ℕ
recovery_sectors = 7

pub record Retry : Type 0 where
  pub lineage : List ℕ
  pub epoch : ℕ
  pub key : ℕ

abbrev pub same_retry : Retry → Retry → Bool
same_retry a b = same_bytes a.lineage b.lineage && (a.epoch == b.epoch) && (a.key == b.key)

pub record Receipt : Type 0 where
  pub retry : Retry
  pub id : ℕ
  pub previous : ℕ
  pub committed : ℕ
  pub length : ℕ

pub data AdmissionState : Type 0 where
  admitted cancelled committed : AdmissionState

pub data PreventionReason : Type 0 where
  unknown requested version_conflict authority_lost : PreventionReason

pub record Stored : Type 0 where
  pub number : ℕ
  pub state : AdmissionState
  pub terminal : ℕ
  pub prevention : Option PreventionReason

-- `namespace` is the workspace and the original service incarnation.
pub record Record : Type 0 where
  pub subject : ℕ
  pub receipt : Receipt
  pub namespace : Option (ℕ × ℕ)
  pub bytes : List ℕ
  pub admission : Option Stored

pub record Recovery : Type 0 where
  pub lineage : List ℕ
  pub epoch : ℕ
  pub scoped : Bool
  pub admissions : Bool
  pub reasons : Bool
  pub records : List (Option Record)

unfoldable pub new : List ℕ → Result Error Recovery
new line =
    if not (any_nonzero line)
    then err invalid
    else ok (record {
      lineage = line;
      epoch = 1;
      scoped = false;
      admissions = false;
      reasons = false;
      records = replicate retained none;
    })

abbrev pub is_none {ℓ} : {A : Type ℓ} → Option A → Bool
is_none none = true
is_none (some a) = false

abbrev pub unscoped_for : ℕ → Retry → Record → Bool
unscoped_for subject retry r =
    is_none r.namespace && (r.subject == subject) && same_retry r.receipt.retry retry

unfoldable pub find : Recovery → ℕ → Retry → Result Error (Option Record)
find r subject retry =
    if (subject == 0) || (retry.key == 0) || (retry.epoch == 0)
    then err invalid
    else if not (same_bytes retry.lineage r.lineage)
    then err lineage
    else elim (find_slot (unscoped_for subject retry) r.records) [
      | some (_, found) ↦ ok (some found)
      | none ↦ if not (retry.epoch == r.epoch) then err expired_epoch else ok none
    ]

abbrev pub state_number : AdmissionState → ℕ
state_number admitted = 1
state_number cancelled = 2
state_number committed = 3

abbrev pub reason_number : PreventionReason → ℕ
reason_number unknown = 0
reason_number requested = 1
reason_number version_conflict = 2
reason_number authority_lost = 3

abbrev pub reason_byte : Option PreventionReason → ℕ
reason_byte none = 0
reason_byte (some reason) = reason_number reason

unfoldable pub encode_stored : Option Stored → List ℕ → List ℕ
encode_stored none p = p
encode_stored (some a) p = write_at 81 (reason_byte a.prevention ∷ []) (
    write_at 80 (state_number a.state ∷ [])
      (write_at 72 (le 8 a.terminal) (write_at 64 (le 8 a.number) p)))

unfoldable pub encode_namespace : Option (ℕ × ℕ) → List ℕ → List ℕ
encode_namespace none p = p
encode_namespace (some (workspace, instance_number)) p =
    write_at 56 (le 8 instance_number) (write_at 48 (le 4 workspace) p)

-- The three sectors of a record: its fields and its bytes.
unfoldable pub encode_record : Option Record → List ℕ
unfolding encode_stored encode_namespace
encode_record none = replicate 1536 0
encode_record (some r) =
    let fields =
      le 8 r.subject
      ++ (le 8 r.receipt.retry.epoch
          ++ (le 8 r.receipt.retry.key
              ++ (le 4 r.receipt.id
                  ++ (le 2 r.receipt.length
                      ++ (0 ∷ 0 ∷ []
                          ++ (le 8 r.receipt.previous
                              ++ (le 8 r.receipt.committed ++ replicate 464 0))))))) in
    encode_stored r.admission (encode_namespace r.namespace fields) ++ r.bytes

unfoldable pub encode_records : List (Option Record) → List ℕ
unfolding encode_record
encode_records [] = []
encode_records (r ∷ rest) = encode_record r ++ encode_records rest

-- The last digit of `RUSTREC`.
abbrev pub magic_digit : Recovery → ℕ
magic_digit r = if r.reasons then 52 else if r.admissions then 51 else if r.scoped then 50 else 49

unfoldable pub encode : Recovery → List ℕ
unfolding encode_records
encode r =
    82 ∷ 85 ∷ 83 ∷ 84 ∷ 82 ∷ 69 ∷ 67 ∷ magic_digit r ∷ []
    ++ (r.lineage ++ (le 8 r.epoch ++ (replicate 480 0 ++ encode_records r.records)))
