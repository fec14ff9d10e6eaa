-- ===== src/Block/Broker/Records.antt =====
-- kernel/src/block/access/grants.rs, and the records of queue.rs: grants of sector ranges and requests.
use rustic_os.Base.{
  ℕ, Bool, true, false, not, ◌&&◌, ◌||◌, ltb, leb, Option, none, some, List, ◌==◌, if◌then◌else◌,
  Result, ok, err, bit_and, ok_or,
}
use rustic_os.Base.Words.{checked_add}
use rustic_os.Block.Abi.{
  Error, Operation, Status, Effect, Completion, read, write, flush, right, is_read, is_flush,
  is_success, is_unavailable, success, cancelled, no_effect, completed, all, flush_right,
  sector_size, max_id, of_handles,
}
use rustic_os.Block.Abi

-- grants.rs
pub record Grant : Type 0 where
  pub first : ℕ
  pub sectors : ℕ
  pub rights : ℕ

-- `checked_add(..).is_none_or(|end| end > bound)`
abbrev pub past : Option ℕ → ℕ → Bool
past none bound = true
past (some end) bound = ltb bound end

unfoldable pub validate : Grant → ℕ → Result Error (Unit {0})
validate g capacity =
    if g.sectors == 0 || past (checked_add g.first g.sectors) capacity
    then err Abi.range
    else if not (bit_and g.rights flush_right == 0)
        && (not (g.first == 0) || not (g.sectors == capacity))
    then err Abi.denied
    else ok tt

unfoldable pub sector_of : Grant → ℕ → Result Error ℕ
sector_of g relative =
    if leb g.sectors relative then err Abi.range else ok_or (checked_add g.first relative) Abi.range

-- The device's own geometry, of kernel/src/block/mod.rs.
pub record Geometry : Type 0 where
  pub sectors : ℕ
  pub read_only : Bool

-- queue.rs
pub data Phase : Type 0 where
  queued active complete : Phase

abbrev pub is_active : Phase → Bool
is_active active = true
is_active _ = false

abbrev pub is_queued : Phase → Bool
is_queued queued = true
is_queued _ = false

abbrev pub is_complete : Phase → Bool
is_complete complete = true
is_complete _ = false

pub record Request : Type 0 where
  pub owner : ℕ
  pub handle : ℕ
  pub sector : ℕ
  pub phase : Phase
  pub abandoned : Bool
  pub result : Completion

pub record Pending : Type 0 where
  pub owner : ℕ
  pub id : ℕ
  pub operation : Operation
  pub sector : ℕ
  pub bytes : List ℕ
