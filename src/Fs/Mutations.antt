-- ===== src/Fs/Mutations.antt =====
-- crates/fs/src/mutations.rs, and `commit` of volume.rs: changes of a volume. A method that writes
-- takes the disk and returns it with what it found.
pub mod Prepare
pub mod Atomic
pub mod Outcome
pub mod Progress
use rustic_os.Base.{
  ℕ, zero, suc, ◌+◌, ◌-◌, ◌^◌, Bool, true, false, not, ◌&&◌, ◌||◌, leb, ltb, ◌==◌, Option, none,
  some, List, [], ◌∷◌, length, get_or, set, if◌then◌else◌, Result, ok, err, ◌>>=◌, ◌>>◌, refuse_if,
  ok_or,
}
use rustic_os.Base.Words.{checked_add}
use rustic_os.Fs
use rustic_os.Fs.{
  Error, uncertain, invalid, exhausted, exists, not_found, not_directory, is_directory, version,
  read_only, not_empty, size, max_file,
}
use rustic_os.Fs.Checksum.{crc}
use rustic_os.Fs.Namespace.{
  Node, Kind, is_empty, is_file, is_directory_kind, empty_node, new_node, valid_name,
}
use rustic_os.Fs.Format.{Metadata, data_sector, write_steps, command}
use rustic_os.Fs.Storage.{Disk, execute}
use rustic_os.Fs.Volume.{Volume, writable, lookup, located, find_from}
use rustic_os.Fs.Publication.{Publication, new}

-- The loop of `Metadata::write`: the steps from `step` on, `left` of them.
unfoldable pub write_from :
    {D : Type 0} → Disk D → Metadata → ℕ → ℕ → ℕ → D → D × Result Error (Unit {0})
write_from disk m bank step zero d = (d, ok tt)
write_from disk m bank step (suc left) d = elim (command m bank step) [
  | err e ↦ (d, err e)
  | ok c ↦
      let after = (execute disk c d).0 in
      let rest = write_from disk m bank (step + 1) left after in
      elim (execute disk c d).1 [ err e ↦ (after, err e) | ok _ ↦ rest ]
]

unfoldable pub commit :
    {D : Type 0} → Disk D → Volume → Metadata → D → (Volume × D) × Result Error (Unit {0})
commit disk v next d = elim (checked_add v.metadata.sequence 1) [
  | none ↦ ((v, d), err exhausted)
  | some sequence ↦
      let m = record next { sequence = sequence } in
      let written = write_from disk m (1 - v.bank) 0 (write_steps m) d in
      elim written.1 [
        | err e ↦ ((record v { poisoned = true }, written.0), err uncertain)
        | ok _ ↦ ((record { metadata = m; bank = 1 - v.bank; poisoned = false }, written.0), ok tt)
      ]
]

-- The lookup of `create`: the name must be missing.
abbrev pub must_be_missing : Result Error Node → Result Error (Unit {0})
must_be_missing (ok n) = err exists
must_be_missing (err not_found) = ok tt
must_be_missing (err e) = err e

-- What `create` publishes: the node in the first empty slot, under the next id.
unfoldable pub created : Volume → ℕ → List ℕ → Kind → Result Error (Metadata × Node)
created v parent name kind = do
  valid_name name
  refuse_if (is_empty kind) invalid
  folder ← writable v parent
  refuse_if (not (is_directory_kind folder.kind)) not_directory
  must_be_missing (lookup v parent name)
  slot ← ok_or (find_from (λ n. is_empty n.kind) 0 v.metadata.nodes) Fs.Error.full
  next ←
      ok_or (if ltb (v.metadata.next + 1) (2 ^ 32) then some (v.metadata.next + 1) else none)
        exhausted
  sequence ← ok_or (checked_add v.metadata.sequence 1) exhausted
  node ← new_node v.metadata.next parent folder.space kind name sequence
  ok (record v.metadata { next = next; nodes = set v.metadata.nodes slot.0 node }, node)

unfoldable pub create :
    {D : Type 0} → Disk D → Volume → ℕ → List ℕ → Kind → D → (Volume × D) × Result Error Node
unfolding commit created
create disk v parent name kind d = elim (created v parent name kind) [
  | err e ↦ ((v, d), err e)
  | ok (next, node) ↦
      let done = commit disk v next d in
      elim done.1 [ err e ↦ (done.0, err e) | ok _ ↦ (done.0, ok node) ]
]

-- What `remove` publishes.
unfoldable pub removed : Volume → ℕ → Result Error Metadata
removed v id = do
  node ← writable v id
  refuse_if (node.parent == 0) read_only
  elim (find_from (λ n. not (is_empty n.kind) && (n.parent == id)) 0 v.metadata.nodes) [
    | some child ↦ err not_empty
    | none ↦ ok tt
  ]
  found ← located v.metadata id
  ok (record v.metadata { nodes = set v.metadata.nodes found.0 empty_node })

unfoldable pub remove :
    {D : Type 0} → Disk D → Volume → ℕ → D → (Volume × D) × Result Error (Unit {0})
unfolding commit removed
remove disk v id d = elim (removed v id) [
  | err e ↦ ((v, d), err e)
  | ok next ↦ commit disk v next d
]

-- The node that `prepare_recorded` writes in the place of `node`; `old` is the node of that slot in the
-- metadata that it is given.
abbrev pub replaced : Node → Node → List ℕ → ℕ → Node
replaced node old bytes version_number = record old {
  bank = 1 - node.bank;
  length = length bytes;
  checksum = crc bytes;
  version = version_number;
}

unfoldable pub prepare_recorded :
    {D T : Type 0}
    → Volume
    → D
    → ℕ
    → ℕ
    → List ℕ
    → Metadata
    → (Node → T)
    → Result Error (Publication D T)
prepare_recorded v d id version_number bytes next output = do
  node ← writable v id
  refuse_if (not (is_file node.kind)) is_directory
  refuse_if (not (node.version == version_number)) version
  refuse_if (ltb max_file (length bytes)) size
  found ← located v.metadata id
  sequence ← ok_or (checked_add v.metadata.sequence 1) exhausted
  let changed = replaced node (get_or next.nodes found.0 empty_node) bytes sequence in
      ok (
        new v d (record next { nodes = set next.nodes found.0 changed; sequence = sequence })
          (data_sector found.0 changed.bank) bytes (output changed))
