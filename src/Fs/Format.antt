-- ===== src/Fs/Format.antt =====
-- crates/fs/src/format.rs, format/publication.rs, publication/command.rs and storage.rs: the metadata
-- of a volume, and the writes and flushes that publish it in one of the two banks.
use rustic_os.Base.{
  ℕ, ◌+◌, ◌-◌, ◌*◌, not, ◌&&◌, ◌||◌, leb, ltb, ◌==◌, Option, none, some, List, [], ◌∷◌, ◌++◌, map,
  length, replicate, if◌then◌else◌, Result, ok, err,
}
use rustic_os.Base.Bytes.{le, slice, write_at}
use rustic_os.Fs.{Error, invalid, not_found}
use rustic_os.Fs.Checksum.{crc}
use rustic_os.Fs.Namespace
use rustic_os.Fs.Namespace.{Node, Kind, empty_node, is_empty, directory}
use rustic_os.Fs.Recovery
use rustic_os.Fs.Recovery.{Recovery}

-- `storage.rs`: the sector of a bank's header, and the first sector of a slot's data in a bank.
abbrev pub header : ℕ → ℕ
header bank = 8 + bank * 5

abbrev pub data_sector : ℕ → ℕ → ℕ
data_sector slot bank = 32 + slot * 4 + bank * 2

pub data Command : Type 0 where
  write : ℕ → List ℕ → Command
  flush : Command

pub record Metadata : Type 0 where
  pub sequence : ℕ
  pub next : ℕ
  pub nodes : List Node
  pub recovery : Option Recovery

abbrev pub root : ℕ → List ℕ → Node
root id name = record empty_node {
  id = id;
  space = id;
  kind = directory;
  name_bytes = write_at 0 name (replicate 32 0);
  name_length = length name;
  version = 1;
}

-- The directories system, data, config and workspaces; the other slots are empty.
unfoldable pub initial : Metadata
initial = record {
  sequence = 1;
  next = 5;
  nodes =
      root 1 (115 ∷ 121 ∷ 115 ∷ 116 ∷ 101 ∷ 109 ∷ [])
      ∷ root 2 (100 ∷ 97 ∷ 116 ∷ 97 ∷ [])
      ∷ root 3 (99 ∷ 111 ∷ 110 ∷ 102 ∷ 105 ∷ 103 ∷ [])
      ∷ root 4 (119 ∷ 111 ∷ 114 ∷ 107 ∷ 115 ∷ 112 ∷ 97 ∷ 99 ∷ 101 ∷ 115 ∷ [])
      ∷ replicate 28 empty_node;
  recovery = none;
}

-- `position` of the object `id`, from slot `i` on, with its node.
unfoldable pub position_from : ℕ → ℕ → List Node → Option (ℕ × Node)
position_from id i [] = none
position_from id i (n ∷ rest) =
    let later = position_from id (i + 1) rest in
    if (n.id == id) && not (is_empty n.kind) then some (i, n) else later

unfoldable pub index : Metadata → ℕ → Result Error ℕ
index m id = elim (position_from id 0 m.nodes) [ none ↦ err not_found | some (i, _) ↦ ok i ]

abbrev pub concat : List (List ℕ) → List ℕ
concat [] = []
concat (bs ∷ rest) = bs ++ concat rest

unfoldable pub bytes : Metadata → List ℕ
bytes m = concat (map Namespace.encode m.nodes)

unfoldable pub write_steps : Metadata → ℕ
write_steps m = elim m.recovery [ none ↦ 7 | some r ↦ 14 ]

abbrev pub format_version : Option Recovery → ℕ
format_version none = 1
format_version (some r) =
    if r.reasons then 5 else if r.admissions then 4 else if r.scoped then 3 else 2

abbrev pub recovery_crc : Option Recovery → ℕ
recovery_crc none = 0
recovery_crc (some r) = crc (Recovery.encode r)

-- Bytes 28 to 31 are the checksum of the header with 0 there; the rest of the sector is 0.
unfoldable pub publication_header : Metadata → List ℕ
publication_header m =
    let plain =
      82 ∷ 85 ∷ 83 ∷ 84 ∷ 70 ∷ 83 ∷ 49 ∷ 0 ∷ []
      ++ (le 2 (format_version m.recovery)
          ++ (le 2 512
              ++ (le 8 m.sequence
                  ++ (le 4 m.next
                      ++ (le 4 (crc (bytes m))
                          ++ (le 4 0 ++ (le 4 (recovery_crc m.recovery) ++ replicate 476 0))))))) in
    write_at 28 (le 4 (crc plain)) plain

-- The step after the records, if there are any.
unfoldable pub node_command : Metadata → ℕ → ℕ → Result Error Command
node_command m bank step =
    if leb step 3
    then ok (write (header bank + 1 + step) (slice (step * 512) 512 (bytes m)))
    else if (step == 4) || (step == 6)
    then ok flush
    else if step == 5
    then ok (write (header bank) (publication_header m))
    else err invalid

unfoldable pub command : Metadata → ℕ → ℕ → Result Error Command
unfolding node_command
command m bank step = elim m.recovery [
  | none ↦ node_command m bank step
  | some r ↦
      if ltb step 7
      then ok (write (160 + bank * 7 + step) (slice (step * 512) 512 (Recovery.encode r)))
      else node_command m bank (step - 7)
]
