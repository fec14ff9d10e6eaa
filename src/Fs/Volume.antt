-- ===== src/Fs/Volume.antt =====
-- crates/fs/src/volume.rs, references.rs: the live volume and what is read of it without the disk.
use rustic_os.Base.{
  ℕ, zero, suc, ◌+◌, Bool, true, false, not, ◌&&◌, leb, ltb, ◌==◌, Option, none, some, List, [],
  ◌∷◌, if◌then◌else◌, Result, ok, err, ◌>>=◌, ◌>>◌, refuse_if, ok_or, is_ok,
}
use rustic_os.Base.Bytes.{same_bytes}
use rustic_os.Fs.{Error, uncertain, not_found, not_directory, invalid, read_only, objects}
use rustic_os.Fs.Namespace.{Node, is_empty, is_directory_kind, name_of, valid_name}
use rustic_os.Fs.Format.{Metadata, position_from}

pub record Volume : Type 0 where
  pub metadata : Metadata
  pub bank : ℕ
  pub poisoned : Bool

unfoldable pub is_ready : Volume → Result Error (Unit {0})
is_ready v = if v.poisoned then err uncertain else ok tt

-- `metadata.index(id)?` with the node of that slot.
unfoldable pub located : Metadata → ℕ → Result Error (ℕ × Node)
located m id = ok_or (position_from id 0 m.nodes) not_found

unfoldable pub stat : Volume → ℕ → Result Error Node
stat v id = do is_ready v; found ← located v.metadata id; ok found.1

-- `iter().find(..)` from slot `i` on, with the slot.
unfoldable pub find_from : (Node → Bool) → ℕ → List Node → Option (ℕ × Node)
find_from p i [] = none
find_from p i (n ∷ rest) =
    let later = find_from p (i + 1) rest in if p n then some (i, n) else later

-- `if parent != 0 && self.stat(parent)?.kind != Kind::Directory`
unfoldable pub check_parent : Volume → ℕ → Result Error (Unit {0})
check_parent v zero = ok tt
check_parent v (suc parent) = do
  n ← stat v (suc parent)
  refuse_if (not (is_directory_kind n.kind)) not_directory

abbrev pub named : ℕ → List ℕ → Node → Bool
named parent name n = not (is_empty n.kind) && (n.parent == parent) && same_bytes (name_of n) name

unfoldable pub lookup : Volume → ℕ → List ℕ → Result Error Node
lookup v parent name = do
  is_ready v
  valid_name name
  check_parent v parent
  found ← ok_or (find_from (named parent name) 0 v.metadata.nodes) not_found
  ok found.1

abbrev pub child_from : ℕ → ℕ → ℕ × Node → Bool
child_from parent cursor (i, n) = leb cursor i && not (is_empty n.kind) && (n.parent == parent)

-- The children of `parent` from slot `cursor` on: the first, with the slot after it.
unfoldable pub child_after : ℕ → ℕ → ℕ → List Node → Option (ℕ × Node)
child_after parent cursor i [] = none
child_after parent cursor i (n ∷ rest) =
    let later = child_after parent cursor (i + 1) rest in
    if child_from parent cursor (i, n) then some (i + 1, n) else later

unfoldable pub list_children : Volume → ℕ → ℕ → Result Error (Option (ℕ × Node))
list_children v parent cursor = do
  is_ready v
  refuse_if (ltb objects cursor) invalid
  check_parent v parent
  ok (child_after parent cursor 0 v.metadata.nodes)

-- The loop of `within`, with `fuel` rounds left.
unfoldable pub climb : ℕ → Volume → ℕ → ℕ → Bool
climb zero v scope current = false
climb (suc fuel) v scope current = elim (stat v current) [
  | err e ↦ false
  | ok n ↦
      let rest = climb fuel v scope n.parent in
      if current == scope then true else if n.parent == 0 then false else rest
]

unfoldable pub within : Volume → ℕ → ℕ → Bool
unfolding climb
within v id zero = is_ok (stat v id)
within v id (suc scope) = climb objects v (suc scope) id

unfoldable pub writable : Volume → ℕ → Result Error Node
writable v id = do n ← stat v id; refuse_if (n.space == 1) read_only; ok n

-- `references.rs`
unfoldable pub resolve : Volume → ℕ → ℕ → Result Error Node
resolve v workspace id = do
  place ← stat v workspace
  refuse_if (not (is_directory_kind place.kind)) not_directory
  n ← stat v id
  refuse_if (not (within v id workspace)) not_found
  ok n
