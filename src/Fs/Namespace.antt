-- ===== src/Fs/Namespace.antt =====
-- crates/fs/src/namespace.rs: the objects of a volume and their names.
use rustic_os.Base.{
  ℕ, ◌+◌, Bool, true, false, not, ◌&&◌, ◌||◌, leb, ltb, ◌==◌, Option, none, some, List, [], ◌∷◌,
  ◌++◌, length, get_or, take, drop, replicate, if◌then◌else◌, Result, ok, err, ◌>>◌,
}
use rustic_os.Base.Bytes.{le, slice, u16_at, u32_at, u64_at, write_at, any_nonzero, same_bytes}
use rustic_os.Fs.{Error, invalid, corrupt, max_file}

pub data Kind : Type 0 where
  empty file directory : Kind

abbrev pub kind_number : Kind → ℕ
kind_number empty = 0
kind_number file = 1
kind_number directory = 2

abbrev pub is_empty : Kind → Bool
is_empty empty = true
is_empty _ = false

abbrev pub is_file : Kind → Bool
is_file file = true
is_file _ = false

abbrev pub is_directory_kind : Kind → Bool
is_directory_kind directory = true
is_directory_kind _ = false

pub record Node : Type 0 where
  pub id : ℕ
  pub parent : ℕ
  pub version : ℕ
  pub length : ℕ
  pub kind : Kind
  pub space : ℕ
  pub bank : ℕ
  pub checksum : ℕ
  pub name_bytes : List ℕ
  pub name_length : ℕ

abbrev pub empty_node : Node
empty_node = record {
  id = 0;
  parent = 0;
  version = 0;
  length = 0;
  kind = empty;
  space = 0;
  bank = 0;
  checksum = 0;
  name_bytes = replicate 32 0;
  name_length = 0;
}

abbrev pub is_alphanumeric : ℕ → Bool
is_alphanumeric b = (leb 48 b && leb b 57) || (leb 65 b && leb b 90) || (leb 97 b && leb b 122)

-- A letter, a digit, `.`, `_` or `-`.
abbrev pub allowed : ℕ → Bool
allowed b = is_alphanumeric b || (b == 46) || (b == 95) || (b == 45)

unfoldable pub all_allowed : List ℕ → Bool
all_allowed [] = true
all_allowed (b ∷ rest) = allowed b && all_allowed rest

unfoldable pub valid_name : List ℕ → Result Error (Unit {0})
unfolding all_allowed
valid_name name =
    if (length name == 0)
      || ltb 31 (length name)
      || same_bytes name (46 ∷ [])
      || same_bytes name (46 ∷ 46 ∷ [])
      || not (all_allowed name)
    then err invalid
    else ok tt

unfoldable pub new_node : ℕ → ℕ → ℕ → Kind → List ℕ → ℕ → Result Error Node
new_node id parent space kind name version = do
  valid_name name
  ok (record empty_node {
    id = id;
    parent = parent;
    space = space;
    kind = kind;
    version = version;
    name_bytes = write_at 0 name (replicate 32 0);
    name_length = length name;
  })

abbrev pub name_of : Node → List ℕ
name_of n = take n.name_length n.name_bytes

-- The 64 bytes of a node; bytes 14, 15 and 28 to 31 are 0.
unfoldable pub encode : Node → List ℕ
encode n =
    kind_number n.kind ∷ n.space ∷ n.bank ∷ n.name_length ∷ []
    ++ (le 4 n.parent
        ++ (le 4 n.id
            ++ (le 2 n.length
                ++ (0 ∷ 0 ∷ []
                    ++ (le 8 n.version
                        ++ (le 4 n.checksum ++ (0 ∷ 0 ∷ 0 ∷ 0 ∷ [] ++ n.name_bytes)))))))

abbrev pub kind_of : ℕ → Option Kind
kind_of b = if b == 1 then some file else if b == 2 then some directory else none

abbrev pub between : ℕ → ℕ → ℕ → Bool
between low high b = leb low b && leb b high

-- The checks of `decode` on the fields that have a range, and on the bytes that must be 0.
abbrev pub fields_fit : List ℕ → Bool
fields_fit b =
    between 1 4 (get_or b 1 0)
    && leb (get_or b 2 0) 1
    && between 1 31 (get_or b 3 0)
    && leb (u16_at b 12) max_file
    && not (any_nonzero (slice 14 2 b))
    && not (any_nonzero (slice 28 4 b))
    && not (any_nonzero (drop (32 + get_or b 3 0) b))

abbrev pub node_fits : Node → Bool
node_fits n =
    not (n.id == 0)
    && not (n.version == 0)
    && not (
        is_directory_kind n.kind
        && (not (n.length == 0) || not (n.checksum == 0) || not (n.bank == 0)))

abbrev pub decoded : List ℕ → Kind → Result Error Node
decoded b kind =
    elim (new_node (u32_at b 8) (u32_at b 4) (get_or b 1 0) kind (slice 32 (get_or b 3 0) b)
      (u64_at b 16)) [
        | err e ↦ err corrupt
        | ok n ↦
            let node = record n {
              length = u16_at b 12;
              bank = get_or b 2 0;
              checksum = u32_at b 24;
            } in
            if not (node_fits node) then err corrupt else ok node
      ]

unfoldable pub decode : List ℕ → Result Error Node
decode b =
    if not (length b == 64)
    then err corrupt
    else if not (any_nonzero b)
    then ok empty_node
    else elim (kind_of (get_or b 0 0)) [
      | none ↦ err corrupt
      | some kind ↦ if not (fields_fit b) then err corrupt else decoded b kind
    ]
