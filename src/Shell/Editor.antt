-- ===== src/Shell/Editor.antt =====
-- apps/shell/src/editor.rs: the line editor. The line is the first `len` of its bytes.
use rustic_os.Base.{
  ℕ, zero, suc, ◌+◌, ◌-◌, ◌≤◌, ◌<◌, ◌≡◌, refl, arith, Bool, true, false, not, ◌&&◌, ◌||◌, leb, ltb,
  ◌==◌, List, [], ◌∷◌, ◌++◌, length, take, if◌then◌else◌,
}
pub mod Bounded

abbrev pub capacity : ℕ
capacity = 1024

pub data Event : Type 0 where
  nothing : Event
  inserted : ℕ → Event
  erased : Event
  cleared : ℕ → Event
  line cancelled overflow invalid : Event

-- `bytes[..len]` is `text`; the bytes after it are never read.
pub record Editor : Type 0 where
  pub text : List ℕ
  pub overflowed : Bool
  pub invalid_byte : Bool
  pub skip_lf : Bool
  pub escape : ℕ

unfoldable pub new : Editor
new = record { text = []; overflowed = false; invalid_byte = false; skip_lf = false; escape = 0 }

unfoldable pub reset : Editor → Editor
reset e = record e { text = []; overflowed = false; invalid_byte = false }

abbrev pub is_printable : ℕ → Bool
is_printable b = (b == 9) || (leb 32 b && leb b 126)

abbrev pub as_space : ℕ → ℕ
as_space b = if b == 9 then 32 else b

-- Within an escape sequence.
unfoldable pub push_escape : Editor → ℕ → Editor × Event
push_escape e b = (
  record e {
    escape =
        if (e.escape == 1) && (b == 91)
        then 2
        else if (e.escape == 1) || (leb 0x40 b && leb b 0x7e)
        then 0
        else e.escape;
  },
  nothing,
)

unfoldable pub end_line : Editor → ℕ → Editor × Event
end_line e b = (
  record e { skip_lf = b == 13 },
  if e.invalid_byte then invalid else if e.overflowed then overflow else line,
)

unfoldable pub erase : Editor → Editor × Event
erase e =
    if ltb 0 (length e.text)
    then (record e { text = take (length e.text - 1) e.text }, erased)
    else (e, nothing)

unfoldable pub insert : Editor → ℕ → Editor × Event
insert e b =
    if length e.text == capacity
    then (record e { overflowed = true }, nothing)
    else (record e { text = e.text ++ (as_space b ∷ []) }, inserted (as_space b))

unfoldable pub push_text : Editor → ℕ → Editor × Event
unfolding erase insert
push_text e b =
    if (b == 8) || (b == 127)
    then erase e
    else if is_printable b
    then insert e b
    else (record e { invalid_byte = true }, nothing)

-- The `match` of `push`; its last three arms are `push_text`.
unfoldable pub push_key : Editor → ℕ → Editor × Event
unfolding reset end_line push_text
push_key e b =
    if b == 27
    then (record e { escape = 1 }, nothing)
    else if (b == 13) || (b == 10)
    then end_line e b
    else if b == 3
    then (reset e, cancelled)
    else if b == 21
    then (reset e, cleared (length e.text))
    else push_text e b

abbrev pub push_after : Editor → ℕ → Editor × Event
push_after e b = if not (e.escape == 0) then push_escape e b else push_key e b

unfoldable pub push : Editor → ℕ → Editor × Event
unfolding push_escape push_key
push e b =
    if e.skip_lf && (b == 10)
    then (record e { skip_lf = false }, nothing)
    else push_after (record e { skip_lf = false }) b
