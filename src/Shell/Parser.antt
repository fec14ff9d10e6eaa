-- ===== src/Shell/Parser.antt =====
-- apps/shell/src/parser.rs: the words of a line. The source writes each word over the bytes that it has
-- read; here the words are lists, `Args::get n` being the word at `n`.
use rustic_os.Base.{
  ℕ, zero, suc, ◌+◌, ◌-◌, ◌⊎◌, ◌≤◌, ◌<◌, ◌≡◌, refl, ap, inl, inr, arith, Bool, true, false, not,
  ◌&&◌, ◌||◌, ltb, ◌==◌, Option, none, some, List, [], ◌∷◌, length, if◌then◌else◌, Result, ok, err,
  Result-cases, List-cases, Bool-cases,
}

pub data Error : Type 0 where
  quote escape arguments encoding : Error

-- What the loop does with a byte, `held` being the quote that is open, or 0.
pub data Kind : Type 0 where
  separator opening closing escaping plain : Kind

unfoldable pub kind : ℕ → ℕ → Kind
kind held b =
    if (held == 0) && (b == 32)
    then separator
    else if ((b == 39) || (b == 34)) && (held == 0)
    then opening
    else if ((b == 39) || (b == 34)) && (held == b)
    then closing
    else if (b == 92) && not (held == 39)
    then escaping
    else plain

abbrev pub unescape : ℕ → ℕ
unescape c = if c == 110 then 10 else if c == 116 then 9 else c

abbrev pub prepend : ℕ → Result Error (List ℕ × List ℕ) → Result Error (List ℕ × List ℕ)
prepend b (err e) = err e
prepend b (ok (word, left)) = ok (b ∷ word, left)

-- The inner loop: a word, and the bytes after it.
unfoldable pub read_word : ℕ → List ℕ → Result Error (List ℕ × List ℕ)
read_word held [] = if not (held == 0) then err quote else ok ([], [])
read_word held (b ∷ []) = elim (kind held b) [
  | separator ↦ ok ([], [])
  | opening ↦ read_word b []
  | closing ↦ read_word 0 []
  | escaping ↦ err escape
  | plain ↦ prepend b (read_word held [])
]
read_word held (b ∷ c ∷ bs) = elim (kind held b) [
  | separator ↦ ok ([], c ∷ bs)
  | opening ↦ read_word b (c ∷ bs)
  | closing ↦ read_word 0 (c ∷ bs)
  | escaping ↦ prepend (unescape c) (read_word held bs)
  | plain ↦ prepend b (read_word held (c ∷ bs))
]

unfoldable pub skip_spaces : List ℕ → List ℕ
skip_spaces [] = []
skip_spaces (b ∷ bs) = let rest = skip_spaces bs in if b == 32 then rest else b ∷ bs

abbrev pub max_words : ℕ
max_words = 16

abbrev pub add_word :
    List ℕ → Option (Result Error (List (List ℕ))) → Option (Result Error (List (List ℕ)))
add_word word none = none
add_word word (some (err e)) = some (err e)
add_word word (some (ok words)) = some (ok (word ∷ words))

-- The outer loop, on fuel, after `count` words: `none` when the fuel runs out.
unfoldable pub read_words : ℕ → ℕ → List ℕ → Option (Result Error (List (List ℕ)))
read_words zero count bs = none
read_words (suc fuel) count bs = elim (skip_spaces bs) [
  | [] ↦ some (ok [])
  | b ∷ rest ↦ elim (count == max_words) [
    | true ↦ some (err arguments)
    | false ↦ elim (read_word 0 (b ∷ rest)) [
      | err e ↦ some (err e)
      | ok (word, left) ↦ add_word word (read_words fuel (count + 1) left)
    ]
  ]
]

unfoldable pub is_ascii : List ℕ → Bool
is_ascii [] = true
is_ascii (b ∷ bs) = ltb b 128 && is_ascii bs

unfoldable pub parse : List ℕ → Option (Result Error (List (List ℕ)))
unfolding read_words
parse bs = if not (is_ascii bs) then some (err encoding) else read_words (suc (length bs)) 0 bs

skip_spaces_le : (bs : List ℕ) → length (skip_spaces bs) ≤ length bs
unfolding skip_spaces
skip_spaces_le [] = omega arith
skip_spaces_le (b ∷ bs) = ground (arith, skip_spaces_le bs)

prepend_ok :
    (b : ℕ) (r : Result Error (List ℕ × List ℕ)) (word left : List ℕ)
    → prepend b r ≡ ok (word, left)
    → (rest : List ℕ) × (r ≡ ok (rest, left))
prepend_ok b (err e) word left h = ground arith
prepend_ok b (ok (rest, l)) word left h = (rest, ground arith)

Kind-cases :
    (held b : ℕ)
    → ((kind held b ≡ separator) ⊎ (kind held b ≡ opening))
      ⊎ ((kind held b ≡ closing) ⊎ ((kind held b ≡ escaping) ⊎ (kind held b ≡ plain)))
Kind-cases held b = by_kind (kind held b)
  where
    by_kind :
        (k : Kind)
        → ((k ≡ separator) ⊎ (k ≡ opening)) ⊎ ((k ≡ closing) ⊎ ((k ≡ escaping) ⊎ (k ≡ plain)))
    by_kind separator = inl (inl refl)
    by_kind opening = inl (inr refl)
    by_kind closing = inr (inl refl)
    by_kind escaping = inr (inr (inl refl))
    by_kind plain = inr (inr (inr refl))

-- A word takes at least one byte, if there is one.
read_word_le :
    (held : ℕ) (bs word left : List ℕ)
    → read_word held bs ≡ ok (word, left)
    → length left ≤ length bs - 1
unfolding read_word
read_word_le held [] word left h = ground arith
read_word_le held (b ∷ []) word left h = elim (Kind-cases held b) [
  | inl (inl e) ↦ ground arith
  | inl (inr e) ↦ ground arith
  | inr (inl e) ↦ ground arith
  | inr (inr (inl e)) ↦ ground arith
  | inr (inr (inr e)) ↦
      let (rest, found) = prepend_ok b (read_word held []) word left (ground arith) in ground arith
]
read_word_le held (b ∷ c ∷ bs) word left h = elim (Kind-cases held b) [
  | inl (inl e) ↦ ground arith
  | inl (inr e) ↦ let shorter = read_word_le b (c ∷ bs) word left (ground arith) in omega arith
  | inr (inl e) ↦ let shorter = read_word_le 0 (c ∷ bs) word left (ground arith) in omega arith
  | inr (inr (inl e)) ↦
      let (rest, found) = prepend_ok (unescape c) (read_word held bs) word left (ground arith) in
      let shorter = read_word_le held bs rest left found in omega arith
  | inr (inr (inr e)) ↦
      let (rest, found) = prepend_ok b (read_word held (c ∷ bs)) word left (ground arith) in
      let shorter = read_word_le held (c ∷ bs) rest left found in omega arith
]

-- A parse that ends, and after `count` words brings them to sixteen at most.
abbrev pub Answered : ℕ → Option (Result Error (List (List ℕ))) → Type 0
Answered count o =
    (r : Result Error (List (List ℕ))) × (o ≡ some r)
    × ((words : List (List ℕ)) → r ≡ ok words → count + length words ≤ max_words)

refused-Answered : (count : ℕ) (e : Error) → Answered count (some (err e))
refused-Answered count e = (err e, refl, λ words h. ground arith)

add_word-Answered :
    (count : ℕ) (word : List ℕ) (o : Option (Result Error (List (List ℕ))))
    → Answered (count + 1) o
    → Answered count (add_word word o)
add_word-Answered count word none (r, found, bound) = ground arith
add_word-Answered count word (some (err e)) (r, found, bound) = refused-Answered count e
add_word-Answered count word (some (ok words)) (r, found, bound) =
    (ok (word ∷ words), refl, λ ws h. let few = bound words (ground arith) in ground arith)

read_words-Answered :
    (fuel count : ℕ) (bs : List ℕ)
    → length bs < fuel
    → count ≤ max_words
    → Answered count (read_words fuel count bs)
unfolding read_words
read_words-Answered zero count bs h k = absurd (ground arith)
read_words-Answered (suc fuel) count bs h k = elim (List-cases (skip_spaces bs)) [
  | inl e ↦ (ok [], ground arith, λ words f. ground arith)
  | inr (b, rest, e) ↦ elim (Bool-cases (count == max_words)) [
    | inl full ↦ rw (e, read_words) (rw full (refused-Answered count arguments))
    | inr room ↦ elim (Result-cases (read_word 0 (b ∷ rest))) [
      | inr (f, bad) ↦ rw (e, read_words) (rw (room, bad) (refused-Answered count f))
      | inl ((word, left), found) ↦
          let short : length left < fuel =
            omega (
              arith,
              read_word_le 0 (b ∷ rest) word left found,
              ap length e,
              skip_spaces_le bs,
              h,
            ) in
          let few : count + 1 ≤ max_words = ground arith in
          rw (e, read_words)
            (rw (room, found)
              (add_word-Answered count word (read_words fuel (count + 1) left)
                (read_words-Answered fuel (count + 1) left short few)))
    ]
  ]
]

-- Parsing a line always ends, with an error or with at most sixteen words.
pub parse-Answered : (bs : List ℕ) → Answered 0 (parse bs)
unfolding parse
parse-Answered bs = elim (Bool-cases (is_ascii bs)) [
  | inr e ↦ rw (e, parse) (refused-Answered 0 encoding)
  | inl e ↦ rw (e, parse) (read_words-Answered (suc (length bs)) 0 bs (omega arith) (omega arith))
]
