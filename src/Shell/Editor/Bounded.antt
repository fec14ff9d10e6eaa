-- ===== src/Shell/Editor/Bounded.antt =====
-- apps/shell/src/editor.rs: what a line can hold, whatever is typed.
use rustic_os.Base.{
  ℕ, zero, suc, ◌-◌, ◌≤◌, ◌≡◌, refl, arith, Bool, true, false, List, [], ◌∷◌, ◌++◌, length, take,
  length-append, not, ◌||◌, ◌&&◌, ◌==◌, ltb, if◌then◌else◌,
}
use rustic_os.Shell.Editor.{
  Editor, Event, capacity, push, push_key, push_escape, push_after, push_text, reset, end_line,
  erase, insert, as_space, is_printable, erased, inserted, nothing,
}

-- Every byte is a printable ASCII character.
pub data AllPrintable : List ℕ → Type 0 where
  none_typed : AllPrintable []
  typed : (b : ℕ) (rest : List ℕ) → 32 ≤ b → b ≤ 126 → AllPrintable rest → AllPrintable (b ∷ rest)

pub record IsLine (e : Editor) : Type 0 where
  pub fits : length e.text ≤ capacity
  pub printable : AllPrintable e.text
  pub state : e.escape ≤ 2

AllPrintable-take : (n : ℕ) (xs : List ℕ) → AllPrintable xs → AllPrintable (take n xs)
AllPrintable-take zero xs p = none_typed
AllPrintable-take (suc n) [] p = none_typed
AllPrintable-take (suc n) (x ∷ xs) (typed _ _ l h p) =
    typed x (take n xs) l h (AllPrintable-take n xs p)

AllPrintable-snoc :
    (xs : List ℕ) (b : ℕ) → 32 ≤ b → b ≤ 126 → AllPrintable xs → AllPrintable (xs ++ (b ∷ []))
AllPrintable-snoc [] b l h p = typed b [] l h none_typed
AllPrintable-snoc (x ∷ xs) b l h (typed _ _ m k p) =
    typed x (xs ++ (b ∷ [])) m k (AllPrintable-snoc xs b l h p)

length-take_le : (n : ℕ) (xs : List ℕ) → length (take n xs) ≤ length xs
length-take_le zero xs = omega arith
length-take_le (suc n) [] = omega arith
length-take_le (suc n) (x ∷ xs) = omega (arith, length-take_le n xs)

reset-IsLine : (e : Editor) → IsLine e → IsLine (reset e)
unfolding reset
reset-IsLine e v = record { fits = omega arith; printable = none_typed; state = v.state }

-- Both branches of a test.
if-IsLine :
    (c : Bool) (p q : Editor × Event)
    → (c ≡ true → IsLine p.0)
    → (c ≡ false → IsLine q.0)
    → IsLine (if c then p else q).0
if-IsLine true p q v w = v refl
if-IsLine false p q v w = w refl

erase-IsLine : (e : Editor) → IsLine e → IsLine (erase e).0
unfolding erase
erase-IsLine e v =
    if-IsLine (ltb 0 (length e.text)) (record e { text = take (length e.text - 1) e.text }, erased)
      (e, nothing)
      (λ _. record {
        fits = omega (arith, v.fits, length-take_le (length e.text - 1) e.text);
        printable = AllPrintable-take (length e.text - 1) e.text v.printable;
        state = v.state;
      })
      (λ _. v)

insert-IsLine : (e : Editor) (b : ℕ) → is_printable b ≡ true → IsLine e → IsLine (insert e b).0
unfolding insert
insert-IsLine e b p v =
    if-IsLine (length e.text == capacity) (record e { overflowed = true }, nothing)
      (record e { text = e.text ++ (as_space b ∷ []) }, inserted (as_space b))
      (λ _. record { fits = v.fits; printable = v.printable; state = v.state })
      (λ room. record {
        fits = ground (arith, v.fits, length-append e.text (as_space b ∷ []));
        printable = AllPrintable-snoc e.text (as_space b) (ground arith) (ground arith) v.printable;
        state = v.state;
      })

push_escape-IsLine : (e : Editor) (b : ℕ) → IsLine e → IsLine (push_escape e b).0
unfolding push_escape
push_escape-IsLine e b v = record {
  fits = v.fits;
  printable = v.printable;
  state = ground (arith, v.state);
}

end_line-IsLine : (e : Editor) (b : ℕ) → IsLine e → IsLine (end_line e b).0
unfolding end_line
end_line-IsLine e b v = record { fits = v.fits; printable = v.printable; state = v.state }

push_text-IsLine : (e : Editor) (b : ℕ) → IsLine e → IsLine (push_text e b).0
unfolding push_text
push_text-IsLine e b v =
    if-IsLine ((b == 8) || (b == 127)) _ _ (λ _. erase-IsLine e v)
      (λ _.
        if-IsLine (is_printable b) _ _ (λ p. insert-IsLine e b p v)
          (λ _. record { fits = v.fits; printable = v.printable; state = v.state }))

push_key-IsLine : (e : Editor) (b : ℕ) → IsLine e → IsLine (push_key e b).0
unfolding push_key
push_key-IsLine e b v =
    if-IsLine (b == 27) _ _
      (λ _. record { fits = v.fits; printable = v.printable; state = omega arith })
      (λ _.
        if-IsLine ((b == 13) || (b == 10)) _ _ (λ _. end_line-IsLine e b v)
          (λ _.
            if-IsLine (b == 3) _ _ (λ _. reset-IsLine e v)
              (λ _. if-IsLine (b == 21) _ _ (λ _. reset-IsLine e v) (λ _. push_text-IsLine e b v))))

push_after-IsLine : (e : Editor) (b : ℕ) → IsLine e → IsLine (push_after e b).0
push_after-IsLine e b v =
    if-IsLine (not (e.escape == 0)) _ _ (λ _. push_escape-IsLine e b v) (λ _. push_key-IsLine e b v)

-- Whatever byte is typed into such an editor, the line stays within the editor's capacity and all of it is printable
-- ASCII, and the state of an escape sequence is one of its three.
pub push-IsLine : (e : Editor) (b : ℕ) → IsLine e → IsLine (push e b).0
unfolding push
push-IsLine e b v =
    let w : IsLine (record e { skip_lf = false }) = record {
      fits = v.fits;
      printable = v.printable;
      state = v.state;
    } in
    if-IsLine (e.skip_lf && (b == 10)) _ _ (λ _. w)
      (λ _. push_after-IsLine (record e { skip_lf = false }) b w)

-- The line of the editor once the bytes have been typed.
unfoldable pub type_all : Editor → List ℕ → Editor
type_all e [] = e
type_all e (b ∷ bs) = type_all (push e b).0 bs

-- After any bytes typed into a new editor its line is within capacity and all printable ASCII.
pub type_all-IsLine : (bs : List ℕ) (e : Editor) → IsLine e → IsLine (type_all e bs)
unfolding type_all
type_all-IsLine [] e v = v
type_all-IsLine (b ∷ bs) e v = type_all-IsLine bs (push e b).0 (push-IsLine e b v)
