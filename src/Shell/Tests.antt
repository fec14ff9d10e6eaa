-- ===== src/Shell/Tests.antt =====
-- apps/shell/src/editor.rs and parser.rs: an editor whose line is "ls", and a line of two words.
use rustic_os.Base.{ℕ, refl, List, some, ok, ◌≡◌, true, false, [], ◌∷◌, arith}
use rustic_os.Shell.Editor.{Editor, push}
use rustic_os.Shell.Editor.Bounded.{IsLine, push-IsLine, none_typed, typed}
use rustic_os.Shell.Parser.{
  Answered, parse, parse-Answered, is_ascii, read_words, skip_spaces, read_word, kind,
}

abbrev listing : Editor
listing = record {
  text = 108 ∷ 115 ∷ [];
  overflowed = false;
  invalid_byte = false;
  skip_lf = true;
  escape = 0;
}

listing-IsLine : IsLine listing
listing-IsLine = record {
  fits = omega arith;
  printable =
      typed 108 (115 ∷ []) (omega arith) (omega arith)
        (typed 115 [] (omega arith) (omega arith) none_typed);
  state = omega arith;
}

push-IsLine_example : IsLine (push listing 9).0
push-IsLine_example = push-IsLine listing 9 listing-IsLine

-- The bytes of `ls 'a b'`.
abbrev quoted : List ℕ
quoted = 108 ∷ 115 ∷ 32 ∷ 39 ∷ 97 ∷ 32 ∷ 98 ∷ 39 ∷ []

parse-Answered_example : Answered 0 (parse quoted)
parse-Answered_example = parse-Answered quoted

two_words : parse quoted ≡ some (ok ((108 ∷ 115 ∷ []) ∷ (97 ∷ 32 ∷ 98 ∷ []) ∷ []))
unfolding parse is_ascii read_words skip_spaces read_word kind
two_words = refl
