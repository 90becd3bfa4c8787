-- ===== src/Examples/Sources.antt =====
-- A small source, its tokens, and the theorems at it.
use nexoragenesis_toolchain.Base.{◌≡◌, refl, true, false, [], ◌∷◌, ◌&&◌, ◌||◌, arith, ltb, List, ℕ}
use nexoragenesis_toolchain.Memory.{bytes_of}
use nexoragenesis_toolchain.Lexer.Text.{
  Place, done, letter, digit, xdigit, xvalue, advance, blank_at, skip_line, skip_blanks, skip_name,
}
use nexoragenesis_toolchain.Lexer.Literals.{
  base_digit, base_value, digit_at, scan_digits, end_integer, hex_prefix, scan_integer, is_escape,
  string_at, advance_by, scan_string, end_string,
}
use nexoragenesis_toolchain.Lexer.Tokens.{
  Input, pair_kind, pair_at, behind_mark, scan_mark, scan_token, next_token, next_at, next, opened,
  place, Token,
}
use nexoragenesis_toolchain.Lexer.Places.{IsPlace, lines_before, bytes_behind}
use nexoragenesis_toolchain.Lexer.Progress.{next-IsNext, IsNext}
use nexoragenesis_toolchain.Lexer.Stream.{lex_all, lex_all-IsLexed, IsLexed}
use nexoragenesis_toolchain.Lexer.Numbers.{scan_integer-IsInteger, IsInteger}
use nexoragenesis_toolchain.Lexer.Fuel.{loops_end, ends_by, is_other, is_close}

-- x_ = 0x1F_0 //n
-- "a"->
abbrev small_bytes : List ℕ
small_bytes =
    b'x' ∷ b'_' ∷ b' ' ∷ b'=' ∷ b' ' ∷ b'0' ∷ b'x' ∷ b'1' ∷ b'F' ∷ b'_' ∷ b'0' ∷ b' ' ∷ b'/' ∷ b'/'
    ∷ b'n' ∷ b'\n' ∷ b'"' ∷ b'a' ∷ b'"' ∷ b'-' ∷ b'>' ∷ []

abbrev small_source : Input
small_source = record { text = bytes_of small_bytes; length_ = 21; source = 0 }

-- Behind the integer.
abbrev behind : Place
behind = record { cursor = 11; line = 1; column = 12 }

abbrev kinds : List Token → List ℕ
kinds [] = []
kinds (t ∷ ts) = t.kind ∷ kinds ts

-- name, =, integer, end of line, string, ->
small_tokens : kinds (lex_all 22 small_source opened).0 ≡ 257 ∷ 61 ∷ 258 ∷ 260 ∷ 259 ∷ 261 ∷ []
unfolding letter digit xdigit xvalue advance blank_at skip_line skip_blanks skip_name base_digit
    base_value digit_at scan_digits end_integer hex_prefix scan_integer is_escape string_at
    advance_by scan_string end_string pair_kind pair_at behind_mark scan_mark scan_token next_token
    next_at next lex_all
small_tokens = refl

-- The integer 0x1F_0.
small_number :
    scan_integer small_source.text 21 (record { cursor = 5; line = 1; column = 6 })
    ≡ done 496 behind
unfolding letter digit xdigit xvalue advance skip_name base_digit base_value digit_at scan_digits
    end_integer hex_prefix scan_integer
small_number = refl

opened-IsPlace : IsPlace small_source.text (place opened)
unfolding lines_before bytes_behind
opened-IsPlace = record { on_line = refl; in_column = refl }

next-IsNext_example : IsNext small_source opened (next small_source opened)
next-IsNext_example = next-IsNext small_source opened (omega arith) opened-IsPlace refl

lex_all-IsLexed_example : IsLexed small_source 0 (lex_all 22 small_source opened)
lex_all-IsLexed_example =
    lex_all-IsLexed 22 small_source opened (omega arith) opened-IsPlace refl (omega arith)

scan_integer-IsInteger_example :
    IsInteger small_source.text 21 (record { cursor = 5; line = 1; column = 6 }) 496 behind
scan_integer-IsInteger_example = scan_integer-IsInteger small_source.text 21 _ _ 496 small_number

loops_end_example :
    (ends_by small_source.text 21
        (is_other small_source.text 21)
        (skip_blanks 21 small_source.text 21 behind)
      ≡ true)
    × ((ltb (skip_name 21 small_source.text 21 behind).cursor 21
          && (letter (small_source.text (skip_name 21 small_source.text 21 behind).cursor)
              || digit (small_source.text (skip_name 21 small_source.text 21 behind).cursor)))
        ≡ false)
    × (ends_by small_source.text 21
          (is_close small_source.text 21)
          (scan_string 21 small_source.text 21 behind)
        ≡ true)
loops_end_example = loops_end small_source.text 21 behind
