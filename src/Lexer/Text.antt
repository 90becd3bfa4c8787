-- ===== src/Lexer/Text.antt =====
-- The bytes that the lexer of bootstrap/quarantine/c/frontend.c tells apart, positions, and its loops over
-- blanks, comments and names.
use nexoragenesis_toolchain.Base.{
  ℕ, zero, suc, ◌+◌, ◌-◌, ◌%◌, ◌^◌, Bool, true, false, ◌||◌, ◌&&◌, ◌==◌, ◌!=◌, ltb, leb,
  if◌then◌else◌, String,
}
use nexoragenesis_toolchain.Memory.{Mem}

abbrev within : ℕ → ℕ → ℕ → Bool
within lo hi c = leb lo c && leb c hi

unfoldable pub letter : ℕ → Bool
letter c = within b'a' b'z' c || within b'A' b'Z' c || c == b'_'

unfoldable pub digit : ℕ → Bool
digit c = within b'0' b'9' c

unfoldable pub xdigit : ℕ → Bool
unfolding digit
xdigit c = digit c || within b'a' b'f' c || within b'A' b'F' c

unfoldable pub xvalue : ℕ → ℕ
unfolding digit
xvalue c = if digit c then c - b'0' else if leb b'a' c then c - b'a' + 10 else c - b'A' + 10

-- A position in the source: `cursor`, `line` and `column` of the parser.
pub record Place : Type 0 where
  pub cursor : ℕ
  pub line : ℕ
  pub column : ℕ

unfoldable pub advance : Mem → Place → Place
advance s p =
    if s p.cursor == b'\n'
    then record { cursor = p.cursor + 1; line = (p.line + 1) % 2 ^ 32; column = 1 }
    else record { cursor = p.cursor + 1; line = p.line; column = (p.column + 1) % 2 ^ 32 }

-- What a loop makes of the text at a position: it goes on behind a byte, or it stops, or it fails with a
-- message for the span up to an offset.
pub data Scan {ℓ} (A : Type ℓ) : Type ℓ where
  done : A → Place → Scan A
  fails : ℕ → String → Place → Scan A

-- What the loop over blanks and comments finds.
pub data Blank : Type 0 where
  space carriage isolated comment other : Blank

unfoldable pub blank_at : Mem → ℕ → ℕ → Blank
blank_at s n at =
    if leb n at
    then other
    else if s at == b' ' || s at == b'\t'
    then space
    else if s at == b'\r'
    then (if leb n (at + 1) || s (at + 1) != b'\n' then isolated else carriage)
    else if s at == b'/' && ltb (at + 1) n && s (at + 1) == b'/'
    then comment
    else other

-- The loop to the end of a comment; the rounds left are the first argument, here and below.
unfoldable pub skip_line : ℕ → Mem → ℕ → Place → Place
skip_line zero s n p = p
skip_line (suc left) s n p = elim (ltb p.cursor n && s p.cursor != b'\n') [
  | true ↦ skip_line left s n (advance s p)
  | false ↦ p
]

unfoldable pub skip_blanks : ℕ → Mem → ℕ → Place → Scan (Unit {0})
skip_blanks zero s n p = done tt p
skip_blanks (suc left) s n p = elim (blank_at s n p.cursor) [
  | space ↦ skip_blanks left s n (advance s p)
  | carriage ↦ skip_blanks left s n (advance s p)
  | isolated ↦ fails (p.cursor + 1) "isolated carriage return" p
  | comment ↦ skip_blanks left s n (skip_line n s n p)
  | other ↦ done tt p
]

-- The loop over letters and digits.
unfoldable pub skip_name : ℕ → Mem → ℕ → Place → Place
skip_name zero s n p = p
skip_name (suc left) s n p = elim (ltb p.cursor n && (letter (s p.cursor) || digit (s p.cursor))) [
  | true ↦ skip_name left s n (advance s p)
  | false ↦ p
]
