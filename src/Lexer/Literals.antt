-- ===== src/Lexer/Literals.antt =====
-- The literals of `next` in bootstrap/quarantine/c/frontend.c: integers and strings.
use nexoragenesis_toolchain.Base.{
  ℕ, zero, suc, ◌+◌, ◌-◌, ◌*◌, ◌/◌, ◌^◌, Bool, true, false, ◌||◌, ◌&&◌, not, ◌==◌, ◌!=◌, ltb, leb,
  if◌then◌else◌,
}
use nexoragenesis_toolchain.Memory.{Mem}
use nexoragenesis_toolchain.Lexer.Text.{
  Place, Scan, advance, digit, done, fails, letter, skip_name, xdigit, xvalue,
}

unfoldable pub base_digit : ℕ → ℕ → Bool
base_digit base c = if base == 16 then xdigit c else digit c

unfoldable pub base_value : ℕ → ℕ → ℕ
base_value base c = if base == 16 then xvalue c else c - b'0'

-- What the loop over the digits of a literal finds, whose value so far is `value`.
pub data Digit : Type 0 where
  ends bad_underscore underscore exceeds more : Digit

unfoldable pub digit_at : Mem → ℕ → ℕ → Bool → ℕ → ℕ → Digit
digit_at s n base previous value at =
    if leb n at
    then ends
    else if s at == b'_'
    then (if not previous || leb n (at + 1) || not (base_digit base (s (at + 1)))
        then bad_underscore
        else underscore)
    else if not (base_digit base (s at))
    then ends
    else if ltb ((2 ^ 64 - 1 - base_value base (s at)) / base) value
    then exceeds
    else more

unfoldable pub scan_digits : ℕ → Mem → ℕ → ℕ → Bool → ℕ → Place → Scan ℕ
scan_digits zero s n base previous value p = done value p
scan_digits (suc left) s n base previous value p =
    elim (digit_at s n base previous value p.cursor) [
      | ends ↦ done value p
      | bad_underscore ↦ fails (p.cursor + 1) "invalid underscore in integer" p
      | underscore ↦ scan_digits left s n base false value (advance s p)
      | exceeds ↦ fails (p.cursor + 1) "integer exceeds u64" p
      | more ↦
          scan_digits left s n base true (value * base + base_value base (s p.cursor)) (advance s p)
    ]

-- Behind the digits: a letter there begins a suffix.
unfoldable pub end_integer : Mem → ℕ → Scan ℕ → Scan ℕ
end_integer s n (fails to message p) = fails to message p
end_integer s n (done value p) =
    if ltb p.cursor n && letter (s p.cursor)
    then (let q = skip_name n s n p in fails q.cursor "invalid integer suffix" q)
    else done value p

-- The prefix of a hexadecimal literal.
unfoldable pub hex_prefix : Mem → ℕ → ℕ → Bool
hex_prefix s n at = s at == b'0' && (ltb (at + 1) n && (s (at + 1) == b'x' || s (at + 1) == b'X'))

-- An integer; its first digit is at p.
unfoldable pub scan_integer : Mem → ℕ → Place → Scan ℕ
scan_integer s n p =
    let q = advance s (advance s p) in
    if hex_prefix s n p.cursor
    then (if leb n q.cursor || not (xdigit (s q.cursor))
        then fails q.cursor "hex literal requires digits" q
        else end_integer s n (scan_digits n s n 16 false 0 q))
    else end_integer s n (scan_digits n s n 10 false 0 p)

-- strchr("\\\"nrt0", e) is not null; `strchr` finds the 0 that ends the text too.
unfoldable pub is_escape : ℕ → Bool
is_escape e = e == b'\\' || e == b'"' || e == b'n' || e == b'r' || e == b't' || e == b'0' || e == 0

-- What the loop over the bytes of a string finds.
pub data StringByte : Type 0 where
  closed bad_byte cut bad_hex hex bad_escape escape plain : StringByte

unfoldable pub string_at : Mem → ℕ → ℕ → StringByte
string_at s n at =
    if leb n at || s at == b'"'
    then closed
    else if s at == b'\n' || s at == b'\r' || s at == 0
    then bad_byte
    else if s at != b'\\'
    then plain
    else if leb n (at + 1)
    then cut
    else if s (at + 1) == b'x'
    then (if leb n (at + 3) || not (xdigit (s (at + 2))) || not (xdigit (s (at + 3)))
        then bad_hex
        else hex)
    else if is_escape (s (at + 1))
    then escape
    else bad_escape

unfoldable pub advance_by : ℕ → Mem → Place → Place
advance_by zero s p = p
advance_by (suc k) s p = advance_by k s (advance s p)

unfoldable pub scan_string : ℕ → Mem → ℕ → Place → Scan (Unit {0})
scan_string zero s n p = done tt p
scan_string (suc left) s n p = elim (string_at s n p.cursor) [
  | closed ↦ done tt p
  | bad_byte ↦ fails (p.cursor + 1) "invalid string byte" p
  | cut ↦ done tt (advance s p)
  | bad_hex ↦ fails (p.cursor + 2) "invalid hex string escape" (advance_by 2 s p)
  | hex ↦ scan_string left s n (advance_by 4 s p)
  | bad_escape ↦ fails (p.cursor + 2) "unknown string escape" (advance s p)
  | escape ↦ scan_string left s n (advance_by 2 s p)
  | plain ↦ scan_string left s n (advance s p)
]

-- The test behind the loop.
unfoldable pub end_string : Mem → ℕ → Scan (Unit {0}) → Scan (Unit {0})
end_string s n (fails to message p) = fails to message p
end_string s n (done u p) =
    if leb n p.cursor || s p.cursor != b'"'
    then fails p.cursor "unterminated string" p
    else done u p
