-- ===== src/Lexer/Tokens.antt =====
-- The parser and its tokens, and `next` in bootstrap/quarantine/c/frontend.c. What `lex_fail` hands to
-- `diag` is kept in a list; `diag` may drop it, when there are 256 already or memory runs out.
use nexoragenesis_toolchain.Base.{
  ℕ, ◌+◌, ◌-◌, Bool, true, false, ◌||◌, ◌&&◌, List, [], ◌∷◌, ◌++◌, ◌==◌, ◌!=◌, ltb, leb,
  if◌then◌else◌, String,
}
use nexoragenesis_toolchain.Memory.{Mem}
use nexoragenesis_toolchain.Lexer.Text.{
  Place, Scan, advance, digit, done, fails, letter, skip_blanks, skip_name,
}
use nexoragenesis_toolchain.Lexer.Literals.{end_string, scan_integer, scan_string}

-- NtFInput, less its name, with the number of the source.
pub record Input : Type 0 where
  pub text : Mem
  pub length_ : ℕ
  pub source : ℕ

pub record NtFSpan : Type 0 where
  pub source : ℕ
  pub line : ℕ
  pub column : ℕ
  pub start : ℕ
  pub end : ℕ

pub record Token : Type 0 where
  pub kind : ℕ
  pub text : ℕ
  pub length_ : ℕ
  pub value : ℕ
  pub span : NtFSpan

pub record Report : Type 0 where
  pub span : NtFSpan
  pub message : String

-- The members of `Parser` that the lexer uses.
pub record Parser : Type 0 where
  pub cursor : ℕ
  pub line : ℕ
  pub column : ℕ
  pub token : Token
  pub failed : Bool
  pub reports : List Report

abbrev no_token : Token
no_token = record {
  kind = 0;
  text = 0;
  length_ = 0;
  value = 0;
  span = record { source = 0; line = 0; column = 0; start = 0; end = 0 };
}

-- The parser as it is set up for a source.
abbrev pub opened : Parser
opened = record { cursor = 0; line = 1; column = 1; token = no_token; failed = false; reports = [] }

-- TK_EOF and so on.
abbrev pub tk_eof : ℕ
tk_eof = 256

abbrev pub tk_name : ℕ
tk_name = 257

abbrev pub tk_int : ℕ
tk_int = 258

abbrev pub tk_string : ℕ
tk_string = 259

abbrev pub tk_nl : ℕ
tk_nl = 260

-- The kind of a token of two bytes, or 0.
unfoldable pub pair_kind : ℕ → ℕ → ℕ
pair_kind c d =
    if c == b'-' && d == b'>'
    then 261
    else if c == b'=' && d == b'='
    then 262
    else if c == b'!' && d == b'='
    then 263
    else if c == b'<' && d == b'='
    then 264
    else if c == b'>' && d == b'='
    then 265
    else if c == b'<' && d == b'<'
    then 266
    else if c == b'>' && d == b'>'
    then 267
    else if c == b'&' && d == b'&'
    then 268
    else if c == b'|' && d == b'|'
    then 269
    else 0

-- kind, text, length (0 where it is not set yet) and value of a token.
pub record Shape : Type 0 where
  pub kind : ℕ
  pub text : ℕ
  pub length_ : ℕ
  pub value : ℕ

-- Any other byte, at p: the kind of the token of two bytes there, or 0.
unfoldable pub pair_at : Mem → ℕ → Place → ℕ
pair_at s n p =
    let q = advance s p in if ltb q.cursor n then pair_kind (s p.cursor) (s q.cursor) else 0

unfoldable pub behind_mark : Mem → ℕ → Place → Place
behind_mark s n p = if pair_at s n p != 0 then advance s (advance s p) else advance s p

unfoldable pub scan_mark : Mem → ℕ → Place → Scan Shape
scan_mark s n p =
    if ltb (s p.cursor) 32 || ltb 126 (s p.cursor)
    then fails (behind_mark s n p).cursor "invalid source byte" (behind_mark s n p)
    else done
        (record {
          kind = if pair_at s n p != 0 then pair_at s n p else s p.cursor;
          text = p.cursor;
          length_ = 0;
          value = 0;
        })
        (behind_mark s n p)

abbrev pub shaped_integer : ℕ → Scan ℕ → Scan Shape
shaped_integer at (fails to message q) = fails to message q
shaped_integer at (done v q) = done (record { kind = tk_int; text = at; length_ = 0; value = v }) q

-- The text starts behind the quote, and ends before the closing one, which is then passed.
abbrev pub shaped_string : Mem → ℕ → Scan (Unit {0}) → Scan Shape
shaped_string s at (fails to message q) = fails to message q
shaped_string s at (done u q) =
    done (record { kind = tk_string; text = at; length_ = q.cursor - at; value = 0 }) (advance s q)

-- The token that begins at p, below n.
unfoldable pub scan_token : Mem → ℕ → Place → Scan Shape
scan_token s n p =
    let c = s p.cursor in
    if c == b'\n'
    then done (record { kind = tk_nl; text = p.cursor; length_ = 0; value = 0 }) (advance s p)
    else if letter c
    then done (record { kind = tk_name; text = p.cursor; length_ = 0; value = 0 })
        (skip_name n s n (advance s p))
    else if digit c
    then shaped_integer p.cursor (scan_integer s n p)
    else if c == b'"'
    then shaped_string s (p.cursor + 1) (end_string s n (scan_string n s n (advance s p)))
    else scan_mark s n p

abbrev pub place : Parser → Place
place l = record { cursor = l.cursor; line = l.line; column = l.column }

abbrev pub move_to : Parser → Place → Parser
move_to l p = record l { cursor = p.cursor; line = p.line; column = p.column }

abbrev pub span_from : Input → Place → ℕ → NtFSpan
span_from x p to = record {
  source = x.source;
  line = p.line;
  column = p.column;
  start = p.cursor;
  end = to;
}

-- lex_fail(p, span, message)
abbrev pub lex_fail : Parser → NtFSpan → String → Parser
lex_fail l span message = record l {
  failed = true;
  reports = l.reports ++ (record { span = span; message = message } ∷ []);
}

-- The token of `shape` from p to q, whose length is that of the span where none is set.
abbrev pub finish : Input → Place → ℕ → Shape → Token
finish x p to shape = record {
  kind = shape.kind;
  text = shape.text;
  length_ = if shape.length_ == 0 then to - p.cursor else shape.length_;
  value = shape.value;
  span = span_from x p to;
}

abbrev pub eof_at : Input → Place → Token
eof_at x p = record {
  kind = tk_eof;
  text = p.cursor;
  length_ = 0;
  value = 0;
  span = span_from x p p.cursor;
}

unfoldable pub next_token : Input → Parser → Place → Scan Shape → Parser
next_token x l p (fails to message q) = lex_fail (move_to l q) (span_from x p to) message
next_token x l p (done shape q) = record (move_to l q) { token = finish x p q.cursor shape }

-- `next` behind the blanks, at p.
unfoldable pub next_at : Input → Parser → Scan (Unit {0}) → Parser
next_at x l (fails to message p) = lex_fail (move_to l p) (span_from x p to) message
next_at x l (done u p) =
    let l' = record (move_to l p) { token = eof_at x p } in
    if l'.failed || leb x.length_ p.cursor
    then l'
    else next_token x l' p (scan_token x.text x.length_ p)

-- Each loop has as many rounds as the source has bytes, and each round passes a byte.
unfoldable pub next : Input → Parser → Parser
next x l = next_at x l (skip_blanks x.length_ x.text x.length_ (place l))
