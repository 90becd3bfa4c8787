-- ===== src/Lexer/Fuel.antt =====
-- Rounds of the loops of the lexer of bootstrap/quarantine/c/frontend.c.
use nexoragenesis_toolchain.Base.{
  ℕ, zero, suc, ◌+◌, ◌-◌, ◌≤◌, ◌<◌, ◌≡◌, refl, inl, inr, Bool, true, false, ◌||◌, ◌&&◌, ◌==◌, ◌!=◌,
  ltb, leb, arith, Bool-cases,
}
use nexoragenesis_toolchain.Memory.{Mem}
use nexoragenesis_toolchain.Lexer.Text.{
  Place, advance, Scan, done, fails, Blank, space, carriage, isolated, comment, other, blank_at,
  skip_line, skip_blanks, skip_name, letter, digit,
}
use nexoragenesis_toolchain.Lexer.Literals.{
  StringByte, closed, bad_byte, cut, bad_hex, hex, bad_escape, escape, plain, string_at, advance_by,
  scan_string,
}
use nexoragenesis_toolchain.Lexer.Loops.{Steps-le, advance-cursor, skip_line-Steps}

module _ (s : Mem) (n : ℕ) where
  pub skip_name_ends :
      (left : ℕ) (p : Place)
      → n - p.cursor ≤ left
      → (ltb (skip_name left s n p).cursor n
          && (letter (s (skip_name left s n p).cursor) || digit (s (skip_name left s n p).cursor)))
        ≡ false
  unfolding skip_name
  skip_name_ends zero p enough = ground arith
  skip_name_ends (suc left) p enough =
      elim (Bool-cases (ltb p.cursor n && (letter (s p.cursor) || digit (s p.cursor)))) [
        | inl e ↦
            let there = advance-cursor s p in
            rw (e, skip_name) (skip_name_ends left (advance s p) (ground arith))
        | inr e ↦ rw (e, skip_name) e
      ]

  pub skip_line_ends :
      (left : ℕ) (p : Place)
      → n - p.cursor ≤ left
      → (ltb (skip_line left s n p).cursor n && s (skip_line left s n p).cursor != b'\n') ≡ false
  unfolding skip_line
  skip_line_ends zero p enough = ground arith
  skip_line_ends (suc left) p enough = elim (Bool-cases (ltb p.cursor n && s p.cursor != b'\n')) [
    | inl e ↦
        let there = advance-cursor s p in
        rw (e, skip_line) (skip_line_ends left (advance s p) (ground arith))
    | inr e ↦ rw (e, skip_line) e
  ]

  -- A comment is a byte at least.
  skip_line_passes :
      (left : ℕ) (p : Place)
      → 0 < left
      → (ltb p.cursor n && s p.cursor != b'\n') ≡ true
      → p.cursor < (skip_line left s n p).cursor
  unfolding skip_line
  skip_line_passes zero p some e = absurd (omega arith)
  skip_line_passes (suc left) p some e =
      let there = advance-cursor s p in
      let rest = Steps-le s n (skip_line-Steps s n left (advance s p)) in
      rw (e, skip_line) (omega arith)

  -- A loop fails, or a test holds where it stops.
  abbrev pub ends_by : (ℕ → Bool) → Scan (Unit {0}) → Bool
  ends_by test (fails to message q) = true
  ends_by test (done u q) = test q.cursor

  abbrev Ends : (ℕ → Bool) → Scan (Unit {0}) → Type 0
  Ends test m = ends_by test m ≡ true

  done-Ends : (test : ℕ → Bool) (q : Place) → test q.cursor ≡ true → Ends test (done tt q)
  done-Ends test q h = h

  -- Neither blank nor comment is there.
  unfoldable pub is_other : ℕ → Bool
  is_other at = elim (blank_at s n at) [
    | space ↦ false
    | carriage ↦ false
    | isolated ↦ false
    | comment ↦ false
    | other ↦ true
  ]

  by_blank :
      (left : ℕ) (p : Place)
      (again : (q : Place) → n - q.cursor ≤ left → Ends is_other (skip_blanks left s n q))
      (b : Blank)
      → blank_at s n p.cursor ≡ b
      → n - p.cursor ≤ suc left
      → Ends is_other (skip_blanks (suc left) s n p)
  unfolding skip_blanks blank_at is_other
  by_blank left p again space e enough =
      let there = advance-cursor s p in rw (e, skip_blanks) (again (advance s p) (ground arith))
  by_blank left p again carriage e enough =
      let there = advance-cursor s p in rw (e, skip_blanks) (again (advance s p) (ground arith))
  by_blank left p again isolated e enough = rw (e, skip_blanks) refl
  by_blank left p again comment e enough =
      let inside : (ltb p.cursor n && s p.cursor != b'\n') ≡ true = ground arith in
      let passes = skip_line_passes n p (ground arith) inside in
      rw (e, skip_blanks) (again (skip_line n s n p) (omega arith))
  by_blank left p again other e enough =
      rw (e, skip_blanks) (done-Ends is_other p (rw (e, is_other) refl))

  skip_blanks-Ends :
      (left : ℕ) (p : Place) → n - p.cursor ≤ left → Ends is_other (skip_blanks left s n p)
  unfolding skip_blanks is_other blank_at
  skip_blanks-Ends zero p enough =
      done-Ends is_other p
        (let e : leb n p.cursor ≡ true = ground arith in rw (e, is_other, blank_at) refl)
  skip_blanks-Ends (suc left) p enough =
      by_blank left p (skip_blanks-Ends left) (blank_at s n p.cursor) refl enough

  advance_by-cursor : (k : ℕ) (p : Place) → (advance_by k s p).cursor ≡ p.cursor + k
  unfolding advance_by
  advance_by-cursor zero p = omega arith
  advance_by-cursor (suc k) p = omega (arith, advance-cursor s p, advance_by-cursor k (advance s p))

  -- The source ends or a quote stands there.
  unfoldable pub is_close : ℕ → Bool
  is_close at = leb n at || s at == b'"'

  by_byte :
      (left : ℕ) (p : Place)
      (again : (q : Place) → n - q.cursor ≤ left → Ends is_close (scan_string left s n q))
      (b : StringByte)
      → string_at s n p.cursor ≡ b
      → n - p.cursor ≤ suc left
      → Ends is_close (scan_string (suc left) s n p)
  unfolding scan_string string_at is_close
  by_byte left p again closed e enough = rw (e, scan_string) (done-Ends is_close p (ground arith))
  by_byte left p again bad_byte e enough = rw (e, scan_string) refl
  by_byte left p again cut e enough =
      let there = advance-cursor s p in
      rw (e, scan_string) (done-Ends is_close (advance s p) (ground arith))
  by_byte left p again bad_hex e enough = rw (e, scan_string) refl
  by_byte left p again hex e enough =
      let there = advance_by-cursor 4 p in
      rw (e, scan_string) (again (advance_by 4 s p) (omega arith))
  by_byte left p again bad_escape e enough = rw (e, scan_string) refl
  by_byte left p again escape e enough =
      let there = advance_by-cursor 2 p in
      rw (e, scan_string) (again (advance_by 2 s p) (omega arith))
  by_byte left p again plain e enough =
      let there = advance-cursor s p in rw (e, scan_string) (again (advance s p) (omega arith))

  scan_string-Ends :
      (left : ℕ) (p : Place) → n - p.cursor ≤ left → Ends is_close (scan_string left s n p)
  unfolding scan_string is_close
  scan_string-Ends zero p enough = done-Ends is_close p (ground arith)
  scan_string-Ends (suc left) p enough =
      by_byte left p (scan_string-Ends left) (string_at s n p.cursor) refl enough

  -- The loops of `next`, from any place of the source: the loop over blanks and comments fails or stops
  -- where none is, that over letters and digits stops where none is, and that over the bytes of a string
  -- fails or stops at a quote or at the end of the source. None of them is stopped by its rounds.
  pub loops_end :
      (p : Place)
      → (ends_by is_other (skip_blanks n s n p) ≡ true)
        × ((ltb (skip_name n s n p).cursor n
              && (letter (s (skip_name n s n p).cursor) || digit (s (skip_name n s n p).cursor)))
            ≡ false)
        × (ends_by is_close (scan_string n s n p) ≡ true)
  loops_end p = (
    skip_blanks-Ends n p (omega arith),
    skip_name_ends n p (omega arith),
    scan_string-Ends n p (omega arith),
  )
