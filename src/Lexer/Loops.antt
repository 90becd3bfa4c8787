-- ===== src/Lexer/Loops.antt =====
-- The loops of the lexer of bootstrap/quarantine/c/frontend.c as sequences of `advance`.
use nexoragenesis_toolchain.Base.{
  ℕ, zero, suc, ◌+◌, ◌*◌, ◌≤◌, ◌<◌, ◌≡◌, refl, inl, inr, Bool, true, false, ◌||◌, ◌&&◌, not, ◌==◌,
  ◌!=◌, ltb, leb, if◌then◌else◌, arith, Bool-cases,
}
use nexoragenesis_toolchain.Memory.{Mem}
use nexoragenesis_toolchain.Lexer.Text.{
  Place, advance, Scan, done, fails, Blank, space, carriage, isolated, comment, other, blank_at,
  skip_line, skip_blanks, skip_name, letter, digit, xdigit,
}
use nexoragenesis_toolchain.Lexer.Literals.{
  base_digit, base_value, Digit, ends, bad_underscore, underscore, exceeds, more, digit_at,
  scan_digits, end_integer, scan_integer, hex_prefix, StringByte, closed, bad_byte, cut, bad_hex,
  hex, bad_escape, escape, plain, string_at, advance_by, scan_string, end_string,
}
use nexoragenesis_toolchain.Lexer.Tokens.{
  scan_mark, scan_token, pair_at, behind_mark, shaped_integer, shaped_string,
}

-- From p to q by bytes of the source.
pub data Steps (s : Mem) (n : ℕ) : Place → Place → Type 0 where
  stay : {p : Place} → Steps s n p p
  step : {p q : Place} → p.cursor < n → Steps s n (advance s p) q → Steps s n p q

pub advance-cursor : (s : Mem) (p : Place) → (advance s p).cursor ≡ p.cursor + 1
unfolding advance
advance-cursor s p = elim (Bool-cases (s p.cursor == b'\n')) [
  | inl e ↦ rw e refl
  | inr e ↦ rw e refl
]

module _ (s : Mem) (n : ℕ) where
  pub Steps-trans : {p q r : Place} → Steps s n p q → Steps s n q r → Steps s n p r
  Steps-trans stay k = k
  Steps-trans (step lt h) k = step lt (Steps-trans h k)

  pub one_step : (p : Place) → p.cursor < n → Steps s n p (advance s p)
  one_step p h = step h stay

  pub Steps-le : {p q : Place} → Steps s n p q → p.cursor ≤ q.cursor
  Steps-le stay = omega arith
  Steps-le (step {p} lt h) = let rest = Steps-le h in omega (arith, advance-cursor s p)

  pub Steps-bound : {p q : Place} → Steps s n p q → p.cursor ≤ n → q.cursor ≤ n
  Steps-bound stay le = le
  Steps-bound (step {p} lt h) le = Steps-bound h (omega (arith, advance-cursor s p))

  -- Where a scan stops.
  abbrev pub stop {ℓ} : {A : Type ℓ} → Scan A → Place
  stop (done a q) = q
  stop (fails to message q) = q

  pub skip_line-Steps : (left : ℕ) (p : Place) → Steps s n p (skip_line left s n p)
  unfolding skip_line
  skip_line-Steps zero p = stay
  skip_line-Steps (suc left) p = elim (Bool-cases (ltb p.cursor n && s p.cursor != b'\n')) [
    | inl e ↦ rw (e, skip_line) (step (ground arith) (skip_line-Steps left (advance s p)))
    | inr e ↦ rw (e, skip_line) stay
  ]

  pub skip_name-Steps : (left : ℕ) (p : Place) → Steps s n p (skip_name left s n p)
  unfolding skip_name
  skip_name-Steps zero p = stay
  skip_name-Steps (suc left) p =
      elim (Bool-cases (ltb p.cursor n && (letter (s p.cursor) || digit (s p.cursor)))) [
        | inl e ↦ rw (e, skip_name) (step (ground arith) (skip_name-Steps left (advance s p)))
        | inr e ↦ rw (e, skip_name) stay
      ]

  by_blank :
      (left : ℕ) (p : Place) (again : (q : Place) → Steps s n q (stop (skip_blanks left s n q)))
      (b : Blank)
      → blank_at s n p.cursor ≡ b
      → Steps s n p (stop (skip_blanks (suc left) s n p))
  unfolding skip_blanks blank_at
  by_blank left p again space e = rw (e, skip_blanks) (step (ground arith) (again (advance s p)))
  by_blank left p again carriage e = rw (e, skip_blanks) (step (ground arith) (again (advance s p)))
  by_blank left p again isolated e = rw (e, skip_blanks) stay
  by_blank left p again comment e =
      rw (e, skip_blanks) (Steps-trans (skip_line-Steps n p) (again (skip_line n s n p)))
  by_blank left p again other e = rw (e, skip_blanks) stay

  pub skip_blanks-Steps : (left : ℕ) (p : Place) → Steps s n p (stop (skip_blanks left s n p))
  unfolding skip_blanks
  skip_blanks-Steps zero p = stay
  skip_blanks-Steps (suc left) p =
      by_blank left p (skip_blanks-Steps left) (blank_at s n p.cursor) refl

  by_digit :
      (left base : ℕ) (previous : Bool) (value : ℕ) (p : Place)
      (again : (b : Bool) (v : ℕ) (q : Place)
        → Steps s n q (stop (scan_digits left s n base b v q)))
      (d : Digit)
      → digit_at s n base previous value p.cursor ≡ d
      → Steps s n p (stop (scan_digits (suc left) s n base previous value p))
  unfolding scan_digits digit_at
  by_digit left base previous value p again ends e = rw (e, scan_digits) stay
  by_digit left base previous value p again bad_underscore e = rw (e, scan_digits) stay
  by_digit left base previous value p again underscore e =
      rw (e, scan_digits) (step (ground arith) (again false value (advance s p)))
  by_digit left base previous value p again exceeds e = rw (e, scan_digits) stay
  by_digit left base previous value p again more e =
      rw (e, scan_digits)
        (step (ground arith)
          (again true (value * base + base_value base (s p.cursor)) (advance s p)))

  scan_digits-Steps :
      (left base : ℕ) (previous : Bool) (value : ℕ) (p : Place)
      → Steps s n p (stop (scan_digits left s n base previous value p))
  unfolding scan_digits
  scan_digits-Steps zero base previous value p = stay
  scan_digits-Steps (suc left) base previous value p =
      by_digit left base previous value p (scan_digits-Steps left base)
        (digit_at s n base previous value p.cursor) refl

  end_integer-Steps :
      (m : Scan ℕ) (p : Place) → Steps s n p (stop m) → Steps s n p (stop (end_integer s n m))
  unfolding end_integer
  end_integer-Steps (fails to message q) p h = h
  end_integer-Steps (done value q) p h = elim (Bool-cases (ltb q.cursor n && letter (s q.cursor))) [
    | inl e ↦ rw e (Steps-trans h (skip_name-Steps n q))
    | inr e ↦ rw e h
  ]

  if-Steps {ℓ} :
      {A : Type ℓ} (b : Bool) (l m : Scan A) (p : Place)
      → (b ≡ true → Steps s n p (stop l))
      → (b ≡ false → Steps s n p (stop m))
      → Steps s n p (stop (if b then l else m))
  if-Steps true l m p h k = h refl
  if-Steps false l m p h k = k refl

  -- The first digit is passed.
  first_digit :
      (p : Place)
      → p.cursor < n
      → digit (s p.cursor) ≡ true
      → digit_at s n 10 false 0 p.cursor ≡ more
  unfolding digit_at base_digit digit
  first_digit p lt d = ground arith

  decimal-Steps :
      (left : ℕ) (p : Place)
      → 0 < left
      → p.cursor < n
      → digit (s p.cursor) ≡ true
      → Steps s n (advance s p) (stop (scan_digits left s n 10 false 0 p))
  unfolding scan_digits
  decimal-Steps zero p some lt d = absurd (omega arith)
  decimal-Steps (suc left) p some lt d =
      rw (first_digit p lt d, scan_digits) (scan_digits-Steps left 10 true _ (advance s p))

  pub scan_integer-Steps :
      (p : Place)
      → p.cursor < n
      → digit (s p.cursor) ≡ true
      → Steps s n (advance s p) (stop (scan_integer s n p))
  unfolding scan_integer hex_prefix
  scan_integer-Steps p lt d =
      let q = advance s (advance s p) in
      if-Steps (hex_prefix s n p.cursor) _ _ (advance s p)
        (λ hexadecimal.
          let next_lt : (advance s p).cursor < n = ground (arith, advance-cursor s p) in
          let second : Steps s n (advance s p) q = one_step (advance s p) next_lt in
          if-Steps (leb n q.cursor || not (xdigit (s q.cursor)))
            (fails q.cursor "hex literal requires digits" q) _ (advance s p) (λ e. second)
            (λ e.
              end_integer-Steps _ (advance s p)
                (Steps-trans second (scan_digits-Steps n 16 false 0 q))))
        (λ decimal. end_integer-Steps _ (advance s p) (decimal-Steps n p (omega arith) lt d))

  advance_by-Steps : (k : ℕ) (p : Place) → p.cursor + k ≤ n → Steps s n p (advance_by k s p)
  unfolding advance_by
  advance_by-Steps zero p h = stay
  advance_by-Steps (suc k) p h =
      step (omega arith) (advance_by-Steps k (advance s p) (omega (arith, advance-cursor s p)))

  by_byte :
      (left : ℕ) (p : Place) (again : (q : Place) → Steps s n q (stop (scan_string left s n q)))
      (b : StringByte)
      → string_at s n p.cursor ≡ b
      → Steps s n p (stop (scan_string (suc left) s n p))
  unfolding scan_string string_at
  by_byte left p again closed e = rw (e, scan_string) stay
  by_byte left p again bad_byte e = rw (e, scan_string) stay
  by_byte left p again cut e = rw (e, scan_string) (one_step p (ground arith))
  by_byte left p again bad_hex e = rw (e, scan_string) (advance_by-Steps 2 p (ground arith))
  by_byte left p again hex e =
      rw (e, scan_string)
        (Steps-trans (advance_by-Steps 4 p (ground arith)) (again (advance_by 4 s p)))
  by_byte left p again bad_escape e = rw (e, scan_string) (one_step p (ground arith))
  by_byte left p again escape e =
      rw (e, scan_string)
        (Steps-trans (advance_by-Steps 2 p (ground arith)) (again (advance_by 2 s p)))
  by_byte left p again plain e = rw (e, scan_string) (step (ground arith) (again (advance s p)))

  pub scan_string-Steps : (left : ℕ) (p : Place) → Steps s n p (stop (scan_string left s n p))
  unfolding scan_string
  scan_string-Steps zero p = stay
  scan_string-Steps (suc left) p =
      by_byte left p (scan_string-Steps left) (string_at s n p.cursor) refl

  end_string-Steps :
      (m : Scan (Unit {0})) (p : Place)
      → Steps s n p (stop m)
      → Steps s n p (stop (end_string s n m))
  unfolding end_string
  end_string-Steps (fails to message q) p h = h
  end_string-Steps (done u q) p h =
      if-Steps (leb n q.cursor || s q.cursor != b'"') _ _ p (λ e. h) (λ e. h)

  pub behind_mark-Steps : (p : Place) → Steps s n (advance s p) (behind_mark s n p)
  unfolding behind_mark pair_at
  behind_mark-Steps p = elim (Bool-cases (pair_at s n p != 0)) [
    | inl e ↦ rw (e, behind_mark) (one_step (advance s p) (ground arith))
    | inr e ↦ rw (e, behind_mark) stay
  ]

  scan_mark-Steps : (p : Place) → p.cursor < n → Steps s n p (stop (scan_mark s n p))
  unfolding scan_mark
  scan_mark-Steps p lt =
      if-Steps (ltb (s p.cursor) 32 || ltb 126 (s p.cursor)) _ _ p
        (λ e. step lt (behind_mark-Steps p)) (λ e. step lt (behind_mark-Steps p))

  shaped_integer-Steps :
      (at : ℕ) (m : Scan ℕ) (p : Place)
      → Steps s n p (stop m)
      → Steps s n p (stop (shaped_integer at m))
  shaped_integer-Steps at (fails to message q) p h = h
  shaped_integer-Steps at (done v q) p h = h

  -- A string that ends has its closing quote in the source.
  shaped_string-Steps :
      (at : ℕ) (m : Scan (Unit {0})) (p : Place)
      → Steps s n p (stop m)
      → Steps s n p (stop (shaped_string s at (end_string s n m)))
  unfolding end_string
  shaped_string-Steps at (fails to message q) p h = h
  shaped_string-Steps at (done u q) p h = elim (Bool-cases (leb n q.cursor || s q.cursor != b'"')) [
    | inl e ↦ rw (e, shaped_string) h
    | inr e ↦ rw (e, shaped_string) (Steps-trans h (one_step q (ground arith)))
  ]

  pub scan_token-Steps : (p : Place) → p.cursor < n → Steps s n p (stop (scan_token s n p))
  unfolding scan_token
  scan_token-Steps p lt =
      let first = one_step p lt in
      if-Steps (s p.cursor == b'\n') _ _ p (λ e. first)
        (λ e1.
          if-Steps (letter (s p.cursor)) _ _ p (λ e. step lt (skip_name-Steps n (advance s p)))
            (λ e2.
              if-Steps (digit (s p.cursor)) _ _ p
                (λ d.
                  shaped_integer-Steps p.cursor (scan_integer s n p) p
                    (step lt (scan_integer-Steps p lt d)))
                (λ e3.
                  if-Steps (s p.cursor == b'"') _ _ p
                    (λ e.
                      shaped_string-Steps (p.cursor + 1) (scan_string n s n (advance s p)) p
                        (step lt (scan_string-Steps n (advance s p))))
                    (λ e. scan_mark-Steps p lt))))
