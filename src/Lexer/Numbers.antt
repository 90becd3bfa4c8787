-- ===== src/Lexer/Numbers.antt =====
-- The integers of `next` in bootstrap/quarantine/c/frontend.c and the numbers that they spell.
use nexoragenesis_toolchain.Base.{
  ℕ, zero, suc, ◌+◌, ◌-◌, ◌*◌, ◌/◌, ◌^◌, ◌≤◌, ◌<◌, ◌≡◌, ◌≢◌, ◌⊎◌, refl, inl, inr, Bool, true, false,
  ◌||◌, ◌&&◌, not, List, ◌∷◌, ltb, leb, subst, sym, ◌∙◌, ap, arith, Bool-cases, String, some, none,
}
use nexoragenesis_toolchain.Memory.{Mem, load}
use nexoragenesis_toolchain.Lexer.Text.{
  Place, advance, Scan, done, fails, letter, digit, xdigit, xvalue,
}
use nexoragenesis_toolchain.Lexer.Literals.{
  base_digit, base_value, Digit, ends, bad_underscore, underscore, exceeds, more, digit_at,
  scan_digits, end_integer, scan_integer, hex_prefix,
}
use nexoragenesis_toolchain.Lexer.Digits.{
  digit_value, number, base_digit-value, no_digit-value, underscore-number, digit-number, HexPrefix,
  hex_prefix-HexPrefix, no_prefix-HexPrefix, xdigit-value, IsLetter, letter-IsLetter,
}
use nexoragenesis_toolchain.Lexer.Loops.{advance-cursor}

-- A loop over digits from p that succeeds: what it returns is the number that they spell behind a
-- value, below 2 ^ 64, and no digit follows.
pub record IsNumber (s : Mem) (n base value : ℕ) (p : Place) (w : ℕ) (q : Place) : Type 0 where
  pub count : ℕ
  pub reaches : q.cursor ≡ p.cursor + count
  pub spelled : number base (load s p.cursor count) value ≡ some w
  pub fits : w < 2 ^ 64
  pub stops : (n ≤ q.cursor) ⊎ ((digit_value base (s q.cursor) ≡ none) × (s q.cursor ≢ b'_'))

pub record Counts (s : Mem) (n base value : ℕ) (p : Place) (m : Scan ℕ) : Type 0 where
  pub counts : (w : ℕ) (q : Place) → m ≡ done w q → IsNumber s n base value p w q

module _ (s : Mem) (n : ℕ) where
  fails-Counts :
      (base value : ℕ) (p : Place) (to : ℕ) (message : String) (q : Place)
      → Counts s n base value p (fails to message q)
  fails-Counts base value p to message q = record { counts = λ w r e. absurd (cc) }

  stops-Counts :
      (base value : ℕ) (p : Place)
      → value < 2 ^ 64
      → (n ≤ p.cursor) ⊎ ((digit_value base (s p.cursor) ≡ none) × (s p.cursor ≢ b'_'))
      → Counts s n base value p (done value p)
  unfolding number load
  stops-Counts base value p lt h = record {
    counts = λ w q e.
        let same_value : value ≡ w = cc in
        let same_place : p ≡ q = cc in
        subst (λ r. IsNumber s n base value p w r) same_place
          (subst (λ v. IsNumber s n base value p v p) same_value
            (record { count = 0; reaches = omega arith; spelled = refl; fits = lt; stops = h }));
  }

  next-Counts :
      (base value value' : ℕ) (p : Place) (m : Scan ℕ)
      → ((cs : List ℕ) → number base (s p.cursor ∷ cs) value ≡ number base cs value')
      → Counts s n base value' (advance s p) m
      → Counts s n base value p m
  unfolding number load
  next-Counts base value value' p m e h = record {
    counts = λ w q e'.
        let k = h.counts w q e' in
        let there = advance-cursor s p in
        let reaches = k.reaches in
        record {
          count = suc k.count;
          reaches = omega arith;
          spelled =
              e (load s (p.cursor + 1) k.count)
              ∙ ap (λ at. number base (load s at k.count) value') (sym there)
              ∙ k.spelled;
          fits = k.fits;
          stops = k.stops;
        };
  }

base_value-small : (base c : ℕ) → base_digit base c ≡ true → base_value base c < 16
unfolding base_digit base_value xdigit xvalue digit
base_value-small base c h = ground arith

hex-fits : (d v : ℕ) → d < 16 → ltb ((2 ^ 64 - 1 - d) / 16) v ≡ false → v * 16 + d < 2 ^ 64
hex-fits d v small h = ground arith

decimal-fits : (d v : ℕ) → d < 16 → ltb ((2 ^ 64 - 1 - d) / 10) v ≡ false → v * 10 + d < 2 ^ 64
decimal-fits d v small h = ground arith

more-fits :
    (base c value : ℕ)
    → (base ≡ 16) ⊎ (base ≡ 10)
    → base_digit base c ≡ true
    → ltb ((2 ^ 64 - 1 - base_value base c) / base) value ≡ false
    → value * base + base_value base c < 2 ^ 64
more-fits base c value (inl e) d h =
    subst (λ b. value * b + base_value base c < 2 ^ 64) (sym e)
      (hex-fits (base_value base c) value (base_value-small base c d)
        (subst (λ b. ltb ((2 ^ 64 - 1 - base_value base c) / b) value ≡ false) e h))
more-fits base c value (inr e) d h =
    subst (λ b. value * b + base_value base c < 2 ^ 64) (sym e)
      (decimal-fits (base_value base c) value (base_value-small base c d)
        (subst (λ b. ltb ((2 ^ 64 - 1 - base_value base c) / b) value ≡ false) e h))

-- What the loop finds at a digit.
digit_at-more :
    (s : Mem) (n base : ℕ) (previous : Bool) (value at : ℕ)
    → digit_at s n base previous value at ≡ more
    → (at < n)
      × (s at ≢ b'_')
      × (base_digit base (s at) ≡ true)
      × (ltb ((2 ^ 64 - 1 - base_value base (s at)) / base) value ≡ false)
unfolding digit_at
digit_at-more s n base previous value at h = ground arith

digit_at-underscore :
    (s : Mem) (n base : ℕ) (previous : Bool) (value at : ℕ)
    → digit_at s n base previous value at ≡ underscore
    → (at < n) × (s at ≡ b'_')
unfolding digit_at
digit_at-underscore s n base previous value at h = ground arith

digit_at-ends :
    (s : Mem) (n base : ℕ) (previous : Bool) (value at : ℕ)
    → digit_at s n base previous value at ≡ ends
    → (n ≤ at) ⊎ ((base_digit base (s at) ≡ false) × (s at ≢ b'_'))
unfolding digit_at
digit_at-ends s n base previous value at h = ground arith

module _ (s : Mem) (n base : ℕ) (is_base : (base ≡ 16) ⊎ (base ≡ 10)) where
  by_digit :
      (left : ℕ) (previous : Bool) (value : ℕ) (p : Place)
      (again : (b : Bool) (v : ℕ) (q : Place)
        → v < 2 ^ 64
        → n - q.cursor ≤ left
        → Counts s n base v q (scan_digits left s n base b v q))
      (d : Digit)
      → digit_at s n base previous value p.cursor ≡ d
      → value < 2 ^ 64
      → n - p.cursor ≤ suc left
      → Counts s n base value p (scan_digits (suc left) s n base previous value p)
  unfolding scan_digits
  by_digit left previous value p again ends e lt enough =
      rw (e, scan_digits)
        (stops-Counts s n base value p lt (elim (digit_at-ends s n base previous value p.cursor e) [
          | inl behind ↦ inl behind
          | inr (none_here, other) ↦ inr (no_digit-value base (s p.cursor) is_base none_here, other)
        ]))
  by_digit left previous value p again bad_underscore e lt enough =
      rw (e, scan_digits) (fails-Counts s n base value p _ _ p)
  by_digit left previous value p again underscore e lt enough =
      let (inside, is_underscore) = digit_at-underscore s n base previous value p.cursor e in
      let there = advance-cursor s p in
      rw (e, scan_digits)
        (next-Counts s n base value value p _
          (λ cs. rw is_underscore (underscore-number base value cs))
          (again false value (advance s p) lt (omega arith)))
  by_digit left previous value p again exceeds e lt enough =
      rw (e, scan_digits) (fails-Counts s n base value p _ _ p)
  by_digit left previous value p again more e lt enough =
      let (inside, no_underscore, is_digit, room) =
        digit_at-more s n base previous value p.cursor e in
      let there = advance-cursor s p in
      rw (e, scan_digits)
        (next-Counts s n base value _ p _
          (λ cs.
            digit-number base (s p.cursor) value _ cs
              (base_digit-value base (s p.cursor) is_base is_digit))
          (again true (value * base + base_value base (s p.cursor)) (advance s p)
            (more-fits base (s p.cursor) value is_base is_digit room) (omega arith)))

  pub scan_digits-Counts :
      (left : ℕ) (previous : Bool) (value : ℕ) (p : Place)
      → value < 2 ^ 64
      → n - p.cursor ≤ left
      → Counts s n base value p (scan_digits left s n base previous value p)
  unfolding scan_digits
  scan_digits-Counts zero previous value p lt enough =
      stops-Counts s n base value p lt (inl (omega arith))
  scan_digits-Counts (suc left) previous value p lt enough =
      by_digit left previous value p (scan_digits-Counts left)
        (digit_at s n base previous value p.cursor) refl lt enough

-- A literal from p that succeeds: the base that its prefix says, the place of its first digit, and the
-- number of its digits; no letter or digit follows it.
pub record IsInteger (s : Mem) (n : ℕ) (p : Place) (w : ℕ) (q : Place) : Type 0 where
  pub base : ℕ
  pub first : Place
  pub prefix :
      (HexPrefix s n p.cursor
        × (base ≡ 16)
        × (first.cursor ≡ p.cursor + 2)
        × (digit_value 16 (s (p.cursor + 2)) ≢ none))
      ⊎ ((¬ HexPrefix s n p.cursor) × (base ≡ 10) × (first.cursor ≡ p.cursor))
  pub digits : IsNumber s n base 0 first w q
  pub alone : (n ≤ q.cursor) ⊎ (¬ IsLetter (s q.cursor))

module _ (s : Mem) (n : ℕ) where
  end_integer-done :
      (m : Scan ℕ) (w : ℕ) (q : Place)
      → end_integer s n m ≡ done w q
      → (m ≡ done w q) × ((n ≤ q.cursor) ⊎ (letter (s q.cursor) ≡ false))
  unfolding end_integer
  end_integer-done (fails to message r) w q h = absurd (cc)
  end_integer-done (done v r) w q h = elim (Bool-cases (ltb r.cursor n && letter (s r.cursor))) [
    | inl e ↦ absurd (cc)
    | inr e ↦
        let same : done v r ≡ done w q = cc in
        let same_place : r ≡ q = cc in
        (
          same,
          subst (λ at. (n ≤ at.cursor) ⊎ (letter (s at.cursor) ≡ false)) same_place (ground arith),
        )
  ]

  -- Digits in a base from a place, and what may follow them.
  integer-alone :
      (base : ℕ) (first : Place) (previous : Bool) (w : ℕ) (q : Place)
      → (base ≡ 16) ⊎ (base ≡ 10)
      → end_integer s n (scan_digits n s n base previous 0 first) ≡ done w q
      → IsNumber s n base 0 first w q × ((n ≤ q.cursor) ⊎ (¬ IsLetter (s q.cursor)))
  integer-alone base first previous w q is_base h =
      let (e, alone) = end_integer-done (scan_digits n s n base previous 0 first) w q h in
      let all =
        scan_digits-Counts s n base is_base n previous 0 first (omega arith) (omega arith) in
      (
        all.counts w q e,
        elim alone [
          | inl behind ↦ inl behind
          | inr no_letter ↦ inr (letter-IsLetter (s q.cursor) no_letter)
        ],
      )

  hex-IsInteger :
      (p q : Place) (w : ℕ)
      → hex_prefix s n p.cursor ≡ true
      → scan_integer s n p ≡ done w q
      → IsInteger s n p w q
  unfolding scan_integer
  hex-IsInteger p q w is_hex h =
      let first = advance s (advance s p) in
      let there : first.cursor ≡ p.cursor + 2 =
        omega (arith, advance-cursor s p, advance-cursor s (advance s p)) in
      elim (Bool-cases (leb n first.cursor || not (xdigit (s first.cursor)))) [
        | inl e ↦ absurd (cc)
        | inr e ↦
            let (digits, alone) = integer-alone 16 first false w q (inl refl) cc in
            record {
              base = 16;
              first = first;
              prefix = inl (
                hex_prefix-HexPrefix s n p.cursor is_hex,
                refl,
                there,
                xdigit-value (s (p.cursor + 2))
                    (subst (λ at. xdigit (s at) ≡ true) there (ground arith)),
              );
              digits = digits;
              alone = alone;
            }
      ]

  -- A literal that `next` takes has base 16, and digits from behind its prefix on, the first of them a
  -- hexadecimal one, if it begins with `0x` or `0X`; otherwise base 10, and digits from where it begins.
  -- Its value is the number that these spell by the table of digits, `_` apart, and is below 2 ^ 64; and
  -- no digit of its base, letter or `_` follows it in the source.
  pub scan_integer-IsInteger :
      (p q : Place) (w : ℕ) → scan_integer s n p ≡ done w q → IsInteger s n p w q
  unfolding scan_integer
  scan_integer-IsInteger p q w h = elim (Bool-cases (hex_prefix s n p.cursor)) [
    | inl is_hex ↦ hex-IsInteger p q w is_hex h
    | inr not_hex ↦
        let (digits, alone) = integer-alone 10 p false w q (inr refl) cc in
        record {
          base = 10;
          first = p;
          prefix = inr (no_prefix-HexPrefix s n p.cursor not_hex, refl, refl);
          digits = digits;
          alone = alone;
        }
  ]
