-- ===== src/Lexer/Progress.antt =====
-- What a call of `next` of bootstrap/quarantine/c/frontend.c comes to, and calls in a row.
use nexoragenesis_toolchain.Base.{
  ℕ, ◌+◌, ◌≤◌, ◌<◌, ◌≡◌, ◌≢◌, ◌⊎◌, refl, inl, inr, Bool, true, false, ◌||◌, ◌==◌, ◌!=◌, subst, ltb,
  leb, if◌then◌else◌, arith, Bool-cases, String,
}
use nexoragenesis_toolchain.Memory.{Mem}
use nexoragenesis_toolchain.Lexer.Text.{
  Place, advance, Scan, done, fails, skip_blanks, letter, digit,
}
use nexoragenesis_toolchain.Lexer.Literals.{scan_integer, scan_string, end_string}
use nexoragenesis_toolchain.Lexer.Tokens.{
  Input, Parser, scan_mark, behind_mark, scan_token, Shape, shaped_integer, shaped_string, place,
  move_to, eof_at, next_token, next_at, next, tk_eof, pair_at, pair_kind,
}
use nexoragenesis_toolchain.Lexer.Loops.{
  Steps, Steps-le, Steps-bound, stop, advance-cursor, skip_blanks-Steps, skip_name-Steps,
  scan_token-Steps, scan_integer-Steps, scan_string-Steps, behind_mark-Steps,
}
use nexoragenesis_toolchain.Lexer.Places.{IsPlace, Steps-IsPlace}

-- A scan that succeeds passes a byte, and makes no token of the kind of the end.
record Passes (at : ℕ) (m : Scan Shape) : Type 0 where
  passes : (shape : Shape) (q : Place) → m ≡ done shape q → (at < q.cursor) × (shape.kind ≢ tk_eof)

if-Passes :
    (at : ℕ) (b : Bool) (l m : Scan Shape)
    → (b ≡ true → Passes at l)
    → (b ≡ false → Passes at m)
    → Passes at (if b then l else m)
if-Passes at true l m h k = h refl
if-Passes at false l m h k = k refl

done-Passes :
    (at : ℕ) (shape : Shape) (q : Place)
    → at < q.cursor
    → shape.kind ≢ tk_eof
    → Passes at (done shape q)
done-Passes at shape q lt k = record {
  passes = λ shape' q' e.
      let same_shape : shape ≡ shape' = cc in
      let same_place : q ≡ q' = cc in
      (subst (λ r. at < r.cursor) same_place lt, subst (λ t. t.kind ≢ tk_eof) same_shape k);
}

fails-Passes : (at to : ℕ) (message : String) (q : Place) → Passes at (fails to message q)
fails-Passes at to message q = record { passes = λ shape' q' e. absurd (cc) }

module _ (s : Mem) (n : ℕ) where
  integer-Passes :
      (at : ℕ) (m : Scan ℕ) → at < (stop s n m).cursor → Passes at (shaped_integer at m)
  integer-Passes at (fails to message q) h = fails-Passes at to message q
  integer-Passes at (done v q) h = done-Passes at _ q h (omega arith)

  string-Passes :
      (at : ℕ) (m : Scan (Unit {0}))
      → at < (stop s n m).cursor
      → Passes at (shaped_string s (at + 1) (end_string s n m))
  unfolding end_string
  string-Passes at (fails to message q) h = fails-Passes at to message q
  string-Passes at (done u q) h = elim (Bool-cases (leb n q.cursor || s q.cursor != b'"')) [
    | inl e ↦ rw (e, shaped_string) (fails-Passes at _ _ q)
    | inr e ↦
        rw (e, shaped_string) (done-Passes at _ _ (omega (arith, advance-cursor s q)) (omega arith))
  ]

  pair_at-kind : (p : Place) → pair_at s n p ≢ tk_eof
  unfolding pair_at pair_kind
  pair_at-kind p = ground arith

  mark-Passes : (p : Place) → Passes p.cursor (scan_mark s n p)
  unfolding scan_mark
  mark-Passes p =
      let rest = Steps-le s n (behind_mark-Steps s n p) in
      if-Passes p.cursor (ltb (s p.cursor) 32 || ltb 126 (s p.cursor)) _ _
        (λ e. fails-Passes p.cursor _ _ (behind_mark s n p))
        (λ e.
          done-Passes p.cursor _ _ (omega (arith, advance-cursor s p))
            (let pair = pair_at-kind p in ground arith))

  scan_token-Passes : (p : Place) → p.cursor < n → Passes p.cursor (scan_token s n p)
  unfolding scan_token
  scan_token-Passes p lt =
      if-Passes p.cursor (s p.cursor == b'\n') _ _
        (λ e. done-Passes p.cursor _ _ (omega (arith, advance-cursor s p)) (omega arith))
        (λ e1.
          if-Passes p.cursor (letter (s p.cursor)) _ _
            (λ e.
              let rest = Steps-le s n (skip_name-Steps s n n (advance s p)) in
              done-Passes p.cursor _ _ (omega (arith, advance-cursor s p)) (omega arith))
            (λ e2.
              if-Passes p.cursor (digit (s p.cursor)) _ _
                (λ d.
                  let rest = Steps-le s n (scan_integer-Steps s n p lt d) in
                  integer-Passes p.cursor (scan_integer s n p) (omega (arith, advance-cursor s p)))
                (λ e3.
                  if-Passes p.cursor (s p.cursor == b'"') _ _
                    (λ e.
                      let rest = Steps-le s n (scan_string-Steps s n n (advance s p)) in
                      string-Passes p.cursor (scan_string n s n (advance s p))
                        (omega (arith, advance-cursor s p)))
                    (λ e. mark-Passes p))))

-- The token of l' begins at or behind the cursor of l, at the line and the column that its span says,
-- and is what stands from there to the cursor of l', a byte at least.
pub record IsToken (x : Input) (l l' : Parser) : Type 0 where
  pub kind_ne : l'.token.kind ≢ tk_eof
  pub from_cursor : l.cursor ≤ l'.token.span.start
  pub nonempty : l'.token.span.start < l'.token.span.end
  pub to_cursor : l'.token.span.end ≡ l'.cursor
  pub begins : IsPlace x.text (record {
    cursor = l'.token.span.start;
    line = l'.token.span.line;
    column = l'.token.span.column;
  })

-- What a call comes to: a failure, the end of the source, or a token. The cursor goes forward and stays
-- in the source, and the line and the column are those of the cursor.
pub record IsNext (x : Input) (l l' : Parser) : Type 0 where
  pub forward : l.cursor ≤ l'.cursor
  pub in_source : l'.cursor ≤ x.length_
  pub placed : IsPlace x.text (place l')
  pub outcome :
      (l'.failed ≡ true)
      ⊎ (((l'.failed ≡ false) × (l'.token.kind ≡ tk_eof) × (l'.cursor ≡ x.length_))
          ⊎ ((l'.failed ≡ false) × IsToken x l l'))

if-IsNext :
    (x : Input) (l : Parser) (b : Bool) (l1 l2 : Parser)
    → (b ≡ true → IsNext x l l1)
    → (b ≡ false → IsNext x l l2)
    → IsNext x l (if b then l1 else l2)
if-IsNext x l true l1 l2 h k = h refl
if-IsNext x l false l1 l2 h k = k refl

next_token-IsNext :
    (x : Input) (l l' : Parser) (p : Place) (m : Scan Shape)
    → l.cursor ≤ p.cursor
    → p.cursor ≤ x.length_
    → IsPlace x.text p
    → l'.failed ≡ false
    → Steps x.text x.length_ p (stop x.text x.length_ m)
    → Passes p.cursor m
    → IsNext x l (next_token x l' p m)
unfolding next_token
next_token-IsNext x l l' p (fails to message q) before inside at ok h passes =
    let more = Steps-le x.text x.length_ h in
    record {
      forward = omega arith;
      in_source = Steps-bound x.text x.length_ h inside;
      placed = Steps-IsPlace x.text x.length_ h at;
      outcome = inl refl;
    }
next_token-IsNext x l l' p (done shape q) before inside at ok h passes =
    let more = Steps-le x.text x.length_ h in
    let (lt, ne) = passes.passes shape q refl in
    record {
      forward = omega arith;
      in_source = Steps-bound x.text x.length_ h inside;
      placed = Steps-IsPlace x.text x.length_ h at;
      outcome = inr (
          inr (
            ok,
            record {
              kind_ne = ne;
              from_cursor = before;
              nonempty = lt;
              to_cursor = refl;
              begins = at;
            },
          ));
    }

next_at-IsNext :
    (x : Input) (l : Parser) (m : Scan (Unit {0}))
    → l.cursor ≤ x.length_
    → IsPlace x.text (place l)
    → l.failed ≡ false
    → Steps x.text x.length_ (place l) (stop x.text x.length_ m)
    → IsNext x l (next_at x l m)
unfolding next_at
next_at-IsNext x l (fails to message p) inside at ok h = record {
  forward = Steps-le x.text x.length_ h;
  in_source = Steps-bound x.text x.length_ h inside;
  placed = Steps-IsPlace x.text x.length_ h at;
  outcome = inl refl;
}
next_at-IsNext x l (done u p) inside at ok h =
    let bound = Steps-bound x.text x.length_ h inside in
    let placed = Steps-IsPlace x.text x.length_ h at in
    let behind = Steps-le x.text x.length_ h in
    let l' : Parser = record (move_to l p) { token = eof_at x p } in
    if-IsNext x l (l.failed || leb x.length_ p.cursor) l' _
      (λ e. record {
        forward = behind;
        in_source = bound;
        placed = placed;
        outcome = inr (inl (ok, refl, ground arith));
      })
      (λ e.
        let lt : p.cursor < x.length_ = ground arith in
        next_token-IsNext x l l' p _ behind bound placed ok (scan_token-Steps x.text x.length_ p lt)
          (scan_token-Passes x.text x.length_ p lt))

-- A call of `next` on a parser that has not failed, whose cursor lies in the source and whose line and
-- column are those of the cursor, moves the cursor forward in the source and keeps line and column
-- right; and it fails, or reaches the end of the source, or makes a token of the bytes from where its
-- span says, at the line and column there, up to the new cursor, a byte at least.
pub next-IsNext :
    (x : Input) (l : Parser)
    → l.cursor ≤ x.length_
    → IsPlace x.text (place l)
    → l.failed ≡ false
    → IsNext x l (next x l)
unfolding next
next-IsNext x l inside at ok =
    next_at-IsNext x l (skip_blanks x.length_ x.text x.length_ (place l)) inside at ok
      (skip_blanks-Steps x.text x.length_ x.length_ (place l))
