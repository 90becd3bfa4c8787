-- ===== src/Lexer/Places.antt =====
-- Lines and columns of the lexer of bootstrap/quarantine/c/frontend.c.
use nexoragenesis_toolchain.Base.{
  ℕ, zero, suc, ◌+◌, ◌%◌, ◌^◌, ◌≡◌, refl, inl, inr, ◌==◌, if◌then◌else◌, arith, Bool-cases,
}
use nexoragenesis_toolchain.Memory.{Mem}
use nexoragenesis_toolchain.Lexer.Text.{Place, advance}
use nexoragenesis_toolchain.Lexer.Loops.{Steps, stay, step}

-- How many of the first k bytes end a line.
unfoldable pub lines_before : Mem → ℕ → ℕ
lines_before s zero = 0
lines_before s (suc k) = lines_before s k + (if s k == b'\n' then 1 else 0)

-- How many bytes of the first k stand behind the last that ends a line.
unfoldable pub bytes_behind : Mem → ℕ → ℕ
bytes_behind s zero = 0
bytes_behind s (suc k) = let before = bytes_behind s k in if s k == b'\n' then 0 else before + 1

-- The line and the column of an offset, counted from 1, as 32-bit numbers.
pub record IsPlace (s : Mem) (p : Place) : Type 0 where
  pub on_line : p.line ≡ (1 + lines_before s p.cursor) % 2 ^ 32
  pub in_column : p.column ≡ (1 + bytes_behind s p.cursor) % 2 ^ 32

lines_before_next :
    (s : Mem) (k : ℕ) → lines_before s (k + 1) ≡ lines_before s k + (if s k == b'\n' then 1 else 0)
unfolding lines_before
lines_before_next s k = let up : k + 1 ≡ suc k = omega arith in rw up refl

bytes_behind_next :
    (s : Mem) (k : ℕ) → bytes_behind s (k + 1) ≡ (if s k == b'\n' then 0 else bytes_behind s k + 1)
unfolding bytes_behind
bytes_behind_next s k = let up : k + 1 ≡ suc k = omega arith in rw up refl

advance-IsPlace : (s : Mem) (p : Place) → IsPlace s p → IsPlace s (advance s p)
unfolding advance
advance-IsPlace s p h =
    let lines = lines_before_next s p.cursor in
    let behind = bytes_behind_next s p.cursor in
    let line = h.on_line in
    let column = h.in_column in
    elim (Bool-cases (s p.cursor == b'\n')) [
      | inl e ↦ rw e (record { on_line = ground arith; in_column = ground arith })
      | inr e ↦ rw e (record { on_line = ground arith; in_column = ground arith })
    ]

pub Steps-IsPlace : (s : Mem) (n : ℕ) {p q : Place} → Steps s n p q → IsPlace s p → IsPlace s q
Steps-IsPlace s n stay h = h
Steps-IsPlace s n (step {p} lt k) h = Steps-IsPlace s n k (advance-IsPlace s p h)
