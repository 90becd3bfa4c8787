-- ===== src/X64/Arithmetic.antt =====
-- The arithmetic of `variable` in bootstrap/quarantine/c/x64.c: the eight two-operand operations, test,
-- inc, dec, not, neg, the shifts, imul, mul, div, idiv and bswap.
use nexoragenesis_toolchain.Base.{
  ℕ, ◌+◌, ◌*◌, ◌%◌, Bool, true, false, ◌||◌, ◌&&◌, not, ◌==◌, ◌!=◌, ltb, leb, if◌then◌else◌, bit_or,
  none, some, String, List, [], ◌∷◌,
}
use nexoragenesis_toolchain.X64.{
  NtX64Operand, NtX64Instruction, NtX64Context, Coded, coded, refused, ◌>>=◌, ◌>>◌, x64_count,
  x64_width, x64_register, x64_range, x64_form, is_reg, is_mem, is_imm, is, scalar_width, byte,
  little, fits, prefix, refuse_if, operand_valid, long_mode, one, two, not_place,
}
use nexoragenesis_toolchain.X64.Modrm.{modrm}

abbrev pub group_names : List String
group_names = "add" ∷ "or" ∷ "adc" ∷ "sbb" ∷ "and" ∷ "sub" ∷ "xor" ∷ "cmp" ∷ []

-- `(w == 64 && !fits(o, 32, 1))`, then `(w < 64 && !fits(o, w, 0))`.
unfoldable pub bad_immediate : NtX64Operand → ℕ → Bool
bad_immediate o w = ((w == 64) && not (fits o 32 true)) || (ltb w 64 && not (fits o w false))

-- The bytes of an immediate: 1, 2 or 4.
abbrev immediate_size : ℕ → ℕ
immediate_size w = if w == 8 then 1 else if w == 16 then 2 else 4

unfoldable pub group_immediate :
    ℕ → NtX64Instruction → NtX64Operand → NtX64Operand → Coded NtX64Instruction
group_immediate group x a b = do
  let w = a.width
  refuse_if (not (is_imm b)) x64_form
  refuse_if (bad_immediate b w) x64_range
  if is_reg a && (a.reg == 0) && (a.high8 == 0) && ((w == 8) || not (fits b 8 true))
      then (do
        y ← prefix x w (if w == 64 then 8 else 0) false 0
        coded (little (byte y (group * 8 + (if w == 8 then 4 else 5))) b.imm (immediate_size w)))
      else (do
        y ← modrm x (if w == 8 then 0x80 else if fits b 8 true then 0x83 else 0x81) 1 w none group a
        coded (little y b.imm (if fits b 8 true || (w == 8) then 1 else if w == 16 then 2 else 4)))

-- add, or, adc, sbb, and, sub, xor and cmp, by their index.
unfoldable pub group_code :
    ℕ → List NtX64Operand → NtX64Context → NtX64Instruction → Coded NtX64Instruction
group_code group os ctx x = two os λ a b. do
  long_mode ctx
  operand_valid a
  operand_valid b
  refuse_if (not_place a) x64_form
  let w = a.width
  refuse_if (not (scalar_width w)) x64_width
  if is_reg b
      then (do
        refuse_if (b.width != w) x64_width
        modrm x (group * 8 + (if w == 8 then 0 else 1)) 1 w (some b) 0 a)
      else if is_mem b
      then (do
        refuse_if (not (is_reg a)) x64_form
        refuse_if (b.width != w) x64_width
        modrm x (group * 8 + (if w == 8 then 2 else 3)) 1 w (some a) 0 b)
      else group_immediate group x a b

-- The test of a signed immediate against a width of 0, which a memory operand has that is an address,
-- shifts by UINT_MAX; C does not say what it gives, so `answer` is whether the immediate then fits.
unfoldable pub test_immediate :
    Bool → NtX64Instruction → NtX64Operand → NtX64Operand → Coded NtX64Instruction
test_immediate answer x a b = do
  let w = a.width
  refuse_if (not (is_imm b)) x64_form
  refuse_if (if (w == 0) && (b.is_signed != 0) then not answer else bad_immediate b w) x64_range
  y ←
      (if is_reg a && (a.reg == 0) && (a.high8 == 0)
        then (do
          z ← prefix x w (if w == 64 then 8 else 0) false 0
          coded (byte z (if w == 8 then 0xa8 else 0xa9)))
        else modrm x (if w == 8 then 0xf6 else 0xf7) 1 w none 0 a)
  coded (little y b.imm (immediate_size w))

unfoldable pub test_code :
    Bool → List NtX64Operand → NtX64Context → NtX64Instruction → Coded NtX64Instruction
test_code answer os ctx x = two os λ a b. do
  long_mode ctx
  operand_valid a
  operand_valid b
  refuse_if (not_place a) x64_form
  if is_reg b
      then (do
        refuse_if (b.width != a.width) x64_width
        modrm x (if a.width == 8 then 0x84 else 0x85) 1 a.width (some b) 0 a)
      else test_immediate answer x a b

-- inc, dec, not and neg.
unfoldable pub unary :
    String → List NtX64Operand → NtX64Context → NtX64Instruction → Coded NtX64Instruction
unary n os ctx x = one os λ a. do
  long_mode ctx
  operand_valid a
  refuse_if (not_place a) x64_form
  let digit = if is n "inc" then 0 else if is n "dec" then 1 else if is n "not" then 2 else 3
  let opcode =
      if ltb digit 2
      then (if a.width == 8 then 0xfe else 0xff)
      else if a.width == 8
      then 0xf6
      else 0xf7
  modrm x opcode 1 a.width none digit a

unfoldable pub shift_digit : String → ℕ
shift_digit n =
    if is n "rol"
    then 0
    else if is n "ror"
    then 1
    else if is n "shl"
    then 4
    else if is n "shr"
    then 5
    else 7

-- shl, shr, sar, rol and ror.
unfoldable pub shift :
    String → List NtX64Operand → NtX64Context → NtX64Instruction → Coded NtX64Instruction
shift n os ctx x = two os λ a b. do
  long_mode ctx
  operand_valid a
  operand_valid b
  refuse_if (not_place a) x64_form
  let w = a.width
  if is_reg b
      then (do
        refuse_if ((b.reg != 1) || (b.width != 8) || (b.high8 != 0)) x64_register
        modrm x (if w == 8 then 0xd2 else 0xd3) 1 w none (shift_digit n) a)
      else (do
        refuse_if (not (is_imm b)) x64_form
        refuse_if (ltb 255 b.imm) x64_range
        if b.imm == 1
            then modrm x (if w == 8 then 0xd0 else 0xd1) 1 w none (shift_digit n) a
            else (do
              y ← modrm x (if w == 8 then 0xc0 else 0xc1) 1 w none (shift_digit n) a
              coded (byte y b.imm)))

-- imul with its first two operands, and the third if there is one.
unfoldable pub multiply_signed :
    NtX64Operand → NtX64Operand → List NtX64Operand → NtX64Instruction → Coded NtX64Instruction
multiply_signed a b third x = do
  refuse_if (not (is_reg a) || not_place b) x64_form
  refuse_if ((a.width == 8) || (a.width != b.width)) x64_width
  elim third [
    | [] ↦ modrm x 0xaf0f 2 a.width (some a) 0 b
    | c ∷ rest ↦ (do
      refuse_if (not (is_imm c)) x64_form
      refuse_if (not (fits c 32 true)) x64_range
      y ← modrm x (if fits c 8 true then 0x6b else 0x69) 1 a.width (some a) 0 b
      coded (little y c.imm (if fits c 8 true then 1 else 4)))
  ]

unfoldable pub imul : List NtX64Operand → NtX64Context → NtX64Instruction → Coded NtX64Instruction
imul (a ∷ b ∷ []) ctx x = do
  long_mode ctx
  operand_valid a
  operand_valid b
  multiply_signed a b [] x
imul (a ∷ b ∷ c ∷ []) ctx x = do
  long_mode ctx
  operand_valid a
  operand_valid b
  operand_valid c
  multiply_signed a b (c ∷ []) x
imul os ctx x = refused x64_count

-- mul, div and idiv.
unfoldable pub multiply :
    String → List NtX64Operand → NtX64Context → NtX64Instruction → Coded NtX64Instruction
multiply n os ctx x = one os λ a. do
  long_mode ctx
  operand_valid a
  refuse_if (not_place a) x64_form
  modrm x (if a.width == 8 then 0xf6 else 0xf7) 1 a.width none
      (if is n "mul" then 4 else if is n "div" then 6 else 7) a

unfoldable pub bswap : List NtX64Operand → NtX64Context → NtX64Instruction → Coded NtX64Instruction
bswap os ctx x = one os λ a. do
  long_mode ctx
  operand_valid a
  refuse_if (not (is_reg a)) x64_form
  refuse_if ((a.width != 32) && (a.width != 64)) x64_width
  y ←
      prefix x a.width (bit_or (if a.width == 64 then 8 else 0) (if leb 8 a.reg then 1 else 0))
        false 0
  coded (byte (byte y 0x0f) (0xc8 + a.reg % 8))
