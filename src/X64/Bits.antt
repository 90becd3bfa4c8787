-- ===== src/X64/Bits.antt =====
-- The conditions and bit operations of `variable` in bootstrap/quarantine/c/x64.c: setcc, cmovcc, bt,
-- bts, btr, btc, bsf and bsr.
use nexoragenesis_toolchain.Base.{
  ℕ, ◌+◌, ◌*◌, ◌||◌, not, ◌==◌, ◌!=◌, ltb, if◌then◌else◌, none, some, String, List, [], ◌∷◌, get_or,
}
use nexoragenesis_toolchain.X64.{
  NtX64Operand, NtX64Instruction, NtX64Context, Coded, coded, ◌>>=◌, ◌>>◌, x64_width, x64_range,
  x64_form, is_reg, is_imm, is, byte, refuse_if, operand_valid, long_mode, one, two, not_place,
}
use nexoragenesis_toolchain.X64.Modrm.{modrm}

abbrev pub set_names : List String
set_names =
    "sete" ∷ "setne" ∷ "setb" ∷ "setae" ∷ "setbe" ∷ "seta" ∷ "sets" ∷ "setns" ∷ "setp" ∷ "setnp"
    ∷ "setl" ∷ "setge" ∷ "setle" ∷ "setg" ∷ "seto" ∷ "setno" ∷ []

abbrev pub move_if_names : List String
move_if_names =
    "cmove" ∷ "cmovne" ∷ "cmovb" ∷ "cmovae" ∷ "cmovbe" ∷ "cmova" ∷ "cmovs" ∷ "cmovns" ∷ "cmovp"
    ∷ "cmovnp" ∷ "cmovl" ∷ "cmovge" ∷ "cmovle" ∷ "cmovg" ∷ "cmovo" ∷ "cmovno" ∷ []

-- The condition of each of these names, by its index.
abbrev pub conditions : List ℕ
conditions = 4 ∷ 5 ∷ 2 ∷ 3 ∷ 6 ∷ 7 ∷ 8 ∷ 9 ∷ 10 ∷ 11 ∷ 12 ∷ 13 ∷ 14 ∷ 15 ∷ 0 ∷ 1 ∷ []

unfoldable pub set_if :
    ℕ → List NtX64Operand → NtX64Context → NtX64Instruction → Coded NtX64Instruction
set_if cc os ctx x = one os λ a. do
  long_mode ctx
  operand_valid a
  refuse_if (not_place a) x64_form
  refuse_if (a.width != 8) x64_width
  modrm x (0x900f + cc * 256) 2 8 none 0 a

unfoldable pub move_if :
    ℕ → List NtX64Operand → NtX64Context → NtX64Instruction → Coded NtX64Instruction
move_if cc os ctx x = two os λ a b. do
  long_mode ctx
  operand_valid a
  operand_valid b
  refuse_if (not (is_reg a) || not_place b) x64_form
  refuse_if ((a.width == 8) || (a.width != b.width)) x64_width
  modrm x (0x400f + cc * 256) 2 a.width (some a) 0 b

abbrev pub bit_names : List String
bit_names = "bt" ∷ "bts" ∷ "btr" ∷ "btc" ∷ []

abbrev pub reg_opcodes : List ℕ
reg_opcodes = 0xa3 ∷ 0xab ∷ 0xb3 ∷ 0xbb ∷ []

unfoldable pub bit_code :
    ℕ → List NtX64Operand → NtX64Context → NtX64Instruction → Coded NtX64Instruction
bit_code operation os ctx x = two os λ a b. do
  long_mode ctx
  operand_valid a
  operand_valid b
  refuse_if (not_place a || (a.width == 8)) x64_form
  if is_reg b
      then (do
        refuse_if (b.width != a.width) x64_width
        modrm x (0x0f + get_or reg_opcodes operation 0 * 256) 2 a.width (some b) 0 a)
      else (do
        refuse_if (not (is_imm b)) x64_form
        refuse_if (ltb 255 b.imm) x64_range
        y ← modrm x 0xba0f 2 a.width none (4 + operation) a
        coded (byte y b.imm))

-- bsf and bsr.
unfoldable pub bit_scan :
    String → List NtX64Operand → NtX64Context → NtX64Instruction → Coded NtX64Instruction
bit_scan n os ctx x = two os λ a b. do
  long_mode ctx
  operand_valid a
  operand_valid b
  refuse_if (not (is_reg a) || not_place b) x64_form
  refuse_if ((a.width == 8) || (a.width != b.width)) x64_width
  modrm x (if is n "bsf" then 0xbc0f else 0xbd0f) 2 a.width (some a) 0 b
