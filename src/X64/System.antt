-- ===== src/X64/System.antt =====
-- The system instructions of `variable` in bootstrap/quarantine/c/x64.c: read_cr, write_cr, the
-- descriptor tables, ltr, invlpg, in and out.
use nexoragenesis_toolchain.Base.{
  ℕ, ◌*◌, ◌%◌, Bool, ◌||◌, ◌&&◌, not, ◌==◌, ◌!=◌, ltb, leb, if◌then◌else◌, bit_or, none, String,
  List, [], ◌∷◌,
}
use nexoragenesis_toolchain.X64.{
  NtX64Operand, NtX64Instruction, NtX64Context, Coded, coded, ◌>>◌, x64_width, x64_privilege,
  x64_register, x64_range, x64_form, is_reg, is_mem, is_imm, is_cr, is, byte, refuse_if,
  operand_valid, long_mode, one, two, not_place,
}
use nexoragenesis_toolchain.X64.Modrm.{modrm}

-- read_cr and write_cr.
unfoldable pub control_register :
    String → List NtX64Operand → NtX64Context → NtX64Instruction → Coded NtX64Instruction
control_register n os ctx x = two os λ a b. do
  long_mode ctx
  refuse_if (ctx.cpl != 0) x64_privilege
  operand_valid a
  operand_valid b
  let gpr = if is n "read_cr" then a else b
  let control = if is n "read_cr" then b else a
  refuse_if (not (is_reg gpr) || not (is_cr control)) x64_form
  let rex = bit_or (if leb 8 gpr.reg then 1 else 0) (if control.reg == 8 then 4 else 0)
  let y = if rex != 0 then byte x (bit_or 0x40 rex) else x
  let z = byte (byte y 0x0f) (if is n "read_cr" then 0x20 else 0x22)
  coded (byte z (bit_or (bit_or 0xc0 (control.reg % 8 * 8)) (gpr.reg % 8)))

abbrev pub descriptor_names : List String
descriptor_names = "sgdt" ∷ "sidt" ∷ "lgdt" ∷ "lidt" ∷ []

unfoldable pub descriptor_table :
    ℕ → List NtX64Operand → NtX64Context → NtX64Instruction → Coded NtX64Instruction
descriptor_table digit os ctx x = one os λ a. do
  long_mode ctx
  refuse_if ((ctx.cpl != 0) && leb 2 digit) x64_privilege
  operand_valid a
  refuse_if (not (is_mem a)) x64_form
  refuse_if (a.width != 80) x64_width
  modrm x 0x010f 2 32 none digit a

unfoldable pub ltr : List NtX64Operand → NtX64Context → NtX64Instruction → Coded NtX64Instruction
ltr os ctx x = one os λ a. do
  long_mode ctx
  refuse_if (ctx.cpl != 0) x64_privilege
  operand_valid a
  refuse_if (not_place a) x64_form
  refuse_if (a.width != 16) x64_width
  modrm x 0x000f 2 32 none 3 a

unfoldable pub invlpg : List NtX64Operand → NtX64Context → NtX64Instruction → Coded NtX64Instruction
invlpg os ctx x = one os λ a. do
  long_mode ctx
  refuse_if (ctx.cpl != 0) x64_privilege
  operand_valid a
  refuse_if (not (is_mem a)) x64_form
  refuse_if (a.width != 0) x64_width
  modrm x 0x010f 2 32 none 7 a

-- From the port's operand on.
unfoldable pub port_code :
    Bool → NtX64Operand → NtX64Operand → NtX64Instruction → Coded NtX64Instruction
port_code input acc port x =
    if is_imm port
    then (do
      refuse_if (ltb 255 port.imm) x64_range
      let opcode =
          if input
          then (if acc.width == 8 then 0xe4 else 0xe5)
          else if acc.width == 8
          then 0xe6
          else 0xe7
      coded (byte (byte x opcode) port.imm))
    else (do
      refuse_if (not (is_reg port) || (port.reg != 2) || (port.width != 16) || (port.high8 != 0))
          x64_register
      let opcode =
          if input
          then (if acc.width == 8 then 0xec else 0xed)
          else if acc.width == 8
          then 0xee
          else 0xef
      coded (byte x opcode))

-- in and out.
unfoldable pub port :
    String → List NtX64Operand → NtX64Context → NtX64Instruction → Coded NtX64Instruction
port n os ctx x = two os λ a b. do
  long_mode ctx
  refuse_if (ctx.cpl != 0) x64_privilege
  operand_valid a
  operand_valid b
  let acc = if is n "in" then a else b
  refuse_if
      (not (is_reg acc)
        || (acc.reg != 0)
        || (acc.high8 != 0)
        || ((acc.width != 8) && (acc.width != 16) && (acc.width != 32)))
      x64_register
  port_code (is n "in") acc (if is n "in" then b else a)
      (if acc.width == 16 then byte x 0x66 else x)
