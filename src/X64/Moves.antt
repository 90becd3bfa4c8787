-- ===== src/X64/Moves.antt =====
-- The moves of `variable` in bootstrap/quarantine/c/x64.c: mov, load, store, lea, push, pop, xchg and
-- the extending moves.
use nexoragenesis_toolchain.Base.{
  ◌+◌, ◌/◌, ◌%◌, Bool, true, false, ◌||◌, ◌&&◌, not, ◌==◌, ◌!=◌, leb, if◌then◌else◌, bit_or, none,
  some, String, List,
}
use nexoragenesis_toolchain.X64.{
  NtX64Operand, NtX64Instruction, NtX64Context, Coded, coded, refused, ◌>>=◌, ◌>>◌, x64_width,
  x64_range, x64_form, is_reg, is_mem, is_imm, is, scalar_width, regcode, regrex, byte, little,
  fits, prefix, refuse_if, operand_valid, long_mode, one, two, not_place,
}
use nexoragenesis_toolchain.X64.Modrm.{modrm}

unfoldable pub move_to_memory :
    NtX64Instruction → NtX64Operand → NtX64Operand → Coded NtX64Instruction
move_to_memory x a b = do
  let w = a.width
  refuse_if (not (scalar_width w)) x64_width
  if is_reg b
      then (do
        refuse_if (w != b.width) x64_width
        modrm x (if w == 8 then 0x88 else 0x89) 1 w (some b) 0 a)
      else (do
        refuse_if (not (is_imm b)) x64_form
        refuse_if (not (fits b (if w == 64 then 32 else w) (w == 64))) x64_range
        y ← modrm x (if w == 8 then 0xc6 else 0xc7) 1 w none 0 a
        coded (little y b.imm (if w == 64 then 4 else w / 8)))

unfoldable pub move_immediate :
    NtX64Instruction → NtX64Operand → NtX64Operand → Coded NtX64Instruction
move_immediate x a b = do
  let w = a.width
  let rex =
      bit_or (bit_or (if w == 64 then 8 else 0) (if leb 8 a.reg then 1 else 0))
        (if regrex a then 0x40 else 0)
  refuse_if (not (fits b w false)) x64_range
  y ← prefix x w rex (a.high8 != 0) 0
  coded (little (byte y ((if w == 8 then 0xb0 else 0xb8) + regcode a % 8)) b.imm (w / 8))

unfoldable pub move_to_register :
    NtX64Instruction → NtX64Operand → NtX64Operand → Coded NtX64Instruction
move_to_register x a b =
    if is_mem b
    then (do
      refuse_if (a.width != b.width) x64_width
      modrm x (if a.width == 8 then 0x8a else 0x8b) 1 a.width (some a) 0 b)
    else if is_reg b
    then (do
      refuse_if (a.width != b.width) x64_width
      modrm x (if a.width == 8 then 0x88 else 0x89) 1 a.width (some b) 0 a)
    else if is_imm b
    then move_immediate x a b
    else refused x64_form

unfoldable pub lea : NtX64Instruction → NtX64Operand → NtX64Operand → Coded NtX64Instruction
lea x a b = do
  refuse_if (not (is_reg a) || not (is_mem b)) x64_form
  refuse_if (a.width != 64) x64_width
  modrm x 0x8d 1 64 (some a) 0 b

-- mov, load, store and lea.
unfoldable pub move :
    String → List NtX64Operand → NtX64Context → NtX64Instruction → Coded NtX64Instruction
move n os ctx x = two os λ a b. do
  long_mode ctx
  operand_valid a
  operand_valid b
  refuse_if (is n "load" && (not (is_reg a) || not (is_mem b))) x64_form
  refuse_if (is n "store" && not (is_mem a)) x64_form
  if is n "lea"
      then lea x a b
      else if is_mem a
      then move_to_memory x a b
      else if is_reg a
      then move_to_register x a b
      else refused x64_form

unfoldable pub push_immediate : NtX64Instruction → NtX64Operand → Coded NtX64Instruction
push_immediate x a =
    if fits a 8 true
    then coded (byte (byte x 0x6a) a.imm)
    else (do refuse_if (not (fits a 32 true)) x64_range; coded (little (byte x 0x68) a.imm 4))

unfoldable pub push_register : Bool → NtX64Instruction → NtX64Operand → Coded NtX64Instruction
push_register pushing x a = do
  refuse_if ((a.width != 64) || (a.high8 != 0)) x64_width
  coded
      (byte (if leb 8 a.reg then byte x 0x41 else x) ((if pushing then 0x50 else 0x58) + a.reg % 8))

-- push and pop.
unfoldable pub push_pop :
    String → List NtX64Operand → NtX64Context → NtX64Instruction → Coded NtX64Instruction
push_pop n os ctx x = one os λ a. do
  long_mode ctx
  operand_valid a
  if is_reg a
      then push_register (is n "push") x a
      else if is_mem a
      then (do
        refuse_if (a.width != 64) x64_width
        modrm x (if is n "push" then 0xff else 0x8f) 1 32 none (if is n "push" then 6 else 0) a)
      else if is n "push" && is_imm a
      then push_immediate x a
      else refused x64_form

unfoldable pub exchange :
    String → List NtX64Operand → NtX64Context → NtX64Instruction → Coded NtX64Instruction
exchange n os ctx x = two os λ a b. do
  long_mode ctx
  operand_valid a
  operand_valid b
  refuse_if (not (is_reg a) || not_place b) x64_form
  refuse_if (a.width != b.width) x64_width
  if is_reg b
      then modrm x (if a.width == 8 then 0x86 else 0x87) 1 a.width (some b) 0 a
      else modrm x (if a.width == 8 then 0x86 else 0x87) 1 a.width (some a) 0 b

-- movzx, movsx and movsxd.
unfoldable pub extend :
    String → List NtX64Operand → NtX64Context → NtX64Instruction → Coded NtX64Instruction
extend n os ctx x = two os λ a b. do
  long_mode ctx
  operand_valid a
  operand_valid b
  refuse_if (not (is_reg a) || not_place b) x64_form
  let source_width = b.width
  let dest_width = a.width
  if is n "movsxd"
      then (do
        refuse_if ((source_width != 32) || (dest_width != 64)) x64_width
        modrm x 0x63 1 64 (some a) 0 b)
      else (do
        refuse_if
            (((source_width != 8) && (source_width != 16))
              || leb dest_width source_width
              || ((dest_width != 16) && (dest_width != 32) && (dest_width != 64)))
            x64_width
        let opcode =
            if is n "movzx"
            then (if source_width == 8 then 0xb60f else 0xb70f)
            else if source_width == 8
            then 0xbe0f
            else 0xbf0f
        modrm x opcode 2 dest_width (some a) 0 b)
