-- ===== src/X64/Modrm.antt =====
-- `modrm` of bootstrap/quarantine/c/x64.c.
use nexoragenesis_toolchain.Base.{
  ℕ, zero, suc, ◌-◌, ◌*◌, ◌/◌, ◌%◌, Bool, false, ◌||◌, ◌&&◌, not, ◌==◌, ◌!=◌, leb, if◌then◌else◌,
  bit_or, length, Option, none, some,
}
use nexoragenesis_toolchain.Base.Int.{ℤ, pos, negsuc, ltb_ℤ, to_u64}
use nexoragenesis_toolchain.X64.{
  NtX64Operand, NtX64Instruction, Coded, coded, ◌>>=◌, ◌>>◌, x64_form, is_reg, is_mem, regcode,
  regrex, byte, little, prefix, eqb_ℤ, refuse_if,
}

-- `z & 7` on an int.
abbrev low3 : ℤ → ℕ
low3 (pos n) = n % 8
low3 (negsuc n) = 7 - n % 8

-- The rounds of `for (v = scale; v > 1; v >>= 1)`; 32 are enough for an unsigned.
unfoldable pub halvings : ℕ → ℕ → ℕ
halvings zero v = 0
halvings (suc fuel) v = let rest = halvings fuel (v / 2) in if leb v 1 then 0 else suc rest

-- `reg && reg->high8`, `reg && regrex(reg)` and `reg && reg->reg >= 8`
abbrev field_high8 : Option NtX64Operand → Bool
field_high8 none = false
field_high8 (some o) = o.high8 != 0

abbrev field_rex : Option NtX64Operand → Bool
field_rex none = false
field_rex (some o) = regrex o

abbrev field_extended : Option NtX64Operand → Bool
field_extended none = false
field_extended (some o) = leb 8 o.reg

-- `rc`
abbrev field_code : Option NtX64Operand → ℕ → ℕ
field_code none digit = digit
field_code (some o) digit = regcode o

abbrev start_rex : ℕ → Option NtX64Operand → ℕ
start_rex width reg = bit_or (if width == 64 then 8 else 0) (if field_extended reg then 4 else 0)

unfoldable pub modrm_register :
    NtX64Instruction → ℕ → ℕ → ℕ → Option NtX64Operand → ℕ → NtX64Operand → Coded NtX64Instruction
modrm_register x opcode oplen width reg digit rm = do
  let rex =
      bit_or (bit_or (start_rex width reg) (if leb 8 rm.reg then 1 else 0))
        (if regrex rm || field_rex reg then 0x40 else 0)
  y ← prefix x width rex ((rm.high8 != 0) || field_high8 reg) 0
  coded (
      byte (little y opcode oplen)
        (bit_or (bit_or 0xc0 (field_code reg digit % 8 * 8)) (regcode rm % 8)))

-- `mod`, with 0 for a base of -1, and `dispbytes`.
unfoldable pub address_mode : NtX64Operand → ℕ × ℕ
address_mode rm =
    if eqb_ℤ rm.base (negsuc 0)
    then (0, 4)
    else if eqb_ℤ rm.disp (pos 0) && (low3 rm.base != 5)
    then (0, 0)
    else if not (ltb_ℤ rm.disp (negsuc 127)) && not (ltb_ℤ (pos 127) rm.disp)
    then (1, 1)
    else (2, 4)

unfoldable pub has_sib : NtX64Operand → Bool
has_sib rm = not (eqb_ℤ rm.index (negsuc 0)) || eqb_ℤ rm.base (negsuc 0) || (low3 rm.base == 4)

unfoldable pub sib_byte : NtX64Operand → ℕ
sib_byte rm =
    bit_or
      (bit_or (halvings 32 rm.scale * 64)
        ((if eqb_ℤ rm.index (negsuc 0) then 4 else low3 rm.index) * 8))
      (if eqb_ℤ rm.base (negsuc 0) then 5 else low3 rm.base)

-- The displacement, with its place noted.
unfoldable pub put_displacement : NtX64Instruction → ℤ → ℕ → NtX64Instruction
put_displacement x disp dispbytes =
    if dispbytes == 0
    then little x (to_u64 disp) 0
    else little (record x { displacement_offset = length x.bytes; displacement_size = dispbytes })
        (to_u64 disp) dispbytes

-- What follows the opcode.
unfoldable pub put_address : NtX64Instruction → ℕ → NtX64Operand → NtX64Instruction
put_address x rc rm =
    if eqb_ℤ rm.base (negsuc 1)
    then put_displacement (byte x (bit_or (rc % 8 * 8) 5)) rm.disp 4
    else let field = if has_sib rm then 4 else low3 rm.base in
      let y = byte x (bit_or (bit_or ((address_mode rm).0 * 64) (rc % 8 * 8)) field) in
      put_displacement (if has_sib rm then byte y (sib_byte rm) else y) rm.disp (address_mode rm).1

unfoldable pub modrm_memory :
    NtX64Instruction → ℕ → ℕ → ℕ → Option NtX64Operand → ℕ → NtX64Operand → Coded NtX64Instruction
modrm_memory x opcode oplen width reg digit rm = do
  let rex =
      bit_or (bit_or (start_rex width reg) (if not (ltb_ℤ rm.base (pos 8)) then 1 else 0))
        (bit_or (if not (ltb_ℤ rm.index (pos 8)) then 2 else 0) (if field_rex reg then 0x40 else 0))
  y ← prefix x width rex (field_high8 reg) rm.segment
  coded (put_address (little y opcode oplen) (field_code reg digit) rm)

-- `reg` is null where an extension of the opcode, `digit`, takes its place.
unfoldable pub modrm :
    NtX64Instruction → ℕ → ℕ → ℕ → Option NtX64Operand → ℕ → NtX64Operand → Coded NtX64Instruction
unfolding modrm_register modrm_memory
modrm x opcode oplen width reg digit rm = do
  refuse_if (not (is_reg rm) && not (is_mem rm)) x64_form
  if is_reg rm
      then modrm_register x opcode oplen width reg digit rm
      else modrm_memory x opcode oplen width reg digit rm
