-- ===== src/X64/Control.antt =====
-- The transfers of control of `variable` in bootstrap/quarantine/c/x64.c: call, jmp and the
-- conditional jumps.
use nexoragenesis_toolchain.Base.{
  ℕ, ◌+◌, true, not, ◌!=◌, if◌then◌else◌, none, String, List, [], ◌∷◌,
}
use nexoragenesis_toolchain.X64.{
  NtX64Operand, NtX64Instruction, NtX64Context, Coded, coded, ◌>>◌, x64_width, x64_range, x64_form,
  is_rel, is, byte, little, fits, refuse_if, operand_valid, long_mode, one, not_place,
}
use nexoragenesis_toolchain.X64.Modrm.{modrm}

-- call and jmp.
unfoldable pub transfer :
    String → List NtX64Operand → NtX64Context → NtX64Instruction → Coded NtX64Instruction
transfer n os ctx x = one os λ a. do
  long_mode ctx
  operand_valid a
  if is_rel a
      then (do
        refuse_if (not (fits a 32 true)) x64_range
        coded (little (byte x (if is n "call" then 0xe8 else 0xe9)) a.imm 4))
      else (do
        refuse_if (not_place a) x64_form
        refuse_if (a.width != 64) x64_width
        modrm x 0xff 1 32 none (if is n "call" then 2 else 4) a)

abbrev pub jump_names : List String
jump_names =
    "jo" ∷ "jno" ∷ "jb" ∷ "jae" ∷ "je" ∷ "jne" ∷ "jbe" ∷ "ja" ∷ "js" ∷ "jns" ∷ "jp" ∷ "jnp" ∷ "jl"
    ∷ "jge" ∷ "jle" ∷ "jg" ∷ []

unfoldable pub jump_if :
    ℕ → List NtX64Operand → NtX64Context → NtX64Instruction → Coded NtX64Instruction
jump_if condition os ctx x = one os λ a. do
  long_mode ctx
  operand_valid a
  refuse_if (not (is_rel a)) x64_form
  refuse_if (not (fits a 32 true)) x64_range
  coded (little (byte (byte x 0x0f) (0x80 + condition)) a.imm 4)
