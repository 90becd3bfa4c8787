-- ===== src/Examples/Instructions.antt =====
-- Instructions at concrete operands, and the theorems at them.
use nexoragenesis_toolchain.Base.{[], ◌∷◌, some, true, arith}
use nexoragenesis_toolchain.Base.Int.{pos}
use nexoragenesis_toolchain.Object.{at}
use nexoragenesis_toolchain.X64.{NtX64Operand, NtX64Context, x64_imm, x64_mem, x64_reg}
use nexoragenesis_toolchain.X64.Encode.{encode}
use nexoragenesis_toolchain.X64.Effects.Consistent.{Consistent, effects-Consistent}
use nexoragenesis_toolchain.X64.Effects.{effects}
use nexoragenesis_toolchain.X64.Effects.Accepted.{Agree, effects-Agree}
use nexoragenesis_toolchain.X64.Length.{Within}
use nexoragenesis_toolchain.X64.Length.Encoded.{encode-Within}

-- dword [rax + 4 * rcx + 64], and ebx.
abbrev place : NtX64Operand
place = record {
  kind = x64_mem;
  width = 32;
  reg = 0;
  high8 = 0;
  imm = 0;
  is_signed = 0;
  base = pos 0;
  index = pos 1;
  scale = 4;
  disp = pos 64;
  segment = 0;
}

abbrev ebx : NtX64Operand
ebx = record place { kind = x64_reg; reg = 3 }

abbrev user_mode : NtX64Context
user_mode = record { features = 1; cpl = 3 }

encode-Within_example : Within 15 (encode true (some "add") (at (place ∷ ebx ∷ [])) user_mode true)
encode-Within_example = encode-Within true (some "add") (at (place ∷ ebx ∷ [])) user_mode true

abbrev three : NtX64Operand
three = record place { kind = x64_imm; width = 8; imm = 3 }

effects-Agree_example :
    Agree
      (encode true (some "rol") (at (place ∷ three ∷ [])) user_mode true)
      (effects true (some "rol") (at (place ∷ three ∷ [])) user_mode true)
effects-Agree_example =
    effects-Agree true (some "rol") (at (place ∷ three ∷ [])) user_mode (λ r i. ground arith)

effects-Consistent_example :
    Consistent (effects true (some "add") (at (place ∷ ebx ∷ [])) user_mode true)
effects-Consistent_example =
    effects-Consistent true (some "add") (at (place ∷ ebx ∷ [])) user_mode true
