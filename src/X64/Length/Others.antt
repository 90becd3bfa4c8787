-- ===== src/X64/Length/Others.antt =====
-- The length of the other instructions of bootstrap/quarantine/c/x64.c.
use nexoragenesis_toolchain.Base.{ℕ, Bool, if◌then◌else◌, String, List}
use nexoragenesis_toolchain.X64.{NtX64Operand, NtX64Instruction, NtX64Context, byte}
use nexoragenesis_toolchain.X64.Length.{Fits, Within, byte_if-Fits, within_rules}
use nexoragenesis_toolchain.X64.Control.{transfer, jump_if}
use nexoragenesis_toolchain.X64.Bits.{set_if, move_if, bit_code, bit_scan}
use nexoragenesis_toolchain.X64.System.{
  control_register, descriptor_table, ltr, invlpg, port_code, port,
}

port_code-Within :
    (input : Bool) (acc port : NtX64Operand) (x : NtX64Instruction)
    → Fits 1 x
    → Within 15 (port_code input acc port x)
unfolding port_code
port_code-Within input acc port x h = search within_rules depth 16 fits 3000

override-Fits :
    (b : Bool) (x : NtX64Instruction) (v : ℕ) → Fits 0 x → Fits 1 (if b then byte x v else x)
override-Fits b x v h = byte_if-Fits b x v 0 h

pub port-Within :
    (n : String) (os : List NtX64Operand) (ctx : NtX64Context) (x : NtX64Instruction)
    → Fits 0 x
    → Within 15 (port n os ctx x)
unfolding port
port-Within n os ctx x h = search (within_rules, port_code-Within, override-Fits) depth 16 fits 3000

pub transfer-Within :
    (n : String) (os : List NtX64Operand) (ctx : NtX64Context) (x : NtX64Instruction)
    → Fits 0 x
    → Within 15 (transfer n os ctx x)
unfolding transfer
transfer-Within n os ctx x h = search within_rules depth 16 fits 3000

pub jump_if-Within :
    (k : ℕ) (os : List NtX64Operand) (ctx : NtX64Context) (x : NtX64Instruction)
    → Fits 0 x
    → Within 15 (jump_if k os ctx x)
unfolding jump_if
jump_if-Within k os ctx x h = search within_rules depth 16 fits 3000

pub set_if-Within :
    (k : ℕ) (os : List NtX64Operand) (ctx : NtX64Context) (x : NtX64Instruction)
    → Fits 0 x
    → Within 15 (set_if k os ctx x)
unfolding set_if
set_if-Within k os ctx x h = search within_rules depth 16 fits 3000

pub move_if-Within :
    (k : ℕ) (os : List NtX64Operand) (ctx : NtX64Context) (x : NtX64Instruction)
    → Fits 0 x
    → Within 15 (move_if k os ctx x)
unfolding move_if
move_if-Within k os ctx x h = search within_rules depth 16 fits 3000

pub bit_code-Within :
    (k : ℕ) (os : List NtX64Operand) (ctx : NtX64Context) (x : NtX64Instruction)
    → Fits 0 x
    → Within 15 (bit_code k os ctx x)
unfolding bit_code
bit_code-Within k os ctx x h = search within_rules depth 16 fits 3000

pub bit_scan-Within :
    (n : String) (os : List NtX64Operand) (ctx : NtX64Context) (x : NtX64Instruction)
    → Fits 0 x
    → Within 15 (bit_scan n os ctx x)
unfolding bit_scan
bit_scan-Within n os ctx x h = search within_rules depth 16 fits 3000

pub control_register-Within :
    (n : String) (os : List NtX64Operand) (ctx : NtX64Context) (x : NtX64Instruction)
    → Fits 0 x
    → Within 15 (control_register n os ctx x)
unfolding control_register
control_register-Within n os ctx x h = search within_rules depth 16 fits 3000

pub descriptor_table-Within :
    (k : ℕ) (os : List NtX64Operand) (ctx : NtX64Context) (x : NtX64Instruction)
    → Fits 0 x
    → Within 15 (descriptor_table k os ctx x)
unfolding descriptor_table
descriptor_table-Within k os ctx x h = search within_rules depth 16 fits 3000

pub ltr-Within :
    (os : List NtX64Operand) (ctx : NtX64Context) (x : NtX64Instruction)
    → Fits 0 x
    → Within 15 (ltr os ctx x)
unfolding ltr
ltr-Within os ctx x h = search within_rules depth 16 fits 3000

pub invlpg-Within :
    (os : List NtX64Operand) (ctx : NtX64Context) (x : NtX64Instruction)
    → Fits 0 x
    → Within 15 (invlpg os ctx x)
unfolding invlpg
invlpg-Within os ctx x h = search within_rules depth 16 fits 3000
