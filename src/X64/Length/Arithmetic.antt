-- ===== src/X64/Length/Arithmetic.antt =====
-- The length of the arithmetic instructions of bootstrap/quarantine/c/x64.c.
use nexoragenesis_toolchain.Base.{
  Bool, ℕ, true, false, ◌||◌, ◌&&◌, ◌==◌, arith, none, String, List, [], ◌∷◌,
}
use nexoragenesis_toolchain.X64.{NtX64Operand, NtX64Instruction, NtX64Context, fits, is_reg}
use nexoragenesis_toolchain.X64.Length.{
  Fits, Within, within, refusal, byte-Fits, Fits-mono, Within->>=, Within->>, Within-if,
  prefix-Within, within_rules, address-little, modrm-Within, immediate_size-le, compact_size-le,
}
use nexoragenesis_toolchain.X64.Arithmetic.{
  group_immediate, group_code, test_immediate, test_code, unary, shift, multiply_signed, imul,
  multiply, bswap,
}

group_immediate-Within :
    (k : ℕ) (x : NtX64Instruction) (a : NtX64Operand) (b : NtX64Operand)
    → Fits 0 x
    → Within 15 (group_immediate k x a b)
unfolding group_immediate
group_immediate-Within k x a b h =
    search (within_rules, compact_size-le (fits b 8 true || (a.width == 8)) a.width) depth 16 fits
      3000

pub group_code-Within :
    (k : ℕ) (os : List NtX64Operand) (ctx : NtX64Context) (x : NtX64Instruction)
    → Fits 0 x
    → Within 15 (group_code k os ctx x)
unfolding group_code
group_code-Within k os ctx x h = search (within_rules, group_immediate-Within) depth 16 fits 3000

test_immediate-Within :
    (answer : Bool) (x : NtX64Instruction) (a b : NtX64Operand)
    → Fits 0 x
    → Within 15 (test_immediate answer x a b)
unfolding test_immediate
test_immediate-Within answer x a b h = Within->> 15 _ _ (
    Within->> 15 _ _ (
      Within->>= 11 15 _ _
        (Within-if 11 (is_reg a && (a.reg == 0) && (a.high8 == 0)) _ _
          (Within->>= 3 11 _ _ (prefix-Within x a.width _ 0 false h)
            (λ y f. within (Fits-mono _ 4 11 (omega arith) (byte-Fits y _ 3 f))))
          (modrm-Within x _ 1 a.width none 0 a h (omega arith)))
        (λ y f. address-little y b.imm _ f (immediate_size-le a.width))))

multiply_signed-Within :
    (a : NtX64Operand) (b : NtX64Operand) (third : List NtX64Operand) (x : NtX64Instruction)
    → Fits 0 x
    → Within 15 (multiply_signed a b third x)
unfolding multiply_signed
multiply_signed-Within a b third x h = search within_rules depth 16 fits 3000

pub bswap-Within :
    (os : List NtX64Operand) (ctx : NtX64Context) (x : NtX64Instruction)
    → Fits 0 x
    → Within 15 (bswap os ctx x)
unfolding bswap
bswap-Within os ctx x h = search within_rules depth 16 fits 3000

pub test_code-Within :
    (answer : Bool) (os : List NtX64Operand) (ctx : NtX64Context) (x : NtX64Instruction)
    → Fits 0 x
    → Within 15 (test_code answer os ctx x)
unfolding test_code
test_code-Within answer os ctx x h = search (within_rules, test_immediate-Within) depth 16 fits 3000

pub imul-Within :
    (os : List NtX64Operand) (ctx : NtX64Context) (x : NtX64Instruction)
    → Fits 0 x
    → Within 15 (imul os ctx x)
unfolding imul
imul-Within [] ctx x h = refusal
imul-Within (a ∷ []) ctx x h = refusal
imul-Within (a ∷ b ∷ []) ctx x h = search (within_rules, multiply_signed-Within)
imul-Within (a ∷ b ∷ c ∷ []) ctx x h = search (within_rules, multiply_signed-Within)
imul-Within (a ∷ b ∷ c ∷ d ∷ os) ctx x h = refusal

pub unary-Within :
    (n : String) (os : List NtX64Operand) (ctx : NtX64Context) (x : NtX64Instruction)
    → Fits 0 x
    → Within 15 (unary n os ctx x)
unfolding unary
unary-Within n os ctx x h = search within_rules depth 16 fits 3000

pub shift-Within :
    (n : String) (os : List NtX64Operand) (ctx : NtX64Context) (x : NtX64Instruction)
    → Fits 0 x
    → Within 15 (shift n os ctx x)
unfolding shift
shift-Within n os ctx x h = search within_rules depth 16 fits 3000

pub multiply-Within :
    (n : String) (os : List NtX64Operand) (ctx : NtX64Context) (x : NtX64Instruction)
    → Fits 0 x
    → Within 15 (multiply n os ctx x)
unfolding multiply
multiply-Within n os ctx x h = search within_rules depth 16 fits 3000
