-- ===== src/X64/Encode.antt =====
-- `variable`'s choice among the groups, the table of fixed instructions, and `nt_x64_encode` of
-- bootstrap/quarantine/c/x64.c.
use nexoragenesis_toolchain.Base.{
  ℕ, Bool, ◌||◌, ◌&&◌, not, ◌!=◌, ltb, if◌then◌else◌, bit_and, length, Option, none, some, String,
  List, [], ◌∷◌, get_or,
}
use nexoragenesis_toolchain.Memory.{le_bytes}
use nexoragenesis_toolchain.Object.{Table, count, items, is_null}
use nexoragenesis_toolchain.X64.{
  NtX64Operand, NtX64Instruction, NtX64Context, Coded, coded, refused, ◌>>◌, x64_unknown, x64_count,
  x64_feature, x64_privilege, x64_argument, is, position, refuse_if,
}
use nexoragenesis_toolchain.X64.Moves.{move, push_pop, exchange, extend}
use nexoragenesis_toolchain.X64.Arithmetic.{
  group_names, group_code, test_code, unary, shift, imul, multiply, bswap,
}
use nexoragenesis_toolchain.X64.Control.{transfer, jump_names, jump_if}
use nexoragenesis_toolchain.X64.Bits.{
  set_names, move_if_names, conditions, set_if, move_if, bit_names, bit_code, bit_scan,
}
use nexoragenesis_toolchain.X64.System.{
  control_register, descriptor_names, descriptor_table, ltr, invlpg, port,
}

-- `!strcmp(n, a) || !strcmp(n, b) ...`
unfoldable pub any_of : String → List String → Bool
any_of n ms = ltb (position n ms) (length ms)

unfoldable pub variable :
    Bool → String → List NtX64Operand → NtX64Context → NtX64Instruction → Coded NtX64Instruction
variable answer n os ctx x =
    if any_of n ("mov" ∷ "load" ∷ "store" ∷ "lea" ∷ [])
    then move n os ctx x
    else if any_of n group_names
    then group_code (position n group_names) os ctx x
    else if is n "test"
    then test_code answer os ctx x
    else if any_of n ("inc" ∷ "dec" ∷ "not" ∷ "neg" ∷ [])
    then unary n os ctx x
    else if any_of n ("shl" ∷ "shr" ∷ "sar" ∷ "rol" ∷ "ror" ∷ [])
    then shift n os ctx x
    else if is n "imul"
    then imul os ctx x
    else if any_of n ("mul" ∷ "div" ∷ "idiv" ∷ [])
    then multiply n os ctx x
    else if any_of n ("push" ∷ "pop" ∷ [])
    then push_pop n os ctx x
    else if any_of n ("call" ∷ "jmp" ∷ [])
    then transfer n os ctx x
    else if any_of n jump_names
    then jump_if (position n jump_names) os ctx x
    else if any_of n ("read_cr" ∷ "write_cr" ∷ [])
    then control_register n os ctx x
    else if any_of n ("movzx" ∷ "movsx" ∷ "movsxd" ∷ [])
    then extend n os ctx x
    else if any_of n set_names
    then set_if (get_or conditions (position n set_names) 16) os ctx x
    else if any_of n move_if_names
    then move_if (get_or conditions (position n move_if_names) 16) os ctx x
    else if is n "bswap"
    then bswap os ctx x
    else if any_of n bit_names
    then bit_code (position n bit_names) os ctx x
    else if any_of n ("bsf" ∷ "bsr" ∷ [])
    then bit_scan n os ctx x
    else if is n "xchg"
    then exchange n os ctx x
    else if any_of n descriptor_names
    then descriptor_table (position n descriptor_names) os ctx x
    else if is n "ltr"
    then ltr os ctx x
    else if is n "invlpg"
    then invlpg os ctx x
    else if any_of n ("in" ∷ "out" ∷ [])
    then port n os ctx x
    else refused x64_unknown

pub record Fixed : Type 0 where
  pub name : String
  pub code : ℕ
  pub length_ : ℕ
  pub features : ℕ
  pub cpl : ℕ

abbrev entry : String → ℕ → ℕ → ℕ → ℕ → Fixed
entry name code length_ features cpl = record {
  name = name;
  code = code;
  length_ = length_;
  features = features;
  cpl = cpl;
}

abbrev pub fixed : List Fixed
fixed =
    entry "nop" 0x90 1 1 3
    ∷ entry "pause" 0x90f3 2 1 3
    ∷ entry "ud2" 0x0b0f 2 1 3
    ∷ entry "cpuid" 0xa20f 2 1 3
    ∷ entry "cbw" 0x9866 2 1 3
    ∷ entry "cwde" 0x98 1 1 3
    ∷ entry "cdqe" 0x9848 2 1 3
    ∷ entry "cwd" 0x9966 2 1 3
    ∷ entry "cdq" 0x99 1 1 3
    ∷ entry "cqo" 0x9948 2 1 3
    ∷ entry "pushfq" 0x9c 1 1 3
    ∷ entry "popfq" 0x9d 1 1 0
    ∷ entry "rdtsc" 0x310f 2 17 0
    ∷ entry "lfence" 0xe8ae0f 3 9 3
    ∷ entry "sfence" 0xf8ae0f 3 9 3
    ∷ entry "mfence" 0xf0ae0f 3 9 3
    ∷ entry "cli" 0xfa 1 1 0
    ∷ entry "sti" 0xfb 1 1 0
    ∷ entry "hlt" 0xf4 1 1 0
    ∷ entry "swapgs" 0xf8010f 3 1 0
    ∷ entry "rdmsr" 0x320f 2 3 0
    ∷ entry "wrmsr" 0x300f 2 3 0
    ∷ entry "syscall" 0x050f 2 5 3
    ∷ entry "sysretq" 0x070f48 3 5 0
    ∷ entry "iretq" 0xcf48 2 1 0
    ∷ entry "ret" 0xc3 1 1 3
    ∷ entry "return" 0xc3 1 1 3
    ∷ []

-- `{0}`
abbrev pub no_bytes : NtX64Instruction
no_bytes = record { bytes = []; displacement_offset = 0; displacement_size = 0 }

unfoldable pub fixed_code : Fixed → ℕ → NtX64Context → Coded NtX64Instruction
fixed_code f n ctx = do
  refuse_if (n != 0) x64_count
  refuse_if (bit_and ctx.features f.features != f.features) x64_feature
  refuse_if (ltb f.cpl ctx.cpl) x64_privilege
  coded (record no_bytes { bytes = le_bytes f.length_ f.code })

-- The first entry of the name.
unfoldable pub find_fixed : String → List Fixed → Option Fixed
find_fixed n [] = none
find_fixed n (f ∷ fs) = let rest = find_fixed n fs in if is n f.name then some f else rest

unfoldable pub encode_named :
    Bool → String → List NtX64Operand → NtX64Context → Coded NtX64Instruction
encode_named answer n os ctx = elim (find_fixed n fixed) [
  | some f ↦ fixed_code f (length os) ctx
  | none ↦ variable answer n os ctx no_bytes
]

-- nt_x64_encode. The mnemonic may be null, and `out` is false for a null `out`; what is coded is what
-- `*out` becomes, and `*out` is left alone on an error. `answer` is that of an undefined shift, which
-- only `test_immediate` looks at.
unfoldable pub encode :
    Bool → Option String → Table NtX64Operand → NtX64Context → Bool → Coded NtX64Instruction
encode answer none operands context out = refused x64_argument
encode answer (some n) operands context out = do
  refuse_if (not out || ((count operands != 0) && is_null operands)) x64_argument
  refuse_if (ltb 3 (count operands)) x64_count
  refuse_if (ltb 3 context.cpl) x64_privilege
  encode_named answer n (items operands) context
