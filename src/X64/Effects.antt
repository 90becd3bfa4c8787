-- ===== src/X64/Effects.antt =====
-- `nt_x64_effects` and `nt_x64_error_string` of bootstrap/quarantine/c/x64.c: what an instruction reads
-- and writes, and which flags it defines. The mask of registers has the general ones at bits 0 to 15,
-- RFLAGS at 17, GSBASE at 18 and FSBASE at 19.
pub mod Accepted
pub mod Flags
pub mod Consistent
use text.Mathlib.Text.{starts_with}
use Prim.Native.String.{slice, len}
use nexoragenesis_toolchain.Base.{
  ℕ, zero, suc, ◌+◌, ◌-◌, ◌*◌, ◌/◌, ◌%◌, ◌^◌, Bool, true, false, ◌||◌, ◌&&◌, not, List, [], ◌∷◌,
  Option, none, some, ◌==◌, ◌!=◌, ltb, leb, if◌then◌else◌, bit_and, bit_or, String, length, get_or,
}
use nexoragenesis_toolchain.Base.Int.{ℤ, pos, negsuc}
use nexoragenesis_toolchain.Object.{Table, items}
use nexoragenesis_toolchain.X64.{
  NtX64Operand, NtX64Context, NtX64Instruction, NtX64Error, Coded, coded, refused, ◌>>=◌, ◌>>◌,
  refuse_if, is, is_reg, is_imm, is_mem, x64_fs, x64_unknown, x64_count, x64_width, x64_feature,
  x64_privilege, x64_register, x64_range, x64_high8_rex, x64_form, x64_segment, x64_address,
  x64_argument, x64_none,
}
use nexoragenesis_toolchain.X64.Encode.{any_of, encode, Fixed, fixed}

unfoldable pub error_string : Option NtX64Error → String
error_string none = "ok"
error_string (some x64_unknown) = "unknown mnemonic"
error_string (some x64_count) = "wrong operand count"
error_string (some x64_width) = "operand width mismatch"
error_string (some x64_feature) = "missing CPU feature"
error_string (some x64_privilege) = "privilege violation"
error_string (some x64_register) = "invalid register"
error_string (some x64_range) = "value out of range"
error_string (some x64_high8_rex) = "high 8-bit register requires no REX"
error_string (some x64_form) = "invalid operand form"
error_string (some x64_segment) = "invalid segment"
error_string (some x64_address) = "invalid address"
error_string (some x64_argument) = "invalid argument"

-- NT_X64_FLAG_CF and so on.
abbrev pub flag_cf : ℕ
flag_cf = 1

abbrev pub flag_pf : ℕ
flag_pf = 4

abbrev pub flag_af : ℕ
flag_af = 16

abbrev pub flag_zf : ℕ
flag_zf = 64

abbrev pub flag_sf : ℕ
flag_sf = 128

abbrev pub flag_of : ℕ
flag_of = 2048

abbrev pub flags_arith : ℕ
flags_arith = 2261

-- NT_X64_EFFECT_PRIVILEGED and so on.
abbrev pub effect_privileged : ℕ
effect_privileged = 1

abbrev pub effect_changes_flags : ℕ
effect_changes_flags = 2

abbrev pub effect_io_port : ℕ
effect_io_port = 8

abbrev pub effect_msr : ℕ
effect_msr = 16

abbrev pub effect_control : ℕ
effect_control = 32

abbrev pub effect_interrupt_state : ℕ
effect_interrupt_state = 64

abbrev pub effect_no_return : ℕ
effect_no_return = 128

abbrev pub effect_memory_ordering : ℕ
effect_memory_ordering = 256

abbrev pub effect_reads_clock : ℕ
effect_reads_clock = 512

abbrev pub effect_suspends : ℕ
effect_suspends = 1024

pub record NtX64Effects : Type 0 where
  pub registers_read : ℕ
  pub registers_written : ℕ
  pub flags_read : ℕ
  pub flags_written : ℕ
  pub flags_undefined : ℕ
  pub effects_ : ℕ
  pub required_features : ℕ
  pub max_cpl : ℕ
  pub memory_read : ℕ
  pub memory_write : ℕ
  pub stack_read : ℕ
  pub stack_write : ℕ
  pub terminal : ℕ
  pub conditional : ℕ
  pub may_trap : ℕ
  pub destination_requires_nonzero : ℕ

-- `member`: the names between the bars of its second argument are a list here.
unfoldable pub member : String → List String → Bool
member n names = any_of n names

-- `e.registers_read |= mask` and so on.
abbrev pub reads : NtX64Effects → ℕ → NtX64Effects
reads e mask = record e { registers_read = bit_or e.registers_read mask }

abbrev pub writes : NtX64Effects → ℕ → NtX64Effects
writes e mask = record e { registers_written = bit_or e.registers_written mask }

-- `flags & ~mask` on a uint32_t.
abbrev pub without : ℕ → ℕ → ℕ
without flags mask = bit_and flags (2 ^ 32 - 1 - mask)

unfoldable pub read_operand : NtX64Effects → NtX64Operand → NtX64Effects
read_operand e o =
    if is_reg o then reads e (2 ^ o.reg) else if is_mem o then record e { memory_read = 1 } else e

unfoldable pub write_operand : NtX64Effects → NtX64Operand → NtX64Effects
write_operand e o =
    if is_reg o
    then (let e' = writes e (2 ^ o.reg) in if ltb o.width 32 then reads e' (2 ^ o.reg) else e')
    else if is_mem o
    then record e { memory_write = 1 }
    else e

unfoldable pub condition_flags : String → ℕ
condition_flags suffix =
    if member suffix ("o" ∷ "no" ∷ [])
    then flag_of
    else if member suffix ("b" ∷ "ae" ∷ [])
    then flag_cf
    else if member suffix ("e" ∷ "ne" ∷ [])
    then flag_zf
    else if member suffix ("be" ∷ "a" ∷ [])
    then bit_or flag_cf flag_zf
    else if member suffix ("s" ∷ "ns" ∷ [])
    then flag_sf
    else if member suffix ("p" ∷ "np" ∷ [])
    then flag_pf
    else if member suffix ("l" ∷ "ge" ∷ [])
    then bit_or flag_sf flag_of
    else bit_or flag_zf (bit_or flag_sf flag_of)

-- `n + k`
abbrev pub suffix_from : ℕ → String → String
suffix_from k n = slice n k (len n)

-- The features and the privilege of an entry of the table, the last of its name.
unfoldable pub fixed_needs : String → List Fixed → NtX64Effects → NtX64Effects
fixed_needs n [] e = e
fixed_needs n (f ∷ fs) e =
    fixed_needs n fs
      (if is n f.name then record e { required_features = f.features; max_cpl = f.cpl } else e)

-- The registers that an address names; base and index are at most 15.
abbrev pub named : ℤ → NtX64Effects → NtX64Effects
named (pos r) e = reads e (2 ^ r)
named (negsuc r) e = e

unfoldable pub address_reads : List NtX64Operand → NtX64Effects → NtX64Effects
address_reads [] e = e
address_reads (o ∷ os) e =
    let e' = named o.index (named o.base e) in
    let seen =
      if o.segment != 0 then reads e' (2 ^ (if o.segment == x64_fs then 19 else 18)) else e' in
    address_reads os (if is_mem o then seen else e)

-- What is known before the mnemonic is looked at.
unfoldable pub common_effects : String → List NtX64Operand → NtX64Effects
common_effects n os = address_reads os (
    fixed_needs n fixed (record {
      registers_read = 0;
      registers_written = 0;
      flags_read = 0;
      flags_written = 0;
      flags_undefined = 0;
      effects_ = 0;
      required_features = 1;
      max_cpl = 3;
      memory_read = 0;
      memory_write = 0;
      stack_read = 0;
      stack_write = 0;
      terminal = 0;
      conditional = 0;
      may_trap = 0;
      destination_requires_nonzero = 0;
    }))

unfoldable pub group_effects : String → NtX64Operand → NtX64Operand → NtX64Effects → NtX64Effects
group_effects n a b e =
    let e1 = read_operand (read_operand e a) b in
    let e2 = if member n ("cmp" ∷ "test" ∷ []) then e1 else write_operand e1 a in
    let e3 = record e2 { flags_written = flags_arith } in
    let e4 = if member n ("adc" ∷ "sbb" ∷ []) then record e3 { flags_read = flag_cf } else e3 in
    if member n ("and" ∷ "or" ∷ "xor" ∷ "test" ∷ [])
    then record e4 { flags_written = without e4.flags_written flag_af; flags_undefined = flag_af }
    else e4

unfoldable pub unary_effects : String → NtX64Operand → NtX64Effects → NtX64Effects
unary_effects n a e =
    let e1 = write_operand (read_operand e a) a in
    let e2 = if not (is n "not") then record e1 { flags_written = flags_arith } else e1 in
    if member n ("inc" ∷ "dec" ∷ [])
    then record e2 { flags_written = without e2.flags_written flag_cf }
    else e2

abbrev pub uint_max : ℕ
uint_max = 4294967295

abbrev pub rotates : String → Bool
rotates n = member n ("rol" ∷ "ror" ∷ [])

-- `amount`; none where the code takes a remainder by a width of 0, which C leaves undefined.
unfoldable pub shift_amount : String → NtX64Operand → NtX64Operand → Option ℕ
shift_amount n a b =
    let given = if is_imm b then b.imm % 2 ^ 32 else uint_max in
    let masked = bit_and given (if a.width == 64 then 63 else 31) in
    if given == uint_max
    then some given
    else if rotates n
    then (if a.width == 0 then none else some (masked % a.width))
    else some masked

-- The flags of a shift by an amount that is not 0.
unfoldable pub shift_flags : Bool → ℕ → ℕ → NtX64Effects → NtX64Effects
shift_flags rotate amount width e =
    let e1 = record e { flags_written = flag_cf } in
    let e2 = record e1 {
      flags_written = bit_or e1.flags_written (bit_or flag_pf (bit_or flag_zf flag_sf));
      flags_undefined = flag_af;
    } in
    let e3 =
      if amount == uint_max || ltb width amount
      then record e2 {
        flags_written = without e2.flags_written flag_cf;
        flags_undefined = bit_or e2.flags_undefined flag_cf;
      }
      else e2 in
    let e4 = if rotate then e1 else e3 in
    if amount == 1
    then record e4 { flags_written = bit_or e4.flags_written flag_of }
    else record e4 { flags_undefined = bit_or e4.flags_undefined flag_of }

unfoldable pub shift_effects :
    String → ℕ → NtX64Operand → NtX64Operand → NtX64Effects → NtX64Effects
shift_effects n amount a b e =
    let e1 = write_operand (read_operand (read_operand e a) b) a in
    let e2 = if amount != 0 then shift_flags (rotates n) amount a.width e1 else e1 in
    if amount == uint_max
    then record e2 {
      flags_written = 0;
      flags_undefined = if rotates n then bit_or flag_cf flag_of else flags_arith;
    }
    else e2

-- flags_written = CF | OF, and the other flags undefined.
abbrev pub product_flags : NtX64Effects → NtX64Effects
product_flags e = record e {
  flags_written = bit_or flag_cf flag_of;
  flags_undefined = without flags_arith (bit_or flag_cf flag_of);
}

unfoldable pub imul_effects : ℕ → NtX64Operand → NtX64Operand → NtX64Effects → NtX64Effects
imul_effects count a b e =
    let e1 = if count == 2 then read_operand e a else e in
    product_flags (write_operand (read_operand e1 b) a)

unfoldable pub multiply_effects : String → NtX64Operand → NtX64Effects → NtX64Effects
multiply_effects n a e =
    let pair = if a.width == 8 then 1 else 5 in
    let e1 = writes (reads (read_operand e a) 1) pair in
    if not (is n "mul")
    then record (reads e1 pair) { flags_undefined = flags_arith; may_trap = 1 }
    else product_flags e1

unfoldable pub stack_effects : String → NtX64Operand → NtX64Effects → NtX64Effects
stack_effects n a e =
    let e1 = writes (reads e (2 ^ 4)) (2 ^ 4) in
    let e2 =
      if member n ("push" ∷ "pushfq" ∷ "call" ∷ [])
      then record e1 { stack_write = 1 }
      else record e1 { stack_read = 1 } in
    let e3 = if is n "push" then read_operand e2 a else e2 in
    let e4 = if is n "pop" then write_operand e3 a else e3 in
    let e5 = if is n "pushfq" then reads e4 (2 ^ 17) else e4 in
    let e6 = if is n "popfq" then record e5 { flags_written = flags_arith } else e5 in
    let e7 = if is n "call" then read_operand e6 a else e6 in
    if member n ("ret" ∷ "return" ∷ []) then record e7 { terminal = 1 } else e7

unfoldable pub jump_effects : String → NtX64Operand → NtX64Effects → NtX64Effects
jump_effects n a e =
    if is n "jmp" then record (read_operand e a) { terminal = 1 } else record (read_operand e a) {
      terminal = 0;
      flags_read = condition_flags (suffix_from 1 n);
      conditional = 1;
    }

unfoldable pub bit_effects : String → NtX64Operand → NtX64Operand → NtX64Effects → NtX64Effects
bit_effects n a b e =
    let e1 = read_operand (read_operand e a) b in
    let e2 = if not (is n "bt") then write_operand e1 a else e1 in
    record e2 {
      flags_written = flag_cf;
      flags_undefined = bit_or flag_of (bit_or flag_sf (bit_or flag_af flag_pf));
    }

unfoldable pub exchange_effects : NtX64Operand → NtX64Operand → NtX64Effects → NtX64Effects
exchange_effects a b e =
    let e1 = write_operand (write_operand (read_operand (read_operand e a) b) a) b in
    if e1.memory_write != 0
    then record e1 { effects_ = bit_or e1.effects_ effect_memory_ordering }
    else e1

unfoldable pub model_register_effects : String → NtX64Effects → NtX64Effects
model_register_effects n e =
    let e1 = record e { effects_ = effect_msr; registers_read = 2 } in
    if is n "rdmsr" then record e1 { registers_written = 5 } else reads e1 5

unfoldable pub control_register_effects :
    String → NtX64Operand → NtX64Operand → NtX64Effects → NtX64Effects
control_register_effects n a b e =
    let e1 = record e { effects_ = effect_control; max_cpl = 0 } in
    if is n "read_cr" then write_operand e1 a else read_operand e1 b

unfoldable pub descriptor_effects : String → NtX64Operand → NtX64Effects → NtX64Effects
descriptor_effects n a e =
    let e1 = record e { effects_ = effect_control; max_cpl = 0 } in
    if member n ("sgdt" ∷ "sidt" ∷ [])
    then write_operand e1 a
    else if not (is n "invlpg")
    then read_operand e1 a
    else e1

unfoldable pub port_effects : String → NtX64Operand → NtX64Operand → NtX64Effects → NtX64Effects
port_effects n a b e =
    let e1 = record e { effects_ = effect_io_port; max_cpl = 0 } in
    if is n "in" then read_operand (write_operand e1 a) b else read_operand (read_operand e1 a) b

-- The chain of tests from "cpuid" on: the instructions of the system.
unfoldable pub system_effects :
    String → NtX64Operand → NtX64Operand → NtX64Effects → Option NtX64Effects
system_effects n a b e =
    if is n "cpuid"
    then some (record e { registers_read = 3; registers_written = 15 })
    else if is n "rdtsc"
    then some (record e { registers_written = 5; effects_ = effect_reads_clock })
    else if member n ("lfence" ∷ "sfence" ∷ "mfence" ∷ [])
    then some (record e { effects_ = effect_memory_ordering })
    else if is n "ud2"
    then some (record e { terminal = 1; may_trap = 1; effects_ = effect_no_return })
    else if member n ("cli" ∷ "sti" ∷ [])
    then some (record e { effects_ = effect_interrupt_state })
    else if is n "hlt"
    then some (record e { effects_ = effect_suspends })
    else if is n "swapgs"
    then some (record e {
      effects_ = effect_control;
      registers_read = 2 ^ 18;
      registers_written = 2 ^ 18;
    })
    else if member n ("rdmsr" ∷ "wrmsr" ∷ [])
    then some (model_register_effects n e)
    else if is n "syscall"
    then some (record e {
      effects_ = effect_control;
      registers_written = bit_or (2 ^ 1) (2 ^ 11);
      registers_read = 2 ^ 17;
      flags_written = flags_arith;
    })
    else if is n "sysretq"
    then some (record e {
      effects_ = bit_or effect_control effect_no_return;
      registers_read = bit_or (2 ^ 1) (2 ^ 11);
      terminal = 1;
      flags_written = flags_arith;
    })
    else if is n "iretq"
    then some (record e {
      effects_ = bit_or effect_control effect_no_return;
      registers_read = 2 ^ 4;
      registers_written = 2 ^ 4;
      stack_read = 1;
      flags_written = flags_arith;
      terminal = 1;
    })
    else if member n ("read_cr" ∷ "write_cr" ∷ [])
    then some (control_register_effects n a b e)
    else if member n ("sgdt" ∷ "sidt" ∷ "lgdt" ∷ "lidt" ∷ "ltr" ∷ "invlpg" ∷ [])
    then some (descriptor_effects n a e)
    else if member n ("in" ∷ "out" ∷ [])
    then some (port_effects n a b e)
    else if not (member n ("nop" ∷ "pause" ∷ []))
    then none
    else some e

-- The chain of tests on the mnemonic; `none` is NT_X64_UNKNOWN. A shift is given its amount.
unfoldable pub own_effects :
    String → ℕ → ℕ → NtX64Operand → NtX64Operand → NtX64Effects → Option NtX64Effects
own_effects n count amount a b e =
    if member n ("mov" ∷ "load" ∷ "store" ∷ "movzx" ∷ "movsx" ∷ "movsxd" ∷ [])
    then some (write_operand (read_operand e b) a)
    else if is n "lea"
    then some (write_operand e a)
    else if member n ("add" ∷ "adc" ∷ "sub" ∷ "sbb" ∷ "and" ∷ "or" ∷ "xor" ∷ "cmp" ∷ "test" ∷ [])
    then some (group_effects n a b e)
    else if member n ("inc" ∷ "dec" ∷ "neg" ∷ "not" ∷ [])
    then some (unary_effects n a e)
    else if member n ("shl" ∷ "shr" ∷ "sar" ∷ "rol" ∷ "ror" ∷ [])
    then some (shift_effects n amount a b e)
    else if is n "imul"
    then some (imul_effects count a b e)
    else if member n ("mul" ∷ "div" ∷ "idiv" ∷ [])
    then some (multiply_effects n a e)
    else if member n ("cbw" ∷ "cwde" ∷ "cdqe" ∷ "cwd" ∷ "cdq" ∷ "cqo" ∷ [])
    then some (writes (reads e 1) (if member n ("cwd" ∷ "cdq" ∷ "cqo" ∷ []) then 4 else 1))
    else if member n ("push" ∷ "pushfq" ∷ "pop" ∷ "popfq" ∷ "ret" ∷ "return" ∷ "call" ∷ [])
    then some (stack_effects n a e)
    else if starts_with n "j"
    then some (jump_effects n a e)
    else if starts_with n "set"
    then some (write_operand (record e { flags_read = condition_flags (suffix_from 3 n) }) a)
    else if starts_with n "cmov"
    then some
        (record (write_operand
          (read_operand
            (read_operand (record e { flags_read = condition_flags (suffix_from 4 n) }) a) b)
          a) { conditional = 1 })
    else if is n "bswap"
    then some (write_operand (read_operand e a) a)
    else if member n ("bt" ∷ "bts" ∷ "btr" ∷ "btc" ∷ [])
    then some (bit_effects n a b e)
    else if member n ("bsf" ∷ "bsr" ∷ [])
    then some (record (write_operand (read_operand e b) a) {
      flags_written = flag_zf;
      flags_undefined = without flags_arith flag_zf;
      destination_requires_nonzero = 1;
    })
    else if is n "xchg"
    then some (exchange_effects a b e)
    else system_effects n a b e

-- What follows from the flags and the privilege.
unfoldable pub derived_effects : NtX64Effects → NtX64Effects
derived_effects e =
    let e1 = if e.flags_read != 0 then reads e (2 ^ 17) else e in
    let e2 =
      if bit_or e1.flags_written e1.flags_undefined != 0
      then record (writes e1 (2 ^ 17)) { effects_ = bit_or e1.effects_ effect_changes_flags }
      else e1 in
    if e2.max_cpl == 0 then record e2 { effects_ = bit_or e2.effects_ effect_privileged } else e2

-- Stands for an operand past the count, which no instruction that encodes reads.
abbrev pub no_operand : NtX64Operand
no_operand = record {
  kind = x64_none;
  width = 0;
  reg = 0;
  high8 = 0;
  imm = 0;
  is_signed = 0;
  base = pos 0;
  index = pos 0;
  scale = 0;
  disp = pos 0;
  segment = 0;
}

-- The end of nt_x64_effects.
unfoldable pub reported_effects : Option NtX64Effects → Coded NtX64Effects
reported_effects none = refused x64_unknown
reported_effects (some e) = coded (derived_effects e)

-- None where the amount of a shift is undefined; it is looked at for every mnemonic here, and is defined
-- for all but rotations.
unfoldable pub effects_named : String → List NtX64Operand → Option (Coded NtX64Effects)
effects_named n os =
    let a = get_or os 0 no_operand in
    let b = get_or os 1 no_operand in
    elim (shift_amount n a b) [
      | none ↦ none
      | some amount ↦
          some (reported_effects (own_effects n (length os) amount a b (common_effects n os)))
    ]

-- nt_x64_effects. As in `encode`, `out` is false for a null `out`, and `*out` is left alone on an error.
-- None is a run that C leaves undefined.
unfoldable pub effects :
    Bool → Option String → Table NtX64Operand → NtX64Context → Bool → Option (Coded NtX64Effects)
effects answer n operands context out =
    elim (refuse_if (not out) x64_argument >> encode answer n operands context true) [
      | refused why ↦ some (refused why)
      | coded encoded ↦ elim n [
        | none ↦ some (refused x64_argument)
        | some mnemonic ↦ effects_named mnemonic (items operands)
      ]
    ]
