-- ===== src/X64.antt =====
-- The instruction encoder, bootstrap/quarantine/c/x64.h and x64.c: operands, instructions, and the
-- helpers that append bytes. `bytes[15]` with `length` is the list of the bytes that are written.
pub mod Modrm
pub mod Moves
pub mod Arithmetic
pub mod Control
pub mod System
pub mod Bits
pub mod Encode
pub mod Length
pub mod Effects
use text.Mathlib.Text.{◌==◌ as str_eq}
use nexoragenesis_toolchain.Base.{
  refl, inr, inl, ◌⊎◌, ◌≡◌, ℕ, zero, suc, ◌+◌, ◌-◌, ◌*◌, ◌/◌, ◌%◌, ◌^◌, Bool, true, false, ◌||◌,
  ◌&&◌, not, List, [], ◌∷◌, ◌++◌, ◌==◌, ◌!=◌, ltb, leb, if◌then◌else◌, bit_and, bit_or, String,
}
use nexoragenesis_toolchain.Base.Int.{ℤ, pos, negsuc, pos_part, ltb_ℤ}
use nexoragenesis_toolchain.Memory.{le_bytes}

pub data NtX64Kind : Type 0 where
  x64_none x64_reg x64_imm x64_mem x64_rel x64_cr : NtX64Kind

-- NT_X64_SEG_NONE is 0.
abbrev pub x64_fs : ℕ
x64_fs = 1

abbrev pub x64_gs : ℕ
x64_gs = 2

pub record NtX64Operand : Type 0 where
  pub kind : NtX64Kind
  pub width : ℕ
  pub reg : ℕ
  pub high8 : ℕ
  pub imm : ℕ
  pub is_signed : ℕ
  pub base : ℤ
  pub index : ℤ
  pub scale : ℕ
  pub disp : ℤ
  pub segment : ℕ

pub record NtX64Context : Type 0 where
  pub features : ℕ
  pub cpl : ℕ

pub record NtX64Instruction : Type 0 where
  pub bytes : List ℕ
  pub displacement_offset : ℕ
  pub displacement_size : ℕ

-- The codes but NT_X64_OK.
pub data NtX64Error : Type 0 where
  x64_unknown x64_count x64_width x64_feature x64_privilege x64_register x64_range : NtX64Error
  x64_high8_rex x64_form x64_segment x64_address x64_argument : NtX64Error

-- What a routine gives that returns an NtX64Error: NT_X64_OK with a value, or another code.
pub data Coded {ℓ} (A : Type ℓ) : Type ℓ where
  coded : A → Coded A
  refused : NtX64Error → Coded A

pub Coded-cases {ℓ} :
    {A : Type ℓ} (m : Coded A)
    → ((a : A) × (m ≡ coded a)) ⊎ ((why : NtX64Error) × (m ≡ refused why))
Coded-cases (coded a) = inl (a, refl)
Coded-cases (refused why) = inr (why, refl)

-- `TRY`
infixl 5 ◌>>=◌
abbrev pub ◌>>=◌ {ℓ κ} : {A : Type ℓ} {B : Type κ} (first : Coded A) (next : A → Coded B) → Coded B
refused e >>= next = refused e
coded a >>= next = next a

-- `if (test) return code;`
abbrev pub refuse_if : Bool → NtX64Error → Coded (Unit {0})
refuse_if true code = refused code
refuse_if false code = coded tt

infixl 5 ◌>>◌
abbrev pub ◌>>◌ {ℓ} : {B : Type ℓ} (first : Coded (Unit {0})) (next : Coded B) → Coded B
first >> next = first >>= λ u. next

-- `o->kind == NT_X64_REG` and so on.
abbrev pub is_reg : NtX64Operand → Bool
is_reg o = elim o.kind [ x64_reg ↦ true | _ ↦ false ]

abbrev pub is_imm : NtX64Operand → Bool
is_imm o = elim o.kind [ x64_imm ↦ true | _ ↦ false ]

abbrev pub is_mem : NtX64Operand → Bool
is_mem o = elim o.kind [ x64_mem ↦ true | _ ↦ false ]

abbrev pub is_rel : NtX64Operand → Bool
is_rel o = elim o.kind [ x64_rel ↦ true | _ ↦ false ]

abbrev pub is_cr : NtX64Operand → Bool
is_cr o = elim o.kind [ x64_cr ↦ true | _ ↦ false ]

-- !strcmp(n, m)
unfoldable pub is : String → String → Bool
is n m = str_eq n m

-- The index of a name in a table, or the length of the table.
unfoldable pub position : String → List String → ℕ
position n [] = 0
position n (m ∷ ms) = let rest = position n ms in if is n m then 0 else suc rest

unfoldable pub scalar_width : ℕ → Bool
scalar_width w = w == 8 || w == 16 || w == 32 || w == 64

unfoldable pub byte : NtX64Instruction → ℕ → NtX64Instruction
byte x v = record x { bytes = x.bytes ++ (v % 256 ∷ []) }

unfoldable pub little : NtX64Instruction → ℕ → ℕ → NtX64Instruction
little x v n = record x { bytes = x.bytes ++ le_bytes n v }

-- No call reaches the shift by `w - 1` with w = 0, which C leaves undefined: `operand_valid` tests for a
-- width of 0, `test_immediate` sets the case apart, and the others have a width of 8 or more.
unfoldable pub fits : NtX64Operand → ℕ → Bool → Bool
fits o w sign_extended =
    if w == 64
    then true
    else if o.is_signed != 0
    then leb o.imm (2 ^ (w - 1) - 1) || leb (2 ^ 64 - 1 - (2 ^ (w - 1) - 1)) o.imm
    else leb o.imm (if sign_extended then 2 ^ (w - 1) - 1 else 2 ^ w - 1)

unfoldable pub regcode : NtX64Operand → ℕ
regcode o = o.reg + (if o.high8 != 0 then 4 else 0)

unfoldable pub regrex : NtX64Operand → Bool
regrex o = (o.width == 8) && (o.high8 == 0) && leb 4 o.reg

abbrev pub eqb_ℤ : ℤ → ℤ → Bool
eqb_ℤ a b = not (ltb_ℤ a b) && not (ltb_ℤ b a)

-- The test of a memory operand that gives NT_X64_ADDRESS.
unfoldable pub bad_address : NtX64Operand → Bool
bad_address o =
    ltb_ℤ o.base (negsuc 1)
    || ltb_ℤ (pos 15) o.base
    || ltb_ℤ o.index (negsuc 0)
    || ltb_ℤ (pos 15) o.index
    || eqb_ℤ o.index (pos 4)
    || ((o.scale != 1) && (o.scale != 2) && (o.scale != 4) && (o.scale != 8))
    || (eqb_ℤ o.index (negsuc 0) && (o.scale != 1))
    || (eqb_ℤ o.base (negsuc 1) && not (eqb_ℤ o.index (negsuc 0)))
    || ltb_ℤ o.disp (negsuc (2 ^ 31 - 1))
    || ltb_ℤ (pos (2 ^ 31 - 1)) o.disp

unfoldable pub register_valid : NtX64Operand → Coded (Unit {0})
register_valid o = do
  refuse_if (not (scalar_width o.width)) x64_width
  refuse_if (ltb 15 o.reg || ltb 1 o.high8 || ((o.high8 != 0) && ((o.width != 8) || ltb 3 o.reg)))
      x64_register

unfoldable pub immediate_valid : NtX64Operand → Coded (Unit {0})
immediate_valid o = do
  refuse_if (ltb 1 o.is_signed) x64_argument
  refuse_if ((o.width != 0) && not (scalar_width o.width)) x64_width
  refuse_if ((o.width != 0) && not (fits o o.width false)) x64_range

unfoldable pub memory_valid : NtX64Operand → Coded (Unit {0})
memory_valid o = do
  refuse_if (not (scalar_width o.width) && (o.width != 80) && (o.width != 0)) x64_width
  refuse_if (bad_address o) x64_address
  refuse_if ((o.segment != 0) && (o.segment != x64_fs) && (o.segment != x64_gs)) x64_segment

unfoldable pub control_valid : NtX64Operand → Coded (Unit {0})
control_valid o = do
  refuse_if (o.width != 64) x64_width
  refuse_if ((o.reg != 0) && (o.reg != 2) && (o.reg != 3) && (o.reg != 4) && (o.reg != 8))
      x64_register
  refuse_if (o.high8 != 0) x64_register

-- The switch on the kind.
unfoldable pub operand_valid : NtX64Operand → Coded (Unit {0})
operand_valid o = elim o.kind [
  | x64_reg ↦ register_valid o
  | x64_imm ↦ immediate_valid o
  | x64_rel ↦ immediate_valid o
  | x64_mem ↦ memory_valid o
  | x64_cr ↦ control_valid o
  | x64_none ↦ refused x64_form
]

-- `if (!(ctx.features & NT_X64_LM)) return NT_X64_FEATURE;`
abbrev pub long_mode : NtX64Context → Coded (Unit {0})
long_mode ctx = refuse_if (bit_and ctx.features 1 == 0) x64_feature

unfoldable pub prefix : NtX64Instruction → ℕ → ℕ → Bool → ℕ → Coded NtX64Instruction
prefix x width rex high8 segment =
    if (rex != 0) && high8
    then refused x64_high8_rex
    else let y = if segment != 0 then byte x (if segment == x64_fs then 0x64 else 0x65) else x in
      let z = if width == 16 then byte y 0x66 else y in
      coded (if rex != 0 then byte z (bit_or 0x40 rex) else z)

-- `if (count != 1) return NT_X64_COUNT;` and the like, with the operands.
abbrev pub one :
    List NtX64Operand → (NtX64Operand → Coded NtX64Instruction) → Coded NtX64Instruction
one (a ∷ []) k = k a
one os k = refused x64_count

abbrev pub two :
    List NtX64Operand
    → (NtX64Operand → NtX64Operand → Coded NtX64Instruction)
    → Coded NtX64Instruction
two (a ∷ b ∷ []) k = k a b
two os k = refused x64_count

-- Neither a register nor in memory.
abbrev pub not_place : NtX64Operand → Bool
not_place o = not (is_reg o) && not (is_mem o)
