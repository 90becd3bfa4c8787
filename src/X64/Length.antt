-- ===== src/X64/Length.antt =====
-- The bytes that the helpers of bootstrap/quarantine/c/x64.c append.
pub mod Moves
pub mod Arithmetic
pub mod Others
pub mod Encoded
use nexoragenesis_toolchain.Base.{
  ℕ, zero, suc, ◌+◌, ◌%◌, ◌≤◌, ◌≡◌, refl, Bool, true, false, ◌&&◌, ◌==◌, ◌!=◌, if◌then◌else◌,
  length, length-append, arith, Option, [], ◌∷◌, List, bit_or,
}
use nexoragenesis_toolchain.Base.Int.{ℤ, negsuc, to_u64}
use nexoragenesis_toolchain.Memory.{le_bytes}
use nexoragenesis_toolchain.Memory.Laws.{length-le_bytes}
use nexoragenesis_toolchain.X64.{
  NtX64Operand, NtX64Instruction, NtX64Error, Coded, coded, refused, ◌>>=◌, ◌>>◌, byte, little, one,
  two, prefix, is_reg, eqb_ℤ,
}
use nexoragenesis_toolchain.X64.Modrm.{
  modrm, modrm_register, modrm_memory, put_address, put_displacement, address_mode, has_sib,
  sib_byte,
}

-- At most n bytes, and the displacement lies among them.
pub record Fits (n : ℕ) (x : NtX64Instruction) : Type 0 where
  pub short : length x.bytes ≤ n
  pub displaced : x.displacement_offset + x.displacement_size ≤ length x.bytes

-- What a routine codes fits n bytes.
pub data Within (n : ℕ) : Coded NtX64Instruction → Type 0 where
  within : {x : NtX64Instruction} → Fits n x → Within n (coded x)
  refusal : {e : NtX64Error} → Within n (refused e)

pub byte-Fits : (x : NtX64Instruction) (v n : ℕ) → Fits n x → Fits (n + 1) (byte x v)
unfolding byte
byte-Fits x v n h =
    let l = length-append x.bytes (v % 256 ∷ []) in
    record { short = omega (arith, l, h.short); displaced = omega (arith, l, h.displaced) }

pub little-Fits : (x : NtX64Instruction) (v k n : ℕ) → Fits n x → Fits (n + k) (little x v k)
unfolding little
little-Fits x v k n h =
    let l = length-append x.bytes (le_bytes k v) in
    let m = length-le_bytes k v in
    record { short = omega (arith, l, m, h.short); displaced = omega (arith, l, m, h.displaced) }

pub Fits-mono : (x : NtX64Instruction) (m n : ℕ) → m ≤ n → Fits m x → Fits n x
Fits-mono x m n le h = record { short = omega (arith, h.short); displaced = h.displaced }

pub Within->>= :
    (m n : ℕ) (c : Coded NtX64Instruction) (f : NtX64Instruction → Coded NtX64Instruction)
    → Within m c
    → ((x : NtX64Instruction) → Fits m x → Within n (f x))
    → Within n (c >>= f)
Within->>= m n (coded x) f (within h) k = k x h
Within->>= m n (refused e) f h k = refusal

pub Within->> :
    (n : ℕ) (c : Coded (Unit {0})) (k : Coded NtX64Instruction) → Within n k → Within n (c >> k)
Within->> n (coded u) k h = h
Within->> n (refused e) k h = refusal

pub Within->>-ok :
    (n : ℕ) (c : Coded (Unit {0})) (k : Coded NtX64Instruction)
    → (c ≡ coded tt → Within n k)
    → Within n (c >> k)
Within->>-ok n (coded tt) k h = h refl
Within->>-ok n (refused e) k h = refusal

pub Within-if-true :
    (n : ℕ) (b : Bool) (c d : Coded NtX64Instruction)
    → (b ≡ true → Within n c)
    → Within n d
    → Within n (if b then c else d)
Within-if-true n true c d h k = h refl
Within-if-true n false c d h k = k

pub Within-if :
    (n : ℕ) (b : Bool) (c d : Coded NtX64Instruction)
    → Within n c
    → Within n d
    → Within n (if b then c else d)
Within-if n true c d h k = h
Within-if n false c d h k = k

pub byte_if-Fits :
    (b : Bool) (x : NtX64Instruction) (v n : ℕ)
    → Fits n x
    → Fits (n + 1) (if b then byte x v else x)
byte_if-Fits true x v n h = byte-Fits x v n h
byte_if-Fits false x v n h = Fits-mono x n (n + 1) (omega arith) h

pub prefix-Within :
    (x : NtX64Instruction) (width rex segment : ℕ) (high8 : Bool)
    → Fits 0 x
    → Within 3 (prefix x width rex high8 segment)
unfolding prefix
prefix-Within x width rex segment high8 h = Within-if 3 ((rex != 0) && high8) _ _ refusal (
    within (
      byte_if-Fits (rex != 0) _ _ 2
        (byte_if-Fits (width == 16) _ _ 1 (byte_if-Fits (segment != 0) x _ 0 h))))

put_displacement-Fits :
    (x : NtX64Instruction) (disp : ℤ) (k m n : ℕ)
    → m + k ≤ n
    → Fits m x
    → Fits n (put_displacement x disp k)
unfolding put_displacement little
put_displacement-Fits x disp zero m n le h =
    Fits-mono _ (m + 0) n le (little-Fits x (to_u64 disp) 0 m h)
put_displacement-Fits x disp (suc k) m n le h =
    let l = length-append x.bytes (le_bytes (suc k) (to_u64 disp)) in
    let size = length-le_bytes (suc k) (to_u64 disp) in
    let some_bytes : (suc k == 0) ≡ false = ground arith in
    rw some_bytes
      (record { short = omega (arith, l, size, h.short); displaced = omega (arith, l, size) })

Fits-if :
    (b : Bool) (x y : NtX64Instruction) (n : ℕ) → Fits n x → Fits n y → Fits n (if b then x else y)
Fits-if true x y n h k = h
Fits-if false x y n h k = k

second-if : (b : Bool) (p q : ℕ × ℕ) → p.1 ≤ 4 → q.1 ≤ 4 → (if b then p else q).1 ≤ 4
second-if true p q h k = h
second-if false p q h k = k

address_mode-le : (rm : NtX64Operand) → (address_mode rm).1 ≤ 4
unfolding address_mode
address_mode-le rm =
    second-if _ (0, 4) _ (omega arith)
      (second-if _ (0, 0) _ (omega arith) (second-if _ (1, 1) (2, 4) (omega arith) (omega arith)))

put_address-Fits :
    (x : NtX64Instruction) (rc : ℕ) (rm : NtX64Operand) → Fits 5 x → Fits 11 (put_address x rc rm)
unfolding put_address
put_address-Fits x rc rm h =
    Fits-if (eqb_ℤ rm.base (negsuc 1)) _ _ 11
      (put_displacement-Fits _ rm.disp 4 6 11 (omega arith) (byte-Fits x _ 5 h))
      (put_displacement-Fits _ rm.disp (address_mode rm).1 7 11 (omega (arith, address_mode-le rm))
        (byte_if-Fits (has_sib rm) _ (sib_byte rm) 6 (byte-Fits x _ 5 h)))

-- An opcode is one or two bytes.
opcode-Fits :
    (x : NtX64Instruction) (opcode oplen : ℕ)
    → oplen ≤ 2
    → Fits 3 x
    → Fits 5 (little x opcode oplen)
opcode-Fits x opcode oplen le h =
    Fits-mono _ (3 + oplen) 5 (omega arith) (little-Fits x opcode oplen 3 h)

-- From an instruction without bytes, and with an opcode of at most two, `modrm` either refuses or codes
-- at most 11 bytes, and the displacement that it notes lies among them.
pub modrm-Within :
    (x : NtX64Instruction) (opcode oplen width : ℕ) (reg : Option NtX64Operand) (digit : ℕ)
    (rm : NtX64Operand)
    → Fits 0 x
    → oplen ≤ 2
    → Within 11 (modrm x opcode oplen width reg digit rm)
unfolding modrm modrm_register modrm_memory
modrm-Within x opcode oplen width reg digit rm h le = Within->> 11 _ _ (
    Within-if 11 (is_reg rm) _ _
      (Within->>= 3 11 _ _ (prefix-Within x width _ _ _ h) (λ y f.
        within
          (Fits-mono _ 6 11 (omega arith) (byte-Fits _ _ 5 (opcode-Fits y opcode oplen le f)))))
      (Within->>= 3 11 _ _ (prefix-Within x width _ _ _ h)
        (λ y f. within (put_address-Fits _ _ rm (opcode-Fits y opcode oplen le f)))))

Within-mono : (m n : ℕ) (c : Coded NtX64Instruction) → m ≤ n → Within m c → Within n c
Within-mono m n (coded x) le (within h) = within (Fits-mono x m n le h)
Within-mono m n (refused e) le h = refusal

module _ (x : NtX64Instruction) (opcode oplen width : ℕ) (reg : Option NtX64Operand) (digit : ℕ)
    (rm : NtX64Operand) (h : Fits 0 x) (le : oplen ≤ 2) where
  pub modrm-short : Within 15 (modrm x opcode oplen width reg digit rm)
  modrm-short =
      Within-mono 11 15 _ (omega arith) (modrm-Within x opcode oplen width reg digit rm h le)

  pub modrm-then :
      (f : NtX64Instruction → Coded NtX64Instruction)
      → ((y : NtX64Instruction) → Fits 11 y → Within 15 (f y))
      → Within 15 (modrm x opcode oplen width reg digit rm >>= f)
  modrm-then f k = Within->>= 11 15 _ f (modrm-Within x opcode oplen width reg digit rm h le) k

-- An immediate behind an address.
pub address-little :
    (y : NtX64Instruction) (v k : ℕ) → Fits 11 y → k ≤ 4 → Within 15 (coded (little y v k))
address-little y v k h small =
    within (Fits-mono _ (11 + k) 15 (omega arith) (little-Fits y v k 11 h))

pub address-byte : (y : NtX64Instruction) (v : ℕ) → Fits 11 y → Within 15 (coded (byte y v))
address-byte y v h = within (Fits-mono _ 12 15 (omega arith) (byte-Fits y v 11 h))

pub two-Within :
    (n : ℕ) (os : List NtX64Operand) (k : NtX64Operand → NtX64Operand → Coded NtX64Instruction)
    → ((a b : NtX64Operand) → Within n (k a b))
    → Within n (two os k)
two-Within n [] k h = refusal
two-Within n (a ∷ []) k h = refusal
two-Within n (a ∷ b ∷ []) k h = h a b
two-Within n (a ∷ b ∷ c ∷ os) k h = refusal

pub one-Within :
    (n : ℕ) (os : List NtX64Operand) (k : NtX64Operand → Coded NtX64Instruction)
    → ((a : NtX64Operand) → Within n (k a))
    → Within n (one os k)
one-Within n [] k h = refusal
one-Within n (a ∷ []) k h = h a
one-Within n (a ∷ b ∷ os) k h = refusal

-- What follows a byte, an address or a prefix: a few bytes, then at most eight.
pub little-room : (x : NtX64Instruction) (v k : ℕ) → k ≤ 8 → Fits 7 x → Fits 15 (little x v k)
little-room x v k le h = Fits-mono _ (7 + k) 15 (omega arith) (little-Fits x v k 7 h)

pub coded-byte : (x : NtX64Instruction) (v : ℕ) → Fits 0 x → Within 15 (coded (byte x v))
coded-byte x v h = within (Fits-mono _ 1 15 (omega arith) (byte-Fits x v 0 h))

pub coded-byte-byte_if :
    (b : Bool) (x : NtX64Instruction) (u v : ℕ)
    → Fits 0 x
    → Within 15 (coded (byte (if b then byte x u else x) v))
coded-byte-byte_if b x u v h =
    within (Fits-mono _ 2 15 (omega arith) (byte-Fits _ v 1 (byte_if-Fits b x u 0 h)))

pub coded-byte-byte :
    (x : NtX64Instruction) (u v : ℕ) → Fits 0 x → Within 15 (coded (byte (byte x u) v))
coded-byte-byte x u v h =
    within (Fits-mono _ 2 15 (omega arith) (byte-Fits _ v 1 (byte-Fits x u 0 h)))

pub coded-control :
    (b : Bool) (x : NtX64Instruction) (t u v w : ℕ)
    → Fits 0 x
    → Within 15 (coded (byte (byte (byte (if b then byte x t else x) u) v) w))
coded-control b x t u v w h = within (
    Fits-mono _ 4 15 (omega arith)
      (byte-Fits _ w 3 (byte-Fits _ v 2 (byte-Fits _ u 1 (byte_if-Fits b x t 0 h)))))

-- Behind a prefix of at most one byte.
pub behind-byte : (y : NtX64Instruction) (v : ℕ) → Fits 1 y → Within 15 (coded (byte y v))
behind-byte y v h = within (Fits-mono _ 2 15 (omega arith) (byte-Fits y v 1 h))

pub behind-byte-byte :
    (y : NtX64Instruction) (u v : ℕ) → Fits 1 y → Within 15 (coded (byte (byte y u) v))
behind-byte-byte y u v h =
    within (Fits-mono _ 3 15 (omega arith) (byte-Fits _ v 2 (byte-Fits y u 1 h)))

pub coded-little-byte :
    (x : NtX64Instruction) (u v : ℕ) → Fits 0 x → Within 15 (coded (little (byte x u) v 4))
coded-little-byte x u v h =
    within (little-room _ v 4 (omega arith) (Fits-mono _ 1 7 (omega arith) (byte-Fits x u 0 h)))

pub coded-little-byte-byte :
    (x : NtX64Instruction) (t u v : ℕ)
    → Fits 0 x
    → Within 15 (coded (little (byte (byte x t) u) v 4))
coded-little-byte-byte x t u v h = within (
    little-room _ v 4 (omega arith)
      (Fits-mono _ 2 7 (omega arith) (byte-Fits _ u 1 (byte-Fits x t 0 h))))

pub prefix-then :
    (x : NtX64Instruction) (width rex : ℕ) (high8 : Bool)
    (f : NtX64Instruction → Coded NtX64Instruction)
    → Fits 0 x
    → ((y : NtX64Instruction) → Fits 3 y → Within 15 (f y))
    → Within 15 (prefix x width rex high8 0 >>= f)
prefix-then x width rex high8 f h k = Within->>= 3 15 _ f (prefix-Within x width rex 0 high8 h) k

-- An opcode and an immediate behind a prefix.
pub prefixed-little :
    (y : NtX64Instruction) (v imm k : ℕ)
    → Fits 3 y
    → k ≤ 8
    → Within 15 (coded (little (byte y v) imm k))
prefixed-little y v imm k h le =
    within (little-room _ imm k le (Fits-mono _ 4 7 (omega arith) (byte-Fits y v 3 h)))

pub prefixed-bytes :
    (y : NtX64Instruction) (u v : ℕ) → Fits 3 y → Within 15 (coded (byte (byte y u) v))
prefixed-bytes y u v h =
    within (Fits-mono _ 5 15 (omega arith) (byte-Fits _ v 4 (byte-Fits y u 3 h)))

-- The sizes of an immediate.
pub immediate_size-le : (w : ℕ) → (if w == 8 then 1 else if w == 16 then 2 else 4) ≤ 4
immediate_size-le w = ground arith

pub compact_size-le : (c : Bool) (w : ℕ) → (if c then 1 else if w == 16 then 2 else 4) ≤ 4
compact_size-le true w = omega arith
compact_size-le false w = ground arith

pub ruleset within_rules = (
  refusal, Within->>, Within-if, modrm-short, modrm-then, address-little, address-byte, two-Within,
  one-Within, arith, prefix-then, prefixed-little, prefixed-bytes, immediate_size-le,
  compact_size-le, coded-control, behind-byte, behind-byte-byte, coded-byte, coded-byte-byte_if,
  coded-byte-byte, coded-little-byte, coded-little-byte-byte,
)
