-- ===== src/X64/Length/Encoded.antt =====
-- The length of what `nt_x64_encode` of bootstrap/quarantine/c/x64.c codes.
use nexoragenesis_toolchain.Base.{
  ℕ, ◌≤◌, ◌≡◌, Bool, length, arith, Option, none, some, String, List, [], ◌∷◌, All, Option-cases,
  inl, inr,
}
use nexoragenesis_toolchain.Object.{Table}
use nexoragenesis_toolchain.Memory.{le_bytes}
use nexoragenesis_toolchain.Memory.Laws.{length-le_bytes}
use nexoragenesis_toolchain.X64.{NtX64Operand, NtX64Instruction, NtX64Context}
use nexoragenesis_toolchain.X64.Encode.{
  variable, encode, encode_named, no_bytes, Fixed, fixed, fixed_code, find_fixed,
}
use nexoragenesis_toolchain.X64.Length.{Fits, Within, within, refusal, Within->>, Within-if}
use nexoragenesis_toolchain.X64.Length.Moves.{
  move-Within, push_pop-Within, exchange-Within, extend-Within,
}
use nexoragenesis_toolchain.X64.Length.Arithmetic.{
  group_code-Within, test_code-Within, unary-Within, shift-Within, imul-Within, multiply-Within,
  bswap-Within,
}
use nexoragenesis_toolchain.X64.Length.Others.{
  transfer-Within, jump_if-Within, set_if-Within, move_if-Within, bit_code-Within, bit_scan-Within,
  control_register-Within, descriptor_table-Within, ltr-Within, invlpg-Within, port-Within,
}

ruleset group_rules = (
  move-Within, push_pop-Within, exchange-Within, extend-Within, group_code-Within, test_code-Within,
  unary-Within, shift-Within, imul-Within, multiply-Within, bswap-Within, transfer-Within,
  jump_if-Within, set_if-Within, move_if-Within, bit_code-Within, bit_scan-Within,
  control_register-Within, descriptor_table-Within, ltr-Within, invlpg-Within, port-Within,
)

variable-Within :
    (answer : Bool) (n : String) (os : List NtX64Operand) (ctx : NtX64Context)
    (x : NtX64Instruction)
    → Fits 0 x
    → Within 15 (variable answer n os ctx x)
unfolding variable
variable-Within answer n os ctx x h = search (group_rules, Within-if, refusal) depth 30 fits 3000

-- The entries of the table have at most three bytes.
fixed_short : All (λ f. f.length_ ≤ 3) fixed
fixed_short = omega arith

fixed_code-Within :
    (f : Fixed) (k : ℕ) (ctx : NtX64Context) → f.length_ ≤ 3 → Within 15 (fixed_code f k ctx)
unfolding fixed_code
fixed_code-Within f k ctx h =
    let l = length-le_bytes f.length_ f.code in
    let short : Fits 15 (record no_bytes { bytes = le_bytes f.length_ f.code }) = record {
      short = omega (arith, l);
      displaced = omega arith;
    } in
    search (Within->>, within, short)

find_fixed-All :
    (n : String) (fs : List Fixed) (f : Fixed)
    → All (λ g. g.length_ ≤ 3) fs
    → find_fixed n fs ≡ some f
    → f.length_ ≤ 3
unfolding find_fixed
find_fixed-All n [] f h e = cc
find_fixed-All n (g ∷ gs) f h e = ground (arith, find_fixed-All n gs f h.1)

encode_named-Within :
    (answer : Bool) (n : String) (os : List NtX64Operand) (ctx : NtX64Context)
    → Within 15 (encode_named answer n os ctx)
unfolding encode_named
encode_named-Within answer n os ctx = elim (Option-cases (find_fixed n fixed)) [
  | inl e ↦
      rw (e, encode_named)
        (variable-Within answer n os ctx no_bytes
          (record { short = omega arith; displaced = omega arith }))
  | inr (f, e) ↦
      rw (e, encode_named)
        (fixed_code-Within f (length os) ctx (find_fixed-All n fixed f fixed_short e))
]

-- What `nt_x64_encode` codes has at most 15 bytes, the size of `bytes`, and the displacement that it
-- notes lies among them; whatever the mnemonic, the operands, the context and `answer` are.
pub encode-Within :
    (answer : Bool) (n : Option String) (operands : Table NtX64Operand) (context : NtX64Context)
    (out : Bool)
    → Within 15 (encode answer n operands context out)
unfolding encode
encode-Within answer none operands context out = refusal
encode-Within answer (some n) operands context out = search (Within->>, encode_named-Within)
