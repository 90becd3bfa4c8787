-- ===== src/X64/Length/Moves.antt =====
-- The length of the moves of bootstrap/quarantine/c/x64.c.
use nexoragenesis_toolchain.Base.{
  ◌/◌, ◌≤◌, ◌≡◌, inl, inr, Bool, true, ◌==◌, if◌then◌else◌, arith, Bool-cases, String, List,
}
use nexoragenesis_toolchain.X64.{
  NtX64Operand, NtX64Instruction, NtX64Context, coded, scalar_width, operand_valid, register_valid,
  long_mode, is, is_reg, is_mem,
}
use nexoragenesis_toolchain.X64.Length.{
  Fits, Within, refusal, Within->>, Within->>-ok, Within-if-true, Within-if, within_rules,
  two-Within,
}
use nexoragenesis_toolchain.X64.Moves.{
  move_to_memory, move_immediate, move_to_register, lea, move, push_immediate, push_register,
  push_pop, exchange, extend,
}

lea-Within :
    (x : NtX64Instruction) (a : NtX64Operand) (b : NtX64Operand) → Fits 0 x → Within 15 (lea x a b)
unfolding lea
lea-Within x a b h = search within_rules depth 16 fits 3000

pub exchange-Within :
    (n : String) (os : List NtX64Operand) (ctx : NtX64Context) (x : NtX64Instruction)
    → Fits 0 x
    → Within 15 (exchange n os ctx x)
unfolding exchange
exchange-Within n os ctx x h = search within_rules depth 16 fits 3000

pub extend-Within :
    (n : String) (os : List NtX64Operand) (ctx : NtX64Context) (x : NtX64Instruction)
    → Fits 0 x
    → Within 15 (extend n os ctx x)
unfolding extend
extend-Within n os ctx x h = search within_rules depth 16 fits 3000

push_immediate-Within :
    (x : NtX64Instruction) (a : NtX64Operand) → Fits 0 x → Within 15 (push_immediate x a)
unfolding push_immediate
push_immediate-Within x a h = search within_rules depth 16 fits 3000

push_register-Within :
    (pushing : Bool) (x : NtX64Instruction) (a : NtX64Operand)
    → Fits 0 x
    → Within 15 (push_register pushing x a)
unfolding push_register
push_register-Within pushing x a h = search within_rules depth 16 fits 3000

pub push_pop-Within :
    (n : String) (os : List NtX64Operand) (ctx : NtX64Context) (x : NtX64Instruction)
    → Fits 0 x
    → Within 15 (push_pop n os ctx x)
unfolding push_pop
push_pop-Within n os ctx x h =
    search (within_rules, push_immediate-Within, push_register-Within) depth 16 fits 3000

move_to_memory-Within :
    (x : NtX64Instruction) (a b : NtX64Operand) → Fits 0 x → Within 15 (move_to_memory x a b)
unfolding move_to_memory scalar_width
move_to_memory-Within x a b h = elim (Bool-cases (scalar_width a.width)) [
  | inr bad ↦ rw (bad, move_to_memory) refusal
  | inl good ↦
      let size : (if a.width == 64 then 4 else a.width / 8) ≤ 4 = ground arith in
      search (within_rules, size) depth 16 fits 3000
]

move_immediate-Within :
    (x : NtX64Instruction) (a b : NtX64Operand)
    → scalar_width a.width ≡ true
    → Fits 0 x
    → Within 15 (move_immediate x a b)
unfolding move_immediate scalar_width
move_immediate-Within x a b good h =
    let size : a.width / 8 ≤ 8 = ground arith in search (within_rules, size) depth 16 fits 3000

move_to_register-Within :
    (x : NtX64Instruction) (a b : NtX64Operand)
    → scalar_width a.width ≡ true
    → Fits 0 x
    → Within 15 (move_to_register x a b)
unfolding move_to_register
move_to_register-Within x a b good h =
    search (within_rules, move_immediate-Within) depth 16 fits 3000

register_width :
    (a : NtX64Operand) → is_reg a ≡ true → operand_valid a ≡ coded tt → scalar_width a.width ≡ true
unfolding operand_valid register_valid
register_width a r v = ground arith

pub move-Within :
    (n : String) (os : List NtX64Operand) (ctx : NtX64Context) (x : NtX64Instruction)
    → Fits 0 x
    → Within 15 (move n os ctx x)
unfolding move
move-Within n os ctx x h = two-Within 15 os _ λ a b. Within->> 15 (long_mode ctx) _ (
    Within->>-ok 15 (operand_valid a) _ (λ valid. Within->> 15 (operand_valid b) _ (
      Within->> 15 _ _ (
        Within->> 15 _ _ (
          Within-if 15 (is n "lea") _ _ (lea-Within x a b h) (
            Within-if 15 (is_mem a) _ _ (move_to_memory-Within x a b h) (
              Within-if-true 15 (is_reg a) _ _
                (λ r. move_to_register-Within x a b (register_width a r valid) h) refusal)))))))
