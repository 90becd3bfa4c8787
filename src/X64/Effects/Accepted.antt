-- ===== src/X64/Effects/Accepted.antt =====
-- Which instructions `nt_x64_effects` of bootstrap/quarantine/c/x64.c takes.
use text.Mathlib.TextEquality.{eq_iff}
use nexoragenesis_toolchain.Base.{
  ◌≢◌, ap, ℕ, ◌≡◌, ◌⊎◌, inl, inr, refl, sym, subst, Bool, true, false, ◌&&◌, ◌!=◌, ltb, length,
  arith, Option, none, some, String, List, [], ◌∷◌, All, Option-cases, Bool-cases, get_or,
}
use nexoragenesis_toolchain.Object.{Table, items, count, is_null}
use nexoragenesis_toolchain.X64.{
  NtX64Operand, NtX64Instruction, NtX64Context, NtX64Error, Coded, coded, refused, ◌>>◌, is,
  position, x64_unknown, x64_count, x64_privilege, x64_argument, refuse_if, Coded-cases, is_imm,
}
use nexoragenesis_toolchain.X64.Encode.{
  any_of, variable, encode, encode_named, no_bytes, Fixed, fixed, find_fixed,
}
use nexoragenesis_toolchain.X64.Arithmetic.{group_names}
use nexoragenesis_toolchain.X64.Control.{jump_names}
use nexoragenesis_toolchain.X64.Bits.{set_names, move_if_names, bit_names}
use nexoragenesis_toolchain.X64.System.{descriptor_names}
use nexoragenesis_toolchain.X64.Effects.{
  NtX64Effects, member, own_effects, system_effects, effects_named, effects, common_effects,
  no_operand, derived_effects, rotates, reported_effects, shift_amount,
}

-- The names that `variable` tests for, in its order.
abbrev variable_names : List (List String)
variable_names =
    ("mov" ∷ "load" ∷ "store" ∷ "lea" ∷ [])
    ∷ group_names
    ∷ ("test" ∷ [])
    ∷ ("inc" ∷ "dec" ∷ "not" ∷ "neg" ∷ [])
    ∷ ("shl" ∷ "shr" ∷ "sar" ∷ "rol" ∷ "ror" ∷ [])
    ∷ ("imul" ∷ [])
    ∷ ("mul" ∷ "div" ∷ "idiv" ∷ [])
    ∷ ("push" ∷ "pop" ∷ [])
    ∷ ("call" ∷ "jmp" ∷ [])
    ∷ jump_names
    ∷ ("read_cr" ∷ "write_cr" ∷ [])
    ∷ ("movzx" ∷ "movsx" ∷ "movsxd" ∷ [])
    ∷ set_names
    ∷ move_if_names
    ∷ ("bswap" ∷ [])
    ∷ bit_names
    ∷ ("bsf" ∷ "bsr" ∷ [])
    ∷ ("xchg" ∷ [])
    ∷ descriptor_names
    ∷ ("ltr" ∷ [])
    ∷ ("invlpg" ∷ [])
    ∷ ("in" ∷ "out" ∷ [])
    ∷ []

abbrev fixed_names : List Fixed → List String
fixed_names [] = []
fixed_names (f ∷ fs) = f.name ∷ fixed_names fs

abbrev encoder_names : List (List String)
encoder_names = fixed_names fixed ∷ variable_names

-- Whether each name of the lists, or each name of a list, has effects.
abbrev is_some {ℓ} : {A : Type ℓ} → Option A → Bool
is_some none = false
is_some (some a) = true

module _ (k amount : ℕ) (a b : NtX64Operand) (e : NtX64Effects) where
  abbrev all_known : List String → Bool
  all_known [] = true
  all_known (m ∷ ms) = is_some (own_effects m k amount a b e) && all_known ms

  abbrev groups_known : List (List String) → Bool
  groups_known [] = true
  groups_known (ms ∷ groups) = all_known ms && groups_known groups

  encoder_names_known : groups_known encoder_names ≡ true
  unfolding own_effects system_effects member any_of position is
  encoder_names_known = refl

  &&-both : (c d : Bool) → (c && d) ≡ true → (c ≡ true) × (d ≡ true)
  &&-both true d h = (refl, h)
  &&-both false d h = cc

  -- A name of a list of known names has effects.
  all_known-any_of :
      (n : String) (ms : List String)
      → all_known ms ≡ true
      → any_of n ms ≡ true
      → is_some (own_effects n k amount a b e) ≡ true
  unfolding any_of position is
  all_known-any_of n [] h t = cc
  all_known-any_of n (m ∷ ms) h t =
      let (first, others) = &&-both _ _ h in
      elim (Bool-cases (is n m)) [
        | inl same ↦
            subst (λ m. is_some (own_effects m k amount a b e) ≡ true) (sym ((eq_iff n m).0 same))
              first
        | inr other ↦ all_known-any_of n ms others (ground arith)
      ]

  known_or_absent :
      (n : String) (groups : List (List String))
      → groups_known groups ≡ true
      → (is_some (own_effects n k amount a b e) ≡ true) ⊎ All (λ ms. any_of n ms ≡ false) groups
  known_or_absent n [] h = inr tt
  known_or_absent n (ms ∷ groups) h =
      let (first, others) = &&-both _ _ h in
      elim (Bool-cases (any_of n ms)) [
        | inl t ↦ inl (all_known-any_of n ms first t)
        | inr f ↦ elim (known_or_absent n groups others) [
          | inl t ↦ inl t
          | inr absent ↦ inr (f, absent)
        ]
      ]

-- A name that no list has is unknown to the encoder.
module _ (n : String) where
  any_of-one : (m : String) → any_of n (m ∷ []) ≡ is n m
  unfolding any_of position
  any_of-one m = elim (Bool-cases (is n m)) [ inl e ↦ rw e refl | inr e ↦ rw e refl ]

  find_fixed-absent : (fs : List Fixed) → any_of n (fixed_names fs) ≡ false → find_fixed n fs ≡ none
  unfolding any_of position find_fixed
  find_fixed-absent [] h = refl
  find_fixed-absent (f ∷ fs) h = ground (arith, find_fixed-absent fs)

  variable-unknown :
      (answer : Bool) (os : List NtX64Operand) (ctx : NtX64Context) (x : NtX64Instruction)
      → All (λ ms. any_of n ms ≡ false) variable_names
      → variable answer n os ctx x ≡ refused x64_unknown
  unfolding variable
  variable-unknown answer os ctx x h =
      let (h0, (h1, (h2, (h3, (h4, (h5, (h6, (h7, (h8, (h9, (h10, later))))))))))) = h in
      let (h11, (h12, (h13, (h14, (h15, (h16, (h17, (h18, (h19, (h20, (h21, rest))))))))))) =
        later in
      let one = any_of-one in
      rw
        (
          h0,
          h1,
          ← one "test",
          h2,
          h3,
          h4,
          ← one "imul",
          h5,
          h6,
          h7,
          h8,
          h9,
          h10,
          h11,
          h12,
          h13,
          ← one "bswap",
          h14,
          h15,
          h16,
          ← one "xchg",
          h17,
          h18,
          ← one "ltr",
          h19,
          ← one "invlpg",
          h20,
          h21,
        )
        refl

  -- What the encoder takes has effects.
  encode_named-known :
      (answer : Bool) (os : List NtX64Operand) (ctx : NtX64Context) (x : NtX64Instruction)
      (k amount : ℕ) (a b : NtX64Operand) (e : NtX64Effects)
      → encode_named answer n os ctx ≡ coded x
      → is_some (own_effects n k amount a b e) ≡ true
  unfolding encode_named
  encode_named-known answer os ctx x k amount a b e h =
      elim (known_or_absent k amount a b e n encoder_names (encoder_names_known k amount a b e)) [
        | inl t ↦ t
        | inr (f, v) ↦
            let absent = find_fixed-absent fixed f in
            let unknown = variable-unknown answer os ctx no_bytes v in absurd (cc)
      ]

-- The outcomes of the encoder and of the effects: both a value, or both the same error.
abbrev pub Agree : Coded NtX64Instruction → Option (Coded NtX64Effects) → Type 0
Agree (coded x) m = (e : NtX64Effects) × (m ≡ some (coded e))
Agree (refused why) m = m ≡ some (refused why)

reported_effects-coded :
    (m : Option NtX64Effects)
    → is_some m ≡ true
    → (e : NtX64Effects) × (reported_effects m ≡ coded e)
unfolding reported_effects
reported_effects-coded none h = cc
reported_effects-coded (some e) h = (derived_effects e, refl)

rotation : (n : String) → rotates n ≡ true → (n ≡ "rol") ⊎ (n ≡ "ror")
unfolding member any_of position is
rotation n h = elim (Bool-cases (is n "rol")) [
  | inl e ↦ inl ((eq_iff n "rol").0 e)
  | inr e ↦ inr ((eq_iff n "ror").0 (ground arith))
]

-- The amount of a shift is defined, unless it is a rotation of a destination of width 0 by an immediate.
shift_amount-defined :
    (n : String) (a b : NtX64Operand)
    → ((n ≡ "rol") ⊎ (n ≡ "ror") → is_imm b ≡ true → a.width ≢ 0)
    → (amount : ℕ) × (shift_amount n a b ≡ some amount)
unfolding shift_amount
shift_amount-defined n a b h = elim (Option-cases (shift_amount n a b)) [
  | inr found ↦ found
  | inl e ↦ absurd (h (rotation n (ground arith)) (ground arith) (ground arith))
]

refuse_if-coded {ℓ} :
    {A : Type ℓ} (b : Bool) (why : NtX64Error) (next : Coded A) {x : A}
    → (refuse_if b why >> next) ≡ coded x
    → next ≡ coded x
refuse_if-coded true why next h = cc
refuse_if-coded false why next h = h

encode-named :
    (answer : Bool) (n : String) (operands : Table NtX64Operand) (ctx : NtX64Context)
    (x : NtX64Instruction)
    → encode answer (some n) operands ctx true ≡ coded x
    → encode_named answer n (items operands) ctx ≡ coded x
unfolding encode
encode-named answer n operands ctx x h =
    let bound = refuse_if-coded ((count operands != 0) && is_null operands) x64_argument _ h in
    refuse_if-coded (ltb 3 ctx.cpl) x64_privilege _
      (refuse_if-coded (ltb 3 (count operands)) x64_count _ bound)

encode-none :
    (answer : Bool) (operands : Table NtX64Operand) (ctx : NtX64Context) (x : NtX64Instruction)
    → encode answer none operands ctx true ≡ coded x
    → ⊥
unfolding encode
encode-none answer operands ctx x h = cc

effects_named-coded :
    (answer : Bool) (n : String) (operands : Table NtX64Operand) (context : NtX64Context)
    (x : NtX64Instruction)
    → ((n ≡ "rol") ⊎ (n ≡ "ror")
        → is_imm (get_or (items operands) 1 no_operand) ≡ true
        → (get_or (items operands) 0 no_operand).width ≢ 0)
    → encode answer (some n) operands context true ≡ coded x
    → (e : NtX64Effects) × (effects_named n (items operands) ≡ some (coded e))
unfolding effects_named
effects_named-coded answer n operands context x h coded_x =
    let os = items operands in
    let (amount, found) =
      shift_amount-defined n (get_or os 0 no_operand) (get_or os 1 no_operand) h in
    let (e, same) = reported_effects-coded _ (
      encode_named-known n answer os context x (length os) amount (get_or os 0 no_operand)
        (get_or os 1 no_operand) (common_effects n os)
        (encode-named answer n operands context x coded_x)) in
    (e, rw (found, effects_named) (ap some same))

-- `nt_x64_effects`, with a place for its result, takes exactly what `nt_x64_encode` takes, and else
-- gives the same error; except for a rotation of a destination of width 0 by an immediate. The undefined
-- shift of `test_immediate` may give either answer.
pub effects-Agree :
    (answer : Bool) (n : Option String) (operands : Table NtX64Operand) (context : NtX64Context)
    → ((n ≡ some "rol") ⊎ (n ≡ some "ror")
        → is_imm (get_or (items operands) 1 no_operand) ≡ true
        → (get_or (items operands) 0 no_operand).width ≢ 0)
    → Agree (encode answer n operands context true) (effects answer n operands context true)
unfolding effects
effects-Agree answer none operands context h =
    elim (Coded-cases (encode answer none operands context true)) [
      | inl (x, e) ↦ absurd (encode-none answer operands context x e)
      | inr (why, e) ↦ rw (e, effects) refl
    ]
effects-Agree answer (some n) operands context h =
    elim (Coded-cases (encode answer (some n) operands context true)) [
      | inl (x, e) ↦
          rw (e, effects) (effects_named-coded answer n operands context x (λ r. h (named r)) e)
      | inr (why, e) ↦ rw (e, effects) refl
    ]
  where
    named : (n ≡ "rol") ⊎ (n ≡ "ror") → (some n ≡ some "rol") ⊎ (some n ≡ some "ror")
    named (inl r) = inl (ap some r)
    named (inr r) = inr (ap some r)
