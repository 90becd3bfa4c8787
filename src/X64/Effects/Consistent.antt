-- ===== src/X64/Effects/Consistent.antt =====
-- The flags that `nt_x64_effects` of bootstrap/quarantine/c/x64.c reports.
use nexoragenesis_toolchain.Base.{
  Option-cases, inl, inr, ℕ, ◌^◌, ◌≡◌, refl, ◌∙◌, Bool, true, false, not, ◌==◌, ◌!=◌, if◌then◌else◌,
  bit_or, Option, none, some, length, get_or, String, List, [], ◌∷◌,
}
use nexoragenesis_toolchain.Object.{Table, items}
use nexoragenesis_toolchain.X64.{
  NtX64Operand, NtX64Context, Coded, coded, refused, is, refuse_if, x64_argument, ◌>>◌, Coded-cases,
}
use nexoragenesis_toolchain.X64.Encode.{encode}
use nexoragenesis_toolchain.X64.Effects.{
  NtX64Effects, member, read_operand, write_operand, common_effects, imul_effects, jump_effects,
  bit_effects, model_register_effects, control_register_effects, descriptor_effects, port_effects,
  system_effects, own_effects, derived_effects, effects_named, effects, reported_effects,
  shift_amount, reads, writes, effect_control, effect_io_port, no_operand, effect_changes_flags,
  effect_privileged, flag_zf, without, flags_arith,
}
use nexoragenesis_toolchain.X64.Effects.Flags.{
  IsConsistent, HasFlags, IsFresh, consistent, if-HasFlags, if-IsFresh, if-IsConsistent,
  read_operand-IsFresh, write_operand-IsFresh, common_effects-IsFresh, both_operands,
  group_effects-IsConsistent, fresh, unary_effects-IsConsistent, shift_effects-IsConsistent,
  multiply_effects-IsConsistent, stack_effects-IsConsistent, exchange_effects-IsConsistent,
}

-- What a chain of tests reports, if anything, is consistent.
abbrev EachOf : Option NtX64Effects → Type 0
EachOf none = Unit
EachOf (some e) = IsConsistent e

record Each (m : Option NtX64Effects) : Type 0 where
  reported : EachOf m

gives : (e : NtX64Effects) → IsConsistent e → Each (some e)
gives e h = record { reported = h }

nothing : Each none
nothing = record { reported = tt }

if-Each : (b : Bool) (d e : Option NtX64Effects) → Each d → Each e → Each (if b then d else e)
if-Each true d e p q = p
if-Each false d e p q = q

control_register_effects-IsConsistent :
    (n : String) (a b : NtX64Operand) (e : NtX64Effects)
    → IsFresh e
    → IsConsistent (control_register_effects n a b e)
unfolding control_register_effects
control_register_effects-IsConsistent n a b e f =
    let e1 = record e { effects_ = effect_control; max_cpl = 0 } in
    let f1 : IsFresh e1 = record { written = f.written; undefined = f.undefined } in
    fresh _ (
      if-IsFresh (is n "read_cr") _ _ (write_operand-IsFresh e1 a f1)
        (read_operand-IsFresh e1 b f1))

descriptor_effects-IsConsistent :
    (n : String) (a : NtX64Operand) (e : NtX64Effects)
    → IsFresh e
    → IsConsistent (descriptor_effects n a e)
unfolding descriptor_effects
descriptor_effects-IsConsistent n a e f =
    let e1 = record e { effects_ = effect_control; max_cpl = 0 } in
    let f1 : IsFresh e1 = record { written = f.written; undefined = f.undefined } in
    fresh _ (
      if-IsFresh (member n ("sgdt" ∷ "sidt" ∷ [])) _ _ (write_operand-IsFresh e1 a f1)
        (if-IsFresh (not (is n "invlpg")) _ _ (read_operand-IsFresh e1 a f1) f1))

port_effects-IsConsistent :
    (n : String) (a b : NtX64Operand) (e : NtX64Effects)
    → IsFresh e
    → IsConsistent (port_effects n a b e)
unfolding port_effects
port_effects-IsConsistent n a b e f =
    let e1 = record e { effects_ = effect_io_port; max_cpl = 0 } in
    let f1 : IsFresh e1 = record { written = f.written; undefined = f.undefined } in
    fresh _ (
      if-IsFresh (is n "in") _ _ (read_operand-IsFresh _ b (write_operand-IsFresh e1 a f1))
        (both_operands a b e1 f1))

undefined_none :
    (d e : NtX64Effects)
    → IsFresh e
    → d.flags_written ≡ 2261
    → d.flags_undefined ≡ e.flags_undefined
    → IsConsistent d
undefined_none d e f w u =
    consistent 2261 0 d refl (record { written = w; undefined = u ∙ f.undefined })

same_flags :
    (d e : NtX64Effects)
    → IsFresh e
    → d.flags_written ≡ e.flags_written
    → d.flags_undefined ≡ e.flags_undefined
    → IsFresh d
same_flags d e f w u = record { written = w ∙ f.written; undefined = u ∙ f.undefined }

system_effects-Each :
    (n : String) (a b : NtX64Operand) (e : NtX64Effects) → IsFresh e → Each (system_effects n a b e)
unfolding system_effects model_register_effects
system_effects-Each n a b e f =
    let known : (d : NtX64Effects)
        → d.flags_written ≡ e.flags_written
        → d.flags_undefined ≡ e.flags_undefined
        → IsConsistent d =
      λ d w u. fresh d (same_flags d e f w u) in
    let all : (d : NtX64Effects)
        → d.flags_written ≡ 2261
        → d.flags_undefined ≡ e.flags_undefined
        → IsConsistent d =
      λ d w u. undefined_none d e f w u in
    search
      (
        if-Each, nothing, gives, if-IsConsistent, known, all, control_register_effects-IsConsistent,
        descriptor_effects-IsConsistent, port_effects-IsConsistent,
      )
      depth 40 fits 3000

jump_effects-IsConsistent :
    (n : String) (a : NtX64Operand) (e : NtX64Effects)
    → IsFresh e
    → IsConsistent (jump_effects n a e)
unfolding jump_effects
jump_effects-IsConsistent n a e f =
    let f1 = read_operand-IsFresh e a f in
    if-IsConsistent (is n "jmp") _ _ (fresh (read_operand e a) f1) (fresh (read_operand e a) f1)

imul_effects-IsConsistent :
    (k : ℕ) (a b : NtX64Operand) (e : NtX64Effects)
    → IsFresh e
    → IsConsistent (imul_effects k a b e)
unfolding imul_effects
imul_effects-IsConsistent k a b e f = refl

bit_effects-IsConsistent :
    (n : String) (a b : NtX64Operand) (e : NtX64Effects)
    → IsFresh e
    → IsConsistent (bit_effects n a b e)
unfolding bit_effects
bit_effects-IsConsistent n a b e f = refl

move-IsConsistent :
    (a b : NtX64Operand) (e : NtX64Effects)
    → IsFresh e
    → IsConsistent (write_operand (read_operand e b) a)
move-IsConsistent a b e f = fresh _ (write_operand-IsFresh _ a (read_operand-IsFresh e b f))

address-IsConsistent :
    (a : NtX64Operand) (e : NtX64Effects) → IsFresh e → IsConsistent (write_operand e a)
address-IsConsistent a e f = fresh _ (write_operand-IsFresh e a f)

widen-IsConsistent : (w : ℕ) (e : NtX64Effects) → IsFresh e → IsConsistent (writes (reads e 1) w)
widen-IsConsistent w e f = let d = writes (reads e 1) w in fresh d (same_flags d e f refl refl)

set-IsConsistent :
    (w : ℕ) (a : NtX64Operand) (e : NtX64Effects)
    → IsFresh e
    → IsConsistent (write_operand (record e { flags_read = w }) a)
set-IsConsistent w a e f = fresh _ (write_operand-IsFresh _ a (same_flags _ e f refl refl))

cmov-IsConsistent :
    (w : ℕ) (a b : NtX64Operand) (e : NtX64Effects)
    → IsFresh e
    → IsConsistent
        (record (write_operand (read_operand (read_operand (record e { flags_read = w }) a) b) a) {
          conditional = 1;
        })
cmov-IsConsistent w a b e f =
    let e1 = record e { flags_read = w } in
    let f1 = write_operand-IsFresh _ a (both_operands a b e1 (same_flags e1 e f refl refl)) in
    let d = write_operand (read_operand (read_operand e1 a) b) a in
    let moved = record d { conditional = 1 } in fresh moved (same_flags moved d f1 refl refl)

scan-IsConsistent :
    (a b : NtX64Operand) (e : NtX64Effects)
    → IsConsistent (record (write_operand (read_operand e b) a) {
      flags_written = flag_zf;
      flags_undefined = without flags_arith flag_zf;
      destination_requires_nonzero = 1;
    })
scan-IsConsistent a b e = refl

own_effects-Each :
    (n : String) (k amount : ℕ) (a b : NtX64Operand) (e : NtX64Effects)
    → IsFresh e
    → Each (own_effects n k amount a b e)
unfolding own_effects
own_effects-Each n k amount a b e f =
    search
      (
        if-Each, gives, move-IsConsistent, address-IsConsistent, group_effects-IsConsistent,
        unary_effects-IsConsistent, shift_effects-IsConsistent, imul_effects-IsConsistent,
        multiply_effects-IsConsistent, widen-IsConsistent, stack_effects-IsConsistent,
        jump_effects-IsConsistent, set-IsConsistent, cmov-IsConsistent, bit_effects-IsConsistent,
        exchange_effects-IsConsistent, system_effects-Each,
      )
      depth 40 fits 3000

-- What follows from the flags changes none of them.
derived_effects-IsConsistent :
    (e : NtX64Effects) → IsConsistent e → IsConsistent (derived_effects e)
unfolding derived_effects
derived_effects-IsConsistent e h =
    let w = e.flags_written in
    let u = e.flags_undefined in
    let f0 : HasFlags w u e = record { written = refl; undefined = refl } in
    let e1 = if e.flags_read != 0 then reads e (2 ^ 17) else e in
    let f1 =
      if-HasFlags w u (e.flags_read != 0) (reads e (2 ^ 17)) e
        (record { written = f0.written; undefined = f0.undefined }) f0 in
    let d2 = record (writes e1 (2 ^ 17)) { effects_ = bit_or e1.effects_ effect_changes_flags } in
    let changed = bit_or e1.flags_written e1.flags_undefined != 0 in
    let e2 = if changed then d2 else e1 in
    let f2 =
      if-HasFlags w u changed d2 e1 (record { written = f1.written; undefined = f1.undefined })
        f1 in
    let f3 =
      if-HasFlags w u (e2.max_cpl == 0)
        (record e2 { effects_ = bit_or e2.effects_ effect_privileged }) e2
        (record { written = f2.written; undefined = f2.undefined }) f2 in
    consistent w u (derived_effects e) h f3

-- What is reported, if anything, has no flag both as written and as undefined.
abbrev pub Consistent : Option (Coded NtX64Effects) → Type 0
Consistent none = Unit
Consistent (some (refused why)) = Unit
Consistent (some (coded e)) = IsConsistent e

reported_effects-Consistent :
    (m : Option NtX64Effects) → Each m → Consistent (some (reported_effects m))
unfolding reported_effects
reported_effects-Consistent none h = tt
reported_effects-Consistent (some d) h = derived_effects-IsConsistent d h.reported

effects_named-Consistent : (n : String) (os : List NtX64Operand) → Consistent (effects_named n os)
unfolding effects_named
effects_named-Consistent n os =
    let a = get_or os 0 no_operand in
    let b = get_or os 1 no_operand in
    elim (Option-cases (shift_amount n a b)) [
      | inl e ↦ rw (e, effects_named) tt
      | inr (amount, e) ↦
          rw (e, effects_named)
            (reported_effects-Consistent _ (
              own_effects-Each n (length os) amount a b (common_effects n os)
                (common_effects-IsFresh n os)))
    ]

-- Of each flag `nt_x64_effects` says one thing: where it takes an instruction, no flag is reported both as
-- written and as undefined. The undefined shift of `test_immediate` may give either answer.
pub effects-Consistent :
    (answer : Bool) (n : Option String) (operands : Table NtX64Operand) (context : NtX64Context)
    (out : Bool)
    → Consistent (effects answer n operands context out)
unfolding effects
effects-Consistent answer none operands context out =
    elim (Coded-cases
      (refuse_if (not out) x64_argument >> encode answer none operands context true)) [
        | inl (x, e) ↦ rw (e, effects) tt
        | inr (why, e) ↦ rw (e, effects) tt
      ]
effects-Consistent answer (some n) operands context out =
    elim (Coded-cases
      (refuse_if (not out) x64_argument >> encode answer (some n) operands context true)) [
        | inl (x, e) ↦ rw (e, effects) (effects_named-Consistent n (items operands))
        | inr (why, e) ↦ rw (e, effects) tt
      ]
