-- ===== src/X64/Effects/Flags.antt =====
-- The flags that the groups of `nt_x64_effects` in bootstrap/quarantine/c/x64.c report.
use nexoragenesis_toolchain.Base.{
  ℕ, ◌≡◌, refl, inl, inr, Bool, true, false, ◌||◌, not, ◌==◌, ◌!=◌, ltb, if◌then◌else◌, bit_and,
  String, List, [], ◌∷◌, Bool-cases,
}
use nexoragenesis_toolchain.Base.Int.{ℤ, pos, negsuc}
use nexoragenesis_toolchain.X64.{NtX64Operand, is, is_reg, is_mem}
use nexoragenesis_toolchain.X64.Encode.{Fixed, fixed}
use nexoragenesis_toolchain.X64.Effects.{
  NtX64Effects, member, read_operand, write_operand, fixed_needs, address_reads, common_effects,
  group_effects, unary_effects, shift_flags, shift_effects, multiply_effects, stack_effects,
  exchange_effects, named, rotates, uint_max,
}

-- No flag is reported as both written and undefined.
abbrev pub IsConsistent : NtX64Effects → Type 0
IsConsistent e = bit_and e.flags_written e.flags_undefined ≡ 0

-- The flags that are reported so far.
pub record HasFlags (w u : ℕ) (e : NtX64Effects) : Type 0 where
  pub written : e.flags_written ≡ w
  pub undefined : e.flags_undefined ≡ u

-- None.
abbrev pub IsFresh : NtX64Effects → Type 0
IsFresh = HasFlags 0 0

pub consistent : (w u : ℕ) (e : NtX64Effects) → bit_and w u ≡ 0 → HasFlags w u e → IsConsistent e
consistent w u e h f = rw (f.written, f.undefined) h

pub if-HasFlags :
    (w u : ℕ) (b : Bool) (d e : NtX64Effects)
    → HasFlags w u d
    → HasFlags w u e
    → HasFlags w u (if b then d else e)
if-HasFlags w u true d e p q = p
if-HasFlags w u false d e p q = q

pub if-IsFresh :
    (b : Bool) (d e : NtX64Effects) → IsFresh d → IsFresh e → IsFresh (if b then d else e)
if-IsFresh true d e p q = p
if-IsFresh false d e p q = q

pub if-IsConsistent :
    (b : Bool) (d e : NtX64Effects)
    → IsConsistent d
    → IsConsistent e
    → IsConsistent (if b then d else e)
if-IsConsistent true d e p q = p
if-IsConsistent false d e p q = q

pub read_operand-HasFlags :
    (w u : ℕ) (e : NtX64Effects) (o : NtX64Operand)
    → HasFlags w u e
    → HasFlags w u (read_operand e o)
unfolding read_operand
read_operand-HasFlags w u e o f =
    if-HasFlags w u (is_reg o) _ _ (record { written = f.written; undefined = f.undefined })
      (if-HasFlags w u (is_mem o) _ _ (record { written = f.written; undefined = f.undefined }) f)

pub read_operand-IsFresh :
    (e : NtX64Effects) (o : NtX64Operand) → IsFresh e → IsFresh (read_operand e o)
read_operand-IsFresh e o f = read_operand-HasFlags 0 0 e o f

pub write_operand-IsFresh :
    (e : NtX64Effects) (o : NtX64Operand) → IsFresh e → IsFresh (write_operand e o)
unfolding write_operand
write_operand-IsFresh e o f =
    if-IsFresh (is_reg o) _ _
      (if-IsFresh (ltb o.width 32) _ _ (record { written = f.written; undefined = f.undefined })
        (record { written = f.written; undefined = f.undefined }))
      (if-IsFresh (is_mem o) _ _ (record { written = f.written; undefined = f.undefined }) f)

pub fixed_needs-IsFresh :
    (n : String) (fs : List Fixed) (e : NtX64Effects) → IsFresh e → IsFresh (fixed_needs n fs e)
unfolding fixed_needs
fixed_needs-IsFresh n [] e f = f
fixed_needs-IsFresh n (g ∷ gs) e f =
    fixed_needs-IsFresh n gs _
      (if-IsFresh (is n g.name) _ e (record { written = f.written; undefined = f.undefined }) f)

pub named-IsFresh : (r : ℤ) (e : NtX64Effects) → IsFresh e → IsFresh (named r e)
named-IsFresh (pos r) e f = record { written = f.written; undefined = f.undefined }
named-IsFresh (negsuc r) e f = f

pub address_reads-IsFresh :
    (os : List NtX64Operand) (e : NtX64Effects) → IsFresh e → IsFresh (address_reads os e)
unfolding address_reads
address_reads-IsFresh [] e f = f
address_reads-IsFresh (o ∷ os) e f =
    let f' = named-IsFresh o.index _ (named-IsFresh o.base e f) in
    address_reads-IsFresh os _ (
      if-IsFresh (is_mem o) _ e
        (if-IsFresh (o.segment != 0) _ _ (record { written = f'.written; undefined = f'.undefined })
          f')
        f)

pub common_effects-IsFresh : (n : String) (os : List NtX64Operand) → IsFresh (common_effects n os)
unfolding common_effects
common_effects-IsFresh n os =
    address_reads-IsFresh os _
      (fixed_needs-IsFresh n fixed _ (record { written = refl; undefined = refl }))

-- A result that is fresh but for the flags that it names.
pub both_operands :
    (a b : NtX64Operand) (e : NtX64Effects)
    → IsFresh e
    → IsFresh (read_operand (read_operand e a) b)
both_operands a b e f = read_operand-IsFresh _ b (read_operand-IsFresh e a f)

pub group_effects-IsConsistent :
    (n : String) (a b : NtX64Operand) (e : NtX64Effects)
    → IsFresh e
    → IsConsistent (group_effects n a b e)
unfolding group_effects
group_effects-IsConsistent n a b e f =
    let f1 = both_operands a b e f in
    let f2 = if-IsFresh (member n ("cmp" ∷ "test" ∷ [])) _ _ f1 (write_operand-IsFresh _ a f1) in
    let f4 =
      if-HasFlags 2261 0 (member n ("adc" ∷ "sbb" ∷ [])) _ _
        (record { written = refl; undefined = f2.undefined })
        (record { written = refl; undefined = f2.undefined }) in
    if-IsConsistent (member n ("and" ∷ "or" ∷ "xor" ∷ "test" ∷ [])) _ _ (rw (f4.written) refl)
      (consistent 2261 0 _ refl f4)

pub fresh : (e : NtX64Effects) → IsFresh e → IsConsistent e
fresh e f = consistent 0 0 e refl f

pub unary_effects-IsConsistent :
    (n : String) (a : NtX64Operand) (e : NtX64Effects)
    → IsFresh e
    → IsConsistent (unary_effects n a e)
unfolding unary_effects
unary_effects-IsConsistent n a e f =
    let f1 = write_operand-IsFresh _ a (read_operand-IsFresh e a f) in
    elim (Bool-cases (is n "not")) [
      | inl p ↦ rw p (
          if-IsConsistent (member n ("inc" ∷ "dec" ∷ [])) _ _ (rw (f1.written, f1.undefined) refl)
            (fresh _ f1))
      | inr p ↦ rw p (
          if-IsConsistent (member n ("inc" ∷ "dec" ∷ [])) _ _ (rw f1.undefined refl)
            (rw f1.undefined refl))
    ]

pub shift_flags-IsConsistent :
    (rotate : Bool) (amount width : ℕ) (e : NtX64Effects)
    → IsFresh e
    → IsConsistent (shift_flags rotate amount width e)
unfolding shift_flags
shift_flags-IsConsistent true amount width e f =
    if-IsConsistent (amount == 1) _ _ (rw f.undefined refl) (rw f.undefined refl)
shift_flags-IsConsistent false amount width e f =
    elim (Bool-cases (amount == uint_max || ltb width amount)) [
      | inl p ↦ rw p (if-IsConsistent (amount == 1) _ _ refl refl)
      | inr p ↦ rw p (if-IsConsistent (amount == 1) _ _ refl refl)
    ]

pub shift_effects-IsConsistent :
    (n : String) (amount : ℕ) (a b : NtX64Operand) (e : NtX64Effects)
    → IsFresh e
    → IsConsistent (shift_effects n amount a b e)
unfolding shift_effects
shift_effects-IsConsistent n amount a b e f =
    let f1 = write_operand-IsFresh _ a (both_operands a b e f) in
    if-IsConsistent (amount == uint_max) _ _
      (elim (Bool-cases (rotates n)) [ inl p ↦ rw p refl | inr p ↦ rw p refl ])
      (if-IsConsistent (amount != 0) _ _ (shift_flags-IsConsistent (rotates n) amount a.width _ f1)
        (fresh _ f1))

pub multiply_effects-IsConsistent :
    (n : String) (a : NtX64Operand) (e : NtX64Effects)
    → IsFresh e
    → IsConsistent (multiply_effects n a e)
unfolding multiply_effects
multiply_effects-IsConsistent n a e f =
    let f1 = read_operand-IsFresh e a f in
    if-IsConsistent (not (is n "mul")) _ _ (rw f1.written refl) refl

-- The last two steps of `stack_effects`.
pub stack_end :
    (w : ℕ) (n : String) (a : NtX64Operand) (e : NtX64Effects)
    → HasFlags w 0 e
    → HasFlags w 0 (
        let e7 = if is n "call" then read_operand e a else e in
        if member n ("ret" ∷ "return" ∷ []) then record e7 { terminal = 1 } else e7)
stack_end w n a e f =
    let f7 = if-HasFlags w 0 (is n "call") _ _ (read_operand-HasFlags w 0 e a f) f in
    if-HasFlags w 0 (member n ("ret" ∷ "return" ∷ [])) _ _
      (record { written = f7.written; undefined = f7.undefined }) f7

pub stack_effects-IsConsistent :
    (n : String) (a : NtX64Operand) (e : NtX64Effects)
    → IsFresh e
    → IsConsistent (stack_effects n a e)
unfolding stack_effects
stack_effects-IsConsistent n a e f =
    let f2 =
      if-IsFresh (member n ("push" ∷ "pushfq" ∷ "call" ∷ [])) _ _
        (record { written = f.written; undefined = f.undefined })
        (record { written = f.written; undefined = f.undefined }) in
    let f3 = if-IsFresh (is n "push") _ _ (read_operand-IsFresh _ a f2) f2 in
    let f4 = if-IsFresh (is n "pop") _ _ (write_operand-IsFresh _ a f3) f3 in
    let f5 =
      if-IsFresh (is n "pushfq") _ _ (record { written = f4.written; undefined = f4.undefined })
        f4 in
    elim (Bool-cases (is n "popfq")) [
      | inl p ↦ rw p (
          consistent 2261 0 _ refl
            (stack_end 2261 n a _ (record { written = refl; undefined = f5.undefined })))
      | inr p ↦ rw p (consistent 0 0 _ refl (stack_end 0 n a _ f5))
    ]

pub exchange_effects-IsConsistent :
    (a b : NtX64Operand) (e : NtX64Effects) → IsFresh e → IsConsistent (exchange_effects a b e)
unfolding exchange_effects
exchange_effects-IsConsistent a b e f =
    let f1 = write_operand-IsFresh _ b (write_operand-IsFresh _ a (both_operands a b e f)) in
    fresh _ (if-IsFresh _ _ _ (record { written = f1.written; undefined = f1.undefined }) f1)
