-- ===== src/Object/Relocs.antt =====
-- The loop of `nt_object_validate` over the relocations.
use nexoragenesis_toolchain.Base.{
  ℕ, zero, suc, ◌+◌, ◌<◌, ◌≡◌, refl, subst, ◌⊎◌, ◌↔◌, List, [], ◌∷◌, Option, none, some, get_elem?,
  arith,
}
use mathlib.Core.Option.{some-injective}
use nexoragenesis_toolchain.Outcome.{ok, >>-eq-ok}
use nexoragenesis_toolchain.Object.Validate.{validate_reloc, validate_relocs}
use nexoragenesis_toolchain.Object.{NtObject, NtObjectReloc}
use nexoragenesis_toolchain.Object.Spec.{IsReloc, Precedes}

-- After the relocation before it, if there is one.
abbrev pub RelocAfter : Option NtObjectReloc → NtObjectReloc → Type 0
RelocAfter none r = Unit {0}
RelocAfter (some p) r = Precedes p r

-- The loop reads the width of the previous site as 4 or 8; its kind has been tested.
abbrev Known : Option NtObjectReloc → Type 0
Known none = Unit {0}
Known (some p) = (p.kind ≡ 1) ⊎ (p.kind ≡ 2)

validate_reloc_iff :
    (o : NtObject) (j : ℕ) (previous : Option NtObjectReloc) (r : NtObjectReloc)
    → Known previous
    → (validate_reloc o j previous r ≡ ok tt) ↔ (IsReloc o r × RelocAfter previous r)
unfolding validate_reloc
validate_reloc_iff o j none r k = (λ h. ground arith, λ h. ground arith)
validate_reloc_iff o j (some p) r k = (λ h. ground arith, λ h. ground arith)

pub RelocChain : NtObject → Option NtObjectReloc → List NtObjectReloc → Type 0
RelocChain o previous [] = Unit {0}
RelocChain o previous (r ∷ rs) = IsReloc o r × RelocAfter previous r × RelocChain o (some r) rs

pub validate_relocs_iff :
    (o : NtObject) (j : ℕ) (previous : Option NtObjectReloc) (rs : List NtObjectReloc)
    → Known previous
    → (validate_relocs o j previous rs ≡ ok tt) ↔ RelocChain o previous rs
unfolding validate_relocs RelocChain
validate_relocs_iff o j previous [] k = (λ h. tt, λ h. refl)
validate_relocs_iff o j previous (r ∷ rs) k =
    let step = validate_reloc_iff o j previous r k in
    (
      λ h.
          let (a, b) = >>-eq-ok (validate_reloc o j previous r) _ h in
          let rest = validate_relocs_iff o (j + 1) (some r) rs (step.0 a).0.kind_known in
          ((step.0 a).0, (step.0 a).1, rest.0 b),
      λ h.
          let rest = validate_relocs_iff o (j + 1) (some r) rs h.0.kind_known in
          rw (step.1 (h.0, h.1)) (rest.1 h.2),
    )

pub RelocChain-each :
    (o : NtObject) (previous : Option NtObjectReloc) (rs : List NtObjectReloc) (j : ℕ)
    (r : NtObjectReloc)
    → RelocChain o previous rs
    → get_elem? rs j ≡ some r
    → IsReloc o r
unfolding RelocChain
RelocChain-each o previous [] j r c e = cc
RelocChain-each o previous (x ∷ rs) zero r c e = subst (IsReloc o) (some-injective _ _ e) c.0
RelocChain-each o previous (x ∷ rs) (suc j) r c e = RelocChain-each o (some x) rs j r c.2 e

Precedes-trans : (p q r : NtObjectReloc) → Precedes p q → Precedes q r → Precedes p r
Precedes-trans p q r h k = omega arith

RelocChain-later :
    (o : NtObject) (p : NtObjectReloc) (rs : List NtObjectReloc) (j : ℕ) (r : NtObjectReloc)
    → RelocChain o (some p) rs
    → get_elem? rs j ≡ some r
    → Precedes p r
unfolding RelocChain
RelocChain-later o p [] j r c e = cc
RelocChain-later o p (x ∷ rs) zero r c e = subst (Precedes p) (some-injective _ _ e) c.1
RelocChain-later o p (x ∷ rs) (suc j) r c e =
    Precedes-trans p x r c.1 (RelocChain-later o x rs j r c.2 e)

pub RelocChain-disjoint :
    (o : NtObject) (previous : Option NtObjectReloc) (rs : List NtObjectReloc) (i j : ℕ)
    (p r : NtObjectReloc)
    → RelocChain o previous rs
    → i < j
    → get_elem? rs i ≡ some p
    → get_elem? rs j ≡ some r
    → Precedes p r
unfolding RelocChain
RelocChain-disjoint o previous [] i j p r c h e f = cc
RelocChain-disjoint o previous (x ∷ rs) zero zero p r c h e f = absurd (omega arith)
RelocChain-disjoint o previous (x ∷ rs) zero (suc j) p r c h e f =
    subst (λ (y : NtObjectReloc). Precedes y r) (some-injective _ _ e)
      (RelocChain-later o x rs j r c.2 f)
RelocChain-disjoint o previous (x ∷ rs) (suc i) zero p r c h e f = absurd (omega arith)
RelocChain-disjoint o previous (x ∷ rs) (suc i) (suc j) p r c h e f =
    RelocChain-disjoint o (some x) rs i j p r c.2 (omega arith) e f

pub RelocChain-intro :
    (o : NtObject) (previous : Option NtObjectReloc) (rs : List NtObjectReloc)
    → ((j : ℕ) (r : NtObjectReloc) → get_elem? rs j ≡ some r → IsReloc o r)
    → ((j : ℕ) (r : NtObjectReloc) → get_elem? rs j ≡ some r → RelocAfter previous r)
    → ((i j : ℕ) (p r : NtObjectReloc)
        → i < j
        → get_elem? rs i ≡ some p
        → get_elem? rs j ≡ some r
        → Precedes p r)
    → RelocChain o previous rs
unfolding RelocChain
RelocChain-intro o previous [] each after ordered = tt
RelocChain-intro o previous (x ∷ rs) each after ordered = (
  each 0 x refl,
  after 0 x refl,
  RelocChain-intro o (some x) rs (λ j r e. each (suc j) r e)
      (λ j r e. ordered 0 (suc j) x r (omega arith) refl e)
      (λ i j p r h e f. ordered (suc i) (suc j) p r (omega arith) e f),
)
