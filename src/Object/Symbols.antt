-- ===== src/Object/Symbols.antt =====
-- The loop of `nt_object_validate` over the symbols.
use nexoragenesis_toolchain.Base.{
  ℕ, zero, suc, ◌+◌, ◌<◌, ◌≡◌, refl, subst, inl, inr, ◌↔◌, false, List, [], ◌∷◌, Option, none, some,
  length, get_elem?, All, arith, Option-cases,
}
use mathlib.Core.Option.{some-injective}
use nexoragenesis_toolchain.Outcome.{ok, >>-eq-ok}
use nexoragenesis_toolchain.Object.Text.{
  IsText, IsAscii, text_length, text_length_iff, Before, strcmp_trans,
}
use nexoragenesis_toolchain.Object.Validate.{is_none, validate_symbol, validate_symbols}
use nexoragenesis_toolchain.Object.{NtObject, NtObjectSymbol, CString, chars}
use nexoragenesis_toolchain.Object.Spec.{HasTexts, IsSymbol}

text_ok_iff :
    (s : CString) (maximum : ℕ)
    → IsText (chars s)
    → (is_none (text_length s maximum) ≡ false) ↔ IsAscii maximum s
unfolding text_length
text_ok_iff none maximum t = (λ h. cc, λ h. absurd h)
text_ok_iff (some s) maximum t = (
  λ h. elim (Option-cases (text_length (some s) maximum)) [
    | inl e ↦ ground (arith, e)
    | inr (l, e) ↦ ((text_length_iff s maximum l t).0 e).1
  ],
  λ h. let e = (text_length_iff s maximum (length s) t).1 (refl, h) in rw e,
)

-- After the symbol before it, if there is one.
abbrev pub After : Option NtObjectSymbol → NtObjectSymbol → Type 0
After none s = Unit {0}
After (some p) s = Before p.name s.name

validate_symbol_iff :
    (o : NtObject) (j : ℕ) (previous : Option NtObjectSymbol) (s : NtObjectSymbol)
    → HasTexts s
    → (validate_symbol o j previous s ≡ ok tt) ↔ (IsSymbol o s × After previous s)
unfolding validate_symbol
validate_symbol_iff o j none s t =
    let n = text_ok_iff s.name 512 t.0 in
    let c = text_ok_iff s.contract 65536 t.1 in
    (
      λ h. (
        record {
          named = n.0 (ground arith);
          contracted = c.0 (ground arith);
          flags_known = ground arith;
          role = ground arith;
          placed = ground arith;
        },
        tt,
      ),
      λ h. ground (arith, n.1 h.0.named, c.1 h.0.contracted),
    )
validate_symbol_iff o j (some p) s t =
    let n = text_ok_iff s.name 512 t.0 in
    let c = text_ok_iff s.contract 65536 t.1 in
    (
      λ h. (
        record {
          named = n.0 (ground arith);
          contracted = c.0 (ground arith);
          flags_known = ground arith;
          role = ground arith;
          placed = ground arith;
        },
        ground arith,
      ),
      λ h. ground (arith, n.1 h.0.named, c.1 h.0.contracted),
    )

-- Each symbol is in order and comes after the one before it.
pub Chain : NtObject → Option NtObjectSymbol → List NtObjectSymbol → Type 0
Chain o previous [] = Unit {0}
Chain o previous (s ∷ ss) = IsSymbol o s × After previous s × Chain o (some s) ss

pub validate_symbols_iff :
    (o : NtObject) (j : ℕ) (previous : Option NtObjectSymbol) (ss : List NtObjectSymbol)
    → All HasTexts ss
    → (validate_symbols o j previous ss ≡ ok tt) ↔ Chain o previous ss
unfolding validate_symbols Chain
validate_symbols_iff o j previous [] t = (λ h. tt, λ h. refl)
validate_symbols_iff o j previous (s ∷ ss) t =
    let step = validate_symbol_iff o j previous s t.0 in
    let rest = validate_symbols_iff o (j + 1) (some s) ss t.1 in
    (
      λ h.
          let (a, b) = >>-eq-ok (validate_symbol o j previous s) _ h in
          ((step.0 a).0, (step.0 a).1, rest.0 b),
      λ h. rw (step.1 (h.0, h.1)) (rest.1 h.2),
    )

pub Chain-each :
    (o : NtObject) (previous : Option NtObjectSymbol) (ss : List NtObjectSymbol) (j : ℕ)
    (s : NtObjectSymbol)
    → Chain o previous ss
    → get_elem? ss j ≡ some s
    → IsSymbol o s
unfolding Chain
Chain-each o previous [] j s c e = cc
Chain-each o previous (x ∷ ss) zero s c e = subst (IsSymbol o) (some-injective _ _ e) c.0
Chain-each o previous (x ∷ ss) (suc j) s c e = Chain-each o (some x) ss j s c.2 e

Before-trans : (a b c : CString) → Before a b → Before b c → Before a c
Before-trans a b c h k = strcmp_trans (chars a) (chars b) (chars c) h k

Chain-later :
    (o : NtObject) (p : NtObjectSymbol) (ss : List NtObjectSymbol) (j : ℕ) (s : NtObjectSymbol)
    → Chain o (some p) ss
    → get_elem? ss j ≡ some s
    → Before p.name s.name
unfolding Chain
Chain-later o p [] j s c e = cc
Chain-later o p (x ∷ ss) zero s c e =
    subst (λ (y : NtObjectSymbol). Before p.name y.name) (some-injective _ _ e) c.1
Chain-later o p (x ∷ ss) (suc j) s c e =
    Before-trans p.name x.name s.name c.1 (Chain-later o x ss j s c.2 e)

pub Chain-sorted :
    (o : NtObject) (previous : Option NtObjectSymbol) (ss : List NtObjectSymbol) (i j : ℕ)
    (s t : NtObjectSymbol)
    → Chain o previous ss
    → i < j
    → get_elem? ss i ≡ some s
    → get_elem? ss j ≡ some t
    → Before s.name t.name
unfolding Chain
Chain-sorted o previous [] i j s t c h e f = cc
Chain-sorted o previous (x ∷ ss) zero zero s t c h e f = absurd (omega arith)
Chain-sorted o previous (x ∷ ss) zero (suc j) s t c h e f =
    subst (λ (y : NtObjectSymbol). Before y.name t.name) (some-injective _ _ e)
      (Chain-later o x ss j t c.2 f)
Chain-sorted o previous (x ∷ ss) (suc i) zero s t c h e f = absurd (omega arith)
Chain-sorted o previous (x ∷ ss) (suc i) (suc j) s t c h e f =
    Chain-sorted o (some x) ss i j s t c.2 (omega arith) e f

-- The chain from the two facts about all symbols.
pub Chain-intro :
    (o : NtObject) (previous : Option NtObjectSymbol) (ss : List NtObjectSymbol)
    → ((j : ℕ) (s : NtObjectSymbol) → get_elem? ss j ≡ some s → IsSymbol o s)
    → ((j : ℕ) (s : NtObjectSymbol) → get_elem? ss j ≡ some s → After previous s)
    → ((i j : ℕ) (s t : NtObjectSymbol)
        → i < j
        → get_elem? ss i ≡ some s
        → get_elem? ss j ≡ some t
        → Before s.name t.name)
    → Chain o previous ss
unfolding Chain
Chain-intro o previous [] each after sorted = tt
Chain-intro o previous (x ∷ ss) each after sorted = (
  each 0 x refl,
  after 0 x refl,
  Chain-intro o (some x) ss (λ j s e. each (suc j) s e)
      (λ j s e. sorted 0 (suc j) x s (omega arith) refl e)
      (λ i j s t h e f. sorted (suc i) (suc j) s t (omega arith) e f),
)
