-- ===== src/Lexer/Digits.antt =====
-- The digits and the prefix of an integer literal, apart from how bootstrap/quarantine/c/frontend.c tests
-- them.
use native.Mathlib.Decide.{ℕ_discrete, dec_lt}
use nexoragenesis_toolchain.Base.{
  ℕ, zero, suc, ◌+◌, ◌*◌, ◌≤◌, ◌<◌, ◌≡◌, ◌≢◌, ◌⊎◌, refl, inl, inr, Bool, true, false, ◌&&◌, not,
  List, [], ◌∷◌, ◌==◌, ltb, subst, sym, if◌then◌else◌, arith, Option, some, none, All,
}
use nexoragenesis_toolchain.Memory.{Mem}
use nexoragenesis_toolchain.Lexer.Text.{letter, digit, xdigit, xvalue}
use nexoragenesis_toolchain.Lexer.Literals.{base_digit, base_value, hex_prefix}

-- The digits of the two bases, each with its value.
abbrev digit_table : List (ℕ × ℕ)
digit_table =
    (b'0', 0)
    ∷ (b'1', 1)
    ∷ (b'2', 2)
    ∷ (b'3', 3)
    ∷ (b'4', 4)
    ∷ (b'5', 5)
    ∷ (b'6', 6)
    ∷ (b'7', 7)
    ∷ (b'8', 8)
    ∷ (b'9', 9)
    ∷ (b'a', 10)
    ∷ (b'b', 11)
    ∷ (b'c', 12)
    ∷ (b'd', 13)
    ∷ (b'e', 14)
    ∷ (b'f', 15)
    ∷ (b'A', 10)
    ∷ (b'B', 11)
    ∷ (b'C', 12)
    ∷ (b'D', 13)
    ∷ (b'E', 14)
    ∷ (b'F', 15)
    ∷ []

unfoldable find_digit : ℕ → ℕ → List (ℕ × ℕ) → Option ℕ
find_digit base c [] = none
find_digit base c ((d, v) ∷ ds) =
    if d == c then (if ltb v base then some v else none) else find_digit base c ds

-- The value of a digit of the base, and none of any other byte.
unfoldable pub digit_value : ℕ → ℕ → Option ℕ
unfolding find_digit
digit_value base c = find_digit base c digit_table

-- The number that digits spell in a base behind a value, if they are digits of it; `_` between them
-- says nothing.
unfoldable pub number : ℕ → List ℕ → ℕ → Option ℕ
number base [] value = some value
number base (c ∷ cs) value = elim (digit_value base c) [
  | some d ↦ number base cs (value * base + d)
  | none ↦ if c == b'_' then number base cs value else none
]

-- Whether the code takes a byte as a digit exactly if it is one, and with its value.
digit_agrees : ℕ → ℕ → Bool
digit_agrees base c = elim (digit_value base c) [
  | none ↦ not (base_digit base c)
  | some d ↦ base_digit base c && (d == base_value base c)
]

all_below : (ℕ → Bool) → ℕ → Bool
all_below test zero = true
all_below test (suc n) = test n && all_below test n

all_below-true : (test : ℕ → Bool) (n c : ℕ) → all_below test n ≡ true → c < n → test c ≡ true
unfolding all_below
all_below-true test zero c h lt = absurd (omega arith)
all_below-true test (suc n) c h lt = elim (ℕ_discrete c n) [
  | yes e ↦ subst (λ k. test k ≡ true) (sym e) (ground arith)
  | no e ↦ all_below-true test n c (ground arith) (omega arith)
]

ascii_agrees : (all_below (digit_agrees 16) 128 ≡ true) × (all_below (digit_agrees 10) 128 ≡ true)
unfolding all_below digit_agrees digit_value base_digit base_value xdigit xvalue digit
ascii_agrees = (refl, refl)

find_digit_past :
    (base c : ℕ) (ds : List (ℕ × ℕ))
    → 128 ≤ c
    → All (λ d. d.0 < 128) ds
    → find_digit base c ds ≡ none
unfolding find_digit
find_digit_past base c [] h w = refl
find_digit_past base c ((d, v) ∷ ds) h w =
    let rest = find_digit_past base c ds h w.1 in let below = w.0 in ground arith

module _ (base c : ℕ) (is_base : (base ≡ 16) ⊎ (base ≡ 10)) where
  digit_agrees_lem : c < 128 → digit_agrees base c ≡ true
  digit_agrees_lem lt = elim is_base [
    | inl e ↦ rw e (all_below-true (digit_agrees 16) 128 c ascii_agrees.0 lt)
    | inr e ↦ rw e (all_below-true (digit_agrees 10) 128 c ascii_agrees.1 lt)
  ]

  pub base_digit-value : base_digit base c ≡ true → digit_value base c ≡ some (base_value base c)
  unfolding digit_agrees base_digit xdigit digit
  base_digit-value h = elim (dec_lt c 128) [
    | yes lt ↦ let both = digit_agrees_lem lt in ground arith
    | no ge ↦ absurd (ground arith)
  ]

  pub no_digit-value : base_digit base c ≡ false → digit_value base c ≡ none
  unfolding digit_agrees digit_value
  no_digit-value h = elim (dec_lt c 128) [
    | yes lt ↦ let both = digit_agrees_lem lt in ground arith
    | no ge ↦ find_digit_past base c digit_table (omega arith) (ground arith)
  ]

pub underscore-number :
    (base value : ℕ) (cs : List ℕ) → number base (b'_' ∷ cs) value ≡ number base cs value
unfolding number digit_value find_digit
underscore-number base value cs = refl

pub digit-number :
    (base c value d : ℕ) (cs : List ℕ)
    → digit_value base c ≡ some d
    → number base (c ∷ cs) value ≡ number base cs (value * base + d)
unfolding number
digit-number base c value d cs h = rw (h, number) refl

pub xdigit-value : (c : ℕ) → xdigit c ≡ true → digit_value 16 c ≢ none
unfolding base_digit
xdigit-value c h e = let value = base_digit-value 16 c (inl refl) h in absurd (cc)

-- A letter or `_`, of ASCII.
abbrev pub IsLetter : ℕ → Type 0
IsLetter c = ((b'a' ≤ c) × (c ≤ b'z')) ⊎ (((b'A' ≤ c) × (c ≤ b'Z')) ⊎ (c ≡ b'_'))

pub letter-IsLetter : (c : ℕ) → letter c ≡ false → ¬ IsLetter c
unfolding letter
letter-IsLetter c h (inl small) = absurd (ground arith)
letter-IsLetter c h (inr (inl capital)) = absurd (ground arith)
letter-IsLetter c h (inr (inr underscore)) = absurd (ground arith)

-- `0x` or `0X` in the source.
abbrev pub HexPrefix : Mem → ℕ → ℕ → Type 0
HexPrefix s n at = (s at ≡ b'0') × (at + 1 < n) × ((s (at + 1) ≡ b'x') ⊎ (s (at + 1) ≡ b'X'))

pub hex_prefix-HexPrefix : (s : Mem) (n at : ℕ) → hex_prefix s n at ≡ true → HexPrefix s n at
unfolding hex_prefix
hex_prefix-HexPrefix s n at h = (ground arith, ground arith, ground arith)

pub no_prefix-HexPrefix : (s : Mem) (n at : ℕ) → hex_prefix s n at ≡ false → ¬ HexPrefix s n at
unfolding hex_prefix
no_prefix-HexPrefix s n at h (zero_first, inside, inl x) = ground arith
no_prefix-HexPrefix s n at h (zero_first, inside, inr x) = ground arith
